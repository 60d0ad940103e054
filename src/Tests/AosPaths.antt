-- ===== src/Tests/AosPaths.antt =====
-- Names and paths of open levels.
use mathlib.Core.List.{reverse}
use imas_core.Prelude.{
  [], ◌∷◌, ◌++◌, true, false, ◌≡◌, ◌==◌, refl, codes, map, text_eq, is_empty, if◌then◌else◌, List,
}
use imas_core.Prelude.Int.{pos}
use imas_core.AosPath.{
  AosContext, flatten, collect_aos_chain, local_aos_name, sanitize_aos_path, path_segments,
  join_segments,
}
use imas_core.AosPath.Names.{root_first, collect_aos_chain-root_first, sanitize_aos_path-under}

-- `a/b`, and in its third element `a/b/c/d`.
abbrev chain : List AosContext
chain =
    record { path = codes "a/b/c/d"; index = pos 0; timed = false }
    ∷ record { path = codes "a/b"; index = pos 2; timed = true }
    ∷ []

collect_aos_chain-root_first_example : collect_aos_chain chain ([], [], []) ≡ (
  root_first chain,
  reverse (map (λ (c : AosContext). c.index) chain),
  reverse (map (λ (c : AosContext). c.timed) chain),
)
collect_aos_chain-root_first_example = collect_aos_chain-root_first chain

names_test : root_first chain ≡ codes "a&b" ∷ codes "c&d" ∷ []
unfolding local_aos_name imas_core.Prelude.starts_with
names_test = refl

sanitize_aos_path-under_example :
    sanitize_aos_path (codes "a/b" ∷ codes "a" ∷ []) (codes "a/b" ++ (b'/' ∷ codes "c/a"))
    ≡ flatten (codes "a/b") ++ (if is_empty (codes "c/a") then [] else b'/' ∷ flatten (codes "c/a"))
sanitize_aos_path-under_example =
    sanitize_aos_path-under b'a' (codes "/b") (codes "c/a") (codes "a" ∷ []) refl

levels_test : sanitize_aos_path [] (codes "/p//q") ≡ codes "/p/q"
unfolding sanitize_aos_path path_segments join_segments text_eq
levels_test = refl
