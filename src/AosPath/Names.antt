-- ===== src/AosPath/Names.antt =====
-- What the helpers make of paths through the open levels.
use mathlib.Core.List.{reverse, reverse-cons}
use imas_core.Prelude.{
  ℕ, suc, Bool, true, false, not, List, [], ◌∷◌, ◌++◌, Text, codes, text_eq, is_empty, starts_with,
  length, length-append, get_or, drop, map, min, ◌==◌, if◌then◌else◌, ◌≡◌, refl, sym, ap, ◌∙◌,
  arith, append_assoc, append-nil,
}
use imas_core.Prelude.Int.{ℤ}
use imas_core.AosPath.{
  AosContext, flatten, local_aos_name, collect_aos_chain, matched, context_segments, path_segments,
  join_segments, drop_first, sanitize_aos_path,
}

-- The local names from the root down.
abbrev pub root_first : List AosContext → List Text
root_first [] = []
root_first (context ∷ above) = root_first above ++ (local_aos_name context above ∷ [])

collect-onto :
    (chain : List AosContext) (names : List Text) (indices : List ℤ) (timed : List Bool)
    → collect_aos_chain chain (names, indices, timed) ≡ (
      root_first chain ++ names,
      reverse (map (λ (c : AosContext). c.index) chain) ++ indices,
      reverse (map (λ (c : AosContext). c.timed) chain) ++ timed,
    )
unfolding collect_aos_chain
collect-onto [] names indices timed = refl
collect-onto (context ∷ above) names indices timed =
    collect-onto above (local_aos_name context above ∷ names) (context.index ∷ indices)
      (context.timed ∷ timed)
    ∙ simp (reverse-cons, append_assoc)

-- collectAosChain gives the local names of the open levels, their indices and their flags, each
-- from the root down.
pub collect_aos_chain-root_first :
    (chain : List AosContext)
    → collect_aos_chain chain ([], [], []) ≡ (
      root_first chain,
      reverse (map (λ (c : AosContext). c.index) chain),
      reverse (map (λ (c : AosContext). c.timed) chain),
    )
collect_aos_chain-root_first chain = collect-onto chain [] [] [] ∙ simp append-nil

starts_with-append : (xs ys : Text) → starts_with xs (xs ++ ys) ≡ true
unfolding starts_with
starts_with-append [] ys = refl
starts_with-append (x ∷ xs) ys = ground (arith, starts_with-append xs ys)

get_or-append : (xs : Text) (c : ℕ) (ys : Text) → get_or (xs ++ (c ∷ ys)) (length xs) 0 ≡ c
get_or-append [] c ys = refl
get_or-append (x ∷ xs) c ys = get_or-append xs c ys

drop-append : (xs : Text) (c : ℕ) (ys : Text) → drop (suc (length xs)) (xs ++ (c ∷ ys)) ≡ ys
drop-append [] c ys = refl
drop-append (x ∷ xs) c ys = drop-append xs c ys

matched-append : (ctx rest : Text) → matched ctx (ctx ++ (b'/' ∷ rest)) ≡ true
matched-append ctx rest =
    rw (get_or-append ctx b'/' rest, starts_with-append ctx (b'/' ∷ rest))
      (ground (arith, length-append ctx (b'/' ∷ rest)))

-- A path with a slash inside is not one of the two special ones.
not_time : (c : ℕ) (ctx rest : Text) → (text_eq (c ∷ (ctx ++ (b'/' ∷ rest))) (codes "time") ≡ false)
unfolding text_eq
not_time c [] rest = ground arith
not_time c (d ∷ []) rest = ground arith
not_time c (d ∷ e ∷ []) rest = ground arith
not_time c (d ∷ e ∷ f ∷ []) rest = ground arith
not_time c (d ∷ e ∷ f ∷ g ∷ ctx) rest = ground arith

not_slash_time :
    (c : ℕ) (path : Text) → (c == b'/') ≡ false → text_eq (c ∷ path) (codes "/time") ≡ false
unfolding text_eq
not_slash_time c path h = ground arith

abbrev around : Text → Text → List Text
around ctx rest =
    if not (is_empty (flatten rest)) then flatten rest ∷ flatten ctx ∷ [] else flatten ctx ∷ []

join_segments-around :
    (ctx rest : Text)
    → join_segments (around ctx rest)
      ≡ b'/' ∷ (flatten ctx ++ (if is_empty rest then [] else b'/' ∷ flatten rest))
unfolding join_segments
join_segments-around ctx [] = ap (λ t. b'/' ∷ t) (sym (append-nil (flatten ctx)))
join_segments-around ctx (c ∷ rest) = refl

suffix-append :
    (ctx rest : Text)
    → drop (min (suc (length ctx)) (length (ctx ++ (b'/' ∷ rest)))) (ctx ++ (b'/' ∷ rest)) ≡ rest
suffix-append ctx rest =
    ap (λ n. drop n (ctx ++ (b'/' ∷ rest))) {y = suc (length ctx)}
      (omega (arith, length-append ctx (b'/' ∷ rest)))
    ∙ drop-append ctx b'/' rest

context_segments-append :
    (ctx rest : Text)
    → join_segments (context_segments ctx (ctx ++ (b'/' ∷ rest)))
      ≡ b'/' ∷ (flatten ctx ++ (if is_empty rest then [] else b'/' ∷ flatten rest))
context_segments-append ctx rest =
    ap (λ t. join_segments (around ctx t)) (suffix-append ctx rest) ∙ join_segments-around ctx rest

sanitize_aos_path-relative :
    (ctx_paths : List Text) (c : ℕ) (path : Text)
    → (c == b'/') ≡ false
    → text_eq (c ∷ path) (codes "time") ≡ false
    → sanitize_aos_path ctx_paths (c ∷ path)
      ≡ drop_first (join_segments (path_segments ctx_paths (c ∷ path)))
unfolding sanitize_aos_path
sanitize_aos_path-relative ctx_paths c path h k = rw (not_slash_time c path h, k, h) refl

path_segments-matched :
    (c : ℕ) (ctx : Text) (ctx_paths : List Text) (remaining : Text)
    → matched (c ∷ ctx) remaining ≡ true
    → path_segments ((c ∷ ctx) ∷ ctx_paths) remaining ≡ context_segments (c ∷ ctx) remaining
unfolding path_segments
path_segments-matched c ctx ctx_paths remaining m = rw m refl

-- A path that runs through the deepest open context, whose path is not empty and does not start
-- with a slash, is given by sanitizeAosPath as the context path and what follows it, each as one
-- level with '&' for its slashes; a path that ends behind the context's slash gives the context's
-- level alone.
pub sanitize_aos_path-under :
    (c : ℕ) (ctx rest : Text) (ctx_paths : List Text)
    → (c == b'/') ≡ false
    → sanitize_aos_path ((c ∷ ctx) ∷ ctx_paths) ((c ∷ ctx) ++ (b'/' ∷ rest))
      ≡ flatten (c ∷ ctx) ++ (if is_empty rest then [] else b'/' ∷ flatten rest)
sanitize_aos_path-under c ctx rest ctx_paths h =
    sanitize_aos_path-relative ((c ∷ ctx) ∷ ctx_paths) c (ctx ++ (b'/' ∷ rest)) h
      (not_time c ctx rest)
    ∙ ap (λ t. drop_first (join_segments t))
        (path_segments-matched c ctx ctx_paths ((c ∷ ctx) ++ (b'/' ∷ rest))
          (matched-append (c ∷ ctx) rest))
    ∙ ap drop_first (context_segments-append (c ∷ ctx) rest)
