-- ===== src/Panzer/Path/Segments.antt =====
-- stripIndices against its description, and parsePath on a path that runs through the AoS.
use imas_core.Prelude.{
  ℕ, Bool, true, false, not, ◌&&◌, List, [], ◌∷◌, ◌++◌, ◌≡◌, refl, arith, Option, none, some, Text,
  find, starts_with, length, take, drop, ◌==◌, is_empty, append_assoc, if◌then◌else◌, Bool-cases,
  inl, inr, length-append, take-append-drop, ap, sym, ◌∙◌, append-nil,
}
use imas_core.Panzer.Path.{
  all_digits, add_segment, strip_loop, strip_indices, parse_path, split_remainder, PathComponents,
}

-- The segments between slashes; `segment` is the one that was begun.
abbrev pub split_from : Text → Text → List Text
split_from segment [] = segment ∷ []
split_from segment (c ∷ path) =
    let next = split_from (if c == b'/' then [] else segment ++ (c ∷ [])) path in
    if c == b'/' then segment ∷ next else next

abbrev pub is_index : Text → Bool
is_index segment = not (is_empty segment) && all_digits segment

-- The segments that stripIndices keeps.
abbrev pub keep_names : List Text → List Text
keep_names [] = []
keep_names (s ∷ ss) =
    if not (is_empty s) && not (is_index s) then s ∷ keep_names ss else keep_names ss

-- Joins segments behind `result`, with a slash where there is text before.
abbrev pub join_onto : Text → List Text → Text
join_onto result [] = result
join_onto result (s ∷ ss) =
    join_onto ((if not (is_empty result) then result ++ (b'/' ∷ []) else result) ++ s) ss

strip_loop-join :
    (path result segment : Text)
    → strip_loop result segment path ≡ join_onto result (keep_names (split_from segment path))
unfolding strip_loop add_segment
strip_loop-join [] result segment = ground arith
strip_loop-join (c ∷ path) result segment = ground (
  arith,
  strip_loop-join path result (segment ++ (c ∷ [])),
  strip_loop-join path (add_segment result segment) [],
)

-- stripIndices drops the empty and the purely numeric segments of the path and joins the others by
-- one slash each.
pub strip_indices-join :
    (path : Text) → strip_indices path ≡ join_onto [] (keep_names (split_from [] path))
unfolding strip_indices
strip_indices-join path = strip_loop-join path [] []

find-append-none :
    (c : ℕ) (xs ys : Text) → find c xs ≡ none → find c (xs ++ (c ∷ ys)) ≡ some (length xs)
unfolding find
find-append-none c [] ys h = ground arith
find-append-none c (x ∷ xs) ys h = ground (arith, find-append-none c xs ys)

starts_with-append : (p s : Text) → starts_with p (p ++ s) ≡ true
unfolding starts_with
starts_with-append [] s = refl
starts_with-append (c ∷ p) s = ground (arith, starts_with-append p s)

starts_with-drop : (p s : Text) → starts_with p s ≡ true → s ≡ p ++ drop (length p) s
unfolding starts_with
starts_with-drop [] s h = refl
starts_with-drop (c ∷ p) [] h = cc
starts_with-drop (c ∷ p) (d ∷ s) h = ground (arith, starts_with-drop p s)

drop-length-append : (xs ys : Text) → drop (length xs) (xs ++ ys) ≡ ys
drop-length-append [] ys = refl
drop-length-append (x ∷ xs) ys = drop-length-append xs ys

take-length-append : (xs ys : Text) → take (length xs) (xs ++ ys) ≡ xs
take-length-append [] ys = refl
take-length-append (x ∷ xs) ys = rw (take-length-append xs ys)

abbrev pub components : Text → Text → Text → PathComponents
components aos_path index_str suffix = record {
  prefix = aos_path;
  index_str = index_str;
  suffix = suffix;
  has_index = true;
}

parse_path-prefixed :
    (aos_path rest : Text)
    → parse_path (aos_path ++ (b'/' ∷ rest)) aos_path
      ≡ split_remainder aos_path rest (find b'/' rest)
unfolding parse_path
parse_path-prefixed aos_path rest = ground (
  arith,
  append_assoc aos_path (b'/' ∷ []) rest,
  starts_with-append (aos_path ++ (b'/' ∷ [])) rest,
  drop-length-append (aos_path ++ (b'/' ∷ [])) rest,
  length-append aos_path (b'/' ∷ rest),
)

-- parsePath splits a path through the AoS, whose index holds no slash, into the index and what
-- follows it.
pub parse_path-element :
    (aos_path index_str rest : Text)
    → find b'/' index_str ≡ none
    → parse_path (aos_path ++ (b'/' ∷ (index_str ++ (b'/' ∷ rest)))) aos_path
      ≡ components aos_path index_str (b'/' ∷ rest)
unfolding split_remainder
parse_path-element aos_path index_str rest h = rw (
  parse_path-prefixed aos_path,
  find-append-none b'/' index_str rest h,
  take-length-append index_str,
  drop-length-append index_str,
)

split_remainder-rebuild :
    (aos_path remainder : Text) (slash : Option ℕ)
    → (split_remainder aos_path remainder slash).index_str
        ++ (split_remainder aos_path remainder slash).suffix
      ≡ remainder
unfolding split_remainder
split_remainder-rebuild aos_path remainder none = append-nil remainder
split_remainder-rebuild aos_path remainder (some n) = take-append-drop n remainder

parse_path-refused :
    (path aos_path : Text)
    → starts_with (aos_path ++ (b'/' ∷ [])) path ≡ false
    → (parse_path path aos_path).has_index ≡ false
unfolding parse_path
parse_path-refused path aos_path h = ground arith

-- The parts of a path that parsePath accepts spell the path.
pub parse_path-rebuild :
    (path aos_path : Text)
    → (parse_path path aos_path).has_index ≡ true
    → path
      ≡ aos_path
        ++ (b'/' ∷ ((parse_path path aos_path).index_str ++ (parse_path path aos_path).suffix))
parse_path-rebuild path aos_path h =
    elim (Bool-cases (starts_with (aos_path ++ (b'/' ∷ [])) path)) [
      | inl yes' ↦
          let rest = drop (length (aos_path ++ (b'/' ∷ []))) path in
          let e : path ≡ aos_path ++ (b'/' ∷ rest) =
            starts_with-drop (aos_path ++ (b'/' ∷ [])) path yes'
            ∙ append_assoc aos_path (b'/' ∷ []) rest in
          e
          ∙ ap (λ t. aos_path ++ (b'/' ∷ t))
              (sym (split_remainder-rebuild aos_path rest (find b'/' rest)))
          ∙ ap (λ (c : PathComponents). aos_path ++ (b'/' ∷ (c.index_str ++ c.suffix)))
              (sym (parse_path-prefixed aos_path rest) ∙ ap (λ t. parse_path t aos_path) (sym e))
      | inr no' ↦ cc (parse_path-refused path aos_path no')
    ]
