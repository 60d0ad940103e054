-- ===== src/Uri/Parts.antt =====
-- parse_uri takes a URI apart where its marks stand.
use imas_core.Prelude.{
  ℕ, suc, Bool, true, false, ◌||◌, List, [], ◌∷◌, ◌++◌, none, some, Text, is_empty, length, take,
  drop, map, ◌==◌, starts_with, ◌≡◌, refl, sym, ap, ◌∙◌, arith, append_assoc, append-nil, All,
}
use imas_core.Uri.{
  Error, no_authority, QueryDict, find_if, all_scheme, valid_scheme, to_lower, parse_scheme,
  parse_path, parse_query, parse_args, insert_arg, is_delimiter, parse_authority, parse_uri, Uri,
}

find_if-append :
    (test : ℕ → Bool) (xs : Text) (c : ℕ) (ys : Text)
    → find_if test xs ≡ none
    → test c ≡ true
    → find_if test (xs ++ (c ∷ ys)) ≡ some (length xs)
unfolding find_if
find_if-append test [] c ys h t = ground arith
find_if-append test (x ∷ xs) c ys h t = ground (arith, find_if-append test xs c ys)

take-length-append : (xs ys : Text) → take (length xs) (xs ++ ys) ≡ xs
take-length-append [] ys = refl
take-length-append (x ∷ xs) ys = ap (λ t. x ∷ t) (take-length-append xs ys)

drop-length-append : (xs : Text) (c : ℕ) (ys : Text) → drop (suc (length xs)) (xs ++ (c ∷ ys)) ≡ ys
drop-length-append [] c ys = refl
drop-length-append (x ∷ xs) c ys = drop-length-append xs c ys

scheme-find_if : (scheme : Text) → all_scheme scheme ≡ true → find_if (λ c. c == b':') scheme ≡ none
unfolding find_if all_scheme
scheme-find_if [] h = refl
scheme-find_if (c ∷ scheme) h = ground (arith, scheme-find_if scheme)

parse_scheme-split :
    (scheme rest : Text)
    → valid_scheme scheme ≡ true
    → parse_scheme (scheme ++ (b':' ∷ rest)) ≡ some (map to_lower scheme, rest)
unfolding parse_scheme
parse_scheme-split scheme rest h =
    rw
      (
        find_if-append (λ c. c == b':') scheme b':' rest (scheme-find_if scheme (ground (arith, h)))
            refl,
        take-length-append scheme (b':' ∷ rest),
        drop-length-append scheme b':' rest,
        h,
      )
      refl

abbrev is_mark : ℕ → Bool
is_mark c = (c == b'#') || (c == b'?')

parse_path-split :
    (path : Text) (mark : ℕ) (rest : Text)
    → find_if is_mark path ≡ none
    → is_mark mark ≡ true
    → parse_path (path ++ (mark ∷ rest)) ≡ (path, rest)
unfolding parse_path
parse_path-split path mark rest h m =
    rw
      (
        find_if-append is_mark path mark rest h m,
        take-length-append path (mark ∷ rest),
        drop-length-append path mark rest,
      )
      refl

parse_authority-none :
    (path : Text) (mark : ℕ) (rest : Text)
    → starts_with (b'/' ∷ b'/' ∷ []) path ≡ false
    → (mark == b'/') ≡ false
    → parse_authority (path ++ (mark ∷ rest)) ≡ some (no_authority, path ++ (mark ∷ rest))
unfolding parse_authority starts_with
parse_authority-none [] mark rest h m = ground arith
parse_authority-none (a ∷ []) mark rest h m = ground arith
parse_authority-none (a ∷ b ∷ path) mark rest h m = ground arith

parse_query-hash :
    (query fragment : Text)
    → find_if (λ c. c == b'#') query ≡ none
    → parse_query (query ++ (b'#' ∷ fragment)) ≡ (parse_args [] query [], fragment)
unfolding parse_query
parse_query-hash query fragment h =
    rw
      (
        find_if-append (λ c. c == b'#') query b'#' fragment h refl,
        take-length-append query (b'#' ∷ fragment),
        drop-length-append query b'#' fragment,
      )
      refl

parse_query-bare :
    (query : Text)
    → find_if (λ c. c == b'#') query ≡ none
    → parse_query query ≡ (parse_args [] query [], query)
unfolding parse_query
parse_query-bare query h = rw h refl

-- The URI in its parts, without an authority.
abbrev pub parts : Text → Text → QueryDict → Text → Uri
parts scheme path query fragment = record {
  error = Error.none_set;
  scheme = map to_lower scheme;
  authority = no_authority;
  path = path;
  query = query;
  fragment = fragment;
}

-- A path that stops at the first mark, and is no authority.
abbrev pub IsPath : Text → Type 0
IsPath path =
    (find_if (λ c. (c == b'#') || (c == b'?')) path ≡ none)
    × (starts_with (b'/' ∷ b'/' ∷ []) path ≡ false)

parse_uri-marked :
    (scheme path : Text) (mark : ℕ) (rest : Text)
    → valid_scheme scheme ≡ true
    → IsPath path
    → is_mark mark ≡ true
    → parse_uri (scheme ++ (b':' ∷ (path ++ (mark ∷ rest))))
      ≡ parts scheme path (parse_query rest).0 (parse_query rest).1
unfolding parse_uri
parse_uri-marked scheme path mark rest s p m =
    rw
      (
        parse_scheme-split scheme (path ++ (mark ∷ rest)) s,
        parse_authority-none path mark rest p.1 (ground (arith, m)),
        parse_path-split path mark rest p.0 m,
      )
      refl

-- parse_uri takes the text scheme:path?query#fragment apart into the scheme in lower case, the
-- path, the arguments of the query and the fragment, where the scheme is valid, the path holds no
-- mark and does not start with two slashes, and the query holds no '#'.
pub parse_uri-parts :
    (scheme path query fragment : Text)
    → valid_scheme scheme ≡ true
    → IsPath path
    → find_if (λ c. c == b'#') query ≡ none
    → parse_uri (scheme ++ (b':' ∷ (path ++ (b'?' ∷ (query ++ (b'#' ∷ fragment))))))
      ≡ parts scheme path (parse_args [] query []) fragment
parse_uri-parts scheme path query fragment s p q =
    parse_uri-marked scheme path b'?' (query ++ (b'#' ∷ fragment)) s p refl
    ∙ ap (λ (r : QueryDict × Text). parts scheme path r.0 r.1) (parse_query-hash query fragment q)

-- A URI scheme:path?query without a '#', with the conditions of parse_uri-parts, is given the
-- whole text of the query as its fragment.
pub parse_uri-bare :
    (scheme path query : Text)
    → valid_scheme scheme ≡ true
    → IsPath path
    → find_if (λ c. c == b'#') query ≡ none
    → parse_uri (scheme ++ (b':' ∷ (path ++ (b'?' ∷ query))))
      ≡ parts scheme path (parse_args [] query []) query
parse_uri-bare scheme path query s p q =
    parse_uri-marked scheme path b'?' query s p refl
    ∙ ap (λ (r : QueryDict × Text). parts scheme path r.0 r.1) (parse_query-bare query q)

-- An argument that holds no delimiter.
abbrev pub IsArgument : Text → Type 0
IsArgument arg = find_if is_delimiter arg ≡ none

-- Arguments, each behind the first with an ampersand before it.
abbrev pub ampersands : Text → List Text → Text
ampersands first [] = first
ampersands first (arg ∷ args) = first ++ (b'&' ∷ ampersands arg args)

abbrev pub insert_args : List Text → QueryDict → QueryDict
insert_args [] query = query
insert_args (arg ∷ args) query = insert_args args (insert_arg arg query)

not_at : (c : ℕ) (arg : Text) → IsArgument (c ∷ arg) → (is_delimiter c ≡ false) × IsArgument arg
unfolding find_if
not_at c arg h = (ground (arith, h), ground (arith, h))

pub parse_args-argument :
    (begun arg rest : Text) (query : QueryDict)
    → IsArgument arg
    → parse_args begun (arg ++ rest) query ≡ parse_args (begun ++ arg) rest query
unfolding parse_args find_if
parse_args-argument begun [] rest query h =
    ap (λ t. parse_args t rest query) (sym (append-nil begun))
parse_args-argument begun (c ∷ arg) rest query h =
    let kept : is_delimiter c ≡ false = (not_at c arg h).0 in
    rw kept (parse_args-argument (begun ++ (c ∷ [])) arg rest query (not_at c arg h).1)
    ∙ ap (λ t. parse_args t rest query) (append_assoc begun (c ∷ []) arg)

-- The loop of parse_query on arguments that are joined by ampersands, none of them empty or with a
-- delimiter inside, inserts each of them in order.
pub parse_args-insert_args :
    (first : Text) (args : List Text) (query : QueryDict)
    → All IsArgument (first ∷ args)
    → All (λ arg. is_empty arg ≡ false) (first ∷ args)
    → parse_args [] (ampersands first args) query ≡ insert_args (first ∷ args) query
unfolding parse_args
parse_args-insert_args first [] query h e =
    ap (λ t. parse_args [] t query) (sym (append-nil first))
    ∙ parse_args-argument [] first [] query h.0
    ∙ rw e.0 refl
parse_args-insert_args first (arg ∷ args) query h e =
    parse_args-argument [] first (b'&' ∷ ampersands arg args) query h.0
    ∙ parse_args-insert_args arg args (insert_arg first query) h.1 e.1
