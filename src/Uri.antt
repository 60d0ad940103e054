-- ===== src/Uri.antt =====
-- include/uri_parser.h: QueryDict and parse_uri with its parts. A position that `find` does not find is
-- npos, the largest number: adding one to it gives 0.
pub mod Parts
use imas_core.Prelude.{
  ℕ, suc, ◌+◌, ◌-◌, ◌*◌, ◌^◌, min, Bool, true, false, not, ◌&&◌, ◌||◌, List, [], ◌∷◌, ◌++◌, Option,
  none, some, Text, Dict, codes, lookup, assign, erase, text_eq, is_empty, length, get_or, take,
  drop, map, leb, ltb, ◌==◌, if◌then◌else◌,
}
use imas_core.Prelude.Int.{ℤ, pos, negsuc}

pub data Error : Type 0 where
  none_set invalid_scheme invalid_port : Error

pub record Authority : Type 0 where
  pub authority : Text
  pub userinfo : Text
  pub host : Text
  pub port : ℤ

abbrev pub no_authority : Authority
no_authority = record { authority = []; userinfo = []; host = []; port = pos 0 }

-- The sets of values, without repetition.
abbrev pub QueryDict : Type 0
QueryDict = Dict (List Text)

unfoldable pub has_value : Text → List Text → Bool
has_value value [] = false
has_value value (v ∷ values) = text_eq v value || has_value value values

-- `set.insert(value)`.
abbrev pub add_value : Text → List Text → List Text
add_value value values = if has_value value values then values else values ++ (value ∷ [])

abbrev pub value_set : Text → List Text
value_set value = if is_empty value then [] else value ∷ []

-- QueryDict::set.
unfoldable pub set_argument : Text → Text → QueryDict → QueryDict
set_argument name value query = assign name (value_set value) query

abbrev pub insert_into : Text → Text → QueryDict → Option (List Text) → QueryDict
insert_into name value query none = assign name (value_set value) query
insert_into name value query (some values) =
    if is_empty value then query else assign name (add_value value values) query

-- QueryDict::insert.
unfoldable pub insert_argument : Text → Text → QueryDict → QueryDict
insert_argument name value query = insert_into name value query (lookup name query)

-- QueryDict::remove; the flag says whether the argument was there.
unfoldable pub remove_argument : Text → QueryDict → Bool × QueryDict
remove_argument name query = elim (lookup name query) [
  | none ↦ (false, query)
  | some values ↦ (true, erase name query)
]

-- `find_first_of`, for a test of one byte.
unfoldable pub find_if : (ℕ → Bool) → Text → Option ℕ
find_if test [] = none
find_if test (c ∷ text) =
    let later = find_if test text in
    if test c then some 0 else elim later [ none ↦ none | some i ↦ some (suc i) ]

-- `substr(0, pos)` and `substr(pos + 1)`.
abbrev pub up_to : Option ℕ → Text → Text
up_to none text = text
up_to (some i) text = take i text

abbrev pub behind : Option ℕ → Text → Text
behind none text = text
behind (some i) text = drop (suc i) text

abbrev pub in_range : ℕ → ℕ → ℕ → Bool
in_range low high c = leb low c && leb c high

abbrev pub scheme_char : ℕ → Bool
scheme_char c =
    in_range b'0' b'9' c
    || in_range b'A' b'Z' c
    || in_range b'a' b'z' c
    || (c == b'+')
    || (c == b'.')
    || (c == b'-')

unfoldable pub all_scheme : Text → Bool
all_scheme [] = true
all_scheme (c ∷ text) = scheme_char c && all_scheme text

-- valid_scheme.
abbrev pub valid_scheme : Text → Bool
valid_scheme scheme = not (is_empty scheme) && all_scheme scheme

abbrev pub to_lower : ℕ → ℕ
to_lower c = if in_range b'A' b'Z' c then c + 32 else c

-- parse_scheme: the scheme and what follows, or an error.
unfoldable pub parse_scheme : Text → Option (Text × Text)
unfolding find_if all_scheme
parse_scheme uri = scheme_at (find_if (λ c. c == b':') uri)
  where
    scheme_at : Option ℕ → Option (Text × Text)
    scheme_at none = none
    scheme_at (some i) =
        if not (valid_scheme (take i uri))
        then none
        else some (map to_lower (take i uri), drop (suc i) uri)

abbrev pub path_at : Text → Option ℕ → Text × Text
path_at uri none = (uri, [])
path_at uri (some i) = (take i uri, drop (suc i) uri)

-- parse_path.
unfoldable pub parse_path : Text → Text × Text
unfolding find_if
parse_path uri = path_at uri (find_if (λ c. (c == b'#') || (c == b'?')) uri)

abbrev pub insert_split : Text → QueryDict → Option ℕ → QueryDict
insert_split arg query none = insert_argument arg [] query
insert_split arg query (some i) = insert_argument (take i arg) (drop (suc i) arg) query

-- One argument of a query.
unfoldable pub insert_arg : Text → QueryDict → QueryDict
unfolding find_if insert_argument
insert_arg arg query = insert_split arg query (find_if (λ c. c == b'=') arg)

abbrev pub is_delimiter : ℕ → Bool
is_delimiter c = (c == b'&') || (c == b';') || (c == b'?')

-- The loop of parse_query: `arg` holds the bytes of the argument that was begun. It ends where nothing is
-- left, so that a delimiter at the end adds no argument.
unfoldable pub parse_args : Text → Text → QueryDict → QueryDict
unfolding insert_arg
parse_args arg [] query = if is_empty arg then query else insert_arg arg query
parse_args arg (c ∷ text) query =
    if is_delimiter c
    then parse_args [] text (insert_arg arg query)
    else parse_args (arg ++ (c ∷ [])) text query

-- parse_query.
unfoldable pub parse_query : Text → QueryDict × Text
unfolding parse_args find_if
parse_query uri =
    let hash_pos = find_if (λ c. c == b'#') uri in
    (parse_args [] (up_to hash_pos uri) [], behind hash_pos uri)

-- `strtol` in base 10: the value, and whether it read the text to its end.
pub record Number : Type 0 where
  pub value : ℤ
  pub whole : Bool

abbrev is_digit : ℕ → Bool
is_digit c = in_range b'0' b'9' c

read_digits : ℕ → Text → ℕ × Bool
read_digits n [] = (n, true)
read_digits n (c ∷ text) =
    let rest = read_digits (n * 10 + (c - b'0')) text in if is_digit c then rest else (n, false)

-- A value out of range is the nearest `long`.
abbrev signed : Bool → ℕ → ℤ
signed true n = if n == 0 then pos 0 else negsuc (min (n - 1) (2 ^ 63 - 1))
signed false n = pos (min n (2 ^ 63 - 1))

-- The digits behind the sign; without one nothing is read.
number_at : Bool → Bool → Text → Number
unfolding read_digits
number_at nothing negative [] = record { value = pos 0; whole = nothing }
number_at nothing negative (c ∷ text) =
    if is_digit c
    then record {
      value = signed negative (read_digits 0 (c ∷ text)).0;
      whole = (read_digits 0 (c ∷ text)).1;
    }
    else record { value = pos 0; whole = false }

abbrev is_space : ℕ → Bool
is_space c = (c == 32) || in_range 9 13 c

signed_number : Text → Number
unfolding number_at
signed_number [] = record { value = pos 0; whole = false }
signed_number (c ∷ text) =
    let later = signed_number text in
    if is_space c
    then later
    else if c == b'-'
    then number_at false true text
    else if c == b'+'
    then number_at false false text
    else number_at false false (c ∷ text)

unfoldable pub strtol : Text → Number
unfolding signed_number
strtol [] = record { value = pos 0; whole = true }
strtol (c ∷ text) = signed_number (c ∷ text)

-- The host and the port of `auth_string`.
host_port : Authority → Text → Option ℕ → Option Authority
unfolding strtol
host_port authority auth_string none = some (record authority { host = auth_string })
host_port authority auth_string (some colon) =
    let number = strtol (drop (suc colon) auth_string) in
    if not number.whole
    then none
    else some (record authority { host = take colon auth_string; port = number.value })

-- A text in brackets is no `host:port`; its host is cut at the position that was found last.
abbrev is_plain : Text → Bool
is_plain [] = false
is_plain (c ∷ text) = not (c == b'[')

host_of : Authority → Option ℕ → Text → Option Authority
unfolding host_port find_if
host_of authority at_pos auth_string =
    if is_plain auth_string
    then host_port authority auth_string (find_if (λ c. c == b':') auth_string)
    else some (record authority { host = up_to at_pos auth_string })

with_userinfo : Text → Option ℕ → Option Authority
unfolding host_of
with_userinfo auth none = host_of (record no_authority { authority = auth }) none auth
with_userinfo auth (some at_pos) =
    host_of (record no_authority { authority = auth; userinfo = take at_pos auth }) (some at_pos)
      (drop (suc at_pos) auth)

-- parse_authority: `none` is InvalidPort. Without a slash behind it the position is npos, and
-- `substr(pos + 2)` starts at the second byte.
unfoldable pub parse_authority : Text → Option (Authority × Text)
unfolding with_userinfo find_if
parse_authority uri =
    let slash = find_if (λ c. c == b'/') (drop 2 uri) in
    let auth = up_to slash (drop 2 uri) in
    if leb 2 (length uri) && (get_or uri 0 0 == b'/') && (get_or uri 1 0 == b'/')
    then elim (with_userinfo auth (find_if (λ c. c == b'@') auth)) [
      | none ↦ none
      | some authority ↦
          some (authority, elim slash [ none ↦ drop 1 uri | some i ↦ drop (i + 2) uri ])
    ]
    else some (no_authority, uri)

pub record Uri : Type 0 where
  pub error : Error
  pub scheme : Text
  pub authority : Authority
  pub path : Text
  pub query : QueryDict
  pub fragment : Text

abbrev pub error_uri : Error → Uri
error_uri error = record {
  error = error;
  scheme = [];
  authority = no_authority;
  path = [];
  query = [];
  fragment = [];
}

-- parse_uri behind the authority; parse_fragment gives all that is left.
abbrev pub parse_rest : Text → Authority → Text → Uri
parse_rest scheme authority uri =
    let (path, query_text) = parse_path uri in
    let (query, fragment) = parse_query query_text in
    record {
      error = Error.none_set;
      scheme = scheme;
      authority = authority;
      path = path;
      query = query;
      fragment = fragment;
    }

abbrev pub behind_scheme : Option (Text × Text) → Uri
behind_scheme none = error_uri Error.invalid_scheme
behind_scheme (some (scheme, uri)) = behind_authority (parse_authority uri)
  where
    behind_authority : Option (Authority × Text) → Uri
    behind_authority none = error_uri Error.invalid_port
    behind_authority (some (authority, rest)) = parse_rest scheme authority rest

unfoldable pub parse_uri : Text → Uri
parse_uri uri_in = behind_scheme (parse_scheme uri_in)
