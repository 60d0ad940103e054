-- ===== src/Context/Legacy.antt =====
-- A legacy URI, built by build_uri_from_legacy_parameters and opened by the constructor of
-- DataEntryContext: its query, taken apart.
pub mod RoundTrip
use imas_core.Prelude.{
  ℕ, zero, suc, ◌+◌, ◌/◌, ◌%◌, Bool, true, false, ◌||◌, List, [], ◌∷◌, ◌++◌, Option, none, some,
  Text, codes, length, take, drop, lookup, assign, text_eq, is_empty, starts_with, to_string,
  digits_onto, leb, ◌==◌, if◌then◌else◌, ok, ◌>>=◌, ◌≡◌, refl, sym, ap, ◌∙◌, arith, append-nil,
  get_or_else,
}
use imas_core.Prelude.Int.{ℤ, pos, negsuc}
use imas_core.Uri.{
  Error, Uri, QueryDict, no_authority, find_if, insert_arg, insert_argument, parse_args,
  is_delimiter, parse_uri, all_scheme,
}
use imas_core.Uri.Parts.{IsArgument, IsPath, parse_args-argument, parse_uri-bare, parts}
use imas_core.Context.Entry.{
  Machine, DataEntryContext, join_values, set_backend_id, check_uri_host, user_directory,
  build_uri_from_legacy, data_entry_context, get_uri_backend, show_int,
  build_uri_from_legacy_parameters,
}

-- A byte that ends an argument or a query.
abbrev pub is_end : ℕ → Bool
is_end c = is_delimiter c || (c == b'#')

-- A text that a query holds as one value.
abbrev pub IsValue : Text → Type 0
IsValue text = (find_if is_end text ≡ none) × (is_empty text ≡ false)

find_if-append_none :
    (test : ℕ → Bool) (xs ys : Text)
    → find_if test xs ≡ none
    → find_if test ys ≡ none
    → find_if test (xs ++ ys) ≡ none
unfolding find_if
find_if-append_none test [] ys h k = k
find_if-append_none test (x ∷ xs) ys h k = ground (arith, find_if-append_none test xs ys)

find_if-weaken :
    (test weaker : ℕ → Bool) (xs : Text)
    → ((c : ℕ) → test c ≡ false → weaker c ≡ false)
    → find_if test xs ≡ none
    → find_if weaker xs ≡ none
unfolding find_if
find_if-weaken test weaker [] w h = refl
find_if-weaken test weaker (x ∷ xs) w h = ground (arith, find_if-weaken test weaker xs w, w x)

digits_onto-plain :
    (fuel n : ℕ) (out : Text)
    → find_if is_end out ≡ none
    → find_if is_end (digits_onto fuel n out) ≡ none
unfolding digits_onto find_if
digits_onto-plain zero n out h = h
digits_onto-plain (suc fuel) n out h =
    ground (arith, digits_onto-plain fuel (n / 10) ((b'0' + n % 10) ∷ out))

digits_onto-full :
    (fuel n : ℕ) (out : Text) → is_empty out ≡ false → is_empty (digits_onto fuel n out) ≡ false
unfolding digits_onto
digits_onto-full zero n out h = h
digits_onto-full (suc fuel) n out h =
    ground (arith, digits_onto-full fuel (n / 10) ((b'0' + n % 10) ∷ out))

to_string-IsValue : (n : ℕ) → IsValue (to_string n)
unfolding to_string digits_onto find_if
to_string-IsValue n = (
  digits_onto-plain (suc n) n [] refl,
  ground (arith, digits_onto-full n (n / 10) ((b'0' + n % 10) ∷ [])),
)

pub show_int-IsValue : (i : ℤ) → IsValue (show_int i)
unfolding find_if
show_int-IsValue (pos n) = to_string-IsValue n
show_int-IsValue (negsuc n) = (rw (to_string-IsValue (suc n)).0 refl, refl)

-- One argument `name=value` of a query.
abbrev pub argument : Text → Text → Text
argument name value = name ++ (b'=' ∷ value)

find_if-eq :
    (name value : Text)
    → find_if (λ c. c == b'=') name ≡ none
    → find_if (λ c. c == b'=') (argument name value) ≡ some (length name)
unfolding find_if
find_if-eq [] value h = refl
find_if-eq (c ∷ name) value h = ground (arith, find_if-eq name value)

take-name : (name rest : Text) → take (length name) (name ++ rest) ≡ name
take-name [] rest = refl
take-name (c ∷ name) rest = ap (λ t. c ∷ t) (take-name name rest)

drop-name : (name value : Text) → drop (suc (length name)) (argument name value) ≡ value
drop-name [] value = refl
drop-name (c ∷ name) value = drop-name name value

insert_arg-assign :
    (name value : Text) (query : QueryDict)
    → find_if (λ c. c == b'=') name ≡ none
    → is_empty value ≡ false
    → lookup name query ≡ none
    → insert_arg (argument name value) query ≡ assign name (value ∷ []) query
unfolding insert_arg insert_argument
insert_arg-assign name value query n v l =
    rw (find_if-eq name value n, take-name name (b'=' ∷ value), drop-name name value, l, v) refl

IsValue-argument :
    (name value : Text)
    → find_if is_end name ≡ none
    → IsValue value
    → IsArgument (argument name value)
unfolding find_if
IsValue-argument name value n v =
    find_if-weaken is_end is_delimiter (argument name value) (λ c h. ground (arith, h))
      (find_if-append_none is_end name (b'=' ∷ value) n (rw v.0 refl))

-- The loop over a query takes off one argument, where a semicolon stands behind it.
parse_args-next :
    (name value rest : Text) (query : QueryDict)
    → find_if is_end name ≡ none
    → find_if (λ c. c == b'=') name ≡ none
    → IsValue value
    → lookup name query ≡ none
    → parse_args [] (argument name value ++ (b';' ∷ rest)) query
      ≡ parse_args [] rest (assign name (value ∷ []) query)
unfolding parse_args
parse_args-next name value rest query n e v l =
    parse_args-argument [] (argument name value) (b';' ∷ rest) query
      (IsValue-argument name value n v)
    ∙ ap (λ q. parse_args [] rest q) (insert_arg-assign name value query e v.1 l)

parse_args-last :
    (name value : Text) (query : QueryDict)
    → find_if is_end name ≡ none
    → find_if (λ c. c == b'=') name ≡ none
    → is_empty (argument name value) ≡ false
    → IsValue value
    → lookup name query ≡ none
    → parse_args [] (argument name value) query ≡ assign name (value ∷ []) query
unfolding parse_args
parse_args-last name value query n e f v l =
    ap (λ t. parse_args [] t query) (sym (append-nil (argument name value)))
    ∙ parse_args-argument [] (argument name value) [] query (IsValue-argument name value n v)
    ∙ rw f (insert_arg-assign name value query e v.1 l)

-- The query that build_uri_from_legacy_parameters writes, and its arguments.
abbrev pub query_text : Text → Text → Text → Text → ℕ → Text
query_text user pulse run tokamak version =
    argument (codes "user") user
    ++ (b';'
        ∷ (argument (codes "pulse") pulse
            ++ (b';'
                ∷ (argument (codes "run") run
                    ++ (b';'
                        ∷ (argument (codes "database") tokamak
                            ++ (b';' ∷ argument (codes "version") (version ∷ []))))))))

abbrev pub legacy_query : Text → Text → Text → Text → ℕ → QueryDict
legacy_query user pulse run tokamak version =
    (codes "user", user ∷ [])
    ∷ (codes "pulse", pulse ∷ [])
    ∷ (codes "run", run ∷ [])
    ∷ (codes "database", tokamak ∷ [])
    ∷ (codes "version", (version ∷ []) ∷ [])
    ∷ []

pub parse_args-query_text :
    (user pulse run tokamak : Text) (version : ℕ)
    → IsValue user
    → IsValue pulse
    → IsValue run
    → IsValue tokamak
    → is_end version ≡ false
    → parse_args [] (query_text user pulse run tokamak version) []
      ≡ legacy_query user pulse run tokamak version
unfolding find_if lookup assign text_eq
parse_args-query_text user pulse run tokamak version u p r t v =
    parse_args-next (codes "user") user _ [] refl refl u refl
    ∙ parse_args-next (codes "pulse") pulse _ _ refl refl p refl
    ∙ parse_args-next (codes "run") run _ _ refl refl r refl
    ∙ parse_args-next (codes "database") tokamak _ _ refl refl t refl
    ∙ parse_args-last (codes "version") (version ∷ []) _ refl refl refl (rw v refl, refl) refl

no_hash : (c : ℕ) → is_end c ≡ false → (c == b'#') ≡ false
no_hash c h = ground (arith, h)

IsValue-no_hash : (text : Text) → IsValue text → find_if (λ c. c == b'#') text ≡ none
IsValue-no_hash text v = find_if-weaken is_end (λ c. c == b'#') text no_hash v.0

argument-no_hash :
    (name value rest : Text)
    → find_if (λ c. c == b'#') name ≡ none
    → IsValue value
    → find_if (λ c. c == b'#') rest ≡ none
    → find_if (λ c. c == b'#') (argument name value ++ (b';' ∷ rest)) ≡ none
unfolding find_if
argument-no_hash name value rest n v r =
    find_if-append_none (λ c. c == b'#') (argument name value) (b';' ∷ rest)
      (find_if-append_none (λ c. c == b'#') name (b'=' ∷ value) n
        (rw (IsValue-no_hash value v) refl))
      (rw r refl)

pub query_text-no_hash :
    (user pulse run tokamak : Text) (version : ℕ)
    → IsValue user
    → IsValue pulse
    → IsValue run
    → IsValue tokamak
    → is_end version ≡ false
    → find_if (λ c. c == b'#') (query_text user pulse run tokamak version) ≡ none
unfolding find_if
query_text-no_hash user pulse run tokamak version u p r t v =
    argument-no_hash (codes "user") user _ refl u (
      argument-no_hash (codes "pulse") pulse _ refl p (
        argument-no_hash (codes "run") run _ refl r (
          argument-no_hash (codes "database") tokamak (argument (codes "version") (version ∷ []))
            refl t (rw (no_hash version v) refl))))
