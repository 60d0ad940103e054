-- ===== src/Context/Legacy/RoundTrip.antt =====
-- Opening the legacy URI of a user's pulse names the directory of the run.
use imas_core.Prelude.{
  ℕ, suc, true, false, [], ◌∷◌, ◌++◌, some, Text, codes, lookup, assign, text_eq, starts_with,
  is_empty, ok, ◌>>=◌, ◌≡◌, ◌⊎◌, inl, inr, subst, refl, ap, ◌∙◌, append-nil, sym, arith,
}
use imas_core.Prelude.Int.{ℤ}
use imas_core.Uri.{Error, Uri, no_authority, find_if, insert_argument, parse_uri, all_scheme}
use imas_core.Uri.Parts.{IsPath, parse_uri-bare, parts}
use imas_core.Context.Entry.{
  Machine, join_values, set_backend_id, check_uri_host, user_directory, build_uri_from_legacy,
  data_entry_context, get_uri_backend, show_int, build_uri_from_legacy_parameters,
}
use imas_core.Context.Legacy.{
  is_end, IsValue, query_text, legacy_query, parse_args-query_text, query_text-no_hash,
  show_int-IsValue,
}

-- The directory of a run.
abbrev pub run_directory : Text → Text → ℕ → ℤ → ℤ → Text
run_directory home tokamak version pulse run =
    (home ++ codes "/public/imasdb/")
    ++ (tokamak ++ (b'/' ∷ ((version ∷ []) ++ (b'/' ∷ (show_int pulse ++ (b'/' ∷ show_int run))))))

abbrev pub path_uri : Text → Text → Uri
path_uri backend path = record {
  error = Error.none_set;
  scheme = codes "imas";
  authority = no_authority;
  path = backend;
  query = (codes "path", path ∷ []) ∷ [];
  fragment = [];
}

run_directory-full :
    (home tokamak : Text) (version : ℕ) (pulse run : ℤ)
    → is_empty (run_directory home tokamak version pulse run) ≡ false
run_directory-full [] tokamak version pulse run = refl
run_directory-full (c ∷ home) tokamak version pulse run = refl

module _ (M : Machine) (walk_one : (v : Text) → M.walk (v ∷ []) ≡ v ∷ []) where
  joined : (value : Text) → join_values [] (M.walk (value ∷ [])) ≡ value
  unfolding join_values
  joined value = rw (walk_one value) (append-nil value)

  user_directory-home :
      (user home : Text)
      → text_eq user (codes "public") ≡ false
      → starts_with (codes "/") user ≡ false
      → M.pw_dir user ≡ some home
      → user_directory M user ≡ ok (home ++ codes "/public/imasdb/")
  unfolding user_directory
  user_directory-home user home p s h = rw (p, s, h) refl

  build_uri_from_legacy-path :
      (backend user home tokamak fragment : Text) (version : ℕ) (pulse run : ℤ)
      → text_eq user (codes "public") ≡ false
      → starts_with (codes "/") user ≡ false
      → M.pw_dir user ≡ some home
      → build_uri_from_legacy M (
          parts
            (codes "imas")
            backend
            (legacy_query user (show_int pulse) (show_int run) tokamak version)
            fragment)
        ≡ ok (path_uri backend (run_directory home tokamak version pulse run))
  unfolding build_uri_from_legacy lookup text_eq insert_argument assign
  build_uri_from_legacy-path backend user home tokamak fragment version pulse run p s h =
      rw
        (
          joined user,
          joined (show_int pulse),
          joined (show_int run),
          joined tokamak,
          joined (version ∷ []),
          user_directory-home user home p s h,
          run_directory-full home tokamak version pulse run,
        )
        refl

  data_entry_context-path :
      (backend user home tokamak fragment : Text) (backend_id version sid : ℕ) (pulse run : ℤ)
      → (text : Text)
      → parse_uri text
        ≡ parts
            (codes "imas")
            backend
            (legacy_query user (show_int pulse) (show_int run) tokamak version)
            fragment
      → check_uri_host M (
          parts
            (codes "imas")
            backend
            (legacy_query user (show_int pulse) (show_int run) tokamak version)
            fragment)
        ≡ parts
            (codes "imas")
            backend
            (legacy_query user (show_int pulse) (show_int run) tokamak version)
            fragment
      → set_backend_id backend [] ≡ ok backend_id
      → text_eq user (codes "public") ≡ false
      → starts_with (codes "/") user ≡ false
      → M.pw_dir user ≡ some home
      → data_entry_context M sid text
        ≡ ok (
          record {
            uri = path_uri backend (run_directory home tokamak version pulse run);
            backend_id = backend_id;
            uid = suc sid;
          },
          suc sid,
        )
  unfolding data_entry_context lookup text_eq
  data_entry_context-path backend user home tokamak fragment backend_id version sid pulse run text
        parsed local b p s h =
      rw
        (
          parsed,
          local,
          b,
          build_uri_from_legacy-path backend user home tokamak fragment version pulse run p s h,
        )
        refl

abbrev Named : ℕ → Text → Text → ℕ → Type 0
Named backend_id backend name id = (backend_id ≡ id) × (backend ≡ name)

get_uri_backend_cases :
    (backend_id : ℕ) (backend : Text)
    → get_uri_backend backend_id ≡ ok backend
    → Named backend_id backend (codes "mdsplus") 12
      ⊎ (Named backend_id backend (codes "hdf5") 13
          ⊎ (Named backend_id backend (codes "ascii") 11
              ⊎ (Named backend_id backend (codes "memory") 14
                  ⊎ Named backend_id backend (codes "uda") 15)))
unfolding get_uri_backend
get_uri_backend_cases backend_id backend h = ground (arith, h)

-- What the parser and the constructor need of a backend's name.
abbrev IsOpened : Machine → ℕ → Text → Type 0
IsOpened M backend_id backend =
    IsPath backend
    × (set_backend_id backend [] ≡ ok backend_id)
    × ((user pulse run tokamak fragment : Text) (version : ℕ)
        → check_uri_host M
            (parts (codes "imas") backend (legacy_query user pulse run tokamak version) fragment)
          ≡ parts (codes "imas") backend (legacy_query user pulse run tokamak version) fragment)

opened :
    (M : Machine) (id : ℕ) (name : Text)
    → IsOpened M id name
    → (backend_id : ℕ) (backend : Text) → Named backend_id backend name id
    → IsOpened M backend_id backend
opened M id name o backend_id backend n =
    subst (λ i. IsOpened M i backend) {x = id} {y = backend_id} (sym n.0)
      (subst (λ t. IsOpened M id t) {x = name} {y = backend} (sym n.1) o)

get_uri_backend-IsOpened :
    (M : Machine) (backend_id : ℕ) (backend : Text)
    → get_uri_backend backend_id ≡ ok backend
    → IsOpened M backend_id backend
unfolding find_if starts_with set_backend_id check_uri_host text_eq lookup
get_uri_backend-IsOpened M backend_id backend h =
    elim (get_uri_backend_cases backend_id backend h) [
      | inl n ↦ opened M 12 (codes "mdsplus") ((refl, refl), refl, λ u p r t f v. refl) _ _ n
      | inr (inl n) ↦ opened M 13 (codes "hdf5") ((refl, refl), refl, λ u p r t f v. refl) _ _ n
      | inr (inr (inl n)) ↦
          opened M 11 (codes "ascii") ((refl, refl), refl, λ u p r t f v. refl) _ _ n
      | inr (inr (inr (inl n))) ↦
          opened M 14 (codes "memory") ((refl, refl), refl, λ u p r t f v. refl) _ _ n
      | inr (inr (inr (inr n))) ↦
          opened M 15 (codes "uda") ((refl, refl), refl, λ u p r t f v. refl) _ _ n
    ]

scheme_valid : all_scheme (codes "imas") ≡ true
unfolding all_scheme
scheme_valid = refl

-- The text that the client is given.
abbrev legacy_text : Text → Text → Text → Text → Text → ℕ → Text
legacy_text backend user pulse run tokamak version =
    codes "imas" ++ (b':' ∷ (backend ++ (b'?' ∷ query_text user pulse run tokamak version)))

build_uri-legacy_text :
    (backend_id : ℕ) (backend user tokamak rest : Text) (version : ℕ) (pulse run : ℤ)
    → get_uri_backend backend_id ≡ ok backend
    → build_uri_from_legacy_parameters backend_id pulse run user tokamak (version ∷ rest) []
      ≡ ok (legacy_text backend user (show_int pulse) (show_int run) tokamak version)
unfolding build_uri_from_legacy_parameters
build_uri-legacy_text backend_id backend user tokamak rest version pulse run b = rw b refl

parse_uri-legacy_text :
    (backend user tokamak : Text) (version : ℕ) (pulse run : ℤ)
    → IsPath backend
    → IsValue user
    → IsValue tokamak
    → is_end version ≡ false
    → parse_uri (legacy_text backend user (show_int pulse) (show_int run) tokamak version)
      ≡ parts
          (codes "imas")
          backend
          (legacy_query user (show_int pulse) (show_int run) tokamak version)
          (query_text user (show_int pulse) (show_int run) tokamak version)
parse_uri-legacy_text backend user tokamak version pulse run b u t v =
    let text : Text = query_text user (show_int pulse) (show_int run) tokamak version in
    parse_uri-bare (codes "imas") backend text scheme_valid b (
      query_text-no_hash user _ _ tokamak version u (show_int-IsValue pulse) (show_int-IsValue run)
        t v)
    ∙ ap (λ q. parts (codes "imas") backend q text)
        (parse_args-query_text user _ _ tokamak version u (show_int-IsValue pulse)
          (show_int-IsValue run) t v)

module _ (M : Machine) (walk_one : (v : Text) → M.walk (v ∷ []) ≡ v ∷ []) where
  -- A legacy URI without options that build_uri_from_legacy_parameters writes for a backend it has a
  -- name for is opened by the constructor of DataEntryContext with that backend, the next uid, and
  -- the path of the run below public/imasdb in the user's home directory, where user and tokamak are
  -- not empty and hold no delimiter and no '#', nor does the first byte of the version, the user is
  -- not public and no path, and getpwnam finds the home.
  pub build_uri_from_legacy_parameters-data_entry_context :
      (backend_id version sid : ℕ) (backend user home tokamak rest : Text) (pulse run : ℤ)
      → get_uri_backend backend_id ≡ ok backend
      → IsValue user
      → IsValue tokamak
      → is_end version ≡ false
      → text_eq user (codes "public") ≡ false
      → starts_with (codes "/") user ≡ false
      → M.pw_dir user ≡ some home
      → (build_uri_from_legacy_parameters backend_id pulse run user tokamak (version ∷ rest) []
          >>= data_entry_context M sid)
        ≡ ok (
          record {
            uri = path_uri backend (run_directory home tokamak version pulse run);
            backend_id = backend_id;
            uid = suc sid;
          },
          suc sid,
        )
  build_uri_from_legacy_parameters-data_entry_context backend_id version sid backend user home
        tokamak rest pulse run b u t v p s h =
      let o : IsOpened M backend_id backend = get_uri_backend-IsOpened M backend_id backend b in
      rw (build_uri-legacy_text backend_id backend user tokamak rest version pulse run b) (
        data_entry_context-path M walk_one backend user home tokamak _ backend_id version sid pulse
          run (legacy_text backend user (show_int pulse) (show_int run) tokamak version)
          (parse_uri-legacy_text backend user tokamak version pulse run o.0 u t v)
          (o.2 user (show_int pulse) (show_int run) tokamak _ version) o.1 p s h)
