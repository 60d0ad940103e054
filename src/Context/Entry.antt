-- ===== src/Context/Entry.antt =====
-- DataEntryContext of src/al_context.cpp: a data entry is named by a URI, or by a legacy URI with user,
-- database, version, pulse and run.
use imas_core.Prelude.{
  ℕ, suc, Bool, true, false, not, ◌&&◌, ◌||◌, List, [], ◌∷◌, ◌++◌, Option, none, some, Text, codes,
  lookup, text_eq, is_empty, starts_with, to_string, get_or, ◌==◌, if◌then◌else◌, Exception, Result,
  ok, throw, ◌>>=◌, ◌>>◌, throw_if,
}
use imas_core.Prelude.Int.{ℤ, pos, negsuc}
use imas_core.Uri.{Error, Uri, QueryDict, no_authority, parse_uri, insert_argument, remove_argument}
use imas_core.Context.Const.{
  ascii_backend, mdsplus_backend, hdf5_backend, memory_backend, uda_backend, flexbuffers_backend,
}

-- What the code asks of its surroundings: `getenv`, the home directory that `getpwnam` finds,
-- `boost::split` at semicolons, and the order in which an unordered set is walked.
pub record Machine : Type 0 where
  pub getenv : Text → Option Text
  pub pw_dir : Text → Option Text
  pub split : Text → List Text
  pub walk : List Text → List Text

pub record DataEntryContext : Type 0 where
  pub uri : Uri
  pub backend_id : ℕ
  pub uid : ℕ

-- uri::join.
unfoldable pub join_values : Text → List Text → Text
join_values delim [] = []
join_values delim (el ∷ set) = delim ++ (el ++ join_values (b';' ∷ []) set)

abbrev pub is_some {ℓ} : {A : Type ℓ} → Option A → Bool
is_some none = false
is_some (some a) = true

-- `value()` behind the test that there is one.
abbrev pub require : Option Text → Result Text
require none = throw Exception.al_context
require (some value) = ok value

unfoldable pub any_eq : Text → List Text → Bool
any_eq text [] = false
any_eq text (t ∷ texts) = text_eq t text || any_eq text texts

abbrev pub either : Option Text → Option Text → Option Text
either (some a) b = some a
either none b = b

-- DataEntryContext::setBackendID.
unfoldable pub set_backend_id : Text → Text → Result ℕ
unfolding text_eq
set_backend_id path host =
    if text_eq path (codes "mdsplus")
    then ok mdsplus_backend
    else if text_eq path (codes "hdf5")
    then ok hdf5_backend
    else if text_eq path (codes "ascii")
    then ok ascii_backend
    else if text_eq path (codes "memory")
    then ok memory_backend
    else if text_eq path (codes "flexbuffers")
    then ok flexbuffers_backend
    else if text_eq path (codes "uda") || not (is_empty host)
    then ok uda_backend
    else throw Exception.al_context

module _ (M : Machine) where
  -- QueryDict::get.
  abbrev pub get_argument : Text → QueryDict → Option Text
  get_argument name query = elim (lookup name query) [
    | none ↦ none
    | some values ↦ some (join_values [] (M.walk values))
  ]

  -- The local hosts; without IMAS_LOCAL_HOSTS there is none.
  abbrev pub local_hosts : List Text
  local_hosts = elim (M.getenv (codes "IMAS_LOCAL_HOSTS")) [ none ↦ [] | some env ↦ M.split env ]

  abbrev pub local_uri : Uri → Option Text → Uri
  local_uri uri none = uri
  local_uri uri (some backend) =
      if any_eq uri.authority.host local_hosts
      then record {
        error = Error.none_set;
        scheme = codes "imas";
        authority = no_authority;
        path = backend;
        query = (remove_argument (codes "backend") uri.query).1;
        fragment = uri.fragment;
      }
      else uri

  -- DataEntryContext::checkUriHost.
  unfoldable pub check_uri_host : Uri → Uri
  check_uri_host uri =
      if not (text_eq uri.path (codes "/uda")) && not (text_eq uri.path (codes "uda"))
      then uri
      else local_uri uri (get_argument (codes "backend") uri.query)

  abbrev pub below_home : Option Text → Text → Result Text
  below_home none middle = throw Exception.al_backend
  below_home (some home) middle = ok (home ++ middle)

  -- The directory under which the databases of a user lie.
  unfoldable pub user_directory : Text → Result Text
  user_directory user =
      if text_eq user (codes "public")
      then below_home (M.getenv (codes "IMAS_HOME")) (codes "/shared/imasdb/")
      else if starts_with (codes "/") user
      then ok (user ++ codes "/")
      else below_home (M.pw_dir user) (codes "/public/imasdb/")

  -- DataEntryContext::buildURIFromLegacy; `shot` is the former name of `pulse`.
  unfoldable pub build_uri_from_legacy : Uri → Result Uri
  build_uri_from_legacy uri = do
    user ← require (get_argument (codes "user") uri.query)
    database ← require (get_argument (codes "database") uri.query)
    version ← require (get_argument (codes "version") uri.query)
    let maybe_pulse = get_argument (codes "pulse") uri.query
    let maybe_shot = get_argument (codes "shot") uri.query
    throw_if (is_some maybe_pulse && is_some maybe_shot) Exception.al_context
    pulse ← require (either maybe_shot maybe_pulse)
    run ← require (get_argument (codes "run") uri.query)
    directory ← user_directory user
    ok (record {
      error = Error.none_set;
      scheme = uri.scheme;
      authority = uri.authority;
      path = uri.path;
      query =
          insert_argument (codes "path")
            (directory ++ (database ++ (b'/' ∷ (version ++ (b'/' ∷ (pulse ++ (b'/' ∷ run))))))) [];
      fragment = [];
    })

  abbrev pub has_error : Error → Bool
  has_error Error.none_set = false
  has_error _ = true

  abbrev pub with_legacy : Bool → Uri → Result Uri
  with_legacy true uri = build_uri_from_legacy uri
  with_legacy false uri = ok uri

  -- The constructor of DataEntryContext on the number of contexts made so far, SID, which is one higher
  -- behind it.
  unfoldable pub data_entry_context : ℕ → Text → Result (DataEntryContext × ℕ)
  data_entry_context sid uri_ = do
    let uri = check_uri_host (parse_uri uri_)
    throw_if (has_error uri.error) Exception.al_context
    backend_id ← set_backend_id uri.path uri.authority.host
    let maybe_path = get_argument (codes "path") uri.query
    let maybe_mapping = get_argument (codes "mapping") uri.query
    uri' ← with_legacy (not (is_some maybe_path) && not (is_some maybe_mapping)) uri
    throw_if (is_some maybe_path && is_some maybe_mapping) Exception.al_context
    ok (record { uri = uri'; backend_id = backend_id; uid = suc sid }, suc sid)

-- DataEntryContext::getURIBackend.
unfoldable pub get_uri_backend : ℕ → Result Text
get_uri_backend backend_id =
    if backend_id == mdsplus_backend
    then ok (codes "mdsplus")
    else if backend_id == hdf5_backend
    then ok (codes "hdf5")
    else if backend_id == ascii_backend
    then ok (codes "ascii")
    else if backend_id == memory_backend
    then ok (codes "memory")
    else if backend_id == uda_backend
    then ok (codes "uda")
    else throw Exception.al_context

-- An `int` on a stream.
abbrev pub show_int : ℤ → Text
show_int (pos n) = to_string n
show_int (negsuc n) = b'-' ∷ to_string (suc n)

-- DataEntryContext::build_uri_from_legacy_parameters; of the version the first byte is taken, which is
-- zero in an empty text.
unfoldable pub build_uri_from_legacy_parameters :
    ℕ → ℤ → ℤ → Text → Text → Text → Text → Result Text
build_uri_from_legacy_parameters backend_id pulse run user tokamak version options = do
  backend ← get_uri_backend backend_id
  ok (
      codes "imas:"
      ++ (backend
          ++ (codes "?user="
              ++ (user
                  ++ (codes ";pulse="
                      ++ (show_int pulse
                          ++ (codes ";run="
                              ++ (show_int run
                                  ++ (codes ";database="
                                      ++ (tokamak
                                          ++ (codes ";version="
                                              ++ (get_or version 0 0
                                                  ∷ (if is_empty options
                                                      then []
                                                      else b';' ∷ options)))))))))))))
