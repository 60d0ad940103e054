-- ===== src/Tests/Contexts.antt =====
-- Data entries named by URIs, and the contexts of operations.
use imas_core.Prelude.{
  [], ◌∷◌, none, some, false, codes, text_eq, lookup, assign, starts_with, to_string, ◌≡◌, refl,
  Exception, ok, throw, if◌then◌else◌, ◌>>=◌,
}
use imas_core.Prelude.Int.{pos, negsuc}
use imas_core.Uri.{find_if, parse_uri, parse_query, parse_path, parse_authority, parse_scheme}
use imas_core.Context.Const.{const2str}
use imas_core.Context.Entry.{
  Machine, get_uri_backend, build_uri_from_legacy_parameters, data_entry_context,
  build_uri_from_legacy, check_uri_host, set_backend_id,
}
use imas_core.Context.Operation.{check_mode, slice_operation}
use imas_core.Context.Legacy.{is_end, IsValue}
use imas_core.Context.Legacy.RoundTrip.{
  path_uri, run_directory, build_uri_from_legacy_parameters-data_entry_context,
}

-- A machine with one user and one local host.
abbrev machine : Machine
machine = record {
  getenv = λ name. if text_eq name (codes "IMAS_LOCAL_HOSTS") then some (codes "here") else none;
  pw_dir = λ user. if text_eq user (codes "ann") then some (codes "/h/ann") else none;
  split = λ text. text ∷ [];
  walk = λ set. set;
}

ann-IsValue : IsValue (codes "ann") × IsValue (codes "iter")
unfolding find_if
ann-IsValue = ((refl, refl), (refl, refl))

hdf5_name : get_uri_backend 13 ≡ ok (codes "hdf5")
unfolding get_uri_backend
hdf5_name = refl

no_end : is_end b'4' ≡ false
no_end = refl

home_found :
    (text_eq (codes "ann") (codes "public") ≡ false)
    × (starts_with (codes "/") (codes "ann") ≡ false)
    × (machine.pw_dir (codes "ann") ≡ some (codes "/h/ann"))
unfolding text_eq starts_with
home_found = (refl, refl, refl)

build_uri_from_legacy_parameters-data_entry_context_example :
    (build_uri_from_legacy_parameters 13
        (pos 5)
        (pos 1)
        (codes "ann")
        (codes "iter")
        (codes "4.1")
        []
      >>= data_entry_context machine 7)
    ≡ ok (
      record {
        uri =
            path_uri
              (codes "hdf5")
              (run_directory (codes "/h/ann") (codes "iter") b'4' (pos 5) (pos 1));
        backend_id = 13;
        uid = 8;
      },
      8,
    )
build_uri_from_legacy_parameters-data_entry_context_example =
    build_uri_from_legacy_parameters-data_entry_context machine (λ v. refl) 13 b'4' 7 (codes "hdf5")
      (codes "ann") (codes "/h/ann") (codes "iter") (codes ".1") (pos 5) (pos 1) hdf5_name
      ann-IsValue.0 ann-IsValue.1 no_end home_found.0 home_found.1 home_found.2

-- The first byte of the version only.
legacy_test :
    build_uri_from_legacy_parameters 13 (pos 5) (negsuc 0) (codes "u") (codes "t") (codes "4.1") []
    ≡ ok (codes "imas:hdf5?user=u;pulse=5;run=-1;database=t;version=4")
unfolding build_uri_from_legacy_parameters get_uri_backend to_string
legacy_test = refl

missing_test : data_entry_context machine 0 (codes "imas:hdf5?user=u") ≡ throw Exception.al_context
unfolding data_entry_context check_uri_host text_eq parse_uri parse_scheme parse_authority
    parse_path set_backend_id lookup parse_query assign build_uri_from_legacy
missing_test = refl

both_test :
    data_entry_context machine 0 (codes "imas:hdf5?path=a;mapping=b") ≡ throw Exception.al_context
unfolding data_entry_context check_uri_host text_eq parse_uri parse_scheme parse_authority
    parse_path set_backend_id lookup parse_query assign
both_test = refl

backend_test : data_entry_context machine 0 (codes "imas:x?path=a") ≡ throw Exception.al_context
unfolding data_entry_context check_uri_host text_eq parse_uri parse_scheme parse_authority
    parse_path set_backend_id
backend_test = refl

-- The access list has a third element, which no one named: 32 is accepted.
access_test : check_mode (pos 30 ∷ pos 31 ∷ pos 0 ∷ []) 30 (pos 32) ≡ ok tt
unfolding check_mode
access_test = refl

name_test : const2str (pos 22) ≡ []
unfolding const2str
name_test = refl

slice_test :
    slice_operation 0 1 (codes "a") (pos 30) (pos 21) (pos 0) (pos 0) ≡ throw Exception.al_context
unfolding slice_operation
slice_test = refl
