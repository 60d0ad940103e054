-- ===== src/Tests/Uris.antt =====
-- URIs taken apart.
use imas_core.Prelude.{
  [], ◌∷◌, ◌++◌, true, none, ◌≡◌, ◌==◌, refl, codes, starts_with, lookup, assign, text_eq,
}
use imas_core.Prelude.Int.{pos}
use imas_core.Uri.{
  find_if, valid_scheme, all_scheme, parse_uri, parse_args, parse_query, parse_path,
  parse_authority, parse_scheme, insert_arg, insert_argument, has_value, is_delimiter,
}
use imas_core.Uri.Parts.{
  IsPath, parts, parse_uri-parts, parse_uri-bare, parse_args-insert_args, ampersands, insert_args,
}

scheme_valid : valid_scheme (codes "imas") ≡ true
unfolding all_scheme
scheme_valid = refl

hdf5-IsPath : IsPath (codes "hdf5")
unfolding find_if starts_with
hdf5-IsPath = (refl, refl)

no_hash : find_if (λ c. c == b'#') (codes "path=/a;run=1") ≡ none
unfolding find_if
no_hash = refl

parse_uri-parts_example :
    parse_uri (
      codes "imas"
      ++ (b':' ∷ (codes "hdf5" ++ (b'?' ∷ (codes "path=/a;run=1" ++ (b'#' ∷ codes "core"))))))
    ≡ parts (codes "imas") (codes "hdf5") (parse_args [] (codes "path=/a;run=1") []) (codes "core")
parse_uri-parts_example =
    parse_uri-parts (codes "imas") (codes "hdf5") (codes "path=/a;run=1") (codes "core")
      scheme_valid hdf5-IsPath no_hash

parse_uri-bare_example :
    parse_uri (codes "imas" ++ (b':' ∷ (codes "hdf5" ++ (b'?' ∷ codes "path=/a;run=1"))))
    ≡ parts
        (codes "imas")
        (codes "hdf5")
        (parse_args [] (codes "path=/a;run=1") [])
        (codes "path=/a;run=1")
parse_uri-bare_example =
    parse_uri-bare (codes "imas") (codes "hdf5") (codes "path=/a;run=1") scheme_valid hdf5-IsPath
      no_hash

no_delimiter :
    (find_if is_delimiter (codes "path=/a") ≡ none) × (find_if is_delimiter (codes "run=1") ≡ none)
unfolding find_if
no_delimiter = (refl, refl)

parse_args-insert_args_example :
    parse_args [] (ampersands (codes "path=/a") (codes "run=1" ∷ [])) []
    ≡ insert_args (codes "path=/a" ∷ codes "run=1" ∷ []) []
parse_args-insert_args_example =
    parse_args-insert_args (codes "path=/a") (codes "run=1" ∷ []) []
      (no_delimiter.0, (no_delimiter.1, tt)) (refl, (refl, tt))

query_test :
    parse_args [] (codes "a=1;b&a=2") []
    ≡ (codes "a", codes "1" ∷ codes "2" ∷ []) ∷ (codes "b", []) ∷ []
unfolding parse_args insert_arg insert_argument has_value find_if lookup assign text_eq
query_test = refl

port_test :
    (parse_uri (codes "I://m@h:80/x")).authority
    ≡ record { authority = codes "m@h:80"; userinfo = codes "m"; host = codes "h"; port = pos 80 }
unfolding parse_uri parse_scheme parse_authority parse_path parse_query
port_test = refl

-- A URI without a query: the fragment is read as an argument too.
fragment_test : (parse_uri (codes "i:h#c")).query ≡ (codes "c", []) ∷ []
unfolding parse_uri parse_scheme parse_authority parse_query parse_path lookup assign
fragment_test = refl

-- No slash behind the authority: all but the first byte is left as the path.
path_test : (parse_uri (codes "i://h")).path ≡ codes "/h"
unfolding parse_uri parse_scheme parse_authority parse_path
path_test = refl
