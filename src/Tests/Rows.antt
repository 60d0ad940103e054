-- ===== src/Tests/Rows.antt =====
-- The rows of /index at concrete fields.
use imas_core.Prelude.{
  ℕ, ◌-◌, ◌^◌, ◌<◌, List, [], ◌∷◌, ok, ◌≡◌, refl, arith, inl, inr, codes, lookup, assign, some,
  ◌>>=◌,
}
use imas_core.Panzer.Types.{PanzerDb, panzer_no_parent_row, panzer_no_parent_row_v3}
use imas_core.Panzer.Row.{pack_row_v3, unpack_row_v3, pack_row_v2, unpack_row_v2}
use imas_core.Panzer.Row.RoundTrip.{pack_row_v3-unpack_row_v3, pack_row_v2-unpack_row_v2}
use imas_core.Panzer.Append.{append_index_row, intern_path}
use imas_core.Panzer.Append.Rows.{PathIds, Appended, append_index_row-Appended, intern_path-PathIds}
use imas_core.Tests.{empty_db}

pack_row_v3-unpack_row_v3_example :
    (pack_row_v3 5 panzer_no_parent_row 7 100 12 16 (3 ∷ 4 ∷ [])
      >>= (λ row. ok (unpack_row_v3 row)))
    ≡ ok (record {
      offset = 100;
      count = 12;
      path_id = 5;
      parent_id = panzer_no_parent_row_v3;
      time_index = 7;
      flags = 16;
      shape = 3 ∷ 4 ∷ [];
    })
pack_row_v3-unpack_row_v3_example =
    pack_row_v3-unpack_row_v3 5 panzer_no_parent_row 7 100 12 16 (3 ∷ 4 ∷ []) (omega arith)
      (inl refl) (omega arith) (omega arith) (omega arith) (omega arith, (omega arith, tt))

pack_row_v2-unpack_row_v2_example :
    unpack_row_v2 14 9 (pack_row_v2 14 2 7 100 12 16 (3 ∷ 4 ∷ [])) ≡ record {
      offset = 100;
      count = 12;
      path_id = 9;
      parent_id = 2;
      time_index = 7;
      flags = 16;
      shape = 3 ∷ 4 ∷ [];
    }
pack_row_v2-unpack_row_v2_example =
    pack_row_v2-unpack_row_v2 14 9 2 7 100 12 16 (3 ∷ 4 ∷ []) (inr refl) (omega arith)

pub empty_db-PathIds : PathIds empty_db
unfolding lookup
empty_db-PathIds = record {
  given = λ path id h. cc;
  distinct = λ a b id h k. cc;
  bounded = omega arith;
}

abbrev interned : PanzerDb
interned = record empty_db {
  next_path_id = 1;
  path_id_map = (codes "ip", 0) ∷ [];
  path_text_buffer = codes "ip" ∷ [];
}

intern_path_run : intern_path (codes "ip") empty_db ≡ (ok 0, interned)
unfolding intern_path lookup assign
intern_path_run = refl

intern_path-PathIds_example :
    PathIds interned
    × (lookup (codes "ip") interned.path_id_map ≡ some 0)
    × (0 < 2 ^ 32 - 1)
    × ((other : List ℕ) (n : ℕ)
        → lookup other empty_db.path_id_map ≡ some n
        → lookup other interned.path_id_map ≡ some n)
intern_path-PathIds_example =
    intern_path-PathIds (codes "ip") empty_db interned 0 empty_db-PathIds intern_path_run

append_index_row-Appended_example :
    Appended empty_db
      (codes "ip")
      (3 ∷ [])
      7
      100
      3
      16
      panzer_no_parent_row
      (append_index_row (codes "ip") (3 ∷ []) 7 100 3 16 panzer_no_parent_row empty_db)
append_index_row-Appended_example =
    append_index_row-Appended (codes "ip") (3 ∷ []) 7 100 3 16 panzer_no_parent_row empty_db refl
      empty_db-PathIds (omega arith) (omega arith)
