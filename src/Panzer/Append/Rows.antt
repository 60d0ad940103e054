-- ===== src/Panzer/Append/Rows.antt =====
-- What append_index_row leaves behind: the row, its id and the id of its path; and what an exception
-- leaves behind.
use imas_core.Prelude.{
  ℕ, ◌+◌, ◌-◌, ◌^◌, ◌≤◌, ◌<◌, true, false, List, [], ◌∷◌, ◌++◌, none, some, Text, Result, ok, throw,
  Exception, ◌≡◌, refl, ap, subst, arith, lookup, assign, lookup-assign, text_eq_iff, length, leb,
  take, Option-cases, Bool-cases, inl, inr,
}
use imas_core.Panzer.Types.{PanzerDb, continue, panzer_no_path_row_v3}
use imas_core.Panzer.Row.{pack_row_v3, unpack_row_v3}
use imas_core.Panzer.Row.RoundTrip.{parent_column, pack_row_v3-unpack_row_v3, pack_row_v3-Fits}
use imas_core.Panzer.Append.{new_path, intern_path, append_v3, append_index_row, push_row}

-- The ids given out so far are below `next_path_id`, and no two paths share one.
pub record PathIds (p : PanzerDb) : Type 0 where
  pub given : (path : Text) (id : ℕ) → lookup path p.path_id_map ≡ some id → id < p.next_path_id
  pub distinct :
      (a b : Text) (id : ℕ)
      → lookup a p.path_id_map ≡ some id
      → lookup b p.path_id_map ≡ some id
      → a ≡ b
  pub bounded : p.next_path_id ≤ panzer_no_path_row_v3

-- The engine once a new path has its id.
abbrev interned : Text → PanzerDb → PanzerDb
interned path p = record p {
  next_path_id = p.next_path_id + 1;
  path_id_map = assign path p.next_path_id p.path_id_map;
  path_text_buffer = p.path_text_buffer ++ (take 255 path ∷ []);
}

interned-PathIds :
    (path : Text) (p : PanzerDb)
    → lookup path p.path_id_map ≡ none
    → p.next_path_id < panzer_no_path_row_v3
    → PathIds p
    → PathIds (interned path p)
interned-PathIds path p missing room v = record {
  given = λ a id e. ground (arith, lookup-assign path a p.next_path_id p.path_id_map, v.given a id);
  distinct = λ a b id e f. ground (
    arith,
    lookup-assign path a p.next_path_id p.path_id_map,
    lookup-assign path b p.next_path_id p.path_id_map,
    v.given a id,
    v.given b id,
    v.distinct a b id,
    text_eq_iff path a,
    text_eq_iff path b,
  );
  bounded = omega arith;
}

intern_path-known :
    (path : Text) (p : PanzerDb) (n : ℕ)
    → lookup path p.path_id_map ≡ some n
    → intern_path path p ≡ (ok n, p)
unfolding intern_path
intern_path-known path p n e = ground arith

intern_path-missing :
    (path : Text) (p : PanzerDb)
    → lookup path p.path_id_map ≡ none
    → leb panzer_no_path_row_v3 p.next_path_id ≡ false
    → intern_path path p ≡ (ok p.next_path_id, interned path p)
unfolding intern_path new_path
intern_path-missing path p e room = ground arith

intern_path-full :
    (path : Text) (p : PanzerDb)
    → lookup path p.path_id_map ≡ none
    → leb panzer_no_path_row_v3 p.next_path_id ≡ true
    → intern_path path p ≡ (throw Exception.al_backend, p)
unfolding intern_path new_path
intern_path-full path p e full = ground arith

-- What interning `path` leaves: its own id, and those of the earlier paths.
abbrev pub Interned : PanzerDb → Text → Result ℕ × PanzerDb → Type 0
Interned p path (throw e, q) = Unit
Interned p path (ok id, q) =
    PathIds q
    × (lookup path q.path_id_map ≡ some id)
    × (id < 2 ^ 32 - 1)
    × ((other : Text) (n : ℕ)
        → lookup other p.path_id_map ≡ some n
        → lookup other q.path_id_map ≡ some n)

keeps_ids :
    (path other : Text) (p : PanzerDb) (n : ℕ)
    → lookup path p.path_id_map ≡ none
    → lookup other p.path_id_map ≡ some n
    → lookup other (assign path p.next_path_id p.path_id_map) ≡ some n
keeps_ids path other p n missing e =
    ground (arith, lookup-assign path other p.next_path_id p.path_id_map, text_eq_iff path other)

intern_path-Interned :
    (path : Text) (p : PanzerDb) → PathIds p → Interned p path (intern_path path p)
intern_path-Interned path p v = elim (Option-cases (lookup path p.path_id_map)) [
  | inl e ↦ elim (Bool-cases (leb panzer_no_path_row_v3 p.next_path_id)) [
    | inl full ↦ rw (intern_path-full path p e full) tt
    | inr room ↦ rw (intern_path-missing path p e room) (
      interned-PathIds path p e (ground arith) v,
      ground (arith, lookup-assign path path p.next_path_id p.path_id_map, text_eq_iff path path),
      ground arith,
      λ other n f. keeps_ids path other p n e f,
    )
  ]
  | inr (n, e) ↦
      rw (intern_path-known path p n e)
        (v, e, ground (arith, v.given path n e, v.bounded), λ other m f. f)
]

-- Where no two paths share an id and all ids are below the next one and the limit, an intern_path
-- that returns keeps this so, the path then has the id returned, which is below 2^32 - 1, and
-- every earlier path keeps its id.
pub intern_path-PathIds :
    (path : Text) (p q : PanzerDb) (id : ℕ)
    → PathIds p
    → intern_path path p ≡ (ok id, q)
    → PathIds q
      × (lookup path q.path_id_map ≡ some id)
      × (id < 2 ^ 32 - 1)
      × ((other : Text) (n : ℕ)
          → lookup other p.path_id_map ≡ some n
          → lookup other q.path_id_map ≡ some n)
intern_path-PathIds path p q id v h = subst (Interned p path) h (intern_path-Interned path p v)

-- A row of the v3 layout is seven columns, from which getLeaves reads these fields.
abbrev pub RowOf : List ℕ → ℕ → ℕ → ℕ → ℕ → ℕ → ℕ → List ℕ → Type 0
RowOf row path_id parent_id time_idx offset count flags shape = unpack_row_v3 row ≡ record {
  offset = offset;
  count = count;
  path_id = path_id;
  parent_id = parent_column parent_id;
  time_index = time_idx;
  flags = flags;
  shape = shape;
}

pack_row_v3-RowOf :
    (path_id parent_id time_idx offset count flags : ℕ) (shape row : List ℕ)
    → path_id < 2 ^ 32
    → flags < 2 ^ 8
    → length shape ≤ 6
    → pack_row_v3 path_id parent_id time_idx offset count flags shape ≡ ok row
    → RowOf row path_id parent_id time_idx offset count flags shape
pack_row_v3-RowOf path_id parent_id time_idx offset count flags shape row hp hf hn h =
    let (ht, hq, hs) =
      pack_row_v3-Fits path_id parent_id time_idx offset count flags shape row hn h in
    let trip =
      pack_row_v3-unpack_row_v3 path_id parent_id time_idx offset count flags shape hp hq ht hf hn
        hs in
    cc

intern_path-index_buffer :
    (path : Text) (p : PanzerDb)
    → ((intern_path path p).1.index_buffer ≡ p.index_buffer)
      × ((intern_path path p).1.next_row_id ≡ p.next_row_id)
unfolding intern_path new_path
intern_path-index_buffer path p = ground arith

-- The engine once append_index_row has taken a row id.
abbrev numbered : PanzerDb → PanzerDb
numbered p = record p { next_row_id = p.next_row_id + 1 }

numbered-PathIds : (p : PanzerDb) → PathIds p → PathIds (numbered p)
numbered-PathIds p v = record { given = v.given; distinct = v.distinct; bounded = v.bounded }

append_index_row-append_v3 :
    (path : Text) (shape : List ℕ) (time_idx offset count flags parent_id : ℕ) (p : PanzerDb)
    → p.index_version ≡ 3
    → append_index_row path shape time_idx offset count flags parent_id p
      ≡ append_v3 p.next_row_id path shape time_idx offset count flags parent_id (numbered p)
unfolding append_index_row
append_index_row-append_v3 path shape time_idx offset count flags parent_id p hv = ground arith

-- What append_index_row promises of a success and of an exception.
abbrev pub Appended : PanzerDb → Text → List ℕ → ℕ → ℕ → ℕ → ℕ → ℕ → Result ℕ × PanzerDb → Type 0
Appended p path shape time_idx offset count flags parent_id (throw e, q) =
    (q.index_buffer ≡ p.index_buffer) × (q.next_row_id ≡ p.next_row_id + 1)
Appended p path shape time_idx offset count flags parent_id (ok id, q) =
    (id ≡ p.next_row_id)
    × (q.next_row_id ≡ p.next_row_id + 1)
    × PathIds q
    × (row : List ℕ) × (path_id : ℕ) × (q.index_buffer ≡ p.index_buffer ++ row)
    × (lookup path q.path_id_map ≡ some path_id)
    × RowOf row path_id parent_id time_idx offset count flags shape

push_row-Appended :
    (path : Text) (shape : List ℕ) (time_idx offset count flags parent_id : ℕ) (p r : PanzerDb)
    (path_id : ℕ) (packed : Result (List ℕ))
    → pack_row_v3 path_id parent_id time_idx offset count flags shape ≡ packed
    → flags < 2 ^ 8
    → length shape ≤ 6
    → PathIds r
    → lookup path r.path_id_map ≡ some path_id
    → path_id < 2 ^ 32 - 1
    → r.index_buffer ≡ p.index_buffer
    → r.next_row_id ≡ p.next_row_id + 1
    → Appended p path shape time_idx offset count flags parent_id (push_row p.next_row_id packed r)
push_row-Appended path shape time_idx offset count flags parent_id p r path_id (throw e) h hf hn v
      hl hp hb hr =
    (hb, hr)
push_row-Appended path shape time_idx offset count flags parent_id p r path_id (ok row) h hf hn v hl
      hp hb hr =
    (
      refl,
      hr,
      record { given = v.given; distinct = v.distinct; bounded = v.bounded },
      row,
      path_id,
      ap (λ b. b ++ row) hb,
      hl,
      pack_row_v3-RowOf path_id parent_id time_idx offset count flags shape row (omega arith) hf hn
          h,
    )

append_v3-Appended :
    (path : Text) (shape : List ℕ) (time_idx offset count flags parent_id : ℕ) (p : PanzerDb)
    (m : Result ℕ × PanzerDb)
    → Interned (numbered p) path m
    → m.1.index_buffer ≡ p.index_buffer
    → m.1.next_row_id ≡ p.next_row_id + 1
    → flags < 2 ^ 8
    → length shape ≤ 6
    → Appended p path shape time_idx offset count flags parent_id (
        continue m (λ path_id.
          push_row p.next_row_id (pack_row_v3 path_id parent_id time_idx offset count flags shape)))
append_v3-Appended path shape time_idx offset count flags parent_id p (throw e, r) i hb hr hf hn =
    (hb, hr)
append_v3-Appended path shape time_idx offset count flags parent_id p (ok path_id, r) i hb hr hf
      hn =
    push_row-Appended path shape time_idx offset count flags parent_id p r path_id
      (pack_row_v3 path_id parent_id time_idx offset count flags shape) refl hf hn i.0 i.1 i.2 hb hr

-- In the v3 layout, with valid path ids, flags below 2^8 and at most six dimensions: a successful
-- append_index_row returns the next row id and adds one row, from which getLeaves reads the
-- arguments and the id that the path now has; an exception adds no row, but the row id is used up
-- all the same.
pub append_index_row-Appended :
    (path : Text) (shape : List ℕ) (time_idx offset count flags parent_id : ℕ) (p : PanzerDb)
    → p.index_version ≡ 3
    → PathIds p
    → flags < 2 ^ 8
    → length shape ≤ 6
    → Appended p path shape time_idx offset count flags parent_id
        (append_index_row path shape time_idx offset count flags parent_id p)
unfolding append_v3
append_index_row-Appended path shape time_idx offset count flags parent_id p hv v hf hn =
    rw (append_index_row-append_v3 path shape time_idx offset count flags parent_id p hv) (
      append_v3-Appended path shape time_idx offset count flags parent_id p
        (intern_path path (numbered p))
        (intern_path-Interned path (numbered p) (numbered-PathIds p v))
        (intern_path-index_buffer path (numbered p)).0
        (intern_path-index_buffer path (numbered p)).1 hf hn)
