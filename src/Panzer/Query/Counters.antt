-- ===== src/Panzer/Query/Counters.antt =====
-- The counters that restoreTimeContext takes from the rows of a file lie behind all of them.
use imas_core.Prelude.{
  ℕ, zero, suc, ◌+◌, ◌*◌, ◌≤◌, ◌<◌, false, ◌||◌, List, [], ◌∷◌, Option, none, some, Text, Dict,
  lookup, lookup-assign, text_eq_iff, get_or_else, ltb, max, ◌==◌, if◌then◌else◌, ◌≡◌, ◌≢◌, sym,
  subst, arith, All,
}
use imas_core.Panzer.Types.{Leaf, OpenMode, PanzerDb}
use imas_core.Panzer.Lookup.{time_steps, slice_volume_from, row_time_steps}
use imas_core.Panzer.Stack.{counter}
use imas_core.Panzer.Query.{
  raise, raise_root, raise_leaf, raise_leaves, next_step, longest_root, restore_time_context,
  zero_roots,
}

abbrev value : Dict ℕ → Text → ℕ
value counters key = get_or_else (lookup key counters) 0

-- A row that is no AoS meta-node.
abbrev pub IsSignal : Leaf → Type 0
IsSignal leaf = (leaf.flags == 2) || (leaf.flags == 3) ≡ false

raise-value :
    (key k : Text) (next : ℕ) (counters : Dict ℕ)
    → (value counters k ≤ value (raise key next counters) k)
      × (next ≤ value (raise key next counters) key)
unfolding raise
raise-value key k next counters = ground (
  arith,
  lookup-assign key k (max (value counters key) next) counters,
  text_eq_iff key k,
  lookup-assign key key (max (value counters key) next) counters,
  text_eq_iff key key,
)

raise_root-value :
    (root : Option Text) (k : Text) (next : ℕ) (counters : Dict ℕ)
    → value counters k ≤ value (raise_root root next counters) k
unfolding raise_root
raise_root-value none k next counters = omega arith
raise_root-value (some root) k next counters = (raise-value root k next counters).0

raise_leaf_mono :
    (roots : List Text) (leaf : Leaf) (counters : Dict ℕ) (k : Text)
    → value counters k ≤ value (raise_leaf roots leaf counters) k
unfolding raise_leaf
raise_leaf_mono roots leaf counters k = omega (
  arith,
  (raise-value leaf.path k (next_step leaf) counters).0,
  raise_root-value (longest_root leaf.path none roots) k (next_step leaf)
      (raise leaf.path (next_step leaf) counters),
)

raise_leaf-own :
    (roots : List Text) (leaf : Leaf) (counters : Dict ℕ)
    → next_step leaf ≤ value (raise_leaf roots leaf counters) leaf.path
unfolding raise_leaf
raise_leaf-own roots leaf counters = omega (
  arith,
  (raise-value leaf.path leaf.path (next_step leaf) counters).1,
  raise_root-value (longest_root leaf.path none roots) leaf.path (next_step leaf)
      (raise leaf.path (next_step leaf) counters),
)

raise_leaf-root :
    (roots : List Text) (leaf : Leaf) (counters : Dict ℕ) (root : Text)
    → longest_root leaf.path none roots ≡ some root
    → next_step leaf ≤ value (raise_leaf roots leaf counters) root
unfolding raise_leaf raise_root
raise_leaf-root roots leaf counters root e =
    subst
      (λ r.
        next_step leaf
        ≤ value (raise_root r (next_step leaf) (raise leaf.path (next_step leaf) counters)) root)
      (sym e) (raise-value root root (next_step leaf) (raise leaf.path (next_step leaf) counters)).1

raise_leaves_mono :
    (roots : List Text) (leaves : List Leaf) (counters : Dict ℕ) (k : Text)
    → value counters k ≤ value (raise_leaves roots leaves counters) k
unfolding raise_leaves
raise_leaves_mono roots [] counters k = omega arith
raise_leaves_mono roots (leaf ∷ leaves) counters k = ground (
  arith,
  raise_leaf_mono roots leaf counters k,
  raise_leaves_mono roots leaves counters k,
  raise_leaves_mono roots leaves (raise_leaf roots leaf counters) k,
)

-- The counters reach behind the leaf, at its path and at its dynamic AoS.
abbrev Reaches : List Text → Dict ℕ → Leaf → Type 0
Reaches roots counters leaf =
    IsSignal leaf
    → (next_step leaf ≤ value counters leaf.path)
      × ((root : Text)
          → longest_root leaf.path none roots ≡ some root
          → next_step leaf ≤ value counters root)

raise_leaves-Reaches :
    (roots : List Text) (leaves : List Leaf) (counters : Dict ℕ)
    → All (Reaches roots (raise_leaves roots leaves counters)) leaves
unfolding raise_leaves
raise_leaves-Reaches roots [] counters = tt
raise_leaves-Reaches roots (leaf ∷ leaves) counters = (
  λ signal. rw signal (
    omega (
      arith,
      raise_leaf-own roots leaf counters,
      raise_leaves_mono roots leaves (raise_leaf roots leaf counters) leaf.path,
    ),
    λ root e. omega (
      arith,
      raise_leaf-root roots leaf counters root e,
      raise_leaves_mono roots leaves (raise_leaf roots leaf counters) root,
    ),
  ),
  raise_leaves-Reaches roots leaves
      (if (leaf.flags == 2) || (leaf.flags == 3) then counters else raise_leaf roots leaf counters),
)

pub slice_volume_from-positive :
    (volume : ℕ) (shape : List ℕ) → 0 < volume → 0 < slice_volume_from volume shape
unfolding slice_volume_from
slice_volume_from-positive volume [] h = h
slice_volume_from-positive volume (s ∷ shape) h =
    slice_volume_from-positive (if ltb 0 s then volume * s else volume) shape
      (ground (arith, product s))
  where
    product : (n : ℕ) → 0 < n → 0 < volume * n
    product zero k = absurd (omega arith)
    product (suc n) k = grind arith

next_step-row_time_steps :
    (leaf : Leaf) → 0 < leaf.count → next_step leaf ≡ leaf.time_index + row_time_steps leaf
unfolding next_step time_steps
next_step-row_time_steps leaf h = ground (arith, slice_volume_from-positive 1 leaf.shape)

-- Behind restoreTimeContext the counter of a signal is at or behind the end of every row of the signal
-- that holds data, and the counter of the dynamic AoS that the signal is in, the longest of the roots
-- that its path goes through, is so too.
abbrev pub Covers : PanzerDb → PanzerDb → Leaf → Type 0
Covers p q leaf =
    IsSignal leaf
    → 0 < leaf.count
    → (leaf.time_index + row_time_steps leaf ≤ counter q leaf.path)
      × ((root : Text)
          → longest_root leaf.path none p.index.cached_dynamic_aos_roots ≡ some root
          → leaf.time_index + row_time_steps leaf ≤ counter q root)

All-map :
    (P Q : Leaf → Type 0) (leaves : List Leaf)
    → ((leaf : Leaf) → P leaf → Q leaf)
    → All P leaves
    → All Q leaves
All-map P Q [] f h = tt
All-map P Q (leaf ∷ leaves) f h = (f leaf h.0, All-map P Q leaves f h.1)

Reaches-Covers :
    (p q : PanzerDb) (leaf : Leaf)
    → Reaches p.index.cached_dynamic_aos_roots q.aos_time_counters leaf
    → Covers p q leaf
Reaches-Covers p q leaf h signal count =
    let e = next_step-row_time_steps leaf count in
    (omega (arith, e, (h signal).0), λ root found. omega (arith, e, (h signal).1 root found))

pub restore_time_context-Covers :
    (p : PanzerDb)
    → p.mode ≢ OpenMode.write
    → All (Covers p (restore_time_context p)) p.index.cached_leaves
unfolding restore_time_context
restore_time_context-Covers p h =
    let counters =
      raise_leaves p.index.cached_dynamic_aos_roots p.index.cached_leaves
        (zero_roots p.index.cached_leaves p.aos_time_counters) in
    let e : (restore_time_context p).aos_time_counters ≡ counters = ground arith in
    All-map (Reaches p.index.cached_dynamic_aos_roots counters) (Covers p (restore_time_context p))
      p.index.cached_leaves
      (λ leaf r.
        Reaches-Covers p (restore_time_context p) leaf
          (subst (λ c. Reaches p.index.cached_dynamic_aos_roots c leaf) (sym e) r))
      (raise_leaves-Reaches p.index.cached_dynamic_aos_roots p.index.cached_leaves
        (zero_roots p.index.cached_leaves p.aos_time_counters))
