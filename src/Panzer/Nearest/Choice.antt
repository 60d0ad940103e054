-- ===== src/Panzer/Nearest/Choice.antt =====
-- The slice that nearestAvailableSliceIndex chooses is available, and nothing available is passed over.
use imas_core.Prelude.{
  ℕ, zero, suc, ◌+◌, ◌-◌, ◌≤◌, ◌<◌, Bool, true, false, not, ◌&&◌, Option, none, some, Text, Dict,
  lookup, assign, lookup-assign, text_eq, text_eq_iff, leb, ltb, is_empty, ◌==◌, if◌then◌else◌, ◌≡◌,
  ◌⊎◌, refl, subst, arith, Bool-cases, inl, inr,
}
use imas_core.Prelude.Int.{ℤ, pos, negsuc}
use imas_core.Panzer.Types.{Index}
use imas_core.Panzer.Nearest.{
  Target, find_target, available, scan_down, scan_up, prefer, or_else, is_dead, answer, target_live,
  generic_live, nearest_available_slice_index,
}

-- What a scan over the indices from `low` to `high` finds: an index `found` that is available, and nothing
-- available before it in the scan's direction.
abbrev Highest : (ℕ → Bool) → ℕ → Option ℕ → Type 0
Highest at i none = (j : ℕ) → j ≤ i → at j ≡ false
Highest at i (some r) = (r ≤ i) × (at r ≡ true) × ((j : ℕ) → r < j → j ≤ i → at j ≡ false)

abbrev Lowest : (ℕ → Bool) → ℕ → ℕ → Option ℕ → Type 0
Lowest at i rounds none = (j : ℕ) → i ≤ j → j < i + rounds → at j ≡ false
Lowest at i rounds (some r) =
    (i ≤ r) × (r < i + rounds) × (at r ≡ true) × ((j : ℕ) → i ≤ j → j < r → at j ≡ false)

step_down :
    (at : ℕ → Bool) (i : ℕ) (o : Option ℕ)
    → at (suc i) ≡ false
    → Highest at i o
    → Highest at (suc i) o
step_down at i none e h = λ j k. elim (Bool-cases (j == suc i)) [
  | inl top ↦ subst (λ n. at n ≡ false) {x = suc i} {y = j} (ground arith) e
  | inr under ↦ h j (ground arith)
]
step_down at i (some r) e h = (
  omega (arith, h.0),
  h.1,
  λ j l k. elim (Bool-cases (j == suc i)) [
    | inl top ↦ subst (λ n. at n ≡ false) {x = suc i} {y = j} (ground arith) e
    | inr under ↦ h.2 j l (ground arith)
  ],
)

scan_down-Highest : (at : ℕ → Bool) (i : ℕ) → Highest at i (scan_down at i)
unfolding scan_down
scan_down-Highest at zero = elim (Bool-cases (at zero)) [
  | inl e ↦ rw e (omega arith, e, λ j l k. absurd (omega arith))
  | inr e ↦ rw e (λ j k. subst (λ n. at n ≡ false) {x = 0} {y = j} (omega arith) e)
]
scan_down-Highest at (suc i) = elim (Bool-cases (at (suc i))) [
  | inl e ↦ rw e (omega arith, e, λ j l k. absurd (omega arith))
  | inr e ↦ rw e (step_down at i (scan_down at i) e (scan_down-Highest at i))
]

step_up :
    (at : ℕ → Bool) (i rounds : ℕ) (o : Option ℕ)
    → at i ≡ false
    → Lowest at (suc i) rounds o
    → Lowest at i (suc rounds) o
step_up at i rounds none e h = λ j k l. elim (Bool-cases (j == i)) [
  | inl here ↦ subst (λ n. at n ≡ false) {x = i} {y = j} (ground arith) e
  | inr over ↦ h j (ground arith) (omega arith)
]
step_up at i rounds (some r) e h = (
  omega (arith, h.0),
  omega (arith, h.1),
  h.2,
  λ j k l. elim (Bool-cases (j == i)) [
    | inl here ↦ subst (λ n. at n ≡ false) {x = i} {y = j} (ground arith) e
    | inr over ↦ h.3 j (ground arith) l
  ],
)

scan_up-Lowest : (at : ℕ → Bool) (i rounds : ℕ) → Lowest at i rounds (scan_up at i rounds)
unfolding scan_up
scan_up-Lowest at i zero = λ j k l. absurd (omega arith)
scan_up-Lowest at i (suc rounds) = elim (Bool-cases (at i)) [
  | inl e ↦ rw e (omega arith, omega arith, e, λ j k l. absurd (omega arith))
  | inr e ↦
      rw e (step_up at i rounds (scan_up at (suc i) rounds) e (scan_up-Lowest at (suc i) rounds))
]

module _ (closer : ℕ → ℕ → Bool) (at : ℕ → Bool) (requested_idx nb : ℕ) where
  -- The choice: available, with nothing available between it and the request, and on the side preferred
  -- unless nothing is available there.
  abbrev pub Chosen : ℤ → ℕ → Type 0
  Chosen direction r =
      (at r ≡ true)
      × ((j : ℕ) → r < j → j < requested_idx → at j ≡ false)
      × ((j : ℕ) → requested_idx < j → j < r → at j ≡ false)
      × OnSide direction
    where
      OnSide : ℤ → Type 0
      OnSide (negsuc d) = (r ≤ requested_idx) ⊎ ((j : ℕ) → j ≤ requested_idx → at j ≡ false)
      OnSide (pos zero) = Unit
      OnSide (pos (suc d)) =
          (requested_idx ≤ r) ⊎ ((j : ℕ) → requested_idx ≤ j → j < nb → at j ≡ false)

  abbrev pub Answers : ℤ → Option ℕ → Type 0
  Answers direction none = (j : ℕ) → j < nb → at j ≡ false
  Answers direction (some r) = Chosen direction r

  abbrev Above : Option ℕ → Type 0
  Above none = (j : ℕ) → requested_idx ≤ j → j < nb → at j ≡ false
  Above (some r) =
      (requested_idx ≤ r) × (at r ≡ true) × ((j : ℕ) → requested_idx ≤ j → j < r → at j ≡ false)

  scan_up-Above :
      (o : Option ℕ)
      → requested_idx ≤ nb - 1
      → Lowest at requested_idx (nb - 1 + 1 - requested_idx) o
      → Above o
  scan_up-Above none h v = λ j k l. v j k (omega arith)
  scan_up-Above (some r) h v = (v.0, v.2, v.3)

  -- The three parts of Chosen but the side.
  below-Chosen :
      (r : ℕ)
      → Highest at requested_idx (some r)
      → (at r ≡ true)
        × ((j : ℕ) → r < j → j < requested_idx → at j ≡ false)
        × ((j : ℕ) → requested_idx < j → j < r → at j ≡ false)
  below-Chosen r h = (h.1, λ j k l. h.2 j k (omega arith), λ j k l. absurd (omega (arith, h.0)))

  Above-Chosen :
      (r : ℕ)
      → Above (some r)
      → (at r ≡ true)
        × ((j : ℕ) → r < j → j < requested_idx → at j ≡ false)
        × ((j : ℕ) → requested_idx < j → j < r → at j ≡ false)
  Above-Chosen r h = (h.1, λ j k l. absurd (omega (arith, h.0)), λ j k l. h.2 j (omega arith) l)

  prefer-Answers :
      (direction : ℤ) (below above : Option ℕ)
      → Highest at requested_idx below
      → Above above
      → Answers direction (prefer closer direction below above)
  unfolding prefer or_else
  prefer-Answers (negsuc d) none none b a = λ j k. elim (Bool-cases (leb j requested_idx)) [
    | inl low ↦ b j (ground arith)
    | inr high ↦ a j (ground arith) k
  ]
  prefer-Answers (negsuc d) none (some r) b a = let (x, y, z) = Above-Chosen r a in (x, y, z, inr b)
  prefer-Answers (negsuc d) (some r) above b a =
      let (x, y, z) = below-Chosen r b in (x, y, z, inl b.0)
  prefer-Answers (pos (suc d)) none none b a = λ j k. elim (Bool-cases (leb j requested_idx)) [
    | inl low ↦ b j (ground arith)
    | inr high ↦ a j (ground arith) k
  ]
  prefer-Answers (pos (suc d)) below (some r) b a =
      let (x, y, z) = Above-Chosen r a in (x, y, z, inl a.0)
  prefer-Answers (pos (suc d)) (some r) none b a =
      let (x, y, z) = below-Chosen r b in (x, y, z, inr a)
  prefer-Answers (pos zero) none none b a = λ j k. elim (Bool-cases (leb j requested_idx)) [
    | inl low ↦ b j (ground arith)
    | inr high ↦ a j (ground arith) k
  ]
  prefer-Answers (pos zero) none (some r) b a = let (x, y, z) = Above-Chosen r a in (x, y, z, tt)
  prefer-Answers (pos zero) (some r) none b a = let (x, y, z) = below-Chosen r b in (x, y, z, tt)
  prefer-Answers (pos zero) (some r) (some s) b a = elim (Bool-cases (closer s r)) [
    | inl e ↦ rw e (let (x, y, z) = Above-Chosen s a in (x, y, z, tt))
    | inr e ↦ rw e (let (x, y, z) = below-Chosen r b in (x, y, z, tt))
  ]

  requested-Chosen : at requested_idx ≡ true → (direction : ℤ) → Chosen direction requested_idx
  requested-Chosen here (negsuc d) =
      (here, λ j k l. absurd (omega arith), λ j k l. absurd (omega arith), inl (omega arith))
  requested-Chosen here (pos zero) =
      (here, λ j k l. absurd (omega arith), λ j k l. absurd (omega arith), tt)
  requested-Chosen here (pos (suc d)) =
      (here, λ j k l. absurd (omega arith), λ j k l. absurd (omega arith), inl (omega arith))

-- The table of signals without slices tells the truth about an index.
abbrev pub Sound : Index → Dict ℕ → Type 0
Sound index table =
    (path : Text) (n j : ℕ)
    → lookup path table ≡ some n
    → j < n
    → available index (find_target path index.cached_dynamic_aos_roots) (pos j) ≡ false

module _ (closer : ℕ → ℕ → Bool) (index : Index) (table : Dict ℕ) (sound : Sound index table)
    (full_path : Text) (requested_idx nb : ℕ) where
  abbrev target : Target
  target = find_target full_path index.cached_dynamic_aos_roots

  abbrev at : ℕ → Bool
  at i = available index target (pos i)

  -- A result, and the table that it leaves.
  abbrev Right : ℤ → Option ℕ × Dict ℕ → Type 0
  Right direction r = Answers closer at requested_idx nb direction r.0 × Sound index r.1

  entered-Sound : ((j : ℕ) → j < nb → at j ≡ false) → Sound index (assign full_path nb table)
  entered-Sound nothing path n j e h = elim (Bool-cases (text_eq full_path path)) [
    | inl same ↦
        subst (λ q. available index (find_target q index.cached_dynamic_aos_roots) (pos j) ≡ false)
          ((text_eq_iff full_path path).0 same)
          (nothing j (ground (arith, lookup-assign full_path path nb table)))
    | inr other ↦ sound path n j (ground (arith, lookup-assign full_path path nb table)) h
  ]

  answer-Right :
      (direction : ℤ) (below above : Option ℕ)
      → Highest at requested_idx below
      → Above closer at requested_idx nb above
      → Right direction (answer closer table full_path requested_idx direction nb below above)
  unfolding answer
  answer-Right direction none none b a =
      let nothing : (j : ℕ) → j < nb → at j ≡ false = λ j k.
        elim (Bool-cases (leb j requested_idx)) [
          | inl low ↦ b j (ground arith)
          | inr high ↦ a j (ground arith) k
        ] in
      (
        nothing,
        elim (Bool-cases (ltb 0 nb && leb requested_idx (nb - 1))) [
          | inl e ↦ rw e (entered-Sound nothing)
          | inr e ↦ rw e sound
        ],
      )
  answer-Right direction (some r) above b a =
      (prefer-Answers closer at requested_idx nb direction (some r) above b a, sound)
  answer-Right direction none (some r) b a =
      (prefer-Answers closer at requested_idx nb direction none (some r) b a, sound)

  dead-Right :
      (o : Option ℕ)
      → lookup full_path table ≡ o
      → is_dead nb o ≡ true
      → (j : ℕ) → j < nb
      → at j ≡ false
  unfolding is_dead
  dead-Right none e d j h = cc
  dead-Right (some n) e d j h = sound full_path n j e (ground arith)

  scanned :
      (leb requested_idx (nb - 1) ≡ true) ⊎ (leb requested_idx (nb - 1) ≡ false)
      → Above closer at requested_idx nb (
          if leb requested_idx (nb - 1)
          then scan_up at requested_idx (nb - 1 + 1 - requested_idx)
          else none)
  scanned (inl e) = rw e (
      scan_up-Above closer at requested_idx nb
        (scan_up at requested_idx (nb - 1 + 1 - requested_idx)) (ground arith)
        (scan_up-Lowest at requested_idx (nb - 1 + 1 - requested_idx)))
  scanned (inr e) = rw e (λ j k l. absurd (ground arith))

  -- For a request that is not negative, and a table of signals without slices that tells the truth:
  -- the index that nearestAvailableSliceIndex returns is available, nothing available lies between
  -- it and the request, and it lies on the preferred side unless nothing is available there; -1
  -- means that no sample of the time base is available; and the table that is left tells the truth.
  pub nearest_available_slice_index-Answers :
      (direction : ℤ)
      → Answers closer at requested_idx nb direction
          (nearest_available_slice_index closer index table full_path requested_idx direction nb).0
        × Sound index
            (nearest_available_slice_index closer index table full_path requested_idx direction
              nb).1
  unfolding nearest_available_slice_index
  nearest_available_slice_index-Answers direction =
      elim (Bool-cases (is_dead nb (lookup full_path table))) [
        | inl dead ↦ rw dead (dead-Right (lookup full_path table) refl dead, sound)
        | inr alive ↦
            rw alive
              (elim (Bool-cases (
                not (target_live index target)
                && not (generic_live index target)
                && is_empty target.dynamic_aos)) [
                  | inl bare ↦ rw bare (λ j k. ground (arith, bare), sound)
                  | inr live ↦ rw live (elim (Bool-cases (at requested_idx)) [
                    | inl here ↦
                        rw here (requested-Chosen closer at requested_idx nb here direction, sound)
                    | inr missing ↦ rw missing (
                        answer-Right direction (scan_down at requested_idx)
                          (if leb requested_idx (nb - 1)
                            then scan_up at requested_idx (nb - 1 + 1 - requested_idx)
                            else none)
                          (scan_down-Highest at requested_idx)
                          (scanned (Bool-cases (leb requested_idx (nb - 1)))))
                  ])
                ])
      ]
