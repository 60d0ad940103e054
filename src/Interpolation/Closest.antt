-- ===== src/Interpolation/Closest.antt =====
-- getSlicesTimesIndices in the mode CLOSEST_INTERP, which is also that of UNDEFINED_INTERP.
use imas_core.Prelude.{
  ℕ, ◌+◌, ◌-◌, ◌≤◌, ◌<◌, true, false, ◌||◌, List, length, ltb, leb, ok, ◌≡◌, ◌⊎◌, refl, subst,
  arith, ◌==◌, Bool-cases, inl, inr,
}
use imas_core.Interpolation.{
  Doubles, Slices, sample, increasing_prefix_size, lower_bound, get_slices_times_indices, choose,
  upper_slice, closest_interp, undefined_interp,
}
use imas_core.Interpolation.Samples.{Times, Rising, IsLower, lower_bound-IsLower}

module _ (F : Doubles) (laws : Times F) where
  -- `i` is at least as close to `t` as `j`.
  abbrev Nearer : List F.D → F.D → ℕ → ℕ → Type 0
  Nearer time_vector t i j =
      F.lt (F.dist t (sample F time_vector j)) (F.dist t (sample F time_vector i)) ≡ false

  module _ (time_vector : List F.D) (t : F.D) (n : ℕ) (rising : Rising F time_vector n) where
    -- Before `m` the later sample is the nearer one.
    distance_before :
        (m : ℕ) → IsLower F time_vector t n m → (i j : ℕ) → j ≤ i → i < m → Nearer time_vector t i j
    distance_before m v i j h k =
        laws.dist_below t (sample F time_vector j) (sample F time_vector i)
          (rising j i h (omega (arith, v.inside)))
          (laws.lt_asym (sample F time_vector i) t (v.before i k))

    -- From `m` on the earlier one.
    distance_behind :
        (m : ℕ)
        → IsLower F time_vector t n m
        → (i j : ℕ) → m ≤ i
        → i ≤ j
        → j < n
        → Nearer time_vector t i j
    distance_behind m v i j h k l =
        laws.dist_above t (sample F time_vector i) (sample F time_vector j)
          (laws.le_trans t (sample F time_vector m) (sample F time_vector i) (v.at (omega arith))
            (rising m i h (omega arith)))
          (rising i j k l)

    distance_trans :
        (i j k : ℕ) → Nearer time_vector t i j → Nearer time_vector t j k → Nearer time_vector t i k
    distance_trans i j k a b =
        laws.le_trans (F.dist t (sample F time_vector i)) (F.dist t (sample F time_vector j))
          (F.dist t (sample F time_vector k)) a b

    distance_refl : (i : ℕ) → Nearer time_vector t i i
    distance_refl i =
        elim (Bool-cases
          (F.lt (F.dist t (sample F time_vector i)) (F.dist t (sample F time_vector i)))) [
            | inl e ↦
                laws.lt_asym (F.dist t (sample F time_vector i)) (F.dist t (sample F time_vector i))
                  e
            | inr e ↦ e
          ]

    -- Nearer than both samples around the time is nearer than all: `m` is where lower_bound stops.
    nearest_of_two :
        (m : ℕ)
        → IsLower F time_vector t n m
        → (low high r : ℕ) → high ≤ low + 1
        → (m ≤ low → low ≡ 0)
        → (m ≤ high) ⊎ (n ≡ high + 1)
        → high < n
        → low ≤ high
        → Nearer time_vector t r low
        → Nearer time_vector t r high
        → (i : ℕ) → i < n
        → Nearer time_vector t r i
    nearest_of_two m v low high r e h k l o a b i in_range = elim (Bool-cases (leb high i)) [
      | inl up ↦ elim k [
        | inl around ↦
            distance_trans r high i b (distance_behind m v high i around (ground arith) in_range)
        | inr last ↦ subst (Nearer time_vector t r) {x = high} {y = i} (ground arith) b
      ]
      | inr down ↦ elim (Bool-cases (ltb low m)) [
        | inl before ↦
            distance_trans r low i a (distance_before m v low i (ground arith) (ground arith))
        | inr at ↦
            distance_trans r low i a
              (distance_behind m v low i (ground arith) (ground arith) in_range)
      ]
    ]

    -- The choice of the mode is the nearer of the two.
    choose-Nearer :
        (interp low high : ℕ)
        → interp ≤ 1
        → Nearer time_vector t (choose F time_vector t interp low high) low
          × Nearer time_vector t (choose F time_vector t interp low high) high
          × ((choose F time_vector t interp low high ≡ low)
              ⊎ (choose F time_vector t interp low high ≡ high))
    unfolding choose
    choose-Nearer interp low high h =
        let mode : (interp == closest_interp) || (interp == undefined_interp) ≡ true =
          ground arith in
        elim (Bool-cases
          (F.lt (F.dist t (sample F time_vector low)) (F.dist t (sample F time_vector high)))) [
            | inl low_wins ↦
                rw (mode, low_wins) (distance_refl low, laws.lt_asym _ _ low_wins, inl refl)
            | inr high_wins ↦ rw (mode, high_wins) (high_wins, distance_refl high, inr refl)
          ]

  -- For times that are totally ordered, with a distance that grows on either side, in the modes
  -- CLOSEST_INTERP and UNDEFINED_INTERP: on a time vector that has samples, does not fall and has no
  -- invalid sample at its end, getSlicesTimesIndices returns the index of a sample such that no
  -- sample is nearer to the requested time.
  pub get_slices_times_indices-Nearest :
      (t : F.D) (time_vector : List F.D) (interp : ℕ)
      → 0 < length time_vector
      → interp ≤ 1
      → increasing_prefix_size F time_vector ≡ length time_vector
      → Rising F time_vector (length time_vector)
      → (s : Slices) × (get_slices_times_indices F t time_vector interp ≡ ok s)
        × (s.index < length time_vector)
        × ((i : ℕ)
            → i < length time_vector
            → F.lt (F.dist t (sample F time_vector i)) (F.dist t (sample F time_vector s.index))
              ≡ false)
  unfolding get_slices_times_indices
  get_slices_times_indices-Nearest t time_vector interp some_sample mode whole rising =
      let n = length time_vector in
      let m = lower_bound F time_vector t (increasing_prefix_size F time_vector) in
      let v =
        subst (λ k. IsLower F time_vector t k m) whole
          (lower_bound-IsLower F time_vector t (increasing_prefix_size F time_vector)) in
      let high = upper_slice F time_vector interp (increasing_prefix_size F time_vector) m in
      let around : (m ≤ high) ⊎ (n ≡ high + 1) =
        elim (Bool-cases (m == increasing_prefix_size F time_vector)) [
          | inl all_below ↦ inr (ground (arith, whole))
          | inr found ↦ inl (ground (arith, v.inside))
        ] in
      let picked = choose-Nearer time_vector t n rising interp (high - 1) high mode in
      (
        record {
          index = choose F time_vector t interp (high - 1) high;
          slice_inf = high - 1;
          slice_sup = high;
        },
        ground arith,
        ground (arith, picked.2, v.inside),
        nearest_of_two time_vector t n rising m v (high - 1) high
            (choose F time_vector t interp (high - 1) high) (omega arith)
            (ground (arith, whole, v.inside)) around (ground (arith, whole, v.inside)) (omega arith)
            picked.0 picked.1,
      )
