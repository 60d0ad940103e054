-- ===== src/Interpolation/Previous.antt =====
-- getSlicesTimesIndices in the mode PREVIOUS_INTERP.
use imas_core.Prelude.{
  ℕ, ◌+◌, ◌-◌, ◌≤◌, ◌<◌, true, false, ◌&&◌, ◌||◌, List, length, ltb, ok, ◌≡◌, ◌⊎◌, subst, arith,
  ◌==◌, Bool-cases, inl, inr,
}
use imas_core.Interpolation.{
  Doubles, Slices, sample, increasing_prefix_size, lower_bound, get_slices_times_indices, choose,
  upper_slice, previous_interp,
}
use imas_core.Interpolation.Samples.{Times, IsLower, lower_bound-IsLower}

module _ (F : Doubles) where
  -- Each sample is below the later ones.
  abbrev pub Increasing : List F.D → ℕ → Type 0
  Increasing time_vector n =
      (i j : ℕ) → i < j → j < n → F.lt (sample F time_vector i) (sample F time_vector j) ≡ true

  module _ (laws : Times F) (time_vector : List F.D) (t : F.D) (n m : ℕ)
      (increasing : Increasing time_vector n) (v : IsLower F time_vector t n m)
      (eps : F.lt (F.dist t t) F.epsilon ≡ true)
      (antisym : (a b : F.D) → F.lt a b ≡ false → F.lt b a ≡ false → a ≡ b) where
    -- A sample that is not above the time stands at `m` or before it.
    at_most : (i : ℕ) → i < n → F.lt t (sample F time_vector i) ≡ false → i ≤ m
    at_most i h e = elim (Bool-cases (ltb m i)) [
      | inl behind ↦ elim (Bool-cases (F.lt t (sample F time_vector m))) [
        | inl above ↦ cc (
          laws.lt_trans t (sample F time_vector m) (sample F time_vector i) above
              (increasing m i (ground arith) h),
          e,
        )
        | inr level ↦ cc (
          antisym t (sample F time_vector m) level (v.at (ground arith)),
          increasing m i (ground arith) h,
          e,
        )
      ]
      | inr before ↦ ground arith
    ]

    -- A sample that is the time itself is within the tolerance.
    hit :
        m < n
        → F.lt t (sample F time_vector m) ≡ false
        → F.lt (F.dist t (sample F time_vector m)) F.epsilon ≡ true
    hit h e =
        subst (λ a. F.lt (F.dist t a) F.epsilon ≡ true)
          (antisym t (sample F time_vector m) e (v.at h)) eps

    -- The choice for the slices around the time.
    choose-Previous :
        (high : ℕ)
        → high < n
        → (m ≤ high) ⊎ (n ≡ high + 1)
        → high - 1 ≤ m
        → (m < high → (high ≡ 1) × (m ≡ 0))
        → ((i : ℕ)
            → i < n
            → F.lt t (sample F time_vector i) ≡ false
            → i ≤ choose F time_vector t previous_interp (high - 1) high)
          × ((choose F time_vector t previous_interp (high - 1) high ≡ 0)
              ⊎ (F.lt
                    (sample F time_vector (choose F time_vector t previous_interp (high - 1) high))
                    t
                  ≡ true)
              ⊎ (F.lt
                    (F.dist t (
                      sample F time_vector
                        (choose F time_vector t previous_interp (high - 1) high)))
                    F.epsilon
                  ≡ true))
    unfolding choose
    choose-Previous high h around low start =
        elim (Bool-cases (
          ltb 0 high
          && (F.lt (F.dist t (sample F time_vector high)) F.epsilon
              || F.lt (sample F time_vector high) t))) [
                | inl sup ↦ rw sup (
                  λ i in_range e. ground (arith, at_most i in_range e),
                  inr (ground (arith, sup)),
                )
                | inr inf ↦ rw inf (
                  λ i in_range e. elim (Bool-cases (i == m)) [
                    | inl same ↦
                        let e' : F.lt t (sample F time_vector m) ≡ false =
                          subst (λ k. F.lt t (sample F time_vector k) ≡ false) {x = i} {y = m}
                            (ground arith) e in
                        elim (Bool-cases (m == high)) [
                          | inl top ↦
                              let hit_high : F.lt (F.dist t (sample F time_vector high)) F.epsilon
                                  ≡ true =
                                subst
                                  (λ k. F.lt (F.dist t (sample F time_vector k)) F.epsilon ≡ true)
                                  {x = m} {y = high} (ground arith) (hit (ground arith) e') in
                              ground (arith, inf, hit_high)
                          | inr elsewhere ↦ ground (arith, start)
                        ]
                    | inr other ↦ ground (arith, inf, at_most i in_range e, v.before high)
                  ],
                  elim (Bool-cases (ltb (high - 1) m)) [
                    | inl before ↦ inr (inl (v.before (high - 1) (ground arith)))
                    | inr at ↦ inl (ground arith)
                  ],
                )
              ]

  -- For such times, where equal times are one and the distance of a time from itself is below the
  -- tolerance, in the mode PREVIOUS_INTERP: on a time vector that has samples, strictly increases
  -- and has no invalid sample at its end, getSlicesTimesIndices returns an index such that every
  -- sample not above the requested time stands there or before, and the sample there is the first
  -- one, below the time, or within the tolerance of it.
  pub get_slices_times_indices-Previous :
      (laws : Times F) (t : F.D) (time_vector : List F.D)
      → 0 < length time_vector
      → increasing_prefix_size F time_vector ≡ length time_vector
      → Increasing time_vector (length time_vector)
      → (F.lt (F.dist t t) F.epsilon ≡ true)
      → ((a b : F.D) → F.lt a b ≡ false → F.lt b a ≡ false → a ≡ b)
      → (s : Slices) × (get_slices_times_indices F t time_vector previous_interp ≡ ok s)
        × (s.index < length time_vector)
        × ((i : ℕ) → i < length time_vector → F.lt t (sample F time_vector i) ≡ false → i ≤ s.index)
        × ((s.index ≡ 0)
            ⊎ (F.lt (sample F time_vector s.index) t ≡ true)
            ⊎ (F.lt (F.dist t (sample F time_vector s.index)) F.epsilon ≡ true))
  unfolding get_slices_times_indices
  get_slices_times_indices-Previous laws t time_vector some_sample whole increasing eps antisym =
      let n = length time_vector in
      let m = lower_bound F time_vector t (increasing_prefix_size F time_vector) in
      let v =
        subst (λ k. IsLower F time_vector t k m) whole
          (lower_bound-IsLower F time_vector t (increasing_prefix_size F time_vector)) in
      let high =
        upper_slice F time_vector previous_interp (increasing_prefix_size F time_vector) m in
      let around : (m ≤ high) ⊎ (n ≡ high + 1) =
        elim (Bool-cases (m == increasing_prefix_size F time_vector)) [
          | inl all_below ↦ inr (ground (arith, whole))
          | inr found ↦ inl (ground (arith, v.inside))
        ] in
      let picked =
        choose-Previous laws time_vector t n m increasing v eps antisym high
          (ground (arith, whole, v.inside)) around (ground (arith, whole, v.inside))
          (λ h. ground (arith, whole, v.inside)) in
      (
        record {
          index = choose F time_vector t previous_interp (high - 1) high;
          slice_inf = high - 1;
          slice_sup = high;
        },
        ground arith,
        ground (arith, v.inside),
        picked.0,
        picked.1,
      )
