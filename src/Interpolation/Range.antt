-- ===== src/Interpolation/Range.antt =====
-- getTimeRangeIndices selects the samples of the range, and no other.
use imas_core.Prelude.{
  ℕ, suc, ◌≤◌, ◌<◌, true, false, List, Option, none, some, ◌≡◌, ◌↔◌, arith, ◌==◌, Bool-cases, inl,
  inr,
}
use imas_core.Prelude.Int.{ℤ, sub_ℕ}
use imas_core.Interpolation.{
  Doubles, sample, increasing_prefix_size, lower_bound, upper_bound, get_time_range_indices,
}
use imas_core.Interpolation.Samples.{
  Times, Rising, IsLower, IsUpper, lower_bound-IsLower, upper_bound-IsUpper,
}

module _ (F : Doubles) (laws : Times F) where
  -- Behind the place where lower_bound stops no sample is below `t`.
  not_below :
      (time_vector : List F.D) (t : F.D) (n m k : ℕ)
      → Rising F time_vector n
      → IsLower F time_vector t n m
      → m ≤ k
      → k < n
      → F.lt (sample F time_vector k) t ≡ false
  not_below time_vector t n m k rising v h k_in =
      laws.le_trans t (sample F time_vector m) (sample F time_vector k) (v.at (omega arith))
        (rising m k h k_in)

  -- Behind the place where upper_bound stops every sample is above `t`.
  above :
      (time_vector : List F.D) (t : F.D) (n m k : ℕ)
      → Rising F time_vector n
      → IsUpper F time_vector t n m
      → m ≤ k
      → k < n
      → F.lt t (sample F time_vector k) ≡ true
  above time_vector t n m k rising v h k_in = elim (Bool-cases (F.lt t (sample F time_vector k))) [
    | inl e ↦ e
    | inr e ↦ cc (
      laws.le_trans (sample F time_vector m) (sample F time_vector k) t (rising m k h k_in) e,
      v.at (omega arith),
    )
  ]

  abbrev pub InRange : F.D → F.D → F.D → Type 0
  InRange tmin tmax time = (F.lt time tmin ≡ false) × (F.lt tmax time ≡ false)

  -- What the answer says of the first `n` samples.
  abbrev pub Selects : List F.D → F.D → F.D → ℕ → Option ℕ × Option ℕ × Option ℤ → Type 0
  Selects time_vector tmin tmax n (none, max_index, range) =
      (k : ℕ) → k < n → F.lt (sample F time_vector k) tmin ≡ true
  Selects time_vector tmin tmax n (some min_index, none, range) =
      (k : ℕ) → k < n → F.lt tmax (sample F time_vector k) ≡ true
  Selects time_vector tmin tmax n (some min_index, some max_index, range) =
      (range ≡ some (sub_ℕ (suc max_index) min_index))
      × ((k : ℕ)
          → k < n
          → InRange tmin tmax (sample F time_vector k) ↔ ((min_index ≤ k) × (k ≤ max_index)))

  -- For such times, where the valid samples do not fall, getTimeRangeIndices without a resampling
  -- step: the valid samples from tmin to tmax are those between the two indices, whose number is the
  -- range; without a first index all samples are below tmin, without a last one all are above tmax.
  pub get_time_range_indices-Selects :
      (tmin tmax : F.D) (time_vector : List F.D)
      → Rising F time_vector (increasing_prefix_size F time_vector)
      → Selects time_vector tmin tmax
          (increasing_prefix_size F time_vector)
          (get_time_range_indices F tmin tmax time_vector)
  unfolding get_time_range_indices
  get_time_range_indices-Selects tmin tmax time_vector rising =
      let n = increasing_prefix_size F time_vector in
      let lower = lower_bound-IsLower F time_vector tmin n in
      let upper = upper_bound-IsUpper F time_vector tmax n in
      let first = lower_bound F time_vector tmin n in
      let behind = upper_bound F time_vector tmax n in
      elim (Bool-cases (first == n)) [
        | inl none_left ↦ rw none_left (λ k h. lower.before k (ground arith))
        | inr found ↦ rw found (elim (Bool-cases (behind == 0)) [
          | inl all_above ↦
              rw all_above (λ k h. above time_vector tmax n behind k rising upper (ground arith) h)
          | inr some_in ↦ rw some_in (
            ground arith,
            λ k h. (
              λ r. (
                ground (arith, r.0, lower.before k),
                ground (arith, r.1, h, above time_vector tmax n behind k rising upper),
              ),
              λ b. (
                not_below time_vector tmin n first k rising lower b.0 h,
                upper.before k (ground (arith, b.1)),
              ),
            ),
          )
        ])
      ]
