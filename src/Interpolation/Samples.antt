-- ===== src/Interpolation/Samples.antt =====
-- The order of times, and where the searches of a time vector stop.
use imas_core.Prelude.{
  ℕ, zero, suc, ◌≤◌, ◌<◌, true, false, List, ltb, ◌==◌, ◌≡◌, arith, subst, Bool-cases, inl, inr,
}
use imas_core.Interpolation.{Doubles, sample, lower_bound, upper_bound}

-- Times are totally ordered, and the distance grows with the gap on either side: what IEEE 754 gives for
-- `<` and `fabs(a - b)` on finite numbers, since subtraction rounds monotonically.
pub record Times (F : Doubles) : Type 0 where
  pub lt_trans : (a b c : F.D) → F.lt a b ≡ true → F.lt b c ≡ true → F.lt a c ≡ true
  pub lt_asym : (a b : F.D) → F.lt a b ≡ true → F.lt b a ≡ false
  pub le_trans : (a b c : F.D) → F.lt b a ≡ false → F.lt c b ≡ false → F.lt c a ≡ false
  pub dist_below :
      (t a b : F.D) → F.lt b a ≡ false → F.lt t b ≡ false → F.lt (F.dist t a) (F.dist t b) ≡ false
  pub dist_above :
      (t a b : F.D) → F.lt a t ≡ false → F.lt b a ≡ false → F.lt (F.dist t b) (F.dist t a) ≡ false

-- A position below `suc n` is `n` or one below it.
last_or : (i n : ℕ) (P : ℕ → Type 0) → i < suc n → P n → (i < n → P i) → P i
last_or i n P h last earlier = elim (Bool-cases (i == n)) [
  | inl same ↦ subst P {x = n} {y = i} (ground arith) last
  | inr other ↦ earlier (ground arith)
]

module _ (F : Doubles) where
  -- The first `n` samples do not fall.
  abbrev pub Rising : List F.D → ℕ → Type 0
  Rising time_vector n =
      (i j : ℕ) → i ≤ j → j < n → F.lt (sample F time_vector j) (sample F time_vector i) ≡ false

  -- Where lower_bound stops: everything before is below `t`, and the sample there is not.
  pub record IsLower (time_vector : List F.D) (t : F.D) (n m : ℕ) : Type 0 where
    pub inside : m ≤ n
    pub before : (i : ℕ) → i < m → F.lt (sample F time_vector i) t ≡ true
    pub at : m < n → F.lt (sample F time_vector m) t ≡ false

  pub lower_bound-IsLower :
      (time_vector : List F.D) (t : F.D) (n : ℕ)
      → IsLower time_vector t n (lower_bound F time_vector t n)
  unfolding lower_bound
  lower_bound-IsLower time_vector t zero = record {
    inside = omega arith;
    before = λ i h. absurd (omega arith);
    at = λ h. absurd (omega arith);
  }
  lower_bound-IsLower time_vector t (suc n) =
      let v = lower_bound-IsLower time_vector t n in
      elim (Bool-cases (ltb (lower_bound F time_vector t n) n)) [
        | inl early ↦ rw early (record {
          inside = ground (arith, v.inside);
          before = v.before;
          at = λ h. v.at (ground arith);
        })
        | inr late ↦ rw late (elim (Bool-cases (F.lt (sample F time_vector n) t)) [
          | inl below ↦ rw below (record {
            inside = omega arith;
            before = λ i h.
                last_or i n (λ k. F.lt (sample F time_vector k) t ≡ true) (omega arith) below
                  (λ k. v.before i (ground (arith, v.inside)));
            at = λ h. absurd (omega arith);
          })
          | inr not_below ↦ rw not_below (record {
            inside = omega arith;
            before = λ i h. v.before i (ground (arith, v.inside));
            at = λ h. not_below;
          })
        ])
      ]

  -- Where upper_bound stops: nothing before is above `t`, and the sample there is.
  pub record IsUpper (time_vector : List F.D) (t : F.D) (n m : ℕ) : Type 0 where
    pub inside : m ≤ n
    pub before : (i : ℕ) → i < m → F.lt t (sample F time_vector i) ≡ false
    pub at : m < n → F.lt t (sample F time_vector m) ≡ true

  pub upper_bound-IsUpper :
      (time_vector : List F.D) (t : F.D) (n : ℕ)
      → IsUpper time_vector t n (upper_bound F time_vector t n)
  unfolding upper_bound
  upper_bound-IsUpper time_vector t zero = record {
    inside = omega arith;
    before = λ i h. absurd (omega arith);
    at = λ h. absurd (omega arith);
  }
  upper_bound-IsUpper time_vector t (suc n) =
      let v = upper_bound-IsUpper time_vector t n in
      elim (Bool-cases (ltb (upper_bound F time_vector t n) n)) [
        | inl early ↦ rw early (record {
          inside = ground (arith, v.inside);
          before = v.before;
          at = λ h. v.at (ground arith);
        })
        | inr late ↦ rw late (elim (Bool-cases (F.lt t (sample F time_vector n))) [
          | inl above ↦ rw above (record {
            inside = omega arith;
            before = λ i h. v.before i (ground (arith, v.inside));
            at = λ h. above;
          })
          | inr not_above ↦ rw not_above (record {
            inside = omega arith;
            before = λ i h.
                last_or i n (λ k. F.lt t (sample F time_vector k) ≡ false) (omega arith) not_above
                  (λ k. v.before i (ground (arith, v.inside)));
            at = λ h. absurd (omega arith);
          })
        ])
      ]
