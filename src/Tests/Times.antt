-- ===== src/Tests/Times.antt =====
-- The sample lookups on times that are numbers.
use imas_core.Prelude.{
  ℕ, zero, suc, subst, Bool-cases, inl, inr, ◌+◌, ◌-◌, ◌≤◌, ◌<◌, true, false, List, [], ◌∷◌, ok,
  ◌≡◌, ◌⊎◌, refl, arith, ltb, ◌==◌, length, get_or,
}
use imas_core.Interpolation.{
  Doubles, Slices, increasing_prefix_size, get_slices_times_indices, get_time_range_indices,
  previous_interp, sample, lower_bound,
}
use imas_core.Interpolation.Samples.{Times, Rising}
use imas_core.Interpolation.Closest.{get_slices_times_indices-Nearest}
use imas_core.Interpolation.Previous.{get_slices_times_indices-Previous, Increasing}
use imas_core.Interpolation.Range.{get_time_range_indices-Selects, Selects}

-- Times in units of the tolerance.
abbrev ticks : Doubles
ticks = record {
  D = ℕ;
  lt = ltb;
  same = λ a b. a == b;
  dist = λ a b. (a - b) + (b - a);
  epsilon = 1;
  invalid_time = 999;
}

ticks-Times : Times ticks
ticks-Times = record {
  lt_trans = λ a b c h k. ground arith;
  lt_asym = λ a b h. ground arith;
  le_trans = λ a b c h k. ground arith;
  dist_below = λ t a b h k. ground arith;
  dist_above = λ t a b h k. ground arith;
}

abbrev times : List ℕ
times = 10 ∷ 20 ∷ 30 ∷ []

times_whole : increasing_prefix_size ticks times ≡ length times
unfolding increasing_prefix_size
times_whole = refl

times-Increasing : Increasing ticks times 3
times-Increasing zero zero h k = absurd (omega arith)
times-Increasing zero (suc zero) h k = refl
times-Increasing zero (suc (suc zero)) h k = refl
times-Increasing (suc zero) zero h k = absurd (omega arith)
times-Increasing (suc zero) (suc zero) h k = absurd (omega arith)
times-Increasing (suc zero) (suc (suc zero)) h k = refl
times-Increasing (suc (suc i)) j h k = absurd (omega arith)
times-Increasing i (suc (suc (suc j))) h k = absurd (omega arith)

times-Rising : (n : ℕ) → n ≤ 3 → Rising ticks times n
times-Rising n b i j h k = elim (Bool-cases (i == j)) [
  | inl same ↦
      subst (λ a. ltb (get_or times j 999) (get_or times a 999) ≡ false) {x = j} {y = i}
        (ground arith) (ground arith)
  | inr other ↦ ground (arith, times-Increasing i j (ground arith) (omega arith))
]

get_slices_times_indices-Nearest_example :
    (s : Slices) × (get_slices_times_indices ticks 16 times 1 ≡ ok s)
    × (s.index < 3)
    × ((i : ℕ)
        → i < 3
        → ltb
            ((16 - sample ticks times i) + (sample ticks times i - 16))
            ((16 - sample ticks times s.index) + (sample ticks times s.index - 16))
          ≡ false)
get_slices_times_indices-Nearest_example =
    get_slices_times_indices-Nearest ticks ticks-Times 16 times 1 (omega arith) (omega arith)
      times_whole (times-Rising 3 (omega arith))

get_slices_times_indices-Previous_example :
    (s : Slices) × (get_slices_times_indices ticks 16 times previous_interp ≡ ok s)
    × (s.index < 3)
    × ((i : ℕ) → i < 3 → ltb 16 (sample ticks times i) ≡ false → i ≤ s.index)
    × ((s.index ≡ 0)
        ⊎ (ltb (sample ticks times s.index) 16 ≡ true)
        ⊎ (ltb ((16 - sample ticks times s.index) + (sample ticks times s.index - 16)) 1 ≡ true))
get_slices_times_indices-Previous_example =
    get_slices_times_indices-Previous ticks ticks-Times 16 times (omega arith) times_whole
      times-Increasing refl (λ a b h k. ground arith)

prefix_bound : increasing_prefix_size ticks times ≤ 3
unfolding increasing_prefix_size
prefix_bound = omega arith

get_time_range_indices-Selects_example :
    Selects ticks ticks-Times times 15 35
      (increasing_prefix_size ticks times)
      (get_time_range_indices ticks 15 35 times)
get_time_range_indices-Selects_example =
    get_time_range_indices-Selects ticks ticks-Times 15 35 times
      (times-Rising (increasing_prefix_size ticks times) prefix_bound)

-- 16 lies between the samples 10 and 20: the closest is 20, the previous one is 10.
closest_test :
    get_slices_times_indices ticks 16 times 1
    ≡ ok (record { index = 1; slice_inf = 0; slice_sup = 1 })
unfolding get_slices_times_indices lower_bound increasing_prefix_size
closest_test = refl

previous_test :
    get_slices_times_indices ticks 16 times 2
    ≡ ok (record { index = 0; slice_inf = 0; slice_sup = 1 })
unfolding get_slices_times_indices lower_bound increasing_prefix_size
previous_test = refl

-- Two slots left invalid at the end: a request behind the last sample is given an invalid slot.
abbrev holed : List ℕ
holed = 10 ∷ 999 ∷ 999 ∷ []

holed_test :
    get_slices_times_indices ticks 40 holed 1
    ≡ ok (record { index = 2; slice_inf = 1; slice_sup = 2 })
unfolding get_slices_times_indices lower_bound increasing_prefix_size
holed_test = refl
