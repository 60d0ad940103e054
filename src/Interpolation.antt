-- ===== src/Interpolation.antt =====
-- src/data_interpolation.cpp: which samples of a time vector a request reads. increasing_prefix_size,
-- getSlicesTimesIndices, and getTimeRangeIndices without a resampling step.
-- A double is a parameter: the source only compares times and takes distances. `lt` is `<`, `same` is
-- `==`, `dist a b` is `fabs(a - b)`. Times are finite.
pub mod Samples
pub mod Closest
pub mod Previous
pub mod Range
use imas_core.Prelude.{
  ℕ, zero, suc, ◌+◌, ◌-◌, Bool, true, false, not, ◌&&◌, ◌||◌, List, [], ◌∷◌, Option, none, some,
  Result, ok, throw, Exception, length, get_or, leb, ltb, ◌==◌, if◌then◌else◌,
}
use imas_core.Prelude.Int.{ℤ, sub_ℕ}

pub record Doubles : Type 1 where
  pub D : Type 0
  pub lt : D → D → Bool
  pub same : D → D → Bool
  pub dist : D → D → D
  pub epsilon : D
  pub invalid_time : D

-- The codes of the interpolation modes.
abbrev pub undefined_interp : ℕ
undefined_interp = 0

abbrev pub closest_interp : ℕ
closest_interp = 1

abbrev pub previous_interp : ℕ
previous_interp = 2

abbrev pub linear_interp : ℕ
linear_interp = 3

-- What getSlicesTimesIndices finds: the index that it returns, and SLICE_INF and SLICE_SUP.
pub record Slices : Type 0 where
  pub index : ℕ
  pub slice_inf : ℕ
  pub slice_sup : ℕ

module _ (F : Doubles) where
  -- `time_vector[i]`.
  abbrev pub sample : List F.D → ℕ → F.D
  sample time_vector i = get_or time_vector i F.invalid_time

  -- The loop of increasing_prefix_size, from `n` down.
  unfoldable pub valid_below : List F.D → ℕ → ℕ
  valid_below time_vector zero = zero
  valid_below time_vector (suc n) =
      let less = valid_below time_vector n in
      if F.same (sample time_vector n) F.invalid_time then less else suc n

  unfoldable pub increasing_prefix_size : List F.D → ℕ
  unfolding valid_below
  increasing_prefix_size time_vector =
      let n = valid_below time_vector (length time_vector) in
      if n == 0 then length time_vector else n

  -- `std::lower_bound` over the first `n` samples: the first that is not below `t`, or `n`.
  unfoldable pub lower_bound : List F.D → F.D → ℕ → ℕ
  lower_bound time_vector t zero = zero
  lower_bound time_vector t (suc n) =
      let earlier = lower_bound time_vector t n in
      if ltb earlier n then earlier else if F.lt (sample time_vector n) t then suc n else n

  -- `std::upper_bound`: the first that is above `t`, or `n`.
  unfoldable pub upper_bound : List F.D → F.D → ℕ → ℕ
  upper_bound time_vector t zero = zero
  upper_bound time_vector t (suc n) =
      let earlier = upper_bound time_vector t n in
      if ltb earlier n then earlier else if F.lt t (sample time_vector n) then n else suc n

  -- `slice_sup`, for the first sample that is not below the requested time.
  abbrev pub upper_slice : List F.D → ℕ → ℕ → ℕ → ℕ
  upper_slice time_vector interp nb_valid first =
      if first == nb_valid
      then length time_vector - 1
      else if not (interp == closest_interp) && (first == 0) && ltb 1 (length time_vector)
      then 1
      else first

  -- The index of one mode, out of the two slices around the time.
  unfoldable pub choose : List F.D → F.D → ℕ → ℕ → ℕ → ℕ
  choose time_vector t interp slice_inf slice_sup =
      if (interp == closest_interp) || (interp == undefined_interp)
      then (if F.lt (F.dist t (sample time_vector slice_inf))
            (F.dist t (sample time_vector slice_sup))
          then slice_inf
          else slice_sup)
      else if interp == previous_interp
      then (if ltb 0 slice_sup
            && (F.lt (F.dist t (sample time_vector slice_sup)) F.epsilon
                || F.lt (sample time_vector slice_sup) t)
          then slice_sup
          else slice_inf)
      else slice_inf

  -- getSlicesTimesIndices.
  unfoldable pub get_slices_times_indices : F.D → List F.D → ℕ → Result Slices
  unfolding choose
  get_slices_times_indices t time_vector interp =
      let nb_valid = increasing_prefix_size time_vector in
      let slice_sup =
        upper_slice time_vector interp nb_valid (lower_bound time_vector t nb_valid) in
      if length time_vector == 0
      then throw Exception.al_backend
      else if ltb linear_interp interp
      then throw Exception.al_backend
      else ok (record {
        index = choose time_vector t interp (slice_sup - 1) slice_sup;
        slice_inf = slice_sup - 1;
        slice_sup = slice_sup;
      })

  -- getTimeRangeIndices where `dtime` is empty: the first and the last index, and the number of samples,
  -- each as far as the code gets; `none` stands for -1, and for a range that is not assigned.
  unfoldable pub get_time_range_indices : F.D → F.D → List F.D → Option ℕ × Option ℕ × Option ℤ
  get_time_range_indices tmin tmax time_vector =
      let nb_valid = increasing_prefix_size time_vector in
      let first = lower_bound time_vector tmin nb_valid in
      let behind = upper_bound time_vector tmax nb_valid in
      if first == nb_valid
      then (none, none, none)
      else if behind == 0
      then (some first, none, none)
      else (some first, some (behind - 1), some (sub_ℕ behind first))
