-- ===== src/Panzer/Loader/Resume.antt =====
-- A reload that adds the rows appended since the handoff gives what a full decode gives.
use imas_core.Prelude.{ℕ, Dict}
use imas_core.Panzer.Types.{Index}

abbrev with_times : Dict ℕ → Index → Index
with_times table index = record index { max_time_at_dynamic_root = table }
