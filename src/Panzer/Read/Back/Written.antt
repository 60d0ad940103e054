-- ===== src/Panzer/Read/Back/Written.antt =====
-- What writeDataSlicesImpl writes, readDataByIndex reads, once the file is decoded again.
use imas_core.Prelude.{ℕ, ◌<◌, Text, ◌≡◌}
use imas_core.Panzer.Types.{Index}
use imas_core.Panzer.Lookup.{leaf_at}
use imas_core.Panzer.Query.Counters.{IsSignal}

-- The row is a signal of the path with elements.
abbrev pub HoldsSignal : Index → Text → ℕ → Type 0
HoldsSignal index path r =
    IsSignal (leaf_at index.cached_leaves r)
    × (0 < (leaf_at index.cached_leaves r).count)
    × ((leaf_at index.cached_leaves r).path ≡ path)
