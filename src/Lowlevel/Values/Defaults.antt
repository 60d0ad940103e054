-- ===== src/Lowlevel/Values/Defaults.antt =====
-- A value that stands for no data is written by nobody: what a read of no data gives, data_has_non_zero_shape
-- tells from data.
use imas_core.Prelude.{List, [], ◌∷◌, Option, some}
use imas_core.Lowlevel.Outcome.{Outcome}
use imas_core.Lowlevel.Values.{Numbers, Element, Variable}

-- The pointer that a client passes for its variable.
abbrev pub data_of : {N : Numbers} → Variable N → Option (List (Element N))
data_of (Variable.scalar element) = some (element ∷ [])
data_of (Variable.buffer data_) = data_
