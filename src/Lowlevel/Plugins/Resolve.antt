-- ===== src/Lowlevel/Plugins/Resolve.antt =====
-- LLplugin::getBoundPlugins: the plugins of a node, which are bound to its own path when they are found
-- under one of the paths that stand for all nodes.
pub mod Answer
use imas_core.Prelude.{
  ℕ, zero, suc, Bool, not, List, [], ◌∷◌, ◌++◌, Option, none, some, Text, codes, lookup, text_eq,
  find, take, if◌then◌else◌,
}
use imas_core.Lowlevel.Outcome.{Outcome}
use imas_core.Lowlevel.Plugins.{Registry, bind_plugin}

abbrev go_on :
    (Registry → Outcome (Unit {0}) × Registry)
    → Outcome (Unit {0}) × Registry
    → Outcome (Unit {0}) × Registry
go_on next (Outcome.returns u, after) = next after
go_on next (Outcome.throws e, after) = (Outcome.throws e, after)
go_on next (Outcome.crashes, after) = (Outcome.crashes, after)

-- The loop over the names that binds them to the path.
unfoldable pub bind_each : List Text → Text → Registry → Outcome (Unit {0}) × Registry
bind_each [] path r = (Outcome.returns tt, r)
bind_each (name ∷ names) path r = go_on (bind_each names path) (bind_plugin name path r)

-- `dataObjectName.substr(0, index - 1)`: with the position 0 or npos it is the whole text.
abbrev pub before_colon : Text → Option ℕ → Text
before_colon object none = object
before_colon object (some zero) = object
before_colon object (some (suc i)) = take i object

-- The paths for all nodes of an occurrence, and of all occurrences.
unfoldable pub occurrence_path : Text → Text
occurrence_path object = object ++ codes "/*"

unfoldable pub all_occurrences_path : Text → Text
all_occurrences_path object = before_colon object (find 58 object) ++ codes ":*/*"

abbrev pub answer_bound :
    List Text → Outcome (Unit {0}) × Registry → Outcome (Option (List Text)) × Registry
answer_bound names (Outcome.returns u, after) = (Outcome.returns (some names), after)
answer_bound names (Outcome.throws e, after) = (Outcome.throws e, after)
answer_bound names (Outcome.crashes, after) = (Outcome.crashes, after)

abbrev pub search_all :
    Text → Option (List Text) → Registry → Outcome (Option (List Text)) × Registry
search_all path none r = (Outcome.returns none, r)
search_all path (some names) r = answer_bound names (bind_each names path r)

abbrev pub search_occurrence :
    Text → Text → Option (List Text) → Registry → Outcome (Option (List Text)) × Registry
search_occurrence object path none r =
    search_all path (lookup (all_occurrences_path object) r.bound_plugins) r
search_occurrence object path (some names) r = answer_bound names (bind_each names path r)

abbrev pub search_path :
    Text → Text → Option (List Text) → Registry → Outcome (Option (List Text)) × Registry
search_path object path none r =
    search_occurrence object path (lookup (occurrence_path object) r.bound_plugins) r
search_path object path (some names) r = (Outcome.returns (some names), r)

-- LLplugin::getBoundPlugins(ctxID, fieldPath, pluginsNames), for the full path and the name of the data
-- object that getFullPath gives; `none` is the answer false.
unfoldable pub get_bound_plugins :
    Bool → Text → Text → Text → Registry → Outcome (Option (List Text)) × Registry
get_bound_plugins enabled field object path r =
    if not enabled
    then (Outcome.returns none, r)
    else if text_eq field (codes "<buffer>")
    then (Outcome.returns none, r)
    else search_path object path (lookup path r.bound_plugins) r
