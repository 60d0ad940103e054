-- ===== src/Tests/Plugins.antt =====
-- The registry of plugins, run.
use imas_core.Prelude.{List, [], ◌∷◌, Option, none, some, true, false, Text, codes, ◌≡◌, refl}
use imas_core.Lowlevel.Outcome.{Outcome}
use imas_core.Lowlevel.Plugins.{
  Library, Registry, new_registry, is_plugin_registered, is_plugin_bound, unregister_plugin,
}
use imas_core.Lowlevel.Plugins.Invariant.{RegistryInv}
use imas_core.Lowlevel.Plugins.Unregister.{Unregistered, unregister_plugin-Unregistered}
use imas_core.Lowlevel.Plugins.Calls.{PluginCall, perform_all, perform_all-new_registry}
use imas_core.Lowlevel.Plugins.Resolve.{get_bound_plugins}

abbrev library : Library
library = record {
  exists = true;
  handler = some 7;
  has_create = true;
  created = some 70;
  destroy = some 700;
}

-- Two plugins; the second is bound to all nodes of `equilibrium`.
abbrev calls : List PluginCall
calls =
    PluginCall.register true true library (codes "a")
    ∷ PluginCall.register true true (record library { created = some 71 }) (codes "b")
    ∷ PluginCall.bind true (codes "wall:0/name") (codes "a")
    ∷ PluginCall.bind true (codes "equilibrium:0/*") (codes "b")
    ∷ PluginCall.bind true (codes "equilibrium:0/*") (codes "a")
    ∷ PluginCall.unbind (codes "wall:0/name") (codes "a")
    ∷ []

perform_all-new_registry_example : RegistryInv (perform_all calls new_registry)
perform_all-new_registry_example = perform_all-new_registry calls

unregister_plugin-Unregistered_example :
    ((unregister_plugin true (codes "b") (perform_all calls new_registry)).0 ≡ Outcome.returns tt)
    × Unregistered
        (codes "b")
        (perform_all calls new_registry)
        (unregister_plugin true (codes "b") (perform_all calls new_registry)).1
unfolding perform_all new_registry is_plugin_registered imas_core.Prelude.lookup
    imas_core.Lowlevel.Plugins.unbind_plugin imas_core.Lowlevel.Plugins.bind_full_path
    imas_core.Lowlevel.Plugins.register_plugin imas_core.Prelude.assign imas_core.Prelude.text_eq
    imas_core.Lowlevel.Plugins.bind_plugin imas_core.Lowlevel.Plugins.is_in
unregister_plugin-Unregistered_example =
    unregister_plugin-Unregistered (codes "b") (perform_all calls new_registry)
      (perform_all-new_registry calls) refl

resolve_test :
    (get_bound_plugins true
      (codes "time")
      (codes "equilibrium:0")
      (codes "equilibrium:0/time")
      (perform_all calls new_registry)).0
    ≡ Outcome.returns (some (codes "b" ∷ codes "a" ∷ []))
unfolding get_bound_plugins imas_core.Prelude.text_eq imas_core.Prelude.lookup perform_all
    imas_core.Lowlevel.Plugins.unbind_plugin imas_core.Lowlevel.Plugins.bind_full_path
    imas_core.Lowlevel.Plugins.register_plugin new_registry imas_core.Prelude.assign
    imas_core.Lowlevel.Plugins.bind_plugin imas_core.Lowlevel.Plugins.is_in
    imas_core.Lowlevel.Plugins.erase_name imas_core.Prelude.erase
    imas_core.Lowlevel.Plugins.Resolve.occurrence_path imas_core.Lowlevel.Plugins.Resolve.bind_each
resolve_test = refl

-- Bound to all occurrences, a plugin is not found: the last byte of the name of the IDS is dropped.
all_occurrences_test :
    let bound =
      perform_all
        (PluginCall.bind true (codes "wall:*/*") (codes "a") ∷ [])
        (perform_all calls new_registry) in
    (get_bound_plugins true (codes "name") (codes "wall:0") (codes "wall:0/name") bound).0
    ≡ Outcome.returns none
unfolding get_bound_plugins imas_core.Prelude.text_eq imas_core.Prelude.lookup perform_all
    imas_core.Lowlevel.Plugins.bind_full_path imas_core.Lowlevel.Plugins.unbind_plugin
    imas_core.Lowlevel.Plugins.register_plugin new_registry imas_core.Prelude.assign
    imas_core.Lowlevel.Plugins.bind_plugin imas_core.Lowlevel.Plugins.is_in
    imas_core.Lowlevel.Plugins.erase_name imas_core.Prelude.erase
    imas_core.Lowlevel.Plugins.Resolve.occurrence_path
    imas_core.Lowlevel.Plugins.Resolve.all_occurrences_path imas_core.Prelude.find
all_occurrences_test = refl

-- A plugin that is bound nowhere stays registered when it is unregistered.
unbound_test :
    let registered =
      perform_all (PluginCall.register true true library (codes "a") ∷ []) new_registry in
    is_plugin_registered (codes "a") (unregister_plugin true (codes "a") registered).1 ≡ true
unfolding is_plugin_registered imas_core.Prelude.lookup unregister_plugin perform_all
    imas_core.Lowlevel.Plugins.register_plugin new_registry imas_core.Prelude.assign
    imas_core.Prelude.text_eq imas_core.Lowlevel.Plugins.destroy_each
    imas_core.Lowlevel.Plugins.paths_of
unbound_test = refl

-- A library without `create` leaves an entry behind that can neither be registered nor destroyed.
half_test :
    let half =
      perform_all
        (PluginCall.register true true (record library { has_create = false }) (codes "a")
          ∷ PluginCall.bind true (codes "wall:0/name") (codes "a")
          ∷ PluginCall.unregister true (codes "a")
          ∷ [])
        new_registry in
    (is_plugin_registered (codes "a") half ≡ true) × (half.destroyed ≡ [])
unfolding is_plugin_registered imas_core.Prelude.lookup perform_all unregister_plugin
    imas_core.Lowlevel.Plugins.bind_full_path imas_core.Lowlevel.Plugins.register_plugin
    new_registry imas_core.Prelude.assign imas_core.Prelude.text_eq
    imas_core.Lowlevel.Plugins.bind_plugin imas_core.Lowlevel.Plugins.destroy_each
    imas_core.Lowlevel.Plugins.paths_of imas_core.Lowlevel.Plugins.is_in
    imas_core.Lowlevel.Plugins.destroy_found
half_test = (refl, refl)
