-- ===== src/Lowlevel/Plugins/Calls.antt =====
-- Sequences of calls on the registry of plugins.
use imas_core.Prelude.{
  Bool, true, false, List, [], ◌∷◌, Text, text_eq, ◌≡◌, refl, ◌∙◌, ap, arith, lookup, Distinct,
  Bool-cases, inl, inr,
}
use imas_core.Lowlevel.Outcome.{Outcome}
use imas_core.Lowlevel.Plugins.{
  Library, Registry, new_registry, holds, is_set, is_plugin_registered, paths_of, destroy_each,
  release_each, register_plugin, bind_full_path, unbind_plugin, unregister_plugin,
}
use imas_core.Lowlevel.Plugins.Release.{release_each-BoundInv, release_each-holds}
use imas_core.Lowlevel.Plugins.Destroy.{lookup-destroy_found, destroy_found-Distinct}
use imas_core.Lowlevel.Plugins.Invariant.{
  RegistryInv, new_registry-RegistryInv, register_plugin-RegistryInv, bind_full_path-RegistryInv,
  unbind_plugin-RegistryInv,
}
use imas_core.Lowlevel.Plugins.Resolve.{get_bound_plugins}
use imas_core.Lowlevel.Plugins.Resolve.Answer.{get_bound_plugins-RegistryInv}

-- al_register_plugin, al_bind_plugin, al_unbind_plugin, al_unregister_plugin, and the search for the
-- plugins of a node by the calls that read, write or begin an array, with what the environment says.
pub data PluginCall : Type 0 where
  register : Bool → Bool → Library → Text → PluginCall
  bind : Bool → Text → Text → PluginCall
  unbind : Text → Text → PluginCall
  unregister : Bool → Text → PluginCall
  resolve : Bool → Text → Text → Text → PluginCall

abbrev without_value {ℓ} : {A : Type ℓ} → Outcome A → Outcome (Unit {0})
without_value (Outcome.returns a) = Outcome.returns tt
without_value (Outcome.throws e) = Outcome.throws e
without_value Outcome.crashes = Outcome.crashes

unfoldable pub perform : PluginCall → Registry → Outcome (Unit {0}) × Registry
perform (register enabled directory library name) r =
    register_plugin enabled directory library name r
perform (bind enabled path name) r = bind_full_path enabled path name r
perform (unbind path name) r = (Outcome.returns tt, unbind_plugin path name r)
perform (unregister enabled name) r = unregister_plugin enabled name r
perform (resolve enabled field object path) r =
    let (answer, after) = get_bound_plugins enabled field object path r in
    (without_value answer, after)

-- The registry behind the calls; an exception is caught by the entry points.
unfoldable pub perform_all : List PluginCall → Registry → Registry
unfolding perform
perform_all [] r = r
perform_all (call ∷ calls) r = perform_all calls (perform call r).1

destroy_each-Distinct :
    (name : Text) (paths : List Text) (r : Registry)
    → Distinct r.llplugins_store
    → Distinct (destroy_each name paths r).llplugins_store
unfolding destroy_each
destroy_each-Distinct name [] r d = d
destroy_each-Distinct name (p ∷ paths) r d =
    destroy_each-Distinct name paths _ (destroy_found-Distinct name r d)

destroy_each-other :
    (name other : Text) (paths : List Text) (r : Registry)
    → Distinct r.llplugins_store
    → text_eq name other ≡ false
    → lookup other (destroy_each name paths r).llplugins_store ≡ lookup other r.llplugins_store
unfolding destroy_each
destroy_each-other name other [] r d e = refl
destroy_each-other name other (p ∷ paths) r d e =
    destroy_each-other name other paths _ (destroy_found-Distinct name r d) e
    ∙ lookup-destroy_found name other r d
    ∙ rw e refl

still_registered :
    (name other path : Text) (r : Registry)
    → RegistryInv r
    → holds other (lookup path (release_each name (paths_of name r.bound_plugins) r.bound_plugins))
      ≡ true
    → (text_eq name other ≡ false) × (is_plugin_registered other r ≡ true)
still_registered name other path r inv h = ground (
  arith,
  h,
  release_each-holds name other path r.bound_plugins inv.bound,
  inv.registered path other,
)

unregister_plugin-RegistryInv :
    (enabled : Bool) (name : Text) (r : Registry)
    → RegistryInv r
    → RegistryInv (unregister_plugin enabled name r).1
unfolding unregister_plugin is_plugin_registered
unregister_plugin-RegistryInv false name r inv = inv
unregister_plugin-RegistryInv true name r inv = elim (Bool-cases (is_plugin_registered name r)) [
  | inl e ↦
      let paths : List Text = paths_of name r.bound_plugins in
      rw e (record {
        stored = destroy_each-Distinct name paths r inv.stored;
        bound = release_each-BoundInv name paths r.bound_plugins inv.bound;
        registered = λ path other h.
            let before = still_registered name other path r inv h in
            ap is_set (destroy_each-other name other paths r inv.stored before.0) ∙ before.1;
      })
  | inr e ↦ rw e inv
]

perform-RegistryInv :
    (call : PluginCall) (r : Registry) → RegistryInv r → RegistryInv (perform call r).1
unfolding perform
perform-RegistryInv (register enabled directory library name) r inv =
    register_plugin-RegistryInv enabled directory library name r inv
perform-RegistryInv (bind enabled path name) r inv =
    bind_full_path-RegistryInv enabled path name r inv
perform-RegistryInv (unbind path name) r inv = unbind_plugin-RegistryInv path name r inv
perform-RegistryInv (unregister enabled name) r inv =
    unregister_plugin-RegistryInv enabled name r inv
perform-RegistryInv (resolve enabled field object path) r inv =
    get_bound_plugins-RegistryInv enabled field object path r inv

perform_all-RegistryInv :
    (calls : List PluginCall) (r : Registry) → RegistryInv r → RegistryInv (perform_all calls r)
unfolding perform_all
perform_all-RegistryInv [] r inv = inv
perform_all-RegistryInv (call ∷ calls) r inv =
    perform_all-RegistryInv calls (perform call r).1 (perform-RegistryInv call r inv)

-- Whatever calls register, bind, unbind and unregister plugins or search for those of a node,
-- returning or throwing, from an empty registry: no plugin and no path has two entries, a path
-- with an entry has at least one plugin and none twice, and a plugin that is bound to a path is
-- registered.
pub perform_all-new_registry :
    (calls : List PluginCall) → RegistryInv (perform_all calls new_registry)
perform_all-new_registry calls = perform_all-RegistryInv calls new_registry new_registry-RegistryInv
