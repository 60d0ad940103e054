-- ===== src/Lowlevel/Plugins/Unregister.antt =====
-- What LLplugin::unregisterPlugin leaves of the registry.
use imas_core.Prelude.{
  true, false, List, [], ◌∷◌, ◌++◌, Text, Dict, lookup, text_eq, text_eq_self, if◌then◌else◌, ◌≡◌,
  refl, sym, ◌∙◌, ap, inl, inr, ◌⊎◌,
}
use imas_core.Lowlevel.Outcome.{Outcome}
use imas_core.Lowlevel.Plugins.{
  Registry, is_in, holds, is_plugin_registered, is_plugin_bound, paths_of, release_each,
  destroyed_of, destroy_each, unregister_plugin,
}
use imas_core.Lowlevel.Plugins.Release.{release_each-holds, is_in-paths_of}
use imas_core.Lowlevel.Plugins.Destroy.{
  kept, lookup-destroy_found, destroyed_found, destroy_each-once,
}
use imas_core.Lowlevel.Plugins.Invariant.{RegistryInv}

-- The plugin was bound to a path, and is destroyed if that can be done.
pub record Destroyed (name : Text) (r after : Registry) : Type 0 where
  pub path : Text
  pub was_bound : holds name (lookup path r.bound_plugins) ≡ true
  pub entries :
      (other : Text)
      → lookup other after.llplugins_store ≡ (
          if text_eq name other
          then kept (lookup other r.llplugins_store)
          else lookup other r.llplugins_store)
  pub destroyed_instances :
      after.destroyed ≡ r.destroyed ++ destroyed_of (lookup name r.llplugins_store)

-- The plugin was bound to no path, and stays as it is.
pub record Stays (name : Text) (r after : Registry) : Type 0 where
  pub was_free : (path : Text) → holds name (lookup path r.bound_plugins) ≡ false
  pub entries : after.llplugins_store ≡ r.llplugins_store
  pub destroyed_instances : after.destroyed ≡ r.destroyed

pub record Unregistered (name : Text) (r after : Registry) : Type 0 where
  pub bindings :
      (path other : Text)
      → is_plugin_bound true path other after
        ≡ (if text_eq name other then false else is_plugin_bound true path other r)
  pub store : Destroyed name r after ⊎ Stays name r after

store_after :
    (name : Text) (r : Registry) (m : Dict (List Text)) (paths : List Text)
    → RegistryInv r
    → paths ≡ paths_of name r.bound_plugins
    → Destroyed name r (record (destroy_each name paths r) { bound_plugins = m })
      ⊎ Stays name r (record (destroy_each name paths r) { bound_plugins = m })
unfolding destroy_each is_in
store_after name r m [] inv e = inr (record {
  was_free = λ path.
      sym (is_in-paths_of name path r.bound_plugins inv.bound.distinct) ∙ sym (ap (is_in path) e);
  entries = refl;
  destroyed_instances = refl;
})
store_after name r m (p ∷ paths) inv e = inl (record {
  path = p;
  was_bound =
      sym (is_in-paths_of name p r.bound_plugins inv.bound.distinct)
      ∙ sym (ap (is_in p) e)
      ∙ rw (text_eq_self p) refl;
  entries = λ other.
      rw (destroy_each-once name p paths r inv.stored)
        (lookup-destroy_found name other r inv.stored);
  destroyed_instances = rw (destroy_each-once name p paths r inv.stored) (destroyed_found name r);
})

-- On a registry with the invariant of perform_all-new_registry, where the framework is enabled and
-- the plugin registered, unregisterPlugin returns, and then isPluginBound answers false for the
-- plugin at every path and as before for every other plugin; a plugin that was bound to a path has
-- its entry erased and its instance destroyed once, if the entry has both an instance and a
-- function to destroy it, and keeps its entry if not; a plugin that was bound to no path keeps its
-- entry; no other entry changes.
pub unregister_plugin-Unregistered :
    (name : Text) (r : Registry)
    → RegistryInv r
    → is_plugin_registered name r ≡ true
    → ((unregister_plugin true name r).0 ≡ Outcome.returns tt)
      × Unregistered name r (unregister_plugin true name r).1
unfolding unregister_plugin is_plugin_bound
unregister_plugin-Unregistered name r inv h = rw h (
  refl,
  record {
    bindings = λ path other. release_each-holds name other path r.bound_plugins inv.bound;
    store =
        store_after name r (release_each name (paths_of name r.bound_plugins) r.bound_plugins)
          (paths_of name r.bound_plugins) inv refl;
  },
)
