-- ===== src/Lowlevel/Plugins.antt =====
-- The registry of plugins of class LLplugin of src/al_lowlevel.cpp: the plugins that are registered and
-- the paths of nodes that they are bound to.
pub mod Bound
pub mod Invariant
pub mod Release
pub mod Destroy
pub mod Unregister
pub mod Calls
pub mod Resolve
use imas_core.Prelude.{
  ℕ, Bool, true, false, not, ◌&&◌, List, [], ◌∷◌, ◌++◌, Option, none, some, Text, Dict, lookup,
  assign, erase, text_eq, is_empty, if◌then◌else◌, Exception,
}
use imas_core.Lowlevel.Outcome.{Outcome}

-- An entry of llpluginsStore; a pointer that is NULL is `none`.
pub record LLplugin : Type 0 where
  pub plugin_handler : Option ℕ
  pub al_plugin : Option ℕ
  pub destroy_plugin : Option ℕ

-- The static members of LLplugin, and the plugins that were destroyed.
pub record Registry : Type 0 where
  pub llplugins_store : Dict LLplugin
  pub bound_plugins : Dict (List Text)
  pub destroyed : List ℕ

unfoldable pub new_registry : Registry
new_registry = record { llplugins_store = []; bound_plugins = []; destroyed = [] }

-- What the dynamic linker finds for a plugin: whether its file exists, the handle of dlopen, the symbols
-- `create` and `destroy`, and what a call of `create` gives.
pub record Library : Type 0 where
  pub exists : Bool
  pub handler : Option ℕ
  pub has_create : Bool
  pub created : Option ℕ
  pub destroy : Option ℕ

-- `std::find(v.begin(), v.end(), name) != v.end()`.
unfoldable pub is_in : Text → List Text → Bool
is_in name [] = false
is_in name (x ∷ xs) = if text_eq x name then true else is_in name xs

-- `v.erase(std::find(v.begin(), v.end(), name))`, where the name is found.
unfoldable pub erase_name : Text → List Text → List Text
erase_name name [] = []
erase_name name (x ∷ xs) = if text_eq x name then xs else x ∷ erase_name name xs

abbrev empty_plugin : LLplugin
empty_plugin = record { plugin_handler = none; al_plugin = none; destroy_plugin = none }

abbrev pub is_set {ℓ} : {A : Type ℓ} → Option A → Bool
is_set none = false
is_set (some a) = true

-- LLplugin::isPluginRegistered, once the framework is known to be enabled.
unfoldable pub is_plugin_registered : Text → Registry → Bool
is_plugin_registered name r = is_set (lookup name r.llplugins_store)

abbrev pub store_plugin : Text → LLplugin → Registry → Registry
store_plugin name plugin r = record r { llplugins_store = assign name plugin r.llplugins_store }

-- From the loading of the symbols on: what is stored stays when a later step throws.
abbrev pub add_symbols :
    Text → ℕ → Bool → Option ℕ → Option ℕ → Registry → Outcome (Unit {0}) × Registry
add_symbols name handler false destroy created r = (
  Outcome.throws Exception.al_lowlevel,
  store_plugin name (record empty_plugin { plugin_handler = some handler }) r,
)
add_symbols name handler true none created r = (
  Outcome.throws Exception.al_lowlevel,
  store_plugin name (record empty_plugin { plugin_handler = some handler }) r,
)
add_symbols name handler true (some d) none r = (
  Outcome.throws Exception.al_backend,
  store_plugin name (record empty_plugin { plugin_handler = some handler }) r,
)
add_symbols name handler true (some d) (some p) r = (
  Outcome.returns tt,
  store_plugin name
      (record { plugin_handler = some handler; al_plugin = some p; destroy_plugin = some d }) r,
)

abbrev pub open_library : Text → Library → Option ℕ → Registry → Outcome (Unit {0}) × Registry
open_library name library none r = (Outcome.crashes, store_plugin name empty_plugin r)
open_library name library (some handler) r =
    add_symbols name handler library.has_create library.destroy library.created r

-- LLplugin::registerPlugin; `enabled` is what IMAS_AL_ENABLE_PLUGINS says, `directory` whether
-- IMAS_AL_PLUGINS is set.
unfoldable pub register_plugin :
    Bool → Bool → Library → Text → Registry → Outcome (Unit {0}) × Registry
unfolding is_plugin_registered
register_plugin enabled directory library name r =
    if not enabled
    then (Outcome.throws Exception.al_lowlevel, r)
    else if not directory
    then (Outcome.throws Exception.al_lowlevel, r)
    else if is_plugin_registered name r
    then (Outcome.throws Exception.al_lowlevel, r)
    else if not library.exists
    then (Outcome.throws Exception.al_lowlevel, r)
    else open_library name library library.handler r

abbrev pub bind_to : Text → Text → Option (List Text) → Registry → Outcome (Unit {0}) × Registry
bind_to name path none r =
    (Outcome.returns tt, record r { bound_plugins = assign path (name ∷ []) r.bound_plugins })
bind_to name path (some plugins) r =
    if is_in name plugins then (Outcome.throws Exception.al_lowlevel, r) else (
      Outcome.returns tt,
      record r { bound_plugins = assign path (plugins ++ (name ∷ [])) r.bound_plugins },
    )

-- LLplugin::bind_plugin.
unfoldable pub bind_plugin : Text → Text → Registry → Outcome (Unit {0}) × Registry
bind_plugin name path r = bind_to name path (lookup path r.bound_plugins) r

-- LLplugin::bindPlugin, for a field path that its patterns have brought to the form `ids:occ/path`.
unfoldable pub bind_full_path : Bool → Text → Text → Registry → Outcome (Unit {0}) × Registry
unfolding is_plugin_registered
bind_full_path enabled path name r =
    if not enabled
    then (Outcome.throws Exception.al_lowlevel, r)
    else if not (is_plugin_registered name r)
    then (Outcome.throws Exception.al_lowlevel, r)
    else bind_plugin name path r

-- A path that is left without plugins is erased.
abbrev pub rebind : Text → List Text → Dict (List Text) → Dict (List Text)
rebind path plugins m = if is_empty plugins then erase path m else assign path plugins m

abbrev pub unbind_from : Text → Text → Option (List Text) → Dict (List Text) → Dict (List Text)
unbind_from path name none m = m
unbind_from path name (some plugins) m =
    if is_in name plugins then rebind path (erase_name name plugins) m else m

-- LLplugin::unbindPlugin.
unfoldable pub unbind_plugin : Text → Text → Registry → Registry
unbind_plugin path name r = record r {
  bound_plugins = unbind_from path name (lookup path r.bound_plugins) r.bound_plugins;
}

abbrev pub holds : Text → Option (List Text) → Bool
holds name none = false
holds name (some plugins) = is_in name plugins

-- LLplugin::isPluginBound.
unfoldable pub is_plugin_bound : Bool → Text → Text → Registry → Bool
is_plugin_bound enabled path name r = enabled && holds name (lookup path r.bound_plugins)

-- The keys under which the first loop of unregisterPlugin finds the plugin.
unfoldable pub paths_of : Text → Dict (List Text) → List Text
paths_of name [] = []
paths_of name ((path, plugins) ∷ m) =
    if is_in name plugins then path ∷ paths_of name m else paths_of name m

abbrev pub destroy_stored : Text → Option LLplugin → Dict LLplugin → Dict LLplugin
destroy_stored name none store = store
destroy_stored name (some plugin) store =
    if is_set plugin.al_plugin && is_set plugin.destroy_plugin then erase name store else store

abbrev pub instance_destroyed : Option ℕ → Option ℕ → List ℕ
instance_destroyed none destroy = []
instance_destroyed (some p) none = []
instance_destroyed (some p) (some d) = p ∷ []

abbrev pub destroyed_of : Option LLplugin → List ℕ
destroyed_of none = []
destroyed_of (some plugin) = instance_destroyed plugin.al_plugin plugin.destroy_plugin

-- The body of that loop, for a path that it finds.
unfoldable pub destroy_found : Text → Registry → Registry
destroy_found name r = record r {
  llplugins_store = destroy_stored name (lookup name r.llplugins_store) r.llplugins_store;
  destroyed = r.destroyed ++ destroyed_of (lookup name r.llplugins_store);
}

unfoldable pub destroy_each : Text → List Text → Registry → Registry
destroy_each name [] r = r
destroy_each name (path ∷ paths) r = destroy_each name paths (destroy_found name r)

abbrev pub release_from : Text → Text → Option (List Text) → Dict (List Text) → Dict (List Text)
release_from name path none m = m
release_from name path (some plugins) m = rebind path (erase_name name plugins) m

-- The body of the second loop.
unfoldable pub release : Text → Text → Dict (List Text) → Dict (List Text)
release name path m = release_from name path (lookup path m) m

unfoldable pub release_each : Text → List Text → Dict (List Text) → Dict (List Text)
release_each name [] m = m
release_each name (path ∷ paths) m = release_each name paths (release name path m)

abbrev unregister_found : Text → List Text → Registry → Registry
unregister_found name paths r = record (destroy_each name paths r) {
  bound_plugins = release_each name paths r.bound_plugins;
}

-- LLplugin::unregisterPlugin.
unfoldable pub unregister_plugin : Bool → Text → Registry → Outcome (Unit {0}) × Registry
unregister_plugin enabled name r =
    if not enabled
    then (Outcome.throws Exception.al_lowlevel, r)
    else if not (is_plugin_registered name r)
    then (Outcome.throws Exception.al_lowlevel, r)
    else (Outcome.returns tt, unregister_found name (paths_of name r.bound_plugins) r)
