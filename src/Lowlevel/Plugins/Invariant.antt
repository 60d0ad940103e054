-- ===== src/Lowlevel/Plugins/Invariant.antt =====
-- The invariant of the registry of plugins, which its operations keep.
use imas_core.Prelude.{
  ℕ, Bool, true, false, List, [], ◌∷◌, ◌++◌, Option, none, some, Text, Distinct, lookup,
  lookup-assign, assign-Distinct, text_eq, text_eq_iff, ◌≡◌, refl, sym, arith, Bool-cases, inl, inr,
}
use imas_core.Lowlevel.Plugins.{
  LLplugin, Library, Registry, new_registry, is_in, erase_name, rebind, holds, is_set,
  is_plugin_registered, register_plugin, store_plugin, open_library, add_symbols, bind_to,
  bind_plugin, bind_full_path, unbind_from, unbind_plugin,
}
use imas_core.Lowlevel.Plugins.Bound.{
  NoRepeat, is_in-append, append-NoRepeat, is_in-erase_name, erase_name-NoRepeat, Names, BoundInv,
  holds-bound_as, lookup-rebind, rebind-append, rebind-BoundInv,
}

-- Keys are unique, and what is bound to a path is registered.
pub record RegistryInv (r : Registry) : Type 0 where
  pub stored : Distinct r.llplugins_store
  pub bound : BoundInv r.bound_plugins
  pub registered :
      (path name : Text)
      → holds name (lookup path r.bound_plugins) ≡ true
      → is_plugin_registered name r ≡ true

pub new_registry-RegistryInv : RegistryInv new_registry
unfolding new_registry lookup
new_registry-RegistryInv = record {
  stored = tt;
  bound = record { distinct = tt; names = λ path. tt };
  registered = λ path name h. ground (arith, h);
}

store_plugin-RegistryInv :
    (name : Text) (plugin : LLplugin) (r : Registry)
    → RegistryInv r
    → RegistryInv (store_plugin name plugin r)
unfolding is_plugin_registered
store_plugin-RegistryInv name plugin r inv = record {
  stored = assign-Distinct name plugin r.llplugins_store inv.stored;
  bound = inv.bound;
  registered = λ path n h.
      rw (lookup-assign name n plugin r.llplugins_store) (elim (Bool-cases (text_eq name n)) [
        | inl e ↦ rw e refl
        | inr e ↦ rw e (inv.registered path n h)
      ]);
}

add_symbols-RegistryInv :
    (name : Text) (handler : ℕ) (create : Bool) (destroy created : Option ℕ) (r : Registry)
    → RegistryInv r
    → RegistryInv (add_symbols name handler create destroy created r).1
add_symbols-RegistryInv name handler false destroy created r inv =
    store_plugin-RegistryInv name _ r inv
add_symbols-RegistryInv name handler true none created r inv = store_plugin-RegistryInv name _ r inv
add_symbols-RegistryInv name handler true (some d) none r inv =
    store_plugin-RegistryInv name _ r inv
add_symbols-RegistryInv name handler true (some d) (some p) r inv =
    store_plugin-RegistryInv name _ r inv

open_library-RegistryInv :
    (name : Text) (library : Library) (handler : Option ℕ) (r : Registry)
    → RegistryInv r
    → RegistryInv (open_library name library handler r).1
open_library-RegistryInv name library none r inv = store_plugin-RegistryInv name _ r inv
open_library-RegistryInv name library (some handler) r inv =
    add_symbols-RegistryInv name handler library.has_create library.destroy library.created r inv

pub register_plugin-RegistryInv :
    (enabled directory : Bool) (library : Library) (name : Text) (r : Registry)
    → RegistryInv r
    → RegistryInv (register_plugin enabled directory library name r).1
unfolding register_plugin
register_plugin-RegistryInv false directory library name r inv = inv
register_plugin-RegistryInv true false library name r inv = inv
register_plugin-RegistryInv true true library name r inv =
    elim (Bool-cases (is_set (lookup name r.llplugins_store))) [
      | inl e ↦ rw e inv
      | inr e ↦ elim (Bool-cases library.exists) [
        | inl f ↦ rw (e, f) (open_library-RegistryInv name library library.handler r inv)
        | inr f ↦ rw (e, f) inv
      ]
    ]

-- A path of which the plugins change holds only registered ones.
pub rebound-RegistryInv :
    (path : Text) (qs : List Text) (r : Registry)
    → RegistryInv r
    → NoRepeat qs
    → ((n : Text) → is_in n qs ≡ true → is_plugin_registered n r ≡ true)
    → RegistryInv (record r { bound_plugins = rebind path qs r.bound_plugins })
unfolding is_plugin_registered
rebound-RegistryInv path qs r inv d known = record {
  stored = inv.stored;
  bound = rebind-BoundInv path qs r.bound_plugins d inv.bound;
  registered = λ j n.
      rw (lookup-rebind path j qs r.bound_plugins inv.bound.distinct)
        (elim (Bool-cases (text_eq path j)) [
          | inl e ↦ rw (e, holds-bound_as n qs) (known n)
          | inr e ↦ rw e (inv.registered j n)
        ]);
}

bind_to-RegistryInv :
    (path name : Text) (o : Option (List Text)) (r : Registry)
    → RegistryInv r
    → is_plugin_registered name r ≡ true
    → Names o
    → ((n : Text) → holds n o ≡ true → is_plugin_registered n r ≡ true)
    → RegistryInv (bind_to name path o r).1
unfolding is_in
bind_to-RegistryInv path name none r inv h d known =
    rebound-RegistryInv path (name ∷ []) r inv (refl, tt)
      (λ n e. ground (arith, h, e, text_eq_iff name n))
bind_to-RegistryInv path name (some ps) r inv h d known = elim (Bool-cases (is_in name ps)) [
  | inl e ↦ rw e inv
  | inr e ↦
      rw (e, sym (rebind-append path name ps r.bound_plugins))
        (rebound-RegistryInv path (ps ++ (name ∷ [])) r inv (append-NoRepeat name ps e d.1)
          (λ n f. ground (arith, h, f, text_eq_iff name n, is_in-append n name ps, known n)))
]

bind_plugin-RegistryInv :
    (path name : Text) (r : Registry)
    → RegistryInv r
    → is_plugin_registered name r ≡ true
    → RegistryInv (bind_plugin name path r).1
unfolding bind_plugin
bind_plugin-RegistryInv path name r inv h =
    bind_to-RegistryInv path name (lookup path r.bound_plugins) r inv h (inv.bound.names path)
      (inv.registered path)

pub bind_full_path-RegistryInv :
    (enabled : Bool) (path name : Text) (r : Registry)
    → RegistryInv r
    → RegistryInv (bind_full_path enabled path name r).1
unfolding bind_full_path
bind_full_path-RegistryInv false path name r inv = inv
bind_full_path-RegistryInv true path name r inv = elim (Bool-cases (is_plugin_registered name r)) [
  | inl e ↦ rw e (bind_plugin-RegistryInv path name r inv e)
  | inr e ↦ rw e inv
]

unbind_from-RegistryInv :
    (path name : Text) (o : Option (List Text)) (r : Registry)
    → RegistryInv r
    → Names o
    → ((n : Text) → holds n o ≡ true → is_plugin_registered n r ≡ true)
    → RegistryInv (record r { bound_plugins = unbind_from path name o r.bound_plugins })
unbind_from-RegistryInv path name none r inv d known = inv
unbind_from-RegistryInv path name (some ps) r inv d known = elim (Bool-cases (is_in name ps)) [
  | inl e ↦ rw e (
      rebound-RegistryInv path (erase_name name ps) r inv (erase_name-NoRepeat name ps d.1)
        (λ n f. ground (arith, f, is_in-erase_name n name ps d.1, known n)))
  | inr e ↦ rw e inv
]

pub unbind_plugin-RegistryInv :
    (path name : Text) (r : Registry) → RegistryInv r → RegistryInv (unbind_plugin path name r)
unfolding unbind_plugin
unbind_plugin-RegistryInv path name r inv =
    unbind_from-RegistryInv path name (lookup path r.bound_plugins) r inv (inv.bound.names path)
      (inv.registered path)
