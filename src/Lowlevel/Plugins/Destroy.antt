-- ===== src/Lowlevel/Plugins/Destroy.antt =====
-- The entry of a plugin that LLplugin::unregisterPlugin destroys.
use imas_core.Prelude.{
  ℕ, Bool, List, [], ◌∷◌, ◌++◌, append-nil, Option, none, some, Text, Dict, Distinct, lookup,
  lookup-erase, erase-Distinct, text_eq, text_eq_self, text_eq_iff, if◌then◌else◌, ◌&&◌, ◌≡◌, refl,
  sym, ◌∙◌, ap, Bool-cases, inl, inr,
}
use imas_core.Lowlevel.Plugins.{
  LLplugin, Registry, is_set, destroy_stored, destroyed_of, destroy_found, destroy_each,
}

-- Whether the plugin can be destroyed: its instance and its function to destroy it are there.
abbrev pub is_complete : LLplugin → Bool
is_complete plugin = is_set plugin.al_plugin && is_set plugin.destroy_plugin

-- The entry once the plugin is destroyed: it stays where it could not be.
abbrev pub kept : Option LLplugin → Option LLplugin
kept none = none
kept (some plugin) = if is_complete plugin then none else some plugin

lookup-destroy_stored :
    (name other : Text) (o : Option LLplugin) (store : Dict LLplugin)
    → Distinct store
    → lookup name store ≡ o
    → lookup other (destroy_stored name o store)
      ≡ (if text_eq name other then kept (lookup other store) else lookup other store)
lookup-destroy_stored name other none store d e = elim (Bool-cases (text_eq name other)) [
  | inl f ↦
      let gone : lookup other store ≡ none =
        sym (ap (λ k. lookup k store) ((text_eq_iff name other).0 f)) ∙ e in
      rw (f, gone) refl
  | inr f ↦ rw f refl
]
lookup-destroy_stored name other (some plugin) store d e = elim (Bool-cases (text_eq name other)) [
  | inl f ↦
      let here : lookup other store ≡ some plugin =
        sym (ap (λ k. lookup k store) ((text_eq_iff name other).0 f)) ∙ e in
      elim (Bool-cases (is_complete plugin)) [
        | inl c ↦ rw (c, lookup-erase name other store d, f, here, c) refl
        | inr c ↦ rw (c, f, here, c) refl
      ]
  | inr f ↦ elim (Bool-cases (is_complete plugin)) [
    | inl c ↦ rw (c, lookup-erase name other store d, f) refl
    | inr c ↦ rw (c, f) refl
  ]
]

destroy_stored-Distinct :
    (name : Text) (o : Option LLplugin) (store : Dict LLplugin)
    → Distinct store
    → Distinct (destroy_stored name o store)
destroy_stored-Distinct name none store d = d
destroy_stored-Distinct name (some plugin) store d = elim (Bool-cases (is_complete plugin)) [
  | inl e ↦ rw e (erase-Distinct name store d)
  | inr e ↦ rw e d
]

-- Nothing is left to do once the plugin is destroyed.
destroyed_of-kept : (o : Option LLplugin) → destroyed_of (kept o) ≡ []
destroyed_of-kept none = refl
destroyed_of-kept (some plugin) = by_fields plugin.al_plugin plugin.destroy_plugin
  where
    by_fields :
        (made destroy : Option ℕ)
        → destroyed_of (kept (some (record plugin { al_plugin = made; destroy_plugin = destroy })))
          ≡ []
    by_fields none destroy = refl
    by_fields (some p) none = refl
    by_fields (some p) (some d) = refl

destroy_stored-kept :
    (name : Text) (o : Option LLplugin) (store : Dict LLplugin)
    → destroy_stored name (kept o) store ≡ store
destroy_stored-kept name none store = refl
destroy_stored-kept name (some plugin) store = elim (Bool-cases (is_complete plugin)) [
  | inl c ↦ rw c refl
  | inr c ↦ rw (c, c) refl
]

pub lookup-destroy_found :
    (name other : Text) (r : Registry)
    → Distinct r.llplugins_store
    → lookup other (destroy_found name r).llplugins_store ≡ (
        if text_eq name other
        then kept (lookup other r.llplugins_store)
        else lookup other r.llplugins_store)
unfolding destroy_found
lookup-destroy_found name other r d =
    lookup-destroy_stored name other (lookup name r.llplugins_store) r.llplugins_store d refl

destroy_found-idle :
    (name : Text) (r : Registry) (o : Option LLplugin)
    → lookup name r.llplugins_store ≡ kept o
    → destroy_found name r ≡ r
unfolding destroy_found
destroy_found-idle name r o e =
    rw
      (e, destroy_stored-kept name o r.llplugins_store, destroyed_of-kept o, append-nil r.destroyed)
      refl

pub destroyed_found :
    (name : Text) (r : Registry)
    → (destroy_found name r).destroyed ≡ r.destroyed ++ destroyed_of (lookup name r.llplugins_store)
unfolding destroy_found
destroyed_found name r = refl

destroy_found-twice :
    (name : Text) (r : Registry)
    → Distinct r.llplugins_store
    → destroy_found name (destroy_found name r) ≡ destroy_found name r
destroy_found-twice name r d =
    destroy_found-idle name (destroy_found name r) (lookup name r.llplugins_store)
      (lookup-destroy_found name name r d ∙ rw (text_eq_self name) refl)

pub destroy_found-Distinct :
    (name : Text) (r : Registry)
    → Distinct r.llplugins_store
    → Distinct (destroy_found name r).llplugins_store
unfolding destroy_found
destroy_found-Distinct name r d =
    destroy_stored-Distinct name (lookup name r.llplugins_store) r.llplugins_store d

pub destroy_each-once :
    (name path : Text) (paths : List Text) (r : Registry)
    → Distinct r.llplugins_store
    → destroy_each name (path ∷ paths) r ≡ destroy_found name r
unfolding destroy_each
destroy_each-once name path [] r d = refl
destroy_each-once name path (p ∷ paths) r d =
    ap (destroy_each name paths) (destroy_found-twice name r d) ∙ destroy_each-once name p paths r d
