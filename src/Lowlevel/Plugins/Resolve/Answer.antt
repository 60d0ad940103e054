-- ===== src/Lowlevel/Plugins/Resolve/Answer.antt =====
-- What LLplugin::getBoundPlugins answers, and what it leaves bound.
use imas_core.Prelude.{
  Bool, true, false, List, [], ◌∷◌, ◌++◌, append_assoc, Option, none, some, Text, codes, Dict,
  lookup, assign, lookup-assign, text_eq, text_eq_iff, text_eq_self, ◌≡◌, refl, sym, ◌∙◌, ap, subst,
  Bool-cases, arith, Option-cases, inl, inr,
}
use imas_core.Lowlevel.Outcome.{Outcome}
use imas_core.Lowlevel.Plugins.{Registry, is_in, holds, bind_to, bind_plugin, is_plugin_registered}
use imas_core.Lowlevel.Plugins.Bound.{NoRepeat, is_in-append, append-NoRepeat, rebind-append, Names}
use imas_core.Lowlevel.Plugins.Invariant.{RegistryInv, rebound-RegistryInv}
use imas_core.Lowlevel.Plugins.Resolve.{
  bind_each, occurrence_path, all_occurrences_path, answer_bound, get_bound_plugins,
}

abbrev names_of : Option (List Text) → List Text
names_of none = []
names_of (some names) = names

abbrev assign_each : Text → List Text → List Text → Dict (List Text) → Dict (List Text)
assign_each path before [] m = m
assign_each path before (name ∷ names) m =
    assign_each path (before ++ (name ∷ [])) names (assign path (before ++ (name ∷ [])) m)

lookup-assign_each :
    (path : Text) (before : List Text) (name : Text) (names : List Text) (m : Dict (List Text))
    → lookup path (assign_each path before (name ∷ names) m) ≡ some (before ++ (name ∷ names))
lookup-assign_each path before name [] m =
    lookup-assign path path (before ++ (name ∷ [])) m ∙ rw (text_eq_self path) refl
lookup-assign_each path before name (next ∷ names) m =
    lookup-assign_each path (before ++ (name ∷ [])) next names _
    ∙ ap some (append_assoc before (name ∷ []) (next ∷ names))

assign_each-other :
    (path other : Text) (before names : List Text) (m : Dict (List Text))
    → text_eq path other ≡ false
    → lookup other (assign_each path before names m) ≡ lookup other m
assign_each-other path other before [] m e = refl
assign_each-other path other before (name ∷ names) m e =
    assign_each-other path other (before ++ (name ∷ [])) names _ e
    ∙ lookup-assign path other (before ++ (name ∷ [])) m
    ∙ rw e refl

-- No name is bound already.
abbrev Absent : List Text → List Text → Type 0
Absent before names = (n : Text) → is_in n names ≡ true → is_in n before ≡ false

Absent-next :
    (before : List Text) (name : Text) (names : List Text)
    → is_in name names ≡ false
    → Absent before (name ∷ names)
    → Absent (before ++ (name ∷ [])) names
unfolding is_in
Absent-next before name names d new n h =
    ground (arith, d, h, new n, is_in-append n name before, text_eq_iff name n)

bind_to-new :
    (name path : Text) (o : Option (List Text)) (r : Registry)
    → is_in name (names_of o) ≡ false
    → bind_to name path o r ≡ (
      Outcome.returns tt,
      record r { bound_plugins = assign path (names_of o ++ (name ∷ [])) r.bound_plugins },
    )
bind_to-new name path none r h = refl
bind_to-new name path (some ps) r h = rw h refl

bind_each-new :
    (names : List Text) (path : Text) (o : Option (List Text)) (r : Registry)
    → lookup path r.bound_plugins ≡ o
    → NoRepeat names
    → Absent (names_of o) names
    → bind_each names path r ≡ (
      Outcome.returns tt,
      record r { bound_plugins = assign_each path (names_of o) names r.bound_plugins },
    )
unfolding bind_each bind_plugin is_in
bind_each-new [] path o r e d new = refl
bind_each-new (name ∷ names) path o r e d new =
    rw (e, bind_to-new name path o r (new name (rw (text_eq_self name) refl)))
      (bind_each-new names path (some (names_of o ++ (name ∷ []))) _
        (lookup-assign path path (names_of o ++ (name ∷ [])) r.bound_plugins
          ∙ rw (text_eq_self path) refl)
        d.1 (Absent-next (names_of o) name names d.0 new))

assign_each-RegistryInv :
    (path : Text) (before names : List Text) (r : Registry)
    → RegistryInv r
    → NoRepeat before
    → NoRepeat names
    → Absent before names
    → ((n : Text) → is_in n before ≡ true → is_plugin_registered n r ≡ true)
    → ((n : Text) → is_in n names ≡ true → is_plugin_registered n r ≡ true)
    → RegistryInv (record r { bound_plugins = assign_each path before names r.bound_plugins })
unfolding is_in is_plugin_registered
assign_each-RegistryInv path before [] r inv db d new kb k = inv
assign_each-RegistryInv path before (name ∷ names) r inv db d new kb k =
    let fresh : is_in name before ≡ false = new name (rw (text_eq_self name) refl) in
    let known : (n : Text)
        → is_in n (before ++ (name ∷ [])) ≡ true
        → is_plugin_registered n r ≡ true =
      λ n f. ground (arith, f, is_in-append n name before, kb n, k n) in
    let once : RegistryInv
        (record r { bound_plugins = assign path (before ++ (name ∷ [])) r.bound_plugins }) =
      rw (sym (rebind-append path name before r.bound_plugins)) (
        rebound-RegistryInv path (before ++ (name ∷ [])) r inv
          (append-NoRepeat name before fresh db) known) in
    assign_each-RegistryInv path (before ++ (name ∷ [])) names _ once
      (append-NoRepeat name before fresh db) d.1 (Absent-next before name names d.0 new) known
      (λ n f. k n (ground (arith, f)))

abbrev otherwise : Option (List Text) → Option (List Text) → Option (List Text)
otherwise none other = other
otherwise (some names) other = some names

-- The plugins of the path, of its occurrence, or of all occurrences, the first that there are.
abbrev pub first_bound : Text → Text → Registry → Option (List Text)
first_bound object path r = otherwise (lookup path r.bound_plugins) (
    otherwise (lookup (occurrence_path object) r.bound_plugins)
      (lookup (all_occurrences_path object) r.bound_plugins))

-- The plugins are the answer, and from then on bound to the path; nothing else changes.
pub record Resolved (path : Text) (plugins : Option (List Text)) (r : Registry)
    (result : Outcome (Option (List Text)) × Registry) : Type 0 where
  pub answered : result.0 ≡ Outcome.returns plugins
  pub bound : lookup path result.1.bound_plugins ≡ plugins
  pub others :
      (other : Text)
      → text_eq path other ≡ false
      → lookup other result.1.bound_plugins ≡ lookup other r.bound_plugins
  pub store : result.1.llplugins_store ≡ r.llplugins_store
  pub destroyed_instances : result.1.destroyed ≡ r.destroyed
  pub inv : RegistryInv result.1

unchanged :
    (path : Text) (plugins : Option (List Text)) (r : Registry)
    → RegistryInv r
    → lookup path r.bound_plugins ≡ plugins
    → Resolved path plugins r (Outcome.returns plugins, r)
unchanged path plugins r inv e = record {
  answered = refl;
  bound = e;
  others = λ other h. refl;
  store = refl;
  destroyed_instances = refl;
  inv = inv;
}

bind_each-Resolved :
    (path : Text) (names : List Text) (r : Registry)
    → RegistryInv r
    → lookup path r.bound_plugins ≡ none
    → Names (some names)
    → ((n : Text) → is_in n names ≡ true → is_plugin_registered n r ≡ true)
    → Resolved path (some names) r (answer_bound names (bind_each names path r))
unfolding is_in
bind_each-Resolved path [] r inv e d known = ground (arith, d.0)
bind_each-Resolved path (name ∷ names) r inv e d known =
    rw (bind_each-new (name ∷ names) path none r e d.1 (λ n h. refl)) (record {
      answered = refl;
      bound = lookup-assign_each path [] name names r.bound_plugins;
      others = λ other h. assign_each-other path other [] (name ∷ names) r.bound_plugins h;
      store = refl;
      destroyed_instances = refl;
      inv =
          assign_each-RegistryInv path [] (name ∷ names) r inv tt d.1 (λ n h. refl)
            (λ n h. ground (arith, h)) known;
    })

-- Where the plugins are bound to another path.
from_path :
    (path from : Text) (names : List Text) (r : Registry)
    → RegistryInv r
    → lookup path r.bound_plugins ≡ none
    → lookup from r.bound_plugins ≡ some names
    → Resolved path (some names) r (answer_bound names (bind_each names path r))
from_path path from names r inv e f =
    bind_each-Resolved path names r inv e (subst Names f (inv.bound.names from))
      (λ n h. inv.registered from n (ap (holds n) f ∙ h))

pub get_bound_plugins-Resolved :
    (field object path : Text) (r : Registry)
    → RegistryInv r
    → text_eq field (codes "<buffer>") ≡ false
    → Resolved path (first_bound object path r) r (get_bound_plugins true field object path r)
unfolding get_bound_plugins
get_bound_plugins-Resolved field object path r inv h =
    elim (Option-cases (lookup path r.bound_plugins)) [
      | inr (names, e) ↦ rw (h, e) (unchanged path (some names) r inv e)
      | inl e ↦ elim (Option-cases (lookup (occurrence_path object) r.bound_plugins)) [
        | inr (names, f) ↦ rw (h, e, f) (from_path path (occurrence_path object) names r inv e f)
        | inl f ↦ elim (Option-cases (lookup (all_occurrences_path object) r.bound_plugins)) [
          | inr (names, g) ↦
              rw (h, e, f, g) (from_path path (all_occurrences_path object) names r inv e g)
          | inl g ↦ rw (h, e, f, g) (unchanged path none r inv e)
        ]
      ]
    ]

pub get_bound_plugins-RegistryInv :
    (enabled : Bool) (field object path : Text) (r : Registry)
    → RegistryInv r
    → RegistryInv (get_bound_plugins enabled field object path r).1
unfolding get_bound_plugins
get_bound_plugins-RegistryInv false field object path r inv = inv
get_bound_plugins-RegistryInv true field object path r inv =
    elim (Bool-cases (text_eq field (codes "<buffer>"))) [
      | inl e ↦ rw e inv
      | inr e ↦ (get_bound_plugins-Resolved field object path r inv e).inv
    ]
