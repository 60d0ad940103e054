-- ===== src/Lowlevel/Plugins/Release.antt =====
-- The paths that LLplugin::unregisterPlugin takes a plugin from.
use imas_core.Prelude.{
  false, List, [], ◌∷◌, Option, none, some, Text, Dict, Distinct, lookup, text_eq, text_eq_iff,
  text_eq_self, if◌then◌else◌, ◌≡◌, refl, sym, ◌∙◌, ap, arith, Bool-cases, Option-cases, inl, inr,
}
use imas_core.Lowlevel.Plugins.{
  is_in, erase_name, holds, paths_of, release_from, release, release_each,
}
use imas_core.Lowlevel.Plugins.Bound.{
  is_in-erase_name, erase_name-none, erase_name-NoRepeat, Names, BoundInv, bound_as, holds-bound_as,
  bound_as-Names, lookup-rebind, rebind-BoundInv,
}

-- What a path holds once a plugin is taken from it.
abbrev pub left : Text → Option (List Text) → Option (List Text)
left name none = none
left name (some ps) = bound_as (erase_name name ps)

pub holds-left :
    (n name : Text) (o : Option (List Text))
    → Names o
    → holds n (left name o) ≡ (if text_eq name n then false else holds n o)
holds-left n name none d = ground arith
holds-left n name (some ps) d =
    holds-bound_as n (erase_name name ps) ∙ is_in-erase_name n name ps d.1

left-none :
    (name : Text) (o : Option (List Text)) → Names o → holds name o ≡ false → left name o ≡ o
left-none name none d h = refl
left-none name (some ps) d h = rw (erase_name-none name ps h, d.0) refl

left-idempotent :
    (name : Text) (o : Option (List Text)) → Names o → left name (left name o) ≡ left name o
left-idempotent name none d = refl
left-idempotent name (some ps) d =
    left-none name (bound_as (erase_name name ps))
      (bound_as-Names (erase_name name ps) (erase_name-NoRepeat name ps d.1))
      (holds-left name name (some ps) d ∙ rw (text_eq_self name) refl)

release-lookup :
    (name path j : Text) (m : Dict (List Text))
    → Distinct m
    → lookup j (release name path m)
      ≡ (if text_eq path j then left name (lookup j m) else lookup j m)
unfolding release
release-lookup name path j m d = elim (Option-cases (lookup path m)) [
  | inl e ↦ rw e (elim (Bool-cases (text_eq path j)) [
    | inl f ↦
        let gone : lookup j m ≡ none = sym (ap (λ k. lookup k m) ((text_eq_iff path j).0 f)) ∙ e in
        rw (f, gone) refl
    | inr f ↦ rw f refl
  ])
  | inr (ps, e) ↦
      rw (e, lookup-rebind path j (erase_name name ps) m d)
        (elim (Bool-cases (text_eq path j)) [
          | inl f ↦
              let here : lookup j m ≡ some ps =
                sym (ap (λ k. lookup k m) ((text_eq_iff path j).0 f)) ∙ e in
              rw (f, here) refl
          | inr f ↦ rw f refl
        ])
]

release_from-BoundInv :
    (name path : Text) (o : Option (List Text)) (m : Dict (List Text))
    → Names o
    → BoundInv m
    → BoundInv (release_from name path o m)
release_from-BoundInv name path none m d inv = inv
release_from-BoundInv name path (some ps) m d inv =
    rebind-BoundInv path (erase_name name ps) m (erase_name-NoRepeat name ps d.1) inv

release-BoundInv :
    (name path : Text) (m : Dict (List Text)) → BoundInv m → BoundInv (release name path m)
unfolding release
release-BoundInv name path m inv =
    release_from-BoundInv name path (lookup path m) m (inv.names path) inv

pub release_each-BoundInv :
    (name : Text) (paths : List Text) (m : Dict (List Text))
    → BoundInv m
    → BoundInv (release_each name paths m)
unfolding release_each
release_each-BoundInv name [] m inv = inv
release_each-BoundInv name (p ∷ paths) m inv =
    release_each-BoundInv name paths (release name p m) (release-BoundInv name p m inv)

release_each-lookup :
    (name : Text) (paths : List Text) (j : Text) (m : Dict (List Text))
    → BoundInv m
    → lookup j (release_each name paths m)
      ≡ (if is_in j paths then left name (lookup j m) else lookup j m)
unfolding release_each is_in
release_each-lookup name [] j m inv = refl
release_each-lookup name (p ∷ paths) j m inv = ground (
  arith,
  release_each-lookup name paths j (release name p m) (release-BoundInv name p m inv),
  release-lookup name p j m inv.distinct,
  left-idempotent name (lookup j m) (inv.names j),
)

pub is_in-paths_of :
    (name j : Text) (m : Dict (List Text))
    → Distinct m
    → is_in j (paths_of name m) ≡ holds name (lookup j m)
unfolding is_in paths_of lookup
is_in-paths_of name j [] d = refl
is_in-paths_of name j ((i, ps) ∷ m) d = elim (Bool-cases (text_eq i j)) [
  | inl e ↦
      let gone : lookup j m ≡ none = sym (ap (λ k. lookup k m) ((text_eq_iff i j).0 e)) ∙ d.0 in
      elim (Bool-cases (is_in name ps)) [
        | inl f ↦ rw (f, e) (sym f)
        | inr f ↦ rw (f, e, is_in-paths_of name j m d.1, gone) (sym f)
      ]
  | inr e ↦ elim (Bool-cases (is_in name ps)) [
    | inl f ↦ rw (f, e) (is_in-paths_of name j m d.1)
    | inr f ↦ rw (f, e) (is_in-paths_of name j m d.1)
  ]
]

pub release_each-left :
    (name j : Text) (m : Dict (List Text))
    → BoundInv m
    → lookup j (release_each name (paths_of name m) m) ≡ left name (lookup j m)
release_each-left name j m inv =
    rw (release_each-lookup name (paths_of name m) j m inv, is_in-paths_of name j m inv.distinct)
      (elim (Bool-cases (holds name (lookup j m))) [
        | inl e ↦ rw e refl
        | inr e ↦ rw e (sym (left-none name (lookup j m) (inv.names j) e))
      ])

pub release_each-holds :
    (name n j : Text) (m : Dict (List Text))
    → BoundInv m
    → holds n (lookup j (release_each name (paths_of name m) m))
      ≡ (if text_eq name n then false else holds n (lookup j m))
release_each-holds name n j m inv =
    ap (holds n) (release_each-left name j m inv) ∙ holds-left n name (lookup j m) (inv.names j)
