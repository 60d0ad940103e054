-- ===== src/AosPath/Fuel.antt =====
-- The loop over the slashes never runs out of fuel.
use imas_core.Prelude.{
  ℕ, zero, suc, ◌≤◌, ◌<◌, List, [], ◌∷◌, some, Text, length, length-take, take, drop, ◌≡◌, refl,
  arith, Option-cases, inl, inr,
}
use imas_core.AosPath.{last_slash, split_levels, push_part}

last_slash-inside : (text : Text) (pos : ℕ) → last_slash text ≡ some pos → pos < length text
unfolding last_slash
last_slash-inside [] pos h = cc
last_slash-inside (c ∷ text) pos h = elim (Option-cases (last_slash text)) [
  | inl e ↦ ground (arith, e, h)
  | inr (i, e) ↦ ground (arith, e, h, last_slash-inside text i)
]

-- With fuel for every byte of the rest, one more round changes nothing.
split_levels-enough :
    (fuel : ℕ) (segments : List Text) (remaining : Text)
    → length remaining ≤ fuel
    → split_levels (suc fuel) segments remaining ≡ split_levels fuel segments remaining
unfolding split_levels
split_levels-enough zero segments [] h = refl
split_levels-enough zero segments (c ∷ remaining) h = absurd (omega arith)
split_levels-enough (suc fuel) segments remaining h = elim (Option-cases (last_slash remaining)) [
  | inl e ↦ ground (arith, e)
  | inr (pos, e) ↦ ground (
    arith,
    e,
    last_slash-inside remaining pos e,
    length-take pos remaining,
    split_levels-enough fuel (push_part segments (drop (suc pos) remaining)) (take pos remaining),
  )
]
