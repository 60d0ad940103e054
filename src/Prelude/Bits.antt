-- ===== src/Prelude/Bits.antt =====
-- Fields packed into machine words: `|` of disjoint fields as a sum, masks and shifts.
use Prim.Native.Nat.{
  ℕ, zero, suc, ◌+◌, ◌*◌, ◌/◌, ◌%◌, ◌^◌, ◌<◌, ◌≤◌, max, digits, bit_or, bit_or-bitwise,
}
use mathlib.Core.Path.{◌≡◌, ap, ◌∙◌}
use native.Mathlib.Nat.{pow-suc}
use native.Mathlib.Omega.{arith}

-- `x << k` in uint64_t.
abbrev pub shl64 : ℕ → ℕ → ℕ
shl64 x k = (x * 2 ^ k) % 2 ^ 64

-- `x >> k`.
abbrev pub shr : ℕ → ℕ → ℕ
shr x k = x / 2 ^ k

-- `x & (2^k - 1)`.
abbrev pub low_bits : ℕ → ℕ → ℕ
low_bits x k = x % 2 ^ k

-- The field `q` above the lowest `suc k` bits, halved once.
field_twice : (q k : ℕ) → q * 2 ^ suc k ≡ q * 2 ^ k + q * 2 ^ k
field_twice q k = omega (arith, ap (λ (t : ℕ). q * t) (pow-suc 2 k))

-- Digit by digit, a low field meets only the zeros under the high one.
merge_digits :
    (fuel k r q : ℕ) → r ≤ fuel → r < 2 ^ k → digits (λ b. b) max fuel r (q * 2 ^ k) ≡ r + q * 2 ^ k
merge_digits zero k zero q enough fits = omega arith
merge_digits zero k (suc r) q enough fits = absurd (omega arith)
merge_digits (suc fuel) k zero q enough fits = omega arith
merge_digits (suc fuel) zero (suc r) q enough fits = absurd (omega arith)
merge_digits (suc fuel) (suc k) (suc r) q enough fits =
    let halved : q * 2 ^ suc k / 2 ≡ q * 2 ^ k = omega (arith, field_twice q k) in
    let even : q * 2 ^ suc k % 2 ≡ 0 = omega (arith, field_twice q k) in
    rw (halved, even)
      (omega (
        arith,
        merge_digits fuel k (suc r / 2) q (omega arith) (omega (arith, pow-suc 2 k)),
        field_twice q k,
      ))

-- `r | (q << k)` is a sum where `r` fits `k` bits.
pub bit_or_fields : (k r q : ℕ) → r < 2 ^ k → bit_or r (q * 2 ^ k) ≡ r + q * 2 ^ k
bit_or_fields k r q fits = bit_or-bitwise r (q * 2 ^ k) ∙ merge_digits r k r q (omega arith) fits
