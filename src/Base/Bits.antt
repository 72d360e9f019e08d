-- ===== src/Base/Bits.antt =====
-- The `|` of disjoint fields at variables: the native `bit_or` computes only at numerals.
use Prim.Native.Nat.{
  ℕ, zero, suc, ◌+◌, ◌*◌, ◌/◌, ◌%◌, ◌≤◌, ◌<◌, ◌-◌, max, bit_or, digits, bit_or-bitwise,
}
use mathlib.Core.Path.{◌≡◌, refl, ◌∙◌}
use mathlib.Core.Logic.{◌⊎◌, inl, inr}
use native.Mathlib.Omega.{arith}

zero_or_suc : (x : ℕ) → (x ≡ 0) ⊎ ((p : ℕ) × (x ≡ suc p))
zero_or_suc zero = inl refl
zero_or_suc (suc p) = inr (p, refl)

-- The recursion that the native operation stands for, on a count of digits to go.
abbrev joined : ℕ → ℕ → ℕ → ℕ
joined rounds x y = digits (λ z. z) max rounds x y

-- One round more than the first number needs changes nothing, and so do any number of them.
one_more : (rounds x y : ℕ) → x ≤ rounds → joined (suc rounds) x y ≡ joined rounds x y
one_more zero x y fits = let none : x ≡ 0 = omega arith in rw none refl
one_more (suc rounds) zero y fits = refl
one_more (suc rounds) (suc x) y fits =
    let halves = one_more rounds (suc x / 2) (y / 2) (omega arith) in omega (arith, halves)

any_more : (more rounds x y : ℕ) → x ≤ rounds → joined (more + rounds) x y ≡ joined rounds x y
any_more zero rounds x y fits = let same : 0 + rounds ≡ rounds = omega arith in rw same refl
any_more (suc more) rounds x y fits =
    let next : suc more + rounds ≡ suc (more + rounds) = omega arith in
    rw next (one_more (more + rounds) x y (omega arith) ∙ any_more more rounds x y fits)

-- The lowest digit apart from the others.
bit_or_lowest : (x y : ℕ) → bit_or x y ≡ max (x % 2) (y % 2) + 2 * bit_or (x / 2) (y / 2)
bit_or_lowest x y = elim (zero_or_suc x) [
  | inl none ↦ rw none (rw (bit_or-bitwise 0 y, bit_or-bitwise (0 / 2) (y / 2)) (omega arith))
  | inr (p, e) ↦
      let spare : p - suc p / 2 + suc p / 2 ≡ p = omega arith in
      let rest = any_more (p - suc p / 2) (suc p / 2) (suc p / 2) (y / 2) (omega arith) in
      rw e (
        omega
          (arith, bit_or-bitwise (suc p) y, bit_or-bitwise (suc p / 2) (y / 2), rw spare at rest))
]

bit_or-zero_below : (bound x : ℕ) → x < bound → bit_or x 0 ≡ x
bit_or-zero_below zero x lt = absurd (omega arith)
bit_or-zero_below (suc bound) x lt = elim (zero_or_suc x) [
  | inl none ↦ rw none refl
  | inr (p, e) ↦
      omega (arith, bit_or_lowest x 0, bit_or-zero_below bound (x / 2) (omega (arith, e)))
]

-- 2 ^ k, by doubling.
abbrev pub pow2 : ℕ → ℕ
pow2 zero = 1
pow2 (suc k) = pow2 k * 2

-- A field above bit k joined with a value below 2 ^ k is their sum.
pub bit_or_disjoint : (k a b : ℕ) → b < pow2 k → bit_or (a * pow2 k) b ≡ a * pow2 k + b
bit_or_disjoint zero a zero h = omega (arith, bit_or-zero_below (a * 1 + 1) (a * 1) (omega arith))
bit_or_disjoint zero a (suc b) h = absurd (omega arith)
bit_or_disjoint (suc k) a b h =
    omega
      (arith, bit_or_lowest (a * (pow2 k * 2)) b, half, bit_or_disjoint k a (b / 2) (omega arith))
  where
    half : bit_or (a * (pow2 k * 2) / 2) (b / 2) ≡ bit_or (a * pow2 k) (b / 2)
    half = rw (same) refl
      where
        same : a * (pow2 k * 2) / 2 ≡ a * pow2 k
        same = omega arith

-- The same with the shifted field given as a number.
pub bit_or-field : (k a x b : ℕ) → x ≡ a * pow2 k → b < pow2 k → bit_or x b ≡ x + b
bit_or-field k a x b e h = rw e (bit_or_disjoint k a b h)
