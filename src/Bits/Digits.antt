-- ===== src/Bits/Digits.antt =====
-- The native `bit_or` and `bit_and` on the last binary digit, and what follows by halving.
use Prim.Native.Nat.{max, digits, bit_and-bitwise, bit_or-bitwise}
use native.Mathlib.Nat.{pow-suc}
use tsn_gen.Prelude.{
  ℕ, zero, suc, ◌+◌, ◌*◌, ◌/◌, ◌%◌, ◌^◌, ◌≤◌, ◌<◌, min, bit_and, bit_or, ◌≡◌, refl, ap, arith,
}

-- Two supplies of fuel that cover the left number give the same digits.
module _ (last : ℕ → ℕ) (join : ℕ → ℕ → ℕ) where
  same_digits : (k l x y : ℕ) → x ≤ k → x ≤ l → digits last join k x y ≡ digits last join l x y
  same_digits zero zero x y hk hl = refl
  same_digits zero (suc l) zero y hk hl = refl
  same_digits zero (suc l) (suc x) y hk hl = absurd (omega arith)
  same_digits (suc k) zero zero y hk hl = refl
  same_digits (suc k) zero (suc x) y hk hl = absurd (omega arith)
  same_digits (suc k) (suc l) zero y hk hl = refl
  same_digits (suc k) (suc l) (suc x) y hk hl =
      ap (λ t. t * 2 + join (suc x % 2) (y % 2))
        (same_digits k l (suc x / 2) (y / 2) (omega arith) (omega arith))

pub or_digit : (x y : ℕ) → bit_or x y ≡ bit_or (x / 2) (y / 2) * 2 + max (x % 2) (y % 2)
or_digit zero y = omega (arith, bit_or-bitwise 0 y, bit_or-bitwise 0 (y / 2))
or_digit (suc x) y = omega (
  arith,
  bit_or-bitwise (suc x) y,
  bit_or-bitwise (suc x / 2) (y / 2),
  same_digits (λ b. b) max x (suc x / 2) (suc x / 2) (y / 2) (omega arith) (omega arith),
)

pub and_digit : (x y : ℕ) → bit_and x y ≡ bit_and (x / 2) (y / 2) * 2 + min (x % 2) (y % 2)
and_digit zero y = omega (arith, bit_and-bitwise 0 y, bit_and-bitwise 0 (y / 2))
and_digit (suc x) y = omega (
  arith,
  bit_and-bitwise (suc x) y,
  bit_and-bitwise (suc x / 2) (y / 2),
  same_digits (λ b. 0) min x (suc x / 2) (suc x / 2) (y / 2) (omega arith) (omega arith),
)

-- Induction by halving, on fuel that covers the number.
or_none : (k x : ℕ) → x ≤ k → bit_or x 0 ≡ x
or_none k zero h = refl
or_none zero (suc x) h = absurd (omega arith)
or_none (suc k) (suc x) h = omega (arith, or_digit (suc x) 0, or_none k (suc x / 2) (omega arith))

pub bit_or-zero : (x : ℕ) → bit_or x 0 ≡ x
bit_or-zero x = or_none x x (omega arith)

pub zero-bit_and : (m : ℕ) → bit_and 0 m ≡ 0
zero-bit_and m = bit_and-bitwise 0 m

masked : (k x m : ℕ) → x ≤ k → (bit_and (bit_and x m) m ≡ bit_and x m) × (bit_and x m ≤ x)
masked k zero m h = rw (zero-bit_and m) (zero-bit_and m, omega arith)
masked zero (suc x) m h = absurd (omega arith)
masked (suc k) (suc x) m h =
    let digit = and_digit (suc x) m in
    let (again, below) = masked k (suc x / 2) (m / 2) (omega arith) in
    let half : bit_and (suc x) m / 2 ≡ bit_and (suc x / 2) (m / 2) = omega arith in
    let rest : bit_and (bit_and (suc x) m / 2) (m / 2) ≡ bit_and (suc x / 2) (m / 2) =
      rw half again in
    (omega (arith, and_digit (bit_and (suc x) m) m), omega arith)

-- A masked value stays as it is under the mask, and is no greater than the value.
pub bit_and_idem : (x m : ℕ) → bit_and (bit_and x m) m ≡ bit_and x m
bit_and_idem x m = (masked x x m (omega arith)).0

pub bit_and-le : (x m : ℕ) → bit_and x m ≤ x
bit_and-le x m = (masked x x m (omega arith)).1

twice_power : (q k : ℕ) → q * 2 ^ suc k ≡ q * 2 ^ k * 2
twice_power q k = omega (arith, ap (λ (t : ℕ). q * t) (pow-suc 2 k))

-- Fields that do not overlap add up.
pub bit_or_disjoint : (k q r : ℕ) → r < 2 ^ k → bit_or (q * 2 ^ k) r ≡ q * 2 ^ k + r
bit_or_disjoint zero q r h = ground (arith, bit_or-zero q)
bit_or_disjoint (suc k) q r h =
    ground
      (arith, or_digit (q * 2 ^ suc k) r, twice_power q k, pow-suc 2 k, bit_or_disjoint k q (r / 2))

pub bit_or_above : (k q r : ℕ) → r < 2 ^ k → bit_or r (q * 2 ^ k) ≡ r + q * 2 ^ k
bit_or_above zero q zero h = ground (arith, bit_or-bitwise 0 (q * 2 ^ 0))
bit_or_above zero q (suc r) h = omega arith
bit_or_above (suc k) q r h =
    ground
      (arith, or_digit r (q * 2 ^ suc k), twice_power q k, pow-suc 2 k, bit_or_above k q (r / 2))
