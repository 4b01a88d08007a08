-- ===== src/Bits/Word.antt =====
-- `|` on words: one bit set in a byte, and two fields that do not overlap. Division and remainder
-- by the powers of two.

use native.Mathlib.Nat.{
  pow-suc, one-le-pow, div-add-mod, div-div-eq-div-mul, div-eq_of_lt, pow-le-pow_right,
}
use tsn_gen.Prelude.{
  ℕ, zero, suc, ◌+◌, ◌*◌, ◌/◌, ◌%◌, ◌^◌, ◌≤◌, ◌<◌, bit_or, ◌≡◌, refl, ap, arith, Bool, true, false,
  ◌&&◌, ◌==◌, ==_iff, if◌then◌else◌,
}

-- The test holds of all numbers below a bound, decided by running it.
unfoldable pub all_below : ℕ → (ℕ → Bool) → Bool
all_below zero test = true
all_below (suc bound) test = if test bound then all_below bound test else false

pub all_below_sound :
    (test : ℕ → Bool) (bound k : ℕ) → k < bound → all_below bound test ≡ true → test k ≡ true
unfolding all_below
all_below_sound test zero k small every = absurd (omega arith)
all_below_sound test (suc bound) k small every = ground (arith, all_below_sound test bound k)

-- Bit `q` of the byte `b` with bit `p` set.
abbrev pub bit_after_set : ℕ → ℕ → ℕ → ℕ
bit_after_set b p q = if p == q then 1 else b / 2 ^ q % 2

abbrev set_test : ℕ → ℕ → ℕ → Bool
set_test b p q = bit_or b (2 ^ p) / 2 ^ q % 2 == bit_after_set b p q

abbrev byte_test : ℕ → Bool
byte_test b = all_below 8 (λ p. bit_or b (2 ^ p) / 256 == 0 && all_below 8 (λ q. set_test b p q))

byte_table : all_below 256 byte_test ≡ true
unfolding all_below
byte_table = refl

row :
    (b p : ℕ)
    → b < 256
    → p < 8
    → (bit_or b (2 ^ p) / 256 == 0 && all_below 8 (λ q. set_test b p q)) ≡ true
row b p hb hp = all_below_sound _ 8 p hp (all_below_sound byte_test 256 b hb byte_table)

pub bit_or_bit-lt : (b p : ℕ) → b < 256 → p < 8 → bit_or b (2 ^ p) < 256
bit_or_bit-lt b p hb hp = ground (arith, row b p hb hp)

pub bit_or_bit :
    (b p q : ℕ) → b < 256 → p < 8 → q < 8 → bit_or b (2 ^ p) / 2 ^ q % 2 ≡ bit_after_set b p q
bit_or_bit b p q hb hp hq =
    (==_iff _ _).0 (all_below_sound (λ q. set_test b p q) 8 q hq (ground (arith, row b p hb hp)))

-- The low `i + 1` bits are bit `i` and the low `i` bits.
pub mod-two-pow_suc : (v i : ℕ) → v % 2 ^ suc i ≡ v / 2 ^ i % 2 * 2 ^ i + v % 2 ^ i
mod-two-pow_suc v i = omega (
  arith,
  pow-suc 2 i,
  div-add-mod v (2 ^ i),
  div-add-mod v (2 ^ i * 2),
  ap (λ (t : ℕ). 2 ^ i * t) (div-div-eq-div-mul v (2 ^ i) 2),
  ap (λ (t : ℕ). 2 ^ i * t) (div-add-mod (v / 2 ^ i) 2),
  ap (λ (t : ℕ). v % t) (pow-suc 2 i),
)

pub two-pow-pos : (n : ℕ) → 0 < 2 ^ n
two-pow-pos n = one-le-pow n 2 (omega arith)

-- A word of `w` bits has no bit at `i ≥ w`.
pub high_bit_zero : (v w i : ℕ) → v < 2 ^ w → w ≤ i → v / 2 ^ i % 2 ≡ 0
high_bit_zero v w i h le =
    let wide : v < 2 ^ i = omega (arith, pow-le-pow_right {n = 2} (omega arith) le) in
    rw (div-eq_of_lt wide)
