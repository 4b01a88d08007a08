-- ===== src/Bits/Extract.antt =====
-- `extractBits` reads a number whose binary digits are the bits of the buffer, and undoes
-- `appendBits`.
use native.Mathlib.Nat.{pow-le-pow_right, pow-suc, zero-div}
use tsn_gen.Prelude.{
  ℕ, zero, suc, ◌+◌, ◌-◌, ◌*◌, ◌/◌, ◌%◌, ◌^◌, ◌≤◌, ◌<◌, min, ◌≡◌, refl, sym, arith, ◌∙◌, ap, ap₂,
  List, ltb, length, get_or, get_or-beyond, Bool-cases, inl, inr, leb, lt→ltb, le→ltb, leb→le,
}
use tsn_gen.Bits.{u64, rounds, extract_bit, extract_loop, append_bits, extract_bits}
use tsn_gen.Bits.Digits.{bit_or_disjoint}
use tsn_gen.Bits.Word.{mod-two-pow_suc, two-pow-pos}
use tsn_gen.Bits.Append.{bit_at, IsPacked, IsAppended, append_bits-IsAppended}

-- The number whose `n` binary digits are the bits of the buffer from `off` on, 0 past its end.
unfoldable pub read_bits : List ℕ → ℕ → ℕ → ℕ
read_bits buf off zero = 0
read_bits buf off (suc n) = bit_at buf off * 2 ^ n + read_bits buf (off + 1) n

pub read_bits-lt : (buf : List ℕ) (off n : ℕ) → read_bits buf off n < 2 ^ n
unfolding read_bits
read_bits-lt buf off zero = omega arith
read_bits-lt buf off (suc n) =
    let bit : bit_at buf off ≤ 1 = omega arith in
    grind (arith, read_bits-lt buf (off + 1) n, pow-suc 2 n)

-- Digits that agree with those of `v` read as the low digits of `v`.
pub read_bits_digits :
    (n : ℕ) (buf : List ℕ) (off v : ℕ)
    → ((j : ℕ) → j < n → bit_at buf (off + j) ≡ v / 2 ^ (n - 1 - j) % 2)
    → read_bits buf off n ≡ v % 2 ^ n
unfolding read_bits
read_bits_digits zero buf off v h = omega arith
read_bits_digits (suc n) buf off v h =
    let first : bit_at buf off ≡ v / 2 ^ n % 2 =
      ap (λ (t : ℕ). bit_at buf t) (omega arith)
      ∙ h 0 (omega arith)
      ∙ ap (λ (t : ℕ). v / 2 ^ t % 2) (omega arith) in
    rw first (
      ap (λ (t : ℕ). v / 2 ^ n % 2 * 2 ^ n + t) (read_bits_digits n buf (off + 1) v later)
      ∙ sym (mod-two-pow_suc v n))
  where
    later : (j : ℕ) → j < n → bit_at buf (off + 1 + j) ≡ v / 2 ^ (n - 1 - j) % 2
    later j lt =
        ap (λ (t : ℕ). bit_at buf t) (omega arith)
        ∙ h (suc j) (omega arith)
        ∙ ap (λ (t : ℕ). v / 2 ^ t % 2) (omega arith)

bit_mul-le : (b p : ℕ) → b ≤ 1 → b * p ≤ p
bit_mul-le b p h = grind arith

-- A round below 64 adds the bit of the buffer as the next digit.
extract_bit_low :
    (buf : List ℕ) (off q i : ℕ)
    → i < 64
    → extract_bit buf off (q * 2 ^ suc i) i ≡ (2 * q + bit_at buf off) * 2 ^ i
unfolding extract_bit
extract_bit_low buf off q i h = rw (lt→ltb i 64 h) (elim (Bool-cases (ltb (off / 8) (length buf))) [
  | inr past ↦
      let blank : get_or buf (off / 8) 0 ≡ 0 = get_or-beyond buf (off / 8) 0 (ground arith) in
      rw (past, blank, zero-div (2 ^ (7 - off % 8)))
        (omega (arith, ap (λ (t : ℕ). q * t) (pow-suc 2 i)))
  | inl inside ↦
      let bit : bit_at buf off ≤ 1 = omega arith in
      let power : 2 ^ i ≤ 2 ^ 63 =
        pow-le-pow_right {n = 2} (omega arith) {i = i} {j = 63} (omega arith) in
      let small = bit_mul-le (bit_at buf off) (2 ^ i) bit in
      let digit : bit_at buf off * 2 ^ i < 2 ^ suc i = omega (arith, pow-suc 2 i, two-pow-pos i) in
      let fits : u64 (bit_at buf off * 2 ^ i) ≡ bit_at buf off * 2 ^ i = omega arith in
      rw (inside, fits, bit_or_disjoint (suc i) q (bit_at buf off * 2 ^ i) digit)
        (omega (arith, ap (λ (t : ℕ). q * t) (pow-suc 2 i)))
])

extract_loop_low :
    (n : ℕ) (buf : List ℕ) (off q : ℕ)
    → n ≤ 64
    → extract_loop n buf off (q * 2 ^ n) ≡ (q * 2 ^ n + read_bits buf off n, off + n)
unfolding extract_loop read_bits
extract_loop_low zero buf off q h = ground arith
extract_loop_low (suc i) buf off q h =
    rw
      (
        extract_bit_low buf off q i h,
        extract_loop_low i buf (off + 1) (2 * q + bit_at buf off) (omega arith),
      )
      (ground (arith, ap (λ (t : ℕ). q * t) (pow-suc 2 i)))

extract_bit_high : (buf : List ℕ) (off v i : ℕ) → 64 ≤ i → extract_bit buf off v i ≡ v
unfolding extract_bit
extract_bit_high buf off v i h =
    rw (le→ltb i 64 h) (elim (Bool-cases (ltb (off / 8) (length buf))) [
      | inl inside ↦ rw inside
      | inr past ↦ rw past
    ])

extract_loop-suc :
    (i : ℕ) (buf : List ℕ) (off v : ℕ)
    → extract_loop (suc i) buf off v ≡ extract_loop i buf (off + 1) (extract_bit buf off v i)
unfolding extract_loop
extract_loop-suc i buf off v = refl

-- Only the last 64 of the bits that are passed over make the value.
abbrev pub value_read : List ℕ → ℕ → ℕ → ℕ
value_read buf off n = read_bits buf (off + (n - 64)) (min n 64)

extract_loop_start :
    (n : ℕ) (buf : List ℕ) (off : ℕ)
    → n ≤ 64
    → extract_loop n buf off 0 ≡ (value_read buf off n, off + n)
extract_loop_start n buf off h =
    let none_left : off + (n - 64) ≡ off = omega arith in
    let all_read : min n 64 ≡ n = omega arith in
    let nothing : 0 * 2 ^ n ≡ 0 = omega arith in
    let sum : 0 + read_bits buf off n ≡ read_bits buf off n = omega arith in
    rw (none_left, all_read) (rw (nothing, sum) at (extract_loop_low n buf off 0 h))

extract_loop_lem :
    (n : ℕ) (buf : List ℕ) (off : ℕ) → extract_loop n buf off 0 ≡ (value_read buf off n, off + n)
extract_loop_lem zero buf off = extract_loop_start 0 buf off (omega arith)
extract_loop_lem (suc i) buf off = elim (Bool-cases (leb (suc i) 64)) [
  | inl low ↦ extract_loop_start (suc i) buf off (leb→le (suc i) 64 low)
  | inr high ↦
      rw (extract_loop-suc i buf off 0, extract_bit_high buf off 0 i (ground arith))
        (extract_loop_lem i buf (off + 1)
          ∙ ap₂ (λ (x y : ℕ). (x, y))
              (ap₂ (λ (o w : ℕ). read_bits buf o w) (ground arith) (ground arith)) (omega arith))
]

-- `extractBits` reads, of the `n` bits from the offset on, the number that the last 64 spell, with
-- 0 for each bit past the end of the buffer, and moves the offset by `n`.
pub extract_bits_lem :
    (buf : List ℕ) (off n : ℕ)
    → n < 2 ^ 31
    → extract_bits buf off n ≡ (value_read buf off n, off + n)
unfolding extract_bits rounds
extract_bits_lem buf off n h = rw (lt→ltb n (2 ^ 31) h) (extract_loop_lem n buf off)

extract-appended :
    (final buf : List ℕ) (off v n : ℕ)
    → v < 2 ^ 64
    → n < 2 ^ 31
    → IsAppended buf off v n (append_bits buf off v n)
    → ((k : ℕ) → off ≤ k → k < off + n → bit_at final k ≡ bit_at (append_bits buf off v n).0 k)
    → extract_bits final off n ≡ (v % 2 ^ min n 64, off + n)
extract-appended final buf off v n hv hn done same =
    extract_bits_lem final off n hn
    ∙ ap (λ (t : ℕ). (t, off + n)) (read_bits_digits (min n 64) final (off + (n - 64)) v digits)
  where
    digits :
        (j : ℕ) → j < min n 64 → bit_at final (off + (n - 64) + j) ≡ v / 2 ^ (min n 64 - 1 - j) % 2
    digits j h =
        same (off + (n - 64) + j) (omega arith) (omega arith)
        ∙ ap (λ (t : ℕ). bit_at (append_bits buf off v n).0 t) (omega arith)
        ∙ done.wrote (n - 64 + j) (omega arith)
        ∙ ap (λ (t : ℕ). v / 2 ^ t % 2) (omega arith)

-- What `appendBits` has written of a 64-bit word, in a width below 2 ^ 31, at the end of a packed
-- buffer, `extractBits` reads back there from any buffer with the same bits in that place: the
-- value as far as the field and a 64-bit word hold it.
pub extract-append_bits :
    (final buf : List ℕ) (off v n : ℕ)
    → v < 2 ^ 64
    → n < 2 ^ 31
    → IsPacked buf off
    → ((k : ℕ) → off ≤ k → k < off + n → bit_at final k ≡ bit_at (append_bits buf off v n).0 k)
    → extract_bits final off n ≡ (v % 2 ^ min n 64, off + n)
extract-append_bits final buf off v n hv hn packed same =
    extract-appended final buf off v n hv hn (append_bits-IsAppended buf off v n hv hn packed) same
