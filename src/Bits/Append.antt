-- ===== src/Bits/Append.antt =====
-- `appendBits` bit by bit: what it writes, what it leaves alone, and how long the buffer gets.
use native.Mathlib.Nat.{pow-le-pow_right, zero-div}
use tsn_gen.Prelude.{
  ℕ, zero, suc, ◌+◌, ◌-◌, ◌*◌, ◌/◌, ◌%◌, ◌^◌, ◌≤◌, ◌<◌, bit_or, ◌≡◌, refl, sym, subst, arith,
  ltb→lt, lt→ltb, leb→le, ◌⊎◌, ◌∙◌, ap, true, false, List, [], ◌∷◌, ◌++◌, ltb, leb, ◌==◌,
  if◌then◌else◌, length, get_or, set, length-set, length-append, get_or-set_self, get_or-set_ne,
  get_or-beyond, get_or-append_left, get_or-append_right, Bool-cases, inl, inr, ==_iff,
}
use tsn_gen.Bits.{u8, rounds, value_bit, grow, append_bit, append_loop, append_bits}
use tsn_gen.Bits.Digits.{bit_or-zero}
use tsn_gen.Bits.Word.{bit_or_bit, bit_or_bit-lt, high_bit_zero}

-- Bit `k` of a buffer, the most significant bit of each byte first; 0 past the end.
abbrev pub bit_at : List ℕ → ℕ → ℕ
bit_at buf k = get_or buf (k / 8) 0 / 2 ^ (7 - k % 8) % 2

-- The buffer holds bytes, is as long as `bit_offset` bits need, and is blank from there on.
pub record IsPacked (buf : List ℕ) (bit_offset : ℕ) : Type 0 where
  pub bytes : (j : ℕ) → get_or buf j 0 < 256
  pub size : (bit_offset ≤ length buf * 8) × (length buf * 8 < bit_offset + 8)
  pub blank : (k : ℕ) → bit_offset ≤ k → bit_at buf k ≡ 0

-- One byte with a bit put at place `p`.
mark : ℕ → ℕ → ℕ → ℕ
mark b p bit = u8 (bit_or b (u8 (bit * 2 ^ p)))

two-pow-le : (p : ℕ) → p < 8 → 2 ^ p ≤ 128
two-pow-le p h = pow-le-pow_right {n = 2} (omega arith) {i = p} {j = 7} (omega arith)

mark_zero : (b p : ℕ) → b < 256 → mark b p 0 ≡ b
unfolding mark
mark_zero b p h =
    let none_set : u8 (0 * 2 ^ p) ≡ 0 = omega arith in rw (none_set, bit_or-zero b) (omega arith)

mark_one : (b p : ℕ) → b < 256 → p < 8 → mark b p 1 ≡ bit_or b (2 ^ p)
unfolding mark
mark_one b p hb hp =
    let small : u8 (1 * 2 ^ p) ≡ 2 ^ p = omega (arith, two-pow-le p hp) in
    rw small (omega (arith, bit_or_bit-lt b p hb hp))

mark-lt : (b p bit : ℕ) → mark b p bit < 256
unfolding mark
mark-lt b p bit = omega arith

mark_bit :
    (b p bit q : ℕ)
    → b < 256
    → p < 8
    → q < 8
    → bit < 2
    → b / 2 ^ p % 2 ≡ 0
    → mark b p bit / 2 ^ q % 2 ≡ (if p == q then bit else b / 2 ^ q % 2)
mark_bit b p zero q hb hp hq h e = rw (mark_zero b p hb) (unchanged (Bool-cases (p == q)))
  where
    unchanged :
        ((p == q) ≡ true) ⊎ ((p == q) ≡ false)
        → b / 2 ^ q % 2 ≡ (if p == q then 0 else b / 2 ^ q % 2)
    unchanged (inl s) = rw s (subst (λ t. b / 2 ^ t % 2 ≡ 0) ((==_iff p q).0 s) e)
    unchanged (inr n) = rw n
mark_bit b p (suc zero) q hb hp hq h e = rw (mark_one b p hb hp) (bit_or_bit b p q hb hp hq)
mark_bit b p (suc (suc n)) q hb hp hq h e = absurd (omega arith)

value_bit-lt : (v i : ℕ) → value_bit v i < 2
value_bit-lt v i = ground arith

get_or-grow : (buf : List ℕ) (i j : ℕ) → get_or (grow buf i) j 0 ≡ get_or buf j 0
get_or-grow buf i j = elim (Bool-cases (leb (length buf) i)) [
  | inr room ↦ rw room
  | inl full ↦ rw full (elim (Bool-cases (ltb j (length buf))) [
    | inl old ↦ get_or-append_left buf (0 ∷ []) j 0 (ltb→lt _ _ old)
    | inr new ↦ past (ground arith)
  ])
]
  where
    blank : (k : ℕ) → get_or {A = ℕ} (0 ∷ []) k 0 ≡ 0
    blank zero = refl
    blank (suc k) = refl

    past : length buf ≤ j → get_or (buf ++ 0 ∷ []) j 0 ≡ get_or buf j 0
    past h =
        get_or-append_right buf (0 ∷ []) j (j - length buf) 0 (omega arith)
        ∙ blank (j - length buf)
        ∙ sym (get_or-beyond buf j 0 h)

append_bit-mark :
    (buf : List ℕ) (off v i : ℕ)
    → append_bit buf off v i
      ≡ set
          (grow buf (off / 8))
          (off / 8)
          (mark (get_or buf (off / 8) 0) (7 - off % 8) (value_bit v i))
unfolding append_bit mark
append_bit-mark buf off v i = rw (get_or-grow buf (off / 8) (off / 8))

length-grow :
    {buf : List ℕ} {off : ℕ} → IsPacked buf off → length (grow buf (off / 8)) ≡ off / 8 + 1
length-grow {buf} {off} packed = elim (Bool-cases (leb (length buf) (off / 8))) [
  | inl full ↦ rw (full, length-append) (omega (arith, leb→le _ _ full))
  | inr room ↦ rw room (ground arith)
]

module _ {buf : List ℕ} {off : ℕ} (packed : IsPacked buf off) (v i : ℕ) where
  written : ℕ
  written = mark (get_or buf (off / 8) 0) (7 - off % 8) (value_bit v i)

  length-append_bit : length (append_bit buf off v i) ≡ off / 8 + 1
  length-append_bit = rw (append_bit-mark buf off v i, length-set) (length-grow packed)

  get_or-append_bit :
      (j : ℕ)
      → get_or (append_bit buf off v i) j 0 ≡ (if off / 8 == j then written else get_or buf j 0)
  unfolding written
  get_or-append_bit j = rw (append_bit-mark buf off v i) (elim (Bool-cases (off / 8 == j)) [
    | inl here ↦
        let e = (==_iff (off / 8) j).0 here in
        rw here (
          subst (λ k. get_or (set (grow buf (off / 8)) (off / 8) written) k 0 ≡ written) e
            (get_or-set_self (grow buf (off / 8)) (off / 8) written 0
              (omega (arith, length-grow packed))))
    | inr away ↦ rw away (
        get_or-set_ne (grow buf (off / 8)) (off / 8) j written 0 (ground arith)
        ∙ get_or-grow buf (off / 8) j)
  ])

  -- One round sets the bit at the offset, and no other.
  bit_at-append_bit :
      (k : ℕ)
      → bit_at (append_bit buf off v i) k ≡ (if off == k then value_bit v i else bit_at buf k)
  unfolding written
  bit_at-append_bit k = rw (get_or-append_bit (k / 8)) (elim (Bool-cases (off / 8 == k / 8)) [
    | inr away ↦ rw away (ground arith)
    | inl here ↦
        let e = (==_iff (off / 8) (k / 8)).0 here in
        rw here (
          ground (
            arith,
            mark_bit (get_or buf (off / 8) 0) (7 - off % 8) (value_bit v i) (7 - k % 8)
                (packed.bytes (off / 8)) (omega arith) (omega arith) (value_bit-lt v i)
                (packed.blank off (omega arith)),
            ap (λ (t : ℕ). get_or buf t 0 / 2 ^ (7 - k % 8) % 2) e,
          ))
  ])

  append_bit-IsPacked : IsPacked (append_bit buf off v i) (off + 1)
  unfolding written
  append_bit-IsPacked = record {
    bytes = λ j. rw (get_or-append_bit j) (
        ground
          (arith, packed.bytes j, mark-lt (get_or buf (off / 8) 0) (7 - off % 8) (value_bit v i)));
    size = omega (arith, length-append_bit);
    blank = λ k h. rw (bit_at-append_bit k) (ground (arith, packed.blank k));
  }

value_bit_word : (v i : ℕ) → v < 2 ^ 64 → value_bit v i ≡ v / 2 ^ i % 2
value_bit_word v i h = elim (Bool-cases (ltb i 64)) [
  | inl low ↦ rw low
  | inr high ↦ rw (high, high_bit_zero v 64 i h (ground arith))
]

-- What a call that appends the `n` low bits of `v` at `off` does to a packed buffer.
pub record IsAppended (buf : List ℕ) (off v n : ℕ) (result : List ℕ × ℕ) : Type 0 where
  pub offset : result.1 ≡ off + n
  pub packed : IsPacked result.0 (off + n)
  pub kept : (k : ℕ) → k < off → bit_at result.0 k ≡ bit_at buf k
  pub wrote : (j : ℕ) → j < n → bit_at result.0 (off + j) ≡ v / 2 ^ (n - 1 - j) % 2

IsAppended-suc :
    (buf : List ℕ) (off v i : ℕ) (result : List ℕ × ℕ)
    → v < 2 ^ 64
    → IsPacked buf off
    → IsAppended (append_bit buf off v i) (off + 1) v i result
    → IsAppended buf off v (suc i) result
IsAppended-suc buf off v i result h packed rest = record {
  offset = omega (arith, rest.offset);
  packed = subst (IsPacked result.0) (omega arith) rest.packed;
  kept = λ k lt. ground (arith, rest.kept k, bit_at-append_bit packed v i k);
  wrote = wrote;
}
  where
    wrote : (j : ℕ) → j < suc i → bit_at result.0 (off + j) ≡ v / 2 ^ (suc i - 1 - j) % 2
    wrote zero lt =
        ap (λ (t : ℕ). bit_at result.0 t) (omega arith)
        ∙ rest.kept off (omega arith)
        ∙ ground (arith, bit_at-append_bit packed v i off)
        ∙ value_bit_word v i h
        ∙ ap (λ (t : ℕ). v / 2 ^ t % 2) (omega arith)
    wrote (suc j) lt =
        ap (λ (t : ℕ). bit_at result.0 t) (omega arith)
        ∙ rest.wrote j (omega arith)
        ∙ ap (λ (t : ℕ). v / 2 ^ t % 2) (omega arith)

append_loop-IsAppended :
    (n : ℕ) (buf : List ℕ) (off v : ℕ)
    → v < 2 ^ 64
    → IsPacked buf off
    → IsAppended buf off v n (append_loop n buf off v)
unfolding append_loop
append_loop-IsAppended zero buf off v h packed = record {
  offset = omega arith;
  packed = subst (IsPacked buf) (omega arith) packed;
  kept = λ k lt. refl;
  wrote = λ j lt. absurd (omega arith);
}
append_loop-IsAppended (suc i) buf off v h packed = IsAppended-suc buf off v i _ h packed (
    append_loop-IsAppended i (append_bit buf off v i) (off + 1) v h
      (append_bit-IsPacked packed v i))

-- `appendBits` of a 64-bit word, in a width below 2 ^ 31, at the end of a packed buffer moves the
-- offset by the width, writes the low bits of the value there, the most significant first, leaves
-- all earlier bits alone, and keeps the buffer packed.
pub append_bits-IsAppended :
    (buf : List ℕ) (off v n : ℕ)
    → v < 2 ^ 64
    → n < 2 ^ 31
    → IsPacked buf off
    → IsAppended buf off v n (append_bits buf off v n)
unfolding append_bits rounds
append_bits-IsAppended buf off v n h w packed =
    rw (lt→ltb n (2 ^ 31) w) (append_loop-IsAppended n buf off v h packed)

pub empty-IsPacked : IsPacked [] 0
empty-IsPacked = record {
  bytes = λ j. omega arith;
  size = (omega arith, omega arith);
  blank = λ k h. rw zero-div;
}
