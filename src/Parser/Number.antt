-- ===== src/Parser/Number.antt =====
-- `std::stoull` and `std::stoll` as the parsers call them, in base 0 (a prefix tells the base) or 10.
-- An exception, for a text without a number or a number out of range, is none.
use tsn_gen.Prelude.{
  Text, ℕ, ◌+◌, ◌-◌, ◌*◌, ◌%◌, ◌^◌, ◌<◌, ltb, leb, ◌==◌, ◌≡◌, arith, Bool, true, false, ◌&&◌, ◌||◌,
  [], ◌∷◌, Option, none, some, if◌then◌else◌, drop,
}
use tsn_gen.Hex.{hex_digit, is_hex, is_space}

pub data ℤ : Type 0 where
  pos : ℕ → ℤ
  negsuc : ℕ → ℤ

-- A number as it stands in a text: its sign, its magnitude and the characters up to its end.
pub record Scan : Type 0 where
  pub negative : Bool
  pub magnitude : ℕ
  pub count : ℕ

abbrev radix_digit : ℕ → ℕ → Option ℕ
radix_digit base c = elim (hex_digit c) [
  | some d ↦ if ltb d base then some d else none
  | none ↦ none
]

unfoldable pub radix_digits : ℕ → Text → ℕ → ℕ → ℕ × ℕ
radix_digits base [] value count = (value, count)
radix_digits base (c ∷ s) value count = elim (radix_digit base c) [
  | some d ↦ radix_digits base s (value * base + d) (count + 1)
  | none ↦ (value, count)
]

-- A prefix 0x before a digit, where the base is open.
unfoldable pub has_prefix : ℕ → Text → Bool
has_prefix base (o ∷ x ∷ c ∷ s) = base == 0 && o == b'0' && (x == b'x' || x == b'X') && is_hex c
has_prefix base s = false

unfoldable pub radix : ℕ → Text → ℕ
radix base [] = if base == 0 then 10 else base
radix base (c ∷ s) = if base == 0 then (if c == b'0' then 8 else 10) else base

unfoldable pub scan_number : ℕ → Text → ℕ × ℕ
unfolding has_prefix radix radix_digits
scan_number base s =
    if has_prefix base s then radix_digits 16 (drop 2 s) 0 2 else radix_digits (radix base s) s 0 0

-- The sign is looked for after white space. None if no digit follows.
unfoldable pub scan_sign : ℕ → Text → ℕ → Option Scan
unfolding scan_number
scan_sign base [] skipped = none
scan_sign base (c ∷ s) skipped =
    let sign = c == b'-' || c == b'+' in
    let (magnitude, count) = scan_number base (if sign then s else c ∷ s) in
    if count == 0
    then none
    else some (record {
      negative = c == b'-';
      magnitude = magnitude;
      count = skipped + (if sign then 1 else 0) + count;
    })

unfoldable pub scan : ℕ → Text → ℕ → Option Scan
scan base [] skipped = none
scan base (c ∷ s) skipped =
    let rest = scan base s (skipped + 1) in
    if is_space c then rest else scan_sign base (c ∷ s) skipped

-- The value of an unsigned conversion: a minus sign negates modulo 2 ^ 64.
abbrev unsigned : Scan → Option (ℕ × ℕ)
unsigned n =
    if ltb n.magnitude (2 ^ 64)
    then some ((if n.negative then (2 ^ 64 - n.magnitude) % 2 ^ 64 else n.magnitude), n.count)
    else none

abbrev to_ℤ : Bool → ℕ → ℤ
to_ℤ false m = pos m
to_ℤ true m = if m == 0 then pos 0 else negsuc (m - 1)

abbrev signed : Scan → Option ℤ
signed n =
    if leb n.magnitude (if n.negative then 2 ^ 63 else 2 ^ 63 - 1)
    then some (to_ℤ n.negative n.magnitude)
    else none

-- The value and the characters that were taken.
unfoldable pub stoull : ℕ → Text → Option (ℕ × ℕ)
unfolding scan scan_sign
stoull base s = elim (scan base s 0) [ none ↦ none | some n ↦ unsigned n ]

unfoldable pub stoll : ℕ → Text → Option ℤ
unfolding scan scan_sign
stoll base s = elim (scan base s 0) [ none ↦ none | some n ↦ signed n ]

unsigned-lt :
    (negative : Bool) (m count : ℕ) {v k : ℕ}
    → unsigned (record { negative = negative; magnitude = m; count = count }) ≡ some (v, k)
    → v < 2 ^ 64
unsigned-lt true m count h = ground arith
unsigned-lt false m count h = ground arith

-- What `stoull` returns is a 64-bit word.
pub stoull-lt : (base : ℕ) (s : Text) {v k : ℕ} → stoull base s ≡ some (v, k) → v < 2 ^ 64
unfolding stoull
stoull-lt base s h = go (scan base s 0) h
  where
    go :
        (o : Option Scan) {v k : ℕ}
        → (elim o as (λ x. Option (ℕ × ℕ)) [ none ↦ none | some n ↦ unsigned n ]) ≡ some (v, k)
        → v < 2 ^ 64
    go none h = cc
    go (some n) h = unsigned-lt n.negative n.magnitude n.count h

unsigned-signed :
    (negative : Bool) (m count : ℕ) {v : ℕ}
    → signed (record { negative = negative; magnitude = m; count = count }) ≡ some (pos v)
    → 0 < v
    → unsigned (record { negative = negative; magnitude = m; count = count }) ≡ some (v, count)
unsigned-signed true m count h p = ground arith
unsigned-signed false m count h p = ground arith

-- Where `stoll` reads a positive number, `stoull` reads the same one.
pub stoull-stoll :
    (base : ℕ) (s : Text) {v : ℕ}
    → stoll base s ≡ some (pos v)
    → 0 < v
    → (k : ℕ) × (stoull base s ≡ some (v, k))
unfolding stoull stoll
stoull-stoll base s {v} h p = go (scan base s 0) h
  where
    go :
        (o : Option Scan)
        → (elim o as (λ x. Option ℤ) [ none ↦ none | some n ↦ signed n ]) ≡ some (pos v)
        → (k : ℕ) × ((elim o as (λ x. Option (ℕ × ℕ)) [ none ↦ none | some n ↦ unsigned n ])
            ≡ some (v, k))
    go none h = cc
    go (some n) h = (n.count, unsigned-signed n.negative n.magnitude n.count h p)
