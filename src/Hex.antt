-- ===== src/Hex.antt =====
-- `Session::toHex` and `Session::fromHex` (traffic-gen/src/session.cpp), with the C library's
-- `strtoul` in base 16 as far as two characters reach: white space, a sign, the prefix 0x, digits.
pub mod Laws
use tsn_gen.Prelude.{
  Text, codes, ℕ, ◌+◌, ◌-◌, ◌*◌, ◌/◌, ◌%◌, ◌^◌, ◌==◌, leb, Bool, true, false, not, ◌&&◌, ◌||◌, List,
  [], ◌∷◌, ◌++◌, Option, none, some, if◌then◌else◌, length, get_or,
}
use tsn_gen.Bits.{u8, u64}

abbrev k_hex : Text
k_hex = codes "0123456789abcdef"

pub to_hex : List ℕ → Text
to_hex [] = []
to_hex (byte ∷ bytes) = get_or k_hex (byte / 16) 0 ∷ get_or k_hex (byte % 16) 0 ∷ to_hex bytes

abbrev within : ℕ → ℕ → ℕ → Bool
within lo hi c = leb lo c && leb c hi

-- The value of a hexadecimal digit.
unfoldable pub hex_digit : ℕ → Option ℕ
hex_digit c =
    if within b'0' b'9' c
    then some (c - b'0')
    else if within b'a' b'f' c
    then some (c - b'a' + 10)
    else if within b'A' b'F' c
    then some (c - b'A' + 10)
    else none

abbrev pub is_hex : ℕ → Bool
is_hex c = elim (hex_digit c) [ some d ↦ true | none ↦ false ]

-- The C locale's `isspace`.
abbrev pub is_space : ℕ → Bool
is_space c = c == b' ' || within 9 13 c

-- The value of the digits at the head and the number of characters passed.
digits : Text → ℕ → ℕ → ℕ × ℕ
digits [] value count = (value, count)
digits (c ∷ s) value count = elim (hex_digit c) [
  | some d ↦ digits s (value * 16 + d) (count + 1)
  | none ↦ (value, count)
]

-- A prefix 0x counts only before a digit.
number : Text → ℕ × ℕ
unfolding digits
number (o ∷ x ∷ c ∷ s) =
    if o == b'0' && (x == b'x' || x == b'X') && is_hex c
    then digits (c ∷ s) 0 2
    else digits (o ∷ x ∷ c ∷ s) 0 0
number s = digits s 0 0

-- Where no digit follows, nothing is consumed. A minus sign negates the unsigned value.
signed : Text → ℕ × ℕ
unfolding number
signed [] = (0, 0)
signed (c ∷ s) =
    let (value, count) = number s in
    if c == b'+'
    then (if count == 0 then (0, 0) else (value, count + 1))
    else if c == b'-'
    then (if count == 0 then (0, 0) else (u64 (2 ^ 64 - value), count + 1))
    else number (c ∷ s)

-- `strtoul(s, &end, 16)`: the value and `end - s`.
pub strtoul : Text → ℕ × ℕ
unfolding signed
strtoul [] = (0, 0)
strtoul (c ∷ s) =
    let (value, count) = strtoul s in
    if is_space c then (if count == 0 then (0, 0) else (value, count + 1)) else signed (c ∷ s)

-- The loop over pairs of characters: the answer, and `out` after it. `strtoul` is handed the two
-- characters up to a NUL.
abbrev pub c_str : Text → Text
c_str [] = []
c_str (c ∷ s) = if c == 0 then [] else c ∷ c_str s

pub from_hex_loop : Text → List ℕ → Bool × List ℕ
unfolding strtoul
from_hex_loop (c ∷ d ∷ s) out =
    let (value, count) = strtoul (c_str (c ∷ d ∷ [])) in
    let rest = from_hex_loop s (out ++ u8 value ∷ []) in if count == 2 then rest else (false, out)
from_hex_loop s out = (true, out)

-- `out` is left alone if the length is odd.
pub from_hex : Text → List ℕ → Bool × List ℕ
unfolding from_hex_loop
from_hex hex out = if length hex % 2 == 0 then from_hex_loop hex [] else (false, out)
