-- ===== src/Hex/Laws.antt =====
-- `fromHex` undoes `toHex`; which pairs of characters it takes.
use tsn_gen.Prelude.{
  ℕ, ◌*◌, ◌/◌, ◌%◌, ◌<◌, ◌≡◌, refl, sym, arith, ◌∙◌, ap, Bool, true, false, not, ◌&&◌, ◌||◌, ◌==◌,
  List, [], ◌∷◌, ◌++◌, if◌then◌else◌, length, get_or, All, append_assoc, append-nil,
}
use tsn_gen.Bits.{u8}
use tsn_gen.Hex.{
  k_hex, to_hex, hex_digit, is_hex, is_space, strtoul, c_str, from_hex_loop, from_hex,
}
use tsn_gen.Bits.Word.{all_below, all_below_sound}

-- The pair of characters that stand for a byte, checked for every byte.
abbrev pair_test : ℕ → Bool
pair_test b =
    let r = strtoul (c_str (get_or k_hex (b / 16) 0 ∷ get_or k_hex (b % 16) 0 ∷ [])) in
    r.0 == b && r.1 == 2

pair_table : all_below 256 pair_test ≡ true
unfolding all_below strtoul hex_digit
pair_table = refl

pair_value :
    (b : ℕ)
    → b < 256
    → strtoul (c_str (get_or k_hex (b / 16) 0 ∷ get_or k_hex (b % 16) 0 ∷ [])) ≡ (b, 2)
pair_value b h = ground (arith, all_below_sound pair_test 256 b h pair_table)

digit_value : (b : ℕ) → b < 256 → u8 b ≡ b
digit_value b h = omega arith

length-to_hex : (bytes : List ℕ) → length (to_hex bytes) ≡ 2 * length bytes
unfolding to_hex
length-to_hex [] = refl
length-to_hex (b ∷ bytes) = omega (arith, length-to_hex bytes)

from_hex_loop-to_hex :
    (bytes out : List ℕ)
    → All (λ b. b < 256) bytes
    → from_hex_loop (to_hex bytes) out ≡ (true, out ++ bytes)
unfolding from_hex_loop to_hex
from_hex_loop-to_hex [] out h = ap (λ l. (true, l)) (sym (append-nil out))
from_hex_loop-to_hex (b ∷ bytes) out h =
    rw (pair_value b h.0, digit_value b h.0)
      (from_hex_loop-to_hex bytes (out ++ b ∷ []) h.1
        ∙ ap (λ l. (true, l)) (append_assoc out (b ∷ []) bytes))

-- `fromHex` gives back the bytes that `toHex` has printed, whatever the output held before.
pub from_hex-to_hex :
    (bytes out : List ℕ) → All (λ b. b < 256) bytes → from_hex (to_hex bytes) out ≡ (true, bytes)
unfolding from_hex
from_hex-to_hex bytes out h =
    let even : length (to_hex bytes) % 2 ≡ 0 = omega (arith, length-to_hex bytes) in
    rw even (from_hex_loop-to_hex bytes [] h)

-- The pairs of characters that are taken for a byte, checked for every pair.
abbrev taken : ℕ → ℕ → Bool
taken c d = is_hex d && (is_hex c || is_space c || c == b'+' || c == b'-')

abbrev agree : Bool → Bool → Bool
agree true b = b
agree false b = not b

abbrev taken_test : ℕ → ℕ → Bool
taken_test c d = let r = strtoul (c_str (c ∷ d ∷ [])) in agree (r.1 == 2) (taken c d)

taken_table : all_below 256 (λ c. all_below 256 (taken_test c)) ≡ true
unfolding all_below strtoul hex_digit
taken_table = refl

agree_sound : (a b : Bool) → agree a b ≡ true → a ≡ b
agree_sound true true h = refl
agree_sound true false h = sym h
agree_sound false true h = h
agree_sound false false h = refl

taken_lem : (c d : ℕ) → c < 256 → d < 256 → ((strtoul (c_str (c ∷ d ∷ []))).1 == 2) ≡ taken c d
taken_lem c d hc hd = agree_sound ((strtoul (c_str (c ∷ d ∷ []))).1 == 2) (taken c d) (
    all_below_sound (taken_test c) 256 d hd
      (all_below_sound (λ c. all_below 256 (taken_test c)) 256 c hc taken_table))

if_first :
    (b : Bool) → (l : List ℕ) → (if◌then◌else◌ {A = Bool × List ℕ} b (true, l) (false, [])).0 ≡ b
if_first true l = refl
if_first false l = refl

-- A pair of byte-sized characters is taken for a byte exactly if the second is a hexadecimal digit
-- and the first is one too, or white space, or a sign.
pub from_hex_pair :
    (c d : ℕ)
    → c < 256
    → d < 256
    → (from_hex (c ∷ d ∷ []) []).0
      ≡ (is_hex d && (is_hex c || is_space c || c == b'+' || c == b'-'))
unfolding from_hex
from_hex_pair c d hc hd =
    let r = strtoul (c_str (c ∷ d ∷ [])) in if_first (r.1 == 2) (u8 r.0 ∷ []) ∙ taken_lem c d hc hd
