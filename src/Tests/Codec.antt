-- ===== src/Tests/Codec.antt =====
-- Examples of the bits, the packets, the database and the hexadecimal text.
use native.Mathlib.Nat.{mod-eq_of_lt}
use tsn_gen.Prelude.{
  Text, codes, text_lt, ℕ, ◌+◌, ◌-◌, ◌%◌, ◌^◌, min, ◌≡◌, refl, arith, List, [], ◌∷◌, All, length,
  true, ◌&&◌, ◌||◌, ◌==◌,
}
use tsn_gen.Database.Laws.{IsSorted}
use tsn_gen.Bits.{append_bits, extract_bits}
use tsn_gen.Bits.Append.{IsAppended, append_bits-IsAppended, empty-IsPacked}
use tsn_gen.Bits.Extract.{extract-append_bits}
use tsn_gen.Hex.{to_hex, from_hex, is_hex, is_space}
use tsn_gen.Hex.Laws.{from_hex-to_hex, from_hex_pair}
use tsn_gen.Packet.{Field}
use tsn_gen.Packet.Builder.{build_with_fields, build_with_overrides, pick_value}
use tsn_gen.Packet.Decoder.{layer_bytes}
use tsn_gen.Packet.Layout.{layout}
use tsn_gen.Packet.Laws.{IsRecovered, length-build_with_overrides, decode-build_with_overrides}
use tsn_gen.Packet.Values.Allowed.{Obeys, apply_mask-Fits}
use tsn_gen.Packet.Values.Drawn.{DrawsAll, Obeys-pick_value}
use tsn_gen.Packet.Values.Given.{Picks, Choosable}
use tsn_gen.Packet.Values.Constraints.{
  pick_value-Obeys, build_with_fields-Picks, build_with_overrides-Picks,
}
use tsn_gen.Packet.Wire.{IsField}
use tsn_gen.Tests.{counter, level, flags, vars, vars-AllVars, head, tail, a_field}

abbrev given : List (Text × ℕ)
given = (codes "level", 4099) ∷ []

decode-build_with_overrides_example :
    IsRecovered counter head vars
      (build_with_overrides counter head vars given 7).0
      (1 ∷ [])
      (9 ∷ [])
decode-build_with_overrides_example =
    decode-build_with_overrides counter head vars given 7 vars-AllVars (omega arith, tt) (1 ∷ [])
      (9 ∷ [])

length-build_with_overrides_example :
    length (build_with_overrides counter head vars given 7).0.bytes ≡ layer_bytes vars head
length-build_with_overrides_example =
    length-build_with_overrides counter head vars given 7 vars-AllVars (omega arith, tt)

build_with_fields-Picks_example :
    Picks
      (λ name. Obeys)
      (layout vars tail.var_refs)
      (build_with_fields counter tail vars 5).0.fields
build_with_fields-Picks_example = build_with_fields-Picks counter vars tail 5

build_with_overrides-Picks_example :
    Picks
      (Choosable given)
      (layout vars head.var_refs)
      (build_with_overrides counter head vars given 7).0.fields
build_with_overrides-Picks_example = build_with_overrides-Picks counter vars head 7 given

pick_value-Obeys_example : Obeys level (pick_value counter level 11).0
pick_value-Obeys_example = pick_value-Obeys counter level 11

counter-DrawsAll : DrawsAll counter
counter-DrawsAll lo hi v above below word =
    let small : (v - lo) % (hi - lo + 1) ≡ v - lo = mod-eq_of_lt (omega arith) in
    (v - lo, omega (arith, small))

-- The mask of this var keeps the bits 64 and 16 of 85.
Obeys-pick_value_example : (rng : ℕ) × ((pick_value counter flags rng).0 ≡ 80)
Obeys-pick_value_example =
    Obeys-pick_value counter counter-DrawsAll flags 80
      (record { size = omega arith; expected = tt; range = tt; mask = omega arith }) (omega arith)
      (apply_mask-Fits flags 85 (omega arith))

append_bits-IsAppended_example : IsAppended [] 0 5 12 (append_bits [] 0 5 12)
append_bits-IsAppended_example =
    append_bits-IsAppended [] 0 5 12 (omega arith) (omega arith) empty-IsPacked

extract-append_bits_example :
    extract_bits (append_bits [] 0 300 8).0 0 8 ≡ (300 % 2 ^ min 8 64, 0 + 8)
extract-append_bits_example =
    extract-append_bits (append_bits [] 0 300 8).0 [] 0 300 8 (omega arith) (omega arith)
      empty-IsPacked (λ k lo hi. refl)

abbrev two_fields : List Field
two_fields = a_field (codes "x") 300 8 ∷ a_field (codes "y") 5 4 ∷ []

two_fields-IsField : All IsField two_fields
two_fields-IsField = (
  record { value = omega arith; bits = omega arith },
  (record { value = omega arith; bits = omega arith }, tt),
)

vars-IsSorted : IsSorted vars.internal_maps
unfolding text_lt
vars-IsSorted = ((refl, (refl, tt)), ((refl, tt), (tt, tt)))

from_hex-to_hex_example : from_hex (to_hex (0 ∷ 171 ∷ 16 ∷ [])) (3 ∷ []) ≡ (true, 0 ∷ 171 ∷ 16 ∷ [])
from_hex-to_hex_example =
    from_hex-to_hex (0 ∷ 171 ∷ 16 ∷ []) (3 ∷ []) (omega arith, (omega arith, (omega arith, tt)))

from_hex_pair_example :
    (from_hex (b'-' ∷ b'1' ∷ []) []).0
    ≡ (is_hex b'1' && (is_hex b'-' || is_space b'-' || b'-' == b'+' || b'-' == b'-'))
from_hex_pair_example = from_hex_pair b'-' b'1' (omega arith) (omega arith)
