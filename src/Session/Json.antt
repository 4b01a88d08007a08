-- ===== src/Session/Json.antt =====
-- `Session::toJson` of a packet, of a stacked packet and of a chain (traffic-gen/src/session.cpp), with
-- `std::to_string` of a 64-bit word: 20 digits are enough.

use tsn_gen.Prelude.{
  Text, codes, ℕ, zero, suc, ◌+◌, ◌/◌, ◌%◌, ltb, Bool, true, false, List, [], ◌∷◌, ◌++◌,
  if◌then◌else◌,
}
use tsn_gen.Hex.{to_hex}
use tsn_gen.Packet.{FieldValue, BuiltPacket}
use tsn_gen.Session.{Layer, StackedPacket}

unfoldable pub decimal : ℕ → ℕ → Text
decimal zero n = []
decimal (suc fuel) n =
    if ltb n 10 then (48 + n) ∷ [] else decimal fuel (n / 10) ++ (48 + n % 10) ∷ []

unfoldable pub to_string : ℕ → Text
unfolding decimal
to_string n = decimal 20 n

abbrev quote : Text
quote = b'"' ∷ []

-- The loop over the fields; a comma stands before each but the first.
unfoldable pub json_fields : List FieldValue → Bool → Text
unfolding to_string
json_fields [] first = []
json_fields ((name, value) ∷ fs) first =
    (if first then [] else codes ",")
    ++ quote
    ++ name
    ++ quote
    ++ codes ":"
    ++ to_string value
    ++ json_fields fs false

-- A packet without its opening brace, which `substr(1)` takes off in a chain.
unfoldable pub json_tail : BuiltPacket → Text
unfolding json_fields
json_tail pkt =
    quote
    ++ codes "fields"
    ++ quote
    ++ codes ":{"
    ++ json_fields pkt.fields true
    ++ codes "},"
    ++ quote
    ++ codes "hex"
    ++ quote
    ++ codes ":"
    ++ quote
    ++ to_hex pkt.bytes
    ++ quote
    ++ codes "}"

unfoldable pub json_packet : BuiltPacket → Text
unfolding json_tail
json_packet pkt = codes "{" ++ json_tail pkt

unfoldable pub json_layers : List Layer → Bool → Text
unfolding json_tail
json_layers [] first = []
json_layers ((name, pkt) ∷ layers) first =
    (if first then [] else codes ",")
    ++ codes "{"
    ++ quote
    ++ codes "iface"
    ++ quote
    ++ codes ":"
    ++ quote
    ++ name
    ++ quote
    ++ codes ","
    ++ json_tail pkt
    ++ json_layers layers false

unfoldable pub json_chain : List Layer → Text
unfolding json_layers
json_chain chain = codes "[" ++ json_layers chain true ++ codes "]"

unfoldable pub json_stacked : StackedPacket → Text
unfolding json_chain
json_stacked pkt =
    codes "{"
    ++ quote
    ++ codes "hex"
    ++ quote
    ++ codes ":"
    ++ quote
    ++ to_hex pkt.bytes
    ++ quote
    ++ codes ","
    ++ quote
    ++ codes "layers"
    ++ quote
    ++ codes ":"
    ++ json_chain pkt.layers
    ++ codes "}"
