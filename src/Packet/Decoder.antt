-- ===== src/Packet/Decoder.antt =====
-- `PacketDecoder` (traffic-gen/inc/tsn/packet_decoder.h, traffic-gen/src/packet_decoder.cpp). Its
-- warnings are left out. `size_t` sums of declared widths stay far below 2 ^ 64 and are plain.
use tsn_gen.Prelude.{
  Text, ℕ, ◌+◌, ◌-◌, ◌*◌, ◌/◌, min, ltb, ◌==◌, List, [], ◌∷◌, ◌++◌, none, some, if◌then◌else◌,
  length, take, drop,
}
use tsn_gen.Database.{Database, get_element}
use tsn_gen.Bits.{extract_bits}
use tsn_gen.Packet.{Var, ProtocolInterface, FieldValue, BuiltPacket, short_name}

-- The bytes of the input that belong to the layer.
abbrev pub slice : List ℕ → ℕ → ℕ → List ℕ
slice bytes byte_offset layer_len =
    let end = min (byte_offset + layer_len) (length bytes) in
    if ltb byte_offset end then take (end - byte_offset) (drop byte_offset bytes) else []

module _ (var_db : Database Var) where
  unfoldable pub total_bits : List Text → ℕ → ℕ
  total_bits [] total = total
  total_bits (ref ∷ refs) total =
      total_bits refs (elim (get_element ref var_db) [ some var ↦ total + var.size | none ↦ total ])

  unfoldable pub layer_bytes : ProtocolInterface → ℕ
  unfolding total_bits
  layer_bytes iface = (total_bits iface.var_refs 0 + 7) / 8

  -- One round of `decode`: the offset and the fields so far.
  unfoldable pub decode_round : List ℕ → Text → ℕ × List FieldValue → ℕ × List FieldValue
  decode_round bytes ref (bit_offset, fields) = elim (get_element ref var_db) [
    | none ↦ (bit_offset, fields)
    | some var ↦
        if var.size == 0
        then (bit_offset, fields)
        else let (value, bit_offset') = extract_bits bytes bit_offset var.size in
          (bit_offset', fields ++ (short_name ref, value) ∷ [])
  ]

  unfoldable pub decode_loop : List ℕ → List Text → ℕ × List FieldValue → ℕ × List FieldValue
  decode_loop bytes [] d = d
  decode_loop bytes (ref ∷ refs) d = decode_loop bytes refs (decode_round bytes ref d)

  unfoldable pub decode : ProtocolInterface → List ℕ → ℕ → BuiltPacket
  unfolding decode_loop decode_round layer_bytes
  decode iface bytes byte_offset = record {
    bytes = slice bytes byte_offset (layer_bytes iface);
    fields = (decode_loop bytes iface.var_refs (byte_offset * 8, [])).1;
  }
