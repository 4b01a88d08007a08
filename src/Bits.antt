-- ===== src/Bits.antt =====
-- The bit loops of the codec: `PacketBuilder::appendBits`
-- (traffic-gen/src/packet_builder.cpp) and `PacketDecoder::extractBits`
-- (traffic-gen/src/packet_decoder.cpp). A buffer is the list of its bytes. A write past the byte
-- that the loop has just added would be out of bounds; `IsPacked` (Bits/Append) excludes it.
pub mod Digits
pub mod Word
pub mod Append
pub mod Extract
use tsn_gen.Prelude.{
  ℕ, zero, suc, ◌+◌, ◌-◌, ◌*◌, ◌/◌, ◌%◌, ◌^◌, bit_or, Bool, ◌&&◌, List, [], ◌∷◌, ◌++◌, ltb, leb,
  if◌then◌else◌, length, get_or, set,
}

abbrev pub u8 : ℕ → ℕ
u8 n = n % 2 ^ 8

abbrev pub u32 : ℕ → ℕ
u32 n = n % 2 ^ 32

abbrev pub u64 : ℕ → ℕ
u64 n = n % 2 ^ 64

-- The rounds of `for (int i = static_cast<int>(numBits) - 1; i >= 0; --i)`: a width that the cast
-- turns negative gives none.
unfoldable pub rounds : ℕ → ℕ
rounds num_bits = if ltb num_bits (2 ^ 31) then num_bits else 0

-- `(i < 64) ? (value >> i) & 1 : 0`.
abbrev pub value_bit : ℕ → ℕ → ℕ
value_bit value i = if ltb i 64 then value / 2 ^ i % 2 else 0

-- `if (byteIdx >= buf.size()) buf.push_back(0);`
abbrev pub grow : List ℕ → ℕ → List ℕ
grow buf byte_idx = if leb (length buf) byte_idx then buf ++ 0 ∷ [] else buf

-- One round of `appendBits`.
unfoldable pub append_bit : List ℕ → ℕ → ℕ → ℕ → List ℕ
append_bit buf bit_offset value i =
    let bit = value_bit value i in
    let byte_idx = bit_offset / 8 in
    let bit_in_byte = 7 - bit_offset % 8 in
    let grown = grow buf byte_idx in
    set grown byte_idx (u8 (bit_or (get_or grown byte_idx 0) (u8 (bit * 2 ^ bit_in_byte))))

-- The loop with `i + 1` rounds left.
unfoldable pub append_loop : ℕ → List ℕ → ℕ → ℕ → List ℕ × ℕ
append_loop zero buf bit_offset value = (buf, bit_offset)
append_loop (suc i) buf bit_offset value =
    append_loop i (append_bit buf bit_offset value i) (bit_offset + 1) value

-- The buffer and the offset after the call.
unfoldable pub append_bits : List ℕ → ℕ → ℕ → ℕ → List ℕ × ℕ
unfolding rounds append_loop append_bit
append_bits buf bit_offset value num_bits = append_loop (rounds num_bits) buf bit_offset value

-- One round of `extractBits`: the value read so far, with bit `i` added.
unfoldable pub extract_bit : List ℕ → ℕ → ℕ → ℕ → ℕ
extract_bit buf bit_offset value i =
    let byte_idx = bit_offset / 8 in
    let bit_in_byte = 7 - bit_offset % 8 in
    if ltb byte_idx (length buf) && ltb i 64
    then bit_or value (u64 (get_or buf byte_idx 0 / 2 ^ bit_in_byte % 2 * 2 ^ i))
    else value

unfoldable pub extract_loop : ℕ → List ℕ → ℕ → ℕ → ℕ × ℕ
extract_loop zero buf bit_offset value = (value, bit_offset)
extract_loop (suc i) buf bit_offset value =
    extract_loop i buf (bit_offset + 1) (extract_bit buf bit_offset value i)

-- The value and the offset after the call.
pub extract_bits : List ℕ → ℕ → ℕ → ℕ × ℕ
unfolding rounds extract_loop extract_bit
extract_bits buf bit_offset num_bits = extract_loop (rounds num_bits) buf bit_offset 0
