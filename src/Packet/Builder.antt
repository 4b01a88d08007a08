-- ===== src/Packet/Builder.antt =====
-- `PacketBuilder` (traffic-gen/inc/tsn/packet_builder.h, traffic-gen/src/packet_builder.cpp). The
-- engine `std::mt19937_64` and `std::uniform_int_distribution`, whose algorithm the standard leaves
-- open, are the parameter `Random`, with the one law that a draw lies between its bounds. The
-- builder is the state of its engine; the warnings that it logs are left out.
use tsn_gen.Prelude.{
  Text, ℕ, ◌-◌, ◌^◌, ◌≤◌, bit_and, ◌==◌, leb, Bool, true, false, List, [], ◌∷◌, ◌++◌, Option, none,
  some, if◌then◌else◌, length, get_or, text_eq,
}
use tsn_gen.Database.{Database, get_element}
use tsn_gen.Bits.{append_bits}
use tsn_gen.Packet.{Range, Var, has_mask, ProtocolInterface, FieldValue, BuiltPacket, short_name}

pub record Random : Type 1 where
  pub Engine : Type 0
  -- `mRng.seed(s)`.
  pub seeded : ℕ → Engine
  -- A draw of `uniform_int_distribution(lo, hi)` and the engine after it.
  pub uniform : ℕ → ℕ → Engine → ℕ × Engine
  pub uniform_bounds :
      (lo hi : ℕ) (rng : Engine)
      → lo ≤ hi
      → (lo ≤ (uniform lo hi rng).0) × ((uniform lo hi rng).0 ≤ hi)

-- `std::unordered_map<std::string, uint64_t>`.
abbrev pub Overrides : Type 0
Overrides = List (Text × ℕ)

unfoldable pub lookup : Text → Overrides → Option ℕ
lookup name [] = none
lookup name ((key, value) ∷ rest) = if text_eq name key then some value else lookup name rest

-- `overrides[name] = value`.
unfoldable pub assign : Text → ℕ → Overrides → Overrides
assign name value [] = (name, value) ∷ []
assign name value ((key, old) ∷ rest) =
    if text_eq name key then (key, value) ∷ rest else (key, old) ∷ assign name value rest

abbrev pub is_nil : List ℕ → Bool
is_nil [] = true
is_nil (x ∷ xs) = false

-- The bounds of a range in their order.
abbrev pub low : Range → ℕ
low r = if leb r.min r.max then r.min else r.max

abbrev pub high : Range → ℕ
high r = if leb r.min r.max then r.max else r.min

-- `(size >= 64) ? max : (1ULL << size) - 1ULL`.
abbrev pub max_val : ℕ → ℕ
max_val size = if leb 64 size then 2 ^ 64 - 1 else 2 ^ size - 1

abbrev pub apply_mask : Var → ℕ → ℕ
apply_mask var value = if has_mask var then bit_and value var.mask else value

module _ (random : Random) where
  open random use {Engine, seeded, uniform}

  unfoldable pub seed : ℕ → Engine
  seed s = seeded s

  -- The last part of `pickValue`, for a var with no list and no range.
  unfoldable pub pick_free : Var → Engine → ℕ × Engine
  pick_free var rng =
      if var.size == 0
      then (0, rng)
      else let (value, rng') = uniform 0 (max_val var.size) rng in (apply_mask var value, rng')

  unfoldable pub pick_value : Var → Engine → ℕ × Engine
  unfolding pick_free
  pick_value var rng =
      if is_nil var.expected_values
      then elim var.range [ some r ↦ uniform (low r) (high r) rng | none ↦ pick_free var rng ]
      else let (i, rng') = uniform 0 (length var.expected_values - 1) rng in
        (get_or var.expected_values i 0, rng')

  -- The variables of the two build loops.
  pub record Building : Type 0 where
    pub bytes : List ℕ
    pub bit_offset : ℕ
    pub fields : List FieldValue
    pub rng : Engine

  -- `appendBits(...)` and `result.fields.emplace_back(...)`.
  unfoldable pub put_field : Text → Var → ℕ × Engine → Building → Building
  put_field ref var (value, rng) b =
      let (bytes, bit_offset) = append_bits b.bytes b.bit_offset value var.size in
      record {
        bytes = bytes;
        bit_offset = bit_offset;
        fields = b.fields ++ (short_name ref, value) ∷ [];
        rng = rng;
      }

  -- The choice of `buildWithOverrides`.
  unfoldable pub choose : Overrides → Text → Var → Engine → ℕ × Engine
  choose overrides ref var rng =
      if is_nil var.expected_values
      then elim (lookup (short_name ref) overrides) [
        | some value ↦ (apply_mask var value, rng)
        | none ↦ pick_value var rng
      ]
      else pick_value var rng

  module _ (var_db : Database Var) where
    -- One round of `buildWithFields`: an unknown reference and a var of no bits are skipped.
    unfoldable pub fields_round : Text → Building → Building
    fields_round ref b = elim (get_element ref var_db) [
      | none ↦ b
      | some var ↦ if var.size == 0 then b else put_field ref var (pick_value var b.rng) b
    ]

    unfoldable pub fields_loop : List Text → Building → Building
    fields_loop [] b = b
    fields_loop (ref ∷ refs) b = fields_loop refs (fields_round ref b)

    unfoldable pub overrides_round : Overrides → Text → Building → Building
    overrides_round overrides ref b = elim (get_element ref var_db) [
      | none ↦ b
      | some var ↦ if var.size == 0 then b else put_field ref var (choose overrides ref var b.rng) b
    ]

    unfoldable pub overrides_loop : Overrides → List Text → Building → Building
    overrides_loop overrides [] b = b
    overrides_loop overrides (ref ∷ refs) b =
        overrides_loop overrides refs (overrides_round overrides ref b)

  abbrev pub begin : Engine → Building
  begin rng = record { bytes = []; bit_offset = 0; fields = []; rng = rng }

  abbrev pub packet_of : Building → BuiltPacket × Engine
  packet_of b = (record { bytes = b.bytes; fields = b.fields }, b.rng)

  -- The packet, and the engine after it is built.
  unfoldable pub build_with_fields :
      ProtocolInterface → Database Var → Engine → BuiltPacket × Engine
  unfolding fields_loop fields_round put_field pick_value
  build_with_fields iface var_db rng = packet_of (fields_loop var_db iface.var_refs (begin rng))

  unfoldable pub build_with_overrides :
      ProtocolInterface → Database Var → Overrides → Engine → BuiltPacket × Engine
  unfolding overrides_loop overrides_round put_field choose pick_value
  build_with_overrides iface var_db overrides rng =
      packet_of (overrides_loop var_db overrides iface.var_refs (begin rng))

  unfoldable pub build : ProtocolInterface → Database Var → Engine → List ℕ × Engine
  unfolding build_with_fields
  build iface var_db rng =
      let (packet, rng') = build_with_fields iface var_db rng in (packet.bytes, rng')
