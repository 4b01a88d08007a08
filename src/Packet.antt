-- ===== src/Packet.antt =====
-- The data of the codec: `Var` and its constraints (parser/inc/tsn/var.h), `ProtocolInterface`
-- (parser/inc/tsn/protocol_interface.h), one field of a layer (`LayerContext::Field`,
-- parser/inc/tsn/layer_context.h) and `BuiltPacket` (traffic-gen/inc/tsn/packet_builder.h).
-- Members are `const` in the source, so a value of each type is a record.
pub mod Builder
pub mod Decoder
pub mod Layout
pub mod Wire
pub mod Length
pub mod Values
pub mod RoundTrip
pub mod Laws
use tsn_gen.Prelude.{
  Text, codes, is_empty, starts_with, ℕ, ◌==◌, Bool, true, false, not, List, [], ◌∷◌, Option, none,
  some, if◌then◌else◌, ◌&&◌,
}

pub data VarErr : Type 0 where
  var_success var_err_unknown var_err_unvalid_var : VarErr

pub record Range : Type 0 where
  pub min : ℕ
  pub max : ℕ

pub record Var : Type 0 where
  pub name : Text
  pub size : ℕ
  pub expected_values : List ℕ
  pub range : Option Range
  pub mask : ℕ

-- The second part is the caller's string after the call.
pub get_var_name : Var → Text → VarErr × Text
get_var_name var out =
    if is_empty var.name then (var_err_unvalid_var, out) else (var_success, var.name)

abbrev pub has_mask : Var → Bool
has_mask var = not (var.mask == 0)

pub data IfDirections : Type 0 where
  inward outward : IfDirections

pub record ProtocolInterface : Type 0 where
  pub interface_name : Text
  pub direction : IfDirections
  pub var_refs : List Text

-- A field's short name and its value.
abbrev pub FieldValue : Type 0
FieldValue = Text × ℕ

pub record BuiltPacket : Type 0 where
  pub bytes : List ℕ
  pub fields : List FieldValue

pub record Field : Type 0 where
  pub name : Text
  pub value : ℕ
  pub bits : ℕ

-- The rest of a text that begins with "::", its first byte given apart.
abbrev at_sep : ℕ → Text → Option Text
at_sep c [] = none
at_sep c (d ∷ s) = if c == b':' && d == b':' then some s else none

-- What follows the last "::", if there is one: `ref.rfind("::")` and `ref.substr(pos + 2)`.
unfoldable pub after_last_sep : Text → Option Text
after_last_sep [] = none
after_last_sep (c ∷ s) = elim (after_last_sep s) [ some name ↦ some name | none ↦ at_sep c s ]

unfoldable pub short_name : Text → Text
unfolding after_last_sep
short_name ref = elim (after_last_sep ref) [ some name ↦ name | none ↦ ref ]
