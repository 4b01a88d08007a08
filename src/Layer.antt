-- ===== src/Layer.antt =====
-- `LayerContext` (parser/inc/tsn/layer_context.h), the logic modules (parser/inc/tsn/logic_module.h,
-- logic/inc/tsn and logic/src), `StackLayer` and `Stack` (parser/inc/tsn/stack.h,
-- parser/src/stack.cpp). The pointers between the contexts of a stack are positions in its list of
-- layers, so a method that follows them takes that list. Sums of declared widths (`size_t`) stay far
-- below 2 ^ 64 and are plain.
pub mod Modules
pub mod Adjacency
pub mod Fields
pub mod Frames
pub mod Encode
pub mod Registry
pub mod Laws
use tsn_gen.Prelude.{
  Text, text_eq, ℕ, zero, suc, ◌+◌, ◌/◌, Bool, true, false, List, [], ◌∷◌, ◌++◌, Option, none, some,
  if◌then◌else◌, length, get_elem?, codes,
}
use tsn_gen.Packet.{Field}

pub record LayerContext : Type 0 where
  pub service_name : Text
  pub upper : Option ℕ
  pub lower : Option ℕ
  pub fields : List Field

-- A module with its members. `passthrough` is `PassthroughLogic`.
pub data LogicModule : Type 0 where
  passthrough : LogicModule
  ethernet_frame : (last_ethertype encode_calls decode_calls : ℕ) → LogicModule
  avtp_control : (last_subtype : ℕ) → LogicModule
  aecp_aem : (last_cdl : ℕ) → LogicModule

pub record StackLayer : Type 0 where
  pub service_name : Text
  pub entity_name : Text
  pub interface_name : Text
  pub logic_name : Text
  pub bypass_logic : Bool
  pub logic : LogicModule
  pub context : LayerContext

pub record Stack : Type 0 where
  pub name : Text
  pub layers : List StackLayer

abbrev pub with_fields : List Field → LayerContext → LayerContext
with_fields fs ctx = record {
  service_name = ctx.service_name;
  upper = ctx.upper;
  lower = ctx.lower;
  fields = fs;
}

abbrev pub add_field : Text → ℕ → ℕ → LayerContext → LayerContext
add_field name value bits ctx =
    with_fields (ctx.fields ++ record { name = name; value = value; bits = bits } ∷ []) ctx

abbrev pub clear_fields : LayerContext → LayerContext
clear_fields ctx = with_fields [] ctx

unfoldable pub find_field : Text → List Field → Option ℕ
find_field name [] = none
find_field name (f ∷ fs) = if text_eq f.name name then some f.value else find_field name fs

-- `getValue`: the answer, and the caller's variable after the call.
unfoldable pub get_value : Text → LayerContext → ℕ → Bool × ℕ
unfolding find_field
get_value name ctx out = elim (find_field name ctx.fields) [
  | some v ↦ (true, v)
  | none ↦ (false, out)
]

-- The first field of the name is written.
unfoldable pub set_field : Text → ℕ → List Field → Bool × List Field
set_field name value [] = (false, [])
set_field name value (f ∷ fs) =
    let (found, rest) = set_field name value fs in
    if text_eq f.name name
    then (true, record { name = f.name; value = value; bits = f.bits } ∷ fs)
    else (found, f ∷ rest)

unfoldable pub set_value : Text → ℕ → LayerContext → Bool × LayerContext
unfolding set_field
set_value name value ctx =
    let (found, fs) = set_field name value ctx.fields in (found, with_fields fs ctx)

unfoldable pub sum_bits : List Field → ℕ → ℕ
sum_bits [] bits = bits
sum_bits (f ∷ fs) bits = sum_bits fs (bits + f.bits)

unfoldable pub byte_size : LayerContext → ℕ
unfolding sum_bits
byte_size ctx = (sum_bits ctx.fields 0 + 7) / 8

-- The loop of `bytesAfter` with its variables `seen` and `bits`.
unfoldable pub after_loop : Text → List Field → Bool → ℕ → Bool × ℕ
after_loop name [] seen bits = (seen, bits)
after_loop name (f ∷ fs) true bits = after_loop name fs true (bits + f.bits)
after_loop name (f ∷ fs) false bits = after_loop name fs (text_eq f.name name) bits

unfoldable pub bytes_after : Text → LayerContext → ℕ → Bool × ℕ
unfolding after_loop
bytes_after name ctx out =
    let (seen, bits) = after_loop name ctx.fields false 0 in
    if seen then (true, (bits + 7) / 8) else (false, out)

-- The loop of `bytesAbove` from a pointer. The fuel bounds the layers that it passes; a pointer
-- out of the stack, which no stack holds, ends it.
unfoldable pub above_loop : ℕ → List StackLayer → Option ℕ → ℕ → ℕ
above_loop zero layers u total = total
above_loop (suc fuel) layers none total = total
above_loop (suc fuel) layers (some i) total = elim (get_elem? layers i) [
  | none ↦ total
  | some layer ↦ above_loop fuel layers layer.context.upper (total + byte_size layer.context)
]

unfoldable pub bytes_above : List StackLayer → LayerContext → ℕ
unfolding above_loop
bytes_above layers ctx = above_loop (length layers) layers ctx.upper 0

-- `ctx.upper()`.
unfoldable pub upper_context : List StackLayer → LayerContext → Option LayerContext
upper_context layers ctx = elim ctx.upper [
  | none ↦ none
  | some i ↦ elim (get_elem? layers i) [ none ↦ none | some layer ↦ some layer.context ]
]
