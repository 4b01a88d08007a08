-- ===== src/Session/Runtime.antt =====
-- `Session` over a stack of layers with their logic modules: `interfaceForLayer`, `populateContext`,
-- `generateStack(Stack&)` and `decodeStack(Stack&, bytes)` (traffic-gen/src/session.cpp). The stack is
-- the list of its layers, passed from step to step.
use tsn_gen.Prelude.{
  Text, codes, is_empty, starts_with, text_eq, ℕ, zero, suc, ◌+◌, ◌==◌, not, List, [], ◌∷◌, ◌++◌,
  map, Option, none, some, if◌then◌else◌, length, get_elem?, set,
}
use tsn_gen.Database.{Database, get_element, for_each}
use tsn_gen.Packet.{Var, ProtocolInterface, FieldValue, BuiltPacket, short_name}
use tsn_gen.Packet.Builder.{Random, build_with_fields}
use tsn_gen.Packet.Decoder.{decode, layer_bytes}
use tsn_gen.Packet.Wire.{pack, field_value}
use tsn_gen.Layer.{LogicModule, LayerContext, StackLayer, add_field, clear_fields}
use tsn_gen.Layer.Modules.{on_encode, on_decode}
use tsn_gen.Layer.Adjacency.{with_context}
use tsn_gen.Session.{Layer, StackedPacket}

abbrev sep : Text
sep = codes "::"

-- What the search does with one interface.
abbrev first_under :
    Text → Text → ProtocolInterface → Option ProtocolInterface → Option ProtocolInterface
first_under prefix name iface none = if starts_with prefix name then some iface else none
first_under prefix name iface (some found) = some found

unfoldable pub interface_for_layer :
    Database ProtocolInterface → StackLayer → Option ProtocolInterface
unfolding for_each
interface_for_layer db layer =
    if not (is_empty layer.interface_name)
    then get_element (layer.service_name ++ sep ++ layer.entity_name ++ sep ++ layer.interface_name)
        db
    else let prefix =
        if is_empty layer.entity_name
        then layer.service_name ++ sep
        else layer.service_name ++ sep ++ layer.entity_name ++ sep in
      for_each (first_under prefix) db none

-- The width of the first reference of a short name, 0 if there is none or it leads to no var.
unfoldable pub bits_for : Database Var → List Text → Text → ℕ
bits_for var_db [] name = 0
bits_for var_db (ref ∷ refs) name =
    if text_eq (short_name ref) name
    then elim (get_element ref var_db) [ none ↦ 0 | some var ↦ var.size ]
    else bits_for var_db refs name

unfoldable pub populate_loop :
    Database Var → ProtocolInterface → List FieldValue → LayerContext → LayerContext
unfolding bits_for
populate_loop var_db iface [] ctx = ctx
populate_loop var_db iface ((name, value) ∷ fs) ctx =
    let bits = bits_for var_db iface.var_refs name in
    populate_loop var_db iface fs (if not (bits == 0) then add_field name value bits ctx else ctx)

unfoldable pub populate_context :
    Database Var → LayerContext → ProtocolInterface → List FieldValue → LayerContext
unfolding populate_loop
populate_context var_db ctx iface fs = populate_loop var_db iface fs (clear_fields ctx)

abbrev pub with_logic : LogicModule → StackLayer → StackLayer
with_logic logic layer = record {
  service_name = layer.service_name;
  entity_name = layer.entity_name;
  interface_name = layer.interface_name;
  logic_name = layer.logic_name;
  bypass_logic = layer.bypass_logic;
  logic = logic;
  context = layer.context;
}

-- `layer->logic->onEncode(layer->context)` for the layer at a position: the other layers are read
-- as they stand by then.
unfoldable pub encode_at : ℕ → List StackLayer → List StackLayer
encode_at i layers = elim (get_elem? layers i) [
  | none ↦ layers
  | some layer ↦
      let (logic, ctx) = on_encode layers layer.logic layer.context in
      set layers i (with_logic logic (with_context ctx layer))
]

-- The positions from `i` on, `n` of them.
unfoldable pub encode_loop : ℕ → ℕ → List StackLayer → List StackLayer
encode_loop zero i layers = layers
encode_loop (suc n) i layers = encode_loop n (i + 1) (encode_at i layers)

unfoldable pub encode_all : List StackLayer → List StackLayer
unfolding encode_loop
encode_all layers = encode_loop (length layers) 0 layers

abbrev pub pack_layer : StackLayer → BuiltPacket
pack_layer layer = record {
  bytes = (pack layer.context.fields ([], 0)).0;
  fields = map field_value layer.context.fields;
}

unfoldable pub pack_loop : List StackLayer → StackedPacket → StackedPacket
pack_loop [] result = result
pack_loop (layer ∷ layers) result = pack_loop layers (record {
  bytes = result.bytes ++ (pack_layer layer).bytes;
  layers = result.layers ++ (layer.service_name, pack_layer layer) ∷ [];
})

module _ (random : Random) (if_db : Database ProtocolInterface) (var_db : Database Var) where
  open random use {Engine}

  -- A layer without an interface keeps the context that it has.
  unfoldable pub load_loop : List StackLayer → Engine → List StackLayer × Engine
  load_loop [] rng = ([], rng)
  load_loop (layer ∷ layers) rng =
      let (layer', rng') = elim (interface_for_layer if_db layer) as (λ x. StackLayer × Engine) [
        | none ↦ (layer, rng)
        | some iface ↦
            let (built, rng1) = build_with_fields random iface var_db rng in
            (with_context (populate_context var_db layer.context iface built.fields) layer, rng1)
      ] in
      let (rest, rng2) = load_loop layers rng' in (layer' ∷ rest, rng2)

  -- The packet, the layers and the engine after the call.
  unfoldable pub generate_stack :
      List StackLayer → Engine → StackedPacket × (List StackLayer × Engine)
  unfolding load_loop encode_all encode_at pack_loop
  generate_stack layers rng =
      let (loaded, rng') = load_loop layers rng in
      let encoded = encode_all loaded in
      (pack_loop encoded (record { bytes = []; layers = [] }), (encoded, rng'))

module _ (if_db : Database ProtocolInterface) (var_db : Database Var) where
  -- The result so far, the layers and the offset after the call. A layer without an interface takes
  -- no bytes. What `nextLayer` predicts is only logged.
  unfoldable pub decode_loop :
      List ℕ → List StackLayer → List Layer → ℕ → List Layer × List StackLayer
  decode_loop bytes [] result offset = (result, [])
  decode_loop bytes (layer ∷ layers) result offset = elim (interface_for_layer if_db layer) [
    | none ↦
        let (out, rest) =
          decode_loop bytes layers
            (result ++ (layer.service_name, record { bytes = []; fields = [] }) ∷ []) offset in
        (out, layer ∷ rest)
    | some iface ↦
        let pkt = decode var_db iface bytes offset in
        let ctx = populate_context var_db layer.context iface pkt.fields in
        let logic = on_decode layer.logic ctx in
        let (out, rest) =
          decode_loop bytes layers (result ++ (layer.service_name, pkt) ∷ [])
            (offset + layer_bytes var_db iface) in
        (out, with_logic logic (with_context ctx layer) ∷ rest)
  ]

  unfoldable pub decode_stack : List StackLayer → List ℕ → StackedPacket × List StackLayer
  unfolding decode_loop populate_context
  decode_stack layers bytes =
      let (out, layers') = decode_loop bytes layers [] 0 in
      (record { bytes = bytes; layers = out }, layers')
