-- ===== src/Tests/Stacks.antt =====
-- Examples of the layers, the frames, the chains and the stacks.
use tsn_gen.Prelude.{
  codes, text_eq, suc, ◌+◌, ◌/◌, ◌≡◌, refl, arith, List, [], ◌∷◌, ◌++◌, map, All, length, get_elem?,
  drop, some, true, false,
}
use tsn_gen.Layer.{aecp_aem, StackLayer, find_field, get_value, set_field, set_value, bytes_above}
use tsn_gen.Layer.Adjacency.{wire_loop, wire_adjacency}
use tsn_gen.Layer.Encode.{cdl}
use tsn_gen.Layer.Fields.{following, set_value-get_value}
use tsn_gen.Layer.Frames.{on_encode-frames}
use tsn_gen.Layer.Laws.{IsLinked, wire_adjacency-IsLinked, total_size, bytes_above_lem}
use tsn_gen.Layer.Modules.{on_encode}
use tsn_gen.Packet.Wire.{field_bits}
use tsn_gen.Session.Chain.{generate_chain}
use tsn_gen.Session.ChainLaws.{IsChain, generate_chain-IsChain}
use tsn_gen.Session.Frame.{generate_stack, decode_stack}
use tsn_gen.Session.FrameLaws.{carry_layers, decode_stack-generate_stack}
use tsn_gen.Session.Lengths.{encode_all-cdl, length-pack_loop}
use tsn_gen.Session.Runtime.{encode_all, pack_loop}
use tsn_gen.Session.RuntimeLaws.{IsNarrow, encode_layer, encode_all-map, packed_size}
use tsn_gen.Tests.{counter, vars, vars-AllVars, head, tail, mac, aecp, payload, stack}

decode_stack-generate_stack_example :
    (decode_stack vars
      (head ∷ tail ∷ [])
      ((generate_stack counter vars (head ∷ tail ∷ []) 4).0.bytes ++ 0 ∷ 0 ∷ [])).layers
    ≡ carry_layers vars
        (head ∷ tail ∷ [])
        (generate_stack counter vars (head ∷ tail ∷ []) 4).0.layers
decode_stack-generate_stack_example =
    decode_stack-generate_stack counter vars vars-AllVars (head ∷ tail ∷ []) 4 (0 ∷ 0 ∷ [])

generate_chain-IsChain_example :
    IsChain vars [] (head ∷ tail ∷ []) (generate_chain counter vars (head ∷ tail ∷ []) 4).0
generate_chain-IsChain_example = generate_chain-IsChain counter vars head (tail ∷ []) 4

-- The layers of the stack, wired.
abbrev layers : List StackLayer
layers = (wire_adjacency stack).layers

wire_adjacency-IsLinked_example : IsLinked (wire_adjacency stack).layers
wire_adjacency-IsLinked_example = wire_adjacency-IsLinked stack

-- The AECP layer as it is wired.
abbrev aecp_wired : StackLayer
aecp_wired = record {
  service_name = aecp.service_name;
  entity_name = aecp.entity_name;
  interface_name = aecp.interface_name;
  logic_name = aecp.logic_name;
  bypass_logic = aecp.bypass_logic;
  logic = aecp.logic;
  context = record {
    service_name = aecp.context.service_name;
    upper = some 2;
    lower = some 0;
    fields = aecp.context.fields;
  };
}

layers-at : get_elem? layers 1 ≡ some aecp_wired
unfolding wire_adjacency wire_loop
layers-at = refl

linked : IsLinked layers
linked = wire_adjacency-IsLinked stack

narrow : All IsNarrow layers
unfolding wire_adjacency wire_loop
narrow = (
  (omega arith, tt),
  ((omega arith, (omega arith, (omega arith, (omega arith, tt)))), ((omega arith, tt), tt)),
)

cdl_known : get_value cdl aecp_wired.context 0 ≡ (true, 99)
unfolding get_value find_field text_eq
cdl_known = refl

bytes_above_lem_example : bytes_above layers aecp_wired.context ≡ total_size (drop (suc 1) layers)
bytes_above_lem_example = bytes_above_lem layers linked 1 layers-at

encode_all-map_example : encode_all layers ≡ map (encode_layer layers) layers
encode_all-map_example = encode_all-map layers

length-pack_loop_example :
    length (pack_loop (encode_all layers) (record { bytes = []; layers = [] })).bytes
    ≡ total_size layers
length-pack_loop_example = length-pack_loop layers narrow

encode_all-cdl_example :
    (out : StackLayer) × (get_elem? (encode_all layers) 1 ≡ some out)
    × (get_value cdl out.context 0 ≡ (
      true,
      (field_bits (following cdl aecp_wired.context.fields) + 7) / 8
          + packed_size (drop (suc 1) (encode_all layers)),
    ))
encode_all-cdl_example = encode_all-cdl layers 1 0 linked narrow layers-at refl cdl_known

status_known : get_value (codes "status") aecp_wired.context 4 ≡ (true, 7)
unfolding get_value find_field text_eq
status_known = refl

ethertype_known : get_value (codes "ethertype") mac.context 0 ≡ (true, 0)
unfolding get_value find_field text_eq
ethertype_known = refl

-- Two stacks whose layers differ in their values only.
abbrev renewed : List StackLayer
renewed = mac ∷ aecp ∷ payload ∷ []

on_encode-frames_example :
    on_encode renewed (aecp_aem 0) aecp.context ≡ on_encode renewed (aecp_aem 0) aecp.context
on_encode-frames_example = on_encode-frames renewed renewed refl (aecp_aem 0) aecp.context

status_written : (set_value (codes "status") 3 aecp.context).0 ≡ true
unfolding set_value set_field text_eq
status_written = refl

status-ne-cdl : text_eq (codes "status") cdl ≡ false
unfolding text_eq
status-ne-cdl = refl

set_value-get_value_example :
    (set_value (codes "sv") 3 aecp.context).0 ≡ (get_value (codes "sv") aecp.context 8).0
set_value-get_value_example = set_value-get_value (codes "sv") 3 aecp.context 8
