-- ===== src/Layer/Modules.antt =====
-- `onEncode`, `onDecode` and `nextLayer` of the logic modules (logic/src/ethernet_frame_logic.cpp,
-- logic/src/avtp_control_logic.cpp, logic/src/aecp_aem_logic.cpp).
use tsn_gen.Prelude.{
  Text, codes, starts_with, ℕ, ◌+◌, ◌%◌, ◌==◌, not, ◌&&◌, ◌||◌, List, none, some, if◌then◌else◌,
}
use tsn_gen.Layer.{
  LayerContext, LogicModule, passthrough, ethernet_frame, avtp_control, aecp_aem, StackLayer,
  get_value, set_value, bytes_after, bytes_above, upper_context,
}

abbrev pub k_ethertype1722 : ℕ
k_ethertype1722 = 8944

abbrev pub k_subtype_aecp : ℕ
k_subtype_aecp = 251

abbrev pub k_subtype_adp : ℕ
k_subtype_adp = 250

module _ (layers : List StackLayer) where
  unfoldable pub subtype_for_upper : LayerContext → ℕ
  subtype_for_upper ctx = elim (upper_context layers ctx) [
    | none ↦ 0
    | some up ↦
        if starts_with (codes "atdecc_aecp") up.service_name
        then k_subtype_aecp
        else if starts_with (codes "atdecc_adp") up.service_name
        then k_subtype_adp
        else 0
  ]

  -- `AecpAemLogic::onEncode`.
  unfoldable pub encode_aecp : LayerContext → LayerContext
  encode_aecp ctx =
      let (found, after) = bytes_after (codes "control_data_length") ctx 0 in
      let cdl = after + bytes_above layers ctx in
      let ctx1 = if found then (set_value (codes "control_data_length") cdl ctx).1 else ctx in
      let (known, message_type) = get_value (codes "message_type") ctx1 0 in
      if known && message_type % 2 == 0 then (set_value (codes "status") 0 ctx1).1 else ctx1

  -- `AvtpControlLogic::onEncode`.
  unfoldable pub encode_avtp : LayerContext → LayerContext
  unfolding subtype_for_upper
  encode_avtp ctx =
      let subtype = subtype_for_upper ctx in
      let ctx1 = if not (subtype == 0) then (set_value (codes "subtype") subtype ctx).1 else ctx in
      let ctx2 = (set_value (codes "sv") 0 ctx1).1 in
      let ctx3 = (set_value (codes "version") 0 ctx2).1 in (set_value (codes "reserved") 0 ctx3).1

  -- The module and the context after `onEncode`.
  unfoldable pub on_encode : LogicModule → LayerContext → LogicModule × LayerContext
  unfolding encode_aecp encode_avtp
  on_encode passthrough ctx = (passthrough, ctx)
  on_encode (ethernet_frame last encodes decodes) ctx =
      let (known, current) = get_value (codes "ethertype") ctx 0 in
      (
        ethernet_frame last (encodes + 1) decodes,
        if not known || current == 0
            then (set_value (codes "ethertype") k_ethertype1722 ctx).1
            else ctx,
      )
  on_encode (avtp_control last) ctx = (avtp_control last, encode_avtp ctx)
  on_encode (aecp_aem last) ctx = (aecp_aem last, encode_aecp ctx)

  unfoldable pub next_layer : LogicModule → LayerContext → Text
  next_layer passthrough ctx = codes ""
  next_layer (ethernet_frame last encodes decodes) ctx = elim (upper_context layers ctx) [
    | none ↦ codes "1722_avtp_common_stream"
    | some up ↦ up.service_name
  ]
  next_layer (avtp_control last) ctx = elim (upper_context layers ctx) [
    | none ↦ codes ""
    | some up ↦ up.service_name
  ]
  next_layer (aecp_aem last) ctx = elim (upper_context layers ctx) [
    | none ↦ codes ""
    | some up ↦ up.service_name
  ]

unfoldable pub on_decode : LogicModule → LayerContext → LogicModule
on_decode passthrough ctx = passthrough
on_decode (ethernet_frame last encodes decodes) ctx =
    ethernet_frame (get_value (codes "ethertype") ctx last).1 encodes (decodes + 1)
on_decode (avtp_control last) ctx = avtp_control (get_value (codes "subtype") ctx last).1
on_decode (aecp_aem last) ctx = aecp_aem (get_value (codes "control_data_length") ctx last).1
