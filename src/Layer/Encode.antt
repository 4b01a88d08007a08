-- ===== src/Layer/Encode.antt =====
-- The fields that the logic modules leave to be packed.
use tsn_gen.Prelude.{
  Text, codes, text_eq, text_ne, ℕ, ◌+◌, ◌%◌, ◌==◌, ◌≡◌, refl, ap, ◌∙◌, Bool, true, not, ◌&&◌, ◌||◌,
  List, if◌then◌else◌,
}
use tsn_gen.Layer.{LayerContext, ethernet_frame, StackLayer, get_value, bytes_after, bytes_above}
use tsn_gen.Layer.Fields.{
  set_if, get_value-set_if, get_value-set_if_ne, get_value-out, bytes_after-get_value,
}
use tsn_gen.Layer.Modules.{k_ethertype1722, encode_aecp, on_encode}

abbrev pub cdl : Text
cdl = codes "control_data_length"

abbrev message_type : Text
message_type = codes "message_type"

abbrev status : Text
status = codes "status"

-- A command has an even message type.
abbrev pub is_command : LayerContext → Bool
is_command ctx = let kind = get_value message_type ctx 0 in kind.0 && kind.1 % 2 == 0

module _ (layers : List StackLayer) (ctx : LayerContext) where
  -- The context once the length is written.
  lengthened : LayerContext
  lengthened =
      let after = bytes_after cdl ctx 0 in set_if after.0 cdl (after.1 + bytes_above layers ctx) ctx

  encode_aecp_split : encode_aecp layers ctx ≡ set_if (is_command lengthened) status 0 lengthened
  unfolding encode_aecp lengthened set_if
  encode_aecp_split = refl

  message_type_kept : get_value message_type lengthened 0 ≡ get_value message_type ctx 0
  unfolding lengthened
  message_type_kept =
      let after = bytes_after cdl ctx 0 in
      get_value-set_if_ne after.0 cdl message_type (after.1 + bytes_above layers ctx) ctx 0
        (text_ne cdl message_type (unfold text_eq in refl))

  status_kept : (out : ℕ) → get_value status lengthened out ≡ get_value status ctx out
  unfolding lengthened
  status_kept out =
      let after = bytes_after cdl ctx 0 in
      get_value-set_if_ne after.0 cdl status (after.1 + bytes_above layers ctx) ctx out
        (text_ne cdl status (unfold text_eq in refl))

  cdl_written :
      {old : ℕ} (out : ℕ)
      → get_value cdl ctx 0 ≡ (true, old)
      → get_value cdl lengthened out ≡ (true, (bytes_after cdl ctx 0).1 + bytes_above layers ctx)
  unfolding lengthened
  cdl_written {old} out h =
      let after = bytes_after cdl ctx 0 in
      let found : after.0 ≡ true = bytes_after-get_value cdl ctx 0 ∙ ap (λ (r : Bool × ℕ). r.0) h in
      get_value-set_if after.0 cdl (after.1 + bytes_above layers ctx) ctx out old
        (get_value-out cdl ctx 0 out h)
      ∙ ap (λ (b : Bool). (true, if b then after.1 + bytes_above layers ctx else old)) found

  -- `control_data_length` of an AECP layer that has the field counts the bytes that follow the
  -- field in the layer and the bytes of all layers above.
  pub encode_aecp-cdl :
      {old : ℕ} (out : ℕ)
      → get_value cdl ctx 0 ≡ (true, old)
      → get_value cdl (encode_aecp layers ctx) out
        ≡ (true, (bytes_after cdl ctx 0).1 + bytes_above layers ctx)
  encode_aecp-cdl out h =
      ap (λ (c : LayerContext). get_value cdl c out) encode_aecp_split
      ∙ get_value-set_if_ne (is_command lengthened) status cdl 0 lengthened out
          (text_ne status cdl (unfold text_eq in refl))
      ∙ cdl_written out h

  -- An AECP layer that has a status field has status 0 after `onEncode` if its message type is
  -- even, and else the status that it had.
  pub encode_aecp-status :
      {old : ℕ} (out : ℕ)
      → get_value status ctx out ≡ (true, old)
      → get_value status (encode_aecp layers ctx) out ≡ (true, if is_command ctx then 0 else old)
  encode_aecp-status {old} out h =
      ap (λ (c : LayerContext). get_value status c out) encode_aecp_split
      ∙ get_value-set_if (is_command lengthened) status 0 lengthened out old (status_kept out ∙ h)
      ∙ ap (λ (k : Bool × ℕ). (true, if k.0 && k.1 % 2 == 0 then 0 else old)) message_type_kept

  -- An Ethernet layer that has an ethertype keeps it, unless it is 0: then it becomes 0x22F0.
  pub on_encode-ethertype :
      (last encodes decodes : ℕ) {old : ℕ} (out : ℕ)
      → get_value (codes "ethertype") ctx 0 ≡ (true, old)
      → get_value
          (codes "ethertype")
          (on_encode layers (ethernet_frame last encodes decodes) ctx).1
          out
        ≡ (true, if old == 0 then k_ethertype1722 else old)
  unfolding on_encode set_if
  on_encode-ethertype last encodes decodes {old} out h =
      let current = get_value (codes "ethertype") ctx 0 in
      get_value-set_if (not current.0 || current.1 == 0) (codes "ethertype") k_ethertype1722 ctx out
        old (get_value-out (codes "ethertype") ctx 0 out h)
      ∙ ap (λ (r : Bool × ℕ). (true, if not r.0 || r.1 == 0 then k_ethertype1722 else old)) h
