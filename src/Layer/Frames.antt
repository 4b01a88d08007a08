-- ===== src/Layer/Frames.antt =====
-- LogicModule modules keep the frame of a context, and read no more than the frames of the other layers.
use tsn_gen.Prelude.{
  Text, codes, starts_with, ℕ, zero, suc, ◌+◌, ◌/◌, ◌%◌, ◌==◌, ◌≡◌, refl, sym, ap, ap₂, ◌∙◌, arith,
  not, ◌&&◌, ◌||◌, List, [], ◌∷◌, map, length, get_elem?, Option, none, some, if◌then◌else◌,
}
use tsn_gen.Packet.{Field}
use tsn_gen.Packet.Wire.{shape, field_bits}
use tsn_gen.Layer.{
  LayerContext, LogicModule, passthrough, ethernet_frame, avtp_control, aecp_aem, StackLayer,
  get_value, set_value, byte_size, bytes_after, above_loop, bytes_above, upper_context,
}
use tsn_gen.Layer.Fields.{Frame, set_if, frame-set_if, frame, frame-set_value, byte_size_lem}
use tsn_gen.Layer.Modules.{
  k_ethertype1722, k_subtype_aecp, k_subtype_adp, subtype_for_upper, encode_aecp, encode_avtp,
  on_encode,
}

module _ (layers : List StackLayer) where
  frame-encode_aecp : (ctx : LayerContext) → frame (encode_aecp layers ctx) ≡ frame ctx
  unfolding encode_aecp
  frame-encode_aecp ctx =
      let after = bytes_after (codes "control_data_length") ctx 0 in
      let ctx1 =
        set_if after.0 (codes "control_data_length") (after.1 + bytes_above layers ctx) ctx in
      let kind = get_value (codes "message_type") ctx1 0 in
      unfold set_if in
      frame-set_if (kind.0 && kind.1 % 2 == 0) (codes "status") 0 ctx1
      ∙ frame-set_if after.0 (codes "control_data_length") (after.1 + bytes_above layers ctx) ctx

  frame-encode_avtp : (ctx : LayerContext) → frame (encode_avtp layers ctx) ≡ frame ctx
  unfolding encode_avtp
  frame-encode_avtp ctx =
      let subtype = subtype_for_upper layers ctx in
      let ctx1 = set_if (not (subtype == 0)) (codes "subtype") subtype ctx in
      let ctx2 = (set_value (codes "sv") 0 ctx1).1 in
      let ctx3 = (set_value (codes "version") 0 ctx2).1 in
      unfold set_if in
      frame-set_value (codes "reserved") 0 ctx3
      ∙ frame-set_value (codes "version") 0 ctx2
      ∙ frame-set_value (codes "sv") 0 ctx1
      ∙ frame-set_if (not (subtype == 0)) (codes "subtype") subtype ctx

  -- `onEncode` of every module leaves the place of the context, its fields' names and their widths.
  pub frame-on_encode :
      (logic : LogicModule) (ctx : LayerContext) → frame (on_encode layers logic ctx).1 ≡ frame ctx
  unfolding on_encode
  frame-on_encode passthrough ctx = refl
  frame-on_encode (ethernet_frame last encodes decodes) ctx =
      let current = get_value (codes "ethertype") ctx 0 in
      unfold set_if in
      frame-set_if (not current.0 || current.1 == 0) (codes "ethertype") k_ethertype1722 ctx
  frame-on_encode (avtp_control last) ctx = frame-encode_avtp ctx
  frame-on_encode (aecp_aem last) ctx = frame-encode_aecp ctx

-- The walk of `bytesAbove` over frames.
abbrev shape_bits : List (Text × ℕ) → ℕ
shape_bits [] = 0
shape_bits (s ∷ ss) = s.1 + shape_bits ss

shape_bits_lem : (fs : List Field) → shape_bits (map shape fs) ≡ field_bits fs
unfolding field_bits
shape_bits_lem [] = refl
shape_bits_lem (f ∷ fs) = ap (λ (n : ℕ). f.bits + n) (shape_bits_lem fs)

unfoldable pub above_frames : ℕ → List Frame → Option ℕ → ℕ → ℕ
above_frames zero frames u total = total
above_frames (suc fuel) frames none total = total
above_frames (suc fuel) frames (some i) total = elim (get_elem? frames i) [
  | none ↦ total
  | some fr ↦ above_frames fuel frames fr.0.1.0 (total + (shape_bits fr.1 + 7) / 8)
]

abbrev pub frames_of : List StackLayer → List Frame
frames_of layers = map (λ l. frame l.context) layers

get_elem?-frames :
    (layers : List StackLayer) (i : ℕ)
    → get_elem? (frames_of layers) i
      ≡ (elim (get_elem? layers i) [ none ↦ none | some l ↦ some (frame l.context) ])
get_elem?-frames [] i = refl
get_elem?-frames (l ∷ layers) zero = refl
get_elem?-frames (l ∷ layers) (suc i) = get_elem?-frames layers i

above_loop-frames :
    (fuel : ℕ) (layers : List StackLayer) (u : Option ℕ) (total : ℕ)
    → above_loop fuel layers u total ≡ above_frames fuel (frames_of layers) u total
unfolding above_loop above_frames
above_loop-frames zero layers u total = refl
above_loop-frames (suc fuel) layers none total = refl
above_loop-frames (suc fuel) layers (some i) total =
    rw (above_frames, get_elem?-frames layers i)
      (go (above_loop-frames fuel layers) (get_elem? layers i))
  where
    go :
        ((u : Option ℕ) (n : ℕ)
          → above_loop fuel layers u n ≡ above_frames fuel (frames_of layers) u n)
        → (o : Option StackLayer)
        → (elim o as (λ x. ℕ) [
          | none ↦ total
          | some l ↦ above_loop fuel layers l.context.upper (total + byte_size l.context)
        ])
          ≡ (elim (elim o as (λ x. Option Frame) [ none ↦ none | some l ↦ some (frame l.context) ])
              as (λ x. ℕ) [
                | none ↦ total
                | some fr ↦
                    above_frames fuel
                      (frames_of layers)
                      fr.0.1.0
                      (total + (shape_bits fr.1 + 7) / 8)
              ])
    go ih none = refl
    go ih (some l) =
        ih l.context.upper (total + byte_size l.context)
        ∙ ap (λ (n : ℕ). above_frames fuel (frames_of layers) l.context.upper (total + n))
            (omega (arith, byte_size_lem l.context, shape_bits_lem l.context.fields))

length-map : (layers : List StackLayer) → length (frames_of layers) ≡ length layers
length-map [] = refl
length-map (l ∷ layers) = ap suc (length-map layers)

-- The service name that `ctx.upper()` leads to.
abbrev service_above : List Frame → Option ℕ → Option Text
service_above frames none = none
service_above frames (some i) = elim (get_elem? frames i) [ none ↦ none | some fr ↦ some fr.0.0 ]

abbrev service_of : Option LayerContext → Option Text
service_of none = none
service_of (some ctx) = some ctx.service_name

upper_context-frames :
    (layers : List StackLayer) (ctx : LayerContext)
    → service_of (upper_context layers ctx) ≡ service_above (frames_of layers) ctx.upper
unfolding upper_context
upper_context-frames layers ctx = go ctx.upper
  where
    reach :
        (o : Option StackLayer)
        → service_of (elim o [ none ↦ none | some l ↦ some l.context ])
          ≡ (elim (elim o as (λ x. Option Frame) [ none ↦ none | some l ↦ some (frame l.context) ])
              as (λ x. Option Text) [ none ↦ none | some fr ↦ some fr.0.0 ])
    reach none = refl
    reach (some l) = refl

    go :
        (u : Option ℕ)
        → service_of (elim u [
          | none ↦ none
          | some i ↦ elim (get_elem? layers i) [ none ↦ none | some layer ↦ some layer.context ]
        ])
          ≡ service_above (frames_of layers) u
    go none = refl
    go (some i) = rw (service_above, get_elem?-frames layers i) (reach (get_elem? layers i))

abbrev subtype_of : Option Text → ℕ
subtype_of none = 0
subtype_of (some service) =
    if starts_with (codes "atdecc_aecp") service
    then k_subtype_aecp
    else if starts_with (codes "atdecc_adp") service
    then k_subtype_adp
    else 0

subtype_for_upper-service :
    (layers : List StackLayer) (ctx : LayerContext)
    → subtype_for_upper layers ctx ≡ subtype_of (service_of (upper_context layers ctx))
unfolding subtype_for_upper
subtype_for_upper-service layers ctx = go (upper_context layers ctx)
  where
    go :
        (o : Option LayerContext)
        → (elim o as (λ x. ℕ) [
          | none ↦ 0
          | some up ↦
              if starts_with (codes "atdecc_aecp") up.service_name
              then k_subtype_aecp
              else if starts_with (codes "atdecc_adp") up.service_name
              then k_subtype_adp
              else 0
        ])
          ≡ subtype_of (service_of o)
    go none = refl
    go (some up) = refl

module _ (layers others : List StackLayer) (same : frames_of layers ≡ frames_of others) where
  pub bytes_above-frames : (ctx : LayerContext) → bytes_above layers ctx ≡ bytes_above others ctx
  unfolding bytes_above
  bytes_above-frames ctx =
      above_loop-frames (length layers) layers ctx.upper 0
      ∙ ap₂ (λ (n : ℕ) (fr : List Frame). above_frames n fr ctx.upper 0)
          (sym (length-map layers) ∙ ap length same ∙ length-map others) same
      ∙ sym (above_loop-frames (length others) others ctx.upper 0)

  subtype_for_upper-frames :
      (ctx : LayerContext) → subtype_for_upper layers ctx ≡ subtype_for_upper others ctx
  subtype_for_upper-frames ctx =
      subtype_for_upper-service layers ctx
      ∙ ap subtype_of (
          upper_context-frames layers ctx
          ∙ ap (λ (fr : List Frame). service_above fr ctx.upper) same
          ∙ sym (upper_context-frames others ctx))
      ∙ sym (subtype_for_upper-service others ctx)

  -- A module sees of the other layers only their frames, which no module changes.
  pub on_encode-frames :
      (logic : LogicModule) (ctx : LayerContext)
      → on_encode layers logic ctx ≡ on_encode others logic ctx
  unfolding on_encode
  on_encode-frames passthrough ctx = refl
  on_encode-frames (ethernet_frame last encodes decodes) ctx = refl
  on_encode-frames (avtp_control last) ctx =
      ap (λ c. (avtp_control last, c))
        (unfold encode_avtp in rw (encode_avtp, subtype_for_upper-frames ctx))
  on_encode-frames (aecp_aem last) ctx =
      ap (λ c. (aecp_aem last, c)) (unfold encode_aecp in rw (encode_aecp, bytes_above-frames ctx))
