-- ===== src/Session/Lengths.antt =====
-- The sizes of the layers of a generated packet, and the AECP length field that counts them.
use tsn_gen.Prelude.{
  ℕ, zero, suc, ◌+◌, ◌/◌, ◌^◌, ◌<◌, ◌≡◌, refl, sym, ap, ap₂, ◌∙◌, arith, true, List, [], ◌∷◌, map,
  All, some, some-inj, length, get_elem?, drop,
}
use tsn_gen.Packet.{Field}
use tsn_gen.Packet.Wire.{shape, field_bits}
use tsn_gen.Packet.Length.{length-pack}
use tsn_gen.Layer.{
  LayerContext, LogicModule, aecp_aem, StackLayer, get_value, byte_size, bytes_above,
}
use tsn_gen.Layer.Fields.{Frame, byte_size_lem, field_bits-shape, following, bytes_after-following}
use tsn_gen.Layer.Modules.{on_encode, encode_aecp}
use tsn_gen.Layer.Encode.{cdl, encode_aecp-cdl}
use tsn_gen.Layer.Laws.{IsLinked, total_size, bytes_above_lem}
use tsn_gen.Session.Runtime.{encode_all, pack_layer, pack_loop}
use tsn_gen.Session.RuntimeLaws.{
  encode_layer, frame-encode_layer, encode_all-map, packed_size, IsNarrow, pack_loop_lem,
}

drop-map :
    (f : StackLayer → StackLayer) (n : ℕ) (xs : List StackLayer)
    → drop n (map f xs) ≡ map f (drop n xs)
drop-map f zero xs = refl
drop-map f (suc n) [] = refl
drop-map f (suc n) (x ∷ xs) = drop-map f n xs

get_elem?-map :
    (f : StackLayer → StackLayer) (xs : List StackLayer) (i : ℕ) {x : StackLayer}
    → get_elem? xs i ≡ some x
    → get_elem? (map f xs) i ≡ some (f x)
get_elem?-map f [] i h = cc
get_elem?-map f (y ∷ xs) zero h = ap (λ (z : StackLayer). some (f z)) (some-inj h)
get_elem?-map f (y ∷ xs) (suc i) h = get_elem?-map f xs i h

drop-All : (n : ℕ) (xs : List StackLayer) → All IsNarrow xs → All IsNarrow (drop n xs)
drop-All zero xs h = h
drop-All (suc n) [] h = tt
drop-All (suc n) (x ∷ xs) h = drop-All n xs h.1

narrow-shape :
    (fs gs : List Field)
    → map shape fs ≡ map shape gs
    → All (λ f. f.bits < 2 ^ 31) fs
    → All (λ f. f.bits < 2 ^ 31) gs
narrow-shape fs [] e h = tt
narrow-shape [] (g ∷ gs) e h = cc
narrow-shape (f ∷ fs) (g ∷ gs) e h =
    let rest : map shape fs ≡ map shape gs = cc in
    let width : f.bits ≡ g.bits = cc in (omega (arith, h.0), narrow-shape fs gs rest h.1)

shapes-encode_layer :
    (layers : List StackLayer) (layer : StackLayer)
    → map shape (encode_layer layers layer).context.fields ≡ map shape layer.context.fields
shapes-encode_layer layers layer = ap (λ (f : Frame). f.1) (frame-encode_layer layers layer)

length-encode_layer :
    (layers : List StackLayer) (layer : StackLayer)
    → IsNarrow layer
    → length (pack_layer (encode_layer layers layer)).bytes ≡ byte_size layer.context
length-encode_layer layers layer h =
    let same = shapes-encode_layer layers layer in
    let fields = (encode_layer layers layer).context.fields in
    length-pack fields (narrow-shape layer.context.fields fields (sym same) h)
    ∙ ap (λ (n : ℕ). (n + 7) / 8) (field_bits-shape fields layer.context.fields same)
    ∙ sym (byte_size_lem layer.context)

packed_size-map :
    (origin layers : List StackLayer)
    → All IsNarrow layers
    → packed_size (map (encode_layer origin) layers) ≡ total_size layers
unfolding packed_size total_size
packed_size-map origin [] h = refl
packed_size-map origin (layer ∷ layers) h =
    ap₂ (λ (a b : ℕ). a + b) (length-encode_layer origin layer h.0)
      (packed_size-map origin layers h.1)

-- If all widths are below 2 ^ 31, the packet of a stack is as long as the layers together were
-- before their modules ran.
pub length-pack_loop :
    (layers : List StackLayer)
    → All IsNarrow layers
    → length (pack_loop (encode_all layers) (record { bytes = []; layers = [] })).bytes
      ≡ total_size layers
length-pack_loop layers h =
    let size = ap packed_size (encode_all-map layers) ∙ packed_size-map layers layers h in
    omega (arith, pack_loop_lem (encode_all layers) [] [], size)

aecp_layer :
    (layers : List StackLayer) (layer : StackLayer) (last : ℕ)
    → layer.logic ≡ aecp_aem last
    → (encode_layer layers layer).context ≡ encode_aecp layers layer.context
unfolding encode_layer on_encode
aecp_layer layers layer last e = ap (λ (m : LogicModule). (on_encode layers m layer.context).1) e

-- In a linked stack whose widths are below 2 ^ 31, the length field of an AECP layer that has the
-- field ends up with the bits of the fields after its first occurrence in the layer, rounded up to
-- whole bytes, plus the number of bytes that the packet has of all the layers above.
pub encode_all-cdl :
    (layers : List StackLayer) (i last : ℕ) {layer : StackLayer} {old : ℕ}
    → IsLinked layers
    → All IsNarrow layers
    → get_elem? layers i ≡ some layer
    → layer.logic ≡ aecp_aem last
    → get_value cdl layer.context 0 ≡ (true, old)
    → (out : StackLayer) × (get_elem? (encode_all layers) i ≡ some out)
      × (get_value cdl out.context 0 ≡ (
        true,
        (field_bits (following cdl layer.context.fields) + 7) / 8
            + packed_size (drop (suc i) (encode_all layers)),
      ))
encode_all-cdl layers i last {layer} {old} linked narrow here kind known =
    let every = encode_all-map layers in
    let above : bytes_above layers layer.context ≡ packed_size (drop (suc i) (encode_all layers)) =
      bytes_above_lem layers linked i here
      ∙ sym (packed_size-map layers (drop (suc i) layers) (drop-All (suc i) layers narrow))
      ∙ ap packed_size (sym (drop-map (encode_layer layers) (suc i) layers))
      ∙ ap (λ (l : List StackLayer). packed_size (drop (suc i) l)) (sym every) in
    (
      encode_layer layers layer,
      ap (λ (l : List StackLayer). get_elem? l i) every
          ∙ get_elem?-map (encode_layer layers) layers i here,
      ap (λ (c : LayerContext). get_value cdl c 0) (aecp_layer layers layer last kind)
          ∙ encode_aecp-cdl layers layer.context 0 known
          ∙ ap₂ (λ (m n : ℕ). (true, m + n)) (bytes_after-following cdl layer.context 0 known)
              above,
    )
