-- ===== src/Session/RuntimeLaws.antt =====
-- What the modules of a stack do to its packet.
use tsn_gen.Prelude.{
  ℕ, ◌+◌, ◌^◌, ◌<◌, ◌≡◌, refl, sym, ap, ap₂, ◌∙◌, arith, List, [], ◌∷◌, ◌++◌, map, All, some,
  length, get_elem?, get_elem?-append_right, set-append_right, append_assoc, length-append,
}
use tsn_gen.Layer.{LayerContext, LogicModule, StackLayer}
use tsn_gen.Layer.Fields.{Frame, frame}
use tsn_gen.Layer.Frames.{frames_of, frame-on_encode, on_encode-frames}
use tsn_gen.Layer.Modules.{on_encode}
use tsn_gen.Layer.Adjacency.{with_context}
use tsn_gen.Session.{Layer}
use tsn_gen.Session.Runtime.{with_logic, encode_at, encode_loop, encode_all, pack_layer, pack_loop}

-- A layer after its module has run among the given layers.
unfoldable pub encode_layer : List StackLayer → StackLayer → StackLayer
encode_layer layers layer =
    let (logic, ctx) = on_encode layers layer.logic layer.context in
    with_logic logic (with_context ctx layer)

pub frame-encode_layer :
    (layers : List StackLayer) (layer : StackLayer)
    → frame (encode_layer layers layer).context ≡ frame layer.context
unfolding encode_layer
frame-encode_layer layers layer = frame-on_encode layers layer.logic layer.context

encode_layer-frames :
    (layers others : List StackLayer) (layer : StackLayer)
    → frames_of layers ≡ frames_of others
    → encode_layer layers layer ≡ encode_layer others layer
unfolding encode_layer
encode_layer-frames layers others layer same =
    ap (λ (r : LogicModule × LayerContext). with_logic r.0 (with_context r.1 layer))
      (on_encode-frames layers others same layer.logic layer.context)

frames_of-append : (xs ys : List StackLayer) → frames_of (xs ++ ys) ≡ frames_of xs ++ frames_of ys
frames_of-append [] ys = refl
frames_of-append (x ∷ xs) ys = ap (λ (l : List Frame). frame x.context ∷ l) (frames_of-append xs ys)

encode_at_middle :
    (done rest : List StackLayer) (layer : StackLayer)
    → encode_at (length done) (done ++ layer ∷ rest)
      ≡ done ++ encode_layer (done ++ layer ∷ rest) layer ∷ rest
unfolding encode_at encode_layer
encode_at_middle done rest layer =
    let here : get_elem? (done ++ layer ∷ rest) (length done) ≡ some layer =
      get_elem?-append_right done (layer ∷ rest) (length done) 0 (omega arith) in
    rw (encode_at, here) (set-append_right done (layer ∷ rest) (length done) 0 _ (omega arith))

encode_loop_lem :
    (origin rest done : List StackLayer)
    → frames_of (done ++ rest) ≡ frames_of origin
    → encode_loop (length rest) (length done) (done ++ rest)
      ≡ done ++ map (encode_layer origin) rest
unfolding encode_loop
encode_loop_lem origin [] done same = refl
encode_loop_lem origin (layer ∷ rest) done same =
    let whole = done ++ layer ∷ rest in
    let next = encode_layer origin layer in
    let step : encode_at (length done) whole ≡ (done ++ next ∷ []) ++ rest =
      encode_at_middle done rest layer
      ∙ ap (λ (x : StackLayer). done ++ x ∷ rest) (encode_layer-frames whole origin layer same)
      ∙ sym (append_assoc done (next ∷ []) rest) in
    let kept : frames_of ((done ++ next ∷ []) ++ rest) ≡ frames_of origin =
      ap frames_of (append_assoc done (next ∷ []) rest)
      ∙ frames_of-append done (next ∷ rest)
      ∙ ap (λ (f : Frame). frames_of done ++ f ∷ frames_of rest) (frame-encode_layer origin layer)
      ∙ sym (frames_of-append done (layer ∷ rest))
      ∙ same in
    ap₂ (λ (n : ℕ) (l : List StackLayer). encode_loop (length rest) n l)
      (omega (arith, length-append done (next ∷ []))) step
    ∙ encode_loop_lem origin rest (done ++ next ∷ []) kept
    ∙ append_assoc done (next ∷ []) (map (encode_layer origin) rest)

-- The modules run one after another in place, and yet each computes what it would if it saw the
-- stack as it was before any of them ran.
pub encode_all-map :
    (layers : List StackLayer) → encode_all layers ≡ map (encode_layer layers) layers
unfolding encode_all
encode_all-map layers = encode_loop_lem layers layers [] refl

-- The bytes of some packed layers together.
unfoldable pub packed_size : List StackLayer → ℕ
packed_size [] = 0
packed_size (layer ∷ layers) = length (pack_layer layer).bytes + packed_size layers

-- Widths that the loops of the codec take.
abbrev pub IsNarrow : StackLayer → Type 0
IsNarrow layer = All (λ f. f.bits < 2 ^ 31) layer.context.fields

pub pack_loop_lem :
    (layers : List StackLayer) (bytes : List ℕ) (out : List Layer)
    → length (pack_loop layers (record { bytes = bytes; layers = out })).bytes
      ≡ length bytes + packed_size layers
unfolding pack_loop packed_size
pack_loop_lem [] bytes out = omega arith
pack_loop_lem (layer ∷ layers) bytes out =
    let packed = (pack_layer layer).bytes in
    pack_loop_lem layers (bytes ++ packed) (out ++ (layer.service_name, pack_layer layer) ∷ [])
    ∙ omega (arith, length-append bytes packed)
