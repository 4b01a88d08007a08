-- ===== src/Layer/Adjacency.antt =====
-- `Stack::addLayer` and `Stack::wireAdjacency` (parser/inc/tsn/stack.h, parser/src/stack.cpp).
use tsn_gen.Prelude.{ℕ, ◌+◌, ◌-◌, ltb, List, [], ◌∷◌, ◌++◌, none, some, if◌then◌else◌, length}
use tsn_gen.Layer.{LayerContext, StackLayer, Stack}

abbrev pub with_context : LayerContext → StackLayer → StackLayer
with_context ctx layer = record {
  service_name = layer.service_name;
  entity_name = layer.entity_name;
  interface_name = layer.interface_name;
  logic_name = layer.logic_name;
  bypass_logic = layer.bypass_logic;
  logic = layer.logic;
  context = ctx;
}

abbrev pub add_layer : StackLayer → Stack → Stack
add_layer layer stack = record { name = stack.name; layers = stack.layers ++ layer ∷ [] }

-- The round of `wireAdjacency` for position `i` in a stack of `n` layers.
abbrev pub wire_layer : ℕ → ℕ → StackLayer → StackLayer
wire_layer n i layer =
    let lower = if ltb 0 i then some (i - 1) else none in
    let upper = if ltb (i + 1) n then some (i + 1) else none in
    with_context
      (record {
        service_name = layer.context.service_name;
        upper = upper;
        lower = lower;
        fields = layer.context.fields;
      })
      layer

-- Each round writes the layer of its own position only.
unfoldable pub wire_loop : ℕ → ℕ → List StackLayer → List StackLayer
wire_loop n i [] = []
wire_loop n i (layer ∷ layers) = wire_layer n i layer ∷ wire_loop n (i + 1) layers

unfoldable pub wire_adjacency : Stack → Stack
unfolding wire_loop
wire_adjacency stack = record {
  name = stack.name;
  layers = wire_loop (length stack.layers) 0 stack.layers;
}
