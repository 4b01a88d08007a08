-- ===== src/Parser/StackBuilder.antt =====
-- `StackBuilder` (parser/inc/tsn/stack_builder.h, parser/src/stack_builder.cpp). The file system is a
-- parameter, as is a failure of `mmap`. What is logged is left out.
pub mod Laws
pub mod Errors
pub mod Results
pub mod Accepted
use tsn_gen.Prelude.{
  Text, codes, text_eq, is_empty, ℕ, Bool, true, false, not, ◌&&◌, ◌||◌, List, [], ◌∷◌, ◌++◌,
  Option, none, some, if◌then◌else◌,
}
use tsn_gen.Database.{Database, get_element}
use tsn_gen.Layer.{LogicModule, passthrough, StackLayer, Stack}
use tsn_gen.Layer.Adjacency.{add_layer, wire_adjacency}
use tsn_gen.Layer.Registry.{LogicRegistry, create}
use tsn_gen.Parser.Protocol.{ProtocolService, has_logic}
use tsn_gen.Parser.Yaml.{Ryml}

pub data StackBuilderErr : Type 0 where
  stack_success stack_err_unknown stack_err_invalid_file stack_err_missing_key : StackBuilderErr
  stack_err_unknown_service stack_err_unknown_logic : StackBuilderErr

-- The error that ends a build, or what it goes on with.
pub data Built (A : Type 0) : Type 0 where
  failed : StackBuilderErr → Built A
  built : A → Built A

module _ (ryml : Ryml) (db_services : Database ProtocolService) (registry : LogicRegistry) where
  open ryml use {Node, parse_in_arena, is_map, is_seq, has_val, val, child, children}

  unfoldable pub read_bool : Node → Bool
  read_bool node =
      has_val node
      && (text_eq (val node) (codes "true")
          || text_eq (val node) (codes "1")
          || text_eq (val node) (codes "yes"))

  -- The text of a child, or the empty one.
  abbrev pub text_of : Option Node → Text
  text_of none = []
  text_of (some node) = val node

  abbrev pub bypass_of : Option Node → Bool
  bypass_of none = false
  bypass_of (some node) = read_bool node

  -- The logic of a layer; none where the registry has no module of the name.
  unfoldable pub resolve_logic : Bool → ProtocolService → Option LogicModule
  resolve_logic bypass svc =
      if bypass || not (has_logic svc) then some passthrough else create svc.logic_name registry

  unfoldable pub make_layer : Node → Text → Bool → ProtocolService → LogicModule → StackLayer
  make_layer node service bypass svc logic = record {
    service_name = service;
    entity_name = text_of (child (codes "entity") node);
    interface_name = text_of (child (codes "interface") node);
    logic_name = svc.logic_name;
    bypass_logic = bypass;
    logic = logic;
    context = record { service_name = service; upper = none; lower = none; fields = [] };
  }

  -- With the service of the layer, from the database.
  abbrev pub bind_layer : Node → Text → Bool → Option ProtocolService → Built StackLayer
  bind_layer node service bypass none = failed stack_err_unknown_service
  bind_layer node service bypass (some svc) = elim (resolve_logic bypass svc) [
    | none ↦ failed stack_err_unknown_logic
    | some logic ↦ built (make_layer node service bypass svc logic)
  ]

  abbrev pub layer_of : Node → Option Node → Built StackLayer
  layer_of node none = failed stack_err_missing_key
  layer_of node (some service) =
      bind_layer node (val service) (bypass_of (child (codes "bypass-logic") node))
        (get_element (val service) db_services)

  -- The round of the loop for one node.
  unfoldable pub build_layer : Node → Built StackLayer
  unfolding resolve_logic make_layer
  build_layer node =
      if not (is_map node)
      then failed stack_err_missing_key
      else layer_of node (child (codes "service") node)

  unfoldable pub build_layers : List Node → Stack → Built Stack
  unfolding build_layer
  build_layers [] stack = built stack
  build_layers (node ∷ nodes) stack = elim (build_layer node) [
    | failed err ↦ failed err
    | built layer ↦ build_layers nodes (add_layer layer stack)
  ]

  abbrev pub wired : Built Stack → Built Stack
  wired (failed err) = failed err
  wired (built stack) = built (wire_adjacency stack)

  abbrev pub build_list : Text → Option Node → Built Stack
  build_list name none = failed stack_err_missing_key
  build_list name (some layers) =
      if not (is_seq layers)
      then failed stack_err_missing_key
      else wired (build_layers (children layers) (record { name = name; layers = [] }))

  abbrev pub build_named : Node → Option Node → Built Stack
  build_named root none = failed stack_err_missing_key
  build_named root (some name) =
      if not (has_val name)
      then failed stack_err_missing_key
      else build_list (val name) (child (codes "layers") root)

  unfoldable pub build_tree : Option Node → Built Stack
  unfolding build_layers
  build_tree none = failed stack_err_invalid_file
  build_tree (some root) =
      if not (is_map root)
      then failed stack_err_invalid_file
      else build_named root (child (codes "stack") root)

  -- The error code and the stack of the caller, which is emptied first.
  abbrev pub outcome : Built Stack → StackBuilderErr × Option Stack
  outcome (failed err) = (err, none)
  outcome (built stack) = (stack_success, some stack)

  -- `build` on a path: `read_file` is none where the file cannot be opened.
  unfoldable pub build_stack :
      (Text → Option Text) → (Text → Bool) → Text → StackBuilderErr × Option Stack
  unfolding build_tree
  build_stack read_file maps path = elim (read_file path) [
    | none ↦ (stack_err_invalid_file, none)
    | some content ↦
        if is_empty content || not (maps path)
        then (stack_err_invalid_file, none)
        else outcome (build_tree (parse_in_arena content))
  ]
