-- ===== src/Parser/StackBuilder/Errors.antt =====
-- No failure of `StackBuilder::build` carries the code of success (parser/src/stack_builder.cpp).
use tsn_gen.Prelude.{
  Text, codes, ◌≢◌, Bool, true, false, not, List, [], ◌∷◌, Option, none, some, if◌then◌else◌,
}
use tsn_gen.Database.{Database}
use tsn_gen.Layer.{LogicModule, StackLayer, Stack}
use tsn_gen.Layer.Adjacency.{add_layer}
use tsn_gen.Layer.Registry.{LogicRegistry}
use tsn_gen.Parser.Protocol.{ProtocolService}
use tsn_gen.Parser.Yaml.{Ryml}
use tsn_gen.Parser.StackBuilder.{
  stack_success, stack_err_invalid_file, stack_err_missing_key, stack_err_unknown_logic, Built,
  failed, built, bind_layer, layer_of, make_layer, bypass_of, build_layer, build_layers, wired,
  build_list, build_named, build_tree,
}

module _ (ryml : Ryml) (db_services : Database ProtocolService) (registry : LogicRegistry) where
  open ryml use {Node, parse_in_arena, is_map, is_seq, has_val, val, child, children}

  -- An error is not the code of success.
  abbrev pub IsError : {A : Type 0} → Built A → Type 0
  IsError (failed err) = err ≢ stack_success
  IsError (built a) = Unit

  build_layer-IsError : (node : Node) → IsError (build_layer ryml db_services registry node)
  unfolding build_layer
  build_layer-IsError node = go (is_map node) (child (codes "service") node)
    where
      logic :
          (service : Node) (svc : ProtocolService) (o : Option LogicModule)
          → IsError (elim o as (λ x. Built StackLayer) [
            | none ↦ failed stack_err_unknown_logic
            | some logic ↦ built (
                make_layer ryml db_services registry node
                  (val service)
                  (bypass_of ryml db_services registry (child (codes "bypass-logic") node))
                  svc
                  logic)
          ])
      logic service svc none = λ e. cc
      logic service svc (some l) = tt

      known :
          (service : Node) (o : Option ProtocolService)
          → IsError (
              bind_layer ryml db_services registry node
                (val service)
                (bypass_of ryml db_services registry (child (codes "bypass-logic") node))
                o)
      known service none = λ e. cc
      known service (some svc) = logic service svc _

      go :
          (m : Bool) (o : Option Node)
          → IsError (
              if not m
              then failed stack_err_missing_key
              else layer_of ryml db_services registry node o)
      go false o = λ e. cc
      go true none = λ e. cc
      go true (some service) = known service _

  build_layers-IsError :
      (nodes : List Node) (stack : Stack)
      → IsError (build_layers ryml db_services registry nodes stack)
  unfolding build_layers
  build_layers-IsError [] stack = tt
  build_layers-IsError (node ∷ nodes) stack =
      go (build_layer ryml db_services registry node) (build_layer-IsError node)
        (build_layers-IsError nodes)
    where
      go :
          (o : Built StackLayer)
          → IsError o
          → ((s : Stack) → IsError (build_layers ryml db_services registry nodes s))
          → IsError (elim o as (λ x. Built Stack) [
            | failed err ↦ failed err
            | built layer ↦ build_layers ryml db_services registry nodes (add_layer layer stack)
          ])
      go (failed err) h ih = h
      go (built layer) h ih = ih (add_layer layer stack)

  pub build_tree-IsError : (o : Option Node) → IsError (build_tree ryml db_services registry o)
  unfolding build_tree
  build_tree-IsError none = λ e. cc
  build_tree-IsError (some root) = go (is_map root)
    where
      wire : (o : Built Stack) → IsError o → IsError (wired ryml db_services registry o)
      wire (failed err) h = h
      wire (built stack) h = tt

      listed :
          (name : Text) (s : Bool) (list : Node)
          → IsError (
              if not s
              then failed stack_err_missing_key
              else wired ryml db_services registry (
                  build_layers ryml db_services registry
                    (children list)
                    (record { name = name; layers = [] })))
      listed name false list = λ e. cc
      listed name true list = wire _ (build_layers-IsError (children list) _)

      list : (name : Text) (o : Option Node) → IsError (build_list ryml db_services registry name o)
      list name none = λ e. cc
      list name (some l) = listed name (is_seq l) l

      valued :
          (h : Bool) (node : Node)
          → IsError (
              if not h
              then failed stack_err_missing_key
              else build_list ryml db_services registry (val node) (child (codes "layers") root))
      valued false node = λ e. cc
      valued true node = list (val node) (child (codes "layers") root)

      named : (o : Option Node) → IsError (build_named ryml db_services registry root o)
      named none = λ e. cc
      named (some node) = valued (has_val node) node

      go :
          (m : Bool)
          → IsError (
              if not m
              then failed stack_err_invalid_file
              else build_named ryml db_services registry root (child (codes "stack") root))
      go false = λ e. cc
      go true = named (child (codes "stack") root)
