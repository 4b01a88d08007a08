-- ===== src/Parser/StackBuilder/Accepted.antt =====
-- A stack file that the validator accepts is one that `StackBuilder` builds, as far as its services
-- and their logic are known (parser/src/validator.cpp, parser/src/stack_builder.cpp).
use tsn_gen.Prelude.{
  Text, codes, ◌≡◌, refl, Bool, true, false, not, ◌||◌, List, [], ◌∷◌, Option, none, some,
  if◌then◌else◌,
}
use tsn_gen.Database.{Database, get_element}
use tsn_gen.Layer.{LogicModule, passthrough, Stack}
use tsn_gen.Layer.Adjacency.{add_layer}
use tsn_gen.Layer.Registry.{LogicRegistry, is_set, has, create}
use tsn_gen.Parser.Protocol.{ProtocolService, has_logic}
use tsn_gen.Parser.Validator.{is_named}
use tsn_gen.Parser.Validator.Accepted.{and-left, and-right}
use tsn_gen.Parser.Validator.Conforms.{has_only_keys, conforms_layer, conforms_list, conforms_stack}
use tsn_gen.Parser.Validator.Steps.{all_nodes, ◌and_also◌}
use tsn_gen.Parser.Yaml.{Ryml}
use tsn_gen.Parser.StackBuilder.{
  Built, failed, built, bypass_of, bind_layer, layer_of, resolve_logic, build_layer, build_layers,
  wired, build_list, build_named, build_tree,
}

module _ (ryml : Ryml) (db_services : Database ProtocolService) (registry : LogicRegistry) where
  open ryml use {Node, is_map, is_seq, has_val, val, child, children}

  -- A module is there for what the service declares, where the layer asks for it.
  abbrev logic_known : Bool → Option ProtocolService → Bool
  logic_known bypass none = false
  logic_known bypass (some svc) = bypass || not (has_logic svc) || has svc.logic_name registry

  abbrev service_known : Node → Option Node → Bool
  service_known node none = false
  service_known node (some service) =
      logic_known (bypass_of ryml db_services registry (child (codes "bypass-logic") node))
        (get_element (val service) db_services)

  -- The service of a layer is in the database, and so is its logic in the registry.
  abbrev pub is_resolvable : Node → Bool
  is_resolvable node = service_known node (child (codes "service") node)

  IsDone : {A : Type 0} → Built A → Type 0
  IsDone {A} b = (a : A) × (b ≡ built a)

  registered-logic :
      (o : Option LogicModule) → is_set o ≡ true → (logic : LogicModule) × (o ≡ some logic)
  registered-logic none h = cc
  registered-logic (some logic) h = (logic, refl)

  resolve_logic-known :
      (bypass : Bool) (svc : ProtocolService)
      → logic_known bypass (some svc) ≡ true
      → (logic : LogicModule) × (resolve_logic ryml db_services registry bypass svc ≡ some logic)
  unfolding resolve_logic has create
  resolve_logic-known bypass svc h = go (bypass || not (has_logic svc)) h
    where
      go :
          (plain : Bool)
          → plain || is_set (create svc.logic_name registry) ≡ true
          → (logic : LogicModule) × ((if plain
                then some passthrough
                else create svc.logic_name registry)
              ≡ some logic)
      go true h = (passthrough, refl)
      go false h = registered-logic (create svc.logic_name registry) h

  bind_layer-IsDone :
      (node : Node) (service : Text) (bypass : Bool) (o : Option ProtocolService)
      → logic_known bypass o ≡ true
      → IsDone (bind_layer ryml db_services registry node service bypass o)
  unfolding IsDone
  bind_layer-IsDone node service bypass none h = cc
  bind_layer-IsDone node service bypass (some svc) h =
      let (logic, e) = resolve_logic-known bypass svc h in rw (bind_layer, e) (_, refl)

  build_layer-IsDone :
      (node : Node)
      → is_map node ≡ true
      → is_resolvable node ≡ true
      → IsDone (build_layer ryml db_services registry node)
  unfolding build_layer
  build_layer-IsDone node m h = rw m (go (child (codes "service") node) h)
    where
      go :
          (o : Option Node)
          → service_known node o ≡ true
          → IsDone (layer_of ryml db_services registry node o)
      go none h = cc
      go (some service) h = bind_layer-IsDone node (val service) _ _ h

  build_layers-IsDone :
      (nodes : List Node) (stack : Stack)
      → all_nodes ryml (conforms_layer ryml) nodes ≡ true
      → all_nodes ryml is_resolvable nodes ≡ true
      → IsDone (build_layers ryml db_services registry nodes stack)
  unfolding build_layers IsDone
  build_layers-IsDone [] stack c h = (_, refl)
  build_layers-IsDone (node ∷ nodes) stack c h =
      let m = and-left (is_map node) _ (and-left (conforms_layer ryml node) _ c) in
      let (layer, e) = build_layer-IsDone node m (and-left (is_resolvable node) _ h) in
      rw (IsDone, build_layers, e)
        (build_layers-IsDone nodes (add_layer layer stack)
          (and-right (conforms_layer ryml node) _ c) (and-right (is_resolvable node) _ h))

  -- What is left of a conforming stack file after its keys.
  abbrev stack_parts : Node → Bool
  stack_parts root =
      is_named ryml (child (codes "stack") root)
      and_also conforms_list ryml (conforms_layer ryml) (child (codes "layers") root)

  -- The layers of the file, none if there are none.
  abbrev pub layer_nodes : Option Node → List Node
  layer_nodes none = []
  layer_nodes (some list) = children list

  -- `StackBuilder::build` on a map that has what the validator's checks demand of a stack ends
  -- with a stack if the service of each layer is in the database and the logic of each service
  -- that has one is registered or bypassed.
  pub build_tree-IsDone :
      (root : Node)
      → is_map root ≡ true
      → conforms_stack ryml root ≡ true
      → all_nodes ryml is_resolvable (layer_nodes (child (codes "layers") root)) ≡ true
      → (stack : Stack) × (build_tree ryml db_services registry (some root) ≡ built stack)
  unfolding build_tree conforms_stack IsDone
  build_tree-IsDone root m c h =
      let parts =
        and-right (has_only_keys ryml (codes "stack" ∷ codes "layers" ∷ []) root) (stack_parts root)
          c in
      rw m (
        named (child (codes "stack") root) (and-left _ _ parts)
          (and-right (is_named ryml (child (codes "stack") root)) _ parts))
    where
      wire :
          (o : Built Stack)
          → IsDone o
          → (stack : Stack) × (wired ryml db_services registry o ≡ built stack)
      wire (failed err) d = cc
      wire (built stack) d = (_, refl)

      listed :
          (name : Text) (o : Option Node)
          → conforms_list ryml (conforms_layer ryml) o ≡ true
          → all_nodes ryml is_resolvable (layer_nodes o) ≡ true
          → (stack : Stack) × (build_list ryml db_services registry name o ≡ built stack)
      listed name none l k = cc
      listed name (some list) l k =
          let rest = and-right (is_seq list) _ l in
          rw (and-left (is_seq list) _ l)
            (wire _ (build_layers-IsDone (children list) _ (and-right _ _ rest) k))

      named :
          (o : Option Node)
          → is_named ryml o ≡ true
          → conforms_list ryml (conforms_layer ryml) (child (codes "layers") root) ≡ true
          → (stack : Stack) × (build_named ryml db_services registry root o ≡ built stack)
      named none n l = cc
      named (some node) n l =
          rw (and-left (has_val node) _ n) (listed (val node) (child (codes "layers") root) l h)
