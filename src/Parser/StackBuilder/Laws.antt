-- ===== src/Parser/StackBuilder/Laws.antt =====
-- The stack that `StackBuilder` builds: one layer per node, in order, with the logic that the rules
-- give it, linked to its neighbours (parser/src/stack_builder.cpp).
use tsn_gen.Prelude.{
  codes, ◌≡◌, refl, sym, ap, subst, Bool, true, false, not, ◌||◌, List, [], ◌∷◌, Option, none, some,
  if◌then◌else◌,
}
use tsn_gen.Database.{Database, get_element}
use tsn_gen.Layer.{LogicModule, passthrough, StackLayer}
use tsn_gen.Layer.Registry.{LogicRegistry, create}
use tsn_gen.Parser.Protocol.{ProtocolService, has_logic}
use tsn_gen.Parser.Yaml.{Ryml}
use tsn_gen.Parser.StackBuilder.{
  stack_err_missing_key, stack_err_unknown_logic, Built, failed, built, text_of, bypass_of,
  resolve_logic, make_layer, bind_layer, layer_of, build_layer,
}

module _ (ryml : Ryml) (db_services : Database ProtocolService) (registry : LogicRegistry) where
  open ryml use {Node, is_map, is_seq, has_val, val, child, children}

  abbrev passes_through : StackLayer → ProtocolService → Bool
  passes_through layer svc = layer.bypass_logic || not (has_logic svc)

  -- The logic that the rules give a layer: a plain one, or the registered one of its name.
  abbrev pub rule : StackLayer → ProtocolService → Option LogicModule
  rule layer svc =
      if passes_through layer svc then some passthrough else create layer.logic_name registry

  -- A layer as the rules of the stack file want it for a node.
  pub record IsBound (node : Node) (layer : StackLayer) : Type 0 where
    pub svc : ProtocolService
    pub service :
        layer.service_name ≡ text_of ryml db_services registry (child (codes "service") node)
    pub entity : layer.entity_name ≡ text_of ryml db_services registry (child (codes "entity") node)
    pub interface :
        layer.interface_name ≡ text_of ryml db_services registry (child (codes "interface") node)
    pub bypass :
        layer.bypass_logic ≡ bypass_of ryml db_services registry (child (codes "bypass-logic") node)
    pub known : get_element layer.service_name db_services ≡ some svc
    pub logic_name : layer.logic_name ≡ svc.logic_name
    pub logic : rule layer svc ≡ some layer.logic
    pub context : layer.context.service_name ≡ layer.service_name
    pub fresh : layer.context.fields ≡ []

  -- Layer for node.
  abbrev pub AllBound : List Node → List StackLayer → Type 0
  AllBound [] [] = Unit
  AllBound [] (layer ∷ layers) = ⊥
  AllBound (node ∷ nodes) [] = ⊥
  AllBound (node ∷ nodes) (layer ∷ layers) = IsBound node layer × AllBound nodes layers

  make_layer-IsBound :
      (node service : Node) (svc : ProtocolService) (logic : LogicModule)
      → child (codes "service") node ≡ some service
      → get_element (val service) db_services ≡ some svc
      → resolve_logic ryml db_services registry
          (bypass_of ryml db_services registry (child (codes "bypass-logic") node))
          svc
        ≡ some logic
      → IsBound node (
          make_layer ryml db_services registry node
            (val service)
            (bypass_of ryml db_services registry (child (codes "bypass-logic") node))
            svc
            logic)
  unfolding make_layer resolve_logic
  make_layer-IsBound node service svc logic c known e = record {
    svc = svc;
    service = sym (ap (text_of ryml db_services registry) c);
    entity = refl;
    interface = refl;
    bypass = refl;
    known = known;
    logic_name = refl;
    logic = e;
    context = refl;
    fresh = refl;
  }

  pub built-inj : {A : Type 0} {x y : A} → built x ≡ built y → x ≡ y
  built-inj e = cc

  bind_layer-IsBound :
      (node service : Node) {layer : StackLayer}
      → child (codes "service") node ≡ some service
      → bind_layer ryml db_services registry node
          (val service)
          (bypass_of ryml db_services registry (child (codes "bypass-logic") node))
          (get_element (val service) db_services)
        ≡ built layer
      → IsBound node layer
  bind_layer-IsBound node service {layer} c e = known (get_element (val service) db_services) refl e
    where
      bypass : Bool
      bypass = bypass_of ryml db_services registry (child (codes "bypass-logic") node)

      bound :
          (svc : ProtocolService) (o : Option LogicModule)
          → get_element (val service) db_services ≡ some svc
          → resolve_logic ryml db_services registry bypass svc ≡ o
          → (elim o as (λ x. Built StackLayer) [
            | none ↦ failed stack_err_unknown_logic
            | some logic ↦
                built (make_layer ryml db_services registry node (val service) bypass svc logic)
          ])
            ≡ built layer
          → IsBound node layer
      bound svc none k r e = cc
      bound svc (some logic) k r e =
          subst (IsBound node) (built-inj e) (make_layer-IsBound node service svc logic c k r)

      known :
          (o : Option ProtocolService)
          → get_element (val service) db_services ≡ o
          → bind_layer ryml db_services registry node (val service) bypass o ≡ built layer
          → IsBound node layer
      known none k e = cc
      known (some svc) k e = bound svc (resolve_logic ryml db_services registry bypass svc) k refl e

  pub build_layer-IsBound :
      (node : Node) {layer : StackLayer}
      → build_layer ryml db_services registry node ≡ built layer
      → IsBound node layer
  unfolding build_layer
  build_layer-IsBound node {layer} e = go (is_map node) (child (codes "service") node) refl e
    where
      go :
          (m : Bool) (o : Option Node)
          → child (codes "service") node ≡ o
          → (if not m
              then failed stack_err_missing_key
              else layer_of ryml db_services registry node o)
            ≡ built layer
          → IsBound node layer
      go false o c e = cc
      go true none c e = cc
      go true (some service) c e = bind_layer-IsBound node service c e
