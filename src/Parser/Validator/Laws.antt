-- ===== src/Parser/Validator/Laws.antt =====
-- Each check of the validator finds nothing exactly on what has what it demands
-- (parser/src/validator.cpp).
use tsn_gen.Prelude.{
  Text, codes, refl, leb, Bool, true, false, not, ◌&&◌, ◌||◌, List, [], ◌∷◌, Option, none, some,
  if◌then◌else◌,
}
use tsn_gen.Parser.Number.{ℤ, pos, negsuc}
use tsn_gen.Parser.Yaml.{Ryml, is_some}
use tsn_gen.Parser.Validator.{
  Step, report, is_non_empty_scalar, is_uint_scalar, as_int, is_named, check_allowed_keys,
}
use tsn_gen.Parser.Validator.Schema.{
  uint_items, is_nil_nodes, check_values, two_uints, one_uint, validate_expected, check_bits,
  check_size, validate_var, is_ref, is_dir, check_refs, check_dir, check_ref_list,
  validate_interface, check_interfaces, validate_entity, check_list, validate_protocol,
  validate_layer, check_layers, validate_stack,
}
use tsn_gen.Parser.Validator.Steps.{
  Decides, pass-Decides, then-Decides, report-Decides, require-Decides, unless-Decides,
  optional-Decides, for_each-Decides, allowed_loop-Decides, all_nodes, ◌and_also◌,
}
use tsn_gen.Parser.Validator.Conforms.{
  has_only_keys, is_value_list, conforms_expected, bits_in_bounds, conforms_size, conforms_var,
  conforms_ref, conforms_dir, conforms_refs, conforms_interface, conforms_list, conforms_entity,
  each_conforms, conforms_protocol, conforms_layer, conforms_stack,
}

module _ (ryml : Ryml) where
  open ryml use {Node, is_map, is_seq, val, child, children}

  keys-Decides :
      (allowed : List Text) (place : Text) (node : Node)
      → Decides (check_allowed_keys ryml allowed place node) (has_only_keys ryml allowed node)
  keys-Decides allowed place node = allowed_loop-Decides ryml allowed place (children node)

  uint_items-Decides :
      (name : Text) (items : List Node)
      → Decides (uint_items ryml name items) (all_nodes ryml (is_uint_scalar ryml) items)
  unfolding uint_items
  uint_items-Decides name [] = pass-Decides
  uint_items-Decides name (item ∷ items) =
      unless-Decides ryml (is_uint_scalar ryml item) item _ (uint_items ryml name items)
        (all_nodes ryml (is_uint_scalar ryml) items) (uint_items-Decides name items)

  -- A list that is none, or that is empty where it must not be, is an error before its elements.
  list-Decides :
      (seq nil : Bool) (node : Node) (msg : Text) (f : Step) (b : Bool)
      → Decides f b
      → Decides
          (if not seq || nil then report ryml node msg else f)
          (seq and_also not nil and_also b)
  list-Decides false nil node msg f b df = report-Decides ryml node msg
  list-Decides true true node msg f b df = report-Decides ryml node msg
  list-Decides true false node msg f b df = df

  check_values-Decides :
      (name : Text) (list : Node) → Decides (check_values ryml name list) (is_value_list ryml list)
  check_values-Decides name list =
      list-Decides (is_seq list) (is_nil_nodes ryml (children list)) list _
        (uint_items ryml name (children list)) _ (uint_items-Decides name (children list))

  validate_expected-Decides :
      (name : Text) (expected : Node)
      → Decides (validate_expected ryml name expected) (conforms_expected ryml expected)
  unfolding validate_expected
  validate_expected-Decides name expected = unless-Decides ryml (is_map expected) expected _ _ _ (
      then-Decides (keys-Decides _ _ expected) (
        then-Decides
          (optional-Decides ryml _ _ (child (codes "value") expected)
            (λ node. require-Decides ryml (is_uint_scalar ryml node) node _))
          (then-Decides
            (optional-Decides ryml _ _ (child (codes "values") expected)
              (check_values-Decides name))
            (then-Decides
              (optional-Decides ryml _ _ (child (codes "range") expected) (λ node.
                require-Decides ryml (is_seq node && two_uints ryml (children node)) node _))
              (optional-Decides ryml _ _ (child (codes "mask") expected) (λ node.
                require-Decides ryml (is_seq node && one_uint ryml (children node)) node _))))))

  check_bits-Decides :
      (name : Text) (size : Node) (o : Option ℤ)
      → Decides (check_bits ryml name size o) (bits_in_bounds ryml o)
  check_bits-Decides name size none = record { outcome = λ ctx. refl }
  check_bits-Decides name size (some (pos n)) = record {
    outcome = (require-Decides ryml (leb 1 n && leb n 4096) size _).outcome;
  }
  check_bits-Decides name size (some (negsuc n)) = record {
    outcome = (require-Decides ryml false size _).outcome;
  }

  check_size-Decides :
      (name : Text) (var : Node) (o : Option Node)
      → Decides (check_size ryml name var o) (conforms_size ryml o)
  unfolding check_size
  check_size-Decides name var none = report-Decides ryml var _
  check_size-Decides name var (some size) =
      unless-Decides ryml (is_uint_scalar ryml size) size _ _ _
        (check_bits-Decides name size (as_int ryml size))

  validate_var-Decides : (var : Node) → Decides (validate_var ryml var) (conforms_var ryml var)
  unfolding validate_var
  validate_var-Decides var = unless-Decides ryml (is_map var) var _ _ _ (
      then-Decides (keys-Decides _ _ var) (
        then-Decides (require-Decides ryml (is_named ryml (child (codes "var") var)) var _) (
          then-Decides (check_size-Decides _ var (child (codes "size") var)) (
            optional-Decides ryml _ _ (child (codes "expected") var)
              (validate_expected-Decides _)))))

  check_refs-Decides :
      (name : Text) (refs : List Node)
      → Decides (check_refs ryml name refs) (all_nodes ryml (conforms_ref ryml) refs)
  unfolding check_refs
  check_refs-Decides name [] = pass-Decides
  check_refs-Decides name (ref ∷ refs) = assoc (is_ref ryml ref) _ _ (
      unless-Decides ryml (is_ref ryml ref) ref _ _ _
        (then-Decides (keys-Decides _ _ ref) (check_refs-Decides name refs)))
    where
      assoc :
          {f : Step} (a b c : Bool)
          → Decides f (a and_also b and_also c)
          → Decides f ((a and_also b) and_also c)
      assoc true b c d = d
      assoc false b c d = d

  check_ref_list-Decides :
      (name : Text) (vars : Node)
      → Decides (check_ref_list ryml name vars) (conforms_refs ryml vars)
  check_ref_list-Decides name vars =
      unless-Decides ryml (is_seq vars) vars _ _ _ (check_refs-Decides name (children vars))

  check_dir-Decides :
      (name : Text) (iface : Node) (o : Option Node)
      → Decides (check_dir ryml name iface o) (conforms_dir ryml o)
  check_dir-Decides name iface none = report-Decides ryml iface _
  check_dir-Decides name iface (some dir) = require-Decides ryml (is_dir ryml (val dir)) dir _

  validate_interface-Decides :
      (iface : Node) → Decides (validate_interface ryml iface) (conforms_interface ryml iface)
  unfolding validate_interface
  validate_interface-Decides iface = unless-Decides ryml (is_map iface) iface _ _ _ (
      then-Decides (keys-Decides _ _ iface) (
        then-Decides
          (require-Decides ryml (is_named ryml (child (codes "interface") iface)) iface _)
          (then-Decides (check_dir-Decides _ iface (child (codes "dir") iface))
            (optional-Decides ryml _ _ (child (codes "vars") iface) (check_ref_list-Decides _)))))

  check_interfaces-Decides :
      (name : Text) (ent : Node) (o : Option Node)
      → Decides (check_interfaces ryml name ent o) (conforms_list ryml (conforms_interface ryml) o)
  check_interfaces-Decides name ent none = report-Decides ryml ent _
  check_interfaces-Decides name ent (some ifaces) =
      list-Decides (is_seq ifaces) (is_nil_nodes ryml (children ifaces)) ifaces _ _ _
        (for_each-Decides ryml _ _ (children ifaces) validate_interface-Decides)

  validate_entity-Decides :
      (ent : Node) → Decides (validate_entity ryml ent) (conforms_entity ryml ent)
  unfolding validate_entity
  validate_entity-Decides ent = unless-Decides ryml (is_map ent) ent _ _ _ (
      then-Decides (keys-Decides _ _ ent) (
        then-Decides (require-Decides ryml (is_named ryml (child (codes "entity") ent)) ent _)
          (check_interfaces-Decides _ ent (child (codes "interfaces") ent))))

  check_list-Decides :
      (f : Node → Step) (p : Node → Bool) (msg : Text) (list : Node)
      → ((node : Node) → Decides (f node) (p node))
      → Decides (check_list ryml f msg list) (each_conforms ryml p list)
  check_list-Decides f p msg list df =
      unless-Decides ryml (is_seq list) list _ _ _ (for_each-Decides ryml f p (children list) df)

  pub validate_protocol-Decides :
      (root : Node) → Decides (validate_protocol ryml root) (conforms_protocol ryml root)
  unfolding validate_protocol conforms_protocol
  validate_protocol-Decides root = then-Decides (keys-Decides _ _ root) (
      then-Decides (require-Decides ryml (is_named ryml (child (codes "service") root)) root _) (
        then-Decides
          (optional-Decides ryml _ _ (child (codes "logic") root)
            (λ node. require-Decides ryml (is_non_empty_scalar ryml node) node _))
          (then-Decides
            (require-Decides ryml
              (is_some (child (codes "vars") root) || is_some (child (codes "entities") root)) root
              _)
            (then-Decides
              (optional-Decides ryml _ _ (child (codes "vars") root)
                (λ list. check_list-Decides _ _ _ list validate_var-Decides))
              (optional-Decides ryml _ _ (child (codes "entities") root)
                (λ list. check_list-Decides _ _ _ list validate_entity-Decides))))))

  validate_layer-Decides :
      (layer : Node) → Decides (validate_layer ryml layer) (conforms_layer ryml layer)
  unfolding validate_layer
  validate_layer-Decides layer = unless-Decides ryml (is_map layer) layer _ _ _ (
      then-Decides (keys-Decides _ _ layer)
        (require-Decides ryml (is_named ryml (child (codes "service") layer)) layer _))

  check_layers-Decides :
      (root : Node) (o : Option Node)
      → Decides (check_layers ryml root o) (conforms_list ryml (conforms_layer ryml) o)
  check_layers-Decides root none = report-Decides ryml root _
  check_layers-Decides root (some layers) =
      list-Decides (is_seq layers) (is_nil_nodes ryml (children layers)) layers _ _ _
        (for_each-Decides ryml _ _ (children layers) validate_layer-Decides)

  pub validate_stack-Decides :
      (root : Node) → Decides (validate_stack ryml root) (conforms_stack ryml root)
  unfolding validate_stack conforms_stack
  validate_stack-Decides root = then-Decides (keys-Decides _ _ root) (
      then-Decides (require-Decides ryml (is_named ryml (child (codes "stack") root)) root _)
        (check_layers-Decides root (child (codes "layers") root)))
