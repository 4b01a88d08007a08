-- ===== src/Parser/Validator/Schema.antt =====
-- The checks of the parts of a protocol file and of a stack file (parser/src/validator.cpp). A
-- message is the text of the source, with `around` for the name in quotes.
use tsn_gen.Prelude.{
  Text, codes, text_eq, Bool, true, false, not, ◌&&◌, ◌||◌, List, [], ◌∷◌, Option, none, some,
  if◌then◌else◌,
}
use tsn_gen.Parser.Number.{ℤ}
use tsn_gen.Parser.Yaml.{Ryml, is_some}
use tsn_gen.Parser.Validator.{
  Step, pass, ◌then_check◌, report, require, is_non_empty_scalar, is_uint_scalar, as_int, in_bounds,
  check_allowed_keys, name_of, is_named, optional, for_each_node,
}
use tsn_gen.Parser.Validator.Messages.{around}

module _ (ryml : Ryml) where
  open ryml use {Node, is_map, is_seq, has_val, val, child, children}

  -- The loop over `expected.values` stops at the first item that is no number.
  unfoldable pub uint_items : Text → List Node → Step
  unfolding is_uint_scalar
  uint_items name [] = pass
  uint_items name (item ∷ items) =
      if not (is_uint_scalar ryml item)
      then report ryml item
          (around (codes "expected.values of ") name (codes " must contain unsigned integers"))
      else uint_items name items

  abbrev pub is_nil_nodes : List Node → Bool
  is_nil_nodes [] = true
  is_nil_nodes (node ∷ nodes) = false

  abbrev pub check_values : Text → Node → Step
  check_values name list =
      if not (is_seq list) || is_nil_nodes (children list)
      then report ryml list
          (around (codes "expected.values of ") name (codes " must be a non-empty list"))
      else uint_items name (children list)

  -- `num_children() == 2` and two numbers, or one.
  abbrev pub two_uints : List Node → Bool
  two_uints (lo ∷ hi ∷ []) = is_uint_scalar ryml lo && is_uint_scalar ryml hi
  two_uints other = false

  abbrev pub one_uint : List Node → Bool
  one_uint (m ∷ []) = is_uint_scalar ryml m
  one_uint other = false

  unfoldable pub validate_expected : Text → Node → Step
  unfolding uint_items
  validate_expected name expected =
      if not (is_map expected)
      then report ryml expected (around (codes "'expected' for var ") name (codes " must be a map"))
      else check_allowed_keys ryml
          (codes "value" ∷ codes "values" ∷ codes "range" ∷ codes "mask" ∷ [])
          (around (codes "expected of var ") name []) expected
        then_check optional ryml
            (λ value.
              require ryml (is_uint_scalar ryml value) value
                (around (codes "expected.value of ") name (codes " must be an unsigned integer")))
            (child (codes "value") expected)
        then_check optional ryml (check_values name) (child (codes "values") expected)
        then_check optional ryml
            (λ range. require ryml (is_seq range && two_uints (children range)) range (
              around (codes "expected.range of ") name
                (codes " must be [min, max] unsigned integers")))
            (child (codes "range") expected)
        then_check optional ryml
            (λ mask. require ryml (is_seq mask && one_uint (children mask)) mask (
              around (codes "expected.mask of ") name (codes " must be a single-element [M] list")))
            (child (codes "mask") expected)

  -- `asInt` may throw.
  abbrev pub check_bits : Text → Node → Option ℤ → Step
  check_bits name size none ctx = none
  check_bits name size (some bits) ctx =
      require ryml (in_bounds ryml bits) size
        (around (codes "var ") name (codes " size must be in 1..4096 bits")) ctx

  unfoldable pub check_size : Text → Node → Option Node → Step
  unfolding is_uint_scalar as_int
  check_size name var none = report ryml var (around (codes "var ") name (codes " missing 'size'"))
  check_size name var (some size) =
      if not (is_uint_scalar ryml size)
      then report ryml size (around (codes "var ") name (codes " size must be an unsigned integer"))
      else check_bits name size (as_int ryml size)

  unfoldable pub validate_var : Node → Step
  unfolding check_size validate_expected
  validate_var var =
      let named = child (codes "var") var in
      let name = name_of ryml named in
      if not (is_map var)
      then report ryml var (codes "each 'vars' entry must be a map")
      else check_allowed_keys ryml (codes "var" ∷ codes "size" ∷ codes "expected" ∷ [])
          (codes "a vars entry") var
        then_check require ryml (is_named ryml named) var
            (codes "vars entry missing a non-empty 'var' name")
        then_check check_size name var (child (codes "size") var)
        then_check optional ryml (validate_expected name) (child (codes "expected") var)

  abbrev pub is_ref : Node → Bool
  is_ref ref = is_map ref && is_some (child (codes "var_ref") ref)

  -- The loop over the references of an interface stops at the first that is none.
  unfoldable pub check_refs : Text → List Node → Step
  check_refs name [] = pass
  check_refs name (ref ∷ refs) =
      if not (is_ref ref)
      then report ryml ref
          (around (codes "interface ") name (codes " vars entries must be '{ var_ref: name }'"))
      else check_allowed_keys ryml (codes "var_ref" ∷ [])
          (around (codes "a var_ref of interface ") name []) ref
        then_check check_refs name refs

  abbrev pub is_dir : Text → Bool
  is_dir dir = text_eq dir (codes "in") || text_eq dir (codes "out")

  abbrev pub check_dir : Text → Node → Option Node → Step
  check_dir name iface none =
      report ryml iface (around (codes "interface ") name (codes " missing 'dir'"))
  check_dir name iface (some dir) = require ryml (is_dir (val dir)) dir (
      around (codes "interface ") name
        (around (codes " dir must be 'in' or 'out' (got ") (val dir) (codes ")")))

  abbrev pub check_ref_list : Text → Node → Step
  check_ref_list name vars =
      if not (is_seq vars)
      then report ryml vars
          (around (codes "interface ") name (codes " vars must be a list of var_ref"))
      else check_refs name (children vars)

  unfoldable pub validate_interface : Node → Step
  unfolding check_refs
  validate_interface iface =
      let named = child (codes "interface") iface in
      let name = name_of ryml named in
      if not (is_map iface)
      then report ryml iface (codes "each interface must be a map")
      else check_allowed_keys ryml (codes "interface" ∷ codes "dir" ∷ codes "vars" ∷ [])
          (codes "an interface") iface
        then_check require ryml (is_named ryml named) iface
            (codes "interface missing a non-empty 'interface' name")
        then_check check_dir name iface (child (codes "dir") iface)
        then_check optional ryml (check_ref_list name) (child (codes "vars") iface)

  abbrev pub check_interfaces : Text → Node → Option Node → Step
  check_interfaces name ent none =
      report ryml ent (around (codes "entity ") name (codes " missing 'interfaces'"))
  check_interfaces name ent (some ifaces) =
      if not (is_seq ifaces) || is_nil_nodes (children ifaces)
      then report ryml ifaces
          (around (codes "entity ") name (codes " interfaces must be a non-empty list"))
      else for_each_node ryml validate_interface (children ifaces)

  unfoldable pub validate_entity : Node → Step
  unfolding validate_interface for_each_node
  validate_entity ent =
      let named = child (codes "entity") ent in
      let name = name_of ryml named in
      if not (is_map ent)
      then report ryml ent (codes "each 'entities' entry must be a map")
      else check_allowed_keys ryml (codes "entity" ∷ codes "interfaces" ∷ [])
          (codes "an entities entry") ent
        then_check require ryml (is_named ryml named) ent
            (codes "entities entry missing a non-empty 'entity' name")
        then_check check_interfaces name ent (child (codes "interfaces") ent)

  abbrev pub check_list : (Node → Step) → Text → Node → Step
  check_list f msg list =
      if not (is_seq list) then report ryml list msg else for_each_node ryml f (children list)

  -- The body of `validateProtocolFile`.
  unfoldable pub validate_protocol : Node → Step
  unfolding validate_var validate_entity
  validate_protocol root =
      check_allowed_keys ryml
        (codes "service" ∷ codes "logic" ∷ codes "vars" ∷ codes "entities" ∷ [])
        (codes "the top level") root
      then_check require ryml (is_named ryml (child (codes "service") root)) root
          (codes "missing required non-empty 'service'")
      then_check optional ryml
          (λ logic.
            require ryml (is_non_empty_scalar ryml logic) logic
              (codes "'logic' must be a non-empty string"))
          (child (codes "logic") root)
      then_check require ryml
          (is_some (child (codes "vars") root) || is_some (child (codes "entities") root)) root
          (codes "a protocol must define 'vars' and/or 'entities'")
      then_check optional ryml (check_list validate_var (codes "'vars' must be a list"))
          (child (codes "vars") root)
      then_check optional ryml (check_list validate_entity (codes "'entities' must be a list"))
          (child (codes "entities") root)

  unfoldable pub validate_layer : Node → Step
  validate_layer layer =
      if not (is_map layer)
      then report ryml layer (codes "each layer must be a map")
      else check_allowed_keys ryml
          (codes "service" ∷ codes "entity" ∷ codes "interface" ∷ codes "bypass-logic" ∷ [])
          (codes "a layer") layer
        then_check require ryml (is_named ryml (child (codes "service") layer)) layer
            (codes "layer missing a non-empty 'service'")

  abbrev pub check_layers : Node → Option Node → Step
  check_layers root none = report ryml root (codes "missing 'layers'")
  check_layers root (some layers) =
      if not (is_seq layers) || is_nil_nodes (children layers)
      then report ryml layers (codes "'layers' must be a non-empty list")
      else for_each_node ryml validate_layer (children layers)

  -- The body of `validateStackFile`.
  unfoldable pub validate_stack : Node → Step
  unfolding validate_layer for_each_node
  validate_stack root =
      check_allowed_keys ryml (codes "stack" ∷ codes "layers" ∷ []) (codes "the top level") root
      then_check require ryml (is_named ryml (child (codes "stack") root)) root
          (codes "missing required non-empty 'stack'")
      then_check check_layers root (child (codes "layers") root)
