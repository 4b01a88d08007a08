-- ===== src/Parser/Validator/Conforms.antt =====
-- What the checks of parser/src/validator.cpp demand of a protocol file and of a stack file, as one
-- Boolean each, without an order of the checks and without messages. It is not docs/schema: the
-- documents there also demand a property in `expected`, a non-empty string for a var_ref and for the
-- entity and the interface of a layer, and a Boolean for bypass-logic, and they tell strings from
-- numbers; on the other hand they allow integers of 2 ^ 64 and more.
use tsn_gen.Prelude.{
  Text, codes, text_eq, is_empty, leb, Bool, true, false, not, ◌&&◌, ◌||◌, List, [], ◌∷◌, Option,
  none, some,
}
use tsn_gen.Parser.Number.{ℤ, pos, negsuc}
use tsn_gen.Parser.Yaml.{Ryml, is_some}
use tsn_gen.Parser.Validator.{is_uint_scalar, as_int}
use tsn_gen.Parser.Validator.Steps.{if_there, all_nodes, is_key_of, ◌and_also◌}

module _ (ryml : Ryml) where
  open ryml use {Node, is_map, is_seq, has_val, val, child, children}

  -- The keys of a map are among those that are allowed.
  abbrev pub has_only_keys : List Text → Node → Bool
  has_only_keys allowed node = all_nodes ryml (is_key_of ryml allowed) (children node)

  -- A scalar that is not empty.
  abbrev pub is_filled : Node → Bool
  is_filled node = has_val node && not (is_empty (val node))

  abbrev pub is_filled_child : Option Node → Bool
  is_filled_child none = false
  is_filled_child (some node) = is_filled node

  abbrev pub is_no_node : List Node → Bool
  is_no_node [] = true
  is_no_node (node ∷ nodes) = false

  -- Exactly two unsigned numbers, and exactly one.
  abbrev pub is_pair : List Node → Bool
  is_pair (lo ∷ hi ∷ []) = is_uint_scalar ryml lo && is_uint_scalar ryml hi
  is_pair other = false

  abbrev pub is_single : List Node → Bool
  is_single (m ∷ []) = is_uint_scalar ryml m
  is_single other = false

  abbrev pub is_value_list : Node → Bool
  is_value_list list =
      is_seq list
      and_also not (is_no_node (children list))
      and_also all_nodes ryml (is_uint_scalar ryml) (children list)

  abbrev pub conforms_expected : Node → Bool
  conforms_expected expected =
      is_map expected
      and_also has_only_keys (codes "value" ∷ codes "values" ∷ codes "range" ∷ codes "mask" ∷ [])
          expected
      and_also if_there ryml (is_uint_scalar ryml) (child (codes "value") expected)
      and_also if_there ryml is_value_list (child (codes "values") expected)
      and_also if_there ryml (λ range. is_seq range and_also is_pair (children range))
          (child (codes "range") expected)
      and_also if_there ryml (λ mask. is_seq mask and_also is_single (children mask))
          (child (codes "mask") expected)

  abbrev pub bits_in_bounds : Option ℤ → Bool
  bits_in_bounds none = false
  bits_in_bounds (some (pos n)) = leb 1 n && leb n 4096
  bits_in_bounds (some (negsuc n)) = false

  -- A size is there, an unsigned number, and in 1..4096.
  abbrev pub conforms_size : Option Node → Bool
  conforms_size none = false
  conforms_size (some size) = is_uint_scalar ryml size and_also bits_in_bounds (as_int ryml size)

  abbrev pub conforms_var : Node → Bool
  conforms_var var =
      is_map var
      and_also has_only_keys (codes "var" ∷ codes "size" ∷ codes "expected" ∷ []) var
      and_also is_filled_child (child (codes "var") var)
      and_also conforms_size (child (codes "size") var)
      and_also if_there ryml conforms_expected (child (codes "expected") var)

  abbrev pub conforms_ref : Node → Bool
  conforms_ref ref =
      (is_map ref && is_some (child (codes "var_ref") ref))
      and_also has_only_keys (codes "var_ref" ∷ []) ref

  abbrev pub conforms_dir : Option Node → Bool
  conforms_dir none = false
  conforms_dir (some dir) = text_eq (val dir) (codes "in") || text_eq (val dir) (codes "out")

  abbrev pub conforms_refs : Node → Bool
  conforms_refs vars = is_seq vars and_also all_nodes ryml conforms_ref (children vars)

  abbrev pub conforms_interface : Node → Bool
  conforms_interface iface =
      is_map iface
      and_also has_only_keys (codes "interface" ∷ codes "dir" ∷ codes "vars" ∷ []) iface
      and_also is_filled_child (child (codes "interface") iface)
      and_also conforms_dir (child (codes "dir") iface)
      and_also if_there ryml conforms_refs (child (codes "vars") iface)

  -- A list with at least one element, each of which conforms.
  abbrev pub conforms_list : (Node → Bool) → Option Node → Bool
  conforms_list p none = false
  conforms_list p (some list) =
      is_seq list
      and_also not (is_no_node (children list))
      and_also all_nodes ryml p (children list)

  abbrev pub conforms_entity : Node → Bool
  conforms_entity ent =
      is_map ent
      and_also has_only_keys (codes "entity" ∷ codes "interfaces" ∷ []) ent
      and_also is_filled_child (child (codes "entity") ent)
      and_also conforms_list conforms_interface (child (codes "interfaces") ent)

  abbrev pub each_conforms : (Node → Bool) → Node → Bool
  each_conforms p list = is_seq list and_also all_nodes ryml p (children list)

  unfoldable pub conforms_protocol : Node → Bool
  conforms_protocol root =
      has_only_keys (codes "service" ∷ codes "logic" ∷ codes "vars" ∷ codes "entities" ∷ []) root
      and_also is_filled_child (child (codes "service") root)
      and_also if_there ryml is_filled (child (codes "logic") root)
      and_also (is_some (child (codes "vars") root) || is_some (child (codes "entities") root))
      and_also if_there ryml (each_conforms conforms_var) (child (codes "vars") root)
      and_also if_there ryml (each_conforms conforms_entity) (child (codes "entities") root)

  abbrev pub conforms_layer : Node → Bool
  conforms_layer layer =
      is_map layer
      and_also has_only_keys
          (codes "service" ∷ codes "entity" ∷ codes "interface" ∷ codes "bypass-logic" ∷ []) layer
      and_also is_filled_child (child (codes "service") layer)

  unfoldable pub conforms_stack : Node → Bool
  conforms_stack root =
      has_only_keys (codes "stack" ∷ codes "layers" ∷ []) root
      and_also is_filled_child (child (codes "stack") root)
      and_also conforms_list conforms_layer (child (codes "layers") root)
