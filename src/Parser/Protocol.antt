-- ===== src/Parser/Protocol.antt =====
-- `Protocol` and what it reads from one file: the vars, the interfaces and the service
-- (parser/inc/tsn/protocol.h, parser/inc/tsn/service.h, parser/src/protocol.cpp). What is logged is
-- left out.
pub mod File
pub mod Laws
use tsn_gen.Prelude.{
  Text, codes, text_eq, is_empty, ℕ, ◌+◌, ◌%◌, ◌^◌, ◌==◌, Bool, true, false, not, ◌&&◌, ◌||◌, List,
  [], ◌∷◌, ◌++◌, Option, none, some, if◌then◌else◌, length,
}
use tsn_gen.Database.{Database, add_unique_element, empty}
use tsn_gen.Packet.{Range, Var, ProtocolInterface, IfDirections, inward, outward}
use tsn_gen.Parser.Number.{stoull}
use tsn_gen.Parser.Yaml.{Ryml, is_some}

pub data ProtocolErr : Type 0 where
  proto_success protoerr_unknown protoerr_invalid_file protoerr_unexpected : ProtocolErr

pub record ProtocolService : Type 0 where
  pub name : Text
  pub logic_name : Text

abbrev pub has_logic : ProtocolService → Bool
has_logic svc = not (is_empty svc.logic_name)

-- `parseU64`: a malformed number is the fallback, and trailing characters are only logged.
unfoldable pub parse_u64 : Text → ℕ → ℕ
parse_u64 text fallback = elim (stoull 0 text) [ some r ↦ r.0 | none ↦ fallback ]

abbrev pub sep : Text
sep = codes "::"

-- `text.find("::") != npos`.
unfoldable pub has_sep : Text → Bool
has_sep [] = false
has_sep (c ∷ []) = false
has_sep (c ∷ d ∷ s) = c == b':' && d == b':' || has_sep (d ∷ s)

module _ (ryml : Ryml) where
  open ryml use {Node, is_map, is_seq, has_val, key_is_null, is_number, val, child, children}

  -- `node.has_child(name)`.
  abbrev pub has_child : Text → Node → Bool
  has_child name node = is_some (child name node)

  -- The elements of a child that is a list.
  abbrev pub seq_items : Text → Node → List Node
  seq_items name node = elim (child name node) [
    | none ↦ []
    | some list ↦ if is_seq list then children list else []
  ]

  -- `checkNodeValidity(node, parser, VAL, checkisNumber)`.
  unfoldable pub check_node_validity : Option Node → Bool → ProtocolErr
  check_node_validity none check_is_number = protoerr_invalid_file
  check_node_validity (some node) check_is_number =
      if key_is_null node
      then protoerr_invalid_file
      else if not (has_val node)
      then protoerr_unexpected
      else if (if is_number node then not check_is_number else check_is_number)
      then protoerr_unexpected
      else proto_success

  -- The error, and the name of the service.
  unfoldable pub get_protocol_name : Node → ProtocolErr × Text
  unfolding check_node_validity
  get_protocol_name root =
      let service = child (codes "service") root in
      let err = check_node_validity service false in
      (err, elim service [ none ↦ [] | some node ↦ val node ])

  unfoldable pub parse_values : List Node → List ℕ
  unfolding parse_u64
  parse_values [] = []
  parse_values (node ∷ nodes) = parse_u64 (val node) 0 ∷ parse_values nodes

  -- `expected.values` and then `expected.value`.
  unfoldable pub parse_expected : Node → List ℕ
  unfolding parse_values
  parse_expected expected =
      parse_values (seq_items (codes "values") expected) ++ (elim (child (codes "value") expected) [
        | none ↦ []
        | some value ↦ parse_u64 (val value) 0 ∷ []
      ])

  abbrev pub range_of : List ℕ → Option Range
  range_of (lo ∷ hi ∷ []) = some (record { min = lo; max = hi })
  range_of other = none

  unfoldable pub parse_range : Node → Option Range
  unfolding parse_values
  parse_range expected = range_of (parse_values (seq_items (codes "range") expected))

  abbrev pub first_of : List ℕ → ℕ
  first_of [] = 0
  first_of (m ∷ rest) = m

  unfoldable pub parse_mask : Node → ℕ
  unfolding parse_values
  parse_mask expected = first_of (parse_values (seq_items (codes "mask") expected))

  -- The var of an entry with that name: `size` is cast to 32 bits.
  unfoldable pub parse_var : Text → Node → Var
  unfolding parse_u64 parse_expected parse_range parse_mask
  parse_var qualified_name item =
      let expected = child (codes "expected") item in
      record {
        name = qualified_name;
        size = elim (child (codes "size") item) [
          | none ↦ 0
          | some size ↦ parse_u64 (val size) 0 % 2 ^ 32
        ];
        expected_values = elim expected [ none ↦ [] | some e ↦ parse_expected e ];
        range = elim expected [ none ↦ none | some e ↦ parse_range e ];
        mask = elim expected [ none ↦ 0 | some e ↦ parse_mask e ];
      }

  -- A var that is there already is kept.
  unfoldable pub parse_vars : Text → List Node → Database Var → Database Var
  unfolding parse_var
  parse_vars service [] db_vars = db_vars
  parse_vars service (item ∷ items) db_vars =
      parse_vars service items (elim (child (codes "var") item) [
        | none ↦ db_vars
        | some name ↦
            let qualified_name = service ++ sep ++ val name in
            (add_unique_element qualified_name (parse_var qualified_name item) db_vars).1
      ])

  unfoldable pub get_parsed_protocol_vars : Text → Node → Database Var → Database Var
  unfolding parse_vars
  get_parsed_protocol_vars service root db_vars =
      parse_vars service (seq_items (codes "vars") root) db_vars

  unfoldable pub map_refs : Text → List Node → List Text
  map_refs service [] = []
  map_refs service (item ∷ items) = (service ++ sep ++ val item) ∷ map_refs service items

  unfoldable pub seq_refs : Text → List Node → List Text
  unfolding has_sep
  seq_refs service [] = []
  seq_refs service (item ∷ items) =
      let rest = seq_refs service items in
      if not (is_map item) then rest else elim (child (codes "var_ref") item) [
        | none ↦ rest
        | some ref ↦ (if has_sep (val ref) then val ref else service ++ sep ++ val ref) ∷ rest
      ]

  unfoldable pub var_refs_of : Text → Option Node → List Text
  unfolding map_refs seq_refs
  var_refs_of service none = []
  var_refs_of service (some refs) =
      if is_map refs
      then map_refs service (children refs)
      else if is_seq refs
      then seq_refs service (children refs)
      else []

  abbrev direction_of : Option Node → IfDirections
  direction_of none = inward
  direction_of (some dir) = if text_eq (val dir) (codes "out") then outward else inward

  unfoldable pub parse_interface : Text → Text → Node → ProtocolInterface
  unfolding var_refs_of
  parse_interface service qualified_name item = record {
    interface_name = qualified_name;
    direction = direction_of (child (codes "dir") item);
    var_refs = var_refs_of service (child (codes "vars") item);
  }
