-- ===== src/Parser/Validator/Accepted.antt =====
-- What the parser makes of a file that the validator accepts (parser/src/validator.cpp,
-- parser/src/protocol.cpp).
use tsn_gen.Prelude.{
  Text, codes, ℕ, ◌%◌, ◌^◌, ◌≤◌, ◌≡◌, refl, ◌∙◌, arith, Bool, true, false, ◌||◌, List, [], ◌∷◌,
  Option, none, some, if◌then◌else◌, All,
}
use tsn_gen.Database.{Database}
use tsn_gen.Packet.{Var}
use tsn_gen.Packet.Layout.{IsVar}
use tsn_gen.Parser.Number.{ℤ, pos, negsuc, stoll, stoull-stoll}
use tsn_gen.Parser.Yaml.{Ryml, is_some}
use tsn_gen.Parser.Protocol.{
  ProtocolErr, proto_success, protoerr_unknown, protoerr_unexpected, protoerr_invalid_file,
  parse_u64, check_node_validity, parse_var, get_parsed_protocol_vars, get_protocol_name,
}
use tsn_gen.Parser.Protocol.File.{Databases, parse_sections, parse_tree}
use tsn_gen.Parser.Protocol.Laws.{parse_var-IsVar, parse_vars-All}
use tsn_gen.Parser.Validator.{is_non_empty_scalar, is_uint_scalar, as_int, in_bounds, is_named}
use tsn_gen.Parser.Validator.Steps.{all_nodes, if_there, ◌and_also◌}
use tsn_gen.Parser.Validator.Conforms.{
  conforms_size, conforms_var, conforms_entity, conforms_expected, has_only_keys, each_conforms,
  conforms_protocol, bits_in_bounds,
}

-- A var as the rest of the program wants it, of 1 to 4096 bits.
pub record IsAccepted (var : Var) : Type 0 where
  pub is_var : IsVar var
  pub lower : 1 ≤ var.size
  pub upper : var.size ≤ 4096

pub and-left : (a b : Bool) → a and_also b ≡ true → a ≡ true
and-left true b h = refl
and-left false b h = cc

pub and-right : (a b : Bool) → a and_also b ≡ true → b ≡ true
and-right true b h = h
and-right false b h = cc

module _ (ryml : Ryml) where
  open ryml use {Node, is_map, is_seq, has_val, key_is_null, is_number, val, child, children}

  bounds : (n : ℕ) → in_bounds ryml (pos n) ≡ true → (1 ≤ n) × (n ≤ 4096)
  bounds n h = (ground arith, ground arith)

  parse_u64-bounds :
      (s : Text) (o : Option ℤ)
      → stoll 0 s ≡ o
      → bits_in_bounds ryml o ≡ true
      → (1 ≤ parse_u64 s 0) × (parse_u64 s 0 ≤ 4096)
  unfolding parse_u64
  parse_u64-bounds s none e h = cc
  parse_u64-bounds s (some (negsuc n)) e h = cc
  parse_u64-bounds s (some (pos n)) e h =
      let (lo, hi) = bounds n h in
      let (k, read) = stoull-stoll 0 s e (omega arith) in rw (parse_u64, read) (lo, hi)

  size-bounds :
      (o : Option Node)
      → conforms_size ryml o ≡ true
      → (1 ≤ (elim o as (λ x. ℕ) [ none ↦ 0 | some size ↦ parse_u64 (val size) 0 % 2 ^ 32 ]))
        × ((elim o as (λ x. ℕ) [ none ↦ 0 | some size ↦ parse_u64 (val size) 0 % 2 ^ 32 ]) ≤ 4096)
  unfolding as_int
  size-bounds none h = cc
  size-bounds (some size) h =
      let (lo, hi) =
        parse_u64-bounds (val size) (as_int ryml size) refl
          (and-right (is_uint_scalar ryml size) (bits_in_bounds ryml (as_int ryml size)) h) in
      (omega arith, omega arith)

  abbrev var_keys : List Text
  var_keys = codes "var" ∷ codes "size" ∷ codes "expected" ∷ []

  -- What is left of a conforming var after each part of it.
  abbrev sized_parts : Node → Bool
  sized_parts item =
      conforms_size ryml (child (codes "size") item)
      and_also if_there ryml (conforms_expected ryml) (child (codes "expected") item)

  abbrev named_parts : Node → Bool
  named_parts item = is_named ryml (child (codes "var") item) and_also sized_parts item

  abbrev var_parts : Node → Bool
  var_parts item = has_only_keys ryml var_keys item and_also named_parts item

  var-size :
      (item : Node)
      → conforms_var ryml item ≡ true
      → conforms_size ryml (child (codes "size") item) ≡ true
  var-size item h =
      let keys = and-right (is_map item) (var_parts item) h in
      let named = and-right (has_only_keys ryml var_keys item) (named_parts item) keys in
      let sized = and-right (is_named ryml (child (codes "var") item)) (sized_parts item) named in
      and-left (conforms_size ryml (child (codes "size") item)) _ sized

  parsed-bounds :
      (name : Text) (item : Node)
      → conforms_var ryml item ≡ true
      → (1 ≤ (parse_var ryml name item).size) × ((parse_var ryml name item).size ≤ 4096)
  unfolding parse_var
  parsed-bounds name item h = size-bounds (child (codes "size") item) (var-size item h)

  -- The parser reads an entry that has what the validator's checks demand of a var as a var of 1
  -- to 4096 bits whose values, range and mask are 64-bit words.
  pub parse_var-IsAccepted :
      (name : Text) (item : Node)
      → conforms_var ryml item ≡ true
      → IsAccepted (parse_var ryml name item)
  parse_var-IsAccepted name item h =
      let (lo, hi) = parsed-bounds name item h in
      record { is_var = parse_var-IsVar ryml name item (omega arith); lower = lo; upper = hi }

  items-IsAccepted :
      (items : List Node)
      → all_nodes ryml (conforms_var ryml) items ≡ true
      → All (λ item. (name : Text) → IsAccepted (parse_var ryml name item)) items
  items-IsAccepted [] h = tt
  items-IsAccepted (item ∷ items) h = (
    (λ name. parse_var-IsAccepted name item (and-left _ _ h)),
    items-IsAccepted items (and-right (conforms_var ryml item) _ h),
  )

  AllAccepted : Databases → Type 0
  AllAccepted dbs = All (λ e. IsAccepted e.1) dbs.vars.internal_maps

  -- The entries that the parser reads are those that the validator has checked.
  list-IsAccepted :
      (o : Option Node)
      → if_there ryml (each_conforms ryml (conforms_var ryml)) o ≡ true
      → All
          (λ item. (name : Text) → IsAccepted (parse_var ryml name item))
          (elim o as (λ x. List Node) [
            | none ↦ []
            | some list ↦ if is_seq list then children list else []
          ])
  list-IsAccepted none h = tt
  list-IsAccepted (some list) h =
      rw (and-left (is_seq list) _ h)
        (items-IsAccepted (children list) (and-right (is_seq list) _ h))

  vars-IsAccepted :
      (service : Text) (root : Node) (db : Database Var)
      → if_there ryml (each_conforms ryml (conforms_var ryml)) (child (codes "vars") root) ≡ true
      → All (λ e. IsAccepted e.1) db.internal_maps
      → All (λ e. IsAccepted e.1) (get_parsed_protocol_vars ryml service root db).internal_maps
  unfolding get_parsed_protocol_vars
  vars-IsAccepted service root db h accepted =
      parse_vars-All ryml IsAccepted service _ db (list-IsAccepted (child (codes "vars") root) h)
        accepted

  -- What the parser makes of a service node: a number is no name.
  abbrev pub service_err : Option Node → ProtocolErr
  service_err none = protoerr_invalid_file
  service_err (some node) =
      if key_is_null node
      then protoerr_invalid_file
      else if is_number node
      then protoerr_unexpected
      else proto_success

  check_node_validity-service :
      (o : Option Node) → is_named ryml o ≡ true → check_node_validity ryml o false ≡ service_err o
  unfolding check_node_validity
  check_node_validity-service none h = cc
  check_node_validity-service (some node) h =
      let has : has_val node ≡ true = and-left _ _ h in ground arith

  abbrev top_keys : List Text
  top_keys = codes "service" ∷ codes "logic" ∷ codes "vars" ∷ codes "entities" ∷ []

  -- What is left of a conforming protocol after each part of it.
  abbrev list_parts : Node → Bool
  list_parts root =
      if_there ryml (each_conforms ryml (conforms_var ryml)) (child (codes "vars") root)
      and_also if_there ryml (each_conforms ryml (conforms_entity ryml))
          (child (codes "entities") root)

  abbrev either_parts : Node → Bool
  either_parts root =
      (is_some (child (codes "vars") root) || is_some (child (codes "entities") root))
      and_also list_parts root

  abbrev logic_parts : Node → Bool
  logic_parts root =
      if_there ryml (is_non_empty_scalar ryml) (child (codes "logic") root)
      and_also either_parts root

  abbrev service_parts : Node → Bool
  service_parts root = is_named ryml (child (codes "service") root) and_also logic_parts root

  protocol-service-vars :
      (root : Node)
      → conforms_protocol ryml root ≡ true
      → (is_named ryml (child (codes "service") root) ≡ true)
        × (if_there ryml (each_conforms ryml (conforms_var ryml)) (child (codes "vars") root)
            ≡ true)
  unfolding conforms_protocol
  protocol-service-vars root h =
      let service = and-right (has_only_keys ryml top_keys root) (service_parts root) h in
      let logic =
        and-right (is_named ryml (child (codes "service") root)) (logic_parts root) service in
      let either =
        and-right (if_there ryml (is_non_empty_scalar ryml) (child (codes "logic") root))
          (either_parts root) logic in
      let lists =
        and-right (is_some (child (codes "vars") root) || is_some (child (codes "entities") root))
          (list_parts root) either in
      (and-left _ (logic_parts root) service, and-left _ _ lists)

  get_protocol_name-err :
      (root : Node)
      → (get_protocol_name ryml root).0
        ≡ check_node_validity ryml (child (codes "service") root) false
  unfolding get_protocol_name
  get_protocol_name-err root = refl

  parse_sections-IsAccepted :
      (root : Node) (dbs : Databases)
      → if_there ryml (each_conforms ryml (conforms_var ryml)) (child (codes "vars") root) ≡ true
      → All (λ e. IsAccepted e.1) dbs.vars.internal_maps
      → (r : ProtocolErr × Text) → r.0 ≡ service_err (child (codes "service") root)
      → ((parse_sections ryml r root dbs).0 ≡ service_err (child (codes "service") root))
        × All (λ e. IsAccepted e.1) (parse_sections ryml r root dbs).1.vars.internal_maps
  unfolding parse_sections
  parse_sections-IsAccepted root dbs vars accepted (proto_success, service) e =
      (e, vars-IsAccepted service root dbs.vars vars accepted)
  parse_sections-IsAccepted root dbs vars accepted (protoerr_unknown, service) e = (e, accepted)
  parse_sections-IsAccepted root dbs vars accepted (protoerr_invalid_file, service) e =
      (e, accepted)
  parse_sections-IsAccepted root dbs vars accepted (protoerr_unexpected, service) e = (e, accepted)

  -- On a map that has what the validator's checks demand of a protocol, `parseProtocolFile`
  -- answers INVALID_FILE if the key of the service is null, UNEXPECTED if the service reads as a
  -- number, and else success; if all vars of the database had 1 to 4096 bits and members that fit
  -- their types, they do so afterwards.
  pub parse_tree-IsAccepted :
      (root : Node) (dbs : Databases)
      → is_map root ≡ true
      → conforms_protocol ryml root ≡ true
      → All (λ e. IsAccepted e.1) dbs.vars.internal_maps
      → ((parse_tree ryml (some root) dbs).0 ≡ service_err (child (codes "service") root))
        × All (λ e. IsAccepted e.1) (parse_tree ryml (some root) dbs).1.vars.internal_maps
  unfolding parse_tree
  parse_tree-IsAccepted root dbs m h accepted =
      let (named, vars) = protocol-service-vars root h in
      let err = check_node_validity-service (child (codes "service") root) named in
      rw m (
        parse_sections-IsAccepted root dbs vars accepted (get_protocol_name ryml root)
          (get_protocol_name-err root ∙ err))
