-- ===== src/Tests/Loading.antt =====
-- Examples of a session's databases and of a stack, from the files of the arena.
use tsn_gen.Prelude.{
  Text, codes, text_eq, text_lt, is_empty, ◌≡◌, refl, subst, some-inj, Bool, true, [], ◌∷◌, ◌++◌,
  some, All,
}
use tsn_gen.Database.{
  Database, find, emplace, empty, add_unique_element, check_if_valid, check_if_exists, get_element,
  size,
}
use tsn_gen.Hex.{hex_digit}
use tsn_gen.Layer.Registry.{LogicRegistry, has}
use tsn_gen.Parser.Number.{
  has_prefix, radix, radix_digits, scan_number, scan_sign, scan, stoull, stoll,
}
use tsn_gen.Parser.Protocol.{
  ProtocolService, parse_var, parse_u64, check_node_validity, get_protocol_name, parse_expected,
  parse_range, parse_mask, parse_vars, get_parsed_protocol_vars, var_refs_of, parse_interface,
}
use tsn_gen.Parser.Protocol.File.{
  mapped_text, up_to_nul, parse_interfaces, parse_entities, get_parsed_protocol_interface,
  get_parsed_protocol_service, parse_sections, parse_tree, parse_protocol_file,
}
use tsn_gen.Parser.Listing.{
  ProtocolParser, protoparser_success, Run, returned, escaped, out_of_fuel, new_parser,
  parse_protocol, list_entries, list_protocol_files, parse,
}
use tsn_gen.Parser.Listing.Accepted.{AllAccepted, IsClean, parse-AllAccepted}
use tsn_gen.Parser.StackBuilder.{built, build_tree, build_stack}
use tsn_gen.Parser.StackBuilder.Accepted.{build_tree-IsDone}
use tsn_gen.Parser.StackBuilder.Results.{Left, tree_of, build_stack-Left}
use tsn_gen.Parser.Validator.{member, is_uint_scalar, as_int, allowed_loop, for_each_node}
use tsn_gen.Parser.Validator.Schema.{
  check_size, check_refs, validate_expected, validate_var, validate_interface, validate_entity,
  validate_protocol,
}
use tsn_gen.Parser.Validator.Files.{with_root, validate_protocol_file}
use tsn_gen.Parser.Validator.Conforms.{conforms_stack}
use tsn_gen.Session.Frame.{generate_stack, decode_stack}
use tsn_gen.Session.FrameLaws.{carry_layers}
use tsn_gen.Session.Loaded.{session_parse, decode_stack-session_parse}
use tsn_gen.Layer.{Stack, aecp_aem}
use tsn_gen.Tests.{counter, head}
use tsn_gen.Tests.Files.{arena_yaml, read_files, list_files}

abbrev anything : Text → Bool
anything path = true

abbrev parser_after : Run → ProtocolParser
parser_after (returned err p) = p
parser_after escaped = new_parser
parser_after out_of_fuel = new_parser

abbrev loaded : ProtocolParser
unfolding parse list_protocol_files list_entries parse_protocol parse_protocol_file parse_tree
    parse_sections get_protocol_name check_node_validity get_parsed_protocol_vars parse_vars
    parse_var parse_u64 get_parsed_protocol_interface parse_entities parse_interfaces
    parse_interface get_parsed_protocol_service add_unique_element check_if_valid check_if_exists
    find emplace empty mapped_text up_to_nul is_empty text_eq hex_digit stoull scan scan_sign
    scan_number has_prefix radix radix_digits parse_expected parse_range parse_mask var_refs_of size
    text_lt
loaded = parser_after (parse arena_yaml read_files list_files anything (codes "d") new_parser)

loaded-parse :
    parse arena_yaml read_files list_files anything (codes "d") new_parser
    ≡ returned protoparser_success loaded
unfolding parse list_protocol_files list_entries parse_protocol parse_protocol_file parse_tree
    parse_sections get_protocol_name check_node_validity get_parsed_protocol_vars parse_vars
    parse_var parse_u64 get_parsed_protocol_interface parse_entities parse_interfaces
    parse_interface get_parsed_protocol_service add_unique_element check_if_valid check_if_exists
    find emplace empty mapped_text up_to_nul is_empty text_eq hex_digit stoull scan scan_sign
    scan_number has_prefix radix radix_digits parse_expected parse_range parse_mask var_refs_of size
    text_lt
loaded-parse = refl

whole-protocol :
    (content : Text)
    → read_files (codes "a.yaml") ≡ some content
    → mapped_text content ≡ some content
unfolding mapped_text up_to_nul is_empty text_eq
whole-protocol content e = subst (λ c. mapped_text c ≡ some c) (some-inj e) refl

loaded-IsClean : All (IsClean arena_yaml read_files) loaded.yaml_paths
unfolding validate_protocol_file with_root validate_protocol validate_var validate_entity
    validate_interface check_size check_refs validate_expected allowed_loop for_each_node member
    is_uint_scalar as_int stoull stoll scan scan_sign scan_number has_prefix radix radix_digits
    hex_digit is_empty text_eq loaded
loaded-IsClean = (record { valid = refl; whole = whole-protocol }, tt)

parse-AllAccepted_example : AllAccepted loaded.dbs
parse-AllAccepted_example =
    parse-AllAccepted arena_yaml read_files list_files anything (codes "d") loaded-parse
      loaded-IsClean

loaded-session_parse :
    session_parse arena_yaml read_files list_files anything (codes "d") new_parser
    ≡ some (true, loaded)
unfolding session_parse
loaded-session_parse = rw loaded-parse refl

decode_stack-session_parse_example :
    (decode_stack loaded.dbs.vars
      (head ∷ [])
      ((generate_stack counter loaded.dbs.vars (head ∷ []) 4).0.bytes ++ 7 ∷ [])).layers
    ≡ carry_layers loaded.dbs.vars
        (head ∷ [])
        (generate_stack counter loaded.dbs.vars (head ∷ []) 4).0.layers
decode_stack-session_parse_example =
    decode_stack-session_parse arena_yaml read_files list_files anything (codes "d")
      loaded-session_parse loaded-IsClean counter (head ∷ []) 4 (7 ∷ [])

-- A service with a logic of its own.
abbrev services : Database ProtocolService
services = record {
  internal_maps = (codes "p", record { name = codes "p"; logic_name = codes "aecp_aem" }) ∷ [];
}

abbrev registry : LogicRegistry
registry = record { factories = (codes "aecp_aem", aecp_aem 0) ∷ [] }

build_stack-Left_example :
    Left arena_yaml services registry
      (tree_of arena_yaml services registry (read_files (codes "s.yaml")))
      (build_stack arena_yaml services registry read_files anything (codes "s.yaml"))
build_stack-Left_example =
    build_stack-Left arena_yaml services registry read_files anything (codes "s.yaml")

build_tree-IsDone_example :
    (stack : Stack) × (build_tree arena_yaml services registry (some 14) ≡ built stack)
unfolding conforms_stack member text_eq is_empty get_element find has
build_tree-IsDone_example = build_tree-IsDone arena_yaml services registry 14 refl refl refl
