-- ===== src/Parser/Protocol/File.antt =====
-- `getParsedProtocolInterface`, `getParsedProtocolService` and `parseProtocolFile`
-- (parser/src/protocol.cpp). The file system is a parameter.
use tsn_gen.Prelude.{
  Text, codes, is_empty, ◌%◌, ◌==◌, Bool, true, false, not, ◌&&◌, ◌||◌, List, [], ◌∷◌, ◌++◌, Option,
  none, some, if◌then◌else◌, length,
}
use tsn_gen.Database.{Database, add_unique_element}
use tsn_gen.Packet.{Var, ProtocolInterface}
use tsn_gen.Parser.Yaml.{Ryml}
use tsn_gen.Parser.Protocol.{
  ProtocolErr, proto_success, protoerr_invalid_file, ProtocolService, sep, seq_items,
  get_protocol_name, get_parsed_protocol_vars, parse_interface,
}

-- The three databases that a parse fills.
pub record Databases : Type 0 where
  pub vars : Database Var
  pub interfaces : Database ProtocolInterface
  pub services : Database ProtocolService

-- The text up to its first NUL, and whether there is one.
unfoldable pub up_to_nul : Text → Bool × Text
up_to_nul [] = (false, [])
up_to_nul (c ∷ s) =
    let (ended, text) = up_to_nul s in if c == 0 then (true, []) else (ended, c ∷ text)

-- What is read through the mapping of a file, in pages of 4096 bytes of which the last is filled up
-- with NULs. None where the code reads what is not mapped: an empty file has no mapping, and nothing
-- ends the text of a file without a NUL that fills its last page.
unfoldable pub mapped_text : Text → Option Text
unfolding up_to_nul
mapped_text content =
    let (ended, text) = up_to_nul content in
    if is_empty content || not ended && length content % 4096 == 0 then none else some text

module _ (ryml : Ryml) where
  open ryml use {Node, parse_in_arena, is_map, has_val, val, child, children}

  unfoldable pub parse_interfaces :
      Text → Text → List Node → Database ProtocolInterface → Database ProtocolInterface
  unfolding parse_interface
  parse_interfaces service entity [] db = db
  parse_interfaces service entity (item ∷ items) db = parse_interfaces service entity items (
      if not (is_map item) then db else elim (child (codes "interface") item) [
        | none ↦ db
        | some name ↦
            let qualified_name = service ++ sep ++ entity ++ sep ++ val name in
            (add_unique_element qualified_name (parse_interface ryml service qualified_name item)
              db).1
      ])

  unfoldable pub parse_entities :
      Text → List Node → Database ProtocolInterface → Database ProtocolInterface
  unfolding parse_interfaces
  parse_entities service [] db = db
  parse_entities service (item ∷ items) db =
      parse_entities service items (elim (child (codes "entity") item) [
        | none ↦ db
        | some name ↦
            parse_interfaces service (val name) (seq_items ryml (codes "interfaces") item) db
      ])

  unfoldable pub get_parsed_protocol_interface :
      Text → Node → Database ProtocolInterface → Database ProtocolInterface
  unfolding parse_entities
  get_parsed_protocol_interface service root db =
      parse_entities service (seq_items ryml (codes "entities") root) db

  unfoldable pub get_parsed_protocol_service :
      Text → Node → Database ProtocolService → Database ProtocolService
  get_parsed_protocol_service service root db =
      let logic : Text = elim (child (codes "logic") root) [
        | none ↦ []
        | some node ↦ if has_val node then val node else []
      ] in
      (add_unique_element service (record { name = service; logic_name = logic }) db).1

  -- With the answer of `getProtocolName`.
  unfoldable pub parse_sections : ProtocolErr × Text → Node → Databases → ProtocolErr × Databases
  unfolding get_parsed_protocol_vars get_parsed_protocol_interface get_parsed_protocol_service
  parse_sections (proto_success, service) root dbs = (
    proto_success,
    record {
      vars = get_parsed_protocol_vars ryml service root dbs.vars;
      interfaces = get_parsed_protocol_interface service root dbs.interfaces;
      services = get_parsed_protocol_service service root dbs.services;
    },
  )
  parse_sections (other, service) root dbs = (other, dbs)

  -- `parseProtocolFile` once the text is parsed.
  unfoldable pub parse_tree : Option Node → Databases → ProtocolErr × Databases
  unfolding get_protocol_name parse_sections
  parse_tree none dbs = (protoerr_invalid_file, dbs)
  parse_tree (some root) dbs =
      if not (is_map root)
      then (protoerr_invalid_file, dbs)
      else parse_sections (get_protocol_name ryml root) root dbs

  -- `parseProtocolFile` on a path. `read_file` is what a file holds, none if it cannot be opened,
  -- which counts as a success. A result is missing where the code reads what is not mapped.
  unfoldable pub parse_protocol_file :
      (Text → Option Text) → Text → Databases → Option (ProtocolErr × Databases)
  unfolding parse_tree mapped_text
  parse_protocol_file read_file path dbs = elim (read_file path) [
    | none ↦ some (proto_success, dbs)
    | some content ↦ elim (mapped_text content) [
      | none ↦ none
      | some text ↦ some (parse_tree (parse_in_arena text) dbs)
    ]
  ]
