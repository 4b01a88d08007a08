-- ===== src/Parser/Listing.antt =====
-- `ProtocolParser` (parser/inc/tsn/protocol_parser.h, parser/src/protocol_parser.cpp): the walk over a
-- directory that parses each protocol file. The file system is a parameter. What is logged is left out.
pub mod Laws
pub mod Accepted
use tsn_gen.Prelude.{
  Text, codes, text_eq, ℕ, zero, suc, ◌+◌, ◌-◌, ltb, ◌==◌, Bool, true, false, not, List, [], ◌∷◌,
  ◌++◌, Option, none, some, if◌then◌else◌,
}
use tsn_gen.Database.{Database, empty, size}
use tsn_gen.Packet.{Var, ProtocolInterface}
use tsn_gen.Parser.Yaml.{Ryml}
use tsn_gen.Parser.Protocol.{
  ProtocolErr, proto_success, protoerr_unknown, protoerr_invalid_file, protoerr_unexpected,
  ProtocolService,
}
use tsn_gen.Parser.Protocol.File.{Databases, parse_protocol_file}

pub data ProtocolParserErr : Type 0 where
  protoparser_success protoparsererr_unknown protoparsererr_invalid_input : ProtocolParserErr
  protoparsererr_unexpected protoparsererr_undefined protoparsererr_exists : ProtocolParserErr

-- What `std::filesystem` tells of an entry: a regular file with its extension, a directory, or
-- anything else.
pub data Kind : Type 0 where
  regular_file : (extension : Text) → Kind
  directory other : Kind

pub record Entry : Type 0 where
  pub path : Text
  pub kind : Kind

-- The members that a parse changes.
pub record ProtocolParser : Type 0 where
  pub yaml_paths : List Text
  pub dbs : Databases
  pub current_depth : ℕ

-- What becomes of a call: it returns, an exception or an access out of a mapping ends it, or the
-- fuel of the model does.
pub data Run : Type 0 where
  returned : (err : ProtocolParserErr) (parser : ProtocolParser) → Run
  escaped out_of_fuel : Run

abbrev pub max_current_depth_path : ℕ
max_current_depth_path = 16

abbrev pub new_parser : ProtocolParser
new_parser = record {
  yaml_paths = [];
  dbs = record { vars = empty; interfaces = empty; services = empty };
  current_depth = 0;
}

-- `err.setErrorCode(errorProto.getErrorCode())`: the number of the one is read as the other's.
abbrev pub of_protocol_err : ProtocolErr → ProtocolParserErr
of_protocol_err proto_success = protoparser_success
of_protocol_err protoerr_unknown = protoparsererr_unknown
of_protocol_err protoerr_invalid_file = protoparsererr_invalid_input
of_protocol_err protoerr_unexpected = protoparsererr_unexpected

abbrev pub with_depth : ℕ → ProtocolParser → ProtocolParser
with_depth depth p = record { yaml_paths = p.yaml_paths; dbs = p.dbs; current_depth = depth }

module _ (ryml : Ryml) (read_file : Text → Option Text)
    (list_dir : Text → Option (List Entry)) where
  -- A YAML file is kept in the list, then `parseProtocol`.
  unfoldable pub parse_protocol : Text → ProtocolParser → Run
  parse_protocol path p = elim (parse_protocol_file ryml read_file path p.dbs) [
    | none ↦ escaped
    | some r ↦ returned (of_protocol_err r.0) (record {
      yaml_paths = p.yaml_paths ++ path ∷ [];
      dbs = r.1;
      current_depth = p.current_depth;
    })
  ]

  -- On with the loop after a file: an invalid one is passed over, any other error ends the loop.
  abbrev pub after_file : (ProtocolParser → Run) → Run → Run
  after_file rest (returned protoparser_success p) = rest p
  after_file rest (returned protoparsererr_invalid_input p) = rest p
  after_file rest (returned err p) = returned err p
  after_file rest escaped = escaped
  after_file rest out_of_fuel = out_of_fuel

  -- On with the loop after a directory, whose depth is left again.
  abbrev pub after_directory : (ProtocolParser → Run) → Run → Run
  after_directory rest (returned protoparser_success p) = rest (with_depth (p.current_depth - 1) p)
  after_directory rest (returned err p) = returned err (with_depth (p.current_depth - 1) p)
  after_directory rest escaped = escaped
  after_directory rest out_of_fuel = out_of_fuel

  -- A directory that is too deep leaves the depth as it was counted up.
  abbrev pub enter :
      (Text → ProtocolParser → Run) → (ProtocolParser → Run) → Text → ProtocolParser → Run
  enter list rest path p =
      let deeper = with_depth (p.current_depth + 1) p in
      if ltb max_current_depth_path (p.current_depth + 1)
      then returned protoparsererr_unexpected deeper
      else after_directory rest (list path deeper)

  -- The loop over the entries of one directory; `list` lists a directory in it.
  unfoldable pub list_entries : (Text → ProtocolParser → Run) → List Entry → ProtocolParser → Run
  unfolding parse_protocol
  list_entries list [] p = returned protoparser_success p
  list_entries list (e ∷ es) p = elim e.kind [
    | regular_file extension ↦
        if not (text_eq extension (codes ".yaml"))
        then list_entries list es p
        else after_file (list_entries list es) (parse_protocol e.path p)
    | directory ↦ enter list (list_entries list es) e.path p
    | other ↦ list_entries list es p
  ]

  -- `listProtocolFiles`. The fuel bounds the directories inside one another.
  unfoldable pub list_protocol_files : ℕ → Text → ProtocolParser → Run
  unfolding list_entries
  list_protocol_files zero path p = out_of_fuel
  list_protocol_files (suc fuel) path p = elim (list_dir path) [
    | none ↦ escaped
    | some entries ↦ list_entries (list_protocol_files fuel) entries p
  ]

  abbrev pub nothing_listed : List Text → Bool
  nothing_listed [] = true
  nothing_listed (path ∷ paths) = false

  -- The checks after the listing.
  abbrev pub after_listing : Run → Run
  after_listing (returned protoparser_success p) =
      if nothing_listed p.yaml_paths
      then returned protoparsererr_invalid_input p
      else if size p.dbs.services == 0
      then returned protoparsererr_invalid_input p
      else returned protoparser_success p
  after_listing r = r

  -- `parse`. One level of fuel for each depth that the listing may reach, and one for the base path.
  unfoldable pub parse : (Text → Bool) → Text → ProtocolParser → Run
  unfolding list_protocol_files
  parse exists base p =
      if not (exists base)
      then returned protoparsererr_invalid_input p
      else after_listing (list_protocol_files (max_current_depth_path + 1) base p)
