-- ===== src/Tests/Parser.antt =====
-- Examples of the validator, the parser and the stack builder on the files of the arena.
use tsn_gen.Prelude.{
  Text, codes, text_eq, is_empty, ◌≡◌, refl, Bool, true, List, [], ◌∷◌, Option, some,
}
use tsn_gen.Database.{empty}
use tsn_gen.Parser.Number.{
  has_prefix, radix, radix_digits, scan_number, scan_sign, scan, stoull, stoll,
}
use tsn_gen.Hex.{hex_digit}
use tsn_gen.Parser.Validator.{member, is_uint_scalar, as_int}
use tsn_gen.Parser.Validator.Files.{validate_protocol_file}
use tsn_gen.Parser.Validator.Conforms.{conforms_var, conforms_protocol}
use tsn_gen.Parser.Validator.Reports.{Report, conforms_file, validate_protocol_file-conforms}
use tsn_gen.Parser.Validator.Files.{DirectoryEntry}
use tsn_gen.Parser.Validator.Accepted.{
  IsAccepted, parse_var-IsAccepted, parse_tree-IsAccepted, service_err,
}
use tsn_gen.Parser.Protocol.{parse_var}
use tsn_gen.Parser.Protocol.File.{parse_tree}
use tsn_gen.Parser.Listing.{new_parser, parse}
use tsn_gen.Parser.Listing.Laws.{Parsed, parse-Parsed}
use tsn_gen.Parser.Listing.Accepted.{AllAccepted}
use tsn_gen.CommandLine.{Args, default_args}
use tsn_gen.CommandLine.Validate.{run_validate, Exit, conforms_args, run_validate-Exit}
use tsn_gen.Tests.Files.{arena_yaml, read_files, list_files}

node_3-conforms : conforms_var arena_yaml 3 ≡ true
unfolding is_empty text_eq hex_digit member is_uint_scalar as_int stoull stoll scan scan_sign
    scan_number has_prefix radix radix_digits
node_3-conforms = refl

parse_var-IsAccepted_example : IsAccepted (parse_var arena_yaml (codes "p::kind") 3)
parse_var-IsAccepted_example = parse_var-IsAccepted arena_yaml (codes "p::kind") 3 node_3-conforms

root-conforms : conforms_protocol arena_yaml 0 ≡ true
unfolding is_empty text_eq hex_digit member is_uint_scalar as_int stoull stoll scan scan_sign
    scan_number has_prefix radix radix_digits conforms_protocol
root-conforms = refl

parse_tree-IsAccepted_example :
    ((parse_tree arena_yaml (some 0) new_parser.dbs).0 ≡ service_err arena_yaml (some 1))
    × AllAccepted (parse_tree arena_yaml (some 0) new_parser.dbs).1
unfolding empty text_eq
parse_tree-IsAccepted_example =
    parse_tree-IsAccepted arena_yaml 0 new_parser.dbs refl root-conforms tt

validate_protocol_file-conforms_example :
    Report 0 []
      (validate_protocol_file arena_yaml read_files (codes "a.yaml") [])
      (conforms_file arena_yaml read_files (conforms_protocol arena_yaml) (codes "a.yaml"))
validate_protocol_file-conforms_example =
    validate_protocol_file-conforms arena_yaml read_files (codes "a.yaml") []

abbrev an_entry : Text → Text → DirectoryEntry
an_entry path extension = record { path = path; extension = extension; is_regular_file = true }

-- An empty file beside a protocol.
abbrev walk_files : Text → Option (List DirectoryEntry)
walk_files dir =
    some (an_entry (codes "a.yaml") (codes ".yaml") ∷ an_entry (codes "e.yaml") (codes ".yml") ∷ [])

abbrev checked_args : Args
checked_args = record default_args { yaml_dir = codes "d"; stack_file = codes "s.yaml" }

run_validate-Exit_example :
    Exit
      (run_validate arena_yaml read_files walk_files checked_args)
      (conforms_args arena_yaml read_files walk_files checked_args)
run_validate-Exit_example = run_validate-Exit arena_yaml read_files walk_files checked_args

abbrev anything : Text → Bool
anything path = true

-- A directory that leads to itself.
parse-Parsed_example :
    Parsed arena_yaml read_files list_files
      (parse arena_yaml read_files list_files anything (codes "loop") new_parser)
parse-Parsed_example =
    parse-Parsed arena_yaml read_files list_files anything (codes "loop") new_parser refl
