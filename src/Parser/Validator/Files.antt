-- ===== src/Parser/Validator/Files.antt =====
-- `withRoot`, `validateProtocolFile`, `validateStackFile` and `validateDirectory`
-- (parser/src/validator.cpp). The file system is a parameter. A run passes on the findings with the
-- number of errors, or none where an exception escapes it.
use tsn_gen.Prelude.{
  Text, codes, text_eq, ℕ, ◌+◌, Bool, not, ◌&&◌, ◌||◌, List, [], ◌∷◌, ◌++◌, Option, none, some,
  if◌then◌else◌,
}
use tsn_gen.Parser.Yaml.{Ryml}
use tsn_gen.Parser.Validator.{ValidationFinding, error, Ctx, Step, add}
use tsn_gen.Parser.Validator.Schema.{validate_protocol, validate_stack}

-- What a walk of a directory finds: a path, its extension and whether it is a regular file.
pub record DirectoryEntry : Type 0 where
  pub path : Text
  pub extension : Text
  pub is_regular_file : Bool

abbrev pub is_yaml : DirectoryEntry → Bool
is_yaml e =
    e.is_regular_file && (text_eq e.extension (codes ".yaml") || text_eq e.extension (codes ".yml"))

module _ (ryml : Ryml) (read_file : Text → Option Text) where
  open ryml use {Node, parse_in_arena, is_map}

  abbrev pub with_tree : (Node → Step) → Option Node → Step
  with_tree body none ctx = some (add ryml none error (codes "file is empty or not a YAML map") ctx)
  with_tree body (some root) ctx =
      if not (is_map root)
      then some (add ryml none error (codes "file is empty or not a YAML map") ctx)
      else body root ctx

  unfoldable pub with_root : (Node → Step) → Text → Step
  with_root body path ctx = elim (read_file path) [
    | none ↦ some (add ryml none error (codes "could not open file") ctx)
    | some buf ↦ with_tree body (parse_in_arena buf) ctx
  ]

  abbrev pub counted : Option Ctx → Option (ℕ × List ValidationFinding)
  counted none = none
  counted (some ctx) = some (ctx.errors, ctx.out)

  unfoldable pub validate_protocol_file :
      Text → List ValidationFinding → Option (ℕ × List ValidationFinding)
  unfolding with_root
  validate_protocol_file path out =
      counted
        (with_root (validate_protocol ryml) path (record { path = path; out = out; errors = 0 }))

  unfoldable pub validate_stack_file :
      Text → List ValidationFinding → Option (ℕ × List ValidationFinding)
  unfolding with_root
  validate_stack_file path out =
      counted (with_root (validate_stack ryml) path (record { path = path; out = out; errors = 0 }))

  -- The loop over the entries of a directory.
  unfoldable pub validate_entries :
      List DirectoryEntry → ℕ → List ValidationFinding → Option (ℕ × List ValidationFinding)
  unfolding validate_protocol_file
  validate_entries [] errors out = some (errors, out)
  validate_entries (e ∷ es) errors out =
      if not (is_yaml e)
      then validate_entries es errors out
      else elim (validate_protocol_file e.path out) [
        | none ↦ none
        | some r ↦ validate_entries es (errors + r.0) r.1
      ]

  -- `walk` is what the directory holds, none if it does not exist.
  unfoldable pub validate_directory :
      (Text → Option (List DirectoryEntry))
      → Text
      → List ValidationFinding
      → Option (ℕ × List ValidationFinding)
  unfolding validate_entries
  validate_directory walk dir out = elim (walk dir) [
    | none ↦ some (
      1,
      out
          ++ record {
            file = dir;
            line = 0;
            col = 0;
            severity = error;
            message = codes "directory does not exist";
          }
            ∷ [],
    )
    | some entries ↦ validate_entries entries 0 out
  ]
