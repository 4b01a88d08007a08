-- ===== src/CommandLine/Validate.antt =====
-- `packet_gen --validate`: what `main` does with the validator, and its exit code
-- (traffic-gen/tools/packet_gen_main.cpp). What is printed is left out.
use tsn_gen.Prelude.{
  Text, is_empty, ℕ, ◌+◌, ◌==◌, ◌≡◌, sym, ap, ap₂, ◌∙◌, subst, arith, Bool, true, false, ◌&&◌, ◌||◌,
  List, [], ◌∷◌, ◌++◌, Option, none, some, if◌then◌else◌, All, All-append,
}
use tsn_gen.CommandLine.{Args}
use tsn_gen.Parser.Validator.{ValidationFinding, Severity, error, warning}
use tsn_gen.Parser.Validator.Conforms.{conforms_stack}
use tsn_gen.Parser.Validator.Files.{DirectoryEntry, validate_directory, validate_stack_file}
use tsn_gen.Parser.Validator.Reports.{
  Report, conforms_file, conforms_directory, validate_directory-conforms,
  validate_stack_file-conforms,
}
use tsn_gen.Parser.Validator.Steps.{is_clean, is_clean-append, and_false}
use tsn_gen.Parser.Yaml.{Ryml}

abbrev pub severity_errors : Severity → ℕ
severity_errors error = 1
severity_errors warning = 0

-- The loop over the findings.
unfoldable pub count_errors : List ValidationFinding → ℕ → ℕ
count_errors [] errors = errors
count_errors (f ∷ fs) errors = count_errors fs (errors + severity_errors f.severity)

abbrev pub exit_code : List ValidationFinding → ℕ
exit_code findings = if count_errors findings 0 == 0 then 0 else 2

module _ (ryml : Ryml) (read_file : Text → Option Text)
    (walk : Text → Option (List DirectoryEntry)) where
  abbrev pub exit_of : Option (ℕ × List ValidationFinding) → Option ℕ
  exit_of none = none
  exit_of (some r) = some (exit_code r.1)

  -- The stack file after the directory.
  abbrev pub with_stack_file : Text → Option (ℕ × List ValidationFinding) → Option ℕ
  with_stack_file stack_file none = none
  with_stack_file stack_file (some r) =
      if is_empty stack_file
      then exit_of (some r)
      else exit_of (validate_stack_file ryml read_file stack_file r.1)

  -- The exit code, or none where an exception escapes.
  unfoldable pub run_validate : Args → Option ℕ
  run_validate args =
      with_stack_file args.stack_file (validate_directory ryml read_file walk args.yaml_dir [])

-- Errors only, and none exactly if the Boolean is true.
abbrev Faulty : List ValidationFinding → Bool → Type 0
Faulty fs b = All (λ f. f.severity ≡ error) fs × (is_clean fs ≡ b)

count_errors-clean :
    (fs : List ValidationFinding) (n : ℕ)
    → All (λ f. f.severity ≡ error) fs
    → (count_errors fs n == 0) ≡ (n == 0) && is_clean fs
unfolding count_errors
count_errors-clean [] n h = ground arith
count_errors-clean (f ∷ fs) n h =
    ap (λ (s : Severity). count_errors fs (n + severity_errors s) == 0) h.0
    ∙ count_errors-clean fs (n + 1) h.1
    ∙ ground arith

exit_code-Faulty :
    (fs : List ValidationFinding) (b : Bool) → Faulty fs b → exit_code fs ≡ (if b then 0 else 2)
exit_code-Faulty fs b (all, clean) =
    ap (λ (x : Bool). if x then 0 else 2) (count_errors-clean fs 0 all ∙ clean)

-- 0 or 2 as the Boolean says; an exception escapes only if it is false.
abbrev pub Exit : Option ℕ → Bool → Type 0
Exit none b = b ≡ false
Exit (some code) b = code ≡ (if b then 0 else 2)

module _ (ryml : Ryml) (read_file : Text → Option Text)
    (walk : Text → Option (List DirectoryEntry)) where
  exit_of-Exit :
      (earlier : List ValidationFinding) (a b : Bool) (o : Option (ℕ × List ValidationFinding))
      → Faulty earlier a
      → Report 0 earlier o b
      → Exit (exit_of ryml read_file walk o) (a && b)
  exit_of-Exit earlier a b none f h = ap (λ x. a && x) h ∙ and_false a
  exit_of-Exit earlier a b (some r) (all, clean) (fs, out, _, every, none_found) =
      ap exit_code out
      ∙ exit_code-Faulty (earlier ++ fs) (a && b) (
        All-append (λ f. f.severity ≡ error) earlier fs all every,
        is_clean-append earlier fs ∙ ap₂ (λ x y. x && y) clean none_found,
      )

  -- The directory conforms, and so does the stack file if one is given.
  abbrev pub conforms_args : Args → Bool
  conforms_args args =
      conforms_directory ryml read_file (walk args.yaml_dir)
      && (is_empty args.stack_file
          || conforms_file ryml read_file (conforms_stack ryml) args.stack_file)

  -- `packet_gen --validate` exits with 0 if the directory exists, each YAML file of its walk has
  -- what the validator's own checks demand of a protocol and the stack file, if one is given, what
  -- they demand of a stack; otherwise it exits with 2, or an exception escapes. The checks demand
  -- less than docs/schema: `expected` may be empty, a var_ref any node, and so may be a layer's
  -- entity, interface and bypass-logic.
  pub run_validate-Exit :
      (args : Args) → Exit (run_validate ryml read_file walk args) (conforms_args args)
  unfolding run_validate
  run_validate-Exit args =
      directory (validate_directory ryml read_file walk args.yaml_dir [])
        (validate_directory-conforms ryml read_file walk args.yaml_dir [])
    where
      stack :
          (r : ℕ × List ValidationFinding) (a given : Bool)
          → Faulty r.1 a
          → Exit
              (if given
                then exit_of ryml read_file walk (some r)
                else exit_of ryml read_file walk
                    (validate_stack_file ryml read_file args.stack_file r.1))
              (a && (given || conforms_file ryml read_file (conforms_stack ryml) args.stack_file))
      stack r a true f = exit_code-Faulty r.1 (a && true) (f.0, f.1 ∙ ground arith)
      stack r a false f =
          exit_of-Exit r.1 a _ (validate_stack_file ryml read_file args.stack_file r.1) f
            (validate_stack_file-conforms ryml read_file args.stack_file r.1)

      directory :
          (o : Option (ℕ × List ValidationFinding))
          → Report 0 [] o (conforms_directory ryml read_file (walk args.yaml_dir))
          → Exit (with_stack_file ryml read_file walk args.stack_file o) (conforms_args args)
      directory none h =
          ap
            (λ x.
              x
              && (is_empty args.stack_file
                  || conforms_file ryml read_file (conforms_stack ryml) args.stack_file))
            h
      directory (some r) (fs, out, _, every, clean) =
          stack r (conforms_directory ryml read_file (walk args.yaml_dir))
            (is_empty args.stack_file)
            (subst (λ xs. Faulty xs (conforms_directory ryml read_file (walk args.yaml_dir)))
              (sym out) (every, clean))
