-- ===== src/Parser/Validator/Reports.antt =====
-- What the public operations of `ProtocolValidator` return: the number of errors and the findings
-- (parser/src/validator.cpp).
use tsn_gen.Prelude.{
  Text, codes, ℕ, ◌+◌, ◌≡◌, refl, sym, ap, ap₂, ◌∙◌, arith, Bool, true, false, not, ◌&&◌, List, [],
  ◌∷◌, ◌++◌, append-nil, append_assoc, Option, none, some, if◌then◌else◌, length, length-append,
  All, All-append,
}
use tsn_gen.Parser.Yaml.{Ryml}
use tsn_gen.Parser.Validator.{ValidationFinding, error, Ctx, Step, add}
use tsn_gen.Parser.Validator.Schema.{validate_protocol, validate_stack}
use tsn_gen.Parser.Validator.Files.{
  DirectoryEntry, is_yaml, with_tree, with_root, counted, validate_protocol_file,
  validate_stack_file, validate_entries, validate_directory,
}
use tsn_gen.Parser.Validator.Steps.{
  is_clean, and_false, is_clean-append, IsErrorIn, Outcome, Decides,
}
use tsn_gen.Parser.Validator.Conforms.{conforms_protocol, conforms_stack}
use tsn_gen.Parser.Validator.Laws.{validate_protocol-Decides, validate_stack-Decides}

-- The findings of a run are errors that are added to the count, and stand after the earlier ones. There are none
-- exactly if the Boolean is true; an exception escapes only if it is false.
abbrev pub Report : ℕ → List ValidationFinding → Option (ℕ × List ValidationFinding) → Bool → Type 0
Report n out none b = b ≡ false
Report n out (some r) b =
    (fs : List ValidationFinding) × (r.1 ≡ out ++ fs)
    × (r.0 ≡ n + length fs)
    × All (λ f. f.severity ≡ error) fs
    × (is_clean fs ≡ b)

module _ (ryml : Ryml) (read_file : Text → Option Text) where
  open ryml use {Node, parse_in_arena, is_map}

  abbrev pub conforms_tree : (Node → Bool) → Option Node → Bool
  conforms_tree conforms none = false
  conforms_tree conforms (some root) = is_map root && conforms root

  -- A file that can be opened, is a YAML map and conforms.
  unfoldable pub conforms_file : (Node → Bool) → Text → Bool
  conforms_file conforms path = elim (read_file path) [
    | none ↦ false
    | some buf ↦ conforms_tree conforms (parse_in_arena buf)
  ]

  module _ (body : Node → Step) (conforms : Node → Bool)
      (body-Decides : (root : Node) → Decides (body root) (conforms root)) where
    no_root-Outcome :
        (msg : Text) (ctx : Ctx) → Outcome ctx (some (add ryml none error msg ctx)) false
    unfolding add
    no_root-Outcome msg ctx = (_, refl, refl, refl, ((refl, refl), tt), refl)

    with_tree-Outcome :
        (o : Option Node) (ctx : Ctx)
        → Outcome ctx (with_tree ryml read_file body o ctx) (conforms_tree conforms o)
    with_tree-Outcome none ctx = no_root-Outcome _ ctx
    with_tree-Outcome (some root) ctx = go (is_map root)
      where
        go :
            (m : Bool)
            → Outcome ctx
                (if not m
                  then some (add ryml none error (codes "file is empty or not a YAML map") ctx)
                  else body root ctx)
                (m && conforms root)
        go true = (body-Decides root).outcome ctx
        go false = no_root-Outcome _ ctx

    with_root-Outcome :
        (path : Text) (ctx : Ctx)
        → Outcome ctx (with_root ryml read_file body path ctx) (conforms_file conforms path)
    unfolding with_root conforms_file
    with_root-Outcome path ctx = go (read_file path)
      where
        go :
            (o : Option Text)
            → Outcome ctx
                (elim o as (λ x. Option Ctx) [
                  | none ↦ some (add ryml none error (codes "could not open file") ctx)
                  | some buf ↦ with_tree ryml read_file body (parse_in_arena buf) ctx
                ])
                (elim o as (λ x. Bool) [
                  | none ↦ false
                  | some buf ↦ conforms_tree conforms (parse_in_arena buf)
                ])
        go none = no_root-Outcome _ ctx
        go (some buf) = with_tree-Outcome (parse_in_arena buf) ctx

  severities :
      (path : Text) (fs : List ValidationFinding)
      → All (IsErrorIn path) fs
      → All (λ f. f.severity ≡ error) fs
  severities path [] all = tt
  severities path (f ∷ fs) (p, all) = (p.1, severities path fs all)

  counted-Report :
      (path : Text) (out : List ValidationFinding) (o : Option Ctx) (b : Bool)
      → Outcome (record { path = path; out = out; errors = 0 }) o b
      → Report 0 out (counted ryml read_file o) b
  counted-Report path out none b h = h
  counted-Report path out (some c) b (fs, p, q, n, all, clean) =
      (fs, q, n, severities path fs all, clean)

  -- `validateProtocolFile` appends as many findings as it returns, all of them errors, and none
  -- exactly if the file can be opened, is a YAML map and has what the validator's own checks
  -- demand; an exception escapes it only for a file that has not. This is less than docs/schema
  -- demands: `expected` may be empty, and a var_ref may be any node.
  pub validate_protocol_file-conforms :
      (path : Text) (out : List ValidationFinding)
      → Report 0 out
          (validate_protocol_file ryml read_file path out)
          (conforms_file (conforms_protocol ryml) path)
  unfolding validate_protocol_file
  validate_protocol_file-conforms path out = counted-Report path out _ _ (
      with_root-Outcome (validate_protocol ryml) (conforms_protocol ryml)
        (validate_protocol-Decides ryml) path (record { path = path; out = out; errors = 0 }))

  -- `validateStackFile` appends as many findings as it returns, all of them errors, and none
  -- exactly if the file can be opened, is a YAML map and has what the validator's own checks
  -- demand of a stack.
  pub validate_stack_file-conforms :
      (path : Text) (out : List ValidationFinding)
      → Report 0 out
          (validate_stack_file ryml read_file path out)
          (conforms_file (conforms_stack ryml) path)
  unfolding validate_stack_file
  validate_stack_file-conforms path out = counted-Report path out _ _ (
      with_root-Outcome (validate_stack ryml) (conforms_stack ryml) (validate_stack-Decides ryml)
        path (record { path = path; out = out; errors = 0 }))

  -- Each YAML file of a walk conforms.
  unfoldable pub conforms_entries : List DirectoryEntry → Bool
  conforms_entries [] = true
  conforms_entries (e ∷ es) =
      (if is_yaml e then conforms_file (conforms_protocol ryml) e.path else true)
      && conforms_entries es

  unfoldable pub conforms_directory : Option (List DirectoryEntry) → Bool
  unfolding conforms_entries
  conforms_directory none = false
  conforms_directory (some entries) = conforms_entries entries

  -- One file after the others.
  add-Report :
      (n : ℕ) (out : List ValidationFinding) (o : Option (ℕ × List ValidationFinding)) (a b : Bool)
      (rest : ℕ → List ValidationFinding → Option (ℕ × List ValidationFinding))
      → Report 0 out o a
      → ((m : ℕ) (out' : List ValidationFinding) → Report m out' (rest m out') b)
      → Report n out
          (elim o as (λ x. Option (ℕ × List ValidationFinding)) [
            | none ↦ none
            | some r ↦ rest (n + r.0) r.1
          ])
          (a && b)
  add-Report n out none a b rest h k = ap (λ x. x && b) h
  add-Report n out (some r) a b rest (fs, q, m, all, clean) k =
      go (rest (n + r.0) r.1) (k (n + r.0) r.1)
    where
      go :
          (o : Option (ℕ × List ValidationFinding))
          → Report (n + r.0) r.1 o b
          → Report n out o (a && b)
      go none h = ap (λ x. a && x) h ∙ and_false a
      go (some r') (gs, q', m', all', clean') = (
        fs ++ gs,
        q' ∙ ap (λ xs. xs ++ gs) q ∙ append_assoc out fs gs,
        sum,
        All-append (λ f. f.severity ≡ error) fs gs all all',
        is_clean-append fs gs ∙ ap₂ (λ x y. x && y) clean clean',
      )
        where
          sum : r'.0 ≡ n + length (fs ++ gs)
          sum = let e = length-append fs gs in omega arith

  validate_entries-Report :
      (es : List DirectoryEntry) (n : ℕ) (out : List ValidationFinding)
      → Report n out (validate_entries ryml read_file es n out) (conforms_entries es)
  unfolding validate_entries conforms_entries
  validate_entries-Report [] n out = ([], sym (append-nil out), ground arith, tt, refl)
  validate_entries-Report (e ∷ es) n out = go (is_yaml e) (validate_entries-Report es)
    where
      go :
          (y : Bool)
          → ((m : ℕ) (out' : List ValidationFinding)
              → Report m out' (validate_entries ryml read_file es m out') (conforms_entries es))
          → Report n out
              (if not y
                then validate_entries ryml read_file es n out
                else elim (validate_protocol_file ryml read_file e.path out) [
                  | none ↦ none
                  | some r ↦ validate_entries ryml read_file es (n + r.0) r.1
                ])
              ((if y then conforms_file (conforms_protocol ryml) e.path else true)
                && conforms_entries es)
      go false ih = ih n out
      go true ih =
          add-Report n out _ _ _ (validate_entries ryml read_file es)
            (validate_protocol_file-conforms e.path out) ih

  -- `validateDirectory` appends as many findings as it returns, all of them errors, and none
  -- exactly if the directory exists and each regular .yaml or .yml file of the walk has what the
  -- validator's own checks demand; an exception escapes it only if that is not so.
  pub validate_directory-conforms :
      (walk : Text → Option (List DirectoryEntry)) (dir : Text) (out : List ValidationFinding)
      → Report 0 out
          (validate_directory ryml read_file walk dir out)
          (conforms_directory (walk dir))
  unfolding validate_directory conforms_directory
  validate_directory-conforms walk dir out = go (walk dir)
    where
      go :
          (o : Option (List DirectoryEntry))
          → Report 0 out
              (elim o as (λ x. Option (ℕ × List ValidationFinding)) [
                | none ↦ some (
                  1,
                  out
                      ++ record {
                        file = dir;
                        line = 0;
                        col = 0;
                        severity = error;
                        message = codes "directory does not exist";
                      }
                        ∷ [],
                )
                | some entries ↦ validate_entries ryml read_file entries 0 out
              ])
              (conforms_directory o)
      go none = (_, refl, refl, (refl, tt), refl)
      go (some entries) = validate_entries-Report entries 0 out
