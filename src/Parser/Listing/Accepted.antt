-- ===== src/Parser/Listing/Accepted.antt =====
-- The vars that `ProtocolParser` collects from files that the validator accepts.
use tsn_gen.Prelude.{
  Text, codes, text_eq, ℕ, zero, suc, ◌+◌, ltb, ◌==◌, ◌≡◌, refl, sym, ◌∙◌, subst, arith, Bool, true,
  false, not, List, [], ◌∷◌, ◌++◌, Option, none, some, if◌then◌else◌, Bool-cases, inl, inr, All,
}
use tsn_gen.Database.{empty, size}
use tsn_gen.Parser.Yaml.{Ryml}
use tsn_gen.Parser.Protocol.{ProtocolErr, proto_success}
use tsn_gen.Parser.Protocol.File.{Databases, mapped_text, parse_tree, parse_protocol_file}
use tsn_gen.Parser.Validator.{ValidationFinding}
use tsn_gen.Parser.Validator.Files.{validate_protocol_file}
use tsn_gen.Parser.Validator.Steps.{is_clean}
use tsn_gen.Parser.Validator.Conforms.{conforms_protocol}
use tsn_gen.Parser.Validator.Reports.{
  Report, conforms_tree, conforms_file, validate_protocol_file-conforms,
}
use tsn_gen.Parser.Validator.Accepted.{IsAccepted, and-left, and-right, parse_tree-IsAccepted}
use tsn_gen.Parser.Listing.{
  ProtocolParserErr, protoparser_success, protoparsererr_unknown, protoparsererr_invalid_input,
  protoparsererr_unexpected, protoparsererr_undefined, protoparsererr_exists, Kind, regular_file,
  directory, other, Entry, ProtocolParser, Run, returned, escaped, out_of_fuel,
  max_current_depth_path, new_parser, of_protocol_err, with_depth, parse_protocol, after_file,
  after_directory, enter, list_entries, list_protocol_files, nothing_listed, after_listing, parse,
}

abbrev pub AllAccepted : Databases → Type 0
AllAccepted dbs = All (λ e. IsAccepted e.1) dbs.vars.internal_maps

clean-nil : (fs : List ValidationFinding) → [] ≡ fs → is_clean fs ≡ true
clean-nil [] e = refl
clean-nil (f ∷ fs) e = cc

All-init {ℓ κ} :
    {A : Type ℓ} (P : A → Type κ) (xs : List A) (x : A) → All P (xs ++ x ∷ []) → All P xs × P x
All-init P [] x h = (tt, h.0)
All-init P (y ∷ xs) x h = let (all, last) = All-init P xs x h.1 in ((h.0, all), last)

module _ (ryml : Ryml) (read_file : Text → Option Text) where
  open ryml use {Node, parse_in_arena, is_map}

  -- The validator finds nothing in the file, and the parser reads all of it: no byte of it is NUL and
  -- it does not fill its pages.
  pub record IsClean (path : Text) : Type 0 where
    pub valid : validate_protocol_file ryml read_file path [] ≡ some (0, [])
    pub whole :
        (content : Text) → read_file path ≡ some content → mapped_text content ≡ some content

  clean-conforms :
      (path : Text)
      → IsClean path
      → conforms_file ryml read_file (conforms_protocol ryml) path ≡ true
  clean-conforms path clean =
      go _ clean.valid (validate_protocol_file-conforms ryml read_file path [])
    where
      go :
          {b : Bool} (o : Option (ℕ × List ValidationFinding))
          → o ≡ some (0, [])
          → Report 0 [] o b
          → b ≡ true
      go none e h = cc
      go (some r) e (fs, out, _, _, last) =
          let nothing : r.1 ≡ [] = cc in sym last ∙ clean-nil fs (sym nothing ∙ out)

  tree-AllAccepted :
      (o : Option Node) (dbs : Databases)
      → conforms_tree ryml read_file (conforms_protocol ryml) o ≡ true
      → AllAccepted dbs
      → AllAccepted (parse_tree ryml o dbs).1
  tree-AllAccepted none dbs h accepted = cc
  tree-AllAccepted (some root) dbs h accepted =
      (parse_tree-IsAccepted ryml root dbs (and-left (is_map root) _ h)
        (and-right (is_map root) _ h) accepted).1

  file-AllAccepted :
      (path : Text) (dbs : Databases) {r : ProtocolErr × Databases}
      → IsClean path
      → AllAccepted dbs
      → parse_protocol_file ryml read_file path dbs ≡ some r
      → AllAccepted r.1
  unfolding parse_protocol_file conforms_file
  file-AllAccepted path dbs {r} clean accepted e =
      go (read_file path) e (clean-conforms path clean) clean.whole
    where
      go :
          (o : Option Text)
          → (elim o as (λ x. Option (ProtocolErr × Databases)) [
            | none ↦ some (proto_success, dbs)
            | some content ↦ elim (mapped_text content) [
              | none ↦ none
              | some text ↦ some (parse_tree ryml (parse_in_arena text) dbs)
            ]
          ])
            ≡ some r
          → (elim o as (λ x. Bool) [
            | none ↦ false
            | some buf ↦ conforms_tree ryml read_file (conforms_protocol ryml) (parse_in_arena buf)
          ])
            ≡ true
          → ((content : Text) → o ≡ some content → mapped_text content ≡ some content)
          → AllAccepted r.1
      go none e h whole = cc
      go (some content) e h whole =
          let read : parse_tree ryml (parse_in_arena content) dbs ≡ r =
            let all = whole content refl in ground arith in
          subst (λ x. AllAccepted x.1) read
            (tree-AllAccepted (parse_in_arena content) dbs h accepted)

  -- Whenever the files listed so far are all clean, so are the vars collected so far.
  abbrev pub Sound : ProtocolParser → Type 0
  Sound p = All IsClean p.yaml_paths → AllAccepted p.dbs

  abbrev pub AllSound : Run → Type 0
  AllSound (returned err q) = Sound q
  AllSound escaped = Unit
  AllSound out_of_fuel = Unit

  module _ (list_dir : Text → Option (List Entry)) where
    parse_protocol-AllSound :
        (path : Text) (p : ProtocolParser)
        → Sound p
        → AllSound (parse_protocol ryml read_file list_dir path p)
    unfolding parse_protocol
    parse_protocol-AllSound path p sound = go (parse_protocol_file ryml read_file path p.dbs) refl
      where
        go :
            (o : Option (ProtocolErr × Databases))
            → parse_protocol_file ryml read_file path p.dbs ≡ o
            → AllSound (elim o as (λ x. Run) [
              | none ↦ escaped
              | some r ↦ returned (of_protocol_err r.0) (record {
                yaml_paths = p.yaml_paths ++ path ∷ [];
                dbs = r.1;
                current_depth = p.current_depth;
              })
            ])
        go none e = tt
        go (some r) e = λ all.
            let (before, last) = All-init IsClean p.yaml_paths path all in
            file-AllAccepted path p.dbs last (sound before) e

    module _ (rest : ProtocolParser → Run)
        (rest-AllSound : (q : ProtocolParser) → Sound q → AllSound (rest q)) where
      after_file-AllSound :
          (r : Run) → AllSound r → AllSound (after_file ryml read_file list_dir rest r)
      after_file-AllSound (returned protoparser_success q) h = rest-AllSound q h
      after_file-AllSound (returned protoparsererr_invalid_input q) h = rest-AllSound q h
      after_file-AllSound (returned protoparsererr_unknown q) h = h
      after_file-AllSound (returned protoparsererr_unexpected q) h = h
      after_file-AllSound (returned protoparsererr_undefined q) h = h
      after_file-AllSound (returned protoparsererr_exists q) h = h
      after_file-AllSound escaped h = h
      after_file-AllSound out_of_fuel h = h

      after_directory-AllSound :
          (r : Run) → AllSound r → AllSound (after_directory ryml read_file list_dir rest r)
      after_directory-AllSound (returned protoparser_success q) h = rest-AllSound _ h
      after_directory-AllSound (returned protoparsererr_invalid_input q) h = h
      after_directory-AllSound (returned protoparsererr_unknown q) h = h
      after_directory-AllSound (returned protoparsererr_unexpected q) h = h
      after_directory-AllSound (returned protoparsererr_undefined q) h = h
      after_directory-AllSound (returned protoparsererr_exists q) h = h
      after_directory-AllSound escaped h = h
      after_directory-AllSound out_of_fuel h = h

      enter-AllSound :
          (list : Text → ProtocolParser → Run)
          → ((path : Text) (q : ProtocolParser) → Sound q → AllSound (list path q))
          → (path : Text) (p : ProtocolParser) → Sound p
          → AllSound (enter ryml read_file list_dir list rest path p)
      enter-AllSound list k path p sound =
          elim (Bool-cases (ltb max_current_depth_path (p.current_depth + 1))) [
            | inl deep ↦ rw deep sound
            | inr ok ↦ rw ok (
                after_directory-AllSound (list path (with_depth (p.current_depth + 1) p))
                  (k path _ sound))
          ]

    list_entries-AllSound :
        (list : Text → ProtocolParser → Run)
        → ((path : Text) (q : ProtocolParser) → Sound q → AllSound (list path q))
        → (es : List Entry) (p : ProtocolParser) → Sound p
        → AllSound (list_entries ryml read_file list_dir list es p)
    unfolding list_entries
    list_entries-AllSound list k [] p sound = sound
    list_entries-AllSound list k (x ∷ es) p sound = go x.kind (list_entries-AllSound list k es)
      where
        go :
            (kind : Kind)
            → ((q : ProtocolParser)
                → Sound q
                → AllSound (list_entries ryml read_file list_dir list es q))
            → AllSound (elim kind as (λ x. Run) [
              | regular_file extension ↦
                  if not (text_eq extension (codes ".yaml"))
                  then list_entries ryml read_file list_dir list es p
                  else after_file ryml read_file list_dir
                      (list_entries ryml read_file list_dir list es)
                      (parse_protocol ryml read_file list_dir x.path p)
              | directory ↦
                  enter ryml read_file list_dir list
                    (list_entries ryml read_file list_dir list es)
                    x.path
                    p
              | other ↦ list_entries ryml read_file list_dir list es p
            ])
        go other ih = ih p sound
        go directory ih = enter-AllSound _ ih list k x.path p sound
        go (regular_file extension) ih = elim (Bool-cases (text_eq extension (codes ".yaml"))) [
          | inl yaml ↦ rw yaml (after_file-AllSound _ ih _ (parse_protocol-AllSound x.path p sound))
          | inr skipped ↦ rw skipped (ih p sound)
        ]

    list_protocol_files-AllSound :
        (fuel : ℕ) (path : Text) (p : ProtocolParser)
        → Sound p
        → AllSound (list_protocol_files ryml read_file list_dir fuel path p)
    unfolding list_protocol_files
    list_protocol_files-AllSound zero path p sound = tt
    list_protocol_files-AllSound (suc fuel) path p sound =
        go (list_dir path) (list_protocol_files-AllSound fuel)
      where
        go :
            (o : Option (List Entry))
            → ((path : Text) (q : ProtocolParser)
                → Sound q
                → AllSound (list_protocol_files ryml read_file list_dir fuel path q))
            → AllSound (elim o as (λ x. Run) [
              | none ↦ escaped
              | some entries ↦
                  list_entries ryml read_file list_dir
                    (list_protocol_files ryml read_file list_dir fuel)
                    entries
                    p
            ])
        go none ih = tt
        go (some entries) ih = list_entries-AllSound _ ih entries p sound

    after_listing-AllSound :
        (r : Run) → AllSound r → AllSound (after_listing ryml read_file list_dir r)
    after_listing-AllSound (returned protoparser_success q) h =
        go (nothing_listed ryml read_file list_dir q.yaml_paths) (size q.dbs.services == 0)
      where
        go :
            (a b : Bool)
            → AllSound (
                if a
                then returned protoparsererr_invalid_input q
                else if b
                then returned protoparsererr_invalid_input q
                else returned protoparser_success q)
        go true b = h
        go false true = h
        go false false = h
    after_listing-AllSound (returned protoparsererr_unknown q) h = h
    after_listing-AllSound (returned protoparsererr_invalid_input q) h = h
    after_listing-AllSound (returned protoparsererr_unexpected q) h = h
    after_listing-AllSound (returned protoparsererr_undefined q) h = h
    after_listing-AllSound (returned protoparsererr_exists q) h = h
    after_listing-AllSound escaped h = tt
    after_listing-AllSound out_of_fuel h = h

    pub parse-AllSound :
        (exists : Text → Bool) (base : Text)
        → AllSound (parse ryml read_file list_dir exists base new_parser)
    unfolding parse empty
    parse-AllSound exists base = go (exists base)
      where
        go :
            (there : Bool)
            → AllSound (
                if not there
                then returned protoparsererr_invalid_input new_parser
                else after_listing ryml read_file list_dir
                    (list_protocol_files ryml read_file list_dir 17 base new_parser))
        go true =
            after_listing-AllSound _ (list_protocol_files-AllSound 17 base new_parser (λ all. tt))
        go false = λ all. tt

    -- If `parse` of a new parser returns, with whatever error, and every file that it listed is
    -- clean (the validator finds nothing in it and the parser sees all of it), then each var of
    -- its database fits the C++ types of its members and has 1 to 4096 bits.
    pub parse-AllAccepted :
        (exists : Text → Bool) (base : Text) {err : ProtocolParserErr} {q : ProtocolParser}
        → parse ryml read_file list_dir exists base new_parser ≡ returned err q
        → All IsClean q.yaml_paths
        → AllAccepted q.dbs
    parse-AllAccepted exists base e clean = subst AllSound e (parse-AllSound exists base) clean
