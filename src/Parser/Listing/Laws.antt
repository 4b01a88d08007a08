-- ===== src/Parser/Listing/Laws.antt =====
-- The walk of `ProtocolParser` ends, whatever the directories hold, and the depth is counted back.
use tsn_gen.Prelude.{
  Text, codes, text_eq, ℕ, zero, suc, ◌+◌, ◌<◌, ◌≤◌, ltb, ◌==◌, ◌≡◌, refl, subst, arith, Bool, not,
  List, [], ◌∷◌, ◌++◌, Option, none, some, if◌then◌else◌, Bool-cases, inl, inr, ◌≢◌,
}
use tsn_gen.Database.{size}
use tsn_gen.Parser.Yaml.{Ryml}
use tsn_gen.Parser.Protocol.{
  ProtocolErr, proto_success, protoerr_unknown, protoerr_invalid_file, protoerr_unexpected,
}
use tsn_gen.Parser.Protocol.File.{Databases, parse_protocol_file}
use tsn_gen.Parser.Listing.{
  protoparser_success, protoparsererr_unknown, protoparsererr_invalid_input,
  protoparsererr_unexpected, protoparsererr_undefined, protoparsererr_exists, Kind, regular_file,
  directory, other, Entry, ProtocolParser, Run, returned, escaped, out_of_fuel,
  max_current_depth_path, of_protocol_err, with_depth, parse_protocol, after_file, after_directory,
  enter, list_entries, list_protocol_files, nothing_listed, after_listing, parse,
}

-- A run that began at a depth ends there on success; an error may leave the depth one higher.
abbrev pub Within : ℕ → Run → Type 0
Within depth (returned protoparser_success q) = q.current_depth ≡ depth
Within depth (returned err q) = q.current_depth ≤ depth + 1
Within depth escaped = Unit
Within depth out_of_fuel = ⊥

module _ (ryml : Ryml) (read_file : Text → Option Text)
    (list_dir : Text → Option (List Entry)) where
  module _ (depth : ℕ) (list : Text → ProtocolParser → Run) (rest : ProtocolParser → Run)
      (rest-Within : (q : ProtocolParser) → q.current_depth ≡ depth → Within depth (rest q))
      (list-Within : (path : Text) (q : ProtocolParser)
        → q.current_depth ≡ depth + 1
        → depth + 1 ≤ 16
        → Within (depth + 1) (list path q)) where
    after_file-Within :
        (err : ProtocolErr) (q : ProtocolParser)
        → q.current_depth ≡ depth
        → Within depth (after_file ryml read_file list_dir rest (returned (of_protocol_err err) q))
    after_file-Within proto_success q e = rest-Within q e
    after_file-Within protoerr_invalid_file q e = rest-Within q e
    after_file-Within protoerr_unknown q e = omega arith
    after_file-Within protoerr_unexpected q e = omega arith

    file-Within :
        (path : Text) (p : ProtocolParser)
        → p.current_depth ≡ depth
        → Within depth (
            after_file ryml read_file list_dir rest (parse_protocol ryml read_file list_dir path p))
    unfolding parse_protocol
    file-Within path p e = go (parse_protocol_file ryml read_file path p.dbs)
      where
        go :
            (o : Option (ProtocolErr × Databases))
            → Within depth (
                after_file ryml read_file list_dir rest (elim o as (λ x. Run) [
                  | none ↦ escaped
                  | some r ↦ returned (of_protocol_err r.0) (record {
                    yaml_paths = p.yaml_paths ++ path ∷ [];
                    dbs = r.1;
                    current_depth = p.current_depth;
                  })
                ]))
        go none = tt
        go (some r) = after_file-Within r.0 _ e

    after_directory-Within :
        (r : Run)
        → Within (depth + 1) r
        → Within depth (after_directory ryml read_file list_dir rest r)
    after_directory-Within (returned protoparser_success q) h = rest-Within _ (omega arith)
    after_directory-Within (returned protoparsererr_unknown q) h = omega arith
    after_directory-Within (returned protoparsererr_invalid_input q) h = omega arith
    after_directory-Within (returned protoparsererr_unexpected q) h = omega arith
    after_directory-Within (returned protoparsererr_undefined q) h = omega arith
    after_directory-Within (returned protoparsererr_exists q) h = omega arith
    after_directory-Within escaped h = tt
    after_directory-Within out_of_fuel h = h

    enter-Within :
        (path : Text) (p : ProtocolParser)
        → p.current_depth ≡ depth
        → Within depth (enter ryml read_file list_dir list rest path p)
    enter-Within path p e = elim (Bool-cases (ltb max_current_depth_path (p.current_depth + 1))) [
      | inl deep ↦ rw deep (omega arith)
      | inr ok ↦ rw ok (
          after_directory-Within (list path (with_depth (p.current_depth + 1) p))
            (list-Within path _ (omega arith) (ground arith)))
    ]

  list_entries-Within :
      (depth : ℕ) (list : Text → ProtocolParser → Run)
      → ((path : Text) (q : ProtocolParser)
          → q.current_depth ≡ depth + 1
          → depth + 1 ≤ 16
          → Within (depth + 1) (list path q))
      → (es : List Entry) (p : ProtocolParser) → p.current_depth ≡ depth
      → Within depth (list_entries ryml read_file list_dir list es p)
  unfolding list_entries
  list_entries-Within depth list k [] p e = e
  list_entries-Within depth list k (x ∷ es) p e = go x.kind (list_entries-Within depth list k es)
    where
      go :
          (kind : Kind)
          → ((q : ProtocolParser)
              → q.current_depth ≡ depth
              → Within depth (list_entries ryml read_file list_dir list es q))
          → Within depth (elim kind as (λ x. Run) [
            | regular_file extension ↦
                if not (text_eq extension (codes ".yaml"))
                then list_entries ryml read_file list_dir list es p
                else after_file ryml read_file list_dir
                    (list_entries ryml read_file list_dir list es)
                    (parse_protocol ryml read_file list_dir x.path p)
            | directory ↦
                enter ryml read_file list_dir list
                  (list_entries ryml read_file list_dir list es)
                  x.path
                  p
            | other ↦ list_entries ryml read_file list_dir list es p
          ])
      go other ih = ih p e
      go directory ih = enter-Within depth list _ ih k x.path p e
      go (regular_file extension) ih = elim (Bool-cases (text_eq extension (codes ".yaml"))) [
        | inl yaml ↦ rw yaml (file-Within depth list _ ih k x.path p e)
        | inr skipped ↦ rw skipped (ih p e)
      ]

  -- `listProtocolFiles` at a depth of at most 16 ends, whatever the directories hold and even if
  -- they form a cycle, when its fuel and the depth together are above 16; the depth is as before
  -- if it succeeds and at most one higher if not.
  pub list_protocol_files-Within :
      (fuel : ℕ) (path : Text) (p : ProtocolParser)
      → p.current_depth ≤ max_current_depth_path
      → max_current_depth_path < fuel + p.current_depth
      → Within p.current_depth (list_protocol_files ryml read_file list_dir fuel path p)
  unfolding list_protocol_files
  list_protocol_files-Within zero path p low enough = omega arith
  list_protocol_files-Within (suc fuel) path p low enough =
      go (list_dir path) (λ q. list_protocol_files-Within fuel q)
    where
      go :
          (o : Option (List Entry))
          → ((path : Text) (q : ProtocolParser)
              → q.current_depth ≤ max_current_depth_path
              → max_current_depth_path < fuel + q.current_depth
              → Within q.current_depth (list_protocol_files ryml read_file list_dir fuel path q))
          → Within p.current_depth (elim o as (λ x. Run) [
            | none ↦ escaped
            | some entries ↦
                list_entries ryml read_file list_dir
                  (list_protocol_files ryml read_file list_dir fuel)
                  entries
                  p
          ])
      go none ih = tt
      go (some entries) ih =
          list_entries-Within p.current_depth _
            (λ path q e room.
              subst (λ d. Within d (list_protocol_files ryml read_file list_dir fuel path q)) e
                (ih path q (omega arith) (omega arith)))
            entries p refl

  -- A run of `parse` that began at depth 0. After a success a file was listed and a service is known.
  abbrev pub Parsed : Run → Type 0
  Parsed (returned protoparser_success q) =
      (q.current_depth ≡ 0) × (q.yaml_paths ≢ []) × (0 < size q.dbs.services)
  Parsed (returned err q) = q.current_depth ≤ 1
  Parsed escaped = Unit
  Parsed out_of_fuel = ⊥

  after_listing-Parsed : (r : Run) → Within 0 r → Parsed (after_listing ryml read_file list_dir r)
  after_listing-Parsed (returned protoparser_success q) h = go q.yaml_paths refl
    where
      go :
          (paths : List Text)
          → q.yaml_paths ≡ paths
          → Parsed (
              if nothing_listed ryml read_file list_dir paths
              then returned protoparsererr_invalid_input q
              else if size q.dbs.services == 0
              then returned protoparsererr_invalid_input q
              else returned protoparser_success q)
      go [] e = omega arith
      go (path ∷ paths) e = elim (Bool-cases (size q.dbs.services == 0)) [
        | inl nothing ↦ rw nothing (omega arith)
        | inr known ↦ rw known (h, (λ none_listed. cc), ground arith)
      ]
  after_listing-Parsed (returned protoparsererr_unknown q) h = h
  after_listing-Parsed (returned protoparsererr_invalid_input q) h = h
  after_listing-Parsed (returned protoparsererr_unexpected q) h = h
  after_listing-Parsed (returned protoparsererr_undefined q) h = h
  after_listing-Parsed (returned protoparsererr_exists q) h = h
  after_listing-Parsed escaped h = tt
  after_listing-Parsed out_of_fuel h = h

  -- `parse` on a parser at depth 0 ends on any file system, even if its directories form a cycle.
  -- If it succeeds, the depth is 0 again, a file is listed and a service is in the database; if it
  -- returns an error, the depth is at most 1.
  pub parse-Parsed :
      (exists : Text → Bool) (base : Text) (p : ProtocolParser)
      → p.current_depth ≡ 0
      → Parsed (parse ryml read_file list_dir exists base p)
  unfolding parse
  parse-Parsed exists base p e = elim (Bool-cases (exists base)) [
    | inl there ↦ rw there (
        after_listing-Parsed (list_protocol_files ryml read_file list_dir 17 base p) (
          subst (λ d. Within d (list_protocol_files ryml read_file list_dir 17 base p)) e
            (list_protocol_files-Within 17 base p (omega arith) (omega arith))))
    | inr missing ↦ rw missing (omega arith)
  ]
