-- ===== src/Session/Loaded.antt =====
-- `Session::parse` and `Session::loadStack`, and what runs on the databases that the parse fills
-- (traffic-gen/src/session.cpp).
use tsn_gen.Prelude.{
  Text, ℕ, ◌≡◌, subst, Bool, true, false, List, [], ◌∷◌, ◌++◌, Option, none, some, All,
}
use tsn_gen.Packet.{Var, ProtocolInterface}
use tsn_gen.Packet.Builder.{Random}
use tsn_gen.Packet.Layout.{IsVar, AllVars}
use tsn_gen.Session.Frame.{generate_stack, decode_stack}
use tsn_gen.Session.FrameLaws.{carry_layers, decode_stack-generate_stack}
use tsn_gen.Layer.{Stack}
use tsn_gen.Layer.Registry.{shipped}
use tsn_gen.Parser.StackBuilder.{StackBuilderErr, build_stack}
use tsn_gen.Parser.Yaml.{Ryml}
use tsn_gen.Parser.Listing.{
  ProtocolParserErr, protoparser_success, Entry, ProtocolParser, Run, returned, escaped,
  out_of_fuel, new_parser, parse,
}
use tsn_gen.Parser.Listing.Accepted.{IsClean, AllSound, parse-AllSound}
use tsn_gen.Parser.Validator.Accepted.{IsAccepted}

-- `Session::loadStack`, over the services that the parser has filled and the shipped modules.
unfoldable pub load_stack :
    Ryml
    → (Text → Option Text)
    → (Text → Bool)
    → ProtocolParser
    → Text
    → StackBuilderErr × Option Stack
load_stack ryml read_file maps p path = build_stack ryml p.dbs.services shipped read_file maps path

module _ (ryml : Ryml) (read_file : Text → Option Text)
    (list_dir : Text → Option (List Entry)) where
  abbrev is_success : ProtocolParserErr → Bool
  is_success protoparser_success = true
  is_success err = false

  -- `Session::parse`: whether the parser succeeds, and the session's parser afterwards.
  abbrev session_answer : Run → Option (Bool × ProtocolParser)
  session_answer (returned err p) = some (is_success err, p)
  session_answer escaped = none
  session_answer out_of_fuel = none

  unfoldable pub session_parse :
      (Text → Bool) → Text → ProtocolParser → Option (Bool × ProtocolParser)
  session_parse exists protocol_dir p =
      session_answer (parse ryml read_file list_dir exists protocol_dir p)

  session-AllVars :
      (vars : List (Text × Var)) → All (λ e. IsAccepted e.1) vars → All (λ e. IsVar e.1) vars
  session-AllVars [] h = tt
  session-AllVars (e ∷ vars) h = (h.0.is_var, session-AllVars vars h.1)

  session_parse-AllVars :
      (r : Run) (ok : Bool) (p : ProtocolParser)
      → AllSound ryml read_file r
      → session_answer r ≡ some (ok, p)
      → All (IsClean ryml read_file) p.yaml_paths
      → AllVars p.dbs.vars
  session_parse-AllVars (returned err q) ok p sound e clean =
      let same : q ≡ p = cc in
      session-AllVars p.dbs.vars.internal_maps (
        subst
          (λ x.
            All (IsClean ryml read_file) x.yaml_paths
            → All (λ e. IsAccepted e.1) x.dbs.vars.internal_maps)
          same sound clean)
  session_parse-AllVars escaped ok p sound e clean = cc
  session_parse-AllVars out_of_fuel ok p sound e clean = cc

  -- If `Session::parse` on a new parser returns, and every file that it listed is clean (the
  -- validator finds nothing in it and the parser sees all of it), then `decodeStack` takes the
  -- frame of `generateStack` over the parsed vars apart into the layers that went in, whatever
  -- bytes follow it, the fields as far as the widths carry the values.
  pub decode_stack-session_parse :
      (exists : Text → Bool) (protocol_dir : Text) {ok : Bool} {p : ProtocolParser}
      → session_parse exists protocol_dir new_parser ≡ some (ok, p)
      → All (IsClean ryml read_file) p.yaml_paths
      → (random : Random) (ifaces : List ProtocolInterface) (rng : random.Engine) (post : List ℕ)
      → (decode_stack p.dbs.vars ifaces
          ((generate_stack random p.dbs.vars ifaces rng).0.bytes ++ post)).layers
        ≡ carry_layers p.dbs.vars ifaces (generate_stack random p.dbs.vars ifaces rng).0.layers
  unfolding session_parse
  decode_stack-session_parse exists protocol_dir {ok} {p} e clean random ifaces rng post =
      decode_stack-generate_stack random p.dbs.vars
        (session_parse-AllVars (parse ryml read_file list_dir exists protocol_dir new_parser) ok p
          (parse-AllSound ryml read_file list_dir exists protocol_dir) e clean)
        ifaces rng post
