-- ===== src/CommandLine/Main.antt =====
-- `main` after the arguments (traffic-gen/tools/packet_gen_main.cpp): the listing of the interfaces, the
-- stack file, chains and stacks of interfaces, each decoded from hexadecimal text or a receiver, or
-- generated and sent. The YAML library, the file system, the random engine, the number that
-- `std::random_device` draws and the three transports are parameters. What goes to the standard error,
-- and what `--version` prints, is left out; so are the destructors of the transports, which close them
-- where a call of `open` has failed.
use tsn_gen.Prelude.{
  Text, is_empty, ℕ, Bool, true, false, not, List, [], ◌∷◌, Option, none, some, if◌then◌else◌,
}
use tsn_gen.CommandLine.{
  Args, taken, refused, leaves, thrown, parse_args, is_nil_list, Transport, make_transport,
}
use tsn_gen.CommandLine.Stream.{Ending, exits, throws, Trace, Round, decode_stream, generate_stream}
use tsn_gen.CommandLine.Validate.{run_validate}
use tsn_gen.Database.{Database}
use tsn_gen.Hex.{from_hex}
use tsn_gen.Layer.{Stack}
use tsn_gen.Packet.{Var, ProtocolInterface}
use tsn_gen.Packet.Builder.{Random}
use tsn_gen.Parser.Listing.{Entry, ProtocolParser, new_parser}
use tsn_gen.Parser.StackBuilder.{StackBuilderErr, stack_success}
use tsn_gen.Parser.Validator.Files.{DirectoryEntry}
use tsn_gen.Parser.Yaml.{Ryml}
use tsn_gen.Session.Loaded.{session_parse, load_stack}
use tsn_gen.Traffic.{Sender}
use tsn_gen.Transport.{Receiver}
use tsn_gen.CommandLine.Output.{
  interface_lines, resolve_all, print_loaded, print_stacked, print_packet, loaded_round,
  stack_round, chain_round, first_engine,
}

module _ (random : Random) (device : ℕ) (sender : Sender) (new_sender : Transport → sender.State)
    (receiver : Receiver) (new_receiver : Transport → receiver.State) where
  -- What a run leaves: the sender and the receiver, none for the null pointer.
  abbrev pub Left : Type 0
  Left = Option sender.State × Option receiver.State

  abbrev pub stops : List Text → Ending → Trace Left
  stops lines exit = record { printed = lines; exit = exit; state = (none, none) }

  abbrev pub left_by_receiver : Trace (Option receiver.State) → Trace Left
  left_by_receiver t = record { printed = t.printed; exit = t.exit; state = (none, t.state) }

  abbrev pub left_by_sender : Trace (Option sender.State) → Trace Left
  left_by_sender t = record { printed = t.printed; exit = t.exit; state = (t.state, none) }

  abbrev pub new_of : {S : Type 0} → (Transport → S) → Option Transport → Option S
  new_of make none = none
  new_of make (some t) = some (make t)

  -- Decoding of `--hex`, or of a receiver.
  abbrev pub print_hex : {D : Type 0} → (List ℕ → D → Text × D) → D → Bool × List ℕ → Trace Left
  print_hex decode_and_print d (ok, raw) =
      if ok then stops ((decode_and_print raw d).0 ∷ []) (exits 0) else stops [] (exits 1)

  unfoldable pub decode_mode : {D : Type 0} → (List ℕ → D → Text × D) → D → ℕ → Args → Trace Left
  unfolding decode_stream
  decode_mode decode_and_print d fuel args =
      if not (is_empty args.hex_input)
      then print_hex decode_and_print d (from_hex args.hex_input [])
      else left_by_receiver (
          decode_stream receiver decode_and_print fuel args.count d
            (new_of new_receiver (make_transport args.transport)))

  unfoldable pub generate_mode : {E : Type 0} → (E → Round × E) → E → ℕ → Args → Trace Left
  unfolding generate_stream
  generate_mode next_round rng fuel args = left_by_sender (
      generate_stream sender next_round fuel args.count rng
        (new_of new_sender (make_transport args.transport)))

  module _ (if_db : Database ProtocolInterface) (var_db : Database Var) where
    -- `--stack-file`, from the answer of `loadStack` on: a build that succeeds has a stack.
    unfoldable pub stack_file_mode : ℕ → Args → StackBuilderErr × Option Stack → Trace Left
    unfolding decode_mode generate_mode print_loaded loaded_round
    stack_file_mode fuel args (stack_success, some stack) =
        if args.decode
        then decode_mode (print_loaded if_db var_db) stack.layers fuel args
        else generate_mode (loaded_round random var_db args if_db)
            (stack.layers, first_engine random device args) fuel args
    stack_file_mode fuel args (err, stack) = stops [] (exits 2)

    -- `--stack`, from the resolved layers on.
    unfoldable pub stack_mode : ℕ → Args → Option (List ProtocolInterface) → Trace Left
    unfolding decode_mode generate_mode print_stacked stack_round
    stack_mode fuel args none = stops [] (exits 2)
    stack_mode fuel args (some ifaces) =
        if args.decode
        then decode_mode (print_stacked var_db ifaces) tt fuel args
        else generate_mode (stack_round random var_db args ifaces) (first_engine random device args)
            fuel args

    -- `--connect` and `--interface`, from the resolved pipeline on.
    unfoldable pub pipeline_mode : ℕ → Args → Option (List ProtocolInterface) → Trace Left
    unfolding decode_mode generate_mode print_packet chain_round
    pipeline_mode fuel args none = stops [] (exits 2)
    pipeline_mode fuel args (some pipeline) =
        if args.decode
        then decode_mode (print_packet var_db args pipeline) tt fuel args
        else generate_mode (chain_round random var_db args pipeline)
            (first_engine random device args) fuel args

    -- The modes without a stack file.
    unfoldable pub interface_mode : ℕ → Args → Trace Left
    unfolding stack_mode pipeline_mode resolve_all
    interface_mode fuel args =
        if not (is_nil_list args.stack)
        then stack_mode fuel args (resolve_all if_db args.stack)
        else if not (is_nil_list args.chain)
        then pipeline_mode fuel args (resolve_all if_db args.chain)
        else pipeline_mode fuel args (resolve_all if_db (args.iface ∷ []))

  module _ (ryml : Ryml) (read_file : Text → Option Text) (list_dir : Text → Option (List Entry))
      (exists maps : Text → Bool) (walk : Text → Option (List DirectoryEntry)) where
    -- From the answer of `Session::parse` on.
    abbrev pub after_parse : ℕ → Args → Option (Bool × ProtocolParser) → Trace Left
    after_parse fuel args none = stops [] throws
    after_parse fuel args (some (false, p)) = stops [] (exits 2)
    after_parse fuel args (some (true, p)) =
        let if_db = p.dbs.interfaces in
        if args.list_interfaces
        then stops (interface_lines args.yaml_dir if_db) (exits 0)
        else if not (is_empty args.stack_file)
        then stack_file_mode if_db p.dbs.vars fuel args
            (load_stack ryml read_file maps p args.stack_file)
        else interface_mode if_db p.dbs.vars fuel args

    abbrev pub ending_of : Option ℕ → Ending
    ending_of none = throws
    ending_of (some code) = exits code

    unfoldable pub run_args : ℕ → Args → Trace Left
    unfolding interface_lines stack_file_mode interface_mode
    run_args fuel args =
        if args.validate
        then stops [] (ending_of (run_validate ryml read_file walk args))
        else after_parse fuel args
            (session_parse ryml read_file list_dir exists args.yaml_dir new_parser)

    -- `main`, on the arguments after the name of the program.
    unfoldable pub main : ℕ → List Text → Trace Left
    unfolding run_args
    main fuel argv = elim (parse_args argv) [
      | taken args ↦ run_args fuel args
      | refused ↦ stops [] (exits 1)
      | leaves ↦ stops [] (exits 0)
      | thrown ↦ stops [] throws
    ]
