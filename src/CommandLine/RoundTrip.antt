-- ===== src/CommandLine/RoundTrip.antt =====
-- `packet_gen --stack` into a capture, and `packet_gen --stack --decode` of it.
use tsn_gen.Prelude.{
  Text, ℕ, ◌+◌, ◌-◌, ◌*◌, ◌^◌, ◌<◌, ◌≤◌, ◌≡◌, refl, sym, ap, ◌∙◌, subst, arith, true, false,
  is_empty, List, [], ◌∷◌, ◌++◌, map, if◌then◌else◌, Option, none, some, length, length-map,
}
use tsn_gen.CommandLine.{Args, Transport, pcap, make_transport, is_nil_list}
use tsn_gen.CommandLine.Main.{interface_mode, stack_mode, generate_mode, decode_mode}
use tsn_gen.CommandLine.Output.{json_out, resolve_all, stack_round, print_stacked, first_engine}
use tsn_gen.CommandLine.Frames.{
  frame_bytes, frames, bytes_of, nonempty-frames, lines_of-frames, length-frames,
}
use tsn_gen.CommandLine.Replay.{
  Delivers-Yields, capture_size-recorded, recorded-AllShort, perform-recorder,
}
use tsn_gen.CommandLine.Script.{Performed, perform, script}
use tsn_gen.CommandLine.ScriptLaws.{generate_stream-perform}
use tsn_gen.CommandLine.Stream.{Trace, exits, close_any, generate_stream, decode_stream}
use tsn_gen.CommandLine.StreamLaws.{Yields, lines_of, decode_stream-prints}
use tsn_gen.Database.{Database}
use tsn_gen.Packet.{Var, ProtocolInterface}
use tsn_gen.Packet.Builder.{Random}
use tsn_gen.Packet.Layout.{AllVars}
use tsn_gen.Session.Exact.{AllWide}
use tsn_gen.Session.{StackedPacket}
use tsn_gen.Session.Json.{json_stacked}
use tsn_gen.Traffic.{SenderErr}
use tsn_gen.Transport.{ReceiverErr, receiver_success, receiver_err_eof}
use tsn_gen.Transport.Pcap.{global_header, PcapSender, PcapReceiver, open_pcap_receiver}
use tsn_gen.Transport.Pcap.Capture.{open_pcap_sender-header, open_pcap_receiver-header}
use tsn_gen.Transport.Pcap.Devices.{pcap_sender, pcap_receiver, stamps}
use tsn_gen.Transport.Pcap.Laws.{records, Delivers, records-Delivers}

-- The file that the sender of a run leaves.
abbrev pub captured : Option (ℕ × PcapSender) → List ℕ
captured none = []
captured (some s) = s.1.disk.file

abbrev pub new_pcap_sender : Transport → ℕ × PcapSender
new_pcap_sender t = (0, record { is_open = false; disk = record { file = []; room = 0 } })

abbrev pub new_pcap_receiver : Transport → PcapReceiver
new_pcap_receiver t = record { is_open = false; swap = false; rest = [] }

-- The same options with `--decode --count 0`.
abbrev pub replaying : Args → Args
replaying args = record args { decode = true; count = 0 }

packets_of :
    (clock : ℕ → ℕ × ℕ) (k : ℕ) (packets : List (List ℕ))
    → map (λ p. p.1) (stamps clock k packets) ≡ packets
unfolding stamps
packets_of clock k [] = refl
packets_of clock k (packet ∷ packets) =
    ap (λ (l : List (List ℕ)). packet ∷ l) (packets_of clock (k + 1) packets)

module _ (random : Random) (device : ℕ) (clock : ℕ → ℕ × ℕ) (if_db : Database ProtocolInterface)
    (var_db : Database Var) where
  -- A run of the generator into a capture, and one of the decoder on a file.
  abbrev pub run_generator :
      Option ℕ → ℕ → Args → Trace (Option (ℕ × PcapSender) × Option PcapReceiver)
  run_generator room fuel args =
      interface_mode random device (pcap_sender clock room) new_pcap_sender (pcap_receiver none)
        new_pcap_receiver if_db var_db fuel args

  abbrev pub run_decoder : List ℕ → ℕ → Args → Trace (Option (ℕ × PcapSender) × Option PcapReceiver)
  run_decoder file fuel args =
      interface_mode random device (pcap_sender clock none) new_pcap_sender
        (pcap_receiver (some file)) new_pcap_receiver if_db var_db fuel args

  module _ (vars : AllVars var_db) (wide : AllWide var_db) (ifaces : List ProtocolInterface)
      (args : Args) (path : Text) (some_names : is_nil_list args.stack ≡ false)
      (found : resolve_all if_db args.stack ≡ some ifaces)
      (transport : make_transport args.transport ≡ some (pcap path)) (json : json_out args ≡ true)
      (some_bytes : 0 < frame_bytes var_db ifaces)
      (short : frame_bytes var_db ifaces < 2 ^ 32) where
    abbrev sent : List StackedPacket
    sent = frames random var_db ifaces args.count (first_engine random device args)

    abbrev generating : Option ℕ → ℕ → Trace (Option (ℕ × PcapSender))
    generating room fuel =
        generate_stream (pcap_sender clock room) (stack_round random var_db args ifaces) fuel
          args.count (first_engine random device args) (some (new_pcap_sender (pcap path)))

    run_generator_lem :
        (room : Option ℕ) (fuel : ℕ)
        → args.decode ≡ false
        → run_generator room fuel args ≡ record {
          printed = (generating room fuel).printed;
          exit = (generating room fuel).exit;
          state = ((generating room fuel).state, none);
        }
    unfolding interface_mode stack_mode generate_mode
    run_generator_lem room fuel gen = rw (interface_mode, some_names, found, gen, transport) refl

    abbrev decoding : List ℕ → ℕ → Trace (Option PcapReceiver)
    decoding file fuel =
        decode_stream (pcap_receiver (some file)) (print_stacked var_db ifaces) fuel 0 tt
          (some (new_pcap_receiver (pcap path)))

    run_decoder_lem :
        (file : List ℕ) (fuel : ℕ)
        → is_empty args.hex_input ≡ true
        → run_decoder file fuel (replaying args) ≡ record {
          printed = (decoding file fuel).printed;
          exit = (decoding file fuel).exit;
          state = (none, (decoding file fuel).state);
        }
    unfolding interface_mode stack_mode decode_mode
    run_decoder_lem file fuel plain = rw (interface_mode, some_names, found, plain, transport) refl

    generator :
        (room fuel : ℕ)
        → args.decode ≡ false
        → 24 + args.count * (16 + frame_bytes var_db ifaces) ≤ room
        → 0 < args.count
        → args.count < fuel
        → let run = run_generator (some room) fuel args in
          (run.printed ≡ map json_stacked sent)
          × (run.exit ≡ exits 0)
          × (captured run.state.0 ≡ global_header ++ records false (stamps clock 0 (bytes_of sent)))
    generator room fuel gen enough some_rounds fuel_enough =
        let sender = pcap_sender clock (some room) in
        let round = stack_round random var_db args ifaces in
        let rng = first_engine random device args in
        let header = open_pcap_sender-header room (new_pcap_sender (pcap path)).1 (omega arith) in
        let run =
          generate_stream-perform sender round fuel args.count rng
            (some (new_pcap_sender (pcap path))) (ap (λ (r : SenderErr × PcapSender). r.0) header)
            some_rounds fuel_enough in
        let size = capture_size-recorded random var_db vars ifaces clock 0 args.count rng in
        let out =
          ap
            (λ (r : SenderErr × PcapSender).
              perform sender (script round args.count rng) (some (0, r.1)))
            header
          ∙ perform-recorder random var_db vars ifaces clock args json (some room) args.count rng 0
              global_header (room - 24)
              (recorded-AllShort random var_db vars ifaces clock 0 args.count rng short)
              (omega (arith, size)) in
        rw (run_generator_lem (some room) fuel gen) (
          run.0 ∙ ap (λ (q : Performed sender). q.1.0) out,
          run.1 ∙ ap (λ (q : Performed sender). exits (if q.0 then 0 else 2)) out,
          ap captured run.2 ∙ ap (λ (q : Performed sender). captured (close_any sender q.1.1)) out,
        )

    replay-Yields :
        (file : List ℕ)
        → file ≡ global_header ++ records false (stamps clock 0 (bytes_of sent))
        → let receiver = pcap_receiver (some file) in
          let opening = receiver.open_receiver (new_pcap_receiver (pcap path)) in
          (opening.0 ≡ receiver_success)
          × Yields receiver opening.1 (bytes_of sent) receiver_err_eof
    replay-Yields file e =
        let ps = stamps clock 0 (bytes_of sent) in
        let header =
          ap (λ (f : List ℕ). open_pcap_receiver (some f) (new_pcap_receiver (pcap path))) e
          ∙ open_pcap_receiver-header (records false ps) (new_pcap_receiver (pcap path)) in
        let delivers = records-Delivers false ps (
          recorded-AllShort random var_db vars ifaces clock 0 args.count
            (first_engine random device args) short) in
        (
          ap (λ (r : ReceiverErr × PcapReceiver). r.0) header,
          Delivers-Yields (some file)
              (open_pcap_receiver (some file) (new_pcap_receiver (pcap path))).1 (bytes_of sent)
              (subst (λ (r : PcapReceiver). Delivers r (bytes_of sent))
                (sym (ap (λ (r : ReceiverErr × PcapReceiver). r.1) header))
                (subst
                  (λ (l : List (List ℕ)).
                    Delivers (record { is_open = true; swap = false; rest = records false ps }) l)
                  (packets_of clock 0 (bytes_of sent)) delivers)),
        )

    decoder :
        (file : List ℕ) (fuel : ℕ)
        → file ≡ global_header ++ records false (stamps clock 0 (bytes_of sent))
        → is_empty args.hex_input ≡ true
        → args.count < fuel
        → let run = run_decoder file fuel (replaying args) in
          (run.printed ≡ map json_stacked sent) × (run.exit ≡ exits 0)
    decoder file fuel e plain enough =
        let rng = first_engine random device args in
        let (opens, yields) = replay-Yields file e in
        let run =
          decode_stream-prints (pcap_receiver (some file)) (print_stacked var_db ifaces) 0
            receiver_err_eof refl fuel tt (new_pcap_receiver (pcap path)) (bytes_of sent) opens
            yields
            (omega (
              arith,
              length-map (λ pkt. pkt.bytes) sent,
              length-frames random var_db vars ifaces args.count rng,
            )) in
        rw (run_decoder_lem file fuel plain) (
          run.0
              ∙ ap (λ (l : List (List ℕ)). lines_of (print_stacked var_db ifaces) l tt)
                  (nonempty-frames random var_db vars ifaces some_bytes args.count rng)
              ∙ lines_of-frames random var_db vars ifaces wide args.count rng,
          run.1,
        )

    -- `packet_gen --stack` in JSON with a count of at least 1 into a capture, and then `--decode
    -- --count 0` over the file that it leaves: both exit with 0, the second prints the very lines
    -- that the first has printed, and these are as many as the count. The names of the stack are
    -- found, the transport is a `pcap:` one and there is no hexadecimal input; the vars are
    -- well-formed and as wide as the values that they allow; a frame has at least one byte and
    -- less than 2 ^ 32, the file has room for all, and the fuel is greater than the count. The
    -- clock, the random engine and its seed are arbitrary.
    pub run_decoder-run_generator :
        (room fuel : ℕ)
        → args.decode ≡ false
        → is_empty args.hex_input ≡ true
        → 0 < args.count
        → args.count < fuel
        → 24 + args.count * (16 + frame_bytes var_db ifaces) ≤ room
        → let written = run_generator (some room) fuel args in
          let replayed = run_decoder (captured written.state.0) fuel (replaying args) in
          (written.exit ≡ exits 0)
          × (replayed.exit ≡ exits 0)
          × (replayed.printed ≡ written.printed)
          × (length written.printed ≡ args.count)
    run_decoder-run_generator room fuel gen plain some_rounds fuel_enough enough =
        let written = generator room fuel gen enough some_rounds fuel_enough in
        let file = captured (run_generator (some room) fuel args).state.0 in
        let replayed = decoder file fuel written.2 plain fuel_enough in
        (
          written.1,
          replayed.1,
          replayed.0 ∙ sym written.0,
          ap length written.0
              ∙ length-map json_stacked sent
              ∙ length-frames random var_db vars ifaces args.count
                  (first_engine random device args),
        )
