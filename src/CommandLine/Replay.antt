-- ===== src/CommandLine/Replay.antt =====
-- A stack of interfaces that `packet_gen` generates into a capture, and the decoding of the capture.
use tsn_gen.Prelude.{
  Text, ℕ, zero, suc, ◌+◌, ◌-◌, ◌*◌, ◌^◌, ◌<◌, ◌≤◌, ◌≡◌, refl, sym, ap, ◌∙◌, arith, true, false,
  List, [], ◌∷◌, ◌++◌, map, append_assoc, append-nil, Option, some, length,
}
use tsn_gen.CommandLine.{Args}
use tsn_gen.CommandLine.Frames.{bytes_of, frame_bytes, frames, length-frame}
use tsn_gen.CommandLine.Output.{json_out, stack_round}
use tsn_gen.CommandLine.Script.{
  Event, prints, stage_events, script, Performed, perform, add_lines, after_emit,
}
use tsn_gen.CommandLine.StreamLaws.{Yields}
use tsn_gen.CommandLine.Stream.{send_or_fail}
use tsn_gen.Database.{Database}
use tsn_gen.Packet.{Var, ProtocolInterface}
use tsn_gen.Packet.Builder.{Random}
use tsn_gen.Packet.Layout.{AllVars}
use tsn_gen.Session.Frame.{generate_stack}
use tsn_gen.Session.FrameLaws.{packet}
use tsn_gen.Session.Json.{json_stacked}
use tsn_gen.Traffic.{SenderErr, is_sent}
use tsn_gen.Transport.{receiver_err_eof}
use tsn_gen.Transport.Pcap.{PcapSender, PcapReceiver}
use tsn_gen.Transport.Pcap.Capture.{capture_size, recorder, send_pcap-record}
use tsn_gen.Transport.Pcap.Devices.{pcap_sender, pcap_receiver, stamps}
use tsn_gen.Transport.Pcap.Laws.{Stamped, header_in, records, AllShort, Delivers}

pub Delivers-Yields :
    (file : Option (List ℕ)) (r : PcapReceiver) (packets : List (List ℕ))
    → Delivers r packets
    → Yields (pcap_receiver file) r packets receiver_err_eof
Delivers-Yields file r [] d = d []
Delivers-Yields file r (packet ∷ packets) d =
    let (r', e, rest) = d [] in (r', e, Delivers-Yields file r' packets rest)

module _ (random : Random) (var_db : Database Var) (vars : AllVars var_db)
    (ifaces : List ProtocolInterface) where
  open random use {Engine}

  module _ (clock : ℕ → ℕ × ℕ) where
    abbrev pub recorded : ℕ → ℕ → Engine → List Stamped
    recorded k n rng = stamps clock k (bytes_of (frames random var_db ifaces n rng))

    pub capture_size-recorded :
        (k n : ℕ) (rng : Engine)
        → capture_size (recorded k n rng) ≡ n * (16 + frame_bytes var_db ifaces)
    unfolding capture_size frames stamps
    capture_size-recorded k zero rng = omega arith
    capture_size-recorded k (suc n) rng = omega (
      arith,
      length-frame random var_db vars ifaces rng,
      capture_size-recorded (k + 1) n (generate_stack random var_db ifaces rng).1,
    )

    pub recorded-AllShort :
        (k n : ℕ) (rng : Engine) → frame_bytes var_db ifaces < 2 ^ 32 → AllShort (recorded k n rng)
    unfolding frames stamps
    recorded-AllShort k zero rng h = tt
    recorded-AllShort k (suc n) rng h = (
      omega (arith, length-frame random var_db vars ifaces rng),
      recorded-AllShort (k + 1) n (generate_stack random var_db ifaces rng).1 h,
    )

    module _ (args : Args) (json : json_out args ≡ true) (room0 : Option ℕ) where
      -- Everything is sent, with these lines, and the capture stands like this.
      abbrev pub done : List Text → ℕ → List ℕ → ℕ → Performed (pcap_sender clock room0)
      done lines k file room = (true, (lines, some (k, recorder file room)))

      done_eq :
          {lines : List Text} {k k' : ℕ} {file file' : List ℕ} {room room' : ℕ}
          → k ≡ k'
          → file ≡ file'
          → room ≡ room'
          → done lines k file room ≡ done lines k' file' room'
      done_eq e f g = rw (e, f, g) refl

      abbrev rounds : ℕ → Engine → List Event
      rounds n rng = script (stack_round random var_db args ifaces) n rng

      perform-round :
          (n : ℕ) (rng : Engine) (k : ℕ) (file : List ℕ) (room : ℕ)
          → let (pkt, rng') = generate_stack random var_db ifaces rng in
            length pkt.bytes < 2 ^ 32
            → 16 + length pkt.bytes ≤ room
            → perform (pcap_sender clock room0) (rounds (suc n) rng) (some (k, recorder file room))
              ≡ add_lines (pcap_sender clock room0) (json_stacked pkt ∷ []) (
                  perform (pcap_sender clock room0) (rounds n rng') (
                    some (
                      k + 1,
                      recorder
                          (file ++ (header_in false (clock k) (length pkt.bytes) ++ pkt.bytes))
                          (room - (16 + length pkt.bytes)),
                    )))
      unfolding perform script stack_round send_or_fail prints stage_events
      perform-round n rng k file room short enough =
          let (pkt, rng') = generate_stack random var_db ifaces rng in
          rw json (
            ap
              (λ (r : SenderErr × PcapSender).
                add_lines (pcap_sender clock room0) (json_stacked pkt ∷ []) (
                  after_emit (pcap_sender clock room0)
                    (perform (pcap_sender clock room0) (rounds n rng'))
                    (is_sent r.0, some (k + 1, r.1))))
              (send_pcap-record (clock k) pkt.bytes file room short enough))

      -- The loop of the generator over a capture with enough room.
      pub perform-recorder :
          (n : ℕ) (rng : Engine) (k : ℕ) (file : List ℕ) (room : ℕ)
          → AllShort (recorded k n rng)
          → capture_size (recorded k n rng) ≤ room
          → perform (pcap_sender clock room0) (rounds n rng) (some (k, recorder file room))
            ≡ done
                (map json_stacked (frames random var_db ifaces n rng))
                (k + n)
                (file ++ records false (recorded k n rng))
                (room - capture_size (recorded k n rng))
      unfolding perform script frames stamps records capture_size
      perform-recorder zero rng k file room short enough =
          done_eq (omega arith) (sym (append-nil file)) (omega arith)
      perform-recorder (suc n) rng k file room short enough =
          let (pkt, rng') = generate_stack random var_db ifaces rng in
          let header = header_in false (clock k) (length pkt.bytes) in
          let rest = records false (recorded (k + 1) n rng') in
          perform-round n rng k file room short.0 (omega arith)
          ∙ ap (add_lines (pcap_sender clock room0) (json_stacked pkt ∷ [])) (
              perform-recorder n rng' (k + 1) (file ++ (header ++ pkt.bytes))
                (room - (16 + length pkt.bytes)) short.1 (omega arith))
          ∙ done_eq (omega arith)
              (append_assoc file (header ++ pkt.bytes) rest
                ∙ ap (λ (b : List ℕ). file ++ b) (append_assoc header pkt.bytes rest))
              (omega arith)
