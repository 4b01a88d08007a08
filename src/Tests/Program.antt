-- ===== src/Tests/Program.antt =====
-- Examples of runs of the program.
use tsn_gen.Prelude.{
  Text, codes, text_eq, is_empty, ℕ, ◌+◌, ◌≡◌, refl, arith, ◌==◌, List, [], ◌∷◌, none, some,
  if◌then◌else◌, length,
}
use tsn_gen.CommandLine.{Args, default_args, pcap, make_transport, split_kind}
use tsn_gen.CommandLine.Frames.{frame_bytes}
use tsn_gen.CommandLine.Output.{resolve_all}
use tsn_gen.CommandLine.RoundTrip.{
  captured, replaying, run_generator, run_decoder, run_decoder-run_generator,
}
use tsn_gen.CommandLine.Script.{prints, stage_events, script, perform}
use tsn_gen.CommandLine.ScriptLaws.{generate_stream-perform, generate_stream-endless}
use tsn_gen.CommandLine.Stream.{exits, running, Round, send_or_fail, generate_stream, decode_stream}
use tsn_gen.CommandLine.StreamLaws.{nonempty, lines_of, decode_stream-prints}
use tsn_gen.Database.{Database, find, get_element}
use tsn_gen.Packet.{ProtocolInterface}
use tsn_gen.Packet.Decoder.{layer_bytes, total_bits}
use tsn_gen.Session.{find_interface}
use tsn_gen.Session.Exact.{AllWide, decode_stack-generate_stack_exact}
use tsn_gen.Session.Frame
use tsn_gen.Traffic.{sender_success, sender_err_send_failed, Sender}
use tsn_gen.Transport.{ReceiverErr, receiver_success, receiver_err_recv_failed, Receiver}
use tsn_gen.Tests.{counter, vars, vars-AllVars, head, tail}

-- A receiver of the packets that are left, which fails after the last.
abbrev next_of : List (List ℕ) → List ℕ → ReceiverErr × (List ℕ × List (List ℕ))
next_of [] packet = (receiver_err_recv_failed, (packet, []))
next_of (p ∷ ps) packet = (receiver_success, (p, ps))

abbrev queue : Receiver
queue = record {
  State = List (List ℕ);
  open_receiver = λ s. (receiver_success, s);
  receive_packet = next_of;
  close_receiver = λ s. [];
}

-- Prints a packet's number.
abbrev numbered : List ℕ → ℕ → Text × ℕ
numbered packet n = ((48 + n) ∷ packet, n + 1)

abbrev three : List (List ℕ)
three = (1 ∷ []) ∷ [] ∷ (2 ∷ 3 ∷ []) ∷ []

decode_stream-prints_example :
    let run = decode_stream queue numbered 9 0 0 (some three) in
    (run.printed ≡ (48 ∷ 1 ∷ []) ∷ (49 ∷ 2 ∷ 3 ∷ []) ∷ [])
    × (run.exit ≡ exits 2)
    × (last : List (List ℕ)) × (run.state ≡ some [])
unfolding nonempty lines_of
decode_stream-prints_example =
    decode_stream-prints queue numbered 0 receiver_err_recv_failed refl 9 0 three three refl
      ([] ∷ (2 ∷ 3 ∷ []) ∷ [], refl, ((2 ∷ 3 ∷ []) ∷ [], refl, ([], refl, refl))) (omega arith)

-- A sender that takes as many packets as its number says.
abbrev limited : Sender
limited = record {
  State = ℕ × List (List ℕ);
  open_sender = λ s. (sender_success, s);
  send_packet = λ packet s.
      (if s.0 == length s.1 then sender_err_send_failed else sender_success, (s.0, packet ∷ s.1));
  close_sender = λ s. (0, s.1);
}

abbrev one_packet : ℕ → Round × ℕ
one_packet n = (record { heading = codes "a" ∷ []; stages = (codes "b" ∷ [], n ∷ []) ∷ [] }, n + 1)

generate_stream-perform_example :
    let run = generate_stream limited one_packet 9 3 5 (some (1, [])) in
    (run.printed ≡ codes "a" ∷ codes "b" ∷ codes "a" ∷ codes "b" ∷ [])
    × (run.exit ≡ exits 2)
    × (run.state ≡ some (0, (6 ∷ []) ∷ (5 ∷ []) ∷ []))
unfolding perform script prints stage_events send_or_fail
generate_stream-perform_example =
    generate_stream-perform limited one_packet 9 3 5 (some (1, [])) refl (omega arith) (omega arith)

generate_stream-endless_example :
    let run = generate_stream limited one_packet 2 0 5 none in
    (run.printed ≡ codes "a" ∷ codes "b" ∷ codes "a" ∷ codes "b" ∷ [])
    × (run.exit ≡ running)
    × (run.state ≡ none)
unfolding perform script prints stage_events send_or_fail
generate_stream-endless_example = generate_stream-endless limited one_packet 2 5 none tt

vars-AllWide : AllWide vars
vars-AllWide = (
  record { expected = tt; range = tt },
  (
    record { expected = (omega arith, (omega arith, tt)); range = tt },
    (record { expected = tt; range = omega arith }, tt),
  ),
)

decode_stack-generate_stack_exact_example :
    let pkt = (Frame.generate_stack counter vars (tail ∷ head ∷ []) 3).0 in
    Frame.decode_stack vars (tail ∷ head ∷ []) pkt.bytes ≡ pkt
decode_stack-generate_stack_exact_example =
    decode_stack-generate_stack_exact counter vars vars-AllVars vars-AllWide (tail ∷ head ∷ []) 3

abbrev interfaces : Database ProtocolInterface
interfaces = record { internal_maps = (codes "p::head", head) ∷ (codes "p::tail", tail) ∷ [] }

abbrev capturing : Args
capturing = record default_args {
  stack = codes "p::tail" ∷ codes "p::head" ∷ [];
  count = 3;
  transport = codes "pcap:f";
}

names-resolve_all : resolve_all interfaces capturing.stack ≡ some (tail ∷ head ∷ [])
unfolding resolve_all find_interface get_element find text_eq
names-resolve_all = refl

capture-make_transport : make_transport capturing.transport ≡ some (pcap (codes "f"))
unfolding make_transport split_kind text_eq is_empty
capture-make_transport = refl

frame-five : frame_bytes vars (tail ∷ head ∷ []) ≡ 5
unfolding frame_bytes layer_bytes total_bits get_element find text_eq
frame-five = refl

abbrev clock : ℕ → ℕ × ℕ
clock n = (n, 0)

run_decoder-run_generator_example :
    let written = run_generator counter 7 clock interfaces vars (some 100) 9 capturing in
    let replayed =
      run_decoder counter 7 clock interfaces vars
        (captured written.state.0)
        9
        (replaying capturing) in
    (written.exit ≡ exits 0)
    × (replayed.exit ≡ exits 0)
    × (replayed.printed ≡ written.printed)
    × (length written.printed ≡ 3)
unfolding text_eq is_empty
run_decoder-run_generator_example =
    run_decoder-run_generator counter 7 clock interfaces vars vars-AllVars vars-AllWide
      (tail ∷ head ∷ []) capturing (codes "f") refl names-resolve_all capture-make_transport refl
      (omega (arith, frame-five)) (omega (arith, frame-five)) 100 9 refl refl (omega arith)
      (omega arith) (omega (arith, frame-five))
