-- ===== src/Tests/Generator.antt =====
-- Examples of the traffic generator, over a sender that keeps what it is given.
use tsn_gen.Prelude.{
  codes, text_eq, ℕ, suc, ◌+◌, ◌<◌, ◌≡◌, ◌⊎◌, refl, List, [], ◌∷◌, ◌++◌, length, some, true, arith,
}
use tsn_gen.Database.{Database, find, get_element}
use tsn_gen.Packet.{ProtocolInterface, inward}
use tsn_gen.Packet.Decoder.{layer_bytes, total_bits}
use tsn_gen.Traffic.{
  sender_success, TrafficGeneratorErr, tgen_success, tgen_err_send_failed, Sender, Generator,
  close_generator, send_loop,
}
use tsn_gen.Traffic.Laws.{Refuses, close_generator-Refuses, send_loop-delivered}
use tsn_gen.Tests.{counter, vars, vars-AllVars, head, tail}

abbrev recorder : Sender
recorder = record {
  State = List (List ℕ);
  open_sender = λ s. (sender_success, s);
  send_packet = λ pkt s. (sender_success, s ++ pkt ∷ []);
  close_sender = λ s. s;
}

abbrev interfaces : Database ProtocolInterface
interfaces = record { internal_maps = (codes "p::head", head) ∷ (codes "p::tail", tail) ∷ [] }

abbrev generator : Generator recorder counter
generator = record { state = []; rng = 4; is_open = true }

close_generator-Refuses_example :
    Refuses recorder counter interfaces vars
      (close_generator recorder counter generator)
      inward
      (codes "p::head")
      3
      2
close_generator-Refuses_example =
    close_generator-Refuses recorder counter interfaces vars generator inward (codes "p::head") 3 2

head-bytes : 0 < layer_bytes vars head
unfolding layer_bytes total_bits get_element find text_eq
head-bytes = omega arith

head-known : get_element (codes "p::head") interfaces ≡ some head
unfolding get_element find text_eq
head-known = refl

send_loop-delivered_example :
    (result : TrafficGeneratorErr × Generator recorder counter) × (send_loop recorder counter
        interfaces vars 0
        (codes "p::head")
        (suc 4)
        generator
      ≡ some result)
    × ((result.0 ≡ tgen_err_send_failed)
        ⊎ ((result.0 ≡ tgen_success) × (length result.1.state ≡ length {A = List ℕ} [] + suc 4)))
send_loop-delivered_example =
    send_loop-delivered recorder counter interfaces vars (λ s. s) (λ pkt s h. refl) vars-AllVars
      head head-bytes [] 4 0 (codes "p::head") 4 head-known
