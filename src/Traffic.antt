-- ===== src/Traffic.antt =====
-- `TrafficGenerator` (traffic-gen/inc/tsn/traffic_generator.h, traffic-gen/src/traffic_generator.cpp)
-- over an abstract `ISender` (traffic-gen/inc/tsn/sender.h). The generator is its state: the
-- sender's, the engine of its builder and `mOpen`. What it logs is left out.
pub mod Laws
use tsn_gen.Prelude.{
  Text, ℕ, zero, suc, ◌==◌, Bool, true, false, not, List, [], ◌∷◌, Option, none, some,
  if◌then◌else◌,
}
use tsn_gen.Database.{Database, get_element, for_each}
use tsn_gen.Packet.{Var, IfDirections, inward, outward, ProtocolInterface}
use tsn_gen.Packet.Builder.{Random, seed, build, is_nil}

pub data SenderErr : Type 0 where
  sender_success sender_err_unknown sender_err_open_failed : SenderErr
  sender_err_send_failed sender_err_not_open : SenderErr

pub data TrafficGeneratorErr : Type 0 where
  tgen_success tgen_err_unknown tgen_err_not_open tgen_err_send_failed : TrafficGeneratorErr
  tgen_err_iface_not_found tgen_err_empty_packet : TrafficGeneratorErr

-- The virtual methods of a sender, on the state of the implementation.
pub record Sender : Type 1 where
  pub State : Type 0
  pub open_sender : State → SenderErr × State
  pub send_packet : List ℕ → State → SenderErr × State
  pub close_sender : State → State

abbrev pub is_sent : SenderErr → Bool
is_sent sender_success = true
is_sent err = false

abbrev pub is_direction : IfDirections → IfDirections → Bool
is_direction inward inward = true
is_direction outward outward = true
is_direction inward outward = false
is_direction outward inward = false

module _ (sender : Sender) (random : Random) where
  open sender use {State, open_sender, send_packet, close_sender}
  open random use {Engine}

  pub record Generator : Type 0 where
    pub state : State
    pub rng : Engine
    pub is_open : Bool

  unfoldable pub open_generator : Generator → TrafficGeneratorErr × Generator
  open_generator gen =
      let (err, state') = open_sender gen.state in
      if is_sent err
      then (tgen_success, record { state = state'; rng = gen.rng; is_open = true })
      else (tgen_err_not_open, record { state = state'; rng = gen.rng; is_open = gen.is_open })

  unfoldable pub close_generator : Generator → Generator
  close_generator gen =
      if gen.is_open
      then record { state = close_sender gen.state; rng = gen.rng; is_open = false }
      else gen

  unfoldable pub seed_rng : ℕ → Generator → Generator
  seed_rng s gen = record { state = gen.state; rng = seed random s; is_open = gen.is_open }

  module _ (if_db : Database ProtocolInterface) (var_db : Database Var) where
    unfoldable pub send_one : ProtocolInterface → Generator → TrafficGeneratorErr × Generator
    send_one iface gen =
        let (pkt, rng') = build random iface var_db gen.rng in
        let (err, state') = send_packet pkt gen.state in
        if is_nil pkt
        then (
          tgen_err_empty_packet,
          record { state = gen.state; rng = rng'; is_open = gen.is_open },
        )
        else (
          if is_sent err then tgen_success else tgen_err_send_failed,
          record { state = state'; rng = rng'; is_open = gen.is_open },
        )

    unfoldable pub send : Text → Generator → TrafficGeneratorErr × Generator
    unfolding send_one
    send qualified_name gen =
        if not gen.is_open
        then (tgen_err_not_open, gen)
        else elim (get_element qualified_name if_db) [
          | none ↦ (tgen_err_iface_not_found, gen)
          | some iface ↦ send_one iface gen
        ]

    -- The error that is kept: the last one that is neither SUCCESS nor EMPTY_PACKET.
    abbrev pub keep_err : TrafficGeneratorErr → TrafficGeneratorErr → TrafficGeneratorErr
    keep_err tgen_success last_err = last_err
    keep_err tgen_err_empty_packet last_err = last_err
    keep_err err last_err = err

    -- What `sendFiltered` does with one entry, for the interfaces that a test takes.
    unfoldable pub visit :
        (ProtocolInterface → Bool)
        → Text
        → ProtocolInterface
        → TrafficGeneratorErr × Generator
        → TrafficGeneratorErr × Generator
    visit wanted name iface (last_err, gen) =
        let (err, gen') = send_one iface gen in
        if wanted iface then (keep_err err last_err, gen') else (last_err, gen)

    unfoldable pub send_filtered : IfDirections → Generator → TrafficGeneratorErr × Generator
    unfolding visit
    send_filtered dir gen =
        if not gen.is_open
        then (tgen_err_not_open, gen)
        else for_each (visit (λ iface. is_direction iface.direction dir)) if_db (tgen_success, gen)

    unfoldable pub send_all : Generator → TrafficGeneratorErr × Generator
    unfolding visit
    send_all gen =
        if not gen.is_open
        then (tgen_err_not_open, gen)
        else for_each (visit (λ iface. true)) if_db (tgen_success, gen)

    -- The loop of `sendLoop` for `n` rounds. A send that failed ends it; an empty packet does not.
    unfoldable pub repeat : ℕ → ProtocolInterface → Generator → TrafficGeneratorErr × Generator
    repeat zero iface gen = (tgen_success, gen)
    repeat (suc n) iface gen =
        let (err, gen') = send_one iface gen in
        let rest = repeat n iface gen' in
        elim err [ tgen_err_send_failed ↦ (tgen_err_send_failed, gen') | other ↦ rest ]

    -- `sendLoop`. A count of 0 starts a loop that only a failed send ends: `fuel` bounds the rounds of
    -- that loop, and the answer is none if it is not over by then.
    unfoldable pub send_loop : ℕ → Text → ℕ → Generator → Option (TrafficGeneratorErr × Generator)
    unfolding repeat
    send_loop fuel qualified_name count gen =
        if not gen.is_open
        then some (tgen_err_not_open, gen)
        else elim (get_element qualified_name if_db) [
          | none ↦ some (tgen_err_iface_not_found, gen)
          | some iface ↦
              let (err, gen') = repeat fuel iface gen in
              if count == 0
              then (elim err [
                | tgen_err_send_failed ↦ some (tgen_err_send_failed, gen')
                | other ↦ none
              ])
              else some (repeat count iface gen)
        ]
