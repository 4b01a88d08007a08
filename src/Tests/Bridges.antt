-- ===== src/Tests/Bridges.antt =====
-- Examples of the bridge: two packets, and a DUT that is not ready at first.
use tsn_gen.Prelude.{ℕ, ◌≡◌, refl, arith, true, false, List, [], ◌∷◌, ◌++◌, All}
use tsn_gen.CommandLine.StreamLaws.{nonempty}
use tsn_gen.Simulation.{
  BridgeEvent, push, edge, push_tx_packet, tx_edge, tx_start, tx_run, rx_start, rx_run, finished,
  open_packet,
}
use tsn_gen.Simulation.Bridge.{frames, pending}
use tsn_gen.Simulation.Drain.{ready, work, ready-delivered}
use tsn_gen.Simulation.Loopback.{reassemble, rx_run-tx_run}
use tsn_gen.Transport.{send_beats, beat_loop}
use tsn_gen.Transport.Bytes.{AllBytes}

abbrev short : List ℕ
short = 1 ∷ 2 ∷ []

abbrev long : List ℕ
long = 1 ∷ 2 ∷ 3 ∷ 4 ∷ 5 ∷ 6 ∷ 7 ∷ 8 ∷ 255 ∷ []

abbrev script : List BridgeEvent
script = push short ∷ push [] ∷ edge false ∷ edge true ∷ push long ∷ edge false ∷ edge true ∷ []

abbrev all_bytes : AllBytes short × AllBytes [] × AllBytes long
all_bytes = (
  (omega arith, (omega arith, tt)),
  tt,
  (
    omega arith,
    (
      omega arith,
      (
        omega arith,
        (
          omega arith,
          (omega arith, (omega arith, (omega arith, (omega arith, (omega arith, tt))))),
        ),
      ),
    ),
  ),
)

script-AllBytes : All AllBytes (tx_run script tx_start).0.0
unfolding tx_run push_tx_packet tx_edge
script-AllBytes = (all_bytes.0, (all_bytes.1, (all_bytes.2, tt)))

rx_run-tx_run_example :
    let ((pushed, edges), tx) = tx_run script tx_start in
    let (out, rx) = rx_run edges rx_start in
    out ++ (finished rx ++ reassemble (pending tx) (open_packet rx)) ≡ nonempty pushed
rx_run-tx_run_example = rx_run-tx_run script script-AllBytes

script-work : work (tx_run script tx_start).1 ≡ 3
unfolding tx_run push_tx_packet tx_edge frames send_beats beat_loop
script-work = refl

ready-AllBytes : All AllBytes (tx_run (script ++ ready 5) tx_start).0.0
unfolding tx_run push_tx_packet tx_edge ready
ready-AllBytes = (all_bytes.0, (all_bytes.1, (all_bytes.2, tt)))

ready-delivered_example :
    let ((pushed, edges), tx) = tx_run (script ++ ready 5) tx_start in
    let (out, rx) = rx_run edges rx_start in
    (out ++ finished rx ≡ nonempty pushed) × (pending tx ≡ [])
ready-delivered_example = ready-delivered script 5 (omega (arith, script-work)) ready-AllBytes
