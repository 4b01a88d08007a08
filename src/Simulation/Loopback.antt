-- ===== src/Simulation/Loopback.antt =====
-- What `on_rx` is handed of the beats that were accepted on the other side.
use tsn_gen.Prelude.{
  ℕ, ◌≡◌, refl, ap, ap₂, ◌∙◌, arith, ◌==◌, Bool, true, false, not, List, [], ◌∷◌, ◌++◌,
  append_assoc, Option, none, some, if◌then◌else◌, All,
}
use tsn_gen.CommandLine.StreamLaws.{nonempty}
use tsn_gen.Simulation.{
  idle, tx_start, RxSide, rx_start, open_packet, finished, rx_edge, BridgeEvent, tx_run, rx_run,
}
use tsn_gen.Simulation.Bridge.{frames, pending, accepted, tx_run-frames}
use tsn_gen.Transport.{AxiStreamBeat, send_beats, beat_loop, keep_loop}
use tsn_gen.Transport.Bytes.{AllBytes}
use tsn_gen.Transport.Delivered.{carried_bytes-send_beats}
use tsn_gen.Transport.Framing.{IsFrame, carried_bytes}
use tsn_gen.Transport.Socket.Stream.Delivered.{send_beats-IsFrame}

-- The packets that some beats make after the bytes of a packet.
unfoldable pub reassemble : List AxiStreamBeat → List ℕ → List (List ℕ)
reassemble [] packet = []
reassemble (beat ∷ beats) packet =
    let packet' = keep_loop 8 0 beat packet in
    let same = reassemble beats packet' in
    let next = reassemble beats [] in if beat.tlast == 0 then same else packet' ∷ next

one_beat :
    (tlast : ℕ) (packet : List ℕ) (k : List ℕ → List (List ℕ))
    → tlast ≡ 1
    → (if tlast == 0 then k packet else packet ∷ k []) ≡ packet ∷ k []
one_beat tlast packet k h = rw h refl

same_packet :
    (tlast : ℕ) (packet : List ℕ) (k : List ℕ → List (List ℕ))
    → tlast ≡ 0
    → (if tlast == 0 then k packet else packet ∷ k []) ≡ k packet
same_packet tlast packet k h = rw h refl

reassemble-frame :
    (beats more : List AxiStreamBeat) (packet : List ℕ)
    → IsFrame beats
    → reassemble (beats ++ more) packet ≡ carried_bytes beats packet ∷ reassemble more []
unfolding reassemble carried_bytes
reassemble-frame [] more packet h = absurd h
reassemble-frame (beat ∷ []) more packet h =
    one_beat beat.tlast (keep_loop 8 0 beat packet) (reassemble more) h
reassemble-frame (beat ∷ next ∷ beats) more packet h =
    let packet' = keep_loop 8 0 beat packet in
    same_packet beat.tlast packet' (reassemble ((next ∷ beats) ++ more)) h.0
    ∙ reassemble-frame (next ∷ beats) more packet' h.1

no_frame : send_beats [] ≡ []
unfolding send_beats beat_loop
no_frame = refl

reassemble-frames :
    (packets : List (List ℕ))
    → All AllBytes packets
    → reassemble (frames packets) [] ≡ nonempty packets
unfolding frames nonempty
reassemble-frames [] h = unfold reassemble in refl
reassemble-frames ([] ∷ packets) h =
    ap (λ (l : List AxiStreamBeat). reassemble (l ++ frames packets) []) no_frame
    ∙ reassemble-frames packets h.1
reassemble-frames ((b ∷ packet) ∷ packets) h =
    reassemble-frame (send_beats (b ∷ packet)) (frames packets) []
      (send_beats-IsFrame (b ∷ packet) (omega arith))
    ∙ ap₂ (λ (p : List ℕ) (ps : List (List ℕ)). p ∷ ps) (carried_bytes-send_beats (b ∷ packet) h.0)
        (reassemble-frames packets h.1)

-- What `rx_thread` has handed over and holds, and what the rest of the beats will make of it.
rx_run-reassemble :
    (edges : List (Option AxiStreamBeat)) (rest : List AxiStreamBeat) (packet : List ℕ)
    (last : Bool)
    → let s : RxSide = record { packet = packet; last = last } in
      let (out, s') = rx_run edges s in
      out ++ (finished s' ++ reassemble rest (open_packet s'))
      ≡ finished s ++ reassemble (accepted edges ++ rest) (open_packet s)
unfolding rx_run rx_edge accepted reassemble
rx_run-reassemble [] rest packet last = refl
rx_run-reassemble (none ∷ edges) rest packet last =
    let s : RxSide = record { packet = packet; last = last } in
    let (out, s') = rx_run edges (record { packet = open_packet s; last = false }) in
    append_assoc (finished s) out (finished s' ++ reassemble rest (open_packet s'))
    ∙ ap (λ (l : List (List ℕ)). finished s ++ l)
        (rx_run-reassemble edges rest (open_packet s) false)
rx_run-reassemble (some beat ∷ edges) rest packet last =
    let s : RxSide = record { packet = packet; last = last } in
    let packet' = keep_loop 8 0 beat (open_packet s) in
    let last' = not (beat.tlast == 0) in
    let (out, s') = rx_run edges (record { packet = packet'; last = last' }) in
    append_assoc (finished s) out (finished s' ++ reassemble rest (open_packet s'))
    ∙ ap (λ (l : List (List ℕ)). finished s ++ l)
        (rx_run-reassemble edges rest packet' last'
          ∙ go (beat.tlast == 0) packet' (accepted edges ++ rest))
  where
    go :
        (more : Bool) (p : List ℕ) (beats : List AxiStreamBeat)
        → let s : RxSide = record { packet = p; last = not more } in
          finished s ++ reassemble beats (open_packet s)
          ≡ (if more then reassemble beats p else p ∷ reassemble beats [])
    go true p beats = refl
    go false p beats = refl

-- Whatever packets of bytes are pushed into the bridge and at whichever edges the DUT is ready:
-- what `on_rx` of a bridge to which the DUT hands its beats on has been called with, the packet
-- that it is about to be called with, and what the beats that are still pending will make of the
-- packet that is open are together exactly the packets that were taken and are not empty, in
-- order.
pub rx_run-tx_run :
    (events : List BridgeEvent)
    → All AllBytes (tx_run events tx_start).0.0
    → let ((pushed, edges), tx) = tx_run events tx_start in
      let (out, rx) = rx_run edges rx_start in
      out ++ (finished rx ++ reassemble (pending tx) (open_packet rx)) ≡ nonempty pushed
unfolding frames
rx_run-tx_run events bytes =
    let ((pushed, edges), tx) = tx_run events tx_start in
    rx_run-reassemble edges (pending tx) [] false
    ∙ ap (λ (l : List AxiStreamBeat). reassemble l []) (tx_run-frames events idle [] tt)
    ∙ reassemble-frames pushed bytes
