-- ===== src/Simulation/Drain.antt =====
-- A DUT that is ready for long enough accepts every beat.
use tsn_gen.Prelude.{
  ℕ, zero, suc, ◌+◌, ◌≤◌, ◌≡◌, refl, sym, ap, ◌∙◌, arith, ltb, leb, Bool, true, false, List, [],
  ◌∷◌, ◌++◌, append-nil, length, Bool-cases, inl, inr, All,
}
use tsn_gen.CommandLine.StreamLaws.{nonempty}
use tsn_gen.Simulation.{
  TxPhase, waiting, idle, driving, TxSide, present, read_fifo, tx_start, wake, push_tx_packet,
  edge_of, tx_edge, rx_start, open_packet, finished, BridgeEvent, push, edge, tx_run, rx_run,
}
use tsn_gen.Simulation.Bridge.{
  frames, pending, accepted, IsInside, edge-IsInside, wake-IsInside, pending-edge,
  pending-read_fifo,
}
use tsn_gen.Simulation.Loopback.{reassemble, rx_run-tx_run}
use tsn_gen.Transport.{AxiStreamBeat, chunk_size}
use tsn_gen.Transport.Bytes.{AllBytes}

unfoldable pub ready : ℕ → List BridgeEvent
ready zero = []
ready (suc n) = edge true ∷ ready n

-- A thread that waits has an empty FIFO.
abbrev IsCalm : TxPhase → List (List ℕ) → Type 0
IsCalm waiting packets = packets ≡ []
IsCalm idle packets = Unit
IsCalm (driving packet offset) packets = Unit

abbrev pub busy : TxPhase → ℕ
busy waiting = 0
busy idle = 1
busy (driving packet offset) = 1

-- The edges that a ready DUT needs at most.
abbrev pub work : TxSide → ℕ
work s = length (pending s) + length s.tx_fifo + busy s.phase

present-busy : (packet : List ℕ) (offset : ℕ) → busy (present packet offset) ≡ 1
present-busy packet offset = elim (Bool-cases (ltb offset (length packet))) [
  | inl inside ↦ rw inside refl
  | inr past ↦ rw past refl
]

present-IsCalm :
    (packet : List ℕ) (offset : ℕ) (packets : List (List ℕ))
    → IsCalm (present packet offset) packets
present-IsCalm packet offset packets = elim (Bool-cases (ltb offset (length packet))) [
  | inl inside ↦ rw inside tt
  | inr past ↦ rw past tt
]

read_fifo-IsCalm :
    (packets : List (List ℕ)) → IsCalm (read_fifo packets).phase (read_fifo packets).tx_fifo
read_fifo-IsCalm [] = refl
read_fifo-IsCalm (packet ∷ packets) = present-IsCalm packet 0 packets

edge-IsCalm :
    (phase : TxPhase) (packets : List (List ℕ)) (tready : Bool)
    → IsCalm phase packets
    → let s = (edge_of phase packets tready).1 in IsCalm s.phase s.tx_fifo
edge-IsCalm waiting packets tready h = h
edge-IsCalm idle packets tready h = read_fifo-IsCalm packets
edge-IsCalm (driving packet offset) packets true h = present-IsCalm packet _ packets
edge-IsCalm (driving packet offset) packets false h = tt

wake-IsCalm :
    (phase : TxPhase) (packets : List (List ℕ))
    → let s = wake phase packets in IsCalm s.phase s.tx_fifo
wake-IsCalm waiting packets = read_fifo-IsCalm packets
wake-IsCalm idle packets = tt
wake-IsCalm (driving packet offset) packets = tt

-- A ready edge does some of the work, if there is any.
work-edge :
    (phase : TxPhase) (packets : List (List ℕ))
    → IsInside phase
    → IsCalm phase packets
    → (n : ℕ) → work (record { phase = phase; tx_fifo = packets }) ≤ suc n
    → work (edge_of phase packets true).1 ≤ n
unfolding accepted
work-edge waiting packets h calm n enough = unfold frames in rw calm (omega arith)
work-edge idle [] h calm n enough = unfold frames in omega arith
work-edge idle (packet ∷ packets) h calm n enough =
    omega (arith, ap length (pending-read_fifo (packet ∷ packets)), present-busy packet 0)
work-edge (driving packet offset) packets h calm n enough = omega (
  arith,
  ap length (pending-edge (driving packet offset) packets true h),
  present-busy packet (offset + chunk_size packet offset),
)

ready-pending :
    (n : ℕ) (phase : TxPhase) (packets : List (List ℕ))
    → IsInside phase
    → IsCalm phase packets
    → work (record { phase = phase; tx_fifo = packets }) ≤ n
    → pending (tx_run (ready n) (record { phase = phase; tx_fifo = packets })).1 ≡ []
unfolding tx_run tx_edge ready
ready-pending zero phase packets h calm enough = empty_list _ (omega arith)
  where
    empty_list : (l : List AxiStreamBeat) → length l ≡ 0 → l ≡ []
    empty_list [] e = refl
    empty_list (x ∷ l) e = absurd (omega arith)
ready-pending (suc n) phase packets h calm enough =
    let s' = (edge_of phase packets true).1 in
    ready-pending n s'.phase s'.tx_fifo (edge-IsInside phase packets true h)
      (edge-IsCalm phase packets true calm) (work-edge phase packets h calm n enough)

tx_run-append :
    (events more : List BridgeEvent) (s : TxSide)
    → (tx_run (events ++ more) s).1 ≡ (tx_run more (tx_run events s).1).1
unfolding tx_run
tx_run-append [] more s = refl
tx_run-append (push pkt ∷ events) more s = tx_run-append events more (push_tx_packet pkt s).1
tx_run-append (edge tready ∷ events) more s = tx_run-append events more (tx_edge tready s).1

-- What holds of the thread whatever has happened.
abbrev IsTidy : TxSide → Type 0
IsTidy s = IsInside s.phase × IsCalm s.phase s.tx_fifo

push-IsTidy : (pkt : List ℕ) (s : TxSide) → IsTidy s → IsTidy (push_tx_packet pkt s).1
unfolding push_tx_packet
push-IsTidy pkt s h = elim (Bool-cases (leb 4 (length s.tx_fifo))) [
  | inl full ↦ rw full h
  | inr free ↦
      let queue = s.tx_fifo ++ pkt ∷ [] in
      rw free (wake-IsInside s.phase queue h.0, wake-IsCalm s.phase queue)
]

tx_run-IsTidy : (events : List BridgeEvent) (s : TxSide) → IsTidy s → IsTidy (tx_run events s).1
unfolding tx_run
tx_run-IsTidy [] s h = h
tx_run-IsTidy (push pkt ∷ events) s h =
    tx_run-IsTidy events (push_tx_packet pkt s).1 (push-IsTidy pkt s h)
tx_run-IsTidy (edge tready ∷ events) s h = tx_run-IsTidy events (tx_edge tready s).1 (
    unfold tx_edge in
    (edge-IsInside s.phase s.tx_fifo tready h.0, edge-IsCalm s.phase s.tx_fifo tready h.1))

-- Whatever packets of bytes were pushed into the bridge and whenever the DUT was ready: if it is
-- then ready for at least as many edges as there is work left (a beat each for what was not
-- accepted, one for each packet in the FIFO and one for the cycle at hand), no beat is pending,
-- and `on_rx` of a bridge to which the DUT hands its beats on has been called, or will be at the
-- next edge, with exactly the packets that were taken and are not empty, in order.
pub ready-delivered :
    (events : List BridgeEvent) (n : ℕ)
    → work (tx_run events tx_start).1 ≤ n
    → All AllBytes (tx_run (events ++ ready n) tx_start).0.0
    → let ((pushed, edges), tx) = tx_run (events ++ ready n) tx_start in
      let (out, rx) = rx_run edges rx_start in
      (out ++ finished rx ≡ nonempty pushed) × (pending tx ≡ [])
unfolding reassemble
ready-delivered events n enough bytes =
    let s = (tx_run events tx_start).1 in
    let ((pushed, edges), tx) = tx_run (events ++ ready n) tx_start in
    let (out, rx) = rx_run edges rx_start in
    let tidy = tx_run-IsTidy events tx_start (tt, tt) in
    let drained : pending tx ≡ [] =
      ap pending (tx_run-append events (ready n) tx_start)
      ∙ ready-pending n s.phase s.tx_fifo tidy.0 tidy.1 enough in
    (
      ap (λ (l : List (List ℕ)). out ++ l) (sym (append-nil (finished rx)))
          ∙ ap (λ (l : List AxiStreamBeat). out ++ (finished rx ++ reassemble l (open_packet rx)))
              (sym drained)
          ∙ rx_run-tx_run (events ++ ready n) bytes,
      drained,
    )
