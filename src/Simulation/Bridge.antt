-- ===== src/Simulation/Bridge.antt =====
-- No beat is lost, doubled or moved in the bridge, whatever the DUT's backpressure.
use tsn_gen.Prelude.{
  ℕ, zero, suc, ◌+◌, ◌<◌, ◌≤◌, ◌≡◌, refl, sym, ap, ◌∙◌, arith, leb, ltb, ltb→lt, ltb_false→le, Bool,
  true, false, List, [], ◌∷◌, ◌++◌, append-nil, append_assoc, Option, none, some, length,
  Bool-cases, inl, inr,
}
use tsn_gen.Simulation.{
  TxPhase, waiting, idle, driving, TxSide, present, read_fifo, wake, push_tx_packet, edge_of,
  tx_edge, BridgeEvent, push, edge, tx_run,
}
use tsn_gen.Transport.{AxiStreamBeat, make_beat, chunk_size, send_beats, beat_loop}
use tsn_gen.Transport.Framing.{beat_loop_end, beat_loop_next, chunk_size_lem}

-- The beats of some packets.
unfoldable pub frames : List (List ℕ) → List AxiStreamBeat
frames [] = []
frames (packet ∷ packets) = send_beats packet ++ frames packets

-- The beats that are still to be accepted.
abbrev pub unsent : TxPhase → List AxiStreamBeat
unsent waiting = []
unsent idle = []
unsent (driving packet offset) = beat_loop (length packet) packet offset

abbrev pub pending : TxSide → List AxiStreamBeat
pending s = unsent s.phase ++ frames s.tx_fifo

-- The beats among what was accepted at the edges.
unfoldable pub accepted : List (Option AxiStreamBeat) → List AxiStreamBeat
accepted [] = []
accepted (none ∷ beats) = accepted beats
accepted (some beat ∷ beats) = beat ∷ accepted beats

-- More fuel changes nothing once there is enough.
beat_loop-fuel :
    (f g : ℕ) (packet : List ℕ) (offset : ℕ)
    → length packet ≤ f + offset
    → length packet ≤ g + offset
    → beat_loop f packet offset ≡ beat_loop g packet offset
beat_loop-fuel zero g packet offset hf hg =
    beat_loop_end zero packet offset (omega arith)
    ∙ sym (beat_loop_end g packet offset (omega arith))
beat_loop-fuel (suc f) zero packet offset hf hg =
    beat_loop_end (suc f) packet offset (omega arith)
    ∙ sym (beat_loop_end zero packet offset (omega arith))
beat_loop-fuel (suc f) (suc g) packet offset hf hg =
    elim (Bool-cases (ltb offset (length packet))) [
      | inl inside ↦
          let lt = ltb→lt offset (length packet) inside in
          let next = offset + chunk_size packet offset in
          let step = chunk_size_lem packet offset in
          beat_loop_next f packet offset lt
          ∙ ap (λ (l : List AxiStreamBeat). make_beat packet offset ∷ l)
              (beat_loop-fuel f g packet next (omega (arith, step)) (omega (arith, step)))
          ∙ sym (beat_loop_next g packet offset lt)
      | inr past ↦
          let le = ltb_false→le offset (length packet) past in
          beat_loop_end (suc f) packet offset le ∙ sym (beat_loop_end (suc g) packet offset le)
    ]

unsent-present :
    (packet : List ℕ) (offset : ℕ)
    → unsent (present packet offset) ≡ beat_loop (length packet) packet offset
unsent-present packet offset = elim (Bool-cases (ltb offset (length packet))) [
  | inl inside ↦ rw inside refl
  | inr past ↦
      rw past (
        sym
          (beat_loop_end (length packet) packet offset (ltb_false→le offset (length packet) past)))
]

pub pending-read_fifo : (packets : List (List ℕ)) → pending (read_fifo packets) ≡ frames packets
unfolding frames
pending-read_fifo [] = refl
pending-read_fifo (packet ∷ packets) =
    unfold send_beats in
    ap (λ (l : List AxiStreamBeat). l ++ frames packets) (unsent-present packet 0)

frames-append : (xs ys : List (List ℕ)) → frames (xs ++ ys) ≡ frames xs ++ frames ys
unfolding frames
frames-append [] ys = refl
frames-append (x ∷ xs) ys =
    ap (λ (l : List AxiStreamBeat). send_beats x ++ l) (frames-append xs ys)
    ∙ sym (append_assoc (send_beats x) (frames xs) (frames ys))

-- A beat is presented only inside its packet.
abbrev pub IsInside : TxPhase → Type 0
IsInside waiting = Unit
IsInside idle = Unit
IsInside (driving packet offset) = offset < length packet

present-IsInside : (packet : List ℕ) (offset : ℕ) → IsInside (present packet offset)
present-IsInside packet offset = elim (Bool-cases (ltb offset (length packet))) [
  | inl inside ↦ rw inside (ltb→lt offset (length packet) inside)
  | inr past ↦ rw past tt
]

read_fifo-IsInside : (packets : List (List ℕ)) → IsInside (read_fifo packets).phase
read_fifo-IsInside [] = tt
read_fifo-IsInside (packet ∷ packets) = present-IsInside packet 0

pub wake-IsInside :
    (phase : TxPhase) (packets : List (List ℕ))
    → IsInside phase
    → IsInside (wake phase packets).phase
wake-IsInside waiting packets h = read_fifo-IsInside packets
wake-IsInside idle packets h = tt
wake-IsInside (driving packet offset) packets h = h

pending-wake :
    (phase : TxPhase) (packets : List (List ℕ))
    → pending (wake phase packets) ≡ unsent phase ++ frames packets
pending-wake waiting packets = pending-read_fifo packets
pending-wake idle packets = refl
pending-wake (driving packet offset) packets = refl

pub edge-IsInside :
    (phase : TxPhase) (packets : List (List ℕ)) (tready : Bool)
    → IsInside phase
    → IsInside (edge_of phase packets tready).1.phase
edge-IsInside waiting packets tready h = tt
edge-IsInside idle packets tready h = read_fifo-IsInside packets
edge-IsInside (driving packet offset) packets true h =
    present-IsInside packet (offset + chunk_size packet offset)
edge-IsInside (driving packet offset) packets false h = h

-- A beat that is accepted is the first of those that were unsent.
pub pending-edge :
    (phase : TxPhase) (packets : List (List ℕ)) (tready : Bool)
    → IsInside phase
    → let (beat, s') = edge_of phase packets tready in
      accepted (beat ∷ []) ++ pending s' ≡ unsent phase ++ frames packets
unfolding accepted
pending-edge waiting packets tready h = refl
pending-edge idle packets tready h = pending-read_fifo packets
pending-edge (driving packet offset) packets true h =
    let all = length packet in
    let next = offset + chunk_size packet offset in
    ap (λ (l : List AxiStreamBeat). make_beat packet offset ∷ (l ++ frames packets))
      (unsent-present packet next)
    ∙ sym (
        ap (λ (l : List AxiStreamBeat). l ++ frames packets)
          (beat_loop-fuel all (suc all) packet offset (omega arith) (omega arith)
            ∙ beat_loop_next all packet offset h))
pending-edge (driving packet offset) packets false h = refl

accepted-cons :
    (beat : Option AxiStreamBeat) (beats : List (Option AxiStreamBeat))
    → accepted (beat ∷ beats) ≡ accepted (beat ∷ []) ++ accepted beats
unfolding accepted
accepted-cons none beats = refl
accepted-cons (some beat) beats = refl

one_more :
    (phase : TxPhase) (packets : List (List ℕ)) (pkt : List ℕ) (pushed : List (List ℕ))
    → (unsent phase ++ frames (packets ++ pkt ∷ [])) ++ frames pushed
      ≡ (unsent phase ++ frames packets) ++ frames (pkt ∷ pushed)
unfolding frames
one_more phase packets pkt pushed =
    ap (λ (l : List AxiStreamBeat). (unsent phase ++ l) ++ frames pushed)
      (frames-append packets (pkt ∷ [])
        ∙ ap (λ (l : List AxiStreamBeat). frames packets ++ l) (append-nil (send_beats pkt)))
    ∙ ap (λ (l : List AxiStreamBeat). l ++ frames pushed)
        (sym (append_assoc (unsent phase) (frames packets) (send_beats pkt)))
    ∙ append_assoc (unsent phase ++ frames packets) (send_beats pkt) (frames pushed)

-- What was accepted and what is still to be accepted are the frames that were to be accepted at
-- first and those of the packets that were taken.
pub tx_run-frames :
    (events : List BridgeEvent) (phase : TxPhase) (packets : List (List ℕ))
    → IsInside phase
    → let ((pushed, beats), s') = tx_run events (record { phase = phase; tx_fifo = packets }) in
      accepted beats ++ pending s' ≡ (unsent phase ++ frames packets) ++ frames pushed
unfolding tx_run
tx_run-frames [] phase packets h =
    unfold accepted frames in sym (append-nil (unsent phase ++ frames packets))
tx_run-frames (edge tready ∷ events) phase packets h =
    unfold tx_edge in
    let (beat, s') = edge_of phase packets tready in
    let ((pushed, beats), s'') = tx_run events s' in
    let ih = tx_run-frames events s'.phase s'.tx_fifo (edge-IsInside phase packets tready h) in
    ap (λ (l : List AxiStreamBeat). l ++ pending s'') (accepted-cons beat beats)
    ∙ append_assoc (accepted (beat ∷ [])) (accepted beats) (pending s'')
    ∙ ap (λ (l : List AxiStreamBeat). accepted (beat ∷ []) ++ l) ih
    ∙ sym (append_assoc (accepted (beat ∷ [])) (pending s') (frames pushed))
    ∙ ap (λ (l : List AxiStreamBeat). l ++ frames pushed) (pending-edge phase packets tready h)
tx_run-frames (push pkt ∷ events) phase packets h =
    unfold push_tx_packet in
    elim (Bool-cases (leb 4 (length packets))) [
      | inl full ↦ rw full (tx_run-frames events phase packets h)
      | inr free ↦
          let queue = packets ++ pkt ∷ [] in
          let pushed = (tx_run events (wake phase queue)).0.0 in
          rw free (
            tx_run-frames events (wake phase queue).phase (wake phase queue).tx_fifo
              (wake-IsInside phase queue h)
            ∙ ap (λ (l : List AxiStreamBeat). l ++ frames pushed) (pending-wake phase queue)
            ∙ one_more phase packets pkt pushed)
    ]
