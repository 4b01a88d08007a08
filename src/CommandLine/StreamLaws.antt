-- ===== src/CommandLine/StreamLaws.antt =====
-- What the loop of `--decode` prints of the packets that a receiver yields.
use tsn_gen.Prelude.{
  Text, ℕ, zero, suc, ◌+◌, ◌-◌, ◌<◌, ◌≡◌, refl, ap, arith, ◌==◌, leb, Bool, true, false, not, ◌&&◌,
  List, [], ◌∷◌, ◌++◌, some, if◌then◌else◌, length, take, Bool-cases, inl, inr,
}
use tsn_gen.Packet.Builder.{is_nil}
use tsn_gen.Transport.{ReceiverErr, receiver_success, Receiver}
use tsn_gen.CommandLine.Stream.{
  exits, Trace, after_lines, goes_on, is_received, end_code, stream_loop, decode_stream,
}

unfoldable pub nonempty : List (List ℕ) → List (List ℕ)
nonempty [] = []
nonempty (pkt ∷ pkts) = if is_nil pkt then nonempty pkts else pkt ∷ nonempty pkts

-- The packets that a run with this count prints after `n` others: as many as are left, or all.
abbrev pub due : ℕ → ℕ → List (List ℕ) → List (List ℕ)
due count n pkts = if count == 0 then nonempty pkts else take (count - n) (nonempty pkts)

-- Whether the count is reached with these packets.
abbrev pub reached : ℕ → ℕ → List (List ℕ) → Bool
reached count n pkts = not (count == 0) && leb count (n + length (nonempty pkts))

-- Some call of `receive` after others yields these packets in order, and the next one the error.
abbrev pub Yields : (receiver : Receiver) → receiver.State → List (List ℕ) → ReceiverErr → Type 0
Yields receiver s [] err = (receiver.receive_packet s []).0 ≡ err
Yields receiver s (pkt ∷ pkts) err =
    (s' : receiver.State) × (receiver.receive_packet s [] ≡ (receiver_success, (pkt, s')))
    × Yields receiver s' pkts err

module _ {D : Type 0} (decode_and_print : List ℕ → D → Text × D) where
  -- The lines of some packets, the decoder's state passed on.
  unfoldable pub lines_of : List (List ℕ) → D → List Text
  lines_of [] d = []
  lines_of (pkt ∷ pkts) d = let (line, d') = decode_and_print pkt d in line ∷ lines_of pkts d'

due_over : (count n : ℕ) (pkts : List (List ℕ)) → goes_on count n ≡ false → due count n pkts ≡ []
due_over count n pkts h =
    let none_left : count - n ≡ 0 = ground arith in
    let counted : (count == 0) ≡ false = ground arith in
    rw (counted, none_left) (go (nonempty pkts))
  where
    go : (l : List (List ℕ)) → take 0 l ≡ []
    go [] = refl
    go (x ∷ l) = refl

reached_over :
    (count n : ℕ) (pkts : List (List ℕ)) → goes_on count n ≡ false → reached count n pkts ≡ true
reached_over count n pkts h = ground arith

due_nil : (count n : ℕ) → due count n [] ≡ []
unfolding nonempty
due_nil count n = elim (Bool-cases (count == 0)) [
  | inl all ↦ rw all refl
  | inr some_of ↦ rw some_of (go (count - n))
]
  where
    go : (k : ℕ) → let no_packets : List (List ℕ) = [] in take k no_packets ≡ no_packets
    go zero = refl
    go (suc k) = refl

reached_nil : (count n : ℕ) → goes_on count n ≡ true → reached count n [] ≡ false
unfolding nonempty
reached_nil count n h = ground arith

due_next :
    (count n b : ℕ) (pkt : List ℕ) (pkts : List (List ℕ))
    → goes_on count n ≡ true
    → due count n ((b ∷ pkt) ∷ pkts) ≡ (b ∷ pkt) ∷ due count (n + 1) pkts
unfolding nonempty
due_next count n b pkt pkts h = elim (Bool-cases (count == 0)) [
  | inl all ↦ rw all refl
  | inr some_of ↦
      let step : count - n ≡ suc (count - (n + 1)) = ground arith in rw (some_of, step) refl
]

reached_next :
    (count n b : ℕ) (pkt : List ℕ) (pkts : List (List ℕ))
    → reached count n ((b ∷ pkt) ∷ pkts) ≡ reached count (n + 1) pkts
unfolding nonempty
reached_next count n b pkt pkts = ap (λ (k : ℕ). not (count == 0) && leb count k) (omega arith)

module _ (receiver : Receiver) {D : Type 0} (decode_and_print : List ℕ → D → Text × D) where
  open receiver use {State, open_receiver, receive_packet, close_receiver}

  -- A run that has printed these lines, ended with this code and closed the receiver.
  pub record Ends (run : Trace State) (lines : List Text) (code : ℕ) : Type 0 where
    pub printed : run.printed ≡ lines
    pub exit : run.exit ≡ exits code
    pub last : State
    pub closed : run.state ≡ close_receiver last

  loop_over :
      (fuel count n : ℕ) (d : D) (s : State)
      → goes_on count n ≡ false
      → Ends (stream_loop receiver decode_and_print (suc fuel) count n d s) [] 0
  unfolding stream_loop
  loop_over fuel count n d s h =
      rw h (record { printed = refl; exit = refl; last = s; closed = refl })

  loop_error :
      (fuel count n : ℕ) (d : D) (s : State) (err : ReceiverErr)
      → goes_on count n ≡ true
      → (receive_packet s []).0 ≡ err
      → is_received err ≡ false
      → Ends (stream_loop receiver decode_and_print (suc fuel) count n d s) [] (end_code err)
  unfolding stream_loop
  loop_error fuel count n d s err h e bad =
      rw (h, e, bad)
        (record { printed = refl; exit = refl; last = (receive_packet s []).1.1; closed = refl })

  loop_packet :
      (fuel count n : ℕ) (d : D) (s s' : State) (pkt : List ℕ)
      → goes_on count n ≡ true
      → receive_packet s [] ≡ (receiver_success, (pkt, s'))
      → stream_loop receiver decode_and_print (suc fuel) count n d s
        ≡ after_lines (if is_nil pkt then [] else (decode_and_print pkt d).0 ∷ []) (
            stream_loop receiver decode_and_print fuel count
              (if is_nil pkt then n else n + 1)
              (if is_nil pkt then d else (decode_and_print pkt d).1)
              s')
  unfolding stream_loop
  loop_packet fuel count n d s s' pkt h e = rw (stream_loop, h, e) refl

  Ends-after_lines :
      {run : Trace State} {lines : List Text} {code : ℕ} (before : List Text)
      → Ends run lines code
      → Ends (after_lines before run) (before ++ lines) code
  Ends-after_lines before h = record {
    printed = ap (λ (l : List Text). before ++ l) h.printed;
    exit = h.exit;
    last = h.last;
    closed = h.closed;
  }

  Ends-eq :
      {run run' : Trace State} {lines lines' : List Text} {code code' : ℕ}
      → run ≡ run'
      → lines ≡ lines'
      → code ≡ code'
      → Ends run' lines' code'
      → Ends run lines code
  Ends-eq e l c h = rw (e, l, c) h

  abbrev code_of : ReceiverErr → ℕ → ℕ → List (List ℕ) → ℕ
  code_of err count n pkts = if reached count n pkts then 0 else end_code err

  module _ (count : ℕ) (err : ReceiverErr) (bad : is_received err ≡ false) where
    -- The loop on this fuel, on packets that it suffices for.
    abbrev Claim : ℕ → Type 0
    Claim fuel =
        (n : ℕ) (d : D) (s : State) (pkts : List (List ℕ))
        → length pkts < fuel
        → Yields receiver s pkts err
        → Ends (stream_loop receiver decode_and_print fuel count n d s)
            (lines_of decode_and_print (due count n pkts) d) (code_of err count n pkts)

    loop_on :
        (fuel : ℕ)
        → Claim fuel
        → (n : ℕ) (d : D) (s : State) (pkts : List (List ℕ)) → length pkts < suc fuel
        → Yields receiver s pkts err
        → goes_on count n ≡ true
        → Ends
            (stream_loop receiver decode_and_print (suc fuel) count n d s)
            (lines_of decode_and_print (due count n pkts) d)
            (code_of err count n pkts)
    unfolding lines_of nonempty
    loop_on fuel ih n d s [] enough y on =
        Ends-eq refl (ap (λ l. lines_of decode_and_print l d) (due_nil count n))
          (ap (λ (b : Bool). if b then 0 else end_code err) (reached_nil count n on))
          (loop_error fuel count n d s err on y bad)
    loop_on fuel ih n d s ([] ∷ pkts) enough (s', e, y) on =
        Ends-eq (loop_packet fuel count n d s s' [] on e) refl refl
          (Ends-after_lines [] (ih n d s' pkts (omega arith) y))
    loop_on fuel ih n d s ((b ∷ pkt) ∷ pkts) enough (s', e, y) on =
        let (line, d') = decode_and_print (b ∷ pkt) d in
        Ends-eq (loop_packet fuel count n d s s' (b ∷ pkt) on e)
          (ap (λ l. lines_of decode_and_print l d) (due_next count n b pkt pkts on))
          (ap (λ (r : Bool). if r then 0 else end_code err) (reached_next count n b pkt pkts))
          (Ends-after_lines (line ∷ []) (ih (n + 1) d' s' pkts (omega arith) y))

    stream_loop_lem : (fuel : ℕ) → Claim fuel
    stream_loop_lem zero n d s pkts enough y = absurd (omega arith)
    stream_loop_lem (suc fuel) n d s pkts enough y = elim (Bool-cases (goes_on count n)) [
      | inr over ↦
          Ends-eq refl (ap (λ l. lines_of decode_and_print l d) (due_over count n pkts over))
            (ap (λ (r : Bool). if r then 0 else end_code err) (reached_over count n pkts over))
            (unfold lines_of in loop_over fuel count n d s over)
      | inl on ↦ loop_on fuel (stream_loop_lem fuel) n d s pkts enough y on
    ]

    -- If the receiver opens, its calls yield some packets, fewer than the fuel, and then an error,
    -- the loop prints the decodings of the packets that are not empty, in order, up to the count,
    -- or all if the count is 0. It ends with 0 if the count is reached or the error is the end of
    -- the stream, and with 2 otherwise, and the receiver is closed.
    pub decode_stream-prints :
        (fuel : ℕ) (d : D) (s : State) (pkts : List (List ℕ))
        → (open_receiver s).0 ≡ receiver_success
        → Yields receiver (open_receiver s).1 pkts err
        → length pkts < fuel
        → let run = decode_stream receiver decode_and_print fuel count d (some s) in
          (run.printed ≡ lines_of decode_and_print (due count 0 pkts) d)
          × (run.exit ≡ exits (code_of err count 0 pkts))
          × (last : State) × (run.state ≡ some (close_receiver last))
    unfolding decode_stream
    decode_stream-prints fuel d s pkts opens y enough =
        let h = stream_loop_lem fuel 0 d (open_receiver s).1 pkts enough y in
        rw opens (h.printed, h.exit, h.last, ap some h.closed)
