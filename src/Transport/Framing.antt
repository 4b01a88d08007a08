-- ===== src/Transport/Framing.antt =====
-- How many beats a packet takes, and where a packet ends among them.
use tsn_gen.Prelude.{
  ℕ, zero, suc, ◌+◌, ◌-◌, ◌/◌, ◌≤◌, ◌<◌, min, leb, leb→le, le→leb, ◌≡◌, refl, sym, subst, ap, ◌∙◌,
  arith, false, List, [], ◌∷◌, ◌++◌, length, if◌then◌else◌, Bool-cases, inl, inr,
}
use tsn_gen.Transport.{
  AxiStreamBeat, receiver_success, chunk_size, make_beat, beat_loop, send_beats, keep_loop,
  receive_loop, receive,
}

-- All beats but the last have `tlast` 0, and the last one has 1; the list is not empty.
abbrev pub IsFrame : List AxiStreamBeat → Type 0
IsFrame [] = ⊥
IsFrame (beat ∷ []) = beat.tlast ≡ 1
IsFrame (beat ∷ next ∷ beats) = (beat.tlast ≡ 0) × IsFrame (next ∷ beats)

-- The bytes that the beats of a frame carry, in order.
unfoldable pub carried_bytes : List AxiStreamBeat → List ℕ → List ℕ
carried_bytes [] packet = packet
carried_bytes (beat ∷ beats) packet = carried_bytes beats (keep_loop 8 0 beat packet)

-- `receive` takes a whole frame from the socket, whatever follows it, and leaves what follows.
receive_loop-frame :
    (beats rest : List AxiStreamBeat) (packet : List ℕ)
    → IsFrame beats
    → receive_loop (beats ++ rest) packet ≡ (receiver_success, (carried_bytes beats packet, rest))
unfolding receive_loop carried_bytes
receive_loop-frame [] rest packet h = absurd h
receive_loop-frame (beat ∷ []) rest packet h = rw h refl
receive_loop-frame (beat ∷ next ∷ beats) rest packet h =
    rw h.0 (receive_loop-frame (next ∷ beats) rest (keep_loop 8 0 beat packet) h.1)

pub chunk_size_lem :
    (packet : List ℕ) (offset : ℕ) → chunk_size packet offset ≡ min 8 (length packet - offset)
chunk_size_lem packet offset = ground arith

IsFrame-cons :
    (beat : AxiStreamBeat) (beats : List AxiStreamBeat)
    → beat.tlast ≡ 0
    → IsFrame beats
    → IsFrame (beat ∷ beats)
IsFrame-cons beat [] first h = absurd h
IsFrame-cons beat (next ∷ beats) first h = (first, h)

leb-false : (a b : ℕ) → b < a → leb a b ≡ false
leb-false a b h = ground arith

pub beat_loop_end :
    (fuel : ℕ) (packet : List ℕ) (offset : ℕ)
    → length packet ≤ offset
    → beat_loop fuel packet offset ≡ []
unfolding beat_loop
beat_loop_end zero packet offset h = refl
beat_loop_end (suc fuel) packet offset h = rw (le→leb (length packet) offset h) refl

pub beat_loop_next :
    (fuel : ℕ) (packet : List ℕ) (offset : ℕ)
    → offset < length packet
    → beat_loop (suc fuel) packet offset
      ≡ make_beat packet offset ∷ beat_loop fuel packet (offset + chunk_size packet offset)
unfolding beat_loop
beat_loop_next fuel packet offset lt = rw (leb-false (length packet) offset lt) refl

make_beat_last :
    (packet : List ℕ) (offset : ℕ)
    → (make_beat packet offset).tlast
      ≡ (if leb (length packet) (offset + chunk_size packet offset) then 1 else 0)
unfolding make_beat
make_beat_last packet offset = refl

pub beat_loop-IsFrame :
    (fuel : ℕ) (packet : List ℕ) (offset : ℕ)
    → length packet ≤ fuel + offset
    → offset < length packet
    → IsFrame (beat_loop fuel packet offset)
beat_loop-IsFrame zero packet offset h lt = absurd (omega arith)
beat_loop-IsFrame (suc fuel) packet offset h lt =
    let next = offset + chunk_size packet offset in
    elim (Bool-cases (leb (length packet) next)) [
      | inl over ↦
          let done = beat_loop_end fuel packet next (leb→le (length packet) next over) in
          subst IsFrame
            (sym (
              beat_loop_next fuel packet offset lt
              ∙ ap (λ (l : List AxiStreamBeat). make_beat packet offset ∷ l) done))
            (make_beat_last packet offset ∙ rw over refl)
      | inr more ↦
          let inside : next < length packet = ground arith in
          subst IsFrame (sym (beat_loop_next fuel packet offset lt)) (
            IsFrame-cons (make_beat packet offset) (beat_loop fuel packet next)
              (make_beat_last packet offset ∙ rw more refl)
              (beat_loop-IsFrame fuel packet next (omega (arith, chunk_size_lem packet offset))
                inside))
    ]

length-beat_loop :
    (fuel : ℕ) (packet : List ℕ) (offset : ℕ)
    → length packet ≤ fuel + offset
    → length (beat_loop fuel packet offset) ≡ (length packet - offset + 7) / 8
length-beat_loop zero packet offset h = unfold beat_loop in omega arith
length-beat_loop (suc fuel) packet offset h = elim (Bool-cases (leb (length packet) offset)) [
  | inl over ↦
      let past : length packet ≤ offset = leb→le (length packet) offset over in
      ap length (beat_loop_end (suc fuel) packet offset past) ∙ omega arith
  | inr more ↦
      let inside : offset < length packet = ground arith in
      let next = offset + chunk_size packet offset in
      let rest = length-beat_loop fuel packet next (omega (arith, chunk_size_lem packet offset)) in
      ap length (beat_loop_next fuel packet offset inside)
      ∙ omega (arith, chunk_size_lem packet offset, rest)
]

-- `send` writes one beat for every 8 bytes of the packet and one for what is left over.
pub length-send_beats : (packet : List ℕ) → length (send_beats packet) ≡ (length packet + 7) / 8
unfolding send_beats
length-send_beats packet = omega (arith, length-beat_loop (length packet) packet 0 (omega arith))

-- What `send` has written of a packet that is not empty, `receive` reads to its end and no further,
-- whatever follows in the socket: the answer is SUCCESS, the packet holds what the beats carry, and
-- the socket what followed.
pub receive-send_beats :
    (packet : List ℕ) (rest : List AxiStreamBeat)
    → 0 < length packet
    → receive (send_beats packet ++ rest)
      ≡ (receiver_success, (carried_bytes (send_beats packet) [], rest))
unfolding receive send_beats
receive-send_beats packet rest h =
    receive_loop-frame (beat_loop (length packet) packet 0) rest []
      (beat_loop-IsFrame (length packet) packet 0 (omega arith) h)
