-- ===== src/Transport/Delivered.antt =====
-- A packet of bytes arrives over the beats as it was sent.
use tsn_gen.Prelude.{
  ℕ, zero, suc, ◌+◌, ◌≤◌, ◌<◌, ltb, ltb→lt, ltb_false→le, ◌≡◌, refl, sym, ap, ◌∙◌, arith, List, [],
  ◌∷◌, ◌++◌, append-nil, append_assoc, length, length-take, length-drop, take, drop, drop-beyond,
  take-append-drop, Bool-cases, inl, inr,
}
use tsn_gen.Transport.{
  AxiStreamBeat, receiver_success, chunk_size, make_beat, tdata_loop, beat_loop, send_beats,
  keep_loop, receive,
}
use tsn_gen.Transport.Bytes.{AllBytes, val_at, tdata_loop_lem, keep_loop_lem}
use tsn_gen.Transport.Framing.{
  carried_bytes, chunk_size_lem, beat_loop_end, beat_loop_next, receive-send_beats,
}

take-AllBytes : (n : ℕ) (xs : List ℕ) → AllBytes xs → AllBytes (take n xs)
take-AllBytes zero [] h = tt
take-AllBytes zero (x ∷ xs) h = tt
take-AllBytes (suc n) [] h = tt
take-AllBytes (suc n) (x ∷ xs) h = (h.0, take-AllBytes n xs h.1)

drop-AllBytes : (n : ℕ) (xs : List ℕ) → AllBytes xs → AllBytes (drop n xs)
drop-AllBytes zero [] h = tt
drop-AllBytes zero (x ∷ xs) h = h
drop-AllBytes (suc n) [] h = tt
drop-AllBytes (suc n) (x ∷ xs) h = drop-AllBytes n xs h.1

drop-add : (a b : ℕ) (xs : List ℕ) → drop (a + b) xs ≡ drop b (drop a xs)
drop-add zero b xs = ap (λ (n : ℕ). drop n xs) {x = zero + b} {y = b} (omega arith)
drop-add (suc a) b [] =
    drop-beyond [] (suc a + b) (omega arith) ∙ sym (drop-beyond [] b (omega arith))
drop-add (suc a) b (x ∷ xs) =
    ap (λ (n : ℕ). drop n (x ∷ xs)) {x = suc a + b} {y = suc (a + b)} (omega arith)
    ∙ drop-add a b xs

-- The bytes of one beat.
make_beat-bytes :
    (packet : List ℕ) (offset : ℕ) (acc : List ℕ)
    → AllBytes packet
    → offset < length packet
    → keep_loop 8 0 (make_beat packet offset) acc
      ≡ acc ++ take (chunk_size packet offset) (drop offset packet)
unfolding make_beat
make_beat-bytes packet offset acc bytes inside =
    let c = chunk_size packet offset in
    let rest = drop offset packet in
    let bs = take c rest in
    let size : length bs ≡ c =
      omega (arith, length-take c rest, length-drop offset packet, chunk_size_lem packet offset) in
    let small = take-AllBytes c rest (drop-AllBytes offset packet bytes) in
    let place : drop (offset + 0) packet ≡ bs ++ drop c rest =
      ap (λ (n : ℕ). drop n packet) {x = offset + 0} {y = offset} (omega arith)
      ∙ sym (take-append-drop c rest) in
    let word : tdata_loop c packet offset 0 0 ≡ 0 + val_at 0 bs =
      ap (λ (n : ℕ). tdata_loop n packet offset 0 0) (sym size)
      ∙ tdata_loop_lem bs (drop c rest) packet offset 0 0 small
          (omega (arith, chunk_size_lem packet offset)) (omega arith) place in
    keep_loop_lem 8 0 bs acc 0 c (make_beat packet offset) refl
      (omega (arith, chunk_size_lem packet offset)) small (omega arith) (omega arith) refl word

carried_bytes-beat_loop :
    (fuel : ℕ) (packet : List ℕ) (offset : ℕ) (acc : List ℕ)
    → AllBytes packet
    → length packet ≤ fuel + offset
    → carried_bytes (beat_loop fuel packet offset) acc ≡ acc ++ drop offset packet
unfolding carried_bytes
carried_bytes-beat_loop zero packet offset acc bytes h =
    ap (λ (l : List AxiStreamBeat). carried_bytes l acc)
      (beat_loop_end zero packet offset (omega arith))
    ∙ sym (ap (λ (x : List ℕ). acc ++ x) (drop-beyond packet offset (omega arith)) ∙ append-nil acc)
carried_bytes-beat_loop (suc fuel) packet offset acc bytes h =
    elim (Bool-cases (ltb offset (length packet))) [
      | inl more ↦
          let inside = ltb→lt offset (length packet) more in
          let c = chunk_size packet offset in
          let rest = drop offset packet in
          let tail = drop (offset + c) packet in
          ap (λ (l : List AxiStreamBeat). carried_bytes l acc)
            (beat_loop_next fuel packet offset inside)
          ∙ carried_bytes-beat_loop fuel packet (offset + c)
              (keep_loop 8 0 (make_beat packet offset) acc) bytes
              (omega (arith, chunk_size_lem packet offset))
          ∙ ap (λ (x : List ℕ). x ++ tail) (make_beat-bytes packet offset acc bytes inside)
          ∙ append_assoc acc (take c rest) tail
          ∙ ap (λ (x : List ℕ). acc ++ (take c rest ++ x)) (drop-add offset c packet)
          ∙ ap (λ (x : List ℕ). acc ++ x) (take-append-drop c rest)
      | inr over ↦
          let past = ltb_false→le offset (length packet) over in
          ap (λ (l : List AxiStreamBeat). carried_bytes l acc)
            (beat_loop_end (suc fuel) packet offset past)
          ∙ sym (ap (λ (x : List ℕ). acc ++ x) (drop-beyond packet offset past) ∙ append-nil acc)
    ]

pub carried_bytes-send_beats :
    (packet : List ℕ) → AllBytes packet → carried_bytes (send_beats packet) [] ≡ packet
unfolding send_beats
carried_bytes-send_beats packet bytes =
    carried_bytes-beat_loop (length packet) packet 0 [] bytes (omega arith) ∙ drop-none packet
  where
    drop-none : (xs : List ℕ) → [] ++ drop 0 xs ≡ xs
    drop-none [] = refl
    drop-none (x ∷ xs) = refl

-- What `VerilatorSender::send` writes of a packet of bytes that is not empty,
-- `VerilatorReceiver::receive` reads as that packet, whatever follows in the socket: the answer is
-- SUCCESS, and the socket is left with what followed.
pub receive-send_beats_whole :
    (packet : List ℕ) (rest : List AxiStreamBeat)
    → AllBytes packet
    → 0 < length packet
    → receive (send_beats packet ++ rest) ≡ (receiver_success, (packet, rest))
receive-send_beats_whole packet rest bytes h =
    receive-send_beats packet rest h
    ∙ ap (λ (p : List ℕ). (receiver_success, (p, rest))) (carried_bytes-send_beats packet bytes)
