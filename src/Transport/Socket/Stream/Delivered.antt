-- ===== src/Transport/Socket/Stream/Delivered.antt =====
-- A packet through a stream socket: `VerilatorSender::send` and `VerilatorReceiver::receive`
-- (traffic-gen/src/verilator_sender.cpp, verilator_receiver.cpp).
use tsn_gen.Prelude.{
  ℕ, zero, suc, ◌+◌, ◌*◌, ◌/◌, ◌%◌, ◌^◌, ◌<◌, ◌≤◌, ◌≡◌, ◌⊎◌, inl, inr, refl, sym, ap, ap₂, ◌∙◌,
  arith, ◌==◌, bit_and, false, List, [], ◌∷◌, ◌++◌, append-nil, append_assoc, Option, some,
  if◌then◌else◌, length,
}
use tsn_gen.Bits.{u8}
use tsn_gen.Packet.Builder.{is_nil}
use tsn_gen.Traffic.{SenderErr, sender_success, sender_err_send_failed}
use tsn_gen.Transport.{AxiStreamBeat, ReceiverErr, receiver_success, send_beats, keep_loop}
use tsn_gen.Transport.Bytes.{AllBytes, at_place}
use tsn_gen.Transport.Delivered.{carried_bytes-send_beats}
use tsn_gen.Transport.Framing.{IsFrame, carried_bytes, beat_loop-IsFrame, length-send_beats}
use tsn_gen.Transport.Pcap.{le32, word_of}
use tsn_gen.Transport.Socket.{Calls}
use tsn_gen.Transport.Socket.Stream.{
  beat_bytes, beat_of, after_beat, after_kept, after_bytes, Endpoint, write_all, write_beats, at_fd,
  received_at, send_verilator, receive_beats, receive_verilator,
}
use tsn_gen.Transport.Socket.Stream.Laws.{
  Writes, Reads, Wrote, Read, write_all-Wrote, read_all-Read,
}

-- The bytes of some beats.
unfoldable pub flat : List AxiStreamBeat → List ℕ
flat [] = []
flat (beat ∷ beats) = beat_bytes beat ++ flat beats

length-beat_bytes : (beat : AxiStreamBeat) → length (beat_bytes beat) ≡ 10
unfolding beat_bytes
length-beat_bytes beat = refl

-- The word comes back as far as 64 bits hold it, which is all that is looked at.
beat_of-beat_bytes :
    (beat : AxiStreamBeat)
    → beat_of (beat_bytes beat)
      ≡ record { tdata = beat.tdata % 2 ^ 64; tkeep = beat.tkeep; tlast = beat.tlast }
unfolding beat_of beat_bytes
beat_of-beat_bytes beat =
    let word : (v : ℕ) → word_of (le32 v) ≡ v % 2 ^ 32 = λ v. omega arith in
    ap (λ (n : ℕ). record { tdata = n; tkeep = beat.tkeep; tlast = beat.tlast })
      (ap₂ (λ (lo hi : ℕ). lo + hi * 2 ^ 32) (word beat.tdata) (word (beat.tdata / 2 ^ 32))
        ∙ omega arith)

word_byte : (i : ℕ) → i < 8 → (v : ℕ) → u8 (v % 2 ^ 64 / 2 ^ (i * 8)) ≡ u8 (v / 2 ^ (i * 8))
word_byte =
    at_place (λ i. (v : ℕ) → u8 (v % 2 ^ 64 / 2 ^ (i * 8)) ≡ u8 (v / 2 ^ (i * 8)))
      (λ v. omega arith) (λ v. omega arith) (λ v. omega arith) (λ v. omega arith) (λ v. omega arith)
      (λ v. omega arith) (λ v. omega arith) (λ v. omega arith)

keep_loop_word :
    (n i tdata tkeep tlast : ℕ) (packet : List ℕ)
    → n + i ≤ 8
    → keep_loop n i (record { tdata = tdata % 2 ^ 64; tkeep = tkeep; tlast = tlast }) packet
      ≡ keep_loop n i (record { tdata = tdata; tkeep = tkeep; tlast = tlast }) packet
unfolding keep_loop
keep_loop_word zero i tdata tkeep tlast packet h = refl
keep_loop_word (suc n) i tdata tkeep tlast packet h =
    let byte = word_byte i (omega arith) tdata in
    ap
      (λ (b : ℕ).
        keep_loop n (i + 1) (record { tdata = tdata % 2 ^ 64; tkeep = tkeep; tlast = tlast })
          (if bit_and tkeep (2 ^ i) == 0 then packet else packet ++ b ∷ []))
      byte
    ∙ keep_loop_word n (i + 1) tdata tkeep tlast
        (if bit_and tkeep (2 ^ i) == 0 then packet else packet ++ u8 (tdata / 2 ^ (i * 8)) ∷ [])
        (omega arith)

pub send_beats-IsFrame : (packet : List ℕ) → 0 < length packet → IsFrame (send_beats packet)
unfolding send_beats
send_beats-IsFrame packet h = beat_loop-IsFrame (length packet) packet 0 (omega arith) h

module _ (calls : Calls) (pipe : calls.World → List ℕ) (patience : calls.World → ℕ) where
  open calls use {World}

  after_beat-Wrote :
      (bytes more : List ℕ) (w : World) (k : World → Option (SenderErr × World))
      → (r : Option (SenderErr × World)) → Wrote calls pipe patience bytes w r
      → ((v : World) → patience v ≤ patience w → Wrote calls pipe patience more v (k v))
      → Wrote calls pipe patience (bytes ++ more) w (after_beat calls k r)
  after_beat-Wrote bytes more w k r first next = elim first.outcome [
    | inl fine ↦
        let rest = next first.after first.calm in
        record {
          err = rest.err;
          after = rest.after;
          result =
              ap (after_beat calls k) (first.result ∙ ap (λ e. some (e, first.after)) fine.0)
              ∙ rest.result;
          calm = omega (arith, rest.calm, first.calm);
          outcome = elim rest.outcome [
            | inl all ↦ inl (
              all.0,
              all.1 ∙ ap (λ (p : List ℕ). p ++ more) fine.1 ∙ append_assoc (pipe w) bytes more,
            )
            | inr bad ↦ inr bad
          ];
        }
    | inr bad ↦ record {
      err = sender_err_send_failed;
      after = first.after;
      result = ap (after_beat calls k) (first.result ∙ ap (λ e. some (e, first.after)) bad);
      calm = first.calm;
      outcome = inr refl;
    }
  ]

  write_beats-Wrote :
      (fd : ℕ)
      → Writes calls pipe patience fd
      → (fuel : ℕ) (beats : List AxiStreamBeat) (w : World) → 10 + patience w ≤ fuel
      → Wrote calls pipe patience (flat beats) w (write_beats calls fuel fd beats w)
  unfolding write_beats flat
  write_beats-Wrote fd writes fuel [] w h = record {
    err = sender_success;
    after = w;
    result = refl;
    calm = omega arith;
    outcome = inl (refl, sym (append-nil (pipe w)));
  }
  write_beats-Wrote fd writes fuel (beat ∷ beats) w h =
      after_beat-Wrote (beat_bytes beat) (flat beats) w (write_beats calls fuel fd beats)
        (write_all calls fuel fd (beat_bytes beat) w)
        (write_all-Wrote calls pipe patience fd writes fuel (beat_bytes beat) w
          (omega (arith, length-beat_bytes beat)))
        (λ v calm. write_beats-Wrote fd writes fuel beats v (omega (arith, calm)))

  -- One beat off the pipe.
  receive_beats-beat :
      (fd : ℕ)
      → Reads calls pipe patience fd
      → (fuel m : ℕ) (beat : AxiStreamBeat) (packet rest : List ℕ) (w : World)
      → pipe w ≡ beat_bytes beat ++ rest
      → 10 + patience w ≤ fuel
      → (v : World) × (pipe v ≡ rest)
        × (patience v ≤ patience w)
        × (receive_beats calls fuel (suc m) fd packet w
            ≡ after_kept calls (receive_beats calls fuel m fd) beat (keep_loop 8 0 beat packet) v)
  unfolding receive_beats
  receive_beats-beat fd reads fuel m beat packet rest w p enough =
      let r =
        read_all-Read calls pipe patience fd reads fuel 10 [] (beat_bytes beat) rest w
          (sym (length-beat_bytes beat)) p enough in
      let k = receive_beats calls fuel m fd in
      (
        r.after,
        r.left,
        r.calm,
        ap (after_bytes calls k packet) r.result
            ∙ ap (λ (b : AxiStreamBeat). after_kept calls k b (keep_loop 8 0 b packet) r.after)
                (beat_of-beat_bytes beat)
            ∙ ap (λ (l : List ℕ). after_kept calls k beat l r.after)
                (keep_loop_word 8 0 beat.tdata beat.tkeep beat.tlast packet (omega arith)),
      )

  kept_last :
      (k : List ℕ → World → Option (ReceiverErr × (List ℕ × World))) (beat : AxiStreamBeat)
      (packet : List ℕ) (w : World)
      → beat.tlast ≡ 1
      → after_kept calls k beat packet w ≡ some (receiver_success, (packet, w))
  kept_last k beat packet w e = rw e refl

  kept_next :
      (k : List ℕ → World → Option (ReceiverErr × (List ℕ × World))) (beat : AxiStreamBeat)
      (packet : List ℕ) (w : World)
      → beat.tlast ≡ 0
      → after_kept calls k beat packet w ≡ k packet w
  kept_next k beat packet w e = rw e refl

  receive_beats-Read :
      (fd : ℕ)
      → Reads calls pipe patience fd
      → (fuel m : ℕ) (beats : List AxiStreamBeat) (packet rest : List ℕ) (w : World) → IsFrame beats
      → pipe w ≡ flat beats ++ rest
      → length beats ≤ m
      → 10 + patience w ≤ fuel
      → Read calls pipe patience
          (carried_bytes beats packet)
          rest
          w
          (receive_beats calls fuel m fd packet w)
  unfolding flat carried_bytes
  receive_beats-Read fd reads fuel m [] packet rest w frame p h enough = absurd frame
  receive_beats-Read fd reads fuel zero (beat ∷ beats) packet rest w frame p h enough =
      absurd (omega arith)
  receive_beats-Read fd reads fuel (suc m) (beat ∷ []) packet rest w last p h enough =
      let k = receive_beats calls fuel m fd in
      let (v, left, calm, step) =
        receive_beats-beat fd reads fuel m beat packet rest w
          (p ∙ ap (λ (l : List ℕ). l ++ rest) (append-nil (beat_bytes beat))) enough in
      record {
        after = v;
        result = step ∙ kept_last k beat (keep_loop 8 0 beat packet) v last;
        calm = calm;
        left = left;
      }
  receive_beats-Read fd reads fuel (suc m) (beat ∷ next ∷ beats) packet rest w frame p h enough =
      let k = receive_beats calls fuel m fd in
      let more = flat (next ∷ beats) ++ rest in
      let (v, left, calm, step) =
        receive_beats-beat fd reads fuel m beat packet more w
          (p ∙ append_assoc (beat_bytes beat) (flat (next ∷ beats)) rest) enough in
      let r =
        receive_beats-Read fd reads fuel m (next ∷ beats) (keep_loop 8 0 beat packet) rest v frame.1
          left (omega arith) (omega (arith, calm)) in
      record {
        after = r.after;
        result = step ∙ kept_next k beat (keep_loop 8 0 beat packet) v frame.0 ∙ r.result;
        calm = omega (arith, calm, r.calm);
        left = r.left;
      }

  -- A sender with descriptor `out` and a receiver with descriptor `inp` on one stream.
  module _ (out inp : ℕ) (writes : Writes calls pipe patience out)
      (reads : Reads calls pipe patience inp) where
    -- A send that has failed, or whose packet the receiver then reads off the empty stream.
    pub record Delivered (packet : List ℕ) (fuel m : ℕ) (old : List ℕ)
        (r : Option (SenderErr × Endpoint calls)) : Type 0 where
      pub err : SenderErr
      pub after : World
      pub result : r ≡ some (err, (some out, after))
      pub outcome :
          (err ≡ sender_err_send_failed)
          ⊎ ((err ≡ sender_success)
              × (last : World) × (receive_verilator calls fuel m old (some inp, after)
                  ≡ some (receiver_success, (packet, (some inp, last))))
              × (pipe last ≡ []))

    -- On a stream whose writes take at least one byte, whose reads yield at least one if there is
    -- any, and which interrupts both a bounded number of times: with fuel for 10 bytes and those
    -- interruptions, and for a round per beat, `VerilatorSender::send` of a packet of bytes that
    -- is not empty comes to an end on an empty stream. Its answer is SEND_FAILED, or it is SUCCESS
    -- and `VerilatorReceiver::receive` on the other side answers SUCCESS with that packet and
    -- leaves the stream empty.
    pub send_verilator-Delivered :
        (packet old : List ℕ) (w : World) (fuel m : ℕ)
        → AllBytes packet
        → 0 < length packet
        → pipe w ≡ []
        → 10 + patience w ≤ fuel
        → (length packet + 7) / 8 ≤ m
        → Delivered packet fuel m old (send_verilator calls fuel packet (some out, w))
    unfolding send_verilator receive_verilator
    send_verilator-Delivered packet old w fuel m bytes some_bytes idle fuel_enough enough =
        let sent = write_beats-Wrote out writes fuel (send_beats packet) w fuel_enough in
        record {
          err = sent.err;
          after = sent.after;
          result = rw (nonempty packet some_bytes) (ap (at_fd calls out) sent.result);
          outcome = elim sent.outcome [
            | inr bad ↦ inl bad
            | inl fine ↦
                let read =
                  receive_beats-Read inp reads fuel m (send_beats packet) [] [] sent.after
                    (send_beats-IsFrame packet some_bytes)
                    (fine.1
                      ∙ ap (λ (l : List ℕ). l ++ flat (send_beats packet)) idle
                      ∙ sym (append-nil (flat (send_beats packet))))
                    (omega (arith, length-send_beats packet)) (omega (arith, sent.calm)) in
                inr (
                  fine.0,
                  read.after,
                  ap (received_at calls inp) read.result
                      ∙ ap (λ (l : List ℕ). some (receiver_success, (l, (some inp, read.after))))
                          (carried_bytes-send_beats packet bytes),
                  read.left,
                )
          ];
        }
      where
        nonempty : (packet : List ℕ) → 0 < length packet → is_nil packet ≡ false
        nonempty [] h = absurd (omega arith)
        nonempty (b ∷ packet) h = refl
