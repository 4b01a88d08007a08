-- ===== src/Transport/Socket/Stream.antt =====
-- `VerilatorSender` and `VerilatorReceiver` on the system calls (traffic-gen/src/verilator_sender.cpp,
-- verilator_receiver.cpp): a stream socket that takes and yields the bytes of the beats in parts. The
-- loops of `writeAll`, `readAll` and `receive` run on fuel, and answer none if they are not over by then.
pub mod Laws
pub mod Delivered
use tsn_gen.Prelude.{
  Text, ℕ, zero, suc, ◌+◌, ◌-◌, ◌*◌, ◌/◌, ◌^◌, ◌==◌, Bool, true, false, not, List, [], ◌∷◌, ◌++◌,
  Option, none, some, if◌then◌else◌, length, get_or, take, drop,
}
use tsn_gen.Packet.Builder.{is_nil}
use tsn_gen.Traffic.{
  SenderErr, sender_success, sender_err_open_failed, sender_err_send_failed, sender_err_not_open,
  is_sent,
}
use tsn_gen.Transport.{
  AxiStreamBeat, ReceiverErr, receiver_success, receiver_err_open_failed, receiver_err_recv_failed,
  receiver_err_not_open, receiver_err_eof, send_beats, keep_loop,
}
use tsn_gen.Transport.Pcap.{le32, word_of}
use tsn_gen.Transport.Socket.{Calls, Answer, returns, interrupted, failed, truncated}

-- A beat in memory, packed, on a little-endian machine.
unfoldable pub beat_bytes : AxiStreamBeat → List ℕ
beat_bytes beat = le32 beat.tdata ++ le32 (beat.tdata / 2 ^ 32) ++ beat.tkeep ∷ beat.tlast ∷ []

unfoldable pub beat_of : List ℕ → AxiStreamBeat
beat_of bytes = record {
  tdata = word_of (take 4 bytes) + word_of (take 4 (drop 4 bytes)) * 2 ^ 32;
  tkeep = get_or bytes 8 0;
  tlast = get_or bytes 9 0;
}

abbrev pub is_full : ReceiverErr → Bool
is_full receiver_success = true
is_full err = false

module _ (calls : Calls) where
  open calls use {World, socket, connect, write, read, close_fd}

  -- The descriptor and the world.
  abbrev pub Endpoint : Type 0
  Endpoint = Option ℕ × World

  -- `open` of either class: whether it succeeds. `sun_path` has 108 bytes.
  abbrev pub connected : ℕ → Bool × World → Bool × Endpoint
  connected fd (true, w) = (true, (some fd, w))
  connected fd (false, w) = (false, (none, close_fd fd w))

  unfoldable pub open_stream : Text → Endpoint → Bool × Endpoint
  open_stream path (old, w) =
      let (opened, w') = socket w in
      elim opened [
        | none ↦ (false, (none, w'))
        | some fd ↦ connected fd (connect fd (truncated 108 path) w')
      ]

  unfoldable pub open_verilator_sender : Text → Endpoint → SenderErr × Endpoint
  unfolding open_stream
  open_verilator_sender path s =
      let (ok, s') = open_stream path s in
      (if ok then sender_success else sender_err_open_failed, s')

  unfoldable pub open_verilator_receiver : Text → Endpoint → ReceiverErr × Endpoint
  unfolding open_stream
  open_verilator_receiver path s =
      let (ok, s') = open_stream path s in
      (if ok then receiver_success else receiver_err_open_failed, s')

  -- `close` of either class.
  unfoldable pub close_stream : Endpoint → Endpoint
  close_stream (none, w) = (none, w)
  close_stream (some fd, w) = (none, close_fd fd w)

  -- What `writeAll` does with an answer, going on like `k`.
  abbrev pub after_write :
      (List ℕ → World → Option (SenderErr × World))
      → List ℕ
      → Answer ℕ × World
      → Option (SenderErr × World)
  after_write k bytes (returns n, w) = k (drop n bytes) w
  after_write k bytes (interrupted, w) = k bytes w
  after_write k bytes (failed, w) = some (sender_err_send_failed, w)

  -- `writeAll`.
  unfoldable pub write_all : ℕ → ℕ → List ℕ → World → Option (SenderErr × World)
  write_all fuel fd [] w = some (sender_success, w)
  write_all zero fd (b ∷ bytes) w = none
  write_all (suc fuel) fd (b ∷ bytes) w =
      after_write (write_all fuel fd) (b ∷ bytes) (write fd (b ∷ bytes) w)

  abbrev pub after_beat :
      (World → Option (SenderErr × World)) → Option (SenderErr × World) → Option (SenderErr × World)
  after_beat k none = none
  after_beat k (some (err, w)) = if is_sent err then k w else some (err, w)

  -- The beats of a packet one after the other; the first error ends them.
  unfoldable pub write_beats : ℕ → ℕ → List AxiStreamBeat → World → Option (SenderErr × World)
  unfolding write_all beat_bytes
  write_beats fuel fd [] w = some (sender_success, w)
  write_beats fuel fd (beat ∷ beats) w =
      after_beat (write_beats fuel fd beats) (write_all fuel fd (beat_bytes beat) w)

  abbrev pub at_fd : ℕ → Option (SenderErr × World) → Option (SenderErr × Endpoint)
  at_fd fd none = none
  at_fd fd (some (err, w)) = some (err, (some fd, w))

  -- `VerilatorSender::send`.
  unfoldable pub send_verilator : ℕ → List ℕ → Endpoint → Option (SenderErr × Endpoint)
  unfolding write_beats send_beats
  send_verilator fuel packet (none, w) = some (sender_err_not_open, (none, w))
  send_verilator fuel packet (some fd, w) =
      if is_nil packet
      then some (sender_success, (some fd, w))
      else at_fd fd (write_beats fuel fd (send_beats packet) w)

  -- What `readAll` does with an answer, if `n` bytes are left to read.
  abbrev pub after_read :
      (ℕ → List ℕ → World → Option (ReceiverErr × (List ℕ × World)))
      → ℕ
      → List ℕ
      → Answer (List ℕ) × World
      → Option (ReceiverErr × (List ℕ × World))
  after_read k n got (returns [], w) = some (receiver_err_eof, (got, w))
  after_read k n got (returns (b ∷ chunk), w) = k (n - length (b ∷ chunk)) (got ++ b ∷ chunk) w
  after_read k n got (interrupted, w) = k n got w
  after_read k n got (failed, w) = some (receiver_err_recv_failed, (got, w))

  -- `readAll` of `n` more bytes after some: the answer and the bytes.
  unfoldable pub read_all : ℕ → ℕ → ℕ → List ℕ → World → Option (ReceiverErr × (List ℕ × World))
  read_all fuel fd zero got w = some (receiver_success, (got, w))
  read_all zero fd (suc n) got w = none
  read_all (suc fuel) fd (suc n) got w =
      after_read (read_all fuel fd) (suc n) got (read fd (suc n) w)

  -- The last beat ends a packet.
  abbrev pub after_kept :
      (List ℕ → World → Option (ReceiverErr × (List ℕ × World)))
      → AxiStreamBeat
      → List ℕ
      → World
      → Option (ReceiverErr × (List ℕ × World))
  after_kept k beat packet w =
      let rest = k packet w in
      if beat.tlast == 0 then rest else some (receiver_success, (packet, w))

  abbrev pub after_bytes :
      (List ℕ → World → Option (ReceiverErr × (List ℕ × World)))
      → List ℕ
      → Option (ReceiverErr × (List ℕ × World))
      → Option (ReceiverErr × (List ℕ × World))
  after_bytes k packet none = none
  after_bytes k packet (some (err, (bytes, w))) =
      let beat = beat_of bytes in
      if not (is_full err)
      then some (err, (packet, w))
      else after_kept k beat (keep_loop 8 0 beat packet) w

  -- The loop of `receive` over beats, at most `m` of them: the answer, the packet and the world.
  unfoldable pub receive_beats :
      ℕ → ℕ → ℕ → List ℕ → World → Option (ReceiverErr × (List ℕ × World))
  unfolding read_all beat_of keep_loop
  receive_beats fuel zero fd packet w = none
  receive_beats fuel (suc m) fd packet w =
      after_bytes (receive_beats fuel m fd) packet (read_all fuel fd 10 [] w)

  abbrev pub received_at :
      ℕ → Option (ReceiverErr × (List ℕ × World)) → Option (ReceiverErr × (List ℕ × Endpoint))
  received_at fd none = none
  received_at fd (some (err, (packet, w))) = some (err, (packet, (some fd, w)))

  -- `VerilatorReceiver::receive` into the caller's packet.
  unfoldable pub receive_verilator :
      ℕ → ℕ → List ℕ → Endpoint → Option (ReceiverErr × (List ℕ × Endpoint))
  unfolding receive_beats
  receive_verilator fuel m packet (none, w) = some (receiver_err_not_open, (packet, (none, w)))
  receive_verilator fuel m packet (some fd, w) = received_at fd (receive_beats fuel m fd [] w)
