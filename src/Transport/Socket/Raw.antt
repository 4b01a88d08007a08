-- ===== src/Transport/Socket/Raw.antt =====
-- `RawSocketSender` and `RawSocketReceiver` on the system calls (traffic-gen/src/raw_socket_sender.cpp,
-- raw_socket_receiver.cpp).
pub mod Laws
use tsn_gen.Prelude.{Text, ℕ, Bool, true, false, List, [], Option, none, some, if◌then◌else◌}
use tsn_gen.Traffic.{
  SenderErr, sender_success, sender_err_open_failed, sender_err_send_failed, sender_err_not_open,
  Sender,
}
use tsn_gen.Transport.{
  ReceiverErr, receiver_success, receiver_err_open_failed, receiver_err_recv_failed,
  receiver_err_not_open, receiver_err_eof, Receiver,
}
use tsn_gen.Transport.Pcap.{resize}
use tsn_gen.Transport.Socket.{Calls, Answer, returns, interrupted, failed, truncated}

pub record RawSender : Type 0 where
  pub sock_fd : Option ℕ
  pub index : Option ℕ

abbrev pub max_frame_bytes : ℕ
max_frame_bytes = 65535

module _ (calls : Calls) where
  open calls use {World, socket, if_index, bind, sendto, recvfrom, close_fd}

  -- `bind`, and what stays of the descriptor.
  abbrev pub bound : ℕ → Bool × World → Bool × (Option ℕ × World)
  bound fd (true, w) = (true, (some fd, w))
  bound fd (false, w) = (false, (none, close_fd fd w))

  -- After the `ioctl` for the index of the interface: whether `open` succeeds, the descriptor, and
  -- the index that was before or is found.
  abbrev pub indexed : ℕ → Option ℕ → Option ℕ × World → Bool × ((Option ℕ × Option ℕ) × World)
  indexed fd old (none, w) = (false, ((none, old), close_fd fd w))
  indexed fd old (some i, w) =
      let (ok, (fd', w')) = bound fd (bind fd i w) in (ok, ((fd', some i), w'))

  -- `open` of either class. A name has 16 bytes.
  abbrev pub after_socket :
      Text → Option ℕ → Option ℕ × World → Bool × ((Option ℕ × Option ℕ) × World)
  after_socket name old (none, w) = (false, ((none, old), w))
  after_socket name old (some fd, w) = indexed fd old (if_index fd (truncated 16 name) w)

  unfoldable pub open_raw : Text → Option ℕ → World → Bool × ((Option ℕ × Option ℕ) × World)
  open_raw name old w = after_socket name old (socket w)

  unfoldable pub open_raw_sender : Text → RawSender × World → SenderErr × (RawSender × World)
  unfolding open_raw
  open_raw_sender name (s, w) =
      let (ok, ((fd, i), w')) = open_raw name s.index w in
      (
        if ok then sender_success else sender_err_open_failed,
        (record { sock_fd = fd; index = i }, w'),
      )

  unfoldable pub send_raw : List ℕ → RawSender × World → SenderErr × (RawSender × World)
  send_raw packet (s, w) = elim s.sock_fd [
    | none ↦ (sender_err_not_open, (s, w))
    | some fd ↦
        let (ok, w') = sendto fd s.index packet w in
        (if ok then sender_success else sender_err_send_failed, (s, w'))
  ]

  unfoldable pub close_raw_sender : RawSender × World → RawSender × World
  close_raw_sender (s, w) = elim s.sock_fd [
    | none ↦ (s, w)
    | some fd ↦ (record { sock_fd = none; index = none }, close_fd fd w)
  ]

  -- The receiver keeps its descriptor only.
  unfoldable pub open_raw_receiver : Text → Option ℕ × World → ReceiverErr × (Option ℕ × World)
  unfolding open_raw
  open_raw_receiver name (old, w) =
      let (ok, ((fd, i), w')) = open_raw name none w in
      (if ok then receiver_success else receiver_err_open_failed, (fd, w'))

  -- The caller's packet is resized to the greatest frame before the call, and to the frame after it.
  abbrev pub after_recvfrom :
      ℕ → List ℕ → Answer (List ℕ) × World → ReceiverErr × (List ℕ × (Option ℕ × World))
  after_recvfrom fd packet (returns bytes, w) = (receiver_success, (bytes, (some fd, w)))
  after_recvfrom fd packet (interrupted, w) = (receiver_err_eof, ([], (some fd, w)))
  after_recvfrom fd packet (failed, w) =
      (receiver_err_recv_failed, (resize max_frame_bytes packet, (some fd, w)))

  unfoldable pub receive_raw :
      Option ℕ × World → List ℕ → ReceiverErr × (List ℕ × (Option ℕ × World))
  receive_raw (none, w) packet = (receiver_err_not_open, (packet, (none, w)))
  receive_raw (some fd, w) packet = after_recvfrom fd packet (recvfrom fd max_frame_bytes w)

  unfoldable pub close_raw_receiver : Option ℕ × World → Option ℕ × World
  close_raw_receiver (none, w) = (none, w)
  close_raw_receiver (some fd, w) = (none, close_fd fd w)

  -- The two as an `ISender` and an `IReceiver` on the interface of a name.
  abbrev pub raw_sender : Text → Sender
  raw_sender name = record {
    State = RawSender × World;
    open_sender = open_raw_sender name;
    send_packet = send_raw;
    close_sender = close_raw_sender;
  }

  abbrev pub raw_receiver : Text → Receiver
  raw_receiver name = record {
    State = Option ℕ × World;
    open_receiver = open_raw_receiver name;
    receive_packet = receive_raw;
    close_receiver = close_raw_receiver;
  }
