-- ===== src/Transport.antt =====
-- The AXI-Stream transport over a socket: `AxiStreamBeat` (traffic-gen/inc/tsn/axi_stream_beat.h),
-- `VerilatorSender::send` (traffic-gen/src/verilator_sender.cpp) and `VerilatorReceiver::receive`
-- (traffic-gen/src/verilator_receiver.cpp). The socket is the list of the beats that were written to
-- it and not read yet; a write does not fail, and a read past the last beat meets the end of the
-- stream. Transport/Socket/Stream has the same two over the system calls.
pub mod Framing
pub mod Bytes
pub mod Delivered
pub mod Pcap
pub mod Socket
use tsn_gen.Prelude.{
  ℕ, zero, suc, ◌+◌, ◌-◌, ◌*◌, ◌/◌, ◌%◌, ◌^◌, ◌==◌, leb, bit_and, bit_or, Bool, true, false, not,
  List, [], ◌∷◌, ◌++◌, if◌then◌else◌, length, get_or,
}
use tsn_gen.Bits.{u8, u64}

pub record AxiStreamBeat : Type 0 where
  pub tdata : ℕ
  pub tkeep : ℕ
  pub tlast : ℕ

pub data ReceiverErr : Type 0 where
  receiver_success receiver_err_unknown receiver_err_open_failed : ReceiverErr
  receiver_err_recv_failed receiver_err_not_open receiver_err_eof : ReceiverErr

-- The virtual methods of a receiver (traffic-gen/inc/tsn/receiver.h), on the state of the
-- implementation; `receive` is handed the caller's packet.
pub record Receiver : Type 1 where
  pub State : Type 0
  pub open_receiver : State → ReceiverErr × State
  pub receive_packet : State → List ℕ → ReceiverErr × (List ℕ × State)
  pub close_receiver : State → State

abbrev pub tdata_bytes : ℕ
tdata_bytes = 8

-- `beat.tdata |= packet[offset + i] << (i * 8)` for `n` values of `i` from the given one on.
unfoldable pub tdata_loop : ℕ → List ℕ → ℕ → ℕ → ℕ → ℕ
tdata_loop zero packet offset i tdata = tdata
tdata_loop (suc n) packet offset i tdata =
    tdata_loop n packet offset (i + 1)
      (bit_or tdata (u64 (get_or packet (offset + i) 0 * 2 ^ (i * 8))))

abbrev pub chunk_size : List ℕ → ℕ → ℕ
chunk_size packet offset =
    let remaining = length packet - offset in if leb 8 remaining then 8 else remaining

unfoldable pub make_beat : List ℕ → ℕ → AxiStreamBeat
unfolding tdata_loop
make_beat packet offset =
    let chunk = chunk_size packet offset in
    record {
      tdata = tdata_loop chunk packet offset 0 0;
      tkeep = u8 (2 ^ chunk - 1);
      tlast = if leb (length packet) (offset + chunk) then 1 else 0;
    }

-- The loop of `send` from an offset on: the beats that it writes. The fuel bounds the beats.
unfoldable pub beat_loop : ℕ → List ℕ → ℕ → List AxiStreamBeat
unfolding make_beat
beat_loop zero packet offset = []
beat_loop (suc fuel) packet offset =
    if leb (length packet) offset
    then []
    else make_beat packet offset ∷ beat_loop fuel packet (offset + chunk_size packet offset)

-- What `send` writes to an open socket; an empty packet writes nothing.
unfoldable pub send_beats : List ℕ → List AxiStreamBeat
unfolding beat_loop
send_beats packet = beat_loop (length packet) packet 0

-- `n` rounds of the loop over the bytes of a beat, from byte `i` on.
unfoldable pub keep_loop : ℕ → ℕ → AxiStreamBeat → List ℕ → List ℕ
keep_loop zero i beat packet = packet
keep_loop (suc n) i beat packet = keep_loop n (i + 1) beat (
    if bit_and beat.tkeep (2 ^ i) == 0
    then packet
    else packet ++ u8 (beat.tdata / 2 ^ (i * 8)) ∷ [])

-- The answer of `receive` on an open socket, the packet, and what is left in the socket.
unfoldable pub receive_loop :
    List AxiStreamBeat → List ℕ → ReceiverErr × (List ℕ × List AxiStreamBeat)
unfolding keep_loop
receive_loop [] packet = (receiver_err_eof, (packet, []))
receive_loop (beat ∷ rest) packet =
    let packet' = keep_loop 8 0 beat packet in
    if beat.tlast == 0 then receive_loop rest packet' else (receiver_success, (packet', rest))

unfoldable pub receive : List AxiStreamBeat → ReceiverErr × (List ℕ × List AxiStreamBeat)
unfolding receive_loop
receive socket = receive_loop socket []
