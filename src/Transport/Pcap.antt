-- ===== src/Transport/Pcap.antt =====
-- `PcapSender` and `PcapReceiver` (traffic-gen/inc/tsn/pcap_sender.h, pcap_receiver.h,
-- traffic-gen/src/pcap_sender.cpp, pcap_receiver.cpp) on a little-endian machine. A file is the list of
-- its bytes. Whether it can be opened and how many bytes the disk takes are parameters; a read of it
-- fails at its end only. What is logged is left out.
pub mod Laws
pub mod Capture
pub mod Devices
use tsn_gen.Prelude.{
  Text, ℕ, zero, suc, ◌+◌, ◌-◌, ◌*◌, ◌/◌, ◌%◌, ◌^◌, ◌==◌, leb, Bool, true, false, not, List, [],
  ◌∷◌, ◌++◌, Option, none, some, if◌then◌else◌, length, take, drop,
}
use tsn_gen.Bits.{u32}
use tsn_gen.Traffic.{
  SenderErr, sender_success, sender_err_open_failed, sender_err_send_failed, sender_err_not_open,
}
use tsn_gen.Transport.{
  ReceiverErr, receiver_success, receiver_err_open_failed, receiver_err_recv_failed,
  receiver_err_not_open, receiver_err_eof,
}

-- The bytes of an integer in memory.
abbrev pub le32 : ℕ → List ℕ
le32 v = v % 256 ∷ v / 2 ^ 8 % 256 ∷ v / 2 ^ 16 % 256 ∷ v / 2 ^ 24 % 256 ∷ []

abbrev pub le16 : ℕ → List ℕ
le16 v = v % 256 ∷ v / 2 ^ 8 % 256 ∷ []

abbrev pub pcap_magic_le : ℕ
pcap_magic_le = 2712847316

abbrev pub pcap_magic_be : ℕ
pcap_magic_be = 3569595041

-- `PcapGlobalHeader`: the magic, the version 2.4, the zone, the accuracy, the limit and the link type.
unfoldable pub global_header : List ℕ
global_header = le32 pcap_magic_le ++ le16 2 ++ le16 4 ++ le32 0 ++ le32 0 ++ le32 65535 ++ le32 1

-- `PcapPacketHeader`.
unfoldable pub packet_header : ℕ → ℕ → ℕ → ℕ → List ℕ
packet_header ts_sec ts_usec incl_len orig_len =
    le32 ts_sec ++ le32 ts_usec ++ le32 incl_len ++ le32 orig_len

-- A file that is written, and the bytes that the disk still takes.
pub record Disk : Type 0 where
  pub file : List ℕ
  pub room : ℕ

-- What does not fit is lost, and the write fails.
unfoldable pub write_all : List ℕ → Disk → Bool × Disk
write_all bytes disk =
    if leb (length bytes) disk.room
    then (true, record { file = disk.file ++ bytes; room = disk.room - length bytes })
    else (false, record { file = disk.file ++ take disk.room bytes; room = 0 })

pub record PcapSender : Type 0 where
  pub is_open : Bool
  pub disk : Disk

-- `open` truncates the file. The argument is the room for it, none if it cannot be opened.
unfoldable pub open_pcap_sender : Option ℕ → PcapSender → SenderErr × PcapSender
unfolding write_all global_header
open_pcap_sender none s = (sender_err_open_failed, record { is_open = false; disk = s.disk })
open_pcap_sender (some room) s =
    let (ok, disk) = write_all global_header (record { file = []; room = room }) in
    ((if ok then sender_success else sender_err_open_failed), record { is_open = ok; disk = disk })

abbrev pub written : Bool × Disk → SenderErr × PcapSender
written (ok, disk) = (
  (if ok then sender_success else sender_err_send_failed),
  record { is_open = true; disk = disk },
)

-- The packet after its header.
abbrev pub write_packet : List ℕ → Bool × Disk → SenderErr × PcapSender
write_packet packet (ok, disk) =
    if not ok then written (ok, disk) else written (write_all packet disk)

-- `send` at a time in seconds and nanoseconds.
unfoldable pub send_pcap : ℕ × ℕ → List ℕ → PcapSender → SenderErr × PcapSender
unfolding write_all packet_header
send_pcap (tv_sec, tv_nsec) packet s =
    let len = u32 (length packet) in
    if not s.is_open
    then (sender_err_not_open, s)
    else write_packet packet
        (write_all (packet_header (u32 tv_sec) (u32 (tv_nsec / 1000)) len len) s.disk)

abbrev pub close_pcap_sender : PcapSender → PcapSender
close_pcap_sender s = record { is_open = false; disk = s.disk }

-- The bytes of the file that are not read yet.
pub record PcapReceiver : Type 0 where
  pub is_open : Bool
  pub swap : Bool
  pub rest : List ℕ

-- What `n` bytes are read, and the rest; whether there were as many.
unfoldable pub read_all : ℕ → List ℕ → Bool × (List ℕ × List ℕ)
read_all n file = (leb n (length file), (take n file, drop n file))

-- An integer from its bytes in memory.
abbrev pub word_of : List ℕ → ℕ
word_of (a ∷ b ∷ c ∷ d ∷ rest) = a + b * 2 ^ 8 + c * 2 ^ 16 + d * 2 ^ 24
word_of other = 0

-- The masked bytes are apart, so that `|` adds them up.
unfoldable pub swap32 : ℕ → ℕ
swap32 v = v / 2 ^ 24 % 256 + v / 2 ^ 16 % 256 * 2 ^ 8 + v / 2 ^ 8 % 256 * 2 ^ 16 + v % 256 * 2 ^ 24

-- The checks of the global header. Nothing resets the member `mSwap`.
abbrev pub check_header : PcapReceiver → Bool × (List ℕ × List ℕ) → ReceiverErr × PcapReceiver
check_header r (ok, (header, rest)) =
    if not ok
    then (receiver_err_open_failed, record { is_open = false; swap = r.swap; rest = rest })
    else if word_of header == pcap_magic_be
    then (receiver_success, record { is_open = true; swap = true; rest = rest })
    else if not (word_of header == pcap_magic_le)
    then (receiver_err_open_failed, record { is_open = false; swap = r.swap; rest = rest })
    else (receiver_success, record { is_open = true; swap = r.swap; rest = rest })

-- `open` on the bytes of the file, none if it cannot be opened.
unfoldable pub open_pcap_receiver : Option (List ℕ) → PcapReceiver → ReceiverErr × PcapReceiver
unfolding read_all
open_pcap_receiver none r =
    (receiver_err_open_failed, record { is_open = false; swap = r.swap; rest = r.rest })
open_pcap_receiver (some file) r = check_header r (read_all 24 file)

-- `packet.resize(n)`.
unfoldable pub resize : ℕ → List ℕ → List ℕ
resize zero packet = []
resize (suc n) [] = 0 ∷ resize n []
resize (suc n) (b ∷ packet) = b ∷ resize n packet

-- `inclLen`, from the header of a record.
abbrev pub announced : Bool → List ℕ → ℕ
announced swap header = if swap then swap32 (word_of (drop 8 header)) else word_of (drop 8 header)

-- The bytes of a packet over the caller's, resized; they are fewer if the file ends before.
abbrev pub filled :
    Bool → ℕ → List ℕ → Bool × (List ℕ × List ℕ) → ReceiverErr × (List ℕ × PcapReceiver)
filled swap incl_len packet (all, (bytes, rest)) = (
  (if all then receiver_success else receiver_err_recv_failed),
  (
    bytes ++ drop (length bytes) (resize incl_len packet),
    record { is_open = true; swap = swap; rest = rest },
  ),
)

unfoldable pub read_packet : Bool → ℕ → List ℕ → List ℕ → ReceiverErr × (List ℕ × PcapReceiver)
unfolding read_all
read_packet swap incl_len rest packet =
    if incl_len == 0
    then (receiver_success, ([], record { is_open = true; swap = swap; rest = rest }))
    else filled swap incl_len packet (read_all incl_len rest)

abbrev pub after_header :
    Bool → List ℕ → Bool × (List ℕ × List ℕ) → ReceiverErr × (List ℕ × PcapReceiver)
after_header swap packet (ok, (header, rest)) =
    if not ok
    then (receiver_err_eof, (packet, record { is_open = true; swap = swap; rest = rest }))
    else read_packet swap (announced swap header) rest packet

-- `receive`: the error, the caller's packet and the receiver after the call.
unfoldable pub receive_pcap : PcapReceiver → List ℕ → ReceiverErr × (List ℕ × PcapReceiver)
unfolding read_packet
receive_pcap r packet =
    if not r.is_open
    then (receiver_err_not_open, (packet, r))
    else after_header r.swap packet (read_all 16 r.rest)

abbrev pub close_pcap_receiver : PcapReceiver → PcapReceiver
close_pcap_receiver r = record { is_open = false; swap = r.swap; rest = r.rest }
