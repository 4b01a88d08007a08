-- ===== src/Transport/Pcap/Capture.antt =====
-- The file that `PcapSender` leaves, and its replay by `PcapReceiver`.
use tsn_gen.Prelude.{
  ℕ, ◌+◌, ◌-◌, ◌/◌, ◌^◌, ◌<◌, ◌≤◌, le→leb, ◌≡◌, refl, sym, ap, ap₂, ◌∙◌, subst, arith, Bool, true,
  false, ◌&&◌, List, [], ◌∷◌, ◌++◌, append-nil, append_assoc, some, map, if◌then◌else◌, length,
}
use tsn_gen.Bits.{u32}
use tsn_gen.Traffic.{SenderErr, sender_success, sender_err_open_failed, is_sent}
use tsn_gen.Transport.{ReceiverErr, receiver_success}
use tsn_gen.Transport.Pcap.{
  le32, pcap_magic_le, global_header, packet_header, Disk, write_all, PcapSender, open_pcap_sender,
  send_pcap, written, write_packet, PcapReceiver, open_pcap_receiver, check_header,
}
use tsn_gen.Transport.Pcap.Laws.{
  be32, Stamped, records, header_in, AllShort, Delivers, records-Delivers, read_all-append,
}

-- The calls of `send` one after the other: whether all of them succeed, and the sender afterwards.
unfoldable pub send_each : List Stamped → PcapSender → Bool × PcapSender
send_each [] s = (true, s)
send_each ((time, packet) ∷ ps) s =
    let (err, s') = send_pcap time packet s in
    let (all, s'') = send_each ps s' in (is_sent err && all, s'')

-- The bytes that a capture takes after its header.
unfoldable pub capture_size : List Stamped → ℕ
capture_size [] = 0
capture_size (p ∷ ps) = 16 + length p.1 + capture_size ps

write_all-room :
    (bytes file : List ℕ) (room : ℕ)
    → length bytes ≤ room
    → write_all bytes (record { file = file; room = room })
      ≡ (true, record { file = file ++ bytes; room = room - length bytes })
unfolding write_all
write_all-room bytes file room h = rw (le→leb (length bytes) room h) refl

abbrev pub recorder : List ℕ → ℕ → PcapSender
recorder file room = record { is_open = true; disk = record { file = file; room = room } }

packet_header-header_in :
    (time : ℕ × ℕ) (len : ℕ)
    → len < 2 ^ 32
    → packet_header (u32 time.0) (u32 (time.1 / 1000)) (u32 len) (u32 len)
      ≡ header_in false time len
unfolding packet_header
packet_header-header_in time len h =
    let same : u32 len ≡ len = omega arith in
    ap (λ (n : ℕ). le32 (u32 time.0) ++ le32 (u32 (time.1 / 1000)) ++ le32 n ++ le32 n) same

pub send_pcap-record :
    (time : ℕ × ℕ) (packet file : List ℕ) (room : ℕ)
    → length packet < 2 ^ 32
    → 16 + length packet ≤ room
    → send_pcap time packet (recorder file room) ≡ (
      sender_success,
      recorder
          (file ++ (header_in false time (length packet) ++ packet))
          (room - (16 + length packet)),
    )
unfolding send_pcap
send_pcap-record time packet file room short h =
    let header = header_in false time (length packet) in
    ap (λ (b : List ℕ). write_packet packet (write_all b (record { file = file; room = room })))
      (packet_header-header_in time (length packet) short)
    ∙ ap (write_packet packet) (write_all-room header file room (omega arith))
    ∙ ap written (write_all-room packet (file ++ header) (room - 16) (omega arith))
    ∙ ap₂ (λ (f : List ℕ) (n : ℕ). (sender_success, recorder f n)) (append_assoc file header packet)
        (omega arith)

-- What a run of `send` leaves in a file with enough room.
send_each-records :
    (ps : List Stamped) (file : List ℕ) (room : ℕ)
    → AllShort ps
    → capture_size ps ≤ room
    → send_each ps (recorder file room)
      ≡ (true, recorder (file ++ records false ps) (room - capture_size ps))
unfolding send_each records capture_size
send_each-records [] file room short h =
    ap₂ (λ (f : List ℕ) (n : ℕ). (true, recorder f n)) (sym (append-nil file)) (omega arith)
send_each-records ((time, packet) ∷ ps) file room short h =
    let header = header_in false time (length packet) in
    let step = send_pcap-record time packet file room short.0 (omega arith) in
    let rest =
      send_each-records ps (file ++ (header ++ packet)) (room - (16 + length packet)) short.1
        (omega arith) in
    ap (λ (r : SenderErr × PcapSender). (is_sent r.0 && (send_each ps r.1).0, (send_each ps r.1).1))
      step
    ∙ rest
    ∙ ap₂ (λ (f : List ℕ) (n : ℕ). (true, recorder f n))
        (append_assoc file (header ++ packet) (records false ps)
          ∙ ap (λ (b : List ℕ). file ++ b) (append_assoc header packet (records false ps)))
        (omega arith)

abbrev pub opened : List ℕ → Bool → PcapReceiver
opened rest swap = record { is_open = true; swap = swap; rest = rest }

pub open_pcap_sender-header :
    (room : ℕ) (s : PcapSender)
    → 24 ≤ room
    → open_pcap_sender (some room) s ≡ (sender_success, recorder global_header (room - 24))
unfolding open_pcap_sender global_header
open_pcap_sender-header room s h =
    ap
      (λ (r : Bool × Disk). (
        (if r.0 then sender_success else sender_err_open_failed),
        record { is_open = r.0; disk = r.1 },
      ))
      (write_all-room global_header [] room h)

length-global_header : 24 ≡ length global_header
unfolding global_header
length-global_header = refl

check_header-native :
    (rest : List ℕ) (r : PcapReceiver)
    → check_header r (true, (global_header, rest)) ≡ (receiver_success, opened rest r.swap)
unfolding global_header
check_header-native rest r = refl

pub open_pcap_receiver-header :
    (rest : List ℕ) (r : PcapReceiver)
    → open_pcap_receiver (some (global_header ++ rest)) r ≡ (receiver_success, opened rest r.swap)
unfolding open_pcap_receiver
open_pcap_receiver-header rest r =
    ap (check_header r) (read_all-append global_header rest 24 length-global_header)
    ∙ check_header-native rest r

-- If packets of less than 2 ^ 32 bytes each are sent to an open `PcapSender` with room for them
-- all, each `send` succeeds, and a `PcapReceiver` that does not swap opens the file and yields the
-- packets in order, and then the end of the file.
pub open_pcap_receiver-send_each :
    (ps : List Stamped) (room : ℕ) (s : PcapSender) (r : PcapReceiver)
    → AllShort ps
    → 24 + capture_size ps ≤ room
    → r.swap ≡ false
    → let sender = (open_pcap_sender (some room) s).1 in
      let sent = send_each ps sender in
      let replay = open_pcap_receiver (some sent.1.disk.file) r in
      (sent.0 ≡ true) × (replay.0 ≡ receiver_success) × Delivers replay.1 (map (λ p. p.1) ps)
open_pcap_receiver-send_each ps room s r short enough plain =
    subst
      (λ (sender : PcapSender).
        ((send_each ps sender).0 ≡ true)
        × ((open_pcap_receiver (some (send_each ps sender).1.disk.file) r).0 ≡ receiver_success)
        × Delivers (open_pcap_receiver (some (send_each ps sender).1.disk.file) r).1
            (map (λ p. p.1) ps))
      (sym
        (ap (λ (x : SenderErr × PcapSender). x.1) (open_pcap_sender-header room s (omega arith))))
      (subst
        (λ (sent : Bool × PcapSender).
          (sent.0 ≡ true)
          × ((open_pcap_receiver (some sent.1.disk.file) r).0 ≡ receiver_success)
          × Delivers (open_pcap_receiver (some sent.1.disk.file) r).1 (map (λ p. p.1) ps))
        (sym (send_each-records ps global_header (room - 24) short (omega arith)))
        (refl, replayed.0, replayed.1))
  where
    replayed :
        ((open_pcap_receiver (some (global_header ++ records false ps)) r).0 ≡ receiver_success)
        × Delivers
            (open_pcap_receiver (some (global_header ++ records false ps)) r).1
            (map (λ p. p.1) ps)
    replayed =
        subst
          (λ (x : ReceiverErr × PcapReceiver).
            (x.0 ≡ receiver_success) × Delivers x.1 (map (λ p. p.1) ps))
          (sym (open_pcap_receiver-header (records false ps) r))
          (
            refl,
            subst (λ (b : Bool). Delivers (opened (records false ps) b) (map (λ p. p.1) ps))
                (sym plain) (records-Delivers false ps short),
          )

-- A `PcapReceiver` opens a capture in the other byte order, its 24-byte header beginning with the
-- swapped magic, and yields its packets in order if each is shorter than 2 ^ 32 bytes, and then
-- the end of the file.
pub open_pcap_receiver-records :
    (fields : List ℕ) (ps : List Stamped) (r : PcapReceiver)
    → length fields ≡ 20
    → AllShort ps
    → let replay =
        open_pcap_receiver (some ((be32 pcap_magic_le ++ fields) ++ records true ps)) r in
      (replay.0 ≡ receiver_success) × Delivers replay.1 (map (λ p. p.1) ps)
unfolding open_pcap_receiver
open_pcap_receiver-records fields ps r h short =
    subst
      (λ (x : ReceiverErr × PcapReceiver).
        (x.0 ≡ receiver_success) × Delivers x.1 (map (λ p. p.1) ps))
      (sym (
        ap (check_header r)
          (read_all-append (be32 pcap_magic_le ++ fields) (records true ps) 24 (omega arith))))
      (refl, records-Delivers true ps short)
