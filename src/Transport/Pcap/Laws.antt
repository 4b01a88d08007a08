-- ===== src/Transport/Pcap/Laws.antt =====
-- What `PcapSender` writes is what `PcapReceiver` reads.
use tsn_gen.Prelude.{
  ℕ, zero, suc, ◌/◌, ◌%◌, ◌^◌, ◌<◌, ◌==◌, le→leb, ◌≡◌, refl, sym, ap, ap₂, ◌∙◌, arith, Bool, true,
  false, List, [], ◌∷◌, ◌++◌, append-nil, map, if◌then◌else◌, length, length-append, take-append,
  drop-append, drop-beyond, All,
}
use tsn_gen.Bits.{u32}
use tsn_gen.Transport.{receiver_success, receiver_err_eof}
use tsn_gen.Transport.Pcap.{
  le32, PcapReceiver, read_all, word_of, swap32, resize, receive_pcap, filled, read_packet,
  after_header, announced,
}

-- The bytes of an integer in the other order.
abbrev pub be32 : ℕ → List ℕ
be32 v = v / 2 ^ 24 % 256 ∷ v / 2 ^ 16 % 256 ∷ v / 2 ^ 8 % 256 ∷ v % 256 ∷ []

pub word_of-le32 : (v : ℕ) → v < 2 ^ 32 → word_of (le32 v) ≡ v
word_of-le32 v h = omega arith

swap32-bytes :
    (a b c d : ℕ)
    → a < 256
    → b < 256
    → c < 256
    → d < 256
    → swap32 (word_of (a ∷ b ∷ c ∷ d ∷ [])) ≡ word_of (d ∷ c ∷ b ∷ a ∷ [])
unfolding swap32
swap32-bytes a b c d ha hb hc hd = omega arith

length-resize : (n : ℕ) (packet : List ℕ) → length (resize n packet) ≡ n
unfolding resize
length-resize zero packet = refl
length-resize (suc n) [] = ap suc (length-resize n [])
length-resize (suc n) (b ∷ packet) = ap suc (length-resize n packet)

pub read_all-append :
    (xs ys : List ℕ) (n : ℕ) → n ≡ length xs → read_all n (xs ++ ys) ≡ (true, (xs, ys))
unfolding read_all
read_all-append xs ys n e =
    ap₂ (λ (b : Bool) (p : List ℕ × List ℕ). (b, p))
      (le→leb n (length (xs ++ ys)) (let sum = length-append xs ys in omega arith))
      (ap₂ (λ (a b : List ℕ). (a, b)) (take-append xs ys n e) (drop-append xs ys n e))

read_all-short : (n : ℕ) (xs : List ℕ) → length xs < n → (read_all n xs).0 ≡ false
unfolding read_all
read_all-short n xs h = ground arith

read_packet-nonempty :
    (swap : Bool) (n : ℕ) (rest old : List ℕ)
    → 0 < n
    → read_packet swap n rest old ≡ filled swap n old (read_all n rest)
unfolding read_packet
read_packet-nonempty swap n rest old h =
    let some_bytes : (n == 0) ≡ false = ground arith in
    ap
      (λ (b : Bool).
        if b
        then (receiver_success, ([], record { is_open = true; swap = swap; rest = rest }))
        else filled swap n old (read_all n rest))
      some_bytes

read_packet-all :
    (swap : Bool) (packet more old : List ℕ)
    → read_packet swap (length packet) (packet ++ more) old
      ≡ (receiver_success, (packet, record { is_open = true; swap = swap; rest = more }))
unfolding read_packet
read_packet-all swap [] more old = refl
read_packet-all swap (b ∷ packet) more old =
    let n = suc (length packet) in
    read_packet-nonempty swap n ((b ∷ packet) ++ more) old (omega arith)
    ∙ ap (filled swap n old) (read_all-append (b ∷ packet) more n refl)
    ∙ ap
        (λ (bytes : List ℕ).
          (receiver_success, (bytes, record { is_open = true; swap = swap; rest = more })))
        (ap (λ (xs : List ℕ). (b ∷ packet) ++ xs)
            (drop-beyond (resize n old) n (let e = length-resize n old in omega arith))
          ∙ append-nil (b ∷ packet))

no_record-eof :
    (swap : Bool) (old : List ℕ)
    → (receive_pcap (record { is_open = true; swap = swap; rest = [] }) old).0 ≡ receiver_err_eof
unfolding receive_pcap read_all
no_record-eof swap old = refl

receive_pcap-record :
    (swap : Bool) (header packet more old : List ℕ)
    → length header ≡ 16
    → announced swap header ≡ length packet
    → receive_pcap (record { is_open = true; swap = swap; rest = header ++ (packet ++ more) }) old
      ≡ (receiver_success, (packet, record { is_open = true; swap = swap; rest = more }))
unfolding receive_pcap
receive_pcap-record swap header packet more old h e =
    ap (after_header swap old) (read_all-append header (packet ++ more) 16 (sym h))
    ∙ ap (λ (n : ℕ). read_packet swap n (packet ++ more) old) e
    ∙ read_packet-all swap packet more old

-- A replay at this place yields the packets in order, whatever the caller's packet is, and then the end.
abbrev pub Delivers : PcapReceiver → List (List ℕ) → Type 0
Delivers r [] = (old : List ℕ) → (receive_pcap r old).0 ≡ receiver_err_eof
Delivers r (packet ∷ packets) =
    (old : List ℕ)
    → (r' : PcapReceiver) × (receive_pcap r old ≡ (receiver_success, (packet, r')))
      × Delivers r' packets

-- A time and a packet.
abbrev pub Stamped : Type 0
Stamped = (ℕ × ℕ) × List ℕ

-- An integer in the order of the machine, or in the other one.
abbrev pub word_in : Bool → ℕ → List ℕ
word_in false v = le32 v
word_in true v = be32 v

abbrev pub header_in : Bool → ℕ × ℕ → ℕ → List ℕ
header_in swap time len =
    word_in swap (u32 time.0)
    ++ word_in swap (u32 (time.1 / 1000))
    ++ word_in swap len
    ++ word_in swap len

-- The records of a capture in an order of the bytes.
unfoldable pub records : Bool → List Stamped → List ℕ
records swap [] = []
records swap ((time, packet) ∷ ps) =
    header_in swap time (length packet) ++ (packet ++ records swap ps)

-- Packets that a header can announce.
abbrev pub AllShort : List Stamped → Type 0
AllShort ps = All (λ p. length p.1 < 2 ^ 32) ps

pub length-header_in :
    (swap : Bool) (time : ℕ × ℕ) (len : ℕ) → length (header_in swap time len) ≡ 16
length-header_in false time len = refl
length-header_in true time len = refl

announced-header_in :
    (swap : Bool) (time : ℕ × ℕ) (len : ℕ)
    → len < 2 ^ 32
    → announced swap (header_in swap time len) ≡ len
announced-header_in false time len h = word_of-le32 len h
announced-header_in true time len h =
    swap32-bytes (len / 2 ^ 24 % 256) (len / 2 ^ 16 % 256) (len / 2 ^ 8 % 256) (len % 256)
      (omega arith) (omega arith) (omega arith) (omega arith)
    ∙ word_of-le32 len h

pub records-Delivers :
    (swap : Bool) (ps : List Stamped)
    → AllShort ps
    → Delivers (record { is_open = true; swap = swap; rest = records swap ps }) (map (λ p. p.1) ps)
unfolding records
records-Delivers swap [] h = λ old. no_record-eof swap old
records-Delivers swap ((time, packet) ∷ ps) h = λ old. (
  record { is_open = true; swap = swap; rest = records swap ps },
  receive_pcap-record swap (header_in swap time (length packet)) packet (records swap ps) old
      (length-header_in swap time (length packet))
      (announced-header_in swap time (length packet) h.0),
  records-Delivers swap ps h.1,
)
