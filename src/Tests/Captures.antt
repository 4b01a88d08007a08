-- ===== src/Tests/Captures.antt =====
-- Examples of captures.
use tsn_gen.Prelude.{ℕ, ◌≡◌, refl, arith, Bool, true, false, List, [], ◌∷◌, some}
use tsn_gen.Transport.{receiver_success}
use tsn_gen.Transport.Pcap.{PcapSender, PcapReceiver, open_pcap_sender, open_pcap_receiver}
use tsn_gen.Transport.Pcap.Laws.{Stamped, Delivers}
use tsn_gen.Transport.Pcap.Capture.{send_each, capture_size, open_pcap_receiver-send_each}

abbrev two : List Stamped
two = ((1, 2000), 17 ∷ 34 ∷ []) ∷ ((5, 999), []) ∷ []

abbrev sender : PcapSender
sender = record { is_open = false; disk = record { file = 9 ∷ []; room = 3 } }

abbrev receiver : PcapReceiver
receiver = record { is_open = false; swap = false; rest = [] }

abbrev sent : Bool × PcapSender
sent = send_each two (open_pcap_sender (some 100) sender).1

open_pcap_receiver-send_each_example :
    (sent.0 ≡ true)
    × ((open_pcap_receiver (some sent.1.disk.file) receiver).0 ≡ receiver_success)
    × Delivers (open_pcap_receiver (some sent.1.disk.file) receiver).1 ((17 ∷ 34 ∷ []) ∷ [] ∷ [])
unfolding capture_size
open_pcap_receiver-send_each_example =
    open_pcap_receiver-send_each two 100 sender receiver (omega arith, (omega arith, tt))
      (omega arith) refl

abbrev zeros : List ℕ
zeros = 0 ∷ 2 ∷ 0 ∷ 4 ∷ 0 ∷ 0 ∷ 0 ∷ 0 ∷ 0 ∷ 0 ∷ 0 ∷ 0 ∷ 0 ∷ 0 ∷ 255 ∷ 255 ∷ 0 ∷ 0 ∷ 0 ∷ 1 ∷ []
