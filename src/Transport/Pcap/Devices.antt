-- ===== src/Transport/Pcap/Devices.antt =====
-- `PcapSender` and `PcapReceiver` as an `ISender` and an `IReceiver`: the times that `clock_gettime`
-- reads, the room on the disk and the file that is opened are parameters.
use tsn_gen.Prelude.{ℕ, ◌+◌, List, [], ◌∷◌, Option}
use tsn_gen.Traffic.{Sender}
use tsn_gen.Transport.{Receiver}
use tsn_gen.Transport.Pcap.{
  PcapSender, open_pcap_sender, send_pcap, close_pcap_sender, PcapReceiver, open_pcap_receiver,
  receive_pcap, close_pcap_receiver,
}
use tsn_gen.Transport.Pcap.Laws.{Stamped}

-- The state counts the reads of the clock.
abbrev pub pcap_sender : (ℕ → ℕ × ℕ) → Option ℕ → Sender
pcap_sender clock room = record {
  State = ℕ × PcapSender;
  open_sender = λ s. let (err, s') = open_pcap_sender room s.1 in (err, (s.0, s'));
  send_packet =
      λ packet s. let (err, s') = send_pcap (clock s.0) packet s.1 in (err, (s.0 + 1, s'));
  close_sender = λ s. (s.0, close_pcap_sender s.1);
}

abbrev pub pcap_receiver : Option (List ℕ) → Receiver
pcap_receiver file = record {
  State = PcapReceiver;
  open_receiver = open_pcap_receiver file;
  receive_packet = receive_pcap;
  close_receiver = close_pcap_receiver;
}

-- The packets with the times at which they are sent, after `k` others.
unfoldable pub stamps : (ℕ → ℕ × ℕ) → ℕ → List (List ℕ) → List Stamped
stamps clock k [] = []
stamps clock k (packet ∷ packets) = (clock k, packet) ∷ stamps clock (k + 1) packets
