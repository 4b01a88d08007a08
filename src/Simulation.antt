-- ===== src/Simulation.antt =====
-- `AxisBridge` (sim/inc/axis_bridge.h, sim/src/axis_bridge.cpp), the SystemC module between the ns-3
-- device and the DUT, as its two threads step from one rising edge of the clock to the next. What the
-- DUT drives is an input of each edge: whether it is ready, or what it presents. The signals that a
-- beat is presented on are an `AxiStreamBeat`. A place of the FIFO is filled and freed at once.
pub mod Bridge
pub mod Loopback
pub mod Drain
use tsn_gen.Prelude.{
  ℕ, zero, suc, ◌+◌, ◌==◌, leb, ltb, Bool, true, false, not, List, [], ◌∷◌, ◌++◌, Option, none,
  some, if◌then◌else◌, length,
}
use tsn_gen.Packet.Builder.{is_nil}
use tsn_gen.Transport.{AxiStreamBeat, make_beat, chunk_size, keep_loop}

-- Where `tx_thread` waits: for a packet, for the DUT to accept the beat at an offset, or for the end
-- of an idle cycle.
pub data TxPhase : Type 0 where
  waiting idle : TxPhase
  driving : List ℕ → ℕ → TxPhase

pub record TxSide : Type 0 where
  pub phase : TxPhase
  pub tx_fifo : List (List ℕ)

-- A packet that was read from the FIFO: a beat is presented, if there is one.
abbrev pub present : List ℕ → ℕ → TxPhase
present packet offset = if ltb offset (length packet) then driving packet offset else idle

-- `tx_fifo.read`.
abbrev pub read_fifo : List (List ℕ) → TxSide
read_fifo [] = record { phase = waiting; tx_fifo = [] }
read_fifo (packet ∷ packets) = record { phase = present packet 0; tx_fifo = packets }

-- The thread starts with an idle cycle.
abbrev pub tx_start : TxSide
tx_start = record { phase = idle; tx_fifo = [] }

-- A thread that waits for a packet takes it between two edges.
abbrev pub wake : TxPhase → List (List ℕ) → TxSide
wake waiting packets = read_fifo packets
wake idle packets = record { phase = idle; tx_fifo = packets }
wake (driving packet offset) packets = record { phase = driving packet offset; tx_fifo = packets }

-- `push_tx_packet`: the FIFO has four places.
unfoldable pub push_tx_packet : List ℕ → TxSide → Bool × TxSide
push_tx_packet pkt s =
    if leb 4 (length s.tx_fifo) then (false, s) else (true, wake s.phase (s.tx_fifo ++ pkt ∷ []))

-- A rising edge at which the DUT is ready or not: the beat that it accepts. A beat that is not
-- accepted is held.
abbrev pub edge_of : TxPhase → List (List ℕ) → Bool → Option AxiStreamBeat × TxSide
edge_of waiting packets tready = (none, record { phase = waiting; tx_fifo = packets })
edge_of idle packets tready = (none, read_fifo packets)
edge_of (driving packet offset) packets tready =
    if tready
    then (
      some (make_beat packet offset),
      record { phase = present packet (offset + chunk_size packet offset); tx_fifo = packets },
    )
    else (none, record { phase = driving packet offset; tx_fifo = packets })

unfoldable pub tx_edge : Bool → TxSide → Option AxiStreamBeat × TxSide
unfolding make_beat
tx_edge tready s = edge_of s.phase s.tx_fifo tready

-- The packet of `rx_thread` so far, and whether its last beat was seen at the last edge.
pub record RxSide : Type 0 where
  pub packet : List ℕ
  pub last : Bool

abbrev pub rx_start : RxSide
rx_start = record { packet = []; last = false }

-- The packet that the beats from here on belong to.
abbrev pub open_packet : RxSide → List ℕ
open_packet s = if s.last then [] else s.packet

-- What `on_rx` is called with at the edge after the last beat.
abbrev pub finished : RxSide → List (List ℕ)
finished s = if s.last then s.packet ∷ [] else []

-- A rising edge at which the DUT presents a beat or none.
unfoldable pub rx_edge : Option AxiStreamBeat → RxSide → List (List ℕ) × RxSide
rx_edge none s = (finished s, record { packet = open_packet s; last = false })
rx_edge (some beat) s = (
  finished s,
  record { packet = keep_loop 8 0 beat (open_packet s); last = not (beat.tlast == 0) },
)

-- What happens to the bridge: ns-3 pushes a packet, or the clock rises.
pub data BridgeEvent : Type 0 where
  push : List ℕ → BridgeEvent
  edge : Bool → BridgeEvent

-- The packets that were taken and what the DUT accepted at each edge.
unfoldable pub tx_run :
    List BridgeEvent → TxSide → (List (List ℕ) × List (Option AxiStreamBeat)) × TxSide
unfolding push_tx_packet tx_edge
tx_run [] s = (([], []), s)
tx_run (push pkt ∷ events) s =
    let (ok, s') = push_tx_packet pkt s in
    let ((pushed, beats), s'') = tx_run events s' in
    ((if ok then pkt ∷ pushed else pushed, beats), s'')
tx_run (edge tready ∷ events) s =
    let (beat, s') = tx_edge tready s in
    let ((pushed, beats), s'') = tx_run events s' in ((pushed, beat ∷ beats), s'')

-- The packets that `on_rx` is called with over these edges.
unfoldable pub rx_run : List (Option AxiStreamBeat) → RxSide → List (List ℕ) × RxSide
unfolding rx_edge
rx_run [] s = ([], s)
rx_run (beat ∷ beats) s =
    let (out, s') = rx_edge beat s in let (more, s'') = rx_run beats s' in (out ++ more, s'')
