-- ===== src/CommandLine/Stream.antt =====
-- The loops of `main` (traffic-gen/tools/packet_gen_main.cpp) over a receiver and over a sender. A run
-- is the lines that it prints, the way it ends and the transport that it leaves; what goes to the
-- standard error is left out. With a count of 0 a loop has no end of its own, so its rounds are
-- bounded by fuel: a run whose fuel is over is still running.
use tsn_gen.Prelude.{
  Text, ℕ, zero, suc, ◌+◌, ◌==◌, ltb, Bool, true, false, not, ◌||◌, List, [], ◌∷◌, ◌++◌, Option,
  none, some, if◌then◌else◌,
}
use tsn_gen.Packet.Builder.{is_nil}
use tsn_gen.Traffic.{Sender, is_sent}
use tsn_gen.Transport.{ReceiverErr, receiver_success, receiver_err_eof, Receiver}

-- The way a run ends: with an exit code, by an exception, or not yet.
pub data Ending : Type 0 where
  exits : ℕ → Ending
  throws running : Ending

pub record Trace (S : Type 0) : Type 0 where
  pub printed : List Text
  pub exit : Ending
  pub state : S

module _ {S : Type 0} where
  abbrev pub ended : Ending → S → Trace S
  ended exit s = record { printed = []; exit = exit; state = s }

  abbrev pub after_lines : List Text → Trace S → Trace S
  after_lines lines run = record {
    printed = lines ++ run.printed;
    exit = run.exit;
    state = run.state;
  }

-- `args.count == 0 || n < args.count`.
abbrev pub goes_on : ℕ → ℕ → Bool
goes_on count n = count == 0 || ltb n count

abbrev pub is_received : ReceiverErr → Bool
is_received receiver_success = true
is_received err = false

-- The exit code of a loop that this answer ends.
abbrev pub end_code : ReceiverErr → ℕ
end_code receiver_err_eof = 0
end_code err = 2

module _ (receiver : Receiver) {D : Type 0} (decode_and_print : List ℕ → D → Text × D) where
  open receiver use {State, open_receiver, receive_packet, close_receiver}

  -- The loop over the packets that are received, `n` printed so far. An empty packet is passed over.
  unfoldable pub stream_loop : ℕ → ℕ → ℕ → D → State → Trace State
  stream_loop zero count n d s = ended running s
  stream_loop (suc fuel) count n d s =
      let (err, (pkt, s')) = receive_packet s [] in
      let (line, d') = decode_and_print pkt d in
      let skip = is_nil pkt in
      let rest = stream_loop fuel count (if skip then n else n + 1) (if skip then d else d') s' in
      if not (goes_on count n)
      then ended (exits 0) (close_receiver s)
      else if is_received err
      then after_lines (if skip then [] else line ∷ []) rest
      else ended (exits (end_code err)) (close_receiver s')

  -- From `open` on; none is the null pointer.
  unfoldable pub decode_stream : ℕ → ℕ → D → Option State → Trace (Option State)
  unfolding stream_loop
  decode_stream fuel count d none = ended (exits 1) none
  decode_stream fuel count d (some s) =
      let (err, s') = open_receiver s in
      let run = stream_loop fuel count 0 d s' in
      if is_received err
      then record { printed = run.printed; exit = run.exit; state = some run.state }
      else ended (exits 2) (some s')

-- What a packet is printed as, if it is, and its bytes.
abbrev pub Stage : Type 0
Stage = List Text × List ℕ

-- What a round prints at first, and its packets.
pub record Round : Type 0 where
  pub heading : List Text
  pub stages : List Stage

module _ (sender : Sender) where
  open sender use {State, open_sender, send_packet, close_sender}

  -- `sendOrFail`; without a sender every packet is as good as sent.
  unfoldable pub send_or_fail : List ℕ → Option State → Bool × Option State
  send_or_fail bytes none = (true, none)
  send_or_fail bytes (some s) = let (err, s') = send_packet bytes s in (is_sent err, some s')

  -- `if (sender) sender->close()`.
  abbrev pub close_any : Option State → Option State
  close_any none = none
  close_any (some s) = some (close_sender s)

  -- Each packet of a round is printed and sent: whether all are sent, what is printed, the sender.
  unfoldable pub stage_loop : List Stage → Option State → Bool × (List Text × Option State)
  unfolding send_or_fail
  stage_loop [] s = (true, ([], s))
  stage_loop ((lines, bytes) ∷ stages) s =
      let (ok, s') = send_or_fail bytes s in
      let (all, (more, s'')) = stage_loop stages s' in
      if ok then (all, (lines ++ more, s'')) else (false, (lines, s'))

  module _ {Engine : Type 0} (next_round : Engine → Round × Engine) where
    -- The rounds from number `round` on.
    unfoldable pub round_loop : ℕ → ℕ → ℕ → Engine → Option State → Trace (Option State)
    unfolding stage_loop
    round_loop zero count round rng s = ended running s
    round_loop (suc fuel) count round rng s =
        let (packets, rng') = next_round rng in
        let (ok, (lines, s')) = stage_loop packets.stages s in
        let rest = round_loop fuel count (round + 1) rng' s' in
        if not (goes_on count round)
        then ended (exits 0) (close_any s)
        else if ok
        then after_lines (packets.heading ++ lines) rest
        else after_lines (packets.heading ++ lines) (ended (exits 2) (close_any s'))

    -- From `open` on: the engine is seeded before the first round.
    unfoldable pub generate_stream : ℕ → ℕ → Engine → Option State → Trace (Option State)
    unfolding round_loop
    generate_stream fuel count rng none = round_loop fuel count 0 rng none
    generate_stream fuel count rng (some s) =
        let (err, s') = open_sender s in
        let run = round_loop fuel count 0 rng (some s') in
        if is_sent err then run else ended (exits 2) (some s')
