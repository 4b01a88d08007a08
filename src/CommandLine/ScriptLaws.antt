-- ===== src/CommandLine/ScriptLaws.antt =====
-- The rounds of `main` are the script: counted, or without an end.
use tsn_gen.Prelude.{
  Text, ℕ, zero, suc, ◌+◌, ◌<◌, ◌≡◌, refl, sym, ap, ◌∙◌, arith, true, false, List, ◌++◌,
  append_assoc, append-nil, Option, none, some, if◌then◌else◌,
}
use tsn_gen.Traffic.{Sender, sender_success}
use tsn_gen.CommandLine.Stream.{
  exits, running, Trace, ended, after_lines, goes_on, Round, close_any, stage_loop, round_loop,
  generate_stream,
}
use tsn_gen.CommandLine.Script.{
  prints, stage_events, round_events, script, Performed, add_lines, perform, then_do,
  perform-append, perform-prints, stage_loop-perform,
}

module _ (sender : Sender) where
  open sender use {State, open_sender}

  -- The run that performs this, and goes on like `k` if everything is sent.
  abbrev finish : (Option State → Trace (Option State)) → Performed sender → Trace (Option State)
  finish k (true, (lines, s)) = after_lines lines (k s)
  finish k (false, (lines, s)) = after_lines lines (ended (exits 2) (close_any sender s))

  after_lines-after_lines :
      (lines more : List Text) (run : Trace (Option State))
      → after_lines lines (after_lines more run) ≡ after_lines (lines ++ more) run
  after_lines-after_lines lines more run =
      ap (λ (l : List Text). record { printed = l; exit = run.exit; state = run.state })
        (sym (append_assoc lines more run.printed))

  finish-add_lines :
      (k : Option State → Trace (Option State)) (lines : List Text) (p : Performed sender)
      → after_lines lines (finish k p) ≡ finish k (add_lines sender lines p)
  finish-add_lines k lines (true, (more, s)) = after_lines-after_lines lines more (k s)
  finish-add_lines k lines (false, (more, s)) =
      after_lines-after_lines lines more (ended (exits 2) (close_any sender s))

  finish-then_do :
      (k : Option State → Trace (Option State)) (next : Option State → Performed sender)
      → (rest : Option State → Trace (Option State))
      → ((s : Option State) → rest s ≡ finish k (next s))
      → (p : Performed sender) → finish rest p ≡ finish k (then_do sender next p)
  finish-then_do k next rest h (true, (lines, s)) =
      ap (after_lines lines) (h s) ∙ finish-add_lines k lines (next s)
  finish-then_do k next rest h (false, (lines, s)) = refl

  perform-round_events :
      (r : Round) (s : Option State)
      → add_lines sender r.heading (stage_loop sender r.stages s)
        ≡ perform sender (round_events r) s
  perform-round_events r s =
      ap (add_lines sender r.heading) (stage_loop-perform sender r.stages s)
      ∙ sym (
          perform-append sender (prints r.heading) (stage_events r.stages) s
          ∙ ap (then_do sender (perform sender (stage_events r.stages)))
              (perform-prints sender r.heading s))

  module _ {Engine : Type 0} (next_round : Engine → Round × Engine) where
    round_loop_over :
        (fuel count round : ℕ) (rng : Engine) (s : Option State)
        → goes_on count round ≡ false
        → round_loop sender next_round (suc fuel) count round rng s
          ≡ ended (exits 0) (close_any sender s)
    unfolding round_loop
    round_loop_over fuel count round rng s h = rw h refl

    round_loop_step :
        (fuel count round : ℕ) (rng : Engine) (s : Option State)
        → goes_on count round ≡ true
        → let (packets, rng') = next_round rng in
          round_loop sender next_round (suc fuel) count round rng s
          ≡ finish
              (round_loop sender next_round fuel count (round + 1) rng')
              (add_lines sender packets.heading (stage_loop sender packets.stages s))
    unfolding round_loop
    round_loop_step fuel count round rng s h =
        let (packets, rng') = next_round rng in
        rw (round_loop, h)
          (go packets.heading (round_loop sender next_round fuel count (round + 1) rng')
            (stage_loop sender packets.stages s))
      where
        go :
            (heading : List Text) (k : Option State → Trace (Option State)) (p : Performed sender)
            → (if p.0
                then after_lines (heading ++ p.1.0) (k p.1.1)
                else after_lines (heading ++ p.1.0) (ended (exits 2) (close_any sender p.1.1)))
              ≡ finish k (add_lines sender heading p)
        go heading k (true, (lines, s)) = refl
        go heading k (false, (lines, s)) = refl

    -- The loop as a script, once its rounds go the same way.
    loop_script :
        (k : Option State → Trace (Option State)) (fuel count round n : ℕ) (rng : Engine)
        → goes_on count round ≡ true
        → ((s : Option State)
            → round_loop sender next_round fuel count (round + 1) (next_round rng).1 s
              ≡ finish k (perform sender (script next_round n (next_round rng).1) s))
        → (s : Option State)
        → round_loop sender next_round (suc fuel) count round rng s
          ≡ finish k (perform sender (script next_round (suc n) rng) s)
    unfolding script
    loop_script k fuel count round n rng on ih s =
        let (packets, rng') = next_round rng in
        round_loop_step fuel count round rng s on
        ∙ finish-then_do k (perform sender (script next_round n rng'))
            (round_loop sender next_round fuel count (round + 1) rng') ih
            (add_lines sender packets.heading (stage_loop sender packets.stages s))
        ∙ ap
            (λ (p : Performed sender).
              finish k (then_do sender (perform sender (script next_round n rng')) p))
            (perform-round_events packets s)
        ∙ ap (finish k)
            (sym (perform-append sender (round_events packets) (script next_round n rng') s))

    counted_loop :
        (n fuel round : ℕ) (rng : Engine) (s : Option State)
        → 0 < round + n
        → n < fuel
        → round_loop sender next_round fuel (round + n) round rng s
          ≡ finish
              (λ t. ended (exits 0) (close_any sender t))
              (perform sender (script next_round n rng) s)
    counted_loop n zero round rng s some_rounds enough = absurd (omega arith)
    counted_loop zero (suc fuel) round rng s some_rounds enough =
        round_loop_over fuel (round + zero) round rng s (ground arith)
        ∙ unfold script perform in refl
    counted_loop (suc n) (suc fuel) round rng s some_rounds enough =
        loop_script (λ t. ended (exits 0) (close_any sender t)) fuel (round + suc n) round n rng
          (ground arith)
          (λ t.
            ap (λ (c : ℕ). round_loop sender next_round fuel c (round + 1) (next_round rng).1 t)
              (omega arith)
            ∙ counted_loop n fuel (round + 1) (next_round rng).1 t (omega arith) (omega arith))
          s

    endless_loop :
        (fuel round : ℕ) (rng : Engine) (s : Option State)
        → round_loop sender next_round fuel 0 round rng s
          ≡ finish (ended running) (perform sender (script next_round fuel rng) s)
    endless_loop zero round rng s = unfold script perform round_loop in refl
    endless_loop (suc fuel) round rng s =
        loop_script (ended running) fuel 0 round fuel rng refl
          (endless_loop fuel (round + 1) (next_round rng).1) s

  -- The sender is there and opens, or there is none.
  abbrev pub Opens : Option State → Type 0
  Opens none = Unit
  Opens (some s) = (open_sender s).0 ≡ sender_success

  abbrev pub opened : Option State → Option State
  opened none = none
  opened (some s) = some (open_sender s).1

  module _ {Engine : Type 0} (next_round : Engine → Round × Engine) where
    generate_stream-opened :
        (fuel count : ℕ) (rng : Engine) (s : Option State)
        → Opens s
        → generate_stream sender next_round fuel count rng s
          ≡ round_loop sender next_round fuel count 0 rng (opened s)
    unfolding generate_stream
    generate_stream-opened fuel count rng none opens = refl
    generate_stream-opened fuel count rng (some s) opens = rw opens refl

    -- Whatever the rounds are, and with or without a sender: if the sender opens, the count is at
    -- least 1 and the fuel is greater, the loop prints and sends what the flat script of that many
    -- rounds performs, each packet after its lines, up to the first packet that cannot be sent. It
    -- ends with 0 if everything is sent and with 2 otherwise, and the sender is closed in both
    -- cases.
    pub generate_stream-perform :
        (fuel count : ℕ) (rng : Engine) (s : Option State)
        → Opens s
        → 0 < count
        → count < fuel
        → let p = perform sender (script next_round count rng) (opened s) in
          let run = generate_stream sender next_round fuel count rng s in
          (run.printed ≡ p.1.0)
          × (run.exit ≡ exits (if p.0 then 0 else 2))
          × (run.state ≡ close_any sender p.1.1)
    generate_stream-perform fuel count rng s opens some_rounds enough =
        rw
          (generate_stream-opened fuel count rng s opens
            ∙ ap (λ (c : ℕ). round_loop sender next_round fuel c 0 rng (opened s)) (omega arith)
            ∙ counted_loop next_round count fuel 0 rng (opened s) (omega arith) enough)
          (go (perform sender (script next_round count rng) (opened s)))
      where
        go :
            (p : Performed sender)
            → let run = finish (λ t. ended (exits 0) (close_any sender t)) p in
              (run.printed ≡ p.1.0)
              × (run.exit ≡ exits (if p.0 then 0 else 2))
              × (run.state ≡ close_any sender p.1.1)
        go (true, (lines, t)) = (append-nil lines, refl, refl)
        go (false, (lines, t)) = (append-nil lines, refl, refl)

    -- With a count of 0 and a sender that opens, or none, the loop has performed the script of
    -- `fuel` rounds after as many and is still running with its sender open, unless a packet could
    -- not be sent: then it has printed what stands before that packet's failure, has ended with 2
    -- and has closed the sender.
    pub generate_stream-endless :
        (fuel : ℕ) (rng : Engine) (s : Option State)
        → Opens s
        → let p = perform sender (script next_round fuel rng) (opened s) in
          let run = generate_stream sender next_round fuel 0 rng s in
          (run.printed ≡ p.1.0)
          × (run.exit ≡ (if p.0 then running else exits 2))
          × (run.state ≡ (if p.0 then p.1.1 else close_any sender p.1.1))
    generate_stream-endless fuel rng s opens =
        rw
          (generate_stream-opened fuel 0 rng s opens
            ∙ endless_loop next_round fuel 0 rng (opened s))
          (go (perform sender (script next_round fuel rng) (opened s)))
      where
        go :
            (p : Performed sender)
            → let run = finish (ended running) p in
              (run.printed ≡ p.1.0)
              × (run.exit ≡ (if p.0 then running else exits 2))
              × (run.state ≡ (if p.0 then p.1.1 else close_any sender p.1.1))
        go (true, (lines, t)) = (append-nil lines, refl, refl)
        go (false, (lines, t)) = (append-nil lines, refl, refl)
