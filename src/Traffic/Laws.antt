-- ===== src/Traffic/Laws.antt =====
-- The generator against what its sender delivers.
use tsn_gen.Prelude.{
  Text, ℕ, zero, suc, ◌+◌, ◌<◌, ◌≡◌, ◌≢◌, ◌⊎◌, refl, sym, ap, ◌∙◌, arith, ◌==◌, Bool, true, false,
  false≢true, List, [], ◌∷◌, ◌++◌, some, if◌then◌else◌, length, length-append, Bool-cases, inl, inr,
}
use tsn_gen.Database.{Database, get_element}
use tsn_gen.Packet.{Var, IfDirections, ProtocolInterface}
use tsn_gen.Packet.Builder.{Random, build, build_with_fields, is_nil}
use tsn_gen.Packet.Decoder.{layer_bytes}
use tsn_gen.Packet.Layout.{AllVars}
use tsn_gen.Session.FrameLaws.{length-packet}
use tsn_gen.Traffic.{
  TrafficGeneratorErr, tgen_success, tgen_err_not_open, tgen_err_send_failed, Sender, is_sent,
  Generator, close_generator, send_one, send, send_filtered, send_all, repeat, send_loop,
}

success≢failed : tgen_success ≢ tgen_err_send_failed
success≢failed e = false≢true (ap failed e)
  where
    failed : TrafficGeneratorErr → Bool
    failed tgen_err_send_failed = true
    failed err = false

module _ (sender : Sender) (random : Random) (if_db : Database ProtocolInterface)
    (var_db : Database Var) where
  open sender use {State, send_packet}
  open random use {Engine}

  -- Every call that sends answers NOT_OPEN and leaves the generator and its sender alone.
  abbrev pub Refuses : Generator sender random → IfDirections → Text → ℕ → ℕ → Type 0
  Refuses gen dir name fuel count =
      (send sender random if_db var_db name gen ≡ (tgen_err_not_open, gen))
      × (send_filtered sender random if_db var_db dir gen ≡ (tgen_err_not_open, gen))
      × (send_all sender random if_db var_db gen ≡ (tgen_err_not_open, gen))
      × (send_loop sender random if_db var_db fuel name count gen ≡ some (tgen_err_not_open, gen))

  closed_parts :
      (state : State) (rng : Engine) (is_open : Bool) (dir : IfDirections) (name : Text)
      (fuel count : ℕ)
      → let gen : Generator sender random = record {
        state = state;
        rng = rng;
        is_open = is_open;
      } in
        Refuses (close_generator sender random gen) dir name fuel count
  unfolding close_generator send send_filtered send_all send_loop
  closed_parts state rng true dir name fuel count = (refl, refl, refl, refl)
  closed_parts state rng false dir name fuel count = (refl, refl, refl, refl)

  -- After `close` every call that sends answers NOT_OPEN, and neither the generator nor its sender
  -- changes.
  pub close_generator-Refuses :
      (gen : Generator sender random) (dir : IfDirections) (name : Text) (fuel count : ℕ)
      → Refuses (close_generator sender random gen) dir name fuel count
  close_generator-Refuses gen dir name fuel count =
      closed_parts gen.state gen.rng gen.is_open dir name fuel count

  -- What the sender has delivered, as far as its answers tell: a send that succeeds adds the packet.
  module _ (delivered : State → List (List ℕ))
      (adds : (pkt : List ℕ) (state : State)
        → is_sent (send_packet pkt state).0 ≡ true
        → delivered (send_packet pkt state).1 ≡ delivered state ++ pkt ∷ [])
      (vars : AllVars var_db) (iface : ProtocolInterface)
      (some_bytes : 0 < layer_bytes var_db iface) where
    nonempty : (rng : Engine) → is_nil (build random iface var_db rng).0 ≡ false
    unfolding build
    nonempty rng =
        go (build_with_fields random iface var_db rng).0.bytes
          (length-packet random var_db vars iface rng)
      where
        go : (l : List ℕ) → length l ≡ layer_bytes var_db iface → is_nil l ≡ false
        go [] e = absurd (omega arith)
        go (x ∷ l) e = refl

    abbrev packet_of : Generator sender random → List ℕ
    packet_of gen = (build random iface var_db gen.rng).0

    -- The two outcomes of `sendOne` for such an interface.
    send_one_lem :
        (gen : Generator sender random)
        → (send_one sender random if_db var_db iface gen).0 ≡ (
            if is_sent (send_packet (packet_of gen) gen.state).0
            then tgen_success
            else tgen_err_send_failed)
    unfolding send_one
    send_one_lem gen = rw (nonempty gen.rng) refl

    send_one_state :
        (gen : Generator sender random)
        → (send_one sender random if_db var_db iface gen).1.state
          ≡ (send_packet (packet_of gen) gen.state).1
    unfolding send_one
    send_one_state gen = rw (nonempty gen.rng) refl

    repeat-step :
        (n : ℕ) (gen : Generator sender random)
        → (send_one sender random if_db var_db iface gen).0 ≡ tgen_success
        → repeat sender random if_db var_db (suc n) iface gen
          ≡ repeat sender random if_db var_db n iface
              (send_one sender random if_db var_db iface gen).1
    unfolding repeat
    repeat-step n gen e = rw (repeat, e) refl

    repeat_failed :
        (n : ℕ) (gen : Generator sender random)
        → (send_one sender random if_db var_db iface gen).0 ≡ tgen_err_send_failed
        → (repeat sender random if_db var_db (suc n) iface gen).0 ≡ tgen_err_send_failed
    unfolding repeat
    repeat_failed n gen e = rw (repeat, e) refl

    -- A loop of `n` rounds that answers SUCCESS has had the sender deliver `n` packets.
    repeat-delivered :
        (n : ℕ) (gen : Generator sender random)
        → (repeat sender random if_db var_db n iface gen).0 ≡ tgen_success
        → length (delivered (repeat sender random if_db var_db n iface gen).1.state)
          ≡ length (delivered gen.state) + n
    repeat-delivered zero gen h = unfold repeat in omega arith
    repeat-delivered (suc n) gen h =
        elim (Bool-cases (is_sent (send_packet (packet_of gen) gen.state).0)) [
          | inl sent ↦
              let next = (send_one sender random if_db var_db iface gen).1 in
              let fine : (send_one sender random if_db var_db iface gen).0 ≡ tgen_success =
                send_one_lem gen ∙ rw sent refl in
              let grown : length (delivered next.state) ≡ length (delivered gen.state) + 1 =
                ap (λ (t : State). length (delivered t)) (send_one_state gen)
                ∙ ap length (adds (packet_of gen) gen.state sent)
                ∙ length-append (delivered gen.state) (packet_of gen ∷ []) in
              rw (repeat-step n gen fine) (
                repeat-delivered n next (sym (ap (λ r. r.0) (repeat-step n gen fine)) ∙ h)
                ∙ omega (arith, grown))
          | inr failed ↦
              absurd
                (success≢failed (sym h ∙ repeat_failed n gen (send_one_lem gen ∙ rw failed refl)))
        ]

    repeat_outcome :
        (n : ℕ) (gen : Generator sender random)
        → ((repeat sender random if_db var_db n iface gen).0 ≡ tgen_err_send_failed)
          ⊎ ((repeat sender random if_db var_db n iface gen).0 ≡ tgen_success)
    repeat_outcome zero gen = unfold repeat in inr refl
    repeat_outcome (suc n) gen =
        elim (Bool-cases (is_sent (send_packet (packet_of gen) gen.state).0)) [
          | inl sent ↦
              let fine : (send_one sender random if_db var_db iface gen).0 ≡ tgen_success =
                send_one_lem gen ∙ rw sent refl in
              rw (repeat-step n gen fine)
                (repeat_outcome n (send_one sender random if_db var_db iface gen).1)
          | inr failed ↦ inl (repeat_failed n gen (send_one_lem gen ∙ rw failed refl))
        ]

    loop_returns :
        (state : State) (rng : Engine) (fuel : ℕ) (name : Text) (count : ℕ)
        → get_element name if_db ≡ some iface
        → let gen : Generator sender random = record { state = state; rng = rng; is_open = true } in
          send_loop sender random if_db var_db fuel name (suc count) gen
          ≡ some (repeat sender random if_db var_db (suc count) iface gen)
    unfolding send_loop
    loop_returns state rng fuel name count found =
        let counted : (suc count == 0) ≡ false = ground arith in rw (send_loop, found, counted) refl

    -- For a sender that delivers each packet whose send succeeds, a `sendLoop` of an open generator
    -- with a count of at least 1, over an interface that has bits, always returns; it answers
    -- SEND_FAILED, or SUCCESS once the sender has delivered as many packets as the count.
    pub send_loop-delivered :
        (state : State) (rng : Engine) (fuel : ℕ) (name : Text) (count : ℕ)
        → get_element name if_db ≡ some iface
        → let gen : Generator sender random = record { state = state; rng = rng; is_open = true } in
          (result : TrafficGeneratorErr × Generator sender random) × (send_loop sender random if_db
              var_db fuel name
              (suc count)
              gen
            ≡ some result)
          × ((result.0 ≡ tgen_err_send_failed)
              ⊎ ((result.0 ≡ tgen_success)
                  × (length (delivered result.1.state) ≡ length (delivered state) + suc count)))
    send_loop-delivered state rng fuel name count found =
        let gen : Generator sender random = record { state = state; rng = rng; is_open = true } in
        (
          repeat sender random if_db var_db (suc count) iface gen,
          loop_returns state rng fuel name count found,
          elim (repeat_outcome (suc count) gen) [
            | inl failed ↦ inl failed
            | inr fine ↦ inr (fine, repeat-delivered (suc count) gen fine)
          ],
        )
