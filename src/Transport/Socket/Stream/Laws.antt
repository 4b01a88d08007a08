-- ===== src/Transport/Socket/Stream/Laws.antt =====
-- The loops of `writeAll` and `readAll` over a socket that takes and yields bytes in parts
-- (traffic-gen/src/verilator_sender.cpp, verilator_receiver.cpp).
use tsn_gen.Prelude.{
  ℕ, zero, suc, ◌+◌, ◌-◌, ◌<◌, ◌≤◌, ◌≡◌, ◌⊎◌, inl, inr, refl, sym, ap, ap₂, ◌∙◌, arith, List, [],
  ◌∷◌, ◌++◌, append-nil, append_assoc, Option, some, length, length-append, length-drop, take, drop,
  take-append-drop,
}
use tsn_gen.Traffic.{SenderErr, sender_success, sender_err_send_failed}
use tsn_gen.Transport.{ReceiverErr, receiver_success}
use tsn_gen.Transport.Socket.{Calls, Answer, returns, interrupted, failed}
use tsn_gen.Transport.Socket.Stream.{after_write, write_all, after_read, read_all}

split_off :
    (chunk bytes rest tail : List ℕ)
    → chunk ++ tail ≡ bytes ++ rest
    → length chunk ≤ length bytes
    → (chunk ++ drop (length chunk) bytes ≡ bytes) × (tail ≡ drop (length chunk) bytes ++ rest)
split_off [] bytes rest tail e h = (go bytes, e ∙ ap (λ (l : List ℕ). l ++ rest) (sym (go bytes)))
  where
    go : (bytes : List ℕ) → drop 0 bytes ≡ bytes
    go [] = refl
    go (b ∷ bytes) = refl
split_off (c ∷ chunk) [] rest tail e h = absurd (omega arith)
split_off (c ∷ chunk) (b ∷ bytes) rest tail e h =
    let next : chunk ++ tail ≡ bytes ++ rest = cc in
    let head : c ≡ b = cc in
    let (split, left) = split_off chunk bytes rest tail next (omega arith) in
    (ap₂ ◌∷◌ head split, left)

module _ (calls : Calls) (pipe : calls.World → List ℕ) (patience : calls.World → ℕ) where
  open calls use {World, write, read}

  -- What `write` may do: take some of the bytes, be interrupted, which it is so many times, or fail.
  abbrev pub WriteStep : List ℕ → World → Answer ℕ × World → Type 0
  WriteStep bytes w (returns n, w') =
      (0 < n) × (n ≤ length bytes) × (pipe w' ≡ pipe w ++ take n bytes) × (patience w' ≤ patience w)
  WriteStep bytes w (interrupted, w') = (pipe w' ≡ pipe w) × (patience w' < patience w)
  WriteStep bytes w (failed, w') = patience w' ≤ patience w

  -- What `read` may do if there are bytes: yield the first of them, or be interrupted.
  abbrev pub ReadStep : ℕ → World → Answer (List ℕ) × World → Type 0
  ReadStep n w (returns chunk, w') =
      (0 < length chunk)
      × (length chunk ≤ n)
      × (pipe w ≡ chunk ++ pipe w')
      × (patience w' ≤ patience w)
  ReadStep n w (interrupted, w') = (pipe w' ≡ pipe w) × (patience w' < patience w)
  ReadStep n w (failed, w') = ⊥

  -- A call that has come to an end: everything is written, or the answer is SEND_FAILED.
  pub record Wrote (bytes : List ℕ) (w : World) (r : Option (SenderErr × World)) : Type 0 where
    pub err : SenderErr
    pub after : World
    pub result : r ≡ some (err, after)
    pub calm : patience after ≤ patience w
    pub outcome :
        ((err ≡ sender_success) × (pipe after ≡ pipe w ++ bytes)) ⊎ (err ≡ sender_err_send_failed)

  -- A call that has read these bytes off.
  pub record Read (bytes rest : List ℕ) (w : World) (r : Option (ReceiverErr × (List ℕ × World)))
      : Type 0 where
    pub after : World
    pub result : r ≡ some (receiver_success, (bytes, after))
    pub calm : patience after ≤ patience w
    pub left : pipe after ≡ rest

  -- The socket that a sender writes to.
  abbrev pub Writes : ℕ → Type 0
  Writes fd = (bytes : List ℕ) (w : World) → 0 < length bytes → WriteStep bytes w (write fd bytes w)

  -- The socket that a receiver reads from, as long as there are bytes.
  abbrev pub Reads : ℕ → Type 0
  Reads fd = (n : ℕ) (w : World) → 0 < n → 0 < length (pipe w) → ReadStep n w (read fd n w)

  after_write-Wrote :
      (fuel : ℕ) (bytes : List ℕ) (w : World) (step : Answer ℕ × World)
      → (k : List ℕ → World → Option (SenderErr × World))
      → ((bs : List ℕ) (v : World) → length bs + patience v ≤ fuel → Wrote bs v (k bs v))
      → length bytes + patience w ≤ suc fuel
      → WriteStep bytes w step
      → Wrote bytes w (after_write calls k bytes step)
  after_write-Wrote fuel bytes w (returns n, v) k ih h (some_bytes, most, taken, calm) =
      let rest = ih (drop n bytes) v (omega (arith, length-drop n bytes)) in
      record {
        err = rest.err;
        after = rest.after;
        result = rest.result;
        calm = omega (arith, rest.calm);
        outcome = elim rest.outcome [
          | inl fine ↦ inl (
            fine.0,
            fine.1
                ∙ ap (λ (p : List ℕ). p ++ drop n bytes) taken
                ∙ append_assoc (pipe w) (take n bytes) (drop n bytes)
                ∙ ap (λ (b : List ℕ). pipe w ++ b) (take-append-drop n bytes),
          )
          | inr bad ↦ inr bad
        ];
      }
  after_write-Wrote fuel bytes w (interrupted, v) k ih h (same, calm) =
      let rest = ih bytes v (omega arith) in
      record {
        err = rest.err;
        after = rest.after;
        result = rest.result;
        calm = omega (arith, rest.calm);
        outcome = elim rest.outcome [
          | inl fine ↦ inl (fine.0, fine.1 ∙ ap (λ (p : List ℕ). p ++ bytes) same)
          | inr bad ↦ inr bad
        ];
      }
  after_write-Wrote fuel bytes w (failed, v) k ih h step = record {
    err = sender_err_send_failed;
    after = v;
    result = refl;
    calm = step;
    outcome = inr refl;
  }

  pub write_all-Wrote :
      (fd : ℕ)
      → Writes fd
      → (fuel : ℕ) (bytes : List ℕ) (w : World) → length bytes + patience w ≤ fuel
      → Wrote bytes w (write_all calls fuel fd bytes w)
  unfolding write_all
  write_all-Wrote fd writes fuel [] w h = record {
    err = sender_success;
    after = w;
    result = refl;
    calm = omega arith;
    outcome = inl (refl, sym (append-nil (pipe w)));
  }
  write_all-Wrote fd writes zero (b ∷ bytes) w h = absurd (omega arith)
  write_all-Wrote fd writes (suc fuel) (b ∷ bytes) w h =
      after_write-Wrote fuel (b ∷ bytes) w (write fd (b ∷ bytes) w) (write_all calls fuel fd)
        (write_all-Wrote fd writes fuel) h (writes (b ∷ bytes) w (omega arith))

  -- What of the bytes is still to be read is at the head of the pipe.
  after_read-Read :
      (fuel n : ℕ) (got bytes rest : List ℕ) (w : World) (step : Answer (List ℕ) × World)
      → (k : ℕ → List ℕ → World → Option (ReceiverErr × (List ℕ × World)))
      → ((m : ℕ) (g bs : List ℕ) (v : World)
          → m ≡ length bs
          → pipe v ≡ bs ++ rest
          → m + patience v ≤ fuel
          → Read (g ++ bs) rest v (k m g v))
      → n ≡ length bytes
      → pipe w ≡ bytes ++ rest
      → n + patience w ≤ suc fuel
      → ReadStep n w step
      → Read (got ++ bytes) rest w (after_read calls k n got step)
  after_read-Read fuel n got bytes rest w (returns [], v) k ih e p h step = absurd (omega arith)
  after_read-Read fuel n got bytes rest w (returns (b ∷ chunk), v) k ih e p h
        (some_bytes, most, taken, calm) =
      let c = length (b ∷ chunk) in
      let (split, left) = split_off (b ∷ chunk) bytes rest (pipe v) (sym taken ∙ p) (omega arith) in
      let more =
        ih (n - c) (got ++ b ∷ chunk) (drop c bytes) v (omega (arith, length-drop c bytes)) left
          (omega arith) in
      record {
        after = more.after;
        result =
            more.result
            ∙ ap (λ (l : List ℕ). some (receiver_success, (l, more.after)))
                (append_assoc got (b ∷ chunk) (drop c bytes) ∙ ap (λ (l : List ℕ). got ++ l) split);
        calm = omega (arith, more.calm);
        left = more.left;
      }
  after_read-Read fuel n got bytes rest w (interrupted, v) k ih e p h (same, calm) =
      let more = ih n got bytes v e (same ∙ p) (omega arith) in
      record {
        after = more.after;
        result = more.result;
        calm = omega (arith, more.calm);
        left = more.left;
      }
  after_read-Read fuel n got bytes rest w (failed, v) k ih e p h step = absurd step

  pub read_all-Read :
      (fd : ℕ)
      → Reads fd
      → (fuel n : ℕ) (got bytes rest : List ℕ) (w : World) → n ≡ length bytes
      → pipe w ≡ bytes ++ rest
      → n + patience w ≤ fuel
      → Read (got ++ bytes) rest w (read_all calls fuel fd n got w)
  unfolding read_all
  read_all-Read fd reads fuel zero got [] rest w e p h = record {
    after = w;
    result = ap (λ (l : List ℕ). some (receiver_success, (l, w))) (sym (append-nil got));
    calm = omega arith;
    left = p;
  }
  read_all-Read fd reads fuel zero got (b ∷ bytes) rest w e p h = absurd (omega arith)
  read_all-Read fd reads zero (suc n) got bytes rest w e p h = absurd (omega arith)
  read_all-Read fd reads (suc fuel) (suc n) got bytes rest w e p h =
      after_read-Read fuel (suc n) got bytes rest w (read fd (suc n) w) (read_all calls fuel fd)
        (λ m g bs v. read_all-Read fd reads fuel m g bs rest v) e p h
        (reads (suc n) w (omega arith) (omega (arith, ap length p, length-append bytes rest)))
