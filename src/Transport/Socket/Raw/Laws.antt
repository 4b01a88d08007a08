-- ===== src/Transport/Socket/Raw/Laws.antt =====
-- The descriptors of the sockets: what is opened is closed again.
use tsn_gen.Prelude.{
  Text, ℕ, ◌≡◌, ◌∙◌, arith, ◌==◌, Bool, true, false, Option, none, some, if◌then◌else◌,
}
use tsn_gen.Transport.Socket.{Calls, truncated}
use tsn_gen.Transport.Socket.Raw.{
  RawSender, bound, indexed, after_socket, open_raw, open_raw_sender, close_raw_sender,
  open_raw_receiver, close_raw_receiver,
}
use tsn_gen.Transport.Socket.Stream.{connected, open_stream, close_stream}

-- The open descriptors are those of before and the one that is given, which was not among them.
abbrev pub OpenBeside : (ℕ → Bool) → Option ℕ → (ℕ → Bool) → Type 0
OpenBeside before none after = (k : ℕ) → after k ≡ before k
OpenBeside before (some fd) after =
    (before fd ≡ false) × ((k : ℕ) → after k ≡ (if k == fd then true else before k))

-- How the system calls change the set of open descriptors: `socket` opens one that was not open,
-- `close` closes the one that it is handed and no other, and the rest open and close none.
pub record Tracks (calls : Calls) (held : calls.World → ℕ → Bool) : Type 0 where
  pub socket : (w : calls.World) → OpenBeside (held w) (calls.socket w).0 (held (calls.socket w).1)
  pub connect :
      (fd : ℕ) (path : Text) (w : calls.World) (k : ℕ)
      → held (calls.connect fd path w).1 k ≡ held w k
  pub if_index :
      (fd : ℕ) (name : Text) (w : calls.World) (k : ℕ)
      → held (calls.if_index fd name w).1 k ≡ held w k
  pub bind : (fd i : ℕ) (w : calls.World) (k : ℕ) → held (calls.bind fd i w).1 k ≡ held w k
  pub close_fd :
      (fd : ℕ) (w : calls.World) (k : ℕ)
      → held (calls.close_fd fd w) k ≡ (if k == fd then false else held w k)

closed_before :
    (before after : ℕ → Bool) (fd : ℕ)
    → OpenBeside before (some fd) after
    → (k : ℕ) → (if k == fd then false else after k) ≡ before k
closed_before before after fd (fresh, h) k = ground (arith, fresh, h k)

module _ (calls : Calls) (held : calls.World → ℕ → Bool) (tracks : Tracks calls held) where
  open calls use {World}

  -- The same descriptors are open.
  abbrev Same : (ℕ → Bool) → World → Type 0
  Same before w = (k : ℕ) → held w k ≡ before k

  abbrev Held : (ℕ → Bool) → Option ℕ → World → Type 0
  Held before fd w = OpenBeside before fd (held w)

  after_call :
      (before : ℕ → Bool) (fd : ℕ) (w w' : World)
      → ((k : ℕ) → held w' k ≡ held w k)
      → Held before (some fd) w
      → Held before (some fd) w'
  after_call before fd w w' same (fresh, h) = (fresh, λ k. same k ∙ h k)

  after_close :
      (before : ℕ → Bool) (fd : ℕ) (w : World)
      → Held before (some fd) w
      → Same before (calls.close_fd fd w)
  after_close before fd w h k = tracks.close_fd fd w k ∙ closed_before before (held w) fd h k

  bound-Held :
      (before : ℕ → Bool) (fd : ℕ) (r : Bool × World)
      → Held before (some fd) r.1
      → let (ok, (fd', w')) = bound calls fd r in Held before fd' w'
  bound-Held before fd (true, w) h = h
  bound-Held before fd (false, w) h = after_close before fd w h

  indexed-Held :
      (before : ℕ → Bool) (fd : ℕ) (old : Option ℕ) (r : Option ℕ × World)
      → Held before (some fd) r.1
      → let (ok, ((fd', i), w')) = indexed calls fd old r in Held before fd' w'
  indexed-Held before fd old (none, w) h = after_close before fd w h
  indexed-Held before fd old (some i, w) h =
      bound-Held before fd (calls.bind fd i w)
        (after_call before fd w (calls.bind fd i w).1 (tracks.bind fd i w) h)

  after_socket-Held :
      (before : ℕ → Bool) (name : Text) (old : Option ℕ) (r : Option ℕ × World)
      → Held before r.0 r.1
      → let (ok, ((fd, i), w')) = after_socket calls name old r in Held before fd w'
  after_socket-Held before name old (none, w) h = h
  after_socket-Held before name old (some fd, w) h =
      let found = calls.if_index fd (truncated 16 name) w in
      indexed-Held before fd old found
        (after_call before fd w found.1 (tracks.if_index fd (truncated 16 name) w) h)

  open_raw-Held :
      (name : Text) (old : Option ℕ) (w : World)
      → let (ok, ((fd, i), w')) = open_raw calls name old w in Held (held w) fd w'
  unfolding open_raw
  open_raw-Held name old w = after_socket-Held (held w) name old (calls.socket w) (tracks.socket w)

  closed_lem :
      (before : ℕ → Bool) (fd : Option ℕ) (w : World)
      → Held before fd w
      → Same before (close_stream calls (fd, w)).1
  unfolding close_stream
  closed_lem before none w h = h
  closed_lem before (some fd) w h = after_close before fd w h

  sender_closed :
      (before : ℕ → Bool) (fd i : Option ℕ) (w : World)
      → Held before fd w
      → Same before (close_raw_sender calls (record { sock_fd = fd; index = i }, w)).1
  unfolding close_raw_sender
  sender_closed before none i w h = h
  sender_closed before (some fd) i w h = after_close before fd w h

  receiver_closed :
      (before : ℕ → Bool) (fd : Option ℕ) (w : World)
      → Held before fd w
      → Same before (close_raw_receiver calls (fd, w)).1
  unfolding close_raw_receiver
  receiver_closed before none w h = h
  receiver_closed before (some fd) w h = after_close before fd w h

  connected-Held :
      (before : ℕ → Bool) (fd : ℕ) (r : Bool × World)
      → Held before (some fd) r.1
      → let (ok, (fd', w')) = connected calls fd r in Held before fd' w'
  connected-Held before fd (true, w) h = h
  connected-Held before fd (false, w) h = after_close before fd w h

  open_stream-Held :
      (path : Text) (old : Option ℕ) (w : World)
      → let (ok, (fd, w')) = open_stream calls path (old, w) in Held (held w) fd w'
  unfolding open_stream
  open_stream-Held path old w = go (calls.socket w) (tracks.socket w)
    where
      go :
          (r : Option ℕ × World)
          → Held (held w) r.0 r.1
          → let (ok, (fd, w')) = elim r.0 as (λ x. Bool × (Option ℕ × World)) [
            | none ↦ (false, (none, r.1))
            | some fd ↦ connected calls fd (calls.connect fd (truncated 108 path) r.1)
          ] in
            Held (held w) fd w'
      go (none, v) h = h
      go (some fd, v) h =
          let there = calls.connect fd (truncated 108 path) v in
          connected-Held (held w) fd there
            (after_call (held w) fd v there.1 (tracks.connect fd (truncated 108 path) v) h)

  -- If `socket` opens a descriptor that was not open, `close` closes the one that it is handed and
  -- no other, and the calls in between open and close none: whichever system call of `open` fails
  -- or none, after `open` and `close` exactly the descriptors are open that were before, for the
  -- raw sender, the raw receiver and the stream socket of the Verilator classes.
  pub close_raw_sender-open_raw_sender :
      (name path : Text) (s : RawSender) (old : Option ℕ) (w : World) (k : ℕ)
      → (held (close_raw_sender calls (open_raw_sender calls name (s, w)).1).1 k ≡ held w k)
        × (held (close_raw_receiver calls (open_raw_receiver calls name (old, w)).1).1 k ≡ held w k)
        × (held (close_stream calls (open_stream calls path (old, w)).1).1 k ≡ held w k)
  unfolding open_raw_sender open_raw_receiver
  close_raw_sender-open_raw_sender name path s old w k =
      let (ok, ((fd, i), w')) = open_raw calls name s.index w in
      let (ok', ((fd', i'), v')) = open_raw calls name none w in
      let (ok'', (fd'', u')) = open_stream calls path (old, w) in
      (
        sender_closed (held w) fd i w' (open_raw-Held name s.index w) k,
        receiver_closed (held w) fd' v' (open_raw-Held name none w) k,
        closed_lem (held w) fd'' u' (open_stream-Held path old w) k,
      )
