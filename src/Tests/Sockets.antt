-- ===== src/Tests/Sockets.antt =====
-- Examples of sockets: calls that take 3 bytes and yield 4 at a time, and are interrupted at first.
use tsn_gen.Prelude.{
  codes, ℕ, zero, suc, ◌+◌, ◌≤◌, ◌<◌, ◌≡◌, ◌==◌, ◌||◌, Bool, if◌then◌else◌, min, refl, sym, arith,
  true, false, List, [], ◌∷◌, ◌++◌, none, some, length, length-take, take, drop, take-append-drop,
}
use tsn_gen.Transport.Socket.{Answer, returns, interrupted, Calls}
use tsn_gen.Transport.Socket.Raw.{
  RawSender, open_raw_sender, close_raw_sender, open_raw_receiver, close_raw_receiver,
}
use tsn_gen.Transport.Socket.Raw.Laws.{Tracks, close_raw_sender-open_raw_sender}
use tsn_gen.Transport.Socket.Stream.{open_stream, close_stream, send_verilator}
use tsn_gen.Transport.Socket.Stream.Delivered.{Delivered, send_verilator-Delivered}
use tsn_gen.Transport.Socket.Stream.Laws.{WriteStep, ReadStep}

-- The bytes on their way, the interruptions to come and the open descriptors.
record Kernel : Type 0 where
  pipe : List ℕ
  patience : ℕ
  live : List ℕ

abbrev shorter : Kernel → ℕ → Kernel
shorter w k = record { pipe = w.pipe; patience = k; live = w.live }

abbrev a_write : ℕ → List ℕ → Kernel → Answer ℕ × Kernel
a_write fd bytes w = elim w.patience [
  | zero ↦
      let n = min 3 (length bytes) in
      (returns n, record { pipe = w.pipe ++ take n bytes; patience = 0; live = w.live })
  | suc k ↦ (interrupted, shorter w k)
]

abbrev a_read : ℕ → ℕ → Kernel → Answer (List ℕ) × Kernel
a_read fd n w = elim w.patience [
  | zero ↦ (
    returns (take (min 4 n) w.pipe),
    record { pipe = drop (min 4 n) w.pipe; patience = 0; live = w.live },
  )
  | suc k ↦ (interrupted, shorter w k)
]

-- A number above all in the list.
abbrev fresh : List ℕ → ℕ
fresh [] = 0
fresh (x ∷ xs) = x + fresh xs + 1

abbrev is_open : List ℕ → ℕ → Bool
is_open [] k = false
is_open (x ∷ xs) k = k == x || is_open xs k

abbrev remove : ℕ → List ℕ → List ℕ
remove fd [] = []
remove fd (x ∷ xs) = let rest = remove fd xs in if x == fd then rest else x ∷ rest

abbrev with_live : Kernel → List ℕ → Kernel
with_live w fds = record { pipe = w.pipe; patience = w.patience; live = fds }

abbrev kernel : Calls
kernel = record {
  World = Kernel;
  socket = λ w. (some (fresh w.live), with_live w (fresh w.live ∷ w.live));
  connect = λ fd path w. (true, w);
  if_index = λ fd name w. (some 2, w);
  bind = λ fd i w. (false, w);
  write = a_write;
  read = a_read;
  sendto = λ fd i packet w. (true, w);
  recvfrom = λ fd n w. (interrupted, w);
  close_fd = λ fd w. with_live w (remove fd w.live);
}

kernel-writes :
    (bytes : List ℕ) (w : Kernel)
    → 0 < length bytes
    → WriteStep kernel (λ v. v.pipe) (λ v. v.patience) bytes w (a_write 4 bytes w)
kernel-writes bytes w h = go w.pipe w.patience w.live
  where
    go :
        (pipe : List ℕ) (patience : ℕ) (live : List ℕ)
        → let v : Kernel = record { pipe = pipe; patience = patience; live = live } in
          WriteStep kernel (λ v. v.pipe) (λ v. v.patience) bytes v (a_write 4 bytes v)
    go pipe zero live = (omega arith, omega arith, refl, omega arith)
    go pipe (suc k) live = (refl, omega arith)

kernel-reads :
    (n : ℕ) (w : Kernel)
    → 0 < n
    → 0 < length w.pipe
    → ReadStep kernel (λ v. v.pipe) (λ v. v.patience) n w (a_read 5 n w)
kernel-reads n w h some_bytes = go w.pipe w.patience w.live some_bytes
  where
    go :
        (pipe : List ℕ) (patience : ℕ) (live : List ℕ)
        → 0 < length pipe
        → let v : Kernel = record { pipe = pipe; patience = patience; live = live } in
          ReadStep kernel (λ v. v.pipe) (λ v. v.patience) n v (a_read 5 n v)
    go pipe zero live some_bytes = (
      omega (arith, length-take (min 4 n) pipe),
      omega (arith, length-take (min 4 n) pipe),
      sym (take-append-drop (min 4 n) pipe),
      omega arith,
    )
    go pipe (suc k) live some_bytes = (refl, omega arith)

abbrev idle : Kernel
idle = record { pipe = []; patience = 2; live = 0 ∷ 1 ∷ 2 ∷ [] }

abbrev packet : List ℕ
packet = 1 ∷ 2 ∷ 3 ∷ 4 ∷ 5 ∷ 6 ∷ 7 ∷ 8 ∷ 255 ∷ []

send_verilator-Delivered_example :
    Delivered kernel
      (λ v. v.pipe)
      (λ v. v.patience)
      4
      5
      kernel-writes
      kernel-reads
      packet
      20
      3
      []
      (send_verilator kernel 20 packet (some 4, idle))
send_verilator-Delivered_example =
    send_verilator-Delivered kernel (λ v. v.pipe) (λ v. v.patience) 4 5 kernel-writes kernel-reads
      packet [] idle 20 3
      (
        omega arith,
        (
          omega arith,
          (
            omega arith,
            (
              omega arith,
              (omega arith, (omega arith, (omega arith, (omega arith, (omega arith, tt))))),
            ),
          ),
        ),
      )
      (omega arith) refl (omega arith) (omega arith)

is_open-above : (xs : List ℕ) (n : ℕ) → fresh xs ≤ n → is_open xs n ≡ false
is_open-above [] n h = refl
is_open-above (x ∷ xs) n h = ground (arith, is_open-above xs n (omega arith))

is_open-remove :
    (fd : ℕ) (xs : List ℕ) (k : ℕ)
    → is_open (remove fd xs) k ≡ (if k == fd then false else is_open xs k)
is_open-remove fd [] k = ground arith
is_open-remove fd (x ∷ xs) k = ground (arith, is_open-remove fd xs k)

is_open-cons :
    (fd : ℕ) (xs : List ℕ) (k : ℕ) → is_open (fd ∷ xs) k ≡ (if k == fd then true else is_open xs k)
is_open-cons fd xs k = ground arith

kernel-Tracks : Tracks kernel (λ w. is_open w.live)
kernel-Tracks = record {
  socket =
      λ w. (is_open-above w.live (fresh w.live) (omega arith), is_open-cons (fresh w.live) w.live);
  connect = λ fd path w k. refl;
  if_index = λ fd name w k. refl;
  bind = λ fd i w k. refl;
  close_fd = λ fd w k. is_open-remove fd w.live k;
}

abbrev unopened : RawSender
unopened = record { sock_fd = none; index = none }

-- Binding fails here, and the socket was to be descriptor 6.
close_raw_sender-open_raw_sender_example :
    (is_open
        (close_raw_sender kernel (open_raw_sender kernel (codes "eth0") (unopened, idle)).1).1.live
        6
      ≡ is_open idle.live 6)
    × (is_open
          (close_raw_receiver kernel
            (open_raw_receiver kernel (codes "eth0") (none, idle)).1).1.live
          6
        ≡ is_open idle.live 6)
    × (is_open (close_stream kernel (open_stream kernel (codes "/s") (none, idle)).1).1.live 6
        ≡ is_open idle.live 6)
close_raw_sender-open_raw_sender_example =
    close_raw_sender-open_raw_sender kernel (λ w. is_open w.live) kernel-Tracks (codes "eth0")
      (codes "/s") unopened none idle 6
