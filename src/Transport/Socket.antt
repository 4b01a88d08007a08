-- ===== src/Transport/Socket.antt =====
-- Sockets as `VerilatorSender`, `VerilatorReceiver` (traffic-gen/src/verilator_sender.cpp,
-- verilator_receiver.cpp), `RawSocketSender` and `RawSocketReceiver` (raw_socket_sender.cpp,
-- raw_socket_receiver.cpp) use them: the system calls, which are parameters, and the loops over
-- `write` and `read`. A descriptor is an option, none for -1. What is logged is left out.
pub mod Stream
pub mod Raw
use tsn_gen.Prelude.{
  Text, ℕ, zero, suc, ◌+◌, ◌-◌, ◌*◌, ◌/◌, ◌%◌, ◌^◌, ◌==◌, Bool, true, false, List, [], ◌∷◌, ◌++◌,
  Option, none, some, if◌then◌else◌, length, take, drop,
}
use tsn_gen.Hex.{c_str}

-- What a call that transfers bytes answers: what it returns, EINTR, or another error.
pub data Answer (A : Type 0) : Type 0 where
  returns : A → Answer A
  interrupted failed : Answer A

-- The calls on a state of the world; an index of -1 is none. `socket` answers a descriptor; `connect` and `bind` whether they
-- succeed, to a path and to the index of an interface; `if_index` the index of a name, `write` and
-- `sendto` how many bytes they take, `read` and `recvfrom` at most as many bytes as they are asked for.
pub record Calls : Type 1 where
  pub World : Type 0
  pub socket : World → Option ℕ × World
  pub connect : ℕ → Text → World → Bool × World
  pub if_index : ℕ → Text → World → Option ℕ × World
  pub bind : ℕ → ℕ → World → Bool × World
  pub write : ℕ → List ℕ → World → Answer ℕ × World
  pub read : ℕ → ℕ → World → Answer (List ℕ) × World
  pub sendto : ℕ → Option ℕ → List ℕ → World → Bool × World
  pub recvfrom : ℕ → ℕ → World → Answer (List ℕ) × World
  pub close_fd : ℕ → World → World

-- `strncpy` into a zeroed array that keeps a last byte free.
abbrev pub truncated : ℕ → Text → Text
truncated size s = take (size - 1) (c_str s)
