-- ===== src/Awaiter.antt =====
-- coio/io_awaiter.h, coio/nio_awaiter.h and coio/nio_awaiter.cpp: what a coroutine waits on. A
-- handler takes the kernel's replies to its system calls in order, and gives the awaiter's new state
-- with what it did to the loop, in order; `none` where the replies run out. Logging is left out.
-- Recv: recv_lazy; Send: send_lazy; Request: recv_request; Accept and Connect; Timeout;
-- Lifetime: timers; Callbacks: all of them as the loop calls them.
mod Store
pub mod Recv
pub mod Send
pub mod Accept
pub mod Connect
pub mod Request
pub mod Lifetime
pub mod Timeout
pub mod Callbacks
use nsio.Base.{ℕ, ◌+◌, ◌%◌, ◌^◌, Bool, ltb, ◌&&◌, List, [], ◌∷◌, ◌++◌, Option, length, take, drop}
use nsio.Base.Int.{ℤ}

-- Linux's error numbers.
abbrev pub eintr : ℕ
eintr = 4

abbrev pub eagain : ℕ
eagain = 11

abbrev pub econnaborted : ℕ
econnaborted = 103

abbrev pub einprogress : ℕ
einprogress = 115

-- What recv(2) returns: the bytes that it wrote, none of them at the end of the stream, or -1 with
-- errno.
pub data Received : Type 0 where
  got : List ℕ → Received
  failed : ℕ → Received

-- What a handler does: store itself into the entry's _func_r or _func_w, hand bytes to the kernel,
-- cancel the interest in a descriptor, set errno, or resume the coroutine, which then reads that
-- _result.
pub data Effect : Type 0 where
  arm_read arm_write : Effect
  wrote : List ℕ → Effect
  cancel_read cancel_write : ℕ → Effect
  set_errno : ℕ → Effect
  resume : ℤ → Effect

-- How a handler ends: its state, its effects, and the replies that it left unread.
abbrev pub Ended : Type 0 → Type 0 → Type 0
Ended S R = Option (S × List Effect × List R)

-- A write of `bytes` at an offset of a buffer.
abbrev pub store : List ℕ → ℕ → List ℕ → List ℕ
store buff at bytes = take at buff ++ (bytes ++ drop (at + length bytes) buff)

-- done < (int)_buff.size(), for a count that is not negative
abbrev pub below_size : ℕ → ℕ → Bool
below_size done size = ltb (size % 2 ^ 32) (2 ^ 31) && ltb done (size % 2 ^ 32)
