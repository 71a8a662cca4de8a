-- ===== src/Zio.antt =====
-- common/zio.h: the loops around blocking system calls, and setblocking. A system call's replies are a
-- list of its results, -1 with errno for a failure; `none` where they run out. The bytes themselves
-- stay with the kernel: the functions count.
pub mod Sockets
pub mod Whole
use nsio.Base.{
  ℕ, zero, suc, ◌+◌, ◌-◌, ◌^◌, ◌≡◌, Bool, true, false, List, [], ◌∷◌, Option, none, some, ◌==◌,
  ◌||◌, if◌then◌else◌, bit_and, bit_or,
}
use nsio.Base.Int.{ℤ, pos, negsuc}
use nsio.Base.Bits.{bit_or-bit_and_self}

pub data Reply : Type 0 where
  returned : ℕ → Reply
  failed : ℕ → Reply

-- EINTR, EAGAIN, ECONNABORTED
abbrev pub eintr : ℕ
eintr = 4

abbrev pub eagain : ℕ
eagain = 11

abbrev econnaborted : ℕ
econnaborted = 103

-- zio::write and zio::read: a count, -2 for EAGAIN, -1 for another error.
unfoldable pub transfer : List Reply → Option (ℤ × List Reply)
transfer [] = none
transfer (returned n ∷ rest) = some (pos n, rest)
transfer (failed e ∷ rest) =
    let again = transfer rest in
    if e == eintr
    then again
    else if e == eagain
    then some (negsuc 1, rest)
    else some (negsuc 0, rest)

-- zio::accept, without the name of the peer
unfoldable pub accept : List Reply → Option (ℤ × List Reply)
accept [] = none
accept (returned fd ∷ rest) = some (pos fd, rest)
accept (failed e ∷ rest) =
    let again = accept rest in
    if e == eintr || e == econnaborted then again else some (negsuc 0, rest)

-- pos == 0 ? -1 : pos
abbrev pub moved : ℕ → ℤ
moved n = if n == 0 then negsuc 0 else pos n

-- zio::writev on a count of bytes that have gone, with fuel for the turns: neither 0 nor EAGAIN ends it.
unfoldable pub writev : ℕ → ℕ → ℕ → List Reply → Option (ℤ × List Reply)
unfolding transfer
writev zero count at replies = none
writev (suc fuel) count at replies = elim (at == count) [
  | true ↦ some (moved at, replies)
  | false ↦ elim (transfer replies) [
    | none ↦ none
    | some (pos zero, rest) ↦ writev fuel count at rest
    | some (pos (suc n), rest) ↦ writev fuel count (at + suc n) rest
    | some (negsuc zero, rest) ↦ some (moved at, rest)
    | some (negsuc (suc n), rest) ↦ writev fuel count at rest
  ]
]

-- zio::readv: the end of the stream ends it too.
unfoldable pub readv : ℕ → ℕ → ℕ → List Reply → Option (ℤ × List Reply)
unfolding transfer
readv zero count at replies = none
readv (suc fuel) count at replies = elim (at == count) [
  | true ↦ some (moved at, replies)
  | false ↦ elim (transfer replies) [
    | none ↦ none
    | some (pos zero, rest) ↦ some (pos at, rest)
    | some (pos (suc n), rest) ↦ readv fuel count (at + suc n) rest
    | some (negsuc zero, rest) ↦ some (moved at, rest)
    | some (negsuc (suc n), rest) ↦ readv fuel count at rest
  ]
]

-- O_NONBLOCK
abbrev pub o_nonblock : ℕ
o_nonblock = 0x800

-- The flags that zio::setblocking sets, for 32 bits.
unfoldable pub blocking_flags : ℕ → Bool → ℕ
blocking_flags opts b =
    bit_or opts (if b then bit_and opts (2 ^ 32 - 1 - o_nonblock) else bit_or opts o_nonblock)

-- setblocking(fd, true) sets the flags that the descriptor already has.
setblocking_keeps : (opts : ℕ) → blocking_flags opts true ≡ opts
unfolding blocking_flags
setblocking_keeps opts = bit_or-bit_and_self opts (2 ^ 32 - 1 - o_nonblock)
