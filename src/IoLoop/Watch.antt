-- ===== src/IoLoop/Watch.antt =====
-- What the table of descriptors stands for: for each descriptor the callback that waits to read, if
-- reading is watched, and the one that waits to write. A callback that was taken is `some none`.
pub mod Refines
use nsio.Base.{
  ℕ, ◌≡◌, refl, ap, ◌∙◌, inl, inr, Bool, true, false, List, [], ◌∷◌, Option, none, some, ◌==◌,
  if◌then◌else◌, arith, leb, length, Bool-cases, Option-cases, ==_iff, leb→gt, leb→le,
}
use nsio.Base.Int.{ℤ}
use nsio.IoLoop.{epollin, epollout, EsFile, IoLoop, Ctl, unused}
use nsio.IoLoop.Fds.{
  has, slot, grow, wait_slot, cancel_slot, wait_fd, wait_read, wait_write, cancel_ev, cancel_read,
  cancel_write, cancel_fdall, new_loop, initial,
}
use nsio.IoLoop.Table.{get_or-grow, length-grow, get_or-set, get_or-outside}
use nsio.IoLoop.Epoll.{
  interest, IsSlot, idle, reads, writes, both, IsSynced, IsType, for_read, for_write, IsCancel,
  of_read, of_write, of_both,
}
use nsio.IoLoop.Synced.{wait_fd-IsSynced, cancel_ev-IsSynced, new_loop-IsSynced}

pub record Watch : Type 0 where
  pub reading : Option (Option ℕ)
  pub writing : Option (Option ℕ)

abbrev pub nothing : Watch
nothing = record { reading = none; writing = none }

-- The entry of a descriptor, seen so.
abbrev pub watch_of : EsFile → Watch
watch_of fe = record {
  reading = if has fe.event epollin then some fe.func_r else none;
  writing = if has fe.event epollout then some fe.func_w else none;
}

-- The mask that such an interest has in the kernel.
abbrev pub mask_of : Watch → Option ℕ
mask_of w = elim w.reading [
  | none ↦ elim w.writing [ none ↦ none | some _ ↦ some 4 ]
  | some _ ↦ elim w.writing [ none ↦ some 1 | some _ ↦ some 5 ]
]

-- The calls of the awaiters and their users on one descriptor.
pub data Call : Type 0 where
  on_read on_write : ℕ → Call
  off_read off_write off : Call

unfoldable pub apply : Call → Watch → Watch
apply (on_read f) w = record w { reading = some (some f) }
apply (on_write f) w = record w { writing = some (some f) }
apply off_read w = record w { reading = none }
apply off_write w = record w { writing = none }
apply off w = nothing

-- The specification: each call changes its descriptor, and no other.
unfoldable pub spec : List (ℕ × Call) → (ℕ → Watch) → ℕ → Watch
unfolding apply
spec [] m i = m i
spec ((fd, c) ∷ cs) m i = spec cs (λ j. if fd == j then apply c (m j) else m j) i

-- The code.
unfoldable pub call : (Ctl → ℤ) → ℕ × Call → IoLoop → IoLoop
unfolding wait_read wait_write cancel_read cancel_write cancel_fdall
call epoll_ctl (fd, on_read f) l = wait_read epoll_ctl fd f l
call epoll_ctl (fd, on_write f) l = wait_write epoll_ctl fd f l
call epoll_ctl (fd, off_read) l = cancel_read epoll_ctl fd l
call epoll_ctl (fd, off_write) l = cancel_write epoll_ctl fd l
call epoll_ctl (fd, off) l = cancel_fdall epoll_ctl fd l

unfoldable pub calls : (Ctl → ℤ) → List (ℕ × Call) → IoLoop → IoLoop
unfolding call
calls epoll_ctl [] l = l
calls epoll_ctl (c ∷ cs) l = calls epoll_ctl cs (call epoll_ctl c l)

abbrev pub watch : IoLoop → ℕ → Watch
watch l i = watch_of (slot l i)

pub IsSlot-mask : {i : ℕ} {fe : EsFile} {k : Option ℕ} → IsSlot i fe k → k ≡ mask_of (watch_of fe)
IsSlot-mask idle = refl
IsSlot-mask (reads r) = refl
IsSlot-mask (writes w) = refl
IsSlot-mask (both w r) = refl

pub wait_slot-read :
    (fd f : ℕ) {fe : EsFile} {k : Option ℕ}
    → IsSlot fd fe k
    → watch_of (wait_slot epollin fd f fe).0 ≡ apply (on_read f) (watch_of fe)
unfolding wait_slot apply
wait_slot-read fd f idle = refl
wait_slot-read fd f (reads r) = refl
wait_slot-read fd f (writes w) = refl
wait_slot-read fd f (both w r) = refl

pub wait_slot-write :
    (fd f : ℕ) {fe : EsFile} {k : Option ℕ}
    → IsSlot fd fe k
    → watch_of (wait_slot epollout fd f fe).0 ≡ apply (on_write f) (watch_of fe)
unfolding wait_slot apply
wait_slot-write fd f idle = refl
wait_slot-write fd f (reads r) = refl
wait_slot-write fd f (writes w) = refl
wait_slot-write fd f (both w r) = refl

-- What cancel_ev means for each of its masks.
abbrev pub off_of : {ev : ℕ} → IsCancel ev → Call
off_of of_read = off_read
off_of of_write = off_write
off_of of_both = off

pub cancel_slot-off :
    {ev : ℕ} (fd : ℕ) {fe : EsFile} {k : Option ℕ} (c : IsCancel ev)
    → IsSlot fd fe k
    → watch_of (cancel_slot ev fd fe).0 ≡ apply (off_of c) (watch_of fe)
unfolding cancel_slot apply
cancel_slot-off fd of_read idle = refl
cancel_slot-off fd of_write idle = refl
cancel_slot-off fd of_both idle = refl
cancel_slot-off fd of_read (reads r) = refl
cancel_slot-off fd of_read (writes w) = refl
cancel_slot-off fd of_read (both w r) = refl
cancel_slot-off fd of_write (reads r) = refl
cancel_slot-off fd of_write (writes w) = refl
cancel_slot-off fd of_write (both w r) = refl
cancel_slot-off fd of_both (reads r) = refl
cancel_slot-off fd of_both (writes w) = refl
cancel_slot-off fd of_both (both w r) = refl
