-- ===== src/IoLoop/Epoll.antt =====
-- What the kernel holds after the epoll_ctl calls of the loop, and when the table agrees with it.
use mathlib.Core.Logic.{◌≢◌}
use nsio.Base.{ℕ, ◌≡◌, List, [], ◌∷◌, Option, none, some, ◌==◌, if◌then◌else◌}
use nsio.IoLoop.{EsFile, IoLoop, Ctl, ctl_add, ctl_mod, ctl_del, unused, epollin, epollout}
use nsio.IoLoop.Fds.{slot}

-- epoll_ctl(2): add and mod set the mask of a descriptor, del forgets it.
unfoldable pub interest : List Ctl → ℕ → Option ℕ
interest [] fd = none
interest (ctl_add f m ∷ cs) fd = if f == fd then some m else interest cs fd
interest (ctl_mod f m ∷ cs) fd = if f == fd then some m else interest cs fd
interest (ctl_del f ∷ cs) fd = if f == fd then none else interest cs fd

-- The calls that the kernel does not refuse: no add of a descriptor that it has (EEXIST), no mod or
-- del of one that it has not (ENOENT).
abbrev pub Accepted : List Ctl → Type 0
Accepted [] = Unit {0}
Accepted (ctl_add f m ∷ cs) = (interest cs f ≡ none) × Accepted cs
Accepted (ctl_mod f m ∷ cs) = (interest cs f ≢ none) × Accepted cs
Accepted (ctl_del f ∷ cs) = (interest cs f ≢ none) × Accepted cs

-- An entry of the table and the kernel's mask of its descriptor. They agree, the mask is EPOLLIN,
-- EPOLLOUT or both, and there is a callback only for an event that the mask has.
pub data IsSlot (i : ℕ) : EsFile → Option ℕ → Type 0 where
  idle : IsSlot i unused none
  reads :
      (r : Option ℕ)
      → IsSlot i (record { fd = some i; event = 1; func_w = none; func_r = r }) (some 1)
  writes :
      (w : Option ℕ)
      → IsSlot i (record { fd = some i; event = 4; func_w = w; func_r = none }) (some 4)
  both :
      (w r : Option ℕ)
      → IsSlot i (record { fd = some i; event = 5; func_w = w; func_r = r }) (some 5)

pub record IsSynced (l : IoLoop) : Type 0 where
  pub slots : (i : ℕ) → IsSlot i (slot l i) (interest l.ctls i)
  pub accepted : Accepted l.ctls

-- The two instances of the template wait_fd.
pub data IsType : ℕ → Type 0 where
  for_read : IsType epollin
  for_write : IsType epollout

-- What cancel_read, cancel_write and cancel_fdall pass to cancel_ev.
pub data IsCancel : ℕ → Type 0 where
  of_read : IsCancel epollin
  of_write : IsCancel epollout
  of_both : IsCancel 5
