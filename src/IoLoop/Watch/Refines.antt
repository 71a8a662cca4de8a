-- ===== src/IoLoop/Watch/Refines.antt =====
-- wait_fd and cancel_ev against the specification of Watch.
use nsio.Base.{
  ℕ, ◌≡◌, refl, ap, ◌∙◌, inl, inr, List, [], ◌∷◌, Option, none, ◌==◌, if◌then◌else◌, arith, leb,
  length, Bool-cases, Option-cases, ==_iff, leb→gt, leb→le,
}
use nsio.Base.Int.{ℤ}
use nsio.IoLoop.{epollin, epollout, EsFile, IoLoop, Ctl, unused}
use nsio.IoLoop.Fds.{slot, grow, wait_slot, cancel_slot, wait_fd, cancel_ev}
use nsio.IoLoop.Table.{get_or-grow, length-grow, get_or-set, get_or-outside}
use nsio.IoLoop.Epoll.{
  interest, IsSlot, idle, reads, writes, both, IsSynced, for_read, for_write, IsCancel, of_read,
  of_write, of_both,
}
use nsio.IoLoop.Synced.{wait_fd-IsSynced, cancel_ev-IsSynced}
use nsio.IoLoop.Watch.{
  Watch, nothing, watch_of, mask_of, Call, on_read, on_write, off_read, off_write, off, apply, spec,
  call, calls, watch, off_of, IsSlot-mask, wait_slot-read, wait_slot-write, cancel_slot-off,
}

-- A descriptor's own change, and none elsewhere.
abbrev Changed : ℕ → Call → IoLoop → IoLoop → Type 0
Changed fd c l l' = (i : ℕ) → watch l' i ≡ (if fd == i then apply c (watch l i) else watch l i)

changed_at :
    (fd : ℕ) (c : Call) (l : IoLoop) (fe : EsFile)
    → watch_of fe ≡ apply c (watch l fd)
    → (i : ℕ)
    → watch_of (if fd == i then fe else slot l i)
      ≡ (if fd == i then apply c (watch l i) else watch l i)
changed_at fd c l fe e i = elim (Bool-cases (fd == i)) [
  | inl same ↦ rw (same, ← (==_iff fd i).0 same) e
  | inr other ↦ rw other refl
]

wait_fd-Changed :
    (epoll_ctl : Ctl → ℤ) (type fd f : ℕ) (c : Call) (l : IoLoop)
    → watch_of (wait_slot type fd f (slot l fd)).0 ≡ apply c (watch l fd)
    → Changed fd c l (wait_fd epoll_ctl type fd f l).1
unfolding wait_fd
wait_fd-Changed epoll_ctl type fd f c l e i =
    rw
      (
        get_or-grow l.fds fd fd,
        get_or-set (grow l.fds fd) fd i (wait_slot type fd f (slot l fd)).0 (length-grow l.fds fd),
        get_or-grow l.fds fd i,
      )
      (changed_at fd c l (wait_slot type fd f (slot l fd)).0 e i)

off_nothing : {ev : ℕ} (c : IsCancel ev) → nothing ≡ apply (off_of c) nothing
unfolding apply
off_nothing of_read = refl
off_nothing of_write = refl
off_nothing of_both = refl

unset : {i : ℕ} {fe : EsFile} {k : Option ℕ} → IsSlot i fe k → fe.fd ≡ none → fe ≡ unused
unset idle e = refl
unset (reads r) e = cc
unset (writes w) e = cc
unset (both w r) e = cc

unused-Changed :
    {ev : ℕ} (fd : ℕ) (c : IsCancel ev) (l : IoLoop)
    → slot l fd ≡ unused
    → Changed fd (off_of c) l l
unused-Changed fd c l e i = elim (Bool-cases (fd == i)) [
  | inl same ↦ rw (same, ← (==_iff fd i).0 same, e) (off_nothing c)
  | inr other ↦ rw other refl
]

cancel_ev-Changed :
    (epoll_ctl : Ctl → ℤ) {ev : ℕ} (fd : ℕ) (c : IsCancel ev) (l : IoLoop)
    → IsSynced l
    → Changed fd (off_of c) l (cancel_ev epoll_ctl fd ev l).1
unfolding cancel_ev
cancel_ev-Changed epoll_ctl {ev} fd c l v = elim (Bool-cases (leb (length l.fds) fd)) [
  | inl outside ↦
      rw outside
        (unused-Changed fd c l (get_or-outside l.fds fd (omega (arith, leb→le _ _ outside))))
  | inr inside ↦ rw inside (elim (Option-cases (slot l fd).fd) [
    | inl none_set ↦ rw (none_set, cancel_ev) (unused-Changed fd c l (unset (v.slots fd) none_set))
    | inr (j, entry) ↦
        rw (entry, cancel_ev)
          (λ i. rw (get_or-set l.fds fd i (cancel_slot ev fd (slot l fd)).0 (leb→gt _ _ inside)) (
            changed_at fd (off_of c) l (cancel_slot ev fd (slot l fd)).0
              (cancel_slot-off fd c (v.slots fd)) i))
  ])
]

module _ (epoll_ctl : Ctl → ℤ) where
  call-Changed :
      (fd : ℕ) (c : Call) (l : IoLoop) → IsSynced l → Changed fd c l (call epoll_ctl (fd, c) l)
  unfolding call
  call-Changed fd (on_read f) l v =
      wait_fd-Changed epoll_ctl epollin fd f (on_read f) l (wait_slot-read fd f (v.slots fd))
  call-Changed fd (on_write f) l v =
      wait_fd-Changed epoll_ctl epollout fd f (on_write f) l (wait_slot-write fd f (v.slots fd))
  call-Changed fd off_read l v = cancel_ev-Changed epoll_ctl fd of_read l v
  call-Changed fd off_write l v = cancel_ev-Changed epoll_ctl fd of_write l v
  call-Changed fd off l v = cancel_ev-Changed epoll_ctl fd of_both l v

  pub call-IsSynced :
      (fd : ℕ) (c : Call) (l : IoLoop) → IsSynced l → IsSynced (call epoll_ctl (fd, c) l)
  unfolding call
  call-IsSynced fd (on_read f) l v = wait_fd-IsSynced epoll_ctl epollin fd f l for_read v
  call-IsSynced fd (on_write f) l v = wait_fd-IsSynced epoll_ctl epollout fd f l for_write v
  call-IsSynced fd off_read l v = cancel_ev-IsSynced epoll_ctl fd epollin l of_read v
  call-IsSynced fd off_write l v = cancel_ev-IsSynced epoll_ctl fd epollout l of_write v
  call-IsSynced fd off l v = cancel_ev-IsSynced epoll_ctl fd 5 l of_both v

  calls_from :
      (cs : List (ℕ × Call)) (l : IoLoop) (m : ℕ → Watch)
      → IsSynced l
      → ((i : ℕ) → watch l i ≡ m i)
      → IsSynced (calls epoll_ctl cs l) × ((i : ℕ) → watch (calls epoll_ctl cs l) i ≡ spec cs m i)
  unfolding calls spec
  calls_from [] l m v e = (v, e)
  calls_from ((fd, c) ∷ cs) l m v e =
      calls_from cs (call epoll_ctl (fd, c) l) (λ j. if fd == j then apply c (m j) else m j)
        (call-IsSynced fd c l v)
        (λ i. call-Changed fd c l v i ∙ ap (λ (w : Watch). if fd == i then apply c w else w) (e i))

  -- If the table of descriptors agrees with the kernel's interest set, then after any sequence of
  -- wait_read, wait_write, cancel_read, cancel_write and cancel_fdall each descriptor has the
  -- callbacks that the specification gives it, where a call changes its own descriptor only; and
  -- the kernel watches exactly the events that the specification asks for.
  pub calls_refine :
      (cs : List (ℕ × Call)) (l : IoLoop) (i : ℕ)
      → IsSynced l
      → (watch (calls epoll_ctl cs l) i ≡ spec cs (watch l) i)
        × (interest (calls epoll_ctl cs l).ctls i ≡ mask_of (spec cs (watch l) i))
  calls_refine cs l i v =
      let (synced, same) = calls_from cs l (watch l) v (λ j. refl) in
      (same i, IsSlot-mask (synced.slots i) ∙ ap mask_of (same i))
