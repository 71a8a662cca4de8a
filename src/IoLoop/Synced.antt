-- ===== src/IoLoop/Synced.antt =====
-- wait_fd and cancel_ev on the table and on the kernel's interest set.
use mathlib.Core.Logic.{◌≢◌}
use mathlib.Core.Path.{subst}
use nsio.Base.{
  ℕ, ◌≡◌, refl, inl, inr, false, List, ◌∷◌, Option, none, some, ◌==◌, if◌then◌else◌, arith, length,
  leb, Bool-cases, Option-cases, ==_iff, leb→gt,
}
use nsio.Base.Int.{ℤ}
use nsio.IoLoop.{epollin, EsFile, IoLoop, assert_local, Ctl, ctl_add, ctl_mod, ctl_del}
use nsio.IoLoop.Fds.{
  slot, grow, made, wait_slot, cancel_slot, wait_fd, cancel_ev, wait_read, new_loop, initial,
}
use nsio.IoLoop.Table.{get_or-grow, length-grow, get_or-set}
use nsio.IoLoop.Epoll.{
  interest, Accepted, IsSlot, idle, reads, writes, both, IsSynced, IsType, for_read, for_write,
  IsCancel, of_read, of_write, of_both,
}

-- The interest in `fd` after a call about it.
abbrev after : Option Ctl → ℕ → Option ℕ → Option ℕ
after none fd k = k
after (some (ctl_add f m)) fd k = some m
after (some (ctl_mod f m)) fd k = some m
after (some (ctl_del f)) fd k = none

wait_slot-IsSlot :
    {type : ℕ} (fd func : ℕ) {fe : EsFile} {k : Option ℕ}
    → IsType type
    → IsSlot fd fe k
    → IsSlot fd (wait_slot type fd func fe).0 (after (wait_slot type fd func fe).1 fd k)
unfolding wait_slot
wait_slot-IsSlot fd func for_read idle = reads (some func)
wait_slot-IsSlot fd func for_read (reads r) = reads (some func)
wait_slot-IsSlot fd func for_read (writes w) = both w (some func)
wait_slot-IsSlot fd func for_read (both w r) = both w (some func)
wait_slot-IsSlot fd func for_write idle = writes (some func)
wait_slot-IsSlot fd func for_write (reads r) = both (some func) r
wait_slot-IsSlot fd func for_write (writes w) = writes (some func)
wait_slot-IsSlot fd func for_write (both w r) = both (some func) r

cancel_slot-IsSlot :
    {ev : ℕ} (fd : ℕ) {fe : EsFile} {k : Option ℕ}
    → IsCancel ev
    → IsSlot fd fe k
    → fe.fd ≢ none
    → IsSlot fd (cancel_slot ev fd fe).0 (after (some (cancel_slot ev fd fe).1) fd k)
unfolding cancel_slot
cancel_slot-IsSlot fd c idle used = absurd (used refl)
cancel_slot-IsSlot fd of_read (reads r) used = idle
cancel_slot-IsSlot fd of_read (writes w) used = writes w
cancel_slot-IsSlot fd of_read (both w r) used = writes w
cancel_slot-IsSlot fd of_write (reads r) used = reads r
cancel_slot-IsSlot fd of_write (writes w) used = idle
cancel_slot-IsSlot fd of_write (both w r) used = reads r
cancel_slot-IsSlot fd of_both (reads r) used = idle
cancel_slot-IsSlot fd of_both (writes w) used = idle
cancel_slot-IsSlot fd of_both (both w r) used = idle

-- The call of wait_fd is accepted, and changes the interest in its descriptor only.
wait_slot-Accepted :
    {type : ℕ} (fd func : ℕ) (cs : List Ctl) {fe : EsFile} {k : Option ℕ}
    → IsType type
    → IsSlot fd fe k
    → interest cs fd ≡ k
    → Accepted cs
    → Accepted (made (wait_slot type fd func fe).1 cs)
unfolding wait_slot
wait_slot-Accepted fd func cs for_read idle e a = (e, a)
wait_slot-Accepted fd func cs for_read (reads r) e a = a
wait_slot-Accepted fd func cs for_read (writes w) e a = (λ n. cc, a)
wait_slot-Accepted fd func cs for_read (both w r) e a = a
wait_slot-Accepted fd func cs for_write idle e a = (e, a)
wait_slot-Accepted fd func cs for_write (reads r) e a = (λ n. cc, a)
wait_slot-Accepted fd func cs for_write (writes w) e a = a
wait_slot-Accepted fd func cs for_write (both w r) e a = a

interest-wait :
    {type : ℕ} (fd func i : ℕ) (cs : List Ctl) {fe : EsFile} {k : Option ℕ}
    → IsType type
    → IsSlot fd fe k
    → interest cs fd ≡ k
    → interest (made (wait_slot type fd func fe).1 cs) i
      ≡ (if fd == i then after (wait_slot type fd func fe).1 fd k else interest cs i)
unfolding wait_slot interest
interest-wait fd func i cs for_read idle e = refl
interest-wait fd func i cs for_read (reads r) e = ground arith
interest-wait fd func i cs for_read (writes w) e = refl
interest-wait fd func i cs for_read (both w r) e = ground arith
interest-wait fd func i cs for_write idle e = refl
interest-wait fd func i cs for_write (reads r) e = refl
interest-wait fd func i cs for_write (writes w) e = ground arith
interest-wait fd func i cs for_write (both w r) e = ground arith

cancel_slot-Accepted :
    {ev : ℕ} (fd : ℕ) (cs : List Ctl) {fe : EsFile} {k : Option ℕ}
    → IsCancel ev
    → IsSlot fd fe k
    → fe.fd ≢ none
    → interest cs fd ≡ k
    → Accepted cs
    → Accepted ((cancel_slot ev fd fe).1 ∷ cs)
unfolding cancel_slot
cancel_slot-Accepted fd cs c idle used e a = absurd (used refl)
cancel_slot-Accepted fd cs of_read (reads r) used e a = (λ n. cc, a)
cancel_slot-Accepted fd cs of_read (writes w) used e a = (λ n. cc, a)
cancel_slot-Accepted fd cs of_read (both w r) used e a = (λ n. cc, a)
cancel_slot-Accepted fd cs of_write (reads r) used e a = (λ n. cc, a)
cancel_slot-Accepted fd cs of_write (writes w) used e a = (λ n. cc, a)
cancel_slot-Accepted fd cs of_write (both w r) used e a = (λ n. cc, a)
cancel_slot-Accepted fd cs of_both (reads r) used e a = (λ n. cc, a)
cancel_slot-Accepted fd cs of_both (writes w) used e a = (λ n. cc, a)
cancel_slot-Accepted fd cs of_both (both w r) used e a = (λ n. cc, a)

interest-cancel :
    {ev : ℕ} (fd i : ℕ) (cs : List Ctl) {fe : EsFile} {k : Option ℕ}
    → IsCancel ev
    → IsSlot fd fe k
    → fe.fd ≢ none
    → interest ((cancel_slot ev fd fe).1 ∷ cs) i
      ≡ (if fd == i then after (some (cancel_slot ev fd fe).1) fd k else interest cs i)
unfolding cancel_slot interest
interest-cancel fd i cs c idle used = absurd (used refl)
interest-cancel fd i cs of_read (reads r) used = refl
interest-cancel fd i cs of_read (writes w) used = refl
interest-cancel fd i cs of_read (both w r) used = refl
interest-cancel fd i cs of_write (reads r) used = refl
interest-cancel fd i cs of_write (writes w) used = refl
interest-cancel fd i cs of_write (both w r) used = refl
interest-cancel fd i cs of_both (reads r) used = refl
interest-cancel fd i cs of_both (writes w) used = refl
interest-cancel fd i cs of_both (both w r) used = refl

-- An entry after a store to `fd`, beside the interest after a call about `fd`.
IsSlot-after :
    (fd i : ℕ) (fe v : EsFile) (k n : Option ℕ)
    → IsSlot i fe k
    → IsSlot fd v n
    → IsSlot i (if fd == i then v else fe) (if fd == i then n else k)
IsSlot-after fd i fe v k n old new = elim (Bool-cases (fd == i)) [
  | inl same ↦ rw same (subst (λ j. IsSlot j v n) ((==_iff fd i).0 same) new)
  | inr other ↦ rw other old
]

-- If the table of descriptors agrees with the kernel's interest set, then after wait_fd of either
-- type, EPOLLIN or EPOLLOUT, it does again, and every epoll_ctl call made so far was one that the
-- kernel does not refuse.
pub wait_fd-IsSynced :
    (epoll_ctl : Ctl → ℤ) (type fd func : ℕ) (l : IoLoop)
    → IsType type
    → IsSynced l
    → IsSynced (wait_fd epoll_ctl type fd func l).1
unfolding wait_fd
wait_fd-IsSynced epoll_ctl type fd func l t v = rw (get_or-grow l.fds fd fd) (record {
  slots = λ i.
      rw
        (
          get_or-set (grow l.fds fd) fd i (wait_slot type fd func (slot l fd)).0
              (length-grow l.fds fd),
          get_or-grow l.fds fd i,
          interest-wait fd func i l.ctls t (v.slots fd) refl,
        )
        (IsSlot-after fd i _ _ _ _ (v.slots i) (wait_slot-IsSlot fd func t (v.slots fd)));
  accepted = wait_slot-Accepted fd func l.ctls t (v.slots fd) refl v.accepted;
})

assert_local-IsSynced : (l : IoLoop) → IsSynced l → IsSynced (assert_local l)
assert_local-IsSynced l v = record { slots = v.slots; accepted = v.accepted }

-- If the table of descriptors agrees with the kernel's interest set, then after cancel_ev of
-- reading, of writing or of both, it does again, and every epoll_ctl call made so far was one that
-- the kernel does not refuse.
pub cancel_ev-IsSynced :
    (epoll_ctl : Ctl → ℤ) (fd ev : ℕ) (l : IoLoop)
    → IsCancel ev
    → IsSynced l
    → IsSynced (cancel_ev epoll_ctl fd ev l).1
unfolding cancel_ev
cancel_ev-IsSynced epoll_ctl fd ev l c v = elim (Bool-cases (leb (length l.fds) fd)) [
  | inl outside ↦ rw outside (assert_local-IsSynced l v)
  | inr inside ↦ rw inside (elim (Option-cases (slot l fd).fd) [
    | inl unset ↦ rw (unset, cancel_ev) (assert_local-IsSynced l v)
    | inr (j, entry) ↦
        let used : (slot l fd).fd ≢ none = λ n. cc in
        rw (entry, cancel_ev)
          (record {
            slots = λ i.
                rw
                  (
                    get_or-set l.fds fd i (cancel_slot ev fd (slot l fd)).0 (leb→gt _ _ inside),
                    interest-cancel fd i l.ctls c (v.slots fd) used,
                  )
                  (IsSlot-after fd i _ _ _ _ (v.slots i)
                    (cancel_slot-IsSlot fd c (v.slots fd) used));
            accepted = cancel_slot-Accepted fd l.ctls c (v.slots fd) used refl v.accepted;
          })
  ])
]

-- So does the constructor, which starts from an empty table.
pub new_loop-IsSynced :
    (epoll_ctl : Ctl → ℤ) (event_fd this : ℕ) → IsSynced (new_loop epoll_ctl event_fd this)
unfolding new_loop wait_read interest
new_loop-IsSynced epoll_ctl event_fd this =
    wait_fd-IsSynced epoll_ctl epollin event_fd this initial for_read
      (record { slots = λ i. idle; accepted = tt {0} })

-- wait_fd leaves the interest in other descriptors as it was.
pub wait_fd-others :
    (epoll_ctl : Ctl → ℤ) (type fd func i : ℕ) (l : IoLoop)
    → IsType type
    → IsSynced l
    → i ≢ fd
    → interest (wait_fd epoll_ctl type fd func l).1.ctls i ≡ interest l.ctls i
unfolding wait_fd
wait_fd-others epoll_ctl type fd func i l t v other =
    let apart : (fd == i) ≡ false = ground (arith, other) in
    rw (get_or-grow l.fds fd fd, interest-wait fd func i l.ctls t (v.slots fd) refl, apart) refl

-- So does cancel_ev.
pub cancel_ev-others :
    (epoll_ctl : Ctl → ℤ) (fd ev i : ℕ) (l : IoLoop)
    → IsCancel ev
    → IsSynced l
    → i ≢ fd
    → interest (cancel_ev epoll_ctl fd ev l).1.ctls i ≡ interest l.ctls i
unfolding cancel_ev
cancel_ev-others epoll_ctl fd ev i l c v other = elim (Bool-cases (leb (length l.fds) fd)) [
  | inl outside ↦ rw outside refl
  | inr inside ↦ rw inside (elim (Option-cases (slot l fd).fd) [
    | inl unset ↦ rw (unset, cancel_ev) refl
    | inr (j, entry) ↦
        let apart : (fd == i) ≡ false = ground (arith, other) in
        rw (entry, cancel_ev, interest-cancel fd i l.ctls c (v.slots fd) (λ n. cc), apart) refl
  ])
]
