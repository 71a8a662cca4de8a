-- ===== src/IoLoop/Dispatch/Calls.antt =====
-- What callbacks do to the loop, a call at a time: they put themselves back, they cancel, they count.
use mathlib.Core.List.{not-mem-nil, Nodup-nil}
use mathlib.Core.Path.{subst}
use nsio.Base.{
  ℕ, ◌≡◌, inl, inr, true, Option, some, ◌==◌, arith, length, leb, Bool-cases, Option-cases, ==_iff,
  leb→gt, List, sym, ◌∙◌,
}
use nsio.Base.Int.{ℤ}
use nsio.IoLoop.{EsFile, IoLoop, Ctl, epollin, epollout}
use nsio.IoLoop.Fds.{
  slot, put, has, clear, cancel_slot, cancel_ev, wait_slot, wait_fd, wait_read, grow, initial,
}
use nsio.IoLoop.Table.{get_or-set, get_or-grow, length-grow}
use nsio.IoLoop.Epoll.{interest, IsSlot, idle, reads, writes, both, IsCancel, for_read}
use nsio.IoLoop.Synced.{cancel_ev-IsSynced, cancel_ev-others, wait_fd-IsSynced}
use nsio.IoLoop.Timers.Queue.{assert_local-IsTimed, IsTimed}
use nsio.IoLoop.Dispatch.Good.{Holds, IsManned, Kept, IsGood-put, inside}
use nsio.IoLoop.Dispatch.Run.{IsWell}

IsSlot-read :
    {i : ℕ} {fe : EsFile} {k : Option ℕ} (f : ℕ)
    → IsSlot i fe k
    → has fe.event epollin ≡ true
    → IsSlot i (record fe { func_r = some f }) k
IsSlot-read f idle on = cc
IsSlot-read f (reads r) on = reads (some f)
IsSlot-read f (writes w) on = cc
IsSlot-read f (both w r) on = both w (some f)

IsSlot-write :
    {i : ℕ} {fe : EsFile} {k : Option ℕ} (f : ℕ)
    → IsSlot i fe k
    → has fe.event epollout ≡ true
    → IsSlot i (record fe { func_w = some f }) k
IsSlot-write f idle on = cc
IsSlot-write f (reads r) on = cc
IsSlot-write f (writes w) on = writes (some f)
IsSlot-write f (both w r) on = both (some f) r

cancel_slot-Holds :
    (R W : ℕ → Type 0) (ev fd : ℕ) (fe : EsFile)
    → Holds R fe.func_r × Holds W fe.func_w
    → Holds R (cancel_slot ev fd fe).0.func_r × Holds W (cancel_slot ev fd fe).0.func_w
unfolding cancel_slot
cancel_slot-Holds R W ev fd fe (r, w) = elim (Bool-cases (has (clear fe.event ev) epollin)) [
  | inl on ↦ rw on (r, tt)
  | inr off ↦ elim (Bool-cases (has (clear fe.event ev) epollout)) [
    | inl on ↦ rw (off, on) (tt, w)
    | inr none_left ↦ rw (off, none_left) (tt, tt)
  ]
]

IsTimed-put : (l : IoLoop) (fds : List EsFile) → IsTimed l → IsTimed (record l { fds = fds })
IsTimed-put l fds v = record { heap = v.heap; given = v.given; distinct = v.distinct }

cancel_ev-IsManned :
    (R W : ℕ → ℕ → Type 0) (epoll_ctl : Ctl → ℤ) (fd ev : ℕ) (l : IoLoop)
    → IsManned R W l
    → IsManned R W (cancel_ev epoll_ctl fd ev l).1
unfolding cancel_ev
cancel_ev-IsManned R W epoll_ctl fd ev l m i = elim (Bool-cases (leb (length l.fds) fd)) [
  | inl outside ↦ rw outside (m i)
  | inr within ↦ rw within (elim (Option-cases (slot l fd).fd) [
    | inl unset ↦ rw (unset, cancel_ev) (m i)
    | inr (j, entry) ↦
        rw
          (
            entry,
            cancel_ev,
            get_or-set l.fds fd i (cancel_slot ev fd (slot l fd)).0 (leb→gt _ _ within),
          )
          (elim (Bool-cases (fd == i)) [
            | inl same ↦ rw same (
                subst
                  (λ (j : ℕ).
                    Holds (R j) (cancel_slot ev fd (slot l fd)).0.func_r
                    × Holds (W j) (cancel_slot ev fd (slot l fd)).0.func_w)
                  ((==_iff fd i).0 same) (cancel_slot-Holds (R fd) (W fd) ev fd (slot l fd) (m fd)))
            | inr other ↦ rw other (m i)
          ])
  ])
]

cancel_ev-IsTimed :
    (epoll_ctl : Ctl → ℤ) (fd ev : ℕ) (l : IoLoop)
    → IsTimed l
    → IsTimed (cancel_ev epoll_ctl fd ev l).1
unfolding cancel_ev
cancel_ev-IsTimed epoll_ctl fd ev l v = elim (Bool-cases (leb (length l.fds) fd)) [
  | inl outside ↦ rw outside (assert_local-IsTimed l v)
  | inr within ↦ rw within (elim (Option-cases (slot l fd).fd) [
    | inl unset ↦ rw (unset, cancel_ev) (assert_local-IsTimed l v)
    | inr (j, entry) ↦
        rw (entry, cancel_ev) (record { heap = v.heap; given = v.given; distinct = v.distinct })
  ])
]

wait_slot-Holds :
    (R W : ℕ → Type 0) (fd func : ℕ) (fe : EsFile)
    → R func
    → Holds R fe.func_r × Holds W fe.func_w
    → Holds R (wait_slot epollin fd func fe).0.func_r
      × Holds W (wait_slot epollin fd func fe).0.func_w
unfolding wait_slot
wait_slot-Holds R W fd func fe reader (r, w) = elim (Option-cases fe.fd) [
  | inl unset ↦ rw (unset, wait_slot) (reader, w)
  | inr (j, used) ↦ elim (Bool-cases (has fe.event epollin)) [
    | inl on ↦ rw (used, wait_slot, on) (reader, w)
    | inr off ↦ rw (used, wait_slot, off) (reader, w)
  ]
]

wait_read-IsManned :
    (R W : ℕ → ℕ → Type 0) (epoll_ctl : Ctl → ℤ) (fd func : ℕ) (l : IoLoop)
    → R fd func
    → IsManned R W l
    → IsManned R W (wait_read epoll_ctl fd func l)
unfolding wait_read wait_fd
wait_read-IsManned R W epoll_ctl fd func l reader m i =
    let new = wait_slot-Holds (R fd) (W fd) fd func (slot l fd) reader (m fd) in
    rw
      (
        get_or-grow l.fds fd fd,
        get_or-set (grow l.fds fd) fd i (wait_slot epollin fd func (slot l fd)).0
            (length-grow l.fds fd),
        get_or-grow l.fds fd i,
      )
      (elim (Bool-cases (fd == i)) [
        | inl same ↦ rw same (
            subst
              (λ (j : ℕ).
                Holds (R j) (wait_slot epollin fd func (slot l fd)).0.func_r
                × Holds (W j) (wait_slot epollin fd func (slot l fd)).0.func_w)
              ((==_iff fd i).0 same) new)
        | inr other ↦ rw other (m i)
      ])

module _ {R W : ℕ → ℕ → Type 0} where
  -- A reader puts itself back into the entry of a descriptor that is watched for reading.
  pub read_again-Kept :
      (this fd : ℕ) (l : IoLoop)
      → IsWell R W l
      → R fd this
      → has (slot l fd).event epollin ≡ true
      → Kept R W IsTimed fd l (put fd (record (slot l fd) { func_r = some this }) l)
  unfolding put
  read_again-Kept this fd l v r on = record {
    good =
        IsGood-put fd _ l IsTimed-put v (inside fd l (λ e. cc))
          (IsSlot-read this (v.synced.slots fd) on) r (v.manned fd).1;
    others = λ i other known. known;
  }

  pub write_again-Kept :
      (this fd : ℕ) (l : IoLoop)
      → IsWell R W l
      → W fd this
      → has (slot l fd).event epollout ≡ true
      → Kept R W IsTimed fd l (put fd (record (slot l fd) { func_w = some this }) l)
  unfolding put
  write_again-Kept this fd l v w on = record {
    good =
        IsGood-put fd _ l IsTimed-put v (inside fd l (λ e. cc))
          (IsSlot-write this (v.synced.slots fd) on) (v.manned fd).0 w;
    others = λ i other known. known;
  }

  pub cancel_ev-Kept :
      (epoll_ctl : Ctl → ℤ) (fd ev : ℕ) (l : IoLoop)
      → IsCancel ev
      → IsWell R W l
      → Kept R W IsTimed fd l (cancel_ev epoll_ctl fd ev l).1
  cancel_ev-Kept epoll_ctl fd ev l c v = record {
    good = record {
      synced = cancel_ev-IsSynced epoll_ctl fd ev l c v.synced;
      manned = cancel_ev-IsManned R W epoll_ctl fd ev l v.manned;
      extra = cancel_ev-IsTimed epoll_ctl fd ev l v.extra;
    };
    others = λ i other known gone.
        known (sym (cancel_ev-others epoll_ctl fd ev i l c v.synced other) ∙ gone);
  }

  pub counted-Kept :
      (n fd : ℕ) (l : IoLoop) → IsWell R W l → Kept R W IsTimed fd l (record l { callbacks = n })
  counted-Kept n fd l v = record {
    good = record {
      synced = record { slots = v.synced.slots; accepted = v.synced.accepted };
      manned = v.manned;
      extra = record { heap = v.extra.heap; given = v.extra.given; distinct = v.extra.distinct };
    };
    others = λ i other known. known;
  }

  -- The eventfd's count and the two vectors of posted functions.
  pub queued-Kept :
      (fd : ℕ) (l : IoLoop) (tmp funcs : List ℕ) (n : ℕ)
      → IsWell R W l
      → Kept R W IsTimed fd l (record l { async_funcs_tmp = tmp; async_funcs = funcs; wakes = n })
  queued-Kept fd l tmp funcs n v = record {
    good = record {
      synced = record { slots = v.synced.slots; accepted = v.synced.accepted };
      manned = v.manned;
      extra = record { heap = v.extra.heap; given = v.extra.given; distinct = v.extra.distinct };
    };
    others = λ i other known. known;
  }

  -- A reader of a descriptor waits for it.
  pub wait_read-IsWell :
      (epoll_ctl : Ctl → ℤ) (fd func : ℕ) (l : IoLoop)
      → R fd func
      → IsWell R W l
      → IsWell R W (wait_read epoll_ctl fd func l)
  unfolding wait_read wait_fd
  wait_read-IsWell epoll_ctl fd func l reader v = record {
    synced = wait_fd-IsSynced epoll_ctl epollin fd func l for_read v.synced;
    manned = wait_read-IsManned R W epoll_ctl fd func l reader v.manned;
    extra = record { heap = v.extra.heap; given = v.extra.given; distinct = v.extra.distinct };
  }

  -- The members of a loop before its constructor's body.
  pub initial-IsWell : IsWell R W initial
  unfolding interest
  initial-IsWell = record {
    synced = record { slots = λ i. idle; accepted = tt {0} };
    manned = λ i. (tt, tt);
    extra = record {
      heap = λ c h p. absurd (omega arith);
      given = λ t m. absurd (not-mem-nil m);
      distinct = Nodup-nil;
    };
  }
