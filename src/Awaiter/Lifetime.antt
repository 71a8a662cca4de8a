-- ===== src/Awaiter/Lifetime.antt =====
-- The timers of an awaiter from its constructor to its destructor.
use mathlib.Core.List.{Perm}
use mathlib.Core.List.Perm
use nsio.Base.{
  ℕ, zero, suc, inl, inr, Option-cases, ◌+◌, ◌≡◌, refl, List, ◌∷◌, Option, none, some, arith,
}
use nsio.Base.Int.{ℤ, pos, negsuc}
use nsio.IoLoop.{IoLoop, Ctl}
use nsio.IoLoop.Fds.{wait_read, wait_write}
use nsio.IoLoop.Timers.{HeapAlgorithms, delay_call, delay_call_after, cancel_delay, erase_id}
use nsio.IoLoop.Timers.Queue.{IsTimed, delay_call-perm, delay_call-IsTimed, cancel_delay-delay_call}
use nsio.Awaiter.Recv.{RecvLazy}
use nsio.Awaiter.Send.{SendLazy}
use nsio.Awaiter.Connect.{new_timeout}

-- timeout::~timeout
unfoldable pub end_timeout : HeapAlgorithms → ℤ → IoLoop → IoLoop
unfolding cancel_delay
end_timeout std (pos zero) l = l
end_timeout std (pos (suc i)) l = cancel_delay std (suc i) l
end_timeout std (negsuc i) l = l

end_timeout-given :
    (std : HeapAlgorithms) (i : ℕ) (l : IoLoop)
    → end_timeout std (pos (i + 1)) l ≡ cancel_delay std (i + 1) l
unfolding end_timeout
end_timeout-given std i l = let e : suc i ≡ i + 1 = omega arith in rw (← e) refl

-- recv_lazy::recv_lazy; `this` is the new object.
unfoldable pub new_recv_lazy :
    HeapAlgorithms → (Ctl → ℤ) → Option ℕ → ℕ → ℕ → List ℕ → ℕ → ℕ → IoLoop → RecvLazy × IoLoop
unfolding new_timeout wait_read
new_recv_lazy std epoll_ctl after now sockfd buf flags this l =
    let t = new_timeout std after now this l in
    (
      record {
        result = negsuc 0;
        timer_id = t.0;
        is_timeout = 0;
        recved_bytes = 0;
        sockfd = sockfd;
        flags = flags;
        buff = buf;
      },
      wait_read epoll_ctl sockfd this t.1,
    )

-- send_lazy::send_lazy, which schedules a timer after the one of its base.
unfoldable pub new_send_lazy :
    HeapAlgorithms → (Ctl → ℤ) → Option ℕ → ℕ → ℕ → ℕ → List ℕ → ℕ → ℕ → IoLoop → SendLazy × IoLoop
unfolding new_timeout wait_write
new_send_lazy std epoll_ctl after now later sockfd buf flags this l =
    let t = new_timeout std after now this l in
    let l₁ = wait_write epoll_ctl sockfd this t.1 in
    let s : SendLazy = record {
      result = negsuc 0;
      timer_id = t.0;
      is_timeout = 0;
      sended_bytes = 0;
      sockfd = sockfd;
      flags = flags;
      buff = buf;
    } in
    elim after [
      | none ↦ (s, l₁)
      | some nanos ↦
          let r = delay_call_after std later nanos this l₁ in (record s { timer_id = pos r.0 }, r.1)
    ]

module _ (std : HeapAlgorithms) (epoll_ctl : Ctl → ℤ) where
  cancel_delay-wait_read :
      (i fd func : ℕ) (l : IoLoop)
      → (cancel_delay std i (wait_read epoll_ctl fd func l)).timer ≡ (cancel_delay std i l).timer
  unfolding cancel_delay wait_read
  cancel_delay-wait_read i fd func l = elim (Option-cases (erase_id i l.timer)) [
    | inl gone ↦ rw (gone, cancel_delay) refl
    | inr (left, found) ↦ rw (found, cancel_delay) refl
  ]

  wait_write-IsTimed :
      (fd func : ℕ) (l : IoLoop) → IsTimed l → IsTimed (wait_write epoll_ctl fd func l)
  unfolding wait_write
  wait_write-IsTimed fd func l v = record { heap = v.heap; given = v.given; distinct = v.distinct }

  -- In a loop with well-formed timers, with or without a timeout, recv_lazy's constructor and then
  -- its destructor leave the timers of before, in some order.
  pub recv_timer_balanced :
      (after : Option ℕ) (now sockfd : ℕ) (buf : List ℕ) (flags this : ℕ) (l : IoLoop)
      → IsTimed l
      → let r = new_recv_lazy std epoll_ctl after now sockfd buf flags this l in
        Perm (end_timeout std r.0.timer_id r.1).timer l.timer
  unfolding new_recv_lazy end_timeout new_timeout delay_call_after delay_call
  recv_timer_balanced none now sockfd buf flags this l v = Perm.rfl
  recv_timer_balanced (some nanos) now sockfd buf flags this l v =
      let d = delay_call std (now + nanos) this l in
      rw
        (
          end_timeout-given std l.g_timer_id (wait_read epoll_ctl sockfd this d.1),
          cancel_delay-wait_read d.0 sockfd this d.1,
        )
        (cancel_delay-delay_call std (now + nanos) this l v)

  -- In a loop with well-formed timers, and with a timeout, send_lazy's constructor and then its
  -- destructor leave one timer more than before, which calls the object that is gone.
  pub send_timer_left :
      (nanos now later sockfd : ℕ) (buf : List ℕ) (flags this : ℕ) (l : IoLoop)
      → IsTimed l
      → let r = new_send_lazy std epoll_ctl (some nanos) now later sockfd buf flags this l in
        Perm
          (end_timeout std r.0.timer_id r.1).timer
          (record { id = l.g_timer_id + 1; when = now + nanos; func = this } ∷ l.timer)
  unfolding new_send_lazy new_timeout delay_call_after delay_call wait_write
  send_timer_left nanos now later sockfd buf flags this l v =
      let d = delay_call std (now + nanos) this l in
      let w = wait_write epoll_ctl sockfd this d.1 in
      let timed =
        wait_write-IsTimed sockfd this d.1 (delay_call-IsTimed std (now + nanos) this l v) in
      rw (end_timeout-given std w.g_timer_id (delay_call std (later + nanos) this w).1) (
        Perm.trans (cancel_delay-delay_call std (later + nanos) this w timed)
          (delay_call-perm std (now + nanos) this l))
