-- ===== src/Awaiter/Callbacks/Local.antt =====
-- assert(is_local_thread()) in the calls that the callbacks of the loop make.
use nsio.Base.{ℕ, List, [], ◌∷◌, Option-cases, inl, inr}
use nsio.Base.Int.{ℤ}
use nsio.IoLoop.{EsFile, EsTime, IoLoop, Ctl, epollin, epollout}
use nsio.IoLoop.Fds.{slot, put}
use nsio.IoLoop.Fds
use nsio.IoLoop.Async.{call_all, swap_funcs, on_async_event}
use nsio.IoLoop.Dispatch.Local.{IsLocal, cancel_ev-IsLocal}
use nsio.Aio.{IoEvent, on_event_fd}
use nsio.Awaiter.{Effect, arm_read, arm_write, wrote, cancel_read, cancel_write, set_errno, resume}
use nsio.Awaiter.Callbacks.{
  IoCallback, of_io_loop, of_io_aio, of_awaiter, file_effects, time_effects, sockfd_of, apply,
  deliver, called, timed_out, on_file, on_time,
}

-- What is called while the loop runs in `self` keeps it the loop of that thread, and makes no such
-- assertion fail there.
pub record IsConfined (self : ℕ) (coroutine : ℕ → ℕ → ℤ → IoLoop → IoLoop)
    (call : ℕ → IoLoop → IoLoop) (read_file : ℕ → ℤ → IoLoop → IoLoop) : Type 0 where
  pub resumed :
      (this fd : ℕ) (z : ℤ) (l : IoLoop) → IsLocal self l → IsLocal self (coroutine this fd z l)
  pub posted : (f : ℕ) (l : IoLoop) → IsLocal self l → IsLocal self (call f l)
  pub filed : (this : ℕ) (z : ℤ) (l : IoLoop) → IsLocal self l → IsLocal self (read_file this z l)

module _ (epoll_ctl : Ctl → ℤ) (object : ℕ → ℕ → IoCallback)
    (coroutine : ℕ → ℕ → ℤ → IoLoop → IoLoop) (call : ℕ → IoLoop → IoLoop)
    (read_file : ℕ → ℤ → IoLoop → IoLoop) (self : ℕ)
    (c : IsConfined self coroutine call read_file) where
  moved : (fds : List EsFile) (l : IoLoop) → IsLocal self l → IsLocal self (record l { fds = fds })
  moved fds l v = record { owner = v.owner; passed = v.passed }

  apply-IsLocal :
      (this fd : ℕ) (es : List Effect) (l : IoLoop)
      → IsLocal self l
      → IsLocal self (apply epoll_ctl coroutine this fd es l)
  unfolding apply put Fds.cancel_read Fds.cancel_write
  apply-IsLocal this fd [] l v = v
  apply-IsLocal this fd (arm_read ∷ es) l v = apply-IsLocal this fd es _ (moved _ l v)
  apply-IsLocal this fd (arm_write ∷ es) l v = apply-IsLocal this fd es _ (moved _ l v)
  apply-IsLocal this fd (wrote bytes ∷ es) l v = apply-IsLocal this fd es l v
  apply-IsLocal this fd (cancel_read n ∷ es) l v =
      apply-IsLocal this fd es _ (cancel_ev-IsLocal self epoll_ctl n epollin l v)
  apply-IsLocal this fd (cancel_write n ∷ es) l v =
      apply-IsLocal this fd es _ (cancel_ev-IsLocal self epoll_ctl n epollout l v)
  apply-IsLocal this fd (set_errno e ∷ es) l v = apply-IsLocal this fd es l v
  apply-IsLocal this fd (resume z ∷ es) l v = apply-IsLocal this fd es _ (c.resumed this fd z l v)

  call_all-IsLocal : (fs : List ℕ) (l : IoLoop) → IsLocal self l → IsLocal self (call_all call fs l)
  unfolding call_all
  call_all-IsLocal [] l v = v
  call_all-IsLocal (f ∷ fs) l v = call_all-IsLocal fs (call f l) (c.posted f l v)

  deliver-IsLocal :
      (es : List IoEvent) (l : IoLoop)
      → IsLocal self l
      → IsLocal self (deliver epoll_ctl coroutine object call read_file es l)
  unfolding deliver
  deliver-IsLocal [] l v = v
  deliver-IsLocal (e ∷ es) l v = deliver-IsLocal es _ (c.filed e.data_id _ l v)

  on_async_event-IsLocal :
      (event_fd this : ℕ) (l : IoLoop)
      → IsLocal self l
      → IsLocal self (on_async_event call event_fd this l)
  unfolding on_async_event swap_funcs put
  on_async_event-IsLocal event_fd this l v =
      let ran =
        call_all-IsLocal l.async_funcs
          (record l { wakes = 0; async_funcs_tmp = l.async_funcs; async_funcs = l.async_funcs_tmp })
          (record { owner = v.owner; passed = v.passed }) in
      record { owner = ran.owner; passed = ran.passed }

  called-IsLocal :
      (this fd : ℕ) (event : ℤ) (o : IoCallback) (l : IoLoop)
      → IsLocal self l
      → IsLocal self (called epoll_ctl coroutine object call read_file this fd event o l)
  unfolding called put
  called-IsLocal this fd event (of_io_loop event_fd) l v = on_async_event-IsLocal event_fd this l v
  called-IsLocal this fd event (of_io_aio a fetches) l v =
      elim (Option-cases (on_event_fd fetches a)) [
        | inl out ↦ rw (out, called) v
        | inr (r, ran) ↦ rw (ran, called) (moved _ _ (deliver-IsLocal r.1 l v))
      ]
  called-IsLocal this fd event (of_awaiter w) l v = elim (Option-cases (file_effects event w)) [
    | inl out ↦ rw (out, called) v
    | inr (es, ran) ↦ rw (ran, called) (apply-IsLocal this fd es l v)
  ]

  timed_out-IsLocal :
      (this : ℕ) (o : IoCallback) (l : IoLoop)
      → IsLocal self l
      → IsLocal self (timed_out epoll_ctl coroutine object call read_file this o l)
  unfolding timed_out
  timed_out-IsLocal this (of_io_loop event_fd) l v = v
  timed_out-IsLocal this (of_io_aio a fetches) l v = v
  timed_out-IsLocal this (of_awaiter w) l v = apply-IsLocal this (sockfd_of w) (time_effects w) l v

  pub on_file-IsLocal :
      (this fd : ℕ) (event : ℤ) (l : IoLoop)
      → IsLocal self l
      → IsLocal self (on_file epoll_ctl coroutine object call read_file this fd event l)
  unfolding on_file
  on_file-IsLocal this fd event l v =
      called-IsLocal this fd event (object this l.callbacks) _
        (record { owner = v.owner; passed = v.passed })

  pub on_time-IsLocal :
      (t : EsTime) (l : IoLoop)
      → IsLocal self l
      → IsLocal self (on_time epoll_ctl coroutine object call read_file t l)
  unfolding on_time
  on_time-IsLocal t l v =
      timed_out-IsLocal t.func (object t.func l.callbacks) _
        (record { owner = v.owner; passed = v.passed })
