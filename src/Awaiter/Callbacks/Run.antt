-- ===== src/Awaiter/Callbacks/Run.antt =====
-- io_loop::run with the loop, the aio and awaiters on sockets for callbacks.
use nsio.Base.{ℕ, ◌≤◌, ◌≡◌, ap, ◌+◌, List, some, arith, length}
use nsio.Base.Int.{ℤ, pos}
use nsio.IoLoop.{IoLoop, Ctl, epollin, epollout}
use nsio.IoLoop.Fds.{slot, has, cancel_ev}
use nsio.IoLoop.Fds
use nsio.IoLoop.Epoll.{IsCancel, of_read, of_write}
use nsio.IoLoop.Timers.{HeapAlgorithms}
use nsio.IoLoop.Dispatch.{Turn, run}
use nsio.IoLoop.Dispatch.Run.{IsWell, IsHandler, Meets, run_safe}
use nsio.IoLoop.Dispatch.Calls.{cancel_ev-Kept, counted-Kept}
use nsio.Awaiter.Send.{control}
use nsio.Awaiter.Callbacks.{
  IoCallback, of_io_loop, of_io_aio, of_awaiter, timed_out, of_recv_lazy, of_recv_request,
  of_send_lazy, of_accept, of_connect, time_effects, apply, on_file, on_time, Reads, Writes,
}
use nsio.Awaiter.Recv
use nsio.Awaiter.Send
use nsio.Awaiter.Request
use nsio.Awaiter.Connect
use nsio.Awaiter.Callbacks.Keeps.{IsCoroutine, IsPosted, on_file-IsCallback}

timer-cancel_ev :
    (epoll_ctl : Ctl → ℤ) (fd ev : ℕ) (l : IoLoop) → (cancel_ev epoll_ctl fd ev l).1.timer ≡ l.timer
unfolding cancel_ev
timer-cancel_ev epoll_ctl fd ev l = ground arith

module _ (epoll_ctl : Ctl → ℤ) (object : ℕ → ℕ → IoCallback)
    (coroutine : ℕ → ℕ → ℤ → IoLoop → IoLoop) (call : ℕ → IoLoop → IoLoop)
    (read_file : ℕ → ℤ → IoLoop → IoLoop) (co : IsCoroutine object coroutine)
    (posted : IsPosted object call)
    (filed : IsPosted object (λ (r : ℕ × ℤ). read_file r.0 r.1)) where
  abbrev Well : IoLoop → Type 0
  Well l = IsWell (Reads object) (Writes object) l

  -- A timeout gives up a wait of the object's socket, and resumes the coroutine.
  cancelled-IsWell :
      (this fd ev : ℕ) (z : ℤ) (l : IoLoop)
      → IsCancel ev
      → Well l
      → Well (coroutine this fd z (cancel_ev epoll_ctl fd ev l).1)
  cancelled-IsWell this fd ev z l c v =
      (co.keeps this fd z _ (cancel_ev-Kept epoll_ctl fd ev l c v).good).good

  cancelled_fewer :
      (this fd ev : ℕ) (z : ℤ) (l : IoLoop)
      → length (coroutine this fd z (cancel_ev epoll_ctl fd ev l).1).timer ≤ length l.timer
  cancelled_fewer this fd ev z l =
      let same = ap length (timer-cancel_ev epoll_ctl fd ev l) in
      omega (arith, same, co.fewer this fd z (cancel_ev epoll_ctl fd ev l).1)

  abbrev expires : ℕ → IoCallback → IoLoop → IoLoop
  expires = timed_out epoll_ctl coroutine object call read_file

  timed_out-IsWell : (this : ℕ) (c : IoCallback) (l : IoLoop) → Well l → Well (expires this c l)
  unfolding timed_out time_effects apply Fds.cancel_read Fds.cancel_write Recv.on_time_event
      Request.on_time_event Send.on_time_event Connect.on_time_event
  timed_out-IsWell this (of_io_loop event_fd) l v = v
  timed_out-IsWell this (of_io_aio a fetches) l v = v
  timed_out-IsWell this (of_awaiter (of_recv_lazy s replies)) l v =
      cancelled-IsWell this s.sockfd epollin s.result l of_read v
  timed_out-IsWell this (of_awaiter (of_recv_request s p memory at replies)) l v =
      cancelled-IsWell this s.sockfd epollin s.result l of_read v
  timed_out-IsWell this (of_awaiter (of_send_lazy s replies)) l v =
      cancelled-IsWell this s.sockfd epollout (pos 0) l of_write v
  timed_out-IsWell this (of_awaiter (of_accept s answers)) l v = v
  timed_out-IsWell this (of_awaiter (of_connect c so_error)) l v =
      cancelled-IsWell this c.sockfd epollout c.result l of_write v

  timed_out_fewer :
      (this : ℕ) (c : IoCallback) (l : IoLoop) → length (expires this c l).timer ≤ length l.timer
  unfolding timed_out time_effects apply Fds.cancel_read Fds.cancel_write Recv.on_time_event
      Request.on_time_event Send.on_time_event Connect.on_time_event
  timed_out_fewer this (of_io_loop event_fd) l = omega arith
  timed_out_fewer this (of_io_aio a fetches) l = omega arith
  timed_out_fewer this (of_awaiter (of_recv_lazy s replies)) l =
      cancelled_fewer this s.sockfd epollin s.result l
  timed_out_fewer this (of_awaiter (of_recv_request s p memory at replies)) l =
      cancelled_fewer this s.sockfd epollin s.result l
  timed_out_fewer this (of_awaiter (of_send_lazy s replies)) l =
      cancelled_fewer this s.sockfd epollout (pos 0) l
  timed_out_fewer this (of_awaiter (of_accept s answers)) l = omega arith
  timed_out_fewer this (of_awaiter (of_connect c so_error)) l =
      cancelled_fewer this c.sockfd epollout c.result l

  awaiters-IsHandler :
      IsHandler
        (Reads object)
        (Writes object)
        (on_file epoll_ctl coroutine object call read_file)
        (on_time epoll_ctl coroutine object call read_file)
  unfolding on_time
  awaiters-IsHandler = record {
    file = on_file-IsCallback epoll_ctl object coroutine call read_file co posted filed;
    time = λ t l v.
        timed_out-IsWell t.func (object t.func l.callbacks) _
          (counted-Kept (l.callbacks + 1) 0 l v).good;
    fewer = λ t l.
        timed_out_fewer t.func (object t.func l.callbacks)
          (record l { callbacks = l.callbacks + 1 });
  }

  -- Take a loop whose callbacks are the loop itself, on its eventfd, the aio on its own, and
  -- recv_lazy, recv_request, send_lazy, accept and connect, each on its socket, with replies from
  -- the kernel that are enough for each handler to return; whose table agrees with the kernel's
  -- interest set; and whose timers are a heap with distinct ids that were given out. Let a
  -- coroutine, from a resumption to the next time it suspends, keep this, give up no wait but for
  -- the socket of the object that it awaited, leave no more timers than there were, and after
  -- accept still wait for its listening socket; and let a posted function, and a coroutine that
  -- awaited a file, keep this and give up no wait. If in each turn epoll_wait fails, or reports
  -- distinct descriptors that the kernel knows, and the clock is read once more often than there
  -- are timers, and the turns last until the loop is told to break or an error is not EINTR, then
  -- run returns, no assertion of it fails, and the loop is again as described.
  pub run_awaiters_safe :
      (so_error : ℕ → ℕ) (std : HeapAlgorithms) (self : ℕ) (turns : List Turn) (l : IoLoop)
      → Well l
      → Meets
          (on_file epoll_ctl coroutine object call read_file)
          so_error
          std
          (on_time epoll_ctl coroutine object call read_file)
          turns
          (record l { thread_id = self })
      → (l' : IoLoop) × (run
            (on_file epoll_ctl coroutine object call read_file)
            so_error
            std
            (on_time epoll_ctl coroutine object call read_file)
            self
            turns
            l
          ≡ some l')
        × Well l'
  run_awaiters_safe so_error std self turns l v m =
      run_safe _ so_error std _ awaiters-IsHandler self turns l v m
