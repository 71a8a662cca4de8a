-- ===== src/IoContext/Local.antt =====
-- coio/io_context.cpp: a context from its constructor through run_local, with the callbacks of its loop.
use nsio.Base.{ℕ, ◌≡◌, refl, Bool, true, false, List, [], ◌∷◌, ==_iff, All, some}
use nsio.Base.Int.{ℤ, pos}
use nsio.IoLoop.{IoLoop, Ctl}
use nsio.IoLoop.Fds.{new_loop, cancel_fdall, wait_read}
use nsio.IoLoop.Epoll.{of_both}
use nsio.IoLoop.Timers.{HeapAlgorithms}
use nsio.IoLoop.Dispatch.{Turn}
use nsio.IoLoop.Dispatch.Run.{IsWell, Meets}
use nsio.IoLoop.Dispatch.Calls.{wait_read-IsWell, initial-IsWell, cancel_ev-Kept}
use nsio.Aio.{IoAio}
use nsio.Aio
use nsio.Awaiter.Callbacks.{IoCallback, on_file, on_time, Reads, Writes}
use nsio.Awaiter.Callbacks.Keeps.{IsCoroutine, IsPosted}
use nsio.Awaiter.Callbacks.Run.{run_awaiters_safe}
use nsio.IoLoop.Dispatch.Local.{IsLocal, cancel_ev-IsLocal, run-IsLocal}
use nsio.Awaiter.Callbacks.Local.{IsConfined, on_file-IsLocal, on_time-IsLocal}
use nsio.IoContext.{
  all_local, IoContext, AioState, no_aio, broken, using_aio, new_context, watch_aio, unwatch_aio,
  run_in, run_local,
}

module _ (epoll_ctl : Ctl → ℤ) (object : ℕ → ℕ → IoCallback)
    (coroutine : ℕ → ℕ → ℤ → IoLoop → IoLoop) (call : ℕ → IoLoop → IoLoop)
    (read_file : ℕ → ℤ → IoLoop → IoLoop) (co : IsCoroutine object coroutine)
    (posted : IsPosted object call)
    (filed : IsPosted object (λ (r : ℕ × ℤ). read_file r.0 r.1)) where
  abbrev Well : IoLoop → Type 0
  Well l = IsWell (Reads object) (Writes object) l

  -- A context whose aio has a descriptor, if it has an aio, with `callback` for its reader.
  abbrev IsReady : ℕ → AioState → Type 0
  IsReady callback no_aio = Unit {0}
  IsReady callback broken = ⊥
  IsReady callback (using_aio a) = Reads object a.efd callback

  new_context-IsWell :
      (event_fd this : ℕ) (use_aio : Bool) (io_setup : ℤ) (aio_fd : ℕ)
      → Reads object event_fd this
      → Well (new_context epoll_ctl event_fd this use_aio io_setup aio_fd).loop
  unfolding new_context new_loop
  new_context-IsWell event_fd this use_aio io_setup aio_fd r =
      wait_read-IsWell epoll_ctl event_fd this _ r initial-IsWell

  new_context-IsReady :
      (event_fd this : ℕ) (use_aio : Bool) (io_setup : ℤ) (aio_fd callback : ℕ)
      → Reads object aio_fd callback
      → (use_aio ≡ true → io_setup ≡ pos 0)
      → IsReady callback (new_context epoll_ctl event_fd this use_aio io_setup aio_fd).aio
  unfolding new_context Aio.new_inst
  new_context-IsReady event_fd this true io_setup aio_fd callback r set =
      rw (set refl, Aio.new_inst) r
  new_context-IsReady event_fd this false io_setup aio_fd callback r set = tt

  watch_aio-IsWell :
      (callback : ℕ) (c : IoContext)
      → Well c.loop
      → IsReady callback c.aio
      → (l : IoLoop) × (watch_aio epoll_ctl callback c ≡ some l) × Well l
  unfolding watch_aio
  watch_aio-IsWell callback c v r = go c.aio refl r
    where
      go :
          (a : AioState)
          → c.aio ≡ a
          → IsReady callback a
          → (l : IoLoop) × (watch_aio epoll_ctl callback c ≡ some l) × Well l
      go no_aio e r = (c.loop, rw (e, watch_aio) refl, v)
      go broken e r = elim r [ ]
      go (using_aio a) e r = (
        wait_read epoll_ctl a.efd callback c.loop,
        rw (e, watch_aio) refl,
        wait_read-IsWell epoll_ctl a.efd callback c.loop r v,
      )

  unwatch_aio-IsWell : (a : AioState) (l : IoLoop) → Well l → Well (unwatch_aio epoll_ctl a l)
  unfolding unwatch_aio cancel_fdall
  unwatch_aio-IsWell no_aio l v = v
  unwatch_aio-IsWell broken l v = v
  unwatch_aio-IsWell (using_aio a) l v = (cancel_ev-Kept epoll_ctl a.efd 5 l of_both v).good

  unwatch_aio-IsLocal :
      (self : ℕ) (a : AioState) (l : IoLoop)
      → IsLocal self l
      → IsLocal self (unwatch_aio epoll_ctl a l)
  unfolding unwatch_aio cancel_fdall
  unwatch_aio-IsLocal self no_aio l v = v
  unwatch_aio-IsLocal self broken l v = v
  unwatch_aio-IsLocal self (using_aio a) l v = cancel_ev-IsLocal self epoll_ctl a.efd 5 l v

  all_local-All : (self : ℕ) (ts : List ℕ) → All (λ (t : ℕ). t ≡ self) ts → all_local self ts ≡ true
  all_local-All self [] v = refl
  all_local-All self (t ∷ ts) v = rw ((==_iff t self).1 v.0) (all_local-All self ts v.1)

  unchecked-IsWell : (l : IoLoop) → Well l → Well (record l { checked = [] })
  unchecked-IsWell l v = record {
    synced = record { slots = v.synced.slots; accepted = v.synced.accepted };
    manned = v.manned;
    extra = record { heap = v.extra.heap; given = v.extra.given; distinct = v.extra.distinct };
  }

  -- Take a context from its constructor, whose io_setup succeeds if it uses the aio, and the
  -- callbacks of the loop: the loop itself on its eventfd, the aio on its own, and the awaiters on
  -- sockets, each with replies from the kernel that are enough for its handler to return. Let a
  -- coroutine, from a resumption to the next time it suspends, keep the table of descriptors in
  -- agreement with the kernel, the objects that wait of the right kind and the timers a heap with
  -- distinct ids that were given out; give up no wait but for the descriptor of what it awaited;
  -- leave no more timers than there were; and after accept still wait for its listening socket. Let
  -- a posted function, and a coroutine that awaited a file, keep this and give up no wait. Let none
  -- of these move the loop to another thread or make assert(is_local_thread()) fail in it. Let the
  -- function that run_local starts with, which runs before m_thread_id is set, keep the table, the
  -- objects and the timers so, and make no such assertion fail. If in each turn epoll_wait fails,
  -- or reports distinct descriptors that the kernel knows, and the clock is read once more often
  -- than there are timers, and the turns last until the loop is told to break or an error is not
  -- EINTR, then run_local returns; no assertion of run fails, and no assert(is_local_thread()) of
  -- cancel_ev and cancel_delay, by a handler, at the end of _run or otherwise; and the table, the
  -- objects and the timers are still so.
  pub run_local_safe :
      (event_fd this : ℕ) (use_aio : Bool) (io_setup : ℤ) (aio_fd callback : ℕ) (so_error : ℕ → ℕ)
      (std : HeapAlgorithms) (init : IoLoop → IoLoop) (self : ℕ) (turns : List Turn)
      → Reads object event_fd this
      → Reads object aio_fd callback
      → (use_aio ≡ true → io_setup ≡ pos 0)
      → ((l : IoLoop)
          → Well l
          → l.checked ≡ []
          → Well (init l) × All (λ (t : ℕ). t ≡ self) (init l).checked)
      → IsConfined self coroutine call read_file
      → ((l : IoLoop)
          → watch_aio epoll_ctl callback
              (new_context epoll_ctl event_fd this use_aio io_setup aio_fd)
            ≡ some l
          → Meets
              (on_file epoll_ctl coroutine object call read_file)
              so_error
              std
              (on_time epoll_ctl coroutine object call read_file)
              turns
              (record (init (record l { checked = [] })) { thread_id = self }))
      → (c : IoContext) × (run_local
            (on_file epoll_ctl coroutine object call read_file)
            so_error
            std
            (on_time epoll_ctl coroutine object call read_file)
            epoll_ctl
            callback
            init
            self
            turns
            (new_context epoll_ctl event_fd this use_aio io_setup aio_fd)
          ≡ some c)
        × Well c.loop
  unfolding run_local run_in
  run_local_safe event_fd this use_aio io_setup aio_fd callback so_error std init self turns r ra
        set starts confined meets =
      let c = new_context epoll_ctl event_fd this use_aio io_setup aio_fd in
      let (l, watched, v) =
        watch_aio-IsWell callback c (new_context-IsWell event_fd this use_aio io_setup aio_fd r)
          (new_context-IsReady event_fd this use_aio io_setup aio_fd callback ra set) in
      let l₁ : IoLoop = record l { checked = [] } in
      let (w, apart) = starts l₁ (unchecked-IsWell l v) refl in
      let (l', ran, v') =
        run_awaiters_safe epoll_ctl object coroutine call read_file co posted filed so_error std
          self turns (init l₁) w (meets l watched) in
      let kept =
        run-IsLocal self (on_file epoll_ctl coroutine object call read_file) so_error std
          (on_time epoll_ctl coroutine object call read_file)
          (on_file-IsLocal epoll_ctl object coroutine call read_file self confined)
          (on_time-IsLocal epoll_ctl object coroutine call read_file self confined) turns (init l₁)
          l' apart ran in
      let passed = all_local-All self _ (unwatch_aio-IsLocal self c.aio l' kept).passed in
      (
        record c { loop = unwatch_aio epoll_ctl c.aio l' },
        rw (watched, run_local, run_in, ran, passed) refl,
        unwatch_aio-IsWell c.aio l' v',
      )
