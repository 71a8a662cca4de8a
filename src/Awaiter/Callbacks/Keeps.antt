-- ===== src/Awaiter/Callbacks/Keeps.antt =====
-- on_file_event of an awaiter and of the loop itself, beside what the loop asks of a callback.
use nsio.Base.{
  ℕ, ◌≤◌, ◌≡◌, refl, ◌+◌, true, List, [], ◌∷◌, length, none, ◌≢◌, inl, inr, Option-cases,
}
use nsio.Base.Int.{ℤ, negsuc}
use nsio.IoLoop.{IoLoop, Ctl, epollin, epollout}
use nsio.IoLoop.Fds.{slot, has, cancel_ev}
use nsio.IoLoop.Fds
use nsio.IoLoop.Epoll.{of_write}
use nsio.IoLoop.Async.{call_all, swap_funcs, on_async_event}
use nsio.IoLoop.Timers.Queue.{IsTimed}
use nsio.IoLoop.Dispatch.Good.{Kept, Kept-trans, Kept-refl, IsCallback}
use nsio.IoLoop.Dispatch.Run.{IsWell}
use nsio.IoLoop.Dispatch.Calls.{
  read_again-Kept, write_again-Kept, cancel_ev-Kept, counted-Kept, queued-Kept,
}
use nsio.Awaiter.{Effect, arm_read, arm_write, wrote, cancel_read, cancel_write, set_errno, resume}
use nsio.Aio.{IoEvent, IoAio, Fetched, on_event_fd, on_aio_event}
use nsio.Awaiter.Send.{control}
use nsio.Awaiter.Callbacks.{
  Awaiting, IoCallback, of_io_loop, of_io_aio, of_awaiter, deliver, MayRead, MayWrite, called,
  apply, on_file, Reads, Writes,
}
use nsio.Awaiter.Callbacks.Effects.{
  Kind, reading, writing, Acts, waits_read, waits_write, resumes, goes_on, sets, gives_up, GoesOn,
  Behaves, readers-Behaves, writers-Behaves,
}

-- The objects that go on after resuming their coroutine.
abbrev pub Stays : IoCallback → Type 0
Stays (of_io_loop event_fd) = ⊥
Stays (of_io_aio a fetches) = ⊥
Stays (of_awaiter c) = GoesOn c

-- What a coroutine may do to the loop between a resumption and the next time it suspends: as a
-- callback does; it does not leave more timers than there were; and one that awaits `accept` still
-- waits for its listening socket.
pub record IsCoroutine (object : ℕ → ℕ → IoCallback) (coroutine : ℕ → ℕ → ℤ → IoLoop → IoLoop)
    : Type 0 where
  pub keeps :
      (this fd : ℕ) (z : ℤ) (l : IoLoop)
      → IsWell (Reads object) (Writes object) l
      → Kept (Reads object) (Writes object) IsTimed fd l (coroutine this fd z l)
  pub fewer :
      (this fd : ℕ) (z : ℤ) (l : IoLoop) → length (coroutine this fd z l).timer ≤ length l.timer
  pub stays :
      (this fd n : ℕ) (z : ℤ) (l : IoLoop)
      → Stays (object this n)
      → has (slot l fd).event epollin ≡ true
      → has (slot (coroutine this fd z l) fd).event epollin ≡ true

-- What a posted function may do to the loop, and a coroutine that awaited a file: it keeps what a callback
-- keeps, and gives up no wait.
pub record IsPosted {A : Type 0} (object : ℕ → ℕ → IoCallback) (call : A → IoLoop → IoLoop)
    : Type 0 where
  pub keeps :
      (f : A) (fd : ℕ) (l : IoLoop)
      → IsWell (Reads object) (Writes object) l
      → Kept (Reads object) (Writes object) IsTimed fd l (call f l)
  pub stays :
      (f : A) (fd : ℕ) (l : IoLoop)
      → has (slot l fd).event epollin ≡ true
      → has (slot (call f l) fd).event epollin ≡ true

module _ (epoll_ctl : Ctl → ℤ) (object : ℕ → ℕ → IoCallback)
    (coroutine : ℕ → ℕ → ℤ → IoLoop → IoLoop) (call : ℕ → IoLoop → IoLoop)
    (read_file : ℕ → ℤ → IoLoop → IoLoop) (co : IsCoroutine object coroutine)
    (posted : IsPosted object call)
    (filed : IsPosted object (λ (r : ℕ × ℤ). read_file r.0 r.1)) where
  abbrev Well : IoLoop → Type 0
  Well l = IsWell (Reads object) (Writes object) l

  abbrev Keeps : ℕ → IoLoop → IoLoop → Type 0
  Keeps fd l l' = Kept (Reads object) (Writes object) IsTimed fd l l'

  abbrev Role : Kind → ℕ → ℕ → Type 0
  Role reading = Reads object
  Role writing = Writes object

  abbrev mask : Kind → ℕ
  mask reading = epollin
  mask writing = epollout

  apply-control :
      (this fd : ℕ) (es : List Effect) (l : IoLoop)
      → apply epoll_ctl coroutine this fd es l ≡ apply epoll_ctl coroutine this fd (control es) l
  unfolding apply
  apply-control this fd [] l = refl
  apply-control this fd (arm_read ∷ es) l = apply-control this fd es _
  apply-control this fd (arm_write ∷ es) l = apply-control this fd es _
  apply-control this fd (wrote bytes ∷ es) l = apply-control this fd es _
  apply-control this fd (cancel_read n ∷ es) l = apply-control this fd es _
  apply-control this fd (cancel_write n ∷ es) l = apply-control this fd es _
  apply-control this fd (set_errno e ∷ es) l = apply-control this fd es _
  apply-control this fd (resume z ∷ es) l = apply-control this fd es _

  apply-Kept :
      (this fd n : ℕ) {stays : Type 0} (l : IoLoop) {k : Kind} {es : List Effect}
      → (stays → Stays (object this n))
      → Acts stays fd k es
      → Role k fd this
      → Well l
      → has (slot l fd).event (mask k) ≡ true
      → Keeps fd l (apply epoll_ctl coroutine this fd es l)
  unfolding apply Fds.cancel_write
  apply-Kept this fd n l h waits_read role v on = read_again-Kept this fd l v role on
  apply-Kept this fd n l h waits_write role v on = write_again-Kept this fd l v role on
  apply-Kept this fd n l h (resumes z) role v on = co.keeps this fd z l v
  apply-Kept this fd n l h (goes_on z s a) role v on =
      let kept = co.keeps this fd z l v in
      Kept-trans kept (
        apply-Kept this fd n (coroutine this fd z l) h a role kept.good
          (co.stays this fd n z l (h s) on))
  apply-Kept this fd n l h (sets e a) role v on = apply-Kept this fd n l h a role v on
  apply-Kept this fd n l h (gives_up z) role v on =
      let kept = cancel_ev-Kept epoll_ctl fd epollout l of_write v in
      Kept-trans kept (co.keeps this fd z _ kept.good)

  call_all-Kept :
      (fs : List ℕ) (fd : ℕ) (l : IoLoop)
      → Well l
      → has (slot l fd).event epollin ≡ true
      → Keeps fd l (call_all call fs l) × (has (slot (call_all call fs l) fd).event epollin ≡ true)
  unfolding call_all
  call_all-Kept [] fd l v on = (Kept-refl l v, on)
  call_all-Kept (f ∷ fs) fd l v on =
      let kept = posted.keeps f fd l v in
      let (rest, still) = call_all-Kept fs fd (call f l) kept.good (posted.stays f fd l on) in
      (Kept-trans kept rest, still)

  on_async_event-Kept :
      (this fd : ℕ) (l : IoLoop)
      → Reads object fd this
      → Well l
      → has (slot l fd).event epollin ≡ true
      → Keeps fd l (on_async_event call fd this l)
  unfolding on_async_event swap_funcs
  on_async_event-Kept this fd l role v on =
      let swapped = queued-Kept fd l l.async_funcs l.async_funcs_tmp 0 v in
      let (ran, still) = call_all-Kept l.async_funcs fd _ swapped.good on in
      let cleared = queued-Kept fd _ [] _ _ ran.good in
      Kept-trans swapped
        (Kept-trans ran (Kept-trans cleared (read_again-Kept this fd _ cleared.good role still)))

  deliver-Kept :
      (es : List IoEvent) (fd : ℕ) (l : IoLoop)
      → Well l
      → has (slot l fd).event epollin ≡ true
      → Keeps fd l (deliver epoll_ctl coroutine object call read_file es l)
        × (has (slot (deliver epoll_ctl coroutine object call read_file es l) fd).event epollin
            ≡ true)
  unfolding deliver
  deliver-Kept [] fd l v on = (Kept-refl l v, on)
  deliver-Kept (e ∷ es) fd l v on =
      let result = (on_aio_event e (negsuc 0)).0 in
      let kept = filed.keeps (e.data_id, result) fd l v in
      let (rest, still) =
        deliver-Kept es fd (read_file e.data_id result l) kept.good
          (filed.stays (e.data_id, result) fd l on) in
      (Kept-trans kept rest, still)

  aio-Kept :
      (this fd : ℕ) (event : ℤ) (a : IoAio) (fetches : List Fetched) (l : IoLoop)
      → on_event_fd fetches a ≢ none
      → Reads object fd this
      → Well l
      → has (slot l fd).event epollin ≡ true
      → Keeps fd l
          (called epoll_ctl coroutine object call read_file this fd event (of_io_aio a fetches) l)
  unfolding called
  aio-Kept this fd event a fetches l returns role v on =
      elim (Option-cases (on_event_fd fetches a)) [
        | inl out ↦ absurd (returns out)
        | inr (r, ran) ↦
            let (kept, still) = deliver-Kept r.1 fd l v on in
            rw (ran, called) (Kept-trans kept (read_again-Kept this fd _ kept.good role still))
      ]

  awaiter-Kept :
      (this fd n : ℕ) (event : ℤ) (k : Kind) (c : Awaiting) (l : IoLoop)
      → (GoesOn c → Stays (object this n))
      → Behaves fd k event c
      → Role k fd this
      → Well l
      → has (slot l fd).event (mask k) ≡ true
      → Keeps fd l (called epoll_ctl coroutine object call read_file this fd event (of_awaiter c) l)
  unfolding called
  awaiter-Kept this fd n event k c l h (es, ran, acts) role v on =
      rw (ran, called, apply-control this fd es l) (apply-Kept this fd n l h acts role v on)

  called_read-Kept :
      (this fd n : ℕ) (event : ℤ) (c : IoCallback) (l : IoLoop)
      → (Stays c → Stays (object this n))
      → MayRead fd c
      → Reads object fd this
      → Well l
      → has (slot l fd).event epollin ≡ true
      → Keeps fd l (called epoll_ctl coroutine object call read_file this fd event c l)
  unfolding called
  called_read-Kept this fd n event (of_io_loop event_fd) l h here role v on =
      rw here (on_async_event-Kept this fd l role v on)
  called_read-Kept this fd n event (of_io_aio a fetches) l h (here, returns) role v on =
      aio-Kept this fd event a fetches l returns role v on
  called_read-Kept this fd n event (of_awaiter c) l h reader role v on =
      awaiter-Kept this fd n event reading c l h (readers-Behaves fd event c reader) role v on

  called_write-Kept :
      (this fd n : ℕ) (event : ℤ) (c : IoCallback) (l : IoLoop)
      → (Stays c → Stays (object this n))
      → MayWrite fd c
      → Writes object fd this
      → Well l
      → has (slot l fd).event epollout ≡ true
      → Keeps fd l (called epoll_ctl coroutine object call read_file this fd event c l)
  unfolding called
  called_write-Kept this fd n event (of_io_loop event_fd) l h w role v on = elim w [ ]
  called_write-Kept this fd n event (of_io_aio a fetches) l h w role v on = elim w [ ]
  called_write-Kept this fd n event (of_awaiter c) l h writer role v on =
      awaiter-Kept this fd n event writing c l h (writers-Behaves fd event c writer) role v on

  pub on_file-IsCallback :
      IsCallback
        (Reads object)
        (Writes object)
        IsTimed
        (on_file epoll_ctl coroutine object call read_file)
  unfolding on_file
  on_file-IsCallback = record {
    on_read = λ this fd event l role v on.
        let counted = counted-Kept (l.callbacks + 1) fd l v in
        Kept-trans counted (
          called_read-Kept this fd l.callbacks event (object this l.callbacks) _ (λ s. s)
            (role l.callbacks) role counted.good on);
    on_write = λ this fd event l role v on.
        let counted = counted-Kept (l.callbacks + 1) fd l v in
        Kept-trans counted (
          called_write-Kept this fd l.callbacks event (object this l.callbacks) _ (λ s. s)
            (role l.callbacks) role counted.good on);
    table = λ l fds v. record { heap = v.heap; given = v.given; distinct = v.distinct };
  }
