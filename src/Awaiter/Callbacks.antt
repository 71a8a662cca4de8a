-- ===== src/Awaiter/Callbacks.antt =====
-- The loop, the aio and the awaiters on sockets as the loop calls them: on_file_event and
-- on_time_event of each, and what their effects are to the loop. Effects: what a handler may do;
-- Keeps: what the loop asks of it; Run: the loop; Local: its thread.
pub mod Effects
pub mod Keeps
pub mod Run
pub mod Local
use nsio.Base.{
  ℕ, ◌+◌, ◌-◌, ◌<◌, ◌≡◌, true, List, [], ◌∷◌, Option, none, some, length, if◌then◌else◌, ◌≢◌,
}
use nsio.Base.Int.{ℤ, negsuc}
use nsio.ByteBuffer.{ByteBuffer, BufferPool}
use nsio.IoLoop.{EsTime, IoLoop, Ctl}
use nsio.IoLoop.Fds.{slot, put}
use nsio.IoLoop.Fds
use nsio.IoLoop.Async.{on_async_event}
use nsio.Aio.{IoEvent, IoAio, Fetched, on_event_fd, on_aio_event}
use nsio.Awaiter.{
  Received, Effect, arm_read, arm_write, wrote, cancel_read, cancel_write, set_errno, resume,
}
use nsio.Awaiter.Recv.{RecvLazy}
use nsio.Awaiter.Recv
use nsio.Awaiter.Recv.Outcome
use nsio.Awaiter.Send.{SendLazy, Sent}
use nsio.Awaiter.Send
use nsio.Awaiter.Accept.{Accept}
use nsio.Awaiter.Accept
use nsio.Awaiter.Connect.{Connect}
use nsio.Awaiter.Connect
use nsio.Awaiter.Request.{RecvRequest}
use nsio.Awaiter.Request

-- An awaiter with what the kernel answers when it is called: the replies to the handler's system calls,
-- for connect the pending error of the socket, and for recv_request also the pool and what malloc gets.
pub data Awaiting : Type 0 where
  of_recv_lazy : RecvLazy → List Received → Awaiting
  of_recv_request : RecvRequest → BufferPool → (ByteBuffer → List ℕ) → ℕ → List Received → Awaiting
  of_send_lazy : SendLazy → List Sent → Awaiting
  of_accept : Accept → List Accept.Answer → Awaiting
  of_connect : Connect → ℕ → Awaiting

-- The socket that the object waits for.
abbrev pub sockfd_of : Awaiting → ℕ
sockfd_of (of_recv_lazy s replies) = s.sockfd
sockfd_of (of_recv_request s p memory at replies) = s.sockfd
sockfd_of (of_send_lazy s replies) = s.sockfd
sockfd_of (of_accept s answers) = s.serv_fd
sockfd_of (of_connect c so_error) = c.sockfd

-- The effects of on_file_event; `none` where the replies run out.
unfoldable pub file_effects : ℤ → Awaiting → Option (List Effect)
unfolding Recv.on_file_event Request.on_file_event Send.on_file_event Accept.on_file_event
    Connect.on_file_event
file_effects event (of_recv_lazy s replies) = elim (Recv.on_file_event event replies s) [
  | none ↦ none
  | some r ↦ some r.1
]
file_effects event (of_recv_request s p memory at replies) =
    elim (Request.on_file_event memory at event replies s p) [ none ↦ none | some r ↦ some r.1 ]
file_effects event (of_send_lazy s replies) = elim (Send.on_file_event event replies s) [
  | none ↦ none
  | some r ↦ some r.1
]
file_effects event (of_accept s answers) =
    let r = Accept.on_file_event answers s in if r.2 then some r.0 else none
file_effects event (of_connect c so_error) = some (Connect.on_file_event event so_error c).1

-- The effects of on_time_event; io_callback's own, which accept keeps, has an empty body.
unfoldable pub time_effects : Awaiting → List Effect
unfolding Recv.on_time_event Request.on_time_event Send.on_time_event Connect.on_time_event
time_effects (of_recv_lazy s replies) = (Recv.on_time_event s).1
time_effects (of_recv_request s p memory at replies) = (Request.on_time_event s).1
time_effects (of_send_lazy s replies) = (Send.on_time_event s).1
time_effects (of_accept s answers) = []
time_effects (of_connect c so_error) = (Connect.on_time_event c).1

-- The objects that wait to read `fd`, with enough replies for their handlers to return.
abbrev pub IsReader : ℕ → Awaiting → Type 0
IsReader fd (of_recv_lazy s replies) =
    (s.sockfd ≡ fd) × (length s.buff - s.recved_bytes < Recv.Outcome.progress replies)
IsReader fd (of_recv_request s p memory at replies) =
    (s.sockfd ≡ fd) × ((event : ℤ) → Request.on_file_event memory at event replies s p ≢ none)
IsReader fd (of_send_lazy s replies) = ⊥
IsReader fd (of_accept s answers) = (s.serv_fd ≡ fd) × ((Accept.on_file_event answers s).2 ≡ true)
IsReader fd (of_connect c so_error) = ⊥

-- Those that wait to write it.
abbrev pub IsWriter : ℕ → Awaiting → Type 0
IsWriter fd (of_recv_lazy s replies) = ⊥
IsWriter fd (of_recv_request s p memory at replies) = ⊥
IsWriter fd (of_send_lazy s replies) =
    (s.sockfd ≡ fd) × (length s.buff - s.sended_bytes < Send.progress replies)
IsWriter fd (of_accept s answers) = ⊥
IsWriter fd (of_connect c so_error) = c.sockfd ≡ fd

-- What derives from io_callback and waits for a descriptor: the loop itself, on its eventfd; the aio,
-- on its own, with the replies of io_getevents; and the awaiters on sockets.
pub data IoCallback : Type 0 where
  of_io_loop : ℕ → IoCallback
  of_io_aio : IoAio → List Fetched → IoCallback
  of_awaiter : Awaiting → IoCallback

-- An object keeps its class and its socket, whatever its state.
abbrev pub MayRead : ℕ → IoCallback → Type 0
MayRead fd (of_io_loop event_fd) = event_fd ≡ fd
MayRead fd (of_io_aio a fetches) = (a.efd ≡ fd) × (on_event_fd fetches a ≢ none)
MayRead fd (of_awaiter c) = IsReader fd c

abbrev pub MayWrite : ℕ → IoCallback → Type 0
MayWrite fd (of_io_loop event_fd) = ⊥
MayWrite fd (of_io_aio a fetches) = ⊥
MayWrite fd (of_awaiter c) = IsWriter fd c

abbrev pub Reads : (ℕ → ℕ → IoCallback) → ℕ → ℕ → Type 0
Reads object fd this = (n : ℕ) → MayRead fd (object this n)

abbrev pub Writes : (ℕ → ℕ → IoCallback) → ℕ → ℕ → Type 0
Writes object fd this = (n : ℕ) → MayWrite fd (object this n)

-- `coroutine this fd result l` is the loop when the coroutine that awaits the object `this` on `fd`, and
-- reads `result`, suspends again.
module _ (epoll_ctl : Ctl → ℤ) (coroutine : ℕ → ℕ → ℤ → IoLoop → IoLoop) where
  -- The effects of the object `this` on the loop that called it for `fd`.
  unfoldable pub apply : ℕ → ℕ → List Effect → IoLoop → IoLoop
  unfolding put Fds.cancel_read Fds.cancel_write
  apply this fd [] l = l
  apply this fd (arm_read ∷ es) l =
      apply this fd es (put fd (record (slot l fd) { func_r = some this }) l)
  apply this fd (arm_write ∷ es) l =
      apply this fd es (put fd (record (slot l fd) { func_w = some this }) l)
  apply this fd (wrote bytes ∷ es) l = apply this fd es l
  apply this fd (cancel_read n ∷ es) l = apply this fd es (Fds.cancel_read epoll_ctl n l)
  apply this fd (cancel_write n ∷ es) l = apply this fd es (Fds.cancel_write epoll_ctl n l)
  apply this fd (set_errno e ∷ es) l = apply this fd es l
  apply this fd (resume z ∷ es) l = apply this fd es (coroutine this fd z l)

  -- `object this n` is the object `this` at callback n, counted from the start, and `call` runs a posted
  -- function. `read_file this result l` is the loop when the coroutine that awaits the aio_block_rw `this`,
  -- and reads `result`, suspends again.
  module _ (object : ℕ → ℕ → IoCallback) (call : ℕ → IoLoop → IoLoop)
      (read_file : ℕ → ℤ → IoLoop → IoLoop) where
    -- aio_block_rw::on_aio_event for each event of a batch; -1 is the first _result.
    unfoldable pub deliver : List IoEvent → IoLoop → IoLoop
    unfolding on_aio_event
    deliver [] l = l
    deliver (e ∷ es) l = deliver es (read_file e.data_id (on_aio_event e (negsuc 0)).0 l)

    -- on_file_event of an object, called for `fd`; a handler whose replies run out does not return.
    unfoldable pub called : ℕ → ℕ → ℤ → IoCallback → IoLoop → IoLoop
    unfolding file_effects apply on_async_event on_event_fd deliver put
    called this fd event (of_io_loop event_fd) l = on_async_event call event_fd this l
    called this fd event (of_io_aio a fetches) l = elim (on_event_fd fetches a) [
      | none ↦ l
      | some r ↦ let l₁ = deliver r.1 l in put fd (record (slot l₁ fd) { func_r = some this }) l₁
    ]
    called this fd event (of_awaiter c) l = elim (file_effects event c) [
      | none ↦ l
      | some es ↦ apply this fd es l
    ]

    -- on_time_event; that of the loop and of the aio is io_callback's own.
    unfoldable pub timed_out : ℕ → IoCallback → IoLoop → IoLoop
    unfolding time_effects apply
    timed_out this (of_io_loop event_fd) l = l
    timed_out this (of_io_aio a fetches) l = l
    timed_out this (of_awaiter c) l = apply this (sockfd_of c) (time_effects c) l

    unfoldable pub on_file : ℕ → ℕ → ℤ → IoLoop → IoLoop
    unfolding called
    on_file this fd event l =
        called this fd event (object this l.callbacks) (record l { callbacks = l.callbacks + 1 })

    unfoldable pub on_time : EsTime → IoLoop → IoLoop
    unfolding timed_out
    on_time t l =
        timed_out t.func (object t.func l.callbacks) (record l { callbacks = l.callbacks + 1 })
