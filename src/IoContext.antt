-- ===== src/IoContext.antt =====
-- coio/io_context.h and coio/io_context.cpp: a loop with its thread, its file aio and its pool.
-- A coroutine's handle and a callback are numbers. `none` is an end of the program: a failed assertion,
-- std::terminate, or the descriptor -1 in the table of the loop. Local: run_local after
-- the constructor; Stopping: the thread of run_worker and the one that stops it.
pub mod Stopping
pub mod Local
use nsio.Base.{
  ℕ, ◌*◌, ◌^◌, Bool, true, List, [], ◌∷◌, ◌==◌, ◌&&◌, Option, none, some, if◌then◌else◌,
}
use nsio.Base.Int.{ℤ, pos, negsuc}
use nsio.IoLoop.{EsTime, IoLoop, Ctl}
use nsio.IoLoop.Fds.{new_loop, end_loop, wait_read, cancel_fdall}
use nsio.IoLoop.Timers.{HeapAlgorithms}
use nsio.IoLoop.Timers
use nsio.IoLoop.Async.{is_local_thread, async_call}
use nsio.IoLoop.Dispatch.{Turn, run, break_run}
use nsio.ByteBuffer.{ByteBuffer, BufferPool, malloc, u32}
use nsio.ByteBuffer
use nsio.Aio.{IoAio, IoEvent, Fetched, Submitted}
use nsio.Aio

-- _loc_thread: empty, or a thread that was or was not joined.
pub data Thread : Type 0 where
  no_thread : Thread
  joinable : Thread
  joined : Thread

-- _aio: empty, an object without a descriptor, or one with.
pub data AioState : Type 0 where
  no_aio : AioState
  broken : AioState
  using_aio : IoAio → AioState

-- struct io_context
pub record IoContext : Type 0 where
  pub loop : IoLoop
  pub loc_thread : Thread
  pub aio : AioState
  pub buf_cache : BufferPool

abbrev made_aio : Option IoAio → AioState
made_aio none = broken
made_aio (some a) = using_aio a

-- io_context::io_context, by what io_setup and eventfd return for the aio.
unfoldable pub new_context : (Ctl → ℤ) → ℕ → ℕ → Bool → ℤ → ℕ → IoContext
unfolding new_loop Aio.new_inst ByteBuffer.new_inst
new_context epoll_ctl event_fd this use_aio io_setup aio_fd = record {
  loop = new_loop epoll_ctl event_fd this;
  loc_thread = no_thread;
  aio = if use_aio then made_aio (Aio.new_inst io_setup aio_fd) else no_aio;
  buf_cache = ByteBuffer.new_inst (32 * 2 ^ 20);
}

-- io_context::~io_context: a std::thread that is joinable terminates the program when it is destroyed.
unfoldable pub end_context : ℕ → IoContext → Option IoLoop
unfolding end_loop
end_context event_fd c = elim c.loc_thread [
  | joinable ↦ none
  | no_thread ↦ some (end_loop event_fd c.loop)
  | joined ↦ some (end_loop event_fd c.loop)
]

-- io_context::co_spawn by the thread `caller`; `resume` runs a coroutine from its handle.
unfoldable pub co_spawn : (ℕ → IoLoop → IoLoop) → ℕ → ℕ → IoContext → IoContext
unfolding async_call
co_spawn resume caller handle c = record c { loop = async_call resume caller handle c.loop }

-- _run up to the loop: the eventfd of the aio is watched, by the aio as its callback.
unfoldable pub watch_aio : (Ctl → ℤ) → ℕ → IoContext → Option IoLoop
unfolding wait_read
watch_aio epoll_ctl this c = elim c.aio [
  | no_aio ↦ some c.loop
  | broken ↦ none
  | using_aio a ↦ some (wait_read epoll_ctl a.efd this c.loop)
]

unfoldable pub unwatch_aio : (Ctl → ℤ) → AioState → IoLoop → IoLoop
unfolding cancel_fdall
unwatch_aio epoll_ctl no_aio l = l
unwatch_aio epoll_ctl broken l = l
unwatch_aio epoll_ctl (using_aio a) l = cancel_fdall epoll_ctl a.efd l

-- Every id that assert(is_local_thread()) has found is that of the thread.
abbrev pub all_local : ℕ → List ℕ → Bool
all_local self [] = true
all_local self (t ∷ ts) = t == self && all_local self ts

module _ (on_file : ℕ → ℕ → ℤ → IoLoop → IoLoop) (so_error : ℕ → ℕ) (std : HeapAlgorithms)
    (on_time : EsTime → IoLoop → IoLoop) (epoll_ctl : Ctl → ℤ) (aio_callback : ℕ) where
  -- _run by the thread `self`; `none` where an assertion fails, and is_local_thread() is asserted in
  -- `init` and after the loop too, and also where the turns of the loop run out.
  unfoldable pub run_in : (IoLoop → IoLoop) → ℕ → List Turn → IoContext → Option IoContext
  unfolding watch_aio run unwatch_aio
  run_in init self turns c = elim (watch_aio epoll_ctl aio_callback c) [
    | none ↦ none
    | some l₁ ↦
        elim (run on_file so_error std on_time self turns (init (record l₁ { checked = [] }))) [
          | none ↦ none
          | some l₂ ↦
              let l₃ = unwatch_aio epoll_ctl c.aio l₂ in
              if all_local self l₃.checked then some (record c { loop = l₃ }) else none
        ]
  ]

  -- io_context::thread_func, after the promise that run_worker waits for
  unfoldable pub thread_func : ℕ → List Turn → IoContext → Option IoContext
  unfolding run_in
  thread_func self turns c = run_in (λ l. l) self turns c

  -- io_context::run_local
  unfoldable pub run_local : (IoLoop → IoLoop) → ℕ → List Turn → IoContext → Option IoContext
  unfolding run_in
  run_local init self turns c = run_in init self turns c

-- io_context::run_worker: the new std::thread replaces the one before it.
unfoldable pub run_worker : IoContext → Option IoContext
run_worker c = elim c.loc_thread [
  | joinable ↦ none
  | no_thread ↦ some (record c { loc_thread = joinable })
  | joined ↦ some (record c { loc_thread = joinable })
]

abbrev join : Thread → Thread
join no_thread = no_thread
join joinable = joined
join joined = joined

-- io_context::stop by the thread `caller`; it returns when the thread has ended.
unfoldable pub stop : ℕ → IoContext → IoContext
unfolding break_run is_local_thread
stop caller c =
    if is_local_thread caller c.loop
    then record c { loop = break_run c.loop }
    else record c { loop = break_run c.loop; loc_thread = join c.loc_thread }

-- io_context::aio_read, where `buff` is empty; `at` is what aligned_alloc returns.
unfoldable pub aio_read :
    ℕ
    → ℕ
    → ℕ
    → ℕ
    → ℕ
    → List Submitted
    → List Fetched
    → IoAio
    → BufferPool
    → Option (ByteBuffer × IoAio × List IoEvent × List Fetched) × BufferPool
unfolding malloc Aio.aio_read
aio_read fd offset count at icb submits fetches a p =
    let r = malloc p (u32 count) 12 0 at in
    (Aio.aio_read fd offset count r.0 icb submits fetches a, r.1)

-- io_context::aio_write
unfoldable pub aio_write :
    ℕ
    → ℕ
    → ByteBuffer
    → ℕ
    → List Submitted
    → List Fetched
    → IoAio
    → Option (IoAio × List IoEvent × List Fetched)
unfolding Aio.aio_write
aio_write fd offset buff icb submits fetches a = Aio.aio_write fd offset buff icb submits fetches a

-- scope_exit and cancel_delay: the guard's end cancels its timer in the context of the thread.
unfoldable pub end_cancel_delay : HeapAlgorithms → ℤ → IoContext → IoContext
unfolding Timers.cancel_delay
end_cancel_delay std (pos timer_id) c = record c { loop = Timers.cancel_delay std timer_id c.loop }
end_cancel_delay std (negsuc n) c = c
