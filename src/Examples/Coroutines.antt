-- ===== src/Examples/Coroutines.antt =====
-- A loop with a coroutine that awaits recv_lazy on descriptor 6.
use nsio.Base.{
  ℕ, true, ◌≡◌, refl, sym, ap, List, [], ◌∷◌, Option, none, some, ◌==◌, arith, length,
  if◌then◌else◌,
}
use nsio.Base.Int.{ℤ, pos, negsuc}
use nsio.IoLoop.{EsTime, IoLoop, epollin}
use nsio.IoLoop.Fds.{new_loop, wait_fd, wait_read, wait_slot, grow, put}
use nsio.IoLoop.Epoll.{interest}
use nsio.IoLoop.Async.{call_all, swap_funcs, on_async_event}
use nsio.IoLoop.Timers.{fire_timers}
use nsio.IoLoop.Dispatch.{
  EpollEvent, ready, Turn, dispatch_all, run, break_run, dispatch_event, ready_r, ready_w, call_r,
}
use nsio.IoLoop.Dispatch.Run.{IsWell, Meets, broken, serves}
use nsio.Awaiter.{got, failed}
use nsio.Awaiter.Recv.{RecvLazy, recv_loop}
use nsio.Awaiter.Recv
use nsio.Awaiter.Callbacks.{
  IoCallback, of_io_loop, of_io_aio, of_awaiter, deliver, of_recv_lazy, file_effects, apply, called,
  on_file, on_time, Reads, Writes,
}
use nsio.Awaiter.Callbacks.Keeps.{IsCoroutine, IsPosted}
use nsio.Awaiter.Callbacks.Local.{IsConfined}
use nsio.Awaiter.Callbacks.Run.{run_awaiters_safe}
use nsio.IoLoop.Dispatch.Calls.{wait_read-IsWell, initial-IsWell}
use nsio.Aio.{IoEvent, IoAio, events, on_event_fd, fetch_events, on_aio_event, new_inst}
use nsio.IoContext.{IoContext, new_context, watch_aio, run_local}
use nsio.IoContext.Local.{run_local_safe}
use mathlib.Core.Path.{subst}
use nsio.Examples.Heap.{sorted_vector}
use nsio.Examples.Loop.{succeeds, started}
use nsio.Examples.Run.{breaks-IsWell, no_errors}

abbrev two_bytes : RecvLazy
two_bytes = record {
  result = negsuc 0;
  timer_id = negsuc 0;
  is_timeout = 0;
  recved_bytes = 0;
  sockfd = 6;
  flags = 0;
  buff = 0 ∷ 0 ∷ [];
}

abbrev read_done : IoEvent
read_done = record { data_id = 9; res = pos 512; res2 = pos 0 }

abbrev file_io : IoAio
file_io = record { efd = 5; req = 1; res = 0; submitted = [] }

-- The loop is object 100, the aio 200, and the recv_lazy any other.
abbrev object : ℕ → ℕ → IoCallback
object this n =
    if this == 100
    then of_io_loop 4
    else if this == 200
    then of_io_aio file_io (events (read_done ∷ []) ∷ [])
    else of_awaiter (of_recv_lazy two_bytes (got (8 ∷ []) ∷ got (9 ∷ []) ∷ failed 11 ∷ []))

-- The coroutine tells the loop to break.
abbrev coroutine : ℕ → ℕ → ℤ → IoLoop → IoLoop
unfolding break_run
coroutine this fd z l = break_run l

abbrev call : ℕ → IoLoop → IoLoop
call f l = l

abbrev read_file : ℕ → ℤ → IoLoop → IoLoop
read_file this z l = l

abbrev waiting : IoLoop
waiting = (wait_fd succeeds epollin 6 7 started).1

receives : Reads object 6 7
receives n = (refl, omega arith)

waiting-IsWell : IsWell (Reads object) (Writes object) waiting
unfolding new_loop wait_read
waiting-IsWell =
    wait_read-IsWell succeeds 6 7 _ receives
      (wait_read-IsWell succeeds 4 100 _ (λ n. refl) initial-IsWell)

object-IsCoroutine : IsCoroutine object coroutine
unfolding break_run
object-IsCoroutine = record {
  keeps = λ this fd z l v. record { good = breaks-IsWell l v; others = λ i other k. k };
  fewer = λ this fd z l. omega arith;
  stays = λ this fd n z l s on. on;
}

object-IsPosted : IsPosted object call
object-IsPosted = record {
  keeps = λ f fd l v. record { good = v; others = λ i other k. k };
  stays = λ f fd l on. on;
}

object-IsFiled : IsPosted object (λ (r : ℕ × ℤ). read_file r.0 r.1)
object-IsFiled = record {
  keeps = λ f fd l v. record { good = v; others = λ i other k. k };
  stays = λ f fd l on. on;
}

abbrev both_events : List EpollEvent
both_events = record { fd = 4; events = 1 } ∷ record { fd = 6; events = 1 } ∷ []

abbrev turns : List Turn
turns = record { now = 10; epoll_wait = λ ms. ready both_events; clock = 25 ∷ [] } ∷ []

abbrev running : IoLoop
running = record waiting { thread_id = 7 }

timers_of : Option IoLoop → List EsTime
timers_of none = []
timers_of (some l) = l.timer

breaking_of : Option IoLoop → ℕ
breaking_of none = 0
breaking_of (some l) = l.breaking

nothing_due :
    (l₁ l₂ : IoLoop)
    → l₁.timer ≡ []
    → fire_timers sorted_vector (on_time succeeds coroutine object call read_file) (25 ∷ []) l₁
      ≡ some l₂
    → l₁.breaking ≡ l₂.breaking
unfolding fire_timers breaking_of
nothing_due l₁ l₂ e fired = ap breaking_of (rw (e, fire_timers) at fired)

turns-Meets :
    Meets
      (on_file succeeds coroutine object call read_file)
      no_errors
      sorted_vector
      (on_time succeeds coroutine object call read_file)
      turns
      running
unfolding new_loop wait_fd wait_read wait_slot grow put interest dispatch_all dispatch_event ready_r
    ready_w call_r break_run timers_of breaking_of on_file called file_effects apply
    Recv.on_file_event recv_loop on_async_event swap_funcs call_all
turns-Meets =
    serves both_events refl refl (((λ e. cc), tt), (tt, tt)) ((λ e. cc), ((λ e. cc), tt))
      (λ l₁ e. omega (arith, ap (λ (l : Option IoLoop). length (timers_of l)) e))
      (λ l₁ l₂ e fired.
        broken (ground (arith, ap breaking_of e, nothing_due l₁ l₂ (sym (ap timers_of e)) fired)))

run_awaiters_safe_example :
    (l' : IoLoop) × (run
        (on_file succeeds coroutine object call read_file)
        no_errors
        sorted_vector
        (on_time succeeds coroutine object call read_file)
        7
        turns
        waiting
      ≡ some l')
    × IsWell (Reads object) (Writes object) l'
run_awaiters_safe_example =
    run_awaiters_safe succeeds object coroutine call read_file object-IsCoroutine object-IsPosted
      object-IsFiled no_errors sorted_vector 7 turns waiting waiting-IsWell turns-Meets

-- A context with an aio, whose first function starts the coroutine.
abbrev init : IoLoop → IoLoop
unfolding wait_read
init l = wait_read succeeds 6 7 l

init-checked : (l : IoLoop) → (init l).checked ≡ l.checked
unfolding init wait_read wait_fd
init-checked l = refl

coroutine-IsConfined : IsConfined 7 coroutine call read_file
unfolding break_run
coroutine-IsConfined = record {
  resumed = λ this fd z l v. record { owner = v.owner; passed = v.passed };
  posted = λ f l v. v;
  filed = λ this z l v. v;
}

abbrev local : IoContext
unfolding new_context
local = new_context succeeds 4 100 true (pos 0) 5

abbrev three_events : List EpollEvent
three_events = record { fd = 5; events = 1 } ∷ both_events

abbrev local_turns : List Turn
local_turns = record { now = 10; epoll_wait = λ ms. ready three_events; clock = 25 ∷ [] } ∷ []

abbrev watched : IoLoop
unfolding wait_read
watched = wait_read succeeds 5 200 local.loop

loop_of : Option IoLoop → IoLoop
loop_of none = started
loop_of (some l) = l

watched_only : (l : IoLoop) → watch_aio succeeds 200 local ≡ some l → watched ≡ l
unfolding watch_aio new_context new_inst loop_of
watched_only l e = ap loop_of e

local-Meets :
    Meets
      (on_file succeeds coroutine object call read_file)
      no_errors
      sorted_vector
      (on_time succeeds coroutine object call read_file)
      local_turns
      (record (init (record watched { checked = [] })) { thread_id = 7 })
unfolding new_context new_loop wait_fd wait_read wait_slot grow put interest dispatch_all
    dispatch_event ready_r ready_w call_r break_run timers_of breaking_of on_file called
    file_effects apply Recv.on_file_event recv_loop on_async_event swap_funcs call_all on_event_fd
    fetch_events deliver on_aio_event
local-Meets =
    serves three_events refl refl (((λ e. cc), ((λ e. cc), tt)), (((λ e. cc), tt), (tt, tt)))
      ((λ e. cc), ((λ e. cc), ((λ e. cc), tt)))
      (λ l₁ e. omega (arith, ap (λ (l : Option IoLoop). length (timers_of l)) e))
      (λ l₁ l₂ e fired.
        broken (ground (arith, ap breaking_of e, nothing_due l₁ l₂ (sym (ap timers_of e)) fired)))

collects : Reads object 5 200
unfolding on_event_fd fetch_events
collects n = (refl, λ e. cc)

run_local_safe_example :
    (c : IoContext) × (run_local
        (on_file succeeds coroutine object call read_file)
        no_errors
        sorted_vector
        (on_time succeeds coroutine object call read_file)
        succeeds
        200
        init
        7
        local_turns
        local
      ≡ some c)
    × IsWell (Reads object) (Writes object) c.loop
unfolding init wait_read local new_context
run_local_safe_example =
    run_local_safe succeeds object coroutine call read_file object-IsCoroutine object-IsPosted
      object-IsFiled 4 100 true (pos 0) 5 200 no_errors sorted_vector init 7 local_turns (λ n. refl)
      collects (λ e. refl)
      (λ l v unchecked.
        (wait_read-IsWell succeeds 6 7 l receives v, rw (init-checked l, unchecked) tt))
      coroutine-IsConfined
      (λ l e.
        subst
          (λ (x : IoLoop).
            Meets (on_file succeeds coroutine object call read_file) no_errors sorted_vector
              (on_time succeeds coroutine object call read_file) local_turns
              (record (init (record x { checked = [] })) { thread_id = 7 }))
          (watched_only l e) local-Meets)
