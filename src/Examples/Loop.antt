-- ===== src/Examples/Loop.antt =====
-- The tables, timers and posted functions of a loop.
use mathlib.Core.Logic.{◌≢◌}
use mathlib.Core.List.{Mem, Perm, not-mem-nil, map-append, Nodup-nil}
use nsio.Base.{ℕ, ◌≡◌, refl, List, [], ◌∷◌, ◌++◌, map, some, ◌==◌, if◌then◌else◌, arith}
use nsio.Base.Int.{ℤ, pos}
use nsio.IoLoop.{EsTime, IoLoop, Ctl, epollin, epollout}
use nsio.IoLoop.Fds.{new_loop, wait_fd, cancel_ev}
use nsio.IoLoop.Epoll.{IsSynced, for_write, of_read}
use nsio.IoLoop.Synced.{new_loop-IsSynced, wait_fd-IsSynced, cancel_ev-IsSynced}
use nsio.IoLoop.Timers.{IsHeap, delay_call, cancel_delay, fire_timers}
use nsio.IoLoop.Timers.Queue.{
  IsTimed, ids, delay_call-IsTimed, cancel_delay-IsTimed, cancel_delay-delay_call,
}
use nsio.IoLoop.Timers.Fire.{Pass, IsLogged, fire_timers_total}
use nsio.IoLoop.Async.{on_async_event, IsPosting, posted, async_runs_once}
use nsio.Examples.Heap.{sorted_vector}

-- epoll_ctl that always succeeds.
abbrev pub succeeds : Ctl → ℤ
succeeds c = pos 0

abbrev pub started : IoLoop
started = new_loop succeeds 4 100

wait_fd-IsSynced_example : IsSynced (wait_fd succeeds epollout 4 7 started).1
wait_fd-IsSynced_example =
    wait_fd-IsSynced succeeds epollout 4 7 started for_write (new_loop-IsSynced succeeds 4 100)

cancel_ev-IsSynced_example : IsSynced (cancel_ev succeeds 4 epollin started).1
cancel_ev-IsSynced_example =
    cancel_ev-IsSynced succeeds 4 epollin started of_read (new_loop-IsSynced succeeds 4 100)

-- A loop without timers, and the same with one.
abbrev pub bare : IoLoop
bare = record {
  breaking = 0;
  thread_id = 0;
  g_timer_id = 0;
  fds = [];
  timer = [];
  async_funcs_tmp = [];
  async_funcs = 5 ∷ 6 ∷ [];
  ctls = [];
  wakes = 2;
  callbacks = 0;
  checked = [];
}

pub bare-IsTimed : IsTimed bare
bare-IsTimed = record {
  heap = λ c h p. absurd (omega arith);
  given = λ t m. absurd (not-mem-nil m);
  distinct = Nodup-nil;
}

abbrev timed : IoLoop
timed = (delay_call sorted_vector 30 9 bare).1

delay_call-IsTimed_example : IsTimed (delay_call sorted_vector 20 8 timed).1
delay_call-IsTimed_example =
    delay_call-IsTimed sorted_vector 20 8 timed
      (delay_call-IsTimed sorted_vector 30 9 bare bare-IsTimed)

cancel_delay-IsTimed_example :
    IsTimed (cancel_delay sorted_vector 1 timed)
    × ((t : EsTime) → Mem t (cancel_delay sorted_vector 1 timed).timer → t.id ≢ 1)
cancel_delay-IsTimed_example =
    cancel_delay-IsTimed sorted_vector 1 timed
      (delay_call-IsTimed sorted_vector 30 9 bare bare-IsTimed)

cancel_delay-delay_call_example :
    Perm
      (cancel_delay sorted_vector
        (delay_call sorted_vector 20 8 timed).0
        (delay_call sorted_vector 20 8 timed).1).timer
      timed.timer
cancel_delay-delay_call_example =
    cancel_delay-delay_call sorted_vector 20 8 timed
      (delay_call-IsTimed sorted_vector 30 9 bare bare-IsTimed)

-- Two timers, the earlier one first.
abbrev early : EsTime
early = record { id = 2; when = 20; func = 8 }

abbrev late : EsTime
late = record { id = 1; when = 30; func = 9 }

abbrev two : IoLoop
two = record bare { g_timer_id = 2; timer = early ∷ late ∷ [] }

two-IsHeap : IsHeap two.timer
two-IsHeap c h p = let e : c ≡ 1 = omega arith in rw e (omega arith)

-- Callbacks that add their timer's object to what the first function queue holds.
abbrev fire : EsTime → IoLoop → IoLoop
fire t l = record l { async_funcs = l.async_funcs ++ t.id ∷ [] }

abbrev fired_ids : IoLoop → List ℕ
fired_ids l = l.async_funcs

fire-IsLogged : IsLogged fire fired_ids
fire-IsLogged = record { quiet = λ t l. refl; logs = λ t l. refl; apart = λ ts l. refl }

fire_timers_total_example :
    (l' : IoLoop) × (fired : List EsTime) × (fire_timers sorted_vector fire (25 ∷ 26 ∷ 27 ∷ []) two
      ≡ some l')
    × Pass (25 ∷ 26 ∷ 27 ∷ []) two l' fired
    × (fired_ids l' ≡ fired_ids two ++ ids fired)
fire_timers_total_example =
    fire_timers_total sorted_vector fire fired_ids fire-IsLogged (25 ∷ 26 ∷ 27 ∷ []) two two-IsHeap
      (omega arith)

-- Function 5 posts 7 and 8, the others nothing; the timers show the calls.
abbrev posts : ℕ → List ℕ
posts f = if f == 5 then 7 ∷ 8 ∷ [] else []

abbrev post : ℕ → IoLoop → IoLoop
post f l = record l {
  async_funcs = l.async_funcs ++ posts f;
  timer = l.timer ++ record { id = f; when = 0; func = 0 } ∷ [];
}

abbrev called : IoLoop → List ℕ
called l = map (λ (t : EsTime). t.id) l.timer

post-IsPosting : IsPosting post posts called
post-IsPosting = record {
  running = λ f l. refl;
  appends = λ f l. refl;
  logs = λ f l. map-append _ l.timer _;
  apart = λ tmp fs n table l. refl;
}

async_runs_once_example :
    (called (on_async_event post 4 100 bare) ≡ called bare ++ bare.async_funcs)
    × ((on_async_event post 4 100 bare).async_funcs ≡ posted posts bare.async_funcs)
    × ((on_async_event post 4 100 bare).async_funcs_tmp ≡ [])
async_runs_once_example = async_runs_once post posts called post-IsPosting 4 100 bare refl
