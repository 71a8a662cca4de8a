-- ===== src/Examples/Run.antt =====
-- A loop with one descriptor: a turn that a signal interrupts, and one that serves it.
use mathlib.Core.List.{not-mem-nil, Nodup-nil}
use nsio.Base.{ℕ, ◌≡◌, refl, sym, ap, List, [], ◌∷◌, Option, none, some, arith, length}
use nsio.Base.Int.{ℤ}
use nsio.IoLoop.{EsTime, IoLoop}
use nsio.IoLoop.Fds.{new_loop, wait_fd, wait_read, wait_slot, grow, slot, put}
use nsio.IoLoop.Epoll.{interest, IsSynced}
use nsio.IoLoop.Synced.{new_loop-IsSynced}
use nsio.IoLoop.Timers.{fire_timers}
use nsio.IoLoop.Timers.Queue.{IsTimed}
use nsio.IoLoop.Dispatch.{
  EpollEvent, ready, failed, Turn, dispatch_all, run, break_run, dispatch_event, ready_r, ready_w,
  call_r,
}
use nsio.IoLoop.Dispatch.Good.{Holds}
use nsio.IoLoop.Dispatch.Run.{IsWell, IsHandler, Meets, broken, retries, serves, run_safe}
use nsio.Examples.Heap.{sorted_vector}
use nsio.Examples.Loop.{succeeds, started}

-- Any object may wait for anything.
abbrev Anyone : ℕ → ℕ → Type 0
Anyone fd f = Unit {0}

held-Anyone : (fd : ℕ) (f : Option ℕ) → Holds (Anyone fd) f
held-Anyone fd none = tt
held-Anyone fd (some f) = tt

-- The callbacks tell the loop to break.
abbrev on_file : ℕ → ℕ → ℤ → IoLoop → IoLoop
unfolding break_run
on_file f fd event l = break_run l

abbrev on_time : EsTime → IoLoop → IoLoop
unfolding break_run
on_time t l = break_run l

breaks-IsSynced : (l : IoLoop) → IsSynced l → IsSynced (break_run l)
unfolding break_run
breaks-IsSynced l v = record { slots = v.slots; accepted = v.accepted }

breaks-IsTimed : (l : IoLoop) → IsTimed l → IsTimed (break_run l)
unfolding break_run
breaks-IsTimed l v = record { heap = v.heap; given = v.given; distinct = v.distinct }

pub breaks-IsWell : {R W : ℕ → ℕ → Type 0} (l : IoLoop) → IsWell R W l → IsWell R W (break_run l)
unfolding break_run
breaks-IsWell l v = record {
  synced = breaks-IsSynced l v.synced;
  manned = v.manned;
  extra = breaks-IsTimed l v.extra;
}

breaks-IsHandler : IsHandler Anyone Anyone on_file on_time
unfolding break_run
breaks-IsHandler = record {
  file = record {
    on_read =
        λ f fd event l r v watched. record { good = breaks-IsWell l v; others = λ i other k. k };
    on_write =
        λ f fd event l w v watched. record { good = breaks-IsWell l v; others = λ i other k. k };
    table = λ l fds v. record { heap = v.heap; given = v.given; distinct = v.distinct };
  };
  time = λ t l w. breaks-IsWell l w;
  fewer = λ t l. omega arith;
}

started-IsWell : IsWell Anyone Anyone started
unfolding new_loop wait_fd wait_read
started-IsWell = record {
  synced = new_loop-IsSynced succeeds 4 100;
  manned = λ i. (held-Anyone i (slot started i).func_r, held-Anyone i (slot started i).func_w);
  extra = record {
    heap = λ c h p. absurd (omega arith);
    given = λ t m. absurd (not-mem-nil m);
    distinct = Nodup-nil;
  };
}

abbrev pub no_errors : ℕ → ℕ
no_errors fd = 0

abbrev one_event : List EpollEvent
one_event = record { fd = 4; events = 1 } ∷ []

abbrev turns : List Turn
turns =
    record { now = 10; epoll_wait = λ ms. failed 4; clock = [] }
    ∷ record { now = 20; epoll_wait = λ ms. ready one_event; clock = 25 ∷ [] }
    ∷ []

abbrev running : IoLoop
running = record started { thread_id = 7 }

timers_of : Option IoLoop → List EsTime
timers_of none = []
timers_of (some l) = l.timer

breaking_of : Option IoLoop → ℕ
breaking_of none = 0
breaking_of (some l) = l.breaking

nothing_due :
    (l₁ l₂ : IoLoop)
    → l₁.timer ≡ []
    → fire_timers sorted_vector on_time (25 ∷ []) l₁ ≡ some l₂
    → l₁.breaking ≡ l₂.breaking
unfolding fire_timers breaking_of
nothing_due l₁ l₂ e fired = ap breaking_of (rw (e, fire_timers) at fired)

turns-Meets : Meets on_file no_errors sorted_vector on_time turns running
unfolding new_loop wait_fd wait_read wait_slot grow put interest dispatch_all dispatch_event ready_r
    ready_w call_r break_run timers_of breaking_of
turns-Meets = retries 4 refl refl refl (
    serves one_event refl refl (tt, tt) ((λ e. cc), tt)
      (λ l₁ e. omega (arith, ap (λ (l : Option IoLoop). length (timers_of l)) e))
      (λ l₁ l₂ e fired.
        broken (ground (arith, ap breaking_of e, nothing_due l₁ l₂ (sym (ap timers_of e)) fired))))

run_safe_example :
    (l' : IoLoop) × (run on_file no_errors sorted_vector on_time 7 turns started ≡ some l')
    × IsWell Anyone Anyone l'
run_safe_example =
    run_safe on_file no_errors sorted_vector on_time breaks-IsHandler 7 turns started started-IsWell
      turns-Meets
