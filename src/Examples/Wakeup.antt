-- ===== src/Examples/Wakeup.antt =====
-- Two posted functions and the runs of the handler for them.
use nsio.Base.{◌≤◌, ◌≡◌, refl, ◌⊎◌, inl, [], ◌∷◌, arith}
use nsio.IoLoop.Wakeup.{
  Shared, silent, calling, write, report, read, swap, invoke, emplace, works, Reach, start, later,
  Run, stop, go,
}
use nsio.IoLoop.Wakeup.Invariant.{IsSound, Reach-IsSound}
use nsio.IoLoop.Wakeup.Drained.{steps_left, HasStep, all_called}

-- Both are in the queue, and one of the two threads has written to the eventfd.
abbrev two_posted : Shared
two_posted = record silent { async_funcs = 5 ∷ 6 ∷ []; count = 1; waking = 1; posted = 5 ∷ 6 ∷ [] }

two_posted-Reach : Reach two_posted
two_posted-Reach = later (later (later start (emplace 5)) (works (write 0 refl))) (emplace 6)

Reach-IsSound_example : IsSound two_posted
Reach-IsSound_example = Reach-IsSound two_posted-Reach

-- The handler has called both, while the second thread has still to write.
abbrev both_called : Shared
both_called = record two_posted {
  async_funcs = [];
  async_funcs_tmp = 5 ∷ 6 ∷ [];
  count = 0;
  phase = calling [];
  called = 5 ∷ 6 ∷ [];
}

both_called-Run : Run two_posted 5 both_called
both_called-Run =
    go
      (go (go (go (go stop (report refl (omega arith) (inl refl))) (read refl)) (swap refl))
        (invoke 5 (6 ∷ []) refl))
      (invoke 6 [] refl)

all_called_example :
    (5 ≤ steps_left two_posted) × ((both_called.called ≡ two_posted.posted) ⊎ HasStep both_called)
all_called_example = all_called two_posted-Reach refl both_called-Run
