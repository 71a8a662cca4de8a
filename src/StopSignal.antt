-- ===== src/StopSignal.antt =====
-- common/stop_signal.h: SIGINT and SIGTERM count up a variable of the program. The report to the log is
-- left out.
use nsio.Base.{ℕ, zero, suc, ◌+◌, Bool, true, Option, none, some, ◌==◌, if◌then◌else◌}
use nsio.Base.Int.{ℤ, pos, negsuc}

-- A process: the variable of the object that inst() points to, the values of its variables, and whether
-- the two signals have the handler. A variable is its address.
pub record Process : Type 0 where
  pub inst : Option ℕ
  pub memory : ℕ → ℤ
  pub is_handled : Bool

-- stop_signal::stop_signal; `none` is its failed assertion. Nothing takes the object out again.
unfoldable pub new_stop_signal : ℕ → Process → Option Process
new_stop_signal stop_run p = elim p.inst [
  | some other ↦ none
  | none ↦ some (record p { inst = some stop_run; is_handled = true })
]

-- n + 1, which C++ leaves undefined for the greatest int
abbrev next : ℤ → ℤ
next (pos n) = pos (n + 1)
next (negsuc zero) = pos 0
next (negsuc (suc n)) = negsuc n

-- stop_signal::signal_handler; `none` where there is no object.
unfoldable pub signal_handler : Process → Option Process
signal_handler p = elim p.inst [
  | none ↦ none
  | some stop_run ↦
      some
        (record p { memory = λ i. if i == stop_run then next (p.memory stop_run) else p.memory i })
]
