-- ===== src/Awaiter/Timeout.antt =====
-- coio/io_awaiter.h: what every awaiter has, and the timeout that is awaited by itself.
use nsio.Base.{ℕ, zero, suc, ◌+◌, Bool, false, List, [], ◌∷◌, Option, none, some}
use nsio.Base.Int.{ℤ, pos, negsuc}
use nsio.IoLoop.{IoLoop}
use nsio.IoLoop.Timers.{HeapAlgorithms, delay_call}
use nsio.Awaiter.{Effect, resume}

-- struct io_awaiter; `handle` is the coroutine that awaits it.
pub record IoAwaiter : Type 0 where
  pub result : ℤ
  pub handle : Option ℕ

-- io_awaiter::io_awaiter
unfoldable pub new_awaiter : IoAwaiter
new_awaiter = record { result = negsuc 0; handle = none }

unfoldable pub await_ready : IoAwaiter → Bool
await_ready a = false

unfoldable pub await_suspend : ℕ → IoAwaiter → IoAwaiter
await_suspend current a = record a { handle = some current }

unfoldable pub await_resume : IoAwaiter → ℤ
await_resume a = a.result

-- struct timeout with the fields of its base.
pub record Timeout : Type 0 where
  pub result : ℤ
  pub timer_id : ℤ

-- timeout::timeout(duration): a duration that is not positive sets no timer.
unfoldable pub new_timeout_for : HeapAlgorithms → ℤ → ℕ → ℕ → IoLoop → Timeout × IoLoop
unfolding delay_call
new_timeout_for std (negsuc n) now this l = (record { result = negsuc 0; timer_id = negsuc 0 }, l)
new_timeout_for std (pos zero) now this l = (record { result = negsuc 0; timer_id = negsuc 0 }, l)
new_timeout_for std (pos (suc n)) now this l =
    let r = delay_call std (now + suc n) this l in
    (record { result = negsuc 0; timer_id = pos r.0 }, r.1)

-- timeout::on_time_event
unfoldable pub on_time_event : Timeout → Timeout × List Effect
on_time_event s = (record s { result = pos 0; timer_id = pos 0 }, resume (pos 0) ∷ [])
