-- ===== src/IoLoop/Timers.antt =====
-- The timers of io_loop: delay_call, cancel_delay and the loop that fires what is due. The heap
-- algorithms are the C++ library's: a parameter, with what [alg.heap.operations] promises of them.
pub mod Order
pub mod Queue
pub mod Fire
use nsio.Base.{
  ℕ, suc, ◌+◌, ◌-◌, ◌*◌, ◌/◌, ◌%◌, ◌^◌, ◌≤◌, ◌<◌, ◌≡◌, Bool, true, false, List, [], ◌∷◌, ◌++◌,
  Option, none, some, ltb, leb, ◌==◌, if◌then◌else◌, length, get_or,
}
use mathlib.Core.List.{Perm}
use nsio.IoLoop.{EsTime, IoLoop, assert_local}

abbrev no_timer : EsTime
no_timer = record { id = 0; when = 0; func = 0 }

abbrev pub when_at : List EsTime → ℕ → ℕ
when_at ts i = (get_or ts i no_timer).when

-- A heap under compare_timer, by which the earliest time stands first: no entry is later than the
-- entries that it is the parent of.
abbrev pub IsHeap : List EsTime → Type 0
IsHeap ts = (c : ℕ) → 0 < c → c < length ts → when_at ts ((c - 1) / 2) ≤ when_at ts c

-- std::push_heap, std::pop_heap and std::make_heap with compare_timer.
pub record HeapAlgorithms : Type 0 where
  pub push_heap : List EsTime → List EsTime
  pub pop_heap : List EsTime → List EsTime
  pub make_heap : List EsTime → List EsTime
  pub push-perm : (ts : List EsTime) → Perm (push_heap ts) ts
  pub push-IsHeap : (ts : List EsTime) (t : EsTime) → IsHeap ts → IsHeap (push_heap (ts ++ t ∷ []))
  pub pop_moves :
      (t : EsTime) (ts : List EsTime)
      → IsHeap (t ∷ ts)
      → (rest : List EsTime) × (pop_heap (t ∷ ts) ≡ rest ++ t ∷ []) × IsHeap rest × Perm rest ts
  pub make-perm : (ts : List EsTime) → Perm (make_heap ts) ts
  pub make-IsHeap : (ts : List EsTime) → IsHeap (make_heap ts)

-- back and pop_back
abbrev pub split_last : List EsTime → Option (List EsTime × EsTime)
split_last [] = none
split_last (t ∷ ts) = elim (split_last ts) [
  | none ↦ some ([], t)
  | some (front, last) ↦ some (t ∷ front, last)
]

-- find_if on the id, and erase; `none` where the id is not there.
unfoldable pub erase_id : ℕ → List EsTime → Option (List EsTime)
erase_id i [] = none
erase_id i (t ∷ ts) =
    let rest = erase_id i ts in
    if t.id == i then some ts else elim rest [ none ↦ none | some left ↦ some (t ∷ left) ]

module _ (std : HeapAlgorithms) where
  -- io_loop::delay_call(when, func); its result is the id. C++ leaves the overflow of the counter
  -- undefined.
  unfoldable pub delay_call : ℕ → ℕ → IoLoop → ℕ × IoLoop
  delay_call when func l =
      let id = l.g_timer_id + 1 in
      let tt : EsTime = record { id = id; when = when; func = func } in
      (id, record l { g_timer_id = id; timer = std.push_heap (l.timer ++ tt ∷ []) })

  -- io_loop::delay_call(after, func), where `now` is the clock's reading and `nanos` the delay
  -- rounded to nanoseconds.
  unfoldable pub delay_call_after : ℕ → ℕ → ℕ → IoLoop → ℕ × IoLoop
  unfolding delay_call
  delay_call_after now nanos func l = delay_call (now + nanos) func l

  -- io_loop::cancel_delay
  unfoldable pub cancel_delay : ℕ → IoLoop → IoLoop
  unfolding erase_id
  cancel_delay timer_id l = elim (erase_id timer_id l.timer) [
    | none ↦ assert_local l
    | some left ↦ record (assert_local l) { timer = std.make_heap left }
  ]

  -- pop_heap, back and pop_back; `none` on an empty heap.
  unfoldable pub pop_timer : IoLoop → Option (EsTime × IoLoop)
  pop_timer l = elim (split_last (std.pop_heap l.timer)) [
    | none ↦ none
    | some (rest, t) ↦ some (t, record l { timer = rest })
  ]

  -- while (!_timer.empty() && _timer[0]._when <= now()): each test of the time takes one reading of
  -- the clock; `none` where the readings run out. `on_time` is the virtual on_time_event.
  unfoldable pub fire_timers : (EsTime → IoLoop → IoLoop) → List ℕ → IoLoop → Option IoLoop
  unfolding pop_timer
  fire_timers on_time [] l = elim l.timer [ [] ↦ some l | _ ∷ _ ↦ none ]
  fire_timers on_time (now ∷ clock) l = elim l.timer [
    | [] ↦ some l
    | first ∷ _ ↦ elim (leb first.when now) [
      | false ↦ some l
      | true ↦ elim (pop_timer l) [
        | none ↦ some l
        | some (t, l') ↦ fire_timers on_time clock (on_time t l')
      ]
    ]
  ]

-- The timeout of epoll_wait in milliseconds: at most 100, and none past the first timer. The count,
-- which is negative for a timer that is overdue, is narrowed to int.
unfoldable pub poll_timeout : ℕ → List EsTime → ℕ
poll_timeout now [] = 100
poll_timeout now (first ∷ _) =
    let left =
      if leb now first.when
      then (first.when - now) / 1000000 % 2 ^ 32
      else (2 ^ 32 - (now - first.when) / 1000000 % 2 ^ 32) % 2 ^ 32 in
    if ltb left (2 ^ 31) then (if ltb left 100 then left else 100) else 0
