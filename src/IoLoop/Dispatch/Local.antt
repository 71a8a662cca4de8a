-- ===== src/IoLoop/Dispatch/Local.antt =====
-- assert(is_local_thread()) in cancel_ev and cancel_delay, while io_loop::run runs.
use nsio.Base.{
  ℕ, ◌≡◌, ◌⊎◌, refl, inl, inr, Bool, true, false, List, [], ◌∷◌, Option, none, some, leb, ◌==◌,
  if◌then◌else◌, All, length, Bool-cases, Option-cases,
}
use nsio.Base.Int.{ℤ, pos}
use nsio.IoLoop.{EsTime, IoLoop, Ctl, epollin, epollout}
use nsio.IoLoop.Fds.{slot, has, put, cancel_ev}
use nsio.IoLoop.Timers.{HeapAlgorithms, split_last, pop_timer, fire_timers, poll_timeout}
use nsio.IoLoop.Dispatch.{
  EpollEvent, ready, failed, Waited, Turn, ev_err, interrupted, call_w, call_r, ready_w, ready_r,
  dispatch_event, dispatch_all, run_loop, run,
}

-- The loop is that of the thread `self`, and no such assertion has failed in that thread.
pub record IsLocal (self : ℕ) (l : IoLoop) : Type 0 where
  pub owner : l.thread_id ≡ self
  pub passed : All (λ (t : ℕ). t ≡ self) l.checked

List-cases :
    (ts : List EsTime) → (ts ≡ []) ⊎ ((t : EsTime) × (rest : List EsTime) × (ts ≡ t ∷ rest))
List-cases [] = inl refl
List-cases (t ∷ rest) = inr (t, rest, refl)

Waited-cases : (w : Waited) → ((e : ℕ) × (w ≡ failed e)) ⊎ ((es : List EpollEvent) × (w ≡ ready es))
Waited-cases (failed e) = inl (e, refl)
Waited-cases (ready es) = inr (es, refl)

module _ (self : ℕ) where
  pub cancel_ev-IsLocal :
      (epoll_ctl : Ctl → ℤ) (fd ev : ℕ) (l : IoLoop)
      → IsLocal self l
      → IsLocal self (cancel_ev epoll_ctl fd ev l).1
  unfolding cancel_ev
  cancel_ev-IsLocal epoll_ctl fd ev l v = elim (Bool-cases (leb (length l.fds) fd)) [
    | inl outside ↦ rw outside (record { owner = v.owner; passed = (v.owner, v.passed) })
    | inr inside ↦ rw inside (elim (Option-cases (slot l fd).fd) [
      | inl unset ↦ rw (unset, cancel_ev) (record { owner = v.owner; passed = (v.owner, v.passed) })
      | inr (j, entry) ↦
          rw (entry, cancel_ev) (record { owner = v.owner; passed = (v.owner, v.passed) })
    ])
  ]

  abbrev IsKept : Option IoLoop → Type 0
  IsKept none = Unit {0}
  IsKept (some l) = IsLocal self l

  IsKept-if : (b : Bool) (x y : Option IoLoop) → IsKept x → IsKept y → IsKept (if b then x else y)
  IsKept-if true x y p q = p
  IsKept-if false x y p q = q

  then-IsKept :
      (o : Option IoLoop) (f : IoLoop → Option IoLoop)
      → IsKept o
      → ((l : IoLoop) → IsLocal self l → IsKept (f l))
      → IsKept (elim o [ none ↦ none | some l ↦ f l ])
  then-IsKept none f v h = tt
  then-IsKept (some l) f v h = h l v

  module _ (on_file : ℕ → ℕ → ℤ → IoLoop → IoLoop) (so_error : ℕ → ℕ) (std : HeapAlgorithms)
      (on_time : EsTime → IoLoop → IoLoop)
      (files : (f fd : ℕ) (event : ℤ) (l : IoLoop)
        → IsLocal self l
        → IsLocal self (on_file f fd event l))
      (times : (t : EsTime) (l : IoLoop) → IsLocal self l → IsLocal self (on_time t l)) where
    call_w-IsLocal :
        (fd : ℕ) (event : ℤ) (l : IoLoop)
        → IsLocal self l
        → IsLocal self (call_w on_file so_error fd event l)
    unfolding call_w put
    call_w-IsLocal fd event l v = elim (Option-cases (slot l fd).func_w) [
      | inl nobody ↦ rw (nobody, call_w) v
      | inr (f, waits) ↦
          rw (waits, call_w) (files f fd event _ (record { owner = v.owner; passed = v.passed }))
    ]

    call_r-IsLocal :
        (fd : ℕ) (event : ℤ) (l : IoLoop)
        → IsLocal self l
        → IsLocal self (call_r on_file so_error fd event l)
    unfolding call_r put
    call_r-IsLocal fd event l v = elim (Option-cases (slot l fd).func_r) [
      | inl nobody ↦ rw (nobody, call_r) v
      | inr (f, waits) ↦
          rw (waits, call_r) (files f fd event _ (record { owner = v.owner; passed = v.passed }))
    ]

    ready_w-IsKept :
        (fd events : ℕ) (l : IoLoop)
        → IsLocal self l
        → IsKept (ready_w on_file so_error fd events l)
    unfolding ready_w
    ready_w-IsKept fd events l v = elim (Option-cases (slot l fd).func_w) [
      | inl nobody ↦ rw (nobody, ready_w) v
      | inr (f, waits) ↦
          rw (waits, ready_w)
            (IsKept-if (has events epollout) _ _
              (IsKept-if (has (slot l fd).event epollout) _ _ (call_w-IsLocal fd (pos 2) l v) tt) v)
    ]

    ready_r-IsKept :
        (fd events : ℕ) (l : IoLoop)
        → IsLocal self l
        → IsKept (ready_r on_file so_error fd events l)
    unfolding ready_r
    ready_r-IsKept fd events l v = elim (Option-cases (slot l fd).func_r) [
      | inl nobody ↦ rw (nobody, ready_r) v
      | inr (f, waits) ↦
          rw (waits, ready_r)
            (IsKept-if (has events epollin) _ _
              (IsKept-if (has (slot l fd).event epollin) _ _ (call_r-IsLocal fd (pos 1) l v) tt) v)
    ]

    dispatch_event-IsKept :
        (e : EpollEvent) (l : IoLoop)
        → IsLocal self l
        → IsKept (dispatch_event on_file so_error e l)
    unfolding dispatch_event
    dispatch_event-IsKept e l v =
        IsKept-if (leb (length l.fds) e.fd) _ _ v (elim (Option-cases (slot l e.fd).fd) [
          | inl unset ↦ rw (unset, dispatch_event) tt
          | inr (j, entry) ↦
              rw (entry, dispatch_event)
                (IsKept-if (has e.events ev_err) _ _
                  (call_r-IsLocal e.fd _ _ (call_w-IsLocal e.fd _ l v))
                  (then-IsKept (ready_w on_file so_error e.fd e.events l) _
                    (ready_w-IsKept e.fd e.events l v) (ready_r-IsKept e.fd e.events)))
        ])

    dispatch_all-IsKept :
        (es : List EpollEvent) (l : IoLoop)
        → IsLocal self l
        → IsKept (dispatch_all on_file so_error es l)
    unfolding dispatch_all
    dispatch_all-IsKept [] l v = v
    dispatch_all-IsKept (e ∷ es) l v =
        then-IsKept (dispatch_event on_file so_error e l) (dispatch_all on_file so_error es)
          (dispatch_event-IsKept e l v) (dispatch_all-IsKept es)

    popped-cases :
        (l : IoLoop)
        → IsLocal self l
        → (pop_timer std l ≡ none)
          ⊎ ((t : EsTime) × (l' : IoLoop) × (pop_timer std l ≡ some (t, l')) × IsLocal self l')
    unfolding pop_timer
    popped-cases l v = elim (Option-cases (split_last (std.pop_heap l.timer))) [
      | inl nothing ↦ inl (rw (nothing, pop_timer) refl)
      | inr ((rest, t), found) ↦ inr (
        t,
        record l { timer = rest },
        rw (found, pop_timer) refl,
        record { owner = v.owner; passed = v.passed },
      )
    ]

    fire_timers-IsKept :
        (clock : List ℕ) (l : IoLoop) → IsLocal self l → IsKept (fire_timers std on_time clock l)
    unfolding fire_timers
    fire_timers-IsKept [] l v = elim (List-cases l.timer) [
      | inl none_left ↦ rw (none_left, fire_timers) v
      | inr (first, ts, left) ↦ rw (left, fire_timers) tt
    ]
    fire_timers-IsKept (now ∷ clock) l v = elim (List-cases l.timer) [
      | inl none_left ↦ rw (none_left, fire_timers) v
      | inr (first, ts, left) ↦ elim (Bool-cases (leb first.when now)) [
        | inr later ↦ rw (left, fire_timers, later) v
        | inl due ↦ elim (popped-cases l v) [
          | inl nothing ↦ rw (left, fire_timers, due, nothing) v
          | inr (t, l', popped, v') ↦
              rw (left, fire_timers, due, popped) (fire_timers-IsKept clock _ (times t l' v'))
        ]
      ]
    ]

    run_loop-IsKept :
        (turns : List Turn) (l : IoLoop)
        → IsLocal self l
        → IsKept (run_loop on_file so_error std on_time turns l)
    unfolding run_loop
    run_loop-IsKept [] l v = IsKept-if (l.breaking == 0) _ _ tt v
    run_loop-IsKept (t ∷ turns) l v = elim (Bool-cases (l.breaking == 0)) [
      | inr stop ↦ rw (stop, run_loop) v
      | inl going ↦ elim (Waited-cases (t.epoll_wait (poll_timeout t.now l.timer))) [
        | inl (e, answer) ↦ elim (Bool-cases (e == interrupted)) [
          | inl again ↦ rw (going, run_loop, answer, again) (run_loop-IsKept turns l v)
          | inr lasting ↦ rw (going, run_loop, answer, lasting) v
        ]
        | inr (events, answer) ↦
            rw (going, run_loop, answer)
              (then-IsKept (dispatch_all on_file so_error events l) _
                (dispatch_all-IsKept events l v)
                (λ l₁ v₁.
                  then-IsKept (fire_timers std on_time t.clock l₁) _
                    (fire_timers-IsKept t.clock l₁ v₁) (run_loop-IsKept turns)))
      ]
    ]

    pub run-IsLocal :
        (turns : List Turn) (l l' : IoLoop)
        → All (λ (t : ℕ). t ≡ self) l.checked
        → run on_file so_error std on_time self turns l ≡ some l'
        → IsLocal self l'
    unfolding run
    run-IsLocal turns l l' passed ran = rw ran at (
        run_loop-IsKept turns (record l { thread_id = self })
          (record { owner = refl; passed = passed }))
