-- ===== src/IoLoop/Timers/Fire.antt =====
-- The loop that fires the timers that are due, and the time that the loop waits for the next.
use mathlib.Core.List.{
  Mem, Perm, Pairwise, append-nil, append_assoc, mem-cons_self, mem-cons_of_mem, mem-append_left,
}
use mathlib.Core.List.Perm
use nsio.Base.{
  ℕ, ◌+◌, ◌*◌, ◌≤◌, ◌<◌, ◌≡◌, refl, ◌⊎◌, inl, inr, List, [], ◌∷◌, ◌++◌, sym, ◌∙◌, ap, some, arith,
  leb, true, length, length-perm, Bool-cases, leb→gt,
}
use nsio.IoLoop.{EsTime, IoLoop}
use nsio.IoLoop.Timers.{IsHeap, HeapAlgorithms, pop_timer, fire_timers, poll_timeout}
use nsio.IoLoop.Timers.Queue.{ids, pop_timer-first}
use nsio.IoLoop.Timers.Order.{first_least}

-- What one pass of the loop over the timers did: `fired` were taken, earliest first; what stays is a
-- heap, and nothing in it was due at some reading of the clock.
pub record Pass (clock : List ℕ) (l l' : IoLoop) (fired : List EsTime) : Type 0 where
  pub same : Perm (fired ++ l'.timer) l.timer
  pub ordered : Pairwise (λ (t u : EsTime). t.when ≤ u.when) fired
  pub heap : IsHeap l'.timer
  pub settled :
      (l'.timer ≡ []) ⊎ ((now : ℕ) × Mem now clock × ((t : EsTime) → Mem t l'.timer → now < t.when))

-- Callbacks that leave the timers alone, and of which `log` shows the calls.
pub record IsLogged (on_time : EsTime → IoLoop → IoLoop) (log : IoLoop → List ℕ) : Type 0 where
  pub quiet : (t : EsTime) (l : IoLoop) → (on_time t l).timer ≡ l.timer
  pub logs : (t : EsTime) (l : IoLoop) → log (on_time t l) ≡ log l ++ t.id ∷ []
  pub apart : (ts : List EsTime) (l : IoLoop) → log (record l { timer = ts }) ≡ log l

module _ (std : HeapAlgorithms) (on_time : EsTime → IoLoop → IoLoop) (log : IoLoop → List ℕ)
    (c : IsLogged on_time log) where
  fire_due :
      (now : ℕ) (clock : List ℕ) (l : IoLoop) (first : EsTime) (ts : List EsTime) (l₁ : IoLoop)
      → l.timer ≡ first ∷ ts
      → leb first.when now ≡ true
      → pop_timer std l ≡ some (first, l₁)
      → fire_timers std on_time (now ∷ clock) l ≡ fire_timers std on_time clock (on_time first l₁)
  unfolding fire_timers
  fire_due now clock l first ts l₁ e due popped = rw (e, fire_timers, due, popped) refl

  Passed : List ℕ → IoLoop → Type 0
  Passed clock l =
      (l' : IoLoop) × (fired : List EsTime) × (fire_timers std on_time clock l ≡ some l')
      × Pass clock l l' fired
      × (log l' ≡ log l ++ ids fired)

  pass_from :
      (clock : List ℕ) (l : IoLoop) (ts : List EsTime)
      → l.timer ≡ ts
      → IsHeap l.timer
      → length ts < length clock
      → Passed clock l
  unfolding fire_timers Passed
  pass_from [] l ts e heap enough = absurd (omega arith)
  pass_from (now ∷ clock) l [] e heap enough = (
    l,
    [],
    ground arith,
    record { same = Perm.rfl; ordered = Pairwise.nil; heap = heap; settled = inl e },
    sym (append-nil (log l)),
  )
  pass_from (now ∷ clock) l (first ∷ ts) e heap enough = elim (Bool-cases (leb first.when now)) [
    | inl due ↦
        let (rest, popped, ordered, perm, least) = pop_timer-first std l first ts heap e in
        let l₁ : IoLoop = record l { timer = rest } in
        let l₂ : IoLoop = on_time first l₁ in
        let quiet : l₂.timer ≡ rest = c.quiet first l₁ in
        let sizes : length (first ∷ rest) ≡ length l.timer = length-perm perm in
        let (l', fired, run, pass, logged) =
          pass_from clock l₂ rest quiet (rw quiet ordered) (omega (arith, sizes, ap length e)) in
        let same : Perm (fired ++ l'.timer) rest = rw quiet at pass.same in
        (
          l',
          first ∷ fired,
          fire_due now clock l first ts l₁ e due popped ∙ run,
          record {
            same = Perm.trans (Perm.cons first same) perm;
            ordered =
                Pairwise.cons (λ u m. least u ((Perm.mem_iff same).0 (mem-append_left l'.timer m)))
                  pass.ordered;
            heap = pass.heap;
            settled = elim pass.settled [
              | inl gone ↦ inl gone
              | inr (at, m, all) ↦ inr (at, mem-cons_of_mem now m, all)
            ];
          },
          logged
              ∙ ap (λ (x : List ℕ). x ++ ids fired)
                  (c.logs first l₁ ∙ ap (λ (x : List ℕ). x ++ first.id ∷ []) (c.apart rest l))
              ∙ append_assoc (log l) (first.id ∷ []) (ids fired),
        )
    | inr later ↦ (
      l,
      [],
      ground arith,
      record {
        same = Perm.rfl;
        ordered = Pairwise.nil;
        heap = heap;
        settled = inr (
          now,
          mem-cons_self,
          λ t m. omega (arith, leb→gt _ _ later, first_least first ts (rw e at heap) t (rw e at m)),
        );
      },
      sym (append-nil (log l)),
    )
  ]

  -- If the timers are a heap, the callbacks leave them alone and are logged, and there are more
  -- readings of the clock than timers, then the loop over the timers ends. It has called the
  -- callbacks of the timers that it took out, each once, earliest first; what is left is a heap of
  -- the others, empty or with nothing due at some reading of the clock.
  pub fire_timers_total :
      (clock : List ℕ) (l : IoLoop)
      → IsHeap l.timer
      → length l.timer < length clock
      → (l' : IoLoop) × (fired : List EsTime) × (fire_timers std on_time clock l ≡ some l')
        × Pass clock l l' fired
        × (log l' ≡ log l ++ ids fired)
  unfolding Passed
  fire_timers_total clock l heap enough = pass_from clock l l.timer refl heap enough

-- If the first timer is not in the past, epoll_wait is given at most 100 ms, and no more than the
-- time up to that timer.
poll_timeout_bounds :
    (now : ℕ) (first : EsTime) (ts : List EsTime)
    → now ≤ first.when
    → (poll_timeout now (first ∷ ts) ≤ 100)
      × (now + poll_timeout now (first ∷ ts) * 1000000 ≤ first.when)
unfolding poll_timeout
poll_timeout_bounds now first ts h = ground arith
