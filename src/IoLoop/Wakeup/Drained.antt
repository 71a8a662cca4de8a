-- ===== src/IoLoop/Wakeup/Drained.antt =====
-- When no further function is posted.
use nsio.Base.{
  ℕ, zero, suc, ◌+◌, ◌*◌, ◌≤◌, ◌<◌, ◌≡◌, refl, sym, ap, ◌∙◌, ◌⊎◌, inl, inr, [], ◌∷◌, false, arith,
  length,
}
use mathlib.Core.List.{append-nil}
use nsio.IoLoop.Wakeup.{
  Phase, away, entered, emptied, calling, Shared, Works, write, report, read, swap, invoke, clear,
  Reach, Run, stop, go,
}
use nsio.IoLoop.Wakeup.Invariant.{IsSound, Reach-IsSound, Works-IsSound, remaining}

-- A further run of the handler for a count that is not 0, and what is left of the current one.
abbrev again : ℕ → ℕ
again zero = 0
again (suc n) = 4

abbrev pub effort : Phase → ℕ → ℕ
effort away count = again count
effort entered count = 3
effort emptied count = 2 + again count
effort (calling fs) count = 1 + again count

-- At most this many steps are left.
abbrev pub steps_left : Shared → ℕ
steps_left s =
    5 * s.waking + effort s.phase s.count + length (remaining s.phase) + length s.async_funcs

again-le : (n : ℕ) → again n ≤ 4
again-le zero = omega arith
again-le (suc n) = omega arith

effort-write : (p : Phase) (n : ℕ) → effort p (n + 1) ≤ effort p n + 4
effort-write away n = omega (arith, again-le (n + 1))
effort-write entered n = omega arith
effort-write emptied n = omega (arith, again-le (n + 1))
effort-write (calling fs) n = omega (arith, again-le (n + 1))

again_pos : (n : ℕ) → 0 < n → again n ≡ 4
again_pos zero h = absurd (omega arith)
again_pos (suc n) h = refl

phase_effort : (s : Shared) {p : Phase} → s.phase ≡ p → effort s.phase s.count ≡ effort p s.count
phase_effort s e = ap (λ (p : Phase). effort p s.count) e

phase_rest :
    (s : Shared) {p : Phase} → s.phase ≡ p → length (remaining s.phase) ≡ length (remaining p)
phase_rest s e = ap (λ (p : Phase). length (remaining p)) e

Works-lt : {s t : Shared} → IsSound s → Works s t → steps_left t < steps_left s
Works-lt {s} v (write w e) = omega (arith, effort-write s.phase s.count, e)
Works-lt {s} v (report e c g) = omega (arith, phase_effort s e, phase_rest s e, again_pos s.count c)
Works-lt {s} v (read e) = omega (arith, phase_effort s e, phase_rest s e)
Works-lt {s} v (swap e) =
    let none_left : s.async_funcs_tmp ≡ [] = rw e at v.tidy in
    omega (arith, phase_effort s e, phase_rest s e, ap length none_left)
Works-lt {s} v (invoke f fs e) = omega (arith, phase_effort s e, phase_rest s e)
Works-lt {s} v (clear e) = omega (arith, phase_effort s e, phase_rest s e)

Works-posted : {s t : Shared} → Works s t → t.posted ≡ s.posted
Works-posted (write w e) = refl
Works-posted (report e c g) = refl
Works-posted (read e) = refl
Works-posted (swap e) = refl
Works-posted (invoke f fs e) = refl
Works-posted (clear e) = refl

Works-breaking : {s t : Shared} → Works s t → t.breaking ≡ s.breaking
Works-breaking (write w e) = refl
Works-breaking (report e c g) = refl
Works-breaking (read e) = refl
Works-breaking (swap e) = refl
Works-breaking (invoke f fs e) = refl
Works-breaking (clear e) = refl

record Ran (s : Shared) (n : ℕ) (t : Shared) : Type 0 where
  sound : IsSound t
  left : n + steps_left t ≤ steps_left s
  same : t.posted ≡ s.posted
  flag : t.breaking ≡ s.breaking

Run-Ran : {s t : Shared} {n : ℕ} → IsSound s → Run s n t → Ran s n t
Run-Ran v stop = record { sound = v; left = omega arith; same = refl; flag = refl }
Run-Ran v (go r w) =
    let ran = Run-Ran v r in
    record {
      sound = Works-IsSound ran.sound w;
      left = omega (arith, ran.left, Works-lt ran.sound w);
      same = Works-posted w ∙ ran.same;
      flag = Works-breaking w ∙ ran.flag;
    }

abbrev pub HasStep : Shared → Type 0
HasStep s = (t : Shared) × Works s t

-- Away from the handler, with nothing written and nobody about to write, the queue is empty.
rests :
    (s : Shared)
    → IsSound s
    → s.breaking ≡ false
    → s.phase ≡ away
    → (waking count : ℕ) → s.waking ≡ waking
    → s.count ≡ count
    → (s.called ≡ s.posted) ⊎ HasStep s
rests s v on e (suc w) count p q = inr (_, write w p)
rests s v on e zero (suc n) p q = inr (_, report e (omega arith) (inl on))
rests s v on e zero zero p q = elim v.awake [
  | inl nothing ↦ inl (sym ((rw (e, nothing) at v.order) ∙ append-nil s.called))
  | inr (inl wakes) ↦ absurd (omega arith)
  | inr (inr about) ↦ absurd (rw e at about)
]

called_or_step :
    (s : Shared)
    → IsSound s
    → s.breaking ≡ false
    → (p : Phase) → s.phase ≡ p
    → (s.called ≡ s.posted) ⊎ HasStep s
called_or_step s v on away e = rests s v on e s.waking s.count refl refl
called_or_step s v on entered e = inr (_, read e)
called_or_step s v on emptied e = inr (_, swap e)
called_or_step s v on (calling []) e = inr (_, clear e)
called_or_step s v on (calling (f ∷ fs)) e = inr (_, invoke f fs e)

-- From every state that can be reached and in which the loop has not been told to break, a run in
-- which nothing further is posted and the loop is not told to break has a bounded number of steps;
-- and as long as not every function posted has been called, in order and once, a further step is
-- possible.
pub all_called :
    {s t : Shared} {n : ℕ}
    → Reach s
    → s.breaking ≡ false
    → Run s n t
    → (n ≤ steps_left s) × ((t.called ≡ s.posted) ⊎ HasStep t)
all_called {t} r on run =
    let ran = Run-Ran (Reach-IsSound r) run in
    (
      omega (arith, ran.left),
      rw (← ran.same) (called_or_step t ran.sound (ran.flag ∙ on) t.phase refl),
    )
