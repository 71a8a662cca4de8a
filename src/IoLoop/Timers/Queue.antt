-- ===== src/IoLoop/Timers/Queue.antt =====
-- delay_call, cancel_delay and the removal of the first timer.
use mathlib.Core.Logic.{◌≢◌, ∥∥₁_elim}
use mathlib.Core.Logic.Or
use mathlib.Core.List.{
  Mem, Nodup, Perm, mem-cons, mem-cons_self, mem-cons_of_mem, not-mem-nil, mem-map, mem-map_of_mem,
  Nodup-cons, append-nil, perm_middle,
}
use mathlib.Core.List.Perm
use native.Mathlib.Bridge.{le_prop}
use nsio.Base.{
  ℕ, ◌+◌, ◌≤◌, ◌≡◌, refl, inl, inr, List, [], ◌∷◌, ◌++◌, map, none, some, ◌==◌, ==_iff, arith,
  Bool-cases, Option-cases,
}
use nsio.IoLoop.{EsTime, IoLoop, assert_local}
use nsio.IoLoop.Timers.{
  IsHeap, HeapAlgorithms, split_last, erase_id, delay_call, cancel_delay, pop_timer,
}
use nsio.IoLoop.Timers.Order.{first_least}

abbrev pub ids : List EsTime → List ℕ
ids = map (λ t. t.id)

-- The queue is a heap, and the ids in it are distinct and were all given out.
pub record IsTimed (l : IoLoop) : Type 0 where
  pub heap : IsHeap l.timer
  pub given : (t : EsTime) → Mem t l.timer → t.id ≤ l.g_timer_id
  pub distinct : Nodup (ids l.timer)

snoc-perm : (ts : List EsTime) (t : EsTime) → Perm (ts ++ t ∷ []) (t ∷ ts)
snoc-perm ts t = rw (append-nil ts) at (perm_middle {a = t} ts [])

split_last-snoc : (ts : List EsTime) (t : EsTime) → split_last (ts ++ t ∷ []) ≡ some (ts, t)
split_last-snoc [] t = refl
split_last-snoc (x ∷ ts) t = rw (split_last-snoc ts t) refl

erase_id-none :
    (i : ℕ) (ts : List EsTime) → erase_id i ts ≡ none → (t : EsTime) → Mem t ts → t.id ≢ i
unfolding erase_id
erase_id-none i [] e t m = absurd (not-mem-nil m)
erase_id-none i (x ∷ ts) e t m =
    Or.elim (hlevel) (mem-cons.0 m) (λ same. rw same (ground arith))
      (λ later. erase_id-none i ts (ground arith) t later)

-- erase takes out one timer, which has the id.
erase_id-some :
    (i : ℕ) (ts left : List EsTime)
    → erase_id i ts ≡ some left
    → (t : EsTime) × (t.id ≡ i) × Perm (t ∷ left) ts
unfolding erase_id
erase_id-some i [] left e = cc
erase_id-some i (x ∷ ts) left e = elim (Bool-cases (x.id == i)) [
  | inl hit ↦
      let rest : ts ≡ left = ground arith in (x, (==_iff x.id i).0 hit, rw (← rest) Perm.rfl)
  | inr miss ↦ elim (Option-cases (erase_id i ts)) [
    | inl gone ↦ absurd (ground arith)
    | inr (kept, found) ↦
        let (t, same, perm) = erase_id-some i ts kept found in
        let whole : left ≡ x ∷ kept = ground arith in
        (t, same, rw whole (Perm.trans (Perm.swap x t kept) (Perm.cons x perm)))
  ]
]

-- One entry fewer.
pub IsTimed-fewer :
    (l : IoLoop) (t : EsTime) (left after : List EsTime)
    → IsTimed l
    → Perm (t ∷ left) l.timer
    → Perm after left
    → IsHeap after
    → IsTimed (record l { timer = after })
IsTimed-fewer l t left after v perm same heap = record {
  heap = heap;
  given = λ u m. v.given u ((Perm.mem_iff perm).0 (mem-cons_of_mem t ((Perm.mem_iff same).0 m)));
  distinct =
      (Nodup-cons.0
        (Perm.nodup (Perm.symm (Perm.map _ (Perm.trans (Perm.cons t same) perm))) v.distinct)).1;
}

pub assert_local-IsTimed : (l : IoLoop) → IsTimed l → IsTimed (assert_local l)
assert_local-IsTimed l v = record { heap = v.heap; given = v.given; distinct = v.distinct }

module _ (std : HeapAlgorithms) where
  abbrev new_timer : ℕ → ℕ → IoLoop → EsTime
  new_timer when func l = record { id = l.g_timer_id + 1; when = when; func = func }

  pub delay_call-perm :
      (when func : ℕ) (l : IoLoop)
      → Perm (delay_call std when func l).1.timer (new_timer when func l ∷ l.timer)
  unfolding delay_call
  delay_call-perm when func l = Perm.trans (std.push-perm _) (snoc-perm l.timer _)

  given_below :
      (l : IoLoop) → IsTimed l → (t : EsTime) × Mem t l.timer × (t.id ≡ l.g_timer_id + 1) → ⊥
  given_below l v (t, held, e) = omega (arith, v.given t held)

  fresh_id : (l : IoLoop) → IsTimed l → ¬ Mem (l.g_timer_id + 1) (ids l.timer)
  fresh_id l v m = ∥∥₁_elim (mem-map.0 m) (hlevel) (given_below l v)

  -- delay_call keeps the timers a heap with distinct ids, all of them given out.
  pub delay_call-IsTimed :
      (when func : ℕ) (l : IoLoop) → IsTimed l → IsTimed (delay_call std when func l).1
  unfolding delay_call
  delay_call-IsTimed when func l v = record {
    heap = std.push-IsHeap l.timer _ v.heap;
    given = λ t m.
        Or.elim le_prop (mem-cons.0 ((Perm.mem_iff (delay_call-perm when func l)).0 m))
          (λ e. rw e (omega arith)) (λ old. omega (arith, v.given t old));
    distinct =
        Perm.nodup (Perm.symm (Perm.map _ (delay_call-perm when func l)))
          (Nodup-cons.1 (fresh_id l v, v.distinct));
  }

  -- cancel_delay keeps the timers a heap with distinct ids, all of them given out, and leaves none
  -- with the id.
  pub cancel_delay-IsTimed :
      (i : ℕ) (l : IoLoop)
      → IsTimed l
      → IsTimed (cancel_delay std i l)
        × ((t : EsTime) → Mem t (cancel_delay std i l).timer → t.id ≢ i)
  unfolding cancel_delay
  cancel_delay-IsTimed i l v = elim (Option-cases (erase_id i l.timer)) [
    | inl gone ↦ rw (gone, cancel_delay) (assert_local-IsTimed l v, erase_id-none i l.timer gone)
    | inr (left, found) ↦
        let (t, same, perm) = erase_id-some i l.timer left found in
        let once =
          Nodup-cons.0 (Perm.nodup (Perm.symm (Perm.map (λ (u : EsTime). u.id) perm)) v.distinct) in
        rw (found, cancel_delay)
          (
            assert_local-IsTimed (record l { timer = std.make_heap left })
                (IsTimed-fewer l t left (std.make_heap left) v perm (std.make-perm left)
                  (std.make-IsHeap left)),
            λ u m e.
                once.0
                  (rw (same, ← e) (mem-map_of_mem _ ((Perm.mem_iff (std.make-perm left)).0 m))),
          )
  ]

  -- In a well-formed queue, cancelling the timer that was just scheduled leaves the timers of
  -- before, in some order.
  pub cancel_delay-delay_call :
      (when func : ℕ) (l : IoLoop)
      → IsTimed l
      → Perm
          (cancel_delay std (delay_call std when func l).0 (delay_call std when func l).1).timer
          l.timer
  unfolding cancel_delay delay_call
  cancel_delay-delay_call when func l v =
      let new : EsTime = new_timer when func l in
      let q = (delay_call std when func l).1.timer in
      let perm = delay_call-perm when func l in
      elim (Option-cases (erase_id (delay_call std when func l).0 q)) [
        | inl gone ↦ absurd (erase_id-none _ q gone new ((Perm.mem_iff perm).1 mem-cons_self) refl)
        | inr (left, found) ↦
            let (t, same, cut) = erase_id-some _ q left found in
            let whole = Perm.trans cut perm in
            rw (found, cancel_delay)
              (Perm.trans (std.make-perm left) (
                Or.elim (squash₁) (mem-cons.0 ((Perm.mem_iff whole).0 mem-cons_self))
                  (λ e. Perm.cons_inv (rw e at whole))
                  (λ old. absurd (omega (arith, v.given t old, same)))))
      ]

  -- If the timers are a heap, the first of them comes out; the others stay, as a heap, and none of
  -- them is earlier.
  pub pop_timer-first :
      (l : IoLoop) (first : EsTime) (ts : List EsTime)
      → IsHeap l.timer
      → l.timer ≡ first ∷ ts
      → (rest : List EsTime) × (pop_timer std l ≡ some (first, record l { timer = rest }))
        × IsHeap rest
        × Perm (first ∷ rest) l.timer
        × ((t : EsTime) → Mem t rest → first.when ≤ t.when)
  unfolding pop_timer
  pop_timer-first l first ts heap e =
      let heap' : IsHeap (first ∷ ts) = rw e at heap in
      let (rest, moved, ordered, perm) = std.pop_moves first ts heap' in
      (
        rest,
        rw (e, pop_timer, moved, split_last-snoc rest first) refl,
        ordered,
        rw e (Perm.cons first perm),
        λ t m. first_least first ts heap' t (mem-cons_of_mem first ((Perm.mem_iff perm).0 m)),
      )
