-- ===== src/Examples/Heap.antt =====
-- Heap algorithms that keep the vector sorted, which is one way of keeping a heap.
use mathlib.Core.List.{Perm}
use mathlib.Core.List.Perm
use nsio.Base.{
  ℕ, zero, suc, ◌-◌, ◌/◌, ◌≤◌, ◌<◌, refl, inl, inr, List, [], ◌∷◌, ◌++◌, arith, leb, leb→le, leb→gt,
  if◌then◌else◌, length, Bool-cases,
}
use nsio.IoLoop.{EsTime}
use nsio.IoLoop.Timers.{IsHeap, HeapAlgorithms, when_at}

unfoldable pub insert : EsTime → List EsTime → List EsTime
insert t [] = t ∷ []
insert t (u ∷ us) = if leb t.when u.when then t ∷ u ∷ us else u ∷ insert t us

unfoldable pub sort : List EsTime → List EsTime
unfolding insert
sort [] = []
sort (t ∷ ts) = insert t (sort ts)

insert-perm : (t : EsTime) (us : List EsTime) → Perm (insert t us) (t ∷ us)
unfolding insert
insert-perm t [] = Perm.rfl
insert-perm t (u ∷ us) = elim (Bool-cases (leb t.when u.when)) [
  | inl first ↦ rw first Perm.rfl
  | inr later ↦ rw later (Perm.trans (Perm.cons u (insert-perm t us)) (Perm.swap t u us))
]

pub sort-perm : (ts : List EsTime) → Perm (sort ts) ts
unfolding sort
sort-perm [] = Perm.rfl
sort-perm (t ∷ ts) = Perm.trans (insert-perm t (sort ts)) (Perm.cons t (sort-perm ts))

abbrev Below : ℕ → List EsTime → Type 0
Below b ts = (i : ℕ) → i < length ts → b ≤ when_at ts i

abbrev Ascending : List EsTime → Type 0
Ascending [] = Unit {0}
Ascending (t ∷ ts) = Below t.when ts × Ascending ts

Below-cons : (b : ℕ) (t : EsTime) (ts : List EsTime) → b ≤ t.when → Below b ts → Below b (t ∷ ts)
Below-cons b t ts h below zero p = h
Below-cons b t ts h below (suc i) p = below i (omega arith)

insert-Below :
    (b : ℕ) (t : EsTime) (us : List EsTime) → b ≤ t.when → Below b us → Below b (insert t us)
unfolding insert
insert-Below b t [] h below = Below-cons b t [] h below
insert-Below b t (u ∷ us) h below =
    let first : b ≤ u.when = below 0 (omega arith) in
    let rest : Below b us = λ i p. below (suc i) (omega arith) in
    elim (Bool-cases (leb t.when u.when)) [
      | inl le ↦ rw le (Below-cons b t (u ∷ us) h below)
      | inr gt ↦ rw gt (Below-cons b u (insert t us) first (insert-Below b t us h rest))
    ]

insert-Ascending : (t : EsTime) (us : List EsTime) → Ascending us → Ascending (insert t us)
unfolding insert
insert-Ascending t [] a = (λ i p. absurd (omega arith), tt)
insert-Ascending t (u ∷ us) a = elim (Bool-cases (leb t.when u.when)) [
  | inl le ↦
      rw le
        (Below-cons t.when u us (leb→le _ _ le) (λ i p. omega (arith, leb→le _ _ le, a.0 i p)), a)
  | inr gt ↦
      rw gt (insert-Below u.when t us (omega (arith, leb→gt _ _ gt)) a.0, insert-Ascending t us a.1)
]

sort-Ascending : (ts : List EsTime) → Ascending (sort ts)
unfolding sort
sort-Ascending [] = tt
sort-Ascending (t ∷ ts) = insert-Ascending t (sort ts) (sort-Ascending ts)

Ascending-at :
    (ts : List EsTime) (i j : ℕ)
    → Ascending ts
    → i ≤ j
    → j < length ts
    → when_at ts i ≤ when_at ts j
Ascending-at [] i j a h p = absurd (omega arith)
Ascending-at (t ∷ ts) zero zero a h p = omega arith
Ascending-at (t ∷ ts) zero (suc j) a h p = a.0 j (omega arith)
Ascending-at (t ∷ ts) (suc i) zero a h p = absurd (omega arith)
Ascending-at (t ∷ ts) (suc i) (suc j) a h p = Ascending-at ts i j a.1 (omega arith) (omega arith)

pub sort-IsHeap : (ts : List EsTime) → IsHeap (sort ts)
sort-IsHeap ts c h p = Ascending-at (sort ts) ((c - 1) / 2) c (sort-Ascending ts) (omega arith) p

unfoldable pub pop : List EsTime → List EsTime
unfolding sort
pop [] = []
pop (t ∷ ts) = sort ts ++ t ∷ []

abbrev pub sorted_vector : HeapAlgorithms
unfolding pop
sorted_vector = record {
  push_heap = sort;
  pop_heap = pop;
  make_heap = sort;
  push-perm = sort-perm;
  push-IsHeap = λ ts t h. sort-IsHeap (ts ++ t ∷ []);
  pop_moves = λ t ts h. (sort ts, refl, sort-IsHeap ts, sort-perm ts);
  make-perm = sort-perm;
  make-IsHeap = sort-IsHeap;
}
