-- ===== src/IoLoop/Timers/Order.antt =====
-- The first entry of a heap.
use mathlib.Core.List.{Mem, not-mem-nil, forall_mem-cons}
use native.Mathlib.Bridge.{le_prop}
use nsio.Base.{ℕ, zero, suc, ◌≤◌, ◌<◌, List, [], ◌∷◌, arith, length, ◌-◌, ◌/◌}
use nsio.IoLoop.{EsTime}
use nsio.IoLoop.Timers.{IsHeap, when_at}

root_below :
    (n : ℕ) (ts : List EsTime) (i : ℕ)
    → IsHeap ts
    → i < n
    → i < length ts
    → when_at ts 0 ≤ when_at ts i
root_below zero ts i h f p = absurd (omega arith)
root_below (suc n) ts i h f p = ground (arith, h i, root_below n ts ((i - 1) / 2) h)

pub root_least :
    (ts : List EsTime) (i : ℕ) → IsHeap ts → i < length ts → when_at ts 0 ≤ when_at ts i
root_least ts i h p = root_below (suc i) ts i h (omega arith) p

le_of_mem :
    (ts : List EsTime) (b : ℕ)
    → ((i : ℕ) → i < length ts → b ≤ when_at ts i)
    → (t : EsTime) → Mem t ts
    → b ≤ t.when
le_of_mem [] b h = λ t m. absurd (not-mem-nil m)
le_of_mem (x ∷ ts) b h =
    (forall_mem-cons λ t. le_prop).1
      (h 0 (omega arith), le_of_mem ts b λ i p. h (suc i) (omega arith))

pub first_least :
    (first : EsTime) (ts : List EsTime)
    → IsHeap (first ∷ ts)
    → (t : EsTime) → Mem t (first ∷ ts)
    → first.when ≤ t.when
first_least first ts h = le_of_mem (first ∷ ts) first.when (λ i p. root_least (first ∷ ts) i h p)
