-- ===== src/IoLoop/Wakeup/Invariant.antt =====
-- No function is lost, reordered or left without a wake.
use mathlib.Core.List.{append_assoc, append-nil}
use nsio.Base.{ℕ, ◌+◌, ◌<◌, ◌≡◌, refl, sym, ap, ◌∙◌, ◌⊎◌, inl, inr, List, [], ◌∷◌, ◌++◌, arith}
use nsio.IoLoop.Wakeup.{
  Phase, away, entered, emptied, calling, Shared, Works, write, report, read, swap, invoke, clear,
  Step, emplace, break_run, turn, works, Reach, start, later,
}

-- The functions that the running handler has still to call.
abbrev pub remaining : Phase → List ℕ
remaining (calling fs) = fs
remaining away = []
remaining entered = []
remaining emptied = []

-- The handler runs and has not yet swapped.
abbrev pub IsAbout : Phase → Type 0
IsAbout away = ⊥
IsAbout entered = Unit {0}
IsAbout emptied = Unit {0}
IsAbout (calling fs) = ⊥

-- The vector that the handler calls from is empty between two runs of it.
abbrev pub IsTidy : Phase → List ℕ → Type 0
IsTidy (calling fs) tmp = Unit {0}
IsTidy away tmp = tmp ≡ []
IsTidy entered tmp = tmp ≡ []
IsTidy emptied tmp = tmp ≡ []

-- Every function posted was called, is being called, or is in the queue, in this order; and where the
-- queue has a function, a write to the eventfd is there or to come, or the handler is about to swap.
pub record IsSound (s : Shared) : Type 0 where
  pub order : s.posted ≡ s.called ++ (remaining s.phase ++ s.async_funcs)
  pub tidy : IsTidy s.phase s.async_funcs_tmp
  pub awake : (s.async_funcs ≡ []) ⊎ (0 < s.count + s.waking) ⊎ IsAbout s.phase

snoc_assoc :
    (xs ys zs : List ℕ) (f : ℕ) → (xs ++ (ys ++ zs)) ++ f ∷ [] ≡ xs ++ (ys ++ (zs ++ f ∷ []))
snoc_assoc xs ys zs f =
    append_assoc xs (ys ++ zs) (f ∷ []) ∙ ap (λ (t : List ℕ). xs ++ t) (append_assoc ys zs (f ∷ []))

pub Works-IsSound : {s t : Shared} → IsSound s → Works s t → IsSound t
Works-IsSound v (write w e) = record {
  order = v.order;
  tidy = v.tidy;
  awake = inr (inl (omega arith));
}
Works-IsSound v (report e c g) = record {
  order = rw e at v.order;
  tidy = rw e at v.tidy;
  awake = inr (inr tt);
}
Works-IsSound v (read e) = record {
  order = rw e at v.order;
  tidy = rw e at v.tidy;
  awake = inr (inr tt);
}
Works-IsSound {s} v (swap e) =
    let none_left : s.async_funcs_tmp ≡ [] = rw e at v.tidy in
    record {
      order = rw (none_left, append-nil s.async_funcs) (rw e at v.order);
      tidy = tt;
      awake = inl none_left;
    }
Works-IsSound {s} v (invoke f fs e) = record {
  order = (rw e at v.order) ∙ sym (append_assoc s.called (f ∷ []) (fs ++ s.async_funcs));
  tidy = tt;
  awake = rw e at v.awake;
}
Works-IsSound v (clear e) = record { order = rw e at v.order; tidy = refl; awake = rw e at v.awake }

Step-IsSound : {s t : Shared} → IsSound s → Step s t → IsSound t
Step-IsSound {s} v (emplace f) = record {
  order =
      ap (λ (l : List ℕ). l ++ f ∷ []) v.order
      ∙ snoc_assoc s.called (remaining s.phase) s.async_funcs f;
  tidy = v.tidy;
  awake = inr (inl (omega arith));
}
Step-IsSound v (break_run b e) = record { order = v.order; tidy = v.tidy; awake = v.awake }
Step-IsSound v (turn e) = record { order = v.order; tidy = v.tidy; awake = v.awake }
Step-IsSound v (works w) = Works-IsSound v w

-- In every state that the loop's thread and any threads that post can reach, in any interleaving,
-- the functions posted are those called, those that the running handler has still to call, and
-- those in the queue, each once and in this order; the other vector is empty between two runs of
-- the handler; and if the queue has a function, the eventfd has been written or will be, or the
-- handler has still to take the queue.
pub Reach-IsSound : {s : Shared} → Reach s → IsSound s
Reach-IsSound start = record { order = refl; tidy = refl; awake = inl refl }
Reach-IsSound (later r st) = Step-IsSound (Reach-IsSound r) st
