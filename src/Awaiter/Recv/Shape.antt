-- ===== src/Awaiter/Recv/Shape.antt =====
-- How recv_lazy's handler ends, for a span of any size.
use nsio.Base.{
  ◌-◌, ◌<◌, ◌≡◌, refl, ◌⊎◌, inl, inr, Bool, true, false, List, [], ◌∷◌, none, some, ◌==◌,
  if◌then◌else◌, length, Option-cases,
}
use nsio.Base.Int.{ℤ, nonpos}
use nsio.Awaiter.{
  Effect, Received, got, failed, arm_read, set_errno, resume, Ended, below_size, eagain, eintr,
}
use nsio.Awaiter.Recv.{RecvLazy, recv_loop, on_file_event}
use nsio.Awaiter.Recv.Outcome.{progress, recv_loop_total}

-- Whatever the size of the span: the handler waits for more, or resumes the coroutine as its last act.
abbrev pub IsShaped : Ended RecvLazy Received → Type 0
IsShaped none = Unit {0}
IsShaped (some (s, effects, rest)) =
    (effects ≡ arm_read ∷ set_errno 0 ∷ []) ⊎ ((z : ℤ) × (effects ≡ resume z ∷ []))

IsShaped-if :
    (b : Bool) (x y : Ended RecvLazy Received)
    → IsShaped x
    → IsShaped y
    → IsShaped (if b then x else y)
IsShaped-if true x y p q = p
IsShaped-if false x y p q = q

recv_loop-IsShaped : (replies : List Received) (s : RecvLazy) → IsShaped (recv_loop replies s)
unfolding recv_loop
recv_loop-IsShaped [] s =
    IsShaped-if (below_size s.recved_bytes (length s.buff)) _ _ tt (inr (_, refl))
recv_loop-IsShaped (got [] ∷ rest) s =
    IsShaped-if (below_size s.recved_bytes (length s.buff)) _ _ (inr (_, refl)) (inr (_, refl))
recv_loop-IsShaped (got (b ∷ bs) ∷ rest) s =
    IsShaped-if (below_size s.recved_bytes (length s.buff)) _ _ (recv_loop-IsShaped rest _)
      (inr (_, refl))
recv_loop-IsShaped (failed e ∷ rest) s =
    IsShaped-if (below_size s.recved_bytes (length s.buff)) _ _
      (IsShaped-if (e == eagain) _ _ (inl refl)
        (IsShaped-if (e == eintr) _ _ (recv_loop-IsShaped rest s) (inr (_, refl))))
      (inr (_, refl))

pub on_file_event-IsShaped :
    (event : ℤ) (replies : List Received) (s : RecvLazy)
    → nonpos event ≡ false
    → length s.buff - s.recved_bytes < progress replies
    → (r : RecvLazy × List Effect × List Received) × (on_file_event event replies s ≡ some r)
      × IsShaped (some r)
unfolding on_file_event
on_file_event-IsShaped event replies s ready enough = elim (Option-cases (recv_loop replies s)) [
  | inl out ↦ absurd (recv_loop_total replies s enough out)
  | inr (r, ran) ↦ (r, rw (ready, ran) refl, rw ran at (recv_loop-IsShaped replies s))
]
