-- ===== src/Awaiter/Send/Shape.antt =====
-- How send_lazy's handler ends, for a span of any size.
use nsio.Base.{
  ℕ, zero, suc, ◌-◌, ◌<◌, ◌≡◌, refl, ◌⊎◌, inl, inr, Bool, true, false, List, [], ◌∷◌, none, some,
  ◌==◌, if◌then◌else◌, length, Option-cases,
}
use nsio.Base.Int.{ℤ, nonpos}
use nsio.Awaiter.{Effect, arm_write, wrote, set_errno, resume, Ended, below_size, eagain, eintr}
use nsio.Awaiter.Send.{
  SendLazy, Sent, sent, failed, prepend, send_loop, on_file_event, control, progress,
  send_loop_total,
}

-- Whatever the size of the span: the handler waits for more, or resumes the coroutine as its last act.
abbrev pub IsShaped : Ended SendLazy Sent → Type 0
IsShaped none = Unit {0}
IsShaped (some (s, effects, rest)) =
    (control effects ≡ arm_write ∷ set_errno 0 ∷ []) ⊎ ((z : ℤ) × (control effects ≡ resume z ∷ []))

IsShaped-if :
    (b : Bool) (x y : Ended SendLazy Sent) → IsShaped x → IsShaped y → IsShaped (if b then x else y)
IsShaped-if true x y p q = p
IsShaped-if false x y p q = q

prepend-IsShaped :
    (bytes : List ℕ) (r : Ended SendLazy Sent) → IsShaped r → IsShaped (prepend (wrote bytes) r)
prepend-IsShaped bytes none h = h
prepend-IsShaped bytes (some r) h = h

send_loop-IsShaped : (replies : List Sent) (s : SendLazy) → IsShaped (send_loop replies s)
unfolding send_loop
send_loop-IsShaped [] s =
    IsShaped-if (below_size s.sended_bytes (length s.buff)) _ _ tt (inr (_, refl))
send_loop-IsShaped (sent zero ∷ rest) s =
    IsShaped-if (below_size s.sended_bytes (length s.buff)) _ _ (inr (_, refl)) (inr (_, refl))
send_loop-IsShaped (sent (suc n) ∷ rest) s =
    IsShaped-if (below_size s.sended_bytes (length s.buff)) _ _
      (prepend-IsShaped _ _ (send_loop-IsShaped rest _)) (inr (_, refl))
send_loop-IsShaped (failed e ∷ rest) s =
    IsShaped-if (below_size s.sended_bytes (length s.buff)) _ _
      (IsShaped-if (e == eagain) _ _ (inl refl)
        (IsShaped-if (e == eintr) _ _ (send_loop-IsShaped rest s) (inr (_, refl))))
      (inr (_, refl))

pub on_file_event-IsShaped :
    (event : ℤ) (replies : List Sent) (s : SendLazy)
    → nonpos event ≡ false
    → length s.buff - s.sended_bytes < progress replies
    → (r : SendLazy × List Effect × List Sent) × (on_file_event event replies s ≡ some r)
      × IsShaped (some r)
unfolding on_file_event
on_file_event-IsShaped event replies s ready enough = elim (Option-cases (send_loop replies s)) [
  | inl out ↦ absurd (send_loop_total replies s enough out)
  | inr (r, ran) ↦ (r, rw (ready, ran) refl, rw ran at (send_loop-IsShaped replies s))
]
