-- ===== src/Awaiter/Recv/Outcome.antt =====
-- How one call of recv_lazy::on_file_event ends.
use nsio.Base.{
  ℕ, suc, ◌+◌, ◌^◌, ◌-◌, ◌≤◌, ◌<◌, ◌≡◌, refl, ◌⊎◌, inl, inr, List, [], ◌∷◌, none, some, ltb, ◌==◌,
  if◌then◌else◌, length, arith, Bool, Bool-cases, Option-cases, ◌≢◌, true, false, ltb→lt, ltb→ge,
}
use nsio.Base.Int.{ℤ, pos, negsuc, nonpos}
use nsio.Awaiter.{
  Effect, Received, got, failed, arm_read, set_errno, resume, Ended, store, below_size, eagain,
  eintr,
}
use nsio.Awaiter.Store.{length-store, below_size→lt, below_size→ge}
use nsio.Awaiter.Recv.{RecvLazy, recv_loop, on_file_event}

-- It waits for more with its result untouched; or it resumes the coroutine, once and as its last act,
-- with the count of a span that is full, or with 0 or -1 and the span not full.
abbrev pub Outcome : ℤ → Ended RecvLazy Received → Type 0
Outcome before none = Unit {0}
Outcome before (some (s, effects, rest)) =
    ((effects ≡ arm_read ∷ set_errno 0 ∷ [])
      × (s.result ≡ before)
      × (s.recved_bytes < length s.buff))
    ⊎ ((effects ≡ resume s.result ∷ [])
        × (((s.result ≡ pos s.recved_bytes) × (length s.buff ≤ s.recved_bytes))
            ⊎ (((s.result ≡ pos 0) ⊎ (s.result ≡ negsuc 0)) × (s.recved_bytes < length s.buff))))

Outcome-if :
    (before : ℤ) (b : Bool) (x y : Ended RecvLazy Received)
    → (b ≡ true → Outcome before x)
    → (b ≡ false → Outcome before y)
    → Outcome before (if b then x else y)
Outcome-if before true x y p q = p refl
Outcome-if before false x y p q = q refl

-- C's int holds the size of the span, or there is nothing more to ask for.
abbrev IsSized : RecvLazy → Type 0
IsSized s = (length s.buff < 2 ^ 31) ⊎ (length s.buff ≤ s.recved_bytes)

store-IsSized :
    (s : RecvLazy) (bytes : List ℕ)
    → s.recved_bytes < length s.buff
    → IsSized s
    → IsSized (record s {
      recved_bytes = s.recved_bytes + length bytes;
      buff = store s.buff s.recved_bytes bytes;
    })
store-IsSized s bytes more sized =
    let stored = length-store s.buff s.recved_bytes bytes (omega (arith, more)) in
    elim (Bool-cases (ltb (length (store s.buff s.recved_bytes bytes)) (2 ^ 31))) [
      | inl small ↦ inl (ltb→lt _ _ small)
      | inr large ↦ inr (elim sized [
        | inl small ↦ omega (arith, stored, small, ltb→ge _ _ large)
        | inr full ↦ absurd (omega (arith, full, more))
      ])
    ]

recv_loop-Outcome :
    (replies : List Received) (s : RecvLazy) → IsSized s → Outcome s.result (recv_loop replies s)
unfolding recv_loop
recv_loop-Outcome [] s small =
    Outcome-if s.result (below_size s.recved_bytes (length s.buff)) _ _ (λ more. tt)
      (λ full. inr (refl, inl (refl, below_size→ge s.recved_bytes (length s.buff) small full)))
recv_loop-Outcome (got [] ∷ rest) s small =
    Outcome-if s.result (below_size s.recved_bytes (length s.buff)) _ _
      (λ more. inr (refl, inr (inl refl, below_size→lt s.recved_bytes (length s.buff) more)))
      (λ full. inr (refl, inl (refl, below_size→ge s.recved_bytes (length s.buff) small full)))
recv_loop-Outcome (got (b ∷ bs) ∷ rest) s small =
    Outcome-if s.result (below_size s.recved_bytes (length s.buff)) _ _
      (λ more.
        recv_loop-Outcome rest _
          (store-IsSized s (b ∷ bs) (below_size→lt s.recved_bytes (length s.buff) more) small))
      (λ full. inr (refl, inl (refl, below_size→ge s.recved_bytes (length s.buff) small full)))
recv_loop-Outcome (failed e ∷ rest) s small =
    Outcome-if s.result (below_size s.recved_bytes (length s.buff)) _ _
      (λ more.
        Outcome-if s.result (e == eagain) _ _
          (λ _. inl (refl, refl, below_size→lt s.recved_bytes (length s.buff) more))
          (λ _.
            Outcome-if s.result (e == eintr) _ _ (λ _. recv_loop-Outcome rest s small)
              (λ _. inr (refl, inr (inr refl, below_size→lt s.recved_bytes (length s.buff) more)))))
      (λ full. inr (refl, inl (refl, below_size→ge s.recved_bytes (length s.buff) small full)))

-- For a readiness event, a span below 2^31 bytes and every sequence of replies that is long enough, recv_lazy waits for more
-- with its result untouched and the span not full; or it resumes the coroutine, once and as its
-- last act, with the count of a span that is full, or with 0 or -1 and the span not full.
recv-Outcome :
    (event : ℤ) (replies : List Received) (s : RecvLazy)
    → nonpos event ≡ false
    → length s.buff < 2 ^ 31
    → Outcome s.result (on_file_event event replies s)
unfolding on_file_event
recv-Outcome event replies s ready small = rw ready (recv_loop-Outcome replies s (inl small))

-- The replies that end the loop or bring it forward: all but EINTR.
abbrev pub progress : List Received → ℕ
progress [] = 0
progress (got bytes ∷ rest) = suc (progress rest)
progress (failed e ∷ rest) = if e == eintr then progress rest else suc (progress rest)

-- The loop ends: one such reply for each byte that is missing, and one more, are enough.
pub recv_loop_total :
    (replies : List Received) (s : RecvLazy)
    → length s.buff - s.recved_bytes < progress replies
    → recv_loop replies s ≢ none
unfolding recv_loop
recv_loop_total [] s h = elim h [ ]
recv_loop_total (got [] ∷ rest) s h = ground arith
recv_loop_total (got (b ∷ bs) ∷ rest) s h =
    elim (Bool-cases (below_size s.recved_bytes (length s.buff))) [
      | inl more ↦ rw more (
          recv_loop_total rest _ (
            omega (
              arith,
              length-store s.buff s.recved_bytes (b ∷ bs),
              below_size→lt s.recved_bytes (length s.buff) more,
            )))
      | inr full ↦ rw full (λ e. cc)
    ]
recv_loop_total (failed e ∷ rest) s h = ground (arith, recv_loop_total rest s)

-- If the replies that are not EINTR are more than the bytes still missing, recv_lazy's handler
-- returns.
recv_total :
    (event : ℤ) (replies : List Received) (s : RecvLazy)
    → length s.buff - s.recved_bytes < progress replies
    → on_file_event event replies s ≢ none
unfolding on_file_event
recv_total event replies s h = ground (arith, recv_loop_total replies s)

-- For a readiness event, a span of less than 2^31 bytes, and replies of which those that are not
-- EINTR are more than the bytes still missing, recv_lazy's handler returns. It waits for more with
-- its result untouched and the span not full; or it resumes the coroutine, once and as its last
-- act, with the count of a span that is full, or with 0 or -1 and the span not full.
pub recv_ends :
    (event : ℤ) (replies : List Received) (s : RecvLazy)
    → nonpos event ≡ false
    → length s.buff < 2 ^ 31
    → length s.buff - s.recved_bytes < progress replies
    → (r : RecvLazy × List Effect × List Received) × (on_file_event event replies s ≡ some r)
      × Outcome s.result (some r)
recv_ends event replies s ready small enough = elim (Option-cases (on_file_event event replies s)) [
  | inl out ↦ absurd (recv_total event replies s enough out)
  | inr (r, ran) ↦ (r, ran, rw ran at (recv-Outcome event replies s ready small))
]
