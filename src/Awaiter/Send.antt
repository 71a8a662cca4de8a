-- ===== src/Awaiter/Send.antt =====
-- send_lazy: hand a span to a socket. `sent n` is a positive or zero result of send(2).
pub mod Shape
use mathlib.Core.List.{append-nil, append_assoc}
use nsio.Base.{
  ℕ, zero, suc, ◌+◌, ◌-◌, ◌^◌, ◌≤◌, ◌<◌, ◌≡◌, refl, sym, ap, ◌∙◌, ◌⊎◌, inl, inr, Bool, true, false,
  List, [], ◌∷◌, ◌++◌, none, some, ltb, ◌==◌, if◌then◌else◌, length, take, drop, arith, ltb→lt,
  ltb→ge, ◌≢◌, Bool-cases, Option-cases,
}
use nsio.Base.Int.{ℤ, pos, nonpos}
use nsio.Awaiter.Store.{below_size→lt, below_size→ge}
use nsio.Awaiter.{
  Effect, arm_write, wrote, cancel_write, set_errno, resume, Ended, below_size, eagain, eintr,
}

pub data Sent : Type 0 where
  sent : ℕ → Sent
  failed : ℕ → Sent

-- struct send_lazy with the fields of its bases. `sended_bytes` is kept without the wrap of its int,
-- which it can reach only on a span of 2^31 bytes or more.
pub record SendLazy : Type 0 where
  pub result : ℤ
  pub timer_id : ℤ
  pub is_timeout : ℕ
  pub sended_bytes : ℕ
  pub sockfd : ℕ
  pub flags : ℕ
  pub buff : List ℕ

abbrev prepend : Effect → Ended SendLazy Sent → Ended SendLazy Sent
prepend e none = none
prepend e (some (s, effects, rest)) = some (s, e ∷ effects, rest)

abbrev finished : SendLazy → List Sent → Ended SendLazy Sent
finished s rest =
    some (record s { result = pos s.sended_bytes }, resume (pos s.sended_bytes) ∷ [], rest)

-- The loop of send_lazy::on_file_event. A result of 0 or a hard error resumes with _result as it was.
unfoldable pub send_loop : List Sent → SendLazy → Ended SendLazy Sent
send_loop [] s = if below_size s.sended_bytes (length s.buff) then none else finished s []
send_loop (sent zero ∷ rest) s =
    if below_size s.sended_bytes (length s.buff)
    then some (s, resume s.result ∷ [], rest)
    else finished s (sent 0 ∷ rest)
send_loop (sent (suc n) ∷ rest) s =
    let more =
      prepend (wrote (take (suc n) (drop s.sended_bytes s.buff)))
        (send_loop rest (record s { sended_bytes = s.sended_bytes + suc n })) in
    if below_size s.sended_bytes (length s.buff) then more else finished s (sent (suc n) ∷ rest)
send_loop (failed e ∷ rest) s =
    let again = send_loop rest s in
    let on_error =
      if e == eagain
      then some (s, arm_write ∷ set_errno 0 ∷ [], rest)
      else if e == eintr
      then again
      else some (s, resume s.result ∷ [], rest) in
    if below_size s.sended_bytes (length s.buff) then on_error else finished s (failed e ∷ rest)

-- send_lazy::on_file_event
unfoldable pub on_file_event : ℤ → List Sent → SendLazy → Ended SendLazy Sent
unfolding send_loop
on_file_event event replies s =
    if nonpos event then some (s, resume s.result ∷ [], replies) else send_loop replies s

-- send_lazy::on_time_event
unfoldable pub on_time_event : SendLazy → SendLazy × List Effect
on_time_event s = (
  record s { is_timeout = 1; timer_id = pos 0; result = pos 0 },
  cancel_write s.sockfd ∷ resume (pos 0) ∷ [],
)

-- The bytes handed to the kernel, and the other effects.
abbrev pub wire : List Effect → List ℕ
wire [] = []
wire (wrote bytes ∷ es) = bytes ++ wire es
wire (_ ∷ es) = wire es

abbrev pub control : List Effect → List Effect
control [] = []
control (wrote _ ∷ es) = control es
control (e ∷ es) = e ∷ control es

-- The kernel was given the bytes between the old and the new count, in order; and the handler waits
-- with its result untouched, or resumes the coroutine, once, with the count of the whole span or with
-- its result untouched and the span not done.
abbrev pub Outcome : SendLazy → Ended SendLazy Sent → Type 0
Outcome s none = Unit {0}
Outcome s (some (s', effects, rest)) =
    (take s.sended_bytes s.buff ++ wire effects ≡ take s'.sended_bytes s.buff)
    × (s'.buff ≡ s.buff)
    × (((control effects ≡ arm_write ∷ set_errno 0 ∷ [])
          × (s'.result ≡ s.result)
          × (s'.sended_bytes < length s.buff))
        ⊎ ((control effects ≡ resume s'.result ∷ [])
            × (((s'.result ≡ pos s'.sended_bytes) × (length s.buff ≤ s'.sended_bytes))
                ⊎ ((s'.result ≡ s.result) × (s'.sended_bytes < length s.buff)))))

Outcome-if :
    (s : SendLazy) (b : Bool) (x y : Ended SendLazy Sent)
    → (b ≡ true → Outcome s x)
    → (b ≡ false → Outcome s y)
    → Outcome s (if b then x else y)
Outcome-if s true x y p q = p refl
Outcome-if s false x y p q = q refl

finished-Outcome :
    (s : SendLazy) (rest : List Sent)
    → length s.buff < 2 ^ 31
    → below_size s.sended_bytes (length s.buff) ≡ false
    → Outcome s (finished s rest)
finished-Outcome s rest small full = (
  append-nil (take s.sended_bytes s.buff),
  refl,
  inr (refl, inl (refl, below_size→ge s.sended_bytes (length s.buff) (inl small) full)),
)

take-drop : (m n : ℕ) (xs : List ℕ) → take m xs ++ take n (drop m xs) ≡ take (m + n) xs
take-drop zero n xs = let e : 0 + n ≡ n = omega arith in rw e refl
take-drop (suc m) zero [] = let e : suc m + 0 ≡ suc m = omega arith in rw e refl
take-drop (suc m) (suc n) [] = let e : suc m + suc n ≡ suc (m + suc n) = omega arith in rw e refl
take-drop (suc m) n (x ∷ xs) =
    let e : suc m + n ≡ suc (m + n) = omega arith in rw e (ap (◌∷◌ x) (take-drop m n xs))

prepend-Outcome :
    (s : SendLazy) (n : ℕ) (r : Ended SendLazy Sent)
    → Outcome (record s { sended_bytes = s.sended_bytes + n }) r
    → Outcome s (prepend (wrote (take n (drop s.sended_bytes s.buff))) r)
prepend-Outcome s n none h = tt
prepend-Outcome s n (some (s', effects, rest)) (w, kept, h) = (
  sym (append_assoc (take s.sended_bytes s.buff) _ (wire effects))
      ∙ ap (λ (x : List ℕ). x ++ wire effects) (take-drop s.sended_bytes n s.buff)
      ∙ w,
  kept,
  h,
)

send_loop-Outcome :
    (replies : List Sent) (s : SendLazy) → length s.buff < 2 ^ 31 → Outcome s (send_loop replies s)
unfolding send_loop
send_loop-Outcome [] s small =
    Outcome-if s (below_size s.sended_bytes (length s.buff)) _ _ (λ _. tt)
      (finished-Outcome s [] small)
send_loop-Outcome (sent zero ∷ rest) s small =
    Outcome-if s (below_size s.sended_bytes (length s.buff)) _ _
      (λ more. (
        append-nil (take s.sended_bytes s.buff),
        refl,
        inr (refl, inr (refl, below_size→lt s.sended_bytes (length s.buff) more)),
      ))
      (finished-Outcome s (sent 0 ∷ rest) small)
send_loop-Outcome (sent (suc n) ∷ rest) s small =
    Outcome-if s (below_size s.sended_bytes (length s.buff)) _ _
      (λ _. prepend-Outcome s (suc n) _ (send_loop-Outcome rest _ small))
      (finished-Outcome s (sent (suc n) ∷ rest) small)
send_loop-Outcome (failed e ∷ rest) s small =
    let still = append-nil (take s.sended_bytes s.buff) in
    Outcome-if s (below_size s.sended_bytes (length s.buff)) _ _
      (λ more.
        Outcome-if s (e == eagain) _ _
          (λ _. (still, refl, inl (refl, refl, below_size→lt s.sended_bytes (length s.buff) more)))
          (λ _.
            Outcome-if s (e == eintr) _ _ (λ _. send_loop-Outcome rest s small)
              (λ _. (
                still,
                refl,
                inr (refl, inr (refl, below_size→lt s.sended_bytes (length s.buff) more)),
              ))))
      (finished-Outcome s (failed e ∷ rest) small)

-- For a readiness event, a span below 2^31 bytes and every sequence of replies that is long enough, send_lazy has handed to
-- the kernel exactly the bytes of the span between the old count and the new one, in order. It
-- waits for more with its result untouched and the span not done, or it resumes the coroutine, once
-- and as its last act, with the count of the whole span, or with its result untouched and the span
-- not done.
send-Outcome :
    (event : ℤ) (replies : List Sent) (s : SendLazy)
    → nonpos event ≡ false
    → length s.buff < 2 ^ 31
    → Outcome s (on_file_event event replies s)
unfolding on_file_event
send-Outcome event replies s ready small = rw ready (send_loop-Outcome replies s small)

-- The replies that end the loop or bring it forward: all but EINTR.
abbrev pub progress : List Sent → ℕ
progress [] = 0
progress (sent n ∷ rest) = suc (progress rest)
progress (failed e ∷ rest) = if e == eintr then progress rest else suc (progress rest)

prepend-none : (e : Effect) (r : Ended SendLazy Sent) → r ≢ none → prepend e r ≢ none
prepend-none e none h = h
prepend-none e (some r) h = λ same. cc

pub send_loop_total :
    (replies : List Sent) (s : SendLazy)
    → length s.buff - s.sended_bytes < progress replies
    → send_loop replies s ≢ none
unfolding send_loop
send_loop_total [] s h = elim h [ ]
send_loop_total (sent zero ∷ rest) s h = ground arith
send_loop_total (sent (suc n) ∷ rest) s h =
    elim (Bool-cases (below_size s.sended_bytes (length s.buff))) [
      | inl more ↦ rw more (
          prepend-none _ _ (
            send_loop_total rest (record s { sended_bytes = s.sended_bytes + suc n })
              (omega (arith, below_size→lt s.sended_bytes (length s.buff) more))))
      | inr full ↦ rw full (λ e. cc)
    ]
send_loop_total (failed e ∷ rest) s h = ground (arith, send_loop_total rest s)

-- If the replies that are not EINTR are more than the bytes still to send, send_lazy's handler
-- returns.
send_total :
    (event : ℤ) (replies : List Sent) (s : SendLazy)
    → length s.buff - s.sended_bytes < progress replies
    → on_file_event event replies s ≢ none
unfolding on_file_event
send_total event replies s h = ground (arith, send_loop_total replies s)

-- For a readiness event, a span of less than 2^31 bytes, and replies of which those that are not
-- EINTR are more than the bytes still to send, send_lazy's handler returns. It has handed to the
-- kernel exactly the bytes of the span between the old count and the new one, in order. It waits
-- for more with its result untouched and the span not done, or it resumes the coroutine, once and
-- as its last act, with the count of the whole span, or with its result untouched and the span not
-- done.
pub send_ends :
    (event : ℤ) (replies : List Sent) (s : SendLazy)
    → nonpos event ≡ false
    → length s.buff < 2 ^ 31
    → length s.buff - s.sended_bytes < progress replies
    → (r : SendLazy × List Effect × List Sent) × (on_file_event event replies s ≡ some r)
      × Outcome s (some r)
send_ends event replies s ready small enough = elim (Option-cases (on_file_event event replies s)) [
  | inl out ↦ absurd (send_total event replies s enough out)
  | inr (r, ran) ↦ (r, ran, rw ran at (send-Outcome event replies s ready small))
]
