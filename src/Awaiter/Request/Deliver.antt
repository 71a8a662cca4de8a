-- ===== src/Awaiter/Request/Deliver.antt =====
-- recv_request over several readiness events: a whole request, cut into reads, with interrupted calls
-- and waits between them.
use nsio.Base.{
  ℕ, zero, suc, ◌+◌, ◌-◌, ◌<◌, ◌≡◌, refl, ap, ◌∙◌, inl, inr, true, false, List, [], ◌∷◌, ◌++◌,
  Option, none, some, ltb, arith, length, length-append,
}
use nsio.Base.Int.{ℤ, pos}
use nsio.ByteBuffer.{ByteBuffer, BufferPool}
use nsio.Awaiter.{Received, got, failed, Effect, arm_read, set_errno, resume}
use nsio.Awaiter.Recv.{RecvLazy}
use nsio.Awaiter.Recv.Assembly.{received, Benign, is_armed, Filled, recv_loop_goes}
use nsio.Awaiter.Request.{RecvRequest, body_loop, with_pool, on_file_event}
use nsio.Awaiter.Request.Body.{IsCut, around, widen, widened, IsRest, body_loop-recv_loop}

-- The loop calls the handler at each of at most n readiness events, until it resumes the coroutine.
unfoldable pub serve :
    (ByteBuffer → List ℕ)
    → ℕ
    → ℕ
    → List Received
    → RecvRequest
    → BufferPool
    → Option (RecvRequest × List Effect × BufferPool)
unfolding is_armed
serve memory at zero replies s p = none
serve memory at (suc n) replies s p = elim (on_file_event memory at (pos 1) replies s p) [
  | none ↦ none
  | some (s', effects, rest, p') ↦ elim (is_armed effects) [
    | true ↦ serve memory at n rest s' p'
    | false ↦ some (s', effects, p')
  ]
]

-- Replies that bring a number of bytes bring no more.
IsCut-more :
    (k : ℕ) (replies : List Received)
    → Benign replies
    → k ≡ length (received replies)
    → IsCut k replies
IsCut-more zero replies b e = tt
IsCut-more (suc k) [] b e = tt
IsCut-more (suc k) (got [] ∷ rest) b e = absurd b
IsCut-more (suc k) (got (x ∷ xs) ∷ rest) b e =
    let size = length-append (x ∷ xs) (received rest) in
    (omega arith, IsCut-more (suc k - length (x ∷ xs)) rest b (omega (arith, size)))
IsCut-more (suc k) (failed f ∷ rest) b e = IsCut-more (suc k) rest b.1 e

widen-pos : (n : ℕ) → 0 < n → widen (pos n) ≡ pos (6 + n)
widen-pos zero h = absurd (omega arith)
widen-pos (suc n) h = refl

-- The events end with the coroutine resumed with the size of the request, which is in `b`.
abbrev pub Served :
    (ByteBuffer → List ℕ)
    → ℕ
    → ℕ
    → List Received
    → RecvRequest
    → BufferPool
    → ByteBuffer
    → List ℕ
    → ℕ
    → BufferPool
    → Type 0
Served memory at n replies s p b m size p' =
    (s' : RecvRequest) × (serve memory at n replies s p ≡ some (s', resume (pos size) ∷ [], p'))
    × (s'.request ≡ some (b, m))

module _ (memory : ByteBuffer → List ℕ) (at : ℕ) (p : BufferPool) where
  module _ (s : RecvRequest) (b : ByteBuffer) (pre post : List ℕ)
      (begin : length pre ≡ b.data_begin + 6) where
    abbrev Fits : RecvLazy → Type 0
    Fits = IsRest s b pre post begin

    body_event :
        (replies : List Received) (r : RecvLazy)
        → Fits r
        → on_file_event memory at (pos 1) replies (around s b pre post r) p
          ≡ with_pool p (body_loop replies (around s b pre post r))
    unfolding on_file_event
    body_event replies r v = let e : ltb (6 + r.recved_bytes) 6 ≡ false = ground arith in rw e refl

    -- The events from the first that reaches the body, in the state `s₀`.
    pub body-Served :
        (n : ℕ) (payload : List ℕ) (replies₀ : List Received) (s₀ : RecvRequest) (p₀ : BufferPool)
        → (replies : List Received) (front room : List ℕ) (r : RecvLazy)
        → on_file_event memory at (pos 1) replies₀ s₀ p₀
          ≡ with_pool p (body_loop replies (around s b pre post r))
        → Fits r
        → Filled front room r
        → front ++ received replies ≡ payload
        → length (received replies) ≡ length room
        → Benign replies
        → length replies < n
        → Served memory at n replies₀ s₀ p₀ b (pre ++ (payload ++ post)) (6 + length payload) p
    unfolding serve
    body-Served zero payload replies₀ s₀ p₀ replies front room r starts v f whole same ok h =
        absurd (omega arith)
    body-Served (suc n) payload replies₀ s₀ p₀ replies front room r starts v f whole same ok h =
        let size : length r.buff ≡ length front + length room =
          ap length f.split ∙ length-append front room in
        let left : length r.buff - r.recved_bytes ≡ length (received replies) =
          omega (arith, size, f.count) in
        let cut : IsCut (length r.buff - r.recved_bytes) replies = IsCut-more _ replies ok left in
        let sim = body_loop-recv_loop s b pre post begin replies r v cut in
        let some_payload : 0 < length payload =
          omega
            (arith, ap length whole, length-append front (received replies), size, v.some_rest) in
        let counted : widen (pos (length (front ++ received replies))) ≡ pos (6 + length payload) =
          rw whole (widen-pos (length payload) some_payload) in
        elim (recv_loop_goes replies front room r f (omega (arith, v.size, v.small)) same ok) [
          | inl c ↦
              let ran : on_file_event memory at (pos 1) replies₀ s₀ p₀
                  ≡ some (
                    around s b pre post c.last,
                    resume (pos (6 + length payload)) ∷ [],
                    c.rest,
                    p,
                  ) =
                starts
                ∙ ap (with_pool p) (sim ∙ ap (widened s b pre post) c.ends)
                ∙ ap (λ (z : ℤ). some (around s b pre post c.last, resume z ∷ [], c.rest, p))
                    counted in
              (
                around s b pre post c.last,
                rw (ran, serve) refl,
                ap (λ (t : List ℕ). some (b, pre ++ (t ++ post))) (c.whole ∙ whole),
              )
          | inr w ↦
              let ran : on_file_event memory at (pos 1) replies₀ s₀ p₀
                  ≡ some (around s b pre post w.now, arm_read ∷ set_errno 0 ∷ [], w.rest, p) =
                starts ∙ ap (with_pool p) (sim ∙ ap (widened s b pre post) w.ends) in
              let now_size : length w.now.buff ≡ length r.buff = omega (
                arith,
                ap length w.filled.split,
                length-append w.front w.room,
                w.fits,
                ap length w.whole,
                length-append w.front (received w.rest),
                length-append front (received replies),
                size,
                same,
              ) in
              let v' : Fits w.now = record {
                some_rest = omega (arith, now_size, v.some_rest);
                within =
                    omega (
                      arith,
                      w.filled.count,
                      ap length w.filled.split,
                      length-append w.front w.room,
                    );
                size = omega (arith, now_size, v.size);
                small = v.small;
              } in
              rw (ran, serve)
                (body-Served n payload w.rest (around s b pre post w.now) p w.rest w.front w.room
                  w.now (body_event w.rest w.now v') v' w.filled (w.whole ∙ whole) w.fits w.benign
                  (omega (arith, w.fewer)))
        ]
