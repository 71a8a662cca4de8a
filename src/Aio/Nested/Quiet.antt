-- ===== src/Aio/Nested/Quiet.antt =====
-- io_aio_impl::submit on a queue that is full for a while, where no callback submits again.
use nsio.Base.{
  ℕ, zero, suc, ◌+◌, ◌≤◌, ◌<◌, ◌≡◌, refl, ap, ◌∙◌, inl, inr, List, [], ◌∷◌, ◌++◌, map, ◌==◌, arith,
  length, length-append, length-map, Bool-cases,
}
use nsio.ByteBuffer.{u64}
use nsio.Aio.{IoEvent, Iocb, Fetched, events, Submitted, taken, refused, again}
use nsio.Aio.Nested.{Running, Ran, returned, submit_all, deliver, fetch, submit_loop, submit}
use nsio.Aio.Nested.Between.{Between}
use nsio.Aio.Nested.Conserves.{nested_calls_end}

-- Replies of io_getevents that bring something.
abbrev pub full : List (IoEvent × List IoEvent) → List Fetched
full = map (λ (b : IoEvent × List IoEvent). events (b.0 ∷ b.1))

abbrev logged : List IoEvent → List IoEvent → List IoEvent
logged [] called = called
logged (e ∷ es) called = logged es (e ∷ called)

module _ (asks : List IoEvent → List Iocb)
    (quiet : (called : List IoEvent) → asks called ≡ []) where
  deliver_logs :
      (put : Iocb → Running → Ran) (es : List IoEvent) (s : Running)
      → deliver asks put es s ≡ returned (record s { called = logged es s.called })
  unfolding deliver submit_all
  deliver_logs put [] s = refl
  deliver_logs put (e ∷ es) s =
      rw (quiet (e ∷ s.called)) (deliver_logs put es (record s { called = e ∷ s.called }))

  submit_loop_returns :
      (n : ℕ) (b : Iocb) (errors : List ℕ) (batches : List (IoEvent × List IoEvent))
      (rest : List Submitted) (s : Running)
      → length errors < n
      → length errors ≤ length batches
      → s.fetches ≡ full batches
      → (t : Running) × (submit_loop asks n b (map refused errors ++ taken ∷ rest) s ≡ returned t)
        × (t.asked ≡ s.asked)
  unfolding submit_loop fetch
  submit_loop_returns zero b errors batches rest s few enough replies = absurd (omega (arith, few))
  submit_loop_returns (suc n) b [] batches rest s few enough replies = (_, refl, refl)
  submit_loop_returns (suc n) b (e ∷ errors) [] rest s few enough replies =
      absurd (omega (arith, enough))
  submit_loop_returns (suc n) b (e ∷ errors) (m ∷ batches) rest s few enough replies =
      elim (Bool-cases (e == again)) [
        | inr other ↦
            let (t, ran, same) =
              submit_loop_returns n b errors (m ∷ batches) rest s (omega (arith, few))
                (omega (arith, enough)) replies in
            (t, rw (other, submit_loop) ran, same)
        | inl full_queue ↦
            let left : List Submitted = map refused errors ++ taken ∷ rest in
            let s₁ : Running = record s { submits = left; fetches = full batches } in
            let s₂ : Running = record s₁ {
              called = logged (m.0 ∷ m.1) s.called;
              aio = record s.aio { res = u64 (s.aio.res + length (m.0 ∷ m.1)) };
            } in
            let (t, ran, same) =
              submit_loop_returns n b errors batches rest s₂ (omega (arith, few))
                (omega (arith, enough)) refl in
            (
              t,
              rw (full_queue, submit_loop, replies, fetch, deliver_logs _ (m.0 ∷ m.1) s₁) ran,
              same,
            )
      ]

  -- If no callback submits a block, io_submit takes the block after some errors, at least as many
  -- non-empty batches of events follow, and the fuel is more than the replies of io_submit, then
  -- submit returns. It was then called with that block alone: the kernel took the block once, and
  -- modulo 2^64 the requests have grown by one, and the results by the number of events handed to
  -- callbacks.
  pub submit_returns :
      (n : ℕ) (b : Iocb) (errors : List ℕ) (batches : List (IoEvent × List IoEvent))
      (rest : List Submitted) (s : Running)
      → s.submits ≡ map refused errors ++ taken ∷ rest
      → s.fetches ≡ full batches
      → length errors ≤ length batches
      → length s.submits < n
      → (t : Running) × (submit asks n b s ≡ returned t)
        × (t.asked ≡ b ∷ s.asked)
        × Between [] 0 s t
  unfolding submit
  submit_returns n b errors batches rest s offers replies enough few =
      let count : length errors < n = omega (
        arith,
        few,
        ap length offers,
        length-append (map refused errors) (taken ∷ rest),
        length-map refused errors,
      ) in
      let (t, ran, same) =
        submit_loop_returns n b errors batches rest (record s { asked = b ∷ s.asked }) count enough
          replies in
      let whole : submit asks n b s ≡ returned t =
        ap (λ (l : List Submitted). submit_loop asks n b l (record s { asked = b ∷ s.asked }))
          offers
        ∙ ran in
      (t, whole, same, rw whole at ((nested_calls_end asks n s few).0 b))
