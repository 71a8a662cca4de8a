-- ===== src/Aio/Nested/Conserves.antt =====
-- What io_aio_impl takes in and hands on, whatever the callbacks submit meanwhile.
use mathlib.Core.List.{append_assoc, perm_middle}
use mathlib.Core.List.Perm
use nsio.Base.{
  ℕ, zero, suc, ◌+◌, ◌≤◌, ◌<◌, refl, sym, ◌∙◌, inl, inr, List, [], ◌∷◌, ◌++◌, ◌==◌, length,
  length-append, arith, Bool-cases,
}
use nsio.ByteBuffer.{u64}
use nsio.Aio.{
  IoEvent, Iocb, Fetched, events, fetch_failed, Submitted, taken, not_taken, refused, again,
}
use nsio.Aio.Nested.{
  Running, Ran, returned, unanswered, out_of_fuel, submit_all, deliver, counted, fetch, submit_loop,
  submit, on_file_event,
}
use nsio.Aio.Nested.Between.{Between, Ends, replied, Ends-after, then_run-Ends}

-- A call of submit, while fewer than `k` replies of io_submit are left.
abbrev IsPut : ℕ → (Iocb → Running → Ran) → Type 0
IsPut k put = (b : Iocb) (s : Running) → length s.submits < k → Ends [] 0 s (put b s)

module _ (asks : List IoEvent → List Iocb) where
  submit_all-Ends :
      (k : ℕ) (put : Iocb → Running → Ran) (bs : List Iocb) (s : Running)
      → IsPut k put
      → length s.submits < k
      → Ends [] 0 s (submit_all put bs s)
  unfolding submit_all
  submit_all-Ends k put [] s h few = replied s s.submits s.fetches (omega arith)
  submit_all-Ends k put (b ∷ bs) s h few = then_run-Ends [] 0 0 (put b s) _ (h b s few) (λ t p.
      Ends-after [] 0 0 0 _ refl p (submit_all-Ends k put bs t h (omega (arith, p.shorter))))

  -- An event is handed on.
  handed_on : (e : IoEvent) (s : Running) → Between [] 1 s (record s { called = e ∷ s.called })
  handed_on e s = record {
    new = [];
    handed = e ∷ [];
    asked = refl;
    called = refl;
    blocks = Perm.rfl;
    requests = omega arith;
    results = omega arith;
    shorter = omega arith;
  }

  deliver-Ends :
      (k : ℕ) (put : Iocb → Running → Ran) (es : List IoEvent) (s : Running)
      → IsPut k put
      → length s.submits < k
      → Ends [] (length es) s (deliver asks put es s)
  unfolding deliver
  deliver-Ends k put [] s h few = replied s s.submits s.fetches (omega arith)
  deliver-Ends k put (e ∷ es) s h few =
      let resumed =
        submit_all-Ends k put (asks (e ∷ s.called)) (record s { called = e ∷ s.called }) h few in
      then_run-Ends [] 1 (suc (length es))
        (submit_all put (asks (e ∷ s.called)) (record s { called = e ∷ s.called })) _
        (Ends-after [] 1 0 1 _ refl (handed_on e s) resumed)
        (λ t p.
          Ends-after [] 1 (length es) (suc (length es)) _ (omega arith) p
            (deliver-Ends k put es t h (omega (arith, p.shorter))))

  -- The events of a batch are counted.
  counted-Between : (n : ℕ) {s t : Running} → Between [] n s t → Between [] 0 s (counted n t)
  counted-Between n p = record {
    new = p.new;
    handed = p.handed;
    asked = p.asked;
    called = p.called;
    blocks = p.blocks;
    requests = p.requests;
    results = omega (arith, p.results);
    shorter = p.shorter;
  }

  fetch-Ends :
      (k : ℕ) (put : Iocb → Running → Ran) (fs : List Fetched) (s : Running)
      → IsPut k put
      → length s.submits < k
      → Ends [] 0 s (fetch asks put fs s)
  unfolding fetch
  fetch-Ends k put [] s h few = inr refl
  fetch-Ends k put (events [] ∷ rest) s h few = fetch-Ends k put rest s h few
  fetch-Ends k put (events (e ∷ es) ∷ rest) s h few =
      then_run-Ends [] (length (e ∷ es)) 0 (deliver asks put (e ∷ es) (record s { fetches = rest }))
        _
        (Ends-after [] 0 (length (e ∷ es)) (length (e ∷ es)) _ (omega arith)
          (replied s s.submits rest (omega arith))
          (deliver-Ends k put (e ∷ es) (record s { fetches = rest }) h few))
        (λ t p. counted-Between (length (e ∷ es)) p)
  fetch-Ends k put (fetch_failed errno ∷ rest) s h few = fetch-Ends k put rest s h few

  took_block :
      (b : Iocb) (s : Running) (rest : List Submitted)
      → length rest ≤ length s.submits
      → Between (b ∷ []) 0 s (record s {
        submits = rest;
        aio = record s.aio { req = u64 (s.aio.req + 1); submitted = b ∷ s.aio.submitted };
      })
  took_block b s rest fewer = record {
    new = [];
    handed = [];
    asked = refl;
    called = refl;
    blocks = Perm.rfl;
    requests = omega arith;
    results = omega arith;
    shorter = fewer;
  }

  -- The block is logged before its submission.
  logged-Between :
      {b : Iocb} {s t : Running}
      → Between (b ∷ []) 0 (record s { asked = b ∷ s.asked }) t
      → Between [] 0 s t
  logged-Between {b} {s} p = record {
    new = p.new ++ b ∷ [];
    handed = p.handed;
    asked = p.asked ∙ sym (append_assoc p.new (b ∷ []) s.asked);
    called = p.called;
    blocks =
        rw (append_assoc p.new (b ∷ []) s.aio.submitted)
          (Perm.trans p.blocks (Perm.symm (perm_middle p.new s.aio.submitted)));
    requests = omega (arith, p.requests, length-append p.new (b ∷ []));
    results = p.results;
    shorter = p.shorter;
  }

  logged-Ends :
      (b : Iocb) (s : Running) (r : Ran)
      → Ends (b ∷ []) 0 (record s { asked = b ∷ s.asked }) r
      → Ends [] 0 s r
  logged-Ends b s (returned t) p = logged-Between p
  logged-Ends b s (unanswered t) p = p
  logged-Ends b s out_of_fuel p = p

  submit_loop-Ends :
      (n : ℕ) (b : Iocb) (replies : List Submitted) (s : Running)
      → length replies < n
      → length replies ≤ length s.submits
      → Ends (b ∷ []) 0 s (submit_loop asks n b replies s)
  unfolding submit_loop
  submit_loop-Ends zero b replies s few fewer = absurd (omega (arith, few))
  submit_loop-Ends (suc n) b [] s few fewer = inl refl
  submit_loop-Ends (suc n) b (taken ∷ rest) s few fewer = took_block b s rest (omega (arith, fewer))
  submit_loop-Ends (suc n) b (not_taken ∷ rest) s few fewer =
      submit_loop-Ends n b rest s (omega (arith, few)) (omega (arith, fewer))
  submit_loop-Ends (suc n) b (refused errno ∷ rest) s few fewer =
      elim (Bool-cases (errno == again)) [
        | inr other ↦
            rw (other, submit_loop)
              (submit_loop-Ends n b rest s (omega (arith, few)) (omega (arith, fewer)))
        | inl full ↦
            let s₁ : Running = record s { submits = rest } in
            let nested : IsPut n
                (λ c t. submit_loop asks n c t.submits (record t { asked = c ∷ t.asked })) =
              λ c t h.
                logged-Ends c t (submit_loop asks n c t.submits (record t { asked = c ∷ t.asked }))
                  (submit_loop-Ends n c t.submits (record t { asked = c ∷ t.asked }) h
                    (omega arith)) in
            rw (full, submit_loop)
              (Ends-after (b ∷ []) 0 0 0 _ refl (replied s rest s.fetches (omega (arith, fewer))) (
                then_run-Ends (b ∷ []) 0 0 _ _
                  (fetch-Ends n _ s.fetches s₁ nested (omega (arith, few)))
                  (λ t p. Ends-after (b ∷ []) 0 0 0 _ refl p (
                    submit_loop-Ends n b t.submits t (omega (arith, few, p.shorter))
                      (omega arith)))))
      ]

  submit-Ends :
      (n : ℕ) (b : Iocb) (s : Running) → length s.submits < n → Ends [] 0 s (submit asks n b s)
  unfolding submit
  submit-Ends n b s few =
      logged-Ends b s (submit_loop asks n b s.submits (record s { asked = b ∷ s.asked }))
        (submit_loop-Ends n b s.submits _ few (omega arith))

  -- With more fuel than there are replies of io_submit left, submit of any block, and the handler
  -- of the eventfd, either return or wait for a reply that is not given, whatever blocks the
  -- callbacks submit meanwhile. Where one returns, the kernel has taken exactly the blocks that
  -- submit was called with, by it or by the callbacks, each once; and modulo 2^64 the requests have
  -- grown by their number, and the results by the number of events handed to callbacks.
  pub nested_calls_end :
      (n : ℕ) (s : Running)
      → length s.submits < n
      → ((b : Iocb) → Ends [] 0 s (submit asks n b s)) × Ends [] 0 s (on_file_event asks n s)
  unfolding on_file_event
  nested_calls_end n s few =
      (λ b. submit-Ends n b s few, fetch-Ends n (submit asks n) s.fetches s (submit-Ends n) few)
