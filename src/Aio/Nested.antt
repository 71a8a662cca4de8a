-- ===== src/Aio/Nested.antt =====
-- io_aio_impl while its callbacks run: a coroutine that on_aio_event resumes may read and write files
-- again, before the other events of the batch have been handed on. `asks` gives the blocks that a
-- coroutine submits when it is resumed, by the events handed on so far, latest first.
pub mod Between
pub mod Conserves
pub mod Quiet
use nsio.Base.{ℕ, zero, suc, ◌+◌, List, [], ◌∷◌, true, false, ◌==◌, length}
use nsio.ByteBuffer.{u64}
use nsio.Aio.{
  IoEvent, Iocb, IoAio, Fetched, events, fetch_failed, Submitted, taken, not_taken, refused, again,
}

-- The object with the kernel's replies to come, and two logs, latest first: the events handed on, and
-- the blocks that submit was called with.
pub record Running : Type 0 where
  pub aio : IoAio
  pub submits : List Submitted
  pub fetches : List Fetched
  pub called : List IoEvent
  pub asked : List Iocb

-- A call returns, or it waits for a reply that is not given.
pub data Ran : Type 0 where
  returned : Running → Ran
  unanswered : Running → Ran
  out_of_fuel : Ran

abbrev pub then_run : Ran → (Running → Ran) → Ran
then_run (returned s) next = next s
then_run (unanswered s) next = unanswered s
then_run out_of_fuel next = out_of_fuel

-- The coroutine submits its blocks, one after the other.
unfoldable pub submit_all : (Iocb → Running → Ran) → List Iocb → Running → Ran
submit_all put [] s = returned s
submit_all put (b ∷ bs) s = then_run (put b s) (submit_all put bs)

-- _res += rc
abbrev pub counted : ℕ → Running → Running
counted n s = record s { aio = record s.aio { res = u64 (s.aio.res + n) } }

module _ (asks : List IoEvent → List Iocb) where
  -- icb->on_aio_event(e[i]) for the events of a batch.
  unfoldable pub deliver : (Iocb → Running → Ran) → List IoEvent → Running → Ran
  unfolding submit_all
  deliver put [] s = returned s
  deliver put (e ∷ es) s =
      then_run (submit_all put (asks (e ∷ s.called)) (record s { called = e ∷ s.called }))
        (deliver put es)

  -- io_aio_impl::fetch_events on the replies of io_getevents.
  unfoldable pub fetch : (Iocb → Running → Ran) → List Fetched → Running → Ran
  unfolding deliver
  fetch put [] s = unanswered (record s { fetches = [] })
  fetch put (events [] ∷ rest) s = fetch put rest s
  fetch put (events (e ∷ es) ∷ rest) s =
      then_run (deliver put (e ∷ es) (record s { fetches = rest }))
        (λ t. returned (counted (length (e ∷ es)) t))
  fetch put (fetch_failed errno ∷ rest) s = fetch put rest s

  -- The loop of io_aio_impl::submit on the replies of io_submit; a turn takes one of the fuel.
  unfoldable pub submit_loop : ℕ → Iocb → List Submitted → Running → Ran
  unfolding fetch
  submit_loop zero b replies s = out_of_fuel
  submit_loop (suc n) b [] s = unanswered (record s { submits = [] })
  submit_loop (suc n) b (taken ∷ rest) s = returned (record s {
    submits = rest;
    aio = record s.aio { req = u64 (s.aio.req + 1); submitted = b ∷ s.aio.submitted };
  })
  submit_loop (suc n) b (not_taken ∷ rest) s = submit_loop n b rest s
  submit_loop (suc n) b (refused errno ∷ rest) s = elim (errno == again) [
    | false ↦ submit_loop n b rest s
    | true ↦
        then_run
          (fetch (λ c t. submit_loop n c t.submits (record t { asked = c ∷ t.asked })) s.fetches
            (record s { submits = rest }))
          (λ t. submit_loop n b t.submits t)
  ]

  -- io_aio_impl::submit
  unfoldable pub submit : ℕ → Iocb → Running → Ran
  unfolding submit_loop
  submit n b s = submit_loop n b s.submits (record s { asked = b ∷ s.asked })

  -- io_aio_impl::on_file_event, which then waits to read again
  unfoldable pub on_file_event : ℕ → Running → Ran
  unfolding fetch submit
  on_file_event n s = fetch (submit n) s.fetches s
