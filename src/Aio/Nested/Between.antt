-- ===== src/Aio/Nested/Between.antt =====
-- What a call of io_aio_impl may change from its start to its end, and how such changes add up.
use mathlib.Core.List.{append_assoc, Perm}
use mathlib.Core.List.Perm
use nsio.Base.{
  ℕ, ◌+◌, ◌≤◌, ◌≡◌, refl, sym, ap, ◌∙◌, ◌⊎◌, List, [], ◌++◌, length, length-append, arith,
}
use nsio.ByteBuffer.{u64}
use nsio.Aio.{IoEvent, Iocb, Fetched, Submitted}
use nsio.Aio.Nested.{Running, Ran, returned, unanswered, out_of_fuel, then_run}

-- Between two moments, `new` was submitted and `handed` was handed on. The kernel took what was
-- submitted and what was pending before, each block once; the counters have grown by as many, where
-- `uncounted` events of a batch are still to be added.
pub record Between (pending : List Iocb) (uncounted : ℕ) (s t : Running) : Type 0 where
  pub new : List Iocb
  pub handed : List IoEvent
  pub asked : t.asked ≡ new ++ s.asked
  pub called : t.called ≡ handed ++ s.called
  pub blocks : Perm t.aio.submitted (pending ++ (new ++ s.aio.submitted))
  pub requests : u64 t.aio.req ≡ u64 (s.aio.req + length pending + length new)
  pub results : u64 (t.aio.res + uncounted) ≡ u64 (s.aio.res + length handed)
  pub shorter : length t.submits ≤ length s.submits

-- A call that returns does so; one that waits has no reply left; and the fuel does not run out.
abbrev pub Ends : List Iocb → ℕ → Running → Ran → Type 0
Ends pending uncounted s (returned t) = Between pending uncounted s t
Ends pending uncounted s (unanswered t) = (t.submits ≡ []) ⊎ (t.fetches ≡ [])
Ends pending uncounted s out_of_fuel = ⊥

pub Between-trans :
    {pending : List Iocb} {m n : ℕ} {s t u : Running}
    → Between [] m s t
    → Between pending n t u
    → Between pending (m + n) s u
Between-trans {pending} {m} {n} {s} {t} {u} p q = record {
  new = q.new ++ p.new;
  handed = q.handed ++ p.handed;
  asked =
      q.asked
      ∙ ap (λ (bs : List Iocb). q.new ++ bs) p.asked
      ∙ sym (append_assoc q.new p.new s.asked);
  called =
      q.called
      ∙ ap (λ (es : List IoEvent). q.handed ++ es) p.called
      ∙ sym (append_assoc q.handed p.handed s.called);
  blocks =
      rw (append_assoc q.new p.new s.aio.submitted)
        (Perm.trans q.blocks (Perm.append_left pending (Perm.append_left q.new p.blocks)));
  requests = omega (arith, p.requests, q.requests, length-append q.new p.new);
  results = omega (arith, p.results, q.results, length-append q.handed p.handed);
  shorter = omega (arith, p.shorter, q.shorter);
}

-- Replies are taken from the lists.
pub replied :
    (s : Running) (submits : List Submitted) (fetches : List Fetched)
    → length submits ≤ length s.submits
    → Between [] 0 s (record s { submits = submits; fetches = fetches })
replied s submits fetches fewer = record {
  new = [];
  handed = [];
  asked = refl;
  called = refl;
  blocks = Perm.rfl;
  requests = omega arith;
  results = omega arith;
  shorter = fewer;
}

pub Ends-after :
    (pending : List Iocb) (m n k : ℕ) {s t : Running} (r : Ran)
    → k ≡ m + n
    → Between [] m s t
    → Ends pending n t r
    → Ends pending k s r
Ends-after pending m n k (returned u) e p q = rw e (Between-trans p q)
Ends-after pending m n k (unanswered u) e p q = q
Ends-after pending m n k out_of_fuel e p q = q

pub then_run-Ends :
    (pending : List Iocb) (m k : ℕ) {s : Running} (r : Ran) (next : Running → Ran)
    → Ends [] m s r
    → ((t : Running) → Between [] m s t → Ends pending k s (next t))
    → Ends pending k s (then_run r next)
then_run-Ends pending m k (returned t) next p h = h t p
then_run-Ends pending m k (unanswered t) next p h = p
then_run-Ends pending m k out_of_fuel next p h = elim p [ ]
