-- ===== src/Awaiter/Callbacks/Effects.antt =====
-- What the handlers of the awaiters do to the loop, in which order.
use mathlib.Core.Path.{subst}
use nsio.Base.{
  ℕ, zero, suc, ◌≡◌, refl, inl, inr, Bool, true, false, List, [], ◌∷◌, Option, none, some, ltb,
  ◌==◌, ◌||◌, not, if◌then◌else◌, Bool-cases, Option-cases,
}
use nsio.Base.Int.{ℤ, pos, negsuc, neg_part, nonpos}
use nsio.ByteBuffer.{ByteBuffer, BufferPool}
use nsio.Awaiter.{
  Received, got, failed, Effect, arm_read, arm_write, cancel_write, set_errno, resume, eagain,
  eintr, econnaborted,
}
use nsio.Awaiter.Recv
use nsio.Awaiter.Send.{control}
use nsio.Awaiter.Send
use nsio.Awaiter.Accept.{Accept, connected}
use nsio.Awaiter.Accept
use nsio.Awaiter.Connect.{Connect}
use nsio.Awaiter.Connect
use nsio.Awaiter.Request.{
  RecvRequest, HeaderEnd, waits, leaves, starved, header_loop, take_header, body_loop, with_pool,
  below,
}
use nsio.Awaiter.Request
use nsio.Awaiter.Callbacks.{
  Awaiting, of_recv_lazy, of_recv_request, of_send_lazy, of_accept, of_connect, file_effects,
  IsReader, IsWriter,
}

-- What an object waits for.
pub data Kind : Type 0 where
  reading writing : Kind

-- The handler waits again, or resumes its coroutine as its last act. Where `stays` holds, it may go on
-- after resuming. Before it resumes, it may give up the wait to write its own socket.
pub data Acts (stays : Type 0) (fd : ℕ) : Kind → List Effect → Type 0 where
  waits_read : Acts stays fd reading (arm_read ∷ set_errno 0 ∷ [])
  waits_write : Acts stays fd writing (arm_write ∷ set_errno 0 ∷ [])
  resumes : {k : Kind} (z : ℤ) → Acts stays fd k (resume z ∷ [])
  goes_on :
      {es : List Effect} (z : ℤ)
      → stays
      → Acts stays fd reading es
      → Acts stays fd reading (resume z ∷ es)
  sets :
      {k : Kind} {es : List Effect} (e : ℕ)
      → Acts stays fd k es
      → Acts stays fd k (set_errno e ∷ es)
  gives_up : (z : ℤ) → Acts stays fd writing (cancel_write fd ∷ resume z ∷ [])

-- accept goes on after resuming.
abbrev pub GoesOn : Awaiting → Type 0
GoesOn (of_recv_lazy s replies) = ⊥
GoesOn (of_recv_request s p memory at replies) = ⊥
GoesOn (of_send_lazy s replies) = ⊥
GoesOn (of_accept s answers) = Unit {0}
GoesOn (of_connect c so_error) = ⊥

-- A handler returns, and its effects on the loop are such.
abbrev pub Behaves : ℕ → Kind → ℤ → Awaiting → Type 0
Behaves fd k event c =
    (es : List Effect) × (file_effects event c ≡ some es) × Acts (GoesOn c) fd k (control es)

-- The same for recv_request, if it returns.
abbrev Shaped : ℕ → Option (RecvRequest × List Effect × List Received × BufferPool) → Type 0
Shaped fd none = Unit {0}
Shaped fd (some r) = Acts ⊥ fd reading (control r.1)

Shaped-if :
    (fd : ℕ) (b : Bool) (x y : Option (RecvRequest × List Effect × List Received × BufferPool))
    → Shaped fd x
    → Shaped fd y
    → Shaped fd (if b then x else y)
Shaped-if fd true x y p q = p
Shaped-if fd false x y p q = q

with_pool-if :
    (fd : ℕ) (p : BufferPool) (b : Bool) (x y : Option (RecvRequest × List Effect × List Received))
    → Shaped fd (with_pool p x)
    → Shaped fd (with_pool p y)
    → Shaped fd (with_pool p (if b then x else y))
with_pool-if fd p true x y a b = a
with_pool-if fd p false x y a b = b

body_loop-Shaped :
    (fd : ℕ) (p : BufferPool) (replies : List Received) (s : RecvRequest)
    → Shaped fd (with_pool p (body_loop replies s))
unfolding body_loop
body_loop-Shaped fd p [] s = with_pool-if fd p (below s.recved_bytes s.cmd_len) _ _ tt (resumes _)
body_loop-Shaped fd p (got [] ∷ rest) s =
    with_pool-if fd p (below s.recved_bytes s.cmd_len) _ _ (resumes _) (resumes _)
body_loop-Shaped fd p (got (b ∷ bs) ∷ rest) s =
    with_pool-if fd p (below s.recved_bytes s.cmd_len) _ _ (body_loop-Shaped fd p rest _)
      (resumes _)
body_loop-Shaped fd p (failed e ∷ rest) s =
    with_pool-if fd p (below s.recved_bytes s.cmd_len) _ _
      (with_pool-if fd p (e == eagain) _ _ waits_read
        (with_pool-if fd p (e == eintr) _ _ (body_loop-Shaped fd p rest s) (resumes _)))
      (resumes _)

request-Shaped :
    (fd : ℕ) (memory : ByteBuffer → List ℕ) (at : ℕ) (event : ℤ) (replies : List Received)
    (s : RecvRequest) (p : BufferPool)
    → Shaped fd (Request.on_file_event memory at event replies s p)
unfolding Request.on_file_event
request-Shaped fd memory at event replies s p =
    Shaped-if fd (nonpos event) _ _ (sets _ (resumes _)) (
      Shaped-if fd (ltb s.recved_bytes 6) _ _ (header (header_loop (pos 0) replies s))
        (body_loop-Shaped fd p replies s))
  where
    header :
        (h : HeaderEnd)
        → Shaped fd (elim h [
          | starved ↦ none
          | waits rc s₁ rest ↦ some (s₁, arm_read ∷ set_errno 0 ∷ [], rest, p)
          | leaves rc s₁ rest ↦
              if nonpos rc || not (s₁.recved_bytes == 6)
              then with_pool p (some (record s₁ { result = rc }, resume rc ∷ [], rest))
              else (let r = take_header memory at p s₁ in with_pool r.1 (body_loop rest r.0))
        ])
    header starved = tt
    header (waits rc s₁ rest) = waits_read
    header (leaves rc s₁ rest) =
        Shaped-if fd (nonpos rc || not (s₁.recved_bytes == 6)) _ _ (resumes rc)
          (body_loop-Shaped fd (take_header memory at p s₁).1 rest (take_header memory at p s₁).0)

accept-Acts :
    (fd : ℕ) (answers : List Accept.Answer) (s : Accept)
    → (Accept.on_file_event answers s).2 ≡ true
    → Acts (Unit {0}) fd reading (control (Accept.on_file_event answers s).0)
unfolding Accept.on_file_event
accept-Acts fd [] s returns = cc
accept-Acts fd (connected c ∷ rest) s returns = goes_on (pos c) tt (accept-Acts fd rest _ returns)
accept-Acts fd (Accept.failed e ∷ rest) s returns = elim (Bool-cases (e == eintr)) [
  | inl again ↦ rw again (accept-Acts fd rest s (rw again at returns))
  | inr other ↦ elim (Bool-cases (e == eagain || e == econnaborted)) [
    | inl later ↦ rw (other, later) waits_read
    | inr hard ↦
        rw (other, hard)
          (goes_on (negsuc 0) tt (accept-Acts fd rest _ (rw (other, hard) at returns)))
  ]
]

connect-Acts :
    (event : ℤ) (so_error : ℕ) (c : Connect)
    → Acts ⊥ c.sockfd writing (control (Connect.on_file_event event so_error c).1)
unfolding Connect.on_file_event
connect-Acts (pos zero) so_error c = sets _ (gives_up _)
connect-Acts (pos (suc n)) so_error c = resumes _
connect-Acts (negsuc n) so_error c = sets _ (gives_up _)

pub readers-Behaves :
    (fd : ℕ) (event : ℤ) (c : Awaiting) → IsReader fd c → Behaves fd reading event c
unfolding file_effects Recv.on_file_event
readers-Behaves fd event (of_recv_lazy s replies) (here, enough) =
    elim (Bool-cases (nonpos event)) [
      | inl bad ↦ (
        set_errno (neg_part event) ∷ resume s.result ∷ [],
        rw (bad, file_effects) refl,
        sets _ (resumes _),
      )
      | inr ready ↦
          let (r, ran, outcome) = Recv.Shape.on_file_event-IsShaped event replies s ready enough in
          (
            r.1,
            rw (ran, file_effects) refl,
            elim outcome [
              | inl armed ↦ rw armed waits_read
              | inr (z, resumed) ↦ rw resumed (resumes _)
            ],
          )
    ]
readers-Behaves fd event (of_recv_request s p memory at replies) (here, returns) =
    elim (Option-cases (Request.on_file_event memory at event replies s p)) [
      | inl out ↦ absurd (returns event out)
      | inr (r, ran) ↦ (
        r.1,
        rw (ran, file_effects) refl,
        rw ran at (request-Shaped fd memory at event replies s p),
      )
    ]
readers-Behaves fd event (of_send_lazy s replies) r = elim r [ ]
readers-Behaves fd event (of_accept s answers) (here, returns) = (
  (Accept.on_file_event answers s).0,
  rw (returns, file_effects) refl,
  accept-Acts fd answers s returns,
)
readers-Behaves fd event (of_connect c so_error) r = elim r [ ]

pub writers-Behaves :
    (fd : ℕ) (event : ℤ) (c : Awaiting) → IsWriter fd c → Behaves fd writing event c
unfolding file_effects Send.on_file_event Connect.on_file_event
writers-Behaves fd event (of_recv_lazy s replies) w = elim w [ ]
writers-Behaves fd event (of_recv_request s p memory at replies) w = elim w [ ]
writers-Behaves fd event (of_send_lazy s replies) (here, enough) =
    elim (Bool-cases (nonpos event)) [
      | inl bad ↦ (resume s.result ∷ [], rw (bad, file_effects) refl, resumes _)
      | inr ready ↦
          let (r, ran, outcome) = Send.Shape.on_file_event-IsShaped event replies s ready enough in
          (
            r.1,
            rw (ran, file_effects) refl,
            elim outcome [
              | inl armed ↦ rw armed waits_write
              | inr (z, resumed) ↦ rw resumed (resumes _)
            ],
          )
    ]
writers-Behaves fd event (of_accept s answers) w = elim w [ ]
writers-Behaves fd event (of_connect c so_error) here = (
  _,
  refl,
  subst (λ (i : ℕ). Acts ⊥ i writing (control (Connect.on_file_event event so_error c).1)) here
      (connect-Acts event so_error c),
)
