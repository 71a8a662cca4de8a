-- ===== src/Awaiter/Accept.antt =====
-- accept: the connections that wait on a listening socket.
use mathlib.Core.Logic.{◌≢◌}
use nsio.Base.{
  ℕ, zero, suc, ◌≡◌, refl, ◌⊎◌, Bool, true, false, List, [], ◌∷◌, ◌++◌, map, ◌==◌, ◌||◌,
  if◌then◌else◌, replicate, arith,
}
use nsio.Base.Int.{ℤ, pos, negsuc}
use nsio.IoLoop.{IoLoop, Ctl}
use nsio.IoLoop.Fds.{wait_read}
use nsio.Awaiter.{Effect, arm_read, set_errno, resume, eagain, eintr, econnaborted}

-- What accept(2) returns: a descriptor, or -1 with errno.
pub data Answer : Type 0 where
  connected : ℕ → Answer
  failed : ℕ → Answer

-- struct accept with the fields of its base.
pub record Accept : Type 0 where
  pub result : ℤ
  pub serv_fd : ℕ

-- accept::accept; `this` is the new object.
unfoldable pub new_accept : (Ctl → ℤ) → ℕ → ℕ → IoLoop → Accept × IoLoop
unfolding wait_read
new_accept epoll_ctl serv_fd this l =
    (record { result = negsuc 0; serv_fd = serv_fd }, wait_read epoll_ctl serv_fd this l)

abbrev pub then_do : Effect → List Effect × Accept × Bool → List Effect × Accept × Bool
then_do e (effects, s, returned) = (e ∷ effects, s, returned)

-- accept::on_file_event: its effects, the awaiter, and whether it has returned when the answers run
-- out. The coroutine awaits a new `accept` in the place of the old one, so the loop goes on with it.
unfoldable pub on_file_event : List Answer → Accept → List Effect × Accept × Bool
on_file_event [] s = ([], s, false)
on_file_event (connected fd ∷ rest) s =
    then_do (resume (pos fd)) (on_file_event rest (record s { result = pos fd }))
on_file_event (failed e ∷ rest) s =
    let again = on_file_event rest s in
    let next = then_do (resume (negsuc 0)) (on_file_event rest (record s { result = negsuc 0 })) in
    if e == eintr
    then again
    else if e == eagain || e == econnaborted
    then (arm_read ∷ set_errno 0 ∷ [], s, true)
    else next

-- The descriptors of the connections among the answers.
abbrev pub accepted : List Answer → List ℕ
accepted [] = []
accepted (connected fd ∷ rest) = fd ∷ accepted rest
accepted (failed e ∷ rest) = accepted rest

-- Connections and interrupted calls.
abbrev pub Pending : List Answer → Type 0
Pending [] = Unit {0}
Pending (connected fd ∷ rest) = Pending rest
Pending (failed e ∷ rest) = (e ≡ eintr) × Pending rest

-- If the answers are connections and EINTR up to an EAGAIN or ECONNABORTED, the handler resumes the
-- coroutine with every connection, in order, then waits for more and returns.
pub accepts_all :
    (answers : List Answer) (e : ℕ) (s : Accept)
    → Pending answers
    → (e ≡ eagain) ⊎ (e ≡ econnaborted)
    → ((on_file_event (answers ++ failed e ∷ []) s).0
        ≡ map (λ fd. resume (pos fd)) (accepted answers) ++ arm_read ∷ set_errno 0 ∷ [])
      × ((on_file_event (answers ++ failed e ∷ []) s).2 ≡ true)
unfolding on_file_event
accepts_all [] e s p why = ground arith
accepts_all (connected fd ∷ answers) e s p why =
    ground (arith, accepts_all answers e (record s { result = pos fd }) p why)
accepts_all (failed x ∷ answers) e s (now, p) why = ground (arith, accepts_all answers e s p why)

-- If accept(2) keeps failing with an error other than EINTR, EAGAIN and ECONNABORTED, the handler
-- resumes the coroutine with -1 each time and does not return.
pub accept_error_repeats :
    (n e : ℕ) (s : Accept)
    → e ≢ eintr
    → e ≢ eagain
    → e ≢ econnaborted
    → ((on_file_event (replicate n (failed e)) s).0 ≡ replicate n (resume (negsuc 0)))
      × ((on_file_event (replicate n (failed e)) s).2 ≡ false)
unfolding on_file_event
accept_error_repeats zero e s a b c = (refl, refl)
accept_error_repeats (suc n) e s a b c =
    ground (arith, accept_error_repeats n e (record s { result = negsuc 0 }) a b c)
