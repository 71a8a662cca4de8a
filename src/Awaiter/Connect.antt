-- ===== src/Awaiter/Connect.antt =====
-- connect: the constructor's call of connect(2) and the two callbacks.
use nsio.Base.{
  ℕ, zero, suc, ◌≡◌, refl, Bool, true, false, List, [], ◌∷◌, Option, none, some, ◌==◌,
  if◌then◌else◌, arith,
}
use nsio.Base.Int.{ℤ, pos, negsuc, neg_part, nonpos}
use nsio.IoLoop.{IoLoop, Ctl}
use nsio.IoLoop.Fds.{wait_write}
use nsio.IoLoop.Timers.{HeapAlgorithms, delay_call_after}
use nsio.Awaiter.{Effect, cancel_write, set_errno, resume, eintr, einprogress}

-- What connect(2) returns: 0, or -1 with errno.
pub data Answer : Type 0 where
  established : Answer
  failed : ℕ → Answer

-- struct connect with the fields of its bases.
pub record Connect : Type 0 where
  pub result : ℤ
  pub timer_id : ℤ
  pub is_timeout : ℕ
  pub sockfd : ℕ

-- The constructor of timeout: `after` is the delay in nanoseconds, `none` for a number of seconds that
-- is not positive.
unfoldable pub new_timeout : HeapAlgorithms → Option ℕ → ℕ → ℕ → IoLoop → ℤ × IoLoop
unfolding delay_call_after
new_timeout std none now this l = (negsuc 0, l)
new_timeout std (some nanos) now this l =
    let r = delay_call_after std now nanos this l in (pos r.0, r.1)

-- The loop of the constructor: whether it waits for the socket to become writable.
unfoldable pub connect_loop : List Answer → Option Bool
connect_loop [] = none
connect_loop (established ∷ rest) = some false
connect_loop (failed e ∷ rest) =
    let again = connect_loop rest in
    if e == eintr then again else if e == einprogress then some true else some false

-- connect::connect; `this` is the new object. The socket's O_NONBLOCK flag is the kernel's.
unfoldable pub new_connect :
    HeapAlgorithms
    → (Ctl → ℤ)
    → Option ℕ
    → ℕ
    → ℕ
    → ℕ
    → List Answer
    → IoLoop
    → Option (Connect × IoLoop)
unfolding new_timeout connect_loop
new_connect std epoll_ctl after now sockfd this answers l =
    let t = new_timeout std after now this l in
    let c : Connect = record {
      result = negsuc 0;
      timer_id = t.0;
      is_timeout = 0;
      sockfd = sockfd;
    } in
    elim (connect_loop answers) [
      | none ↦ none
      | some true ↦ some (c, wait_write epoll_ctl sockfd this t.1)
      | some false ↦ some (c, t.1)
    ]

-- connect::on_time_event
unfoldable pub on_time_event : Connect → Connect × List Effect
on_time_event c =
    (record c { is_timeout = 1; timer_id = pos 0 }, cancel_write c.sockfd ∷ resume c.result ∷ [])

-- connect::on_file_event; `so_error` is what getsockopt gives for SO_ERROR, and 2 is EM_WRITE.
unfoldable pub on_file_event : ℤ → ℕ → Connect → Connect × List Effect
on_file_event event so_error c =
    if nonpos event
    then (c, set_errno (neg_part event) ∷ cancel_write c.sockfd ∷ resume c.result ∷ [])
    else elim event [
      | pos n ↦
          let done = if so_error == 0 then record c { result = pos 0 } else c in
          let c' = if n == 2 then done else c in (c', resume c'.result ∷ [])
      | negsuc n ↦ (c, resume c.result ∷ [])
    ]

-- From a result of -1, the callback sets the result to 0 exactly if the event is EM_WRITE and the
-- socket has no pending error.
connect_result :
    (event : ℤ) (so_error : ℕ) (c : Connect)
    → c.result ≡ negsuc 0
    → (((on_file_event event so_error c).0.result ≡ pos 0) → (event ≡ pos 2) × (so_error ≡ 0))
      × ((event ≡ pos 2) × (so_error ≡ 0) → (on_file_event event so_error c).0.result ≡ pos 0)
unfolding on_file_event
connect_result (pos zero) so_error c fresh = ground arith
connect_result (pos (suc n)) so_error c fresh = ground arith
connect_result (negsuc n) so_error c fresh = ground arith

-- If connect(2) succeeds at once, the constructor waits for nothing on the socket, and the timeout
-- then resumes the coroutine with -1.
connect_at_once :
    (std : HeapAlgorithms) (epoll_ctl : Ctl → ℤ) (after : Option ℕ) (now sockfd this : ℕ)
    (rest : List Answer) (l : IoLoop)
    → (c : Connect) × (l' : IoLoop) × (new_connect std epoll_ctl after now sockfd this
          (established ∷ rest)
          l
        ≡ some (c, l'))
      × (l'.fds ≡ l.fds)
      × (l'.ctls ≡ l.ctls)
      × ((on_time_event c).1 ≡ cancel_write sockfd ∷ resume (negsuc 0) ∷ [])
unfolding new_connect on_time_event
connect_at_once std epoll_ctl none now sockfd this rest l = (_, _, refl, refl, refl, refl)
connect_at_once std epoll_ctl (some nanos) now sockfd this rest l = (_, _, refl, refl, refl, refl)
