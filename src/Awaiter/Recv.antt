-- ===== src/Awaiter/Recv.antt =====
-- recv_lazy: fill a span from a socket.
pub mod Outcome
pub mod Shape
pub mod Assembly
use nsio.Base.{
  ℕ, suc, ◌+◌, ◌<◌, ◌≡◌, refl, ◌⊎◌, inl, inr, List, [], ◌∷◌, Option, none, some, ltb, ◌==◌,
  if◌then◌else◌, length, arith,
}
use nsio.Base.Int.{ℤ, pos, negsuc, neg_part, nonpos}
use nsio.Awaiter.{
  Received, got, failed, Effect, arm_read, cancel_read, set_errno, resume, Ended, store, below_size,
  eagain, eintr,
}

-- struct recv_lazy with the fields of its bases; `buff` is what the span holds. `recved_bytes` is kept
-- without the wrap of its int, which it can reach only on a span of 2^31 bytes or more.
pub record RecvLazy : Type 0 where
  pub result : ℤ
  pub timer_id : ℤ
  pub is_timeout : ℕ
  pub recved_bytes : ℕ
  pub sockfd : ℕ
  pub flags : ℕ
  pub buff : List ℕ

abbrev resumed : RecvLazy → List Received → Ended RecvLazy Received
resumed s rest = some (s, resume s.result ∷ [], rest)

abbrev armed : RecvLazy → List Received → Ended RecvLazy Received
armed s rest = some (s, arm_read ∷ set_errno 0 ∷ [], rest)

-- The loop of recv_lazy::on_file_event.
unfoldable pub recv_loop : List Received → RecvLazy → Ended RecvLazy Received
recv_loop [] s =
    if below_size s.recved_bytes (length s.buff)
    then none
    else resumed (record s { result = pos s.recved_bytes }) []
recv_loop (got [] ∷ rest) s =
    if below_size s.recved_bytes (length s.buff)
    then resumed (record s { result = pos 0 }) rest
    else resumed (record s { result = pos s.recved_bytes }) (got [] ∷ rest)
recv_loop (got (b ∷ bs) ∷ rest) s =
    let more = recv_loop rest (record s {
      recved_bytes = s.recved_bytes + length (b ∷ bs);
      buff = store s.buff s.recved_bytes (b ∷ bs);
    }) in
    if below_size s.recved_bytes (length s.buff)
    then more
    else resumed (record s { result = pos s.recved_bytes }) (got (b ∷ bs) ∷ rest)
recv_loop (failed e ∷ rest) s =
    let again = recv_loop rest s in
    let on_error =
      if e == eagain
      then armed s rest
      else if e == eintr
      then again
      else resumed (record s { result = negsuc 0 }) rest in
    if below_size s.recved_bytes (length s.buff)
    then on_error
    else resumed (record s { result = pos s.recved_bytes }) (failed e ∷ rest)

-- recv_lazy::on_file_event; the loop passes 1 for EM_READ and an error number negated.
unfoldable pub on_file_event : ℤ → List Received → RecvLazy → Ended RecvLazy Received
unfolding recv_loop
on_file_event event replies s =
    if nonpos event
    then some (s, set_errno (neg_part event) ∷ resume s.result ∷ [], replies)
    else recv_loop replies s

-- recv_lazy::on_time_event
unfoldable pub on_time_event : RecvLazy → RecvLazy × List Effect
on_time_event s = (record s { is_timeout = 1 }, cancel_read s.sockfd ∷ resume s.result ∷ [])
