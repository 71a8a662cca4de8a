-- ===== src/Awaiter/Request.antt =====
-- recv_request: read a request, whose header gives its length and alignment, into a buffer of the pool.
-- `_cmd_len` is an int, kept here as its 32 bits; its sums wrap where C++ leaves the overflow
-- undefined. The memory of a block is the list of its bytes from base() on; `memory` is what a block
-- holds when malloc returns it. A store beyond the end, undefined in C++, makes the list longer.
pub mod Body
pub mod Deliver
pub mod Delivered
pub mod Header
pub mod Agree
pub mod Coroutine
pub mod Layout
pub mod Misread
use nsio.Base.{
  ℕ, zero, suc, ◌+◌, ◌-◌, ◌*◌, ◌%◌, ◌^◌, Bool, true, false, List, [], ◌∷◌, ◌++◌, Option, none, some,
  ltb, ◌==◌, ◌&&◌, ◌||◌, not, if◌then◌else◌, length, get_or, take,
}
use nsio.Base.Int.{ℤ, pos, negsuc, neg_part, nonpos}
use nsio.IoLoop.{IoLoop, Ctl}
use nsio.IoLoop.Fds.{wait_read}
use nsio.IoLoop.Timers.{HeapAlgorithms}
use nsio.ByteBuffer.{ByteBuffer, BufferPool, u32, malloc, set_data_offset, body_off}
use nsio.Awaiter.{
  Received, got, failed, Effect, arm_read, cancel_read, set_errno, resume, store, eagain, eintr,
}
use nsio.Awaiter.Connect.{new_timeout}

-- struct recv_request with the fields of its bases; `request` is `*_request` with its memory.
pub record RecvRequest : Type 0 where
  pub result : ℤ
  pub timer_id : ℤ
  pub is_timeout : ℕ
  pub recved_bytes : ℕ
  pub cmd_len : ℕ
  pub sockfd : ℕ
  pub flags : ℕ
  pub request : Option (ByteBuffer × List ℕ)
  pub buf : List ℕ

-- How the loop for the header ends: it waits, or it is left with the last result of recv(2), or the
-- replies run out.
pub data HeaderEnd : Type 0 where
  waits leaves : ℤ → RecvRequest → List Received → HeaderEnd
  starved : HeaderEnd

unfoldable pub header_loop : ℤ → List Received → RecvRequest → HeaderEnd
header_loop rc [] s = if ltb s.recved_bytes 6 then starved else leaves rc s []
header_loop rc (got [] ∷ rest) s =
    if ltb s.recved_bytes 6 then leaves (pos 0) s rest else leaves rc s (got [] ∷ rest)
header_loop rc (got (b ∷ bs) ∷ rest) s =
    let more = header_loop (pos (length (b ∷ bs))) rest (record s {
      recved_bytes = s.recved_bytes + length (b ∷ bs);
      buf = store s.buf s.recved_bytes (b ∷ bs);
    }) in
    if ltb s.recved_bytes 6 then more else leaves rc s (got (b ∷ bs) ∷ rest)
header_loop rc (failed e ∷ rest) s =
    let again = header_loop (negsuc 0) rest s in
    let on_error =
      if e == eagain
      then waits (negsuc 0) s rest
      else if e == eintr
      then again
      else leaves (negsuc 0) s rest in
    if ltb s.recved_bytes 6 then on_error else leaves rc s (failed e ∷ rest)

-- ntohl(*(uint32_t *)_buf)
unfoldable pub cmd_len_of : List ℕ → ℕ
cmd_len_of buf =
    ((get_or buf 0 0 * 2 ^ 8 + get_or buf 1 0) * 2 ^ 8 + get_or buf 2 0) * 2 ^ 8 + get_or buf 3 0

-- The buffer for a request of `cmd` bytes after its length field; `at` is what aligned_alloc returns.
unfoldable pub request_buffer : BufferPool → ℕ → ℕ → ℕ → ℕ → ByteBuffer × BufferPool
unfolding malloc set_data_offset body_off
request_buffer p at cmd align_off align_bit =
    let n = u32 (cmd + 4) in
    let plain = malloc p n 6 0 at in
    let aligned = malloc p (u32 (cmd + 4 + 2 ^ 32 - align_off)) align_bit align_off at in
    if align_off == 0
    then (set_data_offset 0 n plain.0, plain.1)
    else (set_data_offset (u32 (body_off aligned.0 + 2 ^ 32 - align_off)) n aligned.0, aligned.1)

-- From the whole header to the loop for the body. The caller's pointer is empty before: a buffer that it
-- held would go back to the pool at the assignment, which is left out.
unfoldable pub take_header :
    (ByteBuffer → List ℕ) → ℕ → BufferPool → RecvRequest → RecvRequest × BufferPool
unfolding cmd_len_of request_buffer
take_header memory at p s =
    let cmd = cmd_len_of s.buf in
    let r = request_buffer p at cmd (get_or s.buf 4 0) (get_or s.buf 5 0) in
    (
      record s {
        cmd_len = u32 (cmd + 4);
        request = some (r.0, store (memory r.0) r.0.data_begin (take 6 s.buf));
      },
      r.1,
    )

-- A read into data() + offset of the request.
abbrev put_bytes : ℕ → List ℕ → Option (ByteBuffer × List ℕ) → Option (ByteBuffer × List ℕ)
put_bytes offset bytes none = none
put_bytes offset bytes (some (b, m)) = some (b, store m (b.data_begin + offset) bytes)

-- recved < cmd_len, as ints
abbrev pub below : ℕ → ℕ → Bool
below recved cmd = ltb cmd (2 ^ 31) && ltb recved cmd

abbrev done : RecvRequest → ℤ → List Received → Option (RecvRequest × List Effect × List Received)
done s result rest = some (record s { result = result }, resume result ∷ [], rest)

-- The loop for the body, and the end of the handler.
unfoldable pub body_loop :
    List Received → RecvRequest → Option (RecvRequest × List Effect × List Received)
body_loop [] s = if below s.recved_bytes s.cmd_len then none else done s (pos s.recved_bytes) []
body_loop (got [] ∷ rest) s =
    if below s.recved_bytes s.cmd_len
    then done s (pos 0) rest
    else done s (pos s.recved_bytes) (got [] ∷ rest)
body_loop (got (b ∷ bs) ∷ rest) s =
    let more = body_loop rest (record s {
      recved_bytes = s.recved_bytes + length (b ∷ bs);
      request = put_bytes s.recved_bytes (b ∷ bs) s.request;
    }) in
    if below s.recved_bytes s.cmd_len
    then more
    else done s (pos s.recved_bytes) (got (b ∷ bs) ∷ rest)
body_loop (failed e ∷ rest) s =
    let again = body_loop rest s in
    let on_error =
      if e == eagain
      then some (s, arm_read ∷ set_errno 0 ∷ [], rest)
      else if e == eintr
      then again
      else done s (negsuc 0) rest in
    if below s.recved_bytes s.cmd_len
    then on_error
    else done s (pos s.recved_bytes) (failed e ∷ rest)

abbrev pub with_pool :
    BufferPool
    → Option (RecvRequest × List Effect × List Received)
    → Option (RecvRequest × List Effect × List Received × BufferPool)
with_pool p none = none
with_pool p (some (s, effects, rest)) = some (s, effects, rest, p)

-- recv_request::on_file_event
unfoldable pub on_file_event :
    (ByteBuffer → List ℕ)
    → ℕ
    → ℤ
    → List Received
    → RecvRequest
    → BufferPool
    → Option (RecvRequest × List Effect × List Received × BufferPool)
unfolding header_loop take_header body_loop
on_file_event memory at event replies s p =
    if nonpos event
    then some (s, set_errno (neg_part event) ∷ resume s.result ∷ [], replies, p)
    else if ltb s.recved_bytes 6
    then elim (header_loop (pos 0) replies s) [
      | starved ↦ none
      | waits rc s₁ rest ↦ some (s₁, arm_read ∷ set_errno 0 ∷ [], rest, p)
      | leaves rc s₁ rest ↦
          if nonpos rc || not (s₁.recved_bytes == 6)
          then with_pool p (done s₁ rc rest)
          else (let r = take_header memory at p s₁ in with_pool r.1 (body_loop rest r.0))
    ]
    else with_pool p (body_loop replies s)

-- recv_request::on_time_event
unfoldable pub on_time_event : RecvRequest → RecvRequest × List Effect
on_time_event s = (record s { is_timeout = 1 }, cancel_read s.sockfd ∷ resume s.result ∷ [])

-- recv_request::recv_request; `buf` is what the union holds at first.
unfoldable pub new_recv_request :
    HeapAlgorithms → (Ctl → ℤ) → Option ℕ → ℕ → ℕ → List ℕ → ℕ → ℕ → IoLoop → RecvRequest × IoLoop
unfolding new_timeout wait_read
new_recv_request std epoll_ctl after now sockfd buf flags this l =
    let t = new_timeout std after now this l in
    (
      record {
        result = negsuc 0;
        timer_id = t.0;
        is_timeout = 0;
        recved_bytes = 0;
        cmd_len = 0;
        sockfd = sockfd;
        flags = flags;
        request = none;
        buf = buf;
      },
      wait_read epoll_ctl sockfd this t.1,
    )
