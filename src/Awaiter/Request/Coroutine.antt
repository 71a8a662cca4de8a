-- ===== src/Awaiter/Request/Coroutine.antt =====
-- recv_request2: the same request read by a coroutine, which awaits a recv_lazy for the header and
-- another for the rest.
use nsio.Base.{ℕ, ◌+◌, ◌-◌, ◌^◌, ◌⊎◌, inl, inr, List, ◌==◌, if◌then◌else◌, get_or, set, take}
use nsio.Base.Int.{ℤ, pos, negsuc, nonpos}
use nsio.ByteBuffer.{ByteBuffer, BufferPool, u32}
use nsio.Awaiter.{store}
use nsio.Awaiter.Request.{cmd_len_of, request_buffer}

-- What the coroutine holds while it awaits the rest: the buffer with its memory, the span that it
-- awaits, as offset and length, and the pool.
pub record Rest : Type 0 where
  pub req : ByteBuffer
  pub memory : List ℕ
  pub span_begin : ℕ
  pub span_len : ℕ
  pub pool : BufferPool

-- From the header's result to the second co_await, or to co_return. `align_bit` is a reference into
-- the header, so the default of 6 is copied into the request too.
unfoldable pub after_header : (ByteBuffer → List ℕ) → ℕ → BufferPool → ℤ → List ℕ → ℤ ⊎ Rest
unfolding cmd_len_of request_buffer
after_header memory at p (negsuc n) header = inl (negsuc n)
after_header memory at p (pos n) header =
    let req_len = cmd_len_of header in
    let header' = if get_or header 5 0 == 0 then set header 5 6 else header in
    let r = request_buffer p at req_len (get_or header' 4 0) (get_or header' 5 0) in
    if n == 6
    then inr (record {
      req = r.0;
      memory = store (memory r.0) r.0.data_begin (take 6 header');
      span_begin = r.0.data_begin + 6;
      span_len = u32 (req_len + 2 ^ 32 - 2);
      pool = r.1;
    })
    else inl (pos n)

-- From the second result to co_return.
unfoldable pub after_rest : ℤ → Rest → ℤ
after_rest rc s = if nonpos rc then rc else pos s.req.data_len
