-- ===== src/Awaiter/Request/Agree.antt =====
-- recv_request and recv_request2 on one header.
use nsio.Base.{
  ℕ, suc, ◌+◌, ◌-◌, ◌^◌, ◌≤◌, ◌<◌, ◌≡◌, refl, ap, ◌∙◌, inl, inr, false, List, [], ◌∷◌, ◌++◌, Option,
  some, ◌==◌, arith, length, take, drop, length-take, length-drop, Bool-cases,
}
use nsio.Base.Int.{ℤ, pos, negsuc}
use nsio.ByteBuffer.{ByteBuffer, BufferPool, u32, set_data_offset}
use nsio.Awaiter.{Received, store}
use nsio.Awaiter.Store.{length-store, take-drop_parts}
use nsio.Awaiter.Recv.{RecvLazy, recv_loop}
use nsio.Awaiter.Request.{RecvRequest, cmd_len_of, request_buffer, take_header, body_loop}
use nsio.Awaiter.Request.Body.{IsCut, around, widen, widened, IsRest, body_loop-recv_loop}
use nsio.Awaiter.Request.Coroutine.{Rest, after_header, after_rest}

pub request_buffer-data_len :
    (p : BufferPool) (at cmd off bit : ℕ)
    → (request_buffer p at cmd off bit).0.data_len ≡ u32 (cmd + 4)
unfolding request_buffer set_data_offset
request_buffer-data_len p at cmd off bit = elim (Bool-cases (off == 0)) [
  | inl plain ↦ rw plain refl
  | inr aligned ↦ rw aligned refl
]

-- A state is what its fields say.
refit :
    (s : RecvRequest) (z : ℤ) (n : ℕ) (q : Option (ByteBuffer × List ℕ))
    → s.result ≡ z
    → s.recved_bytes ≡ n
    → s.request ≡ q
    → s ≡ record s { result = z; recved_bytes = n; request = q }
refit s z n q a b c = λ i. record s { result = a i; recved_bytes = b i; request = c i }

-- The recv_lazy of the coroutine's second co_await, on its span.
abbrev pub span_lazy : Rest → RecvLazy → RecvLazy
span_lazy c r = record r {
  result = negsuc 0;
  recved_bytes = 0;
  buff = take c.span_len (drop c.span_begin c.memory);
}

module _ (memory : ByteBuffer → List ℕ) (at : ℕ) (p : BufferPool) (h₀ h₁ h₂ h₃ off bit : ℕ) where
  abbrev pub header : List ℕ
  header = h₀ ∷ h₁ ∷ h₂ ∷ h₃ ∷ off ∷ bit ∷ []

  abbrev pub cmd : ℕ
  cmd = cmd_len_of header

  -- The buffer for the request, and its memory with the header in it.
  abbrev pub held : ByteBuffer
  held = (request_buffer p at cmd off bit).0

  abbrev pub stored : List ℕ
  stored = store (memory held) held.data_begin header

  abbrev pub rest_of : Rest
  rest_of = record {
    req = held;
    memory = stored;
    span_begin = held.data_begin + 6;
    span_len = u32 (cmd + 2 ^ 32 - 2);
    pool = (request_buffer p at cmd off bit).1;
  }

  after_header-rest_of : 0 < bit → after_header memory at p (pos 6) header ≡ inr rest_of
  unfolding after_header
  after_header-rest_of set = let e : (bit == 0) ≡ false = ground arith in rw e refl

  abbrev pub taken : RecvRequest → RecvRequest
  taken s = record s { cmd_len = u32 (cmd + 4); request = some (held, stored) }

  pub take_header-taken :
      (s : RecvRequest) (tail : List ℕ)
      → s.buf ≡ header ++ tail
      → take_header memory at p s ≡ (taken s, rest_of.pool)
  unfolding take_header
  take_header-taken s tail e = rw e refl

  -- Where the rest of the request is.
  pub rest_span :
      2 < cmd
      → cmd + 4 < 2 ^ 31
      → held.data_begin + (cmd + 4) ≤ length (memory held)
      → (rest_of.span_len ≡ cmd - 2)
        × (length (take rest_of.span_begin stored) ≡ held.data_begin + 6)
        × (length (take rest_of.span_len (drop rest_of.span_begin stored)) ≡ cmd - 2)
  rest_span some_rest small room =
      let n : ℕ = rest_of.span_len in
      let i : ℕ = rest_of.span_begin in
      let len : n ≡ cmd - 2 = omega arith in
      let kept : length stored ≡ length (memory held) =
        omega (arith, length-store (memory held) held.data_begin header (omega (arith, room))) in
      (
        len,
        omega (arith, length-take i stored, kept),
        omega (arith, length-take n (drop i stored), length-drop i stored, kept),
      )

  -- The request in the buffer, as one whose rest is still to be read.
  pub taken-around :
      (s : RecvRequest) (r : RecvLazy)
      → s.recved_bytes ≡ 6
      → s.result ≡ negsuc 0
      → taken s
        ≡ around
            (taken s)
            held
            (take rest_of.span_begin stored)
            (drop (rest_of.span_begin + rest_of.span_len) stored)
            (span_lazy rest_of r)
  taken-around s r got_six fresh =
      let i : ℕ = rest_of.span_begin in
      let n : ℕ = rest_of.span_len in
      refit (taken s) (negsuc 0) 6
        (some (held, take i stored ++ (take n (drop i stored) ++ drop (i + n) stored))) fresh
        got_six (ap (λ (m : List ℕ). some (held, m)) (take-drop_parts i n stored))

  pub span-IsRest :
      (s : RecvRequest) (r : RecvLazy)
      → (some_rest : 2 < cmd) (small : cmd + 4 < 2 ^ 31)
        (room : held.data_begin + (cmd + 4) ≤ length (memory held))
      → IsRest
          (taken s)
          held
          (take rest_of.span_begin stored)
          (drop (rest_of.span_begin + rest_of.span_len) stored)
          (rest_span some_rest small room).1
          (span_lazy rest_of r)
  span-IsRest s r some_rest small room =
      let span : length (take rest_of.span_len (drop rest_of.span_begin stored)) ≡ cmd - 2 =
        (rest_span some_rest small room).2 in
      record {
        some_rest = omega (arith, span);
        within = omega arith;
        size = omega (arith, span);
        small = omega arith;
      }

  -- The loops on the header's rest.
  loops_agree :
      (s : RecvRequest) (r : RecvLazy) (replies : List Received)
      → s.recved_bytes ≡ 6
      → s.result ≡ negsuc 0
      → 2 < cmd
      → cmd + 4 < 2 ^ 31
      → held.data_begin + (cmd + 4) ≤ length (memory held)
      → IsCut (cmd - 2) replies
      → body_loop replies (taken s)
        ≡ widened
            (taken s)
            held
            (take rest_of.span_begin stored)
            (drop (rest_of.span_begin + rest_of.span_len) stored)
            (recv_loop replies (span_lazy rest_of r))
  loops_agree s r replies got_six fresh some_rest small room cut =
      let spans = rest_span some_rest small room in
      let all : cmd - 2 ≡ length (take rest_of.span_len (drop rest_of.span_begin stored)) - 0 =
        omega (arith, spans.2) in
      ap (body_loop replies) (taken-around s r got_six fresh)
      ∙ body_loop-recv_loop (taken s) held (take rest_of.span_begin stored)
          (drop (rest_of.span_begin + rest_of.span_len) stored) spans.1 replies
          (span_lazy rest_of r) (span-IsRest s r some_rest small room) (rw all at cut)

  whole_result :
      2 < cmd
      → cmd + 4 < 2 ^ 31
      → after_rest (pos rest_of.span_len) rest_of ≡ widen (pos rest_of.span_len)
  unfolding after_rest
  whole_result some_rest small =
      let len : rest_of.span_len ≡ suc (cmd - 3) = omega arith in
      rw (len, request_buffer-data_len p at cmd off bit) (ap pos (omega arith))

  -- Given a whole header with an alignment that is not 0 and a length of at least 3 that is below
  -- 2^31 with its 4 bytes, and room in the buffer, recv_request and recv_request2 allocate the same
  -- buffer from the same pool and put the same header into it. On replies that do not cross the end
  -- of the request, recv_request's loop then does on its buffer what the recv_lazy of recv_request2
  -- does on the span that it is given, with 6 more in each count; and for a full span recv_request2
  -- returns what recv_request does.
  pub recv_requests_agree :
      (s : RecvRequest) (tail : List ℕ) (r : RecvLazy) (replies : List Received)
      → s.buf ≡ header ++ tail
      → s.recved_bytes ≡ 6
      → s.result ≡ negsuc 0
      → 0 < bit
      → 2 < cmd
      → cmd + 4 < 2 ^ 31
      → held.data_begin + (cmd + 4) ≤ length (memory held)
      → IsCut (cmd - 2) replies
      → let t = take_header memory at p s in
        (c : Rest) × (after_header memory at p (pos 6) header ≡ inr c)
        × (t.1 ≡ c.pool)
        × (t.0.request ≡ some (c.req, c.memory))
        × (body_loop replies t.0
            ≡ widened t.0 c.req
                (take c.span_begin c.memory)
                (drop (c.span_begin + c.span_len) c.memory)
                (recv_loop replies (span_lazy c r)))
        × (after_rest (pos c.span_len) c ≡ widen (pos c.span_len))
  recv_requests_agree s tail r replies e got_six fresh set some_rest small room cut =
      rw (take_header-taken s tail e) (
        rest_of,
        after_header-rest_of set,
        refl,
        refl,
        loops_agree s r replies got_six fresh some_rest small room cut,
        whole_result some_rest small,
      )
