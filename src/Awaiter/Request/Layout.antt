-- ===== src/Awaiter/Request/Layout.antt =====
-- Where recv_request puts a request in its buffer.
use nsio.Base.{ℕ, ◌+◌, ◌-◌, ◌%◌, ◌^◌, ◌≤◌, ◌<◌, ◌≡◌, arith, ◌==◌, false}
use nsio.ByteBuffer.{
  ByteBuffer, BufferPool, u16, u32, malloc, set_data_offset, body_off, body, capacity, header_size,
  data_of,
}
use nsio.ByteBuffer.Pool.{IsValid, IsRequest, malloc-Served}
use nsio.ByteBuffer.Layout.{IsLaidOut, malloc-IsLaidOut}
use nsio.Awaiter.Request.{request_buffer}

-- The request lies within the block, and its byte `align_off` is the aligned body.
pub record IsPlaced (n align_off k : ℕ) (b : ByteBuffer) : Type 0 where
  pub whole : b.data_len ≡ n
  pub within : b.data_begin + n ≤ capacity b
  pub payload : b.data_begin + align_off ≡ body_off b
  pub aligned : (data_of b + align_off) % 2 ^ k ≡ 0

module _ (p : BufferPool) (at cmd align_off k : ℕ) where
  offset_narrow :
      IsValid p
      → IsRequest (cmd + 4 - align_off) k align_off
      → at % 2 ^ k ≡ 0
      → body_off (malloc p (cmd + 4 - align_off) k align_off at).0 < 2 ^ 16
  unfolding body_off
  offset_narrow v q free =
      omega (arith, (malloc-Served p (cmd + 4 - align_off) k align_off at v q free).offset)

  placed :
      (b : ByteBuffer)
      → IsLaidOut (cmd + 4 - align_off) k align_off b
      → align_off ≤ cmd + 4
      → body_off b < 2 ^ 16
      → cmd + 4 < 2 ^ 32
      → IsPlaced
          (cmd + 4)
          align_off
          k
          (set_data_offset (u32 (body_off b + 2 ^ 32 - align_off)) (u32 (cmd + 4)) b)
  unfolding set_data_offset body_off capacity data_of body
  placed b l enough narrow small =
      let begin : u16 (u32 (b.header_len + 2 ^ 32 - align_off)) ≡ b.header_len - align_off =
        omega (arith, l.header_room) in
      let start : b.m_d.m_data + (b.header_len - align_off) + align_off
          ≡ b.m_d.m_data + b.header_len =
        omega (arith, l.header_room) in
      rw begin (record {
        whole = omega arith;
        within = omega (arith, l.body_room, l.header_room);
        payload = omega (arith, l.header_room);
        aligned = rw start (l.body_aligned);
      })

  -- For a valid pool, a header with an alignment offset of at least 1 and at most the request's
  -- size, a fitting request for malloc, an aligned address, and a rounded offset below 2^16, the
  -- whole request lies within its block, and its byte at the offset stands at the body, aligned.
  pub request_buffer-IsPlaced :
      IsValid p
      → 0 < align_off
      → align_off ≤ cmd + 4
      → IsRequest (cmd + 4 - align_off) k align_off
      → at % 2 ^ k ≡ 0
      → header_size align_off k < 2 ^ 16
      → IsPlaced (cmd + 4) align_off k (request_buffer p at cmd align_off k).0
  unfolding request_buffer
  request_buffer-IsPlaced v some_off enough q free narrow =
      let off : (align_off == 0) ≡ false = ground arith in
      let size : u32 (cmd + 4 + 2 ^ 32 - align_off) ≡ cmd + 4 - align_off = omega (arith, q.room) in
      let l = malloc-IsLaidOut p (cmd + 4 - align_off) k align_off at v q free narrow in
      rw (off, size)
        (placed (malloc p (cmd + 4 - align_off) k align_off at).0 l enough (offset_narrow v q free)
          (omega (arith, q.room)))
