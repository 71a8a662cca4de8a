-- ===== src/Awaiter/Request/Misread.antt =====
-- recv_request and headers with a length that is too large or too small.
use nsio.Base.{
  ℕ, ◌+◌, ◌^◌, ◌≤◌, ◌<◌, ◌≡◌, refl, ◌⊎◌, inl, inr, false, List, [], ◌∷◌, ◌++◌, some, arith, drop,
}
use nsio.Base.Int.{ℤ, pos, nonpos}
use nsio.ByteBuffer.{ByteBuffer, BufferPool, u32, capacity, set_data_offset, malloc}
use nsio.ByteBuffer.Layout.{malloc_wraps}
use nsio.Awaiter.{Received, got, failed, resume}
use nsio.Awaiter.Request.{
  RecvRequest, header_loop, cmd_len_of, request_buffer, leaves, take_header, body_loop, below,
  on_file_event,
}

module _ (memory : ByteBuffer → List ℕ) (at : ℕ) (p : BufferPool) (s : RecvRequest)
    (h₀ h₁ h₂ h₃ off bit : ℕ) where
  abbrev pub header : List ℕ
  header = h₀ ∷ h₁ ∷ h₂ ∷ h₃ ∷ off ∷ bit ∷ []

  -- The request with its header read.
  abbrev pub headed : RecvRequest
  headed = record s { recved_bytes = 6; buf = header ++ drop 6 s.buf }

  body_skipped :
      (rest : List Received) (s : RecvRequest)
      → below s.recved_bytes s.cmd_len ≡ false
      → body_loop rest s
        ≡ some (record s { result = pos s.recved_bytes }, resume (pos s.recved_bytes) ∷ [], rest)
  unfolding body_loop
  body_skipped [] s e = rw e refl
  body_skipped (got [] ∷ rest) s e = rw e refl
  body_skipped (got (b ∷ bs) ∷ rest) s e = rw e refl
  body_skipped (failed x ∷ rest) s e = rw e refl

  header_passed :
      (rc : ℤ) (rest : List Received) (t : RecvRequest)
      → t.recved_bytes ≡ 6
      → header_loop rc rest t ≡ leaves rc t rest
  unfolding header_loop
  header_passed rc [] t e = rw e refl
  header_passed rc (got [] ∷ rest) t e = rw e refl
  header_passed rc (got (b ∷ bs) ∷ rest) t e = rw e refl
  header_passed rc (failed x ∷ rest) t e = rw e refl

  body_done :
      (2 ^ 31 ≤ u32 (cmd_len_of header + 4)) ⊎ (u32 (cmd_len_of header + 4) ≤ 6)
      → below 6 (take_header memory at p headed).0.cmd_len ≡ false
  unfolding take_header cmd_len_of
  body_done (inl large) = ground (arith, large)
  body_done (inr small) = ground (arith, small)

  -- Take a recv_request that has read nothing, and a readiness event for which one call of recv
  -- brings the whole header. If its length plus 4, in 32 bits, is 2^31 or more, or at most 6, then
  -- the handler reads nothing more, and resumes the coroutine, once, with 6 as the size of the
  -- request; its other fields and the pool are as after the header.
  pub misread_ends :
      (event : ℤ) (rest : List Received)
      → nonpos event ≡ false
      → s.recved_bytes ≡ 0
      → (2 ^ 31 ≤ u32 (cmd_len_of header + 4)) ⊎ (u32 (cmd_len_of header + 4) ≤ 6)
      → on_file_event memory at event (got header ∷ rest) s p
        ≡ some (
          record (take_header memory at p headed).0 { result = pos 6 },
          resume (pos 6) ∷ [],
          rest,
          (take_header memory at p headed).1,
        )
  unfolding on_file_event
  misread_ends event rest ready first odd =
      let read = header_passed (pos 6) rest headed refl in
      let skipped = body_skipped rest (take_header memory at p headed).0 (body_done odd) in
      rw (ready, first, on_file_event, read, skipped) refl

-- Take a recv_request that has read nothing, a pool whose cache is empty, and a readiness event for
-- which one call of recv brings the whole header, with an alignment offset of 0. If its length plus
-- 4, in 32 bits, is nearer to 2^32 than 2^6, then the handler resumes the coroutine with 6, and has
-- put the six bytes of the header into the memory of a buffer whose capacity is 0.
pub header_overflows :
    (memory : ByteBuffer → List ℕ) (at : ℕ) (p : BufferPool) (s : RecvRequest) (h₀ h₁ h₂ h₃ bit : ℕ)
    (event : ℤ) (rest : List Received)
    → nonpos event ≡ false
    → s.recved_bytes ≡ 0
    → p.cache ≡ []
    → 2 ^ 32 < u32 (cmd_len_of (h₀ ∷ h₁ ∷ h₂ ∷ h₃ ∷ 0 ∷ bit ∷ []) + 4) + 2 ^ 6
    → (t : RecvRequest) × (p' : BufferPool) × (b : ByteBuffer) × (on_file_event memory at event
          (got (h₀ ∷ h₁ ∷ h₂ ∷ h₃ ∷ 0 ∷ bit ∷ []) ∷ rest)
          s
          p
        ≡ some (t, resume (pos 6) ∷ [], rest, p'))
      × (t.request ≡ some (b, (h₀ ∷ h₁ ∷ h₂ ∷ h₃ ∷ 0 ∷ bit ∷ []) ++ drop 6 (memory b)))
      × (capacity b ≡ 0)
unfolding take_header request_buffer set_data_offset capacity cmd_len_of
header_overflows memory at p s h₀ h₁ h₂ h₃ bit event rest ready first empty wraps =
    let n = u32 (cmd_len_of (h₀ ∷ h₁ ∷ h₂ ∷ h₃ ∷ 0 ∷ bit ∷ []) + 4) in
    (
      _,
      _,
      set_data_offset 0 n (malloc p n 6 0 at).0,
      misread_ends memory at p s h₀ h₁ h₂ h₃ 0 bit event rest ready first
          (inl (omega (arith, wraps))),
      refl,
      malloc_wraps p n 6 at empty (omega arith) (omega arith) wraps,
    )
