-- ===== src/Awaiter/Request/Delivered.antt =====
-- recv_request from its first event to the whole request, header and rest.
use mathlib.Core.List.{append_assoc}
use nsio.Base.{
  ℕ, zero, suc, ◌+◌, ◌^◌, ◌≤◌, ◌<◌, ◌≡◌, refl, sym, ap, ◌∙◌, inl, inr, true, false, List, [], ◌∷◌,
  ◌++◌, some, ltb, ◌==◌, not, arith, length, take, drop, length-append, length-take,
  take-length-append, drop-length-append,
}
use nsio.Base.Int.{pos, negsuc}
use nsio.ByteBuffer.{ByteBuffer, BufferPool}
use nsio.Awaiter.{Received, arm_read, set_errno, resume}
use nsio.Awaiter.Store.{take_past}
use nsio.Awaiter.Recv.{RecvLazy}
use nsio.Awaiter.Recv.Assembly.{received, Benign}
use nsio.Awaiter.Request.{RecvRequest, header_loop, body_loop, with_pool, on_file_event}
use nsio.Awaiter.Request.Body.{IsCut, around}
use nsio.Awaiter.Request.Header.{IsAt, HasHeader, header_loop_goes}
use nsio.Awaiter.Request.Agree.{
  header, cmd, held, stored, rest_of, taken, take_header-taken, rest_span, taken-around,
  span-IsRest, span_lazy,
}
use nsio.Awaiter.Request.Deliver.{serve, Served, body-Served}

-- A header in its place, and after it the rest.
placed :
    (front head more payload post : List ℕ) (i : ℕ)
    → i ≡ length front
    → take
        (length head + length payload)
        (drop i (take (i + length head) (front ++ (head ++ more)) ++ (payload ++ post)))
      ≡ head ++ payload
placed front head more payload post i e =
    let sum : length head + length payload ≡ length (head ++ payload) =
      sym (length-append head payload) in
    rw
      (
        e,
        take_past front (head ++ more) (length head),
        take-length-append head more,
        append_assoc front head (payload ++ post),
        drop-length-append front (head ++ (payload ++ post)),
        ← append_assoc head payload post,
        sum,
        take-length-append (head ++ payload) post,
      )
      refl

-- What has arrived is the first part of the message.
first_part :
    (front more head rest : List ℕ)
    → length front ≡ length head
    → front ++ more ≡ head ++ rest
    → front ≡ head
first_part front more head rest same e =
    sym (take-length-append front more)
    ∙ ap (λ (n : ℕ). take n (front ++ more)) same
    ∙ ap (take (length head)) e
    ∙ take-length-append head rest

last_part :
    (front more head rest : List ℕ)
    → length front ≡ length head
    → front ++ more ≡ head ++ rest
    → more ≡ rest
last_part front more head rest same e =
    sym (drop-length-append front more)
    ∙ ap (λ (n : ℕ). drop n (front ++ more)) same
    ∙ ap (drop (length head)) e
    ∙ drop-length-append head rest

-- The recv_lazy that the loop for the rest of the request behaves as.
abbrev lazy_of : RecvRequest → RecvLazy
lazy_of s = record {
  result = negsuc 0;
  timer_id = s.timer_id;
  is_timeout = s.is_timeout;
  recved_bytes = 0;
  sockfd = s.sockfd;
  flags = s.flags;
  buff = [];
}

module _ (memory : ByteBuffer → List ℕ) (at : ℕ) (p : BufferPool) (h₀ h₁ h₂ h₃ off bit : ℕ) where
  abbrev head : List ℕ
  head = header memory at p h₀ h₁ h₂ h₃ off bit

  abbrev size : ℕ
  size = cmd memory at p h₀ h₁ h₂ h₃ off bit

  abbrev block : ByteBuffer
  block = held memory at p h₀ h₁ h₂ h₃ off bit

  abbrev first : List ℕ
  first = stored memory at p h₀ h₁ h₂ h₃ off bit

  abbrev begins : ℕ
  begins = (rest_of memory at p h₀ h₁ h₂ h₃ off bit).span_begin

  abbrev len : ℕ
  len = (rest_of memory at p h₀ h₁ h₂ h₃ off bit).span_len

  abbrev pool_left : BufferPool
  pool_left = (rest_of memory at p h₀ h₁ h₂ h₃ off bit).pool

  abbrev filled_memory : List ℕ → List ℕ
  filled_memory payload = take begins first ++ (payload ++ drop (begins + len) first)

  -- From the event that completes the header.
  from_header :
      (n : ℕ) (payload : List ℕ) (replies : List Received) (s : RecvRequest)
      → size ≡ 2 + length payload
      → 0 < length payload
      → size + 4 < 2 ^ 31
      → block.data_begin + (size + 4) ≤ length (memory block)
      → ltb s.recved_bytes 6 ≡ true
      → s.result ≡ negsuc 0
      → HasHeader (head ++ payload) (length replies) s.result (header_loop (pos 0) replies s)
      → length replies < suc n
      → Served memory at
          (suc n)
          replies
          s
          p
          block
          (filled_memory payload)
          (6 + length payload)
          pool_left
  unfolding on_file_event
  from_header n payload replies s sized some_rest small room short fresh h fuel =
      let head_here : h.front ≡ head =
        first_part h.front (received h.rest) head payload h.six h.is_at.whole in
      let payload_left : received h.rest ≡ payload =
        last_part h.front (received h.rest) head payload h.six h.is_at.whole in
      let got_six : h.now.recved_bytes ≡ 6 = h.is_at.count ∙ h.six in
      let counted : not (h.now.recved_bytes == 6) ≡ false = ground (arith, got_six) in
      let split : h.now.buf ≡ head ++ h.room =
        h.is_at.split ∙ ap (λ (t : List ℕ). t ++ h.room) head_here in
      let c = rest_of memory at p h₀ h₁ h₂ h₃ off bit in
      let more : 2 < size = omega arith in
      let spans = rest_span memory at p h₀ h₁ h₂ h₃ off bit more small room in
      let s' : RecvRequest = taken memory at p h₀ h₁ h₂ h₃ off bit h.now in
      let r : RecvLazy = span_lazy c (lazy_of s) in
      let pre : List ℕ = take begins first in
      let post : List ℕ = drop (begins + len) first in
      let starts : on_file_event memory at (pos 1) replies s p
          ≡ with_pool pool_left (body_loop h.rest (around s' block pre post r)) =
        rw (short, h.ends, h.got_some, counted)
          (ap (λ (t : RecvRequest × BufferPool). with_pool t.1 (body_loop h.rest t.0))
              (take_header-taken memory at p h₀ h₁ h₂ h₃ off bit h.now h.room split)
            ∙ ap (λ (t : RecvRequest). with_pool pool_left (body_loop h.rest t))
                (taken-around memory at p h₀ h₁ h₂ h₃ off bit h.now (lazy_of s) got_six
                  (h.kept ∙ fresh))) in
      body-Served memory at pool_left s' block pre post spans.1 (suc n) payload replies s p h.rest
        [] r.buff r starts
        (span-IsRest memory at p h₀ h₁ h₂ h₃ off bit h.now (lazy_of s) more small room)
        (record { split = refl; count = refl }) payload_left
        (omega (arith, ap length payload_left, spans.2)) h.is_at.benign
        (omega (arith, h.fewer, fuel))

  header-Served :
      (n : ℕ) (payload : List ℕ) (replies : List Received) (front room : List ℕ) (s : RecvRequest)
      → size ≡ 2 + length payload
      → 0 < length payload
      → size + 4 < 2 ^ 31
      → block.data_begin + (size + 4) ≤ length (memory block)
      → IsAt (head ++ payload) front room s replies
      → length front < 6
      → s.result ≡ negsuc 0
      → length replies < n
      → Served memory at n replies s p block (filled_memory payload) (6 + length payload) pool_left
  unfolding serve on_file_event
  header-Served zero payload replies front room s sized some_rest small fits a short fresh h =
      absurd (omega arith)
  header-Served (suc n) payload replies front room s sized some_rest small fits a short fresh h =
      let under : ltb s.recved_bytes 6 ≡ true = ground (arith, a.count, short) in
      let goes =
        header_loop_goes (head ++ payload) replies (pos 0) front room s (omega arith)
          (omega (arith, short)) (λ six. absurd (omega arith)) a in
      elim goes [
        | inl done ↦ from_header n payload replies s sized some_rest small fits under fresh done h
        | inr w ↦
            let ran : on_file_event memory at (pos 1) replies s p
                ≡ some (w.now, arm_read ∷ set_errno 0 ∷ [], w.rest, p) =
              rw (under, w.ends) refl in
            rw (ran, serve)
              (header-Served n payload w.rest w.front w.room w.now sized some_rest small fits
                w.is_at w.short (w.kept ∙ fresh) (omega (arith, w.fewer)))
      ]

  -- Take a recv_request that has received nothing, and replies that are EAGAIN, EINTR and reads
  -- that together bring a header and then a payload, of at least one byte and as long as the header
  -- says, where no read crosses the end of the header. If the length of the request is below 2^31
  -- and its buffer has room for it, then with more readiness events than replies the coroutine is
  -- resumed with that length, and the buffer of the request holds the header and the payload.
  pub request_delivered :
      (n : ℕ) (payload : List ℕ) (replies : List Received) (s : RecvRequest)
      → s.recved_bytes ≡ 0
      → s.result ≡ negsuc 0
      → received replies ≡ head ++ payload
      → Benign replies
      → IsCut 6 replies
      → length replies < n
      → size ≡ 2 + length payload
      → 0 < length payload
      → size + 4 < 2 ^ 31
      → block.data_begin + (size + 4) ≤ length (memory block)
      → (s' : RecvRequest) × (m : List ℕ) × (serve memory at n replies s p
          ≡ some (s', resume (pos (size + 4)) ∷ [], pool_left))
        × (s'.request ≡ some (block, m))
        × (take (size + 4) (drop block.data_begin m) ≡ head ++ payload)
  request_delivered n payload replies s none_yet fresh all ok cut fuel sized some_rest small fits =
      let whole : size + 4 ≡ 6 + length payload = omega arith in
      let front : List ℕ = take block.data_begin (memory block) in
      let at_front : block.data_begin ≡ length front =
        omega (arith, length-take block.data_begin (memory block), fits) in
      let (s', served, held_in) =
        header-Served n payload replies [] s.buf s sized some_rest small fits
          (record { split = refl; count = none_yet; whole = all; benign = ok; cut = cut })
          (omega arith) fresh fuel in
      let here : take (6 + length payload) (drop block.data_begin (filled_memory payload))
          ≡ head ++ payload =
        placed front head (drop (block.data_begin + 6) (memory block)) payload
          (drop (begins + len) first) block.data_begin at_front in
      (s', filled_memory payload, rw whole served, held_in, rw whole here)
