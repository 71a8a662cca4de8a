-- ===== src/Examples/Requests.antt =====
-- A request of five bytes after its header, and headers with a length that is too large.
use nsio.Base.{
  ℕ, zero, suc, ◌+◌, ◌≡◌, refl, inl, inr, List, [], ◌∷◌, ◌++◌, none, some, arith, leb→le, take,
  drop,
}
use nsio.Base.Int.{pos, negsuc}
use nsio.ByteBuffer.{
  ByteBuffer, BufferPool, new_inst, malloc, set_data_offset, find, header_size, body_size, round_up,
  capacity, new_buffer, body_off,
}
use nsio.Awaiter.{Received, got, failed, resume}
use nsio.Awaiter.Request.{
  RecvRequest, request_buffer, cmd_len_of, take_header, body_loop, on_file_event,
}
use nsio.Awaiter.Request.Misread.{headed, misread_ends, header_overflows}
use nsio.Awaiter.Recv.{RecvLazy, recv_loop}
use nsio.Awaiter.Request.Body.{widen, widened}
use nsio.Awaiter.Request.Coroutine.{Rest, after_header, after_rest}
use nsio.Awaiter.Request.Agree.{recv_requests_agree, span_lazy}
use nsio.Awaiter.Request.Deliver.{serve}
use nsio.Awaiter.Request.Delivered.{request_delivered}

abbrev empty_pool : BufferPool
empty_pool = new_inst 4096

abbrev zeros : ℕ → List ℕ
zeros zero = []
zeros (suc n) = 0 ∷ zeros n

-- What malloc returns holds zeros.
abbrev fresh_memory : ByteBuffer → List ℕ
fresh_memory b = zeros 600

abbrev payload : List ℕ
payload = 1 ∷ 2 ∷ 3 ∷ 4 ∷ 5 ∷ []

abbrev fresh_request : RecvRequest
fresh_request = record {
  result = negsuc 0;
  timer_id = negsuc 0;
  is_timeout = 0;
  recved_bytes = 0;
  cmd_len = 0;
  sockfd = 5;
  flags = 0;
  request = none;
  buf = 0 ∷ 0 ∷ 0 ∷ 0 ∷ 0 ∷ 0 ∷ [];
}

-- The request comes in pieces, with waits and an interrupted call between them.
abbrev pieces : List Received
pieces =
    got (0 ∷ 0 ∷ [])
    ∷ failed 11
    ∷ got (0 ∷ 7 ∷ 0 ∷ [])
    ∷ failed 4
    ∷ got (6 ∷ [])
    ∷ got (1 ∷ 2 ∷ [])
    ∷ failed 11
    ∷ got (3 ∷ 4 ∷ 5 ∷ [])
    ∷ []

abbrev block : ByteBuffer
block = (request_buffer empty_pool 4096 7 0 6).0

request_delivered_example :
    (s' : RecvRequest) × (m : List ℕ) × (serve fresh_memory 4096 9 pieces fresh_request empty_pool
      ≡ some (s', resume (pos 11) ∷ [], (request_buffer empty_pool 4096 7 0 6).1))
    × (s'.request ≡ some (block, m))
    × (take 11 (drop block.data_begin m) ≡ 0 ∷ 0 ∷ 0 ∷ 7 ∷ 0 ∷ 6 ∷ payload)
unfolding cmd_len_of request_buffer new_inst malloc set_data_offset find header_size body_size
    round_up new_buffer body_off
request_delivered_example =
    request_delivered fresh_memory 4096 empty_pool 0 0 0 7 0 6 9 payload pieces fresh_request refl
      refl refl (inl refl, (inr refl, (inl refl, tt)))
      (omega arith, (omega arith, (omega arith, tt))) (omega arith) refl (omega arith) (omega arith)
      (leb→le _ _ refl)

abbrev lazy : RecvLazy
lazy = record {
  result = negsuc 0;
  timer_id = negsuc 0;
  is_timeout = 0;
  recved_bytes = 0;
  sockfd = 5;
  flags = 0;
  buff = [];
}

abbrev with_header : RecvRequest
with_header = record fresh_request { recved_bytes = 6; buf = 0 ∷ 0 ∷ 0 ∷ 7 ∷ 0 ∷ 6 ∷ [] }

abbrev some_replies : List Received
some_replies = got (1 ∷ 2 ∷ []) ∷ failed 11 ∷ []

recv_requests_agree_example :
    let t = take_header fresh_memory 4096 empty_pool with_header in
    (c : Rest) × (after_header fresh_memory 4096 empty_pool (pos 6) (0 ∷ 0 ∷ 0 ∷ 7 ∷ 0 ∷ 6 ∷ [])
      ≡ inr c)
    × (t.1 ≡ c.pool)
    × (t.0.request ≡ some (c.req, c.memory))
    × (body_loop some_replies t.0
        ≡ widened t.0 c.req
            (take c.span_begin c.memory)
            (drop (c.span_begin + c.span_len) c.memory)
            (recv_loop some_replies (span_lazy c lazy)))
    × (after_rest (pos c.span_len) c ≡ widen (pos c.span_len))
unfolding cmd_len_of request_buffer new_inst malloc set_data_offset find header_size body_size
    round_up new_buffer body_off
recv_requests_agree_example =
    recv_requests_agree fresh_memory 4096 empty_pool 0 0 0 7 0 6 with_header [] lazy some_replies
      refl refl refl (omega arith) (omega arith) (omega arith) (leb→le _ _ refl) (omega arith, tt)

-- The length 2^31, for which malloc gives a block; nothing more is read.
misread_ends_example :
    on_file_event fresh_memory 4096
      (pos 1)
      (got (128 ∷ 0 ∷ 0 ∷ 0 ∷ 0 ∷ 6 ∷ []) ∷ failed 11 ∷ [])
      fresh_request
      empty_pool
    ≡ some (
      record (take_header fresh_memory 4096 empty_pool
          (headed fresh_memory 4096 empty_pool fresh_request 128 0 0 0 0 6)).0 { result = pos 6 },
      resume (pos 6) ∷ [],
      failed 11 ∷ [],
      (take_header fresh_memory 4096 empty_pool
          (headed fresh_memory 4096 empty_pool fresh_request 128 0 0 0 0 6)).1,
    )
unfolding cmd_len_of
misread_ends_example =
    misread_ends fresh_memory 4096 empty_pool fresh_request 128 0 0 0 0 6 (pos 1) (failed 11 ∷ [])
      refl refl (inl (omega arith))

header_overflows_example :
    (t : RecvRequest) × (p' : BufferPool) × (b : ByteBuffer) × (on_file_event fresh_memory 4096
        (pos 1)
        (got (255 ∷ 255 ∷ 255 ∷ 250 ∷ 0 ∷ 6 ∷ []) ∷ [])
        fresh_request
        empty_pool
      ≡ some (t, resume (pos 6) ∷ [], [], p'))
    × (t.request ≡ some (b, (255 ∷ 255 ∷ 255 ∷ 250 ∷ 0 ∷ 6 ∷ []) ++ drop 6 (fresh_memory b)))
    × (capacity b ≡ 0)
unfolding new_inst cmd_len_of
header_overflows_example =
    header_overflows fresh_memory 4096 empty_pool fresh_request 255 255 255 250 6 (pos 1) [] refl
      refl refl (omega arith)
