-- ===== src/Examples/Buffers.antt =====
-- A pool that caches from 1000 bytes on, and requests of a body of 100 bytes after a header of 6.
use nsio.Base.{◌+◌, ◌*◌, ◌^◌, ◌≡◌, refl, true, [], arith}
use nsio.ByteBuffer.{
  ByteBufferData, BufferPool, new_buffer, key, header_size, body_size, round_up, malloc, release,
  body_off, find,
}
use nsio.ByteBuffer.Key.{IsBlock, key-injective, key-forgets}
use nsio.ByteBuffer.Pool.{IsValid, IsRequest, Served, total, header_fits, malloc-Served}
use nsio.Awaiter.Request.{request_buffer}
use nsio.Awaiter.Request.Layout.{IsPlaced, request_buffer-IsPlaced}
use nsio.ByteBuffer.Layout.{IsLaidOut, malloc-IsLaidOut, malloc_header_lost, malloc-release}

abbrev pool : BufferPool
pool = record { limit_cache_bytes = 1000; cache_bytes = 0; cache = []; freed = [] }

pool-IsValid : IsValid pool
unfolding total
pool-IsValid = record { entries = tt; counted = refl }

request : IsRequest 100 9 6
request = record { shift = omega arith; room = omega arith; short = omega arith }

abbrev block : ByteBufferData
block = record { m_data = 4096; m_len = 1536; m_align_bit = 9 }

block-IsBlock : IsBlock block
block-IsBlock = record { shift = omega arith; units = refl; short = omega arith; placed = refl }

abbrev other : ByteBufferData
other = record { m_data = 8192; m_len = 1536; m_align_bit = 9 }

other-IsBlock : IsBlock other
other-IsBlock = record { shift = omega arith; units = refl; short = omega arith; placed = refl }

abbrev longer : ByteBufferData
longer = record { m_data = 0; m_len = 1536 + 2 ^ 24 * 2 ^ 3; m_align_bit = 3 }

abbrev shorter : ByteBufferData
shorter = record { m_data = 4096; m_len = 1536; m_align_bit = 3 }

same_key : key block ≡ key other
unfolding key
same_key = refl

block_size : 1536 ≡ header_size 6 9 + body_size 100 9
unfolding header_size body_size round_up
block_size = refl

malloc-Served_example : Served pool 100 9 6 (malloc pool 100 9 6 4096)
malloc-Served_example = malloc-Served pool 100 9 6 4096 pool-IsValid request refl

malloc-IsLaidOut_example : IsLaidOut 100 9 6 (malloc pool 100 9 6 4096).0
malloc-IsLaidOut_example =
    malloc-IsLaidOut pool 100 9 6 4096 pool-IsValid request refl
      (omega (arith, (header_fits 100 9 6 request).tight))

malloc-release_example :
    malloc (release pool block) 100 9 6 0 ≡ (new_buffer true (header_size 6 9) block, pool)
unfolding find
malloc-release_example =
    malloc-release pool block 100 9 6 0 request refl block_size refl (omega arith) (omega arith)

malloc_header_lost_example : body_off (malloc pool 100 16 6 65536).0 ≡ 0
malloc_header_lost_example =
    malloc_header_lost pool 100 16 6 65536 (omega arith) (omega arith) (omega arith)

key-injective_example : (block.m_len ≡ other.m_len) × (block.m_align_bit ≡ other.m_align_bit)
key-injective_example = key-injective block other block-IsBlock other-IsBlock same_key

key-forgets_example : key longer ≡ key shorter
key-forgets_example = key-forgets longer shorter (omega arith) refl refl

-- A request of 102 bytes after its length field, of which those from the sixth on are aligned.
request_buffer-IsPlaced_example : IsPlaced (102 + 4) 6 9 (request_buffer pool 4096 102 6 9).0
request_buffer-IsPlaced_example =
    request_buffer-IsPlaced pool 4096 102 6 9 pool-IsValid (omega arith) (omega arith) request refl
      (omega (arith, (header_fits 100 9 6 request).tight))
