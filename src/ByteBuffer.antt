-- ===== src/ByteBuffer.antt =====
-- coio/byte_buffer.h and coio/byte_buffer.cpp: buffers with an aligned body, and the pool that
-- lends them. Lengths are uint32_t, byte counts size_t, the two offsets of a buffer uint16_t.
-- C++ leaves a shift by 32 or more undefined; here it is a division by that power of two.
-- Rounding: the arithmetic of malloc; Key: the cache's key; Pool: malloc and release;
-- Layout: offsets inside a buffer; Ownership: who owns a block; Contract: what users rely on.
pub mod Rounding
pub mod Key
pub mod Pool
pub mod Layout
pub mod Ownership
pub mod Contract
use nsio.Base.{
  ℕ, suc, ◌+◌, ◌-◌, ◌*◌, ◌/◌, ◌%◌, ◌^◌, ◌≡◌, Bool, true, false, List, [], ◌∷◌, ◌++◌, map, Option,
  none, some, ltb, ◌==◌, if◌then◌else◌, bit_and, bit_or,
}

abbrev pub u16 : ℕ → ℕ
u16 x = x % 2 ^ 16

abbrev pub u32 : ℕ → ℕ
u32 x = x % 2 ^ 32

abbrev pub u64 : ℕ → ℕ
u64 x = x % 2 ^ 64

-- struct byte_buffer_data; m_data is the address that aligned_alloc gave. m_len and m_align_bit are
-- uint32_t: what makes a block narrows them, and a record made by hand may not fit.
pub record ByteBufferData : Type 0 where
  pub m_data : ℕ
  pub m_len : ℕ
  pub m_align_bit : ℕ

-- byte_buffer_data::key
unfoldable pub key : ByteBufferData → ℕ
key d = bit_or (u32 (d.m_len / 2 ^ d.m_align_bit * 2 ^ 8)) d.m_align_bit

-- struct byte_buffer_impl; m_pool says whether the pointer is set.
pub record ByteBuffer : Type 0 where
  pub m_d : ByteBufferData
  pub m_pool : Bool
  pub header_len : ℕ
  pub data_begin : ℕ
  pub data_len : ℕ

-- The constructor of byte_buffer_impl, with _header_len narrowed to 16 bits.
unfoldable pub new_buffer : Bool → ℕ → ByteBufferData → ByteBuffer
new_buffer pool header_len d = record {
  m_d = d;
  m_pool = pool;
  header_len = u16 header_len;
  data_begin = 0;
  data_len = 0;
}

unfoldable pub base : ByteBuffer → ℕ
base b = b.m_d.m_data

unfoldable pub body : ByteBuffer → ℕ
body b = b.m_d.m_data + b.header_len

unfoldable pub data_of : ByteBuffer → ℕ
data_of b = b.m_d.m_data + b.data_begin

unfoldable pub set_data_offset : ℕ → ℕ → ByteBuffer → ByteBuffer
set_data_offset at n b = record b { data_begin = u16 at; data_len = n }

unfoldable pub set_data_begin : ℕ → ByteBuffer → ByteBuffer
set_data_begin at b = record b { data_begin = u16 at }

unfoldable pub set_data_len : ℕ → ByteBuffer → ByteBuffer
set_data_len n b = record b { data_len = n }

unfoldable pub align : ByteBuffer → ℕ
align b = u32 (2 ^ b.m_d.m_align_bit)

unfoldable pub capacity : ByteBuffer → ℕ
capacity b = b.m_d.m_len

unfoldable pub body_off : ByteBuffer → ℕ
body_off b = b.header_len

-- struct buffer_pool. The multimap is a list of its entries; the order of them stands for
-- the choice that `find` makes among equal keys. `freed` lists the calls of free.
pub record BufferPool : Type 0 where
  pub limit_cache_bytes : ℕ
  pub cache_bytes : ℕ
  pub cache : List (ℕ × ByteBufferData)
  pub freed : List ℕ

-- byte_buffer_pool::new_inst: the constructor takes the limit as uint32_t.
unfoldable pub new_inst : ℕ → BufferPool
new_inst limit = record { limit_cache_bytes = u32 limit; cache_bytes = 0; cache = []; freed = [] }

-- buffer_pool::~buffer_pool frees every block of the cache; the calls of free, in some order.
unfoldable pub end_pool : BufferPool → List ℕ
end_pool p = map (λ (e : ℕ × ByteBufferData). e.1.m_data) p.cache ++ p.freed

unfoldable pub get_cached_bytes : BufferPool → ℕ
get_cached_bytes p = p.cache_bytes

-- _cache.find and _cache.erase(it)
unfoldable pub find : ℕ → List (ℕ × ByteBufferData) → Option ByteBufferData
find k [] = none
find k ((j, d) ∷ m) = if j == k then some d else find k m

unfoldable pub erase : ℕ → List (ℕ × ByteBufferData) → List (ℕ × ByteBufferData)
erase k [] = []
erase k ((j, d) ∷ m) = if j == k then m else (j, d) ∷ erase k m

-- (x + align - 1) & ~(align - 1) for align = 1 << k, in uint32_t
unfoldable pub round_up : ℕ → ℕ → ℕ
round_up x k = bit_and (u32 (x + 2 ^ k - 1)) (2 ^ 32 - 1 - (2 ^ k - 1))

-- The two lengths of malloc after rounding.
unfoldable pub header_size : ℕ → ℕ → ℕ
unfolding round_up
header_size header_len align_bit = round_up header_len align_bit

unfoldable pub body_size : ℕ → ℕ → ℕ
unfolding round_up
body_size body_len align_bit = round_up (round_up body_len align_bit) 10

-- The key that malloc looks for.
unfoldable pub lookup_key : ℕ → ℕ → ℕ
lookup_key total align_bit = bit_or (u32 (total / 2 ^ align_bit * 2 ^ 8)) (bit_and align_bit 0xff)

-- buffer_pool::malloc; `at` is what aligned_alloc returns where it is called.
unfoldable pub malloc : BufferPool → ℕ → ℕ → ℕ → ℕ → ByteBuffer × BufferPool
unfolding header_size body_size lookup_key new_buffer
malloc p body_len align_bit header_len at =
    let header = header_size header_len align_bit in
    let total = u32 (header + body_size body_len align_bit) in
    let k = lookup_key total align_bit in
    elim (find k p.cache) [
      | some d ↦ (
        new_buffer true header d,
        record p { cache_bytes = u64 (p.cache_bytes + 2 ^ 64 - d.m_len); cache = erase k p.cache },
      )
      | none ↦ (
        new_buffer true header (record { m_data = at; m_len = total; m_align_bit = align_bit }),
        p,
      )
    ]

-- buffer_pool::release. The entry is put before the others: unordered_multimap does not say which of
-- several entries with one key find gives, and the model takes the latest.
unfoldable pub release : BufferPool → ByteBufferData → BufferPool
release p d =
    if ltb (u64 (p.cache_bytes + d.m_len)) p.limit_cache_bytes
    then record p { freed = d.m_data ∷ p.freed }
    else record p { cache_bytes = u64 (p.cache_bytes + d.m_len); cache = (key d, d) ∷ p.cache }

-- byte_buffer_impl::~byte_buffer_impl
unfoldable pub destroy : BufferPool → ByteBuffer → BufferPool
unfolding release
destroy p b = if b.m_pool then release p b.m_d else p
