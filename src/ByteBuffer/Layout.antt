-- ===== src/ByteBuffer/Layout.antt =====
-- What a caller of malloc finds in the buffer: offsets, sizes, and where they go wrong.
use native.Mathlib.Nat.{pow-le-pow_right}
use nsio.Base.{
  ℕ, ◌+◌, ◌-◌, ◌%◌, ◌^◌, ◌≤◌, ◌<◌, ◌≡◌, refl, inl, inr, [], ◌∷◌, none, some, arith, Option-cases,
  ◌==◌, ==_iff, true,
}
use nsio.Base.Bits.{mod_of_power}
use nsio.ByteBuffer.{
  ByteBufferData, ByteBuffer, BufferPool, key, lookup_key, header_size, body_size, malloc, release,
  find, erase, u16, u32, u64, capacity, body, base, body_off, new_buffer,
}
use nsio.ByteBuffer.Rounding.{header_size-IsRoundedUp, body_size_wraps}
use nsio.ByteBuffer.Key.{lookup_key-key}
use nsio.ByteBuffer.Pool.{
  IsValid, IsRequest, malloc-Served, header_fits, body_fits, sizes_sum, sum_of_multiples,
}

-- The promise of byte_buffer_pool::malloc in byte_buffer.h.
pub record IsLaidOut (body_len k header_len : ℕ) (b : ByteBuffer) : Type 0 where
  pub header_room : header_len ≤ body_off b
  pub body_room : body_off b + body_len ≤ capacity b
  pub base_aligned : base b % 2 ^ k ≡ 0
  pub body_aligned : body b % 2 ^ k ≡ 0

-- Under the same conditions, and where the rounded header is below 2^16, the buffer of malloc has
-- room for the header before the body and for the body within the capacity, and its base and its
-- body are aligned.
pub malloc-IsLaidOut :
    (p : BufferPool) (body_len k header_len at : ℕ)
    → IsValid p
    → IsRequest body_len k header_len
    → at % 2 ^ k ≡ 0
    → header_size header_len k < 2 ^ 16
    → IsLaidOut body_len k header_len (malloc p body_len k header_len at).0
unfolding body body_off base capacity
malloc-IsLaidOut p body_len k header_len at v q placed narrow =
    let s = malloc-Served p body_len k header_len at v q placed in
    let h = header_fits body_len k header_len q in
    let b = body_fits body_len k header_len q in
    let off : (malloc p body_len k header_len at).0.header_len ≡ header_size header_len k =
      omega (arith, s.offset) in
    let start : (malloc p body_len k header_len at).0.m_d.m_data % 2 ^ k ≡ 0 =
      rw s.unit at (s.block.placed) in
    record {
      header_room = omega (arith, off, h.covers);
      body_room = omega (arith, off, b.covers, s.size);
      base_aligned = start;
      body_aligned = sum_of_multiples _ _ _ start (rw off h.multiple);
    }

-- With an alignment of 2^16 to 2^31 bytes and a header length whose rounding does not wrap, the
-- body of the buffer that malloc hands out starts at offset 0, whatever header was asked for.
pub malloc_header_lost :
    (p : BufferPool) (body_len k header_len at : ℕ)
    → 16 ≤ k
    → k < 32
    → header_len + 2 ^ k ≤ 2 ^ 32
    → body_off (malloc p body_len k header_len at).0 ≡ 0
unfolding malloc body_off
malloc_header_lost p body_len k header_len at wide shift room =
    let h = header_size-IsRoundedUp header_len k (omega arith) room in
    let lost : u16 (header_size header_len k) ≡ 0 = mod_of_power 16 k _ wide h.multiple in
    elim (Option-cases
      (find (lookup_key (u32 (header_size header_len k + body_size body_len k)) k) p.cache)) [
        | inl miss ↦ rw (miss, malloc) lost
        | inr (d, hit) ↦ rw (hit, malloc) lost
      ]

-- With an empty cache, an alignment of at most 2^31 and no header, a body length below 2^32 but
-- nearer to it than the alignment gets a buffer of capacity 0.
pub malloc_wraps :
    (p : BufferPool) (body_len k at : ℕ)
    → p.cache ≡ []
    → k < 32
    → body_len < 2 ^ 32
    → 2 ^ 32 < body_len + 2 ^ k
    → capacity (malloc p body_len k 0 at).0 ≡ 0
unfolding malloc capacity find
malloc_wraps p body_len k at empty shift narrow wraps =
    let h =
      header_size-IsRoundedUp 0 k (omega arith)
        (omega (arith, pow-le-pow_right {n = 2} (omega arith) {i = k} {j = 32} (omega arith))) in
    let no_header : header_size 0 k ≡ 0 = grind (arith, h.tight, h.multiple) in
    let no_body = body_size_wraps body_len k (omega arith) narrow wraps in
    let miss : find (lookup_key (u32 (header_size 0 k + body_size body_len k)) k) p.cache ≡ none =
      rw empty refl in
    rw (miss, malloc) (rw (no_header, no_body) refl)

-- In a pool whose byte counter is below 2^64 and whose cache has no block with its key, a block of
-- the rounded sizes and the alignment of a fitting request that release caches, because the limit
-- is reached, is the one that the next such malloc hands out, and the pool is again as it was.
pub malloc-release :
    (p : BufferPool) (d : ByteBufferData) (body_len k header_len at : ℕ)
    → IsRequest body_len k header_len
    → d.m_align_bit ≡ k
    → d.m_len ≡ header_size header_len k + body_size body_len k
    → find (key d) p.cache ≡ none
    → p.cache_bytes < 2 ^ 64
    → p.limit_cache_bytes ≤ u64 (p.cache_bytes + d.m_len)
    → malloc (release p d) body_len k header_len at
      ≡ (new_buffer true (header_size header_len k) d, p)
unfolding malloc release find erase
malloc-release p d body_len k header_len at q unit size alone fits over =
    let sum = sizes_sum body_len k header_len q in
    let wanted : lookup_key (u32 (header_size header_len k + body_size body_len k)) k ≡ key d =
      rw (sum, ← size, ← unit) (lookup_key-key d (omega (arith, q.shift))) in
    let here : key d == key d ≡ true = (==_iff (key d) (key d)).1 refl in
    let stored : release p d
        ≡ record p { cache_bytes = u64 (p.cache_bytes + d.m_len); cache = (key d, d) ∷ p.cache } =
      ground arith in
    let hit : find (lookup_key (u32 (header_size header_len k + body_size body_len k)) k)
          ((key d, d) ∷ p.cache)
        ≡ some d =
      rw (wanted, find, here) refl in
    let gone : erase (lookup_key (u32 (header_size header_len k + body_size body_len k)) k)
          ((key d, d) ∷ p.cache)
        ≡ p.cache =
      rw (wanted, erase, here) refl in
    let back : u64 (u64 (p.cache_bytes + d.m_len) + 2 ^ 64 - d.m_len) ≡ p.cache_bytes =
      omega (arith, sum, size) in
    rw stored (rw (hit, malloc) (rw (gone, back) refl))
