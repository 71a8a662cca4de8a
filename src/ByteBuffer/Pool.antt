-- ===== src/ByteBuffer/Pool.antt =====
-- buffer_pool::malloc and buffer_pool::release.
use native.Mathlib.Nat.{one-le-pow, mul-mod_left, div-lt_iff_lt-mul}
use nsio.Base.{
  ℕ, ◌+◌, ◌*◌, ◌/◌, ◌%◌, ◌^◌, ◌≤◌, ◌<◌, ◌≡◌, refl, sym, ap, ◌∙◌, List, [], ◌∷◌, some, arith, All,
  Option-cases, inl, inr, ◌⊎◌, Bool-cases, ◌==◌, ==_iff,
}
use nsio.ByteBuffer.{
  ByteBufferData, ByteBuffer, BufferPool, key, lookup_key, header_size, body_size, malloc, release,
  destroy, find, erase, u32, u64, capacity,
}
use nsio.ByteBuffer.Rounding.{
  IsRoundedUp, IsBodySize, header_size-IsRoundedUp, body_size-IsBodySize,
}
use nsio.ByteBuffer.Key.{IsBlock, key-injective, lookup_key-key}

-- The bytes that the cache holds.
unfoldable pub total : List (ℕ × ByteBufferData) → ℕ
total [] = 0
total ((k, d) ∷ m) = d.m_len + total m

abbrev pub IsEntry : ℕ × ByteBufferData → Type 0
IsEntry (k, d) = (k ≡ key d) × IsBlock d × (d.m_len < 2 ^ 32)

-- Every entry stands under its own key, and the counter is the sum of the lengths.
pub record IsValid (p : BufferPool) : Type 0 where
  pub entries : All IsEntry p.cache
  pub counted : p.cache_bytes ≡ u64 (total p.cache)

find-IsEntry :
    (k : ℕ) (m : List (ℕ × ByteBufferData)) (d : ByteBufferData)
    → find k m ≡ some d
    → All IsEntry m
    → IsEntry (k, d)
unfolding find
find-IsEntry k [] d e v = cc
find-IsEntry k ((j, c) ∷ m) d e v = elim (Bool-cases (j == k)) [
  | inl hit ↦
      let at : j ≡ k = (==_iff j k).0 hit in
      let found : c ≡ d = ground arith in rw (← at, ← found) v.0
  | inr miss ↦ find-IsEntry k m d (ground arith) v.1
]

erase-All : (k : ℕ) (m : List (ℕ × ByteBufferData)) → All IsEntry m → All IsEntry (erase k m)
unfolding erase
erase-All k [] v = tt
erase-All k ((j, c) ∷ m) v = ground (arith, erase-All k m v.1)

total-erase :
    (k : ℕ) (m : List (ℕ × ByteBufferData)) (d : ByteBufferData)
    → find k m ≡ some d
    → total m ≡ d.m_len + total (erase k m)
unfolding find erase total
total-erase k [] d e = cc
total-erase k ((j, c) ∷ m) d e = ground (arith, total-erase k m d)

pub sum_of_multiples : (a b p : ℕ) → a % p ≡ 0 → b % p ≡ 0 → (a + b) % p ≡ 0
sum_of_multiples a b p ha hb =
    let e : a + b ≡ (a / p + b / p) * p = grind arith in rw e (mul-mod_left (a / p + b / p) p)

-- What a caller may ask of malloc: no 32-bit sum wraps, and the units fit the key.
pub record IsRequest (body_len k header_len : ℕ) : Type 0 where
  pub shift : k < 32
  pub room : header_len + body_len + 2 * 2 ^ k + 2 ^ 10 ≤ 2 ^ 32
  pub short : header_len + body_len + 2 * 2 ^ k + 2 ^ 10 ≤ 2 ^ 24 * 2 ^ k

-- The block that malloc makes where the cache has none.
abbrev pub fresh : ℕ → ℕ → ℕ → ℕ → ByteBufferData
fresh body_len k header_len at = record {
  m_data = at;
  m_len = header_size header_len k + body_size body_len k;
  m_align_bit = k;
}

module _ (body_len k header_len : ℕ) (q : IsRequest body_len k header_len) where
  pub header_fits : IsRoundedUp header_len k (header_size header_len k)
  header_fits =
      header_size-IsRoundedUp header_len k (omega (arith, q.shift)) (omega (arith, q.room))

  pub body_fits : IsBodySize body_len k (body_size body_len k)
  body_fits = body_size-IsBodySize body_len k (omega (arith, q.shift)) (omega (arith, q.room))

  pub sizes_sum :
      u32 (header_size header_len k + body_size body_len k)
      ≡ header_size header_len k + body_size body_len k
  sizes_sum = omega (arith, header_fits.tight, body_fits.tight, q.room)

  pub fresh-IsBlock : (at : ℕ) → at % 2 ^ k ≡ 0 → IsBlock (fresh body_len k header_len at)
  fresh-IsBlock at placed =
      let p : 0 < 2 ^ k = one-le-pow k 2 (omega arith) in
      record {
        shift = q.shift;
        units = sum_of_multiples _ _ _ header_fits.multiple body_fits.aligned;
        short =
            (div-lt_iff_lt-mul p).1 (omega (arith, header_fits.tight, body_fits.tight, q.short));
        placed = placed;
      }

-- What malloc hands out, and the pool it leaves.
pub record Served (p : BufferPool) (body_len k header_len : ℕ) (r : ByteBuffer × BufferPool)
    : Type 0 where
  pub size : capacity r.0 ≡ header_size header_len k + body_size body_len k
  pub unit : r.0.m_d.m_align_bit ≡ k
  pub offset : r.0.header_len ≡ header_size header_len k % 2 ^ 16
  pub block : IsBlock r.0.m_d
  pub valid : IsValid r.1

-- For a valid pool, a request whose sums and units fit, and an address from aligned_alloc that is
-- aligned, malloc hands out a block of exactly the rounded sizes and with the alignment asked for,
-- recycled or fresh, and leaves a valid pool.
pub malloc-Served :
    (p : BufferPool) (body_len k header_len at : ℕ)
    → IsValid p
    → IsRequest body_len k header_len
    → at % 2 ^ k ≡ 0
    → Served p body_len k header_len (malloc p body_len k header_len at)
unfolding malloc capacity
malloc-Served p body_len k header_len at v q placed =
    let sum = sizes_sum body_len k header_len q in
    let made = fresh-IsBlock body_len k header_len q at placed in
    let same = lookup_key-key (fresh body_len k header_len at) (omega (arith, q.shift)) in
    elim (Option-cases
      (find (lookup_key (u32 (header_size header_len k + body_size body_len k)) k) p.cache)) [
        | inl miss ↦
            rw (miss, malloc)
              (rw sum (record { size = refl; unit = refl; offset = refl; block = made; valid = v }))
        | inr (d, hit) ↦
            let (under, block, narrow) = find-IsEntry _ p.cache d hit v.entries in
            let (size, unit) =
              key-injective d (fresh body_len k header_len at) block made
                (sym under ∙ ap (λ (t : ℕ). lookup_key t k) sum ∙ same) in
            rw (hit, malloc)
              (record {
                size = size;
                unit = unit;
                offset = refl;
                block = block;
                valid = record {
                  entries = erase-All _ p.cache v.entries;
                  counted = omega (arith, v.counted, total-erase _ p.cache d hit);
                };
              })
      ]

-- Destroying a buffer of a well-formed block shorter than 2^32 keeps a valid pool valid.
pub destroy-IsValid :
    (p : BufferPool) (b : ByteBuffer)
    → IsValid p
    → IsBlock b.m_d
    → b.m_d.m_len < 2 ^ 32
    → IsValid (destroy p b)
unfolding destroy release total
destroy-IsValid p b v block narrow = ground (arith, v.counted, v.entries)

-- release frees the block and leaves the cache as it was; or it caches the block, and then the
-- cached bytes have reached the limit.
release_limit :
    (p : BufferPool) (d : ByteBufferData)
    → (((release p d).cache ≡ p.cache) × ((release p d).freed ≡ d.m_data ∷ p.freed))
      ⊎ (((release p d).cache ≡ (key d, d) ∷ p.cache)
          × (p.limit_cache_bytes ≤ (release p d).cache_bytes))
unfolding release
release_limit p d = ground arith
