-- ===== src/ByteBuffer/Key.antt =====
-- byte_buffer_data::key and the key that buffer_pool::malloc computes by itself.
use native.Mathlib.Nat.{one-le-pow, add-mul-div_right}
use nsio.Base.{ℕ, ◌+◌, ◌*◌, ◌/◌, ◌%◌, ◌^◌, ◌<◌, ◌≡◌, sym, ap, ◌∙◌, arith, bit_or}
use nsio.Base.Bits.{bit_or_fields, bit_and_ones}
use nsio.ByteBuffer.{ByteBufferData, key, lookup_key, u32}

-- What every memory block of the pool satisfies: its length is a number of alignment units that
-- fits the 24 bits which the key has for it, and its address is aligned.
pub record IsBlock (d : ByteBufferData) : Type 0 where
  pub shift : d.m_align_bit < 32
  pub units : d.m_len % 2 ^ d.m_align_bit ≡ 0
  pub short : d.m_len / 2 ^ d.m_align_bit < 2 ^ 24
  pub placed : d.m_data % 2 ^ d.m_align_bit ≡ 0

key_fields : (q k : ℕ) → q < 2 ^ 24 → k < 2 ^ 8 → bit_or (u32 (q * 2 ^ 8)) k ≡ q * 256 + k
key_fields q k hq hk =
    let whole : q * 2 ^ 8 % 2 ^ 32 ≡ q * 2 ^ 8 = omega arith in rw whole (bit_or_fields 8 q k hk)

pub key_parts :
    (d : ByteBufferData) → IsBlock d → key d ≡ d.m_len / 2 ^ d.m_align_bit * 256 + d.m_align_bit
unfolding key
key_parts d v =
    key_fields (d.m_len / 2 ^ d.m_align_bit) d.m_align_bit v.short (omega (arith, v.shift))

pub lookup_key-key :
    (d : ByteBufferData) → d.m_align_bit < 256 → lookup_key d.m_len d.m_align_bit ≡ key d
unfolding key lookup_key
lookup_key-key d h = rw (bit_and_ones 8 d.m_align_bit h)

same_fields : (p q a b : ℕ) → a < 256 → b < 256 → p * 256 + a ≡ q * 256 + b → (p ≡ q) × (a ≡ b)
same_fields p q a b ha hb e = (omega arith, omega arith)

exact : (n p : ℕ) → n % p ≡ 0 → n ≡ n / p * p
exact n p h = grind arith

-- Two well-formed blocks with the same key have the same length and the same alignment.
pub key-injective :
    (d e : ByteBufferData)
    → IsBlock d
    → IsBlock e
    → key d ≡ key e
    → (d.m_len ≡ e.m_len) × (d.m_align_bit ≡ e.m_align_bit)
key-injective d e v w same =
    let fields =
      same_fields (d.m_len / 2 ^ d.m_align_bit) (e.m_len / 2 ^ e.m_align_bit) d.m_align_bit
        e.m_align_bit (omega (arith, v.shift)) (omega (arith, w.shift))
        (sym (key_parts d v) ∙ same ∙ key_parts e w) in
    (
      cc (
        exact d.m_len (2 ^ d.m_align_bit) v.units,
        exact e.m_len (2 ^ e.m_align_bit) w.units,
        fields.0,
        ap (λ (k : ℕ). 2 ^ k) fields.1,
      ),
      fields.1,
    )

-- A block of less than 2^32 bytes has the key of one with the same alignment that is 2^24 units
-- shorter.
pub key-forgets :
    (d e : ByteBufferData)
    → d.m_len < 2 ^ 32
    → d.m_align_bit ≡ e.m_align_bit
    → d.m_len ≡ e.m_len + 2 ^ 24 * 2 ^ d.m_align_bit
    → key d ≡ key e
unfolding key
key-forgets d e narrow same longer =
    let p : 0 < 2 ^ d.m_align_bit = one-le-pow d.m_align_bit 2 (omega arith) in
    let units : d.m_len / 2 ^ d.m_align_bit ≡ e.m_len / 2 ^ d.m_align_bit + 2 ^ 24 =
      rw longer (add-mul-div_right e.m_len (2 ^ 24) p) in
    let wrapped : u32 (d.m_len / 2 ^ d.m_align_bit * 2 ^ 8)
        ≡ u32 (e.m_len / 2 ^ d.m_align_bit * 2 ^ 8) =
      rw units (omega arith) in
    rw (wrapped, same)
