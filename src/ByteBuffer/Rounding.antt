-- ===== src/ByteBuffer/Rounding.antt =====
-- The rounding of buffer_pool::malloc, for words of 32 bits.
use native.Mathlib.Nat.{
  one-le-pow, pow-le-pow_right, mul-mod_left, div-mul-le_self, lt-div-mul-add, div-eq_of_lt,
}
use native.Mathlib.Decide.{dec_le}
use nsio.Base.{ℕ, ◌+◌, ◌-◌, ◌*◌, ◌/◌, ◌%◌, ◌^◌, ◌≤◌, ◌<◌, ◌≡◌, arith, bit_and, refl}
use nsio.Base.Bits.{bit_and_high, pow_quotient, mod_of_power}
use nsio.ByteBuffer.{round_up, header_size, body_size}

-- `r` is the least multiple of 2^k that is at least `x`.
pub record IsRoundedUp (x k r : ℕ) : Type 0 where
  pub covers : x ≤ r
  pub tight : r < x + 2 ^ k
  pub multiple : r % 2 ^ k ≡ 0

pub mask_rounds :
    (k x : ℕ) → k ≤ 32 → x < 2 ^ 32 → bit_and x (2 ^ 32 - 1 - (2 ^ k - 1)) ≡ x / 2 ^ k * 2 ^ k
mask_rounds k x hk hx =
    let q = pow_quotient k 32 hk in
    let mask : 2 ^ 32 - 1 - (2 ^ k - 1) ≡ 2 ^ (32 - k) * 2 ^ k - 2 ^ k =
      omega (arith, q, one-le-pow k 2) in
    rw mask (bit_and_high k (32 - k) x (omega (arith, q)))

-- Without overflow the masks of malloc round up.
pub round_up-IsRoundedUp : (x k : ℕ) → k ≤ 32 → x + 2 ^ k ≤ 2 ^ 32 → IsRoundedUp x k (round_up x k)
unfolding round_up
round_up-IsRoundedUp x k hk h =
    let p : 0 < 2 ^ k = one-le-pow k 2 (omega arith) in
    let small : (x + 2 ^ k - 1) % 2 ^ 32 ≡ x + 2 ^ k - 1 = omega arith in
    rw (small, mask_rounds k (x + 2 ^ k - 1) hk (omega arith))
      (record {
        covers = omega (arith, lt-div-mul-add {a = x + 2 ^ k - 1} p);
        tight = omega (arith, div-mul-le_self (x + 2 ^ k - 1) (2 ^ k));
        multiple = mul-mod_left ((x + 2 ^ k - 1) / 2 ^ k) (2 ^ k);
      })

-- A length within 2^k of the end of the word is rounded to 0.
pub round_up_wraps : (x k : ℕ) → k ≤ 32 → x < 2 ^ 32 → 2 ^ 32 < x + 2 ^ k → round_up x k ≡ 0
unfolding round_up
round_up_wraps x k hk hx h =
    let p : 0 < 2 ^ k = one-le-pow k 2 (omega arith) in
    let bound : 2 ^ k ≤ 2 ^ 32 = pow-le-pow_right (omega arith) hk in
    let wrapped : (x + 2 ^ k - 1) % 2 ^ 32 ≡ x + 2 ^ k - 1 - 2 ^ 32 = omega arith in
    rw
      (
        wrapped,
        mask_rounds k (x + 2 ^ k - 1 - 2 ^ 32) hk (omega arith),
        div-eq_of_lt {n = x + 2 ^ k - 1 - 2 ^ 32} {m = 2 ^ k} (omega arith),
      )
      (omega arith)

-- The header that malloc lays out covers the request, by less than one unit of alignment.
pub header_size-IsRoundedUp :
    (x k : ℕ) → k ≤ 32 → x + 2 ^ k ≤ 2 ^ 32 → IsRoundedUp x k (header_size x k)
unfolding header_size
header_size-IsRoundedUp = round_up-IsRoundedUp

pub record IsBodySize (x k r : ℕ) : Type 0 where
  pub covers : x ≤ r
  pub tight : r < x + 2 ^ k + 2 ^ 10
  pub aligned : r % 2 ^ k ≡ 0
  pub whole_blocks : r % 2 ^ 10 ≡ 0

aligned_twice : (k y r : ℕ) → y % 2 ^ k ≡ 0 → IsRoundedUp y 10 r → r % 2 ^ k ≡ 0
aligned_twice k y r m u = elim (dec_le k 10) [
  | yes le ↦ mod_of_power k 10 r le u.multiple
  | no gt ↦
      let z : y % 2 ^ 10 ≡ 0 = mod_of_power 10 k y (omega arith) m in
      let same : r ≡ y = omega (arith, u.covers, u.tight, u.multiple) in rw same m
]

-- If no sum wraps, the rounded body length is at least the request, exceeds it by less than the
-- alignment and 1024 together, and is a multiple of both.
pub body_size-IsBodySize :
    (x k : ℕ) → k ≤ 32 → x + 2 ^ k + 2 ^ 10 ≤ 2 ^ 32 → IsBodySize x k (body_size x k)
unfolding body_size
body_size-IsBodySize x k hk h =
    let first = round_up-IsRoundedUp x k hk (omega arith) in
    let second =
      round_up-IsRoundedUp (round_up x k) 10 (omega arith) (omega (arith, first.tight)) in
    record {
      covers = omega (arith, first.covers, second.covers);
      tight = omega (arith, first.tight, second.tight);
      aligned = aligned_twice k (round_up x k) _ first.multiple second;
      whole_blocks = second.multiple;
    }

-- A request so near the end of the word that the rounding wraps gets an empty body.
pub body_size_wraps : (x k : ℕ) → k ≤ 32 → x < 2 ^ 32 → 2 ^ 32 < x + 2 ^ k → body_size x k ≡ 0
unfolding body_size round_up
body_size_wraps x k hk hx h = rw (round_up_wraps x k hk hx h) (refl)
