-- ===== src/Base/Bits.antt =====
-- Masks over the native numbers: the lowest digit of `&` and `|`, the rounding that
-- byte_buffer.cpp writes as `(x + a - 1) & ~(a - 1)`, and fields joined by `|`.
use Prim.Native.Nat.{
  ℕ, zero, suc, ◌+◌, ◌-◌, ◌*◌, ◌/◌, ◌%◌, ◌^◌, ◌≤◌, ◌<◌, bit_and, bit_or, min, max, digits, bitwise,
  bit_and-bitwise, bit_or-bitwise,
}
use mathlib.Core.Path.{◌≡◌, refl, ap}
use native.Mathlib.Omega.{arith}
use native.Mathlib.Nat.{pow-suc, one-le-pow, mul-mod_left}

-- The recursion on digits gives one result for every sufficient fuel.
module _ (tail : ℕ → ℕ) (op : ℕ → ℕ → ℕ) where
  digits_enough : (n m x y : ℕ) → x ≤ n → x ≤ m → digits tail op n x y ≡ digits tail op m x y
  digits_enough zero zero x y p q = refl
  digits_enough zero (suc m) zero y p q = refl
  digits_enough zero (suc m) (suc x) y p q = absurd (omega arith)
  digits_enough (suc n) zero zero y p q = refl
  digits_enough (suc n) zero (suc x) y p q = absurd (omega arith)
  digits_enough (suc n) (suc m) zero y p q = refl
  digits_enough (suc n) (suc m) (suc x) y p q =
      rw (digits_enough n m (suc x / 2) (y / 2) (omega arith) (omega arith))

  lowest_digit :
      (x y : ℕ)
      → bitwise tail op (suc x) y ≡ bitwise tail op (suc x / 2) (y / 2) * 2 + op (suc x % 2) (y % 2)
  lowest_digit x y =
      omega (arith, digits_enough x (suc x / 2) (suc x / 2) (y / 2) (omega arith) (omega arith))

pub bit_and_low : (a b : ℕ) → bit_and a b ≡ bit_and (a / 2) (b / 2) * 2 + min (a % 2) (b % 2)
bit_and_low zero b = simp bit_and-bitwise (omega arith)
bit_and_low (suc a) b = simp bit_and-bitwise (lowest_digit (λ y. 0) min a b)

pub bit_or_low : (a b : ℕ) → bit_or a b ≡ bit_or (a / 2) (b / 2) * 2 + max (a % 2) (b % 2)
bit_or_low zero b = simp bit_or-bitwise (omega arith)
bit_or_low (suc a) b = simp bit_or-bitwise (lowest_digit (λ y. y) max a b)

zero-bit_and : (b : ℕ) → bit_and 0 b ≡ 0
zero-bit_and b = bit_and-bitwise 0 b

bit_and-even : (a b : ℕ) → bit_and a (2 * b) ≡ bit_and (a / 2) b * 2
bit_and-even a b =
    let half : 2 * b / 2 ≡ b = omega arith in
    let last : min (a % 2) (2 * b % 2) ≡ 0 = omega arith in
    rw (bit_and_low a (2 * b), half, last) (omega arith)

bit_and-odd : (a b : ℕ) → bit_and a (2 * b + 1) ≡ bit_and (a / 2) b * 2 + a % 2
bit_and-odd a b =
    let half : (2 * b + 1) / 2 ≡ b = omega arith in
    let last : min (a % 2) ((2 * b + 1) % 2) ≡ a % 2 = omega arith in
    rw (bit_and_low a (2 * b + 1), half, last) (omega arith)

-- x & 0xff..f keeps a word of that width.
pub bit_and_ones : (w x : ℕ) → x < 2 ^ w → bit_and x (2 ^ w - 1) ≡ x
bit_and_ones zero x h = let e : x ≡ 0 = omega arith in rw e (zero-bit_and 0)
bit_and_ones (suc w) x h =
    let mask : 2 ^ suc w - 1 ≡ 2 * (2 ^ w - 1) + 1 = omega (arith, pow-suc 2 w, one-le-pow w 2) in
    let below : x / 2 < 2 ^ w = omega (arith, pow-suc 2 w) in
    rw (mask, bit_and-odd x (2 ^ w - 1), bit_and_ones w (x / 2) below) (omega arith)

half_div : (x p : ℕ) → 0 < p → x / 2 / p ≡ x / (p * 2)
half_div x p h = grind arith

-- x & ~(2^k - 1) over words of w digits rounds down to a multiple of 2^k.
pub bit_and_high :
    (k d x : ℕ) → x < 2 ^ d * 2 ^ k → bit_and x (2 ^ d * 2 ^ k - 2 ^ k) ≡ x / 2 ^ k * 2 ^ k
bit_and_high zero d x h =
    let e : 2 ^ d * 1 ≡ 2 ^ d = omega arith in rw (e, bit_and_ones d x (omega arith)) (omega arith)
bit_and_high (suc k) d x h =
    let mask : 2 ^ d * 2 ^ suc k - 2 ^ suc k ≡ 2 * (2 ^ d * 2 ^ k - 2 ^ k) =
      rw (pow-suc 2 k) (grind arith) in
    let below : x / 2 < 2 ^ d * 2 ^ k =
      let e : 2 ^ d * (2 ^ k * 2) ≡ 2 ^ d * 2 ^ k * 2 = grind arith in
      omega (arith, e, ap (λ (t : ℕ). 2 ^ d * t) (pow-suc 2 k)) in
    rw
      (
        mask,
        bit_and-even x,
        bit_and_high k d (x / 2) below,
        half_div x (2 ^ k) (one-le-pow k 2 (omega arith)),
        pow-suc 2 k,
      )
      (omega arith)

-- What is a part of x adds nothing to it.
bit_or_part : (n x m : ℕ) → x ≤ n → bit_or x (bit_and x m) ≡ x
bit_or_part n zero m h = rw (zero-bit_and m) refl
bit_or_part zero (suc x) m h = absurd (omega arith)
bit_or_part (suc n) (suc x) m h =
    let low = bit_and_low (suc x) m in
    let half : bit_and (suc x) m / 2 ≡ bit_and (suc x / 2) (m / 2) = omega (arith, low) in
    let last : max (suc x % 2) (bit_and (suc x) m % 2) ≡ suc x % 2 = omega (arith, low) in
    rw
      (
        bit_or_low (suc x) (bit_and (suc x) m),
        half,
        last,
        bit_or_part n (suc x / 2) (m / 2) (omega arith),
      )
      (omega arith)

pub bit_or-bit_and_self : (x m : ℕ) → bit_or x (bit_and x m) ≡ x
bit_or-bit_and_self x m = bit_or_part x x m (omega arith)

bit_or-zero : (n x : ℕ) → x ≤ n → bit_or x 0 ≡ x
bit_or-zero n zero h = refl
bit_or-zero zero (suc x) h = absurd (omega arith)
bit_or-zero (suc n) (suc x) h =
    omega (arith, bit_or_low (suc x) 0, bit_or-zero n (suc x / 2) (omega arith))

-- Fields that do not overlap are added by `|`.
pub bit_or_fields : (k q r : ℕ) → r < 2 ^ k → bit_or (q * 2 ^ k) r ≡ q * 2 ^ k + r
bit_or_fields zero q r h =
    let e : r ≡ 0 = omega arith in
    let f : q * 1 ≡ q = omega arith in rw (e, f, bit_or-zero q q (omega arith)) (omega arith)
bit_or_fields (suc k) q r h =
    let half : q * 2 ^ suc k / 2 ≡ q * 2 ^ k = rw (pow-suc 2 k) (omega arith) in
    let even : q * 2 ^ suc k % 2 ≡ 0 = rw (pow-suc 2 k) (omega arith) in
    rw
      (
        bit_or_low (q * 2 ^ suc k) r,
        half,
        even,
        bit_or_fields k q (r / 2) (omega (arith, pow-suc 2 k)),
      )
      (omega (arith, pow-suc 2 k))

pub pow_split : (d k : ℕ) → 2 ^ (d + k) ≡ 2 ^ d * 2 ^ k
pow_split d zero = let e : d + 0 ≡ d = omega arith in rw e (omega arith)
pow_split d (suc k) =
    let e : d + suc k ≡ suc (d + k) = omega arith in
    rw (e, pow-suc 2 (d + k), pow-suc 2 k, pow_split d k) (grind arith)

-- A smaller power divides a larger one.
pub pow_quotient : (k n : ℕ) → k ≤ n → 2 ^ (n - k) * 2 ^ k ≡ 2 ^ n
pow_quotient k n h = let e : n - k + k ≡ n = omega arith in rw (← pow_split (n - k) k, e)

pub mod_of_multiple : (q p r : ℕ) → r % (q * p) ≡ 0 → r % p ≡ 0
mod_of_multiple q p r h =
    let e : r ≡ r / (q * p) * q * p = grind arith in rw e (mul-mod_left (r / (q * p) * q) p)

pub mod_of_power : (k n r : ℕ) → k ≤ n → r % 2 ^ n ≡ 0 → r % 2 ^ k ≡ 0
mod_of_power k n r h m = mod_of_multiple (2 ^ (n - k)) (2 ^ k) r (rw (pow_quotient k n h) m)
