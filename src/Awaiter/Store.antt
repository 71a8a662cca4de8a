-- ===== src/Awaiter/Store.antt =====
-- Writes into a buffer that is filled from its start.
use Prim.Native.Nat.{max}
use mathlib.Core.List.{append_assoc}
use nsio.Base.{
  ℕ, zero, suc, ◌+◌, ◌≤◌, ◌≡◌, refl, ap, List, [], ◌∷◌, ◌++◌, arith, length, take, drop,
  length-append, length-take, length-drop, take-length-append, ltb, true, false, ◌<◌, ◌^◌, ◌⊎◌, inl,
  inr,
}
use nsio.Awaiter.{store, below_size}

pub length-store :
    (buff : List ℕ) (at : ℕ) (bytes : List ℕ)
    → at ≤ length buff
    → length (store buff at bytes) ≡ max (length buff) (at + length bytes)
length-store buff at bytes h = omega (
  arith,
  length-append (take at buff) (bytes ++ drop (at + length bytes) buff),
  length-append bytes (drop (at + length bytes) buff),
  length-take at buff,
  length-drop (at + length bytes) buff,
)

drop_past : (front room : List ℕ) (n : ℕ) → drop (length front + n) (front ++ room) ≡ drop n room
drop_past [] room n = let e : 0 + n ≡ n = omega arith in rw e refl
drop_past (x ∷ front) room n =
    let e : suc (length front) + n ≡ suc (length front + n) = omega arith in
    rw e (drop_past front room n)

-- The bytes go where the filled part ends.
pub store_extends :
    (front room bytes : List ℕ)
    → store (front ++ room) (length front) bytes ≡ (front ++ bytes) ++ drop (length bytes) room
store_extends front room bytes =
    rw
      (take-length-append front room, drop_past front room (length bytes), append_assoc front bytes)
      refl

pub take_past :
    (front room : List ℕ) (n : ℕ) → take (length front + n) (front ++ room) ≡ front ++ take n room
take_past [] room n = let e : 0 + n ≡ n = omega arith in rw e refl
take_past (x ∷ front) room n =
    let e : suc (length front) + n ≡ suc (length front + n) = omega arith in
    rw e (ap (◌∷◌ x) (take_past front room n))

take-append : (n : ℕ) (xs ys : List ℕ) → n ≤ length xs → take n (xs ++ ys) ≡ take n xs
take-append zero xs ys h = refl
take-append (suc n) [] ys h = absurd (omega arith)
take-append (suc n) (x ∷ xs) ys h = ap (◌∷◌ x) (take-append n xs ys (omega arith))

drop-append : (n : ℕ) (xs ys : List ℕ) → n ≤ length xs → drop n (xs ++ ys) ≡ drop n xs ++ ys
drop-append zero xs ys h = refl
drop-append (suc n) [] ys h = absurd (omega arith)
drop-append (suc n) (x ∷ xs) ys h = drop-append n xs ys (omega arith)

-- A write into a part of a buffer.
pub store_inside :
    (pre mid post : List ℕ) (at : ℕ) (bytes : List ℕ)
    → at + length bytes ≤ length mid
    → store (pre ++ (mid ++ post)) (length pre + at) bytes ≡ pre ++ (store mid at bytes ++ post)
store_inside pre mid post at bytes h =
    let e : length pre + at + length bytes ≡ length pre + (at + length bytes) = omega arith in
    rw
      (
        e,
        take_past pre (mid ++ post) at,
        drop_past pre (mid ++ post) (at + length bytes),
        take-append at mid post (omega arith),
        drop-append (at + length bytes) mid post h,
        append_assoc pre (take at mid) (bytes ++ (drop (at + length bytes) mid ++ post)),
        append_assoc (take at mid) (bytes ++ drop (at + length bytes) mid) post,
        append_assoc bytes (drop (at + length bytes) mid) post,
      )
      refl

take-drop : (i : ℕ) (xs : List ℕ) → take i xs ++ drop i xs ≡ xs
take-drop zero xs = refl
take-drop (suc i) [] = refl
take-drop (suc i) (x ∷ xs) = ap (◌∷◌ x) (take-drop i xs)

drop-drop : (i n : ℕ) (xs : List ℕ) → drop n (drop i xs) ≡ drop (i + n) xs
drop-drop zero n xs = let e : 0 + n ≡ n = omega arith in rw e refl
drop-drop (suc i) zero [] = let e : suc i + 0 ≡ suc i = omega arith in rw e refl
drop-drop (suc i) (suc n) [] = let e : suc i + suc n ≡ suc (i + suc n) = omega arith in rw e refl
drop-drop (suc i) n (x ∷ xs) =
    let e : suc i + n ≡ suc (i + n) = omega arith in rw e (drop-drop i n xs)

pub take-drop_parts :
    (i n : ℕ) (xs : List ℕ) → xs ≡ take i xs ++ (take n (drop i xs) ++ drop (i + n) xs)
take-drop_parts i n xs = rw (← drop-drop i n xs, take-drop n (drop i xs), take-drop i xs) refl

pub below_size→lt : (done size : ℕ) → below_size done size ≡ true → done < size
below_size→lt done size h = ground (arith, h)

-- For a size that C's int holds, or one that is reached, the test is that of the numbers.
pub below_size→ge :
    (done size : ℕ) → (size < 2 ^ 31) ⊎ (size ≤ done) → below_size done size ≡ false → size ≤ done
below_size→ge done size (inl small) h = ground (arith, h, small)
below_size→ge done size (inr reached) h = reached

pub below_size-ltb : (done size : ℕ) → size < 2 ^ 31 → below_size done size ≡ ltb done size
below_size-ltb done size small = ground (arith, small)
