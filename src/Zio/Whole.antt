-- ===== src/Zio/Whole.antt =====
-- zio::writev and zio::readv on a kernel that moves all the bytes, in parts, with interrupted calls and
-- calls that find the socket not ready between them.
use nsio.Base.{
  ℕ, zero, suc, ◌+◌, ◌<◌, ◌≡◌, refl, ◌⊎◌, inl, inr, true, false, List, [], ◌∷◌, some, ◌==◌, arith,
  length, Bool-cases, ==_iff,
}
use nsio.Zio.{Reply, returned, failed, eintr, eagain, transfer, moved, writev, readv}

-- The bytes that the replies move.
abbrev pub total : List Reply → ℕ
total [] = 0
total (returned n ∷ rest) = n + total rest
total (failed e ∷ rest) = total rest

-- Some bytes, EAGAIN and EINTR only.
abbrev pub Moves : List Reply → Type 0
Moves [] = Unit {0}
Moves (returned zero ∷ rest) = ⊥
Moves (returned (suc n) ∷ rest) = Moves rest
Moves (failed e ∷ rest) = ((e ≡ eagain) ⊎ (e ≡ eintr)) × Moves rest

module _ (count : ℕ) where
  -- Both functions end with the whole count.
  abbrev Ends : ℕ → ℕ → List Reply → Type 0
  Ends fuel at replies =
      (rest : List Reply) × (writev fuel count at replies ≡ some (moved count, rest))
      × (readv fuel count at replies ≡ some (moved count, rest))

  all_moved :
      (fuel at : ℕ) (replies : List Reply) → (at == count) ≡ true → Ends (suc fuel) at replies
  unfolding writev readv
  all_moved fuel at replies full =
      let same : at ≡ count = (==_iff at count).0 full in
      (replies, rw (full, writev, same) refl, rw (full, readv, same) refl)

  pub writev-readv_from :
      (fuel at : ℕ) (replies : List Reply)
      → length replies < fuel
      → at + total replies ≡ count
      → Moves replies
      → Ends fuel at replies
  unfolding writev readv transfer
  writev-readv_from zero at replies h sum ok = absurd (omega arith)
  writev-readv_from (suc fuel) at [] h sum ok = all_moved fuel at [] (ground (arith, sum))
  writev-readv_from (suc fuel) at (returned zero ∷ rest) h sum ok = absurd ok
  writev-readv_from (suc fuel) at (returned (suc n) ∷ rest) h sum ok =
      let more : (at == count) ≡ false = ground (arith, sum) in
      let (left, wrote, got) =
        writev-readv_from fuel (at + suc n) rest (omega arith) (omega arith) ok in
      (left, rw (more, writev) wrote, rw (more, readv) got)
  writev-readv_from (suc fuel) at (failed e ∷ rest) h sum ok = elim (Bool-cases (at == count)) [
    | inl full ↦ all_moved fuel at (failed e ∷ rest) full
    | inr more ↦ elim ok.0 [
      | inl again ↦
          let (left, wrote, got) = writev-readv_from fuel at rest (omega arith) sum ok.1 in
          (left, rw (more, again, writev) wrote, rw (more, again, readv) got)
      | inr interrupted ↦
          let (left, wrote, got) = writev-readv_from (suc fuel) at rest (omega arith) sum ok.1 in
          (
            left,
            rw (more, interrupted, writev) (rw (more, writev) at wrote),
            rw (more, interrupted, readv) (rw (more, readv) at got),
          )
    ]
  ]

  -- If the replies are EINTR, EAGAIN and counts above 0 that add up to the count asked for, then
  -- writev and readv, with fuel for one turn more than there are replies, return; both give the
  -- whole count, or -1 where it is 0.
  pub writev-readv_whole :
      (replies : List Reply)
      → total replies ≡ count
      → Moves replies
      → (rest : List Reply) × (writev (suc (length replies)) count 0 replies
          ≡ some (moved count, rest))
        × (readv (suc (length replies)) count 0 replies ≡ some (moved count, rest))
  writev-readv_whole replies sum ok =
      writev-readv_from (suc (length replies)) 0 replies (omega arith) (omega (arith, sum)) ok
