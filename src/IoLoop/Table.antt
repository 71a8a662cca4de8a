-- ===== src/IoLoop/Table.antt =====
-- The descriptor table as an infinite sequence of entries, `unused` beyond its end.
use nsio.Base.{
  ℕ, zero, suc, ◌+◌, ◌-◌, ◌<◌, ◌≡◌, refl, inl, inr, List, [], ◌∷◌, ◌++◌, ◌==◌, if◌then◌else◌, arith,
  length, get_or, set, replicate, leb, Bool-cases, length-append, length-replicate,
}
use nsio.IoLoop.{EsFile, unused}
use nsio.IoLoop.Fds.{grow}

get_or-replicate : (n i : ℕ) → get_or (replicate n unused) i unused ≡ unused
get_or-replicate zero i = refl
get_or-replicate (suc n) zero = refl
get_or-replicate (suc n) (suc i) = get_or-replicate n i

get_or-append :
    (fds : List EsFile) (n i : ℕ)
    → get_or (fds ++ replicate n unused) i unused ≡ get_or fds i unused
get_or-append [] n i = get_or-replicate n i
get_or-append (x ∷ fds) n zero = refl
get_or-append (x ∷ fds) n (suc i) = get_or-append fds n i

pub get_or-grow :
    (fds : List EsFile) (fd i : ℕ) → get_or (grow fds fd) i unused ≡ get_or fds i unused
unfolding grow
get_or-grow fds fd i = elim (Bool-cases (leb (length fds) fd)) [
  | inl short ↦ rw (short, grow) (get_or-append fds (fd + 1 - length fds) i)
  | inr long ↦ rw (long, grow) refl
]

pub length-grow : (fds : List EsFile) (fd : ℕ) → fd < length (grow fds fd)
unfolding grow
length-grow fds fd = ground (
  arith,
  length-append fds (replicate (fd + 1 - length fds) unused),
  length-replicate (fd + 1 - length fds) unused,
)

pub get_or-set :
    (fds : List EsFile) (fd i : ℕ) (v : EsFile)
    → fd < length fds
    → get_or (set fds fd v) i unused ≡ (if fd == i then v else get_or fds i unused)
get_or-set [] fd i v h = elim h [ ]
get_or-set (x ∷ fds) zero zero v h = refl
get_or-set (x ∷ fds) zero (suc i) v h = ground arith
get_or-set (x ∷ fds) (suc fd) zero v h = ground arith
get_or-set (x ∷ fds) (suc fd) (suc i) v h = ground (arith, get_or-set fds fd i v)

pub get_or-outside : (fds : List EsFile) (i : ℕ) → length fds < suc i → get_or fds i unused ≡ unused
get_or-outside [] i h = refl
get_or-outside (fe ∷ fds) zero h = absurd (omega arith)
get_or-outside (fe ∷ fds) (suc i) h = get_or-outside fds i (omega arith)
