-- ===== src/IoLoop/Dispatch/Good.antt =====
-- What holds of a loop between its callbacks, and what a callback may change.
use mathlib.Core.Logic.{◌≢◌}
use mathlib.Core.Path.{subst}
use nsio.Base.{
  ℕ, ◌≡◌, inl, inr, true, false, List, Option, none, some, ◌==◌, arith, length, leb, if◌then◌else◌,
  Bool-cases, ==_iff, leb→gt, leb→le,
}
use nsio.Base.Int.{ℤ}
use nsio.IoLoop.{EsFile, IoLoop, unused, epollin, epollout}
use nsio.IoLoop.Fds.{slot, put, has}
use nsio.IoLoop.Table.{get_or-set, get_or-outside}
use nsio.IoLoop.Epoll.{interest, IsSlot, IsSynced}

pub inside : (fd : ℕ) (l : IoLoop) → slot l fd ≢ unused → leb (length l.fds) fd ≡ false
inside fd l used = elim (Bool-cases (leb (length l.fds) fd)) [
  | inl out ↦ absurd (used (get_or-outside l.fds fd (omega (arith, leb→le _ _ out))))
  | inr within ↦ within
]

IsSynced-put :
    (fd : ℕ) (fe : EsFile) (l : IoLoop)
    → IsSynced l
    → leb (length l.fds) fd ≡ false
    → IsSlot fd fe (interest l.ctls fd)
    → IsSynced (put fd fe l)
unfolding put
IsSynced-put fd fe l v within new = record {
  slots = λ i. rw (get_or-set l.fds fd i fe (leb→gt _ _ within)) (elim (Bool-cases (fd == i)) [
    | inl same ↦ rw same (subst (λ j. IsSlot j fe (interest l.ctls j)) ((==_iff fd i).0 same) new)
    | inr other ↦ rw other (v.slots i)
  ]);
  accepted = v.accepted;
}

-- The callback of an entry, if there is one, is of a kind.
abbrev pub Holds : (ℕ → Type 0) → Option ℕ → Type 0
Holds K none = Unit {0}
Holds K (some f) = K f

-- The objects that wait to read a descriptor are readers of it, and those that wait to write it are
-- writers.
abbrev pub IsManned : (ℕ → ℕ → Type 0) → (ℕ → ℕ → Type 0) → IoLoop → Type 0
IsManned R W l = (i : ℕ) → Holds (R i) (slot l i).func_r × Holds (W i) (slot l i).func_w

-- The table agrees with the kernel, its callbacks are of the right kind, and what else is to hold does.
pub record IsGood (R W : ℕ → ℕ → Type 0) (P : IoLoop → Type 0) (l : IoLoop) : Type 0 where
  pub synced : IsSynced l
  pub manned : IsManned R W l
  pub extra : P l

-- A change that keeps this, and gives up the interest in no descriptor but one.
pub record Kept (R W : ℕ → ℕ → Type 0) (P : IoLoop → Type 0) (fd : ℕ) (l l' : IoLoop) : Type 0 where
  pub good : IsGood R W P l'
  pub others : (i : ℕ) → i ≢ fd → interest l.ctls i ≢ none → interest l'.ctls i ≢ none

-- What the loop asks of a callback: called for a descriptor that is watched for its kind of event, it
-- keeps the loop good, and gives up the interest in its own descriptor only.
pub record IsCallback (R W : ℕ → ℕ → Type 0) (P : IoLoop → Type 0)
    (on_file : ℕ → ℕ → ℤ → IoLoop → IoLoop) : Type 0 where
  pub on_read :
      (f fd : ℕ) (event : ℤ) (l : IoLoop)
      → R fd f
      → IsGood R W P l
      → has (slot l fd).event epollin ≡ true
      → Kept R W P fd l (on_file f fd event l)
  pub on_write :
      (f fd : ℕ) (event : ℤ) (l : IoLoop)
      → W fd f
      → IsGood R W P l
      → has (slot l fd).event epollout ≡ true
      → Kept R W P fd l (on_file f fd event l)
  pub table : (l : IoLoop) (fds : List EsFile) → P l → P (record l { fds = fds })

pub slot-put :
    (fd i : ℕ) (fe : EsFile) (l : IoLoop)
    → leb (length l.fds) fd ≡ false
    → slot (put fd fe l) i ≡ (if fd == i then fe else slot l i)
unfolding put
slot-put fd i fe l within = get_or-set l.fds fd i fe (leb→gt _ _ within)

pub slot-put_self :
    (fd : ℕ) (fe : EsFile) (l : IoLoop) → leb (length l.fds) fd ≡ false → slot (put fd fe l) fd ≡ fe
slot-put_self fd fe l within = ground (arith, slot-put fd fd fe l within)

module _ {R W : ℕ → ℕ → Type 0} {P : IoLoop → Type 0} where
  pub Kept-trans :
      {fd : ℕ} {l l₁ l₂ : IoLoop} → Kept R W P fd l l₁ → Kept R W P fd l₁ l₂ → Kept R W P fd l l₂
  Kept-trans p q = record { good = q.good; others = λ i n k. q.others i n (p.others i n k) }

  pub Kept-refl : {fd : ℕ} (l : IoLoop) → IsGood R W P l → Kept R W P fd l l
  Kept-refl l v = record { good = v; others = λ i n k. k }

  -- A new entry for a descriptor of the table.
  pub IsGood-put :
      (fd : ℕ) (fe : EsFile) (l : IoLoop)
      → ((l : IoLoop) (fds : List EsFile) → P l → P (record l { fds = fds }))
      → IsGood R W P l
      → leb (length l.fds) fd ≡ false
      → IsSlot fd fe (interest l.ctls fd)
      → Holds (R fd) fe.func_r
      → Holds (W fd) fe.func_w
      → IsGood R W P (put fd fe l)
  unfolding put
  IsGood-put fd fe l table v within new r w = record {
    synced = IsSynced-put fd fe l v.synced within new;
    manned = λ i. rw (slot-put fd i fe l within) (elim (Bool-cases (fd == i)) [
      | inl same ↦
          rw same (
            subst (λ j. Holds (R j) fe.func_r × Holds (W j) fe.func_w) ((==_iff fd i).0 same)
              (r, w))
      | inr other ↦ rw other (v.manned i)
    ]);
    extra = table l _ v.extra;
  }
