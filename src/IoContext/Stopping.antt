-- ===== src/IoContext/Stopping.antt =====
-- The thread that calls run_worker and then stop, beside the thread of the loop: io_context.cpp's
-- thread_func, run_worker and stop, and the test of m_breaking in io_loop::run. A turn of the loop ends.
use nsio.Base.{ℕ, ◌+◌, suc, ◌≤◌, ◌<◌, ◌≡◌, refl, ◌≢◌, ◌⊎◌, inl, inr, Bool, true, false, ◌||◌, arith}

-- In run_worker, which waits for the promise; between the calls; in stop, which joins; and after it.
pub data Owner : Type 0 where
  starting using stopping stopped : Owner

-- Before the promise is set; before run; at the loop's test; in a turn; and after run.
pub data Worker : Type 0 where
  created ready testing serving ended : Worker

-- The two threads and m_breaking.
pub data Threads : Type 0 where
  threads : Owner → Worker → Bool → Threads

-- The new thread, and run_worker at its wait.
abbrev pub launched : Threads
launched = threads starting created false

pub data Step : Threads → Threads → Type 0 where
  -- ready.set_value()
  fulfils : {o : Owner} {b : Bool} → Step (threads o created b) (threads o ready b)
  -- run_worker returns.
  returns : {w : Worker} {b : Bool} → w ≢ created → Step (threads starting w b) (threads using w b)
  enters : {o : Owner} {b : Bool} → Step (threads o ready b) (threads o testing b)
  turns : {o : Owner} → Step (threads o testing false) (threads o serving false)
  -- A turn ends, in which a callback may have called break_run.
  tests_again :
      {o : Owner} {b : Bool} (broke : Bool)
      → Step (threads o serving b) (threads o testing (b || broke))
  -- epoll_wait fails for good.
  gives_up : {o : Owner} {b : Bool} → Step (threads o serving b) (threads o ended b)
  leaves : {o : Owner} → Step (threads o testing true) (threads o ended true)
  -- stop, up to its join.
  breaks : {w : Worker} {b : Bool} → Step (threads using w b) (threads stopping w true)
  joins : {b : Bool} → Step (threads stopping ended b) (threads stopped ended b)

pub data Reach : Threads → Type 0 where
  start : Reach launched
  later : {s t : Threads} → Reach s → Step s t → Reach t

-- A run of so many steps.
pub data Steps : ℕ → Threads → Threads → Type 0 where
  done : {s : Threads} → Steps 0 s s
  onward : {n : ℕ} {s t u : Threads} → Step s t → Steps n t u → Steps (suc n) s u

-- Once stop is in its join, the new thread has begun and the loop is told to break; once stop has
-- returned, the thread has ended.
abbrev IsSound : Threads → Type 0
IsSound (threads starting w b) = Unit {0}
IsSound (threads using w b) = w ≢ created
IsSound (threads stopping w b) = (b ≡ true) × (w ≢ created)
IsSound (threads stopped w b) = w ≡ ended

-- A step of the loop's thread.
moves :
    (o : Owner) {w w' : Worker} {b b' : Bool}
    → w ≢ ended
    → w' ≢ created
    → (b ≡ true → b' ≡ true)
    → IsSound (threads o w b)
    → IsSound (threads o w' b')
moves starting going begun kept v = tt
moves using going begun kept v = begun
moves stopping going begun kept (told, v) = (kept told, begun)
moves stopped going begun kept v = absurd (going v)

Step-IsSound : {s t : Threads} → IsSound s → Step s t → IsSound t
Step-IsSound v (fulfils {o = o}) = moves o (λ e. cc) (λ e. cc) (λ e. e) v
Step-IsSound v (returns begun) = begun
Step-IsSound v (enters {o = o}) = moves o (λ e. cc) (λ e. cc) (λ e. e) v
Step-IsSound v (turns {o = o}) = moves o (λ e. cc) (λ e. cc) (λ e. e) v
Step-IsSound v (tests_again {o = o} broke) = moves o (λ e. cc) (λ e. cc) (λ e. rw e refl) v
Step-IsSound v (gives_up {o = o}) = moves o (λ e. cc) (λ e. cc) (λ e. e) v
Step-IsSound v (leaves {o = o}) = moves o (λ e. cc) (λ e. cc) (λ e. e) v
Step-IsSound v breaks = (refl, v)
Step-IsSound v joins = refl

invariant_holds : {s : Threads} → Reach s → IsSound s
invariant_holds start = tt
invariant_holds (later r st) = Step-IsSound (invariant_holds r) st

-- stop has been called.
abbrev IsCalled : Threads → Type 0
IsCalled (threads starting w b) = ⊥
IsCalled (threads using w b) = ⊥
IsCalled (threads stopping w b) = Unit {0}
IsCalled (threads stopped w b) = Unit {0}

-- How many steps are left then.
abbrev left : Worker → ℕ
left created = 4
left ready = 3
left testing = 2
left serving = 3
left ended = 1

abbrev rank : Threads → ℕ
rank (threads starting w b) = 0
rank (threads using w b) = 0
rank (threads stopping w b) = left w
rank (threads stopped w b) = 0

abbrev Goes : Threads → Threads → Type 0
Goes s t = IsCalled t × (rank t < rank s)

nearer :
    (o : Owner) (w w' : Worker) (b b' : Bool)
    → w ≢ ended
    → left w' < left w
    → IsSound (threads o w b)
    → IsCalled (threads o w b)
    → Goes (threads o w b) (threads o w' b')
nearer starting w w' b b' going less v c = elim c [ ]
nearer using w w' b b' going less v c = elim c [ ]
nearer stopping w w' b b' going less v c = (tt, less)
nearer stopped w w' b b' going less v c = absurd (going v)

Step-Goes : {s t : Threads} → IsSound s → IsCalled s → Step s t → Goes s t
Step-Goes v c (fulfils {o = o}) = nearer o _ _ _ _ (λ e. cc) (omega arith) v c
Step-Goes v c (returns begun) = elim c [ ]
Step-Goes v c (enters {o = o}) = nearer o _ _ _ _ (λ e. cc) (omega arith) v c
Step-Goes v c (turns {o = starting}) = elim c [ ]
Step-Goes v c (turns {o = using}) = elim c [ ]
Step-Goes v c (turns {o = stopping}) = let told : false ≡ true = v.0 in cc
Step-Goes v c (turns {o = stopped}) = let over : testing ≡ ended = v in cc
Step-Goes v c (tests_again {o = o} broke) = nearer o _ _ _ _ (λ e. cc) (omega arith) v c
Step-Goes v c (gives_up {o = o}) = nearer o _ _ _ _ (λ e. cc) (omega arith) v c
Step-Goes v c (leaves {o = o}) = nearer o _ _ _ _ (λ e. cc) (omega arith) v c
Step-Goes v c breaks = elim c [ ]
Step-Goes v c joins = (tt, omega arith)

Steps-rank :
    {n : ℕ} {s t : Threads}
    → IsSound s
    → IsCalled s
    → Steps n s t
    → (n + rank t ≤ rank s) × IsSound t × IsCalled t
Steps-rank v c done = (omega arith, v, c)
Steps-rank v c (onward st r) =
    let (called, less) = Step-Goes v c st in
    let (few, sound, still) = Steps-rank (Step-IsSound v st) called r in
    (omega (arith, few, less), sound, still)

-- stop has returned, and the thread of the loop has ended.
abbrev pub IsJoined : Threads → Type 0
IsJoined (threads starting w b) = ⊥
IsJoined (threads using w b) = ⊥
IsJoined (threads stopping w b) = ⊥
IsJoined (threads stopped w b) = w ≡ ended

goes_on : (s : Threads) → IsSound s → IsCalled s → IsJoined s ⊎ ((t : Threads) × Step s t)
goes_on (threads starting w b) v c = elim c [ ]
goes_on (threads using w b) v c = elim c [ ]
goes_on (threads stopping created b) (told, begun) c = absurd (begun refl)
goes_on (threads stopping ready b) v c = inr (_, enters)
goes_on (threads stopping testing b) (told, begun) c =
    inr (threads stopping ended true, rw told leaves)
goes_on (threads stopping serving b) v c = inr (_, gives_up)
goes_on (threads stopping ended b) v c = inr (_, joins)
goes_on (threads stopped w b) v c = inl v

few_left : (w : Worker) → w ≢ created → left w ≤ 3
few_left created begun = absurd (begun refl)
few_left ready begun = omega arith
few_left testing begun = omega arith
few_left serving begun = omega arith
few_left ended begun = omega arith

-- Take any interleaving of the thread that calls run_worker and then stop with the thread of the
-- loop, whose turns end. Once stop is waiting for the thread, at most three further steps are
-- possible; and until stop has returned and the thread has ended, a further step is.
pub stop_joins :
    {w : Worker} {b : Bool} {n : ℕ} {t : Threads}
    → Reach (threads stopping w b)
    → Steps n (threads stopping w b) t
    → (n ≤ 3) × (IsJoined t ⊎ ((u : Threads) × Step t u))
stop_joins {w = w} {b = b} {t = t} r run =
    let v = invariant_holds r in
    let (few, sound, still) = Steps-rank v tt run in
    (omega (arith, few, few_left w v.1), goes_on t sound still)
