-- ===== src/IoLoop/Dispatch/Run.antt =====
-- io_loop::run as a whole: its turns one after the other, each with its batch of events and its timers.
use mathlib.Core.Logic.{◌≢◌}
use mathlib.Core.List.Perm
use nsio.Base.{
  ℕ, ◌≤◌, ◌<◌, ◌≡◌, refl, ap, inl, inr, true, false, List, [], ◌∷◌, none, some, ◌==◌, arith, length,
  leb, Bool-cases, length-perm, All,
}
use nsio.Base.Int.{ℤ}
use nsio.IoLoop.{EsTime, IoLoop}
use nsio.IoLoop.Epoll.{interest, IsSynced}
use nsio.IoLoop.Timers.{HeapAlgorithms, fire_timers, poll_timeout}
use nsio.IoLoop.Timers.Queue.{IsTimed, IsTimed-fewer, pop_timer-first}
use nsio.IoLoop.Dispatch.{EpollEvent, ready, failed, Turn, interrupted, dispatch_all, run_loop, run}
use nsio.IoLoop.Dispatch.Good.{IsGood, IsCallback}
use nsio.IoLoop.Dispatch.Safe.{Apart, dispatch_all_safe}

-- A loop whose table is good and whose timers are in order.
abbrev pub IsWell : (ℕ → ℕ → Type 0) → (ℕ → ℕ → Type 0) → IoLoop → Type 0
IsWell R W l = IsGood R W IsTimed l

-- What the virtual functions may do: those of a file as in a batch, and those of a timer may cancel
-- timers and wait for files, but not leave more timers than there were.
pub record IsHandler (R W : ℕ → ℕ → Type 0) (on_file : ℕ → ℕ → ℤ → IoLoop → IoLoop)
    (on_time : EsTime → IoLoop → IoLoop) : Type 0 where
  pub file : IsCallback R W IsTimed on_file
  pub time : (t : EsTime) (l : IoLoop) → IsWell R W l → IsWell R W (on_time t l)
  pub fewer : (t : EsTime) (l : IoLoop) → length (on_time t l).timer ≤ length l.timer

other_timer : (l : IoLoop) (ts : List EsTime) → IsSynced l → IsSynced (record l { timer = ts })
other_timer l ts v = record { slots = v.slots; accepted = v.accepted }

other_thread :
    {R W : ℕ → ℕ → Type 0} (l : IoLoop) (self : ℕ)
    → IsWell R W l
    → IsWell R W (record l { thread_id = self })
other_thread l self w = record {
  synced = record { slots = w.synced.slots; accepted = w.synced.accepted };
  manned = w.manned;
  extra = record { heap = w.extra.heap; given = w.extra.given; distinct = w.extra.distinct };
}

module _ (on_file : ℕ → ℕ → ℤ → IoLoop → IoLoop) (so_error : ℕ → ℕ) (std : HeapAlgorithms)
    (on_time : EsTime → IoLoop → IoLoop) where
  -- How the kernel and the clock meet a run: epoll_wait reports distinct descriptors that it watches,
  -- or fails; a turn has more readings of the clock than timers; and the turns last until the loop is
  -- told to break or epoll_wait fails for good.
  pub data Meets : List Turn → IoLoop → Type 0 where
    broken : {turns : List Turn} {l : IoLoop} → (l.breaking == 0) ≡ false → Meets turns l
    fails :
        {t : Turn} {turns : List Turn} {l : IoLoop} (e : ℕ)
        → (l.breaking == 0) ≡ true
        → t.epoll_wait (poll_timeout t.now l.timer) ≡ failed e
        → (e == interrupted) ≡ false
        → Meets (t ∷ turns) l
    retries :
        {t : Turn} {turns : List Turn} {l : IoLoop} (e : ℕ)
        → (l.breaking == 0) ≡ true
        → t.epoll_wait (poll_timeout t.now l.timer) ≡ failed e
        → (e == interrupted) ≡ true
        → Meets turns l
        → Meets (t ∷ turns) l
    serves :
        {t : Turn} {turns : List Turn} {l : IoLoop} (events : List EpollEvent)
        → (l.breaking == 0) ≡ true
        → t.epoll_wait (poll_timeout t.now l.timer) ≡ ready events
        → Apart events
        → All (λ (e : EpollEvent). interest l.ctls e.fd ≢ none) events
        → ((l₁ : IoLoop)
            → dispatch_all on_file so_error events l ≡ some l₁
            → length l₁.timer < length t.clock)
        → ((l₁ l₂ : IoLoop)
            → dispatch_all on_file so_error events l ≡ some l₁
            → fire_timers std on_time t.clock l₁ ≡ some l₂
            → Meets turns l₂)
        → Meets (t ∷ turns) l

  module _ {R W : ℕ → ℕ → Type 0} (h : IsHandler R W on_file on_time) where
    fire_timers-IsWell :
        (clock : List ℕ) (l : IoLoop) (ts : List EsTime)
        → l.timer ≡ ts
        → IsWell R W l
        → length ts < length clock
        → (l' : IoLoop) × (fire_timers std on_time clock l ≡ some l') × IsWell R W l'
    unfolding fire_timers
    fire_timers-IsWell [] l ts e w enough = absurd (omega arith)
    fire_timers-IsWell (now ∷ clock) l [] e w enough = (l, ground arith, w)
    fire_timers-IsWell (now ∷ clock) l (first ∷ ts) e w enough =
        elim (Bool-cases (leb first.when now)) [
          | inr later ↦ (l, ground arith, w)
          | inl due ↦
              let (rest, popped, ordered, perm, least) =
                pop_timer-first std l first ts w.extra.heap e in
              let l₁ : IoLoop = record l { timer = rest } in
              let w₁ : IsWell R W l₁ = record {
                synced = other_timer l rest w.synced;
                manned = w.manned;
                extra = IsTimed-fewer l first rest rest w.extra perm Perm.rfl ordered;
              } in
              let l₂ : IoLoop = on_time first l₁ in
              let sizes : length (first ∷ rest) ≡ length l.timer = length-perm perm in
              let (l', ran, w') =
                fire_timers-IsWell clock l₂ l₂.timer refl (h.time first l₁ w₁)
                  (omega (arith, sizes, ap length e, h.fewer first l₁)) in
              (l', rw (e, fire_timers, due, popped) ran, w')
        ]

    run_loop_safe :
        (turns : List Turn) (l : IoLoop)
        → IsWell R W l
        → Meets turns l
        → (l' : IoLoop) × (run_loop on_file so_error std on_time turns l ≡ some l') × IsWell R W l'
    unfolding run_loop
    run_loop_safe [] l w (broken stop) = (l, rw stop refl, w)
    run_loop_safe (t ∷ turns) l w (broken stop) = (l, rw (stop, run_loop) refl, w)
    run_loop_safe (t ∷ turns) l w (fails e going answer lasting) =
        (l, rw (going, run_loop, answer, lasting) refl, w)
    run_loop_safe (t ∷ turns) l w (retries e going answer again m) =
        let (l', ran, w') = run_loop_safe turns l w m in
        (l', rw (going, run_loop, answer, again) ran, w')
    run_loop_safe (t ∷ turns) l w (serves events going answer apart known enough next) =
        let (l₁, all, w₁) = dispatch_all_safe on_file so_error h.file events l w apart known in
        let (l₂, fired, w₂) = fire_timers-IsWell t.clock l₁ l₁.timer refl w₁ (enough l₁ all) in
        let (l', ran, w') = run_loop_safe turns l₂ w₂ (next l₁ l₂ all fired) in
        (l', rw (going, run_loop, answer, all, fired) ran, w')

    -- Take a loop whose table agrees with the kernel's interest set, whose objects that wait are of
    -- the right kind, and whose timers are a heap with distinct ids that were given out. Let the
    -- handlers keep this: those of files, called for a descriptor that is watched for their kind of
    -- event, give up no interest but in its descriptor; those of timers do not leave more timers
    -- than there were. If in each turn epoll_wait fails, or reports distinct descriptors that the
    -- kernel knows, and the clock is read once more often than there are timers, and the turns last
    -- until the loop is told to break or an error is not EINTR, then run returns, no assertion of
    -- it fails, and the loop is again as described.
    pub run_safe :
        (self : ℕ) (turns : List Turn) (l : IoLoop)
        → IsWell R W l
        → Meets turns (record l { thread_id = self })
        → (l' : IoLoop) × (run on_file so_error std on_time self turns l ≡ some l') × IsWell R W l'
    unfolding run
    run_safe self turns l w m =
        run_loop_safe turns (record l { thread_id = self }) (other_thread l self w) m
