-- ===== src/IoLoop/Wakeup.antt =====
-- The loop's thread and the threads that post functions to it, one shared access at a time:
-- io_loop::async, break_run, the loop's test of m_breaking with epoll_wait's report of the eventfd,
-- and io_loop::on_file_event. The lock makes each use
-- of the queue one step. A write to the eventfd is taken to succeed: its counter has 64 bits.
pub mod Invariant
pub mod Drained
use nsio.Base.{ℕ, suc, ◌+◌, ◌<◌, ◌≡◌, ◌⊎◌, Bool, true, false, List, [], ◌∷◌, ◌++◌}

-- Where the loop's thread stands: elsewhere in the loop; at the head of on_file_event; before the swap;
-- in the loop over _async_funcs_tmp, with the functions still to be called.
pub data Phase : Type 0 where
  away : Phase
  entered : Phase
  emptied : Phase
  calling : List ℕ → Phase

-- `count` is the eventfd's counter; `waking` counts the threads between the unlock and eventfd_write;
-- `posted` and `called` list the functions posted and called so far. `breaking` is m_breaking, and
-- `passed` says whether the loop's thread was past its test when that was set.
pub record Shared : Type 0 where
  pub async_funcs : List ℕ
  pub async_funcs_tmp : List ℕ
  pub count : ℕ
  pub waking : ℕ
  pub phase : Phase
  pub posted : List ℕ
  pub called : List ℕ
  pub breaking : Bool
  pub passed : Bool

abbrev pub silent : Shared
silent = record {
  async_funcs = [];
  async_funcs_tmp = [];
  count = 0;
  waking = 0;
  phase = away;
  posted = [];
  called = [];
  breaking = false;
  passed = false;
}

-- A step of any thread but a call of async or break_run. epoll_wait is called after the test of
-- m_breaking.
pub data Works (s : Shared) : Shared → Type 0 where
  write : (w : ℕ) → s.waking ≡ suc w → Works s (record s { waking = w; count = s.count + 1 })
  report :
      s.phase ≡ away
      → 0 < s.count
      → (s.breaking ≡ false) ⊎ (s.passed ≡ true)
      → Works s (record s { phase = entered })
  read : s.phase ≡ entered → Works s (record s { count = 0; phase = emptied })
  swap :
      s.phase ≡ emptied
      → Works s (record s {
        async_funcs = s.async_funcs_tmp;
        async_funcs_tmp = s.async_funcs;
        phase = calling s.async_funcs;
      })
  invoke :
      (f : ℕ) (fs : List ℕ)
      → s.phase ≡ calling (f ∷ fs)
      → Works s (record s { phase = calling fs; called = s.called ++ f ∷ [] })
  clear :
      s.phase ≡ calling []
      → Works s (record s { async_funcs_tmp = []; phase = away; passed = false })

-- emplace_back under the lock, by any thread and for any function; break_run by any thread, where `b`
-- says whether the loop's thread has made its test; that thread on its way back to the test; or another
-- step.
pub data Step (s : Shared) : Shared → Type 0 where
  emplace :
      (f : ℕ)
      → Step s (record s {
        async_funcs = s.async_funcs ++ f ∷ [];
        waking = s.waking + 1;
        posted = s.posted ++ f ∷ [];
      })
  break_run : (b : Bool) → s.breaking ≡ false → Step s (record s { breaking = true; passed = b })
  turn : s.phase ≡ away → Step s (record s { passed = false })
  works : {t : Shared} → Works s t → Step s t

pub data Reach : Shared → Type 0 where
  start : Reach silent
  later : {s t : Shared} → Reach s → Step s t → Reach t

-- A run of n steps in which nothing is posted and break_run is not called.
pub data Run (s : Shared) : ℕ → Shared → Type 0 where
  stop : Run s 0 s
  go : {n : ℕ} {t u : Shared} → Run s n t → Works t u → Run s (suc n) u
