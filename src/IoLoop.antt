-- ===== src/IoLoop.antt =====
-- coio/io_loop.h: the epoll loop. A callback is the number of its object (`none` is nullptr), a
-- time is in nanoseconds, a function posted by another thread is a number too.
-- Fds: the table of descriptors; Epoll: what the kernel holds of it; Timers: the timer heap;
-- Async: functions of other threads, and Wakeup their interleavings; Watch: what the table stands for;
-- Dispatch: the loop, and the batches of events in it.
pub mod Fds
pub mod Epoll
mod Table
pub mod Synced
pub mod Watch
pub mod Timers
pub mod Async
pub mod Wakeup
pub mod Dispatch
use nsio.Base.{ℕ, List, [], ◌∷◌, Option, none}

-- struct es_file; `_fd` is `none` for -1.
pub record EsFile : Type 0 where
  pub fd : Option ℕ
  pub event : ℕ
  pub func_w : Option ℕ
  pub func_r : Option ℕ

abbrev pub unused : EsFile
unused = record { fd = none; event = 0; func_w = none; func_r = none }

-- struct es_time
pub record EsTime : Type 0 where
  pub id : ℕ
  pub when : ℕ
  pub func : ℕ

-- The calls that Epoll_ctl_add, Epoll_ctl_mod and Epoll_ctl_del make, with descriptor and mask.
pub data Ctl : Type 0 where
  ctl_add ctl_mod : ℕ → ℕ → Ctl
  ctl_del : ℕ → Ctl

-- struct io_loop. `ctls` lists the epoll_ctl calls made, latest first; `wakes` counts the calls of
-- eventfd_write, `callbacks` the calls of virtual functions, where a model of these counts them, and
-- `checked` the values of m_thread_id that assert(is_local_thread()) has found, which fails in a thread
-- with another id.
pub record IoLoop : Type 0 where
  pub breaking : ℕ
  pub thread_id : ℕ
  pub g_timer_id : ℕ
  pub fds : List EsFile
  pub timer : List EsTime
  pub async_funcs_tmp : List ℕ
  pub async_funcs : List ℕ
  pub ctls : List Ctl
  pub wakes : ℕ
  pub callbacks : ℕ
  pub checked : List ℕ

-- Linux's EPOLLIN and EPOLLOUT.
abbrev pub epollin : ℕ
epollin = 0x1

abbrev pub epollout : ℕ
epollout = 0x4

-- assert(is_local_thread())
abbrev pub assert_local : IoLoop → IoLoop
assert_local l = record l { checked = l.thread_id ∷ l.checked }
