-- ===== src/IoLoop/Dispatch.antt =====
-- io_loop::run: what it does with a batch of events, and the loop itself. `on_file` is the virtual
-- on_file_event of an object, with the descriptor of the entry that it gets; `none` is a failed
-- assertion. An entry is looked up anew where C++ keeps a reference to it, which a resize of the table
-- in a callback leaves dangling.
pub mod Good
pub mod Safe
pub mod Run
pub mod Calls
pub mod Local
use nsio.Base.{
  ℕ, ◌≡◌, Bool, true, false, not, List, [], ◌∷◌, Option, none, some, leb, ◌==◌, ◌&&◌, if◌then◌else◌,
  length,
}
use nsio.Base.Int.{ℤ, pos, neg}
use nsio.IoLoop.{EsTime, IoLoop, epollin, epollout}
use nsio.IoLoop.Fds.{has, slot, put}
use nsio.IoLoop.Timers.{HeapAlgorithms, poll_timeout, fire_timers}

-- struct epoll_event
pub record EpollEvent : Type 0 where
  pub fd : ℕ
  pub events : ℕ

-- EPOLLERR | EPOLLHUP | EPOLLRDHUP
abbrev pub ev_err : ℕ
ev_err = 0x2018

-- EINTR
abbrev interrupted : ℕ
interrupted = 4

-- What epoll_wait(2) returns: the events, or -1 with errno.
pub data Waited : Type 0 where
  ready : List EpollEvent → Waited
  failed : ℕ → Waited

-- What one turn of the loop meets: a reading of the clock, epoll_wait's answer to a timeout, and the
-- readings of the clock between the timers.
pub record Turn : Type 0 where
  pub now : ℕ
  pub epoll_wait : ℕ → Waited
  pub clock : List ℕ

module _ (on_file : ℕ → ℕ → ℤ → IoLoop → IoLoop) (so_error : ℕ → ℕ) where
  -- The callback for writing is taken out of the entry and called, if there is one.
  unfoldable pub call_w : ℕ → ℤ → IoLoop → IoLoop
  unfolding put
  call_w fd event l = elim (slot l fd).func_w [
    | none ↦ l
    | some f ↦ on_file f fd event (put fd (record (slot l fd) { func_w = none }) l)
  ]

  unfoldable pub call_r : ℕ → ℤ → IoLoop → IoLoop
  unfolding put
  call_r fd event l = elim (slot l fd).func_r [
    | none ↦ l
    | some f ↦ on_file f fd event (put fd (record (slot l fd) { func_r = none }) l)
  ]

  -- if (fe._func_w && (events & EV_OUT)), with EM_WRITE
  unfoldable pub ready_w : ℕ → ℕ → IoLoop → Option IoLoop
  unfolding call_w
  ready_w fd events l = elim (slot l fd).func_w [
    | none ↦ some l
    | some _ ↦
        if has events epollout
        then (if has (slot l fd).event epollout then some (call_w fd (pos 2) l) else none)
        else some l
  ]

  -- if (fe._func_r && (events & EV_IN)), with EM_READ
  unfoldable pub ready_r : ℕ → ℕ → IoLoop → Option IoLoop
  unfolding call_r
  ready_r fd events l = elim (slot l fd).func_r [
    | none ↦ some l
    | some _ ↦
        if has events epollin
        then (if has (slot l fd).event epollin then some (call_r fd (pos 1) l) else none)
        else some l
  ]

  -- The body of the loop over the events; `so_error fd` is the socket's pending error, 0 for what is
  -- no socket.
  unfoldable pub dispatch_event : EpollEvent → IoLoop → Option IoLoop
  unfolding ready_w ready_r
  dispatch_event e l = if leb (length l.fds) e.fd then some l else elim (slot l e.fd).fd [
    | none ↦ none
    | some _ ↦
        if has e.events ev_err
        then some (call_r e.fd (neg (so_error e.fd)) (call_w e.fd (neg (so_error e.fd)) l))
        else elim (ready_w e.fd e.events l) [ none ↦ none | some l₁ ↦ ready_r e.fd e.events l₁ ]
  ]

  unfoldable pub dispatch_all : List EpollEvent → IoLoop → Option IoLoop
  unfolding dispatch_event
  dispatch_all [] l = some l
  dispatch_all (e ∷ es) l = elim (dispatch_event e l) [ none ↦ none | some l₁ ↦ dispatch_all es l₁ ]

  -- The loop of run; `none` also where the turns run out.
  unfoldable pub run_loop :
      HeapAlgorithms → (EsTime → IoLoop → IoLoop) → List Turn → IoLoop → Option IoLoop
  unfolding dispatch_all fire_timers poll_timeout
  run_loop std on_time [] l = if l.breaking == 0 then none else some l
  run_loop std on_time (t ∷ turns) l = elim (l.breaking == 0) [
    | false ↦ some l
    | true ↦ elim (t.epoll_wait (poll_timeout t.now l.timer)) [
      | failed e ↦ elim (e == interrupted) [ true ↦ run_loop std on_time turns l | false ↦ some l ]
      | ready events ↦ elim (dispatch_all events l) [
        | none ↦ none
        | some l₁ ↦ elim (fire_timers std on_time t.clock l₁) [
          | none ↦ none
          | some l₂ ↦ run_loop std on_time turns l₂
        ]
      ]
    ]
  ]

  -- io_loop::run by the thread `self`
  unfoldable pub run :
      HeapAlgorithms → (EsTime → IoLoop → IoLoop) → ℕ → List Turn → IoLoop → Option IoLoop
  unfolding run_loop
  run std on_time self turns l = run_loop std on_time turns (record l { thread_id = self })

-- io_loop::break_run
unfoldable pub break_run : IoLoop → IoLoop
break_run l = record l { breaking = 1 }
