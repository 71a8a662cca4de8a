-- ===== src/IoLoop/Fds.antt =====
-- The descriptor table of io_loop: wait_fd and cancel_ev. Descriptors are not negative; C++ reads
-- outside the vector for a negative one. `epoll_ctl` gives the kernel's result of each call.
use nsio.Base.{
  ℕ, ◌+◌, ◌-◌, ◌^◌, Bool, not, List, ◌∷◌, ◌++◌, Option, none, some, leb, ◌==◌, if◌then◌else◌, [],
  bit_and, bit_or, length, get_or, set, replicate,
}
use nsio.Base.Int.{ℤ, pos, negsuc}
use nsio.IoLoop.{
  EsFile, IoLoop, assert_local, Ctl, ctl_add, ctl_mod, ctl_del, unused, epollin, epollout,
}

-- m & b
abbrev pub has : ℕ → ℕ → Bool
has m b = not (bit_and m b == 0)

-- m & ~b, for a 32-bit mask
abbrev pub clear : ℕ → ℕ → ℕ
clear m b = bit_and m (2 ^ 32 - 1 - b)

-- `_fds[fd]`
abbrev pub slot : IoLoop → ℕ → EsFile
slot l fd = get_or l.fds fd unused

-- The resize of wait_fd.
unfoldable pub grow : List EsFile → ℕ → List EsFile
grow fds fd = if leb (length fds) fd then fds ++ replicate (fd + 1 - length fds) unused else fds

-- A store to an entry of the table.
unfoldable pub put : ℕ → EsFile → IoLoop → IoLoop
put fd fe l = record l { fds = set l.fds fd fe }

-- wait_fd on the entry of `fd`: the entry after it, and the epoll_ctl call if it makes one.
unfoldable pub wait_slot : ℕ → ℕ → ℕ → EsFile → EsFile × Option Ctl
wait_slot type fd func fe = elim fe.fd [
  | none ↦
      let fresh = record fe { fd = some fd; event = type } in
      (
        if type == epollin
            then record fresh { func_r = some func }
            else if has type epollout
            then record fresh { func_w = some func }
            else fresh,
        some (ctl_add fd type),
      )
  | some _ ↦
      if has type epollin
      then (if has fe.event epollin then (record fe { func_r = some func }, none) else (
        record fe { func_r = some func; event = bit_or fe.event type },
        some (ctl_mod fd (bit_or fe.event type)),
      ))
      else (if has fe.event epollout then (record fe { func_w = some func }, none) else (
        record fe { func_w = some func; event = bit_or fe.event type },
        some (ctl_mod fd (bit_or fe.event type)),
      ))
]

-- cancel_ev on the entry of `fd`, which is in use.
unfoldable pub cancel_slot : ℕ → ℕ → EsFile → EsFile × Ctl
cancel_slot ev fd fe =
    let left = clear fe.event ev in
    if has left epollin
    then (record fe { event = left; func_w = none }, ctl_mod fd left)
    else if has left epollout
    then (record fe { event = left; func_r = none }, ctl_mod fd left)
    else (unused, ctl_del fd)

abbrev pub made : Option Ctl → List Ctl → List Ctl
made none cs = cs
made (some c) cs = c ∷ cs

-- wait_fd returns the kernel's result only where it adds the descriptor.
abbrev pub wait_result : (Ctl → ℤ) → Option Ctl → ℤ
wait_result epoll_ctl none = pos 0
wait_result epoll_ctl (some (ctl_add fd m)) = epoll_ctl (ctl_add fd m)
wait_result epoll_ctl (some (ctl_mod fd m)) = pos 0
wait_result epoll_ctl (some (ctl_del fd)) = pos 0

-- io_loop::wait_fd<type>
unfoldable pub wait_fd : (Ctl → ℤ) → ℕ → ℕ → ℕ → IoLoop → ℤ × IoLoop
unfolding grow
wait_fd epoll_ctl type fd func l =
    let fds = grow l.fds fd in
    let r = wait_slot type fd func (get_or fds fd unused) in
    (wait_result epoll_ctl r.1, record l { fds = set fds fd r.0; ctls = made r.1 l.ctls })

unfoldable pub wait_read : (Ctl → ℤ) → ℕ → ℕ → IoLoop → IoLoop
unfolding wait_fd
wait_read epoll_ctl fd func l = (wait_fd epoll_ctl epollin fd func l).1

unfoldable pub wait_write : (Ctl → ℤ) → ℕ → ℕ → IoLoop → IoLoop
unfolding wait_fd
wait_write epoll_ctl fd func l = (wait_fd epoll_ctl epollout fd func l).1

-- io_loop::cancel_ev
unfoldable pub cancel_ev : (Ctl → ℤ) → ℕ → ℕ → IoLoop → ℤ × IoLoop
cancel_ev epoll_ctl fd ev l =
    let l' = assert_local l in
    if leb (length l.fds) fd then (negsuc 0, l') else elim (slot l fd).fd [
      | none ↦ (pos 0, l')
      | some _ ↦
          let r = cancel_slot ev fd (slot l fd) in
          (epoll_ctl r.1, record l' { fds = set l.fds fd r.0; ctls = r.1 ∷ l.ctls })
    ]

unfoldable pub cancel_read : (Ctl → ℤ) → ℕ → IoLoop → IoLoop
unfolding cancel_ev
cancel_read epoll_ctl fd l = (cancel_ev epoll_ctl fd epollin l).1

unfoldable pub cancel_write : (Ctl → ℤ) → ℕ → IoLoop → IoLoop
unfolding cancel_ev
cancel_write epoll_ctl fd l = (cancel_ev epoll_ctl fd epollout l).1

unfoldable pub cancel_fdall : (Ctl → ℤ) → ℕ → IoLoop → IoLoop
unfolding cancel_ev
cancel_fdall epoll_ctl fd l = (cancel_ev epoll_ctl fd (bit_or epollin epollout) l).1

-- What the members of io_loop hold before the body of the constructor.
abbrev pub initial : IoLoop
initial = record {
  breaking = 0;
  thread_id = 0;
  g_timer_id = 0;
  fds = [];
  timer = [];
  async_funcs_tmp = [];
  async_funcs = [];
  ctls = [];
  wakes = 0;
  callbacks = 0;
  checked = [];
}

-- io_loop::io_loop on the descriptor `event_fd` of its eventfd; `this` is the loop itself.
unfoldable pub new_loop : (Ctl → ℤ) → ℕ → ℕ → IoLoop
unfolding wait_read
new_loop epoll_ctl event_fd this = wait_read epoll_ctl event_fd this initial

-- io_loop::~io_loop
unfoldable pub end_loop : ℕ → IoLoop → IoLoop
end_loop event_fd l = record l { ctls = ctl_del event_fd ∷ l.ctls }
