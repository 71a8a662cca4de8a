-- ===== src/Zio/Sockets.antt =====
-- common/zio.h: socket options, addresses, and the calls that set up a socket. Each function gives what
-- it returns and its system calls, in order; `answer` is what the system returns for a call. Reports to
-- the log are left out.
use nsio.Base.{
  ℕ, zero, suc, ◌/◌, ◌%◌, ◌*◌, ◌^◌, ◌≡◌, ◌⊎◌, refl, inl, inr, Bool, true, false, List, [], ◌∷◌,
  ◌++◌, Option, none, some, if◌then◌else◌, take, Bool-cases,
}
use nsio.Base.Int.{ℤ, pos, negsuc, neg}

-- A pointer to a sockaddr: null, an IPv4 address, the path of a UNIX socket, or other bytes.
pub data Sockaddr : Type 0 where
  nullptr : Sockaddr
  inet : (s_addr port : ℕ) → Sockaddr
  unix : List ℕ → Sockaddr
  raw : List ℕ → Sockaddr

pub data Sockopt : Type 0 where
  int : ℤ → Sockopt
  timeval : (sec usec : ℤ) → Sockopt

pub data Syscall : Type 0 where
  socket : (domain type : ℕ) → Syscall
  setsockopt : (fd : ℤ) (level name : ℕ) (opt : Sockopt) → Syscall
  bind_to : (fd : ℤ) (addr : Sockaddr) → Syscall
  connect_to : (fd : ℤ) (addr : Sockaddr) → Syscall
  listen_at : (fd backlog : ℤ) → Syscall
  close_fd : (fd : ℤ) → Syscall

abbrev pub Calls : Type 0
Calls = ℤ × List Syscall

-- Calls in sequence.
abbrev pub then_call : List Syscall → Calls → Calls
then_call first r = (r.0, first ++ r.1)

abbrev pub is_negative : ℤ → Bool
is_negative (pos n) = false
is_negative (negsuc n) = true

abbrev is_zero : ℤ → Bool
is_zero (pos zero) = true
is_zero (pos (suc n)) = false
is_zero (negsuc n) = false

-- C's / and % of an int by a positive number, which drop the fraction.
abbrev trunc_div : ℤ → ℕ → ℤ
trunc_div (pos n) d = pos (n / d)
trunc_div (negsuc n) d = neg (suc n / d)

abbrev trunc_rem_mul : ℤ → ℕ → ℕ → ℤ
trunc_rem_mul (pos n) d k = pos (n % d * k)
trunc_rem_mul (negsuc n) d k = neg (suc n % d * k)

-- The descriptors that calls close.
abbrev pub closes : List Syscall → List ℤ
closes [] = []
closes (close_fd fd ∷ cs) = fd ∷ closes cs
closes (socket domain type ∷ cs) = closes cs
closes (setsockopt fd level name opt ∷ cs) = closes cs
closes (bind_to fd addr ∷ cs) = closes cs
closes (connect_to fd addr ∷ cs) = closes cs
closes (listen_at fd backlog ∷ cs) = closes cs

-- zio::get_local_ip, by the address that getsockname finds
unfoldable pub get_local_ip : (ℕ → List ℕ) → Option ℕ → List ℕ
get_local_ip inet_ntoa none = []
get_local_ip inet_ntoa (some sin_addr) = inet_ntoa sin_addr

module _ (answer : Syscall → ℤ) where
  abbrev syscall : Syscall → Calls
  syscall c = (answer c, c ∷ [])

  unfoldable pub setoption : ℤ → ℕ → ℕ → Sockopt → Calls
  setoption fd level name opt = syscall (setsockopt fd level name opt)

  -- IPPROTO_TCP, TCP_NODELAY
  unfoldable pub setnodelay : ℤ → Bool → Calls
  unfolding setoption
  setnodelay fd nodelay = setoption fd 6 1 (int (if nodelay then pos 1 else pos 0))

  -- SOL_SOCKET, SO_REUSEADDR
  unfoldable pub setreuseaddr : ℤ → Bool → Calls
  unfolding setoption
  setreuseaddr fd reuse = setoption fd 1 2 (int (if reuse then pos 1 else pos 0))

  -- One of the two buffers of setiobuf: 0 leaves it, a failure ends the function.
  unfoldable pub set_one : ℤ → ℕ → ℤ → Calls → Calls
  unfolding setoption
  set_one fd name size next =
      let r = setoption fd 1 name (int size) in
      if is_zero size then next else if is_negative r.0 then (negsuc 0, r.1) else then_call r.1 next

  -- SO_SNDBUF, SO_RCVBUF
  unfoldable pub setiobuf : ℤ → ℤ → ℤ → Calls
  unfolding set_one
  setiobuf fd send_size recv_size = set_one fd 7 send_size (set_one fd 8 recv_size (pos 0, []))

  -- SO_RCVTIMEO, on Linux
  unfoldable pub setrecvtimeo : ℤ → ℤ → Calls
  unfolding setoption
  setrecvtimeo fd tmout_ms =
      setoption fd 1 20 (timeval (trunc_div tmout_ms 1000) (trunc_rem_mul tmout_ms 1000 1000))

  -- SO_SNDTIMEO, on Linux
  unfoldable pub setsendtimeo : ℤ → ℤ → Calls
  unfolding setoption
  setsendtimeo fd tmout_ms =
      setoption fd 1 21 (timeval (trunc_div tmout_ms 1000) (trunc_rem_mul tmout_ms 1000 1000))

  unfoldable pub close : ℤ → Calls
  close (pos n) = syscall (close_fd (pos n))
  close (negsuc zero) = (pos 0, [])
  close (negsuc (suc n)) = syscall (close_fd (negsuc (suc n)))

  -- socket(AF_INET, SOCK_STREAM, 0), and for AF_UNIX
  unfoldable pub build_stream : Calls
  build_stream = syscall (socket 2 1)

  unfoldable pub build_stream_unix_domain : Calls
  build_stream_unix_domain = syscall (socket 1 1)

  -- zio::bind and zio::connect of an address
  unfoldable pub bind : ℤ → Sockaddr → Calls
  bind fd sa = syscall (bind_to fd sa)

  unfoldable pub connect : ℤ → Sockaddr → Calls
  connect fd sa = syscall (connect_to fd sa)

  module _ (htonl ntohl htons : ℕ → ℕ) (inet_addr : List ℕ → ℕ)
      (getaddrinfo : List ℕ → List ℕ → Option (List ℕ)) where
    -- build_addr by number; `ip` and `port` are ints, of which 32 and 16 bits count.
    unfoldable pub build_addr : ℕ → ℕ → Sockaddr
    build_addr ip port = inet (htonl (ip % 2 ^ 32)) (htons (port % 2 ^ 16))

    unfoldable pub build_addr_of_ip : List ℕ → ℕ → Sockaddr
    unfolding build_addr
    build_addr_of_ip ip port = build_addr (ntohl (inet_addr ip)) port

    -- By name: the first 16 bytes of the first address, of whatever family.
    unfoldable pub build_addr_of_host : List ℕ → List ℕ → Sockaddr
    build_addr_of_host host port = elim (getaddrinfo host port) [
      | none ↦ nullptr
      | some addr ↦ raw (take 16 addr)
    ]

    unfoldable pub bind_ip : ℤ → List ℕ → ℕ → Calls
    unfolding build_addr_of_ip bind
    bind_ip fd ip port = bind fd (build_addr_of_ip ip port)

    unfoldable pub bind_inaddr : ℤ → ℕ → ℕ → Calls
    unfolding build_addr bind
    bind_inaddr fd inaddr port = bind fd (build_addr inaddr port)

    unfoldable pub connect_inaddr : ℤ → ℕ → ℕ → Calls
    unfolding build_addr connect
    connect_inaddr fd inaddr port = connect fd (build_addr inaddr port)

    unfoldable pub connect_ip : ℤ → List ℕ → ℕ → Calls
    unfolding build_addr_of_ip connect
    connect_ip fd host port = connect fd (build_addr_of_ip host port)

    unfoldable pub connect_host : ℤ → List ℕ → List ℕ → Calls
    unfolding build_addr_of_host connect
    connect_host fd host port = connect fd (build_addr_of_host host port)

    unfoldable pub connect_domain : ℤ → List ℕ → Calls
    unfolding connect
    connect_domain fd socket_path = connect fd (unix socket_path)

    unfoldable pub listen : ℤ → List ℕ → ℕ → ℤ → Calls
    unfolding setnodelay setreuseaddr bind_ip
    listen fd ip port backlog =
        let options = (setnodelay fd true).1 ++ (setreuseaddr fd true).1 in
        let bound = bind_ip fd ip port in
        then_call (options ++ bound.1)
          (if is_negative bound.0 then (negsuc 0, []) else syscall (listen_at fd backlog))

    -- "0.0.0.0", in ASCII
    abbrev any_ip : List ℕ
    any_ip = 48 ∷ 46 ∷ 48 ∷ 46 ∷ 48 ∷ 46 ∷ 48 ∷ []

    unfoldable pub listen_on : ℕ → Calls
    unfolding build_stream setreuseaddr listen close
    listen_on port =
        let opened = build_stream in
        let fd = opened.0 in
        let listened = listen fd any_ip port (pos 1024) in
        then_call (opened.1 ++ ((setreuseaddr fd true).1 ++ listened.1))
          (if is_negative listened.0 then (negsuc 0, (close fd).1) else (fd, []))

    closes-close : (fd : ℤ) → (fd ≡ negsuc 0) ⊎ (closes (close fd).1 ≡ fd ∷ [])
    unfolding close
    closes-close (pos n) = inr refl
    closes-close (negsuc zero) = inl refl
    closes-close (negsuc (suc n)) = inr refl

    -- listen_on returns the descriptor of its socket, has closed nothing, and bind and listen have
    -- succeeded; or it returns -1, and there was no socket or it has been closed, once.
    pub listen_on-closes :
        (port : ℕ)
        → let fd = answer (socket 2 1) in
          let r = listen_on port in
          ((r.0 ≡ fd)
            × (closes r.1 ≡ [])
            × (is_negative (bind_ip fd any_ip port).0 ≡ false)
            × (is_negative (answer (listen_at fd (pos 1024))) ≡ false))
          ⊎ ((r.0 ≡ negsuc 0) × ((fd ≡ negsuc 0) ⊎ (closes r.1 ≡ fd ∷ [])))
    unfolding listen_on listen setnodelay setreuseaddr setoption bind_ip bind build_stream
    listen_on-closes port =
        let fd = answer (socket 2 1) in
        elim (Bool-cases (is_negative (bind_ip fd any_ip port).0)) [
          | inl unbound ↦ rw unbound (inr (refl, closes-close fd))
          | inr bound ↦ elim (Bool-cases (is_negative (answer (listen_at fd (pos 1024))))) [
            | inl deaf ↦ rw (bound, deaf) (inr (refl, closes-close fd))
            | inr listening ↦ rw (bound, listening) (inl (refl, refl, refl, refl))
          ]
        ]
