-- ===== src/Examples/Sockets.antt =====
-- A port that is taken, a clock that is read four times, and a line of the log.
use nsio.Base.{
  some, inl, inr, refl, ℕ, ◌+◌, ◌-◌, ◌*◌, ◌≤◌, ◌≡◌, ◌⊎◌, false, List, [], ◌∷◌, Option, none, arith,
  length,
}
use nsio.Base.Int.{ℤ, pos, negsuc}
use nsio.Zio.Sockets.{
  Syscall, socket, setsockopt, bind_to, connect_to, listen_at, close_fd, is_negative, bind_ip,
  listen_on, closes, listen_on-closes,
}
use nsio.Zio.{Reply, returned, failed, moved, writev, readv}
use nsio.Zio.Whole.{writev-readv_whole}
use nsio.Log.{
  Line, line_of, log_time, log_impl, log_print, log_info, log_error, log_errno, prefix_of, Prints,
  log_impl-Prints,
}
use nsio.Clock.{Zclock, pin_all, pins_measure}

-- Descriptor 5; listen(2) fails.
abbrev answer : Syscall → ℤ
answer (socket domain type) = pos 5
answer (setsockopt fd level name opt) = pos 0
answer (bind_to fd addr) = pos 0
answer (connect_to fd addr) = pos 0
answer (listen_at fd backlog) = negsuc 0
answer (close_fd fd) = pos 0

abbrev same : ℕ → ℕ
same n = n

abbrev any_addr : List ℕ → ℕ
any_addr ip = 0

abbrev unknown : List ℕ → List ℕ → Option (List ℕ)
unknown host port = none

listen_on-closes_example :
    let r = listen_on answer same same same any_addr unknown 8080 in
    ((r.0 ≡ pos 5)
      × (closes r.1 ≡ [])
      × (is_negative
            (bind_ip answer same same same any_addr unknown
              (pos 5)
              (48 ∷ 46 ∷ 48 ∷ 46 ∷ 48 ∷ 46 ∷ 48 ∷ [])
              8080).0
          ≡ false)
      × (is_negative (answer (listen_at (pos 5) (pos 1024))) ≡ false))
    ⊎ ((r.0 ≡ negsuc 0) × ((pos 5 ≡ negsuc 0) ⊎ (closes r.1 ≡ pos 5 ∷ [])))
listen_on-closes_example = listen_on-closes answer same same same any_addr unknown 8080

abbrev readings : List ℕ
readings = 1700 ∷ 2600 ∷ 4200 ∷ []

abbrev started : Zclock
started = record { m_start = 900 }

pins_measure_example :
    let r = pin_all 1000 readings started in
    (started.m_start ≤ r.1.m_start)
    × (r.0 * 1000 ≤ r.1.m_start - started.m_start)
    × (r.1.m_start - started.m_start ≤ r.0 * 1000 + length readings * (1000 - 1))
unfolding pin_all
pins_measure_example =
    pins_measure 1000 readings started (omega arith) (omega arith, (omega arith, (omega arith, tt)))
      (omega arith)

-- Seven bytes in two parts.
abbrev parts : List Reply
parts = failed 4 ∷ returned 3 ∷ failed 11 ∷ failed 4 ∷ returned 4 ∷ []

writev-readv_whole_example :
    (rest : List Reply) × (writev 6 7 0 parts ≡ some (moved 7, rest))
    × (readv 6 7 0 parts ≡ some (moved 7, rest))
writev-readv_whole_example = writev-readv_whole 7 parts refl (inr refl, (inl refl, (inr refl, tt)))

-- The day's text is left empty.
abbrev no_day : ℕ → List ℕ
no_day sec = []

abbrev place : List ℕ
place = 97 ∷ 58 ∷ 51 ∷ []

log_impl-Prints_example :
    (line : Line) × (log_impl no_day (73 ∷ []) 5000000 place (104 ∷ 105 ∷ 10 ∷ []) ≡ some line)
    × Prints
        (1 ∷ 2 ∷ [])
        (prefix_of no_day (73 ∷ []) 5000000 place)
        (104 ∷ 105 ∷ 10 ∷ [])
        (log_print (1 ∷ 2 ∷ []) line)
unfolding log_time
log_impl-Prints_example =
    log_impl-Prints no_day 5000000 place (73 ∷ []) (104 ∷ 105 ∷ 10 ∷ []) (1 ∷ 2 ∷ []) (omega arith)
      (omega arith)

-- "I .005 a:3 hi"
info_line :
    log_info no_day 5000000 place (104 ∷ 105 ∷ [])
    ≡ some
        (line_of (73 ∷ 32 ∷ 46 ∷ 48 ∷ 48 ∷ 53 ∷ 32 ∷ 97 ∷ 58 ∷ 51 ∷ 32 ∷ []) (104 ∷ 105 ∷ 10 ∷ []))
unfolding log_info log_impl log_time
info_line = refl

-- The text of errno follows the message.
errno_line :
    log_errno no_day 5000000 place (110 ∷ 111 ∷ []) (104 ∷ 105 ∷ [])
    ≡ log_error no_day 5000000 place (104 ∷ 105 ∷ 58 ∷ 110 ∷ 111 ∷ [])
unfolding log_errno log_error log_impl
errno_line = refl
