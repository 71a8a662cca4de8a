-- ===== src/Log.antt =====
-- common/log.h: a line of the log, for each level, and what fwrite takes of it. Texts are lists of bytes; what printf makes of a format and its
-- arguments is given, the message with its line feed.
use nsio.Base.{
  ℕ, ◌+◌, ◌-◌, ◌≤◌, ◌<◌, ◌≡◌, ◌⊎◌, List, [], ◌∷◌, ◌++◌, Option, none, some, suc, true, inl, inr,
  refl, arith, ltb, leb, leb→le, leb→gt, Bool-cases, take_all, take_past, length-append,
  length-take, take-length-append, if◌then◌else◌, length, take,
}
use nsio.Clock.{now_ms_text_now}

-- The bytes written to _log_buf_, without the 0 at their end, and the number of bytes that fwrite is
-- told to take from it.
pub record Line : Type 0 where
  pub written : List ℕ
  pub len : ℕ

-- _log_time
unfoldable pub log_time : (ℕ → List ℕ) → ℕ → List ℕ × ℕ
unfolding now_ms_text_now
log_time strftime now = now_ms_text_now strftime now

-- What stands before the message: the level, the time, and the file with its line.
abbrev pub prefix_of : (ℕ → List ℕ) → List ℕ → ℕ → List ℕ → List ℕ
prefix_of strftime level now place =
    level ++ (32 ∷ ((log_time strftime now).0 ++ (32 ∷ (place ++ 32 ∷ []))))

-- The line of a message after what stands before it. snprintf writes all but one byte of its size, and
-- returns the length that the whole message has.
abbrev pub line_of : List ℕ → List ℕ → Line
line_of prefix message = record {
  written = prefix ++ take (4096 - length prefix - 1 - 1) message;
  len = length prefix + length message;
}

-- log_impl, where `place` is the text of "%s:%d"; `none` where the parts before the message and their 0
-- do not fit into the 4096 bytes.
unfoldable pub log_impl : (ℕ → List ℕ) → List ℕ → ℕ → List ℕ → List ℕ → Option Line
unfolding log_time
log_impl strftime level now place message =
    let prefix = prefix_of strftime level now place in
    if ltb (length prefix) 4096 then some (line_of prefix message) else none

-- _log_print: the bytes that fwrite takes from the buffer, whose text ends with a 0; `beyond` is what
-- the memory after that holds.
unfoldable pub log_print : List ℕ → Line → List ℕ
log_print beyond line = take line.len (line.written ++ 0 ∷ beyond)

-- What is printed of a message: all of it, or what fits, its 0, and what stands in memory after that.
abbrev pub Prints : List ℕ → List ℕ → List ℕ → List ℕ → Type 0
Prints beyond prefix message printed =
    ((length prefix + length message ≤ 4094) × (printed ≡ prefix ++ message))
    ⊎ ((4094 < length prefix + length message)
        × (printed
            ≡ (prefix ++ take (4094 - length prefix) message)
              ++ 0 ∷ take (length message - 1 - (4094 - length prefix)) beyond))

log_print-line_of :
    (beyond prefix message : List ℕ)
    → length prefix < 4096
    → 0 < length message
    → Prints beyond prefix message (log_print beyond (line_of prefix message))
unfolding log_print
log_print-line_of beyond prefix message room some_text =
    let space = 4096 - length prefix - 1 - 1 in
    elim (Bool-cases (leb (length prefix + length message) 4094)) [
      | inl short ↦
          let whole : take space message ≡ message =
            take_all space message (omega (arith, leb→le _ _ short)) in
          inl (
            leb→le _ _ short,
            rw (whole, ← length-append prefix message)
                (take-length-append (prefix ++ message) (0 ∷ beyond)),
          )
      | inr long ↦
          let cut : 4094 < length prefix + length message = leb→gt _ _ long in
          let stray = length message - 1 - (4094 - length prefix) in
          let same : space ≡ 4094 - length prefix = omega arith in
          let count : length prefix + length message
              ≡ length (prefix ++ take (4094 - length prefix) message) + suc stray =
            omega (
              arith,
              cut,
              room,
              some_text,
              length-append prefix (take (4094 - length prefix) message),
              length-take (4094 - length prefix) message,
            ) in
          inr (
            cut,
            rw (same, count)
                (take_past (prefix ++ take (4094 - length prefix) message) (0 ∷ beyond)
                  (suc stray)),
          )
    ]

module _ (strftime : ℕ → List ℕ) (now : ℕ) (place : List ℕ) where
  -- The macros of the levels D, I, W and E; `text` is the message without its line feed.
  unfoldable log_debug : List ℕ → Option Line
  unfolding log_impl
  log_debug text = log_impl strftime (68 ∷ []) now place (text ++ 10 ∷ [])

  unfoldable pub log_info : List ℕ → Option Line
  unfolding log_impl
  log_info text = log_impl strftime (73 ∷ []) now place (text ++ 10 ∷ [])

  unfoldable log_warn : List ℕ → Option Line
  unfolding log_impl
  log_warn text = log_impl strftime (87 ∷ []) now place (text ++ 10 ∷ [])

  unfoldable pub log_error : List ℕ → Option Line
  unfolding log_impl
  log_error text = log_impl strftime (69 ∷ []) now place (text ++ 10 ∷ [])

  -- ":%s" stands before the line feed; `strerror` is the text of errno.
  unfoldable pub log_errno : List ℕ → List ℕ → Option Line
  unfolding log_impl
  log_errno strerror text =
      log_impl strftime (69 ∷ []) now place (text ++ 58 ∷ (strerror ++ 10 ∷ []))

  -- If what stands before a message is shorter than 4096 bytes, and the message is not empty, then
  -- log_impl makes a line. If the two are at most 4094 bytes together, exactly they are printed. If
  -- they are more, what is printed is as much of them as fits, the 0 at its end, and then as many
  -- bytes of the memory after it as the message was cut by, less one.
  pub log_impl-Prints :
      (level message beyond : List ℕ)
      → length (prefix_of strftime level now place) < 4096
      → 0 < length message
      → (line : Line) × (log_impl strftime level now place message ≡ some line)
        × Prints beyond (prefix_of strftime level now place) message (log_print beyond line)
  unfolding log_impl
  log_impl-Prints level message beyond room some_text =
      let fits : ltb (length (prefix_of strftime level now place)) 4096 ≡ true =
        ground (arith, room) in
      (
        line_of (prefix_of strftime level now place) message,
        rw (fits, log_impl) refl,
        log_print-line_of beyond (prefix_of strftime level now place) message room some_text,
      )
