-- ===== src/Clock.antt =====
-- common/clock.h. A reading of a clock is the number of nanoseconds since its epoch; a duration_cast
-- divides by the nanoseconds of its unit. strftime is a parameter.
use native.Mathlib.Nat.{div-add-mod, div-le_self, mod-lt, add-mul, mul_comm}
use nsio.Base.{ℕ, ◌+◌, ◌-◌, ◌*◌, ◌/◌, ◌%◌, ◌^◌, ◌≤◌, ◌<◌, ◌≡◌, List, [], ◌∷◌, ◌++◌, arith, length}

-- struct zclock
pub record Zclock : Type 0 where
  pub m_start : ℕ

-- zclock::reset, the constructor's only call
unfoldable pub reset : ℕ → Zclock
reset now = record { m_start = now }

-- duration_cast<duration>(tmp - m_start).count() as uint64_t; `unit` is the duration's nanoseconds.
unfoldable pub count : ℕ → ℕ → Zclock → ℕ
count unit tmp c = (tmp - c.m_start) / unit % 2 ^ 64

unfoldable pub count_ns : ℕ → Zclock → ℕ
unfolding count
count_ns tmp c = count 1 tmp c

unfoldable pub count_us : ℕ → Zclock → ℕ
unfolding count
count_us tmp c = count 1000 tmp c

unfoldable pub count_ms : ℕ → Zclock → ℕ
unfolding count
count_ms tmp c = count 1000000 tmp c

unfoldable pub count_sec : ℕ → Zclock → ℕ
unfolding count
count_sec tmp c = count 1000000000 tmp c

-- zclock::pin
unfoldable pub pin : ℕ → ℕ → Zclock → ℕ × Zclock
unfolding count
pin unit tmp c = (count unit tmp c, record { m_start = tmp })

unfoldable pub pin_ns : ℕ → Zclock → ℕ × Zclock
unfolding pin
pin_ns tmp c = pin 1 tmp c

unfoldable pub pin_us : ℕ → Zclock → ℕ × Zclock
unfolding pin
pin_us tmp c = pin 1000 tmp c

unfoldable pub pin_ms : ℕ → Zclock → ℕ × Zclock
unfolding pin
pin_ms tmp c = pin 1000000 tmp c

-- zclock::now_sec and zclock::now_ms at a reading of the system's clock
unfoldable pub now_sec : ℕ → ℕ
now_sec now = now / 1000000000 % 2 ^ 64

unfoldable pub now_ms : ℕ → ℕ
now_ms now = now / 1000000 % 2 ^ 64

-- ".%03d" of a number below 1000, in ASCII
unfoldable pub millis_text : ℕ → List ℕ
millis_text msec = 46 ∷ (48 + msec / 100) ∷ (48 + msec / 10 % 10) ∷ (48 + msec % 10) ∷ []

-- zclock::now_ms(buff, sec0): what it leaves in buff, and the length that it returns.
unfoldable pub now_ms_text : (ℕ → List ℕ) → ℕ → List ℕ × ℕ
unfolding millis_text
now_ms_text strftime nms =
    let day = strftime (nms / 1000) in (day ++ millis_text (nms % 1000), (length day + 4) % 2 ^ 32)

-- zclock::now_ms(buff)
unfoldable pub now_ms_text_now : (ℕ → List ℕ) → ℕ → List ℕ × ℕ
unfolding now_ms now_ms_text
now_ms_text_now strftime now = now_ms_text strftime (now_ms now)

-- zclock::now_sec(buff, sec) and zclock::now_sec(buff)
unfoldable pub now_sec_text : (ℕ → List ℕ) → ℕ → List ℕ × ℕ
now_sec_text strftime sec = (strftime sec, length (strftime sec) % 2 ^ 32)

unfoldable pub now_sec_text_now : (ℕ → List ℕ) → ℕ → List ℕ × ℕ
unfolding now_sec now_sec_text
now_sec_text_now strftime now = now_sec_text strftime (now_sec now)

-- A pin at each of some readings of the clock: the sum of what they return, and the clock at last.
unfoldable pub pin_all : ℕ → List ℕ → Zclock → ℕ × Zclock
unfolding pin
pin_all unit [] c = (0, c)
pin_all unit (t ∷ ts) c =
    let first = pin unit t c in let rest = pin_all unit ts first.1 in (first.0 + rest.0, rest.1)

-- A steady clock: no reading is earlier than the one before it.
abbrev pub IsSteady : ℕ → List ℕ → Type 0
IsSteady from [] = Unit {0}
IsSteady from (t ∷ ts) = (from ≤ t) × IsSteady t ts

-- One pin counts whole units, and drops less than one.
pin_measures :
    (unit tmp : ℕ) (c : Zclock)
    → 0 < unit
    → tmp < 2 ^ 64
    → (count unit tmp c * unit ≤ tmp - c.m_start)
      × (tmp - c.m_start ≤ count unit tmp c * unit + (unit - 1))
unfolding count
pin_measures unit tmp c some_unit small =
    let d : ℕ = tmp - c.m_start in
    let whole : d / unit % 2 ^ 64 ≡ d / unit = omega (arith, div-le_self d unit) in
    let parts = div-add-mod d unit in
    rw whole (
      omega (arith, parts, mod-lt d some_unit, mul_comm unit (d / unit)),
      omega (arith, parts, mod-lt d some_unit, mul_comm unit (d / unit)),
    )

-- If the clock is steady and below 2^64 ns, the counts that a sequence of pins returns, in units of
-- the pin, are together at most the time from the start to the last pin, and fall short of it by
-- less than one unit for each pin.
pub pins_measure :
    (unit : ℕ) (ts : List ℕ) (c : Zclock)
    → 0 < unit
    → IsSteady c.m_start ts
    → (pin_all unit ts c).1.m_start < 2 ^ 64
    → let r = pin_all unit ts c in
      (c.m_start ≤ r.1.m_start)
      × (r.0 * unit ≤ r.1.m_start - c.m_start)
      × (r.1.m_start - c.m_start ≤ r.0 * unit + length ts * (unit - 1))
unfolding pin_all
pins_measure unit [] c some_unit steady small = (omega arith, omega arith, omega arith)
pins_measure unit (t ∷ ts) c some_unit (later, steady) small =
    let (forward, low, high) =
      pins_measure unit ts (record { m_start = t }) some_unit steady small in
    let (low', high') = pin_measures unit t c some_unit (omega arith) in
    let sum = add-mul (count unit t c) (pin_all unit ts (record { m_start = t })).0 unit in
    let bound = add-mul 1 (length ts) (unit - 1) in
    (omega arith, omega (arith, sum), omega (arith, sum, bound))
