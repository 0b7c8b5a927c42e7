-- ===== src/Port/Clock.antt =====
-- The clock arithmetic of src/lwip/sys_arch.c. A reading of the operating system's clock is an
-- argument; `time_t` and `long` are wide enough for every sum here, and results are cut to 32 bits.
use quiet_lwip.Prelude.{
  ℕ, ◌+◌, ◌-◌, ◌*◌, ◌/◌, ◌%◌, ◌^◌, ◌≤◌, ◌<◌, ◌≡◌, ap, arith, ltb, leb, if◌then◌else◌,
}

-- `struct timespec`
pub record Timespec : Type 0 where
  pub tv_sec : ℕ
  pub tv_nsec : ℕ

abbrev pub billion : ℕ
billion = 1_000_000_000

abbrev pub million : ℕ
million = 1_000_000

-- The nanoseconds that a timespec stands for.
abbrev pub nanos : Timespec → ℕ
nanos t = t.tv_sec * billion + t.tv_nsec

abbrev pub IsNormal : Timespec → Type 0
IsNormal t = t.tv_nsec < billion

-- `get_monotonic_time` on Darwin: `mach_absolute_time()` with its time base.
unfoldable pub mach_time : ℕ → ℕ → ℕ → Timespec
mach_time t numer denom =
    let nano = (t * numer) % 2 ^ 64 / denom in
    let sec = nano / billion in record { tv_sec = sec; tv_nsec = nano - sec * billion }

-- The deadline of `cond_wait` for a timeout in milliseconds.
unfoldable pub deadline : Timespec → ℕ → Timespec
deadline now timeout =
    let sec = now.tv_sec + timeout / 1000 in
    let nsec = now.tv_nsec + timeout % 1000 * million in
    if leb billion nsec
    then record { tv_sec = sec + 1; tv_nsec = nsec - billion }
    else record { tv_sec = sec; tv_nsec = nsec }

-- The milliseconds that `cond_wait` returns, as a `u32_t`. A difference of seconds may be negative:
-- modulo 2 ^ 32, taking away `s * 1000` is adding `(2 ^ 32 - 1) * (s * 1000)`.
unfoldable pub elapsed_ms : Timespec → Timespec → ℕ
elapsed_ms from to =
    if ltb to.tv_nsec from.tv_nsec
    then (to.tv_sec * 1000
        + (2 ^ 32 - 1) * ((from.tv_sec + 1) * 1000)
        + (to.tv_nsec + billion - from.tv_nsec) / million)
      % 2 ^ 32
    else (to.tv_sec * 1000
        + (2 ^ 32 - 1) * (from.tv_sec * 1000)
        + (to.tv_nsec - from.tv_nsec) / million)
      % 2 ^ 32

-- `sys_now`: milliseconds, as a `u32_t`.
unfoldable pub sys_now : Timespec → ℕ
sys_now t = (t.tv_sec * 1000 + t.tv_nsec / million) % 2 ^ 32

-- `sys_jiffies`: nanoseconds, as a `u32_t`.
unfoldable pub sys_jiffies : Timespec → ℕ
sys_jiffies t = (t.tv_sec * billion + t.tv_nsec) % 2 ^ 32

-- The time on Darwin is the tick count scaled by the time base, split into whole seconds and a rest
-- below one second, where the product fits in 64 bits.
pub mach_time_lem :
    (t numer denom : ℕ)
    → t * numer < 2 ^ 64
    → (nanos (mach_time t numer denom) ≡ t * numer / denom) × IsNormal (mach_time t numer denom)
unfolding mach_time
mach_time_lem t numer denom h = (omega (arith, ap (λ nano. nano / denom) fits), omega arith)
  where
    fits : (t * numer) % 2 ^ 64 ≡ t * numer
    fits = omega arith

-- The deadline of a timed wait lies exactly the timeout after the reading of the clock, and is a
-- proper timespec, with less than a second in its nanoseconds.
pub deadline_lem :
    (now : Timespec) (timeout : ℕ)
    → IsNormal now
    → (nanos (deadline now timeout) ≡ nanos now + timeout * million)
      × IsNormal (deadline now timeout)
unfolding deadline
deadline_lem now timeout h = ground arith

-- The time that a wait reports is the time between its two readings of the clock, in whole
-- milliseconds modulo 2 ^ 32, where the clock does not run backwards.
pub elapsed_ms_lem :
    (from to : Timespec)
    → IsNormal from
    → IsNormal to
    → nanos from ≤ nanos to
    → elapsed_ms from to ≡ (nanos to - nanos from) / million % 2 ^ 32
unfolding elapsed_ms
elapsed_ms_lem from to hf ht h = ground arith

-- The difference of two values of `sys_now` as `u32_t`s is the number of milliseconds between them
-- modulo 2 ^ 32, also where the counter has wrapped in between.
pub sys_now_difference :
    (from to : Timespec)
    → IsNormal from
    → IsNormal to
    → nanos from ≤ nanos to
    → (sys_now to + 2 ^ 32 - sys_now from) % 2 ^ 32
      ≡ (nanos to / million - nanos from / million) % 2 ^ 32
unfolding sys_now
sys_now_difference from to hf ht h = omega arith
