-- ===== src/Clock.antt =====
-- `fss_current_timestamp` of src/fss-main.cpp, the clock that the times of the other modules are
-- read from. What `gettimeofday` answers is a parameter: whole seconds, and the microseconds of the
-- second that runs.
use flight_safety_system.Base.{ℕ, ◌+◌, ◌-◌, ◌*◌, ◌/◌, ◌%◌, ◌^◌, ◌≤◌, ◌<◌, ◌≡◌, arith}

-- `struct timeval`.
pub record Timeval : Type 0 where
  pub tv_sec : ℕ
  pub tv_usec : ℕ

-- The conversion to the `uint64_t` that is returned wraps.
unfoldable pub fss_current_timestamp : Timeval → ℕ
fss_current_timestamp tv = (tv.tv_sec * 1000 + tv.tv_usec / 1000) % 2 ^ 64

-- The time in microseconds, which the answer rounds down to milliseconds.
abbrev pub microseconds : Timeval → ℕ
microseconds tv = tv.tv_sec * 1000000 + tv.tv_usec

-- A time whose milliseconds fit in the signed type that the sum is computed in.
abbrev pub IsRepresentable : Timeval → Type 0
IsRepresentable tv = microseconds tv / 1000 < 2 ^ 63

-- The answer is the time in milliseconds, rounded down.
pub fss_current_timestamp_lem :
    (tv : Timeval) → IsRepresentable tv → fss_current_timestamp tv ≡ microseconds tv / 1000
unfolding fss_current_timestamp
fss_current_timestamp_lem tv fits = omega arith

-- A time that is not earlier is not answered with less.
pub fss_current_timestamp_mono :
    (before after : Timeval)
    → IsRepresentable after
    → microseconds before ≤ microseconds after
    → fss_current_timestamp before ≤ fss_current_timestamp after
unfolding fss_current_timestamp
fss_current_timestamp_mono before after fits later = omega arith

-- What two answers are apart is the time between them, up to less than a millisecond.
pub fss_current_timestamp_elapsed :
    (before after : Timeval)
    → IsRepresentable after
    → microseconds before ≤ microseconds after
    → (1000 * (fss_current_timestamp after - fss_current_timestamp before)
        < microseconds after - microseconds before + 1000)
      × (microseconds after - microseconds before
          < 1000 * (fss_current_timestamp after - fss_current_timestamp before) + 1000)
unfolding fss_current_timestamp
fss_current_timestamp_elapsed before after fits later = (omega arith, omega arith)
