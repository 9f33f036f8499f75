-- ===== src/Traffic/Time.antt =====
-- The time functions at the end of crates/node-agent/src/traffic.rs. A `SystemTime` is the integer
-- number of nanoseconds since the Unix epoch; a Linux one spans the i64 seconds.
use node_agent_rs.Base.{
  ℕ, suc, ◌-◌, ◌*◌, ◌/◌, ◌%◌, ◌≤◌, min, ◌≡◌, arith, ◌==◌, if◌then◌else◌, ℤ, pos, negsuc, div_euclid,
  int_mul,
}

abbrev pub nanos : ℕ
nanos = 1000000000

abbrev pub i64_max : ℕ
i64_max = 9223372036854775807

abbrev pub observation_bucket_seconds : ℕ
observation_bucket_seconds = 60

abbrev pub aggregation_bucket_seconds : ℕ
aggregation_bucket_seconds = 3600

-- `-seconds`
abbrev neg : ℕ → ℤ
neg n = if n == 0 then pos 0 else negsuc (n - 1)

-- The time before the epoch is given by its distance, `duration`.
abbrev before_epoch : ℕ → ℤ
before_epoch duration =
    let seconds = min (duration / nanos) i64_max in
    if duration % nanos == 0 then neg seconds else negsuc seconds

unfoldable pub unix_seconds : ℤ → ℤ
unix_seconds (pos n) = pos (min (n / nanos) i64_max)
unix_seconds (negsuc n) = before_epoch (suc n)

-- Every i64 number of seconds is a representable time.
unfoldable pub system_time_from_unix : ℤ → ℤ
unfolding int_mul
system_time_from_unix seconds = int_mul seconds nanos

unfoldable pub observation_bucket_start : ℤ → ℤ
observation_bucket_start observed_at = system_time_from_unix (
    int_mul (div_euclid (unix_seconds observed_at) observation_bucket_seconds)
      observation_bucket_seconds)

-- The hour that a counter is filed under.
unfoldable pub observation_hour : ℤ → ℤ
observation_hour observed_at = div_euclid (unix_seconds observed_at) aggregation_bucket_seconds

-- A time whose whole minute lies in the i64 seconds.
abbrev pub InRange : ℤ → Type 0
InRange (pos n) = n / nanos ≤ i64_max
InRange (negsuc n) = n / nanos / 60 ≤ 153722867280912929

-- In range, `unix_seconds` rounds down.
pub unix_seconds-eq-div_euclid : (t : ℤ) → InRange t → unix_seconds t ≡ div_euclid t nanos
unfolding unix_seconds div_euclid
unix_seconds-eq-div_euclid (pos n) h = ground arith
unix_seconds-eq-div_euclid (negsuc n) h = ground arith

-- A number of seconds that an i64 holds together with its negation.
abbrev IsSeconds : ℤ → Type 0
IsSeconds (pos n) = n ≤ i64_max
IsSeconds (negsuc n) = suc n ≤ i64_max

whole_seconds :
    (m n : ℕ) → suc m ≡ suc n * nanos → suc n ≤ i64_max → before_epoch (suc m) ≡ negsuc n
whole_seconds m n e h = ground arith

-- Whole seconds come back.
pub unix_seconds-system_time_from_unix :
    (s : ℤ) → IsSeconds s → unix_seconds (system_time_from_unix s) ≡ s
unfolding unix_seconds system_time_from_unix int_mul
unix_seconds-system_time_from_unix (pos n) h = ground arith
unix_seconds-system_time_from_unix (negsuc n) h =
    whole_seconds (suc n * nanos - 1) n (omega arith) h

bucket_hour :
    (s : ℤ)
    → div_euclid
        (int_mul (div_euclid s observation_bucket_seconds) observation_bucket_seconds)
        aggregation_bucket_seconds
      ≡ div_euclid s aggregation_bucket_seconds
unfolding div_euclid int_mul
bucket_hour (pos n) = ground arith
bucket_hour (negsuc n) = ground arith

minute_IsSeconds :
    (t : ℤ)
    → InRange t
    → IsSeconds (
        int_mul
          (div_euclid (div_euclid t nanos) observation_bucket_seconds)
          observation_bucket_seconds)
unfolding div_euclid int_mul
minute_IsSeconds (pos n) h = omega arith
minute_IsSeconds (negsuc n) h = omega arith

-- The start of a time's minute lies in the hour of that time, before the epoch too.
pub observation_hour-observation_bucket_start :
    (t : ℤ) → InRange t → observation_hour (observation_bucket_start t) ≡ observation_hour t
unfolding observation_hour observation_bucket_start
observation_hour-observation_bucket_start t h =
    rw (unix_seconds-eq-div_euclid t h, unix_seconds-system_time_from_unix _ (minute_IsSeconds t h))
      (bucket_hour (div_euclid t nanos))

minute_back :
    (q : ℕ)
    → q / 60 ≤ 153722867280912929
    → (suc (suc (q / 60) * 60 - 1) * nanos - 1) / nanos / 60 ≤ 153722867280912929
minute_back q h = omega arith

minute-InRange :
    (t : ℤ)
    → InRange t
    → InRange (
        int_mul
          (int_mul
            (div_euclid (div_euclid t nanos) observation_bucket_seconds)
            observation_bucket_seconds)
          nanos)
unfolding div_euclid int_mul
minute-InRange (pos n) h = omega arith
minute-InRange (negsuc n) h = minute_back (n / nanos) h

pub observation_bucket_start-InRange : (t : ℤ) → InRange t → InRange (observation_bucket_start t)
unfolding observation_bucket_start system_time_from_unix
observation_bucket_start-InRange t h = rw (unix_seconds-eq-div_euclid t h) (minute-InRange t h)
