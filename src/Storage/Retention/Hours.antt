-- ===== src/Storage/Retention/Hours.antt =====
-- The hour a time is in.
use my_telemetry_server.Base.{ℕ, ◌+◌, ◌%◌, ◌^◌, ◌≤◌, ◌<◌, ◌≡◌, arith}
use my_telemetry_server.Base.Int.{
  ℤ, pos, negsuc, InI64, pos_part, neg_part, ◌+ℤ◌, ◌-ℤ◌, int_laws, ◌≤ℤ◌, ◌<ℤ◌, wrap, wrap_lem,
  rem_euclid,
}
use my_telemetry_server.Storage.Retention.{hour_micros, hour_start_of}

-- A time within 146 thousand years of 1970: sums of it and of the spans of the storage do not wrap.
abbrev pub IsTime : ℤ → Type 0
IsTime t = (pos_part t < 2 ^ 62) × (neg_part t < 2 ^ 62)

-- A time whose hour does not start before the earliest `i64`.
abbrev pub HasHour : ℤ → Type 0
HasHour t = (pos_part t < 2 ^ 63) × (neg_part t + hour_micros ≤ 2 ^ 63)

abbrev pub IsHourStart : ℤ → Type 0
IsHourStart t = rem_euclid t hour_micros ≡ 0

pub rem_euclid-lt : (t : ℤ) → rem_euclid t hour_micros < hour_micros
unfolding rem_euclid
rem_euclid-lt (pos n) = omega arith
rem_euclid-lt (negsuc n) = omega arith

InI64-of_parts : (z : ℤ) → pos_part z < 2 ^ 63 → neg_part z ≤ 2 ^ 63 → InI64 z
InI64-of_parts (pos n) p q = p
InI64-of_parts (negsuc n) p q = omega arith

-- Within a bit more than the times, no sum wraps.
pub wrap_small : (z : ℤ) → pos_part z < 2 ^ 63 → neg_part z ≤ 2 ^ 63 → wrap z ≡ z
wrap_small z p q = wrap_lem z (InI64-of_parts z p q)

pub one_sign : (z : ℤ) → (m : ℕ) → pos_part z ≤ neg_part z + m → pos_part z ≤ m
one_sign (pos n) m h = omega arith
one_sign (negsuc n) m h = omega arith

pub one_sign_neg : (z : ℤ) → (m : ℕ) → neg_part z ≤ pos_part z + m → neg_part z ≤ m
one_sign_neg (pos n) m h = omega arith
one_sign_neg (negsuc n) m h = omega arith

hour_start_of_lem : (t : ℤ) → HasHour t → hour_start_of t ≡ t -ℤ pos (rem_euclid t hour_micros)
unfolding hour_start_of ◌-ℤ◌ rem_euclid
hour_start_of_lem (pos n) h = wrap_small _ (ground arith) (ground arith)
hour_start_of_lem (negsuc n) h = wrap_small _ (ground arith) (ground arith)

pub aligned_parts :
    (z : ℤ) → IsHourStart z → (pos_part z % hour_micros ≡ 0) × (neg_part z % hour_micros ≡ 0)
unfolding rem_euclid
aligned_parts (pos n) h = omega arith
aligned_parts (negsuc n) h = omega arith

pub IsHourStart-of_parts :
    (z : ℤ) → pos_part z % hour_micros ≡ 0 → neg_part z % hour_micros ≡ 0 → IsHourStart z
unfolding rem_euclid
IsHourStart-of_parts (pos n) p q = omega arith
IsHourStart-of_parts (negsuc n) p q = omega arith

sub_rem-IsHourStart : (t : ℤ) → IsHourStart (t -ℤ pos (rem_euclid t hour_micros))
unfolding ◌-ℤ◌ rem_euclid
sub_rem-IsHourStart (pos n) = ground arith
sub_rem-IsHourStart (negsuc n) = ground arith

-- The start of the hour is a start of an hour, and the time is within an hour from it on.
pub hour_start_of_bounds :
    (t : ℤ)
    → HasHour t
    → IsHourStart (hour_start_of t)
      × (hour_start_of t ≤ℤ t)
      × (t <ℤ hour_start_of t +ℤ pos hour_micros)
hour_start_of_bounds t h =
    rw (hour_start_of_lem t h)
      (sub_rem-IsHourStart t, omega (int_laws, rem_euclid-lt t), omega (int_laws, rem_euclid-lt t))

-- No start of an hour stands between the start of the hour of a time and the time.
pub hour_start_of_greatest :
    (t hour_start : ℤ)
    → HasHour t
    → IsHourStart hour_start
    → hour_start ≤ℤ t
    → hour_start ≤ℤ hour_start_of t
hour_start_of_greatest t hour_start h is_start le =
    let (start, lo, hi) = hour_start_of_bounds t h in
    omega (int_laws, aligned_parts hour_start is_start, aligned_parts (hour_start_of t) start)
