-- ===== src/Storage/Retention.antt =====
-- my-telemetry-server/src/metrics_storage/retention.rs: which hour a time is in, how long an hour
-- stays on the local disk and in S3. Times are `i64` microseconds: sums and differences wrap.
pub mod Hours
pub mod Stages
pub mod Keys
use my_telemetry_server.Base.{ℕ, ◌*◌, Bool, not, ◌&&◌, ◌||◌, Option, none, some, if◌then◌else◌}
use my_telemetry_server.Base.Int.{
  ℤ, pos, ◌+ℤ◌, ◌-ℤ◌, ◌*ℕ◌, leb_ℤ, eqb_ℤ, wrap, rem_euclid, from_u64,
}

abbrev pub micros_per_second : ℕ
micros_per_second = 1_000_000

abbrev pub local_hours : ℕ
local_hours = 2

abbrev pub hour_micros : ℕ
hour_micros = 3600 * micros_per_second

unfoldable pub hour_start_of : ℤ → ℤ
hour_start_of time = wrap (time -ℤ pos (rem_euclid time hour_micros))

unfoldable pub local_time_is_over : ℤ → ℤ → Bool
local_time_is_over hour_start now =
    leb_ℤ (wrap (wrap (hour_start +ℤ pos hour_micros) +ℤ pos (local_hours * hour_micros))) now

-- `hours_to_gc as i64 * HOUR_MICROS` wraps too.
unfoldable pub expired_up_to : ℤ → ℕ → ℤ
expired_up_to now hours_to_gc =
    hour_start_of (wrap (now -ℤ wrap (from_u64 hours_to_gc *ℕ hour_micros)))

unfoldable pub is_expired : ℤ → ℤ → ℕ → Bool
is_expired hour_start now hours_to_gc = leb_ℤ hour_start (expired_up_to now hours_to_gc)

unfoldable pub is_to_upload : ℤ → ℤ → ℕ → Bool
is_to_upload hour_start now hours_to_gc =
    local_time_is_over hour_start now && not (is_expired hour_start now hours_to_gc)

unfoldable pub is_to_delete_locally : ℤ → ℤ → ℕ → Bool → Bool
is_to_delete_locally hour_start now hours_to_gc has_s3 =
    local_time_is_over hour_start now && (not has_s3 || is_expired hour_start now hours_to_gc)

-- `IntervalKey<HourKey>` of the crate rust-extensions, whose code is not in the repository:
-- `of_time` is the number of the key of the hour a time is in, `try_to_date_time` the time a
-- number is read as.
pub record Calendar : Type 0 where
  pub of_time : ℤ → ℤ
  pub try_to_date_time : ℤ → Option ℤ

module _ (calendar : Calendar) where
  unfoldable pub hour_key_of : ℤ → ℤ
  hour_key_of hour_start = calendar.of_time hour_start

  -- The key is one only when the hour gives it back.
  key_if_same : ℤ → Option ℤ → Option ℤ
  key_if_same hour_key none = none
  key_if_same hour_key (some hour_start) =
      if eqb_ℤ (hour_key_of hour_start) hour_key then some hour_start else none

  unfoldable pub hour_start_of_key : ℤ → Option ℤ
  unfolding key_if_same
  hour_start_of_key hour_key = key_if_same hour_key (calendar.try_to_date_time hour_key)
