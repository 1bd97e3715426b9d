-- ===== src/Storage/Retention/Keys.antt =====
-- The keys of hours in retention.rs: the folder of an hour has one name.
use my_telemetry_server.Base.{ℕ, ◌≡◌, refl, sym, arith, Option, none, some}
use my_telemetry_server.Base.Int.{ℤ, pos, eqb_ℤ→eq, eqb_ℤ_refl, ◌≤ℤ◌, int_laws, rem_euclid}
use my_telemetry_server.Storage.Retention.{
  Calendar, hour_start_of, hour_key_of, key_if_same, hour_start_of_key,
}
use my_telemetry_server.Storage.Retention.Hours.{
  HasHour, IsHourStart, hour_start_of_bounds, hour_start_of_greatest,
}
use mathlib.Core.Logic.{◌↔◌}

-- The calendar of the crate reads back the key of each hour which starts from 1970 on and not after
-- `latest`, the last time whose year has the four digits of a key.
abbrev pub ReadsBack : Calendar → ℕ → Type 0
ReadsBack calendar latest =
    (hour_start : ℤ)
    → IsHourStart hour_start
    → pos 0 ≤ℤ hour_start
    → hour_start ≤ℤ pos latest
    → calendar.try_to_date_time (calendar.of_time hour_start) ≡ some hour_start

zero-IsHourStart : IsHourStart (pos 0)
unfolding rem_euclid
zero-IsHourStart = refl

module _ (calendar : Calendar) where
  key_if_same-some :
      (hour_key : ℤ) (read : Option ℤ) (hour_start : ℤ)
      → key_if_same calendar hour_key read ≡ some hour_start
      → hour_key_of calendar hour_start ≡ hour_key
  unfolding key_if_same
  key_if_same-some hour_key none hour_start e = absurd (cc)
  key_if_same-some hour_key (some t) hour_start e =
      ground (arith, eqb_ℤ→eq (hour_key_of calendar t) hour_key)

  -- Of all numbers the key of an hour is the one which is read as the start of the hour: the folder that
  -- `hour_key_of` names after the hour of a time is found again as that hour, and no other name is. The
  -- time is from 1970 on, and the calendar reads back the keys of the hours up to it.
  pub hour_start_of_key-hour_key_of :
      (latest : ℕ)
      → ReadsBack calendar latest
      → (t hour_key : ℤ) → HasHour t
      → pos 0 ≤ℤ t
      → t ≤ℤ pos latest
      → (hour_start_of_key calendar hour_key ≡ some (hour_start_of t))
        ↔ (hour_key ≡ hour_key_of calendar (hour_start_of t))
  unfolding hour_start_of_key
  hour_start_of_key-hour_key_of latest reads_back t hour_key has from_epoch before =
      let (start, lo, hi) = hour_start_of_bounds t has in
      let not_before : pos 0 ≤ℤ hour_start_of t =
        hour_start_of_greatest t (pos 0) has zero-IsHourStart from_epoch in
      let read : calendar.try_to_date_time (hour_key_of calendar (hour_start_of t))
          ≡ some (hour_start_of t) =
        (unfold hour_key_of in
          reads_back (hour_start_of t) start not_before (omega (int_laws, lo, before))) in
      (
        λ e.
            sym
              (key_if_same-some hour_key (calendar.try_to_date_time hour_key) (hour_start_of t) e),
        λ e.
            rw (e, read)
              (unfold key_if_same in rw (eqb_ℤ_refl (hour_key_of calendar (hour_start_of t))) refl),
      )
