-- ===== src/Tests/Traces.antt =====
-- The theorem on the process index of an hour, at concrete events.
use my_telemetry_server.Base.{◌≡◌, refl, arith, true, some, [], ◌∷◌}
use my_telemetry_server.Base.Int.{pos, ◌-ℤ◌, to_u64, div_euclid}
use my_telemetry_server.Storage.ProcessIndex.{
  new, second_of, checked_sub, pair_of, pair_lt, insert_pair, add_pair, add_pairs, add_records,
  with_start_second, kept_seconds, seconds_of,
}
use my_telemetry_server.Storage.ProcessIndex.Trace.{
  History, add_all, had_event, is_told, traces_cover,
}
use my_telemetry_server.Tests.Samples.{event}

events : History
events = (7, event 1 ∷ event 2 ∷ []) ∷ (9, event 1 ∷ []) ∷ []

told : seconds_of (add_all (new (pos 0)) events) (pos 1) ≡ some (0 ∷ 7 ∷ 9 ∷ [])
unfolding events seconds_of add_all add_records add_pairs add_pair insert_pair pair_lt pair_of
    second_of checked_sub with_start_second kept_seconds to_u64 div_euclid ◌-ℤ◌
told = refl

had_it : had_event events (pos 1) 9 ≡ true
unfolding events
had_it = refl

traces_cover_example : is_told 9 (0 ∷ 7 ∷ 9 ∷ []) ≡ true
traces_cover_example =
    traces_cover events (pos 0) (pos 1) 9 (0 ∷ 7 ∷ 9 ∷ []) (omega arith) had_it told
