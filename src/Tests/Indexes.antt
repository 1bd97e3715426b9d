-- ===== src/Tests/Indexes.antt =====
-- The theorems on the indexes of an hour, at concrete records.
use my_telemetry_server.Base.{ℕ, ◌^◌, ◌≤◌, ◌<◌, ◌≡◌, ◌≢◌, arith, none, some, [], ◌∷◌, All}
use my_telemetry_server.Base.Str.{bytes_of, str_eq}
use my_telemetry_server.Storage.KeyIndex.{
  KeyIndex, SecondCounts, new, counts_of, estimate, FilterCounts,
}
use my_telemetry_server.Storage.KeyIndex.History.{History, add_all, added, records_in, counts_cover}
use my_telemetry_server.Storage.Reader.{pack_seconds, unpack_seconds}
use my_telemetry_server.Storage.Reader.Packed.{unpack_seconds-pack_seconds, unpack_seconds-ne-none}
use my_telemetry_server.Base.{replicate, length-replicate, refl, List, true}
use my_telemetry_server.Base.Int.{pos}
use my_telemetry_server.Storage.KeyIndex.{unknown_counts}
use my_telemetry_server.Storage.Cells.{count}
use my_telemetry_server.Storage.Runs.{HourSource, estimate_at, runs}
use my_telemetry_server.Storage.Runs.Cover.{IsOpen, AreRuns, covered, runs_cover}
use my_telemetry_server.Tests.Samples.{four_bytes, event}

history : History
history = (7, event 1 ∷ event 2 ∷ []) ∷ (9, event 3 ∷ []) ∷ (7, event 4 ∷ []) ∷ []

counts_cover_example :
    (i : KeyIndex) × (f : FilterCounts) × (n : ℕ) × (add_all new history ≡ some i)
    × (counts_of i (bytes_of "billing") (bytes_of "charge") ≡ some f)
    × (estimate f 5 7 ≡ some n)
    × (added history (bytes_of "billing") (bytes_of "charge") 7 ≤ n)
counts_cover_example =
    counts_cover history (bytes_of "billing") (bytes_of "charge") 7 5 in_hour few (omega arith)
      as_many
  where
    in_hour : All (λ b. b.0 < 3600) history
    in_hour = unfold history in omega arith

    few : records_in history < 2 ^ 32
    few = unfold history in omega arith

    as_many : added history (bytes_of "billing") (bytes_of "charge") 7 ≤ 5
    as_many = unfold history str_eq in omega arith

packed : SecondCounts
packed = (3, 2) ∷ (17, 1) ∷ (3599, 70000) ∷ []

unpack_seconds-pack_seconds_example :
    unpack_seconds four_bytes (pack_seconds four_bytes packed) ≡ some (some packed)
unpack_seconds-pack_seconds_example =
    unpack_seconds-pack_seconds four_bytes packed (unfold packed in omega arith)
      (unfold packed in omega arith)

unpack_seconds-ne-none_example : unpack_seconds four_bytes (1 ∷ 2 ∷ 3 ∷ 4 ∷ 5 ∷ []) ≢ none
unpack_seconds-ne-none_example = unpack_seconds-ne-none four_bytes (1 ∷ 2 ∷ 3 ∷ 4 ∷ 5 ∷ [])

-- An hour of which the first two seconds have records, and no index says which of them match.
hour : HourSource
hour = record {
  hour_start = pos 0;
  is_local = true;
  cells = record { cells = []; counts = 5 ∷ 7 ∷ replicate 3598 0 };
  counts = unknown_counts;
}

hour-IsOpen : IsOpen hour
unfolding hour
hour-IsOpen = record {
  counts_all = omega (arith, length-replicate {A = ℕ} 3598 0);
  says_all = λ cs e. absurd (cc (e));
}

hour_count : count hour.cells 1 ≡ some 7
unfolding hour count
hour_count = refl

hour_estimate : estimate_at hour 1 ≡ some 7
unfolding hour count estimate_at estimate
hour_estimate = refl

runs_cover_example :
    (rs : List (ℕ × ℕ)) × (runs hour 0 10 100 ≡ some rs) × AreRuns 0 11 rs × (covered 1 rs ≡ true)
runs_cover_example =
    runs_cover hour 0 10 100 1 7 7 hour-IsOpen (omega arith) (omega arith) (omega arith) hour_count
      hour_estimate (λ e. absurd (omega (arith, e))) (λ e. absurd (omega (arith, e)))
