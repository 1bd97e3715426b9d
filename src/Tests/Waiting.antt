-- ===== src/Tests/Waiting.antt =====
-- The theorems on the records which wait to be written, at concrete records.
use my_telemetry_server.Base.{
  ℕ, ◌+◌, ◌≤◌, ◌≡◌, refl, arith, Bool, false, some, List, [], ◌∷◌, map, filter, count_if, All,
  length, take, max, length,
}
use my_telemetry_server.Base.Int.{pos, div_euclid}
use my_telemetry_server.Base.Str.{Str, bytes_of}
use my_telemetry_server.Storage.Rec.{Rec, MetricsQuery, matches}
use my_telemetry_server.Storage.Pending.{
  ReadyBucket, Arc, PendingMetrics, put_in_time, add, seconds, is_found, search, take_ready,
  written,
}
use my_telemetry_server.Storage.Pending.Valid.{IsValid}
use my_telemetry_server.Storage.Pending.Adds.{add_bounded}
use my_telemetry_server.Storage.Pending.Searches.{records_of, search_all}
use my_telemetry_server.Storage.Pending.Takes.{all_records, add_keeps}
use my_telemetry_server.Base.{◌++◌}
use my_telemetry_server.Base.Int.{InI64, ◌-ℤ◌}
use my_telemetry_server.Storage.Rec.{process}
use my_telemetry_server.Server.Links.{
  ProcessIdUserIdLinks, resolve_user_id, client_id_of, name_client, name_clients,
}
use my_telemetry_server.Server.Links.Named.{
  or_else, is_client_tag, count_of, client_id_of-name_client, take_ready-name_clients,
}
use my_telemetry_server.Server.Metric.{MetricDto, from_grpc_event, into_event}
use my_telemetry_server.Server.Metric.RoundTrip.{from_grpc_event-into_event}
use my_telemetry_server.Server.Queue.{new_queue, enqueue, take_metrics, run_passes}
use my_telemetry_server.Server.Queue.Order.{starts, enqueued, took, taken-in_order}
use my_telemetry_server.Server.Queue.Passes.{joined, run_passes-empties}
use my_telemetry_server.Tests.Samples.{event}
use my_telemetry_server.Storage.Pending.Ready.{Prepares, take_ready_keeps}

scope : Str
scope = bytes_of "default"

-- One second waits, another one is being written, and there is room for two records more.
waiting : PendingMetrics
waiting = record {
  buckets =
      ((scope, pos 5), record { created = 7; records = event 5000100 ∷ event 5000200 ∷ [] }) ∷ [];
  being_written =
      record {
        place = 0;
        value = record { scope = scope; second = pos 4; records = event 4000000 ∷ [] };
      }
      ∷ [];
  records = 2;
  max_records = 4;
  free_place = 1;
}

waiting-IsValid : IsValid waiting
unfolding waiting div_euclid
waiting-IsValid = record {
  sorted = (record {}, record {});
  counted = refl;
  waiting = (((refl, (refl, omega arith)), ((refl, (refl, omega arith)), record {})), record {});
  taken = (((refl, (refl, omega arith)), record {}), record {});
  placed = (omega arith, record {});
}

add_bounded_example :
    (q : PendingMetrics) × (dropped : ℕ) × (add waiting scope
        (event 6000000 ∷ event 7000000 ∷ event 7000001 ∷ [])
        9
        (pos 7000002)
      ≡ some (q, dropped))
    × IsValid q
    × (q.records ≤ waiting.max_records)
    × (q.records + dropped ≡ waiting.records + 3)
    × (q.being_written ≡ waiting.being_written)
add_bounded_example =
    add_bounded waiting scope (event 6000000 ∷ event 7000000 ∷ event 7000001 ∷ []) 9 7000002
      waiting-IsValid (omega arith)

-- What a search for the process 6000000 matches.
of_process : Rec → Bool
of_process = matches (MetricsQuery.process (pos 6000000))

search_all_example :
    search waiting (some scope) (pos 4000001) (pos 5000150) of_process
    ≡ filter
        (is_found (pos 4000001) (pos 5000150) of_process)
        (records_of (some scope) (seconds waiting))
search_all_example =
    search_all waiting (some scope) (pos 4000001) (pos 5000150) of_process waiting-IsValid

add_keeps_example :
    (q : PendingMetrics) × (add waiting scope (event 6000000 ∷ []) 9 (pos 7000002) ≡ some (q, 0))
    × (count_if of_process (all_records q)
        ≡ count_if of_process (all_records waiting)
          + count_if of_process (map (λ r. put_in_time r (pos 7000002)) (event 6000000 ∷ [])))
add_keeps_example =
    add_keeps waiting scope (event 6000000 ∷ []) 9 7000002 of_process waiting-IsValid (omega arith)
      room
  where
    room : waiting.records + 1 ≤ waiting.max_records
    room = unfold waiting in omega arith

-- Nothing is done to the records before they are written.
as_they_are : List ReadyBucket → List ReadyBucket
as_they_are bs = bs

as_they_are-Prepares : Prepares as_they_are of_process
unfolding as_they_are
as_they_are-Prepares = record { keeps_count = λ bs. refl; keeps_seconds = λ bs h. h }

take_ready_keeps_example :
    (ready : List (Arc ReadyBucket)) × (q : PendingMetrics) × (take_ready waiting 20 10 false
        as_they_are
      ≡ some (ready, q))
    × IsValid q
    × (count_if of_process (all_records q) ≡ count_if of_process (all_records waiting))
    × ((written q ready).being_written ≡ waiting.being_written)
take_ready_keeps_example =
    take_ready_keeps waiting 20 10 false as_they_are of_process waiting-IsValid as_they_are-Prepares

-- The process of the event at 6000000 is of a client.
links : ProcessIdUserIdLinks
links = (pos 6000000, record { user_id = bytes_of "u1"; created_at = pos 6 }) ∷ []

client_id_of-name_client_example :
    (client_id_of (name_client links (event 6000000))
      ≡ or_else (client_id_of (event 6000000)) (resolve_user_id links (pos 6000000)))
    × (count_if is_client_tag (name_client links (event 6000000)).tags
        ≡ max (count_if is_client_tag (event 6000000).tags) (
            count_of
              (or_else (client_id_of (event 6000000)) (resolve_user_id links (pos 6000000)))))
    × (length (name_client links (event 6000000)).tags + count_if is_client_tag (event 6000000).tags
        ≡ length (event 6000000).tags
          + count_if is_client_tag (name_client links (event 6000000)).tags)
    × (take (length (event 6000000).tags) (name_client links (event 6000000)).tags
        ≡ (event 6000000).tags)
    × (record (name_client links (event 6000000)) { tags = (event 6000000).tags } ≡ event 6000000)
client_id_of-name_client_example = client_id_of-name_client links (event 6000000)

take_ready-name_clients_example :
    (ready : List (Arc ReadyBucket)) × (q : PendingMetrics) × (take_ready waiting 20 10 false
        (name_clients links)
      ≡ some (ready, q))
    × IsValid q
    × (count_if (matches (process (pos 6000000))) (all_records q)
        ≡ count_if (matches (process (pos 6000000))) (all_records waiting))
take_ready-name_clients_example =
    take_ready-name_clients waiting 20 10 false links (pos 6000000) waiting-IsValid

tagged : Rec
tagged = record (event 6000000) {
  tags =
      record { key = bytes_of "ip"; value = bytes_of "10.0.0.1" }
      ∷ record { key = bytes_of "user_id"; value = bytes_of "u1" }
      ∷ [];
}

from_grpc_event-into_event_example :
    from_grpc_event (into_event (from_grpc_event tagged scope)) scope ≡ from_grpc_event tagged scope
from_grpc_event-into_event_example = from_grpc_event-into_event tagged scope in_i64 difference
  where
    in_i64 : InI64 tagged.finished_at
    in_i64 = unfold tagged in omega arith

    difference : InI64 (tagged.finished_at -ℤ tagged.started_at)
    difference = unfold tagged ◌-ℤ◌ in omega arith

metric : ℕ → MetricDto
metric n = from_grpc_event (event n) scope

taken-in_order_example :
    ([] ++ (take_metrics (enqueue new_queue (metric 1 ∷ metric 2 ∷ [])) 1).0)
      ++ (take_metrics (enqueue new_queue (metric 1 ∷ metric 2 ∷ [])) 1).1
    ≡ [] ++ (metric 1 ∷ metric 2 ∷ [])
taken-in_order_example = taken-in_order (took 1 (enqueued (metric 1 ∷ metric 2 ∷ []) starts))

run_passes-empties_example :
    (bs : List (List MetricDto)) × (run_passes 2 4 (metric 1 ∷ metric 2 ∷ metric 3 ∷ [])
      ≡ some (bs, []))
    × (joined bs ≡ metric 1 ∷ metric 2 ∷ metric 3 ∷ [])
    × All (λ b. length b ≤ 2) bs
run_passes-empties_example =
    run_passes-empties 2 (omega arith) (metric 1 ∷ metric 2 ∷ metric 3 ∷ []) 4 (omega arith)
