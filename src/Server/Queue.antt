-- ===== src/Server/Queue.antt =====
-- my-telemetry-server/src/to_write_queue/to_write_queue.rs: the metrics which came and are not taken
-- in yet; and how often the background job of background/metrics_queue_job.rs takes of them. What a pass
-- of flows/take_in_queued_metrics.rs does with the metrics it took is not modelled.
pub mod Order
pub mod Passes
use my_telemetry_server.Base.{
  ℕ, zero, suc, leb, ◌==◌, if◌then◌else◌, Bool, true, false, Option, none, some, List, [], ◌∷◌,
  ◌++◌, length, take, drop,
}
use my_telemetry_server.Server.Metric.{MetricDto}

abbrev pub ToWriteQueue : Type 0
ToWriteQueue = List MetricDto

abbrev pub new_queue : ToWriteQueue
new_queue = []

-- An empty queue becomes the batch; to another one the batch is appended.
unfoldable pub enqueue : ToWriteQueue → List MetricDto → ToWriteQueue
enqueue [] to_push = to_push
enqueue (m ∷ metrics) to_push = (m ∷ metrics) ++ to_push

-- The metrics taken, and the queue after it.
unfoldable pub take_metrics : ToWriteQueue → ℕ → List MetricDto × ToWriteQueue
take_metrics metrics max =
    if leb (length metrics) max then (metrics, []) else (take max metrics, drop max metrics)

is_empty_batch : List MetricDto → Bool
is_empty_batch [] = true
is_empty_batch (m ∷ metrics) = false

with_batch :
    List MetricDto
    → Option (List (List MetricDto) × ToWriteQueue)
    → Option (List (List MetricDto) × ToWriteQueue)
with_batch batch none = none
with_batch batch (some (batches, q)) = some (batch ∷ batches, q)

-- `max` is `MAX_BATCH`, 10,000.
module _ (max : ℕ) where
  -- `take_in_queued_metrics`: what a pass takes, whether the queue had more, and the queue after it.
  unfoldable pub take_in : ToWriteQueue → (List MetricDto × Bool) × ToWriteQueue
  unfolding is_empty_batch
  take_in q =
      let taken : List MetricDto × ToWriteQueue = take_metrics q max in
      if is_empty_batch taken.0
      then ((taken.0, false), taken.1)
      else ((taken.0, length taken.0 == max), taken.1)

  -- The passes that `execute` asks for with `RepeatIteration::Yes`, one after another: their batches,
  -- and the queue once it asks for no more. `none` - no more rounds.
  unfoldable pub run_passes : ℕ → ToWriteQueue → Option (List (List MetricDto) × ToWriteQueue)
  unfolding with_batch
  run_passes zero q = none
  run_passes (suc rounds) q =
      let pass : (List MetricDto × Bool) × ToWriteQueue = take_in q in
      let again : Option (List (List MetricDto) × ToWriteQueue) = run_passes rounds pass.1 in
      if pass.0.1 then with_batch pass.0.0 again else some (pass.0.0 ∷ [], pass.1)
