-- ===== src/Server/Queue/Order.antt =====
-- Whatever writers and the executor do, metrics leave the queue in the order they came.
use my_telemetry_server.Base.{
  ℕ, ◌≤◌, ◌≡◌, refl, sym, ap, ◌∙◌, arith, leb, List, [], ◌∷◌, ◌++◌, length, length-take,
  take-append-drop, append_assoc, append-nil, Bool-cases, inl, inr,
}
use my_telemetry_server.Server.Metric.{MetricDto}
use my_telemetry_server.Server.Queue.{ToWriteQueue, new_queue, enqueue, take_metrics}

enqueue_lem : (q : ToWriteQueue) (batch : List MetricDto) → enqueue q batch ≡ q ++ batch
unfolding enqueue
enqueue_lem [] batch = refl
enqueue_lem (m ∷ q) batch = refl

take_metrics_lem :
    (q : ToWriteQueue) (max : ℕ)
    → ((take_metrics q max).0 ++ (take_metrics q max).1 ≡ q) × (length (take_metrics q max).0 ≤ max)
unfolding take_metrics
take_metrics_lem q max = elim (Bool-cases (leb (length q) max)) [
  | inl e ↦ rw e (append-nil q, ground (arith, e))
  | inr e ↦ rw e (take-append-drop max q, omega (arith, length-take max q))
]

-- The locked steps of the queue, in any interleaving: what came in so far, what was taken out, and
-- what is in it.
pub data Reaches : List MetricDto → List MetricDto → ToWriteQueue → Type 0 where
  starts : Reaches [] [] new_queue
  enqueued :
      {came taken : List MetricDto} {q : ToWriteQueue} (batch : List MetricDto)
      → Reaches came taken q
      → Reaches (came ++ batch) taken (enqueue q batch)
  took :
      {came taken : List MetricDto} {q : ToWriteQueue} (max : ℕ)
      → Reaches came taken q
      → Reaches came (taken ++ (take_metrics q max).0) (take_metrics q max).1

-- In every state the queue reaches, what was taken and then what is in it are what came, in the
-- order it came: no metric is lost, taken twice or overtaken.
pub taken-in_order :
    {came taken : List MetricDto} {q : ToWriteQueue} → Reaches came taken q → taken ++ q ≡ came
taken-in_order starts = refl
taken-in_order (enqueued {came} {taken} {q} batch r) =
    ap (λ w. taken ++ w) (enqueue_lem q batch)
    ∙ sym (append_assoc taken q batch)
    ∙ ap (λ w. w ++ batch) (taken-in_order r)
taken-in_order (took {came} {taken} {q} max r) =
    append_assoc taken (take_metrics q max).0 (take_metrics q max).1
    ∙ ap (λ w. taken ++ w) (take_metrics_lem q max).0
    ∙ taken-in_order r
