-- ===== src/Server/Queue/Passes.antt =====
-- The passes of the job which takes in the queued metrics come to an end, with nothing left in the
-- queue.
use my_telemetry_server.Base.{
  ℕ, zero, suc, ◌≤◌, ◌<◌, ◌≡◌, refl, sym, ap, ap₂, subst, ◌∙◌, arith, leb, ◌==◌, true, false, some,
  List, [], ◌∷◌, ◌++◌, length, take, drop, All, length-take, length-drop, take-append-drop,
  append-nil, take-length-append, drop-length-append, Bool-cases, inl, inr,
}
use my_telemetry_server.Server.Metric.{MetricDto}
use my_telemetry_server.Server.Queue.{
  ToWriteQueue, take_metrics, take_in, is_empty_batch, run_passes, with_batch,
}

-- The metrics of batches, in their order.
abbrev pub joined : List (List MetricDto) → List MetricDto
joined [] = []
joined (b ∷ bs) = b ++ joined bs

module _ (max : ℕ) (some_metrics : 0 < max) where
  is_all : (q : ToWriteQueue) → length q < max → leb (length q) max ≡ true
  is_all q few = ground (arith, few)

  take_in_all : (q : ToWriteQueue) → length q < max → take_in max q ≡ ((q, false), [])
  unfolding take_in take_metrics is_empty_batch
  take_in_all [] few = rw (is_all [] few) refl
  take_in_all (m ∷ q) few = rw (is_all (m ∷ q) few, is_less few) refl
    where
      is_less : {n : ℕ} → n < max → (n == max) ≡ false
      is_less lt = ground (arith, lt)

  is_full_batch : (l : List MetricDto) → length l ≡ max → is_empty_batch l ≡ false
  unfolding is_empty_batch
  is_full_batch [] e = absurd (omega (arith, e, some_metrics))
  is_full_batch (m ∷ l) e = refl

  take_metrics_more :
      (q : ToWriteQueue) → max ≤ length q → take_metrics q max ≡ (take max q, drop max q)
  unfolding take_metrics
  take_metrics_more q many = elim (Bool-cases (leb (length q) max)) [
    | inr k ↦ rw k refl
    | inl k ↦
        let same : length q ≡ max = ground (arith, k, many) in
        rw k (ap₂ (λ a b. (a, b)) (sym (take_whole q same)) (sym (drop_whole q same)))
  ]
    where
      take_whole : (l : List MetricDto) → length l ≡ max → take max l ≡ l
      take_whole l e =
          subst (λ n. take n l ≡ l) e
            (ap (take (length l)) (sym (append-nil l)) ∙ take-length-append l [])

      drop_whole : (l : List MetricDto) → length l ≡ max → drop max l ≡ []
      drop_whole l e =
          subst (λ n. drop n l ≡ []) e
            (ap (drop (length l)) (sym (append-nil l)) ∙ drop-length-append l [])

  take_in_more :
      (q : ToWriteQueue) → max ≤ length q → take_in max q ≡ ((take max q, true), drop max q)
  unfolding take_in
  take_in_more q many =
      let len : length (take max q) ≡ max = omega (arith, length-take max q, many) in
      rw (take_metrics_more q many, is_full_batch (take max q) len, is_same len) refl
    where
      is_same : {n : ℕ} → n ≡ max → (n == max) ≡ true
      is_same e = ground (arith, e)

  -- `execute` asks for another pass while the queue had as much as one takes. Made one after another,
  -- without a writer between them, the passes come to an end: the queue is then empty, the batches they
  -- took are what was in it, in its order, and none is of more than a pass takes. A pass takes one metric
  -- at least.
  pub run_passes-empties :
      (q : ToWriteQueue) (rounds : ℕ)
      → length q < rounds
      → (bs : List (List MetricDto)) × (run_passes max rounds q ≡ some (bs, []))
        × (joined bs ≡ q)
        × All (λ b. length b ≤ max) bs
  unfolding run_passes with_batch
  run_passes-empties q zero enough = absurd (omega (arith, enough))
  run_passes-empties q (suc rounds) enough = elim (Bool-cases (leb max (length q))) [
    | inl k ↦
        let many : max ≤ length q = ground (arith, k) in
        let (bs, eq, is, fits) =
          run_passes-empties (drop max q) rounds
            (omega (arith, length-drop max q, enough, many, some_metrics)) in
        (
          take max q ∷ bs,
          rw (take_in_more q many, eq) refl,
          ap (λ l. take max q ++ l) is ∙ take-append-drop max q,
          (omega (arith, length-take max q), fits),
        )
    | inr k ↦
        let few : length q < max = ground (arith, k) in
        (q ∷ [], rw (take_in_all q few) refl, append-nil q, (omega (arith, few), record {}))
  ]
