-- ===== src/Storage/Pending/Adds.antt =====
-- `add` ends, keeps the records bounded, and loses none of them without saying so.
use my_telemetry_server.Base.{
  ℕ, zero, suc, ◌+◌, ◌-◌, ◌^◌, ◌≤◌, ◌<◌, ◌≡◌, refl, ap, ◌∙◌, arith, ltb, some, List, [], ◌∷◌,
  length, All, inl, inr, Bool-cases,
}
use my_telemetry_server.Base.Int.{ℤ, pos}
use my_telemetry_server.Base.Str.{Str}
use my_telemetry_server.Base.Assoc.{
  get, remove, IsSorted, remove-IsSorted, All-remove, sum_of, value_or, sum_of-remove,
  length-remove, get_first,
}
use my_telemetry_server.Base.Keys.{by_scope}
use my_telemetry_server.Storage.Rec.{Rec}
use my_telemetry_server.Storage.Pending.{
  PendingBucket, PendingMetrics, add_records, older, oldest, drop_bucket, drop_oldest, add,
}
use my_telemetry_server.Storage.Pending.Valid.{IsValid, IsWaiting, bucket_len, add_records-IsValid}

-- What `older` finds is an entry of the map.
get-older :
    (best : (Str × ℤ) × PendingBucket) (m es : List ((Str × ℤ) × PendingBucket))
    → get best.0 m ≡ some best.1
    → All (λ e. get e.0 m ≡ some e.1) es
    → get (older best es).0 m ≡ some (older best es).1
unfolding older
get-older best m [] h hs = h
get-older best m (e ∷ es) h hs =
    ground (arith, get-older e m es hs.0 hs.1, get-older best m es h hs.1)

oldest_found :
    (m : List ((Str × ℤ) × PendingBucket))
    → IsSorted m
    → 0 < length m
    → (e : (Str × ℤ) × PendingBucket) × (oldest m ≡ some e) × (get e.0 m ≡ some e.1)
unfolding oldest
oldest_found [] s h = absurd (omega arith)
oldest_found (e ∷ es) s h =
    let (here, after) = get_first e es s in (older e es, refl, get-older e (e ∷ es) es here after)

-- A bucket out of the map.
drop_one-IsValid :
    (p : PendingMetrics) (key : Str × ℤ) (b : PendingBucket)
    → IsValid p
    → get key p.buckets ≡ some b
    → IsValid (record p { buckets = remove key p.buckets; records = p.records - length b.records })
drop_one-IsValid p key b v e = record {
  sorted = remove-IsSorted key p.buckets v.sorted;
  counted =
      omega (arith, v.counted, sum_of-remove bucket_len key p.buckets, ap (value_or bucket_len) e);
  waiting = All-remove IsWaiting key p.buckets v.waiting;
  taken = v.taken;
  placed = v.placed;
}

some_bucket : (m : List ((Str × ℤ) × PendingBucket)) → 0 < sum_of bucket_len m → 0 < length m
some_bucket [] h = h
some_bucket (e ∷ m) h = omega arith

empty_records : (p : PendingMetrics) → IsValid p → p.max_records < p.records → 0 < length p.buckets
empty_records p v h = some_bucket p.buckets (omega (arith, v.counted))

drop_oldest_lem :
    (fuel : ℕ) (p : PendingMetrics) (dropped : ℕ)
    → IsValid p
    → length p.buckets < fuel
    → (q : PendingMetrics) × (n : ℕ) × (drop_oldest fuel p dropped ≡ some (q, n))
      × IsValid q
      × (q.records ≤ q.max_records)
      × (q.max_records ≡ p.max_records)
      × (q.records + n ≡ p.records + dropped)
      × (q.being_written ≡ p.being_written)
unfolding drop_oldest drop_bucket
drop_oldest_lem zero p dropped v h = absurd (omega arith)
drop_oldest_lem (suc fuel) p dropped v h = elim (Bool-cases (ltb p.max_records p.records)) [
  | inl over ↦
      let (e, is_oldest, found) =
        oldest_found p.buckets v.sorted (empty_records p v (ground (arith, over))) in
      let less : PendingMetrics = record p {
        buckets = remove e.0 p.buckets;
        records = p.records - length e.1.records;
      } in
      let (q, n, eq, w, bound, same, sum, taken) =
        drop_oldest_lem fuel less (dropped + length e.1.records)
          (drop_one-IsValid p e.0 e.1 v found)
          (omega (arith, length-remove e.0 p.buckets e.1 found)) in
      (
        q,
        n,
        rw (is_oldest, over) eq,
        w,
        bound,
        same,
        omega (
          arith,
          sum,
          v.counted,
          sum_of-remove bucket_len e.0 p.buckets,
          ap (value_or bucket_len) found,
        ),
        taken,
      )
  | inr within ↦ (p, dropped, rw within refl, v, ground (arith, within), refl, refl, refl)
]

-- `add` ends with no panic and keeps the state valid and within its bound. What waits after it and
-- what it says it dropped are what waited before it and what was added. What is being written is
-- not touched.
pub add_bounded :
    (p : PendingMetrics) (scope : Str) (rs : List Rec) (now micros : ℕ)
    → IsValid p
    → micros < 2 ^ 62
    → (q : PendingMetrics) × (dropped : ℕ) × (add p scope rs now (pos micros) ≡ some (q, dropped))
      × IsValid q
      × (q.records ≤ p.max_records)
      × (q.records + dropped ≡ p.records + length rs)
      × (q.being_written ≡ p.being_written)
unfolding add
add_bounded p scope rs now micros v h =
    let added : PendingMetrics = add_records scope now (pos micros) p rs in
    let (w, n, m, b) = add_records-IsValid scope now micros p rs h v in
    let (q, dropped, eq, x, bound, same, sum, taken) =
      drop_oldest_lem (suc (length added.buckets)) added 0 w (omega arith) in
    (q, dropped, eq, x, omega (arith, bound, same, m), omega (arith, sum, n), taken ∙ b)
