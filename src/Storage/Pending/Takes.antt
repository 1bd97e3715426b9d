-- ===== src/Storage/Pending/Takes.antt =====
-- No record is lost between the moment it is added and the moment it is written: the records which
-- wait, and the ones which are being written, are together what was added.
use my_telemetry_server.Base.{
  ℕ, ◌+◌, ◌^◌, ◌≤◌, ◌<◌, ◌≡◌, refl, ap, arith, Bool, Option, none, some, List, [], ◌∷◌, ◌++◌, map,
  length, count_if, count_if-append,
}
use my_telemetry_server.Base.Int.{ℤ, pos}
use my_telemetry_server.Base.Str.{Str}
use my_telemetry_server.Base.Assoc.{get, sum_of, value_or, sum_of-insert}
use my_telemetry_server.Base.Keys.{by_scope}
use my_telemetry_server.Storage.Rec.{Rec}
use my_telemetry_server.Storage.Pending.{
  PendingBucket, ReadyBucket, Arc, PendingMetrics, put_in_time, key_of, or_new, add_record,
  add_records, drop_oldest, add, seconds, other_scope,
}
use my_telemetry_server.Storage.Pending.Valid.{IsValid, add_record-IsValid, add_records-IsValid}
use my_telemetry_server.Storage.Pending.Searches.{records_of}

-- All records which are not written yet.
abbrev pub all_records : PendingMetrics → List Rec
all_records p = records_of none (seconds p)

abbrev pub taken_count : (Rec → Bool) → List (Arc ReadyBucket) → ℕ
taken_count matches [] = 0
taken_count matches (b ∷ bs) = count_if matches b.value.records + taken_count matches bs

abbrev pub ready_count : (Rec → Bool) → List ReadyBucket → ℕ
ready_count matches [] = 0
ready_count matches (b ∷ bs) = count_if matches b.records + ready_count matches bs

abbrev pub count_in_bucket : (Rec → Bool) → PendingBucket → ℕ
count_in_bucket matches b = count_if matches b.records

records_of-append :
    (ss ts : List ((Str × ℤ) × List Rec)) (matches : Rec → Bool)
    → count_if matches (records_of none (ss ++ ts))
      ≡ count_if matches (records_of none ss) + count_if matches (records_of none ts)
unfolding records_of other_scope
records_of-append [] ts matches = omega arith
records_of-append (s ∷ ss) ts matches = omega (
  arith,
  records_of-append ss ts matches,
  count_if-append matches s.1 (records_of none (ss ++ ts)),
  count_if-append matches s.1 (records_of none ss),
)

count_waiting :
    (m : List ((Str × ℤ) × PendingBucket)) (matches : Rec → Bool)
    → count_if matches (records_of none (map (λ e. (e.0, e.1.records)) m))
      ≡ sum_of (count_in_bucket matches) m
unfolding records_of other_scope
count_waiting [] matches = refl
count_waiting (e ∷ m) matches = omega (
  arith,
  count_waiting m matches,
  count_if-append matches e.1.records (records_of none (map (λ e. (e.0, e.1.records)) m)),
)

count_taken :
    (bs : List (Arc ReadyBucket)) (matches : Rec → Bool)
    → count_if matches
        (records_of none (map (λ b. ((b.value.scope, b.value.second), b.value.records)) bs))
      ≡ taken_count matches bs
unfolding records_of other_scope
count_taken [] matches = refl
count_taken (b ∷ bs) matches = omega (
  arith,
  count_taken bs matches,
  count_if-append matches b.value.records
      (records_of none (map (λ b. ((b.value.scope, b.value.second), b.value.records)) bs)),
)

pub count_all :
    (p : PendingMetrics) (matches : Rec → Bool)
    → count_if matches (all_records p)
      ≡ sum_of (count_in_bucket matches) p.buckets + taken_count matches p.being_written
unfolding seconds
count_all p matches = omega (
  arith,
  records_of-append (map (λ e. (e.0, e.1.records)) p.buckets)
      (map (λ b. ((b.value.scope, b.value.second), b.value.records)) p.being_written) matches,
  count_waiting p.buckets matches,
  count_taken p.being_written matches,
)

count-or_new :
    (now : ℕ) (o : Option PendingBucket) (matches : Rec → Bool)
    → count_if matches (or_new now o).records ≡ value_or (count_in_bucket matches) o
unfolding or_new
count-or_new now none matches = refl
count-or_new now (some b) matches = refl

count-add_records :
    (scope : Str) (now micros : ℕ) (p : PendingMetrics) (rs : List Rec) (matches : Rec → Bool)
    → micros < 2 ^ 62
    → IsValid p
    → sum_of (count_in_bucket matches) (add_records scope now (pos micros) p rs).buckets
      ≡ sum_of (count_in_bucket matches) p.buckets
        + count_if matches (map (λ r. put_in_time r (pos micros)) rs)
unfolding add_records add_record
count-add_records scope now micros p [] matches h v = omega arith
count-add_records scope now micros p (r ∷ rs) matches h v =
    let kept : Rec = put_in_time r (pos micros) in
    let key : Str × ℤ = key_of scope kept in
    let bucket : PendingBucket = or_new now (get key p.buckets) in
    let next : PendingBucket = record bucket { records = bucket.records ++ (kept ∷ []) } in
    ground (
      arith,
      count-add_records scope now micros (add_record scope now (pos micros) p r) rs matches h
          (add_record-IsValid scope now micros p r h v),
      sum_of-insert (count_in_bucket matches) key next p.buckets v.sorted,
      count_if-append matches bucket.records (kept ∷ []),
      count-or_new now (get key p.buckets) matches,
    )

-- When there is room for the records added, none is dropped, and each of them is among the records
-- not written yet, at the time it is kept at.
pub add_keeps :
    (p : PendingMetrics) (scope : Str) (rs : List Rec) (now micros : ℕ) (matches : Rec → Bool)
    → IsValid p
    → micros < 2 ^ 62
    → p.records + length rs ≤ p.max_records
    → (q : PendingMetrics) × (add p scope rs now (pos micros) ≡ some (q, 0))
      × (count_if matches (all_records q)
          ≡ count_if matches (all_records p)
            + count_if matches (map (λ r. put_in_time r (pos micros)) rs))
unfolding add drop_oldest
add_keeps p scope rs now micros matches v h room =
    let added : PendingMetrics = add_records scope now (pos micros) p rs in
    let (w, n, m, b) = add_records-IsValid scope now micros p rs h v in
    (
      added,
      ground (arith, n, m),
      omega (
        arith,
        count_all added matches,
        count_all p matches,
        count-add_records scope now micros p rs matches h v,
        ap (taken_count matches) b,
      ),
    )
