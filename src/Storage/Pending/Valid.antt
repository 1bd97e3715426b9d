-- ===== src/Storage/Pending/Valid.antt =====
-- The state of the pending records: its invariant, and that `add` keeps it.
use my_telemetry_server.Base.{
  ℕ, ◌+◌, ◌^◌, ◌<◌, ◌≡◌, refl, ap, ◌∙◌, arith, Option, none, some, List, [], ◌∷◌, ◌++◌, length, All,
  All-append, length-append,
}
use my_telemetry_server.Base.Int.{ℤ, pos, pos_part, neg_part, ◌+ℤ◌, eqb_ℤ→eq, saturate, div_euclid}
use my_telemetry_server.Base.Str.{Str}
use my_telemetry_server.Base.Assoc.{
  get, IsSorted, insert-IsSorted, All-insert, All_get, sum_of, value_or, sum_of-insert,
}
use my_telemetry_server.Base.Keys.{by_scope}
use my_telemetry_server.Storage.Rec.{Rec, time_of}
use my_telemetry_server.Storage.Retention.{micros_per_second}
use my_telemetry_server.Storage.Pending.{
  PendingBucket, ReadyBucket, Arc, PendingMetrics, max_time_ahead_micros, time_to_keep, put_in_time,
  key_of, or_new, add_record, add_records,
}

-- A time which the storage keeps a record at.
abbrev pub IsKept : ℤ → Type 0
IsKept t = (neg_part t ≡ 0) × (pos_part t < 2 ^ 62 + max_time_ahead_micros)

-- The record is one of the second.
abbrev pub IsOf : ℤ → Rec → Type 0
IsOf second r = (div_euclid (time_of r) micros_per_second ≡ second) × IsKept (time_of r)

abbrev pub IsWaiting : (Str × ℤ) × PendingBucket → Type 0
IsWaiting e = All (IsOf e.0.1) e.1.records

abbrev pub IsTaken : Arc ReadyBucket → Type 0
IsTaken b = All (IsOf b.value.second) b.value.records

abbrev pub bucket_len : PendingBucket → ℕ
bucket_len b = length b.records

pub record IsValid (p : PendingMetrics) : Type 0 where
  pub sorted : IsSorted p.buckets
  pub counted : p.records ≡ sum_of bucket_len p.buckets
  pub waiting : All IsWaiting p.buckets
  pub taken : All IsTaken p.being_written
  pub placed : All (λ b. b.place < p.free_place) p.being_written

-- A time is kept as it is, or is the time it came.
time_to_keep-IsKept :
    (started_at : ℤ) (now : ℕ) → now < 2 ^ 62 → IsKept (time_to_keep started_at (pos now))
unfolding time_to_keep saturate ◌+ℤ◌
time_to_keep-IsKept started_at now h = ground arith

time_of-put_in_time :
    (r : Rec) (now : ℤ) → time_of (put_in_time r now) ≡ time_to_keep r.started_at now
unfolding put_in_time
time_of-put_in_time r now = ground (arith, eqb_ℤ→eq (time_to_keep r.started_at now) r.started_at)

pub put_in_time-IsKept :
    (r : Rec) (now : ℕ) → now < 2 ^ 62 → IsKept (time_of (put_in_time r (pos now)))
put_in_time-IsKept r now h =
    rw (time_of-put_in_time r (pos now)) (time_to_keep-IsKept r.started_at now h)

or_new-IsOf :
    (now : ℕ) (second : ℤ) (o : Option PendingBucket)
    → ((b : PendingBucket) → o ≡ some b → All (IsOf second) b.records)
    → All (IsOf second) (or_new now o).records
unfolding or_new
or_new-IsOf now second none h = record {}
or_new-IsOf now second (some b) h = h b refl

length-or_new :
    (now : ℕ) (o : Option PendingBucket) → length (or_new now o).records ≡ value_or bucket_len o
unfolding or_new
length-or_new now none = refl
length-or_new now (some b) = refl

pub add_record-IsValid :
    (scope : Str) (now micros : ℕ) (p : PendingMetrics) (r : Rec)
    → micros < 2 ^ 62
    → IsValid p
    → IsValid (add_record scope now (pos micros) p r)
unfolding add_record key_of
add_record-IsValid scope now micros p r h v =
    let kept : Rec = put_in_time r (pos micros) in
    let key : Str × ℤ = key_of scope kept in
    let bucket : PendingBucket = or_new now (get key p.buckets) in
    let next : PendingBucket = record bucket { records = bucket.records ++ (kept ∷ []) } in
    let len : length next.records ≡ value_or bucket_len (get key p.buckets) + 1 =
      length-append bucket.records (kept ∷ [])
      ∙ ap (λ n. n + 1) (length-or_new now (get key p.buckets)) in
    record {
      sorted = insert-IsSorted key next p.buckets v.sorted;
      counted = omega (arith, len, v.counted, sum_of-insert bucket_len key next p.buckets v.sorted);
      waiting =
          All-insert IsWaiting key next p.buckets
            (All-append (IsOf key.1) bucket.records (kept ∷ [])
              (or_new-IsOf now key.1 (get key p.buckets)
                (λ b e. All_get IsWaiting key p.buckets b v.waiting e))
              ((refl, put_in_time-IsKept r micros h), record {}))
            v.waiting;
      taken = v.taken;
      placed = v.placed;
    }

pub add_records-IsValid :
    (scope : Str) (now micros : ℕ) (p : PendingMetrics) (rs : List Rec)
    → micros < 2 ^ 62
    → IsValid p
    → IsValid (add_records scope now (pos micros) p rs)
      × ((add_records scope now (pos micros) p rs).records ≡ p.records + length rs)
      × ((add_records scope now (pos micros) p rs).max_records ≡ p.max_records)
      × ((add_records scope now (pos micros) p rs).being_written ≡ p.being_written)
unfolding add_records
add_records-IsValid scope now micros p [] h v = (v, omega arith, refl, refl)
add_records-IsValid scope now micros p (r ∷ rs) h v =
    let (w, n, m, b) =
      add_records-IsValid scope now micros (add_record scope now (pos micros) p r) rs h
        (add_record-IsValid scope now micros p r h v) in
    (
      w,
      n ∙ (unfold add_record in omega arith),
      m ∙ (unfold add_record in refl),
      b ∙ (unfold add_record in refl),
    )
