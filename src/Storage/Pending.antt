-- ===== src/Storage/Pending.antt =====
-- my-telemetry-server/src/metrics_storage/pending.rs: the records which wait to be written, by
-- product scope and second.
pub mod Valid
pub mod Adds
pub mod Searches
pub mod Takes
pub mod Ready
use my_telemetry_server.Base.{
  ℕ, zero, suc, ◌+◌, ◌-◌, ◌*◌, ◌^◌, ltb, leb, ◌==◌, if◌then◌else◌, Bool, true, false, not, ◌&&◌,
  ◌||◌, Option, none, some, List, [], ◌∷◌, ◌++◌, map, length, filter, any,
}
use my_telemetry_server.Base.Int.{
  ℤ, pos, ◌+ℤ◌, ◌-ℤ◌, ◌*ℕ◌, ltb_ℤ, leb_ℤ, eqb_ℤ, wrap, saturate, div_euclid,
}
use my_telemetry_server.Base.Str.{Str, str_eq}
use my_telemetry_server.Base.Assoc.{get, insert, remove}
use my_telemetry_server.Base.Keys.{by_scope}
use my_telemetry_server.Base.Sort.{sort_by_key}
use my_telemetry_server.Storage.Rec.{Rec, time_of}
use my_telemetry_server.Storage.Retention.{micros_per_second}

abbrev pub max_pending_records : ℕ
max_pending_records = 1000000

abbrev pub max_time_ahead_micros : ℕ
max_time_ahead_micros = 24 * 60 * 60 * micros_per_second

-- An `Instant` is the number of nanoseconds since the process started.
pub record PendingBucket : Type 0 where
  pub created : ℕ
  pub records : List Rec

pub record ReadyBucket : Type 0 where
  pub scope : Str
  pub second : ℤ
  pub records : List Rec

-- An `Arc`: the place it points to, and what is there.
pub record Arc {ℓ} (A : Type ℓ) : Type ℓ where
  pub place : ℕ
  pub value : A

-- `free_place` is the place of the next allocation.
pub record PendingMetrics : Type 0 where
  pub buckets : List ((Str × ℤ) × PendingBucket)
  pub being_written : List (Arc ReadyBucket)
  pub records : ℕ
  pub max_records : ℕ
  pub free_place : ℕ

abbrev pub default : PendingMetrics
default = record {
  buckets = [];
  being_written = [];
  records = 0;
  max_records = max_pending_records;
  free_place = 0;
}

unfoldable pub time_to_keep : ℤ → ℤ → ℤ
time_to_keep started_at now =
    if leb_ℤ started_at (pos 0) || ltb_ℤ (saturate (now +ℤ pos max_time_ahead_micros)) started_at
    then now
    else started_at

-- `max(0)`
unfoldable pub at_least_0 : ℤ → ℤ
at_least_0 z = if leb_ℤ z (pos 0) then pos 0 else z

unfoldable pub put_in_time : Rec → ℤ → Rec
unfolding time_to_keep at_least_0
put_in_time r now =
    let started_at : ℤ = time_to_keep r.started_at now in
    let duration : ℤ = at_least_0 (saturate (r.finished_at -ℤ r.started_at)) in
    if not (eqb_ℤ started_at r.started_at)
    then record r { started_at = started_at; finished_at = saturate (started_at +ℤ duration) }
    else r

unfoldable pub key_of : Str → Rec → Str × ℤ
key_of scope r = (scope, div_euclid (time_of r) micros_per_second)

or_new : ℕ → Option PendingBucket → PendingBucket
or_new now none = record { created = now; records = [] }
or_new now (some bucket) = bucket

-- A round of the first loop of `add`.
unfoldable pub add_record : Str → ℕ → ℤ → PendingMetrics → Rec → PendingMetrics
unfolding or_new
add_record scope now now_micros p record' =
    let kept : Rec = put_in_time record' now_micros in
    let key : Str × ℤ = key_of scope kept in
    let bucket : PendingBucket = or_new now (get key p.buckets) in
    record p {
      buckets = insert key (record bucket { records = bucket.records ++ (kept ∷ []) }) p.buckets;
      records = p.records + 1;
    }

unfoldable pub add_records : Str → ℕ → ℤ → PendingMetrics → List Rec → PendingMetrics
add_records scope now now_micros p [] = p
add_records scope now now_micros p (r ∷ rs) =
    add_records scope now now_micros (add_record scope now now_micros p r) rs

-- `min_by_key`: of the buckets created first, the first.
older : (Str × ℤ) × PendingBucket → List ((Str × ℤ) × PendingBucket) → (Str × ℤ) × PendingBucket
older best [] = best
older best (e ∷ es) = if ltb e.1.created best.1.created then older e es else older best es

unfoldable pub oldest : List ((Str × ℤ) × PendingBucket) → Option ((Str × ℤ) × PendingBucket)
unfolding older
oldest [] = none
oldest (e ∷ es) = some (older e es)

-- What is done with the bucket `oldest` finds; `none` - the `unwrap` of no bucket.
unfoldable pub drop_bucket :
    PendingMetrics → Option ((Str × ℤ) × PendingBucket) → Option (PendingMetrics × ℕ)
drop_bucket p none = none
drop_bucket p (some (key, bucket)) = some (
  record p { buckets = remove key p.buckets; records = p.records - length bucket.records },
  length bucket.records,
)

-- The second loop of `add`; `none` - a panic, or out of fuel.
unfoldable pub drop_oldest : ℕ → PendingMetrics → ℕ → Option (PendingMetrics × ℕ)
drop_oldest zero p dropped = none
drop_oldest (suc fuel) p dropped =
    let less : Option (PendingMetrics × ℕ) = elim (drop_bucket p (oldest p.buckets)) [
      | none ↦ none
      | some (q, n) ↦ drop_oldest fuel q (dropped + n)
    ] in
    if ltb p.max_records p.records then less else some (p, dropped)

-- A round drops a bucket, so a round for each bucket and one more are enough.
unfoldable pub add : PendingMetrics → Str → List Rec → ℕ → ℤ → Option (PendingMetrics × ℕ)
add p scope records now now_micros =
    let added : PendingMetrics = add_records scope now now_micros p records in
    drop_oldest (suc (length added.buckets)) added 0

-- `Instant::duration_since` stops at 0.
unfoldable pub is_ready : ℕ → ℕ → Bool → PendingBucket → Bool
is_ready now window all bucket = all || leb window (now - bucket.created)

unfoldable pub ready_keys : ℕ → ℕ → Bool → List ((Str × ℤ) × PendingBucket) → List (Str × ℤ)
ready_keys now window all buckets =
    map (λ e. e.0) (filter (λ e. is_ready now window all e.1) buckets)

-- The bucket of the key is taken out of the ones which wait; `none` - the `unwrap` of no bucket.
unfoldable pub take_bucket :
    PendingMetrics → Str × ℤ → Option PendingBucket → Option (ReadyBucket × PendingMetrics)
take_bucket p key none = none
take_bucket p key (some bucket) = some (
  record { scope = key.0; second = key.1; records = sort_by_key time_of bucket.records },
  record p { buckets = remove key p.buckets; records = p.records - length bucket.records },
)

unfoldable pub take_buckets :
    PendingMetrics → List (Str × ℤ) → Option (List ReadyBucket × PendingMetrics)
take_buckets p [] = some ([], p)
take_buckets p (key ∷ keys) = elim (take_bucket p key (get key p.buckets)) [
  | none ↦ none
  | some (bucket, q) ↦ elim (take_buckets q keys) [
    | none ↦ none
    | some (buckets, q') ↦ some (bucket ∷ buckets, q')
  ]
]

-- `Arc::new` of each of them: places from `place` on.
unfoldable pub allocate : ℕ → List ReadyBucket → List (Arc ReadyBucket)
allocate place [] = []
allocate place (b ∷ bs) = record { place = place; value = b } ∷ allocate (suc place) bs

unfoldable pub take_ready :
    PendingMetrics
    → ℕ
    → ℕ
    → Bool
    → (List ReadyBucket → List ReadyBucket)
    → Option (List (Arc ReadyBucket) × PendingMetrics)
take_ready p now window all prepare = elim (take_buckets p (ready_keys now window all p.buckets)) [
  | none ↦ none
  | some (buckets, q) ↦
      let ready : List (Arc ReadyBucket) = allocate q.free_place (prepare buckets) in
      some (
        ready,
        record q {
          being_written = q.being_written ++ ready;
          free_place = q.free_place + length ready;
        },
      )
]

-- `Arc::ptr_eq`
unfoldable pub is_one_of : List (Arc ReadyBucket) → Arc ReadyBucket → Bool
is_one_of written bucket = any (λ w. w.place == bucket.place) written

unfoldable pub written : PendingMetrics → List (Arc ReadyBucket) → PendingMetrics
written p done = record p { being_written = filter (λ b. not (is_one_of done b)) p.being_written }

being_written_len : List (Arc ReadyBucket) → ℕ
being_written_len [] = 0
being_written_len (b ∷ bs) = length b.value.records + being_written_len bs

unfoldable pub len : PendingMetrics → ℕ
unfolding being_written_len
len p = p.records + being_written_len p.being_written

unfoldable pub scopes : PendingMetrics → List Str
scopes p = map (λ e. e.0.0) p.buckets ++ map (λ b. b.value.scope) p.being_written

-- A second of a scope and its records, as `search` goes over the waiting and the taken ones.
unfoldable pub seconds : PendingMetrics → List ((Str × ℤ) × List Rec)
seconds p =
    map (λ e. (e.0, e.1.records)) p.buckets
    ++ map (λ b. ((b.value.scope, b.value.second), b.value.records)) p.being_written

unfoldable pub other_scope : Option Str → Str → Bool
other_scope none of_bucket = false
other_scope (some scope) of_bucket = not (str_eq scope of_bucket)

-- The second is left out of the search.
unfoldable pub is_skipped : Option Str → ℤ → ℤ → Str × ℤ → Bool
unfolding other_scope
is_skipped scope from to key =
    let start : ℤ = wrap (key.1 *ℕ micros_per_second) in
    other_scope scope key.0
    || (ltb_ℤ to start || leb_ℤ (wrap (start +ℤ pos micros_per_second)) from)

unfoldable pub is_found : ℤ → ℤ → (Rec → Bool) → Rec → Bool
is_found from to matches r = leb_ℤ from (time_of r) && (leb_ℤ (time_of r) to && matches r)

unfoldable pub search_in :
    Option Str → ℤ → ℤ → (Rec → Bool) → List ((Str × ℤ) × List Rec) → List Rec
search_in scope from to matches [] = []
search_in scope from to matches (s ∷ rest) =
    if is_skipped scope from to s.0
    then search_in scope from to matches rest
    else filter (is_found from to matches) s.1 ++ search_in scope from to matches rest

unfoldable pub search : PendingMetrics → Option Str → ℤ → ℤ → (Rec → Bool) → List Rec
search p scope from to matches = search_in scope from to matches (seconds p)
