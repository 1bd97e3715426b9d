-- ===== src/Storage/Pending/Ready.antt =====
-- `take_ready` moves seconds from the records which wait to the ones being written, and `written`
-- lets go of exactly these.
use my_telemetry_server.Base.{
  ℕ, suc, ◌+◌, ◌-◌, ◌≤◌, ◌<◌, ◌≡◌, refl, ap, ap₂, subst, ◌∙◌, arith, Bool, true, false, not, some,
  List, [], ◌∷◌, ◌++◌, length, append-nil, append_assoc, filter, All, All-append, All_map,
  filter-append, filter-none, count_if, inl, inr, Bool-cases,
}
use my_telemetry_server.Base.Int.{ℤ}
use my_telemetry_server.Base.Str.{Str}
use my_telemetry_server.Base.Assoc.{
  get, remove, IsSorted, sum_of, value_or, sum_of-remove, remove-IsSorted, All-remove, All_get,
  get_all, get-remove_ne, lt-ne,
}
use my_telemetry_server.Base.Keys.{by_scope}
use my_telemetry_server.Base.Sort.{sort_by_key, count_if-sort_by_key, All-sort_by_key}
use my_telemetry_server.Storage.Rec.{Rec, time_of}
use my_telemetry_server.Storage.Pending.{
  PendingBucket, ReadyBucket, Arc, PendingMetrics, is_ready, ready_keys, take_bucket, take_buckets,
  allocate, take_ready, is_one_of, written,
}
use my_telemetry_server.Storage.Pending.Valid.{IsValid, IsWaiting, IsTaken, IsOf, bucket_len}
use my_telemetry_server.Storage.Pending.Takes.{
  all_records, taken_count, ready_count, count_in_bucket, count_all,
}

abbrev pub IsReadyOf : ReadyBucket → Type 0
IsReadyOf b = All (IsOf b.second) b.records

-- Keys in order, each of them under a bucket.
abbrev InMap : List ((Str × ℤ) × PendingBucket) → List (Str × ℤ) → Type 0
InMap m [] = Unit
InMap m (k ∷ ks) =
    ((b : PendingBucket) × (get k m ≡ some b)) × (All (λ j. by_scope.lt k j ≡ true) ks × InMap m ks)

InMap-remove :
    (m : List ((Str × ℤ) × PendingBucket)) (k : Str × ℤ) (ks : List (Str × ℤ))
    → All (λ j. by_scope.lt k j ≡ true) ks
    → InMap m ks
    → InMap (remove k m) ks
InMap-remove m k [] h i = record {}
InMap-remove m k (j ∷ ks) h i =
    let (b, e) = i.0 in
    ((b, get-remove_ne j k m (lt-ne k j h.0) ∙ e), (i.1.0, InMap-remove m k ks h.1 i.1.1))

ready_keys_after :
    (now window : ℕ) (all : Bool) (k : Str × ℤ) (m : List ((Str × ℤ) × PendingBucket))
    → All (λ e. by_scope.lt k e.0 ≡ true) m
    → All (λ j. by_scope.lt k j ≡ true) (ready_keys now window all m)
unfolding ready_keys
ready_keys_after now window all k [] h = record {}
ready_keys_after now window all k (e ∷ m) h =
    ground (arith, h.0, ready_keys_after now window all k m h.1)

InMap-ready_keys :
    (now window : ℕ) (all : Bool) (m es : List ((Str × ℤ) × PendingBucket))
    → All (λ e. get e.0 m ≡ some e.1) es
    → IsSorted es
    → InMap m (ready_keys now window all es)
unfolding ready_keys
InMap-ready_keys now window all m [] h s = record {}
InMap-ready_keys now window all m (e ∷ es) h s = elim (Bool-cases (is_ready now window all e.1)) [
  | inl r ↦ rw r (
    (e.1, h.0),
    (ready_keys_after now window all e.0 es s.0, InMap-ready_keys now window all m es h.1 s.1),
  )
  | inr r ↦ rw r (InMap-ready_keys now window all m es h.1 s.1)
]

take_buckets_cons :
    (p r q : PendingMetrics) (key : Str × ℤ) (keys : List (Str × ℤ)) (b : ReadyBucket)
    (bs : List ReadyBucket)
    → take_bucket p key (get key p.buckets) ≡ some (b, r)
    → take_buckets r keys ≡ some (bs, q)
    → take_buckets p (key ∷ keys) ≡ some (b ∷ bs, q)
unfolding take_buckets
take_buckets_cons p r q key keys b bs e f = rw (take_buckets, e, f) refl

take_ready_lem :
    (p q : PendingMetrics) (now window : ℕ) (all : Bool)
    (prepare : List ReadyBucket → List ReadyBucket) (bs : List ReadyBucket)
    → take_buckets p (ready_keys now window all p.buckets) ≡ some (bs, q)
    → take_ready p now window all prepare
      ≡ some (
        allocate q.free_place (prepare bs),
        record q {
          being_written = q.being_written ++ allocate q.free_place (prepare bs);
          free_place = q.free_place + length (allocate q.free_place (prepare bs));
        },
      )
unfolding take_ready
take_ready_lem p q now window all prepare bs e = rw (take_ready, e) refl

-- What taking the buckets of the keys leaves.
take_buckets_lem :
    (p : PendingMetrics) (keys : List (Str × ℤ)) (matches : Rec → Bool)
    → IsValid p
    → InMap p.buckets keys
    → (bs : List ReadyBucket) × (q : PendingMetrics) × (take_buckets p keys ≡ some (bs, q))
      × IsValid q
      × All IsReadyOf bs
      × (sum_of (count_in_bucket matches) q.buckets + ready_count matches bs
          ≡ sum_of (count_in_bucket matches) p.buckets)
      × (q.being_written ≡ p.being_written)
      × (q.free_place ≡ p.free_place)
unfolding take_buckets take_bucket
take_buckets_lem p [] matches v i = ([], p, refl, v, record {}, omega arith, refl, refl)
take_buckets_lem p (key ∷ keys) matches v i =
    let (b, found) = i.0 in
    let taken : ReadyBucket = record {
      scope = key.0;
      second = key.1;
      records = sort_by_key time_of b.records;
    } in
    let rest : PendingMetrics = record p {
      buckets = remove key p.buckets;
      records = p.records - length b.records;
    } in
    let valid : IsValid rest = record {
      sorted = remove-IsSorted key p.buckets v.sorted;
      counted = omega (
        arith,
        v.counted,
        sum_of-remove bucket_len key p.buckets,
        ap (value_or bucket_len) found,
      );
      waiting = All-remove IsWaiting key p.buckets v.waiting;
      taken = v.taken;
      placed = v.placed;
    } in
    let (bs, q, eq, w, ready, count, written, place) =
      take_buckets_lem rest keys matches valid (InMap-remove p.buckets key keys i.1.0 i.1.1) in
    (
      taken ∷ bs,
      q,
      take_buckets_cons p rest q key keys taken bs (ap (take_bucket p key) found) eq,
      w,
      (
        All-sort_by_key time_of (IsOf key.1) b.records
            (All_get IsWaiting key p.buckets b v.waiting found),
        ready,
      ),
      omega (
        arith,
        count,
        count_if-sort_by_key time_of matches b.records,
        sum_of-remove (count_in_bucket matches) key p.buckets,
        ap (value_or (count_in_bucket matches)) found,
      ),
      written,
      place,
    )

taken_count-append :
    (matches : Rec → Bool) (xs ys : List (Arc ReadyBucket))
    → taken_count matches (xs ++ ys) ≡ taken_count matches xs + taken_count matches ys
taken_count-append matches [] ys = omega arith
taken_count-append matches (x ∷ xs) ys = omega (arith, taken_count-append matches xs ys)

allocate_lem :
    (place : ℕ) (bs : List ReadyBucket) (matches : Rec → Bool)
    → All IsReadyOf bs
    → (taken_count matches (allocate place bs) ≡ ready_count matches bs)
      × All IsTaken (allocate place bs)
      × All (λ b. b.place < place + length (allocate place bs)) (allocate place bs)
      × All (λ b. place ≤ b.place) (allocate place bs)
unfolding allocate
allocate_lem place [] matches h = (refl, record {}, record {}, record {})
allocate_lem place (b ∷ bs) matches h =
    let (count, taken, below, above) = allocate_lem (suc place) bs matches h.1 in
    (
      omega (arith, count),
      (h.0, taken),
      (omega arith, All_map _ _ (allocate (suc place) bs) (λ x l. omega (arith, l)) below),
      (omega arith, All_map _ _ (allocate (suc place) bs) (λ x l. omega (arith, l)) above),
    )

-- The ones allocated now are none of the ones from before.
none_of_new :
    (xs ys : List (Arc ReadyBucket)) (n : ℕ) (x : Arc ReadyBucket)
    → x.place < n
    → All (λ b. n ≤ b.place) ys
    → is_one_of ys x ≡ false
unfolding is_one_of
none_of_new xs [] n x h k = refl
none_of_new xs (y ∷ ys) n x h k = ground (arith, none_of_new xs ys n x h k.1, k.0)

old_stay :
    (xs ys : List (Arc ReadyBucket)) (n : ℕ)
    → All (λ b. b.place < n) xs
    → All (λ b. n ≤ b.place) ys
    → filter (λ b. not (is_one_of ys b)) xs ≡ xs
old_stay [] ys n h k = refl
old_stay (x ∷ xs) ys n h k =
    rw (none_of_new xs ys n x h.0 k) (ap (λ r. x ∷ r) (old_stay xs ys n h.1 k))

one_of_them :
    (x : Arc ReadyBucket) (xs ys : List (Arc ReadyBucket)) → is_one_of (xs ++ (x ∷ ys)) x ≡ true
unfolding is_one_of
one_of_them x [] ys = ground arith
one_of_them x (z ∷ xs) ys = ground (arith, one_of_them x xs ys)

new_go :
    (before ys : List (Arc ReadyBucket)) → All (λ b. not (is_one_of (before ++ ys) b) ≡ false) ys
new_go before [] = record {}
new_go before (y ∷ ys) = (
  ap not (one_of_them y before ys),
  subst (λ w. All (λ b. not (is_one_of w b) ≡ false) ys) (append_assoc before (y ∷ []) ys)
      (new_go (before ++ (y ∷ [])) ys),
)

written_new :
    (q : PendingMetrics) (ys : List (Arc ReadyBucket))
    → All (λ b. b.place < q.free_place) q.being_written
    → All (λ b. q.free_place ≤ b.place) ys
    → filter (λ b. not (is_one_of ys b)) (q.being_written ++ ys) ≡ q.being_written
written_new q ys h k =
    filter-append (λ b. not (is_one_of ys b)) q.being_written ys
    ∙ ap₂ (λ a b. a ++ b) (old_stay q.being_written ys q.free_place h k)
        (filter-none (λ b. not (is_one_of ys b)) ys (new_go [] ys))
    ∙ append-nil q.being_written

-- What is done to the records before they are written leaves as many which match, and leaves them
-- in their seconds.
pub record Prepares (prepare : List ReadyBucket → List ReadyBucket) (matches : Rec → Bool)
    : Type 0 where
  pub keeps_count :
      (bs : List ReadyBucket) → ready_count matches (prepare bs) ≡ ready_count matches bs
  pub keeps_seconds : (bs : List ReadyBucket) → All IsReadyOf bs → All IsReadyOf (prepare bs)

-- `take_ready` does not panic, keeps the state valid, and loses no record when `prepare` does not:
-- as many of the records which wait or are written, together, match as before. When the seconds it
-- gives are written, the ones being written are those from before it.
pub take_ready_keeps :
    (p : PendingMetrics) (now window : ℕ) (all : Bool)
    (prepare : List ReadyBucket → List ReadyBucket) (matches : Rec → Bool)
    → IsValid p
    → Prepares prepare matches
    → (ready : List (Arc ReadyBucket)) × (q : PendingMetrics) × (take_ready p now window all prepare
        ≡ some (ready, q))
      × IsValid q
      × (count_if matches (all_records q) ≡ count_if matches (all_records p))
      × ((written q ready).being_written ≡ p.being_written)
take_ready_keeps p now window all prepare matches v keeps =
    let keys : List (Str × ℤ) = ready_keys now window all p.buckets in
    let (bs, q, eq, w, ready, count, same, place) =
      take_buckets_lem p keys matches v (
        InMap-ready_keys now window all p.buckets p.buckets (get_all p.buckets v.sorted)
          v.sorted) in
    let given : List (Arc ReadyBucket) = allocate q.free_place (prepare bs) in
    let (given_count, given_taken, given_below, given_above) =
      allocate_lem q.free_place (prepare bs) matches (keeps.keeps_seconds bs ready) in
    let next : PendingMetrics = record q {
      being_written = q.being_written ++ given;
      free_place = q.free_place + length given;
    } in
    (
      given,
      next,
      take_ready_lem p q now window all prepare bs eq,
      record {
        sorted = w.sorted;
        counted = w.counted;
        waiting = w.waiting;
        taken = All-append IsTaken q.being_written given w.taken given_taken;
        placed =
            All-append (λ b. b.place < q.free_place + length given) q.being_written given
              (All_map _ _ q.being_written (λ x l. omega (arith, l)) w.placed) given_below;
      },
      omega (
        arith,
        count_all next matches,
        count_all p matches,
        count,
        given_count,
        keeps.keeps_count bs,
        taken_count-append matches q.being_written given,
        ap (taken_count matches) same,
      ),
      let back : (written next given).being_written ≡ q.being_written =
            (unfold written in written_new q given w.placed given_above) in
          back ∙ same,
    )
