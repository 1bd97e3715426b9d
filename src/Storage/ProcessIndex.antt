-- ===== src/Storage/ProcessIndex.antt =====
-- my-telemetry-server/src/metrics_storage/process_index.rs: which seconds of an hour have events of
-- each process, while the hour is written into; and `second_of` of hour_file.rs.
pub mod Trace
use my_telemetry_server.Base.{
  ℕ, zero, suc, ◌+◌, ◌-◌, ◌*◌, ◌/◌, ◌%◌, ◌^◌, ltb, leb, ◌==◌, if◌then◌else◌, Bool, true, false, not,
  ◌&&◌, ◌||◌, Option, none, some, List, [], ◌∷◌, ◌++◌, map, filter, length,
}
use my_telemetry_server.Base.Int.{
  ℤ, pos, negsuc, ◌-ℤ◌, to_u64, div_euclid, ltb_ℤ, leb_ℤ, i64_max, i64_min,
}
use my_telemetry_server.Storage.Rec.{Rec}
use my_telemetry_server.Storage.Retention.{micros_per_second}
use my_telemetry_server.Storage.Cells.{seconds_per_hour}

abbrev pub max_pairs : ℕ
max_pairs = 4000000

-- `checked_sub` on `i64`.
unfoldable pub checked_sub : ℤ → ℤ → Option ℤ
checked_sub a b = if ltb_ℤ i64_max (a -ℤ b) || ltb_ℤ (a -ℤ b) i64_min then none else some (a -ℤ b)

second_in : ℤ → Option ℕ
second_in (pos n) = if ltb n seconds_per_hour then some n else none
second_in (negsuc n) = none

second_after : Option ℤ → Option ℕ
second_after none = none
second_after (some since) = second_in (div_euclid since micros_per_second)

-- The second of the hour the time falls into.
unfoldable pub second_of : ℤ → ℤ → Option ℕ
unfolding second_after second_in checked_sub
second_of hour_start time = second_after (checked_sub time hour_start)

-- The ten bytes of a pair are two numbers, big-endian: they sort as the pair of the numbers does.
pub record Pair : Type 0 where
  pub process : ℕ
  pub second : ℕ

-- The sign bit flipped: the ids sort as the numbers do.
unfoldable pub pair_of : ℤ → ℕ → Pair
pair_of process_id second = record {
  process = (to_u64 process_id + 2 ^ 63) % 2 ^ 64;
  second = second % 2 ^ 16;
}

unfoldable pub pair_lt : Pair → Pair → Bool
pair_lt a b = ltb a.process b.process || ((a.process == b.process) && ltb a.second b.second)

-- A `BTreeSet`: a list in order.
unfoldable pub insert_pair : Pair → List Pair → List Pair
insert_pair p [] = p ∷ []
insert_pair p (q ∷ qs) =
    if pair_lt p q then p ∷ q ∷ qs else if pair_lt q p then q ∷ insert_pair p qs else q ∷ qs

pub record ProcessIndex : Type 0 where
  pub hour_start : ℤ
  pub pairs : List Pair
  pub total_records : ℕ
  pub let_go : Bool
  pub max_pairs : ℕ

abbrev pub new : ℤ → ProcessIndex
new hour_start = record {
  hour_start = hour_start;
  pairs = [];
  total_records = 0;
  let_go = false;
  max_pairs = max_pairs;
}

is_second : Option ℕ → ℕ → Bool
is_second none second = false
is_second (some s) second = s == second

-- A round of the loop of `add_records`.
unfoldable pub add_pair : ℤ → ℕ → List Pair → Rec → List Pair
unfolding is_second
add_pair hour_start second pairs r =
    if not (is_second (second_of hour_start r.process_id) second)
    then insert_pair (pair_of r.process_id second) pairs
    else pairs

unfoldable pub add_pairs : ℤ → ℕ → List Pair → List Rec → List Pair
add_pairs hour_start second pairs [] = pairs
add_pairs hour_start second pairs (r ∷ rs) =
    add_pairs hour_start second (add_pair hour_start second pairs r) rs

unfoldable pub add_records : ProcessIndex → ℕ → List Rec → ProcessIndex
add_records i second rs =
    let counted : ProcessIndex = record i {
      total_records = (i.total_records + length rs) % 2 ^ 64;
    } in
    let pairs : List Pair = add_pairs i.hour_start second i.pairs rs in
    if i.let_go
    then counted
    else if ltb i.max_pairs (length pairs)
    then record counted { pairs = []; let_go = true }
    else record counted { pairs = pairs }

unfoldable pub forget_records : ProcessIndex → ℕ → ProcessIndex
forget_records i records = record i { total_records = i.total_records - records }

-- `binary_search` and `insert` on seconds in order: nothing when the second is there.
put_second : ℕ → List ℕ → List ℕ
put_second s [] = s ∷ []
put_second s (t ∷ ts) =
    if s == t then t ∷ ts else if ltb s t then s ∷ t ∷ ts else t ∷ put_second s ts

with_second : Option ℕ → List ℕ → List ℕ
with_second none seconds = seconds
with_second (some s) seconds = put_second s seconds

unfoldable pub with_start_second : ℤ → ℤ → List ℕ → List ℕ
unfolding with_second put_second
with_start_second hour_start process_id seconds =
    with_second (second_of hour_start process_id) seconds

-- `range(first ..= last)`
in_range : Pair → Pair → Pair → Bool
in_range first last p = not (pair_lt p first) && not (pair_lt last p)

unfoldable pub kept_seconds : List Pair → ℤ → List ℕ
unfolding in_range
kept_seconds pairs process_id =
    map (λ p. p.second)
      (filter (in_range (pair_of process_id 0) (pair_of process_id (2 ^ 16 - 1))) pairs)

unfoldable pub seconds_of : ProcessIndex → ℤ → Option (List ℕ)
seconds_of i process_id =
    if i.let_go
    then none
    else some (with_start_second i.hour_start process_id (kept_seconds i.pairs process_id))
