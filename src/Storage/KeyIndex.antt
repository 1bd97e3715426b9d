-- ===== src/Storage/KeyIndex.antt =====
-- my-telemetry-server/src/metrics_storage/key_index.rs: how many records of each second each action
-- of each service has.
pub mod Seconds
pub mod Exact
pub mod Steps
pub mod Adds
pub mod Covers
pub mod History
use my_telemetry_server.Base.{
  ℕ, zero, suc, ◌+◌, ◌-◌, ◌*◌, ◌%◌, ◌^◌, ltb, leb, ◌==◌, if◌then◌else◌, Bool, true, false, not,
  ◌&&◌, ◌||◌, Option, none, some, List, [], ◌∷◌, ◌++◌, length, set, get_elem?, replicate, min,
}
use my_telemetry_server.Base.Result.{Result, ok, err}
use my_telemetry_server.Base.Str.{Str, str_eq}
use my_telemetry_server.Base.Assoc.{get, insert, remove, sum_of}
use my_telemetry_server.Base.Keys.{by_bytes}
use my_telemetry_server.Storage.Rec.{Rec}
use my_telemetry_server.Storage.Cells.{seconds_per_hour}

-- The text "\0".
abbrev pub services_key : Str
services_key = 0 ∷ []

abbrev pub max_actions_per_service : ℕ
max_actions_per_service = 4096

abbrev pub max_services : ℕ
max_services = 1024

abbrev pub max_pairs : ℕ
max_pairs = 4000000

-- (second, records)
abbrev pub SecondCounts : Type 0
SecondCounts = List (ℕ × ℕ)

abbrev pub ByValue : Type 0
ByValue = List (Str × SecondCounts)

pub record KeyIndex : Type 0 where
  pub keys : List (Str × ByValue)
  pub total_records : ℕ
  pub pairs : ℕ

abbrev pub new : KeyIndex
new = record { keys = []; total_records = 0; pairs = 0 }

-- `saturating_sub`
unfoldable pub forget_records : KeyIndex → ℕ → KeyIndex
forget_records i records = record i { total_records = i.total_records - records }

is_empty_map {ℓ} : {A : Type ℓ} → List A → Bool
is_empty_map [] = true
is_empty_map (x ∷ xs) = false

unfoldable pub is_let_go : KeyIndex → Bool
unfolding is_empty_map
is_let_go i = is_empty_map i.keys && ltb 0 i.total_records

shift : Result ℕ ℕ → Result ℕ ℕ
shift (ok i) = ok (suc i)
shift (err i) = err (suc i)

-- `binary_search_by_key` on seconds in order: where the second is, or where it goes.
unfoldable pub binary_search : ℕ → SecondCounts → Result ℕ ℕ
unfolding shift
binary_search second [] = err 0
binary_search second (e ∷ es) =
    if e.0 == second
    then ok 0
    else if ltb second e.0
    then err 0
    else shift (binary_search second es)

-- `seconds[index].1 += 1` on a `u32`.
bump : ℕ → SecondCounts → SecondCounts
bump i [] = []
bump zero (e ∷ es) = (e.0, (e.1 + 1) % 2 ^ 32) ∷ es
bump (suc i) (e ∷ es) = e ∷ bump i es

-- `Vec::insert`
insert_at {ℓ} : {A : Type ℓ} → ℕ → A → List A → List A
insert_at zero x xs = x ∷ xs
insert_at (suc i) x [] = x ∷ []
insert_at (suc i) x (y ∷ ys) = y ∷ insert_at i x ys

count_found : ℕ → SecondCounts → Result ℕ ℕ → SecondCounts × ℕ
count_found second seconds (ok i) = (bump i seconds, 0)
count_found second seconds (err i) = (insert_at i (second, 1) seconds, 1)

unfoldable pub count_second : ℕ → SecondCounts → SecondCounts × ℕ
unfolding count_found bump insert_at
count_second second seconds = count_found second seconds (binary_search second seconds)

unfoldable pub or_none : Option SecondCounts → SecondCounts
or_none none = []
or_none (some seconds) = seconds

-- The values with one more record of one of them, and how many pairs that added.
unfoldable pub count_in : ByValue → Str → ℕ → ByValue × ℕ
count_in by_value value second =
    let counted : SecondCounts × ℕ =
      count_second (second % 2 ^ 16) (or_none (get value by_value)) in
    (insert value counted.0 by_value, counted.1)

unfoldable pub contains {ℓ} : {V : Type ℓ} → Str → List (Str × V) → Bool
contains k m = elim (get k m) [ none ↦ false | some v ↦ true ]

-- The actions of a service with one more record, and the pairs of the index then: when there are
-- too many actions, all of them go.
unfoldable pub count_action : ByValue → Str → ℕ → ℕ → ByValue × ℕ
count_action actions action second pairs =
    let counted : ByValue × ℕ = count_in actions action second in
    if not (contains action actions) && leb max_actions_per_service (length actions)
    then ([], pairs - sum_of length actions)
    else (counted.0, pairs + counted.1)

-- The part of `add_record` on the actions of the service; `none` - the `unwrap` of none.
unfoldable pub add_action : KeyIndex → ℕ → Rec → Bool → Option ByValue → Option (KeyIndex × Bool)
unfolding is_empty_map
add_action i second r is_new none = none
add_action i second r is_new (some actions) =
    let counted : ByValue × ℕ = count_action actions r.event_data second i.pairs in
    if not is_new && is_empty_map actions
    then some (i, leb i.pairs max_pairs)
    else some (
      record i { keys = insert r.service_name counted.0 i.keys; pairs = counted.1 },
      leb counted.1 max_pairs,
    )

-- The part of `add_record` on the services; `none` - the `unwrap` of none.
unfoldable pub add_service : KeyIndex → ℕ → Rec → Option ByValue → Option (KeyIndex × Bool)
add_service i second r none = none
add_service i second r (some services) =
    let is_new : Bool = not (contains r.service_name services) in
    let counted : ByValue × ℕ = count_in services r.service_name second in
    let j : KeyIndex = record i {
      keys = insert services_key counted.0 i.keys;
      pairs = i.pairs + counted.1;
    } in
    let k : KeyIndex = if is_new then record j { keys = insert r.service_name [] j.keys } else j in
    if is_new && leb max_services (length services)
    then some (i, false)
    else if str_eq r.service_name services_key
    then some (j, leb j.pairs max_pairs)
    else add_action k second r is_new (get r.service_name k.keys)

-- The index, and `false` - it has outgrown what an hour is indexed within.
unfoldable pub add_record : KeyIndex → ℕ → Rec → Option (KeyIndex × Bool)
add_record i second r =
    let j : KeyIndex =
      if contains services_key i.keys
      then i
      else record i { keys = insert services_key [] i.keys } in
    add_service j second r (get services_key j.keys)

pub add_each : KeyIndex → ℕ → List Rec → Option KeyIndex
add_each i second [] = some i
add_each i second (r ∷ rs) = elim (add_record i second r) [
  | none ↦ none
  | some (j, within) ↦
      let more : Option KeyIndex = add_each j second rs in
      if within then more else some (record j { keys = []; pairs = 0 })
]

unfoldable pub add_records : KeyIndex → ℕ → List Rec → Option KeyIndex
unfolding add_each
add_records i second rs =
    let counted : KeyIndex = record i { total_records = (i.total_records + length rs) % 2 ^ 64 } in
    if is_let_go i then some counted else add_each counted second rs

-- Where the counts of a search by service and action are.
pub data Found : Type 0 where
  no_records : Found
  seconds_at : Str → Str → Found

module _ {ℓ} {V : Type ℓ} where
  found_action : Str → Str → Option (List (Str × V)) → Found
  found_action service action none = seconds_at services_key service
  found_action service action (some actions) =
      if str_eq service services_key || is_empty_map actions
      then seconds_at services_key service
      else if contains action actions
      then seconds_at service action
      else no_records

  found_service : List (Str × List (Str × V)) → Str → Str → Option (List (Str × V)) → Option Found
  found_service keys service action none = none
  found_service keys service action (some services) =
      if not (contains service services)
      then some no_records
      else some (found_action service action (get service keys))

  -- `none` - the hour does not index: every second may match.
  unfoldable pub find : List (Str × List (Str × V)) → Str → Str → Option Found
  unfolding found_service found_action is_empty_map
  find keys service action = found_service keys service action (get services_key keys)

-- What `HourKeyIndex::Full` says: `panics` - the indexing of a map by a key it has not.
pub data Said : Type 0 where
  panics : Said
  unknown : Said
  known : SecondCounts → Said

value_said : Option SecondCounts → Said
value_said none = panics
value_said (some seconds) = known seconds

key_said : Str → Option ByValue → Said
key_said value none = panics
key_said value (some by_value) = value_said (get value by_value)

found_said : KeyIndex → Option Found → Said
found_said i none = unknown
found_said i (some no_records) = known []
found_said i (some (seconds_at key value)) = key_said value (get key i.keys)

unfoldable pub seconds_of : KeyIndex → Str → Str → Said
unfolding found_said key_said value_said
seconds_of i service action = found_said i (find i.keys service action)

pub record FilterCounts : Type 0 where
  pub counts : Option (List ℕ)

abbrev pub unknown_counts : FilterCounts
unknown_counts = record { counts = none }

-- `counts[*second as usize] += records` of what is there; `none` - out of bounds.
count_up : List ℕ → ℕ × ℕ → Option ℕ → Option (List ℕ)
count_up counts e none = none
count_up counts e (some n) = some (set counts e.0 ((n + e.1) % 2 ^ 32))

unfoldable pub add_counts : List ℕ → SecondCounts → Option (List ℕ)
unfolding count_up
add_counts counts [] = some counts
add_counts counts (e ∷ es) = elim (count_up counts e (get_elem? counts e.0)) [
  | none ↦ none
  | some counted ↦ add_counts counted es
]

known_counts : Option (List ℕ) → Option FilterCounts
known_counts none = none
known_counts (some counts) = some (record { counts = some counts })

-- `none` - a panic.
unfoldable pub filter_counts : Said → Option FilterCounts
unfolding known_counts
filter_counts panics = none
filter_counts unknown = some unknown_counts
filter_counts (known seconds) = known_counts (add_counts (replicate seconds_per_hour 0) seconds)

unfoldable pub counts_of : KeyIndex → Str → Str → Option FilterCounts
counts_of i service action = filter_counts (seconds_of i service action)

at_most : ℕ → Option ℕ → Option ℕ
at_most records none = none
at_most records (some n) = some (min records n)

estimate_in : ℕ → ℕ → Option (List ℕ) → Option ℕ
estimate_in records second none = some records
estimate_in records second (some counts) = at_most records (get_elem? counts second)

-- `none` - out of bounds.
unfoldable pub estimate : FilterCounts → ℕ → ℕ → Option ℕ
unfolding estimate_in at_most
estimate f records second = estimate_in records second f.counts
