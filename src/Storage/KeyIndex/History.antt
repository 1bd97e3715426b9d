-- ===== src/Storage/KeyIndex/History.antt =====
-- The whole history of an hour: whatever was added, a search is never told of fewer records.
use my_telemetry_server.Base.{
  ℕ, ◌+◌, ◌%◌, ◌^◌, ◌≤◌, ◌<◌, ◌≡◌, refl, sym, ap, subst, ◌∙◌, arith, ltb, ◌==◌, if◌then◌else◌, true,
  false, ◌&&◌, Option, none, some, List, [], ◌∷◌, length, All, inl, inr, ◌⊎◌, count_if,
}
use my_telemetry_server.Base.Str.{Str, str_eq}
use my_telemetry_server.Base.Assoc.{get}
use my_telemetry_server.Base.Keys.{by_bytes}
use my_telemetry_server.Storage.Rec.{Rec}
use my_telemetry_server.Storage.KeyIndex.{
  KeyIndex, ByValue, new, services_key, add_each, add_records, is_let_go, is_empty_map, find,
  found_service, seconds_of, found_said, filter_counts, counts_of, FilterCounts, unknown_counts,
  estimate, estimate_in,
}
use my_telemetry_server.Storage.KeyIndex.Exact.{Log, of_action}
use my_telemetry_server.Storage.KeyIndex.Adds.Batches.{
  Fresh, log_batch, length-log_batch, add_each_lem,
}
use my_telemetry_server.Storage.KeyIndex.Covers.{estimate_covers}

-- The batches of records added to the index of an hour, each with its second, the first one first.
abbrev pub History : Type 0
History = List (ℕ × List Rec)

unfoldable pub add_all : KeyIndex → History → Option KeyIndex
add_all i [] = some i
add_all i (b ∷ bs) = elim (add_records i b.0 b.1) [ none ↦ none | some j ↦ add_all j bs ]

-- How many records of the second have the action of the service.
abbrev pub added : History → Str → Str → ℕ → ℕ
added [] service action second = 0
added (b ∷ bs) service action second =
    (if b.0 == second
      then count_if (λ r. str_eq r.service_name service && str_eq r.event_data action) b.1
      else 0)
    + added bs service action second

abbrev pub records_in : History → ℕ
records_in [] = 0
records_in (b ∷ bs) = length b.1 + records_in bs

log_of : History → Log → Log
log_of [] log = log
log_of (b ∷ bs) log = log_of bs (log_batch b.0 b.1 log)

of_action-log_batch :
    (second : ℕ) (rs : List Rec) (log : Log) (service action : Str) (s : ℕ)
    → of_action (log_batch second rs log) service action s
      ≡ of_action log service action s
        + (if second == s
            then count_if (λ r. str_eq r.service_name service && str_eq r.event_data action) rs
            else 0)
of_action-log_batch second [] log service action s = ground arith
of_action-log_batch second (r ∷ rs) log service action s =
    of_action-log_batch second rs ((second, r) ∷ log) service action s ∙ ground arith

of_action-log_of :
    (h : History) (log : Log) (service action : Str) (s : ℕ)
    → of_action (log_of h log) service action s
      ≡ of_action log service action s + added h service action s
unfolding log_of
of_action-log_of [] log service action s = omega arith
of_action-log_of (b ∷ bs) log service action s = omega (
  arith,
  of_action-log_of bs (log_batch b.0 b.1 log) service action s,
  of_action-log_batch b.0 b.1 log service action s,
)

length-log_of : (h : History) (log : Log) → length (log_of h log) ≡ length log + records_in h
unfolding log_of
length-log_of [] log = omega arith
length-log_of (b ∷ bs) log =
    omega (arith, length-log_of bs (log_batch b.0 b.1 log), length-log_batch b.0 b.1 log)

-- The index of the records of the log, or an index which is let go.
pub record Keeps (i : KeyIndex) (log : Log) : Type 0 where
  pub counted : i.total_records ≡ length log
  pub known : ((i.keys ≡ []) × (0 < length log)) ⊎ Fresh i log

let_go_lem : (i : KeyIndex) → i.keys ≡ [] → 0 < i.total_records → is_let_go i ≡ true
unfolding is_let_go
let_go_lem i e h =
    subst (λ k. (is_empty_map k && ltb 0 i.total_records) ≡ true) (sym e)
      (unfold is_empty_map in ground arith)

some_keys :
    (keys : List (Str × ByValue)) (v : ByValue)
    → get services_key keys ≡ some v
    → is_empty_map keys ≡ false
unfolding is_empty_map get
some_keys [] v h = absurd (cc)
some_keys (x ∷ xs) v h = refl

not_let_go :
    (i : KeyIndex) (log : Log) → i.total_records ≡ length log → Fresh i log → is_let_go i ≡ false
unfolding is_let_go
not_let_go i log e (inl (k, l)) = ground (arith, e, ap length l)
not_let_go i log e (inr x) = rw (some_keys i.keys x.services x.has_services) refl

add_records_let_go :
    (i : KeyIndex) (second : ℕ) (rs : List Rec)
    → is_let_go i ≡ true
    → add_records i second rs
      ≡ some (record i { total_records = (i.total_records + length rs) % 2 ^ 64 })
unfolding add_records
add_records_let_go i second rs h = rw h refl

add_records_on :
    (i : KeyIndex) (second : ℕ) (rs : List Rec)
    → is_let_go i ≡ false
    → add_records i second rs
      ≡ add_each (record i { total_records = (i.total_records + length rs) % 2 ^ 64 }) second rs
unfolding add_records
add_records_on i second rs h = rw h refl

pub add_records_lem :
    (i : KeyIndex) (second : ℕ) (rs : List Rec) (log : Log)
    → second < 3600
    → length log + length rs < 2 ^ 32
    → Keeps i log
    → (j : KeyIndex) × (add_records i second rs ≡ some j) × Keeps j (log_batch second rs log)
add_records_lem i second rs log h room k =
    let counted : KeyIndex = record i { total_records = (i.total_records + length rs) % 2 ^ 64 } in
    let total : counted.total_records ≡ length (log_batch second rs log) =
      omega (arith, k.counted, length-log_batch second rs log) in
    elim k.known [
      | inl (e, some_records) ↦ (
        counted,
        add_records_let_go i second rs (let_go_lem i e (omega (arith, k.counted))),
        record { counted = total; known = inl (e, omega (arith, length-log_batch second rs log)) },
      )
      | inr fresh ↦
          let (j, eq, same, known) = add_each_lem rs counted second log h room fresh in
          (
            j,
            add_records_on i second rs (not_let_go i log k.counted fresh) ∙ eq,
            record {
              counted = same ∙ total;
              known = elim known [
                | inl (e, some_records) ↦ inl (e, omega (arith, length-log_batch second rs log))
                | inr f ↦ inr f
              ];
            },
          )
    ]

add_all_cons :
    (i j : KeyIndex) (b : ℕ × List Rec) (bs : History)
    → add_records i b.0 b.1 ≡ some j
    → add_all i (b ∷ bs) ≡ add_all j bs
unfolding add_all
add_all_cons i j b bs e = rw (add_all, e) refl

estimate_unknown : (records second : ℕ) → estimate unknown_counts records second ≡ some records
unfolding estimate estimate_in
estimate_unknown records second = refl

add_all_lem :
    (h : History) (i : KeyIndex) (log : Log)
    → All (λ b. b.0 < 3600) h
    → length log + records_in h < 2 ^ 32
    → Keeps i log
    → (j : KeyIndex) × (add_all i h ≡ some j) × Keeps j (log_of h log)
unfolding log_of
add_all_lem [] i log inside room k = (i, unfold add_all in refl, k)
add_all_lem (b ∷ bs) i log inside room k =
    let (j, eq, k') = add_records_lem i b.0 b.1 log inside.0 (omega arith) k in
    let (j', eq', k'') =
      add_all_lem bs j (log_batch b.0 b.1 log) inside.1
        (omega (arith, length-log_batch b.0 b.1 log)) k' in
    (j', add_all_cons i j b bs eq ∙ eq', k'')

-- An index which is let go says nothing: every record may match.
unknown_of :
    (i : KeyIndex) (service action : Str)
    → i.keys ≡ []
    → counts_of i service action ≡ some unknown_counts
unfolding counts_of filter_counts seconds_of found_said
unknown_of i service action e = rw nothing refl
  where
    nothing : find i.keys service action ≡ none
    nothing =
        subst (λ k. find k service action ≡ none) (sym e) (unfold find get found_service in refl)

-- Whatever was added to the index of an hour, it is made with no panic, and a search by service and
-- action which asks it of a second is told of no fewer records than were added with them, when the
-- second has that many. The index may have been let go, or have let go of actions.
pub counts_cover :
    (h : History) (service action : Str) (second records : ℕ)
    → All (λ b. b.0 < 3600) h
    → records_in h < 2 ^ 32
    → second < 3600
    → added h service action second ≤ records
    → (i : KeyIndex) × (f : FilterCounts) × (n : ℕ) × (add_all new h ≡ some i)
      × (counts_of i service action ≡ some f)
      × (estimate f records second ≡ some n)
      × (added h service action second ≤ n)
counts_cover h service action second records inside few in_hour le =
    let (i, eq, k) =
      add_all_lem h new [] inside (omega (arith, few))
        (record { counted = refl; known = inr (inl (refl, refl)) }) in
    let same = of_action-log_of h [] service action second in
    let of_nothing : i.keys ≡ []
        → (f : FilterCounts) × (n : ℕ) × (counts_of i service action ≡ some f)
          × (estimate f records second ≡ some n)
          × (added h service action second ≤ n) =
      λ e. (
        unknown_counts,
        records,
        unknown_of i service action e,
        estimate_unknown records second,
        le,
      ) in
    let told : (f : FilterCounts) × (n : ℕ) × (counts_of i service action ≡ some f)
        × (estimate f records second ≡ some n)
        × (added h service action second ≤ n) =
      elim k.known [
        | inl (e, some_records) ↦ of_nothing e
        | inr (inl (e, l)) ↦ of_nothing e
        | inr (inr x) ↦
            let (f, n, counts, est, covers) =
              estimate_covers i (log_of h []) service action second records x in_hour
                (omega (arith, length-log_of h [])) (omega (arith, same)) in
            (f, n, counts, est, omega (arith, same, covers))
      ] in
    let (f, n, counts, est, covers) = told in (i, f, n, eq, counts, est, covers)
