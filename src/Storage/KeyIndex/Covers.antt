-- ===== src/Storage/KeyIndex/Covers.antt =====
-- A search by service and action is told of every second which has a match: what the index says is
-- never less than the records which were added.
use my_telemetry_server.Base.{
  ℕ, zero, suc, ◌+◌, ◌%◌, ◌^◌, ◌≤◌, ◌<◌, ◌≡◌, ◌≢◌, refl, ap, ◌∙◌, arith, ◌==◌, if◌then◌else◌, true,
  false, not, ◌||◌, Option, some, List, [], ◌∷◌, length, Bool-cases, inl, inr, get_elem?,
  get_inside, set, replicate, length-replicate, min, length-set,
}
use my_telemetry_server.Base.Str.{Str, str_eq}
use my_telemetry_server.Base.Assoc.{get, All_get}
use my_telemetry_server.Base.Keys.{by_bytes}
use my_telemetry_server.Storage.KeyIndex.{
  KeyIndex, SecondCounts, ByValue, services_key, or_none, contains, is_empty_map, find,
  found_service, found_action, no_records, seconds_at, known, seconds_of, found_said, key_said,
  value_said, count_up, add_counts, known_counts, filter_counts, counts_of, FilterCounts, estimate,
  estimate_in, at_most,
}
use my_telemetry_server.Storage.KeyIndex.Seconds.{
  count_at, IsSeconds, AllAscending, value_at, str_ne, none_before, all_later,
}
use my_telemetry_server.Storage.KeyIndex.Exact.{
  Log, of_action, of_action_le, of_service_le, IsIndexOf, contains-some, contains-none,
}

is_not_empty {ℓ} : {A : Type ℓ} (xs : List A) → is_empty_map xs ≡ false → xs ≢ []
unfolding is_empty_map
is_not_empty [] h e = absurd (cc)
is_not_empty (x ∷ xs) h e = absurd (cc)

-- What an index says of an action: seconds which count no less than its records.
abbrev pub Says : KeyIndex → Log → Str → Str → ℕ → Type 0
Says i log service action second =
    (es : SecondCounts) × (seconds_of i service action ≡ known es)
    × IsSeconds es
    × (of_action log service action second ≤ count_at es second)
    × (count_at es second ≤ length log)

module _ (i : KeyIndex) (log : Log) (x : IsIndexOf i.keys log) (service action : Str)
    (second : ℕ) where
  services_asc : AllAscending x.services
  services_asc =
      All_get (λ e. AllAscending e.1) services_key i.keys x.services x.ascending x.has_services

  -- No record of the service.
  Says-no_records :
      find i.keys service action ≡ some no_records
      → of_action log service action second ≡ 0
      → Says i log service action second
  unfolding seconds_of found_said
  Says-no_records e none_of_it =
      ([], rw e refl, (record {}, record {}), omega (arith, none_of_it), omega arith)

  -- The records of the service as a whole.
  Says-service :
      find i.keys service action ≡ some (seconds_at services_key service)
      → contains service x.services ≡ true
      → Says i log service action second
  unfolding seconds_of found_said key_said value_said
  Says-service e h =
      let (es, found) = contains-some service x.services h in
      let at : value_at x.services service second ≡ count_at es second =
        (unfold or_none in ap (λ o. count_at (or_none o) second) found) in
      (
        es,
        rw e (rw x.has_services (rw found refl)),
        All_get (λ y. IsSeconds y.1) service x.services es services_asc found,
        omega (arith, at, x.counts_services service second, of_action_le log service action second),
        omega (arith, at, x.counts_services service second, of_service_le log service second),
      )

  -- The records of the action.
  Says-action :
      (actions : ByValue)
      → find i.keys service action ≡ some (seconds_at service action)
      → get service i.keys ≡ some actions
      → contains action actions ≡ true
      → value_at actions action second ≡ of_action log service action second
      → Says i log service action second
  unfolding seconds_of found_said key_said value_said
  Says-action actions e here h exact =
      let (es, found) = contains-some action actions h in
      let at : value_at actions action second ≡ count_at es second =
        (unfold or_none in ap (λ o. count_at (or_none o) second) found) in
      (
        es,
        rw e (rw here (rw found refl)),
        All_get (λ y. IsSeconds y.1) action actions es
            (All_get (λ y. AllAscending y.1) service i.keys actions x.ascending here) found,
        omega (arith, at, exact),
        omega (
          arith,
          at,
          exact,
          of_action_le log service action second,
          of_service_le log service second,
        ),
      )

  none_at_0 :
      (by_value : ByValue) (v : Str) → contains v by_value ≡ false → value_at by_value v second ≡ 0
  none_at_0 by_value v h =
      unfold or_none in ap (λ o. count_at (or_none o) second) (contains-none v by_value h)

  find_lem :
      (o : Option ByValue)
      → get service i.keys ≡ o
      → find i.keys service action ≡ (
          if not (contains service x.services)
          then some no_records
          else some (found_action service action o))
  unfolding find found_service
  find_lem o e = rw (x.has_services, e) refl

  pub says : Says i log service action second
  says = elim (Bool-cases (contains service x.services)) [
    | inr h ↦ Says-no_records (find_lem (get service i.keys) refl ∙ rw h refl) (
        omega (
          arith,
          of_action_le log service action second,
          x.counts_services service second,
          none_at_0 x.services service h,
        ))
    | inl h ↦
        let (actions, here) = x.has_actions service h in
        let found : find i.keys service action ≡ some (found_action service action (some actions)) =
          find_lem (some actions) here ∙ rw h refl in
        elim (Bool-cases (str_eq service services_key || is_empty_map actions)) [
          | inl k ↦ Says-service (found ∙ (unfold found_action in rw k refl)) h
          | inr k ↦
              elim (x.counts_actions service actions
                (str_ne service services_key (ground (arith, k))) here) [
                  | inl empty ↦ absurd (is_not_empty actions (ground (arith, k)) empty)
                  | inr exact ↦ elim (Bool-cases (contains action actions)) [
                    | inl c ↦
                        Says-action actions (found ∙ (unfold found_action in rw (k, c) refl)) here c
                          (exact action second)
                    | inr c ↦
                        Says-no_records (found ∙ (unfold found_action in rw (k, c) refl))
                          (omega (arith, exact action second, none_at_0 actions action c))
                  ]
                ]
        ]
  ]

-- The counts of a search are those of the seconds the index names.
get-set :
    (counts : List ℕ) (i : ℕ) (n : ℕ) (j : ℕ)
    → i < length counts
    → get_elem? (set counts i n) j ≡ (if i == j then some n else get_elem? counts j)
get-set [] i n j h = absurd (omega arith)
get-set (c ∷ cs) zero n zero h = refl
get-set (c ∷ cs) zero n (suc j) h = ground arith
get-set (c ∷ cs) (suc i) n zero h = ground arith
get-set (c ∷ cs) (suc i) n (suc j) h = get-set cs i n j (omega arith) ∙ ground arith

add_counts_cons :
    (counts : List ℕ) (e : ℕ × ℕ) (es : SecondCounts) (n : ℕ)
    → get_elem? counts e.0 ≡ some n
    → add_counts counts (e ∷ es) ≡ add_counts (set counts e.0 ((n + e.1) % 2 ^ 32)) es
unfolding add_counts count_up
add_counts_cons counts e es n h = rw (add_counts, h) refl

add_counts_lem :
    (es : SecondCounts) (counts : List ℕ) (second m : ℕ)
    → IsSeconds es
    → length counts ≡ 3600
    → second < 3600
    → get_elem? counts second ≡ some m
    → m + count_at es second < 2 ^ 32
    → (cs : List ℕ) × (add_counts counts es ≡ some cs)
      × (get_elem? cs second ≡ some (m + count_at es second))
add_counts_lem [] counts second m h len inside at small =
    (counts, unfold add_counts in refl, at ∙ ap some (omega arith))
add_counts_lem (e ∷ es) counts second m ((later, asc), (in_hour, in_hours)) len inside at small =
    let (n, found) = get_inside counts e.0 (omega arith) in
    let next : List ℕ = set counts e.0 ((n + e.1) % 2 ^ 32) in
    let next_at : get_elem? next second
        ≡ (if e.0 == second then some ((n + e.1) % 2 ^ 32) else get_elem? counts second) =
      get-set counts e.0 ((n + e.1) % 2 ^ 32) second (omega arith) in
    let next_len : length next ≡ 3600 = length-set counts e.0 ((n + e.1) % 2 ^ 32) ∙ len in
    elim (Bool-cases (e.0 == second)) [
      | inl same ↦
          let is_it : e.0 ≡ second = ground (arith, same) in
          let none_later : count_at es second ≡ 0 =
            none_before es second (all_later es second e.0 (omega arith) later) in
          let n_is : n ≡ m = ground (arith, found, at, ap (get_elem? counts) is_it) in
          let (cs, eq, got) =
            add_counts_lem es next second (m + e.1) (asc, in_hours) next_len inside
              (next_at ∙ rw same (ap some (ground (arith, same)))) (ground (arith, same)) in
          (cs, add_counts_cons counts e es n found ∙ eq, got ∙ ap some (ground (arith, same)))
      | inr other ↦
          let (cs, eq, got) =
            add_counts_lem es next second m (asc, in_hours) next_len inside (next_at ∙ rw other at)
              (ground (arith, other)) in
          (cs, add_counts_cons counts e es n found ∙ eq, got ∙ ap some (ground (arith, other)))
    ]

get-replicate : (n i : ℕ) → i < n → get_elem? {A = ℕ} (replicate n 0) i ≡ some 0
unfolding replicate
get-replicate zero i h = absurd (omega arith)
get-replicate (suc n) zero h = refl
get-replicate (suc n) (suc i) h = get-replicate n i (omega arith)

-- What a search is told by an index which counts the records of the log.
pub estimate_covers :
    (i : KeyIndex) (log : Log) (service action : Str) (second records : ℕ)
    → IsIndexOf i.keys log
    → second < 3600
    → length log < 2 ^ 32
    → of_action log service action second ≤ records
    → (f : FilterCounts) × (n : ℕ) × (counts_of i service action ≡ some f)
      × (estimate f records second ≡ some n)
      × (of_action log service action second ≤ n)
unfolding counts_of filter_counts known_counts estimate estimate_in at_most
estimate_covers i log service action second records x inside small le =
    let (es, said, is_seconds, covers, few) = says i log x service action second in
    let (cs, eq, got) =
      add_counts_lem es (replicate 3600 0) second 0 is_seconds (length-replicate {A = ℕ} 3600 0)
        inside (get-replicate 3600 second inside) (omega arith) in
    (
      record { counts = some cs },
      min records (count_at es second),
      rw (said, eq) refl,
      rw got (ap some (omega arith)),
      omega (arith, covers, le),
    )
