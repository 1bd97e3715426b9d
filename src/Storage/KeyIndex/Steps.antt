-- ===== src/Storage/KeyIndex/Steps.antt =====
-- One more record keeps the index one of the records added.
use my_telemetry_server.Base.{
  ℕ, ◌+◌, ◌^◌, ◌<◌, ◌≡◌, ◌≢◌, refl, sym, ap, subst, ◌∙◌, arith, leb, true, not, ◌&&◌, some, List,
  ◌∷◌, length, Bool-cases, inl, inr,
}
use my_telemetry_server.Base.Str.{Str, str_eq, str_eq→eq, str_eq_refl}
use my_telemetry_server.Base.Assoc.{get, insert, get-insert, get-insert_ne, All-insert, All_get}
use my_telemetry_server.Base.Keys.{by_bytes}
use my_telemetry_server.Storage.Rec.{Rec}
use my_telemetry_server.Storage.KeyIndex.{
  ByValue, services_key, max_actions_per_service, count_in, contains, count_action,
}
use my_telemetry_server.Storage.KeyIndex.Seconds.{
  AllAscending, value_at, is_one, value_at-count_in, count_in-AllAscending,
}
use my_telemetry_server.Storage.KeyIndex.Exact.{
  Log, of_service, of_action, of_action_le, of_service_le, Counts, IsIndexOf, IsPartly,
  contains-some, contains_of, str_cases,
}

-- What one more record adds to the records of a service, and of an action of it.
of_service_more :
    (log : Log) (second : ℕ) (r : Rec) (service : Str) (s : ℕ)
    → of_service ((second, r) ∷ log) service s
      ≡ of_service log service s + is_one r.service_name second service s
of_service_more log second r service s = ground arith

of_action_more :
    (log : Log) (second : ℕ) (r : Rec) (action : Str) (s : ℕ)
    → of_action ((second, r) ∷ log) r.service_name action s
      ≡ of_action log r.service_name action s + is_one r.event_data second action s
of_action_more log second r action s = ground (arith, str_eq_refl r.service_name)

of_action_other :
    (log : Log) (second : ℕ) (r : Rec) (service action : Str) (s : ℕ)
    → service ≢ r.service_name
    → of_action ((second, r) ∷ log) service action s ≡ of_action log service action s
of_action_other log second r service action s ne =
    elim (Bool-cases (str_eq r.service_name service)) [
      | inl e ↦ absurd (ne (sym (str_eq→eq r.service_name service e)))
      | inr e ↦ rw e refl
    ]

module _ (second : ℕ) (r : Rec) (log : Log) (in_hour : second < 3600)
    (room : length log + 1 < 2 ^ 32) where
  -- The services count one more record.
  services_more :
      (services : ByValue) (service : Str) (s : ℕ)
      → AllAscending services
      → ((service : Str) (s : ℕ) → value_at services service s ≡ of_service log service s)
      → value_at (count_in services r.service_name second).0 service s
        ≡ of_service ((second, r) ∷ log) service s
  services_more services service s asc exact =
      value_at-count_in services r.service_name second service s asc (omega (arith, in_hour))
        (omega (arith, room, exact r.service_name second, of_service_le log r.service_name second))
      ∙ ap (λ n. n + is_one r.service_name second service s) (exact service s)
      ∙ sym (of_service_more log second r service s)

  action_small : of_action log r.service_name r.event_data second + 1 < 2 ^ 32
  action_small = omega (
    arith,
    room,
    of_action_le log r.service_name r.event_data second,
    of_service_le log r.service_name second,
  )

  -- The actions of the service count one more record, or are let go.
  pub actions_more :
      (actions : ByValue) (pairs : ℕ)
      → AllAscending actions
      → ((action : Str) (s : ℕ) → value_at actions action s ≡ of_action log r.service_name action s)
      → AllAscending (count_action actions r.event_data second pairs).0
        × Counts
            ((second, r) ∷ log)
            r.service_name
            (count_action actions r.event_data second pairs).0
  unfolding count_action
  actions_more actions pairs asc exact =
      elim (Bool-cases
        (not (contains r.event_data actions) && leb max_actions_per_service (length actions))) [
          | inl e ↦ rw e (record {}, inl refl)
          | inr e ↦ rw e (
            count_in-AllAscending actions r.event_data second in_hour asc,
            inr (λ action s.
                value_at-count_in actions r.event_data second action s asc (omega (arith, in_hour))
                  (omega (arith, action_small, exact r.event_data second))
                ∙ ap (λ n. n + is_one r.event_data second action s) (exact action s)
                ∙ sym (of_action_more log second r action s)),
          )
        ]

  other-Counts :
      (service : Str) (actions : ByValue)
      → service ≢ r.service_name
      → Counts log service actions
      → Counts ((second, r) ∷ log) service actions
  other-Counts service actions other (inl e) = inl e
  other-Counts service actions other (inr f) =
      inr (λ action s. f action s ∙ sym (of_action_other log second r service action s other))

  -- After the services are counted, the actions of the service are left to be.
  pub services_counted :
      (keys : List (Str × ByValue)) (x : IsIndexOf keys log)
      → IsPartly
          (insert services_key (count_in x.services r.service_name second).0 keys)
          ((second, r) ∷ log)
          r.service_name
  services_counted keys x = record {
    services = counted;
    has_services = get-insert services_key counted keys;
    ascending =
        All-insert (λ e. AllAscending e.1) services_key counted keys
          (count_in-AllAscending x.services r.service_name second in_hour asc) x.ascending;
    counts_services = λ service s. services_more x.services service s asc x.counts_services;
    has_actions = λ service other h. kept_actions service other (counted_has service other h);
    counts_actions = λ service actions other not_key e. other-Counts service actions other (
        x.counts_actions service actions not_key
          (sym (get-insert_ne service services_key counted keys not_key) ∙ e));
  }
    where
      counted : ByValue
      counted = (count_in x.services r.service_name second).0

      asc : AllAscending x.services
      asc = All_get (λ e. AllAscending e.1) services_key keys x.services x.ascending x.has_services

      counted_same :
          (service : Str) → service ≢ r.service_name → get service counted ≡ get service x.services
      counted_same service other =
          unfold count_in in get-insert_ne service r.service_name _ x.services other

      counted_has :
          (service : Str)
          → service ≢ r.service_name
          → contains service counted ≡ true
          → (actions : ByValue) × (get service keys ≡ some actions)
      counted_has service other h =
          let (v, e) = contains-some service counted h in
          x.has_actions service
            (contains_of service x.services v (sym (counted_same service other) ∙ e))

      kept_actions :
          (service : Str)
          → service ≢ r.service_name
          → (actions : ByValue) × (get service keys ≡ some actions)
          → (actions : ByValue) × (get service (insert services_key counted keys) ≡ some actions)
      kept_actions service other (actions, e) = elim (str_cases service services_key) [
        | inl same ↦ (
          counted,
          subst (λ y. get y (insert services_key counted keys) ≡ some counted) (sym same)
              (get-insert services_key counted keys),
        )
        | inr ne ↦ (actions, get-insert_ne service services_key counted keys ne ∙ e)
      ]
