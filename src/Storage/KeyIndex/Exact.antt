-- ===== src/Storage/KeyIndex/Exact.antt =====
-- What the index counts is what was added: exactly by service, and by action while a service has
-- not too many of them.
use my_telemetry_server.Base.{
  ℕ, ◌≤◌, ◌≡◌, ◌≢◌, refl, sym, ap, subst, ◌∙◌, arith, ◌==◌, true, false, ◌&&◌, Option, none, some,
  List, [], ◌∷◌, length, All, Bool-cases, Option-cases, inl, inr, ◌⊎◌, count_if,
}
use my_telemetry_server.Base.Str.{Str, str_eq, str_eq→eq}
use my_telemetry_server.Base.Assoc.{get, insert, get-insert, get-insert_ne, All-insert}
use my_telemetry_server.Base.Keys.{by_bytes}
use my_telemetry_server.Storage.Rec.{Rec}
use my_telemetry_server.Storage.KeyIndex.{ByValue, services_key, or_none, contains}
use my_telemetry_server.Storage.KeyIndex.Seconds.{AllAscending, value_at, str_ne}

-- The records added so far, each with its second; the last one first.
abbrev pub Log : Type 0
Log = List (ℕ × Rec)

abbrev pub of_service : Log → Str → ℕ → ℕ
of_service log service second =
    count_if (λ e. str_eq e.1.service_name service && (e.0 == second)) log

abbrev pub of_action : Log → Str → Str → ℕ → ℕ
of_action log service action second =
    count_if
      (λ e. str_eq e.1.service_name service && (str_eq e.1.event_data action && (e.0 == second)))
      log

pub of_action_le :
    (log : Log) (service action : Str) (second : ℕ)
    → of_action log service action second ≤ of_service log service second
of_action_le [] service action second = omega arith
of_action_le (e ∷ log) service action second =
    ground (arith, of_action_le log service action second)

pub of_service_le :
    (log : Log) (service : Str) (second : ℕ) → of_service log service second ≤ length log
of_service_le [] service second = omega arith
of_service_le (e ∷ log) service second = ground (arith, of_service_le log service second)

-- The actions of a service count its records, unless there are none of them.
abbrev pub Counts : Log → Str → ByValue → Type 0
Counts log service actions =
    (actions ≡ [])
    ⊎ ((action : Str) (second : ℕ)
        → value_at actions action second ≡ of_action log service action second)

pub record IsIndexOf (keys : List (Str × ByValue)) (log : Log) : Type 0 where
  pub services : ByValue
  pub has_services : get services_key keys ≡ some services
  pub ascending : All (λ e. AllAscending e.1) keys
  pub counts_services :
      (service : Str) (second : ℕ)
      → value_at services service second ≡ of_service log service second
  pub has_actions :
      (service : Str)
      → contains service services ≡ true
      → (actions : ByValue) × (get service keys ≡ some actions)
  pub counts_actions :
      (service : Str) (actions : ByValue)
      → service ≢ services_key
      → get service keys ≡ some actions
      → Counts log service actions

pub contains-some {ℓ} :
    {V : Type ℓ} (k : Str) (m : List (Str × V)) → contains k m ≡ true → (v : V) × (get k m ≡ some v)
unfolding contains
contains-some k m h = elim (Option-cases (get k m)) [
  | inl e ↦ absurd (ground arith)
  | inr found ↦ found
]

pub contains-none {ℓ} :
    {V : Type ℓ} (k : Str) (m : List (Str × V)) → contains k m ≡ false → get k m ≡ none
unfolding contains
contains-none k m h = elim (Option-cases (get k m)) [
  | inl e ↦ e
  | inr (v, e) ↦ absurd (ground arith)
]

pub contains_of {ℓ} :
    {V : Type ℓ} (k : Str) (m : List (Str × V)) (v : V) → get k m ≡ some v → contains k m ≡ true
unfolding contains
contains_of k m v e = rw (contains, e) refl

get_nothing {ℓ} : {V : Type ℓ} (k : Str) → ◌≡◌ {A = Option V} (get k []) none
unfolding get
get_nothing k = refl

pub contains-nothing {ℓ} : (V : Type ℓ) (k : Str) → contains {V = V} k [] ≡ false
unfolding contains get
contains-nothing V k = refl

pub empty-IsIndexOf : IsIndexOf (insert services_key [] []) []
empty-IsIndexOf = record {
  services = [];
  has_services = get-insert services_key [] [];
  ascending = unfold insert in (record {}, record {});
  counts_services = λ service second. unfold get or_none in refl;
  has_actions = λ service h. absurd (unfold contains get in cc);
  counts_actions = λ service actions ne e. absurd (
      cc (
        e,
        get-insert_ne {V = ByValue} service services_key [] [] ne,
        get_nothing {V = ByValue} service,
      ));
}

-- The index but for the actions of one service.
pub record IsPartly (keys : List (Str × ByValue)) (log : Log) (but : Str) : Type 0 where
  pub services : ByValue
  pub has_services : get services_key keys ≡ some services
  pub ascending : All (λ e. AllAscending e.1) keys
  pub counts_services :
      (service : Str) (second : ℕ)
      → value_at services service second ≡ of_service log service second
  pub has_actions :
      (service : Str)
      → service ≢ but
      → contains service services ≡ true
      → (actions : ByValue) × (get service keys ≡ some actions)
  pub counts_actions :
      (service : Str) (actions : ByValue)
      → service ≢ but
      → service ≢ services_key
      → get service keys ≡ some actions
      → Counts log service actions

-- A text is another one, or not.
pub str_cases : (a b : Str) → (a ≡ b) ⊎ (a ≢ b)
str_cases a b = elim (Bool-cases (str_eq a b)) [
  | inl e ↦ inl (str_eq→eq a b e)
  | inr e ↦ inr (str_ne a b e)
]

-- The actions of the service are put under it.
pub IsPartly-insert :
    (keys : List (Str × ByValue)) (log : Log) (service : Str) (actions : ByValue)
    → service ≢ services_key
    → AllAscending actions
    → IsPartly keys log service
    → IsPartly (insert service actions keys) log service
IsPartly-insert keys log service actions ne asc p = record {
  services = p.services;
  has_services = get-insert_ne services_key service actions keys (λ e. ne (sym e)) ∙ p.has_services;
  ascending = All-insert (λ e. AllAscending e.1) service actions keys asc p.ascending;
  counts_services = p.counts_services;
  has_actions = λ v other h.
      let (found, e) = p.has_actions v other h in
      (found, get-insert_ne v service actions keys other ∙ e);
  counts_actions = λ v found other not_key e.
      p.counts_actions v found other not_key (sym (get-insert_ne v service actions keys other) ∙ e);
}

-- The whole index, once the actions of the service count its records.
pub IsPartly-whole :
    (keys : List (Str × ByValue)) (log : Log) (service : Str) (actions : ByValue)
    → get service keys ≡ some actions
    → service ≢ services_key
    → Counts log service actions
    → IsPartly keys log service
    → IsIndexOf keys log
IsPartly-whole keys log service actions here ne counts p = record {
  services = p.services;
  has_services = p.has_services;
  ascending = p.ascending;
  counts_services = p.counts_services;
  has_actions = λ v h. elim (str_cases v service) [
    | inl same ↦ (actions, subst (λ x. get x keys ≡ some actions) (sym same) here)
    | inr other ↦ p.has_actions v other h
  ];
  counts_actions = λ v found not_key e. elim (str_cases v service) [
    | inl same ↦
        let is_it : actions ≡ found = ground (arith, here, e, ap (λ x. get x keys) same) in
        subst (λ x. Counts log x found) (sym same) (subst (λ a. Counts log service a) is_it counts)
    | inr other ↦ p.counts_actions v found other not_key e
  ];
}

pub IsPartly-services :
    (keys : List (Str × ByValue)) (log : Log) → IsPartly keys log services_key → IsIndexOf keys log
IsPartly-services keys log p = record {
  services = p.services;
  has_services = p.has_services;
  ascending = p.ascending;
  counts_services = p.counts_services;
  has_actions = λ v h. elim (str_cases v services_key) [
    | inl same ↦ (p.services, subst (λ x. get x keys ≡ some p.services) (sym same) p.has_services)
    | inr other ↦ p.has_actions v other h
  ];
  counts_actions = λ v found not_key e. p.counts_actions v found not_key not_key e;
}
