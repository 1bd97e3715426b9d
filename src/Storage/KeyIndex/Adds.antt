-- ===== src/Storage/KeyIndex/Adds.antt =====
-- `add_record` and `add_records` keep the index one of the records added, or let it go.
pub mod Batches
use my_telemetry_server.Base.{
  ℕ, ◌+◌, ◌^◌, ◌<◌, ◌≡◌, ◌≢◌, refl, sym, ap, subst, ◌∙◌, arith, leb, if◌then◌else◌, Bool, true,
  false, not, ◌&&◌, Option, none, some, List, [], ◌∷◌, length, Bool-cases, inl, inr, ◌⊎◌,
}
use my_telemetry_server.Base.Str.{Str, str_eq, str_eq→eq}
use my_telemetry_server.Base.Assoc.{get, insert, get-insert, get-insert_ne, All_get}
use my_telemetry_server.Base.Keys.{by_bytes}
use my_telemetry_server.Storage.Rec.{Rec}
use my_telemetry_server.Storage.KeyIndex.{
  KeyIndex, ByValue, services_key, max_pairs, max_services, or_none, count_in, contains,
  count_action, add_action, add_service, add_record, add_each, is_empty_map,
}
use my_telemetry_server.Storage.KeyIndex.Seconds.{count_at, AllAscending, value_at, str_ne}
use my_telemetry_server.Storage.KeyIndex.Exact.{
  Log, of_action, of_action_le, IsIndexOf, IsPartly, IsPartly-insert, IsPartly-whole,
  IsPartly-services, contains-none, contains_of, empty-IsIndexOf, contains-nothing,
}
use my_telemetry_server.Storage.KeyIndex.Steps.{services_counted, actions_more}

is_empty_map→eq {ℓ} : {A : Type ℓ} (xs : List A) → is_empty_map xs ≡ true → xs ≡ []
unfolding is_empty_map
is_empty_map→eq [] h = refl
is_empty_map→eq (x ∷ xs) h = absurd (cc)

-- What `add_record` gives: the index with the record, whose count of all records stays.
abbrev pub Adds : KeyIndex → Log → Option (KeyIndex × Bool) → Type 0
Adds i log result =
    (j : KeyIndex) × (within : Bool) × (result ≡ some (j, within))
    × (j.total_records ≡ i.total_records)
    × ((within ≡ false) ⊎ IsIndexOf j.keys log)

module _ (second : ℕ) (r : Rec) (log : Log) (in_hour : second < 3600)
    (room : length log + 1 < 2 ^ 32) where
  add_action_lem :
      (i : KeyIndex) (is_new : Bool) (actions : ByValue)
      → r.service_name ≢ services_key
      → IsPartly i.keys ((second, r) ∷ log) r.service_name
      → get r.service_name i.keys ≡ some actions
      → ((is_new ≡ false) × (actions ≡ []))
        ⊎ ((action : Str) (s : ℕ)
            → value_at actions action s ≡ of_action log r.service_name action s)
      → Adds i ((second, r) ∷ log) (add_action i second r is_new (some actions))
  unfolding add_action
  add_action_lem i is_new actions ne p here known =
      elim (Bool-cases (not is_new && is_empty_map actions)) [
        | inl e ↦ (
          i,
          leb i.pairs max_pairs,
          rw e refl,
          refl,
          inr (
              IsPartly-whole i.keys ((second, r) ∷ log) r.service_name actions here ne
                (inl (is_empty_map→eq actions (ground (arith, e)))) p),
        )
        | inr e ↦
            let counted : ByValue × ℕ = count_action actions r.event_data second i.pairs in
            let exact : (action : Str) (s : ℕ)
                → value_at actions action s ≡ of_action log r.service_name action s =
              elim known [
                | inl kept ↦
                    let empty : is_empty_map actions ≡ true =
                      (unfold is_empty_map in
                        subst (λ a. is_empty_map a ≡ true) (sym kept.1) refl) in
                    absurd (ground (arith, kept.0, empty, e))
                | inr f ↦ f
              ] in
            let (asc, counts) =
              actions_more second r log in_hour room actions i.pairs
                (All_get (λ e. AllAscending e.1) r.service_name i.keys actions p.ascending here)
                exact in
            (
              record i { keys = insert r.service_name counted.0 i.keys; pairs = counted.1 },
              leb counted.1 max_pairs,
              rw e refl,
              refl,
              inr (
                  IsPartly-whole (insert r.service_name counted.0 i.keys) ((second, r) ∷ log)
                    r.service_name counted.0 (get-insert r.service_name counted.0 i.keys) ne counts
                    (IsPartly-insert i.keys ((second, r) ∷ log) r.service_name counted.0 ne asc p)),
            )
      ]

  no_actions :
      (keys : List (Str × ByValue)) (x : IsIndexOf keys log)
      → contains r.service_name x.services ≡ false
      → (action : Str) (s : ℕ) → value_at [] action s ≡ of_action log r.service_name action s
  no_actions keys x h action s =
      let none_counted : value_at x.services r.service_name s ≡ 0 =
        ap (λ o. count_at (or_none o) s) (contains-none r.service_name x.services h) ∙ none_at s in
      empty_at action s
      ∙ omega (
        arith,
        of_action_le log r.service_name action s,
        x.counts_services r.service_name s,
        none_counted,
      )
    where
      none_at : (s : ℕ) → count_at (or_none none) s ≡ 0
      none_at s = unfold or_none in refl

      empty_at : (action : Str) (s : ℕ) → value_at [] action s ≡ 0
      empty_at action s = unfold or_none get in refl

  module _ (i : KeyIndex) (services : ByValue) where
    with_services : KeyIndex
    with_services = record i {
      keys = insert services_key (count_in services r.service_name second).0 i.keys;
      pairs = i.pairs + (count_in services r.service_name second).1;
    }

    with_service : KeyIndex
    with_service = record with_services { keys = insert r.service_name [] with_services.keys }

    too_many :
        contains r.service_name services ≡ false
        → leb max_services (length services) ≡ true
        → add_service i second r (some services) ≡ some (i, false)
    unfolding add_service
    too_many h l = rw (h, l) refl

    as_services :
        (not (contains r.service_name services) && leb max_services (length services)) ≡ false
        → str_eq r.service_name services_key ≡ true
        → add_service i second r (some services)
          ≡ some (with_services, leb with_services.pairs max_pairs)
    unfolding add_service with_services
    as_services h l = rw (h, l) refl

    old_service :
        contains r.service_name services ≡ true
        → str_eq r.service_name services_key ≡ false
        → add_service i second r (some services)
          ≡ add_action with_services second r false (get r.service_name with_services.keys)
    unfolding add_service with_services
    old_service h l = rw (h, l) refl

    new_service :
        contains r.service_name services ≡ false
        → leb max_services (length services) ≡ false
        → str_eq r.service_name services_key ≡ false
        → add_service i second r (some services)
          ≡ add_action with_service second r true (get r.service_name with_service.keys)
    unfolding add_service with_service with_services
    new_service h l n = rw (h, l, n) refl

  add_to_services :
      (i : KeyIndex) (x : IsIndexOf i.keys log)
      → (not (contains r.service_name x.services) && leb max_services (length x.services)) ≡ false
      → str_eq r.service_name services_key ≡ true
      → Adds i ((second, r) ∷ log) (add_service i second r (some x.services))
  unfolding with_services
  add_to_services i x h n = (
    with_services i x.services,
    leb (with_services i x.services).pairs max_pairs,
    as_services i x.services h n,
    refl,
    inr (
        IsPartly-services (with_services i x.services).keys ((second, r) ∷ log) (
          subst (IsPartly (with_services i x.services).keys ((second, r) ∷ log))
            (str_eq→eq r.service_name services_key n)
            (services_counted second r log in_hour room i.keys x))),
  )

  add_to_old :
      (i : KeyIndex) (x : IsIndexOf i.keys log)
      → contains r.service_name x.services ≡ true
      → str_eq r.service_name services_key ≡ false
      → Adds i ((second, r) ∷ log) (add_service i second r (some x.services))
  unfolding with_services insert
  add_to_old i x h n =
      let ne : r.service_name ≢ services_key = str_ne r.service_name services_key n in
      let (actions, e) = x.has_actions r.service_name h in
      let j : KeyIndex = with_services i x.services in
      let here : get r.service_name j.keys ≡ some actions =
        get-insert_ne r.service_name services_key _ i.keys ne ∙ e in
      let known : ((false ≡ false) × (actions ≡ []))
          ⊎ ((action : Str) (s : ℕ)
              → value_at actions action s ≡ of_action log r.service_name action s) =
        elim (x.counts_actions r.service_name actions ne e) [
          | inl empty ↦ inl (refl, empty)
          | inr exact ↦ inr exact
        ] in
      subst (Adds i ((second, r) ∷ log))
        (sym (old_service i x.services h n ∙ ap (add_action j second r false) here))
        (add_action_lem j false actions ne (services_counted second r log in_hour room i.keys x)
          here known)

  add_to_new :
      (i : KeyIndex) (x : IsIndexOf i.keys log)
      → contains r.service_name x.services ≡ false
      → leb max_services (length x.services) ≡ false
      → str_eq r.service_name services_key ≡ false
      → Adds i ((second, r) ∷ log) (add_service i second r (some x.services))
  unfolding with_service insert with_services
  add_to_new i x h l n =
      let ne : r.service_name ≢ services_key = str_ne r.service_name services_key n in
      let j : KeyIndex = with_service i x.services in
      let here : get r.service_name j.keys ≡ some [] =
        get-insert r.service_name [] (with_services i x.services).keys in
      subst (Adds i ((second, r) ∷ log))
        (sym (new_service i x.services h l n ∙ ap (add_action j second r true) here))
        (add_action_lem j true [] ne
          (IsPartly-insert (with_services i x.services).keys ((second, r) ∷ log) r.service_name []
            ne (record {}) (services_counted second r log in_hour room i.keys x))
          here (inr (no_actions i.keys x h)))

  pub add_service_lem :
      (i : KeyIndex) (x : IsIndexOf i.keys log)
      → Adds i ((second, r) ∷ log) (add_service i second r (some x.services))
  add_service_lem i x = elim (Bool-cases (contains r.service_name x.services)) [
    | inl h ↦ elim (Bool-cases (str_eq r.service_name services_key)) [
      | inl n ↦ add_to_services i x (ground (arith, h)) n
      | inr n ↦ add_to_old i x h n
    ]
    | inr h ↦ elim (Bool-cases (leb max_services (length x.services))) [
      | inl l ↦ (i, false, too_many i x.services h l, refl, inl refl)
      | inr l ↦ elim (Bool-cases (str_eq r.service_name services_key)) [
        | inl n ↦ add_to_services i x (ground (arith, h, l)) n
        | inr n ↦ add_to_new i x h l n
      ]
    ]
  ]

  with_key : KeyIndex → KeyIndex
  with_key i = record i { keys = insert services_key [] i.keys }

  add_record_old :
      (i : KeyIndex)
      → contains services_key i.keys ≡ true
      → add_record i second r ≡ add_service i second r (get services_key i.keys)
  unfolding add_record
  add_record_old i h = rw h refl

  add_record_first :
      (i : KeyIndex)
      → contains services_key i.keys ≡ false
      → add_record i second r
        ≡ add_service (with_key i) second r (get services_key (with_key i).keys)
  unfolding add_record with_key
  add_record_first i h = rw h refl

  add_to_index :
      (i : KeyIndex) → IsIndexOf i.keys log → Adds i ((second, r) ∷ log) (add_record i second r)
  add_to_index i x =
      subst (Adds i ((second, r) ∷ log))
        (sym (
          add_record_old i (contains_of services_key i.keys x.services x.has_services)
          ∙ ap (add_service i second r) x.has_services))
        (add_service_lem i x)

  first_keys : (i : KeyIndex) → i.keys ≡ [] → log ≡ [] → IsIndexOf (with_key i).keys log
  unfolding with_key
  first_keys i e l =
      subst (λ w. IsIndexOf (insert services_key [] i.keys) w) (sym l)
        (subst (λ k. IsIndexOf (insert services_key [] k) []) (sym e) empty-IsIndexOf)

  add_to_nothing :
      (i : KeyIndex) → i.keys ≡ [] → log ≡ [] → Adds i ((second, r) ∷ log) (add_record i second r)
  add_to_nothing i e l =
      let x : IsIndexOf (with_key i).keys log = first_keys i e l in
      let (j, within, eq, total, known) = add_service_lem (with_key i) x in
      (
        j,
        within,
        add_record_first i (
              subst (λ k. contains services_key k ≡ false) (sym e)
                (contains-nothing ByValue services_key))
            ∙ ap (add_service (with_key i) second r) x.has_services
            ∙ eq,
        total ∙ (unfold with_key in refl),
        known,
      )
