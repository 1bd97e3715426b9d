-- ===== src/Storage/KeyIndex/Adds/Batches.antt =====
-- `add_records` of key_index.rs on the records of a batch.
use my_telemetry_server.Base.{
  ℕ, ◌+◌, ◌^◌, ◌<◌, ◌≡◌, refl, ◌∙◌, arith, if◌then◌else◌, Bool, false, some, List, [], ◌∷◌, length,
  Bool-cases, inl, inr, ◌⊎◌,
}
use my_telemetry_server.Base.Keys.{by_bytes}
use my_telemetry_server.Storage.Rec.{Rec}
use my_telemetry_server.Storage.KeyIndex.{KeyIndex, add_record, add_each}
use my_telemetry_server.Storage.KeyIndex.Exact.{Log, IsIndexOf}
use my_telemetry_server.Storage.KeyIndex.Adds.{Adds, add_to_index, add_to_nothing}

-- Nothing is indexed yet, or what was added is.
abbrev pub Fresh : KeyIndex → Log → Type 0
Fresh i log = ((i.keys ≡ []) × (log ≡ [])) ⊎ IsIndexOf i.keys log

-- The records of a batch, each with the second, the last one first.
abbrev pub log_batch : ℕ → List Rec → Log → Log
log_batch second [] log = log
log_batch second (r ∷ rs) log = log_batch second rs ((second, r) ∷ log)

pub length-log_batch :
    (second : ℕ) (rs : List Rec) (log : Log)
    → length (log_batch second rs log) ≡ length log + length rs
length-log_batch second [] log = omega arith
length-log_batch second (r ∷ rs) log = omega (arith, length-log_batch second rs ((second, r) ∷ log))

add_each_cons :
    (i j : KeyIndex) (second : ℕ) (r : Rec) (rs : List Rec) (within : Bool)
    → add_record i second r ≡ some (j, within)
    → add_each i second (r ∷ rs)
      ≡ (if within then add_each j second rs else some (record j { keys = []; pairs = 0 }))
unfolding add_each
add_each_cons i j second r rs within e = rw (add_each, e) refl

add-Fresh :
    (i : KeyIndex) (second : ℕ) (r : Rec) (log : Log)
    → second < 3600
    → length log + 1 < 2 ^ 32
    → Fresh i log
    → Adds i ((second, r) ∷ log) (add_record i second r)
add-Fresh i second r log h room (inl (e, l)) = add_to_nothing second r log h room i e l
add-Fresh i second r log h room (inr x) = add_to_index second r log h room i x

-- A batch keeps the index one of the records added, or lets it go.
pub add_each_lem :
    (rs : List Rec) (i : KeyIndex) (second : ℕ) (log : Log)
    → second < 3600
    → length log + length rs < 2 ^ 32
    → Fresh i log
    → (j : KeyIndex) × (add_each i second rs ≡ some j)
      × (j.total_records ≡ i.total_records)
      × (((j.keys ≡ []) × (0 < length rs)) ⊎ Fresh j (log_batch second rs log))
add_each_lem [] i second log h room fresh = (i, unfold add_each in refl, refl, inr fresh)
add_each_lem (r ∷ rs) i second log h room fresh =
    let (j, within, eq, total, known) = add-Fresh i second r log h (omega arith) fresh in
    let step = add_each_cons i j second r rs within eq in
    let gone : (within ≡ false)
        → (k : KeyIndex) × (add_each i second (r ∷ rs) ≡ some k)
          × (k.total_records ≡ i.total_records)
          × (((k.keys ≡ []) × (0 < length (r ∷ rs))) ⊎ Fresh k (log_batch second (r ∷ rs) log)) =
      λ w. (record j { keys = []; pairs = 0 }, step ∙ rw w refl, total, inl (refl, omega arith)) in
    elim known [
      | inl w ↦ gone w
      | inr x ↦ elim (Bool-cases within) [
        | inr w ↦ gone w
        | inl w ↦
            let (k, eq', total', known') =
              add_each_lem rs j second ((second, r) ∷ log) h (omega arith) (inr x) in
            (
              k,
              step ∙ rw w eq',
              total' ∙ total,
              elim known' [ inl (e, some_more) ↦ inl (e, omega arith) | inr f ↦ inr f ],
            )
      ]
    ]
