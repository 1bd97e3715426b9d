-- ===== src/Storage/Runs/Cover.antt =====
-- The runs of a search: in order, apart, within what was asked, and with every second which may
-- have a match.
use my_telemetry_server.Base.{
  ℕ, zero, suc, ◌+◌, ◌-◌, ◌≤◌, ◌<◌, ◌≡◌, ◌≢◌, refl, sym, ap, subst, ◌∙◌, arith, ltb, leb, ◌==◌,
  Bool, true, ◌&&◌, ◌||◌, Option, none, some, List, [], ◌∷◌, ◌++◌, any, length, get_elem?, min,
  Bool-cases, Option-cases, inl, inr, ◌⊎◌, get_inside,
}
use my_telemetry_server.Storage.Cells.{count}
use my_telemetry_server.Storage.KeyIndex.{estimate}
use my_telemetry_server.Storage.Runs.{
  HourSource, estimate_of, estimate_at, Scan, extend, round, numbers, numbers_at, rounds,
  with_current, all_runs, runs,
}

-- Runs in order, apart from each other, from `lo` on and before `hi`.
abbrev pub AreRuns : ℕ → ℕ → List (ℕ × ℕ) → Type 0
AreRuns lo hi [] = Unit
AreRuns lo hi (r ∷ rs) = (lo ≤ r.0) × ((r.0 ≤ r.1) × ((r.1 < hi) × AreRuns (suc r.1) hi rs))

-- The second is in one of the runs.
abbrev pub covered : ℕ → List (ℕ × ℕ) → Bool
covered second rs = any (λ r. leb r.0 second && leb second r.1) rs

AreRuns-later :
    (lo hi hi' : ℕ) (rs : List (ℕ × ℕ)) → hi ≤ hi' → AreRuns lo hi rs → AreRuns lo hi' rs
AreRuns-later lo hi hi' [] h k = k
AreRuns-later lo hi hi' (r ∷ rs) h k =
    (k.0, (k.1.0, (omega (arith, k.1.1.0), AreRuns-later (suc r.1) hi hi' rs h k.1.1.1)))

-- Another run of one second, after the ones there are.
AreRuns-next :
    (lo hi : ℕ) (rs : List (ℕ × ℕ))
    → lo ≤ hi
    → AreRuns lo hi rs
    → AreRuns lo (suc hi) (rs ++ ((hi, hi) ∷ []))
AreRuns-next lo hi [] h k = (h, (omega arith, (omega arith, record {})))
AreRuns-next lo hi (r ∷ rs) h k = (
  k.0,
  (k.1.0, (omega (arith, k.1.1.0), AreRuns-next (suc r.1) hi rs (omega (arith, k.1.1.0)) k.1.1.1)),
)

-- The last run goes on to the next second.
AreRuns-longer :
    (lo hi a b : ℕ) (rs : List (ℕ × ℕ))
    → AreRuns lo hi (rs ++ ((a, b) ∷ []))
    → AreRuns lo (suc hi) (rs ++ ((a, hi) ∷ []))
AreRuns-longer lo hi a b [] k = (k.0, (omega (arith, k.1.0, k.1.1.0), (omega arith, record {})))
AreRuns-longer lo hi a b (r ∷ rs) k =
    (k.0, (k.1.0, (omega (arith, k.1.1.0), AreRuns-longer (suc r.1) hi a b rs k.1.1.1)))

covered-append :
    (s : ℕ) (rs ts : List (ℕ × ℕ)) → covered s (rs ++ ts) ≡ (covered s rs || covered s ts)
covered-append s [] ts = refl
covered-append s (r ∷ rs) ts = ground (arith, covered-append s rs ts)

last_bounds :
    (lo hi a b : ℕ) (rs : List (ℕ × ℕ)) → AreRuns lo hi (rs ++ ((a, b) ∷ [])) → (a ≤ b) × (b < hi)
last_bounds lo hi a b [] k = (k.1.0, k.1.1.0)
last_bounds lo hi a b (r ∷ rs) k = last_bounds (suc r.1) hi a b rs k.1.1.1

-- What the loop has before the second `at`.
record IsScanned (s : HourSource) (from at : ℕ) (scan : Scan) : Type 0 where
  ordered : AreRuns from at (with_current scan.result scan.current)
  covers :
      (j records estimate : ℕ)
      → from ≤ j
      → j < at
      → count s.cells j ≡ some records
      → estimate_at s j ≡ some estimate
      → records ≢ 0
      → estimate ≢ 0
      → covered j (with_current scan.result scan.current) ≡ true

extend_lem :
    (from at records_per_read : ℕ) (scan : Scan) (c : Option (ℕ × ℕ))
    → from ≤ at
    → scan.current ≡ c
    → AreRuns from at (with_current scan.result c)
    → AreRuns from (suc at) (
        with_current
          (extend records_per_read at scan c).result
          (extend records_per_read at scan c).current)
      × (covered at (
            with_current
              (extend records_per_read at scan c).result
              (extend records_per_read at scan c).current)
          ≡ true)
      × ((j : ℕ)
          → j < at
          → covered j (with_current scan.result c) ≡ true
          → covered j (
              with_current
                (extend records_per_read at scan c).result
                (extend records_per_read at scan c).current)
            ≡ true)
unfolding extend with_current
extend_lem from at per scan none le e k = (
  AreRuns-next from at scan.result le k,
  ground (arith, covered-append at scan.result ((at, at) ∷ [])),
  λ j lt h. ground (arith, h, covered-append j scan.result ((at, at) ∷ [])),
)
extend_lem from at per scan (some (a, b)) le e k = elim (Bool-cases (ltb scan.gap per)) [
  | inl g ↦
      let (a_b, b_at) = last_bounds from at a b scan.result k in
      rw g (
        AreRuns-longer from at a b scan.result k,
        covered-append at scan.result ((a, at) ∷ []) ∙ ground (arith, a_b, b_at),
        λ j lt h.
            covered-append j scan.result ((a, at) ∷ [])
            ∙ ground (arith, b_at, lt, h, covered-append j scan.result ((a, b) ∷ [])),
      )
  | inr g ↦ rw g (
    AreRuns-next from at (scan.result ++ ((a, b) ∷ [])) le k,
    covered-append at (scan.result ++ ((a, b) ∷ [])) ((at, at) ∷ []) ∙ ground arith,
    λ j lt h. covered-append j (scan.result ++ ((a, b) ∷ [])) ((at, at) ∷ []) ∙ ground (arith, h),
  )
]

-- Of a second up to `at`, it is before it or it.
up_to : (j at : ℕ) → j < suc at → (j < at) ⊎ (j ≡ at)
up_to j at h = elim (Bool-cases (ltb j at)) [
  | inl e ↦ inl (ground arith)
  | inr e ↦ inr (ground arith)
]

module _ (s : HourSource) (from at records estimate : ℕ) (le : from ≤ at)
    (c : count s.cells at ≡ some records) (e : estimate_at s at ≡ some estimate) where
  -- A second with no match changes no run.
  IsScanned-skip :
      (scan : Scan) (gap : ℕ)
      → (records ≡ 0) ⊎ (estimate ≡ 0)
      → IsScanned s from at scan
      → IsScanned s from (suc at) (record scan { gap = gap })
  IsScanned-skip scan gap none_of_it k = record {
    ordered =
        AreRuns-later from at (suc at) (with_current scan.result scan.current) (omega arith)
          k.ordered;
    covers = λ j n m lo hi cj ej nz mz. elim (up_to j at hi) [
      | inl lt ↦ k.covers j n m lo lt cj ej nz mz
      | inr same ↦
          let n_is : n ≡ records = ground (arith, cj, c, ap (count s.cells) same) in
          let m_is : m ≡ estimate = ground (arith, ej, e, ap (estimate_at s) same) in
          absurd (elim none_of_it [ inl z ↦ nz (n_is ∙ z) | inr z ↦ mz (m_is ∙ z) ])
    ];
  }

  IsScanned-extend :
      (per : ℕ) (scan : Scan)
      → IsScanned s from at scan
      → IsScanned s from (suc at) (extend per at scan scan.current)
  IsScanned-extend per scan k =
      let (ordered, here, before) = extend_lem from at per scan scan.current le refl k.ordered in
      record {
        ordered = ordered;
        covers = λ j n m lo hi cj ej nz mz. elim (up_to j at hi) [
          | inl lt ↦ before j lt (k.covers j n m lo lt cj ej nz mz)
          | inr same ↦
              subst
                (λ x.
                  covered x (
                    with_current (extend per at scan scan.current).result
                      (extend per at scan scan.current).current)
                  ≡ true)
                (sym same) here
        ];
      }

  IsScanned-round :
      (per : ℕ) (scan : Scan)
      → IsScanned s from at scan
      → IsScanned s from (suc at) (round per at records estimate scan)
  unfolding round
  IsScanned-round per scan k = elim (Bool-cases (records == 0)) [
    | inl z ↦ rw z (IsScanned-skip scan scan.gap (inl (ground (arith, z))) k)
    | inr z ↦ elim (Bool-cases (estimate == 0)) [
      | inl y ↦ rw (z, y) (IsScanned-skip scan (scan.gap + records) (inr (ground (arith, y))) k)
      | inr y ↦ rw (z, y) (IsScanned-extend per scan k)
    ]
  ]

-- Every second of an hour has its two numbers.
HasNumbers : HourSource → ℕ → Type 0
HasNumbers s second =
    (records : ℕ) × (estimate : ℕ) × (count s.cells second ≡ some records)
    × (estimate_at s second ≡ some estimate)

rounds-suc :
    (n : ℕ) (s : HourSource) (per second records estimate : ℕ) (scan : Scan)
    → count s.cells second ≡ some records
    → estimate_at s second ≡ some estimate
    → rounds (suc n) s per second scan
      ≡ rounds n s per (suc second) (round per second records estimate scan)
unfolding rounds numbers_at numbers
rounds-suc n s per second records estimate scan c e = rw (rounds, c) (rw e refl)

rounds_lem :
    (n : ℕ) (s : HourSource) (per from at : ℕ) (scan : Scan)
    → from ≤ at
    → ((j : ℕ) → j < at + n → HasNumbers s j)
    → IsScanned s from at scan
    → (scan' : Scan) × (rounds n s per at scan ≡ some scan') × IsScanned s from (at + n) scan'
unfolding HasNumbers
rounds_lem zero s per from at scan le h k =
    (scan, unfold rounds in refl, subst (λ x. IsScanned s from x scan) (omega arith) k)
rounds_lem (suc n) s per from at scan le h k =
    let (records, estimate, c, e) = h at (omega arith) in
    let (scan', eq, k') =
      rounds_lem n s per from (suc at) (round per at records estimate scan) (omega arith)
        (λ j lt. h j (omega arith))
        (IsScanned-round s from at records estimate le c e per scan k) in
    (
      scan',
      rounds-suc n s per at records estimate scan c e ∙ eq,
      subst (λ x. IsScanned s from x scan') (omega arith) k',
    )

-- An hour whose counts, and the counts of the search when an index says them, have every second.
pub record IsOpen (s : HourSource) : Type 0 where
  pub counts_all : length s.cells.counts ≡ 3600
  pub says_all : (cs : List ℕ) → s.counts.counts ≡ some cs → length cs ≡ 3600

estimate_none :
    (s : HourSource) (second records : ℕ)
    → count s.cells second ≡ some records
    → s.counts.counts ≡ none
    → estimate_at s second ≡ some records
unfolding estimate_at estimate_of estimate
estimate_none s second records c e = rw c (rw e refl)

estimate_some :
    (s : HourSource) (second records n : ℕ) (cs : List ℕ)
    → count s.cells second ≡ some records
    → s.counts.counts ≡ some cs
    → get_elem? cs second ≡ some n
    → estimate_at s second ≡ some (min records n)
unfolding estimate_at estimate_of estimate
estimate_some s second records n cs c e f = rw c (rw e (rw f refl))

HasNumbers-IsOpen : (s : HourSource) (second : ℕ) → IsOpen s → second < 3600 → HasNumbers s second
unfolding HasNumbers count
HasNumbers-IsOpen s second v h =
    let (records, c) = get_inside s.cells.counts second (omega (arith, h, v.counts_all)) in
    elim (Option-cases s.counts.counts) [
      | inl e ↦ (records, records, c, estimate_none s second records c e)
      | inr (cs, e) ↦
          let (n, found) = get_inside cs second (omega (arith, h, v.says_all cs e)) in
          (records, min records n, c, estimate_some s second records n cs c e found)
    ]

-- The runs of a search of the seconds `from .. to` are found, are in order, apart, and within these
-- seconds; a second of them which has records, of which some may match, is in one of the runs.
pub runs_cover :
    (s : HourSource) (from to records_per_read second records estimate : ℕ)
    → IsOpen s
    → from ≤ second
    → second ≤ to
    → to < 3600
    → count s.cells second ≡ some records
    → estimate_at s second ≡ some estimate
    → records ≢ 0
    → estimate ≢ 0
    → (rs : List (ℕ × ℕ)) × (runs s from to records_per_read ≡ some rs)
      × AreRuns from (suc to) rs
      × (covered second rs ≡ true)
unfolding runs all_runs
runs_cover s from to per second records estimate v lo hi inside c e nz mz =
    let n : ℕ = suc to - from in
    let end : from + n ≡ suc to = omega arith in
    let (scan, eq, k) =
      rounds_lem n s per from from (record { result = []; current = none; gap = 0 }) (omega arith)
        (λ j lt. HasNumbers-IsOpen s j v (omega arith)) start in
    (
      with_current scan.result scan.current,
      rw eq refl,
      subst (λ x. AreRuns from x (with_current scan.result scan.current)) end k.ordered,
      k.covers second records estimate lo (omega arith) c e nz mz,
    )
  where
    start : IsScanned s from from (record { result = []; current = none; gap = 0 })
    start =
        unfold with_current in
        record { ordered = record {}; covers = λ j n m lo hi. absurd (omega arith) }
