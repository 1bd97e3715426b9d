-- ===== src/Storage/KeyIndex/Seconds.antt =====
-- The counts of the seconds of one value, and of the values of one key.
use my_telemetry_server.Base.{
  ℕ, ◌+◌, ◌%◌, ◌^◌, ◌≤◌, ◌<◌, ◌≡◌, ◌≢◌, refl, sym, ap, subst, ◌∙◌, arith, ltb, ◌==◌, if◌then◌else◌,
  true, false, ◌&&◌, some, [], ◌∷◌, All, All_map, Bool-cases, Option-cases, inl, inr,
}
use my_telemetry_server.Base.Result.{Result, ok, err}
use my_telemetry_server.Base.Str.{Str, str_eq, str_eq→eq, str_eq_refl}
use my_telemetry_server.Base.Assoc.{get, insert, get-insert, get-insert_ne, All-insert, All_get}
use my_telemetry_server.Base.Keys.{by_bytes}
use my_telemetry_server.Storage.KeyIndex.{
  SecondCounts, ByValue, shift, binary_search, bump, insert_at, count_found, count_second, or_none,
  count_in,
}

-- How many records are counted in the second.
abbrev pub count_at : SecondCounts → ℕ → ℕ
count_at [] second = 0
count_at (e ∷ es) second = if e.0 == second then e.1 else count_at es second

abbrev pub IsAscending : SecondCounts → Type 0
IsAscending [] = Unit
IsAscending (e ∷ es) = All (λ x. e.0 < x.0) es × IsAscending es

count_found-shift :
    (second : ℕ) (e : ℕ × ℕ) (es : SecondCounts) (r : Result ℕ ℕ)
    → (count_found second (e ∷ es) (shift r)).0 ≡ e ∷ (count_found second es r).0
unfolding count_found shift bump insert_at
count_found-shift second e es (ok i) = refl
count_found-shift second e es (err i) = refl

-- One more record in a second, without the search.
count_second_cons :
    (second : ℕ) (e : ℕ × ℕ) (es : SecondCounts)
    → (count_second second (e ∷ es)).0 ≡ (
        if e.0 == second
        then (e.0, (e.1 + 1) % 2 ^ 32) ∷ es
        else if ltb second e.0
        then (second, 1) ∷ e ∷ es
        else e ∷ (count_second second es).0)
unfolding count_second binary_search
count_second_cons second e es = elim (Bool-cases (e.0 == second)) [
  | inl p ↦ rw p (unfold count_found bump in refl)
  | inr p ↦ elim (Bool-cases (ltb second e.0)) [
    | inl q ↦ rw (p, q) (unfold count_found insert_at in refl)
    | inr q ↦ rw (p, q) (count_found-shift second e es (binary_search second es))
  ]
]

pub none_before :
    (es : SecondCounts) (second : ℕ) → All (λ x. second < x.0) es → count_at es second ≡ 0
none_before [] second h = refl
none_before (e ∷ es) second h = ground (arith, h.0, none_before es second h.1)

pub all_later :
    (es : SecondCounts) (a b : ℕ) → a ≤ b → All (λ x. b < x.0) es → All (λ x. a < x.0) es
all_later es a b h = All_map (λ x. b < x.0) (λ x. a < x.0) es (λ x l. omega (arith, l))

all_after_count :
    (es : SecondCounts) (a second : ℕ)
    → a < second
    → All (λ x. a < x.0) es
    → All (λ x. a < x.0) (count_second second es).0
all_after_count [] a second h k =
    unfold count_second binary_search count_found insert_at in (h, record {})
all_after_count (e ∷ es) a second h k =
    rw (count_second_cons second e es) (ground (arith, k.0, k.1, all_after_count es a second h k.1))

pub count_second-IsAscending :
    (second : ℕ) (es : SecondCounts) → IsAscending es → IsAscending (count_second second es).0
count_second-IsAscending second [] h =
    unfold count_second binary_search count_found insert_at in (record {}, record {})
count_second-IsAscending second (e ∷ es) h = rw (count_second_cons second e es) (
    ground (
      arith,
      h.0,
      h.1,
      all_later es second e.0,
      all_after_count es e.0 second,
      count_second-IsAscending second es h.1,
    ))

-- The count of the second goes up by one, the others stay.
pub count_at-count_second :
    (second other : ℕ) (es : SecondCounts)
    → IsAscending es
    → count_at es second + 1 < 2 ^ 32
    → count_at (count_second second es).0 other
      ≡ (if second == other then count_at es second + 1 else count_at es other)
count_at-count_second second other [] h small =
    unfold count_second binary_search count_found insert_at in ground arith
count_at-count_second second other (e ∷ es) h small = rw (count_second_cons second e es) (
    ground (
      arith,
      none_before es second,
      all_later es second e.0,
      h.0,
      count_at-count_second second other es h.1,
    ))

abbrev pub value_at : ByValue → Str → ℕ → ℕ
value_at by_value value second = count_at (or_none (get value by_value)) second

-- The seconds are in order, and seconds of an hour.
abbrev pub IsSeconds : SecondCounts → Type 0
IsSeconds es = IsAscending es × All (λ x. x.0 < 3600) es

abbrev pub AllAscending : ByValue → Type 0
AllAscending by_value = All (λ e. IsSeconds e.1) by_value

in_hour_count :
    (es : SecondCounts) (second : ℕ)
    → second < 3600
    → All (λ x. x.0 < 3600) es
    → All (λ x. x.0 < 3600) (count_second second es).0
in_hour_count [] second h k =
    unfold count_second binary_search count_found insert_at in (h, record {})
in_hour_count (e ∷ es) second h k =
    rw (count_second_cons second e es) (ground (arith, k.0, k.1, in_hour_count es second h k.1))

-- 1 when the two name the same value and second.
abbrev pub is_one : Str → ℕ → Str → ℕ → ℕ
is_one v s value second = if str_eq v value && (s == second) then 1 else 0

pub or_none-IsSeconds :
    (by_value : ByValue) (value : Str)
    → AllAscending by_value
    → IsSeconds (or_none (get value by_value))
unfolding or_none
or_none-IsSeconds by_value value h = elim (Option-cases (get value by_value)) [
  | inl e ↦ rw e (record {}, record {})
  | inr (s, e) ↦ rw e (All_get (λ x. IsSeconds x.1) value by_value s h e)
]

pub count_in-AllAscending :
    (by_value : ByValue) (value : Str) (second : ℕ)
    → second < 3600
    → AllAscending by_value
    → AllAscending (count_in by_value value second).0
unfolding count_in
count_in-AllAscending by_value value second in_hour h =
    let (asc, inside) = or_none-IsSeconds by_value value h in
    All-insert (λ x. IsSeconds x.1) value _ by_value
      (
        count_second-IsAscending (second % 2 ^ 16) (or_none (get value by_value)) asc,
        in_hour_count (or_none (get value by_value)) (second % 2 ^ 16) (omega (arith, in_hour))
            inside,
      )
      h

pub str_ne : (a b : Str) → str_eq a b ≡ false → a ≢ b
str_ne a b h e = cc (h, subst (λ x. str_eq a x ≡ true) e (str_eq_refl a))

-- One more record: the count of its value and second goes up by one, all others stay.
pub value_at-count_in :
    (by_value : ByValue) (v : Str) (s : ℕ) (value : Str) (second : ℕ)
    → AllAscending by_value
    → s < 2 ^ 16
    → value_at by_value v s + 1 < 2 ^ 32
    → value_at (count_in by_value v s).0 value second
      ≡ value_at by_value value second + is_one v s value second
unfolding count_in or_none
value_at-count_in by_value v s value second h small room =
    let low : s % 2 ^ 16 ≡ s = omega arith in
    let seconds : SecondCounts = or_none (get v by_value) in
    let counted : SecondCounts × ℕ = count_second (s % 2 ^ 16) seconds in
    elim (Bool-cases (str_eq v value)) [
      | inl e ↦
          let same : value ≡ v = sym (str_eq→eq v value e) in
          let found : get value (insert v counted.0 by_value) ≡ some counted.0 =
            subst (λ x. get x (insert v counted.0 by_value) ≡ some counted.0) (sym same)
              (get-insert v counted.0 by_value) in
          let up : count_at (count_second s seconds).0 second
              ≡ (if s == second then count_at seconds s + 1 else count_at seconds second) =
            count_at-count_second s second seconds (or_none-IsSeconds by_value v h).0 room in
          let old : count_at (or_none (get value by_value)) second ≡ count_at seconds second =
            ap (λ x. count_at (or_none (get x by_value)) second) same in
          rw (found, e, old) (rw low (up ∙ ground arith))
      | inr e ↦
          rw (get-insert_ne value v counted.0 by_value (λ p. str_ne v value e (sym p)), e)
            (omega arith)
    ]
