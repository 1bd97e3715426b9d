-- ===== src/Storage/Pending/Searches.antt =====
-- What a search finds in the records which are not written yet, and that `add` puts records where
-- it finds them.
use my_telemetry_server.Base.{
  ℕ, ◌+◌, ◌*◌, ◌/◌, ◌^◌, ◌<◌, ◌≡◌, refl, sym, ap, subst, ◌∙◌, arith, if◌then◌else◌, Bool, true,
  false, ◌||◌, Option, List, [], ◌∷◌, ◌++◌, map, filter, All, All-append, All_map, filter-append,
  filter-none, inl, inr, Bool-cases,
}
use my_telemetry_server.Base.Int.{
  ℤ, pos, negsuc, ◌+ℤ◌, ◌*ℕ◌, ltb_ℤ, leb_ℤ, wrap, wrap_lem, div_euclid, ◌≤ℤ◌, ◌<ℤ◌,
}
use my_telemetry_server.Base.Str.{Str}
use my_telemetry_server.Base.Keys.{by_scope}
use my_telemetry_server.Storage.Rec.{Rec, time_of}
use my_telemetry_server.Storage.Retention.{micros_per_second}
use my_telemetry_server.Storage.Pending.{
  PendingBucket, ReadyBucket, Arc, PendingMetrics, seconds, other_scope, is_skipped, is_found,
  search_in, search,
}
use my_telemetry_server.Storage.Pending.Valid.{IsValid, IsWaiting, IsTaken, IsOf, IsKept}

abbrev AllOf : (Str × ℤ) × List Rec → Type 0
AllOf s = All (IsOf s.0.1) s.1

-- The records of the seconds of the scope, or of all.
unfoldable pub records_of : Option Str → List ((Str × ℤ) × List Rec) → List Rec
records_of scope [] = []
records_of scope (s ∷ rest) =
    if other_scope scope s.0.0 then records_of scope rest else s.1 ++ records_of scope rest

start_is :
    (q : ℕ)
    → q * micros_per_second < 2 ^ 63
    → wrap (pos q *ℕ micros_per_second) ≡ pos (q * micros_per_second)
start_is q h = ap wrap same ∙ wrap_lem (pos (q * micros_per_second)) h
  where
    same : pos q *ℕ micros_per_second ≡ pos (q * micros_per_second)
    same = unfold ◌*ℕ◌ in ground arith

end_is : (a n : ℕ) → a + n < 2 ^ 63 → wrap (pos a +ℤ pos n) ≡ pos (a + n)
end_is a n h = ap wrap same ∙ wrap_lem (pos (a + n)) h
  where
    same : pos a +ℤ pos n ≡ pos (a + n)
    same = unfold ◌+ℤ◌ in ground arith

-- A second of kept times starts and ends with no wrap.
second_bounds :
    (t second : ℤ)
    → div_euclid t micros_per_second ≡ second
    → IsKept t
    → (wrap (second *ℕ micros_per_second) ≤ℤ t)
      × (t <ℤ wrap (wrap (second *ℕ micros_per_second) +ℤ pos micros_per_second))
unfolding div_euclid
second_bounds (negsuc n) second e k = absurd (omega (arith, k))
second_bounds (pos n) second e k =
    subst
      (λ s.
        (wrap (s *ℕ micros_per_second) ≤ℤ pos n)
        × (pos n <ℤ wrap (wrap (s *ℕ micros_per_second) +ℤ pos micros_per_second)))
      e
      (rw (start_is (n / micros_per_second) (omega (arith, k))) (
        rw (end_is (n / micros_per_second * micros_per_second) micros_per_second (omega (arith, k)))
          (omega arith, omega arith)))

-- No record of a second which is left out is in the range.
skipped_none :
    (from to second : ℤ) (matches : Rec → Bool) (r : Rec)
    → IsOf second r
    → (ltb_ℤ to (wrap (second *ℕ micros_per_second))
        || leb_ℤ (wrap (wrap (second *ℕ micros_per_second) +ℤ pos micros_per_second)) from)
      ≡ true
    → is_found from to matches r ≡ false
unfolding is_found
skipped_none from to second matches r h e = ground (arith, second_bounds (time_of r) second h.0 h.1)

search_in_all :
    (scope : Option Str) (from to : ℤ) (matches : Rec → Bool) (ss : List ((Str × ℤ) × List Rec))
    → All AllOf ss
    → search_in scope from to matches ss ≡ filter (is_found from to matches) (records_of scope ss)
unfolding search_in records_of is_skipped
search_in_all scope from to matches [] h = refl
search_in_all scope from to matches (s ∷ rest) h =
    let ih = search_in_all scope from to matches rest h.1 in
    let out : Bool =
      ltb_ℤ to (wrap (s.0.1 *ℕ micros_per_second))
      || leb_ℤ (wrap (wrap (s.0.1 *ℕ micros_per_second) +ℤ pos micros_per_second)) from in
    elim (Bool-cases (other_scope scope s.0.0)) [
      | inl e ↦ rw e ih
      | inr e ↦ elim (Bool-cases out) [
        | inl o ↦
            rw (e, o)
              (ih
                ∙ sym (
                    ap (λ w. w ++ filter (is_found from to matches) (records_of scope rest))
                      (filter-none (is_found from to matches) s.1 (
                        All_map (IsOf s.0.1) (λ r. is_found from to matches r ≡ false) s.1
                          (λ r k. skipped_none from to s.0.1 matches r k o) h.0)))
                ∙ sym (filter-append (is_found from to matches) s.1 (records_of scope rest)))
        | inr o ↦
            rw (e, o)
              (ap (λ w. filter (is_found from to matches) s.1 ++ w) ih
                ∙ sym (filter-append (is_found from to matches) s.1 (records_of scope rest)))
      ]
    ]

waiting_seconds :
    (m : List ((Str × ℤ) × PendingBucket))
    → All IsWaiting m
    → All AllOf (map (λ e. (e.0, e.1.records)) m)
waiting_seconds [] h = record {}
waiting_seconds (e ∷ m) h = (h.0, waiting_seconds m h.1)

taken_seconds :
    (bs : List (Arc ReadyBucket))
    → All IsTaken bs
    → All AllOf (map (λ b. ((b.value.scope, b.value.second), b.value.records)) bs)
taken_seconds [] h = record {}
taken_seconds (b ∷ bs) h = (h.0, taken_seconds bs h.1)

-- A search finds exactly the records which wait or are being written, are of the scope, start in
-- the range, and match: the seconds it leaves out have none.
pub search_all :
    (p : PendingMetrics) (scope : Option Str) (from to : ℤ) (matches : Rec → Bool)
    → IsValid p
    → search p scope from to matches
      ≡ filter (is_found from to matches) (records_of scope (seconds p))
unfolding search seconds
search_all p scope from to matches v = search_in_all scope from to matches (seconds p) (
    All-append AllOf (map (λ e. (e.0, e.1.records)) p.buckets) _
      (waiting_seconds p.buckets v.waiting) (taken_seconds p.being_written v.taken))
