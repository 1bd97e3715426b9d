-- ===== src/Storage/Block/Shrink.antt =====
-- `shrink` of metric_block.rs: each round makes the record smaller, and keeps its times, its process
-- and the keys of the tags a search filters on.
use my_telemetry_server.Base.{
  ℕ, ◌+◌, ◌/◌, ◌≤◌, ◌<◌, ◌≡◌, refl, ap, arith, ltb, leb, ◌==◌, Option, none, some, List, [], ◌∷◌,
  length, take, max, Bool-cases, inl, inr,
}
use my_telemetry_server.Base.Str.{Str}
use my_telemetry_server.Storage.Rec.{Rec, Tag}
use my_telemetry_server.Storage.Block.{
  min_len_to_cut, text_len, longest_tag, longest_len, droppable, Shrunk, panicked, nothing_left,
  cut, cut_fail, cut_success, with_tags, cut_longest, cut_text, cut_name, shrink, size,
}
use my_telemetry_server.Storage.Block.Tags.{
  length-cut_in_half, kept_keys, longest_tag-finds, cut_tags-cuts, drop_tags-drops,
}

-- What a round of the cutting makes of a record: a smaller one, with its times, its process and the
-- keys of the tags a search filters on; or there is nothing left to cut.
abbrev pub Shrinks : Rec → Shrunk → Type 0
Shrinks r panicked = ⊥
Shrinks r nothing_left =
    (length r.event_data < min_len_to_cut)
    × (length r.service_name < min_len_to_cut)
    × (droppable r.tags ≡ 0)
Shrinks r (cut r') =
    (size r' < size r)
    × (r'.process_id ≡ r.process_id)
    × (r'.started_at ≡ r.started_at)
    × (r'.finished_at ≡ r.finished_at)
    × (kept_keys r'.tags ≡ kept_keys r.tags)

cut_fail-Shrinks :
    (r : Rec) (o : Option Str) → r.fail ≡ o → min_len_to_cut ≤ text_len o → Shrinks r (cut_fail r o)
unfolding cut_fail size text_len
cut_fail-Shrinks r none e long = absurd (omega (arith, long))
cut_fail-Shrinks r (some v) e long =
    (omega (arith, length-cut_in_half v long, ap text_len e), refl, refl, refl, refl)

cut_success-Shrinks :
    (r : Rec) (o : Option Str)
    → r.success ≡ o
    → min_len_to_cut ≤ text_len o
    → Shrinks r (cut_success r o)
unfolding cut_success size text_len
cut_success-Shrinks r none e long = absurd (omega (arith, long))
cut_success-Shrinks r (some v) e long =
    (omega (arith, length-cut_in_half v long, ap text_len e), refl, refl, refl, refl)

cut_longest-Shrinks :
    (r : Rec) (o : Option (ℕ × ℕ))
    → longest_tag 0 r.tags ≡ o
    → min_len_to_cut ≤ longest_len o
    → Shrinks r (cut_longest r o)
unfolding cut_longest with_tags size longest_len
cut_longest-Shrinks r none e long = absurd (omega (arith, long))
cut_longest-Shrinks r (some (k, len)) e long =
    let (j, t, at, found, is) = longest_tag-finds 0 r.tags k len e in
    let (tags', eq, less, same_len, keys) =
      cut_tags-cuts j r.tags t found (omega (arith, is, long)) in
    let at_j : k ≡ j = omega (arith, at) in
    rw (at_j, eq) (omega (arith, less, same_len), refl, refl, refl, keys)

cut_text-Shrinks :
    (r : Rec)
    → min_len_to_cut
      ≤ max (max (text_len r.fail) (text_len r.success)) (longest_len (longest_tag 0 r.tags))
    → Shrinks r (cut_text r)
unfolding cut_text
cut_text-Shrinks r long =
    let longest : ℕ =
      max (max (text_len r.fail) (text_len r.success)) (longest_len (longest_tag 0 r.tags)) in
    elim (Bool-cases (text_len r.fail == longest)) [
      | inl e ↦ rw e (cut_fail-Shrinks r r.fail refl (ground (arith, e, long)))
      | inr e ↦ elim (Bool-cases (text_len r.success == longest)) [
        | inl k ↦ rw (e, k) (cut_success-Shrinks r r.success refl (ground (arith, k, long)))
        | inr k ↦
            rw (e, k)
              (cut_longest-Shrinks r (longest_tag 0 r.tags) refl (ground (arith, e, k, long)))
      ]
    ]

cut_name-Shrinks :
    (r : Rec)
    → min_len_to_cut ≤ max (length r.event_data) (length r.service_name)
    → Shrinks r (cut_name r)
unfolding cut_name size
cut_name-Shrinks r long =
    elim (Bool-cases (length r.event_data == max (length r.event_data) (length r.service_name))) [
      | inl e ↦ rw e (
        omega (arith, length-cut_in_half r.event_data (ground (arith, e, long))),
        refl,
        refl,
        refl,
        refl,
      )
      | inr e ↦ rw e (
        omega (arith, length-cut_in_half r.service_name (ground (arith, e, long))),
        refl,
        refl,
        refl,
        refl,
      )
    ]

-- A round of the cutting does not panic: it makes the record smaller and keeps its process, its times
-- and, in their order, the keys of the tags a search filters on, of which a value may be cut; or it
-- leaves the record, whose names are shorter than what is cut and which has no other tag to drop.
pub shrink-Shrinks : (r : Rec) → Shrinks r (shrink r)
unfolding shrink with_tags size
shrink-Shrinks r =
    let longest : ℕ =
      max (max (text_len r.fail) (text_len r.success)) (longest_len (longest_tag 0 r.tags)) in
    let names : ℕ = max (length r.event_data) (length r.service_name) in
    elim (Bool-cases (leb min_len_to_cut longest)) [
      | inl e ↦ rw e (cut_text-Shrinks r (ground (arith, e)))
      | inr e ↦ elim (Bool-cases (leb min_len_to_cut names)) [
        | inl k ↦ rw (e, k) (cut_name-Shrinks r (ground (arith, k)))
        | inr k ↦ elim (Bool-cases (ltb 0 (droppable r.tags))) [
          | inl j ↦
              let (tags', eq, d) =
                drop_tags-drops (length r.tags) ((droppable r.tags + 1) / 2) r.tags (omega arith)
                  (rw (take_all r.tags) (ground (arith, j))) in
              rw (e, k, j, eq) (ground (arith, j, d.len, d.values), refl, refl, refl, d.keys)
          | inr j ↦ rw (e, k, j) (ground (arith, k), ground (arith, k), ground (arith, j))
        ]
      ]
    ]
  where
    take_all : (ts : List Tag) → take (length ts) ts ≡ ts
    take_all [] = refl
    take_all (t ∷ ts) = ap (λ l. t ∷ l) (take_all ts)
