-- ===== src/Storage/Block/Tags.antt =====
-- The parts of a record which `shrink` of metric_block.rs cuts: a text in half, the longest tag, and the
-- tags it drops.
use my_telemetry_server.Base.{
  ℕ, zero, suc, ◌+◌, ◌-◌, ◌/◌, ◌≤◌, ◌<◌, ◌≡◌, refl, sym, ap, ◌∙◌, arith, leb, ◌==◌, if◌then◌else◌,
  true, false, Option, some, List, [], ◌∷◌, ◌++◌, length, take, drop, get_elem?, Bool-cases,
  Option-cases, inl, inr, length-append, length-take, length-drop, take-append, get_inside, some_eq,
}
use my_telemetry_server.Base.Str.{Str}
use my_telemetry_server.Storage.Rec.{Tag}
use my_telemetry_server.Storage.Block.{
  truncated_mark, min_len_to_cut, char_boundary, unmarked_len, cut_in_half, nearer_end, longest_tag,
  is_kept, droppable, drop_before, drop_tags, after_tag, cut_tags, values_len,
}

char_boundary-le : (value : Str) (at : ℕ) → char_boundary value at ≤ at
unfolding char_boundary
char_boundary-le value zero = omega arith
char_boundary-le value (suc at) = ground (arith, char_boundary-le value at)

unmarked_len-le : (value : Str) → unmarked_len value ≤ length value
unfolding unmarked_len
unmarked_len-le value = ground arith

-- A text which is long enough gets shorter.
pub length-cut_in_half :
    (value : Str) → min_len_to_cut ≤ length value → length (cut_in_half value) < length value
unfolding cut_in_half
length-cut_in_half value long =
    let at : ℕ = char_boundary value (unmarked_len value / 2) in
    omega (
      arith,
      length-append (take at value) truncated_mark,
      length-take at value,
      char_boundary-le value (unmarked_len value / 2),
      unmarked_len-le value,
    )

-- The tags a search filters on, by their keys.
abbrev pub kept_keys : List Tag → List Str
kept_keys [] = []
kept_keys (t ∷ ts) = if is_kept t then t.key ∷ kept_keys ts else kept_keys ts

some_pair : (p q : ℕ × ℕ) → some p ≡ some q → (p.0 ≡ q.0) × (p.1 ≡ q.1)
some_pair p q h =
    let same : p ≡ q = (cc (h)) in (ap (λ (x : ℕ × ℕ). x.0) same, ap (λ (x : ℕ × ℕ). x.1) same)

pub longest_tag-finds :
    (index : ℕ) (ts : List Tag) (k len : ℕ)
    → longest_tag index ts ≡ some (k, len)
    → (j : ℕ) × (t : Tag) × (k ≡ index + j) × (get_elem? ts j ≡ some t) × (length t.value ≡ len)
unfolding longest_tag nearer_end
longest_tag-finds index [] k len e = absurd (ground (arith, e))
longest_tag-finds index (t ∷ ts) k len e = elim (Option-cases (longest_tag (suc index) ts)) [
  | inl none_later ↦ here (rw none_later at e)
  | inr ((later, l), eq) ↦ elim (Bool-cases (leb (length t.value) l)) [
    | inl le ↦
        let (j, u, at, found, is) = longest_tag-finds (suc index) ts later l eq in
        let both : (later ≡ k) × (l ≡ len) = some_pair (later, l) (k, len) (rw (eq, le) at e) in
        let (a, b) = both in (suc j, u, omega (arith, at, a), found, is ∙ b)
    | inr lt ↦ here (rw (eq, lt) at e)
  ]
]
  where
    here :
        ◌≡◌ {A = Option (ℕ × ℕ)} (some (index, length t.value)) (some (k, len))
        → (j : ℕ) × (u : Tag) × (k ≡ index + j)
          × (get_elem? (t ∷ ts) j ≡ some u)
          × (length u.value ≡ len)
    here h =
        let (a, b) = some_pair (index, length t.value) (k, len) h in
        (0, t, omega (arith, a), refl, b)

pub cut_tags-cuts :
    (j : ℕ) (ts : List Tag) (t : Tag)
    → get_elem? ts j ≡ some t
    → min_len_to_cut ≤ length t.value
    → (ts' : List Tag) × (cut_tags j ts ≡ some ts')
      × (values_len ts' < values_len ts)
      × (length ts' ≡ length ts)
      × (kept_keys ts' ≡ kept_keys ts)
unfolding cut_tags after_tag values_len is_kept
cut_tags-cuts j [] t e long = absurd (ground (arith, e))
cut_tags-cuts zero (u ∷ ts) t e long =
    let same : u ≡ t = some_eq e in
    (
      record u { value = cut_in_half u.value } ∷ ts,
      refl,
      omega (arith, length-cut_in_half u.value (rw same long)),
      refl,
      refl,
    )
cut_tags-cuts (suc j) (u ∷ ts) t e long =
    let (ts', eq, less, len, keys) = cut_tags-cuts j ts t e long in
    (
      u ∷ ts',
      rw eq refl,
      omega (arith, less),
      ap suc len,
      ap (λ ks. if is_kept u then u.key ∷ ks else ks) keys,
    )

length-drop_tags_step :
    (index : ℕ) (tags : List Tag)
    → index < length tags
    → length (take index tags ++ drop (suc index) tags) + 1 ≡ length tags
length-drop_tags_step index tags lt = omega (
  arith,
  length-append (take index tags) (drop (suc index) tags),
  length-take index tags,
  length-drop (suc index) tags,
)

droppable-append : (ts us : List Tag) → droppable (ts ++ us) ≡ droppable ts + droppable us
unfolding droppable
droppable-append [] us = omega arith
droppable-append (t ∷ ts) us = omega (arith, droppable-append ts us)

values_len-append : (ts us : List Tag) → values_len (ts ++ us) ≡ values_len ts + values_len us
unfolding values_len
values_len-append [] us = omega arith
values_len-append (t ∷ ts) us = omega (arith, values_len-append ts us)

kept_keys-append : (ts us : List Tag) → kept_keys (ts ++ us) ≡ kept_keys ts ++ kept_keys us
kept_keys-append [] us = refl
kept_keys-append (t ∷ ts) us = elim (Bool-cases (is_kept t)) [
  | inl e ↦ rw e (ap (λ ks. t.key ∷ ks) (kept_keys-append ts us))
  | inr e ↦ rw e (kept_keys-append ts us)
]

-- A list apart at one of its elements.
apart_at :
    (index : ℕ) (tags : List Tag) (t : Tag)
    → get_elem? tags index ≡ some t
    → tags ≡ take index tags ++ (t ∷ drop (suc index) tags)
apart_at index [] t e = absurd (ground (arith, e))
apart_at zero (u ∷ ts) t e = ap (λ x. x ∷ ts) (cc (e))
apart_at (suc index) (u ∷ ts) t e = ap (λ x. u ∷ x) (apart_at index ts t e)

pub record Dropped (n : ℕ) (tags tags' : List Tag) : Type 0 where
  pub len : length tags' + n ≡ length tags
  pub values : values_len tags' ≤ values_len tags
  pub keys : kept_keys tags' ≡ kept_keys tags

none-Dropped : (n : ℕ) (tags : List Tag) → n ≡ 0 → Dropped n tags tags
none-Dropped n tags e = record { len = omega (arith, e); values = omega arith; keys = refl }

counts_none : (t : Tag) → is_kept t ≡ true → droppable (t ∷ []) ≡ 0
unfolding droppable
counts_none t k = rw k refl

counts_one : (t : Tag) → is_kept t ≡ false → droppable (t ∷ []) ≡ 1
unfolding droppable
counts_one t k = rw k refl

take-suc :
    (i : ℕ) (tags : List Tag) (t : Tag)
    → get_elem? tags i ≡ some t
    → take (suc i) tags ≡ take i tags ++ (t ∷ [])
take-suc i [] t e = absurd (ground (arith, e))
take-suc zero (u ∷ ts) t e = ap (λ x. x ∷ []) (cc (e))
take-suc (suc i) (u ∷ ts) t e = ap (λ x. u ∷ x) (take-suc i ts t e)

droppable_front :
    (i : ℕ) (tags : List Tag) (t : Tag)
    → get_elem? tags i ≡ some t
    → suc i ≤ length tags
    → droppable (take (suc i) tags) ≡ droppable (take i tags) + droppable (t ∷ [])
droppable_front i tags t e inside =
    ap droppable (take-suc i tags t e) ∙ droppable-append (take i tags) (t ∷ [])

front_again :
    (i : ℕ) (tags : List Tag)
    → i < length tags
    → take i (take i tags ++ drop (suc i) tags) ≡ take i tags
front_again i tags lt =
    take-append i (take i tags) (drop (suc i) tags) (omega (arith, length-take i tags))

one-Dropped :
    (i n : ℕ) (tags : List Tag) (t : Tag) (tags' : List Tag)
    → get_elem? tags i ≡ some t
    → is_kept t ≡ false
    → i < length tags
    → 0 < n
    → Dropped (n - 1) (take i tags ++ drop (suc i) tags) tags'
    → Dropped n tags tags'
one-Dropped i n tags t tags' at k lt some_left d = record {
  len = omega (arith, d.len, length-drop_tags_step i tags lt);
  values = omega (
    arith,
    d.values,
    values_len-append (take i tags) (drop (suc i) tags),
    ap values_len (apart_at i tags t at),
    values_len-append (take i tags) (t ∷ drop (suc i) tags),
    values_more t (drop (suc i) tags),
  );
  keys =
      d.keys
      ∙ kept_keys-append (take i tags) (drop (suc i) tags)
      ∙ ap (λ ks. kept_keys (take i tags) ++ ks) (sym (passed t (drop (suc i) tags) k))
      ∙ sym (kept_keys-append (take i tags) (t ∷ drop (suc i) tags))
      ∙ ap kept_keys (sym (apart_at i tags t at));
}
  where
    values_more : (t : Tag) (ts : List Tag) → values_len ts ≤ values_len (t ∷ ts)
    values_more t ts = unfold values_len in omega arith

    passed : (t : Tag) (ts : List Tag) → is_kept t ≡ false → kept_keys (t ∷ ts) ≡ kept_keys ts
    passed t ts k = rw k refl

-- Tags are there to be dropped: that many of them go, and none of those which are kept.
pub drop_tags-drops :
    (index n : ℕ) (tags : List Tag)
    → index ≤ length tags
    → n ≤ droppable (take index tags)
    → (tags' : List Tag) × (drop_tags index n tags ≡ some tags') × Dropped n tags tags'
unfolding drop_tags drop_before
drop_tags-drops zero n tags inside enough = elim (Bool-cases (n == 0)) [
  | inl e ↦ (tags, rw e refl, none-Dropped n tags (ground (arith, e)))
  | inr e ↦ absurd (unfold droppable in ground (arith, e, enough))
]
drop_tags-drops (suc i) n tags inside enough =
    let (t, at) = get_inside tags i (omega arith) in
    elim (Bool-cases (n == 0)) [
      | inl e ↦ (tags, rw e refl, none-Dropped n tags (ground (arith, e)))
      | inr e ↦ elim (Bool-cases (is_kept t)) [
        | inl k ↦
            let (tags', eq, d) =
              drop_tags-drops i n tags (omega arith)
                (omega (arith, enough, droppable_front i tags t at inside, counts_none t k)) in
            (tags', rw (e, at, k) eq, d)
        | inr k ↦
            let (tags', eq, d) =
              drop_tags-drops i (n - 1) (take i tags ++ drop (suc i) tags)
                (omega (arith, length-drop_tags_step i tags (omega arith)))
                (rw (front_again i tags (omega arith))
                  (omega (arith, enough, droppable_front i tags t at inside, counts_one t k))) in
            (
              tags',
              rw (e, at, k) eq,
              one-Dropped i n tags t tags' at k (omega arith) (ground (arith, e)) d,
            )
      ]
    ]
