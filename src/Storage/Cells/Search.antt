-- ===== src/Storage/Cells/Search.antt =====
-- The first and the last second of an hour which has entries.
use my_telemetry_server.Base.{
  ℕ, zero, suc, ◌+◌, ◌-◌, ◌≤◌, ◌<◌, ◌≡◌, sym, ap, ◌∙◌, arith, true, false, none, some, List, [],
  ◌∷◌, drop, get_elem?, get_elem?-drop, Bool-cases, leb, leb→le, leb_false→lt, inl, inr,
  Option-cases,
}
use my_telemetry_server.Storage.Cells.{
  Cell, HourCells, is_empty, get, find_first, first_from, or_this, find_last, last,
}

-- Every second of the range `from .. to` has no entry.
abbrev pub NoneIn : List Cell → ℕ → ℕ → Type 0
NoneIn cs from to =
    (j : ℕ) (d : Cell) → from ≤ j → j < to → get_elem? cs j ≡ some d → is_empty d ≡ true

-- The cell at `k` is the first one of the list which is not empty.
record IsFirst (cs : List Cell) (k : ℕ) (c : Cell) : Type 0 where
  here : get_elem? cs k ≡ some c
  has_entry : is_empty c ≡ false
  before : NoneIn cs 0 k

IsFirst-cons :
    {cs : List Cell} {k : ℕ} {c : Cell} (x : Cell)
    → is_empty x ≡ true
    → IsFirst cs k c
    → IsFirst (x ∷ cs) (suc k) c
IsFirst-cons {cs} {k} x e f = record { here = f.here; has_entry = f.has_entry; before = before }
  where
    before : NoneIn (x ∷ cs) 0 (suc k)
    before zero d lo hi h = ground arith
    before (suc j) d lo hi h = f.before j d (omega arith) (omega arith) h

find_first-some :
    (s : ℕ) (cs : List Cell) (i : ℕ) (c : Cell)
    → find_first s cs ≡ some (i, c)
    → (k : ℕ) × (i ≡ s + k) × IsFirst cs k c
unfolding find_first
find_first-some s [] i c h = absurd (cc)
find_first-some s (x ∷ cs) i c h = elim (Bool-cases (is_empty x)) [
  | inl e ↦
      let (k, at, first) = find_first-some (suc s) cs i c (ground arith) in
      (suc k, omega arith, IsFirst-cons x e first)
  | inr e ↦ (
    0,
    ground arith,
    record {
      here = ground arith;
      has_entry = ground arith;
      before = λ j d lo hi. absurd (omega arith);
    },
  )
]

find_first-none :
    (s : ℕ) (cs : List Cell)
    → find_first s cs ≡ none
    → (j : ℕ) (d : Cell) → get_elem? cs j ≡ some d
    → is_empty d ≡ true
unfolding find_first
find_first-none s [] h j d e = absurd (cc)
find_first-none s (x ∷ cs) h zero d e = ground arith
find_first-none s (x ∷ cs) h (suc j) d e = find_first-none (suc s) cs (ground arith) j d e

-- `first_from` finds a second which has entries, at `second` or after it, and no second between
-- the two has any.
pub first_from-some :
    (h : HourCells) (second i : ℕ) (c : Cell)
    → first_from h second ≡ some (i, c)
    → (second ≤ i) × (get h i ≡ some c) × (is_empty c ≡ false) × NoneIn h.cells second i
unfolding first_from get
first_from-some h second i c e =
    let (k, at, first) = find_first-some second (drop second h.cells) i c e in
    (
      omega arith,
      ap (get_elem? h.cells) at ∙ sym (get_elem?-drop second k h.cells) ∙ first.here,
      first.has_entry,
      λ j d lo hi g.
          first.before (j - second) d (omega arith) (omega arith)
            (get_elem?-drop second (j - second) h.cells ∙ ap (get_elem? h.cells) (omega arith) ∙ g),
    )

-- When it finds none, no second from `second` on has entries.
pub first_from-none :
    (h : HourCells) (second : ℕ)
    → first_from h second ≡ none
    → (j : ℕ) (d : Cell) → second ≤ j
    → get h j ≡ some d
    → is_empty d ≡ true
unfolding first_from get
first_from-none h second e j d lo g =
    find_first-none second (drop second h.cells) e (j - second) d
      (get_elem?-drop second (j - second) h.cells ∙ ap (get_elem? h.cells) (omega arith) ∙ g)

find_last-none :
    (s : ℕ) (cs : List Cell)
    → find_last s cs ≡ none
    → (j : ℕ) (d : Cell) → get_elem? cs j ≡ some d
    → is_empty d ≡ true
unfolding find_last or_this
find_last-none s [] h j d e = absurd (cc)
find_last-none s (x ∷ cs) h zero d e = ground arith
find_last-none s (x ∷ cs) h (suc j) d e = find_last-none (suc s) cs (ground arith) j d e

-- What `find_last` says of the cells, the first of which is the one of `s`.
find_last-some :
    (s : ℕ) (cs : List Cell) (i : ℕ) (c : Cell)
    → find_last s cs ≡ some (i, c)
    → (k : ℕ) × (i ≡ s + k)
      × (get_elem? cs k ≡ some c)
      × (is_empty c ≡ false)
      × ((j : ℕ) (d : Cell) → k < j → get_elem? cs j ≡ some d → is_empty d ≡ true)
unfolding find_last or_this
find_last-some s [] i c h = absurd (cc)
find_last-some s (x ∷ cs) i c h = elim (Option-cases (find_last (suc s) cs)) [
  | inl e ↦ (
    0,
    ground arith,
    ground arith,
    ground arith,
    λ j d. elim j as (λ j. 0 < j → get_elem? (x ∷ cs) j ≡ some d → is_empty d ≡ true) [
      | zero ↦ λ lt. absurd (omega arith)
      | suc j ↦ λ lt g. find_last-none (suc s) cs e j d g
    ],
  )
  | inr ((i', c'), e) ↦
      let found : find_last (suc s) cs ≡ some (i, c) = ground arith in
      let (k, at, here, has, after) = find_last-some (suc s) cs i c found in
      (
        suc k,
        omega arith,
        here,
        has,
        λ j d. elim j as (λ j. suc k < j → get_elem? (x ∷ cs) j ≡ some d → is_empty d ≡ true) [
          | zero ↦ λ lt. absurd (omega arith)
          | suc j ↦ λ lt g. after j d (omega arith) g
        ],
      )
]

-- `last` finds a second which has entries, and no later second has any.
pub last-some :
    (h : HourCells) (i : ℕ) (c : Cell)
    → last h ≡ some (i, c)
    → (get h i ≡ some c)
      × (is_empty c ≡ false)
      × ((j : ℕ) (d : Cell) → i < j → get h j ≡ some d → is_empty d ≡ true)
unfolding last get
last-some h i c e =
    let (k, at, here, has, after) = find_last-some 0 h.cells i c e in
    let same : i ≡ k = omega arith in
    (ap (get_elem? h.cells) same ∙ here, has, λ j d lt g. after j d (omega arith) g)

-- When it finds none, no second has entries.
pub last-none :
    (h : HourCells) → last h ≡ none → (j : ℕ) (d : Cell) → get h j ≡ some d → is_empty d ≡ true
unfolding last get
last-none h e j d g = find_last-none 0 h.cells e j d g

-- When a second from `second` on has entries, `first_from` finds one which has, at `second` or
-- after it and not after that one.
pub first_from-finds :
    (h : HourCells) (second j : ℕ) (d : Cell)
    → second ≤ j
    → get h j ≡ some d
    → is_empty d ≡ false
    → (i : ℕ) × (c : Cell) × (first_from h second ≡ some (i, c))
      × (second ≤ i)
      × (i ≤ j)
      × (get h i ≡ some c)
      × (is_empty c ≡ false)
unfolding get
first_from-finds h second j d lo g has = elim (Option-cases (first_from h second)) [
  | inl e ↦ absurd (cc (first_from-none h second e j d lo g))
  | inr ((i, c), e) ↦
      let (le, here, has_entry, before) = first_from-some h second i c e in
      elim (Bool-cases (leb i j)) [
        | inl b ↦ (i, c, e, le, leb→le i j b, here, has_entry)
        | inr b ↦ absurd (cc (before j d lo (leb_false→lt i j b) g))
      ]
]

-- When a second has entries, `last` finds one which has, at it or after it.
pub last-finds :
    (h : HourCells) (j : ℕ) (d : Cell)
    → get h j ≡ some d
    → is_empty d ≡ false
    → (i : ℕ) × (c : Cell) × (last h ≡ some (i, c))
      × (j ≤ i)
      × (get h i ≡ some c)
      × (is_empty c ≡ false)
last-finds h j d g has = elim (Option-cases (last h)) [
  | inl e ↦ absurd (cc (last-none h e j d g))
  | inr ((i, c), e) ↦
      let (here, has_entry, after) = last-some h i c e in
      elim (Bool-cases (leb j i)) [
        | inl b ↦ (i, c, e, leb→le j i b, here, has_entry)
        | inr b ↦ absurd (cc (after j d (leb_false→lt j i b) g))
      ]
]
