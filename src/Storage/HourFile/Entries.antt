-- ===== src/Storage/HourFile/Entries.antt =====
-- The entries of an hour by their seconds, in the order of time: what the chain of frames holds, and
-- where an entry of a new second goes.
use my_telemetry_server.Base.{
  ℕ, suc, ◌+◌, ◌≤◌, ◌<◌, ◌≡◌, refl, ap, ◌∙◌, arith, leb, ltb, ◌==◌, if◌then◌else◌, Bool, true,
  false, List, [], ◌∷◌, ◌++◌, length, Bool-cases, inl, inr, length-append,
}
use my_telemetry_server.Storage.HourFile.View.{put_at, put_at-append_right}

-- (second, bytes of the entry)
abbrev pub Entries : Type 0
Entries = List (ℕ × List ℕ)

abbrev pub entries_bytes : Entries → List ℕ
entries_bytes [] = []
entries_bytes ((t, e) ∷ es) = e ++ entries_bytes es

unfoldable pub has_entry : ℕ → Entries → Bool
has_entry s [] = false
has_entry s ((t, e) ∷ es) = if t == s then true else has_entry s es

-- How many bytes the entries before the second have.
unfoldable pub offset_of : ℕ → Entries → ℕ
offset_of s [] = 0
offset_of s ((t, e) ∷ es) = (if ltb t s then length e else 0) + offset_of s es

-- The entries with one of a second put in, after those of it and before those of later seconds.
unfoldable pub put_in : ℕ → List ℕ → Entries → Entries
put_in s entry [] = (s, entry) ∷ []
put_in s entry ((t, e) ∷ es) =
    if leb t s then (t, e) ∷ put_in s entry es else (s, entry) ∷ (t, e) ∷ es

abbrev pub InTime : Entries → Type 0
InTime [] = Unit {0}
InTime ((t, e) ∷ es) = ((k : ℕ) → has_entry k es ≡ true → t ≤ k) × InTime es

abbrev pub HaveBytes : Entries → Type 0
HaveBytes [] = Unit {0}
HaveBytes ((t, e) ∷ es) = (0 < length e) × HaveBytes es

has_entry_self : (t : ℕ) (e : List ℕ) (es : Entries) → has_entry t ((t, e) ∷ es) ≡ true
unfolding has_entry
has_entry_self t e es = ground arith

has_entry_more :
    (k t : ℕ) (e : List ℕ) (es : Entries) → has_entry k es ≡ true → has_entry k ((t, e) ∷ es) ≡ true
unfolding has_entry
has_entry_more k t e es h = ground (arith, h)

-- No entry is before the second when all are at it or after it.
offset_of_none :
    (s : ℕ) (es : Entries) → ((k : ℕ) → has_entry k es ≡ true → s ≤ k) → offset_of s es ≡ 0
unfolding offset_of
offset_of_none s [] later = refl
offset_of_none s ((t, e) ∷ es) later = ground (
  arith,
  later t (has_entry_self t e es),
  offset_of_none s es (λ k h. later k (has_entry_more k t e es h)),
)

pub offset_of-le : (j s : ℕ) (es : Entries) → j ≤ s → offset_of j es ≤ offset_of s es
unfolding offset_of
offset_of-le j s [] le = omega arith
offset_of-le j s ((t, e) ∷ es) le = ground (arith, offset_of-le j s es le, le)

-- An entry of an earlier second has its bytes before.
pub offset_of-lt :
    (j s : ℕ) (es : Entries)
    → j < s
    → HaveBytes es
    → has_entry j es ≡ true
    → offset_of j es < offset_of s es
unfolding offset_of has_entry
offset_of-lt j s [] lt b h = absurd (ground (arith, h))
offset_of-lt j s ((t, e) ∷ es) lt (some_bytes, b) h = elim (Bool-cases (t == j)) [
  | inl k ↦ ground (arith, k, lt, some_bytes, offset_of-le j s es (omega (arith, lt)))
  | inr k ↦ ground (arith, lt, offset_of-lt j s es lt b (ground (arith, h, k)))
]

-- Seconds with no entries between them.
pub offset_of-same :
    (s k : ℕ) (es : Entries)
    → s ≤ k
    → ((j : ℕ) → s ≤ j → j < k → has_entry j es ≡ false)
    → offset_of s es ≡ offset_of k es
unfolding offset_of has_entry
offset_of-same s k [] le no_entries = refl
offset_of-same s k ((t, e) ∷ es) le no_entries =
    let more : offset_of s es ≡ offset_of k es =
      offset_of-same s k es le (λ j lo hi. ground (arith, no_entries j lo hi)) in
    elim (Bool-cases (ltb t s)) [
      | inl a ↦ ground (arith, a, le, more)
      | inr a ↦ elim (Bool-cases (ltb t k)) [
        | inl b ↦
            absurd (ground (arith, a, b, no_entries t (ground (arith, a)) (ground (arith, b))))
        | inr b ↦ ground (arith, a, b, more)
      ]
    ]

-- Of a second with no entries none are before the next one.
pub offset_of-new :
    (s : ℕ) (es : Entries) → has_entry s es ≡ false → offset_of s es ≡ offset_of (suc s) es
offset_of-new s es absent =
    offset_of-same s (suc s) es (omega arith)
      (λ j lo hi. ap (λ k. has_entry k es) (omega (arith, lo, hi)) ∙ absent)

pub offset_of-all :
    (s : ℕ) (es : Entries)
    → ((j : ℕ) → s ≤ j → has_entry j es ≡ false)
    → offset_of s es ≡ length (entries_bytes es)
unfolding offset_of has_entry
offset_of-all s [] no_entries = refl
offset_of-all s ((t, e) ∷ es) no_entries =
    let more : offset_of s es ≡ length (entries_bytes es) =
      offset_of-all s es (λ j lo. ground (arith, no_entries j lo)) in
    elim (Bool-cases (ltb t s)) [
      | inl a ↦ ground (arith, a, more, length-append e (entries_bytes es))
      | inr a ↦ absurd (ground (arith, a, no_entries t (ground (arith, a))))
    ]

pub offset_of-put_in :
    (j s : ℕ) (entry : List ℕ) (es : Entries)
    → offset_of j (put_in s entry es) ≡ (if ltb s j then length entry else 0) + offset_of j es
unfolding offset_of put_in
offset_of-put_in j s entry [] = refl
offset_of-put_in j s entry ((t, e) ∷ es) = elim (Bool-cases (leb t s)) [
  | inl a ↦ rw a (omega (arith, offset_of-put_in j s entry es))
  | inr a ↦ rw a refl
]

pub has_entry-put_in :
    (j s : ℕ) (entry : List ℕ) (es : Entries)
    → has_entry j (put_in s entry es) ≡ (if s == j then true else has_entry j es)
unfolding has_entry put_in
has_entry-put_in j s entry [] = refl
has_entry-put_in j s entry ((t, e) ∷ es) = elim (Bool-cases (leb t s)) [
  | inl a ↦ rw a (ground (arith, has_entry-put_in j s entry es))
  | inr a ↦ rw a refl
]

pub put_in-InTime : (s : ℕ) (entry : List ℕ) (es : Entries) → InTime es → InTime (put_in s entry es)
unfolding put_in has_entry
put_in-InTime s entry [] i = ((λ k h. absurd (ground (arith, h))), tt)
put_in-InTime s entry ((t, e) ∷ es) (first, i) = elim (Bool-cases (leb t s)) [
  | inl a ↦ rw a (
    λ k h. elim (Bool-cases (s == k)) [
      | inl b ↦ ground (arith, a, b)
      | inr b ↦ first k (ground (arith, has_entry-put_in k s entry es, h, b))
    ],
    put_in-InTime s entry es i,
  )
  | inr a ↦ rw a (
    λ k h. elim (Bool-cases (t == k)) [
      | inl b ↦ ground (arith, a, b)
      | inr b ↦ let le : t ≤ k = first k (ground (arith, h, b)) in ground (arith, a, le)
    ],
    (first, i),
  )
]

pub put_in-HaveBytes :
    (s : ℕ) (entry : List ℕ) (es : Entries)
    → 0 < length entry
    → HaveBytes es
    → HaveBytes (put_in s entry es)
unfolding put_in
put_in-HaveBytes s entry [] some_bytes b = (some_bytes, tt)
put_in-HaveBytes s entry ((t, e) ∷ es) some_bytes (first, b) = elim (Bool-cases (leb t s)) [
  | inl a ↦ rw a (first, put_in-HaveBytes s entry es some_bytes b)
  | inr a ↦ rw a (some_bytes, (first, b))
]

-- Its bytes go in after those of its second and the earlier ones.
pub entries_bytes-put_in :
    (s : ℕ) (entry : List ℕ) (es : Entries)
    → InTime es
    → entries_bytes (put_in s entry es) ≡ put_at (offset_of (suc s) es) entry (entries_bytes es)
unfolding put_in offset_of
entries_bytes-put_in s entry [] i = unfold put_at in refl
entries_bytes-put_in s entry ((t, e) ∷ es) (first, i) = elim (Bool-cases (leb t s)) [
  | inl a ↦
      let before : ltb t (suc s) ≡ true = ground (arith, a) in
      rw (a, before)
        (ap (λ l. e ++ l) (entries_bytes-put_in s entry es i)
          ∙ put_at-append_right (offset_of (suc s) es) entry e (entries_bytes es))
  | inr a ↦
      let after : ltb t (suc s) ≡ false = ground (arith, a) in
      rw (a, after, offset_of_none (suc s) es (λ k h. ground (arith, a, first k h)))
        (unfold put_at in refl)
]
