-- ===== src/Storage/HourFile/Ordered.antt =====
-- The index of an hour on the entries of its seconds: what `place_for_new_second`, `insert_at` and the
-- set of the cell make of it in hour_file.rs.
use my_telemetry_server.Base.{
  ℕ, zero, suc, ◌<◌, ◌≡◌, refl, sym, ap, subst, ◌∙◌, arith, ltb, ◌==◌, true, false, none, some,
  List, [], ◌∷◌, length, get_elem?, set, Bool-cases, inl, inr, get_inside, some_eq, length-set,
  get-set_same, get-set_other,
}
use my_telemetry_server.Storage.Frame.{head}
use my_telemetry_server.Storage.Cells.{Cell, is_empty}
use my_telemetry_server.Storage.HourFile.{HourFile}
use my_telemetry_server.Storage.HourFile.View.{
  View, flat, place_of, is_inside, put_at, shifted, shifted_up, shifted_stays,
}
use my_telemetry_server.Storage.HourFile.Puts.{Put, Leads-InFrames}
use my_telemetry_server.Storage.HourFile.Entries.{
  Entries, entries_bytes, has_entry, offset_of, put_in, InTime, HaveBytes, offset_of-le,
  offset_of-lt, offset_of-new, offset_of-put_in, has_entry-put_in, put_in-InTime, put_in-HaveBytes,
  entries_bytes-put_in,
}

-- The chain holds the entries in the order of time, and the cell of each second with entries is at its
-- first one.
pub record Indexed (cells : List Cell) (v : View) (es : Entries) : Type 0 where
  pub bytes_are : flat v ≡ entries_bytes es
  pub in_time : InTime es
  pub have_bytes : HaveBytes es
  pub of_hour : (j : ℕ) → has_entry j es ≡ true → j < length cells
  pub starts :
      (j : ℕ) (c : Cell)
      → get_elem? cells j ≡ some c
      → is_empty c ≡ false
      → (has_entry j es ≡ true) × (place_of v c.frame c.offset ≡ offset_of j es)
  pub missing :
      (j : ℕ) (c : Cell) → get_elem? cells j ≡ some c → is_empty c ≡ true → has_entry j es ≡ false

module _ (h h' : HourFile) (v w : View) (es : Entries) (s : ℕ) (entry : List ℕ) (at : Cell)
    (indexed : Indexed h.cells.cells v es) (some_bytes : 0 < length entry)
    (in_hour : s < length h.cells.cells) (put : Put h v entry (offset_of (suc s) es) at h' w) where
  used_inside : (c : Cell) → is_inside w c.frame c.offset ≡ true → is_empty c ≡ false
  unfolding is_empty
  used_inside c inside =
      ground (arith, Leads-InFrames h' (some head) none w put.represents.leads c inside)

  -- The cell of another second, after the insert and before it.
  cell_before :
      (j : ℕ) (c' : Cell)
      → get_elem? h'.cells.cells j ≡ some c'
      → (c : Cell) × (get_elem? h.cells.cells j ≡ some c)
  cell_before j c' e =
      get_inside h.cells.cells j (omega (arith, below h'.cells.cells j e, put.same_len))
    where
      below : (cs : List Cell) (k : ℕ) → get_elem? cs k ≡ some c' → k < length cs
      below [] k f = absurd (ground (arith, f))
      below (d ∷ cs) zero f = omega arith
      below (d ∷ cs) (suc k) f = omega (arith, below cs k f)

  -- A second has entries after the insert when it had some.
  still_used :
      (j : ℕ) (c c' : Cell)
      → get_elem? h.cells.cells j ≡ some c
      → get_elem? h'.cells.cells j ≡ some c'
      → is_empty c ≡ false
      → is_empty c' ≡ false
  still_used j c c' found e full =
      let (d, found', inside, place_is) = put.used j c found full in
      ap is_empty (some_eq (sym e ∙ found')) ∙ used_inside d inside

  -- The entries before the place stay, and those after it move up.
  moved :
      (j : ℕ)
      → has_entry j es ≡ true
      → shifted (offset_of (suc s) es) (length entry) (offset_of j es)
        ≡ offset_of j (put_in s entry es)
  moved j has = elim (Bool-cases (ltb s j)) [
    | inl a ↦
        shifted_up (offset_of (suc s) es) (length entry) (offset_of j es)
          (offset_of-le (suc s) j es (ground (arith, a)))
        ∙ ground (arith, a, offset_of-put_in j s entry es)
    | inr a ↦
        shifted_stays (offset_of (suc s) es) (length entry) (offset_of j es)
          (offset_of-lt j (suc s) es (ground (arith, a)) indexed.have_bytes has)
        ∙ ground (arith, a, offset_of-put_in j s entry es)
  ]

  starts_after :
      (j : ℕ) (c' : Cell)
      → get_elem? h'.cells.cells j ≡ some c'
      → is_empty c' ≡ false
      → (has_entry j (put_in s entry es) ≡ true)
        × (place_of w c'.frame c'.offset ≡ offset_of j (put_in s entry es))
  starts_after j c' e used_cell =
      let (c, found) = cell_before j c' e in
      elim (Bool-cases (is_empty c)) [
        | inl empty ↦
            absurd
              (cc (ap is_empty (some_eq (sym (put.unused j c found empty) ∙ e)), empty, used_cell))
        | inr full ↦
            let (d, found', inside, place_is) = put.used j c found full in
            let same : d ≡ c' = some_eq (sym found' ∙ e) in
            let (has, start) = indexed.starts j c found full in
            (
              ground (arith, has_entry-put_in j s entry es, has),
              subst (λ (x : Cell). place_of w x.frame x.offset ≡ offset_of j (put_in s entry es))
                  same
                  (place_is
                    ∙ ap (shifted (offset_of (suc s) es) (length entry)) start
                    ∙ moved j has),
            )
      ]

  missing_after :
      (j : ℕ) (c' : Cell)
      → (s == j) ≡ false
      → get_elem? h'.cells.cells j ≡ some c'
      → is_empty c' ≡ true
      → has_entry j (put_in s entry es) ≡ false
  missing_after j c' ne e empty =
      let (c, found) = cell_before j c' e in
      has_entry-put_in j s entry es
      ∙ rw ne (elim (Bool-cases (is_empty c)) [
        | inl k ↦ indexed.missing j c found k
        | inr k ↦ absurd (cc (still_used j c c' found e k, empty))
      ])

  bytes_after : flat w ≡ entries_bytes (put_in s entry es)
  bytes_after =
      put.flat_is
      ∙ ap (put_at (offset_of (suc s) es) entry) indexed.bytes_are
      ∙ sym (entries_bytes-put_in s entry es indexed.in_time)

  of_hour_after : (j : ℕ) → has_entry j (put_in s entry es) ≡ true → j < length h'.cells.cells
  of_hour_after j has = elim (Bool-cases (s == j)) [
    | inl same ↦ ground (arith, same, put.same_len, in_hour)
    | inr ne ↦ omega (
      arith,
      indexed.of_hour j (ground (arith, has_entry-put_in j s entry es, has, ne)),
      put.same_len,
    )
  ]

  -- Once more into a second which has entries: its cell stays.
  pub put-Indexed_more : has_entry s es ≡ true → Indexed h'.cells.cells w (put_in s entry es)
  put-Indexed_more known = record {
    bytes_are = bytes_after;
    in_time = put_in-InTime s entry es indexed.in_time;
    have_bytes = put_in-HaveBytes s entry es some_bytes indexed.have_bytes;
    of_hour = of_hour_after;
    starts = starts_after;
    missing = λ j c found empty. elim (Bool-cases (s == j)) [
      | inl same ↦
          let at_j : s ≡ j = ground (arith, same) in
          let (d, before) = cell_before j c found in
          elim (Bool-cases (is_empty d)) [
            | inl k ↦
                absurd (cc (indexed.missing j d before k, known, ap (λ x. has_entry x es) at_j))
            | inr k ↦ absurd (cc (still_used j d c before found k, empty))
          ]
      | inr ne ↦ missing_after j c ne found empty
    ];
  }

  set_second :
      (j : ℕ) (c : Cell)
      → (s == j) ≡ true
      → get_elem? (set h'.cells.cells s at) j ≡ some c
      → (s ≡ j) × (c ≡ at)
  set_second j c same found =
      let at_j : s ≡ j = ground (arith, same) in
      (
        at_j,
        some_eq (
            sym found
            ∙ ap (get_elem? (set h'.cells.cells s at)) (sym at_j)
            ∙ get-set_same h'.cells.cells s at (omega (arith, put.same_len, in_hour))),
      )

  -- Into a second with no entries: its cell is set.
  pub put-Indexed : has_entry s es ≡ false → Indexed (set h'.cells.cells s at) w (put_in s entry es)
  put-Indexed new_second = record {
    bytes_are = bytes_after;
    in_time = put_in-InTime s entry es indexed.in_time;
    have_bytes = put_in-HaveBytes s entry es some_bytes indexed.have_bytes;
    of_hour = λ j has. omega (arith, of_hour_after j has, length-set h'.cells.cells s at);
    starts = λ j c found full. elim (Bool-cases (s == j)) [
      | inl same ↦
          let (at_j, is) = set_second j c same found in
          (
            has_entry-put_in j s entry es ∙ rw same refl,
            subst (λ k. place_of w c.frame c.offset ≡ offset_of k (put_in s entry es)) at_j
                (subst (λ (x : Cell). place_of w x.frame x.offset ≡ offset_of s (put_in s entry es))
                  (sym is) (put.entry_at.place_is ∙ at_second)),
          )
      | inr ne ↦ starts_after j c (sym (get-set_other h'.cells.cells s j at ne) ∙ found) full
    ];
    missing = λ j c found empty. elim (Bool-cases (s == j)) [
      | inl same ↦ absurd (
          cc (ap is_empty (set_second j c same found).1, empty, used_inside at put.entry_at.inside))
      | inr ne ↦ missing_after j c ne (sym (get-set_other h'.cells.cells s j at ne) ∙ found) empty
    ];
  }
    where
      at_second : offset_of (suc s) es ≡ offset_of s (put_in s entry es)
      at_second =
          sym (offset_of-new s es new_second) ∙ ground (arith, offset_of-put_in s s entry es)
