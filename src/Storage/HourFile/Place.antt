-- ===== src/Storage/HourFile/Place.antt =====
-- Where hour_file.rs puts the first entry of a second: before the entries of the nearest later one, or
-- at the end of the chain (`place_for_new_second`).
use my_telemetry_server.Base.{
  ℕ, suc, ◌+◌, ◌-◌, ◌≤◌, ◌<◌, ◌≡◌, refl, sym, ap, subst, ◌∙◌, arith, ◌==◌, true, false, Option,
  none, some, List, [], ◌∷◌, ◌++◌, length, get_elem?, Bool-cases, Option-cases, inl, inr,
  length-append, get_inside,
}
use my_telemetry_server.Base.Result.{Result, ok}
use my_telemetry_server.Storage.Frame.{
  Frame, FrameId, same_frame, head, frame_header_len, records_end,
}
use my_telemetry_server.Storage.Frame.Records.{length-records}
use my_telemetry_server.Storage.Cells.{Cell, first_from, get}
use my_telemetry_server.Storage.Cells.Search.{NoneIn, first_from-some, first_from-none}
use my_telemetry_server.Storage.HourFile.{HourFile, HourError, Position, read_frame, position_of}
use my_telemetry_server.Storage.HourFile.View.{
  View, flat, place_of, is_inside, has_frame, same_frame_refl,
}
use my_telemetry_server.Storage.HourFile.Chain.{Leads, Leads-split, Distinct, EntryAt}
use my_telemetry_server.Storage.HourFile.State.{frame_lem}
use my_telemetry_server.Storage.HourFile.Puts.{Represents, last_id}
use my_telemetry_server.Storage.HourFile.PutHere.{absent_before}
use my_telemetry_server.Storage.HourFile.Inserts.{is_place}
use my_telemetry_server.Storage.HourFile.Entries.{
  Entries, has_entry, offset_of, offset_of-same, offset_of-all,
}
use my_telemetry_server.Storage.HourFile.Ordered.{Indexed}
use my_telemetry_server.Storage.HourFile.Seconds.{
  place_for_new_second, before_cell, later_cell, at_tail,
}

pub inside-is_place :
    (v : View) (c : Cell) → is_inside v c.frame c.offset ≡ true → is_place v (position_of c) ≡ true
unfolding is_inside is_place position_of
inside-is_place [] c h = absurd (ground (arith, h))
inside-is_place ((g, r) ∷ v) c h = elim (Bool-cases (same_frame g c.frame)) [
  | inl k ↦ rw k (ground (arith, k, h))
  | inr k ↦ rw k (inside-is_place v c (ground (arith, k, h)))
]

-- After an entry which is whole in its frame.
pub next_place :
    (w : View) (c : Cell) (p n : ℕ)
    → 0 < n
    → EntryAt w c p n
    → (is_place w (record { frame = c.frame; offset = c.offset + n }) ≡ true)
      × (place_of w c.frame (c.offset + n) ≡ p + n)
unfolding is_inside is_place place_of
next_place w c p n some_bytes e =
    let (is, place_is) = after_entry w e.inside e.last_inside in
    (is, omega (arith, place_is, e.place_is))
  where
    after_entry :
        (w : View)
        → is_inside w c.frame c.offset ≡ true
        → is_inside w c.frame (c.offset + n - 1) ≡ true
        → (is_place w (record { frame = c.frame; offset = c.offset + n }) ≡ true)
          × (place_of w c.frame (c.offset + n) ≡ place_of w c.frame c.offset + n)
    after_entry [] i j = absurd (ground (arith, i))
    after_entry ((g, r) ∷ w) i j = elim (Bool-cases (same_frame g c.frame)) [
      | inl k ↦ rw k (ground (arith, k, i, j, some_bytes), ground (arith, k, i, j, some_bytes))
      | inr k ↦
          let (is, place_is) = after_entry w (ground (arith, k, i)) (ground (arith, k, j)) in
          rw k (is, omega (arith, place_is))
    ]

-- The last frame of a chain.
last_frame :
    (read : FrameId → Result HourError Frame) (from : FrameId) (v : View)
    → Leads read (some from) v none
    → (v1 : View) × (g : FrameId) × (r : List ℕ) × (v ≡ v1 ++ ((g, r) ∷ [])) × (last_id v ≡ some g)
last_frame read from [] l = absurd (ground (arith, l))
last_frame read from ((g, r) ∷ []) l = ([], g, r, refl, refl)
last_frame read from ((g, r) ∷ (k, s) ∷ v) (mid, e, f, (mid2, e2, f2, l)) =
    let (v1, id, bytes, is, last) = last_frame read k ((k, s) ∷ v) (mid2, refl, f2, l) in
    ((g, r) ∷ v1, id, bytes, ap (λ w. (g, r) ∷ w) is, last)

end_of : FrameId → List ℕ → Position
end_of g r = record { frame = g; offset = frame_header_len + length r }

end_is_place :
    (v1 : View) (g : FrameId) (r : List ℕ)
    → has_frame v1 g ≡ false
    → (is_place (v1 ++ ((g, r) ∷ [])) (end_of g r) ≡ true)
      × (place_of (v1 ++ ((g, r) ∷ [])) g (frame_header_len + length r)
          ≡ length (flat (v1 ++ ((g, r) ∷ []))))
unfolding is_place place_of has_frame end_of
end_is_place [] g r absent =
    rw (same_frame_refl g) (ground arith, omega (arith, length-append r []))
end_is_place ((k, s) ∷ v1) g r absent =
    let apart : same_frame k g ≡ false = ground (arith, absent) in
    let (is, at) = end_is_place v1 g r (ground (arith, absent)) in
    (rw apart is, rw apart (omega (arith, at, length-append s (flat (v1 ++ ((g, r) ∷ []))))))

-- A place of the chain, for an hour which reads as before.
pub record Placed (h : HourFile) (v : View) (p : ℕ)
    (result : Result HourError (Option Position × HourFile)) : Type 0 where
  pub place : Position
  pub frames : FrameId → Option Frame
  pub returns : result ≡ ok (some place, record h { frames = frames })
  pub kept : (at : FrameId) → read_frame (record h { frames = frames }) at ≡ read_frame h at
  pub is : is_place v place ≡ true
  pub at : place_of v place.frame place.offset ≡ p

at_tail-Placed :
    (h : HourFile) (v : View) → Represents h v → Placed h v (length (flat v)) (at_tail h h.tail)
unfolding at_tail
at_tail-Placed h v repr =
    let (v1, g, r, is, last) = last_frame (read_frame h) head v repr.leads in
    let split =
      Leads-split (read_frame h) (some head) none v1 ((g, r) ∷ [])
        (subst (λ w. Leads (read_frame h) (some head) w none) is repr.leads) in
    let (mid, first, others) = split in
    let (to, e, f, rest) = others in
    let (fs, eq, in_memory, kept, keep) = frame_lem h g f.frame f.reads in
    let (is_end, at_end) =
      end_is_place v1 g r (absent_before v1 [] g r (subst Distinct is repr.distinct)) in
    let ends : records_end f.frame ≡ frame_header_len + length r =
      (unfold records_end in omega (arith, length-records f.valid, ap length f.holds)) in
    record {
      place = end_of g r;
      frames = fs;
      returns = ap (at_tail h) (repr.tail_is ∙ last) ∙ rw (eq, ends) (unfold end_of in refl);
      kept = kept;
      is = ap (λ w. is_place w (end_of g r)) is ∙ is_end;
      at = unfold end_of in (rw is at_end);
    }

module _ (h : HourFile) (v : View) (es : Entries) (s : ℕ) (repr : Represents h v)
    (indexed : Indexed h.cells.cells v es) (new_second : has_entry s es ≡ false)
    (last_known : (j : ℕ)
      → has_entry j es ≡ true
      → (l : ℕ) × (h.last_second ≡ some l) × (j ≤ l)) where
  no_later : later_cell h s h.last_second ≡ none → (j : ℕ) → s ≤ j → has_entry j es ≡ false
  unfolding later_cell
  no_later e j le = elim (Bool-cases (has_entry j es)) [
    | inr k ↦ k
    | inl k ↦
        let (l, known, upto) = last_known j k in
        let after : s < j = apart j le k in
        let (c, found) = get_inside h.cells.cells j (indexed.of_hour j k) in
        let later : first_from h.cells (suc s) ≡ none =
          none_from l (omega (arith, after, upto)) (ap (later_cell h s) (sym known) ∙ e) in
        indexed.missing j c found
          (first_from-none h.cells (suc s) later j c (omega (arith, after)) (unfold get in found))
  ]
    where
      apart : (j : ℕ) → s ≤ j → has_entry j es ≡ true → s < j
      apart j le k = elim (Bool-cases (s == j)) [
        | inl same ↦
            let at_j : s ≡ j = ground (arith, same) in
            absurd (cc (new_second, ap (λ x. has_entry x es) at_j, k))
        | inr ne ↦ ground (arith, ne, le)
      ]

      none_from :
          (l : ℕ) → s < l → later_cell h s (some l) ≡ none → first_from h.cells (suc s) ≡ none
      none_from l lt f = ground (arith, lt, f)

  later_cell-some :
      (last : Option ℕ) (k : ℕ) (c : Cell)
      → later_cell h s last ≡ some (k, c)
      → first_from h.cells (suc s) ≡ some (k, c)
  unfolding later_cell
  later_cell-some none k c e = absurd (ground (arith, e))
  later_cell-some (some l) k c e = ground (arith, e)

  pub place_for_new_second-Placed : Placed h v (offset_of s es) (place_for_new_second h s)
  unfolding place_for_new_second before_cell
  place_for_new_second-Placed = elim (Option-cases (later_cell h s h.last_second)) [
    | inl none_later ↦
        let tail : Placed h v (length (flat v)) (at_tail h h.tail) = at_tail-Placed h v repr in
        record {
          place = tail.place;
          frames = tail.frames;
          returns = ap (before_cell h) none_later ∙ tail.returns;
          kept = tail.kept;
          is = tail.is;
          at =
              tail.at
              ∙ ap length indexed.bytes_are
              ∙ sym (offset_of-all s es (no_later none_later));
        }
    | inr ((k, c), e) ↦
        let (le, found, full, between) = first_from-some h.cells (suc s) k c (later_is k c e) in
        let found' : get_elem? h.cells.cells k ≡ some c = (unfold get in found) in
        let inside : is_inside v c.frame c.offset ≡ true = repr.cells_in k c found' full in
        let (has, start) = indexed.starts k c found' full in
        let start' : place_of v (position_of c).frame (position_of c).offset ≡ offset_of k es =
          (unfold position_of in start) in
        record {
          place = position_of c;
          frames = h.frames;
          returns = ap (before_cell h) e;
          kept = λ id. refl;
          is = inside-is_place v c inside;
          at =
              start'
              ∙ sym (
                  offset_of-same s k es (omega (arith, le))
                    (λ j lo hi. nothing_between k between j lo hi));
        }
  ]
    where
      later_is :
          (k : ℕ) (c : Cell)
          → later_cell h s h.last_second ≡ some (k, c)
          → first_from h.cells (suc s) ≡ some (k, c)
      later_is k c e = later_cell-some h.last_second k c e

      nothing_between :
          (k : ℕ)
          → NoneIn h.cells.cells (suc s) k
          → (j : ℕ) → s ≤ j
          → j < k
          → has_entry j es ≡ false
      nothing_between k between j lo hi = elim (Bool-cases (has_entry j es)) [
        | inr none_here ↦ none_here
        | inl has ↦ elim (Bool-cases (s == j)) [
          | inl same ↦
              let at_j : s ≡ j = ground (arith, same) in
              absurd (cc (new_second, ap (λ x. has_entry x es) at_j, has))
          | inr ne ↦
              let (d, at) = get_inside h.cells.cells j (indexed.of_hour j has) in
              indexed.missing j d at (between j d (ground (arith, ne, lo)) hi at)
        ]
      ]
