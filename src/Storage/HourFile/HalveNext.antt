-- ===== src/Storage/HourFile/HalveNext.antt =====
-- `halve_and_insert` of hour_file.rs, when the upper half of the frame goes in front of the entries of
-- the next one.
use my_telemetry_server.Base.{
  ℕ, ◌+◌, ◌≤◌, ◌<◌, ◌≡◌, refl, sym, ap, subst, ◌∙◌, arith, leb, if◌then◌else◌, true, false, Option,
  none, some, List, ◌∷◌, ◌++◌, map, length, take, drop, Bool-cases, inl, inr,
}
use my_telemetry_server.Base.Result.{ok}
use my_telemetry_server.Storage.Frame.{
  Frame, FrameId, same_frame, head, frame_header_len, frame_capacity, free, next, insert,
}
use my_telemetry_server.Storage.Frame.Records.{records, IsValid, records-insert, length-records}
use my_telemetry_server.Storage.Cells.{Cell, iter_mut, change_used}
use my_telemetry_server.Storage.HourFile.{
  HourFile, read_frame, read_frame_from_disk, put_frame, mark_dirty,
}
use my_telemetry_server.Storage.HourFile.Insert.{
  place_upper, halve_at, entry_cell, move_upper, move_cells, next_moved, is_moved, to_upper,
  set_moved,
}
use my_telemetry_server.Storage.HourFile.View.{
  View, flat, has_frame, has_frame_more, put_at, same_frame→eq, same_frame_refl, same_frame_sym,
  length-put_at,
}
use my_telemetry_server.Storage.HourFile.Moves.{
  at_place, halves_at, boundary_with, lower_stage, halved_cell, halved_cell_fixed,
}
use my_telemetry_server.Storage.HourFile.Halving.{Inserted-into_next}
use my_telemetry_server.Storage.HourFile.Chain.{
  Leads, Leads-agree, Leads-append, Leads-split, Distinct, Distinct-right, EntryAt-append,
  apart_of_Distinct, Inserted-append,
}
use my_telemetry_server.Storage.HourFile.State.{
  SameRest, IsSound, IsSound-after, insert_bytes_lem, read_frame-rewritten, read_frame-put_frame,
}
use my_telemetry_server.Storage.HourFile.Puts.{Represents, Outcome, Put-of_Inserted, Leads-InFrames}
use my_telemetry_server.Storage.HourFile.PutHere.{
  apart_of_frame, apart_of_rest, absent_before, frame_of_chain, ok_eq,
}
use my_telemetry_server.Storage.HourFile.HalveLower.{split_lower_lem, Lowered}
use my_telemetry_server.Storage.HourFile.HalveCells.{
  Distinct-halves, last_id-halves, cells-halved, entry_in_halves, halved_stays, entry_cell_absent,
}

module _ (h : HourFile) (v1 v3 : View) (g to : FrameId) (r s : List ℕ)
    (repr : Represents h (v1 ++ ((g, r) ∷ (to, s) ∷ v3))) (F T : Frame)
    (reads : read_frame h g ≡ ok F) (reads_next : read_frame h to ≡ ok T)
    (fs : FrameId → Option Frame) (in_memory : fs g ≡ some F) (next_in_memory : fs to ≡ some T)
    (kept : (at : FrameId) → read_frame (record h { frames = fs }) at ≡ read_frame h at) (i b m : ℕ)
    (entry : List ℕ) (some_bytes : 0 < length entry) (entry_fits : length entry ≤ frame_capacity)
    (inside : i ≤ length r) (boundary_inside : b ≤ length r) where
  abbrev h1 : HourFile
  h1 = record h { frames = fs }

  abbrev whole : List ℕ
  whole = put_at i entry r

  abbrev at : ℕ
  at = boundary_with i b (length entry)

  abbrev lower : List ℕ
  lower = take at whole

  abbrev upper : List ℕ
  upper = drop at whole

  abbrev stage : Cell → Cell
  stage =
      lower_stage (leb (frame_header_len + i) (frame_header_len + b)) (at_place g i)
        (frame_header_len + b) (length entry)

  abbrev w : View
  w = v1 ++ ((g, lower) ∷ (to, upper ++ s) ∷ v3)

  apart : same_frame g to ≡ false
  unfolding has_frame
  apart =
      ground
        (arith, (Distinct-right v1 ((g, r) ∷ (to, s) ∷ v3) repr.distinct).0, same_frame_sym g to)

  -- The frames of the chain as they read.
  frames_of :
      IsValid F
      × (records F ≡ r)
      × (next F ≡ some to)
      × IsValid T
      × (records T ≡ s)
      × Leads (read_frame h) (next T) v3 none
      × Leads (read_frame h) (some head) v1 (some g)
  frames_of =
      let (mid, first, valid, holds, names, rest) =
        frame_of_chain h v1 ((to, s) ∷ v3) g r repr F reads in
      let (mid2, e, f, rest2) = rest in
      let same : f.frame ≡ T = ok_eq (sym f.reads ∙ reads_next) in
      (
        valid,
        holds,
        names ∙ e,
        subst IsValid same f.valid,
        ap records (sym same) ∙ f.holds,
        subst (λ k. Leads (read_frame h) k v3 none) (sym f.names ∙ ap next same) rest2,
        first,
      )

  in_front : (id : FrameId) → has_frame v1 id ≡ true → same_frame id to ≡ false
  unfolding has_frame
  in_front id k =
      ground (
        arith,
        apart_of_Distinct v1 ((g, r) ∷ (to, s) ∷ v3) id repr.distinct k,
        same_frame_sym id to,
      )

  behind : (id : FrameId) → has_frame v3 id ≡ true → same_frame id to ≡ false
  behind id k = elim (Bool-cases (same_frame id to)) [
    | inl e ↦ absurd (
        ground (
          arith,
          ap (has_frame v3) (same_frame→eq id to e),
          k,
          (Distinct-right v1 ((g, r) ∷ (to, s) ∷ v3) repr.distinct).1.0,
        ))
    | inr e ↦ e
  ]

  module _ (hS : HourFile) (L : Lowered h1 g F stage lower hS) (T' : Frame)
      (put : insert T 11 upper ≡ some T') (T'_valid : IsValid T')
      (T'_holds : records T' ≡ upper ++ s) (T'_names : next T' ≡ next T) where
    abbrev placed : HourFile
    placed = mark_dirty (put_frame (move_cells (next_moved to (length upper)) hS) to T') to

    abbrev after : HourFile
    after =
        move_upper (mark_dirty placed g) h1.cells (at_place g i) (length entry) (halves_at i b m) to

    place_upper_is : place_upper hS g upper (some to) (some to) ≡ ok (to, placed)
    unfolding place_upper
    place_upper_is =
        rw
          (insert_bytes_lem (move_cells (next_moved to (length upper)) hS) to T T' 11 upper
            (unfold move_cells in
              (L.frames_are to ∙ rw (same_frame_sym to g ∙ apart) next_in_memory))
            put)
          refl

    after_reads :
        (x : FrameId)
        → read_frame after x ≡ (
            if same_frame x to then ok T' else if same_frame x g then ok L.half else read_frame h x)
    after_reads x =
        let same : read_frame after x
            ≡ read_frame (put_frame (move_cells (next_moved to (length upper)) hS) to T') x =
          (unfold read_frame read_frame_from_disk move_upper mark_dirty in refl) in
        let moved : read_frame (move_cells (next_moved to (length upper)) hS) x ≡ read_frame hS x =
          (unfold read_frame read_frame_from_disk move_cells in refl) in
        same
        ∙ read_frame-put_frame (move_cells (next_moved to (length upper)) hS) to T' x
        ∙ ap (λ k. if same_frame x to then ok T' else k)
            (moved
              ∙ read_frame-rewritten h1 hS g L.half x L.files_are (L.frames_are x)
              ∙ ap (λ k. if same_frame x g then ok L.half else k) (kept x))

    known_after :
        (id : FrameId) (f : Frame)
        → read_frame after id ≡ ok f
        → (f' : Frame) × (read_frame h id ≡ ok f')
    known_after id f e = elim (Bool-cases (same_frame id to)) [
      | inl k ↦ (T, ap (read_frame h) (same_frame→eq id to k) ∙ reads_next)
      | inr k ↦ elim (Bool-cases (same_frame id g)) [
        | inl j ↦ (F, ap (read_frame h) (same_frame→eq id g j) ∙ reads)
        | inr j ↦ (f, rw (k, j) at (sym (after_reads id) ∙ e))
      ]
    ]

    after-IsSound : IsSound after
    after-IsSound =
        IsSound-after h after repr.sound
          (unfold move_upper mark_dirty put_frame move_cells in L.files_are)
          (unfold move_upper mark_dirty put_frame move_cells in L.len_is) known_after

    after-Leads : Leads (read_frame after) (some head) w none
    after-Leads =
        let (valid, holds, names, T_valid, T_holds, rest, first) = frames_of in
        Leads-append (read_frame after) (some head) (some g) none v1
          ((g, lower) ∷ (to, upper ++ s) ∷ v3)
          (Leads-agree (read_frame h) (read_frame after) (some head) v1 (some g)
            (λ id k.
              after_reads id
              ∙ rw (in_front id k, apart_of_frame v1 ((to, s) ∷ v3) g id r repr.distinct k) refl)
            first)
          (
            some to,
            refl,
            record {
              frame = L.half;
              reads = after_reads g ∙ rw (apart, same_frame_refl g) refl;
              valid = L.valid;
              holds = L.holds;
              names = L.names ∙ names;
            },
            (
              next T,
              refl,
              record {
                frame = T';
                reads = after_reads to ∙ rw (same_frame_refl to) refl;
                valid = T'_valid;
                holds = T'_holds;
                names = T'_names;
              },
              Leads-agree (read_frame h) (read_frame after) (next T) v3 none
                  (λ id k.
                    after_reads id
                    ∙ rw
                        (
                          behind id k,
                          apart_of_rest v1 ((to, s) ∷ v3) g id r repr.distinct
                              (has_frame_more id to s v3 k),
                        )
                        refl)
                  rest,
            ),
          )

    after_cells :
        after.cells.cells
        ≡ map
            (halved_cell
              (at_place g i)
              (length entry)
              (halves_at i b m)
              to
              (some to)
              (length upper))
            h.cells.cells
    unfolding move_upper mark_dirty put_frame move_cells iter_mut
    after_cells =
        ap
          (λ l.
            set_moved (is_moved g (frame_header_len + b))
              (to_upper (at_place g i) (length entry) (halves_at i b m) to) h.cells.cells
              (map (change_used (next_moved to (length upper))) l))
          L.cells_are
        ∙ cells-halved h.cells.cells g to i b (length entry) m (length upper) (some to)

    after_tail : after.tail ≡ h.tail
    unfolding move_upper mark_dirty put_frame move_cells
    after_tail = L.tail_is

    after-SameRest : SameRest h after
    unfolding move_upper mark_dirty put_frame move_cells iter_mut
    after-SameRest = L.rest_is

  next_absent : has_frame v1 to ≡ false
  next_absent = elim (Bool-cases (has_frame v1 to)) [
    | inl e ↦ absurd (ground (arith, in_front to e, same_frame_refl to))
    | inr e ↦ e
  ]

  at_inside : at ≤ length whole
  at_inside = ground (arith, length-put_at i entry r inside)

  pub halve_next-Outcome :
      at ≤ frame_capacity
      → length upper ≤ free T
      → Outcome h
          (v1 ++ ((g, r) ∷ (to, s) ∷ v3))
          entry
          (length (flat v1) + i)
          (halve_at h1 (at_place g i) entry (halves_at i b m) (some to) (some to))
  unfolding halve_at
  halve_next-Outcome lower_fits upper_fits =
      let (valid, holds, names, T_valid, T_holds, rest, first) = frames_of in
      let (hS, split, L) =
        split_lower_lem h1 g F r valid holds in_memory i b m entry inside boundary_inside
          lower_fits in
      let (T', put, recs, T'_used, T'_names, T'_valid) =
        records-insert T 0 T_valid (omega arith) upper upper_fits in
      let T'_holds : records T' ≡ upper ++ s = recs ∙ ap (λ l. upper ++ l) T_holds in
      let r_small : length r ≤ frame_capacity =
        omega (arith, length-records valid, ap length holds, valid.fits) in
      let (mid, front, others) =
        Leads-split (read_frame h) (some head) none v1 ((g, r) ∷ (to, s) ∷ v3) repr.leads in
      let distinct : Distinct w = Distinct-halves v1 v3 g to r s lower (upper ++ s) repr.distinct in
      let m' : Cell → Cell =
        halved_cell (at_place g i) (length entry) (halves_at i b m) to (some to) (length upper) in
      rw (split, place_upper_is hS L T' put T'_valid T'_holds T'_names)
        (
          w,
          Put-of_Inserted h (after hS L T' put T'_valid T'_holds T'_names)
              (v1 ++ ((g, r) ∷ (to, s) ∷ v3)) w entry (length (flat v1) + i)
              (entry_cell (at_place g i) (halves_at i b m) to) m' repr
              (Inserted-append v1 m'
                (λ c k.
                  halved_stays g to i b (length entry) m (length upper) (some to) r s v3 c
                    (λ id e. cc) k)
                repr.distinct distinct
                (Inserted-into_next g to apart i b entry r inside boundary_inside r_small entry_fits
                  m s v3 (Leads-InFrames h mid none ((g, r) ∷ (to, s) ∷ v3) others)))
              (EntryAt-append v1 ((g, lower) ∷ (to, upper ++ s) ∷ v3)
                (entry_cell (at_place g i) (halves_at i b m) to) i (length entry)
                (entry_cell_absent v1 g to i b m (absent_before v1 ((to, s) ∷ v3) g r repr.distinct)
                  next_absent)
                (entry_in_halves g to i b m entry r s v3 apart some_bytes inside (omega arith)
                  at_inside))
              (after_cells hS L T' put T'_valid T'_holds T'_names)
              (λ c e. halved_cell_fixed g to i b (length entry) m (length upper) (some to) c e)
              (after-IsSound hS L T' put T'_valid T'_holds T'_names)
              (after-Leads hS L T' put T'_valid T'_holds T'_names) distinct
              (after_tail hS L T' put T'_valid T'_holds T'_names
                ∙ repr.tail_is
                ∙ last_id-halves v1 v3 g to r s lower (upper ++ s))
              (after-SameRest hS L T' put T'_valid T'_holds T'_names),
        )
