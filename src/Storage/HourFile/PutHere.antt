-- ===== src/Storage/HourFile/PutHere.antt =====
-- `insert_into_frame` of hour_file.rs: the entry goes into a frame of the chain which has room for it.
use my_telemetry_server.Base.{
  ℕ, ◌+◌, ◌-◌, ◌≤◌, ◌<◌, ◌%◌, ◌^◌, ◌≡◌, refl, sym, ap, subst, ◌∙◌, arith, if◌then◌else◌, true,
  false, Option, none, some, List, [], ◌∷◌, ◌++◌, map, length, Bool-cases, inl, inr,
}
use my_telemetry_server.Base.Result.{Result, ok}
use my_telemetry_server.Storage.Frame.{Frame, FrameId, same_frame, head, free, next, insert}
use my_telemetry_server.Storage.Frame.Records.{records, IsValid, records-insert, length-records}
use my_telemetry_server.Storage.Cells.{Cell, is_empty, change_used, iter_mut}
use my_telemetry_server.Storage.HourFile.{
  HourFile, HourError, to_cell, read_frame, put_frame, mark_dirty, or_panic, read_frame_from_disk,
  frame_in_memory,
}
use my_telemetry_server.Storage.HourFile.Insert.{
  insert_into_frame, insert_bytes, moved_up, move_cells,
}
use my_telemetry_server.Storage.HourFile.View.{
  View, flat, has_frame, put_at, Inserted, Inserted-ext, same_frame→eq, same_frame_refl,
  same_frame_sym, inside_first, place_first, length-put_at, has_frame_self,
}
use my_telemetry_server.Storage.HourFile.Edits.{Inserted-here, moved_up_away}
use my_telemetry_server.Storage.HourFile.Moves.{at_place, change_used_small}
use my_telemetry_server.Storage.HourFile.Chain.{
  Reads, Leads, Leads-agree, Leads-append, Leads-split, Distinct, Distinct-right, Distinct-replace,
  EntryAt, EntryAt-append, apart_of_Distinct, Inserted-append,
}
use my_telemetry_server.Storage.HourFile.State.{SameRest, IsSound, Counted, read_frame-put_frame}
use my_telemetry_server.Storage.HourFile.Puts.{
  Represents, Outcome, Put-of_Inserted, Leads-InFrames, last_id,
}

-- A frame of a chain which is written again: its entries are other ones, and the next frame the same.
pub apart_of_frame :
    (v1 v2 : View) (g id : FrameId) (r : List ℕ)
    → Distinct (v1 ++ ((g, r) ∷ v2))
    → has_frame v1 id ≡ true
    → same_frame id g ≡ false
unfolding has_frame
apart_of_frame v1 v2 g id r d h =
    ground (arith, apart_of_Distinct v1 ((g, r) ∷ v2) id d h, same_frame_sym g id)

pub apart_of_rest :
    (v1 v2 : View) (g id : FrameId) (r : List ℕ)
    → Distinct (v1 ++ ((g, r) ∷ v2))
    → has_frame v2 id ≡ true
    → same_frame id g ≡ false
apart_of_rest v1 v2 g id r d h = elim (Bool-cases (same_frame id g)) [
  | inl e ↦ absurd (
      ground
        (arith, ap (has_frame v2) (same_frame→eq id g e), h, (Distinct-right v1 ((g, r) ∷ v2) d).0))
  | inr e ↦ e
]

pub Distinct-rewrite :
    (v1 v2 : View) (g : FrameId) (r s : List ℕ)
    → Distinct (v1 ++ ((g, r) ∷ v2))
    → Distinct (v1 ++ ((g, s) ∷ v2))
unfolding has_frame
Distinct-rewrite v1 v2 g r s d =
    Distinct-replace v1 ((g, r) ∷ v2) ((g, s) ∷ v2) d (Distinct-right v1 ((g, r) ∷ v2) d)
      (λ id h. apart_of_Distinct v1 ((g, r) ∷ v2) id d h)

pub last_id-rewrite :
    (v1 v2 : View) (g : FrameId) (r s : List ℕ)
    → last_id (v1 ++ ((g, r) ∷ v2)) ≡ last_id (v1 ++ ((g, s) ∷ v2))
last_id-rewrite [] [] g r s = refl
last_id-rewrite [] (e ∷ v2) g r s = refl
last_id-rewrite (e ∷ []) v2 g r s = last_id-rewrite [] v2 g r s
last_id-rewrite (e ∷ k ∷ v1) v2 g r s = last_id-rewrite (k ∷ v1) v2 g r s

pub absent_before :
    (v1 v2 : View) (g : FrameId) (r : List ℕ)
    → Distinct (v1 ++ ((g, r) ∷ v2))
    → has_frame v1 g ≡ false
absent_before v1 v2 g r d = elim (Bool-cases (has_frame v1 g)) [
  | inl e ↦ absurd (ground (arith, apart_of_Distinct v1 ((g, r) ∷ v2) g d e, has_frame_self g r v2))
  | inr e ↦ e
]

pub ok_eq : {a b : Frame} → ◌≡◌ {A = Result HourError Frame} (ok a) (ok b) → a ≡ b
ok_eq e = cc (e)

module _ (h : HourFile) (v1 v2 : View) (g : FrameId) (r : List ℕ)
    (repr : Represents h (v1 ++ ((g, r) ∷ v2))) (F : Frame) (reads : read_frame h g ≡ ok F) where
  -- What the chain says of the frame.
  pub frame_of_chain :
      (to : Option FrameId) × Leads (read_frame h) (some head) v1 (some g)
      × IsValid F
      × (records F ≡ r)
      × (next F ≡ to)
      × Leads (read_frame h) to v2 none
  frame_of_chain =
      let (mid, first, others) =
        Leads-split (read_frame h) (some head) none v1 ((g, r) ∷ v2) repr.leads in
      let (to, e, f, rest) = others in
      let same : f.frame ≡ F = ok_eq (sym f.reads ∙ reads) in
      (
        to,
        subst (λ m. Leads (read_frame h) (some head) v1 m) e first,
        subst IsValid same f.valid,
        ap records (sym same) ∙ f.holds,
        ap next (sym same) ∙ f.names,
        rest,
      )

  -- The chain after the frame is written again as `F'`.
  pub Leads-rewrite :
      (read' : Reads) (F' : Frame) (s : List ℕ)
      → ((at : FrameId) → read' at ≡ (if same_frame at g then ok F' else read_frame h at))
      → IsValid F'
      → records F' ≡ s
      → next F' ≡ next F
      → Leads read' (some head) (v1 ++ ((g, s) ∷ v2)) none
  Leads-rewrite read' F' s reads' valid holds names =
      let (to, first, valid_F, holds_F, names_F, rest) = frame_of_chain in
      Leads-append read' (some head) (some g) none v1 ((g, s) ∷ v2)
        (Leads-agree (read_frame h) read' (some head) v1 (some g)
          (λ id k. reads' id ∙ rw (apart_of_frame v1 v2 g id r repr.distinct k) refl) first)
        (
          to,
          refl,
          record {
            frame = F';
            reads = reads' g ∙ rw (same_frame_refl g) refl;
            valid = valid;
            holds = holds;
            names = names ∙ names_F;
          },
          Leads-agree (read_frame h) read' to v2 none
              (λ id k. reads' id ∙ rw (apart_of_rest v1 v2 g id r repr.distinct k) refl) rest,
        )

  module _ (i : ℕ) (entry : List ℕ) (some_bytes : 0 < length entry) (inside : i ≤ length r)
      (fits : length entry ≤ free F) (fs : FrameId → Option Frame) (in_memory : fs g ≡ some F)
      (kept : (at : FrameId) → read_frame (record h { frames = fs }) at ≡ read_frame h at) where
    abbrev h1 : HourFile
    h1 = record h { frames = fs }

    abbrev after : Frame → HourFile
    after F' =
        mark_dirty (move_cells (moved_up (at_place g i) (length entry)) (put_frame h1 g F')) g

    insert_into_frame_is :
        (F' : Frame)
        → insert F (11 + i) entry ≡ some F'
        → insert_into_frame h1 (at_place g i) entry ≡ ok (to_cell (at_place g i), after F')
    unfolding insert_into_frame insert_bytes frame_in_memory or_panic
    insert_into_frame_is F' e = rw (in_memory, e) refl

    after_reads :
        (F' : Frame) (at : FrameId)
        → read_frame (after F') at ≡ (if same_frame at g then ok F' else read_frame h at)
    after_reads F' at =
        let same : read_frame (after F') at ≡ read_frame (put_frame h1 g F') at =
          (unfold read_frame read_frame_from_disk mark_dirty move_cells put_frame in refl) in
        same
        ∙ read_frame-put_frame h1 g F' at
        ∙ ap (λ x. if same_frame at g then ok F' else x) (kept at)

    known_after :
        (F' : Frame) (id : FrameId) (f : Frame)
        → read_frame (after F') id ≡ ok f
        → Counted h.data_files id
    known_after F' id f e = elim (Bool-cases (same_frame id g)) [
      | inl k ↦
          subst (Counted h.data_files) (sym (same_frame→eq id g k)) (repr.sound.known g F reads)
      | inr k ↦ repr.sound.known id f (rw k at (sym (after_reads F' id) ∙ e))
    ]

    after-IsSound : (F' : Frame) → IsSound (after F')
    after-IsSound F' = record {
      files_count = unfold mark_dirty move_cells put_frame in repr.sound.files_count;
      small = unfold mark_dirty move_cells put_frame in repr.sound.small;
      len_fits = unfold mark_dirty move_cells put_frame in repr.sound.len_fits;
      known = λ id f e. unfold mark_dirty move_cells put_frame in known_after F' id f e;
    }

    abbrev moves : Cell → Cell
    moves = change_used (moved_up (at_place g i) (length entry))

    moves_stays : (c : Cell) → has_frame ((g, r) ∷ v2) c.frame ≡ false → moves c ≡ c
    unfolding has_frame change_used
    moves_stays c k =
        ground (arith, same_frame_sym c.frame g, moved_up_away (at_place g i) (length entry) c, k)

    small_entry : length r + length entry < 2 ^ 31
    unfolding free
    small_entry =
        let (to, first, valid, holds, names, rest) = frame_of_chain in
        omega (arith, length-records valid, ap length holds, fits, valid.fits)

    inserted-here_lem :
        Inserted
          (v1 ++ ((g, r) ∷ v2))
          entry
          (length (flat v1) + i)
          moves
          (v1 ++ ((g, put_at i entry r) ∷ v2))
    inserted-here_lem =
        let (mid, first, others) =
          Leads-split (read_frame h) (some head) none v1 ((g, r) ∷ v2) repr.leads in
        Inserted-append v1 moves moves_stays repr.distinct
          (Distinct-rewrite v1 v2 g r (put_at i entry r) repr.distinct)
          (Inserted-ext (moved_up (at_place g i) (length entry)) moves
            (λ c k.
              change_used_small (moved_up (at_place g i) (length entry)) c
                (Leads-InFrames h mid none ((g, r) ∷ v2) others c k))
            (Inserted-here g r v2 entry i inside small_entry))

    entry_here :
        EntryAt
          (v1 ++ ((g, put_at i entry r) ∷ v2))
          (to_cell (at_place g i))
          (length (flat v1) + i)
          (length entry)
    unfolding to_cell
    entry_here =
        let offset_is : (11 + i) % 2 ^ 32 ≡ 11 + i = omega (arith, small_entry) in
        EntryAt-append v1 ((g, put_at i entry r) ∷ v2) (to_cell (at_place g i)) i (length entry)
          (absent_before v1 v2 g r repr.distinct)
          (record {
            inside =
                inside_first g g (put_at i entry r) v2 ((11 + i) % 2 ^ 32) (same_frame_refl g)
                  (omega (arith, offset_is))
                  (omega (arith, offset_is, length-put_at i entry r inside));
            last_inside =
                inside_first g g (put_at i entry r) v2 ((11 + i) % 2 ^ 32 + length entry - 1)
                  (same_frame_refl g) (omega (arith, offset_is, some_bytes))
                  (omega (arith, offset_is, some_bytes, length-put_at i entry r inside));
            place_is =
                place_first g g (put_at i entry r) v2 ((11 + i) % 2 ^ 32) (same_frame_refl g)
                ∙ omega (arith, offset_is);
          })

    cells_after : (F' : Frame) → (after F').cells.cells ≡ map moves h.cells.cells
    unfolding mark_dirty move_cells put_frame iter_mut
    cells_after F' = refl

    moves_fixed : (c : Cell) → is_empty c ≡ true → moves c ≡ c
    unfolding change_used
    moves_fixed c e = rw e refl

    after-tail : (F' : Frame) → (after F').tail ≡ h.tail
    unfolding mark_dirty move_cells put_frame
    after-tail F' = refl

    after-SameRest : (F' : Frame) → SameRest h (after F')
    unfolding mark_dirty move_cells put_frame iter_mut
    after-SameRest F' = (refl, refl)

    pub insert_into_frame-Outcome :
        Outcome h
          (v1 ++ ((g, r) ∷ v2))
          entry
          (length (flat v1) + i)
          (insert_into_frame h1 (at_place g i) entry)
    unfolding put_at
    insert_into_frame-Outcome =
        let (to, first, valid, holds, names, rest) = frame_of_chain in
        let (F', eq, recs, used', next', valid') =
          records-insert F i valid (omega (arith, length-records valid, ap length holds)) entry
            fits in
        let holds' : records F' ≡ put_at i entry r = recs ∙ ap (put_at i entry) holds in
        rw (insert_into_frame_is F' eq) (
          v1 ++ ((g, put_at i entry r) ∷ v2),
          Put-of_Inserted h (after F') (v1 ++ ((g, r) ∷ v2)) (v1 ++ ((g, put_at i entry r) ∷ v2))
              entry (length (flat v1) + i) (to_cell (at_place g i)) moves repr inserted-here_lem
              entry_here (cells_after F') moves_fixed (after-IsSound F')
              (Leads-rewrite (read_frame (after F')) F' (put_at i entry r) (after_reads F') valid'
                holds' next')
              (Distinct-rewrite v1 v2 g r (put_at i entry r) repr.distinct)
              (after-tail F' ∙ repr.tail_is ∙ last_id-rewrite v1 v2 g r (put_at i entry r))
              (after-SameRest F'),
        )
