-- ===== src/Storage/HourFile/Remove.antt =====
-- `remove_entry` of hour_file.rs: the entry is out of the chain, and the cells are where the entries
-- they were at have moved to.
use my_telemetry_server.Base.{
  ℕ, ◌+◌, ◌≤◌, ◌<◌, ◌^◌, ◌≡◌, refl, sym, ap, subst, ◌∙◌, arith, if◌then◌else◌, true, false, none,
  some, List, [], ◌∷◌, ◌++◌, map, length, get_elem?, Bool-cases, inl, inr, length-append,
}
use my_telemetry_server.Base.Result.{ok}
use my_telemetry_server.Storage.Frame.{Frame, FrameId, same_frame, head, remove}
use my_telemetry_server.Storage.Frame.Records.{records-remove, length-records}
use my_telemetry_server.Storage.Cells.{Cell, is_empty, change_used, iter_mut}
use my_telemetry_server.Storage.HourFile.{
  HourFile, read_frame, read_frame_from_disk, put_frame, mark_dirty, or_panic, frame_in_memory,
}
use my_telemetry_server.Storage.HourFile.Insert.{remove_entry, moved_down, move_cells}
use my_telemetry_server.Storage.HourFile.View.{View, flat, place_of, has_frame, same_frame→eq}
use my_telemetry_server.Storage.HourFile.Moves.{at_place}
use my_telemetry_server.Storage.HourFile.Chain.{Leads, Distinct}
use my_telemetry_server.Storage.HourFile.State.{
  SameRest, IsSound, IsSound-after, read_frame-put_frame,
}
use my_telemetry_server.Storage.HourFile.Puts.{Represents, last_id, get_elem?-map, length-map}
use my_telemetry_server.Storage.HourFile.PutHere.{
  absent_before, frame_of_chain, Leads-rewrite, Distinct-rewrite, last_id-rewrite,
}
use my_telemetry_server.Storage.HourFile.CutOut.{
  cut_out, lowered, Outside, CellAt, CutOut, CutOut-here, CutOut-cons, moved_down_frame,
}

-- The `n` bytes at `p` are out, and the hour is the chain `w`.
pub record Removed (h : HourFile) (v : View) (p n : ℕ) (h' : HourFile) (w : View) : Type 0 where
  pub sound : IsSound h'
  pub leads : Leads (read_frame h') (some head) w none
  pub distinct : Distinct w
  pub tail_is : h'.tail ≡ last_id w
  pub inside : p + n ≤ length (flat v)
  pub flat_is : flat w ≡ cut_out p n (flat v)
  -- A second with entries has its first one where it was, moved down when it is after those bytes. When
  -- it was the one which is out, the cell is at what is there now.
  pub used :
      (second : ℕ) (c : Cell)
      → get_elem? h.cells.cells second ≡ some c
      → is_empty c ≡ false
      → Outside p n (place_of v c.frame c.offset)
      → (c' : Cell) × (get_elem? h'.cells.cells second ≡ some c')
        × CellAt w p c' (lowered p n (place_of v c.frame c.offset)) (place_of v c.frame c.offset)
  pub unused :
      (second : ℕ) (c : Cell)
      → get_elem? h.cells.cells second ≡ some c
      → is_empty c ≡ true
      → get_elem? h'.cells.cells second ≡ some c
  pub same_len : length h'.cells.cells ≡ length h.cells.cells
  pub same_rest : SameRest h h'

module _ (h : HourFile) (v1 v2 : View) (g : FrameId) (r : List ℕ)
    (repr : Represents h (v1 ++ ((g, r) ∷ v2))) (F : Frame) (in_memory : h.frames g ≡ some F)
    (i n : ℕ) (some_bytes : 0 < n) (room : i + n ≤ length r) where
  abbrev pub F' : Frame
  F' = remove F (11 + i) n

  abbrev pub after : HourFile
  after = mark_dirty (move_cells (moved_down (at_place g i) n) (put_frame h g F')) g

  abbrev w : View
  w = v1 ++ ((g, cut_out i n r) ∷ v2)

  reads : read_frame h g ≡ ok F
  unfolding read_frame
  reads = rw in_memory refl

  after_reads :
      (at : FrameId) → read_frame after at ≡ (if same_frame at g then ok F' else read_frame h at)
  after_reads at =
      let same : read_frame after at ≡ read_frame (put_frame h g F') at =
        (unfold read_frame read_frame_from_disk mark_dirty move_cells in refl) in
      same ∙ read_frame-put_frame h g F' at

  known_after :
      (id : FrameId) (f : Frame)
      → read_frame after id ≡ ok f
      → (f' : Frame) × (read_frame h id ≡ ok f')
  known_after id f e = elim (Bool-cases (same_frame id g)) [
    | inl k ↦ (F, ap (read_frame h) (same_frame→eq id g k) ∙ reads)
    | inr k ↦ (f, rw k at (sym (after_reads id) ∙ e))
  ]

  small : length r < 2 ^ 31
  small =
      let (to, first, valid, holds, names, rest) = frame_of_chain h v1 v2 g r repr F reads in
      omega (arith, length-records valid, ap length holds, valid.fits)

  cut : CutOut (v1 ++ ((g, r) ∷ v2)) (length (flat v1) + i) n (moved_down (at_place g i) n) w
  cut = of_front v1 (absent_before v1 v2 g r repr.distinct)
    where
      of_front :
          (x : View)
          → has_frame x g ≡ false
          → CutOut
              (x ++ ((g, r) ∷ v2))
              (length (flat x) + i)
              n
              (moved_down (at_place g i) n)
              (x ++ ((g, cut_out i n r) ∷ v2))
      of_front [] absent =
          subst
            (λ k. CutOut ((g, r) ∷ v2) k n (moved_down (at_place g i) n) ((g, cut_out i n r) ∷ v2))
            (omega arith) (CutOut-here g r v2 i n some_bytes room small)
      of_front ((k, s) ∷ x) absent =
          let apart : same_frame k g ≡ false = (unfold has_frame in ground (arith, absent)) in
          let rest : has_frame x g ≡ false = (unfold has_frame in ground (arith, absent)) in
          subst
            (λ q.
              CutOut ((k, s) ∷ (x ++ ((g, r) ∷ v2))) q n (moved_down (at_place g i) n)
                ((k, s) ∷ (x ++ ((g, cut_out i n r) ∷ v2))))
            (omega (arith, length-append s (flat x)))
            (CutOut-cons k s (moved_down (at_place g i) n)
              (λ c same.
                unfold moved_down in
                rw (ap (λ id. same_frame id g) (sym (same_frame→eq k c.frame same)) ∙ apart) refl)
              (moved_down_frame (at_place g i) n) (of_front x rest))

  after_tail : after.tail ≡ h.tail
  unfolding mark_dirty move_cells put_frame
  after_tail = refl

  after_cells : after.cells.cells ≡ map (change_used (moved_down (at_place g i) n)) h.cells.cells
  unfolding mark_dirty move_cells put_frame iter_mut
  after_cells = refl

  after_rest : SameRest h after
  unfolding mark_dirty move_cells put_frame iter_mut
  after_rest = (refl, refl)

  cell_after :
      (second : ℕ) (c : Cell)
      → get_elem? h.cells.cells second ≡ some c
      → get_elem? after.cells.cells second ≡ some (change_used (moved_down (at_place g i) n) c)
  cell_after second c found =
      ap (λ l. get_elem? l second) after_cells
      ∙ get_elem?-map (change_used (moved_down (at_place g i) n)) h.cells.cells second c found

  pub remove-Removed :
      (remove_entry h (at_place g i) n ≡ ok after)
      × Removed h (v1 ++ ((g, r) ∷ v2)) (length (flat v1) + i) n after w
  remove-Removed =
      let (to, first, valid, holds, names, rest) = frame_of_chain h v1 v2 g r repr F reads in
      let (recs, next', valid') =
        records-remove F i valid (omega (arith, length-records valid, ap length holds, room)) n
          (omega (arith, length-records valid, ap length holds, room)) in
      (
        unfold remove_entry frame_in_memory or_panic in rw in_memory refl,
        record {
          sound =
              IsSound-after h after repr.sound (unfold mark_dirty move_cells put_frame in refl)
                (unfold mark_dirty move_cells put_frame in refl) known_after;
          leads =
              Leads-rewrite h v1 v2 g r repr F reads (read_frame after) F' (cut_out i n r)
                after_reads valid' (recs ∙ ap (cut_out i n) holds) next';
          distinct = Distinct-rewrite v1 v2 g r (cut_out i n r) repr.distinct;
          tail_is = after_tail ∙ repr.tail_is ∙ last_id-rewrite v1 v2 g r (cut_out i n r);
          inside = cut.inside;
          flat_is = cut.flat_is;
          used = λ second c found full outside. (
            moved_down (at_place g i) n c,
            cell_after second c found ∙ ap (λ x. some x) (unfold change_used in rw full refl),
            cut.cells_are c (repr.cells_in second c found full) outside,
          );
          unused = λ second c found empty.
              cell_after second c found ∙ ap (λ x. some x) (unfold change_used in rw empty refl);
          same_len =
              ap length after_cells
              ∙ length-map (change_used (moved_down (at_place g i) n)) h.cells.cells;
          same_rest = after_rest;
        },
      )
