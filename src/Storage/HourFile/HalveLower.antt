-- ===== src/Storage/HourFile/HalveLower.antt =====
-- `halve_and_insert` of hour_file.rs, its first half: the frame is split at the boundary, and the entry
-- goes into one of the halves.
use my_telemetry_server.Base.{
  ℕ, ◌+◌, ◌-◌, ◌≤◌, ◌≡◌, refl, sym, ap, ◌∙◌, arith, leb, if◌then◌else◌, some, List, map, length,
  take, drop, length-take, Bool-cases, leb→le, leb_false→lt, inl, inr,
}
use mathlib.Core.List.{map-id}
use my_telemetry_server.Base.Result.{ok}
use my_telemetry_server.Storage.Frame.{
  Frame, FrameId, same_frame, frame_header_len, frame_capacity, free, used, next, split_off,
}
use my_telemetry_server.Storage.Frame.Records.{
  records, IsValid, records-insert, records-split_off, length-records,
}
use my_telemetry_server.Storage.Cells.{Cell, iter_mut}
use my_telemetry_server.Storage.HourFile.{HourFile, put_frame, frame_in_memory, or_panic}
use my_telemetry_server.Storage.HourFile.Insert.{split_lower, move_cells, lower_moved}
use my_telemetry_server.Storage.HourFile.View.{put_at}
use my_telemetry_server.Storage.HourFile.Moves.{at_place, halves_at, boundary_with, lower_stage}
use my_telemetry_server.Storage.HourFile.Halving.{
  take_of_lower, drop_of_lower, take_of_upper, drop_of_upper,
}
use my_telemetry_server.Storage.HourFile.State.{SameRest, insert_bytes_lem, in_memory_put}

-- The hour once the frame is split: `upper` is what is to go elsewhere.
pub record Lowered (h : HourFile) (g : FrameId) (F : Frame) (stage : Cell → Cell) (lower : List ℕ)
    (h' : HourFile) : Type 0 where
  pub half : Frame
  pub valid : IsValid half
  pub holds : records half ≡ lower
  pub names : next half ≡ next F
  pub frames_are :
      (at : FrameId) → h'.frames at ≡ (if same_frame at g then some half else h.frames at)
  pub files_are : h'.data_files ≡ h.data_files
  pub len_is : h'.data_file_len ≡ h.data_file_len
  pub tail_is : h'.tail ≡ h.tail
  pub cells_are : h'.cells.cells ≡ map stage h.cells.cells
  pub rest_is : SameRest h h'

module _ (h : HourFile) (g : FrameId) (F : Frame) (r : List ℕ) (valid : IsValid F)
    (holds : records F ≡ r) (in_memory : h.frames g ≡ some F) (i b m : ℕ) (entry : List ℕ)
    (inside : i ≤ length r) (boundary_inside : b ≤ length r) where
  abbrev at : ℕ
  at = boundary_with i b (length entry)

  abbrev stage : Cell → Cell
  stage =
      lower_stage (leb (frame_header_len + i) (frame_header_len + b)) (at_place g i)
        (frame_header_len + b) (length entry)

  twice :
      (id : FrameId) (G cut : Frame) (x : FrameId)
      → (if same_frame x id then some G else if same_frame x id then some cut else h.frames x)
        ≡ (if same_frame x id then some G else h.frames x)
  twice id G cut x = elim (Bool-cases (same_frame x id)) [ inl e ↦ rw e refl | inr e ↦ rw e refl ]

  pub split_lower_lem :
      (if leb (frame_header_len + i) (frame_header_len + b) then b + length entry else b)
        ≤ frame_capacity
      → (h' : HourFile) × (split_lower h (at_place g i) entry (halves_at i b m)
          ≡ ok (drop at (put_at i entry r), h'))
        × Lowered h g F stage (take at (put_at i entry r)) h'
  unfolding split_lower frame_in_memory or_panic put_at
  split_lower_lem fits =
      let b_used : b ≤ used F = omega (arith, length-records valid, ap length holds) in
      let (off, kept, names, cut_valid) = records-split_off F b valid b_used in
      let cut : Frame = (split_off F (11 + b)).1 in
      elim (Bool-cases (leb (frame_header_len + i) (frame_header_len + b))) [
        | inl k ↦
            let i_le : i ≤ b = omega (arith, leb→le _ _ k) in
            let kept' : records cut ≡ take b r = kept ∙ ap (take b) holds in
            let cut_used : used cut ≡ b =
              omega (arith, length-records cut_valid, ap length kept', length-take b r) in
            let (G, put, G_holds, G_used, G_names, G_valid) =
              records-insert cut i cut_valid (omega (arith, cut_used)) entry
                (unfold free in ground (arith, fits, k, cut_used)) in
            (
              move_cells (lower_moved (at_place g i) (frame_header_len + b) (length entry))
                  (put_frame (put_frame h g cut) g G),
              rw
                  (
                    in_memory,
                    k,
                    insert_bytes_lem (put_frame h g cut) g cut G (11 + i) entry
                        (in_memory_put h g cut) put,
                  )
                  (ap
                    (λ l. ok (
                      l,
                      move_cells (lower_moved (at_place g i) (frame_header_len + b) (length entry))
                          (put_frame (put_frame h g cut) g G),
                    ))
                    (off
                      ∙ ap (drop b) holds
                      ∙ sym (drop_of_lower i b entry r boundary_inside i_le))),
              record {
                half = G;
                valid = G_valid;
                holds = rw k (
                    G_holds
                    ∙ ap (put_at i entry) kept'
                    ∙ sym (take_of_lower i b entry r boundary_inside i_le));
                names = G_names ∙ names;
                frames_are = λ x. unfold move_cells put_frame in twice g G cut x;
                files_are = unfold move_cells put_frame in refl;
                len_is = unfold move_cells put_frame in refl;
                tail_is = unfold move_cells put_frame in refl;
                cells_are = rw k (unfold move_cells put_frame iter_mut in refl);
                rest_is = (unfold move_cells put_frame iter_mut in (refl, refl));
              },
            )
        | inr k ↦
            let b_le : b ≤ i = omega (arith, leb_false→lt _ _ k) in
            (
              put_frame h g cut,
              rw (in_memory, k)
                  (ap (λ l. ok (l, put_frame h g cut))
                    (ap (λ j. put_at j entry (split_off F (11 + b)).0) (omega arith)
                      ∙ ap (put_at (i - b) entry) (off ∙ ap (drop b) holds)
                      ∙ sym (drop_of_upper i b entry r boundary_inside b_le))),
              record {
                half = cut;
                valid = cut_valid;
                holds = rw k (
                    kept
                    ∙ ap (take b) holds
                    ∙ sym (take_of_upper i b entry r boundary_inside b_le));
                names = names;
                frames_are = λ x. unfold put_frame in refl;
                files_are = unfold put_frame in refl;
                len_is = unfold put_frame in refl;
                tail_is = unfold put_frame in refl;
                cells_are = rw k (unfold put_frame in sym (map-id h.cells.cells));
                rest_is = (unfold put_frame in (refl, refl));
              },
            )
      ]
