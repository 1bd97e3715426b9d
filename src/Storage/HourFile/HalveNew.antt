-- ===== src/Storage/HourFile/HalveNew.antt =====
-- `halve_and_insert` of hour_file.rs, when the upper half of the frame goes into a new frame after it.
use my_telemetry_server.Base.{
  ℕ, ◌+◌, ◌≤◌, ◌<◌, ◌≡◌, refl, sym, ap, subst, ◌∙◌, arith, leb, if◌then◌else◌, true, false, Option,
  none, some, List, [], ◌∷◌, ◌++◌, map, length, take, drop, Bool-cases, inl, inr, append-nil,
  some_eq,
}
use mathlib.Core.List.{map-id}
use my_telemetry_server.Base.Result.{ok, err}
use my_telemetry_server.Storage.Frame.{
  Frame, FrameId, same_frame, head, frame_header_len, frame_capacity, next, insert, new, set_next,
}
use my_telemetry_server.Storage.Frame.Records.{records, IsValid, length-records}
use my_telemetry_server.Storage.Frame.Links.{IsLink, relinked, next_not_head}
use my_telemetry_server.Storage.Cells.{Cell}
use my_telemetry_server.Storage.HourFile.{
  HourFile, read_frame, read_frame_from_disk, put_frame, mark_dirty, allocate_frame, too_many_files,
}
use my_telemetry_server.Storage.HourFile.Insert.{
  place_upper, halve_at, entry_cell, move_upper, tail_after, is_moved, to_upper, set_moved,
}
use my_telemetry_server.Storage.HourFile.View.{
  View, flat, has_frame, put_at, same_frame→eq, same_frame_refl, same_frame_sym, length-put_at,
}
use my_telemetry_server.Storage.HourFile.Moves.{
  at_place, halves_at, boundary_with, lower_stage, halved_cell, halved_cell_fixed,
  halved_cell_stays,
}
use my_telemetry_server.Storage.HourFile.Halving.{Inserted-into_new}
use my_telemetry_server.Storage.HourFile.Chain.{
  Leads, Leads-split, Distinct, EntryAt-append, Inserted-append, reads_of_Leads, has_frame-append,
}
use my_telemetry_server.Storage.HourFile.State.{
  SameRest, IsSound, IsSound-after, insert_bytes_lem, link_frame_lem, read_frame-rewritten,
  read_frame-put_frame, in_memory_put, in_memory_still, IsLink-reads,
}
use my_telemetry_server.Storage.HourFile.State.Allocate.{Allocated, allocate_frame_lem}
use my_telemetry_server.Storage.HourFile.Puts.{
  Represents, Put, Outcome, Put-of_Inserted, Leads-InFrames, last_id,
}
use my_telemetry_server.Storage.HourFile.PutHere.{absent_before, frame_of_chain}
use my_telemetry_server.Storage.HourFile.Grow.{
  filled, has_frame_last, Distinct-grow, Leads-grow, absent_front, last_id-grow, last_id-grow_end,
  read_frame-put_two, not_head,
}
use my_telemetry_server.Storage.HourFile.HalveLower.{split_lower_lem, Lowered}
use my_telemetry_server.Storage.HourFile.HalveCells.{
  cells-halved, entry_in_halves, entry_cell_absent,
}

module _ (h : HourFile) (v1 v2 : View) (g : FrameId) (r : List ℕ)
    (repr : Represents h (v1 ++ ((g, r) ∷ v2))) (F : Frame) (reads : read_frame h g ≡ ok F)
    (fs : FrameId → Option Frame) (in_memory : fs g ≡ some F)
    (kept : (at : FrameId) → read_frame (record h { frames = fs }) at ≡ read_frame h at) (i b m : ℕ)
    (entry : List ℕ) (some_bytes : 0 < length entry) (entry_fits : length entry ≤ frame_capacity)
    (inside : i ≤ length r) (boundary_inside : b ≤ length r) where
  abbrev h1 : HourFile
  h1 = record h { frames = fs }

  abbrev v : View
  v = v1 ++ ((g, r) ∷ v2)

  abbrev whole : List ℕ
  whole = put_at i entry r

  abbrev at : ℕ
  at = boundary_with i b (length entry)

  abbrev lower : List ℕ
  lower = take at whole

  abbrev upper : List ℕ
  upper = drop at whole

  abbrev stage : Cell → Cell
  stage =
      lower_stage (leb (frame_header_len + i) (frame_header_len + b)) (at_place g i)
        (frame_header_len + b) (length entry)

  -- The frame after the halved one can be linked to.
  next_links : (id : FrameId) → next F ≡ some id → IsLink id × (same_frame id head ≡ false)
  next_links id e =
      let (to, first, valid, holds, names, rest) = frame_of_chain h v1 v2 g r repr F reads in
      (
        linked v2 (subst (λ k. Leads (read_frame h) k v2 none) (sym names ∙ e) rest),
        next_not_head F id e,
      )
    where
      linked : (w : View) → Leads (read_frame h) (some id) w none → IsLink id
      linked [] l = absurd (ground (arith, l))
      linked ((k, s) ∷ w) (mid, same, f, rest) =
          IsLink-reads h id f.frame repr.sound (ap (read_frame h) (some_eq same) ∙ f.reads)

  at_inside : at ≤ length whole
  at_inside = ground (arith, length-put_at i entry r inside)

  module _ (hS : HourFile) (L : Lowered h1 g F stage lower hS) where
    reads_lower :
        (x : FrameId) → read_frame hS x ≡ (if same_frame x g then ok L.half else read_frame h x)
    reads_lower x =
        read_frame-rewritten h1 hS g L.half x L.files_are (L.frames_are x)
        ∙ ap (λ k. if same_frame x g then ok L.half else k) (kept x)

    IsSound-lower : IsSound hS
    IsSound-lower = IsSound-after h hS repr.sound L.files_are L.len_is known
      where
        known :
            (id : FrameId) (f : Frame)
            → read_frame hS id ≡ ok f
            → (f' : Frame) × (read_frame h id ≡ ok f')
        known id f e = elim (Bool-cases (same_frame id g)) [
          | inl j ↦ (F, ap (read_frame h) (same_frame→eq id g j) ∙ reads)
          | inr j ↦ (f, rw j at (sym (reads_lower id) ∙ e))
        ]

    module _ (to : FrameId) (h2 : HourFile) (A : Allocated hS to h2) (N : Frame)
        (put : insert new 11 upper ≡ some N) (N_valid : IsValid N)
        (N_holds : records N ≡ upper) where
      abbrev N2 : Frame
      N2 = set_next N (next F)

      abbrev G2 : Frame
      G2 = set_next L.half (some to)

      abbrev linked : HourFile
      linked = put_frame (put_frame (put_frame h2 to N) to N2) g G2

      abbrev placed : HourFile
      placed = mark_dirty (record linked { tail = tail_after (next F) to linked.tail }) to

      abbrev after : HourFile
      after =
          move_upper (mark_dirty placed g) h1.cells (at_place g i) (length entry) (halves_at i b m)
            to

      chain_apart : (id : FrameId) → has_frame v id ≡ true → same_frame id to ≡ false
      chain_apart id k = elim (Bool-cases (same_frame id to)) [
        | inl e ↦
            let (f, id_reads) = reads_of_Leads (read_frame h) (some head) v none id repr.leads k in
            elim (Bool-cases (same_frame id g)) [
              | inl j ↦ absurd (
                  A.fresh L.half
                    (sym (ap (read_frame hS) (same_frame→eq id to e)) ∙ reads_lower id ∙ rw j refl))
              | inr j ↦ absurd (
                  A.fresh f (
                    sym (ap (read_frame hS) (same_frame→eq id to e))
                    ∙ reads_lower id
                    ∙ rw j id_reads))
            ]
        | inr e ↦ e
      ]

      apart : same_frame g to ≡ false
      apart = chain_apart g (has_frame_last v1 v2 g r)

      absent : has_frame v to ≡ false
      absent = elim (Bool-cases (has_frame v to)) [
        | inl e ↦ absurd (ground (arith, chain_apart to e, same_frame_refl to))
        | inr e ↦ e
      ]

      new_in_memory : h2.frames to ≡ some new
      new_in_memory =
          ap (λ (x : HourFile). x.frames to) A.is_put
          ∙ in_memory_put (record hS { data_files = h2.data_files }) to new

      half_in_memory : (put_frame (put_frame h2 to N) to N2).frames g ≡ some L.half
      half_in_memory = in_memory_still (put_frame h2 to N) to g N2 L.half apart (
          in_memory_still h2 to g N L.half apart (
            ap (λ (x : HourFile). x.frames g) A.is_put
            ∙ in_memory_still (record hS { data_files = h2.data_files }) to g new L.half apart
                (L.frames_are g ∙ rw (same_frame_refl g) refl)))

      place_upper_is :
          allocate_frame hS ≡ ok (to, h2) → place_upper hS g upper none (next F) ≡ ok (to, placed)
      unfolding place_upper
      place_upper_is e =
          rw
            (
              e,
              insert_bytes_lem h2 to new N 11 upper new_in_memory put,
              link_frame_lem (put_frame h2 to N) to N (next F) (in_memory_put h2 to N),
              link_frame_lem (put_frame (put_frame h2 to N) to N2) g L.half (some to)
                  half_in_memory,
            )
            refl

      after_reads :
          (x : FrameId)
          → read_frame after x
            ≡ (if same_frame x g then ok G2 else if same_frame x to then ok N2 else read_frame h x)
      after_reads x =
          let same : read_frame after x ≡ read_frame linked x =
            (unfold read_frame read_frame_from_disk move_upper mark_dirty in refl) in
          same
          ∙ read_frame-put_frame (put_frame (put_frame h2 to N) to N2) g G2 x
          ∙ ap (λ k. if same_frame x g then ok G2 else k) (read_frame-put_two h2 to to N N2 x)
          ∙ elim (Bool-cases (same_frame x g)) [
            | inl k ↦ rw k refl
            | inr k ↦ elim (Bool-cases (same_frame x to)) [
              | inl j ↦ rw (k, j) refl
              | inr j ↦ rw (k, j) (A.reads x ∙ rw j (reads_lower x ∙ rw k refl))
            ]
          ]

      known_after :
          (id : FrameId) (f : Frame)
          → read_frame after id ≡ ok f
          → (f' : Frame) × (read_frame h2 id ≡ ok f')
      known_after id f e = elim (Bool-cases (same_frame id to)) [
        | inl k ↦ (new, A.reads id ∙ rw k refl)
        | inr k ↦ elim (Bool-cases (same_frame id g)) [
          | inl j ↦ (L.half, A.reads id ∙ rw k (reads_lower id ∙ rw j refl))
          | inr j ↦ (
            f,
            A.reads id ∙ rw k (reads_lower id ∙ rw j (rw (j, k) at (sym (after_reads id) ∙ e))),
          )
        ]
      ]

      after-IsSound : IsSound after
      after-IsSound =
          IsSound-after h2 after A.sound (unfold move_upper mark_dirty put_frame in refl)
            (unfold move_upper mark_dirty put_frame in refl) known_after

      after_cells :
          after.cells.cells
          ≡ map
              (halved_cell (at_place g i) (length entry) (halves_at i b m) to none (length upper))
              h.cells.cells
      unfolding move_upper mark_dirty put_frame
      after_cells =
          ap
            (λ l.
              set_moved (is_moved g (frame_header_len + b))
                (to_upper (at_place g i) (length entry) (halves_at i b m) to) h.cells.cells l)
            (ap (λ (x : HourFile). x.cells.cells) A.is_put ∙ L.cells_are)
          ∙ ap
              (set_moved (is_moved g (frame_header_len + b))
                (to_upper (at_place g i) (length entry) (halves_at i b m) to) h.cells.cells)
              (sym (map-id (map stage h.cells.cells)))
          ∙ cells-halved h.cells.cells g to i b (length entry) m (length upper) none

      after-SameRest : SameRest h after
      unfolding move_upper mark_dirty put_frame
      after-SameRest = (
        ap (λ (x : HourFile). x.cells.counts) A.is_put ∙ L.rest_is.0,
        ap (λ (x : HourFile). x.last_second) A.is_put ∙ L.rest_is.1,
      )

      tail_of :
          (w : View)
          → Leads (read_frame h) (next F) w none
          → h.tail ≡ last_id (v1 ++ ((g, r) ∷ w))
          → tail_after (next F) to h.tail ≡ last_id (v1 ++ ((g, lower) ∷ (to, upper ++ []) ∷ w))
      unfolding tail_after
      tail_of [] l tail_is = rw l (sym (last_id-grow_end v1 g to lower (upper ++ [])))
      tail_of ((k, s) ∷ w) (mid, e, f, rest) tail_is =
          rw e (tail_is ∙ sym (last_id-grow v1 w g to k r lower (upper ++ []) s))

      after_tail : after.tail ≡ last_id (v1 ++ ((g, lower) ∷ (to, upper ++ []) ∷ v2))
      unfolding move_upper mark_dirty put_frame
      after_tail =
          ap (tail_after (next F) to) (ap (λ (x : HourFile). x.tail) A.is_put ∙ L.tail_is)
          ∙ tail_of v2
              (let (mid, first, valid, holds, names, rest) =
                  frame_of_chain h v1 v2 g r repr F reads in
                subst (λ k. Leads (read_frame h) k v2 none) (sym names) rest)
              repr.tail_is

      after-Leads :
          Leads (read_frame after) (some head) (v1 ++ ((g, lower) ∷ (to, upper ++ []) ∷ v2)) none
      after-Leads =
          let (N2_valid, N2_holds, N2_names) = relinked N (next F) N_valid next_links in
          let (G2_valid, G2_holds, G2_names) = relinked L.half (some to) L.valid to_links in
          Leads-grow h v1 v2 g r repr F reads to chain_apart (read_frame after) G2 N2 lower
            (upper ++ []) after_reads G2_valid (G2_holds ∙ L.holds) G2_names N2_valid
            (N2_holds ∙ N_holds ∙ rw append-nil refl) N2_names
        where
          to_links : (id : FrameId) → some to ≡ some id → IsLink id × (same_frame id head ≡ false)
          to_links id e =
              let same : to ≡ id = (cc (e)) in
              (
                subst IsLink same A.link,
                subst (λ k. same_frame k head ≡ false) same
                    (not_head h v to repr.leads chain_apart),
              )

      absent_behind : has_frame v2 to ≡ false
      absent_behind =
          unfold has_frame in ground (arith, absent, has_frame-append v1 ((g, r) ∷ v2) to)

      stays :
          (c : Cell)
          → has_frame ((g, r) ∷ v2) c.frame ≡ false
          → halved_cell (at_place g i) (length entry) (halves_at i b m) to none (length upper) c ≡ c
      stays c k =
          halved_cell_stays g to i b (length entry) m (length upper) none c
            (unfold has_frame in ground (arith, k, same_frame_sym c.frame g))
            (λ id e. absurd (ground (arith, e)))

      new_frame_Put :
          length r ≤ frame_capacity
          → Put h v entry
              (length (flat v1) + i)
              (entry_cell (at_place g i) (halves_at i b m) to)
              after
              (v1 ++ ((g, lower) ∷ (to, upper ++ []) ∷ v2))
      new_frame_Put r_small =
          let (mid, front, others) =
            Leads-split (read_frame h) (some head) none v1 ((g, r) ∷ v2) repr.leads in
          let distinct : Distinct (v1 ++ ((g, lower) ∷ (to, upper ++ []) ∷ v2)) =
            Distinct-grow v1 v2 g to r lower (upper ++ []) repr.distinct absent in
          let m' : Cell → Cell =
            halved_cell (at_place g i) (length entry) (halves_at i b m) to none (length upper) in
          Put-of_Inserted h after v (v1 ++ ((g, lower) ∷ (to, upper ++ []) ∷ v2)) entry
            (length (flat v1) + i) (entry_cell (at_place g i) (halves_at i b m) to) m' repr
            (Inserted-append v1 m' stays repr.distinct distinct (
              Inserted-into_new g to apart i b entry r inside boundary_inside r_small entry_fits m
                v2 absent_behind (Leads-InFrames h mid none ((g, r) ∷ v2) others)))
            (EntryAt-append v1 ((g, lower) ∷ (to, upper ++ []) ∷ v2)
              (entry_cell (at_place g i) (halves_at i b m) to) i (length entry)
              (entry_cell_absent v1 g to i b m (absent_before v1 v2 g r repr.distinct)
                (absent_front v1 ((g, r) ∷ v2) to absent))
              (entry_in_halves g to i b m entry r [] v2 apart some_bytes inside (omega arith)
                at_inside))
            after_cells (λ c e. halved_cell_fixed g to i b (length entry) m (length upper) none c e)
            after-IsSound after-Leads distinct after_tail after-SameRest

  pub halve_new-Outcome :
      at ≤ frame_capacity
      → length upper ≤ frame_capacity
      → Outcome h v entry
          (length (flat v1) + i)
          (halve_at h1 (at_place g i) entry (halves_at i b m) none (next F))
  unfolding halve_at
  halve_new-Outcome lower_fits upper_fits =
      let (to', first, valid, holds, names, rest) = frame_of_chain h v1 v2 g r repr F reads in
      let (hS, split, L) =
        split_lower_lem h1 g F r valid holds in_memory i b m entry inside boundary_inside
          lower_fits in
      let (N, put, N_holds, N_last, N_valid) = filled upper upper_fits in
      let r_small : length r ≤ frame_capacity =
        omega (arith, length-records valid, ap length holds, valid.fits) in
      rw split (elim (allocate_frame_lem hS (IsSound-lower hS L)) [
        | inl e ↦ rw (refused hS e) tt
        | inr (to, h2, e, A) ↦ rw (place_upper_is hS L to h2 A N put N_valid N_holds e) (
          v1 ++ ((g, lower) ∷ (to, upper ++ []) ∷ v2),
          new_frame_Put hS L to h2 A N put N_valid N_holds r_small,
        )
      ])
    where
      refused :
          (hS : HourFile)
          → allocate_frame hS ≡ err too_many_files
          → place_upper hS g upper none (next F) ≡ err too_many_files
      refused hS e = unfold place_upper in rw e refl
