-- ===== src/Storage/HourFile/HalveAll.antt =====
-- `halve_and_insert` of hour_file.rs as a whole: the entry goes in, or the insert is refused.
use my_telemetry_server.Base.{
  ℕ, ◌+◌, ◌-◌, ◌≤◌, ◌<◌, ◌≡◌, refl, sym, ap, subst, ◌∙◌, arith, leb, ltb, ◌==◌, if◌then◌else◌, ◌||◌,
  Option, none, some, List, [], ◌∷◌, ◌++◌, length, drop, length-drop, Bool-cases, leb→le, inl, inr,
}
use my_telemetry_server.Base.Result.{Result, ok, err, ◌>>=◌, Result-cases}
use my_telemetry_server.Storage.Varint.{Varint}
use my_telemetry_server.Storage.Frame.{
  Frame, FrameId, frame_header_len, frame_capacity, free, used, records_end, next,
}
use my_telemetry_server.Storage.Frame.Records.{length-records}
use my_telemetry_server.Storage.Cells.{Cell}
use my_telemetry_server.Storage.HourFile.{
  HourFile, HourError, read_frame, frame_in_memory, or_panic, room_for_frames,
}
use my_telemetry_server.Storage.HourFile.Insert.{
  Halves, halve_at, halve_and_insert, halves_of, into_next_of, has_room, read_next, check_room,
  boundary_of,
}
use my_telemetry_server.Storage.HourFile.View.{View, flat, put_at, length-put_at}
use my_telemetry_server.Storage.HourFile.Moves.{at_place, halves_at, boundary_with}
use my_telemetry_server.Storage.HourFile.State.{frame_lem}
use my_telemetry_server.Storage.HourFile.Puts.{Represents, Outcome, IsRefusal}
use my_telemetry_server.Storage.HourFile.PutHere.{frame_of_chain}
use my_telemetry_server.Storage.HourFile.HalveNext.{halve_next-Outcome}
use my_telemetry_server.Storage.HourFile.HalveNew.{halve_new-Outcome}
use my_telemetry_server.Storage.HourFile.Boundary.{boundary_of-Outcome, BoundaryOutcome}

-- The lengths of the halves, as `halves_of` tests them.
module _ (F : Frame) (g : FrameId) (i b : ℕ) (entry r : List ℕ) (is_used : used F ≡ length r)
    (inside : i ≤ length r) (boundary_inside : b ≤ length r) where
  abbrev upper_len : ℕ
  upper_len =
      records_end F
      - (frame_header_len + b)
      + (if leb (frame_header_len + i) (frame_header_len + b) then 0 else length entry)

  abbrev at : ℕ
  at = boundary_with i b (length entry)

  upper_len_is : upper_len ≡ length (drop at (put_at i entry r))
  unfolding records_end
  upper_len_is =
      ground (arith, length-drop at (put_at i entry r), length-put_at i entry r inside, is_used)

  pub data Tested : Result HourError Halves → Type 0 where
    refused : (e : HourError) → IsRefusal e → Tested (err e)
    fit :
        at ≤ frame_capacity
        → length (drop at (put_at i entry r)) ≤ frame_capacity
        → Tested (ok (halves_at i b (length (drop at (put_at i entry r)))))

  pub halves_of_lem : Tested (halves_of F (at_place g i) (length entry) (frame_header_len + b))
  unfolding halves_of
  halves_of_lem =
      elim (Bool-cases (
        ltb frame_capacity (
          frame_header_len
          + b
          - frame_header_len
          + (if leb (frame_header_len + i) (frame_header_len + b) then length entry else 0))
        || ltb frame_capacity upper_len)) [
          | inl k ↦ rw k (refused (HourError.fits_neither (length entry) g) tt)
          | inr k ↦ rw (k, upper_len_is) (fit (ground (arith, k)) (ground (arith, k, upper_len_is)))
        ]

module _ (varint : Varint) (h : HourFile) (v1 v2 : View) (g : FrameId) (r : List ℕ)
    (repr : Represents h (v1 ++ ((g, r) ∷ v2))) (F : Frame) (reads : read_frame h g ≡ ok F) (i : ℕ)
    (entry : List ℕ) (some_bytes : 0 < length entry) (entry_fits : length entry ≤ frame_capacity)
    (inside : i ≤ length r) where
  abbrev Done : Result HourError (Cell × HourFile) → Type 0
  Done = Outcome h (v1 ++ ((g, r) ∷ v2)) entry (length (flat v1) + i)

  -- From the choice of the frame the upper half goes into.
  abbrev from_room : HourFile → Halves → Result HourError (Cell × HourFile)
  from_room h2 halves = into_next_of h2 halves.upper_len (next F) >>= λ into_next.
      check_room h2 into_next >>= λ _. halve_at h2 (at_place g i) entry halves into_next (next F)

  is_used : used F ≡ length r
  is_used =
      let (to, first, valid, holds, names, rest) = frame_of_chain h v1 v2 g r repr F reads in
      omega (arith, length-records valid, ap length holds)

  -- From the choice of the boundary.
  from_boundary :
      (h2 : HourFile)
      → ((b : ℕ)
          → b ≤ length r
          → boundary_with i b (length entry) ≤ frame_capacity
          → length (drop (boundary_with i b (length entry)) (put_at i entry r)) ≤ frame_capacity
          → Done (
              from_room h2 (
                halves_at i b
                  (length (drop (boundary_with i b (length entry)) (put_at i entry r))))))
      → Done (
          boundary_of varint F g >>= λ boundary.
          halves_of F (at_place g i) (length entry) boundary >>= λ halves. from_room h2 halves)
  from_boundary h2 room = elim (Result-cases (boundary_of varint F g)) [
    | inr (e, eq) ↦ rw eq (subst (BoundaryOutcome F) eq (boundary_of-Outcome varint F g))
    | inl (boundary, eq) ↦
        let (lo, hi) = subst (BoundaryOutcome F) eq (boundary_of-Outcome varint F g) in
        let b : ℕ = boundary - frame_header_len in
        let is : boundary ≡ frame_header_len + b = omega (arith, lo) in
        let b_inside : b ≤ length r = (unfold records_end in omega (arith, hi, is_used)) in
        rw (eq, is)
          (tested b b_inside (halves_of F (at_place g i) (length entry) (frame_header_len + b))
            (halves_of_lem F g i b entry r is_used inside b_inside))
  ]
    where
      tested :
          (b : ℕ) (b_inside : b ≤ length r) (R : Result HourError Halves)
          → Tested F g i b entry r is_used inside b_inside R
          → Done (R >>= λ halves. from_room h2 halves)
      tested b b_inside _ (Tested.refused e refusal) = refusal
      tested b b_inside _ (Tested.fit lower_fits upper_fits) = room b b_inside lower_fits upper_fits

  module _ (fs : FrameId → Option Frame) (in_memory : fs g ≡ some F)
      (kept : (at : FrameId) → read_frame (record h { frames = fs }) at ≡ read_frame h at) (b : ℕ)
      (b_inside : b ≤ length r) (lower_fits : boundary_with i b (length entry) ≤ frame_capacity)
      (upper_fits : length (drop (boundary_with i b (length entry)) (put_at i entry r))
        ≤ frame_capacity) where
    abbrev h2 : HourFile
    h2 = record h { frames = fs }

    abbrev m : ℕ
    m = length (drop (boundary_with i b (length entry)) (put_at i entry r))

    -- Into a new frame, when the files have room for one.
    room_new : Done (
        check_room h2 none >>= λ _.
        halve_at h2 (at_place g i) entry (halves_at i b m) none (next F))
    unfolding check_room
    room_new = elim (Bool-cases (room_for_frames h2 == 0)) [
      | inl k ↦ rw k tt
      | inr k ↦ rw k (
          halve_new-Outcome h v1 v2 g r repr F reads fs in_memory kept i b m entry some_bytes
            entry_fits inside b_inside lower_fits upper_fits)
    ]

    room_end : next F ≡ none → Done (from_room h2 (halves_at i b m))
    unfolding into_next_of
    room_end last =
        let done : Done (
            check_room h2 none >>= λ _.
            halve_at h2 (at_place g i) entry (halves_at i b m) none none) =
          subst
            (λ o. Done (
              check_room h2 none >>= λ _.
              halve_at h2 (at_place g i) entry (halves_at i b m) none o))
            last room_new in
        rw last done

module _ (varint : Varint) (h : HourFile) (v1 : View) (g : FrameId) (r : List ℕ) (i : ℕ)
    (entry : List ℕ) (some_bytes : 0 < length entry) (entry_fits : length entry ≤ frame_capacity)
    (inside : i ≤ length r) (F : Frame) (reads : read_frame h g ≡ ok F)
    (fs : FrameId → Option Frame) (in_memory : fs g ≡ some F)
    (kept : (at : FrameId) → read_frame (record h { frames = fs }) at ≡ read_frame h at) where
  in_memory_is : frame_in_memory (record h { frames = fs }) g ≡ ok F
  unfolding frame_in_memory or_panic
  in_memory_is = rw in_memory refl

  room_next :
      (to : FrameId) (s : List ℕ) (v3 : View) (repr : Represents h (v1 ++ ((g, r) ∷ (to, s) ∷ v3)))
      → next F ≡ some to
      → (T : Frame) → read_frame h to ≡ ok T
      → (fs2 : FrameId → Option Frame) → fs2 g ≡ some F
      → fs2 to ≡ some T
      → ((at : FrameId) → read_frame (record h { frames = fs2 }) at ≡ read_frame h at)
      → (b : ℕ) → b ≤ length r
      → boundary_with i b (length entry) ≤ frame_capacity
      → length (drop (boundary_with i b (length entry)) (put_at i entry r)) ≤ frame_capacity
      → Outcome h (v1 ++ ((g, r) ∷ (to, s) ∷ v3)) entry (length (flat v1) + i) (
          from_room varint h v1
            ((to, s) ∷ v3)
            g
            r
            repr
            F
            reads
            i
            entry
            some_bytes
            entry_fits
            inside
            (record h { frames = fs2 })
            (halves_at i b (length (drop (boundary_with i b (length entry)) (put_at i entry r)))))
  room_next to s v3 repr names T T_reads fs2 g_memory to_memory kept2 b b_inside lower_fits
        upper_fits =
      let h2 : HourFile = record h { frames = fs2 } in
      let m : ℕ = length (drop (boundary_with i b (length entry)) (put_at i entry r)) in
      let into_is : into_next_of h2 m (next F) ≡ ok (if leb m (free T) then some to else none) =
        ap (into_next_of h2 m) names
        ∙ (unfold into_next_of has_room frame_in_memory or_panic in rw to_memory refl) in
      elim (Bool-cases (leb m (free T))) [
        | inl k ↦
            rw (into_is, k)
              (unfold check_room in
                subst
                  (λ o.
                    Outcome h (v1 ++ ((g, r) ∷ (to, s) ∷ v3)) entry (length (flat v1) + i)
                      (halve_at h2 (at_place g i) entry (halves_at i b m) (some to) o))
                  (sym names)
                  (halve_next-Outcome h v1 v3 g to r s repr F T reads T_reads fs2 g_memory to_memory
                    kept2 i b m entry some_bytes entry_fits inside b_inside lower_fits
                    (leb→le _ _ k)))
        | inr k ↦
            rw (into_is, k)
              (room_new varint h v1 ((to, s) ∷ v3) g r repr F reads i entry some_bytes entry_fits
                inside fs2 g_memory kept2 b b_inside lower_fits upper_fits)
      ]

  pub halve_and_insert-Outcome :
      (v2 : View) (repr : Represents h (v1 ++ ((g, r) ∷ v2)))
      → Outcome h
          (v1 ++ ((g, r) ∷ v2))
          entry
          (length (flat v1) + i)
          (halve_and_insert varint (record h { frames = fs }) (at_place g i) entry)
  halve_and_insert-Outcome [] repr =
      let (mid, first, valid, holds, names, rest) = frame_of_chain h v1 [] g r repr F reads in
      let last : next F ≡ none = names ∙ rest in
      let h1 : HourFile = record h { frames = fs } in
      let read_is : read_next h1 (next F) ≡ ok h1 =
        ap (read_next h1) last ∙ (unfold read_next in refl) in
      unfold halve_and_insert in
      rw (in_memory_is, read_is)
        (from_boundary varint h v1 [] g r repr F reads i entry some_bytes entry_fits inside h1
          (λ b b_inside lower_fits upper_fits.
            room_end varint h v1 [] g r repr F reads i entry some_bytes entry_fits inside fs
              in_memory kept b b_inside lower_fits upper_fits last))
  halve_and_insert-Outcome ((to, s) ∷ v3) repr =
      let (mid, first, valid, holds, names, rest) =
        frame_of_chain h v1 ((to, s) ∷ v3) g r repr F reads in
      let (mid2, e, f, rest2) = rest in
      let next_is : next F ≡ some to = names ∙ e in
      let h1 : HourFile = record h { frames = fs } in
      let (fs2, eq, to_memory, kept2, keep) = frame_lem h1 to f.frame (kept to ∙ f.reads) in
      let read_is : read_next h1 (next F) ≡ ok (record h { frames = fs2 }) =
        ap (read_next h1) next_is ∙ (unfold read_next in rw eq refl) in
      unfold halve_and_insert in
      rw (in_memory_is, read_is)
        (from_boundary varint h v1 ((to, s) ∷ v3) g r repr F reads i entry some_bytes entry_fits
          inside (record h { frames = fs2 })
          (λ b b_inside lower_fits upper_fits.
            room_next to s v3 repr next_is f.frame f.reads fs2 (keep g F in_memory) to_memory
              (λ at. kept2 at ∙ kept at) b b_inside lower_fits upper_fits))
