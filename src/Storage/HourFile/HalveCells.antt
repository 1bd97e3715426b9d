-- ===== src/Storage/HourFile/HalveCells.antt =====
-- `halve_and_insert` of hour_file.rs: what its loops over the cells do together, and where the entry is.
use my_telemetry_server.Base.{
  ℕ, ◌+◌, ◌-◌, ◌≤◌, ◌<◌, ◌^◌, ◌≡◌, refl, sym, ap, ◌∙◌, arith, leb, true, false, Option, some, List,
  [], ◌∷◌, ◌++◌, map, length, take, drop, Bool-cases, leb→le, leb_false→lt, inl, inr,
}
use mathlib.Core.List.{map-map}
use my_telemetry_server.Storage.Frame.{FrameId, same_frame, frame_header_len}
use my_telemetry_server.Storage.Cells.{Cell}
use my_telemetry_server.Storage.HourFile.{to_cell}
use my_telemetry_server.Storage.HourFile.Insert.{entry_cell, is_moved, to_upper, set_moved}
use my_telemetry_server.Storage.HourFile.View.{
  View, has_frame, is_inside, put_at, same_frame_refl, same_frame_sym, inside_first, place_first,
  length-put_at,
}
use my_telemetry_server.Storage.HourFile.Halves.{Same-split, split_cell}
use my_telemetry_server.Storage.HourFile.Moves.{
  at_place, halves_at, boundary_with, lower_stage, next_stage, staged, halved_cell, set_moved-map,
  halved_cell_stays,
}
use my_telemetry_server.Storage.HourFile.Chain.{
  Distinct, Distinct-right, Distinct-replace, EntryAt, apart_of_Distinct,
}
use my_telemetry_server.Storage.HourFile.Puts.{last_id}

-- The cell of the entry is where the split takes the place it was put in at.
pub entry_cell_lem :
    (g to : FrameId) (i b n m : ℕ) (r : List ℕ)
    → same_frame g to ≡ false
    → 0 < n
    → i < 2 ^ 31
    → entry_cell (at_place g i) (halves_at i b m) to
      ≡ split_cell g to
          (boundary_with i b n)
          r
          (record { frame = g; offset = frame_header_len + i })
unfolding entry_cell to_cell
entry_cell_lem g to i b n m r apart some_bytes small =
    rw (same_frame_refl g) (elim (Bool-cases (leb (frame_header_len + i) (frame_header_len + b))) [
      | inl k ↦ rw k (ground (arith, leb→le _ _ k))
      | inr k ↦ rw k (ground (arith, leb_false→lt _ _ k))
    ])

-- The last byte of the entry is in the half of its first one.
last_in_half :
    (g to : FrameId) (i b n : ℕ) (r : List ℕ) (c : Cell)
    → 0 < n
    → c
      ≡ split_cell g to
          (boundary_with i b n)
          r
          (record { frame = g; offset = frame_header_len + i })
    → split_cell g to
        (boundary_with i b n)
        r
        (record { frame = g; offset = frame_header_len + (i + n - 1) })
      ≡ record { frame = c.frame; offset = c.offset + n - 1 }
last_in_half g to i b n r c some_bytes is = rw is (
    rw (same_frame_refl g) (elim (Bool-cases (leb (frame_header_len + i) (frame_header_len + b))) [
      | inl k ↦ rw k (ground (arith, leb→le _ _ k, some_bytes))
      | inr k ↦ rw k (ground (arith, leb_false→lt _ _ k, some_bytes))
    ]))

pub entry_in_halves :
    (g to : FrameId) (i b m : ℕ) (entry r s : List ℕ) (v : View)
    → same_frame g to ≡ false
    → 0 < length entry
    → i ≤ length r
    → length r < 2 ^ 31
    → boundary_with i b (length entry) ≤ length (put_at i entry r)
    → EntryAt
        ((g, take (boundary_with i b (length entry)) (put_at i entry r))
          ∷ (to, drop (boundary_with i b (length entry)) (put_at i entry r) ++ s)
          ∷ v)
        (entry_cell (at_place g i) (halves_at i b m) to)
        i
        (length entry)
entry_in_halves g to i b m entry r s v apart some_bytes inside small at_inside =
    let whole : List ℕ = put_at i entry r in
    let c : Cell = record { frame = g; offset = frame_header_len + i } in
    let there : is_inside ((g, whole) ∷ (to, s) ∷ v) g (frame_header_len + i) ≡ true =
      inside_first g g whole ((to, s) ∷ v) (frame_header_len + i) (same_frame_refl g) (omega arith)
        (omega (arith, length-put_at i entry r inside)) in
    let (in_split, place_is) =
      (Same-split g to apart whole s v (boundary_with i b (length entry)) at_inside).cells_are c
        there in
    let at : ℕ = boundary_with i b (length entry) in
    let last : Cell = record { frame = g; offset = frame_header_len + (i + length entry - 1) } in
    let last_in_split = (Same-split g to apart whole s v at at_inside).cells_are last (
      inside_first g g whole ((to, s) ∷ v) (frame_header_len + (i + length entry - 1))
        (same_frame_refl g) (omega arith)
        (omega (arith, length-put_at i entry r inside, some_bytes))) in
    rw (entry_cell_lem g to i b (length entry) m whole apart some_bytes (omega arith)) (record {
      inside = in_split;
      last_inside =
          ap
            (λ (x : Cell).
              is_inside ((g, take at whole) ∷ (to, drop at whole ++ s) ∷ v) x.frame x.offset)
            (sym (
              last_in_half g to i b (length entry) whole (split_cell g to at whole c) some_bytes
                refl))
          ∙ last_in_split.0;
      place_is =
          place_is
          ∙ place_first g g whole ((to, s) ∷ v) (frame_header_len + i) (same_frame_refl g)
          ∙ omega arith;
    })

pub Distinct-halves :
    (v1 v3 : View) (g to : FrameId) (r s t u : List ℕ)
    → Distinct (v1 ++ ((g, r) ∷ (to, s) ∷ v3))
    → Distinct (v1 ++ ((g, t) ∷ (to, u) ∷ v3))
unfolding has_frame
Distinct-halves v1 v3 g to r s t u d =
    Distinct-replace v1 ((g, r) ∷ (to, s) ∷ v3) ((g, t) ∷ (to, u) ∷ v3) d
      (Distinct-right v1 ((g, r) ∷ (to, s) ∷ v3) d)
      (λ id h. apart_of_Distinct v1 ((g, r) ∷ (to, s) ∷ v3) id d h)

pub last_id-halves :
    (v1 v3 : View) (g to : FrameId) (r s t u : List ℕ)
    → last_id (v1 ++ ((g, r) ∷ (to, s) ∷ v3)) ≡ last_id (v1 ++ ((g, t) ∷ (to, u) ∷ v3))
last_id-halves [] [] g to r s t u = refl
last_id-halves [] (e ∷ v3) g to r s t u = refl
last_id-halves (e ∷ []) v3 g to r s t u = last_id-halves [] v3 g to r s t u
last_id-halves (e ∷ k ∷ v1) v3 g to r s t u = last_id-halves (k ∷ v1) v3 g to r s t u

-- All the loops over the cells, one after another.
pub cells-halved :
    (cs : List Cell) (g to : FrameId) (i b n m' m : ℕ)
    → (into_next : Option FrameId)
    → set_moved
        (is_moved g (frame_header_len + b))
        (to_upper (at_place g i) n (halves_at i b m') to)
        cs
        (map (next_stage into_next m) (
          map
            (lower_stage
              (leb (frame_header_len + i) (frame_header_len + b))
              (at_place g i)
              (frame_header_len + b)
              n)
            cs))
      ≡ map (halved_cell (at_place g i) n (halves_at i b m') to into_next m) cs
cells-halved cs g to i b n m' m into_next =
    ap
      (set_moved (is_moved g (frame_header_len + b))
        (to_upper (at_place g i) n (halves_at i b m') to) cs)
      (map-map (next_stage into_next m)
        (lower_stage (leb (frame_header_len + i) (frame_header_len + b)) (at_place g i)
          (frame_header_len + b) n)
        cs)
    ∙ set_moved-map (is_moved g (frame_header_len + b))
        (to_upper (at_place g i) n (halves_at i b m') to)
        (staged (at_place g i) n (halves_at i b m') into_next m) cs

-- The entry is in one of the two frames.
pub entry_cell_absent :
    (v : View) (g to : FrameId) (i b m : ℕ)
    → has_frame v g ≡ false
    → has_frame v to ≡ false
    → has_frame v (entry_cell (at_place g i) (halves_at i b m) to).frame ≡ false
unfolding entry_cell to_cell
entry_cell_absent v g to i b m no_g no_to =
    elim (Bool-cases (leb (frame_header_len + i) (frame_header_len + b))) [
      | inl k ↦ rw k no_g
      | inr k ↦ rw k no_to
    ]

pub halved_stays :
    (g to : FrameId) (i b n m' m : ℕ) (into_next : Option FrameId) (r s : List ℕ) (v : View)
    (c : Cell)
    → ((id : FrameId) → into_next ≡ some id → id ≡ to)
    → has_frame ((g, r) ∷ (to, s) ∷ v) c.frame ≡ false
    → halved_cell (at_place g i) n (halves_at i b m') to into_next m c ≡ c
halved_stays g to i b n m' m into_next r s v c is_to k =
    halved_cell_stays g to i b n m' m into_next c
      (unfold has_frame in ground (arith, k, same_frame_sym c.frame g))
      (λ id e. rw (is_to id e) (unfold has_frame in ground (arith, k, same_frame_sym c.frame to)))
