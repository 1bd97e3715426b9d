-- ===== src/Storage/HourFile/Edits.antt =====
-- What the edits of one frame of a chain do to the bytes of the chain and to the places of its cells.
use my_telemetry_server.Base.{
  ℕ, ◌+◌, ◌-◌, ◌≤◌, ◌<◌, ◌^◌, ◌≡◌, refl, sym, ap, ◌∙◌, arith, leb, true, false, List, [], ◌∷◌, ◌++◌,
  length, Bool-cases, leb→le, leb_false→lt, inl, inr, length-append,
}
use my_telemetry_server.Storage.Frame.{FrameId, frame_header_len, same_frame}
use my_telemetry_server.Storage.Cells.{Cell}
use my_telemetry_server.Storage.HourFile.{Position}
use my_telemetry_server.Storage.HourFile.Insert.{moved_up}
use my_telemetry_server.Storage.HourFile.View.{
  View, flat, inside_first, bounds_first, place_first, inside_later, place_later, shifted_up,
  shifted_stays, place_of, is_inside, Inserted, put_at, length-put_at, put_at-append_left,
  put_at-append_right, same_frame_sym,
}

pub moved_up_away :
    (place : Position) (n : ℕ) (c : Cell)
    → same_frame c.frame place.frame ≡ false
    → moved_up place n c ≡ c
unfolding moved_up
moved_up_away place n c e = rw e

pub moved_up_before :
    (place : Position) (n : ℕ) (c : Cell) → c.offset < place.offset → moved_up place n c ≡ c
unfolding moved_up
moved_up_before place n c h = ground arith

pub moved_up_from :
    (place : Position) (n : ℕ) (c : Cell)
    → same_frame c.frame place.frame ≡ true
    → place.offset ≤ c.offset
    → c.offset + n < 2 ^ 32
    → moved_up place n c ≡ record { frame = c.frame; offset = c.offset + n }
unfolding moved_up
moved_up_from place n c e le lt = rw e (ground arith)

-- The entry goes into a frame which has room for it.
pub Inserted-here :
    (g : FrameId) (r : List ℕ) (v : View) (entry : List ℕ) (i : ℕ)
    → i ≤ length r
    → length r + length entry < 2 ^ 31
    → Inserted
        ((g, r) ∷ v)
        entry
        i
        (moved_up (record { frame = g; offset = frame_header_len + i }) (length entry))
        ((g, put_at i entry r) ∷ v)
Inserted-here g r v entry i inside fits = record {
  inside = omega (arith, length-append r (flat v));
  flat_is = put_at-append_left i entry r (flat v) inside;
  cells_are = λ c h. elim (Bool-cases (same_frame g c.frame)) [
    | inl e ↦
        let (lo, hi) = bounds_first g c.frame r v c.offset e h in
        let len : length (put_at i entry r) ≡ length r + length entry =
          length-put_at i entry r inside in
        elim (Bool-cases (leb (frame_header_len + i) c.offset)) [
          | inl b ↦
              let le : frame_header_len + i ≤ c.offset = leb→le _ _ b in
              rw
                (moved_up_from (record { frame = g; offset = frame_header_len + i }) (length entry)
                  c (same_frame_sym c.frame g ∙ e) le (omega arith))
                (
                  inside_first g c.frame (put_at i entry r) v (c.offset + length entry) e
                      (omega arith) (omega arith),
                  rw
                      (
                        place_first g c.frame (put_at i entry r) v (c.offset + length entry) e,
                        place_first g c.frame r v c.offset e,
                        shifted_up i (length entry) (c.offset - frame_header_len) (omega arith),
                      )
                      (omega arith),
                )
          | inr b ↦
              let lt : c.offset < frame_header_len + i = leb_false→lt _ _ b in
              rw
                (moved_up_before (record { frame = g; offset = frame_header_len + i })
                  (length entry) c lt)
                (
                  inside_first g c.frame (put_at i entry r) v c.offset e lo (omega arith),
                  rw
                      (
                        place_first g c.frame (put_at i entry r) v c.offset e,
                        place_first g c.frame r v c.offset e,
                        shifted_stays i (length entry) (c.offset - frame_header_len) (omega arith),
                      )
                      refl,
                )
        ]
    | inr e ↦
        rw
          (moved_up_away (record { frame = g; offset = frame_header_len + i }) (length entry) c
            (same_frame_sym c.frame g ∙ e))
          (
            inside_later g c.frame (put_at i entry r) v c.offset e
                ∙ sym (inside_later g c.frame r v c.offset e)
                ∙ h,
            rw
                (
                  place_later g c.frame (put_at i entry r) v c.offset e,
                  place_later g c.frame r v c.offset e,
                  shifted_up i (length entry) (length r + place_of v c.frame c.offset)
                      (omega arith),
                )
                (omega (arith, length-put_at i entry r inside)),
          )
  ];
}

-- The entry goes into a new frame at the end of the chain.
pub Inserted-after :
    (g to : FrameId) (r entry : List ℕ)
    → same_frame g to ≡ false
    → Inserted ((g, r) ∷ []) entry (length r) (λ c. c) ((g, r) ∷ (to, entry) ∷ [])
Inserted-after g to r entry apart = record {
  inside = omega (arith, length-append r []);
  flat_is =
      unfold put_at in
      (put_at-append_right 0 entry r [] ∙ ap (λ k. put_at k entry (r ++ [])) (omega arith));
  cells_are = λ c h. elim (Bool-cases (same_frame g c.frame)) [
    | inl e ↦
        let (lo, hi) = bounds_first g c.frame r [] c.offset e h in
        (
          inside_first g c.frame r ((to, entry) ∷ []) c.offset e lo hi,
          rw
              (
                place_first g c.frame r ((to, entry) ∷ []) c.offset e,
                place_first g c.frame r [] c.offset e,
                shifted_stays (length r) (length entry) (c.offset - frame_header_len) (omega arith),
              )
              refl,
        )
    | inr e ↦ absurd (unfold is_inside in ground (arith, h, inside_later g c.frame r [] c.offset e))
  ];
}
