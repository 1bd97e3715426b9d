-- ===== src/Storage/HourFile/Halves.antt =====
-- The halving of a frame of a chain, seen on the bytes of the chain: the entry goes into the frame as
-- if it had room, and the upper half goes in front of the entries of the next frame.
use my_telemetry_server.Base.{
  ℕ, ◌+◌, ◌-◌, ◌≤◌, ◌<◌, ◌≡◌, refl, sym, ap, ◌∙◌, arith, leb, if◌then◌else◌, true, false, List, [],
  ◌∷◌, ◌++◌, length, take, drop, Bool-cases, leb→le, leb_false→lt, inl, inr, append_assoc,
  length-append, length-take, length-drop, take-append-drop,
}
use my_telemetry_server.Storage.Frame.{FrameId, frame_header_len, same_frame}
use my_telemetry_server.Storage.Cells.{Cell}
use my_telemetry_server.Storage.HourFile.View.{
  View, flat, place_of, is_inside, has_frame, Same, inside_first, bounds_first, place_first,
  inside_later, place_later, same_frame_refl, apart_of_inside,
}

-- What the halving at `b` of a frame whose bytes are `r` makes of a cell.
abbrev pub split_cell : FrameId → FrameId → ℕ → List ℕ → Cell → Cell
split_cell g to b r c =
    if same_frame g c.frame
    then (if leb (frame_header_len + b) c.offset
        then record { frame = to; offset = c.offset - b }
        else c)
    else if same_frame to c.frame
    then record { frame = c.frame; offset = c.offset + length (drop b r) }
    else c

module _ (g to : FrameId) (apart : same_frame g to ≡ false) where
  not_there :
      (r : List ℕ) (v : View) (c : Cell)
      → has_frame v to ≡ false
      → is_inside ((g, r) ∷ v) c.frame c.offset ≡ true
      → same_frame g c.frame ≡ false
      → same_frame to c.frame ≡ true
      → ⊥
  not_there r v c absent h e k =
      let there : is_inside v c.frame c.offset ≡ true =
        sym (inside_later g c.frame r v c.offset e) ∙ h in
      ground (arith, apart_of_inside v to c.frame c.offset absent there, k)

  -- A frame with no entries goes in after the first one.
  pub Same-empty :
      (r : List ℕ) (v : View)
      → has_frame v to ≡ false
      → Same ((g, r) ∷ v) (λ c. c) ((g, r) ∷ (to, []) ∷ v)
  Same-empty r v absent = record {
    flat_is = refl;
    cells_are = λ c h. elim (Bool-cases (same_frame g c.frame)) [
      | inl e ↦ unfold is_inside place_of in ground (arith, e, h)
      | inr e ↦ elim (Bool-cases (same_frame to c.frame)) [
        | inl k ↦ absurd (not_there r v c absent h e k)
        | inr k ↦ unfold is_inside place_of in ground (arith, e, k, h)
      ]
    ];
  }

  module _ (r s : List ℕ) (v : View) (b : ℕ) (c : Cell) where
    len_upper : length (drop b r ++ s) ≡ (length r - b) + length s
    len_upper = omega (arith, length-append (drop b r) s, length-drop b r)

    split_upper :
        b ≤ length r
        → same_frame g c.frame ≡ true
        → frame_header_len ≤ c.offset
        → c.offset < frame_header_len + length r
        → frame_header_len + b ≤ c.offset
        → (is_inside ((g, take b r) ∷ (to, drop b r ++ s) ∷ v) to (c.offset - b) ≡ true)
          × (place_of ((g, take b r) ∷ (to, drop b r ++ s) ∷ v) to (c.offset - b)
              ≡ place_of ((g, r) ∷ (to, s) ∷ v) c.frame c.offset)
    split_upper le e lo hi up = (
      inside_later g to (take b r) ((to, drop b r ++ s) ∷ v) (c.offset - b) apart
          ∙ inside_first to to (drop b r ++ s) v (c.offset - b) (same_frame_refl to) (omega arith)
              (omega (arith, len_upper)),
      rw
          (
            place_later g to (take b r) ((to, drop b r ++ s) ∷ v) (c.offset - b) apart,
            place_first to to (drop b r ++ s) v (c.offset - b) (same_frame_refl to),
            place_first g c.frame r ((to, s) ∷ v) c.offset e,
          )
          (omega (arith, length-take b r)),
    )

    split_lower_lem :
        b ≤ length r
        → same_frame g c.frame ≡ true
        → frame_header_len ≤ c.offset
        → c.offset < frame_header_len + b
        → (is_inside ((g, take b r) ∷ (to, drop b r ++ s) ∷ v) c.frame c.offset ≡ true)
          × (place_of ((g, take b r) ∷ (to, drop b r ++ s) ∷ v) c.frame c.offset
              ≡ place_of ((g, r) ∷ (to, s) ∷ v) c.frame c.offset)
    split_lower_lem le e lo hi = (
      inside_first g c.frame (take b r) ((to, drop b r ++ s) ∷ v) c.offset e lo
          (omega (arith, length-take b r)),
      place_first g c.frame (take b r) ((to, drop b r ++ s) ∷ v) c.offset e
          ∙ sym (place_first g c.frame r ((to, s) ∷ v) c.offset e),
    )

    split_next :
        b ≤ length r
        → same_frame g c.frame ≡ false
        → same_frame to c.frame ≡ true
        → is_inside ((g, r) ∷ (to, s) ∷ v) c.frame c.offset ≡ true
        → (is_inside
              ((g, take b r) ∷ (to, drop b r ++ s) ∷ v)
              c.frame
              (c.offset + length (drop b r))
            ≡ true)
          × (place_of
                ((g, take b r) ∷ (to, drop b r ++ s) ∷ v)
                c.frame
                (c.offset + length (drop b r))
              ≡ place_of ((g, r) ∷ (to, s) ∷ v) c.frame c.offset)
    split_next le e k h =
        let n : ℕ = length (drop b r) in
        let (lo, hi) =
          bounds_first to c.frame s v c.offset k
            (sym (inside_later g c.frame r ((to, s) ∷ v) c.offset e) ∙ h) in
        (
          inside_later g c.frame (take b r) ((to, drop b r ++ s) ∷ v) (c.offset + n) e
              ∙ inside_first to c.frame (drop b r ++ s) v (c.offset + n) k (omega arith)
                  (omega (arith, len_upper, length-drop b r)),
          rw
              (
                place_later g c.frame (take b r) ((to, drop b r ++ s) ∷ v) (c.offset + n) e,
                place_first to c.frame (drop b r ++ s) v (c.offset + n) k,
                place_later g c.frame r ((to, s) ∷ v) c.offset e,
                place_first to c.frame s v c.offset k,
              )
              (omega (arith, length-take b r, length-drop b r)),
        )

    split_other :
        b ≤ length r
        → same_frame g c.frame ≡ false
        → same_frame to c.frame ≡ false
        → is_inside ((g, r) ∷ (to, s) ∷ v) c.frame c.offset ≡ true
        → (is_inside ((g, take b r) ∷ (to, drop b r ++ s) ∷ v) c.frame c.offset ≡ true)
          × (place_of ((g, take b r) ∷ (to, drop b r ++ s) ∷ v) c.frame c.offset
              ≡ place_of ((g, r) ∷ (to, s) ∷ v) c.frame c.offset)
    split_other le e k h = (
      inside_later g c.frame (take b r) ((to, drop b r ++ s) ∷ v) c.offset e
          ∙ inside_later to c.frame (drop b r ++ s) v c.offset k
          ∙ sym (inside_later to c.frame s v c.offset k)
          ∙ sym (inside_later g c.frame r ((to, s) ∷ v) c.offset e)
          ∙ h,
      rw
          (
            place_later g c.frame (take b r) ((to, drop b r ++ s) ∷ v) c.offset e,
            place_later to c.frame (drop b r ++ s) v c.offset k,
            place_later g c.frame r ((to, s) ∷ v) c.offset e,
            place_later to c.frame s v c.offset k,
          )
          (omega (arith, length-take b r, len_upper)),
    )

  pub Same-split :
      (r s : List ℕ) (v : View) (b : ℕ)
      → b ≤ length r
      → Same ((g, r) ∷ (to, s) ∷ v) (split_cell g to b r) ((g, take b r) ∷ (to, drop b r ++ s) ∷ v)
  Same-split r s v b le = record {
    flat_is =
        sym (append_assoc (take b r) (drop b r ++ s) (flat v))
        ∙ ap (λ l. l ++ flat v) (sym (append_assoc (take b r) (drop b r) s))
        ∙ ap (λ l. (l ++ s) ++ flat v) (take-append-drop b r)
        ∙ append_assoc r s (flat v);
    cells_are = λ c h. elim (Bool-cases (same_frame g c.frame)) [
      | inl e ↦
          let (lo, hi) = bounds_first g c.frame r ((to, s) ∷ v) c.offset e h in
          elim (Bool-cases (leb (frame_header_len + b) c.offset)) [
            | inl k ↦ rw (e, k) (split_upper r s v b c le e lo hi (leb→le _ _ k))
            | inr k ↦ rw (e, k) (split_lower_lem r s v b c le e lo (leb_false→lt _ _ k))
          ]
      | inr e ↦ elim (Bool-cases (same_frame to c.frame)) [
        | inl k ↦ rw (e, k) (split_next r s v b c le e k h)
        | inr k ↦ rw (e, k) (split_other r s v b c le e k h)
      ]
    ];
  }
