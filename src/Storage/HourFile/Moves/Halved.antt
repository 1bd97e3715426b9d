-- ===== src/Storage/HourFile/Moves/Halved.antt =====
-- Where the cells of a frame are once it is halved, step by step as hour_file.rs moves them.
use my_telemetry_server.Base.{
  ℕ, ◌+◌, ◌≤◌, ◌<◌, ◌^◌, ◌≡◌, ◌∙◌, arith, leb, true, false, Option, none, some, List, length, drop,
  Bool-cases, Option-cases, ◌⊎◌, leb→le, leb_false→lt, inl, inr,
}
use my_telemetry_server.Storage.Frame.{FrameId, frame_header_len, same_frame}
use my_telemetry_server.Storage.Cells.{Cell}
use my_telemetry_server.Storage.HourFile.Insert.{moved_up, is_moved, to_upper}
use my_telemetry_server.Storage.HourFile.View.{same_frame_sym}
use my_telemetry_server.Storage.HourFile.Edits.{moved_up_away, moved_up_before, moved_up_from}
use my_telemetry_server.Storage.HourFile.Halves.{split_cell}
use my_telemetry_server.Storage.HourFile.Moves.{
  used_of_small, next_stage, staged, halved_cell, IsSmall, lower_stays, lower_moves, next_stays,
  next_moves, apart_frames, at_place, halves_at, boundary_with,
}

module _ (g to : FrameId) (apart : same_frame g to ≡ false) (i b n : ℕ) where
  module _ (into_next : Option FrameId) (is_next : (id : FrameId) → into_next ≡ some id → id ≡ to)
      (m m' : ℕ) (R : List ℕ) (c : Cell) (small : IsSmall c) (n_small : n < 2 ^ 31) where
    next_apart :
        same_frame g c.frame ≡ true
        → (id : FrameId) → into_next ≡ some id
        → same_frame c.frame id ≡ false
    next_apart e id eq = rw (is_next id eq) (apart_frames g to c.frame e apart)

    moved_of_upper :
        same_frame g c.frame ≡ true
        → frame_header_len + b ≤ c.offset
        → is_moved g (frame_header_len + b) c ≡ true
    unfolding is_moved
    moved_of_upper e up = ground (arith, used_of_small c small, same_frame_sym c.frame g, e)

    not_moved_of_lower :
        same_frame g c.frame ≡ true
        → c.offset < frame_header_len + b
        → is_moved g (frame_header_len + b) c ≡ false
    unfolding is_moved
    not_moved_of_lower e low = ground (arith, used_of_small c small, same_frame_sym c.frame g, e)

    not_moved_of_away : same_frame g c.frame ≡ false → is_moved g (frame_header_len + b) c ≡ false
    unfolding is_moved
    not_moved_of_away e = ground (arith, used_of_small c small, same_frame_sym c.frame g, e)

    stays_of_upper :
        same_frame g c.frame ≡ true
        → frame_header_len + b ≤ c.offset
        → staged (at_place g i) n (halves_at i b m') into_next m c ≡ c
    stays_of_upper e up =
        rw
          (lower_stays (at_place g i) n n_small (frame_header_len + b)
            (leb (frame_header_len + i) (frame_header_len + b)) c small (ground arith))
          (next_stays m into_next c (λ id eq. next_apart e id eq))

    halved_upper :
        same_frame g c.frame ≡ true
        → frame_header_len + b ≤ c.offset
        → halved_cell (at_place g i) n (halves_at i b m') to into_next m c
          ≡ split_cell g to (boundary_with i b n) R (moved_up (at_place g i) n c)
    halved_upper e up =
        rw (moved_of_upper e up, stays_of_upper e up)
          (elim (Bool-cases (leb (frame_header_len + i) (frame_header_len + b))) [
            | inl k ↦
                let le : i ≤ b = omega (arith, leb→le _ _ k) in
                rw
                  (
                    k,
                    moved_up_from (at_place g i) n c (same_frame_sym c.frame g ∙ e) (omega arith)
                        (omega arith),
                    e,
                  )
                  (unfold to_upper in ground (arith, k))
            | inr k ↦
                let lt : b < i = omega (arith, leb_false→lt _ _ k) in
                elim (Bool-cases (leb (frame_header_len + i) c.offset)) [
                  | inl j ↦
                      let le : frame_header_len + i ≤ c.offset = leb→le _ _ j in
                      rw
                        (
                          k,
                          moved_up_from (at_place g i) n c (same_frame_sym c.frame g ∙ e) le
                              (omega arith),
                          e,
                        )
                        (unfold to_upper in ground (arith, k))
                  | inr j ↦
                      let before : c.offset < frame_header_len + i = leb_false→lt _ _ j in
                      rw (k, moved_up_before (at_place g i) n c before, e)
                        (unfold to_upper in ground (arith, k))
                ]
          ])

    halved_lower :
        same_frame g c.frame ≡ true
        → c.offset < frame_header_len + b
        → halved_cell (at_place g i) n (halves_at i b m') to into_next m c
          ≡ split_cell g to (boundary_with i b n) R (moved_up (at_place g i) n c)
    halved_lower e low =
        rw (not_moved_of_lower e low)
          (elim (Bool-cases (leb (frame_header_len + i) (frame_header_len + b))) [
            | inl k ↦ elim (Bool-cases (leb (frame_header_len + i) c.offset)) [
              | inl j ↦
                  let le : frame_header_len + i ≤ c.offset = leb→le _ _ j in
                  rw
                    (
                      k,
                      moved_up_from (at_place g i) n c (same_frame_sym c.frame g ∙ e) le
                          (omega arith),
                      e,
                      lower_moves (at_place g i) n n_small (frame_header_len + b) c small
                          (ground (arith, same_frame_sym c.frame g, e)),
                      next_stays m into_next (record { frame = c.frame; offset = c.offset + n })
                          (λ id eq. next_apart e id eq),
                    )
                    (ground arith)
              | inr j ↦
                  let before : c.offset < frame_header_len + i = leb_false→lt _ _ j in
                  rw
                    (
                      k,
                      moved_up_before (at_place g i) n c before,
                      e,
                      lower_stays (at_place g i) n n_small (frame_header_len + b) true c small
                          (ground (arith, before)),
                      next_stays m into_next c (λ id eq. next_apart e id eq),
                    )
                    (ground arith)
            ]
            | inr k ↦
                let lt : b < i = omega (arith, leb_false→lt _ _ k) in
                rw
                  (
                    k,
                    moved_up_before (at_place g i) n c (omega arith),
                    e,
                    next_stays m into_next c (λ id eq. next_apart e id eq),
                  )
                  (ground arith)
          ])

    halved_away :
        same_frame g c.frame ≡ false
        → (into_next ≡ none → same_frame to c.frame ≡ false)
        → m ≡ length (drop (boundary_with i b n) R)
        → m < 2 ^ 31
        → halved_cell (at_place g i) n (halves_at i b m') to into_next m c
          ≡ split_cell g to (boundary_with i b n) R (moved_up (at_place g i) n c)
    halved_away e gone len m_small =
        rw
          (
            not_moved_of_away e,
            lower_stays (at_place g i) n n_small (frame_header_len + b)
                (leb (frame_header_len + i) (frame_header_len + b)) c small
                (ground (arith, same_frame_sym c.frame g, e)),
            moved_up_away (at_place g i) n c (same_frame_sym c.frame g ∙ e),
            e,
          )
          (elim (Bool-cases (same_frame to c.frame)) [
            | inl k ↦ rw (k, ← len) (next_of k (Option-cases into_next))
            | inr k ↦ rw k (
                next_stays m into_next c
                  λ id eq. rw (is_next id eq) (same_frame_sym c.frame to ∙ k))
          ])
      where
        next_of :
            same_frame to c.frame ≡ true
            → (into_next ≡ none) ⊎ ((id : FrameId) × (into_next ≡ some id))
            → next_stage into_next m c ≡ record { frame = c.frame; offset = c.offset + m }
        next_of k (inl eq) = absurd (ground (arith, gone eq, k))
        next_of k (inr (id, eq)) =
            rw eq
              (next_moves m id c small m_small (rw (is_next id eq) (same_frame_sym c.frame to ∙ k)))

    -- On a cell, the halving does what putting the entry in and splitting the frame do.
    pub halved_cell_lem :
        (into_next ≡ none → same_frame g c.frame ≡ false → same_frame to c.frame ≡ false)
        → m ≡ length (drop (boundary_with i b n) R)
        → m < 2 ^ 31
        → halved_cell (at_place g i) n (halves_at i b m') to into_next m c
          ≡ split_cell g to (boundary_with i b n) R (moved_up (at_place g i) n c)
    halved_cell_lem gone len m_small = elim (Bool-cases (same_frame g c.frame)) [
      | inr e ↦ halved_away e (λ eq. gone eq e) len m_small
      | inl e ↦ elim (Bool-cases (leb (frame_header_len + b) c.offset)) [
        | inl k ↦ halved_upper e (leb→le _ _ k)
        | inr k ↦ halved_lower e (leb_false→lt _ _ k)
      ]
    ]
