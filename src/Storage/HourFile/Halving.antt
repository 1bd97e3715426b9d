-- ===== src/Storage/HourFile/Halving.antt =====
-- The halving of a frame on the chain as one sequence of bytes, and the halves as the bytes that the
-- source moves.
use my_telemetry_server.Base.{
  ℕ, zero, suc, ◌+◌, ◌-◌, ◌≤◌, ◌<◌, ◌^◌, ◌≡◌, refl, sym, ap, ◌∙◌, arith, true, false, none, some,
  List, [], ◌∷◌, ◌++◌, length, take, drop, length-drop, take-append_right, drop-append_right,
}
use my_telemetry_server.Storage.Frame.{FrameId, frame_capacity, same_frame}
use my_telemetry_server.Storage.Cells.{Cell}
use my_telemetry_server.Storage.HourFile.Insert.{moved_up}
use my_telemetry_server.Storage.HourFile.View.{
  View, is_inside, has_frame, put_at, Inserted, Inserted-ext, Inserted-Same, length-put_at,
  apart_of_inside, inside_later,
}
use my_telemetry_server.Storage.HourFile.Edits.{Inserted-here}
use my_telemetry_server.Storage.HourFile.Halves.{Same-empty, Same-split, split_cell}
use my_telemetry_server.Storage.HourFile.Moves.{halved_cell, at_place, halves_at, boundary_with}
use my_telemetry_server.Storage.HourFile.Moves.Halved.{halved_cell_lem}

-- The two halves of a list with an entry in it, from the halves of the list.
add_suc : (b n : ℕ) → suc b + n ≡ suc (b + n)
add_suc b n = omega arith

pub take_of_lower :
    (i b : ℕ) (e r : List ℕ)
    → b ≤ length r
    → i ≤ b
    → take (b + length e) (put_at i e r) ≡ put_at i e (take b r)
unfolding put_at
take_of_lower zero b e r inside h =
    ap (λ k. take k (e ++ r)) (omega arith) ∙ take-append_right b e r
take_of_lower (suc i) zero e r inside h = absurd (omega arith)
take_of_lower (suc i) (suc b) e [] inside h = absurd (omega arith)
take_of_lower (suc i) (suc b) e (x ∷ xs) inside h =
    ap (λ k. take k (x ∷ put_at i e xs)) (add_suc b (length e))
    ∙ ap (λ l. x ∷ l) (take_of_lower i b e xs (omega arith) (omega arith))

pub drop_of_lower :
    (i b : ℕ) (e r : List ℕ) → b ≤ length r → i ≤ b → drop (b + length e) (put_at i e r) ≡ drop b r
unfolding put_at
drop_of_lower zero b e r inside h =
    ap (λ k. drop k (e ++ r)) (omega arith) ∙ drop-append_right b e r
drop_of_lower (suc i) zero e r inside h = absurd (omega arith)
drop_of_lower (suc i) (suc b) e [] inside h = absurd (omega arith)
drop_of_lower (suc i) (suc b) e (x ∷ xs) inside h =
    ap (λ k. drop k (x ∷ put_at i e xs)) (add_suc b (length e))
    ∙ drop_of_lower i b e xs (omega arith) (omega arith)

pub take_of_upper :
    (i b : ℕ) (e r : List ℕ) → b ≤ length r → b ≤ i → take b (put_at i e r) ≡ take b r
unfolding put_at
take_of_upper i zero e r inside h = refl
take_of_upper zero (suc b) e r inside h = absurd (omega arith)
take_of_upper (suc i) (suc b) e [] inside h = absurd (omega arith)
take_of_upper (suc i) (suc b) e (x ∷ xs) inside h =
    ap (λ l. x ∷ l) (take_of_upper i b e xs (omega arith) (omega arith))

pub drop_of_upper :
    (i b : ℕ) (e r : List ℕ)
    → b ≤ length r
    → b ≤ i
    → drop b (put_at i e r) ≡ put_at (i - b) e (drop b r)
unfolding put_at
drop_of_upper i zero e r inside h = ap (λ k. put_at k e r) (omega arith)
drop_of_upper zero (suc b) e r inside h = absurd (omega arith)
drop_of_upper (suc i) (suc b) e [] inside h = absurd (omega arith)
drop_of_upper (suc i) (suc b) e (x ∷ xs) inside h =
    drop_of_upper i b e xs (omega arith) (omega arith)
    ∙ ap (λ k. put_at k e (drop b xs)) (omega arith)

-- Every cell of the chain has an offset in a frame.
abbrev pub InFrames : View → Type 0
InFrames v = (c : Cell) → is_inside v c.frame c.offset ≡ true → c.offset < 2 ^ 31

module _ (g to : FrameId) (apart : same_frame g to ≡ false) (i b : ℕ) (entry r : List ℕ)
    (inside : i ≤ length r) (boundary_inside : b ≤ length r) (fits : length r ≤ frame_capacity)
    (entry_fits : length entry ≤ frame_capacity) (m' : ℕ) where
  -- The frame with the entry in it, as if it had room, and its halves.
  abbrev whole : List ℕ
  whole = put_at i entry r

  abbrev at : ℕ
  at = boundary_with i b (length entry)

  at_inside : at ≤ length whole
  at_inside = ground (arith, length-put_at i entry r inside)

  upper_small : length (drop at whole) < 2 ^ 31
  upper_small = omega (arith, length-drop at whole, length-put_at i entry r inside)

  -- The upper half goes in front of the entries of the next frame.
  pub Inserted-into_next :
      (s : List ℕ) (v : View)
      → InFrames ((g, r) ∷ (to, s) ∷ v)
      → Inserted
          ((g, r) ∷ (to, s) ∷ v)
          entry
          i
          (halved_cell
            (at_place g i)
            (length entry)
            (halves_at i b m')
            to
            (some to)
            (length (drop at whole)))
          ((g, take at whole) ∷ (to, drop at whole ++ s) ∷ v)
  Inserted-into_next s v small =
      Inserted-ext (λ c. split_cell g to at whole (moved_up (at_place g i) (length entry) c))
        (halved_cell (at_place g i) (length entry) (halves_at i b m') to (some to)
          (length (drop at whole)))
        (λ c h.
          halved_cell_lem g to apart i b (length entry) (some to) (λ id eq. cc)
            (length (drop at whole)) m' whole c (small c h) (omega arith)
            (λ eq. absurd (ground arith)) refl upper_small)
        (Inserted-Same (moved_up (at_place g i) (length entry)) (split_cell g to at whole)
          (Inserted-here g r ((to, s) ∷ v) entry i inside (omega arith))
          (Same-split g to apart whole s v at at_inside))

  -- The upper half goes into a new frame before the next one.
  pub Inserted-into_new :
      (v : View)
      → has_frame v to ≡ false
      → InFrames ((g, r) ∷ v)
      → Inserted
          ((g, r) ∷ v)
          entry
          i
          (halved_cell
            (at_place g i)
            (length entry)
            (halves_at i b m')
            to
            none
            (length (drop at whole)))
          ((g, take at whole) ∷ (to, drop at whole ++ []) ∷ v)
  Inserted-into_new v absent small =
      Inserted-ext (λ c. split_cell g to at whole (moved_up (at_place g i) (length entry) c))
        (halved_cell (at_place g i) (length entry) (halves_at i b m') to none
          (length (drop at whole)))
        (λ c h.
          halved_cell_lem g to apart i b (length entry) none (λ id eq. absurd (cc))
            (length (drop at whole)) m' whole c (small c h) (omega arith)
            (λ eq e.
              apart_of_inside v to c.frame c.offset absent
                (sym (inside_later g c.frame r v c.offset e) ∙ h))
            refl upper_small)
        (Inserted-Same (λ c. moved_up (at_place g i) (length entry) c) (split_cell g to at whole)
          (Inserted-Same (moved_up (at_place g i) (length entry)) (λ c. c)
            (Inserted-here g r v entry i inside (omega arith))
            (Same-empty g to apart whole v absent))
          (Same-split g to apart whole [] v at at_inside))
