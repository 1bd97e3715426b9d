-- ===== src/Storage/HourFile/Moves.antt =====
-- What the loops of the halving make of one cell, all together: what the halving of the bytes asks.
pub mod Halved
use my_telemetry_server.Base.{
  ℕ, ◌+◌, ◌≤◌, ◌<◌, ◌^◌, ◌≡◌, refl, ap, ◌∙◌, arith, leb, ltb, if◌then◌else◌, Bool, true, false,
  ◌&&◌, Option, none, some, List, [], ◌∷◌, map, length, drop, Bool-cases, Option-cases, ◌⊎◌, leb→le,
  leb_false→lt, inl, inr,
}
use my_telemetry_server.Storage.Frame.{FrameId, frame_header_len, same_frame}
use my_telemetry_server.Storage.Cells.{Cell, is_empty, change_used}
use my_telemetry_server.Storage.HourFile.{Position}
use my_telemetry_server.Storage.HourFile.Insert.{
  Halves, moved_up, lower_moved, next_moved, is_moved, to_upper, set_moved,
}
use my_telemetry_server.Storage.HourFile.View.{same_frame_sym}
use my_telemetry_server.Storage.HourFile.Edits.{moved_up_away, moved_up_before, moved_up_from}
use my_telemetry_server.Storage.HourFile.Halves.{split_cell}

-- The loop over the lower half, which runs when the entry goes into it.
abbrev pub lower_stage : Bool → Position → ℕ → ℕ → Cell → Cell
lower_stage true place boundary n c = change_used (lower_moved place boundary n) c
lower_stage false place boundary n c = c

-- The loop over the next frame, which runs when the upper half goes into it.
abbrev pub next_stage : Option FrameId → ℕ → Cell → Cell
next_stage none n c = c
next_stage (some id) n c = change_used (next_moved id n) c

abbrev pub staged : Position → ℕ → Halves → Option FrameId → ℕ → Cell → Cell
staged place n halves into_next m c =
    next_stage into_next m (lower_stage halves.into_lower place halves.boundary n c)

abbrev pub halved_cell : Position → ℕ → Halves → FrameId → Option FrameId → ℕ → Cell → Cell
halved_cell place n halves to into_next m c =
    if is_moved place.frame halves.boundary c
    then to_upper place n halves to (staged place n halves into_next m c)
    else staged place n halves into_next m c

pub set_moved-map :
    (was : Cell → Bool) (f g : Cell → Cell) (cs : List Cell)
    → set_moved was f cs (map g cs) ≡ map (λ c. if was c then f (g c) else g c) cs
unfolding set_moved
set_moved-map was f g [] = refl
set_moved-map was f g (c ∷ cs) =
    ap (λ l. (if was c then f (g c) else g c) ∷ l) (set_moved-map was f g cs)

-- Of a cell with an offset in a frame.
abbrev pub IsSmall : Cell → Type 0
IsSmall c = c.offset < 2 ^ 31

used_of_small : (c : Cell) → IsSmall c → is_empty c ≡ false
unfolding is_empty
used_of_small c h = ground arith

pub change_used_small : (f : Cell → Cell) (c : Cell) → IsSmall c → change_used f c ≡ f c
unfolding change_used
change_used_small f c h = rw (used_of_small c h)

module _ (place : Position) (n : ℕ) (n_small : n < 2 ^ 31) (boundary : ℕ) where
  lower_stays :
      (b : Bool) (c : Cell)
      → IsSmall c
      → (same_frame c.frame place.frame && (leb place.offset c.offset && ltb c.offset boundary))
        ≡ false
      → lower_stage b place boundary n c ≡ c
  lower_stays true c small h =
      rw (change_used_small (lower_moved place boundary n) c small) (unfold lower_moved in rw h)
  lower_stays false c small h = refl

  lower_moves :
      (c : Cell)
      → IsSmall c
      → (same_frame c.frame place.frame && (leb place.offset c.offset && ltb c.offset boundary))
        ≡ true
      → lower_stage true place boundary n c ≡ record { frame = c.frame; offset = c.offset + n }
  lower_moves c small h =
      rw (change_used_small (lower_moved place boundary n) c small)
        (unfold lower_moved in rw h (ground arith))

module _ (m : ℕ) where
  next_stays :
      (id : Option FrameId) (c : Cell)
      → ((to : FrameId) → id ≡ some to → same_frame c.frame to ≡ false)
      → next_stage id m c ≡ c
  next_stays none c h = refl
  next_stays (some id) c h = unfold next_moved change_used in ground (arith, h id refl)

  next_moves :
      (id : FrameId) (c : Cell)
      → IsSmall c
      → m < 2 ^ 31
      → same_frame c.frame id ≡ true
      → next_stage (some id) m c ≡ record { frame = c.frame; offset = c.offset + m }
  next_moves id c small m_small h =
      rw (change_used_small (next_moved id m) c small) (unfold next_moved in rw h (ground arith))

apart_frames :
    (g to id : FrameId)
    → same_frame g id ≡ true
    → same_frame g to ≡ false
    → same_frame id to ≡ false
unfolding same_frame
apart_frames g to id e h = ground arith

-- Where the entry goes in the frame, and the halves.
abbrev pub at_place : FrameId → ℕ → Position
at_place g i = record { frame = g; offset = frame_header_len + i }

abbrev pub halves_at : ℕ → ℕ → ℕ → Halves
halves_at i b m = record {
  boundary = frame_header_len + b;
  into_lower = leb (frame_header_len + i) (frame_header_len + b);
  upper_len = m;
}

-- The boundary in the frame with the entry in it.
abbrev pub boundary_with : ℕ → ℕ → ℕ → ℕ
boundary_with i b n = if leb (frame_header_len + i) (frame_header_len + b) then b + n else b

lower_other :
    (l : Bool) (g : FrameId) (i b n : ℕ) (c : Cell)
    → same_frame c.frame g ≡ false
    → lower_stage l (at_place g i) (frame_header_len + b) n c ≡ c
unfolding change_used lower_moved
lower_other true g i b n c apart = ground (arith, apart)
lower_other false g i b n c apart = refl

lower_empty :
    (l : Bool) (g : FrameId) (i b n : ℕ) (c : Cell)
    → is_empty c ≡ true
    → lower_stage l (at_place g i) (frame_header_len + b) n c ≡ c
unfolding change_used
lower_empty true g i b n c e = rw e refl
lower_empty false g i b n c e = refl

next_empty : (id : Option FrameId) (m : ℕ) (c : Cell) → is_empty c ≡ true → next_stage id m c ≡ c
unfolding change_used
next_empty none m c e = refl
next_empty (some id) m c e = rw e refl

not_moved_other :
    (g : FrameId) (boundary : ℕ) (c : Cell)
    → same_frame c.frame g ≡ false
    → is_moved g boundary c ≡ false
unfolding is_moved
not_moved_other g boundary c apart = ground (arith, apart)

-- A cell of another frame is left alone, and so is one of a second with no entries.
pub halved_cell_stays :
    (g to : FrameId) (i b n m' m : ℕ) (into_next : Option FrameId) (c : Cell)
    → same_frame c.frame g ≡ false
    → ((id : FrameId) → into_next ≡ some id → same_frame c.frame id ≡ false)
    → halved_cell (at_place g i) n (halves_at i b m') to into_next m c ≡ c
halved_cell_stays g to i b n m' m into_next c apart h =
    rw (not_moved_other g (frame_header_len + b) c apart) (
      ap (next_stage into_next m)
        (lower_other (leb (frame_header_len + i) (frame_header_len + b)) g i b n c apart)
      ∙ next_stays m into_next c h)

pub halved_cell_fixed :
    (g to : FrameId) (i b n m' m : ℕ) (into_next : Option FrameId) (c : Cell)
    → is_empty c ≡ true
    → halved_cell (at_place g i) n (halves_at i b m') to into_next m c ≡ c
unfolding is_moved
halved_cell_fixed g to i b n m' m into_next c e = rw e (
    ap (next_stage into_next m)
      (lower_empty (leb (frame_header_len + i) (frame_header_len + b)) g i b n c e)
    ∙ next_empty into_next m c e)
