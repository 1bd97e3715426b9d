-- ===== src/Storage/HourFile/CutOut.antt =====
-- What `remove_entry` of hour_file.rs does to the bytes of a chain and to the places of its cells: the
-- entry is cut out of its frame, and what is after it in the frame moves down.
use my_telemetry_server.Base.{
  ℕ, ◌+◌, ◌-◌, ◌≤◌, ◌<◌, ◌^◌, ◌≡◌, ◌⊎◌, refl, sym, ap, ◌∙◌, arith, leb, ltb, ◌==◌, if◌then◌else◌,
  true, false, List, ◌∷◌, ◌++◌, length, take, drop, Bool-cases, inl, inr, length-append,
  length-take, length-drop, append_assoc, take-append_left, drop-append_left, take-append_right,
  drop-append_right, ◌&&◌,
}
use my_telemetry_server.Storage.Frame.{FrameId, frame_header_len, same_frame}
use my_telemetry_server.Storage.Cells.{Cell}
use my_telemetry_server.Storage.HourFile.{Position, position_of}
use my_telemetry_server.Storage.HourFile.Insert.{moved_down}
use my_telemetry_server.Storage.HourFile.Moves.{at_place}
use my_telemetry_server.Storage.HourFile.View.{
  View, flat, place_of, is_inside, inside_first, bounds_first, place_first, inside_later,
  place_later, same_frame_sym,
}
use my_telemetry_server.Storage.HourFile.Inserts.{is_place}
use my_telemetry_server.Storage.HourFile.Place.{inside-is_place}

-- A list without the `n` items from `i` on.
abbrev pub cut_out : ℕ → ℕ → List ℕ → List ℕ
cut_out i n r = take i r ++ drop (i + n) r

-- A place after `n` bytes after it were cut out at `p`.
unfoldable pub lowered : ℕ → ℕ → ℕ → ℕ
lowered p n q = if leb q p then q else q - n

-- The place is not within the bytes which go, other than at their start.
abbrev pub Outside : ℕ → ℕ → ℕ → Type 0
Outside p n q = (q ≤ p) ⊎ (p + n ≤ q)

-- The cell is at a place `q` of the chain, and at an entry when that is not `p`.
pub record CellAt (w : View) (p : ℕ) (c : Cell) (q was : ℕ) : Type 0 where
  pub is : is_place w (position_of c) ≡ true
  pub place_is : place_of w c.frame c.offset ≡ q
  pub inside : (was == p) ≡ false → is_inside w c.frame c.offset ≡ true

-- `w` is `v` without `n` bytes at `p`, and `m` takes each cell of `v` to its place in `w`.
pub record CutOut (v : View) (p n : ℕ) (m : Cell → Cell) (w : View) : Type 0 where
  pub inside : p + n ≤ length (flat v)
  pub flat_is : flat w ≡ cut_out p n (flat v)
  pub cells_are :
      (c : Cell)
      → is_inside v c.frame c.offset ≡ true
      → Outside p n (place_of v c.frame c.offset)
      → CellAt w p (m c) (lowered p n (place_of v c.frame c.offset)) (place_of v c.frame c.offset)

pub length-cut_out :
    (i n : ℕ) (r : List ℕ) → i + n ≤ length r → length (cut_out i n r) + n ≡ length r
length-cut_out i n r room =
    omega (
      arith,
      length-append (take i r) (drop (i + n) r),
      length-take i r,
      length-drop (i + n) r,
      room,
    )

moved_down_away :
    (p : Position) (n : ℕ) (c : Cell) → same_frame c.frame p.frame ≡ false → moved_down p n c ≡ c
unfolding moved_down
moved_down_away p n c apart = rw apart

moved_down_before : (p : Position) (n : ℕ) (c : Cell) → c.offset ≤ p.offset → moved_down p n c ≡ c
unfolding moved_down
moved_down_before p n c le = ground (arith, le)

moved_down_after :
    (p : Position) (n : ℕ) (c : Cell)
    → same_frame c.frame p.frame ≡ true
    → p.offset < c.offset
    → n ≤ c.offset
    → c.offset < 2 ^ 32
    → moved_down p n c ≡ record { frame = c.frame; offset = c.offset - n }
unfolding moved_down
moved_down_after p n c e after enough small = rw e (ground (arith, after, enough, small))

pub moved_down_frame : (p : Position) (n : ℕ) (c : Cell) → (moved_down p n c).frame ≡ c.frame
unfolding moved_down
moved_down_frame p n c = elim (Bool-cases (same_frame c.frame p.frame && ltb p.offset c.offset)) [
  | inl k ↦ rw k refl
  | inr k ↦ rw k refl
]

-- A cell of another frame of the chain, behind the one which is cut.
cell_behind :
    (g : FrameId) (r s : List ℕ) (v : View) (i n : ℕ) (c : Cell)
    → 0 < n
    → i + n ≤ length r
    → length s + n ≡ length r
    → same_frame g c.frame ≡ false
    → is_inside ((g, r) ∷ v) c.frame c.offset ≡ true
    → CellAt
        ((g, s) ∷ v)
        i
        c
        (lowered i n (place_of ((g, r) ∷ v) c.frame c.offset))
        (place_of ((g, r) ∷ v) c.frame c.offset)
unfolding lowered
cell_behind g r s v i n c some_bytes room len apart inside =
    let here : is_inside ((g, s) ∷ v) c.frame c.offset ≡ true =
      inside_later g c.frame s v c.offset apart
      ∙ sym (inside_later g c.frame r v c.offset apart)
      ∙ inside in
    record {
      is = inside-is_place ((g, s) ∷ v) c here;
      place_is = ground (
        arith,
        place_later g c.frame s v c.offset apart,
        place_later g c.frame r v c.offset apart,
        len,
        room,
        some_bytes,
      );
      inside = λ ne. here;
    }

-- A cell of the frame which is cut.
cell_of_cut :
    (g : FrameId) (r s : List ℕ) (v : View) (i n : ℕ) (c : Cell)
    → i + n ≤ length r
    → length s + n ≡ length r
    → length r < 2 ^ 31
    → same_frame g c.frame ≡ true
    → is_inside ((g, r) ∷ v) c.frame c.offset ≡ true
    → Outside i n (place_of ((g, r) ∷ v) c.frame c.offset)
    → CellAt
        ((g, s) ∷ v)
        i
        (moved_down (at_place g i) n c)
        (lowered i n (place_of ((g, r) ∷ v) c.frame c.offset))
        (place_of ((g, r) ∷ v) c.frame c.offset)
unfolding lowered is_place same_frame position_of
cell_of_cut g r s v i n c room len small same inside outside =
    let (lo, hi) = bounds_first g c.frame r v c.offset same inside in
    let was : place_of ((g, r) ∷ v) c.frame c.offset ≡ c.offset - frame_header_len =
      place_first g c.frame r v c.offset same in
    elim (Bool-cases (ltb (frame_header_len + i) c.offset)) [
      | inl k ↦
          let after : frame_header_len + i + n ≤ c.offset = elim outside [
            | inl le ↦ absurd (ground (arith, le, was, k))
            | inr le ↦ omega (arith, le, was, lo)
          ] in
          rw
            (moved_down_after (at_place g i) n c (same_frame_sym c.frame g ∙ same)
              (ground (arith, k)) (omega (arith, after)) (omega (arith, hi, small)))
            (record {
              is = rw same (ground (arith, after, hi, len));
              place_is =
                  place_first g c.frame s v (c.offset - n) same ∙ ground (arith, was, k, after);
              inside = λ ne.
                  inside_first g c.frame s v (c.offset - n) same (omega (arith, after))
                    (omega (arith, after, hi, len));
            })
      | inr k ↦ rw (moved_down_before (at_place g i) n c (ground (arith, k))) (record {
        is = rw same (ground (arith, k, lo, room, len));
        place_is = place_first g c.frame s v c.offset same ∙ ground (arith, was, k, lo);
        inside = λ ne.
            inside_first g c.frame s v c.offset same lo (ground (arith, ne, was, k, lo, room, len));
      })
    ]

pub CutOut-here :
    (g : FrameId) (r : List ℕ) (v : View) (i n : ℕ)
    → 0 < n
    → i + n ≤ length r
    → length r < 2 ^ 31
    → CutOut ((g, r) ∷ v) i n (moved_down (at_place g i) n) ((g, cut_out i n r) ∷ v)
CutOut-here g r v i n some_bytes room small = record {
  inside = omega (arith, room, length-append r (flat v));
  flat_is =
      append_assoc (take i r) (drop (i + n) r) (flat v)
      ∙ ap (λ l. take i r ++ l) (sym (drop-append_left (i + n) r (flat v) room))
      ∙ ap (λ l. l ++ drop (i + n) (r ++ flat v))
          (sym (take-append_left i r (flat v) (omega (arith, room))));
  cells_are = λ c inside outside. elim (Bool-cases (same_frame g c.frame)) [
    | inl same ↦
        cell_of_cut g r (cut_out i n r) v i n c room (length-cut_out i n r room) small same inside
          outside
    | inr apart ↦ rw (moved_down_away (at_place g i) n c (same_frame_sym c.frame g ∙ apart)) (
        cell_behind g r (cut_out i n r) v i n c some_bytes room (length-cut_out i n r room) apart
          inside)
  ];
}

-- A cut of the end of a chain is a cut of the chain.
pub CutOut-cons :
    (g : FrameId) (r : List ℕ) {v w : View} {p n : ℕ} (m : Cell → Cell)
    → ((c : Cell) → same_frame g c.frame ≡ true → m c ≡ c)
    → ((c : Cell) → (m c).frame ≡ c.frame)
    → CutOut v p n m w
    → CutOut ((g, r) ∷ v) (length r + p) n m ((g, r) ∷ w)
unfolding lowered is_place same_frame position_of
CutOut-cons g r {v} {w} {p} {n} m stays frame_is cut = record {
  inside = omega (arith, cut.inside, length-append r (flat v));
  flat_is =
      ap (λ l. r ++ l) cut.flat_is
      ∙ sym (append_assoc r (take p (flat v)) (drop (p + n) (flat v)))
      ∙ ap (λ l. l ++ drop (p + n) (flat v)) (sym (take-append_right p r (flat v)))
      ∙ ap (λ l. take (length r + p) (r ++ flat v) ++ l)
          (sym (drop-append_right (p + n) r (flat v))
            ∙ ap (λ k. drop k (r ++ flat v)) (omega arith));
  cells_are = λ c inside outside. elim (Bool-cases (same_frame g c.frame)) [
    | inl same ↦ rw (stays c same) (in_front c same inside)
    | inr apart ↦ later c apart inside outside
  ];
}
  where
    in_front :
        (c : Cell)
        → same_frame g c.frame ≡ true
        → is_inside ((g, r) ∷ v) c.frame c.offset ≡ true
        → CellAt
            ((g, r) ∷ w)
            (length r + p)
            c
            (lowered (length r + p) n (place_of ((g, r) ∷ v) c.frame c.offset))
            (place_of ((g, r) ∷ v) c.frame c.offset)
    in_front c same inside =
        let (lo, hi) = bounds_first g c.frame r v c.offset same inside in
        let here : is_inside ((g, r) ∷ w) c.frame c.offset ≡ true =
          inside_first g c.frame r w c.offset same lo hi in
        record {
          is = inside-is_place ((g, r) ∷ w) c here;
          place_is =
              place_first g c.frame r w c.offset same
              ∙ ground (arith, place_first g c.frame r v c.offset same, hi);
          inside = λ ne. here;
        }

    later :
        (c : Cell)
        → same_frame g c.frame ≡ false
        → is_inside ((g, r) ∷ v) c.frame c.offset ≡ true
        → Outside (length r + p) n (place_of ((g, r) ∷ v) c.frame c.offset)
        → CellAt
            ((g, r) ∷ w)
            (length r + p)
            (m c)
            (lowered (length r + p) n (place_of ((g, r) ∷ v) c.frame c.offset))
            (place_of ((g, r) ∷ v) c.frame c.offset)
    later c apart inside outside =
        let was : place_of ((g, r) ∷ v) c.frame c.offset ≡ length r + place_of v c.frame c.offset =
          place_later g c.frame r v c.offset apart in
        let out : Outside p n (place_of v c.frame c.offset) = elim outside [
          | inl le ↦ inl (omega (arith, le, was))
          | inr le ↦ inr (omega (arith, le, was))
        ] in
        let there =
          cut.cells_are c (sym (inside_later g c.frame r v c.offset apart) ∙ inside) out in
        let apart' : same_frame g (m c).frame ≡ false = ap (same_frame g) (frame_is c) ∙ apart in
        record {
          is = rw apart' there.is;
          place_is =
              place_later g (m c).frame r w (m c).offset apart'
              ∙ ground (arith, there.place_is, was);
          inside = λ ne.
              inside_later g (m c).frame r w (m c).offset apart'
              ∙ there.inside (ground (arith, ne, was));
        }
