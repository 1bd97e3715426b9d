-- ===== src/Storage/HourFile/Puts.antt =====
-- What an insert of hour_file.rs promises: the bytes of the chain with the entry put in at its place,
-- each cell of the index at the entry it was at, and an hour which is again one chain.
use my_telemetry_server.Base.{
  ℕ, zero, suc, ◌≡◌, refl, sym, ap, ◌∙◌, arith, true, false, Option, none, some, List, [], ◌∷◌, map,
  length, get_elem?, Bool-cases, inl, inr,
}
use my_telemetry_server.Base.Result.{Result, ok, err}
use my_telemetry_server.Storage.Frame.{FrameId, same_frame, head}
use my_telemetry_server.Storage.Frame.Records.{length-records}
use my_telemetry_server.Storage.Cells.{Cell, is_empty}
use my_telemetry_server.Storage.HourFile.{
  HourFile, HourError, read_frame, single_entry, fits_neither, no_room, too_many_files, entry_error,
}
use my_telemetry_server.Storage.HourFile.View.{
  View, flat, place_of, is_inside, shifted, put_at, Inserted, bounds_first, inside_later,
}
use my_telemetry_server.Storage.HourFile.Chain.{Leads, Distinct, EntryAt}
use my_telemetry_server.Storage.HourFile.Halving.{InFrames}
use my_telemetry_server.Storage.HourFile.State.{IsSound, SameRest}

abbrev pub last_id : View → Option FrameId
last_id [] = none
last_id ((g, r) ∷ []) = some g
last_id ((g, r) ∷ (k, s) ∷ v) = last_id ((k, s) ∷ v)

-- The hour is the chain `v`, and every cell of its index is at an entry of it.
pub record Represents (h : HourFile) (v : View) : Type 0 where
  pub sound : IsSound h
  pub leads : Leads (read_frame h) (some head) v none
  pub distinct : Distinct v
  pub tail_is : h.tail ≡ last_id v
  pub cells_in :
      (second : ℕ) (c : Cell)
      → get_elem? h.cells.cells second ≡ some c
      → is_empty c ≡ false
      → is_inside v c.frame c.offset ≡ true

-- The entry is in at `p`, at the cell `at`, and the hour is the chain `w`.
pub record Put (h : HourFile) (v : View) (entry : List ℕ) (p : ℕ) (at : Cell) (h' : HourFile)
    (w : View) : Type 0 where
  pub represents : Represents h' w
  pub flat_is : flat w ≡ put_at p entry (flat v)
  pub entry_at : EntryAt w at p (length entry)
  -- A second with entries has its first one where it was, moved by the entry when it is after it.
  pub used :
      (second : ℕ) (c : Cell)
      → get_elem? h.cells.cells second ≡ some c
      → is_empty c ≡ false
      → (c' : Cell) × (get_elem? h'.cells.cells second ≡ some c')
        × (is_inside w c'.frame c'.offset ≡ true)
        × (place_of w c'.frame c'.offset ≡ shifted p (length entry) (place_of v c.frame c.offset))
  -- A second with no entries has none.
  pub unused :
      (second : ℕ) (c : Cell)
      → get_elem? h.cells.cells second ≡ some c
      → is_empty c ≡ true
      → get_elem? h'.cells.cells second ≡ some c
  pub same_len : length h'.cells.cells ≡ length h.cells.cells
  pub same_rest : SameRest h h'

-- The errors of an hour which has no room for the entry, or of an entry of it which does not read.
abbrev pub IsRefusal : HourError → Type 0
IsRefusal no_room = Unit {0}
IsRefusal too_many_files = Unit {0}
IsRefusal (fits_neither n id) = Unit {0}
IsRefusal (single_entry id) = Unit {0}
IsRefusal (entry_error e) = Unit {0}
IsRefusal _ = ⊥

-- The insert is done, or refused: it does not panic and the chain does not loop.
abbrev pub Outcome : HourFile → View → List ℕ → ℕ → Result HourError (Cell × HourFile) → Type 0
Outcome h v entry p (ok (at, h')) = (w : View) × Put h v entry p at h' w
Outcome h v entry p (err e) = IsRefusal e

pub get_elem?-map :
    (m : Cell → Cell) (cs : List Cell) (k : ℕ) (c : Cell)
    → get_elem? cs k ≡ some c
    → get_elem? (map m cs) k ≡ some (m c)
get_elem?-map m [] k c e = absurd (ground (arith, e))
get_elem?-map m (d ∷ cs) zero c e = ground (arith, e)
get_elem?-map m (d ∷ cs) (suc k) c e = get_elem?-map m cs k c e

get_elem?-map_of :
    (m : Cell → Cell) (cs : List Cell) (k : ℕ) (c' : Cell)
    → get_elem? (map m cs) k ≡ some c'
    → (c : Cell) × (get_elem? cs k ≡ some c) × (c' ≡ m c)
get_elem?-map_of m [] k c e = absurd (ground (arith, e))
get_elem?-map_of m (d ∷ cs) zero c e = (d, refl, ground (arith, e))
get_elem?-map_of m (d ∷ cs) (suc k) c e = get_elem?-map_of m cs k c e

pub length-map : (m : Cell → Cell) (cs : List Cell) → length (map m cs) ≡ length cs
length-map m [] = refl
length-map m (c ∷ cs) = ap suc (length-map m cs)

-- What is left to show of an insert whose loops make `m` of each cell.
pub Put-of_Inserted :
    (h h' : HourFile) (v w : View) (entry : List ℕ) (p : ℕ) (at : Cell) (m : Cell → Cell)
    → Represents h v
    → Inserted v entry p m w
    → EntryAt w at p (length entry)
    → h'.cells.cells ≡ map m h.cells.cells
    → ((c : Cell) → is_empty c ≡ true → m c ≡ c)
    → IsSound h'
    → Leads (read_frame h') (some head) w none
    → Distinct w
    → h'.tail ≡ last_id w
    → SameRest h h'
    → Put h v entry p at h' w
Put-of_Inserted h h' v w entry p at m repr i entry_at cells fixed sound leads distinct tail_is
      rest =
    record {
      represents = record {
        sound = sound;
        leads = leads;
        distinct = distinct;
        tail_is = tail_is;
        cells_in = λ second c' e used_cell.
            let (c, found, is) =
              get_elem?-map_of m h.cells.cells second c'
                (ap (λ l. get_elem? l second) (sym cells) ∙ e) in
            rw is (i.cells_are c (repr.cells_in second c found (used_of c c' is used_cell))).0;
      };
      flat_is = i.flat_is;
      entry_at = entry_at;
      used = λ second c e used_cell.
          let (inside, place_is) = i.cells_are c (repr.cells_in second c e used_cell) in
          (
            m c,
            ap (λ l. get_elem? l second) cells ∙ get_elem?-map m h.cells.cells second c e,
            inside,
            place_is,
          );
      unused = λ second c e empty.
          ap (λ l. get_elem? l second) cells
          ∙ get_elem?-map m h.cells.cells second c e
          ∙ ap (λ x. some x) (fixed c empty);
      same_len = ap length cells ∙ length-map m h.cells.cells;
      same_rest = rest;
    }
  where
    used_of : (c c' : Cell) → c' ≡ m c → is_empty c' ≡ false → is_empty c ≡ false
    used_of c c' is used_cell = elim (Bool-cases (is_empty c)) [
      | inl e ↦ cc (used_cell, ap is_empty (is ∙ fixed c e), e)
      | inr e ↦ e
    ]

-- Every entry of a chain is in a frame.
pub Leads-InFrames :
    (h : HourFile) (from to : Option FrameId) (v : View)
    → Leads (read_frame h) from v to
    → InFrames v
unfolding is_inside
Leads-InFrames h from to [] l c inside = absurd (ground (arith, inside))
Leads-InFrames h from to ((g, r) ∷ v) (mid, e, f, l) c inside =
    elim (Bool-cases (same_frame g c.frame)) [
      | inl k ↦
          let (lo, hi) = bounds_first g c.frame r v c.offset k inside in
          omega (arith, length-records f.valid, ap length f.holds, f.valid.fits)
      | inr k ↦ Leads-InFrames h mid to v l c (sym (inside_later g c.frame r v c.offset k) ∙ inside)
    ]
