-- ===== src/Storage/HourFile/Holds.antt =====
-- What an hour of hour_file.rs holds - nothing yet, or entries in the order of time with its index at
-- them - and that the blocks of a new second keep it so.
use my_telemetry_server.Base.{
  ℕ, ◌<◌, ◌≤◌, ◌≡◌, ◌⊎◌, refl, arith, ◌==◌, true, false, Option, none, some, List, [], ◌∷◌, length,
  get_elem?, Bool-cases, inl, inr,
}
use my_telemetry_server.Base.Result.{Result, ok, err}
use my_telemetry_server.Storage.Varint.{Varint}
use my_telemetry_server.Storage.Cells.{Cell, is_empty}
use my_telemetry_server.Storage.HourFile.{HourFile, HourError, Position}
use my_telemetry_server.Storage.HourFile.View.{View}
use my_telemetry_server.Storage.HourFile.State.{SameRest}
use my_telemetry_server.Storage.HourFile.Puts.{Represents, IsRefusal}
use my_telemetry_server.Storage.HourFile.Inserts.{IsFresh}
use my_telemetry_server.Storage.Block.{CompressedBlock}
use my_telemetry_server.Storage.HourFile.Entries.{
  Entries, has_entry, offset_of, put_in, has_entry-put_in,
}
use my_telemetry_server.Storage.HourFile.Ordered.{Indexed}
use my_telemetry_server.Storage.HourFile.Place.{Placed, place_for_new_second-Placed}
use my_telemetry_server.Storage.HourFile.Seconds.{insert_blocks, place_for_new_second}
use my_telemetry_server.Storage.HourFile.NewSecond.{
  new_second-Written, first_blocks-Written, fresh_place,
}
use my_telemetry_server.Storage.HourFile.InsertBlocks.{AllFit, put_all, Written}

-- The hour has no data files and no entries, or it is a chain of frames which holds the entries.
abbrev pub Holding : HourFile → Entries → Type 0
Holding h es = (IsFresh h × (es ≡ [])) ⊎ ((v : View) × Represents h v × Indexed h.cells.cells v es)

-- The last second of the hour is not before one of its entries.
abbrev pub LastKnown : HourFile → Entries → Type 0
LastKnown h es = (j : ℕ) → has_entry j es ≡ true → (l : ℕ) × (h.last_second ≡ some l) × (j ≤ l)

pub record Holds (h : HourFile) (es : Entries) : Type 0 where
  pub holding : Holding h es
  pub last_known : LastKnown h es
  pub counted : length h.cells.counts ≡ length h.cells.cells

-- The hour after a write: it holds the entries, or the write was refused.
abbrev pub HeldAfter : HourFile → Entries → Result HourError HourFile → Type 0
HeldAfter h es (ok h') =
    Holding h' es × (length h'.cells.cells ≡ length h.cells.cells) × SameRest h h'
HeldAfter h es (err e) = IsRefusal e

held :
    (h : HourFile) (es : Entries) (r : Result HourError HourFile)
    → Written h es r
    → HeldAfter h es r
held h es (ok h') (v, repr, indexed, len, rest) = (inr (v, repr, indexed), len, rest)
held h es (err e) refused = refused

-- A second with no entries has an empty cell.
pub cell_of_new :
    (h : HourFile) (es : Entries) (s : ℕ) (c : Cell)
    → Holding h es
    → has_entry s es ≡ false
    → get_elem? h.cells.cells s ≡ some c
    → is_empty c ≡ true
cell_of_new h es s c (inl (fresh, none_yet)) new_second found = fresh.no_entries s c found
cell_of_new h es s c (inr (v, repr, indexed)) new_second found = elim (Bool-cases (is_empty c)) [
  | inl e ↦ e
  | inr e ↦ absurd (cc ((indexed.starts s c found e).0, new_second))
]

pub has_entry-put_all :
    (j s : ℕ) (bs : List CompressedBlock) (es : Entries)
    → has_entry j (put_all s bs es) ≡ true
    → (s ≡ j) ⊎ (has_entry j es ≡ true)
has_entry-put_all j s [] es has = inr has
has_entry-put_all j s (b ∷ bs) es has = elim (has_entry-put_all j s bs (put_in s b.entry es) has) [
  | inl same ↦ inl same
  | inr one ↦ elim (Bool-cases (s == j)) [
    | inl k ↦ inl (ground (arith, k))
    | inr k ↦ inr (ground (arith, has_entry-put_in j s b.entry es, one, k))
  ]
]

-- Where the blocks go, and what the hour is with them there.
pub record PlacedBlocks (varint : Varint) (h : HourFile) (es : Entries) (s : ℕ)
    (bs : List CompressedBlock) : Type 0 where
  pub place : Option Position
  pub hour : HourFile
  pub returns : place_for_new_second h s ≡ ok (place, hour)
  pub held : HeldAfter h (put_all s bs es) (insert_blocks varint hour s true place bs)

pub placed-Holding :
    (varint : Varint) (h : HourFile) (es : Entries) (s : ℕ) (bs : List CompressedBlock)
    → Holding h es
    → LastKnown h es
    → s < length h.cells.cells
    → has_entry s es ≡ false
    → AllFit bs
    → PlacedBlocks varint h es s bs
placed-Holding varint h es s bs (inl (fresh, none_yet)) last_known in_hour new_second fit = record {
  place = none;
  hour = h;
  returns = fresh_place h s fresh;
  held = of_blocks bs fit;
}
  where
    of_blocks :
        (bs : List CompressedBlock)
        → AllFit bs
        → HeldAfter h (put_all s bs es) (insert_blocks varint h s true none bs)
    of_blocks [] fit = unfold insert_blocks in (inl (fresh, none_yet), refl, (refl, refl))
    of_blocks (b ∷ bs) fit =
        held h (put_all s (b ∷ bs) es) (insert_blocks varint h s true none (b ∷ bs)) (
          rw none_yet (
            rw (fresh_place h s fresh) at (first_blocks-Written varint h s b bs fresh in_hour fit)))
placed-Holding varint h es s bs (inr (v, repr, indexed)) last_known in_hour new_second fit =
    let p : Placed h v (offset_of s es) (place_for_new_second h s) =
      place_for_new_second-Placed h v es s repr indexed new_second last_known in
    let h1 : HourFile = record h { frames = p.frames } in
    record {
      place = some p.place;
      hour = h1;
      returns = p.returns;
      held = held h (put_all s bs es) (insert_blocks varint h1 s true (some p.place) bs) (
          rw p.returns at
            (new_second-Written varint h v es s bs repr indexed last_known in_hour new_second fit));
    }
