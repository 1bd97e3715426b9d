-- ===== src/Storage/HourFile/NewSecond.antt =====
-- How `insert_blocks` of hour_file.rs writes the blocks of a second, and what the hour is once those of
-- a second with no entries are in.
use my_telemetry_server.Base.{
  ℕ, suc, ◌≤◌, ◌<◌, ◌≡◌, refl, sym, ap, ◌∙◌, arith, ltb, true, false, Option, none, some, List, [],
  ◌∷◌, length, get_elem?, Bool-cases, Option-cases, inl, inr,
}
use my_telemetry_server.Base.Result.{ok, ◌>>=◌}
use my_telemetry_server.Storage.Varint.{Varint}
use my_telemetry_server.Storage.Frame.{FrameId, head, frame_capacity}
use my_telemetry_server.Storage.Cells.{Cell, is_empty, first_from, get}
use my_telemetry_server.Storage.Cells.Search.{first_from-some}
use my_telemetry_server.Storage.HourFile.{HourFile, read_frame, read_frame_from_disk}
use my_telemetry_server.Storage.HourFile.View.{View}
use my_telemetry_server.Storage.HourFile.Chain.{Leads-agree}
use my_telemetry_server.Storage.HourFile.State.{IsSound, IsSound-after, SameRest}
use my_telemetry_server.Storage.HourFile.Puts.{Represents}
use my_telemetry_server.Storage.HourFile.Inserts.{IsFresh, insert_at-first}
use my_telemetry_server.Storage.HourFile.InsertAll.{Represents-kept}
use my_telemetry_server.Storage.HourFile.Insert.{first_of}
use my_telemetry_server.Storage.Block.{CompressedBlock}
use my_telemetry_server.Storage.HourFile.Entries.{
  Entries, has_entry, offset_of, put_in, offset_of-new,
}
use my_telemetry_server.Storage.HourFile.Ordered.{Indexed}
use my_telemetry_server.Storage.HourFile.Place.{Placed, place_for_new_second-Placed}
use my_telemetry_server.Storage.HourFile.Seconds.{
  insert_blocks, place_for_new_second, before_cell, later_cell, at_tail,
}
use my_telemetry_server.Storage.HourFile.InsertBlocks.{
  AllFit, put_all, Written, Written-after, after_block, set_first-Added, after_insert,
  insert_blocks-Written,
}

-- The blocks of a second with no entries go in before the entries of later seconds: after
-- `place_for_new_second` and `insert_blocks` the hour holds the entries with them in the order of time,
-- the cell of each second is at its first entry, and the counts and the last second are as they were. Or
-- the hour refuses them, with the error that it has no room or no more data files, that the halves of a
-- full frame do not fit or it has but one entry, or that an entry of a frame does not read: it does not
-- panic and no chain loops. The hour has entries, its index and `last_second` are those of its entries,
-- and each block is not empty and fits into a frame.
pub new_second-Written :
    (varint : Varint) (h : HourFile) (v : View) (es : Entries) (s : ℕ) (bs : List CompressedBlock)
    → Represents h v
    → Indexed h.cells.cells v es
    → ((j : ℕ) → has_entry j es ≡ true → (l : ℕ) × (h.last_second ≡ some l) × (j ≤ l))
    → s < length h.cells.cells
    → has_entry s es ≡ false
    → AllFit bs
    → Written h
        (put_all s bs es)
        (place_for_new_second h s >>= λ placed. insert_blocks varint placed.1 s true placed.0 bs)
new_second-Written varint h v es s bs repr indexed last_known in_hour new_second fit =
    let p : Placed h v (offset_of s es) (place_for_new_second h s) =
      place_for_new_second-Placed h v es s repr indexed new_second last_known in
    let h1 : HourFile = record h { frames = p.frames } in
    rw p.returns (
      Written-after h h1 (put_all s bs es) (insert_blocks varint h1 s true (some p.place) bs) refl
        (refl, refl)
        (insert_blocks-Written varint h1 v es s true p.place bs
          (Represents-kept h p.frames v p.kept repr) indexed p.is
          (p.at ∙ offset_of-new s es new_second) in_hour new_second fit))

-- The counts and the last second of an hour are not what its frames and its cells are read by.
abbrev pub counted_hour : HourFile → List ℕ → Option ℕ → HourFile
counted_hour h counts last = record h {
  cells = record h.cells { counts = counts };
  last_second = last;
}

read_frame-counted_hour :
    (h : HourFile) (counts : List ℕ) (last : Option ℕ) (id : FrameId)
    → read_frame (counted_hour h counts last) id ≡ read_frame h id
unfolding read_frame read_frame_from_disk
read_frame-counted_hour h counts last id = refl

counted_hour-IsSound :
    (h : HourFile) (counts : List ℕ) (last : Option ℕ)
    → IsSound h
    → IsSound (counted_hour h counts last)
counted_hour-IsSound h counts last sound =
    IsSound-after h (counted_hour h counts last) sound refl refl
      (λ id f e. (f, sym (read_frame-counted_hour h counts last id) ∙ e))

pub counted_hour-Represents :
    (h : HourFile) (v : View) (counts : List ℕ) (last : Option ℕ)
    → Represents h v
    → Represents (counted_hour h counts last) v
counted_hour-Represents h v counts last repr = record {
  sound = counted_hour-IsSound h counts last repr.sound;
  leads =
      Leads-agree (read_frame h) (read_frame (counted_hour h counts last)) (some head) v none
        (λ id k. read_frame-counted_hour h counts last id) repr.leads;
  distinct = repr.distinct;
  tail_is = repr.tail_is;
  cells_in = repr.cells_in;
}

pub counted_hour-IsFresh :
    (h : HourFile) (counts : List ℕ) (last : Option ℕ)
    → IsFresh h
    → IsFresh (counted_hour h counts last)
counted_hour-IsFresh h counts last fresh = record {
  sound = counted_hour-IsSound h counts last fresh.sound;
  no_tail = fresh.no_tail;
  no_files = fresh.no_files;
  no_entries = fresh.no_entries;
}

fresh-Indexed :
    (cells : List Cell)
    → ((j : ℕ) (c : Cell) → get_elem? cells j ≡ some c → is_empty c ≡ true)
    → Indexed cells [] []
fresh-Indexed cells empty = record {
  bytes_are = refl;
  in_time = tt;
  have_bytes = tt;
  of_hour = λ j has. absurd (unfold has_entry in ground (arith, has));
  starts = λ j c found full. absurd (cc (empty j c found, full));
  missing = λ j c found none_here. unfold has_entry in refl;
}

pub fresh_place : (h : HourFile) (s : ℕ) → IsFresh h → place_for_new_second h s ≡ ok (none, h)
unfolding place_for_new_second before_cell later_cell at_tail
fresh_place h s fresh = ap (before_cell h) (no_later h.last_second) ∙ ap (at_tail h) fresh.no_tail
  where
    none_found : first_from h.cells (suc s) ≡ none
    none_found = elim (Option-cases (first_from h.cells (suc s))) [
      | inl e ↦ e
      | inr ((k, c), e) ↦
          let (after, found, full, between) = first_from-some h.cells (suc s) k c e in
          absurd (cc (fresh.no_entries k c (unfold get in found), full))
    ]

    no_later : (last : Option ℕ) → later_cell h s last ≡ none
    no_later none = refl
    no_later (some l) = elim (Bool-cases (ltb s l)) [ inl k ↦ rw k none_found | inr k ↦ rw k refl ]

-- The blocks of the first second of an hour: it holds them, or it refuses them.
pub first_blocks-Written :
    (varint : Varint) (h : HourFile) (s : ℕ) (b : CompressedBlock) (bs : List CompressedBlock)
    → IsFresh h
    → s < length h.cells.cells
    → AllFit (b ∷ bs)
    → Written h (put_all s (b ∷ bs) []) (
        place_for_new_second h s >>= λ placed.
        insert_blocks varint placed.1 s true placed.0 (b ∷ bs))
unfolding insert_blocks offset_of
first_blocks-Written varint h s b bs fresh in_hour (some_bytes, fits, fit) =
    let (h', e, put) = insert_at-first varint h b.entry fresh some_bytes fits in
    rw (fresh_place h s fresh, e)
      (after_insert varint h [] [] s true b bs (ok (first_of head, h')) some_bytes
        (fresh-Indexed h.cells.cells fresh.no_entries) in_hour (unfold has_entry in refl)
        (λ h2 w cell added.
          insert_blocks-Written varint h2 w (put_in s b.entry []) s false (after_block cell b) bs
            added.represents added.indexed added.is added.at
            (omega (arith, added.same_len, in_hour)) added.has fit)
        ((head, b.entry) ∷ [], put))

-- The first block of an hour with no entries goes in at its first frame: the hour holds it, the cell
-- of its second is at it, and the counts and the last second are as they were.
pub first_second-Written :
    (varint : Varint) (h : HourFile) (s : ℕ) (b : CompressedBlock)
    → IsFresh h
    → s < length h.cells.cells
    → 0 < length b.entry
    → length b.entry ≤ frame_capacity
    → (h' : HourFile) × ((place_for_new_second h s >>= λ placed.
          insert_blocks varint placed.1 s true placed.0 (b ∷ []))
        ≡ ok h')
      × Represents h' ((head, b.entry) ∷ [])
      × Indexed h'.cells.cells ((head, b.entry) ∷ []) ((s, b.entry) ∷ [])
      × (length h'.cells.cells ≡ length h.cells.cells)
      × SameRest h h'
unfolding insert_blocks offset_of put_in
first_second-Written varint h s b fresh in_hour some_bytes fits =
    let (h', e, put) = insert_at-first varint h b.entry fresh some_bytes fits in
    let (h2, eq, added) =
      set_first-Added h [] [] s b some_bytes (fresh-Indexed h.cells.cells fresh.no_entries) in_hour
        h' ((head, b.entry) ∷ []) (first_of head) put true (unfold has_entry in refl) in
    (
      h2,
      rw (fresh_place h s fresh, e, eq) refl,
      added.represents,
      added.indexed,
      added.same_len,
      added.rest,
    )
