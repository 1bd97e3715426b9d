-- ===== src/Tests/HourFiles.antt =====
-- An hour with one frame, and the inserts into it.
use my_telemetry_server.Base.{
  ℕ, ◌<◌, ◌≤◌, ◌≡◌, refl, sym, ap, subst, ◌∙◌, arith, zero, suc, get_elem?, true, false, none, some,
  List, [], ◌∷◌, length,
}
use my_telemetry_server.Base.Int.{pos}
use my_telemetry_server.Base.Result.{Result, ok, err, ◌>>=◌}
use my_telemetry_server.Storage.Frame.{same_frame, head}
use my_telemetry_server.Storage.Cells.{Cell, empty_cell, is_empty}
use my_telemetry_server.Storage.HourFile.{HourFile, HourError, data_file_len, read_frame}
use my_telemetry_server.Storage.HourFile.Insert.{insert_at, first_of}
use my_telemetry_server.Storage.HourFile.View.{View, flat, place_of, is_inside}
use my_telemetry_server.Storage.HourFile.Chain.{Leads, EntryAt}
use my_telemetry_server.Storage.HourFile.Remove.{Removed}
use my_telemetry_server.Storage.HourFile.Removes.{take_out, remove_entry-Removed, remove_entry-Put}
use my_telemetry_server.Storage.HourFile.Puts.{Represents, Put, Outcome}
use my_telemetry_server.Storage.HourFile.State.{SameRest}
use my_telemetry_server.Storage.HourFile.Inserts.{
  IsFresh, insert_at-first, insert_at-Outcome, is_place, unread,
}
use my_telemetry_server.Storage.HourFile.LastEntry.{Searched, last_entry_of-Searched}
use my_telemetry_server.Storage.HourFile.Seconds.{
  last_entry_of, place_for_new_second, insert_blocks,
}
use my_telemetry_server.Storage.HourFile.Entries.{has_entry}
use my_telemetry_server.Storage.HourFile.Ordered.{Indexed}
use my_telemetry_server.Storage.HourFile.NewSecond.{
  counted_hour-Represents, new_second-Written, first_second-Written,
}
use my_telemetry_server.Storage.HourFile.InsertBlocks.{put_all, Written}
use my_telemetry_server.Storage.Block.{CompressedBlock}
use my_telemetry_server.Tests.Samples.{four_bytes}

-- Before anything was written: the index of two seconds, no data files.
abbrev fresh_hour : HourFile
fresh_hour = record {
  hour_start = pos 0;
  index_file = none;
  data_files = [];
  data_file_len = data_file_len;
  cells = record { cells = empty_cell ∷ empty_cell ∷ []; counts = 0 ∷ 0 ∷ [] };
  tail = none;
  last_second = none;
  frames = λ id. none;
  dirty = [];
  index_clean_on_disk = false;
}

abbrev pub entry : List ℕ
entry = 4 ∷ 0 ∷ 0 ∷ 0 ∷ 7 ∷ []

abbrev other : List ℕ
other = 4 ∷ 0 ∷ 0 ∷ 0 ∷ 9 ∷ []

cells_empty :
    (second : ℕ) (c : Cell)
    → get_elem? (empty_cell ∷ empty_cell ∷ []) second ≡ some c
    → is_empty c ≡ true
unfolding is_empty
cells_empty zero c e = ground (arith, e)
cells_empty (suc zero) c e = ground (arith, e)
cells_empty (suc (suc k)) c e = absurd (ground (arith, e))

fresh_hour-IsFresh : IsFresh fresh_hour
fresh_hour-IsFresh = record {
  sound = record {
    files_count = omega arith;
    len_fits = omega arith;
    small = λ k d e. absurd (ground (arith, e));
    known = λ id f e. absurd (unread fresh_hour id f refl refl e);
  };
  no_tail = refl;
  no_files = refl;
  no_entries = λ second c e. cells_empty second c e;
}

hour_of : Result HourError (Cell × HourFile) → HourFile
hour_of (ok (at, h)) = h
hour_of (err e) = fresh_hour

-- The hour once its first entry is in.
one_entry : HourFile
unfolding hour_of
one_entry = hour_of (insert_at four_bytes fresh_hour none entry)

insert_at-first_example :
    (h' : HourFile) × (insert_at four_bytes fresh_hour none entry ≡ ok (first_of head, h'))
    × Put fresh_hour [] entry 0 (first_of head) h' ((head, entry) ∷ [])
insert_at-first_example =
    insert_at-first four_bytes fresh_hour entry fresh_hour-IsFresh (omega arith) (omega arith)

one_entry-Represents : Represents one_entry ((head, entry) ∷ [])
unfolding one_entry hour_of
one_entry-Represents =
    let (h', e, put) =
      insert_at-first four_bytes fresh_hour entry fresh_hour-IsFresh (omega arith) (omega arith) in
    subst (λ h. Represents h ((head, entry) ∷ [])) (sym (ap hour_of e)) put.represents

ends_there : is_place ((head, entry) ∷ []) (record { frame = head; offset = 16 }) ≡ true
unfolding is_place same_frame
ends_there = refl

-- After the first entry, at the end of the frame.
insert_at-Outcome_example :
    Outcome one_entry
      ((head, entry) ∷ [])
      other
      5
      (insert_at four_bytes one_entry (some (record { frame = head; offset = 16 })) other)
unfolding place_of same_frame
insert_at-Outcome_example =
    insert_at-Outcome four_bytes one_entry ((head, entry) ∷ [])
      (record { frame = head; offset = 16 }) other one_entry-Represents ends_there (omega arith)
      (omega arith)

abbrev first_block : CompressedBlock
first_block = record { entry = entry; records = 1 }

abbrev second_block : CompressedBlock
second_block = record { entry = other; records = 1 }

-- The first second of the hour is written.
first_second-Written_example :
    (h' : HourFile) × ((place_for_new_second fresh_hour 1 >>= λ placed.
    insert_blocks four_bytes placed.1 1 true placed.0 (first_block ∷ []))
      ≡ ok h')
    × Represents h' ((head, entry) ∷ [])
    × Indexed h'.cells.cells ((head, entry) ∷ []) ((1, entry) ∷ [])
    × (length h'.cells.cells ≡ 2)
    × SameRest fresh_hour h'
first_second-Written_example =
    first_second-Written four_bytes fresh_hour 1 first_block fresh_hour-IsFresh (omega arith)
      (omega arith) (omega arith)

written_hour : Result HourError HourFile → HourFile
written_hour (ok h) = record h { last_second = some 1 }
written_hour (err e) = fresh_hour

-- The hour then, its later second with an entry.
pub one_second : HourFile
unfolding written_hour
one_second = written_hour (
    place_for_new_second fresh_hour 1 >>= λ placed.
    insert_blocks four_bytes placed.1 1 true placed.0 (first_block ∷ []))

pub one_second-Written :
    Represents one_second ((head, entry) ∷ [])
    × Indexed one_second.cells.cells ((head, entry) ∷ []) ((1, entry) ∷ [])
    × (one_second.last_second ≡ some 1)
    × (length one_second.cells.counts ≡ length one_second.cells.cells)
unfolding one_second written_hour
one_second-Written =
    let (h', e, repr, indexed, len, (counts, last)) =
      first_second-Written four_bytes fresh_hour 1 first_block fresh_hour-IsFresh (omega arith)
        (omega arith) (omega arith) in
    subst
      (λ h.
        Represents h ((head, entry) ∷ [])
        × Indexed h.cells.cells ((head, entry) ∷ []) ((1, entry) ∷ [])
        × (h.last_second ≡ some 1)
        × (length h.cells.counts ≡ length h.cells.cells))
      (sym (ap written_hour e))
      (
        counted_hour-Represents h' ((head, entry) ∷ []) h'.cells.counts (some 1) repr,
        indexed,
        refl,
        ap length counts ∙ sym len,
      )

pub last_is_one :
    (j : ℕ)
    → has_entry j ((1, entry) ∷ []) ≡ true
    → (l : ℕ) × (one_second.last_second ≡ some l) × (j ≤ l)
unfolding has_entry
last_is_one j has = (1, one_second-Written.2, ground (arith, has))

pub cells_of_one_second : 0 < length one_second.cells.cells
unfolding has_entry
cells_of_one_second =
    let at_one : 1 < length one_second.cells.cells = one_second-Written.1.of_hour 1 refl in
    omega (arith, at_one)

pub none_at_first : has_entry 0 ((1, entry) ∷ []) ≡ false
unfolding has_entry
none_at_first = refl

-- An earlier second is written after it, in two blocks.
new_second-Written_example :
    Written one_second (put_all 0 (second_block ∷ second_block ∷ []) ((1, entry) ∷ [])) (
      place_for_new_second one_second 0 >>= λ placed.
      insert_blocks four_bytes placed.1 0 true placed.0 (second_block ∷ second_block ∷ []))
new_second-Written_example =
    new_second-Written four_bytes one_second ((head, entry) ∷ []) ((1, entry) ∷ []) 0
      (second_block ∷ second_block ∷ []) one_second-Written.0 one_second-Written.1 last_is_one
      cells_of_one_second none_at_first (omega arith, omega arith, (omega arith, omega arith, tt))

last_entry_of-Searched_example : Searched one_second (last_entry_of four_bytes one_second 1)
last_entry_of-Searched_example =
    last_entry_of-Searched four_bytes one_second ((head, entry) ∷ []) 1 one_second-Written.0
      (one_second-Written.1.of_hour 1 has_one)
  where
    has_one : has_entry 1 ((1, entry) ∷ []) ≡ true
    has_one = unfold has_entry in refl

-- The only entry of an hour, where it is.
one_entry-EntryAt : EntryAt ((head, entry) ∷ []) (first_of head) 0 5
unfolding is_inside place_of same_frame
one_entry-EntryAt = record { inside = refl; last_inside = refl; place_is = refl }

remove_entry-Removed_example :
    (h' : HourFile) × (take_out one_entry (first_of head) 5 ≡ ok h')
    × (w : View) × Removed one_entry ((head, entry) ∷ []) 0 5 h' w
remove_entry-Removed_example =
    remove_entry-Removed one_entry ((head, entry) ∷ []) (first_of head) 0 5 one_entry-Represents
      one_entry-EntryAt (omega arith)

one_entry-Put : Put fresh_hour [] entry 0 (first_of head) one_entry ((head, entry) ∷ [])
unfolding one_entry hour_of
one_entry-Put =
    let (h', e, put) =
      insert_at-first four_bytes fresh_hour entry fresh_hour-IsFresh (omega arith) (omega arith) in
    subst (λ h. Put fresh_hour [] entry 0 (first_of head) h ((head, entry) ∷ []))
      (sym (ap hour_of e)) put

remove_entry-Put_example :
    (h2 : HourFile) × (take_out one_entry (first_of head) (length entry) ≡ ok h2)
    × (x : View) × Leads (read_frame h2) (some head) x none
    × (flat x ≡ [])
    × ((second : ℕ) (c : Cell)
        → get_elem? fresh_hour.cells.cells second ≡ some c
        → is_empty c ≡ false
        → (c' : Cell) × (get_elem? h2.cells.cells second ≡ some c')
          × (is_inside x c'.frame c'.offset ≡ true)
          × (place_of x c'.frame c'.offset ≡ place_of [] c.frame c.offset))
remove_entry-Put_example =
    remove_entry-Put fresh_hour [] entry 0 (first_of head) one_entry ((head, entry) ∷ [])
      one_entry-Put (omega arith)
