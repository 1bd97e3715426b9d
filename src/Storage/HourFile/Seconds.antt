-- ===== src/Storage/HourFile/Seconds.antt =====
-- my-telemetry-server/src/metrics_storage/hour_file.rs: how the records of a second are written into an
-- hour which is open to be written into, its two indexes in memory.
pub mod Write
use my_telemetry_server.Base.{
  ℕ, zero, suc, ◌+◌, ◌-◌, ◌*◌, ◌%◌, ◌^◌, ltb, ◌==◌, if◌then◌else◌, Bool, true, false, ◌&&◌, Option,
  none, some, List, [], ◌∷◌, ◌++◌, length, max,
}
use my_telemetry_server.Base.Int.{ℤ, pos, ◌+ℤ◌, leb_ℤ, wrap}
use my_telemetry_server.Base.Sort.{sort_by_key}
use my_telemetry_server.Base.Result.{Result, ok, err, ◌>>=◌}
use my_telemetry_server.Storage.Retention.{micros_per_second}
use my_telemetry_server.Storage.Varint.{Varint}
use my_telemetry_server.Storage.Frame.{
  Frame, FrameId, same_frame, frame_header_len, records_end, next,
}
use my_telemetry_server.Storage.Entry.{Entry, EntryError, entry_at}
use my_telemetry_server.Storage.Cells.{Cell, is_empty, first_from, get, count, set_cell, set_count}
use my_telemetry_server.Storage.Rec.{Rec, time_of}
use my_telemetry_server.Storage.Block.{
  Codec, CompressedBlock, BlockError, compress_records, decompress_records,
}
use my_telemetry_server.Storage.KeyIndex.{KeyIndex}
use my_telemetry_server.Storage.KeyIndex as Keys
use my_telemetry_server.Storage.ProcessIndex.{ProcessIndex}
use my_telemetry_server.Storage.ProcessIndex as Processes
use my_telemetry_server.Storage.HourFile.{
  HourFile, HourError, Position, position_of, to_cell, or_panic, of_entry, frame, frames_count,
  room_for_frames, block_error, no_room, chain_loop, panicked,
}
use my_telemetry_server.Storage.HourFile.Insert.{insert_at, remove_entry}

-- The hour with its indexes. A moment in time is a number of nanoseconds.
pub record Writer : Type 0 where
  pub hour : HourFile
  pub key_index : KeyIndex
  pub key_index_changed : Bool
  pub process_index : ProcessIndex
  pub process_index_changed : Option ℕ

-- What the walk over the entries of a frame comes to.
pub data FrameScan : Type 0 where
  -- An entry of a later second ends it.
  ended : Option (Position × ℕ) → FrameScan
  -- The end of the frame.
  further : Option (Position × ℕ) → FrameScan
  failed : HourError → FrameScan
  out_of_rounds : FrameScan

unfoldable pub found_entry :
    ℤ → Position → Option (Position × ℕ) → Result EntryError Entry → (Entry → FrameScan) → FrameScan
found_entry second_end p last (err e) go_on = failed (HourError.entry_error e)
found_entry second_end p last (ok entry) go_on =
    let more : FrameScan = go_on entry in if leb_ℤ second_end entry.time then ended last else more

-- A second with no entries goes before the nearest later one which has some.
unfoldable pub later_cell : HourFile → ℕ → Option ℕ → Option (ℕ × Cell)
later_cell h second none = none
later_cell h second (some last) = if ltb second last then first_from h.cells (suc second) else none

unfoldable pub at_tail : HourFile → Option FrameId → Result HourError (Option Position × HourFile)
at_tail h none = ok (none, h)
at_tail h (some tail) = frame h tail >>= λ read.
    ok (some (record { frame = tail; offset = records_end read.0 }), read.1)

unfoldable pub before_cell :
    HourFile → Option (ℕ × Cell) → Result HourError (Option Position × HourFile)
unfolding at_tail
before_cell h (some (later, cell)) = ok (some (position_of cell), h)
before_cell h none = at_tail h h.tail

-- At the end of the chain when there is no later second; none - the hour has no entries.
unfoldable pub place_for_new_second : HourFile → ℕ → Result HourError (Option Position × HourFile)
unfolding before_cell later_cell
place_for_new_second h second = before_cell h (later_cell h second h.last_second)

same_cell : Cell → Cell → Bool
unfolding same_frame
same_cell a b = same_frame a.frame b.frame && (a.offset == b.offset)

of_block : Option (Result BlockError (List Rec)) → Result HourError (List Rec)
of_block none = err panicked
of_block (some (err e)) = err block_error
of_block (some (ok rs)) = ok rs

records_of_blocks : List CompressedBlock → ℕ
records_of_blocks [] = 0
records_of_blocks (b ∷ bs) = b.records + records_of_blocks bs

-- What is to be written: where, whether as the first entry of the second, the blocks, the entry they
-- take the place of, and how many records that one has.
pub record Plan : Type 0 where
  pub place : Option Position
  pub first_of_second : Bool
  pub blocks : List CompressedBlock
  pub to_remove : Option (Position × ℕ)
  pub removed_records : ℕ

remove_old : HourFile → Option (Position × ℕ) → Result HourError HourFile
remove_old h none = ok h
remove_old h (some (position, len)) = remove_entry h position len

unfoldable pub set_first : HourFile → ℕ → Bool → Cell → Result HourError HourFile
set_first h second false cell = ok h
set_first h second true cell =
    or_panic (set_cell h.cells second cell) >>= λ cells. ok (record h { cells = cells })

forget_dropped : Writer → ℕ → Writer
forget_dropped w dropped =
    if ltb 0 dropped
    then record w {
      key_index = Keys.forget_records w.key_index dropped;
      process_index = Processes.forget_records w.process_index dropped;
    }
    else w

later_of : ℕ → Option ℕ → ℕ
later_of second none = second
later_of second (some last) = max last second

module _ (varint : Varint) where
  -- The entries of the frame from the place on which are before the end of the second.
  unfoldable pub scan_frame : ℕ → Frame → ℤ → Position → Option (Position × ℕ) → FrameScan
  unfolding found_entry
  scan_frame zero f second_end p last = out_of_rounds
  scan_frame (suc rounds) f second_end p last =
      let more : FrameScan = found_entry second_end p last (entry_at varint f p.offset) (λ entry.
        scan_frame rounds f second_end (record p { offset = p.offset + entry.len })
          (some (p, entry.len))) in
      if ltb p.offset (records_end f) then more else further last

  unfoldable pub after_frame :
      HourFile
      → Option FrameId
      → FrameScan
      → (FrameId → Option (Position × ℕ) → Result HourError (Option (Position × ℕ) × HourFile))
      → Result HourError (Option (Position × ℕ) × HourFile)
  after_frame h to (ended last) rest = ok (last, h)
  after_frame h none (further last) rest = ok (last, h)
  after_frame h (some to) (further last) rest = rest to last
  after_frame h to (failed e) rest = err e
  after_frame h to out_of_rounds rest = err panicked

  unfoldable pub scan_chain :
      ℕ
      → HourFile
      → ℤ
      → Position
      → Option (Position × ℕ)
      → Result HourError (Option (Position × ℕ) × HourFile)
  unfolding after_frame
  scan_chain zero h second_end p last = err chain_loop
  scan_chain (suc rounds) h second_end p last = frame h p.frame >>= λ read.
      after_frame read.1 (next read.0)
        (scan_frame (suc (records_end read.0)) read.0 second_end p last)
        (λ to found.
          scan_chain rounds read.1 second_end (record { frame = to; offset = frame_header_len })
            found)

  -- The last entry of the second and its length.
  unfoldable pub last_entry_of : HourFile → ℕ → Result HourError (Option (Position × ℕ) × HourFile)
  last_entry_of h second = or_panic (get h.cells second) >>= λ cell.
      let second_end : ℤ = wrap (h.hour_start +ℤ wrap (pos ((second + 1) * micros_per_second))) in
      if is_empty cell
      then ok (none, h)
      else scan_chain (suc (frames_count h)) h second_end (position_of cell) none

  module _ (codec : Codec) where
    unfoldable pub decompress_at : HourFile → Position → Result HourError (List Rec)
    unfolding of_entry of_block
    decompress_at h p = frame h p.frame >>= λ read.
        of_entry (entry_at varint read.0 p.offset) >>= λ entry.
        of_block (decompress_records varint codec entry.payload)

    -- `blocks.unwrap_or_else(|| compress_records(records))`
    or_compressed :
        Option (List CompressedBlock) → List Rec → Result HourError (List CompressedBlock)
    or_compressed (some blocks) rs = ok blocks
    or_compressed none rs = or_panic (compress_records varint codec rs)

    -- The records go into the last block of the second, or after it when it does not read.
    merged_plan :
        HourFile
        → ℕ
        → Position
        → ℕ
        → Result HourError (List Rec)
        → List Rec
        → Option (List CompressedBlock)
        → Result HourError Plan
    unfolding same_cell or_compressed
    merged_plan h second last len (ok old) rs blocks = or_panic (get h.cells second) >>= λ cell.
        or_panic (compress_records varint codec (sort_by_key time_of (old ++ rs))) >>= λ made.
        ok (record {
          place = some last;
          first_of_second = same_cell cell (to_cell last);
          blocks = made;
          to_remove = some (last, len);
          removed_records = length old;
        })
    merged_plan h second last len (err e) rs blocks = or_compressed blocks rs >>= λ made.
        ok (record {
          place = some (record last { offset = last.offset + len });
          first_of_second = false;
          blocks = made;
          to_remove = none;
          removed_records = 0;
        })

    plan_of :
        HourFile
        → ℕ
        → Option (Position × ℕ)
        → List Rec
        → Option (List CompressedBlock)
        → Result HourError (Plan × HourFile)
    unfolding merged_plan or_compressed
    plan_of h second (some (last, len)) rs blocks =
        merged_plan h second last len (decompress_at h last) rs blocks >>= λ plan. ok (plan, h)
    plan_of h second none rs blocks = or_compressed blocks rs >>= λ made.
        place_for_new_second h second >>= λ placed. ok (
          record {
            place = placed.0;
            first_of_second = true;
            blocks = made;
            to_remove = none;
            removed_records = 0;
          },
          placed.1,
        )

  -- Each block after the one before it; the cell of the second is set to the first one.
  unfoldable pub insert_blocks :
      HourFile → ℕ → Bool → Option Position → List CompressedBlock → Result HourError HourFile
  unfolding set_first
  insert_blocks h second first place [] = ok h
  insert_blocks h second first place (b ∷ bs) = insert_at varint h place b.entry >>= λ put.
      set_first put.1 second first put.0 >>= λ h2.
      insert_blocks h2 second false
        (some (record { frame = put.0.frame; offset = put.0.offset + length b.entry })) bs

  unfoldable pub write_plan : HourFile → ℕ → Plan → Result HourError HourFile
  unfolding remove_old
  write_plan h second plan =
      if ltb (room_for_frames h) (2 * length plan.blocks)
      then err no_room
      else (remove_old h plan.to_remove >>= λ h1.
          insert_blocks h1 second plan.first_of_second plan.place plan.blocks)

  module _ (codec : Codec) (now : ℕ) where
    -- The counts after the blocks are in: the differences of `usize` wrap.
    with_counts : Writer → HourFile → ℕ → Plan → List Rec → Result HourError Writer
    unfolding forget_dropped later_of records_of_blocks
    with_counts w h second plan rs =
        let written : ℕ = records_of_blocks plan.blocks in
        or_panic (count h.cells second) >>= λ was.
        or_panic
          (set_count h.cells second ((was + 2 ^ 64 - plan.removed_records + written) % 2 ^ 32))
        >>= λ cells. ok (
            forget_dropped
              (record w {
                hour = record h {
                  cells = cells;
                  last_second = some (later_of second h.last_second);
                };
              })
              (plan.removed_records + length rs - written))

    -- Writes the records of one of its seconds; on an error the hour is let go.
    unfoldable pub write_second :
        Writer → ℕ → List Rec → Option (List CompressedBlock) → Result HourError Writer
    unfolding plan_of with_counts
    write_second w second [] blocks = ok w
    write_second w second (r ∷ rs) blocks =
        or_panic (Keys.add_records w.key_index second (r ∷ rs)) >>= λ keys.
        let w1 : Writer = record w {
          key_index = keys;
          key_index_changed = true;
          process_index = Processes.add_records w.process_index second (r ∷ rs);
          process_index_changed = some now;
        } in
        last_entry_of w.hour second >>= λ found.
        plan_of codec found.1 second found.0 (r ∷ rs) blocks >>= λ planned.
        write_plan planned.1 second planned.0 >>= λ h. with_counts w1 h second planned.0 (r ∷ rs)
