-- ===== src/Storage/HourFile/Insert.antt =====
-- my-telemetry-server/src/metrics_storage/hour_file.rs: how an entry goes into the chain of frames of
-- an hour, and how one is taken out. After an error the hour is let go: an error carries no state.
use my_telemetry_server.Base.{
  ℕ, zero, suc, ◌+◌, ◌-◌, ◌/◌, ◌%◌, ◌^◌, ltb, leb, ◌==◌, if◌then◌else◌, Bool, not, ◌&&◌, ◌||◌,
  Option, none, some, List, [], ◌∷◌, ◌++◌, length, take, drop,
}
use my_telemetry_server.Base.Result.{Result, ok, err, ◌>>=◌}
use my_telemetry_server.Storage.Varint.{Varint}
use my_telemetry_server.Storage.Frame.{
  Frame, FrameId, same_frame, frame_header_len, frame_capacity, used, free, records_end, next,
  set_next, insert, remove, split_off,
}
use my_telemetry_server.Storage.Entry.{entry_offsets}
use my_telemetry_server.Storage.Cells.{Cell, HourCells, is_empty, iter_mut}
use my_telemetry_server.Storage.HourFile.{
  HourFile, HourError, Position, to_cell, or_panic, of_entry, frame, frame_in_memory, put_frame,
  mark_dirty, frames_count, room_for_frames, allocate_frame, single_entry, fits_neither, no_room,
  chain_loop,
}

-- What an insert makes of a cell: the entries from the place on move up.
unfoldable pub moved_up : Position → ℕ → Cell → Cell
unfolding same_frame
moved_up place n c =
    if same_frame c.frame place.frame && leb place.offset c.offset
    then record c { offset = (c.offset + n) % 2 ^ 32 }
    else c

-- What `remove_entry` makes of a cell. A `u32` which would go below 0 wraps.
unfoldable pub moved_down : Position → ℕ → Cell → Cell
unfolding same_frame
moved_down position n c =
    if same_frame c.frame position.frame && ltb position.offset c.offset
    then record c { offset = (c.offset + 2 ^ 32 - n % 2 ^ 32) % 2 ^ 32 }
    else c

unfoldable pub move_cells : (Cell → Cell) → HourFile → HourFile
move_cells f h = record h { cells = iter_mut f h.cells }

-- `self.frames.get_mut(&id).unwrap().insert(offset, entry)`
unfoldable pub insert_bytes : HourFile → FrameId → ℕ → List ℕ → Result HourError HourFile
insert_bytes h id offset entry =
    frame_in_memory h id >>= λ f. or_panic (insert f offset entry) >>= λ f'. ok (put_frame h id f')

unfoldable pub insert_into_frame : HourFile → Position → List ℕ → Result HourError (Cell × HourFile)
insert_into_frame h place entry = insert_bytes h place.frame place.offset entry >>= λ h1.
    ok (to_cell place, mark_dirty (move_cells (moved_up place (length entry)) h1) place.frame)

-- `self.frames.get_mut(&id).unwrap().set_next(to)`
unfoldable pub link_frame : HourFile → FrameId → Option FrameId → Result HourError HourFile
link_frame h id to = frame_in_memory h id >>= λ f. ok (put_frame h id (set_next f to))

abbrev pub first_of : FrameId → Cell
first_of id = record { frame = id; offset = frame_header_len }

-- The first entry of the hour.
unfoldable pub first_frame : HourFile → List ℕ → Result HourError (Cell × HourFile)
first_frame h entry = allocate_frame h >>= λ allocated.
    let id : FrameId = allocated.0 in
    insert_bytes allocated.1 id frame_header_len entry >>= λ h2.
    ok (first_of id, record (mark_dirty h2 id) { tail = some id })

unfoldable pub append_frame : HourFile → FrameId → List ℕ → Result HourError (Cell × HourFile)
append_frame h last entry = allocate_frame h >>= λ allocated.
    let id : FrameId = allocated.0 in
    insert_bytes allocated.1 id frame_header_len entry >>= λ h2.
    link_frame h2 last (some id) >>= λ h3.
    ok (first_of id, record (mark_dirty (mark_dirty h3 id) last) { tail = some id })

-- `abs_diff`
abbrev pub abs_diff : ℕ → ℕ → ℕ
abs_diff a b = (a - b) + (b - a)

-- Of two offsets the one nearer to the middle, ties to the lower one.
unfoldable pub nearer : ℕ → ℕ → ℕ → ℕ
nearer middle a b =
    if ltb (abs_diff b middle) (abs_diff a middle)
      || ((abs_diff b middle == abs_diff a middle) && ltb b a)
    then b
    else a

unfoldable pub or_nearer : ℕ → ℕ → Option ℕ → ℕ
or_nearer middle a none = a
or_nearer middle a (some b) = nearer middle a b

-- `min_by_key`
unfoldable pub nearest : ℕ → List ℕ → Option ℕ
unfolding or_nearer nearer
nearest middle [] = none
nearest middle (a ∷ as') = some (or_nearer middle a (nearest middle as'))

unfoldable pub or_single : FrameId → Option ℕ → Result HourError ℕ
or_single id none = err (single_entry id)
or_single id (some boundary) = ok boundary

-- The bytes of the frame at and after the boundary, and where the entry goes.
pub record Halves : Type 0 where
  pub boundary : ℕ
  pub into_lower : Bool
  pub upper_len : ℕ

unfoldable pub halves_of : Frame → Position → ℕ → ℕ → Result HourError Halves
halves_of f place n boundary =
    let into_lower : Bool = leb place.offset boundary in
    let lower_len : ℕ = boundary - frame_header_len + (if into_lower then n else 0) in
    let upper_len : ℕ = records_end f - boundary + (if into_lower then 0 else n) in
    if ltb frame_capacity lower_len || ltb frame_capacity upper_len
    then err (fits_neither n place.frame)
    else ok (record { boundary = boundary; into_lower = into_lower; upper_len = upper_len })

-- The frame the upper half goes into, if not a new one: the next frame when it has room.
unfoldable pub has_room : HourFile → ℕ → FrameId → Result HourError Bool
has_room h upper_len id = frame_in_memory h id >>= λ f. ok (leb upper_len (free f))

unfoldable pub into_next_of : HourFile → ℕ → Option FrameId → Result HourError (Option FrameId)
into_next_of h upper_len none = ok none
into_next_of h upper_len (some id) =
    has_room h upper_len id >>= λ room. ok (if room then some id else none)

-- `if let Some(next) = next { self.frame(next)?; }`
unfoldable pub read_next : HourFile → Option FrameId → Result HourError HourFile
read_next h none = ok h
read_next h (some id) = frame h id >>= λ read. ok read.1

unfoldable pub check_room : HourFile → Option FrameId → Result HourError (Unit {0})
check_room h (some id) = ok tt
check_room h none = if room_for_frames h == 0 then err no_room else ok tt

-- The entries of the lower half from the place on move up.
unfoldable pub lower_moved : Position → ℕ → ℕ → Cell → Cell
unfolding same_frame
lower_moved place boundary n c =
    if same_frame c.frame place.frame && (leb place.offset c.offset && ltb c.offset boundary)
    then record c { offset = (c.offset + n) % 2 ^ 32 }
    else c

-- The entries of the next frame move up.
unfoldable pub next_moved : FrameId → ℕ → Cell → Cell
unfolding same_frame
next_moved id n c =
    if same_frame c.frame id then record c { offset = (c.offset + n) % 2 ^ 32 } else c

-- The upper half, with the entry when it goes into it, and the hour without that half.
unfoldable pub split_lower :
    HourFile → Position → List ℕ → Halves → Result HourError (List ℕ × HourFile)
split_lower h place entry halves = frame_in_memory h place.frame >>= λ f.
    let cut = split_off f halves.boundary in
    let h1 : HourFile = put_frame h place.frame cut.1 in
    let lower : Result HourError (List ℕ × HourFile) =
      (insert_bytes h1 place.frame place.offset entry >>= λ h2.
      ok (cut.0, move_cells (lower_moved place halves.boundary (length entry)) h2)) in
    let at : ℕ = place.offset - halves.boundary in
    if halves.into_lower then lower else ok (take at cut.0 ++ (entry ++ drop at cut.0), h1)

unfoldable pub tail_after : Option FrameId → FrameId → Option FrameId → Option FrameId
tail_after none to tail = some to
tail_after (some next) to tail = tail

-- The upper half goes into the next frame, or into a new one before it: the frame it goes into.
unfoldable pub place_upper :
    HourFile
    → FrameId
    → List ℕ
    → Option FrameId
    → Option FrameId
    → Result HourError (FrameId × HourFile)
place_upper h id upper (some to) next =
    insert_bytes (move_cells (next_moved to (length upper)) h) to frame_header_len upper >>= λ h1.
    ok (to, mark_dirty h1 to)
place_upper h id upper none next = allocate_frame h >>= λ allocated.
    let to : FrameId = allocated.0 in
    insert_bytes allocated.1 to frame_header_len upper >>= λ h2. link_frame h2 to next >>= λ h3.
    link_frame h3 id (some to) >>= λ h4.
    ok (to, mark_dirty (record h4 { tail = tail_after next to h4.tail }) to)

-- A cell of the upper half, before anything is changed.
unfoldable pub is_moved : FrameId → ℕ → Cell → Bool
unfolding same_frame is_empty
is_moved id boundary c = not (is_empty c) && (same_frame c.frame id && leb boundary c.offset)

-- Where the entry of such a cell is after the halving.
unfoldable pub to_upper : Position → ℕ → Halves → FrameId → Cell → Cell
to_upper place n halves destination c =
    let at : ℕ = c.offset - halves.boundary in
    let moved : ℕ =
      (if not halves.into_lower && leb (place.offset - halves.boundary) at then at + n else at) in
    record { frame = destination; offset = (frame_header_len + moved) % 2 ^ 32 }

-- `for second in moved`: the cells which were of the upper half, as they are by then.
unfoldable pub set_moved : (Cell → Bool) → (Cell → Cell) → List Cell → List Cell → List Cell
set_moved was f [] cs = cs
set_moved was f (o ∷ os) [] = []
set_moved was f (o ∷ os) (c ∷ cs) = (if was o then f c else c) ∷ set_moved was f os cs

unfoldable pub move_upper : HourFile → HourCells → Position → ℕ → Halves → FrameId → HourFile
move_upper h before place n halves destination = record h {
  cells = record h.cells {
    cells =
        set_moved (is_moved place.frame halves.boundary) (to_upper place n halves destination)
          before.cells h.cells.cells;
  };
}

-- Where the entry went.
unfoldable pub entry_cell : Position → Halves → FrameId → Cell
entry_cell place halves destination = if halves.into_lower then to_cell place else record {
  frame = destination;
  offset = (frame_header_len + place.offset - halves.boundary) % 2 ^ 32;
}

-- The part of the halving which changes the hour.
unfoldable pub halve_at :
    HourFile
    → Position
    → List ℕ
    → Halves
    → Option FrameId
    → Option FrameId
    → Result HourError (Cell × HourFile)
halve_at h place entry halves into_next next = split_lower h place entry halves >>= λ split.
    place_upper split.1 place.frame split.0 into_next next >>= λ placed.
    let n : ℕ = length entry in
    let h3 : HourFile = mark_dirty placed.1 place.frame in
    ok (entry_cell place halves placed.0, move_upper h3 h.cells place n halves placed.0)

module _ (varint : Varint) where
  -- The entry boundary nearest the middle of the entries of the frame.
  unfoldable pub boundary_of : Frame → FrameId → Result HourError ℕ
  unfolding or_single of_entry
  boundary_of f id = or_panic (entry_offsets varint f) >>= λ r. of_entry r >>= λ offsets.
      or_single id (nearest (frame_header_len + used f / 2) (drop 1 offsets))

  -- The frame is full and the place is before one of its entries.
  unfoldable pub halve_and_insert :
      HourFile → Position → List ℕ → Result HourError (Cell × HourFile)
  halve_and_insert h place entry = frame_in_memory h place.frame >>= λ f.
      read_next h (next f) >>= λ h1. boundary_of f place.frame >>= λ boundary.
      halves_of f place (length entry) boundary >>= λ halves.
      into_next_of h1 halves.upper_len (next f) >>= λ into_next.
      check_room h1 into_next >>= λ _. halve_at h1 place entry halves into_next (next f)

  -- The rounds of the walk over full frames.
  unfoldable pub insert_loop : ℕ → HourFile → Position → List ℕ → Result HourError (Cell × HourFile)
  insert_loop zero h place entry = err chain_loop
  insert_loop (suc rounds) h place entry = frame h place.frame >>= λ read.
      let f : Frame = read.0 in
      let h1 : HourFile = read.1 in
      let further : Result HourError (Cell × HourFile) = elim (next f) [
        | none ↦ append_frame h1 place.frame entry
        | some id ↦ insert_loop rounds h1 (record { frame = id; offset = frame_header_len }) entry
      ] in
      if leb (length entry) (free f)
      then insert_into_frame h1 place entry
      else if ltb place.offset (records_end f)
      then halve_and_insert h1 place entry
      else further

  -- Puts the entry at the place; without one the hour has no entries.
  unfoldable pub insert_at :
      HourFile → Option Position → List ℕ → Result HourError (Cell × HourFile)
  unfolding insert_loop
  insert_at h none entry = first_frame h entry
  insert_at h (some place) entry = insert_loop (suc (frames_count h)) h place entry

-- Takes the entry out of its frame: the entries after it move down.
unfoldable pub remove_entry : HourFile → Position → ℕ → Result HourError HourFile
remove_entry h position n = frame_in_memory h position.frame >>= λ f.
    let h1 : HourFile = put_frame h position.frame (remove f position.offset n) in
    ok (mark_dirty (move_cells (moved_down position n) h1) position.frame)
