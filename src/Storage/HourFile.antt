-- ===== src/Storage/HourFile.antt =====
-- my-telemetry-server/src/metrics_storage/hour_file.rs: the files of an hour as their writer keeps
-- them, the frames which were read or changed in memory among them, and how a frame is found,
-- allocated and marked. A file is its bytes: an access to the disk which fails otherwise is not
-- modelled. The key index and the process index of the hour stand in modules of their own.
pub mod Insert
pub mod View
pub mod Edits
pub mod Halves
pub mod Moves
pub mod Halving
pub mod Chain
pub mod State
pub mod Puts
pub mod PutHere
pub mod Grow
pub mod PutAfter
pub mod HalveLower
pub mod HalveCells
pub mod HalveNext
pub mod HalveNew
pub mod Boundary
pub mod HalveAll
pub mod InsertAll
pub mod Room
pub mod Inserts
pub mod Seconds
pub mod Entries
pub mod Ordered
pub mod Place
pub mod InsertBlocks
pub mod NewSecond
pub mod CutOut
pub mod Remove
pub mod Removes
pub mod Holds
pub mod LastEntry
use my_telemetry_server.Base.{
  ℕ, zero, suc, ◌+◌, ◌-◌, ◌*◌, ◌/◌, ◌%◌, ◌^◌, ltb, leb, ◌==◌, if◌then◌else◌, Bool, true, false, not,
  ◌&&◌, ◌||◌, Option, none, some, List, [], ◌∷◌, ◌++◌, length, get_elem?, any, slice,
}
use my_telemetry_server.Base.Int.{ℤ}
use my_telemetry_server.Base.Result.{Result, ok, err, ◌>>=◌}
use my_telemetry_server.Storage.Frame.{
  Frame, FrameId, FrameError, frame_len, same_frame, from_bytes, new,
}
use my_telemetry_server.Storage.Entry.{EntryError}
use my_telemetry_server.Storage.Cells.{Cell, HourCells}

abbrev pub max_data_files : ℕ
max_data_files = 256

-- The length a data file grows to.
abbrev pub data_file_len : ℕ
data_file_len = 3 * 1024 * 1024 * 1024

-- Where an entry is, or goes.
pub record Position : Type 0 where
  pub frame : FrameId
  pub offset : ℕ

unfoldable pub position_of : Cell → Position
position_of c = record { frame = c.frame; offset = c.offset }

unfoldable pub to_cell : Position → Cell
to_cell p = record { frame = p.frame; offset = p.offset % 2 ^ 32 }

pub record DataFile : Type 0 where
  -- Its bytes, once it exists.
  pub file : Option (List ℕ)
  -- Its frames, flushed or not.
  pub frames_count : ℕ
  pub frames_on_disk : ℕ

pub record HourFile : Type 0 where
  pub hour_start : ℤ
  -- Its bytes, once it exists.
  pub index_file : Option (List ℕ)
  pub data_files : List DataFile
  pub data_file_len : ℕ
  pub cells : HourCells
  -- The last frame of the chain.
  pub tail : Option FrameId
  pub last_second : Option ℕ
  -- The frames in memory.
  pub frames : FrameId → Option Frame
  -- The frames changed since the last flush.
  pub dirty : List FrameId
  pub index_clean_on_disk : Bool

pub data HourError : Type 0 where
  no_frame : FrameId → HourError
  short_read : FrameId → HourError
  frame_error : FrameError → HourError
  entry_error : EntryError → HourError
  block_error : HourError
  single_entry : FrameId → HourError
  fits_neither : ℕ → FrameId → HourError
  no_room : HourError
  too_many_files : HourError
  chain_loop : HourError
  -- An `unwrap`, an index or an `assert!` which fails.
  panicked : HourError

unfoldable pub or_panic {ℓ} : {A : Type ℓ} → Option A → Result HourError A
or_panic none = err panicked
or_panic (some a) = ok a

unfoldable pub of_frame {ℓ} : {A : Type ℓ} → Result FrameError A → Result HourError A
of_frame (ok a) = ok a
of_frame (err e) = err (frame_error e)

unfoldable pub of_entry {ℓ} : {A : Type ℓ} → Result EntryError A → Result HourError A
of_entry (ok a) = ok a
of_entry (err e) = err (entry_error e)

-- `read_exact_at`
read_bytes : FrameId → Option (List ℕ) → Result HourError Frame
read_bytes id none = err (no_frame id)
read_bytes id (some bytes) =
    if leb (id.offset + frame_len) (length bytes)
    then of_frame (from_bytes (slice id.offset (id.offset + frame_len) bytes))
    else err (short_read id)

read_data_file : FrameId → Option DataFile → Result HourError Frame
read_data_file id none = err (no_frame id)
read_data_file id (some d) =
    if (id.offset % frame_len == 0) && ltb (id.offset / frame_len) d.frames_on_disk
    then read_bytes id d.file
    else err (no_frame id)

unfoldable pub read_frame_from_disk : HourFile → FrameId → Result HourError Frame
unfolding read_data_file read_bytes
read_frame_from_disk h id = read_data_file id (get_elem? h.data_files id.file)

or_from_disk : Option Frame → Result HourError Frame → Result HourError Frame
or_from_disk (some f) r = ok f
or_from_disk none r = r

-- The frame, without keeping it in memory.
unfoldable pub read_frame : HourFile → FrameId → Result HourError Frame
unfolding or_from_disk
read_frame h id = or_from_disk (h.frames id) (read_frame_from_disk h id)

-- `frames.insert`
unfoldable pub put_frame : HourFile → FrameId → Frame → HourFile
put_frame h id f = record h {
  frames = λ (at : FrameId). if same_frame at id then some f else h.frames at;
}

keep_frame : HourFile → FrameId → Result HourError Frame → Result HourError (Frame × HourFile)
keep_frame h id (ok f) = ok (f, put_frame h id f)
keep_frame h id (err e) = err e

frame_or : HourFile → FrameId → Option Frame → Result HourError (Frame × HourFile)
frame_or h id (some f) = ok (f, h)
frame_or h id none = keep_frame h id (read_frame_from_disk h id)

-- The frame, read into memory for writing.
unfoldable pub frame : HourFile → FrameId → Result HourError (Frame × HourFile)
unfolding frame_or keep_frame
frame h id = frame_or h id (h.frames id)

-- `self.frames.get_mut(&frame).unwrap()`
unfoldable pub frame_in_memory : HourFile → FrameId → Result HourError Frame
frame_in_memory h id = or_panic (h.frames id)

unfoldable pub mark_dirty : HourFile → FrameId → HourFile
mark_dirty h id = record h {
  dirty = if any (same_frame id) h.dirty then h.dirty else h.dirty ++ (id ∷ []);
}

pub count_frames : List DataFile → ℕ
count_frames [] = 0
count_frames (d ∷ ds) = d.frames_count + count_frames ds

unfoldable pub frames_count : HourFile → ℕ
unfolding count_frames
frames_count h = count_frames h.data_files

unfoldable pub last_file : List DataFile → Option DataFile
last_file [] = none
last_file (d ∷ []) = some d
last_file (d ∷ e ∷ ds) = last_file (e ∷ ds)

-- `div_ceil`
frames_per_file : ℕ → ℕ
frames_per_file len = (len + (frame_len - 1)) / frame_len

room_in_last : ℕ → Option DataFile → ℕ
room_in_last per_file none = 0
room_in_last per_file (some last) = per_file - last.frames_count

-- How many frames more the data files can take. There are at most 256 of them.
unfoldable pub room_for_frames : HourFile → ℕ
unfolding frames_per_file room_in_last last_file
room_for_frames h =
    room_in_last (frames_per_file h.data_file_len) (last_file h.data_files)
    + (max_data_files - length h.data_files) * frames_per_file h.data_file_len

is_full : ℕ → Option DataFile → Bool
is_full len none = true
is_full len (some last) = leb len (last.frames_count * frame_len)

abbrev empty_file : DataFile
empty_file = record { file = none; frames_count = 0; frames_on_disk = 0 }

frames_of_last : Option DataFile → ℕ
frames_of_last none = 0
frames_of_last (some last) = last.frames_count

count_in_last : List DataFile → List DataFile
count_in_last [] = []
count_in_last (d ∷ []) = record d { frames_count = (d.frames_count + 1) % 2 ^ 32 } ∷ []
count_in_last (d ∷ e ∷ ds) = d ∷ count_in_last (e ∷ ds)

-- The id of the frame after the last one of the last file, an offset of `u32`.
next_frame_id : List DataFile → FrameId
next_frame_id ds = record {
  file = (length ds - 1) % 256;
  offset = (frames_of_last (last_file ds) * frame_len) % 2 ^ 32;
}

allocate_in : HourFile → List DataFile → FrameId × HourFile
allocate_in h ds =
    let id : FrameId = next_frame_id ds in
    (id, put_frame (record h { data_files = count_in_last ds }) id new)

-- A new frame goes into the last data file until it is as long as one grows, into a new one then.
unfoldable pub allocate_frame : HourFile → Result HourError (FrameId × HourFile)
unfolding is_full allocate_in next_frame_id frames_of_last count_in_last last_file
allocate_frame h =
    if not (is_full h.data_file_len (last_file h.data_files))
    then ok (allocate_in h h.data_files)
    else if leb max_data_files (length h.data_files)
    then err too_many_files
    else ok (allocate_in h (h.data_files ++ (empty_file ∷ [])))
