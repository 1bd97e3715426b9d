-- ===== src/Storage/Frame.antt =====
-- my-telemetry-server/src/metrics_storage/frame.rs: a frame of a data file and the entries in it.
-- A frame is its bytes, as in the source; every operation reads and writes them at the offsets the
-- source does. `&[u8]` is a list of numbers, `usize` offsets are numbers, `u8`, `u16` and `u32`
-- keep their width where a value is written.
mod Layout
mod Edits
pub mod Records
pub mod Links
use my_telemetry_server.Base.{
  ℕ, zero, suc, ◌+◌, ◌-◌, ◌*◌, ◌/◌, ◌%◌, ◌^◌, ltb, leb, ◌==◌, if◌then◌else◌, Bool, true, false, not,
  ◌&&◌, ◌||◌, Option, none, some, List, [], ◌∷◌, ◌++◌, length, take, replicate, slice, splice,
}
use my_telemetry_server.Base.Bytes.{to_le_bytes, from_le_bytes}
use my_telemetry_server.Base.Int.{ℤ, to_u64, from_u64}
use my_telemetry_server.Base.Result.{Result, ok, err, ◌>>=◌}
use my_telemetry_server.Storage.Varint.{Varint}

abbrev pub frame_len : ℕ
frame_len = 32 * 1024

abbrev pub frame_header_len : ℕ
frame_header_len = 11

abbrev pub frame_capacity : ℕ
frame_capacity = frame_len - frame_header_len

abbrev pub entry_time_len : ℕ
entry_time_len = 8

abbrev pub max_entry_body_len : ℕ
max_entry_body_len = 8 * 1024

pub record FrameId : Type 0 where
  pub file : ℕ
  pub offset : ℕ

abbrev pub head : FrameId
head = record { file = 0; offset = 0 }

-- The derived `==`.
unfoldable pub same_frame : FrameId → FrameId → Bool
same_frame a b = (a.file == b.file) && (a.offset == b.offset)

-- What `from_bytes` refuses.
pub data FrameError : Type 0 where
  wrong_len : ℕ → FrameError
  wrong_size : ℕ → FrameError
  too_much_used : ℕ → FrameError
  chained_to : FrameId → FrameError

pub record Frame : Type 0 where
  pub bytes : List ℕ

-- `bytes[at]`
pub byte_at : ℕ → List ℕ → ℕ
byte_at at l = from_le_bytes (slice at (at + 1) l)

unfoldable pub new : Frame
new = record { bytes = splice 0 (to_le_bytes 4 frame_len) (replicate frame_len 0) }

unfoldable pub next : Frame → Option FrameId
unfolding same_frame byte_at slice from_le_bytes
next f =
    let id : FrameId = record {
      file = byte_at 4 f.bytes;
      offset = from_le_bytes (slice 5 9 f.bytes);
    } in
    if not (same_frame id head) then some id else none

id_or_head : Option FrameId → FrameId
id_or_head none = head
id_or_head (some id) = id

unfoldable pub set_next : Frame → Option FrameId → Frame
unfolding id_or_head
set_next f to =
    let id : FrameId = id_or_head to in
    record {
      bytes =
          splice 5 (to_le_bytes 4 (id.offset % 2 ^ 32)) (splice 4 ((id.file % 256) ∷ []) f.bytes);
    }

pub used_in : List ℕ → ℕ
used_in bytes = from_le_bytes (slice 9 11 bytes)

unfoldable pub used : Frame → ℕ
unfolding used_in
used f = used_in f.bytes

pub set_used : ℕ → List ℕ → List ℕ
set_used n bytes = splice 9 (to_le_bytes 2 (n % 2 ^ 16)) bytes

unfoldable pub records_end : Frame → ℕ
unfolding used
records_end f = frame_header_len + used f

unfoldable pub free : Frame → ℕ
unfolding used
free f = frame_capacity - used f

pub chained : List ℕ → Option FrameId → Result FrameError Frame
chained bytes none = ok (record { bytes = bytes })
chained bytes (some id) =
    if not (id.offset % frame_len == 0) then err (chained_to id) else ok (record { bytes = bytes })

unfoldable pub from_bytes : List ℕ → Result FrameError Frame
unfolding chained
from_bytes bytes =
    let frame : Frame = record { bytes = bytes } in
    let size : ℕ = from_le_bytes (slice 0 4 bytes) in
    if not (length bytes == frame_len)
    then err (wrong_len (length bytes))
    else if not (size == frame_len)
    then err (wrong_size size)
    else if ltb frame_capacity (used frame)
    then err (too_much_used (used frame))
    else chained bytes (next frame)

-- `none` is the failed `assert!`.
unfoldable pub insert : Frame → ℕ → List ℕ → Option Frame
unfolding records_end free set_used
insert f offset entry =
    let end = records_end f in
    let moved = splice (offset + length entry) (slice offset end f.bytes) f.bytes in
    let put = splice offset entry moved in
    if leb frame_header_len offset && leb offset end && leb (length entry) (free f)
    then some (record { bytes = set_used (used_in put + length entry) put })
    else none

unfoldable pub remove : Frame → ℕ → ℕ → Frame
unfolding records_end set_used
remove f offset len =
    let end = records_end f in
    let moved = splice offset (slice (offset + len) end f.bytes) f.bytes in
    let filled = splice (end - len) (replicate len 0) moved in
    record { bytes = set_used (used_in filled - len) filled }

-- The bytes taken out, and the frame without them.
unfoldable pub split_off : Frame → ℕ → List ℕ × Frame
unfolding records_end set_used
split_off f offset =
    let end = records_end f in
    let filled = splice offset (replicate (end - offset) 0) f.bytes in
    (slice offset end f.bytes, record { bytes = set_used (offset - frame_header_len) filled })
