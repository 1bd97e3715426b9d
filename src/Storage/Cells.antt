-- ===== src/Storage/Cells.antt =====
-- my-telemetry-server/src/metrics_storage/cells.rs: the index of an hour - for each of its seconds
-- where the first entry is and how many records there are - and the file it is kept in.
pub mod File
pub mod Search
use my_telemetry_server.Base.{
  ℕ, zero, suc, ◌+◌, ◌-◌, ◌*◌, ◌%◌, ◌^◌, ltb, ◌==◌, if◌then◌else◌, Bool, not, ◌||◌, Option, none,
  some, List, [], ◌∷◌, ◌++◌, map, length, take, drop, replicate, get_elem?, set, slice,
}
use my_telemetry_server.Base.Bytes.{to_le_bytes, from_le_bytes}
use my_telemetry_server.Storage.Frame.{FrameId, frame_len}

abbrev pub seconds_per_hour : ℕ
seconds_per_hour = 3600

abbrev pub cell_len : ℕ
cell_len = 9

abbrev pub cells_len : ℕ
cells_len = seconds_per_hour * cell_len

-- `u32::MAX`
abbrev pub no_offset : ℕ
no_offset = 2 ^ 32 - 1

abbrev pub index_file_len : ℕ
index_file_len = cells_len + 1

abbrev pub index_state_offset : ℕ
index_state_offset = cells_len

abbrev pub index_dirty : ℕ
index_dirty = 1

abbrev pub index_clean : ℕ
index_clean = 0

pub record Cell : Type 0 where
  pub frame : FrameId
  pub offset : ℕ

abbrev pub empty_cell : Cell
empty_cell = record { frame = record { file = 255; offset = no_offset }; offset = no_offset }

unfoldable pub is_empty : Cell → Bool
is_empty c = c.offset == no_offset

-- The file, and the offset of the entry in it: an addition of `u32`.
unfoldable pub to_file_offset : Cell → ℕ × ℕ
unfolding is_empty
to_file_offset c =
    if is_empty c then (0, no_offset) else (c.frame.file, (c.frame.offset + c.offset) % 2 ^ 32)

unfoldable pub from_file_offset : ℕ → ℕ → Cell
from_file_offset file offset =
    let frame : ℕ = offset - offset % frame_len in
    if offset == no_offset
    then empty_cell
    else record { frame = record { file = file; offset = frame }; offset = offset - frame }

pub record HourCells : Type 0 where
  pub cells : List Cell
  pub counts : List ℕ

unfoldable pub new : HourCells
new = record {
  cells = replicate seconds_per_hour empty_cell;
  counts = replicate seconds_per_hour 0;
}

-- `none` is the panic of an index out of bounds.
unfoldable pub get : HourCells → ℕ → Option Cell
get h second = get_elem? h.cells second

unfoldable pub count : HourCells → ℕ → Option ℕ
count h second = get_elem? h.counts second

unfoldable pub set_cell : HourCells → ℕ → Cell → Option HourCells
set_cell h second cell =
    if ltb second (length h.cells)
    then some (record h { cells = set h.cells second cell })
    else none

unfoldable pub set_count : HourCells → ℕ → ℕ → Option HourCells
set_count h second n =
    if ltb second (length h.counts)
    then some (record h { counts = set h.counts second n })
    else none

unfoldable pub sum : List ℕ → ℕ
sum [] = 0
sum (n ∷ ns) = n + sum ns

-- A sum of `u64` over 3600 counts of `u32`: it can not overflow.
unfoldable pub total : HourCells → ℕ
unfolding sum
total h = sum h.counts

-- What the walk over the cells that are not empty makes of one of them.
unfoldable pub change_used : (Cell → Cell) → Cell → Cell
unfolding is_empty
change_used f c = if not (is_empty c) then f c else c

-- The walk over the cells that are not empty, with what its body does to each of them.
unfoldable pub iter_mut : (Cell → Cell) → HourCells → HourCells
unfolding change_used
iter_mut f h = record h { cells = map (change_used f) h.cells }

-- The first of the cells which is not empty, the first of them being the one of `second`.
find_first : ℕ → List Cell → Option (ℕ × Cell)
find_first second [] = none
find_first second (c ∷ cs) =
    let rest : Option (ℕ × Cell) = find_first (suc second) cs in
    if not (is_empty c) then some (second, c) else rest

unfoldable pub first_from : HourCells → ℕ → Option (ℕ × Cell)
unfolding find_first is_empty
first_from h second = find_first second (drop second h.cells)

-- The last of them, the walk down from the end of the hour: what is after the cell comes first.
or_this : ℕ → Cell → Option (ℕ × Cell) → Option (ℕ × Cell)
or_this second c (some found) = some found
or_this second c none = if not (is_empty c) then some (second, c) else none

find_last : ℕ → List Cell → Option (ℕ × Cell)
find_last second [] = none
find_last second (c ∷ cs) = or_this second c (find_last (suc second) cs)

unfoldable pub last : HourCells → Option (ℕ × Cell)
unfolding find_last or_this is_empty
last h = find_last 0 h.cells

-- The nine bytes of a cell.
pub cell_bytes : Cell → ℕ → List ℕ
cell_bytes c n =
    let (file, offset) = to_file_offset c in
    (file ∷ []) ++ (to_le_bytes 4 offset ++ to_le_bytes 4 n)

-- `cells.iter().zip(&counts)`
pub cells_bytes : List Cell → List ℕ → List ℕ
cells_bytes [] ns = []
cells_bytes (c ∷ cs) [] = []
cells_bytes (c ∷ cs) (n ∷ ns) = cell_bytes c n ++ cells_bytes cs ns

unfoldable pub to_index_file : HourCells → List ℕ
unfolding cells_bytes cell_bytes to_file_offset
to_index_file h = cells_bytes h.cells h.counts ++ (index_clean ∷ [])

-- `chunks_exact(CELL_LEN)` of so many chunks.
pub chunks : ℕ → List ℕ → List (List ℕ)
chunks zero bytes = []
chunks (suc k) bytes = take cell_len bytes ∷ chunks k (drop cell_len bytes)

pub cell_of : List ℕ → Cell
cell_of chunk = from_file_offset (from_le_bytes (slice 0 1 chunk)) (from_le_bytes (slice 1 5 chunk))

pub count_of : List ℕ → ℕ
count_of chunk = from_le_bytes (slice 5 9 chunk)

-- The byte after the cells.
pub state_of : List ℕ → ℕ
state_of bytes = from_le_bytes (slice cells_len (cells_len + 1) bytes)

-- Every second is set from its chunk: the 3600 chunks are the cells and the counts.
unfoldable pub from_index_file : List ℕ → Option HourCells
from_index_file bytes =
    let all : List (List ℕ) = chunks seconds_per_hour (take cells_len bytes) in
    if not (length bytes == index_file_len) || not (state_of bytes == index_clean)
    then none
    else some (record { cells = map cell_of all; counts = map count_of all })
