-- ===== src/Storage/Runs.antt =====
-- my-telemetry-server/src/metrics_storage/search.rs: which seconds of an hour a search reads, and in
-- which passes. The read itself (`collect`) is not modelled.
pub mod Cover
use my_telemetry_server.Base.{
  ℕ, zero, suc, ◌+◌, ◌-◌, ◌*◌, ◌/◌, ◌%◌, ◌^◌, ltb, ◌==◌, if◌then◌else◌, Bool, true, false, Option,
  none, some, List, [], ◌∷◌, ◌++◌, max,
}
use my_telemetry_server.Base.Int.{ℤ}
use my_telemetry_server.Storage.Frame.{frame_len}
use my_telemetry_server.Storage.HourFile.{data_file_len}
use my_telemetry_server.Storage.Cells.{HourCells, Cell, count, total, last}
use my_telemetry_server.Storage.KeyIndex.{FilterCounts}
use my_telemetry_server.Storage.KeyIndex

abbrev pub local_read_len : ℕ
local_read_len = 64 * 1024

abbrev pub s3_read_len : ℕ
s3_read_len = 1024 * 1024

-- `is_local` - the data files are local ones, not those in S3.
pub record HourSource : Type 0 where
  pub hour_start : ℤ
  pub is_local : Bool
  pub cells : HourCells
  pub counts : FilterCounts

estimate_of : FilterCounts → ℕ → Option ℕ → Option ℕ
estimate_of counts second none = none
estimate_of counts second (some records) = KeyIndex.estimate counts records second

-- `none` - out of bounds.
unfoldable pub estimate_at : HourSource → ℕ → Option ℕ
unfolding estimate_of
estimate_at s second = estimate_of s.counts second (count s.cells second)

-- The variables of the loop of `runs`.
pub record Scan : Type 0 where
  pub result : List (ℕ × ℕ)
  pub current : Option (ℕ × ℕ)
  pub gap : ℕ

-- The run which is read is read on to the second, or another one starts.
extend : ℕ → ℕ → Scan → Option (ℕ × ℕ) → Scan
extend records_per_read second scan none = record scan { current = some (second, second); gap = 0 }
extend records_per_read second scan (some (start, end)) =
    if ltb scan.gap records_per_read
    then record scan { current = some (start, second); gap = 0 }
    else record scan {
      result = scan.result ++ ((start, end) ∷ []);
      current = some (second, second);
      gap = 0;
    }

-- A round of the loop, on the records of the second and how many of them match at most.
unfoldable pub round : ℕ → ℕ → ℕ → ℕ → Scan → Scan
unfolding extend
round records_per_read second records estimate scan =
    if records == 0
    then scan
    else if estimate == 0
    then record scan { gap = scan.gap + records }
    else extend records_per_read second scan scan.current

-- The two numbers of a round.
numbers : Option ℕ → Option ℕ → Option (ℕ × ℕ)
numbers none estimate = none
numbers (some records) none = none
numbers (some records) (some estimate) = some (records, estimate)

numbers_at : HourSource → ℕ → Option (ℕ × ℕ)
numbers_at s second = numbers (count s.cells second) (estimate_at s second)

-- So many rounds from the second on; `none` - out of bounds.
unfoldable pub rounds : ℕ → HourSource → ℕ → ℕ → Scan → Option Scan
unfolding numbers_at numbers
rounds zero s records_per_read second scan = some scan
rounds (suc n) s records_per_read second scan = elim (numbers_at s second) [
  | none ↦ none
  | some (records, estimate) ↦
      rounds n s records_per_read (suc second) (round records_per_read second records estimate scan)
]

unfoldable pub with_current : List (ℕ × ℕ) → Option (ℕ × ℕ) → List (ℕ × ℕ)
with_current result none = result
with_current result (some run) = result ++ (run ∷ [])

all_runs : Option Scan → Option (List (ℕ × ℕ))
all_runs none = none
all_runs (some scan) = some (with_current scan.result scan.current)

unfoldable pub runs : HourSource → ℕ → ℕ → ℕ → Option (List (ℕ × ℕ))
unfolding all_runs
runs s from_second to_second records_per_read = all_runs (
    rounds (suc to_second - from_second) s records_per_read from_second
      (record { result = []; current = none; gap = 0 }))

per_read : ℕ → ℕ → Option (ℕ × Cell) → ℕ
per_read read_len total none = 0
per_read read_len total (some (second, cell)) =
    read_len * total / (cell.frame.file * data_file_len + cell.frame.offset + frame_len)

-- The product is one of `u64`: at most 3600 counts of `u32` times a megabyte, it does not wrap.
unfoldable pub records_per_read : HourSource → ℕ
unfolding per_read
records_per_read s =
    per_read (if s.is_local then local_read_len else s3_read_len) (total s.cells) (last s.cells)

-- `div_ceil`
unfoldable pub div_ceil : ℕ → ℕ → ℕ
div_ceil a b = (a + b - 1) / b

unfoldable pub next_wanted : ℕ → ℕ → ℕ → ℕ
next_wanted missing estimated matched =
    if matched == 0
    then (max estimated 1 * 2) % 2 ^ 64
    else div_ceil ((missing * estimated) % 2 ^ 64) matched
