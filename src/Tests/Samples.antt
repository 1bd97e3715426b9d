-- ===== src/Tests/Samples.antt =====
-- Concrete inputs: a variable-size number, a calendar, a frame with entries.
use my_telemetry_server.Base.{
  ℕ, ◌^◌, ◌≤◌, ◌<◌, ◌≡◌, refl, arith, ltb, if◌then◌else◌, Option, none, some, List, [], ◌∷◌, ◌++◌,
  length, take, length-append, take-append, splice, slice, replicate,
}
use my_telemetry_server.Base.Bytes.{
  to_le_bytes, from_le_bytes, length-to_le_bytes, from_le_bytes-to_le_bytes,
}
use my_telemetry_server.Base.Result.{ok}
use my_telemetry_server.Base.{◌+◌}
use my_telemetry_server.Base.Int.{pos}
use my_telemetry_server.Storage.Varint.{Varint}
use my_telemetry_server.Storage.Frame.{Frame, new, from_bytes, used, free, next}
use my_telemetry_server.Storage.Frame.Records.{IsValid, from_bytes_iff}
use my_telemetry_server.Storage.Rec.{Rec}
use my_telemetry_server.Base.Str.{bytes_of}

-- Four bytes for each number.
pub read_four : List ℕ → Option (ℕ × ℕ)
read_four l = if ltb (length l) 4 then none else some (from_le_bytes (take 4 l), 4)

pub length_four : (v : ℕ) → length (to_le_bytes 4 v) ≡ 4
length_four v = length-to_le_bytes 4 v

pub read_four-to_le_bytes :
    (v : ℕ) (rest : List ℕ)
    → v < 2 ^ 32
    → read_four (to_le_bytes 4 v ++ rest) ≡ some (v, length (to_le_bytes 4 v))
unfolding read_four
read_four-to_le_bytes v rest h = ground (
  arith,
  length_four v,
  length-append (to_le_bytes 4 v) rest,
  take-append 4 (to_le_bytes 4 v) rest (omega (arith, length_four v)),
  from_le_bytes-to_le_bytes 4 v h,
)

pub read_four_takes : (l : List ℕ) (v n : ℕ) → read_four l ≡ some (v, n) → 1 ≤ n
unfolding read_four
read_four_takes l v n e = ground arith

abbrev pub four_bytes : Varint
four_bytes = record {
  serialize = to_le_bytes 4;
  from_slice = read_four;
  reads_back = read_four-to_le_bytes;
  writes_some = λ v h. omega (arith, length_four v);
  takes_some = read_four_takes;
}

abbrev pub sample : Frame
sample = record { bytes = splice 9 (6 ∷ 0 ∷ []) (splice 11 (1 ∷ 2 ∷ 3 ∷ 4 ∷ 5 ∷ 6 ∷ []) new.bytes) }

sample_reads : from_bytes sample.bytes ≡ ok sample
unfolding from_bytes new replicate splice slice to_le_bytes from_le_bytes used next
sample_reads = refl

pub used-sample : used sample ≡ 6
unfolding new replicate splice slice to_le_bytes from_le_bytes used
used-sample = refl

pub free-sample : 2 ≤ free sample
unfolding free used
free-sample = omega (arith, used-sample)

pub sample-IsValid : IsValid sample
sample-IsValid = (from_bytes_iff sample).0 sample_reads

-- An event of a process which started at the time.
abbrev pub event : ℕ → Rec
event at = record {
  process_id = pos at;
  started_at = pos at;
  finished_at = pos (at + 10);
  service_name = bytes_of "billing";
  event_data = bytes_of "charge";
  success = none;
  fail = none;
  tags = [];
}
