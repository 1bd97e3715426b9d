-- ===== src/Tests/Frames.antt =====
-- The theorems on frames and their entries, at concrete frames.
use my_telemetry_server.Base.{
  ℕ, ◌+◌, ◌*◌, false, ◌≡◌, ◌≢◌, refl, arith, none, some, List, [], ◌∷◌, ◌++◌, length, take, drop,
  splice, slice, replicate,
}
use my_telemetry_server.Base.Bytes.{to_le_bytes, from_le_bytes}
use my_telemetry_server.Base.Result.{ok}
use my_telemetry_server.Base.Int.{ℤ, pos}
use my_telemetry_server.Storage.Frame.{
  Frame, frame_header_len, records_end, new, from_bytes, insert, remove, split_off, used, next,
  set_next, same_frame, FrameId, head, frame_len,
}
use my_telemetry_server.Storage.Frame.Records.{
  records, IsValid, from_bytes_iff, records-insert, records-remove, records-split_off,
}
use my_telemetry_server.Storage.Frame.Links.{next-set_next}
use my_telemetry_server.Storage.Entry.{parse_entry, encode_entry, entry_offsets}
use my_telemetry_server.Storage.Entry.RoundTrip.{encode_all, starts, parse_entry-encode_entry}
use my_telemetry_server.Storage.Entry.Walk.{entry_offsets-ne-none, entry_offsets-encode_all}
use my_telemetry_server.Tests.Samples.{four_bytes, sample, used-sample, free-sample, sample-IsValid}
use mathlib.Core.Logic.{◌↔◌}

records-insert_example :
    (f' : Frame) × (insert sample 14 (7 ∷ 8 ∷ []) ≡ some f')
    × (records f' ≡ take 3 (records sample) ++ ((7 ∷ 8 ∷ []) ++ drop 3 (records sample)))
    × (used f' ≡ used sample + 2)
    × (next f' ≡ next sample)
    × IsValid f'
records-insert_example =
    records-insert sample 3 sample-IsValid (omega (arith, used-sample)) (7 ∷ 8 ∷ []) free-sample

records-split_off_example :
    ((split_off sample 14).0 ≡ drop 3 (records sample))
    × (records (split_off sample 14).1 ≡ take 3 (records sample))
    × (next (split_off sample 14).1 ≡ next sample)
    × IsValid (split_off sample 14).1
records-split_off_example = records-split_off sample 3 sample-IsValid (omega (arith, used-sample))

records-remove_example :
    (records (remove sample 13 3) ≡ take 2 (records sample) ++ drop 5 (records sample))
    × (next (remove sample 13 3) ≡ next sample)
    × IsValid (remove sample 13 3)
records-remove_example =
    records-remove sample 2 sample-IsValid (omega (arith, used-sample)) 3
      (omega (arith, used-sample))

from_bytes_iff_example : (from_bytes sample.bytes ≡ ok sample) ↔ IsValid sample
from_bytes_iff_example = from_bytes_iff sample

parse_entry-encode_entry_example :
    parse_entry four_bytes
      ((1 ∷ 2 ∷ []) ++ (encode_entry four_bytes (pos 77) (5 ∷ 6 ∷ []) ++ (9 ∷ [])))
      2
    ≡ ok (record {
      len = length (encode_entry four_bytes (pos 77) (5 ∷ 6 ∷ []));
      time = pos 77;
      payload = 5 ∷ 6 ∷ [];
    })
parse_entry-encode_entry_example =
    parse_entry-encode_entry four_bytes (1 ∷ 2 ∷ []) (5 ∷ 6 ∷ []) (9 ∷ []) (pos 77) (omega arith)
      (omega arith)

entry_offsets-ne-none_example : entry_offsets four_bytes sample ≢ none
entry_offsets-ne-none_example = entry_offsets-ne-none four_bytes sample

two_entries : List (ℤ × List ℕ)
two_entries = (pos 77, 5 ∷ 6 ∷ []) ∷ (pos 78, []) ∷ []

framed : Frame
framed = record {
  bytes = splice 9 (26 ∷ 0 ∷ []) (splice 11 (encode_all four_bytes two_entries) new.bytes);
}

framed_reads : from_bytes framed.bytes ≡ ok framed
unfolding framed from_bytes new replicate splice slice to_le_bytes from_le_bytes used next
    two_entries encode_entry
framed_reads = refl

framed-records : records framed ≡ encode_all four_bytes two_entries
unfolding framed records records_end new replicate splice slice to_le_bytes from_le_bytes used
    two_entries encode_entry
framed-records = refl

entry_offsets-encode_all_example :
    entry_offsets four_bytes framed ≡ some (ok (starts four_bytes frame_header_len two_entries))
entry_offsets-encode_all_example =
    entry_offsets-encode_all four_bytes framed two_entries ((from_bytes_iff framed).0 framed_reads)
      framed-records (unfold two_entries in omega arith)

abbrev third_frame : FrameId
third_frame = record { file = 1; offset = 2 * frame_len }

third_frame-not_head : same_frame third_frame head ≡ false
unfolding same_frame
third_frame-not_head = refl

next-set_next_example : next (set_next sample (some third_frame)) ≡ some third_frame
next-set_next_example =
    next-set_next sample sample-IsValid third_frame
      (record { file = omega arith; offset = omega arith; aligned = omega arith })
      third_frame-not_head
