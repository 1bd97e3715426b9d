-- ===== src/Storage/Entry.antt =====
-- my-telemetry-server/src/metrics_storage/frame.rs: the entries of a frame, and the walk over them.
pub mod RoundTrip
pub mod Walk
pub mod Offsets
use my_telemetry_server.Base.{
  ℕ, zero, suc, ◌+◌, ◌-◌, ◌%◌, ◌^◌, ltb, leb, if◌then◌else◌, ◌||◌, Option, none, some, List, [],
  ◌∷◌, ◌++◌, length, drop, slice,
}
use my_telemetry_server.Base.Bytes.{to_le_bytes, from_le_bytes}
use my_telemetry_server.Base.Int.{ℤ, to_u64, from_u64}
use my_telemetry_server.Base.Result.{Result, ok, err}
use my_telemetry_server.Storage.Varint.{Varint}
use my_telemetry_server.Storage.Frame.{
  Frame, records_end, frame_header_len, entry_time_len, max_entry_body_len,
}

pub record Entry : Type 0 where
  -- The whole entry, its length prefix included.
  pub len : ℕ
  pub time : ℤ
  pub payload : List ℕ

-- What `parse_entry` refuses.
pub data EntryError : Type 0 where
  no_entry : ℕ → EntryError
  length_cut : ℕ → EntryError
  wrong_len : ℕ → ℕ → EntryError
  past_end : ℕ → ℕ → EntryError

-- The part of `parse_entry` after the length is read.
parse_body : List ℕ → ℕ → ℕ → ℕ → Result EntryError Entry
parse_body records offset body_len prefix_len =
    let body_start : ℕ = offset + prefix_len in
    let end : ℕ = body_start + body_len in
    if ltb body_len entry_time_len || ltb max_entry_body_len body_len
    then err (wrong_len offset body_len)
    else if ltb (length records) end
    then err (past_end offset body_len)
    else ok (record {
      len = end - offset;
      time = from_u64 (from_le_bytes (slice body_start (body_start + entry_time_len) records));
      payload = slice (body_start + entry_time_len) end records;
    })

parse_len : List ℕ → ℕ → Option (ℕ × ℕ) → Result EntryError Entry
parse_len records offset none = err (length_cut offset)
parse_len records offset (some (body_len, prefix_len)) =
    parse_body records offset body_len prefix_len

module _ (varint : Varint) where
  unfoldable pub parse_entry : List ℕ → ℕ → Result EntryError Entry
  unfolding parse_len parse_body
  parse_entry records offset =
      if leb (length records) offset
      then err (no_entry offset)
      else parse_len records offset (varint.from_slice (drop offset records))

  unfoldable pub encode_entry : ℤ → List ℕ → List ℕ
  encode_entry time payload =
      let body_len : ℕ = entry_time_len + length payload in
      varint.serialize (body_len % 2 ^ 32) ++ (to_le_bytes 8 (to_u64 time) ++ payload)

  unfoldable pub entry_at : Frame → ℕ → Result EntryError Entry
  entry_at f offset = parse_entry (slice 0 (records_end f) f.bytes) offset

  -- The loop of `entry_offsets`: `none` - it ran out of fuel.
  offsets_from : ℕ → Frame → ℕ → List ℕ → Option (Result EntryError (List ℕ))
  offsets_from zero f offset result = none
  offsets_from (suc fuel) f offset result =
      let more : Option (Result EntryError (List ℕ)) = elim (entry_at f offset) [
        | ok entry ↦ offsets_from fuel f (offset + entry.len) (result ++ (offset ∷ []))
        | err e ↦ some (err e)
      ] in
      if ltb offset (records_end f) then more else some (ok result)

  -- An entry takes a byte at least, so a round for each byte and one more are enough.
  unfoldable pub entry_offsets : Frame → Option (Result EntryError (List ℕ))
  unfolding offsets_from
  entry_offsets f = offsets_from (suc (records_end f)) f frame_header_len []
