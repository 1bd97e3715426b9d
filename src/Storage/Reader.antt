-- ===== src/Storage/Reader.antt =====
-- my-telemetry-server/src/metrics_storage/key_index.rs: the lengths of the file of a key index, how
-- they are written and read, and the packed seconds.
pub mod Packed
use my_telemetry_server.Base.{
  ℕ, zero, suc, ◌+◌, ◌-◌, ◌%◌, ◌^◌, ltb, leb, if◌then◌else◌, Bool, Option, none, some, List, [],
  ◌∷◌, ◌++◌, length, drop,
}
use my_telemetry_server.Storage.Varint.{Varint}
use my_telemetry_server.Storage.Cells.{seconds_per_hour}
use my_telemetry_server.Storage.KeyIndex.{SecondCounts}

pub record Reader : Type 0 where
  pub bytes : List ℕ
  pub position : ℕ

module _ (varint : Varint) where
  unfoldable pub write_len : ℕ → List ℕ
  write_len len = varint.serialize (len % 2 ^ 32)

  -- What was read, and the reader after it.
  taken_len : Reader → Option (ℕ × ℕ) → Option (ℕ × Reader)
  taken_len r none = none
  taken_len r (some (value, size)) = some (value, record r { position = r.position + size })

  len_of : Reader → List ℕ → Option (ℕ × Reader)
  len_of r [] = none
  len_of r (b ∷ bs) = taken_len r (varint.from_slice (b ∷ bs))

  unfoldable pub read_len : Reader → Option (ℕ × Reader)
  unfolding len_of taken_len
  read_len r = len_of r (drop r.position r.bytes)

  -- The step from the second before is an `u16` subtraction.
  pack_from : ℕ → SecondCounts → List ℕ
  pack_from before [] = []
  pack_from before ((second, records) ∷ es) =
      write_len ((second + 2 ^ 16 - before) % 2 ^ 16) ++ (write_len records ++ pack_from second es)

  unfoldable pub pack_seconds : SecondCounts → List ℕ
  unfolding pack_from
  pack_seconds es = pack_from 0 es

  with_step : ℕ → Option (ℕ × Reader) → Option (ℕ × ℕ × Reader)
  with_step step none = none
  with_step step (some (records, r)) = some (step, records, r)

  -- The two numbers of a second, and the reader after them.
  read_two : Option (ℕ × Reader) → Option (ℕ × ℕ × Reader)
  read_two none = none
  read_two (some (step, r)) = with_step step (read_len r)

  -- The loop of `unpack_seconds`: `none` - out of fuel, `some none` - it does not read.
  unpack_from : ℕ → Reader → ℕ → SecondCounts → Option (Option SecondCounts)
  unpack_from zero r second result = none
  unpack_from (suc fuel) r second result =
      let more : Option (Option SecondCounts) = elim (read_two (read_len r)) [
        | none ↦ some none
        | some (step, records, r') ↦
            let rest : Option (Option SecondCounts) =
              unpack_from fuel r' (second + step) (result ++ ((second + step, records) ∷ [])) in
            if leb seconds_per_hour (second + step) then some none else rest
      ] in
      if ltb r.position (length r.bytes) then more else some (some result)

  -- A second takes two bytes at least, so a round for each byte and one more are enough.
  unfoldable pub unpack_seconds : List ℕ → Option (Option SecondCounts)
  unfolding unpack_from read_two with_step
  unpack_seconds bytes =
      unpack_from (suc (length bytes)) (record { bytes = bytes; position = 0 }) 0 []
