-- ===== src/Tests/Writes.antt =====
-- A record written into an earlier second of an hour which has one entry.
use my_telemetry_server.Base.{◌≡◌, refl, false, none, some, List, [], ◌∷◌, length, inl, inr, arith}
use my_telemetry_server.Base.Int.{pos}
use my_telemetry_server.Storage.Rec.{Rec}
use my_telemetry_server.Storage.Frame.{head}
use my_telemetry_server.Storage.Block.{CompressedBlock}
use my_telemetry_server.Storage.Block.Stored.{Kept, AreBlocks}
use my_telemetry_server.Storage.KeyIndex.{KeyIndex, add_records}
use my_telemetry_server.Storage.KeyIndex as Keys
use my_telemetry_server.Storage.KeyIndex.History.{add_records_lem}
use my_telemetry_server.Storage.ProcessIndex as Processes
use my_telemetry_server.Storage.HourFile.InsertBlocks.{put_all}
use my_telemetry_server.Storage.HourFile.Holds.{Holds}
use my_telemetry_server.Storage.HourFile.Seconds.{Writer, write_second}
use my_telemetry_server.Storage.HourFile.Seconds.Write.{Saved, write_second-Saved}
use my_telemetry_server.Tests.Samples.{four_bytes}
use my_telemetry_server.Tests.Blocks.{small_rec, one_codec, one_sent}
use my_telemetry_server.Tests.HourFiles.{
  entry, one_second, one_second-Written, last_is_one, cells_of_one_second, none_at_first,
}

abbrev writer : Writer
writer = record {
  hour = one_second;
  key_index = Keys.new;
  key_index_changed = false;
  process_index = Processes.new (pos 0);
  process_index_changed = none;
}

added : (keys : KeyIndex) × (add_records Keys.new 0 (small_rec ∷ []) ≡ some keys)
added =
    let (keys, eq, keeps) =
      add_records_lem Keys.new 0 (small_rec ∷ []) [] (omega arith) (omega arith)
        (record { counted = refl; known = inr (inl (refl, refl)) }) in
    (keys, eq)

writer-Holds : Holds one_second ((1, entry) ∷ [])
writer-Holds = record {
  holding = inr ((head, entry) ∷ [], one_second-Written.0, one_second-Written.1);
  last_known = last_is_one;
  counted = one_second-Written.3;
}

write_second-Saved_example :
    (bs : List CompressedBlock) × (kept : List Rec) × Kept (small_rec ∷ []) kept
    × AreBlocks four_bytes one_codec bs kept
    × Saved writer 0
        (put_all 0 bs ((1, entry) ∷ []))
        (length kept)
        (write_second four_bytes one_codec 5 writer 0 (small_rec ∷ []) none)
write_second-Saved_example =
    write_second-Saved four_bytes one_codec 5 writer ((1, entry) ∷ []) 0 small_rec [] none added.0
      one_sent writer-Holds cells_of_one_second none_at_first (refl, tt) added.1 (inl refl)
