-- ===== src/Lib.antt =====
-- my-telemetry-server keeps the events that services report, finds them again for its user
-- interface, and gives them up when they are old. This library models its storage of events.
--
-- The parts and how they interact. The server takes events in by gRPC and HTTP, queues them and
-- groups them into blocks (my-telemetry-server/src/to_write_queue, flows). The storage
-- (my-telemetry-server/src/metrics_storage) keeps each hour in data files made of frames: a frame
-- holds entries one after another, an entry is the time of a second and a compressed block of
-- events, and frames are chained in the order of time. An index has, for each second of the hour,
-- the place of its first entry and how many events it has. An hour is written for two hours after
-- its end, then it is uploaded to S3 and deleted locally.
--
-- Which file models which part, paths from the root of the repository:
--   Base: numbers, bytes, lists, slices, texts and results that the parts share. `u8`, `u16`, `u32`
--     and `u64` are natural numbers whose width is written out where a value is stored; `i64` is
--     the integers of Base/Int with `wrap` around every sum of the source.
--   Storage/Varint: the variable-size `u32` of the crate rust-extensions, a parameter.
--   Storage/Frame: my-telemetry-server/src/metrics_storage/frame.rs, `Frame`: `new`, `from_bytes`,
--     `next`, `set_next`, `used`, `records_end`, `free`, `insert`, `remove`, `split_off` on the
--     bytes of a frame. Storage/Frame/Layout and Storage/Frame/Edits say what the operations do to
--     the parts of a frame, Storage/Frame/Records what a client sees, Storage/Frame/Links what
--     `set_next` does.
--   Storage/Entry: the rest of frame.rs, `parse_entry`, `encode_entry`, `Frame::entry_at`,
--     `Frame::entry_offsets`. Storage/Entry/Offsets bounds the offsets.
--   Storage/HourFile: my-telemetry-server/src/metrics_storage/hour_file.rs, the state of `HourFile`
--     with its frames in memory and on the disk, `frame`, `read_frame`, `allocate_frame`,
--     `room_for_frames`, `mark_dirty`; Storage/HourFile/Insert has `insert_at`,
--     `insert_into_frame`, `append_frame`, `halve_and_insert` and `remove_entry`. The abstract view
--     is the chain of frames (Chain) as one sequence of bytes in which a cell is a place (View).
--     What an insert promises of it is in Puts, how the steps change what reads in State (a new
--     frame in State/Allocate); the branches of an insert are in PutHere, PutAfter, HalveLower,
--     HalveCells, HalveNext, HalveNew, Boundary and HalveAll, on the lemmas of Edits, Halves,
--     Moves, Moves/Halved, Halving and Grow, and come together in InsertAll and Inserts.
--     Storage/HourFile/Seconds has `write_second` and what it calls, `last_entry_of`,
--     `place_for_new_second`, `decompress_at`, of an hour whose two indexes are read whole. The
--     entries by their seconds (Entries) are what the index of the hour stands for (Ordered); where
--     a new second goes is in Place, what blocks leave of an hour in InsertBlocks, those of a new
--     second in NewSecond, what an hour holds before and after in Holds, the whole write in
--     Seconds/Write; that the search of `last_entry_of` ends in LastEntry. What `remove_entry` does
--     to the bytes is in CutOut, to the frame in Remove, to the chain in Removes.
--   Storage/Block: my-telemetry-server/src/metrics_storage/metric_block.rs, `compress_records`,
--     `compress_block`, `shrink`, `cut_in_half`, `decompress_records` and `RawRecords`, on a codec
--     which stands for the generated code of the protocol and for zstd. Its children: a block read
--     back (RoundTrip), a round of the cutting (Shrink, on the lemmas of Tags), the blocks of the
--     records of a second (Cuts) and what they are to be (Stored).
--   Storage/Cells: my-telemetry-server/src/metrics_storage/cells.rs, `Cell` and `HourCells`.
--   Storage/Retention: my-telemetry-server/src/metrics_storage/retention.rs.
--   Storage/Rec: `Rec` of metric_block.rs and `MetricsQuery::matches` of query.rs.
--   Storage/Pending: my-telemetry-server/src/metrics_storage/pending.rs, `PendingMetrics`: `add`,
--     `take_ready`, `written`, `len`, `scopes`, `search`. An `Instant` is a number of nanoseconds,
--     an `Arc` a place and what is there; `sort_by_key` is the stable sort of Base/Sort, a
--     `BTreeMap` the association list in order of Base/Assoc. Its children: the invariant (Valid),
--     what `add` does (Adds), what a search finds (Searches), that no record is lost (Takes,
--     Ready).
--   Storage/KeyIndex: my-telemetry-server/src/metrics_storage/key_index.rs, `KeyIndex` in memory:
--     `add_records`, `add_record`, `count_in`, `find`, and `HourKeyIndex::Full` with
--     `FilterCounts`. Its children follow one record through the seconds of a value (Seconds), the
--     services and the actions (Exact, Steps, Adds) and a batch of records (Adds/Batches), to what
--     a search is told (Covers) over a history (History).
--   Storage/Reader: the rest of key_index.rs which is modelled, `write_len`, `Reader::read_len`,
--     `pack_seconds`, `unpack_seconds`.
--   Storage/Runs: my-telemetry-server/src/metrics_storage/search.rs, `HourSource::estimate`,
--     `HourSource::runs`, `HourSource::records_per_read`, `next_wanted`.
--   Storage/ProcessIndex: my-telemetry-server/src/metrics_storage/process_index.rs, `ProcessIndex`
--     in memory: `add_records`, `seconds_of`, `with_start_second`; and `second_of` of hour_file.rs.
--     The ten bytes of a pair are its two numbers, which sort as the bytes do.
--   Server/Metric: my-telemetry-server/src/mappers/metric_tags.rs and metrics.rs, `get`,
--     `MetricDto::from_grpc_event` and the mapping back.
--   Server/Links: my-telemetry-server/src/process_id_user_id_links.rs and, of
--     flows/write_ready_metrics.rs, `name_clients` and `client_id_of`. The hash map is an
--     association list, the sorted vector of permanent users a list: their orders are not looked
--     at.
--   Server/Queue: my-telemetry-server/src/to_write_queue/to_write_queue.rs; Server/Queue/Order has
--     the states it reaches when writers and the executor take its lock in any order. It has
--     also when a pass is made again (flows/take_in_queued_metrics.rs,
--     background/metrics_queue_job.rs), and Server/Queue/Passes that the passes end.
--   Tests: concrete inputs and the theorems at them.
--
-- Bounds and fuel. The walk of the entries of a frame (`entry_offsets`) runs on a fuel of a round
-- for each byte up to the end of the entries and one more: an entry that reads takes a byte at
-- least. `add` drops the oldest buckets on a round for each bucket and one more, as a round drops
-- one. A block is halved on a round for each record, a record cut on a round for each of its bytes
-- and tags and one more. The walk of `insert_at` takes a round for each frame of the data files and
-- one more, as the source does: the frames of the chain are distinct (Storage/HourFile/Room).
-- `unpack_seconds` runs on a round for each byte and one more, as a round reads a byte at least.
-- The passes over the queue run on a round for each metric and one more, as a pass that is made
-- again takes one at least. A failed `assert!` or `unwrap` and an index out of bounds are `none`, a
-- constructor of its own where `none` says something else.
--
-- Not modelled: the files, sockets and locks themselves, the compression and the encoding
-- themselves, the databases, the generated protocol code, the user interface, the requests to S3.
-- Of the storage: `rebuild`, `flush`, `compact_to` of hour_file.rs, the files and directories of
-- key_index.rs and process_index.rs, data_stream.rs, and metrics_storage.rs with s3_archive.rs,
-- which compose the parts here with the disk and with tasks of their own; the statistics of
-- my-telemetry-server/src/caches. Of `write_second` the write into a second which has entries is
-- modelled and nothing is stated of it as a whole: its parts are (`last_entry_of`, `remove_entry`,
-- `insert_at`).
pub mod Base
pub mod Server
pub mod Storage
pub mod Tests
