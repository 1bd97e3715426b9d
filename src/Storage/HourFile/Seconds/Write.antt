-- ===== src/Storage/HourFile/Seconds/Write.antt =====
-- `write_second` of hour_file.rs on a second which has no entries: what of its records is kept is in the
-- hour, in blocks between those of the earlier and the later seconds, or the hour refuses them.
use my_telemetry_server.Base.{
  ℕ, ◌+◌, ◌-◌, ◌%◌, ◌^◌, ◌*◌, ◌<◌, ◌≤◌, ◌≡◌, ◌⊎◌, refl, sym, ap, subst, ◌∙◌, arith, ltb, true,
  false, Option, none, some, List, [], ◌∷◌, length, get_elem?, set, Bool-cases, inl, inr,
  length-append, get_inside, length-set,
}
use my_telemetry_server.Base.Result.{Result, ok, err, ◌>>=◌}
use my_telemetry_server.Storage.Varint.{Varint}
use my_telemetry_server.Storage.Cells.{get, count, set_count}
use my_telemetry_server.Storage.Rec.{Rec}
use my_telemetry_server.Storage.Block.{Codec, CompressedBlock, compress_records}
use my_telemetry_server.Storage.Block.RoundTrip.{Sent, AreSent}
use my_telemetry_server.Storage.Block.Stored.{Kept, AreBlocks, Stored}
use my_telemetry_server.Storage.Block.Cuts.{compress_records-Stored}
use my_telemetry_server.Storage.KeyIndex.{KeyIndex}
use my_telemetry_server.Storage.KeyIndex as Keys
use my_telemetry_server.Storage.ProcessIndex as Processes
use my_telemetry_server.Storage.HourFile.{HourFile, HourError, Position, or_panic, room_for_frames}
use my_telemetry_server.Storage.HourFile.Puts.{IsRefusal}
use my_telemetry_server.Storage.HourFile.Entries.{Entries, has_entry}
use my_telemetry_server.Storage.HourFile.NewSecond.{
  counted_hour, counted_hour-Represents, counted_hour-IsFresh,
}
use my_telemetry_server.Storage.HourFile.InsertBlocks.{AllFit, put_all}
use my_telemetry_server.Storage.HourFile.Holds.{
  Holding, LastKnown, Holds, HeldAfter, cell_of_new, has_entry-put_all, PlacedBlocks,
  placed-Holding,
}
use my_telemetry_server.Storage.HourFile.Seconds.{
  Writer, Plan, insert_blocks, last_entry_of, or_compressed, plan_of, remove_old, write_plan,
  records_of_blocks, forget_dropped, later_of, with_counts, write_second,
}

-- The hour holds the entries, and the count of the second is more by `n`; or it refused the write.
abbrev pub Saved : Writer → ℕ → Entries → ℕ → Result HourError Writer → Type 0
Saved w s es n (ok w') =
    Holds w'.hour es
    × (was : ℕ) × (get_elem? w.hour.cells.counts s ≡ some was)
    × (w'.hour.cells.counts ≡ set w.hour.cells.counts s ((was + n) % 2 ^ 32))
Saved w s es n (err e) = IsRefusal e

Holding-counted :
    (h : HourFile) (es : Entries) (counts : List ℕ) (last : Option ℕ)
    → Holding h es
    → Holding (counted_hour h counts last) es
Holding-counted h es counts last (inl (fresh, none_yet)) =
    inl (counted_hour-IsFresh h counts last fresh, none_yet)
Holding-counted h es counts last (inr (v, repr, indexed)) =
    inr (v, counted_hour-Represents h v counts last repr, indexed)

later_of-LastKnown :
    (h : HourFile) (es : Entries) (s : ℕ) (bs : List CompressedBlock)
    → LastKnown h es
    → (j : ℕ) → has_entry j (put_all s bs es) ≡ true
    → j ≤ later_of s h.last_second
unfolding later_of
later_of-LastKnown h es s bs last_known j has = elim (has_entry-put_all j s bs es has) [
  | inl same ↦ subst (λ k. k ≤ later_of s h.last_second) same (own h.last_second)
  | inr one ↦ let (l, known, le) = last_known j one in rw known (omega (arith, le))
]
  where
    own : (last : Option ℕ) → s ≤ later_of s last
    own none = omega arith
    own (some l) = omega arith

-- With nothing to take out and nothing removed.
abbrev added_plan : Option Position → List CompressedBlock → Plan
added_plan place bs = record {
  place = place;
  first_of_second = true;
  blocks = bs;
  to_remove = none;
  removed_records = 0;
}

module _ (varint : Varint) (codec : Codec) (now : ℕ) (w : Writer) (es : Entries) (s : ℕ)
    (holds : Holds w.hour es) (in_hour : s < length w.hour.cells.cells)
    (new_second : has_entry s es ≡ false) where
  with_counts-Saved :
      (w1 : Writer) (h : HourFile) (place : Option Position) (bs : List CompressedBlock)
      (rs : List Rec)
      → HeldAfter w.hour (put_all s bs es) (ok h)
      → Saved w s
          (put_all s bs es)
          (records_of_blocks bs)
          (with_counts varint codec now w1 h s (added_plan place bs) rs)
  unfolding with_counts count set_count or_panic forget_dropped
  with_counts-Saved w1 h place bs rs (holding, len, (counts, last)) =
      let (was, found) =
        get_inside h.cells.counts s (omega (arith, ap length counts, holds.counted, in_hour)) in
      let n : ℕ = (was + 2 ^ 64 - 0 + records_of_blocks bs) % 2 ^ 32 in
      let few : n ≡ (was + records_of_blocks bs) % 2 ^ 32 = omega arith in
      let inside : ltb s (length h.cells.counts) ≡ true =
        ground (arith, ap length counts, holds.counted, in_hour) in
      let after : HourFile =
        counted_hour h (set h.cells.counts s n) (some (later_of s h.last_second)) in
      let keeps : Holds after (put_all s bs es) = record {
        holding =
            Holding-counted h (put_all s bs es) (set h.cells.counts s n)
              (some (later_of s h.last_second)) holding;
        last_known = λ j has. (
          later_of s h.last_second,
          refl,
          subst (λ l. j ≤ later_of s l) (sym last)
              (later_of-LastKnown w.hour es s bs holds.last_known j has),
        );
        counted = length-set h.cells.counts s n ∙ ap length counts ∙ holds.counted ∙ sym len;
      } in
      let more : after.cells.counts
          ≡ set w.hour.cells.counts s ((was + records_of_blocks bs) % 2 ^ 32) =
        ap (λ k. set h.cells.counts s k) few
        ∙ ap (λ cs. set cs s ((was + records_of_blocks bs) % 2 ^ 32)) counts in
      rw (found, inside)
        (elim (Bool-cases (ltb 0 (0 + length rs - records_of_blocks bs))) [
          | inl k ↦ rw k (keeps, was, (ap (λ cs. get_elem? cs s) (sym counts) ∙ found), more)
          | inr k ↦ rw k (keeps, was, (ap (λ cs. get_elem? cs s) (sym counts) ∙ found), more)
        ])

  after_insert-Saved :
      (w1 : Writer) (place : Option Position) (bs : List CompressedBlock) (rs : List Rec)
      (r : Result HourError HourFile)
      → HeldAfter w.hour (put_all s bs es) r
      → Saved w s
          (put_all s bs es)
          (records_of_blocks bs)
          (r >>= λ h. with_counts varint codec now w1 h s (added_plan place bs) rs)
  after_insert-Saved w1 place bs rs (ok h) after = with_counts-Saved w1 h place bs rs after
  after_insert-Saved w1 place bs rs (err e) refused = refused

  write_plan-Saved :
      (w1 : Writer) (bs : List CompressedBlock) (rs : List Rec)
      (p : PlacedBlocks varint w.hour es s bs)
      → Saved w s (put_all s bs es) (records_of_blocks bs) (
          write_plan varint p.hour s (added_plan p.place bs) >>= λ h.
          with_counts varint codec now w1 h s (added_plan p.place bs) rs)
  unfolding write_plan remove_old
  write_plan-Saved w1 bs rs p = elim (Bool-cases (ltb (room_for_frames p.hour) (2 * length bs))) [
    | inl full ↦ rw full tt
    | inr room ↦
        rw room (
          after_insert-Saved w1 p.place bs rs (insert_blocks varint p.hour s true p.place bs)
            p.held)
  ]

  last_entry_of_new : last_entry_of varint w.hour s ≡ ok (none, w.hour)
  unfolding last_entry_of or_panic get
  last_entry_of_new =
      let (c, found) = get_inside w.hour.cells.cells s in_hour in
      rw (found, cell_of_new w.hour es s c holds.holding new_second found) refl

  write_blocks-Saved :
      (r : Rec) (rs : List Rec) (blocks : Option (List CompressedBlock)) (bs : List CompressedBlock)
      (keys : KeyIndex)
      → or_compressed varint codec blocks (r ∷ rs) ≡ ok bs
      → AllFit bs
      → Keys.add_records w.key_index s (r ∷ rs) ≡ some keys
      → Saved w s
          (put_all s bs es)
          (records_of_blocks bs)
          (write_second varint codec now w s (r ∷ rs) blocks)
  unfolding write_second plan_of or_panic
  write_blocks-Saved r rs blocks bs keys made fit indexed =
      let p : PlacedBlocks varint w.hour es s bs =
        placed-Holding varint w.hour es s bs holds.holding holds.last_known in_hour new_second
          fit in
      let w1 : Writer = record w {
        key_index = keys;
        key_index_changed = true;
        process_index = Processes.add_records w.process_index s (r ∷ rs);
        process_index_changed = some now;
      } in
      rw (indexed, last_entry_of_new, made, p.returns) (write_plan-Saved w1 bs (r ∷ rs) p)

module _ (varint : Varint) (codec : Codec) where
  AreBlocks-AllFit :
      (bs : List CompressedBlock) (kept : List Rec) → AreBlocks varint codec bs kept → AllFit bs
  AreBlocks-AllFit [] kept are = tt
  AreBlocks-AllFit (b ∷ bs) kept (r, rs, ms, e, is, more) =
      (is.some_bytes, omega (arith, is.fits), AreBlocks-AllFit bs ms more)

  records_of_blocks-AreBlocks :
      (bs : List CompressedBlock) (kept : List Rec)
      → AreBlocks varint codec bs kept
      → records_of_blocks bs ≡ length kept
  unfolding records_of_blocks
  records_of_blocks-AreBlocks [] kept none_left = sym (ap length none_left)
  records_of_blocks-AreBlocks (b ∷ bs) kept (r, rs, ms, e, is, more) = omega (
    arith,
    is.counts,
    records_of_blocks-AreBlocks bs ms more,
    ap length e,
    length-append (r ∷ rs) ms,
  )

  -- The records of a second with no entries are written into the hour: each one is kept whole, or cut as
  -- `shrink` cuts it, or dropped when it has, whole or cut, nothing left to cut, and those which are kept
  -- are in blocks which read back. The hour then holds its entries with those of the blocks in the order
  -- of time, the cell of each second at its first entry, its last second not before any of them, and the
  -- count of the second more by the number of records kept. Or the hour refuses the write, with the error
  -- that it has no room or no more data files, that the halves of a full frame do not fit or it has but
  -- one entry, or that an entry of a frame does not read: the write does not panic and no chain loops.
  -- The hour holds its entries so before, the second is one of it and has none of them, the records are
  -- ones that the protocol encodes, the key index takes them, and the blocks, when they are given, are
  -- those of `compress_records`.
  pub write_second-Saved :
      (now : ℕ) (w : Writer) (es : Entries) (s : ℕ) (r : Rec) (rs : List Rec)
      (blocks : Option (List CompressedBlock)) (keys : KeyIndex) (sent : Sent codec)
      → Holds w.hour es
      → s < length w.hour.cells.cells
      → has_entry s es ≡ false
      → AreSent varint codec sent (r ∷ rs)
      → Keys.add_records w.key_index s (r ∷ rs) ≡ some keys
      → (blocks ≡ none) ⊎ (blocks ≡ compress_records varint codec (r ∷ rs))
      → (bs : List CompressedBlock) × (kept : List Rec) × Kept (r ∷ rs) kept
        × AreBlocks varint codec bs kept
        × Saved w s
            (put_all s bs es)
            (length kept)
            (write_second varint codec now w s (r ∷ rs) blocks)
  write_second-Saved now w es s r rs blocks keys sent holds in_hour new_second all indexed given =
      let stored : Stored varint codec sent (r ∷ rs) (compress_records varint codec (r ∷ rs)) =
        compress_records-Stored varint codec sent (r ∷ rs) all in
      let made : or_compressed varint codec blocks (r ∷ rs) ≡ ok stored.blocks =
        (unfold or_compressed or_panic in
          (elim given [
            | inl e ↦ rw (e, stored.returns) refl
            | inr e ↦ rw (e, stored.returns) refl
          ])) in
      (
        stored.blocks,
        stored.kept,
        stored.is_kept,
        stored.are_blocks,
        subst
            (λ n.
              Saved w s (put_all s stored.blocks es) n
                (write_second varint codec now w s (r ∷ rs) blocks))
            (records_of_blocks-AreBlocks stored.blocks stored.kept stored.are_blocks)
            (write_blocks-Saved varint codec now w es s holds in_hour new_second r rs blocks
              stored.blocks keys made (AreBlocks-AllFit stored.blocks stored.kept stored.are_blocks)
              indexed),
      )
