-- ===== src/Storage/Block/Cuts.antt =====
-- `compress_records` of metric_block.rs: every record is in a block which reads back, as it came or
-- cut to fit, and a record is dropped only when it has nothing left to cut.
use my_telemetry_server.Base.{
  ℕ, zero, suc, ◌+◌, ◌/◌, ◌%◌, ◌^◌, ◌≤◌, ◌<◌, ◌≡◌, ◌⊎◌, refl, sym, ap, subst, ◌∙◌, arith, ltb, leb,
  ◌==◌, ◌&&◌, Bool, true, false, Option, none, some, List, [], ◌∷◌, ◌++◌, length, take, drop,
  Bool-cases, inl, inr, length-append, length-take, length-drop, append_assoc, append-nil,
  take-append-drop, leb→le,
}
use my_telemetry_server.Base.Bytes.{to_le_bytes, length-to_le_bytes}
use my_telemetry_server.Base.Int.{ℤ, to_u64}
use my_telemetry_server.Storage.Varint.{Varint}
use my_telemetry_server.Storage.Frame.{entry_time_len, max_entry_body_len}
use my_telemetry_server.Storage.Entry.{parse_entry, encode_entry}
use my_telemetry_server.Storage.Entry.RoundTrip.{parse_entry-encode_entry}
use my_telemetry_server.Storage.Rec.{Rec, time_of}
use my_telemetry_server.Storage.Block.{
  Codec, CompressedBlock, Shrunk, panicked, nothing_left, cut, shrink, size, max_payload_len,
  raw_block_len, encode_records, entry_of, compress_to_entry, block, fits_or, cut_next, cut_loop,
  cut_alone, both, compress_block, compress_from, compress_records,
}
use my_telemetry_server.Storage.Block.Shrink.{shrink-Shrinks, Shrinks}
use my_telemetry_server.Storage.Block.RoundTrip.{Sent, AreSent, decompress_records-compress}
use my_telemetry_server.Storage.Block.Stored.{
  KeptOne, whole, dropped, shortened, none_left, one_more, Kept_all, Kept-append, IsBlock,
  AreBlocks, AreBlocks-append, Stored,
}

length-encode_entry :
    (varint : Varint) (time : ℤ) (payload : List ℕ)
    → length payload ≤ max_payload_len
    → (0 < length (encode_entry varint time payload))
      × (length (encode_entry varint time payload) ≤ max_entry_body_len + 5)
unfolding encode_entry
length-encode_entry varint time payload fits =
    let n : ℕ = (entry_time_len + length payload) % 2 ^ 32 in
    let (some_bytes, few) = varint.writes_some n (omega arith) in
    let whole_len : length (varint.serialize n ++ (to_le_bytes 8 (to_u64 time) ++ payload))
        ≡ length (varint.serialize n) + (8 + length payload) =
      omega (
        arith,
        length-append (varint.serialize n) (to_le_bytes 8 (to_u64 time) ++ payload),
        length-append (to_le_bytes 8 (to_u64 time)) payload,
        length-to_le_bytes 8 (to_u64 time),
      ) in
    (omega (arith, whole_len, some_bytes), omega (arith, whole_len, few, fits))

module _ (varint : Varint) (codec : Codec) (sent : Sent codec) where
  compress_to_entry_lem :
      (r : Rec) (rs : List Rec)
      → AreSent varint codec sent (r ∷ rs)
      → (compress_to_entry varint codec (r ∷ rs) ≡ some none)
        ⊎ ((entry : List ℕ) × (compress_to_entry varint codec (r ∷ rs) ≡ some (some entry))
            × IsBlock varint codec (record { entry = entry; records = length (r ∷ rs) }) r rs)
  unfolding compress_to_entry entry_of
  compress_to_entry_lem r rs all =
      let payload : List ℕ = codec.compress (encode_records varint codec (r ∷ rs)) in
      let entry : List ℕ = encode_entry varint (time_of r) payload in
      elim (Bool-cases (leb (length payload) max_payload_len)) [
        | inr e ↦ inl (rw e refl)
        | inl e ↦
            let fits : length payload ≤ max_payload_len = leb→le _ _ e in
            inr (
              entry,
              rw e refl,
              record {
                payload = payload;
                parses =
                    ap (λ l. parse_entry varint l 0) (sym (append-nil entry))
                    ∙ parse_entry-encode_entry varint [] payload [] (time_of r)
                        (sent.has_time r all.0) (omega (arith, fits));
                reads = decompress_records-compress varint codec sent (r ∷ rs) all;
                counts = refl;
                some_bytes = omega (arith, (length-encode_entry varint (time_of r) payload fits).0);
                fits = omega (arith, (length-encode_entry varint (time_of r) payload fits).1);
              },
            )
      ]

  AreSent-take :
      (n : ℕ) (rs : List Rec) → AreSent varint codec sent rs → AreSent varint codec sent (take n rs)
  AreSent-take zero rs all = tt
  AreSent-take (suc n) [] all = tt
  AreSent-take (suc n) (r ∷ rs) (a, all) = (a, AreSent-take n rs all)

  AreSent-drop :
      (n : ℕ) (rs : List Rec) → AreSent varint codec sent rs → AreSent varint codec sent (drop n rs)
  AreSent-drop zero rs all = all
  AreSent-drop (suc n) [] all = tt
  AreSent-drop (suc n) (r ∷ rs) (a, all) = AreSent-drop n rs all

  one_block :
      (entry : List ℕ) (r : Rec) (rs : List Rec)
      → IsBlock varint codec (record { entry = entry; records = length (r ∷ rs) }) r rs
      → AreBlocks varint codec (record { entry = entry; records = length (r ∷ rs) } ∷ []) (r ∷ rs)
  one_block entry r rs is = (r, rs, [], sym (append-nil (r ∷ rs)), is, refl)

  record StoredOne (r : Rec) (result : Option (List CompressedBlock)) : Type 0 where
    blocks : List CompressedBlock
    returns : result ≡ some blocks
    kept : List Rec
    is_kept : KeptOne r kept
    are_blocks : AreBlocks varint codec blocks kept

  cut_next-StoredOne :
      (r : Rec) (s : Shrunk) (further : Rec → Option (List CompressedBlock))
      → shrink r ≡ s
      → Shrinks r s
      → sent.IsSent r
      → ((r' : Rec) → shrink r ≡ cut r' → size r' < size r → StoredOne r' (further r'))
      → StoredOne r (cut_next varint codec s further)
  unfolding cut_next fits_or block
  cut_next-StoredOne r panicked further e shrinks is_sent later = absurd shrinks
  cut_next-StoredOne r nothing_left further e shrinks is_sent later = record {
    blocks = [];
    returns = refl;
    kept = [];
    is_kept = dropped e;
    are_blocks = refl;
  }
  cut_next-StoredOne r (cut r') further e shrinks is_sent later =
      let next : StoredOne r' (further r') = later r' e shrinks.0 in
      elim (compress_to_entry_lem r' [] (sent.stays r r' is_sent e, tt)) [
        | inl none_fits ↦ record {
          blocks = next.blocks;
          returns = ap (λ x. fits_or varint codec 1 x (further r')) none_fits ∙ next.returns;
          kept = next.kept;
          is_kept = shortened e next.is_kept;
          are_blocks = next.are_blocks;
        }
        | inr (entry, fits, is) ↦ record {
          blocks = record { entry = entry; records = 1 } ∷ [];
          returns = ap (λ x. fits_or varint codec 1 x (further r')) fits;
          kept = r' ∷ [];
          is_kept = shortened e whole;
          are_blocks = one_block entry r' [] is;
        }
      ]

  cut_loop-StoredOne :
      (rounds : ℕ) (r : Rec)
      → size r < rounds
      → sent.IsSent r
      → StoredOne r (cut_loop varint codec rounds r)
  unfolding cut_loop
  cut_loop-StoredOne zero r enough is_sent = absurd (omega (arith, enough))
  cut_loop-StoredOne (suc rounds) r enough is_sent =
      cut_next-StoredOne r (shrink r) (cut_loop varint codec rounds) refl (shrink-Shrinks r) is_sent
        (λ r' e less.
          cut_loop-StoredOne rounds r' (omega (arith, less, enough)) (sent.stays r r' is_sent e))

  both-Stored :
      (rs ss : List Rec) (a b : Option (List CompressedBlock))
      → Stored varint codec sent rs a
      → Stored varint codec sent ss b
      → Stored varint codec sent (rs ++ ss) (both varint codec a b)
  unfolding both
  both-Stored rs ss a b s t = record {
    blocks = s.blocks ++ t.blocks;
    returns = rw (s.returns, t.returns) refl;
    kept = s.kept ++ t.kept;
    is_kept = Kept-append s.is_kept t.is_kept;
    are_blocks =
        AreBlocks-append varint codec s.blocks t.blocks s.kept t.kept s.are_blocks t.are_blocks;
  }

  -- The records fit an entry together, or are stored another way.
  fits_or-Stored :
      (r : Rec) (rs : List Rec) (otherwise : Option (List CompressedBlock))
      → AreSent varint codec sent (r ∷ rs)
      → Stored varint codec sent (r ∷ rs) otherwise
      → Stored varint codec sent (r ∷ rs) (
          fits_or varint codec
            (length (r ∷ rs))
            (compress_to_entry varint codec (r ∷ rs))
            otherwise)
  unfolding fits_or block
  fits_or-Stored r rs otherwise all stored = elim (compress_to_entry_lem r rs all) [
    | inl none_fits ↦ record {
      blocks = stored.blocks;
      returns =
          ap (λ x. fits_or varint codec (length (r ∷ rs)) x otherwise) none_fits ∙ stored.returns;
      kept = stored.kept;
      is_kept = stored.is_kept;
      are_blocks = stored.are_blocks;
    }
    | inr (entry, fits, is) ↦ record {
      blocks = record { entry = entry; records = length (r ∷ rs) } ∷ [];
      returns = ap (λ x. fits_or varint codec (length (r ∷ rs)) x otherwise) fits;
      kept = r ∷ rs;
      is_kept = Kept_all (r ∷ rs);
      are_blocks = one_block entry r rs is;
    }
  ]

  cut_alone-Stored :
      (r : Rec)
      → sent.IsSent r
      → Stored varint codec sent (r ∷ []) (cut_alone varint codec (r ∷ []))
  unfolding cut_alone
  cut_alone-Stored r is_sent =
      let one : StoredOne r (cut_loop varint codec (suc (size r)) r) =
        cut_loop-StoredOne (suc (size r)) r (omega arith) is_sent in
      record {
        blocks = one.blocks;
        returns = one.returns;
        kept = one.kept ++ [];
        is_kept = one_more r [] one.kept [] one.is_kept none_left;
        are_blocks =
            subst (AreBlocks varint codec one.blocks) (sym (append-nil one.kept)) one.are_blocks;
      }

  many : (n : ℕ) → ltb 1 (suc (suc n)) ≡ true
  many n = ground arith

  compress_block-Stored :
      (rounds : ℕ) (rs : List Rec)
      → 0 < length rs
      → length rs ≤ rounds
      → AreSent varint codec sent rs
      → Stored varint codec sent rs (compress_block varint codec rounds rs)
  unfolding compress_block
  compress_block-Stored zero rs some_records enough all = absurd (omega arith)
  compress_block-Stored (suc rounds) [] some_records enough all = absurd (omega arith)
  compress_block-Stored (suc rounds) (r ∷ []) some_records enough (is_sent, all) =
      fits_or-Stored r [] (cut_alone varint codec (r ∷ [])) (is_sent, all)
        (cut_alone-Stored r is_sent)
  compress_block-Stored (suc rounds) (r ∷ s ∷ rs) some_records enough all =
      let whole_block : List Rec = r ∷ s ∷ rs in
      let half : ℕ = length whole_block / 2 in
      let lower : Stored varint codec sent (take half whole_block)
          (compress_block varint codec rounds (take half whole_block)) =
        compress_block-Stored rounds (take half whole_block)
          (omega (arith, length-take half whole_block))
          (omega (arith, length-take half whole_block, enough))
          (AreSent-take half whole_block all) in
      let upper : Stored varint codec sent (drop half whole_block)
          (compress_block varint codec rounds (drop half whole_block)) =
        compress_block-Stored rounds (drop half whole_block)
          (omega (arith, length-drop half whole_block))
          (omega (arith, length-drop half whole_block, enough))
          (AreSent-drop half whole_block all) in
      let halves : Stored varint codec sent whole_block (
          both varint codec (compress_block varint codec rounds (take half whole_block))
            (compress_block varint codec rounds (drop half whole_block))) =
        subst
          (λ l. Stored varint codec sent l (
            both varint codec (compress_block varint codec rounds (take half whole_block))
              (compress_block varint codec rounds (drop half whole_block))))
          (take-append-drop half whole_block)
          (both-Stored (take half whole_block) (drop half whole_block)
            (compress_block varint codec rounds (take half whole_block))
            (compress_block varint codec rounds (drop half whole_block)) lower upper) in
      fits_or-Stored r (s ∷ rs) _ all (rw (many (length rs)) halves)

  AreSent-append :
      (rs ss : List Rec)
      → AreSent varint codec sent rs
      → AreSent varint codec sent ss
      → AreSent varint codec sent (rs ++ ss)
  AreSent-append [] ss a b = b
  AreSent-append (r ∷ rs) ss (a, all) b = (a, AreSent-append rs ss all b)

  compress_from-Stored :
      (taken : List Rec) (block_len : ℕ) (rs : List Rec)
      → AreSent varint codec sent taken
      → AreSent varint codec sent rs
      → Stored varint codec sent (taken ++ rs) (compress_from varint codec taken block_len rs)
  unfolding compress_from
  compress_from-Stored [] block_len [] sent_before all = record {
    blocks = [];
    returns = refl;
    kept = [];
    is_kept = none_left;
    are_blocks = refl;
  }
  compress_from-Stored (t ∷ ts) block_len [] sent_before all = rw (not_empty (length ts)) (
      subst
        (λ l. Stored varint codec sent l (compress_block varint codec (length (t ∷ ts)) (t ∷ ts)))
        (sym (append-nil (t ∷ ts)))
        (compress_block-Stored (length (t ∷ ts)) (t ∷ ts) (omega arith) (omega arith) sent_before))
    where
      not_empty : (n : ℕ) → suc n == 0 ≡ false
      not_empty n = ground arith
  compress_from-Stored taken block_len (r ∷ rs) sent_before (is_sent, all) =
      let n : ℕ = length (codec.encode r) in
      let cut_here : Stored varint codec sent (r ∷ rs) (compress_from varint codec (r ∷ []) n rs) =
        compress_from-Stored (r ∷ []) n rs (is_sent, tt) all in
      let go_on : Stored varint codec sent ((taken ++ (r ∷ [])) ++ rs)
          (compress_from varint codec (taken ++ (r ∷ [])) (block_len + n) rs) =
        compress_from-Stored (taken ++ (r ∷ [])) (block_len + n) rs
          (AreSent-append taken (r ∷ []) sent_before (is_sent, tt)) all in
      elim (Bool-cases (ltb 0 (length taken) && ltb raw_block_len (block_len + n))) [
        | inl e ↦ rw e (
            both-Stored taken (r ∷ rs) (compress_block varint codec (length taken) taken)
              (compress_from varint codec (r ∷ []) n rs)
              (compress_block-Stored (length taken) taken (some_taken (length taken) _ e)
                (omega arith) sent_before)
              cut_here)
        | inr e ↦ rw e (
            subst
              (λ l.
                Stored varint codec sent l
                  (compress_from varint codec (taken ++ (r ∷ [])) (block_len + n) rs))
              (append_assoc taken (r ∷ []) rs) go_on)
      ]
    where
      some_taken : (k : ℕ) (b : Bool) → (ltb 0 k && b) ≡ true → 0 < k
      some_taken k b e = ground (arith, e)

  -- The records of a second are all stored, in their order, each one whole, cut as `shrink` cuts it,
  -- or dropped when it has nothing left to cut: `compress_records` returns blocks, each of them has
  -- the time of its first record, an entry that a frame takes, and reads back as its records. The
  -- records are ones that the protocol encodes.
  pub compress_records-Stored :
      (rs : List Rec)
      → AreSent varint codec sent rs
      → Stored varint codec sent rs (compress_records varint codec rs)
  unfolding compress_records
  compress_records-Stored rs all = compress_from-Stored [] 0 rs tt all
