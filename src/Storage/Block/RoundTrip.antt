-- ===== src/Storage/Block/RoundTrip.antt =====
-- `compress_records` and `decompress_records` of metric_block.rs: a block reads back as the records it
-- was made of.
use my_telemetry_server.Base.{
  ℕ, zero, suc, ◌+◌, ◌%◌, ◌^◌, ◌≤◌, ◌<◌, ◌≡◌, refl, sym, ap, ◌∙◌, arith, ltb, leb, true, false,
  none, some, List, [], ◌∷◌, ◌++◌, length, drop, slice, length-append, append_assoc,
  drop-length-append, slice-append,
}
use my_telemetry_server.Base.Result.{ok}
use my_telemetry_server.Base.Int.{InI64}
use my_telemetry_server.Storage.Varint.{Varint}
use my_telemetry_server.Storage.Rec.{Rec, time_of}
use my_telemetry_server.Storage.Block.{
  Codec, cut, shrink, encode_records, next_record, read_record, decoded, decode_next, decode_from,
  decode_all, decompress_records,
}

-- The records which come: they decode as they were encoded, their lengths fit the numbers they are
-- prefixed with, and cutting one makes no other.
pub record Sent (codec : Codec) : Type 1 where
  pub IsSent : Rec → Type 0
  pub decodes : (r : Rec) → IsSent r → codec.decode (codec.encode r) ≡ some r
  pub is_short : (r : Rec) → IsSent r → length (codec.encode r) < 2 ^ 32
  pub has_time : (r : Rec) → IsSent r → InI64 (time_of r)
  pub stays : (r r' : Rec) → IsSent r → shrink r ≡ cut r' → IsSent r'

module _ (varint : Varint) (codec : Codec) (sent : Sent codec) where
  abbrev pub AreSent : List Rec → Type 0
  AreSent [] = Unit {0}
  AreSent (r ∷ rs) = sent.IsSent r × AreSent rs

  prefix_of : Rec → List ℕ
  prefix_of r = varint.serialize (length (codec.encode r) % 2 ^ 32)

  next_record-encode :
      (before : List ℕ) (r : Rec) (after : List ℕ)
      → sent.IsSent r
      → next_record varint codec
          (before ++ (prefix_of r ++ (codec.encode r ++ after)))
          (length before)
        ≡ some (ok (codec.encode r), length (before ++ (prefix_of r ++ codec.encode r)))
  unfolding next_record read_record prefix_of
  next_record-encode before r after is_sent =
      let short : length (codec.encode r) < 2 ^ 32 = sent.is_short r is_sent in
      let n : ℕ = length (codec.encode r) in
      let pre : List ℕ = varint.serialize (n % 2 ^ 32) in
      let raw : List ℕ = before ++ (pre ++ (codec.encode r ++ after)) in
      let (some_bytes, few) = varint.writes_some (n % 2 ^ 32) (omega arith) in
      let raw_len : length raw ≡ length before + (length pre + (n + length after)) = omega (
        arith,
        length-append before (pre ++ (codec.encode r ++ after)),
        length-append pre (codec.encode r ++ after),
        length-append (codec.encode r) after,
      ) in
      let there : leb (length raw) (length before) ≡ false = ground (arith, raw_len, some_bytes) in
      let same_n : n % 2 ^ 32 ≡ n = omega arith in
      let reads : varint.from_slice (drop (length before) raw) ≡ some (n, length pre) =
        ap varint.from_slice (drop-length-append before (pre ++ (codec.encode r ++ after)))
        ∙ varint.reads_back (n % 2 ^ 32) (codec.encode r ++ after) (omega arith)
        ∙ ap (λ k. some (k, length pre)) same_n in
      let fits : ltb (length raw) (length before + length pre + n) ≡ false =
        ground (arith, raw_len) in
      let is : slice (length before + length pre) (length before + length pre + n) raw
          ≡ codec.encode r =
        ap (slice (length before + length pre) (length before + length pre + n))
          (sym (append_assoc before pre (codec.encode r ++ after)))
        ∙ slice-append _ _ (before ++ pre) (codec.encode r) after (sym (length-append before pre))
            (omega (arith, length-append before pre)) in
      rw (there, reads, fits, is)
        (ap (λ k. some (ok (codec.encode r), k))
          (omega (
            arith,
            length-append before (pre ++ codec.encode r),
            length-append pre (codec.encode r),
          )))

  next_record-end :
      (before : List ℕ) → next_record varint codec (before ++ []) (length before) ≡ none
  unfolding next_record
  next_record-end before =
      let past : leb (length (before ++ [])) (length before) ≡ true =
        ground (arith, length-append before []) in
      rw past refl

  decode_done :
      (rounds : ℕ) (raw : List ℕ) (offset : ℕ)
      → next_record varint codec raw offset ≡ none
      → decode_from varint codec (suc rounds) raw offset ≡ some (ok [])
  unfolding decode_from decode_next
  decode_done rounds raw offset e = rw e refl

  decode_step :
      (rounds : ℕ) (raw : List ℕ) (offset : ℕ) (r : Rec) (after : ℕ) (rs : List Rec)
      → sent.IsSent r
      → next_record varint codec raw offset ≡ some (ok (codec.encode r), after)
      → decode_from varint codec rounds raw after ≡ some (ok rs)
      → decode_from varint codec (suc rounds) raw offset ≡ some (ok (r ∷ rs))
  unfolding decode_from decode_next decoded
  decode_step rounds raw offset r after rs is_sent e more =
      rw (e, sent.decodes r is_sent, more) refl

  -- From the start of the records on, they are decoded one after another.
  decode_from-encode :
      (rounds : ℕ) (before : List ℕ) (rs : List Rec)
      → AreSent rs
      → length rs < rounds
      → decode_from varint codec rounds (before ++ encode_records varint codec rs) (length before)
        ≡ some (ok rs)
  unfolding encode_records prefix_of
  decode_from-encode zero before rs short enough = absurd (omega arith)
  decode_from-encode (suc rounds) before [] short enough =
      decode_done rounds (before ++ []) (length before) (next_record-end before)
  decode_from-encode (suc rounds) before (r ∷ rs) (short, rest) enough =
      let pre : List ℕ = prefix_of r in
      let next : List ℕ = before ++ (pre ++ codec.encode r) in
      let joined : before ++ (pre ++ (codec.encode r ++ encode_records varint codec rs))
          ≡ next ++ encode_records varint codec rs =
        ap (λ l. before ++ l)
          (sym (append_assoc pre (codec.encode r) (encode_records varint codec rs)))
        ∙ sym (append_assoc before (pre ++ codec.encode r) (encode_records varint codec rs)) in
      let more : decode_from varint codec rounds (next ++ encode_records varint codec rs)
            (length next)
          ≡ some (ok rs) =
        decode_from-encode rounds next rs rest (omega arith) in
      let same : next_record varint codec
            (before ++ (pre ++ (codec.encode r ++ encode_records varint codec rs))) (length before)
          ≡ some (ok (codec.encode r), length next) =
        next_record-encode before r (encode_records varint codec rs) short in
      decode_step rounds (before ++ (pre ++ (codec.encode r ++ encode_records varint codec rs)))
        (length before) r (length next) rs short same
        (ap (λ raw. decode_from varint codec rounds raw (length next)) joined ∙ more)

  length-encode_records :
      (rs : List Rec) → AreSent rs → length rs ≤ length (encode_records varint codec rs)
  unfolding encode_records
  length-encode_records [] all = omega arith
  length-encode_records (r ∷ rs) (is_sent, all) =
      let pre : List ℕ = varint.serialize (length (codec.encode r) % 2 ^ 32) in
      let (some_bytes, few) = varint.writes_some (length (codec.encode r) % 2 ^ 32) (omega arith) in
      omega (
        arith,
        length-encode_records rs all,
        some_bytes,
        length-append pre (codec.encode r ++ encode_records varint codec rs),
        length-append (codec.encode r) (encode_records varint codec rs),
      )

  -- A compressed block is decompressed to the records it was made of.
  pub decompress_records-compress :
      (rs : List Rec)
      → AreSent rs
      → decompress_records varint codec (codec.compress (encode_records varint codec rs))
        ≡ some (ok rs)
  unfolding decompress_records decode_all
  decompress_records-compress rs all =
      let raw : List ℕ = encode_records varint codec rs in
      ap (decode_all varint codec) (codec.decompresses raw)
      ∙ (decode_from-encode (suc (length raw)) [] rs all
          (omega (arith, length-encode_records rs all)))
