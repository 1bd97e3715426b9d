-- ===== src/Storage/Entry/Walk.antt =====
-- The walk over the entries of a frame: it ends on any bytes, and finds the entries that were
-- written.
use my_telemetry_server.Base.{
  ℕ, zero, suc, ◌+◌, ◌%◌, ◌^◌, ◌≤◌, ◌<◌, ◌≡◌, ◌≢◌, sym, ap, ◌∙◌, arith, ltb, Option, none, some,
  List, [], ◌∷◌, ◌++◌, length, drop, take, slice, All, append_assoc, append-nil, length-append, inl,
  inr, true, lt→ltb, subst, length-slice, length-take, length-slice-le, slice_from_start,
}
use my_telemetry_server.Base.Bytes.{to_le_bytes, length-to_le_bytes}
use my_telemetry_server.Base.Int.{ℤ, to_u64}
use my_telemetry_server.Base.Result.{ok, Result-cases}
use my_telemetry_server.Storage.Varint.{Varint}
use my_telemetry_server.Storage.Frame.{Frame, records_end, frame_header_len}
use my_telemetry_server.Storage.Frame.Records.{records, IsValid}
use my_telemetry_server.Storage.Entry.{
  Entry, parse_body, parse_len, parse_entry, encode_entry, entry_at, offsets_from, entry_offsets,
}
use my_telemetry_server.Storage.Entry.RoundTrip.{Fits, encode_all, starts, parse_entry-encode_entry}

parse_body_inside :
    (w : List ℕ) (offset n p : ℕ) (e : Entry)
    → parse_body w offset n p ≡ ok e
    → (8 ≤ e.len) × (offset + e.len ≤ length w)
unfolding parse_body
parse_body_inside w offset n p e h = ground arith

parse_len_inside :
    (w : List ℕ) (offset : ℕ) (r : Option (ℕ × ℕ)) (e : Entry)
    → parse_len w offset r ≡ ok e
    → (8 ≤ e.len) × (offset + e.len ≤ length w)
unfolding parse_len
parse_len_inside w offset none e h = absurd (cc)
parse_len_inside w offset (some (n, p)) e h = parse_body_inside w offset n p e h

module _ (varint : Varint) where
  -- An entry that is read has a length and a time at least, and ends where the bytes do or before.
  pub parse_entry_inside :
      (w : List ℕ) (offset : ℕ) (e : Entry)
      → parse_entry varint w offset ≡ ok e
      → (8 ≤ e.len) × (offset + e.len ≤ length w)
  unfolding parse_entry
  parse_entry_inside w offset e h =
      ground (arith, parse_len_inside w offset (varint.from_slice (drop offset w)) e)

  entry_at_inside :
      (f : Frame) (offset : ℕ) (e : Entry)
      → entry_at varint f offset ≡ ok e
      → (8 ≤ e.len) × (offset + e.len ≤ records_end f)
  unfolding entry_at
  entry_at_inside f offset e h = omega (
    arith,
    parse_entry_inside (slice 0 (records_end f) f.bytes) offset e h,
    length-slice-le 0 (records_end f) f.bytes,
  )

  offsets_from-ne-none :
      (fuel : ℕ) (f : Frame) (offset : ℕ) (result : List ℕ)
      → offset ≤ records_end f
      → records_end f < offset + fuel
      → offsets_from varint fuel f offset result ≢ none
  unfolding offsets_from
  offsets_from-ne-none zero f offset result le h = absurd (omega arith)
  offsets_from-ne-none (suc fuel) f offset result le h =
      elim (Result-cases (entry_at varint f offset)) [
        | inl (e, eq) ↦
            let inside : (8 ≤ e.len) × (offset + e.len ≤ records_end f) =
              entry_at_inside f offset e eq in
            rw eq (
              ground (
                arith,
                offsets_from-ne-none fuel f (offset + e.len) (result ++ (offset ∷ [])) (omega arith)
                    (omega arith),
              ))
        | inr (x, eq) ↦ rw eq (ground arith)
      ]

  -- The walk of the entries ends on every frame, whatever its bytes are: it has a result or the
  -- error of an entry which does not read.
  pub entry_offsets-ne-none : (f : Frame) → entry_offsets varint f ≢ none
  unfolding entry_offsets records_end
  entry_offsets-ne-none f =
      offsets_from-ne-none (suc (records_end f)) f frame_header_len [] (omega arith) (omega arith)

  encode_entry_len : (time : ℤ) (payload : List ℕ) → 8 ≤ length (encode_entry varint time payload)
  unfolding encode_entry
  encode_entry_len time payload = omega (
    arith,
    length-append (varint.serialize ((8 + length payload) % 2 ^ 32))
        (to_le_bytes 8 (to_u64 time) ++ payload),
    length-append (to_le_bytes 8 (to_u64 time)) payload,
    length-to_le_bytes 8 (to_u64 time),
  )

  -- The bytes that `entry_at` reads, from their start to the end of the entries.
  offsets_from-encode_all :
      (es : List (ℤ × List ℕ)) (fuel : ℕ) (f : Frame) (before result : List ℕ)
      → slice 0 (records_end f) f.bytes ≡ before ++ encode_all varint es
      → records_end f ≡ length before + length (encode_all varint es)
      → All Fits es
      → length (encode_all varint es) < fuel
      → offsets_from varint fuel f (length before) result
        ≡ some (ok (result ++ starts varint (length before) es))
  unfolding offsets_from
  offsets_from-encode_all es zero f before result e len fits h = absurd (omega arith)
  offsets_from-encode_all [] (suc fuel) f before result e len fits h =
      rw (append-nil) (ground arith)
  offsets_from-encode_all ((time, payload) ∷ es) (suc fuel) f before result e len (fit, fits) h =
      let enc : List ℕ = encode_entry varint time payload in
      let next : List ℕ = before ++ enc in
      let next_len : length next ≡ length before + length enc = length-append before enc in
      let all_len : length (enc ++ encode_all varint es)
          ≡ length enc + length (encode_all varint es) =
        length-append enc (encode_all varint es) in
      let reads : entry_at varint f (length before)
          ≡ ok (record { len = length enc; time = time; payload = payload }) =
        (unfold entry_at in
          ap (λ w. parse_entry varint w (length before)) e
          ∙ parse_entry-encode_entry varint before payload (encode_all varint es) time fit.0
              fit.1) in
      let more : offsets_from varint fuel f (length next) (result ++ (length before ∷ []))
          ≡ some (ok ((result ++ (length before ∷ [])) ++ starts varint (length next) es)) =
        offsets_from-encode_all es fuel f next (result ++ (length before ∷ []))
          (e ∙ sym (append_assoc before enc (encode_all varint es))) (omega arith) fits
          (omega (arith, encode_entry_len time payload)) in
      let inside : ltb (length before) (records_end f) ≡ true =
        lt→ltb (length before) (records_end f) (omega (arith, encode_entry_len time payload)) in
      rw (reads, inside)
        (subst
          (λ k.
            offsets_from varint fuel f k (result ++ (length before ∷ []))
            ≡ some (ok (result ++ (length before ∷ starts varint k es))))
          next_len (more ∙ ap (λ w. some (ok w)) (append_assoc result (length before ∷ []) _)))

  -- A frame whose entries are the ones written for `es`, one after another, is walked to its end,
  -- and each of them is found where it starts.
  pub entry_offsets-encode_all :
      (f : Frame) (es : List (ℤ × List ℕ))
      → IsValid f
      → records f ≡ encode_all varint es
      → All Fits es
      → entry_offsets varint f ≡ some (ok (starts varint frame_header_len es))
  unfolding entry_offsets
  entry_offsets-encode_all f es v e fits =
      subst (λ k. offsets_from varint (suc (records_end f)) f k [] ≡ some (ok (starts varint k es)))
        header_len
        (offsets_from-encode_all es (suc (records_end f)) f (take 11 f.bytes) []
          (slice_from_start 11 (records_end f) f.bytes (omega (arith, v.len)) past_header
            ∙ ap (λ w. take 11 f.bytes ++ w) (unfold records in e))
          ends fits (omega (arith, ends)))
    where
      header_len : length (take 11 f.bytes) ≡ 11
      header_len = omega (arith, length-take 11 f.bytes, v.len)

      past_header : 11 ≤ records_end f
      past_header = unfold records_end in omega arith

      ends : records_end f ≡ length (take 11 f.bytes) + length (encode_all varint es)
      ends =
          unfold records records_end in
          omega (
            arith,
            header_len,
            ap length e,
            length-slice 11 (records_end f) f.bytes
                (unfold records_end in omega (arith, v.len, v.fits)),
          )
