-- ===== src/Storage/Entry/RoundTrip.antt =====
-- What `encode_entry` writes is what `parse_entry` and the walk of a frame read.
use my_telemetry_server.Base.{
  ℕ, ◌+◌, ◌%◌, ◌^◌, ◌≤◌, ◌<◌, ◌≡◌, refl, sym, ap, ◌∙◌, arith, leb, some, List, [], ◌∷◌, ◌++◌,
  length, drop, slice, append_assoc, length-append, drop-append, slice-append, false,
}
use my_telemetry_server.Base.Bytes.{
  to_le_bytes, from_le_bytes, length-to_le_bytes, from_le_bytes-to_le_bytes,
}
use my_telemetry_server.Base.Int.{ℤ, InI64, to_u64, from_u64, from_u64-to_u64, to_u64-lt}
use my_telemetry_server.Base.Result.{ok}
use my_telemetry_server.Storage.Varint.{Varint}
use my_telemetry_server.Storage.Frame.{entry_time_len, max_entry_body_len}
use my_telemetry_server.Storage.Entry.{parse_body, parse_entry, encode_entry}

parse_body-ok :
    (w : List ℕ) (offset n p : ℕ)
    → 8 ≤ n
    → n ≤ 8192
    → offset + p + n ≤ length w
    → parse_body w offset n p
      ≡ ok (record {
        len = p + n;
        time = from_u64 (from_le_bytes (slice (offset + p) (offset + p + 8) w));
        payload = slice (offset + p + 8) (offset + p + n) w;
      })
unfolding parse_body
parse_body-ok w offset n p lo hi room = ground arith

-- The parts of an entry between what is before and after it.
module _ (before pre payload after : List ℕ) (time : ℤ) where
  whole : List ℕ
  whole = before ++ (pre ++ (to_le_bytes 8 (to_u64 time) ++ (payload ++ after)))

  whole_len : length before + length pre + (8 + length payload) ≤ length whole
  unfolding whole
  whole_len = omega (
    arith,
    length-append before (pre ++ (to_le_bytes 8 (to_u64 time) ++ (payload ++ after))),
    length-append pre (to_le_bytes 8 (to_u64 time) ++ (payload ++ after)),
    length-append (to_le_bytes 8 (to_u64 time)) (payload ++ after),
    length-append payload after,
    length-to_le_bytes 8 (to_u64 time),
  )

  time_is :
      slice (length before + length pre) (length before + length pre + 8) whole
      ≡ to_le_bytes 8 (to_u64 time)
  unfolding whole
  time_is =
      ap (slice _ _) (sym (append_assoc before pre _))
      ∙ slice-append _ _ (before ++ pre) (to_le_bytes 8 (to_u64 time)) (payload ++ after)
          (sym (length-append before pre))
          (omega (arith, length-append before pre, length-to_le_bytes 8 (to_u64 time)))

  payload_is :
      slice
        (length before + length pre + 8)
        (length before + length pre + (8 + length payload))
        whole
      ≡ payload
  unfolding whole
  payload_is =
      ap (slice _ _) (
        ap (λ w. before ++ w) (sym (append_assoc pre (to_le_bytes 8 (to_u64 time)) _))
        ∙ sym (append_assoc before (pre ++ to_le_bytes 8 (to_u64 time)) _))
      ∙ slice-append _ _ (before ++ (pre ++ to_le_bytes 8 (to_u64 time))) payload after front_len
          (omega (arith, front_len))
    where
      front_len :
          length before + length pre + 8 ≡ length (before ++ (pre ++ to_le_bytes 8 (to_u64 time)))
      front_len = omega (
        arith,
        length-append before (pre ++ to_le_bytes 8 (to_u64 time)),
        length-append pre (to_le_bytes 8 (to_u64 time)),
        length-to_le_bytes 8 (to_u64 time),
      )

  parse_body-whole :
      InI64 time
      → length payload ≤ 8184
      → parse_body whole (length before) (8 + length payload) (length pre)
        ≡ ok (record { len = length pre + (8 + length payload); time = time; payload = payload })
  parse_body-whole h fits =
      parse_body-ok whole (length before) (8 + length payload) (length pre) (omega arith)
        (omega arith) whole_len
      ∙ rw (time_is, payload_is, time_back)
    where
      time_back : from_u64 (from_le_bytes (to_le_bytes 8 (to_u64 time))) ≡ time
      time_back =
          ap from_u64 (from_le_bytes-to_le_bytes 8 (to_u64 time) (to_u64-lt time))
          ∙ from_u64-to_u64 time h

-- An entry within the limits of a frame.
abbrev pub Fits : ℤ × List ℕ → Type 0
Fits e = InI64 e.0 × (length e.1 + entry_time_len ≤ max_entry_body_len)

module _ (varint : Varint) where
  parse_entry_lem :
      (w : List ℕ) (offset n p : ℕ)
      → offset < length w
      → varint.from_slice (drop offset w) ≡ some (n, p)
      → parse_entry varint w offset ≡ parse_body w offset n p
  unfolding parse_entry
  parse_entry_lem w offset n p inside e = rw (past, e)
    where
      past : leb (length w) offset ≡ false
      past = ground arith

  -- An entry is read back from where it was put, whatever is before and after it.
  pub parse_entry-encode_entry :
      (before payload after : List ℕ) (time : ℤ)
      → InI64 time
      → length payload + entry_time_len ≤ max_entry_body_len
      → parse_entry varint (before ++ (encode_entry varint time payload ++ after)) (length before)
        ≡ ok (record {
          len = length (encode_entry varint time payload);
          time = time;
          payload = payload;
        })
  parse_entry-encode_entry before payload after time h fits =
      rw (is_whole, encode_len)
        (parse_entry_lem w (length before) (8 + length payload) (length pre)
            (omega (arith, whole_len before pre payload after time)) reads
          ∙ parse_body-whole before pre payload after time h (omega arith))
    where
      pre : List ℕ
      pre = varint.serialize ((8 + length payload) % 2 ^ 32)

      w : List ℕ
      w = whole before pre payload after time

      is_whole : before ++ (encode_entry varint time payload ++ after) ≡ w
      is_whole = unfold whole encode_entry in simp append_assoc

      encode_len : length (encode_entry varint time payload) ≡ length pre + (8 + length payload)
      encode_len =
          unfold encode_entry in
          omega (
            arith,
            length-append pre (to_le_bytes 8 (to_u64 time) ++ payload),
            length-append (to_le_bytes 8 (to_u64 time)) payload,
            length-to_le_bytes 8 (to_u64 time),
          )

      reads : varint.from_slice (drop (length before) w) ≡ some (8 + length payload, length pre)
      reads =
          unfold whole in
          ap varint.from_slice (drop-append (length before) before _ refl)
          ∙ varint.reads_back ((8 + length payload) % 2 ^ 32) _ (omega arith)
          ∙ ap (λ k. some (k, length pre)) (omega arith)

  abbrev pub encode_all : List (ℤ × List ℕ) → List ℕ
  encode_all [] = []
  encode_all ((time, payload) ∷ es) = encode_entry varint time payload ++ encode_all es

  -- Where each of the entries starts, the first one at `at`.
  abbrev pub starts : ℕ → List (ℤ × List ℕ) → List ℕ
  starts at [] = []
  starts at ((time, payload) ∷ es) = at ∷ starts (at + length (encode_entry varint time payload)) es
