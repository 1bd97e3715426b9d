-- ===== src/Storage/Reader/Packed.antt =====
-- The packed seconds of a value are read back, and reading ends on any bytes.
use my_telemetry_server.Base.{
  ℕ, zero, suc, ◌+◌, ◌-◌, ◌%◌, ◌^◌, ◌≤◌, ◌<◌, ◌≡◌, ◌≢◌, refl, sym, ap, subst, ◌∙◌, arith, ltb, leb,
  false, Option, none, some, List, [], ◌∷◌, ◌++◌, length, drop, All, length-append, drop-append,
  append_assoc, append-nil, Option-cases, Bool-cases, inl, inr, lt→ltb,
}
use my_telemetry_server.Storage.Varint.{Varint}
use my_telemetry_server.Storage.Cells.{seconds_per_hour}
use my_telemetry_server.Storage.KeyIndex.{SecondCounts}
use my_telemetry_server.Storage.KeyIndex.Seconds.{IsAscending, IsSeconds}
use my_telemetry_server.Storage.Reader.{
  Reader, write_len, taken_len, len_of, read_len, pack_from, pack_seconds, with_step, read_two,
  unpack_from, unpack_seconds,
}

all_from :
    (es : SecondCounts) (s : ℕ)
    → All (λ x. s < x.0) es
    → (second : ℕ) → All (λ e. (second ≤ e.0) × ((e.0 < 3600) × (e.1 < 2 ^ 32))) es
    → All (λ e. (s ≤ e.0) × ((e.0 < 3600) × (e.1 < 2 ^ 32))) es
all_from [] s h second k = record {}
all_from (e ∷ es) s h second k = ((omega (arith, h.0), k.0.1), all_from es s h.1 second k.1)

from_start :
    (es : SecondCounts)
    → All (λ x. x.0 < 3600) es
    → All (λ e. e.1 < 2 ^ 32) es
    → All (λ e. (0 ≤ e.0) × ((e.0 < 3600) × (e.1 < 2 ^ 32))) es
from_start [] h k = record {}
from_start (e ∷ es) h k = ((omega arith, (h.0, k.0)), from_start es h.1 k.1)

module _ (varint : Varint) where
  read_len_lem :
      (r : Reader) (rest : List ℕ) (n size : ℕ)
      → drop r.position r.bytes ≡ rest
      → 0 < length rest
      → varint.from_slice rest ≡ some (n, size)
      → read_len varint r ≡ some (n, record r { position = r.position + size })
  unfolding read_len len_of taken_len
  read_len_lem r [] n size d h e = absurd (omega arith)
  read_len_lem r (b ∷ bs) n size d h e = rw (d, e) refl

  -- A length which is written is read where it stands, and the reader goes past it.
  pub read_len-write_len :
      (before after : List ℕ) (n : ℕ)
      → n < 2 ^ 32
      → read_len varint
          (record { bytes = before ++ (write_len varint n ++ after); position = length before })
        ≡ some (
          n,
          record {
            bytes = before ++ (write_len varint n ++ after);
            position = length before + length (write_len varint n);
          },
        )
  unfolding write_len
  read_len-write_len before after n h =
      let low : n % 2 ^ 32 ≡ n = omega arith in
      let rest : List ℕ = varint.serialize (n % 2 ^ 32) ++ after in
      let some_bytes : 1 ≤ length (varint.serialize (n % 2 ^ 32)) =
        (varint.writes_some (n % 2 ^ 32) (omega arith)).0 in
      read_len_lem (record { bytes = before ++ rest; position = length before }) rest n
        (length (varint.serialize (n % 2 ^ 32))) (drop-append (length before) before rest refl)
        (omega (arith, some_bytes, length-append (varint.serialize (n % 2 ^ 32)) after))
        (varint.reads_back (n % 2 ^ 32) after (omega arith)
          ∙ ap (λ k. some (k, length (varint.serialize (n % 2 ^ 32)))) low)

  len_of_past :
      (l : List ℕ) (r : Reader) (n : ℕ) (r' : Reader)
      → len_of varint r l ≡ some (n, r')
      → (r'.bytes ≡ r.bytes) × (r.position < r'.position)
  unfolding len_of taken_len
  len_of_past [] r n r' e = absurd (cc)
  len_of_past (b ∷ bs) r n r' e = elim (Option-cases (varint.from_slice (b ∷ bs))) [
    | inl x ↦ absurd (ground (arith, x))
    | inr ((v, size), x) ↦
        let one : 1 ≤ size = varint.takes_some (b ∷ bs) v size x in
        (ground (arith, x), ground (arith, x, one))
  ]

  read_len_past :
      (r : Reader) (n : ℕ) (r' : Reader)
      → read_len varint r ≡ some (n, r')
      → (r'.bytes ≡ r.bytes) × (r.position < r'.position)
  unfolding read_len
  read_len_past r n r' e = len_of_past (drop r.position r.bytes) r n r' e

  read_at :
      (w before after : List ℕ) (n : ℕ)
      → n < 2 ^ 32
      → w ≡ before ++ (write_len varint n ++ after)
      → read_len varint (record { bytes = w; position = length before })
        ≡ some (n, record { bytes = w; position = length (before ++ write_len varint n) })
  read_at w before after n h e =
      subst
        (λ v.
          read_len varint (record { bytes = v; position = length before })
          ≡ some (n, record { bytes = v; position = length (before ++ write_len varint n) }))
        (sym e)
        (read_len-write_len before after n h
          ∙ ap
              (λ k.
                some (n, record { bytes = before ++ (write_len varint n ++ after); position = k }))
              (sym (length-append before (write_len varint n))))

  read_two_lem :
      (r r' r'' : Reader) (a b : ℕ)
      → read_len varint r ≡ some (a, r')
      → read_len varint r' ≡ some (b, r'')
      → read_two varint (read_len varint r) ≡ some (a, b, r'')
  unfolding read_two with_step
  read_two_lem r r' r'' a b e f = rw e (rw f refl)

  with_step_past :
      (o : Option (ℕ × Reader)) (r r'' : Reader) (step a b : ℕ)
      → ((n : ℕ) (q : Reader) → o ≡ some (n, q) → (q.bytes ≡ r.bytes) × (r.position < q.position))
      → with_step varint step o ≡ some (a, b, r'')
      → (r''.bytes ≡ r.bytes) × (r.position < r''.position)
  unfolding with_step
  with_step_past none r r'' step a b h e = absurd (cc)
  with_step_past (some (n, q)) r r'' step a b h e =
      let (same, past) = h n q refl in
      let is_it : q ≡ r'' = ground arith in
      subst (λ x. (x.bytes ≡ r.bytes) × (r.position < x.position)) is_it (same, past)

  read_two_past_of :
      (o : Option (ℕ × Reader)) (r r'' : Reader) (a b : ℕ)
      → ((n : ℕ) (q : Reader) → o ≡ some (n, q) → (q.bytes ≡ r.bytes) × (r.position < q.position))
      → read_two varint o ≡ some (a, b, r'')
      → (r''.bytes ≡ r.bytes) × (r.position < r''.position)
  unfolding read_two
  read_two_past_of none r r'' a b h e = absurd (cc)
  read_two_past_of (some (n, q)) r r'' a b h e =
      let (same, past) = h n q refl in
      let (same', past') =
        with_step_past (read_len varint q) q r'' n a b (λ m x. read_len_past q m x) e in
      (same' ∙ same, omega arith)

  read_two_past :
      (r r'' : Reader) (a b : ℕ)
      → read_two varint (read_len varint r) ≡ some (a, b, r'')
      → (r''.bytes ≡ r.bytes) × (r.position < r''.position)
  read_two_past r r'' a b e =
      read_two_past_of (read_len varint r) r r'' a b (λ n q. read_len_past r n q) e

  -- A round of the loop which reads two numbers, and the end of the loop.
  unpack_round :
      (fuel : ℕ) (r r' : Reader) (second step records : ℕ) (result : SecondCounts)
      → r.position < length r.bytes
      → read_two varint (read_len varint r) ≡ some (step, records, r')
      → second + step < 3600
      → unpack_from varint (suc fuel) r second result
        ≡ unpack_from varint fuel r' (second + step) (result ++ ((second + step, records) ∷ []))
  unfolding unpack_from
  unpack_round fuel r r' second step records result inside e small =
      rw e (ground (arith, lt→ltb r.position (length r.bytes) inside))

  write_len_some : (n : ℕ) → 1 ≤ length (write_len varint n)
  unfolding write_len
  write_len_some n = (varint.writes_some (n % 2 ^ 32) (omega arith)).0

  unpack_end :
      (fuel : ℕ) (w : List ℕ) (second : ℕ) (result : SecondCounts)
      → unpack_from varint (suc fuel) (record { bytes = w; position = length w }) second result
        ≡ some (some result)
  unfolding unpack_from
  unpack_end fuel w second result = rw (not_inside w) refl
    where
      not_inside : (w : List ℕ) → ltb (length w) (length w) ≡ false
      not_inside w = ground arith

  unpack_from-pack_from :
      (es : SecondCounts) (fuel : ℕ) (w before : List ℕ) (second : ℕ) (result : SecondCounts)
      → w ≡ before ++ pack_from varint second es
      → IsAscending es
      → second < 3600
      → All (λ e. (second ≤ e.0) × ((e.0 < 3600) × (e.1 < 2 ^ 32))) es
      → length (pack_from varint second es) < fuel
      → unpack_from varint fuel (record { bytes = w; position = length before }) second result
        ≡ some (some (result ++ es))
  unfolding pack_from
  unpack_from-pack_from es zero w before second result e asc low h few = absurd (omega arith)
  unpack_from-pack_from [] (suc fuel) w before second result e asc low h few =
      let same : w ≡ before = e ∙ append-nil before in
      rw (append-nil result) (
        subst
          (λ v.
            unpack_from varint (suc fuel) (record { bytes = w; position = length v }) second result
            ≡ some (some result))
          same (unpack_end fuel w second result))
  unpack_from-pack_from ((s, records) ∷ es) (suc fuel) w before second result e asc low h few =
      let ((le, (in_hour, small)), hs) = h in
      let step : ℕ = (s + 2 ^ 16 - second) % 2 ^ 16 in
      let step_is : second + step ≡ s = omega arith in
      let one : List ℕ = write_len varint step in
      let two : List ℕ = write_len varint records in
      let rest : List ℕ = pack_from varint s es in
      let middle : List ℕ = before ++ one in
      let after : List ℕ = middle ++ two in
      let e' : w ≡ middle ++ (two ++ rest) = e ∙ sym (append_assoc before one (two ++ rest)) in
      let e'' : w ≡ after ++ rest = e' ∙ sym (append_assoc middle two rest) in
      let both : read_two varint (read_len varint (record { bytes = w; position = length before }))
          ≡ some (step, records, record { bytes = w; position = length after }) =
        read_two_lem _ _ _ step records (read_at w before (two ++ rest) step (omega arith) e)
          (read_at w middle rest records small e') in
      let lens : length one + (length two + length rest) ≡ length (one ++ (two ++ rest)) =
        omega (arith, length-append one (two ++ rest), length-append two rest) in
      let inside : length before < length w = omega (
        arith,
        ap length e,
        length-append before (one ++ (two ++ rest)),
        lens,
        write_len_some step,
      ) in
      unpack_round fuel (record { bytes = w; position = length before })
        (record { bytes = w; position = length after }) second step records result inside both
        (omega arith)
      ∙ subst
          (λ k.
            unpack_from varint fuel (record { bytes = w; position = length after }) k
              (result ++ ((k, records) ∷ []))
            ≡ some (some (result ++ ((s, records) ∷ es))))
          (sym step_is)
          (unpack_from-pack_from es fuel w after s (result ++ ((s, records) ∷ [])) e'' asc.1 in_hour
              (all_from es s asc.0 second hs) (omega (arith, lens, write_len_some step))
            ∙ ap (λ v. some (some v)) (append_assoc result ((s, records) ∷ []) es))

  -- The seconds of a value are read back as they were packed.
  pub unpack_seconds-pack_seconds :
      (es : SecondCounts)
      → IsSeconds es
      → All (λ e. e.1 < 2 ^ 32) es
      → unpack_seconds varint (pack_seconds varint es) ≡ some (some es)
  unfolding unpack_seconds pack_seconds
  unpack_seconds-pack_seconds es h small =
      unpack_from-pack_from es (suc (length (pack_from varint 0 es))) (pack_from varint 0 es) [] 0
        [] refl h.0 (omega arith) (from_start es h.1 small) (omega arith)

  unpack_from-ne-none :
      (fuel : ℕ) (r : Reader) (second : ℕ) (result : SecondCounts)
      → length r.bytes - r.position < fuel
      → unpack_from varint fuel r second result ≢ none
  unfolding unpack_from
  unpack_from-ne-none zero r second result h = absurd (omega arith)
  unpack_from-ne-none (suc fuel) r second result h =
      elim (Bool-cases (ltb r.position (length r.bytes))) [
        | inr out ↦ rw out (λ e. absurd (cc (e)))
        | inl inside ↦ elim (Option-cases (read_two varint (read_len varint r))) [
          | inl e ↦ rw (inside, e) (λ x. absurd (cc (x)))
          | inr ((step, records, q), e) ↦
              let (same, past) = read_two_past r q step records e in
              let len : length q.bytes ≡ length r.bytes = ap length same in
              let before_end : r.position < length r.bytes = ground (arith, inside) in
              let ih : unpack_from varint fuel q (second + step)
                    (result ++ ((second + step, records) ∷ []))
                  ≢ none =
                unpack_from-ne-none fuel q (second + step)
                  (result ++ ((second + step, records) ∷ [])) (omega arith) in
              elim (Bool-cases (leb seconds_per_hour (second + step))) [
                | inl late ↦ rw (inside, e, late) (λ x. absurd (cc (x)))
                | inr early ↦ rw (inside, e, early) ih
              ]
        ]
      ]

  -- Reading packed seconds ends on any bytes: with seconds, or with none.
  pub unpack_seconds-ne-none : (bytes : List ℕ) → unpack_seconds varint bytes ≢ none
  unfolding unpack_seconds
  unpack_seconds-ne-none bytes =
      unpack_from-ne-none (suc (length bytes)) (record { bytes = bytes; position = 0 }) 0 []
        (omega arith)
