-- ===== src/Storage/Entry/Offsets.antt =====
-- The offsets which `Frame::entry_offsets` of frame.rs gives are of entries of the frame.
use my_telemetry_server.Base.{
  ℕ, zero, suc, ◌+◌, ◌≤◌, ◌<◌, ◌≡◌, arith, ltb, ltb→lt, Option, some, List, [], ◌∷◌, ◌++◌, All,
  All-append, Bool-cases, inl, inr, subst,
}
use my_telemetry_server.Base.Result.{Result, ok, err, Result-cases}
use my_telemetry_server.Storage.Varint.{Varint}
use my_telemetry_server.Storage.Frame.{Frame, frame_header_len, records_end}
use my_telemetry_server.Storage.Entry.{offsets_from, entry_offsets, entry_at, EntryError}

abbrev pub IsOffset : Frame → ℕ → Type 0
IsOffset f o = (frame_header_len ≤ o) × (o < records_end f)

offsets_from-All :
    (varint : Varint) (fuel : ℕ) (f : Frame) (offset : ℕ) (result l : List ℕ)
    → frame_header_len ≤ offset
    → All (IsOffset f) result
    → offsets_from varint fuel f offset result ≡ some (ok l)
    → All (IsOffset f) l
offsets_from-All varint zero f offset result l lo h e =
    absurd (unfold offsets_from in ground (arith, e))
offsets_from-All varint (suc fuel) f offset result l lo h e =
    elim (Bool-cases (ltb offset (records_end f))) [
      | inr k ↦
          let same : result ≡ l = (unfold offsets_from in done_eq (rw k at e)) in
          subst (All (IsOffset f)) same h
      | inl k ↦ elim (Result-cases (entry_at varint f offset)) [
        | inr (x, eq) ↦ absurd (unfold offsets_from in failed x l (rw (k, eq) at e))
        | inl (entry, eq) ↦
            offsets_from-All varint fuel f (offset + entry.len) (result ++ (offset ∷ [])) l
              (omega (arith, lo))
              (All-append (IsOffset f) result (offset ∷ []) h ((lo, ltb→lt _ _ k), record {}))
              (unfold offsets_from in rw (k, eq) at e)
      ]
    ]
  where
    done_eq :
        {a b : List ℕ}
        → ◌≡◌ {A = Option (Result EntryError (List ℕ))} (some (ok a)) (some (ok b))
        → a ≡ b
    done_eq h = cc (h)

    failed :
        (x : EntryError) (l : List ℕ)
        → ◌≡◌ {A = Option (Result EntryError (List ℕ))} (some (err x)) (some (ok l))
        → ⊥
    failed x l h = absurd (ground (arith, h))

-- The walk gives offsets of entries only.
pub entry_offsets-All :
    (varint : Varint) (f : Frame) (l : List ℕ)
    → entry_offsets varint f ≡ some (ok l)
    → All (IsOffset f) l
unfolding entry_offsets
entry_offsets-All varint f l e =
    offsets_from-All varint (suc (records_end f)) f frame_header_len [] l (omega arith) (record {})
      e
