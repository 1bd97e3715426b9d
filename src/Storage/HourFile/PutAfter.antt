-- ===== src/Storage/HourFile/PutAfter.antt =====
-- `append_frame` of hour_file.rs: the entry goes into a new frame at the end of the chain.
use my_telemetry_server.Base.{
  ℕ, ◌+◌, ◌-◌, ◌≤◌, ◌<◌, ◌≡◌, refl, sym, ap, subst, ◌∙◌, arith, if◌then◌else◌, true, false, Option,
  none, some, List, [], ◌∷◌, ◌++◌, map, length, Bool-cases, inl, inr,
}
use mathlib.Core.List.{map-id}
use my_telemetry_server.Base.Result.{ok, err}
use my_telemetry_server.Storage.Frame.{
  Frame, FrameId, same_frame, head, frame_capacity, next, insert, new, set_next,
}
use my_telemetry_server.Storage.Frame.Records.{records, IsValid}
use my_telemetry_server.Storage.Frame.Links.{records-set_next, next-set_next, set_next-IsValid}
use my_telemetry_server.Storage.HourFile.{
  HourFile, HourError, read_frame, put_frame, mark_dirty, read_frame_from_disk, allocate_frame,
}
use my_telemetry_server.Storage.HourFile.Insert.{append_frame, first_of}
use my_telemetry_server.Storage.HourFile.View.{
  View, flat, has_frame, same_frame→eq, same_frame_refl, inside_first, place_first, inside_later,
  place_later,
}
use my_telemetry_server.Storage.HourFile.Edits.{Inserted-after}
use my_telemetry_server.Storage.HourFile.Chain.{
  Leads, Distinct, EntryAt, EntryAt-append, Inserted-append, apart_of_fresh, fresh_absent,
}
use my_telemetry_server.Storage.HourFile.State.{
  SameRest, IsSound, IsSound-after, insert_bytes_lem, link_frame_lem, in_memory_put,
  in_memory_still,
}
use my_telemetry_server.Storage.HourFile.State.Allocate.{Allocated, allocate_frame_lem}
use my_telemetry_server.Storage.HourFile.Puts.{Represents, Outcome, Put-of_Inserted}
use my_telemetry_server.Storage.HourFile.PutHere.{frame_of_chain}
use my_telemetry_server.Storage.HourFile.Grow.{
  filled, read_frame-put_two, has_frame_last, Distinct-grow, Leads-grow, absent_front,
  last_id-grow_end, not_head,
}

module _ (h : HourFile) (v1 : View) (g : FrameId) (r : List ℕ)
    (repr : Represents h (v1 ++ ((g, r) ∷ []))) (F : Frame) (reads : read_frame h g ≡ ok F)
    (entry : List ℕ) (some_bytes : 0 < length entry) (fits : length entry ≤ frame_capacity)
    (fs : FrameId → Option Frame) (in_memory : fs g ≡ some F)
    (kept : (at : FrameId) → read_frame (record h { frames = fs }) at ≡ read_frame h at) where
  abbrev h1 : HourFile
  h1 = record h { frames = fs }

  sound1 : IsSound h1
  sound1 = IsSound-after h h1 repr.sound refl refl (λ id f e. (f, sym (kept id) ∙ e))

  module _ (to : FrameId) (h2 : HourFile) (A : Allocated h1 to h2) (N : Frame)
      (put : insert new 11 entry ≡ some N) where
    abbrev after : HourFile
    after =
        record (mark_dirty (mark_dirty (put_frame (put_frame h2 to N) g (set_next F (some to))) to)
          g) { tail = some to }

    chain_reads :
        (id : FrameId) → has_frame (v1 ++ ((g, r) ∷ [])) id ≡ true → same_frame id to ≡ false
    chain_reads id k =
        apart_of_fresh (read_frame h) (some head) (v1 ++ ((g, r) ∷ [])) none id to repr.leads
          (λ f e. A.fresh f (kept to ∙ e)) k

    apart : same_frame g to ≡ false
    apart = chain_reads g (has_frame_last v1 [] g r)

    append_frame_is :
        allocate_frame h1 ≡ ok (to, h2) → append_frame h1 g entry ≡ ok (first_of to, after)
    unfolding append_frame
    append_frame_is e =
        rw
          (
            e,
            insert_bytes_lem h2 to new N 11 entry
                (ap (λ (x : HourFile). x.frames to) A.is_put
                  ∙ in_memory_put (record h1 { data_files = h2.data_files }) to new)
                put,
            link_frame_lem (put_frame h2 to N) g F (some to) (
                in_memory_still h2 to g N F apart (
                  ap (λ (x : HourFile). x.frames g) A.is_put
                  ∙ in_memory_still (record h1 { data_files = h2.data_files }) to g new F apart
                      in_memory)),
          )
          refl

    after_reads :
        (at : FrameId)
        → read_frame after at ≡ (
            if same_frame at g
            then ok (set_next F (some to))
            else if same_frame at to
            then ok N
            else read_frame h at)
    after_reads at =
        let same : read_frame after at
            ≡ read_frame (put_frame (put_frame h2 to N) g (set_next F (some to))) at =
          (unfold read_frame read_frame_from_disk mark_dirty in refl) in
        same
        ∙ read_frame-put_two h2 to g N (set_next F (some to)) at
        ∙ elim (Bool-cases (same_frame at to)) [
          | inl k ↦ rw k refl
          | inr k ↦ rw k (
              ap (λ x. if same_frame at g then ok (set_next F (some to)) else x)
                (A.reads at ∙ rw k (kept at)))
        ]

    known_after :
        (id : FrameId) (f : Frame)
        → read_frame after id ≡ ok f
        → (f' : Frame) × (read_frame h2 id ≡ ok f')
    known_after id f e = elim (Bool-cases (same_frame id to)) [
      | inl k ↦ (new, A.reads id ∙ rw k refl)
      | inr k ↦ elim (Bool-cases (same_frame id g)) [
        | inl j ↦
            (F, A.reads id ∙ rw k (kept id ∙ ap (read_frame h) (same_frame→eq id g j) ∙ reads))
        | inr j ↦ (f, A.reads id ∙ rw k (kept id ∙ (rw (j, k) at (sym (after_reads id) ∙ e))))
      ]
    ]

    after-IsSound : IsSound after
    after-IsSound =
        IsSound-after h2 after A.sound (unfold mark_dirty put_frame in refl)
          (unfold mark_dirty put_frame in refl) known_after

    Distinct-after : Distinct (v1 ++ ((g, r) ∷ (to, entry) ∷ []))
    Distinct-after = Distinct-grow v1 [] g to r r entry repr.distinct (
        fresh_absent (read_frame h) (some head) (v1 ++ ((g, r) ∷ [])) none to repr.leads
          (λ f e. A.fresh f (kept to ∙ e)))

    Leads-after : Leads (read_frame after) (some head) (v1 ++ ((g, r) ∷ (to, entry) ∷ [])) none
    Leads-after =
        let (to', first, valid, holds, names, rest) = frame_of_chain h v1 [] g r repr F reads in
        let (N', eq, N_holds, N_last, N_valid) = filled entry fits in
        let same : N' ≡ N = (cc (eq, put)) in
        let other : same_frame to head ≡ false =
          not_head h (v1 ++ ((g, r) ∷ [])) to repr.leads chain_reads in
        Leads-grow h v1 [] g r repr F reads to chain_reads (read_frame after) (set_next F (some to))
          N r entry after_reads (set_next-IsValid F to valid A.link other)
          (records-set_next F valid (some to) ∙ holds) (next-set_next F valid to A.link other)
          (subst IsValid same N_valid) (ap records (sym same) ∙ N_holds)
          (ap next (sym same) ∙ N_last ∙ sym (names ∙ rest))

    cells_after : after.cells.cells ≡ map (λ c. c) h.cells.cells
    unfolding mark_dirty put_frame
    cells_after = ap (λ (x : HourFile). x.cells.cells) A.is_put ∙ sym (map-id h.cells.cells)

    after-SameRest : SameRest h after
    unfolding mark_dirty put_frame
    after-SameRest = (
      ap (λ (x : HourFile). x.cells.counts) A.is_put,
      ap (λ (x : HourFile). x.last_second) A.is_put,
    )

    entry_after :
        EntryAt
          (v1 ++ ((g, r) ∷ (to, entry) ∷ []))
          (first_of to)
          (length (flat v1) + length r)
          (length entry)
    entry_after =
        EntryAt-append v1 ((g, r) ∷ (to, entry) ∷ []) (first_of to) (length r) (length entry)
          (absent_front v1 ((g, r) ∷ []) to (
            fresh_absent (read_frame h) (some head) (v1 ++ ((g, r) ∷ [])) none to repr.leads
              (λ f e. A.fresh f (kept to ∙ e))))
          (record {
            inside =
                inside_later g to r ((to, entry) ∷ []) 11 apart
                ∙ inside_first to to entry [] 11 (same_frame_refl to) (omega arith) (omega arith);
            last_inside =
                inside_later g to r ((to, entry) ∷ []) (11 + length entry - 1) apart
                ∙ inside_first to to entry [] (11 + length entry - 1) (same_frame_refl to)
                    (omega (arith, some_bytes)) (omega (arith, some_bytes));
            place_is =
                place_later g to r ((to, entry) ∷ []) 11 apart
                ∙ omega (arith, place_first to to entry [] 11 (same_frame_refl to));
          })

  pub append_frame-Outcome :
      Outcome h (v1 ++ ((g, r) ∷ [])) entry (length (flat v1) + length r) (append_frame h1 g entry)
  append_frame-Outcome = elim (allocate_frame_lem h1 sound1) [
    | inl e ↦ rw (refused e) tt
    | inr (to, h2, e, A) ↦
        let (N, put, N_holds, N_last, N_valid) = filled entry fits in
        rw (append_frame_is to h2 A N put e) (
          v1 ++ ((g, r) ∷ (to, entry) ∷ []),
          Put-of_Inserted h (after to h2 A N put) (v1 ++ ((g, r) ∷ []))
              (v1 ++ ((g, r) ∷ (to, entry) ∷ [])) entry (length (flat v1) + length r) (first_of to)
              (λ c. c) repr
              (Inserted-append v1 (λ c. c) (λ c k. refl) repr.distinct
                (Distinct-after to h2 A N put) (Inserted-after g to r entry (apart to h2 A N put)))
              (entry_after to h2 A N put) (cells_after to h2 A N put) (λ c k. refl)
              (after-IsSound to h2 A N put) (Leads-after to h2 A N put)
              (Distinct-after to h2 A N put) (sym (last_id-grow_end v1 g to r entry))
              (after-SameRest to h2 A N put),
        )
  ]
    where
      refused :
          allocate_frame h1 ≡ err HourError.too_many_files
          → append_frame h1 g entry ≡ err HourError.too_many_files
      refused e = unfold append_frame in rw e refl
