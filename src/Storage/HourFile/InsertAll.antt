-- ===== src/Storage/HourFile/InsertAll.antt =====
-- `insert_at` of hour_file.rs: wherever the place is, the entry goes in there, or the insert is refused.
use my_telemetry_server.Base.{
  ℕ, zero, suc, ◌+◌, ◌≤◌, ◌<◌, ◌≡◌, refl, sym, ap, subst, ◌∙◌, arith, leb, ltb, Option, none, some,
  List, [], ◌∷◌, ◌++◌, length, length-append, append_assoc, Bool-cases, leb→le, ltb_false→le, inl,
  inr,
}
use mathlib.Core.Path.{subst₂}
use my_telemetry_server.Base.Result.{Result, ok, err}
use my_telemetry_server.Storage.Varint.{Varint}
use my_telemetry_server.Storage.Frame.{
  Frame, FrameId, head, frame_header_len, frame_capacity, free, records_end, next,
}
use my_telemetry_server.Storage.Frame.Records.{length-records}
use my_telemetry_server.Storage.Cells.{Cell}
use my_telemetry_server.Storage.HourFile.{HourFile, HourError, read_frame}
use my_telemetry_server.Storage.HourFile.Insert.{insert_loop, append_frame}
use my_telemetry_server.Storage.HourFile.View.{View, flat}
use my_telemetry_server.Storage.HourFile.Moves.{at_place}
use my_telemetry_server.Storage.HourFile.Chain.{Leads-split, Leads-agree}
use my_telemetry_server.Storage.HourFile.State.{frame_lem, IsSound-after}
use my_telemetry_server.Storage.HourFile.Puts.{Represents, Outcome}
use my_telemetry_server.Storage.HourFile.PutHere.{frame_of_chain, insert_into_frame-Outcome}
use my_telemetry_server.Storage.HourFile.PutAfter.{append_frame-Outcome}
use my_telemetry_server.Storage.HourFile.HalveAll.{halve_and_insert-Outcome}

pub flat-append : (v w : View) → flat (v ++ w) ≡ flat v ++ flat w
flat-append [] w = refl
flat-append ((g, r) ∷ v) w =
    ap (λ l. r ++ l) (flat-append v w) ∙ sym (append_assoc r (flat v) (flat w))

-- Frames which were read into memory change nothing.
pub Represents-kept :
    (h : HourFile) (fs : FrameId → Option Frame) (v : View)
    → ((at : FrameId) → read_frame (record h { frames = fs }) at ≡ read_frame h at)
    → Represents h v
    → Represents (record h { frames = fs }) v
Represents-kept h fs v kept repr = record {
  sound =
      IsSound-after h (record h { frames = fs }) repr.sound refl refl
        (λ id f e. (f, sym (kept id) ∙ e));
  leads =
      Leads-agree (read_frame h) (read_frame (record h { frames = fs })) (some head) v none
        (λ id k. kept id) repr.leads;
  distinct = repr.distinct;
  tail_is = repr.tail_is;
  cells_in = repr.cells_in;
}

pub Outcome-kept :
    (h : HourFile) (fs : FrameId → Option Frame) (v : View) (entry : List ℕ) (p : ℕ)
    (r : Result HourError (Cell × HourFile))
    → Outcome (record h { frames = fs }) v entry p r
    → Outcome h v entry p r
Outcome-kept h fs v entry p (ok (at, h')) (w, put) = (
  w,
  record {
    represents = put.represents;
    flat_is = put.flat_is;
    entry_at = put.entry_at;
    used = put.used;
    unused = put.unused;
    same_len = put.same_len;
    same_rest = put.same_rest;
  },
)
Outcome-kept h fs v entry p (err e) o = o

module _ (varint : Varint) (entry : List ℕ) (some_bytes : 0 < length entry)
    (entry_fits : length entry ≤ frame_capacity) where
  -- The place is the end of a full frame: the entry goes to the next one, or into a new one.
  further-Outcome :
      (rounds : ℕ) (h : HourFile) (v1 v2 : View) (g : FrameId) (r : List ℕ) (i : ℕ)
      (repr : Represents h (v1 ++ ((g, r) ∷ v2))) (F : Frame) (reads : read_frame h g ≡ ok F)
      (fs : FrameId → Option Frame)
      → fs g ≡ some F
      → ((at : FrameId) → read_frame (record h { frames = fs }) at ≡ read_frame h at)
      → i ≡ length r
      → length v2 < suc rounds
      → ((w1 w2 : View) (k : FrameId) (s : List ℕ)
          → Represents (record h { frames = fs }) (w1 ++ ((k, s) ∷ w2))
          → length w2 < rounds
          → Outcome
              (record h { frames = fs })
              (w1 ++ ((k, s) ∷ w2))
              entry
              (length (flat w1) + 0)
              (insert_loop varint rounds (record h { frames = fs }) (at_place k 0) entry))
      → Outcome h (v1 ++ ((g, r) ∷ v2)) entry (length (flat v1) + i) (elim (next F) [
        | none ↦ append_frame (record h { frames = fs }) g entry
        | some id ↦
            insert_loop varint rounds
              (record h { frames = fs })
              (record { frame = id; offset = frame_header_len })
              entry
      ])
  further-Outcome rounds h v1 [] g r i repr F reads fs in_memory kept at_end enough later =
      let (mid, first, valid, holds, names, rest) = frame_of_chain h v1 [] g r repr F reads in
      let last : next F ≡ none = names ∙ rest in
      rw (last, at_end)
        (append_frame-Outcome h v1 g r repr F reads entry some_bytes entry_fits fs in_memory kept)
  further-Outcome rounds h v1 ((to, s) ∷ v3) g r i repr F reads fs in_memory kept at_end enough
        later =
      let (mid, first, valid, holds, names, rest) =
        frame_of_chain h v1 ((to, s) ∷ v3) g r repr F reads in
      let (mid2, e, f, rest2) = rest in
      let next_is : next F ≡ some to = names ∙ e in
      let joined : (v1 ++ ((g, r) ∷ [])) ++ ((to, s) ∷ v3) ≡ v1 ++ ((g, r) ∷ (to, s) ∷ v3) =
        append_assoc v1 ((g, r) ∷ []) ((to, s) ∷ v3) in
      let place_is : length (flat (v1 ++ ((g, r) ∷ []))) + 0 ≡ length (flat v1) + i = omega (
        arith,
        ap length (flat-append v1 ((g, r) ∷ [])),
        length-append (flat v1) (r ++ []),
        length-append r [],
        at_end,
      ) in
      rw next_is (
        Outcome-kept h fs (v1 ++ ((g, r) ∷ (to, s) ∷ v3)) entry (length (flat v1) + i)
          (insert_loop varint rounds (record h { frames = fs })
            (record { frame = to; offset = frame_header_len }) entry)
          (subst₂
            (λ v p.
              Outcome (record h { frames = fs }) v entry p
                (insert_loop varint rounds (record h { frames = fs })
                  (record { frame = to; offset = frame_header_len }) entry))
            joined place_is
            (later (v1 ++ ((g, r) ∷ [])) v3 to s
              (subst (Represents (record h { frames = fs })) (sym joined)
                (Represents-kept h fs (v1 ++ ((g, r) ∷ (to, s) ∷ v3)) kept repr))
              (omega arith))))

  pub insert_loop-Outcome :
      (rounds : ℕ) (h : HourFile) (v1 v2 : View) (g : FrameId) (r : List ℕ) (i : ℕ)
      → Represents h (v1 ++ ((g, r) ∷ v2))
      → i ≤ length r
      → length v2 < rounds
      → Outcome h
          (v1 ++ ((g, r) ∷ v2))
          entry
          (length (flat v1) + i)
          (insert_loop varint rounds h (at_place g i) entry)
  unfolding insert_loop
  insert_loop-Outcome zero h v1 v2 g r i repr inside enough = absurd (omega arith)
  insert_loop-Outcome (suc rounds) h v1 v2 g r i repr inside enough =
      let (mid, first, others) =
        Leads-split (read_frame h) (some head) none v1 ((g, r) ∷ v2) repr.leads in
      let (to, e, f, rest) = others in
      let F : Frame = f.frame in
      let (fs, eq, in_memory, kept, keep) = frame_lem h g F f.reads in
      let h1 : HourFile = record h { frames = fs } in
      rw eq (elim (Bool-cases (leb (length entry) (free F))) [
        | inl k ↦ rw k (
            insert_into_frame-Outcome h v1 v2 g r repr F f.reads i entry some_bytes inside
              (leb→le _ _ k) fs in_memory kept)
        | inr k ↦ elim (Bool-cases (ltb (frame_header_len + i) (records_end F))) [
          | inl j ↦
              rw (k, j)
                (halve_and_insert-Outcome varint h v1 g r i entry some_bytes entry_fits inside F
                  f.reads fs in_memory kept v2 repr)
          | inr j ↦
              rw (k, j)
                (further-Outcome rounds h v1 v2 g r i repr F f.reads fs in_memory kept
                  (unfold records_end in
                    omega (arith, ltb_false→le _ _ j, length-records f.valid, ap length f.holds))
                  enough
                  (λ w1 w2 k s repr' enough'.
                    insert_loop-Outcome rounds h1 w1 w2 k s 0 repr' (omega arith) enough'))
        ]
      ])
