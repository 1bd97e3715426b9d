-- ===== src/Storage/HourFile/Grow.antt =====
-- A chain which a new frame goes into: after a frame of it, whose entries are other ones then.
use my_telemetry_server.Base.{
  ℕ, ◌≤◌, ◌≡◌, refl, sym, ap, subst, ◌∙◌, arith, if◌then◌else◌, true, false, none, some, List, [],
  ◌∷◌, ◌++◌, length, Bool-cases, inl, inr, append-nil, some_eq,
}
use my_telemetry_server.Base.Result.{ok}
use my_telemetry_server.Storage.Frame.{
  Frame, FrameId, same_frame, head, frame_capacity, free, next, insert, new,
}
use my_telemetry_server.Storage.Frame.Records.{
  records, IsValid, records-insert, length-records, new-IsValid,
}
use my_telemetry_server.Storage.HourFile.{HourFile, read_frame, put_frame}
use my_telemetry_server.Storage.HourFile.View.{
  View, has_frame, same_frame→eq, same_frame_refl, same_frame_sym, has_frame_self,
}
use my_telemetry_server.Storage.HourFile.Chain.{
  Reads, Leads, Leads-agree, Leads-append, Distinct, Distinct-right, Distinct-replace,
  apart_of_Distinct, has_frame-append,
}
use my_telemetry_server.Storage.HourFile.State.{read_frame-put_frame}
use my_telemetry_server.Storage.HourFile.Puts.{Represents, last_id}
use my_telemetry_server.Storage.HourFile.PutHere.{apart_of_frame, apart_of_rest, frame_of_chain}

-- A new frame with the bytes in it.
pub filled :
    (entry : List ℕ)
    → length entry ≤ frame_capacity
    → (N : Frame) × (insert new 11 entry ≡ some N)
      × (records N ≡ entry)
      × (next N ≡ none)
      × IsValid N
filled entry fits =
    let (valid, holds, last) = new-IsValid in
    let (N, eq, recs, used', next', valid') =
      records-insert new 0 valid (omega arith) entry
        (unfold free in omega (arith, length-records valid, ap length holds)) in
    (N, eq, recs ∙ ap (λ l. entry ++ l) holds ∙ rw append-nil refl, next' ∙ last, valid')

-- What reads once two frames were put in memory.
pub read_frame-put_two :
    (h : HourFile) (a b : FrameId) (A B : Frame) (at : FrameId)
    → read_frame (put_frame (put_frame h a A) b B) at
      ≡ (if same_frame at b then ok B else if same_frame at a then ok A else read_frame h at)
read_frame-put_two h a b A B at =
    read_frame-put_frame (put_frame h a A) b B at
    ∙ ap (λ r. if same_frame at b then ok B else r) (read_frame-put_frame h a A at)

pub has_frame_last :
    (v1 v2 : View) (g : FrameId) (r : List ℕ) → has_frame (v1 ++ ((g, r) ∷ v2)) g ≡ true
unfolding has_frame
has_frame_last [] v2 g r = has_frame_self g r v2
has_frame_last ((k, s) ∷ v1) v2 g r = ground (arith, has_frame_last v1 v2 g r)

pub absent_front :
    (v w : View) (id : FrameId) → has_frame (v ++ w) id ≡ false → has_frame v id ≡ false
absent_front v w id h = ground (arith, has_frame-append v w id, h)

pub Distinct-grow :
    (v1 v2 : View) (g to : FrameId) (r s t : List ℕ)
    → Distinct (v1 ++ ((g, r) ∷ v2))
    → has_frame (v1 ++ ((g, r) ∷ v2)) to ≡ false
    → Distinct (v1 ++ ((g, s) ∷ (to, t) ∷ v2))
unfolding has_frame
Distinct-grow v1 v2 g to r s t d absent =
    let (g_absent, rest) = Distinct-right v1 ((g, r) ∷ v2) d in
    Distinct-replace v1 ((g, r) ∷ v2) ((g, s) ∷ (to, t) ∷ v2) d
      (
        ground (arith, has_frame-append v1 ((g, r) ∷ v2) to, absent, g_absent, same_frame_sym g to),
        (ground (arith, has_frame-append v1 ((g, r) ∷ v2) to, absent), rest),
      )
      (λ id k. elim (Bool-cases (same_frame to id)) [
        | inl e ↦ absurd (
            ground (
              arith,
              has_frame-append v1 ((g, r) ∷ v2) to,
              absent,
              ap (has_frame v1) (same_frame→eq to id e),
              k,
            ))
        | inr e ↦ ground (arith, apart_of_Distinct v1 ((g, r) ∷ v2) id d k, e)
      ])

-- The first frame is of the chain, so a frame apart from those of the chain is another one.
head_in : (read : Reads) (v : View) → Leads read (some head) v none → has_frame v head ≡ true
unfolding has_frame
head_in read [] l = absurd (ground (arith, l))
head_in read ((g, r) ∷ v) (mid, e, f, l) =
    let same : head ≡ g = some_eq e in
    subst (λ k. has_frame ((g, r) ∷ v) k ≡ true) (sym same) (has_frame_self g r v)

pub not_head :
    (h : HourFile) (v : View) (to : FrameId)
    → Leads (read_frame h) (some head) v none
    → ((id : FrameId) → has_frame v id ≡ true → same_frame id to ≡ false)
    → same_frame to head ≡ false
not_head h v to leads apart = same_frame_sym to head ∙ apart head (head_in (read_frame h) v leads)

pub last_id-grow_end :
    (v1 : View) (g to : FrameId) (r t : List ℕ) → last_id (v1 ++ ((g, r) ∷ (to, t) ∷ [])) ≡ some to
last_id-grow_end [] g to r t = refl
last_id-grow_end (e ∷ []) g to r t = refl
last_id-grow_end (e ∷ k ∷ v1) g to r t = last_id-grow_end (k ∷ v1) g to r t

pub last_id-grow :
    (v1 v2 : View) (g to n : FrameId) (r s t u : List ℕ)
    → last_id (v1 ++ ((g, s) ∷ (to, t) ∷ (n, u) ∷ v2)) ≡ last_id (v1 ++ ((g, r) ∷ (n, u) ∷ v2))
last_id-grow [] v2 g to n r s t u = refl
last_id-grow (e ∷ []) v2 g to n r s t u = refl
last_id-grow (e ∷ k ∷ v1) v2 g to n r s t u = last_id-grow (k ∷ v1) v2 g to n r s t u

pub Leads-grow :
    (h : HourFile) (v1 v2 : View) (g : FrameId) (r : List ℕ)
    (repr : Represents h (v1 ++ ((g, r) ∷ v2))) (F : Frame) (reads : read_frame h g ≡ ok F)
    (to : FrameId)
    → ((id : FrameId) → has_frame (v1 ++ ((g, r) ∷ v2)) id ≡ true → same_frame id to ≡ false)
    → (read' : Reads) (G N : Frame) (s t : List ℕ)
    → ((at : FrameId)
        → read' at
          ≡ (if same_frame at g then ok G else if same_frame at to then ok N else read_frame h at))
    → IsValid G
    → records G ≡ s
    → next G ≡ some to
    → IsValid N
    → records N ≡ t
    → next N ≡ next F
    → Leads read' (some head) (v1 ++ ((g, s) ∷ (to, t) ∷ v2)) none
Leads-grow h v1 v2 g r repr F reads to apart read' G N s t reads' G_valid G_holds G_next N_valid
      N_holds N_next =
    let (mid, first, valid, holds, names, rest) = frame_of_chain h v1 v2 g r repr F reads in
    Leads-append read' (some head) (some g) none v1 ((g, s) ∷ (to, t) ∷ v2)
      (Leads-agree (read_frame h) read' (some head) v1 (some g)
        (λ id k.
          reads' id
          ∙ rw (apart_of_frame v1 v2 g id r repr.distinct k, apart id (in_front id k)) refl)
        first)
      (
        some to,
        refl,
        record {
          frame = G;
          reads = reads' g ∙ rw (same_frame_refl g) refl;
          valid = G_valid;
          holds = G_holds;
          names = G_next;
        },
        (
          mid,
          refl,
          record {
            frame = N;
            reads =
                reads' to
                ∙ rw (same_frame_sym to g ∙ apart g (has_frame_last v1 v2 g r), same_frame_refl to)
                    refl;
            valid = N_valid;
            holds = N_holds;
            names = N_next ∙ names;
          },
          Leads-agree (read_frame h) read' mid v2 none
              (λ id k.
                reads' id
                ∙ rw (apart_of_rest v1 v2 g id r repr.distinct k, apart id (behind id k)) refl)
              rest,
        ),
      )
  where
    in_front : (id : FrameId) → has_frame v1 id ≡ true → has_frame (v1 ++ ((g, r) ∷ v2)) id ≡ true
    in_front id k = has_frame-append v1 ((g, r) ∷ v2) id ∙ rw k refl

    behind : (id : FrameId) → has_frame v2 id ≡ true → has_frame (v1 ++ ((g, r) ∷ v2)) id ≡ true
    behind id k = unfold has_frame in ground (arith, has_frame-append v1 ((g, r) ∷ v2) id, k)
