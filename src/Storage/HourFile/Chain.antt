-- ===== src/Storage/HourFile/Chain.antt =====
-- The frames of an hour as a chain: each one names the next, and none comes twice.
use my_telemetry_server.Base.{
  ℕ, ◌+◌, ◌-◌, ◌≡◌, ◌≢◌, refl, sym, ap, subst, ◌∙◌, arith, if◌then◌else◌, true, false, Option, some,
  List, [], ◌∷◌, ◌++◌, length, Bool-cases, inl, inr, length-append,
}
use my_telemetry_server.Base.Result.{Result, ok}
use my_telemetry_server.Storage.Frame.{Frame, FrameId, same_frame, next}
use my_telemetry_server.Storage.Frame.Records.{records, IsValid}
use my_telemetry_server.Storage.Cells.{Cell}
use my_telemetry_server.Storage.HourFile.{HourError}
use my_telemetry_server.Storage.HourFile.View.{
  View, flat, place_of, is_inside, has_frame, has_frame_self, has_frame_more, Inserted,
  Inserted-cons, same_frame→eq, apart_of_inside, inside_later, place_later,
}

-- How frames are read.
abbrev pub Reads : Type 0
Reads = FrameId → Result HourError Frame

-- The frame reads, holds the bytes `r` and names `to`.
pub record IsFrame (read : Reads) (id : FrameId) (r : List ℕ) (to : Option FrameId) : Type 0 where
  pub frame : Frame
  pub reads : read id ≡ ok frame
  pub valid : IsValid frame
  pub holds : records frame ≡ r
  pub names : next frame ≡ to

-- From `from` the frames of the view lead to `to`.
abbrev pub Leads : Reads → Option FrameId → View → Option FrameId → Type 0
Leads read from [] to = from ≡ to
Leads read from ((g, r) ∷ v) to =
    (mid : Option FrameId) × (from ≡ some g) × IsFrame read g r mid × Leads read mid v to

abbrev pub Distinct : View → Type 0
Distinct [] = Unit {0}
Distinct ((g, r) ∷ v) = (has_frame v g ≡ false) × Distinct v

-- What a frame of the view reads as is all that matters.
pub Leads-agree :
    (read read' : Reads) (from : Option FrameId) (v : View) (to : Option FrameId)
    → ((id : FrameId) → has_frame v id ≡ true → read' id ≡ read id)
    → Leads read from v to
    → Leads read' from v to
unfolding has_frame
Leads-agree read read' from [] to same l = l
Leads-agree read read' from ((g, r) ∷ v) to same (mid, e, f, l) = (
  mid,
  e,
  record {
    frame = f.frame;
    reads = same g (has_frame_self g r v) ∙ f.reads;
    valid = f.valid;
    holds = f.holds;
    names = f.names;
  },
  Leads-agree read read' mid v to (λ id h. same id (has_frame_more id g r v h)) l,
)

-- Every frame of a chain reads.
pub reads_of_Leads :
    (read : Reads) (from : Option FrameId) (v : View) (to : Option FrameId) (id : FrameId)
    → Leads read from v to
    → has_frame v id ≡ true
    → (f : Frame) × (read id ≡ ok f)
unfolding has_frame
reads_of_Leads read from [] to id l h = absurd (ground (arith, h))
reads_of_Leads read from ((g, r) ∷ v) to id (mid, e, f, l) h = elim (Bool-cases (same_frame g id)) [
  | inl k ↦ (f.frame, ap read (sym (same_frame→eq g id k)) ∙ f.reads)
  | inr k ↦ reads_of_Leads read mid v to id l (ground (arith, h, k))
]

-- No frame of a chain is one which does not read.
pub apart_of_fresh :
    (read : Reads) (from : Option FrameId) (v : View) (to : Option FrameId) (id fresh : FrameId)
    → Leads read from v to
    → ((f : Frame) → read fresh ≢ ok f)
    → has_frame v id ≡ true
    → same_frame id fresh ≡ false
apart_of_fresh read from v to id fresh l none_reads h = elim (Bool-cases (same_frame id fresh)) [
  | inl k ↦
      let (f, reads) = reads_of_Leads read from v to id l h in
      absurd (none_reads f (ap read (sym (same_frame→eq id fresh k)) ∙ reads))
  | inr k ↦ k
]

pub fresh_absent :
    (read : Reads) (from : Option FrameId) (v : View) (to : Option FrameId) (fresh : FrameId)
    → Leads read from v to
    → ((f : Frame) → read fresh ≢ ok f)
    → has_frame v fresh ≡ false
fresh_absent read from v to fresh l none_reads = elim (Bool-cases (has_frame v fresh)) [
  | inl h ↦ let (f, reads) = reads_of_Leads read from v to fresh l h in absurd (none_reads f reads)
  | inr h ↦ h
]

pub Leads-append :
    (read : Reads) (from mid to : Option FrameId) (v w : View)
    → Leads read from v mid
    → Leads read mid w to
    → Leads read from (v ++ w) to
Leads-append read from mid to [] w e l = rw e l
Leads-append read from mid to ((g, r) ∷ v) w (m, e, f, l) k =
    (m, e, f, Leads-append read m mid to v w l k)

pub Leads-split :
    (read : Reads) (from to : Option FrameId) (v w : View)
    → Leads read from (v ++ w) to
    → (mid : Option FrameId) × Leads read from v mid × Leads read mid w to
Leads-split read from to [] w l = (from, refl, l)
Leads-split read from to ((g, r) ∷ v) w (m, e, f, l) =
    let (mid, first, rest) = Leads-split read m to v w l in (mid, (m, e, f, first), rest)

pub has_frame-append :
    (v w : View) (id : FrameId)
    → has_frame (v ++ w) id ≡ (if has_frame v id then true else has_frame w id)
unfolding has_frame
has_frame-append [] w id = refl
has_frame-append ((g, r) ∷ v) w id = ground (arith, has_frame-append v w id)

-- The frames of one part of a view are not in the other.
pub apart_of_Distinct :
    (v w : View) (id : FrameId) → Distinct (v ++ w) → has_frame v id ≡ true → has_frame w id ≡ false
unfolding has_frame
apart_of_Distinct [] w id d h = absurd (ground (arith, h))
apart_of_Distinct ((g, r) ∷ v) w id (d, ds) h = elim (Bool-cases (same_frame g id)) [
  | inl e ↦ ground (arith, has_frame-append v w g, ap (has_frame w) (same_frame→eq g id e), d)
  | inr e ↦ apart_of_Distinct v w id ds (ground (arith, e, h))
]

pub Distinct-right : (v w : View) → Distinct (v ++ w) → Distinct w
Distinct-right [] w d = d
Distinct-right ((g, r) ∷ v) w (d, ds) = Distinct-right v w ds

pub Distinct-replace :
    (v w x : View)
    → Distinct (v ++ w)
    → Distinct x
    → ((id : FrameId) → has_frame v id ≡ true → has_frame x id ≡ false)
    → Distinct (v ++ x)
unfolding has_frame
Distinct-replace [] w x d dx h = dx
Distinct-replace ((g, r) ∷ v) w x (d, ds) dx h = (
  ground (arith, has_frame-append v w g, has_frame-append v x g, d, h g (has_frame_self g r v)),
  Distinct-replace v w x ds dx (λ id k. h id (has_frame_more id g r v k)),
)

-- The entry of `n` bytes is at the place `p` of the bytes, whole in its frame.
pub record EntryAt (w : View) (c : Cell) (p n : ℕ) : Type 0 where
  pub inside : is_inside w c.frame c.offset ≡ true
  pub last_inside : is_inside w c.frame (c.offset + n - 1) ≡ true
  pub place_is : place_of w c.frame c.offset ≡ p

pub EntryAt-append :
    (v w : View) (c : Cell) (p n : ℕ)
    → has_frame v c.frame ≡ false
    → EntryAt w c p n
    → EntryAt (v ++ w) c (length (flat v) + p) n
unfolding has_frame
EntryAt-append [] w c p n h e = record {
  inside = e.inside;
  last_inside = e.last_inside;
  place_is = e.place_is ∙ omega arith;
}
EntryAt-append ((g, r) ∷ v) w c p n h e =
    let apart : same_frame g c.frame ≡ false = ground (arith, h) in
    let more : EntryAt (v ++ w) c (length (flat v) + p) n =
      EntryAt-append v w c p n (ground (arith, h)) e in
    record {
      inside = inside_later g c.frame r (v ++ w) c.offset apart ∙ more.inside;
      last_inside = inside_later g c.frame r (v ++ w) (c.offset + n - 1) apart ∙ more.last_inside;
      place_is =
          place_later g c.frame r (v ++ w) c.offset apart
          ∙ omega (arith, more.place_is, length-append r (flat v));
    }

-- An edit of the end of a chain is an edit of the chain.
pub Inserted-append :
    (v : View) {w x : View} {entry : List ℕ} {p : ℕ} (m : Cell → Cell)
    → ((c : Cell) → has_frame w c.frame ≡ false → m c ≡ c)
    → Distinct (v ++ w)
    → Distinct (v ++ x)
    → Inserted w entry p m x
    → Inserted (v ++ w) entry (length (flat v) + p) m (v ++ x)
unfolding has_frame
Inserted-append [] {w} {x} {entry} {p} m stays dw dx i =
    subst (λ k. Inserted w entry k m x) (omega arith) i
Inserted-append ((g, r) ∷ v) {w} {x} {entry} {p} m stays (dw, dws) (dx, dxs) i =
    let more : Inserted (v ++ w) entry (length (flat v) + p) m (v ++ x) =
      Inserted-append v m stays dws dxs i in
    subst (λ k. Inserted ((g, r) ∷ (v ++ w)) entry k m ((g, r) ∷ (v ++ x)))
      (omega (arith, length-append r (flat v)))
      (Inserted-cons g r
        (λ c e. stays c (
          ground (arith, ap (has_frame w) (same_frame→eq g c.frame e), has_frame-append v w g, dw)))
        (λ c e h. apart_of_inside (v ++ x) g (m c).frame (m c).offset dx (more.cells_are c h).0)
        more)
