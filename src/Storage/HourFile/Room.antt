-- ===== src/Storage/HourFile/Room.antt =====
-- A chain of distinct frames is no longer than the data files of the hour have frames, so the rounds
-- of `insert_at` in hour_file.rs are enough.
use my_telemetry_server.Base.{
  ℕ, zero, suc, ◌+◌, ◌*◌, ◌/◌, ◌%◌, ◌≤◌, ◌<◌, ◌≡◌, refl, sym, ap, ◌∙◌, arith, ◌==◌, if◌then◌else◌,
  Bool, true, false, none, some, List, [], ◌∷◌, length, get_elem?, Bool-cases, inl, inr,
}
use my_telemetry_server.Storage.Frame.{FrameId, frame_len, same_frame}
use my_telemetry_server.Storage.HourFile.{
  HourFile, DataFile, read_frame, count_frames, frames_count,
}
use my_telemetry_server.Storage.HourFile.View.{View, has_frame, has_frame_self, has_frame_more}
use my_telemetry_server.Storage.HourFile.Chain.{Distinct, reads_of_Leads}
use my_telemetry_server.Storage.HourFile.State.{Counted}
use my_telemetry_server.Storage.HourFile.Puts.{Represents}

occurs : ℕ → List ℕ → Bool
occurs x [] = false
occurs x (y ∷ ys) = if y == x then true else occurs x ys

abbrev AllApart : List ℕ → Type 0
AllApart [] = Unit {0}
AllApart (x ∷ xs) = (occurs x xs ≡ false) × AllApart xs

without : ℕ → List ℕ → List ℕ
without x [] = []
without x (y ∷ ys) = if y == x then ys else y ∷ without x ys

length-without : (x : ℕ) (ys : List ℕ) → length ys ≤ suc (length (without x ys))
unfolding without
length-without x [] = omega arith
length-without x (y ∷ ys) = ground (arith, length-without x ys)

occurs-without : (x z : ℕ) (ys : List ℕ) → occurs z ys ≡ false → occurs z (without x ys) ≡ false
unfolding without occurs
occurs-without x z [] e = refl
occurs-without x z (y ∷ ys) e = ground (arith, occurs-without x z ys, e)

without-AllApart : (x : ℕ) (ys : List ℕ) → AllApart ys → AllApart (without x ys)
unfolding without
without-AllApart x [] a = tt
without-AllApart x (y ∷ ys) (a, as') = elim (Bool-cases (y == x)) [
  | inl e ↦ rw e as'
  | inr e ↦ rw e (occurs-without x y ys a, without-AllApart x ys as')
]

occurs-without_self : (x : ℕ) (ys : List ℕ) → AllApart ys → occurs x (without x ys) ≡ false
unfolding without occurs
occurs-without_self x [] a = refl
occurs-without_self x (y ∷ ys) (a, as') = elim (Bool-cases (y == x)) [
  | inl e ↦ let same : y ≡ x = ground (arith, e) in rw e (ap (λ z. occurs z ys) (sym same) ∙ a)
  | inr e ↦ rw (e, e) (occurs-without_self x ys as')
]

-- There are `n` numbers below `n`.
length-AllApart :
    (n : ℕ) (xs : List ℕ) → AllApart xs → ((x : ℕ) → n ≤ x → occurs x xs ≡ false) → length xs ≤ n
unfolding occurs
length-AllApart zero [] apart small = omega arith
length-AllApart zero (x ∷ xs) apart small = absurd (ground (arith, small x (omega arith)))
length-AllApart (suc n) xs apart small =
    let rest : length (without n xs) ≤ n =
      length-AllApart n (without n xs) (without-AllApart n xs apart) (λ x le.
        elim (Bool-cases (x == n)) [
          | inl e ↦
              let same : x ≡ n = ground (arith, e) in
              ap (λ z. occurs z (without n xs)) same ∙ occurs-without_self n xs apart
          | inr e ↦ occurs-without n x xs (small x (ground (arith, e, le)))
        ]) in
    omega (arith, length-without n xs, rest)

-- The number of a frame among those of all the files.
slot : List DataFile → ℕ → ℕ → ℕ
slot [] k offset = 0
slot (d ∷ ds) zero offset = offset / frame_len
slot (d ∷ ds) (suc k) offset = d.frames_count + slot ds k offset

first_bound :
    (c d : DataFile) (offset : ℕ)
    → some c ≡ some d
    → offset < d.frames_count * frame_len
    → offset / frame_len < c.frames_count
first_bound c d offset e lt = ground (arith, e, lt)

slot-bound :
    (ds : List DataFile) (k offset : ℕ) (d : DataFile)
    → get_elem? ds k ≡ some d
    → offset < d.frames_count * frame_len
    → slot ds k offset < count_frames ds
unfolding slot count_frames
slot-bound [] k offset d e lt = absurd (ground (arith, e))
slot-bound (c ∷ ds) zero offset d e lt = omega (arith, first_bound c d offset e lt)
slot-bound (c ∷ ds) (suc k) offset d e lt = omega (arith, slot-bound ds k offset d e lt)

slot_injective :
    (ds : List DataFile) (k offset j offset' : ℕ) (d e : DataFile)
    → get_elem? ds k ≡ some d
    → offset < d.frames_count * frame_len
    → offset % frame_len ≡ 0
    → get_elem? ds j ≡ some e
    → offset' < e.frames_count * frame_len
    → offset' % frame_len ≡ 0
    → slot ds k offset ≡ slot ds j offset'
    → (k ≡ j) × (offset ≡ offset')
unfolding slot
slot_injective [] k offset j offset' d e found lt aligned found' lt' aligned' same =
    absurd (ground (arith, found))
slot_injective (c ∷ ds) zero offset zero offset' d e found lt aligned found' lt' aligned' same =
    (refl, omega (arith, same, aligned, aligned'))
slot_injective (c ∷ ds) zero offset (suc j) offset' d e found lt aligned found' lt' aligned' same =
    absurd (omega (arith, same, first_bound c d offset found lt))
slot_injective (c ∷ ds) (suc k) offset zero offset' d e found lt aligned found' lt' aligned' same =
    absurd (omega (arith, same, first_bound c e offset' found' lt'))
slot_injective (c ∷ ds) (suc k) offset (suc j) offset' d e found lt aligned found' lt' aligned'
      same =
    let (a, b) =
      slot_injective ds k offset j offset' d e found lt aligned found' lt' aligned'
        (omega (arith, same)) in
    (ap suc a, b)

slot_of : List DataFile → FrameId → ℕ
slot_of ds id = slot ds id.file id.offset

slots : List DataFile → View → List ℕ
slots ds [] = []
slots ds ((g, r) ∷ v) = slot_of ds g ∷ slots ds v

abbrev AllCounted : List DataFile → View → Type 0
AllCounted ds v = (id : FrameId) → has_frame v id ≡ true → Counted ds id

same_slot :
    (ds : List DataFile) (a b : FrameId)
    → Counted ds a
    → Counted ds b
    → slot_of ds a ≡ slot_of ds b
    → same_frame a b ≡ true
unfolding slot_of same_frame
same_slot ds a b (d, found, lt, aligned) (e, found', lt', aligned') same =
    let (k, o) =
      slot_injective ds a.file a.offset b.file b.offset d e found lt aligned found' lt' aligned'
        same in
    ground (arith, k, o)

later_AllCounted :
    (ds : List DataFile) (g : FrameId) (r : List ℕ) (v : View)
    → AllCounted ds ((g, r) ∷ v)
    → AllCounted ds v
later_AllCounted ds g r v all id h = all id (has_frame_more id g r v h)

occurs-slots :
    (ds : List DataFile) (id : FrameId) (v : View)
    → Counted ds id
    → AllCounted ds v
    → has_frame v id ≡ false
    → occurs (slot_of ds id) (slots ds v) ≡ false
unfolding occurs slots has_frame
occurs-slots ds id [] counted all absent = refl
occurs-slots ds id ((g, r) ∷ v) counted all absent =
    elim (Bool-cases (slot_of ds g == slot_of ds id)) [
      | inl e ↦
          let same : same_frame g id ≡ true =
            same_slot ds g id (all g (has_frame_self g r v)) counted (ground (arith, e)) in
          absurd (ground (arith, same, absent))
      | inr e ↦
          rw e
            (occurs-slots ds id v counted (later_AllCounted ds g r v all) (ground (arith, absent)))
    ]

slots-AllApart :
    (ds : List DataFile) (v : View) → AllCounted ds v → Distinct v → AllApart (slots ds v)
unfolding slots
slots-AllApart ds [] all d = tt
slots-AllApart ds ((g, r) ∷ v) all (d, rest) = (
  occurs-slots ds g v (all g (has_frame_self g r v)) (later_AllCounted ds g r v all) d,
  slots-AllApart ds v (later_AllCounted ds g r v all) rest,
)

slot_of-bound :
    (ds : List DataFile) (id : FrameId) → Counted ds id → slot_of ds id < count_frames ds
unfolding slot_of
slot_of-bound ds id (d, found, lt, aligned) = slot-bound ds id.file id.offset d found lt

slots-bound :
    (ds : List DataFile) (v : View) (x : ℕ)
    → AllCounted ds v
    → count_frames ds ≤ x
    → occurs x (slots ds v) ≡ false
unfolding occurs slots
slots-bound ds [] x all le = refl
slots-bound ds ((g, r) ∷ v) x all le = ground (
  arith,
  slot_of-bound ds g (all g (has_frame_self g r v)),
  slots-bound ds v x (later_AllCounted ds g r v all) le,
  le,
)

length-slots : (ds : List DataFile) (v : View) → length (slots ds v) ≡ length v
unfolding slots
length-slots ds [] = refl
length-slots ds ((g, r) ∷ v) = ap suc (length-slots ds v)

pub length-Represents : (h : HourFile) (v : View) → Represents h v → length v ≤ frames_count h
unfolding frames_count
length-Represents h v repr =
    let all : AllCounted h.data_files v = λ id has.
      let (f, reads) = reads_of_Leads (read_frame h) (some _) v none id repr.leads has in
      repr.sound.known id f reads in
    omega (
      arith,
      length-AllApart (count_frames h.data_files) (slots h.data_files v)
          (slots-AllApart h.data_files v all repr.distinct)
          (λ x le. slots-bound h.data_files v x all le),
      length-slots h.data_files v,
    )
