-- ===== src/Storage/Frame/Links.antt =====
-- `Frame::set_next` of frame.rs: the link of a frame to the next one is read back as it was set, and
-- the entries of the frame are as they were.
use my_telemetry_server.Base.{
  ℕ, ◌%◌, ◌^◌, ◌<◌, ◌≡◌, refl, sym, ap, subst, ◌∙◌, arith, if◌then◌else◌, false, not, Bool-cases,
  inl, inr, Option, none, some, List, [], ◌∷◌, ◌++◌, append_assoc, length, take, drop, slice,
  splice, length-append, length-take, length-drop, take-append-drop, splice-append, slice-append,
  slice-append_left, drop-drop, length-splice, some_eq,
}
use my_telemetry_server.Base.Bytes.{
  from_le_bytes, to_le_bytes, length-to_le_bytes, from_le_bytes-to_le_bytes,
}
use my_telemetry_server.Storage.Frame.{
  Frame, FrameId, frame_len, head, same_frame, next, set_next, id_or_head, byte_at, records_end,
  used,
}
use my_telemetry_server.Storage.Frame.Layout.{Layout}
use my_telemetry_server.Storage.Frame.Records.{
  records, IsValid, Layout-of, records-Layout, used-Layout,
}

-- The nine bytes of the front, with the id in them.
abbrev front : List ℕ → FrameId → List ℕ
front hd id = take 4 hd ++ (((id.file % 256) ∷ []) ++ to_le_bytes 4 (id.offset % 2 ^ 32))

split_front : (hd : List ℕ) → hd ≡ take 4 hd ++ (take 1 (drop 4 hd) ++ drop 5 hd)
split_front hd =
    sym (take-append-drop 4 hd)
    ∙ ap (λ l. take 4 hd ++ l)
        (sym (take-append-drop 1 (drop 4 hd))
          ∙ ap (λ l. take 1 (drop 4 hd) ++ l) (drop-drop 1 4 hd))

set_next_bytes :
    (hd rest : List ℕ) (id : FrameId)
    → length hd ≡ 9
    → splice 5 (to_le_bytes 4 (id.offset % 2 ^ 32)) (splice 4 ((id.file % 256) ∷ []) (hd ++ rest))
      ≡ front hd id ++ rest
set_next_bytes hd rest id len =
    let a : List ℕ = take 4 hd in
    let b : List ℕ = take 1 (drop 4 hd) in
    let c : List ℕ = drop 5 hd in
    let file : List ℕ = (id.file % 256) ∷ [] in
    let offset : List ℕ = to_le_bytes 4 (id.offset % 2 ^ 32) in
    let a_len : length a ≡ 4 = omega (arith, length-take 4 hd) in
    let b_len : length b ≡ 1 = omega (arith, length-take 1 (drop 4 hd), length-drop 4 hd) in
    let c_len : length c ≡ 4 = omega (arith, length-drop 5 hd) in
    let apart : hd ++ rest ≡ a ++ (b ++ (c ++ rest)) =
      ap (λ l. l ++ rest) (split_front hd)
      ∙ append_assoc a (b ++ c) rest
      ∙ ap (λ l. a ++ l) (append_assoc b c rest) in
    let first : splice 4 file (hd ++ rest) ≡ a ++ (file ++ (c ++ rest)) =
      ap (splice 4 file) apart ∙ splice-append 4 file a b (c ++ rest) (sym a_len) (sym b_len) in
    let joined : a ++ (file ++ (c ++ rest)) ≡ (a ++ file) ++ (c ++ rest) =
      sym (append_assoc a file (c ++ rest)) in
    ap (splice 5 offset) (first ∙ joined)
    ∙ splice-append 5 offset (a ++ file) c rest (omega (arith, a_len, length-append a file))
        (length-to_le_bytes 4 (id.offset % 2 ^ 32) ∙ sym c_len)
    ∙ append_assoc a file (offset ++ rest)
    ∙ ap (λ l. a ++ l) (sym (append_assoc file offset rest))
    ∙ sym (append_assoc a (file ++ offset) rest)

front_len : (hd : List ℕ) (id : FrameId) → length hd ≡ 9 → length (front hd id) ≡ 9
front_len hd id len = omega (
  arith,
  length-append (take 4 hd) (((id.file % 256) ∷ []) ++ to_le_bytes 4 (id.offset % 2 ^ 32)),
  length-take 4 hd,
  length-to_le_bytes 4 (id.offset % 2 ^ 32),
)

set_next-Layout :
    {f : Frame} {hd u r z : List ℕ} (to : Option FrameId)
    → Layout f.bytes hd u r z
    → Layout (set_next f to).bytes (front hd (id_or_head to)) u r z
unfolding set_next
set_next-Layout {f} {hd} {u} {r} {z} to l = record {
  bytes_are =
      ap
        (λ b.
          splice 5 (to_le_bytes 4 ((id_or_head to).offset % 2 ^ 32))
            (splice 4 (((id_or_head to).file % 256) ∷ []) b))
        l.bytes_are
      ∙ set_next_bytes hd (u ++ (r ++ z)) (id_or_head to) l.hd_len;
  hd_len = front_len hd (id_or_head to) l.hd_len;
  u_len = l.u_len;
  used_is = l.used_is;
  room = l.room;
}

-- An id which the bytes of a frame can hold.
pub record IsLink (id : FrameId) : Type 0 where
  pub file : id.file < 256
  pub offset : id.offset < 2 ^ 32
  pub aligned : id.offset % frame_len ≡ 0

one_byte : (n : ℕ) → from_le_bytes (n ∷ []) ≡ n
unfolding from_le_bytes
one_byte n = omega arith

module _ (f : Frame) (v : IsValid f) (to : Option FrameId) where
  after_Layout :
      Layout
        (set_next f to).bytes
        (front (take 9 f.bytes) (id_or_head to))
        (slice 9 11 f.bytes)
        (records f)
        (drop (records_end f) f.bytes)
  after_Layout = set_next-Layout {f = f} to (Layout-of v)

  pub records-set_next : records (set_next f to) ≡ records f
  records-set_next = records-Layout {f = set_next f to} after_Layout

  rest_of : List ℕ
  rest_of = slice 9 11 f.bytes ++ (records f ++ drop (records_end f) f.bytes)

  -- The parts of the front of the frame.
  front_is :
      (set_next f to).bytes
      ≡ take 4 (take 9 f.bytes)
        ++ ((((id_or_head to).file % 256) ∷ [])
            ++ (to_le_bytes 4 ((id_or_head to).offset % 2 ^ 32) ++ rest_of))
  unfolding rest_of
  front_is =
      let file : List ℕ = ((id_or_head to).file % 256) ∷ [] in
      let offset : List ℕ = to_le_bytes 4 ((id_or_head to).offset % 2 ^ 32) in
      let rest : List ℕ = slice 9 11 f.bytes ++ (records f ++ drop (records_end f) f.bytes) in
      after_Layout.bytes_are
      ∙ append_assoc (take 4 (take 9 f.bytes)) (file ++ offset) rest
      ∙ ap (λ l. take 4 (take 9 f.bytes) ++ l) (append_assoc file offset rest)

  size_len : length (take 4 (take 9 f.bytes)) ≡ 4
  size_len = omega (arith, length-take 4 (take 9 f.bytes), length-take 9 f.bytes, v.len)

  file_byte : byte_at 4 (set_next f to).bytes ≡ (id_or_head to).file % 256
  unfolding byte_at
  file_byte =
      let file : List ℕ = ((id_or_head to).file % 256) ∷ [] in
      ap (λ l. from_le_bytes (slice 4 5 l)) front_is
      ∙ ap from_le_bytes (
          slice-append 4 5 (take 4 (take 9 f.bytes)) file
            (to_le_bytes 4 ((id_or_head to).offset % 2 ^ 32) ++ rest_of) (sym size_len)
            (omega (arith, size_len)))
      ∙ one_byte ((id_or_head to).file % 256)

  offset_bytes : from_le_bytes (slice 5 9 (set_next f to).bytes) ≡ (id_or_head to).offset % 2 ^ 32
  offset_bytes =
      let file : List ℕ = ((id_or_head to).file % 256) ∷ [] in
      let offset : List ℕ = to_le_bytes 4 ((id_or_head to).offset % 2 ^ 32) in
      let before : List ℕ = take 4 (take 9 f.bytes) ++ file in
      let before_len : length before ≡ 5 =
        omega (arith, size_len, length-append (take 4 (take 9 f.bytes)) file) in
      ap (λ l. from_le_bytes (slice 5 9 l))
        (front_is ∙ sym (append_assoc (take 4 (take 9 f.bytes)) file (offset ++ rest_of)))
      ∙ ap from_le_bytes (
          slice-append 5 9 before offset rest_of (sym before_len)
            (omega (arith, before_len, length-to_le_bytes 4 ((id_or_head to).offset % 2 ^ 32))))
      ∙ from_le_bytes-to_le_bytes 4 ((id_or_head to).offset % 2 ^ 32) (omega arith)

  size_same : slice 0 4 (set_next f to).bytes ≡ slice 0 4 f.bytes
  size_same =
      ap (slice 0 4) front_is
      ∙ slice-append_left 0 4 (take 4 (take 9 f.bytes)) _ (omega (arith, size_len))
      ∙ sym (
          ap (slice 0 4) (sym (take-append-drop 9 f.bytes))
          ∙ slice-append_left 0 4 (take 9 f.bytes) (drop 9 f.bytes)
              (omega (arith, length-take 9 f.bytes, v.len))
          ∙ ap (slice 0 4) (sym (take-append-drop 4 (take 9 f.bytes)))
          ∙ slice-append_left 0 4 (take 4 (take 9 f.bytes)) (drop 4 (take 9 f.bytes))
              (omega (arith, size_len)))

  set_next_len : length (set_next f to).bytes ≡ frame_len
  unfolding set_next
  set_next_len =
      let id : FrameId = id_or_head to in
      let first : List ℕ = splice 4 ((id.file % 256) ∷ []) f.bytes in
      let first_len : length first ≡ frame_len =
        length-splice 4 ((id.file % 256) ∷ []) f.bytes (omega (arith, v.len)) ∙ v.len in
      length-splice 5 (to_le_bytes 4 (id.offset % 2 ^ 32)) first
        (omega (arith, first_len, length-to_le_bytes 4 (id.offset % 2 ^ 32)))
      ∙ first_len

  pub used-set_next : used (set_next f to) ≡ used f
  used-set_next =
      used-Layout {f = set_next f to} after_Layout ∙ sym (used-Layout {f = f} (Layout-of v))

-- A link to a frame of a file is read back from a frame which reads, unless it is to the head of the
-- chain.
pub next-set_next :
    (f : Frame) (v : IsValid f) (id : FrameId)
    → IsLink id
    → same_frame id head ≡ false
    → next (set_next f (some id)) ≡ some id
unfolding next
next-set_next f v id link other =
    let file_is : byte_at 4 (set_next f (some id)).bytes ≡ id.file =
      (unfold id_or_head in (file_byte f v (some id) ∙ omega (arith, link.file))) in
    let offset_is : from_le_bytes (slice 5 9 (set_next f (some id)).bytes) ≡ id.offset =
      (unfold id_or_head in (offset_bytes f v (some id) ∙ omega (arith, link.offset))) in
    rw (file_is, offset_is, other) refl

-- Without a link the frame is the last one.
pub next-set_next-none : (f : Frame) (v : IsValid f) → next (set_next f none) ≡ none
unfolding next
next-set_next-none f v =
    let file_is : byte_at 4 (set_next f none).bytes ≡ 0 =
      (unfold id_or_head in file_byte f v none) in
    let offset_is : from_le_bytes (slice 5 9 (set_next f none).bytes) ≡ 0 =
      (unfold id_or_head in offset_bytes f v none) in
    rw (file_is, offset_is) (unfold same_frame in refl)

IsValid-of :
    (f : Frame) (v : IsValid f) (to : Option FrameId)
    → ((id : FrameId) → next (set_next f to) ≡ some id → id.offset % frame_len ≡ 0)
    → IsValid (set_next f to)
IsValid-of f v to aligned = record {
  len = set_next_len f v to;
  size = ap from_le_bytes (size_same f v to) ∙ v.size;
  fits = omega (arith, used-set_next f v to, v.fits);
  aligned = aligned;
}

-- A frame which is linked, or made the last one, is valid, and holds the entries it held.
pub set_next-IsValid :
    (f : Frame) (id : FrameId)
    → IsValid f
    → IsLink id
    → same_frame id head ≡ false
    → IsValid (set_next f (some id))
set_next-IsValid f id v link other =
    IsValid-of f v (some id)
      (λ at e. rw (some_eq (sym e ∙ next-set_next f v id link other)) link.aligned)

pub set_next-none-IsValid : (f : Frame) → IsValid f → IsValid (set_next f none)
set_next-none-IsValid f v =
    IsValid-of f v none (λ at e. absurd (ground (arith, e, next-set_next-none f v)))

chosen_not-head :
    (at id : FrameId)
    → (if not (same_frame at head) then some at else none) ≡ some id
    → same_frame id head ≡ false
chosen_not-head at id e = elim (Bool-cases (same_frame at head)) [
  | inl k ↦ absurd (ground (arith, e, k))
  | inr k ↦
      let chosen : some at ≡ some id = rw k at e in
      subst (λ x. same_frame x head ≡ false) (some_eq chosen) k
]

-- A frame never names the first one as the next.
pub next_not_head : (f : Frame) (id : FrameId) → next f ≡ some id → same_frame id head ≡ false
unfolding next
next_not_head f id e =
    chosen_not-head
      (record { file = byte_at 4 f.bytes; offset = from_le_bytes (slice 5 9 f.bytes) }) id e

-- A frame which is linked as another one was is as valid as that one.
pub relinked :
    (f : Frame) (to : Option FrameId)
    → IsValid f
    → ((id : FrameId) → to ≡ some id → IsLink id × (same_frame id head ≡ false))
    → IsValid (set_next f to) × (records (set_next f to) ≡ records f) × (next (set_next f to) ≡ to)
relinked f none v links =
    (set_next-none-IsValid f v, records-set_next f v none, next-set_next-none f v)
relinked f (some id) v links =
    let (link, other) = links id refl in
    (
      set_next-IsValid f id v link other,
      records-set_next f v (some id),
      next-set_next f v id link other,
    )
