-- ===== src/Storage/Frame/Records.antt =====
-- A frame as its client sees it: the bytes of its entries, the frame after it, and whether it is
-- one that `from_bytes` reads.
use my_telemetry_server.Base.{
  ℕ, ◌+◌, ◌%◌, ◌≤◌, ◌≡◌, refl, sym, ap, ◌∙◌, arith, drop-drop, some, none, Option, subst, List, [],
  ◌++◌, append_assoc, length, take, drop, replicate, slice, splice, length-append, length-take,
  length-drop, length-replicate, take-append-drop, length-splice, slice-append, slice-append_left,
}
use mathlib.Core.Path.{subst₂}
use mathlib.Core.Logic.{◌↔◌}
use my_telemetry_server.Base.Result.{ok}
use my_telemetry_server.Base.Bytes.{from_le_bytes, to_le_bytes, length-to_le_bytes}
use my_telemetry_server.Storage.Frame.{
  frame_len, frame_capacity, Frame, FrameId, used, used_in, records_end, free, insert, remove,
  split_off, next, new, from_bytes, byte_at, chained,
}
use my_telemetry_server.Storage.Frame.Layout.{Layout, Layout-exists, used_in-Layout}
use my_telemetry_server.Storage.Frame.Edits.{insert-Layout, remove-Layout, split_off-Layout}

-- The bytes of the entries of the frame.
unfoldable pub records : Frame → List ℕ
records f = slice 11 (records_end f) f.bytes

pub record IsValid (f : Frame) : Type 0 where
  pub len : length f.bytes ≡ frame_len
  pub size : from_le_bytes (slice 0 4 f.bytes) ≡ frame_len
  pub fits : used f ≤ frame_capacity
  pub aligned : (id : FrameId) → next f ≡ some id → id.offset % frame_len ≡ 0

pub Layout-of :
    {f : Frame}
    → IsValid f
    → Layout f.bytes
        (take 9 f.bytes)
        (slice 9 11 f.bytes)
        (records f)
        (drop (records_end f) f.bytes)
unfolding records
Layout-of {f} v = Layout-exists f v.len v.fits

-- What a layout of a frame says of it.
pub records-Layout : {f : Frame} {hd u r z : List ℕ} → Layout f.bytes hd u r z → records f ≡ r
unfolding records records_end used
records-Layout {f} {hd} {u} {r} {z} l =
    ap (slice 11 (11 + used_in f.bytes)) (l.bytes_are ∙ sym (append_assoc hd u (r ++ z)))
    ∙ slice-append 11 (11 + used_in f.bytes) (hd ++ u) r z lens
        (omega (arith, lens, used_in-Layout l))
  where
    lens : 11 ≡ length (hd ++ u)
    lens = omega (arith, l.hd_len, l.u_len, length-append hd u)

pub used-Layout : {f : Frame} {hd u r z : List ℕ} → Layout f.bytes hd u r z → used f ≡ length r
unfolding used
used-Layout l = used_in-Layout l

pub length-records : {f : Frame} → IsValid f → length (records f) ≡ used f
length-records {f} v = sym (used-Layout (Layout-of v))

-- `next` and the size are read from the nine bytes before the rest.
front_slice :
    (from to : ℕ) {b b' hd u u' r r' z z' : List ℕ}
    → to ≤ 9
    → Layout b hd u r z
    → Layout b' hd u' r' z'
    → slice from to b' ≡ slice from to b
front_slice from to {hd = hd} h l l' =
    ap (slice from to) l'.bytes_are
    ∙ slice-append_left from to hd _ (omega (arith, l'.hd_len))
    ∙ sym (slice-append_left from to hd _ (omega (arith, l.hd_len)))
    ∙ sym (ap (slice from to) l.bytes_are)

next-Layout :
    {f f' : Frame} {hd u u' r r' z z' : List ℕ}
    → Layout f.bytes hd u r z
    → Layout f'.bytes hd u' r' z'
    → next f' ≡ next f
unfolding next byte_at
next-Layout {f} {f'} l l' =
    rw (front_slice 4 5 (omega arith) l l', front_slice 5 9 (omega arith) l l')

IsValid-Layout :
    {f f' : Frame} {hd u u' r r' z z' : List ℕ}
    → IsValid f
    → Layout f.bytes hd u r z
    → Layout f'.bytes hd u' r' z'
    → IsValid f'
IsValid-Layout {f} {f'} {hd} {u} {u'} {r} {r'} {z} {z'} v l l' = record {
  len =
      ap length l'.bytes_are
      ∙ omega (
        arith,
        l'.hd_len,
        l'.u_len,
        l'.room,
        length-append hd (u' ++ (r' ++ z')),
        length-append u' (r' ++ z'),
        length-append r' z',
      );
  size = ap from_le_bytes (front_slice 0 4 (omega arith) l l') ∙ v.size;
  fits = omega (arith, used-Layout l', l'.room);
  aligned = λ id e. v.aligned id (sym (next-Layout {f = f} {f' = f'} l l') ∙ e);
}

module _ (f : Frame) (i : ℕ) (v : IsValid f) (inside : i ≤ used f) where
  front_len : length (take i (records f)) ≡ i
  front_len = omega (arith, length-take i (records f), used-Layout (Layout-of v))

  -- The parts of the frame on the two sides of a place in it.
  Layout-at :
      Layout f.bytes
        (take 9 f.bytes)
        (slice 9 11 f.bytes)
        (take i (records f) ++ drop i (records f))
        (drop (records_end f) f.bytes)
  Layout-at = rw (take-append-drop i (records f)) (Layout-of v)

  -- An entry which fits goes in at the place: what was before it stays, what was from it on moves
  -- up. The chain and the validity of the frame are kept.
  pub records-insert :
      (e : List ℕ)
      → length e ≤ free f
      → (f' : Frame) × (insert f (11 + i) e ≡ some f')
        × (records f' ≡ take i (records f) ++ (e ++ drop i (records f)))
        × (used f' ≡ used f + length e)
        × (next f' ≡ next f)
        × IsValid f'
  unfolding free
  records-insert e fits =
      let (f', u', eq, l') =
        insert-Layout f.bytes _ _ (take i (records f)) e (drop i (records f)) _ Layout-at
          (omega (arith, (Layout-of v).room, used-Layout (Layout-of v))) in
      (
        f',
        subst (λ k. insert f (11 + k) e ≡ some f') front_len eq,
        records-Layout {f = f'} l',
        omega (
          arith,
          used-Layout {f = f'} l',
          used-Layout Layout-at,
          length-append (take i (records f)) (drop i (records f)),
          length-append (take i (records f)) (e ++ drop i (records f)),
          length-append e (drop i (records f)),
        ),
        next-Layout {f = f} {f' = f'} Layout-at l',
        IsValid-Layout {f = f} {f' = f'} v Layout-at l',
      )

  -- What is split off is what was from the place on; the frame keeps what was before it.
  pub records-split_off :
      ((split_off f (11 + i)).0 ≡ drop i (records f))
      × (records (split_off f (11 + i)).1 ≡ take i (records f))
      × (next (split_off f (11 + i)).1 ≡ next f)
      × IsValid (split_off f (11 + i)).1
  records-split_off =
      let (u', z', eq, l) =
        split_off-Layout f.bytes _ _ (take i (records f)) (drop i (records f)) _ Layout-at in
      subst
        (λ k.
          ((split_off f (11 + k)).0 ≡ drop i (records f))
          × (records (split_off f (11 + k)).1 ≡ take i (records f))
          × (next (split_off f (11 + k)).1 ≡ next f)
          × IsValid (split_off f (11 + k)).1)
        front_len
        (
          eq,
          records-Layout {f = (split_off f (11 + length (take i (records f)))).1} l,
          next-Layout {f = f} {f' = (split_off f (11 + length (take i (records f)))).1} Layout-at l,
          IsValid-Layout {f = f} {f' = (split_off f (11 + length (take i (records f)))).1} v
              Layout-at l,
        )

  -- What is taken out is the bytes of the place: what was after them moves down.
  pub records-remove :
      (n : ℕ)
      → i + n ≤ used f
      → (records (remove f (11 + i) n) ≡ take i (records f) ++ drop (i + n) (records f))
        × (next (remove f (11 + i) n) ≡ next f)
        × IsValid (remove f (11 + i) n)
  records-remove n room =
      let r : List ℕ = records f in
      let e : List ℕ = take n (drop i r) in
      let split : drop i r ≡ e ++ drop (i + n) r =
        sym (take-append-drop n (drop i r)) ∙ ap (λ w. e ++ w) (drop-drop n i r) in
      let l : Layout f.bytes (take 9 f.bytes) (slice 9 11 f.bytes)
          (take i r ++ (e ++ drop (i + n) r)) (drop (records_end f) f.bytes) =
        subst
          (λ w.
            Layout f.bytes (take 9 f.bytes) (slice 9 11 f.bytes) (take i r ++ w)
              (drop (records_end f) f.bytes))
          split Layout-at in
      let (u', l') = remove-Layout f.bytes _ _ (take i r) e (drop (i + n) r) _ l in
      let len : length e ≡ n =
        omega (arith, length-take n (drop i r), length-drop i r, used-Layout (Layout-of v)) in
      let f' : Frame = remove f (11 + length (take i r)) (length e) in
      subst₂
        (λ k m.
          (records (remove f (11 + k) m) ≡ take i r ++ drop (i + n) r)
          × (next (remove f (11 + k) m) ≡ next f)
          × IsValid (remove f (11 + k) m))
        front_len len
        (
          records-Layout {f = f'} l',
          next-Layout {f = f} {f' = f'} l l',
          IsValid-Layout {f = f} {f' = f'} v l l',
        )

length-new : length new.bytes ≡ frame_len
unfolding new
length-new =
    length-splice 0 (to_le_bytes 4 frame_len) (replicate frame_len 0)
      (omega (arith, length-replicate {A = ℕ} frame_len 0, length-to_le_bytes 4 frame_len))
    ∙ length-replicate frame_len 0

new_size : from_le_bytes (slice 0 4 new.bytes) ≡ frame_len
unfolding new replicate splice slice to_le_bytes from_le_bytes
new_size = refl

next-new : next new ≡ none
unfolding new next replicate splice to_le_bytes
next-new = refl

used-new : used new ≡ 0
unfolding new used replicate splice slice to_le_bytes from_le_bytes
used-new = refl

records-new : records new ≡ []
unfolding records records_end slice
records-new = ap (λ k. slice 11 (11 + k) new.bytes) used-new

-- The frame that a file starts with has no entries and no frame after it.
pub new-IsValid : IsValid new × (records new ≡ []) × (next new ≡ none)
new-IsValid = (
  record {
    len = length-new;
    size = new_size;
    fits = omega (arith, used-new);
    aligned = λ id e. cc (next-new);
  },
  records-new,
  next-new,
)

next-aligned :
    (f : Frame) (o : Option FrameId)
    → chained f.bytes o ≡ ok f
    → (id : FrameId) → o ≡ some id
    → id.offset % frame_len ≡ 0
unfolding chained
next-aligned f none e id h = cc
next-aligned f (some j) e id h = ground arith

chained-ok :
    (f : Frame) (o : Option FrameId)
    → ((id : FrameId) → o ≡ some id → id.offset % frame_len ≡ 0)
    → chained f.bytes o ≡ ok f
unfolding chained
chained-ok f none h = refl
chained-ok f (some j) h = ground (arith, h j refl)

-- `from_bytes` gives back exactly the frames which are valid.
pub from_bytes_iff : (f : Frame) → (from_bytes f.bytes ≡ ok f) ↔ IsValid f
from_bytes_iff f = (
  λ e. record {
    len = unfold from_bytes in ground arith;
    size = unfold from_bytes in ground arith;
    fits = unfold from_bytes in ground arith;
    aligned = next-aligned f (next f) (unfold from_bytes in ground arith);
  },
  λ v. unfold from_bytes in ground (arith, v.len, v.size, v.fits, chained-ok f (next f) v.aligned),
)
