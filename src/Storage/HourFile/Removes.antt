-- ===== src/Storage/HourFile/Removes.antt =====
-- `remove_entry` of hour_file.rs on a chain of frames, and that it takes out what an insert put in.
use my_telemetry_server.Base.{
  ℕ, ◌+◌, ◌-◌, ◌^◌, ◌≤◌, ◌<◌, ◌≡◌, sym, ap, subst, ◌∙◌, arith, leb, ◌==◌, true, false, Option, none,
  some, List, [], ◌∷◌, ◌++◌, length, take, drop, get_elem?, Bool-cases, inl, inr, length-append,
  length-take, length-drop, take-append-drop, take-length-append, drop-length-append,
  drop-append_right,
}
use mathlib.Core.Path.{subst₂}
use my_telemetry_server.Base.Result.{Result, ok, ◌>>=◌}
use my_telemetry_server.Storage.Frame.{Frame, FrameId, same_frame, head}
use my_telemetry_server.Storage.Cells.{Cell, is_empty}
use my_telemetry_server.Storage.HourFile.{
  HourFile, HourError, Position, position_of, read_frame, frame,
}
use my_telemetry_server.Storage.HourFile.Insert.{remove_entry}
use my_telemetry_server.Storage.HourFile.View.{
  View, flat, place_of, is_inside, has_frame, same_frame_refl, bounds_first, inside_later, put_at,
  shifted,
}
use my_telemetry_server.Storage.HourFile.Chain.{Leads, Leads-split, EntryAt}
use my_telemetry_server.Storage.HourFile.State.{frame_lem}
use my_telemetry_server.Storage.HourFile.Puts.{Represents, Put, Leads-InFrames}
use my_telemetry_server.Storage.HourFile.PutHere.{absent_before}
use my_telemetry_server.Storage.HourFile.InsertAll.{Represents-kept}
use my_telemetry_server.Storage.HourFile.Inserts.{Split, Split-at}
use my_telemetry_server.Storage.HourFile.Place.{inside-is_place}
use my_telemetry_server.Storage.HourFile.CutOut.{cut_out, lowered, Outside}
use my_telemetry_server.Storage.HourFile.Remove.{Removed, after, remove-Removed}

Removed-kept :
    (h : HourFile) (fs : FrameId → Option Frame) (v : View) (p n : ℕ) (h' : HourFile) (w : View)
    → Removed (record h { frames = fs }) v p n h' w
    → Removed h v p n h' w
Removed-kept h fs v p n h' w x = record {
  sound = x.sound;
  leads = x.leads;
  distinct = x.distinct;
  tail_is = x.tail_is;
  inside = x.inside;
  flat_is = x.flat_is;
  used = x.used;
  unused = x.unused;
  same_len = x.same_len;
  same_rest = x.same_rest;
}

-- Within the frame of a chain which has the offset.
room_of :
    (v1 v2 : View) (g : FrameId) (r : List ℕ) (offset : ℕ)
    → has_frame v1 g ≡ false
    → is_inside (v1 ++ ((g, r) ∷ v2)) g offset ≡ true
    → offset < 11 + length r
unfolding has_frame
room_of [] v2 g r offset absent inside = (bounds_first g g r v2 offset (same_frame_refl g) inside).1
room_of ((k, s) ∷ v1) v2 g r offset absent inside =
    let apart : same_frame k g ≡ false = ground (arith, absent) in
    room_of v1 v2 g r offset (ground (arith, absent))
      (sym (inside_later k g s (v1 ++ ((g, r) ∷ v2)) offset apart) ∙ inside)

-- The frame of the entry is read, and the entry taken out of it.
abbrev pub take_out : HourFile → Cell → ℕ → Result HourError HourFile
take_out h at n = frame h at.frame >>= λ read. remove_entry read.1 (position_of at) n

-- An entry which is whole in a frame of the chain is taken out of it: its bytes are gone, the others
-- stay in their order, the chain is still one, and the cell of each second is where its first entry
-- has moved to. The cell of the entry is at what comes after it.
pub remove_entry-Removed :
    (h : HourFile) (v : View) (at : Cell) (p n : ℕ)
    → Represents h v
    → EntryAt v at p n
    → 0 < n
    → (h' : HourFile) × (take_out h at n ≡ ok h') × (w : View) × Removed h v p n h' w
unfolding position_of
remove_entry-Removed h v at p n repr entry some_bytes =
    let s : Split v (position_of at) =
      Split-at v (position_of at) (inside-is_place v at entry.inside) in
    let repr' : Represents h (s.front ++ ((at.frame, s.bytes) ∷ s.rest)) =
      subst (Represents h) (sym s.joined) repr in
    let (mid, first, others) =
      Leads-split (read_frame h) (some head) none s.front ((at.frame, s.bytes) ∷ s.rest)
        repr'.leads in
    let (to, e, f, rest) = others in
    let (fs, eq, in_memory, kept, keep) = frame_lem h at.frame f.frame f.reads in
    let h1 : HourFile = record h { frames = fs } in
    let offset_is : at.offset ≡ 11 + s.at = ap (λ (q : Position). q.offset) s.is_at in
    let room : s.at + n ≤ length s.bytes = omega (
      arith,
      room_of s.front s.rest at.frame s.bytes (at.offset + n - 1)
          (absent_before s.front s.rest at.frame s.bytes repr'.distinct)
          (subst (λ x. is_inside x at.frame (at.offset + n - 1) ≡ true) (sym s.joined)
            entry.last_inside),
      offset_is,
      some_bytes,
    ) in
    let (removed, is) =
      remove-Removed h1 s.front s.rest at.frame s.bytes
        (Represents-kept h fs (s.front ++ ((at.frame, s.bytes) ∷ s.rest)) kept repr') f.frame
        in_memory s.at n some_bytes room in
    let at_p : length (flat s.front) + s.at ≡ p = sym s.place_is ∙ entry.place_is in
    (
      after h1 s.front s.rest at.frame s.bytes
          (Represents-kept h fs (s.front ++ ((at.frame, s.bytes) ∷ s.rest)) kept repr') f.frame
          in_memory s.at n some_bytes room,
      rw eq (ap (λ q. remove_entry h1 q n) s.is_at ∙ removed),
      s.front ++ ((at.frame, cut_out s.at n s.bytes) ∷ s.rest),
      subst₂
          (λ x q.
            Removed h x q n
              (after h1 s.front s.rest at.frame s.bytes
                (Represents-kept h fs (s.front ++ ((at.frame, s.bytes) ∷ s.rest)) kept repr')
                f.frame in_memory s.at n some_bytes room)
              (s.front ++ ((at.frame, cut_out s.at n s.bytes) ∷ s.rest)))
          s.joined at_p
          (Removed-kept h fs (s.front ++ ((at.frame, s.bytes) ∷ s.rest))
            (length (flat s.front) + s.at) n _ _ is),
    )

length-put_at_le : (p : ℕ) (e l : List ℕ) → length (put_at p e l) ≤ length l + length e
unfolding put_at
length-put_at_le p e l = omega (
  arith,
  length-append (take p l) (e ++ drop p l),
  length-append e (drop p l),
  length-take p l,
  length-drop p l,
)

cut_out-put_at : (p : ℕ) (e l : List ℕ) → p ≤ length l → cut_out p (length e) (put_at p e l) ≡ l
unfolding put_at
cut_out-put_at p e l le =
    let len : length (take p l) ≡ p = omega (arith, length-take p l, le) in
    let front : take p (take p l ++ (e ++ drop p l)) ≡ take p l =
      subst (λ k. take k (take p l ++ (e ++ drop p l)) ≡ take p l) len
        (take-length-append (take p l) (e ++ drop p l)) in
    let back : drop (p + length e) (take p l ++ (e ++ drop p l)) ≡ drop p l =
      subst (λ k. drop (k + length e) (take p l ++ (e ++ drop p l)) ≡ drop p l) len
        (drop-append_right (length e) (take p l) (e ++ drop p l)
          ∙ drop-length-append e (drop p l)) in
    ap (λ x. x ++ drop (p + length e) (take p l ++ (e ++ drop p l))) front
    ∙ ap (λ x. take p l ++ x) back
    ∙ take-append-drop p l

-- The place of a first entry after the insert, and after the entry is out again.
there_and_back :
    (p n q : ℕ)
    → 0 < n
    → Outside p n (shifted p n q)
      × (lowered p n (shifted p n q) ≡ q)
      × ((shifted p n q == p) ≡ false)
unfolding shifted lowered
there_and_back p n q some_bytes = elim (Bool-cases (leb p q)) [
  | inl k ↦
      rw k (inr (ground (arith, k)), ground (arith, k, some_bytes), ground (arith, k, some_bytes))
  | inr k ↦ rw k (inl (ground (arith, k)), ground (arith, k), ground (arith, k))
]

-- What an insert put in is taken out again: the chain holds the bytes it held, and the cell of each
-- second which had entries is at its first one.
pub remove_entry-Put :
    (h : HourFile) (v : View) (entry : List ℕ) (p : ℕ) (at : Cell) (h' : HourFile) (w : View)
    → Put h v entry p at h' w
    → 0 < length entry
    → (h2 : HourFile) × (take_out h' at (length entry) ≡ ok h2)
      × (x : View) × Leads (read_frame h2) (some head) x none
      × (flat x ≡ flat v)
      × ((second : ℕ) (c : Cell)
          → get_elem? h.cells.cells second ≡ some c
          → is_empty c ≡ false
          → (c' : Cell) × (get_elem? h2.cells.cells second ≡ some c')
            × (is_inside x c'.frame c'.offset ≡ true)
            × (place_of x c'.frame c'.offset ≡ place_of v c.frame c.offset))
unfolding is_empty
remove_entry-Put h v entry p at h' w put some_bytes =
    let (h2, eq, x, out) =
      remove_entry-Removed h' w at p (length entry) put.represents put.entry_at some_bytes in
    let inside : p ≤ length (flat v) =
      omega (arith, out.inside, ap length put.flat_is, length-put_at_le p entry (flat v)) in
    (
      h2,
      eq,
      x,
      out.leads,
      out.flat_is
          ∙ ap (cut_out p (length entry)) put.flat_is
          ∙ cut_out-put_at p entry (flat v) inside,
      λ second c found full.
          let (d, found', d_inside, d_place) = put.used second c found full in
          let d_used : is_empty d ≡ false =
            used_inside d (Leads-InFrames h' (some head) none w put.represents.leads d d_inside) in
          let (outside, back, apart) =
            there_and_back p (length entry) (place_of v c.frame c.offset) some_bytes in
          let (c', found2, there) =
            out.used second d found' d_used
              (subst (Outside p (length entry)) (sym d_place) outside) in
          (
            c',
            found2,
            there.inside (ap (λ q. q == p) d_place ∙ apart),
            there.place_is ∙ ap (lowered p (length entry)) d_place ∙ back,
          ),
    )
  where
    used_inside : (c : Cell) → c.offset < 2 ^ 31 → is_empty c ≡ false
    used_inside c small = ground (arith, small)
