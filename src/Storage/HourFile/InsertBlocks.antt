-- ===== src/Storage/HourFile/InsertBlocks.antt =====
-- `insert_blocks` in hour_file.rs: the blocks of a second go in one after the other, and the cell of a
-- new second is set to the first of them.
use my_telemetry_server.Base.{
  ℕ, suc, ◌+◌, ◌≤◌, ◌<◌, ◌≡◌, refl, sym, ap, subst, ◌∙◌, arith, ltb, ◌==◌, Bool, true, false, not,
  none, some, List, [], ◌∷◌, length, get_elem?, set, Bool-cases, inl, inr, some_eq, length-set,
  get-set_same, get-set_other,
}
use my_telemetry_server.Base.Result.{Result, ok, err, ◌>>=◌}
use my_telemetry_server.Storage.Varint.{Varint}
use my_telemetry_server.Storage.Frame.{FrameId, head, frame_capacity}
use my_telemetry_server.Storage.Cells.{Cell, set_cell}
use my_telemetry_server.Storage.HourFile.{
  HourFile, HourError, Position, or_panic, read_frame, read_frame_from_disk,
}
use my_telemetry_server.Storage.HourFile.View.{View, place_of, is_inside}
use my_telemetry_server.Storage.HourFile.Chain.{Leads-agree}
use my_telemetry_server.Storage.HourFile.State.{IsSound-after, SameRest}
use my_telemetry_server.Storage.HourFile.Puts.{Represents, Put, Outcome, IsRefusal}
use my_telemetry_server.Storage.HourFile.Inserts.{is_place, insert_at-Outcome}
use my_telemetry_server.Storage.HourFile.Insert.{insert_at}
use my_telemetry_server.Storage.Block.{CompressedBlock}
use my_telemetry_server.Storage.HourFile.Entries.{
  Entries, has_entry, offset_of, put_in, offset_of-put_in, has_entry-put_in,
}
use my_telemetry_server.Storage.HourFile.Ordered.{Indexed, put-Indexed, put-Indexed_more}
use my_telemetry_server.Storage.HourFile.Place.{next_place}
use my_telemetry_server.Storage.HourFile.Seconds.{insert_blocks, set_first}

-- The blocks fit into a frame each.
abbrev pub AllFit : List CompressedBlock → Type 0
AllFit [] = Unit {0}
AllFit (b ∷ bs) = (0 < length b.entry) × (length b.entry ≤ frame_capacity) × AllFit bs

-- The entries with those of blocks of a second put in, one after the other.
abbrev pub put_all : ℕ → List CompressedBlock → Entries → Entries
put_all s [] es = es
put_all s (b ∷ bs) es = put_all s bs (put_in s b.entry es)

-- The hour holds the entries, in the order of time, its index is at them, and the rest of it is as it
-- was; or it refused them.
abbrev pub Written : HourFile → Entries → Result HourError HourFile → Type 0
Written h es (ok h') =
    (v : View) × Represents h' v
    × Indexed h'.cells.cells v es
    × (length h'.cells.cells ≡ length h.cells.cells)
    × SameRest h h'
Written h es (err e) = IsRefusal e

pub Written-after :
    (h h' : HourFile) (es : Entries) (r : Result HourError HourFile)
    → length h'.cells.cells ≡ length h.cells.cells
    → SameRest h h'
    → Written h' es r
    → Written h es r
Written-after h h' es (ok h2) len (counts, last) (v, repr, indexed, len2, (counts2, last2)) =
    (v, repr, indexed, len2 ∙ len, (counts2 ∙ counts, last2 ∙ last))
Written-after h h' es (err e) len rest refused = refused

abbrev with_cell : HourFile → ℕ → Cell → HourFile
with_cell h s at = record h { cells = record h.cells { cells = set h.cells.cells s at } }

set_first_lem :
    (h : HourFile) (s : ℕ) (at : Cell)
    → s < length h.cells.cells
    → set_first h s true at ≡ ok (with_cell h s at)
unfolding set_first set_cell or_panic
set_first_lem h s at inside = rw (is_inside_cells inside) refl
  where
    is_inside_cells : {n : ℕ} → s < n → ltb s n ≡ true
    is_inside_cells lt = ground (arith, lt)

cell_is_set :
    (cs : List Cell) (s : ℕ) (at : Cell)
    → s < length cs
    → (j : ℕ) (c : Cell) → (s == j) ≡ true
    → get_elem? (set cs s at) j ≡ some c
    → at ≡ c
cell_is_set cs s at inside j c same found =
    let at_j : s ≡ j = ground (arith, same) in
    some_eq (sym (get-set_same cs s at inside) ∙ ap (get_elem? (set cs s at)) at_j ∙ found)

with_cell-Represents :
    (h : HourFile) (w : View) (s : ℕ) (at : Cell)
    → s < length h.cells.cells
    → Represents h w
    → is_inside w at.frame at.offset ≡ true
    → Represents (with_cell h s at) w
with_cell-Represents h w s at in_hour repr inside =
    let reads : (id : FrameId) → read_frame (with_cell h s at) id ≡ read_frame h id =
      λ id. unfold read_frame read_frame_from_disk in refl in
    record {
      sound =
          IsSound-after h (with_cell h s at) repr.sound refl refl
            (λ id f e. (f, sym (reads id) ∙ e));
      leads =
          Leads-agree (read_frame h) (read_frame (with_cell h s at)) (some head) w none
            (λ id k. reads id) repr.leads;
      distinct = repr.distinct;
      tail_is = repr.tail_is;
      cells_in = λ j c found full. elim (Bool-cases (s == j)) [
        | inl same ↦
            subst (λ (x : Cell). is_inside w x.frame x.offset ≡ true)
              (cell_is_set h.cells.cells s at in_hour j c same found) inside
        | inr ne ↦ repr.cells_in j c (sym (get-set_other h.cells.cells s j at ne) ∙ found) full
      ];
    }

-- The hour once the entry is in and the cell of a new second is set.
pub record Added (h h2 : HourFile) (view : View) (es : Entries) (s : ℕ) (place : Position)
    : Type 0 where
  pub represents : Represents h2 view
  pub indexed : Indexed h2.cells.cells view es
  pub same_len : length h2.cells.cells ≡ length h.cells.cells
  pub rest : SameRest h h2
  pub is : is_place view place ≡ true
  pub at : place_of view place.frame place.offset ≡ offset_of (suc s) es
  pub has : has_entry s es ≡ true

-- Where the next block goes.
abbrev pub after_block : Cell → CompressedBlock → Position
after_block at b = record { frame = at.frame; offset = at.offset + length b.entry }

module _ (h : HourFile) (v : View) (es : Entries) (s : ℕ) (b : CompressedBlock)
    (some_bytes : 0 < length b.entry) (indexed : Indexed h.cells.cells v es)
    (in_hour : s < length h.cells.cells) (h' : HourFile) (w : View) (at : Cell)
    (put : Put h v b.entry (offset_of (suc s) es) at h' w) where
  next_at :
      place_of w at.frame (at.offset + length b.entry) ≡ offset_of (suc s) (put_in s b.entry es)
  next_at =
      (next_place w at (offset_of (suc s) es) (length b.entry) some_bytes put.entry_at).1
      ∙ ground (arith, offset_of-put_in (suc s) s b.entry es)

  has_now : has_entry s (put_in s b.entry es) ≡ true
  has_now = ground (arith, has_entry-put_in s s b.entry es)

  abbrev AddedAt : HourFile → Type 0
  AddedAt h2 = Added h h2 w (put_in s b.entry es) s (after_block at b)

  -- `first`: the second has no entries yet.
  pub set_first-Added :
      (first : Bool)
      → has_entry s es ≡ not first
      → (h2 : HourFile) × (set_first h' s first at ≡ ok h2) × AddedAt h2
  set_first-Added true new_second =
      let inside : s < length h'.cells.cells = omega (arith, put.same_len, in_hour) in
      (
        with_cell h' s at,
        set_first_lem h' s at inside,
        record {
          represents = with_cell-Represents h' w s at inside put.represents put.entry_at.inside;
          indexed = put-Indexed h h' v w es s b.entry at indexed some_bytes in_hour put new_second;
          same_len = length-set h'.cells.cells s at ∙ put.same_len;
          rest = put.same_rest;
          is = (next_place w at (offset_of (suc s) es) (length b.entry) some_bytes put.entry_at).0;
          at = next_at;
          has = has_now;
        },
      )
  set_first-Added false known = (
    h',
    unfold set_first in refl,
    record {
      represents = put.represents;
      indexed = put-Indexed_more h h' v w es s b.entry at indexed some_bytes in_hour put known;
      same_len = put.same_len;
      rest = put.same_rest;
      is = (next_place w at (offset_of (suc s) es) (length b.entry) some_bytes put.entry_at).0;
      at = next_at;
      has = has_now;
    },
  )

-- What the insert of the first of the blocks comes to, when the others go in after it.
pub after_insert :
    (varint : Varint) (h : HourFile) (v : View) (es : Entries) (s : ℕ) (first : Bool)
    (b : CompressedBlock) (bs : List CompressedBlock) (r : Result HourError (Cell × HourFile))
    → 0 < length b.entry
    → Indexed h.cells.cells v es
    → s < length h.cells.cells
    → has_entry s es ≡ not first
    → ((h2 : HourFile) (w : View) (at : Cell)
        → Added h h2 w (put_in s b.entry es) s (after_block at b)
        → Written h2
            (put_all s (b ∷ bs) es)
            (insert_blocks varint h2 s false (some (after_block at b)) bs))
    → Outcome h v b.entry (offset_of (suc s) es) r
    → Written h (put_all s (b ∷ bs) es) (
        r >>= λ put. set_first put.1 s first put.0 >>= λ h2.
        insert_blocks varint h2 s false (some (after_block put.0 b)) bs)
after_insert varint h v es s first b bs (err e) some_bytes indexed in_hour new_second more outcome =
    outcome
after_insert varint h v es s first b bs (ok (at, h')) some_bytes indexed in_hour new_second more
      (w, put) =
    let (h2, eq, added) =
      set_first-Added h v es s b some_bytes indexed in_hour h' w at put first new_second in
    rw eq (
      Written-after h h2 (put_all s (b ∷ bs) es)
        (insert_blocks varint h2 s false (some (after_block at b)) bs) added.same_len added.rest
        (more h2 w at added))

-- The blocks of a second go in at a place which is after its entries and those of earlier seconds: the
-- hour holds the entries with them in the order of time, or it refuses them.
pub insert_blocks-Written :
    (varint : Varint) (h : HourFile) (v : View) (es : Entries) (s : ℕ) (first : Bool)
    (place : Position) (bs : List CompressedBlock)
    → Represents h v
    → Indexed h.cells.cells v es
    → is_place v place ≡ true
    → place_of v place.frame place.offset ≡ offset_of (suc s) es
    → s < length h.cells.cells
    → has_entry s es ≡ not first
    → AllFit bs
    → Written h (put_all s bs es) (insert_blocks varint h s first (some place) bs)
unfolding insert_blocks
insert_blocks-Written varint h v es s first place [] repr indexed is at in_hour new_second fit =
    (v, repr, indexed, refl, (refl, refl))
insert_blocks-Written varint h v es s first place (b ∷ bs) repr indexed is at in_hour new_second
      (some_bytes, fits, fit) =
    after_insert varint h v es s first b bs (insert_at varint h (some place) b.entry) some_bytes
      indexed in_hour new_second
      (λ h2 w cell added.
        insert_blocks-Written varint h2 w (put_in s b.entry es) s false (after_block cell b) bs
          added.represents added.indexed added.is added.at (omega (arith, added.same_len, in_hour))
          added.has fit)
      (subst (λ q. Outcome h v b.entry q (insert_at varint h (some place) b.entry)) at
        (insert_at-Outcome varint h v place b.entry repr is some_bytes fits))
