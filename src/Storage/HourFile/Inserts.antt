-- ===== src/Storage/HourFile/Inserts.antt =====
-- `insert_at` of hour_file.rs: the entry goes in where it is to go, or the hour refuses it.
use my_telemetry_server.Base.{
  ℕ, suc, ◌+◌, ◌-◌, ◌≤◌, ◌<◌, ◌≡◌, ◌≢◌, refl, sym, ap, subst, ◌∙◌, arith, leb, if◌then◌else◌, Bool,
  true, false, none, some, List, [], ◌∷◌, ◌++◌, length, get_elem?, ◌&&◌, Bool-cases, inl, inr,
  length-append, append-nil,
}
use mathlib.Core.Path.{subst₂}
use my_telemetry_server.Base.Result.{ok, err}
use my_telemetry_server.Storage.Varint.{Varint}
use my_telemetry_server.Storage.Frame.{
  Frame, FrameId, head, same_frame, frame_header_len, frame_capacity, new,
}
use my_telemetry_server.Storage.Cells.{Cell, is_empty}
use my_telemetry_server.Storage.HourFile.{
  HourFile, HourError, Position, read_frame, read_frame_from_disk, read_data_file, or_from_disk,
  frames_count, allocate_frame, mark_dirty, put_frame, is_full, last_file, allocate_in,
  next_frame_id, frames_of_last, empty_file,
}
use my_telemetry_server.Storage.HourFile.Insert.{insert_at, insert_loop, first_frame, first_of}
use my_telemetry_server.Storage.HourFile.View.{
  View, flat, place_of, put_at, has_frame, same_frame→eq, same_frame_refl, inside_first,
  place_first, place_later,
}
use my_telemetry_server.Storage.HourFile.Moves.{at_place}
use my_telemetry_server.Storage.HourFile.State.{
  IsSound, IsSound-after, insert_bytes_lem, in_memory_put, read_frame-put_frame,
}
use my_telemetry_server.Storage.HourFile.State.Allocate.{allocate_frame_lem}
use my_telemetry_server.Storage.HourFile.Grow.{filled}
use my_telemetry_server.Storage.HourFile.Puts.{Represents, Put, Outcome}
use my_telemetry_server.Storage.HourFile.InsertAll.{insert_loop-Outcome}
use my_telemetry_server.Storage.HourFile.Room.{length-Represents}

-- The place is an entry of a frame of the chain, or the end of the frame.
unfoldable pub is_place : View → Position → Bool
is_place [] p = false
is_place ((g, r) ∷ v) p =
    if same_frame g p.frame
    then leb frame_header_len p.offset && leb p.offset (frame_header_len + length r)
    else is_place v p

pub record Split (v : View) (p : Position) : Type 0 where
  pub front : View
  pub rest : View
  pub bytes : List ℕ
  pub at : ℕ
  pub joined : front ++ ((p.frame, bytes) ∷ rest) ≡ v
  pub is_at : p ≡ at_place p.frame at
  pub inside : at ≤ length bytes
  pub place_is : place_of v p.frame p.offset ≡ length (flat front) + at

pub Split-at : (v : View) (p : Position) → is_place v p ≡ true → Split v p
unfolding is_place
Split-at [] p e = absurd (ground (arith, e))
Split-at ((g, r) ∷ v) p e = elim (Bool-cases (same_frame g p.frame)) [
  | inl k ↦
      let bounds : leb frame_header_len p.offset && leb p.offset (frame_header_len + length r)
          ≡ true =
        ground (arith, e, k) in
      record {
        front = [];
        rest = v;
        bytes = r;
        at = p.offset - frame_header_len;
        joined = ap (λ id. (id, r) ∷ v) (sym (same_frame→eq g p.frame k));
        is_at = ap (λ o. record { frame = p.frame; offset = o }) (ground (arith, bounds));
        inside = ground (arith, bounds);
        place_is = place_first g p.frame r v p.offset k ∙ omega arith;
      }
  | inr k ↦
      let s : Split v p = Split-at v p (ground (arith, e, k)) in
      record {
        front = (g, r) ∷ s.front;
        rest = s.rest;
        bytes = s.bytes;
        at = s.at;
        joined = ap (λ w. (g, r) ∷ w) s.joined;
        is_at = s.is_at;
        inside = s.inside;
        place_is =
            place_later g p.frame r v p.offset k
            ∙ omega (arith, s.place_is, length-append r (flat s.front));
      }
]

pub length-Split : (v : View) (p : Position) (s : Split v p) → length s.rest < length v
length-Split v p s =
    omega (arith, ap length s.joined, length-append s.front ((p.frame, s.bytes) ∷ s.rest))

-- At a place of the chain an entry goes in, one which is not empty and fits a frame: the bytes of the
-- chain are those it held with the entry put in there, the chain is still one and ends in its tail, each
-- second which had entries has its cell where its first one is now, and one which had none has none. Or
-- the insert is refused, for want of room or for an entry which does not read; it does not panic.
pub insert_at-Outcome :
    (varint : Varint) (h : HourFile) (v : View) (place : Position) (entry : List ℕ)
    → Represents h v
    → is_place v place ≡ true
    → 0 < length entry
    → length entry ≤ frame_capacity
    → Outcome h v entry
        (place_of v place.frame place.offset)
        (insert_at varint h (some place) entry)
unfolding insert_at
insert_at-Outcome varint h v place entry repr is some_bytes fits =
    let s : Split v place = Split-at v place is in
    let there =
      insert_loop-Outcome varint entry some_bytes fits (suc (frames_count h)) h s.front s.rest
        place.frame s.bytes s.at (subst (Represents h) (sym s.joined) repr) s.inside
        (omega (arith, length-Represents h v repr, length-Split v place s)) in
    subst₂ (λ w q. Outcome h v entry q (insert_loop varint (suc (frames_count h)) h w entry))
      (sym s.is_at) (sym s.place_is)
      (subst
        (λ w.
          Outcome h w entry (length (flat s.front) + s.at)
            (insert_loop varint (suc (frames_count h)) h (at_place place.frame s.at) entry))
        s.joined there)

-- An hour with no data files: it has no entries.
pub record IsFresh (h : HourFile) : Type 0 where
  pub sound : IsSound h
  pub no_tail : h.tail ≡ none
  pub no_files : h.data_files ≡ []
  pub no_entries :
      (second : ℕ) (c : Cell) → get_elem? h.cells.cells second ≡ some c → is_empty c ≡ true

allocate_frame_first :
    (h : HourFile) (h1 : HourFile) (id : FrameId)
    → h.data_files ≡ []
    → allocate_frame h ≡ ok (id, h1)
    → id ≡ head
unfolding allocate_frame is_full last_file allocate_in next_frame_id frames_of_last
allocate_frame_first h h1 id none_yet e =
    let first : allocate_frame h
        ≡ ok (next_frame_id (empty_file ∷ []), (allocate_in h (empty_file ∷ [])).1) =
      rw none_yet refl in
    cc (e, first)

has_room_for_one :
    (h : HourFile) → h.data_files ≡ [] → allocate_frame h ≢ err HourError.too_many_files
unfolding allocate_frame is_full last_file allocate_in
has_room_for_one h none_yet e = ground (arith, rw none_yet at e)

-- The first entry of an hour goes to the start of its first frame.
pub insert_at-first :
    (varint : Varint) (h : HourFile) (entry : List ℕ)
    → IsFresh h
    → 0 < length entry
    → length entry ≤ frame_capacity
    → (h' : HourFile) × (insert_at varint h none entry ≡ ok (first_of head, h'))
      × Put h [] entry 0 (first_of head) h' ((head, entry) ∷ [])
unfolding has_frame
insert_at-first varint h entry fresh some_bytes fits = elim (allocate_frame_lem h fresh.sound) [
  | inl e ↦ absurd (has_room_for_one h fresh.no_files e)
  | inr (id, h1, e, A) ↦
      let (N, put, N_holds, N_last, N_valid) = filled entry fits in
      let after : HourFile = record (mark_dirty (put_frame h1 id N) id) { tail = some id } in
      let is_head : id ≡ head = allocate_frame_first h h1 id fresh.no_files e in
      let cells_are : after.cells.cells ≡ h.cells.cells =
        (unfold mark_dirty put_frame in ap (λ (x : HourFile). x.cells.cells) A.is_put) in
      let reads : (at : FrameId)
          → read_frame after at ≡ (if same_frame at id then ok N else read_frame h1 at) =
        λ at.
          let same : read_frame after at ≡ read_frame (put_frame h1 id N) at =
            (unfold mark_dirty read_frame read_frame_from_disk in refl) in
          same ∙ read_frame-put_frame h1 id N at in
      let known : (at : FrameId) (f : Frame)
          → read_frame after at ≡ ok f
          → (f' : Frame) × (read_frame h1 at ≡ ok f') =
        λ at f e'. elim (Bool-cases (same_frame at id)) [
          | inl k ↦ (new, A.reads at ∙ rw k refl)
          | inr k ↦ (f, rw k at (sym (reads at) ∙ e'))
        ] in
      (
        after,
        unfold insert_at first_frame in
            rw
              (
                e,
                insert_bytes_lem h1 id new N 11 entry
                    (ap (λ (x : HourFile). x.frames id) A.is_put
                      ∙ in_memory_put (record h { data_files = h1.data_files }) id new)
                    put,
              )
              (ap (λ x. ok (first_of x, after)) is_head),
        record {
          represents = record {
            sound =
                IsSound-after h1 after A.sound (unfold mark_dirty put_frame in refl)
                  (unfold mark_dirty put_frame in refl) known;
            leads = (
              none,
              refl,
              record {
                frame = N;
                reads = reads head ∙ rw (ap (same_frame head) is_head ∙ same_frame_refl head) refl;
                valid = N_valid;
                holds = N_holds;
                names = N_last;
              },
              refl,
            );
            distinct = (refl, tt);
            tail_is = ap (λ (x : FrameId). some x) is_head;
            cells_in = λ second c at used_cell. absurd (
                ground (
                  arith,
                  fresh.no_entries second c (ap (λ l. get_elem? l second) (sym cells_are) ∙ at),
                  used_cell,
                ));
          };
          flat_is = unfold put_at in rw append-nil refl;
          entry_at = record {
            inside =
                inside_first head head entry [] 11 (same_frame_refl head) (omega arith)
                  (omega arith);
            last_inside =
                inside_first head head entry [] (11 + length entry - 1) (same_frame_refl head)
                  (omega arith) (omega arith);
            place_is = place_first head head entry [] 11 (same_frame_refl head);
          };
          used = λ second c at used_cell.
              absurd (ground (arith, fresh.no_entries second c at, used_cell));
          unused = λ second c at empty. ap (λ l. get_elem? l second) cells_are ∙ at;
          same_len = ap length cells_are;
          same_rest = (
            unfold mark_dirty put_frame in ap (λ (x : HourFile). x.cells.counts) A.is_put,
            unfold mark_dirty put_frame in ap (λ (x : HourFile). x.last_second) A.is_put,
          );
        },
      )
]

-- No frame of an hour with no data files reads, if none is in memory.
pub unread :
    (h : HourFile) (id : FrameId) (f : Frame)
    → h.data_files ≡ []
    → h.frames id ≡ none
    → read_frame h id ≢ ok f
unfolding read_frame read_frame_from_disk read_data_file or_from_disk
unread h id f none_yet absent e = ground (arith, rw (absent, none_yet) at e)
