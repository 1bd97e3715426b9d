-- ===== src/Storage/HourFile/State.antt =====
-- How the steps of hour_file.rs on frames change what reads: a frame which is read is kept, one which
-- is put in memory takes the place of the one on the disk, and a new one is of no file before.
pub mod Allocate
use my_telemetry_server.Base.{
  ℕ, zero, suc, ◌+◌, ◌-◌, ◌*◌, ◌≤◌, ◌<◌, ◌%◌, ◌^◌, ◌≡◌, ◌≢◌, ◌⊎◌, refl, sym, ap, subst, ◌∙◌, arith,
  leb, if◌then◌else◌, false, Option, none, some, List, [], ◌∷◌, ◌++◌, length, get_elem?, Bool-cases,
  Option-cases, leb_false→lt, inl, inr, length-append, some_eq,
}
use my_telemetry_server.Base.Result.{ok, err}
use my_telemetry_server.Storage.Frame.{Frame, FrameId, same_frame, frame_len, new, insert, set_next}
use my_telemetry_server.Storage.Frame.Links.{IsLink}
use my_telemetry_server.Storage.HourFile.{
  HourFile, DataFile, read_frame, read_frame_from_disk, read_data_file, or_from_disk, or_panic,
  frame_in_memory, put_frame, frame, allocate_frame, allocate_in, next_frame_id, frames_of_last,
  count_in_last, last_file, is_full, empty_file, max_data_files, too_many_files,
}
use my_telemetry_server.Storage.HourFile.Insert.{insert_bytes, link_frame}
use my_telemetry_server.Storage.HourFile.View.{same_frame→eq, same_frame_refl}

-- The counts of the records and the last second, which an insert leaves alone.
abbrev pub SameRest : HourFile → HourFile → Type 0
SameRest h h' = (h'.cells.counts ≡ h.cells.counts) × (h'.last_second ≡ h.last_second)

-- The frame is one of those that its data file counts.
abbrev pub Counted : List DataFile → FrameId → Type 0
Counted ds id =
    (d : DataFile) × (get_elem? ds id.file ≡ some d)
    × (id.offset < d.frames_count * frame_len)
    × (id.offset % frame_len ≡ 0)

pub record IsSound (h : HourFile) : Type 0 where
  pub files_count : length h.data_files ≤ max_data_files
  pub len_fits : h.data_file_len ≤ 2 ^ 32
  pub small :
      (k : ℕ) (d : DataFile)
      → get_elem? h.data_files k ≡ some d
      → d.frames_count * frame_len ≤ 2 ^ 32
  pub known : (id : FrameId) (f : Frame) → read_frame h id ≡ ok f → Counted h.data_files id

pub read_frame-put_frame :
    (h : HourFile) (id : FrameId) (f : Frame) (at : FrameId)
    → read_frame (put_frame h id f) at ≡ (if same_frame at id then ok f else read_frame h at)
unfolding read_frame put_frame read_frame_from_disk
read_frame-put_frame h id f at = elim (Bool-cases (same_frame at id)) [
  | inl e ↦ rw e refl
  | inr e ↦ rw e refl
]

kept_same :
    (h : HourFile) (id : FrameId) (f : Frame) (at : FrameId)
    → read_frame h id ≡ ok f
    → (if same_frame at id then ok f else read_frame h at) ≡ read_frame h at
kept_same h id f at e = elim (Bool-cases (same_frame at id)) [
  | inl k ↦ rw k (sym (ap (read_frame h) (same_frame→eq at id k) ∙ e))
  | inr k ↦ rw k refl
]

in_memory_kept :
    (h : HourFile) (id : FrameId) (f : Frame) (at : FrameId) (k : Frame)
    → h.frames id ≡ none
    → h.frames at ≡ some k
    → (if same_frame at id then some f else h.frames at) ≡ some k
in_memory_kept h id f at k absent e = elim (Bool-cases (same_frame at id)) [
  | inl same ↦ absurd (ground (arith, ap h.frames (same_frame→eq at id same), absent, e))
  | inr apart ↦ rw apart e
]

-- A frame which reads is kept in memory, and everything reads as before.
pub frame_lem :
    (h : HourFile) (id : FrameId) (f : Frame)
    → read_frame h id ≡ ok f
    → (fs : FrameId → Option Frame) × (frame h id ≡ ok (f, record h { frames = fs }))
      × (fs id ≡ some f)
      × ((at : FrameId) → read_frame (record h { frames = fs }) at ≡ read_frame h at)
      × ((at : FrameId) (k : Frame) → h.frames at ≡ some k → fs at ≡ some k)
unfolding frame
frame_lem h id f e = elim (Option-cases (h.frames id)) [
  | inr (g, eq) ↦
      let same : g ≡ f = (unfold read_frame in ground (arith, eq, e)) in
      (h.frames, rw (eq, same) refl, rw same at eq, λ at. refl, λ at k e. e)
  | inl eq ↦
      let from_disk : read_frame_from_disk h id ≡ ok f =
        (unfold read_frame in ground (arith, eq, e)) in
      (
        (put_frame h id f).frames,
        rw (eq, from_disk) (unfold put_frame in refl),
        unfold put_frame in rw (same_frame_refl id) refl,
        λ at. unfold put_frame in (read_frame-put_frame h id f at ∙ kept_same h id f at e),
        λ at k e. unfold put_frame in in_memory_kept h id f at k eq e,
      )
]

-- A step on frames which were known keeps the hour sound.
pub IsSound-after :
    (h h' : HourFile)
    → IsSound h
    → h'.data_files ≡ h.data_files
    → h'.data_file_len ≡ h.data_file_len
    → ((id : FrameId) (f : Frame)
        → read_frame h' id ≡ ok f
        → (f' : Frame) × (read_frame h id ≡ ok f'))
    → IsSound h'
IsSound-after h h' sound files len known = record {
  files_count = subst (λ ds. length ds ≤ max_data_files) (sym files) sound.files_count;
  len_fits = subst (λ n. n ≤ 2 ^ 32) (sym len) sound.len_fits;
  small = λ k d at. sound.small k d (ap (λ ds. get_elem? ds k) (sym files) ∙ at);
  known = λ id f e.
      let (f', reads) = known id f e in
      subst (λ ds. Counted ds id) (sym files) (sound.known id f' reads);
}

pub insert_bytes_lem :
    (h : HourFile) (id : FrameId) (f f' : Frame) (offset : ℕ) (entry : List ℕ)
    → h.frames id ≡ some f
    → insert f offset entry ≡ some f'
    → insert_bytes h id offset entry ≡ ok (put_frame h id f')
unfolding insert_bytes frame_in_memory or_panic
insert_bytes_lem h id f f' offset entry in_memory e = rw (in_memory, e) refl

pub link_frame_lem :
    (h : HourFile) (id : FrameId) (f : Frame) (to : Option FrameId)
    → h.frames id ≡ some f
    → link_frame h id to ≡ ok (put_frame h id (set_next f to))
unfolding link_frame frame_in_memory or_panic
link_frame_lem h id f to in_memory = rw in_memory refl

-- The frame is in memory once it is put there, and stays there when another one is.
pub in_memory_put :
    (h : HourFile) (id : FrameId) (f : Frame) → (put_frame h id f).frames id ≡ some f
unfolding put_frame
in_memory_put h id f = rw (same_frame_refl id) refl

pub in_memory_still :
    (h : HourFile) (id at : FrameId) (f g : Frame)
    → same_frame at id ≡ false
    → h.frames at ≡ some g
    → (put_frame h id f).frames at ≡ some g
unfolding put_frame
in_memory_still h id at f g apart e = rw (apart, e) refl

-- What reads is told by the frames in memory and by the data files.
pub read_frame-rewritten :
    (h h' : HourFile) (g : FrameId) (G : Frame) (at : FrameId)
    → h'.data_files ≡ h.data_files
    → h'.frames at ≡ (if same_frame at g then some G else h.frames at)
    → read_frame h' at ≡ (if same_frame at g then ok G else read_frame h at)
unfolding read_frame read_frame_from_disk or_from_disk
read_frame-rewritten h h' g G at files e = elim (Bool-cases (same_frame at g)) [
  | inl k ↦ rw (e, k) refl
  | inr k ↦ rw (e, k, files) refl
]

inside_list : (ds : List DataFile) (k : ℕ) (d : DataFile) → get_elem? ds k ≡ some d → k < length ds
inside_list [] k d e = absurd (ground (arith, e))
inside_list (c ∷ ds) zero d e = omega arith
inside_list (c ∷ ds) (suc k) d e = omega (arith, inside_list ds k d e)

-- A frame which reads can be linked to.
pub IsLink-reads :
    (h : HourFile) (id : FrameId) (f : Frame) → IsSound h → read_frame h id ≡ ok f → IsLink id
IsLink-reads h id f sound e =
    let (d, found, lt, aligned) = sound.known id f e in
    record {
      file = omega (arith, inside_list h.data_files id.file d found, sound.files_count);
      offset = omega (arith, lt, sound.small id.file d found);
      aligned = aligned;
    }
