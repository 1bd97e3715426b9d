-- ===== src/Storage/HourFile/State/Allocate.antt =====
-- `allocate_frame` of hour_file.rs: the frame it comes to is a new one, and the others read as before.
use my_telemetry_server.Base.{
  ℕ, zero, suc, ◌+◌, ◌-◌, ◌*◌, ◌≤◌, ◌<◌, ◌%◌, ◌^◌, ◌≡◌, ◌≢◌, ◌⊎◌, refl, sym, ap, subst, ◌∙◌, arith,
  leb, if◌then◌else◌, false, some, List, [], ◌∷◌, ◌++◌, length, get_elem?, Bool-cases, leb_false→lt,
  inl, inr, length-append, some_eq,
}
use my_telemetry_server.Base.Result.{ok, err}
use my_telemetry_server.Storage.Frame.{Frame, FrameId, same_frame, frame_len, new}
use my_telemetry_server.Storage.Frame.Links.{IsLink}
use my_telemetry_server.Storage.HourFile.{
  HourFile, DataFile, read_frame, read_frame_from_disk, read_data_file, or_from_disk, put_frame,
  allocate_frame, allocate_in, next_frame_id, frames_of_last, count_in_last, last_file, is_full,
  empty_file, max_data_files, too_many_files,
}
use my_telemetry_server.Storage.HourFile.View.{same_frame→eq}
use my_telemetry_server.Storage.HourFile.State.{Counted, IsSound, read_frame-put_frame}

reads_push :
    (ds : List DataFile) (id : FrameId) (k : ℕ)
    → read_data_file id (get_elem? (ds ++ (empty_file ∷ [])) k) ≡ read_data_file id (get_elem? ds k)
unfolding read_data_file
reads_push [] id zero = ground arith
reads_push [] id (suc k) = refl
reads_push (d ∷ ds) id zero = refl
reads_push (d ∷ ds) id (suc k) = reads_push ds id k

reads_count :
    (ds : List DataFile) (id : FrameId) (k : ℕ)
    → read_data_file id (get_elem? (count_in_last ds) k) ≡ read_data_file id (get_elem? ds k)
unfolding read_data_file count_in_last
reads_count [] id k = refl
reads_count (d ∷ []) id zero = refl
reads_count (d ∷ []) id (suc k) = refl
reads_count (d ∷ e ∷ ds) id zero = refl
reads_count (d ∷ e ∷ ds) id (suc k) = reads_count (e ∷ ds) id k

-- The last file, its frame after the last one, and the file with that frame counted.
last_of_files :
    (d : DataFile) (ds : List DataFile)
    → (last : DataFile) × (last_file (d ∷ ds) ≡ some last)
      × (get_elem? (d ∷ ds) (length ds) ≡ some last)
      × (get_elem? (count_in_last (d ∷ ds)) (length ds)
          ≡ some (record last { frames_count = (last.frames_count + 1) % 2 ^ 32 }))
unfolding last_file count_in_last
last_of_files d [] = (d, refl, refl, refl)
last_of_files d (e ∷ ds) = last_of_files e ds

length-count_in_last : (ds : List DataFile) → length (count_in_last ds) ≡ length ds
unfolding count_in_last
length-count_in_last [] = refl
length-count_in_last (d ∷ []) = refl
length-count_in_last (d ∷ e ∷ ds) = ap suc (length-count_in_last (e ∷ ds))

counted_more :
    (ds : List DataFile) (k offset : ℕ) (d : DataFile)
    → get_elem? ds k ≡ some d
    → offset < d.frames_count * frame_len
    → ((last : DataFile) → last_file ds ≡ some last → last.frames_count + 1 < 2 ^ 32)
    → (d' : DataFile) × (get_elem? (count_in_last ds) k ≡ some d')
      × (offset < d'.frames_count * frame_len)
unfolding count_in_last last_file
counted_more [] k offset d e lt small = absurd (ground (arith, e))
counted_more (c ∷ []) zero offset d e lt small = (
  record c { frames_count = (c.frames_count + 1) % 2 ^ 32 },
  refl,
  ground (arith, small c refl, e, lt),
)
counted_more (c ∷ []) (suc k) offset d e lt small = absurd (ground (arith, e))
counted_more (c ∷ c' ∷ ds) zero offset d e lt small = (d, e, lt)
counted_more (c ∷ c' ∷ ds) (suc k) offset d e lt small =
    counted_more (c' ∷ ds) k offset d e lt small

counted_push :
    (ds : List DataFile) (k : ℕ) (d : DataFile)
    → get_elem? ds k ≡ some d
    → get_elem? (ds ++ (empty_file ∷ [])) k ≡ some d
counted_push [] k d e = absurd (ground (arith, e))
counted_push (c ∷ ds) zero d e = e
counted_push (c ∷ ds) (suc k) d e = counted_push ds k d e

count_small :
    (ds : List DataFile) (k : ℕ) (e : DataFile)
    → get_elem? (count_in_last ds) k ≡ some e
    → ((j : ℕ) (d : DataFile) → get_elem? ds j ≡ some d → d.frames_count * frame_len ≤ 2 ^ 32)
    → ((last : DataFile) → last_file ds ≡ some last → last.frames_count * frame_len < 2 ^ 32)
    → e.frames_count * frame_len ≤ 2 ^ 32
unfolding count_in_last last_file
count_small [] k e at small room = absurd (ground (arith, at))
count_small (d ∷ []) zero e at small room = ground (arith, at, room d refl)
count_small (d ∷ []) (suc k) e at small room = absurd (ground (arith, at))
count_small (d ∷ d' ∷ ds) zero e at small room = small zero e at
count_small (d ∷ d' ∷ ds) (suc k) e at small room =
    count_small (d' ∷ ds) k e at (λ j c c_at. small (suc j) c c_at) room

small_push :
    (ds : List DataFile) (k : ℕ) (e : DataFile)
    → get_elem? (ds ++ (empty_file ∷ [])) k ≡ some e
    → ((j : ℕ) (d : DataFile) → get_elem? ds j ≡ some d → d.frames_count * frame_len ≤ 2 ^ 32)
    → e.frames_count * frame_len ≤ 2 ^ 32
small_push [] zero e at small = ground (arith, at)
small_push [] (suc k) e at small = absurd (ground (arith, at))
small_push (d ∷ ds) zero e at small = small zero e at
small_push (d ∷ ds) (suc k) e at small = small_push ds k e at (λ j c c_at. small (suc j) c c_at)

-- A new frame: no frame read under its id, it has no entries, and everything else reads as before.
pub record Allocated (h : HourFile) (id : FrameId) (h' : HourFile) : Type 0 where
  pub is_put : h' ≡ put_frame (record h { data_files = h'.data_files }) id new
  pub fresh : (f : Frame) → read_frame h id ≢ ok f
  pub reads :
      (at : FrameId) → read_frame h' at ≡ (if same_frame at id then ok new else read_frame h at)
  pub sound : IsSound h'
  pub link : IsLink id

module _ (h : HourFile) (sound : IsSound h) (d : DataFile) (ds : List DataFile)
    (reads_on : (id : FrameId) (k : ℕ)
      → read_data_file id (get_elem? (d ∷ ds) k) ≡ read_data_file id (get_elem? h.data_files k))
    (counts_on : (k : ℕ) (e : DataFile)
      → get_elem? h.data_files k ≡ some e
      → get_elem? (d ∷ ds) k ≡ some e)
    (small_on : (k : ℕ) (e : DataFile)
      → get_elem? (d ∷ ds) k ≡ some e
      → e.frames_count * frame_len ≤ 2 ^ 32)
    (few : length (d ∷ ds) ≤ max_data_files)
    (room : (last : DataFile)
      → last_file (d ∷ ds) ≡ some last
      → last.frames_count * frame_len < 2 ^ 32) where
  new_id : FrameId
  new_id = next_frame_id (d ∷ ds)

  allocated_reads :
      (at : FrameId)
      → read_frame (allocate_in h (d ∷ ds)).1 at
        ≡ (if same_frame at new_id then ok new else read_frame h at)
  unfolding allocate_in new_id
  allocated_reads at =
      read_frame-put_frame (record h { data_files = count_in_last (d ∷ ds) })
        (next_frame_id (d ∷ ds)) new at
      ∙ ap (λ r. if same_frame at (next_frame_id (d ∷ ds)) then ok new else r)
          (unfold read_frame read_frame_from_disk in
            ap (or_from_disk (h.frames at)) (reads_count (d ∷ ds) at at.file ∙ reads_on at at.file))

  index_is : length ds ≡ (suc (length ds) - 1) % 256
  index_is = omega arith

  allocated-Counted : Counted (count_in_last (d ∷ ds)) new_id
  unfolding new_id next_frame_id frames_of_last
  allocated-Counted =
      let (last, is_last, at, counted) = last_of_files d ds in
      subst (λ k. Counted_at k) (index_is)
        (rw is_last (
          record last { frames_count = (last.frames_count + 1) % 2 ^ 32 },
          counted,
          omega (arith, room last is_last),
          omega arith,
        ))
    where
      Counted_at : ℕ → Type 0
      Counted_at k =
          (x : DataFile) × (get_elem? (count_in_last (d ∷ ds)) k ≡ some x)
          × ((frames_of_last (last_file (d ∷ ds)) * frame_len) % 2 ^ 32
              < x.frames_count * frame_len)
          × (((frames_of_last (last_file (d ∷ ds)) * frame_len) % 2 ^ 32) % frame_len ≡ 0)

  allocated_fresh : (f : Frame) → read_frame h new_id ≢ ok f
  unfolding new_id next_frame_id frames_of_last
  allocated_fresh f e =
      let (last, is_last, at, counted) = last_of_files d ds in
      let (c, found, lt, aligned) = sound.known new_id f e in
      let same : c ≡ last =
        some_eq
          (sym (counts_on (length ds) c (ap (get_elem? h.data_files) index_is ∙ found)) ∙ at) in
      absurd (
        omega (
          arith,
          lt,
          room last is_last,
          ap (λ (x : DataFile). x.frames_count) same,
          ap frames_of_last is_last,
        ))

  allocated_known :
      (id : FrameId) (f : Frame)
      → read_frame (allocate_in h (d ∷ ds)).1 id ≡ ok f
      → Counted (count_in_last (d ∷ ds)) id
  allocated_known id f e = elim (Bool-cases (same_frame id new_id)) [
    | inl k ↦
        subst (Counted (count_in_last (d ∷ ds))) (sym (same_frame→eq id new_id k)) allocated-Counted
    | inr k ↦
        let reads : read_frame h id ≡ ok f = rw k at (sym (allocated_reads id) ∙ e) in
        let (c, found, lt, aligned) = sound.known id f reads in
        let (c', found', lt') =
          counted_more (d ∷ ds) id.file id.offset c (counts_on id.file c found) lt
            (λ last is. omega (arith, room last is)) in
        (c', found', lt', aligned)
  ]

  allocated : Allocated h new_id (allocate_in h (d ∷ ds)).1
  unfolding allocate_in new_id put_frame count_in_last
  allocated = record {
    is_put = refl;
    fresh = allocated_fresh;
    reads = allocated_reads;
    link =
        unfold next_frame_id in
        record { file = omega arith; offset = omega arith; aligned = omega arith };
    sound = record {
      files_count = unfold put_frame in rw (length-count_in_last (d ∷ ds)) few;
      len_fits = unfold put_frame in sound.len_fits;
      small = λ k e at. count_small (d ∷ ds) k e at small_on room;
      known = allocated_known;
    };
  }

list_cases : (l : List DataFile) → (l ≡ []) ⊎ ((d : DataFile) × (ds : List DataFile) × (l ≡ d ∷ ds))
list_cases [] = inl refl
list_cases (d ∷ ds) = inr (d, ds, refl)

last_file_push : (ds : List DataFile) (d : DataFile) → last_file (ds ++ (d ∷ [])) ≡ some d
unfolding last_file
last_file_push [] d = refl
last_file_push (c ∷ []) d = refl
last_file_push (c ∷ c' ∷ ds) d = last_file_push (c' ∷ ds) d

-- The files are those of the hour, or those and a new one.
allocate_in_lem :
    (h : HourFile) (sound : IsSound h) (fs : List DataFile)
    → fs ≢ []
    → ((id : FrameId) (k : ℕ)
        → read_data_file id (get_elem? fs k) ≡ read_data_file id (get_elem? h.data_files k))
    → ((k : ℕ) (e : DataFile) → get_elem? h.data_files k ≡ some e → get_elem? fs k ≡ some e)
    → ((k : ℕ) (e : DataFile) → get_elem? fs k ≡ some e → e.frames_count * frame_len ≤ 2 ^ 32)
    → length fs ≤ max_data_files
    → ((last : DataFile) → last_file fs ≡ some last → last.frames_count * frame_len < 2 ^ 32)
    → Allocated h (allocate_in h fs).0 (allocate_in h fs).1
unfolding allocate_in next_frame_id new_id
allocate_in_lem h sound [] some_files reads counts small few room = absurd (some_files refl)
allocate_in_lem h sound (d ∷ ds) some_files reads counts small few room =
    allocated h sound d ds reads counts small few room

-- A new frame, or there is no room for more data files.
pub allocate_frame_lem :
    (h : HourFile)
    → IsSound h
    → (allocate_frame h ≡ err too_many_files)
      ⊎ ((id : FrameId) × (h' : HourFile) × (allocate_frame h ≡ ok (id, h')) × Allocated h id h')
allocate_frame_lem h sound = elim (Bool-cases (is_full h.data_file_len (last_file h.data_files))) [
  | inr roomy ↦
      let here = allocate_in h h.data_files in
      inr (
        here.0,
        here.1,
        unfold allocate_frame in rw roomy refl,
        allocate_in_lem h sound h.data_files (λ e. some_files roomy e) (λ id k. refl) (λ k e p. p)
            sound.small sound.files_count (λ last e. room roomy last e),
      )
  | inl full ↦ elim (Bool-cases (leb max_data_files (length h.data_files))) [
    | inl none_left ↦ inl (unfold allocate_frame in rw (full, none_left) refl)
    | inr left ↦
        let more : List DataFile = h.data_files ++ (empty_file ∷ []) in
        inr (
          (allocate_in h more).0,
          (allocate_in h more).1,
          unfold allocate_frame in rw (full, left) refl,
          allocate_in_lem h sound more (λ e. push_some e) (λ id k. reads_push h.data_files id k)
              (λ k e p. counted_push h.data_files k e p)
              (λ k e p. small_push h.data_files k e p sound.small)
              (omega (arith, length-append h.data_files (empty_file ∷ []), leb_false→lt _ _ left))
              (λ last e. room_of_empty last e),
        )
  ]
]
  where
    some_files : is_full h.data_file_len (last_file h.data_files) ≡ false → h.data_files ≡ [] → ⊥
    some_files roomy e =
        let full : is_full h.data_file_len (last_file []) ≡ false = rw (← e) roomy in
        unfold is_full last_file in absurd (ground (arith, full))

    room :
        is_full h.data_file_len (last_file h.data_files) ≡ false
        → (last : DataFile) → last_file h.data_files ≡ some last
        → last.frames_count * frame_len < 2 ^ 32
    room roomy last e =
        let full : is_full h.data_file_len (some last) ≡ false = rw (← e) roomy in
        unfold is_full in ground (arith, full, sound.len_fits)

    push_some : h.data_files ++ (empty_file ∷ []) ≡ [] → ⊥
    push_some e = absurd (omega (arith, ap length e, length-append h.data_files (empty_file ∷ [])))

    room_of_empty :
        (last : DataFile)
        → last_file (h.data_files ++ (empty_file ∷ [])) ≡ some last
        → last.frames_count * frame_len < 2 ^ 32
    room_of_empty last e =
        let same : empty_file ≡ last = some_eq (sym (last_file_push h.data_files empty_file) ∙ e) in
        omega (arith, ap (λ (x : DataFile). x.frames_count) same)
