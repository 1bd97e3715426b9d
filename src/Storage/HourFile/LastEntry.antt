-- ===== src/Storage/HourFile/LastEntry.antt =====
-- `last_entry_of` of hour_file.rs: the walk from the first entry of a second over the frames of the
-- chain ends, and only an entry which does not read fails it.
use my_telemetry_server.Base.{
  ℕ, zero, suc, ◌+◌, ◌*◌, ◌≤◌, ◌<◌, ◌≡◌, refl, sym, ap, subst, ◌∙◌, arith, ltb, true, Option, none,
  some, List, [], ◌∷◌, ◌++◌, length, get_inside, Bool-cases, inl, inr, append_assoc, some_eq,
}
use my_telemetry_server.Base.Int.{ℤ, pos, ◌+ℤ◌, leb_ℤ, wrap}
use my_telemetry_server.Base.Result.{Result, ok, err}
use my_telemetry_server.Base.{slice, length-slice-le}
use my_telemetry_server.Storage.Retention.{micros_per_second}
use my_telemetry_server.Storage.Varint.{Varint}
use my_telemetry_server.Storage.Frame.{Frame, FrameId, head, next, records_end, frame_header_len}
use my_telemetry_server.Storage.Entry.{Entry, EntryError, entry_at}
use my_telemetry_server.Storage.Entry.Walk.{parse_entry_inside}
use my_telemetry_server.Storage.Cells.{is_empty, get}
use my_telemetry_server.Storage.HourFile.{
  HourFile, HourError, Position, position_of, or_panic, read_frame, frames_count, entry_error,
}
use my_telemetry_server.Storage.HourFile.View.{View}
use my_telemetry_server.Storage.HourFile.Chain.{Leads, Leads-split}
use my_telemetry_server.Storage.HourFile.State.{frame_lem}
use my_telemetry_server.Storage.HourFile.Puts.{Represents}
use my_telemetry_server.Storage.HourFile.InsertAll.{Represents-kept}
use my_telemetry_server.Storage.HourFile.Inserts.{Split-at, Split, length-Split, is_place}
use my_telemetry_server.Storage.HourFile.Place.{inside-is_place}
use my_telemetry_server.Storage.HourFile.Moves.{at_place}
use my_telemetry_server.Storage.Frame.Records.{length-records}
use my_telemetry_server.Storage.HourFile.Room.{length-Represents}
use my_telemetry_server.Storage.HourFile.Seconds.{
  FrameScan, ended, further, failed, out_of_rounds, found_entry, scan_frame, after_frame,
  scan_chain, last_entry_of,
}

-- What was found, in an hour which reads as before; or the error of an entry.
abbrev pub Searched : HourFile → Result HourError (Option (Position × ℕ) × HourFile) → Type 0
Searched h (ok (found, h')) = (at : FrameId) → read_frame h' at ≡ read_frame h at
Searched h (err (entry_error e)) = Unit {0}
Searched h (err e) = ⊥

-- A walk over a frame which has not run out of rounds.
abbrev Walked : FrameScan → Type 0
Walked (ended last) = Unit {0}
Walked (further last) = Unit {0}
Walked (failed (entry_error e)) = Unit {0}
Walked (failed e) = ⊥
Walked out_of_rounds = ⊥

module _ (varint : Varint) where
  found_entry-Walked :
      (f : Frame) (second_end : ℤ) (p : Position) (last : Option (Position × ℕ))
      (r : Result EntryError Entry) (go_on : Entry → FrameScan)
      → ((e : Entry) → r ≡ ok e → Walked (go_on e))
      → Walked (found_entry second_end p last r go_on)
  unfolding found_entry
  found_entry-Walked f second_end p last (err e) go_on later = tt
  found_entry-Walked f second_end p last (ok e) go_on later =
      elim (Bool-cases (leb_ℤ second_end e.time)) [ inl k ↦ rw k tt | inr k ↦ rw k (later e refl) ]

  entry_inside :
      (f : Frame) (offset : ℕ) (e : Entry)
      → entry_at varint f offset ≡ ok e
      → (8 ≤ e.len) × (offset + e.len ≤ records_end f)
  unfolding entry_at
  entry_inside f offset e h = omega (
    arith,
    parse_entry_inside varint (slice 0 (records_end f) f.bytes) offset e h,
    length-slice-le 0 (records_end f) f.bytes,
  )

  scan_frame-Walked :
      (rounds : ℕ) (f : Frame) (second_end : ℤ) (p : Position) (last : Option (Position × ℕ))
      → p.offset ≤ records_end f
      → records_end f < p.offset + rounds
      → Walked (scan_frame varint rounds f second_end p last)
  unfolding scan_frame
  scan_frame-Walked zero f second_end p last inside enough = absurd (omega (arith, inside, enough))
  scan_frame-Walked (suc rounds) f second_end p last inside enough =
      elim (Bool-cases (ltb p.offset (records_end f))) [
        | inr k ↦ rw k tt
        | inl k ↦ rw k (
            found_entry-Walked f second_end p last (entry_at varint f p.offset)
              (λ entry.
                scan_frame varint rounds f second_end (record p { offset = p.offset + entry.len })
                  (some (p, entry.len)))
              (λ e reads.
                let (some_bytes, ends) = entry_inside f p.offset e reads in
                scan_frame-Walked rounds f second_end (record p { offset = p.offset + e.len })
                  (some (p, e.len)) ends (omega (arith, enough, some_bytes))))
      ]

  after_frame-Searched :
      (h h1 : HourFile) (to : Option FrameId) (scan : FrameScan)
      (rest : FrameId → Option (Position × ℕ) → Result HourError (Option (Position × ℕ) × HourFile))
      → ((at : FrameId) → read_frame h1 at ≡ read_frame h at)
      → Walked scan
      → ((id : FrameId) (last : Option (Position × ℕ)) → to ≡ some id → Searched h (rest id last))
      → Searched h (after_frame varint h1 to scan rest)
  unfolding after_frame
  after_frame-Searched h h1 to (ended last) rest kept walked later = kept
  after_frame-Searched h h1 none (further last) rest kept walked later = kept
  after_frame-Searched h h1 (some id) (further last) rest kept walked later = later id last refl
  after_frame-Searched h h1 to (failed (entry_error e)) rest kept walked later = tt
  after_frame-Searched h h1 to (failed e) rest kept walked later = absurd walked
  after_frame-Searched h h1 to out_of_rounds rest kept walked later = absurd walked

  Searched-kept :
      (h h1 : HourFile) (r : Result HourError (Option (Position × ℕ) × HourFile))
      → ((at : FrameId) → read_frame h1 at ≡ read_frame h at)
      → Searched h1 r
      → Searched h r
  Searched-kept h h1 (ok (found, h')) kept s = λ at. s at ∙ kept at
  Searched-kept h h1 (err (entry_error e)) kept s = tt
  Searched-kept h h1 (err e) kept s = absurd s

  -- What holds at every frame of a chain holds at the one which comes next.
  next_frame :
      (h h1 : HourFile) (v1 v2 : View) (g : FrameId) (r : List ℕ) (to : Option FrameId)
      (id : FrameId)
      → Leads (read_frame h) to v2 none
      → to ≡ some id
      → (P : FrameId → Type 0) → Represents h1 (v1 ++ ((g, r) ∷ v2))
      → ((w1 w2 : View) (k : FrameId) (s : List ℕ)
          → Represents h1 (w1 ++ ((k, s) ∷ w2))
          → length w2 < length v2
          → P k)
      → P id
  next_frame h h1 v1 [] g r to id rest is P repr each = absurd (cc (rest, is))
  next_frame h h1 v1 ((k, s) ∷ v3) g r to id (mid, e, f, rest) is P repr each =
      subst P (some_eq (sym e ∙ is)) (
        each (v1 ++ ((g, r) ∷ [])) v3 k s
          (subst (Represents h1) (sym (append_assoc v1 ((g, r) ∷ []) ((k, s) ∷ v3))) repr)
          (omega arith))

  scan_chain-Searched :
      (rounds : ℕ) (h : HourFile) (v1 v2 : View) (g : FrameId) (r : List ℕ) (i : ℕ) (second_end : ℤ)
      (last : Option (Position × ℕ))
      → Represents h (v1 ++ ((g, r) ∷ v2))
      → i ≤ length r
      → length v2 < rounds
      → Searched h (scan_chain varint rounds h second_end (at_place g i) last)
  unfolding scan_chain
  scan_chain-Searched zero h v1 v2 g r i second_end last repr inside enough =
      absurd (omega (arith, enough))
  scan_chain-Searched (suc rounds) h v1 v2 g r i second_end last repr inside enough =
      let (mid, first, others) =
        Leads-split (read_frame h) (some head) none v1 ((g, r) ∷ v2) repr.leads in
      let (to, e, f, rest) = others in
      let F : Frame = f.frame in
      let (fs, eq, in_memory, kept, keep) = frame_lem h g F f.reads in
      let h1 : HourFile = record h { frames = fs } in
      let ends : records_end F ≡ 11 + length r =
        (unfold records_end in omega (arith, length-records f.valid, ap length f.holds)) in
      rw eq (
        after_frame-Searched h h1 (next F)
          (scan_frame varint (suc (records_end F)) F second_end (at_place g i) last)
          (λ id found.
            scan_chain varint rounds h1 second_end
              (record { frame = id; offset = frame_header_len }) found)
          kept
          (scan_frame-Walked (suc (records_end F)) F second_end (at_place g i) last
            (omega (arith, ends, inside)) (omega (arith, ends)))
          (λ id found next_is.
            Searched-kept h h1
              (scan_chain varint rounds h1 second_end
                (record { frame = id; offset = frame_header_len }) found)
              kept
              (next_frame h h1 v1 v2 g r to id rest (sym f.names ∙ next_is)
                (λ k. Searched h1 (scan_chain varint rounds h1 second_end (at_place k 0) found))
                (Represents-kept h fs (v1 ++ ((g, r) ∷ v2)) kept repr)
                (λ w1 w2 k s repr' shorter.
                  scan_chain-Searched rounds h1 w1 w2 k s 0 second_end found repr' (omega arith)
                    (omega (arith, shorter, enough))))))

  -- The search for the last entry of a second ends: it has a result, in an hour which reads as before,
  -- or the error of an entry which does not read. It does not panic and the chain does not loop.
  pub last_entry_of-Searched :
      (h : HourFile) (v : View) (second : ℕ)
      → Represents h v
      → second < length h.cells.cells
      → Searched h (last_entry_of varint h second)
  unfolding last_entry_of or_panic get
  last_entry_of-Searched h v second repr in_hour =
      let (c, found) = get_inside h.cells.cells second in_hour in
      let second_end : ℤ = wrap (h.hour_start +ℤ wrap (pos ((second + 1) * micros_per_second))) in
      elim (Bool-cases (is_empty c)) [
        | inl k ↦ rw (found, k) (λ at. refl)
        | inr k ↦
            let inside : is_place v (position_of c) ≡ true =
              inside-is_place v c (repr.cells_in second c found k) in
            let s : Split v (position_of c) = Split-at v (position_of c) inside in
            rw (found, k)
              (subst
                (λ p. Searched h (scan_chain varint (suc (frames_count h)) h second_end p none))
                (sym s.is_at)
                (scan_chain-Searched (suc (frames_count h)) h s.front s.rest (position_of c).frame
                  s.bytes s.at second_end none (subst (Represents h) (sym s.joined) repr) s.inside
                  (omega (arith, length-Represents h v repr, length-Split v (position_of c) s))))
      ]
