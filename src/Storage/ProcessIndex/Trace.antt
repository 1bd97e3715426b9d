-- ===== src/Storage/ProcessIndex/Trace.antt =====
-- A trace is told of every second which has events of its process.
use my_telemetry_server.Base.{
  ℕ, ◌<◌, ◌≡◌, refl, sym, ap, subst, ◌∙◌, arith, ltb, ◌==◌, if◌then◌else◌, Bool, true, false, not,
  ◌&&◌, ◌||◌, Option, none, some, List, [], ◌∷◌, any, length, Bool-cases, inl, inr, ◌⊎◌,
}
use my_telemetry_server.Base.Int.{ℤ, eqb_ℤ, eqb_ℤ→eq}
use my_telemetry_server.Storage.Rec.{Rec}
use my_telemetry_server.Storage.ProcessIndex.{
  Pair, ProcessIndex, new, second_of, pair_of, pair_lt, insert_pair, is_second, add_pair, add_pairs,
  add_records, put_second, with_second, with_start_second, in_range, kept_seconds, seconds_of,
}

-- The second is among the seconds.
abbrev pub is_told : ℕ → List ℕ → Bool
is_told second seconds = any (λ s. s == second) seconds

is_told-put_second :
    (s second : ℕ) (ts : List ℕ)
    → is_told second (put_second s ts) ≡ ((s == second) || is_told second ts)
unfolding put_second
is_told-put_second s second [] = refl
is_told-put_second s second (t ∷ ts) = ground (arith, is_told-put_second s second ts)

is_told-with_second :
    (o : Option ℕ) (second : ℕ) (ts : List ℕ)
    → is_told second (with_second o ts) ≡ (is_second o second || is_told second ts)
unfolding with_second is_second
is_told-with_second none second ts = refl
is_told-with_second (some s) second ts = is_told-put_second s second ts

-- The pair is kept.
abbrev has_pair : Pair → List Pair → Bool
has_pair p ps = any (λ q. (q.process == p.process) && (q.second == p.second)) ps

has_pair-insert_pair :
    (p q : Pair) (ps : List Pair)
    → has_pair p (insert_pair q ps)
      ≡ (((q.process == p.process) && (q.second == p.second)) || has_pair p ps)
unfolding insert_pair pair_lt
has_pair-insert_pair p q [] = refl
has_pair-insert_pair p q (r ∷ rs) = ground (arith, has_pair-insert_pair p q rs)

-- A pair of the process which is kept is told of.
kept_seconds_tell :
    (ps : List Pair) (process_id : ℤ) (second : ℕ)
    → second < 3600
    → has_pair (pair_of process_id second) ps ≡ true
    → is_told second (kept_seconds ps process_id) ≡ true
unfolding kept_seconds in_range pair_lt pair_of
kept_seconds_tell [] process_id second h e = e
kept_seconds_tell (p ∷ ps) process_id second h e =
    ground (arith, kept_seconds_tell ps process_id second h)

-- The batches of records added to the index of an hour, each with its second, the first one first.
abbrev pub History : Type 0
History = List (ℕ × List Rec)

unfoldable pub add_all : ProcessIndex → History → ProcessIndex
add_all i [] = i
add_all i (b ∷ bs) = add_all (add_records i b.0 b.1) bs

-- An event of the process was added in the second.
abbrev pub has_event : List Rec → ℤ → Bool
has_event rs process_id = any (λ r. eqb_ℤ r.process_id process_id) rs

abbrev pub had_event : History → ℤ → ℕ → Bool
had_event h process_id second = any (λ b. (b.0 == second) && has_event b.1 process_id) h

or_false : (b : Bool) → b ≡ (b || false)
or_false true = refl
or_false false = refl

or_more : (a b c : Bool) → ((a || b) || c) ≡ (a || (b || c))
or_more true b c = refl
or_more false b c = refl

module _ (hour_start process_id : ℤ) (second : ℕ) where
  -- A trace of the process reads the second: it is the one the id names, or it is kept.
  is_read : List Pair → Bool
  is_read ps =
      is_second (second_of hour_start process_id) second || has_pair (pair_of process_id second) ps

  add_pair_keeps :
      (at : ℕ) (ps : List Pair) (r : Rec)
      → is_read ps ≡ true
      → is_read (add_pair hour_start at ps r) ≡ true
  unfolding is_read add_pair
  add_pair_keeps at ps r h =
      ground (arith, has_pair-insert_pair (pair_of process_id second) (pair_of r.process_id at) ps)

  add_pairs_keeps :
      (at : ℕ) (rs : List Rec) (ps : List Pair)
      → is_read ps ≡ true
      → is_read (add_pairs hour_start at ps rs) ≡ true
  unfolding add_pairs
  add_pairs_keeps at [] ps h = h
  add_pairs_keeps at (r ∷ rs) ps h =
      add_pairs_keeps at rs (add_pair hour_start at ps r) (add_pair_keeps at ps r h)

  add_pair-Reads :
      (ps : List Pair) (r : Rec)
      → r.process_id ≡ process_id
      → is_read (add_pair hour_start second ps r) ≡ true
  unfolding is_read add_pair
  add_pair-Reads ps r e =
      subst
        (λ id.
          (is_second (second_of hour_start id) second
            || has_pair (pair_of id second) (
                if not (is_second (second_of hour_start r.process_id) second)
                then insert_pair (pair_of r.process_id second) ps
                else ps))
          ≡ true)
        e
        (ground (
          arith,
          has_pair-insert_pair (pair_of r.process_id second) (pair_of r.process_id second) ps,
        ))

  add_pairs-Reads :
      (rs : List Rec) (ps : List Pair)
      → has_event rs process_id ≡ true
      → is_read (add_pairs hour_start second ps rs) ≡ true
  unfolding add_pairs
  add_pairs-Reads [] ps h = absurd (cc (h))
  add_pairs-Reads (r ∷ rs) ps h = elim (Bool-cases (eqb_ℤ r.process_id process_id)) [
    | inl e ↦
        add_pairs_keeps second rs (add_pair hour_start second ps r)
          (add_pair-Reads ps r (eqb_ℤ→eq r.process_id process_id e))
    | inr e ↦ add_pairs-Reads rs (add_pair hour_start second ps r) (ground (arith, e))
  ]

  -- The index is let go, or it is of the hour and a trace which has to read the second does.
  Reads : ProcessIndex → Bool → Type 0
  Reads i had =
      (i.let_go ≡ true) ⊎ ((i.hour_start ≡ hour_start) × ((had ≡ true) → is_read i.pairs ≡ true))

  add_records_gone :
      (i : ProcessIndex) (at : ℕ) (rs : List Rec)
      → i.let_go ≡ true
      → (add_records i at rs).let_go ≡ true
  unfolding add_records
  add_records_gone i at rs h = rw h refl

  add_records_over :
      (i : ProcessIndex) (at : ℕ) (rs : List Rec)
      → i.let_go ≡ false
      → ltb i.max_pairs (length (add_pairs i.hour_start at i.pairs rs)) ≡ true
      → (add_records i at rs).let_go ≡ true
  unfolding add_records
  add_records_over i at rs h o = rw (h, o) refl

  add_records_kept :
      (i : ProcessIndex) (at : ℕ) (rs : List Rec)
      → i.let_go ≡ false
      → ltb i.max_pairs (length (add_pairs i.hour_start at i.pairs rs)) ≡ false
      → ((add_records i at rs).hour_start ≡ i.hour_start)
        × ((add_records i at rs).pairs ≡ add_pairs i.hour_start at i.pairs rs)
  unfolding add_records
  add_records_kept i at rs h o = rw (h, o) (refl, refl)

  batch-Reads :
      (at : ℕ) (rs : List Rec) (ps : List Pair) (had : Bool)
      → ((had ≡ true) → is_read ps ≡ true)
      → (had || ((at == second) && has_event rs process_id)) ≡ true
      → is_read (add_pairs hour_start at ps rs) ≡ true
  batch-Reads at rs ps had h e = elim (Bool-cases had) [
    | inl before ↦ add_pairs_keeps at rs ps (h before)
    | inr not_before ↦
        let same : at ≡ second = ground (arith, not_before, e) in
        let event : has_event rs process_id ≡ true = ground (arith, not_before, e) in
        subst (λ s. is_read (add_pairs hour_start s ps rs) ≡ true) (sym same)
          (add_pairs-Reads rs ps event)
  ]

  add_records-Reads :
      (i : ProcessIndex) (at : ℕ) (rs : List Rec) (had : Bool)
      → Reads i had
      → Reads (add_records i at rs) (had || ((at == second) && has_event rs process_id))
  unfolding Reads
  add_records-Reads i at rs had (inl gone) = inl (add_records_gone i at rs gone)
  add_records-Reads i at rs had (inr (same, h)) = elim (Bool-cases i.let_go) [
    | inl gone ↦ inl (add_records_gone i at rs gone)
    | inr on ↦ elim (Bool-cases (ltb i.max_pairs (length (add_pairs i.hour_start at i.pairs rs)))) [
      | inl over ↦ inl (add_records_over i at rs on over)
      | inr within ↦
          let (hour, pairs) = add_records_kept i at rs on within in
          inr (
            hour ∙ same,
            λ e.
                ap is_read (pairs ∙ ap (λ x. add_pairs x at i.pairs rs) same)
                ∙ batch-Reads at rs i.pairs had h e,
          )
    ]
  ]

  add_all-Reads :
      (h : History) (i : ProcessIndex) (had : Bool)
      → Reads i had
      → Reads (add_all i h) (had || had_event h process_id second)
  unfolding add_all
  add_all-Reads [] i had k = subst (Reads i) (or_false had) k
  add_all-Reads (b ∷ bs) i had k =
      subst (Reads (add_all (add_records i b.0 b.1) bs))
        (or_more had ((b.0 == second) && has_event b.1 process_id) (had_event bs process_id second))
        (add_all-Reads bs (add_records i b.0 b.1)
          (had || ((b.0 == second) && has_event b.1 process_id))
          (add_records-Reads i b.0 b.1 had k))

  gone_says_nothing : (i : ProcessIndex) → i.let_go ≡ true → seconds_of i process_id ≡ none
  unfolding seconds_of
  gone_says_nothing i h = rw h refl

  says_seconds :
      (i : ProcessIndex)
      → i.let_go ≡ false
      → seconds_of i process_id
        ≡ some (with_start_second i.hour_start process_id (kept_seconds i.pairs process_id))
  unfolding seconds_of
  says_seconds i h = rw h refl

  told_of :
      (ps : List Pair)
      → second < 3600
      → is_read ps ≡ true
      → is_told second (with_start_second hour_start process_id (kept_seconds ps process_id)) ≡ true
  unfolding with_start_second is_read
  told_of ps h e =
      is_told-with_second (second_of hour_start process_id) second (kept_seconds ps process_id)
      ∙ ground (arith, e, kept_seconds_tell ps process_id second h)

  start-Reads : Reads (new hour_start) false
  unfolding Reads
  start-Reads = inr (refl, λ e. absurd (cc (e)))

  all_read : (h : History) → Reads (add_all (new hour_start) h) (had_event h process_id second)
  all_read h = add_all-Reads h (new hour_start) false start-Reads

-- Whatever was added to the process index of an hour, a trace which is told of seconds is told of
-- each second in which an event of its process was added.
pub traces_cover :
    (h : History) (hour_start process_id : ℤ) (second : ℕ) (seconds : List ℕ)
    → second < 3600
    → had_event h process_id second ≡ true
    → seconds_of (add_all (new hour_start) h) process_id ≡ some seconds
    → is_told second seconds ≡ true
unfolding Reads
traces_cover h hour_start process_id second seconds inside had says =
    let i : ProcessIndex = add_all (new hour_start) h in
    elim (Bool-cases i.let_go) [
      | inl gone ↦ absurd (cc (says, gone_says_nothing hour_start process_id second i gone))
      | inr on ↦ elim (all_read hour_start process_id second h) [
        | inl gone ↦ absurd (cc (on, gone))
        | inr (same, reads) ↦
            let told : is_told second
                  (with_start_second i.hour_start process_id (kept_seconds i.pairs process_id))
                ≡ true =
              ap
                (λ x.
                  is_told second (with_start_second x process_id (kept_seconds i.pairs process_id)))
                same
              ∙ told_of hour_start process_id second i.pairs inside (reads had) in
            let it : with_start_second i.hour_start process_id (kept_seconds i.pairs process_id)
                ≡ seconds =
              cc (says, says_seconds hour_start process_id second i on) in
            subst (λ x. is_told second x ≡ true) it told
      ]
    ]
