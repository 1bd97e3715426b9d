-- ===== src/Storage/HourFile/View.antt =====
-- The chain of frames of an hour as one sequence of bytes, and the place of a cell in it: what the
-- inserts of hour_file.rs are to do to it.
use my_telemetry_server.Base.{
  ℕ, ◌+◌, ◌-◌, ◌≤◌, ◌<◌, ◌≡◌, sym, ap, ◌∙◌, arith, leb, ltb, if◌then◌else◌, Bool, true, false, ◌&&◌,
  List, [], ◌∷◌, ◌++◌, length, take, drop, Bool-cases, inl, inr, append_assoc, length-append,
  length-take, length-drop, take-append_right, drop-append_right, take-append_left,
  drop-append_left,
}
use my_telemetry_server.Storage.Frame.{FrameId, frame_header_len, same_frame}
use my_telemetry_server.Storage.Cells.{Cell}

-- The frames of a chain: their ids and the bytes of their entries.
abbrev pub View : Type 0
View = List (FrameId × List ℕ)

-- The bytes of the entries of the chain, one frame after another.
abbrev pub flat : View → List ℕ
flat [] = []
flat ((id, r) ∷ v) = r ++ flat v

-- Where in those bytes an offset of a frame is.
unfoldable pub place_of : View → FrameId → ℕ → ℕ
place_of [] id offset = 0
place_of ((g, r) ∷ v) id offset =
    if same_frame g id then offset - frame_header_len else length r + place_of v id offset

-- The cell is at an entry of a frame of the chain.
unfoldable pub is_inside : View → FrameId → ℕ → Bool
is_inside [] id offset = false
is_inside ((g, r) ∷ v) id offset =
    if same_frame g id
    then leb frame_header_len offset && ltb offset (frame_header_len + length r)
    else is_inside v id offset

unfoldable pub has_frame : View → FrameId → Bool
has_frame [] id = false
has_frame ((g, r) ∷ v) id = if same_frame g id then true else has_frame v id

-- A place after `n` bytes were put in at `p`.
unfoldable pub shifted : ℕ → ℕ → ℕ → ℕ
shifted p n q = if leb p q then q + n else q

-- A list with `e` put in at `i`.
unfoldable pub put_at : ℕ → List ℕ → List ℕ → List ℕ
put_at i e r = take i r ++ (e ++ drop i r)

pub length-put_at :
    (i : ℕ) (e r : List ℕ) → i ≤ length r → length (put_at i e r) ≡ length r + length e
unfolding put_at
length-put_at i e r h = omega (
  arith,
  length-append (take i r) (e ++ drop i r),
  length-append e (drop i r),
  length-take i r,
  length-drop i r,
)

pub put_at-append_left :
    (i : ℕ) (e r s : List ℕ) → i ≤ length r → put_at i e r ++ s ≡ put_at i e (r ++ s)
unfolding put_at
put_at-append_left i e r s h =
    append_assoc (take i r) (e ++ drop i r) s
    ∙ ap (λ l. take i r ++ l) (append_assoc e (drop i r) s)
    ∙ ap (λ l. l ++ (e ++ (drop i r ++ s))) (sym (take-append_left i r s h))
    ∙ ap (λ l. take i (r ++ s) ++ (e ++ l)) (sym (drop-append_left i r s h))

pub put_at-append_right :
    (i : ℕ) (e r s : List ℕ) → r ++ put_at i e s ≡ put_at (length r + i) e (r ++ s)
unfolding put_at
put_at-append_right i e r s =
    sym (append_assoc r (take i s) (e ++ drop i s))
    ∙ ap (λ l. l ++ (e ++ drop i s)) (sym (take-append_right i r s))
    ∙ ap (λ l. take (length r + i) (r ++ s) ++ (e ++ l)) (sym (drop-append_right i r s))

-- `w` is `v` with `entry` put in at `p`, and `m` takes each cell of `v` to its place in `w`.
pub record Inserted (v : View) (entry : List ℕ) (p : ℕ) (m : Cell → Cell) (w : View) : Type 0 where
  pub inside : p ≤ length (flat v)
  pub flat_is : flat w ≡ put_at p entry (flat v)
  pub cells_are :
      (c : Cell)
      → is_inside v c.frame c.offset ≡ true
      → (is_inside w (m c).frame (m c).offset ≡ true)
        × (place_of w (m c).frame (m c).offset
            ≡ shifted p (length entry) (place_of v c.frame c.offset))

pub same_frame→eq : (a b : FrameId) → same_frame a b ≡ true → a ≡ b
unfolding same_frame
same_frame→eq a b h = ground arith

pub same_frame_refl : (a : FrameId) → same_frame a a ≡ true
unfolding same_frame
same_frame_refl a = ground arith

pub same_frame_sym : (a b : FrameId) → same_frame a b ≡ same_frame b a
unfolding same_frame
same_frame_sym a b = ground arith

pub same_frame_trans :
    (a b c : FrameId) → same_frame a b ≡ true → same_frame b c ≡ true → same_frame a c ≡ true
unfolding same_frame
same_frame_trans a b c h k = ground arith

-- What is said of a cell of the first frame, and of another one.
pub inside_first :
    (g id : FrameId) (r : List ℕ) (v : View) (offset : ℕ)
    → same_frame g id ≡ true
    → frame_header_len ≤ offset
    → offset < frame_header_len + length r
    → is_inside ((g, r) ∷ v) id offset ≡ true
unfolding is_inside
inside_first g id r v offset e lo hi = rw e (ground arith)

pub bounds_first :
    (g id : FrameId) (r : List ℕ) (v : View) (offset : ℕ)
    → same_frame g id ≡ true
    → is_inside ((g, r) ∷ v) id offset ≡ true
    → (frame_header_len ≤ offset) × (offset < frame_header_len + length r)
unfolding is_inside
bounds_first g id r v offset e h = ground (arith, e, h)

pub place_first :
    (g id : FrameId) (r : List ℕ) (v : View) (offset : ℕ)
    → same_frame g id ≡ true
    → place_of ((g, r) ∷ v) id offset ≡ offset - frame_header_len
unfolding place_of
place_first g id r v offset e = rw e

pub inside_later :
    (g id : FrameId) (r : List ℕ) (v : View) (offset : ℕ)
    → same_frame g id ≡ false
    → is_inside ((g, r) ∷ v) id offset ≡ is_inside v id offset
unfolding is_inside
inside_later g id r v offset e = rw e

pub place_later :
    (g id : FrameId) (r : List ℕ) (v : View) (offset : ℕ)
    → same_frame g id ≡ false
    → place_of ((g, r) ∷ v) id offset ≡ length r + place_of v id offset
unfolding place_of
place_later g id r v offset e = rw e

pub has_frame_self : (id : FrameId) (r : List ℕ) (v : View) → has_frame ((id, r) ∷ v) id ≡ true
unfolding has_frame
has_frame_self id r v = rw (same_frame_refl id)

pub has_frame_more :
    (id g : FrameId) (r : List ℕ) (v : View)
    → has_frame v id ≡ true
    → has_frame ((g, r) ∷ v) id ≡ true
unfolding has_frame
has_frame_more id g r v h = ground (arith, h)

pub inside-has_frame :
    (v : View) (id : FrameId) (offset : ℕ) → is_inside v id offset ≡ true → has_frame v id ≡ true
unfolding is_inside has_frame
inside-has_frame [] id offset h = h
inside-has_frame ((g, r) ∷ v) id offset h = ground (arith, h, inside-has_frame v id offset)

-- No cell of the chain is at a frame which is not of it.
pub apart_of_inside :
    (v : View) (to id : FrameId) (offset : ℕ)
    → has_frame v to ≡ false
    → is_inside v id offset ≡ true
    → same_frame to id ≡ false
apart_of_inside v to id offset absent h = elim (Bool-cases (same_frame to id)) [
  | inl e ↦ cc (ap (has_frame v) (same_frame→eq to id e), inside-has_frame v id offset h, absent)
  | inr e ↦ e
]

pub shifted_up : (p n q : ℕ) → p ≤ q → shifted p n q ≡ q + n
unfolding shifted
shifted_up p n q h = ground arith

pub shifted_stays : (p n q : ℕ) → q < p → shifted p n q ≡ q
unfolding shifted
shifted_stays p n q h = ground arith

-- A frame at the front which neither the entry nor a moved cell goes into.
pub Inserted-cons :
    (g : FrameId) (r : List ℕ) {v w : View} {entry : List ℕ} {p : ℕ} {m : Cell → Cell}
    → ((c : Cell) → same_frame g c.frame ≡ true → m c ≡ c)
    → ((c : Cell)
        → same_frame g c.frame ≡ false
        → is_inside v c.frame c.offset ≡ true
        → same_frame g (m c).frame ≡ false)
    → Inserted v entry p m w
    → Inserted ((g, r) ∷ v) entry (length r + p) m ((g, r) ∷ w)
Inserted-cons g r {v} {w} {entry} {p} {m} stays leaves i = record {
  inside = omega (arith, i.inside, length-append r (flat v));
  flat_is = ap (λ l. r ++ l) i.flat_is ∙ put_at-append_right p entry r (flat v);
  cells_are = λ c h. elim (Bool-cases (same_frame g c.frame)) [
    | inl e ↦
        let k : is_inside ((g, r) ∷ v) c.frame c.offset ≡ true = h in
        rw (stays c e) (unfold is_inside place_of shifted in ground (arith, e, k))
    | inr e ↦
        let k : is_inside v c.frame c.offset ≡ true = (unfold is_inside in ground (arith, e, h)) in
        let (j, at) = i.cells_are c k in
        (
          unfold is_inside in rw (leaves c e k) j,
          unfold place_of in rw (leaves c e k, e, at) (unfold shifted in ground arith),
        )
  ];
}

-- Of two functions which agree on the cells of the chain either will do.
pub Inserted-ext :
    {v w : View} {entry : List ℕ} {p : ℕ} (m m' : Cell → Cell)
    → ((c : Cell) → is_inside v c.frame c.offset ≡ true → m' c ≡ m c)
    → Inserted v entry p m w
    → Inserted v entry p m' w
Inserted-ext {v} {w} m m' same i = record {
  inside = i.inside;
  flat_is = i.flat_is;
  cells_are = λ c h. rw (same c h) (i.cells_are c h);
}

-- `w` has the bytes of `v`, and `m` takes each cell to its place in it.
pub record Same (v : View) (m : Cell → Cell) (w : View) : Type 0 where
  pub flat_is : flat w ≡ flat v
  pub cells_are :
      (c : Cell)
      → is_inside v c.frame c.offset ≡ true
      → (is_inside w (m c).frame (m c).offset ≡ true)
        × (place_of w (m c).frame (m c).offset ≡ place_of v c.frame c.offset)

pub Inserted-Same :
    {v w x : View} {entry : List ℕ} {p : ℕ} (m m' : Cell → Cell)
    → Inserted v entry p m w
    → Same w m' x
    → Inserted v entry p (λ c. m' (m c)) x
Inserted-Same m m' i s = record {
  inside = i.inside;
  flat_is = s.flat_is ∙ i.flat_is;
  cells_are = λ c h.
      let (inside, at) = i.cells_are c h in
      let (inside', at') = s.cells_are (m c) inside in (inside', at' ∙ at);
}
