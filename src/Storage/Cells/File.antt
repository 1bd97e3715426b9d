-- ===== src/Storage/Cells/File.antt =====
-- The index file of an hour reads back, and only when it is whole and clean.
use my_telemetry_server.Base.{
  ℕ, ◌+◌, ◌*◌, ◌%◌, ◌^◌, ◌<◌, ◌≡◌, ◌≢◌, refl, sym, ap, ap₂, ◌∙◌, arith, ◌⊎◌, inl, inr, ◌==◌, not,
  none, some, List, [], ◌∷◌, ◌++◌, map, length, take, slice, splice, splice-append, subst, ne→==,
  or-true, All, append-nil, append_assoc, length-append, drop-append, take-append, slice-append,
}
use my_telemetry_server.Base.Bytes.{
  to_le_bytes, from_le_bytes, length-to_le_bytes, from_le_bytes-to_le_bytes,
}
use my_telemetry_server.Storage.Frame.{frame_len}
use my_telemetry_server.Storage.Cells.{
  Cell, HourCells, seconds_per_hour, cell_len, cells_len, no_offset, index_file_len,
  index_state_offset, index_dirty, index_clean, empty_cell, is_empty, to_file_offset,
  from_file_offset, cell_bytes, cells_bytes, to_index_file, chunks, cell_of, count_of, state_of,
  from_index_file,
}

-- The entry of a cell starts inside a frame which starts at a multiple of its length, and not in
-- the last byte a file can have.
pub record IsPlaced (c : Cell) : Type 0 where
  pub file_is_byte : c.frame.file < 256
  pub aligned : c.frame.offset % frame_len ≡ 0
  pub inside : c.offset < frame_len
  pub in_file : c.frame.offset + c.offset < no_offset

abbrev pub IsCell : Cell → Type 0
IsCell c = (c ≡ empty_cell) ⊎ IsPlaced c

abbrev pub IsU32 : ℕ → Type 0
IsU32 n = n < 2 ^ 32

pub record IsValid (h : HourCells) : Type 0 where
  pub cells_count : length h.cells ≡ seconds_per_hour
  pub counts_count : length h.counts ≡ seconds_per_hour
  pub cells_valid : All IsCell h.cells
  pub counts_valid : All IsU32 h.counts

-- A cell and what its two numbers in the file stand for.
pub from_file_offset-to_file_offset :
    (c : Cell) → IsCell c → from_file_offset (to_file_offset c).0 (to_file_offset c).1 ≡ c
unfolding from_file_offset to_file_offset is_empty
from_file_offset-to_file_offset c (inl e) = rw e
from_file_offset-to_file_offset c (inr p) = ground arith

to_file_offset_bounds :
    (c : Cell) → IsCell c → ((to_file_offset c).0 < 256) × ((to_file_offset c).1 < 2 ^ 32)
unfolding to_file_offset is_empty
to_file_offset_bounds c (inl e) = rw e (omega arith)
to_file_offset_bounds c (inr p) = ground arith

length-cell_bytes : (c : Cell) (n : ℕ) → length (cell_bytes c n) ≡ 9
unfolding cell_bytes
length-cell_bytes c n = omega (
  arith,
  length-append (to_le_bytes 4 (to_file_offset c).1) (to_le_bytes 4 n),
  length-to_le_bytes 4 (to_file_offset c).1,
  length-to_le_bytes 4 n,
)

cell_of-cell_bytes : (c : Cell) (n : ℕ) → IsCell c → cell_of (cell_bytes c n) ≡ c
unfolding cell_of cell_bytes
cell_of-cell_bytes c n h =
    ap₂ (λ a b. from_file_offset (from_le_bytes a) (from_le_bytes b)) file_is offset_is
    ∙ ap₂ from_file_offset file_back (from_le_bytes-to_le_bytes 4 (to_file_offset c).1 bounds.1)
    ∙ from_file_offset-to_file_offset c h
  where
    bounds : ((to_file_offset c).0 < 256) × ((to_file_offset c).1 < 2 ^ 32)
    bounds = to_file_offset_bounds c h

    file_is : slice 0 1 (cell_bytes c n) ≡ (to_file_offset c).0 ∷ []
    file_is =
        slice-append 0 1 [] ((to_file_offset c).0 ∷ [])
          (to_le_bytes 4 (to_file_offset c).1 ++ to_le_bytes 4 n) refl refl

    offset_is : slice 1 5 (cell_bytes c n) ≡ to_le_bytes 4 (to_file_offset c).1
    offset_is =
        slice-append 1 5 ((to_file_offset c).0 ∷ []) (to_le_bytes 4 (to_file_offset c).1)
          (to_le_bytes 4 n) refl (omega (arith, length-to_le_bytes 4 (to_file_offset c).1))

    file_back : from_le_bytes ((to_file_offset c).0 ∷ []) ≡ (to_file_offset c).0
    file_back = unfold from_le_bytes in omega arith

count_of-cell_bytes : (c : Cell) (n : ℕ) → IsU32 n → count_of (cell_bytes c n) ≡ n
unfolding count_of cell_bytes
count_of-cell_bytes c n h =
    ap (λ w. from_le_bytes (slice 5 9 w))
      (sym (
          append_assoc ((to_file_offset c).0 ∷ []) (to_le_bytes 4 (to_file_offset c).1)
            (to_le_bytes 4 n))
        ∙ ap (λ w. ((to_file_offset c).0 ∷ to_le_bytes 4 (to_file_offset c).1) ++ w)
            (sym (append-nil (to_le_bytes 4 n))))
    ∙ ap from_le_bytes (
        slice-append 5 9 ((to_file_offset c).0 ∷ to_le_bytes 4 (to_file_offset c).1)
          (to_le_bytes 4 n) [] (omega (arith, length-to_le_bytes 4 (to_file_offset c).1))
          (omega (arith, length-to_le_bytes 4 (to_file_offset c).1, length-to_le_bytes 4 n)))
    ∙ from_le_bytes-to_le_bytes 4 n h

length-cells_bytes :
    (cs : List Cell) (ns : List ℕ)
    → length cs ≡ length ns
    → length (cells_bytes cs ns) ≡ length cs * cell_len
unfolding cells_bytes
length-cells_bytes [] [] e = omega arith
length-cells_bytes [] (n ∷ ns) e = absurd (omega arith)
length-cells_bytes (c ∷ cs) [] e = absurd (omega arith)
length-cells_bytes (c ∷ cs) (n ∷ ns) e = omega (
  arith,
  length-append (cell_bytes c n) (cells_bytes cs ns),
  length-cell_bytes c n,
  length-cells_bytes cs ns (omega arith),
)

-- The chunks of what was written are the bytes of the cells.
chunks-cells_bytes :
    (cs : List Cell) (ns : List ℕ)
    → length cs ≡ length ns
    → All IsCell cs
    → All IsU32 ns
    → (map cell_of (chunks (length cs) (cells_bytes cs ns)) ≡ cs)
      × (map count_of (chunks (length cs) (cells_bytes cs ns)) ≡ ns)
unfolding chunks cells_bytes
chunks-cells_bytes [] [] e hc hn = (refl, refl)
chunks-cells_bytes [] (n ∷ ns) e hc hn = absurd (omega arith)
chunks-cells_bytes (c ∷ cs) [] e hc hn = absurd (omega arith)
chunks-cells_bytes (c ∷ cs) (n ∷ ns) e (hc, hcs) (hn, hns) =
    let (ih_cells, ih_counts) = chunks-cells_bytes cs ns (omega arith) hcs hns in
    rw
      (
        take-append 9 (cell_bytes c n) (cells_bytes cs ns) (sym (length-cell_bytes c n)),
        drop-append 9 (cell_bytes c n) (cells_bytes cs ns) (sym (length-cell_bytes c n)),
      )
      (
        ap₂ (λ x xs. x ∷ xs) (cell_of-cell_bytes c n hc) ih_cells,
        ap₂ (λ x xs. x ∷ xs) (count_of-cell_bytes c n hn) ih_counts,
      )

-- What is written of an hour is a file of the length of an index.
pub length-to_index_file : (h : HourCells) → IsValid h → length (to_index_file h) ≡ index_file_len
unfolding to_index_file
length-to_index_file h v = omega (
  arith,
  v.cells_count,
  v.counts_count,
  length-append (cells_bytes h.cells h.counts) (index_clean ∷ []),
  length-cells_bytes h.cells h.counts (v.cells_count ∙ sym v.counts_count),
)

-- Reading a file whose last byte is known.
module _ (front : List ℕ) (state : ℕ) (len : length front ≡ cells_len) where
  state_of_file : state_of (front ++ (state ∷ [])) ≡ state
  unfolding state_of
  state_of_file =
      ap from_le_bytes (
        slice-append cells_len (cells_len + 1) front (state ∷ []) [] (sym len) (omega (arith, len)))
      ∙ (unfold from_le_bytes in omega arith)

  front_of_file : take cells_len (front ++ (state ∷ [])) ≡ front
  front_of_file = take-append cells_len front (state ∷ []) (sym len)

  length_of_file : length (front ++ (state ∷ [])) ≡ index_file_len
  length_of_file = omega (arith, len, length-append front (state ∷ []))

-- The index of an hour is read back from its file as it was.
pub from_index_file-to_index_file :
    (h : HourCells) → IsValid h → from_index_file (to_index_file h) ≡ some h
unfolding from_index_file to_index_file
from_index_file-to_index_file h v =
    rw (length_of_file front index_clean len, state_of_file front index_clean len)
      (rw (front_of_file front index_clean len)
        (ap₂ (λ cs ns. some (record { cells = cs; counts = ns })) back.0 back.1))
  where
    front : List ℕ
    front = cells_bytes h.cells h.counts

    len : length front ≡ cells_len
    len = omega (
      arith,
      v.cells_count,
      length-cells_bytes h.cells h.counts (v.cells_count ∙ sym v.counts_count),
    )

    back :
        (map cell_of (chunks seconds_per_hour front) ≡ h.cells)
        × (map count_of (chunks seconds_per_hour front) ≡ h.counts)
    back =
        subst
          (λ k.
            (map cell_of (chunks k front) ≡ h.cells) × (map count_of (chunks k front) ≡ h.counts))
          v.cells_count
          (chunks-cells_bytes h.cells h.counts (v.cells_count ∙ sym v.counts_count) v.cells_valid
            v.counts_valid)

-- A file which is not as long as an index, or whose mark is not the clean one, is no index.
pub from_index_file_refuses :
    (bytes : List ℕ)
    → (length bytes ≢ index_file_len) ⊎ (state_of bytes ≢ index_clean)
    → from_index_file bytes ≡ none
unfolding from_index_file
from_index_file_refuses bytes (inl h) = rw (ne→== (length bytes) index_file_len h)
from_index_file_refuses bytes (inr h) =
    rw (ne→== (state_of bytes) index_clean h) (rw (or-true (not (length bytes == index_file_len))))

-- An index marked dirty, as a flush does before it writes a frame, is no index.
pub from_index_file-dirty :
    (h : HourCells)
    → IsValid h
    → from_index_file (splice index_state_offset (index_dirty ∷ []) (to_index_file h)) ≡ none
unfolding to_index_file
from_index_file-dirty h v =
    ap from_index_file (
      splice-append index_state_offset (index_dirty ∷ []) front (index_clean ∷ []) [] (sym len)
        refl)
    ∙ from_index_file_refuses (front ++ (index_dirty ∷ []))
        (inr (λ e. absurd (omega (arith, state_of_file front index_dirty len, e))))
  where
    front : List ℕ
    front = cells_bytes h.cells h.counts

    len : length front ≡ cells_len
    len = omega (
      arith,
      v.cells_count,
      length-cells_bytes h.cells h.counts (v.cells_count ∙ sym v.counts_count),
    )
