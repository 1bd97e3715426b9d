-- ===== src/Tests/Hours.antt =====
-- The theorems on the index of an hour and on the stages of an hour, at concrete hours.
use my_telemetry_server.Base.{
  ℕ, zero, suc, ◌+◌, ◌*◌, ◌≤◌, ◌≡◌, refl, ap, arith, inl, inr, max, true, false, none, some, [],
  ◌∷◌, length, splice, replicate, All, length-replicate,
}
use my_telemetry_server.Base.Int.{ℤ, pos, negsuc, ◌≤ℤ◌, ◌<ℤ◌, ◌+ℤ◌, rem_euclid, int_laws}
use my_telemetry_server.Storage.Cells.{
  Cell, HourCells, empty_cell, to_file_offset, from_file_offset, to_index_file, from_index_file,
  index_file_len, index_dirty, index_state_offset, first_from, last, is_empty, get,
}
use my_telemetry_server.Storage.Cells.File.{
  IsCell, IsU32, IsValid, from_file_offset-to_file_offset, length-to_index_file,
  from_index_file-to_index_file, from_index_file_refuses, from_index_file-dirty,
}
use my_telemetry_server.Storage.Cells.Search.{first_from-finds, last-finds}
use my_telemetry_server.Storage.Retention.{
  Calendar, hour_micros, hour_start_of, is_to_upload, is_to_delete_locally, hour_key_of,
  hour_start_of_key,
}
use my_telemetry_server.Storage.Retention.Hours.{
  HasHour, IsHourStart, hour_start_of_bounds, hour_start_of_greatest,
}
use my_telemetry_server.Storage.Retention.Stages.{stages_of_hour, is_to_upload_short}
use my_telemetry_server.Storage.Retention.Keys.{ReadsBack, hour_start_of_key-hour_key_of}
use mathlib.Core.Logic.{◌↔◌}

placed : Cell
placed = record { frame = record { file = 0; offset = 65536 }; offset = 11 }

placed-IsCell : IsCell placed
unfolding placed
placed-IsCell = inr (record {
  file_is_byte = omega arith;
  aligned = omega arith;
  inside = omega arith;
  in_file = omega arith;
})

All-replicate {ℓ} : {A : Type ℓ} (P : A → Type 0) (n : ℕ) (a : A) → P a → All P (replicate n a)
unfolding replicate
All-replicate P zero a p = record {}
All-replicate P (suc n) a p = (p, All-replicate P n a p)

busy : HourCells
busy = record { cells = placed ∷ replicate 3599 empty_cell; counts = 2 ∷ replicate 3599 0 }

busy-IsValid : IsValid busy
unfolding busy
busy-IsValid = record {
  cells_count = omega (arith, length-replicate 3599 empty_cell);
  counts_count = omega (arith, length-replicate {A = ℕ} 3599 0);
  cells_valid = (placed-IsCell, All-replicate IsCell 3599 empty_cell (inl refl));
  counts_valid = (omega arith, All-replicate IsU32 3599 0 (omega arith));
}

from_file_offset-to_file_offset_example :
    from_file_offset (to_file_offset placed).0 (to_file_offset placed).1 ≡ placed
from_file_offset-to_file_offset_example = from_file_offset-to_file_offset placed placed-IsCell

length-to_index_file_example : length (to_index_file busy) ≡ index_file_len
length-to_index_file_example = length-to_index_file busy busy-IsValid

from_index_file-to_index_file_example : from_index_file (to_index_file busy) ≡ some busy
from_index_file-to_index_file_example = from_index_file-to_index_file busy busy-IsValid

from_index_file_refuses_example : from_index_file (1 ∷ 2 ∷ []) ≡ none
from_index_file_refuses_example =
    from_index_file_refuses (1 ∷ 2 ∷ []) (inl (λ e. absurd (omega (arith, e))))

from_index_file-dirty_example :
    from_index_file (splice index_state_offset (index_dirty ∷ []) (to_index_file busy)) ≡ none
from_index_file-dirty_example = from_index_file-dirty busy busy-IsValid

-- 1970-01-01 05:00 and 05:12:13.
five : ℤ
five = pos (5 * hour_micros)

past_five : ℤ
past_five = pos (5 * hour_micros + 733000000)

hour_start_of_bounds_example :
    IsHourStart (hour_start_of past_five)
    × (hour_start_of past_five ≤ℤ past_five)
    × (past_five <ℤ hour_start_of past_five +ℤ pos hour_micros)
hour_start_of_bounds_example = hour_start_of_bounds past_five (unfold past_five in omega arith)

hour_start_of_greatest_example : five ≤ℤ hour_start_of past_five
hour_start_of_greatest_example =
    hour_start_of_greatest past_five five (unfold past_five in omega arith) five_starts
      (unfold past_five five in omega arith)
  where
    five_starts : IsHourStart five
    five_starts = unfold five rem_euclid in omega arith

stages_of_hour_example :
    ((is_to_upload five past_five 72 ≡ true) ↔ (
      (five +ℤ pos (3 * hour_micros) ≤ℤ past_five) × (past_five <ℤ five +ℤ pos (72 * hour_micros))))
    × ((is_to_delete_locally five past_five 72 true ≡ true)
        ↔ (five +ℤ pos (max 3 72 * hour_micros) ≤ℤ past_five))
    × ((is_to_delete_locally five past_five 72 false ≡ true)
        ↔ (five +ℤ pos (3 * hour_micros) ≤ℤ past_five))
stages_of_hour_example =
    stages_of_hour five past_five 72 (unfold five rem_euclid in omega arith)
      (unfold five in omega arith) (unfold past_five in omega arith) (omega arith)

is_to_upload_short_example : is_to_upload five past_five 3 ≡ false
is_to_upload_short_example =
    is_to_upload_short five past_five 3 (unfold five rem_euclid in omega arith)
      (unfold five in omega arith) (unfold past_five in omega arith) (omega arith)

-- A calendar which reads any number as the start of its hour, up to the tenth: the start is the key.
any_time : Calendar
any_time = record { of_time = λ t. t; try_to_date_time = λ k. some (hour_start_of k) }

before_the_tenth : (h : ℤ) → pos 0 ≤ℤ h → h ≤ℤ pos (10 * hour_micros) → HasHour h
before_the_tenth (pos n) lo hi = omega (int_laws, hi)
before_the_tenth (negsuc n) lo hi = absurd (omega (int_laws, lo))

any_time-ReadsBack : ReadsBack any_time (10 * hour_micros)
unfolding any_time
any_time-ReadsBack h start lo hi = ap (λ t. some t) same
  where
    has : HasHour h
    has = before_the_tenth h lo hi

    same : hour_start_of h ≡ h
    same = omega (
      int_laws,
      (hour_start_of_bounds h has).1,
      hour_start_of_greatest h h has start (omega int_laws),
    )

hour_start_of_key-hour_key_of_example :
    (hour_start_of_key any_time five ≡ some (hour_start_of past_five))
    ↔ (five ≡ hour_key_of any_time (hour_start_of past_five))
hour_start_of_key-hour_key_of_example =
    hour_start_of_key-hour_key_of any_time (10 * hour_micros) any_time-ReadsBack past_five five
      (unfold past_five in omega arith) (unfold past_five in omega arith)
      (unfold past_five in omega arith)

placed_first : get busy 0 ≡ some placed
unfolding busy get
placed_first = refl

placed_has : is_empty placed ≡ false
unfolding placed is_empty
placed_has = refl

first_from-finds_example :
    (i : ℕ) × (c : Cell) × (first_from busy 0 ≡ some (i, c))
    × (0 ≤ i)
    × (i ≤ 0)
    × (get busy i ≡ some c)
    × (is_empty c ≡ false)
first_from-finds_example = first_from-finds busy 0 0 placed (omega arith) placed_first placed_has

last-finds_example :
    (i : ℕ) × (c : Cell) × (last busy ≡ some (i, c))
    × (0 ≤ i)
    × (get busy i ≡ some c)
    × (is_empty c ≡ false)
last-finds_example = last-finds busy 0 placed placed_first placed_has
