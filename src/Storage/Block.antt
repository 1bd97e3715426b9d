-- ===== src/Storage/Block.antt =====
-- my-telemetry-server/src/metrics_storage/metric_block.rs: the records of a second as entries - blocks
-- of them, each compressed to fit an entry - and a block read back. The encoding of a record (the
-- generated code of the protocol) and the compression (zstd) are parameters.
pub mod Tags
pub mod Shrink
pub mod RoundTrip
pub mod Stored
pub mod Cuts
use my_telemetry_server.Base.{
  ℕ, zero, suc, ◌+◌, ◌-◌, ◌*◌, ◌/◌, ◌%◌, ◌^◌, ◌≡◌, ltb, leb, ◌==◌, if◌then◌else◌, Bool, true, false,
  not, ◌&&◌, ◌||◌, Option, none, some, List, [], ◌∷◌, ◌++◌, length, take, drop, slice, get_elem?,
  max,
}
use my_telemetry_server.Base.Int.{ℤ}
use my_telemetry_server.Base.Result.{Result, ok, err}
use my_telemetry_server.Base.Str.{Str, str_eq, bytes_of}
use my_telemetry_server.Storage.Varint.{Varint}
use my_telemetry_server.Storage.Frame.{entry_time_len, max_entry_body_len}
use my_telemetry_server.Storage.Entry.{encode_entry}
use my_telemetry_server.Storage.Rec.{Rec, Tag, time_of, client_id_tag, user_id_tag}

-- The code which is not in the repository: a message is encoded and decoded, bytes are compressed and
-- decompressed. What was compressed is decompressed again.
pub record Codec : Type 0 where
  pub encode : Rec → List ℕ
  pub decode : List ℕ → Option Rec
  pub compress : List ℕ → List ℕ
  pub decompress : List ℕ → Option (List ℕ)
  pub decompresses : (raw : List ℕ) → decompress (compress raw) ≡ some raw

abbrev pub raw_block_len : ℕ
raw_block_len = 24 * 1024

abbrev pub max_payload_len : ℕ
max_payload_len = max_entry_body_len - entry_time_len

abbrev pub truncated_mark : Str
truncated_mark = bytes_of "...[truncated]"

abbrev pub min_len_to_cut : ℕ
min_len_to_cut = 64

pub record CompressedBlock : Type 0 where
  pub entry : List ℕ
  pub records : ℕ

-- `is_char_boundary`: the byte there does not go on with a character.
is_boundary_byte : Option ℕ → Bool
is_boundary_byte none = true
is_boundary_byte (some b) = ltb b 128 || leb 192 b

-- `while !value.is_char_boundary(at) { at -= 1; }`
unfoldable pub char_boundary : Str → ℕ → ℕ
unfolding is_boundary_byte
char_boundary value zero = zero
char_boundary value (suc at) =
    let before : ℕ = char_boundary value at in
    if is_boundary_byte (get_elem? value (suc at)) then suc at else before

-- The length of the text with no mark at its end.
unfoldable pub unmarked_len : Str → ℕ
unmarked_len value =
    let at : ℕ = length value - length truncated_mark in
    if leb (length truncated_mark) (length value) && str_eq (drop at value) truncated_mark
    then at
    else length value

unfoldable pub cut_in_half : Str → Str
cut_in_half value = take (char_boundary value (unmarked_len value / 2)) value ++ truncated_mark

unfoldable pub text_len : Option Str → ℕ
text_len none = 0
text_len (some value) = length value

nearer_end : ℕ → Tag → Option (ℕ × ℕ) → ℕ × ℕ
nearer_end index t none = (index, length t.value)
nearer_end index t (some (later, len)) =
    if leb (length t.value) len then (later, len) else (index, length t.value)

-- The longest value, the last one of those: where it is and its length.
unfoldable pub longest_tag : ℕ → List Tag → Option (ℕ × ℕ)
unfolding nearer_end
longest_tag index [] = none
longest_tag index (t ∷ ts) = some (nearer_end index t (longest_tag (suc index) ts))

unfoldable pub longest_len : Option (ℕ × ℕ) → ℕ
longest_len none = 0
longest_len (some (index, len)) = len

unfoldable pub is_kept : Tag → Bool
is_kept t = str_eq t.key client_id_tag || str_eq t.key user_id_tag

unfoldable pub droppable : List Tag → ℕ
droppable [] = 0
droppable (t ∷ ts) = (if is_kept t then 0 else 1) + droppable ts

drop_before : Option Tag → ℕ → (ℕ → List Tag → Option (List Tag)) → ℕ → List Tag → Option (List Tag)
drop_before none index rest to_drop tags = none
drop_before (some t) index rest to_drop tags =
    if is_kept t
    then rest to_drop tags
    else rest (to_drop - 1) (take index tags ++ drop (suc index) tags)

-- From the end, `to_drop` of the tags which are not kept; `none` - the index goes below 0.
unfoldable pub drop_tags : ℕ → ℕ → List Tag → Option (List Tag)
unfolding drop_before
drop_tags zero to_drop tags = if to_drop == 0 then some tags else none
drop_tags (suc index) to_drop tags =
    let rest : ℕ → List Tag → Option (List Tag) = drop_tags index in
    if to_drop == 0 then some tags else drop_before (get_elem? tags index) index rest to_drop tags

pub data Shrunk : Type 0 where
  panicked : Shrunk
  nothing_left : Shrunk
  cut : Rec → Shrunk

cut_fail : Rec → Option Str → Shrunk
cut_fail r none = panicked
cut_fail r (some value) = cut (record r { fail = some (cut_in_half value) })

cut_success : Rec → Option Str → Shrunk
cut_success r none = panicked
cut_success r (some value) = cut (record r { success = some (cut_in_half value) })

after_tag : Tag → Option (List Tag) → Option (List Tag)
after_tag t none = none
after_tag t (some ts) = some (t ∷ ts)

-- The value of the tag at the index, cut.
unfoldable pub cut_tags : ℕ → List Tag → Option (List Tag)
unfolding after_tag
cut_tags index [] = none
cut_tags zero (t ∷ ts) = some (record t { value = cut_in_half t.value } ∷ ts)
cut_tags (suc index) (t ∷ ts) = after_tag t (cut_tags index ts)

with_tags : Rec → Option (List Tag) → Shrunk
with_tags r none = panicked
with_tags r (some tags) = cut (record r { tags = tags })

cut_longest : Rec → Option (ℕ × ℕ) → Shrunk
cut_longest r none = panicked
cut_longest r (some (index, len)) = with_tags r (cut_tags index r.tags)

unfoldable pub cut_text : Rec → Shrunk
unfolding cut_fail cut_success cut_longest with_tags
cut_text r =
    let longest : ℕ =
      max (max (text_len r.fail) (text_len r.success)) (longest_len (longest_tag 0 r.tags)) in
    if text_len r.fail == longest
    then cut_fail r r.fail
    else if text_len r.success == longest
    then cut_success r r.success
    else cut_longest r (longest_tag 0 r.tags)

unfoldable pub cut_name : Rec → Shrunk
cut_name r =
    if length r.event_data == max (length r.event_data) (length r.service_name)
    then cut (record r { event_data = cut_in_half r.event_data })
    else cut (record r { service_name = cut_in_half r.service_name })

-- Cuts the longest text of the record in half, then the longest name; then drops half of the tags
-- which are not kept.
unfoldable pub shrink : Rec → Shrunk
unfolding with_tags
shrink r =
    let longest : ℕ =
      max (max (text_len r.fail) (text_len r.success)) (longest_len (longest_tag 0 r.tags)) in
    if leb min_len_to_cut longest
    then cut_text r
    else if leb min_len_to_cut (max (length r.event_data) (length r.service_name))
    then cut_name r
    else if ltb 0 (droppable r.tags)
    then with_tags r (drop_tags (length r.tags) ((droppable r.tags + 1) / 2) r.tags)
    else nothing_left

pub values_len : List Tag → ℕ
values_len [] = 0
values_len (t ∷ ts) = length t.value + values_len ts

-- A round of the cutting makes this less.
unfoldable pub size : Rec → ℕ
unfolding values_len
size r =
    text_len r.fail
    + text_len r.success
    + values_len r.tags
    + length r.tags
    + length r.event_data
    + length r.service_name

pub data BlockError : Type 0 where
  no_decompress : BlockError
  no_decode : BlockError
  length_cut : BlockError
  past_end : BlockError

module _ (varint : Varint) (codec : Codec) where
  unfoldable pub encode_records : List Rec → List ℕ
  encode_records [] = []
  encode_records (r ∷ rs) =
      varint.serialize (length (codec.encode r) % 2 ^ 32) ++ (codec.encode r ++ encode_records rs)

  entry_of : List Rec → List ℕ → Option (Option (List ℕ))
  entry_of [] payload = none
  entry_of (r ∷ rs) payload = some (some (encode_entry varint (time_of r) payload))

  -- The inner `none` - they do not fit an entry; the outer one is the panic of an index out of bounds.
  unfoldable pub compress_to_entry : List Rec → Option (Option (List ℕ))
  unfolding entry_of
  compress_to_entry rs =
      let payload : List ℕ = codec.compress (encode_records rs) in
      if leb (length payload) max_payload_len then entry_of rs payload else some none

  block : ℕ → List ℕ → List CompressedBlock
  block n entry = record { entry = entry; records = n } ∷ []

  fits_or :
      ℕ → Option (Option (List ℕ)) → Option (List CompressedBlock) → Option (List CompressedBlock)
  unfolding block
  fits_or n none otherwise = none
  fits_or n (some none) otherwise = otherwise
  fits_or n (some (some entry)) otherwise = some (block n entry)

  cut_next : Shrunk → (Rec → Option (List CompressedBlock)) → Option (List CompressedBlock)
  unfolding fits_or
  cut_next panicked further = none
  cut_next nothing_left further = some []
  cut_next (cut r) further = fits_or 1 (compress_to_entry (r ∷ [])) (further r)

  -- The loop over a copy of a record which does not fit alone. `none` - a panic, or no more rounds.
  unfoldable pub cut_loop : ℕ → Rec → Option (List CompressedBlock)
  unfolding cut_next
  cut_loop zero r = none
  cut_loop (suc rounds) r = cut_next (shrink r) (cut_loop rounds)

  cut_alone : List Rec → Option (List CompressedBlock)
  cut_alone [] = none
  cut_alone (r ∷ rs) = cut_loop (suc (size r)) r

  both :
      Option (List CompressedBlock) → Option (List CompressedBlock) → Option (List CompressedBlock)
  both none b = none
  both (some a) none = none
  both (some a) (some b) = some (a ++ b)

  -- A block which does not fit is halved, on a round for each record.
  unfoldable pub compress_block : ℕ → List Rec → Option (List CompressedBlock)
  unfolding cut_alone both fits_or
  compress_block zero rs = none
  compress_block (suc rounds) rs =
      let lower : Option (List CompressedBlock) = compress_block rounds (take (length rs / 2) rs) in
      let upper : Option (List CompressedBlock) = compress_block rounds (drop (length rs / 2) rs) in
      fits_or (length rs) (compress_to_entry rs)
        (if ltb 1 (length rs) then both lower upper else cut_alone rs)

  -- The loop of `compress_records`: the records from `from` on, and their length.
  unfoldable pub compress_from : List Rec → ℕ → List Rec → Option (List CompressedBlock)
  unfolding both
  compress_from taken block_len [] =
      if length taken == 0 then some [] else compress_block (length taken) taken
  compress_from taken block_len (r ∷ rs) =
      let n : ℕ = length (codec.encode r) in
      let cut_here : Option (List CompressedBlock) = compress_from (r ∷ []) n rs in
      let go_on : Option (List CompressedBlock) =
        compress_from (taken ++ (r ∷ [])) (block_len + n) rs in
      if ltb 0 (length taken) && ltb raw_block_len (block_len + n)
      then both (compress_block (length taken) taken) cut_here
      else go_on

  unfoldable pub compress_records : List Rec → Option (List CompressedBlock)
  compress_records rs = compress_from [] 0 rs

  read_record : List ℕ → ℕ → Option (ℕ × ℕ) → Result BlockError (List ℕ) × ℕ
  read_record raw offset none = (err length_cut, length raw)
  read_record raw offset (some (len, prefix_len)) =
      let start : ℕ = offset + prefix_len in
      if ltb (length raw) (start + len)
      then (err past_end, length raw)
      else (ok (slice start (start + len) raw), start + len)

  -- `RawRecords::next`: a record or an error, and the offset after it.
  unfoldable pub next_record : List ℕ → ℕ → Option (Result BlockError (List ℕ) × ℕ)
  unfolding read_record
  next_record raw offset =
      if leb (length raw) offset
      then none
      else some (read_record raw offset (varint.from_slice (drop offset raw)))

  decoded :
      Option Rec → Option (Result BlockError (List Rec)) → Option (Result BlockError (List Rec))
  decoded none rest = some (err no_decode)
  decoded (some r) none = none
  decoded (some r) (some (err e)) = some (err e)
  decoded (some r) (some (ok rs)) = some (ok (r ∷ rs))

  decode_next :
      Option (Result BlockError (List ℕ) × ℕ)
      → (ℕ → Option (Result BlockError (List Rec)))
      → Option (Result BlockError (List Rec))
  unfolding decoded
  decode_next none rest = some (ok [])
  decode_next (some (err e, after)) rest = some (err e)
  decode_next (some (ok bytes, after)) rest = decoded (codec.decode bytes) (rest after)

  -- The loop of `decompress_records`. `none` - no more rounds.
  unfoldable pub decode_from : ℕ → List ℕ → ℕ → Option (Result BlockError (List Rec))
  unfolding decode_next
  decode_from zero raw offset = none
  decode_from (suc rounds) raw offset =
      decode_next (next_record raw offset) (decode_from rounds raw)

  -- A record takes a byte at least.
  decode_all : Option (List ℕ) → Option (Result BlockError (List Rec))
  decode_all none = some (err no_decompress)
  decode_all (some raw) = decode_from (suc (length raw)) raw 0

  unfoldable pub decompress_records : List ℕ → Option (Result BlockError (List Rec))
  unfolding decode_all
  decompress_records payload = decode_all (codec.decompress payload)
