-- ===== src/Storage/Frame/Layout.antt =====
-- The parts of the bytes of a frame: nine bytes of header, two which say how long the entries are,
-- the entries, and the room after them.
use my_telemetry_server.Base.{
  ℕ, ◌+◌, ◌%◌, ◌^◌, ◌≤◌, ◌≡◌, sym, ap, ◌∙◌, arith, List, ◌++◌, length, take, drop, slice,
  length-take, length-drop, take-append-drop, length-slice, slice-append, splice-append,
  append-drop-slice,
}
use my_telemetry_server.Base.Bytes.{
  to_le_bytes, from_le_bytes, length-to_le_bytes, from_le_bytes-to_le_bytes,
}
use my_telemetry_server.Storage.Frame.{
  frame_len, frame_capacity, Frame, used, used_in, set_used, records_end,
}

pub record Layout (b hd u r z : List ℕ) : Type 0 where
  pub bytes_are : b ≡ hd ++ (u ++ (r ++ z))
  pub hd_len : length hd ≡ 9
  pub u_len : length u ≡ 2
  pub used_is : from_le_bytes u ≡ length r
  pub room : length r + length z ≡ frame_capacity

pub used_in-Layout : {b hd u r z : List ℕ} → Layout b hd u r z → used_in b ≡ length r
unfolding used_in
used_in-Layout {b} {hd} {u} {r} {z} l =
    rw
      (
        l.bytes_are,
        slice-append 9 11 hd u (r ++ z) (sym l.hd_len) (omega (arith, l.hd_len, l.u_len)),
      )
      l.used_is

-- A frame of the right length whose header does not claim more than there is room for.
pub Layout-exists :
    (f : Frame)
    → length f.bytes ≡ frame_len
    → used f ≤ frame_capacity
    → Layout f.bytes
        (take 9 f.bytes)
        (slice 9 11 f.bytes)
        (slice 11 (records_end f) f.bytes)
        (drop (records_end f) f.bytes)
unfolding records_end used
Layout-exists f len fits = record {
  bytes_are =
      sym (take-append-drop 9 f.bytes)
      ∙ ap (λ w. take 9 f.bytes ++ w) (sym (append-drop-slice 9 11 f.bytes (omega arith)))
      ∙ ap (λ w. take 9 f.bytes ++ (slice 9 11 f.bytes ++ w))
          (sym (append-drop-slice 11 (records_end f) f.bytes (omega arith)));
  hd_len = omega (arith, length-take 9 f.bytes);
  u_len = length-slice 9 11 f.bytes (omega arith) ∙ omega arith;
  used_is = omega (arith, length-slice 11 (records_end f) f.bytes (omega arith));
  room = omega (
    arith,
    length-slice 11 (records_end f) f.bytes (omega arith),
    length-drop (records_end f) f.bytes,
  );
}

pub set_used-Layout :
    {b hd : List ℕ} (u : List ℕ) (n : ℕ) (r' z' : List ℕ)
    → b ≡ hd ++ (u ++ (r' ++ z'))
    → length hd ≡ 9
    → length u ≡ 2
    → n ≡ length r'
    → length r' + length z' ≡ frame_capacity
    → Layout (set_used n b) hd (to_le_bytes 2 (n % 2 ^ 16)) r' z'
unfolding set_used
set_used-Layout {b} {hd} u n r' z' e hl ul nl room = record {
  bytes_are = rw (
    e,
    splice-append 9 (to_le_bytes 2 (n % 2 ^ 16)) hd u (r' ++ z') (sym hl)
        (length-to_le_bytes 2 _ ∙ sym ul),
  );
  hd_len = hl;
  u_len = length-to_le_bytes 2 _;
  used_is = omega (arith, from_le_bytes-to_le_bytes 2 (n % 2 ^ 16) (omega arith));
  room = room;
}
