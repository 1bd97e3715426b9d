-- ===== src/Storage/Frame/Edits.antt =====
-- What `insert`, `remove` and `split_off` make of the parts of a frame.
use my_telemetry_server.Base.{
  ℕ, ◌+◌, ◌-◌, ◌≤◌, ◌≡◌, refl, sym, ap, ap₂, ◌∙◌, arith, some, leb, ◌&&◌, true, List, [], ◌++◌,
  append_assoc, length, take, drop, replicate, slice, splice, length-append, length-take,
  length-drop, length-replicate, slice-append, splice-append, drop-append, drop-drop, splice-at,
  drop-append_right, take-append_right,
}
use my_telemetry_server.Base.Bytes.{from_le_bytes}
use my_telemetry_server.Storage.Frame.{
  frame_capacity, Frame, used_in, set_used, insert, remove, split_off,
}
use my_telemetry_server.Storage.Frame.Layout.{Layout, used_in-Layout, set_used-Layout}

-- `copy_within(from..to, to + n)` and `copy_from_slice` at `from`: `n` bytes put between `a` and `m`,
-- over the bytes which follow `m`.
open_gap :
    (at : ℕ) (e a m z : List ℕ)
    → at ≡ length a
    → length e ≤ length z
    → splice at e (splice (at + length e) m (a ++ (m ++ z))) ≡ a ++ (e ++ (m ++ drop (length e) z))
open_gap at e a m z h fits =
    ap (splice at e) (moved ∙ append_assoc a (take (length e) (m ++ z)) (m ++ drop (length e) z))
    ∙ splice-at at e a (take (length e) (m ++ z) ++ (m ++ drop (length e) z)) h
    ∙ ap (λ w. a ++ (e ++ w))
        (drop-append (length e) (take (length e) (m ++ z)) (m ++ drop (length e) z)
          (omega (arith, length-take (length e) (m ++ z), length-append m z)))
  where
    tail_is : drop (at + length e + length m) (a ++ (m ++ z)) ≡ drop (length e) z
    tail_is =
        ap (λ k. drop k (a ++ (m ++ z))) (omega (arith, h))
        ∙ drop-append_right (length m + length e) a (m ++ z)
        ∙ drop-append_right (length e) m z

    front_is : take (at + length e) (a ++ (m ++ z)) ≡ a ++ take (length e) (m ++ z)
    front_is =
        ap (λ k. take (k + length e) (a ++ (m ++ z))) h ∙ take-append_right (length e) a (m ++ z)

    moved :
        splice (at + length e) m (a ++ (m ++ z))
        ≡ (a ++ take (length e) (m ++ z)) ++ (m ++ drop (length e) z)
    moved = unfold splice in rw (front_is, tail_is)

-- `copy_within` down over `n` bytes and the bytes left behind filled.
close_gap :
    (at : ℕ) (e a m z : List ℕ)
    → at ≡ length a
    → splice (at + length m) (replicate (length e) 0) (splice at m (a ++ (e ++ (m ++ z))))
      ≡ a ++ (m ++ (replicate (length e) 0 ++ z))
close_gap at e a m z h =
    ap (splice (at + length m) (replicate (length e) 0))
      (splice-at at m a (e ++ (m ++ z)) h ∙ sym (append_assoc a m _))
    ∙ splice-at (at + length m) (replicate (length e) 0) (a ++ m) _
        (omega (arith, h, length-append a m))
    ∙ append_assoc a m _
    ∙ ap (λ w. a ++ (m ++ (replicate (length e) 0 ++ w))) rest
  where
    rest : drop (length (replicate {A = ℕ} (length e) 0)) (drop (length m) (e ++ (m ++ z))) ≡ z
    rest =
        drop-drop _ (length m) (e ++ (m ++ z))
        ∙ ap (λ k. drop k (e ++ (m ++ z))) (omega (arith, length-replicate {A = ℕ} (length e) 0))
        ∙ drop-append_right (length m) e (m ++ z)
        ∙ drop-append (length m) m z refl

-- The header tells the same as long as only what follows it is changed.
used_in_of_front :
    {b hd u r z : List ℕ} (b' w : List ℕ)
    → Layout b hd u r z
    → b' ≡ hd ++ (u ++ w)
    → used_in b' ≡ length r
unfolding used_in
used_in_of_front {hd = hd} {u = u} b' w l e =
    ap (λ k. from_le_bytes (slice 9 11 k)) e
    ∙ ap from_le_bytes (slice-append 9 11 hd u w (sym l.hd_len) (omega (arith, l.hd_len, l.u_len)))
    ∙ l.used_is

module _ (b hd u r1 e r2 z : List ℕ) where
  front : List ℕ
  front = hd ++ (u ++ r1)

  front_len : Layout b hd u (r1 ++ r2) z → 11 + length r1 ≡ length front
  unfolding front
  front_len l = omega (arith, l.hd_len, l.u_len, length-append hd (u ++ r1), length-append u r1)

  front_is : Layout b hd u (r1 ++ r2) z → b ≡ front ++ (r2 ++ z)
  unfolding front
  front_is l = l.bytes_are ∙ simp append_assoc

  end_is : Layout b hd u (r1 ++ r2) z → 11 + used_in b ≡ length front + length r2
  end_is l = omega (arith, front_len l, used_in-Layout l, length-append r1 r2)

  after_is : Layout b hd u (r1 ++ r2) z → slice (11 + length r1) (11 + used_in b) b ≡ r2
  after_is l =
      ap (slice (11 + length r1) (11 + used_in b)) (front_is l)
      ∙ slice-append (11 + length r1) (11 + used_in b) front r2 z (front_len l) (end_is l)

  -- The bytes after the two moves of `insert`.
  put : List ℕ
  put =
      splice (11 + length r1) e
        (splice (11 + length r1 + length e) (slice (11 + length r1) (11 + used_in b) b) b)

  put_is :
      Layout b hd u (r1 ++ r2) z
      → length e ≤ length z
      → put ≡ hd ++ (u ++ ((r1 ++ (e ++ r2)) ++ drop (length e) z))
  unfolding put
  put_is l fits =
      ap₂ (λ m w. splice (11 + length r1) e (splice (11 + length r1 + length e) m w)) (after_is l)
        (front_is l)
      ∙ open_gap (11 + length r1) e front r2 z (front_len l) fits
      ∙ unfold front in simp append_assoc

  used_put : Layout b hd u (r1 ++ r2) z → length e ≤ length z → used_in put ≡ used_in b
  used_put l fits = used_in_of_front put _ l (put_is l fits) ∙ sym (used_in-Layout l)

  pub insert-Layout :
      Layout b hd u (r1 ++ r2) z
      → length e ≤ length z
      → (f' : Frame) × (u' : List ℕ) × (insert (record { bytes = b }) (11 + length r1) e ≡ some f')
        × Layout f'.bytes hd u' (r1 ++ (e ++ r2)) (drop (length e) z)
  unfolding insert put
  insert-Layout l fits = (
    record { bytes = set_used (used_in put + length e) put },
    _,
    rw guard,
    set_used-Layout u (used_in put + length e) (r1 ++ (e ++ r2)) (drop (length e) z) (put_is l fits)
        l.hd_len l.u_len
        (omega (
          arith,
          used_put l fits,
          used_in-Layout l,
          length-append r1 r2,
          length-append r1 (e ++ r2),
          length-append e r2,
        ))
        (omega (
          arith,
          l.room,
          length-append r1 r2,
          length-append r1 (e ++ r2),
          length-append e r2,
          length-drop (length e) z,
        )),
  )
    where
      guard :
          (leb 11 (11 + length r1)
            && leb (11 + length r1) (11 + used_in b)
            && leb (length e) (frame_capacity - used_in b))
          ≡ true
      guard = ground (arith, used_in-Layout l, l.room, length-append r1 r2)

module _ (b hd u r1 e r2 z : List ℕ) where
  all_is : Layout b hd u (r1 ++ (e ++ r2)) z → b ≡ front b hd u r1 e r2 z ++ (e ++ (r2 ++ z))
  unfolding front
  all_is l = l.bytes_are ∙ simp append_assoc

  -- The bytes after the moves of `remove`.
  taken : List ℕ
  taken =
      splice (11 + used_in b - length e) (replicate (length e) 0)
        (splice (11 + length r1) (slice (11 + length r1 + length e) (11 + used_in b) b) b)

  used_total : Layout b hd u (r1 ++ (e ++ r2)) z → used_in b ≡ length r1 + length e + length r2
  used_total l = omega (arith, used_in-Layout l, length-append r1 (e ++ r2), length-append e r2)

  tail_is :
      Layout b hd u (r1 ++ (e ++ r2)) z → slice (11 + length r1 + length e) (11 + used_in b) b ≡ r2
  unfolding front
  tail_is l =
      ap (slice (11 + length r1 + length e) (11 + used_in b))
        (all_is l ∙ sym (append_assoc (hd ++ (u ++ r1)) e (r2 ++ z)))
      ∙ slice-append _ _ ((hd ++ (u ++ r1)) ++ e) r2 z front_e
          (omega (arith, front_e, used_total l))
    where
      front_e : 11 + length r1 + length e ≡ length ((hd ++ (u ++ r1)) ++ e)
      front_e =
          omega (arith, length-append (hd ++ (u ++ r1)) e, front_len b hd u r1 e (e ++ r2) z l)

  taken_is :
      Layout b hd u (r1 ++ (e ++ r2)) z
      → taken ≡ hd ++ (u ++ ((r1 ++ r2) ++ (replicate (length e) 0 ++ z)))
  unfolding taken front
  taken_is l =
      ap₂
        (λ m w.
          splice (11 + used_in b - length e) (replicate (length e) 0) (splice (11 + length r1) m w))
        (tail_is l) (all_is l)
      ∙ ap
          (λ k.
            splice k (replicate (length e) 0)
              (splice (11 + length r1) r2 ((hd ++ (u ++ r1)) ++ (e ++ (r2 ++ z)))))
          (omega (arith, used_total l))
      ∙ close_gap (11 + length r1) e (hd ++ (u ++ r1)) r2 z (front_len b hd u r1 e (e ++ r2) z l)
      ∙ simp append_assoc

  pub remove-Layout :
      Layout b hd u (r1 ++ (e ++ r2)) z
      → (u' : List ℕ) × Layout
          (remove (record { bytes = b }) (11 + length r1) (length e)).bytes
          hd
          u'
          (r1 ++ r2)
          (replicate (length e) 0 ++ z)
  unfolding remove taken
  remove-Layout l = (
    _,
    set_used-Layout u (used_in taken - length e) (r1 ++ r2) (replicate (length e) 0 ++ z)
        (taken_is l) l.hd_len l.u_len
        (omega (
          arith,
          used_in_of_front taken _ l (taken_is l),
          length-append r1 r2,
          length-append r1 (e ++ r2),
          length-append e r2,
        ))
        (omega (
          arith,
          l.room,
          length-append r1 r2,
          length-append r1 (e ++ r2),
          length-append e r2,
          length-append (replicate (length e) 0) z,
          length-replicate {A = ℕ} (length e) 0,
        )),
  )

module _ (b hd u r1 r2 z : List ℕ) where
  cut : List ℕ
  cut = splice (11 + length r1) (replicate (11 + used_in b - (11 + length r1)) 0) b

  cut_is :
      Layout b hd u (r1 ++ r2) z
      → cut ≡ hd ++ (u ++ (r1 ++ (replicate (11 + used_in b - (11 + length r1)) 0 ++ z)))
  unfolding cut front
  cut_is l =
      ap (splice (11 + length r1) (replicate (11 + used_in b - (11 + length r1)) 0))
        (front_is b hd u r1 [] r2 z l)
      ∙ splice-append (11 + length r1) _ (hd ++ (u ++ r1)) r2 z (front_len b hd u r1 [] r2 z l) (
          omega (
            arith,
            length-replicate {A = ℕ} (11 + used_in b - (11 + length r1)) 0,
            used_in-Layout l,
            length-append r1 r2,
          ))
      ∙ simp append_assoc

  pub split_off-Layout :
      Layout b hd u (r1 ++ r2) z
      → (u' z' : List ℕ) × ((split_off (record { bytes = b }) (11 + length r1)).0 ≡ r2)
        × Layout (split_off (record { bytes = b }) (11 + length r1)).1.bytes hd u' r1 z'
  unfolding split_off cut
  split_off-Layout l = (
    _,
    _,
    after_is b hd u r1 [] r2 z l,
    set_used-Layout u (11 + length r1 - 11) r1
        (replicate (11 + used_in b - (11 + length r1)) 0 ++ z) (cut_is l) l.hd_len l.u_len
        (omega arith)
        (omega (
          arith,
          l.room,
          used_in-Layout l,
          length-append r1 r2,
          length-append (replicate (11 + used_in b - (11 + length r1)) 0) z,
          length-replicate {A = ℕ} (11 + used_in b - (11 + length r1)) 0,
        )),
  )
