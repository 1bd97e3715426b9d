-- ===== src/Base/Slices.antt =====
-- What Rust does to a slice of bytes: reading a range, and `copy_from_slice` into one. Both are
-- used on ranges inside the slice only; their callers check that, or are shown to.
use Prim.Native.Nat.{ℕ, ◌+◌, ◌-◌, ◌≤◌}
use mathlib.Core.Path.{◌≡◌, refl, sym, subst, ap, ◌∙◌}
use mathlib.Core.List.{List, ◌++◌, append_assoc}
use native.Mathlib.Omega.{arith}
use native.Mathlib.Decide.{dec_le}
use my_telemetry_server.Base.Lists.{
  length, take, drop, drop-length-append, take-length-append, length-take, length-drop,
  length-append, drop-drop, take-append-drop, drop-append_left, take-append_left, drop-append_right,
  take-append_right,
}

module _ {ℓ} {A : Type ℓ} where
  -- `l[from..to]`
  unfoldable pub slice : ℕ → ℕ → List A → List A
  slice from to l = take (to - from) (drop from l)

  -- `l[at..at + src.len()].copy_from_slice(src)`
  unfoldable pub splice : ℕ → List A → List A → List A
  splice at src l = take at l ++ (src ++ drop (at + length src) l)

module _ {ℓ} {A : Type ℓ} where
  pub drop-append : (n : ℕ) (xs ys : List A) → n ≡ length xs → drop n (xs ++ ys) ≡ ys
  drop-append n xs ys e = subst (λ k. drop k (xs ++ ys) ≡ ys) (sym e) (drop-length-append xs ys)

  pub take-append : (n : ℕ) (xs ys : List A) → n ≡ length xs → take n (xs ++ ys) ≡ xs
  take-append n xs ys e = subst (λ k. take k (xs ++ ys) ≡ xs) (sym e) (take-length-append xs ys)

  pub slice-append :
      (from to : ℕ) (xs ys zs : List A)
      → from ≡ length xs
      → to ≡ length xs + length ys
      → slice from to (xs ++ (ys ++ zs)) ≡ ys
  unfolding slice
  slice-append from to xs ys zs e f =
      rw (drop-append from xs (ys ++ zs) e) (take-append (to - from) ys zs (omega arith))

  pub splice-append :
      (at : ℕ) (src xs ys zs : List A)
      → at ≡ length xs
      → length src ≡ length ys
      → splice at src (xs ++ (ys ++ zs)) ≡ xs ++ (src ++ zs)
  unfolding splice
  splice-append at src xs ys zs e f =
      rw (take-append at xs (ys ++ zs) e, ← append_assoc xs ys zs)
        (rw (drop-append (at + length src) (xs ++ ys) zs (omega (arith, length-append xs ys))) refl)

  pub length-splice :
      (at : ℕ) (src l : List A) → at + length src ≤ length l → length (splice at src l) ≡ length l
  unfolding splice
  length-splice at src l h = omega (
    arith,
    length-append (take at l) (src ++ drop (at + length src) l),
    length-append src (drop (at + length src) l),
    length-take at l,
    length-drop (at + length src) l,
  )

  -- A range before the end of the front is a range of the front.
  pub slice-append_left :
      (from to : ℕ) (xs ys : List A) → to ≤ length xs → slice from to (xs ++ ys) ≡ slice from to xs
  unfolding slice
  slice-append_left from to xs ys h = elim (dec_le from to) [
    | yes le ↦
        rw (drop-append_left from xs ys (omega arith))
          (take-append_left (to - from) (drop from xs) ys (omega (arith, length-drop from xs)))
    | no gt ↦ let e : to - from ≡ 0 = omega arith in rw e
  ]

  pub length-slice :
      (from to : ℕ) (l : List A) → to ≤ length l → length (slice from to l) ≡ to - from
  unfolding slice
  length-slice from to l h =
      omega (arith, length-take (to - from) (drop from l), length-drop from l)

  pub length-slice-le : (from to : ℕ) (l : List A) → length (slice from to l) ≤ to - from
  unfolding slice
  length-slice-le from to l = omega (arith, length-take (to - from) (drop from l))

  pub append-drop-slice :
      (from to : ℕ) (l : List A) → from ≤ to → slice from to l ++ drop to l ≡ drop from l
  unfolding slice
  append-drop-slice from to l h = rw (← drop_drop_lem) (take-append-drop (to - from) (drop from l))
    where
      drop_drop_lem : drop (to - from) (drop from l) ≡ drop to l
      drop_drop_lem = drop-drop (to - from) from l ∙ ap (λ k. drop k l) (omega arith)

  pub splice-at :
      (at : ℕ) (src xs ys : List A)
      → at ≡ length xs
      → splice at src (xs ++ ys) ≡ xs ++ (src ++ drop (length src) ys)
  unfolding splice
  splice-at at src xs ys e = rw (e, take-length-append xs ys, drop-append_right (length src) xs ys)

  pub slice_from_start :
      (mid to : ℕ) (l : List A)
      → mid ≤ length l
      → mid ≤ to
      → slice 0 to l ≡ take mid l ++ slice mid to l
  unfolding slice
  slice_from_start mid to l inside h =
      ap (take (to - 0)) (sym (take-append-drop mid l))
      ∙ ap (λ k. take k (take mid l ++ drop mid l)) (omega (arith, length-take mid l))
      ∙ take-append_right (to - mid) (take mid l) (drop mid l)
