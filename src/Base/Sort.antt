-- ===== src/Base/Sort.antt =====
-- `sort_by_key` of the standard library: the stable sort by a key of `i64`.
use Prim.Native.Nat.{suc}
use mathlib.Core.Path.{◌≡◌, refl, ap, ◌∙◌}
use mathlib.Core.Bool.{Bool}
use mathlib.Core.List.{List, [], ◌∷◌}
use mathlib.Core.Logic.{inl, inr}
use native.Mathlib.Omega.{arith}
use my_telemetry_server.Base.Tests.{if◌then◌else◌, Bool-cases}
use my_telemetry_server.Base.Lists.{length, All, count_if}
use my_telemetry_server.Base.Int.{ℤ, leb_ℤ, ◌≤ℤ◌}

module _ {ℓ} {A : Type ℓ} (key : A → ℤ) where
  -- Before the first element whose key is not less.
  put_in_order : A → List A → List A
  put_in_order x [] = x ∷ []
  put_in_order x (y ∷ ys) = if leb_ℤ (key x) (key y) then x ∷ y ∷ ys else y ∷ put_in_order x ys

  unfoldable pub sort_by_key : List A → List A
  unfolding put_in_order
  sort_by_key [] = []
  sort_by_key (x ∷ xs) = put_in_order x (sort_by_key xs)

  abbrev pub InOrder : List A → Type 0
  InOrder [] = Unit
  InOrder (x ∷ xs) = All (λ y. key x ≤ℤ key y) xs × InOrder xs

  count_if-put_in_order :
      (p : A → Bool) (x : A) (xs : List A) → count_if p (put_in_order x xs) ≡ count_if p (x ∷ xs)
  unfolding put_in_order
  count_if-put_in_order p x [] = refl
  count_if-put_in_order p x (y ∷ ys) = ground (arith, count_if-put_in_order p x ys)

  pub count_if-sort_by_key :
      (p : A → Bool) (xs : List A) → count_if p (sort_by_key xs) ≡ count_if p xs
  unfolding sort_by_key
  count_if-sort_by_key p [] = refl
  count_if-sort_by_key p (x ∷ xs) =
      count_if-put_in_order p x (sort_by_key xs) ∙ ground (arith, count_if-sort_by_key p xs)

  All-put_in_order {κ} :
      (P : A → Type κ) (x : A) (xs : List A) → P x → All P xs → All P (put_in_order x xs)
  unfolding put_in_order
  All-put_in_order P x [] px h = (px, h)
  All-put_in_order P x (y ∷ ys) px h = ground (arith, px, h.0, h.1, All-put_in_order P x ys px h.1)

  pub All-sort_by_key {κ} : (P : A → Type κ) (xs : List A) → All P xs → All P (sort_by_key xs)
  unfolding sort_by_key
  All-sort_by_key P [] h = h
  All-sort_by_key P (x ∷ xs) h =
      All-put_in_order P x (sort_by_key xs) h.0 (All-sort_by_key P xs h.1)

  length-put_in_order : (x : A) (xs : List A) → length (put_in_order x xs) ≡ suc (length xs)
  unfolding put_in_order
  length-put_in_order x [] = refl
  length-put_in_order x (y ∷ ys) = ground (arith, length-put_in_order x ys)

  pub length-sort_by_key : (xs : List A) → length (sort_by_key xs) ≡ length xs
  unfolding sort_by_key
  length-sort_by_key [] = refl
  length-sort_by_key (x ∷ xs) =
      length-put_in_order x (sort_by_key xs) ∙ ap suc (length-sort_by_key xs)

  le_all :
      (x y : A) (ys : List A)
      → key x ≤ℤ key y
      → All (λ z. key y ≤ℤ key z) ys
      → All (λ z. key x ≤ℤ key z) ys
  le_all x y [] h hs = hs
  le_all x y (z ∷ zs) h hs = (omega (arith, hs.0), le_all x y zs h hs.1)

  put_in_order-InOrder : (x : A) (xs : List A) → InOrder xs → InOrder (put_in_order x xs)
  unfolding put_in_order
  put_in_order-InOrder x [] h = (record {}, record {})
  put_in_order-InOrder x (y ∷ ys) h = elim (Bool-cases (leb_ℤ (key x) (key y))) [
    | inl e ↦ let le : key x ≤ℤ key y = ground (arith, e) in rw e ((le, le_all x y ys le h.0), h)
    | inr e ↦
        let le : key y ≤ℤ key x = ground (arith, e) in
        rw e (All-put_in_order (λ z. key y ≤ℤ key z) x ys le h.0, put_in_order-InOrder x ys h.1)
  ]

  pub sort_by_key-InOrder : (xs : List A) → InOrder (sort_by_key xs)
  unfolding sort_by_key
  sort_by_key-InOrder [] = record {}
  sort_by_key-InOrder (x ∷ xs) = put_in_order-InOrder x (sort_by_key xs) (sort_by_key-InOrder xs)
