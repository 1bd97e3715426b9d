-- ===== src/Base/Keys.antt =====
-- The orders of the keys of maps: texts byte after byte, and pairs of a text and an integer.
use mathlib.Core.Path.{◌≡◌, refl, sym, subst, ap₂}
use mathlib.Core.Bool.{Bool, true, false, ◌&&◌, ◌||◌}
use mathlib.Core.List.{[], ◌∷◌}
use native.Mathlib.Omega.{arith}
use my_telemetry_server.Base.Tests.{ltb, ◌==◌}
use my_telemetry_server.Base.Str.{Str, str_eq, str_eq→eq, str_eq_refl}
use my_telemetry_server.Base.Int.{ℤ, ltb_ℤ, eq_of_parts}
use my_telemetry_server.Base.Assoc.{Order}

unfoldable pub str_lt : Str → Str → Bool
str_lt [] [] = false
str_lt [] (b ∷ bs) = true
str_lt (a ∷ as') [] = false
str_lt (a ∷ as') (b ∷ bs) = ltb a b || ((a == b) && str_lt as' bs)

str_lt_irrefl : (a : Str) → str_lt a a ≡ false
unfolding str_lt
str_lt_irrefl [] = refl
str_lt_irrefl (a ∷ as') = ground (arith, str_lt_irrefl as')

str_lt_trans : (a b c : Str) → str_lt a b ≡ true → str_lt b c ≡ true → str_lt a c ≡ true
unfolding str_lt
str_lt_trans [] [] c h k = k
str_lt_trans [] (y ∷ ys) [] h k = absurd (cc)
str_lt_trans [] (y ∷ ys) (z ∷ zs) h k = refl
str_lt_trans (x ∷ xs) [] c h k = absurd (cc)
str_lt_trans (x ∷ xs) (y ∷ ys) [] h k = absurd (cc)
str_lt_trans (x ∷ xs) (y ∷ ys) (z ∷ zs) h k = ground (arith, str_lt_trans xs ys zs)

str_lt_connected : (a b : Str) → str_lt a b ≡ false → str_lt b a ≡ false → a ≡ b
unfolding str_lt
str_lt_connected [] [] h k = refl
str_lt_connected [] (y ∷ ys) h k = absurd (cc)
str_lt_connected (x ∷ xs) [] h k = absurd (cc)
str_lt_connected (x ∷ xs) (y ∷ ys) h k =
    ap₂ (λ a as'. a ∷ as') (ground arith) (str_lt_connected xs ys (ground arith) (ground arith))

instance pub by_bytes : Order Str
by_bytes = record {
  lt = str_lt;
  lt_irrefl = str_lt_irrefl;
  lt_trans = str_lt_trans;
  lt_connected = str_lt_connected;
}

-- The derived order of a pair: by the text, then by the integer.
unfoldable pub scope_lt : Str × ℤ → Str × ℤ → Bool
scope_lt a b = str_lt a.0 b.0 || (str_eq a.0 b.0 && ltb_ℤ a.1 b.1)

scope_lt_irrefl : (a : Str × ℤ) → scope_lt a a ≡ false
unfolding scope_lt
scope_lt_irrefl a = ground (arith, str_lt_irrefl a.0)

scope_lt_trans : (a b c : Str × ℤ) → scope_lt a b ≡ true → scope_lt b c ≡ true → scope_lt a c ≡ true
unfolding scope_lt
scope_lt_trans a b c h k =
    ground (arith, str_lt_trans a.0 b.0 c.0, str_eq→eq a.0 b.0, str_eq→eq b.0 c.0, str_eq_refl a.0)

not_after : (a b : Str × ℤ) → a.0 ≡ b.0 → scope_lt a b ≡ false → ltb_ℤ a.1 b.1 ≡ false
unfolding scope_lt
not_after a b e h = ground (arith, subst (λ s. str_eq a.0 s ≡ true) e (str_eq_refl a.0))

scope_lt_connected : (a b : Str × ℤ) → scope_lt a b ≡ false → scope_lt b a ≡ false → a ≡ b
unfolding scope_lt
scope_lt_connected a b h k =
    ap₂ (λ s n. (s, n)) same
      (eq_of_parts a.1 b.1 (ground (arith, not_after a b same h, not_after b a (sym same) k)))
  where
    same : a.0 ≡ b.0
    same = str_lt_connected a.0 b.0 (ground arith) (ground arith)

instance pub by_scope : Order (Str × ℤ)
by_scope = record {
  lt = scope_lt;
  lt_irrefl = scope_lt_irrefl;
  lt_trans = scope_lt_trans;
  lt_connected = scope_lt_connected;
}
