-- ===== src/Base/Assoc.antt =====
-- `BTreeMap`: an association list in the order of its keys, for a total order which is an instance
-- argument.
use Prim.Native.Nat.{ℕ, suc, ◌+◌}
use mathlib.Core.Path.{◌≡◌, refl, sym, ap, subst}
use mathlib.Core.Logic.{◌≢◌, inl, inr}
use mathlib.Core.Bool.{Bool, true, false, not, ◌&&◌}
use mathlib.Core.Option.{Option, none, some}
use mathlib.Core.List.{List, [], ◌∷◌}
use native.Mathlib.Omega.{arith}
use my_telemetry_server.Base.Tests.{if◌then◌else◌, Bool-cases}
use my_telemetry_server.Base.Lists.{length, All}

pub record Order {ℓ} (K : Type ℓ) : Type ℓ where
  pub lt : K → K → Bool
  pub lt_irrefl : (a : K) → lt a a ≡ false
  pub lt_trans : (a b c : K) → lt a b ≡ true → lt b c ≡ true → lt a c ≡ true
  pub lt_connected : (a b : K) → lt a b ≡ false → lt b a ≡ false → a ≡ b

-- The number of what a lookup found: nothing counts as 0.
abbrev pub value_or {ℓ} : {V : Type ℓ} → (V → ℕ) → Option V → ℕ
value_or f none = 0
value_or f (some v) = f v

module _ {ℓ} {K : Type ℓ} ⦃order : Order K⦄ where
  unfoldable pub same_key : K → K → Bool
  same_key a b = not (order.lt a b) && not (order.lt b a)

  pub same_key_refl : (a : K) → same_key a a ≡ true
  unfolding same_key
  same_key_refl a = ground (arith, order.lt_irrefl a)

  pub same_key→eq : (a b : K) → same_key a b ≡ true → a ≡ b
  unfolding same_key
  same_key→eq a b h = order.lt_connected a b (ground arith) (ground arith)

  pub ne→same_key : (a b : K) → a ≢ b → same_key a b ≡ false
  ne→same_key a b h = elim (Bool-cases (same_key a b)) [
    | inl e ↦ absurd (h (same_key→eq a b e))
    | inr e ↦ e
  ]

  pub lt-ne : (a b : K) → order.lt a b ≡ true → b ≢ a
  lt-ne a b h e = cc (h, order.lt_irrefl a, ap (order.lt a) e)

  pub same_key_of : (a b : K) → order.lt a b ≡ false → order.lt b a ≡ false → same_key a b ≡ true
  unfolding same_key
  same_key_of a b p q = ground arith

  pub lt-same_key : (a b : K) → order.lt a b ≡ true → same_key a b ≡ false
  unfolding same_key
  lt-same_key a b h = ground arith

  pub gt-same_key : (a b : K) → order.lt b a ≡ true → same_key a b ≡ false
  unfolding same_key
  gt-same_key a b h = ground arith

module _ {ℓ κ} {K : Type ℓ} {V : Type κ} ⦃order : Order K⦄ where
  unfoldable pub get : K → List (K × V) → Option V
  unfolding same_key
  get k [] = none
  get k ((key, v) ∷ m) = if same_key k key then some v else get k m

  unfoldable pub insert : K → V → List (K × V) → List (K × V)
  insert k v [] = (k, v) ∷ []
  insert k v ((key, w) ∷ m) =
      if order.lt k key
      then (k, v) ∷ (key, w) ∷ m
      else if order.lt key k
      then (key, w) ∷ insert k v m
      else (k, v) ∷ m

  unfoldable pub remove : K → List (K × V) → List (K × V)
  unfolding same_key
  remove k [] = []
  remove k ((key, w) ∷ m) = if same_key k key then m else (key, w) ∷ remove k m

  abbrev pub IsSorted : List (K × V) → Type (ℓ ⊔ κ)
  IsSorted [] = Unit {ℓ ⊔ κ}
  IsSorted ((k, v) ∷ m) = All (λ e. order.lt k e.0 ≡ true) m × IsSorted m

  pub get-insert : (k : K) (v : V) (m : List (K × V)) → get k (insert k v m) ≡ some v
  unfolding get insert
  get-insert k v [] = rw (same_key_refl k)
  get-insert k v ((key, w) ∷ m) =
      ground (arith, same_key_refl k, gt-same_key k key, get-insert k v m)

  pub get-insert_ne : (k j : K) (v : V) (m : List (K × V)) → k ≢ j → get k (insert j v m) ≡ get k m
  unfolding get insert
  get-insert_ne k j v [] h = rw (ne→same_key k j h)
  get-insert_ne k j v ((key, w) ∷ m) h =
      ground (arith, ne→same_key k j h, get-insert_ne k j v m h, order.lt_connected j key)

  -- Nothing of a map whose keys are all after `k` is under `k`.
  pub get-none : (k : K) (m : List (K × V)) → All (λ e. order.lt k e.0 ≡ true) m → get k m ≡ none
  unfolding get
  get-none k [] h = refl
  get-none k ((key, w) ∷ m) h = ground (arith, lt-same_key k key h.0, get-none k m h.1)

  pub All-insert {μ} :
      (P : K × V → Type μ) (k : K) (v : V) (m : List (K × V))
      → P (k, v)
      → All P m
      → All P (insert k v m)
  unfolding insert
  All-insert P k v [] p h = (p, h)
  All-insert P k v ((key, w) ∷ m) p h = ground (arith, All-insert P k v m p h.1)

  pub All-remove {μ} :
      (P : K × V → Type μ) (k : K) (m : List (K × V)) → All P m → All P (remove k m)
  unfolding remove
  All-remove P k [] h = h
  All-remove P k ((key, w) ∷ m) h = ground (arith, All-remove P k m h.1)

  -- What holds of all entries holds of the one found, under the key it was looked up by.
  pub All_get {μ} :
      (P : K × V → Type μ) (k : K) (m : List (K × V)) (v : V)
      → All P m
      → get k m ≡ some v
      → P (k, v)
  unfolding get
  All_get P k [] v h e = absurd (cc)
  All_get P k ((key, w) ∷ m) v h e = elim (Bool-cases (same_key k key)) [
    | inl same ↦
        let found : w ≡ v = ground (arith, same) in
        subst (λ j. P (j, v)) (sym (same_key→eq k key same)) (subst (λ x. P (key, x)) found h.0)
    | inr other ↦ All_get P k m v h.1 (ground arith)
  ]

  All_after :
      (k j : K) (m : List (K × V))
      → order.lt k j ≡ true
      → All (λ e. order.lt j e.0 ≡ true) m
      → All (λ e. order.lt k e.0 ≡ true) m
  All_after k j [] h hs = hs
  All_after k j ((key, w) ∷ m) h hs = (order.lt_trans k j key h hs.0, All_after k j m h hs.1)

  All_same :
      (k j : K) (m : List (K × V))
      → order.lt k j ≡ false
      → order.lt j k ≡ false
      → All (λ e. order.lt j e.0 ≡ true) m
      → All (λ e. order.lt k e.0 ≡ true) m
  All_same k j m p q = subst (λ x. All (λ e. order.lt x e.0 ≡ true) m) (order.lt_connected j k q p)

  pub insert-IsSorted : (k : K) (v : V) (m : List (K × V)) → IsSorted m → IsSorted (insert k v m)
  unfolding insert
  insert-IsSorted k v [] h = (record {}, record {})
  insert-IsSorted k v ((key, w) ∷ m) h = ground (
    arith,
    insert-IsSorted k v m h.1,
    All_after k key m,
    All-insert (λ e. order.lt key e.0 ≡ true) k v m,
    All_same k key m,
    h.0,
    h.1,
  )

  pub remove-IsSorted : (k : K) (m : List (K × V)) → IsSorted m → IsSorted (remove k m)
  unfolding remove
  remove-IsSorted k [] h = h
  remove-IsSorted k ((key, w) ∷ m) h =
      ground (arith, remove-IsSorted k m h.1, All-remove (λ e. order.lt key e.0 ≡ true) k m h.0)

  -- What is added up over the values of a map.
  abbrev pub sum_of : (V → ℕ) → List (K × V) → ℕ
  sum_of f [] = 0
  sum_of f ((k, v) ∷ m) = f v + sum_of f m

  pub sum_of-insert :
      (f : V → ℕ) (k : K) (v : V) (m : List (K × V))
      → IsSorted m
      → sum_of f (insert k v m) + value_or f (get k m) ≡ f v + sum_of f m
  unfolding get insert
  sum_of-insert f k v [] h = omega arith
  sum_of-insert f k v ((key, w) ∷ m) h = ground (
    arith,
    lt-same_key k key,
    gt-same_key k key,
    same_key_of k key,
    get-none k m,
    All_after k key m,
    h.0,
    sum_of-insert f k v m h.1,
  )

  pub sum_of-remove :
      (f : V → ℕ) (k : K) (m : List (K × V))
      → sum_of f (remove k m) + value_or f (get k m) ≡ sum_of f m
  unfolding get remove
  sum_of-remove f k [] = omega arith
  sum_of-remove f k ((key, w) ∷ m) = ground (arith, sum_of-remove f k m)

  pub get-remove : (k : K) (m : List (K × V)) → IsSorted m → get k (remove k m) ≡ none
  unfolding get remove
  get-remove k [] h = refl
  get-remove k ((key, w) ∷ m) h = ground (
    arith,
    get-remove k m h.1,
    get-none k m,
    All_same k key m,
    same_key→eq k key,
    h.0,
    order.lt_irrefl k,
  )

  pub get-remove_ne : (k j : K) (m : List (K × V)) → k ≢ j → get k (remove j m) ≡ get k m
  unfolding get remove
  get-remove_ne k j [] h = refl
  get-remove_ne k j ((key, w) ∷ m) h = elim (Bool-cases (same_key j key)) [
    | inl e ↦ ground (arith, e, ne→same_key k j h, same_key→eq j key e)
    | inr e ↦ ground (arith, get-remove_ne k j m h)
  ]

  pub length-remove :
      (k : K) (m : List (K × V)) (v : V) → get k m ≡ some v → suc (length (remove k m)) ≡ length m
  unfolding get remove
  length-remove k [] v h = absurd (cc)
  length-remove k ((key, w) ∷ m) v h = ground (arith, length-remove k m v)

  get_later :
      (e : K × V) (m es : List (K × V))
      → All (λ x. order.lt e.0 x.0 ≡ true) es
      → All (λ x. get x.0 m ≡ some x.1) es
      → All (λ x. get x.0 (e ∷ m) ≡ some x.1) es
  unfolding get
  get_later e m [] h hs = record {}
  get_later e m (x ∷ es) h hs =
      (ground (arith, gt-same_key x.0 e.0 h.0, hs.0), get_later e m es h.1 hs.1)

  -- Each entry of a map is found under its key.
  pub get_all : (m : List (K × V)) → IsSorted m → All (λ x. get x.0 m ≡ some x.1) m
  get_all [] h = record {}
  get_all (e ∷ m) h =
      (unfold get in rw (same_key_refl e.0) refl, get_later e m m h.0 (get_all m h.1))

  pub get_first :
      (e : K × V) (m : List (K × V))
      → IsSorted (e ∷ m)
      → (get e.0 (e ∷ m) ≡ some e.1) × All (λ x. get x.0 (e ∷ m) ≡ some x.1) m
  get_first e m h = get_all (e ∷ m) h
