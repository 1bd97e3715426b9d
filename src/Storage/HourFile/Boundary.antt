-- ===== src/Storage/HourFile/Boundary.antt =====
-- The boundary at which hour_file.rs halves a frame is an entry of it, and there is one or an error.
use my_telemetry_server.Base.{
  ℕ, ◌+◌, ◌/◌, ◌≡◌, refl, sym, ap, ◌∙◌, arith, ltb, ◌==◌, some, List, [], ◌∷◌, drop, All, subst,
  ◌⊎◌, ◌||◌, ◌&&◌, Bool-cases, Option-cases, inl, inr, some_eq,
}
use my_telemetry_server.Base.Result.{Result, ok, err, Result-cases}
use my_telemetry_server.Storage.Varint.{Varint}
use my_telemetry_server.Storage.Frame.{Frame, FrameId, frame_header_len, used}
use my_telemetry_server.Storage.Entry.{entry_offsets}
use my_telemetry_server.Storage.Entry.Offsets.{IsOffset, entry_offsets-All}
use my_telemetry_server.Storage.Entry.Walk.{entry_offsets-ne-none}
use my_telemetry_server.Storage.HourFile.{HourError, of_entry, or_panic}
use my_telemetry_server.Storage.HourFile.Insert.{
  boundary_of, nearest, or_nearer, nearer, or_single, abs_diff,
}
use my_telemetry_server.Storage.HourFile.Puts.{IsRefusal}

nearer-cases : (middle a b : ℕ) → (nearer middle a b ≡ a) ⊎ (nearer middle a b ≡ b)
unfolding nearer
nearer-cases middle a b =
    elim (Bool-cases (
      ltb (abs_diff b middle) (abs_diff a middle)
      || ((abs_diff b middle == abs_diff a middle) && ltb b a))) [
        | inl k ↦ inr (rw k refl)
        | inr k ↦ inl (rw k refl)
      ]

nearest-All :
    (P : ℕ → Type 0) (middle : ℕ) (l : List ℕ) (o : ℕ) → All P l → nearest middle l ≡ some o → P o
unfolding nearest or_nearer
nearest-All P middle [] o h e = absurd (ground (arith, e))
nearest-All P middle (x ∷ xs) o h e = elim (Option-cases (nearest middle xs)) [
  | inl eq ↦ subst P (some_eq (rw eq at e)) h.0
  | inr (b, eq) ↦
      let pb : P b = nearest-All P middle xs b h.1 eq in
      let picked : (nearer middle x b ≡ x) ⊎ (nearer middle x b ≡ b) = nearer-cases middle x b in
      let same : nearer middle x b ≡ o = some_eq (rw eq at e) in
      elim picked [ inl is ↦ subst P (sym is ∙ same) h.0 | inr is ↦ subst P (sym is ∙ same) pb ]
]

All-drop_one : (P : ℕ → Type 0) (l : List ℕ) → All P l → All P (drop 1 l)
All-drop_one P [] h = h
All-drop_one P (x ∷ xs) h = h.1

abbrev pub BoundaryOutcome : Frame → Result HourError ℕ → Type 0
BoundaryOutcome f (ok boundary) = IsOffset f boundary
BoundaryOutcome f (err e) = IsRefusal e

pub boundary_of-Outcome :
    (varint : Varint) (f : Frame) (id : FrameId) → BoundaryOutcome f (boundary_of varint f id)
unfolding boundary_of
boundary_of-Outcome varint f id = elim (Option-cases (entry_offsets varint f)) [
  | inl none_left ↦ absurd (entry_offsets-ne-none varint f none_left)
  | inr (r, eq) ↦ elim (Result-cases r) [
    | inr (x, bad) ↦ unfold or_panic of_entry in rw (eq, bad) tt
    | inl (l, good) ↦
        let found : entry_offsets varint f ≡ some (ok l) = eq ∙ ap (λ x. some x) good in
        elim (Option-cases (nearest (frame_header_len + used f / 2) (drop 1 l))) [
          | inl single ↦ unfold or_panic of_entry or_single in rw (eq, good, single) tt
          | inr (o, near) ↦
              let inside : IsOffset f o =
                nearest-All (IsOffset f) (frame_header_len + used f / 2) (drop 1 l) o
                  (All-drop_one (IsOffset f) l (entry_offsets-All varint f l found)) near in
              unfold or_panic of_entry or_single in rw (eq, good, near) inside
        ]
  ]
]
