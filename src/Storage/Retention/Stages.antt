-- ===== src/Storage/Retention/Stages.antt =====
-- What is done to an hour, and when.
use my_telemetry_server.Base.{
  ℕ, ◌+◌, ◌*◌, ◌^◌, ◌≤◌, ◌<◌, ◌≡◌, ap, sym, ◌∙◌, arith, true, false, Bool, max, not, Bool-cases,
  inl, inr, ◌&&◌, ◌||◌,
}
use my_telemetry_server.Base.Int.{
  ℤ, pos, negsuc, pos_part, neg_part, ◌+ℤ◌, ◌-ℤ◌, int_laws, ◌≤ℤ◌, ◌<ℤ◌, wrap, ◌*ℕ◌, from_u64, leb_ℤ,
}
use my_telemetry_server.Storage.Retention.{
  hour_micros, local_hours, hour_start_of, local_time_is_over, expired_up_to, is_expired,
  is_to_upload, is_to_delete_locally,
}
use my_telemetry_server.Storage.Retention.Hours.{
  IsTime, HasHour, IsHourStart, wrap_small, hour_start_of_bounds, hour_start_of_greatest,
}
use mathlib.Core.Logic.{◌↔◌}

leb_ℤ_iff : (a b : ℤ) → (leb_ℤ a b ≡ true) ↔ (a ≤ℤ b)
leb_ℤ_iff a b = (λ h. ground arith, λ h. ground arith)

-- The least `i64` sum of a time and a span which is not negative.
add_span :
    (z : ℤ) (n : ℕ) → pos_part z + n < 2 ^ 63 → neg_part z ≤ 2 ^ 63 → wrap (z +ℤ pos n) ≡ z +ℤ pos n
unfolding ◌+ℤ◌
add_span (pos m) n p q = wrap_small _ (ground arith) (ground arith)
add_span (negsuc m) n p q = wrap_small _ (ground arith) (ground arith)

sub_span :
    (z : ℤ) (n : ℕ) → pos_part z < 2 ^ 63 → neg_part z + n ≤ 2 ^ 63 → wrap (z -ℤ pos n) ≡ z -ℤ pos n
unfolding ◌-ℤ◌
sub_span (pos m) n p q = wrap_small _ (ground arith) (ground arith)
sub_span (negsuc m) n p q = wrap_small _ (ground arith) (ground arith)

add_bounds :
    (z : ℤ) (n : ℕ)
    → (pos_part (z +ℤ pos n) ≤ pos_part z + n) × (neg_part (z +ℤ pos n) ≤ neg_part z)
unfolding ◌+ℤ◌
add_bounds (pos m) n = ground arith
add_bounds (negsuc m) n = ground arith

sub_bounds :
    (z : ℤ) (n : ℕ)
    → (pos_part (z -ℤ pos n) ≤ pos_part z) × (neg_part (z -ℤ pos n) ≤ neg_part z + n)
unfolding ◌-ℤ◌
sub_bounds (pos m) n = ground arith
sub_bounds (negsuc m) n = ground arith

-- An hour is over on the local disk from two hours after its end on.
pub local_time_is_over_iff :
    (hour_start now : ℤ)
    → IsTime hour_start
    → (local_time_is_over hour_start now ≡ true) ↔ (hour_start +ℤ pos (3 * hour_micros) ≤ℤ now)
local_time_is_over_iff hour_start now h =
    let (a, b) = leb_ℤ_iff over now in
    (λ e. omega (int_laws, a (sym same ∙ e)), λ le. same ∙ b (omega int_laws))
  where
    over : ℤ
    over = (hour_start +ℤ pos hour_micros) +ℤ pos (local_hours * hour_micros)

    bounds :
        (pos_part (hour_start +ℤ pos hour_micros) ≤ pos_part hour_start + hour_micros)
        × (neg_part (hour_start +ℤ pos hour_micros) ≤ neg_part hour_start)
    bounds = add_bounds hour_start hour_micros

    same : local_time_is_over hour_start now ≡ leb_ℤ over now
    same =
        unfold local_time_is_over in
        ap (λ k. leb_ℤ k now)
          (ap (λ k. wrap (k +ℤ pos (local_hours * hour_micros)))
              (add_span hour_start hour_micros (omega arith) (omega arith))
            ∙ add_span (hour_start +ℤ pos hour_micros) (local_hours * hour_micros)
                (omega (arith, bounds)) (omega (arith, bounds)))

span_of_hours : (gc : ℕ) → gc < 10 ^ 9 → wrap (from_u64 gc *ℕ hour_micros) ≡ pos (gc * hour_micros)
unfolding from_u64 ◌*ℕ◌
span_of_hours gc h = ap wrap small ∙ wrap_small (pos (gc * hour_micros)) (omega arith) (omega arith)
  where
    small : from_u64 gc *ℕ hour_micros ≡ pos (gc * hour_micros)
    small = ground arith

-- An hour is older than what is kept from `gc` hours after its start on.
pub is_expired_iff :
    (hour_start now : ℤ) (gc : ℕ)
    → IsHourStart hour_start
    → IsTime now
    → gc < 10 ^ 9
    → (is_expired hour_start now gc ≡ true) ↔ (hour_start +ℤ pos (gc * hour_micros) ≤ℤ now)
is_expired_iff hour_start now gc is_start h few =
    let (a, b) = leb_ℤ_iff hour_start (hour_start_of kept_from) in
    let (start, lo, hi) = hour_start_of_bounds kept_from has_hour in
    (
      λ e. omega (int_laws, lo, a (sym same ∙ e)),
      λ le.
          same ∙ b (hour_start_of_greatest kept_from hour_start has_hour is_start (omega int_laws)),
    )
  where
    kept_from : ℤ
    kept_from = now -ℤ pos (gc * hour_micros)

    has_hour : HasHour kept_from
    has_hour = omega (arith, sub_bounds now (gc * hour_micros))

    same : is_expired hour_start now gc ≡ leb_ℤ hour_start (hour_start_of kept_from)
    same =
        unfold is_expired expired_up_to in
        ap (λ k. leb_ℤ hour_start (hour_start_of k))
          (ap (λ k. wrap (now -ℤ k)) (span_of_hours gc few)
            ∙ sub_span now (gc * hour_micros) (omega arith) (omega arith))

module _ {P Q : Type 0} (o x : Bool) (is_o : (o ≡ true) ↔ P) (is_x : (x ≡ true) ↔ Q) where
  and_not_iff : ((o && not x) ≡ true) ↔ (P × (¬ Q))
  and_not_iff = (
    λ e. (is_o.0 (ground arith), λ q. absurd (ground (arith, is_x.1 q))),
    λ h. elim (Bool-cases x) [
      | inl e ↦ absurd (h.1 (is_x.0 e))
      | inr e ↦ rw e (ground (arith, is_o.1 h.0))
    ],
  )

  and_iff : ((o && (not true || x)) ≡ true) ↔ (P × Q)
  and_iff = (
    λ e. (is_o.0 (ground arith), is_x.0 (ground arith)),
    λ h. ground (arith, is_o.1 h.0, is_x.1 h.1),
  )

-- The table of the README: an hour is uploaded from two hours after its end until it is `gc` hours
-- old; with S3 it is deleted from the local disk once it is that old and its local time is over,
-- without S3 as soon as its local time is over.
pub stages_of_hour :
    (hour_start now : ℤ) (gc : ℕ)
    → IsHourStart hour_start
    → IsTime hour_start
    → IsTime now
    → gc < 10 ^ 9
    → ((is_to_upload hour_start now gc ≡ true) ↔ (
        (hour_start +ℤ pos (3 * hour_micros) ≤ℤ now)
        × (now <ℤ hour_start +ℤ pos (gc * hour_micros))))
      × ((is_to_delete_locally hour_start now gc true ≡ true)
          ↔ (hour_start +ℤ pos (max 3 gc * hour_micros) ≤ℤ now))
      × ((is_to_delete_locally hour_start now gc false ≡ true)
          ↔ (hour_start +ℤ pos (3 * hour_micros) ≤ℤ now))
unfolding is_to_upload is_to_delete_locally
stages_of_hour hour_start now gc is_start h k few =
    let o : Bool = local_time_is_over hour_start now in
    let x : Bool = is_expired hour_start now gc in
    let is_o = local_time_is_over_iff hour_start now h in
    let is_x = is_expired_iff hour_start now gc is_start k few in
    let (up_to, up_of) = and_not_iff o x is_o is_x in
    let (del_to, del_of) = and_iff o x is_o is_x in
    (
      (λ e. ((up_to e).0, omega (arith, (up_to e).1)), λ p. up_of (p.0, omega (arith, p))),
      (λ e. omega (int_laws, del_to e), λ p. del_of (omega int_laws, omega int_laws)),
      (λ e. is_o.0 (ground arith), λ p. ground (arith, is_o.1 p)),
    )

-- With three hours or less to keep no hour is ever uploaded.
pub is_to_upload_short :
    (hour_start now : ℤ) (gc : ℕ)
    → IsHourStart hour_start
    → IsTime hour_start
    → IsTime now
    → gc ≤ 3
    → is_to_upload hour_start now gc ≡ false
is_to_upload_short hour_start now gc is_start h k few =
    elim (Bool-cases (is_to_upload hour_start now gc)) [
      | inl e ↦
          let (late, early) =
            ((stages_of_hour hour_start now gc is_start h k (omega arith)).0).0 e in
          absurd (omega (int_laws, late, early))
      | inr e ↦ e
    ]
