-- ===== src/Core/Money/Cost.antt =====
-- What estimate_cost_micros and parse_usd_decimal of money.rs return, in the range of an `i64`.
use wanax.Prelude.{
  ℕ, ◌+◌, ◌*◌, ◌/◌, ◌^◌, ◌≤◌, ◌<◌, ◌≡◌, Bool, List, arith, ◌-◌, length, is_empty, Bool-cases, inl,
  inr, sym, ◌∙◌, refl,
}
use wanax.Prelude.Int.{ℤ, pos, negsuc, pos_part, neg_part, quot, ◌+ℤ◌, ◌*ℤ◌}
use wanax.Core.Decimal.{value}
use wanax.Core.Money.{
  estimate_cost_micros, as_i64, parse_usd_decimal, parse_halves, parse_trimmed, parse_parts,
  to_micros, ok, i64_max, pad_6, parse_i64, trim, strip_sign, split_dot, starts_with_minus,
}

-- An `i64`.
abbrev pub IsI64 : ℤ → Type 0
IsI64 a = (pos_part a < 2 ^ 63) × (neg_part a ≤ 2 ^ 63)

pub as_i64-IsI64 : (a : ℤ) → IsI64 (as_i64 a)
unfolding as_i64
as_i64-IsI64 (pos n) = ground arith
as_i64-IsI64 (negsuc n) = ground arith

pub as_i64-small : (n : ℕ) → n < 2 ^ 63 → as_i64 (pos n) ≡ pos n
unfolding as_i64
as_i64-small n h = ground arith

estimate_sum :
    (chars_in chars_out rate_in rate_out : ℕ)
    → quot (chars_in *ℤ pos rate_in) 1000000 +ℤ quot (chars_out *ℤ pos rate_out) 1000000
      ≡ pos (chars_in * rate_in / 1000000 + chars_out * rate_out / 1000000)
unfolding quot ◌+ℤ◌ ◌*ℤ◌
estimate_sum chars_in chars_out rate_in rate_out = ground arith

-- With rates that are not negative, a cost that fits is each product of a count and a rate, divided by a
-- million and rounded down, added up.
estimate_exact :
    (chars_in chars_out rate_in rate_out : ℕ)
    → chars_in * rate_in / 1000000 + chars_out * rate_out / 1000000 < 2 ^ 63
    → estimate_cost_micros chars_in chars_out (pos rate_in) (pos rate_out)
      ≡ pos (chars_in * rate_in / 1000000 + chars_out * rate_out / 1000000)
unfolding estimate_cost_micros
estimate_exact chars_in chars_out rate_in rate_out h =
    rw (estimate_sum chars_in chars_out rate_in rate_out)
      (as_i64-small (chars_in * rate_in / 1000000 + chars_out * rate_out / 1000000) h)

-- A cost is an `i64`, whatever the counts and the rates.
pub estimate-IsI64 :
    (chars_in chars_out : ℕ) (rate_in rate_out : ℤ)
    → IsI64 (estimate_cost_micros chars_in chars_out rate_in rate_out)
unfolding estimate_cost_micros
estimate-IsI64 chars_in chars_out rate_in rate_out =
    as_i64-IsI64 (quot (chars_in *ℤ rate_in) 1000000 +ℤ quot (chars_out *ℤ rate_out) 1000000)

to_micros-le :
    (minus : Bool) (w f : ℕ) {m : ℤ}
    → to_micros minus w f ≡ ok m
    → (pos_part m ≤ i64_max) × (neg_part m ≤ i64_max)
unfolding to_micros
to_micros-le minus w f h = ground arith

parse_parts-le :
    (minus : Bool) (w f : List ℕ) {m : ℤ}
    → parse_parts minus w f ≡ ok m
    → (pos_part m ≤ i64_max) × (neg_part m ≤ i64_max)
unfolding parse_parts parse_i64
parse_parts-le minus w f h =
    ground (arith, to_micros-le minus (value 0 w) (value 0 (pad_6 (6 - length f) f)))

parse_halves-le :
    (minus : Bool) (halves : List ℕ × List ℕ) {m : ℤ}
    → parse_halves minus halves ≡ ok m
    → (pos_part m ≤ i64_max) × (neg_part m ≤ i64_max)
parse_halves-le minus (w, f) h = parse_parts-le minus w f h

parse_trimmed-le :
    (s : List ℕ) {m : ℤ} → parse_trimmed s ≡ ok m → (pos_part m ≤ i64_max) × (neg_part m ≤ i64_max)
unfolding parse_trimmed
parse_trimmed-le s {m} h = elim (Bool-cases (is_empty s)) [
  | inl e ↦ cc
  | inr e ↦ parse_halves-le (starts_with_minus s) (split_dot (strip_sign s)) (sym (rw e refl) ∙ h)
]

-- A parsed amount is in the symmetric range of an `i64`: no sum wraps, and the sign can be put back.
parse-in_range :
    (s : List ℕ) {m : ℤ}
    → parse_usd_decimal s ≡ ok m
    → (pos_part m ≤ i64_max) × (neg_part m ≤ i64_max)
unfolding parse_usd_decimal
parse-in_range s h = parse_trimmed-le (trim s) h
