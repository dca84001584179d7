-- ===== src/Core/Money.antt =====
-- Money in micro-dollars: crates/wanax-core/src/money.rs. A text is the list of its code points.
pub mod RoundTrip
pub mod Cost
use wanax.Prelude.{
  ℕ, ◌+◌, ◌-◌, ◌*◌, ◌/◌, ◌%◌, ◌^◌, zero, suc, Bool, true, false, not, ◌&&◌, ◌||◌, Option, none,
  some, List, [], ◌∷◌, ◌++◌, ltb, leb, ◌==◌, all, any, length, is_empty, if◌then◌else◌,
}
use wanax.Prelude.Int.{ℤ, pos, negsuc, neg, neg_part, pos_part, quot, ◌+ℤ◌, ◌*ℤ◌, ltb_ℤ}
use wanax.Core.Decimal.{print, print_06, is_digit, value}

abbrev pub usd_micros_per_unit : ℕ
usd_micros_per_unit = 1000000

-- `i64::MAX`
abbrev pub i64_max : ℕ
i64_max = 9223372036854775807

-- `char::is_whitespace`
unfoldable pub is_whitespace : ℕ → Bool
is_whitespace c =
    (leb 9 c && leb c 13)
    || (c == 32)
    || (c == 0x85)
    || (c == 0xa0)
    || (c == 0x1680)
    || (leb 0x2000 c && leb c 0x200a)
    || (c == 0x2028)
    || (c == 0x2029)
    || (c == 0x202f)
    || (c == 0x205f)
    || (c == 0x3000)

-- `str::trim`
unfoldable pub trim_start : List ℕ → List ℕ
trim_start [] = []
trim_start (c ∷ s) = if is_whitespace c then trim_start s else c ∷ s

unfoldable pub trim_end : List ℕ → List ℕ
trim_end [] = []
trim_end (c ∷ s) =
    let rest = trim_end s in if is_whitespace c && is_empty rest then [] else c ∷ rest

unfoldable pub trim : List ℕ → List ℕ
unfolding trim_start trim_end
trim s = trim_end (trim_start s)

-- `s.strip_prefix(['-', '+']).unwrap_or(s)`
unfoldable pub strip_sign : List ℕ → List ℕ
strip_sign [] = []
strip_sign (c ∷ s) = if c == b'-' || c == b'+' then s else c ∷ s

abbrev pub starts_with_minus : List ℕ → Bool
starts_with_minus [] = false
starts_with_minus (c ∷ _) = c == b'-'

-- `s.split_once('.')`, with the fallback `(s, "")`
unfoldable pub split_dot : List ℕ → List ℕ × List ℕ
split_dot [] = ([], [])
split_dot (c ∷ s) = let (w, f) = split_dot s in if c == b'.' then ([], s) else (c ∷ w, f)

pub data MoneyError : Type 0 where
  empty_amount invalid_amount invalid_fraction precision overflow : MoneyError

pub data Parsed : Type 0 where
  ok : ℤ → Parsed
  err : MoneyError → Parsed

-- `parse::<i64>` of a text of digits
unfoldable pub parse_i64 : List ℕ → Option ℕ
parse_i64 s = if ltb i64_max (value 0 s) then none else some (value 0 s)

-- `while frac_padded.len() < 6 { push('0') }`
unfoldable pub pad_6 : ℕ → List ℕ → List ℕ
pad_6 zero s = s
pad_6 (suc n) s = pad_6 n (s ++ b'0' ∷ [])

-- The checked sum, and the sign put back.
unfoldable pub to_micros : Bool → ℕ → ℕ → Parsed
to_micros minus whole frac =
    if ltb i64_max (whole * usd_micros_per_unit)
    then err overflow
    else if ltb i64_max (whole * usd_micros_per_unit + frac)
    then err overflow
    else ok (
        if minus
        then neg (pos (whole * usd_micros_per_unit + frac))
        else pos (whole * usd_micros_per_unit + frac))

unfoldable pub parse_parts : Bool → List ℕ → List ℕ → Parsed
unfolding to_micros parse_i64 pad_6
parse_parts minus whole frac =
    if is_empty whole || not (all is_digit whole)
    then err invalid_amount
    else if any (λ c. not (is_digit c)) frac
    then err invalid_fraction
    else if ltb 6 (length frac)
    then err precision
    else elim (parse_i64 whole) [
      | none ↦ err overflow
      | some w ↦ elim (parse_i64 (pad_6 (6 - length frac) frac)) [
        | none ↦ err overflow
        | some f ↦ to_micros minus w f
      ]
    ]

abbrev pub parse_halves : Bool → List ℕ × List ℕ → Parsed
parse_halves minus (whole, frac) = parse_parts minus whole frac

unfoldable pub parse_trimmed : List ℕ → Parsed
unfolding strip_sign split_dot
parse_trimmed s =
    if is_empty s
    then err empty_amount
    else parse_halves (starts_with_minus s) (split_dot (strip_sign s))

unfoldable pub parse_usd_decimal : List ℕ → Parsed
unfolding trim parse_trimmed
parse_usd_decimal text = parse_trimmed (trim text)

-- The two halves of the printed amount: `unsigned_abs` divided by the unit.
unfoldable pub format_magnitude : ℕ → List ℕ
format_magnitude m = print (m / usd_micros_per_unit) ++ b'.' ∷ print_06 (m % usd_micros_per_unit)

unfoldable pub format_usd : ℤ → List ℕ
unfolding format_magnitude
format_usd (pos m) = format_magnitude m
format_usd (negsuc m) = b'-' ∷ format_magnitude (suc m)

-- `&f[..4.min(f.len())]`
abbrev pub first_of : ℕ → List ℕ → List ℕ
first_of zero s = []
first_of (suc n) [] = []
first_of (suc n) (c ∷ s) = c ∷ first_of n s

unfoldable pub format_usd_4 : ℤ → List ℕ
unfolding format_usd split_dot
format_usd_4 micros =
    let s = format_usd micros in
    let (w, f) = split_dot s in if any (λ c. c == b'.') s then w ++ b'.' ∷ first_of 4 f else s

-- The conversion `as i64` of a wider integer: two's complement.
unfoldable pub as_i64 : ℤ → ℤ
as_i64 (pos n) = let r = n % 2 ^ 64 in if ltb r (2 ^ 63) then pos r else negsuc (2 ^ 64 - 1 - r)
as_i64 (negsuc n) = let r = n % 2 ^ 64 in if ltb r (2 ^ 63) then negsuc r else pos (2 ^ 64 - 1 - r)

-- The products fit in `i128`, since a count is a `u64` and a rate an `i64`.
unfoldable pub estimate_cost_micros : ℕ → ℕ → ℤ → ℤ → ℤ
unfolding as_i64
estimate_cost_micros chars_in chars_out rate_in rate_out =
    as_i64 (quot (chars_in *ℤ rate_in) 1000000 +ℤ quot (chars_out *ℤ rate_out) 1000000)
