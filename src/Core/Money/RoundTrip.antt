-- ===== src/Core/Money/RoundTrip.antt =====
-- Printing an amount of money.rs and parsing it again.
use wanax.Prelude.{
  ℕ, ◌/◌, ◌%◌, ◌≤◌, ◌<◌, ◌≡◌, refl, ap, Bool, true, false, not, List, [], ◌∷◌, ◌++◌, arith, all,
  any, length, is_empty, if◌then◌else◌, suc, ◌∙◌,
}
use wanax.Prelude.Int.{ℤ, pos, negsuc, neg, pos_part, neg_part, eq_of_parts}
use mathlib.Core.List.{append-nil}
use wanax.Core.Decimal.{
  print, print_06, is_digit, value-print, value-print_06, all-print, all-print_06, print-pos,
  length-print_06,
}
use wanax.Core.Money.{
  is_whitespace, trim_start, trim_end, trim, strip_sign, starts_with_minus, split_dot, ok,
  parse_parts, parse_halves, parse_trimmed, parse_usd_decimal, format_magnitude, format_usd,
  i64_max,
}

abbrev no_space : ℕ → Bool
no_space c = not (is_whitespace c)

trim_start-none : (s : List ℕ) → all no_space s ≡ true → trim_start s ≡ s
unfolding trim_start
trim_start-none [] h = refl
trim_start-none (c ∷ s) h = ground arith

trim_end-none : (s : List ℕ) → all no_space s ≡ true → trim_end s ≡ s
unfolding trim_end
trim_end-none [] h = refl
trim_end-none (c ∷ s) h = ground (arith, trim_end-none s (ground arith))

trim-none : (s : List ℕ) → all no_space s ≡ true → trim s ≡ s
unfolding trim
trim-none s h = ap trim_end (trim_start-none s h) ∙ trim_end-none s h

digit-no_space : (c : ℕ) → is_digit c ≡ true → no_space c ≡ true
unfolding is_whitespace
digit-no_space c h = ground arith

all-no_space :
    (w r : List ℕ) → all is_digit w ≡ true → all no_space r ≡ true → all no_space (w ++ r) ≡ true
all-no_space [] r h k = k
all-no_space (c ∷ w) r h k = ground (arith, digit-no_space c, all-no_space w r)

-- A text that begins with digits has no sign to strip.
digits_unsigned :
    (w r : List ℕ)
    → all is_digit w ≡ true
    → 0 < length w
    → (strip_sign (w ++ r) ≡ w ++ r) × (starts_with_minus (w ++ r) ≡ false)
unfolding strip_sign
digits_unsigned [] r h some_digit = elim some_digit [ ]
digits_unsigned (c ∷ w) r h some_digit = (ground arith, ground arith)

split_dot-digits : (w f : List ℕ) → all is_digit w ≡ true → split_dot (w ++ b'.' ∷ f) ≡ (w, f)
unfolding split_dot
split_dot-digits [] f h = refl
split_dot-digits (c ∷ w) f h = ground (arith, split_dot-digits w f)

any-not : (s : List ℕ) → all is_digit s ≡ true → any (λ c. not (is_digit c)) s ≡ false
any-not [] h = refl
any-not (c ∷ s) h = ground (arith, any-not s)

parse_parts-print :
    (minus : Bool) (m : ℕ)
    → m ≤ i64_max
    → parse_parts minus (print (m / 1000000)) (print_06 (m % 1000000))
      ≡ ok (if minus then neg (pos m) else pos m)
unfolding parse_parts
parse_parts-print minus m h = ground (
  arith,
  value-print (m / 1000000),
  value-print_06 (m % 1000000),
  all-print (m / 1000000),
  any-not (print_06 (m % 1000000)) (all-print_06 (m % 1000000)),
  print-pos (m / 1000000),
  length-print_06 (m % 1000000),
)

magnitude-no_space : (m : ℕ) → all no_space (format_magnitude m) ≡ true
unfolding format_magnitude is_whitespace
magnitude-no_space m =
    all-no_space (print (m / 1000000)) (b'.' ∷ print_06 (m % 1000000)) (all-print (m / 1000000)) (
      ground (
        arith,
        all-no_space (print_06 (m % 1000000)) [] (all-print_06 (m % 1000000)) refl,
        append-nil (print_06 (m % 1000000)),
      ))

magnitude_unsigned :
    (m : ℕ)
    → (strip_sign (format_magnitude m) ≡ format_magnitude m)
      × (starts_with_minus (format_magnitude m) ≡ false)
unfolding format_magnitude
magnitude_unsigned m =
    digits_unsigned (print (m / 1000000)) (b'.' ∷ print_06 (m % 1000000)) (all-print (m / 1000000))
      (print-pos (m / 1000000))

split_dot-magnitude :
    (m : ℕ) → split_dot (format_magnitude m) ≡ (print (m / 1000000), print_06 (m % 1000000))
unfolding format_magnitude
split_dot-magnitude m =
    split_dot-digits (print (m / 1000000)) (print_06 (m % 1000000)) (all-print (m / 1000000))

append-cons-ne-nil : (w : List ℕ) (c : ℕ) (f : List ℕ) → is_empty (w ++ c ∷ f) ≡ false
append-cons-ne-nil [] c f = refl
append-cons-ne-nil (d ∷ w) c f = refl

magnitude-ne-nil : (m : ℕ) → is_empty (format_magnitude m) ≡ false
unfolding format_magnitude
magnitude-ne-nil m = append-cons-ne-nil (print (m / 1000000)) b'.' (print_06 (m % 1000000))

trimmed_to_parts :
    (s b w f : List ℕ)
    → strip_sign s ≡ b
    → split_dot b ≡ (w, f)
    → is_empty s ≡ false
    → parse_trimmed s ≡ parse_parts (starts_with_minus s) w f
unfolding parse_trimmed
trimmed_to_parts s b w f stripped halves some_text =
    rw some_text (ap (λ k. parse_halves (starts_with_minus s) k) (ap split_dot stripped ∙ halves))

-- The steps of the parser before it reads the two halves.
parse_to_parts :
    (s b w f : List ℕ)
    → trim s ≡ s
    → strip_sign s ≡ b
    → split_dot b ≡ (w, f)
    → is_empty s ≡ false
    → parse_usd_decimal s ≡ parse_parts (starts_with_minus s) w f
unfolding parse_usd_decimal
parse_to_parts s b w f trimmed stripped halves some_text =
    ap parse_trimmed trimmed ∙ trimmed_to_parts s b w f stripped halves some_text

parse-positive : (m : ℕ) → m ≤ i64_max → parse_usd_decimal (format_magnitude m) ≡ ok (pos m)
parse-positive m h =
    let s = format_magnitude m in
    let w = print (m / 1000000) in
    let f = print_06 (m % 1000000) in
    parse_to_parts s s w f (trim-none s (magnitude-no_space m)) (magnitude_unsigned m).0
      (split_dot-magnitude m) (magnitude-ne-nil m)
    ∙ (ap (λ k. parse_parts k w f) (magnitude_unsigned m).1 ∙ parse_parts-print false m h)

parse-negative :
    (m : ℕ) → m ≤ i64_max → parse_usd_decimal (b'-' ∷ format_magnitude m) ≡ ok (neg (pos m))
unfolding strip_sign is_whitespace
parse-negative m h =
    let s = format_magnitude m in
    parse_to_parts (b'-' ∷ s) s (print (m / 1000000)) (print_06 (m % 1000000))
      (trim-none (b'-' ∷ s) (magnitude-no_space m)) refl (split_dot-magnitude m) refl
    ∙ parse_parts-print true m h

-- Every amount of an `i64` but the least one is read back from its printed form.
pub parse-format_usd :
    (m : ℤ) → pos_part m ≤ i64_max → neg_part m ≤ i64_max → parse_usd_decimal (format_usd m) ≡ ok m
unfolding format_usd
parse-format_usd (pos m) h k = parse-positive m h
parse-format_usd (negsuc m) h k =
    parse-negative (suc m) k ∙ ap ok (eq_of_parts (neg (pos (suc m))) (negsuc m) (ground arith))
