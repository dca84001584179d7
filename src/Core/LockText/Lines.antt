-- ===== src/Core/LockText/Lines.antt =====
-- The lines and the numbers of a lock file (crates/wanax-core/src/lock.rs), written and read back.
use Prim.Native.Char.{Char, code}
use Prim.Native.String.{slice, ◌++◌ as append}
use text.Mathlib.TextLemmas.{nil-append, cons-append}
use wanax.Prelude.{
  ℕ, zero, suc, ◌+◌, ◌-◌, ◌<◌, ◌≡◌, refl, ap, ◌∙◌, subst, String, Bool, true, false, not, ◌&&◌,
  List, [], ◌∷◌, ◌==◌, all, arith,
}
use wanax.Prelude.Text.{numeral, codes}
use wanax.Core.Contract.Sections.{lines, push_char}
use wanax.Core.Decimal.{print, is_digit, all-print}
use wanax.Core.Env.{trim_left, trim_right}
use wanax.Core.Money.{is_whitespace}
use wanax.Core.TestCommand.{trim}
use wanax.Core.LockText.{push_str, put_line}

-- Neither a line feed nor a carriage return.
abbrev pub is_inner : ℕ → Bool
is_inner c = not (c == 10) && not (c == 13)

abbrev pub IsLine : String → Type 0
IsLine s = all is_inner (codes s) ≡ true

push_char-cons :
    (c : Char) (l : String) (rest : List String)
    → push_char (String.◌∷◌ c "") (l ∷ rest) ≡ String.◌∷◌ c l ∷ rest
push_char-cons c l rest =
    ap (λ (t : String). t ∷ rest) (cons-append c "" l ∙ ap (λ t. String.◌∷◌ c t) (nil-append l))

lines-cons :
    (c : Char) (s : String)
    → is_inner (code c) ≡ true
    → lines (String.◌∷◌ c s) ≡ push_char (String.◌∷◌ c "") (lines s)
unfolding lines
lines-cons c s inner = ground arith

pub lines-put_line : (l rest : String) → IsLine l → lines (put_line l rest) ≡ l ∷ lines rest
unfolding lines put_line push_str
lines-put_line String.[] rest h = refl
lines-put_line (String.◌∷◌ c s) rest h =
    lines-cons c (put_line s rest) (ground arith)
    ∙ ap (λ ls. push_char (String.◌∷◌ c "") ls) (lines-put_line s rest (ground arith))
    ∙ push_char-cons c s (lines rest)

-- A text that is read back as it is written: it has no line feed and no carriage return, and no blank begins
-- or ends it.
pub record IsClean (s : String) : Type 0 where
  pub trimmed : trim s ≡ s
  pub line : IsLine s

-- The character of a digit.
IsDigitChar : ℕ → Type 0
IsDigitChar c =
    (d : Char) × (code d ≡ c) × (slice "-./0123456789" (c - 45) (c - 44) ≡ String.◌∷◌ d "")

digit_char : (k : ℕ) → k < 10 → IsDigitChar (48 + k)
unfolding IsDigitChar
digit_char zero h = (_, refl, refl)
digit_char (suc zero) h = (_, refl, refl)
digit_char (suc (suc zero)) h = (_, refl, refl)
digit_char (suc (suc (suc zero))) h = (_, refl, refl)
digit_char (suc (suc (suc (suc zero)))) h = (_, refl, refl)
digit_char (suc (suc (suc (suc (suc zero))))) h = (_, refl, refl)
digit_char (suc (suc (suc (suc (suc (suc zero)))))) h = (_, refl, refl)
digit_char (suc (suc (suc (suc (suc (suc (suc zero))))))) h = (_, refl, refl)
digit_char (suc (suc (suc (suc (suc (suc (suc (suc zero)))))))) h = (_, refl, refl)
digit_char (suc (suc (suc (suc (suc (suc (suc (suc (suc zero))))))))) h = (_, refl, refl)
digit_char (suc (suc (suc (suc (suc (suc (suc (suc (suc (suc k)))))))))) h = absurd (omega arith)

pub numeral-cons :
    (c : ℕ) (s : List ℕ)
    → is_digit c ≡ true
    → (d : Char) × (code d ≡ c) × (numeral (c ∷ s) ≡ String.◌∷◌ d (numeral s))
unfolding IsDigitChar
numeral-cons c s h =
    let same : 48 + (c - 48) ≡ c = ground arith in
    let (d, is, text) = subst IsDigitChar same (digit_char (c - 48) (ground arith)) in
    (
      d,
      is,
      ap (λ t. append t (numeral s)) text
          ∙ (cons-append d "" (numeral s) ∙ ap (λ t. String.◌∷◌ d t) (nil-append (numeral s))),
    )

pub codes-numeral : (s : List ℕ) → all is_digit s ≡ true → codes (numeral s) ≡ s
codes-numeral [] h = refl
codes-numeral (c ∷ s) h =
    let (d, is, text) = numeral-cons c s (ground arith) in
    ap codes text
    ∙ (ap (λ x. x ∷ codes (numeral s)) is ∙ ap (λ l. c ∷ l) (codes-numeral s (ground arith)))

digit-not_blank : (c : ℕ) → is_digit c ≡ true → is_whitespace c ≡ false
unfolding is_whitespace
digit-not_blank c h = ground arith

trim-digits : (s : String) → all is_digit (codes s) ≡ true → (trim_left s ≡ s) × (trim_right s ≡ s)
unfolding trim_left trim_right
trim-digits String.[] h = (refl, refl)
trim-digits (String.◌∷◌ c s) h =
    let (_, right) = trim-digits s (ground arith) in
    let inner = digit-not_blank (code c) (ground arith) in (rw inner refl, rw (inner, right) refl)

digits-IsLine : (s : String) → all is_digit (codes s) ≡ true → IsLine s
digits-IsLine String.[] h = refl
digits-IsLine (String.◌∷◌ c s) h = ground (arith, digits-IsLine s)

pub numeral-IsClean : (n : ℕ) → IsClean (numeral (print n))
unfolding trim
numeral-IsClean n =
    let s = numeral (print n) in
    let digits = ap (all is_digit) (codes-numeral (print n) (all-print n)) ∙ all-print n in
    let (left, right) = trim-digits s digits in
    record { trimmed = ap trim_right left ∙ right; line = digits-IsLine s digits }
