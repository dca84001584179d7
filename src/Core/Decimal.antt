-- ===== src/Core/Decimal.antt =====
-- Rust's decimal printing and reading of unsigned integers, over code points.
use mathlib.Core.Logic.{dite}
use mathlib.Core.WellFounded.{Acc, WellFounded}
use native.Mathlib.Decide.{dec_lt}
use native.Mathlib.Nat.{pow-suc}
use wanax.Prelude.{
  ℕ, zero, suc, ◌+◌, ◌-◌, ◌*◌, ◌/◌, ◌%◌, ◌^◌, ◌≤◌, ◌<◌, ◌≡◌, refl, Bool, true, ◌&&◌, List, [], ◌∷◌,
  arith, leb, all, length, if◌then◌else◌, ◌==◌, ap, ◌∙◌,
}

-- Accessibility of the order, for the recursion that drops the last digit.
below : (k n : ℕ) → n < k → Acc ◌<◌ n
below zero n h = elim h [ ]
below (suc k) n h = Acc.intro n (λ m lt. below k m (omega arith))

wf : WellFounded ◌<◌
unfolding below
wf = record { apply = λ n. below (suc n) n (omega arith) }

emit : (n : ℕ) → Acc ◌<◌ n → List ℕ → List ℕ
emit n (Acc.intro _ smaller) out =
    dite (dec_lt 0 n) (λ h. emit (n / 10) (smaller (n / 10) (omega arith)) ((48 + n % 10) ∷ out))
      (λ _. out)

-- `format!("{n}")`
unfoldable pub print : ℕ → List ℕ
unfolding emit wf dec_lt
print n = if n == 0 then 48 ∷ [] else emit n (wf.apply n) []

unfoldable pub zeros : ℕ → List ℕ → List ℕ
zeros zero s = s
zeros (suc n) s = 48 ∷ zeros n s

-- `format!("{n:06}")`
unfoldable pub print_06 : ℕ → List ℕ
unfolding zeros print
print_06 n = zeros (6 - length (print n)) (print n)

-- `char::is_ascii_digit`
abbrev pub is_digit : ℕ → Bool
is_digit c = leb 48 c && leb c 57

-- The value of a text of digits, added to what stands before it.
unfoldable pub value : ℕ → List ℕ → ℕ
value acc [] = acc
value acc (c ∷ s) = value (acc * 10 + (c - 48)) s

value-digit : (n : ℕ) (out : List ℕ) → value (n / 10) ((48 + n % 10) ∷ out) ≡ value n out
unfolding value
value-digit n out = ap (λ (t : ℕ). value t out) (omega arith)

value-emit : (n : ℕ) (w : Acc ◌<◌ n) (out : List ℕ) → value 0 (emit n w out) ≡ value n out
unfolding emit
value-emit n (Acc.intro _ smaller) out = grind (
  arith,
  value-digit n out,
  λ (p : n / 10 < n). value-emit (n / 10) (smaller (n / 10) p) ((48 + n % 10) ∷ out),
)

all-emit :
    (n : ℕ) (w : Acc ◌<◌ n) (out : List ℕ)
    → all is_digit out ≡ true
    → all is_digit (emit n w out) ≡ true
unfolding emit
all-emit n (Acc.intro _ smaller) out h = grind (
  arith,
  λ (p : n / 10 < n). all-emit (n / 10) (smaller (n / 10) p) ((48 + n % 10) ∷ out) (ground arith),
)

length-le-emit : (n : ℕ) (w : Acc ◌<◌ n) (out : List ℕ) → length out ≤ length (emit n w out)
unfolding emit
length-le-emit n (Acc.intro _ smaller) out =
    grind (
      arith,
      λ (p : n / 10 < n). length-le-emit (n / 10) (smaller (n / 10) p) ((48 + n % 10) ∷ out),
    )

emit-pos : (n : ℕ) (w : Acc ◌<◌ n) → 0 < n → 0 < length (emit n w [])
unfolding emit
emit-pos n (Acc.intro _ smaller) h =
    grind
      (arith, λ (p : n / 10 < n). length-le-emit (n / 10) (smaller (n / 10) p) ((48 + n % 10) ∷ []))

-- A number below 10 to the k has at most k digits.
length-emit :
    (k n : ℕ) (w : Acc ◌<◌ n) (out : List ℕ) → n < 10 ^ k → length (emit n w out) ≤ k + length out
unfolding emit
length-emit zero n (Acc.intro _ smaller) out h = grind arith
length-emit (suc k) n (Acc.intro _ smaller) out h =
    let tenth : n / 10 < 10 ^ k = omega (arith, pow-suc 10 k) in
    grind (
      arith,
      λ (p : n / 10 < n). length-emit k (n / 10) (smaller (n / 10) p) ((48 + n % 10) ∷ out) tenth,
    )

pub value-print : (n : ℕ) → value 0 (print n) ≡ n
unfolding print value
value-print n = ground (arith, value-emit n (wf.apply n) [])

pub all-print : (n : ℕ) → all is_digit (print n) ≡ true
unfolding print
all-print n = ground (arith, all-emit n (wf.apply n) [])

pub print-pos : (n : ℕ) → 0 < length (print n)
unfolding print
print-pos n = ground (arith, emit-pos n (wf.apply n))

pub length-print : (k n : ℕ) → n < 10 ^ suc k → length (print n) ≤ suc k
unfolding print
length-print k n h = ground (arith, length-emit (suc k) n (wf.apply n) [])

value-zeros : (k : ℕ) (s : List ℕ) → value 0 (zeros k s) ≡ value 0 s
unfolding zeros value
value-zeros zero s = refl
value-zeros (suc k) s = value-zeros k s

length-zeros : (k : ℕ) (s : List ℕ) → length (zeros k s) ≡ k + length s
unfolding zeros
length-zeros zero s = omega arith
length-zeros (suc k) s = omega (arith, length-zeros k s)

all-zeros : (k : ℕ) (s : List ℕ) → all is_digit s ≡ true → all is_digit (zeros k s) ≡ true
unfolding zeros
all-zeros zero s h = h
all-zeros (suc k) s h = all-zeros k s h

pub value-print_06 : (n : ℕ) → value 0 (print_06 n) ≡ n
unfolding print_06
value-print_06 n = value-zeros (6 - length (print n)) (print n) ∙ value-print n

pub all-print_06 : (n : ℕ) → all is_digit (print_06 n) ≡ true
unfolding print_06
all-print_06 n = all-zeros (6 - length (print n)) (print n) (all-print n)

pub length-print_06 : (n : ℕ) → n < 1000000 → length (print_06 n) ≡ 6
unfolding print_06
length-print_06 n h =
    omega (arith, length-zeros (6 - length (print n)) (print n), length-print 5 n h)
