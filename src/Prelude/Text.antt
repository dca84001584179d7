-- ===== src/Prelude/Text.antt =====
-- Texts as the code reads them: `String` compared whole, and its code points where they are walked.
use Prim.Native.Char.{code}
use Prim.Native.String.{String, slice, ◌++◌}
use Prim.Native.Nat.{ℕ, ◌-◌}
use mathlib.Core.Path.{◌≡◌}
use mathlib.Core.List.{List, [], ◌∷◌}
use mathlib.Core.Logic.{inl, inr}
use mathlib.Core.Option.{Option, some}
use native.Mathlib.Omega.{arith}
use text.Mathlib.Text.{◌==◌}
use text.Mathlib.TextEquality.{eq_iff}
use wanax.Prelude.Tests.{if◌then◌else◌, Bool-cases}

-- The code points of a text: its bytes, if it is ASCII.
abbrev pub codes : String → List ℕ
codes String.[] = []
codes (String.◌∷◌ c s) = code c ∷ codes s

-- The text of the characters of a printed number: digits, signs and points.
abbrev pub numeral : List ℕ → String
numeral [] = ""
numeral (c ∷ s) = slice "-./0123456789" (c - 45) (c - 44) ++ numeral s

-- One arm of a `match` on a text that names the values of a type: the value that is read has the name
-- that was matched, or a later arm reads it.
pub read_name {ℓ} :
    {A : Type ℓ} (as_str : A → String) (s : String) (x : A) {t : String} {a : A} {rest : Option A}
    → (if s == t then some a else rest) ≡ some x
    → as_str a ≡ t
    → (rest ≡ some x → as_str x ≡ s)
    → as_str x ≡ s
read_name as_str s x {t} {a} {rest} h named later = elim (Bool-cases (s == t)) [
  | inl e ↦ ground (arith, (eq_iff s t).0 e)
  | inr e ↦ later (ground arith)
]
