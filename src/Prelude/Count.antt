-- ===== src/Prelude/Count.antt =====
-- How often a text stands in a list: two lists with the same counts are permutations of each other.
use Prim.Native.String.{String}
use Prim.Native.Nat.{ℕ, suc, ◌+◌, ◌-◌, ◌≤◌, ◌<◌}
use mathlib.Core.Path.{◌≡◌, refl, subst}
use mathlib.Core.Bool.{Bool}
use mathlib.Core.Logic.{inl, inr}
use mathlib.Core.List.{List, [], ◌∷◌, ◌++◌, Memᴰ}
use native.Mathlib.Omega.{arith}
use text.Mathlib.Text.{◌==◌ as str_eq}
use text.Mathlib.TextEquality.{eq_iff}
use text.Mathlib.TextPositions.{eq_refl}
use wanax.Prelude.Tests.{if◌then◌else◌, Bool-cases}
use wanax.Prelude.Lists.{length, Distinct}
use wanax.Prelude.Sort.{sort, insert_sorted}

abbrev pub count : String → List String → ℕ
count x [] = 0
count x (y ∷ ys) = if str_eq x y then suc (count x ys) else count x ys

pub count-append : (x : String) (xs ys : List String) → count x (xs ++ ys) ≡ count x xs + count x ys
count-append x [] ys = omega arith
count-append x (z ∷ xs) ys = ground (arith, count-append x xs ys)

pub count-of_mem : {x : String} {xs : List String} → Memᴰ x xs → 0 < count x xs
count-of_mem {x} (Memᴰ.head {x = y} e) = ground (arith, (eq_iff x y).1 e)
count-of_mem (Memᴰ.tail m) = ground (arith, count-of_mem m)

pub mem_of_count : (x : String) (xs : List String) → 0 < count x xs → Memᴰ x xs
mem_of_count x [] h = absurd (omega arith)
mem_of_count x (y ∷ ys) h = elim (Bool-cases (str_eq x y)) [
  | inl e ↦ Memᴰ.head ((eq_iff x y).0 e)
  | inr e ↦ Memᴰ.tail (mem_of_count x ys (ground arith))
]

pub Distinct-of_count : (xs : List String) → ((x : String) → count x xs ≤ 1) → Distinct xs
Distinct-of_count [] h = tt
Distinct-of_count (y ∷ ys) h = (
  λ m. let once = h y in let below = count-of_mem m in ground (arith, eq_refl y),
  Distinct-of_count ys (λ x. let once = h x in ground arith),
)

pub count-of_absent : (x : String) (xs : List String) → ¬ Memᴰ x xs → count x xs ≡ 0
count-of_absent x [] h = refl
count-of_absent x (y ∷ ys) h = elim (Bool-cases (str_eq x y)) [
  | inl e ↦ absurd (h (Memᴰ.head ((eq_iff x y).0 e)))
  | inr e ↦ ground (arith, count-of_absent x ys (λ m. h (Memᴰ.tail m)))
]

pub count-of_Distinct : (x : String) (xs : List String) → Distinct xs → count x xs ≤ 1
count-of_Distinct x [] h = omega arith
count-of_Distinct x (y ∷ ys) h = elim (Bool-cases (str_eq x y)) [
  | inl e ↦
      ground (arith, count-of_absent x ys (λ m. h.0 (subst (λ z. Memᴰ z ys) ((eq_iff x y).0 e) m)))
  | inr e ↦ ground (arith, count-of_Distinct x ys h.1)
]

-- One occurrence taken away.
abbrev remove : String → List String → List String
remove x [] = []
remove x (y ∷ ys) = let rest = remove x ys in if str_eq x y then ys else y ∷ rest

length-remove :
    (x : String) (ys : List String) → 0 < count x ys → suc (length (remove x ys)) ≡ length ys
length-remove x [] h = absurd (omega arith)
length-remove x (y ∷ ys) h = elim (Bool-cases (str_eq x y)) [
  | inl e ↦ ground arith
  | inr e ↦ ground (arith, length-remove x ys (ground arith))
]

count-remove :
    (z x : String) (ys : List String)
    → count z (remove x ys) ≡ (if str_eq z x then count z ys - 1 else count z ys)
count-remove z x [] = ground arith
count-remove z x (y ∷ ys) = elim (Bool-cases (str_eq x y)) [
  | inl e ↦ ground (arith, eq_iff x y, eq_iff z x, eq_iff z y)
  | inr e ↦ ground (arith, count-remove z x ys, eq_iff x y, eq_iff z x, eq_iff z y)
]

-- A list whose counts are at most those of another is at most as long.
pub length-of_counts :
    (xs ys : List String) → ((x : String) → count x xs ≤ count x ys) → length xs ≤ length ys
length-of_counts [] ys h = omega arith
length-of_counts (x ∷ xs) ys h =
    let here : 0 < count x ys = let most = h x in ground (arith, eq_refl x) in
    let shorter =
      length-of_counts xs (remove x ys)
        (λ z. let most = h z in ground (arith, count-remove z x ys)) in
    omega (arith, shorter, length-remove x ys here)

-- If it is also as long, the counts are the same.
pub counts-of_length :
    (xs ys : List String)
    → ((x : String) → count x xs ≤ count x ys)
    → length xs ≡ length ys
    → (x : String) → count x xs ≡ count x ys
counts-of_length [] [] h same x = refl
counts-of_length [] (y ∷ ys) h same x = absurd (omega arith)
counts-of_length (y ∷ xs) ys h same x =
    let here : 0 < count y ys = let most = h y in ground (arith, eq_refl y) in
    let below =
      counts-of_length xs (remove y ys) (λ z. let most = h z in ground (arith, count-remove z y ys))
        (omega (arith, length-remove y ys here)) x in
    ground (arith, below, count-remove x y ys, eq_iff x y)

module _ (le : String → String → Bool) where
  count-insert_sorted :
      (x y : String) (ys : List String)
      → count x (insert_sorted le y ys) ≡ (if str_eq x y then suc (count x ys) else count x ys)
  count-insert_sorted x y [] = refl
  count-insert_sorted x y (z ∷ ys) = ground (arith, count-insert_sorted x y ys)

  pub count-sort : (x : String) (ys : List String) → count x (sort le ys) ≡ count x ys
  count-sort x [] = refl
  count-sort x (y ∷ ys) = ground (arith, count-insert_sorted x y (sort le ys), count-sort x ys)
