-- ===== src/Prelude/Sort.antt =====
-- Rust's `sort` and `dedup` on lists, the order of texts, and what these keep.
use Prim.Native.Char.{code}
use Prim.Native.String.{String}
use mathlib.Core.Path.{◌≡◌, refl, ap, ◌∙◌, subst, sym}
use mathlib.Core.Bool.{Bool, true, false, ◌&&◌, ◌||◌}
use mathlib.Core.List.{List, [], ◌∷◌, Memᴰ}
use native.Mathlib.Omega.{arith}
use text.Mathlib.Text.{◌==◌ as str_eq}
use text.Mathlib.TextEquality.{eq_iff}
use wanax.Prelude.Tests.{ltb, ◌==◌, if◌then◌else◌}
use wanax.Prelude.Lists.{any}

-- Texts are compared character by character: the order of their bytes in UTF-8.
abbrev pub str_le : String → String → Bool
str_le String.[] t = true
str_le (String.◌∷◌ c s) String.[] = false
str_le (String.◌∷◌ c s) (String.◌∷◌ d t) = ltb (code c) (code d) || (code c == code d && str_le s t)

module _ {ℓ} {A : Type ℓ} where
  abbrev pub insert_sorted : (A → A → Bool) → A → List A → List A
  insert_sorted le x [] = x ∷ []
  insert_sorted le x (y ∷ ys) = if le x y then x ∷ y ∷ ys else y ∷ insert_sorted le x ys

  abbrev pub sort : (A → A → Bool) → List A → List A
  sort le [] = []
  sort le (x ∷ xs) = insert_sorted le x (sort le xs)

  any-insert_sorted :
      (p : A → Bool) (le : A → A → Bool) (x : A) (xs : List A)
      → any p (insert_sorted le x xs) ≡ (p x || any p xs)
  any-insert_sorted p le x [] = refl
  any-insert_sorted p le x (y ∷ ys) = ground (arith, any-insert_sorted p le x ys)

  pub any-sort : (p : A → Bool) (le : A → A → Bool) (xs : List A) → any p (sort le xs) ≡ any p xs
  any-sort p le [] = refl
  any-sort p le (x ∷ xs) =
      any-insert_sorted p le x (sort le xs) ∙ ap (λ b. p x || b) (any-sort p le xs)

-- `dedup`: of equal neighbours the first is kept.
abbrev pub skip_equal : String → List String → List String
skip_equal s [] = []
skip_equal s (t ∷ ts) =
    let rest = skip_equal t ts in if str_eq s t then skip_equal s ts else t ∷ rest

abbrev pub dedup : List String → List String
dedup [] = []
dedup (s ∷ ss) = s ∷ skip_equal s ss

any-skip_equal :
    (p : String → Bool) (s : String) (ts : List String)
    → (p s || any p (skip_equal s ts)) ≡ (p s || any p ts)
any-skip_equal p s [] = refl
any-skip_equal p s (t ∷ ts) =
    ground (arith, any-skip_equal p s ts, any-skip_equal p t ts, eq_iff s t)

pub any-dedup : (p : String → Bool) (ss : List String) → any p (dedup ss) ≡ any p ss
any-dedup p [] = refl
any-dedup p (s ∷ ss) = any-skip_equal p s ss

module _ {ℓ} {A : Type ℓ} where
  insert_sorted-head : (le : A → A → Bool) (x : A) (xs : List A) → Memᴰ x (insert_sorted le x xs)
  insert_sorted-head le x [] = Memᴰ.head refl
  insert_sorted-head le x (y ∷ ys) =
      elim (le x y) as (λ b. Memᴰ x (if b then x ∷ y ∷ ys else y ∷ insert_sorted le x ys)) [
        | true ↦ Memᴰ.head refl
        | false ↦ Memᴰ.tail (insert_sorted-head le x ys)
      ]

  insert_sorted-tail :
      (le : A → A → Bool) (x : A) {a : A} {xs : List A} → Memᴰ a xs → Memᴰ a (insert_sorted le x xs)
  insert_sorted-tail le x {a} (Memᴰ.head {x = y} {xs = ys} e) =
      elim (le x y) as (λ b. Memᴰ a (if b then x ∷ y ∷ ys else y ∷ insert_sorted le x ys)) [
        | true ↦ Memᴰ.tail (Memᴰ.head e)
        | false ↦ Memᴰ.head e
      ]
  insert_sorted-tail le x {a} (Memᴰ.tail {x = y} {xs = ys} m) =
      elim (le x y) as (λ b. Memᴰ a (if b then x ∷ y ∷ ys else y ∷ insert_sorted le x ys)) [
        | true ↦ Memᴰ.tail (Memᴰ.tail m)
        | false ↦ Memᴰ.tail (insert_sorted-tail le x m)
      ]

  pub mem-sort : (le : A → A → Bool) {a : A} {xs : List A} → Memᴰ a xs → Memᴰ a (sort le xs)
  mem-sort le {a} (Memᴰ.head {x = y} {xs = ys} e) =
      subst (λ z. Memᴰ z (insert_sorted le y (sort le ys))) (sym e)
        (insert_sorted-head le y (sort le ys))
  mem-sort le (Memᴰ.tail {x = y} m) = insert_sorted-tail le y (mem-sort le m)
