-- ===== src/Prelude/Lists.antt =====
-- Lists measured by native numbers, membership by recursion, and the Boolean `any` and `all` of Rust's
-- iterators (the library's cannot be unfolded).
use Prim.Native.Nat.{ℕ, zero, suc, ◌+◌}
use mathlib.Core.Path.{◌≡◌, refl, ap, sym, ◌∙◌}
use mathlib.Core.Logic.{◌⊎◌, inl, inr}
use mathlib.Core.Bool.{Bool, true, false, ◌&&◌, ◌||◌}
use mathlib.Core.List.{List, [], ◌∷◌, ◌++◌, Memᴰ}
use mathlib.Core.Option.{Option, none, some}
use native.Mathlib.Omega.{arith}
use wanax.Prelude.Tests.{if◌then◌else◌, Bool-cases}

module _ {ℓ} {A : Type ℓ} where
  abbrev pub length : List A → ℕ
  length [] = 0
  length (x ∷ xs) = suc (length xs)

  abbrev pub is_empty : List A → Bool
  is_empty [] = true
  is_empty (_ ∷ _) = false

  abbrev pub get_elem? : List A → ℕ → Option A
  get_elem? [] i = none
  get_elem? (x ∷ xs) zero = some x
  get_elem? (x ∷ xs) (suc i) = get_elem? xs i

  abbrev pub any : (A → Bool) → List A → Bool
  any p [] = false
  any p (x ∷ xs) = p x || any p xs

  abbrev pub all : (A → Bool) → List A → Bool
  all p [] = true
  all p (x ∷ xs) = p x && all p xs

  abbrev pub keep : (A → Bool) → List A → List A
  keep p [] = []
  keep p (x ∷ xs) = if p x then x ∷ keep p xs else keep p xs

  abbrev pub find : (A → Bool) → List A → Option A
  find p [] = none
  find p (x ∷ xs) = if p x then some x else find p xs

  abbrev pub All {κ} : (A → Type κ) → List A → Type κ
  All P [] = Unit
  All P (x ∷ xs) = P x × All P xs

  -- No entry occurs twice.
  abbrev pub Distinct : List A → Type ℓ
  Distinct [] = Unit
  Distinct (x ∷ xs) = (¬ Memᴰ x xs) × Distinct xs

module _ {ℓ} {A : Type ℓ} where
  pub length-append : (xs ys : List A) → length (xs ++ ys) ≡ length xs + length ys
  length-append [] ys = omega arith
  length-append (x ∷ xs) ys = omega (arith, length-append xs ys)

  -- A test that holds of some entry, with the entry.
  pub any_witness :
      (p : A → Bool) (xs : List A) → any p xs ≡ true → (a : A) × Memᴰ a xs × (p a ≡ true)
  any_witness p [] h = cc
  any_witness p (x ∷ xs) h = elim (Bool-cases (p x)) [
    | inl e ↦ (x, Memᴰ.head refl, e)
    | inr e ↦ let (a, m, pa) = any_witness p xs (ground arith) in (a, Memᴰ.tail m, pa)
  ]

  pub any_of_mem : (p : A → Bool) {a : A} {xs : List A} → Memᴰ a xs → p a ≡ true → any p xs ≡ true
  any_of_mem p (Memᴰ.head e) h = ground (arith, ap p e)
  any_of_mem p (Memᴰ.tail m) h = ground (arith, any_of_mem p m h)

  pub all_at : (p : A → Bool) {a : A} {xs : List A} → all p xs ≡ true → Memᴰ a xs → p a ≡ true
  all_at p h (Memᴰ.head e) = ground (arith, ap p e)
  all_at p h (Memᴰ.tail m) = all_at p (ground arith) m

  pub all_intro :
      (p : A → Bool) (xs : List A) → ((a : A) → Memᴰ a xs → p a ≡ true) → all p xs ≡ true
  all_intro p [] h = refl
  all_intro p (x ∷ xs) h =
      ground (arith, h x (Memᴰ.head refl), all_intro p xs (λ a m. h a (Memᴰ.tail m)))

  pub find_sound :
      (p : A → Bool) (xs : List A) {a : A} → find p xs ≡ some a → Memᴰ a xs × (p a ≡ true)
  find_sound p [] h = cc
  find_sound p (x ∷ xs) h = elim (Bool-cases (p x)) [
    | inl e ↦ (Memᴰ.head (ground arith), ground arith)
    | inr e ↦ let (m, pa) = find_sound p xs (ground arith) in (Memᴰ.tail m, pa)
  ]

  pub find-none : (p : A → Bool) {a : A} {xs : List A} → find p xs ≡ none → Memᴰ a xs → p a ≡ false
  find-none p h (Memᴰ.head e) = ground (arith, ap p e)
  find-none p h (Memᴰ.tail m) = find-none p (ground arith) m

  -- An entry of a list that a test may have kept.
  mem-if_cons :
      (b : Bool) {a : A} (x : A) (xs : List A)
      → Memᴰ a (if b then x ∷ xs else xs)
      → ((b ≡ true) × (a ≡ x)) ⊎ Memᴰ a xs
  mem-if_cons true x xs (Memᴰ.head e) = inl (refl, e)
  mem-if_cons true x xs (Memᴰ.tail m) = inr m
  mem-if_cons false x xs m = inr m

  if_cons-mem :
      (b : Bool) {a : A} (x : A) {xs : List A} → Memᴰ a xs → Memᴰ a (if b then x ∷ xs else xs)
  if_cons-mem true x m = Memᴰ.tail m
  if_cons-mem false x m = m

  pub mem-keep :
      (p : A → Bool) {a : A} (xs : List A) → Memᴰ a (keep p xs) → Memᴰ a xs × (p a ≡ true)
  mem-keep p [] m = elim m [ ]
  mem-keep p (x ∷ xs) m = elim (mem-if_cons (p x) x (keep p xs) m) [
    | inl both ↦ (Memᴰ.head both.1, ap p both.1 ∙ both.0)
    | inr rest ↦ let (below, pa) = mem-keep p xs rest in (Memᴰ.tail below, pa)
  ]

  pub keep-mem : (p : A → Bool) {a : A} {xs : List A} → Memᴰ a xs → p a ≡ true → Memᴰ a (keep p xs)
  keep-mem p (Memᴰ.head e) h = rw (sym (ap p e) ∙ h) (Memᴰ.head e)
  keep-mem p (Memᴰ.tail {x = x} m) h = if_cons-mem (p x) x (keep-mem p m h)
