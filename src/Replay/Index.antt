-- ===== src/Replay/Index.antt =====
-- The list of units and the map `by_id` of envelope_snapshot (crates/wanax-cli/src/replay.rs).
use wanax.Prelude.{
  ◌≡◌, ◌≢◌, inl, inr, refl, sym, ap, ℕ, zero, suc, String, Option, none, some, List, [], ◌∷◌, ◌++◌,
  str_eq, eq_iff, length, if◌then◌else◌, arith, Bool-cases, Option-cases,
}
use wanax.Prelude.Map.{get?}
use wanax.Core.Types.{WorkUnit}
use wanax.Replay.{modify, id_at}
use wanax.Replay.Json.{set_some}

-- The index of the first unit with an id, and that unit.
abbrev pub index_of : String → List WorkUnit → Option ℕ
index_of j [] = none
index_of j (u ∷ units) = if str_eq j u.id then some 0 else set_some suc (index_of j units)

abbrev pub unit_of : String → List WorkUnit → Option WorkUnit
unit_of j [] = none
unit_of j (u ∷ units) = if str_eq j u.id then some u else unit_of j units

-- The map has the index of every id, and no other.
abbrev pub IsIndexed : List WorkUnit → List (String × ℕ) → Type 0
IsIndexed units by_id = (j : String) → get? j by_id ≡ index_of j units

-- A function that leaves the id of a unit as it is, if it is this one.
abbrev pub KeepsId : String → (WorkUnit → WorkUnit) → Type 0
KeepsId j f = (u : WorkUnit) → u.id ≡ j → (f u).id ≡ j

set_some-suc : (o : Option ℕ) {i : ℕ} → set_some suc o ≡ some (suc i) → o ≡ some i
set_some-suc none h = cc
set_some-suc (some n) h = ground arith

set_some-zero : (o : Option ℕ) → set_some suc o ≢ some 0
set_some-zero none h = cc
set_some-zero (some n) h = ground arith

pub id_at-index :
    (j : String) (units : List WorkUnit) (i : ℕ) → index_of j units ≡ some i → id_at units i ≡ j
id_at-index j [] i h = cc
id_at-index j (u ∷ units) zero h = elim (Bool-cases (str_eq j u.id)) [
  | inl e ↦ sym ((eq_iff j u.id).0 e)
  | inr e ↦ absurd (set_some-zero (index_of j units) (ground arith))
]
id_at-index j (u ∷ units) (suc i) h = elim (Bool-cases (str_eq j u.id)) [
  | inl e ↦ absurd (ground arith)
  | inr e ↦ id_at-index j units i (set_some-suc (index_of j units) (ground arith))
]

module _ (j : String) (f : WorkUnit → WorkUnit) (keeps : KeepsId j f) where
  pub index_of-modify :
      (k : String) (units : List WorkUnit) (i : ℕ)
      → index_of j units ≡ some i
      → index_of k (modify i f units) ≡ index_of k units
  index_of-modify k [] i h = refl
  index_of-modify k (u ∷ units) zero h = elim (Bool-cases (str_eq j u.id)) [
    | inl e ↦ let same : u.id ≡ j = sym ((eq_iff j u.id).0 e) in rw (keeps u same, same) refl
    | inr e ↦ absurd (set_some-zero (index_of j units) (ground arith))
  ]
  index_of-modify k (u ∷ units) (suc i) h = elim (Bool-cases (str_eq j u.id)) [
    | inl e ↦ absurd (ground arith)
    | inr e ↦
        ap (λ o. if str_eq k u.id then some 0 else set_some suc o)
          (index_of-modify k units i (set_some-suc (index_of j units) (ground arith)))
  ]

  pub unit_of-modify :
      (k : String) (units : List WorkUnit) (i : ℕ)
      → index_of j units ≡ some i
      → unit_of k (modify i f units)
        ≡ (if str_eq k j then set_some f (unit_of k units) else unit_of k units)
  unit_of-modify k [] i h = cc
  unit_of-modify k (u ∷ units) zero h = elim (Bool-cases (str_eq j u.id)) [
    | inl e ↦
        let same : u.id ≡ j = sym ((eq_iff j u.id).0 e) in
        ground (arith, keeps u same, eq_iff k u.id, eq_iff k (f u).id, eq_iff k j)
    | inr e ↦ absurd (set_some-zero (index_of j units) (ground arith))
  ]
  unit_of-modify k (u ∷ units) (suc i) h = elim (Bool-cases (str_eq j u.id)) [
    | inl e ↦ absurd (ground arith)
    | inr e ↦
        let below = unit_of-modify k units i (set_some-suc (index_of j units) (ground arith)) in
        ground (arith, below, eq_iff k u.id, eq_iff k j, eq_iff j u.id)
  ]

module _ (u : WorkUnit) where
  pub index_of-snoc :
      (k : String) (units : List WorkUnit)
      → index_of u.id units ≡ none
      → index_of k (units ++ u ∷ [])
        ≡ (if str_eq k u.id then some (length units) else index_of k units)
  index_of-snoc k [] h = refl
  index_of-snoc k (v ∷ units) h = elim (index_of u.id units) [
    | none ↦ ground (arith, index_of-snoc k units, eq_iff u.id v.id, eq_iff k u.id, eq_iff k v.id)
    | some i ↦ ground (arith, index_of-snoc k units, eq_iff u.id v.id, eq_iff k u.id, eq_iff k v.id)
  ]

  pub unit_of-snoc :
      (k : String) (units : List WorkUnit)
      → index_of u.id units ≡ none
      → unit_of k (units ++ u ∷ []) ≡ (if str_eq k u.id then some u else unit_of k units)
  unit_of-snoc k [] h = refl
  unit_of-snoc k (v ∷ units) h =
      ground (arith, unit_of-snoc k units, eq_iff u.id v.id, eq_iff k u.id, eq_iff k v.id)

  pub modify-snoc :
      (f : WorkUnit → WorkUnit) (units : List WorkUnit)
      → modify (length units) f (units ++ u ∷ []) ≡ units ++ f u ∷ []
  modify-snoc f [] = refl
  modify-snoc f (v ∷ units) = ap (λ l. v ∷ l) (modify-snoc f units)

pub unit_of-absent :
    (k : String) (units : List WorkUnit) → index_of k units ≡ none → unit_of k units ≡ none
unit_of-absent k [] h = refl
unit_of-absent k (v ∷ units) h =
    elim (index_of k units)
        as (λ o.
          (o ≡ none → unit_of k units ≡ none)
          → (if str_eq k v.id then some 0 else set_some suc o) ≡ none
          → (if str_eq k v.id then some v else unit_of k units) ≡ none) [
            | none ↦ λ rec e. ground (arith, rec refl)
            | some i ↦ λ rec e. ground arith
          ]
      (unit_of-absent k units) h

pub unit_of-present :
    (k : String) (units : List WorkUnit) {i : ℕ}
    → index_of k units ≡ some i
    → (u : WorkUnit) × (unit_of k units ≡ some u)
unit_of-present k [] h = cc
unit_of-present k (v ∷ units) {i} h = elim (Bool-cases (str_eq k v.id)) [
  | inl e ↦ (v, ground arith)
  | inr e ↦ elim (Option-cases (index_of k units)) [
    | inl e' ↦ absurd (ground arith)
    | inr (n, e') ↦ let (u, found) = unit_of-present k units e' in (u, ground arith)
  ]
]
