-- ===== src/Core/GlobOverlap/Pairs.antt =====
-- The search of find_peer_overlap (crates/wanax-core/src/glob_overlap.rs).
use wanax.Prelude.{
  ℕ, suc, ◌-◌, ◌<◌, ◌≤◌, ◌≡◌, inl, inr, ap, ◌∙◌, subst, String, true, false, none, some, List, [],
  ◌∷◌, All, get_elem?, arith, Bool-cases, Option-cases,
}
use wanax.Core.GlobOverlap.{
  Globset, peer_glob_sets_overlap, find_after, find_from, find_peer_overlap,
}

-- No two sets of the list overlap.
abbrev pub Disjoint : Globset → List (List String) → Type 0
Disjoint g [] = Unit
Disjoint g (a ∷ sets) = All (λ b. peer_glob_sets_overlap g a b ≡ false) sets × Disjoint g sets

find_after-none :
    (g : Globset) (a : List String) (j : ℕ) (sets : List (List String))
    → find_after g a j sets ≡ none
    → All (λ b. peer_glob_sets_overlap g a b ≡ false) sets
unfolding find_after
find_after-none g a j [] h = tt
find_after-none g a j (b ∷ sets) h = elim (Bool-cases (peer_glob_sets_overlap g a b)) [
  | inl e ↦ ground arith
  | inr e ↦ (e, find_after-none g a (suc j) sets (ground arith))
]

find_from-none :
    (g : Globset) (i : ℕ) (sets : List (List String)) → find_from g i sets ≡ none → Disjoint g sets
unfolding find_from
find_from-none g i [] h = tt
find_from-none g i (a ∷ sets) h = elim (Option-cases (find_after g a (suc i) sets)) [
  | inl e ↦ (find_after-none g a (suc i) sets e, find_from-none g (suc i) sets (ground arith))
  | inr (j, e) ↦ ground arith
]

-- The set at an index that counts from `base`, with the set that is found there.
abbrev IsAt : List (List String) → ℕ → ℕ → List String → Type 0
IsAt sets base j b = (base ≤ j) × (get_elem? sets (j - base) ≡ some b)

IsAt-cons :
    (sets : List (List String)) (a : List String) {base j : ℕ} {b : List String}
    → IsAt sets (suc base) j b
    → IsAt (a ∷ sets) base j b
IsAt-cons sets a {base} {j} {b} (le, here) = (
  omega (arith, le),
  ap (λ k. get_elem? (a ∷ sets) k) {x = j - base} {y = suc (j - suc base)} (omega (arith, le))
      ∙ here,
)

find_after-some :
    (g : Globset) (a : List String) (j : ℕ) (sets : List (List String)) {k : ℕ}
    → find_after g a j sets ≡ some k
    → (b : List String) × IsAt sets j k b × (peer_glob_sets_overlap g a b ≡ true)
unfolding find_after
find_after-some g a j [] h = cc
find_after-some g a j (b ∷ sets) {k} h = elim (Bool-cases (peer_glob_sets_overlap g a b)) [
  | inl e ↦
      (b, (ground arith, ap (λ d. get_elem? (b ∷ sets) d) {x = k - j} {y = 0} (ground arith)), e)
  | inr e ↦
      let (c, at, overlaps) = find_after-some g a (suc j) sets {k = k} (ground arith) in
      (c, IsAt-cons sets b at, overlaps)
]

find_from-some :
    (g : Globset) (i : ℕ) (sets : List (List String)) {m n : ℕ}
    → find_from g i sets ≡ some (m, n)
    → (a b : List String) × IsAt sets i m a
      × IsAt sets i n b
      × (m < n)
      × (peer_glob_sets_overlap g a b ≡ true)
unfolding find_from
find_from-some g i [] h = cc
find_from-some g i (a ∷ sets) {m} {n} h = elim (Option-cases (find_after g a (suc i) sets)) [
  | inl e ↦
      let (x, y, at_x, at_y, lt, overlaps) =
        find_from-some g (suc i) sets {m = m} {n = n} (ground arith) in
      (x, y, IsAt-cons sets a at_x, IsAt-cons sets a at_y, lt, overlaps)
  | inr (j, e) ↦
      let (b, at_b, overlaps) = find_after-some g a (suc i) sets {k = j} e in
      let first : i ≡ m = ground arith in
      let second : j ≡ n = ground arith in
      (
        a,
        b,
        (ground arith, ap (λ d. get_elem? (a ∷ sets) d) {x = m - i} {y = 0} (ground arith)),
        IsAt-cons sets a (subst (λ k. IsAt sets (suc i) k b) second at_b),
        ground (arith, at_b.0),
        overlaps,
      )
]

-- The indices that are found are of two sets that overlap, the first before the second.
pub find_peer_overlap-some :
    (g : Globset) (sets : List (List String)) {m n : ℕ}
    → find_peer_overlap g sets ≡ some (m, n)
    → (a b : List String) × (get_elem? sets m ≡ some a)
      × (get_elem? sets n ≡ some b)
      × (m < n)
      × (peer_glob_sets_overlap g a b ≡ true)
unfolding find_peer_overlap
find_peer_overlap-some g sets {m} {n} h =
    let (a, b, at_a, at_b, lt, overlaps) = find_from-some g 0 sets h in
    (
      a,
      b,
      ap (get_elem? sets) {x = m} {y = m - 0} (omega arith) ∙ at_a.1,
      ap (get_elem? sets) {x = n} {y = n - 0} (omega arith) ∙ at_b.1,
      lt,
      overlaps,
    )

-- No pair is found only if no two sets of the list overlap.
find_peer_overlap-none :
    (g : Globset) (sets : List (List String)) → find_peer_overlap g sets ≡ none → Disjoint g sets
unfolding find_peer_overlap
find_peer_overlap-none g sets h = find_from-none g 0 sets h
