-- ===== src/Core/GlobOverlap/Overlaps.antt =====
-- The answers of peer_glob_sets_overlap (crates/wanax-core/src/glob_overlap.rs).
use wanax.Prelude.{
  ◌≡◌, ◌⊎◌, inl, inr, refl, sym, ap, ◌∙◌, String, Bool, true, false, ◌||◌, Option, none, some, List,
  [], ◌∷◌, ◌++◌, str_eq, eq_iff, any, arith, Bool-cases, Option-cases, any_witness,
}
use wanax.Prelude.Sort.{any-sort, any-dedup, sort, str_le}
use wanax.Core.GlobOverlap.{
  Globset, compile_globs, all_probes, pattern_probes, probe_paths, shares_pattern, both_match,
  is_compiled, peer_glob_sets_overlap,
}

any-append {ℓ} :
    {A : Type ℓ} (p : A → Bool) (xs ys : List A) → any p (xs ++ ys) ≡ (any p xs || any p ys)
any-append p [] ys = refl
any-append p (x ∷ xs) ys = ground (arith, any-append p xs ys)

any-ext {ℓ} :
    {A : Type ℓ} (p q : A → Bool) → ((x : A) → p x ≡ q x) → (xs : List A) → any p xs ≡ any q xs
any-ext p q h [] = refl
any-ext p q h (x ∷ xs) = ground (arith, h x, any-ext p q h xs)

any-or {ℓ} :
    {A : Type ℓ} (p q : A → Bool) (xs : List A) → any (λ x. p x || q x) xs ≡ (any p xs || any q xs)
any-or p q [] = refl
any-or p q (x ∷ xs) = ground (arith, any-or p q xs)

str_eq_sym : (s t : String) → str_eq s t ≡ str_eq t s
str_eq_sym s t = ground (arith, eq_iff s t, eq_iff t s)

shares_nothing : (a : List String) → shares_pattern a [] ≡ false
unfolding shares_pattern
shares_nothing [] = refl
shares_nothing (p ∷ a) = shares_nothing a

shares_cons :
    (a : List String) (p : String) (b : List String)
    → shares_pattern a (p ∷ b) ≡ (any (λ q. str_eq q p) a || shares_pattern a b)
unfolding shares_pattern
shares_cons a p b = any-or (λ q. str_eq q p) (λ q. any (λ r. str_eq q r) b) a

shares_sym : (a b : List String) → shares_pattern a b ≡ shares_pattern b a
unfolding shares_pattern
shares_sym [] b = sym (shares_nothing b)
shares_sym (p ∷ a) b =
    ap (λ k. any (λ q. str_eq p q) b || k) (shares_sym a b)
    ∙ (ap (λ k. k || shares_pattern b a)
          (any-ext (λ q. str_eq p q) (λ q. str_eq q p) (λ q. str_eq_sym p q) b)
        ∙ sym (shares_cons b p a))

any_probes-append :
    (p : String → Bool) (a b : List String)
    → any p (all_probes (a ++ b)) ≡ (any p (all_probes a) || any p (all_probes b))
unfolding all_probes
any_probes-append p [] b = refl
any_probes-append p (s ∷ a) b = ground (
  arith,
  any-append p (pattern_probes s) (all_probes (a ++ b)),
  any-append p (pattern_probes s) (all_probes a),
  any_probes-append p a b,
)

-- The order of the probes, and the sorting, do not matter to a search among them.
any-probe_paths :
    (p : String → Bool) (a b : List String)
    → any p (probe_paths a b) ≡ (any p (all_probes a) || any p (all_probes b))
unfolding probe_paths
any-probe_paths p a b =
    any-dedup p (sort str_le (all_probes (a ++ b)))
    ∙ (any-sort p str_le (all_probes (a ++ b)) ∙ any_probes-append p a b)

both_match_sym :
    (g : Globset) (x y : Option g.GlobSet) (s : String) → both_match g x y s ≡ both_match g y x s
both_match_sym g none none s = refl
both_match_sym g none (some b) s = refl
both_match_sym g (some a) none s = refl
both_match_sym g (some a) (some b) s = ground arith

probes_sym :
    (g : Globset) (a b : List String) (x y : Option g.GlobSet)
    → any (both_match g x y) (probe_paths a b) ≡ any (both_match g y x) (probe_paths b a)
probes_sym g a b x y =
    any-ext (both_match g x y) (both_match g y x) (both_match_sym g x y) (probe_paths a b)
    ∙ ground (arith, any-probe_paths (both_match g y x) a b, any-probe_paths (both_match g y x) b a)

-- The answer does not depend on which of the two peers comes first.
pub overlap_sym :
    (g : Globset) (a b : List String) → peer_glob_sets_overlap g a b ≡ peer_glob_sets_overlap g b a
unfolding peer_glob_sets_overlap
overlap_sym g a b =
    ground (arith, shares_sym a b, probes_sym g a b (compile_globs g a) (compile_globs g b))

-- A path that both sets of globs match.
pub record IsShared (g : Globset) (a b : List String) : Type 0 where
  pub set_a : g.GlobSet
  pub set_b : g.GlobSet
  pub compiled_a : compile_globs g a ≡ some set_a
  pub compiled_b : compile_globs g b ≡ some set_b
  pub path : String
  pub in_a : g.is_match set_a path ≡ true
  pub in_b : g.is_match set_b path ≡ true

IsShared-of_probe :
    (g : Globset) (a b : List String) (s : String)
    → is_compiled (compile_globs g a) ≡ true
    → is_compiled (compile_globs g b) ≡ true
    → both_match g (compile_globs g a) (compile_globs g b) s ≡ true
    → IsShared g a b
IsShared-of_probe g a b s ca cb h = elim (Option-cases (compile_globs g a)) [
  | inl na ↦ cc (ap is_compiled na)
  | inr (xa, ea) ↦ elim (Option-cases (compile_globs g b)) [
    | inl nb ↦ cc (ap is_compiled nb)
    | inr (xb, eb) ↦
        let matched =
          sym (ap (λ x. both_match g x (some xb) s) ea)
          ∙ (sym (ap (λ y. both_match g (compile_globs g a) y s) eb) ∙ h) in
        record {
          set_a = xa;
          set_b = xb;
          compiled_a = ea;
          compiled_b = eb;
          path = s;
          in_a = ground arith;
          in_b = ground arith;
        }
  ]
]

any_both-IsShared :
    (g : Globset) (a b : List String)
    → is_compiled (compile_globs g a) ≡ true
    → is_compiled (compile_globs g b) ≡ true
    → any (both_match g (compile_globs g a) (compile_globs g b)) (probe_paths a b) ≡ true
    → IsShared g a b
any_both-IsShared g a b ca cb h =
    let (s, _, matched) =
      any_witness (both_match g (compile_globs g a) (compile_globs g b)) (probe_paths a b) h in
    IsShared-of_probe g a b s ca cb matched

-- Peers are reported to overlap only for a reason: they share a pattern, a set does not compile, or there
-- is a path that both match.
pub overlap_reason :
    (g : Globset) (a b : List String)
    → peer_glob_sets_overlap g a b ≡ true
    → (shares_pattern a b ≡ true)
      ⊎ ((is_compiled (compile_globs g a) ≡ false)
          ⊎ ((is_compiled (compile_globs g b) ≡ false) ⊎ IsShared g a b))
unfolding peer_glob_sets_overlap
overlap_reason g a b h = elim (Bool-cases (shares_pattern a b)) [
  | inl shared ↦ inl shared
  | inr none_shared ↦ inr (elim (Bool-cases (is_compiled (compile_globs g a))) [
    | inr bad_a ↦ inl bad_a
    | inl good_a ↦ inr (elim (Bool-cases (is_compiled (compile_globs g b))) [
      | inr bad_b ↦ inl bad_b
      | inl good_b ↦ inr (any_both-IsShared g a b good_a good_b (ground arith))
    ])
  ])
]

-- An empty set overlaps nothing.
pub overlap-empty : (g : Globset) (b : List String) → peer_glob_sets_overlap g [] b ≡ false
unfolding peer_glob_sets_overlap
overlap-empty g b = refl
