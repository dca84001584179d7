-- ===== src/Verify/MustHave.antt =====
-- The files that the criteria of a contract ask for, and the globs that reach integration tests:
-- missing_must_have and allowed_globs_cover_binding_tests of crates/wanax-verify/src/lib.rs. Matching a path
-- with one glob, and compiling and matching sets of globs, are globset's, arguments.
use Prim.Native.Char.{code}
use Prim.Native.String.{◌++◌ as str_append}
use wanax.Prelude.{
  ◌≡◌, ◌↔◌, refl, String, Bool, true, false, ◌||◌, Option, none, some, List, [], ◌∷◌, ◌++◌, str_eq,
  any, All, if◌then◌else◌, ◌==◌, arith, Bool-cases, inl, inr, ◌⊎◌, ap, eq_iff, any_witness,
  any_of_mem,
}
use mathlib.Core.List.{Memᴰ}
use wanax.Core.Contract.Sections.{eq_ignore_ascii_case}
use wanax.Core.Error.{Result, ok, err}
use wanax.Core.GlobOverlap.{Globset}
use wanax.Core.Types.{CompletionCriterion}

or_true : (b : Bool) → (b || true) ≡ true
or_true b = ground arith

module _ (glob_matches : String → String → Option Bool) where
  -- A glob that does not compile matches nothing.
  abbrev pub matches_or_false : Option Bool → Bool
  matches_or_false none = false
  matches_or_false (some b) = b

  matched : (o : Option Bool) → matches_or_false o ≡ true → o ≡ some true
  matched none h = cc
  matched (some b) h = ap some h

  unfoldable pub is_hit : String → List String → Bool
  is_hit pat changed = any (λ f. str_eq f pat || matches_or_false (glob_matches pat f)) changed

  unfoldable pub missing_files : String → List String → List String → List String
  unfolding is_hit
  missing_files id changed [] = []
  missing_files id changed (pat ∷ pats) =
      let rest = missing_files id changed pats in
      if is_hit pat changed then rest else str_append id (str_append ": " pat) ∷ rest

  unfoldable pub missing_must_have : List CompletionCriterion → List String → List String
  unfolding missing_files
  missing_must_have [] changed = []
  missing_must_have (cc ∷ criteria) changed =
      missing_files cc.id changed cc.must_have_files ++ missing_must_have criteria changed

  missing_files_iff :
      (id : String) (changed pats : List String)
      → (missing_files id changed pats ≡ []) ↔ All (λ pat. is_hit pat changed ≡ true) pats
  unfolding missing_files
  missing_files_iff id changed [] = (λ h. tt, λ h. refl)
  missing_files_iff id changed (pat ∷ pats) =
      let (there, back) = missing_files_iff id changed pats in
      elim (Bool-cases (is_hit pat changed)) [
        | inl e ↦ (λ h. (e, there (simp e at h)), λ h. simp e (back h.1))
        | inr e ↦ (λ h. absurd (ground arith), λ h. absurd (let hit = h.0 in ground arith))
      ]

  append_none : (xs ys : List String) → (xs ++ ys ≡ []) ↔ (xs ≡ []) × (ys ≡ [])
  append_none [] ys = (λ h. (refl, h), λ h. h.1)
  append_none (x ∷ xs) ys = (λ h. cc, λ h. cc)

  -- One of the changed files is the file that is asked for, or is matched by the glob that is.
  abbrev pub IsChanged : List String → String → Type 0
  IsChanged changed pat =
      (f : String) × Memᴰ f changed × ((f ≡ pat) ⊎ (glob_matches pat f ≡ some true))

  hit-IsChanged :
      (pat : String) (changed : List String) → is_hit pat changed ≡ true → IsChanged changed pat
  unfolding is_hit
  hit-IsChanged pat changed h =
      let (f, m, hit) =
        any_witness (λ f. str_eq f pat || matches_or_false (glob_matches pat f)) changed h in
      (
        f,
        m,
        elim (Bool-cases (str_eq f pat)) [
          | inl same ↦ inl ((eq_iff f pat).0 same)
          | inr other ↦ inr (matched (glob_matches pat f) (ground arith))
        ],
      )

  IsChanged-hit :
      (pat : String) (changed : List String) → IsChanged changed pat → is_hit pat changed ≡ true
  unfolding is_hit
  IsChanged-hit pat changed (f, m, why) =
      any_of_mem (λ f. str_eq f pat || matches_or_false (glob_matches pat f)) m
        (elim why [
          | inl same ↦ rw ((eq_iff f pat).1 same) refl
          | inr matches ↦ rw matches (or_true (str_eq f pat))
        ])

  All-IsChanged :
      (changed pats : List String)
      → All (λ pat. is_hit pat changed ≡ true) pats ↔ All (λ pat. IsChanged changed pat) pats
  All-IsChanged changed [] = (λ h. tt, λ h. tt)
  All-IsChanged changed (pat ∷ pats) =
      let (there, back) = All-IsChanged changed pats in
      (
        λ h. (hit-IsChanged pat changed h.0, there h.1),
        λ h. (IsChanged-hit pat changed h.0, back h.1),
      )

  -- Nothing is missing exactly when for every file that a criterion asks for some changed file is that file,
  -- or is matched by it as a glob.
  pub missing_must_have_iff :
      (criteria : List CompletionCriterion) (changed : List String)
      → (missing_must_have criteria changed ≡ [])
        ↔ All (λ k. All (λ pat. IsChanged changed pat) k.must_have_files) criteria
  unfolding missing_must_have
  missing_must_have_iff [] changed = (λ h. tt, λ h. refl)
  missing_must_have_iff (k ∷ criteria) changed =
      let (split, join) =
        append_none (missing_files k.id changed k.must_have_files)
          (missing_must_have criteria changed) in
      let (first, back) = missing_files_iff k.id changed k.must_have_files in
      let (opened, shut) = All-IsChanged changed k.must_have_files in
      let (rest, back_rest) = missing_must_have_iff criteria changed in
      (
        λ h. let (a, b) = split h in (opened (first a), rest b),
        λ h. join (back (shut h.0), back_rest h.1),
      )

abbrev first_segment : String → List String → List String
first_segment c [] = c ∷ []
first_segment c (l ∷ ls) = str_append c l ∷ ls

-- `split('/')`
unfoldable pub segments : String → List String
segments String.[] = "" ∷ []
segments (String.◌∷◌ c s) =
    let rest = segments s in
    if code c == 47 then "" ∷ rest else first_segment (String.◌∷◌ c "") rest

unfoldable pub names_tests : String → Bool
unfolding segments eq_ignore_ascii_case
names_tests pattern =
    any (λ seg. str_eq seg "tests" || eq_ignore_ascii_case seg "tests") (segments pattern)

abbrev pub reaches_tests : (g : Globset) → Result g.GlobSet → Bool
reaches_tests g (ok set) = g.is_match set "tests/foo.rs" || g.is_match set "tests/a/b.rs"
reaches_tests g (err e) = false

unfoldable pub allowed_globs_cover_binding_tests :
    (g : Globset) → (List String → Result g.GlobSet) → List String → Bool
unfolding names_tests
allowed_globs_cover_binding_tests g compile patterns =
    if any names_tests patterns then true else reaches_tests g (compile patterns)
