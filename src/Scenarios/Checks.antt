-- ===== src/Scenarios/Checks.antt =====
-- The theorems on environments, boundaries and secrets at concrete inputs.
use wanax.Prelude.{
  ◌↔◌, All, Bool, Option, none, ◌≡◌, refl, true, false, some, List, [], ◌∷◌, String, str_eq,
}
use mathlib.Core.List.{Memᴰ}
use wanax.Core.Error.{Result, ok}
use wanax.Core.Env.{base_child_env, env_has_forbidden}
use wanax.Core.Env.Clean.{Addition, pass, git_config, prepend_path, add_all, child_env-clean}
use wanax.Verify.Boundaries.{
  BoundaryReport, IsCompiled, check_boundaries, check_boundaries_ok, in_forbidden, is_factory_meta,
}
use wanax.Core.Types.{CompletionCriterion}
use wanax.Verify.MustHave.{IsChanged, missing_must_have, missing_must_have_iff}
use wanax.Verify.Secrets.{Pattern, Scan, scan_lines, strip_prefix}
use wanax.Verify.Secrets.Found.{scan_lines-finds, scan_lines-blind}
use wanax.Scenarios.Dags.{literal_globs}

abbrev additions : List Addition
additions =
    pass ("GH_TOKEN" ∷ " CARGO_HOME " ∷ [])
    ∷ git_config "/tmp/gitconfig"
    ∷ prepend_path "/tmp/bin"
    ∷ []

child_env-clean_example :
    env_has_forbidden
      (add_all (λ key. some "secret") additions (base_child_env (λ key. some "secret")))
    ≡ false
child_env-clean_example = child_env-clean (λ key. some "secret") additions

abbrev compile_literal : List String → Result (List String)
compile_literal patterns = ok patterns

abbrev clean_report : BoundaryReport
clean_report = record { ok = true; changed_files = "a.rs" ∷ []; violating = [] }

check_boundaries_ok_example :
    (sets : IsCompiled literal_globs compile_literal ("a.rs" ∷ []) ("b.rs" ∷ [])) × ((path : String)
      → Memᴰ path ("a.rs" ∷ ".wanax/runs/r1" ∷ [])
      → is_factory_meta path ≡ false
      → (literal_globs.is_match sets.allowed_set path ≡ true)
        × (in_forbidden literal_globs sets.forbidden_set path ≡ false))
unfolding check_boundaries
check_boundaries_ok_example =
    check_boundaries_ok literal_globs compile_literal ("a.rs" ∷ ".wanax/runs/r1" ∷ []) ("a.rs" ∷ [])
      ("b.rs" ∷ []) {report = clean_report} refl refl

abbrev patterns : List Pattern
patterns = ("aws-access-key", λ text. str_eq text "key = AKIA") ∷ []

abbrev scan_inside : Scan
scan_inside = record { found = []; path = "a.rs"; new_line = 7; in_hunk = true }

scan_lines-finds_example :
    Memᴰ
      (record { path = "a.rs"; line = 7; kind = "aws-access-key" })
      (scan_lines
        (("github-token", λ text. str_eq text "ghp") ∷ patterns)
        ("+key = AKIA" ∷ " rest" ∷ [])
        scan_inside).found
unfolding strip_prefix
scan_lines-finds_example =
    scan_lines-finds (("github-token", λ text. str_eq text "ghp") ∷ []) [] "aws-access-key"
      (λ text. str_eq text "key = AKIA") "+key = AKIA" "key = AKIA" (" rest" ∷ []) scan_inside refl
      refl refl refl (refl, tt) refl

-- The second line is added, and has a secret; the first, added as `++ x`, hides it.
scan_lines-blind_example :
    (scan_lines patterns ("+++ x" ∷ "+key = AKIA" ∷ []) scan_inside).found ≡ []
unfolding strip_prefix
scan_lines-blind_example =
    scan_lines-blind patterns "+++ x" "x" ("+key = AKIA" ∷ []) scan_inside refl ((refl, refl), tt)

abbrev criterion : CompletionCriterion
criterion = record {
  id = "CC-01";
  statement = "it parses";
  bound_test = none;
  must_have_files = "a.rs" ∷ "b.rs" ∷ [];
}

abbrev same_path : String → String → Option Bool
same_path pattern path = some (str_eq pattern path)

one_missing : missing_must_have same_path (criterion ∷ []) ("a.rs" ∷ []) ≡ "CC-01: b.rs" ∷ []
unfolding missing_must_have
one_missing = refl

missing_must_have_iff_example :
    (missing_must_have same_path (criterion ∷ []) ("b.rs" ∷ "a.rs" ∷ []) ≡ [])
    ↔ All
        (λ k. All (λ pat. IsChanged same_path ("b.rs" ∷ "a.rs" ∷ []) pat) k.must_have_files)
        (criterion ∷ [])
missing_must_have_iff_example =
    missing_must_have_iff same_path (criterion ∷ []) ("b.rs" ∷ "a.rs" ∷ [])
