-- ===== src/Verify/Boundaries.antt =====
-- The boundaries of a contract: check_boundaries and is_factory_meta of crates/wanax-verify/src/lib.rs.
-- Compiling globs and matching paths are globset's, an argument.
use wanax.Prelude.{
  ◌≡◌, ap, ◌∙◌, String, Bool, true, false, not, ◌&&◌, ◌||◌, Option, none, some, List, [], ◌∷◌, keep,
  is_empty, if◌then◌else◌, arith, Bool-cases, inl, inr, keep-mem,
}
use mathlib.Core.List.{Memᴰ}
use Prim.Native.Char.{code}
use wanax.Prelude.{◌==◌}
use wanax.Core.Error.{Result, ok, ◌>>=◌, >>=-eq-ok}
use wanax.Core.GlobOverlap.{Globset}

-- `starts_with`
unfoldable pub starts_with : String → String → Bool
starts_with s String.[] = true
starts_with String.[] (String.◌∷◌ d t) = false
starts_with (String.◌∷◌ c s) (String.◌∷◌ d t) = code c == code d && starts_with s t

unfoldable pub is_factory_meta : String → Bool
unfolding starts_with
is_factory_meta path = starts_with path ".wanax/runs/" || starts_with path ".wanax/worktrees/"

pub record BoundaryReport : Type 0 where
  pub ok : Bool
  pub changed_files : List String
  pub violating : List String

-- The set of forbidden globs, if there are any.
abbrev pub in_forbidden : (g : Globset) → Option g.GlobSet → String → Bool
in_forbidden g none path = false
in_forbidden g (some set) path = g.is_match set path

abbrev pub violates : (g : Globset) → g.GlobSet → Option g.GlobSet → String → Bool
violates g allowed forbidden path = in_forbidden g forbidden path || not (g.is_match allowed path)

unfoldable pub boundary_report :
    (g : Globset) → g.GlobSet → Option g.GlobSet → List String → BoundaryReport
unfolding is_factory_meta
boundary_report g allowed forbidden changed =
    let considered = keep (λ p. not (is_factory_meta p)) changed in
    let violating = keep (violates g allowed forbidden) considered in
    record { ok = is_empty violating; changed_files = considered; violating = violating }

-- Compiling a set of globs fails with an error of the contract.
unfoldable pub check_boundaries :
    (g : Globset)
    → (List String → Result g.GlobSet)
    → List String
    → List String
    → List String
    → Result BoundaryReport
unfolding boundary_report
check_boundaries g compile changed allowed forbidden = compile allowed >>= λ allowed_set.
    (if is_empty forbidden then ok none else compile forbidden >>= λ set. ok (some set))
    >>= λ forbidden_set. ok (boundary_report g allowed_set forbidden_set changed)

keep_empty :
    {A : Type 0} (p : A → Bool) (xs : List A)
    → is_empty (keep p xs) ≡ true
    → {a : A} → Memᴰ a xs
    → p a ≡ false
keep_empty p [] h m = elim m [ ]
keep_empty p (x ∷ xs) h {a} (Memᴰ.head e) = elim (Bool-cases (p x)) [
  | inl bad ↦ ground arith
  | inr fine ↦ ap p e ∙ fine
]
keep_empty p (x ∷ xs) h {a} (Memᴰ.tail m) =
    keep_empty p xs (elim (Bool-cases (p x)) [ inl bad ↦ ground arith | inr fine ↦ ground arith ])
      {a = a} m

report_ok :
    (g : Globset) (allowed : g.GlobSet) (forbidden : Option g.GlobSet) (changed : List String)
    → (boundary_report g allowed forbidden changed).ok ≡ true
    → (path : String) → Memᴰ path changed
    → is_factory_meta path ≡ false
    → (g.is_match allowed path ≡ true) × (in_forbidden g forbidden path ≡ false)
unfolding boundary_report
report_ok g allowed forbidden changed fine path m outside =
    let considered = keep-mem (λ p. not (is_factory_meta p)) m (ap not outside) in
    let clear =
      keep_empty (violates g allowed forbidden) (keep (λ p. not (is_factory_meta p)) changed) fine
        considered in
    ground arith

abbrev compile_forbidden :
    (g : Globset) → (List String → Result g.GlobSet) → List String → Result (Option g.GlobSet)
compile_forbidden g compile forbidden =
    if is_empty forbidden then ok none else compile forbidden >>= λ set. ok (some set)

-- The sets of globs that a successful check has compiled.
pub record IsCompiled (g : Globset) (compile : List String → Result g.GlobSet)
    (allowed forbidden : List String) : Type 0 where
  pub allowed_set : g.GlobSet
  pub forbidden_set : Option g.GlobSet
  pub allowed_compiled : compile allowed ≡ ok allowed_set
  pub forbidden_compiled : compile_forbidden g compile forbidden ≡ ok forbidden_set

-- When the check succeeds and reports no violation, every changed path outside the factory's own files is
-- matched by the allowed globs and not by the forbidden ones.
pub check_boundaries_ok :
    (g : Globset) (compile : List String → Result g.GlobSet)
    (changed allowed forbidden : List String) {report : BoundaryReport}
    → check_boundaries g compile changed allowed forbidden ≡ ok report
    → report.ok ≡ true
    → (sets : IsCompiled g compile allowed forbidden) × ((path : String)
        → Memᴰ path changed
        → is_factory_meta path ≡ false
        → (g.is_match sets.allowed_set path ≡ true)
          × (in_forbidden g sets.forbidden_set path ≡ false))
unfolding check_boundaries
check_boundaries_ok g compile changed allowed forbidden {report} h fine =
    let (a, ea, later) =
      >>=-eq-ok (compile allowed)
        (λ a. compile_forbidden g compile forbidden >>= λ f. ok (boundary_report g a f changed))
        h in
    let (f, ef, made) =
      >>=-eq-ok (compile_forbidden g compile forbidden) (λ f. ok (boundary_report g a f changed))
        later in
    let same : boundary_report g a f changed ≡ report = cc in
    (
      record { allowed_set = a; forbidden_set = f; allowed_compiled = ea; forbidden_compiled = ef },
      λ path m outside. report_ok g a f changed (ap (λ r. r.ok) same ∙ fine) path m outside,
    )
