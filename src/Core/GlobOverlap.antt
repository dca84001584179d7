-- ===== src/Core/GlobOverlap.antt =====
-- Whether two sets of globs may match the same path: crates/wanax-core/src/glob_overlap.rs. The crate
-- globset, which compiles and matches globs, is an argument.
pub mod Overlaps
pub mod Pairs
use wanax.Prelude.{
  ℕ, suc, String, Bool, true, false, not, ◌&&◌, ◌||◌, Option, none, some, List, [], ◌∷◌, ◌++◌,
  str_eq, any, is_empty, if◌then◌else◌, ◌==◌,
}
use Prim.Native.Char.{code}
use Prim.Native.String.{◌++◌ as append}
use wanax.Prelude.Sort.{sort, dedup, str_le}

-- What the code calls of globset: a glob is built (or is malformed), a set is built of globs, and a set
-- is matched with a path.
pub record Globset : Type 1 where
  pub Glob : Type 0
  pub GlobSet : Type 0
  pub build_glob : String → Option Glob
  pub build_set : List Glob → Option GlobSet
  pub is_match : GlobSet → String → Bool

unfoldable pub build_globs : (g : Globset) → List String → Option (List g.Glob)
build_globs g [] = some []
build_globs g (p ∷ ps) = elim (g.build_glob p) [
  | none ↦ none
  | some glob ↦ elim (build_globs g ps) [ none ↦ none | some globs ↦ some (glob ∷ globs) ]
]

unfoldable pub compile_globs : (g : Globset) → List String → Option g.GlobSet
unfolding build_globs
compile_globs g patterns = elim (build_globs g patterns) [
  | none ↦ none
  | some globs ↦ g.build_set globs
]

unfoldable pub has_star : String → Bool
has_star String.[] = false
has_star (String.◌∷◌ c s) = code c == b'*' || has_star s

-- `pattern.split('*').next()`
unfoldable pub before_star : String → String
before_star String.[] = ""
before_star (String.◌∷◌ c s) = if code c == b'*' then "" else String.◌∷◌ c (before_star s)

-- `trim_end_matches('/')`
unfoldable pub trim_slashes : String → String
trim_slashes String.[] = ""
trim_slashes (String.◌∷◌ c s) =
    let rest = trim_slashes s in if code c == b'/' && str_eq rest "" then "" else String.◌∷◌ c rest

unfoldable pub pattern_probes : String → List String
unfolding has_star before_star trim_slashes
pattern_probes pattern =
    let prefix = trim_slashes (before_star pattern) in
    if not (has_star pattern)
    then pattern ∷ []
    else if str_eq prefix ""
    then "file.rs" ∷ "src/file.rs" ∷ "a/b/c.rs" ∷ []
    else prefix ∷ append prefix "/file.rs" ∷ append prefix "/nested/x.rs" ∷ []

unfoldable pub all_probes : List String → List String
unfolding pattern_probes
all_probes [] = []
all_probes (p ∷ ps) = pattern_probes p ++ all_probes ps

unfoldable pub probe_paths : List String → List String → List String
unfolding all_probes
probe_paths a b = dedup (sort str_le (all_probes (a ++ b)))

-- Whether a pattern is in both sets.
unfoldable pub shares_pattern : List String → List String → Bool
shares_pattern a b = any (λ pa. any (λ pb. str_eq pa pb) b) a

-- Whether both sets match a path: a set that cannot be compiled is taken to.
abbrev pub both_match : (g : Globset) → Option g.GlobSet → Option g.GlobSet → String → Bool
both_match g (some set_a) (some set_b) path = g.is_match set_a path && g.is_match set_b path
both_match g _ _ path = true

abbrev pub is_compiled {ℓ} : {A : Type ℓ} → Option A → Bool
is_compiled none = false
is_compiled (some a) = true

unfoldable pub peer_glob_sets_overlap : Globset → List String → List String → Bool
unfolding shares_pattern compile_globs probe_paths
peer_glob_sets_overlap g a b =
    if is_empty a || is_empty b
    then false
    else if shares_pattern a b
    then true
    else if not (is_compiled (compile_globs g a)) || not (is_compiled (compile_globs g b))
    then true
    else any (both_match g (compile_globs g a) (compile_globs g b)) (probe_paths a b)

-- The inner loop of `find_peer_overlap`, with the index of the first set of the list.
unfoldable pub find_after : Globset → List String → ℕ → List (List String) → Option ℕ
unfolding peer_glob_sets_overlap
find_after g a j [] = none
find_after g a j (b ∷ sets) =
    let rest = find_after g a (suc j) sets in if peer_glob_sets_overlap g a b then some j else rest

unfoldable pub find_from : Globset → ℕ → List (List String) → Option (ℕ × ℕ)
unfolding find_after
find_from g i [] = none
find_from g i (a ∷ sets) =
    let rest = find_from g (suc i) sets in
    elim (find_after g a (suc i) sets) [ some j ↦ some (i, j) | none ↦ rest ]

unfoldable pub find_peer_overlap : Globset → List (List String) → Option (ℕ × ℕ)
unfolding find_from
find_peer_overlap g sets = find_from g 0 sets
