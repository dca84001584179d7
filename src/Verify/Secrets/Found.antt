-- ===== src/Verify/Secrets/Found.antt =====
-- What the scan of scan_diff_added (crates/wanax-verify/src/lib.rs) finds, and where it does not look.
use wanax.Prelude.{
  ℕ, ◌≡◌, refl, ap, sym, ◌∙◌, String, Bool, true, false, Option, none, some, List, [], ◌∷◌, ◌++◌,
  All, if◌then◌else◌, subst,
}
use mathlib.Core.List.{Memᴰ}
use mathlib.Core.List.Memᴰ.{append_left, append_right}
use wanax.Verify.Secrets.{
  SecretFinding, Pattern, Scan, strip_prefix, match_line, pass_line, scan_added, scan_headers,
  scan_in_hunk, scan_line, scan_lines, header_path,
}

-- What is found on a line is of the first kind whose pattern matches.
match_line-first :
    (skipped later : List Pattern) (kind : String) (test : String → Bool) (path : String) (line : ℕ)
    (added : String)
    → All (λ p. p.1 added ≡ false) skipped
    → test added ≡ true
    → match_line (skipped ++ (kind, test) ∷ later) path line added
      ≡ record { path = path; line = line; kind = kind } ∷ []
unfolding match_line
match_line-first [] later kind test path line added missed hit =
    let one : List SecretFinding = record { path = path; line = line; kind = kind } ∷ [] in
    ap (λ b. if b then one else match_line later path line added) hit
match_line-first ((other, fails) ∷ skipped) later kind test path line added missed hit =
    let one : List SecretFinding = record { path = path; line = line; kind = other } ∷ [] in
    let rest = match_line (skipped ++ (kind, test) ∷ later) path line added in
    ap (λ b. if b then one else rest) missed.0
    ∙ match_line-first skipped later kind test path line added missed.1 hit

pass_line-found :
    (removed marker : Option String) (s : Scan) → (pass_line removed marker s).found ≡ s.found
pass_line-found (some removed) marker s = refl
pass_line-found none (some marker) s = refl
pass_line-found none none s = refl

scan_added-keeps :
    (patterns : List Pattern) (added : Option String) (passed s : Scan) {f : SecretFinding}
    → passed.found ≡ s.found
    → Memᴰ f s.found
    → Memᴰ f (scan_added patterns added passed s).found
scan_added-keeps patterns none passed s {f} same m = subst (λ l. Memᴰ f l) (sym same) m
scan_added-keeps patterns (some added) passed s same m = append_left _ m

scan_in_hunk-keeps :
    (patterns : List Pattern) (line : String) (s : Scan) {f : SecretFinding}
    → Memᴰ f s.found
    → Memᴰ f (scan_in_hunk patterns line s).found
unfolding scan_in_hunk
scan_in_hunk-keeps patterns line s m =
    let removed = strip_prefix "-" line in
    let marker = strip_prefix "\\" line in
    scan_added-keeps patterns (strip_prefix "+" line) (pass_line removed marker s) s
      (pass_line-found removed marker s) m

scan_headers-keeps :
    (patterns : List Pattern) (line : String) (file hunk : Option String) (s : Scan)
    {f : SecretFinding}
    → Memᴰ f s.found
    → Memᴰ f (scan_headers patterns line file hunk s).found
unfolding scan_headers
scan_headers-keeps patterns line (some rest) hunk s m = m
scan_headers-keeps patterns line none (some h) s m = m
scan_headers-keeps patterns line none none s {f} m =
    elim s.in_hunk as (λ b. Memᴰ f (if b then scan_in_hunk patterns line s else s).found) [
      | true ↦ scan_in_hunk-keeps patterns line s m
      | false ↦ m
    ]

-- What has been found stays found.
scan_lines-keeps :
    (patterns : List Pattern) (lines : List String) (s : Scan) {f : SecretFinding}
    → Memᴰ f s.found
    → Memᴰ f (scan_lines patterns lines s).found
unfolding scan_lines scan_line
scan_lines-keeps patterns [] s m = m
scan_lines-keeps patterns (line ∷ lines) s m =
    scan_lines-keeps patterns lines (scan_line patterns line s)
      (scan_headers-keeps patterns line (strip_prefix "+++ " line) (strip_prefix "@@ " line) s m)

scan_line-found :
    (patterns : List Pattern) (line added : String) (s : Scan)
    → s.in_hunk ≡ true
    → strip_prefix "+++ " line ≡ none
    → strip_prefix "@@ " line ≡ none
    → strip_prefix "+" line ≡ some added
    → (scan_line patterns line s).found ≡ s.found ++ match_line patterns s.path s.new_line added
unfolding scan_line scan_headers scan_in_hunk
scan_line-found patterns line added s inside no_file no_hunk plus =
    ap (λ o. (scan_headers patterns line o (strip_prefix "@@ " line) s).found) no_file
    ∙ (ap (λ o. (scan_headers patterns line none o s).found) no_hunk
        ∙ (ap (λ b. (if b then scan_in_hunk patterns line s else s).found) inside
            ∙ ap
                (λ o.
                  (scan_added patterns o
                    (pass_line (strip_prefix "-" line) (strip_prefix "\\" line) s) s).found)
                plus))

outside_hunk :
    (patterns : List Pattern) (lines : List String) (s : Scan)
    → s.in_hunk ≡ false
    → All (λ l. (strip_prefix "+++ " l ≡ none) × (strip_prefix "@@ " l ≡ none)) lines
    → (scan_lines patterns lines s).found ≡ s.found
unfolding scan_lines scan_line scan_headers
outside_hunk patterns [] s out h = refl
outside_hunk patterns (line ∷ lines) s out h =
    let same : scan_line patterns line s ≡ s =
      ap (λ o. scan_headers patterns line o (strip_prefix "@@ " line) s) h.0.0
      ∙ (ap (λ o. scan_headers patterns line none o s) h.0.1
          ∙ ap (λ b. if b then scan_in_hunk patterns line s else s) out) in
    ap (λ t. (scan_lines patterns lines t).found) same ∙ outside_hunk patterns lines s out h.1

-- In a hunk, an added line that the pattern of some kind matches, and none of the patterns before it, is
-- reported as a secret of that kind, with its path and its line in the new file, whatever lines follow,
-- unless the line itself begins with `+++ ` or `@@ `.
pub scan_lines-finds :
    (skipped later : List Pattern) (kind : String) (test : String → Bool) (line added : String)
    (lines : List String) (s : Scan)
    → s.in_hunk ≡ true
    → strip_prefix "+++ " line ≡ none
    → strip_prefix "@@ " line ≡ none
    → strip_prefix "+" line ≡ some added
    → All (λ p. p.1 added ≡ false) skipped
    → test added ≡ true
    → Memᴰ
        (record { path = s.path; line = s.new_line; kind = kind })
        (scan_lines (skipped ++ (kind, test) ∷ later) (line ∷ lines) s).found
unfolding scan_lines
scan_lines-finds skipped later kind test line added lines s inside no_file no_hunk plus missed hit =
    let patterns = skipped ++ (kind, test) ∷ later in
    let finding : SecretFinding = record { path = s.path; line = s.new_line; kind = kind } in
    let first = match_line-first skipped later kind test s.path s.new_line added missed hit in
    scan_lines-keeps patterns lines (scan_line patterns line s) (
      subst (λ l. Memᴰ finding l)
        (sym (
          scan_line-found patterns line added s inside no_file no_hunk plus
          ∙ ap (λ l. s.found ++ l) first))
        (append_right s.found (Memᴰ.head refl)))

-- A line that begins with `+++ ` ends the hunk, also when it is an added line of the hunk whose text begins
-- with `++ `: nothing is found in the lines after it up to the next header.
pub scan_lines-blind :
    (patterns : List Pattern) (line rest : String) (lines : List String) (s : Scan)
    → strip_prefix "+++ " line ≡ some rest
    → All (λ l. (strip_prefix "+++ " l ≡ none) × (strip_prefix "@@ " l ≡ none)) lines
    → (scan_lines patterns (line ∷ lines) s).found ≡ s.found
unfolding scan_lines scan_line scan_headers
scan_lines-blind patterns line rest lines s file none_begin =
    ap
      (λ o.
        (scan_lines patterns lines
          (scan_headers patterns line o (strip_prefix "@@ " line) s)).found)
      file
    ∙ outside_hunk patterns lines (record s { path = header_path rest; in_hunk = false }) refl
        none_begin
