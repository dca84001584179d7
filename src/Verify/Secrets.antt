-- ===== src/Verify/Secrets.antt =====
-- The scan of a diff for secrets: scan_diff_added of crates/wanax-verify/src/lib.rs, on the lines of the
-- diff. The regular expressions are an argument: each kind of secret with its test of a text.
pub mod Found
use wanax.Prelude.{
  ℕ, ◌+◌, ◌*◌, ◌-◌, ◌%◌, ◌^◌, String, Bool, true, false, ◌&&◌, ◌||◌, Option, none, some, List, [],
  ◌∷◌, ◌++◌, str_eq, leb, ltb, ◌==◌, if◌then◌else◌,
}
use Prim.Native.Char.{code}
use wanax.Core.Env.{trim_left, trim_right}

pub record SecretFinding : Type 0 where
  pub path : String
  pub line : ℕ
  pub kind : String

-- A kind of secret, and whether a text has one.
abbrev pub Pattern : Type 0
Pattern = String × (String → Bool)

-- `strip_prefix`
unfoldable pub strip_prefix : String → String → Option String
strip_prefix String.[] s = some s
strip_prefix (String.◌∷◌ d t) String.[] = none
strip_prefix (String.◌∷◌ d t) (String.◌∷◌ c s) =
    let rest = strip_prefix t s in if code c == code d then rest else none

-- The text before the first of the characters, and what follows it.
unfoldable pub before : (ℕ → Bool) → String → String
before stop String.[] = ""
before stop (String.◌∷◌ c s) = if stop (code c) then "" else String.◌∷◌ c (before stop s)

unfoldable pub after : (ℕ → Bool) → String → Option String
after stop String.[] = none
after stop (String.◌∷◌ c s) = let rest = after stop s in if stop (code c) then some s else rest

-- `parse::<u32>` of a text: an optional sign, then at least one digit.
unfoldable pub read_digits : ℕ → String → Option ℕ
read_digits acc String.[] = some acc
read_digits acc (String.◌∷◌ c s) =
    let rest = read_digits (acc * 10 + (code c - 48)) s in
    if leb 48 (code c) && leb (code c) 57 then rest else none

abbrev pub in_u32 : Option ℕ → Option ℕ
in_u32 none = none
in_u32 (some n) = if ltb n (2 ^ 32) then some n else none

-- `split([',', ' ']).next().and_then(parse).unwrap_or(0)`; the text has no sign, since it was split at `+`.
unfoldable pub first_number : String → ℕ
unfolding read_digits before
first_number plus =
    let digits = before (λ c. c == b',' || c == b' ') plus in
    if str_eq digits "" then 0 else elim (in_u32 (read_digits 0 digits)) [ none ↦ 0 | some n ↦ n ]

-- The line that a hunk starts at, if its header has one: `h.split('+').nth(1)`.
unfoldable pub hunk_start : String → ℕ → ℕ
unfolding first_number after before
hunk_start header old = elim (after (λ c. c == b'+') header) [
  | none ↦ old
  | some rest ↦ first_number (before (λ c. c == b'+') rest)
]

pub record Scan : Type 0 where
  pub found : List SecretFinding
  pub path : String
  pub new_line : ℕ
  pub in_hunk : Bool

-- The first pattern that matches, as a finding.
unfoldable pub match_line : List Pattern → String → ℕ → String → List SecretFinding
match_line [] path line added = []
match_line ((kind, test) ∷ patterns) path line added =
    let rest = match_line patterns path line added in
    if test added then record { path = path; line = line; kind = kind } ∷ [] else rest

-- `rest.trim().strip_prefix("b/").unwrap_or(rest.trim())`
unfoldable pub header_path : String → String
unfolding trim_left trim_right strip_prefix
header_path rest =
    let trimmed = trim_right (trim_left rest) in
    elim (strip_prefix "b/" trimmed) [ none ↦ trimmed | some p ↦ p ]

-- `new_line += 1` on a `u32`, as a release build counts; a debug build stops there.
abbrev pub next_line : ℕ → ℕ
next_line n = (n + 1) % 2 ^ 32

-- A line that is not added: a removed one and the marker of a missing newline do not count.
abbrev pub pass_line : Option String → Option String → Scan → Scan
pass_line (some removed) marker s = s
pass_line none (some marker) s = s
pass_line none none s = record s { new_line = next_line s.new_line }

abbrev pub scan_added : List Pattern → Option String → Scan → Scan → Scan
scan_added patterns none passed s = passed
scan_added patterns (some added) passed s = record s {
  found = s.found ++ match_line patterns s.path s.new_line added;
  new_line = next_line s.new_line;
}

unfoldable pub scan_in_hunk : List Pattern → String → Scan → Scan
unfolding strip_prefix match_line
scan_in_hunk patterns line s =
    scan_added patterns (strip_prefix "+" line)
      (pass_line (strip_prefix "-" line) (strip_prefix "\\" line) s) s

-- A line that begins a file, a line that begins a hunk, or a line of a hunk.
unfoldable pub scan_headers : List Pattern → String → Option String → Option String → Scan → Scan
unfolding header_path hunk_start scan_in_hunk
scan_headers patterns line (some rest) hunk s = record s {
  path = header_path rest;
  in_hunk = false;
}
scan_headers patterns line none (some h) s = record s {
  new_line = hunk_start h s.new_line;
  in_hunk = true;
}
scan_headers patterns line none none s = if s.in_hunk then scan_in_hunk patterns line s else s

unfoldable pub scan_line : List Pattern → String → Scan → Scan
unfolding strip_prefix scan_headers
scan_line patterns line s =
    scan_headers patterns line (strip_prefix "+++ " line) (strip_prefix "@@ " line) s

unfoldable pub scan_lines : List Pattern → List String → Scan → Scan
unfolding scan_line
scan_lines patterns [] s = s
scan_lines patterns (line ∷ lines) s = scan_lines patterns lines (scan_line patterns line s)

abbrev pub scan_start : Scan
scan_start = record { found = []; path = ""; new_line = 0; in_hunk = false }

unfoldable pub scan_diff_added : List Pattern → List String → List SecretFinding
unfolding scan_lines
scan_diff_added patterns lines = (scan_lines patterns lines scan_start).found
