-- ===== src/Core/Contract/Sections.antt =====
-- How crates/wanax-core/src/contract.rs takes a text apart: front matter, sections and list items.
use Prim.Native.Char.{code}
use Prim.Native.String.{◌++◌ as str_append}
use wanax.Prelude.{
  ℕ, ◌+◌, String, Bool, true, false, not, ◌&&◌, ◌||◌, Option, none, some, List, [], ◌∷◌, ◌++◌,
  str_eq, any, if◌then◌else◌, ltb, leb, ◌==◌,
}
use wanax.Core.Error.{WanaxError, Result, err, ok, new}
use wanax.Core.ErrorCode.{contract_invalid}
use wanax.Core.TestCommand.{trim}
use wanax.Verify.Secrets.{strip_prefix}

-- `str::len`, the bytes of a text in UTF-8.
abbrev char_len : ℕ → ℕ
char_len c = if ltb c 0x80 then 1 else if ltb c 0x800 then 2 else if ltb c 0x10000 then 3 else 4

unfoldable pub byte_len : String → ℕ
byte_len String.[] = 0
byte_len (String.◌∷◌ c s) = char_len (code c) + byte_len s

abbrev pub or_first {ℓ} : {A : Type ℓ} → Option A → Option A → Option A
or_first none o = o
or_first (some a) o = some a

abbrev pub or_text : Option String → String → String
or_text none s = s
or_text (some t) s = t

abbrev pub begins_line : String → Bool
begins_line String.[] = false
begins_line (String.◌∷◌ c s) = code c == 10

abbrev pub push_char : String → List String → List String
push_char c [] = c ∷ []
push_char c (l ∷ ls) = str_append c l ∷ ls

-- `str::lines`: a line ends with LF or CR LF, and the last may have no end.
unfoldable pub lines : String → List String
lines String.[] = []
lines (String.◌∷◌ c s) =
    let rest = lines s in
    if code c == 10
    then "" ∷ rest
    else if (code c == 13) && begins_line s
    then rest
    else push_char (String.◌∷◌ c "") rest

abbrev pub with_char : String → Option (String × String) → Option (String × String)
with_char c none = none
with_char c (some (s, rest)) = some (str_append c s, rest)

abbrev pub is_some {ℓ} : {A : Type ℓ} → Option A → Bool
is_some none = false
is_some (some a) = true

-- `find` of a pattern that is not empty: the text before it, and the text from it on.
unfoldable pub find_text : String → String → Option (String × String)
unfolding strip_prefix
find_text pattern String.[] = none
find_text pattern (String.◌∷◌ c s) =
    let rest = find_text pattern s in
    if is_some (strip_prefix pattern (String.◌∷◌ c s))
    then some ("", String.◌∷◌ c s)
    else with_char (String.◌∷◌ c "") rest

-- One line end at the start is dropped.
unfoldable skip_line_end : String → String
unfolding strip_prefix
skip_line_end s = or_text (or_first (strip_prefix "\n" s) (strip_prefix "\r\n" s)) s

unfoldable no_front_matter : WanaxError
unfolding new
no_front_matter = new contract_invalid "invalid contract: front matter"

unfoldable close_front_matter : Option (String × String) → Result (String × String)
unfolding skip_line_end no_front_matter strip_prefix
close_front_matter none = err no_front_matter
close_front_matter (some (fm, rest)) = ok (
  fm,
  skip_line_end (or_text (or_first (strip_prefix "\n---" rest) (strip_prefix "\r\n---" rest)) rest),
)

unfoldable after_dashes : Option String → Result (String × String)
unfolding close_front_matter find_text skip_line_end strip_prefix no_front_matter
after_dashes none = err no_front_matter
after_dashes (some rest) =
    let body = skip_line_end rest in
    close_front_matter (or_first (find_text "\n---" body) (find_text "\r\n---" body))

unfoldable pub split_front_matter : String → Result (String × String)
unfolding after_dashes strip_prefix
split_front_matter text =
    after_dashes (strip_prefix "---" (or_text (strip_prefix "\u{feff}" text) text))

-- The variables of the loop on the lines: what is put out, and the title and body of the section.
pub record Section : Type 0 where
  pub out : List (String × String)
  pub title : String
  pub body : String

unfoldable pub section_line : Option String → String → Section → Section
unfolding trim
section_line none line s = record s { body = str_append s.body (str_append line "\n") }
section_line (some title) line s = record {
  out =
      if not (str_eq s.title "") || not (str_eq (trim s.body) "")
      then s.out ++ (s.title, trim s.body) ∷ []
      else s.out;
  title = trim title;
  body = "";
}

unfoldable pub section_lines : List String → Section → Section
unfolding section_line strip_prefix
section_lines [] s = s
section_lines (line ∷ rest) s = section_lines rest (section_line (strip_prefix "## " line) line s)

unfoldable pub last_section : Section → List (String × String)
unfolding trim
last_section s = if str_eq s.title "" then s.out else s.out ++ (s.title, trim s.body) ∷ []

unfoldable pub parse_sections : String → List (String × String)
unfolding section_lines last_section lines
parse_sections body =
    last_section (section_lines (lines body) record { out = []; title = ""; body = "" })

abbrev ascii_lower : ℕ → ℕ
ascii_lower c = if leb 65 c && leb c 90 then c + 32 else c

unfoldable pub eq_ignore_ascii_case : String → String → Bool
eq_ignore_ascii_case String.[] String.[] = true
eq_ignore_ascii_case String.[] (String.◌∷◌ d t) = false
eq_ignore_ascii_case (String.◌∷◌ c s) String.[] = false
eq_ignore_ascii_case (String.◌∷◌ c s) (String.◌∷◌ d t) =
    (ascii_lower (code c) == ascii_lower (code d)) && eq_ignore_ascii_case s t

unfoldable pub section_text : List (String × String) → List String → String
unfolding eq_ignore_ascii_case
section_text [] aliases = ""
section_text ((title, body) ∷ sections) aliases =
    let rest = section_text sections aliases in
    if any (eq_ignore_ascii_case title) aliases then body else rest

unfoldable keep_item : Option String → List String → List String
unfolding trim
keep_item none items = items
keep_item (some s) items = if str_eq (trim s) "" then items else trim s ∷ items

unfoldable pub list_items : List String → List String
unfolding keep_item strip_prefix trim
list_items [] = []
list_items (line ∷ rest) =
    let items = list_items rest in
    keep_item (or_first (strip_prefix "- " (trim line)) (strip_prefix "* " (trim line))) items

unfoldable pub parse_list_items : String → List String
unfolding list_items lines
parse_list_items body = list_items (lines body)
