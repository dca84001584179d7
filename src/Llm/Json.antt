-- ===== src/Llm/Json.antt =====
-- The first JSON object of a reply: crates/wanax-llm/src/jsonutil.rs. The bytes that the loop looks for are
-- ASCII, so that it is a loop on the characters.
pub mod Found
use Prim.Native.Char.{code}
use wanax.Prelude.{
  ℕ, suc, ◌-◌, String, Bool, true, false, not, ◌&&◌, Option, none, some, if◌then◌else◌, ◌==◌,
}
use wanax.Core.Contract.Sections.{find_text}
use wanax.Core.TestCommand.{trim}
use wanax.Verify.Secrets.{strip_prefix}

pub record Scan : Type 0 where
  pub depth : ℕ
  pub in_str : Bool
  pub escape : Bool

-- In a string: a backslash escapes the next character, and a quote ends it.
unfoldable pub step_string : ℕ → Scan → Scan
step_string c s =
    if s.escape
    then record s { escape = false }
    else if c == 92
    then record s { escape = true }
    else if c == 34
    then record s { in_str = false }
    else s

unfoldable pub step_outside : ℕ → Scan → Scan
step_outside c s =
    if c == 34
    then record s { in_str = true }
    else if c == 123
    then record s { depth = suc s.depth }
    else if c == 125
    then record s { depth = s.depth - 1 }
    else s

unfoldable pub step : ℕ → Scan → Scan
unfolding step_string step_outside
step c s = if s.in_str then step_string c s else step_outside c s

-- A brace outside a string that closes the first one.
unfoldable pub is_last : ℕ → Scan → Bool
unfolding step_outside
is_last c s = not s.in_str && (c == 125) && ((step_outside c s).depth == 0)

-- The text up to the brace that closes the first one.
unfoldable pub scan : Scan → String → Option String
unfolding step is_last
scan s String.[] = none
scan s (String.◌∷◌ c text) =
    let rest = scan (step (code c) s) text in
    if is_last (code c) s
    then some (String.◌∷◌ c "")
    else elim rest [ none ↦ none | some t ↦ some (String.◌∷◌ c t) ]

unfoldable pub first_object : String → Option String
unfolding scan
first_object String.[] = none
first_object (String.◌∷◌ c text) =
    let rest = first_object text in
    if code c == 123
    then scan record { depth = 0; in_str = false; escape = false } (String.◌∷◌ c text)
    else rest

-- `split_once("```")`: the text before the fence, or all of it.
unfoldable pub before_fence : Option (String × String) → String → String
unfolding trim
before_fence none rest = trim rest
before_fence (some (inside, after)) rest = trim inside

unfoldable pub unfenced : Option String → Option String → String → String
unfolding before_fence find_text
unfenced (some rest) plain trimmed = before_fence (find_text "```" rest) rest
unfenced none (some rest) trimmed = before_fence (find_text "```" rest) rest
unfenced none none trimmed = trimmed

unfoldable pub reply_body : String → String
unfolding unfenced strip_prefix trim
reply_body text =
    unfenced (strip_prefix "```json" (trim text)) (strip_prefix "```" (trim text)) (trim text)

unfoldable pub extract_json_object : String → Option String
unfolding reply_body first_object
extract_json_object text = first_object (reply_body text)
