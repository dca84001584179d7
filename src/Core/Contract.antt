-- ===== src/Core/Contract.antt =====
-- The parser of contracts: crates/wanax-core/src/contract.rs. What it calls of serde_yaml, regex, sha2 and
-- the standard library's paths is an argument.
pub mod Sections
pub mod Valid
use Prim.Native.Char.{code}
use Prim.Native.String.{◌++◌ as str_append}
use wanax.Prelude.{
  ℕ, ◌<◌, String, Bool, true, false, not, ◌&&◌, ◌||◌, ◌⊎◌, inl, inr, Option, none, some, List, [],
  ◌∷◌, ◌++◌, str_eq, any, length, is_empty, if◌then◌else◌, ltb, leb, ◌==◌,
}
use wanax.Core.Error.{WanaxError, Result, err, ok, ◌>>=◌, new}
use wanax.Core.ErrorCode.{contract_invalid}
use wanax.Core.TestCommand.{trim, name_or, validate_test_command}
use wanax.Core.Types.{CompletionCriterion, Contract, default_test_timeout_secs}
use wanax.Core.Contract.Sections.{
  byte_len, lines, split_front_matter, parse_sections, section_text, parse_list_items,
}

pub record FrontMatter : Type 0 where
  pub spec : Option String
  pub name : Option String
  pub test_command : Option String
  pub test_timeout_secs : Option ℕ
  pub allowed_globs : Option (List String)
  pub forbidden_globs : Option (List String)
  pub forbidden_rules : Option (List String)
  pub agent_spec : Option String

-- `from_yaml` gives the message of an error, or the front matter. The others are the captures of the
-- regular expressions, the blacklist of test commands, and `Path::file_name`.
pub record Readers : Type 0 where
  pub from_yaml : String → String ⊎ FrontMatter
  pub criterion : String → Option (String × String)
  pub bound_test : String → Option String
  pub must_have : String → Option String
  pub blacklist : List (String → Bool)
  pub file_name : String → Option String

abbrev pub default_forbidden : List String
default_forbidden = "**/.env" ∷ "**/.wanax/credentials*" ∷ []

abbrev pub list_or_empty : Option (List String) → List String
list_or_empty none = []
list_or_empty (some items) = items

abbrev pub map_text : (String → String) → Option String → Option String
map_text f none = none
map_text f (some s) = some (f s)

abbrev first_piece : String → List String → List String
first_piece c [] = c ∷ []
first_piece c (l ∷ ls) = str_append c l ∷ ls

-- `split(',')`
unfoldable pub split_commas : String → List String
split_commas String.[] = "" ∷ []
split_commas (String.◌∷◌ c s) =
    let rest = split_commas s in
    if code c == 44 then "" ∷ rest else first_piece (String.◌∷◌ c "") rest

-- `trim_matches('`')`
unfoldable pub skip_backticks : String → String
skip_backticks String.[] = ""
skip_backticks (String.◌∷◌ c s) =
    let rest = skip_backticks s in if code c == 96 then rest else String.◌∷◌ c s

unfoldable pub drop_backticks : String → String
drop_backticks String.[] = ""
drop_backticks (String.◌∷◌ c s) =
    let rest = drop_backticks s in
    if (code c == 96) && str_eq rest "" then "" else String.◌∷◌ c rest

unfoldable pub file_names : List String → List String
unfolding trim skip_backticks drop_backticks
file_names [] = []
file_names (s ∷ pieces) =
    let rest = file_names pieces in
    let name = drop_backticks (skip_backticks (trim s)) in
    if str_eq name "" then rest else name ∷ rest

unfoldable pub must_have_files : Option String → List String
unfolding file_names split_commas
must_have_files none = []
must_have_files (some text) = file_names (split_commas text)

module _ (r : Readers) where
  unfoldable pub add_criterion :
      Option (String × String) → List CompletionCriterion → List CompletionCriterion
  unfolding trim must_have_files byte_len
  add_criterion none rest = rest
  add_criterion (some (id, text)) rest =
      if str_eq (trim text) "" || ltb 300 (byte_len (trim text))
      then rest
      else record {
        id = id;
        statement = trim text;
        bound_test = map_text trim (r.bound_test (trim text));
        must_have_files = must_have_files (r.must_have (trim text));
      }
        ∷ rest

  unfoldable pub add_criteria : List String → List CompletionCriterion
  unfolding add_criterion trim
  add_criteria [] = []
  add_criteria (line ∷ rest) = add_criterion (r.criterion (trim line)) (add_criteria rest)

  unfoldable pub parse_criteria : String → List CompletionCriterion
  unfolding add_criteria lines
  parse_criteria body = add_criteria (lines body)

-- The parts that are read before any of them is asked for.
pub record Draft : Type 0 where
  pub test_command : String
  pub allowed_globs : List String
  pub intent : String
  pub decisions : List String
  pub criteria : List CompletionCriterion

unfoldable pub read_draft : Readers → FrontMatter → List (String × String) → Draft
unfolding section_text parse_list_items parse_criteria trim
read_draft r fm sections = record {
  test_command = name_or "" (map_text trim fm.test_command);
  allowed_globs = list_or_empty fm.allowed_globs;
  intent = section_text sections ("Intent" ∷ "意图" ∷ []);
  decisions = parse_list_items (section_text sections ("Decisions" ∷ "已定决策" ∷ []));
  criteria = parse_criteria r (section_text sections ("Completion Criteria" ∷ "完成条件" ∷ []));
}

abbrev pub is_spec : Option String → Bool
is_spec none = false
is_spec (some s) = str_eq s "wanax.contract"

-- The names of the parts whose test holds.
abbrev pub flagged : List (Bool × String) → List String
flagged [] = []
flagged ((test, part) ∷ tests) = let rest = flagged tests in if test then part ∷ rest else rest

unfoldable pub is_bad_decision : String → Bool
unfolding byte_len
is_bad_decision d = str_eq d "" || ltb 500 (byte_len d)

abbrev pub part_tests : FrontMatter → Draft → List (Bool × String)
part_tests fm d =
    (not (is_spec fm.spec), "spec")
    ∷ (str_eq d.test_command "", "test_command")
    ∷ (is_empty d.allowed_globs, "allowed_globs")
    ∷ (ltb 200 (length d.allowed_globs), "allowed_globs")
    ∷ (str_eq d.intent "" || ltb 4000 (byte_len d.intent), "intent")
    ∷ (is_empty d.decisions || ltb 50 (length d.decisions), "decisions")
    ∷ (any is_bad_decision d.decisions, "decisions")
    ∷ (is_empty d.criteria, "completion_criteria")
    ∷ (ltb 30 (length d.criteria), "completion_criteria")
    ∷ []

unfoldable pub missing_parts : FrontMatter → Draft → List String
unfolding byte_len is_bad_decision
missing_parts fm d = flagged (part_tests fm d)

-- `join(", ")`
unfoldable pub join_commas : List String → String
join_commas [] = ""
join_commas (s ∷ []) = s
join_commas (s ∷ t ∷ rest) = str_append s (str_append ", " (join_commas (t ∷ rest)))

abbrev pub number_or : ℕ → Option ℕ → ℕ
number_or d none = d
number_or d (some n) = n

abbrev pub globs_or : List String → Option (List String) → List String
globs_or d none = d
globs_or d (some globs) = globs

-- `filter(|s| !s.trim().is_empty())`
unfoldable pub filled_text : Option String → Option String
unfolding trim
filled_text none = none
filled_text (some s) = if str_eq (trim s) "" then none else some s

-- The contract, or the first of the limits that it breaks.
unfoldable pub check_limits : Contract → Bool → Bool → Bool → Result Contract
unfolding new
check_limits c true globs rules = err (new contract_invalid "invalid contract: test_timeout_secs")
check_limits c false true rules = err (new contract_invalid "invalid contract: forbidden_globs")
check_limits c false false true = err (new contract_invalid "invalid contract: forbidden_rules")
check_limits c false false false = ok c

unfoldable pub within_limits : Contract → Result Contract
unfolding check_limits
within_limits c =
    check_limits c (not (leb 10 c.test_timeout_secs && leb c.test_timeout_secs 3600))
      (ltb 200 (length c.forbidden_globs)) (ltb 50 (length c.forbidden_rules))

unfoldable pub make_contract : String → String → String → FrontMatter → Draft → Contract
unfolding filled_text
make_contract id path content_sha256 fm d = record {
  id = id;
  path = path;
  content_sha256 = content_sha256;
  intent = d.intent;
  decisions = d.decisions;
  allowed_globs = d.allowed_globs;
  forbidden_globs = globs_or default_forbidden fm.forbidden_globs;
  forbidden_rules = list_or_empty fm.forbidden_rules;
  completion_criteria = d.criteria;
  test_command = d.test_command;
  test_timeout_secs = number_or default_test_timeout_secs fm.test_timeout_secs;
  name = fm.name;
  agent_spec = filled_text fm.agent_spec;
}

unfoldable pub check_command : Readers → Contract → Result (Unit {0})
unfolding validate_test_command
check_command r c =
    if str_eq c.test_command ""
    then ok tt
    else validate_test_command r.file_name r.blacklist c.test_command

-- The answer for the names of the parts that are missing.
unfoldable pub finish_contract : Readers → Contract → List String → Result Contract
unfolding check_command within_limits join_commas new
finish_contract r c (part ∷ parts) =
    err (new contract_invalid (str_append "invalid contract: " (join_commas (part ∷ parts))))
finish_contract r c [] = check_command r c >>= λ _. within_limits c

-- The new id and the hash of the file are arguments.
module _ (r : Readers) (id path content_sha256 : String) where
  unfoldable pub parse_front_matter : String → String ⊎ FrontMatter → Result Contract
  unfolding finish_contract make_contract missing_parts read_draft parse_sections new
  parse_front_matter body (inl message) =
      err (new contract_invalid (str_append "invalid contract: front matter: " message))
  parse_front_matter body (inr fm) =
      let d = read_draft r fm (parse_sections body) in
      finish_contract r (make_contract id path content_sha256 fm d) (missing_parts fm d)

  -- The text of a file, or `none` if it is not UTF-8.
  unfoldable pub parse_contract_bytes : Option String → Result Contract
  unfolding parse_front_matter split_front_matter new
  parse_contract_bytes none = err (new contract_invalid "invalid contract: not utf-8")
  parse_contract_bytes (some text) =
      split_front_matter text >>= λ parts. parse_front_matter parts.1 (r.from_yaml parts.0)
