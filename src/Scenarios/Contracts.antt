-- ===== src/Scenarios/Contracts.antt =====
-- The theorems on contracts and test commands at a concrete contract.
use wanax.Prelude.{◌≡◌, refl, String, inl, inr, Option, none, some, [], ◌∷◌, str_eq, if◌then◌else◌}
use wanax.Core.Error.{ok, err, new}
use wanax.Core.ErrorCode.{contract_invalid}
use wanax.Core.Money.{is_whitespace}
use wanax.Core.Types.{Contract}
use wanax.Core.Contract.{Readers, FrontMatter, parse_contract_bytes}
use wanax.Core.Contract.Valid.{IsValid, parse_contract_bytes-IsValid}
use wanax.Verify.Secrets.{strip_prefix}

abbrev contract_text : String
contract_text =
    "---\nspec: wanax.contract\n---\n## Intent\nA parser.\n\n## decisions\n- no new crates\n\n## Completion Criteria\r\n- CC-01: it parses (must_have: `a.rs`, b.rs)\n"

abbrev front_matter : FrontMatter
front_matter = record {
  spec = some "wanax.contract";
  name = none;
  test_command = some " cargo test ";
  test_timeout_secs = none;
  allowed_globs = some ("src/**" ∷ []);
  forbidden_globs = none;
  forbidden_rules = none;
  agent_spec = some " ";
}

abbrev numbered : Option String → Option (String × String)
numbered none = none
numbered (some s) = some ("CC-01", s)

abbrev sample_readers : Readers
unfolding strip_prefix
sample_readers = record {
  from_yaml = λ yaml. if str_eq yaml "spec: wanax.contract" then inr front_matter else inl "yaml";
  criterion = λ line. numbered (strip_prefix "- CC-01: " line);
  bound_test = λ s. none;
  must_have = λ s. some "`a.rs`, b.rs";
  blacklist = (λ s. str_eq s "rm -rf /") ∷ [];
  file_name = λ s. some s;
}

abbrev contract : Contract
contract = record {
  id = "id";
  path = "c.md";
  content_sha256 = "sha";
  intent = "A parser.";
  decisions = "no new crates" ∷ [];
  allowed_globs = "src/**" ∷ [];
  forbidden_globs = "**/.env" ∷ "**/.wanax/credentials*" ∷ [];
  forbidden_rules = [];
  completion_criteria =
      record {
        id = "CC-01";
        statement = "it parses (must_have: `a.rs`, b.rs)";
        bound_test = none;
        must_have_files = "a.rs" ∷ "b.rs" ∷ [];
      }
      ∷ [];
  test_command = "cargo test";
  test_timeout_secs = 300;
  name = none;
  agent_spec = none;
}

contract_read :
    parse_contract_bytes sample_readers "id" "c.md" "sha" (some contract_text) ≡ ok contract
unfolding parse_contract_bytes sample_readers is_whitespace
contract_read = refl

parts_missing :
    parse_contract_bytes sample_readers "id" "c.md" "sha"
      (some "---\nspec: wanax.contract\n---\n## Intent\n")
    ≡ err (new contract_invalid "invalid contract: intent, decisions, completion_criteria")
unfolding parse_contract_bytes sample_readers is_whitespace
parts_missing = refl

parse_contract_bytes-IsValid_example : IsValid sample_readers contract
parse_contract_bytes-IsValid_example =
    parse_contract_bytes-IsValid sample_readers "id" "c.md" "sha" (some contract_text)
      {c = contract} contract_read
