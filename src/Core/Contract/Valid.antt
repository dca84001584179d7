-- ===== src/Core/Contract/Valid.antt =====
-- The bounds of a contract that parse_contract_bytes (crates/wanax-core/src/contract.rs) accepts.
use wanax.Prelude.{
  ◌≡◌, ◌≢◌, ◌⊎◌, inl, inr, refl, subst, ℕ, ◌≤◌, ◌<◌, String, Bool, true, false, not, ◌||◌, ◌&&◌,
  Option, none, some, List, [], ◌∷◌, str_eq, eq_iff, any, length, is_empty, All, ltb, leb, arith,
  Bool-cases, ||-eq-false,
}
use wanax.Core.Error.{ok, is_ok, >>=-eq-ok}
use wanax.Core.TestCommand.{IsAllowed, validate_test_command-IsAllowed, trim}
use wanax.Core.Types.{CompletionCriterion, Contract}
use wanax.Core.Contract.{
  Readers, FrontMatter, Draft, read_draft, flagged, part_tests, is_bad_decision, missing_parts,
  add_criterion, add_criteria, parse_criteria, check_limits, within_limits, make_contract,
  check_command, finish_contract, parse_front_matter, parse_contract_bytes,
}
use wanax.Core.Contract.Sections.{byte_len, parse_sections, split_front_matter}

abbrev pub Filled : ℕ → String → Type 0
Filled most s = (s ≢ "") × (byte_len s ≤ most)

-- What a contract keeps to, with lengths of texts in bytes.
pub record IsValid (r : Readers) (c : Contract) : Type 0 where
  pub intent : Filled 4000 c.intent
  pub decisions : (0 < length c.decisions) × (length c.decisions ≤ 50)
  pub decision : All (Filled 500) c.decisions
  pub allowed : (0 < length c.allowed_globs) × (length c.allowed_globs ≤ 200)
  pub criteria : (0 < length c.completion_criteria) × (length c.completion_criteria ≤ 30)
  pub statement : All (λ k. Filled 300 k.statement) c.completion_criteria
  pub forbidden : length c.forbidden_globs ≤ 200
  pub rules : length c.forbidden_rules ≤ 50
  pub timeout : (10 ≤ c.test_timeout_secs) × (c.test_timeout_secs ≤ 3600)
  pub command : IsAllowed r.file_name r.blacklist c.test_command

Filled-of_test :
    (most : ℕ) (s : String) → (str_eq s "" || ltb most (byte_len s)) ≡ false → Filled most s
Filled-of_test most s h = (λ e. let same = (eq_iff s "").1 e in absurd (ground arith), ground arith)

add_criterion-Filled :
    (r : Readers) (o : Option (String × String)) (rest : List CompletionCriterion)
    → All (λ k. Filled 300 k.statement) rest
    → All (λ k. Filled 300 k.statement) (add_criterion r o rest)
unfolding add_criterion
add_criterion-Filled r none rest h = h
add_criterion-Filled r (some (id, text)) rest h =
    elim (Bool-cases (str_eq (trim text) "" || ltb 300 (byte_len (trim text)))) [
      | inl e ↦ simp e h
      | inr e ↦ simp e (Filled-of_test 300 (trim text) e, h)
    ]

add_criteria-Filled :
    (r : Readers) (ls : List String) → All (λ k. Filled 300 k.statement) (add_criteria r ls)
unfolding add_criteria
add_criteria-Filled r [] = tt
add_criteria-Filled r (line ∷ rest) =
    add_criterion-Filled r (r.criterion (trim line)) (add_criteria r rest)
      (add_criteria-Filled r rest)

All-Filled : (ds : List String) → any is_bad_decision ds ≡ false → All (Filled 500) ds
unfolding is_bad_decision
All-Filled [] h = tt
All-Filled (d ∷ ds) h =
    let (good, rest) = ||-eq-false (is_bad_decision d) (any is_bad_decision ds) h in
    (Filled-of_test 500 d good, All-Filled ds rest)

flagged_none : (tests : List (Bool × String)) → flagged tests ≡ [] → All (λ t. t.0 ≡ false) tests
flagged_none [] h = tt
flagged_none ((true, part) ∷ tests) h = cc
flagged_none ((false, part) ∷ tests) h = (refl, flagged_none tests h)

length-of_tests {ℓ} :
    {A : Type ℓ} (xs : List A) (most : ℕ)
    → is_empty xs ≡ false
    → ltb most (length xs) ≡ false
    → (0 < length xs) × (length xs ≤ most)
length-of_tests [] most full short = cc
length-of_tests (x ∷ xs) most full short = (omega arith, ground arith)

check_limits-ok :
    (c : Contract) (late globs rules : Bool) {d : Contract}
    → check_limits c late globs rules ≡ ok d
    → (c ≡ d) × (late ≡ false) × (globs ≡ false) × (rules ≡ false)
unfolding check_limits
check_limits-ok c true globs rules h = cc
check_limits-ok c false true rules h = cc
check_limits-ok c false false true h = cc
check_limits-ok c false false false h = (ground arith, refl, refl, refl)

finish_contract-ok :
    (r : Readers) (c : Contract) (parts : List String) {d : Contract}
    → finish_contract r c parts ≡ ok d
    → (parts ≡ []) × (is_ok (check_command r c) ≡ true) × (within_limits c ≡ ok d)
unfolding finish_contract
finish_contract-ok r c (part ∷ parts) h = cc
finish_contract-ok r c [] h =
    let (done, checked, limits) = >>=-eq-ok (check_command r c) (λ _. within_limits c) h in
    (refl, ground arith, limits)

command-IsAllowed :
    (r : Readers) (c : Contract)
    → str_eq c.test_command "" ≡ false
    → is_ok (check_command r c) ≡ true
    → IsAllowed r.file_name r.blacklist c.test_command
unfolding check_command
command-IsAllowed r c filled h =
    validate_test_command-IsAllowed r.file_name r.blacklist c.test_command (simp filled at h)

-- What the list of missing parts asks of the draft.
record IsComplete (d : Draft) : Type 0 where
  command : str_eq d.test_command "" ≡ false
  globs : (0 < length d.allowed_globs) × (length d.allowed_globs ≤ 200)
  intent : Filled 4000 d.intent
  decisions : (0 < length d.decisions) × (length d.decisions ≤ 50)
  decision : All (Filled 500) d.decisions
  criteria : (0 < length d.criteria) × (length d.criteria ≤ 30)

missing_parts-IsComplete : (fm : FrontMatter) (d : Draft) → missing_parts fm d ≡ [] → IsComplete d
unfolding missing_parts
missing_parts-IsComplete fm d h =
    let tests = flagged_none (part_tests fm d) h in
    let (command, after_command) = tests.1 in
    let (no_globs, after_globs) = after_command in
    let (many_globs, after_many) = after_globs in
    let (intent, after_intent) = after_many in
    let (count, after_count) = after_intent in
    let (decision, after_decision) = after_count in
    let (no_criteria, after_criteria) = after_decision in
    let (no_decisions, many_decisions) =
      ||-eq-false (is_empty d.decisions) (ltb 50 (length d.decisions)) count in
    record {
      command = command;
      globs = length-of_tests d.allowed_globs 200 no_globs many_globs;
      intent = Filled-of_test 4000 d.intent intent;
      decisions = length-of_tests d.decisions 50 no_decisions many_decisions;
      decision = All-Filled d.decisions decision;
      criteria = length-of_tests d.criteria 30 no_criteria after_criteria.0;
    }

within_limits-ok :
    (c : Contract) {d : Contract}
    → within_limits c ≡ ok d
    → (c ≡ d)
      × (10 ≤ c.test_timeout_secs)
      × (c.test_timeout_secs ≤ 3600)
      × (length c.forbidden_globs ≤ 200)
      × (length c.forbidden_rules ≤ 50)
unfolding within_limits
within_limits-ok c h =
    let (same, late, globs, rules) =
      check_limits-ok c (not (leb 10 c.test_timeout_secs && leb c.test_timeout_secs 3600))
        (ltb 200 (length c.forbidden_globs)) (ltb 50 (length c.forbidden_rules)) h in
    (same, ground arith, ground arith, ground arith, ground arith)

module _ (r : Readers) (id path content_sha256 : String) where
  parse_front_matter-IsValid :
      (body : String) (o : String ⊎ FrontMatter) {c : Contract}
      → parse_front_matter r id path content_sha256 body o ≡ ok c
      → IsValid r c
  unfolding parse_front_matter read_draft parse_criteria make_contract
  parse_front_matter-IsValid body (inl message) h = cc
  parse_front_matter-IsValid body (inr fm) {c} h =
      let d : Draft = read_draft r fm (parse_sections body) in
      let made : Contract = make_contract id path content_sha256 fm d in
      let (nothing, checked, limits) = finish_contract-ok r made (missing_parts fm d) h in
      let full = missing_parts-IsComplete fm d nothing in
      let (same, early, late, globs, rules) = within_limits-ok made limits in
      subst (IsValid r) same record {
        intent = full.intent;
        decisions = full.decisions;
        decision = full.decision;
        allowed = full.globs;
        criteria = full.criteria;
        statement = add_criteria-Filled r _;
        forbidden = globs;
        rules = rules;
        timeout = (early, late);
        command = command-IsAllowed r made full.command checked;
      }

  -- A contract that is read has an intent, decisions, globs and criteria within their bounds, forbidden
  -- globs, rules and a timeout within theirs, and a test command that runs an allowed program and that no
  -- pattern of the blacklist matches.
  pub parse_contract_bytes-IsValid :
      (text : Option String) {c : Contract}
      → parse_contract_bytes r id path content_sha256 text ≡ ok c
      → IsValid r c
  unfolding parse_contract_bytes
  parse_contract_bytes-IsValid none h = cc
  parse_contract_bytes-IsValid (some text) h =
      let (parts, split, parsed) =
        >>=-eq-ok (split_front_matter text)
          (λ parts. parse_front_matter r id path content_sha256 parts.1 (r.from_yaml parts.0)) h in
      parse_front_matter-IsValid parts.1 (r.from_yaml parts.0) parsed
