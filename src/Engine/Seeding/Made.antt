-- ===== src/Engine/Seeding/Made.antt =====
-- The first loop of seed_dag_units (crates/wanax-cli/src/engine.rs): a unit for each key of the order.
use wanax.Prelude.{
  ◌≡◌, refl, sym, ap, ◌∙◌, subst, ℕ, suc, ◌≤◌, String, Option, none, some, List, [], ◌∷◌, ◌++◌,
  str_eq, eq_iff, eq_refl, find, find_sound, arith,
}
use mathlib.Core.List.{Memᴰ, append-nil, append_assoc}
use wanax.Prelude.Count.{count, count-append}
use wanax.Prelude.Map.{get?, insert, get?-insert}
use wanax.Core.Error.{ok, >>=-eq-ok}
use wanax.Core.AssigneeRole.{goal}
use wanax.Core.WorkUnitState.{queued}
use wanax.Core.Types.{WorkUnit}
use wanax.Engine.Seeding.{DagUnitDraft, unit_of_draft, Created, create_unit, create_units}

-- The unit of a draft: with its title, instruction, globs and test command, of the run, waiting for a
-- worker, and without a receipt, a verdict or a rework.
pub record IsOfDraft (run_id : String) (d : DagUnitDraft) (u : WorkUnit) : Type 0 where
  pub keyed : u.local_key ≡ some d.id
  pub title : u.title ≡ d.title
  pub instruction : u.instruction ≡ d.instruction
  pub allowed_globs : u.allowed_globs ≡ d.allowed_globs
  pub test_command : u.test_command ≡ d.test_command
  pub run : u.run_id ≡ run_id
  pub waiting : u.state ≡ queued
  pub role : u.assignee_role ≡ goal
  pub unworked : u.rework_count ≡ 0
  pub no_receipt : u.receipt_id ≡ none
  pub no_verdict : u.verdict_id ≡ none

unit_of_draft-IsOfDraft :
    (run_id id : String) (i : ℕ) (d : DagUnitDraft)
    → IsOfDraft run_id d (unit_of_draft run_id id i d)
unfolding unit_of_draft
unit_of_draft-IsOfDraft run_id id i d = record {
  keyed = refl;
  title = refl;
  instruction = refl;
  allowed_globs = refl;
  test_command = refl;
  run = refl;
  waiting = refl;
  role = refl;
  unworked = refl;
  no_receipt = refl;
  no_verdict = refl;
}

-- The dependencies may be set afterwards.
pub depends_on-IsOfDraft :
    (run_id : String) (d : DagUnitDraft) (u : WorkUnit) (ids : List String)
    → IsOfDraft run_id d u
    → IsOfDraft run_id d (record u { depends_on = ids })
depends_on-IsOfDraft run_id d u ids h = record {
  keyed = h.keyed;
  title = h.title;
  instruction = h.instruction;
  allowed_globs = h.allowed_globs;
  test_command = h.test_command;
  run = h.run;
  waiting = h.waiting;
  role = h.role;
  unworked = h.unworked;
  no_receipt = h.no_receipt;
  no_verdict = h.no_verdict;
}

module _ (drafts : List DagUnitDraft) (run_id : String) where
  -- The unit of a key, made of the draft with the key, and found by it.
  pub record IsMade (by_key : List (String × String)) (key : String) (deps : List String)
      (u : WorkUnit) : Type 0 where
    pub draft : DagUnitDraft
    pub given : Memᴰ draft drafts
    pub same_id : draft.id ≡ key
    pub same_deps : deps ≡ draft.depends_on
    pub of_draft : IsOfDraft run_id draft u
    pub keyed : u.local_key ≡ some key
    pub found : get? key by_key ≡ some u.id

  abbrev pub AllMade : List (String × String) → List String → List (List String × WorkUnit) → Type 0
  AllMade by_key [] [] = Unit
  AllMade by_key [] (c ∷ created) = ⊥
  AllMade by_key (key ∷ keys) [] = ⊥
  AllMade by_key (key ∷ keys) ((deps, u) ∷ created) =
      IsMade by_key key deps u × AllMade by_key keys created

  -- A key that is entered next to the others changes nothing for them.
  AllMade-insert :
      (by_key : List (String × String)) (key id : String) (keys : List String)
      (created : List (List String × WorkUnit)) (c : List String × WorkUnit)
      → count key keys ≡ 0
      → AllMade by_key keys created
      → IsMade (insert key id by_key) key c.0 c.1
      → AllMade (insert key id by_key) (keys ++ key ∷ []) (created ++ c ∷ [])
  AllMade-insert by_key key id [] [] c apart h new = (new, tt)
  AllMade-insert by_key key id [] (_ ∷ _) c apart h new = absurd h
  AllMade-insert by_key key id (_ ∷ _) [] c apart h new = absurd h
  AllMade-insert by_key key id (k ∷ keys) ((deps, u) ∷ created) c apart h new =
      let old = h.0 in
      let kept = old.found in
      (
        record {
          draft = old.draft;
          given = old.given;
          same_id = old.same_id;
          same_deps = old.same_deps;
          of_draft = old.of_draft;
          keyed = old.keyed;
          found = ground (arith, get?-insert k key id by_key, eq_iff k key, eq_iff key k);
        },
        AllMade-insert by_key key id keys created c (ground arith) h.1 new,
      )

  module _ (new_id : ℕ → String) where
    create_unit-made :
        (i : ℕ) (key : String) (keys : List String) (o : Option DagUnitDraft) (s : Created)
        {t : Created}
        → find (λ d. str_eq d.id key) drafts ≡ o
        → count key keys ≡ 0
        → AllMade s.by_key keys s.created
        → create_unit run_id new_id i o s ≡ ok t
        → AllMade t.by_key (keys ++ key ∷ []) t.created
    unfolding create_unit unit_of_draft
    create_unit-made i key keys none s e apart h made = cc
    create_unit-made i key keys (some d) s {t} e apart h made =
        let (given, same) = find_sound (λ d. str_eq d.id key) drafts e in
        let named : d.id ≡ key = (eq_iff d.id key).0 same in
        subst (λ (t : Created). AllMade t.by_key (keys ++ key ∷ []) t.created) (ground arith)
          (subst
            (λ k.
              AllMade (insert k (new_id i) s.by_key) (keys ++ key ∷ [])
                (s.created ++ (d.depends_on, unit_of_draft run_id (new_id i) i d) ∷ []))
            (sym named)
            (AllMade-insert s.by_key key (new_id i) keys s.created
              (d.depends_on, unit_of_draft run_id (new_id i) i d) apart h
              record {
                draft = d;
                given = given;
                same_id = named;
                same_deps = refl;
                of_draft = unit_of_draft-IsOfDraft run_id (new_id i) i d;
                keyed = ap some named;
                found = get?-insert key key (new_id i) s.by_key ∙ ground (arith, eq_refl key);
              }))

    pub create_units-made :
        (i : ℕ) (done keys : List String) (s : Created) {t : Created}
        → ((x : String) → count x (done ++ keys) ≤ 1)
        → AllMade s.by_key done s.created
        → create_units run_id new_id drafts i keys s ≡ ok t
        → AllMade t.by_key (done ++ keys) t.created
    unfolding create_units
    create_units-made i done [] s {t} once h made =
        subst (λ l. AllMade t.by_key l t.created) (sym (append-nil done))
          (subst (λ (t : Created). AllMade t.by_key done t.created) (ground arith) h)
    create_units-made i done (key ∷ keys) s {t} once h made =
        let (next, one, rest) =
          >>=-eq-ok (create_unit run_id new_id i (find (λ d. str_eq d.id key) drafts) s)
            (create_units run_id new_id drafts (suc i) keys) made in
        let most = once key in
        let apart : count key done ≡ 0 =
          ground (arith, count-append key done (key ∷ keys), eq_refl key) in
        let grown =
          create_unit-made i key done (find (λ d. str_eq d.id key) drafts) s refl apart h one in
        let same : (done ++ key ∷ []) ++ keys ≡ done ++ key ∷ keys =
          append_assoc done (key ∷ []) keys in
        subst (λ l. AllMade t.by_key l t.created) same
          (create_units-made (suc i) (done ++ key ∷ []) keys next
            (λ x. subst (λ l. count x l ≤ 1) (sym same) (once x)) grown rest)
