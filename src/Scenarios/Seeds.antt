-- ===== src/Scenarios/Seeds.antt =====
-- The theorems on the seeding of a DAG at concrete drafts.
use wanax.Prelude.{
  ◌≡◌, refl, ap, ◌∙◌, ℕ, zero, suc, String, Option, none, some, List, [], ◌∷◌, ◌++◌, map, str_eq,
  inl, inr, Bool-cases, arith,
}
use wanax.Prelude.Map.{get?}
use wanax.Core.AssigneeRole.{goal}
use wanax.Core.Error.{Result, ok}
use wanax.Core.Types.{WorkUnit}
use wanax.Core.WorkUnitState.{queued}
use wanax.Tombstone.{unit_seeded, TombstoneEvent}
use wanax.Replay.{replay_events, start}
use wanax.Replay.Index.{unit_of}
use wanax.Replay.Json.{set_some, strings}
use wanax.Engine.Seeding.{
  DagUnitDraft, Seeded, seed_dag_units, seed_fields, Field, null, text, number, texts,
}
use wanax.Engine.Seeding.Ordered.{FollowsDrafts, seed_dag_units-FollowsDrafts}
use wanax.Engine.Seeding.Replayed.{IsBuilder, IsNew, seeded_replay, text_in, number_in, texts_in}
use wanax.Scenarios.Codec.{codec}
use wanax.Scenarios.Envelopes
use wanax.Scenarios.Envelopes.{
  Sample, Leaf, members, leaf, samples, event, events, sample_field, member,
}
use wanax.Scenarios.Runs.{no_units}

abbrev draft : String → List String → DagUnitDraft
draft id deps = record {
  id = id;
  title = id;
  instruction = "do";
  depends_on = deps;
  allowed_globs = some ("src/**" ∷ []);
  test_command = none;
}

abbrev drafts : List DagUnitDraft
drafts = draft "b" ("a" ∷ []) ∷ draft "a" [] ∷ []

abbrev new_id : ℕ → String
new_id zero = "id0"
new_id (suc i) = "id1"

abbrev nothing : Seeded
nothing = record { table = no_units; payloads = []; out = [] }

abbrev seeded_or : Option (Result Seeded) → Seeded
seeded_or (some (ok s)) = s
seeded_or _ = nothing

abbrev seeded : Seeded
unfolding seed_dag_units
seeded = seeded_or (seed_dag_units codec "run" new_id drafts no_units)

seeded_ids :
    map {B = String × List String} (λ u. (u.id, u.depends_on)) seeded.out
    ≡ ("id0", []) ∷ ("id1", "id0" ∷ []) ∷ []
unfolding seeded
seeded_ids = refl

seed_dag_units-FollowsDrafts_example : FollowsDrafts "run" drafts [] seeded.out
unfolding seed_dag_units seeded
seed_dag_units-FollowsDrafts_example =
    seed_dag_units-FollowsDrafts codec "run" new_id drafts no_units {s = seeded} refl

abbrev leaf_of : Field → Leaf
leaf_of null = Envelopes.nothing
leaf_of (text s) = Envelopes.text s
leaf_of (number n) = Envelopes.number n
leaf_of (texts ss) = Envelopes.texts ss

abbrev leaves : List (String × Field) → List (String × Leaf)
leaves [] = []
leaves ((key, f) ∷ fields) = (key, leaf_of f) ∷ leaves fields

abbrev sample_json : List (String × Field) → Sample
sample_json fields = members (leaves fields)

abbrev leaf_if : Option Field → Option Leaf
leaf_if none = none
leaf_if (some f) = some (leaf_of f)

get?-leaves :
    (key : String) (fields : List (String × Field))
    → get? key (leaves fields) ≡ leaf_if (get? key fields)
get?-leaves key [] = refl
get?-leaves key ((k, f) ∷ fields) = elim (Bool-cases (str_eq key k)) [
  | inl e ↦ ground arith
  | inr e ↦ ground (arith, get?-leaves key fields)
]

strings-map : (ss : List String) → strings samples (map (λ s. leaf (Envelopes.text s)) ss) ≡ ss
unfolding strings
strings-map [] = refl
strings-map (s ∷ ss) = ap (λ l. s ∷ l) (strings-map ss)

str_back : (o : Option Field) → samples.as_str (member (leaf_if o)) ≡ text_in o
str_back none = refl
str_back (some null) = refl
str_back (some (text s)) = refl
str_back (some (number n)) = refl
str_back (some (texts ss)) = refl

u64_back : (o : Option Field) → samples.as_u64 (member (leaf_if o)) ≡ number_in o
u64_back none = refl
u64_back (some null) = refl
u64_back (some (text s)) = refl
u64_back (some (number n)) = refl
u64_back (some (texts ss)) = refl

array_back :
    (o : Option Field)
    → set_some (strings samples) (samples.as_array (member (leaf_if o))) ≡ texts_in o
array_back none = refl
array_back (some null) = refl
array_back (some (text s)) = refl
array_back (some (number n)) = refl
array_back (some (texts ss)) = ap some (strings-map ss)

sample_json-IsBuilder : IsBuilder samples sample_json
sample_json-IsBuilder = record {
  str = λ fields key.
      ap (λ o. samples.as_str (member o)) (get?-leaves key fields) ∙ str_back (get? key fields);
  u64 = λ fields key.
      ap (λ o. samples.as_u64 (member o)) (get?-leaves key fields) ∙ u64_back (get? key fields);
  array = λ fields key.
      ap (λ o. set_some (strings samples) (samples.as_array (member o))) (get?-leaves key fields)
      ∙ array_back (get? key fields);
}

abbrev new_unit : WorkUnit
new_unit = record {
  id = "u9";
  run_id = "run";
  seq = 2;
  title = "t";
  instruction = "i";
  state = queued;
  assignee_role = goal;
  parent_id = none;
  allowed_globs = some ("a" ∷ []);
  depends_on = "u1" ∷ [];
  test_command = none;
  local_key = some "k";
  rework_count = 0;
  inner_commit_sha = none;
  receipt_id = none;
  verdict_id = none;
}

new_unit-IsNew : IsNew new_unit
new_unit-IsNew = record {
  state = refl;
  seq = omega arith;
  parent = refl;
  reworks = refl;
  commit = refl;
  receipt = refl;
  verdict = refl;
}

abbrev seed_event : TombstoneEvent Sample
unfolding seed_fields event
seed_event = event "e9" unit_seeded (sample_json (seed_fields new_unit))

seeded_replay_example :
    unit_of "u9" (replay_events samples "run" (events ++ seed_event ∷ []) start).units
    ≡ some new_unit
unfolding replay_events seed_event event seed_fields
seeded_replay_example =
    seeded_replay samples sample_json sample_json-IsBuilder events seed_event new_unit
      new_unit-IsNew refl refl refl
