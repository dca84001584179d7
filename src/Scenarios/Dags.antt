-- ===== src/Scenarios/Dags.antt =====
-- The theorems on units, globs and locks at concrete inputs.
use wanax.Prelude.{
  ◌≡◌, ◌⊎◌, refl, ◌==◌, ◌<◌, true, false, Bool, Option, none, some, List, [], ◌∷◌, String, str_eq,
  any, get_elem?, map, arith,
}
use mathlib.Core.List.{Memᴰ}
use wanax.Core.Types.{WorkUnit}
use wanax.Core.AssigneeRole.{master}
use wanax.Core.WorkUnitState.{WorkUnitState, queued, accepted}
use wanax.Core.GlobOverlap.{
  Globset, peer_glob_sets_overlap, find_peer_overlap, shares_pattern, is_compiled, compile_globs,
}
use wanax.Core.GlobOverlap.Overlaps.{IsShared, overlap_reason}
use wanax.Core.GlobOverlap.Pairs.{find_peer_overlap-some}
use wanax.Core.Lock.{LockAcquire, holder_file, acquire_with, stored}
use wanax.Core.Error.{ok}
use wanax.Core.Lock.Exclusive.{IsExclusive}
use wanax.Core.Env.{trim_left, trim_right}
use wanax.Core.Money.{is_whitespace}
use wanax.Core.TestCommand.{trim}
use wanax.Core.Decimal.{print}
use wanax.Core.LockText.{LockInfo, write_lock, read_lock}
use wanax.Core.LockText.RoundTrip.{IsCleanPath, read-write_lock}
use wanax.Core.Lock.Acquired.{Call, acquire, after_calls, no_locks, locks-IsExclusive}
use wanax.Engine.Dag.{dag_wave, next_ready_dag, is_settled}
use wanax.Engine.Dag.Waves.{IsDisjointWave, IsCovered, dag_wave-IsDisjointWave, dag_wave-IsCovered}
use wanax.Engine.Dag.Next.{IsDone, next_ready_dag-some}

-- Globs without wildcards: a set matches its own patterns.
abbrev pub literal_globs : Globset
literal_globs = record {
  Glob = String;
  GlobSet = List String;
  build_glob = λ p. some p;
  build_set = λ globs. some globs;
  is_match = λ globs path. any (λ p. str_eq p path) globs;
}

abbrev pub unit_at : String → WorkUnitState → Option (List String) → List String → WorkUnit
unit_at id state globs deps = record {
  id = id;
  run_id = "run";
  seq = 1;
  title = "t";
  instruction = "i";
  state = state;
  assignee_role = master;
  parent_id = none;
  allowed_globs = globs;
  depends_on = deps;
  test_command = none;
  local_key = none;
  rework_count = 0;
  inner_commit_sha = none;
  receipt_id = none;
  verdict_id = none;
}

abbrev first : WorkUnit
first = unit_at "u1" accepted (some ("a.rs" ∷ [])) []

abbrev second : WorkUnit
second = unit_at "u2" queued (some ("b.rs" ∷ [])) ("u1" ∷ [])

abbrev third : WorkUnit
third = unit_at "u3" queued (some ("b.rs" ∷ [])) ("u2" ∷ [])

dag_wave-IsDisjointWave_example :
    IsDisjointWave literal_globs (dag_wave literal_globs (second ∷ third ∷ []))
dag_wave-IsDisjointWave_example = dag_wave-IsDisjointWave literal_globs (second ∷ third ∷ [])

dag_wave-IsCovered_example :
    IsCovered literal_globs (dag_wave literal_globs (second ∷ third ∷ [])) third
dag_wave-IsCovered_example =
    dag_wave-IsCovered literal_globs (second ∷ third ∷ []) (Memᴰ.tail (Memᴰ.head refl))

next_ready_dag-some_example :
    Memᴰ second (first ∷ second ∷ third ∷ [])
    × (is_settled queued ≡ false)
    × ((d : String) → Memᴰ d ("u1" ∷ []) → IsDone (first ∷ second ∷ third ∷ []) d)
unfolding next_ready_dag
next_ready_dag-some_example = next_ready_dag-some (first ∷ second ∷ third ∷ []) {u = second} refl

overlap_reason_example :
    (shares_pattern ("a.rs" ∷ []) ("a.rs" ∷ []) ≡ true)
    ⊎ ((is_compiled (compile_globs literal_globs ("a.rs" ∷ [])) ≡ false)
        ⊎ ((is_compiled (compile_globs literal_globs ("a.rs" ∷ [])) ≡ false)
            ⊎ IsShared literal_globs ("a.rs" ∷ []) ("a.rs" ∷ [])))
unfolding peer_glob_sets_overlap
overlap_reason_example = overlap_reason literal_globs ("a.rs" ∷ []) ("a.rs" ∷ []) refl

abbrev some_sets : List (List String)
some_sets = ("a.rs" ∷ []) ∷ ("b.rs" ∷ []) ∷ ("a.rs" ∷ []) ∷ []

find_peer_overlap-some_example :
    (a b : List String) × (get_elem? some_sets 0 ≡ some a)
    × (get_elem? some_sets 2 ≡ some b)
    × (0 < 2)
    × (peer_glob_sets_overlap literal_globs a b ≡ true)
unfolding find_peer_overlap
find_peer_overlap-some_example = find_peer_overlap-some literal_globs some_sets {m = 0} {n = 2} refl

-- Two shared holders, an exclusive request that fails, and a resume after the first process has died.
abbrev shared_request : List String → Bool → LockAcquire
shared_request paths resume = record { exclusive = false; paths = paths; resume = resume }

abbrev lock_calls : List Call
lock_calls =
    acquire (λ pid. true) 10 "t1" "r1" (shared_request ("a.rs" ∷ []) false)
    ∷ acquire (λ pid. true) 11 "t2" "r2" (shared_request ("b.rs" ∷ []) false)
    ∷ acquire (λ pid. true) 12 "t3" "r3" (shared_request [] false)
    ∷ acquire (λ pid. pid == 11) 13 "t4" "r1" (shared_request ("a.rs" ∷ []) true)
    ∷ []

abbrev shared_lock : LockInfo
shared_lock = record {
  run_id = "r1";
  pid = 10;
  started_at = "t1";
  lock_path = holder_file "r1";
  exclusive = false;
  paths = "a.rs" ∷ [];
}

locks-IsExclusive_example :
    IsExclusive literal_globs (after_calls literal_globs lock_calls no_locks)
unfolding trim trim_left trim_right is_whitespace
locks-IsExclusive_example =
    let a : IsCleanPath "a.rs" = record {
      clean = record { trimmed = refl; line = refl };
      full = refl;
    } in
    let b : IsCleanPath "b.rs" = record {
      clean = record { trimmed = refl; line = refl };
      full = refl;
    } in
    let r1 : IsCleanPath "r1" = record {
      clean = record { trimmed = refl; line = refl };
      full = refl;
    } in
    let r2 : IsCleanPath "r2" = record {
      clean = record { trimmed = refl; line = refl };
      full = refl;
    } in
    let r3 : IsCleanPath "r3" = record {
      clean = record { trimmed = refl; line = refl };
      full = refl;
    } in
    locks-IsExclusive literal_globs lock_calls (
      record {
        run = r1;
        number = omega arith;
        started = record { trimmed = refl; line = refl };
        globs = (a, tt);
      },
      (
        record {
          run = r2;
          number = omega arith;
          started = record { trimmed = refl; line = refl };
          globs = (b, tt);
        },
        (
          record {
            run = r3;
            number = omega arith;
            started = record { trimmed = refl; line = refl };
            globs = tt;
          },
          (
            record {
              run = r1;
              number = omega arith;
              started = record { trimmed = refl; line = refl };
              globs = (a, tt);
            },
            tt,
          ),
        ),
      ),
    )

read-write_lock_example : read_lock (holder_file "r1") (write_lock shared_lock) ≡ ok shared_lock
unfolding trim trim_left trim_right is_whitespace
read-write_lock_example =
    let a : IsCleanPath "a.rs" = record {
      clean = record { trimmed = refl; line = refl };
      full = refl;
    } in
    let run : IsCleanPath "r1" = record {
      clean = record { trimmed = refl; line = refl };
      full = refl;
    } in
    read-write_lock shared_lock record {
      run = run;
      number = omega arith;
      started = record { trimmed = refl; line = refl };
      globs = (a, tt);
    }

-- Two requests for the same glob, written with a blank before it: both are granted.
abbrev blank_calls : List Call
blank_calls =
    acquire (λ pid. true) 10 "t1" "r1" (shared_request (" a.rs" ∷ []) false)
    ∷ acquire (λ pid. true) 11 "t2" "r2" (shared_request (" a.rs" ∷ []) false)
    ∷ []

blank_calls_overlap :
    map (λ f. f.content) (after_calls literal_globs blank_calls no_locks).holders
    ≡ ok record {
      run_id = "r2";
      pid = 11;
      started_at = "t2";
      lock_path = holder_file "r2";
      exclusive = false;
      paths = "a.rs" ∷ [];
    }
      ∷ ok record {
        run_id = "r1";
        pid = 10;
        started_at = "t1";
        lock_path = holder_file "r1";
        exclusive = false;
        paths = "a.rs" ∷ [];
      }
      ∷ []
unfolding after_calls acquire_with stored print is_whitespace
blank_calls_overlap = refl
