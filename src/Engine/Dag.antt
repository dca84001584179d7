-- ===== src/Engine/Dag.antt =====
-- Which units of a DAG may be worked on, and together: dag_ready, dag_wave and next_ready_dag of
-- crates/wanax-cli/src/engine.rs.
pub mod Waves
pub mod Next
use wanax.Prelude.{
  String, Bool, true, false, not, ◌&&◌, ◌||◌, Option, none, some, List, [], ◌∷◌, ◌++◌, str_eq, any,
  all, keep, find, if◌then◌else◌, holds, map,
}
use wanax.Core.Types.{WorkUnit}
use wanax.Core.WorkUnitState.{WorkUnitState, accepted, rejected, blocked}
use wanax.Core.GlobOverlap.{Globset, peer_glob_sets_overlap}

unfoldable pub is_accepted : WorkUnitState → Bool
is_accepted accepted = true
is_accepted _ = false

-- Accepted, rejected or blocked.
unfoldable pub is_settled : WorkUnitState → Bool
is_settled accepted = true
is_settled rejected = true
is_settled blocked = true
is_settled _ = false

-- The ids of the accepted units, as a list in place of a `HashSet`.
unfoldable pub done_ids : List WorkUnit → List String
unfolding is_accepted
done_ids [] = []
done_ids (u ∷ units) =
    let rest = done_ids units in if is_accepted u.state then u.id ∷ rest else rest

abbrev pub contains : List String → String → Bool
contains ids id = any (λ d. str_eq d id) ids

unfoldable pub dag_ready : WorkUnit → List WorkUnit → Bool
unfolding done_ids is_settled
dag_ready u units = not (is_settled u.state) && all (λ d. contains (done_ids units) d) u.depends_on

abbrev pub globs_or_empty : Option (List String) → List String
globs_or_empty none = []
globs_or_empty (some globs) = globs

-- Whether the globs of a unit overlap those of no unit of the wave.
unfoldable pub is_disjoint : Globset → List String → List WorkUnit → Bool
unfolding peer_glob_sets_overlap
is_disjoint g globs wave =
    all (λ m. not (peer_glob_sets_overlap g globs (globs_or_empty m.allowed_globs))) wave

-- One turn of the loop of `dag_wave`, for a unit with the given globs.
unfoldable pub join_with : Globset → List WorkUnit → WorkUnit → Option (List String) → List WorkUnit
unfolding is_disjoint
join_with g wave u none = wave
join_with g wave u (some globs) = if is_disjoint g globs wave then wave ++ u ∷ [] else wave

unfoldable pub join_wave : Globset → List WorkUnit → WorkUnit → List WorkUnit
unfolding join_with
join_wave g wave u = join_with g wave u u.allowed_globs

unfoldable pub fill_wave : Globset → List WorkUnit → List WorkUnit → List WorkUnit
unfolding join_wave
fill_wave g wave [] = wave
fill_wave g wave (u ∷ ready) = fill_wave g (join_wave g wave u) ready

unfoldable pub dag_wave : Globset → List WorkUnit → List WorkUnit
unfolding fill_wave
dag_wave g ready = fill_wave g [] ready

unfoldable pub next_ready_dag : List WorkUnit → Option WorkUnit
unfolding done_ids is_settled
next_ready_dag units =
    find (λ u. not (is_settled u.state) && all (λ d. contains (done_ids units) d) u.depends_on)
      units
