-- ===== src/Core/Dag.antt =====
-- The topological sort of work units, crates/wanax-core/src/dag.rs. A `HashMap` is a list of entries, a
-- `HashSet` a list without repetitions; the queue is a list whose head is its front.
pub mod Edges
pub mod Degrees
pub mod Queue
pub mod Outcome
pub mod Sorted
use Prim.Native.String.{◌++◌ as str_append}
use wanax.Prelude.{
  ℕ, zero, suc, ◌-◌, String, Bool, true, false, Option, none, some, List, [], ◌∷◌, ◌++◌, str_eq,
  any, length, if◌then◌else◌, ◌==◌, map,
}
use wanax.Prelude.Map.{get?, get_or, insert, update}
use wanax.Prelude.Sort.{sort, str_le}
use wanax.Core.Error.{WanaxError, Result, err, ok, ◌>>=◌, from_code, with_detail}
use wanax.Core.ErrorCode.{dag_cycle, commander_schema}

-- A work unit's local id, and the ids it depends on.
abbrev pub Node : Type 0
Node = String × List String

abbrev pub has : List String → String → Bool
has ids x = any (λ y. str_eq x y) ids

abbrev pub node_ids : List Node → List String
node_ids [] = []
node_ids ((id, _) ∷ nodes) = id ∷ node_ids nodes

-- The ids collected in a set.
unfoldable pub id_set : List String → List String
id_set [] = []
id_set (x ∷ xs) = let rest = id_set xs in if has rest x then rest else x ∷ rest

-- `indeg` and `kids`.
pub record Graph : Type 0 where
  pub indeg : List (String × ℕ)
  pub kids : List (String × List String)

unfoldable pub empty_graph : List Node → Graph → Graph
empty_graph [] g = g
empty_graph ((id, _) ∷ nodes) g = empty_graph nodes record {
  indeg = update id 0 (λ d. d) g.indeg;
  kids = update id [] (λ children. children) g.kids;
}

-- One dependency that was not seen: the degree of the unit goes up, and it is a child of the dependency.
unfoldable pub add_edge : String → String → Graph → Graph
add_edge dep id g = record {
  indeg = update id 0 suc g.indeg;
  kids = update dep [] (λ children. children ++ id ∷ []) g.kids;
}

unfoldable pub unknown_dependency : String → WanaxError
unfolding with_detail
unknown_dependency dep = with_detail commander_schema (str_append "unknown DAG dependency " dep)

-- The inner loop, over the dependencies of one unit.
unfoldable pub add_deps : List String → String → List String → List String → Graph → Result Graph
unfolding add_edge unknown_dependency
add_deps ids id seen [] g = ok g
add_deps ids id seen (dep ∷ deps) g =
    let skipped = add_deps ids id seen deps g in
    let added = add_deps ids id (dep ∷ seen) deps (add_edge dep id g) in
    if has ids dep then if has seen dep then skipped else added else err (unknown_dependency dep)

unfoldable pub add_nodes : List String → List Node → Graph → Result Graph
unfolding add_deps
add_nodes ids [] g = ok g
add_nodes ids ((id, deps) ∷ nodes) g = add_deps ids id [] deps g >>= add_nodes ids nodes

-- The keys whose degree is 0.
unfoldable pub roots : List (String × ℕ) → List String
roots [] = []
roots ((id, d) ∷ m) = let rest = roots m in if d == 0 then id ∷ rest else rest

-- What the two loops change: the degrees and the queue.
pub record Pending : Type 0 where
  pub indeg : List (String × ℕ)
  pub queue : List String

unfoldable pub release_child : String → Option ℕ → Pending → Pending
release_child child none s = s
release_child child (some d) s =
    let left = d - 1 in
    record {
      indeg = insert child left s.indeg;
      queue = if left == 0 then s.queue ++ child ∷ [] else s.queue;
    }

unfoldable pub release_all : List String → Pending → Pending
unfolding release_child
release_all [] s = s
release_all (child ∷ children) s = release_all children (release_child child (get? child s.indeg) s)

-- The loop on the queue, with the ids that are put out; `none` if the fuel is used up before the queue.
unfoldable pub drain :
    List (String × List String)
    → ℕ
    → List String
    → List (String × ℕ)
    → List String
    → Option (List String)
unfolding release_all
drain kids fuel out degrees [] = some out
drain kids zero out degrees (id ∷ q) = none
drain kids (suc fuel) out degrees (id ∷ q) =
    let after =
      release_all (sort str_le (get_or [] id kids)) record { indeg = degrees; queue = q } in
    drain kids fuel (out ++ id ∷ []) after.indeg after.queue

unfoldable pub check_length : List Node → List String → Result (List String)
check_length nodes out = if length out == length nodes then ok out else err (from_code dag_cycle)

abbrev pub map_option : {A : Type 0} {B : Type 0} → (A → B) → Option A → Option B
map_option f none = none
map_option f (some a) = some (f a)

unfoldable pub order_graph : List Node → Result Graph → Option (Result (List String))
unfolding drain roots check_length
order_graph nodes (err e) = some (err e)
order_graph nodes (ok g) =
    map_option (check_length nodes)
      (drain g.kids (length nodes) [] g.indeg (sort str_le (roots g.indeg)))

-- `none` stands for a loop that does not end within as many turns as there are units.
unfoldable pub topo_sort : List Node → Option (Result (List String))
unfolding order_graph add_nodes empty_graph id_set
topo_sort nodes =
    if length (id_set (node_ids nodes)) == length nodes
    then order_graph nodes (
        add_nodes (id_set (node_ids nodes)) nodes
          (empty_graph nodes record { indeg = []; kids = [] }))
    else some (err (from_code dag_cycle))
