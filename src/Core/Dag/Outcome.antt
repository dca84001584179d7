-- ===== src/Core/Dag/Outcome.antt =====
-- The ways in which topo_sort (crates/wanax-core/src/dag.rs) ends.
use wanax.Prelude.{
  ◌≡◌, ◌≢◌, inl, inr, refl, sym, ap, ◌∙◌, subst, ℕ, suc, ◌≤◌, ◌<◌, String, true, Option, some, List,
  [], ◌∷◌, ◌++◌, str_eq, eq_iff, length, all, all_at, ◌==◌, arith, Bool-cases,
}
use mathlib.Core.List.{Memᴰ}
use wanax.Prelude.Count.{count, count-sort, count-of_mem, mem_of_count}
use wanax.Prelude.Map.{keys}
use wanax.Prelude.Sort.{sort, str_le}
use wanax.Core.Error.{Result, err, from_code}
use wanax.Core.ErrorCode.{dag_cycle}
use wanax.Core.Dag.{
  Node, node_ids, has, id_set, Graph, empty_graph, roots, drain, check_length, order_graph,
  topo_sort, unknown_dependency,
}
use wanax.Core.Dag.Edges.{
  Edge, all_edges, add_edges, knows, Needs, has-count, id_set-whole, id_set-distinct,
  add_nodes-known, add_nodes-IsUnknown, all_edges-Needs, Needs-edge,
}
use wanax.Core.Dag.Degrees.{
  targets, children, add_edges-indeg, add_edges-kids, add_edges-keys, empty_graph-indeg,
  empty_graph-kids, empty_graph-keys, count-roots,
}
use wanax.Core.Dag.Queue.{
  open_edges-nil, IsOrdered, IsOrdered-map, IsQueue, IsDrained, drain-IsDrained,
}

pub length-node_ids : (nodes : List Node) → length (node_ids nodes) ≡ length nodes
length-node_ids [] = refl
length-node_ids ((id, _) ∷ nodes) = ap suc (length-node_ids nodes)

mem-node_ids :
    {c : String} {deps : List String} {nodes : List Node}
    → Memᴰ (c, deps) nodes
    → Memᴰ c (node_ids nodes)
mem-node_ids (Memᴰ.head e) = Memᴰ.head (ap (λ n. n.0) e)
mem-node_ids (Memᴰ.tail m) = Memᴰ.tail (mem-node_ids m)

target_edge :
    (edges : List Edge) (x : String)
    → 0 < count x (targets edges)
    → (d : String) × Memᴰ (d, x) edges
target_edge [] x h = absurd (omega arith)
target_edge ((d, c) ∷ edges) x h = elim (Bool-cases (str_eq x c)) [
  | inl e ↦ (d, Memᴰ.head (ap (λ z. (d, z)) ((eq_iff x c).0 e)))
  | inr e ↦ let (s, m) = target_edge edges x (ground arith) in (s, Memᴰ.tail m)
]

abbrev no_graph : Graph
no_graph = record { indeg = []; kids = [] }

module _ (nodes : List Node) (distinct : (x : String) → count x (node_ids nodes) ≤ 1) where
  abbrev built : Graph
  built = add_edges (all_edges nodes) (empty_graph nodes no_graph)

  target_known :
      (x : String) → 0 < count x (targets (all_edges nodes)) → 0 < count x (node_ids nodes)
  target_known x h =
      let (d, m) = target_edge (all_edges nodes) x h in
      let (deps, n, _) = all_edges-Needs nodes m in count-of_mem (mem-node_ids n)

  keys-empty :
      (x : String) → count x (keys (empty_graph nodes no_graph).indeg) ≡ count x (node_ids nodes)
  keys-empty x = empty_graph-keys nodes no_graph x (λ z. omega (arith, distinct z)) ∙ omega arith

  keys-built : (x : String) → count x (keys built.indeg) ≡ count x (node_ids nodes)
  keys-built x =
      add_edges-keys (all_edges nodes) (empty_graph nodes no_graph) x
        (λ c h. omega (arith, target_known c h, keys-empty c))
      ∙ keys-empty x

  IsQueue-built :
      (x : String)
      → IsQueue
          (node_ids nodes)
          (all_edges nodes)
          []
          built.indeg
          (sort str_le (roots built.indeg))
          x
  IsQueue-built x = record {
    same_keys = keys-built x;
    degree = omega (
      arith,
      add_edges-indeg (all_edges nodes) (empty_graph nodes no_graph) x,
      empty_graph-indeg nodes no_graph x,
      open_edges-nil (all_edges nodes) x,
    );
    once = ground (
      arith,
      count-sort str_le x (roots built.indeg),
      count-roots x built.indeg,
      keys-built x,
      distinct x,
    );
  }

  drained :
      IsDrained
        (node_ids nodes)
        (all_edges nodes)
        (drain built.kids (length nodes) [] built.indeg (sort str_le (roots built.indeg)))
  drained =
      drain-IsDrained (node_ids nodes) (all_edges nodes) built.kids
        (λ p.
          add_edges-kids (all_edges nodes) (empty_graph nodes no_graph) p
          ∙ ap (λ l. l ++ children p (all_edges nodes)) (empty_graph-kids nodes no_graph p))
        distinct target_known (length nodes) [] built.indeg (sort str_le (roots built.indeg))
        (omega (arith, length-node_ids nodes)) IsQueue-built tt

  topo_sort-known :
      knows (node_ids nodes) nodes ≡ true → topo_sort nodes ≡ some (check_length nodes drained.out)
  unfolding topo_sort order_graph
  topo_sort-known h =
      let same = id_set-distinct (node_ids nodes) distinct in
      let graph = add_nodes-known (node_ids nodes) nodes (empty_graph nodes no_graph) h in
      let returned = drained.returned in let size = length-node_ids nodes in rw same (ground arith)

module _ (nodes : List Node) where
  -- How a sort may end.
  pub data Outcome : Option (Result (List String)) → Type 0 where
    repeated :
        length (id_set (node_ids nodes)) ≢ length (node_ids nodes)
        → Outcome (some (err (from_code dag_cycle)))
    unknown :
        {c dep : String}
        → Needs nodes c dep
        → ¬ Memᴰ dep (node_ids nodes)
        → Outcome (some (err (unknown_dependency dep)))
    sorted :
        {out : List String} {m : List (String × ℕ)}
        → ((x : String) → count x (node_ids nodes) ≤ 1)
        → ((c d : String) → Needs nodes c d → Memᴰ d (node_ids nodes))
        → ((x : String) → IsQueue (node_ids nodes) (all_edges nodes) out m [] x)
        → IsOrdered (Needs nodes) [] out
        → Outcome (some (check_length nodes out))

  known-Needs :
      knows (node_ids nodes) nodes ≡ true
      → (c d : String) → Needs nodes c d
      → Memᴰ d (node_ids nodes)
  known-Needs h c d (deps, n, m) =
      let known = all_at (λ n. all (has (node_ids nodes)) n.1) h n in
      let found = all_at (has (node_ids nodes)) known m in
      mem_of_count d (node_ids nodes) (ground (arith, has-count (node_ids nodes) d))

  pub topo_sort-Outcome : Outcome (topo_sort nodes)
  unfolding topo_sort order_graph
  topo_sort-Outcome = elim (Bool-cases (length (id_set (node_ids nodes)) == length nodes)) [
    | inr e ↦
        subst Outcome (sym (simp e))
          (repeated (λ same. absurd (ground (arith, length-node_ids nodes))))
    | inl e ↦
        let (same, distinct) =
          id_set-whole (node_ids nodes) (ground (arith, length-node_ids nodes)) in
        elim (Bool-cases (knows (node_ids nodes) nodes)) [
          | inl h ↦
              let d = drained nodes distinct in
              subst Outcome (sym (topo_sort-known nodes distinct h)) (
                sorted distinct (known-Needs h) d.empty
                  (IsOrdered-map [] d.out (λ c x n. Needs-edge nodes n) d.ordered))
          | inr h ↦
              let (c, deps, dep, n, m, missing, r) =
                add_nodes-IsUnknown (node_ids nodes) nodes (empty_graph nodes no_graph) h in
              let whole : topo_sort nodes ≡ some (err (unknown_dependency dep)) =
                rw same (ground arith) in
              subst Outcome (sym whole) (
                unknown (deps, n, m)
                  (λ known.
                    let often = count-of_mem known in
                    absurd (ground (arith, has-count (node_ids nodes) dep))))
        ]
  ]

  Outcome-returns :
      {o : Option (Result (List String))} → Outcome o → (r : Result (List String)) × (o ≡ some r)
  Outcome-returns (repeated h) = (_, refl)
  Outcome-returns (unknown n h) = (_, refl)
  Outcome-returns (sorted {out} d k i o) = (check_length nodes out, refl)

-- The sort ends: as many turns of the loop as there are units are enough, whatever the units depend on.
pub topo_sort-returns :
    (nodes : List Node) → (r : Result (List String)) × (topo_sort nodes ≡ some r)
topo_sort-returns nodes = Outcome-returns nodes (topo_sort-Outcome nodes)
