-- ===== src/Core/Dag/Sorted.antt =====
-- What topo_sort (crates/wanax-core/src/dag.rs) returns.
use wanax.Prelude.{
  ◌≤◌, ◌≡◌, ◌⊎◌, inl, inr, ap, subst, ℕ, zero, suc, ◌<◌, String, Option, some, List, [], length,
  Distinct, ◌==◌, arith, Bool-cases,
}
use mathlib.Core.List.{Memᴰ}
use wanax.Prelude.Count.{
  count, count-of_mem, count-of_Distinct, Distinct-of_count, length-of_counts, counts-of_length,
}
use wanax.Prelude.Map.{get_or}
use wanax.Core.Error.{WanaxError, Result, err, ok, from_code}
use wanax.Core.ErrorCode.{dag_cycle}
use wanax.Core.Dag.{Node, node_ids, check_length, topo_sort, unknown_dependency}
use wanax.Core.Dag.Edges.{all_edges, Needs, id_set-distinct, all_edges-Needs}
use wanax.Core.Dag.Queue.{open_edge, IsOrdered, IsQueue}
use wanax.Core.Dag.Outcome.{length-node_ids, Outcome, repeated, unknown, sorted, topo_sort-Outcome}

module _ (nodes : List Node) where
  -- Each id as often as in the units, and after everything that a unit with the id depends on.
  abbrev pub IsSorted : List String → Type 0
  IsSorted out =
      ((x : String) → count x out ≡ count x (node_ids nodes)) × IsOrdered (Needs nodes) [] out

  -- A rank that each dependency has a smaller value of: there is no cycle.
  abbrev pub IsRanked : (String → ℕ) → Type 0
  IsRanked rank = (c d : String) → Needs nodes c d → rank d < rank c

  Outcome-IsSorted :
      {o : Option (Result (List String))} {out : List String}
      → Outcome nodes o
      → o ≡ some (ok out)
      → IsSorted out
  unfolding check_length
  Outcome-IsSorted (repeated h) e = cc
  Outcome-IsSorted (unknown n h) e = cc
  Outcome-IsSorted {out = out} (sorted {out = ids} distinct k inv ordered) e =
      let same : ids ≡ out = ground arith in
      subst IsSorted same (
        counts-of_length ids (node_ids nodes) (λ x. let once = (inv x).once in ground arith)
            (ground (arith, length-node_ids nodes)),
        ordered,
      )

  -- An id that is not put out has a dependency that is not, so none of a ranked graph is left.
  descent :
      (rank : String → ℕ)
      → IsRanked rank
      → ((c d : String) → Needs nodes c d → Memᴰ d (node_ids nodes))
      → {out : List String} {m : List (String × ℕ)}
      → ((x : String) → IsQueue (node_ids nodes) (all_edges nodes) out m [] x)
      → (n : ℕ) (c : String) → rank c < n
      → 0 < count c (node_ids nodes)
      → 0 < count c out
  descent rank ranked known inv zero c below h = absurd (omega arith)
  descent rank ranked known {out} {m} inv (suc n) c below h =
      elim (Bool-cases (get_or 0 c m == 0)) [
        | inl e ↦ let once = (inv c).once in ground arith
        | inr e ↦
            let degree = (inv c).degree in
            let (d, edge, closed) = open_edge out (all_edges nodes) c (ground arith) in
            let needs = all_edges-Needs nodes edge in
            let lower = ranked c d needs in
            absurd (
              omega (
                arith,
                descent rank ranked known inv n d (omega arith) (count-of_mem (known c d needs)),
              ))
      ]

  Outcome-ranked :
      {o : Option (Result (List String))} (rank : String → ℕ)
      → Distinct (node_ids nodes)
      → ((c d : String) → Needs nodes c d → Memᴰ d (node_ids nodes))
      → IsRanked rank
      → Outcome nodes o
      → (out : List String) × (o ≡ some (ok out))
  unfolding check_length
  Outcome-ranked rank distinct known ranked (repeated h) = absurd (
      h (
        ap length
          (id_set-distinct (node_ids nodes) (λ x. count-of_Distinct x (node_ids nodes) distinct))))
  Outcome-ranked rank distinct known ranked (unknown {c} {dep} n h) = absurd (h (known c dep n))
  Outcome-ranked rank distinct known ranked (sorted {out} once k inv o) =
      let shorter =
        length-of_counts out (node_ids nodes) (λ x. let i = (inv x).once in ground arith) in
      let longer = length-of_counts (node_ids nodes) out (λ x.
        let most = once x in
        elim (Bool-cases (count x (node_ids nodes) == 0)) [
          | inl none_left ↦ ground arith
          | inr some_left ↦
              omega
                (arith, descent rank ranked known inv (suc (rank x)) x (omega arith) (ground arith))
        ]) in
      (out, ground (arith, length-node_ids nodes))

  -- Why a sort fails.
  abbrev pub IsFailure : WanaxError → Type 0
  IsFailure e =
      ((c : String) × (dep : String) × Needs nodes c dep
        × (¬ Memᴰ dep (node_ids nodes))
        × (e ≡ unknown_dependency dep))
      ⊎ ((e ≡ from_code dag_cycle)
          × ((¬ Distinct (node_ids nodes)) ⊎ ((rank : String → ℕ) → ¬ IsRanked rank)))

  Outcome-IsFailure :
      {o : Option (Result (List String))} {e : WanaxError}
      → Outcome nodes o
      → o ≡ some (err e)
      → IsFailure e
  unfolding check_length
  Outcome-IsFailure (repeated h) same = inr (
    ground arith,
    inl λ distinct. h (
        ap length
          (id_set-distinct (node_ids nodes) (λ x. count-of_Distinct x (node_ids nodes) distinct))),
  )
  Outcome-IsFailure (unknown {c} {dep} n h) same = inl (c, dep, n, h, ground arith)
  Outcome-IsFailure (sorted {out} {m} once k inv o) same = inr (
    ground arith,
    inr λ rank ranked.
        let (ids, whole) =
          Outcome-ranked rank (Distinct-of_count (node_ids nodes) once) k ranked
            (sorted {m = m} once k inv o) in
        cc,
  )

-- The ids of a sort that succeeds are those of the units, each as often, and each stands after all ids
-- that a unit of its id depends on.
pub topo_sort-IsSorted :
    (nodes : List Node) (out : List String) → topo_sort nodes ≡ some (ok out) → IsSorted nodes out
topo_sort-IsSorted nodes out e = Outcome-IsSorted nodes (topo_sort-Outcome nodes) e

-- If no id is repeated, every dependency is an id and the dependencies have a rank, so that they form no
-- cycle, the sort succeeds.
pub topo_sort-ranked :
    (nodes : List Node) (rank : String → ℕ)
    → Distinct (node_ids nodes)
    → ((c d : String) → Needs nodes c d → Memᴰ d (node_ids nodes))
    → IsRanked nodes rank
    → (out : List String) × (topo_sort nodes ≡ some (ok out))
topo_sort-ranked nodes rank distinct known ranked =
    Outcome-ranked nodes rank distinct known ranked (topo_sort-Outcome nodes)

-- A sort that fails names a dependency that is no id, or reports a cycle, and then an id is repeated or
-- the dependencies have no rank.
pub topo_sort-IsFailure :
    (nodes : List Node) (e : WanaxError) → topo_sort nodes ≡ some (err e) → IsFailure nodes e
topo_sort-IsFailure nodes e h = Outcome-IsFailure nodes (topo_sort-Outcome nodes) h

Outcome-once :
    {nodes : List Node} {o : Option (Result (List String))} {out : List String}
    → Outcome nodes o
    → o ≡ some (ok out)
    → (x : String) → count x out ≤ 1
unfolding check_length
Outcome-once (repeated h) e x = cc
Outcome-once (unknown n h) e x = cc
Outcome-once {nodes} {out = out} (sorted {out = ids} distinct k inv ordered) e x =
    let same : ids ≡ out = ground arith in
    subst (λ l. count x l ≤ 1) same
      (let once = (inv x).once in let most = distinct x in ground arith)

pub topo_sort_once :
    (nodes : List Node) (out : List String)
    → topo_sort nodes ≡ some (ok out)
    → (x : String) → count x out ≤ 1
topo_sort_once nodes out e x = Outcome-once (topo_sort-Outcome nodes) e x
