-- ===== src/Scenarios/TopoSorts.antt =====
-- The theorems on the topological sort at concrete inputs.
use wanax.Prelude.{
  ◌≡◌, refl, ap, ℕ, ◌<◌, String, some, [], ◌∷◌, List, Distinct, str_eq, eq_iff, if◌then◌else◌,
  arith, ◌≢◌, subst, sym, false,
}
use mathlib.Core.List.{Memᴰ}
use wanax.Core.Error.{Result, ok, err, from_code}
use wanax.Core.ErrorCode.{dag_cycle}
use wanax.Core.Dag.{Node, node_ids, topo_sort, unknown_dependency}
use wanax.Core.Dag.Edges.{Needs}
use wanax.Core.Dag.Outcome.{topo_sort-returns}
use wanax.Core.Dag.Sorted.{
  IsSorted, IsFailure, IsRanked, topo_sort-IsSorted, topo_sort-ranked, topo_sort-IsFailure,
}

abbrev chain : List Node
chain = ("u2", "u1" ∷ "u1" ∷ []) ∷ ("u1", []) ∷ ("u3", "u2" ∷ []) ∷ []

abbrev ring : List Node
ring = ("a", "b" ∷ []) ∷ ("b", "a" ∷ []) ∷ []

topo_sort_unknown : topo_sort (("a", "b" ∷ []) ∷ []) ≡ some (err (unknown_dependency "b"))
unfolding topo_sort
topo_sort_unknown = refl

topo_sort-returns_example : (r : Result (List String)) × (topo_sort ring ≡ some r)
topo_sort-returns_example = topo_sort-returns ring

topo_sort-IsSorted_example : IsSorted chain ("u1" ∷ "u2" ∷ "u3" ∷ [])
unfolding topo_sort
topo_sort-IsSorted_example = topo_sort-IsSorted chain ("u1" ∷ "u2" ∷ "u3" ∷ []) refl

topo_sort-IsFailure_example : IsFailure ring (from_code dag_cycle)
unfolding topo_sort
topo_sort-IsFailure_example = topo_sort-IsFailure ring (from_code dag_cycle) refl

abbrev place : String → ℕ
place x = if str_eq x "u1" then 0 else if str_eq x "u2" then 1 else 2

not-one : (x y : String) → str_eq x y ≡ false → x ≢ y
not-one x y h e = ground (arith, (eq_iff x y).1 e)

chain-Distinct : Distinct (node_ids chain)
chain-Distinct = (
  λ m. elim m [
    | Memᴰ.head e ↦ not-one "u2" "u1" refl e
    | Memᴰ.tail (Memᴰ.head e) ↦ not-one "u2" "u3" refl e
    | Memᴰ.tail (Memᴰ.tail rest) ↦ elim rest [ ]
  ],
  (
    λ m. elim m [ Memᴰ.head e ↦ not-one "u1" "u3" refl e | Memᴰ.tail rest ↦ elim rest [ ] ],
    (λ m. elim m [ ], tt),
  ),
)

-- The dependencies in the chain.
chain-Needs :
    (P : String → String → Type 0)
    → P "u2" "u1"
    → P "u3" "u2"
    → (c d : String) → Needs chain c d
    → P c d
chain-Needs P first second c d (deps, n, m) = elim n [
  | Memᴰ.head e ↦ elim (subst (Memᴰ d) (ap (λ z. z.1) e) m) [
    | Memᴰ.head s ↦ both first (ap (λ z. z.0) e) s
    | Memᴰ.tail (Memᴰ.head s) ↦ both first (ap (λ z. z.0) e) s
    | Memᴰ.tail (Memᴰ.tail rest) ↦ elim rest [ ]
  ]
  | Memᴰ.tail (Memᴰ.head e) ↦ elim (subst (Memᴰ d) (ap (λ z. z.1) e) m) [ ]
  | Memᴰ.tail (Memᴰ.tail (Memᴰ.head e)) ↦ elim (subst (Memᴰ d) (ap (λ z. z.1) e) m) [
    | Memᴰ.head s ↦ both second (ap (λ z. z.0) e) s
    | Memᴰ.tail rest ↦ elim rest [ ]
  ]
  | Memᴰ.tail (Memᴰ.tail (Memᴰ.tail rest)) ↦ elim rest [ ]
]
  where
    both : {c' d' : String} → P c' d' → c ≡ c' → d ≡ d' → P c d
    both {c'} {d'} p e s = subst (λ x. P x d) (sym e) (subst (P c') (sym s) p)

chain-IsRanked : IsRanked chain place
chain-IsRanked = chain-Needs (λ c d. place d < place c) (omega arith) (omega arith)

chain_known : (c d : String) → Needs chain c d → Memᴰ d (node_ids chain)
chain_known =
    chain-Needs (λ c d. Memᴰ d (node_ids chain)) (Memᴰ.tail (Memᴰ.head refl)) (Memᴰ.head refl)

topo_sort-ranked_example : (out : List String) × (topo_sort chain ≡ some (ok out))
topo_sort-ranked_example = topo_sort-ranked chain place chain-Distinct chain_known chain-IsRanked
