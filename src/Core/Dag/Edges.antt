-- ===== src/Core/Dag/Edges.antt =====
-- The graph that topo_sort (crates/wanax-core/src/dag.rs) builds, described by the list of its edges.
use wanax.Prelude.{
  ◌≡◌, inl, inr, refl, sym, ap, ◌∙◌, subst, ◌≤◌, String, Bool, true, false, not, List, [], ◌∷◌,
  ◌++◌, str_eq, eq_iff, eq_refl, all, length, if◌then◌else◌, ◌==◌, arith, Bool-cases,
}
use mathlib.Core.List.{Memᴰ}
use mathlib.Core.List.Memᴰ.{append_left, append_right, append_cases}
use wanax.Prelude.Count.{count}
use wanax.Core.Error.{Result, err, ok, ◌>>=◌}
use wanax.Core.Dag.{Node, has, id_set, Graph, add_edge, add_deps, add_nodes, unknown_dependency}

pub has-count : (ids : List String) (x : String) → has ids x ≡ not (count x ids == 0)
has-count [] x = refl
has-count (y ∷ ids) x = ground (arith, has-count ids x)

length-id_set : (xs : List String) → length (id_set xs) ≤ length xs
unfolding id_set
length-id_set [] = omega arith
length-id_set (x ∷ xs) = ground (arith, length-id_set xs)

-- No id is dropped if the set is as large as the list, and no id is then repeated.
pub id_set-whole :
    (xs : List String)
    → length (id_set xs) ≡ length xs
    → (id_set xs ≡ xs) × ((x : String) → count x xs ≤ 1)
unfolding id_set
id_set-whole [] h = (refl, λ x. omega arith)
id_set-whole (x ∷ xs) h = elim (Bool-cases (has (id_set xs) x)) [
  | inl e ↦ absurd (ground (arith, length-id_set xs))
  | inr e ↦
      let (same, once) = id_set-whole xs (ground arith) in
      (
        ground arith,
        λ z. ground (arith, once z, has-count xs x, ap (λ l. has l x) same, eq_iff z x),
      )
]

pub id_set-distinct : (xs : List String) → ((x : String) → count x xs ≤ 1) → id_set xs ≡ xs
unfolding id_set
id_set-distinct [] once = refl
id_set-distinct (x ∷ xs) once =
    let same = id_set-distinct xs (λ z. let most = once z in ground arith) in
    let most = once x in ground (arith, has-count xs x, ap (λ l. has l x) same, eq_refl x)

-- A dependency and a unit that has it.
abbrev pub Edge : Type 0
Edge = String × String

-- The edges of a unit: each dependency once.
abbrev pub new_edges : String → List String → List String → List Edge
new_edges id seen [] = []
new_edges id seen (dep ∷ deps) =
    let skipped = new_edges id seen deps in
    let added = new_edges id (dep ∷ seen) deps in
    if has seen dep then skipped else (dep, id) ∷ added

abbrev pub all_edges : List Node → List Edge
all_edges [] = []
all_edges ((id, deps) ∷ nodes) = new_edges id [] deps ++ all_edges nodes

abbrev pub add_edges : List Edge → Graph → Graph
add_edges [] g = g
add_edges ((dep, id) ∷ edges) g = add_edges edges (add_edge dep id g)

add_edges-append :
    (xs ys : List Edge) (g : Graph) → add_edges (xs ++ ys) g ≡ add_edges ys (add_edges xs g)
add_edges-append [] ys g = refl
add_edges-append ((dep, id) ∷ xs) ys g = add_edges-append xs ys (add_edge dep id g)

-- All dependencies are among the ids.
abbrev pub knows : List String → List Node → Bool
knows ids nodes = all (λ n. all (has ids) n.1) nodes

add_deps-known :
    (ids : List String) (id : String) (seen deps : List String) (g : Graph)
    → all (has ids) deps ≡ true
    → add_deps ids id seen deps g ≡ ok (add_edges (new_edges id seen deps) g)
unfolding add_deps
add_deps-known ids id seen [] g h = refl
add_deps-known ids id seen (dep ∷ deps) g h = elim (Bool-cases (has seen dep)) [
  | inl e ↦ ground (arith, add_deps-known ids id seen deps g (ground arith))
  | inr e ↦
      ground (arith, add_deps-known ids id (dep ∷ seen) deps (add_edge dep id g) (ground arith))
]

pub add_nodes-known :
    (ids : List String) (nodes : List Node) (g : Graph)
    → knows ids nodes ≡ true
    → add_nodes ids nodes g ≡ ok (add_edges (all_edges nodes) g)
unfolding add_nodes
add_nodes-known ids [] g h = refl
add_nodes-known ids ((id, deps) ∷ nodes) g h =
    let first = add_deps-known ids id [] deps g (ground arith) in
    let rest = add_nodes-known ids nodes (add_edges (new_edges id [] deps) g) (ground arith) in
    ap (λ r. r >>= add_nodes ids nodes) first
    ∙ rest
    ∙ ap ok (sym (add_edges-append (new_edges id [] deps) (all_edges nodes) g))

-- A result is the error of a dependency that is not among the ids.
abbrev pub IsUnknown : List String → List Node → Result Graph → Type 0
IsUnknown ids nodes r =
    (id : String) × (deps : List String) × (dep : String) × Memᴰ (id, deps) nodes
    × Memᴰ dep deps
    × (has ids dep ≡ false)
    × (r ≡ err (unknown_dependency dep))

add_deps_unknown :
    (ids : List String) (id : String) (seen deps : List String) (g : Graph)
    → all (has ids) deps ≡ false
    → (dep : String) × Memᴰ dep deps
      × (has ids dep ≡ false)
      × (add_deps ids id seen deps g ≡ err (unknown_dependency dep))
unfolding add_deps
add_deps_unknown ids id seen [] g h = cc
add_deps_unknown ids id seen (dep ∷ deps) g h = elim (Bool-cases (has ids dep)) [
  | inr e ↦ (dep, Memᴰ.head refl, e, ground arith)
  | inl e ↦ elim (Bool-cases (has seen dep)) [
    | inl s ↦
        let (d, m, missing, r) = add_deps_unknown ids id seen deps g (ground arith) in
        (d, Memᴰ.tail m, missing, ground arith)
    | inr s ↦
        let (d, m, missing, r) =
          add_deps_unknown ids id (dep ∷ seen) deps (add_edge dep id g) (ground arith) in
        (d, Memᴰ.tail m, missing, ground arith)
  ]
]

pub add_nodes-IsUnknown :
    (ids : List String) (nodes : List Node) (g : Graph)
    → knows ids nodes ≡ false
    → IsUnknown ids nodes (add_nodes ids nodes g)
unfolding add_nodes
add_nodes-IsUnknown ids [] g h = cc
add_nodes-IsUnknown ids ((id, deps) ∷ nodes) g h = elim (Bool-cases (all (has ids) deps)) [
  | inr e ↦
      let (dep, m, missing, r) = add_deps_unknown ids id [] deps g e in
      (id, deps, dep, Memᴰ.head refl, m, missing, ap (λ r. r >>= add_nodes ids nodes) r)
  | inl e ↦
      let first = add_deps-known ids id [] deps g e in
      let (i, ds, dep, n, m, missing, r) =
        add_nodes-IsUnknown ids nodes (add_edges (new_edges id [] deps) g) (ground arith) in
      (i, ds, dep, Memᴰ.tail n, m, missing, ap (λ r. r >>= add_nodes ids nodes) first ∙ r)
]

-- The edges are the pairs of a unit's dependency and the unit.
new_edges_sound :
    (id : String) (seen deps : List String) {d c : String}
    → Memᴰ (d, c) (new_edges id seen deps)
    → Memᴰ d deps × (c ≡ id)
new_edges_sound id seen [] m = elim m [ ]
new_edges_sound id seen (dep ∷ deps) {d} {c} m =
    elim (has seen dep)
        as (λ b.
          Memᴰ (d, c)
            (if b then new_edges id seen deps else (dep, id) ∷ new_edges id (dep ∷ seen) deps)
          → Memᴰ d (dep ∷ deps) × (c ≡ id)) [
            | true ↦ λ m. let (h, e) = new_edges_sound id seen deps m in (Memᴰ.tail h, e)
            | false ↦ λ m. elim m [
              | Memᴰ.head e ↦ (Memᴰ.head (ap (λ p. p.0) e), ap (λ p. p.1) e)
              | Memᴰ.tail m' ↦
                  let (h, e) = new_edges_sound id (dep ∷ seen) deps m' in (Memᴰ.tail h, e)
            ]
          ]
      m

new_edges_complete :
    (id : String) (seen deps : List String) {d : String}
    → Memᴰ d deps
    → has seen d ≡ false
    → Memᴰ (d, id) (new_edges id seen deps)
new_edges_complete id seen [] m h = elim m [ ]
new_edges_complete id seen (dep ∷ deps) {d} m h = elim (Bool-cases (has seen dep)) [
  | inl s ↦
      subst
        (λ b.
          Memᴰ (d, id)
            (if b then new_edges id seen deps else (dep, id) ∷ new_edges id (dep ∷ seen) deps))
        (sym s)
        (elim m [
          | Memᴰ.head e ↦ absurd (ground (arith, ap (has seen) e))
          | Memᴰ.tail below ↦ new_edges_complete id seen deps below h
        ])
  | inr s ↦
      subst
        (λ b.
          Memᴰ (d, id)
            (if b then new_edges id seen deps else (dep, id) ∷ new_edges id (dep ∷ seen) deps))
        (sym s)
        (elim (Bool-cases (str_eq d dep)) [
          | inl same ↦ Memᴰ.head (ap (λ x. (x, id)) ((eq_iff d dep).0 same))
          | inr other ↦ elim m [
            | Memᴰ.head e ↦ absurd (ground (arith, (eq_iff d dep).1 e))
            | Memᴰ.tail below ↦
                Memᴰ.tail (new_edges_complete id (dep ∷ seen) deps below (ground arith))
          ]
        ])
]

-- A unit with the id has the dependency.
abbrev pub Needs : List Node → String → String → Type 0
Needs nodes c d = (deps : List String) × Memᴰ (c, deps) nodes × Memᴰ d deps

pub all_edges-Needs :
    (nodes : List Node) {d c : String} → Memᴰ (d, c) (all_edges nodes) → Needs nodes c d
all_edges-Needs [] m = elim m [ ]
all_edges-Needs ((id, deps) ∷ nodes) m = elim (append_cases (new_edges id [] deps) m) [
  | inl here ↦
      let (h, e) = new_edges_sound id [] deps here in (deps, Memᴰ.head (ap (λ x. (x, deps)) e), h)
  | inr there ↦ let (ds, n, h) = all_edges-Needs nodes there in (ds, Memᴰ.tail n, h)
]

pub Needs-edge :
    (nodes : List Node) {d c : String} → Needs nodes c d → Memᴰ (d, c) (all_edges nodes)
Needs-edge [] (deps, n, h) = elim n [ ]
Needs-edge ((id, ds) ∷ nodes) {d} {c} (deps, n, h) = elim n [
  | Memᴰ.head e ↦ append_left _ (
      subst (λ x. Memᴰ (d, x) (new_edges id [] ds)) (sym (ap (λ p. p.0) e))
        (new_edges_complete id [] ds (subst (Memᴰ d) (ap (λ p. p.1) e) h) refl))
  | Memᴰ.tail below ↦ append_right (new_edges id [] ds) (Needs-edge nodes (deps, below, h))
]
