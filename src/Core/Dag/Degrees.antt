-- ===== src/Core/Dag/Degrees.antt =====
-- The degrees and the children in the graph of topo_sort (crates/wanax-core/src/dag.rs), counted on its
-- edges, and what the inner loop on the children of a unit does to them.
use wanax.Prelude.{
  ◌≡◌, inl, inr, refl, sym, ap, ◌∙◌, subst, ℕ, suc, ◌+◌, ◌-◌, ◌≤◌, ◌<◌, String, List, [], ◌∷◌, ◌++◌,
  str_eq, eq_iff, eq_refl, if◌then◌else◌, ◌==◌, arith, Bool-cases,
}
use mathlib.Core.List.{append_assoc, append-nil}
use wanax.Prelude.Count.{count, count-append}
use wanax.Prelude.Map.{get?, get_or, update, keys, get_or-insert, count-keys-insert, get?-of_count}
use wanax.Core.Dag.{
  Node, node_ids, Graph, add_edge, empty_graph, roots, Pending, release_child, release_all,
}
use wanax.Core.Dag.Edges.{Edge, add_edges}

abbrev pub targets : List Edge → List String
targets [] = []
targets ((_, id) ∷ edges) = id ∷ targets edges

abbrev pub children : String → List Edge → List String
children p [] = []
children p ((dep, id) ∷ edges) =
    let rest = children p edges in if str_eq p dep then id ∷ rest else rest

pub add_edges-indeg :
    (edges : List Edge) (g : Graph) (x : String)
    → get_or 0 x (add_edges edges g).indeg ≡ get_or 0 x g.indeg + count x (targets edges)
unfolding add_edge
add_edges-indeg [] g x = omega arith
add_edges-indeg ((dep, id) ∷ edges) g x = ground (
  arith,
  add_edges-indeg edges (add_edge dep id g) x,
  get_or-insert 0 x id (suc (get_or 0 id g.indeg)) g.indeg,
  eq_iff x id,
)

pub add_edges-kids :
    (edges : List Edge) (g : Graph) (p : String)
    → get_or [] p (add_edges edges g).kids ≡ get_or [] p g.kids ++ children p edges
unfolding add_edge
add_edges-kids [] g p = sym (append-nil (get_or [] p g.kids))
add_edges-kids ((dep, id) ∷ edges) g p =
    add_edges-kids edges (add_edge dep id g) p
    ∙ ap (λ l. l ++ children p edges)
        (get_or-insert [] p dep (get_or [] dep g.kids ++ id ∷ []) g.kids)
    ∙ ground (arith, eq_iff p dep, append_assoc (get_or [] p g.kids) (id ∷ []) (children p edges))

pub add_edges-keys :
    (edges : List Edge) (g : Graph) (x : String)
    → ((c : String) → 0 < count c (targets edges) → 0 < count c (keys g.indeg))
    → count x (keys (add_edges edges g).indeg) ≡ count x (keys g.indeg)
unfolding add_edge
add_edges-keys [] g x h = refl
add_edges-keys ((dep, id) ∷ edges) g x h =
    let here : 0 < count id (keys g.indeg) = h id (ground (arith, eq_refl id)) in
    let same : (z : String) → count z (keys (add_edge dep id g).indeg) ≡ count z (keys g.indeg) =
      λ z. ground (arith, count-keys-insert z id (suc (get_or 0 id g.indeg)) g.indeg) in
    add_edges-keys edges (add_edge dep id g) x
      (λ c m. let known : 0 < count c (keys g.indeg) = h c (ground arith) in omega (arith, same c))
    ∙ same x

-- What the first loop leaves: every degree 0, no children, and the ids as keys.
pub empty_graph-indeg :
    (nodes : List Node) (g : Graph) (x : String)
    → get_or 0 x (empty_graph nodes g).indeg ≡ get_or 0 x g.indeg
unfolding empty_graph
empty_graph-indeg [] g x = refl
empty_graph-indeg ((id, _) ∷ nodes) g x =
    empty_graph-indeg nodes _ x
    ∙ ground (arith, get_or-insert 0 x id (get_or 0 id g.indeg) g.indeg, eq_iff x id)

pub empty_graph-kids :
    (nodes : List Node) (g : Graph) (x : String)
    → get_or [] x (empty_graph nodes g).kids ≡ get_or [] x g.kids
unfolding empty_graph
empty_graph-kids [] g x = refl
empty_graph-kids ((id, _) ∷ nodes) g x =
    empty_graph-kids nodes _ x
    ∙ ground (arith, get_or-insert [] x id (get_or [] id g.kids) g.kids, eq_iff x id)

pub empty_graph-keys :
    (nodes : List Node) (g : Graph) (x : String)
    → ((z : String) → count z (keys g.indeg) + count z (node_ids nodes) ≤ 1)
    → count x (keys (empty_graph nodes g).indeg) ≡ count x (keys g.indeg) + count x (node_ids nodes)
unfolding empty_graph
empty_graph-keys [] g x h = omega arith
empty_graph-keys ((id, _) ∷ nodes) g x h =
    let here = h id in
    let one : (z : String)
        → count z (keys (update id 0 (λ d. d) g.indeg))
          ≡ count z (keys g.indeg) + (if str_eq z id then 1 else 0) =
      λ z.
        ground
          (arith, count-keys-insert z id (get_or 0 id g.indeg) g.indeg, eq_refl id, eq_iff z id) in
    empty_graph-keys nodes _ x (λ z. let most = h z in ground (arith, one z))
    ∙ ground (arith, one x)

roots-absent : (x : String) (m : List (String × ℕ)) → count x (keys m) ≡ 0 → count x (roots m) ≡ 0
unfolding roots
roots-absent x [] h = refl
roots-absent x ((k, d) ∷ m) h = ground (arith, roots-absent x m)

pub count-roots :
    (x : String) (m : List (String × ℕ))
    → count x (keys m) ≤ 1
    → count x (roots m) ≡ (if get_or 0 x m == 0 then count x (keys m) else 0)
unfolding roots
count-roots x [] h = ground arith
count-roots x ((k, d) ∷ m) h = elim (Bool-cases (str_eq x k)) [
  | inl e ↦ ground (arith, roots-absent x m)
  | inr e ↦ ground (arith, count-roots x m)
]

-- What `release_all` does, when each child's degree is at least its number of occurrences.
pub record IsReleased (cs : List String) (s t : Pending) (x : String) : Type 0 where
  pub same_keys : count x (keys t.indeg) ≡ count x (keys s.indeg)
  pub left : get_or 0 x t.indeg + count x cs ≡ get_or 0 x s.indeg
  pub queued :
      count x t.queue
      ≡ count x s.queue + (if 0 == count x cs then 0 else if get_or 0 x t.indeg == 0 then 1 else 0)

record IsOneReleased (c : String) (s t : Pending) (x : String) : Type 0 where
  same_keys : count x (keys t.indeg) ≡ count x (keys s.indeg)
  left : get_or 0 x t.indeg + (if str_eq x c then 1 else 0) ≡ get_or 0 x s.indeg
  queued :
      count x t.queue
      ≡ count x s.queue + (if str_eq x c then if get_or 0 x t.indeg == 0 then 1 else 0 else 0)

release_child-one :
    (c : String) (s : Pending) (x : String)
    → 0 < count c (keys s.indeg)
    → 0 < get_or 0 c s.indeg
    → IsOneReleased c s (release_child c (get? c s.indeg) s) x
unfolding release_child
release_child-one c s x known some_left =
    let d = get_or 0 c s.indeg in
    subst (λ o. IsOneReleased c s (release_child c o s) x) (sym (get?-of_count 0 c s.indeg known))
      record {
        same_keys = ground (arith, count-keys-insert x c (d - 1) s.indeg);
        left = ground (arith, get_or-insert 0 x c (d - 1) s.indeg, eq_iff x c);
        queued = ground (
          arith,
          get_or-insert 0 x c (d - 1) s.indeg,
          eq_iff x c,
          count-append x s.queue (c ∷ []),
        );
      }

pub release_all-IsReleased :
    (cs : List String) (s : Pending)
    → ((z : String) → count z cs ≤ get_or 0 z s.indeg)
    → ((z : String) → 0 < count z cs → 0 < count z (keys s.indeg))
    → (x : String) → IsReleased cs s (release_all cs s) x
unfolding release_all
release_all-IsReleased [] s enough known x = record {
  same_keys = refl;
  left = omega arith;
  queued = ground arith;
}
release_all-IsReleased (c ∷ cs) s enough known x =
    let here = known c (ground (arith, eq_refl c)) in
    let many = enough c in
    let one : (z : String) → IsOneReleased c s (release_child c (get? c s.indeg) s) z =
      λ z. release_child-one c s z here (ground (arith, eq_refl c)) in
    let rest =
      release_all-IsReleased cs (release_child c (get? c s.indeg) s)
        (λ z. let e = enough z in let o = (one z).left in ground arith)
        (λ z m. let k = known z (ground arith) in let o = (one z).same_keys in omega arith) x in
    record {
      same_keys = rest.same_keys ∙ (one x).same_keys;
      left = let a = rest.left in let b = (one x).left in ground arith;
      queued =
          let a = rest.queued in
          let b = (one x).queued in let l = rest.left in let o = (one x).left in ground arith;
    }
