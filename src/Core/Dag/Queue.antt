-- ===== src/Core/Dag/Queue.antt =====
-- The loop on the queue of topo_sort (crates/wanax-core/src/dag.rs).
use wanax.Prelude.{
  ◌≡◌, inl, inr, refl, sym, ap, ◌∙◌, subst, ℕ, zero, suc, ◌+◌, ◌≤◌, ◌<◌, String, some, Option, List,
  [], ◌∷◌, ◌++◌, str_eq, eq_iff, eq_refl, length, length-append, if◌then◌else◌, ◌==◌, arith,
  Bool-cases,
}
use mathlib.Core.List.{Memᴰ, append-nil, append_assoc}
use wanax.Prelude.Count.{count, count-append, count-sort, mem_of_count, length-of_counts}
use wanax.Prelude.Map.{get_or, keys}
use wanax.Prelude.Sort.{sort, str_le}
use wanax.Core.Dag.{Pending, release_all, drain}
use wanax.Core.Dag.Edges.{Edge}
use wanax.Core.Dag.Degrees.{targets, children, IsReleased, release_all-IsReleased}

-- The edges into a unit that start at a unit not put out.
abbrev pub open_edges : List String → List Edge → String → ℕ
open_edges out [] x = 0
open_edges out ((d, c) ∷ edges) x =
    let rest = open_edges out edges x in
    if str_eq x c then if count d out == 0 then suc rest else rest else rest

open_edges-put :
    (out : List String) (id : String) (edges : List Edge) (x : String)
    → count id out ≡ 0
    → open_edges (out ++ id ∷ []) edges x + count x (children id edges) ≡ open_edges out edges x
open_edges-put out id [] x h = omega arith
open_edges-put out id ((d, c) ∷ edges) x h = ground (
  arith,
  open_edges-put out id edges x,
  count-append d out (id ∷ []),
  eq_iff id d,
  eq_iff d id,
  eq_refl d,
)

children-targets :
    (id : String) (edges : List Edge) (x : String)
    → 0 < count x (children id edges)
    → 0 < count x (targets edges)
children-targets id [] x h = absurd (omega arith)
children-targets id ((d, c) ∷ edges) x h = ground (arith, children-targets id edges x)

pub open_edges-nil :
    (edges : List Edge) (x : String) → open_edges [] edges x ≡ count x (targets edges)
open_edges-nil [] x = refl
open_edges-nil ((d, c) ∷ edges) x = ground (arith, open_edges-nil edges x)

pub source_out :
    (out : List String) (edges : List Edge) {d c : String}
    → open_edges out edges c ≡ 0
    → Memᴰ (d, c) edges
    → Memᴰ d out
source_out out [] h m = elim m [ ]
source_out out ((d', c') ∷ edges) {d} {c} h m = elim m [
  | Memᴰ.head e ↦
      let d_same : d ≡ d' = ap (λ p. p.0) e in
      let c_same : c ≡ c' = ap (λ p. p.1) e in
      subst (λ z. Memᴰ z out) (sym d_same)
        (mem_of_count d' out (ground (arith, (eq_iff c c').1 c_same)))
  | Memᴰ.tail below ↦ source_out out edges (ground arith) below
]

-- An edge that starts at a unit not put out.
pub open_edge :
    (out : List String) (edges : List Edge) (c : String)
    → 0 < open_edges out edges c
    → (d : String) × Memᴰ (d, c) edges × (count d out ≡ 0)
open_edge out [] c h = absurd (omega arith)
open_edge out ((d, c') ∷ edges) c h = elim (Bool-cases (str_eq c c')) [
  | inr other ↦
      let (s, m, closed) = open_edge out edges c (ground arith) in (s, Memᴰ.tail m, closed)
  | inl same ↦ elim (Bool-cases (count d out == 0)) [
    | inl closed ↦ (d, Memᴰ.head (ap (λ z. (d, z)) ((eq_iff c c').0 same)), ground arith)
    | inr opened ↦
        let (s, m, closed) = open_edge out edges c (ground arith) in (s, Memᴰ.tail m, closed)
  ]
]

-- Everything that an entry needs stands before it.
abbrev pub IsOrdered : (String → String → Type 0) → List String → List String → Type 0
IsOrdered needs before [] = Unit
IsOrdered needs before (c ∷ rest) =
    ((d : String) → needs c d → Memᴰ d before) × IsOrdered needs (before ++ c ∷ []) rest

IsOrdered-snoc :
    (needs : String → String → Type 0) (before xs : List String) (c : String)
    → IsOrdered needs before xs
    → ((d : String) → needs c d → Memᴰ d (before ++ xs))
    → IsOrdered needs before (xs ++ c ∷ [])
IsOrdered-snoc needs before [] c h ready =
    (λ d n. subst (Memᴰ d) (append-nil before) (ready d n), tt)
IsOrdered-snoc needs before (x ∷ xs) c h ready = (
  h.0,
  IsOrdered-snoc needs (before ++ x ∷ []) xs c h.1
      (λ d n. subst (Memᴰ d) (sym (append_assoc before (x ∷ []) xs)) (ready d n)),
)

pub IsOrdered-map :
    {needs wants : String → String → Type 0} (before xs : List String)
    → ((c d : String) → wants c d → needs c d)
    → IsOrdered needs before xs
    → IsOrdered wants before xs
IsOrdered-map before [] f h = tt
IsOrdered-map before (x ∷ xs) f h =
    (λ d w. h.0 d (f x d w), IsOrdered-map (before ++ x ∷ []) xs f h.1)

module _ (ids : List String) (edges : List Edge) where
  abbrev pub HasEdge : String → String → Type 0
  HasEdge c d = Memᴰ (d, c) edges

  -- The state of the loop: the degrees are the open edges, and what is put out or in the queue is the ids
  -- of degree 0.
  pub record IsQueue (out : List String) (m : List (String × ℕ)) (q : List String) (x : String)
      : Type 0 where
    pub same_keys : count x (keys m) ≡ count x ids
    pub degree : get_or 0 x m ≡ open_edges out edges x
    pub once : count x out + count x q ≡ (if get_or 0 x m == 0 then count x ids else 0)

  -- The loop ends with an empty queue, the ids in order.
  pub record IsDrained (r : Option (List String)) : Type 0 where
    pub out : List String
    pub indeg : List (String × ℕ)
    pub returned : r ≡ some out
    pub empty : (x : String) → IsQueue out indeg [] x
    pub ordered : IsOrdered HasEdge [] out

  module _ (kids : List (String × List String))
      (at_kids : (p : String) → get_or [] p kids ≡ children p edges)
      (distinct : (x : String) → count x ids ≤ 1)
      (known : (x : String) → 0 < count x (targets edges) → 0 < count x ids) where
    abbrev turn : String → List (String × ℕ) → List String → Pending
    turn id m q = release_all (sort str_le (get_or [] id kids)) record { indeg = m; queue = q }

    turn-IsReleased :
        (out : List String) (m : List (String × ℕ)) (id : String) (q : List String)
        → ((x : String) → IsQueue out m (id ∷ q) x)
        → (x : String)
        → IsReleased
            (sort str_le (get_or [] id kids))
            record { indeg = m; queue = q }
            (turn id m q)
            x
    turn-IsReleased out m id q inv =
        let popped : count id out ≡ 0 =
          let i = (inv id).once in let d = distinct id in ground (arith, eq_refl id) in
        let cs : (z : String)
            → count z (sort str_le (get_or [] id kids)) ≡ count z (children id edges) =
          λ z. count-sort str_le z (get_or [] id kids) ∙ ap (count z) (at_kids id) in
        release_all-IsReleased (sort str_le (get_or [] id kids)) record { indeg = m; queue = q }
          (λ z. let d = (inv z).degree in omega (arith, cs z, open_edges-put out id edges z popped))
          (λ z h.
            let k = (inv z).same_keys in
            omega (arith, k, known z (children-targets id edges z (omega (arith, cs z)))))

    turn-IsQueue :
        (out : List String) (m : List (String × ℕ)) (id : String) (q : List String)
        → ((x : String) → IsQueue out m (id ∷ q) x)
        → (x : String) → IsQueue (out ++ id ∷ []) (turn id m q).indeg (turn id m q).queue x
    turn-IsQueue out m id q inv x =
        let popped : count id out ≡ 0 =
          let i = (inv id).once in let d = distinct id in ground (arith, eq_refl id) in
        let cs : count x (sort str_le (get_or [] id kids)) ≡ count x (children id edges) =
          count-sort str_le x (get_or [] id kids) ∙ ap (count x) (at_kids id) in
        let released = turn-IsReleased out m id q inv x in
        let r_keys = released.same_keys in
        let r_left = released.left in
        let r_queued = released.queued in
        let i_keys = (inv x).same_keys in
        let i_degree = (inv x).degree in
        let i_once = (inv x).once in
        let put = open_edges-put out id edges x popped in
        record {
          same_keys = omega arith;
          degree = omega arith;
          once = ground (
            arith,
            count-append x out (id ∷ []),
            children-targets id edges x,
            known x,
            distinct x,
          );
        }

    pub drain-IsDrained :
        (fuel : ℕ) (out : List String) (m : List (String × ℕ)) (q : List String)
        → length ids ≤ fuel + length out
        → ((x : String) → IsQueue out m q x)
        → IsOrdered HasEdge [] out
        → IsDrained (drain kids fuel out m q)
    unfolding drain
    drain-IsDrained fuel out m [] enough inv ordered = record {
      out = out;
      indeg = m;
      returned = refl;
      empty = inv;
      ordered = ordered;
    }
    drain-IsDrained zero out m (id ∷ q) enough inv ordered =
        let fits =
          length-of_counts (out ++ id ∷ q) ids
            (λ x. let i = (inv x).once in ground (arith, count-append x out (id ∷ q))) in
        absurd (omega (arith, length-append out (id ∷ q)))
    drain-IsDrained (suc fuel) out m (id ∷ q) enough inv ordered =
        let closed : open_edges out edges id ≡ 0 =
          let i = (inv id).once in let d = (inv id).degree in ground (arith, eq_refl id) in
        drain-IsDrained fuel (out ++ id ∷ []) (turn id m q).indeg (turn id m q).queue
          (omega (arith, length-append out (id ∷ []))) (turn-IsQueue out m id q inv)
          (IsOrdered-snoc HasEdge [] out id ordered (λ d e. source_out out edges closed e))
