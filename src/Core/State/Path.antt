-- ===== src/Core/State/Path.antt =====
-- Sequences of the transitions of crates/wanax-core/src/state.rs.
use wanax.Prelude.{
  ◌≡◌, refl, sym, ap, ◌∙◌, ◌⊎◌, inl, inr, Bool, true, false, List, [], ◌∷◌, arith, subst,
  Bool-cases,
}
use wanax.Core.RunState.{
  RunState, draft, contract_ready, dispatched, inner_working, receipt_ready, outer_reviewing,
  accepted, rejected, rework, escalate, canceling, cancelled, budget_exhausted, failed, is_terminal,
}
use wanax.Core.Error.{Result, ok, ◌>>=◌, >>=-eq-ok}
use wanax.Core.State.{can_transition, transition}
use wanax.Core.State.Diagram.{
  Edge, ready, dispatch, work, submit, review, accept, reject, send_back, next_unit, redispatch,
  cancel, confirm, exhaust, fail, give_up, can_transition_iff_Edge, Edge-from_live,
}

-- The run is moved to each state in turn, as successive calls of `transition` do.
unfoldable pub follow : RunState → List RunState → Result RunState
follow s [] = ok s
follow s (t ∷ rest) = transition s t >>= λ u. follow u rest

transition-ok : (s t u : RunState) → transition s t ≡ ok u → (t ≡ u) × (can_transition s t ≡ true)
unfolding transition
transition-ok s t u h = ground arith

-- `needs` is a subsequence of `trace`.
pub data Subsequence {ℓ} {A : Type ℓ} : List A → List A → Type ℓ where
  nil : Subsequence [] []
  skip : {x : A} {needs trace : List A} → Subsequence needs trace → Subsequence needs (x ∷ trace)
  take :
      {x : A} {needs trace : List A} → Subsequence needs trace → Subsequence (x ∷ needs) (x ∷ trace)

Subsequence-tail {ℓ} :
    {A : Type ℓ} {x : A} {needs trace : List A}
    → Subsequence (x ∷ needs) trace
    → Subsequence needs trace
Subsequence-tail (skip s) = skip (Subsequence-tail s)
Subsequence-tail (take s) = skip s

-- The states that a run in the given state has still to enter before it can be accepted.
abbrev pub needs : RunState → List RunState
needs draft =
    contract_ready ∷ dispatched ∷ inner_working ∷ receipt_ready ∷ outer_reviewing ∷ accepted ∷ []
needs contract_ready = dispatched ∷ inner_working ∷ receipt_ready ∷ outer_reviewing ∷ accepted ∷ []
needs rework = dispatched ∷ inner_working ∷ receipt_ready ∷ outer_reviewing ∷ accepted ∷ []
needs dispatched = inner_working ∷ receipt_ready ∷ outer_reviewing ∷ accepted ∷ []
needs inner_working = receipt_ready ∷ outer_reviewing ∷ accepted ∷ []
needs receipt_ready = outer_reviewing ∷ accepted ∷ []
needs outer_reviewing = accepted ∷ []
needs _ = []

-- The states from which the machine cannot come to `accepted`.
abbrev is_lost : RunState → Bool
is_lost rejected = true
is_lost escalate = true
is_lost canceling = true
is_lost cancelled = true
is_lost budget_exhausted = true
is_lost failed = true
is_lost _ = false

lost-Edge : {s t : RunState} → Edge s t → is_lost s ≡ true → is_lost t ≡ true
lost-Edge ready h = cc
lost-Edge dispatch h = cc
lost-Edge work h = cc
lost-Edge submit h = cc
lost-Edge review h = cc
lost-Edge accept h = cc
lost-Edge send_back h = cc
lost-Edge next_unit h = cc
lost-Edge redispatch h = cc
lost-Edge reject h = refl
lost-Edge (cancel l) h = refl
lost-Edge confirm h = refl
lost-Edge (exhaust l) h = refl
lost-Edge (fail l) h = refl
lost-Edge (give_up l) h = refl

needs-Edge :
    {s t : RunState} {rest : List RunState}
    → Edge s t
    → is_lost t ≡ false
    → Subsequence (needs t) rest
    → Subsequence (needs s) (t ∷ rest)
needs-Edge ready h p = take p
needs-Edge dispatch h p = take p
needs-Edge work h p = take p
needs-Edge submit h p = take p
needs-Edge review h p = take p
needs-Edge accept h p = take p
needs-Edge redispatch h p = take p
needs-Edge send_back h p =
    skip (Subsequence-tail (Subsequence-tail (Subsequence-tail (Subsequence-tail p))))
needs-Edge next_unit h p = skip (Subsequence-tail (Subsequence-tail (Subsequence-tail p)))
needs-Edge reject h p = cc
needs-Edge (cancel l) h p = cc
needs-Edge confirm h p = cc
needs-Edge (exhaust l) h p = cc
needs-Edge (fail l) h p = cc
needs-Edge (give_up l) h p = cc

-- A first step that succeeds stays or takes an edge, and the rest is followed from there.
follow-cons :
    (s t : RunState) (rest : List RunState) {u : RunState}
    → follow s (t ∷ rest) ≡ ok u
    → ((s ≡ t) ⊎ Edge s t) × (follow t rest ≡ ok u)
unfolding follow
follow-cons s t rest {u} h =
    let (v, moved, later) = >>=-eq-ok (transition s t) (λ w. follow w rest) h in
    let (same, allowed) = transition-ok s t v moved in
    ((can_transition_iff_Edge s t).0 allowed, subst (λ w. follow w rest ≡ ok u) (sym same) later)

lost-follow :
    (s : RunState) (trace : List RunState) {u : RunState}
    → follow s trace ≡ ok u
    → is_lost s ≡ true
    → is_lost u ≡ true
unfolding follow
lost-follow s [] h lost = ground arith
lost-follow s (t ∷ rest) h lost =
    let (moved, later) = follow-cons s t rest h in
    lost-follow t rest later
      (elim moved [ inl same ↦ ap is_lost (sym same) ∙ lost | inr edge ↦ lost-Edge edge lost ])

-- An accepted run has entered, in this order, every state that its first state still asked for:
-- from `draft` on, `contract_ready`, `dispatched`, `inner_working`, `receipt_ready`,
-- `outer_reviewing` and `accepted`.
pub follow-accepted :
    (s : RunState) (trace : List RunState)
    → follow s trace ≡ ok accepted
    → Subsequence (needs s) trace
unfolding follow
follow-accepted s [] h = subst (λ w. Subsequence (needs w) []) {x = accepted} (ground arith) nil
follow-accepted s (t ∷ rest) h =
    let (moved, later) = follow-cons s t rest h in
    let below = follow-accepted t rest later in
    elim moved [
      | inl same ↦ subst (λ w. Subsequence (needs w) (t ∷ rest)) (sym same) (skip below)
      | inr edge ↦
          needs-Edge edge
            (elim (Bool-cases (is_lost t)) [
              | inl lost ↦ cc (lost-follow t rest later lost)
              | inr not_lost ↦ not_lost
            ])
            below
    ]

-- Once a run is in a terminal state, no sequence of transitions leaves it.
pub follow-terminal :
    (s : RunState) (trace : List RunState) {u : RunState}
    → is_terminal s ≡ true
    → follow s trace ≡ ok u
    → u ≡ s
unfolding follow
follow-terminal s [] final h = ground arith
follow-terminal s (t ∷ rest) {u} final h =
    let (moved, later) = follow-cons s t rest h in
    elim moved [
      | inl same ↦ follow-terminal t rest (ap is_terminal (sym same) ∙ final) later ∙ sym same
      | inr edge ↦ cc (Edge-from_live edge)
    ]
