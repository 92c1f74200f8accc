-- ===== src/Semantics/Matching.antt =====
-- src/action-semantics.ts: `actionKeyMatch` finds the closest projection.
use pi_speculative_action.Prelude.{
  ℕ, ◌≤◌, Bool, true, false, Option, none, some, String, List, [], ◌∷◌, All, leb, ◌≡◌, ◌⊎◌, inl,
  inr, refl, arith, ◌∙◌, Bool-cases, ap,
}
use pi_speculative_action.Settlement.{ActionKeyMatch, projected}
use pi_speculative_action.Semantics.{
  ActionKey, ActionKeyProjector, projection, closer, best_from, as_match, same, same_contract,
  action_key_match,
}

module _ (require_coverage : Bool) (speculative actor : ActionKey) where
  abbrev measure : ActionKeyProjector → Option ℕ
  measure = projection require_coverage speculative actor

  -- A projector whose projection has the distance and the name.
  pub data Offers (distance : ℕ) (id : String) : List ActionKeyProjector → Type 0 where
    here :
        {projector : ActionKeyProjector} {projectors : List ActionKeyProjector}
        → measure projector ≡ some distance
        → projector.id ≡ id
        → Offers distance id (projector ∷ projectors)
    there :
        {projector : ActionKeyProjector} {projectors : List ActionKeyProjector}
        → Offers distance id projectors
        → Offers distance id (projector ∷ projectors)

  -- What the loop has found, or will: the projection is one of those offered, none is closer, and there is
  -- one if there is any.
  abbrev AtMost : Option ℕ → ℕ → Type 0
  AtMost none distance = Unit
  AtMost (some d) distance = distance ≤ d

  abbrev pub NoneCloser : ℕ → ActionKeyProjector → Type 0
  NoneCloser distance projector = AtMost (measure projector) distance

  -- The best so far stays, or a projector offers what is closer.
  abbrev Found : Option (ℕ × String) → List ActionKeyProjector → Option (ℕ × String) → Type 0
  Found none projectors none = All (λ p. measure p ≡ none) projectors
  Found none projectors (some (d, id)) = Offers d id projectors × All (NoneCloser d) projectors
  Found (some b) projectors none = ⊥
  Found (some (b, other)) projectors (some (d, id)) =
      (d ≤ b)
      × ((Path (ℕ × String) (b, other) (d, id)) ⊎ Offers d id projectors)
      × All (NoneCloser d) projectors

  NoneCloser-none :
      (distance : ℕ) (projector : ActionKeyProjector)
      → measure projector ≡ none
      → NoneCloser distance projector
  NoneCloser-none distance projector e = rw e tt

  NoneCloser-some :
      (distance d : ℕ) (projector : ActionKeyProjector)
      → measure projector ≡ some d
      → distance ≤ d
      → NoneCloser distance projector
  NoneCloser-some distance d projector e h = rw e h

  Offers-here :
      {projector : ActionKeyProjector} {projectors : List ActionKeyProjector} (d distance : ℕ)
      (id : String)
      → measure projector ≡ some d
      → Path (ℕ × String) (d, projector.id) (distance, id)
      → Offers distance id (projector ∷ projectors)
  Offers-here d distance id e p = here (e ∙ ap (λ (x : ℕ × String). some x.0) p) (ap (λ x. x.1) p)

  -- One turn of the loop.
  closer-Found :
      (best : Option (ℕ × String)) (projector : ActionKeyProjector)
      (projectors : List ActionKeyProjector) (m : Option ℕ) (r : Option (ℕ × String))
      → measure projector ≡ m
      → Found (closer best projector.id m) projectors r
      → Found best (projector ∷ projectors) r
  unfolding closer
  closer-Found none projector projectors none none e h = (e, h)
  closer-Found none projector projectors none (some (d, id)) e h =
      (there h.0, (NoneCloser-none d projector e, h.1))
  closer-Found none projector projectors (some x) none e h = absurd h
  closer-Found none projector projectors (some x) (some (d, id)) e h = (
    elim h.1 [ inl p ↦ Offers-here x d id e p | inr o ↦ there o ],
    (NoneCloser-some d x projector e h.0, h.2),
  )
  closer-Found (some (b, other)) projector projectors none none e h = absurd h
  closer-Found (some (b, other)) projector projectors none (some (d, id)) e h = (
    h.0,
    elim h.1 [ inl p ↦ inl p | inr o ↦ inr (there o) ],
    (NoneCloser-none d projector e, h.2),
  )
  closer-Found (some (b, other)) projector projectors (some x) none e h =
      elim (Bool-cases (leb b x)) [ inl t ↦ absurd (rw t at h) | inr t ↦ absurd (rw t at h) ]
  closer-Found (some (b, other)) projector projectors (some x) (some (d, id)) e h =
      elim (Bool-cases (leb b x)) [
        | inl t ↦
            let k : Found (some (b, other)) projectors (some (d, id)) = rw t at h in
            (
              k.0,
              elim k.1 [ inl p ↦ inl p | inr o ↦ inr (there o) ],
              (NoneCloser-some d x projector e (ground arith), k.2),
            )
        | inr t ↦
            let k : Found (some (x, projector.id)) projectors (some (d, id)) = rw t at h in
            (
              ground arith,
              elim k.1 [ inl p ↦ inr (Offers-here x d id e p) | inr o ↦ inr (there o) ],
              (NoneCloser-some d x projector e k.0, k.2),
            )
      ]

  best_from-Found :
      (best : Option (ℕ × String)) (projectors : List ActionKeyProjector)
      → Found best projectors (best_from require_coverage speculative actor best projectors)
  unfolding best_from
  best_from-Found none [] = tt
  best_from-Found (some (b, id)) [] = (omega arith, inl refl, tt)
  best_from-Found best (projector ∷ projectors) =
      closer-Found best projector projectors (measure projector) _ refl
        (best_from-Found (closer best projector.id (measure projector)) projectors)

-- What a match of two keys is.
abbrev pub IsMatch :
    Bool → ActionKey → ActionKey → List ActionKeyProjector → Option ActionKeyMatch → Type 0
IsMatch require_coverage speculative actor projectors none =
    All (λ p. projection require_coverage speculative actor p ≡ none) projectors
IsMatch require_coverage speculative actor projectors (some (projected distance id)) =
    Offers require_coverage speculative actor distance id projectors
    × All (NoneCloser require_coverage speculative actor distance) projectors
IsMatch require_coverage speculative actor projectors (some m) = ⊥

as_match-IsMatch :
    (require_coverage : Bool) (speculative actor : ActionKey) (projectors : List ActionKeyProjector)
    (best : Option (ℕ × String))
    → Found require_coverage speculative actor none projectors best
    → IsMatch require_coverage speculative actor projectors (as_match best)
unfolding as_match
as_match-IsMatch require_coverage speculative actor projectors none h = h
as_match-IsMatch require_coverage speculative actor projectors (some (d, id)) h = h

-- Two keys with different texts and the same contract match by a projection that one of the projectors
-- offers, with its distance and name, and that none of the others comes closer than; they do not match
-- exactly if no projector offers one.
pub action_key_match-IsMatch :
    (speculative actor : ActionKey) (projectors : List ActionKeyProjector) (require_coverage : Bool)
    → same speculative.key actor.key ≡ false
    → same_contract speculative actor ≡ true
    → IsMatch require_coverage speculative actor projectors
        (action_key_match speculative actor projectors require_coverage)
unfolding action_key_match
action_key_match-IsMatch speculative actor projectors require_coverage h k =
    rw (h, k)
      (as_match-IsMatch require_coverage speculative actor projectors _
        (best_from-Found require_coverage speculative actor none projectors))
