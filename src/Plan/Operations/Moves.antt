-- ===== src/Plan/Operations/Moves.antt =====
-- src/plan-runtime.ts: what the operations do to the executions of the nodes.
use pi_speculative_action.Prelude.{
  ℕ, Option, none, some, String, ◌≡◌, ◌≢◌, refl, sym, subst, Option-cases, Bool-cases, inl, inr,
}
use pi_speculative_action.Plan.State.{NodeExecution, Ref, Node, Runtime, node_of, opportunity_of}
use pi_speculative_action.Plan.Opportunity.{OpportunityState, pending, matching, settled}
use pi_speculative_action.Plan.Readiness.{NodeReadiness}
use pi_speculative_action.Plan.Access.{node_of-set_node_self, node_of-set_node_ne}
use pi_speculative_action.Plan.Operations.{
  is_text, settled, matching, OpportunityState, NodeReadiness, promotion, with_execution, change,
  change_in, identified, unless_settled, keyed, defer, bind_action_key, finish_preparation,
  attach_execution, complete, reject_execution, observe, promote, promote_node, promote_found,
}
use pi_speculative_action.Plan.Operations.Offers.{
  Operation, promotes, defer_node, binds, finishes, attaches_to, completes_with, rejects_with,
  observes, Move, stays, Offers, deferral-Offers, preparation-Offers, prepared-Offers,
  attachment-Offers, rejection-Offers, completion-Offers, promotion-Offers,
}

module _ {I : Type 0} (op : Operation) where
  -- A node that is the same action, with an execution that has moved.
  pub record Moved (n n' : Node I) : Type 0 where
    pub same_identity : n'.identity ≡ n.identity
    pub same_action : n'.action ≡ n.action
    pub same_opportunity : n'.opportunity ≡ n.opportunity
    pub move : Move op n.execution n'.execution

  abbrev Leads : Node I → Option (Node I) → Type 0
  Leads n none = Unit
  Leads n (some n') = Moved n n'

  Moved-stays : (n : Node I) → Moved n n
  Moved-stays n = record {
    same_identity = refl;
    same_action = refl;
    same_opportunity = refl;
    move = stays;
  }

  with_execution-Leads :
      (n : Node I) (e : Option NodeExecution)
      → Offers op n.execution e
      → Leads n (with_execution e n)
  unfolding with_execution
  with_execution-Leads n none h = tt
  with_execution-Leads n (some e) h = record {
    same_identity = refl;
    same_action = refl;
    same_opportunity = refl;
    move = h;
  }

  identified-Leads :
      (id : String) (n : Node I) (m : Option (Node I)) → Leads n m → Leads n (identified id n m)
  unfolding identified
  identified-Leads id n m h = elim (Bool-cases (is_text n.identity.id id)) [
    | inl e ↦ rw (identified, e) h
    | inr e ↦ rw (identified, e) tt
  ]

  unless_settled-Leads :
      (o : OpportunityState) (n : Node I) (m : Option (Node I))
      → Leads n m
      → Leads n (unless_settled o m)
  unfolding unless_settled
  unless_settled-Leads pending n m h = h
  unless_settled-Leads (matching a r) n m h = h
  unless_settled-Leads (settled s) n m h = tt

  keyed-Leads :
      (key : String) (old : Option String) (n : Node I) (m : Option (Node I))
      → Leads n m
      → Leads n (keyed key old m)
  unfolding keyed
  keyed-Leads key (some k) n m h = tt
  keyed-Leads key none n none h = tt
  keyed-Leads key none n (some n') h = record {
    same_identity = h.same_identity;
    same_action = h.same_action;
    same_opportunity = h.same_opportunity;
    move = h.move;
  }

  -- What is known of the node of an operation after it.
  abbrev pub Moves : Option (Node I) → Option (Node I) → Type 0
  Moves none m = m ≡ none
  Moves (some n) none = ⊥
  Moves (some n) (some n') = Moved n n'

  Moves-stays : (m : Option (Node I)) → Moves m m
  Moves-stays none = refl
  Moves-stays (some n) = Moved-stays n

  -- What an operation does to the node of a name, and to the others.
  abbrev pub Operates : Ref → Runtime I → Runtime I → Type 0
  Operates ref rt rt' =
      Moves (node_of rt ref) (node_of rt' ref)
      × ((other : Ref) → other ≢ ref → node_of rt' other ≡ node_of rt other)

  Operates-stays : (ref : Ref) (rt : Runtime I) → Operates ref rt rt
  Operates-stays ref rt = (Moves-stays (node_of rt ref), λ other h. refl)

  change_in-Operates :
      (rt : Runtime I) (n : Node I) (m : Option (Node I)) (ref : Ref)
      → node_of rt ref ≡ some n
      → Leads n m
      → Operates ref rt (change_in m ref rt).0
  unfolding change_in
  change_in-Operates rt n none ref e h = Operates-stays ref rt
  change_in-Operates rt n (some n') ref e h = (
    rw (node_of-set_node_self rt ref n' e, e) h,
    λ other k. node_of-set_node_ne rt ref n' other k,
  )

  change-Operates :
      (rt : Runtime I) (f : Node I → Option (Node I)) (ref : Ref)
      → ((n : Node I) → Leads n (f n))
      → Operates ref rt (change (node_of rt ref) f ref rt).0
  unfolding change
  change-Operates rt f ref h = elim (Option-cases (node_of rt ref)) [
    | inl e ↦ subst (λ x. Operates ref rt (change x f ref rt).0) (sym e) (Operates-stays ref rt)
    | inr (n, e) ↦
        subst (λ x. Operates ref rt (change x f ref rt).0) (sym e)
          (change_in-Operates rt n (f n) ref e (h n))
  ]

-- The name of the node that an operation is made on.
abbrev pub target : Operation → Ref
target (promotes fuel ref) = ref
target (defer_node ref) = ref
target (binds ref id key) = ref
target (finishes ref id cause) = ref
target (attaches_to ref c owner) = ref
target (completes_with ref c owner state) = ref
target (rejects_with ref id cause) = ref
target (observes ref id observation) = ref

module _ {I : Type 0} where
  unfoldable pub operate : Operation → Runtime I → Runtime I
  operate (promotes fuel ref) rt = (promote fuel ref rt).0
  operate (defer_node ref) rt = (defer ref rt).0
  operate (binds ref id key) rt = (bind_action_key ref id key rt).0
  operate (finishes ref id cause) rt = (finish_preparation ref id cause rt).0
  operate (attaches_to ref c owner) rt = (attach_execution ref c owner rt).0
  operate (completes_with ref c owner state) rt = (complete ref c owner state rt).0
  operate (rejects_with ref id cause) rt = (reject_execution ref id cause rt).0
  operate (observes ref id observation) rt = observe ref id observation rt

  promote_node-Operates :
      (fuel : ℕ) (r : Option NodeReadiness) (n : Node I) (ref : Ref) (rt : Runtime I)
      → node_of rt ref ≡ some n
      → Operates (promotes fuel ref) ref rt (promote_node r ref n rt).0
  unfolding promote_node
  promote_node-Operates fuel none n ref rt e = Operates-stays _ ref rt
  promote_node-Operates fuel (some r) n ref rt e = change_in-Operates _ rt n _ ref e (
      with_execution-Leads _ n (promotion r n.execution).0
        (promotion-Offers fuel ref r n.execution))

  promote-Operates :
      (fuel : ℕ) (ref : Ref) (rt : Runtime I)
      → Operates (promotes fuel ref) ref rt (promote fuel ref rt).0
  unfolding promote promote_found
  promote-Operates fuel ref rt = elim (Option-cases (node_of rt ref)) [
    | inl e ↦
        subst (λ x. Operates (promotes fuel ref) ref rt (promote_found fuel x ref rt).0) (sym e)
          (Operates-stays _ ref rt)
    | inr (n, e) ↦
        subst (λ x. Operates (promotes fuel ref) ref rt (promote_found fuel x ref rt).0) (sym e)
          (promote_node-Operates fuel _ n ref rt e)
  ]

  -- An operation on a node leaves it the same action with the same identity and prediction, and every
  -- other node as it is. Its execution stays or takes the move of that operation: a promotion schedules
  -- a deferred one and a deferral takes that back; a key makes a deferred one prepare, and the end of
  -- the preparation defers it again or blocks it for the given cause; an attachment attaches a deferred
  -- or scheduled one to the given candidate and owner; a rejection fails for the given cause what is
  -- deferred, preparing or scheduled; a completion replaces exactly the attachment to its candidate and
  -- owner, by the state that it was made with; an observation moves none.
  pub operate-Moves : (op : Operation) (rt : Runtime I) → Operates op (target op) rt (operate op rt)
  unfolding operate defer bind_action_key finish_preparation attach_execution complete
      reject_execution observe
  operate-Moves (promotes fuel ref) rt = promote-Operates fuel ref rt
  operate-Moves (defer_node ref) rt =
      change-Operates _ rt _ ref (λ n. with_execution-Leads _ n _ (deferral-Offers ref n.execution))
  operate-Moves (binds ref id key) rt = change-Operates _ rt _ ref (λ n. identified-Leads _ id n _ (
      unless_settled-Leads _ (opportunity_of rt n) n _ (
        keyed-Leads _ key n.action_key n _
          (with_execution-Leads _ n _ (preparation-Offers ref id key n.execution)))))
  operate-Moves (finishes ref id cause) rt = change-Operates _ rt _ ref (λ n.
      identified-Leads _ id n _ (
        unless_settled-Leads _ (opportunity_of rt n) n _
          (with_execution-Leads _ n _ (prepared-Offers ref id cause n.execution))))
  operate-Moves (attaches_to ref c owner) rt =
      change-Operates _ rt _ ref
        (λ n. with_execution-Leads _ n _ (attachment-Offers ref c owner n.execution))
  operate-Moves (completes_with ref c owner state) rt =
      change-Operates _ rt _ ref
        (λ n. with_execution-Leads _ n _ (completion-Offers ref c owner state n.execution))
  operate-Moves (rejects_with ref id cause) rt = change-Operates _ rt _ ref (λ n.
      identified-Leads _ id n _
        (with_execution-Leads _ n _ (rejection-Offers ref id cause n.execution)))
  operate-Moves (observes ref id observation) rt = change-Operates _ rt _ ref (λ n.
      identified-Leads _ id n _ (record {
        same_identity = refl;
        same_action = refl;
        same_opportunity = refl;
        move = stays;
      }))
