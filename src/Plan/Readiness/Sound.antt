-- ===== src/Plan/Readiness/Sound.antt =====
-- src/plan-runtime.ts: `dependencyReadiness` has seen all that its node depends on.
use pi_speculative_action.Prelude.{
  ℕ, zero, suc, Bool, true, Option, none, some, List, [], ◌∷◌, ◌++◌, All, All-imp, All-split, has,
  has-cons, has-cons_self, ◌≡◌, ◌≢◌, ◌⊎◌, refl, sym, ◌∙◌, subst, arith, some-injective, inl, inr,
  Bool-cases, Option-cases,
}
use pi_speculative_action.Plan.Proposal.{Dependency}
use pi_speculative_action.Plan.State.{Ref, Ref-discrete, Node, Runtime, node_of, ref_of}
use pi_speculative_action.Plan.Readiness.{
  Readiness, ready, blocked, same_ref, visit_node, follow, dependency_readiness,
}
use pi_speculative_action.Plan.Readiness.Reaching.{
  Follows, state_of, Reaches, here, above, IsOpen, IsChecked, check_dependencies-IsChecked,
}

module _ {I : Type 0} (rt : Runtime I) (root : Ref) (matching_now : Bool) where
  -- A node is visited or waits on the stack.
  abbrev Held : List Ref → List Ref → Ref → Type 0
  Held visited stack a = (has Ref-discrete a visited ≡ true) ⊎ (has Ref-discrete a stack ≡ true)

  record IsDone (visited stack : List Ref) (a : Ref) : Type 0 where
    node : Node I
    there : node_of rt a ≡ some node
    valid : node.valid_dependencies ≡ true
    passes :
        All
          (λ d.
            Follows rt root matching_now d
            → (state_of rt root matching_now a node d ≢ blocked)
              × Held visited stack (ref_of node.identity.proposal_id d))
          node.action.depends_on

  IsDone-imp :
      (visited stack visited' stack' : List Ref)
      → ((x : Ref) → Held visited stack x → Held visited' stack' x)
      → (a : Ref) → IsDone visited stack a
      → IsDone visited' stack' a
  IsDone-imp visited stack visited' stack' imp a d = record {
    node = d.node;
    there = d.there;
    valid = d.valid;
    passes = All-imp _ _ (λ e h f. ((h f).0, imp _ (h f).1)) d.node.action.depends_on d.passes;
  }

  pub record IsVisited (ref : Ref) (so_far : Readiness) (stack : List Ref) (so_far' : Readiness)
      (stack' : List Ref) : Type 0 where
    pub node : Node I
    pub there : node_of rt ref ≡ some node
    pub valid : node.valid_dependencies ≡ true
    pub checked :
        IsChecked rt
          (same_ref ref root)
          matching_now
          node.identity.proposal_id
          node.action.depends_on
          so_far
          stack
          so_far'
          stack'

  pub visit_node-IsVisited :
      (ref : Ref) (found : Option (Node I)) (so_far : Readiness) (stack : List Ref)
      {so_far' : Readiness} {stack' : List Ref}
      → node_of rt ref ≡ found
      → visit_node rt root matching_now ref found so_far stack ≡ some (so_far', stack')
      → IsVisited ref so_far stack so_far' stack'
  unfolding visit_node
  visit_node-IsVisited ref none so_far stack e h = cc
  visit_node-IsVisited ref (some node) so_far stack e h =
      elim (Bool-cases node.valid_dependencies) [
        | inl v ↦ record {
          node = node;
          there = e;
          valid = v;
          checked =
              check_dependencies-IsChecked rt (same_ref ref root) matching_now
                node.identity.proposal_id node.action.depends_on so_far stack
                (rw (v, visit_node) at h);
        }
        | inr v ↦ cc (rw (v, visit_node) at h)
      ]

  IsVisited-IsDone :
      (ref : Ref) (so_far so_far' : Readiness) (visited stack stack' : List Ref)
      → IsVisited ref so_far stack so_far' stack'
      → IsDone visited stack' ref
  unfolding state_of
  IsVisited-IsDone ref so_far so_far' visited stack stack' v = record {
    node = v.node;
    there = v.there;
    valid = v.valid;
    passes =
        All-imp _ _ (λ d h f. ((h f).0, inr (h f).1)) v.node.action.depends_on v.checked.pushed;
  }

  -- The nodes that were visited at the end.
  record IsFound (visited stack : List Ref) : Type 0 where
    final : List Ref
    holds : (a : Ref) → Held visited stack a → has Ref-discrete a final ≡ true
    done : (a : Ref) → has Ref-discrete a final ≡ true → IsDone final [] a

  Held-visited :
      (visited stack : List Ref) (ref : Ref)
      → has Ref-discrete ref visited ≡ true
      → (x : Ref) → Held visited (ref ∷ stack) x
      → Held visited stack x
  unfolding has
  Held-visited visited stack ref e x (inl k) = inl k
  Held-visited visited stack ref e x (inr k) = elim (Ref-discrete x ref) [
    | yes p ↦ inl (subst (λ y. has Ref-discrete y visited ≡ true) (sym p) e)
    | no n ↦ inr (ground arith)
  ]

  Held-popped :
      (visited stack stack' : List Ref) (ref : Ref)
      → ((a : Ref) → has Ref-discrete a stack ≡ true → has Ref-discrete a stack' ≡ true)
      → (x : Ref) → Held visited (ref ∷ stack) x
      → Held (ref ∷ visited) stack' x
  unfolding has
  Held-popped visited stack stack' ref keeps x (inl k) = inl (has-cons Ref-discrete x ref visited k)
  Held-popped visited stack stack' ref keeps x (inr k) = elim (Ref-discrete x ref) [
    | yes p ↦ inl (
        subst (λ y. has Ref-discrete y (ref ∷ visited) ≡ true) (sym p)
          (has-cons_self Ref-discrete ref visited))
    | no n ↦ inr (keeps x (ground arith))
  ]

  visited-IsDone :
      (ref : Ref) (so_far so_far' : Readiness) (visited stack stack' : List Ref)
      → IsVisited ref so_far stack so_far' stack'
      → ((a : Ref) → has Ref-discrete a visited ≡ true → IsDone visited (ref ∷ stack) a)
      → (a : Ref) → has Ref-discrete a (ref ∷ visited) ≡ true
      → IsDone (ref ∷ visited) stack' a
  unfolding has
  visited-IsDone ref so_far so_far' visited stack stack' v d a k = elim (Ref-discrete a ref) [
    | yes p ↦
        subst (IsDone (ref ∷ visited) stack') (sym p)
          (IsVisited-IsDone ref so_far so_far' (ref ∷ visited) stack stack' v)
    | no n ↦
        IsDone-imp visited (ref ∷ stack) (ref ∷ visited) stack'
          (Held-popped visited stack stack' ref v.checked.keeps) a (d a (ground arith))
  ]

  follow-IsFound :
      (fuel : ℕ) (visited stack : List Ref) (so_far : Readiness) {r : Readiness}
      → ((a : Ref) → has Ref-discrete a visited ≡ true → IsDone visited stack a)
      → follow fuel rt root matching_now visited stack so_far ≡ some r
      → r ≢ blocked
      → IsFound visited stack
  unfolding follow has
  follow-IsFound zero visited stack so_far d h n = cc
  follow-IsFound (suc fuel) visited [] so_far d h n = record {
    final = visited;
    holds = λ a k. elim k [ inl x ↦ x | inr x ↦ cc ];
    done = d;
  }
  follow-IsFound (suc fuel) visited (ref ∷ stack) so_far d h n =
      elim (Bool-cases (has Ref-discrete ref visited)) [
        | inl e ↦
            let shift = Held-visited visited stack ref e in
            let c =
              follow-IsFound fuel visited stack so_far
                (λ a k. IsDone-imp visited (ref ∷ stack) visited stack shift a (d a k))
                (rw (e, follow) at h) n in
            record { final = c.final; holds = λ a k. c.holds a (shift a k); done = c.done }
        | inr e ↦
            elim (Option-cases
              (visit_node rt root matching_now ref (node_of rt ref) so_far stack)) [
                | inl w ↦ absurd (n (sym (some-injective _ _ (rw (e, w, follow) at h))))
                | inr ((so_far', stack'), w) ↦
                    let v = visit_node-IsVisited ref (node_of rt ref) so_far stack refl w in
                    let c =
                      follow-IsFound fuel (ref ∷ visited) stack' so_far'
                        (visited-IsDone ref so_far so_far' visited stack stack' v d)
                        (rw (e, w, follow) at h) n in
                    record {
                      final = c.final;
                      holds = λ a k.
                          c.holds a (Held-popped visited stack stack' ref v.checked.keeps a k);
                      done = c.done;
                    }
              ]
      ]

  pass_at :
      (ref : Ref) (node : Node I) (final : List Ref)
      → IsDone final [] ref
      → node_of rt ref ≡ some node
      → (before : List Dependency) (d : Dependency) (after : List Dependency)
      → node.action.depends_on ≡ before ++ (d ∷ after)
      → Follows rt root matching_now d
      → has Ref-discrete (ref_of node.identity.proposal_id d) final ≡ true
  unfolding has
  pass_at ref node final done e before d after l f =
      let same : done.node ≡ node = some-injective _ _ (sym done.there ∙ e) in
      let passes =
        subst
          (λ n.
            All
              (λ d.
                Follows rt root matching_now d
                → (state_of rt root matching_now ref n d ≢ blocked)
                  × Held final [] (ref_of n.identity.proposal_id d))
              n.action.depends_on)
          same done.passes in
      elim (((All-split _ before (d ∷ after) (subst (All _) l passes)).1.0 f).1) [
        | inl k ↦ k
        | inr k ↦ cc
      ]

  Reaches-found :
      (c : IsFound [] (root ∷ []))
      → (a : Ref) → Reaches rt root matching_now a
      → has Ref-discrete a c.final ≡ true
  Reaches-found c _ here = c.holds root (inr (has-cons_self Ref-discrete root []))
  Reaches-found c _ (above ref node r e before d after l f) =
      pass_at ref node c.final (c.done ref (Reaches-found c ref r)) e before d after l f

  IsDone-IsOpen : (final : List Ref) (a : Ref) → IsDone final [] a → IsOpen rt root matching_now a
  IsDone-IsOpen final a d = record {
    node = d.node;
    there = d.there;
    valid = d.valid;
    passes = All-imp _ _ (λ e h f. (h f).0) d.node.action.depends_on d.passes;
  }

  -- A node that is not blocked depends on open nodes only.
  pub dependency_readiness-IsOpen :
      (fuel : ℕ) {r : Readiness}
      → dependency_readiness fuel rt root matching_now ≡ some r
      → r ≢ blocked
      → (a : Ref) → Reaches rt root matching_now a
      → IsOpen rt root matching_now a
  unfolding dependency_readiness has
  dependency_readiness-IsOpen fuel h n a r =
      let c = follow-IsFound fuel [] (root ∷ []) ready (λ a k. absurd cc) h n in
      IsDone-IsOpen c.final a (c.done a (Reaches-found c a r))
