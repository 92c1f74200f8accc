-- ===== src/Plan/Readiness/Reaching.antt =====
-- src/plan-runtime.ts: what `dependencyReadiness` reaches from a node, and its inner loop.
use pi_speculative_action.Prelude.{
  ◌+◌, ◌≤◌, Bool, true, false, ◌&&◌, none, some, String, List, [], ◌∷◌, ◌++◌, subst, ap, ◌⊎◌, All,
  has, has-cons, has-cons_self, length, ◌≡◌, ◌≢◌, refl, arith, some-injective, inl, inr, Bool-cases,
  if◌then◌else◌,
}
use pi_speculative_action.Plan.Proposal.{Dependency}
use pi_speculative_action.Plan.State.{Ref, Ref-discrete, Node, Runtime, node_of, parent, ref_of}
use pi_speculative_action.Plan.Readiness.{
  Readiness, ready, waiting, blocked, is_resource, same_ref, dependency_state, check_dependencies,
}

Readiness-cases : (r : Readiness) → (r ≡ ready) ⊎ ((r ≡ waiting) ⊎ (r ≡ blocked))
Readiness-cases ready = inl refl
Readiness-cases waiting = inr (inl refl)
Readiness-cases blocked = inr (inr refl)

module _ {I : Type 0} (rt : Runtime I) (root : Ref) (matching_now : Bool) where
  -- A dependency on more than a resource.
  abbrev pub Follows : Dependency → Type 0
  Follows d = is_resource d.condition ≡ false

  -- The state of a dependency of a node.
  unfoldable pub state_of : Ref → Node I → Dependency → Readiness
  state_of ref node d =
      dependency_state rt (parent rt node.identity.proposal_id d) d
        (matching_now && same_ref ref root)

  -- The nodes that the dependencies lead to.
  pub data Reaches : Ref → Type 0 where
    here : Reaches root
    above :
        (ref : Ref) (node : Node I)
        → Reaches ref
        → node_of rt ref ≡ some node
        → (before : List Dependency) (d : Dependency) (after : List Dependency)
        → node.action.depends_on ≡ before ++ (d ∷ after)
        → Follows d
        → Reaches (ref_of node.identity.proposal_id d)

  -- A node that lets what depends on it pass.
  pub record IsOpen (ref : Ref) : Type 0 where
    pub node : Node I
    pub there : node_of rt ref ≡ some node
    pub valid : node.valid_dependencies ≡ true
    pub passes : All (λ d. Follows d → state_of ref node d ≢ blocked) node.action.depends_on

module _ {I : Type 0} (rt : Runtime I) (is_root : Bool) (matching_now : Bool) (p : String) where
  abbrev pub state : Dependency → Readiness
  state d = dependency_state rt (parent rt p d) d (matching_now && is_root)

  abbrev Pushed : List Ref → Dependency → Type 0
  Pushed stack d =
      is_resource d.condition ≡ false
      → (state d ≢ blocked) × (has Ref-discrete (ref_of p d) stack ≡ true)

  abbrev pub AllReady : List Dependency → Type 0
  AllReady = All (λ d. is_resource d.condition ≡ false → state d ≡ ready)

  -- Where an entry of the stack comes from.
  abbrev Origin : List Dependency → List Ref → Ref → Type 0
  Origin ds stack a =
      (has Ref-discrete a stack ≡ true)
      ⊎ ((before : List Dependency) × (d : Dependency) × (after : List Dependency) × (ds
            ≡ before ++ (d ∷ after))
          × (is_resource d.condition ≡ false)
          × (a ≡ ref_of p d))

  -- What the loop over the dependencies has shown if it goes through.
  pub record IsChecked (ds : List Dependency) (so_far : Readiness) (stack : List Ref)
      (so_far' : Readiness) (stack' : List Ref) : Type 0 where
    pub keeps : (a : Ref) → has Ref-discrete a stack ≡ true → has Ref-discrete a stack' ≡ true
    pub pushed : All (Pushed stack') ds
    pub short : length stack' ≤ length stack + length ds
    pub origin : (a : Ref) → has Ref-discrete a stack' ≡ true → Origin ds stack a
    pub unblocked : so_far ≢ blocked → so_far' ≢ blocked
    pub was_waiting : so_far' ≡ waiting → (so_far ≡ waiting) ⊎ ((is_root ≡ true) × ¬ AllReady ds)
    pub was_ready : so_far' ≡ ready → so_far ≡ ready
    pub all_ready : so_far' ≡ ready → is_root ≡ true → AllReady ds

  later :
      (d : Dependency) (ds : List Dependency) (stack : List Ref) (a : Ref)
      → Origin ds stack a
      → Origin (d ∷ ds) stack a
  later d ds stack a (inl k) = inl k
  later d ds stack a (inr (before, e, after, l, f, q)) =
      inr (d ∷ before, e, after, ap (λ xs. d ∷ xs) l, f, q)

  first :
      (d : Dependency) (ds : List Dependency) (stack : List Ref) (a : Ref)
      → is_resource d.condition ≡ false
      → has Ref-discrete a (ref_of p d ∷ stack) ≡ true
      → Origin (d ∷ ds) stack a
  unfolding has
  first d ds stack a f k = elim (Ref-discrete a (ref_of p d)) [
    | yes q ↦ inr ([], d, ds, refl, f, q)
    | no n ↦ inl (ground arith)
  ]

  skip-IsChecked :
      (d : Dependency) (ds : List Dependency) (so_far : Readiness) (stack : List Ref)
      {so_far' : Readiness} {stack' : List Ref}
      → is_resource d.condition ≡ true
      → IsChecked ds so_far stack so_far' stack'
      → IsChecked (d ∷ ds) so_far stack so_far' stack'
  skip-IsChecked d ds so_far stack e c = record {
    keeps = c.keeps;
    pushed = (λ f. absurd cc, c.pushed);
    short = omega (arith, c.short);
    origin = λ a k. later d ds stack a (c.origin a k);
    unblocked = c.unblocked;
    was_waiting = λ k. elim (c.was_waiting k) [ inl w ↦ inl w | inr (b, n) ↦ inr (b, λ h. n h.1) ];
    was_ready = c.was_ready;
    all_ready = λ k b. (λ f. absurd cc, c.all_ready k b);
  }

  push-IsChecked :
      (d : Dependency) (ds : List Dependency) (so_far next : Readiness) (stack : List Ref)
      {so_far' : Readiness} {stack' : List Ref}
      → is_resource d.condition ≡ false
      → state d ≢ blocked
      → (next ≡ ready → (so_far ≡ ready) × (is_root ≡ true → state d ≡ ready))
      → (so_far ≢ blocked → next ≢ blocked)
      → (next ≡ waiting → (so_far ≡ waiting) ⊎ ((is_root ≡ true) × (state d ≡ waiting)))
      → IsChecked ds next (ref_of p d ∷ stack) so_far' stack'
      → IsChecked (d ∷ ds) so_far stack so_far' stack'
  unfolding has
  push-IsChecked d ds so_far next stack follows n r u w c = record {
    keeps = λ a k. c.keeps a (has-cons Ref-discrete a (ref_of p d) stack k);
    pushed =
        (λ f. (n, c.keeps (ref_of p d) (has-cons_self Ref-discrete (ref_of p d) stack)), c.pushed);
    short = omega (arith, c.short);
    origin = λ a k. elim (c.origin a k) [
      | inl h ↦ first d ds stack a follows h
      | inr o ↦ later d ds stack a (inr o)
    ];
    unblocked = λ k. c.unblocked (u k);
    was_waiting = λ k. elim (c.was_waiting k) [
      | inl h ↦ elim (w h) [ inl x ↦ inl x | inr (b, x) ↦ inr (b, λ all. cc (all.0 follows)) ]
      | inr (b, h) ↦ inr (b, λ all. h all.1)
    ];
    was_ready = λ k. (r (c.was_ready k)).0;
    all_ready = λ k b. (λ f. (r (c.was_ready k)).1 b, c.all_ready k b);
  }

  pub check_dependencies-IsChecked :
      (ds : List Dependency) (so_far : Readiness) (stack : List Ref) {so_far' : Readiness}
      {stack' : List Ref}
      → check_dependencies rt is_root matching_now p ds so_far stack ≡ some (so_far', stack')
      → IsChecked ds so_far stack so_far' stack'
  unfolding check_dependencies
  check_dependencies-IsChecked [] so_far stack {so_far' = s'} {stack' = k'} h =
      let e = some-injective _ _ h in
      subst (λ r. IsChecked [] so_far stack r.0 r.1) e
        (record {
          keeps = λ a k. k;
          pushed = tt;
          short = omega arith;
          origin = λ a k. inl k;
          unblocked = λ k. k;
          was_waiting = λ k. inl k;
          was_ready = λ k. k;
          all_ready = λ k b. tt;
        })
  check_dependencies-IsChecked (d ∷ ds) so_far stack h =
      elim (Bool-cases (is_resource d.condition)) [
        | inl e ↦
            skip-IsChecked d ds so_far stack e
              (check_dependencies-IsChecked ds so_far stack (rw (e, check_dependencies) at h))
        | inr e ↦ elim (Readiness-cases (state d)) [
          | inl w ↦
              push-IsChecked d ds so_far so_far stack e (λ b. cc) (λ k. (k, λ b. w)) (λ k. k)
                (λ k. inl k)
                (check_dependencies-IsChecked ds so_far (ref_of p d ∷ stack)
                  (rw (e, w, check_dependencies) at h))
          | inr (inl w) ↦
              push-IsChecked d ds so_far (if is_root then waiting else so_far) stack e (λ b. cc)
                (λ k. ground arith) (λ k. ground arith) (λ k. ground arith)
                (check_dependencies-IsChecked ds (if is_root then waiting else so_far)
                  (ref_of p d ∷ stack) (rw (e, w, check_dependencies) at h))
          | inr (inr w) ↦ cc (rw (e, w, check_dependencies) at h)
        ]
      ]

  -- It stops at a dependency that is blocked.
  pub check_dependencies-none :
      (ds : List Dependency) (so_far : Readiness) (stack : List Ref)
      → check_dependencies rt is_root matching_now p ds so_far stack ≡ none
      → ¬ All (λ d. is_resource d.condition ≡ false → state d ≢ blocked) ds
  unfolding check_dependencies
  check_dependencies-none [] so_far stack h = cc
  check_dependencies-none (d ∷ ds) so_far stack h = λ (passes, rest).
      elim (Bool-cases (is_resource d.condition)) [
        | inl e ↦ check_dependencies-none ds so_far stack (rw (e, check_dependencies) at h) rest
        | inr e ↦ elim (Readiness-cases (state d)) [
          | inl w ↦
              check_dependencies-none ds so_far (ref_of p d ∷ stack)
                (rw (e, w, check_dependencies) at h) rest
          | inr (inl w) ↦
              check_dependencies-none ds (if is_root then waiting else so_far) (ref_of p d ∷ stack)
                (rw (e, w, check_dependencies) at h) rest
          | inr (inr w) ↦ passes e w
        ]
      ]
