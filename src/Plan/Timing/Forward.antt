-- ===== src/Plan/Timing/Forward.antt =====
-- src/plan-runtime.ts: the first loop of `recompute` over an order of the graph.
use pi_speculative_action.Prelude.{
  refl, append_assoc, append-nil, All-append, All-has, true, false, Option, none, some, String,
  List, [], ◌∷◌, ◌++◌, All, All-imp, has, has-cons_false, has-append_left, is_some, ◌≡◌, ◌≢◌, sym,
  ◌∙◌, subst, arith, Option-cases, inl, inr,
}
use pi_speculative_action.Plan.Proposal.{Dependency}
use pi_speculative_action.Plan.State.{
  Ref, Ref-discrete, Node, Runtime, node_of, parent, ref_of, set_node, pinned, has_identity,
  opportunity_of, matched_sequence,
}
use pi_speculative_action.Order.Invariant.{Earlier, DepsFirst}
use pi_speculative_action.Plan.Access.{node_of-set_node_self, node_of-set_node_ne}
use pi_speculative_action.Plan.Timing.{forward, forward_one, base_window, timed}
use pi_speculative_action.Plan.Timing.Edges.{
  edges, edges_of, present, present_parents, Rewrites, parent_ne, parent-is_some, edges-set_node,
}
use pi_speculative_action.Plan.Timing.Windows.{
  IsWindow, Follows, WindowOf, after_parents-Later, after_parents-Follows, after_parents-IsWindow,
  base_window-IsWindow, base_window-same,
}

ne_of_has :
    (r s : Ref) (before : List Ref)
    → has Ref-discrete s before ≡ true
    → has Ref-discrete r before ≡ false
    → s ≢ r
ne_of_has r s before h k e = cc (subst (λ x. has Ref-discrete x before ≡ true) e h)

Earlier-snoc :
    (before : List Ref) (r : Ref) (d : Option Ref)
    → Earlier Ref-discrete before d
    → Earlier Ref-discrete (before ++ (r ∷ [])) d
Earlier-snoc before r none h = h
Earlier-snoc before r (some s) h = has-append_left Ref-discrete s before (r ∷ []) h

module _ {I : Type 0} where
  -- A node whose window is in order and follows those of all its dependencies.
  abbrev pub Timed : Runtime I → Option (Node I) → Type 0
  Timed rt none = ⊥
  Timed rt (some n) =
      IsWindow n × All (λ d. Follows (parent rt n.identity.proposal_id d) n) n.action.depends_on

  abbrev pub IsTimed : Runtime I → Ref → Type 0
  IsTimed rt ref = Timed rt (node_of rt ref)

  pub timed-Rewrites :
      (rt : Runtime I) (r : Ref) (old : Node I)
      → node_of rt r ≡ some old
      → Rewrites rt r (timed rt old)
  unfolding timed base_window
  timed-Rewrites rt r old e =
      let m = matched_sequence (opportunity_of rt old) in
      let l =
        after_parents-Later rt old.identity.proposal_id old.action.depends_on (base_window m old) in
      record {
        old = old;
        there = e;
        same_identity = l.same_identity ∙ (base_window-same m old).0;
        same_action = l.same_action ∙ (base_window-same m old).1;
      }

  module _ (rt : Runtime I) (r : Ref) (n : Node I) (w : Rewrites rt r n) where
    parent_kept :
        (proposal : String) (d : Dependency)
        → (is_some (parent rt proposal d) ≡ true → ref_of proposal d ≢ r)
        → parent (set_node r n rt) proposal d ≡ parent rt proposal d
    parent_kept proposal d h = elim (Ref-discrete (ref_of proposal d) r) [
      | yes p ↦ ground (arith, parent-is_some rt r n w proposal d, h)
      | no p ↦ parent_ne rt r n w proposal d p
    ]

    parents_kept :
        (before : List Ref) (proposal : String) (ds : List Dependency)
        → has Ref-discrete r before ≡ false
        → All (Earlier Ref-discrete before) (present_parents rt proposal ds)
        → All (λ d. parent (set_node r n rt) proposal d ≡ parent rt proposal d) ds
    unfolding present_parents present
    parents_kept before proposal [] k h = tt
    parents_kept before proposal (d ∷ ds) k h = elim (Option-cases (parent rt proposal d)) [
      | inl e ↦ (
        parent_kept proposal d (λ s. cc),
        parents_kept before proposal ds k (rw (e, present) at h),
      )
      | inr (above, e) ↦
          let h' = rw (e, present) at h in
          (
            parent_kept proposal d (λ s. ne_of_has r (ref_of proposal d) before h'.0 k),
            parents_kept before proposal ds k h'.1,
          )
    ]

    Follows-kept :
        (x : Node I) (proposal : String) (ds : List Dependency)
        → All (λ d. parent (set_node r n rt) proposal d ≡ parent rt proposal d) ds
        → All (λ d. Follows (parent rt proposal d) x) ds
        → All (λ d. Follows (parent (set_node r n rt) proposal d) x) ds
    Follows-kept x proposal [] same f = tt
    Follows-kept x proposal (d ∷ ds) same f = (rw same.0 f.0, Follows-kept x proposal ds same.1 f.1)

    -- A node that is timed stays so if neither it nor one of its parents is written.
    Timed-kept :
        (before : List Ref) (m : Option (Node I))
        → has Ref-discrete r before ≡ false
        → All (Earlier Ref-discrete before) (edges_of rt m)
        → Timed rt m
        → Timed (set_node r n rt) m
    unfolding edges_of
    Timed-kept before none k h t = t
    Timed-kept before (some x) k h t = (
      t.0,
      Follows-kept x x.identity.proposal_id x.action.depends_on
          (parents_kept before x.identity.proposal_id x.action.depends_on k h) t.1,
    )

  -- What is known of the nodes that the loop has passed.
  Done : Runtime I → List Ref → Ref → Type 0
  Done rt before s = IsTimed rt s × All (Earlier Ref-discrete before) (edges rt s)

  Done-kept :
      (rt : Runtime I) (r : Ref) (n : Node I) (w : Rewrites rt r n) (before xs : List Ref)
      → has Ref-discrete r before ≡ false
      → has Ref-discrete r xs ≡ false
      → All (Done rt before) xs
      → All (Done (set_node r n rt) (before ++ (r ∷ []))) xs
  unfolding Done edges
  Done-kept rt r n w before [] k j h = tt
  Done-kept rt r n w before (s ∷ xs) k j h =
      let (other, rest) = has-cons_false Ref-discrete r s xs j in
      (
        (
          rw (node_of-set_node_ne rt r n s other)
              (Timed-kept rt r n w before (node_of rt s) k h.0.1 h.0.0),
          subst (λ g. All (Earlier Ref-discrete (before ++ (r ∷ []))) (g s))
              (sym (edges-set_node rt r n w))
              (All-imp _ _ (Earlier-snoc before r) (edges rt s) h.0.1),
        ),
        Done-kept rt r n w before xs k rest h.1,
      )

  pinned-some :
      (cross : Option (String × String)) (m : Option (Node I)) {n : Node I}
      → pinned cross m ≡ some n
      → m ≡ some n
  unfolding pinned has_identity
  pinned-some none m h = h
  pinned-some (some (p, i)) none h = h
  pinned-some (some (p, i)) (some x) h = ground arith

  windows_of :
      (rt : Runtime I) (before : List Ref) (proposal : String) (ds : List Dependency)
      → All (λ s. WindowOf (node_of rt s)) before
      → All (Earlier Ref-discrete before) (present_parents rt proposal ds)
      → All (λ d. WindowOf (parent rt proposal d)) ds
  unfolding present_parents present parent
  windows_of rt before proposal [] k h = tt
  windows_of rt before proposal (d ∷ ds) k h = elim (Option-cases (parent rt proposal d)) [
    | inl e ↦ (rw e tt, windows_of rt before proposal ds k (rw (e, present) at h))
    | inr (above, e) ↦
        let h' = rw (e, present) at h in
        let there = pinned-some d.cross (node_of rt (ref_of proposal d)) e in
        (
          rw e (
              subst WindowOf there (
                All-has Ref-discrete (λ s. WindowOf (node_of rt s)) (ref_of proposal d) before k
                  h'.0)),
          windows_of rt before proposal ds k h'.1,
        )
  ]

  WindowOf-Timed : (rt : Runtime I) (m : Option (Node I)) → Timed rt m → WindowOf m
  WindowOf-Timed rt none h = tt
  WindowOf-Timed rt (some n) h = h.0

  -- The node of the turn.
  timed-Timed :
      (rt : Runtime I) (r : Ref) (old : Node I) (before : List Ref)
      → node_of rt r ≡ some old
      → has Ref-discrete r before ≡ false
      → All (Earlier Ref-discrete before) (edges rt r)
      → All (Done rt before) before
      → IsTimed (set_node r (timed rt old) rt) r
  unfolding Done edges timed timed-Rewrites
  timed-Timed rt r old before e k h d =
      let n : Node I = timed rt old in
      let w = timed-Rewrites rt r old e in
      let rt' : Runtime I = set_node r n rt in
      let h' : All (Earlier Ref-discrete before)
          (present_parents rt old.identity.proposal_id old.action.depends_on) =
        rw (e, edges_of) at h in
      let f : All (λ d. Follows (parent rt' old.identity.proposal_id d) n) old.action.depends_on =
        Follows-kept rt r n w n old.identity.proposal_id old.action.depends_on
          (parents_kept rt r n w before old.identity.proposal_id old.action.depends_on k h')
          (after_parents-Follows rt old.identity.proposal_id old.action.depends_on
            (base_window (matched_sequence (opportunity_of rt old)) old)) in
      let win : IsWindow n =
        after_parents-IsWindow rt old.identity.proposal_id old.action.depends_on
          (base_window (matched_sequence (opportunity_of rt old)) old)
          (windows_of rt before old.identity.proposal_id old.action.depends_on
            (All-imp _ _ (λ s x. WindowOf-Timed rt (node_of rt s) x.0) before d) h')
          (base_window-IsWindow (matched_sequence (opportunity_of rt old)) old) in
      rw (node_of-set_node_self rt r n e) (
        win,
        subst (λ i. All (λ d. Follows (parent rt' i.proposal_id d) n) n.action.depends_on)
            (sym w.same_identity)
            (subst (λ a. All (λ d. Follows (parent rt' old.identity.proposal_id d) n) a.depends_on)
              (sym w.same_action) f),
      )

  is_some_kept :
      (rt : Runtime I) (r : Ref) (n : Node I) (w : Rewrites rt r n) (xs : List Ref)
      → All (λ s. is_some (node_of rt s) ≡ true) xs
      → All (λ s. is_some (node_of (set_node r n rt) s) ≡ true) xs
  is_some_kept rt r n w [] h = tt
  is_some_kept rt r n w (s ∷ xs) h = (
    elim (Ref-discrete s r) [
      | yes p ↦ rw (p, node_of-set_node_self rt r n w.there, is_some) refl
      | no p ↦ rw (node_of-set_node_ne rt r n s p) h.0
    ],
    is_some_kept rt r n w xs h.1,
  )

  forward_one-some :
      (rt : Runtime I) (r : Ref) (old : Node I)
      → node_of rt r ≡ some old
      → forward_one r rt ≡ set_node r (timed rt old) rt
  unfolding forward_one
  forward_one-some rt r old e = rw (forward_one, e) refl

  forward_Timed :
      (before refs : List Ref) (rt : Runtime I)
      → DepsFirst Ref-discrete (edges rt) before refs
      → All (λ s. is_some (node_of rt s) ≡ true) refs
      → All (Done rt before) before
      → All (IsTimed (forward refs rt)) (before ++ refs)
  unfolding forward Done
  forward_Timed before [] rt h there done =
      rw (append-nil before) (All-imp _ _ (λ s x. x.0) before done)
  forward_Timed before (r ∷ refs) rt h there done = elim (Option-cases (node_of rt r)) [
    | inl e ↦ cc (rw e at there.0)
    | inr (old, e) ↦
        let n : Node I = timed rt old in
        let w = timed-Rewrites rt r old e in
        let rt' : Runtime I = set_node r n rt in
        let same : edges rt' ≡ edges rt = edges-set_node rt r n w in
        let here : Done rt' (before ++ (r ∷ [])) r = (
          timed-Timed rt r old before e h.0 h.1 done,
          subst (λ g. All (Earlier Ref-discrete (before ++ (r ∷ []))) (g r)) (sym same)
              (All-imp _ _ (Earlier-snoc before r) (edges rt r) h.1),
        ) in
        subst (λ x. All (IsTimed (forward refs x)) (before ++ (r ∷ refs)))
          (sym (forward_one-some rt r old e))
          (subst (λ l. All (IsTimed (forward refs rt')) l) (append_assoc before (r ∷ []) refs)
            (forward_Timed (before ++ (r ∷ [])) refs rt'
              (subst (λ g. DepsFirst Ref-discrete g (before ++ (r ∷ [])) refs) (sym same) h.2)
              (is_some_kept rt r n w refs there.1)
              (All-append _ before (r ∷ []) (Done-kept rt r n w before before h.0 h.0 done)
                (here, tt))))
  ]

  -- After the first loop over an order that puts every node behind its dependencies, the window of
  -- every node is in order, lies behind the windows of its parents by the batch that a parent takes,
  -- and is valid only if its parents are there and valid.
  pub forward-IsTimed :
      (refs : List Ref) (rt : Runtime I)
      → DepsFirst Ref-discrete (edges rt) [] refs
      → All (λ s. is_some (node_of rt s) ≡ true) refs
      → All (IsTimed (forward refs rt)) refs
  forward-IsTimed refs rt h there = forward_Timed [] refs rt h there tt
