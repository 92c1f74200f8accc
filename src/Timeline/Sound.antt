-- ===== src/Timeline/Sound.antt =====
-- src/timeline-computation.ts: what an accepted computation has, and that the order comes to an end.
use pi_speculative_action.Timeline.{
  Text, text_discrete, Node, Input, Computation, RawNode, RawComputation, collect, node_of, own_all,
  dependencies, known, node_inputs, returned, version_of, identity, is_nil, arrange,
  normalize_timeline_computation, traverse, noted,
}
use pi_speculative_action.Order.{rejected, Outcome, dependency_order, finished, exhausted}
use pi_speculative_action.Order.Invariant.{DepsFirst, Earlier}
use pi_speculative_action.Order.Sound.{dependency_order-DepsFirst}
use pi_speculative_action.Order.Complete.{Known, IsClosed, turns, dependency_order-ne-exhausted}
use pi_speculative_action.Prelude.{
  has-keys, inr, inl, Bool-cases, if◌then◌else◌, All-reverse, get-put_self, refl, ap, All-imp, ◌∙◌,
  get-put_ne, some-injective, sym, subst, ℕ, ◌≡◌, ◌≢◌, Bool, true, false, Option, none, some, List,
  [], ◌∷◌, ◌++◌, map, reverse, length, has, All, get, put, keys, values, is_some, >>=-eq-some,
  require, ◌==◌, not,
}
use pi_speculative_action.Timeline.Owners.{Owns, own_all-Owns}

-- Each node once, behind the nodes of all its inputs.
abbrev pub Ordered : List Text → List Node → Type 0
Ordered before [] = Unit
Ordered before (n ∷ ns) =
    (has text_discrete n.id before ≡ false)
    × All (λ i. has text_discrete i.id before ≡ true) n.inputs
    × Ordered (before ++ (n.id ∷ [])) ns

-- The nodes stand under their identities.
abbrev Indexed : List (Text × Node) → Type 0
Indexed by_id = (id : Text) (n : Node) → get text_discrete id by_id ≡ some n → n.id ≡ id

All-map {ℓ κ ι} :
    {A : Type ℓ} {B : Type κ} (P : B → Type ι) (f : A → B) (xs : List A)
    → All P (map f xs)
    → All (λ x. P (f x)) xs
All-map P f [] h = tt
All-map P f (x ∷ xs) h = (h.0, All-map P f xs h.1)

Indexed-put :
    (by_id : List (Text × Node)) (n : Node)
    → Indexed by_id
    → Indexed (put text_discrete n.id n by_id)
Indexed-put by_id n h id m e = elim (text_discrete id n.id) [
  | yes p ↦
      ap (λ x. x.id)
        (some-injective m n (
          sym e
          ∙ ap (λ x. get text_discrete x (put text_discrete n.id n by_id)) p
          ∙ get-put_self text_discrete n.id n by_id))
      ∙ sym p
  | no p ↦ h id m (sym (get-put_ne text_discrete n.id id n by_id p) ∙ e)
]

collect-Indexed :
    (items : List (Option RawNode)) (by_id : List (Text × Node)) (origins : List (Text × ℕ))
    {by_id' : List (Text × Node)}
    → Indexed by_id
    → collect items by_id origins ≡ some by_id'
    → Indexed by_id'
unfolding collect
collect-Indexed [] by_id origins {by_id'} h e = subst Indexed (some-injective by_id by_id' e) h
collect-Indexed (item ∷ items) by_id origins h e =
    let (raw, _, e1) = >>=-eq-some item _ e in
    let (node, _, e2) = >>=-eq-some (node_of raw) _ e1 in
    let (_, _, e3) = >>=-eq-some (require (not (is_some (get text_discrete node.id by_id)))) _ e2 in
    let (origins', _, e4) = >>=-eq-some (noted node.clock node.time_origin origins) _ e3 in
    collect-Indexed items (put text_discrete node.id node by_id) origins' (Indexed-put by_id node h)
      e4

Earlier-known :
    (by_id : List (Text × Node)) (before : List Text) (id : Text)
    → Earlier text_discrete before (known by_id id)
    → has text_discrete id before ≡ true
unfolding known
Earlier-known by_id before id h = by_test (is_some (get text_discrete id by_id)) h
  where
    by_test :
        (b : Bool)
        → Earlier text_discrete before (if b then some id else none)
        → has text_discrete id before ≡ true
    by_test true h = h
    by_test false h = absurd h

Earlier-inputs :
    (by_id : List (Text × Node)) (before : List Text) (id : Text) (n : Node)
    → get text_discrete id by_id ≡ some n
    → All (Earlier text_discrete before) (dependencies by_id id)
    → All (λ i. has text_discrete i.id before ≡ true) n.inputs
unfolding dependencies node_inputs
Earlier-inputs by_id before id n e h =
    let k : All (Earlier text_discrete before) (map (λ i. known by_id i.id) (reverse n.inputs)) =
      subst
        (λ o.
          All (Earlier text_discrete before)
            (map (λ i. known by_id i.id) (reverse (node_inputs o))))
        e h in
    All-imp _ _ (λ i. Earlier-known by_id before i.id) n.inputs
      (All-reverse (λ i. Earlier text_discrete before (known by_id i.id)) n.inputs
        (All-map (Earlier text_discrete before) (λ i. known by_id i.id) (reverse n.inputs) k))

arranged :
    (by_id : List (Text × Node)) (before order : List Text) {nodes : List Node}
    → Indexed by_id
    → DepsFirst text_discrete (dependencies by_id) before order
    → traverse (λ id. get text_discrete id by_id) order ≡ some nodes
    → Ordered before nodes × (map (λ n. n.id) nodes ≡ order)
unfolding traverse
arranged by_id before [] {nodes} h d e =
    subst (λ t. Ordered before t × (map (λ n. n.id) t ≡ [])) (some-injective [] nodes e) (tt, refl)
arranged by_id before (id ∷ order) {nodes} h d e =
    let (n, e1, f) = >>=-eq-some (get text_discrete id by_id) _ e in
    let (ns, e2, g) = >>=-eq-some (traverse (λ x. get text_discrete x by_id) order) _ f in
    let q = h id n e1 in
    let (o, m) = arranged by_id (before ++ (id ∷ [])) order h d.2 e2 in
    let inputs : All (λ i. has text_discrete i.id before ≡ true) n.inputs =
      Earlier-inputs by_id before id n e1 d.1 in
    subst (λ t. Ordered before t × (map (λ x. x.id) t ≡ id ∷ order))
      (some-injective (n ∷ ns) nodes g)
      (
        (
          subst (λ x. has text_discrete x before ≡ false) (sym q) d.0,
          inputs,
          subst (λ x. Ordered (before ++ (x ∷ [])) ns) (sym q) o,
        ),
        ap (λ x. x ∷ map (λ y. y.id) ns) q ∙ ap (λ t. id ∷ t) m,
      )

All-get :
    (P : Node → Type 0) (by_id : List (Text × Node)) (id : Text) (n : Node)
    → All P (values by_id)
    → get text_discrete id by_id ≡ some n
    → P n
unfolding get
All-get P [] id n h e = cc
All-get P ((k, m) ∷ by_id) id n h e =
    elim (text_discrete id k)
        as (λ d.
          Path (Option Node) (elim d [ yes _ ↦ some m | no _ ↦ get text_discrete id by_id ])
            (some n)
          → P n) [
            | yes p ↦ λ f. subst P (some-injective m n f) h.0
            | no p ↦ λ f. All-get P by_id id n h.1 f
          ]
      e

arranged-All :
    (P : Node → Type 0) (by_id : List (Text × Node)) (order : List Text) {nodes : List Node}
    → All P (values by_id)
    → traverse (λ id. get text_discrete id by_id) order ≡ some nodes
    → All P nodes
unfolding traverse
arranged-All P by_id [] {nodes} h e = subst (All P) (some-injective [] nodes e) tt
arranged-All P by_id (id ∷ order) {nodes} h e =
    let (n, e1, f) = >>=-eq-some (get text_discrete id by_id) _ e in
    let (ns, e2, g) = >>=-eq-some (traverse (λ x. get text_discrete x by_id) order) _ f in
    subst (All P) (some-injective (n ∷ ns) nodes g)
      (All-get P by_id id n h e1, arranged-All P by_id order h e2)

returned-eq-some {ℓ} : {A : Type ℓ} (m : Outcome A) {a : A} → returned m ≡ some a → m ≡ finished a
unfolding returned
returned-eq-some (finished a) h = ap finished (some-injective a _ h)
returned-eq-some exhausted h = cc
returned-eq-some rejected h = cc

-- A computation: its root is among its nodes, each node stands once and behind the nodes of all its
-- inputs, and each owned input has one owner.
pub record IsComputation (c : Computation) : Type 0 where
  pub rooted : has text_discrete c.root (map (λ n. n.id) c.nodes) ≡ true
  pub ordered : Ordered [] c.nodes
  pub owners : List (Text × Text)
  pub owned : All (Owns owners) c.nodes

arrange-IsComputation :
    (version : ℕ) (root : Text) (by_id : List (Text × Node)) {c : Computation}
    → Indexed by_id
    → arrange version root by_id ≡ some c
    → IsComputation c
unfolding arrange
arrange-IsComputation version root by_id {c} h e =
    let (_, _, e1) = >>=-eq-some (require (is_some (get text_discrete root by_id))) _ e in
    let (owned, k, e2) = >>=-eq-some (own_all by_id (values by_id) []) _ e1 in
    let (order, f, e3) =
      >>=-eq-some
        (returned (
          dependency_order text_discrete (dependencies by_id)
            (turns text_discrete (dependencies by_id) (keys by_id)) (root ∷ [])))
        _ e2 in
    let (_, _, e4) = >>=-eq-some (require (length order == length by_id)) _ e3 in
    let (nodes, g, e5) = >>=-eq-some (traverse (λ id. get text_discrete id by_id) order) _ e4 in
    let (d, r) =
      dependency_order-DepsFirst text_discrete (dependencies by_id)
        (turns text_discrete (dependencies by_id) (keys by_id)) (root ∷ [])
        (returned-eq-some _ f) in
    let (o, m) = arranged by_id [] order h d g in
    subst IsComputation
      (some-injective (record { version = version; root = root; nodes = nodes }) c e5)
      (record {
        rooted = subst (λ t. has text_discrete root t ≡ true) (sym m) r.0;
        ordered = o;
        owners = owned;
        owned = arranged-All (Owns owned) by_id order (own_all-Owns by_id (values by_id) [] k) g;
      })

-- What the normalization accepts is a computation.
pub normalize_timeline_computation-IsComputation :
    (raw : RawComputation) {c : Computation}
    → normalize_timeline_computation raw ≡ some c
    → IsComputation c
unfolding normalize_timeline_computation get
normalize_timeline_computation-IsComputation raw e =
    let (version, _, e1) = >>=-eq-some (version_of raw.version) _ e in
    let (root, _, e2) = >>=-eq-some (identity raw.root) _ e1 in
    let (items, _, e3) = >>=-eq-some raw.nodes _ e2 in
    let (_, _, e4) = >>=-eq-some (require (not (is_nil items))) _ e3 in
    let (by_id, f, e5) = >>=-eq-some (collect items [] []) _ e4 in
    arrange-IsComputation version root by_id (collect-Indexed items [] [] (λ id n k. cc) f) e5

known_lem :
    (by_id : List (Text × Node)) (id : Text)
    → Known text_discrete (dependencies by_id) (keys by_id) (known by_id id)
unfolding known
known_lem by_id id = elim (Bool-cases (is_some (get text_discrete id by_id))) [
  | inl e ↦ rw e (has-keys text_discrete id by_id e)
  | inr e ↦ rw e tt
]

known-All :
    (by_id : List (Text × Node)) (inputs : List Input)
    → All
        (Known text_discrete (dependencies by_id) (keys by_id))
        (map (λ i. known by_id i.id) inputs)
known-All by_id [] = tt
known-All by_id (i ∷ inputs) = (known_lem by_id i.id, known-All by_id inputs)

-- The order of the dependencies is complete or refused: it never runs out of fuel.
pub dependencies-ne-exhausted :
    (by_id : List (Text × Node)) (root : Text)
    → is_some (get text_discrete root by_id) ≡ true
    → dependency_order text_discrete
        (dependencies by_id)
        (turns text_discrete (dependencies by_id) (keys by_id))
        (root ∷ [])
      ≢ exhausted
unfolding dependencies
dependencies-ne-exhausted by_id root h =
    dependency_order-ne-exhausted text_discrete (dependencies by_id) (keys by_id) (root ∷ []) closed
      (has-keys text_discrete root by_id h, tt)
  where
    closed : IsClosed text_discrete (dependencies by_id) (keys by_id)
    closed id k = known-All by_id (reverse (node_inputs (get text_discrete id by_id)))
