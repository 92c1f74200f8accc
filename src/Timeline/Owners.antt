-- ===== src/Timeline/Owners.antt =====
-- src/timeline-computation.ts: the map of the owners of inputs.
use pi_speculative_action.Timeline.{same_text, own, Text, text_discrete, Node, Input, own_all}
use pi_speculative_action.Prelude.{
  inr, inl, require-eq-some, Bool-cases, ◌||◌, if◌then◌else◌, get-put_self, ap, All-imp, ◌∙◌,
  get-put_ne, some-injective, sym, subst, ◌≡◌, true, Option, none, some, List, [], ◌∷◌, All, get,
  put, is_some, >>=-eq-some, require, arith, not,
}

-- Whether a map gives each owned input of a node the node.
abbrev pub Owns : List (Text × Text) → Node → Type 0
Owns owners n = All (λ i. i.owned ≡ true → get text_discrete i.id owners ≡ some n.id) n.inputs

-- One map holds the entries of another.
abbrev Extends : List (Text × Text) → List (Text × Text) → Type 0
Extends owned owned' =
    (k v : Text) → get text_discrete k owned ≡ some v → get text_discrete k owned' ≡ some v

same_text-eq : (o : Option Text) (t u : Text) → same_text o t ≡ true → o ≡ some u → u ≡ t
unfolding same_text
same_text-eq none t u h e = cc
same_text-eq (some w) t u h e = elim (text_discrete w t) [
  | yes p ↦ sym (some-injective w u e) ∙ p
  | no p ↦ absurd (ground arith)
]

own_step :
    (node : Text) (i : Input) (owned : List (Text × Text))
    → (not i.owned || same_text (get text_discrete i.id owned) node) ≡ true
    → (let next = if i.owned then put text_discrete i.id node owned else owned in
        Extends owned next × (i.owned ≡ true → get text_discrete i.id next ≡ some node))
own_step node i owned h = elim (Bool-cases i.owned) [
  | inl e ↦
      rw e
        (put_owner i.id node owned (simp (e) at h), λ o. get-put_self text_discrete i.id node owned)
  | inr e ↦ rw e (λ k v g. g, λ o. cc)
]
  where
    put_owner :
        (id node : Text) (owned : List (Text × Text))
        → same_text (get text_discrete id owned) node ≡ true
        → Extends owned (put text_discrete id node owned)
    put_owner id node owned h k v e = elim (text_discrete k id) [
      | yes p ↦
          let q =
            same_text-eq (get text_discrete id owned) node v h
              (ap (λ x. get text_discrete x owned) (sym p) ∙ e) in
          ap (λ x. get text_discrete x (put text_discrete id node owned)) p
          ∙ get-put_self text_discrete id node owned
          ∙ ap some (sym q)
      | no p ↦ get-put_ne text_discrete id k node owned p ∙ e
    ]

own-Owns :
    (by_id : List (Text × Node)) (node : Text) (inputs : List Input) (owned : List (Text × Text))
    {owned' : List (Text × Text)}
    → own by_id node inputs owned ≡ some owned'
    → Extends owned owned'
      × All (λ i. i.owned ≡ true → get text_discrete i.id owned' ≡ some node) inputs
unfolding own
own-Owns by_id node [] owned {owned'} e =
    (λ k v h. subst (λ m. get text_discrete k m ≡ some v) (some-injective owned owned' e) h, tt)
own-Owns by_id node (i ∷ inputs) owned {owned'} e =
    let (_, _, e1) = >>=-eq-some (require (is_some (get text_discrete i.id by_id))) _ e in
    let (_, f, e2) =
      >>=-eq-some (require (not i.owned || same_text (get text_discrete i.id owned) node)) _ e1 in
    let next = if i.owned then put text_discrete i.id node owned else owned in
    let (x, a) = own-Owns by_id node inputs next e2 in
    let s = own_step node i owned (require-eq-some _ f) in
    (λ k v h. x k v (s.0 k v h), (λ o. x i.id node (s.1 o), a))

own_all-Extends :
    (by_id : List (Text × Node)) (nodes : List Node) (owned : List (Text × Text))
    {owned' : List (Text × Text)}
    → own_all by_id nodes owned ≡ some owned'
    → Extends owned owned' × All (Owns owned') nodes
unfolding own_all
own_all-Extends by_id [] owned {owned'} e =
    (λ k v h. subst (λ m. get text_discrete k m ≡ some v) (some-injective owned owned' e) h, tt)
own_all-Extends by_id (n ∷ nodes) owned e =
    let (next, f, e1) = >>=-eq-some (own by_id n.id n.inputs owned) _ e in
    let (x, a) = own-Owns by_id n.id n.inputs owned f in
    let (y, b) = own_all-Extends by_id nodes next e1 in
    (λ k v h. y k v (x k v h), (All-imp _ _ (λ i g o. y i.id n.id (g o)) n.inputs a, b))

pub own_all-Owns :
    (by_id : List (Text × Node)) (nodes : List Node) (owned : List (Text × Text))
    {owned' : List (Text × Text)}
    → own_all by_id nodes owned ≡ some owned'
    → All (Owns owned') nodes
own_all-Owns by_id nodes owned e = (own_all-Extends by_id nodes owned e).1
