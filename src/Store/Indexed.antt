-- ===== src/Store/Indexed.antt =====
-- src/candidate-stores.ts: the index of a scope agrees with its registrations.
use pi_speculative_action.Prelude.{
  has-snoc, ℕ, ◌≤◌, Bool, true, false, Option, none, some, some-injective, String, String_discrete,
  ℕ_discrete, List, [], ◌∷◌, has, get, update, ◌≡◌, ◌≢◌, ◌⊎◌, inl, inr, sym, ◌∙◌, arith, ap,
  Option-cases, ==-ne,
}
use pi_speculative_action.Semantics.{
  ActionKey, ActionKeyProjector, Partition-discrete as Projection-discrete,
  action_key_projection_partitions,
}
use pi_speculative_action.Store.{
  Partition, exact, projection, Partition-discrete, IndexedEntry, Scope, with_member,
  without_member, is_registered,
}

module _ {ℓ} {A : Type ℓ} (dec : Discrete A) where
  abbrev pub changed : Bool → A → A → Bool → Bool
  changed v x y b = elim (dec x y) [ yes _ ↦ v | no _ ↦ b ]

  pub has-with_member :
      (x y : A) (xs : List A) → has dec x (with_member dec y xs) ≡ changed true x y (has dec x xs)
  unfolding with_member has
  has-with_member x y xs = ground (arith, has-snoc dec x y xs)

  pub has-without_member :
      (x y : A) (xs : List A)
      → has dec x (without_member dec y xs) ≡ changed false x y (has dec x xs)
  unfolding without_member has
  has-without_member x y [] = ground arith
  has-without_member x y (z ∷ xs) = ground (arith, has-without_member x y xs)

pub update-eq-some {ℓ} :
    {A : Type ℓ} (f : ℕ → Option A) (a b : ℕ) (v : A) {x : A}
    → update ℕ_discrete f a v b ≡ some x
    → ((b ≡ a) × (x ≡ v)) ⊎ ((b ≢ a) × (f b ≡ some x))
update-eq-some f a b v {x} h =
    elim (ℕ_discrete b a)
        as (λ d.
          (elim d [ yes _ ↦ some v | no _ ↦ f b ]) ≡ some x
          → ((b ≡ a) × (x ≡ v)) ⊎ ((b ≢ a) × (f b ≡ some x))) [
            | yes p ↦ λ e. inl (p, sym (some-injective _ _ e))
            | no p ↦ λ e. inr (p, e)
          ]
      h

pub update-eq-none {ℓ} :
    {A : Type ℓ} (f : ℕ → Option A) (a b : ℕ) (v : A)
    → update ℕ_discrete f a v b ≡ none
    → (b ≢ a) × (f b ≡ none)
update-eq-none {A = A} f a b v h =
    elim (ℕ_discrete b a)
        as (λ d.
          Path (Option A) (elim d [ yes _ ↦ some v | no _ ↦ f b ]) none → (b ≢ a) × (f b ≡ none)) [
            | yes p ↦ λ e. cc
            | no p ↦ λ e. (p, e)
          ]
      h

pub update-none {ℓ} :
    {A : Type ℓ} (f : ℕ → Option A) (a b : ℕ) (v : A) {x : A}
    → f a ≡ some x
    → f b ≡ none
    → update ℕ_discrete f a v b ≡ none
update-none f a b v h k =
    elim (ℕ_discrete b a) as (λ d. (elim d [ yes _ ↦ some v | no _ ↦ f b ]) ≡ none) [
      | yes p ↦ cc
      | no p ↦ k
    ]

pub unlisted :
    (s : Scope) (a : ℕ) (r : IndexedEntry)
    → ((id : String) → get String_discrete id s.entries ≢ some a)
    → is_registered s a r ≡ false
unfolding is_registered
unlisted s a r h = elim (Option-cases (get String_discrete r.entry.id s.entries)) [
  | inl e ↦ rw (is_registered, e)
  | inr (b, e) ↦ rw (is_registered, e) (==-ne a b (λ q. h r.entry.id (e ∙ ap some (sym q))))
]

-- The partitions that settling and revoking take a record out of.
abbrev pub IsFree : Partition → Type 0
IsFree (exact t) = ⊥
IsFree (projection t) = ⊥
IsFree _ = Unit

module _ (projectors : List ActionKeyProjector) where
  pub record Files (r : IndexedEntry) (k : ActionKey) : Type 0 where
    pub by_key : has Partition-discrete (exact k.key) r.memberships ≡ true
    pub by_projection :
        (t : String × String)
        → has Projection-discrete t (action_key_projection_partitions k projectors) ≡ true
        → has Partition-discrete (projection t) r.memberships ≡ true

  pub record IsIndexed (s : Scope) : Type 0 where
    pub entered :
        (id : String) (a : ℕ)
        → get String_discrete id s.entries ≡ some a
        → (r : IndexedEntry) × (s.records a ≡ some r) × (r.entry.id ≡ id)
    pub filed :
        (a : ℕ) (r : IndexedEntry) (p : Partition)
        → s.records a ≡ some r
        → has Partition-discrete p r.memberships ≡ has ℕ_discrete a (s.partitions p)
    pub kept :
        (a : ℕ) (r : IndexedEntry) (k : ActionKey)
        → s.records a ≡ some r
        → is_registered s a r ≡ true
        → r.entry.key ≡ some k
        → Files r k
    pub absent :
        (a : ℕ) (p : Partition) → s.records a ≡ none → has ℕ_discrete a (s.partitions p) ≡ false
    pub fresh : (a : ℕ) → s.next ≤ a → s.records a ≡ none
