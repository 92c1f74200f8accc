-- ===== src/Content/View/Laws.antt =====
-- src/reuse-store.ts: what the blocks in memory hold after an `add`.
use pi_speculative_action.Prelude.{
  arith, ap, some-injective, subst, ◌∙◌, sym, Option, none, some, List, length, ◌≡◌, refl, inl, inr,
  ◌⊎◌, true, get, put, get-put_self, get-put_ne, leb, ◌==◌, >>=-eq-some, require, require-eq-some,
}
use pi_speculative_action.Numbers.{max_safe_integer}
use pi_speculative_action.Content.{Reference}
use pi_speculative_action.Content.View.{Limits, View, add, insert, decided, check_budget}

decided-true {ℓ} : {P : Type ℓ} (p : Dec P) → decided p ≡ true → P
unfolding decided
decided-true (yes p) h = p
decided-true (no n) h = ground arith

module _ {ℓ κ} {D : Type ℓ} {B : Type κ} (dec : Discrete D) (hash : List B → D) where
  -- Each block stands under its digest.
  abbrev pub IsView : View D B → Type (ℓ ⊔ κ)
  IsView v = (d : D) (bytes : List B) → get dec d v ≡ some bytes → hash bytes ≡ d

  -- An `add` that succeeds finds the digest or sets it.
  insert-eq-some :
      (limits : Limits) (r : Reference D) (bytes : List B) (v : View D B) (o : Option (List B))
      {v' : View D B}
      → insert dec hash limits r bytes v o ≡ some v'
      → ((old : List B) × (o ≡ some old) × (v' ≡ v))
        ⊎ ((o ≡ none) × (v' ≡ put dec r.digest bytes v) × (hash bytes ≡ r.digest))
  unfolding insert
  insert-eq-some limits r bytes v none {v'} h =
      let (_, _, h1) = >>=-eq-some (require (check_budget dec limits r v)) _ h in
      let (_, _, h2) = >>=-eq-some (require (length bytes == r.size)) _ h1 in
      let (_, d, h3) = >>=-eq-some (require (decided (dec (hash bytes) r.digest))) _ h2 in
      inr (
        refl,
        sym (some-injective (put dec r.digest bytes v) v' h3),
        decided-true (dec (hash bytes) r.digest) (require-eq-some _ d),
      )
  insert-eq-some limits r bytes v (some old) {v'} h =
      let (_, _, h1) = >>=-eq-some (require (length old == r.size)) _ h in
      inl (old, refl, sym (some-injective v v' h1))

  -- What an `add` leaves behind.
  pub record Added (r : Reference D) (bytes : List B) (v v' : View D B) : Type (ℓ ⊔ κ) where
    pub present : (old : List B) × (get dec r.digest v' ≡ some old) × (hash old ≡ r.digest)
    pub kept : (d : D) (old : List B) → get dec d v ≡ some old → get dec d v' ≡ some old
    pub view : IsView v'

  put-Added :
      (r : Reference D) (bytes : List B) (v : View D B)
      → get dec r.digest v ≡ none
      → hash bytes ≡ r.digest
      → IsView v
      → Added r bytes v (put dec r.digest bytes v)
  put-Added r bytes v n e h = record {
    present = (bytes, get-put_self dec r.digest bytes v, e);
    kept = λ d old k.
        get-put_ne dec r.digest d bytes v (λ p. let q = ap (λ x. get dec x v) p in cc) ∙ k;
    view = λ d old k. elim (dec d r.digest) [
      | yes p ↦
          ap hash (
            some-injective old bytes (
              sym k
              ∙ ap (λ x. get dec x (put dec r.digest bytes v)) p
              ∙ get-put_self dec r.digest bytes v))
          ∙ e
          ∙ sym p
      | no p ↦ h d old (sym (get-put_ne dec r.digest d bytes v p) ∙ k)
    ];
  }

  pub add-Added :
      (limits : Limits) (r : Reference D) (bytes : List B) (v : View D B) {v' : View D B}
      → IsView v
      → add dec hash limits r bytes v ≡ some v'
      → Added r bytes v v'
  unfolding add
  add-Added limits r bytes v {v'} h e =
      let (_, _, f) = >>=-eq-some (require (leb r.size max_safe_integer)) _ e in
      elim (insert-eq-some limits r bytes v (get dec r.digest v) f) [
        | inl (old, g, p) ↦
            subst (Added r bytes v) (sym p)
              (record { present = (old, g, h r.digest old g); kept = λ d o k. k; view = h })
        | inr (g, p, q) ↦ subst (Added r bytes v) (sym p) (put-Added r bytes v g q h)
      ]
