-- ===== src/Content/View.antt =====
-- src/reuse-store.ts: `ArtifactReadView`, the blocks that a pool holds in memory, for blocks that come
-- with their bytes. Files, leases and the signal are not modelled; the digest is a parameter.
pub mod Laws
use pi_speculative_action.Prelude.{
  ℕ, ◌+◌, Bool, true, false, ◌&&◌, ◌||◌, Option, none, some, List, [], ◌∷◌, length, leb, ltb, ◌==◌,
  ◌>>=◌, ◌>>◌, require, get, put, slice,
}
use pi_speculative_action.Numbers.{max_safe_integer}
use pi_speculative_action.Content.{Reference}

pub record Limits : Type 0 where
  pub max_logical_bytes : ℕ
  pub max_stored_bytes : ℕ
  pub max_open_chunks : ℕ
  pub max_read_bytes : ℕ

-- `DEFAULT_CONTENT_LIMITS`
abbrev pub default_limits : Limits
default_limits = record {
  max_logical_bytes = 2147483648;
  max_stored_bytes = 1073741824;
  max_open_chunks = 1024;
  max_read_bytes = 16777216;
}

-- `values`, by digest.
abbrev pub View {ℓ κ} : Type ℓ → Type κ → Type (ℓ ⊔ κ)
View D B = List (D × List B)

module _ {ℓ κ} {D : Type ℓ} {B : Type κ} where
  -- `bytes`
  unfoldable pub stored_bytes : View D B → ℕ
  stored_bytes [] = 0
  stored_bytes ((d, bytes) ∷ v) = length bytes + stored_bytes v

-- `range`
unfoldable pub in_range {ℓ} : {D : Type ℓ} → Limits → Reference D → ℕ → ℕ → Bool
in_range limits reference offset count =
    leb offset max_safe_integer
    && leb count max_safe_integer
    && leb (offset + count) reference.size
    && leb count limits.max_read_bytes

unfoldable pub decided {ℓ} : {P : Type ℓ} → Dec P → Bool
decided (yes p) = true
decided (no p) = false

unfoldable pub has_size {κ} : {B : Type κ} → Option (List B) → ℕ → Bool
has_size none n = false
has_size (some bytes) n = length bytes == n

module _ {ℓ κ} {D : Type ℓ} {B : Type κ} (dec : Discrete D) where
  unfoldable pub holds : Reference D → View D B → Bool
  unfolding has_size
  holds reference v = has_size (get dec reference.digest v) reference.size

  -- `checkBudget`, after the validation.
  unfoldable pub check_budget : Limits → Reference D → View D B → Bool
  unfolding holds stored_bytes
  check_budget limits reference v =
      holds reference v
      || (leb (stored_bytes v + reference.size) limits.max_stored_bytes
          && ltb (length v) limits.max_open_chunks)

  unfoldable pub value : Reference D → View D B → Option (List B)
  unfolding holds
  value reference v = do require (holds reference v); get dec reference.digest v

  -- `readRange`
  unfoldable pub read_range : Limits → View D B → Reference D → ℕ → ℕ → Option (List B)
  unfolding value in_range
  read_range limits v reference offset count = do
    bytes ← value reference v
    require (in_range limits reference offset count)
    some (slice offset count bytes)

  -- `add`, with the bytes that are supplied.
  unfoldable pub insert :
      (List B → D) → Limits → Reference D → List B → View D B → Option (List B) → Option (View D B)
  unfolding check_budget
  insert hash limits reference bytes v (some old) = do
    require (length old == reference.size)
    some v
  insert hash limits reference bytes v none = do
    require (check_budget limits reference v)
    require (length bytes == reference.size)
    require (decided (dec (hash bytes) reference.digest))
    some (put dec reference.digest bytes v)

  unfoldable pub add : (List B → D) → Limits → Reference D → List B → View D B → Option (View D B)
  unfolding insert
  add hash limits reference bytes v = do
    require (leb reference.size max_safe_integer)
    insert hash limits reference bytes v (get dec reference.digest v)
