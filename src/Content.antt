-- ===== src/Content.antt =====
-- src/artifact-reference.ts: references, manifests and their validation. The type of the digests is a
-- parameter, and so is the size of a block, which `content_chunk_bytes` gives in the source. What
-- throws is `none`; a raw value is read by its fields, with `none` for a field of another type.
mod Sizes
pub mod Parsing
pub mod View
pub mod Capture
pub mod Reading
mod Examples
use pi_speculative_action.Prelude.{
  ℕ, ◌+◌, ◌-◌, ◌*◌, ◌/◌, min, Bool, true, false, Option, none, some, List, [], ◌∷◌, map, length,
  leb, ◌==◌, ◌>>=◌, ◌>>◌, require, get, put,
}
use pi_speculative_action.Numbers.{Number, is_safe_count, max_safe_integer, unit}

pub record Reference {ℓ} (D : Type ℓ) : Type ℓ where
  pub digest : D
  pub size : ℕ

pub record Manifest {ℓ} (D : Type ℓ) : Type ℓ where
  pub size : ℕ
  pub digest : D
  pub chunks : List (Option (Reference D))

-- What is read of an unknown value; the digest is present where `isSha256Digest` holds.
pub record RawReference {ℓ} (D : Type ℓ) : Type ℓ where
  pub digest : Option D
  pub size : Option Number

pub record RawManifest {ℓ} (D : Type ℓ) : Type ℓ where
  pub size : Option Number
  pub digest : Option D
  pub chunks : Option (List (Option (RawReference D)))

-- `CONTENT_CHUNK_BYTES`
abbrev pub content_chunk_bytes : ℕ
content_chunk_bytes = 1048576

unfoldable pub count_of : Option Number → Option ℕ
unfolding is_safe_count
count_of v = is_safe_count v 0 max_safe_integer

-- `Math.ceil(size / chunk)`
unfoldable pub blocks_of : ℕ → ℕ → ℕ
blocks_of chunk size = (size + (chunk - 1)) / chunk

-- `Math.min(CONTENT_CHUNK_BYTES, size - index * CONTENT_CHUNK_BYTES)`
unfoldable pub block_size : ℕ → ℕ → ℕ → ℕ
block_size chunk size index = min chunk (size - index * chunk)

unfoldable pub same_size : Option ℕ → ℕ → Bool
same_size none n = true
same_size (some m) n = m == n

module _ {ℓ} {D : Type ℓ} (dec : Discrete D) where
  -- `validateArtifact`, with the sizes that are known afterwards.
  unfoldable pub validate_artifact :
      RawReference D → List (D × ℕ) → Option (Reference D × List (D × ℕ))
  unfolding same_size
  validate_artifact r sizes = do
    digest ← r.digest
    size ← count_of r.size
    require (same_size (get dec digest sizes) size)
    some (record { digest = digest; size = size }, put dec digest size sizes)

module _ {ℓ} {D : Type ℓ} (dec : Discrete D) (chunk : ℕ) where
  -- The `map` over the blocks.
  unfoldable pub parse_chunks :
      ℕ → ℕ → List (Option (RawReference D)) → List (D × ℕ) → Option (List (Option (Reference D)))
  unfolding validate_artifact block_size
  parse_chunks size index [] sizes = some []
  parse_chunks size index (none ∷ rs) sizes = do
    rest ← parse_chunks size (index + 1) rs sizes
    some (none ∷ rest)
  parse_chunks size index (some r ∷ rs) sizes = do
    (reference, sizes') ← validate_artifact dec r sizes
    require (reference.size == block_size chunk size index)
    rest ← parse_chunks size (index + 1) rs sizes'
    some (some reference ∷ rest)

  -- `parseContentManifest`
  unfoldable pub parse_manifest : RawManifest D → Option (Manifest D)
  unfolding blocks_of parse_chunks
  parse_manifest raw = do
    size ← count_of raw.size
    digest ← raw.digest
    chunks ← raw.chunks
    require (leb (length chunks) 65536)
    require (length chunks == blocks_of chunk size)
    parsed ← parse_chunks size 0 chunks []
    some (record { size = size; digest = digest; chunks = parsed })

-- A manifest as the unknown value that `parseContentManifest` is called with.
unfoldable pub raw_count : ℕ → Option Number
raw_count n = some (Number.finite_pos (n * unit))

unfoldable pub raw_reference {ℓ} : {D : Type ℓ} → Option (Reference D) → Option (RawReference D)
unfolding raw_count
raw_reference none = none
raw_reference (some r) = some (record { digest = some r.digest; size = raw_count r.size })

unfoldable pub raw_manifest {ℓ} : {D : Type ℓ} → Manifest D → RawManifest D
unfolding raw_count raw_reference
raw_manifest m = record {
  size = raw_count m.size;
  digest = some m.digest;
  chunks = some (map raw_reference m.chunks);
}
