-- ===== src/Content/Capture.antt =====
-- src/content-chunks.ts: `captureContentBlocks`, the chunker of every capture, on the pieces that the
-- reader hands to the sink. The type of the bytes and its zero are parameters, as is the digest of
-- some bytes; `digest.update` appends to what is digested. The signal is never aborted.
pub mod Bytewise
pub mod Pieces
pub mod Correct
use pi_speculative_action.Prelude.{
  not, ℕ, zero, suc, ◌+◌, ◌-◌, min, Bool, true, false, Option, none, some, List, [], ◌∷◌, ◌++◌,
  length, leb, ◌==◌, if◌then◌else◌, ◌>>=◌, ◌>>◌, require, take, drop,
}
use pi_speculative_action.Content.{Reference, Manifest, raw_manifest, parse_manifest}
use pi_speculative_action.Content.View.{Limits, View, add, decided}

-- The variables that `flush` reads and writes; the buffer is the part that is filled.
pub record Chunker {ℓ κ} (D : Type ℓ) (B : Type κ) : Type (ℓ ⊔ κ) where
  pub blocks : List (Option (Reference D))
  pub buffer : List B
  pub view : View D B

-- All variables; `seen` is what the digest has been updated with.
pub record Capture {ℓ κ} (D : Type ℓ) (B : Type κ) : Type (ℓ ⊔ κ) where
  pub chunker : Chunker D B
  pub size : ℕ
  pub seen : List B

module _ {κ} {B : Type κ} (decB : Discrete B) (zero_byte : B) where
  -- `bytes.equals(zeroChunk)`
  unfoldable pub is_zero : List B → Bool
  is_zero [] = true
  is_zero (b ∷ bs) = elim (decB b zero_byte) [ yes _ ↦ is_zero bs | no _ ↦ false ]

module _ {ℓ κ} {D : Type ℓ} {B : Type κ} (dec : Discrete D) (decB : Discrete B) (zero_byte : B)
    (hash : List B → D) (chunk : ℕ) (limits : Limits) where
  -- The reference of a block, `none` for a block of zeros.
  unfoldable pub block_of : List B → Option (Reference D)
  unfolding is_zero
  block_of bytes =
      if is_zero decB zero_byte bytes
      then none
      else some (record { digest = hash bytes; size = length bytes })

  unfoldable pub stored : Option (Reference D) → List B → View D B → Option (View D B)
  stored none bytes v = some v
  stored (some reference) bytes v = add dec hash limits reference bytes v

  unfoldable pub flush : Chunker D B → Option (Chunker D B)
  unfolding block_of stored
  flush k = do
    v ← stored (block_of k.buffer) k.buffer k.view
    some (record { blocks = k.blocks ++ (block_of k.buffer ∷ []); buffer = []; view = v })

  unfoldable pub flush_if : Bool → Chunker D B → Option (Chunker D B)
  unfolding flush
  flush_if true k = flush k
  flush_if false k = some k

  -- The loop over one piece, on fuel: `rest` is what follows the cursor.
  unfoldable pub fill : ℕ → List B → Chunker D B → Option (Chunker D B)
  unfolding flush_if
  fill fuel [] k = some k
  fill zero (b ∷ bs) k = none
  fill (suc fuel) (b ∷ bs) k =
      let count = min (length (b ∷ bs)) (chunk - length k.buffer) in
      let filled : List B = k.buffer ++ take count (b ∷ bs) in
      do
        k' ← flush_if (length filled == chunk) (record k { buffer = filled })
        fill fuel (drop count (b ∷ bs)) k'

  -- The sink.
  unfoldable pub sink : ℕ → List B → Capture D B → Option (Capture D B)
  unfolding fill
  sink max_bytes bytes c = do
    require (leb (c.size + length bytes) max_bytes)
    k ← fill (length bytes) bytes c.chunker
    some (record { chunker = k; size = c.size + length bytes; seen = c.seen ++ bytes })

  -- What the reader calls.
  unfoldable pub sinks : ℕ → List (List B) → Capture D B → Option (Capture D B)
  unfolding sink
  sinks max_bytes [] c = some c
  sinks max_bytes (bytes ∷ rest) c = do c' ← sink max_bytes bytes c; sinks max_bytes rest c'

  -- What follows the reader.
  unfoldable pub finish : ℕ → Capture D B → Option (Manifest D × View D B)
  unfolding flush_if
  finish bytes_read c = do
    k ← flush_if (not (length c.chunker.buffer == 0)) c.chunker
    require (c.size == bytes_read)
    m ←
        parse_manifest dec chunk
          (raw_manifest (record { size = c.size; digest = hash c.seen; chunks = k.blocks }))
    some (m, k.view)

  unfoldable pub fresh : View D B → Capture D B
  fresh v = record { chunker = record { blocks = []; buffer = []; view = v }; size = 0; seen = [] }

  -- `captureContentBlocks`, with the blocks that the pool holds afterwards.
  unfoldable pub capture : ℕ → List (List B) → ℕ → View D B → Option (Manifest D × View D B)
  unfolding sinks finish fresh
  capture max_bytes pieces bytes_read v = do
    c ← sinks max_bytes pieces (fresh v)
    finish bytes_read c
