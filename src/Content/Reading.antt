-- ===== src/Content/Reading.antt =====
-- src/artifact-reference.ts: `readChunkRange`; src/content-chunks.ts: the reads of `ContentChunkPool`.
pub mod Range
pub mod RoundTrip
use pi_speculative_action.Prelude.{
  ◌&&◌, ℕ, zero, suc, ◌+◌, ◌-◌, ◌/◌, ◌%◌, min, Bool, true, false, Option, none, some, List, [], ◌∷◌,
  ◌++◌, length, leb, if◌then◌else◌, ◌>>=◌, ◌>>◌, require, take, slice, get_elem?, ltb,
}
use pi_speculative_action.Content.{Reference, Manifest, block_size}
use pi_speculative_action.Content.View.{Limits, View, read_range}
use pi_speculative_action.Numbers.{max_safe_integer}

unfoldable pub zeros {κ} : {B : Type κ} → B → ℕ → List B
zeros b zero = []
zeros b (suc n) = b ∷ zeros b n

module _ {κ} {B : Type κ} (chunk : ℕ) where
  -- The loop of `readChunkRange`, on fuel: `result` is the part that has been copied. A block that
  -- ends before `start` gives a negative count, on which `copy` and the loop are not defined: `none`.
  unfoldable pub read_loop : ℕ → ℕ → ℕ → (ℕ → Option (List B)) → List B → Option (List B)
  read_loop zero offset count block result = if ltb (length result) count then none else some result
  read_loop (suc fuel) offset count block result =
      let position = offset + length result in
      let start = position % chunk in
      if ltb (length result) count
      then (do
        bytes ← block (position / chunk)
        require (leb start (length bytes))
        read_loop fuel offset count block
            (result ++ slice start (min (count - length result) (length bytes - start)) bytes))
      else some result

  -- `readChunkRange`: each block that is read copies a byte at least.
  unfoldable pub read_chunk_range : ℕ → ℕ → (ℕ → Option (List B)) → Option (List B)
  unfolding read_loop
  read_chunk_range offset count block = read_loop count offset count block []

unfoldable pub asked : ℕ → Option ℕ → ℕ
asked d none = d
asked d (some n) = n

-- `Math.min(Math.max(0, size - offset), maxBytes ?? size)`
unfoldable pub read_size : ℕ → Option ℕ → ℕ → ℕ
unfolding asked
read_size size max_bytes offset = min (size - offset) (asked size max_bytes)

module _ {ℓ κ} {D : Type ℓ} {B : Type κ} (dec : Discrete D) (zero_byte : B) (chunk : ℕ)
    (limits : Limits) where
  -- `block`, where a reference that is missing is a block of zeros.
  read_block : View D B → Option (Option (Reference D)) → ℕ → Option (List B)
  unfolding zeros
  read_block v (some (some reference)) size = read_range dec limits v reference 0 size
  read_block v _ size = some (zeros zero_byte size)

  unfoldable pub block : Manifest D → View D B → ℕ → Option (List B)
  unfolding read_block block_size
  block m v index = read_block v (get_elem? m.chunks index) (block_size chunk m.size index)

  -- `read`; without `max_bytes` it reads up to the end.
  unfoldable pub read : Manifest D → View D B → Option ℕ → ℕ → Option (List B)
  unfolding block read_chunk_range read_size asked
  read m v max_bytes offset =
      let size = read_size m.size max_bytes offset in
      do
        require (leb offset max_safe_integer && leb (asked 0 max_bytes) max_safe_integer)
        require (leb size limits.max_read_bytes)
        read_chunk_range chunk offset size (block m v)
