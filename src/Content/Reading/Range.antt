-- ===== src/Content/Reading/Range.antt =====
-- src/artifact-reference.ts: `readChunkRange` reads the range of the bytes that the blocks make up.
use native.Mathlib.Nat.{div-add-mod', mod-lt}
use pi_speculative_action.Prelude.{
  sym, slice-slice, ltb_false→le, le→ltb_false, ◌++◌, ap, ◌∙◌, le→leb, ltb→lt, lt→ltb, ℕ, zero, suc,
  ◌+◌, ◌-◌, ◌*◌, ◌/◌, ◌%◌, ◌<◌, ◌≤◌, ◌≡◌, min, Option, some, List, length, slice, arith, slice-add,
  Bool-cases, inl, inr, length-slice, ltb,
}
use pi_speculative_action.Content.Reading.{read_loop, read_chunk_range}

module _ {κ} {B : Type κ} (chunk : ℕ) where
  -- The block at each place is the part of the bytes that begins there.
  abbrev pub Gives : (ℕ → Option (List B)) → List B → Type κ
  Gives block bytes =
      (i : ℕ) → i * chunk < length bytes → block i ≡ some (slice (i * chunk) chunk bytes)

  -- One turn of the loop.
  turn :
      (block : ℕ → Option (List B)) (bytes : List B) (offset count k : ℕ)
      → 0 < chunk
      → Gives block bytes
      → offset + count ≤ length bytes
      → k < count
      → (n : ℕ) × (0 < n)
        × (k + n ≤ count)
        × ((fuel : ℕ)
            → read_loop chunk (suc fuel) offset count block (slice offset k bytes)
              ≡ read_loop chunk fuel offset count block (slice offset (k + n) bytes))
  unfolding read_loop
  turn block bytes offset count k pos gives h l =
      let position = offset + k in
      let index = position / chunk in
      let start = position % chunk in
      let piece = slice (index * chunk) chunk bytes in
      let split : index * chunk + start ≡ position = div-add-mod' position chunk in
      let s : start < chunk = mod-lt position pos in
      let len : length piece ≡ min chunk (length bytes - index * chunk) =
        length-slice (index * chunk) chunk bytes in
      let now : length (slice offset k bytes) ≡ k = omega (arith, length-slice offset k bytes) in
      let n = min (count - k) (length piece - start) in
      (
        n,
        omega arith,
        omega arith,
        λ fuel.
            rw
              (
                now,
                lt→ltb k count l,
                gives index (omega arith),
                le→leb start (length piece) (omega arith),
              )
              (ap (read_loop chunk fuel offset count block) (
                ap (λ t. slice offset k bytes ++ t)
                  (slice-slice (index * chunk) chunk start n bytes (omega arith)
                    ∙ ap (λ t. slice t n bytes) split)
                ∙ sym (slice-add offset k n bytes))),
      )

  read_loop-slice :
      (fuel : ℕ) (block : ℕ → Option (List B)) (bytes : List B) (offset count k : ℕ)
      → 0 < chunk
      → Gives block bytes
      → offset + count ≤ length bytes
      → k ≤ count
      → count ≤ k + fuel
      → read_loop chunk fuel offset count block (slice offset k bytes)
        ≡ some (slice offset count bytes)
  unfolding read_loop
  read_loop-slice zero block bytes offset count k pos gives h l f =
      let now : length (slice offset k bytes) ≡ k = omega (arith, length-slice offset k bytes) in
      let e : k ≡ count = omega arith in
      rw (now, le→ltb_false k count (omega arith)) (ap (λ n. some (slice offset n bytes)) e)
  read_loop-slice (suc fuel) block bytes offset count k pos gives h l f =
      elim (Bool-cases (ltb k count)) [
        | inl t ↦
            let (n, p, q, e) = turn block bytes offset count k pos gives h (ltb→lt k count t) in
            e fuel
            ∙ read_loop-slice fuel block bytes offset count (k + n) pos gives h q (omega arith)
        | inr t ↦
            let now : length (slice offset k bytes) ≡ k =
              omega (arith, length-slice offset k bytes) in
            let e : k ≡ count = omega (arith, ltb_false→le k count t) in
            rw (now, t) (ap (λ n. some (slice offset n bytes)) e)
      ]

  pub read_chunk_range-slice :
      (block : ℕ → Option (List B)) (bytes : List B) (offset count : ℕ)
      → 0 < chunk
      → Gives block bytes
      → offset + count ≤ length bytes
      → read_chunk_range chunk offset count block ≡ some (slice offset count bytes)
  unfolding read_chunk_range
  read_chunk_range-slice block bytes offset count pos gives h =
      read_loop-slice count block bytes offset count 0 pos gives h (omega arith) (omega arith)
