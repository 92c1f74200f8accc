-- ===== src/Content/Reading/RoundTrip.antt =====
-- src/content-chunks.ts: what has been captured is read back.
use pi_speculative_action.Content.Capture.Correct.{capture-IsCaptured}
use pi_speculative_action.Content.View.Laws.{IsView}
use native.Mathlib.Nat.{suc-mul}
use pi_speculative_action.Prelude.{
  sym, subst, ltb→lt, ltb_false→le, drop-append_past, get_elem?-map, take-append_within,
  length-slice, slice-all, length-append, take, take-all, le→leb, ==_iff, sym, append-nil, ap, ◌∙◌,
  ℕ, zero, suc, ◌+◌, ◌-◌, ◌*◌, ◌<◌, ◌≤◌, ◌≡◌, refl, min, true, Option, some, List, [], ◌∷◌, length,
  slice, arith, concat, get_elem?, inl, inr, All, Bool-cases,
}
use pi_speculative_action.Numbers.{max_safe_integer}
use pi_speculative_action.Content.{get, Manifest, block_size}
use pi_speculative_action.Content.View.{Limits, View, read_range, value, holds, in_range, has_size}
use pi_speculative_action.Content.Capture.{capture, is_zero, block_of}
use pi_speculative_action.Content.Capture.Pieces.{CollisionFree, Shape, Kept, IsCaptured}
use pi_speculative_action.Content.Reading.{
  read_loop, ltb, read_size, asked, zeros, read_block, block, read, read_chunk_range,
}
use pi_speculative_action.Content.Reading.Range.{Gives, read_chunk_range-slice}

module _ {κ} {B : Type κ} (decB : Discrete B) (zero_byte : B) where
  is_zero-zeros : (p : List B) → is_zero decB zero_byte p ≡ true → p ≡ zeros zero_byte (length p)
  unfolding is_zero zeros
  is_zero-zeros [] h = refl
  is_zero-zeros (b ∷ p) h = elim (decB b zero_byte) [
    | yes e ↦ ap (λ x. x ∷ p) e ∙ ap (λ t. zero_byte ∷ t) (is_zero-zeros p (ground arith))
    | no e ↦ absurd (ground arith)
  ]

past : (chunk i : ℕ) → suc i * chunk ≡ chunk + i * chunk
past chunk i = omega (arith, suc-mul i chunk)

module _ {κ} {B : Type κ} (chunk : ℕ) where
  -- The piece at each place.
  record Piece {ι} (K : List B → Type ι) (pieces : List (List B)) (i : ℕ) : Type (κ ⊔ ι) where
    piece : List B
    found : get_elem? pieces i ≡ some piece
    part : piece ≡ slice (i * chunk) chunk (concat pieces)
    kept : K piece

  Piece-at {ι} :
      (K : List B → Type ι) (pieces : List (List B)) (i : ℕ)
      → Shape chunk pieces
      → All K pieces
      → i * chunk < length (concat pieces)
      → Piece K pieces i
  Piece-at K [] i s a h = absurd (omega arith)
  Piece-at K (p ∷ []) zero s a h = record {
    piece = p;
    found = refl;
    part = let z : 0 * chunk ≡ 0 = omega arith in rw (z, append-nil p) (sym (take-all chunk p s.1));
    kept = a.0;
  }
  Piece-at K (p ∷ []) (suc i) s a h =
      absurd (let e = suc-mul i chunk in let l = length-append p [] in omega arith)
  Piece-at K (p ∷ (q ∷ ps)) zero s a h = record {
    piece = p;
    found = refl;
    part =
        let z : 0 * chunk ≡ 0 = omega arith in
        rw z (
          sym (
            take-append_within chunk p (concat (q ∷ ps)) (omega arith)
            ∙ take-all chunk p (omega arith)));
    kept = a.0;
  }
  Piece-at K (p ∷ (q ∷ ps)) (suc i) s a h =
      let r =
        Piece-at K (q ∷ ps) i s.1 a.1
          (let e = suc-mul i chunk in let l = length-append p (concat (q ∷ ps)) in omega arith) in
      record {
        piece = r.piece;
        found = r.found;
        part =
            r.part
            ∙ sym (
                rw (past chunk i)
                  (ap (take chunk) (drop-append_past chunk (i * chunk) p (concat (q ∷ ps)) s.0)));
        kept = r.kept;
      }

read_size-within :
    (size : ℕ) (max_bytes : Option ℕ) (offset : ℕ)
    → offset < size
    → offset + read_size size max_bytes offset ≤ size
unfolding read_size
read_size-within size max_bytes offset h = omega arith

read_size-past :
    (size : ℕ) (max_bytes : Option ℕ) (offset : ℕ)
    → size ≤ offset
    → read_size size max_bytes offset ≡ 0
unfolding read_size
read_size-past size max_bytes offset h = omega arith

module _ {ℓ κ} {D : Type ℓ} {B : Type κ} (dec : Discrete D) (decB : Discrete B) (zero_byte : B)
    (hash : List B → D) (chunk : ℕ) (limits : Limits) where
  read_range-all :
      (v : View D B) (p : List B) (n : ℕ)
      → get dec (hash p) v ≡ some p
      → n ≡ length p
      → n ≤ limits.max_read_bytes
      → n ≤ max_safe_integer
      → read_range dec limits v (record { digest = hash p; size = length p }) 0 n ≡ some p
  unfolding read_range value holds has_size in_range
  read_range-all v p n g e l s =
      rw
        (
          g,
          (==_iff (length p) (length p)).1 refl,
          le→leb n max_safe_integer s,
          le→leb n limits.max_read_bytes l,
          le→leb 0 max_safe_integer (omega arith),
          e,
          le→leb (0 + length p) (length p) (omega arith),
        )
        (ap some (slice-all p))

  read_piece :
      (v : View D B) (p : List B) (n : ℕ)
      → Kept dec decB zero_byte hash chunk limits v p
      → n ≡ length p
      → n ≤ limits.max_read_bytes
      → n ≤ max_safe_integer
      → read_block dec zero_byte chunk limits v
          (some (block_of dec decB zero_byte hash chunk limits p))
          n
        ≡ some p
  unfolding read_block block_of
  read_piece v p n k e l s = elim (Bool-cases (is_zero decB zero_byte p)) [
    | inl z ↦ rw (z, e) (ap some (sym (is_zero-zeros decB zero_byte p z)))
    | inr z ↦ rw z (elim k [ inl y ↦ absurd (ground arith) | inr y ↦ read_range-all v p n y e l s ])
  ]

  -- The blocks of a captured content make up its bytes.
  block-Gives :
      (m : Manifest D) (v : View D B) (bytes : List B)
      → chunk ≤ limits.max_read_bytes
      → IsCaptured dec decB zero_byte hash chunk limits m v bytes
      → Gives chunk (block dec zero_byte chunk limits m v) bytes
  unfolding block block_size
  block-Gives m v bytes l c i h =
      let whole : length (concat c.pieces) ≡ length bytes = ap length c.whole in
      let r =
        Piece-at chunk (Kept dec decB zero_byte hash chunk limits v) c.pieces i c.shape c.kept
          (omega arith) in
      let p : length r.piece ≡ min chunk (length (concat c.pieces) - i * chunk) =
        ap length r.part ∙ length-slice (i * chunk) chunk (concat c.pieces) in
      let n : block_size chunk m.size i ≡ length r.piece = omega (arith, p, whole, c.size) in
      let safe = c.manifest.safe in
      rw
        (
          c.blocks,
          get_elem?-map (block_of dec decB zero_byte hash chunk limits) c.pieces i r.piece r.found,
        )
        (read_piece v r.piece (block_size chunk m.size i) r.kept n (omega arith) (omega arith)
          ∙ ap some (r.part ∙ ap (slice (i * chunk) chunk) c.whole))

  read-loop :
      (m : Manifest D) (v : View D B) (max_bytes : Option ℕ) (offset : ℕ)
      → offset ≤ max_safe_integer
      → asked 0 max_bytes ≤ max_safe_integer
      → read_size m.size max_bytes offset ≤ limits.max_read_bytes
      → read dec zero_byte chunk limits m v max_bytes offset
        ≡ read_chunk_range chunk offset
            (read_size m.size max_bytes offset)
            (block dec zero_byte chunk limits m v)
  unfolding read
  read-loop m v max_bytes offset o a b =
      rw
        (
          le→leb offset max_safe_integer o,
          le→leb (asked 0 max_bytes) max_safe_integer a,
          le→leb (read_size m.size max_bytes offset) limits.max_read_bytes b,
        )
        refl

  read_nothing :
      (m : Manifest D) (v : View D B) (bytes : List B) (max_bytes : Option ℕ) (offset : ℕ)
      → length bytes ≤ offset
      → read_chunk_range chunk offset
          (read_size (length bytes) max_bytes offset)
          (block dec zero_byte chunk limits m v)
        ≡ some (slice offset (read_size (length bytes) max_bytes offset) bytes)
  unfolding read_chunk_range read_loop
  read_nothing m v bytes max_bytes offset h =
      rw (read_size-past (length bytes) max_bytes offset h) refl

  -- A read of a captured content, with an offset and a limit that are safe counts and a part that the
  -- limit of a read allows, gives the part of its bytes that begins at the offset.
  pub read-slice :
      (m : Manifest D) (v : View D B) (bytes : List B) (max_bytes : Option ℕ) (offset : ℕ)
      → 0 < chunk
      → chunk ≤ limits.max_read_bytes
      → IsCaptured dec decB zero_byte hash chunk limits m v bytes
      → offset ≤ max_safe_integer
      → asked 0 max_bytes ≤ max_safe_integer
      → read_size (length bytes) max_bytes offset ≤ limits.max_read_bytes
      → read dec zero_byte chunk limits m v max_bytes offset
        ≡ some (slice offset (read_size (length bytes) max_bytes offset) bytes)
  read-slice m v bytes max_bytes offset pos l c o a b =
      let e : read_size m.size max_bytes offset ≡ read_size (length bytes) max_bytes offset =
        ap (λ s. read_size s max_bytes offset) c.size in
      read-loop m v max_bytes offset o a (subst (λ n. n ≤ limits.max_read_bytes) (sym e) b)
      ∙ ap (λ n. read_chunk_range chunk offset n (block dec zero_byte chunk limits m v)) e
      ∙ elim (Bool-cases (ltb offset (length bytes))) [
        | inl t ↦
            read_chunk_range-slice chunk (block dec zero_byte chunk limits m v) bytes offset
              (read_size (length bytes) max_bytes offset) pos (block-Gives m v bytes l c)
              (read_size-within (length bytes) max_bytes offset (ltb→lt offset (length bytes) t))
        | inr t ↦ read_nothing m v bytes max_bytes offset (ltb_false→le offset (length bytes) t)
      ]

  -- What is captured is read back.
  pub capture-read :
      CollisionFree dec decB zero_byte hash chunk limits
      → 0 < chunk
      → chunk ≤ limits.max_read_bytes
      → (max_bytes : ℕ) (pieces : List (List B)) (bytes_read : ℕ) (v0 : View D B) {m : Manifest D}
        {v : View D B}
      → IsView dec hash v0
      → capture dec decB zero_byte hash chunk limits max_bytes pieces bytes_read v0 ≡ some (m, v)
      → (limit : Option ℕ) (offset : ℕ) → offset ≤ max_safe_integer
      → asked 0 limit ≤ max_safe_integer
      → read_size (length (concat pieces)) limit offset ≤ limits.max_read_bytes
      → read dec zero_byte chunk limits m v limit offset
        ≡ some (slice offset (read_size (length (concat pieces)) limit offset) (concat pieces))
  capture-read free pos l max_bytes pieces bytes_read v0 {m} {v} h e limit offset o a b =
      let c =
        capture-IsCaptured dec decB zero_byte hash chunk limits free pos max_bytes pieces bytes_read
          v0 h e in
      read-slice m v (concat pieces) limit offset pos l c.0 o a b
