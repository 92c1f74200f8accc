-- ===== src/Content/Capture/Pieces.antt =====
-- src/content-chunks.ts: the blocks of a capture are those of the pieces that the bytes fall into, and
-- the pool holds every piece that is not zeros alone.
use pi_speculative_action.Content.Parsing.{IsManifest}
use pi_speculative_action.Content.Capture.Bytewise.{flush-eq-some, flushed, push, push_all}
use pi_speculative_action.Content.View.Laws.{IsView, add-Added}
use pi_speculative_action.Prelude.{
  All-imp, ==_iff, concat-append, ◌==◌, map-append, append_assoc, All-append, ap, >>=-eq-some, sym,
  ◌∙◌, some-injective, append-nil, subst, get, ℕ, ◌≡◌, ◌⊎◌, inl, inr, true, List, [], ◌∷◌, ◌++◌,
  length, All, some, map, concat, ◌<◌, ◌≤◌, Bool-cases,
}
use pi_speculative_action.Content.View.{Limits, View}
use pi_speculative_action.Content.Capture.{
  flush_if, Manifest, flush, Chunker, block_of, stored, is_zero,
}

-- All pieces but the last have the size of a block, and the last is no longer and not empty.
abbrev pub Shape {κ} : {B : Type κ} → ℕ → List (List B) → Type 0
Shape chunk [] = Unit
Shape chunk (p ∷ []) = (0 < length p) × (length p ≤ chunk)
Shape chunk (p ∷ (q ∷ ps)) = (length p ≡ chunk) × Shape chunk (q ∷ ps)

module _ {ℓ κ} {D : Type ℓ} {B : Type κ} (dec : Discrete D) (decB : Discrete B) (zero_byte : B)
    (hash : List B → D) (chunk : ℕ) (limits : Limits) where
  -- The pool can give the bytes back.
  abbrev pub Kept : View D B → List B → Type κ
  Kept v bytes = (is_zero decB zero_byte bytes ≡ true) ⊎ (get dec (hash bytes) v ≡ some bytes)

  abbrev pub CollisionFree : Type (ℓ ⊔ κ)
  CollisionFree = (xs ys : List B) → hash xs ≡ hash ys → xs ≡ ys

  -- What a `flush` leaves behind.
  record Flushed (bytes : List B) (v v' : View D B) : Type (ℓ ⊔ κ) where
    kept : Kept v' bytes
    before : (xs : List B) → Kept v xs → Kept v' xs
    view : IsView dec hash v'

  stored-Flushed :
      CollisionFree
      → (bytes : List B) (v : View D B) {v' : View D B} → IsView dec hash v
      → stored dec decB zero_byte hash chunk limits
          (block_of dec decB zero_byte hash chunk limits bytes)
          bytes
          v
        ≡ some v'
      → Flushed bytes v v'
  unfolding stored block_of
  stored-Flushed free bytes v {v'} h e = elim (Bool-cases (is_zero decB zero_byte bytes)) [
    | inl z ↦
        subst (Flushed bytes v) (some-injective v v' (simp (z) at e))
          (record { kept = inl z; before = λ xs k. k; view = h })
    | inr z ↦
        let a =
          add-Added dec hash limits (record { digest = hash bytes; size = length bytes }) bytes v h
            (simp (z) at e) in
        let (old, f, g) = a.present in
        record {
          kept = inr (f ∙ ap some (free old bytes g));
          before = λ xs k. elim k [ inl y ↦ inl y | inr y ↦ inr (a.kept (hash xs) xs y) ];
          view = a.view;
        }
  ]

  -- The bytes that have been pushed, and the pieces that they have been flushed in.
  pub record Chunked (P : List (List B) → Type 0) (v0 : View D B) (k : Chunker D B) (bytes : List B)
      : Type (ℓ ⊔ κ) where
    pub pieces : List (List B)
    pub full : P pieces
    pub blocks : k.blocks ≡ map (block_of dec decB zero_byte hash chunk limits) pieces
    pub whole : concat pieces ++ k.buffer ≡ bytes
    pub kept : All (Kept k.view) pieces
    pub view : IsView dec hash k.view
    pub before : (xs : List B) → Kept v0 xs → Kept k.view xs

  abbrev pub Full : List (List B) → Type 0
  Full = All (λ p. length p ≡ chunk)

  pub flush-Chunked :
      CollisionFree
      → (P Q : List (List B) → Type 0) (v0 : View D B) (k : Chunker D B) (bytes : List B)
        {k' : Chunker D B}
      → Chunked P v0 k bytes
      → ((ps : List (List B)) → P ps → Q (ps ++ (k.buffer ∷ [])))
      → flush dec decB zero_byte hash chunk limits k ≡ some k'
      → Chunked Q v0 k' bytes
  flush-Chunked free P Q v0 k bytes {k'} h l e =
      let (v, f, g) = flush-eq-some dec decB zero_byte hash chunk limits k e in
      let s = stored-Flushed free k.buffer k.view h.view f in
      subst (λ x. Chunked Q v0 x bytes) (sym g)
        (record {
          pieces = h.pieces ++ (k.buffer ∷ []);
          full = l h.pieces h.full;
          blocks =
              ap (λ t. t ++ (block_of dec decB zero_byte hash chunk limits k.buffer ∷ [])) h.blocks
              ∙ sym (
                  map-append (block_of dec decB zero_byte hash chunk limits) h.pieces
                    (k.buffer ∷ []));
          whole =
              append-nil _
              ∙ concat-append h.pieces (k.buffer ∷ [])
              ∙ ap (λ t. concat h.pieces ++ t) (append-nil k.buffer)
              ∙ h.whole;
          kept =
              All-append (Kept v) h.pieces (k.buffer ∷ [])
                (All-imp (Kept k.view) (Kept v) s.before h.pieces h.kept) (s.kept, tt);
          view = s.view;
          before = λ xs y. s.before xs (h.before xs y);
        })

  push-Chunked :
      CollisionFree
      → (v0 : View D B) (k : Chunker D B) (bytes : List B) (b : B) {k' : Chunker D B}
      → Chunked Full v0 k bytes
      → push dec decB zero_byte hash chunk limits b k ≡ some k'
      → Chunked Full v0 k' (bytes ++ (b ∷ []))
  unfolding push flushed flush_if
  push-Chunked free v0 k bytes b {k'} h e =
      let k1 : Chunker D B = record k { buffer = k.buffer ++ (b ∷ []) } in
      let h1 : Chunked Full v0 k1 (bytes ++ (b ∷ [])) = record {
        pieces = h.pieces;
        full = h.full;
        blocks = h.blocks;
        kept = h.kept;
        view = h.view;
        before = h.before;
        whole =
            sym (append_assoc (concat h.pieces) k.buffer (b ∷ []))
            ∙ ap (λ t. t ++ (b ∷ [])) h.whole;
      } in
      elim (Bool-cases (length k1.buffer == chunk)) [
        | inl t ↦
            flush-Chunked free Full Full v0 k1 (bytes ++ (b ∷ [])) h1
              (λ ps x.
                All-append (λ p. length p ≡ chunk) ps (k1.buffer ∷ []) x ((==_iff _ _).0 t, tt))
              (simp (t) at e)
        | inr f ↦
            subst (λ x. Chunked Full v0 x (bytes ++ (b ∷ [])))
              (some-injective k1 k' (simp (f) at e)) h1
      ]

  pub push_all-Chunked :
      CollisionFree
      → (v0 : View D B) (k : Chunker D B) (bytes more : List B) {k' : Chunker D B}
      → Chunked Full v0 k bytes
      → push_all dec decB zero_byte hash chunk limits more k ≡ some k'
      → Chunked Full v0 k' (bytes ++ more)
  unfolding push_all
  push_all-Chunked free v0 k bytes [] {k'} h e =
      rw (append-nil bytes) (subst (λ x. Chunked Full v0 x bytes) (some-injective k k' e) h)
  push_all-Chunked free v0 k bytes (b ∷ more) {k'} h e =
      let (k1, f, g) =
        >>=-eq-some (push dec decB zero_byte hash chunk limits b k)
          (push_all dec decB zero_byte hash chunk limits more) e in
      rw (sym (append_assoc bytes (b ∷ []) more)) (
        push_all-Chunked free v0 k1 (bytes ++ (b ∷ [])) more (push-Chunked free v0 k bytes b h f) g)

  -- A captured content: its manifest, and what the pool has to hold.
  pub record IsCaptured (m : Manifest D) (v : View D B) (bytes : List B) : Type (ℓ ⊔ κ) where
    pub manifest : IsManifest chunk m
    pub size : m.size ≡ length bytes
    pub digest : m.digest ≡ hash bytes
    pub pieces : List (List B)
    pub shape : Shape chunk pieces
    pub blocks : m.chunks ≡ map (block_of dec decB zero_byte hash chunk limits) pieces
    pub whole : concat pieces ≡ bytes
    pub kept : All (Kept v) pieces
