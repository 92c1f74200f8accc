-- ===== src/Content/Capture/Correct.antt =====
-- src/content-chunks.ts: a capture that succeeds gives a manifest of the bytes, all pieces joined.
use pi_speculative_action.Prelude.{
  empty_of_length, append-nil, ne_of_==, ◌∙◌, ap, sym, subst, some-injective, >>=-eq-some, ==_iff,
  refl, ℕ, ◌≡◌, inl, inr, List, [], ◌∷◌, ◌++◌, length, All, some, concat, ◌<◌, ◌≤◌, arith,
  Bool-cases, not, ◌==◌, require,
}
use pi_speculative_action.Content.{Manifest, raw_manifest, parse_manifest}
use pi_speculative_action.Content.View.{Limits, View}
use pi_speculative_action.Content.View.Laws.{IsView}
use pi_speculative_action.Content.Parsing.{parse_manifest-IsManifest, parse_manifest-raw_eq}
use pi_speculative_action.Content.Capture.{
  Chunker, Capture, flush_if, sinks, finish, fresh, capture,
}
use pi_speculative_action.Content.Capture.Bytewise.{
  flush-eq-some, sinks-absorb, absorb-eq-some, length-push_all,
}
use pi_speculative_action.Content.Capture.Pieces.{
  Shape, Kept, CollisionFree, Chunked, Full, flush-Chunked, push_all-Chunked, IsCaptured,
}

module _ {κ} {B : Type κ} (chunk : ℕ) where
  Shape-full : 0 < chunk → (ps : List (List B)) → All (λ p. length p ≡ chunk) ps → Shape chunk ps
  Shape-full h [] f = tt
  Shape-full h (p ∷ []) f = (omega arith, omega arith)
  Shape-full h (p ∷ (q ∷ ps)) f = (f.0, Shape-full h (q ∷ ps) f.1)

  Shape-snoc :
      (b : List B) (ps : List (List B))
      → 0 < length b
      → length b ≤ chunk
      → All (λ p. length p ≡ chunk) ps
      → Shape chunk (ps ++ (b ∷ []))
  Shape-snoc b [] h l f = (h, l)
  Shape-snoc b (p ∷ []) h l f = (f.0, (h, l))
  Shape-snoc b (p ∷ (q ∷ ps)) h l f = (f.0, Shape-snoc b (q ∷ ps) h l f.1)

module _ {ℓ κ} {D : Type ℓ} {B : Type κ} (dec : Discrete D) (decB : Discrete B) (zero_byte : B)
    (hash : List B → D) (chunk : ℕ) (limits : Limits) where
  fresh-Chunked :
      (v : View D B)
      → IsView dec hash v
      → Chunked dec decB zero_byte hash chunk limits
          (Full dec decB zero_byte hash chunk limits)
          v
          (fresh dec decB zero_byte hash chunk limits v).chunker
          []
  unfolding fresh
  fresh-Chunked v h = record {
    pieces = [];
    full = tt;
    blocks = refl;
    whole = refl;
    kept = tt;
    view = h;
    before = λ xs k. k;
  }

  -- The last piece.
  ends :
      CollisionFree dec decB zero_byte hash chunk limits
      → 0 < chunk
      → (v0 : View D B) (k : Chunker D B) (bytes : List B) {k' : Chunker D B}
      → length k.buffer < chunk
      → Chunked dec decB zero_byte hash chunk limits
          (Full dec decB zero_byte hash chunk limits)
          v0
          k
          bytes
      → flush_if dec decB zero_byte hash chunk limits (not (length k.buffer == 0)) k ≡ some k'
      → (Chunked dec decB zero_byte hash chunk limits (Shape chunk) v0 k' bytes) × (k'.buffer ≡ [])
  unfolding flush_if
  ends free pos v0 k bytes {k'} l h e = elim (Bool-cases (length k.buffer == 0)) [
    | inl z ↦
        let z0 : length k.buffer ≡ 0 = (==_iff _ _).0 z in
        let p = some-injective k k' (simp (z) at e) in
        (
          subst (λ x. Chunked dec decB zero_byte hash chunk limits (Shape chunk) v0 x bytes) p
              (record {
                pieces = h.pieces;
                full = Shape-full chunk pos h.pieces h.full;
                blocks = h.blocks;
                whole = h.whole;
                kept = h.kept;
                view = h.view;
                before = h.before;
              }),
          ap (λ x. x.buffer) (sym p) ∙ empty_of_length k.buffer z0,
        )
    | inr n ↦
        let n0 = ne_of_== (length k.buffer) 0 n in
        let (_, _, g) = flush-eq-some dec decB zero_byte hash chunk limits k (simp (n) at e) in
        (
          flush-Chunked dec decB zero_byte hash chunk limits free
              (Full dec decB zero_byte hash chunk limits) (Shape chunk) v0 k bytes h
              (λ ps f. Shape-snoc chunk k.buffer ps (omega arith) (omega arith) f) (simp (n) at e),
          ap (λ x. x.buffer) g,
        )
  ]

  finish-IsCaptured :
      CollisionFree dec decB zero_byte hash chunk limits
      → 0 < chunk
      → (v0 : View D B) (bytes_read : ℕ) (c : Capture D B) {m : Manifest D} {v : View D B}
      → length c.chunker.buffer < chunk
      → Chunked dec decB zero_byte hash chunk limits
          (Full dec decB zero_byte hash chunk limits)
          v0
          c.chunker
          c.seen
      → c.size ≡ length c.seen
      → finish dec decB zero_byte hash chunk limits bytes_read c ≡ some (m, v)
      → IsCaptured dec decB zero_byte hash chunk limits m v c.seen
        × ((xs : List B)
            → Kept dec decB zero_byte hash chunk limits v0 xs
            → Kept dec decB zero_byte hash chunk limits v xs)
        × IsView dec hash v
  unfolding finish
  finish-IsCaptured free pos v0 bytes_read c {m} {v} l h s e =
      let (k, f, e1) =
        >>=-eq-some
          (flush_if dec decB zero_byte hash chunk limits (not (length c.chunker.buffer == 0))
            c.chunker)
          _ e in
      let (_, g, e2) = >>=-eq-some (require (c.size == bytes_read)) _ e1 in
      let m0 : Manifest D = record { size = c.size; digest = hash c.seen; chunks = k.blocks } in
      let (m1, p, e3) = >>=-eq-some (parse_manifest dec chunk (raw_manifest m0)) _ e2 in
      let (q, b) = ends free pos v0 c.chunker c.seen l h f in
      let r = parse_manifest-raw_eq dec chunk m0 p in
      subst
        (λ x.
          IsCaptured dec decB zero_byte hash chunk limits x.0 x.1 c.seen
          × ((xs : List B)
              → Kept dec decB zero_byte hash chunk limits v0 xs
              → Kept dec decB zero_byte hash chunk limits x.1 xs)
          × IsView dec hash x.1)
        (some-injective (m1, k.view) (m, v) e3)
        (
          record {
            manifest = parse_manifest-IsManifest dec chunk (raw_manifest m0) p;
            size = ap (λ x. x.size) r ∙ s;
            digest = ap (λ x. x.digest) r;
            pieces = q.pieces;
            shape = q.full;
            blocks = ap (λ x. x.chunks) r ∙ q.blocks;
            whole =
                sym (append-nil (concat q.pieces))
                ∙ ap (λ t. concat q.pieces ++ t) (sym b)
                ∙ q.whole;
            kept = q.kept;
          },
          q.before,
          q.view,
        )

  -- A capture that succeeds: the manifest is one of all the bytes, in whatever pieces they came, and
  -- the pool gives back what it gave before.
  pub capture-IsCaptured :
      CollisionFree dec decB zero_byte hash chunk limits
      → 0 < chunk
      → (max_bytes : ℕ) (pieces : List (List B)) (bytes_read : ℕ) (v0 : View D B) {m : Manifest D}
        {v : View D B}
      → IsView dec hash v0
      → capture dec decB zero_byte hash chunk limits max_bytes pieces bytes_read v0 ≡ some (m, v)
      → IsCaptured dec decB zero_byte hash chunk limits m v (concat pieces)
        × ((xs : List B)
            → Kept dec decB zero_byte hash chunk limits v0 xs
            → Kept dec decB zero_byte hash chunk limits v xs)
        × IsView dec hash v
  unfolding capture fresh
  capture-IsCaptured free pos max_bytes pieces bytes_read v0 {m} {v} h e =
      let c0 = fresh dec decB zero_byte hash chunk limits v0 in
      let (c, f, g) =
        >>=-eq-some (sinks dec decB zero_byte hash chunk limits max_bytes pieces c0) _ e in
      let a = absorb-eq-some dec decB zero_byte hash chunk limits max_bytes (concat pieces) c0 (
        sym
          (sinks-absorb dec decB zero_byte hash chunk limits max_bytes pieces c0 pos (omega arith))
        ∙ f) in
      let k =
        push_all-Chunked dec decB zero_byte hash chunk limits free v0 c0.chunker [] (concat pieces)
          (fresh-Chunked v0 h) a.0 in
      subst
        (λ x.
          IsCaptured dec decB zero_byte hash chunk limits m v x
          × ((xs : List B)
              → Kept dec decB zero_byte hash chunk limits v0 xs
              → Kept dec decB zero_byte hash chunk limits v xs)
          × IsView dec hash v)
        a.2
        (finish-IsCaptured free pos v0 bytes_read c
          (length-push_all dec decB zero_byte hash chunk limits (concat pieces) c0.chunker pos a.0)
          (subst
            (Chunked dec decB zero_byte hash chunk limits
              (Full dec decB zero_byte hash chunk limits) v0 c.chunker)
            (sym a.2) k)
          (omega (arith, a.1, ap length a.2)) g)
