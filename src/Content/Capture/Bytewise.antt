-- ===== src/Content/Capture/Bytewise.antt =====
-- src/content-chunks.ts: the chunker takes the bytes one by one, so that a capture depends on the
-- bytes alone and not on the pieces that they come in.
use native.Mathlib.Nat.{add-zero, add_assoc}
use pi_speculative_action.Prelude.{
  ◌≢◌, ◌⊎◌, leb_false→lt, lt→leb_false, >>=-none, append-nil, le→leb, ◌>>◌, Option-cases,
  require-eq-some, leb→le, concat, subst, ne_of_==, >>=-eq-some, some-injective, ==-ne,
  length-append, >>=-congr, >>=-some, fun_ext, ℕ, zero, suc, ◌+◌, ◌-◌, ◌≤◌, ◌<◌, min, false, Option,
  some, List, [], ◌∷◌, ◌++◌, length, append_assoc, refl, ◌≡◌, ◌∙◌, sym, ap, arith, ◌==◌, ◌>>=◌,
  take, drop, >>=-assoc, Bool-cases, inl, inr, take-append_drop, length-take, length-drop,
}
use pi_speculative_action.Content.View.{Limits, View}
use pi_speculative_action.Content.Capture.{
  none, fresh, finish, capture, leb, require, sinks, sink, Capture, block_of, stored, Chunker,
  flush, flush_if, fill,
}

module _ {ℓ κ} {D : Type ℓ} {B : Type κ} (dec : Discrete D) (decB : Discrete B) (zero_byte : B)
    (hash : List B → D) (chunk : ℕ) (limits : Limits) where
  unfoldable pub flushed : Chunker D B → Option (Chunker D B)
  unfolding flush_if
  flushed k = flush_if dec decB zero_byte hash chunk limits (length k.buffer == chunk) k

  pub flush-eq-some :
      (k : Chunker D B) {k' : Chunker D B}
      → flush dec decB zero_byte hash chunk limits k ≡ some k'
      → (v : View D B) × (stored dec decB zero_byte hash chunk limits
            (block_of dec decB zero_byte hash chunk limits k.buffer)
            k.buffer
            k.view
          ≡ some v)
        × (k' ≡ record {
          blocks = k.blocks ++ (block_of dec decB zero_byte hash chunk limits k.buffer ∷ []);
          buffer = [];
          view = v;
        })
  unfolding flush
  flush-eq-some k {k'} h =
      let (v, e, f) =
        >>=-eq-some
          (stored dec decB zero_byte hash chunk limits
            (block_of dec decB zero_byte hash chunk limits k.buffer) k.buffer k.view)
          _ h in
      (v, e, sym (some-injective _ k' f))

  flushed-lt : (k : Chunker D B) → length k.buffer < chunk → flushed k ≡ some k
  unfolding flushed flush_if
  flushed-lt k h = let e : (length k.buffer == chunk) ≡ false = ==-ne _ _ (omega arith) in rw e refl

  pub length-flushed :
      (k k' : Chunker D B)
      → length k.buffer ≤ chunk
      → 0 < chunk
      → flushed k ≡ some k'
      → length k'.buffer < chunk
  unfolding flushed flush_if
  length-flushed k k' h p e = elim (Bool-cases (length k.buffer == chunk)) [
    | inl t ↦ let (v, _, g) = flush-eq-some k (simp (t) at e) in rw (ap (λ x. x.buffer) g) p
    | inr f ↦
        rw (ap (λ x. x.buffer) (sym (some-injective k k' (simp (f) at e))))
          (omega (arith, ne_of_== (length k.buffer) chunk f))
  ]

  -- One byte.
  unfoldable pub push : B → Chunker D B → Option (Chunker D B)
  unfolding flushed
  push b k = flushed (record k { buffer = k.buffer ++ (b ∷ []) })

  unfoldable pub push_all : List B → Chunker D B → Option (Chunker D B)
  unfolding push
  push_all [] k = some k
  push_all (b ∷ bs) k = do k' ← push b k; push_all bs k'

  pub push_all-append :
      (xs ys : List B) (k : Chunker D B) → push_all (xs ++ ys) k ≡ (push_all xs k >>= push_all ys)
  unfolding push_all
  push_all-append [] ys k = refl
  push_all-append (x ∷ xs) ys k =
      ap (λ f. push x k >>= f) (fun_ext (push_all-append xs ys))
      ∙ sym (>>=-assoc (push x k) (push_all xs) (push_all ys))

  -- Bytes that the buffer has room for.
  push_all-room :
      (xs : List B) (k : Chunker D B)
      → 0 < length xs
      → length k.buffer + length xs ≤ chunk
      → push_all xs k ≡ flushed (record k { buffer = k.buffer ++ xs })
  unfolding push_all push flushed flush_if
  push_all-room [] k h l = absurd (omega arith)
  push_all-room (x ∷ []) k h l = >>=-some (push x k)
  push_all-room (x ∷ (y ∷ ys)) k h l =
      rw
        (flushed-lt (record k { buffer = k.buffer ++ (x ∷ []) })
          (omega (arith, length-append k.buffer (x ∷ []))))
        (push_all-room (y ∷ ys) (record k { buffer = k.buffer ++ (x ∷ []) }) (omega arith)
            (omega (arith, length-append k.buffer (x ∷ [])))
          ∙ ap (λ b. flushed (record k { buffer = b })) (append_assoc k.buffer (x ∷ []) (y ∷ ys)))

  fill-push_all :
      (fuel : ℕ) (xs : List B) (k : Chunker D B)
      → length xs ≤ fuel
      → length k.buffer < chunk
      → fill dec decB zero_byte hash chunk limits fuel xs k ≡ push_all xs k
  unfolding fill push_all flushed
  fill-push_all fuel [] k h l = refl
  fill-push_all zero (x ∷ xs) k h l = absurd (omega arith)
  fill-push_all (suc fuel) (x ∷ xs) k h l =
      let count = min (length (x ∷ xs)) (chunk - length k.buffer) in
      let first = take count (x ∷ xs) in
      let rest = drop count (x ∷ xs) in
      let full : Chunker D B = record k { buffer = k.buffer ++ first } in
      let n : length first ≡ count = omega (arith, length-take count (x ∷ xs)) in
      >>=-congr (flushed full) (fill dec decB zero_byte hash chunk limits fuel rest) (push_all rest)
        (λ k' e.
          fill-push_all fuel rest k' (omega (arith, length-drop count (x ∷ xs)))
            (length-flushed full k' (omega (arith, length-append k.buffer first)) (omega arith) e))
      ∙ ap (λ m. m >>= push_all rest) (sym (push_all-room first k (omega arith) (omega arith)))
      ∙ sym (push_all-append first rest k)
      ∙ ap (λ t. push_all t k) (take-append_drop count (x ∷ xs))

  pub length-push_all :
      (xs : List B) (k : Chunker D B) {k' : Chunker D B}
      → length k.buffer < chunk
      → push_all xs k ≡ some k'
      → length k'.buffer < chunk
  unfolding push_all push
  length-push_all [] k {k'} h e = subst (λ x. length x.buffer < chunk) (some-injective k k' e) h
  length-push_all (x ∷ xs) k h e =
      let (k1, f, g) = >>=-eq-some (push x k) (push_all xs) e in
      length-push_all xs k1
        (length-flushed (record k { buffer = k.buffer ++ (x ∷ []) }) k1
          (omega (arith, length-append k.buffer (x ∷ []))) (omega arith) f)
        g

  -- All bytes at once.
  unfoldable pub absorb : ℕ → List B → Capture D B → Option (Capture D B)
  unfolding push_all
  absorb max_bytes bytes c = do
    require (leb (c.size + length bytes) max_bytes)
    k ← push_all bytes c.chunker
    some (record { chunker = k; size = c.size + length bytes; seen = c.seen ++ bytes })

  sink-absorb :
      (max_bytes : ℕ) (bytes : List B) (c : Capture D B)
      → length c.chunker.buffer < chunk
      → sink dec decB zero_byte hash chunk limits max_bytes bytes c ≡ absorb max_bytes bytes c
  unfolding sink absorb
  sink-absorb max_bytes bytes c h =
      rw (fill-push_all (length bytes) bytes c.chunker (omega arith) h) refl

  -- What an absorption that succeeds gives.
  pub absorb-eq-some :
      (max_bytes : ℕ) (bytes : List B) (c : Capture D B) {c' : Capture D B}
      → absorb max_bytes bytes c ≡ some c'
      → (push_all bytes c.chunker ≡ some c'.chunker)
        × (c'.size ≡ c.size + length bytes)
        × (c'.seen ≡ c.seen ++ bytes)
        × (c'.size ≤ max_bytes)
  unfolding absorb
  absorb-eq-some max_bytes bytes c {c'} h =
      let (_, l, e) = >>=-eq-some (require (leb (c.size + length bytes) max_bytes)) _ h in
      let (k, f, g) = >>=-eq-some (push_all bytes c.chunker) _ e in
      let p = sym (
        some-injective
          (record { chunker = k; size = c.size + length bytes; seen = c.seen ++ bytes }) c' g) in
      (
        f ∙ ap (λ x. some x.chunker) (sym p),
        ap (λ x. x.size) p,
        ap (λ x. x.seen) p,
        rw (ap (λ x. x.size) p) (leb→le _ _ (require-eq-some _ l)),
      )

  absorb-append :
      (max_bytes : ℕ) (xs ys : List B) (c : Capture D B)
      → (absorb max_bytes xs c >>= absorb max_bytes ys) ≡ absorb max_bytes (xs ++ ys) c
  unfolding absorb
  absorb-append max_bytes xs ys c = elim (Bool-cases (leb (c.size + length xs) max_bytes)) [
    | inl e ↦ elim (Option-cases (push_all xs c.chunker)) [
      | inl n ↦
          rw (push_all-append xs ys c.chunker, e, n)
            (sym (>>=-none (require (leb (c.size + length (xs ++ ys)) max_bytes))))
      | inr (k, p) ↦
          rw
            (
              push_all-append xs ys c.chunker,
              length-append xs ys,
              sym (add_assoc c.size (length xs) (length ys)),
              sym (append_assoc c.seen xs ys),
              e,
              p,
            )
            refl
    ]
    | inr e ↦
        rw
          (
            e,
            lt→leb_false (c.size + length (xs ++ ys)) max_bytes
                (omega (arith, leb_false→lt _ _ e, length-append xs ys)),
          )
          refl
  ]

  absorb_nil :
      (max_bytes : ℕ) (c : Capture D B) → c.size ≤ max_bytes → absorb max_bytes [] c ≡ some c
  unfolding absorb push_all
  absorb_nil max_bytes c h = rw (add-zero c.size, le→leb _ _ h, append-nil c.seen) refl

  -- The pieces do not matter.
  pub sinks-absorb :
      (max_bytes : ℕ) (pieces : List (List B)) (c : Capture D B)
      → length c.chunker.buffer < chunk
      → c.size ≤ max_bytes
      → sinks dec decB zero_byte hash chunk limits max_bytes pieces c
        ≡ absorb max_bytes (concat pieces) c
  unfolding sinks
  sinks-absorb max_bytes [] c h l = sym (absorb_nil max_bytes c l)
  sinks-absorb max_bytes (bytes ∷ rest) c h l =
      ap (λ m. m >>= sinks dec decB zero_byte hash chunk limits max_bytes rest)
        (sink-absorb max_bytes bytes c h)
      ∙ >>=-congr (absorb max_bytes bytes c)
          (sinks dec decB zero_byte hash chunk limits max_bytes rest)
          (absorb max_bytes (concat rest))
          (λ c' e.
            let p = absorb-eq-some max_bytes bytes c e in
            sinks-absorb max_bytes rest c' (length-push_all bytes c.chunker h p.0) p.3)
      ∙ absorb-append max_bytes bytes (concat rest) c

  -- A capture in pieces is one of all the bytes at once.
  pub capture-concat :
      0 < chunk
      → (max_bytes : ℕ) (pieces : List (List B)) (bytes_read : ℕ) (v : View D B)
      → capture dec decB zero_byte hash chunk limits max_bytes pieces bytes_read v
        ≡ capture dec decB zero_byte hash chunk limits max_bytes (concat pieces ∷ []) bytes_read v
  unfolding capture fresh
  capture-concat pos max_bytes pieces bytes_read v =
      let c0 = fresh dec decB zero_byte hash chunk limits v in
      ap (λ m. m >>= finish dec decB zero_byte hash chunk limits bytes_read)
        (sinks-absorb max_bytes pieces c0 pos (omega arith)
          ∙ ap (λ t. absorb max_bytes t c0) (sym (append-nil (concat pieces)))
          ∙ sym (sinks-absorb max_bytes (concat pieces ∷ []) c0 pos (omega arith)))

  finish-none :
      (bytes_read : ℕ) (c : Capture D B)
      → c.size ≢ bytes_read
      → finish dec decB zero_byte hash chunk limits bytes_read c ≡ none
  unfolding finish
  finish-none bytes_read c h = rw (==-ne c.size bytes_read h) (>>=-none _)

  absorb-finish-none :
      (bytes : List B) (max_bytes bytes_read : ℕ) (c : Capture D B)
      → (max_bytes < c.size + length bytes) ⊎ (c.size + length bytes ≢ bytes_read)
      → (absorb max_bytes bytes c >>= finish dec decB zero_byte hash chunk limits bytes_read) ≡ none
  absorb-finish-none bytes max_bytes bytes_read c h =
      elim (Option-cases (absorb max_bytes bytes c)) [
        | inl e ↦ rw e refl
        | inr (c', e) ↦
            let a = absorb-eq-some max_bytes bytes c e in
            rw e (
              finish-none bytes_read c' (elim h [
                | inl l ↦ absurd (omega (arith, a.1, a.3))
                | inr n ↦ λ p. n (sym a.1 ∙ p)
              ]))
      ]

  -- A capture gives nothing where the bytes are more than the limit, or not as many as the reader says.
  pub capture-none :
      0 < chunk
      → (max_bytes : ℕ) (pieces : List (List B)) (bytes_read : ℕ) (v : View D B)
      → (max_bytes < length (concat pieces)) ⊎ (length (concat pieces) ≢ bytes_read)
      → capture dec decB zero_byte hash chunk limits max_bytes pieces bytes_read v ≡ none
  unfolding capture fresh
  capture-none pos max_bytes pieces bytes_read v h =
      let c0 = fresh dec decB zero_byte hash chunk limits v in
      ap (λ m. m >>= finish dec decB zero_byte hash chunk limits bytes_read)
        (sinks-absorb max_bytes pieces c0 pos (omega arith))
      ∙ absorb-finish-none (concat pieces) max_bytes bytes_read c0
          (elim h [ inl l ↦ inl (omega arith) | inr n ↦ inr (λ p. n (omega arith)) ])
