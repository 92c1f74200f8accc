-- ===== src/Content/Sizes.antt =====
-- src/artifact-reference.ts: the sizes and the digests of the references that a loop accepts.
use native.Mathlib.Nat.{add-zero, mul-div_cancel, mul-mod_left}
use pi_speculative_action.Prelude.{
  some-injective, require, ◌==◌, sym, subst, ap, ◌∙◌, true, ℕ, zero, suc, ◌+◌, ◌≤◌, Option, none,
  some, List, [], ◌∷◌, length, ◌≡◌, arith, get, put, get_elem?, get-put_self, get-put_ne,
  >>=-eq-some, require-eq-some, ==_iff,
}
use pi_speculative_action.Numbers.{Number, max_safe_integer, unit, unit_pos, is_safe_count}
use pi_speculative_action.Content.{
  Reference, RawReference, count_of, block_size, validate_artifact, parse_chunks, raw_count,
  same_size,
}

pub count_of-raw : (n : ℕ) → n ≤ max_safe_integer → count_of (raw_count n) ≡ some n
unfolding count_of raw_count is_safe_count
count_of-raw n h = rw (mul-div_cancel n unit_pos, mul-mod_left n unit) (ground arith)

pub count_of-raw_eq : (n k : ℕ) → count_of (raw_count n) ≡ some k → k ≡ n
unfolding count_of raw_count is_safe_count
count_of-raw_eq n k h = let e = mul-div_cancel n unit_pos in ground arith

pub count_of-le : (v : Option Number) (n : ℕ) → count_of v ≡ some n → n ≤ max_safe_integer
unfolding count_of is_safe_count
count_of-le v n h = ground arith

pub block_size-le :
    (chunk size index : ℕ) {n : ℕ}
    → n ≡ block_size chunk size index
    → size ≤ max_safe_integer
    → n ≤ max_safe_integer
unfolding block_size
block_size-le chunk size index e h = omega arith

module _ {ℓ} {D : Type ℓ} where
  -- The reference of the block at each place has the size of the block.
  abbrev pub Sized : ℕ → ℕ → ℕ → List (Option (Reference D)) → Type ℓ
  Sized chunk size index rs =
      (i : ℕ) (a : Reference D)
      → get_elem? rs i ≡ some (some a)
      → a.size ≡ block_size chunk size (index + i)

  -- Equal digests have equal sizes.
  abbrev pub Coherent : List (Option (Reference D)) → Type ℓ
  Coherent rs =
      (i j : ℕ) (a b : Reference D)
      → get_elem? rs i ≡ some (some a)
      → get_elem? rs j ≡ some (some b)
      → a.digest ≡ b.digest
      → a.size ≡ b.size

  -- The known sizes are those of the references.
  abbrev pub Agrees : (D → Option ℕ) → List (Option (Reference D)) → Type ℓ
  Agrees known rs =
      (i : ℕ) (a : Reference D) (n : ℕ)
      → get_elem? rs i ≡ some (some a)
      → known a.digest ≡ some n
      → a.size ≡ n

module _ {ℓ} {D : Type ℓ} (dec : Discrete D) where
  -- What a validation leaves behind.
  record Validated (sizes : List (D × ℕ)) (a : Reference D) (sizes' : List (D × ℕ)) : Type ℓ where
    known : get dec a.digest sizes' ≡ some a.size
    kept : (d : D) (n : ℕ) → get dec d sizes ≡ some n → get dec d sizes' ≡ some n

  put-Validated :
      (a : Reference D) (sizes : List (D × ℕ))
      → same_size (get dec a.digest sizes) a.size ≡ true
      → Validated sizes a (put dec a.digest a.size sizes)
  unfolding same_size
  put-Validated a sizes h = record {
    known = get-put_self dec a.digest a.size sizes;
    kept = λ d n e. elim (dec d a.digest) [
      | yes p ↦ kept_self d n p e
      | no p ↦ get-put_ne dec a.digest d a.size sizes p ∙ e
    ];
  }
    where
      kept_self :
          (d : D) (n : ℕ)
          → d ≡ a.digest
          → get dec d sizes ≡ some n
          → get dec d (put dec a.digest a.size sizes) ≡ some n
      kept_self d n p e =
          let k = get-put_self dec a.digest a.size sizes in
          let f = ap (λ x. get dec x sizes) p in ground arith

  pub validate_lem :
      (r : RawReference D) (sizes : List (D × ℕ)) {a : Reference D} {sizes' : List (D × ℕ)}
      → validate_artifact dec r sizes ≡ some (a, sizes')
      → (same_size (get dec a.digest sizes) a.size ≡ true)
        × (sizes' ≡ put dec a.digest a.size sizes)
        × (r.digest ≡ some a.digest)
        × (count_of r.size ≡ some a.size)
  unfolding validate_artifact
  validate_lem r sizes h = ground arith

  parse-Validated :
      (r : RawReference D) (sizes : List (D × ℕ)) {a : Reference D} {sizes' : List (D × ℕ)}
      → validate_artifact dec r sizes ≡ some (a, sizes')
      → Validated sizes a sizes'
  parse-Validated r sizes {a} h =
      let v = validate_lem r sizes h in
      subst (Validated sizes a) (sym v.1) (put-Validated a sizes v.0)

module _ {ℓ} {D : Type ℓ} where
  Sized-cons :
      (chunk size index : ℕ) (b : Option (Reference D)) (rs : List (Option (Reference D)))
      → ((a : Reference D) → b ≡ some a → a.size ≡ block_size chunk size index)
      → Sized chunk size (index + 1) rs
      → Sized chunk size index (b ∷ rs)
  Sized-cons chunk size index b rs h k zero a e = rw (add-zero index) (h a (ground arith))
  Sized-cons chunk size index b rs h k (suc i) a e =
      let p : index + suc i ≡ index + 1 + i = omega arith in rw p (k i a e)

  pub Sized-tail :
      (chunk size index : ℕ) (b : Option (Reference D)) (rs : List (Option (Reference D)))
      → Sized chunk size index (b ∷ rs)
      → Sized chunk size (index + 1) rs
  Sized-tail chunk size index b rs h i a e =
      let p : index + 1 + i ≡ index + suc i = omega arith in rw p (h (suc i) a e)

  pub Coherent-tail :
      (b : Option (Reference D)) (rs : List (Option (Reference D)))
      → Coherent (b ∷ rs)
      → Coherent rs
  Coherent-tail b rs h i j = h (suc i) (suc j)

  Agrees-none :
      (known : D → Option ℕ) (rs : List (Option (Reference D)))
      → Agrees known rs
      → Agrees known (none ∷ rs)
  Agrees-none known rs h zero a n e k = cc
  Agrees-none known rs h (suc i) a n e k = h i a n e k

  Coherent-none : (rs : List (Option (Reference D))) → Coherent rs → Coherent (none ∷ rs)
  Coherent-none rs h zero j a b e f p = cc
  Coherent-none rs h (suc i) zero a b e f p = cc
  Coherent-none rs h (suc i) (suc j) a b e f p = h i j a b e f p

module _ {ℓ} {D : Type ℓ} (dec : Discrete D) (chunk : ℕ) where
  -- What the blocks that a loop gives have.
  pub record Parsed (size index : ℕ) (sizes : List (D × ℕ)) (rs : List (Option (Reference D)))
      : Type ℓ where
    pub sized : Sized chunk size index rs
    pub coherent : Coherent rs
    pub agrees : Agrees (λ d. get dec d sizes) rs

  Parsed-cons :
      (size index : ℕ) (sizes sizes' : List (D × ℕ)) (a : Reference D)
      (rs : List (Option (Reference D)))
      → Validated dec sizes a sizes'
      → a.size ≡ block_size chunk size index
      → Parsed size (index + 1) sizes' rs
      → Parsed size index sizes (some a ∷ rs)
  Parsed-cons size index sizes sizes' a rs v s h = record {
    sized =
        Sized-cons chunk size index (some a) rs
          (λ b e. subst (λ x. x.size ≡ block_size chunk size index) (some-injective a b e) s)
          h.sized;
    coherent = pairs;
    agrees = known;
  }
    where
      with_head :
          (j : ℕ) (b : Reference D)
          → get_elem? rs j ≡ some (some b)
          → b.digest ≡ a.digest
          → b.size ≡ a.size
      with_head j b e p = h.agrees j b a.size e (ap (λ d. get dec d sizes') p ∙ v.known)

      same : (b : Reference D) → get_elem? (some a ∷ rs) zero ≡ some (some b) → a ≡ b
      same b e = some-injective a b (some-injective (some a) (some b) e)

      pairs : Coherent (some a ∷ rs)
      pairs zero zero b c e f p = ap (λ x. x.size) (sym (same b e) ∙ same c f)
      pairs zero (suc j) b c e f p =
          ap (λ x. x.size) (sym (same b e))
          ∙ sym (with_head j c f (sym p ∙ ap (λ x. x.digest) (sym (same b e))))
      pairs (suc i) zero b c e f p =
          with_head i b e (p ∙ ap (λ x. x.digest) (sym (same c f))) ∙ ap (λ x. x.size) (same c f)
      pairs (suc i) (suc j) b c e f p = h.coherent i j b c e f p

      known : Agrees (λ d. get dec d sizes) (some a ∷ rs)
      known zero b n e k =
          let q = same b e in
          ap (λ x. x.size) (sym q)
          ∙ some-injective a.size n
              (sym v.known ∙ ap (λ x. get dec x.digest sizes') q ∙ v.kept b.digest n k)
      known (suc i) b n e k = h.agrees i b n e (v.kept b.digest n k)

  Parsed-nil :
      (size index : ℕ) (sizes : List (D × ℕ)) {rs : List (Option (Reference D))}
      → Path (Option (List (Option (Reference D)))) (some []) (some rs)
      → Parsed size index sizes rs
  Parsed-nil size index sizes {rs} h =
      subst (Parsed size index sizes) (some-injective [] rs h)
        (record { sized = λ i a e. cc; coherent = λ i j a b e f p. cc; agrees = λ i a n e k. cc })

  Parsed-none :
      (size index : ℕ) (sizes : List (D × ℕ)) (rest : List (Option (Reference D)))
      {rs : List (Option (Reference D))}
      → Parsed size (index + 1) sizes rest
      → none ∷ rest ≡ rs
      → Parsed size index sizes rs
  Parsed-none size index sizes rest p h = subst (Parsed size index sizes) h (record {
    sized = Sized-cons chunk size index none rest (λ a e. cc) p.sized;
    coherent = Coherent-none rest p.coherent;
    agrees = Agrees-none (λ d. get dec d sizes) rest p.agrees;
  })

  pub parse_chunks-Parsed :
      (size index : ℕ) (raws : List (Option (RawReference D))) (sizes : List (D × ℕ))
      {rs : List (Option (Reference D))}
      → parse_chunks dec chunk size index raws sizes ≡ some rs
      → Parsed size index sizes rs
  unfolding parse_chunks
  parse_chunks-Parsed size index [] sizes h = Parsed-nil size index sizes h
  parse_chunks-Parsed size index (none ∷ raws) sizes {rs} h =
      let (rest, e, f) = >>=-eq-some _ _ h in
      let p = parse_chunks-Parsed size (index + 1) raws sizes e in
      Parsed-none size index sizes rest p (some-injective (none ∷ rest) rs f)
  parse_chunks-Parsed size index (some r ∷ raws) sizes {rs} h =
      let ((a, sizes'), e, f) = >>=-eq-some (validate_artifact dec r sizes) _ h in
      let (_, g, i) = >>=-eq-some (require (a.size == block_size chunk size index)) _ f in
      let (rest, j, k) = >>=-eq-some (parse_chunks dec chunk size (index + 1) raws sizes') _ i in
      let p = parse_chunks-Parsed size (index + 1) raws sizes' j in
      subst (Parsed size index sizes) (some-injective (some a ∷ rest) rs k) (
        Parsed-cons size index sizes sizes' a rest (parse-Validated dec r sizes e)
          ((==_iff a.size (block_size chunk size index)).0 (require-eq-some _ g)) p)

  pub length-parse_chunks :
      (size index : ℕ) (raws : List (Option (RawReference D))) (sizes : List (D × ℕ))
      {rs : List (Option (Reference D))}
      → parse_chunks dec chunk size index raws sizes ≡ some rs
      → length rs ≡ length raws
  unfolding parse_chunks
  length-parse_chunks size index [] sizes {rs} h = ap length (sym (some-injective [] rs h))
  length-parse_chunks size index (none ∷ raws) sizes {rs} h =
      let (rest, e, f) = >>=-eq-some _ _ h in
      ap length (sym (some-injective (none ∷ rest) rs f))
      ∙ ap suc (length-parse_chunks size (index + 1) raws sizes e)
  length-parse_chunks size index (some r ∷ raws) sizes {rs} h =
      let ((a, sizes'), e, f) = >>=-eq-some (validate_artifact dec r sizes) _ h in
      let (_, g, i) = >>=-eq-some (require (a.size == block_size chunk size index)) _ f in
      let (rest, j, k) = >>=-eq-some (parse_chunks dec chunk size (index + 1) raws sizes') _ i in
      ap length (sym (some-injective (some a ∷ rest) rs k))
      ∙ ap suc (length-parse_chunks size (index + 1) raws sizes' j)
