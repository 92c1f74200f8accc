-- ===== src/Content/Parsing.antt =====
-- src/artifact-reference.ts: what validation accepts, and that it accepts what it gave.
use native.Mathlib.Nat.{add-zero}
use pi_speculative_action.Prelude.{
  some-injective, refl, map, le→leb, leb→le, length-map, require, ◌==◌, sym, subst, ap, ◌∙◌, true,
  ℕ, suc, ◌+◌, ◌≤◌, Option, none, some, List, [], ◌∷◌, length, ◌≡◌, get, put, get-put_self,
  get-put_ne, >>=-eq-some, require-eq-some, ==_iff,
}
use pi_speculative_action.Numbers.{max_safe_integer}
use pi_speculative_action.Content.{
  RawReference, leb, raw_manifest, RawManifest, raw_reference, parse_manifest, Reference, Manifest,
  count_of, blocks_of, block_size, validate_artifact, parse_chunks, raw_count, same_size,
}
use pi_speculative_action.Content.Sizes.{
  count_of-raw_eq, validate_lem, block_size-le, count_of-le, Coherent-tail, length-parse_chunks,
  Sized-tail, count_of-raw, parse_chunks-Parsed, Sized, Coherent, Agrees,
}

-- A manifest: its size is a safe count, it has one block for each started run of `chunk` bytes and no
-- more than 65536, the sizes of the references are those of the blocks, and equal digests have equal sizes.
pub record IsManifest {ℓ} {D : Type ℓ} (chunk : ℕ) (m : Manifest D) : Type ℓ where
  pub safe : m.size ≤ max_safe_integer
  pub few : length m.chunks ≤ 65536
  pub counted : length m.chunks ≡ blocks_of chunk m.size
  pub sized : Sized chunk m.size 0 m.chunks
  pub coherent : Coherent m.chunks

module _ {ℓ} {D : Type ℓ} (dec : Discrete D) (chunk : ℕ) where
  -- What `parseContentManifest` accepts is a manifest.
  pub parse_manifest-IsManifest :
      (raw : RawManifest D) {m : Manifest D}
      → parse_manifest dec chunk raw ≡ some m
      → IsManifest chunk m
  unfolding parse_manifest
  parse_manifest-IsManifest raw {m} h =
      let (size, e, h1) = >>=-eq-some (count_of raw.size) _ h in
      let (digest, _, h2) = >>=-eq-some raw.digest _ h1 in
      let (chunks, _, h3) = >>=-eq-some raw.chunks _ h2 in
      let (_, f, h4) = >>=-eq-some (require (leb (length chunks) 65536)) _ h3 in
      let (_, g, h5) = >>=-eq-some (require (length chunks == blocks_of chunk size)) _ h4 in
      let (parsed, k, h6) = >>=-eq-some (parse_chunks dec chunk size 0 chunks []) _ h5 in
      let p = parse_chunks-Parsed dec chunk size 0 chunks [] k in
      let l = length-parse_chunks dec chunk size 0 chunks [] k in
      subst (IsManifest chunk)
        (some-injective (record { size = size; digest = digest; chunks = parsed }) m h6)
        (record {
          safe = count_of-le raw.size size e;
          few = rw l (leb→le (length chunks) 65536 (require-eq-some _ f));
          counted = l ∙ (==_iff (length chunks) (blocks_of chunk size)).0 (require-eq-some _ g);
          sized = p.sized;
          coherent = p.coherent;
        })

  Agrees-put :
      (sizes : List (D × ℕ)) (a : Reference D) (rs : List (Option (Reference D)))
      → Coherent (some a ∷ rs)
      → Agrees (λ d. get dec d sizes) (some a ∷ rs)
      → Agrees (λ d. get dec d (put dec a.digest a.size sizes)) rs
  Agrees-put sizes a rs c h i b n e k = elim (dec b.digest a.digest) [
    | yes p ↦
        c (suc i) 0 b a e refl p
        ∙ some-injective a.size n (
            sym (get-put_self dec a.digest a.size sizes)
            ∙ ap (λ d. get dec d (put dec a.digest a.size sizes)) (sym p)
            ∙ k)
    | no p ↦ h (suc i) b n e (sym (get-put_ne dec a.digest b.digest a.size sizes p) ∙ k)
  ]

  same_size-Agrees : (o : Option ℕ) (n : ℕ) → ((m : ℕ) → o ≡ some m → n ≡ m) → same_size o n ≡ true
  unfolding same_size
  same_size-Agrees none n h = refl
  same_size-Agrees (some m) n h = (==_iff m n).1 (sym (h m refl))

  validate-raw :
      (sizes : List (D × ℕ)) (a : Reference D) (rs : List (Option (Reference D)))
      → a.size ≤ max_safe_integer
      → Agrees (λ d. get dec d sizes) (some a ∷ rs)
      → validate_artifact dec (record { digest = some a.digest; size = raw_count a.size }) sizes
        ≡ some (a, put dec a.digest a.size sizes)
  unfolding validate_artifact
  validate-raw sizes a rs l h =
      rw
        (
          count_of-raw a.size l,
          same_size-Agrees (get dec a.digest sizes) a.size (λ m e. h 0 a m refl e),
        )
        refl

  parse_chunks-raw :
      (size index : ℕ) (sizes : List (D × ℕ)) (rs : List (Option (Reference D)))
      → size ≤ max_safe_integer
      → Sized chunk size index rs
      → Coherent rs
      → Agrees (λ d. get dec d sizes) rs
      → parse_chunks dec chunk size index (map raw_reference rs) sizes ≡ some rs
  unfolding parse_chunks raw_reference
  parse_chunks-raw size index sizes [] l s c h = refl
  parse_chunks-raw size index sizes (none ∷ rs) l s c h =
      rw
        (parse_chunks-raw size (index + 1) sizes rs l (Sized-tail chunk size index none rs s)
          (Coherent-tail none rs c) (λ i. h (suc i)))
        refl
  parse_chunks-raw size index sizes (some a ∷ rs) l s c h =
      let e : a.size ≡ block_size chunk size index =
        s 0 a refl ∙ ap (block_size chunk size) (add-zero index) in
      rw
        (
          validate-raw sizes a rs (block_size-le chunk size index e l) h,
          (==_iff a.size (block_size chunk size index)).1 e,
          parse_chunks-raw size (index + 1) (put dec a.digest a.size sizes) rs l
              (Sized-tail chunk size index (some a) rs s) (Coherent-tail (some a) rs c)
              (Agrees-put sizes a rs c h),
        )
        refl

  -- A manifest that is written down and parsed is the same manifest.
  pub parse_manifest-raw_manifest :
      (m : Manifest D) → IsManifest chunk m → parse_manifest dec chunk (raw_manifest m) ≡ some m
  unfolding parse_manifest raw_manifest get
  parse_manifest-raw_manifest m h =
      let l = length-map raw_reference m.chunks in
      rw
        (
          count_of-raw m.size h.safe,
          l,
          le→leb _ _ h.few,
          (==_iff _ _).1 h.counted,
          parse_chunks-raw m.size 0 [] m.chunks h.safe h.sized h.coherent (λ i a n e k. cc),
        )
        refl

module _ {ℓ} {D : Type ℓ} (dec : Discrete D) (chunk : ℕ) where
  Reference-eq : (a b : Reference D) → a.digest ≡ b.digest → a.size ≡ b.size → a ≡ b
  Reference-eq a b p q = ap (λ d. record a { digest = d }) p ∙ ap (λ n. record b { size = n }) q

  parse_chunks-raw_eq :
      (size index : ℕ) (sizes : List (D × ℕ)) (rs : List (Option (Reference D)))
      {rs' : List (Option (Reference D))}
      → parse_chunks dec chunk size index (map raw_reference rs) sizes ≡ some rs'
      → rs' ≡ rs
  unfolding parse_chunks raw_reference
  parse_chunks-raw_eq size index sizes [] {rs'} h = sym (some-injective [] rs' h)
  parse_chunks-raw_eq size index sizes (none ∷ rs) {rs'} h =
      let (rest, e, f) =
        >>=-eq-some (parse_chunks dec chunk size (index + 1) (map raw_reference rs) sizes) _ h in
      sym (some-injective (none ∷ rest) rs' f)
      ∙ ap (λ t. none ∷ t) (parse_chunks-raw_eq size (index + 1) sizes rs e)
  parse_chunks-raw_eq size index sizes (some r ∷ rs) {rs'} h =
      let raw : RawReference D = record { digest = some r.digest; size = raw_count r.size } in
      let ((a, sizes'), e, f) = >>=-eq-some (validate_artifact dec raw sizes) _ h in
      let (_, g, i) = >>=-eq-some (require (a.size == block_size chunk size index)) _ f in
      let (rest, j, k) =
        >>=-eq-some (parse_chunks dec chunk size (index + 1) (map raw_reference rs) sizes') _ i in
      let v = validate_lem dec raw sizes e in
      let p : r ≡ a =
        Reference-eq r a (some-injective r.digest a.digest v.2)
          (sym (count_of-raw_eq r.size a.size v.3)) in
      sym (some-injective (some a ∷ rest) rs' k)
      ∙ ap (λ t. some t ∷ rest) (sym p)
      ∙ ap (λ t. some r ∷ t) (parse_chunks-raw_eq size (index + 1) sizes' rs j)

  -- Validation changes nothing.
  pub parse_manifest-raw_eq :
      (m : Manifest D) {m' : Manifest D}
      → parse_manifest dec chunk (raw_manifest m) ≡ some m'
      → m' ≡ m
  unfolding parse_manifest raw_manifest
  parse_manifest-raw_eq m {m'} h =
      let (size, e, h1) = >>=-eq-some (count_of (raw_count m.size)) _ h in
      let (_, f, h4) =
        >>=-eq-some (require (leb (length (map raw_reference m.chunks)) 65536)) _ h1 in
      let (_, g, h5) =
        >>=-eq-some (require (length (map raw_reference m.chunks) == blocks_of chunk size)) _ h4 in
      let (parsed, k, h6) =
        >>=-eq-some (parse_chunks dec chunk size 0 (map raw_reference m.chunks) []) _ h5 in
      let p = count_of-raw_eq m.size size e in
      let q = parse_chunks-raw_eq size 0 [] m.chunks k in
      sym (some-injective (record { size = size; digest = m.digest; chunks = parsed }) m' h6)
      ∙ ap (λ x. record m { size = x; chunks = parsed }) p
      ∙ ap (λ x. record m { chunks = x }) q
