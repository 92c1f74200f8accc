-- ===== src/Order/Steps.antt =====
-- Each turn of the traversal of src/dependency-order.ts keeps the invariant.
use pi_speculative_action.Prelude.{
  Bool, true, false, Option, none, some, List, [], ◌∷◌, ◌++◌, map, update, All, has, ◌≡◌, refl, inl,
  inr, arith, has-cons_self, has-append_right, has-snoc, All-imp, Bool-cases, append_assoc,
  append-nil, subst,
}
use mathlib.Core.Option.{some-injective}
use pi_speculative_action.Order.{Entry, Traversal, unfinished, turn, visit}
use pi_speculative_action.Order.Invariant.{
  is_done, markers, same, listed, covered, Earlier, DepsFirst, Stacked, Inv,
}

module _ {ℓ} {A : Type ℓ} (dec : Discrete A) (deps : A → List (Option A)) where
  covered-cons :
      (s s' : A → Option Bool) (above above' : List (Option A)) (e : Option A)
      → ((d : Option A) → covered dec s above d ≡ true → covered dec s' above' d ≡ true)
      → (d : Option A) → covered dec s (e ∷ above) d ≡ true
      → covered dec s' (e ∷ above') d ≡ true
  covered-cons s s' above above' e imp d h = ground (arith, imp d)

  Stacked-imp :
      (s s' : A → Option Bool) (above above' : List (Option A)) (stack : List (Entry A))
      → ((d : Option A) → covered dec s above d ≡ true → covered dec s' above' d ≡ true)
      → ((n : A) → has dec n (markers stack) ≡ true → s n ≡ some false → s' n ≡ some false)
      → Stacked dec deps s above stack
      → Stacked dec deps s' above' stack
  Stacked-imp s s' above above' [] imp keep h = tt
  Stacked-imp s s' above above' ((none, flag) ∷ rest) imp keep h =
      Stacked-imp s s' (none ∷ above) (none ∷ above') rest (covered-cons s s' above above' none imp)
        keep h
  Stacked-imp s s' above above' ((some n, false) ∷ rest) imp keep h =
      Stacked-imp s s' (some n ∷ above) (some n ∷ above') rest
        (covered-cons s s' above above' (some n) imp) keep h
  Stacked-imp s s' above above' ((some n, true) ∷ rest) imp keep h = (
    keep n (has-cons_self dec n (markers rest)) h.0,
    All-imp _ _ imp (deps n) h.1,
    h.2,
    Stacked-imp s s' (some n ∷ above) (some n ∷ above') rest
        (covered-cons s s' above above' (some n) imp)
        (λ m k. keep m (has-append_right dec m (n ∷ []) (markers rest) k)) h.3,
  )

  -- A node under way has the state of one.
  marker-active :
      (s : A → Option Bool) (above : List (Option A)) (stack : List (Entry A)) (m : A)
      → Stacked dec deps s above stack
      → has dec m (markers stack) ≡ true
      → s m ≡ some false
  unfolding has
  marker-active s above [] m h k = cc
  marker-active s above ((none, flag) ∷ rest) m h k = marker-active s (none ∷ above) rest m h k
  marker-active s above ((some n, false) ∷ rest) m h k = marker-active s (some n ∷ above) rest m h k
  marker-active s above ((some n, true) ∷ rest) m h k =
      ground (arith, marker-active s (some n ∷ above) rest m h.3)

  pushes : List (Option A) → List (Option A) → List (Option A)
  pushes [] above = above
  pushes (d ∷ ds) above = pushes ds (d ∷ above)

  Stacked-pushes :
      (s : A → Option Bool) (ds above : List (Option A)) (stack : List (Entry A))
      → Stacked dec deps s (pushes ds above) stack
      → Stacked dec deps s above (map unfinished ds ++ stack)
  unfolding pushes
  Stacked-pushes s [] above stack h = h
  Stacked-pushes s (none ∷ ds) above stack h = Stacked-pushes s ds (none ∷ above) stack h
  Stacked-pushes s (some n ∷ ds) above stack h = Stacked-pushes s ds (some n ∷ above) stack h

  listed-pushes :
      (d : Option A) (ds above : List (Option A))
      → listed dec d above ≡ true
      → listed dec d (pushes ds above) ≡ true
  unfolding pushes
  listed-pushes d [] above h = h
  listed-pushes d (e ∷ ds) above h = listed-pushes d ds (e ∷ above) (ground arith)

  same_self : (d : Option A) → same dec d d ≡ true
  same_self none = refl
  same_self (some n) = ground arith

  All-pushes :
      (s : A → Option Bool) (ds above : List (Option A))
      → All (λ d. covered dec s (pushes ds above) d ≡ true) ds
  unfolding pushes
  All-pushes s [] above = tt
  All-pushes s (d ∷ ds) above =
      (ground (arith, listed-pushes d ds (d ∷ above), same_self d), All-pushes s ds (d ∷ above))

  -- The first entry may go once its node is done.
  covered-drop :
      (s s' : A → Option Bool) (n : A) (above : List (Option A)) (d : Option A)
      → is_done (s' n) ≡ true
      → ((p : A) → is_done (s p) ≡ true → is_done (s' p) ≡ true)
      → covered dec s (some n ∷ above) d ≡ true
      → covered dec s' above d ≡ true
  covered-drop s s' n above none e grow h = ground arith
  covered-drop s s' n above (some p) e grow h = ground (arith, grow p)

  covered-more :
      (s s' : A → Option Bool) (above above' : List (Option A)) (d : Option A)
      → ((p : A) → is_done (s p) ≡ true → is_done (s' p) ≡ true)
      → (listed dec d above ≡ true → listed dec d above' ≡ true)
      → covered dec s above d ≡ true
      → covered dec s' above' d ≡ true
  covered-more s s' above above' none grow more h = ground arith
  covered-more s s' above above' (some p) grow more h = ground (arith, grow p)

  snoc-DepsFirst :
      (before xs : List A) (n : A)
      → DepsFirst dec deps before xs
      → has dec n (before ++ xs) ≡ false
      → All (Earlier dec (before ++ xs)) (deps n)
      → DepsFirst dec deps before (xs ++ (n ∷ []))
  snoc-DepsFirst before [] n h new deps_in =
      (rw (← append-nil before) new, rw (← append-nil before) deps_in, tt)
  snoc-DepsFirst before (x ∷ xs) n h new deps_in = (
    h.0,
    h.1,
    snoc-DepsFirst (before ++ (x ∷ [])) xs n h.2 (rw append_assoc new) (rw append_assoc deps_in),
  )

  grow_update :
      (s : A → Option Bool) (n : A) (b : Bool)
      → is_done (s n) ≡ false
      → (p : A) → is_done (s p) ≡ true
      → is_done (update dec s n b p) ≡ true
  grow_update s n b e p h = ground arith

  grow_finish :
      (s : A → Option Bool) (n p : A)
      → is_done (s p) ≡ true
      → is_done (update dec s n true p) ≡ true
  grow_finish s n p h = ground arith

  listed-one :
      (d : Option A) (n : A) (ds : List (Option A))
      → listed dec d (some n ∷ []) ≡ true
      → listed dec d (some n ∷ ds) ≡ true
  listed-one d n ds h = ground arith

  pub markers-pushed :
      (ds : List (Option A)) (stack : List (Entry A))
      → markers (map unfinished ds ++ stack) ≡ markers stack
  markers-pushed [] stack = refl
  markers-pushed (none ∷ ds) stack = markers-pushed ds stack
  markers-pushed (some n ∷ ds) stack = markers-pushed ds stack

  new-not-marker :
      (s : A → Option Bool) (above : List (Option A)) (stack : List (Entry A)) (n : A)
      → Stacked dec deps s above stack
      → s n ≡ none
      → has dec n (markers stack) ≡ false
  new-not-marker s above stack n h e = elim (Bool-cases (has dec n (markers stack))) [
    | inl m ↦ absurd (cc (marker-active s above stack n h m))
    | inr m ↦ m
  ]

  Earlier-of_covered :
      (s : A → Option Bool) (before : List A)
      → ((n : A) → is_done (s n) ≡ has dec n before)
      → (d : Option A) → covered dec s [] d ≡ true
      → Earlier dec before d
  Earlier-of_covered s before tracked none h = cc
  Earlier-of_covered s before tracked (some p) h = ground (arith, tracked p)

  -- An entry whose node is done is dropped.
  skip-Inv :
      (n : A) (rest : List (Entry A)) (t : Traversal A)
      → t.states n ≡ some true
      → Inv dec deps ((some n, false) ∷ rest) t
      → Inv dec deps rest t
  skip-Inv n rest t e v = record {
    stacked =
        Stacked-imp t.states t.states (some n ∷ []) [] rest
          (λ d h. covered-drop t.states t.states n [] d (rw e) (λ p k. k) h) (λ m k h. h) v.stacked;
    tracked = v.tracked;
    sorted = v.sorted;
    active = v.active;
  }

  -- A new node goes under way, below its dependencies.
  open-Inv :
      (n : A) (rest : List (Entry A)) (t : Traversal A)
      → t.states n ≡ none
      → Inv dec deps ((some n, false) ∷ rest) t
      → Inv dec deps
          (map unfinished (deps n) ++ ((some n, true) ∷ rest))
          (record t { states = update dec t.states n false })
  unfolding has
  open-Inv n rest t e v =
      let s : A → Option Bool = t.states in
      let s' : A → Option Bool = update dec t.states n false in
      record {
        stacked = Stacked-pushes s' (deps n) [] ((some n, true) ∷ rest) (
          ground arith,
          All-pushes s' (deps n) [],
          new-not-marker s (some n ∷ []) rest n v.stacked e,
          Stacked-imp s s' (some n ∷ []) (some n ∷ pushes (deps n) []) rest
              (λ d h.
                covered-more s s' (some n ∷ []) (some n ∷ pushes (deps n) []) d
                  (grow_update s n false (rw e)) (listed-one d n (pushes (deps n) [])) h)
              (λ m k h. ground arith) v.stacked,
        );
        tracked = λ m. ground (arith, v.tracked m);
        sorted = v.sorted;
        active = λ m h. rw (markers-pushed (deps n)) (ground (arith, v.active m));
      }

  -- A node whose dependencies are done joins the order.
  close-Inv :
      (n : A) (rest : List (Entry A)) (t : Traversal A)
      → Inv dec deps ((some n, true) ∷ rest) t
      → Inv dec deps rest
          (record { states = update dec t.states n true; ordered = t.ordered ++ (n ∷ []) })
  unfolding has
  close-Inv n rest t v =
      let s : A → Option Bool = t.states in
      let s' : A → Option Bool = update dec t.states n true in
      record {
        stacked =
            Stacked-imp s s' (some n ∷ []) [] rest
              (λ d h. covered-drop s s' n [] d (ground arith) (grow_finish s n) h)
              (λ m k h. ground (arith, v.stacked.2)) v.stacked.3;
        tracked = λ m. ground (arith, v.tracked m, has-snoc dec m n t.ordered);
        sorted =
            snoc-DepsFirst [] t.ordered n v.sorted (ground (arith, v.tracked n, v.stacked.0))
              (All-imp _ _ (Earlier-of_covered s t.ordered v.tracked) (deps n) v.stacked.1);
        active = λ m h. ground (arith, v.active m);
      }

  visit-Inv :
      (state : Option Bool) (n : A) (rest : List (Entry A)) (t : Traversal A)
      {next : List (Entry A) × Traversal A}
      → t.states n ≡ state
      → visit dec deps state n rest t ≡ some next
      → Inv dec deps ((some n, false) ∷ rest) t
      → Inv dec deps next.0 next.1
  unfolding visit
  visit-Inv (some true) n rest t e h v =
      subst (λ x. Inv dec deps x.0 x.1) (some-injective _ _ h) (skip-Inv n rest t e v)
  visit-Inv (some false) n rest t e h v = cc
  visit-Inv none n rest t e h v =
      subst (λ x. Inv dec deps x.0 x.1) (some-injective _ _ h) (open-Inv n rest t e v)

  -- The body of the loop keeps the invariant.
  pub turn-Inv :
      (entry : Entry A) (rest : List (Entry A)) (t : Traversal A)
      {next : List (Entry A) × Traversal A}
      → turn dec deps entry rest t ≡ some next
      → Inv dec deps (entry ∷ rest) t
      → Inv dec deps next.0 next.1
  unfolding turn
  turn-Inv (none, flag) rest t h v = cc
  turn-Inv (some n, true) rest t h v =
      subst (λ x. Inv dec deps x.0 x.1) (some-injective _ _ h) (close-Inv n rest t v)
  turn-Inv (some n, false) rest t h v = visit-Inv (t.states n) n rest t refl h v
