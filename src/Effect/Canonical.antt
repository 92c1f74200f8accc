-- ===== src/Effect/Canonical.antt =====
-- src/effect-model.ts: a requirement is a canonical form of the set of its capabilities.
use pi_speculative_action.Prelude.{
  ◌&&◌, subst, ◌≤◌, ◌≤◌, ℕ, ◌<◌, true, false, ◌||◌, List, [], ◌∷◌, All, All-imp, if◌then◌else◌, ltb,
  ◌==◌, ◌≡◌, refl, sym, ◌∙◌, ap, ap₂, arith, Bool-cases, inl, inr,
}
use pi_speculative_action.Effect.{
  everything, only, every_in, EffectCapabilities, effect_capabilities_cover, only,
  EffectCapabilities, effect_capabilities_cover, every_in, EffectCapability, host_function, process,
  workspace_path, filesystem_read, filesystem_write, process_spawn, network_mediate, ipc_mediate,
  time_virtualize, random_virtualize, output_gate, resource_snapshot, rank, contains, insert,
  effect_requirements,
}

ranked : ℕ → EffectCapability
ranked n =
    if n == 0
    then filesystem_read
    else (if n == 1
        then filesystem_write
        else (if n == 2
            then host_function
            else (if n == 3
                then process
                else (if n == 4
                    then workspace_path
                    else (if n == 5
                        then ipc_mediate
                        else (if n == 6
                            then network_mediate
                            else (if n == 7
                                then output_gate
                                else (if n == 8
                                    then process_spawn
                                    else (if n == 9
                                        then random_virtualize
                                        else (if n == 10
                                            then time_virtualize
                                            else (resource_snapshot)))))))))))

ranked-rank : (c : EffectCapability) → ranked (rank c) ≡ c
unfolding ranked rank
ranked-rank filesystem_read = refl
ranked-rank filesystem_write = refl
ranked-rank host_function = refl
ranked-rank process = refl
ranked-rank workspace_path = refl
ranked-rank ipc_mediate = refl
ranked-rank network_mediate = refl
ranked-rank output_gate = refl
ranked-rank process_spawn = refl
ranked-rank random_virtualize = refl
ranked-rank time_virtualize = refl
ranked-rank resource_snapshot = refl

rank_inj : (c d : EffectCapability) → rank c ≡ rank d → c ≡ d
rank_inj c d h = sym (ranked-rank c) ∙ ap ranked h ∙ ranked-rank d

-- Strictly ascending.
abbrev pub IsSorted : List EffectCapability → Type 0
IsSorted [] = Unit
IsSorted (x ∷ xs) = All (λ y. rank x < rank y) xs × IsSorted xs

contains-insert :
    (a c : EffectCapability) (xs : List EffectCapability)
    → contains a (insert c xs) ≡ (rank a == rank c || contains a xs)
unfolding contains insert
contains-insert a c [] = refl
contains-insert a c (x ∷ xs) = ground (arith, contains-insert a c xs)

contains-effect_requirements :
    (a : EffectCapability) (xs : List EffectCapability)
    → contains a (effect_requirements xs) ≡ contains a xs
unfolding effect_requirements contains
contains-effect_requirements a [] = refl
contains-effect_requirements a (x ∷ xs) =
    contains-insert a x (effect_requirements xs)
    ∙ ap (λ b. rank a == rank x || b) (contains-effect_requirements a xs)

All-insert :
    (n : ℕ) (c : EffectCapability) (xs : List EffectCapability)
    → n < rank c
    → All (λ y. n < rank y) xs
    → All (λ y. n < rank y) (insert c xs)
unfolding insert
All-insert n c [] l h = (l, tt)
All-insert n c (x ∷ xs) l h = elim (Bool-cases (rank c == rank x)) [
  | inl e ↦ rw (insert, e) h
  | inr e ↦ elim (Bool-cases (ltb (rank c) (rank x))) [
    | inl k ↦ rw (insert, e, k) (l, h)
    | inr k ↦ rw (insert, e, k) (h.0, All-insert n c xs l h.1)
  ]
]

insert-IsSorted :
    (c : EffectCapability) (xs : List EffectCapability) → IsSorted xs → IsSorted (insert c xs)
unfolding insert
insert-IsSorted c [] h = (tt, tt)
insert-IsSorted c (x ∷ xs) h = elim (Bool-cases (rank c == rank x)) [
  | inl e ↦ rw (insert, e) h
  | inr e ↦ elim (Bool-cases (ltb (rank c) (rank x))) [
    | inl k ↦ rw (insert, e, k) ((ground arith, All-imp _ _ (λ y l. ground (arith, l)) xs h.0), h)
    | inr k ↦
        rw (insert, e, k) (All-insert (rank x) c xs (ground arith) h.0, insert-IsSorted c xs h.1)
  ]
]

effect_requirements-IsSorted : (xs : List EffectCapability) → IsSorted (effect_requirements xs)
unfolding effect_requirements
effect_requirements-IsSorted [] = tt
effect_requirements-IsSorted (x ∷ xs) =
    insert-IsSorted x (effect_requirements xs) (effect_requirements-IsSorted xs)

contains_above :
    (a : EffectCapability) (n : ℕ) (xs : List EffectCapability)
    → contains a xs ≡ true
    → All (λ y. n < rank y) xs
    → n < rank a
unfolding contains
contains_above a n [] e h = cc
contains_above a n (x ∷ xs) e h = elim (Bool-cases (contains a xs)) [
  | inl k ↦ contains_above a n xs k h.1
  | inr k ↦ (let l = h.0 in ground arith)
]

contains_below :
    (a : EffectCapability) (n : ℕ) (xs : List EffectCapability)
    → rank a ≤ n
    → All (λ y. n < rank y) xs
    → contains a xs ≡ false
contains_below a n xs l h = elim (Bool-cases (contains a xs)) [
  | inl k ↦ absurd (let m = contains_above a n xs k h in omega arith)
  | inr k ↦ k
]

-- The head of one list stands in the other, and does not come before its head.
head_le :
    (x y : EffectCapability) (ys : List EffectCapability)
    → contains x (y ∷ ys) ≡ true
    → All (λ z. rank y < rank z) ys
    → rank y ≤ rank x
unfolding contains
head_le x y ys e h = elim (Bool-cases (contains x ys)) [
  | inl k ↦ (let l = contains_above x (rank y) ys k h in omega arith)
  | inr k ↦ ground arith
]

contains-cons_self :
    (x : EffectCapability) (xs : List EffectCapability) → contains x (x ∷ xs) ≡ true
unfolding contains
contains-cons_self x xs = ground arith

tails :
    (x : EffectCapability) (xs ys : List EffectCapability)
    → All (λ z. rank x < rank z) xs
    → All (λ z. rank x < rank z) ys
    → (a : EffectCapability) → contains a (x ∷ xs) ≡ contains a (x ∷ ys)
    → contains a xs ≡ contains a ys
unfolding contains
tails x xs ys h k a e = elim (Bool-cases (rank a == rank x)) [
  | inl p ↦
      contains_below a (rank x) xs (ground arith) h
      ∙ sym (contains_below a (rank x) ys (ground arith) k)
  | inr p ↦ ground arith
]

-- Ascending lists of the same capabilities are the same.
sorted_ext :
    (xs ys : List EffectCapability)
    → IsSorted xs
    → IsSorted ys
    → ((a : EffectCapability) → contains a xs ≡ contains a ys)
    → xs ≡ ys
sorted_ext [] [] h k e = refl
sorted_ext [] (y ∷ ys) h k e =
    let c = contains-cons_self y ys in let d = e y in unfold contains in cc
sorted_ext (x ∷ xs) [] h k e =
    let c = contains-cons_self x xs in let d = e x in unfold contains in cc
sorted_ext (x ∷ xs) (y ∷ ys) h k e =
    let up : rank y ≤ rank x = head_le x y ys (sym (e x) ∙ contains-cons_self x xs) k.0 in
    let down : rank x ≤ rank y = head_le y x xs (e y ∙ contains-cons_self y ys) h.0 in
    let p : x ≡ y = rank_inj x y (omega arith) in
    ap₂ (λ c cs. c ∷ cs) p
      (sorted_ext xs ys h.1 k.1 (λ a.
        tails x xs ys h.0 (subst (λ w. All (λ z. rank w < rank z) ys) (sym p) k.0) a
          (e a ∙ ap (λ w. contains a (w ∷ ys)) (sym p))))

-- Two lists of capabilities that hold the same ones, in any order and any number of times, make the
-- same requirement.
pub effect_requirements_canonical :
    (xs ys : List EffectCapability)
    → ((a : EffectCapability) → contains a xs ≡ contains a ys)
    → effect_requirements xs ≡ effect_requirements ys
effect_requirements_canonical xs ys e =
    sorted_ext (effect_requirements xs) (effect_requirements ys) (effect_requirements-IsSorted xs)
      (effect_requirements-IsSorted ys)
      (λ a. contains-effect_requirements a xs ∙ e a ∙ sym (contains-effect_requirements a ys))

every_in-insert :
    (c : EffectCapability) (xs provided : List EffectCapability)
    → every_in (insert c xs) provided ≡ (contains c provided && every_in xs provided)
unfolding every_in insert
every_in-insert c [] provided = refl
every_in-insert c (x ∷ xs) provided = elim (Bool-cases (rank c == rank x)) [
  | inl e ↦
      let p : c ≡ x = rank_inj c x (ground arith) in
      let q : contains c provided ≡ contains x provided = ap (λ d. contains d provided) p in
      rw (insert, e) (ground arith)
  | inr e ↦ elim (Bool-cases (ltb (rank c) (rank x))) [
    | inl k ↦ rw (insert, e, k) refl
    | inr k ↦ rw (insert, e, k) (ground (arith, every_in-insert c xs provided))
  ]
]

every_in-effect_requirements :
    (xs provided : List EffectCapability)
    → every_in (effect_requirements xs) provided ≡ every_in xs provided
unfolding every_in effect_requirements
every_in-effect_requirements [] provided = refl
every_in-effect_requirements (x ∷ xs) provided =
    every_in-insert x (effect_requirements xs) provided
    ∙ ap (λ b. contains x provided && b) (every_in-effect_requirements xs provided)

-- Capabilities cover a requirement exactly if they cover the capabilities that it was made of.
pub effect_capabilities_cover-effect_requirements :
    (provided : EffectCapabilities) (xs : List EffectCapability)
    → effect_capabilities_cover provided (effect_requirements xs)
      ≡ effect_capabilities_cover provided xs
unfolding effect_capabilities_cover
effect_capabilities_cover-effect_requirements everything xs = refl
effect_capabilities_cover-effect_requirements (only provided) xs =
    every_in-effect_requirements xs provided
