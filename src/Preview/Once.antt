-- ===== src/Preview/Once.antt =====
-- src/actor-stream-preview.ts: how often a call is previewed until its end.
use pi_speculative_action.Preview.{
  is_delta, is_text, Text, StreamedCall, PartialCall, Update, Preview, Tracker, toolcall_start,
  toolcall_delta, toolcall_end, other_update, tool, call, was_previewed, stream, streamed, observe,
  call_of, scanned, tool_preview, call_preview, parsed_call,
}
use pi_speculative_action.Prelude.{
  get-delete_ne, get-put_ne, sym, ==_iff, ne_of_==, ◌≢◌, All, get-put_self, ap, ◌&&◌, refl, not,
  ◌∙◌, ℕ, ◌+◌, ◌≡◌, Bool, true, false, Option, none, some, List, [], ◌∷◌, ◌++◌, get, put,
  ℕ_discrete, Bool-cases, inl, inr, arith, if◌then◌else◌, ◌==◌,
}

abbrev pub bit : Bool → ℕ
bit true = 1
bit false = 0

unfoldable pub previewed : ℕ → Tracker → ℕ
previewed i t = bit (was_previewed (get ℕ_discrete i t))

module _ {ℓ} {A : Type ℓ} where
  -- The calls among some previews.
  unfoldable pub calls : List (Preview A) → ℕ
  calls [] = 0
  calls (tool name ∷ ps) = calls ps
  calls (call c a ∷ ps) = 1 + calls ps

  calls-append : (ps qs : List (Preview A)) → calls (ps ++ qs) ≡ calls ps + calls qs
  unfolding calls
  calls-append [] qs = omega arith
  calls-append (tool name ∷ ps) qs = calls-append ps qs
  calls-append (call c a ∷ ps) qs = omega (arith, calls-append ps qs)

  -- Whether an update concerns an index.
  unfoldable pub concerns : ℕ → Update A → Bool
  concerns i (toolcall_start index c) = index == i
  concerns i (toolcall_delta index c delta) = index == i
  concerns i (toolcall_end index c a) = index == i
  concerns i other_update = false

  unfoldable pub is_end : Update A → Bool
  is_end (toolcall_end index c a) = true
  is_end _ = false

zero_add : (n : ℕ) → 0 + n ≡ n
zero_add n = omega arith

add_zero : (n : ℕ) → n + 0 ≡ n
add_zero n = omega arith

module _ {ℓ} {A : Type ℓ} (parse : Text → Option A) where
  tool_preview_lem :
      (c : PartialCall) (s : StreamedCall)
      → (calls (tool_preview parse c s).1 ≡ 0)
        × ((tool_preview parse c s).0.call_previewed ≡ s.call_previewed)
  unfolding tool_preview calls
  tool_preview_lem c s = elim (Bool-cases (not s.tool_previewed && is_text c.name)) [
    | inl e ↦ rw e (refl, refl)
    | inr e ↦ rw e (refl, refl)
  ]

  parsed_call_lem :
      (c : PartialCall) (s : StreamedCall) (o : Option A)
      → s.call_previewed ≡ false
      → calls (parsed_call parse c s o).1 ≡ bit (parsed_call parse c s o).0.call_previewed
  unfolding parsed_call calls
  parsed_call_lem c s none h = rw h refl
  parsed_call_lem c s (some a) h = refl

  call_preview_lem :
      (c : PartialCall) (delta : Option Text) (s : StreamedCall)
      → s.call_previewed ≡ false
      → calls (call_preview parse c delta s).1 ≡ bit (call_preview parse c delta s).0.call_previewed
  unfolding call_preview calls
  call_preview_lem c delta s h =
      elim (Bool-cases (is_delta delta && s.scan.ready && is_text c.name && is_text c.id)) [
        | inl e ↦ rw e (
            parsed_call_lem c (record s { scan = record s.scan { ready = false } })
              (parse s.arguments) h)
        | inr e ↦ rw e (nothing s h)
      ]
    where
      nothing :
          (s : StreamedCall) → s.call_previewed ≡ false → calls {A = A} [] ≡ bit s.call_previewed
      nothing s h = rw h refl

  scanned_lem :
      (delta : Option Text) (s : StreamedCall) → (scanned delta s).call_previewed ≡ s.call_previewed
  unfolding scanned
  scanned_lem none s = refl
  scanned_lem (some delta) s = refl

  stream_lem :
      (c : PartialCall) (delta : Option Text) (s : StreamedCall)
      → s.call_previewed ≡ false
      → calls (stream parse c delta s).1 ≡ bit (stream parse c delta s).0.call_previewed
  unfolding stream
  stream_lem c delta s h =
      let t = tool_preview_lem c (scanned delta s) in
      let r = tool_preview parse c (scanned delta s) in
      calls-append r.1 (call_preview parse c delta r.0).1
      ∙ ap (λ n. n + calls (call_preview parse c delta r.0).1) t.0
      ∙ zero_add (calls (call_preview parse c delta r.0).1)
      ∙ call_preview_lem c delta r.0 (t.1 ∙ scanned_lem delta s ∙ h)

  previewed-call_of :
      (i : ℕ) (t : Tracker) → previewed i t ≡ bit (call_of (get ℕ_discrete i t)).call_previewed
  unfolding previewed call_of was_previewed
  previewed-call_of i t = by_entry (get ℕ_discrete i t)
    where
      by_entry : (o : Option StreamedCall) → bit (was_previewed o) ≡ bit (call_of o).call_previewed
      by_entry none = refl
      by_entry (some s) = refl

  previewed-put :
      (i : ℕ) (s : StreamedCall) (t : Tracker)
      → previewed i (put ℕ_discrete i s t) ≡ bit s.call_previewed
  unfolding previewed was_previewed
  previewed-put i s t = ap (λ o. bit (was_previewed o)) (get-put_self ℕ_discrete i s t)

  streamed_done :
      (i : ℕ) (c : PartialCall) (delta : Option Text) (t : Tracker)
      → (call_of (get ℕ_discrete i t)).call_previewed ≡ true
      → streamed parse i (some c) delta t ≡ (put ℕ_discrete i (call_of (get ℕ_discrete i t)) t, [])
  unfolding streamed
  streamed_done i c delta t e = rw (streamed, e) refl

  streamed_open :
      (i : ℕ) (c : PartialCall) (delta : Option Text) (t : Tracker)
      → (call_of (get ℕ_discrete i t)).call_previewed ≡ false
      → streamed parse i (some c) delta t ≡ (
        put ℕ_discrete i (stream parse c delta (call_of (get ℕ_discrete i t))).0 t,
        (stream parse c delta (call_of (get ℕ_discrete i t))).1,
      )
  unfolding streamed
  streamed_open i c delta t e = rw (streamed, e) refl

  -- An update of the index keeps the number of calls that were previewed.
  streamed_lem :
      (i : ℕ) (c : Option PartialCall) (delta : Option Text) (t : Tracker)
      → previewed i t + calls (streamed parse i c delta t).1
        ≡ previewed i (streamed parse i c delta t).0
  unfolding streamed calls
  streamed_lem i none delta t = omega arith
  streamed_lem i (some c) delta t =
      let s = call_of (get ℕ_discrete i t) in
      elim (Bool-cases s.call_previewed) [
        | inl e ↦
            let p = streamed_done i c delta t e in
            rw p (omega (arith, previewed-call_of i t, previewed-put i s t))
        | inr e ↦
            let p = streamed_open i c delta t e in
            let r = stream parse c delta s in
            rw p (
              omega (
                arith,
                previewed-call_of i t,
                ap bit e,
                stream_lem c delta s e,
                previewed-put i r.0 t,
              ))
      ]

  streamed-none :
      (i : ℕ) (delta : Option Text) (t : Tracker) → streamed parse i none delta t ≡ (t, [])
  unfolding streamed
  streamed-none i delta t = refl

  put_other :
      (i index : ℕ) (s : StreamedCall) (t : Tracker)
      → i ≢ index
      → previewed i (put ℕ_discrete index s t) ≡ previewed i t
  unfolding previewed
  put_other i index s t h = ap (λ o. bit (was_previewed o)) (get-put_ne ℕ_discrete index i s t h)

  same_index :
      (i index : ℕ)
      → index ≡ i
      → (c : Option PartialCall) (delta : Option Text) (t : Tracker)
      → previewed i t + calls (streamed parse index c delta t).1
        ≡ previewed i (streamed parse index c delta t).0
  same_index i index e c delta t = rw e (streamed_lem i c delta t)

  streamed-other :
      (i index : ℕ) (c : Option PartialCall) (delta : Option Text) (t : Tracker)
      → i ≢ index
      → previewed i (streamed parse index c delta t).0 ≡ previewed i t
  unfolding previewed
  streamed-other i index none delta t h = ap (λ x. previewed i x.0) (streamed-none index delta t)
  streamed-other i index (some c) delta t h =
      elim (Bool-cases (call_of (get ℕ_discrete index t)).call_previewed) [
        | inl e ↦
            ap (λ x. previewed i x.0) (streamed_done index c delta t e)
            ∙ put_other i index (call_of (get ℕ_discrete index t)) t h
        | inr e ↦
            ap (λ x. previewed i x.0) (streamed_open index c delta t e)
            ∙ put_other i index (stream parse c delta (call_of (get ℕ_discrete index t))).0 t h
      ]

  observe_lem :
      (i : ℕ) (u : Update A) (t : Tracker)
      → concerns i u ≡ true
      → is_end u ≡ false
      → previewed i t + calls (observe parse u t).1 ≡ previewed i (observe parse u t).0
  unfolding observe concerns is_end
  observe_lem i (toolcall_start index c) t h k = same_index i index ((==_iff index i).0 h) c none t
  observe_lem i (toolcall_delta index c delta) t h k =
      same_index i index ((==_iff index i).0 h) c (some delta) t
  observe_lem i (toolcall_end index c a) t h k = cc
  observe_lem i other_update t h k = cc

  end_lem :
      (i : ℕ) (c : PartialCall) (a : A) (t : Tracker)
      → previewed i t + calls (observe parse (toolcall_end i c a) t).1 ≡ 1
  unfolding observe previewed calls
  end_lem i c a t = ground arith

  -- No other index is concerned.
  previewed-other :
      (i : ℕ) (u : Update A) (t : Tracker)
      → concerns i u ≡ false
      → previewed i (observe parse u t).0 ≡ previewed i t
  unfolding observe concerns previewed
  previewed-other i (toolcall_start index c) t h =
      streamed-other i index c none t (λ e. ne_of_== index i h (sym e))
  previewed-other i (toolcall_delta index c delta) t h =
      streamed-other i index c (some delta) t (λ e. ne_of_== index i h (sym e))
  previewed-other i (toolcall_end index c a) t h =
      ap (λ o. bit (was_previewed o))
        (get-delete_ne ℕ_discrete index i t (λ e. ne_of_== index i h (sym e)))
  previewed-other i other_update t h = refl

  -- The previews of the updates that concern an index.
  unfoldable pub previews : ℕ → List (Update A) → Tracker → List (Preview A)
  unfolding observe concerns
  previews i [] t = []
  previews i (u ∷ us) t =
      let (t', ps) = observe parse u t in
      let rest = previews i us t' in if concerns i u then ps ++ rest else rest

  unfoldable pub observes : List (Update A) → Tracker → Tracker
  unfolding observe
  observes [] t = t
  observes (u ∷ us) t = observes us (observe parse u t).0

  -- Until the end of an index.
  calls-previews :
      (i : ℕ) (us : List (Update A)) (t : Tracker)
      → All (λ u. (concerns i u && is_end u) ≡ false) us
      → previewed i t + calls (previews i us t) ≡ previewed i (observes us t)
  unfolding previews observes calls
  calls-previews i [] t h = omega arith
  calls-previews i (u ∷ us) t h = elim (Bool-cases (concerns i u)) [
    | inl e ↦ rw e (
        omega (
          arith,
          calls-append (observe parse u t).1 (previews i us (observe parse u t).0),
          calls-previews i us (observe parse u t).0 h.1,
          observe_lem i u t e (ground arith),
        ))
    | inr e ↦
        rw e (omega (arith, calls-previews i us (observe parse u t).0 h.1, previewed-other i u t e))
  ]

  -- A call is previewed exactly once by its end, whatever the updates before it are.
  pub calls-observe_end :
      (i : ℕ) (us : List (Update A)) (t : Tracker) (c : PartialCall) (a : A)
      → get ℕ_discrete i t ≡ none
      → All (λ u. (concerns i u && is_end u) ≡ false) us
      → calls (previews i us t) + calls (observe parse (toolcall_end i c a) (observes us t)).1 ≡ 1
  unfolding observe calls previewed was_previewed
  calls-observe_end i us t c a n h = omega (
    arith,
    calls-previews i us t h,
    end_lem i c a (observes us t),
    ap (λ o. bit (was_previewed o)) n,
  )
