-- ===== src/Transaction/Coordinator.antt =====
-- src/effect-transaction.ts: `EffectTransactionCoordinator`, in the pieces that run between two waits.
-- Of a branch it reads whether it retains inputs only and whether it has an output.
use pi_speculative_action.Prelude.{
  subst, Bool, true, false, ◌&&◌, ◌||◌, not, Option, none, some, ◌≡◌, if◌then◌else◌, refl, arith,
  inl, inr, Bool-cases,
}
use pi_speculative_action.Transaction.{
  TransactionState, begun, executing, sealing, sealed, aborting, aborted, failed,
}

pub record Branch : Type 0 where
  pub inputs_only : Bool
  pub has_output : Bool

abbrev same_state : TransactionState → TransactionState → Bool
same_state begun begun = true
same_state executing executing = true
same_state sealing sealing = true
same_state _ _ = false

-- `transition`, from one of the states that the coordinator expects; `none` where it throws.
unfoldable pub transition :
    TransactionState → TransactionState → TransactionState → Option TransactionState
transition expected next s = if same_state s expected then some next else none

-- How a call ends: the state, whether it returns the transaction of the branch, and whether it has
-- disposed of the branch and of the capture.
pub record Sealing : Type 0 where
  pub state : TransactionState
  pub transaction : Option Branch
  pub branch_disposed : Bool
  pub capture_disposed : Bool

abbrev unsealed : Bool → Bool → Sealing
unsealed branch capture = record {
  state = failed;
  transaction = none;
  branch_disposed = branch;
  capture_disposed = capture;
}

-- `seal` and the `catch` of its callers; `capture` is whether a capture is disposed of then.
unfoldable pub seal : Bool → Branch → TransactionState → Sealing
unfolding transition
seal capture branch s =
    if branch.inputs_only && branch.has_output
    then unsealed true capture
    else elim (transition sealing sealed s) [
      | none ↦ unsealed true capture
      | some s' ↦ record {
        state = s';
        transaction = some branch;
        branch_disposed = false;
        capture_disposed = false;
      }
    ]

-- `execute` up to the executor; `none` where it throws, and the state stays.
unfoldable pub begin_execution : TransactionState → Option TransactionState
unfolding transition
begin_execution s = transition begun executing s

-- `execute` after the executor, which gives `none` where it throws.
unfoldable pub end_execution : Option Branch → TransactionState → Sealing
unfolding seal transition
end_execution none s = unsealed false false
end_execution (some branch) s = elim (transition executing sealing s) [
  | none ↦ unsealed false false
  | some s' ↦ seal false branch s'
]

-- What `capture` is handed: whether it is of inputs only, and whether it has an input source.
pub record Captured : Type 0 where
  pub captures_inputs : Bool
  pub has_source : Bool

unfoldable pub begin_seal : TransactionState → Option TransactionState
unfolding transition
begin_seal s = transition begun sealing s

-- `seal` of a capture after its transition; `output` is whether it is given an output.
unfoldable pub end_seal : Captured → Bool → Option Branch → TransactionState → Sealing
unfolding seal
end_seal captured output result s =
    if not captured.captures_inputs && not captured.has_source && not output
    then unsealed false true
    else elim result [
      | none ↦ unsealed false true
      | some branch ↦
          if (captured.captures_inputs || not output) && not branch.inputs_only
          then unsealed true true
          else seal true branch s
    ]

abbrev is_begun : TransactionState → Bool
is_begun begun = true
is_begun _ = false

-- `dispose` of a capture, before and after it waits.
unfoldable pub begin_dispose : TransactionState → Option TransactionState
begin_dispose s = if is_begun s then some aborting else none

abbrev pub end_dispose : TransactionState → TransactionState
end_dispose s = aborted

-- Whether a capture that is given an output, or none, may only authorize inputs.
abbrev pub authorizes_inputs_only : Captured → Bool → Bool
authorizes_inputs_only captured output = captured.captures_inputs || not output

-- What a call that seals has done if it returns a transaction, and if it does not.
abbrev pub IsSealing : Option Branch → Bool → Sealing → Type 0
IsSealing result inputs r =
    ((b : Branch)
      → r.transaction ≡ some b
      → (result ≡ some b)
        × (r.state ≡ sealed)
        × (r.branch_disposed ≡ false)
        × (r.capture_disposed ≡ false)
        × (b.inputs_only ≡ true → b.has_output ≡ false)
        × (inputs ≡ true → b.inputs_only ≡ true))
    × (r.transaction ≡ none → (r.state ≡ failed) × (r.capture_disposed ≡ true))

seal-IsSealing :
    (branch : Branch) (inputs : Bool)
    → (inputs ≡ true → branch.inputs_only ≡ true)
    → IsSealing (some branch) inputs (seal true branch sealing)
unfolding seal transition
seal-IsSealing branch inputs k = elim (Bool-cases (branch.inputs_only && branch.has_output)) [
  | inl e ↦ rw (seal, e) ((λ b h. cc), λ h. (refl, refl))
  | inr e ↦
      rw (seal, e)
        (
          (λ b h.
              let p : branch ≡ b = cc in
              (
                cc,
                refl,
                refl,
                refl,
                (λ x. ground arith),
                (λ x. subst (λ y. y.inputs_only ≡ true) p (k x)),
              )),
          λ h. cc,
        )
]

-- The sealing of a capture that is under way returns a transaction, of the branch that the capture
-- gives, or it ends failed and disposes of the capture. Then a branch of inputs only has no output,
-- and a capture of inputs only, or one that is sealed without an output, gives only such a branch.
pub end_seal-IsSealing :
    (captured : Captured) (output : Bool) (result : Option Branch)
    → IsSealing result
        (authorizes_inputs_only captured output)
        (end_seal captured output result sealing)
unfolding end_seal
end_seal-IsSealing captured output result =
    elim (Bool-cases (not captured.captures_inputs && not captured.has_source && not output)) [
      | inl e ↦ rw (end_seal, e) ((λ b h. cc), λ h. (refl, refl))
      | inr e ↦ rw (end_seal, e) (answered result)
    ]
  where
    answered :
        (result : Option Branch)
        → IsSealing result (authorizes_inputs_only captured output) (elim result [
          | none ↦ unsealed false true
          | some branch ↦
              if (captured.captures_inputs || not output) && not branch.inputs_only
              then unsealed true true
              else seal true branch sealing
        ])
    answered none = ((λ b h. cc), λ h. (refl, refl))
    answered (some branch) =
        elim (Bool-cases ((captured.captures_inputs || not output) && not branch.inputs_only)) [
          | inl k ↦ rw k ((λ b h. cc), λ h. (refl, refl))
          | inr k ↦
              rw k
                (seal-IsSealing branch (authorizes_inputs_only captured output) (λ x. ground arith))
        ]
