-- ===== src/Semantics/ReadRange.antt =====
-- src/action-semantics.ts: the projector of read ranges. The text of some values, `JSON.stringify`, is a
-- parameter.
use pi_speculative_action.Prelude.{
  ℕ, ◌+◌, ◌-◌, ◌*◌, ◌/◌, Bool, true, false, ◌&&◌, not, Option, none, some, String, String_discrete,
  List, get, if◌then◌else◌, leb, ◌==◌, ◌>>=◌, ◌>>◌, require,
}
use pi_speculative_action.Numbers.{Number, unit, max_safe_integer}
use pi_speculative_action.Semantics.{
  ActionKey, ProjectedActionKey, ActionKeyProjector, Value, text, number, same,
}

-- `READ_DEFAULT_OFFSET` and `READ_DEFAULT_LIMIT`
abbrev pub read_default_offset : ℕ
read_default_offset = 1

abbrev pub read_default_limit : ℕ
read_default_limit = 2000

-- `positiveInteger` of src/setting-input.ts
pub positive_integer : Option Value → ℕ → ℕ
positive_integer (some (number (Number.finite_pos n))) fallback =
    if leb 1 (n / unit) && leb (n / unit) max_safe_integer then n / unit else fallback
positive_integer _ fallback = fallback

pub normalize_read_offset : Option Value → ℕ
unfolding positive_integer
normalize_read_offset v = positive_integer v read_default_offset

pub normalize_read_limit : Option Value → ℕ
normalize_read_limit (some (number (Number.finite_pos n))) = n / unit
normalize_read_limit (some (number (Number.finite_neg n))) = 0
normalize_read_limit _ = read_default_limit

pub record ReadActionRange : Type 0 where
  pub path : String
  pub offset : ℕ
  pub limit : ℕ
  pub end : ℕ

-- The range of a `path` that is a text.
range_of : Option Value → ActionKey → Option ReadActionRange
unfolding normalize_read_offset normalize_read_limit
range_of (some (text path)) action =
    let offset = normalize_read_offset (get String_discrete "offset" action.input) in
    let limit = normalize_read_limit (get String_discrete "limit" action.input) in
    some (record { path = path; offset = offset; limit = limit; end = offset + limit - 1 })
range_of _ action = none

unfoldable pub read_action_range : ActionKey → Option ReadActionRange
unfolding range_of
read_action_range action =
    if same action.tool "read"
    then range_of (get String_discrete "path" action.input) action
    else none

module _ (stringify : String → String → String → List String → String → String) where
  unfoldable pub read_projection_partition : ActionKey → Option String
  unfolding read_action_range
  read_projection_partition action = do
    range ← read_action_range action
    some (
        stringify action.semantics_epoch action.schema_hash action.execution_fingerprint
          action.resources range.path)

  unfoldable pub same_partition : Option String → Option String → Bool
  same_partition none none = true
  same_partition (some a) (some b) = same a b
  same_partition _ _ = false

  -- |a - b|
  unfoldable pub difference : ℕ → ℕ → ℕ
  difference a b = (a - b) + (b - a)

  -- The test of `project`, negated.
  unfoldable pub relates : ActionKey → ActionKey → ReadActionRange → ReadActionRange → Bool
  unfolding read_projection_partition same_partition
  relates speculative actor s a =
      same_partition (read_projection_partition speculative) (read_projection_partition actor)
      && not (s.limit == 0)
      && leb s.offset a.offset
      && leb a.offset (s.end + 1)

  -- `project` of `READ_RANGE_ACTION_KEY_PROJECTOR`
  unfoldable pub project_read : ActionKey → ActionKey → Option ProjectedActionKey
  unfolding relates difference
  project_read speculative actor = do
    s ← read_action_range speculative
    a ← read_action_range actor
    require (relates speculative actor s a)
    some (record {
      action = actor;
      distance = Number.finite_pos ((a.offset - s.offset + difference s.end a.end) * unit);
    })

  is_missing : Option Value → Bool
  is_missing none = true
  is_missing (some v) = false

  unfoldable pub read_ranges_share_in_flight : ActionKey → ActionKey → Bool
  unfolding is_missing read_projection_partition same_partition
  read_ranges_share_in_flight speculative actor = elim (read_action_range speculative) [
    | none ↦ false
    | some s ↦ elim (read_action_range actor) [
      | none ↦ false
      | some a ↦
          not (
            is_missing (get String_discrete "limit" actor.input)
            && not (is_missing (get String_discrete "limit" speculative.input)))
          && same_partition (read_projection_partition speculative)
              (read_projection_partition actor)
          && leb s.offset a.offset
          && leb a.end s.end
    ]
  ]

  unfoldable pub read_range_action_key_projector : ActionKeyProjector
  unfolding read_projection_partition project_read read_ranges_share_in_flight
  read_range_action_key_projector = record {
    id = "read.range";
    partition = read_projection_partition;
    project = project_read;
    can_share_in_flight = some read_ranges_share_in_flight;
  }
