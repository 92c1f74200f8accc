-- ===== src/Timeline.antt =====
-- src/timeline-computation.ts: `normalizeTimelineComputation`. A field of an unknown value is `none`
-- where it is of another type; one that may be left out is `absent` where it is undefined. A text is
-- the list of its UTF-16 units. All ways to refuse, an exception too, give `none`.
mod Owners
pub mod Sound
mod Examples
use pi_speculative_action.Order.Complete.{turns}
use pi_speculative_action.Prelude.{
  keys, ℕ, ◌*◌, ◌≡◌, Bool, true, false, ◌&&◌, ◌||◌, not, Option, none, some, List, [], ◌∷◌, ◌++◌,
  map, reverse, length, leb, ◌==◌, ℕ_discrete, list_discrete, get, put, has, values, is_some, ◌>>=◌,
  ◌>>◌, require, if◌then◌else◌,
}
use pi_speculative_action.Numbers.{Number, unit, max_safe_integer}
use pi_speculative_action.Order.{dependency_order, Outcome, finished}

abbrev pub Text : Type 0
Text = List ℕ

unfoldable pub text_discrete : Discrete Text
unfolding list_discrete
text_discrete = list_discrete ℕ_discrete

pub data Field {ℓ} (A : Type ℓ) : Type ℓ where
  absent wrong : Field A
  present : A → Field A

pub record Span : Type 0 where
  pub started : ℕ
  pub completed : ℕ

pub record Shared : Type 0 where
  pub clock : Text
  pub span : Span

pub record Producer : Type 0 where
  pub source : Text
  pub mode : Option Text
  pub id : Option Text

pub record Input : Type 0 where
  pub id : Text
  pub owned : Bool
  pub reused : Bool
  pub overhead : Bool
  pub compute_uncertain : Bool
  pub shared : Option (List Shared)

-- `SerializedTimelineNode`; an empty list of groups or inputs is left out of the object.
pub record Node : Type 0 where
  pub id : Text
  pub clock : Text
  pub time_origin : Option ℕ
  pub span : Span
  pub spans : Option (List Span)
  pub prior : Option ℕ
  pub producer : Option Producer
  pub groups : List Text
  pub incomplete : Bool
  pub inputs : List Input

pub record Computation : Type 0 where
  pub version : ℕ
  pub root : Text
  pub nodes : List Node

-- What is read of the unknown values. A list holds `none` for what is no record.
pub record RawSpan : Type 0 where
  pub started : Option Number
  pub completed : Option Number

pub record RawShared : Type 0 where
  pub clock : Option Text
  pub span : RawSpan

pub record RawProducer : Type 0 where
  pub source : Option Text
  pub mode : Field Text
  pub id : Field Text

pub record RawInput : Type 0 where
  pub id : Option Text
  pub owned : Field Bool
  pub reused : Field Bool
  pub overhead : Field Bool
  pub compute_uncertain : Field Bool
  pub shared : Field (List (Option RawShared))

pub record RawNode : Type 0 where
  pub id : Option Text
  pub clock : Option Text
  pub time_origin : Field Number
  pub span : RawSpan
  pub spans : Field (List (Option RawSpan))
  pub prior : Field Number
  pub producer : Field RawProducer
  pub groups : Field (List (Option Text))
  pub incomplete : Field Bool
  pub inputs : Field (List (Option RawInput))

pub record RawComputation : Type 0 where
  pub version : Option Number
  pub root : Option Text
  pub nodes : Option (List (Option RawNode))

module _ {ℓ κ} {A : Type ℓ} {B : Type κ} where
  unfoldable pub traverse : (A → Option B) → List A → Option (List B)
  traverse f [] = some []
  traverse f (x ∷ xs) = do y ← f x; ys ← traverse f xs; some (y ∷ ys)

  -- A field that may be left out.
  unfoldable pub optional : (A → Option B) → Field A → Option (Option B)
  optional f absent = some none
  optional f wrong = none
  optional f (present a) = do b ← f a; some (some b)

module _ {ℓ κ} {A : Type ℓ} {B : Type κ} where
  -- `records`
  unfoldable pub records : (A → Option B) → Field (List (Option A)) → Option (Option (List B))
  unfolding traverse optional
  records f = optional (traverse (λ item. item >>= f))

has_no_nul : Text → Bool
has_no_nul [] = true
has_no_nul (c ∷ cs) = not (c == 0) && has_no_nul cs

identity_text : Text → Option Text
unfolding has_no_nul
identity_text [] = none
identity_text (c ∷ cs) = if has_no_nul (c ∷ cs) then some (c ∷ cs) else none

-- `identity`
unfoldable pub identity : Option Text → Option Text
unfolding identity_text
identity v = v >>= identity_text

-- `duration`, in units.
unfoldable pub duration : Option Number → Option ℕ
duration (some (Number.finite_pos n)) = if leb n (max_safe_integer * unit) then some n else none
duration _ = none

-- `endpoints`
unfoldable pub endpoints : RawSpan → Option Span
unfolding duration
endpoints raw = do
  started ← duration raw.started
  completed ← duration raw.completed
  require (leb started completed)
  some (record { started = started; completed = completed })

flag : Field Bool → Option Bool
flag absent = some false
flag wrong = none
flag (present b) = some b

-- A part of a calculation lies within the node.
part_of : Span → RawSpan → Option Span
unfolding endpoints
part_of whole raw = do
  part ← endpoints raw
  require (leb whole.started part.started && leb part.completed whole.completed)
  some part

producer_of : RawProducer → Option Producer
unfolding identity
producer_of raw = do
  source ← identity raw.source
  mode ← optional (λ t. identity (some t)) raw.mode
  id ← optional (λ t. identity (some t)) raw.id
  some (record { source = source; mode = mode; id = id })

shared_of : RawShared → Option Shared
unfolding identity endpoints
shared_of raw = do
  clock ← identity raw.clock
  span ← endpoints raw.span
  some (record { clock = clock; span = span })

unfoldable pub input_of : RawInput → Option Input
unfolding identity flag shared_of records
input_of raw = do
  id ← identity raw.id
  owned ← flag raw.owned
  reused ← flag raw.reused
  overhead ← flag raw.overhead
  compute_uncertain ← flag raw.compute_uncertain
  shared ← records shared_of raw.shared
  some (record {
    id = id;
    owned = owned;
    reused = reused;
    overhead = overhead;
    compute_uncertain = compute_uncertain;
    shared = shared;
  })

-- `[...new Set(texts)]`
distinct : List Text → List Text → List Text
distinct seen [] = []
distinct seen (t ∷ ts) =
    if has text_discrete t seen then distinct seen ts else t ∷ distinct (t ∷ seen) ts

or_empty {ℓ} : {A : Type ℓ} → Option (List A) → List A
or_empty none = []
or_empty (some xs) = xs

-- The body of the loop over the nodes, without its two maps.
unfoldable pub node_of : RawNode → Option Node
unfolding identity endpoints duration part_of producer_of input_of distinct or_empty flag records
    optional traverse
node_of raw = do
  id ← identity raw.id
  clock ← identity raw.clock
  span ← endpoints raw.span
  prior ← optional (λ n. duration (some n)) raw.prior
  time_origin ← optional (λ n. duration (some n)) raw.time_origin
  incomplete ← flag raw.incomplete
  spans ← records (part_of span) raw.spans
  producer ← optional producer_of raw.producer
  groups ← optional (traverse identity) raw.groups
  inputs ← records input_of raw.inputs
  some (record {
    id = id;
    clock = clock;
    time_origin = time_origin;
    span = span;
    spans = spans;
    prior = prior;
    producer = producer;
    groups = distinct [] (or_empty groups);
    incomplete = incomplete;
    inputs = or_empty inputs;
  })

same_text : Option Text → Text → Bool
same_text none t = true
same_text (some u) t = elim (text_discrete u t) [ yes _ ↦ true | no _ ↦ false ]

same_origin : Option ℕ → ℕ → Bool
same_origin none n = true
same_origin (some m) n = m == n

-- `origins`: one clock has one origin.
noted : Text → Option ℕ → List (Text × ℕ) → Option (List (Text × ℕ))
unfolding same_origin
noted clock none origins = some origins
noted clock (some n) origins = do
  require (same_origin (get text_discrete clock origins) n)
  some (put text_discrete clock n origins)

-- The loop over the nodes.
unfoldable pub collect :
    List (Option RawNode) → List (Text × Node) → List (Text × ℕ) → Option (List (Text × Node))
unfolding node_of noted text_discrete
collect [] by_id origins = some by_id
collect (item ∷ items) by_id origins = do
  raw ← item
  node ← node_of raw
  require (not (is_some (get text_discrete node.id by_id)))
  origins' ← noted node.clock node.time_origin origins
  collect items (put text_discrete node.id node by_id) origins'

-- `owned`: the loop over the inputs of a node.
unfoldable pub own :
    List (Text × Node) → Text → List Input → List (Text × Text) → Option (List (Text × Text))
unfolding same_text text_discrete
own by_id node [] owned = some owned
own by_id node (input ∷ inputs) owned = do
  require (is_some (get text_discrete input.id by_id))
  require (not input.owned || same_text (get text_discrete input.id owned) node)
  own by_id node inputs (if input.owned then put text_discrete input.id node owned else owned)

unfoldable pub own_all :
    List (Text × Node) → List Node → List (Text × Text) → Option (List (Text × Text))
unfolding own
own_all by_id [] owned = some owned
own_all by_id (node ∷ nodes) owned = do
  owned' ← own by_id node.id node.inputs owned
  own_all by_id nodes owned'

-- The dependencies of a node by their identities, `undefined` for a node that is not there.
node_inputs : Option Node → List Input
node_inputs none = []
node_inputs (some node) = node.inputs

known : List (Text × Node) → Text → Option Text
known by_id id = if is_some (get text_discrete id by_id) then some id else none

unfoldable pub dependencies : List (Text × Node) → Text → List (Option Text)
unfolding node_inputs known text_discrete
dependencies by_id id =
    map (λ input. known by_id input.id) (reverse (node_inputs (get text_discrete id by_id)))

returned {ℓ} : {A : Type ℓ} → Outcome A → Option A
returned (finished a) = some a
returned _ = none

version_of : Option Number → Option ℕ
version_of (some (Number.finite_pos n)) =
    if n == unit
    then some 1
    else if n == 2 * unit
    then some 2
    else if n == 3 * unit
    then some 3
    else none
version_of _ = none

is_nil {ℓ} : {A : Type ℓ} → List A → Bool
is_nil [] = true
is_nil (x ∷ xs) = false

-- What follows the collection of the nodes.
unfoldable pub arrange : ℕ → Text → List (Text × Node) → Option Computation
unfolding own_all dependencies returned text_discrete
arrange version root by_id = do
  require (is_some (get text_discrete root by_id))
  owned ← own_all by_id (values by_id) []
  order ← returned (
      dependency_order text_discrete (dependencies by_id)
        (turns text_discrete (dependencies by_id) (keys by_id)) (root ∷ []))
  require (length order == length by_id)
  nodes ← traverse (λ id. get text_discrete id by_id) order
  some (record { version = version; root = root; nodes = nodes })

-- `normalizeTimelineComputation`, of a record.
unfoldable pub normalize_timeline_computation : RawComputation → Option Computation
unfolding version_of identity is_nil collect arrange
normalize_timeline_computation raw = do
  version ← version_of raw.version
  root ← identity raw.root
  items ← raw.nodes
  require (not (is_nil items))
  by_id ← collect items [] []
  arrange version root by_id
