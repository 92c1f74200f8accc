-- ===== src/Preview.antt =====
-- src/actor-stream-preview.ts: `ActorStreamPreviewTracker`. A text is the list of its UTF-16 units, as
-- only units of ASCII are read. `JSON.parse` with the test for an object is a parameter.
pub mod Once
mod Examples
use pi_speculative_action.Prelude.{
  ℕ, zero, suc, Bool, true, false, ◌&&◌, ◌||◌, not, Option, none, some, List, [], ◌∷◌, ◌++◌, ◌==◌,
  if◌then◌else◌, get, put, delete, ℕ_discrete,
}

abbrev pub Text : Type 0
Text = List ℕ

-- Depths, which go below 0 where a text closes more than it opens.
pub data ℤ : Type 0 where
  pos negsuc : ℕ → ℤ

unfoldable pub deeper : ℤ → ℤ
deeper (pos n) = pos (suc n)
deeper (negsuc zero) = pos 0
deeper (negsuc (suc n)) = negsuc n

unfoldable pub shallower : ℤ → ℤ
shallower (pos zero) = negsuc 0
shallower (pos (suc n)) = pos n
shallower (negsuc n) = negsuc (suc n)

unfoldable pub is_top : ℤ → Bool
is_top (pos zero) = true
is_top _ = false

pub record Scan : Type 0 where
  pub depth : ℤ
  pub quoted : Bool
  pub escaped : Bool
  pub ready : Bool

pub record StreamedCall : Type 0 where
  pub arguments : Text
  pub scan : Scan
  pub tool_previewed : Bool
  pub call_previewed : Bool

abbrev pub new_call : StreamedCall
new_call = record {
  arguments = [];
  scan = record { depth = pos 0; quoted = false; escaped = false; ready = false };
  tool_previewed = false;
  call_previewed = false;
}

-- The body of the loop over the units of a delta: a backslash, a quote and the brackets.
unfoldable pub scan_unit : ℕ → Scan → Scan
unfolding deeper shallower is_top
scan_unit c s =
    if s.escaped
    then record s { escaped = false }
    else if (c == 92) && s.quoted
    then record s { escaped = true }
    else if c == 34
    then record s { quoted = not s.quoted }
    else if s.quoted
    then s
    else if (c == 123) || (c == 91)
    then record s { depth = deeper s.depth }
    else if (c == 125) || (c == 93)
    then record s { depth = shallower s.depth; ready = is_top (shallower s.depth) || s.ready }
    else s

unfoldable pub scan_text : Text → Scan → Scan
unfolding scan_unit
scan_text [] s = s
scan_text (c ∷ cs) s = scan_text cs (scan_unit c s)

is_text : Text → Bool
is_text [] = false
is_text (c ∷ cs) = true

pub record PartialCall : Type 0 where
  pub id : Text
  pub name : Text

-- `AssistantMessageEvent`, with the partial message at its index, where that is a call.
pub data Update {ℓ} (A : Type ℓ) : Type ℓ where
  toolcall_start : ℕ → Option PartialCall → Update A
  toolcall_delta : ℕ → Option PartialCall → Text → Update A
  toolcall_end : ℕ → PartialCall → A → Update A
  other_update : Update A

-- `ActorStreamPreview`
pub data Preview {ℓ} (A : Type ℓ) : Type ℓ where
  tool : Text → Preview A
  call : PartialCall → A → Preview A

-- `calls`
abbrev pub Tracker : Type 0
Tracker = List (ℕ × StreamedCall)

call_of : Option StreamedCall → StreamedCall
call_of none = new_call
call_of (some s) = s

unfoldable pub was_previewed : Option StreamedCall → Bool
was_previewed none = false
was_previewed (some s) = s.call_previewed

-- The delta of an update that has one.
scanned : Option Text → StreamedCall → StreamedCall
unfolding scan_text
scanned none s = s
scanned (some delta) s = record s {
  arguments = s.arguments ++ delta;
  scan = scan_text delta s.scan;
}

is_delta : Option Text → Bool
is_delta none = false
is_delta (some delta) = true

module _ {ℓ} {A : Type ℓ} (parse : Text → Option A) where
  tool_preview : PartialCall → StreamedCall → StreamedCall × List (Preview A)
  unfolding is_text
  tool_preview c s =
      if not s.tool_previewed && is_text c.name
      then (record s { tool_previewed = true }, tool c.name ∷ [])
      else (s, [])

  parsed_call : PartialCall → StreamedCall → Option A → StreamedCall × List (Preview A)
  parsed_call c s none = (s, [])
  parsed_call c s (some a) = (record s { call_previewed = true; arguments = [] }, call c a ∷ [])

  call_preview : PartialCall → Option Text → StreamedCall → StreamedCall × List (Preview A)
  unfolding is_text is_delta parsed_call
  call_preview c delta s =
      if is_delta delta && s.scan.ready && is_text c.name && is_text c.id
      then parsed_call c (record s { scan = record s.scan { ready = false } }) (parse s.arguments)
      else (s, [])

  -- The rest of `observe` for a state that has not been previewed.
  unfoldable pub stream : PartialCall → Option Text → StreamedCall → StreamedCall × List (Preview A)
  unfolding scanned tool_preview call_preview
  stream c delta s =
      let (s', tools) = tool_preview c (scanned delta s) in
      let (s'', calls) = call_preview c delta s' in (s'', tools ++ calls)

  -- `toolcall_start` and `toolcall_delta`.
  unfoldable pub streamed :
      ℕ → Option PartialCall → Option Text → Tracker → Tracker × List (Preview A)
  unfolding call_of stream
  streamed index none delta t = (t, [])
  streamed index (some c) delta t =
      let s = call_of (get ℕ_discrete index t) in
      if s.call_previewed
      then (put ℕ_discrete index s t, [])
      else (let (s', previews) = stream c delta s in (put ℕ_discrete index s' t, previews))

  -- `observe`
  unfoldable pub observe : Update A → Tracker → Tracker × List (Preview A)
  unfolding streamed was_previewed
  observe (toolcall_start index c) t = streamed index c none t
  observe (toolcall_delta index c delta) t = streamed index c (some delta) t
  observe (toolcall_end index c a) t = (
    delete ℕ_discrete index t,
    if was_previewed (get ℕ_discrete index t) then [] else call c a ∷ [],
  )
  observe other_update t = (t, [])

unfoldable pub clear : Tracker → Tracker
clear t = []
