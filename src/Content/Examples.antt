-- ===== src/Content/Examples.antt =====
-- src/content-chunks.ts, src/artifact-reference.ts: five bytes in blocks of two, one of them zeros.
use pi_speculative_action.Content.Reading.RoundTrip.{capture-read}
use pi_speculative_action.Content.View.Laws.{IsView}
use pi_speculative_action.Content.Capture.Bytewise.{capture-concat, capture-none}
use pi_speculative_action.Content.Parsing.{
  parse_manifest-IsManifest, IsManifest, parse_manifest-raw_manifest,
}
use pi_speculative_action.Content.Reading.{read, asked, read_size}
use pi_speculative_action.Numbers.{unit, max_safe_integer}
use pi_speculative_action.Content.View.{decided, add}
use pi_speculative_action.Content.{count_of, get, raw_manifest, validate_artifact, parse_manifest}
use pi_speculative_action.Prelude.{inl, arith, put, get, list_discrete, ℕ_discrete}
use pi_speculative_action.Prelude.{ℕ, ◌≡◌, refl, none, some, List, [], ◌∷◌, ℕ_discrete}
use pi_speculative_action.Content.{Manifest}
use pi_speculative_action.Content.View.{Limits, View}
use pi_speculative_action.Content.Capture.{capture}

abbrev bytes_discrete : Discrete (List ℕ)
bytes_discrete = list_discrete ℕ_discrete

-- The digest of some bytes is the bytes.
abbrev plain : List ℕ → List ℕ
plain bytes = bytes

abbrev small : Limits
small = record {
  max_logical_bytes = 8;
  max_stored_bytes = 8;
  max_open_chunks = 4;
  max_read_bytes = 4;
}

abbrev manifest : Manifest (List ℕ)
manifest = record {
  size = 5;
  digest = 7 ∷ 0 ∷ 0 ∷ 0 ∷ 9 ∷ [];
  chunks =
      some (record { digest = 7 ∷ 0 ∷ []; size = 2 })
      ∷ none
      ∷ some (record { digest = 9 ∷ []; size = 1 })
      ∷ [];
}

abbrev view : View (List ℕ) ℕ
view = (7 ∷ 0 ∷ [], 7 ∷ 0 ∷ []) ∷ (9 ∷ [], 9 ∷ []) ∷ []

abbrev handed : List (List ℕ)
handed = (7 ∷ []) ∷ (0 ∷ 0 ∷ 0 ∷ 9 ∷ []) ∷ []

captured : capture bytes_discrete ℕ_discrete 0 plain 2 small 8 handed 5 [] ≡ some (manifest, view)
unfolding capture ℕ_discrete add parse_manifest raw_manifest validate_artifact unit max_safe_integer
    list_discrete get decided put count_of
captured = refl

collision_free : (xs ys : List ℕ) → plain xs ≡ plain ys → xs ≡ ys
collision_free xs ys h = h

empty_view : IsView bytes_discrete plain []
unfolding get
empty_view d bytes h = cc

abbrev parsed : Manifest (List ℕ)
parsed = manifest

manifest_accepted : parse_manifest bytes_discrete 2 (raw_manifest manifest) ≡ some manifest
unfolding parse_manifest raw_manifest ℕ_discrete validate_artifact unit max_safe_integer
    list_discrete count_of get put
manifest_accepted = refl

parse_manifest-IsManifest_example : IsManifest 2 manifest
parse_manifest-IsManifest_example =
    parse_manifest-IsManifest bytes_discrete 2 (raw_manifest manifest) manifest_accepted

parse_manifest-raw_manifest_example :
    parse_manifest bytes_discrete 2 (raw_manifest manifest) ≡ some manifest
parse_manifest-raw_manifest_example =
    parse_manifest-raw_manifest bytes_discrete 2 manifest parse_manifest-IsManifest_example

capture-concat_example :
    capture bytes_discrete ℕ_discrete 0 plain 2 small 8 handed 5 []
    ≡ capture bytes_discrete ℕ_discrete 0 plain 2 small 8 ((7 ∷ 0 ∷ 0 ∷ 0 ∷ 9 ∷ []) ∷ []) 5 []
capture-concat_example =
    capture-concat bytes_discrete ℕ_discrete 0 plain 2 small (omega arith) 8 handed 5 []

capture-none_example : capture bytes_discrete ℕ_discrete 0 plain 2 small 4 handed 5 [] ≡ none
capture-none_example =
    capture-none bytes_discrete ℕ_discrete 0 plain 2 small (omega arith) 4 handed 5 []
      (inl (omega arith))

-- Three bytes from the second on.
capture-read_example :
    read bytes_discrete 0 2 small manifest view (some 3) 1 ≡ some (0 ∷ 0 ∷ 0 ∷ [])
unfolding read_size max_safe_integer asked
capture-read_example =
    capture-read bytes_discrete ℕ_discrete 0 plain 2 small collision_free (omega arith)
      (omega arith) 8 handed 5 [] empty_view captured (some 3) 1 (omega arith) (omega arith)
      (omega arith)
