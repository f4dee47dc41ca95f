-- ===== src/Linear/Remote.antt =====
-- The port to Linear (`LinearDeliveryPort` and its observations of
-- src/researchctl/services/linear_delivery.py, `LinearWorkerPort` of
-- src/researchctl/services/linear_worker.py): a record of operations on a remote world that the
-- program does not see.
use Prim.Native.Char.{code}
use Prim.Native.String.{◌++◌ as ◌<>◌}
use research_agent_ops.Base.{
  ℕ, String, Bool, true, false, ◌&&◌, ◌||◌, Option, none, some, List, [], ◌∷◌, Bytes, leb,
  if◌then◌else◌, ◌==◌, nat_eq, ◌≡◌, refl, All,
}
use research_agent_ops.Errors.{Result, ok, err, value_error}
use research_agent_ops.Exec.{Exec}
use research_agent_ops.Store.Schema.{SourceMarker}
use research_agent_ops.Json.{Json, null, string, encode}

pub record LinearTarget : Type 0 where
  pub workspace_id : String
  pub team_id : String
  pub project_id : Option String
  pub issue_id : String

pub record LinearTargetObservation : Type 0 where
  pub workspace_id : String
  pub team_id : String
  pub team_workspace_id : String
  pub project_id : Option String
  pub project_workspace_id : Option String
  pub project_team_ids : List String
  pub issue_id : String
  pub issue_workspace_id : String
  pub issue_team_id : String
  pub issue_project_ids : List String
  pub workspace_archived : Bool
  pub team_archived : Bool
  pub project_archived : Bool
  pub issue_archived : Bool

pub record LinearProjectionConfigured : Type 0 where
  pub workspace_id : String
  pub team_id : String
  pub project_id : Option String
  pub issue_id : String
  pub renderer_id : String
  pub renderer_version : ℕ
  pub payload_digest : String

pub record LinearReplyTarget : Type 0 where
  pub workspace_id : String
  pub issue_id : String
  pub thread_id : String
  pub source_comment_id : String

pub record LinearReplyTargetObservation : Type 0 where
  pub workspace_id : String
  pub issue_id : String
  pub thread_id : String
  pub source_comment_id : String
  pub workspace_archived : Bool
  pub issue_archived : Bool
  pub thread_archived : Bool

pub record LinearCommentObservation : Type 0 where
  pub comment_id : String
  pub issue_id : String
  pub thread_id : String
  pub author_app_id : String
  pub body : Bytes

-- What a call answers, or LinearDeliveryUnavailable. Any other exception is a raise.
pub data Response (A : Type 0) : Type 0 where
  answered : A → Response A
  unavailable : Response A

-- The last argument of `observe_comment` and of `create_comment` is the thread.
pub record DeliveryPort (World : Type 0) : Type 0 where
  pub preflight_target : LinearTarget → Exec World (Response (Option LinearTargetObservation))
  pub preflight_reply_target :
      LinearReplyTarget → Exec World (Response (Option LinearReplyTargetObservation))
  pub observe_comment :
      String
      → String
      → String
      → Option String
      → Exec World (Response (Option LinearCommentObservation))
  pub create_comment :
      String → Bytes → Option String → Exec World (Response LinearCommentObservation)

-- One character of `[0-9a-f]`
abbrev pub is_hex_code : ℕ → Bool
is_hex_code n = leb 48 n && leb n 57 || leb 97 n && leb n 102

-- A class of characters in a pattern, and a pattern of one class after the other.
pub data CharClass : Type 0 where
  hex version variant dash : CharClass

abbrev pub in_class : CharClass → ℕ → Bool
in_class hex n = is_hex_code n
in_class version n = leb 49 n && leb n 53
in_class variant n = n == 56 || (n == 57 || (n == 97 || n == 98))
in_class dash n = n == 45

pub fits_pattern : List CharClass → String → Bool
fits_pattern [] String.[] = true
fits_pattern [] (String.◌∷◌ c s) = false
fits_pattern (p ∷ ps) String.[] = false
fits_pattern (p ∷ ps) (String.◌∷◌ c s) = in_class p (code c) && fits_pattern ps s

-- "8-4-4-4-12" digits
abbrev pub uuid_pattern : List CharClass
uuid_pattern =
    hex ∷ hex ∷ hex ∷ hex ∷ hex ∷ hex ∷ hex ∷ hex ∷ dash ∷ hex ∷ hex ∷ hex ∷ hex ∷ dash ∷ version
    ∷ hex ∷ hex ∷ hex ∷ dash ∷ variant ∷ hex ∷ hex ∷ hex ∷ dash ∷ hex ∷ hex ∷ hex ∷ hex ∷ hex ∷ hex
    ∷ hex ∷ hex ∷ hex ∷ hex ∷ hex ∷ hex ∷ []

-- `_LINEAR_UUID.fullmatch`
unfoldable pub is_linear_uuid : String → Bool
unfolding fits_pattern
is_linear_uuid s = fits_pattern uuid_pattern s

-- `value if value is not None else null`
abbrev pub optional_json : Option String → Json
optional_json none = null
optional_json (some s) = string s

-- The first of a chain of tests that holds, with its error.
unfoldable pub first_error : List (Bool × String) → Option String
first_error [] = none
first_error ((test, code) ∷ tests) =
    let later = first_error tests in if test then some code else later

-- Where there is no first error, every test fails.
pub first_error-none :
    (tests : List (Bool × String)) → first_error tests ≡ none → All (λ t. t.0 ≡ false) tests
unfolding first_error
first_error-none [] h = tt
first_error-none ((true, code) ∷ tests) h = cc
first_error-none ((false, code) ∷ tests) h = (refl, first_error-none tests h)

-- What the code takes of hashlib, of str and of pydantic: the hexadecimal SHA-256 of bytes, the UTF-8
-- bytes of a text and back, `str` of a JSON value that is no text, `int` of a JSON value (`none` where
-- it raises), and the validation of a SessionNotificationSourceMarker and of a
-- LinearProjectionConfigured.
pub record Platform : Type 0 where
  pub sha256 : Bytes → String
  pub utf8 : String → Bytes
  pub decode : Bytes → String
  pub json_str : Json → String
  pub json_int : Json → Option ℕ
  pub valid_marker : SourceMarker → Bool
  pub projection_of : Json → Option LinearProjectionConfigured

-- `canonical_digest` of a value, behind its "sha256:"; `encode` is the text of canonical_json_bytes.
module _ (platform : Platform) where
  unfoldable pub canonical_hex : Json → Result String
  unfolding encode
  canonical_hex v = elim (encode v) [
    | none ↦ err value_error
    | some text ↦ ok (platform.sha256 (platform.utf8 text))
  ]

  abbrev pub bytes_digest : Bytes → String
  bytes_digest content = "sha256:" <> platform.sha256 content
