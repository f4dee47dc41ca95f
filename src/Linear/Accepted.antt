-- ===== src/Linear/Accepted.antt =====
-- The event of an accepted result, and the check of a stored one
-- (`linear_delivery_event_id`,
-- `LinearAcceptedResultDeliveryService._validate_event` of
-- src/researchctl/services/linear_delivery.py).
pub mod Sound
pub mod Payload
pub mod Target
pub mod Outcome
pub mod Deliver
use Prim.Native.Char.{code}
use Prim.Native.String.{◌++◌ as ◌<>◌}
use research_agent_ops.Base.{
  codes, ℕ, String, Bool, true, false, ◌&&◌, ◌||◌, not, Option, none, some, List, [], ◌∷◌, ◌==◌,
  string_eq, nat_eq, option_eq, if◌then◌else◌, leb, Bytes, bytes_eq, bytes_eq-path, all, ◌≡◌, refl,
  ap, arith,
}
use research_agent_ops.Errors.{Result, ok, err, value_error}
use research_agent_ops.Json.{Json, string, int, object, field, end}
use research_agent_ops.Store.Checks.{is_space, is_digest, is_object_id, strip_prefix}
use research_agent_ops.Linear.Marker.{
  linear_delivery_marker, parse_linear_delivery_marker, parses_into, same_words, is_empty_text,
}
use research_agent_ops.Linear.Envelope.{strip_linear_transport_envelope}
use research_agent_ops.Linear.Remote.{
  Platform, LinearTarget, LinearProjectionConfigured, is_linear_uuid, first_error, first_error-none,
  canonical_hex, bytes_digest,
}

abbrev pub event_kind : String
event_kind = "linear.accepted-result.v1"

abbrev pub linear_renderer_id : String
linear_renderer_id = "linear.accepted-result-markdown.v2"

abbrev pub linear_renderer_version : ℕ
linear_renderer_version = 2

pub record LinearAcceptedResultEvent : Type 0 where
  pub event_id : String
  pub agent_id : String
  pub project_id : String
  pub task_id : String
  pub session_id : String
  pub submission_id : String
  pub decision_id : String
  pub report_id : String
  pub report_revision : ℕ
  pub accepted_merge_commit : String
  pub ci_subject_head : String
  pub ci_attestation_id : String
  pub workflow_id : String
  pub check_identity : String
  pub task_digest : String
  pub submission_digest : String
  pub decision_digest : String
  pub report_digest : String
  pub target : LinearTarget
  pub ci_projection : LinearProjectionConfigured
  pub renderer_id : String
  pub renderer_version : ℕ
  pub payload_digest : String
  pub renderer_payload : Bytes
  pub marker : String
  pub transport_body : Bytes
  pub workflow_run_id : Option String
  pub check_run_id : Option String
  pub artifact_id : Option String

abbrev pub is_missing : Option String → Bool
is_missing none = true
is_missing (some s) = false

-- `value.isdigit()` of ASCII text
pub all_digits : String → Bool
all_digits String.[] = true
all_digits (String.◌∷◌ c s) = leb 48 (code c) && leb (code c) 57 && all_digits s

abbrev starts_with_zero : String → Bool
starts_with_zero String.[] = false
starts_with_zero (String.◌∷◌ c s) = code c == 48

abbrev is_github_id : Option String → Bool
is_github_id none = true
is_github_id (some s) = not (is_empty_text s) && all_digits s && not (starts_with_zero s)

-- All of the GitHub IDs are missing, or all are positive decimal numbers.
unfoldable pub github_ids_valid : Option String → Option String → Option String → Bool
unfolding all_digits
github_ids_valid a b c =
    is_missing a && is_missing b && is_missing c
    || not (is_missing a)
      && not (is_missing b)
      && not (is_missing c)
      && (is_github_id a && is_github_id b && is_github_id c)

abbrev optional_uuid : Option String → Bool
optional_uuid none = true
optional_uuid (some s) = is_linear_uuid s

-- What `strip_linear_transport_envelope` raises, and whether what it returns is the payload.
abbrev pub strips : Result Bytes → Bool
strips (ok payload) = true
strips (err c) = false

abbrev pub strips_into : Result Bytes → Bytes → Bool
strips_into (ok payload) expected = bytes_eq payload expected
strips_into (err c) expected = false

module _ (platform : Platform) where
  -- `linear_delivery_event_id`
  unfoldable pub linear_delivery_event_id : String → String → String → ℕ → Result String
  unfolding canonical_hex
  linear_delivery_event_id project_id task_id report_id report_revision =
      elim (canonical_hex platform (
        object (
          field "kind" (string event_kind) (
            field "project_id" (string project_id) (
              field "task_id" (string task_id) (
                field "report_id" (string report_id)
                  (field "report_revision" (int report_revision) end))))))) [
                    | err c ↦ err c
                    | ok hex ↦ ok ("linear-event-" <> hex)
                  ]

  -- The checks of `_validate_event` behind the event's ID, each with its error.
  unfoldable pub event_checks : LinearAcceptedResultEvent → List (Bool × String)
  unfolding github_ids_valid is_object_id is_digest linear_delivery_marker
      parse_linear_delivery_marker same_words is_linear_uuid strip_linear_transport_envelope
      bytes_eq
  event_checks e =
      let stripped = strip_linear_transport_envelope e.transport_body (codes e.marker) in
      (
        not (is_object_id e.accepted_merge_commit && is_object_id e.ci_subject_head),
        "linear_event_lineage_invalid",
      )
      ∷ (
        is_empty_text e.ci_attestation_id
            || is_empty_text e.workflow_id
            || is_empty_text e.check_identity,
        "linear_event_lineage_invalid",
      )
      ∷ (
        not (github_ids_valid e.workflow_run_id e.check_run_id e.artifact_id),
        "linear_event_lineage_invalid",
      )
      ∷ (
        not (
            is_digest e.task_digest
            && is_digest e.submission_digest
            && is_digest e.decision_digest
            && is_digest e.report_digest),
        "linear_event_lineage_invalid",
      )
      ∷ (not (e.renderer_id == linear_renderer_id), "linear_renderer_mismatch")
      ∷ (not (e.renderer_version == linear_renderer_version), "linear_renderer_mismatch")
      ∷ (
        not (e.payload_digest == bytes_digest platform e.renderer_payload),
        "linear_payload_digest_mismatch",
      )
      ∷ (
        not (
            e.marker
            == linear_delivery_marker e.event_id e.payload_digest e.agent_id e.session_id e.task_id
                e.report_id),
        "linear_delivery_marker_mismatch",
      )
      ∷ (
        not (
            parses_into (parse_linear_delivery_marker e.marker) (
              e.event_id ∷ e.payload_digest ∷ e.agent_id ∷ e.session_id ∷ e.task_id ∷ e.report_id
              ∷ [])),
        "linear_delivery_marker_mismatch",
      )
      ∷ (
        not (
            is_linear_uuid e.target.workspace_id
            && is_linear_uuid e.target.team_id
            && is_linear_uuid e.target.issue_id),
        "linear_target_identity_invalid",
      )
      ∷ (not (optional_uuid e.target.project_id), "linear_target_identity_invalid")
      ∷ (not (strips stripped), "linear_transport_envelope_mismatch")
      ∷ (not (strips_into stripped e.renderer_payload), "linear_transport_payload_mismatch")
      ∷ (
        not (
            e.ci_projection.workspace_id == e.target.workspace_id
            && e.ci_projection.team_id == e.target.team_id
            && e.ci_projection.project_id == e.target.project_id
            && e.ci_projection.issue_id == e.target.issue_id),
        "linear_ci_target_mismatch",
      )
      ∷ (
        not (
            e.ci_projection.renderer_id == e.renderer_id
            && e.ci_projection.renderer_version == e.renderer_version),
        "linear_ci_renderer_mismatch",
      )
      ∷ (
        not (e.ci_projection.payload_digest == e.payload_digest),
        "linear_ci_payload_digest_mismatch",
      )
      ∷ []

  -- The checks, given the ID that the event has to have.
  pub validate_identified : LinearAcceptedResultEvent → Result String → Result (Option String)
  unfolding event_checks first_error
  validate_identified e (err c) = err c
  validate_identified e (ok expected) = ok (
      first_error
        ((not (e.event_id == expected), "linear_event_identity_mismatch") ∷ event_checks e))

  -- `_validate_event`
  unfoldable pub validate_event : LinearAcceptedResultEvent → Result (Option String)
  unfolding linear_delivery_event_id validate_identified
  validate_event e =
      validate_identified e
        (linear_delivery_event_id e.project_id e.task_id e.report_id e.report_revision)
