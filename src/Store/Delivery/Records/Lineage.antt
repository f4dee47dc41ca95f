-- ===== src/Store/Delivery/Records/Lineage.antt =====
-- What a delivery comes from (`_linear_delivery_lineage` of src/researchctl/runtime/store.py).
use research_agent_ops.Base.{String, Option, none, some, List, [], ◌∷◌, string_eq}
use research_agent_ops.Json.{Json, Fields, null, string, object, field, end}
use research_agent_ops.Store.Schema.{OutboxRow, ReceiptRow}
use research_agent_ops.Store.Delivery.Receipts.{lookup_field}

abbrev lineage_keys : List String
lineage_keys =
    "event_id" ∷ "agent_id" ∷ "task_id" ∷ "session_id" ∷ "submission_id" ∷ "decision_id"
    ∷ "report_id" ∷ "report_revision" ∷ "accepted_merge_commit" ∷ "ci_subject_head"
    ∷ "ci_attestation_id" ∷ "workflow_id" ∷ "check_identity" ∷ "notification_id" ∷ "reply_id"
    ∷ "commit_sha" ∷ "actor_id" ∷ "linear_issue_id" ∷ "source_thread_id" ∷ "source_comment_id" ∷ []

abbrev lineage_target_keys : List String
lineage_target_keys = "workspace_id" ∷ "team_id" ∷ "project_id" ∷ "issue_id" ∷ []

abbrev lineage_marker_keys : List String
lineage_marker_keys =
    "agent_id" ∷ "task_id" ∷ "session_id" ∷ "report_id" ∷ "notification_id" ∷ "reply_id" ∷ []

-- `lineage[key] = value`, unless the value is missing or None
abbrev put_given : String → Option Json → Fields → Fields
put_given key none rest = rest
put_given key (some null) rest = rest
put_given key (some v) rest = field key v rest

-- The fields with these keys that are there and not None, ahead of others.
unfoldable pub picked : List String → Fields → Fields → Fields
unfolding lookup_field
picked [] from rest = rest
picked (key ∷ keys) from rest = put_given key (lookup_field key from) (picked keys from rest)

-- `{key: value[key] for key in keys if value.get(key) is not None}`, if the value is a dict
abbrev picked_object : String → List String → Option Json → Fields → Fields
picked_object key keys (some (object fs)) rest = field key (object (picked keys fs end)) rest
picked_object key keys _ rest = rest

-- `lineage.setdefault(key, value)`
abbrev with_default : String → String → Fields → Fields
with_default key value fs = elim (lookup_field key fs) [
  | none ↦ field key (string value) fs
  | some v ↦ fs
]

-- The payload, which is a dict.
abbrev payload_fields : Json → Fields
payload_fields (object fs) = fs
payload_fields _ = end

-- What the outbox row tells.
unfoldable pub row_lineage : OutboxRow → Fields
unfolding picked lookup_field
row_lineage d =
    let payload = payload_fields d.payload_json.value in
    field "aggregate_id" (string d.aggregate_id) (
      picked lineage_keys payload (
        picked_object "target" lineage_target_keys (lookup_field "target" payload)
          (picked_object "marker" lineage_marker_keys (lookup_field "marker" payload) end)))

-- `SessionNotificationSourceMarker.model_validate(...).model_dump(exclude_none=True)` of the stored
-- text of a marker.
module _ (marker_fields : String → Fields) where
  abbrev source_marker_field : Option String → Fields → Fields
  source_marker_field none fs = fs
  source_marker_field (some text) fs = field "source_marker" (object (marker_fields text)) fs

  unfoldable pub delivery_lineage : OutboxRow → Option ReceiptRow → Fields
  unfolding row_lineage lookup_field
  delivery_lineage d none = row_lineage d
  delivery_lineage d (some r) =
      source_marker_field r.source_marker_json
        (with_default "task_id" r.task_id (with_default "event_id" r.event_id (row_lineage d)))
