-- ===== src/Linear/Accepted/Payload/RoundTrip.antt =====
-- An event survives its stored form (`linear_event_payload`, `linear_event_from_payload` of
-- src/researchctl/services/linear_delivery.py).
use research_agent_ops.Base.{
  ℕ, String, ◌≡◌, refl, true, not, ◌&&◌, ◌||◌, Option, none, some, string_eq, if◌then◌else◌,
}
use research_agent_ops.Errors.{ok, err, linear_delivery_event_invalid}
use research_agent_ops.Json.{int, object}
use research_agent_ops.Store.Delivery.Receipts.{lookup_field}
use research_agent_ops.Linear.Remote.{Platform, LinearTarget, optional_json}
use research_agent_ops.Linear.Accepted.{LinearAcceptedResultEvent, is_missing}
use research_agent_ops.Linear.Accepted.Payload.{
  target_payload, projection_json, linear_event_payload,
}
use research_agent_ops.Linear.Accepted.Payload.Reading.{
  linear_event_from_payload, event_fields, target_from, optional_of, has_exactly, event_keys,
  github_ids_shaped, target_keys,
}

module _ (platform : Platform) where
  -- What pydantic, int and the UTF-8 codec promise of the values of an event.
  pub record RoundTrips (e : LinearAcceptedResultEvent) : Type 0 where
    pub ints : (n : ℕ) → platform.json_int (int n) ≡ some n
    pub projection : platform.projection_of (projection_json e.ci_projection) ≡ some e.ci_projection
    pub payload_text : platform.utf8 (platform.decode e.renderer_payload) ≡ e.renderer_payload
    pub body_text : platform.utf8 (platform.decode e.transport_body) ≡ e.transport_body

  optional_of_json : (o : Option String) → optional_of platform (some (optional_json o)) ≡ ok o
  unfolding optional_of
  optional_of_json none = refl
  optional_of_json (some s) = refl

  keys_match :
      (e : LinearAcceptedResultEvent)
      → has_exactly (linear_event_payload platform e) event_keys ≡ true
  unfolding has_exactly linear_event_payload
  keys_match e = refl

  looks_up :
      (e : LinearAcceptedResultEvent)
      → (lookup_field "version" (linear_event_payload platform e) ≡ some (int 1))
        × (lookup_field "workflow_run_id" (linear_event_payload platform e)
            ≡ some (optional_json e.workflow_run_id))
        × (lookup_field "check_run_id" (linear_event_payload platform e)
            ≡ some (optional_json e.check_run_id))
        × (lookup_field "artifact_id" (linear_event_payload platform e)
            ≡ some (optional_json e.artifact_id))
        × (lookup_field "target" (linear_event_payload platform e)
            ≡ some (object (target_payload e.target)))
  unfolding lookup_field linear_event_payload
  looks_up e = (refl, refl, refl, refl, refl)

  target_keys_match : (t : LinearTarget) → has_exactly (target_payload t) target_keys ≡ true
  unfolding has_exactly
  target_keys_match t = refl

  target_from_payload : (t : LinearTarget) → target_from platform (target_payload t) ≡ ok t
  unfolding target_from
  target_from_payload t = rw (optional_of_json t.project_id) refl

  event_from_fields :
      (e : LinearAcceptedResultEvent)
      → RoundTrips e
      → event_fields platform (linear_event_payload platform e) (target_payload e.target) ≡ ok e
  unfolding event_fields linear_event_payload
  event_from_fields e trips =
      rw
        (
          trips.ints e.report_revision,
          optional_of_json e.workflow_run_id,
          optional_of_json e.check_run_id,
          optional_of_json e.artifact_id,
          target_from_payload e.target,
          trips.projection,
          trips.ints e.renderer_version,
          trips.payload_text,
          trips.body_text,
        )
        refl

  ids_shaped :
      (a b c : Option String)
      → (is_missing a && is_missing b && is_missing c
          || not (is_missing a) && not (is_missing b) && not (is_missing c))
        ≡ true
      → github_ids_shaped (some (optional_json a)) (some (optional_json b)) (some (optional_json c))
        ≡ true
  ids_shaped none none none h = refl
  ids_shaped none none (some c) h = cc
  ids_shaped none (some b) none h = cc
  ids_shaped none (some b) (some c) h = cc
  ids_shaped (some a) none none h = cc
  ids_shaped (some a) none (some c) h = cc
  ids_shaped (some a) (some b) none h = cc
  ids_shaped (some a) (some b) (some c) h = refl

  target_checked :
      (e : LinearAcceptedResultEvent)
      → RoundTrips e
      → (if not (has_exactly (target_payload e.target) target_keys)
          then err linear_delivery_event_invalid
          else event_fields platform (linear_event_payload platform e) (target_payload e.target))
        ≡ ok e
  target_checked e trips = rw (target_keys_match e.target) (event_from_fields e trips)

  -- `linear_event_from_payload` reads an event back from its `linear_event_payload`, where all of its
  -- GitHub IDs are missing or all are there, and pydantic, `int` and the UTF-8 codec give back what was
  -- written for its values.
  pub from_payload-payload :
      (e : LinearAcceptedResultEvent)
      → RoundTrips e
      → (is_missing e.workflow_run_id && is_missing e.check_run_id && is_missing e.artifact_id
          || not (is_missing e.workflow_run_id)
            && not (is_missing e.check_run_id)
            && not (is_missing e.artifact_id))
        ≡ true
      → linear_event_from_payload platform (linear_event_payload platform e) ≡ ok e
  unfolding linear_event_from_payload
  from_payload-payload e trips h =
      let (version, workflow_run, check_run, artifact, target) = looks_up e in
      rw
        (
          keys_match e,
          version,
          workflow_run,
          check_run,
          artifact,
          ids_shaped e.workflow_run_id e.check_run_id e.artifact_id h,
          target,
        )
        (target_checked e trips)
