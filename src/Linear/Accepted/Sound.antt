-- ===== src/Linear/Accepted/Sound.antt =====
-- What an event holds that `_validate_event` passes (src/researchctl/services/linear_delivery.py).
use research_agent_ops.Base.{
  codes, String, ◌≡◌, ap, true, not, none, ◌∷◌, ◌==◌, string_eq, Bytes, bytes_eq-path, arith,
}
use research_agent_ops.Errors.{Result, ok, err}
use research_agent_ops.Linear.Envelope.{strip_linear_transport_envelope}
use research_agent_ops.Linear.Remote.{Platform, first_error-none}
use research_agent_ops.Linear.Accepted.{
  LinearAcceptedResultEvent, linear_delivery_event_id, event_checks, validate_identified,
  validate_event, strips_into,
}

pub strips_into-ok :
    (r : Result Bytes) (payload : Bytes) → strips_into r payload ≡ true → r ≡ ok payload
strips_into-ok (ok p) payload h = ap ok (bytes_eq-path p payload h)
strips_into-ok (err c) payload h = cc

module _ (platform : Platform) where
  validate_identified-none :
      (e : LinearAcceptedResultEvent) (expected : Result String)
      → validate_identified platform e expected ≡ ok none
      → strip_linear_transport_envelope e.transport_body (codes e.marker) ≡ ok e.renderer_payload
  unfolding validate_identified event_checks
  validate_identified-none e (err c) h = cc
  validate_identified-none e (ok expected) h =
      let passed =
        first_error-none
          ((not (e.event_id == expected), "linear_event_identity_mismatch")
            ∷ event_checks platform e)
          (ground (arith, h)) in
      strips_into-ok _ e.renderer_payload (ground (arith, passed.1.1.1.1.1.1.1.1.1.1.1.1.1.0))

  pub validate_event-none :
      (e : LinearAcceptedResultEvent)
      → validate_event platform e ≡ ok none
      → strip_linear_transport_envelope e.transport_body (codes e.marker) ≡ ok e.renderer_payload
  unfolding validate_event
  validate_event-none e h =
      validate_identified-none e
        (linear_delivery_event_id platform e.project_id e.task_id e.report_id e.report_revision) h
