-- ===== src/Store/Ingress/Samples.antt =====
-- Verified Linear ingress at concrete inputs: tests, and an instance of each theorem with
-- hypotheses.
use research_agent_ops.Base.{String, ◌≡◌, ◌↔◌, refl, true, none, some, [], ◌∷◌, find}
use research_agent_ops.Errors.{ok}
use research_agent_ops.Store.Schema.{Store, Datetime, IngressRow, empty_store}
use research_agent_ops.Store.Checks.{require_text, require_digest, encode_time}
use research_agent_ops.Store.Ingress.{
  IngressInput, binding_hex, record_verified_linear_ingress, names_comment, address_of,
  require_verified_notification_origin, ingress_row,
}
use research_agent_ops.Store.Ingress.Replay.{record_again}
use research_agent_ops.Store.Ingress.Origin.{verifies_iff, receipts_stay, KeepsReceipts}

abbrev noon : Datetime
noon = record { instant = 43200000000; aware = true }

abbrev later : Datetime
later = record { instant = 43200000001; aware = true }

-- stands for the digest
abbrev short_digest : String → String
short_digest s = "0123"

abbrev digest_a : String
digest_a = "sha256:aaaaaaaaaaaaaaaaaaaaaaaaaaaaaaaaaaaaaaaaaaaaaaaaaaaaaaaaaaaaaaaa"

abbrev question : IngressInput
question = record {
  project_id = "p";
  authenticated_app_id = "app";
  mentioned_app_id = "app";
  author_id = "author";
  credential_identity = "credential";
  workspace_id = "w";
  issue_id = "i";
  thread_id = "h";
  comment_id = "c";
  webhook_event_id = some "e";
  task_id = "t";
  source_marker = none;
  command_digest = digest_a;
  observed_payload_digest = digest_a;
}

-- the comment, claimed for another Task
abbrev moved : IngressInput
moved = record question { task_id = "other" }

recorded :
    (r : IngressRow) × (t : Store) × (record_verified_linear_ingress short_digest question noon
        empty_store
      ≡ (ok r, t))
unfolding record_verified_linear_ingress binding_hex require_verified_notification_origin
    require_text require_digest encode_time
recorded = (_, _, refl)

record_again_example :
    record_verified_linear_ingress short_digest question later recorded.1
    ≡ (ok recorded.0, recorded.1)
record_again_example = record_again short_digest question noon later empty_store recorded.2

abbrev asked : Store
asked = record empty_store { ingress_receipts = ingress_row question "0123" 0 ∷ [] }

verifies_iff_example :
    (require_verified_notification_origin (address_of question) asked
      ≡ (ok (ingress_row question "0123" 0), asked))
    ↔ ((find (names_comment "w" "c") asked.ingress_receipts ≡ some (ingress_row question "0123" 0))
        × ("p" ≡ question.project_id)
        × ("i" ≡ question.issue_id)
        × ("h" ≡ question.thread_id)
        × ("t" ≡ question.task_id))
verifies_iff_example =
    verifies_iff (address_of question) asked (ingress_row question "0123" 0) refl (refl, tt)

receipts_stay_example :
    KeepsReceipts asked (record_verified_linear_ingress short_digest moved later asked).1
receipts_stay_example = receipts_stay short_digest moved later asked
