-- ===== src/Store/Status/Samples.antt =====
-- Status updates and the attention inbox at concrete inputs: tests, and an instance of each theorem
-- with hypotheses.
use research_agent_ops.Base.{ℕ, String, ◌≡◌, refl, true, false, none, some, List, [], ◌∷◌, map}
use research_agent_ops.Errors.{ok}
use research_agent_ops.Json.{Json, object, string, field, end, Items}
use research_agent_ops.Store.Schema.{
  Store, Datetime, empty_store, SessionState, RuntimeSession, StatusUpdate, StatusKind,
  AttentionRow, AttentionState,
}
use research_agent_ops.Store.Checks.{require_text, encode_time, json_object}
use research_agent_ops.Store.Attention.{ack_attention, resolve_attention, list_inbox, AttentionItem}
use research_agent_ops.Store.Attention.Continuity.{Goes}
use research_agent_ops.Store.Attention.Consistency.{InboxWell}
use research_agent_ops.Store.Attention.Listing.{Answers, IsWanted, lists_inbox}
use research_agent_ops.Store.Status.{
  PublishedStatus, publish_status_update, attention_descriptor, attention_dedupe_key,
  attention_evidence_digest, update_text,
}
use research_agent_ops.Store.Status.Replay.{publish_again}
use research_agent_ops.Store.Status.History.{
  InboxRequest, publish_, ack_, resolve_, handle_all, items_continue, inbox_stays_well,
}

abbrev noon : Datetime
noon = record { instant = 43200000000; aware = true }

abbrev later : Datetime
later = record { instant = 43200000001; aware = true }

-- stands for the digest, and for the lower case of a text that is in lower case
abbrev plain : String → String
plain s = s

abbrev plain_time : ℕ → String
plain_time t = "1970-01-01T12:00:00.000000Z"

abbrev dumped : StatusUpdate → Json
dumped u = object (field "update_id" (string u.update_id) (field "summary" (string u.summary) end))

abbrev waiting : StatusUpdate
waiting = record {
  update_id = "u-1";
  task_id = "t";
  session_id = "s";
  status = StatusKind.blocked;
  summary = "No GPU.";
  observed_at = noon;
  evidence = Items.nil;
  blocker_category = some " waiting ";
  blocker_detail = some "queue";
  decision_needed = none;
  suggested_next_action = none;
}

-- the same block with other evidence
abbrev waiting_on : StatusUpdate
waiting_on = record waiting { update_id = "u-2"; summary = "Still no GPU."; observed_at = later }

abbrev worker : RuntimeSession
worker = record {
  session_id = "s";
  project_id = "p";
  task_id = "t";
  state = SessionState.active;
  created_at = 0;
  updated_at = 0;
  host = none;
  branch = none;
  worktree_path = none;
  continued_from = none;
  actor_token_digest = none;
  metadata = record { encoded = "{}"; value = object end };
}

abbrev staffed : Store
staffed = record empty_store { sessions = worker ∷ [] }

-- the words of the category are normalised
descriptor_of_waiting : attention_descriptor plain plain dumped waiting ≡ ("waiting", "waiting", 70)
unfolding attention_descriptor
descriptor_of_waiting = refl

published :
    (r : PublishedStatus) × (t : Store) × (publish_status_update plain plain dumped "p" waiting
        staffed
      ≡ (ok r, t))
unfolding publish_status_update attention_descriptor attention_dedupe_key attention_evidence_digest
    update_text require_text encode_time
published = (_, _, refl)

publish_again_example :
    publish_status_update plain plain dumped "p" waiting published.1 ≡ (ok published.0, published.1)
publish_again_example = publish_again plain plain dumped "p" waiting staffed published.2

abbrev the_key : String
the_key =
    "sha256:{\"identity\":\"waiting\",\"kind\":\"waiting\",\"project_id\":\"p\",\"session_id\":\"s\",\"task_id\":\"t\",\"version\":1}"

-- an item is resolved, and new evidence opens it again in the next generation
abbrev requests : List InboxRequest
requests =
    publish_ "p" waiting
    ∷ ack_ the_key "m" none none noon
    ∷ resolve_ the_key "m" (some 1) none "done" noon
    ∷ publish_ "p" waiting_on
    ∷ []

opened_again :
    map {B = AttentionState × ℕ}
      (λ (r : AttentionRow). (r.state, r.generation))
      (handle_all plain plain plain_time dumped requests staffed).attention_items
    ≡ (AttentionState.open_, 2) ∷ []
unfolding handle_all publish_status_update ack_attention resolve_attention attention_descriptor
    attention_dedupe_key attention_evidence_digest update_text require_text encode_time json_object
opened_again = refl

items_continue_example : Goes staffed (handle_all plain plain plain_time dumped requests staffed)
items_continue_example = items_continue plain plain plain_time dumped requests staffed

InboxWell-staffed : InboxWell staffed
InboxWell-staffed = record { keyed = tt; each = tt }

inbox_stays_well_example : InboxWell (handle_all plain plain plain_time dumped requests staffed)
inbox_stays_well_example =
    inbox_stays_well plain plain plain_time dumped requests staffed InboxWell-staffed

abbrev attended : Store
attended = handle_all plain plain plain_time dumped requests staffed

attended_open : attended.closed ≡ false
unfolding handle_all publish_status_update ack_attention resolve_attention attention_descriptor
    attention_dedupe_key attention_evidence_digest update_text require_text encode_time json_object
attended_open = refl

lists_inbox_example :
    (items : List AttentionItem) × (list_inbox "p" later false attended ≡ (ok items, attended))
    × Answers items (IsWanted "p" later.instant false) attended
lists_inbox_example =
    lists_inbox "p" later false attended attended_open refl
      (inbox_stays_well plain plain plain_time dumped requests staffed InboxWell-staffed)
