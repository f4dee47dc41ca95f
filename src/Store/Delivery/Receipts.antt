-- ===== src/Store/Delivery/Receipts.antt =====
-- Receipts of delivered events (`_insert_linear_delivery_receipt` of
-- src/researchctl/runtime/store.py).
use research_agent_ops.Base.{
  ◌≡◌, refl, ◌∙◌, ℕ, String, Bool, true, false, ◌&&◌, ◌||◌, not, Option, none, some, List, [], ◌∷◌,
  ◌==◌, string_eq, if◌then◌else◌, find, any,
}
use research_agent_ops.Errors.{
  Result, ok, err, value_error, invalid_runtime_record, linear_delivery_receipt_invalid,
  linear_delivery_receipt_conflict,
}
use research_agent_ops.Json.{
  Json, Fields, null, bool, int, negative, non_finite, array, object, string, field, end,
}
use research_agent_ops.Exec.{Exec, pure, lift, gets, or_raise, ◌>>=◌, ◌>>◌, raise_if}
use research_agent_ops.Exec.Respects.{
  IsPreorder, Respects, Respects-bind, Respects-lift, Respects-pure, Respects-raise_if,
  Respects-gets, Respects-or_raise,
}
use research_agent_ops.Store.Schema.{Store, ReceiptRow}
use research_agent_ops.Store.Checks.{require_text, require_digest, json_object}
use research_agent_ops.Store.Transaction.{insert_row, at-insert_row}

unfoldable pub lookup_field : String → Fields → Option Json
lookup_field key end = none
lookup_field key (field k v rest) =
    let later = lookup_field key rest in if k == key then some v else later

has_field : Fields → String → Bool
unfolding lookup_field
has_field fs key = elim (lookup_field key fs) [ none ↦ false | some v ↦ true ]

unfoldable pub has_fields : Fields → List String → Bool
unfolding has_field
has_fields fs [] = true
has_fields fs (k ∷ ks) = has_field fs k && has_fields fs ks

abbrev required : List String
required =
    "receipt_id" ∷ "credential_identity" ∷ "workspace_id" ∷ "issue_id" ∷ "thread_id" ∷ "comment_id"
    ∷ "event_id" ∷ "task_id" ∷ "payload_digest" ∷ "transport_digest" ∷ "marker" ∷ []

-- `isinstance(value, str)`, and the text
as_text : Option Json → Result String
as_text (some (string s)) = ok s
as_text _ = err invalid_runtime_record

-- `_require_text(copied[field], field)`
text_field : String → Fields → Exec Store String
unfolding lookup_field as_text
text_field key fs = do s ← lift (as_text (lookup_field key fs)); lift (require_text s); pure s

-- `_require_digest(copied[field], field)`
digest_field : String → Fields → Exec Store String
unfolding lookup_field as_text
digest_field key fs = do s ← lift (as_text (lookup_field key fs)); lift (require_digest s); pure s

-- INSERT INTO linear_delivery_receipts: the primary key and the two UNIQUE constraints
abbrev receipt_clashes : ReceiptRow → Store → Bool
receipt_clashes r s =
    any
      (λ q.
        q.receipt_id == r.receipt_id
        || (q.topic == r.topic && q.outbox_id == r.outbox_id
            || q.workspace_id == r.workspace_id && q.comment_id == r.comment_id))
      s.delivery_receipts

abbrev add_receipt : ReceiptRow → Store → Store
add_receipt r s = record s { delivery_receipts = r ∷ s.delivery_receipts }

-- WHERE topic = ? AND outbox_id = ?
abbrev pub has_delivery : String → String → ReceiptRow → Bool
has_delivery topic outbox_id r = r.topic == topic && r.outbox_id == outbox_id

-- The branch on the receipt that is stored.
store_receipt : ReceiptRow → Option ReceiptRow → Exec Store (Unit {0})
unfolding insert_row
store_receipt r (some existing) =
    raise_if (not (existing.payload_json.encoded == r.payload_json.encoded))
      linear_delivery_receipt_conflict
store_receipt r none = insert_row (receipt_clashes r) (add_receipt r)

module _ (marker_json : Json → Option String) where
  -- The optional source marker: absent, null, or validated.
  source_marker_text : Option Json → Exec Store (Option String)
  source_marker_text none = pure none
  source_marker_text (some null) = pure none
  source_marker_text (some v) = do text ← or_raise value_error (marker_json v); pure (some text)

  receipt_row : String → String → String → Fields → ℕ → Exec Store ReceiptRow
  unfolding has_fields text_field digest_field source_marker_text lookup_field
  receipt_row project_id topic outbox_id receipt at = do
    payload ← lift (json_object (object receipt))
    raise_if (not (has_fields receipt required)) linear_delivery_receipt_invalid
    receipt_id ← text_field "receipt_id" receipt
    credential_identity ← text_field "credential_identity" receipt
    workspace_id ← text_field "workspace_id" receipt
    issue_id ← text_field "issue_id" receipt
    thread_id ← text_field "thread_id" receipt
    comment_id ← text_field "comment_id" receipt
    event_id ← text_field "event_id" receipt
    task_id ← text_field "task_id" receipt
    marker ← text_field "marker" receipt
    payload_digest ← digest_field "payload_digest" receipt
    transport_digest ← digest_field "transport_digest" receipt
    source_marker ← source_marker_text (lookup_field "source_marker" receipt)
    pure (record {
      receipt_id = receipt_id;
      project_id = project_id;
      credential_identity = credential_identity;
      topic = topic;
      outbox_id = outbox_id;
      workspace_id = workspace_id;
      issue_id = issue_id;
      thread_id = thread_id;
      comment_id = comment_id;
      event_id = event_id;
      task_id = task_id;
      source_marker_json = source_marker;
      payload_digest = payload_digest;
      transport_digest = transport_digest;
      marker_text = marker;
      payload_json = payload;
      created_at = at;
    })

  -- `_insert_linear_delivery_receipt`
  unfoldable pub insert_receipt : String → String → String → Fields → ℕ → Exec Store (Unit {0})
  unfolding receipt_row store_receipt
  insert_receipt project_id topic outbox_id receipt at = do
    r ← receipt_row project_id topic outbox_id receipt at
    existing ← gets (λ s. find (has_delivery topic outbox_id) s.delivery_receipts)
    store_receipt r existing

-- The leases and the deliveries are as they were.
pub record LeavesQueue (s t : Store) : Type 0 where
  pub same_claims : t.claims ≡ s.claims
  pub same_projections : t.projection_outbox ≡ s.projection_outbox
  pub same_replies : t.reply_outbox ≡ s.reply_outbox

LeavesQueue-IsPreorder : IsPreorder LeavesQueue
LeavesQueue-IsPreorder = record {
  same = λ s. record { same_claims = refl; same_projections = refl; same_replies = refl };
  then_ = λ s t u h k. record {
    same_claims = k.same_claims ∙ h.same_claims;
    same_projections = k.same_projections ∙ h.same_projections;
    same_replies = k.same_replies ∙ h.same_replies;
  };
}

ruleset leave_rules = (
  LeavesQueue-IsPreorder, Respects-bind, Respects-lift, Respects-pure, Respects-raise_if,
  Respects-gets, Respects-or_raise,
)

text_field-LeavesQueue : (key : String) (fs : Fields) → Respects LeavesQueue (text_field key fs)
unfolding text_field
text_field-LeavesQueue key fs = search leave_rules depth 20

digest_field-LeavesQueue : (key : String) (fs : Fields) → Respects LeavesQueue (digest_field key fs)
unfolding digest_field
digest_field-LeavesQueue key fs = search leave_rules depth 20

store_receipt-LeavesQueue :
    (r : ReceiptRow) (row : Option ReceiptRow) → Respects LeavesQueue (store_receipt r row)
unfolding store_receipt
store_receipt-LeavesQueue r none = record {
  at = λ s.
      at-insert_row LeavesQueue-IsPreorder (receipt_clashes r) (add_receipt r) s
        (λ _. record { same_claims = refl; same_projections = refl; same_replies = refl });
}
store_receipt-LeavesQueue r (some existing) = Respects-raise_if LeavesQueue-IsPreorder _ _

module _ (marker_json : Json → Option String) where
  source_marker_text-LeavesQueue :
      (v : Option Json) → Respects LeavesQueue (source_marker_text marker_json v)
  unfolding source_marker_text
  source_marker_text-LeavesQueue none = search leave_rules
  source_marker_text-LeavesQueue (some null) = search leave_rules
  source_marker_text-LeavesQueue (some (bool b)) = search leave_rules
  source_marker_text-LeavesQueue (some (int n)) = search leave_rules
  source_marker_text-LeavesQueue (some (negative n)) = search leave_rules
  source_marker_text-LeavesQueue (some non_finite) = search leave_rules
  source_marker_text-LeavesQueue (some (string t)) = search leave_rules
  source_marker_text-LeavesQueue (some (array xs)) = search leave_rules
  source_marker_text-LeavesQueue (some (object fs)) = search leave_rules

  receipt_row-LeavesQueue :
      (project_id topic outbox_id : String) (receipt : Fields) (at : ℕ)
      → Respects LeavesQueue (receipt_row marker_json project_id topic outbox_id receipt at)
  unfolding receipt_row
  receipt_row-LeavesQueue project_id topic outbox_id receipt at =
      search
        (
          leave_rules, source_marker_text-LeavesQueue, text_field-LeavesQueue,
          digest_field-LeavesQueue,
        )
        depth 80 fits 20000

  pub insert_receipt-LeavesQueue :
      (project_id topic outbox_id : String) (receipt : Fields) (at : ℕ)
      → Respects LeavesQueue (insert_receipt marker_json project_id topic outbox_id receipt at)
  unfolding insert_receipt
  insert_receipt-LeavesQueue project_id topic outbox_id receipt at =
      Respects-bind LeavesQueue-IsPreorder
        (receipt_row marker_json project_id topic outbox_id receipt at) _
        (receipt_row-LeavesQueue project_id topic outbox_id receipt at)
        λ r.
          Respects-bind LeavesQueue-IsPreorder
            (gets (λ u. find (has_delivery topic outbox_id) u.delivery_receipts)) _
            (Respects-gets LeavesQueue-IsPreorder _)
            λ existing. store_receipt-LeavesQueue r existing
