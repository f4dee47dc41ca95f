-- ===== src/Store/Ingress/Markers.antt =====
-- `resolve_verified_source_marker` of src/researchctl/runtime/store.py.
use research_agent_ops.Base.{
  sort_by, is_earlier_by, String, Bool, ◌&&◌, ◌||◌, not, Option, none, some, List, [], ◌∷◌, ◌==◌,
  nat_eq, string_eq, option_eq, select, all,
}
use research_agent_ops.Errors.{linear_source_marker_ambiguous}
use research_agent_ops.Exec.{Exec, pure, ◌>>=◌, ◌>>◌, raise_if}
use research_agent_ops.Store.Schema.{Store, SourceMarker, ReceiptRow}
use research_agent_ops.Store.Transaction.{read_lock}

-- ORDER BY created_at DESC, receipt_id DESC
abbrev is_newer : ReceiptRow → ReceiptRow → Bool
is_newer a b = is_earlier_by (λ r. r.created_at) (λ r. r.receipt_id) b a

abbrev is_routing_topic : String → Bool
is_routing_topic topic = topic == "linear.accepted-result.v1" || topic == "linear.session-reply.v1"

abbrev pub binds_thread : String → String → String → ReceiptRow → Bool
binds_thread workspace_id issue_id thread_id r =
    is_routing_topic r.topic
    && (r.workspace_id == workspace_id && (r.issue_id == issue_id && r.thread_id == thread_id))

-- `SessionNotificationSourceMarker.model_validate`, of the JSON text in a column.
module _ (read_marker : String → SourceMarker) where
  pub markers_of : List ReceiptRow → List SourceMarker
  markers_of [] = []
  markers_of (r ∷ rows) =
      let rest = markers_of rows in
      elim r.source_marker_json [ none ↦ rest | some text ↦ read_marker text ∷ rest ]

  abbrev pub same_routing : SourceMarker → SourceMarker → Bool
  same_routing a b = a.task_id == b.task_id && a.session_id == b.session_id

  -- `routing_identities` has one element if all markers route as the first does.
  pub one_routing : List SourceMarker → Exec Store (Option SourceMarker)
  one_routing [] = pure none
  one_routing (m ∷ markers) = do
    raise_if (not (all (same_routing m) markers)) linear_source_marker_ambiguous
    pure (some m)

  unfoldable pub resolve_verified_source_marker :
      String → String → String → Exec Store (Option SourceMarker)
  unfolding sort_by markers_of one_routing read_lock
  resolve_verified_source_marker workspace_id issue_id thread_id = do
    rows ← read_lock (λ s.
        sort_by is_newer
          (select (binds_thread workspace_id issue_id thread_id) s.delivery_receipts))
    one_routing (markers_of rows)
