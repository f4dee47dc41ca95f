-- ===== src/Store/Replies/Methods.antt =====
-- Steps of reply_notification (`reply_notification` of src/researchctl/runtime/store.py), as they bear on the
-- notifications and on their routing.
use Prim.Native.String.{◌++◌ as ◌<>◌}
use research_agent_ops.Base.{
  ℕ, String, ◌≡◌, refl, Bool, true, not, Option, none, some, ◌==◌, nat_eq, string_eq, find, arith,
}
use research_agent_ops.Errors.{
  Result, ok, err, notification_not_found, stale_notification, notification_closed,
  notification_reply_id_conflict,
}
use research_agent_ops.Exec.{lift, ◌>>◌, ◌>>=◌}
use research_agent_ops.Exec.Respects.{
  Respects, Respects-bind, Respects-lift, Respects-pure, Respects-or_raise, Respects-raise_if,
  at-raise_if, at-or_raise, at-bind_here,
}
use research_agent_ops.Store.Schema.{Store, NotificationRow, ReplyRow, Datetime, JsonText}
use research_agent_ops.Store.Checks.{json_object}
use research_agent_ops.Store.Transaction.{
  Respects-write_transaction, Respects-read_lock, insert_row, at-insert_row, at-insert_row_then,
}
use research_agent_ops.Store.Sessions.{is_unreplied}
use research_agent_ops.Store.Notifications.{has_notification, get_notification, require_operation}
use research_agent_ops.Store.Notifications.Tracking.{Follows, Tracks-same, update-Tracks}
use research_agent_ops.Store.Notifications.Routing.{
  Moves, Moves-IsPreorder, Moves-refl, update-RoutesWell,
}
use research_agent_ops.Store.Notifications.Methods.{
  found-same, require_operation-Moves, require_operation-state,
}
use research_agent_ops.Store.Replies.{
  ReplyInput, closed_by, set_replied, reply_row, reply_clashes, add_reply, reply_outbox_row,
  reply_outbox_clashes, add_reply_outbox, new_status, status_clashes, add_status, reply_topic,
  reply_outbox_id, same_reply, reply_payload, write_reply, published_reply, reply_new, reply_row_of,
  reply_body, check_reply, reply_notification,
}

-- A step that writes neither table.
Moves-same : (s t : Store) → t.notifications ≡ s.notifications → t.sessions ≡ s.sessions → Moves s t
Moves-same s t e k = record {
  tracks = Tracks-same s t e;
  routes = λ h. record { keyed = rw e h.keyed; each = rw (e, k) h.each };
}

insert_row-Moves :
    (clashes : Store → Bool) (add : Store → Store)
    → ((s : Store) → Moves s (add s))
    → Respects Moves (insert_row clashes add)
insert_row-Moves clashes add h = record {
  at = λ s. at-insert_row Moves-IsPreorder clashes add s (λ _. h s);
}

closed_by-Follows :
    (x : ReplyInput) (at : ℕ) (n : NotificationRow)
    → is_unreplied n.state ≡ true
    → Follows n (closed_by x at n)
closed_by-Follows x at n open_ = record {
  same_content = refl;
  monotone = omega arith;
  counted = λ h. absurd (omega arith);
  final = λ h. cc;
}

set_replied-Moves :
    (x : ReplyInput) (at : ℕ) (n : NotificationRow) (s : Store)
    → find (has_notification x.notification_id) s.notifications ≡ some n
    → is_unreplied n.state ≡ true
    → Moves s (set_replied x at s)
set_replied-Moves x at n s found open_ = record {
  tracks =
      update-Tracks (has_notification x.notification_id) (closed_by x at) s (set_replied x at s)
        refl (λ m. refl)
        λ j m h k. closed_by-Follows x at m (rw (found-same x.notification_id j s found h k) open_);
  routes =
      update-RoutesWell x.notification_id (closed_by x at) s n (λ m. refl) found
        λ r. record {
          owner = r.owner;
          found = r.found;
          same_project = r.same_project;
          same_task = r.same_task;
          live = λ h. absurd (ground arith);
        };
}

write_reply-Moves :
    (x : ReplyInput) (n : NotificationRow) (payload : JsonText) (digest : String) (at : ℕ)
    (s : Store)
    → find (has_notification x.notification_id) s.notifications ≡ some n
    → is_unreplied n.state ≡ true
    → Moves s (write_reply x n payload digest at s).1
unfolding write_reply
write_reply-Moves x n payload digest at s found open_ =
    let r = reply_row x n payload digest at in
    let t = add_reply r s in
    let o = reply_outbox_row x n payload at in
    let d = new_status reply_topic (reply_outbox_id x.reply_id) n.project_id at in
    let last : Respects Moves (
        insert_row (reply_outbox_clashes o) (add_reply_outbox o)
        >> insert_row (status_clashes d) (add_status d)) =
      Respects-bind Moves-IsPreorder _ _
        (insert_row-Moves (reply_outbox_clashes o) (add_reply_outbox o)
          (λ u. Moves-same u (add_reply_outbox o u) refl refl))
        (λ _.
          insert_row-Moves (status_clashes d) (add_status d)
            (λ u. Moves-same u (add_status d u) refl refl)) in
    at-insert_row_then Moves-IsPreorder (reply_clashes r) (add_reply r) _ s λ _.
      Moves-IsPreorder.then_ s t _ (Moves-same s t refl refl) (
        Moves-IsPreorder.then_ t (set_replied x at t) _ (set_replied-Moves x at n t found open_)
          (last.at (set_replied x at t)))

published_reply-Moves : (id : String) → Respects Moves (published_reply id)
unfolding published_reply get_notification
published_reply-Moves id =
    search (Respects-bind, Respects-pure, Respects-or_raise, Respects-read_lock, Moves-IsPreorder)
      depth 30

check_reply-Moves : (x : ReplyInput) (o : Datetime) → Respects Moves (check_reply x o)
unfolding check_reply
check_reply-Moves x o = search (Respects-bind, Respects-lift, Moves-IsPreorder) depth 20

module _ (sha256 : String → String) (format_time : ℕ → String) where
  encoded-Moves :
      (x : ReplyInput) (n : NotificationRow) (at : ℕ) (s : Store)
      → find (has_notification x.notification_id) s.notifications ≡ some n
      → is_unreplied n.state ≡ true
      → (r : Result JsonText)
      → Moves s
          ((lift r >>= λ payload. write_reply x n payload ("sha256:" <> sha256 payload.encoded) at)
            s).1
  encoded-Moves x n at s found open_ (err c) = Moves-refl s
  encoded-Moves x n at s found open_ (ok payload) = write_reply-Moves x n payload _ at s found open_

  reply_new-Moves :
      (x : ReplyInput) (at : ℕ) (n : NotificationRow) (s : Store)
      → find (has_notification x.notification_id) s.notifications ≡ some n
      → Moves s (reply_new sha256 format_time x at n s).1
  unfolding reply_new
  reply_new-Moves x at n s found =
      at-raise_if Moves-IsPreorder (not (n.revision == x.expected_revision)) stale_notification _ s
        λ _.
          at-raise_if Moves-IsPreorder (not (is_unreplied n.state)) notification_closed _ s λ open_.
            at-bind_here Moves-IsPreorder (require_operation x.operation_id) _ s
              ((require_operation-Moves x.operation_id).at s)
              λ _. rw (require_operation-state x.operation_id s) (
                encoded-Moves x n at s found (ground arith)
                  (json_object (reply_payload x n (format_time at))))

  reply_row_of-Moves :
      (x : ReplyInput) (at : ℕ) (n : NotificationRow) (known : Option ReplyRow) (s : Store)
      → find (has_notification x.notification_id) s.notifications ≡ some n
      → Moves s (reply_row_of sha256 format_time x at n known s).1
  unfolding reply_row_of
  reply_row_of-Moves x at n none s found = reply_new-Moves x at n s found
  reply_row_of-Moves x at n (some known) s found =
      (Respects-raise_if Moves-IsPreorder (not (same_reply x known))
          notification_reply_id_conflict).at
        s

  reply_body-Moves : (x : ReplyInput) (at : ℕ) → Respects Moves (reply_body sha256 format_time x at)
  unfolding reply_body
  reply_body-Moves x at = record {
    at = λ s.
        at-or_raise Moves-IsPreorder notification_not_found
          (find (has_notification x.notification_id) s.notifications) _ s
          λ n found. reply_row_of-Moves x at n _ s found;
  }

  -- reply_notification follows each notification and keeps the routing.
  pub reply_notification-Moves :
      (x : ReplyInput) (o : Datetime) → Respects Moves (reply_notification sha256 format_time x o)
  unfolding reply_notification
  reply_notification-Moves x o =
      search
        (
          Respects-bind, Respects-write_transaction, Moves-IsPreorder, check_reply-Moves,
          reply_body-Moves, published_reply-Moves,
        )
        depth 20
