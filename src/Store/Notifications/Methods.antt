-- ===== src/Store/Notifications/Methods.antt =====
-- Steps of create_notification and ack_notification (src/researchctl/runtime/store.py), as they
-- bear on the notifications and on their routing.
use research_agent_ops.Base.{
  ℕ, String, ◌≡◌, refl, sym, ◌∙◌, true, false, ◌&&◌, not, Option, none, some, ◌==◌, nat_eq,
  string_eq, find, any, any-or_left, find-holds, if-holds, eq_iff, arith,
}
use research_agent_ops.Errors.{
  Result, ok, err, notification_session_not_found, notification_session_mismatch,
  notification_source_conflict, notification_id_conflict, notification_not_found,
  stale_notification, notification_closed, operation_not_found,
}
use research_agent_ops.Exec.{Exec, raise_if, skip, ◌>>◌}
use research_agent_ops.Exec.Respects.{
  Respects, Respects-bind, Respects-lift, Respects-pure, Respects-or_raise, Respects-raise_if,
  at-raise_if, at-or_raise, at-bind_here,
}
use research_agent_ops.Store.Schema.{Store, RuntimeSession, NotificationRow, Datetime}
use research_agent_ops.Store.Transaction.{
  Respects-write_transaction, Respects-read_lock, at-insert_row,
}
use research_agent_ops.Store.Operations.{has_id}
use research_agent_ops.Store.Sessions.{has_session, is_unreplied}
use research_agent_ops.Store.Notifications.{
  NotificationInput, has_notification, has_source, new_notification, same_content,
  notification_clashes, add_notification, create_row, create_body, is_other, check_notification,
  create_notification, require_operation, is_pending, with_ack, set_ack, is_replay, ack_pending,
  ack_row, ack_body, ack_notification, get_notification, read_notification,
}
use research_agent_ops.Store.Notifications.Tracking.{Follows, update-Tracks, add-Tracks}
use research_agent_ops.Store.Notifications.Routing.{
  Moves, Moves-IsPreorder, Moves-refl, new_notification-IsRouted, add_notification-RoutesWell,
  update-RoutesWell, with_ack-IsRouted,
}

read_notification-Moves : (id : String) → Respects Moves (read_notification id)
unfolding read_notification get_notification
read_notification-Moves id =
    Respects-bind Moves-IsPreorder (get_notification id) _ (Respects-read_lock Moves-IsPreorder _)
      λ found. Respects-or_raise Moves-IsPreorder _ found

insert_notification-Moves :
    (x : NotificationInput) (owner : RuntimeSession) (origin_json : String) (at : ℕ) (s : Store)
    → find (has_session x.session_id) s.sessions ≡ some owner
    → not (owner.project_id == x.project_id && owner.task_id == x.task_id) ≡ false
    → Moves s (create_row x owner origin_json at none s).1
unfolding create_row
insert_notification-Moves x owner origin_json at s found same =
    at-insert_row Moves-IsPreorder (notification_clashes n) (add_notification n) s λ clear. record {
      tracks = add-Tracks n s (add_notification n s) refl (fresh clear);
      routes = λ h.
          add_notification-RoutesWell n s h (fresh clear)
            (new_notification-IsRouted x owner origin_json at s found same);
    }
  where
    n : NotificationRow
    n = new_notification x owner origin_json at

    fresh :
        notification_clashes n s ≡ false
        → any (has_notification n.notification_id) s.notifications ≡ false
    fresh clear =
        any-or_left (has_notification n.notification_id)
          (has_source n.project_id n.source_comment_id n.session_id) s.notifications (ground arith)

create_row-Moves :
    (x : NotificationInput) (owner : RuntimeSession) (origin_json : String) (at : ℕ)
    (row : Option NotificationRow) (s : Store)
    → find (has_session x.session_id) s.sessions ≡ some owner
    → not (owner.project_id == x.project_id && owner.task_id == x.task_id) ≡ false
    → Moves s (create_row x owner origin_json at row s).1
create_row-Moves x owner origin_json at none s found same =
    insert_notification-Moves x owner origin_json at s found same
create_row-Moves x owner origin_json at (some existing) s found same =
    unfold create_row in
    (Respects-raise_if Moves-IsPreorder (not (same_content x origin_json existing))
        notification_id_conflict).at
      s

create_body-Moves :
    (x : NotificationInput) (origin_json : String) (at : ℕ)
    → Respects Moves (create_body x origin_json at)
unfolding create_body
create_body-Moves x origin_json at = record {
  at = λ s.
      at-or_raise Moves-IsPreorder notification_session_not_found
        (find (has_session x.session_id) s.sessions) _ s
        λ owner found.
          at-raise_if Moves-IsPreorder
            (not (owner.project_id == x.project_id && owner.task_id == x.task_id))
            notification_session_mismatch _ s
            λ same.
              at-raise_if Moves-IsPreorder
                (is_other x.notification_id
                  (find (has_source x.project_id x.origin.comment_id x.session_id) s.notifications))
                notification_source_conflict _ s
                λ _. create_row-Moves x owner origin_json at _ s found same;
}

ruleset move_rules = (
  Moves-IsPreorder, Respects-bind, Respects-lift, Respects-pure, Respects-raise_if,
  Respects-write_transaction, read_notification-Moves,
)

check_notification-Moves :
    (x : NotificationInput) (o : Datetime) → Respects Moves (check_notification x o)
unfolding check_notification
check_notification-Moves x o = search move_rules depth 30

-- create_notification follows each notification and keeps the routing.
pub create_notification-Moves :
    (x : NotificationInput) (o : Datetime) → Respects Moves (create_notification x o)
unfolding create_notification
create_notification-Moves x o = search (move_rules, check_notification-Moves, create_body-Moves)

with_ack-Follows :
    (actor operation_id : String) (at : ℕ) (n : NotificationRow)
    → is_unreplied n.state ≡ true
    → Follows n (with_ack actor at operation_id n)
with_ack-Follows actor operation_id at n open_ = record {
  same_content = refl;
  monotone = omega arith;
  counted = λ h. absurd (omega arith);
  final = λ h. cc;
}

-- Of the rows that an ID finds, only one has it.
pub found-same :
    (id j : String) (s : Store) {n m : NotificationRow}
    → find (has_notification id) s.notifications ≡ some n
    → find (has_notification j) s.notifications ≡ some m
    → has_notification id m ≡ true
    → m ≡ n
found-same id j s {n} {m} e h k =
    let same : j ≡ id =
      sym
        ((eq_iff m.notification_id j).0 (find-holds (has_notification j) s.notifications {x = m} h))
      ∙ (eq_iff m.notification_id id).0 k in
    let e' : find (has_notification j) s.notifications ≡ some n = rw same e in ground arith

set_ack-Moves :
    (id actor operation_id : String) (at : ℕ) (n : NotificationRow) (s : Store)
    → find (has_notification id) s.notifications ≡ some n
    → is_unreplied n.state ≡ true
    → Moves s (set_ack id actor at operation_id s)
set_ack-Moves id actor operation_id at n s found open_ = record {
  tracks =
      update-Tracks (has_notification id) (with_ack actor at operation_id) s
        (set_ack id actor at operation_id s) refl (λ m. refl)
        λ j m h k.
          with_ack-Follows actor operation_id at m (rw (found-same id j s found h k) open_);
  routes =
      update-RoutesWell id (with_ack actor at operation_id) s n (λ m. refl) found
        (with_ack-IsRouted s.sessions actor operation_id at n open_);
}

pub require_operation-Moves : (id : String) → Respects Moves (require_operation id)
unfolding require_operation
require_operation-Moves id = record {
  at = λ s.
      if-holds (λ (r : Result (Unit {0}) × Store). Moves s r.1) (any (has_id id) s.operations)
        (ok tt, s) (err operation_not_found, s) (λ _. Moves-refl s) (λ _. Moves-refl s);
}

pub require_operation-state : (id : String) (s : Store) → (require_operation id s).1 ≡ s
unfolding require_operation
require_operation-state id s = ground arith

ack_pending-Moves :
    (id actor : String) (at : ℕ) (operation_id : String) (n : NotificationRow) (s : Store)
    → find (has_notification id) s.notifications ≡ some n
    → is_unreplied n.state ≡ true
    → Moves s (ack_pending id actor at operation_id n s).1
unfolding ack_pending
ack_pending-Moves id actor at operation_id n s found open_ =
    if-holds (λ (m : Exec Store (Unit {0})). Moves s (m s).1) (is_pending n.state)
      (require_operation operation_id >> λ t. (ok tt, set_ack id actor at operation_id t)) skip
      (λ _.
        at-bind_here Moves-IsPreorder (require_operation operation_id) _ s
          ((require_operation-Moves operation_id).at s)
          λ _.
            rw (require_operation-state operation_id s)
              (set_ack-Moves id actor operation_id at n s found open_))
      (λ _. Moves-refl s)

ack_row-Moves :
    (id actor : String) (at expected : ℕ) (operation_id : String) (n : NotificationRow) (s : Store)
    → find (has_notification id) s.notifications ≡ some n
    → Moves s (ack_row id actor at expected operation_id n s).1
unfolding ack_row
ack_row-Moves id actor at expected operation_id n s found =
    if-holds (λ (m : Exec Store (Unit {0})). Moves s (m s).1) (is_replay n actor operation_id) skip
      (raise_if (not (n.revision == expected)) stale_notification
        >> (raise_if (not (is_unreplied n.state)) notification_closed
            >> ack_pending id actor at operation_id n))
      (λ _. Moves-refl s)
      λ _. at-raise_if Moves-IsPreorder (not (n.revision == expected)) stale_notification _ s λ _.
        at-raise_if Moves-IsPreorder (not (is_unreplied n.state)) notification_closed _ s
          λ open_. ack_pending-Moves id actor at operation_id n s found (ground arith)

ack_body-Moves :
    (id actor : String) (at expected : ℕ) (operation_id : String)
    → Respects Moves (ack_body id actor at expected operation_id)
unfolding ack_body
ack_body-Moves id actor at expected operation_id = record {
  at = λ s.
      at-or_raise Moves-IsPreorder notification_not_found
        (find (has_notification id) s.notifications) _ s
        λ n found. ack_row-Moves id actor at expected operation_id n s found;
}

-- ack_notification follows each notification and keeps the routing.
pub ack_notification-Moves :
    (id actor : String) (o : Datetime) (expected : ℕ) (operation_id : String)
    → Respects Moves (ack_notification id actor o expected operation_id)
unfolding ack_notification
ack_notification-Moves id actor o expected operation_id = search (move_rules, ack_body-Moves)
