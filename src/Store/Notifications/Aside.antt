-- ===== src/Store/Notifications/Aside.antt =====
-- Steps of create_notification and ack_notification (src/researchctl/runtime/store.py), for any
-- relation that their two writes respect.
use research_agent_ops.Base.{ℕ, String, subst, sym, Option, none, some, nat_eq, string_eq}
use research_agent_ops.Exec.{skip}
use research_agent_ops.Exec.Respects.{
  IsPreorder, Respects, Respects-bind, Respects-lift, Respects-pure, Respects-or_raise,
  Respects-raise_if, Respects-skip, Respects-if, Respects-gets,
}
use research_agent_ops.Store.Schema.{Store, RuntimeSession, NotificationRow, Datetime}
use research_agent_ops.Store.Transaction.{
  Respects-write_transaction, Respects-read_lock, at-insert_row,
}
use research_agent_ops.Store.Notifications.{
  NotificationInput, new_notification, notification_clashes, add_notification, create_row,
  create_body, check_notification, create_notification, require_operation, is_pending, set_ack,
  ack_pending, ack_row, ack_body, ack_notification, get_notification, read_notification,
}
use research_agent_ops.Store.Notifications.Methods.{require_operation-state}

module _ {R : Store → Store → Type 0} (R-IsPreorder : IsPreorder R) where
  pub require_operation-Respects : (id : String) → Respects R (require_operation id)
  require_operation-Respects id = record {
    at = λ s. subst (R s) (sym (require_operation-state id s)) (R-IsPreorder.same s);
  }

  ruleset step_rules = (
    Respects-bind, Respects-lift, Respects-pure, Respects-raise_if, Respects-gets,
    Respects-or_raise, Respects-skip, Respects-write_transaction, Respects-read_lock, Respects-if,
    require_operation-Respects,
  )

  module _ (adds : (n : NotificationRow) (s : Store) → R s (add_notification n s)) where
    create_row-Respects :
        (x : NotificationInput) (owner : RuntimeSession) (origin_json : String) (at : ℕ)
        (row : Option NotificationRow)
        → Respects R (create_row x owner origin_json at row)
    unfolding create_row
    create_row-Respects x owner origin_json at none = record {
      at = λ s.
          let n = new_notification x owner origin_json at in
          at-insert_row R-IsPreorder (notification_clashes n) (add_notification n) s
            (λ _. adds n s);
    }
    create_row-Respects x owner origin_json at (some existing) = Respects-raise_if R-IsPreorder _ _

    pub create_notification-Respects :
        (x : NotificationInput) (o : Datetime) → Respects R (create_notification x o)
    unfolding create_notification check_notification create_body read_notification get_notification
    create_notification-Respects x o =
        search (step_rules, R-IsPreorder, create_row-Respects) depth 40

  module _
      (acks : (id actor : String) (at : ℕ) (operation_id : String) (s : Store)
        → R s (set_ack id actor at operation_id s)) where
    ack_pending-Respects :
        (id actor : String) (at : ℕ) (operation_id : String) (n : NotificationRow)
        → Respects R (ack_pending id actor at operation_id n)
    unfolding ack_pending
    ack_pending-Respects id actor at operation_id n =
        Respects-if R-IsPreorder (is_pending n.state) _ skip
          (Respects-bind R-IsPreorder _ _ (require_operation-Respects operation_id)
            λ _. record { at = acks id actor at operation_id })
          (Respects-skip R-IsPreorder)

    pub ack_notification-Respects :
        (id actor : String) (o : Datetime) (expected : ℕ) (operation_id : String)
        → Respects R (ack_notification id actor o expected operation_id)
    unfolding ack_notification ack_body ack_row read_notification get_notification
    ack_notification-Respects id actor o expected operation_id =
        search (step_rules, R-IsPreorder, ack_pending-Respects) depth 40
