-- ===== src/Store/Ingress/Origin.antt =====
-- The check of a notification's origin (`require_verified_notification_origin` of
-- src/researchctl/runtime/store.py).
use research_agent_ops.Base.{
  String, ◌≡◌, ◌↔◌, Bool, true, false, ◌||◌, List, [], ◌∷◌, Option, none, some, find, any,
  any-of_find, find-holds, ◌==◌, string_eq, eq_iff, arith, Bool-cases, inl, inr, any-or_right,
  any-or_left, subst,
}
use research_agent_ops.Errors.{ok}
use research_agent_ops.Exec.Respects.{
  IsPreorder, Respects, Respects-bind, Respects-lift, Respects-pure, Respects-or_raise,
  Respects-raise_if, Respects-gets,
}
use research_agent_ops.Store.Schema.{Store, IngressRow, Datetime}
use research_agent_ops.Store.Transaction.{
  insert_row, at-insert_row, read_lock, Respects-read_lock, Respects-write_transaction,
}
use research_agent_ops.Store.Ingress.{
  IngressInput, OriginAddress, is_at, names_comment, names_event, ingress_clashes, add_ingress,
  check_ingress, bind_comment, ingress_body, record_unless_known, record_verified_linear_ingress,
  require_verified_notification_origin,
}

-- UNIQUE (provider, workspace_id, comment_id)
abbrev pub CommentsOnce : List IngressRow → Type 0
CommentsOnce [] = Unit
CommentsOnce (r ∷ rows) =
    (any (names_comment r.workspace_id r.comment_id) rows ≡ false) × CommentsOnce rows

pub origin-ok :
    (a : OriginAddress) (s : Store) {r : IngressRow} {t : Store}
    → require_verified_notification_origin a s ≡ (ok r, t)
    → (s.closed ≡ false) × (t ≡ s) × (find (is_at a) s.ingress_receipts ≡ some r)
unfolding require_verified_notification_origin read_lock
origin-ok a s h = ground arith

origin_returns :
    (a : OriginAddress) (s : Store) (r : IngressRow)
    → s.closed ≡ false
    → find (is_at a) s.ingress_receipts ≡ some r
    → require_verified_notification_origin a s ≡ (ok r, s)
unfolding require_verified_notification_origin read_lock
origin_returns a s r opened found = ground arith

module _ (a : OriginAddress) where
  names : IngressRow → Bool
  names = names_comment a.workspace_id a.comment_id

  names-of_at : (r : IngressRow) → is_at a r ≡ true → names r ≡ true
  unfolding names
  names-of_at r h = ground arith

  -- Another row of the same comment.
  not_again :
      (q r : IngressRow) (rows : List IngressRow)
      → any (names_comment q.workspace_id q.comment_id) rows ≡ false
      → find names rows ≡ some r
      → names q ≡ false
  unfolding names
  not_again q r rows once found = elim (Bool-cases (names q)) [
    | inl same ↦
        let w : q.workspace_id ≡ a.workspace_id =
          (eq_iff q.workspace_id a.workspace_id).0 (ground arith) in
        let c : q.comment_id ≡ a.comment_id = (eq_iff q.comment_id a.comment_id).0 (ground arith) in
        let absent : any names rows ≡ false =
          subst (λ v. any (names_comment v a.comment_id) rows ≡ false) w
            (subst (λ v. any (names_comment q.workspace_id v) rows ≡ false) c once) in
        absurd (ground (arith, any-of_find names rows {x = r}))
    | inr other ↦ other
  ]

  found_of_at :
      (rows : List IngressRow) (r : IngressRow)
      → CommentsOnce rows
      → find (is_at a) rows ≡ some r
      → find names rows ≡ some r
  found_of_at [] r once h = h
  found_of_at (q ∷ rows) r once h = elim (Bool-cases (is_at a q)) [
    | inl e ↦ ground (arith, names-of_at q)
    | inr e ↦
        let there = found_of_at rows r once.1 (ground arith) in
        rw (not_again q r rows once.0 there) there
  ]

  at_of_found :
      (rows : List IngressRow) (r : IngressRow)
      → find names rows ≡ some r
      → is_at a r ≡ true
      → find (is_at a) rows ≡ some r
  at_of_found [] r h k = h
  at_of_found (q ∷ rows) r h k = ground (arith, names-of_at q, at_of_found rows r)

fields_of_at :
    (a : OriginAddress) (r : IngressRow)
    → is_at a r ≡ true
    → (r.project_id ≡ a.project_id)
      × (r.issue_id ≡ a.issue_id)
      × (r.thread_id ≡ a.thread_id)
      × (r.task_id ≡ a.task_id)
fields_of_at a r h = ground (
  arith,
  eq_iff r.project_id a.project_id,
  eq_iff r.issue_id a.issue_id,
  eq_iff r.thread_id a.thread_id,
  eq_iff r.task_id a.task_id,
)

at_of_fields :
    (a : OriginAddress) (r : IngressRow)
    → names a r ≡ true
    → r.project_id ≡ a.project_id
    → r.issue_id ≡ a.issue_id
    → r.thread_id ≡ a.thread_id
    → r.task_id ≡ a.task_id
    → is_at a r ≡ true
unfolding names
at_of_fields a r named p i t k = ground (
  arith,
  eq_iff r.project_id a.project_id,
  eq_iff r.issue_id a.issue_id,
  eq_iff r.thread_id a.thread_id,
  eq_iff r.task_id a.task_id,
)

-- On an open store with at most one receipt for each comment, the check of an origin returns a
-- receipt, and leaves the store as it is, exactly if that is the receipt of the comment and it
-- names the same project, issue, thread and Task.
pub verifies_iff :
    (a : OriginAddress) (s : Store) (r : IngressRow)
    → s.closed ≡ false
    → CommentsOnce s.ingress_receipts
    → (require_verified_notification_origin a s ≡ (ok r, s)) ↔ (
        (find (names_comment a.workspace_id a.comment_id) s.ingress_receipts ≡ some r)
        × (r.project_id ≡ a.project_id)
        × (r.issue_id ≡ a.issue_id)
        × (r.thread_id ≡ a.thread_id)
        × (r.task_id ≡ a.task_id))
unfolding names
verifies_iff a s r opened once = (
  λ h.
      let (_, _, found) = origin-ok a s h in
      let fields = fields_of_at a r (find-holds (is_at a) s.ingress_receipts found) in
      (found_of_at a s.ingress_receipts r once found, fields.0, fields.1, fields.2, fields.3),
  λ h. origin_returns a s r opened (
      at_of_found a s.ingress_receipts r h.0
        (at_of_fields a r (find-holds (names a) s.ingress_receipts h.0) h.1 h.2 h.3 h.4)),
)

-- A comment keeps its receipt, and none gets a second one.
pub record KeepsReceipts (s t : Store) : Type 0 where
  pub stays :
      (workspace_id comment_id : String) (r : IngressRow)
      → find (names_comment workspace_id comment_id) s.ingress_receipts ≡ some r
      → find (names_comment workspace_id comment_id) t.ingress_receipts ≡ some r
  pub once : CommentsOnce s.ingress_receipts → CommentsOnce t.ingress_receipts

KeepsReceipts-IsPreorder : IsPreorder KeepsReceipts
KeepsReceipts-IsPreorder = record {
  same = λ s. record { stays = λ w c r h. h; once = λ h. h };
  then_ = λ s t u h k. record {
    stays = λ w c r e. k.stays w c r (h.stays w c r e);
    once = λ o. k.once (h.once o);
  };
}

comment_is_new :
    (r : IngressRow) (s : Store)
    → ingress_clashes r s ≡ false
    → any (names_comment r.workspace_id r.comment_id) s.ingress_receipts ≡ false
comment_is_new r s clear =
    any-or_left (names_comment r.workspace_id r.comment_id)
      (names_event r.workspace_id r.webhook_event_id) s.ingress_receipts
      (any-or_right (λ (q : IngressRow). q.receipt_id == r.receipt_id)
        (λ (q : IngressRow).
          names_comment r.workspace_id r.comment_id q
          || names_event r.workspace_id r.webhook_event_id q)
        s.ingress_receipts clear)

found_beside :
    (new : IngressRow) (rows : List IngressRow) (w c : String) (r : IngressRow)
    → any (names_comment new.workspace_id new.comment_id) rows ≡ false
    → find (names_comment w c) rows ≡ some r
    → find (names_comment w c) (new ∷ rows) ≡ some r
unfolding names
found_beside new rows w c r absent found =
    let a : OriginAddress = record {
      project_id = "";
      workspace_id = w;
      issue_id = "";
      thread_id = "";
      comment_id = c;
      task_id = "";
    } in
    let other : names_comment w c new ≡ false = not_again a new r rows absent found in
    rw other found

insert_ingress-KeepsReceipts :
    (r : IngressRow) → Respects KeepsReceipts (insert_row (ingress_clashes r) (add_ingress r))
insert_ingress-KeepsReceipts r = record {
  at = λ s. at-insert_row KeepsReceipts-IsPreorder (ingress_clashes r) (add_ingress r) s λ clear.
      record {
        stays = λ w c q h. found_beside r s.ingress_receipts w c q (comment_is_new r s clear) h;
        once = λ o. (comment_is_new r s clear, o);
      };
}

bind_comment-KeepsReceipts :
    (new : IngressRow) (row : Option IngressRow) → Respects KeepsReceipts (bind_comment new row)
unfolding bind_comment
bind_comment-KeepsReceipts new (some r) =
    search (KeepsReceipts-IsPreorder, Respects-bind, Respects-raise_if, Respects-pure)
bind_comment-KeepsReceipts new none =
    Respects-bind KeepsReceipts-IsPreorder _ _ (insert_ingress-KeepsReceipts new)
      (λ _. Respects-pure KeepsReceipts-IsPreorder new.receipt_id)

ruleset ingress_rules = (
  KeepsReceipts-IsPreorder, Respects-bind, Respects-lift, Respects-pure, Respects-or_raise,
  Respects-raise_if, Respects-gets, Respects-read_lock, Respects-write_transaction,
  bind_comment-KeepsReceipts,
)

ingress_body-KeepsReceipts : (new : IngressRow) → Respects KeepsReceipts (ingress_body new)
unfolding ingress_body
ingress_body-KeepsReceipts new = search ingress_rules depth 30

check_ingress-KeepsReceipts : (x : IngressInput) → Respects KeepsReceipts (check_ingress x)
unfolding check_ingress
check_ingress-KeepsReceipts x = search ingress_rules depth 80

require_origin-KeepsReceipts :
    (a : OriginAddress) → Respects KeepsReceipts (require_verified_notification_origin a)
unfolding require_verified_notification_origin
require_origin-KeepsReceipts a = search ingress_rules depth 30

module _ (sha256 : String → String) where
  record_unless_known-KeepsReceipts :
      (x : IngressInput) (o : Datetime) (row : Option IngressRow)
      → Respects KeepsReceipts (record_unless_known sha256 x o row)
  unfolding record_unless_known
  record_unless_known-KeepsReceipts x o (some r) = search ingress_rules depth 30
  record_unless_known-KeepsReceipts x o none =
      search (ingress_rules, ingress_body-KeepsReceipts, require_origin-KeepsReceipts) depth 60

  -- Whatever record_verified_linear_ingress is called with, returning or raising, the receipt of
  -- each comment stays as it is, and if no comment had two receipts, none has.
  pub receipts_stay :
      (x : IngressInput) (o : Datetime) (s : Store)
      → KeepsReceipts s (record_verified_linear_ingress sha256 x o s).1
  unfolding record_verified_linear_ingress
  receipts_stay x o =
      (Respects-bind KeepsReceipts-IsPreorder (check_ingress x) _ (check_ingress-KeepsReceipts x)
        λ _.
          Respects-bind KeepsReceipts-IsPreorder _ _ (Respects-read_lock KeepsReceipts-IsPreorder _)
            λ row. record_unless_known-KeepsReceipts x o row).at
