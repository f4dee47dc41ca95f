-- ===== src/Store/Replies/Published.antt =====
-- The relation of a stored reply to its notification and to the outbox (`reply_notification` of
-- src/researchctl/runtime/store.py).
use research_agent_ops.Base.{
  ℕ, String, ◌≡◌, refl, sym, ◌∙◌, subst, ap, Bool, true, false, not, Option, none, some, ◌==◌,
  nat_eq, string_eq, find, any, All, All-map, find-update_self, find-update_other, String-cases,
  Bool-cases, inl, inr, eq_iff, arith,
}
use research_agent_ops.Errors.{
  Code, ok, notification_not_found, stale_notification, notification_closed,
}
use research_agent_ops.Exec.{Exec, or_raise, lift, ◌>>◌, ◌>>=◌}
use research_agent_ops.Exec.Inversion.{bind-ok, bind-ok_reads, raise_if-ok}
use research_agent_ops.Exec.Respects.{
  Respects, Keep, Keep-IsPreorder, Respects-bind, Respects-lift, Respects-pure, Respects-or_raise,
}
use research_agent_ops.Store.Schema.{Store, NotificationRow, ReplyRow, JsonText, Datetime}
use research_agent_ops.Store.Checks.{json_object}
use research_agent_ops.Store.Transaction.{
  insert_row, write_transaction, Respects-read_lock, Keeps-write_transaction,
}
use research_agent_ops.Store.Sessions.{is_unreplied}
use research_agent_ops.Store.Notifications.{
  has_notification, has_outbox, get_notification, require_operation,
}
use research_agent_ops.Store.Notifications.Methods.{require_operation-state}
use research_agent_ops.Store.Leaves.{LeavesReplies}
use research_agent_ops.Store.Notifications.Tracking.{Tracks}
use research_agent_ops.Store.Replies.{
  ReplyInput, closed_by, set_replied, reply_row, reply_clashes, add_reply, reply_outbox_row,
  reply_outbox_clashes, add_reply_outbox, new_status, status_clashes, add_status, reply_topic,
  reply_outbox_id, same_reply, reply_payload, write_reply, published_reply, reply_new, reply_row_of,
  reply_body, check_reply, reply_notification,
}

pub record IsPublished (s : Store) (r : ReplyRow) : Type 0 where
  pub notification : NotificationRow
  pub found : find (has_notification r.notification_id) s.notifications ≡ some notification
  pub closed : is_unreplied notification.state ≡ false
  pub bound : notification.reply_id ≡ some r.reply_id
  pub queued : any (has_outbox (reply_outbox_id r.reply_id)) s.reply_outbox ≡ true

pub record AllPublished (s : Store) : Type 0 where
  pub each : All (IsPublished s) s.replies

-- The store behind the four writes of a reply.
abbrev written : ReplyInput → NotificationRow → JsonText → String → ℕ → Store → Store
written x n payload digest at s =
    add_status (new_status reply_topic (reply_outbox_id x.reply_id) n.project_id at) (
      add_reply_outbox (reply_outbox_row x n payload at)
        (set_replied x at (add_reply (reply_row x n payload digest at) s)))

module _ (x : ReplyInput) (n : NotificationRow) (payload : JsonText) (digest : String) (at : ℕ)
    (s : Store) (found : find (has_notification x.notification_id) s.notifications ≡ some n)
    (open_ : is_unreplied n.state ≡ true) where
  new-IsPublished : IsPublished (written x n payload digest at s) (reply_row x n payload digest at)
  new-IsPublished = record {
    notification = closed_by x at n;
    found =
        find-update_self (has_notification x.notification_id) (closed_by x at) s.notifications
          {x = n} (λ y h. h) found;
    closed = refl;
    bound = refl;
    queued = rw ((eq_iff (reply_outbox_id x.reply_id) (reply_outbox_id x.reply_id)).1 refl) refl;
  }

  -- An earlier reply is of another notification: its own is closed.
  old-IsPublished :
      (r : ReplyRow) → IsPublished s r → IsPublished (written x n payload digest at s) r
  old-IsPublished r p = elim (String-cases r.notification_id x.notification_id) [
    | inl same ↦
        let found' : find (has_notification x.notification_id) s.notifications
            ≡ some p.notification =
          subst (λ i. find (has_notification i) s.notifications ≡ some p.notification) same
            p.found in
        absurd (cc (found, found', open_, p.closed))
    | inr other ↦ record {
      notification = p.notification;
      found =
          find-update_other (has_notification r.notification_id)
            (has_notification x.notification_id) (closed_by x at) s.notifications
            (λ y h.
              let apart : (y.notification_id == r.notification_id) ≡ false = ground (
                arith,
                eq_iff y.notification_id x.notification_id,
                eq_iff y.notification_id r.notification_id,
                eq_iff r.notification_id x.notification_id,
              ) in
              (apart, apart))
          ∙ p.found;
      closed = p.closed;
      bound = p.bound;
      queued = ground (arith, p.queued);
    }
  ]

  written-AllPublished : AllPublished s → AllPublished (written x n payload digest at s)
  written-AllPublished h = record {
    each = (new-IsPublished, All-map old-IsPublished s.replies h.each);
  }

insert_row-ok :
    {B : Type 0} (clashes : Store → Bool) (add : Store → Store) (k : Exec Store B) (s : Store)
    {b : B} {t : Store}
    → (insert_row clashes add >> k) s ≡ (ok b, t)
    → k (add s) ≡ (ok b, t)
unfolding insert_row
insert_row-ok clashes add k s h = elim (Bool-cases (clashes s)) [
  | inl e ↦ absurd (ground arith)
  | inr e ↦ ground arith
]

insert_row-last :
    (clashes : Store → Bool) (add : Store → Store) (s : Store) {v : Unit {0}} {t : Store}
    → insert_row clashes add s ≡ (ok v, t)
    → add s ≡ t
unfolding insert_row
insert_row-last clashes add s h = ground arith

write_reply-ok :
    (x : ReplyInput) (n : NotificationRow) (payload : JsonText) (digest : String) (at : ℕ)
    (s : Store) {v : Unit {0}} {t : Store}
    → write_reply x n payload digest at s ≡ (ok v, t)
    → written x n payload digest at s ≡ t
unfolding write_reply
write_reply-ok x n payload digest at s h =
    let r = reply_row x n payload digest at in
    let o = reply_outbox_row x n payload at in
    let d = new_status reply_topic (reply_outbox_id x.reply_id) n.project_id at in
    insert_row-last (status_clashes d) (add_status d) _ (
      insert_row-ok (reply_outbox_clashes o) (add_reply_outbox o)
        (insert_row (status_clashes d) (add_status d)) (set_replied x at (add_reply r s))
        (insert_row-ok (reply_clashes r) (add_reply r) _ s h))

or_raise-ok :
    {A B : Type 0} (c : Code) (o : Option A) (f : A → Exec Store B) (s : Store) {b : B} {t : Store}
    → (or_raise c o >>= f) s ≡ (ok b, t)
    → (a : A) × (o ≡ some a) × (f a s ≡ (ok b, t))
or_raise-ok c none f s h = cc (ap (λ r. r.0) h)
or_raise-ok c (some a) f s h = (a, refl, h)

-- A step that leaves the replies, and follows each notification, leaves them published: a
-- notification that is closed stays as it is.
pub leaves-AllPublished :
    (s t : Store) → Tracks s t → LeavesReplies s t → AllPublished s → AllPublished t
leaves-AllPublished s t tracks leaves h = record {
  each = subst (All (IsPublished t)) (sym leaves.same_replies) (
      All-map
        (λ r p.
          let (n', found', c) = tracks.follows r.notification_id p.notification p.found in
          let same : n' ≡ p.notification = c.final p.closed in
          record {
            notification = p.notification;
            found = found' ∙ ap some same;
            closed = p.closed;
            bound = p.bound;
            queued = rw leaves.same_outbox p.queued;
          })
        s.replies h.each);
}

module _ (sha256 : String → String) (format_time : ℕ → String) where
  reply_new-ok :
      (x : ReplyInput) (at : ℕ) (n : NotificationRow) (s : Store) {v : Unit {0}} {t : Store}
      → find (has_notification x.notification_id) s.notifications ≡ some n
      → reply_new sha256 format_time x at n s ≡ (ok v, t)
      → AllPublished s
      → AllPublished t
  unfolding reply_new
  reply_new-ok x at n s {v} {t} found h a =
      let (_, h1) =
        raise_if-ok (not (n.revision == x.expected_revision)) stale_notification _ s h in
      let (open_, h2) = raise_if-ok (not (is_unreplied n.state)) notification_closed _ s h1 in
      let (_, _, h3) =
        bind-ok_reads (require_operation x.operation_id) _ s
          (require_operation-state x.operation_id s) h2 in
      let (payload, _, h4) =
        bind-ok (lift (json_object (reply_payload x n (format_time at)))) _ s h3 in
      subst AllPublished (write_reply-ok x n payload _ at s h4)
        (written-AllPublished x n payload _ at s found (ground arith) a)

  reply_row_of-ok :
      (x : ReplyInput) (at : ℕ) (n : NotificationRow) (known : Option ReplyRow) (s : Store)
      {v : Unit {0}} {t : Store}
      → find (has_notification x.notification_id) s.notifications ≡ some n
      → reply_row_of sha256 format_time x at n known s ≡ (ok v, t)
      → AllPublished s
      → AllPublished t
  unfolding reply_row_of
  reply_row_of-ok x at n none s found h a = reply_new-ok x at n s found h a
  reply_row_of-ok x at n (some known) s {v} {t} found h a =
      let same : s ≡ t = elim (Bool-cases (not (same_reply x known))) [
        | inl e ↦ absurd (ground arith)
        | inr e ↦ ground arith
      ] in
      subst AllPublished same a

  reply_body-ok :
      (x : ReplyInput) (at : ℕ) (s : Store) (v : Unit {0}) (t : Store)
      → AllPublished s
      → reply_body sha256 format_time x at s ≡ (ok v, t)
      → AllPublished t
  unfolding reply_body
  reply_body-ok x at s v t a h =
      let (n, found, h1) =
        or_raise-ok notification_not_found
          (find (has_notification x.notification_id) s.notifications) _ s h in
      reply_row_of-ok x at n _ s found h1 a

  ruleset keep_rules = (
    Keep-IsPreorder, Respects-bind, Respects-lift, Respects-pure, Respects-or_raise,
    Respects-read_lock,
  )

  check_reply-keeps :
      (x : ReplyInput) (o : Datetime) → Respects (Keep AllPublished) (check_reply x o)
  unfolding check_reply
  check_reply-keeps x o = search keep_rules depth 20

  published_reply-keeps : (id : String) → Respects (Keep AllPublished) (published_reply id)
  unfolding published_reply get_notification
  published_reply-keeps id = search keep_rules depth 30

  -- If each stored reply has its notification closed with its ID and its event in the outbox, then
  -- this holds behind reply_notification, whatever its arguments, and whether it returns or raises.
  pub replies_stay_published :
      (x : ReplyInput) (o : Datetime) (s : Store)
      → AllPublished s
      → AllPublished (reply_notification sha256 format_time x o s).1
  unfolding reply_notification
  replies_stay_published x o =
      (Respects-bind (Keep-IsPreorder AllPublished) (check_reply x o) _ (check_reply-keeps x o)
        λ at.
          Respects-bind (Keep-IsPreorder AllPublished)
            (write_transaction (reply_body sha256 format_time x at)) _
            (Keeps-write_transaction AllPublished (reply_body sha256 format_time x at)
              (reply_body-ok x at))
            λ _. published_reply-keeps x.reply_id).at
