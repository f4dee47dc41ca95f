-- ===== src/Store/Notifications/Tracking.antt =====
-- A later row of a stored notification (the notification methods of src/researchctl/runtime/store.py).
use research_agent_ops.Base.{
  ℕ, ◌≤◌, String, ◌≡◌, refl, ◌∙◌, Bool, true, false, some, ◌∷◌, string_eq, if◌then◌else◌, find, any,
  update, any-of_find, find-update, if-holds, String-cases, inl, inr, arith,
}
use research_agent_ops.Exec.Respects.{IsPreorder}
use research_agent_ops.Store.Schema.{Store, NotificationRow}
use research_agent_ops.Store.Sessions.{is_unreplied}
use research_agent_ops.Store.Notifications.{has_notification}

-- The columns that no method changes.
abbrev pub content :
    NotificationRow
    → String × String × String × String × String × String × String × String × String × String × ℕ
content n = (
  n.notification_id, n.project_id, n.task_id, n.session_id, n.linear_issue_id, n.source_thread_id,
  n.source_comment_id, n.commit_sha, n.message_text, n.origin_json, n.created_at,
)

-- A later row of the same notification: its content is the same, each change counts in its
-- revision, and a reply is final.
pub record Follows (old new : NotificationRow) : Type 0 where
  pub same_content : content new ≡ content old
  pub monotone : old.revision ≤ new.revision
  pub counted : new.revision ≡ old.revision → new ≡ old
  pub final : is_unreplied old.state ≡ false → new ≡ old

pub record Tracks (s t : Store) : Type 0 where
  pub follows :
      (id : String) (n : NotificationRow)
      → find (has_notification id) s.notifications ≡ some n
      → (n' : NotificationRow) × (find (has_notification id) t.notifications ≡ some n')
        × Follows n n'

pub Follows-refl : (n : NotificationRow) → Follows n n
Follows-refl n = record {
  same_content = refl;
  monotone = omega arith;
  counted = λ h. refl;
  final = λ h. refl;
}

Follows-trans : (a b c : NotificationRow) → Follows a b → Follows b c → Follows a c
Follows-trans a b c h k = record {
  same_content = k.same_content ∙ h.same_content;
  monotone = omega (arith, h.monotone, k.monotone);
  counted = λ e.
      let first : b.revision ≡ a.revision = omega (arith, h.monotone, k.monotone) in
      let second : c.revision ≡ b.revision = omega (arith, h.monotone, k.monotone) in
      k.counted second ∙ h.counted first;
  final = λ e. k.final (rw (h.final e) e) ∙ h.final e;
}

Tracks-refl : (s : Store) → Tracks s s
Tracks-refl s = record { follows = λ id n h. (n, h, Follows-refl n) }

Tracks-trans : (s t u : Store) → Tracks s t → Tracks t u → Tracks s u
Tracks-trans s t u h k = record {
  follows = λ id n e.
      let (n', e', c) = h.follows id n e in
      let (n'', e'', d) = k.follows id n' e' in (n'', e'', Follows-trans n n' n'' c d);
}

pub Tracks-IsPreorder : IsPreorder Tracks
Tracks-IsPreorder = record { same = Tracks-refl; then_ = Tracks-trans }

-- A step that writes no notification.
pub Tracks-same : (s t : Store) → t.notifications ≡ s.notifications → Tracks s t
Tracks-same s t e = record { follows = λ id n h. (n, rw e h, Follows-refl n) }

-- An update whose changes are steps of `Follows`.
pub update-Tracks :
    (p : NotificationRow → Bool) (f : NotificationRow → NotificationRow) (s t : Store)
    → t.notifications ≡ update p f s.notifications
    → ((n : NotificationRow) → (f n).notification_id ≡ n.notification_id)
    → ((id : String) (n : NotificationRow)
        → find (has_notification id) s.notifications ≡ some n
        → p n ≡ true
        → Follows n (f n))
    → Tracks s t
update-Tracks p f s t e same_id step = record {
  follows = λ id n h. (
    if p n then f n else n,
    rw e (find-update (has_notification id) p f s.notifications {x = n} (λ y. rw (same_id y)) h),
    if-holds (Follows n) (p n) (f n) n (λ y. step id n h y) (λ _. Follows-refl n),
  );
}

-- A notification whose ID is new hides no other.
pub add-Tracks :
    (n : NotificationRow) (s t : Store)
    → t.notifications ≡ n ∷ s.notifications
    → any (has_notification n.notification_id) s.notifications ≡ false
    → Tracks s t
add-Tracks n s t e new = record {
  follows = λ id old h. (
    old,
    rw e (elim (String-cases n.notification_id id) [
      | inl same ↦ cc (rw same at new, any-of_find (has_notification id) s.notifications h)
      | inr other ↦ rw other h
    ]),
    Follows-refl old,
  );
}
