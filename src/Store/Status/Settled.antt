-- ===== src/Store/Status/Settled.antt =====
-- The steps of `publish_status_update` of src/researchctl/runtime/store.py at a store where they
-- have run.
use research_agent_ops.Base.{
  String, ◌≡◌, refl, Bool, true, false, not, ◌||◌, sym, subst, Option, none, some, find,
  find-update_self, ◌==◌, string_eq, eq_iff, arith, Bool-cases, inl, inr,
}
use research_agent_ops.Errors.{
  ok, Result, status_session_not_found, status_session_mismatch, status_update_conflict,
}
use research_agent_ops.Exec.Inversion.{or_raise-ok, raise_if-ok_last}
use research_agent_ops.Store.Schema.{
  Store, StatusUpdate, StatusRow, OutboxRow, RuntimeSession, AttentionRow,
}
use research_agent_ops.Store.Transaction.{insert_row-ok}
use research_agent_ops.Store.Sessions.{has_session}
use research_agent_ops.Store.Attention.{
  has_update, has_key, Signal, upsert_row, upsert_attention, is_outdated, refreshed, new_item,
  set_item, item_clashes, add_item,
}
use research_agent_ops.Store.Status.{
  enqueue_event, insert_event_unless, event_dangles, add_outbox_event, update_clashes, add_update,
  event_known, store_update, same_update, check_status_session,
}

-- What a run that has returned leaves for the update, in the order of the steps.
pub record HasSession (project_id : String) (u : StatusUpdate) (s : Store) : Type 0 where
  pub session : RuntimeSession
  pub found : find (has_session u.session_id) s.sessions ≡ some session
  pub same_project : session.project_id ≡ project_id
  pub same_task : session.task_id ≡ u.task_id

pub record HasUpdate (new : StatusRow) (s : Store) : Type 0 where
  pub row : StatusRow
  pub found : find (has_update new.update_id) s.status_updates ≡ some row
  pub same : same_update new row ≡ true

pub record HasItem (g : Signal) (s : Store) : Type 0 where
  pub item : AttentionRow
  pub found : find (has_key g.dedupe_key) s.attention_items ≡ some item
  pub seen : is_outdated g item ≡ true

pub check_status_session-HasSession :
    (project_id : String) (u : StatusUpdate) (s : Store) {a : Unit {0}} {t : Store}
    → check_status_session project_id u s ≡ (ok a, t)
    → (t ≡ s) × HasSession project_id u s
unfolding check_status_session
check_status_session-HasSession project_id u s h =
    let (session, found, checked) =
      or_raise-ok status_session_not_found (find (has_session u.session_id) s.sessions) _ s h in
    let (same, stays) =
      raise_if-ok_last
        (not (session.project_id == project_id) || not (session.task_id == u.task_id))
        status_session_mismatch s checked in
    (
      stays,
      record {
        session = session;
        found = found;
        same_project = ground (arith, eq_iff session.project_id project_id);
        same_task = ground (arith, eq_iff session.task_id u.task_id);
      },
    )

pub store_update-HasUpdate :
    (new : StatusRow) (row : Option StatusRow) (s : Store) {a : Unit {0}} {t : Store}
    → find (has_update new.update_id) s.status_updates ≡ row
    → store_update new row s ≡ (ok a, t)
    → HasUpdate new t × (t.sessions ≡ s.sessions)
unfolding store_update
store_update-HasUpdate new none s found h =
    let (clear, added) = insert_row-ok (update_clashes new) (add_update new) s h in
    subst (λ t. HasUpdate new t × (t.sessions ≡ s.sessions)) (sym added)
      (
        record {
          row = new;
          found = ground (arith, eq_iff new.update_id new.update_id);
          same = ground (
            arith,
            eq_iff new.project_id new.project_id,
            eq_iff new.payload_digest new.payload_digest,
            eq_iff new.payload_json new.payload_json,
          );
        },
        refl,
      )
store_update-HasUpdate new (some r) s found h =
    let (same, stays) = raise_if-ok_last (not (same_update new r)) status_update_conflict s h in
    subst (λ t. HasUpdate new t × (t.sessions ≡ s.sessions)) (sym stays)
      (record { row = r; found = found; same = ground arith }, refl)

insert_event_unless-known :
    (o : OutboxRow) (known : Bool) (s : Store) {a : Unit {0}} {t : Store}
    → event_known o s ≡ known
    → insert_event_unless o known s ≡ (ok a, t)
    → (event_known o t ≡ true) × (t.sessions ≡ s.sessions) × (t.status_updates ≡ s.status_updates)
unfolding insert_event_unless
insert_event_unless-known o true s {a} {t} e h =
    subst
      (λ v.
        (event_known o v ≡ true)
        × (v.sessions ≡ s.sessions)
        × (v.status_updates ≡ s.status_updates))
      (λ i. (h i).1) (e, refl, refl)
insert_event_unless-known o false s e h =
    let (_, added) = insert_row-ok (event_dangles o) (add_outbox_event o) s h in
    subst
      (λ v.
        (event_known o v ≡ true)
        × (v.sessions ≡ s.sessions)
        × (v.status_updates ≡ s.status_updates))
      (sym added) (ground (arith, eq_iff o.outbox_id o.outbox_id), refl, refl)

pub enqueue_event-known :
    (o : OutboxRow) (s : Store) {a : Unit {0}} {t : Store}
    → enqueue_event o s ≡ (ok a, t)
    → (event_known o t ≡ true) × (t.sessions ≡ s.sessions) × (t.status_updates ≡ s.status_updates)
unfolding enqueue_event
enqueue_event-known o s h = insert_event_unless-known o (event_known o s) s refl h

-- The other tables are as they were.
pub record LeavesUpdates (s t : Store) : Type 0 where
  pub same_sessions : t.sessions ≡ s.sessions
  pub same_updates : t.status_updates ≡ s.status_updates
  pub same_events : t.outbox_events ≡ s.outbox_events

new_item-seen : (g : Signal) → is_outdated g (new_item g) ≡ true
new_item-seen g = ground (arith, eq_iff g.update_id g.update_id)

refreshed-key : (g : Signal) (r x : AttentionRow) → (refreshed g r x).dedupe_key ≡ x.dedupe_key
refreshed-key g r x = ground arith

refreshed-seen : (g : Signal) (r : AttentionRow) → is_outdated g (refreshed g r r) ≡ true
refreshed-seen g r = ground (arith, eq_iff g.update_id g.update_id)

upsert_row-HasItem :
    (g : Signal) (row : Option AttentionRow) (s : Store) {a : Unit {0}} {t : Store}
    → find (has_key g.dedupe_key) s.attention_items ≡ row
    → upsert_row g row s ≡ (ok a, t)
    → HasItem g t × LeavesUpdates s t
unfolding upsert_row
upsert_row-HasItem g none s found h =
    let (_, added) = insert_row-ok (item_clashes (new_item g)) (add_item (new_item g)) s h in
    subst (λ v. HasItem g v × LeavesUpdates s v) (sym added)
      (
        record {
          item = new_item g;
          found = ground (arith, eq_iff g.dedupe_key g.dedupe_key);
          seen = new_item-seen g;
        },
        record { same_sessions = refl; same_updates = refl; same_events = refl },
      )
upsert_row-HasItem g (some r) s {a} {t} found h = elim (Bool-cases (is_outdated g r)) [
  | inl e ↦
      let stays : ◌≡◌ {A = Result (Unit {0}) × Store} (ok tt, s) (ok a, t) = rw e at h in
      subst (λ v. HasItem g v × LeavesUpdates s v) (λ i. (stays i).1)
        (
          record { item = r; found = found; seen = e },
          record { same_sessions = refl; same_updates = refl; same_events = refl },
        )
  | inr e ↦
      let s' = set_item g.dedupe_key (refreshed g r) s in
      let wrote : ◌≡◌ {A = Result (Unit {0}) × Store} (ok tt, s') (ok a, t) = rw e at h in
      subst (λ v. HasItem g v × LeavesUpdates s v) (λ i. (wrote i).1)
        (
          record {
            item = refreshed g r r;
            found =
                find-update_self (has_key g.dedupe_key) (refreshed g r) s.attention_items {x = r}
                  (λ y k. rw (refreshed-key g r y) k) found;
            seen = refreshed-seen g r;
          },
          record { same_sessions = refl; same_updates = refl; same_events = refl },
        )
]

pub upsert_attention-HasItem :
    (g : Signal) (s : Store) {a : Unit {0}} {t : Store}
    → upsert_attention g s ≡ (ok a, t)
    → HasItem g t × LeavesUpdates s t
unfolding upsert_attention
upsert_attention-HasItem g s h = upsert_row-HasItem g _ s refl h

-- What a transaction that has returned leaves: each step has nothing left to do.
pub record IsPublished (project_id : String) (u : StatusUpdate) (new : StatusRow) (o : OutboxRow)
    (g : Signal) (s : Store) : Type 0 where
  pub session : HasSession project_id u s
  pub update : HasUpdate new s
  pub event : event_known o s ≡ true
  pub item : HasItem g s

pub check_again :
    (project_id : String) (u : StatusUpdate) (t : Store)
    → HasSession project_id u t
    → check_status_session project_id u t ≡ (ok tt, t)
unfolding check_status_session
check_again project_id u t h =
    rw
      (
        h.found,
        h.same_project,
        h.same_task,
        (eq_iff project_id project_id).1 refl,
        (eq_iff u.task_id u.task_id).1 refl,
      )
      refl

pub store_again :
    (new : StatusRow) (t : Store)
    → HasUpdate new t
    → store_update new (find (has_update new.update_id) t.status_updates) t ≡ (ok tt, t)
unfolding store_update
store_again new t h = rw (h.found, h.same) refl

pub enqueue_again :
    (o : OutboxRow) (t : Store) → event_known o t ≡ true → enqueue_event o t ≡ (ok tt, t)
unfolding enqueue_event insert_event_unless
enqueue_again o t known = rw known refl

pub upsert_again : (g : Signal) (t : Store) → HasItem g t → upsert_attention g t ≡ (ok tt, t)
unfolding upsert_attention upsert_row
upsert_again g t h = rw (h.found, h.seen) refl

pub carry_session :
    (project_id : String) (u : StatusUpdate) (s t : Store)
    → t.sessions ≡ s.sessions
    → HasSession project_id u s
    → HasSession project_id u t
carry_session project_id u s t e h = record {
  session = h.session;
  found = rw e h.found;
  same_project = h.same_project;
  same_task = h.same_task;
}

pub carry_update :
    (new : StatusRow) (s t : Store)
    → t.status_updates ≡ s.status_updates
    → HasUpdate new s
    → HasUpdate new t
carry_update new s t e h = record { row = h.row; found = rw e h.found; same = h.same }
