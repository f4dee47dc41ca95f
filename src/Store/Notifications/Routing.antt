-- ===== src/Store/Notifications/Routing.antt =====
-- Which Session a notification waits for (`save_session` and the notification methods of
-- src/researchctl/runtime/store.py).
use research_agent_ops.Base.{
  IsKeyed, update-IsKeyed, update-All_keyed, ℕ, String, ◌≡◌, refl, ◌∙◌, subst, true, false, ◌&&◌,
  not, some, List, ◌==◌, string_eq, find, any, update, String-cases, Bool-cases, inl, inr, eq_iff,
  arith, All, All-map, find-update_self, find-update_other, update-All_split,
}
use research_agent_ops.Store.Schema.{Store, RuntimeSession, NotificationRow}
use research_agent_ops.Store.Sessions.{
  has_session, has_ended, is_unreplied, is_session_route, awaits_session, rerouted, reroute,
  observed, set_session, session_state_eq,
}
use research_agent_ops.Store.Sessions.Evolution.{has_session-exclusive}
use research_agent_ops.Exec.Respects.{IsPreorder}
use research_agent_ops.Store.Notifications.Tracking.{
  Follows, Tracks, Tracks-IsPreorder, Tracks-same, update-Tracks,
}
use research_agent_ops.Store.Notifications.{
  has_notification, add_notification, new_notification, NotificationInput, with_ack,
}

-- Some Session has the notification's identity; if the notification is open and routed to it, it
-- has neither stopped nor been lost.
pub record IsRouted (rows : List RuntimeSession) (n : NotificationRow) : Type 0 where
  pub owner : RuntimeSession
  pub found : find (has_session n.session_id) rows ≡ some owner
  pub same_project : owner.project_id ≡ n.project_id
  pub same_task : owner.task_id ≡ n.task_id
  pub live :
      (is_session_route n.route && is_unreplied n.state) ≡ true → has_ended owner.state ≡ false

-- The primary key.
abbrev pub notification_key : NotificationRow → String
notification_key n = n.notification_id

pub record RoutesWell (s : Store) : Type 0 where
  pub keyed : IsKeyed notification_key s.notifications
  pub each : All (IsRouted s.sessions) s.notifications

-- A notification enters under the route that its Session's state gives it.
pub new_notification-IsRouted :
    (x : NotificationInput) (owner : RuntimeSession) (origin_json : String) (at : ℕ) (s : Store)
    → find (has_session x.session_id) s.sessions ≡ some owner
    → not (owner.project_id == x.project_id && owner.task_id == x.task_id) ≡ false
    → IsRouted s.sessions (new_notification x owner origin_json at)
new_notification-IsRouted x owner origin_json at s found same = record {
  owner = owner;
  found = found;
  same_project = ground (arith, eq_iff owner.project_id x.project_id);
  same_task = ground (arith, eq_iff owner.task_id x.task_id);
  live = λ h. ground arith;
}

pub add_notification-RoutesWell :
    (n : NotificationRow) (s : Store)
    → RoutesWell s
    → any (has_notification n.notification_id) s.notifications ≡ false
    → IsRouted s.sessions n
    → RoutesWell (add_notification n s)
add_notification-RoutesWell n s h new r = record { keyed = (new, h.keyed); each = (r, h.each) }

-- A change of one notification that neither moves it nor opens it again.
pub update-RoutesWell :
    (id : String) (f : NotificationRow → NotificationRow) (s : Store) (n : NotificationRow)
    → ((m : NotificationRow) → (f m).notification_id ≡ m.notification_id)
    → find (has_notification id) s.notifications ≡ some n
    → (IsRouted s.sessions n → IsRouted s.sessions (f n))
    → RoutesWell s
    → RoutesWell (record s { notifications = update (has_notification id) f s.notifications })
update-RoutesWell id f s n same_id found step h = record {
  keyed = update-IsKeyed notification_key (has_notification id) f same_id s.notifications h.keyed;
  each =
      update-All_keyed notification_key (IsRouted s.sessions) id f s.notifications {x = n} h.keyed
        found step h.each;
}

pub with_ack-IsRouted :
    (rows : List RuntimeSession) (actor operation_id : String) (at : ℕ) (n : NotificationRow)
    → is_unreplied n.state ≡ true
    → IsRouted rows n
    → IsRouted rows (with_ack actor at operation_id n)
with_ack-IsRouted rows actor operation_id at n open_ r = record {
  owner = r.owner;
  found = r.found;
  same_project = r.same_project;
  same_task = r.same_task;
  live = λ h. r.live (ground arith);
}

-- A Session's row is replaced by one with the same identity.
pub IsRouted-update :
    (id : String) (f : RuntimeSession → RuntimeSession) (rows : List RuntimeSession)
    (n : NotificationRow)
    → ((row : RuntimeSession) → (f row).session_id ≡ row.session_id)
    → ((row : RuntimeSession)
        → ((f row).project_id ≡ row.project_id) × ((f row).task_id ≡ row.task_id))
    → ((row : RuntimeSession)
        → id ≡ n.session_id
        → (is_session_route n.route && is_unreplied n.state) ≡ true
        → has_ended row.state ≡ false
        → has_ended (f row).state ≡ false)
    → IsRouted rows n
    → IsRouted (update (has_session id) f rows) n
IsRouted-update id f rows n same_id same_rest step r = elim (String-cases id n.session_id) [
  | inl same ↦ record {
    owner = f r.owner;
    found =
        subst (λ k. find (has_session k) (update (has_session id) f rows) ≡ some (f r.owner)) same
          (find-update_self (has_session id) f rows {x = r.owner} (λ y h. rw (same_id y) h)
            (rw same r.found));
    same_project = (same_rest r.owner).0 ∙ r.same_project;
    same_task = (same_rest r.owner).1 ∙ r.same_task;
    live = λ h. step r.owner same h (r.live h);
  }
  | inr other ↦ record {
    owner = r.owner;
    found =
        find-update_other (has_session n.session_id) (has_session id) f rows (λ y h. (
          has_session-exclusive id n.session_id other y h,
          rw (same_id y) (has_session-exclusive id n.session_id other y h),
        ))
        ∙ r.found;
    same_project = r.same_project;
    same_task = r.same_task;
    live = r.live;
  }
]

-- An observation of a Session that goes on keeps every route.
observed-IsRouted :
    (new : RuntimeSession) (rows : List RuntimeSession) (n : NotificationRow)
    → ((new.session_id ≡ n.session_id)
        → (is_session_route n.route && is_unreplied n.state) ≡ true
        → has_ended new.state ≡ false)
    → IsRouted rows n
    → IsRouted (update (has_session new.session_id) (observed new) rows) n
observed-IsRouted new rows n goes_on =
    IsRouted-update new.session_id (observed new) rows n (λ row. refl) (λ row. (refl, refl))
      (λ row same h l. goes_on same h)

-- The rows behind an observation by which the Session ends: those that waited go to the manager.
ended-RoutesWell :
    (new : RuntimeSession) (s : Store)
    → RoutesWell s
    → has_ended new.state ≡ true
    → RoutesWell (reroute new (set_session new s))
ended-RoutesWell new s h ended = rw ended (record {
  keyed =
      update-IsKeyed notification_key (awaits_session new.session_id)
        (rerouted new.updated_at new.state) (λ n. refl) s.notifications h.keyed;
  each =
      update-All_split (IsRouted s.sessions)
        (IsRouted (update (has_session new.session_id) (observed new) s.sessions))
        (awaits_session new.session_id) (rerouted new.updated_at new.state) s.notifications
        (λ n waits r.
          observed-IsRouted new s.sessions (rerouted new.updated_at new.state n) (λ same h. cc)
            (record {
              owner = r.owner;
              found = r.found;
              same_project = r.same_project;
              same_task = r.same_task;
              live = λ h. cc;
            }))
        (λ n passes r.
          observed-IsRouted new s.sessions n
            (λ same open_. absurd (ground (arith, eq_iff n.session_id new.session_id))) r)
        h.each;
})

reroute-RoutesWell :
    (new : RuntimeSession) (s : Store) → RoutesWell s → RoutesWell (reroute new (set_session new s))
reroute-RoutesWell new s h = elim (Bool-cases (has_ended new.state)) [
  | inl ended ↦ ended-RoutesWell new s h ended
  | inr goes_on ↦ rw goes_on (record {
    keyed = h.keyed;
    each =
        All-map (λ n r. observed-IsRouted new s.sessions n (λ _ _. goes_on) r) s.notifications
          h.each;
  })
]

rerouted-Follows :
    (new : RuntimeSession) (n : NotificationRow)
    → awaits_session new.session_id n ≡ true
    → Follows n (rerouted new.updated_at new.state n)
rerouted-Follows new n waits = record {
  same_content = refl;
  monotone = omega arith;
  counted = λ h. absurd (omega arith);
  final = λ h. absurd (ground arith);
}

reroute-Tracks : (new : RuntimeSession) (s : Store) → Tracks s (reroute new (set_session new s))
reroute-Tracks new s = elim (Bool-cases (has_ended new.state)) [
  | inl ended ↦
      update-Tracks (awaits_session new.session_id) (rerouted new.updated_at new.state) s
        (reroute new (set_session new s)) (rw ended) (λ n. refl)
        (λ id n h waits. rerouted-Follows new n waits)
  | inr goes_on ↦ Tracks-same s (reroute new (set_session new s)) (rw goes_on)
]

-- Each notification is followed, and the routing is kept.
pub record Moves (s t : Store) : Type 0 where
  pub tracks : Tracks s t
  pub routes : RoutesWell s → RoutesWell t

pub Moves-IsPreorder : IsPreorder Moves
Moves-IsPreorder = record {
  same = λ s. record { tracks = Tracks-IsPreorder.same s; routes = λ h. h };
  then_ = λ s t u h k. record {
    tracks = Tracks-IsPreorder.then_ s t u h.tracks k.tracks;
    routes = λ r. k.routes (h.routes r);
  };
}

pub Moves-refl : (s : Store) → Moves s s
Moves-refl s = Moves-IsPreorder.same s

pub reroute-Moves : (new : RuntimeSession) (s : Store) → Moves s (reroute new (set_session new s))
reroute-Moves new s = record { tracks = reroute-Tracks new s; routes = reroute-RoutesWell new s }
