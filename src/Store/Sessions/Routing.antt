-- ===== src/Store/Sessions/Routing.antt =====
-- Steps of the methods of Sessions (src/researchctl/runtime/store.py), as they bear on the
-- routing of notifications.
use research_agent_ops.Base.{
  ℕ, String, refl, ◌&&◌, not, Option, none, some, ◌==◌, nat_eq, string_eq, option_eq, ltb, leb,
  find, All-map, if-holds,
}
use research_agent_ops.Errors.{
  ok, session_identity_conflict, session_terminal, stale_session_observation, session_not_found,
  session_token_rotation_forbidden,
}
use research_agent_ops.Json.{Json}
use research_agent_ops.Exec.{Exec, raise_if, skip, ◌>>◌}
use research_agent_ops.Exec.Respects.{
  Respects, Respects-bind, Respects-lift, Respects-pure, Respects-or_raise, Respects-raise_if,
  at-raise_if, at-or_raise,
}
use research_agent_ops.Store.Schema.{Store, RuntimeSession, SessionState, Datetime}
use research_agent_ops.Store.Transaction.{
  Respects-write_transaction, Respects-read_lock, at-insert_row,
}
use research_agent_ops.Store.Sessions.{
  SessionInput, has_session, session_state_eq, same_identity, same_observation, is_lost,
  add_session, session_clashes, may_rotate, with_token, set_token, check_source, insert_session,
  update_session, save_row, save_body, check_session, save_session, update_session_state,
  rotate_row, rotate_body, rotate_session_token, get_session, read_session,
}
use research_agent_ops.Store.Sessions.Evolution.{check_source-state, insert_new}
use research_agent_ops.Store.Notifications.Routing.{
  Moves, Moves-IsPreorder, Moves-refl, reroute-Moves, IsRouted-update,
}
use research_agent_ops.Store.Notifications.Tracking.{Tracks-same}

update_session-Moves :
    (new existing : RuntimeSession) → Respects Moves (update_session new existing)
unfolding update_session
update_session-Moves new existing = record {
  at = λ s.
      at-raise_if Moves-IsPreorder (not (same_identity existing new)) session_identity_conflict _ s
        λ _.
          at-raise_if Moves-IsPreorder
            (is_lost existing.state && not (same_observation new existing)) session_terminal _ s
            λ _.
              at-raise_if Moves-IsPreorder (ltb new.updated_at existing.updated_at)
                stale_session_observation _ s
                λ _.
                  at-raise_if Moves-IsPreorder
                    (new.updated_at == existing.updated_at && not (same_observation new existing))
                    stale_session_observation _ s λ _. reroute-Moves new s;
}

insert_session-Moves : (new : RuntimeSession) → Respects Moves (insert_session new)
unfolding insert_session
insert_session-Moves new =
    Respects-bind Moves-IsPreorder (check_source new) _
      (record { at = λ s. rw (check_source-state new s) (Moves-refl s) })
      λ _. record {
        at = λ s. at-insert_row Moves-IsPreorder (session_clashes new) (add_session new) s λ clear.
            record {
              tracks = Tracks-same s (add_session new s) refl;
              routes = λ h. record {
                keyed = h.keyed;
                each =
                    All-map
                      (λ n r. record {
                        owner = r.owner;
                        found = insert_new new s n.session_id clear r.found;
                        same_project = r.same_project;
                        same_task = r.same_task;
                        live = r.live;
                      })
                      s.notifications h.each;
              };
            };
      }

save_row-Moves :
    (new : RuntimeSession) (row : Option RuntimeSession) → Respects Moves (save_row new row)
unfolding save_row
save_row-Moves new none = insert_session-Moves new
save_row-Moves new (some existing) = update_session-Moves new existing

save_body-Moves : (new : RuntimeSession) → Respects Moves (save_body new)
unfolding save_body
save_body-Moves new = record { at = λ s. (save_row-Moves new _).at s }

get_session-Moves : (id : String) → Respects Moves (get_session id)
unfolding get_session
get_session-Moves id = Respects-read_lock Moves-IsPreorder _

read_session-Moves : (id : String) → Respects Moves (read_session id)
unfolding read_session
read_session-Moves id =
    Respects-bind Moves-IsPreorder (get_session id) _ (get_session-Moves id)
      λ found. Respects-or_raise Moves-IsPreorder _ found

ruleset route_rules = (
  Respects-bind, Respects-lift, Respects-pure, Respects-raise_if, Respects-or_raise,
  Respects-write_transaction, read_session-Moves, get_session-Moves, Moves-IsPreorder,
)

check_session-Moves : (x : SessionInput) → Respects Moves (check_session x)
unfolding check_session
check_session-Moves x = search route_rules depth 30

-- save_session keeps the routing, and follows each notification.
pub save_session-Moves : (x : SessionInput) → Respects Moves (save_session x)
unfolding save_session
save_session-Moves x = search (route_rules, check_session-Moves, save_body-Moves)

-- So does update_session_state.
pub update_session_state-Moves :
    (id : String) (state : SessionState) (o : Datetime) (metadata : Option Json)
    → Respects Moves (update_session_state id state o metadata)
unfolding update_session_state
update_session_state-Moves id state o metadata = search (route_rules, save_session-Moves)

set_token-Moves : (id digest : String) (at : ℕ) (s : Store) → Moves s (set_token id digest at s)
set_token-Moves id digest at s = record {
  tracks = Tracks-same s (set_token id digest at s) refl;
  routes = λ h. record {
    keyed = h.keyed;
    each =
        All-map
          (λ n r.
            IsRouted-update id (with_token digest at) s.sessions n (λ row. refl)
              (λ row. (refl, refl)) (λ row _ _ l. l) r)
          s.notifications h.each;
  };
}

rotate_row-Moves :
    (id digest : String) (at : ℕ) (row : RuntimeSession)
    → Respects Moves (rotate_row id digest at row)
unfolding rotate_row
rotate_row-Moves id digest at row = record {
  at = λ s.
      at-raise_if Moves-IsPreorder (not (may_rotate row.state)) session_token_rotation_forbidden _ s
        λ _.
          if-holds (λ (m : Exec Store (Unit {0})). Moves s (m s).1)
            (row.actor_token_digest == some digest) skip
            (raise_if (leb at row.updated_at) stale_session_observation >> λ t.
              (ok tt, set_token id digest at t))
            (λ _. Moves-refl s)
            λ _.
              at-raise_if Moves-IsPreorder (leb at row.updated_at) stale_session_observation _ s
                λ _. set_token-Moves id digest at s;
}

rotate_body-Moves : (id digest : String) (at : ℕ) → Respects Moves (rotate_body id digest at)
unfolding rotate_body
rotate_body-Moves id digest at = record {
  at = λ s.
      at-or_raise Moves-IsPreorder session_not_found (find (has_session id) s.sessions) _ s
        λ row found. (rotate_row-Moves id digest at row).at s;
}

-- So does rotate_session_token.
pub rotate_session_token-Moves :
    (id digest : String) (o : Datetime) → Respects Moves (rotate_session_token id digest o)
unfolding rotate_session_token
rotate_session_token-Moves id digest o = search (route_rules, rotate_body-Moves)
