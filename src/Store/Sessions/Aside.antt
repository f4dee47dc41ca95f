-- ===== src/Store/Sessions/Aside.antt =====
-- Steps of the methods of Sessions (src/researchctl/runtime/store.py), as they bear on replies.
use research_agent_ops.Base.{
  ℕ, String, refl, subst, sym, Option, none, some, nat_eq, string_eq, option_eq, if-holds,
}
use research_agent_ops.Errors.{ok}
use research_agent_ops.Json.{Json}
use research_agent_ops.Exec.Respects.{
  Respects, Respects-bind, Respects-lift, Respects-pure, Respects-or_raise, Respects-raise_if,
  Respects-skip, Respects-if, Respects-gets,
}
use research_agent_ops.Store.Schema.{Store, RuntimeSession, SessionState, Datetime}
use research_agent_ops.Store.Transaction.{
  Respects-write_transaction, Respects-read_lock, at-insert_row,
}
use research_agent_ops.Store.Leaves.{LeavesReplies, LeavesReplies-IsPreorder}
use research_agent_ops.Store.Sessions.{
  SessionInput, has_ended, set_session, reroute, add_session, session_clashes, set_token,
  check_source, insert_session, update_session, save_row, save_body, check_session, save_session,
  update_session_state, rotate_row, rotate_body, rotate_session_token, get_session, read_session,
}
use research_agent_ops.Store.Sessions.Evolution.{check_source-state}

ruleset leave_rules = (
  LeavesReplies-IsPreorder, Respects-bind, Respects-lift, Respects-pure, Respects-raise_if,
  Respects-gets, Respects-or_raise, Respects-skip, Respects-write_transaction, Respects-read_lock,
  Respects-if,
)

reroute-LeavesReplies :
    (new : RuntimeSession) (s : Store) → LeavesReplies s (reroute new (set_session new s))
reroute-LeavesReplies new s =
    if-holds (LeavesReplies s) (has_ended new.state) _ (set_session new s)
      (λ _. record { same_replies = refl; same_outbox = refl })
      (λ _. record { same_replies = refl; same_outbox = refl })

observe-LeavesReplies :
    (new : RuntimeSession)
    → Respects {A = Unit {0}} LeavesReplies (λ s. (ok tt, reroute new (set_session new s)))
observe-LeavesReplies new = record { at = reroute-LeavesReplies new }

save_row-LeavesReplies :
    (new : RuntimeSession) (row : Option RuntimeSession) → Respects LeavesReplies (save_row new row)
unfolding save_row insert_session update_session
save_row-LeavesReplies new none =
    Respects-bind LeavesReplies-IsPreorder (check_source new) _
      (record {
        at = λ s.
            subst (LeavesReplies s) (sym (check_source-state new s))
              (LeavesReplies-IsPreorder.same s);
      })
      λ _. record {
        at = λ s.
            at-insert_row LeavesReplies-IsPreorder (session_clashes new) (add_session new) s
              (λ _. record { same_replies = refl; same_outbox = refl });
      }
save_row-LeavesReplies new (some existing) = search (leave_rules, observe-LeavesReplies) depth 20

pub save_session-LeavesReplies : (x : SessionInput) → Respects LeavesReplies (save_session x)
unfolding save_session check_session save_body read_session get_session
save_session-LeavesReplies x = search (leave_rules, save_row-LeavesReplies) depth 40

pub update_session_state-LeavesReplies :
    (id : String) (state : SessionState) (o : Datetime) (metadata : Option Json)
    → Respects LeavesReplies (update_session_state id state o metadata)
unfolding update_session_state get_session
update_session_state-LeavesReplies id state o metadata =
    search (leave_rules, save_session-LeavesReplies) depth 20

token-LeavesReplies :
    (id digest : String) (at : ℕ)
    → Respects {A = Unit {0}} LeavesReplies (λ s. (ok tt, set_token id digest at s))
token-LeavesReplies id digest at = record {
  at = λ s. record { same_replies = refl; same_outbox = refl };
}

rotate_row-LeavesReplies :
    (id digest : String) (at : ℕ) (row : RuntimeSession)
    → Respects LeavesReplies (rotate_row id digest at row)
unfolding rotate_row
rotate_row-LeavesReplies id digest at row = search (leave_rules, token-LeavesReplies) depth 20

pub rotate_session_token-LeavesReplies :
    (id digest : String) (o : Datetime) → Respects LeavesReplies (rotate_session_token id digest o)
unfolding rotate_session_token rotate_body read_session get_session
rotate_session_token-LeavesReplies id digest o =
    search (leave_rules, rotate_row-LeavesReplies) depth 40
