-- ===== src/Store/Sessions/Evolution.antt =====
-- A later row of a stored Session (the methods of Sessions of
-- src/researchctl/runtime/store.py).
mod Relation
pub use Relation.*
use research_agent_ops.Base.{
  Bool, ℕ, ◌≤◌, String, ◌≡◌, refl, ◌∙◌, subst, true, false, ◌&&◌, not, Option, none, some, List,
  ◌∷◌, ◌==◌, nat_eq, string_eq, option_eq, ltb, leb, find, any, update, any-of_find,
  find-update_self, find-update_other, String-cases, inl, inr, eq_iff, arith, if-holds,
  option_beq_iff,
}
use research_agent_ops.Errors.{
  ok, session_token_rotation_forbidden, session_identity_conflict, session_terminal,
  stale_session_observation, session_not_found,
}
use research_agent_ops.Json.{Json, comparison_text}
use research_agent_ops.Exec.{Exec, raise_if, skip, ◌>>◌}
use research_agent_ops.Exec.Respects.{
  IsPreorder, Respects, Respects-bind, Respects-lift, Respects-pure, Respects-or_raise,
  Respects-raise_if, at-raise_if, at-or_raise,
}
use research_agent_ops.Store.Schema.{Store, RuntimeSession, SessionState, Datetime}
use research_agent_ops.Store.Transaction.{
  Respects-write_transaction, Respects-read_lock, at-insert_row,
}
use research_agent_ops.Store.Sessions.{
  SessionInput, has_session, session_state_eq, same_identity, same_observation, is_lost, observed,
  reroute, add_session, session_clashes, may_rotate, with_token, set_token, check_source,
  insert_session, update_session, save_row, save_body, check_session, save_session,
  update_session_state, rotate_row, rotate_body, rotate_session_token, get_session, read_session,
}

last_holds : (a b c d : Bool) → a ≡ true → (a && not (b && (c && d))) ≡ false → d ≡ true
last_holds a b c d h k = ground arith

-- What the tests of the update branch have shown.
observed-Evolves :
    (new existing : RuntimeSession)
    → (is_lost existing.state && not (same_observation new existing)) ≡ false
    → ltb new.updated_at existing.updated_at ≡ false
    → Evolves existing (observed new existing)
observed-Evolves new existing final fresh = record {
  same_id = refl;
  same_project = refl;
  same_task = refl;
  same_creation = refl;
  same_host = refl;
  same_branch = refl;
  same_worktree = refl;
  same_source = refl;
  monotone = ground arith;
  lost_state = λ l. ground arith;
  lost_time = λ l. ground arith;
  lost_metadata = λ l.
      (option_beq_iff (comparison_text new.metadata.value)
          (comparison_text existing.metadata.value)).0
        (last_holds (is_lost existing.state) (new.state == existing.state)
          (new.updated_at == existing.updated_at)
          (comparison_text new.metadata.value == comparison_text existing.metadata.value) l final);
  lost_token = λ l. refl;
}

sessions-reroute : (new : RuntimeSession) (s : Store) → (reroute new s).sessions ≡ s.sessions
sessions-reroute new s = ground arith

update_session-Advances :
    (new existing : RuntimeSession) (s : Store)
    → find (has_session new.session_id) s.sessions ≡ some existing
    → Advances s (update_session new existing s).1
unfolding update_session
update_session-Advances new existing s found =
    at-raise_if Advances-IsPreorder (not (same_identity existing new)) session_identity_conflict _ s
      λ _.
        at-raise_if Advances-IsPreorder
          (is_lost existing.state && not (same_observation new existing)) session_terminal _ s
          λ final.
            at-raise_if Advances-IsPreorder (ltb new.updated_at existing.updated_at)
              stale_session_observation _ s
              λ fresh.
                at-raise_if Advances-IsPreorder
                  (new.updated_at == existing.updated_at && not (same_observation new existing))
                  stale_session_observation _ s
                  λ _.
                    update-Advances new.session_id (observed new) s
                      (λ rows. reroute new (record s { sessions = rows }))
                      (λ rows. sessions-reroute new (record s { sessions = rows })) (λ row. refl)
                      λ row e.
                        let same : row ≡ existing = ground arith in
                        rw same (observed-Evolves new existing final fresh)

pub check_source-state : (new : RuntimeSession) (s : Store) → (check_source new s).1 ≡ s
unfolding check_source
check_source-state new s = ground arith

check_source-Advances : (new : RuntimeSession) → Respects Advances (check_source new)
unfolding check_source
check_source-Advances new = record { at = λ s. rw (check_source-state new s) (Advances-refl s) }

pub insert_new :
    (new : RuntimeSession) (s : Store) (id : String) {row : RuntimeSession}
    → session_clashes new s ≡ false
    → find (has_session id) s.sessions ≡ some row
    → find (has_session id) (new ∷ s.sessions) ≡ some row
insert_new new s id clear e = elim (String-cases new.session_id id) [
  | inl same ↦
      let there : any (has_session new.session_id) s.sessions ≡ true =
        rw same (any-of_find (has_session id) s.sessions e) in
      absurd (ground arith)
  | inr other ↦ rw other e
]

insert_session-Advances : (new : RuntimeSession) → Respects Advances (insert_session new)
unfolding insert_session
insert_session-Advances new =
    Respects-bind Advances-IsPreorder (check_source new) _ (check_source-Advances new) λ _. record {
      at = λ s. at-insert_row Advances-IsPreorder (session_clashes new) (add_session new) s λ clear.
          record { evolves = λ id row e. (row, insert_new new s id clear e, Evolves-refl row) };
    }

save_row-Advances :
    (new : RuntimeSession) (row : Option RuntimeSession) (s : Store)
    → find (has_session new.session_id) s.sessions ≡ row
    → Advances s (save_row new row s).1
unfolding save_row
save_row-Advances new none s e = (insert_session-Advances new).at s
save_row-Advances new (some existing) s e = update_session-Advances new existing s e

save_body-Advances : (new : RuntimeSession) → Respects Advances (save_body new)
unfolding save_body
save_body-Advances new = record { at = λ s. save_row-Advances new _ s refl }

read_session-Advances : (id : String) → Respects Advances (read_session id)
unfolding read_session get_session
read_session-Advances id =
    Respects-bind Advances-IsPreorder (get_session id) _ (Respects-read_lock Advances-IsPreorder _)
      λ found. Respects-or_raise Advances-IsPreorder _ found

get_session-Advances : (id : String) → Respects Advances (get_session id)
unfolding get_session
get_session-Advances id = Respects-read_lock Advances-IsPreorder _

ruleset method_rules = (
  Advances-IsPreorder, Respects-bind, Respects-lift, Respects-pure, Respects-raise_if,
  Respects-or_raise, Respects-write_transaction, read_session-Advances, get_session-Advances,
)

check_session-Advances : (x : SessionInput) → Respects Advances (check_session x)
unfolding check_session
check_session-Advances x = search method_rules depth 30

-- Whatever save_session is called with, every stored Session goes on as `Evolves` allows.
pub save_session-Advances : (x : SessionInput) → Respects Advances (save_session x)
unfolding save_session
save_session-Advances x = search (method_rules, check_session-Advances, save_body-Advances)

-- The same of update_session_state.
pub update_session_state-Advances :
    (id : String) (state : SessionState) (o : Datetime) (metadata : Option Json)
    → Respects Advances (update_session_state id state o metadata)
unfolding update_session_state
update_session_state-Advances id state o metadata = search (method_rules, save_session-Advances)

with_token-Evolves :
    (digest : String) (at : ℕ) (row : RuntimeSession)
    → not (may_rotate row.state) ≡ false
    → leb at row.updated_at ≡ false
    → Evolves row (with_token digest at row)
with_token-Evolves digest at row resumable newer = ground arith

rotate_row-Advances :
    (id digest : String) (at : ℕ) (row : RuntimeSession) (s : Store)
    → find (has_session id) s.sessions ≡ some row
    → Advances s (rotate_row id digest at row s).1
unfolding rotate_row
rotate_row-Advances id digest at row s found =
    at-raise_if Advances-IsPreorder (not (may_rotate row.state)) session_token_rotation_forbidden _
      s
      λ resumable.
        if-holds (λ (m : Exec Store (Unit {0})). Advances s (m s).1)
          (row.actor_token_digest == some digest) skip
          (raise_if (leb at row.updated_at) stale_session_observation >> λ t.
            (ok tt, set_token id digest at t))
          (λ _. Advances-refl s)
          λ _.
            at-raise_if Advances-IsPreorder (leb at row.updated_at) stale_session_observation _ s
              λ newer.
                update-Advances id (with_token digest at) s (λ rows. record s { sessions = rows })
                  (λ rows. refl) (λ r. refl)
                  λ r e.
                    let same : r ≡ row = ground arith in
                    rw same (with_token-Evolves digest at row resumable newer)

rotate_body-Advances : (id digest : String) (at : ℕ) → Respects Advances (rotate_body id digest at)
unfolding rotate_body
rotate_body-Advances id digest at = record {
  at = λ s.
      at-or_raise Advances-IsPreorder session_not_found (find (has_session id) s.sessions) _ s
        λ row found. rotate_row-Advances id digest at row s found;
}

-- The same of rotate_session_token.
pub rotate_session_token-Advances :
    (id digest : String) (o : Datetime) → Respects Advances (rotate_session_token id digest o)
unfolding rotate_session_token
rotate_session_token-Advances id digest o = search (method_rules, rotate_body-Advances)
