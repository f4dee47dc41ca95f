-- ===== src/Store/Sessions/Evolution/Relation.antt =====
-- How a stored Session may go on (src/researchctl/runtime/store.py).
use research_agent_ops.Base.{
  ◌≤◌, String, ◌≡◌, ◌∙◌, subst, true, false, some, List, ◌==◌, nat_eq, string_eq, option_eq, find,
  update, find-update_self, find-update_other, String-cases, inl, inr, eq_iff, arith,
}
use research_agent_ops.Json.{comparison_text}
use research_agent_ops.Exec.Respects.{IsPreorder}
use research_agent_ops.Store.Schema.{Store, RuntimeSession}
use research_agent_ops.Store.Sessions.{has_session, session_state_eq, is_lost}

-- A later row of the same Session: the identity columns are the same, time does not go back, a
-- lost Session keeps its state, its time, its token, and metadata that Python's `==` does not tell from
-- what they were.
pub record Evolves (old new : RuntimeSession) : Type 0 where
  pub same_id : new.session_id ≡ old.session_id
  pub same_project : new.project_id ≡ old.project_id
  pub same_task : new.task_id ≡ old.task_id
  pub same_creation : new.created_at ≡ old.created_at
  pub same_host : new.host ≡ old.host
  pub same_branch : new.branch ≡ old.branch
  pub same_worktree : new.worktree_path ≡ old.worktree_path
  pub same_source : new.continued_from ≡ old.continued_from
  pub monotone : old.updated_at ≤ new.updated_at
  pub lost_state : is_lost old.state ≡ true → new.state ≡ old.state
  pub lost_time : is_lost old.state ≡ true → new.updated_at ≡ old.updated_at
  pub lost_metadata :
      is_lost old.state ≡ true
      → comparison_text new.metadata.value ≡ comparison_text old.metadata.value
  pub lost_token : is_lost old.state ≡ true → new.actor_token_digest ≡ old.actor_token_digest

pub record Advances (s t : Store) : Type 0 where
  pub evolves :
      (id : String) (row : RuntimeSession)
      → find (has_session id) s.sessions ≡ some row
      → (row' : RuntimeSession) × (find (has_session id) t.sessions ≡ some row') × Evolves row row'

pub Evolves-refl : (row : RuntimeSession) → Evolves row row
Evolves-refl row = ground arith

pub Evolves-trans : (a b c : RuntimeSession) → Evolves a b → Evolves b c → Evolves a c
Evolves-trans a b c h k = record {
  same_id = k.same_id ∙ h.same_id;
  same_project = k.same_project ∙ h.same_project;
  same_task = k.same_task ∙ h.same_task;
  same_creation = k.same_creation ∙ h.same_creation;
  same_host = k.same_host ∙ h.same_host;
  same_branch = k.same_branch ∙ h.same_branch;
  same_worktree = k.same_worktree ∙ h.same_worktree;
  same_source = k.same_source ∙ h.same_source;
  monotone = omega (arith, h.monotone, k.monotone);
  lost_state = λ l. k.lost_state (rw (h.lost_state l) l) ∙ h.lost_state l;
  lost_time = λ l. k.lost_time (rw (h.lost_state l) l) ∙ h.lost_time l;
  lost_metadata = λ l. k.lost_metadata (rw (h.lost_state l) l) ∙ h.lost_metadata l;
  lost_token = λ l. k.lost_token (rw (h.lost_state l) l) ∙ h.lost_token l;
}

pub Advances-refl : (s : Store) → Advances s s
Advances-refl s = record { evolves = λ id row h. (row, h, Evolves-refl row) }

pub Advances-trans : (s t u : Store) → Advances s t → Advances t u → Advances s u
Advances-trans s t u h k = record {
  evolves = λ id row e.
      let (row', e', c) = h.evolves id row e in
      let (row'', e'', d) = k.evolves id row' e' in (row'', e'', Evolves-trans row row' row'' c d);
}

pub Advances-IsPreorder : IsPreorder Advances
Advances-IsPreorder = record { same = Advances-refl; then_ = Advances-trans }

-- A step that writes no Session.
pub Advances-same : (s t : Store) → t.sessions ≡ s.sessions → Advances s t
Advances-same s t e = record { evolves = λ id row h. (row, rw e h, Evolves-refl row) }

pub has_session-exclusive :
    (id j : String)
    → (id == j) ≡ false
    → (row : RuntimeSession) → has_session id row ≡ true
    → has_session j row ≡ false
has_session-exclusive id j other row h = rw ((eq_iff row.session_id id).0 h) other

-- An update of one Session that is a step of `Evolves`.
pub update-Advances :
    (id : String) (f : RuntimeSession → RuntimeSession) (s : Store)
    (rest : List RuntimeSession → Store)
    → ((rows : List RuntimeSession) → (rest rows).sessions ≡ rows)
    → ((row : RuntimeSession) → (f row).session_id ≡ row.session_id)
    → ((row : RuntimeSession) → find (has_session id) s.sessions ≡ some row → Evolves row (f row))
    → Advances s (rest (update (has_session id) f s.sessions))
update-Advances id f s rest read same_id step = record {
  evolves = λ j row e. rw read (elim (String-cases id j) [
    | inl same ↦ (
      f row,
      subst (λ k. find (has_session k) (update (has_session id) f s.sessions) ≡ some (f row)) same
          (find-update_self (has_session id) f s.sessions {x = row} (λ y h. rw (same_id y) h)
            (rw same e)),
      step row (rw same e),
    )
    | inr other ↦ (
      row,
      find-update_other (has_session j) (has_session id) f s.sessions (λ y h. (
        has_session-exclusive id j other y h,
        rw (same_id y) (has_session-exclusive id j other y h),
      ))
          ∙ e,
      Evolves-refl row,
    )
  ]);
}
