-- ===== src/Store/Leaves.antt =====
-- Steps that leave the table of Sessions as it is, or the tables of replies.
use research_agent_ops.Base.{◌≡◌, refl, ◌∙◌, Bool}
use research_agent_ops.Errors.{ok}
use research_agent_ops.Exec.Respects.{IsPreorder, Respects}
use research_agent_ops.Store.Schema.{Store}
use research_agent_ops.Store.Transaction.{insert_row, at-insert_row}

-- The table of Sessions is as it was.
pub record LeavesSessions (s t : Store) : Type 0 where
  pub same_sessions : t.sessions ≡ s.sessions

pub LeavesSessions-IsPreorder : IsPreorder LeavesSessions
LeavesSessions-IsPreorder = record {
  same = λ s. record { same_sessions = refl };
  then_ = λ s t u h k. record { same_sessions = k.same_sessions ∙ h.same_sessions };
}

pub insert_row-LeavesSessions :
    (clashes : Store → Bool) (add : Store → Store)
    → ((s : Store) → (add s).sessions ≡ s.sessions)
    → Respects LeavesSessions (insert_row clashes add)
insert_row-LeavesSessions clashes add h = record {
  at = λ s.
      at-insert_row LeavesSessions-IsPreorder clashes add s λ _. record { same_sessions = h s };
}

pub write-LeavesSessions :
    (f : Store → Store)
    → ((s : Store) → (f s).sessions ≡ s.sessions)
    → Respects {A = Unit {0}} LeavesSessions (λ s. (ok tt, f s))
write-LeavesSessions f h = record { at = λ s. record { same_sessions = h s } }

-- The replies and their outbox are as they were.
pub record LeavesReplies (s t : Store) : Type 0 where
  pub same_replies : t.replies ≡ s.replies
  pub same_outbox : t.reply_outbox ≡ s.reply_outbox

pub LeavesReplies-IsPreorder : IsPreorder LeavesReplies
LeavesReplies-IsPreorder = record {
  same = λ s. record { same_replies = refl; same_outbox = refl };
  then_ = λ s t u h k. record {
    same_replies = k.same_replies ∙ h.same_replies;
    same_outbox = k.same_outbox ∙ h.same_outbox;
  };
}
