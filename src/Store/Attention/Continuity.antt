-- ===== src/Store/Attention/Continuity.antt =====
-- A later row of an attention item (the methods of the attention inbox of
-- src/researchctl/runtime/store.py).
use research_agent_ops.Base.{
  same_found, ℕ, ◌≤◌, String, ◌≡◌, refl, ◌∙◌, true, false, not, Option, none, some, ◌==◌, string_eq,
  find, any, eq_iff, arith, if-holds, subst, sym, IsReflTrans, Persists, Persists-refl,
  Persists-trans, Persists-update, Persists-add, if◌then◌else◌,
}
use research_agent_ops.Errors.{ok}
use research_agent_ops.Exec.{Exec, skip}
use research_agent_ops.Exec.Respects.{IsPreorder, Respects}
use research_agent_ops.Store.Schema.{Store, AttentionRow}
use research_agent_ops.Store.Transaction.{at-insert_row}
use research_agent_ops.Store.Attention.{
  has_key, attention_key, attention_key, Signal, new_item, item_clashes, add_item, reopened,
  unacknowledged, seen_again, refreshed, is_acknowledged, is_resolved, set_item, is_outdated,
  upsert_row, upsert_attention, ActionInput, acted, action_row, add_action,
}

-- A later row of the same item: what it is about is the same, its generation and the time it was
-- last seen do not go back, and a row of the same generation has the same evidence and priority
-- and, once resolved, the same resolution.
pub record Continues (old new : AttentionRow) : Type 0 where
  pub same_key : new.dedupe_key ≡ old.dedupe_key
  pub same_project : new.project_id ≡ old.project_id
  pub same_task : new.task_id ≡ old.task_id
  pub same_session : new.session_id ≡ old.session_id
  pub same_kind : new.kind ≡ old.kind
  pub same_identity : new.identity_text ≡ old.identity_text
  pub same_start : new.first_seen_at ≡ old.first_seen_at
  pub later_generation : old.generation ≤ new.generation
  pub later_sight : old.last_seen_at ≤ new.last_seen_at
  pub same_evidence : new.generation ≡ old.generation → new.evidence_digest ≡ old.evidence_digest
  pub same_priority : new.generation ≡ old.generation → new.priority ≡ old.priority
  pub resolved_state :
      new.generation ≡ old.generation → is_resolved old.state ≡ true → new.state ≡ old.state
  pub resolved_actor :
      new.generation ≡ old.generation
      → is_resolved old.state ≡ true
      → new.resolved_by ≡ old.resolved_by
  pub resolved_time :
      new.generation ≡ old.generation
      → is_resolved old.state ≡ true
      → new.resolved_at ≡ old.resolved_at
  pub resolved_reason :
      new.generation ≡ old.generation
      → is_resolved old.state ≡ true
      → new.resolution_reason ≡ old.resolution_reason

Continues-refl : (r : AttentionRow) → Continues r r
Continues-refl r = ground arith

module _ (a b c : AttentionRow) (h : Continues a b) (k : Continues b c) where
  earlier_generation : c.generation ≡ a.generation → b.generation ≡ a.generation
  earlier_generation e = omega (arith, h.later_generation, k.later_generation)

  later_generation : c.generation ≡ a.generation → c.generation ≡ b.generation
  later_generation e = omega (arith, h.later_generation, k.later_generation)

  still_resolved :
      c.generation ≡ a.generation → is_resolved a.state ≡ true → is_resolved b.state ≡ true
  still_resolved e l = rw (h.resolved_state (earlier_generation e) l) l

  Continues-trans : Continues a c
  Continues-trans = record {
    same_key = k.same_key ∙ h.same_key;
    same_project = k.same_project ∙ h.same_project;
    same_task = k.same_task ∙ h.same_task;
    same_session = k.same_session ∙ h.same_session;
    same_kind = k.same_kind ∙ h.same_kind;
    same_identity = k.same_identity ∙ h.same_identity;
    same_start = k.same_start ∙ h.same_start;
    later_generation = omega (arith, h.later_generation, k.later_generation);
    later_sight = omega (arith, h.later_sight, k.later_sight);
    same_evidence =
        λ e. k.same_evidence (later_generation e) ∙ h.same_evidence (earlier_generation e);
    same_priority =
        λ e. k.same_priority (later_generation e) ∙ h.same_priority (earlier_generation e);
    resolved_state = λ e l.
        k.resolved_state (later_generation e) (still_resolved e l)
        ∙ h.resolved_state (earlier_generation e) l;
    resolved_actor = λ e l.
        k.resolved_actor (later_generation e) (still_resolved e l)
        ∙ h.resolved_actor (earlier_generation e) l;
    resolved_time = λ e l.
        k.resolved_time (later_generation e) (still_resolved e l)
        ∙ h.resolved_time (earlier_generation e) l;
    resolved_reason = λ e l.
        k.resolved_reason (later_generation e) (still_resolved e l)
        ∙ h.resolved_reason (earlier_generation e) l;
  }

pub Continues-IsReflTrans : IsReflTrans Continues
Continues-IsReflTrans = record { stay = Continues-refl; go_on = Continues-trans }

-- Every stored item goes on.
pub record Goes (s t : Store) : Type 0 where
  pub items : Persists has_key Continues s.attention_items t.attention_items

pub Goes-same : (s t : Store) → t.attention_items ≡ s.attention_items → Goes s t
Goes-same s t e = record {
  items =
      subst (Persists has_key Continues s.attention_items) (sym e)
        (Persists-refl has_key Continues-IsReflTrans s.attention_items);
}

pub Goes-IsPreorder : IsPreorder Goes
Goes-IsPreorder = record {
  same = λ s. Goes-same s s refl;
  then_ = λ s t u h k. record {
    items =
        Persists-trans has_key Continues-IsReflTrans s.attention_items t.attention_items
          u.attention_items h.items k.items;
  };
}

-- An update of the item under one key, which was found.
set_item-Goes :
    (key : String) (f : AttentionRow → AttentionRow) (r : AttentionRow) (s : Store)
    → find (has_key key) s.attention_items ≡ some r
    → ((x : AttentionRow) → (f x).dedupe_key ≡ x.dedupe_key)
    → Continues r (f r)
    → Goes s (set_item key f s)
set_item-Goes key f r s found keeps step = record {
  items =
      Persists-update has_key Continues-IsReflTrans (has_key key) f s.attention_items
        (λ k x. rw (keeps x) refl)
        λ k x e p.
          subst (λ y. Continues y (f y))
            (sym (same_found attention_key key k x r s.attention_items e p found)) step;
}

module _ (g : Signal) (r : AttentionRow) where
  reopened-Continues : r.last_seen_at ≤ g.observed_at → Continues r (reopened g r)
  reopened-Continues newer = ground arith

  unacknowledged-Continues :
      r.last_seen_at ≤ g.observed_at
      → is_acknowledged r.state ≡ true
      → Continues r (unacknowledged g r)
  unacknowledged-Continues newer a = ground arith

  seen_again-Continues : r.last_seen_at ≤ g.observed_at → Continues r (seen_again g r)
  seen_again-Continues newer = ground arith

  refreshed-Continues : is_outdated g r ≡ false → Continues r (refreshed g r r)
  refreshed-Continues fresh =
      let newer : r.last_seen_at ≤ g.observed_at = ground arith in
      if-holds (λ (f : AttentionRow → AttentionRow). Continues r (f r))
        (not (r.evidence_digest == g.evidence_digest)) (reopened g)
        (if is_acknowledged r.state then unacknowledged g else seen_again g)
        (λ _. reopened-Continues newer)
        λ _.
          if-holds (λ (f : AttentionRow → AttentionRow). Continues r (f r))
            (is_acknowledged r.state) (unacknowledged g) (seen_again g)
            (unacknowledged-Continues newer) (λ _. seen_again-Continues newer)

refreshed-key : (g : Signal) (r x : AttentionRow) → (refreshed g r x).dedupe_key ≡ x.dedupe_key
refreshed-key g r x = ground arith

add_item-Goes : (r : AttentionRow) (s : Store) → item_clashes r s ≡ false → Goes s (add_item r s)
add_item-Goes r s clear = record {
  items = Persists-add has_key Continues-IsReflTrans r s.attention_items λ k h.
      let same : r.dedupe_key ≡ k = (eq_iff r.dedupe_key k).0 h in
      subst (λ j. any (has_key j) s.attention_items ≡ false) same (ground arith);
}

upsert_row-Goes :
    (g : Signal) (row : Option AttentionRow) (s : Store)
    → find (has_key g.dedupe_key) s.attention_items ≡ row
    → Goes s (upsert_row g row s).1
unfolding upsert_row
upsert_row-Goes g none s found =
    at-insert_row Goes-IsPreorder (item_clashes (new_item g)) (add_item (new_item g)) s
      (add_item-Goes (new_item g) s)
upsert_row-Goes g (some r) s found =
    if-holds (λ (m : Exec Store (Unit {0})). Goes s (m s).1) (is_outdated g r) skip
      (λ t. (ok tt, set_item g.dedupe_key (refreshed g r) t)) (λ _. Goes-same s s refl)
      λ fresh.
        set_item-Goes g.dedupe_key (refreshed g r) r s found (refreshed-key g r)
          (refreshed-Continues g r fresh)

pub upsert_attention-Goes : (g : Signal) → Respects Goes (upsert_attention g)
unfolding upsert_attention
upsert_attention-Goes g = record { at = λ s. upsert_row-Goes g _ s refl }

acted-Continues :
    (x : ActionInput) (at : ℕ) (r : AttentionRow)
    → is_resolved r.state ≡ false
    → Continues r (acted x at r)
acted-Continues x at r open_ = ground arith

acted-key : (x : ActionInput) (at : ℕ) (r : AttentionRow) → (acted x at r).dedupe_key ≡ r.dedupe_key
acted-key x at r = ground arith

pub write_action-Goes :
    (x : ActionInput) (at : ℕ) (key detail : String) (r : AttentionRow) (s : Store)
    → find (has_key x.dedupe_key) s.attention_items ≡ some r
    → is_resolved r.state ≡ false
    → Goes s (set_item x.dedupe_key (acted x at) (add_action (action_row x key detail at r) s))
write_action-Goes x at key detail r s found open_ =
    let s' = add_action (action_row x key detail at r) s in
    Goes-IsPreorder.then_ s s' (set_item x.dedupe_key (acted x at) s') (Goes-same s s' refl) (
      set_item-Goes x.dedupe_key (acted x at) r s' found (acted-key x at)
        (acted-Continues x at r open_))
