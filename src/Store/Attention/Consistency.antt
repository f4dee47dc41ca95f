-- ===== src/Store/Attention/Consistency.antt =====
-- The columns of an attention item agree with its state, and the update that it names is stored
-- (the methods of the attention inbox of src/researchctl/runtime/store.py).
use research_agent_ops.Base.{
  ℕ, ◌≤◌, String, ◌≡◌, refl, Bool, true, false, not, Option, none, some, List, ◌∷◌, ◌==◌, string_eq,
  find, any, All, All-map, IsKeyed, update-IsKeyed, update-All_keyed, arith, if-holds,
  if◌then◌else◌,
}
use research_agent_ops.Errors.{ok}
use research_agent_ops.Exec.{Exec, skip}
use research_agent_ops.Exec.Respects.{IsPreorder, Keep, Keep-IsPreorder}
use research_agent_ops.Store.Schema.{Store, AttentionRow, AttentionState, open_, snoozed, StatusRow}
use research_agent_ops.Store.Transaction.{at-insert_row}
use research_agent_ops.Store.Attention.{
  attention_key, has_key, has_update, Signal, new_item, item_clashes, add_item, reopened,
  unacknowledged, seen_again, refreshed, is_acknowledged, is_resolved, set_item, is_outdated,
  upsert_row, upsert_attention, ActionInput, acted, action_row, add_action,
}

abbrev pub is_some {ℓ} : {A : Type ℓ} → Option A → Bool
is_some none = false
is_some (some _) = true

abbrev pub is_snoozed : AttentionState → Bool
is_snoozed snoozed = true
is_snoozed _ = false

abbrev pub is_open : AttentionState → Bool
is_open open_ = true
is_open _ = false

pub record IsConsistent (r : AttentionRow) : Type 0 where
  pub counted : 1 ≤ r.generation
  pub seen : r.first_seen_at ≤ r.last_seen_at
  pub snooze : is_some r.snoozed_until ≡ is_snoozed r.state
  pub snoozer : is_some r.snoozed_by ≡ is_snoozed r.state
  pub resolution : is_some r.resolved_at ≡ is_resolved r.state
  pub reason : is_some r.resolution_reason ≡ is_resolved r.state
  pub acknowledgement : is_acknowledged r.state ≡ true → is_some r.acknowledged_at ≡ true
  pub unacknowledged : is_open r.state ≡ true → is_some r.acknowledged_at ≡ false

-- The row is consistent, and the update that it names is among those stored.
abbrev pub IsKept : List StatusRow → AttentionRow → Type 0
IsKept updates r = (any (has_update r.current_update_id) updates ≡ true) × IsConsistent r

pub record InboxWell (s : Store) : Type 0 where
  pub keyed : IsKeyed attention_key s.attention_items
  pub each : All (IsKept s.status_updates) s.attention_items

pub Keep-InboxWell-IsPreorder : IsPreorder (Keep InboxWell)
Keep-InboxWell-IsPreorder = Keep-IsPreorder InboxWell

-- An update that is stored stays stored when another is added.
pub add-InboxWell :
    (u : StatusRow) (s : Store)
    → InboxWell s
    → InboxWell (record s { status_updates = u ∷ s.status_updates })
add-InboxWell u s w = record {
  keyed = w.keyed;
  each = All-map (λ r h. (ground (arith, h.0), h.1)) s.attention_items w.each;
}

new_item-IsConsistent : (g : Signal) → IsConsistent (new_item g)
new_item-IsConsistent g = ground arith

module _ (g : Signal) (r : AttentionRow) (fresh : is_outdated g r ≡ false) where
  newer : r.last_seen_at ≤ g.observed_at
  newer = ground arith

  reopened-IsConsistent : IsConsistent r → IsConsistent (reopened g r)
  reopened-IsConsistent h = ground (arith, newer)

  unacknowledged-IsConsistent :
      is_acknowledged r.state ≡ true → IsConsistent r → IsConsistent (unacknowledged g r)
  unacknowledged-IsConsistent a h = ground (arith, newer)

  seen_again-IsConsistent : IsConsistent r → IsConsistent (seen_again g r)
  seen_again-IsConsistent h = ground (arith, newer)

  refreshed-IsConsistent : IsConsistent r → IsConsistent (refreshed g r r)
  refreshed-IsConsistent h =
      if-holds (λ (f : AttentionRow → AttentionRow). IsConsistent (f r))
        (not (r.evidence_digest == g.evidence_digest)) (reopened g)
        (if is_acknowledged r.state then unacknowledged g else seen_again g)
        (λ _. reopened-IsConsistent h)
        λ _.
          if-holds (λ (f : AttentionRow → AttentionRow). IsConsistent (f r))
            (is_acknowledged r.state) (unacknowledged g) (seen_again g)
            (λ a. unacknowledged-IsConsistent a h) (λ _. seen_again-IsConsistent h)

refreshed-update :
    (g : Signal) (existing r : AttentionRow)
    → (refreshed g existing r).current_update_id ≡ g.update_id
refreshed-update g existing r = ground arith

refreshed-key : (g : Signal) (r x : AttentionRow) → (refreshed g r x).dedupe_key ≡ x.dedupe_key
refreshed-key g r x = ground arith

-- A change of the item that a key finds.
set_item-InboxWell :
    (key : String) (f : AttentionRow → AttentionRow) (r : AttentionRow) (s : Store)
    → ((x : AttentionRow) → (f x).dedupe_key ≡ x.dedupe_key)
    → find (has_key key) s.attention_items ≡ some r
    → (IsKept s.status_updates r → IsKept s.status_updates (f r))
    → InboxWell s
    → InboxWell (set_item key f s)
set_item-InboxWell key f r s same found step w = record {
  keyed = update-IsKeyed attention_key (has_key key) f same s.attention_items w.keyed;
  each =
      update-All_keyed attention_key (IsKept s.status_updates) key f s.attention_items {x = r}
        w.keyed found step w.each;
}

upsert_row-InboxWell :
    (g : Signal) (row : Option AttentionRow) (s : Store)
    → any (has_update g.update_id) s.status_updates ≡ true
    → find (has_key g.dedupe_key) s.attention_items ≡ row
    → InboxWell s
    → InboxWell (upsert_row g row s).1
unfolding upsert_row
upsert_row-InboxWell g none s stored found =
    at-insert_row Keep-InboxWell-IsPreorder (item_clashes (new_item g)) (add_item (new_item g)) s
      λ clear w. record {
        keyed = (ground arith, w.keyed);
        each = ((stored, new_item-IsConsistent g), w.each);
      }
upsert_row-InboxWell g (some r) s stored found =
    if-holds (λ (m : Exec Store (Unit {0})). InboxWell s → InboxWell (m s).1) (is_outdated g r) skip
      (λ t. (ok tt, set_item g.dedupe_key (refreshed g r) t)) (λ _ w. w)
      λ fresh.
        set_item-InboxWell g.dedupe_key (refreshed g r) r s (refreshed-key g r) found
          λ h. (rw (refreshed-update g r r) stored, refreshed-IsConsistent g r fresh h.1)

pub upsert_attention-InboxWell :
    (g : Signal) (s : Store)
    → any (has_update g.update_id) s.status_updates ≡ true
    → InboxWell s
    → InboxWell (upsert_attention g s).1
unfolding upsert_attention
upsert_attention-InboxWell g s stored = upsert_row-InboxWell g _ s stored refl

acted-IsKept :
    (x : ActionInput) (at : ℕ) (updates : List StatusRow) (r : AttentionRow)
    → is_resolved r.state ≡ false
    → IsKept updates r
    → IsKept updates (acted x at r)
acted-IsKept x at updates r live h = ground arith

acted-key : (x : ActionInput) (at : ℕ) (r : AttentionRow) → (acted x at r).dedupe_key ≡ r.dedupe_key
acted-key x at r = ground arith

pub write_action-InboxWell :
    (x : ActionInput) (at : ℕ) (key detail : String) (r : AttentionRow) (s : Store)
    → find (has_key x.dedupe_key) s.attention_items ≡ some r
    → is_resolved r.state ≡ false
    → Keep InboxWell s
        (set_item x.dedupe_key (acted x at) (add_action (action_row x key detail at r) s))
write_action-InboxWell x at key detail r s found live w =
    set_item-InboxWell x.dedupe_key (acted x at) r (add_action (action_row x key detail at r) s)
      (acted-key x at) found (acted-IsKept x at s.status_updates r live)
      (record { keyed = w.keyed; each = w.each })
