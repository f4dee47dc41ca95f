-- ===== src/Store/Delivery/Settled.antt =====
-- A delivery that has ended, under the methods of delivery (`claim_linear_delivery`,
-- `finish_linear_delivery`, `enqueue_linear_projection` of src/researchctl/runtime/store.py).
pub mod Claim
pub mod Enqueue
pub mod Outcome
pub mod History
use research_agent_ops.Base.{
  any-sort_by, sort_by, ◌∙◌, ℕ, ◌+◌, ◌*◌, String, ◌≡◌, refl, sym, ◌∙◌, Bool, true, false, ◌&&◌,
  ◌||◌, not, Option, none, some, List, [], ◌∷◌, ◌++◌, ◌==◌, string_eq, find, any, select, update,
  delete, All, update-All, find-holds, any-of_find, find-update_other, Bool-cases, inl, inr, eq_iff,
  arith, if-holds, leb, if◌then◌else◌,
}
use research_agent_ops.Errors.{ok}
use research_agent_ops.Json.{Json, Fields}
use research_agent_ops.Exec.Respects.{
  Keep, Keep-IsPreorder, Respects, Respects-bind, Respects-raise_if, at-bind, at-or_raise,
  at-raise_if, at-bind_here,
}
use research_agent_ops.Store.Schema.{Store, OutboxRow, OutboxState, ClaimRow, DeliveryStatusRow}
use research_agent_ops.Store.Replies.{reply_topic}
use research_agent_ops.Store.Notifications.{has_outbox}
use research_agent_ops.Store.Delivery.{
  accepted_topic, DeliveryTable, projection_table, reply_table, delivery_table, rows_of, holds,
  has_claim, is_waiting, is_candidate, is_queued_before, candidates, selected, is_unclaimed,
  with_state, set_delivery_state,
}

-- The topic of the rows of a table.
abbrev pub topic_of : DeliveryTable → String
topic_of projection_table = accepted_topic
topic_of reply_table = reply_topic

abbrev pub is_open : String → OutboxRow → Bool
is_open id r = has_outbox id r && is_waiting r.state

abbrev names : String → String → OutboxRow → Bool
names topic id r = r.topic == topic && r.outbox_id == id

abbrev pub HasTopic : String → OutboxRow → Type 0
HasTopic topic r = r.topic ≡ topic

-- The row `r` of the table stands in the store, no row with its ID waits there, no lease is on it, and
-- each row has the topic of its table.
pub record Settled (t : DeliveryTable) (r : OutboxRow) (s : Store) : Type 0 where
  pub stored : find (has_outbox r.outbox_id) (rows_of t s) ≡ some r
  pub shut : any (is_open r.outbox_id) (rows_of t s) ≡ false
  pub unheld : any (holds (topic_of t) r.outbox_id) s.claims ≡ false
  pub projections : All (HasTopic accepted_topic) s.projection_outbox
  pub replies : All (HasTopic reply_topic) s.reply_outbox

-- ## Lists
module _ {A : Type 0} (p : A → Bool) where
  pub any-find :
      (q : A → Bool) (xs : List A) {x : A} → find q xs ≡ some x → any p xs ≡ false → p x ≡ false
  any-find q [] h k = cc
  any-find q (y ∷ xs) {x} h k = elim (Bool-cases (q y)) [
    | inl e ↦ let same : y ≡ x = ground arith in rw (← same) (ground arith)
    | inr e ↦ any-find q xs {x = x} (ground arith) (ground arith)
  ]

  any-append : (xs ys : List A) → any p xs ≡ false → any p ys ≡ false → any p (xs ++ ys) ≡ false
  any-append [] ys h k = k
  any-append (x ∷ xs) ys h k = ground (arith, any-append xs ys)

  pub any-delete_shut :
      (q : A → Bool) (xs : List A) → any p xs ≡ false → any p (delete q xs) ≡ false
  any-delete_shut q [] h = refl
  any-delete_shut q (x ∷ xs) h = ground (arith, any-delete_shut q xs)

  pub any-update_shut :
      (q : A → Bool) (f : A → A) (xs : List A)
      → ((x : A) → q x ≡ true → p (f x) ≡ false)
      → any p xs ≡ false
      → any p (update q f xs) ≡ false
  any-update_shut q f [] k h = refl
  any-update_shut q f (x ∷ xs) k h = elim (Bool-cases (q x)) [
    | inl e ↦ rw (e, k x e) (any-update_shut q f xs k (ground arith))
    | inr e ↦ rw e (ground (arith, any-update_shut q f xs k))
  ]

-- ## What may be claimed
any-select_own :
    (project_id topic id : String) (xs : List OutboxRow)
    → any (is_open id) xs ≡ false
    → any (names topic id) (select (is_candidate project_id) xs) ≡ false
any-select_own project_id topic id [] h = refl
any-select_own project_id topic id (x ∷ xs) h =
    ground (arith, any-select_own project_id topic id xs)

any-select_other :
    (project_id topic other id : String) (xs : List OutboxRow)
    → (other == topic) ≡ false
    → All (HasTopic other) xs
    → any (names topic id) (select (is_candidate project_id) xs) ≡ false
any-select_other project_id topic other id [] apart a = refl
any-select_other project_id topic other id (x ∷ xs) apart a =
    let here : (x.topic == topic) ≡ false = rw a.0 apart in
    ground (arith, any-select_other project_id topic other id xs)

any-queued :
    (p : OutboxRow → Bool) (xs ys : List OutboxRow)
    → any p xs ≡ false
    → any p ys ≡ false
    → any p (sort_by is_queued_before (xs ++ ys)) ≡ false
any-queued p xs ys h k = any-sort_by p is_queued_before (xs ++ ys) ∙ any-append p xs ys h k

candidates_shut :
    (project_id : String) (t : DeliveryTable) (r : OutboxRow) (s : Store)
    → Settled t r s
    → any (names (topic_of t) r.outbox_id) (candidates project_id s) ≡ false
unfolding candidates
candidates_shut project_id projection_table r s h =
    any-queued (names accepted_topic r.outbox_id)
      (select (is_candidate project_id) s.projection_outbox)
      (select (is_candidate project_id) s.reply_outbox)
      (any-select_own project_id accepted_topic r.outbox_id s.projection_outbox h.shut)
      (any-select_other project_id accepted_topic reply_topic r.outbox_id s.reply_outbox refl
        h.replies)
candidates_shut project_id reply_table r s h =
    any-queued (names reply_topic r.outbox_id)
      (select (is_candidate project_id) s.projection_outbox)
      (select (is_candidate project_id) s.reply_outbox)
      (any-select_other project_id reply_topic accepted_topic r.outbox_id s.projection_outbox refl
        h.projections)
      (any-select_own project_id reply_topic r.outbox_id s.reply_outbox h.shut)

-- What is selected is another delivery.
pub selected-other :
    (project_id : String) (t : DeliveryTable) (r : OutboxRow) (s : Store) {x : OutboxRow}
    → Settled t r s
    → selected project_id s ≡ some x
    → names (topic_of t) r.outbox_id x ≡ false
unfolding selected
selected-other project_id t r s {x} h found =
    any-find (names (topic_of t) r.outbox_id) (is_unclaimed s.claims) (candidates project_id s)
      {x = x} found (candidates_shut project_id t r s h)

-- ## Writes aside
module _ (t : DeliveryTable) (r : OutboxRow) where
  abbrev pub Stays : Store → Store → Type 0
  Stays = Keep (Settled t r)

  rows_same :
      (k : DeliveryTable) (s u : Store)
      → u.projection_outbox ≡ s.projection_outbox
      → u.reply_outbox ≡ s.reply_outbox
      → rows_of k u ≡ rows_of k s
  rows_same projection_table s u p q = p
  rows_same reply_table s u p q = q

  -- A write that leaves the outboxes as they are, and no lease on the row.
  pub requeued :
      (s u : Store)
      → u.projection_outbox ≡ s.projection_outbox
      → u.reply_outbox ≡ s.reply_outbox
      → any (holds (topic_of t) r.outbox_id) u.claims ≡ false
      → Stays s u
  requeued s u p q free h = record {
    stored = rw (rows_same t s u p q) h.stored;
    shut = rw (rows_same t s u p q) h.shut;
    unheld = free;
    projections = rw p h.projections;
    replies = rw q h.replies;
  }

  pub fewer_claims :
      (p : ClaimRow → Bool) (s : Store) → Stays s (record s { claims = delete p s.claims })
  fewer_claims p s h =
      requeued s _ refl refl (any-delete_shut (holds (topic_of t) r.outbox_id) p s.claims h.unheld)
        h
