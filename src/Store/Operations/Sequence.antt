-- ===== src/Store/Operations/Sequence.antt =====
-- The sequence numbers of a journal, and the constraints on the table of events (the journal of
-- src/researchctl/runtime/store.py).
use research_agent_ops.Base.{
  ℕ, ◌≤◌, String, ◌≡◌, refl, ◌∙◌, subst, true, false, ◌&&◌, Option, List, [], ◌∷◌, ◌==◌, nat_eq,
  string_eq, arith, any, count, update, All, All-map, eq_iff, String-cases, inl, inr,
}
use research_agent_ops.Store.Schema.{Store, OperationRow, OperationEvent, JsonText}
use research_agent_ops.Store.Operations.{
  has_id, of_operation, next_sequence, event_clashes, add_event, add_operation, mark_finished,
  finished,
}

abbrev IsRootedIn : List OperationRow → OperationEvent → Type 0
IsRootedIn rows e = any (has_id e.operation_id) rows ≡ true

-- Every event is of an operation that is there, and the next sequence number of each operation is
-- the number of its events.
pub record IsSound (s : Store) : Type 0 where
  pub rooted : All (IsRootedIn s.operations) s.operation_events
  pub dense :
      (id : String)
      → next_sequence id s.operation_events ≡ count (of_operation id) s.operation_events

-- No event has the next sequence number, or a later one.
next_sequence_fresh :
    (id : String) (n : ℕ) (events : List OperationEvent)
    → next_sequence id events ≤ n
    → any (λ e. of_operation id e && e.sequence == n) events ≡ false
unfolding next_sequence
next_sequence_fresh id n [] h = refl
next_sequence_fresh id n (e ∷ events) h = ground (arith, next_sequence_fresh id n events)

-- An operation that is not there has no events.
pub next_sequence_new :
    (id : String) (rows : List OperationRow) (events : List OperationEvent)
    → All (IsRootedIn rows) events
    → any (has_id id) rows ≡ false
    → next_sequence id events ≡ 0
unfolding next_sequence
next_sequence_new id rows [] h new = refl
next_sequence_new id rows (e ∷ events) h new = elim (String-cases e.operation_id id) [
  | inl same ↦ cc (subst (λ i. any (has_id i) rows ≡ true) same h.0)
  | inr other ↦ rw other (next_sequence_new id rows events h.1 new)
]

pub add_event-IsSound :
    (e : OperationEvent) (s : Store)
    → IsSound s
    → any (has_id e.operation_id) s.operations ≡ true
    → e.sequence ≡ next_sequence e.operation_id s.operation_events
    → IsSound (add_event e s)
unfolding next_sequence
add_event-IsSound e s h there next = record {
  rooted = (there, h.rooted);
  dense = λ id. elim (String-cases e.operation_id id) [
    | inl same ↦ ground (
      arith,
      eq_iff e.operation_id id,
      h.dense id,
      subst (λ i. e.sequence ≡ next_sequence i s.operation_events) same next,
    )
    | inr other ↦ rw other (h.dense id)
  ];
}

pub event_fits :
    (e : OperationEvent) (s : Store)
    → any (has_id e.operation_id) s.operations ≡ true
    → e.sequence ≡ next_sequence e.operation_id s.operation_events
    → event_clashes e s ≡ false
event_fits e s there next =
    ground (arith, next_sequence_fresh e.operation_id e.sequence s.operation_events)

IsRootedIn-cons :
    (row : OperationRow) (rows : List OperationRow) (e : OperationEvent)
    → IsRootedIn rows e
    → IsRootedIn (row ∷ rows) e
IsRootedIn-cons row rows e h = ground arith

pub add_operation-IsSound :
    (row : OperationRow) (s : Store) → IsSound s → IsSound (add_operation row s)
add_operation-IsSound row s h = record {
  rooted = All-map (IsRootedIn-cons row s.operations) s.operation_events h.rooted;
  dense = h.dense;
}

any-update :
    (id j : String) (at : ℕ) (result : String) (stored : Option JsonText) (rows : List OperationRow)
    → any (has_id j) (update (has_id id) (finished at result stored) rows) ≡ any (has_id j) rows
any-update id j at result stored [] = refl
any-update id j at result stored (row ∷ rows) =
    ground (arith, any-update id j at result stored rows)

pub mark_finished-IsSound :
    (id : String) (at : ℕ) (result : String) (stored : Option JsonText) (s : Store)
    → IsSound s
    → IsSound (mark_finished id at result stored s).1
unfolding mark_finished
mark_finished-IsSound id at result stored s h = record {
  rooted =
      All-map (λ e r. any-update id e.operation_id at result stored s.operations ∙ r)
        s.operation_events h.rooted;
  dense = h.dense;
}
