-- ===== src/Store/Operations/Settled.antt =====
-- A later row of a stored operation, and its events (the journal of
-- src/researchctl/runtime/store.py).
use research_agent_ops.Base.{
  ℕ, String, ◌≡◌, refl, ◌∙◌, subst, true, false, Option, some, List, ◌∷◌, ◌==◌, string_eq, find,
  any, any-or_left, select, update, any-of_find, find-update_self, find-update_other, String-cases,
  inl, inr, eq_iff,
}
use research_agent_ops.Exec.Respects.{IsPreorder}
use research_agent_ops.Store.Schema.{
  Store, OperationRow, OperationEvent, JsonText, running, terminal,
}
use research_agent_ops.Store.Transaction.{at-insert_row}
use research_agent_ops.Store.Operations.{
  has_id, of_operation, insert_event, mark_finished, finished, operation_clashes, add_operation,
  event_clashes, add_event, has_request,
}

-- The columns that no method changes.
abbrev pub identity : OperationRow → String × String × String × String × String × ℕ
identity row = (
  row.operation_id, row.project_id, row.command, row.idempotency_key, row.request_digest,
  row.started_at,
)

-- What happens to one row, and to its events.
pub record Continues (old new : OperationRow) (before after : List OperationEvent) : Type 0 where
  pub same_identity : identity new ≡ identity old
  pub settled : old.state ≡ terminal → new ≡ old
  pub quiet : old.state ≡ terminal → after ≡ before

pub record Extends (s t : Store) : Type 0 where
  pub continues :
      (id : String) (row : OperationRow)
      → find (has_id id) s.operations ≡ some row
      → (row' : OperationRow) × (find (has_id id) t.operations ≡ some row')
        × Continues row row'
            (select (of_operation id) s.operation_events)
            (select (of_operation id) t.operation_events)

Continues-refl :
    (row : OperationRow) (events : List OperationEvent) → Continues row row events events
Continues-refl row events = record { same_identity = refl; settled = λ h. refl; quiet = λ h. refl }

Continues-trans :
    (a b c : OperationRow) (u v w : List OperationEvent)
    → Continues a b u v
    → Continues b c v w
    → Continues a c u w
Continues-trans a b c u v w h k = record {
  same_identity = k.same_identity ∙ h.same_identity;
  settled = λ e. k.settled (rw (h.settled e) e) ∙ h.settled e;
  quiet = λ e. k.quiet (rw (h.settled e) e) ∙ h.quiet e;
}

pub Extends-refl : (s : Store) → Extends s s
Extends-refl s = record { continues = λ id row h. (row, h, Continues-refl row _) }

pub Extends-trans : (s t u : Store) → Extends s t → Extends t u → Extends s u
Extends-trans s t u h k = record {
  continues = λ id row e.
      let (row', e', c) = h.continues id row e in
      let (row'', e'', d) = k.continues id row' e' in
      (row'', e'', Continues-trans row row' row'' _ _ _ c d);
}

pub Extends-IsPreorder : IsPreorder Extends
Extends-IsPreorder = record { same = Extends-refl; then_ = Extends-trans }

-- A row whose ID is new hides no row.
insert_new :
    (row : OperationRow) (rows : List OperationRow) (id : String) {old : OperationRow}
    → any (has_id row.operation_id) rows ≡ false
    → find (has_id id) rows ≡ some old
    → find (has_id id) (row ∷ rows) ≡ some old
insert_new row rows id new h = elim (String-cases row.operation_id id) [
  | inl e ↦ cc (rw e at new, any-of_find (has_id id) rows h)
  | inr e ↦ rw e h
]

pub add_operation-Extends :
    (row : OperationRow) (s : Store)
    → operation_clashes row s ≡ false
    → Extends s (add_operation row s)
add_operation-Extends row s clear = record {
  continues = λ id old e. (
    old,
    insert_new row s.operations id
        (any-or_left (has_id row.operation_id)
          (has_request row.project_id row.command row.idempotency_key) s.operations clear)
        e,
    Continues-refl old _,
  );
}

-- Whatever row has this ID is of a running operation.
abbrev pub IsLive : String → Store → Type 0
IsLive id s = (row : OperationRow) → find (has_id id) s.operations ≡ some row → row.state ≡ running

IsLive-not-terminal :
    (id j : String) (s : Store) {row : OperationRow}
    → IsLive id s
    → id ≡ j
    → find (has_id j) s.operations ≡ some row
    → ¬ (row.state ≡ terminal)
IsLive-not-terminal id j s {row} live same e t = cc (live row (rw same e))

-- One more event of a running operation.
pub insert_event-Extends :
    (event : OperationEvent) (s : Store)
    → IsLive event.operation_id s
    → Extends s (insert_event event s).1
unfolding insert_event
insert_event-Extends event s live =
    at-insert_row Extends-IsPreorder (event_clashes event) (add_event event) s λ _. record {
      continues = λ id row e. (
        row,
        e,
        record {
          same_identity = refl;
          settled = λ t. refl;
          quiet = λ t. elim (String-cases event.operation_id id) [
            | inl same ↦ absurd (IsLive-not-terminal event.operation_id id s live same e t)
            | inr other ↦ rw other
          ];
        },
      );
    }

has_id-exclusive :
    (id j : String)
    → (id == j) ≡ false
    → (row : OperationRow) → has_id id row ≡ true
    → has_id j row ≡ false
has_id-exclusive id j other row h = rw ((eq_iff row.operation_id id).0 h) other

pub mark_finished-Extends :
    (id : String) (at : ℕ) (result : String) (stored : Option JsonText) (s : Store)
    → IsLive id s
    → Extends s (mark_finished id at result stored s).1
unfolding mark_finished
mark_finished-Extends id at result stored s live = record {
  continues = λ j row e. elim (String-cases id j) [
    | inl same ↦ (
      finished at result stored row,
      subst
          (λ k.
            find (has_id k) (update (has_id id) (finished at result stored) s.operations)
            ≡ some (finished at result stored row))
          same
          (find-update_self (has_id id) (finished at result stored) s.operations {x = row}
            (λ y h. h) (rw same e)),
      record {
        same_identity = refl;
        settled = λ t. absurd (IsLive-not-terminal id j s live same e t);
        quiet = λ t. refl;
      },
    )
    | inr other ↦ (
      row,
      find-update_other (has_id j) (has_id id) (finished at result stored) s.operations
            (λ y h. (has_id-exclusive id j other y h, has_id-exclusive id j other y h))
          ∙ e,
      Continues-refl row _,
    )
  ];
}
