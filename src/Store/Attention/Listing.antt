-- ===== src/Store/Attention/Listing.antt =====
-- What `list_inbox` of src/researchctl/runtime/store.py returns.
use Prim.Native.String.{compare}
use text.Mathlib.Text.{is_le}
use mathlib.Core.List.{Perm}
use mathlib.Core.List.Perm
use research_agent_ops.Base.{
  ℕ, ◌≤◌, ◌<◌, ◌⊎◌, some, not, ltb, nat_eq, eq_iff, ◌++◌, All-map, select-holds, select-fails,
  select-perm, IsOrdered, IsSorted-IsOrdered, Bool-cases, String, ◌≡◌, refl, Bool, true, false,
  List, [], ◌∷◌, map, find, select, All, select-All, sort_by, sort_by-IsSorted, sort_by-perm,
  sort_by-All, arith, is_le_total, Option-cases, inl, inr, ◌∙◌, find-none, find-holds, ap,
  string_eq,
}
use research_agent_ops.Errors.{ok}
use research_agent_ops.Store.Schema.{
  Store, AttentionRow, AttentionState, open_, acknowledged, snoozed, resolved, Datetime,
}
use research_agent_ops.Store.Checks.{encode_time}
use research_agent_ops.Store.Transaction.{read_lock, read_lock-ok}
use research_agent_ops.Exec.{◌>>=◌}
use research_agent_ops.Exec.Inversion.{bind_step, check_step}
use research_agent_ops.Store.Attention.{
  has_update, is_more_urgent, is_listed, is_due, inbox_rows, items_from, attention_from_row,
  AttentionItem, list_inbox,
}
use research_agent_ops.Store.Attention.Consistency.{InboxWell, IsKept}

is_more_urgent_total : (a b : AttentionRow) → is_more_urgent a b ≡ false → is_more_urgent b a ≡ true
is_more_urgent_total a b h = ground (arith, is_le_total a.dedupe_key b.dedupe_key)

-- The rows of the answer are those asked for.
items_from-map :
    (rows : List AttentionRow) (s : Store)
    → All (IsKept s.status_updates) rows
    → (items : List AttentionItem) × (items_from rows s ≡ (ok items, s))
      × (map (λ (i : AttentionItem). i.row) items ≡ rows)
      × All (λ i. i.current_update.update_id ≡ i.row.current_update_id) items
unfolding items_from attention_from_row
items_from-map [] s h = ([], refl, refl, tt)
items_from-map (r ∷ rows) s h =
    let (items, e, m, named) = items_from-map rows s h.1 in
    elim (Option-cases (find (has_update r.current_update_id) s.status_updates)) [
      | inl missing ↦ absurd (
          ground
            (arith, h.0.0, find-none (has_update r.current_update_id) s.status_updates missing))
      | inr (u, found) ↦ (
        record { row = r; current_update = u } ∷ items,
        rw (found, e) refl,
        ap (λ (l : List AttentionRow). r ∷ l) m,
        (
          (eq_iff u.update_id r.current_update_id).0
              (find-holds (has_update r.current_update_id) s.status_updates found),
          named,
        ),
      )
    ]

-- ## What is asked for
-- A row that waits for somebody: open, acknowledged, or snoozed until a time that has come.
abbrev pub IsDue : ℕ → AttentionRow → Type 0
IsDue now r =
    (r.state ≡ open_)
    ⊎ ((r.state ≡ acknowledged)
        ⊎ ((r.state ≡ snoozed) × ((t : ℕ) × (r.snoozed_until ≡ some t) × (t ≤ now))))

pub record IsWanted (project_id : String) (now : ℕ) (include_resolved : Bool) (r : AttentionRow)
    : Type 0 where
  pub same_project : r.project_id ≡ project_id
  pub due : (include_resolved ≡ true) ⊎ IsDue now r

-- The order of priority, then of the time last seen, then of the key.
abbrev pub ComesFirst : AttentionRow → AttentionRow → Type 0
ComesFirst a b =
    (a.priority < b.priority)
    ⊎ ((a.priority ≡ b.priority)
        × ((a.last_seen_at < b.last_seen_at)
            ⊎ ((a.last_seen_at ≡ b.last_seen_at)
                × (is_le (compare a.dedupe_key b.dedupe_key) ≡ true))))

-- Items that answer a query of the stored rows: the rows of the items are those wanted, each as often as
-- it is stored, in order, and each comes with the update that it names.
pub record Answers (items : List AttentionItem) (Wanted : AttentionRow → Type 0) (s : Store)
    : Type 0 where
  pub others : List AttentionRow
  pub same_rows : Perm (map (λ (i : AttentionItem). i.row) items ++ others) s.attention_items
  pub wanted : All Wanted (map (λ (i : AttentionItem). i.row) items)
  pub unwanted : All (λ r. ¬ Wanted r) others
  pub in_order : IsOrdered ComesFirst (map (λ (i : AttentionItem). i.row) items)
  pub named : All (λ i. i.current_update.update_id ≡ i.row.current_update_id) items

is_more_urgent-ComesFirst : (a b : AttentionRow) → is_more_urgent a b ≡ true → ComesFirst a b
is_more_urgent-ComesFirst a b h = elim (Bool-cases (ltb a.priority b.priority)) [
  | inl e ↦ inl (ground arith)
  | inr e ↦ inr (
    ground arith,
    elim (Bool-cases (ltb a.last_seen_at b.last_seen_at)) [
      | inl f ↦ inl (ground arith)
      | inr f ↦ inr (ground arith, ground arith)
    ],
  )
]

state_cases :
    (a : AttentionState) → (a ≡ open_) ⊎ ((a ≡ acknowledged) ⊎ ((a ≡ snoozed) ⊎ (a ≡ resolved)))
state_cases open_ = inl refl
state_cases acknowledged = inr (inl refl)
state_cases snoozed = inr (inr (inl refl))
state_cases resolved = inr (inr (inr refl))

is_due-IsDue : (now : ℕ) (r : AttentionRow) → is_due now r ≡ true → IsDue now r
is_due-IsDue now r h = elim (state_cases r.state) [
  | inl e ↦ inl e
  | inr (inl e) ↦ inr (inl e)
  | inr (inr (inl e)) ↦ elim (Option-cases r.snoozed_until) [
    | inl never ↦ absurd (ground (arith, e, never))
    | inr (t, until) ↦ inr (inr (e, (t, until, ground (arith, e, until))))
  ]
  | inr (inr (inr e)) ↦ absurd (ground (arith, e))
]

IsDue-is_due : (now : ℕ) (r : AttentionRow) → IsDue now r → is_due now r ≡ true
IsDue-is_due now r (inl e) = rw e refl
IsDue-is_due now r (inr (inl e)) = rw e refl
IsDue-is_due now r (inr (inr (e, (t, f, g)))) = rw (e, f) (ground (arith, g))

module _ (project_id : String) (now : ℕ) (r : AttentionRow) where
  is_listed-IsWanted :
      (all : Bool) → is_listed project_id now all r ≡ true → IsWanted project_id now all r
  is_listed-IsWanted true h = record {
    same_project = (eq_iff r.project_id project_id).0 (ground arith);
    due = inl refl;
  }
  is_listed-IsWanted false h = record {
    same_project = (eq_iff r.project_id project_id).0 (ground arith);
    due = inr (is_due-IsDue now r (ground arith));
  }

  IsWanted-is_listed :
      (all : Bool) → IsWanted project_id now all r → is_listed project_id now all r ≡ true
  IsWanted-is_listed true w = rw ((eq_iff r.project_id project_id).1 w.same_project) refl
  IsWanted-is_listed false w = elim w.due [
    | inl e ↦ absurd (cc e)
    | inr due ↦ rw ((eq_iff r.project_id project_id).1 w.same_project) (IsDue-is_due now r due)
  ]

listed :
    (asks : AttentionRow → Bool) (Wanted : AttentionRow → Type 0)
    → ((r : AttentionRow) → asks r ≡ true → Wanted r)
    → ((r : AttentionRow) → Wanted r → asks r ≡ true)
    → (s : Store) → All (IsKept s.status_updates) s.attention_items
    → (items : List AttentionItem) × (items_from
          (sort_by is_more_urgent (select asks s.attention_items))
          s
        ≡ (ok items, s))
      × Answers items Wanted s
listed asks Wanted sound complete s h =
    let rows = select asks s.attention_items in
    let others = select (λ r. not (asks r)) s.attention_items in
    let (items, e, m, named) = items_from-map (sort_by is_more_urgent rows) s (
      sort_by-All is_more_urgent (IsKept s.status_updates) rows
        (select-All (IsKept s.status_updates) asks s.attention_items h)) in
    (
      items,
      e,
      record {
        others = others;
        same_rows = rw m (
            Perm.trans (Perm.append_right others (sort_by-perm is_more_urgent rows))
              (select-perm asks s.attention_items));
        wanted = rw m (
            sort_by-All is_more_urgent Wanted rows
              (All-map sound rows (select-holds asks s.attention_items)));
        unwanted =
            All-map (λ r f w. cc (complete r w)) others (select-fails asks s.attention_items);
        in_order = rw m (
            IsSorted-IsOrdered ComesFirst is_more_urgent is_more_urgent-ComesFirst
              (sort_by is_more_urgent rows)
              (sort_by-IsSorted is_more_urgent is_more_urgent_total rows));
        named = named;
      },
    )

encode_time-ok : (t : Datetime) → t.aware ≡ true → encode_time t ≡ ok t.instant
unfolding encode_time
encode_time-ok t aware = rw aware

-- On an open store with a well kept inbox, at a time with an offset, list_inbox returns, and leaves
-- the store as it is: the rows of the items that it returns are those of the project that are open,
-- acknowledged, or snoozed until a time that has come, or all of the project if resolved items are
-- included, each as often as it is stored, in the order of priority, then of the time last seen, then
-- of the key; and each comes with an update that has the ID that it names.
pub lists_inbox :
    (project_id : String) (now : Datetime) (include_resolved : Bool) (s : Store)
    → s.closed ≡ false
    → now.aware ≡ true
    → InboxWell s
    → (items : List AttentionItem) × (list_inbox project_id now include_resolved s ≡ (ok items, s))
      × Answers items (IsWanted project_id now.instant include_resolved) s
unfolding list_inbox inbox_rows
lists_inbox project_id now true s opened aware w =
    let (items, e, a) =
      listed (is_listed project_id now.instant true) (IsWanted project_id now.instant true)
        (λ r. is_listed-IsWanted project_id now.instant r true)
        (λ r. IsWanted-is_listed project_id now.instant r true) s w.each in
    (
      items,
      bind_step (read_lock (inbox_rows project_id 0 true)) items_from s
            (read_lock-ok (inbox_rows project_id 0 true) s opened)
          ∙ e,
      a,
    )
lists_inbox project_id now false s opened aware w =
    let (items, e, a) =
      listed (is_listed project_id now.instant false) (IsWanted project_id now.instant false)
        (λ r. is_listed-IsWanted project_id now.instant r false)
        (λ r. IsWanted-is_listed project_id now.instant r false) s w.each in
    (
      items,
      check_step (encode_time now) (λ at. read_lock (inbox_rows project_id at false) >>= items_from)
            s (encode_time-ok now aware)
          ∙ bind_step (read_lock (inbox_rows project_id now.instant false)) items_from s
              (read_lock-ok (inbox_rows project_id now.instant false) s opened)
          ∙ e,
      a,
    )
