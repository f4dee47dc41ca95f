-- ===== src/Store/Delivery/Ended.antt =====
-- What a claim, and the outcome of a claim, leave where they return (`claim_linear_delivery`,
-- `finish_linear_delivery` of src/researchctl/runtime/store.py).
use mathlib.Core.Option.{some-injective}
use research_agent_ops.Base.{
  ltb, select, sort_by, any-sort_by, All, All-map, ◌++◌, subst, ◌+◌, ◌*◌, ℕ, String, ◌≡◌, refl, sym,
  ◌∙◌, ap, Bool, true, false, not, Option, none, some, List, [], ◌∷◌, ◌==◌, ◌&&◌, string_eq, find,
  any, update, delete, find-none, find-holds, Bool-cases, inl, inr, eq_iff, arith, leb,
}
use research_agent_ops.Json.{Json, Fields}
use research_agent_ops.Errors.{
  Result, ok, err, linear_delivery_claim_conflict, linear_delivery_claim_not_found, value_error,
}
use research_agent_ops.Exec.{lift}
use research_agent_ops.Exec.Inversion.{bind-ok, raise_if-ok, or_raise-ok}
use research_agent_ops.Store.Schema.{Store, Datetime, OutboxRow, OutboxState, ClaimRow}
use research_agent_ops.Store.Notifications.{has_outbox}
use research_agent_ops.Store.Checks.{encode_time, require_text}
use research_agent_ops.Store.Transaction.{write_transaction-ok, insert_row}
use research_agent_ops.Store.Delivery.{
  DeliveryTable, projection_table, reply_table, delivery_table, rows_of, delivery_outbox,
  DeliveryClaim, holds, has_claim, with_state, set_delivery_state, count_attempt, release,
  optional_receipt, finish_claim, stored_state, finish_delivery_body, finish_linear_delivery,
  claim_linear_delivery, claim_body, claim_row, claim_of, claim_clashes, add_claim, claim_selected,
  selected, candidates, is_candidate, is_waiting, is_unclaimed, is_queued_before, expire_claims,
  check_claim, is_outcome, differ, has_receipt,
}
use research_agent_ops.Store.Delivery.Settled.{any-delete_shut}
use research_agent_ops.Store.Delivery.Receipts.{insert_receipt-LeavesQueue, LeavesQueue}

-- No lease is under the claim ID.
abbrev pub IsFree : String → Store → Type 0
IsFree claim_id s = any (λ c. c.claim_id == claim_id) s.claims ≡ false

-- An outbox has the row under its ID, in the state.
pub record IsStored (state : OutboxState) (r : OutboxRow) (s : Store) : Type 0 where
  pub table : DeliveryTable
  pub stored : find (λ o. o.outbox_id == r.outbox_id) (rows_of table s) ≡ some r
  pub in_state : r.state ≡ state

any-delete_self : {A : Type 0} (p : A → Bool) (xs : List A) → any p (delete p xs) ≡ false
any-delete_self p [] = refl
any-delete_self p (x ∷ xs) = ground (arith, any-delete_self p xs)

updated_state :
    (id : String) (state : OutboxState) (xs : List OutboxRow) {r : OutboxRow}
    → find (has_outbox id) (update (has_outbox id) (with_state state) xs) ≡ some r
    → (r.state ≡ state) × (r.outbox_id ≡ id)
updated_state id state [] h = cc
updated_state id state (x ∷ xs) {r} h = elim (Bool-cases (has_outbox id x)) [
  | inl e ↦
      let here : some (with_state state x) ≡ some r = rw (e, e) at h in
      let same : with_state state x ≡ r = some-injective (with_state state x) r here in
      (
        ap (λ (o : OutboxRow). o.state) (sym same),
        ap (λ (o : OutboxRow). o.outbox_id) (sym same) ∙ (eq_iff x.outbox_id id).0 e,
      )
  | inr e ↦ updated_state id state xs {r = r} (rw (e, e) at h)
]

stored_at :
    (id : String) (r : OutboxRow) (xs : List OutboxRow)
    → r.outbox_id ≡ id
    → find (has_outbox id) xs ≡ some r
    → find (λ o. o.outbox_id == r.outbox_id) xs ≡ some r
stored_at id r xs same found =
    subst (λ (x : String). find (λ (o : OutboxRow). o.outbox_id == x) xs ≡ some r) (sym same) found

delivery_outbox-ok :
    (topic id : String) (s : Store) {r : OutboxRow} {t : Store}
    → delivery_outbox topic id s ≡ (ok r, t)
    → (table : DeliveryTable) × (delivery_table topic ≡ some table)
      × (find (has_outbox id) (rows_of table s) ≡ some r)
      × (s ≡ t)
unfolding delivery_outbox
delivery_outbox-ok topic id s h =
    let (table, e, k) = or_raise-ok value_error (delivery_table topic) _ s h in
    (table, e, ground arith, ground arith)

module _ (marker_json : Json → Option String) where
  optional_receipt-LeavesQueue :
      (c : ClaimRow) (receipt : Option Fields) (at : ℕ) (s : Store)
      → LeavesQueue s (optional_receipt marker_json c receipt at s).1
  unfolding optional_receipt
  optional_receipt-LeavesQueue c none at s = record {
    same_claims = refl;
    same_projections = refl;
    same_replies = refl;
  }
  optional_receipt-LeavesQueue c (some receipt) at s =
      (insert_receipt-LeavesQueue marker_json c.project_id c.topic c.outbox_id receipt at).at s

  same_rows :
      (table : DeliveryTable) (s t : Store) → LeavesQueue s t → rows_of table t ≡ rows_of table s
  same_rows projection_table s t h = h.same_projections
  same_rows reply_table s t h = h.same_replies

  rows_of-set_state :
      (table : DeliveryTable) (id : String) (c : ClaimRow) (error_code : Option String) (at : ℕ)
      (state : OutboxState) (s : Store)
      → rows_of table (count_attempt c error_code at (set_delivery_state table id state s))
        ≡ update (has_outbox id) (with_state state) (rows_of table s)
  rows_of-set_state projection_table id c error_code at state s = refl
  rows_of-set_state reply_table id c error_code at state s = refl

  rows_of-release :
      (table : DeliveryTable) (id : String) (s : Store)
      → rows_of table (release id s) ≡ rows_of table s
  rows_of-release projection_table id s = refl
  rows_of-release reply_table id s = refl

  finish_claim-ok :
      (c : ClaimRow) (state : String) (error_code : Option String) (receipt : Option Fields)
      (at : ℕ) (s : Store) {r : OutboxRow} {t : Store}
      → finish_claim marker_json c state error_code receipt at s ≡ (ok r, t)
      → IsFree c.claim_id t × IsStored (stored_state state) r t
  unfolding finish_claim
  finish_claim-ok c state error_code receipt at s {r} {t} h =
      let (table, e, k) = or_raise-ok value_error (delivery_table c.topic) _ s h in
      let u =
        count_attempt c error_code at
          (set_delivery_state table c.outbox_id (stored_state state) s) in
      let (_, _, k2) = bind-ok (optional_receipt marker_json c receipt at) _ u k in
      let v = (optional_receipt marker_json c receipt at u).1 in
      let (table', e', found, same) =
        delivery_outbox-ok c.topic c.outbox_id (release c.claim_id v) k2 in
      let left = optional_receipt-LeavesQueue c receipt at u in
      let one : table ≡ table' = some-injective table table' (sym e ∙ e') in
      let rows : rows_of table' (release c.claim_id v)
          ≡ update (has_outbox c.outbox_id) (with_state (stored_state state)) (rows_of table s) =
        ap (λ (x : DeliveryTable). rows_of x (release c.claim_id v)) (sym one)
        ∙ rows_of-release table c.claim_id v
        ∙ same_rows table u v left
        ∙ rows_of-set_state table c.outbox_id c error_code at (stored_state state) s in
      let (in_state, same_id) =
        updated_state c.outbox_id (stored_state state) (rows_of table s) {r = r}
          (subst (λ (xs : List OutboxRow). find (has_outbox c.outbox_id) xs ≡ some r) rows found) in
      subst (λ (x : Store). IsFree c.claim_id x × IsStored (stored_state state) r x) same
        (
          any-delete_self (has_claim c.claim_id) v.claims,
          record {
            table = table';
            stored = stored_at c.outbox_id r (rows_of table' (release c.claim_id v)) same_id found;
            in_state = in_state;
          },
        )

  pub finish-ok :
      (claim_id state : String) (error_code : Option String) (receipt : Option Fields)
      (o : Datetime) (s : Store) {r : OutboxRow} {t : Store}
      → finish_linear_delivery marker_json claim_id state error_code receipt o s ≡ (ok r, t)
      → IsFree claim_id t × IsStored (stored_state state) r t
  unfolding finish_linear_delivery finish_delivery_body
  finish-ok claim_id state error_code receipt o s {r} {t} h =
      let (_, h1) = raise_if-ok (not (is_outcome state)) value_error _ s h in
      let (_, h2) =
        raise_if-ok (differ (state == "delivered") (has_receipt receipt)) value_error _ s h1 in
      let (at, _, h3) = bind-ok (lift (encode_time o)) _ s h2 in
      let (_, _, h4) =
        write_transaction-ok (finish_delivery_body marker_json claim_id state error_code receipt at)
          s h3 in
      let (c, found, h5) =
        or_raise-ok linear_delivery_claim_not_found (find (has_claim claim_id) s.claims) _ s h4 in
      let same : c.claim_id ≡ claim_id =
        (eq_iff c.claim_id claim_id).0 (find-holds (has_claim claim_id) s.claims found) in
      let (free, stored) = finish_claim-ok c state error_code receipt at s h5 in
      (subst (λ (x : String). IsFree x t) same free, stored)

-- A lease on the row runs past a time.
abbrev pub IsLeased : ℕ → Store → OutboxRow → Type 0
IsLeased at s d =
    any (λ c. c.topic == d.topic && c.outbox_id == d.outbox_id && ltb at c.expires_at) s.claims
    ≡ true

-- On every row of the project that is pending a lease runs past a time.
abbrev pub AllLeased : String → ℕ → Store → Type 0
AllLeased project_id at s =
    All (λ d. d.project_id ≡ project_id → d.state ≡ OutboxState.pending → IsLeased at s d)
      (s.projection_outbox ++ s.reply_outbox)

any-running :
    (topic id : String) (at : ℕ) (cs : List ClaimRow)
    → any (holds topic id) (delete (λ c. leb c.expires_at at) cs)
      ≡ any
          (λ c. c.topic == topic && c.outbox_id == id && ltb at c.expires_at)
          (delete (λ c. leb c.expires_at at) cs)
any-running topic id at [] = refl
any-running topic id at (c ∷ cs) = ground (arith, any-running topic id at cs)

any-false : {A : Type 0} (p : A → Bool) (xs : List A) → any p xs ≡ false → All (λ x. p x ≡ false) xs
any-false p [] h = tt
any-false p (x ∷ xs) h = (ground arith, any-false p xs (ground arith))

any-both :
    {A : Type 0} (p q : A → Bool) (xs ys : List A)
    → any p (select q xs ++ select q ys) ≡ any (λ x. q x && p x) (xs ++ ys)
any-both p q [] [] = refl
any-both p q [] (y ∷ ys) = ground (arith, any-both p q [] ys)
any-both p q (x ∷ xs) ys = ground (arith, any-both p q xs ys)

unselected :
    (project_id : String) (at : ℕ) (u : Store)
    → selected project_id (expire_claims at u) ≡ none
    → AllLeased project_id at (expire_claims at u)
unfolding selected candidates
unselected project_id at u h =
    let s = expire_claims at u in
    let rows =
      select (is_candidate project_id) s.projection_outbox
      ++ select (is_candidate project_id) s.reply_outbox in
    let idle : any (λ d. is_candidate project_id d && is_unclaimed s.claims d)
          (s.projection_outbox ++ s.reply_outbox)
        ≡ false =
      sym (
        any-both (is_unclaimed s.claims) (is_candidate project_id) s.projection_outbox
          s.reply_outbox)
      ∙ sym (any-sort_by (is_unclaimed s.claims) is_queued_before rows)
      ∙ find-none (is_unclaimed s.claims) (sort_by is_queued_before rows) h in
    All-map
      (λ d e project pending.
        let here : (d.project_id == project_id) ≡ true =
          (eq_iff d.project_id project_id).1 project in
        let waiting : is_waiting d.state ≡ true = rw pending refl in
        ground (arith, here, waiting, any-running d.topic d.outbox_id at u.claims))
      (s.projection_outbox ++ s.reply_outbox)
      (any-false (λ d. is_candidate project_id d && is_unclaimed s.claims d)
        (s.projection_outbox ++ s.reply_outbox) idle)

-- A claim that has been given is under the ID; where none is given, no lease is under the ID, and on every
-- pending row of the project a lease runs past the time.
abbrev pub Claimed : String → String → ℕ → Option DeliveryClaim → Store → Type 0
Claimed project_id claim_id at none t = IsFree claim_id t × AllLeased project_id at t
Claimed project_id claim_id at (some d) t = d.claim_id ≡ claim_id

abbrev Returned : String → String → ℕ → Result (Option DeliveryClaim) × Store → Type 0
Returned project_id claim_id at (ok d, t) = Claimed project_id claim_id at d t
Returned project_id claim_id at (err c, t) = Unit {0}

claim_selected-ok :
    (project_id claim_id : String) (at expires : ℕ) (row : Option OutboxRow) (s : Store)
    {d : Option DeliveryClaim} {t : Store}
    → IsFree claim_id s
    → (row ≡ none → AllLeased project_id at s)
    → claim_selected project_id claim_id at expires row s ≡ (ok d, t)
    → Claimed project_id claim_id at d t
unfolding claim_selected
claim_selected-ok project_id claim_id at expires none s {d} {t} free e h =
    subst (λ (x : Result (Option DeliveryClaim) × Store). Returned project_id claim_id at x) h
      (free, e refl)
claim_selected-ok project_id claim_id at expires (some r) s {d} {t} free e h =
    let c = claim_of project_id claim_id at expires r in
    let (_, _, k) = bind-ok (insert_row (claim_clashes c) (add_claim c)) _ s h in
    subst (λ (x : Result (Option DeliveryClaim) × Store). Returned project_id claim_id at x) k refl

claim_row-ok :
    (project_id claim_id : String) (at expires : ℕ) (existing : Option ClaimRow) (s : Store)
    {d : Option DeliveryClaim} {t : Store}
    → find (has_claim claim_id) s.claims ≡ existing
    → claim_row project_id claim_id at expires existing s ≡ (ok d, t)
    → Claimed project_id claim_id at d t
unfolding claim_row
claim_row-ok project_id claim_id at expires none s {d} {t} e h =
    claim_selected-ok project_id claim_id at expires (selected project_id (expire_claims at s))
      (expire_claims at s) {d = d} {t = t}
      (any-delete_shut (has_claim claim_id) (λ c. leb c.expires_at at) s.claims
        (find-none (has_claim claim_id) s.claims e))
      (unselected project_id at s) h
claim_row-ok project_id claim_id at expires (some c) s {d} {t} e h =
    let (_, k) =
      raise_if-ok (not (c.project_id == project_id)) linear_delivery_claim_conflict _ s h in
    let (_, _, k2) = bind-ok (delivery_outbox c.topic c.outbox_id) _ s k in
    subst (λ (x : Result (Option DeliveryClaim) × Store). Returned project_id claim_id at x) k2 refl

check_claim-ok :
    (project_id claim_id : String) (o : Datetime) (lease : ℕ) (s : Store) {at : ℕ} {u : Store}
    → check_claim project_id claim_id o lease s ≡ (ok at, u)
    → o.instant ≡ at
unfolding check_claim encode_time
check_claim-ok project_id claim_id o lease s h =
    let (_, _, h1) = bind-ok (lift (require_text project_id)) _ s h in
    let (_, _, h2) = bind-ok (lift (require_text claim_id)) _ s h1 in
    let (_, h3) = raise_if-ok (not (leb 1 lease && leb lease 3600)) value_error _ s h2 in
    ground (arith, h3)

pub claim-ok :
    (project_id claim_id : String) (o : Datetime) (lease : ℕ) (s : Store) {d : Option DeliveryClaim}
    {t : Store}
    → claim_linear_delivery project_id claim_id o lease s ≡ (ok d, t)
    → Claimed project_id claim_id o.instant d t
unfolding claim_linear_delivery claim_body
claim-ok project_id claim_id o lease s {d} {t} h =
    let (at, e, k) = bind-ok (check_claim project_id claim_id o lease) _ s h in
    let u = (check_claim project_id claim_id o lease s).1 in
    let (_, _, k2) =
      write_transaction-ok (claim_body project_id claim_id at (at + lease * 1000000)) u k in
    subst (λ (x : ℕ). Claimed project_id claim_id x d t)
      (sym (check_claim-ok project_id claim_id o lease s e))
      (claim_row-ok project_id claim_id at (at + lease * 1000000)
        (find (has_claim claim_id) u.claims) u {d = d} {t = t} refl k2)
