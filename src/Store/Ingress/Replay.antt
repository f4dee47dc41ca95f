-- ===== src/Store/Ingress/Replay.antt =====
-- A Linear comment that is recorded again (`record_verified_linear_ingress` of
-- src/researchctl/runtime/store.py).
mod Content
use Content.*
use research_agent_ops.Base.{
  ℕ, String, ◌≡◌, refl, true, false, not, ◌∙◌, sym, subst, ap, Option, none, some, find, ◌==◌,
  string_eq, option_eq, option_beq_iff, eq_iff, arith, Bool-cases, ◌≢◌, inl, inr, if◌then◌else◌,
}
use research_agent_ops.Errors.{ok, err, Result, linear_ingress_receipt_conflict, assertion_error}
use research_agent_ops.Exec.{Exec, pure, lift, raise_if, ◌>>=◌, ◌>>◌}
use research_agent_ops.Exec.Inversion.{bind-ok, bind-ok_reads, bind_step, raise_if-ok}
use research_agent_ops.Store.Schema.{Store, Datetime, SourceMarker, IngressRow}
use research_agent_ops.Store.Checks.{encode_time}
use research_agent_ops.Store.Transaction.{
  insert_row, insert_row-ok, read_lock, read_lock-ok, read_lock_opened, write_transaction,
  write_transaction-ok,
}
use research_agent_ops.Store.Ingress.Origin.{origin-ok}
use research_agent_ops.Store.Ingress.{
  IngressInput, names_comment, is_at, address_of, same_ingress, same_optional_marker, ingress_row,
  ingress_clashes, add_ingress, check_ingress, bind_comment, ingress_body, binding_hex,
  require_verified_notification_origin, record_unless_known, record_verified_linear_ingress,
}

-- The comment's receipt, which agrees with the arguments in each field.
record IsRecorded (x : IngressInput) (r : IngressRow) (t : Store) : Type 0 where
  opened : t.closed ≡ false
  found : find (names_comment x.workspace_id x.comment_id) t.ingress_receipts ≡ some r
  same : same_ingress r x ≡ true

-- A new row agrees with the arguments that it was made from.
ingress_row-same :
    (x : IngressInput) (hex : String) (at : ℕ) → same_ingress (ingress_row x hex at) x ≡ true
ingress_row-same x hex at =
    simp
      (same_text, same_marker_self, (option_beq_iff x.webhook_event_id x.webhook_event_id).1 refl)

ingress_row-at :
    (x : IngressInput) (hex : String) (at : ℕ) → is_at (address_of x) (ingress_row x hex at) ≡ true
ingress_row-at x hex at = simp same_text

ingress_row-comment :
    (x : IngressInput) (hex : String) (at : ℕ)
    → names_comment x.workspace_id x.comment_id (ingress_row x hex at) ≡ true
ingress_row-comment x hex at = simp same_text

check_ingress-anywhere :
    (x : IngressInput) (s : Store) {a : Unit {0}} {v : Store}
    → check_ingress x s ≡ (ok a, v)
    → (v ≡ s) × ((t : Store) → check_ingress x t ≡ (ok tt, t))
unfolding check_ingress
check_ingress-anywhere x s h = (ground arith, λ t. ground arith)

-- A comment without a receipt gets one.
ingress_body-new :
    (x : IngressInput) (hex : String) (at : ℕ) (s : Store) {id : String} {u : Store}
    → find (names_comment x.workspace_id x.comment_id) s.ingress_receipts ≡ none
    → ingress_body (ingress_row x hex at) s ≡ (ok id, u)
    → u ≡ add_ingress (ingress_row x hex at) s
unfolding ingress_body bind_comment
ingress_body-new x hex at s {id} {u} missing h =
    let here : bind_comment (ingress_row x hex at) none s ≡ (ok id, u) =
      subst (λ o. bind_comment (ingress_row x hex at) o s ≡ (ok id, u)) missing h in
    let (_, wrote, k) =
      bind-ok
        (insert_row (ingress_clashes (ingress_row x hex at)) (add_ingress (ingress_row x hex at))) _
        s here in
    let (_, added) =
      insert_row-ok (ingress_clashes (ingress_row x hex at)) (add_ingress (ingress_row x hex at)) s
        wrote in
    sym (ap (λ (r : Result String × Store). r.1) k) ∙ added

-- The receipt that is read back from a store with the new row is the new row.
origin-new :
    (x : IngressInput) (hex : String) (at : ℕ) (s : Store) {r : IngressRow} {t : Store}
    → require_verified_notification_origin (address_of x) (add_ingress (ingress_row x hex at) s)
      ≡ (ok r, t)
    → (s.closed ≡ false) × (t ≡ add_ingress (ingress_row x hex at) s) × (ingress_row x hex at ≡ r)
origin-new x hex at s h =
    let (opened, stays, found) =
      origin-ok (address_of x) (add_ingress (ingress_row x hex at) s) h in
    (opened, stays, ground (arith, found, ingress_row-at x hex at))

-- The receipt of an ID, as the method hands it out.
abbrev read_receipt : IngressInput → String → Exec Store IngressRow
read_receipt x id = do
  receipt ← require_verified_notification_origin (address_of x)
  raise_if (not (receipt.receipt_id == id)) assertion_error
  pure receipt

new_read :
    (x : IngressInput) (hex id : String) (at : ℕ) (s : Store) {r : IngressRow} {t : Store}
    → read_receipt x id (add_ingress (ingress_row x hex at) s) ≡ (ok r, t)
    → IsRecorded x r t
new_read x hex id at s {r} {t} h =
    let new = ingress_row x hex at in
    let u = add_ingress (ingress_row x hex at) s in
    let (receipt, read, h') = bind-ok (require_verified_notification_origin (address_of x)) _ u h in
    let (opened, stays, is_new) = origin-new x hex at s read in
    let (_, k) = raise_if-ok (not (receipt.receipt_id == id)) assertion_error (pure receipt) _ h' in
    let same : new ≡ r = is_new ∙ ground (arith, k) in
    let after : u ≡ t = sym stays ∙ ap (λ (y : Result IngressRow × Store). y.1) k in
    subst (λ q. IsRecorded x q t) same
      (subst (IsRecorded x new) after (record {
        opened = opened;
        found = rw (ingress_row-comment x hex at) refl;
        same = ingress_row-same x hex at;
      }))

new_recorded :
    (x : IngressInput) (hex : String) (at : ℕ) (s : Store) {id : String} {w : Store}
    {r : IngressRow} {t : Store}
    → find (names_comment x.workspace_id x.comment_id) s.ingress_receipts ≡ none
    → write_transaction (ingress_body (ingress_row x hex at)) s ≡ (ok id, w)
    → read_receipt x id w ≡ (ok r, t)
    → IsRecorded x r t
new_recorded x hex at s {id} {w} {r} {t} missing wrote h =
    let (_, _, ran) = write_transaction-ok (ingress_body (ingress_row x hex at)) s wrote in
    let added = ingress_body-new x hex at s missing ran in
    new_read x hex id at s (subst (λ v. read_receipt x id v ≡ (ok r, t)) added h)

module _ (sha256 : String → String) where
  record_unless_known-IsRecorded :
      (x : IngressInput) (o : Datetime) (row : Option IngressRow) (s : Store) {r : IngressRow}
      {t : Store}
      → s.closed ≡ false
      → find (names_comment x.workspace_id x.comment_id) s.ingress_receipts ≡ row
      → record_unless_known sha256 x o row s ≡ (ok r, t)
      → IsRecorded x r t
  unfolding record_unless_known
  record_unless_known-IsRecorded x o (some r') s {r} {t} opened found h =
      let (same, k) = raise_if-ok (not (same_ingress r' x)) linear_ingress_receipt_conflict _ s h in
      let row : r' ≡ r = ground (arith, k) in
      let stays : s ≡ t = λ i. (k i).1 in
      subst (IsRecorded x r) stays
        (record { opened = opened; found = found ∙ ap some row; same = rw (← row) (ground arith) })
  record_unless_known-IsRecorded x o none s {r} {t} opened found h =
      let (hex, _, h1) = bind-ok_reads (lift (binding_hex sha256 x)) _ s refl h in
      let (at, _, h2) = bind-ok_reads (lift (encode_time o)) _ s refl h1 in
      let (id, wrote, h3) =
        bind-ok (write_transaction (ingress_body (ingress_row x hex at))) _ s h2 in
      new_recorded x hex at s found wrote h3

  -- What a call that has returned leaves.
  recorded :
      (x : IngressInput) (o : Datetime) (s : Store) {r : IngressRow} {t : Store}
      → record_verified_linear_ingress sha256 x o s ≡ (ok r, t)
      → IsRecorded x r t × ((v : Store) → check_ingress x v ≡ (ok tt, v))
  unfolding record_verified_linear_ingress
  recorded x o s {r} {t} h =
      let query =
        λ (v : Store). find (names_comment x.workspace_id x.comment_id) v.ingress_receipts in
      let (_, checked, h1) = bind-ok (check_ingress x) _ s h in
      let (stays, check) = check_ingress-anywhere x s checked in
      let h2 =
        subst (λ v. (read_lock query >>= record_unless_known sha256 x o) v ≡ (ok r, t)) stays h1 in
      let (row, read, h3) = bind-ok (read_lock query) (record_unless_known sha256 x o) s h2 in
      let (opened, still, found) = read_lock_opened query s read in
      (
        record_unless_known-IsRecorded x o row s opened found
            (subst (λ v. record_unless_known sha256 x o row v ≡ (ok r, t)) still h3),
        check,
      )

  -- A comment that has a receipt, recorded with the same or with another content.
  known_again :
      (x : IngressInput) (o : Datetime) (t : Store) (r : IngressRow)
      → ((v : Store) → check_ingress x v ≡ (ok tt, v))
      → t.closed ≡ false
      → find (names_comment x.workspace_id x.comment_id) t.ingress_receipts ≡ some r
      → record_verified_linear_ingress sha256 x o t
        ≡ (if same_ingress r x then ok r else err linear_ingress_receipt_conflict, t)
  unfolding record_verified_linear_ingress record_unless_known
  known_again x o t r check opened found =
      let query =
        λ (v : Store). find (names_comment x.workspace_id x.comment_id) v.ingress_receipts in
      bind_step (check_ingress x) _ t (check t)
      ∙ bind_step (read_lock query) (record_unless_known sha256 x o) t (read_lock-ok query t opened)
      ∙ rw found (ground arith)

  -- If record_verified_linear_ingress returns a receipt, then recording the same comment with the
  -- same content again in the store that it leaves, at any time, returns the same receipt, and the
  -- store is unchanged.
  pub record_again :
      (x : IngressInput) (o o' : Datetime) (s : Store) {r : IngressRow} {t : Store}
      → record_verified_linear_ingress sha256 x o s ≡ (ok r, t)
      → record_verified_linear_ingress sha256 x o' t ≡ (ok r, t)
  record_again x o o' s {r} {t} h =
      let (k, check) = recorded x o s h in
      known_again x o' t r check k.opened k.found ∙ rw k.same refl

  -- If record_verified_linear_ingress returns, then another content for the same comment, which
  -- passes the checks of the arguments, raises linear_ingress_receipt_conflict in the store that it
  -- leaves, and the store is unchanged.
  record_conflict :
      (x x' : IngressInput) (o o' : Datetime) (s : Store) {r : IngressRow} {t : Store}
      → record_verified_linear_ingress sha256 x o s ≡ (ok r, t)
      → x'.workspace_id ≡ x.workspace_id
      → x'.comment_id ≡ x.comment_id
      → x ≢ x'
      → check_ingress x' t ≡ (ok tt, t)
      → record_verified_linear_ingress sha256 x' o' t ≡ (err linear_ingress_receipt_conflict, t)
  record_conflict x x' o o' s {r} {t} h same_workspace same_comment differs passes =
      let (k, _) = recorded x o s h in
      let (_, check) = check_ingress-anywhere x' t passes in
      let found =
        subst (λ w. find (names_comment w x'.comment_id) t.ingress_receipts ≡ some r)
          (sym same_workspace)
          (subst (λ c. find (names_comment x.workspace_id c) t.ingress_receipts ≡ some r)
            (sym same_comment) k.found) in
      known_again x' o' t r check k.opened found ∙ elim (Bool-cases (same_ingress r x')) [
        | inl e ↦ absurd (differs (sym (same_ingress_eq r x k.same) ∙ same_ingress_eq r x' e))
        | inr e ↦ rw e refl
      ]
