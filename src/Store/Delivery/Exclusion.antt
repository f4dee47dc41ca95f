-- ===== src/Store/Delivery/Exclusion.antt =====
-- The table of leases under `claim_linear_delivery` of src/researchctl/runtime/store.py.
use research_agent_ops.Base.{
  ℕ, ◌+◌, ◌*◌, String, ◌≡◌, refl, ◌≢◌, Bool, true, false, ◌||◌, not, Option, none, some, List, [],
  ◌∷◌, ◌==◌, string_eq, find, any, delete, find-holds, find-none, leb, Bool-cases, inl, inr, arith,
  if-holds,
}
use research_agent_ops.Errors.{
  err, integrity_error, value_error, runtime_store_corrupt, linear_delivery_claim_conflict,
}
use research_agent_ops.Exec.Upholds.{
  Upholds, EndsWell, Upholds-pure, Upholds-lift, Upholds-raise_if, Upholds-bind, Upholds-or_raise,
  ends-raise_if,
}
use research_agent_ops.Store.Schema.{Store, Datetime, OutboxRow, ClaimRow, DeliveryStatusRow}
use research_agent_ops.Store.Transaction.{insert_row, Upholds-write_transaction}
use research_agent_ops.Store.Replies.{new_status, status_clashes, add_status}
use research_agent_ops.Store.Operations.Constraints.{require_text-fits, encode_time-fits}
use research_agent_ops.Store.Delivery.{
  has_claim, holds, delivery_table, delivery_outbox, expire_claims, is_unclaimed, candidates,
  selected, claim_of, claim_clashes, add_claim, ensure_status, claim_selected, claim_row,
  claim_body, check_claim, claim_linear_delivery,
}

-- Two rows of the table hold different deliveries, under different claim IDs.
abbrev pub IsExclusive : List ClaimRow → Type 0
IsExclusive [] = Unit
IsExclusive (c ∷ cs) =
    (any (λ d. holds c.topic c.outbox_id d || has_claim c.claim_id d) cs ≡ false) × IsExclusive cs

pub record LeasesOnce (s : Store) : Type 0 where
  pub exclusive : IsExclusive s.claims

any-delete :
    {A : Type 0} (p q : A → Bool) (xs : List A) → any p xs ≡ false → any p (delete q xs) ≡ false
any-delete p q [] h = refl
any-delete p q (x ∷ xs) h = ground (arith, any-delete p q xs)

any-or :
    {A : Type 0} (p q : A → Bool) (xs : List A)
    → any p xs ≡ false
    → any q xs ≡ false
    → any (λ x. p x || q x) xs ≡ false
any-or p q [] h k = refl
any-or p q (x ∷ xs) h k = ground (arith, any-or p q xs)

pub delete-IsExclusive :
    (q : ClaimRow → Bool) (cs : List ClaimRow) → IsExclusive cs → IsExclusive (delete q cs)
delete-IsExclusive q [] h = tt
delete-IsExclusive q (c ∷ cs) h = elim (Bool-cases (q c)) [
  | inl e ↦ rw e (delete-IsExclusive q cs h.1)
  | inr e ↦ rw e (
    any-delete (λ d. holds c.topic c.outbox_id d || has_claim c.claim_id d) q cs h.0,
    delete-IsExclusive q cs h.1,
  )
]

-- The row that is selected is held by no claim.
pub selected-unclaimed :
    (project_id : String) (s : Store) {r : OutboxRow}
    → selected project_id s ≡ some r
    → any (holds r.topic r.outbox_id) s.claims ≡ false
unfolding selected
selected-unclaimed project_id s {r} h =
    let free : is_unclaimed s.claims r ≡ true =
      find-holds (is_unclaimed s.claims) (candidates project_id s) h in
    ground arith

ensure_status-LeasesOnce :
    (d : DeliveryStatusRow) (s : Store) → LeasesOnce s → LeasesOnce (ensure_status d s)
ensure_status-LeasesOnce d s h =
    if-holds LeasesOnce (status_clashes d s) s (add_status d s) (λ _. h)
      (λ _. record { exclusive = h.exclusive })

add_claim-LeasesOnce :
    (c : ClaimRow) (s : Store)
    → claim_clashes c s ≡ false
    → LeasesOnce s
    → LeasesOnce (add_claim c s)
add_claim-LeasesOnce c s clear h = record { exclusive = (clear, h.exclusive) }

claim_selected-EndsWell :
    (project_id claim_id : String) (at expires : ℕ) (row : Option OutboxRow) (s : Store)
    → selected project_id s ≡ row
    → any (has_claim claim_id) s.claims ≡ false
    → LeasesOnce s
    → EndsWell LeasesOnce (claim_selected project_id claim_id at expires row s)
unfolding claim_selected insert_row
claim_selected-EndsWell project_id claim_id at expires none s e new h = (h, λ x. cc)
claim_selected-EndsWell project_id claim_id at expires (some r) s e new h =
    let c = claim_of project_id claim_id at expires r in
    let clear : claim_clashes c s ≡ false =
      any-or (holds r.topic r.outbox_id) (has_claim claim_id) s.claims
        (selected-unclaimed project_id s e) new in
    rw clear (
      ensure_status-LeasesOnce (new_status r.topic r.outbox_id project_id at) (add_claim c s)
          (add_claim-LeasesOnce c s clear h),
      λ x. cc,
    )

pub delivery_outbox-Upholds :
    (topic outbox_id : String) → Upholds LeasesOnce (delivery_outbox topic outbox_id)
unfolding delivery_outbox
delivery_outbox-Upholds topic outbox_id =
    Upholds-bind LeasesOnce _ _
      (Upholds-or_raise LeasesOnce value_error (delivery_table topic) (λ e. cc))
      λ table. record {
        at = λ s h. (Upholds-or_raise LeasesOnce runtime_store_corrupt _ (λ e. cc)).at s h;
      }

claim_row-EndsWell :
    (project_id claim_id : String) (at expires : ℕ) (row : Option ClaimRow) (s : Store)
    → find (has_claim claim_id) s.claims ≡ row
    → LeasesOnce s
    → EndsWell LeasesOnce (claim_row project_id claim_id at expires row s)
unfolding claim_row
claim_row-EndsWell project_id claim_id at expires none s e h =
    claim_selected-EndsWell project_id claim_id at expires _ (expire_claims at s) refl
      (any-delete (has_claim claim_id) (λ c. leb c.expires_at at) s.claims
        (find-none (has_claim claim_id) s.claims e))
      (record { exclusive = delete-IsExclusive (λ c. leb c.expires_at at) s.claims h.exclusive })
claim_row-EndsWell project_id claim_id at expires (some existing) s e h =
    ends-raise_if LeasesOnce (not (existing.project_id == project_id))
      linear_delivery_claim_conflict _ s h (λ x. cc)
      λ _.
        (Upholds-bind LeasesOnce _ _ (delivery_outbox-Upholds existing.topic existing.outbox_id)
            (λ outbox. Upholds-pure LeasesOnce _)).at
          s h

claim_body-Upholds :
    (project_id claim_id : String) (at expires : ℕ)
    → Upholds LeasesOnce (claim_body project_id claim_id at expires)
unfolding claim_body
claim_body-Upholds project_id claim_id at expires = record {
  at = λ s h. claim_row-EndsWell project_id claim_id at expires _ s refl h;
}

check_claim-Upholds :
    (project_id claim_id : String) (o : Datetime) (lease : ℕ)
    → Upholds LeasesOnce (check_claim project_id claim_id o lease)
unfolding check_claim
check_claim-Upholds project_id claim_id o lease =
    Upholds-bind LeasesOnce _ _ (Upholds-lift LeasesOnce _ (require_text-fits project_id)) λ _.
      Upholds-bind LeasesOnce _ _ (Upholds-lift LeasesOnce _ (require_text-fits claim_id)) λ _.
        Upholds-bind LeasesOnce _ _ (Upholds-raise_if LeasesOnce _ value_error (λ e. cc))
          λ _. Upholds-lift LeasesOnce _ (encode_time-fits o)

-- If no two leases are on the same delivery or under the same claim ID, then this still holds
-- behind claim_linear_delivery, whatever its arguments, and the call raises no IntegrityError.
pub claim-LeasesOnce :
    (project_id claim_id : String) (o : Datetime) (lease : ℕ) (s : Store)
    → LeasesOnce s
    → LeasesOnce (claim_linear_delivery project_id claim_id o lease s).1
      × ((claim_linear_delivery project_id claim_id o lease s).0 ≢ err integrity_error)
unfolding claim_linear_delivery
claim-LeasesOnce project_id claim_id o lease =
    (Upholds-bind LeasesOnce _ _ (check_claim-Upholds project_id claim_id o lease) (λ at.
      Upholds-write_transaction LeasesOnce _
        (claim_body-Upholds project_id claim_id at (at + lease * 1000000)))).at
