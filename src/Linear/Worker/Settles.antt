-- ===== src/Linear/Worker/Settles.antt =====
-- What a call of `run_once` that has returned leaves in the store
-- (src/researchctl/services/linear_worker.py).
use research_agent_ops.Base.{
  ℕ, String, ◌≡◌, refl, ap, ◌∙◌, subst, not, Option, none, some, [], ◌∷◌, ◌==◌, string_eq,
}
use mathlib.Core.Option.{some-injective}
use research_agent_ops.Json.{Json}
use research_agent_ops.Errors.{Result, ok, err, authorization_denied}
use research_agent_ops.Exec.{lift}
use research_agent_ops.Exec.Inversion.{bind-ok, raise_if-ok}
use research_agent_ops.Exec.Pair.{at_left, at_right}
use research_agent_ops.Actor.{ActorContext, trusted_automation, require_role}
use research_agent_ops.Store.Schema.{Store, Datetime, OutboxRow, OutboxState}
use research_agent_ops.Store.Delivery.{
  DeliveryClaim, claim_linear_delivery, finish_linear_delivery, stored_state,
}
use research_agent_ops.Store.Delivery.Ended.{
  IsFree, AllLeased, IsStored, Claimed, claim-ok, finish-ok,
}
use research_agent_ops.Linear.Accepted.Outcome.{DeliveryState, delivered, retryable, dead_letter}
use research_agent_ops.Linear.Remote.{Platform, DeliveryPort}
use research_agent_ops.Linear.Worker.{
  LinearWorkerResult, Report, state_text, receipt_fields, finish, deliver_claim, run_once,
  topic_report,
}

-- The state of an outbox row that stands for a state of a result.
abbrev pub row_state : DeliveryState → OutboxState
row_state delivered = OutboxState.delivered
row_state retryable = OutboxState.pending
row_state dead_letter = OutboxState.dead_letter

-- No lease is under the claim ID; if the result has a state, then the row that it names is in an outbox,
-- in the state that stands for it; and if it has none, then on every pending
-- row of the project a lease runs past the time.
pub record Settles (project_id claim_id : String) (at : ℕ) (r : LinearWorkerResult) (t : Store)
    : Type 0 where
  pub released : IsFree claim_id t
  pub outcome :
      (state : DeliveryState)
      → r.state ≡ some state
      → (row : OutboxRow) × (r.outbox_id ≡ some row.outbox_id) × IsStored (row_state state) row t
  pub idle_only : r.state ≡ none → AllLeased project_id at t

stored_state-text : (state : DeliveryState) → stored_state (state_text state) ≡ row_state state
stored_state-text delivered = refl
stored_state-text retryable = refl
stored_state-text dead_letter = refl

abbrev Ends : {W : Type 0} → String → String → ℕ → Result LinearWorkerResult × (Store × W) → Type 0
Ends project_id claim_id at (ok r, x) = Settles project_id claim_id at r x.0
Ends project_id claim_id at (err c, x) = Unit {0}

module _ (platform : Platform) (marker_text : Json → Option String) {W : Type 0}
    (port : DeliveryPort W) (credential_identity app_id : String) (finished_at : Datetime) where
  finish-Settles :
      (project_id : String) (at : ℕ) (claim : DeliveryClaim) (report : Report) (x : Store × W)
      {r : LinearWorkerResult} {y : Store × W}
      → finish platform credential_identity app_id port marker_text finished_at claim report x
        ≡ (ok r, y)
      → Settles project_id claim.claim_id at r y.0
  unfolding finish
  finish-Settles project_id at claim report x {r} {y} h =
      let method =
        finish_linear_delivery marker_text claim.claim_id (state_text report.state)
          report.error_code (receipt_fields report.receipt) finished_at in
      let (stored, e, k) = bind-ok (at_left method) _ x h in
      let done : method x.0 ≡ (ok stored, (method x.0).1) = λ i. ((e i).0, (method x.0).1) in
      let (free, there) =
        finish-ok marker_text claim.claim_id (state_text report.state) report.error_code
          (receipt_fields report.receipt) finished_at x.0 done in
      subst (λ (z : Result LinearWorkerResult × (Store × W)). Ends project_id claim.claim_id at z) k
        (record {
          released = free;
          outcome = λ state s.
              let same : report.state ≡ state = some-injective report.state state s in
              (
                stored,
                refl,
                subst (λ (q : OutboxState). IsStored q stored (method x.0).1)
                    (stored_state-text report.state ∙ ap row_state same) there,
              );
          idle_only = λ e. cc;
        })

  deliver_claim-Settles :
      (actor : ActorContext) (project_id claim_id : String) (at : ℕ) (claim : Option DeliveryClaim)
      (x : Store × W) {r : LinearWorkerResult} {y : Store × W}
      → Claimed project_id claim_id at claim x.0
      → deliver_claim platform credential_identity app_id port marker_text finished_at actor claim x
        ≡ (ok r, y)
      → Settles project_id claim_id at r y.0
  unfolding deliver_claim
  deliver_claim-Settles actor project_id claim_id at none x {r} {y} free h =
      subst (λ (z : Result LinearWorkerResult × (Store × W)). Ends project_id claim_id at z) h
        (record { released = free.0; outcome = λ state e. cc; idle_only = λ e. free.1 })
  deliver_claim-Settles actor project_id claim_id at (some claim) x {r} {y} same h =
      let (report, _, k) =
        bind-ok
          (at_right (topic_report platform credential_identity app_id port actor claim.outbox)) _ x
          h in
      let z =
        at_right (topic_report platform credential_identity app_id port actor claim.outbox) x in
      subst (λ (c : String). Settles project_id c at r y.0) same
        (finish-Settles project_id at claim report z.1 k)

  -- If a call of `run_once` returns, then no lease is under its claim ID; if its result has a state,
  -- then the row that the result names is in an outbox, as delivered if the state is delivered, as
  -- pending if it is retryable, and as a dead letter if it is that; and if it has none, which is `idle`,
  -- then on every pending row of the project, in both outboxes, a lease runs past the time of the claim.
  pub run_once-Settles :
      (actor : ActorContext) (project_id claim_id : String) (claimed_at : Datetime) (lease : ℕ)
      (x : Store × W) {r : LinearWorkerResult} {y : Store × W}
      → run_once platform credential_identity app_id port marker_text finished_at actor project_id
          claim_id claimed_at lease x
        ≡ (ok r, y)
      → Settles project_id claim_id claimed_at.instant r y.0
  unfolding run_once
  run_once-Settles actor project_id claim_id claimed_at lease x {r} {y} h =
      let (_, _, h1) = bind-ok (lift (require_role actor (trusted_automation ∷ []))) _ x h in
      let (_, h2) =
        raise_if-ok (not (actor.actor_id == credential_identity)) authorization_denied _ x h1 in
      let method = claim_linear_delivery project_id claim_id claimed_at lease in
      let (claim, e, k) = bind-ok (at_left method) _ x h2 in
      let done : method x.0 ≡ (ok claim, (method x.0).1) = λ i. ((e i).0, (method x.0).1) in
      deliver_claim-Settles actor project_id claim_id claimed_at.instant claim (at_left method x).1
        (claim-ok project_id claim_id claimed_at lease x.0 done) k
