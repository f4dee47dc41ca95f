-- ===== src/Store/Operations/History.antt =====
-- Any sequence of calls of the journal's methods, failing or not.
use research_agent_ops.Base.{String, ◌≢◌, Option, List, [], ◌∷◌}
use research_agent_ops.Errors.{err, integrity_error}
use research_agent_ops.Json.{Json}
use research_agent_ops.Exec.{Exec, pure, ◌>>◌}
use research_agent_ops.Exec.Respects.{Respects, Respects-bind, Respects-pure}
use research_agent_ops.Exec.Upholds.{Upholds, Upholds-bind, Upholds-pure}
use research_agent_ops.Store.Schema.{Store, Datetime}
use research_agent_ops.Store.Operations.{
  OperationRequest, begin_operation, append_operation_event, finish_operation,
}
use research_agent_ops.Store.Operations.Settled.{
  Extends, Extends-IsPreorder, Extends-refl, Extends-trans,
}
use research_agent_ops.Store.Operations.Growth.{
  begin_operation-Extends, append_operation_event-Extends, finish_operation-Extends,
}
use research_agent_ops.Store.Operations.Sequence.{IsSound}
use research_agent_ops.Store.Operations.Constraints.{
  begin_operation-Upholds, append_operation_event-Upholds, finish_operation-Upholds,
}

pub data Call : Type 0 where
  begin_ : OperationRequest → String → Datetime → Call
  append_ : String → String → Datetime → Json → Call
  finish_ : String → String → Datetime → Option Json → Call

pub perform : Call → Exec Store (Unit {0})
perform (begin_ q id o) = begin_operation q id o >> pure tt
perform (append_ id kind o payload) = append_operation_event id kind o payload >> pure tt
perform (finish_ id result o value) = finish_operation id result o value >> pure tt

unfoldable pub run : List Call → Store → Store
unfolding perform
run [] s = s
run (c ∷ calls) s = run calls (perform c s).1

perform-Extends : (c : Call) → Respects Extends (perform c)
unfolding perform
perform-Extends (begin_ q id o) =
    search (Respects-bind, Respects-pure, Extends-IsPreorder, begin_operation-Extends)
perform-Extends (append_ id kind o payload) =
    search (Respects-bind, Respects-pure, Extends-IsPreorder, append_operation_event-Extends)
perform-Extends (finish_ id result o value) =
    search (Respects-bind, Respects-pure, Extends-IsPreorder, finish_operation-Extends)

perform-Upholds : (c : Call) → Upholds IsSound (perform c)
unfolding perform
perform-Upholds (begin_ q id o) = search (Upholds-bind, Upholds-pure, begin_operation-Upholds)
perform-Upholds (append_ id kind o payload) =
    search (Upholds-bind, Upholds-pure, append_operation_event-Upholds)
perform-Upholds (finish_ id result o value) =
    search (Upholds-bind, Upholds-pure, finish_operation-Upholds)

-- Behind any sequence of journal calls, returning or raising, an operation that is stored is still
-- stored with its identity columns, and one that is terminal has the same row and events.
pub run-Extends : (calls : List Call) (s : Store) → Extends s (run calls s)
unfolding run
run-Extends [] s = Extends-refl s
run-Extends (c ∷ calls) s =
    Extends-trans s (perform c s).1 (run calls (perform c s).1) ((perform-Extends c).at s)
      (run-Extends calls (perform c s).1)

run-IsSound : (calls : List Call) (s : Store) → IsSound s → IsSound (run calls s)
unfolding run
run-IsSound [] s h = h
run-IsSound (c ∷ calls) s h = run-IsSound calls (perform c s).1 ((perform-Upholds c).at s h).0

-- If each event belongs to a stored operation and the next sequence number of each operation is the
-- number of its events, then this still holds behind any sequence of journal calls, and whichever
-- journal call comes next raises no IntegrityError.
pub run_ends_well :
    (calls : List Call) (c : Call) (s : Store)
    → IsSound s
    → IsSound (run calls s) × ((perform c (run calls s)).0 ≢ err integrity_error)
run_ends_well calls c s h =
    let sound = run-IsSound calls s h in (sound, ((perform-Upholds c).at (run calls s) sound).1)
