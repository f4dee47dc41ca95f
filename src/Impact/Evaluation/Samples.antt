-- ===== src/Impact/Evaluation/Samples.antt =====
-- The evaluators at a concrete input: a test, and an instance of each theorem.
use research_agent_ops.Base.{String, ◌≡◌, refl, ◌↔◌, none, some, List, [], ◌∷◌, Option}
use research_agent_ops.Errors.{ok, err, value_error}
use research_agent_ops.Impact.Dependencies.{
  DependencySet, require_canonical_dependencies, resource, environment, changed, unchanged,
  ObservedIdentity, ChangeReceipt,
}
use research_agent_ops.Impact.Evaluation.{Evaluation, evaluate}
use research_agent_ops.Impact.Evaluation.Classified.{Classifies, evaluate-Classifies}
use research_agent_ops.Impact.Evaluation.Returned.{
  AreAccepted, IsCanonicalSet, evaluate_returns_iff,
}

abbrev declared : DependencySet
declared = record {
  paths = "data/**" ∷ "model.py" ∷ [];
  resources = "corpus" ∷ "weights" ∷ [];
  environments = "cluster" ∷ [];
}

abbrev version : String → Option ObservedIdentity
version v = some (record { version = some v; digest = none })

-- The weights have changed, and the cluster is the same; nothing is said of the corpus.
abbrev receipts : List ChangeReceipt
receipts =
    record {
      observations =
          record {
            kind = resource;
            dependency = "weights";
            state = changed;
            basis_identity = version "1";
            target_identity = version "2";
            evidence_digest = some "sha256:e";
            reason = none;
          }
          ∷ record {
            kind = environment;
            dependency = "cluster";
            state = unchanged;
            basis_identity = version "1";
            target_identity = version "1";
            evidence_digest = some "sha256:e";
            reason = none;
          }
          ∷ [];
      receipt_digest = "sha256:r";
    }
    ∷ []

abbrev changed_files : List String
changed_files = "notes.md" ∷ "data/raw.csv" ∷ "data/raw.csv" ∷ []

abbrev evaluation : Evaluation
evaluation = record {
  evaluator_id = "researchctl.declared-dependency.v2";
  changed_paths = "data/raw.csv" ∷ "notes.md" ∷ [];
  matched_paths = "data/**" ∷ [];
  matched_resources = "weights" ∷ [];
  matched_environments = [];
  unresolved_resources = "corpus" ∷ [];
  unresolved_environments = [];
  receipt_digests = "sha256:r" ∷ [];
}

evaluates : evaluate declared changed_files receipts ≡ ok evaluation
unfolding evaluate
evaluates = refl

-- Two receipts with one digest are refused.
refuses_twice :
    evaluate declared changed_files
      (record { observations = []; receipt_digest = "sha256:r" } ∷ receipts)
    ≡ err value_error
unfolding evaluate
refuses_twice = refl

declared-IsCanonicalSet : IsCanonicalSet declared
unfolding require_canonical_dependencies
declared-IsCanonicalSet = refl

evaluate-Classifies_example : Classifies declared changed_files receipts evaluation
evaluate-Classifies_example =
    evaluate-Classifies declared changed_files receipts evaluation evaluates

evaluate_returns_iff_example :
    AreAccepted declared receipts
    ↔ ((e : Evaluation) × (evaluate declared changed_files receipts ≡ ok e))
evaluate_returns_iff_example =
    evaluate_returns_iff declared changed_files receipts declared-IsCanonicalSet
