-- ===== src/Impact.antt =====
-- What a change of paths means for the declared dependencies of a document
-- (src/researchctl/services/dependency_impact.py).
pub mod Paths
pub mod Dependencies
pub mod Canonical
pub mod Evaluation
mod Samples
