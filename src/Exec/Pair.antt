-- ===== src/Exec/Pair.antt =====
-- Runs on one part of a state of two.
use research_agent_ops.Exec.{Exec}

module _ {S W A : Type 0} where
  abbrev pub at_left : Exec S A → Exec (S × W) A
  at_left m (s, w) = ((m s).0, ((m s).1, w))

  abbrev pub at_right : Exec W A → Exec (S × W) A
  at_right m (s, w) = ((m w).0, (s, (m w).1))
