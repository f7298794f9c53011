-- ===== src/Evaluation/Termination.antt =====
-- How an evaluation or a case ended: pkg/evaluation/result.go.
use evidra_bench.Base.{String, Bool, true, false}

-- A Go string of type TerminationKind; `unset` is the empty one, the only other value that the
-- code writes.
pub data TerminationKind : Type 0 where
  complete incomplete cancelled unset : TerminationKind

pub record Termination : Type 0 where
  pub kind : TerminationKind
  pub phase : String
  pub reason : String
  pub details : String

unfoldable pub is_complete_termination : TerminationKind → Bool
is_complete_termination TerminationKind.complete = true
is_complete_termination _ = false
