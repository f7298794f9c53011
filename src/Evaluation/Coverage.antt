-- ===== src/Evaluation/Coverage.antt =====
-- The coverage states of a source of evidence: pkg/evaluation/evidence.go.
use evidra_bench.Base.{String, Bool, true, false}

-- The coverage of a source of evidence. `unknown` holds any other
-- text, the empty one included.
pub data SourceCoverage : Type 0 where
  complete incomplete absent : SourceCoverage
  unknown : String → SourceCoverage

unfoldable pub is_complete : SourceCoverage → Bool
is_complete complete = true
is_complete _ = false
