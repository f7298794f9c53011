-- ===== src/Harness/AutopsyReport.antt =====
-- The autopsy document of a run: pkg/harness/autopsy.go. JSON keeps the texts of a finding, so the document is
-- the list that reading it back gives.
use evidra_bench.Base.{String, List, [], ◌∷◌, map, Option, none, some, concat}
use evidra_bench.Timeline.Steps.{ToolCall}
use evidra_bench.Autopsy.Report.{Finding, kind_text, severity_text}
use evidra_bench.Autopsy.Patterns.{Hints}
use evidra_bench.Autopsy.Analyze.{RunRecord, Libraries, analyze}
use evidra_bench.Harness.CaseBuild.{AutopsyFinding}

unfoldable pub finding_document : Finding → AutopsyFinding
finding_document f = record {
  kind = kind_text f.kind;
  severity = severity_text f.severity;
  message = f.message;
}

-- The calls are none where their JSON cannot be decoded.
unfoldable pub failure_autopsy :
    Libraries → RunRecord → Option (List ToolCall) → String → Hints → Option (List AutopsyFinding)
failure_autopsy l run none transcript hints = none
failure_autopsy l run (some calls) transcript hints = some (
    map finding_document
      (analyze l (record {
        run = run;
        tool_calls = calls;
        transcript = transcript;
        hints = hints;
      })).findings)

-- Of the kind of an error.
unfoldable pub run_error_autopsy : String → Option (List AutopsyFinding)
run_error_autopsy kind = some (
    record {
      kind = "run_error";
      severity = "critical";
      message = concat ("Run ended with " ∷ kind ∷ "." ∷ []);
    }
    ∷ [])
