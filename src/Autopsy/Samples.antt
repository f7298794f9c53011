-- ===== src/Autopsy/Samples.antt =====
-- A failed run and the hints of its scenario, for the tests.
use evidra_bench.Base.{pos, false, none, [], ◌∷◌}
use evidra_bench.Timeline.Samples.{plain_decoder}
use evidra_bench.Autopsy.Patterns.{Pattern, Hints}
use evidra_bench.Autopsy.Analyze.{RunRecord, Libraries}

abbrev pub libraries : Libraries
libraries = record {
  decoder = plain_decoder;
  manifests = λ text. none;
  glob = λ pattern name. none;
  order = λ m. m;
}

abbrev pub failed_run : RunRecord
failed_run = record {
  passed = false;
  exit_code = pos 1;
  turns = 3;
  prompt_tokens = 900;
  completion_tokens = 100;
  checks_passed = 0;
  checks_total = 1;
}

abbrev deletes : Pattern
deletes = record {
  kind = "command_pattern";
  pattern_text = "kubectl delete";
  verb = "";
  resource = "";
  namespace = "";
  reason = "";
  severity = "critical";
}

abbrev pub forbidding : Hints
forbidding = record {
  expected_diagnostics = [];
  allowed_mutations = [];
  forbidden_actions = deletes ∷ [];
}
