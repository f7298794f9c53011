-- ===== src/Orchestrator/Tests.antt =====
-- The theorems on parallel runs at one job that passes on one worker, next to an idle one.
use evidra_bench.Base.{pos, ◌+◌, ◌≤◌, true, false, [], ◌∷◌, ◌≡◌, all}
use evidra_bench.Orchestrator.Outcome.{ScenarioOutcome, HarnessResult}
use evidra_bench.Orchestrator.Workers.{
  State, idle, pass_tally, tally_of, no_counts, complete_run, settle_failures, count_tally, take,
  keep_unmanaged, finish, settle, tally, Reach, start, later, initial_state, idle_workers,
}
use evidra_bench.Orchestrator.Counting.{is_idle, Reach-totals}

abbrev passing : HarnessResult
passing = record { passed = true; exit_code = pos 0 }

abbrev outcome : ScenarioOutcome
outcome = record {
  status = "passed";
  exit_code = pos 0;
  passed = true;
  failed = false;
  skipped = false;
  infra = false;
}

abbrev ended : State
ended = record {
  queued = 0;
  workers = idle ∷ idle ∷ [];
  counters = record {
    completed = 1;
    passed = 1;
    failed = 0;
    skipped = 0;
    consecutive_infra_failures = 0;
  };
}

reached : Reach 1 2 ended
unfolding initial_state idle_workers tally_of complete_run settle_failures count_tally
reached =
    let c = complete_run no_counts in
    let d = settle_failures pass_tally c in
    later
      (later
        (later
          (later (later start (take 0 [] (idle ∷ []) no_counts))
            (keep_unmanaged 0 [] (idle ∷ []) no_counts))
          (finish 0 [] (idle ∷ []) no_counts outcome))
        (settle 0 [] (idle ∷ []) c pass_tally))
      (tally 0 [] (idle ∷ []) d pass_tally)

Reach-totals_example :
    (ended.counters.passed + ended.counters.failed + ended.counters.skipped
      ≤ ended.counters.completed)
    × (ended.counters.completed
        ≤ ended.counters.passed + ended.counters.failed + ended.counters.skipped + 2)
    × (all is_idle ended.workers ≡ true
        → ended.counters.passed + ended.counters.failed + ended.counters.skipped
          ≡ ended.counters.completed)
Reach-totals_example = Reach-totals 1 2 reached
