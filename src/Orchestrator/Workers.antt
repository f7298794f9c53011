-- ===== src/Orchestrator/Workers.antt =====
-- The workers of a parallel run and the counters that they share: `RunParallel` of
-- pkg/orchestrator/orchestrator.go. Every operation on shared memory is a step; the steps of the workers
-- interleave in any order.
use evidra_bench.Base.{
  ℕ, zero, suc, ◌+◌, ◌≤◌, ◌<◌, Bool, true, false, ◌≡◌, any, List, [], ◌∷◌, ◌++◌, if◌then◌else◌,
}
use evidra_bench.Orchestrator.Outcome.{ScenarioOutcome}

-- The cases of the switch over an outcome.
pub data Tally : Type 0 where
  pass_tally skip_tally infra_tally fail_tally : Tally

unfoldable pub tally_of : ScenarioOutcome → Tally
tally_of o =
    if o.passed
    then pass_tally
    else if o.skipped
    then skip_tally
    else if o.infra
    then infra_tally
    else fail_tally

-- Where a worker stands: without a job; with a job and no kubeconfig yet; holding the lock while the cluster
-- is recreated; before the end of its run; its run counted as completed; and the count of failures in a row
-- updated.
pub data Phase : Type 0 where
  idle taken recreating running : Phase
  counted settled : Tally → Phase

unfoldable pub is_recreating : Phase → Bool
is_recreating p = elim p [ Phase.recreating ↦ true | _ ↦ false ]

-- The atomic counters.
pub record Counters : Type 0 where
  pub completed : ℕ
  pub passed : ℕ
  pub failed : ℕ
  pub skipped : ℕ
  pub consecutive_infra_failures : ℕ

abbrev pub infra_failure_threshold : ℕ
infra_failure_threshold = 2

abbrev pub no_counts : Counters
no_counts = record {
  completed = 0;
  passed = 0;
  failed = 0;
  skipped = 0;
  consecutive_infra_failures = 0;
}

unfoldable pub complete_run : Counters → Counters
complete_run c = record c { completed = c.completed + 1 }

unfoldable pub settle_failures : Tally → Counters → Counters
settle_failures infra_tally c = record c {
  consecutive_infra_failures = c.consecutive_infra_failures + 1;
}
settle_failures _ c = record c { consecutive_infra_failures = 0 }

unfoldable pub count_tally : Tally → Counters → Counters
count_tally pass_tally c = record c { passed = c.passed + 1 }
count_tally skip_tally c = record c { skipped = c.skipped + 1 }
count_tally infra_tally c = record c { failed = c.failed + 1 }
count_tally fail_tally c = record c { failed = c.failed + 1 }

-- A recreated cluster.
unfoldable pub reset_failures : Counters → Counters
reset_failures c = record c { consecutive_infra_failures = 0 }

-- The jobs in the queue, the workers and the counters. The queue is a database that outlives the process.
pub record State : Type 0 where
  pub queued : ℕ
  pub workers : List Phase
  pub counters : Counters

pub data Step : State → State → Type 0 where
  -- Jobs are inserted and retried, and other processes take them.
  shift :
      (n m : ℕ) (workers : List Phase) (c : Counters)
      → Step
          (record { queued = n; workers = workers; counters = c })
          (record { queued = m; workers = workers; counters = c })
  take :
      (n : ℕ) (before after : List Phase) (c : Counters)
      → Step
          (record { queued = suc n; workers = before ++ (idle ∷ after); counters = c })
          (record { queued = n; workers = before ++ (taken ∷ after); counters = c })
  -- The workspace cannot be made: the job returns an error, which no counter sees.
  fail_job :
      (n : ℕ) (before after : List Phase) (c : Counters)
      → Step
          (record { queued = n; workers = before ++ (taken ∷ after); counters = c })
          (record { queued = n; workers = before ++ (idle ∷ after); counters = c })
  -- The count is read under the lock, which nobody else holds.
  begin_recreate :
      (n : ℕ) (before after : List Phase) (c : Counters)
      → infra_failure_threshold ≤ c.consecutive_infra_failures
      → any is_recreating (before ++ after) ≡ false
      → Step
          (record { queued = n; workers = before ++ (taken ∷ after); counters = c })
          (record { queued = n; workers = before ++ (recreating ∷ after); counters = c })
  finish_recreate :
      (n : ℕ) (before after : List Phase) (c : Counters)
      → Step
          (record { queued = n; workers = before ++ (recreating ∷ after); counters = c })
          (record {
            queued = n;
            workers = before ++ (running ∷ after);
            counters = reset_failures c;
          })
  fail_recreate :
      (n : ℕ) (before after : List Phase) (c : Counters)
      → Step
          (record { queued = n; workers = before ++ (recreating ∷ after); counters = c })
          (record { queued = n; workers = before ++ (running ∷ after); counters = c })
  -- Too few failures in a row.
  keep_cluster :
      (n : ℕ) (before after : List Phase) (c : Counters)
      → c.consecutive_infra_failures < infra_failure_threshold
      → any is_recreating (before ++ after) ≡ false
      → Step
          (record { queued = n; workers = before ++ (taken ∷ after); counters = c })
          (record { queued = n; workers = before ++ (running ∷ after); counters = c })
  -- Without a provider there is no lock.
  keep_unmanaged :
      (n : ℕ) (before after : List Phase) (c : Counters)
      → Step
          (record { queued = n; workers = before ++ (taken ∷ after); counters = c })
          (record { queued = n; workers = before ++ (running ∷ after); counters = c })
  finish :
      (n : ℕ) (before after : List Phase) (c : Counters) (o : ScenarioOutcome)
      → Step
          (record { queued = n; workers = before ++ (running ∷ after); counters = c })
          (record {
            queued = n;
            workers = before ++ (counted (tally_of o) ∷ after);
            counters = complete_run c;
          })
  settle :
      (n : ℕ) (before after : List Phase) (c : Counters) (t : Tally)
      → Step
          (record { queued = n; workers = before ++ (counted t ∷ after); counters = c })
          (record {
            queued = n;
            workers = before ++ (settled t ∷ after);
            counters = settle_failures t c;
          })
  tally :
      (n : ℕ) (before after : List Phase) (c : Counters) (t : Tally)
      → Step
          (record { queued = n; workers = before ++ (settled t ∷ after); counters = c })
          (record { queued = n; workers = before ++ (idle ∷ after); counters = count_tally t c })

unfoldable pub idle_workers : ℕ → List Phase
idle_workers zero = []
idle_workers (suc n) = idle ∷ idle_workers n

-- The state in which the workers start, with whatever the queue holds.
unfoldable pub initial_state : ℕ → ℕ → State
initial_state queued parallel = record {
  queued = queued;
  workers = idle_workers parallel;
  counters = no_counts;
}

-- The states of a run on `parallel` workers.
pub data Reach (queued parallel : ℕ) : State → Type 0 where
  start : Reach queued parallel (initial_state queued parallel)
  later : {s t : State} → Reach queued parallel s → Step s t → Reach queued parallel t
