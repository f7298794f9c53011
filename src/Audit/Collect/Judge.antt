-- ===== src/Audit/Collect/Judge.antt =====
-- What `Collect` of pkg/audit/collector.go makes of the drained sources.
use evidra_bench.Base.{
  String, ℕ, Bool, not, ◌&&◌, List, [], ◌∷◌, Option, none, some, concat, decimal, join, length, ltb,
  eqb, if◌then◌else◌,
}
use evidra_bench.Authority.Compile.{sort_strings}
use evidra_bench.Audit.Events.{Event, Store}
use evidra_bench.Audit.Window.{WindowResult, nothing_seen, window}
use evidra_bench.Audit.Health.{Health, described, first_unhealthy}
use evidra_bench.Audit.Collect.Loop.{Cluster, CollectRequest, Drain, new_drain, is_found, drain}

pub data Coverage : Type 0 where
  complete incomplete absent : Coverage

-- `store` is nil where nothing was read.
pub record CollectResult : Type 0 where
  pub store : Option Store
  pub window : WindowResult
  pub coverage : Coverage
  pub reasons : List String
  pub start_event : Option Event
  pub end_event : Option Event
  pub lines : ℕ
  pub bad : ℕ
  pub node_failures : List String

unfoldable pub nothing_collected : String → CollectResult
nothing_collected reason = record {
  store = none;
  window = nothing_seen;
  coverage = absent;
  reasons = reason ∷ [];
  start_event = none;
  end_event = none;
  lines = 0;
  bad = 0;
  node_failures = [];
}

unfoldable pub without_window : Drain → Coverage → List String → CollectResult
without_window d coverage reasons = record {
  store = some d.store;
  window = nothing_seen;
  coverage = coverage;
  reasons = reasons;
  start_event = none;
  end_event = none;
  lines = d.lines;
  bad = d.bad;
  node_failures = d.node_failures;
}

unfoldable pub first_failure : List String → List String
first_failure [] = []
first_failure (f ∷ fs) = concat ("first: " ∷ f ∷ []) ∷ []

unfoldable pub all_failed : CollectRequest → Drain → CollectResult
all_failed req d =
    record (without_window d absent
      ("audit log reader failed on one or more nodes" ∷ first_failure d.node_failures)) {
        node_failures =
            if ltb (length req.sources) (length d.node_failures) then [] else d.node_failures;
      }

-- The inner switch: the coverage and the reasons of a window between two markers.
unfoldable pub graded : Drain → WindowResult → Coverage × List String
graded d w =
    if ltb 0 (length d.rotated)
    then (incomplete, concat ("log_rotated: " ∷ join "," (sort_strings d.rotated) ∷ []) ∷ [])
    else if ltb 0 (length w.incomplete)
    then (
      incomplete,
      concat (
            "operations without terminal stage at drain end: " ∷ decimal (length w.incomplete) ∷ [])
          ∷ [],
    )
    else if ltb 0 d.bad
    then (
      incomplete,
      concat (
            "audit log lines failed JSON decode: "
            ∷ decimal d.bad
            ∷ " of "
            ∷ decimal d.lines
            ∷ " lines"
            ∷ [])
          ∷ [],
    )
    else if ltb 0 (length d.node_failures)
    then (incomplete, "audit log reader failed on one or more nodes" ∷ [])
    else (complete, [])

unfoldable pub with_window : Drain → Event → Event → CollectResult
with_window d s e = record {
  store = some d.store;
  window = window d.store s e;
  coverage = (graded d (window d.store s e)).0;
  reasons = (graded d (window d.store s e)).1;
  start_event = some s;
  end_event = some e;
  lines = d.lines;
  bad = d.bad;
  node_failures = d.node_failures;
}

-- The cases in which at least one source was read, or one was rotated after the start.
unfoldable pub between : Drain → Option Event → Option Event → CollectResult
between d none e = without_window d incomplete ("start marker not observed in audit" ∷ [])
between d (some s) none = without_window d incomplete ("end marker not observed in audit" ∷ [])
between d (some s) (some e) = with_window d s e

unfoldable pub is_unread : CollectRequest → Drain → Bool
is_unread req d = eqb d.failures (length req.sources)

-- The outer switch.
unfoldable pub judge : CollectRequest → Drain → CollectResult
judge req d =
    if is_unread req d && eqb (length d.rotated) 0
    then all_failed req d
    else if is_unread req d && not (is_found d.start)
    then without_window d incomplete ("log_rotated" ∷ [])
    else between d d.start d.finish

unfoldable pub judged : CollectRequest → Option Drain → Option CollectResult
judged req none = none
judged req (some d) = some (judge req d)

unfoldable pub checked : ℕ → Cluster → CollectRequest → Option Health → Option CollectResult
checked fuel c req (some h) =
    some (nothing_collected (concat ("audit health: " ∷ described h ∷ [])))
checked fuel c req none = judged req (drain fuel c req 0 new_drain)

unfoldable pub collect_from : ℕ → Cluster → CollectRequest → List String → Option CollectResult
collect_from fuel c req [] = some (nothing_collected "audit not provisioned on this cluster")
collect_from fuel c req (name ∷ names) =
    checked fuel c req (first_unhealthy c.probe req.health_check_nodes)

-- `none` is a collection that has not ended in `fuel` rounds.
unfoldable pub collect : ℕ → Cluster → CollectRequest → Option CollectResult
collect fuel c req = collect_from fuel c req req.sources
