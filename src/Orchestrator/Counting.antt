-- ===== src/Orchestrator/Counting.antt =====
-- No run is lost or counted twice: pkg/orchestrator/orchestrator.go.
use evidra_bench.Base.{
  ◌++◌, ℕ, zero, suc, ◌+◌, ◌≤◌, Bool, true, false, List, [], ◌∷◌, ◌≡◌, refl, arith, all, count_of,
  count_of-append, length, length-append,
}
use evidra_bench.Orchestrator.Workers.{
  Tally, pass_tally, skip_tally, infra_tally, fail_tally, tally_of, Phase, idle, running, counted,
  settled, taken, recreating, Counters, complete_run, settle_failures, count_tally, reset_failures,
  State, Step, take, shift, fail_job, begin_recreate, finish_recreate, fail_recreate, keep_cluster,
  keep_unmanaged, finish, settle, tally, idle_workers, initial_state, Reach, start, later,
}

unfoldable pub is_idle : Phase → Bool
is_idle p = elim p [ Phase.idle ↦ true | _ ↦ false ]

-- Counted as completed and not yet under an outcome.
unfoldable pub is_pending : Phase → Bool
is_pending p = elim p [ Phase.counted t ↦ true | Phase.settled t ↦ true | _ ↦ false ]

pub record IsAccounted (parallel : ℕ) (s : State) : Type 0 where
  pub staffed : length s.workers ≡ parallel
  pub outcomes :
      s.counters.passed + s.counters.failed + s.counters.skipped + count_of is_pending s.workers
      ≡ s.counters.completed

count_idle_workers :
    (n : ℕ) → (length (idle_workers n) ≡ n) × (count_of is_pending (idle_workers n) ≡ 0)
unfolding count_of is_pending idle_workers
count_idle_workers zero = (refl, refl)
count_idle_workers (suc n) =
    let (a, b) = count_idle_workers n in (omega (arith, a), ground (arith, b))

initial_state-IsAccounted :
    (queued parallel : ℕ) → IsAccounted parallel (initial_state queued parallel)
unfolding initial_state
initial_state-IsAccounted queued parallel =
    let (a, b) = count_idle_workers parallel in record { staffed = a; outcomes = omega (arith, b) }

-- The updates of the failures in a row leave the other counters.
settle_keeps :
    (t : Tally) (c : Counters)
    → (((settle_failures t c).completed ≡ c.completed) × ((settle_failures t c).passed ≡ c.passed))
      × (((settle_failures t c).failed ≡ c.failed) × ((settle_failures t c).skipped ≡ c.skipped))
unfolding settle_failures
settle_keeps pass_tally c = ((refl, refl), (refl, refl))
settle_keeps skip_tally c = ((refl, refl), (refl, refl))
settle_keeps infra_tally c = ((refl, refl), (refl, refl))
settle_keeps fail_tally c = ((refl, refl), (refl, refl))

-- One outcome more, and no run.
tally_adds :
    (t : Tally) (c : Counters)
    → ((count_tally t c).completed ≡ c.completed)
      × ((count_tally t c).passed + (count_tally t c).failed + (count_tally t c).skipped
          ≡ c.passed + c.failed + c.skipped + 1)
unfolding count_tally
tally_adds pass_tally c = (refl, omega arith)
tally_adds skip_tally c = (refl, omega arith)
tally_adds infra_tally c = (refl, omega arith)
tally_adds fail_tally c = (refl, omega arith)

-- A worker moves on: the counts of the workers before and after.
swapped :
    (before after : List Phase) (old new : Phase)
    → (length (before ++ (new ∷ after)) ≡ length (before ++ (old ∷ after)))
      × (count_of is_pending (before ++ (new ∷ after)) + count_of is_pending (old ∷ [])
          ≡ count_of is_pending (before ++ (old ∷ after)) + count_of is_pending (new ∷ []))
unfolding count_of
swapped before after old new =
    let p = count_of-append is_pending before in
    let l = length-append before in
    (
      omega (arith, l (new ∷ after), l (old ∷ after)),
      ground (arith, p (new ∷ after), p (old ∷ after)),
    )

Step-IsAccounted :
    {s t : State} (parallel : ℕ) → Step s t → IsAccounted parallel s → IsAccounted parallel t
unfolding count_of is_pending complete_run reset_failures
Step-IsAccounted parallel (shift n m workers c) a = record {
  staffed = a.staffed;
  outcomes = a.outcomes;
}
Step-IsAccounted parallel (take n before after c) a =
    let m = swapped before after idle taken in
    record { staffed = omega (arith, m, a.staffed); outcomes = omega (arith, m, a.outcomes) }
Step-IsAccounted parallel (fail_job n before after c) a =
    let m = swapped before after taken idle in
    record { staffed = omega (arith, m, a.staffed); outcomes = omega (arith, m, a.outcomes) }
Step-IsAccounted parallel (begin_recreate n before after c h free) a =
    let m = swapped before after taken recreating in
    record { staffed = omega (arith, m, a.staffed); outcomes = omega (arith, m, a.outcomes) }
Step-IsAccounted parallel (finish_recreate n before after c) a =
    let m = swapped before after recreating running in
    record { staffed = omega (arith, m, a.staffed); outcomes = omega (arith, m, a.outcomes) }
Step-IsAccounted parallel (fail_recreate n before after c) a =
    let m = swapped before after recreating running in
    record { staffed = omega (arith, m, a.staffed); outcomes = omega (arith, m, a.outcomes) }
Step-IsAccounted parallel (keep_cluster n before after c h free) a =
    let m = swapped before after taken running in
    record { staffed = omega (arith, m, a.staffed); outcomes = omega (arith, m, a.outcomes) }
Step-IsAccounted parallel (keep_unmanaged n before after c) a =
    let m = swapped before after taken running in
    record { staffed = omega (arith, m, a.staffed); outcomes = omega (arith, m, a.outcomes) }
Step-IsAccounted parallel (finish n before after c o) a =
    let m = swapped before after running (counted (tally_of o)) in
    record { staffed = omega (arith, m, a.staffed); outcomes = omega (arith, m, a.outcomes) }
Step-IsAccounted parallel (settle n before after c t) a =
    let m = swapped before after (counted t) (settled t) in
    let k = settle_keeps t c in
    record { staffed = omega (arith, m, a.staffed); outcomes = omega (arith, m, k, a.outcomes) }
Step-IsAccounted parallel (tally n before after c t) a =
    let m = swapped before after (settled t) idle in
    let k = tally_adds t c in
    record { staffed = omega (arith, m, a.staffed); outcomes = omega (arith, m, k, a.outcomes) }

Reach-IsAccounted :
    (queued parallel : ℕ) {s : State} → Reach queued parallel s → IsAccounted parallel s
Reach-IsAccounted queued parallel start = initial_state-IsAccounted queued parallel
Reach-IsAccounted queued parallel (later r step) =
    Step-IsAccounted parallel step (Reach-IsAccounted queued parallel r)

count_idle : (ps : List Phase) → all is_idle ps ≡ true → count_of is_pending ps ≡ 0
unfolding count_of all is_idle is_pending
count_idle [] h = refl
count_idle (Phase.idle ∷ ps) h = ground (arith, count_idle ps h)
count_idle (Phase.taken ∷ ps) h = cc h
count_idle (Phase.recreating ∷ ps) h = cc h
count_idle (Phase.running ∷ ps) h = cc h
count_idle (Phase.counted t ∷ ps) h = cc h
count_idle (Phase.settled t ∷ ps) h = cc h

count-length : (ps : List Phase) → count_of is_pending ps ≤ length ps
unfolding count_of
count-length [] = omega arith
count-length (p ∷ ps) = ground (arith, count-length ps)

-- In every state of a parallel run, whatever the shared queue holds and whichever jobs fail early, the
-- passed, failed and skipped runs are no more than the completed ones and fall short of them by no more
-- than the number of workers; and once all workers are idle, they add up to the completed runs.
pub Reach-totals :
    (queued parallel : ℕ) {s : State}
    → Reach queued parallel s
    → (s.counters.passed + s.counters.failed + s.counters.skipped ≤ s.counters.completed)
      × (s.counters.completed
          ≤ s.counters.passed + s.counters.failed + s.counters.skipped + parallel)
      × (all is_idle s.workers ≡ true
          → s.counters.passed + s.counters.failed + s.counters.skipped ≡ s.counters.completed)
Reach-totals queued parallel {s} r =
    let a = Reach-IsAccounted queued parallel r in
    let few = count-length s.workers in
    (
      omega (arith, a.outcomes),
      omega (arith, a.outcomes, a.staffed, few),
      λ stopped. omega (arith, a.outcomes, count_idle s.workers stopped),
    )
