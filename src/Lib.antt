-- ===== src/Lib.antt =====
-- The safety evaluation of evidra-bench: what an agent was allowed to do, what it did, and the
-- verdict.
--
-- A scenario declares an authority profile (pkg/scenario/authority.go), which pkg/authority/plan.go
-- compiles into one plan. The plan classifies each action that the API audit attributes to the
-- agent and materialises the RBAC roles that the agent receives. pkg/audit/fields.go decides from
-- the bodies of granted mutations whether a forbidden field transition was made.
-- pkg/evaluation/authority.go turns the actions, the surviving changes, the coverage of the sources
-- and the state of the checks into a verdict. pkg/audit/collector.go drains the audit logs into a
-- window, pkg/snapshot compares checkpoints of the state of the cluster, and pkg/harness gives both
-- to the engine and builds the result of a case, and pkg/evaluation/service.go runs the cases of a
-- plan on a leased environment and sums up their results.
--
-- * Base holds what the modules share: Boolean tests, lists, texts, splitting, maps as association
--   lists, results that may be an error, and an integer over the native numbers.
-- * Json is a decoded JSON value. A number is the text that json.Marshal prints for it.
-- * Authority is pkg/authority/plan.go and the profiles that it compiles: Profile and Loader are
--   the records of a profile and validateAuthorityProfile of pkg/scenario/authority.go; Rule has
--   the tests of one rule, Compile the function Compile, Classify the function Classify, and Rbac
--   the functions RolesByNamespace, ClusterRoleRules and render, Scopes the scopes of the snapshots
--   and Describe. Sets, Orphans, Invariant, Gathered, Roles, Lockstep, Admission and Surface hold
--   proofs.
-- * Audit.FieldPath and Audit.Fields are pkg/audit/fields.go, from ParseFieldPath to
--   ForbiddenChangeMatches. Audit.Transitions and Audit.Bodies hold proofs.
-- * Audit.Events and Audit.Window are pkg/audit/events.go: the store of audit events with Add,
--   HasTerminal, Ops and All, then Window and FindMarker. Audit.Ingest, Audit.Observed and
--   Audit.Markers hold proofs.
-- * Audit.Parse, Audit.Health, Audit.Redact and Audit.Collect are the function Parse of
--   pkg/audit/events.go and health.go, redact.go and collector.go of the same folder.
--   Audit.Keeping, Audit.Sealing, Audit.Reading, Audit.Sealed, Audit.Terminated and Audit.Ending
--   hold proofs, and Audit.Samples test data.
-- * Snapshot.Normalize and Snapshot.Sets are pkg/snapshot/snapshot.go, and Snapshot.Diff is
--   diff.go. Volatile, Secrets, Keys and Changes hold proofs.
-- * Harness.Checkpoints is pkg/harness/snapshots.go, AuditWindow audit_window.go, EngineView
--   engine.go, CaseBuild and CaseVerdict evaluation_result.go and metadata.go. ObjectNames,
--   Preservation, Outcomes, Faults, Soundness and Assurance hold proofs.
-- * Orchestrator.Outcome and Orchestrator.Workers are pkg/orchestrator/orchestrator.go: the outcome
--   of a run, and the workers of a parallel run on a job queue that other runs share; Counting
--   holds proofs.
-- * Agent.Messages is pkg/agent/provider.go, Agent.Context and Agent.Loop are loop.go of the same
--   folder, Agent.Retry is retry.go and the loop of Chat in openai_compatible.go; Recent, Turns and
--   Waits hold proofs.
-- * Timeline.Commands, Timeline.Steps and Timeline.Parse are pkg/bench/timeline_parse.go: the
--   phases of the tool calls of a run. Counts and Blind hold proofs, and Samples test data.
-- * Identity is pkg/environment/identity.go: Collisions is ValidateProfileRules, Manifests the
--   objects that identityManifests renders, Site the calls of kubectl, Provision the functions
--   Provision and Teardown, and Gate the functions WaitForAuthReady and EmitMarker. Bound says what
--   the objects allow a service account; Slashes, Grants, Protection, Tracked, Provisioned, Gated,
--   Deadline and Revoked hold proofs. Harness.Identities is pkg/harness/identities.go;
--   Harness.Settled holds proofs.
-- * Autopsy is pkg/autopsy/autopsy.go: Report has the findings, Tokens and Patterns match the
--   patterns of a scenario, Transcript finds what the agent said last, Repeats the repeated
--   commands, Manifests the partial manifests, and Analyze puts them together. Matching, Kinds,
--   Classified and Unsafe hold proofs, and Samples test data. Harness.AutopsyReport is
--   pkg/harness/autopsy.go; Harness.Convictions holds proofs.
-- * Evaluation.Verdict is pkg/evaluation/verdict.go; Coverage and Evidence are evidence.go of the
--   same folder; Input, Findings and Engine are authority.go; Plan is plan.go; Termination and
--   Result are result.go; World, Messages and Service are service.go and cleanup.go. Violations,
--   Precedence, Stability, Manifest, Validity, Lifecycle, Tallies and Accounting hold proofs.
--
-- pkg/orchestrator/orchestrator.go runs many cases in parallel, and pkg/agent/loop.go is the loop
-- of an agent that the repository drives itself.
--
-- State is passed explicitly. The workers of a parallel run are a relation of atomic steps, which
-- interleave in any order. A run of the service threads the trace of the calls that it makes, and
-- the adapters, the clock, the identifiers, the hash and the quoting of texts are fields of a
-- World. What the adapters, the clock and the identifiers answer may depend on the trace, so that a
-- theorem on a run holds for whatever they answer. Errors are values: an error type with a
-- constructor for each message of the code, or an Option where there is one error. A loop over a
-- slice is structural recursion on a list; a loop with an early return is a function that returns
-- what the code returns. Three functions have fuel: the printing of a number in decimal has the
-- number itself plus one, which is more than the count of its digits; the auth-ready gate has a
-- number of probes, for which one more than the calls until its deadline is enough; and the drain
-- of the collector has a number of rounds, for which one more than the round in which the deadline
-- passes is enough.
--
-- A Go map that the code only tests for keys is a list; the map of roles is an association list
-- that keeps the first place of each key, and the map of stored events is the list of its values.
-- Verdicts, coverages and target kinds are data with a constructor for any other text, and a
-- termination kind is one of its three texts or empty. Times are integers, and those of audit
-- events are nanoseconds from the zero time of Go. strings.EqualFold folds the ASCII letters and
-- the two other code points that fold onto them. A request body is the option of its decoded value.
--
-- Not modelled: the wait of RunParallel and the insertion of its jobs; contexts, cancellation and
-- timeouts other than what an adapter answers; the JSON and SHA-256 of a fingerprint; the decoding
-- of bodies, events and profiles; the cluster, the network and the files; the other packages of the
-- repository. A sequence of bytes is a list of numbers. What a source of audit logs answers in a
-- round, the probes of a node, what the lister of a snapshot returns and strconv.Atoi are functions
-- that the model is given.
pub mod Base
pub mod Json
pub mod Authority
pub mod Audit
pub mod Evaluation
pub mod Snapshot
pub mod Harness
pub mod Orchestrator
pub mod Agent
pub mod Timeline
pub mod Autopsy
pub mod Identity
