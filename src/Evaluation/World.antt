-- ===== src/Evaluation/World.antt =====
-- What `Service` calls and does not implement: the adapters, the clock and the hash. Each answer
-- may depend on the calls made so far.
use evidra_bench.Base.{String, ℤ, Bool, List, Option, Result}
use evidra_bench.Evaluation.Plan.{Plan, CasePlan, PlanIdentity}
use evidra_bench.Evaluation.Result.{CaseResult}

-- The calls in the order in which they are made. `acquired` says whether it gave a lease and no
-- error.
pub data Call : Type 0 where
  checked released : Call
  acquired : Bool → Call
  executed : String → Call

abbrev pub Trace : Type 0
Trace = List Call

-- An error of the case executor, and whether it is a context's cancellation.
pub record ExecError : Type 0 where
  pub message : String
  pub canceled : Bool

-- A nil interface or function field is `none`. `hash` is the JSON encoding with SHA-256, and
-- `quote` the `%q` of a text.
pub record World (L : Type 0) : Type 0 where
  pub preflights : List (Option (Trace → Plan → Option String))
  pub provisioner : Option (Trace → Plan → Option L × Option String)
  pub executor : Option (Trace → Plan → CasePlan → L → CaseResult × Option ExecError)
  pub release : Trace → L → Option String
  pub new_id : Option (Trace → String)
  pub now : Trace → ℤ
  pub hash : PlanIdentity → Result String String
  pub quote : String → String
