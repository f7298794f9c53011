-- ===== src/Identity/Site.antt =====
-- What Provision and Teardown of pkg/environment/identity.go do to the cluster and the disk: the calls of
-- kubectl in order, the manifest files of the bundle and the kubeconfigs. kubectl, os.WriteFile, the context,
-- the clock and the decoders are a World, whose answers may depend on the calls so far.
use evidra_bench.Base.{String, Bool, List, [], ◌∷◌, ◌++◌, Option, Result, ok, err}
use evidra_bench.Authority.Compile.{CompileError}
use evidra_bench.Identity.Collisions.{Collision}

-- The arguments of a call, without the flags that are always the same. A probe names its kubeconfig.
pub data Call : Type 0 where
  apply delete : String → Call
  delete_namespace view_config : Call
  create_token get_secret : String → Call
  get_probe : String → Call

pub record Entry : Type 0 where
  pub call : Call
  pub accepted : Bool
  pub output : String

pub record Endpoint : Type 0 where
  pub server : String
  pub ca_data : String
  pub insecure : String

pub record World : Type 0 where
  pub temp_dir : Option String
  pub answer : List Entry → Call → Bool × String
  pub writes : List Entry → String → Bool
  pub canceled : List Entry → Bool
  pub expired : List Entry → Bool
  pub decode_clusters : String → Option (List Endpoint)
  pub decode_base64 : String → Option String

pub record Site : Type 0 where
  pub calls : List Entry
  pub files : List String
  pub kubeconfigs : List (String × (Endpoint × String))

-- The errors, without their texts; `panicked` is the panic of identityManifests, and `unfinished` is the end of
-- the fuel of a gate.
pub data IdentityError : Type 0 where
  no_temp_dir : IdentityError
  refused : List Collision → IdentityError
  panicked : CompileError → IdentityError
  unwritten not_applied : String → IdentityError
  no_view bad_view no_server : IdentityError
  token_canceled no_token : IdentityError
  unreachable timed_out gate_canceled : String → IdentityError
  unfinished : IdentityError

abbrev pub Step : Type 0 → Type 0
Step A = Site → Result IdentityError A × Site

unfoldable pub after :
    {A B : Type 0} → Result IdentityError A × Site → (A → Step B) → Result IdentityError B × Site
after (err e, s) next = (err e, s)
after (ok a, s) next = next a s

unfoldable pub then_do : {A B : Type 0} → Step A → (A → Step B) → Step B
then_do first next s = after (first s) next

-- `p.kctl`
unfoldable pub kctl : World → Call → Site → (Bool × String) × Site
kctl w c s =
    let a = w.answer s.calls c in
    (a, record s { calls = s.calls ++ record { call = c; accepted = a.0; output = a.1 } ∷ [] })
