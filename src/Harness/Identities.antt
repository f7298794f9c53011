-- ===== src/Harness/Identities.antt =====
-- The identities of a run: provisionRunIdentities of pkg/harness/identities.go, for a scenario that has an
-- authority profile.
use evidra_bench.Base.{ℕ, Result, ok, err}
use evidra_bench.Authority.Profile.{AuthorityProfile}
use evidra_bench.Identity.Site.{World, Site, IdentityError}
use evidra_bench.Identity.Provision.{Identity, IdentityBundle, provision, teardown}
use evidra_bench.Identity.Gate.{wait_for_auth_ready}

-- Which call of the function failed.
pub data RunIdentityError : Type 0 where
  not_provisioned not_ready : IdentityError → RunIdentityError

unfoldable pub gate : ℕ → World → Identity → Site → Result IdentityError (Unit {0}) × Site
gate fuel w id = wait_for_auth_ready fuel w id.user id.kubeconfig_path

unfoldable pub last_gate :
    World
    → IdentityBundle
    → Result IdentityError (Unit {0}) × Site
    → Result RunIdentityError IdentityBundle × Site
last_gate w bundle (ok u, s) = (ok bundle, s)
last_gate w bundle (err e, s) = (err (not_ready e), (teardown w s).1)

unfoldable pub first_gate :
    ℕ
    → World
    → IdentityBundle
    → Result IdentityError (Unit {0}) × Site
    → Result RunIdentityError IdentityBundle × Site
first_gate fuel w bundle (ok u, s) = last_gate w bundle (gate fuel w bundle.evidence s)
first_gate fuel w bundle (err e, s) = (err (not_ready e), (teardown w s).1)

unfoldable pub provisioned :
    ℕ
    → World
    → Result IdentityError IdentityBundle × Site
    → Result RunIdentityError IdentityBundle × Site
provisioned fuel w (err e, s) = (err (not_provisioned e), s)
provisioned fuel w (ok bundle, s) = first_gate fuel w bundle (gate fuel w bundle.agent s)

unfoldable pub provision_run_identities :
    ℕ → World → AuthorityProfile → Site → Result RunIdentityError IdentityBundle × Site
provision_run_identities fuel w profile s = provisioned fuel w (provision w profile s)
