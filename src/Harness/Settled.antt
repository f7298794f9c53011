-- ===== src/Harness/Settled.antt =====
-- What provisionRunIdentities of pkg/harness/identities.go leaves on the cluster, on every branch.
use evidra_bench.Base.{
  ◌∙◌, ℕ, suc, Bool, true, List, [], ◌≡◌, refl, arith, any, Result, ok, err, leb, length,
}
use mathlib.Core.List.{reverse}
use evidra_bench.Authority.Profile.{AuthorityProfile}
use evidra_bench.Identity.Site.{Entry, World, Site, IdentityError, get_probe}
use evidra_bench.Identity.Provision.{Identity, IdentityBundle, provision, teardown}
use evidra_bench.Identity.Tracked.{
  IsTracked, applied, told, deleted, refused, deleted-told, applied_of, told_of, kctl-IsTracked,
}
use evidra_bench.Identity.Provisioned.{provision-Tracks}
use evidra_bench.Identity.Gated.{
  proves, is_finished, is_decided, opened, kctl-any, wait_for_auth_ready-Keeps,
  wait_for_auth_ready-Proves,
}
use evidra_bench.Identity.Deadline.{wait_for_auth_ready-Decides}
use evidra_bench.Identity.Revoked.{teardown-told}
use evidra_bench.Harness.Identities.{
  RunIdentityError, not_provisioned, not_ready, gate, last_gate, first_gate, provisioned,
  provision_run_identities,
}

-- Both identities have been seen by the API server, and their objects are those of the bundle.
pub record IsReady (b : IdentityBundle) (s : Site) : Type 0 where
  pub tracked : IsTracked s
  pub agent_seen : any (proves b.agent.kubeconfig_path) s.calls ≡ true
  pub evidence_seen : any (proves b.evidence.kubeconfig_path) s.calls ≡ true

pub record IsRevoked (e : IdentityError) (s : Site) : Type 0 where
  pub mirrored : told s.calls ≡ reverse (applied s.calls)
  pub gone : refused s.calls ≡ [] → deleted s.calls ≡ reverse (applied s.calls)
  pub finished : is_finished e ≡ true

-- Ready; or a gate failed and every object was to be deleted; or provisioning failed and none was.
unfoldable pub IsSettled : Result RunIdentityError IdentityBundle × Site → Type 0
IsSettled (ok b, s) = IsReady b s
IsSettled (err (not_provisioned e), s) = IsTracked s
IsSettled (err (not_ready e), s) = IsRevoked e s

module _ (w : World) where
  gate-IsTracked :
      (fuel : ℕ) (id : Identity) (s : Site) → IsTracked s → IsTracked (gate fuel w id s).1
  unfolding gate applied_of told_of
  gate-IsTracked fuel id s h =
      wait_for_auth_ready-Keeps w IsTracked id.user id.kubeconfig_path fuel
        (λ t. kctl-IsTracked w (get_probe id.kubeconfig_path) t refl refl) s h

  gate-any :
      (fuel : ℕ) (id : Identity) (p : Entry → Bool) (s : Site)
      → any p s.calls ≡ true
      → any p (gate fuel w id s).1.calls ≡ true
  unfolding gate
  gate-any fuel id p s h =
      wait_for_auth_ready-Keeps w (λ (t : Site). any p t.calls ≡ true) id.user id.kubeconfig_path
        fuel (kctl-any w p (get_probe id.kubeconfig_path)) s h

  revoked :
      (e : IdentityError) (s : Site)
      → IsTracked s
      → is_finished e ≡ true
      → IsRevoked e (teardown w s).1
  revoked e s h done =
      let asked = teardown-told w s h in
      record {
        mirrored = asked;
        gone = λ accepted. deleted-told (teardown w s).1.calls accepted ∙ asked;
        finished = done;
      }

  last_gate-IsSettled :
      (b : IdentityBundle) (r : Result IdentityError (Unit {0}) × Site)
      → IsTracked r.1
      → any (proves b.agent.kubeconfig_path) r.1.calls ≡ true
      → (opened r.0 ≡ true → any (proves b.evidence.kubeconfig_path) r.1.calls ≡ true)
      → is_decided r.0 ≡ true
      → IsSettled (last_gate w b r)
  unfolding last_gate IsSettled opened is_decided
  last_gate-IsSettled b (ok u, s) h agent evidence done = record {
    tracked = h;
    agent_seen = agent;
    evidence_seen = evidence refl;
  }
  last_gate-IsSettled b (err e, s) h agent evidence done = revoked e s h done

  module _ (k : ℕ)
      (deadline : (es : List Entry) → leb k (length es) ≡ true → w.expired es ≡ true) where
    gate-decided : (id : Identity) (s : Site) → is_decided (gate (suc k) w id s).0 ≡ true
    unfolding gate
    gate-decided id s =
        wait_for_auth_ready-Decides w k deadline id.user id.kubeconfig_path k s (ground arith)

    first_gate-IsSettled :
        (b : IdentityBundle) (r : Result IdentityError (Unit {0}) × Site)
        → IsTracked r.1
        → (opened r.0 ≡ true → any (proves b.agent.kubeconfig_path) r.1.calls ≡ true)
        → is_decided r.0 ≡ true
        → IsSettled (first_gate (suc k) w b r)
    unfolding first_gate IsSettled opened is_decided gate
    first_gate-IsSettled b (ok u, s) h agent done =
        last_gate-IsSettled b (gate (suc k) w b.evidence s) (gate-IsTracked (suc k) b.evidence s h)
          (gate-any (suc k) b.evidence (proves b.agent.kubeconfig_path) s (agent refl))
          (wait_for_auth_ready-Proves w b.evidence.user b.evidence.kubeconfig_path (suc k) s)
          (gate-decided b.evidence s)
    first_gate-IsSettled b (err e, s) h agent done = revoked e s h done

    provisioned-IsSettled :
        (r : Result IdentityError IdentityBundle × Site)
        → IsTracked r.1
        → IsSettled (provisioned (suc k) w r)
    unfolding provisioned IsSettled gate
    provisioned-IsSettled (err e, s) h = h
    provisioned-IsSettled (ok b, s) h =
        first_gate-IsSettled b (gate (suc k) w b.agent s) (gate-IsTracked (suc k) b.agent s h)
          (wait_for_auth_ready-Proves w b.agent.user b.agent.kubeconfig_path (suc k) s)
          (gate-decided b.agent s)

-- If the deadline of a gate has passed after k calls of kubectl and the run starts with none, then on k + 1
-- rounds of fuel: identities are returned only after the API server has answered both of them as
-- authenticated; if a gate fails, which is never for lack of fuel, kubectl has been told to delete every
-- object that was applied, the last first, whether or not it refused an earlier deletion, and if it refused
-- none, they are deleted; and if provisioning fails, it is not told to delete any object that was applied.
pub provision_run_identities-IsSettled :
    (w : World) (k : ℕ) (profile : AuthorityProfile)
    → ((es : List Entry) → leb k (length es) ≡ true → w.expired es ≡ true)
    → IsSettled (
        provision_run_identities
          (suc k)
          w
          profile
          (record { calls = []; files = []; kubeconfigs = [] }))
unfolding provision_run_identities applied told
provision_run_identities-IsSettled w k profile deadline =
    let start : Site = record { calls = []; files = []; kubeconfigs = [] } in
    provisioned-IsSettled w k deadline (provision w profile start)
      (provision-Tracks w profile start (record { known = refl; kept = refl }))
