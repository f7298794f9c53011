-- ===== src/Harness/IdentityTests.antt =====
-- provisionRunIdentities of pkg/harness/identities.go against a cluster that answers as a service account
-- that may read nothing, and runs of the gate.
use evidra_bench.Base.{
  String, Bool, true, false, List, [], ◌∷◌, none, some, ◌≡◌, refl, ok, err, leb, length,
  contains_text, trim_space, any, to_lower,
}
use evidra_bench.Authority.Profile.{AuthorityProfile}
use evidra_bench.Identity.Site.{Call, create_token, get_probe, Entry, World, Site, timed_out, kctl}
use evidra_bench.Identity.Gate.{
  emit_marker, marker_error, is_transport_failure, wait_for_auth_ready, probed, probe_of, pause,
}
use evidra_bench.Harness.Identities.{provision_run_identities}
use evidra_bench.Harness.Settled.{IsSettled, provision_run_identities-IsSettled}

abbrev profile : AuthorityProfile
profile = record {
  agent = record {
    namespaces = "shop" ∷ [];
    rules =
        record {
          api_groups = "apps" ∷ [];
          resources = "deployments" ∷ [];
          resource_names = [];
          subresources = [];
          namespaces = [];
          verbs = "get" ∷ "patch" ∷ [];
        }
        ∷ [];
    cluster_scoped_rules = [];
    on_denied = "";
  };
  protected = [];
  forbidden_changes = [];
  evidence_reader = record { namespaces = []; resources = []; extra = [] };
  allow_impersonation = false;
}

abbrev answers : Call → Bool × String
answers (create_token sa) = (true, "a.b.c")
answers (get_probe kubeconfig) = (false, "Error from server (Forbidden)")
answers _ = (true, "")

abbrev passed : List Entry → Bool
passed calls = leb 40 (length calls)

abbrev cluster : World
cluster = record {
  temp_dir = some "/tmp/evidra-identity-1";
  answer = λ calls c. answers c;
  writes = λ calls path. true;
  canceled = λ calls. false;
  expired = passed;
  decode_clusters =
      λ out. some (record { server = "https://127.0.0.1:6443"; ca_data = ""; insecure = "" } ∷ []);
  decode_base64 = λ out. none;
}

abbrev start : Site
start = record { calls = []; files = []; kubeconfigs = [] }

provision_run_identities-IsSettled_example :
    IsSettled (provision_run_identities 41 cluster profile start)
provision_run_identities-IsSettled_example =
    provision_run_identities-IsSettled cluster 40 profile (λ es h. h)

-- A cluster that does not honour the token.
abbrev cold : World
cold = record cluster {
  answer = λ calls c. (false, "system:anonymous is Forbidden");
  expired = λ calls. leb 2 (length calls);
}

cold_times_out :
    (wait_for_auth_ready 5 cold "agent" "agent.kubeconfig" start).0 ≡ err (timed_out "agent")
unfolding wait_for_auth_ready probed probe_of pause kctl contains_text trim_space
cold_times_out = refl

warm_opens : (wait_for_auth_ready 1 cluster "agent" "agent.kubeconfig" start).0 ≡ ok tt
unfolding wait_for_auth_ready probed probe_of pause kctl contains_text trim_space
warm_opens = refl

denied_marker :
    (emit_marker cluster "admin.kubeconfig" "evidra-marker-1" start).0 ≡ ("evidra-marker-1", none)
unfolding emit_marker marker_error kctl contains_text trim_space is_transport_failure to_lower any
denied_marker = refl
