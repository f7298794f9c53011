-- ===== src/Identity/Provision.antt =====
-- Provision and Teardown of pkg/environment/identity.go with applyAll, clusterInfo, mintToken and
-- writeKubeconfig.
use evidra_bench.Base.{
  String, ℕ, zero, suc, ◌+◌, Bool, true, false, not, ◌&&◌, List, [], ◌∷◌, ◌++◌, Option, none, some,
  Result, ok, err, concat, count_code, decimal, eqb, is_empty, ltb, trim_space, if◌then◌else◌,
}
use evidra_bench.Authority.Profile.{AuthorityProfile}
use evidra_bench.Authority.Compile.{CompileError}
use evidra_bench.Identity.Collisions.{Collision, validate_profile_rules}
use evidra_bench.Identity.Manifests.{
  Manifest, identity_manifests, agent_service_account, evidence_service_account, identity_namespace,
}
use evidra_bench.Identity.Site.{
  apply, delete, delete_namespace, view_config, create_token, get_secret, Endpoint, World, Site,
  IdentityError, no_temp_dir, refused, panicked, unwritten, not_applied, no_view, bad_view,
  no_server, token_canceled, no_token, Step, then_do, kctl,
}

pub record Identity : Type 0 where
  pub user : String
  pub kubeconfig_path : String

-- The files of the bundle are those of the site.
pub record IdentityBundle : Type 0 where
  pub agent : Identity
  pub evidence : Identity

abbrev pub user_of : String → String
user_of sa = concat ("system:serviceaccount:" ∷ identity_namespace ∷ ":" ∷ sa ∷ [])

unfoldable pub applied_file :
    String → (Bool × String) × Site → Result IdentityError (Unit {0}) × Site
applied_file path ((true, out), s) = (ok tt, record s { files = s.files ++ path ∷ [] })
applied_file path ((false, out), s) = (err (not_applied path), s)

-- Writes a manifest and applies it.
unfoldable pub apply_file : World → String → Step (Unit {0})
apply_file w path s =
    if w.writes s.calls path
    then applied_file path (kctl w (apply path) s)
    else (err (unwritten path), s)

unfoldable pub manifest_path : String → ℕ → String
manifest_path dir i =
    concat (dir ∷ "/manifest-" ∷ (if ltb i 10 then "0" else "") ∷ decimal i ∷ ".json" ∷ [])

unfoldable pub apply_all : World → String → ℕ → List Manifest → Step (Unit {0})
apply_all w dir i [] = λ s. (ok tt, s)
apply_all w dir i (m ∷ rest) =
    then_do (apply_file w (manifest_path dir i)) (λ _. apply_all w dir (i + 1) rest)

unfoldable pub first_server : Option (List Endpoint) → Result IdentityError Endpoint
first_server none = err bad_view
first_server (some []) = err no_server
first_server (some (c ∷ rest)) = if is_empty c.server then err no_server else ok c

unfoldable pub viewed : World → (Bool × String) × Site → Result IdentityError Endpoint × Site
viewed w ((false, out), s) = (err no_view, s)
viewed w ((true, out), s) = (first_server (w.decode_clusters out), s)

unfoldable pub cluster_info : World → Step Endpoint
cluster_info w s = viewed w (kctl w view_config s)

unfoldable pub filled : Option String → Option String
filled none = none
filled (some tok) = if is_empty tok then none else some tok

unfoldable pub secret_token : World → Bool → String → Option String
secret_token w got out =
    if got && not (is_empty (trim_space out))
    then filled (w.decode_base64 (trim_space out))
    else none

unfoldable pub polled : World → Step String → Option String → Step String
polled w more (some tok) s = (ok tok, s)
polled w more none s = if w.canceled s.calls then (err token_canceled, s) else more s

unfoldable pub poll_token : World → String → ℕ → Step String
poll_token w sa zero = λ s. (err no_token, s)
poll_token w sa (suc left) = λ s.
    let r = kctl w (get_secret sa) s in
    polled w (poll_token w sa left) (secret_token w r.0.0 r.0.1) r.1

unfoldable pub legacy_token : World → String → String → Step String
legacy_token w dir sa =
    then_do (apply_file w (concat (dir ∷ "/secret-" ∷ sa ∷ ".json" ∷ []))) (λ _. poll_token w sa 30)

unfoldable pub is_token : String → Bool
is_token tok = eqb (count_code 46 tok) 2 && not (is_empty tok)

unfoldable pub minted : World → String → String → String → Bool → Step String
minted w dir sa tok true s = (ok tok, s)
minted w dir sa tok false s = legacy_token w dir sa s

unfoldable pub mint_token : World → String → String → Step String
mint_token w dir sa s =
    let r = kctl w (create_token sa) s in
    let tok = trim_space r.0.1 in minted w dir sa tok (r.0.0 && is_token tok) r.1

unfoldable pub write_kubeconfig : World → String → Endpoint → String → Step (Unit {0})
write_kubeconfig w path cluster token s =
    if w.writes s.calls path
    then (ok tt, record s { kubeconfigs = s.kubeconfigs ++ (path, (cluster, token)) ∷ [] })
    else (err (unwritten path), s)

-- The token of an account and the kubeconfig that holds it.
unfoldable pub identity_for : World → String → Endpoint → String → String → Step Identity
identity_for w dir cluster sa file =
    let path = concat (dir ∷ "/" ∷ file ∷ []) in
    then_do (mint_token w dir sa) (λ token.
      then_do (write_kubeconfig w path cluster token)
        (λ _ s. (ok (record { user = user_of sa; kubeconfig_path = path }), s)))

unfoldable pub provision_in : World → String → List Manifest → Step IdentityBundle
provision_in w dir objects = then_do (apply_all w dir 0 objects) (λ _.
    then_do (cluster_info w) (λ cluster.
      then_do (identity_for w dir cluster agent_service_account "agent.kubeconfig.json") (λ agent.
        then_do (identity_for w dir cluster evidence_service_account "evidence.kubeconfig.json")
          (λ evidence s. (ok (record { agent = agent; evidence = evidence }), s)))))

unfoldable pub rendered_in :
    World → String → Result CompileError (List Manifest) → Step IdentityBundle
rendered_in w dir (err e) = λ s. (err (panicked e), s)
rendered_in w dir (ok objects) = provision_in w dir objects

unfoldable pub validated_in :
    World → AuthorityProfile → String → List Collision → Step IdentityBundle
validated_in w profile dir (c ∷ cs) s = (err (refused (c ∷ cs)), s)
validated_in w profile dir [] s = rendered_in w dir (identity_manifests profile) s

unfoldable pub provision_at : World → AuthorityProfile → Option String → Step IdentityBundle
provision_at w profile none s = (err no_temp_dir, s)
provision_at w profile (some dir) s = validated_in w profile dir (validate_profile_rules profile) s

-- A profile is given; on an error the directory is removed and the objects stay.
unfoldable pub provision : World → AuthorityProfile → Step IdentityBundle
provision w profile = provision_at w profile w.temp_dir

unfoldable pub first_failed : Option String → String → Bool → Option String
first_failed (some f) file accepted = some f
first_failed none file true = none
first_failed none file false = some file

-- The files from the last to the first; a failed deletion does not stop the others.
unfoldable pub delete_files : World → List String → Site → Option String × Site
delete_files w [] s = (none, s)
delete_files w (f ∷ fs) s =
    let later = delete_files w fs s in
    let r = kctl w (delete f) later.1 in (first_failed later.0 f r.0.0, r.1)

-- The file that was not deleted first, if there is one. The directory is removed as well.
unfoldable pub teardown : World → Site → Option String × Site
teardown w s = let r = delete_files w s.files s in (r.0, (kctl w delete_namespace r.1).1)
