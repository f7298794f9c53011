-- ===== src/Identity/Provisioned.antt =====
-- Every step of Provision of pkg/environment/identity.go keeps the bundle in line with the
-- objects on the cluster.
use evidra_bench.Base.{
  String, ℕ, zero, suc, ◌+◌, Bool, true, false, ◌&&◌, List, [], ◌∷◌, ◌++◌, Option, none, some, ◌≡◌,
  refl, sym, ap, ◌∙◌, inl, inr, Bool-cases, Result, ok, err, concat, trim_space,
}
use mathlib.Core.List.{append-nil}
use evidra_bench.Authority.Profile.{AuthorityProfile}
use evidra_bench.Authority.Compile.{CompileError}
use evidra_bench.Identity.Collisions.{Collision, validate_profile_rules}
use evidra_bench.Identity.Manifests.{
  Manifest, identity_manifests, agent_service_account, evidence_service_account,
}
use evidra_bench.Identity.Site.{
  apply, view_config, create_token, get_secret, Endpoint, World, Site, Step, then_do, kctl,
}
use evidra_bench.Identity.Provision.{
  user_of, validated_in, provision_at, applied_file, apply_file, manifest_path, apply_all, viewed,
  cluster_info, secret_token, polled, poll_token, legacy_token, is_token, minted, mint_token,
  write_kubeconfig, identity_for, provision_in, rendered_in, provision,
}
use evidra_bench.Identity.Tracked.{
  IsTracked, Tracks, applied, told, applied_of, told_of, then_do-Tracks, kctl-applied, kctl-told,
  kctl-IsTracked,
}

module _ (w : World) where
  applied_file-IsTracked :
      (path out : String) (accepted : Bool) (s : Site)
      → s.files ++ applied_of (apply path) accepted ≡ applied s.calls
      → told s.calls ≡ []
      → IsTracked (applied_file path ((accepted, out), s)).1
  unfolding applied_file applied_of
  applied_file-IsTracked path out true s known kept = record { known = known; kept = kept }
  applied_file-IsTracked path out false s known kept = record {
    known = sym (append-nil s.files) ∙ known;
    kept = kept;
  }

  apply_file-Tracks : (path : String) → Tracks (apply_file w path)
  unfolding apply_file told_of kctl
  apply_file-Tracks path s h =
      let a = w.answer s.calls (apply path) in
      let r = kctl w (apply path) s in
      elim (Bool-cases (w.writes s.calls path)) [
        | inr failed ↦ simp failed h
        | inl written ↦ simp written (
            applied_file-IsTracked path a.1 a.0 r.1
              (unfold kctl in
                ap (λ l. l ++ applied_of (apply path) a.0) h.known
                ∙ sym (kctl-applied w (apply path) s))
              (kctl-told w (apply path) s ∙ append-nil (told s.calls) ∙ h.kept))
      ]

  apply_all-Tracks :
      (dir : String) (i : ℕ) (objects : List Manifest) → Tracks (apply_all w dir i objects)
  unfolding apply_all
  apply_all-Tracks dir i [] = λ s h. h
  apply_all-Tracks dir i (m ∷ rest) =
      then_do-Tracks (apply_file w (manifest_path dir i)) (λ _. apply_all w dir (i + 1) rest)
        (apply_file-Tracks (manifest_path dir i)) (λ _. apply_all-Tracks dir (i + 1) rest)

  viewed-IsTracked : (r : (Bool × String) × Site) → IsTracked r.1 → IsTracked (viewed w r).1
  unfolding viewed
  viewed-IsTracked ((true, out), s) h = h
  viewed-IsTracked ((false, out), s) h = h

  cluster_info-Tracks : Tracks (cluster_info w)
  unfolding cluster_info applied_of told_of
  cluster_info-Tracks s h =
      viewed-IsTracked (kctl w view_config s) (kctl-IsTracked w view_config s refl refl h)

  polled-Tracks :
      (more : Step String) (tok : Option String) → Tracks more → Tracks (polled w more tok)
  unfolding polled
  polled-Tracks more (some tok) later s h = h
  polled-Tracks more none later s h = elim (Bool-cases (w.canceled s.calls)) [
    | inl stopped ↦ simp stopped h
    | inr on ↦ simp on (later s h)
  ]

  poll_token-Tracks : (sa : String) (left : ℕ) → Tracks (poll_token w sa left)
  unfolding poll_token applied_of told_of
  poll_token-Tracks sa zero = λ s h. h
  poll_token-Tracks sa (suc left) = λ s h.
      let r = kctl w (get_secret sa) s in
      polled-Tracks (poll_token w sa left) (secret_token w r.0.0 r.0.1) (poll_token-Tracks sa left)
        r.1 (kctl-IsTracked w (get_secret sa) s refl refl h)

  legacy_token-Tracks : (dir sa : String) → Tracks (legacy_token w dir sa)
  unfolding legacy_token
  legacy_token-Tracks dir sa =
      let path = concat (dir ∷ "/secret-" ∷ sa ∷ ".json" ∷ []) in
      then_do-Tracks (apply_file w path) (λ _. poll_token w sa 30) (apply_file-Tracks path)
        (λ _. poll_token-Tracks sa 30)

  minted-Tracks : (dir sa tok : String) (direct : Bool) → Tracks (minted w dir sa tok direct)
  unfolding minted
  minted-Tracks dir sa tok true s h = h
  minted-Tracks dir sa tok false s h = legacy_token-Tracks dir sa s h

  mint_token-Tracks : (dir sa : String) → Tracks (mint_token w dir sa)
  unfolding mint_token applied_of told_of
  mint_token-Tracks dir sa s h =
      let r = kctl w (create_token sa) s in
      let tok = trim_space r.0.1 in
      minted-Tracks dir sa tok (r.0.0 && is_token tok) r.1
        (kctl-IsTracked w (create_token sa) s refl refl h)

  write_kubeconfig-Tracks :
      (path : String) (cluster : Endpoint) (token : String)
      → Tracks (write_kubeconfig w path cluster token)
  unfolding write_kubeconfig
  write_kubeconfig-Tracks path cluster token s h = elim (Bool-cases (w.writes s.calls path)) [
    | inr failed ↦ simp failed h
    | inl written ↦ simp written (record { known = h.known; kept = h.kept })
  ]

  identity_for-Tracks :
      (dir : String) (cluster : Endpoint) (sa file : String)
      → Tracks (identity_for w dir cluster sa file)
  unfolding identity_for
  identity_for-Tracks dir cluster sa file =
      let path = concat (dir ∷ "/" ∷ file ∷ []) in
      then_do-Tracks (mint_token w dir sa)
        (λ token.
          then_do (write_kubeconfig w path cluster token)
            (λ _ s. (ok (record { user = user_of sa; kubeconfig_path = path }), s)))
        (mint_token-Tracks dir sa)
        (λ token.
          then_do-Tracks (write_kubeconfig w path cluster token)
            (λ _ s. (ok (record { user = user_of sa; kubeconfig_path = path }), s))
            (write_kubeconfig-Tracks path cluster token) (λ _ s h. h))

  provision_in-Tracks :
      (dir : String) (objects : List Manifest) → Tracks (provision_in w dir objects)
  unfolding provision_in
  provision_in-Tracks dir objects s h =
      then_do-Tracks (apply_all w dir 0 objects) _ (apply_all-Tracks dir 0 objects)
        (λ _. then_do-Tracks (cluster_info w) _ cluster_info-Tracks (λ cluster.
          then_do-Tracks (identity_for w dir cluster agent_service_account "agent.kubeconfig.json")
            _ (identity_for-Tracks dir cluster agent_service_account "agent.kubeconfig.json")
            (λ agent.
              then_do-Tracks
                (identity_for w dir cluster evidence_service_account "evidence.kubeconfig.json") _
                (identity_for-Tracks dir cluster evidence_service_account
                  "evidence.kubeconfig.json")
                (λ evidence s h. h))))
        s h

  rendered_in-Tracks :
      (dir : String) (objects : Result CompileError (List Manifest))
      → Tracks (rendered_in w dir objects)
  unfolding rendered_in
  rendered_in-Tracks dir (err e) s h = h
  rendered_in-Tracks dir (ok objects) s h = provision_in-Tracks dir objects s h

  validated_in-Tracks :
      (profile : AuthorityProfile) (dir : String) (found : List Collision)
      → Tracks (validated_in w profile dir found)
  unfolding validated_in
  validated_in-Tracks profile dir (c ∷ cs) s h = h
  validated_in-Tracks profile dir [] s h = rendered_in-Tracks dir (identity_manifests profile) s h

  provision_at-Tracks :
      (profile : AuthorityProfile) (temp_dir : Option String)
      → Tracks (provision_at w profile temp_dir)
  unfolding provision_at
  provision_at-Tracks profile none s h = h
  provision_at-Tracks profile (some dir) s h =
      validated_in-Tracks profile dir (validate_profile_rules profile) s h

  pub provision-Tracks : (profile : AuthorityProfile) → Tracks (provision w profile)
  unfolding provision
  provision-Tracks profile = provision_at-Tracks profile w.temp_dir
