-- ===== src/Identity/Deadline.antt =====
-- The auth-ready gate of pkg/environment/identity.go ends with its deadline.
use evidra_bench.Base.{
  String, ℕ, zero, suc, ◌+◌, Bool, true, false, List, [], ◌∷◌, ◌≡◌, refl, arith, Result, leb,
  length, length-append,
}
use evidra_bench.Identity.Site.{get_probe, Entry, World, Site, IdentityError, Step, kctl}
use evidra_bench.Identity.Gate.{
  Probe, authenticated, anonymous, no_transport, unclear, probe_of, pause, probed,
  wait_for_auth_ready,
}
use evidra_bench.Identity.Gated.{is_decided, is_finished}

module _ (w : World) (k : ℕ)
    (deadline : (es : List Entry) → leb k (length es) ≡ true → w.expired es ≡ true)
    (user kubeconfig : String) where
  abbrev Decides : Result IdentityError (Unit {0}) × Site → Type 0
  Decides r = is_decided r.0 ≡ true

  pause-Decides :
      (more : Step (Unit {0})) (expired canceled : Bool) (s : Site)
      → (expired ≡ false → Decides (more s))
      → Decides (pause user more expired canceled s)
  unfolding pause is_decided is_finished
  pause-Decides more true canceled s later = refl
  pause-Decides more false true s later = refl
  pause-Decides more false false s later = later refl

  probed-Decides :
      (more : Step (Unit {0})) (p : Probe) (s : Site)
      → (w.expired s.calls ≡ false → Decides (more s))
      → Decides (probed w user more p s)
  unfolding probed is_decided is_finished
  probed-Decides more authenticated s later = refl
  probed-Decides more no_transport s later = refl
  probed-Decides more anonymous s later =
      pause-Decides more (w.expired s.calls) (w.canceled s.calls) s later
  probed-Decides more unclear s later =
      pause-Decides more (w.expired s.calls) (w.canceled s.calls) s later

  kctl-length : (s : Site) → length (kctl w (get_probe kubeconfig) s).1.calls ≡ length s.calls + 1
  unfolding kctl
  kctl-length s =
      let a = w.answer s.calls (get_probe kubeconfig) in
      length-append s.calls
        (record { call = get_probe kubeconfig; accepted = a.0; output = a.1 } ∷ [])

  -- With fuel for the probes until the deadline, the gate does not run out.
  pub wait_for_auth_ready-Decides :
      (left : ℕ) (s : Site)
      → leb k (length s.calls + left) ≡ true
      → Decides (wait_for_auth_ready (suc left) w user kubeconfig s)
  unfolding wait_for_auth_ready
  wait_for_auth_ready-Decides zero s enough =
      let r = kctl w (get_probe kubeconfig) s in
      let over = deadline r.1.calls (ground (arith, enough, kctl-length s)) in
      probed-Decides (wait_for_auth_ready zero w user kubeconfig) (probe_of r.0.0 r.0.1) r.1
        (λ on. absurd (ground (arith, over, on)))
  wait_for_auth_ready-Decides (suc left) s enough =
      let r = kctl w (get_probe kubeconfig) s in
      probed-Decides (wait_for_auth_ready (suc left) w user kubeconfig) (probe_of r.0.0 r.0.1) r.1
        (λ _. wait_for_auth_ready-Decides left r.1 (ground (arith, enough, kctl-length s)))
