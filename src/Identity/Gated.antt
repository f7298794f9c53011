-- ===== src/Identity/Gated.antt =====
-- What the auth-ready gate of pkg/environment/identity.go says when it opens, and that it ends.
use evidra_bench.Base.{
  String, ℕ, zero, suc, Bool, true, false, ◌&&◌, [], ◌∷◌, ◌==◌, ◌≡◌, refl, arith, any, any-append,
  eq_refl, Result, ok, err,
}
use evidra_bench.Identity.Site.{
  Call, get_probe, Entry, World, Site, IdentityError, unfinished, Step, kctl,
}
use evidra_bench.Identity.Gate.{
  Probe, authenticated, anonymous, no_transport, unclear, probe_of, pause, probed,
  wait_for_auth_ready,
}

unfoldable pub is_authenticated : Probe → Bool
is_authenticated authenticated = true
is_authenticated _ = false

unfoldable pub probes : String → Call → Bool
probes kubeconfig (get_probe k) = k == kubeconfig
probes kubeconfig _ = false

-- The entry is a probe with this kubeconfig whose answer shows an authenticated identity.
unfoldable pub proves : String → Entry → Bool
proves kubeconfig e = probes kubeconfig e.call && is_authenticated (probe_of e.accepted e.output)

unfoldable pub is_finished : IdentityError → Bool
is_finished unfinished = false
is_finished _ = true

unfoldable pub is_decided : Result IdentityError (Unit {0}) → Bool
is_decided (err e) = is_finished e
is_decided (ok u) = true

unfoldable pub opened : Result IdentityError (Unit {0}) → Bool
opened (err e) = false
opened (ok u) = true

module _ (w : World) where
  -- What every probe keeps, the gate keeps.
  module _ (P : Site → Type 0) (user kubeconfig : String) where
    abbrev Keeps : Step (Unit {0}) → Type 0
    Keeps m = (s : Site) → P s → P (m s).1

    pause-Keeps :
        (more : Step (Unit {0})) (expired canceled : Bool)
        → Keeps more
        → Keeps (pause user more expired canceled)
    unfolding pause
    pause-Keeps more true canceled later s h = h
    pause-Keeps more false true later s h = h
    pause-Keeps more false false later s h = later s h

    probed-Keeps : (more : Step (Unit {0})) (p : Probe) → Keeps more → Keeps (probed w user more p)
    unfolding probed
    probed-Keeps more authenticated later s h = h
    probed-Keeps more no_transport later s h = h
    probed-Keeps more anonymous later s h =
        pause-Keeps more (w.expired s.calls) (w.canceled s.calls) later s h
    probed-Keeps more unclear later s h =
        pause-Keeps more (w.expired s.calls) (w.canceled s.calls) later s h

    pub wait_for_auth_ready-Keeps :
        (fuel : ℕ)
        → ((s : Site) → P s → P (kctl w (get_probe kubeconfig) s).1)
        → Keeps (wait_for_auth_ready fuel w user kubeconfig)
    unfolding wait_for_auth_ready
    wait_for_auth_ready-Keeps zero each = λ s h. h
    wait_for_auth_ready-Keeps (suc left) each = λ s h.
        let r = kctl w (get_probe kubeconfig) s in
        probed-Keeps (wait_for_auth_ready left w user kubeconfig) (probe_of r.0.0 r.0.1)
          (wait_for_auth_ready-Keeps left each) r.1 (each s h)

  pub kctl-any :
      (p : Entry → Bool) (c : Call) (s : Site)
      → any p s.calls ≡ true
      → any p (kctl w c s).1.calls ≡ true
  unfolding kctl
  kctl-any p c s h =
      let a = w.answer s.calls c in
      let e : Entry = record { call = c; accepted = a.0; output = a.1 } in
      ground (arith, h, any-append p s.calls (e ∷ []))

  module _ (user kubeconfig : String) where
    abbrev Proves : Result IdentityError (Unit {0}) × Site → Type 0
    Proves r = opened r.0 ≡ true → any (proves kubeconfig) r.1.calls ≡ true

    pause-Proves :
        (more : Step (Unit {0})) (expired canceled : Bool) (s : Site)
        → ((t : Site) → Proves (more t))
        → Proves (pause user more expired canceled s)
    unfolding pause opened
    pause-Proves more true canceled s later h = cc
    pause-Proves more false true s later h = cc
    pause-Proves more false false s later h = later s h

    probed-Proves :
        (more : Step (Unit {0})) (p : Probe) (s : Site)
        → (is_authenticated p ≡ true → any (proves kubeconfig) s.calls ≡ true)
        → ((t : Site) → Proves (more t))
        → Proves (probed w user more p s)
    unfolding probed opened is_authenticated
    probed-Proves more authenticated s seen later h = seen refl
    probed-Proves more no_transport s seen later h = cc
    probed-Proves more anonymous s seen later h =
        pause-Proves more (w.expired s.calls) (w.canceled s.calls) s later h
    probed-Proves more unclear s seen later h =
        pause-Proves more (w.expired s.calls) (w.canceled s.calls) s later h

    probe-seen :
        (s : Site)
        → let r = kctl w (get_probe kubeconfig) s in
          is_authenticated (probe_of r.0.0 r.0.1) ≡ true → any (proves kubeconfig) r.1.calls ≡ true
    unfolding kctl proves probes any
    probe-seen s h =
        let a = w.answer s.calls (get_probe kubeconfig) in
        let e : Entry = record { call = get_probe kubeconfig; accepted = a.0; output = a.1 } in
        ground (arith, h, any-append (proves kubeconfig) s.calls (e ∷ []), eq_refl kubeconfig)

    -- A gate that opens has seen an authenticated answer.
    pub wait_for_auth_ready-Proves :
        (fuel : ℕ) (s : Site) → Proves (wait_for_auth_ready fuel w user kubeconfig s)
    unfolding wait_for_auth_ready opened
    wait_for_auth_ready-Proves zero s h = cc
    wait_for_auth_ready-Proves (suc left) s h =
        let r = kctl w (get_probe kubeconfig) s in
        probed-Proves (wait_for_auth_ready left w user kubeconfig) (probe_of r.0.0 r.0.1) r.1
          (probe-seen s) (wait_for_auth_ready-Proves left) h
