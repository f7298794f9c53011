-- ===== src/Identity/Gate.antt =====
-- The auth-ready gate and the markers of pkg/environment/identity.go: WaitForAuthReady, EmitMarker and
-- isTransportFailure.
use evidra_bench.Base.{
  String, ℕ, zero, suc, Bool, true, false, ◌||◌, Option, none, some, [], ◌∷◌, ok, err, any,
  contains_text, to_lower, trim_space, if◌then◌else◌,
}
use evidra_bench.Identity.Site.{
  get_probe, World, Site, unreachable, timed_out, gate_canceled, unfinished, Step, kctl,
}

unfoldable pub is_transport_failure : String → Bool
is_transport_failure msg = any (contains_text (to_lower msg)) (
    "connection refused" ∷ "no such host" ∷ "dial tcp" ∷ "i/o timeout"
    ∷ "couldn't get current server api" ∷ [])

-- What one answer to the probe of the gate says.
pub data Probe : Type 0 where
  authenticated anonymous no_transport unclear : Probe

unfoldable pub probe_of : Bool → String → Probe
probe_of true out = authenticated
probe_of false out =
    let msg = trim_space out in
    if contains_text msg "system:anonymous"
    then anonymous
    else if contains_text msg "Forbidden" || contains_text msg "not found"
    then authenticated
    else if is_transport_failure msg
    then no_transport
    else unclear

-- The two Booleans say whether the deadline has passed and whether the context is done.
unfoldable pub pause : String → Step (Unit {0}) → Bool → Bool → Step (Unit {0})
pause user more true canceled s = (err (timed_out user), s)
pause user more false true s = (err (gate_canceled user), s)
pause user more false false s = more s

unfoldable pub probed : World → String → Step (Unit {0}) → Probe → Step (Unit {0})
probed w user more authenticated s = (ok tt, s)
probed w user more no_transport s = (err (unreachable user), s)
probed w user more anonymous s = pause user more (w.expired s.calls) (w.canceled s.calls) s
probed w user more unclear s = pause user more (w.expired s.calls) (w.canceled s.calls) s

-- The number is the fuel of the loop.
unfoldable pub wait_for_auth_ready : ℕ → World → String → String → Step (Unit {0})
wait_for_auth_ready zero w user kubeconfig = λ s. (err unfinished, s)
wait_for_auth_ready (suc left) w user kubeconfig = λ s.
    let r = kctl w (get_probe kubeconfig) s in
    probed w user (wait_for_auth_ready left w user kubeconfig) (probe_of r.0.0 r.0.1) r.1

pub data MarkerError : Type 0 where
  admin_anonymous no_cluster unexpected : MarkerError

unfoldable pub marker_error : Bool → String → Option MarkerError
marker_error true out = none
marker_error false out =
    let msg = trim_space out in
    if contains_text msg "not found"
    then none
    else if contains_text msg "system:anonymous"
    then some admin_anonymous
    else if is_transport_failure msg
    then some no_cluster
    else if contains_text msg "Forbidden"
    then none
    else some unexpected

-- The name of the marker, a nonce, is given; it is returned with every error.
unfoldable pub emit_marker : World → String → String → Site → (String × Option MarkerError) × Site
emit_marker w admin_kubeconfig name s =
    let r = kctl w (get_probe admin_kubeconfig) s in ((name, marker_error r.0.0 r.0.1), r.1)
