-- ===== src/Audit/Sealed.antt =====
-- What `Collect` of pkg/audit/collector.go promises of a window: the meaning of its coverage.
use evidra_bench.Base.{
  String, ℕ, Bool, true, false, not, ◌&&◌, List, [], ◌∷◌, Option, none, some, ◌≡◌, refl, arith, sym,
  ap, subst, ◌∙◌, all, length, ltb, eqb, inl, inr, Bool-cases,
}
use mathlib.Core.Option.{some-injective}
use evidra_bench.Audit.Events.{Event}
use evidra_bench.Audit.Window.{WindowResult, window}
use evidra_bench.Audit.Health.{Health, is_ok, first_unhealthy}
use evidra_bench.Audit.Collect.{
  Cluster, CollectRequest, CollectResult, complete, incomplete, absent, Drain, new_drain, is_found,
  is_unread, drain, nothing_collected, without_window, all_failed, graded, with_window, between,
  judge, judged, checked, collect_from, collect,
}
use evidra_bench.Audit.Reading.{is_read, drain-is_read}
use evidra_bench.Audit.Sealing.{IsSound, new_drain-IsSound, drain-IsSound}

unfoldable pub is_node_ok : Cluster → String → Bool
is_node_ok c node = is_ok (c.probe node)

-- The evidence behind a result: what the drain returned, with nothing lost, and the window of its
-- store between the two markers.
pub record IsSealed (fuel : ℕ) (c : Cluster) (req : CollectRequest) (r : CollectResult)
    : Type 0 where
  pub provisioned : req.sources ≡ [] → ⊥
  pub healthy : all (is_node_ok c) req.health_check_nodes ≡ true
  pub last : Drain
  pub ended : drain fuel c req 0 new_drain ≡ some last
  pub sound : IsSound c req last
  pub read : all (is_read last) req.sources ≡ true
  pub unrotated : last.rotated ≡ []
  pub stored : r.store ≡ some last.store
  pub first_event : Event
  pub last_event : Event
  pub started : last.start ≡ some first_event
  pub finished : last.finish ≡ some last_event
  pub opens : r.start_event ≡ some first_event
  pub closes : r.end_event ≡ some last_event
  pub windowed : r.window ≡ window last.store first_event last_event
  pub whole : r.window.incomplete ≡ []
  pub decoded : r.bad ≡ 0
  pub unfailed : r.node_failures ≡ []

first_unhealthy-none :
    (c : Cluster) (nodes : List String)
    → first_unhealthy c.probe nodes ≡ none
    → all (is_node_ok c) nodes ≡ true
unfolding first_unhealthy all is_node_ok
first_unhealthy-none c [] h = refl
first_unhealthy-none c (node ∷ nodes) h = elim (Bool-cases (is_ok (c.probe node))) [
  | inl good ↦ simp good (first_unhealthy-none c nodes (ground (arith, good, h)))
  | inr bad ↦ let found : some (c.probe node) ≡ none = ground (arith, bad, h) in cc found
]

nil_of_length : {A : Type 0} (xs : List A) → ltb 0 (length xs) ≡ false → xs ≡ []
unfolding length
nil_of_length [] h = refl
nil_of_length (x ∷ xs) h = absurd (ground (arith, h))

graded_tests :
    (d : Drain) (w : WindowResult)
    → (graded d w).0 ≡ complete
    → (ltb 0 (length d.rotated) ≡ false)
      × ((ltb 0 (length w.incomplete) ≡ false)
          × ((ltb 0 d.bad ≡ false) × (ltb 0 (length d.node_failures) ≡ false)))
unfolding graded
graded_tests d w h = ground arith

-- What a complete grade asks.
graded_complete :
    (d : Drain) (w : WindowResult)
    → (graded d w).0 ≡ complete
    → (d.rotated ≡ []) × ((w.incomplete ≡ []) × ((d.bad ≡ 0) × (d.node_failures ≡ [])))
graded_complete d w h =
    let tests = graded_tests d w h in
    (
      nil_of_length _ tests.0,
      (nil_of_length _ tests.1.0, (ground (arith, tests.1.1.0), nil_of_length _ tests.1.1.1)),
    )

between_complete :
    (d : Drain) (s e : Option Event)
    → (between d s e).coverage ≡ complete
    → (first : Event) × (final : Event) × (s ≡ some first)
      × ((e ≡ some final) × (between d s e ≡ with_window d first final))
unfolding between without_window
between_complete d none e h = cc h
between_complete d (some s) none h = cc h
between_complete d (some s) (some e) h = (s, e, refl, (refl, refl))

all_failed_absent : (req : CollectRequest) (d : Drain) → (all_failed req d).coverage ≡ absent
unfolding all_failed without_window
all_failed_absent req d = refl

judge_complete :
    (req : CollectRequest) (d : Drain)
    → (judge req d).coverage ≡ complete
    → judge req d ≡ between d d.start d.finish
unfolding judge without_window
judge_complete req d h = elim (Bool-cases (is_unread req d && eqb (length d.rotated) 0)) [
  | inl dead ↦
      let same : judge req d ≡ all_failed req d = simp dead refl in
      let nothing : absent ≡ complete =
        sym (ap (λ (r : CollectResult). r.coverage) same ∙ all_failed_absent req d) ∙ h in
      cc nothing
  | inr alive ↦ elim (Bool-cases (is_unread req d && not (is_found d.start))) [
    | inl dark ↦
        let same : judge req d ≡ without_window d incomplete ("log_rotated" ∷ []) =
          simp (alive, dark) refl in
        let partial : incomplete ≡ complete =
          sym (ap (λ (r : CollectResult). r.coverage) same) ∙ h in
        cc partial
    | inr lit ↦ simp (alive, lit) refl
  ]
]

judged-some :
    (req : CollectRequest) (o : Option Drain) (r : CollectResult)
    → judged req o ≡ some r
    → (last : Drain) × (o ≡ some last) × (judge req last ≡ r)
unfolding judged
judged-some req none r h = cc h
judged-some req (some last) r h = (last, refl, some-injective _ _ h)

checked_ended :
    (fuel : ℕ) (c : Cluster) (req : CollectRequest) (h : Option Health) (r : CollectResult)
    → checked fuel c req h ≡ some r
    → r.coverage ≡ complete
    → (h ≡ none)
      × ((last : Drain) × (drain fuel c req 0 new_drain ≡ some last) × (judge req last ≡ r))
unfolding checked judged nothing_collected
checked_ended fuel c req (some h) r e whole =
    let nothing : absent ≡ complete =
      ap (λ (x : CollectResult). x.coverage) (some-injective _ _ e) ∙ whole in
    cc nothing
checked_ended fuel c req none r e whole = (refl, judged-some req _ r e)

between-IsSealed :
    (fuel : ℕ) (c : Cluster) (req : CollectRequest) (last : Drain) (r : CollectResult)
    → (req.sources ≡ [] → ⊥)
    → all (is_node_ok c) req.health_check_nodes ≡ true
    → drain fuel c req 0 new_drain ≡ some last
    → judge req last ≡ r
    → r.coverage ≡ complete
    → IsSealed fuel c req r
unfolding with_window
between-IsSealed fuel c req last r some_source healthy ends result whole =
    let at_judge : (judge req last).coverage ≡ complete =
      ap (λ (x : CollectResult). x.coverage) result ∙ whole in
    let at_between = judge_complete req last at_judge in
    let (first, final, started, (finished, closed)) =
      between_complete last last.start last.finish
        (sym (ap (λ (x : CollectResult). x.coverage) at_between) ∙ at_judge) in
    let same : with_window last first final ≡ r = sym closed ∙ (sym at_between ∙ result) in
    let w = window last.store first final in
    let (unrotated, (whole', (decoded, unfailed))) =
      graded_complete last w (ap (λ (x : CollectResult). x.coverage) same ∙ whole) in
    subst (IsSealed fuel c req) same (record {
      provisioned = some_source;
      healthy = healthy;
      last = last;
      ended = ends;
      sound = drain-IsSound fuel c req 0 new_drain last ends (new_drain-IsSound c req);
      read = drain-is_read fuel c req 0 new_drain last ends unfailed;
      unrotated = unrotated;
      stored = refl;
      first_event = first;
      last_event = final;
      started = started;
      finished = finished;
      opens = refl;
      closes = refl;
      windowed = refl;
      whole = whole';
      decoded = decoded;
      unfailed = unfailed;
    })

collect_from-IsSealed :
    (fuel : ℕ) (c : Cluster) (req : CollectRequest) (names : List String) (r : CollectResult)
    → req.sources ≡ names
    → collect_from fuel c req names ≡ some r
    → r.coverage ≡ complete
    → IsSealed fuel c req r
unfolding collect_from nothing_collected
collect_from-IsSealed fuel c req [] r e h whole =
    let nothing : absent ≡ complete =
      ap (λ (x : CollectResult). x.coverage) (some-injective _ _ h) ∙ whole in
    cc nothing
collect_from-IsSealed fuel c req (name ∷ names) r e h whole =
    let probes = req.health_check_nodes in
    let (healthy, (last, ends, result)) =
      checked_ended fuel c req (first_unhealthy c.probe probes) r h whole in
    between-IsSealed fuel c req last r (λ missing. cc (missing, e))
      (first_unhealthy-none c probes healthy) ends result whole

-- A collection that ends with complete coverage had a source and healthy nodes; the drain that it ran
-- returned sources that were all read and a store with every event of the last read of every node, and
-- saw no failed read, no rotation and no line that failed to decode; and the result has the window of
-- that store between the events that the drain found to be the start and the end marker, which reports no
-- operation as incomplete.
pub collect-IsSealed :
    (fuel : ℕ) (c : Cluster) (req : CollectRequest) (r : CollectResult)
    → collect fuel c req ≡ some r
    → r.coverage ≡ complete
    → IsSealed fuel c req r
unfolding collect
collect-IsSealed fuel c req r h whole = collect_from-IsSealed fuel c req req.sources r refl h whole
