-- ===== src/Audit/Ending.antt =====
-- That `Collect` of pkg/audit/collector.go returns.
use evidra_bench.Base.{
  String, ℕ, suc, ◌+◌, true, List, [], ◌∷◌, Option, none, some, ◌≡◌, refl, arith, ap, subst,
}
use evidra_bench.Audit.Health.{Health}
use evidra_bench.Audit.Collect.{
  Cluster, CollectRequest, CollectResult, new_drain, drain, judge, judged, checked, collect_from,
  collect,
}
use evidra_bench.Audit.Reading.{drain-ends}

judged_ends :
    (k : ℕ) (c : Cluster) (req : CollectRequest)
    → c.is_expired k ≡ true
    → (r : CollectResult) × (judged req (drain (suc k) c req 0 new_drain) ≡ some r)
unfolding judged
judged_ends k c req h =
    let start : k ≡ k + 0 = omega arith in
    let (last, ends) =
      drain-ends k c req 0 new_drain (subst (λ m. c.is_expired m ≡ true) start h) in
    (judge req last, ap (judged req) ends)

checked_ends :
    (k : ℕ) (c : Cluster) (req : CollectRequest) (h : Option Health)
    → c.is_expired k ≡ true
    → (r : CollectResult) × (checked (suc k) c req h ≡ some r)
unfolding checked
checked_ends k c req none h = judged_ends k c req h
checked_ends k c req (some bad) h = (_, refl)

collect_from_ends :
    (k : ℕ) (c : Cluster) (req : CollectRequest) (names : List String)
    → c.is_expired k ≡ true
    → (r : CollectResult) × (collect_from (suc k) c req names ≡ some r)
unfolding collect_from
collect_from_ends k c req [] h = (_, refl)
collect_from_ends k c req (name ∷ names) h = checked_ends k c req _ h

-- If the deadline has passed after round `k`, the collection returns within `k + 1` rounds.
pub collect-ends :
    (k : ℕ) (c : Cluster) (req : CollectRequest)
    → c.is_expired k ≡ true
    → (r : CollectResult) × (collect (suc k) c req ≡ some r)
unfolding collect
collect-ends k c req h = collect_from_ends k c req req.sources h
