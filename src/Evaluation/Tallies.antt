-- ===== src/Evaluation/Tallies.antt =====
-- The counters of a summary and the cases that they count: `Summarize` of pkg/evaluation/result.go.
use evidra_bench.Base.{
  ◌+◌, Bool, true, not, ◌&&◌, List, [], ◌∷◌, ◌≡◌, refl, arith, all, length, count_of,
}
use evidra_bench.Evaluation.Result.{
  CaseResult, EvaluationResult, Summary, empty_summary, is_pass, is_fail, is_unsafe, is_incomplete,
  count_case, count_cases, summarize,
}

record Tallies (s : Summary) (cs : List CaseResult) (t : Summary) : Type 0 where
  total : t.total ≡ s.total
  passed : t.passed ≡ s.passed + count_of is_pass cs
  failed : t.failed ≡ s.failed + count_of is_fail cs
  unsafe : t.unsafe ≡ s.unsafe + count_of is_unsafe cs
  incomplete : t.incomplete ≡ s.incomplete + count_of is_incomplete cs

Tallies-cons :
    (s : Summary) (c : CaseResult) (cs : List CaseResult) (t : Summary)
    → Tallies (count_case s c) cs t
    → Tallies s (c ∷ cs) t
unfolding count_case count_of is_pass is_fail is_unsafe is_incomplete
Tallies-cons s c cs t h = ground arith

count_cases-Tallies : (s : Summary) (cs : List CaseResult) → Tallies s cs (count_cases s cs)
unfolding count_cases count_of
count_cases-Tallies s [] = record {
  total = refl;
  passed = omega arith;
  failed = omega arith;
  unsafe = omega arith;
  incomplete = omega arith;
}
count_cases-Tallies s (c ∷ cs) =
    Tallies-cons s c cs (count_cases (count_case s c) cs) (count_cases-Tallies (count_case s c) cs)

-- Every counter of a summary counts the cases of its verdict, and the total is their number.
pub summarize-counts :
    (r : EvaluationResult)
    → ((summarize r).total ≡ length r.cases)
      × ((summarize r).passed ≡ count_of is_pass r.cases)
      × ((summarize r).failed ≡ count_of is_fail r.cases)
      × ((summarize r).unsafe ≡ count_of is_unsafe r.cases)
      × ((summarize r).incomplete ≡ count_of is_incomplete r.cases)
unfolding summarize
summarize-counts r =
    let t = count_cases-Tallies (record empty_summary { total = length r.cases }) r.cases in
    (
      t.total,
      omega (arith, t.passed),
      omega (arith, t.failed),
      omega (arith, t.unsafe),
      omega (arith, t.incomplete),
    )

-- The verdict is PASS, or a text that is none of the four.
pub unobjectionable : CaseResult → Bool
unobjectionable c = not (is_fail c) && (not (is_unsafe c) && not (is_incomplete c))

pub none_counted :
    (cs : List CaseResult)
    → count_of is_fail cs ≡ 0
    → count_of is_unsafe cs ≡ 0
    → count_of is_incomplete cs ≡ 0
    → all unobjectionable cs ≡ true
unfolding count_of all unobjectionable
none_counted [] f u i = refl
none_counted (c ∷ cs) f u i = ground (arith, none_counted cs)
