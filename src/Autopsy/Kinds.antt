-- ===== src/Autopsy/Kinds.antt =====
-- The kinds of the findings of a report: proofs about add, addAll and primaryFailure of
-- pkg/autopsy/autopsy.go, and about the findings of `Analyze`.
use evidra_bench.Base.{
  ℕ, suc, ◌≤◌, Bool, true, false, not, ◌&&◌, ◌||◌, List, [], ◌∷◌, Option, none, some, ◌==◌, all,
  any, any-append, any_of_mem, if◌then◌else◌, ◌≡◌, refl, sym, ap, ◌∙◌, arith, inl, inr, Memᴰ,
  Bool-cases, Option-cases, eq_iff,
}
use evidra_bench.Autopsy.Report.{
  FailureKind, gave_up, timeout_no_progress, retry_loop, premature_success, wrong_root_cause,
  unsafe_action, irrelevant_action, missed_diagnostic_step, tool_misuse, excessive_token_burn,
  Finding, kind_text, same_kind, of_kind, has, add, add_all, priorities, first_present,
  primary_failure,
}
use evidra_bench.Autopsy.Analyze.{add_if}

pub same_kind_refl : (k : FailureKind) → same_kind k k ≡ true
unfolding same_kind
same_kind_refl k = ground (arith, eq_iff (kind_text k) (kind_text k))

same_kind_sym : (a b : FailureKind) → same_kind a b ≡ same_kind b a
unfolding same_kind
same_kind_sym a b =
    ground (arith, eq_iff (kind_text a) (kind_text b), eq_iff (kind_text b) (kind_text a))

pub same_kind_alike : (a b c : FailureKind) → same_kind a b ≡ true → same_kind a c ≡ same_kind b c
unfolding same_kind
same_kind_alike a b c h = ap (λ s. s == kind_text c) ((eq_iff (kind_text a) (kind_text b)).0 h)

-- No kind has two findings.
unfoldable pub distinct : List Finding → Bool
distinct [] = true
distinct (f ∷ findings) = not (has f.kind findings) && distinct findings

distinct-add :
    (f : Finding) (findings : List Finding)
    → has f.kind findings ≡ false
    → distinct findings ≡ true
    → distinct (add f findings) ≡ true
unfolding distinct add has any
distinct-add f [] h d = refl
distinct-add f (g ∷ findings) h d = ground (
  arith,
  h,
  d,
  any-append (of_kind g.kind) findings (f ∷ []),
  same_kind_sym g.kind f.kind,
  distinct-add f findings (ground (arith, h)) (ground (arith, d)),
)

unfoldable pub listed : FailureKind → List FailureKind → Bool
listed k kinds = any (λ j. same_kind j k) kinds

-- The findings after a part of the analysis: of different kinds, which are listed.
pub record IsStage (kinds : List FailureKind) (findings : List Finding) : Type 0 where
  pub apart : distinct findings ≡ true
  pub within : (k : FailureKind) → listed k kinds ≡ false → has k findings ≡ false

has-add :
    (j : FailureKind) (f : Finding) (findings : List Finding)
    → has j (add f findings) ≡ (has j findings || same_kind f.kind j)
unfolding has add any
has-add j f findings = ground (arith, any-append (of_kind j) findings (f ∷ []))

add-IsStage :
    (f : Finding) (k : FailureKind) {kinds : List FailureKind} (findings : List Finding)
    → same_kind f.kind k ≡ true
    → has f.kind findings ≡ false
    → IsStage kinds findings
    → IsStage (k ∷ kinds) (add f findings)
unfolding listed any
add-IsStage f k findings same new s = record {
  apart = distinct-add f findings new s.apart;
  within =
      λ j h. ground (arith, h, s.within j, has-add j f findings, same_kind_alike f.kind k j same);
}

pub add_if-IsStage :
    (b : Bool) (f : Finding) {kinds : List FailureKind} (findings : List Finding)
    → (b ≡ true → has f.kind findings ≡ false)
    → IsStage kinds findings
    → IsStage (f.kind ∷ kinds) (add_if b f findings)
unfolding add_if listed any
add_if-IsStage true f findings new s =
    add-IsStage f f.kind findings (same_kind_refl f.kind) (new refl) s
add_if-IsStage false f findings new s = record {
  apart = s.apart;
  within = λ j h. s.within j (ground (arith, h));
}

-- A kind that is listed twice is listed once.
relisted :
    (k : FailureKind) {kinds : List FailureKind} (findings : List Finding)
    → IsStage (k ∷ k ∷ kinds) findings
    → IsStage (k ∷ kinds) findings
unfolding listed any
relisted k findings s = record { apart = s.apart; within = λ j h. s.within j (ground (arith, h)) }

add_all-kept :
    (k : FailureKind) {kinds : List FailureKind} (more findings : List Finding)
    → all (of_kind k) more ≡ true
    → IsStage (k ∷ kinds) findings
    → IsStage (k ∷ kinds) (add_all more findings)
unfolding add_all all
add_all-kept k [] findings h s = s
add_all-kept k {kinds} (f ∷ more) findings h s = elim (Bool-cases (has f.kind findings)) [
  | inl known ↦ simp known (add_all-kept k more findings (ground (arith, h)) s)
  | inr new ↦
      let same : same_kind f.kind k ≡ true = ground (arith, h) in
      simp new (
        add_all-kept k more (add f findings) (ground (arith, h)) (
          relisted k {kinds = kinds} (add f findings)
            (add-IsStage f k {kinds = k ∷ kinds} findings same new s)))
]

-- Adding findings of one kind.
pub add_all-IsStage :
    (k : FailureKind) {kinds : List FailureKind} (more findings : List Finding)
    → all (of_kind k) more ≡ true
    → IsStage kinds findings
    → IsStage (k ∷ kinds) (add_all more findings)
unfolding listed any
add_all-IsStage k {kinds} more findings h s =
    add_all-kept k {kinds = kinds} more findings h
      (record { apart = s.apart; within = λ j q. s.within j (ground (arith, q)) })

-- The place of a kind in a list.
unfoldable pub position : FailureKind → List FailureKind → ℕ
position k [] = 0
position k (j ∷ kinds) = if same_kind j k then 0 else suc (position k kinds)

-- The primary failure of findings: none of none, and else the kind of a finding that comes first.
unfoldable pub IsPrimary : List Finding → Option FailureKind → Type 0
IsPrimary findings none = findings ≡ []
IsPrimary findings (some k) =
    (has k findings ≡ true)
    × ((f : Finding) → Memᴰ f findings → position k priorities ≤ position f.kind priorities)

has_of_mem : {f : Finding} {findings : List Finding} → Memᴰ f findings → has f.kind findings ≡ true
unfolding has
has_of_mem {f} m = any_of_mem (of_kind f.kind) m (same_kind_refl f.kind)

pub has_alike :
    (a b : FailureKind) (findings : List Finding)
    → same_kind a b ≡ true
    → has a findings ≡ has b findings
unfolding has any
has_alike a b [] h = refl
has_alike a b (f ∷ findings) h = ground (
  arith,
  same_kind_alike a b f.kind h,
  same_kind_sym a f.kind,
  same_kind_sym b f.kind,
  has_alike a b findings h,
)

first_present-first :
    (kinds : List FailureKind) (findings : List Finding) (k : FailureKind)
    → first_present kinds findings ≡ some k
    → (has k findings ≡ true)
      × ((f : Finding) → Memᴰ f findings → position k kinds ≤ position f.kind kinds)
unfolding first_present position
first_present-first [] findings k h = cc
first_present-first (i ∷ kinds) findings k h = elim (Bool-cases (has i findings)) [
  | inl here ↦
      let same : same_kind i k ≡ true = ground (arith, h, here, same_kind_refl i) in
      (sym (has_alike i k findings same) ∙ here, λ f m. simp same (omega arith))
  | inr absent ↦
      let (present, least) = first_present-first kinds findings k (ground (arith, h, absent)) in
      (
        present,
        λ f m. ground (
          arith,
          absent,
          present,
          has_alike i k findings,
          has_alike i f.kind findings,
          has_of_mem m,
          least f m,
        ),
      )
]

first_present-none :
    (kinds : List FailureKind) (findings : List Finding)
    → first_present kinds findings ≡ none
    → (k : FailureKind) → listed k kinds ≡ true
    → has k findings ≡ false
unfolding first_present listed any
first_present-none [] findings h k l = cc
first_present-none (i ∷ kinds) findings h k l = elim (Bool-cases (has i findings)) [
  | inl here ↦ ground (arith, h, here)
  | inr absent ↦ ground (
    arith,
    absent,
    l,
    has_alike i k findings,
    first_present-none kinds findings (ground (arith, h, absent)) k,
  )
]

priorities-listed : (k : FailureKind) → listed k priorities ≡ true
unfolding listed any same_kind kind_text
priorities-listed gave_up = refl
priorities-listed timeout_no_progress = refl
priorities-listed retry_loop = refl
priorities-listed premature_success = refl
priorities-listed wrong_root_cause = refl
priorities-listed unsafe_action = refl
priorities-listed irrelevant_action = refl
priorities-listed missed_diagnostic_step = refl
priorities-listed tool_misuse = refl
priorities-listed excessive_token_burn = refl

no_findings :
    (findings : List Finding) → ((k : FailureKind) → has k findings ≡ false) → findings ≡ []
no_findings [] h = refl
no_findings (f ∷ findings) h =
    ground (arith, h f.kind, has_of_mem {f = f} {findings = f ∷ findings} (Memᴰ.head refl))

pub primary_failure-IsPrimary :
    (findings : List Finding) → IsPrimary findings (primary_failure findings)
unfolding IsPrimary primary_failure
primary_failure-IsPrimary findings = elim (Option-cases (first_present priorities findings)) [
  | inl absent ↦ rw absent (
      no_findings findings
        (λ k. first_present-none priorities findings absent k (priorities-listed k)))
  | inr (k, e) ↦ rw e (first_present-first priorities findings k e)
]
