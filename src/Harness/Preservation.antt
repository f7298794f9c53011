-- ===== src/Harness/Preservation.antt =====
-- What the state evidence of a run shows: pkg/harness/snapshots.go.
use evidra_bench.Base.{
  String, Bool, true, false, List, [], ◌∷◌, Option, none, some, ◌≡◌, refl, sym, subst, ◌∙◌, Memᴰ,
  eq_iff, decimal, length, is_empty, concat, get, inl, inr, Bool-cases, if◌then◌else◌,
}
use Prim.Native.String
use Prim.Native.String.append
use mathlib.Core.Option.{some-injective}
use evidra_bench.Evaluation.Coverage.{complete, incomplete}
use evidra_bench.Snapshot.Normalize.{Key, key_text}
use evidra_bench.Snapshot.Sets.{StateSet}
use evidra_bench.Snapshot.Diff.{Violation, violation_of}
use evidra_bench.Snapshot.Changes.{IsDrift, diff_lem}
use evidra_bench.Harness.Checkpoints.{
  DiffScope, Hashes, RunSnapshots, SnapshotInfo, allowed_in, is_diffable, filter_diffable,
  join_semi, add_unreadable, unreadable_of, anchor, drift_after, drift_reason, finalize_reason,
  finalize_sets, finalize_from, finalize,
}

filter_diffable-mem :
    (scope : DiffScope) (v : Violation) (vs : List Violation)
    → Memᴰ v vs
    → is_diffable scope v.object ≡ true
    → Memᴰ v (filter_diffable scope vs).0
unfolding filter_diffable
filter_diffable-mem scope v [] m h = elim m [ ]
filter_diffable-mem scope v (x ∷ xs) m h = elim m [
  | Memᴰ.head same ↦
      let here : is_diffable scope x.object ≡ true =
        subst (λ (y : Violation). is_diffable scope y.object ≡ true) same h in
      simp here (Memᴰ.head same)
  | Memᴰ.tail later ↦
      let rest = filter_diffable-mem scope v xs later h in
      elim (Bool-cases (is_diffable scope x.object)) [
        | inl kept ↦ simp kept (Memᴰ.tail rest)
        | inr dropped ↦ simp dropped rest
      ]
]

append_empty : (s t : String) → is_empty (String.◌++◌ s t) ≡ true → is_empty s ≡ true
append_empty String.[] t h = refl
append_empty (String.◌∷◌ c s) t h =
    let apart : String.◌∷◌ c (String.◌++◌ s t) ≡ String.[] =
      sym (append.cons c s t) ∙ (eq_iff (String.◌++◌ (String.◌∷◌ c s) t) "").0 h in
    cc apart

prefixed_full : (s t : String) → is_empty s ≡ false → is_empty (String.◌++◌ s t) ≡ false
prefixed_full s t full = elim (Bool-cases (is_empty (String.◌++◌ s t))) [
  | inl e ↦ let clash = append_empty s t e in cc (clash, full)
  | inr e ↦ e
]

-- A reason once given stays.
join_semi-empty :
    (reason u : String)
    → is_empty (join_semi reason u) ≡ true
    → (is_empty reason ≡ true) × (is_empty u ≡ true)
unfolding join_semi concat
join_semi-empty reason u h = elim (Bool-cases (is_empty reason)) [
  | inl none_yet ↦
      let only : join_semi reason u ≡ u = simp none_yet refl in
      (none_yet, subst (λ s. is_empty s ≡ true) only h)
  | inr given ↦
      let both : join_semi reason u ≡ String.◌++◌ reason (String.◌++◌ "; " u) = simp given refl in
      let clash = append_empty reason _ (subst (λ s. is_empty s ≡ true) both h) in cc (clash, given)
]

tagged_full :
    (tag u : String) → is_empty tag ≡ false → is_empty (concat (tag ∷ ": " ∷ u ∷ [])) ≡ false
unfolding concat
tagged_full tag u h = prefixed_full tag (String.◌++◌ ": " u) h

add_unreadable-empty :
    (tag : String) (us : List String) (reason : String)
    → is_empty tag ≡ false
    → is_empty (add_unreadable tag us reason) ≡ true
    → (is_empty reason ≡ true) × (us ≡ [])
unfolding add_unreadable
add_unreadable-empty tag [] reason full h = (h, refl)
add_unreadable-empty tag (u ∷ us) reason full h =
    let deeper = add_unreadable-empty tag us _ full h in
    let clash = (join_semi-empty reason _ deeper.0).1 in cc (clash, tagged_full tag u full)

-- Every target of the checkpoint was read, if there is one.
pub HasNoGap : Option StateSet → Type 0
HasNoGap checkpoint = (s : StateSet) → checkpoint ≡ some s → s.unreadable ≡ []

unreadable_of-empty :
    (tag : String) (checkpoint : Option StateSet) (reason : String)
    → is_empty tag ≡ false
    → is_empty (unreadable_of tag checkpoint reason) ≡ true
    → (is_empty reason ≡ true) × HasNoGap checkpoint
unfolding unreadable_of HasNoGap
unreadable_of-empty tag none reason full h = (h, λ s e. cc e)
unreadable_of-empty tag (some c) reason full h =
    let deeper = add_unreadable-empty tag c.unreadable reason full h in
    (deeper.0, λ s e. subst (λ (x : StateSet). x.unreadable ≡ []) (some-injective _ _ e) deeper.1)

drift_reason-empty :
    (vs : List Violation) (reason : String)
    → is_empty (drift_reason vs reason) ≡ true
    → (is_empty reason ≡ true) × (vs ≡ [])
unfolding drift_reason concat
drift_reason-empty [] reason h = (h, refl)
drift_reason-empty (v ∷ vs) reason h =
    let clash = (join_semi-empty reason _ h).1 in
    let count =
      concat (decimal (length (v ∷ vs)) ∷ " objects drifted during stability window" ∷ []) in
    cc (clash, prefixed_full "state still changing after agent: " count refl)

-- What complete state evidence of a run rests on.
pub record IsPreserved (hashes : Hashes) (r : RunSnapshots) (info : SnapshotInfo) : Type 0 where
  pub base : StateSet
  pub post : StateSet
  pub based : get "baseline" r.sets ≡ some base
  pub posted : get "post-agent" r.sets ≡ some post
  pub base_read : base.unreadable ≡ []
  pub pre_read : HasNoGap (get "pre-agent" r.sets)
  pub post_read : post.unreadable ≡ []
  pub stability_read : HasNoGap (get "stability" r.sets)
  pub settled : drift_after hashes r.scope post (get "stability" r.sets) ≡ []
  pub reported :
      (k : Key)
      → IsDrift (anchor base (get "pre-agent" r.sets)) post (some (allowed_in r.scope)) k
      → is_diffable r.scope (key_text k) ≡ true
      → Memᴰ
          (violation_of hashes.object (anchor base (get "pre-agent" r.sets)) post k)
          info.violations

finalize_sets_complete :
    (hashes : Hashes) (r : RunSnapshots) (base post : StateSet)
    → get "baseline" r.sets ≡ some base
    → get "post-agent" r.sets ≡ some post
    → (finalize_sets hashes r.scope base
        (get "pre-agent" r.sets)
        post
        (get "stability" r.sets)).coverage
      ≡ complete
    → IsPreserved hashes r
        (finalize_sets hashes r.scope base (get "pre-agent" r.sets) post (get "stability" r.sets))
unfolding finalize_sets finalize_reason HasNoGap violation_of key_text
finalize_sets_complete hashes r base post based posted h =
    let pre = get "pre-agent" r.sets in
    let stab = get "stability" r.sets in
    let reason = finalize_reason hashes r.scope base pre post stab in
    let full : is_empty reason ≡ true = elim (Bool-cases (is_empty reason)) [
      | inl e ↦ e
      | inr e ↦
          let partial : incomplete ≡ complete =
            subst (λ (b : Bool). (if b then complete else incomplete) ≡ complete) e h in
          cc partial
    ] in
    let (seen, settled) = drift_reason-empty (drift_after hashes r.scope post stab) _ full in
    let (seen_post, stab_read) = unreadable_of-empty "stability" stab _ refl seen in
    let (seen_pre, post_read) = unreadable_of-empty "post-agent" (some post) _ refl seen_post in
    let (seen_base, pre_read) = unreadable_of-empty "pre-agent" pre _ refl seen_pre in
    let (_, base_read) = unreadable_of-empty "baseline" (some base) "" refl seen_base in
    record {
      base = base;
      post = post;
      based = based;
      posted = posted;
      base_read = base_read base refl;
      pre_read = pre_read;
      post_read = post_read post refl;
      stability_read = stab_read;
      settled = settled;
      reported = λ k drift diffable.
          filter_diffable-mem r.scope (violation_of hashes.object (anchor base pre) post k) _
            ((diff_lem hashes.object (anchor base pre) post (some (allowed_in r.scope)) _).1
              (k, drift, refl))
            diffable;
    }

finalize_from_complete :
    (hashes : Hashes) (r : RunSnapshots) (base post : Option StateSet)
    → get "baseline" r.sets ≡ base
    → get "post-agent" r.sets ≡ post
    → (finalize_from hashes r.scope base
        (get "pre-agent" r.sets)
        post
        (get "stability" r.sets)).coverage
      ≡ complete
    → IsPreserved hashes r
        (finalize_from hashes r.scope base (get "pre-agent" r.sets) post (get "stability" r.sets))
unfolding finalize_from
finalize_from_complete hashes r none post based posted h = cc h
finalize_from_complete hashes r (some base) none based posted h = cc h
finalize_from_complete hashes r (some base) (some post) based posted h =
    finalize_sets_complete hashes r base post based posted h

-- Complete state evidence has a baseline and a checkpoint after the agent; every target of every
-- checkpoint was read; no object of a diffable kind drifted in the stability window; and every
-- object of a diffable kind that changed outside the agent's scope, from the checkpoint before the
-- agent (or else the baseline) to the one after it, is among the violations.
pub finalize-IsPreserved :
    (hashes : Hashes) (r : RunSnapshots)
    → (finalize hashes r).coverage ≡ complete
    → IsPreserved hashes r (finalize hashes r)
unfolding finalize
finalize-IsPreserved hashes r h =
    finalize_from_complete hashes r (get "baseline" r.sets) (get "post-agent" r.sets) refl refl h
