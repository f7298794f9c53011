-- ===== src/Autopsy/Matching.antt =====
-- When the tokens of a pattern match a command, and which command counts as repeated: proofs about
-- pkg/autopsy/autopsy.go.
use evidra_bench.Base.{
  String, ℕ, ◌≤◌, true, not, List, [], ◌∷◌, is_nil, ltb, ◌≡◌, ◌≢◌, ◌↔◌, ◌⊎◌, inl, inr, refl, sym,
  ap, ◌∙◌, arith, Memᴰ, Bool-cases, occurrences, tally, covers_iff, count_at, count_at-tally_nil,
  count_at-entry, entry-count_at, tally-Exact, string_same,
}
use evidra_bench.Timeline.Steps.{ToolCall, Decoder}
use evidra_bench.Autopsy.Tokens.{tokenize_command, command_tokens_match}
use evidra_bench.Autopsy.Repeats.{
  CommandFingerprint, FingerprintCounts, fingerprint_same, fingerprints, best_of,
  most_repeated_command,
}

nil_iff : (words : List String) → (not (is_nil words) ≡ true) ↔ (words ≢ [])
nil_iff [] = (λ h. cc, λ h. absurd (h refl))
nil_iff (w ∷ words) = (λ h e. cc, λ h. refl)

-- A pattern matches a command exactly if it has tokens and each of them occurs in the command at least as
-- often as in the pattern, in whatever order.
pub command_tokens_match_iff :
    (pattern cmd : String)
    → (command_tokens_match pattern cmd ≡ true) ↔ (
        (tokenize_command pattern ≢ [])
        × ((token : String)
            → occurrences token (tokenize_command pattern)
              ≤ occurrences token (tokenize_command cmd)))
unfolding command_tokens_match
command_tokens_match_iff pattern cmd =
    let want = tokenize_command pattern in
    let within = covers_iff (tokenize_command cmd) want in
    (
      λ h. ((nil_iff want).0 (ground (arith, h)), within.0 (ground (arith, h))),
      λ h. ground (arith, (nil_iff want).1 h.0, within.1 h.1),
    )

best_of-ge : (m : FingerprintCounts) (best : String × ℕ) → best.1 ≤ (best_of m best).1
unfolding best_of
best_of-ge [] best = omega arith
best_of-ge ((fp, n) ∷ m) best = elim (Bool-cases (ltb best.1 n)) [
  | inl more ↦ simp more (ground (arith, best_of-ge m (fp.command, n)))
  | inr less ↦ simp less (best_of-ge m best)
]

best_of-above :
    {fp : CommandFingerprint} {n : ℕ} (m : FingerprintCounts) (best : String × ℕ)
    → Memᴰ (fp, n) m
    → n ≤ (best_of m best).1
unfolding best_of
best_of-above [] best mem = elim mem [ ]
best_of-above {fp} {n} ((f, k) ∷ m) best (Memᴰ.head q) =
    let same : n ≡ k = ap (λ (x : CommandFingerprint × ℕ). x.1) q in
    elim (Bool-cases (ltb best.1 k)) [
      | inl more ↦ simp more (ground (arith, best_of-ge m (f.command, k)))
      | inr less ↦ simp less (ground (arith, best_of-ge m best))
    ]
best_of-above ((f, k) ∷ m) best (Memᴰ.tail later) = best_of-above m _ later

-- The best is the one to begin with, or that of an entry.
abbrev IsBest : FingerprintCounts → String × ℕ → String × ℕ → Type 0
IsBest m first best =
    (best ≡ first)
    ⊎ ((fp : CommandFingerprint) × (n : ℕ) × Memᴰ (fp, n) m × (best ≡ (fp.command, n)))

best_of-IsBest : (m : FingerprintCounts) (first : String × ℕ) → IsBest m first (best_of m first)
unfolding best_of
best_of-IsBest [] first = inl refl
best_of-IsBest ((f, k) ∷ m) first = elim (Bool-cases (ltb first.1 k)) [
  | inl more ↦ simp more (elim (best_of-IsBest m (f.command, k)) [
    | inl here ↦ inr (f, k, Memᴰ.head refl, here)
    | inr (fp, n, mem, e) ↦ inr (fp, n, Memᴰ.tail mem, e)
  ])
  | inr less ↦ simp less (elim (best_of-IsBest m first) [
    | inl here ↦ inl here
    | inr (fp, n, mem, e) ↦ inr (fp, n, Memᴰ.tail mem, e)
  ])
]

-- No count of a map is above the best of the entries that the map has.
below_best :
    (fp : CommandFingerprint) (m entries : FingerprintCounts) (first : String × ℕ)
    → ((entry : CommandFingerprint × ℕ) → Memᴰ entry m → Memᴰ entry entries)
    → count_at fp m ≤ (best_of entries first).1
below_best fp m entries first given = elim (Bool-cases (ltb 0 (count_at fp m))) [
  | inl counted ↦
      best_of-above entries first (given _ (entry-count_at fp m (ground (arith, counted))))
  | inr absent ↦ ground (arith, absent)
]

-- The count is the greatest, and the command is one of those that have it.
pub record IsMost (prints : List CommandFingerprint) (best : String × ℕ) : Type 0 where
  pub greatest : (fp : CommandFingerprint) → occurrences fp prints ≤ best.1
  pub attained :
      (best ≡ ("", 0))
      ⊎ ((fp : CommandFingerprint) × (best.0 ≡ fp.command) × (best.1 ≡ occurrences fp prints))

-- In whatever order Go ranges over the counts, the count of the repeated command is the greatest of all
-- commands with one result, and the command is one that was called so often with one result, or there is none.
pub most_repeated_command-IsMost :
    (d : Decoder) (order : FingerprintCounts → FingerprintCounts) (calls : List ToolCall)
    → ((m : FingerprintCounts) (entry : CommandFingerprint × ℕ)
        → Memᴰ entry (order m) ↔ Memᴰ entry m)
    → IsMost (fingerprints d calls) (most_repeated_command d order calls)
unfolding most_repeated_command
most_repeated_command-IsMost d order calls ordered =
    let prints = fingerprints d calls in
    let m : FingerprintCounts = tally prints [] in
    record {
      greatest = λ fp.
          rw (← (count_at-tally_nil fp prints))
            (below_best fp m (order m) ("", 0) (λ entry. (ordered m entry).1));
      attained = elim (best_of-IsBest (order m) ("", 0)) [
        | inl none_best ↦ inl none_best
        | inr (fp, n, mem, e) ↦
            let exact = count_at-entry m (tally-Exact prints [] tt) ((ordered m (fp, n)).0 mem) in
            let most : (best_of (order m) ("", 0)).1 ≡ n = ap (λ (x : String × ℕ). x.1) e in
            inr (
              fp,
              ap (λ (x : String × ℕ). x.0) e,
              most ∙ (sym exact ∙ count_at-tally_nil fp prints),
            )
      ];
    }
