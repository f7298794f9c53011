-- ===== src/Audit/Observed.antt =====
-- What a window reports of the operations of the store: pkg/audit/events.go.
use evidra_bench.Base.{
  String, ℕ, true, false, List, [], ◌∷◌, ◌≡◌, refl, sym, subst, arith, Option, none, some, Memᴰ,
  all, all-append, Bool-cases, inl, inr,
}
use mathlib.Core.List.Memᴰ
use evidra_bench.Audit.Events.{Event, Store, effective_timestamp, all_events, ops}
use evidra_bench.Audit.Window.{
  open_from, outcome_from, connect_subresource, connect_started, streaming_op, canonical_from,
  inside, lost, established, closed_op, op_outcome, group_of, both, window_over, window,
}

module _ (lo hi : ℕ) where
  lost-inside :
      (id : String) (es : List Event) → all (inside lo hi) (lost lo hi id es).window_ops ≡ true
  unfolding lost all
  lost-inside id [] = refl
  lost-inside id (e ∷ es) = elim (Bool-cases (inside lo hi e)) [
    | inl within ↦ simp within refl
    | inr out ↦ simp out refl
  ]

  open_from-inside :
      (id : String) (group : List Event) (started : Option Event)
      → all (inside lo hi) (open_from lo hi id group started).window_ops ≡ true
  unfolding open_from established all
  open_from-inside id group (some e) = elim (Bool-cases (inside lo hi e)) [
    | inl within ↦ simp within refl
    | inr out ↦ simp out refl
  ]
  open_from-inside id group none = elim (Bool-cases (connect_subresource group)) [
    | inl channel ↦ simp channel (lost-inside id group)
    | inr plain ↦ elim (Bool-cases (streaming_op group)) [
      | inl stream ↦ simp (plain, stream) refl
      | inr unary ↦ simp (plain, unary) (lost-inside id group)
    ]
  ]

  outcome_from-inside :
      (id : String) (group : List Event) (canonical : Option Event)
      → all (inside lo hi) (outcome_from lo hi id group canonical).window_ops ≡ true
  unfolding outcome_from closed_op all
  outcome_from-inside id group none = open_from-inside id group (connect_started group)
  outcome_from-inside id group (some e) = elim (Bool-cases (inside lo hi e)) [
    | inl within ↦ simp within refl
    | inr out ↦ simp out refl
  ]

  window_over-inside :
      (events : List Event) (ids : List String)
      → all (inside lo hi) (window_over lo hi events ids).window_ops ≡ true
  unfolding window_over both all op_outcome
  window_over-inside events [] = refl
  window_over-inside events (id ∷ ids) = ground (
    arith,
    all-append (inside lo hi) (op_outcome lo hi id (group_of events id)).window_ops
        (window_over lo hi events ids).window_ops,
    outcome_from-inside id (group_of events id) (canonical_from none (group_of events id)),
    window_over-inside events ids,
  )

  -- What one operation leaves is part of the result.
  window_over-incomplete :
      (events : List Event) {id : String} {ids : List String}
      → Memᴰ id ids
      → Memᴰ id (op_outcome lo hi id (group_of events id)).incomplete
      → Memᴰ id (window_over lo hi events ids).incomplete
  unfolding window_over both
  window_over-incomplete events {id} (Memᴰ.head {xs = xs} e) h =
      rw (← e) (Memᴰ.append_left (window_over lo hi events xs).incomplete h)
  window_over-incomplete events (Memᴰ.tail {x = x} m) h =
      Memᴰ.append_right (op_outcome lo hi x (group_of events x)).incomplete
        (window_over-incomplete events m h)

  window_over-delegated :
      (events : List Event) {id : String} {ids : List String} {e : Event}
      → Memᴰ id ids
      → Memᴰ e (op_outcome lo hi id (group_of events id)).delegated_ops
      → Memᴰ e (window_over lo hi events ids).delegated_ops
  unfolding window_over both
  window_over-delegated events {id} (Memᴰ.head {xs = xs} e) h =
      rw (← e) (Memᴰ.append_left (window_over lo hi events xs).delegated_ops h)
  window_over-delegated events (Memᴰ.tail {x = x} m) h =
      Memᴰ.append_right (op_outcome lo hi x (group_of events x)).delegated_ops
        (window_over-delegated events m h)

silent_op :
    (lo hi : ℕ) (id : String) (first : Event) (rest : List Event)
    → connect_subresource (first ∷ rest) ≡ false
    → streaming_op (first ∷ rest) ≡ false
    → inside lo hi first ≡ true
    → Memᴰ id (outcome_from lo hi id (first ∷ rest) none).incomplete
unfolding outcome_from connect_started open_from lost
silent_op lo hi id first rest plain unary within = simp (plain, unary, within) (Memᴰ.head refl)

lost_op :
    (lo hi : ℕ) (id : String) (first : Event) (rest : List Event)
    → canonical_from none (first ∷ rest) ≡ none
    → connect_subresource (first ∷ rest) ≡ false
    → streaming_op (first ∷ rest) ≡ false
    → inside lo hi first ≡ true
    → Memᴰ id (op_outcome lo hi id (first ∷ rest)).incomplete
unfolding op_outcome
lost_op lo hi id first rest unended plain unary within =
    subst (λ o. Memᴰ id (outcome_from lo hi id (first ∷ rest) o).incomplete) (sym unended)
      (silent_op lo hi id first rest plain unary within)

closed_channel :
    (lo hi : ℕ) (id : String) (group : List Event) (e : Event)
    → canonical_from none group ≡ some e
    → connect_subresource group ≡ true
    → inside lo hi e ≡ true
    → Memᴰ e (op_outcome lo hi id group).delegated_ops
unfolding op_outcome
closed_channel lo hi id group e closed channel within =
    subst (λ o. Memᴰ e (outcome_from lo hi id group o).delegated_ops) (sym closed)
      (unfold outcome_from closed_op in simp (within, channel) (Memᴰ.head refl))

-- Every operation that a window reports lies between its markers.
window-inside :
    (s : Store) (start finish : Event)
    → all
        (inside (effective_timestamp start) (effective_timestamp finish))
        (window s start finish).window_ops
      ≡ true
unfolding window
window-inside s start finish =
    window_over-inside (effective_timestamp start) (effective_timestamp finish) (all_events s)
      (ops s)

-- An operation that neither opens a channel nor streams, whose first event lies between the markers
-- and which reached no terminal stage, is reported incomplete.
pub window-incomplete :
    (s : Store) (start finish first : Event) (rest : List Event) (id : String)
    → Memᴰ id (ops s)
    → group_of (all_events s) id ≡ first ∷ rest
    → canonical_from none (first ∷ rest) ≡ none
    → connect_subresource (first ∷ rest) ≡ false
    → streaming_op (first ∷ rest) ≡ false
    → inside (effective_timestamp start) (effective_timestamp finish) first ≡ true
    → Memᴰ id (window s start finish).incomplete
unfolding window
window-incomplete s start finish first rest id m group unended plain unary within =
    let lo = effective_timestamp start in
    let hi = effective_timestamp finish in
    window_over-incomplete lo hi (all_events s) m
      (rw group (lost_op lo hi id first rest unended plain unary within))

-- An operation on a channel of a workload that reached a terminal stage between the markers is
-- reported as delegated.
window-delegated :
    (s : Store) (start finish e : Event) (id : String)
    → Memᴰ id (ops s)
    → canonical_from none (group_of (all_events s) id) ≡ some e
    → connect_subresource (group_of (all_events s) id) ≡ true
    → inside (effective_timestamp start) (effective_timestamp finish) e ≡ true
    → Memᴰ e (window s start finish).delegated_ops
unfolding window
window-delegated s start finish e id m closed channel within =
    let lo = effective_timestamp start in
    let hi = effective_timestamp finish in
    window_over-delegated lo hi (all_events s) m
      (closed_channel lo hi id (group_of (all_events s) id) e closed channel within)
