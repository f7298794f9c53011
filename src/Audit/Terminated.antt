-- ===== src/Audit/Terminated.antt =====
-- What a complete collection of pkg/audit says of single operations: between the markers every unary one has
-- ended.
use evidra_bench.Base.{
  all, all_at, not, ◌&&◌, String, ℕ, Bool, true, false, ◌||◌, List, [], ◌∷◌, Option, none, some,
  ◌==◌, ◌≡◌, ◌⊎◌, refl, sym, ap, ◌∙◌, subst, arith, inl, inr, Memᴰ, Bool-cases, Option-cases, any,
  contains, contains→Memᴰ, eq_iff, eq_refl, select, select-mem,
}
use mathlib.Core.List.Memᴰ
use mathlib.Core.Option.{some-injective}
use evidra_bench.Json.{Json}
use evidra_bench.Audit.Events.{
  Event, Store, terminal_stage, effective_timestamp, precedes, insert_event, sort_events,
  all_events, ids_from, ops,
}
use evidra_bench.Audit.Window.{
  WindowResult, is_channel, connect_subresource, is_stream, streaming_op, or_body, canonical_from,
  inside, belongs, group_of, window,
}
use evidra_bench.Audit.Collect.{Cluster, CollectRequest, CollectResult, complete, collect}
use evidra_bench.Audit.Keeping.{sort_events-mem}
use evidra_bench.Audit.Observed.{window-incomplete}
use evidra_bench.Audit.Sealed.{collect-IsSealed}

mem-insert_event : (x e : Event) (es : List Event) → Memᴰ e (x ∷ es) → Memᴰ e (insert_event x es)
unfolding insert_event
mem-insert_event x e [] m = m
mem-insert_event x e (y ∷ ys) m = elim (Bool-cases (precedes y x)) [
  | inr here ↦ simp here m
  | inl later ↦ simp later (elim m [
    | Memᴰ.head same ↦ Memᴰ.tail (mem-insert_event x e ys (Memᴰ.head same))
    | Memᴰ.tail (Memᴰ.head same) ↦ Memᴰ.head same
    | Memᴰ.tail (Memᴰ.tail rest) ↦ Memᴰ.tail (mem-insert_event x e ys (Memᴰ.tail rest))
  ])
]

mem-sort_events : (e : Event) (es : List Event) → Memᴰ e es → Memᴰ e (sort_events es)
unfolding sort_events
mem-sort_events e [] m = m
mem-sort_events e (x ∷ xs) (Memᴰ.head same) = mem-insert_event x e (sort_events xs) (Memᴰ.head same)
mem-sort_events e (x ∷ xs) (Memᴰ.tail m) =
    mem-insert_event x e (sort_events xs) (Memᴰ.tail (mem-sort_events e xs m))

ids_from-contains :
    {e : Event} (seen : List String) {es : List Event}
    → Memᴰ e es
    → contains seen e.audit_id ≡ false
    → contains (ids_from seen es) e.audit_id ≡ true
unfolding ids_from contains
ids_from-contains {e} seen (Memᴰ.head {x = x} {xs = xs} same) fresh =
    let id : e.audit_id ≡ x.audit_id = ap (λ (y : Event). y.audit_id) same in
    let fresh' : contains seen x.audit_id ≡ false = ap (contains seen) (sym id) ∙ fresh in
    simp fresh' (ground (arith, eq_iff x.audit_id e.audit_id, id))
ids_from-contains {e} seen (Memᴰ.tail {x = x} {xs = xs} m) fresh =
    elim (Bool-cases (contains seen x.audit_id)) [
      | inl known ↦ simp known (ids_from-contains seen m fresh)
      | inr new ↦ simp new (elim (Bool-cases (x.audit_id == e.audit_id)) [
        | inl same ↦ ground (arith, same)
        | inr other ↦
            ground (arith, ids_from-contains (x.audit_id ∷ seen) m (ground (arith, other, fresh)))
      ])
    ]

mem-select :
    (p : Event → Bool) {e : Event} {es : List Event} → Memᴰ e es → p e ≡ true → Memᴰ e (select p es)
unfolding select
mem-select p {e} (Memᴰ.head {x = x} same) h =
    let h' : p x ≡ true = ap p (sym same) ∙ h in simp h' (Memᴰ.head same)
mem-select p (Memᴰ.tail {x = x} m) h = elim (Bool-cases (p x)) [
  | inl kept ↦ simp kept (Memᴰ.tail (mem-select p m h))
  | inr dropped ↦ simp dropped (mem-select p m h)
]

select-passes : (p : Event → Bool) (e : Event) (es : List Event) → Memᴰ e (select p es) → p e ≡ true
unfolding select
select-passes p e (x ∷ xs) m = elim (Bool-cases (p x)) [
  | inr dropped ↦ select-passes p e xs (rw dropped at m)
  | inl kept ↦ elim (rw kept at m) [
    | Memᴰ.head same ↦ ap p same ∙ kept
    | Memᴰ.tail rest ↦ select-passes p e xs rest
  ]
]
select-passes p e [] m = absurd (Memᴰ.not-nil m)

any-none :
    (p : Event → Bool) (es : List Event)
    → ((x : Event) → Memᴰ x es → p x ≡ false)
    → any p es ≡ false
unfolding any
any-none p [] h = refl
any-none p (x ∷ xs) h =
    ground (arith, h x (Memᴰ.head refl), any-none p xs (λ y m. h y (Memᴰ.tail m)))

-- A canonical event stands for a terminal one of the group.
canonical_from-ended :
    (body : Option Json) (es : List Event) (c : Event)
    → canonical_from body es ≡ some c
    → (t : Event) × Memᴰ t es × (terminal_stage t.stage ≡ true)
unfolding canonical_from
canonical_from-ended body [] c h = cc h
canonical_from-ended body (e ∷ es) c h = elim (Bool-cases (terminal_stage e.stage)) [
  | inl ends ↦ (e, Memᴰ.head refl, ends)
  | inr on ↦
      let (t, m, ends) =
        canonical_from-ended (or_body body e.request_object) es c (ground (arith, h, on)) in
      (t, Memᴰ.tail m, ends)
]

ended_stage :
    (stage : String)
    → terminal_stage stage ≡ true
    → (stage ≡ "ResponseComplete") ⊎ (stage ≡ "Panic")
unfolding terminal_stage
ended_stage stage h = elim (Bool-cases (stage == "ResponseComplete")) [
  | inl complete_stage ↦ inl ((eq_iff stage "ResponseComplete").0 complete_stage)
  | inr other ↦ inr ((eq_iff stage "Panic").0 (ground (arith, h, other)))
]

-- The event and the store that the lemmas below are about.
module _ (s : Store) (e : Event) where
  abbrev group : List Event
  group = group_of (all_events s) e.audit_id

  of_group : (x : Event) → Memᴰ x group → Memᴰ x s.stored × (x.audit_id ≡ e.audit_id)
  unfolding group_of all_events belongs
  of_group x m = (
    sort_events-mem x s.stored (select-mem (belongs e.audit_id) (all_events s) m),
    (eq_iff x.audit_id e.audit_id).0 (select-passes (belongs e.audit_id) x (all_events s) m),
  )

  listed_op : Memᴰ e s.stored → Memᴰ e.audit_id (ops s)
  unfolding ops all_events contains
  listed_op m =
      contains→Memᴰ (ops s) e.audit_id (ids_from-contains [] (mem-sort_events e s.stored m) refl)

  in_group : Memᴰ e s.stored → Memᴰ e group
  unfolding group_of all_events belongs
  in_group m = mem-select (belongs e.audit_id) (mem-sort_events e s.stored m) (eq_refl e.audit_id)

  -- The store has an event of the operation in one of the two stages that end it.
  unfoldable pub IsEnded : Type 0
  IsEnded =
      (t : Event) × Memᴰ t s.stored
      × (t.audit_id ≡ e.audit_id)
      × ((t.stage ≡ "ResponseComplete") ⊎ (t.stage ≡ "Panic"))

  unended_lost :
      (start finish : Event) (g : List Event)
      → group ≡ g
      → Memᴰ e g
      → Memᴰ e s.stored
      → canonical_from none g ≡ none
      → ((x : Event)
          → Memᴰ x g
          → inside (effective_timestamp start) (effective_timestamp finish) x ≡ true)
      → ((x : Event) → Memᴰ x g → is_channel x ≡ false)
      → ((x : Event) → Memᴰ x g → is_stream x ≡ false)
      → Memᴰ e.audit_id (window s start finish).incomplete
  unfolding connect_subresource streaming_op
  unended_lost start finish [] same there m unended within plain unary = absurd (Memᴰ.not-nil there)
  unended_lost start finish (first ∷ rest) same there m unended within plain unary =
      window-incomplete s start finish first rest e.audit_id (listed_op m) same unended
        (any-none is_channel (first ∷ rest) plain) (any-none is_stream (first ∷ rest) unary)
        (within first (Memᴰ.head refl))

  group-IsEnded : (c : Event) → canonical_from none group ≡ some c → IsEnded
  unfolding IsEnded
  group-IsEnded c h =
      let (t, m, ends) = canonical_from-ended none group c h in
      let (stored, same) = of_group t m in (t, stored, same, ended_stage t.stage ends)

-- An event of the operation lies between the times, names no channel and does not stream.
unfoldable pub is_plain : ℕ → ℕ → String → Event → Bool
is_plain lo hi id x =
    not (x.audit_id == id) || (inside lo hi x && (not (is_channel x) && not (is_stream x)))

plain_at :
    (lo hi : ℕ) (id : String) (es : List Event) (x : Event)
    → all (is_plain lo hi id) es ≡ true
    → Memᴰ x es
    → x.audit_id ≡ id
    → (inside lo hi x ≡ true) × ((is_channel x ≡ false) × (is_stream x ≡ false))
unfolding is_plain
plain_at lo hi id es x h m same =
    let here = all_at (is_plain lo hi id) m h in
    let own : (x.audit_id == id) ≡ true = (eq_iff x.audit_id id).1 same in
    (ground (arith, here, own), (ground (arith, here, own), ground (arith, here, own)))

-- If a collection ends with complete coverage, and all events of an operation in its store lie between its
-- markers and neither name a channel nor stream, then the store holds an event of the operation whose stage is
-- ResponseComplete or Panic.
pub collect-IsEnded :
    (fuel : ℕ) (c : Cluster) (req : CollectRequest) (r : CollectResult) (s : Store)
    (start finish e : Event)
    → collect fuel c req ≡ some r
    → r.coverage ≡ complete
    → r.store ≡ some s
    → r.start_event ≡ some start
    → r.end_event ≡ some finish
    → Memᴰ e s.stored
    → all (is_plain (effective_timestamp start) (effective_timestamp finish) e.audit_id) s.stored
      ≡ true
    → IsEnded s e
collect-IsEnded fuel c req r s start finish e h whole store first last m plain =
    let sealed = collect-IsSealed fuel c req r h whole in
    let stored = some-injective _ _ (sym sealed.stored ∙ store) in
    let starts = some-injective _ _ (sym sealed.opens ∙ first) in
    let ends = some-injective _ _ (sym sealed.closes ∙ last) in
    let same : window sealed.last.store sealed.first_event sealed.last_event
        ≡ window s start finish =
      λ i. window (stored i) (starts i) (ends i) in
    let none_lost : (window s start finish).incomplete ≡ [] =
      ap (λ (w : WindowResult). w.incomplete) (sym same ∙ sym sealed.windowed) ∙ sealed.whole in
    let at = λ (x : Event) (k : Memᴰ x (group s e)).
      let (inside_store, own) = of_group s e x k in
      plain_at (effective_timestamp start) (effective_timestamp finish) e.audit_id s.stored x plain
        inside_store own in
    elim (Option-cases (canonical_from none (group s e))) [
      | inr (canonical, found) ↦ group-IsEnded s e canonical found
      | inl missing ↦ absurd (
          Memᴰ.not-nil (
            subst (Memᴰ e.audit_id) none_lost (
              unended_lost s e start finish (group s e) refl (in_group s e m) m missing
                (λ x k. (at x k).0) (λ x k. (at x k).1.0) (λ x k. (at x k).1.1))))
    ]
