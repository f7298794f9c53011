-- ===== src/Audit/Keeping.antt =====
-- What the store of events never loses: pkg/audit/events.go.
use evidra_bench.Base.{
  true, List, [], ◌∷◌, ◌≡◌, refl, subst, arith, Memᴰ, all, inl, inr, Bool-cases,
}
use mathlib.Core.List.Memᴰ
use evidra_bench.Audit.Events.{
  Event, Store, key_of, has_key, add_event, add, precedes, insert_event, sort_events,
}
use evidra_bench.Audit.Ingest.{is_known, add-keeps, all_known}

add_event-Memᴰ : (s : Store) (x e : Event) → Memᴰ e s.stored → Memᴰ e (add_event s x).stored
unfolding add_event
add_event-Memᴰ s x e m = elim (Bool-cases (has_key (key_of x) s.stored)) [
  | inl known ↦ simp known m
  | inr fresh ↦ simp fresh (Memᴰ.append_left (x ∷ []) m)
]

pub add-Memᴰ :
    (s : Store) (es : List Event) (e : Event) → Memᴰ e s.stored → Memᴰ e (add s es).0.stored
unfolding add
add-Memᴰ s [] e m = m
add-Memᴰ s (x ∷ es) e m = add-Memᴰ (add_event s x) es e (add_event-Memᴰ s x e m)

pub add-is_known : (s : Store) (es : List Event) → all (is_known (add s es).0) es ≡ true
add-is_known s es = all_known (add s es).0 es (λ k h. ground (arith, add-keeps s es k))

pub is_known-add :
    (s : Store) (es xs : List Event)
    → all (is_known s) xs ≡ true
    → all (is_known (add s es).0) xs ≡ true
unfolding all is_known
is_known-add s es [] h = refl
is_known-add s es (x ∷ xs) h =
    ground (arith, add-keeps s es (key_of x), is_known-add s es xs (ground (arith, h)))

insert_event-mem : (x e : Event) (es : List Event) → Memᴰ e (insert_event x es) → Memᴰ e (x ∷ es)
unfolding insert_event
insert_event-mem x e [] m = m
insert_event-mem x e (y ∷ ys) m = elim (Bool-cases (precedes y x)) [
  | inl later ↦
      let deeper : insert_event x (y ∷ ys) ≡ y ∷ insert_event x ys = simp later refl in
      elim (subst (Memᴰ e) deeper m) [
        | Memᴰ.head same ↦ Memᴰ.tail (Memᴰ.head same)
        | Memᴰ.tail rest ↦ elim (insert_event-mem x e ys rest) [
          | Memᴰ.head same ↦ Memᴰ.head same
          | Memᴰ.tail t ↦ Memᴰ.tail (Memᴰ.tail t)
        ]
      ]
  | inr here ↦
      let front : insert_event x (y ∷ ys) ≡ x ∷ y ∷ ys = simp here refl in subst (Memᴰ e) front m
]

-- An event of the sorted list is an event of the list.
pub sort_events-mem : (e : Event) (es : List Event) → Memᴰ e (sort_events es) → Memᴰ e es
unfolding sort_events
sort_events-mem e [] m = m
sort_events-mem e (x ∷ es) m = elim (insert_event-mem x e (sort_events es) m) [
  | Memᴰ.head same ↦ Memᴰ.head same
  | Memᴰ.tail rest ↦ Memᴰ.tail (sort_events-mem e es rest)
]
