-- ===== src/Audit/Ingest.antt =====
-- What `Store.Add` and `Store.HasTerminal` of pkg/audit/events.go keep.
use evidra_bench.Base.{
  String, ◌+◌, Bool, true, ◌&&◌, ◌||◌, List, [], ◌∷◌, ◌++◌, map, ◌==◌, ◌≡◌, refl, ap, sym, subst,
  ◌∙◌, arith, any, all, select, length, length-append, eq_refl, eq_iff, get_list,
  get_list-append_at, Bool-cases, inl, inr, if◌then◌else◌,
}
use evidra_bench.Audit.Events.{
  Event, Store, new_store, key_of, has_key, add_event, add, has_terminal, terminal_stage,
}
use evidra_bench.Audit.Window.{belongs}

stages_of : String → List Event → List String
stages_of id es = map (λ (e : Event). e.stage) (select (belongs id) es)

-- The index of stages agrees with the stored events.
IsIndexed : Store → Type 0
IsIndexed s = (id : String) → get_list id s.op_stages ≡ stages_of id s.stored

stages_of-append :
    (id : String) (es : List Event) (e : Event)
    → stages_of id (es ++ (e ∷ []))
      ≡ (if e.audit_id == id then stages_of id es ++ (e.stage ∷ []) else stages_of id es)
unfolding stages_of select belongs
stages_of-append id [] e = ground arith
stages_of-append id (x ∷ es) e = ground (arith, stages_of-append id es e)

add_event-IsIndexed : (s : Store) (e : Event) → IsIndexed s → IsIndexed (add_event s e)
unfolding add_event IsIndexed
add_event-IsIndexed s e h id = elim (Bool-cases (has_key (key_of e) s.stored)) [
  | inl known ↦ simp known (h id)
  | inr fresh ↦ simp fresh (
      get_list-append_at e.audit_id id e.stage s.op_stages
      ∙ ap (λ xs. if e.audit_id == id then xs ++ (e.stage ∷ []) else xs) (h id)
      ∙ sym (stages_of-append id s.stored e))
]

add-IsIndexed : (s : Store) (es : List Event) → IsIndexed s → IsIndexed (add s es).0
unfolding add
add-IsIndexed s [] h = h
add-IsIndexed s (e ∷ es) h = add-IsIndexed (add_event s e) es (add_event-IsIndexed s e h)

unfoldable pub ends : String → Event → Bool
unfolding belongs
ends id e = belongs id e && terminal_stage e.stage

any-stages_of :
    (id : String) (es : List Event) → any terminal_stage (stages_of id es) ≡ any (ends id) es
unfolding any stages_of select ends belongs
any-stages_of id [] = refl
any-stages_of id (e ∷ es) = ground (arith, any-stages_of id es)

-- After events are added to an empty store, an operation has a terminal stage exactly if one of the
-- stored events is an event of the operation at a terminal stage.
has_terminal-add :
    (es : List Event) (id : String)
    → has_terminal (add new_store es).0 id ≡ any (ends id) (add new_store es).0.stored
unfolding has_terminal IsIndexed stages_of select get_list
has_terminal-add es id =
    ap (any terminal_stage) (add-IsIndexed new_store es (λ i. refl) id)
    ∙ any-stages_of id (add new_store es).0.stored

add_event-known : (s : Store) (e : Event) → has_key (key_of e) s.stored ≡ true → add_event s e ≡ s
unfolding add_event
add_event-known s e known = simp known refl

length-add_event :
    (s : Store) (e : Event)
    → length (add_event s e).stored
      ≡ length s.stored + (if has_key (key_of e) s.stored then 0 else 1)
unfolding add_event
length-add_event s e = elim (Bool-cases (has_key (key_of e) s.stored)) [
  | inl known ↦ simp known (omega arith)
  | inr fresh ↦ simp fresh (length-append s.stored (e ∷ []))
]

-- The count that `Add` returns is the number of events by which the store has grown.
pub add-grows :
    (s : Store) (es : List Event) → length (add s es).0.stored ≡ length s.stored + (add s es).1
unfolding add
add-grows s [] = omega arith
add-grows s (e ∷ es) = omega (arith, add-grows (add_event s e) es, length-add_event s e)

has_key-append :
    (k : String) (xs ys : List Event) → has_key k (xs ++ ys) ≡ (has_key k xs || has_key k ys)
unfolding has_key
has_key-append k [] ys = refl
has_key-append k (x ∷ xs) ys = ground (arith, has_key-append k xs ys)

unfoldable pub is_known : Store → Event → Bool
is_known s e = has_key (key_of e) s.stored

add_event-keeps :
    (s : Store) (e : Event) (k : String)
    → has_key k (add_event s e).stored ≡ (key_of e == k || has_key k s.stored)
unfolding add_event has_key
add_event-keeps s e k = elim (Bool-cases (has_key (key_of e) s.stored)) [
  | inl known ↦ simp known (elim (Bool-cases (key_of e == k)) [
    | inl same ↦
        cc (same, subst (λ j. has_key j s.stored ≡ true) ((eq_iff (key_of e) k).0 same) known)
    | inr other ↦ ground (arith, other)
  ])
  | inr fresh ↦ simp fresh (ground (arith, has_key-append k s.stored (e ∷ [])))
]

pub add-keeps :
    (s : Store) (es : List Event) (k : String)
    → has_key k (add s es).0.stored ≡ (has_key k s.stored || has_key k es)
unfolding add has_key
add-keeps s [] k = ground arith
add-keeps s (e ∷ es) k = ground (arith, add-keeps (add_event s e) es k, add_event-keeps s e k)

add-known : (s : Store) (es : List Event) → all (is_known s) es ≡ true → add s es ≡ (s, 0)
unfolding add all is_known
add-known s [] h = refl
add-known s (e ∷ es) h =
    let known : has_key (key_of e) s.stored ≡ true = ground (arith, h) in
    let rest = add-known s es (ground (arith, h)) in
    simp (add_event-known s e known, rest, known) refl

pub all_known :
    (t : Store) (es : List Event)
    → ((k : String) → has_key k es ≡ true → has_key k t.stored ≡ true)
    → all (is_known t) es ≡ true
unfolding all is_known has_key
all_known t [] h = refl
all_known t (e ∷ es) h =
    ground (arith, h (key_of e), eq_refl (key_of e), all_known t es (λ k m. h k (ground arith)))

-- Adding the same events a second time stores none and changes nothing.
add_idem : (s : Store) (es : List Event) → add ((add s es).0) es ≡ ((add s es).0, 0)
add_idem s es =
    add-known (add s es).0 es (all_known (add s es).0 es (λ k h. ground (arith, add-keeps s es k)))
