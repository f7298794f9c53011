-- ===== src/Audit/Markers.antt =====
-- What `FindMarker` of pkg/audit/events.go finds.
use evidra_bench.Base.{
  String, true, false, List, [], ◌∷◌, ◌≡◌, refl, none, some, Memᴰ, any, Bool-cases, inl, inr, ◌⊎◌,
}
use evidra_bench.Audit.Events.{Event}
use evidra_bench.Audit.Window.{is_marker, find_marker}

-- The search gives an event of the list that is a marker, or an error and no event of the list is
-- one.
pub find_marker_lem :
    (es : List Event) (username nonce : String)
    → ((e : Event) × (find_marker es username nonce ≡ some e)
        × Memᴰ e es
        × (is_marker username nonce e ≡ true))
      ⊎ ((find_marker es username nonce ≡ none) × (any (is_marker username nonce) es ≡ false))
unfolding find_marker any
find_marker_lem [] username nonce = inr (refl, refl)
find_marker_lem (x ∷ es) username nonce = elim (Bool-cases (is_marker username nonce x)) [
  | inl here ↦ inl (x, simp here refl, Memᴰ.head refl, here)
  | inr other ↦ elim (find_marker_lem es username nonce) [
    | inl (e, found, m, marks) ↦ inl (e, simp (other, found) refl, Memᴰ.tail m, marks)
    | inr (missing, no_marker) ↦ inr (simp (other, missing) refl, simp (other, no_marker) refl)
  ]
]
