-- ===== src/Base/Maps.antt =====
-- Go maps with text keys, as association lists.
use Prim.Native.String.{String}
use mathlib.Core.Path.{◌≡◌, refl}
use mathlib.Core.List.{List, [], ◌∷◌, ◌++◌}
use mathlib.Core.Option.{Option, none, some}
use native.Mathlib.Omega.{arith}
use text.Mathlib.Text.{◌==◌}
use text.Mathlib.TextEquality.{eq_iff}
use evidra_bench.Base.Tests.{if◌then◌else◌}

module _ {ℓ} {V : Type ℓ} where
  -- A missing key reads as the nil slice.
  unfoldable pub get_list : String → List (String × List V) → List V
  get_list k [] = []
  get_list k ((j, vs) ∷ m) = if j == k then vs else get_list k m

  -- `m[k] = append(m[k], v)`
  unfoldable pub append_at : String → V → List (String × List V) → List (String × List V)
  append_at k v [] = (k, v ∷ []) ∷ []
  append_at k v ((j, vs) ∷ m) =
      if j == k then (j, vs ++ (v ∷ [])) ∷ m else (j, vs) ∷ append_at k v m

  pub get_list-append_at :
      (key other : String) (v : V) (m : List (String × List V))
      → get_list other (append_at key v m)
        ≡ (if key == other then get_list other m ++ (v ∷ []) else get_list other m)
  unfolding get_list append_at
  get_list-append_at key other v [] = refl
  get_list-append_at key other v ((at, vs) ∷ m) =
      ground
        (arith, get_list-append_at key other v m, eq_iff key other, eq_iff at key, eq_iff at other)

  -- `v, ok := m[k]`
  unfoldable pub get : String → List (String × V) → Option V
  get k [] = none
  get k ((j, v) ∷ m) = if j == k then some v else get k m

  -- `m[k] = v`
  unfoldable pub put : String → V → List (String × V) → List (String × V)
  put k v [] = (k, v) ∷ []
  put k v ((j, w) ∷ m) = if j == k then (j, v) ∷ m else (j, w) ∷ put k v m

  pub get-put :
      (key other : String) (v : V) (m : List (String × V))
      → get other (put key v m) ≡ (if key == other then some v else get other m)
  unfolding get put
  get-put key other v [] = refl
  get-put key other v ((at, w) ∷ m) =
      ground (arith, get-put key other v m, eq_iff key other, eq_iff at key, eq_iff at other)
