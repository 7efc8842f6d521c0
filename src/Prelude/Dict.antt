-- ===== src/Prelude/Dict.antt =====
-- Dictionaries keyed by text, as association lists.
use Prim.Native.String.{String}
use text.Mathlib.TextEquality.{eq_iff}
use mathlib.Core.Path.{◌≡◌, refl}
use mathlib.Core.Option.{Option, none, some}
use mathlib.Core.List.{List, [], ◌∷◌}
use native.Mathlib.Omega.{arith}
use crash_game.Prelude.Tests.{str_eq, if◌then◌else◌}

module _ {ℓ} {V : Type ℓ} where
  unfoldable pub lookup : String → List (String × V) → Option V
  lookup key [] = none
  lookup key ((first, held) ∷ dict) = if str_eq first key then some held else lookup key dict

  unfoldable pub insert : String → V → List (String × V) → List (String × V)
  insert key value [] = (key, value) ∷ []
  insert key value ((first, held) ∷ dict) =
      let rest = insert key value dict in
      if str_eq first key then (key, value) ∷ dict else (first, held) ∷ rest

  unfoldable pub delete : String → List (String × V) → List (String × V)
  delete key [] = []
  delete key ((first, held) ∷ dict) =
      let rest = delete key dict in if str_eq first key then rest else (first, held) ∷ rest

  pub lookup-insert :
      (key asked : String) (value : V) (dict : List (String × V))
      → lookup asked (insert key value dict)
        ≡ (if str_eq key asked then some value else lookup asked dict)
  unfolding lookup insert
  lookup-insert key asked value [] = refl
  lookup-insert key asked value ((first, held) ∷ dict) = ground (
    arith,
    lookup-insert key asked value dict,
    eq_iff first asked,
    eq_iff first key,
    eq_iff key asked,
  )
