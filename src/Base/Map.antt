-- ===== src/Base/Map.antt =====
-- A HashMap with text keys, as a list of entries in which a key stands once.
use mathlib.Core.List.{List, [], ◌∷◌}
use mathlib.Core.Option.{Option, none, some}
use mathlib.Core.Path.{◌≡◌, refl}
use native.Mathlib.Omega.{arith}
use Prim.Native.String.{String}
use tokendog.Base.Tests.{if◌then◌else◌}
use tokendog.Base.Text.{str_eq, eq_iff}

module _ {ℓ} {Value : Type ℓ} where
  -- `HashMap::get`.
  unfoldable pub lookup : String → List (String × Value) → Option Value
  lookup wanted [] = none
  lookup wanted ((key, value) ∷ entries) =
      if str_eq key wanted then some value else lookup wanted entries

  -- `HashMap::insert`: the entry of a key that is there is overwritten in place.
  unfoldable pub insert : String → Value → List (String × Value) → List (String × Value)
  insert new value [] = (new, value) ∷ []
  insert new value ((key, old) ∷ entries) =
      let kept = (key, old) ∷ insert new value entries in
      if str_eq key new then (new, value) ∷ entries else kept

  -- After an insertion the key has the new value, and every other key has what it had.
  pub lookup-insert :
      (wanted new : String) (value : Value) (entries : List (String × Value))
      → lookup wanted (insert new value entries)
        ≡ (if str_eq new wanted then some value else lookup wanted entries)
  unfolding lookup insert
  lookup-insert wanted new value [] = refl
  lookup-insert wanted new value ((key, old) ∷ entries) = ground (
    arith,
    eq_iff key new,
    eq_iff key wanted,
    eq_iff new wanted,
    lookup-insert wanted new value entries,
  )
