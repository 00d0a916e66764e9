-- ===== src/Base/Maps.antt =====
-- JavaScript's `Map` with string keys: an association list in insertion order.

use Prim.Native.String.{String}
use mathlib.Core.Path.{◌≡◌, refl}
use mathlib.Core.Bool.{false}
use mathlib.Core.Option.{Option, none, some}
use mathlib.Core.List.{List, [], ◌∷◌}
use native.Mathlib.Omega.{arith}
use text.Mathlib.Text.{◌==◌ as str_eq}
use text.Mathlib.TextEquality.{eq_iff}
use nanoclaw_github_copilot.Base.Tests.{if◌then◌else◌}

abbrev pub Table {ℓ} : (V : Type ℓ) → Type ℓ
Table V = List (String × V)

module _ {ℓ} {V : Type ℓ} where
  -- `map.get(key)`
  unfoldable pub lookup : (key : String) → Table V → Option V
  lookup key [] = none
  lookup key (entry ∷ rest) = if str_eq entry.0 key then some entry.1 else lookup key rest

  -- `map.set(key, value)`: a known key keeps its place, a new one goes to the end.
  unfoldable pub insert : (key : String) (value : V) → Table V → Table V
  insert key value [] = (key, value) ∷ []
  insert key value (entry ∷ rest) =
      if str_eq entry.0 key then (entry.0, value) ∷ rest else entry ∷ insert key value rest

  -- `map.delete(key)`
  unfoldable pub erase : (key : String) → Table V → Table V
  erase key [] = []
  erase key (entry ∷ rest) = if str_eq entry.0 key then rest else entry ∷ erase key rest

  pub lookup-insert :
      (set get : String) (value : V) (table : Table V)
      → lookup get (insert set value table)
        ≡ (if str_eq set get then some value else lookup get table)
  unfolding insert lookup
  lookup-insert set get value [] = refl
  lookup-insert set get value (entry ∷ rest) = ground (
    arith,
    eq_iff entry.0 set,
    eq_iff entry.0 get,
    eq_iff set get,
    lookup-insert set get value rest,
  )

  -- Erasing one key leaves the others' values.
  pub lookup-erase_ne :
      (gone get : String) (table : Table V)
      → str_eq gone get ≡ false
      → lookup get (erase gone table) ≡ lookup get table
  unfolding erase lookup
  lookup-erase_ne gone get [] h = refl
  lookup-erase_ne gone get (entry ∷ rest) h = ground (
    arith,
    eq_iff entry.0 gone,
    eq_iff entry.0 get,
    eq_iff gone get,
    lookup-erase_ne gone get rest h,
  )

  -- `map.delete(key)` where no order or duplicate is at stake: every entry of the key goes.
  unfoldable pub discard : (key : String) → Table V → Table V
  discard key [] = []
  discard key (entry ∷ rest) =
      let kept = discard key rest in if str_eq entry.0 key then kept else entry ∷ kept

  pub lookup-discard :
      (gone get : String) (table : Table V)
      → lookup get (discard gone table) ≡ (if str_eq gone get then none else lookup get table)
  unfolding discard lookup
  lookup-discard gone get [] = ground arith
  lookup-discard gone get (entry ∷ rest) = ground (
    arith,
    eq_iff entry.0 gone,
    eq_iff entry.0 get,
    eq_iff gone get,
    lookup-discard gone get rest,
  )
