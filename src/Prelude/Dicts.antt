-- ===== src/Prelude/Dicts.antt =====
-- Python's `dict` with string keys as an association list in insertion order.
use Prim.Native.String.{String}
use mathlib.Core.Path.{◌≡◌, refl}
use mathlib.Core.Option.{Option, none, some}
use mathlib.Core.List.{List, [], ◌∷◌}
use native.Mathlib.Omega.{arith}
use text.Mathlib.Text.{◌==◌}
use text.Mathlib.TextEquality.{eq_iff}
use codex_loop_orchestra.Prelude.Tests.{if◌then◌else◌}

abbrev pub Dict {ℓ} : Type ℓ → Type ℓ
Dict V = List (String × V)

-- The entry of a new key goes to the end, an old key keeps its place.
module _ {ℓ} {V : Type ℓ} where
  -- `d.get(key)`
  unfoldable pub lookup : String → Dict V → Option V
  lookup key [] = none
  lookup key ((name, value) ∷ rest) = if name == key then some value else lookup key rest

  -- `d[key] = value`
  unfoldable pub insert : String → V → Dict V → Dict V
  insert key value [] = (key, value) ∷ []
  insert key value ((name, old) ∷ rest) =
      let kept = insert key value rest in
      if name == key then (name, value) ∷ rest else (name, old) ∷ kept

  -- What a dict answers after an assignment.
  pub lookup-insert :
      (new key : String) (value : V) (d : Dict V)
      → lookup key (insert new value d) ≡ (if new == key then some value else lookup key d)
  unfolding lookup insert
  lookup-insert new key value [] = refl
  lookup-insert new key value ((name, old) ∷ rest) =
      let later = lookup-insert new key value rest in
      ground (arith, later, eq_iff name key, eq_iff name new, eq_iff new key)

  -- `d.pop(key, None)`
  unfoldable pub remove : String → Dict V → Dict V
  remove key [] = []
  remove key ((name, value) ∷ rest) =
      let later = remove key rest in if name == key then rest else (name, value) ∷ later
