-- ===== src/Prelude/Json.antt =====
-- The values of a JSON column, and Python dictionaries with text keys.
use Prim.Native.String.{String}
use mathlib.Core.Path.{◌≡◌, refl, ap, ◌∙◌}
use mathlib.Core.Bool.{Bool, true, false, not}
use mathlib.Core.Option.{Option, none, some}
use mathlib.Core.List.{List, [], ◌∷◌}
use native.Mathlib.Omega.{arith}
use text.Mathlib.TextEquality.{eq_iff}
use infra_ops.Prelude.Tests.{◌==◌, if◌then◌else◌}
use infra_ops.Prelude.Int.{ℤ, pos, negsuc}
use infra_ops.Prelude.Text.{str_eq, truthy_text}

mutual
  pub data Json : Type 0 where
    null : Json
    bool : Bool → Json
    num : ℤ → Json
    str : String → Json
    arr : Items → Json
    obj : Fields → Json

  pub data Items : Type 0 where
    nil : Items
    cons : Json → Items → Items

  pub data Fields : Type 0 where
    end : Fields
    field : String → Json → Fields → Fields

-- `bool(x)`
unfoldable pub truthy : Json → Bool
truthy null = false
truthy (bool b) = b
truthy (num (pos n)) = not (n == 0)
truthy (num (negsuc n)) = true
truthy (str s) = truthy_text s
truthy (arr nil) = false
truthy (arr _) = true
truthy (obj end) = false
truthy (obj _) = true

module _ {ℓ} {V : Type ℓ} where
  -- `d.get(k)`
  unfoldable pub lookup : String → List (String × V) → Option V
  lookup k [] = none
  lookup k ((j, v) ∷ d) = if str_eq j k then some v else lookup k d

  -- `d[k] = v`
  unfoldable pub insert : String → V → List (String × V) → List (String × V)
  insert k v [] = (k, v) ∷ []
  insert k v ((j, w) ∷ d) = if str_eq j k then (k, v) ∷ d else (j, w) ∷ insert k v d

  -- `d.update(e)`
  unfoldable pub update : List (String × V) → List (String × V) → List (String × V)
  unfolding insert
  update d [] = d
  update d ((k, v) ∷ e) = update (insert k v d) e

  pub lookup-insert :
      (k j : String) (v : V) (d : List (String × V))
      → lookup j (insert k v d) ≡ (if str_eq k j then some v else lookup j d)
  unfolding lookup insert
  lookup-insert k j v [] = refl
  lookup-insert k j v ((i, w) ∷ d) =
      ground (arith, eq_iff k j, eq_iff i k, eq_iff i j, lookup-insert k j v d)

abbrev pub truthy_found : Option Json → Bool
truthy_found none = false
truthy_found (some v) = truthy v

-- `d.get(k)` of a dictionary of JSON values, tested as a condition.
abbrev pub holds : String → List (String × Json) → Bool
holds k d = truthy_found (lookup k d)

truthy_found-if :
    (b : Bool) (v : Json) (o : Option Json)
    → truthy_found (if b then some v else o) ≡ (if b then truthy v else truthy_found o)
truthy_found-if true v o = refl
truthy_found-if false v o = refl

pub holds-insert :
    (k j : String) (v : Json) (d : List (String × Json))
    → holds j (insert k v d) ≡ (if str_eq k j then truthy v else holds j d)
holds-insert k j v d =
    ap truthy_found (lookup-insert k j v d) ∙ truthy_found-if (str_eq k j) v (lookup j d)

find_field : String → Fields → Option Json
find_field k end = none
find_field k (field j v rest) = if str_eq j k then some v else find_field k rest

-- `v.get(k)` of an object; `none` where there is no such key.
unfoldable pub get_field : String → Json → Option Json
unfolding find_field
get_field k (obj fs) = find_field k fs
get_field k _ = none

-- A field that holds a text which is not empty.
unfoldable pub text_field : String → Json → Option String
unfolding get_field
text_field k v = elim (get_field k v) [
  | some (str s) ↦ if truthy_text s then some s else none
  | _ ↦ none
]
