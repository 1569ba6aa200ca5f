-- ===== src/Prelude/Dict.antt =====
-- A Python dict with text keys, in insertion order.
use Prim.Native.String.{String}
use mathlib.Core.Path.{◌≡◌, refl}
use mathlib.Core.Option.{Option, none, some}
use mathlib.Core.List.{List, [], ◌∷◌}
use native.Mathlib.Omega.{arith}
use text.Mathlib.Text.{◌==◌ as str_eq}
use text.Mathlib.TextEquality.{eq_iff}
use ai_platform_mini.Prelude.Tests.{if◌then◌else◌}

abbrev pub Dict {ℓ} : Type ℓ → Type ℓ
Dict V = List (String × V)

module _ {ℓ} {V : Type ℓ} where
  -- `d.get(k)`
  unfoldable pub get : String → Dict V → Option V
  get k [] = none
  get k ((j, v) ∷ d) = if str_eq j k then some v else get k d

  -- `d[k] = v`
  unfoldable pub put : String → V → Dict V → Dict V
  put k v [] = (k, v) ∷ []
  put k v ((j, w) ∷ d) = if str_eq j k then (j, v) ∷ d else (j, w) ∷ put k v d

  -- `d.pop(k, None)`, `del d[k]`
  unfoldable pub remove : String → Dict V → Dict V
  remove k [] = []
  remove k ((j, v) ∷ d) = let rest = remove k d in if str_eq j k then rest else (j, v) ∷ rest

  -- `list(d.values())`
  abbrev pub values : Dict V → List V
  values [] = []
  values ((_, v) ∷ d) = v ∷ values d

  pub get-put :
      (k j : String) (v : V) (d : Dict V)
      → get j (put k v d) ≡ (if str_eq k j then some v else get j d)
  unfolding get put
  get-put k j v [] = refl
  get-put k j v ((i, w) ∷ d) = ground (arith, eq_iff k j, eq_iff i k, eq_iff i j, get-put k j v d)

  pub get-remove :
      (k j : String) (d : Dict V) → get j (remove k d) ≡ (if str_eq k j then none else get j d)
  unfolding get remove
  get-remove k j [] = ground arith
  get-remove k j ((i, w) ∷ d) = ground (arith, eq_iff k j, eq_iff i k, eq_iff i j, get-remove k j d)

pub ruleset dict_laws = (get-put, get-remove)
