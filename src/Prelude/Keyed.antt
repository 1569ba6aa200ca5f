-- ===== src/Prelude/Keyed.antt =====
-- Dicts whose values stand under a key of their own.
use Prim.Native.String.{String}
use mathlib.Core.Path.{◌≡◌, refl, sym, ◌∙◌}
use mathlib.Core.Logic.{inl, inr}
use mathlib.Core.Option.{none, some}
use mathlib.Core.List.{[], ◌∷◌}
use native.Mathlib.Omega.{arith}
use text.Mathlib.Text.{◌==◌ as str_eq}
use text.Mathlib.TextEquality.{eq_iff}
use ai_platform_mini.Prelude.Tests.{Bool-cases}
use ai_platform_mini.Prelude.Dict.{Dict, get, put, remove, get-put, get-remove}

module _ {V : Type 0} (key : V → String) where
  -- Each value is stored once, under its key.
  abbrev pub Keyed : Dict V → Type 0
  Keyed [] = Unit
  Keyed ((k, v) ∷ d) = (key v ≡ k) × (get k d ≡ none) × Keyed d

  pub Keyed-put : (k : String) (v : V) (d : Dict V) → key v ≡ k → Keyed d → Keyed (put k v d)
  unfolding put get
  Keyed-put k v [] e f = (e, refl, tt)
  Keyed-put k v ((j, w) ∷ d) e (a, b, f) = elim (Bool-cases (str_eq j k)) [
    | inl q ↦ rw (put, q) (e ∙ sym ((eq_iff j k).0 q), b, f)
    | inr q ↦
        rw (put, q)
          (a, ground (arith, b, q, get-put k j v d, eq_iff k j, eq_iff j k), Keyed-put k v d e f)
  ]

  pub Keyed-get : (k : String) (v : V) (d : Dict V) → Keyed d → get k d ≡ some v → key v ≡ k
  unfolding get
  Keyed-get k v [] f e = cc
  Keyed-get k v ((j, w) ∷ d) (a, b, f) e = elim (Bool-cases (str_eq j k)) [
    | inl q ↦ ground (arith, a, q, e, eq_iff j k)
    | inr q ↦ Keyed-get k v d f (rw (get, q) at e)
  ]

  pub Keyed-remove : (k : String) (d : Dict V) → Keyed d → Keyed (remove k d)
  unfolding remove get
  Keyed-remove k [] f = tt
  Keyed-remove k ((j, w) ∷ d) (a, b, f) = elim (Bool-cases (str_eq j k)) [
    | inl q ↦ rw (remove, q) (Keyed-remove k d f)
    | inr q ↦ rw (remove, q) (a, ground (arith, b, get-remove k j d), Keyed-remove k d f)
  ]
