-- ===== src/Prelude/Ids.antt =====
-- Lists of ids: membership, repetitions, and how many there can be.
use Prim.Native.Nat.{suc, ◌≤◌}
use Prim.Native.String.{String}
use mathlib.Core.Path.{◌≡◌, refl}
use mathlib.Core.Logic.{inl, inr}
use mathlib.Core.Bool.{Bool, true, false, not, ◌&&◌, ◌||◌}
use mathlib.Core.List.{List, [], ◌∷◌, ◌++◌}
use native.Mathlib.Omega.{arith}
use text.Mathlib.Text.{◌==◌ as str_eq}
use text.Mathlib.TextEquality.{eq_iff}
use text.Mathlib.TextPositions.{eq_refl}
use ai_platform_mini.Prelude.Tests.{if◌then◌else◌, Bool-cases}
use ai_platform_mini.Prelude.Lists.{length, keep}

-- `x in ids`
abbrev pub member : String → List String → Bool
member x [] = false
member x (y ∷ ys) = str_eq y x || member x ys

-- The list without the first occurrence of an id.
abbrev pub delete : String → List String → List String
delete id [] = []
delete id (j ∷ js) = let rest = delete id js in if str_eq j id then js else j ∷ rest

abbrev pub Distinct : List String → Type 0
Distinct [] = Unit
Distinct (x ∷ xs) = (member x xs ≡ false) × Distinct xs

pub member-append :
    (x : String) (xs ys : List String) → member x (xs ++ ys) ≡ member x xs || member x ys
member-append x [] ys = refl
member-append x (y ∷ xs) ys = ground (arith, member-append x xs ys)

pub Distinct-snoc :
    (x : String) (xs : List String) → Distinct xs → member x xs ≡ false → Distinct (xs ++ x ∷ [])
Distinct-snoc x [] d h = (refl, tt)
Distinct-snoc x (y ∷ xs) d h = (
  ground (arith, member-append y xs (x ∷ []), eq_iff x y, eq_refl y, d),
  Distinct-snoc x xs d.1 (ground arith),
)

pub member-keep :
    (p : String → Bool) (x : String) (xs : List String) → member x (keep p xs) ≡ member x xs && p x
member-keep p x [] = refl
member-keep p x (y ∷ xs) = ground (arith, member-keep p x xs, eq_iff y x)

pub Distinct-keep : (p : String → Bool) (xs : List String) → Distinct xs → Distinct (keep p xs)
Distinct-keep p [] d = tt
Distinct-keep p (x ∷ xs) d = elim (Bool-cases (p x)) [
  | inl e ↦ rw e (ground (arith, member-keep p x xs, d), Distinct-keep p xs d.1)
  | inr e ↦ rw e (Distinct-keep p xs d.1)
]

pub member-delete :
    (x id : String) (xs : List String)
    → Distinct xs
    → member x (delete id xs) ≡ member x xs && not (str_eq id x)
member-delete x id [] d = refl
member-delete x id (y ∷ xs) d =
    ground (arith, member-delete x id xs d.1, eq_iff y id, eq_iff y x, eq_iff id x, d)

pub Distinct-delete : (id : String) (xs : List String) → Distinct xs → Distinct (delete id xs)
Distinct-delete id [] d = tt
Distinct-delete id (y ∷ xs) d = elim (Bool-cases (str_eq y id)) [
  | inl e ↦ rw e d.1
  | inr e ↦ rw e (ground (arith, d, member-delete y id xs d.1), Distinct-delete id xs d.1)
]

pub length-delete :
    (id : String) (xs : List String) → member id xs ≡ true → suc (length (delete id xs)) ≡ length xs
length-delete id [] h = cc
length-delete id (y ∷ xs) h = ground (arith, length-delete id xs)

pub length-delete-le : (id : String) (xs : List String) → length (delete id xs) ≤ length xs
length-delete-le id [] = omega arith
length-delete-le id (y ∷ xs) = ground (arith, length-delete-le id xs)

member-delete_other :
    (x z : String) (ys : List String) → str_eq x z ≡ false → member z (delete x ys) ≡ member z ys
member-delete_other x z [] h = refl
member-delete_other x z (y ∷ ys) h =
    ground (arith, member-delete_other x z ys, eq_iff y x, eq_iff y z, eq_iff x z)

-- Ids that do not repeat and that all stand in another list are no more than it has.
pub length-le :
    (xs ys : List String)
    → Distinct xs
    → ((x : String) → member x xs ≡ true → member x ys ≡ true)
    → length xs ≤ length ys
length-le [] ys d h = omega arith
length-le (x ∷ xs) ys d h =
    let here = h x (ground (arith, eq_refl x)) in
    let rest =
      length-le xs (delete x ys) d.1
        (λ z m. ground (arith, h z, d, eq_iff x z, member-delete_other x z ys)) in
    omega (arith, rest, length-delete x ys here)

pub length-keep-le : (p : String → Bool) (xs : List String) → length (keep p xs) ≤ length xs
length-keep-le p [] = omega arith
length-keep-le p (x ∷ xs) = ground (arith, length-keep-le p xs)
