-- ===== src/Workflow/Printed.antt =====
-- The conditions that the validation names are read back as what they say.
use ai_platform_mini.Prelude.{
  ℕ, ◌≡◌, refl, Bool, true, false, not, Option, none, some, [], ◌∷◌, ◌++◌, Text, codes, all, ◌==◌,
  text_eq, is_space, skip_space, arith,
}
use ai_platform_mini.Prelude.Results.{ok}
use ai_platform_mini.Workflow.Conditions.{
  Variables, lookup, as_text, is_word, is_id, span, after, match_variable, match_form, quoted,
  contains, equals, is_empty, holds, occurs_in, evaluate_condition,
}

abbrev pub Stops : (ℕ → Bool) → Text → Type 0
Stops p [] = Unit
Stops p (c ∷ s) = p c ≡ false

pub span-append :
    (p : ℕ → Bool) (xs rest : Text)
    → all p xs ≡ true
    → Stops p rest
    → span p (xs ++ rest) ≡ (xs, rest)
unfolding span
span-append p [] [] h k = refl
span-append p [] (c ∷ s) h k = rw k refl
span-append p (x ∷ xs) rest h k = ground (arith, h, span-append p xs rest (ground (arith, h)) k)

pub id_is_no_space : (c : ℕ) → is_id c ≡ true → is_space c ≡ false
unfolding is_id is_word is_space
id_is_no_space c h = ground (arith, h)

match_variable-print :
    (c : ℕ) (cs rest : Text)
    → all is_id (c ∷ cs) ≡ true
    → match_variable (123 ∷ 123 ∷ (c ∷ cs) ++ 125 ∷ 125 ∷ rest) ≡ some (c ∷ cs, rest)
unfolding match_variable after skip_space
match_variable-print c cs rest h =
    let n : is_space c ≡ false = id_is_no_space c (ground (arith, h)) in
    let e = span-append is_id (c ∷ cs) (125 ∷ 125 ∷ rest) h (unfold is_id is_word in refl) in
    rw (n, e) (unfold is_space in refl)

-- A literal that a condition can hold: no quotation mark.
abbrev pub plain : Text → Bool
plain = all (λ c. not (c == 39))

quoted-print :
    (literal : Text) → plain literal ≡ true → quoted (39 ∷ literal ++ 39 ∷ []) ≡ some literal
unfolding quoted after
quoted-print literal h = rw (span-append (λ c. not (c == 39)) literal (39 ∷ []) h refl) refl

-- The printed forms, with the name of the variable.
abbrev pub print_contains : Text → Text → Text
print_contains name literal =
    123 ∷ 123 ∷ name ++ 125 ∷ 125 ∷ (codes " contains " ++ 39 ∷ literal ++ 39 ∷ [])

abbrev pub print_equals : Text → Text → Text
print_equals name literal =
    123 ∷ 123 ∷ name ++ 125 ∷ 125 ∷ (codes " == " ++ 39 ∷ literal ++ 39 ∷ [])

abbrev pub print_is_empty : Text → Text
print_is_empty name = 123 ∷ 123 ∷ name ++ 125 ∷ 125 ∷ codes " is empty"

-- The three forms of a condition, printed with the name of a defined variable (letters, digits, _
-- and -) and a literal without quotation marks, evaluate to what they say of its value: that it
-- contains the literal, that it equals it, and that it is None or empty.
pub evaluate_condition-print :
    (c : ℕ) (cs literal : Text) (variables : Variables) (value : Option Text)
    → all is_id (c ∷ cs) ≡ true
    → plain literal ≡ true
    → lookup (c ∷ cs) variables ≡ some value
    → (evaluate_condition (print_contains (c ∷ cs) literal) variables
        ≡ ok (occurs_in literal (as_text value)))
      × (evaluate_condition (print_equals (c ∷ cs) literal) variables
          ≡ ok (text_eq (as_text value) literal))
      × (evaluate_condition (print_is_empty (c ∷ cs)) variables
          ≡ ok (elim value [ none ↦ true | some t ↦ text_eq t [] ]))
unfolding evaluate_condition
evaluate_condition-print c cs literal variables value h p l = (
  rw (match_variable-print c cs (codes " contains " ++ 39 ∷ literal ++ 39 ∷ []) h)
      (rw (contains_form literal p) (rw l (unfold holds in refl))),
  rw (match_variable-print c cs (codes " == " ++ 39 ∷ literal ++ 39 ∷ []) h)
      (rw (equals_form literal p) (rw l (unfold holds in refl))),
  rw (match_variable-print c cs (codes " is empty") h) (rw empty_form (rw l (none_or_empty value))),
)
  where
    none_or_empty :
        (value : Option Text)
        → ok (holds is_empty value) ≡ ok (elim value [ none ↦ true | some t ↦ text_eq t [] ])
    none_or_empty none = unfold holds in refl
    none_or_empty (some t) = unfold holds in refl

    contains_form :
        (literal : Text)
        → plain literal ≡ true
        → match_form (codes " contains " ++ 39 ∷ literal ++ 39 ∷ []) ≡ some (contains literal)
    contains_form literal p =
        unfold match_form after skip_space is_space in rw (quoted-print literal p) refl

    equals_form :
        (literal : Text)
        → plain literal ≡ true
        → match_form (codes " == " ++ 39 ∷ literal ++ 39 ∷ []) ≡ some (equals literal)
    equals_form literal p =
        unfold match_form after skip_space is_space in rw (quoted-print literal p) refl

    empty_form : match_form (codes " is empty") ≡ some is_empty
    empty_form = unfold match_form after skip_space is_space in refl
