-- ===== src/Workflow/Rendered.antt =====
-- Templates: the fuel of the rendering is enough, and what it puts in place of a variable.
use ai_platform_mini.Prelude.{
  ℕ, zero, suc, ◌≤◌, ◌<◌, ◌≡◌, refl, ap, ◌∙◌, Bool, true, false, not, Option, none, some, [], ◌∷◌,
  ◌++◌, Text, codes, all, length, ◌==◌, is_space, skip_space, arith, Option-cases, Bool-cases, inl,
  inr,
}
use ai_platform_mini.Prelude.Results.{Result, ok, raised}
use ai_platform_mini.Workflow.Conditions.{
  Variables, lookup, as_text, is_word, is_id, span, after, non_empty, with_field, match_variable,
  render_from, render_template, prepend,
}
use ai_platform_mini.Workflow.Placeholders.{
  dotted, closing, placeholder, match_variable-placeholder,
}

length-after : (p s t : Text) → after p s ≡ some t → length t ≤ length s
unfolding after
length-after [] s t h = ground (arith, h)
length-after (c ∷ p) [] t h = cc
length-after (c ∷ p) (d ∷ s) t h = ground (arith, h, length-after p s t)

length-after_strict : (c : ℕ) (p s t : Text) → after (c ∷ p) s ≡ some t → length t < length s
unfolding after
length-after_strict c p [] t h = cc
length-after_strict c p (d ∷ s) t h = ground (arith, h, length-after p s t)

length-span : (p : ℕ → Bool) (s : Text) → length (span p s).1 ≤ length s
unfolding span
length-span p [] = omega arith
length-span p (c ∷ s) = ground (arith, length-span p s)

length-skip_space : (s : Text) → length (skip_space s) ≤ length s
unfolding skip_space
length-skip_space [] = omega arith
length-skip_space (c ∷ s) = ground (arith, length-skip_space s)

length-non_empty : (x y : Text × Text) → non_empty x ≡ some y → length y.1 ≡ length x.1
length-non_empty ([], b) y h = cc
length-non_empty (c ∷ a, b) y h = ground (arith, h)

length-with_field : (x y : Text × Text) → with_field x ≡ some y → length y.1 ≤ length x.1
length-with_field (n, []) y h = ground (arith, h)
length-with_field (n, c ∷ s) y h = elim (Bool-cases (c == 46)) [
  | inl e ↦ elim (Option-cases (non_empty (span is_word s))) [
    | inl f ↦ ground (arith, e, f, h)
    | inr (z, f) ↦
        ground (arith, e, f, h, length-non_empty (span is_word s) z f, length-span is_word s)
  ]
  | inr e ↦ ground (arith, e, h)
]

match_variable-shorter :
    (s : Text) (x : Text × Text) → match_variable s ≡ some x → length x.1 < length s
unfolding match_variable
match_variable-shorter s x h = elim (Option-cases (after (codes "{{") s)) [
  | inl f ↦ ground (arith, f, h)
  | inr (t, f) ↦ elim (Option-cases (non_empty (span is_id (skip_space t)))) [
    | inl g ↦ ground (arith, f, g, h)
    | inr (y, g) ↦ elim (Option-cases (with_field y)) [
      | inl k ↦ ground (arith, f, g, k, h)
      | inr (z, k) ↦ elim (Option-cases (after (codes "}}") (skip_space z.1))) [
        | inl l ↦ ground (arith, f, g, k, l, h)
        | inr (u, l) ↦ ground (
          arith,
          f,
          g,
          k,
          l,
          h,
          length-after_strict 123 (123 ∷ []) s t f,
          length-non_empty (span is_id (skip_space t)) y g,
          length-with_field y z k,
          length-after (codes "}}") (skip_space z.1) u l,
          length-span is_id (skip_space t),
          length-skip_space t,
          length-skip_space z.1,
        )
      ]
    ]
  ]
]

-- More fuel than the text is long changes nothing.
render_from_enough :
    (variables : Variables) (n m : ℕ) (s : Text)
    → length s ≤ n
    → length s ≤ m
    → render_from variables n s ≡ render_from variables m s
unfolding render_from
render_from_enough variables zero zero s h k = refl
render_from_enough variables zero (suc m) [] h k = refl
render_from_enough variables zero (suc m) (c ∷ s) h k = absurd (omega arith)
render_from_enough variables (suc n) zero [] h k = refl
render_from_enough variables (suc n) zero (c ∷ s) h k = absurd (omega arith)
render_from_enough variables (suc n) (suc m) [] h k = refl
render_from_enough variables (suc n) (suc m) (c ∷ s) h k =
    elim (Option-cases (match_variable (c ∷ s))) [
      | inl e ↦ ground (arith, e, render_from_enough variables n m s (omega arith) (omega arith))
      | inr (x, e) ↦
          let shorter = match_variable-shorter (c ∷ s) x e in
          ground (
            arith,
            e,
            render_from_enough variables n m x.1 (omega (arith, shorter)) (omega (arith, shorter)),
          )
    ]

no_variable : (c : ℕ) (s : Text) → c == 123 ≡ false → match_variable (c ∷ s) ≡ none
unfolding match_variable after
no_variable c s h = ground (arith, h)

append_assoc : (a b t : Text) → a ++ (b ++ t) ≡ (a ++ b) ++ t
append_assoc [] b t = refl
append_assoc (x ∷ a) b t = ground (arith, append_assoc a b t)

prepend-prepend : (a b : Text) (r : Result Text) → prepend a (prepend b r) ≡ prepend (a ++ b) r
prepend-prepend a b (ok t) = ap ok (append_assoc a b t)
prepend-prepend a b (raised e) = refl

-- A character that begins no variable stays.
render_template-cons :
    (variables : Variables) (x : ℕ) (s : Text)
    → x == 123 ≡ false
    → render_template (x ∷ s) variables ≡ prepend (x ∷ []) (render_template s variables)
unfolding render_template render_from
render_template-cons variables x s h = rw (render_from, no_variable x s h) refl

length-behind : (a b : Text) → length b ≤ length (a ++ b)
length-behind [] b = omega arith
length-behind (x ∷ a) b = omega (arith, length-behind a b)

length-closing : (field right rest : Text) → length rest ≤ length (closing field right rest)
length-closing [] right rest = omega (arith, length-behind right (125 ∷ 125 ∷ rest))
length-closing (f ∷ fs) right rest =
    omega
      (arith, length-behind fs (right ++ 125 ∷ 125 ∷ rest), length-behind right (125 ∷ 125 ∷ rest))

length-placeholder :
    (left name field right rest : Text)
    → length rest ≤ length (left ++ (name ++ closing field right rest))
length-placeholder left name field right rest = omega (
  arith,
  length-behind left (name ++ closing field right rest),
  length-behind name (closing field right rest),
  length-closing field right rest,
)

module _ (variables : Variables) (left : Text) (c : ℕ) (cs field right rest : Text)
    (value : Option Text) where
  render_template-placeholder :
      all is_space left ≡ true
      → all is_id (c ∷ cs) ≡ true
      → all is_word field ≡ true
      → all is_space right ≡ true
      → lookup (dotted (c ∷ cs) field) variables ≡ some value
      → render_template (placeholder left (c ∷ cs) field right rest) variables
        ≡ prepend (as_text value) (render_template rest variables)
  unfolding render_template render_from
  render_template-placeholder h k l m found =
      rw (render_from, match_variable-placeholder left c cs field right rest h k l m, found)
        (ap (prepend (as_text value)) (
          render_from_enough variables
            (suc (length (left ++ ((c ∷ cs) ++ closing field right rest)))) (length rest) rest
            (omega (arith, length-placeholder left (c ∷ cs) field right rest)) (omega arith)))

  -- In a template, let a variable stand behind a text that holds no opening brace: in double braces,
  -- between white space or none, a name of letters, digits, _ and -, and behind it a dot and a field of
  -- letters, digits and _, or neither. If the variable is defined, the template renders as that text, the
  -- variable's value, and what the rest of the template renders as, or raises what the rest raises.
  pub render_template-variable :
      (before : Text)
      → all (λ x. not (x == 123)) before ≡ true
      → all is_space left ≡ true
      → all is_id (c ∷ cs) ≡ true
      → all is_word field ≡ true
      → all is_space right ≡ true
      → lookup (dotted (c ∷ cs) field) variables ≡ some value
      → render_template (before ++ placeholder left (c ∷ cs) field right rest) variables
        ≡ prepend (before ++ as_text value) (render_template rest variables)
  render_template-variable [] b h k l m found = render_template-placeholder h k l m found
  render_template-variable (x ∷ before) b h k l m found =
      render_template-cons variables x (before ++ placeholder left (c ∷ cs) field right rest)
        (ground (arith, b))
      ∙ ap (prepend (x ∷ [])) (render_template-variable before (ground (arith, b)) h k l m found)
      ∙ prepend-prepend (x ∷ []) (before ++ as_text value) (render_template rest variables)
