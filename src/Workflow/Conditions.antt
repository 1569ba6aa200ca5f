-- ===== src/Workflow/Conditions.antt =====
-- `evaluate_condition` and `render_template` (app/workflows/engine/validation.py). The regular
-- expressions are matched by hand: each of their parts starts with a character that the part before
-- it cannot hold, so that no match needs to go back. A variable's value is `none` for None.
use ai_platform_mini.Prelude.{
  ℕ, zero, suc, Bool, true, false, not, ◌&&◌, ◌||◌, Option, none, some, List, [], ◌∷◌, ◌++◌, Text,
  codes, leb, ◌==◌, if◌then◌else◌, text_eq, starts_with, is_space, skip_space, length,
}
use ai_platform_mini.Prelude.Results.{Result, ok, raised, value_error}

infixl 5 ◌>>=◌
abbrev pub ◌>>=◌ {ℓ κ} : {A : Type ℓ} {B : Type κ} → Option A → (A → Option B) → Option B
none >>= f = none
some a >>= f = f a

abbrev pub Variables : Type 0
Variables = List (Text × Option Text)

unfoldable pub lookup : Text → Variables → Option (Option Text)
lookup name [] = none
lookup name ((k, v) ∷ vs) = let rest = lookup name vs in if text_eq k name then some v else rest

-- `str(value)`
abbrev pub as_text : Option Text → Text
as_text none = codes "None"
as_text (some t) = t

-- `[A-Za-z0-9_]` and `[A-Za-z0-9_-]`
unfoldable pub is_word : ℕ → Bool
is_word c = (leb 48 c && leb c 57) || (leb 65 c && leb c 90) || (leb 97 c && leb c 122) || c == 95

unfoldable pub is_id : ℕ → Bool
unfolding is_word
is_id c = is_word c || c == 45

-- The longest beginning of characters that pass a test, and the rest.
unfoldable pub span : (ℕ → Bool) → Text → Text × Text
span p [] = ([], [])
span p (c ∷ s) = let (a, b) = span p s in if p c then (c ∷ a, b) else ([], c ∷ s)

unfoldable pub after : Text → Text → Option Text
after [] s = some s
after (c ∷ p) [] = none
after (c ∷ p) (d ∷ s) = if c == d then after p s else none

abbrev pub non_empty : Text × Text → Option (Text × Text)
non_empty ([], b) = none
non_empty (c ∷ a, b) = some (c ∷ a, b)

-- `(?:\.[A-Za-z0-9_]+)?`
abbrev pub with_field : Text × Text → Option (Text × Text)
with_field (name, []) = some (name, [])
with_field (name, c ∷ s) =
    if c == 46
    then (non_empty (span is_word s) >>= λ (field, rest). some (name ++ 46 ∷ field, rest))
    else some (name, c ∷ s)

-- A variable at the beginning of a text: its name, and what follows it.
unfoldable pub match_variable : Text → Option (Text × Text)
unfolding span after
match_variable s = after (codes "{{") s >>= λ t.
    non_empty (span is_id (skip_space t)) >>= with_field >>= λ (name, rest).
    after (codes "}}") (skip_space rest) >>= λ u. some (name, u)

-- `\s+`
abbrev pub spaces : Text → Option Text
spaces [] = none
spaces (c ∷ s) = if is_space c then some (skip_space s) else none

-- `$`
abbrev pub at_end : Text → Bool
at_end [] = true
at_end (c ∷ []) = c == 10
at_end (c ∷ d ∷ s) = false

-- `'([^']*)'$`
unfoldable pub quoted : Text → Option Text
unfolding span after
quoted s = after (codes "'") s >>= λ t.
    let (literal, rest) = span (λ c. not (c == 39)) t in
    after (codes "'") rest >>= λ u. if at_end u then some literal else none

-- The condition that follows the variable.
pub data Form : Type 0 where
  contains equals : Text → Form
  is_empty : Form

abbrev pub or_else : Option Form → Option Form → Option Form
or_else none f = f
or_else (some a) f = some a

unfoldable pub match_form : Text → Option Form
unfolding quoted after
match_form s =
    or_else (spaces s >>= after (codes "contains") >>= spaces >>= quoted >>= λ l. some (contains l))
      (or_else
        (spaces s >>= after (codes "is") >>= spaces >>= after (codes "empty") >>= λ u.
          if at_end u then some is_empty else none)
        (after (codes "==") (skip_space s) >>= λ t. quoted (skip_space t) >>= λ l. some (equals l)))

-- `literal in text`
unfoldable pub occurs_in : Text → Text → Bool
occurs_in literal [] = starts_with literal []
occurs_in literal (c ∷ s) = starts_with literal (c ∷ s) || occurs_in literal s

unfoldable pub holds : Form → Option Text → Bool
unfolding occurs_in
holds (contains literal) value = occurs_in literal (as_text value)
holds (equals literal) value = text_eq (as_text value) literal
holds is_empty none = true
holds is_empty (some t) = text_eq t []

abbrev pub test : Form → Option (Option Text) → Result Bool
test form none = raised value_error
test form (some value) = ok (holds form value)

abbrev pub evaluate : Variables → Option (Text × Form) → Result Bool
evaluate variables none = raised value_error
evaluate variables (some (name, form)) = test form (lookup name variables)

unfoldable pub evaluate_condition : Text → Variables → Result Bool
unfolding match_variable match_form
evaluate_condition expr variables =
    evaluate variables
      (match_variable expr >>= λ (name, rest). match_form rest >>= λ form. some (name, form))

-- `_VARIABLE_RE.sub`: one character or one variable at a time, with fuel for the length of the text.
abbrev pub prepend : Text → Result Text → Result Text
prepend s (ok t) = ok (s ++ t)
prepend s (raised e) = raised e

abbrev pub value_of : Option (Option Text) → Result Text
value_of none = raised value_error
value_of (some v) = ok (as_text v)

abbrev pub insert_value : Result Text → Result Text → Result Text
insert_value (ok v) rest = prepend v rest
insert_value (raised e) rest = raised e

unfoldable pub render_from : Variables → ℕ → Text → Result Text
unfolding match_variable
render_from variables zero s = ok s
render_from variables (suc fuel) [] = ok []
render_from variables (suc fuel) (c ∷ s) = elim (match_variable (c ∷ s)) [
  | none ↦ prepend (c ∷ []) (render_from variables fuel s)
  | some (name, rest) ↦
      insert_value (value_of (lookup name variables)) (render_from variables fuel rest)
]

unfoldable pub render_template : Text → Variables → Result Text
unfolding render_from
render_template template variables = render_from variables (length template) template
