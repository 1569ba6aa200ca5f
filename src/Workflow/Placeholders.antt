-- ===== src/Workflow/Placeholders.antt =====
-- The variables of a template (`_VARIABLE_RE` of app/workflows/engine/validation.py) as they are
-- written: in braces, between white space, a name that can have a field.
use ai_platform_mini.Prelude.{
  ℕ, ◌≡◌, refl, true, false, some, [], ◌∷◌, ◌++◌, Text, all, ◌==◌, if◌then◌else◌, is_space,
  skip_space, arith,
}
use ai_platform_mini.Workflow.Conditions.{is_word, is_id, after, with_field, match_variable}
use ai_platform_mini.Workflow.Printed.{Stops, span-append, id_is_no_space}

-- A name with its field, which is left out where it is empty.
abbrev pub dotted : Text → Text → Text
dotted name [] = name
dotted name (f ∷ fs) = name ++ 46 ∷ f ∷ fs

-- What stands behind the name.
abbrev pub closing : Text → Text → Text → Text
closing [] right rest = right ++ 125 ∷ 125 ∷ rest
closing (f ∷ fs) right rest = 46 ∷ (f ∷ fs) ++ (right ++ 125 ∷ 125 ∷ rest)

abbrev pub placeholder : Text → Text → Text → Text → Text → Text
placeholder left name field right rest = 123 ∷ 123 ∷ left ++ (name ++ closing field right rest)

skip_space-cons :
    (c : ℕ) (s : Text) → skip_space (c ∷ s) ≡ (if is_space c then skip_space s else c ∷ s)
unfolding skip_space
skip_space-cons c s = refl

skip_space-append :
    (a : Text) (c : ℕ) (s : Text)
    → all is_space a ≡ true
    → is_space c ≡ false
    → skip_space (a ++ c ∷ s) ≡ c ∷ s
skip_space-append [] c s h k = rw (skip_space-cons c s, k) refl
skip_space-append (x ∷ a) c s h k =
    let x_is_space : is_space x ≡ true = ground (arith, h) in
    rw (skip_space-cons x (a ++ c ∷ s), x_is_space) (skip_space-append a c s (ground (arith, h)) k)

space_is_no_id : (c : ℕ) → is_space c ≡ true → is_id c ≡ false
unfolding is_id is_word is_space
space_is_no_id c h = ground (arith, h)

space_is_no_word : (c : ℕ) → is_space c ≡ true → is_word c ≡ false
unfolding is_word is_space
space_is_no_word c h = ground (arith, h)

space_is_no_dot : (c : ℕ) → is_space c ≡ true → c == 46 ≡ false
unfolding is_space
space_is_no_dot c h = ground (arith, h)

right-Stops-id :
    (right rest : Text) → all is_space right ≡ true → Stops is_id (right ++ 125 ∷ 125 ∷ rest)
right-Stops-id [] rest h = unfold is_id is_word in refl
right-Stops-id (c ∷ right) rest h = space_is_no_id c (ground (arith, h))

right-Stops-word :
    (right rest : Text) → all is_space right ≡ true → Stops is_word (right ++ 125 ∷ 125 ∷ rest)
right-Stops-word [] rest h = unfold is_word in refl
right-Stops-word (c ∷ right) rest h = space_is_no_word c (ground (arith, h))

-- Behind a name without a field.
with_field-right :
    (name right rest : Text)
    → all is_space right ≡ true
    → with_field (name, right ++ 125 ∷ 125 ∷ rest) ≡ some (name, right ++ 125 ∷ 125 ∷ rest)
with_field-right name [] rest h = refl
with_field-right name (c ∷ right) rest h =
    let n = space_is_no_dot c (ground (arith, h)) in rw n refl

pub match_variable-placeholder :
    (left : Text) (c : ℕ) (cs field right rest : Text)
    → all is_space left ≡ true
    → all is_id (c ∷ cs) ≡ true
    → all is_word field ≡ true
    → all is_space right ≡ true
    → match_variable (placeholder left (c ∷ cs) field right rest)
      ≡ some (dotted (c ∷ cs) field, rest)
unfolding match_variable after
match_variable-placeholder left c cs [] right rest h k l m =
    let n : is_space c ≡ false = id_is_no_space c (ground (arith, k)) in
    rw (skip_space-append left c (cs ++ (right ++ 125 ∷ 125 ∷ rest)) h n) (
      rw (span-append is_id (c ∷ cs) (right ++ 125 ∷ 125 ∷ rest) k (right-Stops-id right rest m)) (
        rw (with_field-right (c ∷ cs) right rest m)
          (rw (skip_space-append right 125 (125 ∷ rest) m (unfold is_space in refl)) refl)))
match_variable-placeholder left c cs (f ∷ fs) right rest h k l m =
    let n : is_space c ≡ false = id_is_no_space c (ground (arith, k)) in
    rw (skip_space-append left c (cs ++ closing (f ∷ fs) right rest) h n) (
      rw (span-append is_id (c ∷ cs) (closing (f ∷ fs) right rest) k (unfold is_id is_word in refl))
        (rw
          (span-append is_word (f ∷ fs) (right ++ 125 ∷ 125 ∷ rest) l
            (right-Stops-word right rest m))
          (rw (skip_space-append right 125 (125 ∷ rest) m (unfold is_space in refl)) refl)))
