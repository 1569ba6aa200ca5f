-- ===== src/Memory/Terms.antt =====
-- The terms of a text, `_text_terms` in app/memory/service.py: its words of ASCII letters and
-- digits, and the short pieces of its runs of Chinese characters.
use ai_platform_mini.Prelude.{
  ℕ, ◌+◌, Bool, true, false, ◌&&◌, ◌||◌, List, [], ◌∷◌, ◌++◌, Text, keep, take, any, length, leb,
  ◌==◌, text_eq, if◌then◌else◌,
}

-- `str.lower`, as far as the two regular expressions see it: these are the only characters whose
-- lower case has an ASCII letter; no other's has a digit or a character of the second expression.
abbrev pub lower : Text → Text
lower [] = []
lower (c ∷ s) =
    let rest = lower s in
    if leb 65 c && leb c 90
    then (c + 32) ∷ rest
    else (if c == 304 then 105 ∷ 775 ∷ rest else (if c == 8490 then 107 ∷ rest else c ∷ rest))

-- `[a-z0-9]` and `[\u4e00-\u9fff]`
abbrev pub is_word : ℕ → Bool
is_word c = (leb 97 c && leb c 122) || (leb 48 c && leb c 57)

abbrev pub is_cjk : ℕ → Bool
is_cjk c = leb 19968 c && leb c 40959

-- `findall` of the runs of a class of characters; `open_run` is the run that is being read.
abbrev pub close : Text → List Text → List Text
close [] runs = runs
close (c ∷ s) runs = (c ∷ s) ∷ runs

unfoldable pub find_runs : (ℕ → Bool) → Text → Text → List Text
find_runs test open_run [] = close open_run []
find_runs test open_run (c ∷ s) =
    if test c then find_runs test (open_run ++ c ∷ []) s else close open_run (find_runs test [] s)

-- A set of texts, as a list.
abbrev pub has_term : Text → List Text → Bool
has_term t terms = any (text_eq t) terms

abbrev pub add_term : Text → List Text → List Text
add_term t terms = if has_term t terms then terms else terms ++ t ∷ []

unfoldable pub add_words : List Text → List Text → List Text
add_words [] terms = terms
add_words (t ∷ ts) terms = add_words ts (if leb 2 (length t) then add_term t terms else terms)

-- `run[index : index + size]` for each index
unfoldable pub windows : ℕ → Text → List Text
windows size [] = []
windows size (c ∷ s) =
    let rest = windows size s in
    if leb size (length (c ∷ s)) then take size (c ∷ s) ∷ rest else rest

-- The loop ends, and with it the function, where there are 256 terms.
unfoldable pub add_pieces : List Text → List Text → List Text × Bool
add_pieces [] terms = (terms, false)
add_pieces (t ∷ ts) terms = elim (leb 256 (length (add_term t terms))) [
  | true ↦ (add_term t terms, true)
  | false ↦ add_pieces ts (add_term t terms)
]

-- `range(2, window + 2)` has the sizes 2 and 3 at most.
abbrev pub pieces : Text → List Text
pieces run =
    (if leb 2 (length run) then windows 2 run else [])
    ++ (if leb 3 (length run) then windows 3 run else [])

unfoldable pub add_runs : List Text → List Text → List Text
unfolding add_pieces windows
add_runs [] terms = terms
add_runs (run ∷ runs) terms =
    let (more, full) =
      add_pieces (pieces run) (if leb (length run) 8 then add_term run terms else terms) in
    elim full [ true ↦ more | false ↦ add_runs runs more ]

unfoldable pub text_terms : Text → List Text
unfolding find_runs add_words add_runs
text_terms s =
    add_runs (find_runs is_cjk [] (lower s)) (add_words (find_runs is_word [] (lower s)) [])

-- `len(a & b)`
abbrev pub common : List Text → List Text → ℕ
common terms others = length (keep (λ t. has_term t others) terms)
