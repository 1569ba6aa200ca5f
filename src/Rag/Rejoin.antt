-- ===== src/Rag/Rejoin.antt =====
-- The chunks of a text: their sizes, and the text that they make up again.
use ai_platform_mini.Prelude.{
  ℕ, zero, suc, ◌+◌, ◌-◌, ◌≤◌, ◌<◌, ◌≡◌, refl, false, List, [], ◌∷◌, ◌++◌, Text, length, take, drop,
  leb, All, length-take, take-append-drop, arith, Bool-cases, inl, inr, ap, subst,
}
use ai_platform_mini.Prelude.Results.{ok, raised, value_error}
use ai_platform_mini.Rag.Chunker.{chunks_from, chunk_text}

-- The chunks put together, each but the first without the characters that it shares.
abbrev pub rest_of : ℕ → List Text → Text
rest_of overlap [] = []
rest_of overlap (c ∷ cs) = drop overlap c ++ rest_of overlap cs

abbrev pub rejoin : ℕ → List Text → Text
rejoin overlap [] = []
rejoin overlap (c ∷ cs) = c ++ rest_of overlap cs

drop-nil : (n : ℕ) → drop {A = ℕ} n [] ≡ []
drop-nil zero = refl
drop-nil (suc n) = refl

drop-drop : (m n : ℕ) (s : Text) → drop m (drop n s) ≡ drop (n + m) s
drop-drop m zero s = ap (λ (k : ℕ). drop k s) (omega arith)
drop-drop m (suc n) [] =
    let e : suc (n + m) ≡ suc n + m = omega arith in
    subst (λ (k : ℕ). drop {A = ℕ} m [] ≡ drop {A = ℕ} k []) e (drop-nil m)
drop-drop m (suc n) (x ∷ s) =
    let e : suc (n + m) ≡ suc n + m = omega arith in
    subst (λ (k : ℕ). drop m (drop n s) ≡ drop k (x ∷ s)) e (drop-drop m n s)

length-drop : (n : ℕ) (s : Text) → length (drop n s) ≡ length s - n
length-drop zero s = omega arith
length-drop (suc n) [] = omega arith
length-drop (suc n) (x ∷ s) = omega (arith, length-drop n s)

take-all : (n : ℕ) (s : Text) → length s ≤ n → take n s ≡ s
take-all zero [] h = refl
take-all zero (x ∷ s) h = absurd (omega arith)
take-all (suc n) [] h = refl
take-all (suc n) (x ∷ s) h = ap (λ (r : Text). x ∷ r) (take-all n s (omega arith))

drop-take-append : (o n : ℕ) (s : Text) → o ≤ n → drop o (take n s) ++ drop n s ≡ drop o s
drop-take-append zero n s h = take-append-drop n s
drop-take-append (suc o) zero s h = absurd (omega arith)
drop-take-append (suc o) (suc n) [] h = refl
drop-take-append (suc o) (suc n) (x ∷ s) h = drop-take-append o n s (omega arith)

append_nil : (s : Text) → s ++ [] ≡ s
append_nil [] = refl
append_nil (x ∷ s) = ap (λ (r : Text). x ∷ r) (append_nil s)

-- A chunk that is not empty and no longer than the size.
abbrev pub Fits : ℕ → Text → Type 0
Fits chunk_size c = (0 < length c) × (length c ≤ chunk_size)

module _ (text : Text) (size overlap : ℕ) (small : overlap < size) where
  chunks_from_lem :
      (fuel i : ℕ)
      → i < length text
      → length text ≤ i + fuel
      → let cs = chunks_from text size (size - overlap) fuel i in
        All (Fits size) cs
        × (rest_of overlap cs ≡ drop (i + overlap) text)
        × (rejoin overlap cs ≡ drop i text)
  unfolding chunks_from
  chunks_from_lem zero i inside enough = absurd (omega arith)
  chunks_from_lem (suc fuel) i inside enough =
      let here : leb (length text) i ≡ false = ground arith in
      let fits : Fits size (take size (drop i text)) = (
        omega (arith, length-take size (drop i text), length-drop i text),
        omega (arith, length-take size (drop i text)),
      ) in
      elim (Bool-cases (leb (length text) (i + size))) [
        | inl last ↦
            let whole = take-all size (drop i text) (ground (arith, length-drop i text)) in
            rw (here, last)
              (
                (fits, tt),
                rw (whole, append_nil) (drop-drop overlap i text),
                rw (whole, append_nil) refl,
              )
        | inr more ↦
            let next = chunks_from_lem fuel (i + (size - overlap)) (ground arith) (omega arith) in
            let behind : drop (i + (size - overlap) + overlap) text ≡ drop size (drop i text) =
              rw (drop-drop size i text) (ap (λ (k : ℕ). drop k text) (omega arith)) in
            rw (here, more)
              (
                (fits, next.0),
                cc (
                  next.1,
                  behind,
                  drop-drop overlap i text,
                  drop-take-append overlap size (drop i text) (omega arith),
                ),
                cc (next.1, behind, take-append-drop size (drop i text)),
              )
      ]

-- A text is split only if the chunk size is positive and larger than the overlap. The chunks are
-- not empty and no longer than the size, and put together, each behind the first without its
-- first `overlap` characters, they are the text: nothing is lost, and only the overlap stands twice.
pub chunk_text_lem :
    (text : Text) (chunk_size overlap : ℕ)
    → (overlap < chunk_size
        → (cs : List Text) × (chunk_text text chunk_size overlap ≡ ok cs)
          × All (Fits chunk_size) cs
          × (rejoin overlap cs ≡ text))
      × (chunk_size ≤ overlap → chunk_text text chunk_size overlap ≡ raised value_error)
unfolding chunk_text
chunk_text_lem [] size overlap = (λ small. ([], ground arith, tt, refl), λ big. ground arith)
chunk_text_lem (x ∷ text) size overlap = (
  λ small.
      let p =
        chunks_from_lem (x ∷ text) size overlap small (length (x ∷ text)) 0 (omega arith)
          (omega arith) in
      (chunks_from (x ∷ text) size (size - overlap) (length (x ∷ text)) 0, ground arith, p.0, p.2),
  λ big. ground arith,
)
