-- ===== src/Rag/Chunker.antt =====
-- app/rag/chunker.py. The loop has fuel; no more rounds are made than the text has characters.
-- An overlap is a natural number: the ValueError for a negative one is left out.
use ai_platform_mini.Prelude.{
  ℕ, zero, suc, ◌+◌, ◌-◌, List, [], ◌∷◌, Text, length, take, drop, leb, if◌then◌else◌,
}
use ai_platform_mini.Prelude.Results.{Result, ok, raised, value_error}

-- `while i < len(text)`
unfoldable pub chunks_from : Text → ℕ → ℕ → ℕ → ℕ → List Text
chunks_from text chunk_size step zero i = []
chunks_from text chunk_size step (suc fuel) i =
    let rest = chunks_from text chunk_size step fuel (i + step) in
    if leb (length text) i
    then []
    else take chunk_size (drop i text) ∷ (if leb (length text) (i + chunk_size) then [] else rest)

unfoldable pub chunk_text : Text → ℕ → ℕ → Result (List Text)
unfolding chunks_from
chunk_text text chunk_size overlap =
    if leb chunk_size 0
    then raised value_error
    else if leb chunk_size overlap
    then raised value_error
    else if leb (length text) 0
    then ok []
    else ok (chunks_from text chunk_size (chunk_size - overlap) (length text) 0)
