-- ===== src/Rag/Tests.antt =====
-- A text of five characters in chunks of three that share one.
use ai_platform_mini.Prelude.{◌≤◌, ◌<◌, ◌≡◌, refl, List, [], ◌∷◌, Text, codes, All}
use ai_platform_mini.Prelude.Results.{ok, raised, value_error}
use ai_platform_mini.Rag.Chunker.{chunk_text, chunks_from}
use ai_platform_mini.Rag.Rejoin.{Fits, rejoin, chunk_text_lem}

two_chunks : chunk_text (codes "abcde") 3 1 ≡ ok (codes "abc" ∷ codes "cde" ∷ [])
unfolding chunk_text chunks_from
two_chunks = refl

chunk_text_lem_example :
    (1 < 3
      → (cs : List Text) × (chunk_text (codes "abcde") 3 1 ≡ ok cs)
        × All (Fits 3) cs
        × (rejoin 1 cs ≡ codes "abcde"))
    × (3 ≤ 1 → chunk_text (codes "abcde") 3 1 ≡ raised value_error)
chunk_text_lem_example = chunk_text_lem (codes "abcde") 3 1
