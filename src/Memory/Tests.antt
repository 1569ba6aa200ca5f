-- ===== src/Memory/Tests.antt =====
-- Two owners, of whom one has stored a preference.
use ai_platform_mini.Prelude.{
  ℕ, ◌≤◌, ◌<◌, String, true, false, none, some, List, [], ◌∷◌, ◌++◌, Text, codes, All, length,
  strip, is_space, skip_space, text_eq, ◌≡◌, ◌≢◌, refl, eq_iff,
}
use ai_platform_mini.Prelude.Dict.{get, put}
use ai_platform_mini.Prelude.Results.{ok, raised, memory_not_found_error}
use ai_platform_mini.Memory.Store.{MemoryItem, MemorySource, MemoryKind, Items, find, create, list}
use ai_platform_mini.Memory.Terms.{text_terms, find_runs, add_words, add_runs, add_pieces, windows}
use ai_platform_mini.Memory.Service.{
  limits, create_memory, get_memory, list_memories, delete_memory, retrieve_for_agent,
  normalize_content, normalize_metadata, normalized_limit, search, bounded, mark_all, or_keep,
}
use ai_platform_mini.Memory.Owners.{
  here, and_then, creates, deletes, empty, called, others_see_nothing,
}
use ai_platform_mini.Memory.Context.{size, retrieve_for_agent_lem}

abbrev ann : String
ann = "aaaaaaaaaaaaaaaaaaaaaaaaaaaaaaaaaaaaaaaaaaaaaaaaaaaaaaaaaaaaaaaa"

abbrev bob : String
bob = "bbbbbbbbbbbbbbbbbbbbbbbbbbbbbbbbbbbbbbbbbbbbbbbbbbbbbbbbbbbbbbbb"

abbrev terms : Text
terms = codes "Tea: green tea 绿茶好喝"

splits :
    text_terms terms
    ≡ codes "tea"
      ∷ codes "green"
      ∷ codes "绿茶好喝"
      ∷ codes "绿茶"
      ∷ codes "茶好"
      ∷ codes "好喝"
      ∷ codes "绿茶好"
      ∷ codes "茶好喝"
      ∷ []
unfolding text_terms find_runs add_words add_runs add_pieces windows text_eq
splits = refl

abbrev preferred : MemoryItem
preferred = record {
  id = "m";
  owner_scope = bob;
  content = codes "green tea";
  source = MemorySource.explicit;
  kind = MemoryKind.preference;
  confidence = 900;
  metadata = [];
  created_at = some 3;
  updated_at = some 3;
  last_used_at = none;
}

abbrev store : Items
store =
    (create_memory [] bob (codes " green tea ") MemorySource.explicit MemoryKind.preference 900 []
      "m" 3).0

stores : store ≡ ("m", preferred) ∷ []
unfolding create_memory create normalize_content normalize_metadata strip is_space skip_space put
stores = refl

-- Of another's item, not even its being there is answered.
hidden : get_memory store ann "m" ≡ raised memory_not_found_error
unfolding create_memory create normalize_content normalize_metadata strip is_space skip_space put
    get get_memory find
hidden = refl

false_is_not_true : false ≢ true
false_is_not_true e = cc

two_owners : ann ≢ bob
two_owners e = false_is_not_true ((eq_iff ann bob).1 e)

others_see_nothing_example :
    ((id : String) → get_memory (delete_memory store ann "m").0 bob id ≡ get_memory store bob id)
    × ((limit : ℕ) (query : Text)
        → list_memories (delete_memory store ann "m").0 bob limit query
          ≡ list_memories store bob limit query)
unfolding get
others_see_nothing_example =
    others_see_nothing ann bob store (delete_memory store ann "m").0 two_owners
      (called bob empty (
        creates (codes " green tea ") MemorySource.explicit MemoryKind.preference 900 [] "m" 3
          refl))
      (and_then here (deletes "m"))

-- The item is given whole, although five characters are allowed.
gives :
    (retrieve_for_agent (limits 5 3000) store bob (codes "tea?") none (some 5) 9).1
    ≡ ok (preferred ∷ [])
unfolding create_memory create normalize_content normalize_metadata strip is_space skip_space put
    get find retrieve_for_agent list_memories list search bounded mark_all normalized_limit limits
    text_terms find_runs add_words add_runs add_pieces windows text_eq
gives = refl

retrieve_for_agent_lem_example :
    All (λ x. x.owner_scope ≡ bob) (preferred ∷ [])
    × (length (preferred ∷ []) ≤ normalized_limit (or_keep none (limits 5 3000).context_limit))
    × ((xs : List MemoryItem) (x : MemoryItem)
        → preferred ∷ [] ≡ xs ++ x ∷ []
        → size xs < or_keep (some 5) (limits 5 3000).context_max_chars)
retrieve_for_agent_lem_example =
    retrieve_for_agent_lem (limits 5 3000) store bob (codes "tea?") none (some 5) 9 (preferred ∷ [])
      gives
