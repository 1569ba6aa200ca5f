-- ===== src/Memory/Service.antt =====
-- app/memory/service.py: `MemoryService` over the repository in memory. No method waits with it, so
-- that each runs as a whole.
use ai_platform_mini.Prelude.{
  ℕ, ◌+◌, ◌-◌, min, max, String, Bool, true, false, ◌&&◌, ◌||◌, Option, none, some, is_some, List,
  [], ◌∷◌, Text, codes, keep, take, length, leb, ltb, ◌==◌, strip, if◌then◌else◌,
}
use ai_platform_mini.Prelude.Dict.{Dict}
use ai_platform_mini.Prelude.Results.{
  Result, ok, raised, validation_error, memory_not_found_error, require, ◌>>=◌, ◌>>◌, for_each,
}
use ai_platform_mini.Memory.Store.{
  MemoryItem, MemorySource, MemoryKind, MetadataValue, text, scalar, other, Items,
  validate_owner_scope, recent_key, sort_falling, find, create, list, update, delete, mark_used,
}
use ai_platform_mini.Memory.Terms.{text_terms, common}

-- `self._context_limit` and `self._context_max_chars`, as the constructor leaves them
pub record Limits : Type 0 where
  pub context_limit : ℕ
  pub context_max_chars : ℕ

unfoldable pub limits : ℕ → ℕ → Limits
limits context_limit context_max_chars = record {
  context_limit = context_limit;
  context_max_chars = max context_max_chars 100;
}

unfoldable pub normalize_content : Text → Result Text
unfolding strip
normalize_content content =
    let normalized = strip content in
    if length normalized == 0 || ltb 10000 (length normalized)
    then raised validation_error
    else ok normalized

abbrev pub is_valid_value : MetadataValue → Bool
is_valid_value (text t) = leb (length t) 500
is_valid_value scalar = true
is_valid_value other = false

unfoldable pub normalize_metadata : Dict MetadataValue → Result (Dict MetadataValue)
normalize_metadata metadata =
    require (leb (length metadata) 32) validation_error
    >> for_each
        (λ (entry : String × MetadataValue).
          require
            (leb 1 (length (codes entry.0))
              && leb (length (codes entry.0)) 64
              && is_valid_value entry.1)
            validation_error)
        metadata
    >> ok metadata

abbrev pub validate_confidence : ℕ → Result (Unit {0})
validate_confidence confidence = require (leb confidence 1000) validation_error

-- The new state, or the old one with what is raised.
abbrev pub stored {ℓ} : {A : Type ℓ} → Items → Result (Items × A) → Items × Result A
stored items (ok (items', a)) = (items', ok a)
stored items (raised e) = (items, raised e)

abbrev pub or_keep {ℓ} : {A : Type ℓ} → Option A → A → A
or_keep none a = a
or_keep (some b) a = b

unfoldable pub create_memory :
    Items
    → String
    → Text
    → MemorySource
    → MemoryKind
    → ℕ
    → Dict MetadataValue
    → String
    → ℕ
    → Items × Result MemoryItem
unfolding normalize_content normalize_metadata
create_memory items owner_scope content source kind confidence metadata id now = stored items (
    validate_owner_scope owner_scope
    >> (normalize_content content >>= λ normalized.
        normalize_metadata metadata >>= λ normalized_metadata.
        let item : MemoryItem = record {
          id = id;
          owner_scope = owner_scope;
          content = normalized;
          source = source;
          kind = kind;
          confidence = confidence;
          metadata = normalized_metadata;
          created_at = some now;
          updated_at = some now;
          last_used_at = none;
        } in
        validate_confidence item.confidence >> ok (create items item, item)))

unfoldable pub get_memory : Items → String → String → Result MemoryItem
get_memory items owner_scope memory_id =
    validate_owner_scope owner_scope >> elim (find items memory_id owner_scope) [
      | none ↦ raised memory_not_found_error
      | some item ↦ ok item
    ]

-- `_overlap_score`
abbrev pub overlap : List Text → MemoryItem → ℕ
overlap query_terms item = common (text_terms item.content) query_terms

-- The order of the pairs (score, time)
abbrev pub less_relevant : List Text → MemoryItem → MemoryItem → Bool
less_relevant query_terms a b =
    ltb (overlap query_terms a) (overlap query_terms b)
    || (overlap query_terms a == overlap query_terms b && ltb (recent_key a) (recent_key b))

unfoldable pub normalized_limit : ℕ → ℕ
normalized_limit limit = max (min limit 100) 1

unfoldable pub search : List MemoryItem → ℕ → List Text → List MemoryItem
search raw limit [] = take limit raw
search raw limit (t ∷ ts) =
    take limit
      (keep (λ item. ltb 0 (overlap (t ∷ ts) item)) (sort_falling (less_relevant (t ∷ ts)) raw))

-- No query is an empty one.
unfoldable pub list_memories : Items → String → ℕ → Text → Result (List MemoryItem)
unfolding normalized_limit search strip
list_memories items owner_scope limit query =
    validate_owner_scope owner_scope >> elim (strip query) [
      | [] ↦ ok (list items owner_scope (normalized_limit limit))
      | c ∷ q ↦
          ok (search (list items owner_scope 200) (normalized_limit limit) (text_terms (c ∷ q)))
    ]

pub record Changes : Type 0 where
  pub content : Option Text
  pub source : Option MemorySource
  pub kind : Option MemoryKind
  pub confidence : Option ℕ
  pub metadata : Option (Dict MetadataValue)

abbrev pub has_change : Changes → Bool
has_change c =
    is_some c.content
    || is_some c.source
    || is_some c.kind
    || is_some c.confidence
    || is_some c.metadata

-- A field that is given is normalized, another keeps its value.
abbrev pub normalized_or {ℓ} : {A : Type ℓ} → (A → Result A) → Option A → A → Result A
normalized_or f none a = ok a
normalized_or f (some b) a = f b

unfoldable pub update_memory : Items → String → String → Changes → ℕ → Items × Result MemoryItem
unfolding normalize_content normalize_metadata
update_memory items owner_scope memory_id c now = stored items (
    validate_owner_scope owner_scope >> elim (find items memory_id owner_scope) [
      | none ↦ raised memory_not_found_error
      | some current ↦
          require (has_change c) validation_error
          >> (normalized_or normalize_content c.content current.content >>= λ updated_content.
              validate_confidence (or_keep c.confidence current.confidence)
              >> (normalized_or normalize_metadata c.metadata current.metadata
                  >>= λ updated_metadata.
                      let (items', result) = update items (record current {
                        content = updated_content;
                        source = or_keep c.source current.source;
                        kind = or_keep c.kind current.kind;
                        confidence = or_keep c.confidence current.confidence;
                        metadata = updated_metadata;
                        updated_at = some now;
                      }) in
                      elim result [
                        | none ↦ raised memory_not_found_error
                        | some item ↦ ok (items', item)
                      ]))
    ])

unfoldable pub delete_memory : Items → String → String → Items × Result (Unit {0})
delete_memory items owner_scope memory_id = stored items (
    validate_owner_scope owner_scope
    >> (let (items', deleted) = delete items memory_id owner_scope in
        require deleted memory_not_found_error >> ok (items', tt)))

-- The items that fit, in order: each is kept while characters remain.
unfoldable pub bounded : List MemoryItem → ℕ → List MemoryItem
bounded [] remaining = []
bounded (item ∷ items) remaining =
    let rest = bounded items (remaining - (length (take remaining item.content) + 32)) in
    if remaining == 0 then [] else item ∷ rest

unfoldable pub mark_all : Items → String → List MemoryItem → ℕ → Items
mark_all items owner_scope [] now = items
mark_all items owner_scope (item ∷ rest) now =
    mark_all (mark_used items item.id owner_scope now) owner_scope rest now

unfoldable pub retrieve_for_agent :
    Limits → Items → String → Text → Option ℕ → Option ℕ → ℕ → Items × Result (List MemoryItem)
unfolding bounded mark_all
retrieve_for_agent l items owner_scope query limit max_chars now =
    if l.context_limit == 0
    then (items, ok [])
    else stored items (
        list_memories items owner_scope (or_keep limit l.context_limit) query >>= λ selected.
        let used = bounded selected (or_keep max_chars l.context_max_chars) in
        ok (mark_all items owner_scope used now, used))
