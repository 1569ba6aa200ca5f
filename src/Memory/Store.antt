-- ===== src/Memory/Store.antt =====
-- app/memory/models.py and app/memory/memory_repository.py: the long-term memory of the agents. A
-- confidence is a number of thousandths. Of a metadata value a text is kept, and of others whether
-- they are scalars of JSON. A time is a number, and 0 stands for `datetime.min`.
use ai_platform_mini.Prelude.{
  ℕ, String, Bool, true, false, ◌&&◌, is_hex, Option, none, some, List, [], ◌∷◌, Text, codes, keep,
  take, all, length, ltb, ◌==◌, str_eq, if◌then◌else◌,
}
use ai_platform_mini.Prelude.Dict.{Dict, get, put, remove, values}
use ai_platform_mini.Prelude.Results.{Result, value_error, require}

-- `validate_owner_scope`: 64 characters 0-9 and a-f
abbrev pub is_scope : String → Bool
is_scope owner_scope = length (codes owner_scope) == 64 && all is_hex (codes owner_scope)

abbrev pub validate_owner_scope : String → Result (Unit {0})
validate_owner_scope owner_scope = require (is_scope owner_scope) value_error

pub data MemorySource : Type 0 where
  explicit conversation system : MemorySource

pub data MemoryKind : Type 0 where
  fact preference instruction : MemoryKind

pub data MetadataValue : Type 0 where
  text : Text → MetadataValue
  scalar other : MetadataValue

pub record MemoryItem : Type 0 where
  pub id : String
  pub owner_scope : String
  pub content : Text
  pub source : MemorySource
  pub kind : MemoryKind
  pub confidence : ℕ
  pub metadata : Dict MetadataValue
  pub created_at : Option ℕ
  pub updated_at : Option ℕ
  pub last_used_at : Option ℕ

-- `self._items`
abbrev pub Items : Type 0
Items = Dict MemoryItem

abbrev pub first_of : Option ℕ → Option ℕ → Option ℕ
first_of none b = b
first_of (some a) b = some a

-- `_memory_order_key` and, in service.py, `_recent_key`
abbrev pub recent_key : MemoryItem → ℕ
recent_key item = elim (first_of item.last_used_at (first_of item.updated_at item.created_at)) [
  | none ↦ 0
  | some t ↦ t
]

-- `sorted(items, key=..., reverse=True)`, which keeps the order of equal keys: `below a b` says
-- that the key of `a` is smaller than that of `b`.
module _ {ℓ} {A : Type ℓ} (below : A → A → Bool) where
  abbrev pub insert_falling : A → List A → List A
  insert_falling x [] = x ∷ []
  insert_falling x (y ∷ ys) =
      let rest = insert_falling x ys in if below x y then y ∷ rest else x ∷ y ∷ ys

  abbrev pub sort_falling : List A → List A
  sort_falling [] = []
  sort_falling (x ∷ xs) = insert_falling x (sort_falling xs)

abbrev pub is_owned : String → MemoryItem → Bool
is_owned owner_scope item = str_eq item.owner_scope owner_scope

abbrev pub less_recent : MemoryItem → MemoryItem → Bool
less_recent a b = ltb (recent_key a) (recent_key b)

unfoldable pub find : Items → String → String → Option MemoryItem
find items memory_id owner_scope = elim (get memory_id items) [
  | none ↦ none
  | some item ↦ if is_owned owner_scope item then some item else none
]

unfoldable pub create : Items → MemoryItem → Items
create items item = put item.id item items

unfoldable pub list : Items → String → ℕ → List MemoryItem
list items owner_scope limit =
    take limit (sort_falling less_recent (keep (is_owned owner_scope) (values items)))

unfoldable pub update : Items → MemoryItem → Items × Option MemoryItem
unfolding find
update items item = elim (find items item.id item.owner_scope) [
  | none ↦ (items, none)
  | some current ↦
      let updated = record current {
        content = item.content;
        source = item.source;
        kind = item.kind;
        confidence = item.confidence;
        metadata = item.metadata;
        updated_at = item.updated_at;
      } in
      (put item.id updated items, some updated)
]

unfoldable pub delete : Items → String → String → Items × Bool
unfolding find
delete items memory_id owner_scope = elim (find items memory_id owner_scope) [
  | none ↦ (items, false)
  | some _ ↦ (remove memory_id items, true)
]

unfoldable pub mark_used : Items → String → String → ℕ → Items
unfolding find
mark_used items memory_id owner_scope used_at = elim (find items memory_id owner_scope) [
  | none ↦ items
  | some current ↦ put current.id (record current { last_used_at = some used_at }) items
]
