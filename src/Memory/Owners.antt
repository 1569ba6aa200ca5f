-- ===== src/Memory/Owners.antt =====
-- What one owner's calls of `MemoryService` (app/memory/service.py) leave of the answers to another.
use ai_platform_mini.Prelude.{
  ℕ, String, false, Option, none, some, List, [], ◌∷◌, Text, ◌≡◌, ◌≢◌, refl, ap, inl, inr, arith,
  str_eq, eq_iff, Bool-cases, if_both, take, ◌==◌,
}
use ai_platform_mini.Prelude.Dict.{Dict, get}
use ai_platform_mini.Prelude.Results.{
  Result, ok, raised, ◌>>=◌, require, memory_not_found_error, validation_error,
}
use ai_platform_mini.Memory.Store.{
  MemoryItem, MemorySource, MemoryKind, MetadataValue, Items, find, list, update, delete, mark_used,
  validate_owner_scope, sort_falling, less_recent,
}
use ai_platform_mini.Memory.Service.{
  Limits, Changes, stored, normalize_content, normalize_metadata, validate_confidence,
  normalized_or, or_keep, has_change, normalized_limit, create_memory, get_memory, list_memories,
  update_memory, delete_memory, mark_all, bounded, retrieve_for_agent,
}
use ai_platform_mini.Memory.Isolation.{
  Filed, Same, Same-trans, Kept, Kept-refl, create-Kept, update-Kept, delete-Kept, mark_used-Kept,
  found_item,
}

-- A call of an owner. The ids that uuid4 makes are new.
pub data Step (a : String) (d : Items) : Items → Type 0 where
  creates :
      (content : Text) (source : MemorySource) (kind : MemoryKind) (confidence : ℕ)
      (metadata : Dict MetadataValue) (id : String) (now : ℕ)
      → get id d ≡ none
      → Step a d (create_memory d a content source kind confidence metadata id now).0
  updates :
      (memory_id : String) (c : Changes) (now : ℕ) → Step a d (update_memory d a memory_id c now).0
  deletes : (memory_id : String) → Step a d (delete_memory d a memory_id).0
  retrieves :
      (l : Limits) (query : Text) (limit max_chars : Option ℕ) (now : ℕ)
      → Step a d (retrieve_for_agent l d a query limit max_chars now).0

pub data Steps (a : String) (d : Items) : Items → Type 0 where
  here : Steps a d d
  and_then : {e f : Items} → Steps a d e → Step a e f → Steps a d f

module _ (b a : String) (differs : str_eq a b ≡ false) where
  -- What a result would store keeps what `b` sees.
  abbrev Settled {ℓ} : {A : Type ℓ} → Items → Result (Items × A) → Type 0
  Settled d (ok (e, _)) = Kept b d e
  Settled d (raised _) = Unit

  stored-Kept {ℓ} :
      {A : Type ℓ} (d : Items) (m : Result (Items × A))
      → Filed d
      → Settled d m
      → Kept b d (stored d m).0
  stored-Kept d (ok (e, x)) f h = h
  stored-Kept d (raised _) f h = Kept-refl b d f

  Settled-bind {ℓ κ} :
      {A : Type ℓ} {B : Type κ} (d : Items) (m : Result B) (k : B → Result (Items × A))
      → ((x : B) → Settled d (k x))
      → Settled d (m >>= k)
  Settled-bind d (ok x) k h = h x
  Settled-bind d (raised _) k h = tt

  Settled-found {ℓ} :
      {A : Type ℓ} (d : Items) (o : Option MemoryItem) (k : MemoryItem → Result (Items × A))
      → ((u : MemoryItem) → o ≡ some u → Settled d (k u))
      → Settled d (elim o [ none ↦ raised memory_not_found_error | some u ↦ k u ])
  Settled-found d none k h = tt
  Settled-found d (some u) k h = h u refl

  mark_all-Kept :
      (d : Items) (items : List MemoryItem) (now : ℕ) → Filed d → Kept b d (mark_all d a items now)
  unfolding mark_all
  mark_all-Kept d [] now f = Kept-refl b d f
  mark_all-Kept d (item ∷ items) now f =
      let (s, g) = mark_used-Kept b a differs d item.id now f in
      let (t, h) = mark_all-Kept (mark_used d item.id a now) items now g in (Same-trans b s t, h)

  Step-Kept : (d e : Items) → Filed d → Step a d e → Kept b d e
  unfolding create_memory update_memory delete_memory retrieve_for_agent
  Step-Kept d e f (creates content source kind confidence metadata id now fresh) =
      stored-Kept d _ f (
        Settled-bind d (validate_owner_scope a) _ (λ _.
          Settled-bind d (normalize_content content) _ (λ n.
            Settled-bind d (normalize_metadata metadata) _ (λ m.
              Settled-bind d (validate_confidence confidence) _
                (λ _. create-Kept b a differs d _ f fresh refl)))))
  Step-Kept d e f (updates memory_id c now) = stored-Kept d _ f (
      Settled-bind d (validate_owner_scope a) _ (λ _. Settled-found d (find d memory_id a) _ (λ u q.
        let own : u.owner_scope ≡ a =
          (eq_iff u.owner_scope a).0 (found_item b a differs d memory_id u q).1 in
        Settled-bind d (require (has_change c) validation_error) _ (λ _.
          Settled-bind d (normalized_or normalize_content c.content u.content) _ (λ n.
            Settled-bind d (validate_confidence (or_keep c.confidence u.confidence)) _ (λ _.
              Settled-bind d (normalized_or normalize_metadata c.metadata u.metadata) _ (λ m.
                let updated : MemoryItem = record u {
                  content = n;
                  source = or_keep c.source u.source;
                  kind = or_keep c.kind u.kind;
                  confidence = or_keep c.confidence u.confidence;
                  metadata = m;
                  updated_at = some now;
                } in
                Settled-found d (update d updated).1
                  (λ (w : MemoryItem). ok ((update d updated).0, w))
                  (λ w r. update-Kept b a differs d updated f own))))))))
  Step-Kept d e f (deletes memory_id) = stored-Kept d _ f (
      Settled-bind d (validate_owner_scope a) _ (λ _.
        Settled-bind d (require (delete d memory_id a).1 memory_not_found_error) _
          (λ _. delete-Kept b a differs d memory_id f)))
  Step-Kept d e f (retrieves l query limit max_chars now) =
      if_both (λ (z : Items × Result (List MemoryItem)). Kept b d z.0) (l.context_limit == 0) _ _
        (Kept-refl b d f)
        (stored-Kept d _ f (
          Settled-bind d (list_memories d a (or_keep limit l.context_limit) query) _ (λ selected.
            mark_all-Kept d (bounded selected (or_keep max_chars l.context_max_chars)) now f)))

  Steps-Kept : (d e : Items) → Filed d → Steps a d e → Kept b d e
  Steps-Kept d e f here = Kept-refl b d f
  Steps-Kept d e f (and_then {e = c} p x) =
      let (s, g) = Steps-Kept d c f p in let (t, h) = Step-Kept c e g x in (Same-trans b s t, h)

list-Same : (b : String) (d e : Items) (n : ℕ) → Same b d e → list e b n ≡ list d b n
unfolding list
list-Same b d e n s = ap (λ v. take n (sort_falling less_recent v)) s.seen

get_memory-Same :
    (b : String) (d e : Items) (id : String) → Same b d e → get_memory e b id ≡ get_memory d b id
unfolding get_memory
get_memory-Same b d e id s = rw (s.found id) refl

list_memories-Same :
    (b : String) (d e : Items) (limit : ℕ) (query : Text)
    → Same b d e
    → list_memories e b limit query ≡ list_memories d b limit query
unfolding list_memories
list_memories-Same b d e limit query s =
    ground (arith, list-Same b d e 200 s, list-Same b d e (normalized_limit limit) s)

-- The stores that the calls of all owners make of the empty one.
pub data Reachable : Items → Type 0 where
  empty : Reachable []
  called : {d e : Items} (a : String) → Reachable d → Step a d e → Reachable e

someone_else : (a : String) → (b : String) × (str_eq a b ≡ false)
someone_else a = elim (Bool-cases (str_eq a "")) [
  | inl e ↦ ("x", rw ((eq_iff a "").0 e) refl)
  | inr e ↦ ("", e)
]

pub Reachable-Filed : (d : Items) → Reachable d → Filed d
Reachable-Filed [] empty = tt
Reachable-Filed e (called {d = d} a r x) =
    let (b, n) = someone_else a in (Step-Kept b a n d e (Reachable-Filed d r) x).1

-- Whatever an owner calls, and however often, changes no answer to another owner: `get_memory` of
-- every id and `list_memories` of every limit and query answer the other as before.
pub others_see_nothing :
    (a b : String) (d e : Items)
    → a ≢ b
    → Reachable d
    → Steps a d e
    → ((id : String) → get_memory e b id ≡ get_memory d b id)
      × ((limit : ℕ) (query : Text) → list_memories e b limit query ≡ list_memories d b limit query)
others_see_nothing a b d e n r p =
    let differs : str_eq a b ≡ false = ground (arith, n, eq_iff a b) in
    let (s, _) = Steps-Kept b a differs d e (Reachable-Filed d r) p in
    (λ id. get_memory-Same b d e id s, λ limit query. list_memories-Same b d e limit query s)
