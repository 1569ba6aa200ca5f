-- ===== src/Memory/Context.antt =====
-- What an agent run is given of the memory: `retrieve_for_agent` (app/memory/service.py).
use ai_platform_mini.Prelude.{
  ℕ, zero, suc, ◌+◌, ◌-◌, ◌≤◌, ◌<◌, String, Bool, true, Option, List, [], ◌∷◌, ◌++◌, Text, All,
  length, take, keep, ltb, ◌==◌, strip, ◌≡◌, subst, inl, inr, arith, Bool-cases, length-take,
  if_both, eq_iff,
}
use ai_platform_mini.Prelude.Dict.{values}
use ai_platform_mini.Prelude.Results.{Result, ok, raised, value_of_call, >>-eq-ok}
use ai_platform_mini.Memory.Store.{
  MemoryItem, Items, is_owned, less_recent, list, insert_falling, sort_falling,
  validate_owner_scope,
}
use ai_platform_mini.Memory.Terms.{text_terms}
use ai_platform_mini.Memory.Service.{
  Limits, list_memories, search, bounded, retrieve_for_agent, normalized_limit, or_keep,
  less_relevant, overlap, stored,
}

module _ {A : Type 0} (P : A → Type 0) where
  All-insert :
      (below : A → A → Bool) (x : A) (ys : List A)
      → P x
      → All P ys
      → All P (insert_falling below x ys)
  All-insert below x [] p q = (p, q)
  All-insert below x (y ∷ ys) p q = elim (Bool-cases (below x y)) [
    | inl e ↦ rw e (q.0, All-insert below x ys p q.1)
    | inr e ↦ rw e (p, q)
  ]

  All-sort : (below : A → A → Bool) (xs : List A) → All P xs → All P (sort_falling below xs)
  All-sort below [] q = tt
  All-sort below (x ∷ xs) q = All-insert below x (sort_falling below xs) q.0 (All-sort below xs q.1)

  All-take : (n : ℕ) (xs : List A) → All P xs → All P (take n xs)
  All-take zero xs q = tt
  All-take (suc n) [] q = tt
  All-take (suc n) (x ∷ xs) q = (q.0, All-take n xs q.1)

  All-keep : (p : A → Bool) (xs : List A) → All P xs → All P (keep p xs)
  All-keep p [] q = tt
  All-keep p (x ∷ xs) q = elim (Bool-cases (p x)) [
    | inl e ↦ rw e (q.0, All-keep p xs q.1)
    | inr e ↦ rw e (All-keep p xs q.1)
  ]

kept_pass : {A : Type 0} (p : A → Bool) (xs : List A) → All (λ x. p x ≡ true) (keep p xs)
kept_pass p [] = tt
kept_pass p (x ∷ xs) = elim (Bool-cases (p x)) [
  | inl e ↦ rw e (e, kept_pass p xs)
  | inr e ↦ rw e (kept_pass p xs)
]

-- The characters that the items are counted with.
abbrev pub size : List MemoryItem → ℕ
size [] = 0
size (item ∷ items) = length item.content + 32 + size items

bounded-size :
    (items xs : List MemoryItem) (x : MemoryItem) (remaining : ℕ)
    → bounded items remaining ≡ xs ++ x ∷ []
    → size xs < remaining
unfolding bounded
bounded-size [] [] x remaining h = cc
bounded-size [] (_ ∷ _) x remaining h = cc
bounded-size (i ∷ items) [] x remaining h = ground (arith, h)
bounded-size (i ∷ items) (y ∷ ys) x remaining h =
    let k = remaining - (length (take remaining i.content) + 32) in
    ground (arith, h, bounded-size items ys x k, length-take remaining i.content)

bounded-length :
    (items : List MemoryItem) (remaining : ℕ) → length (bounded items remaining) ≤ length items
unfolding bounded
bounded-length [] remaining = omega arith
bounded-length (i ∷ items) remaining =
    let k = remaining - (length (take remaining i.content) + 32) in
    ground (arith, bounded-length items k)

All-bounded :
    (P : MemoryItem → Type 0) (items : List MemoryItem) (remaining : ℕ)
    → All P items
    → All P (bounded items remaining)
unfolding bounded
All-bounded P [] remaining q = tt
All-bounded P (i ∷ items) remaining q =
    let k = remaining - (length (take remaining i.content) + 32) in
    if_both (All P) (remaining == 0) _ _ tt (q.0, All-bounded P items k q.1)

module _ (d : Items) (a : String) where
  abbrev Own : List MemoryItem → Type 0
  Own xs = All (λ x. is_owned a x ≡ true) xs

  list-Own : (n : ℕ) → Own (list d a n)
  unfolding list
  list-Own n =
      All-take _ n (sort_falling less_recent (keep (is_owned a) (values d)))
        (All-sort _ less_recent (keep (is_owned a) (values d)) (kept_pass (is_owned a) (values d)))

  -- What a search is to give: items of the owner, no more than the limit.
  abbrev Fair : ℕ → List MemoryItem → Type 0
  Fair n xs = Own xs × (length xs ≤ n)

  take-Fair : (n : ℕ) (xs : List MemoryItem) → Own xs → Fair n (take n xs)
  take-Fair n xs q = (All-take _ n xs q, omega (arith, length-take n xs))

  search-Fair :
      (raw : List MemoryItem) (n : ℕ) (terms : List Text) → Own raw → Fair n (search raw n terms)
  unfolding search
  search-Fair raw n [] q = take-Fair n raw q
  search-Fair raw n (t ∷ ts) q = take-Fair n _ (
      All-keep _ (λ item. ltb 0 (overlap (t ∷ ts) item)) _
        (All-sort _ (less_relevant (t ∷ ts)) raw q))

  list-Fair : (n : ℕ) → Fair n (list d a n)
  unfolding list
  list-Fair n = (
    list-Own n,
    omega (arith, length-take n (sort_falling less_recent (keep (is_owned a) (values d)))),
  )

  list_memories-Fair :
      (limit : ℕ) (query : Text) (xs : List MemoryItem)
      → list_memories d a limit query ≡ ok xs
      → Fair (normalized_limit limit) xs
  unfolding list_memories
  list_memories-Fair limit query xs h =
      let (_, k) = >>-eq-ok (validate_owner_scope a) _ h in by_query (strip query) k
    where
      by_query :
          (q : Text)
          → elim q [
            | [] ↦ ok (list d a (normalized_limit limit))
            | c ∷ s ↦ ok (search (list d a 200) (normalized_limit limit) (text_terms (c ∷ s)))
          ]
            ≡ ok xs
          → Fair (normalized_limit limit) xs
      by_query [] k =
          let e : list d a (normalized_limit limit) ≡ xs = cc in
          subst (Fair (normalized_limit limit)) e (list-Fair (normalized_limit limit))
      by_query (c ∷ s) k =
          let e : search (list d a 200) (normalized_limit limit) (text_terms (c ∷ s)) ≡ xs = cc in
          subst (Fair (normalized_limit limit)) e (
            search-Fair (list d a 200) (normalized_limit limit) (text_terms (c ∷ s)) (list-Own 200))

  owners : (xs : List MemoryItem) → Own xs → All (λ x. x.owner_scope ≡ a) xs
  owners [] q = tt
  owners (x ∷ xs) q = ((eq_iff x.owner_scope a).0 q.0, owners xs q.1)

  -- What `retrieve_for_agent_lem` says of the items that are given.
  abbrev Given : ℕ → ℕ → List MemoryItem → Type 0
  Given n max_chars used =
      All (λ x. x.owner_scope ≡ a) used
      × (length used ≤ n)
      × ((xs : List MemoryItem) (x : MemoryItem) → used ≡ xs ++ x ∷ [] → size xs < max_chars)

  bounded-Given :
      (n max_chars : ℕ) (selected : List MemoryItem)
      → Fair n selected
      → Given n max_chars (bounded selected max_chars)
  bounded-Given n max_chars selected (q, few) = (
    owners (bounded selected max_chars) (All-bounded _ selected max_chars q),
    omega (arith, few, bounded-length selected max_chars),
    λ xs x e. bounded-size selected xs x max_chars e,
  )

stored_ok :
    {A : Type 0} (d : Items) (m : Result (Items × A)) (x : A)
    → (stored d m).1 ≡ ok x
    → (e : Items) × (m ≡ ok (e, x))
stored_ok d (ok (e, y)) x h = (e, ground (arith, h))
stored_ok d (raised _) x h = cc

-- The items that an agent run is given belong to its owner, are no more than the limit that applies
-- (between 1 and 100), and all but the last together take, with 32 characters for each, less than the
-- characters allowed.
pub retrieve_for_agent_lem :
    (l : Limits) (d : Items) (a : String) (query : Text) (limit max_chars : Option ℕ) (now : ℕ)
    (used : List MemoryItem)
    → (retrieve_for_agent l d a query limit max_chars now).1 ≡ ok used
    → All (λ x. x.owner_scope ≡ a) used
      × (length used ≤ normalized_limit (or_keep limit l.context_limit))
      × ((xs : List MemoryItem) (x : MemoryItem)
          → used ≡ xs ++ x ∷ []
          → size xs < or_keep max_chars l.context_max_chars)
unfolding retrieve_for_agent bounded
retrieve_for_agent_lem l d a query limit max_chars now used h =
    let n = normalized_limit (or_keep limit l.context_limit) in
    let m = or_keep max_chars l.context_max_chars in
    elim (Bool-cases (l.context_limit == 0)) [
      | inl e ↦
          let f : bounded [] m ≡ used = ground (arith, h, e) in
          subst (Given d a n m) f (bounded-Given d a n m [] (tt, omega arith))
      | inr e ↦
          let (_, q) = stored_ok d _ used (rw (retrieve_for_agent, e) at h) in
          let (selected, p, r) =
            value_of_call (list_memories d a (or_keep limit l.context_limit) query) _ q in
          let f : bounded selected m ≡ used = cc r in
          subst (Given d a n m) f (
            bounded-Given d a n m selected
              (list_memories-Fair d a (or_keep limit l.context_limit) query selected p))
    ]
