-- ===== src/Memory/Isolation.antt =====
-- What one owner's calls (app/memory/memory_repository.py) leave of what another owner sees.
use ai_platform_mini.Prelude.{
  ℕ, String, true, false, none, some, List, [], ◌∷◌, keep, ◌≡◌, refl, sym, subst, ◌∙◌, inl, inr,
  arith, str_eq, eq_iff, Bool-cases, Option-cases,
}
use ai_platform_mini.Prelude.Dict.{get, put, remove, values, get-put, get-remove}
use ai_platform_mini.Prelude.Keyed.{Keyed, Keyed-put, Keyed-get, Keyed-remove}
use ai_platform_mini.Memory.Store.{
  MemoryItem, Items, is_owned, find, create, update, delete, mark_used,
}

abbrev pub Filed : Items → Type 0
Filed items = Keyed (λ (i : MemoryItem). i.id) items

-- What an owner sees of the store.
abbrev pub view : String → Items → List MemoryItem
view b items = keep (is_owned b) (values items)

-- Two stores that an owner cannot tell apart.
pub record Same (b : String) (items items' : Items) : Type 0 where
  pub seen : view b items' ≡ view b items
  pub found : (id : String) → find items' id b ≡ find items id b

module _ (b : String) where
  view-put :
      (k : String) (v : MemoryItem) (d : Items)
      → ((u : MemoryItem) → get k d ≡ some u → is_owned b u ≡ false)
      → is_owned b v ≡ false
      → view b (put k v d) ≡ view b d
  unfolding get put
  view-put k v [] h n = ground (arith, n)
  view-put k v ((j, w) ∷ d) h n = elim (Bool-cases (str_eq j k)) [
    | inl q ↦ rw (put, q) (ground (arith, n, h w, q))
    | inr q ↦ rw (put, q) (ground (arith, view-put k v d (λ u e. h u (ground (arith, e, q))) n))
  ]

  view-absent : (k : String) (d : Items) → get k d ≡ none → remove k d ≡ d
  unfolding get remove
  view-absent k [] h = refl
  view-absent k ((j, w) ∷ d) h = ground (arith, view-absent k d)

  view-remove :
      (k : String) (d : Items)
      → Filed d
      → ((u : MemoryItem) → get k d ≡ some u → is_owned b u ≡ false)
      → view b (remove k d) ≡ view b d
  unfolding get remove
  view-remove k [] f h = refl
  view-remove k ((j, w) ∷ d) (a, g, f) h = elim (Bool-cases (str_eq j k)) [
    | inl q ↦ rw (remove, q) (ground (arith, h w, q, view-absent k d, g, eq_iff j k))
    | inr q ↦ rw (remove, q) (ground (arith, view-remove k d f (λ u e. h u (ground (arith, e, q)))))
  ]

  Same-refl : (items : Items) → Same b items items
  Same-refl items = record { seen = refl; found = λ id. refl }

  pub Same-trans : {d e f : Items} → Same b d e → Same b e f → Same b d f
  Same-trans p q = record { seen = q.seen ∙ p.seen; found = λ id. q.found id ∙ p.found id }

  Same-put :
      (k : String) (v : MemoryItem) (d : Items)
      → ((u : MemoryItem) → get k d ≡ some u → is_owned b u ≡ false)
      → is_owned b v ≡ false
      → Same b d (put k v d)
  unfolding find
  Same-put k v d h n = record {
    seen = view-put k v d h n;
    found = λ id. elim (Option-cases (get k d)) [
      | inl e ↦ ground (arith, get-put k id v d, n, e, eq_iff k id)
      | inr (u, e) ↦ ground (arith, get-put k id v d, n, e, h u, eq_iff k id)
    ];
  }

  Same-remove :
      (k : String) (d : Items)
      → Filed d
      → ((u : MemoryItem) → get k d ≡ some u → is_owned b u ≡ false)
      → Same b d (remove k d)
  unfolding find
  Same-remove k d f h = record {
    seen = view-remove k d f h;
    found = λ id. elim (Option-cases (get k d)) [
      | inl e ↦ ground (arith, get-remove k id d, e, eq_iff k id)
      | inr (u, e) ↦ ground (arith, get-remove k id d, e, h u, eq_iff k id)
    ];
  }

  -- What a call of another owner leaves.
  abbrev pub Kept : Items → Items → Type 0
  Kept d e = Same b d e × Filed e

  pub Kept-refl : (d : Items) → Filed d → Kept d d
  Kept-refl d f = (Same-refl d, f)

  module _ (a : String) (differs : str_eq a b ≡ false) where
    pub found_item :
        (d : Items) (id : String) (u : MemoryItem)
        → find d id a ≡ some u
        → (get id d ≡ some u) × (is_owned a u ≡ true) × (is_owned b u ≡ false)
    unfolding find
    found_item d id u e = elim (Option-cases (get id d)) [
      | inl q ↦ ground (arith, e, q)
      | inr (w, q) ↦
          ground (arith, e, q, differs, eq_iff w.owner_scope a, eq_iff w.owner_scope b, eq_iff a b)
    ]

    pub create-Kept :
        (d : Items) (item : MemoryItem)
        → Filed d
        → get item.id d ≡ none
        → item.owner_scope ≡ a
        → Kept d (create d item)
    unfolding create
    create-Kept d item f fresh own = (
      Same-put item.id item d (λ u e. ground (arith, fresh, e)) (ground (arith, own, differs)),
      Keyed-put (λ (i : MemoryItem). i.id) item.id item d refl f,
    )

    -- An item that is found is replaced by another of the same owner.
    replace-Kept :
        (d : Items) (id : String) (u v : MemoryItem)
        → Filed d
        → find d id a ≡ some u
        → v.id ≡ u.id
        → v.owner_scope ≡ u.owner_scope
        → Kept d (put id v d)
    replace-Kept d id u v f e same own =
        let (g, _, n) = found_item d id u e in
        (
          Same-put id v d (λ w q. ground (arith, g, q, n)) (ground (arith, own, n)),
          Keyed-put (λ (i : MemoryItem). i.id) id v d
              (same ∙ Keyed-get (λ (i : MemoryItem). i.id) id u d f g) f,
        )

    pub update-Kept :
        (d : Items) (item : MemoryItem) → Filed d → item.owner_scope ≡ a → Kept d (update d item).0
    unfolding update
    update-Kept d item f own = elim (Option-cases (find d item.id item.owner_scope)) [
      | inl e ↦ rw (update, e) (Kept-refl d f)
      | inr (u, e) ↦ rw (update, e) (replace-Kept d item.id u _ f (rw own at e) refl refl)
    ]

    pub delete-Kept : (d : Items) (id : String) → Filed d → Kept d (delete d id a).0
    unfolding delete
    delete-Kept d id f = elim (Option-cases (find d id a)) [
      | inl e ↦ rw (delete, e) (Kept-refl d f)
      | inr (u, e) ↦
          let (g, _, n) = found_item d id u e in
          rw (delete, e)
            (
              Same-remove id d f (λ w q. ground (arith, g, q, n)),
              Keyed-remove (λ (i : MemoryItem). i.id) id d f,
            )
    ]

    pub mark_used-Kept :
        (d : Items) (id : String) (now : ℕ) → Filed d → Kept d (mark_used d id a now)
    unfolding mark_used
    mark_used-Kept d id now f = elim (Option-cases (find d id a)) [
      | inl e ↦ rw (mark_used, e) (Kept-refl d f)
      | inr (u, e) ↦
          let (g, _, _) = found_item d id u e in
          let same = Keyed-get (λ (i : MemoryItem). i.id) id u d f g in
          let marked : MemoryItem = record u { last_used_at = some now } in
          rw (mark_used, e)
            (subst (λ k. Kept d (put k marked d)) (sym same)
              (replace-Kept d id u marked f e refl refl))
    ]
