-- ===== src/Workflow/Descendants.antt =====
-- `_descendants` (app/workflows/engine/executor.py): the nodes behind a node, with fuel for the
-- depth of the recursion. `seen` is a set: the order of its list means nothing.
use ai_platform_mini.Prelude.{
  ℕ, zero, suc, ◌≤◌, ◌<◌, ◌≡◌, refl, String, true, false, not, List, [], ◌∷◌, length, keep, str_eq,
  eq_iff, eq_refl, subst, length-keep-le, arith, Bool-cases, inl, inr, member,
}
use ai_platform_mini.Workflow.Graph.{WorkflowEdge}
use ai_platform_mini.Workflow.Order.{targets}

-- `for target in adjacency[node_id]`, with the call for each target that is not yet seen.
unfoldable pub visit : List WorkflowEdge → ℕ → List String → List String → List String
visit as_ zero ts seen = seen
visit as_ (suc fuel) [] seen = seen
visit as_ (suc fuel) (t ∷ ts) seen = elim (member t seen) [
  | true ↦ visit as_ (suc fuel) ts seen
  | false ↦ visit as_ (suc fuel) ts (visit as_ fuel (targets t as_) (t ∷ seen))
]

unfoldable pub descendants : List String → List WorkflowEdge → String → List String
unfolding visit
descendants ids as_ node_id = visit as_ (suc (length ids)) (targets node_id as_) []

-- A way along one arc or more.
pub data Below (as_ : List WorkflowEdge) (a : String) : String → Type 0 where
  arc : {b : String} → member b (targets a as_) ≡ true → Below as_ a b
  via : {b c : String} → Below as_ a b → member c (targets b as_) ≡ true → Below as_ a c

-- The nodes that are not seen.
unseen : List String → List String → ℕ
unseen ids seen = length (keep (λ x. not (member x seen)) ids)

unseen-cons :
    (ids seen : List String) (t : String)
    → (unseen ids (t ∷ seen) ≤ unseen ids seen)
      × (member t ids ≡ true → member t seen ≡ false → unseen ids (t ∷ seen) < unseen ids seen)
unfolding unseen
unseen-cons [] seen t = (omega arith, λ m n. cc)
unseen-cons (x ∷ ids) seen t =
    let (le, lt) = unseen-cons ids seen t in
    (ground (arith, le, eq_iff t x), λ m n. ground (arith, le, lt, m, n, eq_iff t x, eq_iff x t))

unseen-le :
    (ids seen seen' : List String)
    → ((x : String) → member x seen ≡ true → member x seen' ≡ true)
    → unseen ids seen' ≤ unseen ids seen
unfolding unseen
unseen-le [] seen seen' h = omega arith
unseen-le (x ∷ ids) seen seen' h = ground (arith, unseen-le ids seen seen' h, h x)

abbrev Closed : List WorkflowEdge → List String → List String → List String → Type 0
Closed as_ seen ts seen' =
    ((x : String) → member x seen ≡ true → member x seen' ≡ true)
    × ((x : String) → member x ts ≡ true → member x seen' ≡ true)
    × ((x y : String)
        → member x seen' ≡ true
        → member x seen ≡ false
        → member y (targets x as_) ≡ true
        → member y seen' ≡ true)

module _ (ids : List String) (as_ : List WorkflowEdge)
    (ends : (x y : String) → member y (targets x as_) ≡ true → member y ids ≡ true) where
  visit-Closed :
      (fuel : ℕ) (ts seen : List String)
      → ((x : String) → member x ts ≡ true → member x ids ≡ true)
      → unseen ids seen < fuel
      → Closed as_ seen ts (visit as_ fuel ts seen)
  unfolding visit
  visit-Closed zero ts seen h lt = absurd (omega arith)
  visit-Closed (suc fuel) [] seen h lt = (λ x m. m, λ x m. cc, λ x y m n k. cc)
  visit-Closed (suc fuel) (t ∷ ts) seen h lt = elim (Bool-cases (member t seen)) [
    | inl old ↦
        let (grows, all_in, closed) =
          visit-Closed (suc fuel) ts seen (λ x m. h x (ground (arith, m))) lt in
        rw (old, visit)
          (grows, λ x m. ground (arith, m, grows x, all_in x, old, eq_iff t x), closed)
    | inr new ↦
        let node = h t (ground (arith, eq_refl t)) in
        let inner =
          visit-Closed fuel (targets t as_) (t ∷ seen) (ends t)
            (omega (arith, (unseen-cons ids seen t).1 node new)) in
        let seen' = visit as_ fuel (targets t as_) (t ∷ seen) in
        let grown = λ (x : String) (m : member x seen ≡ true). inner.0 x (ground (arith, m)) in
        let outer =
          visit-Closed (suc fuel) ts seen' (λ x m. h x (ground (arith, m)))
            (omega (arith, unseen-le ids seen seen' grown)) in
        rw (new, visit)
          (
            λ x m. outer.0 x (grown x m),
            λ x m. elim (Bool-cases (str_eq t x)) [
              | inl e ↦ outer.0 x (inner.0 x (ground (arith, e)))
              | inr e ↦ outer.1 x (ground (arith, m, e))
            ],
            λ x y m n k. elim (Bool-cases (member x seen')) [
              | inr out ↦ outer.2 x y m out k
              | inl inside ↦ outer.0 y (elim (Bool-cases (str_eq t x)) [
                | inl e ↦ inner.1 y (ground (arith, k, e, eq_iff t x))
                | inr e ↦ inner.2 x y inside (ground (arith, n, e)) k
              ])
            ],
          )
  ]

-- What is seen was seen before or lies below the node, whatever the fuel.
module _ (as_ : List WorkflowEdge) (a : String) where
  visit-Below :
      (fuel : ℕ) (ts seen : List String)
      → ((x : String) → member x ts ≡ true → Below as_ a x)
      → ((x : String) → member x seen ≡ true → Below as_ a x)
      → (x : String) → member x (visit as_ fuel ts seen) ≡ true
      → Below as_ a x
  unfolding visit
  visit-Below zero ts seen h k x m = k x m
  visit-Below (suc fuel) [] seen h k x m = k x m
  visit-Below (suc fuel) (t ∷ ts) seen h k x m = elim (Bool-cases (member t seen)) [
    | inl old ↦
        visit-Below (suc fuel) ts seen (λ y n. h y (ground (arith, n))) k x (rw (old, visit) at m)
    | inr new ↦
        let here = h t (ground (arith, eq_refl t)) in
        visit-Below (suc fuel) ts _ (λ y n. h y (ground (arith, n)))
          (visit-Below fuel (targets t as_) (t ∷ seen) (λ y n. via here n)
            (λ y n. elim (Bool-cases (str_eq t y)) [
              | inl e ↦ subst (Below as_ a) ((eq_iff t y).0 e) here
              | inr e ↦ k y (ground (arith, n, e))
            ]))
          x (rw (new, visit) at m)
  ]

-- `_descendants` answers exactly the nodes that lie below the node, along one arc or more; the
-- depth of its recursion is at most the number of nodes.
pub descendants_lem :
    (ids : List String) (as_ : List WorkflowEdge) (a b : String)
    → ((x y : String) → member y (targets x as_) ≡ true → member y ids ≡ true)
    → (member b (descendants ids as_ a) ≡ true → Below as_ a b)
      × (Below as_ a b → member b (descendants ids as_ a) ≡ true)
unfolding descendants unseen
descendants_lem ids as_ a b ends =
    let whole =
      visit-Closed ids as_ ends (suc (length ids)) (targets a as_) [] (ends a) (fits ids) in
    (
      visit-Below as_ a (suc (length ids)) (targets a as_) [] (λ x m. arc m) (λ x m. cc) b,
      λ w. complete whole w,
    )
  where
    fits : (xs : List String) → unseen xs [] < suc (length xs)
    fits xs = omega (arith, length-keep-le (λ x. not (member x [])) xs)

    complete :
        {c : String}
        → Closed as_ [] (targets a as_) (visit as_ (suc (length ids)) (targets a as_) [])
        → Below as_ a c
        → member c (visit as_ (suc (length ids)) (targets a as_) []) ≡ true
    complete w (arc m) = w.1 _ m
    complete w (via p m) = w.2 _ _ (complete w p) refl m
