-- ===== src/Orchestra/Acyclic.antt =====
-- `_validate_acyclic` (app/multi_agent/decision_factory.py): it accepts a graph whose nodes can be
-- put in order, and refuses one with a cycle.
use ai_platform_mini.Prelude.{
  ℕ, zero, suc, ◌+◌, ◌<◌, ◌≡◌, refl, subst, sym, ◌∙◌, ◌⊎◌, inl, inr, String, true, List, [], ◌∷◌,
  ◌++◌, length, all, member, member-append, Distinct, length-le, str_eq, eq_iff, eq_refl, arith,
  Bool-cases,
}
use ai_platform_mini.Prelude.Results.{
  ok, raised, Exception, value_error, Result-cases, value_of_call,
}
use ai_platform_mini.Orchestra.Execute.{keys}
use ai_platform_mini.Orchestra.Decision.{DependsMap, dependencies, visit, validate_acyclic}

-- A way along one dependency or more.
pub data Needs (deps : String → List String) (a : String) : String → Type 0 where
  directly : {b : String} → member b (deps a) ≡ true → Needs deps a b
  through : {b c : String} → Needs deps a b → member c (deps b) ≡ true → Needs deps a c

-- Each id of a list stands behind all that it needs.
abbrev pub InOrder : (String → List String) → List String → List String → Type 0
InOrder deps before [] = Unit
InOrder deps before (x ∷ xs) =
    (all (λ d. member d before) (deps x) ≡ true) × InOrder deps (before ++ x ∷ []) xs

snoc_assoc : (xs ys : List String) (y : String) → (xs ++ y ∷ []) ++ ys ≡ xs ++ y ∷ ys
snoc_assoc [] ys y = refl
snoc_assoc (x ∷ xs) ys y = ground (arith, snoc_assoc xs ys y)

append_nil : (xs : List String) → xs ++ [] ≡ xs
append_nil [] = refl
append_nil (x ∷ xs) = ground (arith, append_nil xs)

InOrder-snoc :
    (deps : String → List String) (before xs : List String) (x : String)
    → InOrder deps before xs
    → all (λ d. member d (before ++ xs)) (deps x) ≡ true
    → InOrder deps before (xs ++ x ∷ [])
InOrder-snoc deps before [] x o h = (rw append_nil at h, tt)
InOrder-snoc deps before (y ∷ ys) x o h =
    (o.0, InOrder-snoc deps (before ++ y ∷ []) ys x o.1 (rw (snoc_assoc before ys y) h))

pub all_members :
    (xs ys : List String)
    → ((x : String) → member x xs ≡ true → member x ys ≡ true)
    → all (λ d. member d ys) xs ≡ true
all_members [] ys h = refl
all_members (x ∷ xs) ys h =
    ground (arith, h x, eq_refl x, all_members xs ys (λ z m. h z (ground (arith, m))))

module _ (m : DependsMap) where
  -- What `visit` leaves: an order that goes on the one before, with all that was to be visited.
  abbrev Visited : List String → List String → List String → Type 0
  Visited xs visited left =
      InOrder (dependencies m) [] left
      × ((x : String) → member x visited ≡ true → member x left ≡ true)
      × ((x : String) → member x xs ≡ true → member x left ≡ true)

  visit-Visited :
      (fuel : ℕ) (xs in_stack visited left : List String)
      → InOrder (dependencies m) [] visited
      → visit m fuel xs in_stack visited ≡ ok left
      → Visited xs visited left
  unfolding visit
  visit-Visited zero xs in_stack visited left o h = cc
  visit-Visited (suc fuel) [] in_stack visited left o h =
      let e : visited ≡ left = ground (arith, h) in
      (
        subst (InOrder (dependencies m) []) e o,
        λ x k. subst (λ l. member x l ≡ true) e k,
        λ x k. cc,
      )
  visit-Visited (suc fuel) (x ∷ xs) in_stack visited left o h =
      elim (Bool-cases (member x in_stack)) [
        | inl s ↦ ground (arith, s, h)
        | inr s ↦ elim (Bool-cases (member x visited)) [
          | inl old ↦
              let (a, b, c) =
                visit-Visited (suc fuel) xs in_stack visited left o (rw (visit, s, old) at h) in
              (a, b, λ y k. ground (arith, k, b y, c y, old, eq_iff x y))
          | inr new ↦
              let (below, p, q) =
                value_of_call (visit m fuel (dependencies m x) (x ∷ in_stack) visited)
                  (λ below. visit m (suc fuel) xs in_stack (below ++ x ∷ []))
                  (rw (visit, s, new) at h) in
              let (a, b, c) =
                visit-Visited fuel (dependencies m x) (x ∷ in_stack) visited below o p in
              let (d, e, f) =
                visit-Visited (suc fuel) xs in_stack (below ++ x ∷ []) left
                  (InOrder-snoc (dependencies m) [] below x a
                    (all_members (dependencies m x) below c))
                  q in
              (
                d,
                λ y k. e y (ground (arith, b y k, member-append y below (x ∷ []))),
                λ y k. ground (arith, k, f y, e y, member-append y below (x ∷ []), eq_iff x y),
              )
        ]
      ]

  -- A node of a stack leads to every node that is visited from it.
  abbrev Leads : List String → List String → Type 0
  Leads in_stack xs =
      (y x : String) → member y in_stack ≡ true → member x xs ≡ true → Needs (dependencies m) y x

  Leads-deeper :
      (x : String) (xs in_stack : List String)
      → Leads in_stack (x ∷ xs)
      → Leads (x ∷ in_stack) (dependencies m x)
  Leads-deeper x xs in_stack l y d k n = elim (Bool-cases (str_eq x y)) [
    | inl e ↦ subst (λ z. Needs (dependencies m) z d) ((eq_iff x y).0 e) (directly n)
    | inr e ↦ through (l y x (ground (arith, k, e)) (ground (arith, eq_refl x))) n
  ]

  module _
      (closed : (x y : String)
        → member y (dependencies m x) ≡ true
        → member y (keys m) ≡ true) where
    -- What is raised is a ValueError, for a node that needs itself.
    visit_cycle :
        (fuel : ℕ) (xs in_stack visited : List String) (e : Exception)
        → ((x : String) → member x xs ≡ true → member x (keys m) ≡ true)
        → ((x : String) → member x in_stack ≡ true → member x (keys m) ≡ true)
        → Distinct in_stack
        → length (keys m) < fuel + length in_stack
        → Leads in_stack xs
        → visit m fuel xs in_stack visited ≡ raised e
        → (e ≡ value_error) × (x : String) × Needs (dependencies m) x x
    unfolding visit
    visit_cycle zero xs in_stack visited e ks ss d few l h =
        absurd (omega (arith, length-le in_stack (keys m) d ss))
    visit_cycle (suc fuel) [] in_stack visited e ks ss d few l h = cc
    visit_cycle (suc fuel) (x ∷ xs) in_stack visited e ks ss d few l h =
        let rest_keys = λ (y : String) (k : member y xs ≡ true). ks y (ground (arith, k)) in
        let rest_leads = λ (y z : String) (j : member y in_stack ≡ true) (k : member z xs ≡ true).
          l y z j (ground (arith, k)) in
        elim (Bool-cases (member x in_stack)) [
          | inl s ↦ (ground (arith, s, h), x, l x x s (ground (arith, eq_refl x)))
          | inr s ↦ elim (Bool-cases (member x visited)) [
            | inl old ↦
                visit_cycle (suc fuel) xs in_stack visited e rest_keys ss d few rest_leads
                  (rw (visit, s, old) at h)
            | inr new ↦
                elim (Result-cases (visit m fuel (dependencies m x) (x ∷ in_stack) visited)) [
                  | inr (f, p) ↦
                      let same : f ≡ e = ground (arith, rw (visit, s, new, p) at h) in
                      let (is_error, y, cycle) =
                        visit_cycle fuel (dependencies m x) (x ∷ in_stack) visited f (closed x)
                          (λ y k. ground (arith, k, ss y, ks x, eq_refl x, eq_iff x y)) (s, d)
                          (omega arith) (Leads-deeper x xs in_stack l) p in
                      (sym same ∙ is_error, y, cycle)
                  | inl (below, p) ↦
                      visit_cycle (suc fuel) xs in_stack (below ++ x ∷ []) e rest_keys ss d few
                        rest_leads (rw (visit, s, new, p) at h)
                ]
          ]
        ]

-- In a graph whose dependencies are nodes, `_validate_acyclic` either accepts, and then the nodes
-- can be ordered so that each stands behind all that it needs; or it raises a ValueError, and then some
-- node needs itself, along one dependency or more.
pub validate_acyclic_lem :
    (m : DependsMap)
    → ((x y : String) → member y (dependencies m x) ≡ true → member y (keys m) ≡ true)
    → ((order : List String) × (validate_acyclic m ≡ ok order)
        × InOrder (dependencies m) [] order
        × ((x : String) → member x (keys m) ≡ true → member x order ≡ true))
      ⊎ ((validate_acyclic m ≡ raised value_error) × (x : String) × Needs (dependencies m) x x)
unfolding validate_acyclic
validate_acyclic_lem m closed =
    elim (Result-cases (visit m (suc (length (keys m))) (keys m) [] [])) [
      | inl (order, h) ↦
          let (a, b, c) = visit-Visited m (suc (length (keys m))) (keys m) [] [] order tt h in
          inl (order, h, a, c)
      | inr (e, h) ↦
          let (is_error, x, n) =
            visit_cycle m closed (suc (length (keys m))) (keys m) [] [] e (λ x k. k) (λ x k. cc) tt
              (omega arith) (λ y x j k. cc) h in
          inr (ground (arith, h, is_error), x, n)
    ]
