-- ===== src/Workflow/Sources.antt =====
-- Arcs, sources and the topological order (app/workflows/engine/validation.py): where the source of
-- a node stands, that it is the only one, and that a chosen branch is an arc.
use ai_platform_mini.Prelude.{
  ◌≤◌, ◌≡◌, refl, String, true, false, ◌&&◌, List, [], ◌∷◌, ◌++◌, length, str_eq, eq_iff, eq_refl,
  arith, Bool-cases, inl, inr, member, member-append, Distinct, All,
}
use ai_platform_mini.Workflow.Graph.{WorkflowNode, WorkflowEdge, node_ids}
use ai_platform_mini.Workflow.Order.{targets}
use ai_platform_mini.Workflow.Degrees.{sources_in}
use ai_platform_mini.Workflow.Kahn.{Ordered}
use ai_platform_mini.Workflow.Validation.{incoming}

pub source_member :
    (as_ : List WorkflowEdge) (x y : String) (from : List String)
    → sources_in as_ x from ≡ true
    → member x (targets y as_) ≡ true
    → member y from ≡ true
source_member [] x y from h m = cc
source_member (a ∷ as_) x y from h m =
    ground (arith, h, m, source_member as_ x y from, eq_iff a.from_node y, eq_iff a.to_node x)

pub all_in :
    (as_ : List WorkflowEdge) (x : String) (from : List String)
    → ((y : String) → member x (targets y as_) ≡ true → member y from ≡ true)
    → sources_in as_ x from ≡ true
all_in [] x from h = refl
all_in (a ∷ as_) x from h =
    ground (
      arith,
      h a.from_node,
      eq_refl a.from_node,
      all_in as_ x from (λ y m. h y (ground (arith, m))),
    )

no_incoming :
    (as_ : List WorkflowEdge) (x y : String)
    → length (incoming x as_) ≡ 0
    → member x (targets y as_) ≡ false
no_incoming [] x y h = refl
no_incoming (a ∷ as_) x y h = ground (arith, h, no_incoming as_ x y)

pub same_source :
    (as_ : List WorkflowEdge) (x y z : String)
    → length (incoming x as_) ≤ 1
    → member x (targets y as_) ≡ true
    → member x (targets z as_) ≡ true
    → y ≡ z
same_source [] x y z h m n = cc
same_source (a ∷ as_) x y z h m n = elim (Bool-cases (str_eq a.to_node x)) [
  | inr e ↦
      same_source as_ x y z (ground (arith, h, e)) (ground (arith, m, e)) (ground (arith, n, e))
  | inl e ↦ ground (
    arith,
    e,
    h,
    m,
    n,
    no_incoming as_ x y,
    no_incoming as_ x z,
    eq_iff a.from_node y,
    eq_iff a.from_node z,
  )
]

pub one_incoming :
    (as_ : List WorkflowEdge) (ns : List WorkflowNode) (x : String)
    → All (λ (n : WorkflowNode). length (incoming n.id as_) ≤ 1) ns
    → member x (node_ids ns) ≡ true
    → length (incoming x as_) ≤ 1
one_incoming as_ [] x h m = cc
one_incoming as_ (n ∷ ns) x h m = elim (Bool-cases (str_eq n.id x)) [
  | inl e ↦ ground (arith, h.0, eq_iff n.id x, e)
  | inr e ↦ one_incoming as_ ns x h.1 (ground (arith, m, e))
]

-- In an ordered list the sources of a node stand before it.
module _ (as_ : List WorkflowEdge) where
  before_it :
      (xs ps : List String) (id : String) (rest : List String) (y : String)
      → Ordered as_ xs (ps ++ id ∷ rest)
      → member id (targets y as_) ≡ true
      → member y (xs ++ ps) ≡ true
  before_it xs [] id rest y o m =
      ground (arith, source_member as_ id y xs o.0 m, member-append y xs [])
  before_it xs (p ∷ ps) id rest y o m = ground (
    arith,
    before_it (xs ++ p ∷ []) ps id rest y o.1 m,
    member-append y xs (p ∷ ps),
    member-append y (xs ++ p ∷ []) ps,
    member-append y xs (p ∷ []),
  )

  before_any :
      (xs ps rest : List String) (x y : String)
      → Ordered as_ xs (ps ++ rest)
      → member x ps ≡ true
      → member x (targets y as_) ≡ true
      → member y (xs ++ ps) ≡ true
  before_any xs [] rest x y o k m = cc
  before_any xs (p ∷ ps) rest x y o k m = elim (Bool-cases (str_eq p x)) [
    | inl e ↦
        ground (arith, source_member as_ p y xs o.0, m, e, eq_iff p x, member-append y xs (p ∷ ps))
    | inr e ↦ ground (
      arith,
      before_any (xs ++ p ∷ []) ps rest x y o.1 (ground (arith, k, e)) m,
      member-append y xs (p ∷ ps),
      member-append y (xs ++ p ∷ []) ps,
      member-append y xs (p ∷ []),
    )
  ]

  pub apart_in :
      (ps rest : List String) (x : String)
      → Distinct (ps ++ rest)
      → member x ps && member x rest ≡ false
  apart_in [] rest x d = refl
  apart_in (p ∷ ps) rest x d =
      ground (arith, apart_in ps rest x d.1, d, member-append p ps rest, eq_iff p x)

  module _ (ps : List String) (id : String) (rest : List String)
      (ordered : Ordered as_ [] (ps ++ id ∷ rest)) (once : Distinct (ps ++ id ∷ rest)) where
    -- Of a node, none of its sources is left when it comes up.
    pub source_done : (y : String) → member id (targets y as_) ≡ true → member y ps ≡ true
    source_done y m = before_it [] ps id rest y ordered m

    -- The targets of a node that is left are left behind the first.
    pub target_left :
        (x y : String)
        → member y (id ∷ rest) ≡ true
        → member x (ps ++ id ∷ rest) ≡ true
        → member x (targets y as_) ≡ true
        → member x rest ≡ true
    target_left x y l k m = ground (
      arith,
      l,
      k,
      member-append x ps (id ∷ rest),
      before_any [] ps (id ∷ rest) x y ordered,
      source_done y,
      m,
      apart_in ps (id ∷ rest) y once,
      eq_iff id x,
    )
