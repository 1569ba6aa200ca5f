-- ===== src/Workflow/Kahn.antt =====
-- The loop of Kahn's algorithm: its invariant, and what it ends with.
use ai_platform_mini.Prelude.{
  ℕ, zero, suc, ◌+◌, ◌-◌, ◌≤◌, ◌<◌, ◌≡◌, refl, String, Bool, true, false, ◌&&◌, ◌||◌, List, [], ◌∷◌,
  ◌++◌, length, length-append, all, str_eq, eq_iff, eq_refl, arith, if◌then◌else◌, ◌==◌, Bool-cases,
  inl, inr, member, Distinct, member-append, Distinct-snoc, length-le,
}
use ai_platform_mini.Prelude.Dict.{Dict, put}
use ai_platform_mini.Workflow.Graph.{WorkflowEdge}
use ai_platform_mini.Workflow.Order.{degree, targets, relax, kahn}
use ai_platform_mini.Workflow.Degrees.{
  into, into_from, occurrences, sources_in, source_outside, into_from-le, all_sources, some_source,
  into_from-snoc, degree-put,
}

-- Each id of a list stands behind the sources of all its arcs.
abbrev pub Ordered : List WorkflowEdge → List String → List String → Type 0
Ordered as_ before [] = Unit
Ordered as_ before (x ∷ xs) = (sources_in as_ x before ≡ true) × Ordered as_ (before ++ x ∷ []) xs

pub snoc_assoc : (xs ys : List String) (y : String) → (xs ++ y ∷ []) ++ ys ≡ xs ++ y ∷ ys
snoc_assoc [] ys y = refl
snoc_assoc (x ∷ xs) ys y = ground (arith, snoc_assoc xs ys y)

append_nil : (xs : List String) → xs ++ [] ≡ xs
append_nil [] = refl
append_nil (x ∷ xs) = ground (arith, append_nil xs)

Ordered-snoc :
    (as_ : List WorkflowEdge) (before xs : List String) (x : String)
    → Ordered as_ before xs
    → sources_in as_ x (before ++ xs) ≡ true
    → Ordered as_ before (xs ++ x ∷ [])
Ordered-snoc as_ before [] x o s = (rw append_nil at s, tt)
Ordered-snoc as_ before (y ∷ ys) x o s =
    (o.0, Ordered-snoc as_ (before ++ y ∷ []) ys x o.1 (rw (snoc_assoc before ys y) s))

module _ (as_ : List WorkflowEdge) (ids : List String) where
  -- The loop with `todo` targets of the last id still to relax.
  pub record Inv (ready ordered : List String) (in_degree : Dict ℕ) (todo : List String)
      : Type 0 where
    pub degrees :
        (v : String)
        → degree in_degree v + into_from v ordered as_ ≡ into v as_ + occurrences v todo
    pub zero_degree :
        (v : String)
        → member v ids ≡ true
        → member v ordered || member v ready ≡ (degree in_degree v == 0)
    pub nodes : (v : String) → member v ordered || member v ready ≡ true → member v ids ≡ true
    pub once : Distinct ordered
    pub queued : Distinct ready
    pub apart : (v : String) → member v ordered && member v ready ≡ false
    pub sorted : Ordered as_ [] ordered

  abbrev AllNodes : List String → Type 0
  AllNodes [] = Unit
  AllNodes (t ∷ ts) = (member t ids ≡ true) × AllNodes ts

  relax_one :
      (ready ordered : List String) (in_degree : Dict ℕ) (t : String) (ts : List String)
      → member t ids ≡ true
      → Inv ready ordered in_degree (t ∷ ts)
      → let n = degree in_degree t - 1 in
        Inv (if n == 0 then ready ++ t ∷ [] else ready) ordered (put t n in_degree) ts
  relax_one ready ordered in_degree t ts node i =
      let n = degree in_degree t - 1 in
      let positive : 0 < degree in_degree t =
        ground (arith, i.degrees t, into_from-le t ordered as_, eq_refl t) in
      let outside : member t ordered || member t ready ≡ false =
        ground (arith, i.zero_degree t node, positive) in
      record {
        degrees =
            λ v. ground (arith, i.degrees v, degree-put in_degree t n v, eq_iff t v, positive);
        zero_degree = λ v m. ground (
          arith,
          i.zero_degree v m,
          degree-put in_degree t n v,
          eq_iff t v,
          outside,
          positive,
          member-append v ready (t ∷ []),
        );
        nodes =
            λ v m. ground (arith, m, i.nodes v, eq_iff t v, node, member-append v ready (t ∷ []));
        once = i.once;
        queued =
            by_test (ready ++ t ∷ []) ready (n == 0)
              (Distinct-snoc t ready i.queued (ground (arith, outside))) i.queued;
        apart = λ v. ground (arith, i.apart v, eq_iff t v, outside, member-append v ready (t ∷ []));
        sorted = i.sorted;
      }
    where
      by_test :
          (xs ys : List String) (b : Bool)
          → Distinct xs
          → Distinct ys
          → Distinct (if b then xs else ys)
      by_test xs ys true p q = p
      by_test xs ys false p q = q

  relax-Inv :
      (ts ready ordered : List String) (in_degree : Dict ℕ)
      → AllNodes ts
      → Inv ready ordered in_degree ts
      → let (ready', in_degree') = relax ts ready in_degree in Inv ready' ordered in_degree' []
  unfolding relax
  relax-Inv [] ready ordered in_degree nodes i = i
  relax-Inv (t ∷ ts) ready ordered in_degree nodes i =
      relax-Inv ts _ ordered _ nodes.1 (relax_one ready ordered in_degree t ts nodes.0 i)

  pop-Inv :
      (id : String) (ready ordered : List String) (in_degree : Dict ℕ)
      → Inv (id ∷ ready) ordered in_degree []
      → Inv ready (ordered ++ id ∷ []) in_degree (targets id as_)
  pop-Inv id ready ordered in_degree i =
      let new : member id ordered ≡ false = ground (arith, i.apart id, eq_refl id) in
      let node : member id ids ≡ true = ground (arith, i.nodes id, eq_refl id) in
      let free : degree in_degree id ≡ 0 = ground (arith, i.zero_degree id node, eq_refl id) in
      record {
        degrees = λ v. omega (arith, i.degrees v, into_from-snoc v id ordered as_ new);
        zero_degree = λ v m. ground (arith, i.zero_degree v m, member-append v ordered (id ∷ []));
        nodes = λ v m. ground (arith, m, i.nodes v, member-append v ordered (id ∷ []));
        once = Distinct-snoc id ordered i.once new;
        queued = i.queued.1;
        apart = λ v.
            ground (arith, i.apart v, i.queued, eq_iff id v, member-append v ordered (id ∷ []));
        sorted =
            Ordered-snoc as_ [] ordered id i.sorted
              (all_sources id ordered as_ (omega (arith, i.degrees id, free)));
      }

  AllNodes-targets :
      (id : String) (es : List WorkflowEdge)
      → all (λ a. member a.to_node ids) es ≡ true
      → AllNodes (targets id es)
  AllNodes-targets id [] h = tt
  AllNodes-targets id (a ∷ es) h = elim (Bool-cases (str_eq a.from_node id)) [
    | inl e ↦ rw e (ground (arith, h), AllNodes-targets id es (ground (arith, h)))
    | inr e ↦ rw e (AllNodes-targets id es (ground (arith, h)))
  ]

  -- The order that is left: sorted, of nodes, and with every node all of whose sources are in it.
  pub record Final (ordered : List String) : Type 0 where
    pub nodes : (v : String) → member v ordered ≡ true → member v ids ≡ true
    pub once : Distinct ordered
    pub sorted : Ordered as_ [] ordered
    pub left_out :
        (v : String)
        → member v ids ≡ true
        → member v ordered ≡ false
        → source_outside as_ v ordered ≡ true

  no_more :
      (ordered : List String) (in_degree : Dict ℕ) → Inv [] ordered in_degree [] → Final ordered
  no_more ordered in_degree i = record {
    nodes = λ v m. i.nodes v (ground (arith, m));
    once = i.once;
    sorted = i.sorted;
    left_out = λ v m out.
        some_source v ordered as_
          (ground (arith, i.degrees v, i.zero_degree v m, out, into_from-le v ordered as_));
  }

  all_out :
      (id : String) (ready ordered : List String) (in_degree : Dict ℕ)
      → Inv (id ∷ ready) ordered in_degree []
      → length ordered < length ids
  all_out id ready ordered in_degree i =
      let j = pop-Inv id ready ordered in_degree i in
      omega (
        arith,
        length-append ordered (id ∷ []),
        length-le (ordered ++ id ∷ []) ids j.once (λ v m. j.nodes v (ground (arith, m))),
      )

  pub kahn-Final :
      (fuel : ℕ) (ready ordered : List String) (in_degree : Dict ℕ)
      → all (λ a. member a.to_node ids) as_ ≡ true
      → length ids ≤ fuel + length ordered
      → Inv ready ordered in_degree []
      → Final (kahn as_ fuel ready ordered in_degree)
  unfolding kahn
  kahn-Final zero [] ordered in_degree ends few i = no_more ordered in_degree i
  kahn-Final zero (id ∷ ready) ordered in_degree ends few i =
      absurd (omega (arith, all_out id ready ordered in_degree i))
  kahn-Final (suc fuel) [] ordered in_degree ends few i = no_more ordered in_degree i
  kahn-Final (suc fuel) (id ∷ ready) ordered in_degree ends few i =
      kahn-Final fuel _ (ordered ++ id ∷ []) _ ends (omega (arith, length-append ordered (id ∷ [])))
        (relax-Inv (targets id as_) ready (ordered ++ id ∷ []) in_degree
          (AllNodes-targets id as_ ends) (pop-Inv id ready ordered in_degree i))
