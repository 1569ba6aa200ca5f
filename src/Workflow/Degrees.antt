-- ===== src/Workflow/Degrees.antt =====
-- The arcs into a node, and those of them that come from a set of nodes.
use ai_platform_mini.Prelude.{
  ℕ, ◌+◌, ◌≤◌, ◌<◌, ◌≡◌, refl, String, Bool, true, false, not, ◌&&◌, ◌||◌, List, [], ◌∷◌, ◌++◌, all,
  any, str_eq, eq_iff, arith, if◌then◌else◌, member, member-append,
}
use ai_platform_mini.Prelude.Dict.{Dict, get, put, get-put}
use ai_platform_mini.Workflow.Graph.{WorkflowEdge}
use ai_platform_mini.Workflow.Order.{degree, targets, count_arcs, zeros}

abbrev pub into : String → List WorkflowEdge → ℕ
into v [] = 0
into v (a ∷ as_) = (if str_eq a.to_node v then 1 else 0) + into v as_

abbrev pub into_from : String → List String → List WorkflowEdge → ℕ
into_from v from [] = 0
into_from v from (a ∷ as_) =
    (if str_eq a.to_node v && member a.from_node from then 1 else 0) + into_from v from as_

abbrev pub occurrences : String → List String → ℕ
occurrences v [] = 0
occurrences v (t ∷ ts) = (if str_eq t v then 1 else 0) + occurrences v ts

-- Every arc into `v` comes from these nodes; some arc into `v` comes from elsewhere.
abbrev pub sources_in : List WorkflowEdge → String → List String → Bool
sources_in as_ v from = all (λ a. not (str_eq a.to_node v) || member a.from_node from) as_

abbrev pub source_outside : List WorkflowEdge → String → List String → Bool
source_outside as_ v from = any (λ a. str_eq a.to_node v && not (member a.from_node from)) as_

pub into_from-le :
    (v : String) (from : List String) (as_ : List WorkflowEdge) → into_from v from as_ ≤ into v as_
into_from-le v from [] = omega arith
into_from-le v from (a ∷ as_) = ground (arith, into_from-le v from as_)

pub all_sources :
    (v : String) (from : List String) (as_ : List WorkflowEdge)
    → into_from v from as_ ≡ into v as_
    → sources_in as_ v from ≡ true
all_sources v from [] h = refl
all_sources v from (a ∷ as_) h = ground (arith, into_from-le v from as_, all_sources v from as_)

pub some_source :
    (v : String) (from : List String) (as_ : List WorkflowEdge)
    → into_from v from as_ < into v as_
    → source_outside as_ v from ≡ true
some_source v from [] h = absurd (omega arith)
some_source v from (a ∷ as_) h = ground (arith, some_source v from as_)

-- One more source node adds its own arcs.
pub into_from-snoc :
    (v id : String) (from : List String) (as_ : List WorkflowEdge)
    → member id from ≡ false
    → into_from v (from ++ id ∷ []) as_ ≡ into_from v from as_ + occurrences v (targets id as_)
into_from-snoc v id from [] h = refl
into_from-snoc v id from (a ∷ as_) h = ground (
  arith,
  into_from-snoc v id from as_ h,
  member-append a.from_node from (id ∷ []),
  eq_iff a.from_node id,
  eq_iff id a.from_node,
)

pub into_from_none : (v : String) (as_ : List WorkflowEdge) → into_from v [] as_ ≡ 0
into_from_none v [] = refl
into_from_none v (a ∷ as_) = ground (arith, into_from_none v as_)

pub degree-put :
    (d : Dict ℕ) (t : String) (n : ℕ) (v : String)
    → degree (put t n d) v ≡ (if str_eq t v then n else degree d v)
degree-put d t n v = ground (arith, get-put t v n d)

pub degree-zeros : (ids : List String) (v : String) → degree (zeros ids) v ≡ 0
unfolding get
degree-zeros [] v = refl
degree-zeros (id ∷ ids) v = ground (arith, degree-zeros ids v)

pub degree-count_arcs :
    (as_ : List WorkflowEdge) (d : Dict ℕ) (v : String)
    → degree (count_arcs as_ d) v ≡ degree d v + into v as_
unfolding count_arcs
degree-count_arcs [] d v = omega arith
degree-count_arcs (a ∷ as_) d v = ground (
  arith,
  degree-count_arcs as_ (put a.to_node (degree d a.to_node + 1) d) v,
  degree-put d a.to_node (degree d a.to_node + 1) v,
  eq_iff a.to_node v,
)
