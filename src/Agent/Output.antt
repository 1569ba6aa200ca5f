-- ===== src/Agent/Output.antt =====
-- Bounds on what a tool may put into the state, and the reuse of earlier results.
use ai_platform_mini.Prelude.{
  ◌≡◌, true, ◌&&◌, some, List, [], ◌∷◌, arith, Option-cases, Bool-cases, inl, inr, ◌⊎◌,
}
use ai_platform_mini.Agent.Models.{AgentStep, ToolCall, ToolResult}
use ai_platform_mini.Agent.Tools.{same_fingerprint, cached_in_step, find_cached_tool_result}

-- A result that is found is a success, and the result of an earlier call of the same name and
-- arguments: some step of the state holds the two at the same position.
abbrev pub Answers : ToolCall → ToolResult → List ToolCall → List ToolResult → Type 0
Answers call x [] rs = ⊥
Answers call x (c ∷ cs) [] = ⊥
Answers call x (c ∷ cs) (r ∷ rs) =
    ((same_fingerprint c call ≡ true) × (r ≡ x)) ⊎ Answers call x cs rs

abbrev pub Answered : ToolCall → ToolResult → List AgentStep → Type 0
Answered call x [] = ⊥
Answered call x (s ∷ ss) = Answers call x s.decision.tool_calls s.tool_results ⊎ Answered call x ss

cached_in_step_lem :
    (call : ToolCall) (cs : List ToolCall) (rs : List ToolResult) (x : ToolResult)
    → cached_in_step call cs rs ≡ some x
    → (x.succeeded ≡ true) × Answers call x cs rs
unfolding cached_in_step
cached_in_step_lem call [] rs x h = cc
cached_in_step_lem call (c ∷ cs) [] x h = cc
cached_in_step_lem call (c ∷ cs) (r ∷ rs) x h =
    elim (Bool-cases (r.succeeded && same_fingerprint c call)) [
      | inl e ↦ (ground arith, inl (ground arith, ground arith))
      | inr e ↦ let (s, a) = cached_in_step_lem call cs rs x (ground arith) in (s, inr a)
    ]

-- A tool result that is found in the earlier steps succeeded, and it is the result of a call with
-- the same name and the same arguments.
pub find_cached_tool_result_lem :
    (call : ToolCall) (steps : List AgentStep) (x : ToolResult)
    → find_cached_tool_result call steps ≡ some x
    → (x.succeeded ≡ true) × Answered call x steps
unfolding find_cached_tool_result
find_cached_tool_result_lem call [] x h = cc
find_cached_tool_result_lem call (s ∷ ss) x h =
    elim (Option-cases (cached_in_step call s.decision.tool_calls s.tool_results)) [
      | inl e ↦ let (a, b) = find_cached_tool_result_lem call ss x (ground arith) in (a, inr b)
      | inr (r, e) ↦
          let (a, b) =
            cached_in_step_lem call s.decision.tool_calls s.tool_results x (ground arith) in
          (a, inl b)
    ]
