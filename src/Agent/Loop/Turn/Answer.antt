-- ===== src/Agent/Loop/Turn/Answer.antt =====
-- A round that ends with an answer, streamed or not (`run` and `_consume_answer_stream`).
use ai_platform_mini.Prelude.{
  ℕ, Option, none, some, List, [], ◌∷◌, ◌++◌, Text, codes, if◌then◌else◌,
}
use ai_platform_mini.Agent.Models.{
  RunStatus, StopReason, EventKind, Role, AgentDecision, ToolResult,
}
use ai_platform_mini.Agent.Events.{Run, bare, append_event, finish}
use ai_platform_mini.Agent.Checks.{Wait, await_controlled, is_empty}
use ai_platform_mini.Agent.Loop.Setting.{
  World, Options, Chunk, chunk, invalid, Ended, finished, Flow, go, halt, ◌>>=◌, on_error,
  value_or_end,
}

-- `state.steps.append(AgentStep(...))`
unfoldable pub add_step : ℕ → AgentDecision → List ToolResult → Run → Run
add_step step d results r = record r {
  state = record r.state {
    steps = r.state.steps ++ record { index = step; decision = d; tool_results = results } ∷ [];
  };
}

module _ (w : World) where
  -- The step and its STEP_COMPLETED event.
  unfoldable pub close_step : ℕ → AgentDecision → List ToolResult → Run → Run
  unfolding add_step
  close_step step d results r =
      append_event w.clock (add_step step d results r)
        (record (bare EventKind.step_completed) { step_index = some step })

  -- `parts` joined: `none` before the first part.
  abbrev pub joined : Option Text → Text → Text
  joined none t = t
  joined (some s) t = s ++ t

  abbrev pub end_stream : Run → Option Text → Flow (Run × Text)
  end_stream r none = halt (on_error w.clock r (codes "streaming answer returned no content"))
  end_stream r (some text) = go (r, text)

  -- One chunk, and then the rest of the stream.
  abbrev pub on_chunk :
      ℕ → Run → Option Text → (Run → Option Text → Flow (Run × Text)) → Chunk → Flow (Run × Text)
  on_chunk step r parts rest invalid =
      halt (on_error w.clock r (codes "streaming answer returned an invalid chunk"))
  on_chunk step r parts rest (chunk text) =
      if is_empty text
      then rest r parts
      else rest
          (append_event w.clock r
            (record (bare EventKind.answer_delta) { step_index = some step; message = some text }))
          (some (joined parts text))

  unfoldable pub consume : ℕ → List (Wait Chunk) → Run → Option Text → Flow (Run × Text)
  consume step [] r parts = end_stream r parts
  consume step (c ∷ cs) r parts =
      value_or_end w.clock r (await_controlled c) >>= on_chunk step r parts (consume step cs)

  abbrev pub open_stream : ℕ → Run → Option (List (Wait Chunk)) → Flow (Run × Text)
  open_stream step r none = halt (on_error w.clock r (codes "streaming answer is unavailable"))
  open_stream step r (some chunks) = consume step chunks r none

  -- `_consume_answer_stream`
  unfoldable pub consume_answer_stream : ℕ → Run → Flow (Run × Text)
  unfolding consume
  consume_answer_stream step r = open_stream step r (w.stream r.state)

module _ (w : World) (o : Options) where
  abbrev pub say : ℕ → Text → Run → Run
  say step answer r =
      let said = record r {
        state = record r.state {
          messages =
              r.state.messages
              ++ record {
                role = Role.assistant;
                content = answer;
                tool_call_id = none;
                tool_name = none;
              }
                ∷ [];
        };
      } in
      if o.stream_answer
      then said
      else append_event w.clock said
          (record (bare EventKind.answer) { step_index = some step; message = some answer })

  unfoldable pub conclude : ℕ → AgentDecision → Run × Text → Ended
  conclude step d (r, answer) = finished (
      finish w.clock (close_step w step d [] (say step answer r)) RunStatus.completed
        StopReason.direct_answer (some answer) none)

  abbrev pub end_of : (Run × Text → Ended) → Flow (Run × Text) → Ended
  end_of f (go x) = f x
  end_of f (halt e) = e

  unfoldable pub answer_turn : ℕ → AgentDecision → Text → Run → Ended
  unfolding conclude consume_answer_stream
  answer_turn step d answer r =
      end_of (conclude step d)
        (if o.stream_answer then consume_answer_stream w step r else go (r, answer))
