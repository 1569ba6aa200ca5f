-- ===== src/Agent/Outcomes/Answers.antt =====
-- The invariant through a round that answers.
use ai_platform_mini.Prelude.{ℕ, suc, ◌≤◌, refl, Option, none, some, List, [], Text, if_both}
use ai_platform_mini.Agent.Models.{AgentDecision}
use ai_platform_mini.Agent.Events.{Run}
use ai_platform_mini.Agent.Checks.{Wait}
use ai_platform_mini.Agent.Loop.Setting.{World, Options, Chunk, Flow, go, halt}
use ai_platform_mini.Agent.Loop.Turn.Answer.{
  say, end_of, conclude, answer_turn, consume_answer_stream, open_stream,
}
use ai_platform_mini.Agent.Outcomes.{
  IsRunning, EndsSound, Ensures, append_event-IsRunning, running_finish, on_error_sound,
}
use ai_platform_mini.Agent.Outcomes.Pieces.{few, close_step-IsRunning, consume-Ensures}

module _ (w : World) (o : Options) (bound k : ℕ) (room : suc k ≤ bound) where
  say-IsRunning :
      (step : ℕ) (answer : Text) (r : Run) → IsRunning o k r → IsRunning o k (say w o step answer r)
  say-IsRunning step answer r i =
      let said : IsRunning o k (record r { state = record r.state { messages = _ } }) = record {
        log = i.log;
        steps = i.steps;
        within = i.within;
      } in
      if_both (IsRunning o k) o.stream_answer _ _ said
        (append_event-IsRunning w.clock o bound k _ _ refl said)

  stream-Ensures :
      (step : ℕ) (r : Run)
      → IsRunning o k r
      → Ensures o bound (λ x. IsRunning o k x.0) (consume_answer_stream w step r)
  unfolding consume_answer_stream
  stream-Ensures step r i = by_stream (w.stream r.state)
    where
      by_stream :
          (s : Option (List (Wait Chunk)))
          → Ensures o bound (λ x. IsRunning o k x.0) (open_stream w step r s)
      by_stream none = on_error_sound w.clock o bound k (few w o bound k room) r i _
      by_stream (some chunks) = consume-Ensures w o bound k room step chunks r none i

  pub answer_turn_sound :
      (step : ℕ) (d : AgentDecision) (answer : Text) (r : Run)
      → IsRunning o k r
      → EndsSound o bound (answer_turn w o step d answer r)
  unfolding answer_turn conclude
  answer_turn_sound step d answer r i =
      if_both (λ m. EndsSound o bound (end_of w o (conclude w o step d) m)) o.stream_answer
        (consume_answer_stream w step r) (go (r, answer))
        (by_flow (consume_answer_stream w step r) (stream-Ensures step r i)) (concluded r answer i)
    where
      concluded :
          (r' : Run) (a : Text) → IsRunning o k r' → EndsSound o bound (conclude w o step d (r', a))
      concluded r' a i' =
          running_finish w.clock o bound (suc k) room _
            (close_step-IsRunning w o bound k room step d [] _ (say-IsRunning step a r' i')) _ _
            (some a) none refl

      by_flow :
          (m : Flow (Run × Text))
          → Ensures o bound (λ x. IsRunning o k x.0) m
          → EndsSound o bound (end_of w o (conclude w o step d) m)
      by_flow (go (r', a)) h = concluded r' a h
      by_flow (halt e) h = h
