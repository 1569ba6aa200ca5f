-- ===== src/Conversation/Tests.antt =====
-- A conversation of three messages, each with one letter and many spaces, of which the budget has
-- room for one.
use ai_platform_mini.Prelude.{
  ℕ, take, text_eq, ◌≤◌, ◌≡◌, refl, ◌⊎◌, none, some, true, List, [], ◌∷◌, ◌++◌, Text, codes, length,
  is_space, is_blank, skip_space, rstrip,
}
use ai_platform_mini.Conversation.Context.{
  ChatMessage, Limits, limits, context_fits, merge_system_prompt, build_short_term_context,
  build_summary, window, fit, estimate_prompt_tokens, summary_lines, summarize_message, split, join,
  truncate_text,
}
use ai_platform_mini.Conversation.History.{
  ConversationMessage, IsRetried, merge_history, drop_retried_turn, drop_from, merge_history_lem,
}
use ai_platform_mini.Conversation.Bounds.{build_short_term_context_lem}

abbrev said : Text → ChatMessage
said letter = record {
  role = "user";
  content =
      letter
      ++ codes
          "                                                                                                                                                      ";
}

abbrev history : List ChatMessage
history = said (codes "a") ∷ said (codes "b") ∷ said (codes "c") ∷ []

abbrev bounds : Limits
bounds = limits 12 300 2000

-- The summary names the messages that were dropped for the budget from the last to the first.
turned : build_short_term_context bounds history none ≡ record {
  history = said (codes "c") ∷ [];
  summary = some (
      codes "Earlier conversation summary (2 messages omitted):"
      ++ (10 ∷ codes "- user: b")
      ++ (10 ∷ codes "- user: a"));
}
unfolding build_short_term_context window fit context_fits merge_system_prompt build_summary limits
    estimate_prompt_tokens summary_lines summarize_message split join truncate_text is_space
    is_blank skip_space rstrip
turned = refl

build_short_term_context_lem_example :
    let c = build_short_term_context bounds history none in
    ((before : List ChatMessage) × (history ≡ before ++ c.history))
    × (length c.history ≤ bounds.context_limit)
    × ((context_fits bounds (merge_system_prompt none c.summary) c.history ≡ true)
        ⊎ ((c.history ≡ []) × (c.summary ≡ none)))
build_short_term_context_lem_example = build_short_term_context_lem bounds history none

abbrev server : List ConversationMessage
server =
    record {
      id = 1;
      thread_id = "t";
      role = "user";
      content = codes "hi";
      token_count = 0;
      created_at = some 1;
    }
    ∷ record {
      id = 2;
      thread_id = "t";
      role = "tool";
      content = codes "x";
      token_count = 0;
      created_at = some 1;
    }
    ∷ []

abbrev client : List ChatMessage
client =
    record { role = "user"; content = codes "hi" }
    ∷ record { role = "user"; content = codes "again" }
    ∷ record { role = "assistant"; content = codes "yes?" }
    ∷ []

-- The repeated greeting is merged away, and the turn that is retried is dropped.
merges :
    merge_history server client (some (codes "again"))
    ≡ record { role = "user"; content = codes "hi" } ∷ []
unfolding merge_history drop_retried_turn drop_from text_eq
merges = refl

merge_history_lem_example :
    let merged = merge_history server client none in
    ((i : ℕ)
      → IsRetried merged (codes "again") i
      → merge_history server client (some (codes "again")) ≡ take i merged)
    × (((i : ℕ) → IsRetried merged (codes "again") i → ⊥)
        → merge_history server client (some (codes "again")) ≡ merged)
merge_history_lem_example = merge_history_lem server client (codes "again")
