-- ===== src/Conversation/Context.antt =====
-- The short-term context of a conversation: `merge_history`, `build_short_term_context` and what
-- they call (app/conversations/service.py), with the estimate of app/quota/token_estimator.py.
use ai_platform_mini.Prelude.{
  ℕ, zero, suc, ◌+◌, ◌-◌, ◌/◌, ◌%◌, max, String, Bool, true, false, Option, none, some, List, [],
  ◌∷◌, ◌++◌, Text, codes, take, length, leb, ltb, ◌==◌, is_space, is_blank, rstrip, if◌then◌else◌,
}

pub record ChatMessage : Type 0 where
  pub role : String
  pub content : Text

pub record ConversationContext : Type 0 where
  pub history : List ChatMessage
  pub summary : Option Text

-- What the constructor leaves of its limits.
pub record Limits : Type 0 where
  pub context_limit : ℕ
  pub context_max_prompt_tokens : ℕ
  pub context_summary_max_chars : ℕ

unfoldable pub limits : ℕ → ℕ → ℕ → Limits
limits context_limit context_max_prompt_tokens context_summary_max_chars = record {
  context_limit = context_limit;
  context_max_prompt_tokens = max context_max_prompt_tokens 100;
  context_summary_max_chars = max context_summary_max_chars 100;
}

-- `len(s.encode("utf-8"))`
abbrev pub utf8_length : Text → ℕ
utf8_length [] = 0
utf8_length (c ∷ s) =
    let rest = utf8_length s in
    (if ltb c 128 then 1 else (if ltb c 2048 then 2 else (if ltb c 65536 then 3 else 4))) + rest

-- `estimate_prompt_tokens`: 2 for the reply, and 4 for each message besides its bytes
abbrev pub message_tokens : List (Text × Text) → ℕ
message_tokens [] = 0
message_tokens (m ∷ ms) = utf8_length m.0 + utf8_length m.1 + 4 + message_tokens ms

unfoldable pub estimate_prompt_tokens : List (Text × Text) → ℕ
estimate_prompt_tokens messages = 2 + message_tokens messages

abbrev pub pairs : List ChatMessage → List (Text × Text)
pairs [] = []
pairs (m ∷ ms) = (codes m.role, m.content) ∷ pairs ms

-- A system prompt that is empty adds no message.
abbrev pub system_pairs : Option Text → List (Text × Text)
system_pairs none = []
system_pairs (some []) = []
system_pairs (some (c ∷ s)) = (codes "system", c ∷ s) ∷ []

unfoldable pub context_fits : Limits → Option Text → List ChatMessage → Bool
unfolding estimate_prompt_tokens
context_fits l system_prompt history =
    leb (estimate_prompt_tokens (system_pairs system_prompt ++ pairs history))
      l.context_max_prompt_tokens

unfoldable pub merge_system_prompt : Option Text → Option Text → Option Text
merge_system_prompt system_prompt none = system_prompt
merge_system_prompt none (some summary) = some summary
merge_system_prompt (some prompt) (some summary) =
    if is_blank prompt then some summary else some (rstrip prompt ++ (10 ∷ 10 ∷ []) ++ summary)

-- `_truncate_text`, for a limit above 1; 8230 is the ellipsis.
unfoldable pub truncate_text : Text → ℕ → Text
truncate_text text limit =
    if leb (length text) limit
    then text
    else (if leb limit 1 then take limit text else rstrip (take (limit - 1) text) ++ 8230 ∷ [])

-- `" ".join(content.split())`; `word` is the word that is being read.
abbrev pub close : Text → List Text → List Text
close [] words = words
close (c ∷ s) words = (c ∷ s) ∷ words

unfoldable pub split : Text → Text → List Text
split word [] = close word []
split word (c ∷ s) = if is_space c then close word (split [] s) else split (word ++ c ∷ []) s

unfoldable pub join : Text → List Text → Text
join separator [] = []
join separator (w ∷ []) = w
join separator (w ∷ v ∷ ws) = w ++ separator ++ join separator (v ∷ ws)

unfoldable pub summarize_message : Text → Text
unfolding split join
summarize_message content =
    let normalized = join (32 ∷ []) (split [] content) in
    if leb (length normalized) 160 then normalized else rstrip (take 159 normalized) ++ 8230 ∷ []

-- The digits of a number; its own size is fuel enough.
abbrev pub decimal : ℕ → ℕ → Text
decimal zero n = (48 + n % 10) ∷ []
decimal (suc fuel) n =
    let rest = decimal fuel (n / 10) in
    if ltb n 10 then (48 + n) ∷ [] else rest ++ (48 + n % 10) ∷ []

unfoldable pub summary_lines : List ChatMessage → List Text
unfolding summarize_message
summary_lines [] = []
summary_lines (m ∷ ms) =
    (codes "- " ++ codes m.role ++ codes ": " ++ summarize_message m.content) ∷ summary_lines ms

unfoldable pub build_summary : Limits → List ChatMessage → Option Text
unfolding summary_lines join truncate_text
build_summary l [] = none
build_summary l (m ∷ ms) =
    let n = length (m ∷ ms) in
    let header =
      codes "Earlier conversation summary ("
      ++ decimal n n
      ++ codes " message"
      ++ (if n == 1 then [] else codes "s")
      ++ codes " omitted):" in
    some
      (truncate_text (join (10 ∷ []) (header ∷ summary_lines (m ∷ ms))) l.context_summary_max_chars)

-- The loop of `_truncate_summary_to_budget`: `above` is `high + 1`, and each round halves what lies
-- between `low` and it.
unfoldable pub longest_fitting : Limits → Option Text → Text → ℕ → ℕ → ℕ → Text → Text
unfolding merge_system_prompt context_fits
longest_fitting l prompt summary zero low above best = best
longest_fitting l prompt summary (suc fuel) low above best =
    let mid = (low + (above - 1)) / 2 in
    let candidate = rstrip (take mid summary) in
    elim (ltb low above) [
      | false ↦ best
      | true ↦ elim (context_fits l (merge_system_prompt prompt (some candidate)) []) [
        | true ↦ longest_fitting l prompt summary fuel (mid + 1) above candidate
        | false ↦ longest_fitting l prompt summary fuel low mid best
      ]
    ]

unfoldable pub truncate_summary_to_budget : Limits → Option Text → Text → Text
unfolding longest_fitting
truncate_summary_to_budget l prompt summary =
    longest_fitting l prompt summary (length summary + 1) 0 (length summary + 1) []

-- `while len(kept) > self._context_limit`
unfoldable pub window :
    ℕ → List ChatMessage → List ChatMessage → List ChatMessage × List ChatMessage
window limit [] dropped = ([], dropped)
window limit (m ∷ ms) dropped =
    if leb (length (m ∷ ms)) limit then (m ∷ ms, dropped) else window limit ms (dropped ++ m ∷ [])

abbrev pub summary_or_none : Text → Option Text
summary_or_none [] = none
summary_or_none (c ∷ s) = some (c ∷ s)

-- `while True`, whose rounds drop a message each
unfoldable pub fit :
    Limits → Option Text → List ChatMessage → List ChatMessage → Option Text → ConversationContext
unfolding build_summary truncate_summary_to_budget
fit l prompt [] dropped summary =
    if context_fits l (merge_system_prompt prompt summary) []
    then record { history = []; summary = summary }
    else record {
      history = [];
      summary = elim summary [
        | none ↦ none
        | some s ↦ summary_or_none (truncate_summary_to_budget l prompt s)
      ];
    }
fit l prompt (m ∷ ms) dropped summary =
    let rest = fit l prompt ms (m ∷ dropped) (build_summary l (m ∷ dropped)) in
    if context_fits l (merge_system_prompt prompt summary) (m ∷ ms)
    then record { history = m ∷ ms; summary = summary }
    else rest

unfoldable pub build_short_term_context :
    Limits → List ChatMessage → Option Text → ConversationContext
unfolding window fit
build_short_term_context l history prompt =
    let (kept, dropped) = window l.context_limit history [] in
    fit l prompt kept dropped (build_summary l dropped)
