-- ===== src/Conversation/Bounds.antt =====
-- The context fits its limits (app/conversations/service.py).
use ai_platform_mini.Prelude.{
  ℕ, zero, suc, ◌+◌, ◌-◌, ◌/◌, ◌≤◌, ◌<◌, true, false, Option, none, some, List, [], ◌∷◌, ◌++◌, Text,
  length, take, leb, ltb, rstrip, ◌≡◌, refl, sym, ap, ◌∙◌, ◌⊎◌, inl, inr, arith, Bool-cases,
}
use ai_platform_mini.Conversation.Context.{
  ChatMessage, ConversationContext, Limits, context_fits, merge_system_prompt, longest_fitting,
  truncate_summary_to_budget, window, fit, build_summary, summary_or_none, build_short_term_context,
}

-- One list goes on with another.
abbrev pub EndsWith : List ChatMessage → List ChatMessage → Type 0
EndsWith xs ys = (before : List ChatMessage) × (xs ≡ before ++ ys)

append_assoc : (xs ys zs : List ChatMessage) → (xs ++ ys) ++ zs ≡ xs ++ (ys ++ zs)
append_assoc [] ys zs = refl
append_assoc (x ∷ xs) ys zs = ap (λ (r : List ChatMessage). x ∷ r) (append_assoc xs ys zs)

longer : (m : ChatMessage) (xs ys : List ChatMessage) → EndsWith xs ys → EndsWith (m ∷ xs) ys
longer m xs ys (before, e) = (m ∷ before, ap (λ (r : List ChatMessage). m ∷ r) e)

window-EndsWith :
    (limit : ℕ) (xs dropped : List ChatMessage)
    → EndsWith xs (window limit xs dropped).0 × (length (window limit xs dropped).0 ≤ limit)
unfolding window
window-EndsWith limit [] dropped = (([], refl), omega arith)
window-EndsWith limit (m ∷ ms) dropped = elim (Bool-cases (leb (length (m ∷ ms)) limit)) [
  | inl e ↦ rw (window, e) (([], refl), ground (arith, e))
  | inr e ↦
      let (w, n) = window-EndsWith limit ms (dropped ++ m ∷ []) in
      rw (window, e) (longer m ms (window limit ms (dropped ++ m ∷ [])).0 w, n)
]

module _ (l : Limits) (prompt : Option Text) where
  -- Whether a context is within the budget of tokens.
  abbrev pub Fits : ConversationContext → Type 0
  Fits c = context_fits l (merge_system_prompt prompt c.summary) c.history ≡ true

  -- What the search for the longest fitting summary gives, fits or is empty.
  longest-fits :
      (summary : Text) (fuel low above : ℕ) (best : Text)
      → (best ≡ []) ⊎ (context_fits l (merge_system_prompt prompt (some best)) [] ≡ true)
      → let s = longest_fitting l prompt summary fuel low above best in
        (s ≡ []) ⊎ (context_fits l (merge_system_prompt prompt (some s)) [] ≡ true)
  unfolding longest_fitting
  longest-fits summary zero low above best h = h
  longest-fits summary (suc fuel) low above best h =
      let mid = (low + (above - 1)) / 2 in
      let candidate = rstrip (take mid summary) in
      elim (Bool-cases (ltb low above)) [
        | inr e ↦ rw (longest_fitting, e) h
        | inl e ↦
            elim (Bool-cases (context_fits l (merge_system_prompt prompt (some candidate)) [])) [
              | inl q ↦
                  rw (longest_fitting, e, q)
                    (longest-fits summary fuel (mid + 1) above candidate (inr q))
              | inr q ↦ rw (longest_fitting, e, q) (longest-fits summary fuel low mid best h)
            ]
      ]

  -- The rounds of the search are no more than what lies between the two ends: with that much fuel,
  -- more fuel changes nothing.
  longest_fitting-fuel :
      (summary : Text) (fuel more low above : ℕ) (best : Text)
      → above ≤ low + fuel
      → above ≤ low + more
      → longest_fitting l prompt summary fuel low above best
        ≡ longest_fitting l prompt summary more low above best
  unfolding longest_fitting
  longest_fitting-fuel summary zero zero low above best f g = refl
  longest_fitting-fuel summary zero (suc more) low above best f g =
      let e : ltb low above ≡ false = ground (arith, f) in rw (longest_fitting, e) refl
  longest_fitting-fuel summary (suc fuel) zero low above best f g =
      let e : ltb low above ≡ false = ground (arith, g) in rw (longest_fitting, e) refl
  longest_fitting-fuel summary (suc fuel) (suc more) low above best f g =
      let mid = (low + (above - 1)) / 2 in
      let candidate = rstrip (take mid summary) in
      elim (Bool-cases (ltb low above)) [
        | inr e ↦ rw (longest_fitting, e) refl
        | inl e ↦
            let lower : low < above = ground (arith, e) in
            elim (Bool-cases (context_fits l (merge_system_prompt prompt (some candidate)) [])) [
              | inl q ↦
                  rw (longest_fitting, e, q)
                    (longest_fitting-fuel summary fuel more (mid + 1) above candidate (omega arith)
                      (omega arith))
              | inr q ↦
                  rw (longest_fitting, e, q)
                    (longest_fitting-fuel summary fuel more low mid best (omega arith)
                      (omega arith))
            ]
      ]

  -- The search ends by itself: any more fuel gives the same summary.
  pub truncation_ends :
      (summary : Text) (more : ℕ)
      → length summary + 1 ≤ more
      → truncate_summary_to_budget l prompt summary
        ≡ longest_fitting l prompt summary more 0 (length summary + 1) []
  unfolding truncate_summary_to_budget
  truncation_ends summary more h =
      longest_fitting-fuel summary (length summary + 1) more 0 (length summary + 1) [] (omega arith)
        (omega arith)

  -- A context that fits, or one that has nothing but the system prompt.
  abbrev FitsOrBare : ConversationContext → Type 0
  FitsOrBare c = Fits c ⊎ ((c.history ≡ []) × (c.summary ≡ none))

  shortened :
      (s : Text)
      → (s ≡ []) ⊎ (context_fits l (merge_system_prompt prompt (some s)) [] ≡ true)
      → FitsOrBare (record { history = []; summary = summary_or_none s })
  shortened [] h = inr (refl, refl)
  shortened (c ∷ s) (inl e) = cc
  shortened (c ∷ s) (inr e) = inl e

  fit_empty :
      (summary : Option Text) (dropped : List ChatMessage)
      → FitsOrBare (fit l prompt [] dropped summary)
  unfolding fit truncate_summary_to_budget
  fit_empty summary dropped =
      elim (Bool-cases (context_fits l (merge_system_prompt prompt summary) [])) [
        | inl e ↦ rw (fit, e) (inl e)
        | inr e ↦ rw (fit, e) (by_summary summary)
      ]
    where
      by_summary :
          (o : Option Text)
          → FitsOrBare (record {
            history = [];
            summary = elim o [
              | none ↦ none
              | some s ↦ summary_or_none (truncate_summary_to_budget l prompt s)
            ];
          })
      by_summary none = inr (refl, refl)
      by_summary (some s) =
          shortened (truncate_summary_to_budget l prompt s)
            (longest-fits s (length s + 1) 0 (length s + 1) [] (inl refl))

  fit_history :
      (dropped : List ChatMessage) (summary : Option Text)
      → (fit l prompt [] dropped summary).history ≡ []
  unfolding fit
  fit_history dropped summary = ground arith

  fit_lem :
      (kept dropped : List ChatMessage) (summary : Option Text)
      → let c = fit l prompt kept dropped summary in
        EndsWith kept c.history × (length c.history ≤ length kept) × FitsOrBare c
  unfolding fit
  fit_lem [] dropped summary =
      let e = fit_history dropped summary in
      (([], sym e), ground (arith, e), fit_empty summary dropped)
  fit_lem (m ∷ ms) dropped summary =
      elim (Bool-cases (context_fits l (merge_system_prompt prompt summary) (m ∷ ms))) [
        | inl e ↦ rw (fit, e) (([], refl), omega arith, inl e)
        | inr e ↦
            let (w, n, f) = fit_lem ms (m ∷ dropped) (build_summary l (m ∷ dropped)) in
            rw (fit, e) (longer m ms _ w, omega (arith, n), f)
      ]

-- The short-term context keeps the last messages of the history, no more than the limit, and with
-- the summary of the others it is within the budget of tokens; or else nothing of the history is
-- kept, not even a summary.
pub build_short_term_context_lem :
    (l : Limits) (history : List ChatMessage) (prompt : Option Text)
    → let c = build_short_term_context l history prompt in
      ((before : List ChatMessage) × (history ≡ before ++ c.history))
      × (length c.history ≤ l.context_limit)
      × ((context_fits l (merge_system_prompt prompt c.summary) c.history ≡ true)
          ⊎ ((c.history ≡ []) × (c.summary ≡ none)))
unfolding build_short_term_context
build_short_term_context_lem l history prompt =
    let kept = (window l.context_limit history []).0 in
    let dropped = (window l.context_limit history []).1 in
    let ((before, e), n) = window-EndsWith l.context_limit history [] in
    let ((between, f), m, fits) = fit_lem l prompt kept dropped (build_summary l dropped) in
    let c = fit l prompt kept dropped (build_summary l dropped) in
    (
      (
        before ++ between,
        e
            ∙ ap (λ (r : List ChatMessage). before ++ r) f
            ∙ sym (append_assoc before between c.history),
      ),
      omega (arith, n, m),
      fits,
    )
