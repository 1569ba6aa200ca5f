-- ===== src/Conversation/History.antt =====
-- How the history of a thread and that of the client are merged: `merge_history` and
-- `_drop_retried_turn` (app/conversations/service.py).
use ai_platform_mini.Prelude.{
  ℕ, zero, suc, ◌<◌, String, Bool, true, false, not, ◌&&◌, Option, none, some, List, [], ◌∷◌, ◌++◌,
  Text, any, keep, take, drop, length, str_eq, text_eq, member, ◌≡◌, refl, subst, ◌==◌, ◌⊎◌, inl,
  inr, arith, Bool-cases, Option-cases, if◌then◌else◌,
}
use ai_platform_mini.Conversation.Context.{ChatMessage}

pub record ConversationMessage : Type 0 where
  pub id : ℕ
  pub thread_id : String
  pub role : String
  pub content : Text
  pub token_count : ℕ
  pub created_at : Option ℕ

abbrev pub valid_roles : List String
valid_roles = "system" ∷ "user" ∷ "assistant" ∷ []

abbrev pub from_server : List ConversationMessage → List ChatMessage
from_server [] = []
from_server (m ∷ ms) =
    let rest = from_server ms in
    if member m.role valid_roles then record { role = m.role; content = m.content } ∷ rest else rest

abbrev pub is_seen : List ChatMessage → ChatMessage → Bool
is_seen seen m = any (λ s. str_eq s.role m.role && text_eq s.content m.content) seen

abbrev pub is_user : ChatMessage → Bool
is_user m = str_eq m.role "user"

abbrev pub is_retry : Text → ChatMessage → Bool
is_retry current m = is_user m && text_eq m.content current

abbrev pub at : ℕ → List ChatMessage → Option ChatMessage
at i [] = none
at zero (m ∷ ms) = some m
at (suc i) (m ∷ ms) = at i ms

-- The loop of `_drop_retried_turn`, from the index below a number down to 0
unfoldable pub drop_from : List ChatMessage → Text → ℕ → List ChatMessage
drop_from merged current zero = merged
drop_from merged current (suc index) = elim (at index merged) [
  | none ↦ drop_from merged current index
  | some m ↦ elim (is_retry current m) [
    | false ↦ drop_from merged current index
    | true ↦ if any is_user (drop (suc index) merged) then merged else take index merged
  ]
]

unfoldable pub drop_retried_turn : List ChatMessage → Text → List ChatMessage
unfolding drop_from
drop_retried_turn merged current = drop_from merged current (length merged)

unfoldable pub merge_history :
    List ConversationMessage → List ChatMessage → Option Text → List ChatMessage
unfolding drop_retried_turn
merge_history server client current =
    let merged = from_server server ++ keep (λ m. not (is_seen (from_server server) m)) client in
    elim current [ none ↦ merged | some content ↦ drop_retried_turn merged content ]

-- The last user message of a history is at an index, and it is the current one.
pub record IsRetried (merged : List ChatMessage) (current : Text) (i : ℕ) : Type 0 where
  pub message : ChatMessage
  pub there : at i merged ≡ some message
  pub retried : is_retry current message ≡ true
  pub last : any is_user (drop (suc i) merged) ≡ false

no_user_behind :
    (xs : List ChatMessage) (i j : ℕ) (m : ChatMessage)
    → i < j
    → at j xs ≡ some m
    → any is_user (drop (suc i) xs) ≡ false
    → is_user m ≡ false
no_user_behind [] i j m l e h = cc
no_user_behind (x ∷ xs) i zero m l e h = absurd (omega arith)
no_user_behind (x ∷ []) zero (suc j) m l e h = cc
no_user_behind (x ∷ y ∷ xs) zero (suc zero) m l e h = ground (arith, e, h)
no_user_behind (x ∷ y ∷ xs) zero (suc (suc j)) m l e h =
    no_user_behind (y ∷ xs) zero (suc j) m (omega arith) e (ground (arith, h))
no_user_behind (x ∷ xs) (suc i) (suc j) m l e h = no_user_behind xs i j m (omega arith) e h

cuts_before :
    (merged : List ChatMessage) (current : Text) (i : ℕ)
    → IsRetried merged current i
    → (n : ℕ) → i < n
    → drop_from merged current n ≡ take i merged
unfolding drop_from
cuts_before merged current i r zero l = absurd (omega arith)
cuts_before merged current i r (suc k) l = elim (Bool-cases (i == k)) [
  | inl e ↦
      let same : i ≡ k = ground (arith, e) in
      subst (λ j. drop_from merged current (suc j) ≡ take i merged) same
        (rw (drop_from, r.there, r.retried, r.last) refl)
  | inr e ↦
      let rest = cuts_before merged current i r k (ground (arith, e)) in
      elim (Option-cases (at k merged)) [
        | inl q ↦ rw (drop_from, q) rest
        | inr (m, q) ↦
            let u = no_user_behind merged i k m (ground (arith, e)) q r.last in
            let f : is_retry current m ≡ false = ground (arith, u) in rw (drop_from, q, f) rest
      ]
]

-- The loop changes nothing, or it drops a turn that is retried.
keeps_or_cuts :
    (merged : List ChatMessage) (current : Text) (n : ℕ)
    → (drop_from merged current n ≡ merged)
      ⊎ ((i : ℕ) × IsRetried merged current i × (drop_from merged current n ≡ take i merged))
unfolding drop_from
keeps_or_cuts merged current zero = inl refl
keeps_or_cuts merged current (suc k) = elim (Option-cases (at k merged)) [
  | inl q ↦ rw (drop_from, q) (keeps_or_cuts merged current k)
  | inr (m, q) ↦ elim (Bool-cases (is_retry current m)) [
    | inr f ↦ rw (drop_from, q, f) (keeps_or_cuts merged current k)
    | inl f ↦ elim (Bool-cases (any is_user (drop (suc k) merged))) [
      | inl u ↦ rw (drop_from, q, f, u) (inl refl)
      | inr u ↦
          rw (drop_from, q, f, u)
            (inr (k, record { message = m; there = q; retried = f; last = u }, refl))
    ]
  ]
]

index_in_bounds :
    (i : ℕ) (xs : List ChatMessage) (m : ChatMessage) → at i xs ≡ some m → i < length xs
index_in_bounds i [] m h = cc
index_in_bounds zero (x ∷ xs) m h = omega arith
index_in_bounds (suc i) (x ∷ xs) m h = omega (arith, index_in_bounds i xs m h)

-- What is done with the current message: where the last user message of the merged history repeats
-- it, the history ends before that message; where it does not, the history is the one without a
-- current message.
pub merge_history_lem :
    (server : List ConversationMessage) (client : List ChatMessage) (current : Text)
    → let merged = merge_history server client none in
      ((i : ℕ)
        → IsRetried merged current i
        → merge_history server client (some current) ≡ take i merged)
      × (((i : ℕ) → IsRetried merged current i → ⊥)
          → merge_history server client (some current) ≡ merged)
unfolding merge_history drop_retried_turn
merge_history_lem server client current =
    let merged = merge_history server client none in
    (
      λ i r.
          cuts_before merged current i r (length merged)
            (index_in_bounds i merged r.message r.there),
      λ none_is. elim (keeps_or_cuts merged current (length merged)) [
        | inl e ↦ e
        | inr (i, r, _) ↦ absurd (none_is i r)
      ],
    )
