-- ===== src/Usage/Totals.antt =====
-- What a recorded usage adds to the totals that the quota reads.
use ai_platform_mini.Prelude.{
  ℕ, ◌+◌, ◌-◌, ◌≡◌, refl, String, true, Option, none, some, List, [], ◌∷◌, ◌++◌, length,
  length-append, keep, ltb, if◌then◌else◌, Text, text_eq, text_eq_refl, text_eq_sound, sum_of,
  sum_of-append, arith, Bool-cases, inl, inr,
}
use ai_platform_mini.Prelude.Dict.{Dict, get, put}
use ai_platform_mini.Usage.{UsageRecord, UsageAggregation, total_of}
use ai_platform_mini.Usage.Memory.{
  Repository, Daily, latest, max_records, find_day, put_day, count_in, or_new, raised_by,
  cleanup_old_daily, is_stale, day_key, key_of, counted, record_usage, values,
  get_total_tokens_for_key, get_total_tokens_for_workspace, of_workspace_day,
}

abbrev tokens_or_zero : Option UsageAggregation → ℕ
tokens_or_zero none = 0
tokens_or_zero (some a) = a.total_tokens

total_of-put :
    (m : String) (a : UsageAggregation) (d : Dict UsageAggregation)
    → total_of (values (put m a d)) + tokens_or_zero (get m d)
      ≡ total_of (values d) + a.total_tokens
unfolding get put
total_of-put m a [] = omega arith
total_of-put m a ((k, b) ∷ d) = ground (arith, total_of-put m a d)

total_of-count_in :
    (x : UsageRecord) (d : Dict UsageAggregation)
    → total_of (values (count_in x d)) ≡ total_of (values d) + x.total_tokens
unfolding count_in
total_of-count_in x d =
    ground (arith, total_of-put x.model (raised_by x (or_new x.model (get x.model d))) d)

find_day-put_day :
    (j k : Text) (v : Dict UsageAggregation) (ds : Daily)
    → find_day j (put_day k v ds) ≡ (if text_eq k j then v else find_day j ds)
unfolding find_day put_day
find_day-put_day j k v [] = refl
find_day-put_day j k v ((i, w) ∷ ds) = elim (Bool-cases (text_eq i k)) [
  | inl e ↦ ground (arith, e, text_eq_sound i k)
  | inr e ↦
      ground
        (arith, e, find_day-put_day j k v ds, text_eq_sound i j, text_eq_sound k j, text_eq_refl j)
]

find_day-cleanup_old_daily :
    (cutoff j : Text) (ds : Daily)
    → find_day j (cleanup_old_daily cutoff ds) ≡ (if is_stale cutoff j then [] else find_day j ds)
unfolding find_day cleanup_old_daily
find_day-cleanup_old_daily cutoff j [] = ground arith
find_day-cleanup_old_daily cutoff j ((i, w) ∷ ds) =
    ground (arith, find_day-cleanup_old_daily cutoff j ds, text_eq_sound i j)

abbrev pub adds_to : Text → UsageRecord → ℕ
adds_to key x = elim (key_of x.api_key_hash x.usage_date) [
  | none ↦ 0
  | some k ↦ if text_eq k key then x.total_tokens else 0
]

-- Recording a usage adds its tokens to the total of its own key and day, once, and to no other
-- total of a key; the totals of days older than the cutoff are dropped.
pub get_total_tokens_for_key-record_usage :
    (r : Repository) (x : UsageRecord) (cutoff h d : Text)
    → get_total_tokens_for_key (record_usage r x cutoff) h d ≡ (
        if is_stale cutoff (day_key h d)
        then 0
        else get_total_tokens_for_key r h d + adds_to (day_key h d) x)
unfolding record_usage get_total_tokens_for_key
get_total_tokens_for_key-record_usage r x cutoff h d = by_key (key_of x.api_key_hash x.usage_date)
  where
    key : Text
    key = day_key h d

    by_key :
        (o : Option Text)
        → total_of (values (find_day key (cleanup_old_daily cutoff (counted x o r.daily)))) ≡ (
            if is_stale cutoff key
            then 0
            else total_of (values (find_day key r.daily))
              + (elim o [ none ↦ 0 | some k ↦ if text_eq k key then x.total_tokens else 0 ]))
    by_key none = ground (arith, find_day-cleanup_old_daily cutoff key r.daily)
    by_key (some k) = ground (
      arith,
      find_day-cleanup_old_daily cutoff key (counted x (some k) r.daily),
      find_day-put_day key k (count_in x (find_day k r.daily)) r.daily,
      total_of-count_in x (find_day k r.daily),
      text_eq_sound k key,
    )

abbrev pub weight : String → Text → UsageRecord → ℕ
weight ws d x = if of_workspace_day ws d x then x.total_tokens else 0

sum_of-keep :
    (ws : String) (d : Text) (xs : List UsageRecord)
    → sum_of (λ x. x.total_tokens) (keep (of_workspace_day ws d) xs) ≡ sum_of (weight ws d) xs
sum_of-keep ws d [] = refl
sum_of-keep ws d (x ∷ xs) = ground (arith, sum_of-keep ws d xs)

latest_full :
    (oldest : UsageRecord) (rest : List UsageRecord) (x : UsageRecord)
    → length (oldest ∷ rest) ≡ max_records
    → latest (oldest ∷ rest ++ x ∷ []) ≡ rest ++ x ∷ []
unfolding latest
latest_full oldest rest x full =
    let l : length (oldest ∷ rest ++ x ∷ []) ≡ max_records + 1 =
      omega (arith, full, length-append rest (x ∷ [])) in
    let over : ltb max_records (length (oldest ∷ rest ++ x ∷ [])) ≡ true = ground (arith, l) in
    let one : length (oldest ∷ rest ++ x ∷ []) - max_records ≡ 1 = omega (arith, l) in
    rw (over, one) refl

-- With 1000 records, of all workspaces together, a usage also takes the tokens of the oldest record
-- out of the total of that record's workspace and day: the total that the workspace's quota rests
-- on forgets them.
pub workspace_total_forgets :
    (r : Repository) (x oldest : UsageRecord) (rest : List UsageRecord) (cutoff d : Text)
    (ws : String)
    → r.records ≡ oldest ∷ rest
    → length r.records ≡ max_records
    → get_total_tokens_for_workspace (record_usage r x cutoff) ws d + weight ws d oldest
      ≡ get_total_tokens_for_workspace r ws d + weight ws d x
unfolding record_usage get_total_tokens_for_workspace
workspace_total_forgets r x oldest rest cutoff d ws first full =
    let moved : latest (r.records ++ x ∷ []) ≡ rest ++ x ∷ [] =
      rw first (latest_full oldest rest x (rw first at full)) in
    ground (
      arith,
      moved,
      first,
      sum_of-keep ws d (rest ++ x ∷ []),
      sum_of-keep ws d r.records,
      sum_of-append (weight ws d) rest (x ∷ []),
    )
