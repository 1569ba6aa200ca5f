-- ===== src/Usage/Memory.antt =====
-- app/usage/memory_repository.py: the records, the daily totals, and the readings of the quota. The
-- summaries, trends and rankings, which only read, are left out. `cutoff` is the date 90 days ago.
use ai_platform_mini.Prelude.{
  ℕ, ◌+◌, ◌-◌, String, Bool, true, false, ◌&&◌, ◌||◌, Option, none, some, List, [], ◌∷◌, ◌++◌,
  length, drop, keep, ltb, ◌==◌, if◌then◌else◌, Text, text_eq, starts_with, same_option, sum_of,
}
use ai_platform_mini.Prelude.Dict.{Dict, get, put}
use ai_platform_mini.Usage.{UsageRecord, UsageAggregation, total_of, Readings}

abbrev pub Daily : Type 0
Daily = List (Text × Dict UsageAggregation)

pub record Repository : Type 0 where
  pub records : List UsageRecord
  pub daily : Daily

abbrev pub max_records : ℕ
max_records = 1000

-- `self._records[-_MAX_RECORDS:]`, if there are more
unfoldable pub latest : List UsageRecord → List UsageRecord
latest records =
    if ltb max_records (length records)
    then drop (length records - max_records) records
    else records

abbrev pub day_key : Text → Text → Text
day_key api_key_hash usage_date = api_key_hash ++ 58 ∷ usage_date

-- `self._daily.get(key, {})`, and the write of a day
unfoldable pub find_day : Text → Daily → Dict UsageAggregation
find_day key [] = []
find_day key ((k, day) ∷ days) = let rest = find_day key days in if text_eq k key then day else rest

unfoldable pub put_day : Text → Dict UsageAggregation → Daily → Daily
put_day key day [] = (key, day) ∷ []
put_day key day ((k, old) ∷ days) =
    let rest = put_day key day days in if text_eq k key then (k, day) ∷ days else (k, old) ∷ rest

abbrev pub no_usage : String → UsageAggregation
no_usage model = record {
  model = model;
  request_count = 0;
  prompt_tokens = 0;
  completion_tokens = 0;
  total_tokens = 0;
}

abbrev pub or_new : String → Option UsageAggregation → UsageAggregation
or_new model none = no_usage model
or_new model (some a) = a

abbrev pub raised_by : UsageRecord → UsageAggregation → UsageAggregation
raised_by x a = record a {
  request_count = a.request_count + 1;
  prompt_tokens = a.prompt_tokens + x.prompt_tokens;
  completion_tokens = a.completion_tokens + x.completion_tokens;
  total_tokens = a.total_tokens + x.total_tokens;
}

-- `setdefault(record.model, ...)` and the four additions
unfoldable pub count_in : UsageRecord → Dict UsageAggregation → Dict UsageAggregation
count_in x day = put x.model (raised_by x (or_new x.model (get x.model day))) day

-- `k.split(":")[1]`
unfoldable pub until_colon : Text → Text
until_colon [] = []
until_colon (c ∷ s) = let rest = until_colon s in if c == 58 then [] else c ∷ rest

unfoldable pub second_field : Text → Text
unfolding until_colon
second_field [] = []
second_field (c ∷ s) = let rest = second_field s in if c == 58 then until_colon s else rest

-- `s < t` of two texts
unfoldable pub text_lt : Text → Text → Bool
text_lt s [] = false
text_lt [] (_ ∷ _) = true
text_lt (c ∷ s) (d ∷ t) = ltb c d || (c == d && text_lt s t)

unfoldable pub is_stale : Text → Text → Bool
unfolding second_field text_lt
is_stale cutoff key = text_lt (second_field key) cutoff

-- `_cleanup_old_daily`
unfoldable pub cleanup_old_daily : Text → Daily → Daily
cleanup_old_daily cutoff [] = []
cleanup_old_daily cutoff ((k, day) ∷ days) =
    let rest = cleanup_old_daily cutoff days in if is_stale cutoff k then rest else (k, day) ∷ rest

-- `record.api_key_hash and record.usage_date`: the key of the day, if both are there and not empty.
abbrev pub key_of : Option Text → Option Text → Option Text
key_of (some (c ∷ h)) (some (d ∷ t)) = some (day_key (c ∷ h) (d ∷ t))
key_of _ _ = none

abbrev pub counted : UsageRecord → Option Text → Daily → Daily
counted x none daily = daily
counted x (some key) daily = put_day key (count_in x (find_day key daily)) daily

unfoldable pub record_usage : Repository → UsageRecord → Text → Repository
record_usage r x cutoff = record {
  records = latest (r.records ++ x ∷ []);
  daily = cleanup_old_daily cutoff (counted x (key_of x.api_key_hash x.usage_date) r.daily);
}

abbrev pub values {ℓ} : {V : Type ℓ} → Dict V → List V
values [] = []
values ((k, v) ∷ d) = v ∷ values d

unfoldable pub get_daily_usage : Repository → Text → Text → List UsageAggregation
get_daily_usage r api_key_hash usage_date =
    values (find_day (day_key api_key_hash usage_date) r.daily)

unfoldable pub get_total_tokens_for_key : Repository → Text → Text → ℕ
get_total_tokens_for_key r api_key_hash usage_date =
    total_of (values (find_day (day_key api_key_hash usage_date) r.daily))

abbrev pub same_text : Option Text → Text → Bool
same_text none t = false
same_text (some s) t = text_eq s t

abbrev pub of_workspace_day : String → Text → UsageRecord → Bool
of_workspace_day workspace_id usage_date x =
    same_option x.workspace_id (some workspace_id) && same_text x.usage_date usage_date

unfoldable pub get_total_tokens_for_workspace : Repository → String → Text → ℕ
get_total_tokens_for_workspace r workspace_id usage_date =
    sum_of (λ x. x.total_tokens) (keep (of_workspace_day workspace_id usage_date) r.records)

-- The days of the key's month, merged by model.
abbrev pub merged : UsageAggregation → UsageAggregation → UsageAggregation
merged a b = record a {
  request_count = a.request_count + b.request_count;
  prompt_tokens = a.prompt_tokens + b.prompt_tokens;
  completion_tokens = a.completion_tokens + b.completion_tokens;
  total_tokens = a.total_tokens + b.total_tokens;
}

unfoldable pub merge_all : List UsageAggregation → Dict UsageAggregation → Dict UsageAggregation
merge_all [] result = result
merge_all (a ∷ as_) result =
    merge_all as_ (put a.model (merged (or_new a.model (get a.model result)) a) result)

unfoldable pub merge_days : Text → Daily → Dict UsageAggregation → Dict UsageAggregation
unfolding merge_all
merge_days prefix [] result = result
merge_days prefix ((k, day) ∷ days) result =
    merge_days prefix days (if starts_with prefix k then merge_all (values day) result else result)

unfoldable pub get_monthly_usage : Repository → Text → Text → List UsageAggregation
unfolding merge_days
get_monthly_usage r api_key_hash year_month =
    values (merge_days (day_key api_key_hash year_month) r.daily [])

abbrev pub in_month : Option Text → Text → Bool
in_month none year_month = false
in_month (some date) year_month = starts_with year_month date

-- The workspace's month counts requests and total tokens only.
unfoldable pub merge_records :
    String → Text → List UsageRecord → Dict UsageAggregation → Dict UsageAggregation
merge_records workspace_id year_month [] result = result
merge_records workspace_id year_month (x ∷ xs) result =
    let a = or_new x.model (get x.model result) in
    let a' : UsageAggregation = record a {
      request_count = a.request_count + 1;
      total_tokens = a.total_tokens + x.total_tokens;
    } in
    merge_records workspace_id year_month xs (
      if same_option x.workspace_id (some workspace_id) && in_month x.usage_date year_month
      then put x.model a' result
      else result)

unfoldable pub get_monthly_usage_for_workspace : Repository → String → Text → List UsageAggregation
unfolding merge_records
get_monthly_usage_for_workspace r workspace_id year_month =
    values (merge_records workspace_id year_month r.records [])

-- What the quota reads of the repository.
abbrev pub readings : Repository → Readings
readings r = record {
  total_tokens_for_key = get_total_tokens_for_key r;
  total_tokens_for_workspace = get_total_tokens_for_workspace r;
  monthly_usage = get_monthly_usage r;
  monthly_usage_for_workspace = get_monthly_usage_for_workspace r;
}
