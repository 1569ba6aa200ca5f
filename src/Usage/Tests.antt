-- ===== src/Usage/Tests.antt =====
-- Usage of the key "k" in the workspace "w", on a full and on an empty repository.
use ai_platform_mini.Prelude.{
  ℕ, zero, suc, ◌+◌, ◌≡◌, refl, none, some, List, [], ◌∷◌, length, if◌then◌else◌, Text, codes,
  arith, text_eq,
}
use ai_platform_mini.Prelude.Dict.{get, put}
use ai_platform_mini.Usage.{UsageRecord}
use ai_platform_mini.Usage.Memory.{
  Repository, record_usage, get_total_tokens_for_key, get_total_tokens_for_workspace, is_stale,
  day_key, find_day, put_day, count_in, cleanup_old_daily, latest, second_field, until_colon,
  text_lt,
}
use ai_platform_mini.Usage.Totals.{
  get_total_tokens_for_key-record_usage, workspace_total_forgets, adds_to, weight,
}

abbrev day : Text
day = codes "2026-08-07"

abbrev use_of : ℕ → UsageRecord
use_of n = record {
  request_id = "q";
  model = "m";
  prompt_tokens = n;
  completion_tokens = 0;
  total_tokens = n;
  api_key_name = none;
  api_key_hash = some (codes "k");
  workspace_id = some "w";
  usage_date = some day;
}

abbrev empty : Repository
empty = record { records = []; daily = [] }

two_uses_add_up :
    get_total_tokens_for_key
      (record_usage
        (record_usage empty (use_of 3) (codes "2026-05-09"))
        (use_of 4)
        (codes "2026-05-09"))
      (codes "k")
      day
    ≡ 7
unfolding record_usage get_total_tokens_for_key find_day put_day count_in cleanup_old_daily latest
    is_stale second_field until_colon text_lt get put text_eq
two_uses_add_up = refl

get_total_tokens_for_key-record_usage_example :
    get_total_tokens_for_key (record_usage empty (use_of 3) (codes "2026-05-09")) (codes "k") day
    ≡ (if is_stale (codes "2026-05-09") (day_key (codes "k") day)
        then 0
        else get_total_tokens_for_key empty (codes "k") day
          + adds_to (day_key (codes "k") day) (use_of 3))
get_total_tokens_for_key-record_usage_example =
    get_total_tokens_for_key-record_usage empty (use_of 3) (codes "2026-05-09") (codes "k") day

-- A list of equal records, and a full repository of them.
repeat : ℕ → List UsageRecord
repeat zero = []
repeat (suc n) = use_of 1 ∷ repeat n

length-repeat : (n : ℕ) → length (repeat n) ≡ n
unfolding repeat
length-repeat zero = refl
length-repeat (suc n) = omega (arith, length-repeat n)

abbrev full : Repository
full = record { records = use_of 5 ∷ repeat 999; daily = [] }

workspace_total_forgets_example :
    get_total_tokens_for_workspace (record_usage full (use_of 2) (codes "2026-05-09")) "w" day
      + weight "w" day (use_of 5)
    ≡ get_total_tokens_for_workspace full "w" day + weight "w" day (use_of 2)
workspace_total_forgets_example =
    workspace_total_forgets full (use_of 2) (use_of 5) (repeat 999) (codes "2026-05-09") day "w"
      refl (omega (arith, length-repeat 999))
