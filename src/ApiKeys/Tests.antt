-- ===== src/ApiKeys/Tests.antt =====
-- Runs of the reports and of the permissions.
use fastapi_hyperf.Common.{ℕ, Bool, true, false, Option, none, some, List, [], ◌∷◌, ◌≡◌, refl}
use fastapi_hyperf.ApiKeys.Permission.{
  Resource, Action, credits, read, resource_of, action_of, check_permission, Allows,
  check_permission-Allows, specific, any_resource, any_action, anything,
}
use fastapi_hyperf.ApiKeys.Usage.{
  Usage, calculate_daily_usage, entries, entry, on_day, report,
  calculate_daily_usage-calculate_basic_metrics,
}

-- everything is allowed but to read credits
abbrev find : ℕ → Resource → Action → Option Bool
find key credits read = some false
find key Resource.wildcard Action.wildcard = some true
find key r a = none

permissions :
    (check_permission find 1 "credits" "read" ≡ false)
    × (check_permission find 1 "credits" "list" ≡ true)
    × (check_permission find 1 "unknown" "read" ≡ true)
unfolding check_permission specific any_resource any_action anything resource_of action_of
permissions = (refl, refl, refl)

check_permission-Allows_example : Allows find 1 "credits" "list"
check_permission-Allows_example = check_permission-Allows find 1 "credits" "list" permissions.1

abbrev usage : ℕ → Usage
usage code = record {
  endpoint = "/chat";
  status_code = code;
  tokens_used = some 3;
  cost_microcents = none;
  response_time_ms = some 20;
  day = some "2024-05-01";
}

abbrev records : List Usage
records = usage 200 ∷ (usage 404 ∷ (usage 404 ∷ []))

calculate_daily_usage-calculate_basic_metrics_example :
    entries "2024-05-01" (calculate_daily_usage records)
    ≡ entry (report "2024-05-01" (on_day "2024-05-01" records))
calculate_daily_usage-calculate_basic_metrics_example =
    calculate_daily_usage-calculate_basic_metrics "2024-05-01" records
