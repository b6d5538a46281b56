-- ===== src/ApiKeys/Service.antt =====
-- `APIKeyService` of app/services/api_key.py, over the tables of keys and of their usage. Readings of the clock
-- and random values are arguments. The query for the candidates of a prefix is a parameter.
use fastapi_hyperf.Common.{
  ℕ, ◌+◌, ◌-◌, ◌*◌, String, Bool, false, not, ◌&&◌, Option, none, some, List, [], ◌∷◌, map, Result,
  ok, err, Exec, concat, pure, read, require, refuse, done, ◌>>=◌, ◌>>◌, eqb, ltb, leb,
  if◌then◌else◌, length, value_error, resource_not_found_error, permission_denied_error,
}
use fastapi_hyperf.Database.{Crud, count}
use fastapi_hyperf.ApiKeys.Secret.{
  Crypto, api_key_of, prefix_of, parse_prefix, hash_api_key, verify_api_key,
}
use fastapi_hyperf.ApiKeys.Schemas.{
  ApiKey, ApiKeyCreate, ApiKeyCreateInternal, ApiKeyUpdate, KeyUsageCreate, KeyUsage, Response,
  accepted, refused, Analytics, Summary, patch_key, has_key_id,
}
use fastapi_hyperf.ApiKeys.Permission.{Resource, Action, check_permission}
use fastapi_hyperf.ApiKeys.Usage.{
  calculate_basic_metrics, calculate_response_time_metrics, calculate_endpoint_usage,
  calculate_error_breakdown, calculate_daily_usage, or_zero,
}

-- key["expires_at"] and key["expires_at"] < now
unfoldable pub has_expired : Option ℕ → ℕ → Bool
has_expired none t = false
has_expired (some expires_at) t = ltb expires_at t

-- microseconds of `timedelta(days=days)`
abbrev days_long : ℕ → ℕ
days_long days = days * 86400000000

module _ {Bytes : Type 0} (crypto : Crypto Bytes) where
  -- the first candidate whose hash the key passes
  unfoldable pub first_match : String → List ApiKey → Result (Option ApiKey)
  first_match api_key [] = ok none
  first_match api_key (candidate ∷ rest) =
      let later = first_match api_key rest in
      elim (verify_api_key crypto api_key candidate.key_hash) [
        | err e ↦ err e
        | ok passes ↦ if passes then ok (some candidate) else later
      ]

module _ {Db : Type 0} (crud_api_keys : Crud Db ApiKey ApiKeyCreateInternal) where
  unfoldable pub create_api_key :
      {Bytes : Type 0}
      → Crypto Bytes
      → String
      → Bytes
      → ℕ
      → ApiKeyCreate
      → Exec Db (ApiKey × String)
  create_api_key crypto raw_key salt user_id key_data = do
    let api_key = api_key_of raw_key
    key_hash ← read (λ db. hash_api_key crypto api_key salt)
    created_key ← crud_api_keys.create (record {
      fields = key_data;
      user_id = user_id;
      key_hash = key_hash;
      key_prefix = prefix_of raw_key;
    })
    row ← require created_key value_error
    pure (row, api_key)

  unfoldable get_user_api_keys : ℕ → Bool → ℕ → ℕ → Exec Db (List ApiKey)
  get_user_api_keys user_id active_only limit offset =
      if active_only
      then read (crud_api_keys.get_multi offset limit (λ k. eqb k.user_id user_id && k.is_active))
      else read (crud_api_keys.get_multi offset limit (λ k. eqb k.user_id user_id))

  unfoldable pub get_api_key : ℕ → ℕ → Exec Db ApiKey
  get_api_key key_id user_id = do
    found ← read (crud_api_keys.get (has_key_id key_id))
    key ← require found (resource_not_found_error "API key not found")
    refuse (not (eqb key.user_id user_id)) (permission_denied_error "Access denied to this API key")
    pure key

  unfoldable pub updated_or_read : ℕ → Option ApiKey → Exec Db ApiKey
  updated_or_read key_id (some key) = pure key
  updated_or_read key_id none = do
    found ← read (crud_api_keys.get (has_key_id key_id))
    require found (resource_not_found_error "API key not found after update")

  unfoldable pub update_api_key : ℕ → ℕ → ApiKeyUpdate → Exec Db ApiKey
  update_api_key key_id user_id update_data = do
    get_api_key key_id user_id
    updated_key ← crud_api_keys.update (has_key_id key_id) (patch_key update_data)
    updated_or_read key_id updated_key

  unfoldable pub delete_api_key : ℕ → ℕ → Exec Db (Unit {0})
  delete_api_key key_id user_id = do
    get_api_key key_id user_id
    crud_api_keys.update (has_key_id key_id) (λ k. record k { is_active = false })
    done

  module _ {Bytes : Type 0} (crypto : Crypto Bytes)
      (candidates : String → Db → Result (List ApiKey))
      (permissions : Db → ℕ → Resource → Action → Option Bool) where
    -- from the match on; `t` and `u` are the readings of the clock
    unfoldable pub validate_active_key : ℕ → String → String → ApiKey → Exec Db Response
    validate_active_key u resource action key db =
        if not (check_permission (permissions db) key.id resource action)
        then pure (refused (concat "No permission for " (concat action (concat " on " resource))))
            db
        else (do
          crud_api_keys.update (has_key_id key.id) (λ k. record k { last_used_at = some u })
          pure (accepted key.id key.user_id key.permissions key.usage_limits))
            db

    unfoldable pub validate_matched : ℕ → ℕ → String → String → Option ApiKey → Exec Db Response
    validate_matched t u resource action none = pure (refused "Invalid API key")
    validate_matched t u resource action (some key) =
        if not key.is_active
        then pure (refused "API key is inactive")
        else if has_expired key.expires_at t
        then pure (refused "API key has expired")
        else validate_active_key u resource action key

    unfoldable pub validate_prefix :
        ℕ → ℕ → String → String → String → Option String → Exec Db Response
    validate_prefix t u api_key resource action none = pure (refused "Invalid API key")
    validate_prefix t u api_key resource action (some prefix) = do
      rows ← read (candidates prefix)
      matched ← read (λ db. first_match crypto api_key rows)
      validate_matched t u resource action matched

    unfoldable pub validate_api_key : ℕ → ℕ → String → String → String → Exec Db Response
    validate_api_key t u api_key resource action =
        validate_prefix t u api_key resource action (parse_prefix api_key)

  module _ (crud_key_usage : Crud Db KeyUsage KeyUsageCreate) where
    unfoldable record_usage : ℕ → ℕ → KeyUsageCreate → Exec Db KeyUsage
    record_usage api_key_id user_id usage_data = do
      usage_record ←
          crud_key_usage.create (record usage_data { api_key_id = api_key_id; user_id = user_id })
      require usage_record value_error

    unfoldable pub get_key_usage : ℕ → ℕ → ℕ → ℕ → Exec Db (List KeyUsage)
    get_key_usage key_id user_id limit offset = do
      get_api_key key_id user_id
      read (crud_key_usage.get_multi offset limit (λ r. eqb r.api_key_id key_id))

    -- `get_multi` gives at most 100 rows where no limit is given
    unfoldable pub get_usage_analytics : ℕ → ℕ → ℕ → ℕ → Exec Db Analytics
    get_usage_analytics t key_id user_id days = do
      get_api_key key_id user_id
      rows ← read (
          crud_key_usage.get_multi 0 100
            (λ r. eqb r.api_key_id key_id && leb (t - days_long days) r.created_at))
      let records = map (λ r. r.usage) rows
      pure (record {
        api_key_id = key_id;
        metrics = calculate_basic_metrics records;
        average_response_time = calculate_response_time_metrics records;
        most_used_endpoints = calculate_endpoint_usage records 10;
        error_breakdown = calculate_error_breakdown records;
        usage_by_day = calculate_daily_usage records;
      })

    -- the sum of the costs
    unfoldable cost_of : List KeyUsage → ℕ
    cost_of [] = 0
    cost_of (r ∷ rs) = or_zero r.usage.cost_microcents + cost_of rs

    unfoldable get_user_summary : (ℕ → Db → Result ℕ) → ℕ → Exec Db Summary
    get_user_summary count_usage user_id = do
      keys ← get_user_api_keys user_id false 50 0
      total_requests ← read (count_usage user_id)
      usage ← read (crud_key_usage.get_multi 0 100 (λ r. eqb r.user_id user_id))
      pure (record {
        user_id = user_id;
        total_keys = length keys;
        active_keys = count (λ k. k.is_active) keys;
        total_requests = total_requests;
        total_cost_microcents = cost_of usage;
        keys = keys;
      })
