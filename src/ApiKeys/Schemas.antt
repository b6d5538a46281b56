-- ===== src/ApiKeys/Schemas.antt =====
-- The columns and schemas of app/models/api_key.py that the service uses. A field of an update is none where the
-- caller has not set it; free-form dictionaries hold texts, and the columns that nothing reads are left out.
use fastapi_hyperf.Common.{ℕ, String, Bool, true, Option, none, List, or_old, eqb, ◌==◌}
use fastapi_hyperf.Common.Dict.{Dict}
use fastapi_hyperf.Database.{Model}
use fastapi_hyperf.ApiKeys.Usage.{Usage, Metrics, Day}

pub record ApiKey : Type 0 where
  pub id : ℕ
  pub user_id : ℕ
  pub name : String
  pub key_hash : String
  pub key_prefix : String
  pub permissions : Dict String
  pub usage_limits : Dict String
  pub last_used_at : Option ℕ
  pub is_active : Bool
  pub expires_at : Option ℕ

pub record ApiKeyCreate : Type 0 where
  pub name : String
  pub permissions : Dict String
  pub usage_limits : Dict String
  pub expires_at : Option ℕ

pub record ApiKeyCreateInternal : Type 0 where
  pub fields : ApiKeyCreate
  pub user_id : ℕ
  pub key_hash : String
  pub key_prefix : String

pub record ApiKeyUpdate : Type 0 where
  pub name : Option String
  pub permissions : Option (Dict String)
  pub usage_limits : Option (Dict String)
  pub is_active : Option Bool
  pub expires_at : Option (Option ℕ)

-- A row of the usage of keys, and what makes one.
pub record KeyUsageCreate : Type 0 where
  pub api_key_id : ℕ
  pub user_id : ℕ
  pub usage : Usage

pub record KeyUsage : Type 0 where
  pub id : ℕ
  pub api_key_id : ℕ
  pub user_id : ℕ
  pub created_at : ℕ
  pub usage : Usage

-- `APIKeyValidationResponse` with `is_valid=True`, or with `is_valid=False` and its message
pub data Response : Type 0 where
  accepted : ℕ → ℕ → Dict String → Dict String → Response
  refused : String → Response

pub record Analytics : Type 0 where
  pub api_key_id : ℕ
  pub metrics : Metrics
  pub average_response_time : Option (ℕ × ℕ)
  pub most_used_endpoints : Dict ℕ
  pub error_breakdown : Dict ℕ
  pub usage_by_day : List Day

pub record Summary : Type 0 where
  pub user_id : ℕ
  pub total_keys : ℕ
  pub active_keys : ℕ
  pub total_requests : ℕ
  pub total_cost_microcents : ℕ
  pub keys : List ApiKey

-- the models of the tables; rows of usage are only added and read
abbrev pub api_key_model : Model ApiKey ApiKeyCreateInternal
api_key_model = record {
  id = λ k. k.id;
  made = λ n new. record {
    id = n;
    user_id = new.user_id;
    name = new.fields.name;
    key_hash = new.key_hash;
    key_prefix = new.key_prefix;
    permissions = new.fields.permissions;
    usage_limits = new.fields.usage_limits;
    last_used_at = none;
    is_active = true;
    expires_at = new.fields.expires_at;
  };
  marked = λ k. k;
}

unfoldable pub patch_key : ApiKeyUpdate → ApiKey → ApiKey
patch_key u k = record k {
  name = or_old k.name u.name;
  permissions = or_old k.permissions u.permissions;
  usage_limits = or_old k.usage_limits u.usage_limits;
  is_active = or_old k.is_active u.is_active;
  expires_at = or_old k.expires_at u.expires_at;
}

abbrev pub has_key_id : ℕ → ApiKey → Bool
has_key_id n k = eqb k.id n

abbrev pub has_prefix : String → ApiKey → Bool
has_prefix prefix k = k.key_prefix == prefix
