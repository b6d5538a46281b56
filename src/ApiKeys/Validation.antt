-- ===== src/ApiKeys/Validation.antt =====
-- What `validate_api_key` accepts.
use fastapi_hyperf.Common.{
  ℕ, String, Bool, true, false, Option, none, some, List, [], ◌∷◌, Result, ok, ◌≡◌, refl, subst,
  arith, All, ◌==◌, if◌then◌else◌, Result-cases, Option-cases, inl, inr,
}
use fastapi_hyperf.Common.Dict.{Dict}
use fastapi_hyperf.Database.{Crud, Found}
use fastapi_hyperf.ApiKeys.Secret.{Crypto, parse_prefix, verify_api_key}
use fastapi_hyperf.ApiKeys.Permission.{Resource, Action, check_permission}
use fastapi_hyperf.ApiKeys.Schemas.{ApiKey, ApiKeyCreateInternal, accepted, has_prefix}
use fastapi_hyperf.ApiKeys.Service
use fastapi_hyperf.ApiKeys.Service.{first_match, has_expired}

-- the rows with a prefix
abbrev pub selected : String → List ApiKey → List ApiKey
selected prefix [] = []
selected prefix (k ∷ ks) =
    let rest = selected prefix ks in if k.key_prefix == prefix then k ∷ rest else rest

-- `select(APIKey).where(APIKey.key_prefix == prefix)` gives rows of the table with the prefix, in some order,
-- and the only one if there is one.
pub record IsQuery {Db : Type 0} (keys : Crud Db ApiKey ApiKeyCreateInternal)
    (candidates : String → Db → Result (List ApiKey)) : Type 0 where
  pub candidates-Found :
      (prefix : String) (db : Db) (found : List ApiKey)
      → candidates prefix db ≡ ok found
      → All (λ k. Found (has_prefix prefix) k (keys.rows db)) found
  pub candidates-one :
      (prefix : String) (db : Db) (found : List ApiKey) (k : ApiKey)
      → candidates prefix db ≡ ok found
      → selected prefix (keys.rows db) ≡ k ∷ []
      → found ≡ k ∷ []

module _ {Bytes : Type 0} (crypto : Crypto Bytes) where
  match-All :
      (P : ApiKey → Type 0) (api_key : String) (ks : List ApiKey) (k : ApiKey)
      → All P ks
      → first_match crypto api_key ks ≡ ok (some k)
      → P k × (verify_api_key crypto api_key k.key_hash ≡ ok true)
  unfolding first_match
  match-All P api_key [] k all h = ground arith
  match-All P api_key (x ∷ ks) k (first, rest) h =
      elim (Result-cases (verify_api_key crypto api_key x.key_hash)) [
        | inr (e, fails) ↦ ground (arith, h, fails)
        | inl (true, passes) ↦
            let same : x ≡ k = ground (arith, h, passes) in
            (
              subst P same first,
              subst (λ y. verify_api_key crypto api_key y.key_hash ≡ ok true) same passes,
            )
        | inl (false, passes) ↦ match-All P api_key ks k rest (ground (arith, h, passes))
      ]

module _ {Db : Type 0} (keys : Crud Db ApiKey ApiKeyCreateInternal) {Bytes : Type 0}
    (crypto : Crypto Bytes) (candidates : String → Db → Result (List ApiKey))
    (permissions : Db → ℕ → Resource → Action → Option Bool) where
  -- A row of the table on account of which a key is accepted at an instant.
  pub record Admits (t : ℕ) (api_key resource action : String) (db : Db) (id user : ℕ)
      : Type 0 where
    pub key : ApiKey
    pub prefix : String
    pub parsed : parse_prefix api_key ≡ some prefix
    pub found : Found (has_prefix prefix) key (keys.rows db)
    pub verified : verify_api_key crypto api_key key.key_hash ≡ ok true
    pub active : key.is_active ≡ true
    pub current : has_expired key.expires_at t ≡ false
    pub allowed : check_permission (permissions db) key.id resource action ≡ true
    pub is_it : (key.id ≡ id) × (key.user_id ≡ user)

  matched_accepted :
      (t u : ℕ) (resource action : String) (o : Option ApiKey) (db : Db) (id user : ℕ)
      (p l : Dict String)
      → (Service.validate_matched keys crypto candidates permissions t u resource action o db).0
        ≡ ok (accepted id user p l)
      → (k : ApiKey) × (o ≡ some k)
        × (k.is_active ≡ true)
        × (has_expired k.expires_at t ≡ false)
        × (check_permission (permissions db) k.id resource action ≡ true)
        × (k.id ≡ id)
        × (k.user_id ≡ user)
  unfolding Service.validate_matched Service.validate_active_key
  matched_accepted t u resource action none db id user p l h = ground arith
  matched_accepted t u resource action (some k) db id user p l h = (
    k,
    refl,
    ground (arith, h),
    ground (arith, h),
    ground (arith, h),
    ground (arith, h),
    ground (arith, h),
  )

  -- Over the query as documented: `validate_api_key` answers that a key is valid, with an id and a user, only
  -- where a row of the table with that id and user has the prefix that is read from the key, a hash that the
  -- key passes, is active and not expired at the first reading of the clock, and has the permission.
  pub validate_api_key-Admits :
      (law : IsQuery keys candidates) (t u : ℕ) (api_key resource action : String) (db : Db)
      (id user : ℕ) (p l : Dict String)
      → (Service.validate_api_key keys crypto candidates permissions t u api_key resource action
          db).0
        ≡ ok (accepted id user p l)
      → Admits t api_key resource action db id user
  unfolding Service.validate_api_key Service.validate_prefix
  validate_api_key-Admits law t u api_key resource action db id user p l h =
      elim (Option-cases (parse_prefix api_key)) [
        | inl unread ↦ ground (arith, h, unread)
        | inr (prefix, parsed) ↦ (elim (Result-cases (candidates prefix db)) [
          | inr (e, fails) ↦ ground (arith, h, parsed, fails)
          | inl (rows, gives) ↦ (elim (Result-cases (first_match crypto api_key rows)) [
            | inr (e, fails) ↦ ground (arith, h, parsed, gives, fails)
            | inl (o, matches) ↦
                let (k, it, active, current, allowed, same_id, same_user) =
                  matched_accepted t u resource action o db id user p l
                    (ground (arith, h, parsed, gives, matches)) in
                let (found, verified) =
                  match-All crypto (λ k. Found (has_prefix prefix) k (keys.rows db)) api_key rows k
                    (law.candidates-Found prefix db rows gives) (ground (arith, matches, it)) in
                record {
                  key = k;
                  prefix = prefix;
                  parsed = parsed;
                  found = found;
                  verified = verified;
                  active = active;
                  current = current;
                  allowed = allowed;
                  is_it = (same_id, same_user);
                }
          ])
        ])
      ]
