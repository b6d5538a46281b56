-- ===== src/ApiKeys/Issue.antt =====
-- A key that `create_api_key` gives out, at the next validation.
use fastapi_hyperf.Common.{
  Error, ◌≢◌, ℕ, String, Bool, true, false, Option, none, some, List, [], ◌∷◌, ◌++◌, Result, ok,
  err, ◌≡◌, refl, arith, any, ap, ◌∙◌, leb, Result-cases, inl, inr, eq_iff,
}
use fastapi_hyperf.Common.Slices.{size}
use fastapi_hyperf.Database.{Crud, IsLawful}
use fastapi_hyperf.Database.Distinct.{used}
use fastapi_hyperf.ApiKeys.Secret.{
  Crypto, IsCrypto, api_key_of, prefix_of, hash_api_key, verify_api_key-hash_api_key,
  parse_prefix-api_key_of, parse_prefix, verify_api_key,
}
use fastapi_hyperf.ApiKeys.Permission.{Resource, Action}
use fastapi_hyperf.ApiKeys.Schemas.{
  ApiKey, ApiKeyCreate, ApiKeyCreateInternal, api_key_model, has_key_id,
}
use fastapi_hyperf.ApiKeys.Service
use fastapi_hyperf.ApiKeys.Service.{first_match}
use fastapi_hyperf.ApiKeys.Validation.{IsQuery, selected}

abbrev key_prefix_of : ApiKey → String
key_prefix_of k = k.key_prefix

selected-append :
    (prefix : String) (ks : List ApiKey) (k : ApiKey)
    → used key_prefix_of prefix ks ≡ false
    → k.key_prefix ≡ prefix
    → selected prefix (ks ++ (k ∷ [])) ≡ k ∷ []
selected-append prefix [] k free it = ground (arith, it, eq_iff k.key_prefix prefix)
selected-append prefix (x ∷ ks) k free it = ground (arith, free, selected-append prefix ks k)

module _ {Db : Type 0} (keys : Crud Db ApiKey ApiKeyCreateInternal)
    (law : IsLawful api_key_model keys) {Bytes : Type 0} (crypto : Crypto Bytes)
    (crypto_law : IsCrypto crypto) (candidates : String → Db → Result (List ApiKey))
    (query : IsQuery keys candidates) (permissions : Db → ℕ → Resource → Action → Option Bool) where
  unfoldable internal : String → String → ℕ → ApiKeyCreate → ApiKeyCreateInternal
  internal stored prefix user_id new = record {
    fields = new;
    user_id = user_id;
    key_hash = stored;
    key_prefix = prefix;
  }

  -- a returned key is stored with its hash, and is the text of the random value
  created :
      (raw_key : String) (salt : Bytes) (user_id : ℕ) (new : ApiKeyCreate) (db : Db) (row : ApiKey)
      (api_key stored : String)
      → hash_api_key crypto (api_key_of raw_key) salt ≡ ok stored
      → (Service.create_api_key keys crypto raw_key salt user_id new db).0 ≡ ok (row, api_key)
      → ((Service.create_api_key keys crypto raw_key salt user_id new db).1
          ≡ (keys.create (internal stored (prefix_of raw_key) user_id new) db).1)
        × (api_key ≡ api_key_of raw_key)
        × ((o : Option ApiKey) × ((keys.create
                (internal stored (prefix_of raw_key) user_id new)
                db).0
              ≡ ok o))
  unfolding Service.create_api_key internal
  created raw_key salt user_id new db row api_key stored hashed h =
      elim (Result-cases (keys.create (internal stored (prefix_of raw_key) user_id new) db).0) [
        | inr (e, fails) ↦ ground (arith, h, hashed, fails)
        | inl (none, gives) ↦ ground (arith, h, hashed, gives)
        | inl (some r, gives) ↦
            (ground (arith, hashed, gives), ground (arith, h, hashed, gives), (some r, gives))
      ]

  unhashed :
      (raw_key : String) (salt : Bytes) (user_id : ℕ) (new : ApiKeyCreate) (db : Db) (row : ApiKey)
      (api_key : String) (e : Error)
      → hash_api_key crypto (api_key_of raw_key) salt ≡ err e
      → (Service.create_api_key keys crypto raw_key salt user_id new db).0 ≢ ok (row, api_key)
  unfolding Service.create_api_key
  unhashed raw_key salt user_id new db row api_key e fails h = ground (arith, h, fails)

  match-one :
      (api_key : String) (k : ApiKey)
      → verify_api_key crypto api_key k.key_hash ≡ ok true
      → first_match crypto api_key (k ∷ []) ≡ ok (some k)
  unfolding first_match
  match-one api_key k passes = ground (arith, passes)

  -- the only candidate, where the key passes its hash
  validated :
      (t u : ℕ) (resource action api_key prefix : String) (k : ApiKey) (db : Db)
      → parse_prefix api_key ≡ some prefix
      → candidates prefix db ≡ ok (k ∷ [])
      → verify_api_key crypto api_key k.key_hash ≡ ok true
      → Service.validate_api_key keys crypto candidates permissions t u api_key resource action db
        ≡ Service.validate_matched keys crypto candidates permissions t u resource action
            (some k)
            db
  unfolding Service.validate_api_key Service.validate_prefix
  validated t u resource action api_key prefix k db parsed one passes =
      let first = match-one api_key k passes in ground (arith, parsed, one, first)

  -- Over tables, queries and cryptography as documented, where the random text has at least eight characters,
  -- no key has its prefix yet and `create_api_key` has returned a key: if the query for candidates answers,
  -- then `validate_api_key` of the text that was returned goes on with exactly the new row, whose id no other
  -- key had, and which belongs to the user, is active and expires when it was asked to.
  pub validate_api_key-create_api_key :
      (raw_key : String) (salt : Bytes) (user_id : ℕ) (new : ApiKeyCreate) (db : Db) (row : ApiKey)
      (api_key : String) (t u : ℕ) (resource action : String) (found : List ApiKey)
      → leb 8 (size raw_key) ≡ true
      → used key_prefix_of (prefix_of raw_key) (keys.rows db) ≡ false
      → (Service.create_api_key keys crypto raw_key salt user_id new db).0 ≡ ok (row, api_key)
      → candidates
          (prefix_of raw_key)
          (Service.create_api_key keys crypto raw_key salt user_id new db).1
        ≡ ok found
      → let after = (Service.create_api_key keys crypto raw_key salt user_id new db).1 in
        (k : ApiKey) × (Service.validate_api_key keys crypto candidates permissions t u api_key
            resource action after
          ≡ Service.validate_matched keys crypto candidates permissions t u resource action
              (some k)
              after)
        × (any (has_key_id k.id) (keys.rows db) ≡ false)
        × (k.user_id ≡ user_id)
        × (k.is_active ≡ true)
        × (k.expires_at ≡ new.expires_at)
  unfolding internal
  validate_api_key-create_api_key raw_key salt user_id new db row api_key t u resource action found
        long free h answers =
      elim (Result-cases (hash_api_key crypto (api_key_of raw_key) salt)) [
        | inr (e, fails) ↦ absurd (unhashed raw_key salt user_id new db row api_key e fails h)
        | inl (stored, hashed) ↦
            let (state, text, (o, gives)) =
              created raw_key salt user_id new db row api_key stored hashed h in
            let (n, fresh, added) =
              law.create-adds (internal stored (prefix_of raw_key) user_id new) db o gives in
            let k = api_key_model.made n (internal stored (prefix_of raw_key) user_id new) in
            let after = (Service.create_api_key keys crypto raw_key salt user_id new db).1 in
            let one = query.candidates-one (prefix_of raw_key) after found k answers (
              rw (state, added) (selected-append (prefix_of raw_key) (keys.rows db) k free refl)) in
            let passes =
              (verify_api_key-hash_api_key crypto crypto_law (api_key_of raw_key) "" stored salt
                hashed).1 in
            (
              k,
              rw text (
                  validated t u resource action (api_key_of raw_key) (prefix_of raw_key) k after
                    (parse_prefix-api_key_of raw_key long) (answers ∙ ap ok one) passes),
              fresh,
              refl,
              refl,
              refl,
            )
      ]
