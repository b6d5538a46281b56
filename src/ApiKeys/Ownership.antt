-- ===== src/ApiKeys/Ownership.antt =====
-- Whose keys the operations of `APIKeyService` touch, and what becomes of a deleted key.
use fastapi_hyperf.Common.{
  ℕ, String, Bool, false, ◌&&◌, Option, none, some, List, [], ◌∷◌, Result, ok, ◌≡◌, ◌≢◌, refl,
  arith, any, eqb, Result-cases, Bool-cases, inl, inr,
}
use fastapi_hyperf.Common.Dict.{Dict}
use fastapi_hyperf.Database.{Crud, IsLawful, updated}
use fastapi_hyperf.Database.Absent.{found-any}
use fastapi_hyperf.ApiKeys.Secret.{Crypto}
use fastapi_hyperf.ApiKeys.Permission.{Resource, Action}
use fastapi_hyperf.ApiKeys.Schemas.{
  ApiKey, ApiKeyCreateInternal, ApiKeyUpdate, KeyUsage, KeyUsageCreate, Analytics, accepted,
  api_key_model, has_key_id,
}
use fastapi_hyperf.ApiKeys.Service
use fastapi_hyperf.ApiKeys.Validation.{IsQuery, validate_api_key-Admits}

abbrev is_of : ℕ → ℕ → ApiKey → Bool
is_of key_id user_id k = eqb k.id key_id && eqb k.user_id user_id

abbrev is_live : ℕ → ApiKey → Bool
is_live key_id k = eqb k.id key_id && k.is_active

abbrev revoked : ApiKey → ApiKey
revoked k = record k { is_active = false }

none_live : (n : ℕ) (ks : List ApiKey) → any (is_live n) (updated (has_key_id n) revoked ks) ≡ false
none_live n [] = refl
none_live n (k ∷ ks) = elim (Bool-cases (eqb k.id n)) [
  | inl hit ↦ ground (arith, hit, none_live n ks)
  | inr miss ↦ ground (arith, miss, none_live n ks)
]

module _ {Db : Type 0} (keys : Crud Db ApiKey ApiKeyCreateInternal)
    (law : IsLawful api_key_model keys) where
  -- the check that the operations begin with
  own_key :
      (key_id user_id : ℕ) (db : Db) (k : ApiKey)
      → any (is_of key_id user_id) (keys.rows db) ≡ false
      → (Service.get_api_key keys key_id user_id db).0 ≢ ok k
  unfolding Service.get_api_key
  own_key key_id user_id db k none_of h = elim (Result-cases (keys.get (has_key_id key_id) db)) [
    | inr (e, fails) ↦ ground (arith, h, fails)
    | inl (none, gives) ↦ ground (arith, h, gives)
    | inl (some x, gives) ↦
        let (hit, (before, after, e)) = law.get-some (has_key_id key_id) db x gives in
        (elim (Bool-cases (eqb x.user_id user_id)) [
          | inr other ↦ ground (arith, h, gives, other)
          | inl own ↦ ground (
            arith,
            none_of,
            e,
            found-any (is_of key_id user_id) x before after (ground (arith, hit, own)),
          )
        ])
  ]

  check_keeps : (key_id user_id : ℕ) (db : Db) → (Service.get_api_key keys key_id user_id db).1 ≡ db
  unfolding Service.get_api_key
  check_keeps key_id user_id db = ground arith

  -- Over a table of FastCRUD as documented, where no key with the id belongs to the user, none of
  -- `update_api_key`, `delete_api_key`, `get_key_usage` and `get_usage_analytics` returns, and neither of the
  -- first two changes the database.
  pub get_api_key-owner :
      (usage : Crud Db KeyUsage KeyUsageCreate) (key_id user_id t limit offset days : ℕ)
      (c : ApiKeyUpdate) (db : Db) (k : ApiKey) (u : Unit {0}) (rows : List KeyUsage)
      (a : Analytics)
      → any (is_of key_id user_id) (keys.rows db) ≡ false
      → ((Service.update_api_key keys key_id user_id c db).0 ≢ ok k)
        × ((Service.update_api_key keys key_id user_id c db).1 ≡ db)
        × ((Service.delete_api_key keys key_id user_id db).0 ≢ ok u)
        × ((Service.delete_api_key keys key_id user_id db).1 ≡ db)
        × ((Service.get_key_usage keys usage key_id user_id limit offset db).0 ≢ ok rows)
        × ((Service.get_usage_analytics keys usage t key_id user_id days db).0 ≢ ok a)
  unfolding Service.update_api_key Service.delete_api_key Service.get_key_usage
      Service.get_usage_analytics
  get_api_key-owner usage key_id user_id t limit offset days c db k u rows a none_of =
      elim (Result-cases (Service.get_api_key keys key_id user_id db).0) [
        | inl (x, gives) ↦ absurd (own_key key_id user_id db x none_of gives)
        | inr (e, fails) ↦
            let keeps = check_keeps key_id user_id db in
            (
              λ h. ground (arith, h, fails),
              ground (arith, fails, keeps),
              λ h. ground (arith, h, fails),
              ground (arith, fails, keeps),
              λ h. ground (arith, h, fails),
              λ h. ground (arith, h, fails),
            )
      ]

  delete_api_key-rows :
      (key_id user_id : ℕ) (db : Db) (u : Unit {0})
      → (Service.delete_api_key keys key_id user_id db).0 ≡ ok u
      → keys.rows (Service.delete_api_key keys key_id user_id db).1
        ≡ updated (has_key_id key_id) revoked (keys.rows db)
  unfolding Service.delete_api_key
  delete_api_key-rows key_id user_id db u h =
      let keeps = check_keeps key_id user_id db in
      elim (Result-cases (keys.update (has_key_id key_id) revoked db).0) [
        | inr (e, fails) ↦ ground (arith, h, keeps, fails)
        | inl (o, gives) ↦
            let (one, changed) = law.update-changes (has_key_id key_id) revoked db o gives in
            ground (arith, h, keeps, gives, changed)
      ]

  -- Over a table of FastCRUD and a query for candidates as documented: in the database as `delete_api_key` of a
  -- key leaves it when it returns, `validate_api_key` accepts no text as that key, for whatever permission and
  -- whatever the clock shows.
  pub validate_api_key-delete_api_key :
      {Bytes : Type 0} (crypto : Crypto Bytes) (candidates : String → Db → Result (List ApiKey))
      (permissions : Db → ℕ → Resource → Action → Option Bool) (query : IsQuery keys candidates)
      (key_id user_id : ℕ) (db : Db) (r : Unit {0}) (t u : ℕ) (api_key resource action : String)
      (user : ℕ) (p l : Dict String)
      → (Service.delete_api_key keys key_id user_id db).0 ≡ ok r
      → (Service.validate_api_key keys crypto candidates permissions t u api_key resource action
          (Service.delete_api_key keys key_id user_id db).1).0
        ≢ ok (accepted key_id user p l)
  validate_api_key-delete_api_key crypto candidates permissions query key_id user_id db r t u
        api_key resource action user p l h v =
      let after = (Service.delete_api_key keys key_id user_id db).1 in
      let admits =
        validate_api_key-Admits keys crypto candidates permissions query t u api_key resource action
          after key_id user p l v in
      let (hit, (before, later, e)) = admits.found in
      let rows = delete_api_key-rows key_id user_id db r h in
      let active = admits.active in
      let (same, own) = admits.is_it in
      ground (
        arith,
        e,
        rows,
        none_live key_id (keys.rows db),
        found-any (is_live key_id) admits.key before later (ground (arith, same, active)),
      )
