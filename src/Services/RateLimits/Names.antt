-- ===== src/Services/RateLimits/Names.antt =====
-- The names of rate limits under the operations of `RateLimitService`.
use fastapi_hyperf.Common.{
  String, true, false, some, List, [], ◌∷◌, ◌≡◌, arith, ℕ, Bool-cases, Option-cases, inl, inr,
  eq_iff, ◌==◌, refl, or_old,
}
use fastapi_hyperf.Database.{Crud, IsLawful}
use fastapi_hyperf.Database.Distinct.{
  used, Distinct, create-Distinct, update-Distinct, db_delete-Distinct,
}
use fastapi_hyperf.Services.Tier.{Tier, TierCreate}
use fastapi_hyperf.Services.RateLimits
use fastapi_hyperf.Services.RateLimits.{
  RateLimit, RateLimitCreate, RateLimitCreateInternal, RateLimitUpdate, rate_limit_model,
  patch_rate_limit, is_named, rate_limit_name, name_or_default, to_internal,
}

-- an update of the rate limit with a name leaves its name, or gives it a new one
renames :
    (u : RateLimitUpdate) (name : String) (r : RateLimit)
    → is_named name r ≡ true
    → (patch_rate_limit u r).name ≡ or_old name u.name
unfolding patch_rate_limit
renames u name r h = ground (arith, eq_iff r.name name)

module _ {Db : Type 0} (table : Crud Db RateLimit RateLimitCreateInternal)
    (law : IsLawful rate_limit_model table) (db : Db) where
  abbrev Before : Type 0
  Before = Distinct rate_limit_name (table.rows db)

  created :
      (tiers : Crud Db Tier TierCreate) (new : RateLimitCreate) (tier_id : ℕ) (unique_id : String)
      → Before
      → Distinct rate_limit_name
          (table.rows (RateLimits.create table tiers new tier_id unique_id db).1)
  unfolding RateLimits.create to_internal
  created tiers new tier_id unique_id d =
      let name = name_or_default new.name unique_id in
      ground (
        arith,
        d,
        law.exists-any (is_named name) db false,
        create-Distinct table law rate_limit_name db (to_internal new name tier_id) name
            (λ n. refl),
      )

  removed :
      (name : String)
      → Before
      → Distinct rate_limit_name (table.rows (RateLimits.delete table name db).1)
  unfolding RateLimits.delete
  removed name d =
      ground (arith, d, db_delete-Distinct table law rate_limit_name db (is_named name) d)

  -- an update that does not rename
  kept :
      (name : String) (u : RateLimitUpdate)
      → or_old name u.name ≡ name
      → Before
      → Distinct rate_limit_name (table.rows (RateLimits.update table name u db).1)
  unfolding RateLimits.update RateLimits.check_rename
  kept name u same d =
      let keeps : (r : RateLimit) → is_named name r ≡ true → (patch_rate_limit u r).name ≡ r.name =
        λ r h. ground (arith, renames u name r h, eq_iff r.name name) in
      ground (
        arith,
        d,
        update-Distinct table law rate_limit_name db (is_named name) (patch_rate_limit u)
            (inl keeps) d,
      )

  renamed :
      (name new : String) (u : RateLimitUpdate)
      → u.name ≡ some new
      → (new == name) ≡ false
      → Before
      → Distinct rate_limit_name (table.rows (RateLimits.update table name u db).1)
  unfolding RateLimits.update RateLimits.check_rename
  renamed name new u set other d = elim (Bool-cases (used rate_limit_name new (table.rows db))) [
    | inl taken ↦ ground (arith, d, set, taken, law.exists-any (is_named new) db false)
    | inr free ↦
        let sets : (r : RateLimit) → is_named name r ≡ true → (patch_rate_limit u r).name ≡ new =
          λ r h. ground (arith, set, renames u name r h) in
        ground (
          arith,
          d,
          update-Distinct table law rate_limit_name db (is_named name) (patch_rate_limit u)
              (inr (new, sets, free)) d,
        )
  ]

  changed :
      (name : String) (u : RateLimitUpdate)
      → Before
      → Distinct rate_limit_name (table.rows (RateLimits.update table name u db).1)
  changed name u d = elim (Option-cases u.name) [
    | inl unset ↦ kept name u (ground (arith, unset)) d
    | inr (new, set) ↦ (elim (Bool-cases (new == name)) [
      | inl same ↦ kept name u (ground (arith, set, same, eq_iff new name)) d
      | inr other ↦ renamed name new u set other d
    ])
  ]

-- A call of an operation of the service that changes the table.
pub data Call : Type 0 where
  create : RateLimitCreate → ℕ → String → Call
  update : String → RateLimitUpdate → Call
  delete : String → Call

-- The database after a call, whether it returns or raises.
unfoldable pub after_call :
    {Db : Type 0}
    → Crud Db RateLimit RateLimitCreateInternal
    → Crud Db Tier TierCreate
    → Call
    → Db
    → Db
after_call table tiers (create new tier_id unique_id) db =
    (RateLimits.create table tiers new tier_id unique_id db).1
after_call table tiers (update name u) db = (RateLimits.update table name u db).1
after_call table tiers (delete name) db = (RateLimits.delete table name db).1

unfoldable pub after_calls :
    {Db : Type 0}
    → Crud Db RateLimit RateLimitCreateInternal
    → Crud Db Tier TierCreate
    → List Call
    → Db
    → Db
after_calls table tiers [] db = db
after_calls table tiers (c ∷ cs) db = after_calls table tiers cs (after_call table tiers c db)

module _ {Db : Type 0} (table : Crud Db RateLimit RateLimitCreateInternal)
    (law : IsLawful rate_limit_model table) (tiers : Crud Db Tier TierCreate) where
  after_call-Distinct :
      (c : Call) (db : Db)
      → Distinct rate_limit_name (table.rows db)
      → Distinct rate_limit_name (table.rows (after_call table tiers c db))
  unfolding after_call
  after_call-Distinct (create new tier_id unique_id) db d =
      created table law db tiers new tier_id unique_id d
  after_call-Distinct (update name u) db d = changed table law db name u d
  after_call-Distinct (delete name) db d = removed table law db name d

  -- Over a table of FastCRUD as documented, and from a database in which no two rate limits have the same
  -- name, no two have the same name after any sequence of creations, updates and deletions, the default
  -- names of new ones included.
  pub names-Distinct :
      (cs : List Call) (db : Db)
      → Distinct rate_limit_name (table.rows db)
      → Distinct rate_limit_name (table.rows (after_calls table tiers cs db))
  unfolding after_calls
  names-Distinct [] db d = d
  names-Distinct (c ∷ cs) db d =
      names-Distinct cs (after_call table tiers c db) (after_call-Distinct c db d)
