-- ===== src/Services/User/Change.antt =====
-- The emails and the usernames of users under the operations of `UserService` that change the table.
use fastapi_hyperf.Common.{
  String, true, false, Option, none, some, ok, ◌≡◌, arith, ℕ, Bool-cases, Option-cases,
  Result-cases, inl, inr, eq_iff, ◌==◌, refl, ◌⊎◌, or_old,
}
use fastapi_hyperf.Database.{Crud, IsLawful, Found}
use fastapi_hyperf.Database.Distinct.{
  used, Distinct, create-Distinct, update-Distinct, update-Distinct_found, delete-Distinct,
  db_delete-Distinct,
}
use fastapi_hyperf.Services.Tier.{Tier, TierCreate}
use fastapi_hyperf.Services.User.{
  User, UserCreate, UserCreateInternal, UserUpdate, user_model, to_internal, patch_user, has_id,
  has_live_id, has_email, has_username, user_email, user_username,
}
use fastapi_hyperf.Services.User.Service

module _ {Db : Type 0} (users : Crud Db User UserCreateInternal) (law : IsLawful user_model users)
    (db : Db) where
  -- a live user that was found has the id
  found_id :
      (n : ℕ) (u : User)
      → users.get (has_live_id n) db ≡ ok (some u)
      → Found (has_id n) u (users.rows db)
  found_id n u h =
      let (hit, where_it_is) = law.get-some (has_live_id n) db u h in
      (ground (arith, hit), where_it_is)

  module _ (column : User → String) where
    -- the column after the change of the user that was found: its old value, or one that is free
    update_found :
        (n : ℕ) (u : User) (c : UserUpdate) (change : Option String)
        → ((r : User) → column (patch_user c r) ≡ or_old (column r) change)
        → users.get (has_live_id n) db ≡ ok (some u)
        → (used column (or_old (column u) change) (users.rows db) ≡ false)
          ⊎ (or_old (column u) change ≡ column u)
        → Distinct column (users.rows db)
        → Distinct column (users.rows (users.update (has_id n) (patch_user c) db).1)
    update_found n u c none shape h cases d =
        update-Distinct_found users law column db (has_id n) (patch_user c) u (found_id n u h)
          (shape u) d
    update_found n u c (some new) shape h (inl free) d =
        update-Distinct users law column db (has_id n) (patch_user c)
          (inr (new, (λ r hit. shape r), free)) d
    update_found n u c (some new) shape h (inr same) d =
        update-Distinct_found users law column db (has_id n) (patch_user c) u (found_id n u h)
          (ground (arith, shape u, same)) d

  email_after :
      (c : UserUpdate) (r : User) → user_email (patch_user c r) ≡ or_old (user_email r) c.email
  unfolding patch_user
  email_after c r = refl

  username_after :
      (c : UserUpdate) (r : User)
      → user_username (patch_user c r) ≡ or_old (user_username r) c.username
  unfolding patch_user
  username_after c r = refl

  emails_updated_found :
      (n : ℕ) (c : UserUpdate) (u : User)
      → users.get (has_live_id n) db ≡ ok (some u)
      → Distinct user_email (users.rows db)
      → Distinct user_email (users.rows (Service.update users n c db).1)
  unfolding Service.update Service.check_new
  emails_updated_found n c u h d =
      let keeps = update_found user_email n u c c.email (email_after c) h in
      elim (Option-cases c.email) [
        | inl unset ↦ ground (arith, d, h, unset, keeps (inr (ground (arith, unset))) d)
        | inr (new, set) ↦ (elim (Bool-cases (new == u.email)) [
          | inl same ↦ ground (
            arith,
            d,
            h,
            set,
            same,
            keeps (inr (ground (arith, set, same, eq_iff new u.email))) d,
          )
          | inr other ↦ (elim (Bool-cases (used user_email new (users.rows db))) [
            | inl taken ↦
                ground (arith, d, h, set, other, taken, law.exists-any (has_email new) db false)
            | inr free ↦ ground (arith, d, h, set, other, keeps (inl (rw set free)) d)
          ])
        ])
      ]

  pub emails_updated :
      (n : ℕ) (c : UserUpdate)
      → Distinct user_email (users.rows db)
      → Distinct user_email (users.rows (Service.update users n c db).1)
  unfolding Service.update
  emails_updated n c d = elim (Result-cases (users.get (has_live_id n) db)) [
    | inr (e, h) ↦ ground (arith, d, h)
    | inl (none, h) ↦ ground (arith, d, h)
    | inl (some u, h) ↦ emails_updated_found n c u h d
  ]

  pub emails_created :
      (hash : String → String) (new : UserCreate)
      → Distinct user_email (users.rows db)
      → Distinct user_email (users.rows (Service.create users hash new db).1)
  unfolding Service.create to_internal
  emails_created hash new d = ground (
    arith,
    d,
    law.exists-any (has_email new.email) db false,
    create-Distinct users law user_email db (to_internal new (hash new.password)) new.email
        (λ n. refl),
  )

  usernames_updated_found :
      (n : ℕ) (c : UserUpdate) (u : User)
      → users.get (has_live_id n) db ≡ ok (some u)
      → Distinct user_username (users.rows db)
      → Distinct user_username (users.rows (Service.update users n c db).1)
  unfolding Service.update Service.check_new
  usernames_updated_found n c u h d =
      let keeps = update_found user_username n u c c.username (username_after c) h in
      elim (Option-cases c.username) [
        | inl unset ↦ ground (arith, d, h, unset, keeps (inr (ground (arith, unset))) d)
        | inr (new, set) ↦ (elim (Bool-cases (new == u.username)) [
          | inl same ↦ ground (
            arith,
            d,
            h,
            set,
            same,
            keeps (inr (ground (arith, set, same, eq_iff new u.username))) d,
          )
          | inr other ↦ (elim (Bool-cases (used user_username new (users.rows db))) [
            | inl taken ↦
                ground (arith, d, h, set, other, taken, law.exists-any (has_username new) db false)
            | inr free ↦ ground (arith, d, h, set, other, keeps (inl (rw set free)) d)
          ])
        ])
      ]

  pub usernames_updated :
      (n : ℕ) (c : UserUpdate)
      → Distinct user_username (users.rows db)
      → Distinct user_username (users.rows (Service.update users n c db).1)
  unfolding Service.update
  usernames_updated n c d = elim (Result-cases (users.get (has_live_id n) db)) [
    | inr (e, h) ↦ ground (arith, d, h)
    | inl (none, h) ↦ ground (arith, d, h)
    | inl (some u, h) ↦ usernames_updated_found n c u h d
  ]

  pub usernames_created :
      (hash : String → String) (new : UserCreate)
      → Distinct user_username (users.rows db)
      → Distinct user_username (users.rows (Service.create users hash new db).1)
  unfolding Service.create to_internal
  usernames_created hash new d = ground (
    arith,
    d,
    law.exists-any (has_username new.username) db false,
    create-Distinct users law user_username db (to_internal new (hash new.password)) new.username
        (λ n. refl),
  )

  module _ (column : User → String) where
    -- what neither adds a row nor touches the column
    pub deleted :
        (n : ℕ)
        → ((u : User) → column (record u { is_deleted = true }) ≡ column u)
        → Distinct column (users.rows db)
        → Distinct column (users.rows (Service.delete users n db).1)
    unfolding Service.delete Service.with_errors
    deleted n same d = ground (arith, delete-Distinct users law column db (has_id n) same d)

    pub removed :
        (n : ℕ)
        → Distinct column (users.rows db)
        → Distinct column (users.rows (Service.permanent_delete users n db).1)
    unfolding Service.permanent_delete Service.with_errors
    removed n d = ground (arith, db_delete-Distinct users law column db (has_id n) d)

    pub tiered :
        (tiers : Crud Db Tier TierCreate) (n tier_id : ℕ)
        → ((u : User) → column (record u { tier_id = some tier_id }) ≡ column u)
        → Distinct column (users.rows db)
        → Distinct column (users.rows (Service.update_tier users tiers n tier_id db).1)
    unfolding Service.update_tier
    tiered tiers n tier_id same d = ground (
      arith,
      d,
      update-Distinct users law column db (has_id n) (λ u. record u { tier_id = some tier_id })
          (inl (λ r h. same r)) d,
    )
