-- ===== src/Services/User/Calls.antt =====
-- Sequences of calls of the operations of `UserService` that change the table of users.
use fastapi_hyperf.Common.{ℕ, String, Bool, true, false, List, [], ◌∷◌, ◌≡◌, arith, all, inl, refl}
use fastapi_hyperf.Database.{Crud, IsLawful}
use fastapi_hyperf.Database.Distinct.{Distinct, update-Distinct, delete-Distinct}
use fastapi_hyperf.Services.Tier.{Tier, TierCreate}
use fastapi_hyperf.Services.User.{
  User, UserCreate, UserCreateInternal, UserUpdate, user_model, anonymized, has_id, user_email,
  user_username,
}
use fastapi_hyperf.Services.User.Service
use fastapi_hyperf.Services.User.Change.{
  emails_updated, emails_created, usernames_updated, usernames_created, deleted, removed, tiered,
}

-- `anonymize_user` at an instant
pub data Call : Type 0 where
  create : UserCreate → Call
  update : ℕ → UserUpdate → Call
  delete permanent_delete : ℕ → Call
  update_tier : ℕ → ℕ → Call
  anonymize_user : ℕ → ℕ → Call

module _ {Db : Type 0} (users : Crud Db User UserCreateInternal) (tiers : Crud Db Tier TierCreate)
    (hash : String → String) where
  -- The database after a call, whether it returns or raises.
  unfoldable pub after_call : Call → Db → Db
  after_call (create new) db = (Service.create users hash new db).1
  after_call (update n c) db = (Service.update users n c db).1
  after_call (delete n) db = (Service.delete users n db).1
  after_call (permanent_delete n) db = (Service.permanent_delete users n db).1
  after_call (update_tier n tier_id) db = (Service.update_tier users tiers n tier_id db).1
  after_call (anonymize_user t n) db = (Service.anonymize_user users t n db).1

  unfoldable pub after_calls : List Call → Db → Db
  after_calls [] db = db
  after_calls (c ∷ cs) db = after_calls cs (after_call c db)

  module _ (law : IsLawful user_model users) where
    anonymized_email :
        (t n : ℕ) (db : Db)
        → Distinct user_email (users.rows db)
        → Distinct user_email (users.rows (Service.anonymize_user users t n db).1)
    unfolding Service.anonymize_user Service.with_errors anonymized
    anonymized_email t n db d =
        let updated_db = (users.update (has_id n) (anonymized n t) db).1 in
        let d1 =
          update-Distinct users law user_email db (has_id n) (anonymized n t) (inl (λ r h. refl))
            d in
        ground
          (arith, d, d1, delete-Distinct users law user_email updated_db (has_id n) (λ r. refl) d1)

    after_call-emails :
        (c : Call) (db : Db)
        → Distinct user_email (users.rows db)
        → Distinct user_email (users.rows (after_call c db))
    unfolding after_call
    after_call-emails (create new) db d = emails_created users law db hash new d
    after_call-emails (update n c) db d = emails_updated users law db n c d
    after_call-emails (delete n) db d = deleted users law db user_email n (λ u. refl) d
    after_call-emails (permanent_delete n) db d = removed users law db user_email n d
    after_call-emails (update_tier n tier_id) db d =
        tiered users law db user_email tiers n tier_id (λ u. refl) d
    after_call-emails (anonymize_user t n) db d = anonymized_email t n db d

    -- Over a table of FastCRUD as documented, and from a database in which no two users have the same email,
    -- no two users, deleted and anonymized ones included, have the same email after any sequence of calls
    -- of the service, whichever of them raise.
    pub emails-Distinct :
        (cs : List Call) (db : Db)
        → Distinct user_email (users.rows db)
        → Distinct user_email (users.rows (after_calls cs db))
    unfolding after_calls
    emails-Distinct [] db d = d
    emails-Distinct (c ∷ cs) db d = emails-Distinct cs (after_call c db) (after_call-emails c db d)

    -- `anonymize_user` alone writes a username without asking whether it is taken
    abbrev pub asks : Call → Bool
    asks (anonymize_user t n) = false
    asks (create new) = true
    asks (update n c) = true
    asks (delete n) = true
    asks (permanent_delete n) = true
    asks (update_tier n tier_id) = true

    after_call-usernames :
        (c : Call) (db : Db)
        → asks c ≡ true
        → Distinct user_username (users.rows db)
        → Distinct user_username (users.rows (after_call c db))
    unfolding after_call
    after_call-usernames (create new) db a d = usernames_created users law db hash new d
    after_call-usernames (update n c) db a d = usernames_updated users law db n c d
    after_call-usernames (delete n) db a d = deleted users law db user_username n (λ u. refl) d
    after_call-usernames (permanent_delete n) db a d = removed users law db user_username n d
    after_call-usernames (update_tier n tier_id) db a d =
        tiered users law db user_username tiers n tier_id (λ u. refl) d
    after_call-usernames (anonymize_user t n) db a d = ground arith

    -- Over a table of FastCRUD as documented, and from a database in which no two users have the same
    -- username, no two users have the same one after any sequence of calls of the service other than
    -- `anonymize_user`, whichever of them raise.
    pub usernames-Distinct :
        (cs : List Call) (db : Db)
        → all asks cs ≡ true
        → Distinct user_username (users.rows db)
        → Distinct user_username (users.rows (after_calls cs db))
    unfolding after_calls
    usernames-Distinct [] db a d = d
    usernames-Distinct (c ∷ cs) db a d =
        usernames-Distinct cs (after_call c db) (ground arith)
          (after_call-usernames c db (ground arith) d)
