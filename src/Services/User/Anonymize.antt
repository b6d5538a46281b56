-- ===== src/Services/User/Anonymize.antt =====
-- What `anonymize_user` leaves of a user.
use fastapi_hyperf.Common.{
  ℕ, true, false, List, [], ◌∷◌, ◌≡◌, ◌≢◌, ◌%◌, concat, str, refl, arith, ok, none, some, any, eqb,
  Bool-cases, inl, inr, Result-cases, Result, Option,
}
use fastapi_hyperf.Database.{Crud, IsLawful, count, updated}
use fastapi_hyperf.Services.User.{
  User, UserCreateInternal, UserUpdate, user_model, anonymized, has_id, has_live_id,
}
use fastapi_hyperf.Database.Absent.{absent}
use fastapi_hyperf.Services.Tier.{Tier, TierCreate}
use fastapi_hyperf.Services.User.Service

abbrev mark_deleted : User → User
mark_deleted u = record u { is_deleted = true }

updated_twice :
    (n : ℕ) (f g : User → User)
    → ((u : User) → (f u).id ≡ u.id)
    → (us : List User)
    → updated (has_id n) g (updated (has_id n) f us) ≡ updated (has_id n) (λ u. g (f u)) us
updated_twice n f g same [] = refl
updated_twice n f g same (u ∷ us) = ground (arith, same u, updated_twice n f g same us)

pub none_live :
    (n : ℕ) (f : User → User)
    → ((u : User) → (f u).is_deleted ≡ true)
    → (us : List User) → any (has_live_id n) (updated (has_id n) f us) ≡ false
none_live n f gone [] = refl
none_live n f gone (u ∷ us) = elim (Bool-cases (eqb u.id n)) [
  | inl hit ↦ ground (arith, hit, gone u, none_live n f gone us)
  | inr miss ↦ ground (arith, miss, none_live n f gone us)
]

-- what is left of a user, written out
abbrev pub nobody : ℕ → ℕ → User → User
nobody t n u = record {
  id = u.id;
  name = "[DELETED]";
  username = concat "del_" (concat (str n) (concat "_" (str (t % 10000))));
  email = u.email;
  hashed_password = "DELETED_INVALID_HASH";
  profile_image_url = "https://deleted.com/deleted.jpg";
  tier_id = none;
  is_superuser = false;
  google_id = none;
  github_id = none;
  oauth_provider = none;
  email_verified = false;
  oauth_created_at = none;
  oauth_updated_at = none;
  is_deleted = true;
}

module _ {Db : Type 0} (users : Crud Db User UserCreateInternal)
    (law : IsLawful user_model users) where
  -- Over a table of FastCRUD as documented, where `anonymize_user` returns exactly one row had the id; that
  -- row, and no other, is changed: its name, password hash and picture are the fixed ones, its username is made
  -- of the id and the timestamp, its tier, superuser flag, OAuth accounts and verification are gone, and it is
  -- marked as deleted, while its email and id stay.
  pub anonymize_user-rows :
      (t n : ℕ) (db : Db) (u : Unit {0})
      → (Service.anonymize_user users t n db).0 ≡ ok u
      → (count (has_id n) (users.rows db) ≡ 1)
        × (users.rows (Service.anonymize_user users t n db).1
            ≡ updated (has_id n) (nobody t n) (users.rows db))
  unfolding Service.anonymize_user Service.with_errors anonymized
  anonymize_user-rows t n db u h =
      let f = anonymized n t in
      let p = has_id n in
      let db1 = (users.update p f db).1 in
      elim (Result-cases (users.update p f db).0) [
        | inr (e, hu) ↦ ground (arith, h, hu)
        | inl (o, hu) ↦
            let (one, changed) = law.update-changes p f db o hu in
            (elim (Result-cases (users.delete p db1).0) [
              | inr (e, hd) ↦ ground (arith, h, hu, hd)
              | inl (v, hd) ↦
                  let (again, marked) = law.delete-marks p db1 v hd in
                  ground (
                    arith,
                    h,
                    hu,
                    hd,
                    one,
                    changed,
                    marked,
                    updated_twice n f mark_deleted (λ r. refl) (users.rows db),
                  )
            ])
      ]

  -- Over a table of FastCRUD as documented, once `anonymize_user` has returned, no operation on the live user
  -- with that id returns: `update`, `update_tier` and `get_rate_limits` raise, whatever they are given.
  pub anonymize_user-final :
      (tiers : Crud Db Tier TierCreate)
      (joined : ℕ → Db → Result (Option Service.UserWithRateLimits)) (t n tier_id : ℕ)
      (c : UserUpdate) (db : Db) (u : Unit {0}) (r : User) (w : Service.UserWithRateLimits)
      → (Service.anonymize_user users t n db).0 ≡ ok u
      → let after = (Service.anonymize_user users t n db).1 in
        ((Service.update users n c after).0 ≢ ok r)
        × ((Service.update_tier users tiers n tier_id after).0 ≢ ok r)
        × ((Service.get_rate_limits users joined n after).0 ≢ ok w)
  unfolding Service.update Service.update_tier Service.get_rate_limits
  anonymize_user-final tiers joined t n tier_id c db u r w h =
      let (one, rows) = anonymize_user-rows t n db u h in
      let after = (Service.anonymize_user users t n db).1 in
      let gone : any (has_live_id n) (users.rows after) ≡ false =
        rw rows (none_live n (nobody t n) (λ r. refl) (users.rows db)) in
      elim (Result-cases (users.get (has_live_id n) after)) [
        | inr (e, g) ↦
            (λ k. ground (arith, g, k), λ k. ground (arith, g, k), λ k. ground (arith, g, k))
        | inl (none, g) ↦
            (λ k. ground (arith, g, k), λ k. ground (arith, g, k), λ k. ground (arith, g, k))
        | inl (some x, g) ↦ absurd (absent users law (has_live_id n) after x gone g)
      ]
