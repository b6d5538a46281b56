-- ===== src/Services/Tier/Names.antt =====
-- The names of tiers under the operations of `TierService`.
use fastapi_hyperf.Common.{
  any, ◌≢◌, Result-cases, String, true, false, none, some, List, [], ◌∷◌, ok, ◌≡◌, arith, ℕ,
  Bool-cases, Option-cases, inl, inr, eq_iff, ◌==◌, refl, or_old,
}
use fastapi_hyperf.Database.{Crud, IsLawful, count, updated}
use fastapi_hyperf.Database.Absent.{absent}
use fastapi_hyperf.Database.Distinct.{
  used, Distinct, create-Distinct, update-Distinct, delete-Distinct, db_delete-Distinct,
}
use fastapi_hyperf.Services.Tier
use fastapi_hyperf.Services.Tier.{
  Tier, TierCreate, TierUpdate, tier_model, patch_tier, is_named, tier_name,
}

-- an update of the tier with a name leaves its name, or gives it a new one
renames :
    (u : TierUpdate) (name : String)
    → ((t : Tier) → is_named name t ≡ true → (patch_tier u t).name ≡ or_old name u.name)
unfolding patch_tier
renames u name t h = ground (arith, eq_iff t.name name)

module _ {Db : Type 0} (tiers : Crud Db Tier TierCreate) (law : IsLawful tier_model tiers)
    (db : Db) where
  abbrev Before : Type 0
  Before = Distinct tier_name (tiers.rows db)

  created :
      (new : TierCreate) → Before → Distinct tier_name (tiers.rows (Tier.create tiers new db).1)
  unfolding Tier.create
  created new d = ground (
    arith,
    d,
    law.exists-any (is_named new.name) db false,
    create-Distinct tiers law tier_name db new new.name (λ n. refl),
  )

  deleted : (name : String) → Before → Distinct tier_name (tiers.rows (Tier.delete tiers name db).1)
  unfolding Tier.delete
  deleted name d =
      ground (arith, d, delete-Distinct tiers law tier_name db (is_named name) (λ t. refl) d)

  removed :
      (name : String)
      → Before
      → Distinct tier_name (tiers.rows (Tier.permanent_delete tiers name db).1)
  unfolding Tier.permanent_delete
  removed name d = ground (arith, d, db_delete-Distinct tiers law tier_name db (is_named name) d)

  -- an update that does not rename
  kept :
      (name : String) (u : TierUpdate)
      → or_old name u.name ≡ name
      → Before
      → Distinct tier_name (tiers.rows (Tier.update tiers name u db).1)
  unfolding Tier.update Tier.check_rename
  kept name u same d =
      let keeps : (t : Tier) → is_named name t ≡ true → (patch_tier u t).name ≡ t.name =
        λ t h. ground (arith, renames u name t h, eq_iff t.name name) in
      ground (
        arith,
        d,
        update-Distinct tiers law tier_name db (is_named name) (patch_tier u) (inl keeps) d,
      )

  renamed :
      (name new : String) (u : TierUpdate)
      → u.name ≡ some new
      → (new == name) ≡ false
      → Before
      → Distinct tier_name (tiers.rows (Tier.update tiers name u db).1)
  unfolding Tier.update Tier.check_rename
  renamed name new u set other d = elim (Bool-cases (used tier_name new (tiers.rows db))) [
    | inl taken ↦ ground (arith, d, set, taken, law.exists-any (is_named new) db false)
    | inr free ↦
        let sets : (t : Tier) → is_named name t ≡ true → (patch_tier u t).name ≡ new =
          λ t h. ground (arith, set, renames u name t h) in
        ground (
          arith,
          d,
          update-Distinct tiers law tier_name db (is_named name) (patch_tier u)
              (inr (new, sets, free)) d,
        )
  ]

  changed :
      (name : String) (u : TierUpdate)
      → Before
      → Distinct tier_name (tiers.rows (Tier.update tiers name u db).1)
  changed name u d = elim (Option-cases u.name) [
    | inl unset ↦ kept name u (ground (arith, unset)) d
    | inr (new, set) ↦ (elim (Bool-cases (new == name)) [
      | inl same ↦ kept name u (ground (arith, set, same, eq_iff new name)) d
      | inr other ↦ renamed name new u set other d
    ])
  ]

-- A call of an operation of the service.
pub data Call : Type 0 where
  create : TierCreate → Call
  get_all : ℕ → ℕ → Call
  get_by_id : ℕ → Call
  get_by_name : String → Call
  update : String → TierUpdate → Call
  delete permanent_delete : String → Call

-- The database after a call, whether it returns or raises.
unfoldable pub after_call : {Db : Type 0} → Crud Db Tier TierCreate → Call → Db → Db
after_call tiers (create new) db = (Tier.create tiers new db).1
after_call tiers (get_all skip limit) db = (Tier.get_all tiers skip limit db).1
after_call tiers (get_by_id id) db = (Tier.get_by_id tiers id db).1
after_call tiers (get_by_name name) db = (Tier.get_by_name tiers name db).1
after_call tiers (update name u) db = (Tier.update tiers name u db).1
after_call tiers (delete name) db = (Tier.delete tiers name db).1
after_call tiers (permanent_delete name) db = (Tier.permanent_delete tiers name db).1

unfoldable pub after_calls : {Db : Type 0} → Crud Db Tier TierCreate → List Call → Db → Db
after_calls tiers [] db = db
after_calls tiers (c ∷ cs) db = after_calls tiers cs (after_call tiers c db)

module _ {Db : Type 0} (tiers : Crud Db Tier TierCreate) (law : IsLawful tier_model tiers) where
  after_call-Distinct :
      (c : Call) (db : Db)
      → Distinct tier_name (tiers.rows db)
      → Distinct tier_name (tiers.rows (after_call tiers c db))
  unfolding after_call Tier.get_all Tier.get_by_id Tier.get_by_name
  after_call-Distinct (create new) db d = created tiers law db new d
  after_call-Distinct (get_all skip limit) db d = d
  after_call-Distinct (get_by_id id) db d = ground (arith, d)
  after_call-Distinct (get_by_name name) db d = ground (arith, d)
  after_call-Distinct (update name u) db d = changed tiers law db name u d
  after_call-Distinct (delete name) db d = deleted tiers law db name d
  after_call-Distinct (permanent_delete name) db d = removed tiers law db name d

  -- Over a table of FastCRUD as documented, and from a database in which no two tiers have the same name,
  -- no two tiers, deleted ones included, have the same name after any sequence of calls of the service.
  pub after_calls-Distinct :
      (cs : List Call) (db : Db)
      → Distinct tier_name (tiers.rows db)
      → Distinct tier_name (tiers.rows (after_calls tiers cs db))
  unfolding after_calls
  after_calls-Distinct [] db d = d
  after_calls-Distinct (c ∷ cs) db d =
      after_calls-Distinct cs (after_call tiers c db) (after_call-Distinct c db d)

  -- a tier that is marked is not found as live
  none_live :
      (name : String) (ts : List Tier)
      → any
          (Tier.is_live_named name)
          (updated (is_named name) (λ t. record t { is_deleted = true }) ts)
        ≡ false
  none_live name [] = refl
  none_live name (t ∷ ts) = elim (Bool-cases (t.name == name)) [
    | inl hit ↦ ground (arith, hit, none_live name ts)
    | inr miss ↦ ground (arith, miss, none_live name ts)
  ]

  -- Over a table of FastCRUD as documented, once `delete` of a name has returned, exactly one tier has that
  -- name, and neither `get_by_name` nor `delete` of it returns.
  delete-final :
      (name : String) (db : Db) (u v : Unit {0}) (t : Tier)
      → (Tier.delete tiers name db).0 ≡ ok u
      → let after = (Tier.delete tiers name db).1 in
        (count (is_named name) (tiers.rows db) ≡ 1)
        × ((Tier.get_by_name tiers name after).0 ≢ ok t)
        × ((Tier.delete tiers name after).0 ≢ ok v)
  unfolding Tier.delete Tier.get_by_name
  delete-final name db u v t h = elim (Result-cases (tiers.delete (is_named name) db).0) [
    | inr (e, hd) ↦ ground (arith, h, hd)
    | inl (w, hd) ↦
        let (one, marked) = law.delete-marks (is_named name) db w hd in
        let after = (tiers.delete (is_named name) db).1 in
        let gone : any (Tier.is_live_named name) (tiers.rows after) ≡ false =
          rw marked (none_live name (tiers.rows db)) in
        (elim (Result-cases (tiers.get (Tier.is_live_named name) after)) [
          | inr (e, g) ↦ (one, λ k. ground (arith, h, g, k), λ k. ground (arith, h, g, k))
          | inl (none, g) ↦ (one, λ k. ground (arith, h, g, k), λ k. ground (arith, h, g, k))
          | inl (some x, g) ↦ absurd (absent tiers law (Tier.is_live_named name) after x gone g)
        ])
  ]
