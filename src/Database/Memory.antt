-- ===== src/Database/Memory.antt =====
-- A table held in a list, which meets what is assumed of FastCRUD. A new row's key exceeds every key there.
use fastapi_hyperf.Common.{
  ℕ, zero, suc, ◌+◌, ◌≤◌, Bool, true, false, Option, none, some, List, [], ◌∷◌, ◌++◌, Result, ok,
  err, ◌≡◌, refl, ap, arith, if◌then◌else◌, any, length, take, drop, eqb, Bool-cases, inl, inr,
  no_result_found, multiple_results_found,
}
use fastapi_hyperf.Database.{Crud, Model, IsLawful, count, updated, rejected, Found}

module _ {Row New : Type 0} (model : Model Row New) where
  abbrev total : List Row → ℕ
  total [] = 0
  total (r ∷ rs) = model.id r + total rs

  abbrev find : (Row → Bool) → List Row → Option Row
  find p [] = none
  find p (r ∷ rs) = let rest = find p rs in if p r then some r else rest

  abbrev write : (Row → Bool) → List Row → List Row → Result (Option Row) × List Row
  write p changed rs =
      if eqb (count p rs) 1
      then (ok none, changed)
      else (if eqb (count p rs) 0
          then (err no_result_found, rs)
          else (err multiple_results_found, rs))

  abbrev mark : (Row → Bool) → List Row → List Row → Result (Unit {0}) × List Row
  mark p changed rs =
      if eqb (count p rs) 1
      then (ok tt, changed)
      else (if eqb (count p rs) 0
          then (err no_result_found, rs)
          else (err multiple_results_found, rs))

  abbrev pub memory : Crud (List Row) Row New
  memory = record {
    rows = λ rs. rs;
    exists = λ p rs. ok (any p rs);
    get = λ p rs. ok (find p rs);
    get_multi = λ offset limit p rs.
        ok (take limit (drop offset (rejected (λ r. if p r then false else true) rs)));
    create = λ new rs. let r = model.made (suc (total rs)) new in (ok (some r), rs ++ (r ∷ []));
    update = λ p f rs. write p (updated p f rs) rs;
    delete = λ p rs. mark p (updated p model.marked rs) rs;
    db_delete = λ p rs. (ok tt, rejected p rs);
  }

  find-none : (p : Row → Bool) (rs : List Row) → find p rs ≡ none → any p rs ≡ false
  find-none p [] h = refl
  find-none p (r ∷ rs) h = ground (arith, find-none p rs)

  found_later :
      (p : Row → Bool) (x : Row) (rs : List Row) (r : Row) → Found p r rs → Found p r (x ∷ rs)
  found_later p x rs r (passes, (before, after, e)) = (passes, (x ∷ before, after, ap (◌∷◌ x) e))

  find-some : (p : Row → Bool) (rs : List Row) (r : Row) → find p rs ≡ some r → Found p r rs
  find-some p [] r h = ground arith
  find-some p (x ∷ rs) r h = elim (Bool-cases (p x)) [
    | inl hit ↦ (ground arith, ([], rs, ground arith))
    | inr miss ↦ found_later p x rs r (find-some p rs r (ground arith))
  ]

  length-take : (n : ℕ) (rs : List Row) → length (take n rs) ≤ n
  length-take zero rs = omega arith
  length-take (suc n) [] = omega arith
  length-take (suc n) (r ∷ rs) = omega (arith, length-take n rs)

  fresh : (rs : List Row) (n : ℕ) → total rs ≤ n → any (λ r. eqb (model.id r) (suc n)) rs ≡ false
  fresh [] n h = refl
  fresh (r ∷ rs) n h = ground (arith, fresh rs n)

  pub memory-IsLawful : IsLawful model memory
  memory-IsLawful = record {
    exists-any = λ p rs b h. ground arith;
    get-none = λ p rs h. find-none p rs (ground arith);
    get-some = λ p rs r h. find-some p rs r (ground arith);
    get_multi-length = λ offset limit p rs page h.
        ground
          (arith, length-take limit (drop offset (rejected (λ r. if p r then false else true) rs)));
    create-adds = λ new rs o h. (suc (total rs), fresh rs (total rs) (omega arith), refl);
    create-raises = λ new rs e h. ground arith;
    update-changes = λ p f rs o h. ground arith;
    update-raises = λ p f rs e h. ground arith;
    delete-marks = λ p rs u h. ground arith;
    delete-raises = λ p rs e h. ground arith;
    db_delete-removes = λ p rs u h. refl;
    db_delete-raises = λ p rs e h. ground arith;
  }
