-- ===== src/Database/Absent.antt =====
-- A table in which no row passes a filter: `get` finds none.
use fastapi_hyperf.Common.{Bool, true, false, some, ok, List, [], ◌∷◌, ◌++◌, ◌≡◌, ◌≢◌, arith, any}
use fastapi_hyperf.Database.{Crud, Model, IsLawful}

pub found-any :
    {Row : Type 0} (p : Row → Bool) (x : Row) (before after : List Row)
    → p x ≡ true
    → any p (before ++ (x ∷ after)) ≡ true
found-any p x [] after hit = ground (arith, hit)
found-any p x (r ∷ before) after hit = ground (arith, found-any p x before after)

module _ {Db Row New : Type 0} {model : Model Row New} (table : Crud Db Row New)
    (law : IsLawful model table) where
  pub absent :
      (p : Row → Bool) (db : Db) (r : Row)
      → any p (table.rows db) ≡ false
      → table.get p db ≢ ok (some r)
  absent p db r gone h =
      let (hit, (before, after, e)) = law.get-some p db r h in
      ground (arith, gone, e, found-any p r before after hit)
