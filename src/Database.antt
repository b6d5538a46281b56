-- ===== src/Database.antt =====
-- The database as app/services/*.py use it: `FastCRUD` over a SQLAlchemy model is a parameter, a record of
-- its methods with what the services rely on. Filters (`name=name`, `is_deleted=False`) are tests of a row.
pub mod Absent
pub mod Distinct
pub mod Memory
use fastapi_hyperf.Common.{
  ℕ, suc, ◌≤◌, Bool, true, false, Option, none, some, List, [], ◌∷◌, ◌++◌, Result, ok, err, Exec,
  Error, ◌≡◌, if◌then◌else◌, any, length, eqb,
}

-- FastCRUD(Model). What `update` is given is the change of a row by the fields that are set.
pub record Crud (Db Row New : Type 0) : Type 0 where
  pub rows : Db → List Row
  pub exists : (Row → Bool) → Db → Result Bool
  pub get : (Row → Bool) → Db → Result (Option Row)
  pub get_multi : ℕ → ℕ → (Row → Bool) → Db → Result (List Row)
  pub create : New → Exec Db (Option Row)
  pub update : (Row → Bool) → (Row → Row) → Exec Db (Option Row)
  pub delete : (Row → Bool) → Exec Db (Unit {0})
  pub db_delete : (Row → Bool) → Exec Db (Unit {0})

-- A model: its primary key, the row of a new object under a key, and the row that is marked as deleted.
pub record Model (Row New : Type 0) : Type 0 where
  pub id : Row → ℕ
  pub made : ℕ → New → Row
  pub marked : Row → Row

module _ {Row : Type 0} where
  abbrev pub count : (Row → Bool) → List Row → ℕ
  count p [] = 0
  count p (r ∷ rs) = let n = count p rs in if p r then suc n else n

  abbrev pub updated : (Row → Bool) → (Row → Row) → List Row → List Row
  updated p f [] = []
  updated p f (r ∷ rs) = (if p r then f r else r) ∷ updated p f rs

  abbrev pub rejected : (Row → Bool) → List Row → List Row
  rejected p [] = []
  rejected p (r ∷ rs) = let rest = rejected p rs in if p r then rest else r ∷ rest

  -- a row of the table that passes a filter
  abbrev pub Found : (Row → Bool) → Row → List Row → Type 0
  Found p r rs =
      (p r ≡ true) × ((before : List Row) × (after : List Row) × (rs ≡ before ++ (r ∷ after)))

-- Reads change nothing, by their type, and answer of the rows; a write that raises leaves the rows; one that
-- returns has done what it says, to exactly one row, or raises NoResultFound or MultipleResultsFound.
pub record IsLawful {Db Row New : Type 0} (model : Model Row New) (table : Crud Db Row New)
    : Type 0 where
  pub exists-any :
      (p : Row → Bool) (db : Db) (b : Bool) → table.exists p db ≡ ok b → any p (table.rows db) ≡ b
  pub get-none :
      (p : Row → Bool) (db : Db) → table.get p db ≡ ok none → any p (table.rows db) ≡ false
  pub get-some :
      (p : Row → Bool) (db : Db) (r : Row)
      → table.get p db ≡ ok (some r)
      → Found p r (table.rows db)
  pub get_multi-length :
      (offset limit : ℕ) (p : Row → Bool) (db : Db) (page : List Row)
      → table.get_multi offset limit p db ≡ ok page
      → length page ≤ limit
  pub create-adds :
      (new : New) (db : Db) (o : Option Row)
      → (table.create new db).0 ≡ ok o
      → (n : ℕ) × (any (λ r. eqb (model.id r) n) (table.rows db) ≡ false)
        × (table.rows (table.create new db).1 ≡ table.rows db ++ (model.made n new ∷ []))
  pub create-raises :
      (new : New) (db : Db) (e : Error)
      → (table.create new db).0 ≡ err e
      → table.rows (table.create new db).1 ≡ table.rows db
  pub update-changes :
      (p : Row → Bool) (f : Row → Row) (db : Db) (o : Option Row)
      → (table.update p f db).0 ≡ ok o
      → (count p (table.rows db) ≡ 1)
        × (table.rows (table.update p f db).1 ≡ updated p f (table.rows db))
  pub update-raises :
      (p : Row → Bool) (f : Row → Row) (db : Db) (e : Error)
      → (table.update p f db).0 ≡ err e
      → table.rows (table.update p f db).1 ≡ table.rows db
  pub delete-marks :
      (p : Row → Bool) (db : Db) (u : Unit {0})
      → (table.delete p db).0 ≡ ok u
      → (count p (table.rows db) ≡ 1)
        × (table.rows (table.delete p db).1 ≡ updated p model.marked (table.rows db))
  pub delete-raises :
      (p : Row → Bool) (db : Db) (e : Error)
      → (table.delete p db).0 ≡ err e
      → table.rows (table.delete p db).1 ≡ table.rows db
  pub db_delete-removes :
      (p : Row → Bool) (db : Db) (u : Unit {0})
      → (table.db_delete p db).0 ≡ ok u
      → table.rows (table.db_delete p db).1 ≡ rejected p (table.rows db)
  pub db_delete-raises :
      (p : Row → Bool) (db : Db) (e : Error)
      → (table.db_delete p db).0 ≡ err e
      → table.rows (table.db_delete p db).1 ≡ table.rows db
