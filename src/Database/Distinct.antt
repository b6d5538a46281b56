-- ===== src/Database/Distinct.antt =====
-- Columns whose values the services keep distinct, under the changes that FastCRUD makes to the rows.
use fastapi_hyperf.Common.{
  ℕ, ◌≤◌, String, Bool, true, false, ◌||◌, List, [], ◌∷◌, ◌++◌, ◌≡◌, refl, sym, subst, arith, ◌==◌,
  eq_iff, any, Bool-cases, inl, inr, Result-cases, ◌⊎◌,
}
use fastapi_hyperf.Database.{Crud, Model, IsLawful, count, updated, rejected, Found}

updated-none :
    {Row : Type 0} (p : Row → Bool) (f : Row → Row) (rs : List Row)
    → count p rs ≡ 0
    → updated p f rs ≡ rs
updated-none p f [] h = refl
updated-none p f (x ∷ rs) h = ground (arith, updated-none p f rs)

module _ {Row : Type 0} (column : Row → String) where
  -- a row has the value in the column
  abbrev pub used : String → List Row → Bool
  used k rs = any (λ r. column r == k) rs

  abbrev pub Distinct : List Row → Type 0
  Distinct [] = Unit
  Distinct (r ∷ rs) = (used (column r) rs ≡ false) × Distinct rs

  used-append :
      (k : String) (rs : List Row) (r : Row)
      → used k (rs ++ (r ∷ [])) ≡ used k rs || (column r == k)
  used-append k [] r = ground arith
  used-append k (x ∷ rs) r = ground (arith, used-append k rs r)

  Distinct-append :
      (rs : List Row) (r : Row)
      → used (column r) rs ≡ false
      → Distinct rs
      → Distinct (rs ++ (r ∷ []))
  Distinct-append [] r free distinct = (refl, tt)
  Distinct-append (x ∷ rs) r free (first, rest) = (
    ground (
      arith,
      used-append (column x) rs r,
      eq_iff (column r) (column x),
      eq_iff (column x) (column r),
    ),
    Distinct-append rs r (ground arith) rest,
  )

  used-rejected :
      (p : Row → Bool) (k : String) (rs : List Row)
      → used k rs ≡ false
      → used k (rejected p rs) ≡ false
  used-rejected p k [] h = refl
  used-rejected p k (x ∷ rs) h = ground (arith, used-rejected p k rs)

  Distinct-rejected : (p : Row → Bool) (rs : List Row) → Distinct rs → Distinct (rejected p rs)
  Distinct-rejected p [] distinct = tt
  Distinct-rejected p (x ∷ rs) (first, rest) = elim (Bool-cases (p x)) [
    | inl hit ↦ rw hit (Distinct-rejected p rs rest)
    | inr miss ↦ rw miss (used-rejected p (column x) rs first, Distinct-rejected p rs rest)
  ]

  module _ (p : Row → Bool) (f : Row → Row) where
    used-same :
        ((r : Row) → p r ≡ true → column (f r) ≡ column r)
        → (k : String) (rs : List Row) → used k (updated p f rs) ≡ used k rs
    used-same same k [] = refl
    used-same same k (x ∷ rs) = elim (Bool-cases (p x)) [
      | inl hit ↦ ground (arith, used-same same k rs, same x hit)
      | inr miss ↦ ground (arith, used-same same k rs)
    ]

    Distinct-same :
        ((r : Row) → p r ≡ true → column (f r) ≡ column r)
        → (rs : List Row) → Distinct rs
        → Distinct (updated p f rs)
    Distinct-same same [] distinct = tt
    Distinct-same same (x ∷ rs) (first, rest) = elim (Bool-cases (p x)) [
      | inl hit ↦
          (ground (arith, same x hit, used-same same (column x) rs), Distinct-same same rs rest)
      | inr miss ↦ (ground (arith, used-same same (column x) rs), Distinct-same same rs rest)
    ]

    module _ (k : String) (set : (r : Row) → p r ≡ true → column (f r) ≡ k) where
      used-set :
          (j : String) (rs : List Row)
          → used j rs ≡ false
          → (k == j) ≡ false
          → used j (updated p f rs) ≡ false
      used-set j [] unused apart = refl
      used-set j (x ∷ rs) unused apart = elim (Bool-cases (p x)) [
        | inl hit ↦ ground (arith, used-set j rs, set x hit)
        | inr miss ↦ ground (arith, used-set j rs)
      ]

      -- one row takes a value that no row has
      Distinct-set :
          (rs : List Row)
          → count p rs ≤ 1
          → used k rs ≡ false
          → Distinct rs
          → Distinct (updated p f rs)
      Distinct-set [] one free distinct = tt
      Distinct-set (x ∷ rs) one free (first, rest) = elim (Bool-cases (p x)) [
        | inl hit ↦
            let alone : updated p f rs ≡ rs = updated-none p f rs (ground arith) in
            rw hit (rw alone (ground (arith, set x hit), rest))
        | inr miss ↦ rw miss (
          used-set (column x) rs first (ground (arith, eq_iff k (column x), eq_iff (column x) k)),
          Distinct-set rs (ground arith) (ground arith) rest,
        )
      ]

-- one row alone passes the filter
module _ {Row : Type 0} (p : Row → Bool) (f : Row → Row) (x : Row) (hit : p x ≡ true) where
  count_found : (before after : List Row) → 1 ≤ count p (before ++ (x ∷ after))
  count_found [] after = ground (arith, hit)
  count_found (r ∷ before) after = ground (arith, count_found before after)

  updated-found :
      (before after : List Row)
      → count p (before ++ (x ∷ after)) ≡ 1
      → updated p f (before ++ (x ∷ after)) ≡ before ++ (f x ∷ after)
  updated-found [] after one = ground (arith, hit, updated-none p f after)
  updated-found (r ∷ before) after one =
      ground (arith, count_found before after, updated-found before after)

module _ {Row : Type 0} (column : Row → String) (x y : Row) (same : column y ≡ column x) where
  used-swap :
      (k : String) (before after : List Row)
      → used column k (before ++ (y ∷ after)) ≡ used column k (before ++ (x ∷ after))
  used-swap k [] after = ground (arith, same)
  used-swap k (r ∷ before) after = ground (arith, used-swap k before after)

  Distinct-swap :
      (before after : List Row)
      → Distinct column (before ++ (x ∷ after))
      → Distinct column (before ++ (y ∷ after))
  Distinct-swap [] after (first, rest) = (rw same first, rest)
  Distinct-swap (r ∷ before) after (first, rest) =
      (rw (used-swap (column r) before after) first, Distinct-swap before after rest)

-- The values of a column are distinct after a write, whatever its outcome.
module _ {Db Row New : Type 0} {model : Model Row New} (table : Crud Db Row New) where
  module _ (law : IsLawful model table) (column : Row → String) (db : Db) where
    pub create-Distinct :
        (new : New) (k : String)
        → ((n : ℕ) → column (model.made n new) ≡ k)
        → used column k (table.rows db) ≡ false
        → Distinct column (table.rows db)
        → Distinct column (table.rows (table.create new db).1)
    create-Distinct new k named free d = elim (Result-cases (table.create new db).0) [
      | inl (o, h) ↦
          let (n, fresh, added) = law.create-adds new db o h in
          rw added (
            Distinct-append column _ _
              (subst (λ j. used column j (table.rows db) ≡ false) (sym (named n)) free) d)
      | inr (e, h) ↦ rw (law.create-raises new db e h) d
    ]

    -- `update` where the column keeps its value, or one row takes one that no row has
    pub update-Distinct :
        (p : Row → Bool) (f : Row → Row)
        → (((r : Row) → p r ≡ true → column (f r) ≡ column r)
            ⊎ ((k : String) × ((r : Row) → p r ≡ true → column (f r) ≡ k)
                × (used column k (table.rows db) ≡ false)))
        → Distinct column (table.rows db)
        → Distinct column (table.rows (table.update p f db).1)
    update-Distinct p f change d = elim (Result-cases (table.update p f db).0) [
      | inl (o, h) ↦
          let (one, changed) = law.update-changes p f db o h in
          rw changed (elim change [
            | inl same ↦ Distinct-same column p f same _ d
            | inr (k, set, free) ↦ Distinct-set column p f k set _ (omega arith) free d
          ])
      | inr (e, h) ↦ rw (law.update-raises p f db e h) d
    ]

    -- `update` of a row that was found, and whose column keeps its value
    pub update-Distinct_found :
        (p : Row → Bool) (f : Row → Row) (x : Row)
        → Found p x (table.rows db)
        → column (f x) ≡ column x
        → Distinct column (table.rows db)
        → Distinct column (table.rows (table.update p f db).1)
    update-Distinct_found p f x (hit, (before, after, e)) same d =
        elim (Result-cases (table.update p f db).0) [
          | inl (o, h) ↦
              let (one, changed) = law.update-changes p f db o h in
              rw changed (
                rw e (
                  rw (updated-found p f x hit before after (ground (arith, one, e)))
                    (Distinct-swap column x (f x) same before after (subst (Distinct column) e d))))
          | inr (er, h) ↦ rw (law.update-raises p f db er h) d
        ]

    pub delete-Distinct :
        (p : Row → Bool)
        → ((r : Row) → column (model.marked r) ≡ column r)
        → Distinct column (table.rows db)
        → Distinct column (table.rows (table.delete p db).1)
    delete-Distinct p same d = elim (Result-cases (table.delete p db).0) [
      | inl (u, h) ↦
          rw ((law.delete-marks p db u h).1)
            (Distinct-same column p model.marked (λ r h. same r) _ d)
      | inr (e, h) ↦ rw (law.delete-raises p db e h) d
    ]

    pub db_delete-Distinct :
        (p : Row → Bool)
        → Distinct column (table.rows db)
        → Distinct column (table.rows (table.db_delete p db).1)
    db_delete-Distinct p d = elim (Result-cases (table.db_delete p db).0) [
      | inl (u, h) ↦ rw (law.db_delete-removes p db u h) (Distinct-rejected column p _ d)
      | inr (e, h) ↦ rw (law.db_delete-raises p db e h) d
    ]
