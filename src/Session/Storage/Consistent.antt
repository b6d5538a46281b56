-- ===== src/Session/Storage/Consistent.antt =====
-- The two dictionaries of the memory storage, `self.data` and `self.expiry`, have the same keys, so
-- `del self.data[key]` in `_check_expiry` does not raise: each method keeps this.
use fastapi_hyperf.Common.{
  suc, ℕ, ◌+◌, String, Bool, true, false, Option, none, some, List, [], ◌∷◌, ◌≡◌, refl, arith,
  eq_iff, Bool-cases, inl, inr, if◌then◌else◌, Exec, ok, Result, err, resume, pure, ◌>>=◌,
}
use fastapi_hyperf.Common.Dict
use fastapi_hyperf.Common.Dict.{contains, get-put, get-remove}
use fastapi_hyperf.Session.Storage.{
  Codec, Storage, seconds, decode, or_default, is_past, get_key, check_expiry, write, delete,
  set_expiry, extend, exists, scan_keys, scan_iter, delete_keys, delete_pattern, close, create,
  overwrite, get, update,
}

module _ {Bytes : Type 0} where
  -- The two dictionaries have the same keys.
  pub record IsConsistent (s : Storage Bytes) : Type 0 where
    pub same : (k : String) → contains k s.stored ≡ contains k s.expiry

  -- the storage without a key
  abbrev pub without : String → Storage Bytes → Storage Bytes
  without key s = record s { stored = Dict.remove key s.stored; expiry = Dict.remove key s.expiry }

  -- what `_check_expiry` leaves
  abbrev pub swept : ℕ → String → Storage Bytes → Storage Bytes
  swept now key s = if is_past (Dict.get key s.expiry) now then without key s else s

  without-IsConsistent :
      (key : String) (s : Storage Bytes) → IsConsistent s → IsConsistent (without key s)
  without-IsConsistent key s h = record {
    same = λ k. ground (arith, get-remove key k s.stored, get-remove key k s.expiry, h.same k);
  }

  pub swept-IsConsistent :
      (now : ℕ) (key : String) (s : Storage Bytes) → IsConsistent s → IsConsistent (swept now key s)
  swept-IsConsistent now key s h = elim (Bool-cases (is_past (Dict.get key s.expiry) now)) [
    | inl past ↦ rw past (without-IsConsistent key s h)
    | inr live ↦ rw live h
  ]

  pub check_expiry-swept :
      (now : ℕ) (key : String) (s : Storage Bytes)
      → IsConsistent s
      → check_expiry now key s ≡ (ok (is_past (Dict.get key s.expiry) now), swept now key s)
  unfolding check_expiry
  check_expiry-swept now key s h = ground (arith, h.same key)

  pub write-IsConsistent :
      (now : ℕ) (key : String) (value : Bytes) (custom : Option ℕ) (s : Storage Bytes)
      → IsConsistent s
      → IsConsistent (write now key value custom s)
  unfolding write
  write-IsConsistent now key value custom s h = record {
    same = λ k. ground (
      arith,
      get-put key k value s.stored,
      get-put key k (now + seconds (or_default custom s.expiration)) s.expiry,
      h.same k,
    );
  }

-- A call that returns, and leaves a consistent storage.
pub record IsSafe {A Bytes : Type 0} (r : Result A × Storage Bytes) : Type 0 where
  pub value : A
  pub returned : r.0 ≡ ok value
  pub consistent : IsConsistent r.1

module _ {A B Bytes : Type 0} where
  pub IsSafe-resume :
      (f : A → Exec (Storage Bytes) B) (r : Result A × Storage Bytes)
      → ((a : A) (s : Storage Bytes) → IsConsistent s → IsSafe (f a s))
      → IsSafe r
      → IsSafe (resume f r)
  IsSafe-resume f (ok a, s) each safe = each a s safe.consistent
  IsSafe-resume f (err e, s) each safe = absurd (ground (arith, safe.returned))

module _ {Bytes : Type 0} where
  check_expiry-IsSafe :
      (now : ℕ) (key : String) (s : Storage Bytes)
      → IsConsistent s
      → IsSafe (check_expiry now key s)
  check_expiry-IsSafe now key s h =
      rw (check_expiry-swept now key s h)
        (record { value = _; returned = refl; consistent = swept-IsConsistent now key s h })

  set_expiry-IsSafe :
      (now : ℕ) (key : String) (custom : Option ℕ) (s : Storage Bytes)
      → contains key s.stored ≡ true
      → IsConsistent s
      → IsSafe (set_expiry now key custom s)
  unfolding set_expiry
  set_expiry-IsSafe now key custom s there h = record {
    value = true;
    returned = refl;
    consistent = record {
      same = λ k. ground (
        arith,
        get-put key k (now + seconds (or_default custom s.expiration)) s.expiry,
        h.same k,
        eq_iff key k,
      );
    };
  }

  -- a branch that returns a value and leaves the state
  pub pure-IsSafe : {A : Type 0} (a : A) (s : Storage Bytes) → IsConsistent s → IsSafe (pure a s)
  pure-IsSafe a s h = record { value = a; returned = refl; consistent = h }

  -- a check of the deadline of a key that is there, and what follows it
  guarded-IsSafe :
      (now : ℕ) (key : String) (f : Bool → Exec (Storage Bytes) Bool) (s : Storage Bytes)
      → IsConsistent s
      → ((r : Storage Bytes) → IsConsistent r → IsSafe (f true r))
      → (contains key s.stored ≡ true → IsSafe (f false s))
      → IsSafe (
          if contains key s.stored
          then (do expired ← check_expiry now key; f expired) s
          else pure false s)
  guarded-IsSafe now key f s h expired act = elim (Bool-cases (contains key s.stored)) [
    | inr missing ↦ rw missing (pure-IsSafe false s h)
    | inl there ↦
        rw (there, check_expiry-swept now key s h)
          (elim (Bool-cases (is_past (Dict.get key s.expiry) now)) [
            | inl past ↦ rw past (expired _ (without-IsConsistent key s h))
            | inr live ↦ rw live (act there)
          ])
  ]

  pub delete-IsSafe :
      (session_id : String) (s : Storage Bytes) → IsConsistent s → IsSafe (delete session_id s)
  unfolding delete
  delete-IsSafe session_id s h = elim (Bool-cases (contains (get_key s session_id) s.stored)) [
    | inl there ↦ rw there (pure-IsSafe true _ (without-IsConsistent _ s h))
    | inr missing ↦ rw missing (pure-IsSafe false s h)
  ]

  pub extend-IsSafe :
      (t u : ℕ) (session_id : String) (custom : Option ℕ) (s : Storage Bytes)
      → IsConsistent s
      → IsSafe (extend t u session_id custom s)
  unfolding extend
  extend-IsSafe t u session_id custom s h =
      guarded-IsSafe t (get_key s session_id)
        (λ expired. if expired then pure false else set_expiry u (get_key s session_id) custom) s h
        (λ r k. pure-IsSafe false r k)
        (λ there. set_expiry-IsSafe u (get_key s session_id) custom s there h)

  pub exists-IsSafe :
      (t : ℕ) (session_id : String) (s : Storage Bytes)
      → IsConsistent s
      → IsSafe (exists t session_id s)
  unfolding exists
  exists-IsSafe t session_id s h =
      guarded-IsSafe t (get_key s session_id) (λ expired. pure (if expired then false else true)) s
        h (λ r k. pure-IsSafe false r k) (λ there. pure-IsSafe true s h)

  scan_keys-IsSafe :
      (clock : ℕ → ℕ) (wanted : Option String) (found : List String) (s : Storage Bytes)
      → IsConsistent s
      → IsSafe (scan_keys clock wanted found s)
  unfolding scan_keys
  scan_keys-IsSafe clock wanted [] s h = pure-IsSafe [] s h
  scan_keys-IsSafe clock wanted (key ∷ rest) s h =
      IsSafe-resume _ (check_expiry (clock 0) key s)
        (λ a s' h'.
          IsSafe-resume _ (scan_keys (λ i. clock (suc i)) wanted rest s')
            (λ b t k. pure-IsSafe _ t k) (scan_keys-IsSafe (λ i. clock (suc i)) wanted rest s' h'))
        (check_expiry-IsSafe (clock 0) key s h)

  pub scan_iter-IsSafe :
      (clock : ℕ → ℕ) (wanted : Option String) (s : Storage Bytes)
      → IsConsistent s
      → IsSafe (scan_iter clock wanted s)
  unfolding scan_iter
  scan_iter-IsSafe clock wanted s h = scan_keys-IsSafe clock wanted (Dict.keys s.stored) s h

  pub close-IsSafe : (s : Storage Bytes) → IsSafe (close s)
  unfolding close Dict.get
  close-IsSafe s =
      pure-IsSafe true (record s { stored = []; expiry = [] }) (record { same = λ k. refl })

  delete_keys-IsSafe :
      (found : List String) (n : ℕ) (s : Storage Bytes)
      → IsConsistent s
      → IsSafe (delete_keys found n s)
  unfolding delete_keys
  delete_keys-IsSafe [] n s h = pure-IsSafe n s h
  delete_keys-IsSafe (key ∷ rest) n s h = elim (Bool-cases (contains key s.stored)) [
    | inl there ↦ rw there (delete_keys-IsSafe rest (n + 1) _ (without-IsConsistent key s h))
    | inr missing ↦ rw missing (delete_keys-IsSafe rest n s h)
  ]

  pub delete_pattern-IsSafe :
      (clock : ℕ → ℕ) (pattern : String) (s : Storage Bytes)
      → IsConsistent s
      → IsSafe (delete_pattern clock pattern s)
  unfolding delete_pattern scan_iter
  delete_pattern-IsSafe clock pattern s h =
      IsSafe-resume _ (scan_keys clock (some pattern) (Dict.keys s.stored) s)
        (λ found s' h'. delete_keys-IsSafe found 0 s' h')
        (scan_keys-IsSafe clock (some pattern) (Dict.keys s.stored) s h)

module _ {T Bytes : Type 0} (codec : Codec T Bytes) where
  pub create-IsSafe :
      (t : ℕ) (fresh : String) (value : T) (chosen : Option String) (custom : Option ℕ)
      (s : Storage Bytes)
      → IsConsistent s
      → IsSafe (create codec t fresh value chosen custom s)
  unfolding create
  create-IsSafe t fresh value none custom s h =
      pure-IsSafe fresh _ (write-IsConsistent t _ _ custom s h)
  create-IsSafe t fresh value (some id) custom s h =
      pure-IsSafe id _ (write-IsConsistent t _ _ custom s h)

  pub get-IsSafe :
      (t : ℕ) (id : String) (s : Storage Bytes) → IsConsistent s → IsSafe (get codec t id s)
  unfolding get
  get-IsSafe t id s h =
      IsSafe-resume _ (check_expiry t (get_key s id) s)
        (λ expired s' h'.
          elim expired
            as (λ b. IsSafe (
              (if b then pure none else λ r.
              pure (decode codec (Dict.get (get_key s id) r.stored)) r)
                s')) [ true ↦ pure-IsSafe _ s' h' | false ↦ pure-IsSafe _ s' h' ])
        (check_expiry-IsSafe t (get_key s id) s h)

  overwrite-IsSafe :
      (t : ℕ) (key : String) (value : T) (reset : Bool) (custom : Option ℕ) (s : Storage Bytes)
      → contains key s.stored ≡ true
      → IsConsistent s
      → IsSafe (overwrite codec t key value reset custom s)
  unfolding overwrite
  overwrite-IsSafe t key value true custom s there h =
      pure-IsSafe true _ (write-IsConsistent t key _ custom s h)
  overwrite-IsSafe t key value false custom s there h = pure-IsSafe true _ (record {
    same = λ k. ground (arith, get-put key k (codec.dump value) s.stored, h.same k, eq_iff key k);
  })

  pub update-IsSafe :
      (t u : ℕ) (id : String) (value : T) (reset : Bool) (custom : Option ℕ) (s : Storage Bytes)
      → IsConsistent s
      → IsSafe (update codec t u id value reset custom s)
  unfolding update
  update-IsSafe t u id value reset custom s h =
      guarded-IsSafe t (get_key s id)
        (λ expired.
          if expired then pure false else overwrite codec u (get_key s id) value reset custom)
        s h (λ r k. pure-IsSafe false r k)
        (λ there. overwrite-IsSafe u (get_key s id) value reset custom s there h)
