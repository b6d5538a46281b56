-- ===== src/Session/Storage/View.antt =====
-- What a client of the memory storage can see: the value of each key until its deadline. The lazy
-- removal of what has expired cannot be seen.
use fastapi_hyperf.Common.{
  ℕ, ◌+◌, ◌≤◌, String, Bool, Option, none, some, ◌≡◌, refl, arith, eq_iff, ◌==◌, ==_refl,
  Bool-cases, inl, inr, leb, if◌then◌else◌, ok, not, ◌&&◌,
}
use fastapi_hyperf.Common.Dict
use fastapi_hyperf.Common.Dict.{is_some, contains, get-put, get-remove}
use fastapi_hyperf.Session.Storage.{
  Codec, Storage, seconds, or_default, is_past, get_key, write, delete, exists, create, decode, get,
  overwrite, update,
}
use fastapi_hyperf.Session.Storage.Consistent.{
  IsConsistent, swept, check_expiry-swept, write-IsConsistent,
}

module _ {Bytes : Type 0} where
  -- the value under a key at an instant
  unfoldable pub view : ℕ → String → Storage Bytes → Option Bytes
  view now key s = if is_past (Dict.get key s.expiry) now then none else Dict.get key s.stored

  -- what has expired stays expired, so its removal cannot be seen later
  pub view-swept :
      (now later : ℕ) (key k : String) (s : Storage Bytes)
      → now ≤ later
      → view later k (swept now key s) ≡ view later k s
  unfolding view is_past
  view-swept now later key k s h =
      ground (arith, get-remove key k s.stored, get-remove key k s.expiry, eq_iff key k)

  pub view-write :
      (now later : ℕ) (key k : String) (value : Bytes) (custom : Option ℕ) (s : Storage Bytes)
      → view later k (write now key value custom s) ≡ (
          if key == k
          then if leb later (now + seconds (or_default custom s.expiration))
            then some value
            else none
          else view later k s)
  unfolding view is_past write
  view-write now later key k value custom s = ground (
    arith,
    get-put key k value s.stored,
    get-put key k (now + seconds (or_default custom s.expiration)) s.expiry,
  )

  -- the storage after a check of a key that may be missing
  abbrev checked_for : ℕ → String → Storage Bytes → Storage Bytes
  checked_for now key s = if contains key s.stored then swept now key s else s

  view-checked_for :
      (now later : ℕ) (key k : String) (s : Storage Bytes)
      → now ≤ later
      → view later k (checked_for now key s) ≡ view later k s
  view-checked_for now later key k s h = elim (Bool-cases (contains key s.stored)) [
    | inl there ↦ rw there (view-swept now later key k s h)
    | inr missing ↦ rw missing refl
  ]

  exists-checked_for :
      (now : ℕ) (id : String) (s : Storage Bytes)
      → IsConsistent s
      → exists now id s
        ≡ (ok (is_some (view now (get_key s id) s)), checked_for now (get_key s id) s)
  unfolding exists view
  exists-checked_for now id s h = ground (arith, check_expiry-swept now (get_key s id) s h)

  -- `exists` answers whether the key has a value, and changes nothing that can be seen then or
  -- later. Where the dictionaries of values and of deadlines have the same keys.
  exists-view :
      (now later : ℕ) (id k : String) (s : Storage Bytes)
      → now ≤ later
      → IsConsistent s
      → ((exists now id s).0 ≡ ok (is_some (view now (get_key s id) s)))
        × (view later k (exists now id s).1 ≡ view later k s)
  exists-view now later id k s le h =
      rw (exists-checked_for now id s h) (refl, view-checked_for now later (get_key s id) k s le)

  -- `delete` removes the key at once, whatever its deadline, and no other.
  view-delete :
      (id : String) (s : Storage Bytes) (later : ℕ) (k : String)
      → view later k (delete id s).1 ≡ (if get_key s id == k then none else view later k s)
  unfolding delete view is_past
  view-delete id s later k = ground (
    arith,
    get-remove (get_key s id) k s.stored,
    get-remove (get_key s id) k s.expiry,
    eq_iff (get_key s id) k,
  )

pub get_key-write :
    {Bytes : Type 0} (now : ℕ) (key : String) (value : Bytes) (custom : Option ℕ)
    (s : Storage Bytes) (id : String)
    → get_key (write now key value custom s) id ≡ get_key s id
unfolding get_key write
get_key-write now key value custom s id = refl

-- the identifier that `create` returns
abbrev id_of : Option String → String → String
id_of none fresh = fresh
id_of (some id) fresh = id

module _ {T Bytes : Type 0} (codec : Codec T Bytes) where
  pub get-swept :
      (now : ℕ) (id : String) (s : Storage Bytes)
      → IsConsistent s
      → get codec now id s
        ≡ (ok (decode codec (view now (get_key s id) s)), swept now (get_key s id) s)
  unfolding get view decode
  get-swept now id s h = ground (arith, check_expiry-swept now (get_key s id) s h)

  -- `get` answers the decoded value of the key, and changes nothing that can be seen then or later.
  -- Where the dictionaries of values and of deadlines have the same keys.
  pub get-view :
      (now later : ℕ) (id k : String) (s : Storage Bytes)
      → now ≤ later
      → IsConsistent s
      → ((get codec now id s).0 ≡ ok (decode codec (view now (get_key s id) s)))
        × (view later k (get codec now id s).1 ≡ view later k s)
  get-view now later id k s le h =
      rw (get-swept now id s h) (refl, view-swept now later (get_key s id) k s le)

  create-write :
      (now : ℕ) (fresh : String) (value : T) (chosen : Option String) (custom : Option ℕ)
      (s : Storage Bytes)
      → create codec now fresh value chosen custom s ≡ (
        ok (id_of chosen fresh),
        write now (get_key s (id_of chosen fresh)) (codec.dump value) custom s,
      )
  unfolding create
  create-write now fresh value none custom s = refl
  create-write now fresh value (some id) custom s = refl

  -- What `create` stores under an identifier is what `get` returns for it, up to and at the
  -- deadline and not after it, where decoding undoes encoding. The dictionaries of values and of
  -- deadlines have the same keys.
  pub get-create :
      (now later : ℕ) (fresh : String) (value : T) (chosen : Option String) (custom : Option ℕ)
      (s : Storage Bytes)
      → codec.load (codec.dump value) ≡ some value
      → IsConsistent s
      → (get codec later (id_of chosen fresh) (create codec now fresh value chosen custom s).1).0
        ≡ ok (
            if leb later (now + seconds (or_default custom s.expiration)) then some value else none)
  unfolding decode
  get-create now later fresh value chosen custom s law h =
      let id = id_of chosen fresh in
      let key = get_key s id in
      let s' = write now key (codec.dump value) custom s in
      rw (create-write now fresh value chosen custom s) (
        ground (
          arith,
          get-swept later id s' (write-IsConsistent now key (codec.dump value) custom s h),
          get_key-write now key (codec.dump value) custom s id,
          view-write now later key key (codec.dump value) custom s,
          ==_refl key,
        ))

  -- `update` answers whether the key has a value at its first reading of the clock; where it has
  -- one, the value is replaced, and its deadline is moved if that is asked for; no other key
  -- changes. Seen at an instant not before that reading. Where the dictionaries of values and of
  -- deadlines have the same keys.
  pub view-update :
      (checked now later : ℕ) (id : String) (value : T) (reset : Bool) (custom : Option ℕ)
      (s : Storage Bytes) (k : String)
      → checked ≤ later
      → IsConsistent s
      → ((update codec checked now id value reset custom s).0
          ≡ ok (is_some (view checked (get_key s id) s)))
        × (view later k (update codec checked now id value reset custom s).1 ≡ (
            if is_some (view checked (get_key s id) s) && get_key s id == k
            then if (if reset
                then leb later (now + seconds (or_default custom s.expiration))
                else not (is_past (Dict.get k s.expiry) later))
              then some (codec.dump value)
              else none
            else view later k s))
  unfolding update view overwrite write is_past
  view-update checked now later id value reset custom s k le h = ground (
    arith,
    check_expiry-swept checked (get_key s id) s h,
    get-put (get_key s id) k (codec.dump value) s.stored,
    get-put (get_key s id) k (now + seconds (or_default custom s.expiration)) s.expiry,
    get-remove (get_key s id) k s.stored,
    get-remove (get_key s id) k s.expiry,
    eq_iff (get_key s id) k,
  )
