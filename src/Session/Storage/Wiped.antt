-- ===== src/Session/Storage/Wiped.antt =====
-- `delete_pattern` of app/core/auth/session/backends/memory.py.
use fastapi_hyperf.Common.{
  ℕ, suc, ◌+◌, ◌≤◌, ◌<◌, zero, length, String, Bool, true, false, Option, none, some, List, [], ◌∷◌,
  ◌≡◌, refl, arith, eq_iff, ◌==◌, if◌then◌else◌, Result, ok, ◌||◌, ◌∙◌,
}
use fastapi_hyperf.Common.Dict
use fastapi_hyperf.Common.Dict.{Dict, is_some, contains, keys, get-remove}
use fastapi_hyperf.Session.Storage.{
  Storage, is_past, scan_keys, scan_iter, delete_keys, delete_pattern,
}
use fastapi_hyperf.Session.Storage.Pattern.{matches, is_plain}
use fastapi_hyperf.Session.Storage.Consistent.{
  IsConsistent, swept, without, check_expiry-swept, swept-IsConsistent,
}
use fastapi_hyperf.Session.Storage.View.{view, view-swept}

abbrev elem : String → List String → Bool
elem k [] = false
elem k (j ∷ js) = j == k || elem k js

elem-keys :
    {V : Type 0} (k : String) (d : Dict V) → is_some (Dict.get k d) ≡ true → elem k (keys d) ≡ true
unfolding Dict.get
elem-keys k [] h = cc
elem-keys k ((j, v) ∷ d) h = ground (arith, elem-keys k d)

-- an instant that is not before the first readings of a clock
greatest : List String → (ℕ → ℕ) → ℕ
greatest [] clock = 0
greatest (k ∷ ks) clock = clock 0 + greatest ks (λ i. clock (suc i))

greatest_above :
    (ks : List String) (clock : ℕ → ℕ) (i : ℕ) → i < length ks → clock i ≤ greatest ks clock
unfolding greatest
greatest_above [] clock i l = absurd (omega arith)
greatest_above (k ∷ ks) clock zero l = omega arith
greatest_above (k ∷ ks) clock (suc i) l =
    omega (arith, greatest_above ks (λ j. clock (suc j)) i (omega arith))

module _ {Bytes : Type 0} where
  view-not_contains :
      (t : ℕ) (k : String) (s : Storage Bytes) → contains k s.stored ≡ false → view t k s ≡ none
  unfolding view
  view-not_contains t k s h = ground arith

  view-live :
      (t : ℕ) (k : String) (s : Storage Bytes)
      → is_some (view t k s) ≡ true
      → is_some (Dict.get k s.stored) ≡ true
  unfolding view
  view-live t k s h = ground arith

  view-past :
      (now later : ℕ) (key : String) (s : Storage Bytes)
      → now ≤ later
      → is_past (Dict.get key s.expiry) now ≡ true
      → view later key s ≡ none
  unfolding view is_past
  view-past now later key s le h = ground arith

  view-without :
      (t : ℕ) (key k : String) (s : Storage Bytes)
      → view t k (without key s) ≡ (if key == k then none else view t k s)
  unfolding view is_past
  view-without t key k s =
      ground (arith, get-remove key k s.stored, get-remove key k s.expiry, eq_iff key k)

  -- The keys that a scan finds match, and hold all that match and have a value afterwards.
  record Found (later : ℕ) (wanted : Option String) (candidates : List String) (s : Storage Bytes)
      (r : Result (List String) × Storage Bytes) : Type 0 where
    found : List String
    returned : r.0 ≡ ok found
    consistent : IsConsistent r.1
    prefix : (r.1.prefix ≡ s.prefix) × (r.1.expiration ≡ s.expiration)
    seen : (k : String) → view later k r.1 ≡ view later k s
    sound : (k : String) → elem k found ≡ true → matches wanted k ≡ true
    complete :
        (k : String)
        → elem k candidates ≡ true
        → matches wanted k ≡ true
        → is_some (view later k s) ≡ true
        → elem k found ≡ true

  scan_keys-Found :
      (clock : ℕ → ℕ) (later : ℕ) (wanted : Option String) (ks : List String) (s : Storage Bytes)
      → ((i : ℕ) → i < length ks → clock i ≤ later)
      → IsConsistent s
      → Found later wanted ks s (scan_keys clock wanted ks s)
  unfolding scan_keys
  scan_keys-Found clock later wanted [] s le h = record {
    found = [];
    returned = refl;
    consistent = h;
    prefix = (refl, refl);
    seen = λ k. refl;
    sound = λ k m. cc;
    complete = λ k m _ _. m;
  }
  scan_keys-Found clock later wanted (key ∷ rest) s le h =
      let s' = swept (clock 0) key s in
      let ih =
        scan_keys-Found (λ i. clock (suc i)) later wanted rest s' (λ i l. le (suc i) (omega arith))
          (swept-IsConsistent (clock 0) key s h) in
      rw (check_expiry-swept (clock 0) key s h, ih.returned)
        (record {
          found =
              if is_past (Dict.get key s.expiry) (clock 0)
              then ih.found
              else if matches wanted key
              then key ∷ ih.found
              else ih.found;
          returned = refl;
          consistent = ih.consistent;
          prefix = ground (arith, ih.prefix);
          seen = λ k. ih.seen k ∙ view-swept (clock 0) later key k s (le 0 (omega arith));
          sound = λ k m. ground (arith, ih.sound k, eq_iff key k);
          complete = λ k m w live. ground (
            arith,
            ih.complete k,
            eq_iff key k,
            view-past (clock 0) later key s (le 0 (omega arith)),
            view-swept (clock 0) later key k s (le 0 (omega arith)),
          );
        })

  -- A scan changes nothing that can be seen later.
  pub view-scan_iter :
      (clock : ℕ → ℕ) (wanted : Option String) (s : Storage Bytes)
      → IsConsistent s
      → ((scan_iter clock wanted s).1.prefix ≡ s.prefix)
        × ((later : ℕ) (k : String)
            → ((i : ℕ) → i < length (keys s.stored) → clock i ≤ later)
            → view later k (scan_iter clock wanted s).1 ≡ view later k s)
  unfolding scan_iter
  view-scan_iter clock wanted s h = (
    (scan_keys-Found clock (greatest (keys s.stored) clock) wanted (keys s.stored) s
        (greatest_above (keys s.stored) clock) h).prefix.0,
    λ later k le. (scan_keys-Found clock later wanted (keys s.stored) s le h).seen k,
  )

  delete_keys-view :
      (found : List String) (n later : ℕ) (k : String) (s : Storage Bytes)
      → view later k (delete_keys found n s).1 ≡ (if elem k found then none else view later k s)
  unfolding delete_keys
  delete_keys-view [] n later k s = refl
  delete_keys-view (key ∷ rest) n later k s = ground (
    arith,
    delete_keys-view rest (n + 1) later k (without key s),
    delete_keys-view rest n later k s,
    view-without later key k s,
    view-not_contains later key s,
    eq_iff key k,
  )

  -- After `delete_pattern` of a pattern whose characters are `*`, `?` and such that stand for themselves
  -- in a regular expression, no key that the pattern matches has a value, and the others are as before:
  -- at every instant that is not before the readings of the clock, one for each key. Where the
  -- dictionaries of values and of deadlines have the same keys.
  pub view-delete_pattern :
      (clock : ℕ → ℕ) (pattern : String) (later : ℕ) (k : String) (s : Storage Bytes)
      → is_plain pattern ≡ true
      → ((i : ℕ) → i < length (keys s.stored) → clock i ≤ later)
      → IsConsistent s
      → view later k (delete_pattern clock pattern s).1
        ≡ (if matches (some pattern) k then none else view later k s)
  unfolding delete_pattern scan_iter
  view-delete_pattern clock pattern later k s plain le h =
      let r = scan_keys-Found clock later (some pattern) (keys s.stored) s le h in
      rw r.returned (
        ground (
          arith,
          delete_keys-view r.found 0 later k (scan_keys clock (some pattern) (keys s.stored) s).1,
          r.seen k,
          r.sound k,
          r.complete k,
          elem-keys k s.stored,
          view-live later k s,
        ))
