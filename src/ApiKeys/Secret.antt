-- ===== src/ApiKeys/Secret.antt =====
-- The text of an API key and its hash: `_generate_api_key`, `_hash_api_key` and `_verify_api_key` of
-- app/services/api_key.py. What `hashlib`, `base64`, `hmac` and `secrets` compute is a parameter.
use Prim.Native.String.append
use fastapi_hyperf.Common.{
  ℕ, zero, suc, String, Bool, true, false, ◌&&◌, Option, none, some, List, [], ◌∷◌, Result, ok, err,
  ◌≡◌, refl, ap, ◌↔◌, ◌==◌, concat, str, int, if◌then◌else◌, leb, arith, Result-cases, inl, inr,
  lacks-str, int-str,
}
use fastapi_hyperf.Common.Slices.{
  size, until, from, split_once, lacks, split_once-lacks, size-concat, until-concat, from-concat,
  size-until, from-from,
}

-- hashlib.scrypt(key, salt=, n=, r=, p=, dklen=), base64, len and hmac.compare_digest
pub record Crypto (Bytes : Type 0) : Type 0 where
  pub scrypt : String → Bytes → ℕ → ℕ → ℕ → ℕ → Result Bytes
  pub b64encode : Bytes → String
  pub b64decode : String → Option Bytes
  pub length : Bytes → ℕ
  pub compare_digest : Bytes → Bytes → Bool

pub record IsCrypto {Bytes : Type 0} (c : Crypto Bytes) : Type 0 where
  pub decode-encode : (b : Bytes) → c.b64decode (c.b64encode b) ≡ some b
  pub encode-lacks : (b : Bytes) → lacks 36 (c.b64encode b) ≡ true
  pub scrypt-length :
      (key : String) (salt : Bytes) (n r p dklen : ℕ) (d : Bytes)
      → c.scrypt key salt n r p dklen ≡ ok d
      → c.length d ≡ dklen
  pub compare_digest-iff : (a b : Bytes) → (c.compare_digest a b ≡ true) ↔ (a ≡ b)

-- s.split("$", k)
unfoldable pub split : ℕ → String → List String
split zero s = s ∷ []
split (suc k) s = elim (split_once 36 s) [ none ↦ s ∷ [] | some (a, b) ↦ a ∷ split k b ]

split-dollar :
    (k : ℕ) (a b : String)
    → lacks 36 a ≡ true
    → split (suc k) (concat a (concat "$" b)) ≡ a ∷ split k b
unfolding split
split-dollar k a b l =
    rw (append.cons "$" "" b)
      (rw (append.nil b) (rw (split, split_once-lacks 36 a b "$" refl l) refl))

-- what `secrets.token_urlsafe` gave, as the key and its prefix
unfoldable pub api_key_of : String → String
api_key_of raw_key = concat "fai_" (concat (until 8 raw_key) (concat "_" (from 8 raw_key)))

unfoldable pub prefix_of : String → String
prefix_of raw_key = until 8 raw_key

-- the prefix that `validate_api_key` reads from a key, where its form is right
unfoldable pub parse_prefix : String → Option String
parse_prefix api_key =
    if (until 4 api_key == "fai_") && leb 13 (size api_key) && (until 1 (from 12 api_key) == "_")
    then some (until 8 (from 4 api_key))
    else none

module _ {Bytes : Type 0} (crypto : Crypto Bytes) where
  unfoldable pub hash_text : Bytes → Bytes → String
  hash_text salt derived = concat "scrypt" (
      concat "$" (
        concat (str 16384) (
          concat "$" (
            concat (str 8) (
              concat "$" (
                concat (str 1) (
                  concat "$"
                    (concat (crypto.b64encode salt) (concat "$" (crypto.b64encode derived))))))))))

  unfoldable pub hash_api_key : String → Bytes → Result String
  hash_api_key api_key salt = elim (crypto.scrypt api_key salt 16384 8 1 32) [
    | ok derived ↦ ok (hash_text salt derived)
    | err e ↦ err e
  ]

  -- the comparison, where every field could be read
  unfoldable pub verify_parsed :
      String → Option ℕ → Option ℕ → Option ℕ → Option Bytes → Option Bytes → Result Bool
  verify_parsed api_key (some n) (some r) (some p) (some salt) (some expected) =
      elim (crypto.scrypt api_key salt n r p (crypto.length expected)) [
        | ok actual ↦ ok (crypto.compare_digest actual expected)
        | err e ↦ err e
      ]
  verify_parsed api_key _ _ _ _ _ = ok false

  unfoldable pub verify_fields : String → List String → Result Bool
  verify_fields api_key (scheme ∷ (n ∷ (r ∷ (p ∷ (salt ∷ (derived ∷ [])))))) =
      if scheme == "scrypt"
      then verify_parsed api_key (int n) (int r) (int p) (crypto.b64decode salt)
          (crypto.b64decode derived)
      else ok false
  verify_fields api_key _ = ok false

  unfoldable pub verify_api_key : String → String → Result Bool
  verify_api_key api_key stored_hash = verify_fields api_key (split 5 stored_hash)

  hash_fields :
      (law : IsCrypto crypto) (salt derived : Bytes)
      → split 5 (hash_text salt derived)
        ≡ "scrypt"
          ∷ (str 16384
              ∷ (str 8 ∷ (str 1 ∷ (crypto.b64encode salt ∷ (crypto.b64encode derived ∷ [])))))
  unfolding hash_text split lacks
  hash_fields law salt derived = rw (split-dollar 4 "scrypt" _ refl) (
      rw (split-dollar 3 (str 16384) _ (lacks-str 16384)) (
        rw (split-dollar 2 (str 8) _ (lacks-str 8)) (
          rw (split-dollar 1 (str 1) _ (lacks-str 1))
            (rw (split-dollar 0 (crypto.b64encode salt) _ (law.encode-lacks salt)) refl))))

  verify-hash_text :
      (law : IsCrypto crypto) (other : String) (salt derived : Bytes)
      → verify_api_key other (hash_text salt derived)
        ≡ verify_parsed other (some 16384) (some 8) (some 1) (some salt) (some derived)
  unfolding verify_api_key verify_fields
  verify-hash_text law other salt derived = rw (hash_fields law salt derived) (
      rw (int-str 16384) (
        rw (int-str 8)
          (rw (int-str 1) (rw (law.decode-encode salt) (rw (law.decode-encode derived) refl)))))

  accepts :
      (law : IsCrypto crypto) (other : String) (salt derived : Bytes)
      → crypto.length derived ≡ 32
      → (verify_api_key other (hash_text salt derived) ≡ ok true)
        ↔ (crypto.scrypt other salt 16384 8 1 32 ≡ ok derived)
  unfolding verify_parsed
  accepts law other salt derived h =
      let read_back = verify-hash_text law other salt derived in
      elim (Result-cases (crypto.scrypt other salt 16384 8 1 32)) [
        | inr (e, fails) ↦
            (λ k. ground (arith, read_back, h, fails, k), λ k. ground (arith, fails, k))
        | inl (actual, gives) ↦
            let same = law.compare_digest-iff actual derived in
            (
              λ k. rw gives (ap ok (same.0 (ground (arith, read_back, h, gives, k)))),
              λ k.
                  let equal = same.1 (ground (arith, gives, k)) in
                  ground (arith, read_back, h, gives, equal),
            )
      ]

  -- Over the documented `base64`, `scrypt` and `compare_digest`: a hash that `_hash_api_key` made of a key
  -- is read back by `_verify_api_key` whatever the salt and the digest are, and accepts another key exactly
  -- where scrypt derives the same bytes from it; in particular it accepts the key itself.
  pub verify_api_key-hash_api_key :
      (law : IsCrypto crypto) (api_key other stored : String) (salt : Bytes)
      → hash_api_key api_key salt ≡ ok stored
      → ((verify_api_key other stored ≡ ok true)
          ↔ (crypto.scrypt other salt 16384 8 1 32 ≡ crypto.scrypt api_key salt 16384 8 1 32))
        × (verify_api_key api_key stored ≡ ok true)
  unfolding hash_api_key verify_parsed
  verify_api_key-hash_api_key law api_key other stored salt h =
      elim (Result-cases (crypto.scrypt api_key salt 16384 8 1 32)) [
        | inr (e, fails) ↦ ground (arith, h, fails)
        | inl (derived, gives) ↦
            let long = law.scrypt-length api_key salt 16384 8 1 32 derived gives in
            let made : stored ≡ hash_text salt derived = ground (arith, h, gives) in
            rw (made, gives)
              (accepts law other salt derived long, (accepts law api_key salt derived long).1 gives)
      ]

-- the key with its prefix cut off
parsed_parts :
    (a b : String)
    → size a ≡ 8
    → (until 4 (concat "fai_" (concat a (concat "_" b))) ≡ "fai_")
      × (from 4 (concat "fai_" (concat a (concat "_" b))) ≡ concat a (concat "_" b))
      × (from 12 (concat "fai_" (concat a (concat "_" b))) ≡ concat "_" b)
unfolding size
parsed_parts a b h =
    let rest = concat a (concat "_" b) in
    let four : from 4 (concat "fai_" rest) ≡ rest = from-concat "fai_" rest in
    let eight : from 8 rest ≡ concat "_" b = ground (arith, h, from-concat a (concat "_" b)) in
    (
      until-concat "fai_" rest,
      four,
      ground (arith, from-from 4 8 (concat "fai_" rest), four, eight),
    )

-- Where the random text has at least eight characters, the prefix that `validate_api_key` reads from the key
-- that `_generate_api_key` makes of it is the prefix that is stored beside its hash.
pub parse_prefix-api_key_of :
    (raw_key : String)
    → leb 8 (size raw_key) ≡ true
    → parse_prefix (api_key_of raw_key) ≡ some (prefix_of raw_key)
unfolding parse_prefix api_key_of prefix_of size
parse_prefix-api_key_of raw_key h =
    let a = until 8 raw_key in
    let b = from 8 raw_key in
    let (whole, four, twelve) = parsed_parts a b (size-until 8 raw_key h) in
    let long = size-concat "fai_" (concat a (concat "_" b)) in
    let long = size-concat "fai_" (concat a (concat "_" b)) in
    let lengths : leb 13 (size (concat "fai_" (concat a (concat "_" b)))) ≡ true =
      ground
        (arith, long, size-concat a (concat "_" b), size-concat "_" b, size-until 8 raw_key h) in
    let prefix : until 8 (concat a (concat "_" b)) ≡ a =
      ground (arith, size-until 8 raw_key h, until-concat a (concat "_" b)) in
    let bar : until 1 (concat "_" b) ≡ "_" = until-concat "_" b in
    rw (whole, lengths, twelve, bar, four, prefix) refl
