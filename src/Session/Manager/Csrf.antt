-- ===== src/Session/Manager/Csrf.antt =====
-- The CSRF tokens of app/core/auth/session/manager.py.
use fastapi_hyperf.Common.{
  ℕ, ◌+◌, String, Bool, false, ◌&&◌, none, some, ◌≡◌, refl, ap, ◌∙◌, arith, ◌==◌, leb, truthy, ok,
  pure, returned-recover, Option, Bool-cases, inl, inr, ==_refl,
}
use fastapi_hyperf.Session.Schemas.{CsrfToken}
use fastapi_hyperf.Session.Storage
use fastapi_hyperf.Session.Storage.{get_key, seconds, or_default, Storage, decode, Codec}
use fastapi_hyperf.Session.Storage.Consistent.{IsConsistent, write-IsConsistent}
use fastapi_hyperf.Session.Storage.View.{view, get-view, view-write, get_key-write}
use fastapi_hyperf.Session.Manager.{
  Config, Manager, minutes, csrf_found, validate_csrf_token, generate_csrf_token,
}
use fastapi_hyperf.Session.Manager.Access.{RoundTrips}

-- A token that is accepted for a session: it was made for that session and has not passed its expiry.
unfoldable pub accepts : String → ℕ → Option CsrfToken → Bool
accepts session_id t none = false
accepts session_id t (some d) = d.session_id == session_id && leb t d.expiry

module _ {Bytes : Type 0} (config : Config Bytes) (clock : ℕ → ℕ) where
  csrf_found-accepts :
      (session_id token : String) (found : Option CsrfToken) (m : Manager Bytes)
      → (csrf_found config clock session_id token found m).0
        ≡ ok (accepts session_id (clock m.readings) found)
  unfolding csrf_found accepts Storage.delete
  csrf_found-accepts session_id token none m = refl
  csrf_found-accepts session_id token (some d) m = ground arith

  -- `validate_csrf_token` accepts a token exactly if neither argument is empty, the storage of
  -- tokens shows it at the first look at the clock, it was made for that session, and its expiry
  -- has not passed at the second look. It does not raise. Where the dictionaries of the storage
  -- have the same keys.
  pub validate_csrf_token-accepts :
      (session_id token : String) (m : Manager Bytes)
      → IsConsistent m.csrf_storage
      → (validate_csrf_token config clock session_id token m).0
        ≡ ok (
            truthy session_id
            && truthy token
            && accepts session_id (clock (m.readings + 1)) (
                decode config.csrf_codec
                  (view (clock m.readings) (get_key m.csrf_storage token) m.csrf_storage)))
  unfolding validate_csrf_token
  validate_csrf_token-accepts session_id token m h = elim (Bool-cases (truthy session_id)) [
    | inr missing ↦ rw missing refl
    | inl given ↦ elim (Bool-cases (truthy token)) [
      | inr missing ↦ rw (given, missing) refl
      | inl named ↦
          rw
            (
              given,
              named,
              (get-view config.csrf_codec (clock m.readings) (clock m.readings) token ""
                  m.csrf_storage (omega arith) h).0,
            )
            (returned-recover (pure false) _ (csrf_found-accepts session_id token _ _))
    ]
  ]

  shown_token :
      (t later : ℕ) (d : CsrfToken) (session_id : String) (seen : ℕ) (s n : Storage Bytes)
      → RoundTrips config.csrf_codec
      → n ≡ Storage.write t (get_key s d.token) (config.csrf_codec.dump d) none s
      → accepts session_id seen (decode config.csrf_codec (view later (get_key n d.token) n))
        ≡ (leb later (t + seconds s.expiration) && accepts session_id seen (some d))
  unfolding decode accepts or_default
  shown_token t later d session_id seen s n law same =
      let key = get_key s d.token in
      rw (same, get_key-write t key (config.csrf_codec.dump d) none s d.token)
        (ground
          (arith, view-write t later key key (config.csrf_codec.dump d) none s, ==_refl key, law d))

  -- A generated token that is not empty is accepted for its own session and no other, at any later
  -- state of the manager in which the storage of tokens is as it was left: until the expiry in the
  -- token at one look at the clock, and until the deadline of the storage at the other. Where a
  -- token can be read back as it was written, and the dictionaries of the storage have the same
  -- keys.
  pub validate_csrf_token-generate :
      (token session_id other : String) (user_id : ℕ) (m n : Manager Bytes)
      → RoundTrips config.csrf_codec
      → IsConsistent m.csrf_storage
      → n.csrf_storage
        ≡ (generate_csrf_token config clock token user_id session_id m).1.csrf_storage
      → (validate_csrf_token config clock other token n).0
        ≡ ok (
            truthy other
            && truthy token
            && (leb (clock n.readings) (clock (m.readings + 1) + seconds m.csrf_storage.expiration)
                && (session_id == other
                    && leb
                        (clock (n.readings + 1))
                        (clock m.readings + minutes config.timeout_minutes))))
  unfolding generate_csrf_token Storage.create accepts
  validate_csrf_token-generate token session_id other user_id m n law h same =
      let made : CsrfToken = record {
        token = token;
        user_id = user_id;
        session_id = session_id;
        expiry = clock m.readings + minutes config.timeout_minutes;
      } in
      let written : n.csrf_storage
          ≡ Storage.write (clock (m.readings + 1)) (get_key m.csrf_storage token)
              (config.csrf_codec.dump made) none m.csrf_storage =
        same in
      let shown =
        shown_token (clock (m.readings + 1)) (clock n.readings) made other (clock (n.readings + 1))
          m.csrf_storage n.csrf_storage law written in
      let whole =
        validate_csrf_token-accepts other token n
          (rw written (write-IsConsistent _ _ _ none m.csrf_storage h)) in
      whole ∙ ap (λ b. ok (truthy other && truthy token && b)) shown
