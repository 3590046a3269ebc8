-- ===== src/Relay/Auth/Token/Sound.antt =====
-- `verify_access_token` of services/relay/src/auth/token.rs
use your_connector.Common.{
  List, none, some, inl, inr, Option-cases, ℕ, ◌<◌, ◌≡◌, String, Result, ok, err, arith, string_eq,
  refl,
}
use your_connector.Common.Text.{as_bytes, part, split}
use your_connector.Relay.Api.{ApiError, AccessTokenClaims}
use your_connector.Relay.External.{Crypto, eq_of_bytes_equal}
use your_connector.Relay.Auth.Token.{read_access_token, verify_access_token}

after_reading :
    (c : Crypto) (now : ℕ) (token signing_key system_id device_id key_id : String)
    (r : Result ApiError AccessTokenClaims) (t : AccessTokenClaims)
    → read_access_token c token signing_key ≡ r
    → verify_access_token c now token signing_key system_id device_id key_id ≡ ok t
    → (r ≡ ok t) × (t.sid ≡ system_id) × (t.did ≡ device_id) × (t.kid ≡ key_id) × (now < t.exp)
unfolding verify_access_token
after_reading c now token signing_key system_id device_id key_id (err e) t read h =
    ground (arith, read, h)
after_reading c now token signing_key system_id device_id key_id (ok u) t read h =
    ground (arith, read, h)

-- the signature of a token that was read is the HMAC of its payload
reading_signed :
    (c : Crypto) (token signing_key : String) (t : AccessTokenClaims)
    → read_access_token c token signing_key ≡ ok t
    → (tag : List ℕ) × (c.hmac_sha256 (as_bytes signing_key) (as_bytes (part 1 (split b'.' token)))
        ≡ some tag)
      × (c.b64_decode (part 2 (split b'.' token)) ≡ some tag)
unfolding read_access_token
reading_signed c token signing_key t h =
    elim (Option-cases (c.b64_decode (part 2 (split b'.' token)))) [
      | inl bad ↦ absurd (refused bad)
      | inr (sig, good) ↦
          elim (Option-cases
            (c.hmac_sha256 (as_bytes signing_key) (as_bytes (part 1 (split b'.' token))))) [
              | inl bad ↦ absurd (ground (arith, h, good, bad))
              | inr (tag, tagged) ↦
                  (tag, tagged, ground (arith, h, good, tagged, eq_of_bytes_equal tag sig))
            ]
    ]
  where
    refused : c.b64_decode (part 2 (split b'.' token)) ≡ none → ⊥
    refused bad = ground (arith, h, bad)

-- An access token that is accepted carries the HMAC of its payload under the signing key, reads as
-- its claims, which name the system, device and key that were expected, and has not expired.
pub verify_access_token_sound :
    (c : Crypto) (now : ℕ) (token signing_key system_id device_id key_id : String)
    (t : AccessTokenClaims)
    → verify_access_token c now token signing_key system_id device_id key_id ≡ ok t
    → (read_access_token c token signing_key ≡ ok t)
      × (t.sid ≡ system_id)
      × (t.did ≡ device_id)
      × (t.kid ≡ key_id)
      × (now < t.exp)
      × ((tag : List ℕ) × (c.hmac_sha256
              (as_bytes signing_key)
              (as_bytes (part 1 (split b'.' token)))
            ≡ some tag)
          × (c.b64_decode (part 2 (split b'.' token)) ≡ some tag))
verify_access_token_sound c now token signing_key system_id device_id key_id t h =
    let (read, sid, did, kid, live) =
      after_reading c now token signing_key system_id device_id key_id
        (read_access_token c token signing_key) t refl h in
    (read, sid, did, kid, live, reading_signed c token signing_key t read)
