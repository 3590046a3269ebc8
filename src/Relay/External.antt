-- ===== src/Relay/External.antt =====
-- The crates that the relay calls (base64, hmac, sha2, ed25519-dalek, serde_json), as parameters,
-- and what their documentation promises.
use your_connector.Common.{
  ℕ, ◌≤◌, ◌≡◌, ◌≢◌, refl, Bool, true, false, Option, some, List, [], ◌∷◌, String, arith, eqb,
  if◌then◌else◌, Result, u64_max,
}
use your_connector.Common.Text.{as_bytes, contains_char, is_empty}
use your_connector.Relay.Api.{AccessTokenClaims, PairTicketClaims}

-- the comparison of tags in `Mac::verify_slice`
unfoldable pub bytes_equal : List ℕ → List ℕ → Bool
bytes_equal [] [] = true
bytes_equal [] (b ∷ bs) = false
bytes_equal (a ∷ bs) [] = false
bytes_equal (a ∷ bs) (b ∷ ds) = if eqb a b then bytes_equal bs ds else false

pub bytes_equal_refl : (bs : List ℕ) → bytes_equal bs bs ≡ true
unfolding bytes_equal
bytes_equal_refl [] = refl
bytes_equal_refl (b ∷ bs) = ground (arith, bytes_equal_refl bs)

pub eq_of_bytes_equal : (cs bs : List ℕ) → bytes_equal cs bs ≡ true → cs ≡ bs
unfolding bytes_equal
eq_of_bytes_equal [] [] h = refl
eq_of_bytes_equal [] (b ∷ bs) h = cc
eq_of_bytes_equal (a ∷ bs) [] h = cc
eq_of_bytes_equal (a ∷ bs) (b ∷ ds) h = ground (arith, eq_of_bytes_equal bs ds)

pub record Crypto : Type 0 where
  -- `URL_SAFE_NO_PAD.encode` and `.decode`
  pub b64_encode : List ℕ → String
  pub b64_decode : String → Option (List ℕ)
  -- `HmacSha256::new_from_slice(key)?`, `update`, `finalize`; none is the error of `new_from_slice`
  pub hmac_sha256 : List ℕ → List ℕ → Option (List ℕ)
  pub sha256 : List ℕ → List ℕ
  -- does `VerifyingKey::from_bytes` accept the key, and does the key accept a message's signature
  pub verifying_key : List ℕ → Bool
  pub ed25519_verify : List ℕ → List ℕ → List ℕ → Bool
  -- `serde_json::to_string` and `serde_json::from_slice`
  pub ticket_to_json : PairTicketClaims → String
  pub ticket_from_json : List ℕ → Option PairTicketClaims
  pub access_to_json : AccessTokenClaims → Result String String
  pub access_from_json : List ℕ → Option AccessTokenClaims

-- Base64 is undone by decoding, and its alphabet has no dot.
pub record IsBase64 (c : Crypto) : Type 0 where
  pub decode-encode : (b : List ℕ) → c.b64_decode (c.b64_encode b) ≡ some b
  pub no_dot : (b : List ℕ) → contains_char b'.' (c.b64_encode b) ≡ false
  pub not_empty : (b : List ℕ) → b ≢ [] → is_empty (c.b64_encode b) ≡ false

-- HMAC takes a key of any length, and its tag has 32 bytes.
abbrev pub IsHmac : Crypto → Type 0
IsHmac c =
    (key message : List ℕ) → (tag : List ℕ) × (c.hmac_sha256 key message ≡ some tag) × (tag ≢ [])

-- What serde writes of these claims it reads back, and it is not the empty text.
pub record TicketJson (c : Crypto) (t : PairTicketClaims) : Type 0 where
  pub read-write : c.ticket_from_json (as_bytes (c.ticket_to_json t)) ≡ some t
  pub written : as_bytes (c.ticket_to_json t) ≢ []

-- What serde reads into the field `exp` of type `u64` is one.
abbrev pub ReadsU64 : Crypto → Type 0
ReadsU64 c = (b : List ℕ) (t : PairTicketClaims) → c.ticket_from_json b ≡ some t → t.exp ≤ u64_max
