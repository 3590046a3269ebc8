-- ===== src/Relay/Toy.antt =====
-- A concrete instance of the parameters, with the laws that the theorems ask of them: bytes are
-- written in unary, and what serde reads is fixed.
use Prim.Native.Nat.{zero, suc}
use Prim.Native.Char.{code}
use your_connector.Common.{
  ℕ, ◌+◌, ◌≡◌, ◌≢◌, ◌∙◌, refl, true, false, Option, none, some, List, [], ◌∷◌, String, ok, arith,
  eqb, if◌then◌else◌,
}
use your_connector.Common.Text.{as_bytes, contains_char, is_empty}
use your_connector.Relay.Api.{AccessTokenClaims, PairTicketClaims}
use your_connector.Relay.External.{Crypto, IsBase64, IsHmac, TicketJson, ReadsU64}

-- `n` times "a", and "b"
unfoldable unary : ℕ → String → String
unary zero rest = String.◌∷◌ "b" rest
unary (suc n) rest = String.◌∷◌ "a" (unary n rest)

unfoldable encode : List ℕ → String
unfolding unary
encode [] = String.[]
encode (n ∷ ns) = unary n (encode ns)

abbrev cons : ℕ → Option (List ℕ) → Option (List ℕ)
cons n none = none
cons n (some ns) = some (n ∷ ns)

-- `n` times "a" were read
unfoldable decode_from : ℕ → String → Option (List ℕ)
decode_from n String.[] = if eqb n 0 then some [] else none
decode_from n (String.◌∷◌ c s) =
    let more = decode_from (suc n) s in
    let next = decode_from 0 s in if eqb (code c) b'a' then more else cons n next

decode-unary :
    (k n : ℕ) (rest : String) → decode_from k (unary n rest) ≡ cons (k + n) (decode_from 0 rest)
unfolding decode_from unary
decode-unary k zero rest = ground arith
decode-unary k (suc n) rest = ground (arith, decode-unary (suc k) n rest)

decode-encode : (ns : List ℕ) → decode_from 0 (encode ns) ≡ some ns
unfolding encode decode_from
decode-encode [] = refl
decode-encode (n ∷ ns) = ground (arith, decode-unary 0 n (encode ns), decode-encode ns)

no_dot-unary : (n : ℕ) (rest : String) → contains_char b'.' (unary n rest) ≡ contains_char b'.' rest
unfolding unary
no_dot-unary zero rest = refl
no_dot-unary (suc n) rest = no_dot-unary n rest

no_dot-encode : (ns : List ℕ) → contains_char b'.' (encode ns) ≡ false
unfolding encode
no_dot-encode [] = refl
no_dot-encode (n ∷ ns) = no_dot-unary n (encode ns) ∙ no_dot-encode ns

not_empty-unary : (n : ℕ) (rest : String) → is_empty (unary n rest) ≡ false
unfolding unary
not_empty-unary zero rest = refl
not_empty-unary (suc n) rest = refl

not_empty-encode : (ns : List ℕ) → ns ≢ [] → is_empty (encode ns) ≡ false
unfolding encode
not_empty-encode [] h = absurd (h refl)
not_empty-encode (n ∷ ns) h = not_empty-unary n (encode ns)

abbrev pub toy_ticket : PairTicketClaims
toy_ticket = record { sid = "mac"; iat = 100; exp = 400; nonce = "n1" }

abbrev pub toy_access : AccessTokenClaims
toy_access = record { sid = "mac"; did = "phone"; kid = "k"; iat = 100; exp = 700; jti = "j" }

unfoldable pub toy : Crypto
unfolding encode decode_from
toy = record {
  b64_encode = encode;
  b64_decode = decode_from 0;
  hmac_sha256 = λ key message. some (0 ∷ []);
  sha256 = λ message. [];
  verifying_key = λ key. true;
  ed25519_verify = λ key message sig. true;
  ticket_to_json = λ t. "{}";
  ticket_from_json = λ b. some toy_ticket;
  access_to_json = λ t. ok "";
  access_from_json = λ b. some toy_access;
}

pub toy-IsBase64 : IsBase64 toy
unfolding toy
toy-IsBase64 = record {
  decode-encode = decode-encode;
  no_dot = no_dot-encode;
  not_empty = not_empty-encode;
}

pub toy-IsHmac : IsHmac toy
unfolding toy
toy-IsHmac key message = (0 ∷ [], refl, λ e. cc e)

pub toy-TicketJson : TicketJson toy toy_ticket
unfolding toy as_bytes
toy-TicketJson = record { read-write = refl; written = λ e. cc e }

pub toy-ReadsU64 : ReadsU64 toy
unfolding toy
toy-ReadsU64 b t e = ground arith

-- 64 bytes
abbrev pub toy_sig : String
toy_sig = "bbbbbbbbbbbbbbbbbbbbbbbbbbbbbbbbbbbbbbbbbbbbbbbbbbbbbbbbbbbbbbbb"

-- 32 bytes
abbrev pub toy_key : String
toy_key = "bbbbbbbbbbbbbbbbbbbbbbbbbbbbbbbb"
