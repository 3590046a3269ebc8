-- ===== src/Relay/Auth/TokenCrypto.antt =====
-- services/relay/src/auth/token_crypto.rs
use Prim.Native.Nat.{zero, suc}
use your_connector.Common.{
  ℕ, not, List, [], ◌∷◌, String, ◌<>◌, Result, ok, ◌>>=◌, ◌>>◌, refuse, or_fail, eqb, length,
}
use your_connector.Common.Text.{as_bytes, hex_byte}
use your_connector.Relay.Api.{ApiError, api_error, unauthorized, internal_server_error}
use your_connector.Relay.External.{Crypto}

abbrev take_bytes : ℕ → List ℕ → List ℕ
take_bytes zero bs = []
take_bytes (suc n) [] = []
take_bytes (suc n) (b ∷ bs) = b ∷ take_bytes n bs

abbrev proof_invalid : String → String → ApiError
proof_invalid = api_error unauthorized "PAIR_PROOF_INVALID"

module _ (c : Crypto) where
  unfoldable pub verify_pop_signature : String → String → String → Result ApiError (Unit {0})
  verify_pop_signature public_key_b64 payload signature_b64 = do
    pk_bytes ← or_fail (c.b64_decode public_key_b64) (proof_invalid "设备公钥格式无效" "请重新生成设备绑定信息")
    refuse (not (eqb (length pk_bytes) 32)) (proof_invalid "设备公钥长度无效" "请重新生成设备绑定信息")
    sig_bytes ← or_fail (c.b64_decode signature_b64) (proof_invalid "签名格式无效" "请重试")
    refuse (not (eqb (length sig_bytes) 64)) (proof_invalid "签名长度无效" "请重试")
    refuse (not (c.verifying_key pk_bytes)) (proof_invalid "设备公钥无法解析" "请重新生成设备绑定信息")
    refuse (not (c.ed25519_verify pk_bytes (as_bytes payload) sig_bytes))
        (proof_invalid "签名校验失败" "请重试或重新配对")

  unfoldable pub key_id_for_public_key : String → Result ApiError String
  key_id_for_public_key public_key_b64 = do
    pk_raw ← or_fail (c.b64_decode public_key_b64) (proof_invalid "设备公钥格式无效" "请重新生成设备绑定信息")
    ok ("kid_" <> c.b64_encode (take_bytes 10 (c.sha256 pk_raw)))

  unfoldable pub hmac_b64url : String → List ℕ → Result ApiError String
  hmac_b64url secret payload = do
    tag ←
        or_fail (c.hmac_sha256 (as_bytes secret) payload)
          (api_error internal_server_error "INTERNAL_ERROR" "签名密钥无效" "请稍后重试")
    ok (c.b64_encode tag)

  abbrev hex : List ℕ → String
  hex [] = ""
  hex (b ∷ bs) = hex_byte b <> hex bs

  unfoldable pub sha256_hex : String → String
  sha256_hex value = hex (c.sha256 (as_bytes value))
