-- ===== src/Relay/Pairing/Handlers/Bootstrap.antt =====
-- services/relay/src/pairing/handlers/bootstrap.rs
use your_connector.Common.{
  ℕ, not, ◌||◌, Bool, true, Option, none, some, List, String, Result, ok, ◌>>=◌, ◌>>◌, refuse,
  or_fail, ◌==◌, string_eq, if◌then◌else◌,
}
use your_connector.Common.HashMap
use your_connector.Common.Text.{trim, is_empty}
use your_connector.Relay.Api.{
  ApiError, api_error, bad_request, unauthorized, PairBootstrapRequest, PairBootstrapData,
}
use your_connector.Relay.External.{Crypto}
use your_connector.Relay.State.{AppState, has_online_sidecar}
use your_connector.Relay.Pairing.Bootstrap.{
  or_empty, normalize_host_name, normalize_ttl_sec, build_pair_bootstrap_data,
}

abbrev pub or_true : Option Bool → Bool
or_true none = true
or_true (some b) = b

-- `public_ws_url` is the value of `relay_public_ws_url()`, which reads the process's environment.
unfoldable pub issue_pair_bootstrap :
    Crypto
    → (List (String × String) → String)
    → String
    → ℕ
    → String
    → AppState
    → PairBootstrapRequest
    → Result ApiError (Option PairBootstrapData)
issue_pair_bootstrap c link public_ws_url now nonce s req = do
  let system_id = trim req.system_id
  let pair_token = trim req.pair_token
  refuse (is_empty system_id || is_empty pair_token)
      (api_error bad_request "MISSING_CREDENTIALS" "systemId/pairToken 不能为空" "请检查输入后重试")
  room ←
      or_fail (HashMap.get system_id s.systems)
        (api_error unauthorized "SYSTEM_NOT_REGISTERED" "宿主机未在线" "请先启动 sidecar")
  refuse (not (has_online_sidecar room))
      (api_error unauthorized "SYSTEM_NOT_REGISTERED" "宿主机 sidecar 未在线" "请先启动 sidecar")
  refuse (not (room.pair_token == pair_token))
      (api_error unauthorized "PAIR_TOKEN_MISMATCH" "pairToken 不匹配" "请使用最新配对信息")
  let asked = trim (or_empty req.relay_ws_url)
  let relay_ws_url = if is_empty asked then public_ws_url else asked
  ok (
      build_pair_bootstrap_data c link now nonce relay_ws_url system_id pair_token
        (normalize_host_name req.host_name system_id) (or_true req.include_code)
        (normalize_ttl_sec req.ttl_sec))
