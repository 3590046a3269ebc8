-- ===== src/Relay/Ws/Auth.antt =====
-- services/relay/src/ws/handlers/auth.rs: who may open a connection
use Prim.Native.Nat.{suc}
use your_connector.Common.{
  ℕ, not, ◌||◌, none, some, is_some, [], ◌∷◌, String, ok, err, refuse, or_fail, map_err, ◌==◌,
  string_eq, if◌then◌else◌, saturating_add,
}
use your_connector.Common.Exec.{Exec, lift, gets, modify, pure, ◌>>=◌, ◌>>◌}
use your_connector.Common.HashMap
use your_connector.Common.HashMap.{HashMap}
use your_connector.Common.Text.{trim, is_empty}
use your_connector.Relay.Api.{
  ApiError, api_error, bad_request, unauthorized, WsQuery, PairTokenAuthDecision, allow, rotate,
  initialize, pop_max_skew_sec,
}
use your_connector.Relay.External.{Crypto}
use your_connector.Relay.Nonces.{prune, seen}
use your_connector.Relay.State.{
  AppState, SystemRoom, ClientHandle, has_online_sidecar, persist_pair_token_meta,
  touch_device_last_seen,
}
use your_connector.Relay.Auth.Handlers.{Readings}
use your_connector.Relay.Auth.Token.{authorize_pair_token}
use your_connector.Relay.Pairing.Handlers.{put_room}
use your_connector.Relay.Ws.Access.{trimmed, read_signed_query, check_device}

-- `clients.values().filter(|client| client.client_type == "sidecar").count()`
unfoldable pub sidecar_clients : HashMap String ClientHandle → ℕ
sidecar_clients [] = 0
sidecar_clients ((id, client) ∷ clients) =
    let rest = sidecar_clients clients in if client.client_type == "sidecar" then suc rest else rest

abbrev new_room : String → SystemRoom
new_room pair_token = record {
  pair_token = pair_token;
  ticket_nonces = HashMap.empty;
  app_nonces = HashMap.empty;
  clients = HashMap.empty;
}

module _ (c : Crypto) (r : Readings) where
  unfoldable pub apply_decision :
      WsQuery → SystemRoom → PairTokenAuthDecision → Exec AppState ApiError (Unit {0})
  apply_decision q room allow = pure tt
  apply_decision q room initialize = pure tt
  apply_decision q room rotate = do
    modify (put_room q.system_id (record room { pair_token = trim q.pair_token }))
    modify (persist_pair_token_meta c r.now_text q.system_id (trim q.pair_token))

  -- where the system has a room
  unfoldable pub join_room : WsQuery → SystemRoom → Exec AppState ApiError (Unit {0})
  unfolding apply_decision
  join_room q room = do
    decision ← lift (
        map_err (λ _. api_error unauthorized "PAIR_TOKEN_MISMATCH" "pairToken 不匹配" "请重新生成配对信息后再试")
          (authorize_pair_token (some room.pair_token) (sidecar_clients room.clients) q.client_type
            (trim q.pair_token)))
    apply_decision q room decision

  unfoldable pub authorize_sidecar : WsQuery → Exec AppState ApiError (Unit {0})
  unfolding join_room
  authorize_sidecar q s = elim (HashMap.get q.system_id s.systems) [
    | none ↦ (
      ok tt,
      persist_pair_token_meta c r.now_text q.system_id (trim q.pair_token)
          (put_room q.system_id (new_room (trim q.pair_token)) s),
    )
    | some room ↦ join_room q room s
  ]

  -- the check of the room, and the nonce of the connection
  unfoldable pub enter_room : String → String → Exec AppState ApiError (Unit {0})
  enter_room system_id nonce = do
    systems ← gets (λ s. s.systems)
    room ← lift (
        or_fail (HashMap.get system_id systems)
          (api_error unauthorized "SYSTEM_NOT_REGISTERED" "宿主机未在线" "请先启动 sidecar"))
    lift (
        refuse (not (has_online_sidecar room))
          (api_error unauthorized "SYSTEM_NOT_REGISTERED" "宿主机 sidecar 未在线" "请先启动 sidecar"))
    let pruned = prune 5 r.nonce_now room.app_nonces
    modify (put_room system_id (record room { app_nonces = pruned }))
    lift (
        refuse (seen r.nonce_now nonce pruned)
          (api_error unauthorized "ACCESS_SIGNATURE_REPLAYED" "签名请求已使用，请重试" "请重新发起连接"))
    modify (
        put_room system_id (record room {
          app_nonces = HashMap.insert nonce (saturating_add r.nonce_now pop_max_skew_sec) pruned;
        }))

  unfoldable pub authorize_app_with_access : WsQuery → Exec AppState ApiError (Unit {0})
  authorize_app_with_access q = do
    signed ← lift (read_signed_query r.window_now q)
    store ← gets (λ s. s.auth_store)
    device ← lift (check_device c r.check_now store q.system_id q.device_id signed)
    enter_room q.system_id signed.nonce
    modify (touch_device_last_seen r.now_text q.system_id device.device_id)

  unfoldable pub authorize_connection : WsQuery → Exec AppState ApiError (Unit {0})
  authorize_connection q =
      if q.client_type == "sidecar"
      then if is_empty (trim q.pair_token)
        then lift (
            err (
              api_error bad_request "MISSING_CREDENTIALS" "sidecar 缺少 pairToken"
                "请重启 sidecar 并检查配置"))
        else authorize_sidecar q
      else if is_some (trimmed q.access_token)
      then authorize_app_with_access q
      else if not (is_empty (trim q.pair_token)) || is_some (trimmed q.pair_ticket)
      then lift (
          err (
            api_error bad_request "PAIR_TOKEN_NOT_SUPPORTED"
              "App 连接已不支持 pairToken/pairTicket，请先完成设备凭证换发" "请重新扫码配对后再连接"))
      else lift (err (api_error bad_request "MISSING_CREDENTIALS" "缺少 accessToken" "请重新扫码配对后再连接"))
