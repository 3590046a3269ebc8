-- ===== src/Relay/Pairing/Handlers/Ticket.antt =====
-- services/relay/src/pairing/handlers: ticket.rs and preflight.rs
use your_connector.Common.{
  ℕ, not, ◌||◌, Bool, false, none, some, String, Result, ok, err, refuse, map_err, string_eq,
  if◌then◌else◌,
}
use your_connector.Common.Exec.{Exec, lift, ◌>>◌}
use your_connector.Common.HashMap
use your_connector.Common.Text.{trim, is_empty}
use your_connector.Relay.Api.{
  ApiError, api_error, bad_request, unauthorized, PairAuthMode, pair_ticket, PairPreflightRequest,
}
use your_connector.Relay.External.{Crypto}
use your_connector.Relay.State.{AppState, SystemRoom, has_online_sidecar}
use your_connector.Relay.Pairing.Bootstrap.{or_empty}
use your_connector.Relay.Pairing.Ticket.{verify_pairing_ticket, pair_ticket_error_to_api}

abbrev pub put_room : String → SystemRoom → AppState → AppState
put_room system_id room s = record s { systems = HashMap.insert system_id room s.systems }

abbrev auth_mode : Result ApiError (Unit {0}) → Result ApiError PairAuthMode
auth_mode (ok _) = ok pair_ticket
auth_mode (err e) = err e

module _ (c : Crypto) (now : ℕ) where
  -- the method on the room of the system
  unfoldable pub verify_room_ticket :
      SystemRoom → String → String → Bool → Result ApiError PairAuthMode × SystemRoom
  verify_room_ticket room system_id ticket consume_ticket =
      if not (has_online_sidecar room)
      then (
        err (api_error unauthorized "SYSTEM_NOT_REGISTERED" "宿主机 sidecar 未在线" "请先启动 sidecar"),
        room,
      )
      else if is_empty ticket
      then (
        err (api_error bad_request "MISSING_CREDENTIALS" "缺少 pairTicket" "请重新扫码或重新导入配对链接"),
        room,
      )
      else let (result, ticket_nonces) =
          verify_pairing_ticket c now ticket system_id room.pair_token room.ticket_nonces
            consume_ticket in
        (
          auth_mode (map_err pair_ticket_error_to_api result),
          record room { ticket_nonces = ticket_nonces },
        )

  unfoldable pub verify_pair_ticket : String → String → Bool → Exec AppState ApiError PairAuthMode
  unfolding verify_room_ticket
  verify_pair_ticket system_id ticket consume_ticket s = elim (HashMap.get system_id s.systems) [
    | none ↦ (err (api_error unauthorized "SYSTEM_NOT_REGISTERED" "宿主机未在线" "请先启动 sidecar"), s)
    | some room ↦
        let (result, after) = verify_room_ticket room system_id ticket consume_ticket in
        (result, put_room system_id after s)
  ]

  unfoldable pub preflight_pair_credentials :
      PairPreflightRequest → Exec AppState ApiError PairAuthMode
  preflight_pair_credentials req = do
    let system_id = trim req.system_id
    let device_id = trim req.device_id
    lift (
        refuse (is_empty system_id || is_empty device_id)
          (api_error bad_request "MISSING_CREDENTIALS" "systemId/deviceId 不能为空" "请检查配对信息"))
    lift (
        refuse (not (is_empty (trim (or_empty req.pair_token)))) (
          api_error bad_request "PAIR_TOKEN_NOT_SUPPORTED" "App 配对接口已不支持 pairToken"
            "请改用 sid + pairTicket（扫码或配对链接）"))
    verify_pair_ticket system_id (trim (or_empty req.pair_ticket)) false
