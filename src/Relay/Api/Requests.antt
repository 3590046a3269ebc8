-- ===== src/Relay/Api/Requests.antt =====
-- The requests and replies of services/relay/src/api/types.rs.
use your_connector.Common.{ℕ, String, Bool, Option}

pub record WsQuery : Type 0 where
  pub system_id : String
  pub client_type : String
  pub device_id : String
  pub pair_token : String
  pub pair_ticket : Option String
  pub host_name : Option String
  pub access_token : Option String
  pub key_id : Option String
  pub ts : Option String
  pub nonce : Option String
  pub sig : Option String

pub data PairAuthMode : Type 0 where
  pair_ticket : PairAuthMode

pub record PairPreflightRequest : Type 0 where
  pub system_id : String
  pub device_id : String
  pub pair_token : Option String
  pub pair_ticket : Option String

pub record PairExchangeRequest : Type 0 where
  pub system_id : String
  pub device_id : String
  pub device_name : String
  pub pair_token : Option String
  pub pair_ticket : Option String
  pub device_pub_key : String
  pub key_id : String
  pub proof : String

pub record PairExchangeData : Type 0 where
  pub auth_mode : PairAuthMode
  pub access_token : String
  pub refresh_token : String
  pub key_id : String
  pub credential_id : String
  pub access_expires_in_sec : ℕ
  pub refresh_expires_in_sec : ℕ

pub record PairBootstrapRequest : Type 0 where
  pub system_id : String
  pub pair_token : String
  pub host_name : Option String
  pub relay_ws_url : Option String
  pub include_code : Option Bool
  pub ttl_sec : Option ℕ

pub record PairBootstrapData : Type 0 where
  pub pair_link : String
  pub pair_ticket : String
  pub relay_ws_url : String
  pub system_id : String
  pub host_name : String
  pub pair_code : Option String
  pub simctl_command : String

pub record AuthRefreshRequest : Type 0 where
  pub system_id : String
  pub device_id : String
  pub refresh_token : String
  pub key_id : String
  pub ts : String
  pub nonce : String
  pub sig : String

pub record AuthRefreshData : Type 0 where
  pub access_token : String
  pub refresh_token : String
  pub key_id : String
  pub credential_id : String
  pub access_expires_in_sec : ℕ
  pub refresh_expires_in_sec : ℕ

pub record AuthRevokeDeviceRequest : Type 0 where
  pub system_id : String
  pub device_id : String
  pub target_device_id : String
  pub access_token : String
  pub key_id : String
  pub ts : String
  pub nonce : String
  pub sig : String

pub record AuthDevicesQuery : Type 0 where
  pub system_id : String
  pub device_id : String
  pub access_token : String
  pub key_id : String
  pub ts : String
  pub nonce : String
  pub sig : String

pub record DeviceEntry : Type 0 where
  pub device_id : String
  pub device_name : String
  pub key_id : String
  pub status : String
  pub created_at : String
  pub last_seen_at : String
  pub revoked_at : Option String
