-- ===== src/Relay/Api.antt =====
-- services/relay/src/api: errors, stored records and the claims of tokens and tickets.
mod Requests
pub use Requests.*
use your_connector.Common.{ℕ, ◌*◌, String, Option, none, some, Result}
use your_connector.Common.HashMap
use your_connector.Common.HashMap.{HashMap}

-- the `StatusCode`s in use
pub data Status : Type 0 where
  bad_request unauthorized not_found internal_server_error : Status

pub record ApiError : Type 0 where
  pub status : Status
  pub code : String
  pub message : String
  pub suggestion : String

-- `ApiError::new`
abbrev pub api_error : Status → String → String → String → ApiError
api_error status code message suggestion = record {
  status = status;
  code = code;
  message = message;
  suggestion = suggestion;
}

pub record DeviceCredential : Type 0 where
  pub device_id : String
  pub device_name : String
  pub key_id : String
  pub public_key : String
  pub status : String
  pub created_at : String
  pub last_seen_at : String
  pub revoked_at : Option String

pub record RefreshSession : Type 0 where
  pub session_id : String
  pub system_id : String
  pub device_id : String
  pub key_id : String
  pub credential_id : String
  pub refresh_secret_hash : String
  pub expires_at : ℕ
  pub created_at : String
  pub revoked_at : Option String
  pub rotated_from : Option String

pub record SystemAuthState : Type 0 where
  pub pair_token_hash : Option String
  pub pair_token_updated_at : Option String
  pub devices : HashMap String DeviceCredential
  pub refresh_sessions : HashMap String RefreshSession

abbrev pub default_system : SystemAuthState
default_system = record {
  pair_token_hash = none;
  pair_token_updated_at = none;
  devices = HashMap.empty;
  refresh_sessions = HashMap.empty;
}

pub record AuthStore : Type 0 where
  pub version : ℕ
  pub signing_key : String
  pub systems : HashMap String SystemAuthState

-- `AuthStore::new`
abbrev pub new_auth_store : String → AuthStore
new_auth_store signing_key = record {
  version = 1;
  signing_key = signing_key;
  systems = HashMap.empty;
}

pub record AccessTokenClaims : Type 0 where
  pub sid : String
  pub did : String
  pub kid : String
  pub iat : ℕ
  pub exp : ℕ
  pub jti : String

pub record PairTicketClaims : Type 0 where
  pub sid : String
  pub iat : ℕ
  pub exp : ℕ
  pub nonce : String

pub data PairTicketError : Type 0 where
  empty format signature_format signature_verify payload claims : PairTicketError
  system_mismatch empty_nonce expired iat_invalid replay : PairTicketError

pub data PairTokenAuthDecision : Type 0 where
  allow rotate initialize : PairTokenAuthDecision

abbrev pub access_token_ttl_sec : ℕ
access_token_ttl_sec = 600

abbrev pub refresh_token_ttl_sec : ℕ
refresh_token_ttl_sec = 30 * 24 * 3600

abbrev pub pop_max_skew_sec : ℕ
pop_max_skew_sec = 120

abbrev pub default_pair_ticket_ttl_sec : ℕ
default_pair_ticket_ttl_sec = 300
