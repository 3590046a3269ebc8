-- ===== src/Relay/Pairing/Bootstrap.antt =====
-- services/relay/src/pairing/bootstrap.rs, without the banner
pub mod Lifetime
use your_connector.Common.{
  ℕ, ◌≤◌, ◌≡◌, refl, Bool, Option, none, some, List, [], ◌∷◌, ◌++◌, String, ◌<>◌, ltb,
  if◌then◌else◌, arith,
}
use your_connector.Common.Text.{trim, is_empty, take_chars}
use your_connector.Relay.Api.{default_pair_ticket_ttl_sec, PairBootstrapData}
use your_connector.Relay.External.{Crypto}
use your_connector.Relay.Pairing.Ticket.{generate_pairing_ticket}

abbrev pub or_empty : Option String → String
or_empty none = ""
or_empty (some s) = s

unfoldable pub normalize_host_name : Option String → String → String
normalize_host_name raw fallback =
    let normalized = trim (or_empty raw) in
    if is_empty normalized then take_chars 64 fallback else take_chars 64 normalized

abbrev clamp : ℕ → ℕ → ℕ → ℕ
clamp x lo hi = if ltb x lo then lo else if ltb hi x then hi else x

unfoldable pub normalize_ttl_sec : Option ℕ → ℕ
normalize_ttl_sec none = clamp default_pair_ticket_ttl_sec 30 3600
normalize_ttl_sec (some ttl_sec) = clamp ttl_sec 30 3600

-- `link` stands for the `url` crate: `yc://pair` with the query pairs that are appended.
unfoldable pub build_pair_bootstrap_data :
    Crypto
    → (List (String × String) → String)
    → ℕ
    → String
    → String
    → String
    → String
    → String
    → Bool
    → ℕ
    → Option PairBootstrapData
build_pair_bootstrap_data c link now nonce relay_ws_url system_id pair_token host_name include_code
      ttl_sec =
    elim (generate_pairing_ticket c now nonce system_id pair_token ttl_sec) [
      | none ↦ none
      | some pair_ticket ↦
          let pair_code = system_id <> ("." <> pair_token) in
          let base = ("relay", relay_ws_url) ∷ ("sid", system_id) ∷ ("ticket", pair_ticket) ∷ [] in
          let named = if is_empty (trim host_name) then [] else ("name", trim host_name) ∷ [] in
          let coded = if include_code then ("code", pair_code) ∷ [] else [] in
          let pair_link = link (base ++ (named ++ coded)) in
          some (record {
            pair_link = pair_link;
            pair_ticket = pair_ticket;
            relay_ws_url = relay_ws_url;
            system_id = system_id;
            host_name = host_name;
            pair_code = if include_code then some pair_code else none;
            simctl_command = "xcrun simctl openurl booted \"" <> (pair_link <> "\"");
          })
    ]
