-- ===== src/Relay/Ops/AtSystem.antt =====
-- Properties of one system's metadata, and what keeps them.
use your_connector.Common.{
  ℕ, ◌≡◌, subst, sym, ◌∙◌, Bool, Option, some, String, inl, inr, ok, string_eq, Option-cases, arith,
}
use your_connector.Common.Exec.{Exec, Keeps, Makes, Fails}
use your_connector.Common.HashMap
use your_connector.Common.HashMap.{get-insert}
use your_connector.Relay.Api.{ApiError, SystemAuthState, DeviceCredential}
use your_connector.Relay.External.{Crypto}
use your_connector.Relay.State.{
  AppState, put_auth, system_mut, consume_auth_nonce, persist_pair_token_meta,
  touch_device_last_seen,
}
use your_connector.Relay.Auth.Handlers.{on_system}
use your_connector.Relay.Pairing.Handlers.{verify_pair_ticket, on_system_mut}

-- The system is registered, and its metadata have the property.
pub record AtSystem (system_id : String) (P : SystemAuthState → Type 0) (s : AppState)
    : Type 0 where
  pub system : SystemAuthState
  pub found : HashMap.get system_id s.auth_store.systems ≡ some system
  pub holds : P system

-- Nonces and rooms are no metadata.
pub auth_store-consume :
    (now : ℕ) (scope nonce : String) (ts : ℕ) (s : AppState)
    → (consume_auth_nonce now scope nonce ts s).1.auth_store ≡ s.auth_store
unfolding consume_auth_nonce
auth_store-consume now scope nonce ts s = ground arith

pub auth_store-verify_pair_ticket :
    (c : Crypto) (now : ℕ) (other ticket : String) (consume : Bool) (s : AppState)
    → (verify_pair_ticket c now other ticket consume s).1.auth_store ≡ s.auth_store
unfolding verify_pair_ticket
auth_store-verify_pair_ticket c now other ticket consume s = ground arith

some_eq : {a b : SystemAuthState} → some a ≡ some b → a ≡ b
some_eq e = cc

module _ (system_id : String) (P : SystemAuthState → Type 0) where
  -- A write to this system has to keep the property; one to another system does.
  pub AtSystem-put_auth :
      (other : String) (system : SystemAuthState) (s : AppState)
      → (system_id ≡ other → P system)
      → AtSystem system_id P s
      → AtSystem system_id P (put_auth system other s)
  AtSystem-put_auth other system s kept h = elim (string_eq.dec system_id other) [
    | yes same ↦ record { system = system; found = rw get-insert (ground arith); holds = kept same }
    | no differ ↦ record {
      system = h.system;
      found = rw get-insert (ground (arith, h.found));
      holds = h.holds;
    }
  ]

  -- A change of the rest of the state keeps it.
  pub AtSystem-store :
      (s t : AppState)
      → t.auth_store ≡ s.auth_store
      → AtSystem system_id P s
      → AtSystem system_id P t
  AtSystem-store s t same h = record { system = h.system; found = rw same h.found; holds = h.holds }

  pub AtSystem-lift :
      {A : Type 0} (other : String) (missing : ApiError) (method : Exec SystemAuthState ApiError A)
      → (system_id ≡ other → Keeps P method)
      → Keeps (AtSystem system_id P) (on_system other missing method)
  unfolding on_system
  AtSystem-lift other missing method keeps = record { at = λ s h. at_state s h }
    where
      at_state :
          (s : AppState)
          → AtSystem system_id P s
          → AtSystem system_id P (on_system other missing method s).1
      at_state s h = elim (Option-cases (HashMap.get other s.auth_store.systems)) [
        | inl gone ↦ rw (gone, on_system) h
        | inr (system, here) ↦
            rw (here, on_system)
              (AtSystem-put_auth other (method system).1 s
                (λ same.
                  (keeps same).at system
                    (subst (λ x. P x) (some_eq (sym h.found ∙ (rw same here))) h.holds))
                h)
      ]

  pub AtSystem-lift_mut :
      {A : Type 0} (other : String) (method : Exec SystemAuthState ApiError A)
      → (system_id ≡ other → Keeps P method)
      → Keeps (AtSystem system_id P) (on_system_mut other method)
  unfolding on_system_mut
  AtSystem-lift_mut other method keeps = record {
    at = λ s h.
        AtSystem-put_auth other (method (system_mut other s)).1 s
          (λ same. (keeps same).at (system_mut other s) (rw (← same, h.found) h.holds)) h;
  }

  pub AtSystem-consume :
      (now : ℕ) (scope nonce : String) (ts : ℕ)
      → Keeps (AtSystem system_id P) (consume_auth_nonce now scope nonce ts)
  AtSystem-consume now scope nonce ts = record {
    at = λ s h. AtSystem-store s _ (auth_store-consume now scope nonce ts s) h;
  }

  pub AtSystem-verify_pair_ticket :
      (c : Crypto) (now : ℕ) (other ticket : String) (consume : Bool)
      → Keeps (AtSystem system_id P) (verify_pair_ticket c now other ticket consume)
  AtSystem-verify_pair_ticket c now other ticket consume = record {
    at = λ s h. AtSystem-store s _ (auth_store-verify_pair_ticket c now other ticket consume s) h;
  }

  -- `persist_pair_token_meta` writes two fields, `touch_device_last_seen` one of a device.
  pub AtSystem-persist_pair_token_meta :
      (c : Crypto) (now_text other pair_token : String) (s : AppState)
      → ((system : SystemAuthState) (hash text : Option String)
          → P system
          → P (record system { pair_token_hash = hash; pair_token_updated_at = text }))
      → AtSystem system_id P s
      → AtSystem system_id P (persist_pair_token_meta c now_text other pair_token s)
  unfolding persist_pair_token_meta
  AtSystem-persist_pair_token_meta c now_text other pair_token s keeps h =
      AtSystem-put_auth other _ s
        (λ same. keeps (system_mut other s) _ _ (rw (← same, h.found) h.holds)) h

  pub AtSystem-touch_device_last_seen :
      (now_text other device_id : String) (s : AppState)
      → ((system : SystemAuthState) (device : DeviceCredential)
          → HashMap.get device_id system.devices ≡ some device
          → P system
          → P (record system {
            devices =
                HashMap.insert device_id (record device { last_seen_at = now_text }) system.devices;
          }))
      → AtSystem system_id P s
      → AtSystem system_id P (touch_device_last_seen now_text other device_id s)
  unfolding touch_device_last_seen
  AtSystem-touch_device_last_seen now_text other device_id s keeps h =
      elim (Option-cases (HashMap.get other s.auth_store.systems)) [
        | inl gone ↦ rw (gone, touch_device_last_seen) h
        | inr (system, here) ↦ elim (Option-cases (HashMap.get device_id system.devices)) [
          | inl missing ↦ rw (here, missing, touch_device_last_seen) h
          | inr (device, stored) ↦
              rw (here, stored, touch_device_last_seen)
                (AtSystem-put_auth other _ s
                  (λ same.
                    keeps system device stored
                      (subst (λ x. P x) (some_eq (sym h.found ∙ (rw same here))) h.holds))
                  h)
        ]
      ]

  pub AtSystem-Fails :
      {A : Type 0} (missing : ApiError) (method : Exec SystemAuthState ApiError A)
      → Fails P method
      → Fails (AtSystem system_id P) (on_system system_id missing method)
  unfolding on_system
  AtSystem-Fails missing method f = record {
    at = λ s h. rw (h.found, on_system) (f.at h.system h.holds);
  }

  pub AtSystem-Makes :
      {A : Type 0} (missing : ApiError) (method : Exec SystemAuthState ApiError A)
      → Makes P method
      → Makes (AtSystem system_id P) (on_system system_id missing method)
  unfolding on_system
  AtSystem-Makes {A} missing method m = record { at = λ s a h. at_state s a h }
    where
      at_state :
          (s : AppState) (a : A)
          → (on_system system_id missing method s).0 ≡ ok a
          → AtSystem system_id P (on_system system_id missing method s).1
      at_state s a h = elim (Option-cases (HashMap.get system_id s.auth_store.systems)) [
        | inl gone ↦ cc (rw (gone, on_system) at h)
        | inr (system, here) ↦
            rw (here, on_system)
              (record {
                system = (method system).1;
                found = rw get-insert (ground arith);
                holds = m.at system a (rw (here, on_system) at h);
              })
      ]
