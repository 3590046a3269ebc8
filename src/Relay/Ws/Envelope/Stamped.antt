-- ===== src/Relay/Ws/Envelope/Stamped.antt =====
-- What a message holds after the relay has passed it.
use your_connector.Common.{
  ◌≡◌, refl, ◌∙◌, ◌⊎◌, ◌<>◌, true, false, Option, some, String, ok, ◌==◌, string_eq, arith,
  Bool-cases, inl, inr,
}
use your_connector.Common.Json
use your_connector.Common.Json.{
  Value, text, object, Fields, end, get-insert, then_str, trimmed_text, Serde, as_object, unsigned,
}
use your_connector.Common.Text.{is_empty}
use your_connector.Relay.Ws.Envelope.{
  Fresh, fill_blank, fill_missing, stamp, fill_payload, sanitize_fields, is_object,
}

get-fill_blank :
    (j k default : String) (m : Fields)
    → (j == k) ≡ false
    → Json.get j (fill_blank k default m) ≡ Json.get j m
unfolding fill_blank
get-fill_blank j k default m d = ground (arith, get-insert j k (text default) m)

get-fill_missing :
    (j k : String) (v : Value) (m : Fields)
    → (j == k) ≡ false
    → Json.get j (fill_missing k v m) ≡ Json.get j m
unfolding fill_missing
get-fill_missing j k v m d = ground (arith, get-insert j k v m)

get-fill_payload :
    (j : String) (m : Fields)
    → (j == "payload") ≡ false
    → Json.get j (fill_payload m) ≡ Json.get j m
unfolding fill_payload
get-fill_payload j m d = ground (arith, get-insert j "payload" (object end) m)

object_cases : (v : Option Value) → ((p : Fields) × (v ≡ some (object p))) ⊎ (is_object v ≡ false)
object_cases (some (object p)) = inl (p, refl)
object_cases _ = inr refl

payload-fill_payload :
    (m : Fields) → (p : Fields) × (Json.get "payload" (fill_payload m) ≡ some (object p))
unfolding fill_payload
payload-fill_payload m = elim (object_cases (Json.get "payload" m)) [
  | inl (p, e) ↦ (p, rw (e) e)
  | inr other ↦ (end, rw (other, get-insert) (unfold string_eq in refl))
]

-- the fields that the relay vouches for
pub record Stamped (system_id client_type device_id : String) (m : Fields) : Type 0 where
  pub system : Json.get "systemId" m ≡ some (text system_id)
  pub client : Json.get "sourceClientType" m ≡ some (text client_type)
  pub device : Json.get "sourceDeviceId" m ≡ some (text device_id)
  pub peer : Json.get "peerId" m ≡ some (text device_id)

stamp-Stamped :
    (system_id client_type device_id : String) (m : Fields)
    → Stamped system_id client_type device_id (stamp system_id client_type device_id m)
unfolding stamp string_eq
stamp-Stamped system_id client_type device_id m = record {
  system = simp (get-insert);
  client = simp (get-insert);
  device = simp (get-insert);
  peer = simp (get-insert);
}

-- the fields that reach the stamp
abbrev named_fields : Fresh → Fields → Fields
named_fields fresh m =
    fill_blank "traceId" ("trc_" <> fresh.trace_uuid)
      (fill_blank "eventId" ("evt_" <> fresh.event_uuid) (fill_missing "v" (unsigned 1) m))

sanitized_parts :
    (fresh : Fresh) (system_id client_type device_id : String) (m out : Fields)
    → sanitize_fields fresh system_id client_type device_id m ≡ ok out
    → (out
        ≡ fill_payload (
            fill_blank "ts" fresh.now_text
              (stamp system_id client_type device_id (named_fields fresh m))))
      × (is_empty (trimmed_text (Json.get "type" (named_fields fresh m))) ≡ false)
unfolding sanitize_fields
sanitized_parts fresh system_id client_type device_id m out h =
    elim (Bool-cases (is_empty (trimmed_text (Json.get "type" (named_fields fresh m))))) [
      | inl blank ↦ absurd (refused blank h)
      | inr filled ↦ (ground (arith, h, filled), filled)
    ]
  where
    refused :
        is_empty (trimmed_text (Json.get "type" (named_fields fresh m))) ≡ true
        → sanitize_fields fresh system_id client_type device_id m ≡ ok out
        → ⊥
    refused blank e = ground (arith, blank, e)

-- A field that is none of those the relay fills is read after the stamp.
get-filled :
    (j now : String) (m : Fields)
    → (j == "payload") ≡ false
    → (j == "ts") ≡ false
    → Json.get j (fill_payload (fill_blank "ts" now m)) ≡ Json.get j m
get-filled j now m p t = get-fill_payload j _ p ∙ get-fill_blank j "ts" now m t

filled-Stamped :
    (now system_id client_type device_id : String) (m : Fields)
    → Stamped system_id client_type device_id m
    → Stamped system_id client_type device_id (fill_payload (fill_blank "ts" now m))
unfolding string_eq
filled-Stamped now system_id client_type device_id m h = record {
  system = get-filled "systemId" now m refl refl ∙ h.system;
  client = get-filled "sourceClientType" now m refl refl ∙ h.client;
  device = get-filled "sourceDeviceId" now m refl refl ∙ h.device;
  peer = get-filled "peerId" now m refl refl ∙ h.peer;
}

type-stamp :
    (system_id client_type device_id : String) (m : Fields)
    → Json.get "type" (stamp system_id client_type device_id m) ≡ Json.get "type" m
unfolding stamp string_eq
type-stamp system_id client_type device_id m = simp get-insert

type-named :
    (fresh : Fresh) (m : Fields) → Json.get "type" (named_fields fresh m) ≡ Json.get "type" m
unfolding string_eq
type-named fresh m =
    get-fill_blank "type" "traceId" _ _ refl
    ∙ get-fill_blank "type" "eventId" _ _ refl
    ∙ get-fill_missing "type" "v" _ m refl

-- A message that the relay passes says which system, which kind of client and which device it is
-- from as the connection's own, whatever the client wrote; its payload is an object, and its type is
-- the client's and is not blank.
pub sanitize_fields-Stamped :
    (fresh : Fresh) (system_id client_type device_id : String) (m out : Fields)
    → sanitize_fields fresh system_id client_type device_id m ≡ ok out
    → Stamped system_id client_type device_id out
      × ((p : Fields) × (Json.get "payload" out ≡ some (object p)))
      × (Json.get "type" out ≡ Json.get "type" m)
      × (is_empty (trimmed_text (Json.get "type" m)) ≡ false)
unfolding string_eq
sanitize_fields-Stamped fresh system_id client_type device_id m out h =
    let (same, filled) = sanitized_parts fresh system_id client_type device_id m out h in
    rw same (
      filled-Stamped fresh.now_text system_id client_type device_id _
          (stamp-Stamped system_id client_type device_id (named_fields fresh m)),
      payload-fill_payload _,
      get-filled "type" fresh.now_text _ refl refl
          ∙ type-stamp system_id client_type device_id _
          ∙ type-named fresh m,
      rw (type-named fresh m) at filled,
    )
