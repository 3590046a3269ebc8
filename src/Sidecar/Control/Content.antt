-- ===== src/Sidecar/Control/Content.antt =====
-- services/sidecar/src/control.rs: the parts of a chat message
use your_connector.Common.{
  ℕ, ◌*◌, ◌&&◌, ◌||◌, Bool, Option, none, some, List, [], ◌∷◌, String, ◌==◌, string_eq, ltb, length,
  if◌then◌else◌,
}
use your_connector.Common.Json
use your_connector.Common.Json.{
  Value, object, array, Items, nil, item, Fields, as_array, trimmed_text,
}
use your_connector.Common.Text.{is_empty, as_bytes}
use your_connector.Sidecar.Control.{ChatContentPart}
use your_connector.Sidecar.Control.Fields.{parse_u64_field, eq_ignore_ascii_case}

-- the length in bytes
abbrev pub byte_len : String → ℕ
byte_len s = length (as_bytes s)

abbrev pub max_media_base64_len : ℕ
max_media_base64_len = 40 * 1024 * 1024

abbrev part_of : Fields → ChatContentPart
part_of obj = record {
  kind = trimmed_text (Json.get "type" obj);
  media_id = trimmed_text (Json.get "mediaId" obj);
  mime = trimmed_text (Json.get "mime" obj);
  size = parse_u64_field (Json.get "size" obj);
  duration_ms = parse_u64_field (Json.get "durationMs" obj);
  content_text = trimmed_text (Json.get "text" obj);
  path_hint = trimmed_text (Json.get "pathHint" obj);
  data_base64 = trimmed_text (Json.get "dataBase64" obj);
  staged_media_id = trimmed_text (Json.get "stagedMediaId" obj);
  stage_error_code = trimmed_text (Json.get "stageErrorCode" obj);
  stage_error_reason = trimmed_text (Json.get "stageErrorReason" obj);
}

-- the four tests that lead to `continue`
unfoldable pub is_skipped : ChatContentPart → Bool
is_skipped p =
    is_empty p.kind
    || ltb max_media_base64_len (byte_len p.data_base64)
    || (p.kind == "text" && is_empty p.content_text)
    || (eq_ignore_ascii_case p.kind "fileref" && is_empty p.path_hint && is_empty p.content_text)

unfoldable pub content_part : Value → Option ChatContentPart
content_part (object obj) = let p = part_of obj in if is_skipped p then none else some p
content_part _ = none

abbrev push : Option ChatContentPart → List ChatContentPart → List ChatContentPart
push none ps = ps
push (some p) ps = p ∷ ps

unfoldable pub content_parts : Items → List ChatContentPart
content_parts nil = []
content_parts (item v vs) = push (content_part v) (content_parts vs)

unfoldable pub parse_chat_content_parts : Option Value → List ChatContentPart
parse_chat_content_parts (some (array rows)) = content_parts rows
parse_chat_content_parts _ = []
