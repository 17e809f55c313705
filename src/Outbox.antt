-- ===== src/Outbox.antt =====
-- internal/outbox/record.go: the records of the outbox. encoding/json on the types of the program
-- is the parameter `Codec`.
pub mod Retry
pub mod Store
pub mod RecordId
use mgate_agent.Base.{
  ℕ, Bool, true, false, not, Option, none, some, List, [], ◌∷◌, ◌++◌, ◌||◌, ◌&&◌, ◌==◌, leb,
  if◌then◌else◌, reverse, Result, ok, err,
}
use mgate_agent.Base.Text.{Text, codes, text_eq, member}
use mgate_agent.Protocol.{Envelope, MessageType, result}
use mgate_agent.Protocol.Json.{Fields, end, field, Value, string, get_field, set_field}
use mgate_agent.Audit.Redact.{redact_fields, redact_text}

pub record Record : Type 0 where
  pub record_id : Text
  pub command_id : Text
  pub created_at : ℕ
  pub updated_at : ℕ
  pub attempts : ℕ
  pub last_error : Text
  pub next_retry_at : ℕ
  pub envelope : Envelope

-- json.Unmarshal and json.Marshal at the types where the outbox uses them; `none` is an error
pub record Codec : Type 0 where
  pub parse_map : Text → Option Fields
  pub print_map : Fields → Option Text
  pub parse_command_id : Text → Option Text
  pub encode : Record → Option Text
  pub decode : Text → Option Record

pub data RecordError : Type 0 where
  not_a_result bad_payload : RecordError

-- env.Type == protocol.MessageTypeResult
unfoldable pub is_result : MessageType → Bool
is_result result = true
is_result _ = false

-- one of the keys stdout and stderr: a string there is redacted as text
unfoldable pub redact_output : Text → Fields → Fields
redact_output key fs = elim (get_field key fs) [
  | some (string text) ↦ set_field key (string (redact_text text)) fs
  | _ ↦ fs
]

-- [^A-Za-z0-9._-]
unfoldable pub is_filename_safe : ℕ → Bool
is_filename_safe c =
    (leb b'A' c && leb c b'Z')
    || (leb b'a' c && leb c b'z')
    || (leb b'0' c && leb c b'9')
    || member c (codes "._-")

-- ReplaceAllString(commandID, "_"): a run of unsafe bytes becomes one underscore; the flag says
-- that the byte before was unsafe
unfoldable pub replace_unsafe : Bool → Text → Text
unfolding is_filename_safe
replace_unsafe in_run [] = []
replace_unsafe in_run (c ∷ s) =
    let rest = replace_unsafe (not (is_filename_safe c)) s in
    if is_filename_safe c then c ∷ rest else if in_run then rest else b'_' ∷ rest

-- the cutset of strings.Trim(id, ".-_")
abbrev pub trimmed_bytes : Text
trimmed_bytes = codes ".-_"

unfoldable pub trim_left : Text → Text
trim_left [] = []
trim_left (c ∷ s) = let rest = trim_left s in if member c trimmed_bytes then rest else c ∷ s

-- a byte in front of text that is trimmed at its end
unfoldable pub before_trimmed : ℕ → Text → Text
before_trimmed c [] = if member c trimmed_bytes then [] else c ∷ []
before_trimmed c (d ∷ t) = c ∷ d ∷ t

unfoldable pub trim_right : Text → Text
unfolding before_trimmed
trim_right [] = []
trim_right (c ∷ s) = before_trimmed c (trim_right s)

abbrev pub unknown_id : Text
unknown_id = codes "unknown"

-- sanitizeRecordID
unfoldable pub sanitize_record_id : Text → Text
unfolding replace_unsafe trim_left trim_right
sanitize_record_id command_id =
    let id = trim_right (trim_left (replace_unsafe false command_id)) in
    if text_eq id [] then unknown_id else id

module _ (codec : Codec) where
  -- sanitizeEnvelope
  unfoldable pub sanitize_envelope : Envelope → Envelope
  unfolding redact_output
  sanitize_envelope env = elim (codec.parse_map env.payload) [
    | none ↦ env
    | some fs ↦
        elim (codec.print_map
          (redact_output (codes "stderr") (redact_output (codes "stdout") (redact_fields fs)))) [
            | none ↦ env
            | some data' ↦ record env { payload = data' }
          ]
  ]

  -- commandIDFromEnvelope
  unfoldable pub command_id_from_envelope : Envelope → Result RecordError Text
  command_id_from_envelope env =
      if not (text_eq env.correlation_id [])
      then ok env.correlation_id
      else elim (codec.parse_command_id env.payload) [ none ↦ err bad_payload | some id ↦ ok id ]

  -- NewRecord
  unfoldable pub new_record : Envelope → ℕ → Result RecordError Record
  unfolding sanitize_envelope command_id_from_envelope sanitize_record_id is_result
  new_record env now =
      if not (is_result env.type)
      then err not_a_result
      else let clean = sanitize_envelope env in
        elim (command_id_from_envelope clean) [
          | err e ↦ err e
          | ok id ↦ ok (record {
            record_id = sanitize_record_id id;
            command_id = id;
            created_at = now;
            updated_at = now;
            attempts = 0;
            last_error = [];
            next_retry_at = now;
            envelope = clean;
          })
        ]
