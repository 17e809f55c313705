-- ===== src/Mgate.antt =====
-- internal/mgate/client.go: the status that mgate.sh prints, and its summary in protocol/ws.go.
--
-- The operating system's answers are parameters: `stat` for os.Stat, `exec` for one run of the
-- program with its arguments and time limit. So are the JSON decoder, which gives the first object
-- of a text and what stands after it, the test that nothing does, and json.Number's Int64. The
-- decoder reads every number as a json.Number, so the other cases of schemaVersion do not arise.
pub mod Laws
use mgate_agent.Base.{
  ℕ, ◌*◌, ◌/◌, ◌%◌, Bool, true, false, not, Option, none, some, List, [], ◌∷◌, ◌&&◌, ◌||◌, ◌==◌,
  leb, if◌then◌else◌, Result, ok, err,
}
use mgate_agent.Base.Int.{ℤ, pos, negsuc}
use mgate_agent.Base.Text.{Text, codes}
use mgate_agent.Protocol.{second}
use mgate_agent.Protocol.Json.{Value, Fields, null, number, string, object, get_field}
use mgate_agent.Audit.Redact.{redact_fields}

-- `no_code` is the empty string
pub data Code : Type 0 where
  no_code mgate_missing mgate_not_executable mgate_exec_failed : Code
  capabilities_timeout capabilities_invalid_json capabilities_unsupported_schema : Code
  snapshot_timeout snapshot_invalid_json snapshot_unsupported_schema : Code

pub record MgateStatusSummary : Type 0 where
  pub available : Bool
  pub schema_version : ℤ
  pub version : Text
  pub mode : Text
  pub overall_health : Text
  pub wifi : Option Fields
  pub ap : Option Fields
  pub gateway : Option Fields
  pub tproxy : Option Fields
  pub mihomo : Option Fields
  pub subscription : Option Fields
  pub web : Option Fields
  pub error_code : Code

-- what os.Stat says
pub data Stat : Type 0 where
  missing unavailable : Stat
  info : Bool → ℕ → Stat

-- how cmd.Run ended: with the bytes of stdout, with the deadline of its context passed, with
-- another error
pub data Run : Type 0 where
  printed : Text → Run
  expired broken : Run

pub record Client : Type 0 where
  pub path : Text
  pub capabilities_timeout : ℕ
  pub snapshot_timeout : ℕ

abbrev pub default_command_timeout : ℕ
default_command_timeout = 2 * second

-- NewClient; a time limit of 0 stands for one that is not positive
unfoldable pub new_client : Text → ℕ → ℕ → Client
new_client path to_list to_report = record {
  path = path;
  capabilities_timeout = if leb to_list 0 then default_command_timeout else to_list;
  snapshot_timeout = if leb to_report 0 then default_command_timeout else to_report;
}

-- mode&0o111 == 0
unfoldable pub no_execute_bit : ℕ → Bool
no_execute_bit mode = (mode % 2 == 0) && (mode / 8 % 2 == 0) && (mode / 64 % 2 == 0)

-- ensureExecutable
unfoldable pub ensure_executable : Bool → Stat → Result Code (Unit {0})
unfolding no_execute_bit
ensure_executable on_windows missing = err mgate_missing
ensure_executable on_windows unavailable = err mgate_missing
ensure_executable on_windows (info is_dir mode) =
    if is_dir
    then err mgate_not_executable
    else if not on_windows && no_execute_bit mode
    then err mgate_not_executable
    else ok tt

-- stringField
unfoldable pub string_field : Fields → Text → Text
string_field payload key = elim (get_field key payload) [ some (string s) ↦ s | _ ↦ [] ]

-- objectField
unfoldable pub object_field : Fields → Text → Option Fields
object_field payload key = elim (get_field key payload) [
  | some (object fs) ↦ some (redact_fields fs)
  | _ ↦ none
]

module _ (int64 : Text → Option ℤ) where
  -- schemaVersion
  unfoldable pub schema_version : Fields → ℤ
  schema_version payload = elim (get_field (codes "schema_version") payload) [
    | some (number n) ↦ elim (int64 n) [ none ↦ pos 0 | some v ↦ v ]
    | _ ↦ pos 0
  ]

  -- summaryFromSnapshot
  unfoldable pub summary_from_snapshot : Fields → MgateStatusSummary
  unfolding schema_version string_field object_field
  summary_from_snapshot s = record {
    available = true;
    schema_version = schema_version s;
    version = string_field s (codes "version");
    mode = string_field s (codes "mode");
    overall_health = string_field s (codes "overall_health");
    wifi = object_field s (codes "wifi");
    ap = object_field s (codes "ap");
    gateway = object_field s (codes "gateway");
    tproxy = object_field s (codes "tproxy");
    mihomo = object_field s (codes "mihomo");
    subscription = object_field s (codes "subscription");
    web = object_field s (codes "web");
    error_code = no_code;
  }

-- schemaVersion(payload) != SupportedSchemaVersion
unfoldable pub is_supported : ℤ → Bool
is_supported (pos n) = n == 1
is_supported (negsuc n) = false

abbrev pub unavailable_summary : Code → MgateStatusSummary
unavailable_summary code = record {
  available = false;
  schema_version = pos 0;
  version = [];
  mode = [];
  overall_health = [];
  wifi = none;
  ap = none;
  gateway = none;
  tproxy = none;
  mihomo = none;
  subscription = none;
  web = none;
  error_code = code;
}

-- the world outside
pub record Outside : Type 0 where
  pub on_windows : Bool
  pub stat : Text → Stat
  pub exec : Text → List Text → ℕ → Run
  pub decode_first : Text → Option (Fields × Text)
  pub at_end : Text → Bool
  pub int64 : Text → Option ℤ

module _ (o : Outside) where
  -- runJSON from the output on
  unfoldable pub read_json : Text → Code → Code → Result Code Fields
  unfolding schema_version is_supported
  read_json data' invalid_json_code schema_code = elim (o.decode_first data') [
    | none ↦ err invalid_json_code
    | some (payload, rest) ↦
        if not (o.at_end rest)
        then err invalid_json_code
        else if not (is_supported (schema_version o.int64 payload))
        then err schema_code
        else ok payload
  ]

  -- runJSON
  unfoldable pub run_json : Client → Text → ℕ → Code → Code → Code → Result Code Fields
  unfolding ensure_executable read_json
  run_json c command limit timeout_code invalid_json_code schema_code =
      elim (ensure_executable o.on_windows (o.stat c.path)) [
        | err e ↦ err e
        | ok _ ↦ elim (o.exec c.path (command ∷ []) limit) [
          | expired ↦ err timeout_code
          | broken ↦ err mgate_exec_failed
          | printed data' ↦ read_json data' invalid_json_code schema_code
        ]
      ]

  unfoldable pub capabilities : Client → Result Code Fields
  unfolding run_json
  capabilities c =
      run_json c (codes "capabilities-json") c.capabilities_timeout capabilities_timeout
        capabilities_invalid_json capabilities_unsupported_schema

  unfoldable pub snapshot : Client → Result Code Fields
  unfolding run_json
  snapshot c =
      run_json c (codes "agent-snapshot") c.snapshot_timeout snapshot_timeout snapshot_invalid_json
        snapshot_unsupported_schema

  -- (*Client).Summary
  unfoldable pub summary : Client → MgateStatusSummary
  unfolding snapshot summary_from_snapshot
  summary c = elim (snapshot c) [
    | err e ↦ unavailable_summary e
    | ok s ↦ summary_from_snapshot o.int64 s
  ]
