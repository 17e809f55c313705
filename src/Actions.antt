-- ===== src/Actions.antt =====
-- internal/actions/specs.go: what an action is, the built-in actions, their argument vectors.
pub mod Registry
pub mod Redacted
pub mod Validators
use mgate_agent.Base.{
  ℕ, ◌*◌, Bool, true, false, Option, none, some, List, [], ◌∷◌, ◌++◌, ◌||◌, any, if◌then◌else◌,
  Result, ok, err,
}
use mgate_agent.Base.Text.{Text, codes, text_eq}
use mgate_agent.Base.Maps.{Map, lookup}
use mgate_agent.Protocol.{second}

-- The regular expression of an argument: none, `^[…]{lo,hi}$` over a list of byte ranges, which
-- is the only form in use, or one that does not compile.
pub data Pattern : Type 0 where
  unset : Pattern
  class_run : List (ℕ × ℕ) → ℕ → ℕ → Pattern
  malformed : Pattern

pub record ArgSpec : Type 0 where
  pub name : Text
  pub type : Text
  pub required : Bool
  pub min_len : ℕ
  pub max_len : ℕ
  pub pattern : Pattern
  pub sensitive : Bool

abbrev pub arg_type_string : Text
arg_type_string = codes "string"

abbrev pub ValidatedArgs : Type 0
ValidatedArgs = Map Text

-- `sensitive_args` is the set of keys; `build_argv` is nil or a function.
pub record Spec : Type 0 where
  pub name : Text
  pub args : List ArgSpec
  pub timeout : ℕ
  pub long_running : Bool
  pub sensitive_args : List Text
  pub build_argv : Option (ValidatedArgs → List Text)

-- args[key], which is "" for a missing key
unfoldable pub arg_or_empty : Text → ValidatedArgs → Text
arg_or_empty key args = elim (lookup key args) [ none ↦ [] | some v ↦ v ]

-- an action with no arguments and a fixed argument vector
abbrev plain : Text → ℕ → Bool → List Text → Spec
plain name timeout long argv = record {
  name = name;
  args = [];
  timeout = timeout;
  long_running = long;
  sensitive_args = [];
  build_argv = some (λ _. argv);
}

abbrev pub country_arg : ArgSpec
country_arg = record {
  name = codes "country";
  type = arg_type_string;
  required = true;
  min_len = 2;
  max_len = 2;
  pattern = class_run ((b'A', b'Z') ∷ []) 2 2;
  sensitive = false;
}

abbrev pub ssid_arg : ArgSpec
ssid_arg = record {
  name = codes "ssid";
  type = arg_type_string;
  required = true;
  min_len = 1;
  max_len = 32;
  pattern = unset;
  sensitive = false;
}

abbrev pub psk_arg : ArgSpec
psk_arg = record {
  name = codes "psk";
  type = arg_type_string;
  required = true;
  min_len = 8;
  max_len = 64;
  pattern = unset;
  sensitive = true;
}

unfoldable pub gateway_start_argv : ValidatedArgs → List Text
unfolding arg_or_empty
gateway_start_argv args =
    codes "gateway" ∷ codes "start" ∷ codes "--country" ∷ arg_or_empty (codes "country") args ∷ []

unfoldable pub wlan_switch_argv : ValidatedArgs → List Text
unfolding arg_or_empty
wlan_switch_argv args =
    codes "wlan"
    ∷ codes "switch-safe"
    ∷ codes "--ssid"
    ∷ arg_or_empty (codes "ssid") args
    ∷ codes "--psk"
    ∷ arg_or_empty (codes "psk") args
    ∷ codes "--json"
    ∷ []

abbrev pub gateway_start : Spec
gateway_start = record {
  name = codes "gateway.start";
  args = country_arg ∷ [];
  timeout = 60 * second;
  long_running = true;
  sensitive_args = [];
  build_argv = some gateway_start_argv;
}

abbrev pub wlan_switch_safe : Spec
wlan_switch_safe = record {
  name = codes "wlan.switch.safe";
  args = ssid_arg ∷ psk_arg ∷ [];
  timeout = 180 * second;
  long_running = true;
  sensitive_args = codes "psk" ∷ [];
  build_argv = some wlan_switch_argv;
}

unfoldable pub default_specs : List Spec
default_specs =
    plain (codes "status.snapshot") (10 * second) false (codes "status" ∷ codes "--json" ∷ [])
    ∷ plain (codes "gateway.status") (10 * second) false
        (codes "gateway" ∷ codes "status" ∷ codes "--json" ∷ [])
    ∷ gateway_start
    ∷ plain (codes "gateway.stop") (60 * second) true (codes "gateway" ∷ codes "stop" ∷ [])
    ∷ plain (codes "wlan.scan") (30 * second) false
        (codes "wlan" ∷ codes "scan" ∷ codes "--json" ∷ [])
    ∷ wlan_switch_safe
    ∷ []

pub data SpecError : Type 0 where
  invalid_name : SpecError
  no_argv_builder : Text → SpecError
  duplicate_action : Text → SpecError
  invalid_argument_spec : Text → SpecError

-- (Spec).Argv
unfoldable pub argv : Spec → ValidatedArgs → Result SpecError (List Text)
argv spec args = elim spec.build_argv [
  | none ↦ err (no_argv_builder spec.name)
  | some build ↦ ok (build args)
]

abbrev pub redacted_arg : Text
redacted_arg = codes "***REDACTED***"

-- the first loop of RedactedArgs: the keys of SensitiveArgs
unfoldable pub redact_keys : List Text → ValidatedArgs → ValidatedArgs
redact_keys keys [] = []
redact_keys keys ((k, v) ∷ args) =
    (k, if any (text_eq k) keys then redacted_arg else v) ∷ redact_keys keys args

-- out[key] = "***REDACTED***" if the key is there
unfoldable pub redact_key : Text → ValidatedArgs → ValidatedArgs
redact_key key [] = []
redact_key key ((k, v) ∷ args) =
    (k, if text_eq k key then redacted_arg else v) ∷ redact_key key args

-- the second loop: the arguments that are declared sensitive
unfoldable pub redact_declared : List ArgSpec → ValidatedArgs → ValidatedArgs
unfolding redact_key
redact_declared [] out = out
redact_declared (arg ∷ rest) out =
    redact_declared rest (if arg.sensitive then redact_key arg.name out else out)

-- (Spec).RedactedArgs
unfoldable pub redacted_args : Spec → ValidatedArgs → ValidatedArgs
unfolding redact_keys redact_declared
redacted_args spec args = redact_declared spec.args (redact_keys spec.sensitive_args args)
