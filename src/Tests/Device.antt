-- ===== src/Tests/Device.antt =====
-- The configuration, the credentials, the signatures and the status of one device.
use mgate_agent.Base.Maps.{lookup, insert}
use mgate_agent.Actions.Registry.{new_default_registry, validate_allowed_actions}
use mgate_agent.Base.{
  if◌then◌else◌, none, any, ◌%◌, ◌≡◌, ◌↔◌, ◌⊎◌, refl, true, false, Option, some, [], ◌∷◌, arith,
  All, ok, length,
}
use mgate_agent.Base.Int.{pos}
use mgate_agent.Base.Text.{text_eq, has_prefix, is_blank, Text, codes, upper, to_upper}
use mgate_agent.Protocol.Json.{end, field, number, object, string}
use mgate_agent.Config.{Config, Url, validate, is_absolute_path, Decoded, decoded}
use mgate_agent.App.{Runtime, Components, load_runtime, set_up}
use mgate_agent.App.Diagnostics.{FileInfo, run_diagnostics, has_failed}
use mgate_agent.App.Passed.{run_diagnostics-loads}
use mgate_agent.Transport.Address.{Location}
use mgate_agent.App.Start.{IsLoaded, IsReady, load_runtime-IsReady}
use mgate_agent.Transport.Dispatcher.{ResultDispatcher}
use mgate_agent.Tests.Commands.{table}
use mgate_agent.Config.Laws.{IsConfig, validate_iff}
use mgate_agent.Identity.{Credentials, CredentialsFile, load}
use mgate_agent.Identity.Laws.{AreCredentials, IsPrivate, load_iff}
use mgate_agent.Auth.{SignInput, canonical_string}
use mgate_agent.Auth.Canonical.{AreBytes, is_line, canonical_string_injective}
use mgate_agent.Mgate.{Client, Outside, printed, info, summary}
use mgate_agent.Mgate.Laws.{objects, IsClean, IsFailure, IsReport, summary-IsReport}

abbrev parse_url : Text → Option Url
parse_url raw = some (record { scheme = codes "https"; host = codes "cloud.example" })

abbrev sample : Config
sample = record {
  cloud = record {
    base_url = codes "https://cloud.example";
    ws_path = codes "/ws";
    pull_path = codes "/pull";
    result_path = codes "/result";
    status_path = codes "/status";
    request_timeout_sec = pos 15;
    pull_interval_sec = pos 10;
    ws_enabled = true;
    pull_enabled = true;
  };
  agent = record {
    device_name = codes "pi";
    mgate_path = codes "/usr/local/bin/mgate.sh";
    work_dir = codes "/var/lib/mgate-agent";
    heartbeat_interval_sec = pos 30;
    status_interval_sec = pos 60;
    default_command_timeout_sec = pos 60;
    long_command_timeout_sec = pos 600;
    max_parallel_jobs = pos 1;
    max_output_bytes = pos 32768;
  };
  security = record {
    credentials_file = codes "/etc/mgate-agent/credentials.json";
    allow_actions = codes "gateway.start" ∷ [];
    clock_skew_sec = pos 60;
    strict_whitelist = true;
  };
  logging = record { level = codes "info"; audit_file = codes "/var/log/audit.jsonl" };
}

validate_iff_example :
    (validate parse_url (λ path. false) (some sample) ≡ ok tt)
    ↔ IsConfig parse_url (λ path. false) sample
validate_iff_example = validate_iff parse_url (λ path. false) sample

abbrev credentials : Credentials
credentials = record {
  device_id = codes "pi";
  tenant_id = codes "home";
  device_secret = codes "secret";
  secret_version = pos 1;
  enrolled_at = 7;
  cloud_base_url = [];
}

abbrev decode_credentials : Text → Option Credentials
decode_credentials data' = some credentials

abbrev folder : Text → Option CredentialsFile
folder path = some (record { mode = 384; content = some (codes "{}") })

load_iff_example :
    (load parse_url decode_credentials (codes "linux") folder (codes "/c") ≡ ok credentials) ↔ (
      (f : CredentialsFile) × (folder (codes "/c") ≡ some f)
      × IsPrivate parse_url (codes "linux") f
      × (data' : Text) × (f.content ≡ some data')
      × (decode_credentials data' ≡ some credentials)
      × AreCredentials parse_url credentials)
load_iff_example =
    load_iff parse_url decode_credentials (codes "linux") folder (codes "/c") credentials

-- a digest of one byte
abbrev digest : Text → Text
digest s = length s % 256 ∷ []

digest-AreBytes : (s : Text) → AreBytes (digest s)
digest-AreBytes s = (omega arith, tt)

abbrev request : Text → Text → SignInput
request method body = record {
  method = method;
  path = codes "/pull";
  timestamp = codes "2026-01-01T00:00:00Z";
  nonce = codes "n1";
  body = body;
}

canonical_string_injective_example :
    (to_upper (codes "post") ≡ to_upper (codes "POST"))
    × (codes "/pull" ≡ codes "/pull")
    × (codes "2026-01-01T00:00:00Z" ≡ codes "2026-01-01T00:00:00Z")
    × (codes "n1" ≡ codes "n1")
    × (digest (codes "ab") ≡ digest (codes "cd"))
unfolding is_line canonical_string to_upper upper
canonical_string_injective_example =
    canonical_string_injective digest digest-AreBytes (request (codes "post") (codes "ab"))
      (request (codes "POST") (codes "cd")) (refl, refl, refl, refl) (refl, refl, refl, refl) refl

abbrev mgate_client : Client
mgate_client = record {
  path = codes "/usr/local/bin/mgate.sh";
  capabilities_timeout = 2;
  snapshot_timeout = 2;
}

abbrev raspberry : Outside
raspberry = record {
  on_windows = false;
  stat = λ path. info false 493;
  exec = λ path args limit. printed (codes "{}");
  decode_first = λ data'. some (
    field (codes "schema_version") (number (codes "1"))
        (field (codes "wifi") (object (field (codes "psk") (string (codes "x")) end)) end),
    [],
  );
  at_end = λ rest. true;
  int64 = λ digits. some (pos 1);
}

summary-IsReport_example :
    All IsClean (objects (summary raspberry mgate_client))
    × (IsFailure (summary raspberry mgate_client)
        ⊎ IsReport raspberry mgate_client (summary raspberry mgate_client))
summary-IsReport_example = summary-IsReport raspberry mgate_client

abbrev open_file : Text → Option Decoded
open_file path = some (decoded sample)

abbrev runtime : Runtime
runtime = record { config = sample; credentials = credentials; registry = table }

abbrev dispatcher : ResultDispatcher
dispatcher = record {
  store = record { max_records = 100; max_bytes = 1000; audit = none; files = [] };
  ws_sender = none;
  pull_sender = none;
  sending = false;
}

loads :
    load_runtime parse_url (λ path. false) open_file decode_credentials (codes "linux") folder []
    ≡ ok runtime
unfolding load_runtime text_eq has_prefix is_blank is_absolute_path any new_default_registry lookup
    insert validate_allowed_actions
loads = refl

load_runtime-IsReady_example :
    IsLoaded parse_url (λ path. false) runtime
    × ((c : Components) × (set_up runtime dispatcher ≡ ok c) × IsReady runtime c)
load_runtime-IsReady_example =
    load_runtime-IsReady parse_url (λ path. false) open_file decode_credentials (codes "linux")
      folder [] runtime dispatcher loads

abbrev parse : Text → Option Location
parse raw = some (record {
  scheme = if has_prefix raw (codes "/") then [] else codes "https";
  host = codes "cloud.example";
  path = [];
  raw_query = [];
  fragment = [];
  rest = [];
})

abbrev info_of : Text → Option FileInfo
info_of path = some (record { is_dir = false; mode = 493 })

abbrev print : Location → Text
print l = l.path

abbrev join : Text → Text → Text
join dir name = dir

run_diagnostics-loads_example :
    (r : Runtime) × (load_runtime parse_url
        (λ path. false)
        open_file
        decode_credentials
        (codes "darwin")
        folder
        (codes "/a")
      ≡ ok r)
unfolding run_diagnostics is_blank has_prefix text_eq any new_default_registry lookup insert
    validate_allowed_actions is_absolute_path has_failed
run_diagnostics-loads_example =
    run_diagnostics-loads parse_url (λ path. false) open_file decode_credentials (codes "darwin")
      folder info_of (λ dir. true) parse print (λ path. path) join (codes "/a") refl refl
