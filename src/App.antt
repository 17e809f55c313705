-- ===== src/App.antt =====
-- internal/app/app.go and version.go: what the agent reads at its start, and the components that it
-- makes of that.
--
-- A whole number of the configuration is an integer, and `to_nat` is 0 for a negative one, as in the
-- options of the transports. `open_file`, `decode`, `goos` and `stat` are the parameters of Config and
-- Identity. The outbox is opened before, and its dispatcher is an argument.
pub mod Start
pub mod Diagnostics
pub mod Passed
use mgate_agent.Base.{
  ℕ, ◌*◌, Bool, true, false, not, Option, none, some, List, [], ◌∷◌, ◌||◌, ◌&&◌, if◌then◌else◌,
  Result, ok, err,
}
use mgate_agent.Base.Int.{ℤ, pos, negsuc}
use mgate_agent.Base.Text.{Text, codes}
use mgate_agent.Protocol.{second}
use mgate_agent.Config.{Config, Url, Decoded}
use mgate_agent.Config
use mgate_agent.Identity.{Credentials, CredentialsFile}
use mgate_agent.Identity
use mgate_agent.Actions.Registry.{
  Registry, AllowError, new_default_registry, validate_allowed_actions,
}
use mgate_agent.Commands.Dedupe.{DedupeStore}
use mgate_agent.Commands.Handler.{Handler, new_handler}
use mgate_agent.Commands.Handler
use mgate_agent.Transport.Dispatcher.{ResultDispatcher}
use mgate_agent.Transport.Pull.{PullOptions}
use mgate_agent.Transport.Websocket.{WsOptions}
use mgate_agent.Transport.Manager.{Manager, ManagerError, new_manager}

abbrev pub version : Text
version = codes "v0.1.0"

pub data StartError : Type 0 where
  bad_config : Config.LoadError → StartError
  bad_credentials : Identity.LoadError → StartError
  bad_registry : StartError
  bad_actions : AllowError → StartError
  bad_handler : Handler.SetupError → StartError
  bad_manager : ManagerError → StartError

-- what loadRuntime gives
pub record Runtime : Type 0 where
  pub config : Config
  pub credentials : Credentials
  pub registry : Registry

-- what Run has made when it starts the manager; none, when both transports are disabled
pub record Components : Type 0 where
  pub handler : Handler
  pub dedupe : DedupeStore
  pub manager : Option Manager

abbrev pub to_nat : ℤ → ℕ
to_nat (pos n) = n
to_nat (negsuc n) = 0

-- wsOpts
unfoldable pub ws_options : Runtime → WsOptions
ws_options r = record {
  base_url = r.config.cloud.base_url;
  ws_path = r.config.cloud.ws_path;
  request_timeout = to_nat r.config.cloud.request_timeout_sec * second;
  heartbeat_interval = to_nat r.config.agent.heartbeat_interval_sec * second;
  max_message_bytes = 0;
  command_queue_size = 0;
  outbound_size = 0;
  max_parallel_jobs = to_nat r.config.agent.max_parallel_jobs;
  max_output_bytes = to_nat r.config.agent.max_output_bytes;
  device_id = r.credentials.device_id;
  tenant_id = r.credentials.tenant_id;
  device_secret = r.credentials.device_secret;
  agent_version = version;
  device_name = r.config.agent.device_name;
  allowed_actions = r.config.security.allow_actions;
  pull_fallback = r.config.cloud.pull_enabled;
}

-- pullOpts
unfoldable pub pull_options : Runtime → PullOptions
pull_options r = record {
  base_url = r.config.cloud.base_url;
  pull_path = r.config.cloud.pull_path;
  result_path = r.config.cloud.result_path;
  request_timeout = to_nat r.config.cloud.request_timeout_sec * second;
  pull_interval = to_nat r.config.cloud.pull_interval_sec * second;
  max_response_bytes = 0;
  max_commands = 0;
  device_id = r.credentials.device_id;
  tenant_id = r.credentials.tenant_id;
  device_secret = r.credentials.device_secret;
  agent_version = version;
  device_name = r.config.agent.device_name;
}

-- the end of loadRuntime
unfoldable pub with_registry : Config → Credentials → Result StartError Runtime
with_registry c cred = elim new_default_registry [
  | err e ↦ err bad_registry
  | ok registry ↦ elim (validate_allowed_actions c.security.allow_actions registry) [
    | err e ↦ err (bad_actions e)
    | ok _ ↦ ok (record { config = c; credentials = cred; registry = registry })
  ]
]

module _ (parse_url : Text → Option Url) (host_absolute : Text → Bool)
    (open_file : Text → Option Decoded) (decode : Text → Option Credentials) (goos : Text)
    (stat : Text → Option CredentialsFile) where
  -- loadRuntime
  unfoldable pub load_runtime : Text → Result StartError Runtime
  unfolding Config.load Identity.load with_registry
  load_runtime path = elim (Config.load parse_url host_absolute open_file path) [
    | err e ↦ err (bad_config e)
    | ok c ↦ elim (Identity.load parse_url decode goos stat c.security.credentials_file) [
      | err e ↦ err (bad_credentials e)
      | ok cred ↦ with_registry c cred
    ]
  ]

-- Run from NewHandler to NewManager
unfoldable pub set_up : Runtime → ResultDispatcher → Result StartError Components
unfolding new_handler new_manager
set_up r dispatcher =
    elim (new_handler (some r.registry) r.config.security.allow_actions none
      r.config.agent.mgate_path r.config.agent.work_dir (to_nat r.config.agent.max_output_bytes)) [
        | err e ↦ err (bad_handler e)
        | ok (h, d) ↦
            if not r.config.cloud.ws_enabled && not r.config.cloud.pull_enabled
            then ok (record { handler = h; dedupe = d; manager = none })
            else elim (new_manager r.config.cloud.ws_enabled r.config.cloud.pull_enabled
                (some dispatcher)) [
                  | err e ↦ err (bad_manager e)
                  | ok m ↦ ok (record { handler = h; dedupe = d; manager = some m })
                ]
      ]
