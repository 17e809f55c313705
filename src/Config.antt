-- ===== src/Config.antt =====
-- internal/config/config.go and load.go: the configuration of the agent and its validation.
--
-- The YAML decoder, net/url and filepath.IsAbs are the parameters of the section. The order of the
-- paths in `rooted_paths` stands for that of an iteration over the map of validateCloud.
pub mod Checks
pub mod Laws
use mgate_agent.Base.{
  ℕ, ◌*◌, Bool, true, false, not, Option, none, some, List, [], ◌∷◌, ◌++◌, ◌&&◌, ◌||◌, any,
  if◌then◌else◌, Result, ok, err, ◌>>◌, length, ◌==◌, first_failure,
}
use mgate_agent.Base.Int.{ℤ, pos, negsuc, ltb_ℤ}
use mgate_agent.Base.Text.{Text, codes, text_eq, has_prefix, is_blank}

pub record CloudConfig : Type 0 where
  pub base_url : Text
  pub ws_path : Text
  pub pull_path : Text
  pub result_path : Text
  pub status_path : Text
  pub request_timeout_sec : ℤ
  pub pull_interval_sec : ℤ
  pub ws_enabled : Bool
  pub pull_enabled : Bool

pub record AgentConfig : Type 0 where
  pub device_name : Text
  pub mgate_path : Text
  pub work_dir : Text
  pub heartbeat_interval_sec : ℤ
  pub status_interval_sec : ℤ
  pub default_command_timeout_sec : ℤ
  pub long_command_timeout_sec : ℤ
  pub max_parallel_jobs : ℤ
  pub max_output_bytes : ℤ

pub record SecurityConfig : Type 0 where
  pub credentials_file : Text
  pub allow_actions : List Text
  pub clock_skew_sec : ℤ
  pub strict_whitelist : Bool

pub record LoggingConfig : Type 0 where
  pub level : Text
  pub audit_file : Text

pub record Config : Type 0 where
  pub cloud : CloudConfig
  pub agent : AgentConfig
  pub security : SecurityConfig
  pub logging : LoggingConfig

-- the parts of a *url.URL that the program reads
pub record Url : Type 0 where
  pub scheme : Text
  pub host : Text

-- the errors, with the name of the field
pub data ConfigError : Type 0 where
  invalid_url wrong_scheme no_host not_rooted out_of_range : Text → ConfigError
  required not_absolute duplicate_action : Text → ConfigError
  timeouts_crossed no_actions empty_action wrong_level nil_config : ConfigError

-- the test of validateRange
abbrev pub outside : ℕ → ℕ → ℤ → Bool
outside low high value = ltb_ℤ value (pos low) || ltb_ℤ (pos high) value

-- validateRange
abbrev pub range_check : Text → ℤ → ℕ → ℕ → Bool × ConfigError
range_check name value low high = (outside low high value, out_of_range name)

abbrev pub slash : Text
slash = codes "/"

-- the loop of validateCloud
abbrev pub rooted_paths : CloudConfig → List (Bool × ConfigError)
rooted_paths c =
    (not (has_prefix c.ws_path slash), not_rooted (codes "cloud.ws_path"))
    ∷ (not (has_prefix c.pull_path slash), not_rooted (codes "cloud.pull_path"))
    ∷ (not (has_prefix c.result_path slash), not_rooted (codes "cloud.result_path"))
    ∷ (not (has_prefix c.status_path slash), not_rooted (codes "cloud.status_path"))
    ∷ []

-- the loop of validateSecurity over the actions, with those it has seen
unfoldable pub check_actions : List Text → List Text → Result ConfigError (Unit {0})
check_actions seen [] = ok tt
check_actions seen (action ∷ actions) =
    let rest = check_actions (action ∷ seen) actions in
    if is_blank action
    then err empty_action
    else if any (text_eq action) seen
    then err (duplicate_action action)
    else rest

abbrev pub levels : List Text
levels = codes "debug" ∷ codes "info" ∷ codes "warn" ∷ codes "error" ∷ []

module _ (parse_url : Text → Option Url) (host_absolute : Text → Bool) where
  -- validateURL
  unfoldable pub validate_url : Text → Text → Result ConfigError (Unit {0})
  unfolding first_failure
  validate_url name raw = elim (parse_url raw) [
    | none ↦ err (invalid_url name)
    | some u ↦ first_failure (
        (
          not (text_eq u.scheme (codes "http")) && not (text_eq u.scheme (codes "https")),
          wrong_scheme name,
        )
        ∷ (text_eq u.host [], no_host name)
        ∷ [])
  ]

  unfoldable pub is_absolute_path : Text → Bool
  is_absolute_path path = not (is_blank path) && (has_prefix path slash || host_absolute path)

  abbrev pub absolute_check : Text → Text → Bool × ConfigError
  absolute_check name path = (not (is_absolute_path path), not_absolute name)

  unfoldable pub validate_cloud : CloudConfig → Result ConfigError (Unit {0})
  unfolding validate_url first_failure
  validate_cloud c = do
    validate_url (codes "cloud.base_url") c.base_url
    first_failure (rooted_paths c)
    first_failure (
        range_check (codes "cloud.request_timeout_sec") c.request_timeout_sec 1 300
        ∷ range_check (codes "cloud.pull_interval_sec") c.pull_interval_sec 1 3600
        ∷ [])

  -- the checks of validateAgent in their order
  abbrev pub agent_checks : AgentConfig → List (Bool × ConfigError)
  agent_checks c =
      (is_blank c.device_name, required (codes "agent.device_name"))
      ∷ absolute_check (codes "agent.mgate_path") c.mgate_path
      ∷ absolute_check (codes "agent.work_dir") c.work_dir
      ∷ range_check (codes "agent.heartbeat_interval_sec") c.heartbeat_interval_sec 5 3600
      ∷ range_check (codes "agent.status_interval_sec") c.status_interval_sec 10 86400
      ∷ range_check (codes "agent.default_command_timeout_sec") c.default_command_timeout_sec 1 600
      ∷ range_check (codes "agent.long_command_timeout_sec") c.long_command_timeout_sec 1 3600
      ∷ (ltb_ℤ c.long_command_timeout_sec c.default_command_timeout_sec, timeouts_crossed)
      ∷ range_check (codes "agent.max_parallel_jobs") c.max_parallel_jobs 1 16
      ∷ range_check (codes "agent.max_output_bytes") c.max_output_bytes 1024 (1024 * 1024)
      ∷ []

  unfoldable pub validate_agent : AgentConfig → Result ConfigError (Unit {0})
  unfolding first_failure
  validate_agent c = first_failure (agent_checks c)

  unfoldable pub validate_security : SecurityConfig → Result ConfigError (Unit {0})
  unfolding first_failure check_actions
  validate_security c = do
    first_failure (
        absolute_check (codes "security.credentials_file") c.credentials_file
        ∷ (length c.allow_actions == 0, no_actions)
        ∷ [])
    check_actions [] c.allow_actions
    first_failure (range_check (codes "security.clock_skew_sec") c.clock_skew_sec 0 3600 ∷ [])

  unfoldable pub validate_logging : LoggingConfig → Result ConfigError (Unit {0})
  unfolding first_failure
  validate_logging c = first_failure (
      (not (any (text_eq c.level) levels), wrong_level)
      ∷ absolute_check (codes "logging.audit_file") c.audit_file
      ∷ [])

  -- (*Config).Validate
  unfoldable pub validate : Option Config → Result ConfigError (Unit {0})
  unfolding validate_cloud validate_agent validate_security validate_logging
  validate none = err nil_config
  validate (some c) = do
    validate_cloud c.cloud
    validate_agent c.agent
    validate_security c.security
    validate_logging c.logging

abbrev pub is_zero : ℤ → Bool
is_zero (pos n) = n == 0
is_zero (negsuc n) = false

-- c == CloudConfig{}
unfoldable pub is_zero_cloud : CloudConfig → Bool
is_zero_cloud c =
    text_eq c.base_url []
    && text_eq c.ws_path []
    && text_eq c.pull_path []
    && text_eq c.result_path []
    && text_eq c.status_path []
    && is_zero c.request_timeout_sec
    && is_zero c.pull_interval_sec
    && not c.ws_enabled
    && not c.pull_enabled

-- c == AgentConfig{}
unfoldable pub is_zero_agent : AgentConfig → Bool
is_zero_agent c =
    text_eq c.device_name []
    && text_eq c.mgate_path []
    && text_eq c.work_dir []
    && is_zero c.heartbeat_interval_sec
    && is_zero c.status_interval_sec
    && is_zero c.default_command_timeout_sec
    && is_zero c.long_command_timeout_sec
    && is_zero c.max_parallel_jobs
    && is_zero c.max_output_bytes

-- isZeroConfig
unfoldable pub is_zero_config : Config → Bool
unfolding is_zero_cloud is_zero_agent
is_zero_config c =
    is_zero_cloud c.cloud
    && is_zero_agent c.agent
    && text_eq c.security.credentials_file []
    && (length c.security.allow_actions == 0)
    && is_zero c.security.clock_skew_sec
    && not c.security.strict_whitelist
    && text_eq c.logging.level []
    && text_eq c.logging.audit_file []

-- what the YAML decoder makes of a file: nothing (io.EOF), an error, or a configuration of known
-- fields
pub data Decoded : Type 0 where
  nothing bad_yaml : Decoded
  decoded : Config → Decoded

pub data LoadError : Type 0 where
  not_opened is_empty not_yaml : LoadError
  is_invalid : ConfigError → LoadError

abbrev pub default_path : Text
default_path = codes "/etc/mgate-agent/agent.yaml"

module _ (parse_url : Text → Option Url) (host_absolute : Text → Bool) where
  unfoldable pub decode_yaml : Decoded → Result LoadError Config
  unfolding is_zero_config validate
  decode_yaml nothing = err is_empty
  decode_yaml bad_yaml = err not_yaml
  decode_yaml (decoded c) =
      if is_zero_config c then err is_empty else elim (validate parse_url host_absolute (some c)) [
        | err e ↦ err (is_invalid e)
        | ok _ ↦ ok c
      ]

  -- Load, on a file system that decodes the file of a path
  unfoldable pub load : (Text → Option Decoded) → Text → Result LoadError Config
  unfolding decode_yaml
  load open_file path = elim (open_file (if text_eq path [] then default_path else path)) [
    | none ↦ err not_opened
    | some d ↦ decode_yaml d
  ]
