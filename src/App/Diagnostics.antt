-- ===== src/App/Diagnostics.antt =====
-- internal/app/diagnostics.go: the self-test, as the list of its findings. The texts of the findings
-- are the constructors of `Check`; os.Stat and the creation of a probe file are parameters, and
-- filepath.IsAbs is that of Config.
use mgate_agent.Base.{
  ℕ, Bool, true, false, not, Option, none, some, List, [], ◌∷◌, ◌++◌, ◌&&◌, if◌then◌else◌, any,
  Result, ok, err,
}
use mgate_agent.Base.Text.{Text, codes, text_eq, is_blank, has_prefix}
use mgate_agent.Config.{Config, CloudConfig, Url, Decoded, default_path}
use mgate_agent.Config
use mgate_agent.Identity.{Credentials, CredentialsFile, wrong_file_mode}
use mgate_agent.Identity
use mgate_agent.Mgate.{no_execute_bit}
use mgate_agent.Actions.Registry.{new_default_registry, validate_allowed_actions}
use mgate_agent.Transport.Address.{Location, build_http_url, build_web_socket_url}

pub data Status : Type 0 where
  passed warned failed : Status

-- what a finding is about
pub data Check : Type 0 where
  config_file yaml values ws_url pull_url result_url transports registry actions : Check
  credentials_file credentials_mode credentials_json mgate work_dir audit_dir outbox_dir : Check

abbrev pub Report : Type 0
Report = List (Status × Check)

unfoldable pub is_failure : Status × Check → Bool
is_failure (failed, _) = true
is_failure _ = false

-- (*checkReport).failed
unfoldable pub has_failed : Report → Bool
unfolding is_failure
has_failed report = any is_failure report

-- what os.Stat says of a file that is there
pub record FileInfo : Type 0 where
  pub is_dir : Bool
  pub mode : ℕ

-- fail on an error, ok without one
unfoldable pub verdict {ℓ κ} : {E : Type ℓ} {A : Type κ} → Check → Result E A → Report
verdict check (err _) = (failed, check) ∷ []
verdict check (ok _) = (passed, check) ∷ []

-- the finding on the transports
unfoldable pub check_transports : CloudConfig → Status
check_transports c =
    if not c.ws_enabled && not c.pull_enabled
    then failed
    else if not c.pull_enabled
    then warned
    else if not c.ws_enabled
    then warned
    else passed

-- the finding on the allowed actions
unfoldable pub check_actions : Config → Report
check_actions c = elim new_default_registry [
  | err _ ↦ (failed, registry) ∷ []
  | ok table ↦ verdict actions (validate_allowed_actions c.security.allow_actions table)
]

module _ (parse_url : Text → Option Url) (host_absolute : Text → Bool)
    (open_file : Text → Option Decoded) (decode : Text → Option Credentials) (goos : Text)
    (stat : Text → Option CredentialsFile) (info_of : Text → Option FileInfo)
    (writable : Text → Bool) (parse : Text → Option Location) (print : Location → Text)
    (dir_of : Text → Text) (join : Text → Text → Text) where
  -- the findings on the addresses
  unfoldable pub check_urls : CloudConfig → Report
  unfolding build_http_url build_web_socket_url verdict
  check_urls c =
      (if c.ws_enabled
        then verdict ws_url (build_web_socket_url parse print c.base_url c.ws_path)
        else (warned, ws_url) ∷ [])
      ++ (verdict pull_url (build_http_url parse print c.base_url c.pull_path)
          ++ verdict result_url (build_http_url parse print c.base_url c.result_path))

  -- checkCredentials
  unfoldable pub check_credentials : Text → Report
  unfolding verdict Identity.load
  check_credentials path = elim (info_of path) [
    | none ↦ (failed, credentials_file) ∷ []
    | some info ↦
        if info.is_dir
        then (failed, credentials_file) ∷ []
        else (passed, credentials_file)
          ∷ ((if wrong_file_mode info.mode goos then failed else passed), credentials_mode)
          ∷ verdict credentials_json (Identity.load parse_url decode goos stat path)
  ]

  -- checkMGate
  unfoldable pub check_mgate : Text → Status
  unfolding no_execute_bit
  check_mgate path =
      if not (host_absolute path) && not (has_prefix path (codes "/"))
      then failed
      else elim (info_of path) [
        | none ↦ failed
        | some info ↦
            if info.is_dir
            then failed
            else if not (text_eq goos (codes "windows")) && no_execute_bit info.mode
            then failed
            else passed
      ]

  -- checkWritableDir, where `writable` says that the probe file can be made and removed
  unfoldable pub check_writable_dir : Check → Text → Status × Check
  check_writable_dir check dir =
      ((if is_blank dir then failed else if writable dir then passed else failed), check)

  -- the findings on a valid configuration
  unfoldable pub check_config : Config → Report
  unfolding check_urls check_transports check_actions check_credentials check_mgate
      check_writable_dir
  check_config c =
      check_urls c.cloud
      ++ ((check_transports c.cloud, transports)
          ∷ (check_actions c
              ++ (check_credentials c.security.credentials_file
                  ++ ((check_mgate c.agent.mgate_path, mgate)
                      ∷ check_writable_dir work_dir c.agent.work_dir
                      ∷ check_writable_dir audit_dir (dir_of c.logging.audit_file)
                      ∷ check_writable_dir outbox_dir (join c.agent.work_dir (codes "outbox"))
                      ∷ []))))

  -- runDiagnostics
  unfoldable pub run_diagnostics : Text → Report
  unfolding Config.load check_config
  run_diagnostics given =
      let path = if is_blank given then default_path else given in
      elim (info_of path) [
        | none ↦ (failed, config_file) ∷ []
        | some info ↦
            if info.is_dir
            then (failed, config_file) ∷ []
            else (passed, config_file) ∷ elim (Config.load parse_url host_absolute open_file path) [
              | err _ ↦ (failed, yaml) ∷ []
              | ok c ↦ (passed, yaml) ∷ (passed, values) ∷ check_config c
            ]
      ]
