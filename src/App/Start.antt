-- ===== src/App/Start.antt =====
-- internal/app/app.go: an agent that can load its files can start.
use mgate_agent.Base.{
  ℕ, ◌≡◌, ◌≢◌, refl, subst, inl, inr, Bool, false, not, Option, none, some, List, [], ◌∷◌, ◌||◌,
  ◌&&◌, Bool-cases, Option-cases, Result-cases, arith, ok, is_some, if◌then◌else◌,
}
use mgate_agent.Base.Text.{Text, text_eq}
use mgate_agent.Config.{
  Config, Url, Decoded, nothing, bad_yaml, decoded, decode_yaml, is_zero_config, default_path,
}
use mgate_agent.Config
use mgate_agent.Config.Laws.{IsConfig, validate_iff}
use mgate_agent.Identity.{Credentials, CredentialsFile}
use mgate_agent.Identity
use mgate_agent.Identity.Laws.{AreCredentials, load_iff}
use mgate_agent.Actions.Registry.{Registry, new_default_registry, validate_allowed_actions}
use mgate_agent.Commands.Dedupe.{new_dedupe_store, default_ttl, default_max_entries}
use mgate_agent.Commands.Handler.{Handler, new_handler}
use mgate_agent.Transport.Dispatcher.{ResultDispatcher}
use mgate_agent.Transport.Manager.{Manager, new_manager}
use mgate_agent.App.{Runtime, Components, to_nat, with_registry, load_runtime, set_up}

-- loaded files that are valid, with the built-in registry, which has every allowed action
pub record IsLoaded (parse_url : Text → Option Url) (host_absolute : Text → Bool) (r : Runtime)
    : Type 0 where
  pub valid : IsConfig parse_url host_absolute r.config
  pub enrolled : AreCredentials parse_url r.credentials
  pub built_in : new_default_registry ≡ ok r.registry
  pub known : validate_allowed_actions r.config.security.allow_actions r.registry ≡ ok tt

-- The components of a runtime: the handler has its registry, actions and paths, and there is a
-- manager exactly when a transport is enabled.
pub record IsReady (r : Runtime) (c : Components) : Type 0 where
  pub registry : c.handler.registry ≡ r.registry
  pub allowed : c.handler.allow_actions ≡ r.config.security.allow_actions
  pub program : c.handler.mgate_path ≡ r.config.agent.mgate_path
  pub managed : is_some c.manager ≡ (r.config.cloud.ws_enabled || r.config.cloud.pull_enabled)

decode_yaml-IsConfig :
    (parse_url : Text → Option Url) (host_absolute : Text → Bool) (d : Decoded) (c : Config)
    → decode_yaml parse_url host_absolute d ≡ ok c
    → IsConfig parse_url host_absolute c
unfolding decode_yaml
decode_yaml-IsConfig parse_url host_absolute nothing c h = absurd (ground (arith, h))
decode_yaml-IsConfig parse_url host_absolute bad_yaml c h = absurd (ground (arith, h))
decode_yaml-IsConfig parse_url host_absolute (decoded q) c h =
    elim (Bool-cases (is_zero_config q)) [
      | inl e ↦ absurd (ground (arith, e, h))
      | inr e ↦ elim (Result-cases (Config.validate parse_url host_absolute (some q))) [
        | inr (x, f) ↦ absurd (ground (arith, e, f, h))
        | inl (u, f) ↦
            let same : q ≡ c = ground (arith, e, f, h) in
            subst (IsConfig parse_url host_absolute) same
              ((validate_iff parse_url host_absolute q).0 f)
      ]
    ]

load-IsConfig :
    (parse_url : Text → Option Url) (host_absolute : Text → Bool)
    (open_file : Text → Option Decoded) (path : Text) (c : Config)
    → Config.load parse_url host_absolute open_file path ≡ ok c
    → IsConfig parse_url host_absolute c
unfolding Config.load
load-IsConfig parse_url host_absolute open_file path c h =
    elim (Option-cases (open_file (if text_eq path [] then default_path else path))) [
      | inl e ↦ absurd (ground (arith, e, h))
      | inr (d, e) ↦ decode_yaml-IsConfig parse_url host_absolute d c (ground (arith, e, h))
    ]

with_registry-IsLoaded :
    (parse_url : Text → Option Url) (host_absolute : Text → Bool) (c : Config) (cred : Credentials)
    (r : Runtime)
    → IsConfig parse_url host_absolute c
    → AreCredentials parse_url cred
    → with_registry c cred ≡ ok r
    → IsLoaded parse_url host_absolute r
unfolding with_registry
with_registry-IsLoaded parse_url host_absolute c cred r valid enrolled h =
    elim (Result-cases new_default_registry) [
      | inr (x, e) ↦ absurd (ground (arith, e, h))
      | inl (table, e) ↦
          elim (Result-cases (validate_allowed_actions c.security.allow_actions table)) [
            | inr (x, f) ↦ absurd (ground (arith, e, f, h))
            | inl (u, f) ↦
                let whole : Runtime = record { config = c; credentials = cred; registry = table } in
                let same : whole ≡ r = ground (arith, e, f, h) in
                subst (IsLoaded parse_url host_absolute) same
                  (record { valid = valid; enrolled = enrolled; built_in = e; known = f })
          ]
    ]

load_runtime-IsLoaded :
    (parse_url : Text → Option Url) (host_absolute : Text → Bool)
    (open_file : Text → Option Decoded) (decode : Text → Option Credentials) (goos : Text)
    (stat : Text → Option CredentialsFile) (path : Text) (r : Runtime)
    → load_runtime parse_url host_absolute open_file decode goos stat path ≡ ok r
    → IsLoaded parse_url host_absolute r
unfolding load_runtime
load_runtime-IsLoaded parse_url host_absolute open_file decode goos stat path r h =
    elim (Result-cases (Config.load parse_url host_absolute open_file path)) [
      | inr (x, e) ↦ absurd (ground (arith, e, h))
      | inl (c, e) ↦
          elim (Result-cases
            (Identity.load parse_url decode goos stat c.security.credentials_file)) [
              | inr (x, f) ↦ absurd (ground (arith, e, f, h))
              | inl (cred, f) ↦
                  let (_, _, _, _, _, _, enrolled) =
                    (load_iff parse_url decode goos stat c.security.credentials_file cred).0 f in
                  with_registry-IsLoaded parse_url host_absolute c cred r
                    (load-IsConfig parse_url host_absolute open_file path c e) enrolled
                    (ground (arith, e, f, h))
            ]
    ]

-- NewHandler on actions that the registry has
new_handler_made :
    (table : Registry) (actions : List Text) (mgate_path work_dir : Text) (n : ℕ)
    → actions ≢ []
    → validate_allowed_actions actions table ≡ ok tt
    → new_handler (some table) actions none mgate_path work_dir n
      ≡ ok (
        record {
          registry = table;
          allow_actions = actions;
          mgate_path = mgate_path;
          work_dir = work_dir;
          max_output_bytes = n;
        },
        new_dedupe_store default_ttl default_max_entries,
      )
unfolding new_handler
new_handler_made table [] mgate_path work_dir n some_actions h = absurd (some_actions refl)
new_handler_made table (a ∷ actions) mgate_path work_dir n some_actions h = rw (new_handler, h) refl

set_up-IsReady :
    (r : Runtime) (dispatcher : ResultDispatcher)
    → r.config.security.allow_actions ≢ []
    → validate_allowed_actions r.config.security.allow_actions r.registry ≡ ok tt
    → (c : Components) × (set_up r dispatcher ≡ ok c) × IsReady r c
unfolding set_up new_manager
set_up-IsReady r dispatcher some_actions known =
    let made =
      new_handler_made r.registry r.config.security.allow_actions r.config.agent.mgate_path
        r.config.agent.work_dir (to_nat r.config.agent.max_output_bytes) some_actions known in
    let h : Handler = record {
      registry = r.registry;
      allow_actions = r.config.security.allow_actions;
      mgate_path = r.config.agent.mgate_path;
      work_dir = r.config.agent.work_dir;
      max_output_bytes = to_nat r.config.agent.max_output_bytes;
    } in
    let d = new_dedupe_store default_ttl default_max_entries in
    let ws = r.config.cloud.ws_enabled in
    let pull = r.config.cloud.pull_enabled in
    let m : Manager = record {
      ws_enabled = ws;
      pull_enabled = pull;
      dispatcher = dispatcher;
      events = [];
      ws_healthy = false;
    } in
    elim (Bool-cases (not ws && not pull)) [
      | inl e ↦ (
        record { handler = h; dedupe = d; manager = none },
        simp (set_up, made, e),
        record { registry = refl; allowed = refl; program = refl; managed = ground (arith, e) },
      )
      | inr e ↦ (
        record { handler = h; dedupe = d; manager = some m },
        simp (set_up, made, new_manager, e),
        record { registry = refl; allowed = refl; program = refl; managed = ground (arith, e) },
      )
    ]

-- When the agent has loaded its files, they are valid, and the components are made without an error:
-- the handler on the built-in registry with the configured actions and program, and a manager
-- exactly when a transport is enabled.
pub load_runtime-IsReady :
    (parse_url : Text → Option Url) (host_absolute : Text → Bool)
    (open_file : Text → Option Decoded) (decode : Text → Option Credentials) (goos : Text)
    (stat : Text → Option CredentialsFile) (path : Text) (r : Runtime)
    (dispatcher : ResultDispatcher)
    → load_runtime parse_url host_absolute open_file decode goos stat path ≡ ok r
    → IsLoaded parse_url host_absolute r
      × ((c : Components) × (set_up r dispatcher ≡ ok c) × IsReady r c)
load_runtime-IsReady parse_url host_absolute open_file decode goos stat path r dispatcher h =
    let loaded =
      load_runtime-IsLoaded parse_url host_absolute open_file decode goos stat path r h in
    let (cloud, agent, ((file, some_actions), actions, skew), logging) = loaded.valid in
    (loaded, set_up-IsReady r dispatcher some_actions loaded.known)
