-- ===== src/App/Passed.antt =====
-- internal/app/diagnostics.go: a self-test that passes says that the agent can load its files.
use mgate_agent.Base.{
  ◌≡◌, refl, inl, inr, Bool, false, Option, [], ◌∷◌, ◌++◌, Bool-cases, Option-cases, Result-cases,
  arith, any, Result, ok, err,
}
use mgate_agent.Base.Text.{Text, is_blank}
use mgate_agent.Config.{Config, Url, Decoded, default_path}
use mgate_agent.Config
use mgate_agent.Identity.{Credentials, CredentialsFile, wrong_file_mode}
use mgate_agent.Identity
use mgate_agent.Actions.Registry.{Registry, new_default_registry, validate_allowed_actions}
use mgate_agent.Transport.Address.{Location}
use mgate_agent.App.{Runtime, with_registry, load_runtime}
use mgate_agent.App.Diagnostics.{
  Status, Check, Report, FileInfo, is_failure, has_failed, verdict, check_transports, check_actions,
  check_urls, check_credentials, check_config, run_diagnostics, credentials_json,
}

-- the report holds no failure
abbrev Passes : Report → Type 0
Passes report = has_failed report ≡ false

append-Passes : (xs ys : Report) → Passes (xs ++ ys) → Passes xs × Passes ys
unfolding has_failed any
append-Passes [] ys h = (refl, h)
append-Passes (x ∷ xs) ys h = elim (Bool-cases (is_failure x)) [
  | inl e ↦ absurd (ground (arith, e, h))
  | inr e ↦ let (p, q) = append-Passes xs ys (ground (arith, e, h)) in (ground (arith, e, p), q)
]

cons-Passes : (x : Status × Check) (xs : Report) → Passes (x ∷ xs) → Passes xs
unfolding has_failed any
cons-Passes x xs h = elim (Bool-cases (is_failure x)) [
  | inl e ↦ absurd (ground (arith, e, h))
  | inr e ↦ ground (arith, e, h)
]

verdict-Passes {ℓ κ} :
    {E : Type ℓ} {A : Type κ} (check : Check) (r : Result E A)
    → Passes (verdict check r)
    → (a : A) × (r ≡ ok a)
unfolding has_failed any is_failure verdict
verdict-Passes check (ok a) h = (a, refl)
verdict-Passes check (err e) h = absurd (ground (arith, h))

check_actions-Passes :
    (c : Config)
    → Passes (check_actions c)
    → (table : Registry) × (new_default_registry ≡ ok table)
      × (validate_allowed_actions c.security.allow_actions table ≡ ok tt)
unfolding check_actions has_failed any is_failure
check_actions-Passes c h = elim (Result-cases new_default_registry) [
  | inr (x, e) ↦ absurd (ground (arith, e, h))
  | inl (table, e) ↦
      let (u, valid) =
        verdict-Passes Check.actions (validate_allowed_actions c.security.allow_actions table)
          (ground (arith, e, h)) in
      (table, e, valid)
]

with_registry_made :
    (c : Config) (cred : Credentials)
    → Passes (check_actions c)
    → (r : Runtime) × (with_registry c cred ≡ ok r)
unfolding with_registry
with_registry_made c cred h =
    let (table, built_in, known) = check_actions-Passes c h in
    (
      record { config = c; credentials = cred; registry = table },
      rw (with_registry, built_in, known) refl,
    )

module _ (parse_url : Text → Option Url) (host_absolute : Text → Bool)
    (open_file : Text → Option Decoded) (decode : Text → Option Credentials) (goos : Text)
    (stat : Text → Option CredentialsFile) (info_of : Text → Option FileInfo)
    (writable : Text → Bool) (parse : Text → Option Location) (print : Location → Text)
    (dir_of : Text → Text) (join : Text → Text → Text) where
  check_credentials-Passes :
      (path : Text)
      → Passes (
          check_credentials parse_url host_absolute open_file decode goos stat info_of writable
            parse print dir_of join path)
      → (cred : Credentials) × (Identity.load parse_url decode goos stat path ≡ ok cred)
  unfolding check_credentials has_failed any is_failure
  check_credentials-Passes path h = elim (Option-cases (info_of path)) [
    | inl e ↦ absurd (ground (arith, e, h))
    | inr (info, e) ↦ elim (Bool-cases info.is_dir) [
      | inl f ↦ absurd (ground (arith, e, f, h))
      | inr f ↦
          verdict-Passes credentials_json (Identity.load parse_url decode goos stat path)
            (ground (arith, e, f, h, Bool-cases (wrong_file_mode info.mode goos)))
    ]
  ]

  check_config-Passes :
      (c : Config)
      → Passes (
          check_config parse_url host_absolute open_file decode goos stat info_of writable parse
            print dir_of join c)
      → ((cred : Credentials) × (Identity.load parse_url decode goos stat
              c.security.credentials_file
            ≡ ok cred))
        × Passes (check_actions c)
  unfolding check_config
  check_config-Passes c h =
      let urls =
        check_urls parse_url host_absolute open_file decode goos stat info_of writable parse print
          dir_of join c.cloud in
      let (_, a) = append-Passes urls _ h in
      let b = cons-Passes (check_transports c.cloud, Check.transports) _ a in
      let (acts, d) = append-Passes (check_actions c) _ b in
      let (creds, _) =
        append-Passes
          (check_credentials parse_url host_absolute open_file decode goos stat info_of writable
            parse print dir_of join c.security.credentials_file)
          _ d in
      (check_credentials-Passes c.security.credentials_file creds, acts)

  -- If the self-test of a path that is not blank reports no failure, the agent loads the files of
  -- that path without an error.
  pub run_diagnostics-loads :
      (path : Text)
      → is_blank path ≡ false
      → has_failed (
          run_diagnostics parse_url host_absolute open_file decode goos stat info_of writable parse
            print dir_of join path)
        ≡ false
      → (r : Runtime) × (load_runtime parse_url host_absolute open_file decode goos stat path
          ≡ ok r)
  unfolding run_diagnostics has_failed any is_failure load_runtime
  run_diagnostics-loads path given h = elim (Option-cases (info_of path)) [
    | inl e ↦ absurd (ground (arith, given, e, h))
    | inr (info, e) ↦ elim (Bool-cases info.is_dir) [
      | inl f ↦ absurd (ground (arith, given, e, f, h))
      | inr f ↦ elim (Result-cases (Config.load parse_url host_absolute open_file path)) [
        | inr (x, g) ↦ absurd (ground (arith, given, e, f, g, h))
        | inl (c, g) ↦
            let ((cred, loaded), acts) =
              check_config-Passes c (ground (arith, given, e, f, g, h)) in
            let (r, made) = with_registry_made c cred acts in (r, rw (load_runtime, g, loaded) made)
      ]
    ]
  ]
