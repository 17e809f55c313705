-- ===== src/Config/Laws.antt =====
-- internal/config/load.go: which configurations are accepted.
use mgate_agent.Base.{
  ◌*◌, ◌≡◌, ◌↔◌, ◌⊎◌, ◌≢◌, inl, inr, ap, Bool, true, false, not, Option, some, [], ◌∷◌, any, ok,
  ◌>>◌, length, ◌==◌, arith, Bool-cases, Option-cases, first_failure, first_failure_iff, >>-iff,
}
use mgate_agent.Base.Int.{◌≤ℤ◌}
use mgate_agent.Base.Text.{Text, codes, text_eq, text_eq_iff, has_prefix, is_blank}
use mgate_agent.Config.{
  CloudConfig, AgentConfig, SecurityConfig, LoggingConfig, Config, Url, check_actions, levels,
  slash, validate_url, is_absolute_path, validate_cloud, validate_agent, validate_security,
  validate_logging, validate, agent_checks, rooted_paths, range_check, absolute_check, no_actions,
  wrong_level,
}
use mgate_agent.Config.Checks.{
  IsAddress, InRange, IsRooted, AreActions, outside_iff, IsRooted-iff, IsLevel, IsLevel-iff,
  text_ne, actions_iff, no-Unseen, some_iff, rooted-blank,
}

module _ (parse_url : Text → Option Url) (host_absolute : Text → Bool) where
  abbrev pub IsAbsolute : Text → Type 0
  IsAbsolute path = IsRooted path ⊎ ((host_absolute path ≡ true) × (is_blank path ≡ false))

  abbrev pub IsCloud : CloudConfig → Type 0
  IsCloud c =
      IsAddress parse_url c.base_url
      × (IsRooted c.ws_path
          × IsRooted c.pull_path
          × IsRooted c.result_path
          × IsRooted c.status_path)
      × (InRange 1 300 c.request_timeout_sec × InRange 1 3600 c.pull_interval_sec)

  abbrev pub IsAgent : AgentConfig → Type 0
  IsAgent c =
      (is_blank c.device_name ≡ false)
      × IsAbsolute c.mgate_path
      × IsAbsolute c.work_dir
      × InRange 5 3600 c.heartbeat_interval_sec
      × InRange 10 86400 c.status_interval_sec
      × InRange 1 600 c.default_command_timeout_sec
      × InRange 1 3600 c.long_command_timeout_sec
      × (c.default_command_timeout_sec ≤ℤ c.long_command_timeout_sec)
      × InRange 1 16 c.max_parallel_jobs
      × InRange 1024 (1024 * 1024) c.max_output_bytes

  abbrev pub IsSecurity : SecurityConfig → Type 0
  IsSecurity c =
      (IsAbsolute c.credentials_file × (c.allow_actions ≢ []))
      × AreActions c.allow_actions
      × InRange 0 3600 c.clock_skew_sec

  abbrev pub IsLogging : LoggingConfig → Type 0
  IsLogging c = IsLevel c.level × IsAbsolute c.audit_file

  abbrev pub IsConfig : Config → Type 0
  IsConfig c = IsCloud c.cloud × IsAgent c.agent × IsSecurity c.security × IsLogging c.logging

  url_iff :
      (name raw : Text)
      → (validate_url parse_url host_absolute name raw ≡ ok tt) ↔ IsAddress parse_url raw
  unfolding validate_url
  url_iff name raw = elim (Option-cases (parse_url raw)) [
    | inl e ↦ (λ h. absurd (ground (arith, e, h)), λ (u, p, q, r). absurd (ground (arith, e, p)))
    | inr (u, e) ↦ (
      λ h. (
        u,
        e,
        ground (
          arith,
          e,
          h,
          text_eq_iff u.scheme (codes "http"),
          text_eq_iff u.scheme (codes "https"),
        ),
        λ z. absurd (ground (arith, e, h, z, text_eq_iff u.host [])),
      ),
      λ (v, p, q, r).
          let same : v ≡ u = ground (arith, e, p) in
          let host = text_ne v.host [] r in
          ground (
            arith,
            e,
            same,
            host,
            q,
            text_eq_iff v.scheme (codes "http"),
            text_eq_iff v.scheme (codes "https"),
          ),
    )
  ]

  IsAbsolute-iff :
      (path : Text)
      → (not (is_absolute_path parse_url host_absolute path) ≡ false) ↔ IsAbsolute path
  unfolding is_absolute_path
  IsAbsolute-iff path = elim (Bool-cases (is_blank path)) [
    | inl e ↦ (
      λ h. absurd (ground (arith, e, h)),
      λ h. elim h [
        | inl r ↦ absurd (ground (arith, e, rooted-blank path r))
        | inr (_, b) ↦ absurd (ground (arith, e, b))
      ],
    )
    | inr e ↦ elim (Bool-cases (has_prefix path slash)) [
      | inl f ↦ (λ h. inl ((IsRooted-iff path).0 (ap not f)), λ h. ground (arith, e, f))
      | inr f ↦ (
        λ h. inr (ground (arith, e, f, h), e),
        λ h. elim h [
          | inl r ↦ absurd (ground (arith, f, (IsRooted-iff path).1 r))
          | inr (a, _) ↦ ground (arith, e, f, a)
        ],
      )
    ]
  ]

  IsAgent-iff : (c : AgentConfig) → (validate_agent parse_url host_absolute c ≡ ok tt) ↔ IsAgent c
  unfolding validate_agent
  IsAgent-iff c = (
    λ h.
        let (a, (m, (w, (b, (s, (d, (l, (t, (j, (o, _)))))))))) =
          (first_failure_iff (agent_checks parse_url host_absolute c)).0 h in
        (
          a,
          (IsAbsolute-iff c.mgate_path).0 m,
          (IsAbsolute-iff c.work_dir).0 w,
          (outside_iff 5 3600 c.heartbeat_interval_sec).0 b,
          (outside_iff 10 86400 c.status_interval_sec).0 s,
          (outside_iff 1 600 c.default_command_timeout_sec).0 d,
          (outside_iff 1 3600 c.long_command_timeout_sec).0 l,
          ground arith,
          (outside_iff 1 16 c.max_parallel_jobs).0 j,
          (outside_iff 1024 (1024 * 1024) c.max_output_bytes).0 o,
        ),
    λ (a, m, w, b, s, d, l, t, j, o).
        (first_failure_iff (agent_checks parse_url host_absolute c)).1 (
          a,
          (
            (IsAbsolute-iff c.mgate_path).1 m,
            (
              (IsAbsolute-iff c.work_dir).1 w,
              (
                (outside_iff 5 3600 c.heartbeat_interval_sec).1 b,
                (
                  (outside_iff 10 86400 c.status_interval_sec).1 s,
                  (
                    (outside_iff 1 600 c.default_command_timeout_sec).1 d,
                    (
                      (outside_iff 1 3600 c.long_command_timeout_sec).1 l,
                      (
                        ground arith,
                        (
                          (outside_iff 1 16 c.max_parallel_jobs).1 j,
                          ((outside_iff 1024 (1024 * 1024) c.max_output_bytes).1 o, tt),
                        ),
                      ),
                    ),
                  ),
                ),
              ),
            ),
          ),
        ),
  )

  IsSecurity-iff :
      (c : SecurityConfig) → (validate_security parse_url host_absolute c ≡ ok tt) ↔ IsSecurity c
  unfolding validate_security
  IsSecurity-iff c =
      let head =
        absolute_check parse_url host_absolute (codes "security.credentials_file")
          c.credentials_file
        ∷ (length c.allow_actions == 0, no_actions)
        ∷ [] in
      let tail = range_check (codes "security.clock_skew_sec") c.clock_skew_sec 0 3600 ∷ [] in
      (
        λ h.
            let (first, more) =
              (>>-iff (first_failure head)
                  (check_actions [] c.allow_actions >> first_failure tail)).0
                h in
            let (file, (some_action, _)) = (first_failure_iff head).0 first in
            let (actions, last) =
              (>>-iff (check_actions [] c.allow_actions) (first_failure tail)).0 more in
            (
              (
                (IsAbsolute-iff c.credentials_file).0 file,
                (some_iff c.allow_actions).0 some_action,
              ),
              ((actions_iff [] c.allow_actions).0 actions).1,
              (outside_iff 0 3600 c.clock_skew_sec).0 ((first_failure_iff tail).0 last).0,
            ),
        λ ((file, some_action), actions, skew).
            (>>-iff (first_failure head) (check_actions [] c.allow_actions >> first_failure tail)).1
              (
                (first_failure_iff head).1 (
                  (IsAbsolute-iff c.credentials_file).1 file,
                  ((some_iff c.allow_actions).1 some_action, tt),
                ),
                (>>-iff (check_actions [] c.allow_actions) (first_failure tail)).1 (
                  (actions_iff [] c.allow_actions).1 (no-Unseen c.allow_actions, actions),
                  (first_failure_iff tail).1 ((outside_iff 0 3600 c.clock_skew_sec).1 skew, tt),
                ),
              ),
      )

  IsLogging-iff :
      (c : LoggingConfig) → (validate_logging parse_url host_absolute c ≡ ok tt) ↔ IsLogging c
  unfolding validate_logging any
  IsLogging-iff c =
      let checks =
        (not (any (text_eq c.level) levels), wrong_level)
        ∷ absolute_check parse_url host_absolute (codes "logging.audit_file") c.audit_file
        ∷ [] in
      (
        λ h.
            let (l, (a, _)) = (first_failure_iff checks).0 h in
            ((IsLevel-iff c.level).0 l, (IsAbsolute-iff c.audit_file).0 a),
        λ (l, a).
            (first_failure_iff checks).1
              ((IsLevel-iff c.level).1 l, ((IsAbsolute-iff c.audit_file).1 a, tt)),
      )

  IsCloud-iff : (c : CloudConfig) → (validate_cloud parse_url host_absolute c ≡ ok tt) ↔ IsCloud c
  unfolding validate_cloud
  IsCloud-iff c =
      let address = validate_url parse_url host_absolute (codes "cloud.base_url") c.base_url in
      let times =
        range_check (codes "cloud.request_timeout_sec") c.request_timeout_sec 1 300
        ∷ range_check (codes "cloud.pull_interval_sec") c.pull_interval_sec 1 3600
        ∷ [] in
      let outer = >>-iff address (first_failure (rooted_paths c) >> first_failure times) in
      let inner = >>-iff (first_failure (rooted_paths c)) (first_failure times) in
      (
        λ h.
            let (url, more) = outer.0 h in
            let (paths, last) = inner.0 more in
            let (w, (p, (r, (s, _)))) = (first_failure_iff (rooted_paths c)).0 paths in
            let (t, (i, _)) = (first_failure_iff times).0 last in
            (
              (url_iff (codes "cloud.base_url") c.base_url).0 url,
              (
                (IsRooted-iff c.ws_path).0 w,
                (IsRooted-iff c.pull_path).0 p,
                (IsRooted-iff c.result_path).0 r,
                (IsRooted-iff c.status_path).0 s,
              ),
              (
                (outside_iff 1 300 c.request_timeout_sec).0 t,
                (outside_iff 1 3600 c.pull_interval_sec).0 i,
              ),
            ),
        λ (url, (w, p, r, s), (t, i)). outer.1 (
          (url_iff (codes "cloud.base_url") c.base_url).1 url,
          inner.1 (
            (first_failure_iff (rooted_paths c)).1 (
              (IsRooted-iff c.ws_path).1 w,
              (
                (IsRooted-iff c.pull_path).1 p,
                ((IsRooted-iff c.result_path).1 r, ((IsRooted-iff c.status_path).1 s, tt)),
              ),
            ),
            (first_failure_iff times).1 (
              (outside_iff 1 300 c.request_timeout_sec).1 t,
              ((outside_iff 1 3600 c.pull_interval_sec).1 i, tt),
            ),
          ),
        ),
      )

  -- Validate accepts exactly the configurations in which the base address is an http or https
  -- address with a host, the four paths of the cloud start with a slash, the other paths are
  -- absolute, the numbers lie in their ranges, the long time limit is no less than the default
  -- one, the device has a name, the level is one of the four, and the allowed actions are some, none
  -- blank and none twice.
  pub validate_iff : (c : Config) → (validate parse_url host_absolute (some c) ≡ ok tt) ↔ IsConfig c
  unfolding validate
  validate_iff c =
      let cloud = validate_cloud parse_url host_absolute c.cloud in
      let agent = validate_agent parse_url host_absolute c.agent in
      let security = validate_security parse_url host_absolute c.security in
      let logging = validate_logging parse_url host_absolute c.logging in
      let first = >>-iff cloud (agent >> (security >> logging)) in
      let second = >>-iff agent (security >> logging) in
      let third = >>-iff security logging in
      (
        λ h.
            let (a, more) = first.0 h in
            let (b, rest) = second.0 more in
            let (s, l) = third.0 rest in
            (
              (IsCloud-iff c.cloud).0 a,
              (IsAgent-iff c.agent).0 b,
              (IsSecurity-iff c.security).0 s,
              (IsLogging-iff c.logging).0 l,
            ),
        λ (a, b, s, l). first.1 (
          (IsCloud-iff c.cloud).1 a,
          second.1 (
            (IsAgent-iff c.agent).1 b,
            third.1 ((IsSecurity-iff c.security).1 s, (IsLogging-iff c.logging).1 l),
          ),
        ),
      )
