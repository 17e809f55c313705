-- ===== src/Identity/Laws.antt =====
-- internal/identity/credentials.go: which files of credentials are accepted.
use mgate_agent.Base.{
  ap, ◌≡◌, ◌≢◌, ◌↔◌, ◌⊎◌, inl, inr, sym, ◌∙◌, false, not, Option, some, [], ◌&&◌, ok, Result-cases,
  first_failure_iff, Bool-cases, Option-cases, arith,
}
use mgate_agent.Base.Int.{pos, ◌≤ℤ◌}
use mgate_agent.Base.Text.{Text, codes, text_eq, text_eq_iff, is_blank}
use mgate_agent.Config.{Url}
use mgate_agent.Config.Checks.{IsAddress, text_ne}
use mgate_agent.Identity.{
  Credentials, CredentialsFile, private_mode, wrong_file_mode, is_bad_address, checks, validate,
  load,
}

module _ (parse_url : Text → Option Url) where
  abbrev pub AreCredentials : Credentials → Type 0
  AreCredentials c =
      (is_blank c.device_id ≡ false)
      × (is_blank c.tenant_id ≡ false)
      × (is_blank c.device_secret ≡ false)
      × (pos 1 ≤ℤ c.secret_version)
      × (c.enrolled_at ≢ 0)
      × ((c.cloud_base_url ≡ []) ⊎ IsAddress parse_url c.cloud_base_url)

  IsAddress-iff : (raw : Text) → (is_bad_address parse_url raw ≡ false) ↔ IsAddress parse_url raw
  unfolding is_bad_address
  IsAddress-iff raw = elim (Option-cases (parse_url raw)) [
    | inl e ↦ (λ h. absurd (ground (arith, e, h)), λ (u, p, q, r). absurd (ground (arith, e, p)))
    | inr (u, e) ↦ (
      λ h. (
        u,
        e,
        ground (
          arith,
          e,
          h,
          text_eq_iff u.scheme (codes "http"),
          text_eq_iff u.scheme (codes "https"),
        ),
        λ z. absurd (ground (arith, e, h, z, text_eq_iff u.host [])),
      ),
      λ (v, p, q, r).
          let same : v ≡ u = ground (arith, e, p) in
          let host = text_ne v.host [] r in
          ground (
            arith,
            e,
            same,
            host,
            q,
            text_eq_iff v.scheme (codes "http"),
            text_eq_iff v.scheme (codes "https"),
          ),
    )
  ]

  optional_iff :
      (raw : Text)
      → ((not (text_eq raw []) && is_bad_address parse_url raw) ≡ false)
        ↔ ((raw ≡ []) ⊎ IsAddress parse_url raw)
  optional_iff raw = elim (Bool-cases (text_eq raw [])) [
    | inl e ↦ (λ h. inl ((text_eq_iff raw []).0 e), λ h. ground (arith, e))
    | inr e ↦ (
      λ h. inr ((IsAddress-iff raw).0 (ground (arith, e, h))),
      λ h. elim h [
        | inl z ↦ absurd (ground (arith, e, z, text_eq_iff raw []))
        | inr a ↦ ground (arith, e, (IsAddress-iff raw).1 a)
      ],
    )
  ]

  validate_iff : (c : Credentials) → (validate parse_url (some c) ≡ ok tt) ↔ AreCredentials c
  unfolding validate
  validate_iff c = (
    λ h.
        let (d, (t, (s, (v, (n, (a, _)))))) = (first_failure_iff (checks parse_url c)).0 h in
        (
          d,
          t,
          s,
          ground arith,
          λ z. absurd (ground (arith, n, z)),
          (optional_iff c.cloud_base_url).0 a,
        ),
    λ (d, t, s, v, n, a). (first_failure_iff (checks parse_url c)).1 (
      d,
      (t, (s, (ground arith, (ground (arith, n), ((optional_iff c.cloud_base_url).1 a, tt))))),
    ),
  )

  -- the file may be read on this system: on Linux by its owner alone
  abbrev pub IsPrivate : Text → CredentialsFile → Type 0
  IsPrivate goos f = (goos ≢ codes "linux") ⊎ (f.mode ≡ private_mode)

  mode_iff :
      (goos : Text) (f : CredentialsFile) → (wrong_file_mode f.mode goos ≡ false) ↔ IsPrivate goos f
  unfolding wrong_file_mode
  mode_iff goos f = elim (Bool-cases (text_eq goos (codes "linux"))) [
    | inl e ↦ (
      λ h. inr (ground (arith, e, h)),
      λ h. elim h [
        | inl n ↦ absurd (n ((text_eq_iff goos (codes "linux")).0 e))
        | inr m ↦ ground (arith, e, m)
      ],
    )
    | inr e ↦ (
      λ h. inl (λ z. absurd (ground (arith, e, z, text_eq_iff goos (codes "linux")))),
      λ h. ground (arith, e),
    )
  ]

  -- Load gives credentials exactly when the file is there, may on Linux be read and written by its
  -- owner and by nobody else, can be read and decoded, and what it holds has an id, a tenant and a
  -- secret that are not blank, a positive version, a date, and either no address or an http or https
  -- one with a host.
  pub load_iff :
      (decode : Text → Option Credentials) (goos : Text) (stat : Text → Option CredentialsFile)
      (path : Text) (c : Credentials)
      → (load parse_url decode goos stat path ≡ ok c) ↔ (
          (f : CredentialsFile) × (stat path ≡ some f)
          × IsPrivate goos f
          × (data' : Text) × (f.content ≡ some data')
          × (decode data' ≡ some c)
          × AreCredentials c)
  unfolding load
  load_iff decode goos stat path c = (
    λ h. elim (Option-cases (stat path)) [
      | inl e ↦ absurd (ground (arith, e, h))
      | inr (f, e) ↦ elim (Bool-cases (wrong_file_mode f.mode goos)) [
        | inl m ↦ absurd (ground (arith, e, m, h))
        | inr m ↦ elim (Option-cases f.content) [
          | inl r ↦ absurd (ground (arith, e, m, r, h))
          | inr (data', r) ↦ elim (Option-cases (decode data')) [
            | inl d ↦ absurd (ground (arith, e, m, r, d, h))
            | inr (q, d) ↦ elim (Result-cases (validate parse_url (some q))) [
              | inr (x, v) ↦ absurd (ground (arith, e, m, r, d, v, h))
              | inl (u, v) ↦
                  let same : q ≡ c = ground (arith, e, m, r, d, v, h) in
                  (
                    f,
                    e,
                    (mode_iff goos f).0 m,
                    data',
                    r,
                    d ∙ ap some same,
                    (validate_iff c).0 (ap (λ t. validate parse_url (some t)) (sym same) ∙ v),
                  )
            ]
          ]
        ]
      ]
    ],
    λ (f, s, m, data', r, d, a).
        ground (arith, s, (mode_iff goos f).1 m, r, d, (validate_iff c).1 a),
  )
