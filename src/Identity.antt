-- ===== src/Identity.antt =====
-- internal/identity/credentials.go: the credentials of the device. The file system, the JSON decoder
-- and net/url are parameters.
pub mod Laws
use mgate_agent.Base.{
  ℕ, Bool, true, false, not, Option, none, some, List, [], ◌∷◌, ◌&&◌, ◌||◌, ◌==◌, if◌then◌else◌,
  Result, ok, err, first_failure,
}
use mgate_agent.Base.Int.{ℤ, pos, ltb_ℤ}
use mgate_agent.Base.Text.{Text, codes, text_eq, is_blank}
use mgate_agent.Config.{Url}

pub record Credentials : Type 0 where
  pub device_id : Text
  pub tenant_id : Text
  pub device_secret : Text
  pub secret_version : ℤ
  pub enrolled_at : ℕ
  pub cloud_base_url : Text

pub data CredentialsError : Type 0 where
  nil_credentials no_device_id no_tenant_id no_secret bad_version not_enrolled : CredentialsError
  bad_address : CredentialsError

pub data LoadError : Type 0 where
  no_file wrong_mode unreadable undecodable : LoadError
  is_invalid : CredentialsError → LoadError

-- mode != 0o600
abbrev pub private_mode : ℕ
private_mode = 384

-- validateFileMode, whether it is an error
unfoldable pub wrong_file_mode : ℕ → Text → Bool
wrong_file_mode mode goos = text_eq goos (codes "linux") && not (mode == private_mode)

-- a file: its permission bits, and what reading it gives
pub record CredentialsFile : Type 0 where
  pub mode : ℕ
  pub content : Option Text

module _ (parse_url : Text → Option Url) where
  -- the test of the address in Validate
  unfoldable pub is_bad_address : Text → Bool
  is_bad_address raw = elim (parse_url raw) [
    | none ↦ true
    | some u ↦
        (not (text_eq u.scheme (codes "http")) && not (text_eq u.scheme (codes "https")))
        || text_eq u.host []
  ]

  -- the checks of Validate in their order
  abbrev pub checks : Credentials → List (Bool × CredentialsError)
  checks c =
      (is_blank c.device_id, no_device_id)
      ∷ (is_blank c.tenant_id, no_tenant_id)
      ∷ (is_blank c.device_secret, no_secret)
      ∷ (ltb_ℤ c.secret_version (pos 1), bad_version)
      ∷ (c.enrolled_at == 0, not_enrolled)
      ∷ (not (text_eq c.cloud_base_url []) && is_bad_address c.cloud_base_url, bad_address)
      ∷ []

  -- (*Credentials).Validate
  unfoldable pub validate : Option Credentials → Result CredentialsError (Unit {0})
  unfolding is_bad_address first_failure
  validate none = err nil_credentials
  validate (some c) = first_failure (checks c)

  -- Load
  unfoldable pub load :
      (Text → Option Credentials)
      → Text
      → (Text → Option CredentialsFile)
      → Text
      → Result LoadError Credentials
  unfolding validate wrong_file_mode
  load decode goos stat path = elim (stat path) [
    | none ↦ err no_file
    | some f ↦ if wrong_file_mode f.mode goos then err wrong_mode else elim f.content [
      | none ↦ err unreadable
      | some data' ↦ elim (decode data') [
        | none ↦ err undecodable
        | some c ↦ elim (validate (some c)) [ err e ↦ err (is_invalid e) | ok _ ↦ ok c ]
      ]
    ]
  ]
