-- ===== src/Auth.antt =====
-- internal/auth/hmac.go: the signature of a request. SHA-256, HMAC and base64 are parameters on
-- texts of bytes.
pub mod Canonical
use mgate_agent.Base.{ℕ, ◌/◌, ◌%◌, ◌+◌, ◌-◌, Bool, List, [], ◌∷◌, ◌++◌, ltb, if◌then◌else◌}
use mgate_agent.Base.Text.{Text, text_eq, to_upper}

pub record SignInput : Type 0 where
  pub method : Text
  pub path : Text
  pub timestamp : Text
  pub nonce : Text
  pub body : Text

abbrev pub newline : ℕ
newline = b'\n'

-- the digit of a half byte
unfoldable pub hex_digit : ℕ → ℕ
hex_digit n = if ltb n 10 then b'0' + n else b'a' + (n - 10)

-- hex.EncodeToString
unfoldable pub hex : Text → Text
unfolding hex_digit
hex [] = []
hex (c ∷ s) = hex_digit (c / 16) ∷ hex_digit (c % 16) ∷ hex s

module _ (sha256 : Text → Text) where
  -- BodySHA256
  unfoldable pub body_sha256 : Text → Text
  unfolding hex
  body_sha256 body = hex (sha256 body)

  -- CanonicalString
  unfoldable pub canonical_string : SignInput → Text
  unfolding body_sha256 to_upper
  canonical_string input =
      to_upper input.method
      ++ (newline ∷ input.path
          ++ (newline ∷ input.timestamp
              ++ (newline ∷ input.nonce ++ (newline ∷ body_sha256 input.body))))

  module _ (hmac : Text → Text → Text) (base64 : Text → Text) where
    -- Sign
    unfoldable pub sign : Text → SignInput → Text
    unfolding canonical_string
    sign secret input = base64 (hmac secret (canonical_string input))

    -- Verify
    unfoldable pub verify : Text → SignInput → Text → Bool
    unfolding sign text_eq
    verify secret input signature = text_eq (sign secret input) signature
