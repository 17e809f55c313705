-- ===== src/Auth/Canonical.antt =====
-- internal/auth/hmac.go: what a signature covers.
use mgate_agent.Base.{
  ℕ, ◌/◌, ◌%◌, ◌<◌, ◌≡◌, refl, Bool, true, not, [], ◌∷◌, ◌++◌, ◌==◌, ◌&&◌, arith, All,
}
use mgate_agent.Base.Text.{Text, upper, to_upper}
use mgate_agent.Auth.{SignInput, newline, hex_digit, hex, body_sha256, canonical_string}

-- the text is one line
unfoldable pub is_line : Text → Bool
is_line [] = true
is_line (c ∷ s) = not (c == newline) && is_line s

-- the parts of the canonical string are lines
abbrev pub IsLined : SignInput → Type 0
IsLined i =
    (is_line i.method ≡ true)
    × (is_line i.path ≡ true)
    × (is_line i.timestamp ≡ true)
    × (is_line i.nonce ≡ true)

line_split :
    (x y s t : Text)
    → is_line x ≡ true
    → is_line y ≡ true
    → x ++ (newline ∷ s) ≡ y ++ (newline ∷ t)
    → (x ≡ y) × (s ≡ t)
unfolding is_line
line_split [] [] s t p q h = (refl, cc)
line_split [] (d ∷ y) s t p q h = absurd (ground arith)
line_split (c ∷ x) [] s t p q h = absurd (ground arith)
line_split (c ∷ x) (d ∷ y) s t p q h =
    let (same, rest) = line_split x y s t (ground arith) (ground arith) (cc) in (cc, rest)

to_upper-is_line : (s : Text) → is_line s ≡ true → is_line (to_upper s) ≡ true
unfolding is_line to_upper upper
to_upper-is_line [] h = refl
to_upper-is_line (c ∷ s) h = ground (arith, to_upper-is_line s)

hex_digit_injective : (a b : ℕ) → a < 16 → b < 16 → hex_digit a ≡ hex_digit b → a ≡ b
unfolding hex_digit
hex_digit_injective a b p q h = ground arith

-- the text is of bytes
abbrev pub AreBytes : Text → Type 0
AreBytes = All (λ c. c < 256)

hex_injective : (s t : Text) → AreBytes s → AreBytes t → hex s ≡ hex t → s ≡ t
unfolding hex
hex_injective [] [] p q h = refl
hex_injective [] (d ∷ t) p q h = absurd (cc)
hex_injective (c ∷ s) [] p q h = absurd (cc)
hex_injective (c ∷ s) (d ∷ t) (p, ps) (q, qs) h =
    let high = hex_digit_injective (c / 16) (d / 16) (omega arith) (omega arith) (cc) in
    let low = hex_digit_injective (c % 16) (d % 16) (omega arith) (omega arith) (cc) in
    let same : c ≡ d = omega (arith, high, low) in let rest = hex_injective s t ps qs (cc) in cc

module _ (sha256 : Text → Text) (sha256-AreBytes : (s : Text) → AreBytes (sha256 s)) where
  -- Two requests with the same canonical string have the same method up to case, path, timestamp
  -- and nonce, and bodies of the same SHA-256 digest, provided that none of the four texts holds a
  -- newline: no field of a signed request can be passed off as another.
  pub canonical_string_injective :
      (a b : SignInput)
      → IsLined a
      → IsLined b
      → canonical_string sha256 a ≡ canonical_string sha256 b
      → (to_upper a.method ≡ to_upper b.method)
        × (a.path ≡ b.path)
        × (a.timestamp ≡ b.timestamp)
        × (a.nonce ≡ b.nonce)
        × (sha256 a.body ≡ sha256 b.body)
  unfolding canonical_string body_sha256
  canonical_string_injective a b (m, p, t, n) (m', p', t', n') h =
      let (method, h1) =
        line_split (to_upper a.method) (to_upper b.method)
          (a.path
            ++ (newline ∷ a.timestamp ++ (newline ∷ a.nonce ++ (newline ∷ hex (sha256 a.body)))))
          (b.path
            ++ (newline ∷ b.timestamp ++ (newline ∷ b.nonce ++ (newline ∷ hex (sha256 b.body)))))
          (to_upper-is_line a.method m) (to_upper-is_line b.method m') h in
      let (path, h2) =
        line_split a.path b.path
          (a.timestamp ++ (newline ∷ a.nonce ++ (newline ∷ hex (sha256 a.body))))
          (b.timestamp ++ (newline ∷ b.nonce ++ (newline ∷ hex (sha256 b.body)))) p p' h1 in
      let (timestamp, h3) =
        line_split a.timestamp b.timestamp (a.nonce ++ (newline ∷ hex (sha256 a.body)))
          (b.nonce ++ (newline ∷ hex (sha256 b.body))) t t' h2 in
      let (nonce, h4) =
        line_split a.nonce b.nonce (hex (sha256 a.body)) (hex (sha256 b.body)) n n' h3 in
      (
        method,
        path,
        timestamp,
        nonce,
        hex_injective (sha256 a.body) (sha256 b.body) (sha256-AreBytes a.body)
            (sha256-AreBytes b.body) h4,
      )
