-- ===== src/Audit/Redact.antt =====
-- internal/audit/redact.go: the redaction of decoded JSON and of output text.
pub mod Values
pub mod Lines
use mgate_agent.Base.{
  ℕ, Bool, true, false, ◌||◌, ◌&&◌, List, [], ◌∷◌, ◌++◌, ◌==◌, if◌then◌else◌, any, map,
}
use mgate_agent.Base.Text.{Text, codes, text_eq, contains, has_suffix, to_lower}
use mgate_agent.Protocol.Json.{
  Value, null, boolean, number, string, array, object, Items, nil, cons, Fields, end, field,
}

abbrev pub redacted_value : Text
redacted_value = codes "***REDACTED***"

unfoldable pub is_sensitive_key : Text → Bool
is_sensitive_key key =
    let k = to_lower key in
    (text_eq k (codes "psk") || text_eq k (codes "key") || text_eq k (codes "device_secret"))
    || contains k (codes "password")
    || contains k (codes "token")
    || contains k (codes "secret")
    || has_suffix k (codes "_key")

unfoldable mutual
  pub redact : Value → Value
  redact (object fs) = object (redact_fields fs)
  redact (array xs) = array (redact_items xs)
  redact null = null
  redact (boolean b) = boolean b
  redact (number n) = number n
  redact (string s) = string s

  pub redact_items : Items → Items
  redact_items nil = nil
  redact_items (cons x xs) = cons (redact x) (redact_items xs)

  pub redact_fields : Fields → Fields
  redact_fields end = end
  redact_fields (field k v fs) =
      let kept = redact v in
      field k (if is_sensitive_key k then string redacted_value else kept) (redact_fields fs)

abbrev pub newline : ℕ
newline = 10

-- one byte in front of the pieces
unfoldable pub attach : ℕ → List Text → List Text
attach c [] = (c ∷ []) ∷ []
attach c (line ∷ rest) = if c == newline then (c ∷ []) ∷ line ∷ rest else (c ∷ line) ∷ rest

-- strings.SplitAfter(s, "\n"): each piece but the last ends in the newline
unfoldable pub split_after : Text → List Text
unfolding attach
split_after [] = [] ∷ []
split_after (c ∷ s) = attach c (split_after s)

-- strings.Join(lines, "")
unfoldable pub join : List Text → Text
join [] = []
join (line ∷ rest) = line ++ join rest

abbrev pub sensitive_words : List Text
sensitive_words =
    codes "psk"
    ∷ codes "password"
    ∷ codes "passwd"
    ∷ codes "token"
    ∷ codes "secret"
    ∷ codes "key"
    ∷ codes "device_secret"
    ∷ codes "signature"
    ∷ []

unfoldable pub contains_sensitive_word : Text → Bool
contains_sensitive_word line =
    let l = to_lower line in any (λ word. contains l word) sensitive_words

unfoldable pub redact_line : Text → Text
redact_line line =
    if contains_sensitive_word line
    then (if has_suffix line (newline ∷ []) then redacted_value ++ newline ∷ [] else redacted_value)
    else line

unfoldable pub redact_text : Text → Text
unfolding redact_line
redact_text [] = []
redact_text (c ∷ s) = join (map redact_line (split_after (c ∷ s)))
