-- ===== src/Audit/Redact/Values.antt =====
-- Redaction of decoded JSON (audit.Redact): what is left at every depth.
use mgate_agent.Base.{
  ◌≡◌, refl, ◌↔◌, ap, subst, Bool, true, false, ◌&&◌, arith, if◌then◌else◌, Bool-cases, inl, inr,
  none, some,
}
use mgate_agent.Base.Text.{Text, text_eq, text_eq_refl, text_eq→eq}
use mgate_agent.Protocol.Json.{
  Value, null, boolean, number, string, array, object, Items, nil, cons, Fields, end, field,
  get_field,
}
use mgate_agent.Audit.Redact.{redacted_value, is_sensitive_key, redact, redact_items, redact_fields}

unfoldable pub is_redacted : Value → Bool
is_redacted (string s) = text_eq s redacted_value
is_redacted _ = false

-- every sensitive key at any depth holds the redaction mark
unfoldable mutual
  pub clean : Value → Bool
  clean (object fs) = clean_fields fs
  clean (array xs) = clean_items xs
  clean null = true
  clean (boolean b) = true
  clean (number n) = true
  clean (string s) = true

  pub clean_items : Items → Bool
  clean_items nil = true
  clean_items (cons x xs) = clean x && clean_items xs

  pub clean_fields : Fields → Bool
  clean_fields end = true
  clean_fields (field k v fs) =
      let below = clean v in
      (if is_sensitive_key k then is_redacted v else below) && clean_fields fs

is_redacted-mark : is_redacted (string redacted_value) ≡ true
unfolding is_redacted
is_redacted-mark = text_eq_refl redacted_value

eq-mark_of_is_redacted : (v : Value) → is_redacted v ≡ true → v ≡ string redacted_value
unfolding is_redacted
eq-mark_of_is_redacted (string s) h = rw (text_eq→eq s redacted_value h)
eq-mark_of_is_redacted null h = cc
eq-mark_of_is_redacted (boolean b) h = cc
eq-mark_of_is_redacted (number n) h = cc
eq-mark_of_is_redacted (array xs) h = cc
eq-mark_of_is_redacted (object fs) h = cc

mutual
  unfolding redact clean

  redact-eq_of_clean : (v : Value) → clean (redact v) ≡ true
  redact-eq_of_clean (object fs) = clean_redact_fields fs
  redact-eq_of_clean (array xs) = clean_redact_items xs
  redact-eq_of_clean null = refl
  redact-eq_of_clean (boolean b) = refl
  redact-eq_of_clean (number n) = refl
  redact-eq_of_clean (string s) = refl

  clean_redact_items : (xs : Items) → clean_items (redact_items xs) ≡ true
  clean_redact_items nil = refl
  clean_redact_items (cons x xs) = rw (redact-eq_of_clean x, clean_redact_items xs)

  clean_redact_fields : (fs : Fields) → clean_fields (redact_fields fs) ≡ true
  clean_redact_fields end = refl
  clean_redact_fields (field k v fs) = elim (Bool-cases (is_sensitive_key k)) [
    | inl e ↦ rw (e, is_redacted-mark, clean_redact_fields fs)
    | inr e ↦ rw (e, redact-eq_of_clean v, clean_redact_fields fs)
  ]

mutual
  unfolding redact clean

  redact-Clean_all : (v : Value) → clean v ≡ true → redact v ≡ v
  redact-Clean_all (object fs) h = ap object (redact_clean_fields fs h)
  redact-Clean_all (array xs) h = ap array (redact_clean_items xs h)
  redact-Clean_all null h = refl
  redact-Clean_all (boolean b) h = refl
  redact-Clean_all (number n) h = refl
  redact-Clean_all (string s) h = refl

  redact_clean_items : (xs : Items) → clean_items xs ≡ true → redact_items xs ≡ xs
  redact_clean_items nil h = refl
  redact_clean_items (cons x xs) h = ground (arith, redact-Clean_all x, redact_clean_items xs)

  redact_clean_fields : (fs : Fields) → clean_fields fs ≡ true → redact_fields fs ≡ fs
  redact_clean_fields end h = refl
  redact_clean_fields (field k v fs) h =
      ground (arith, redact-Clean_all v, redact_clean_fields fs, eq-mark_of_is_redacted v)

-- After redaction every field with a sensitive key, at any depth of objects and arrays, holds
-- exactly the redaction mark.
pub redact-clean : (v : Value) → clean (redact v) ≡ true
redact-clean v = redact-eq_of_clean v

pub redact_fields-clean : (fs : Fields) → clean_fields (redact_fields fs) ≡ true
redact_fields-clean fs = clean_redact_fields fs

-- Redaction leaves a value as it is exactly when every sensitive key in it holds the mark.
pub redact-eq_iff : (v : Value) → (redact v ≡ v) ↔ (clean v ≡ true)
redact-eq_iff v = (λ e. subst (λ u. clean u ≡ true) e (redact-eq_of_clean v), redact-Clean_all v)

-- reading a key of a redacted object
pub get_field-redact_fields :
    (key : Text) (fs : Fields)
    → get_field key (redact_fields fs) ≡ (elim (get_field key fs) [
      | none ↦ none
      | some v ↦ some (if is_sensitive_key key then string redacted_value else redact v)
    ])
unfolding get_field redact
get_field-redact_fields key end = refl
get_field-redact_fields key (field k v fs) = elim (Bool-cases (text_eq k key)) [
  | inl e ↦ rw (e, text_eq→eq k key e)
  | inr e ↦ rw e (get_field-redact_fields key fs)
]
