-- ===== src/Actions/Redacted.antt =====
-- What RedactedArgs leaves of the arguments for the audit file.
use mgate_agent.Base.{
  ◌≡◌, refl, ap, ◌∙◌, ◌&&◌, Bool, false, ◌||◌, Option, none, some, List, [], ◌∷◌, arith,
  if◌then◌else◌, any, Bool-cases, inl, inr,
}
use mgate_agent.Base.Text.{Text, text_eq, text_eq→eq}
use mgate_agent.Base.Maps.{lookup}
use mgate_agent.Actions.{
  ArgSpec, Spec, ValidatedArgs, redacted_arg, redact_keys, redact_key, redact_declared,
  redacted_args,
}

-- is there a sensitive argument of that name?
unfoldable pub declared_sensitive : Text → List ArgSpec → Bool
declared_sensitive k [] = false
declared_sensitive k (arg ∷ rest) =
    (arg.sensitive && text_eq k arg.name) || declared_sensitive k rest

abbrev pub mask : Bool → Option Text → Option Text
mask hidden none = none
mask hidden (some v) = some (if hidden then redacted_arg else v)

lookup-redact_keys :
    (keys : List Text) (k : Text) (args : ValidatedArgs)
    → lookup k (redact_keys keys args) ≡ mask (any (text_eq k) keys) (lookup k args)
unfolding lookup redact_keys
lookup-redact_keys keys k [] = refl
lookup-redact_keys keys k ((j, v) ∷ args) = elim (Bool-cases (text_eq j k)) [
  | inl e ↦ rw (e, text_eq→eq j k e)
  | inr e ↦ rw e (lookup-redact_keys keys k args)
]

lookup-redact_key :
    (key k : Text) (args : ValidatedArgs)
    → lookup k (redact_key key args) ≡ mask (text_eq k key) (lookup k args)
unfolding lookup redact_key
lookup-redact_key key k [] = refl
lookup-redact_key key k ((j, v) ∷ args) = elim (Bool-cases (text_eq j k)) [
  | inl e ↦ rw (e, text_eq→eq j k e)
  | inr e ↦ rw e (lookup-redact_key key k args)
]

mask-mask : (a b : Bool) (o : Option Text) → mask a (mask b o) ≡ mask (a || b) o
mask-mask a b o = ground arith

lookup-redact_declared :
    (args : List ArgSpec) (k : Text) (out : ValidatedArgs)
    → lookup k (redact_declared args out) ≡ mask (declared_sensitive k args) (lookup k out)
unfolding redact_declared declared_sensitive
lookup-redact_declared [] k out = ground arith
lookup-redact_declared (arg ∷ rest) k out = elim (Bool-cases arg.sensitive) [
  | inl e ↦ rw e (
      ground (
        arith,
        lookup-redact_declared rest k (redact_key arg.name out),
        lookup-redact_key arg.name k out,
        mask-mask (declared_sensitive k rest) (text_eq k arg.name) (lookup k out),
      ))
  | inr e ↦ rw e (lookup-redact_declared rest k out)
]

-- The redacted arguments have the same keys; the value of a key is the redaction mark exactly
-- when the action lists the key as sensitive or declares an argument of that name sensitive, and
-- is unchanged otherwise.
pub lookup-redacted_args :
    (spec : Spec) (args : ValidatedArgs) (k : Text)
    → lookup k (redacted_args spec args)
      ≡ mask (declared_sensitive k spec.args || any (text_eq k) spec.sensitive_args) (lookup k args)
unfolding redacted_args
lookup-redacted_args spec args k =
    lookup-redact_declared spec.args k (redact_keys spec.sensitive_args args)
    ∙ ap (mask (declared_sensitive k spec.args)) (lookup-redact_keys spec.sensitive_args k args)
    ∙ mask-mask (declared_sensitive k spec.args) (any (text_eq k) spec.sensitive_args)
        (lookup k args)
