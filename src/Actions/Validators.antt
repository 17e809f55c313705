-- ===== src/Actions/Validators.antt =====
-- internal/actions/validators.go: the checks on the arguments of a command.
pub mod Laws
pub mod Injection
use mgate_agent.Base.{
  ℕ, zero, suc, ◌-◌, Bool, true, false, not, Option, none, some, List, [], ◌∷◌, ◌||◌, ◌&&◌, ltb,
  leb, if◌then◌else◌, is_some, any, all, length, Result, ok, err, ◌>>=◌, ◌>>◌, reject_if,
}
use mgate_agent.Base.Text.{Text, codes, text_eq, contains, contains_any}
use mgate_agent.Base.Maps.{Map, insert}
use mgate_agent.Protocol.Json.{Fields, end, field, Value, string, get_field, as_string}
use mgate_agent.Actions.{
  Pattern, unset, class_run, malformed, ArgSpec, Spec, ValidatedArgs, arg_type_string,
}
use mgate_agent.Actions.Registry.{Registry, get}

-- why an argument is refused; each names the argument
pub data ArgError : Type 0 where
  unknown_argument missing_argument not_a_string bad_length unsafe_characters : Text → ArgError
  bad_pattern wrong_format unsupported_type : Text → ArgError

abbrev pub dangerous_tokens : List Text
dangerous_tokens = codes ".." ∷ codes "$(" ∷ codes ";" ∷ codes "&&" ∷ codes "||" ∷ []

-- NUL, CR, LF and the backquote
abbrev pub dangerous_bytes : Text
dangerous_bytes = 0 ∷ 13 ∷ 10 ∷ 96 ∷ []

unfoldable pub contains_dangerous_token : Text → Bool
contains_dangerous_token value =
    if contains_any value dangerous_bytes then true else any (contains value) dangerous_tokens

unfoldable pub in_ranges : ℕ → List (ℕ × ℕ) → Bool
in_ranges c [] = false
in_ranges c ((lo, hi) ∷ rest) = (leb lo c && leb c hi) || in_ranges c rest

-- regexp.MatchString on a run of one class; `none` is the error of a pattern that does not compile
unfoldable pub match_string : Pattern → Text → Option Bool
unfolding in_ranges
match_string unset value = some true
match_string (class_run ranges lo hi) value =
    some (leb lo (length value) && leb (length value) hi && all (λ c. in_ranges c ranges) value)
match_string malformed value = none

unfoldable pub check_pattern : ArgSpec → Text → Result ArgError (Unit {0})
unfolding match_string
check_pattern spec value = elim (match_string spec.pattern value) [
  | none ↦ err (bad_pattern spec.name)
  | some matched ↦ reject_if (not matched) (wrong_format spec.name)
]

-- validateStringArg
unfoldable pub validate_string_arg : ArgSpec → Text → Result ArgError (Unit {0})
unfolding check_pattern contains_dangerous_token
validate_string_arg spec value = do
  reject_if (ltb (length value) spec.min_len || ltb spec.max_len (length value))
      (bad_length spec.name)
  reject_if (contains_dangerous_token value) (unsafe_characters spec.name)
  check_pattern spec value

unfoldable pub declares : Text → List ArgSpec → Bool
declares name [] = false
declares name (arg ∷ rest) = text_eq arg.name name || declares name rest

-- the first loop of ValidateArgs: every argument that came is declared
unfoldable pub check_known : List ArgSpec → Fields → Result ArgError (Unit {0})
unfolding declares
check_known args end = ok tt
check_known args (field name v rest) =
    let more = check_known args rest in
    if declares name args then more else err (unknown_argument name)

-- the switch on arg.Type, for an argument that came
unfoldable pub validate_value : ArgSpec → Value → Result ArgError Text
unfolding validate_string_arg
validate_value arg value =
    if text_eq arg.type arg_type_string
    then elim (as_string value) [
      | none ↦ err (not_a_string arg.name)
      | some s ↦ do validate_string_arg arg s; ok s
    ]
    else err (unsupported_type arg.name)

-- the second loop: the declared arguments in order
unfoldable pub validate_declared :
    List ArgSpec → Fields → ValidatedArgs → Result ArgError ValidatedArgs
unfolding validate_value
validate_declared [] raw validated = ok validated
validate_declared (arg ∷ rest) raw validated = elim (get_field arg.name raw) [
  | none ↦
      if arg.required then err (missing_argument arg.name) else validate_declared rest raw validated
  | some value ↦ do
    s ← validate_value arg value
    validate_declared rest raw (insert arg.name s validated)
]

-- raw == nil stands for no arguments
abbrev pub or_empty : Option Fields → Fields
or_empty none = end
or_empty (some raw) = raw

-- ValidateArgs
unfoldable pub validate_args : Spec → Option Fields → Result ArgError ValidatedArgs
unfolding check_known validate_declared
validate_args spec raw = do
  check_known spec.args (or_empty raw)
  validate_declared spec.args (or_empty raw) []

pub data ValidateError : Type 0 where
  unknown_action : Text → ValidateError
  bad_argument : ArgError → ValidateError

-- (*Registry).Validate
unfoldable pub validate :
    Registry → Text → Option Fields → Result ValidateError (Spec × ValidatedArgs)
unfolding validate_args
validate r name raw = elim (get name r) [
  | none ↦ err (unknown_action name)
  | some spec ↦ elim (validate_args spec raw) [
    | err e ↦ err (bad_argument e)
    | ok validated ↦ ok (spec, validated)
  ]
]
