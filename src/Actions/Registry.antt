-- ===== src/Actions/Registry.antt =====
-- internal/actions/registry.go: the table of known actions.
pub mod Laws
use mgate_agent.Base.{
  Bool, true, false, Option, none, some, List, [], ◌∷◌, ◌++◌, ◌||◌, if◌then◌else◌, is_some, Result,
  ok, err, ◌>>=◌, ◌>>◌, reject_if, map,
}
use mgate_agent.Base.Text.{Text, text_eq}
use mgate_agent.Base.Maps.{Map, lookup, insert, has_key}
use mgate_agent.Actions.{
  ArgSpec, Spec, SpecError, invalid_name, no_argv_builder, duplicate_action, invalid_argument_spec,
  default_specs,
}

abbrev pub Registry : Type 0
Registry = Map Spec

-- the loop over spec.Args: the names of the sensitive arguments join the set
unfoldable pub check_args : Text → List ArgSpec → List Text → Result SpecError (List Text)
check_args name [] sensitive = ok sensitive
check_args name (arg ∷ rest) sensitive =
    let more =
      check_args name rest (if arg.sensitive then sensitive ++ arg.name ∷ [] else sensitive) in
    if text_eq arg.name [] || text_eq arg.type [] then err (invalid_argument_spec name) else more

-- one round of the loop over the specs
unfoldable pub add_spec : Spec → Registry → Result SpecError Registry
unfolding check_args
add_spec spec specs = do
  reject_if (text_eq spec.name []) invalid_name
  reject_if (elim spec.build_argv [ none ↦ true | some _ ↦ false ]) (no_argv_builder spec.name)
  reject_if (has_key spec.name specs) (duplicate_action spec.name)
  sensitive ← check_args spec.name spec.args spec.sensitive_args
  ok (insert spec.name (record spec { sensitive_args = sensitive }) specs)

unfoldable pub add_specs : List Spec → Registry → Result SpecError Registry
unfolding add_spec
add_specs [] specs = ok specs
add_specs (spec ∷ rest) specs = do specs' ← add_spec spec specs; add_specs rest specs'

-- NewRegistry
unfoldable pub new_registry : List Spec → Result SpecError Registry
unfolding add_specs
new_registry specs = add_specs specs []

-- NewDefaultRegistry
unfoldable pub new_default_registry : Result SpecError Registry
unfolding new_registry default_specs
new_default_registry = new_registry default_specs

-- (*Registry).Get
abbrev pub get : Text → Registry → Option Spec
get name r = lookup name r

-- (*Registry).ValidateAllowedActions: the first action that is unknown is the error
pub data AllowError : Type 0 where
  empty_allowed : AllowError
  unknown_allowed : Text → AllowError

unfoldable pub check_allowed : List Text → Registry → Result AllowError (Unit {0})
check_allowed [] r = ok tt
check_allowed (action ∷ rest) r =
    if has_key action r then check_allowed rest r else err (unknown_allowed action)

unfoldable pub validate_allowed_actions : List Text → Registry → Result AllowError (Unit {0})
unfolding check_allowed
validate_allowed_actions [] r = err empty_allowed
validate_allowed_actions (action ∷ rest) r = check_allowed (action ∷ rest) r

-- (*Registry).Names
unfoldable pub names : Registry → List Text
names r = map (λ e. e.0) r
