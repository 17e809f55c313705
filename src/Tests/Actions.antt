-- ===== src/Tests/Actions.antt =====
-- Arguments, registry and redaction at concrete inputs.
use mgate_agent.Base.{
  ◌≡◌, ◌↔◌, refl, true, Option, some, [], ◌∷◌, ◌++◌, All, In, ok, all, any, length,
}
use mgate_agent.Base.Text.{Text, codes, text_eq, contains, contains_any}
use mgate_agent.Base.Maps.{lookup, insert}
use mgate_agent.Protocol.Json.{Value, object, Fields, end, field, string, get_field}
use mgate_agent.Audit.Redact.{redact, split_after, redact_text}
use mgate_agent.Audit.Redact.Values.{clean, redact-clean}
use mgate_agent.Audit.Redact.Lines.{is_insensitive, redact_text-lines}
use mgate_agent.Actions.{ArgSpec, ValidatedArgs, gateway_start}
use mgate_agent.Actions.Registry.{Registry, new_registry}
use mgate_agent.Actions.Registry.Laws.{IsFound, IsRegistry, new_registry-IsRegistry}
use mgate_agent.Actions.Validators.{validate_args, or_empty}
use mgate_agent.Actions.Validators.Laws.{
  IsAcceptable, IsAccepted, validate_args_iff, validate_args-IsFrom,
}

abbrev raw : Option Fields
raw = some (field (codes "country") (string (codes "CN")) end)

validate_args_iff_example :
    ((v : ValidatedArgs) × (validate_args gateway_start raw ≡ ok v))
    ↔ IsAcceptable gateway_start (or_empty raw)
validate_args_iff_example = validate_args_iff gateway_start raw

abbrev checked : ValidatedArgs
checked = (codes "country", codes "CN") ∷ []

validate_args-IsFrom_example :
    (get_field (codes "country") (or_empty raw) ≡ some (string (codes "CN")))
    × ((arg : ArgSpec) × In arg gateway_start.args
        × (arg.name ≡ codes "country")
        × IsAccepted arg (codes "CN"))
unfolding validate_args get_field lookup text_eq contains_any any contains all insert
validate_args-IsFrom_example =
    validate_args-IsFrom gateway_start raw checked (codes "country") (codes "CN") refl refl

abbrev secret_args : ValidatedArgs
secret_args = (codes "ssid", codes "home") ∷ (codes "psk", codes "12345678") ∷ []

abbrev one_action : Registry
one_action = (codes "gateway.start", gateway_start) ∷ []

new_registry-IsRegistry_example :
    All (IsFound one_action) (gateway_start ∷ []) × IsRegistry one_action
unfolding new_registry insert lookup text_eq
new_registry-IsRegistry_example = new_registry-IsRegistry (gateway_start ∷ []) one_action refl

abbrev secret_document : Value
secret_document =
    object (field (codes "wifi") (object (field (codes "PSK") (string (codes "x")) end)) end)

redact-clean_example : clean (redact secret_document) ≡ true
redact-clean_example = redact-clean secret_document

abbrev log_text : Text
log_text = codes "ok" ++ 10 ∷ codes "Password=1"

redact_text-lines_example :
    (all is_insensitive (split_after (redact_text log_text)) ≡ true)
    × (length (split_after (redact_text log_text)) ≡ length (split_after log_text))
redact_text-lines_example = redact_text-lines log_text
