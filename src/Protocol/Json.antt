-- ===== src/Protocol/Json.antt =====
-- Decoded JSON as Go's `any`: what json.Unmarshal makes of a document.
use mgate_agent.Base.{Bool, Option, none, some, if◌then◌else◌}
use mgate_agent.Base.Text.{Text, text_eq}

-- `Items` is []any and `Fields` is map[string]any.
mutual
  pub data Value : Type 0 where
    null : Value
    boolean : Bool → Value
    number : Text → Value
    string : Text → Value
    array : Items → Value
    object : Fields → Value

  pub data Items : Type 0 where
    nil : Items
    cons : Value → Items → Items

  pub data Fields : Type 0 where
    end : Fields
    field : Text → Value → Fields → Fields

-- m[key]
unfoldable pub get_field : Text → Fields → Option Value
get_field key end = none
get_field key (field k v fs) = if text_eq k key then some v else get_field key fs

-- m[key] = value for a key that may be there
unfoldable pub set_field : Text → Value → Fields → Fields
set_field key value end = field key value end
set_field key value (field k v fs) =
    if text_eq k key then field k value fs else field k v (set_field key value fs)

-- value.(string)
abbrev pub as_string : Value → Option Text
as_string (string s) = some s
as_string _ = none

-- value.(map[string]any)
abbrev pub as_object : Value → Option Fields
as_object (object fs) = some fs
as_object _ = none
