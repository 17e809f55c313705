-- ===== src/Actions/Validators/Injection.antt =====
-- No argument vector of a built-in action carries a dangerous token.
use mgate_agent.Base.{
  ◌≡◌, refl, Bool, true, false, not, inl, inr, Option, some, List, [], ◌∷◌, Option-cases, All, all,
  all-append, any, ◌++◌, ok,
}
use mgate_agent.Base.Text.{Text, contains, contains_any, codes}
use mgate_agent.Base.Maps.{lookup}
use mgate_agent.Protocol.Json.{Fields}
use mgate_agent.Actions.{
  Spec, ValidatedArgs, arg_or_empty, argv, default_specs, gateway_start, wlan_switch_safe,
  gateway_start_argv, wlan_switch_argv,
}
use mgate_agent.Actions.Registry.{Registry, new_default_registry}
use mgate_agent.Actions.Validators.{contains_dangerous_token, validate_args}
use mgate_agent.Actions.Registry.Laws.{add_specs_transfer}
use mgate_agent.Actions.Validators.Laws.{validate_args-IsFrom}

abbrev pub is_harmless : Text → Bool
is_harmless value = not (contains_dangerous_token value)

harmless_arg :
    (spec : Spec) (raw : Option Fields) (v : ValidatedArgs) (k : Text)
    → validate_args spec raw ≡ ok v
    → contains_dangerous_token (arg_or_empty k v) ≡ false
unfolding arg_or_empty
harmless_arg spec raw v k h = elim (Option-cases (lookup k v)) [
  | inl e ↦ rw (e, arg_or_empty) (unfold contains_dangerous_token contains_any contains any in refl)
  | inr (s, e) ↦
      let (came, (arg, member, name, accepted)) = validate_args-IsFrom spec raw v k s h e in
      rw (e, arg_or_empty) accepted.harmless
]

abbrev IsHarmlessSpec : Spec → Type 0
IsHarmlessSpec spec =
    (raw : Option Fields) (v : ValidatedArgs) (words : List Text)
    → validate_args spec raw ≡ ok v
    → argv spec v ≡ ok words
    → all is_harmless words ≡ true

fixed_harmless :
    (spec : Spec) (fixed : List Text)
    → ((v : ValidatedArgs) → argv spec v ≡ ok fixed)
    → all is_harmless fixed ≡ true
    → IsHarmlessSpec spec
fixed_harmless spec fixed same good raw v words h a =
    let e : words ≡ fixed = cc (same v) in rw e good

-- the fixed words of the two argument vectors that carry arguments
harmless_words :
    (all is_harmless (codes "gateway" ∷ codes "start" ∷ codes "--country" ∷ []) ≡ true)
    × (all is_harmless (codes "wlan" ∷ codes "switch-safe" ∷ codes "--ssid" ∷ []) ≡ true)
    × (all is_harmless (codes "--psk" ∷ []) ≡ true)
    × (all is_harmless (codes "--json" ∷ []) ≡ true)
unfolding all contains_dangerous_token contains_any contains any
harmless_words = (refl, refl, refl, refl)

all_one : (w : Text) → contains_dangerous_token w ≡ false → all is_harmless (w ∷ []) ≡ true
unfolding all
all_one w h = rw h

all_both :
    (xs ys : List Text)
    → all is_harmless xs ≡ true
    → all is_harmless ys ≡ true
    → all is_harmless (xs ++ ys) ≡ true
all_both xs ys hx hy = rw (all-append is_harmless xs ys, hx, hy)

gateway_start-IsHarmlessSpec : IsHarmlessSpec gateway_start
unfolding argv gateway_start_argv
gateway_start-IsHarmlessSpec raw v words h a =
    let e : words ≡ gateway_start_argv v = cc in
    rw e (
      all_both (codes "gateway" ∷ codes "start" ∷ codes "--country" ∷ []) _ harmless_words.0
        (all_one _ (harmless_arg gateway_start raw v (codes "country") h)))

wlan_switch_safe-IsHarmlessSpec : IsHarmlessSpec wlan_switch_safe
unfolding argv wlan_switch_argv
wlan_switch_safe-IsHarmlessSpec raw v words h a =
    let e : words ≡ wlan_switch_argv v = cc in
    let arg = λ (k : Text). all_one _ (harmless_arg wlan_switch_safe raw v k h) in
    rw e (
      all_both (codes "wlan" ∷ codes "switch-safe" ∷ codes "--ssid" ∷ []) _ harmless_words.1 (
        all_both (arg_or_empty (codes "ssid") v ∷ []) _ (arg (codes "ssid")) (
          all_both (codes "--psk" ∷ []) _ harmless_words.2 (
            all_both (arg_or_empty (codes "psk") v ∷ []) (codes "--json" ∷ []) (arg (codes "psk"))
              harmless_words.3))))

default_harmless : All IsHarmlessSpec default_specs
unfolding default_specs argv all contains_dangerous_token contains_any contains any
default_harmless = (
  fixed_harmless _ _ (λ v. refl) refl,
  (
    fixed_harmless _ _ (λ v. refl) refl,
    (
      gateway_start-IsHarmlessSpec,
      (
        fixed_harmless _ _ (λ v. refl) refl,
        (fixed_harmless _ _ (λ v. refl) refl, (wlan_switch_safe-IsHarmlessSpec, tt)),
      ),
    ),
  ),
)

IsHarmlessSpec-blind :
    (s : Spec) (keys : List Text)
    → IsHarmlessSpec s
    → IsHarmlessSpec (record s { sensitive_args = keys })
unfolding validate_args argv
IsHarmlessSpec-blind s keys good raw v words h a = good raw v words h a

-- Whatever arguments the cloud sends, if the arguments of a built-in action are validated, no word
-- of the argument vector that is built from them holds a dangerous token.
pub argv_harmless :
    (r : Registry) (name : Text) (spec : Spec) (raw : Option Fields) (v : ValidatedArgs)
    (words : List Text)
    → new_default_registry ≡ ok r
    → lookup name r ≡ some spec
    → validate_args spec raw ≡ ok v
    → argv spec v ≡ ok words
    → all is_harmless words ≡ true
unfolding new_default_registry
argv_harmless r name spec raw v words built found =
    add_specs_transfer IsHarmlessSpec IsHarmlessSpec-blind default_specs [] r default_harmless built
      (λ n s g. unfold lookup in cc) name spec found raw v words
