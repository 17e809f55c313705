-- ===== src/Actions/Validators/Laws.antt =====
-- What ValidateArgs accepts, and what it hands on.
use mgate_agent.Base.{
  All, ◌≤◌, ◌≡◌, refl, subst, ◌∙◌, ap, true, false, ◌⊎◌, ◌↔◌, inl, inr, Option, none, some, List,
  [], ◌∷◌, arith, Bool-cases, Option-cases, Result-cases, length, In, ok,
}
use mgate_agent.Base.Text.{Text, text_eq, text_eq_iff, text_eq_refl, text_eq→eq}
use mgate_agent.Base.Maps.{lookup, insert, lookup-insert}
use mgate_agent.Protocol.Json.{Fields, end, field, Value, string, get_field}
use mgate_agent.Actions.{ArgSpec, Spec, ValidatedArgs, arg_type_string}
use mgate_agent.Actions.Validators.{
  contains_dangerous_token, match_string, check_pattern, validate_string_arg, declares, check_known,
  validate_value, validate_declared, or_empty, validate_args,
}

-- what the specification of an argument asks of a value
pub record IsAccepted (arg : ArgSpec) (value : Text) : Type 0 where
  pub typed : arg.type ≡ arg_type_string
  pub long_enough : arg.min_len ≤ length value
  pub short_enough : length value ≤ arg.max_len
  pub harmless : contains_dangerous_token value ≡ false
  pub matched : match_string arg.pattern value ≡ some true

validate_string_arg-ok :
    (arg : ArgSpec) (s : Text)
    → validate_string_arg arg s ≡ ok tt
    → (arg.min_len ≤ length s)
      × (length s ≤ arg.max_len)
      × (contains_dangerous_token s ≡ false)
      × (match_string arg.pattern s ≡ some true)
unfolding validate_string_arg check_pattern
validate_string_arg-ok arg s h = ground arith

validate_string_arg_accepts :
    (arg : ArgSpec) (s : Text) → IsAccepted arg s → validate_string_arg arg s ≡ ok tt
unfolding validate_string_arg check_pattern
validate_string_arg_accepts arg s a = ground arith

validate_value-IsAccepted :
    (arg : ArgSpec) (v : Value) (s : Text)
    → validate_value arg v ≡ ok s
    → (v ≡ string s) × IsAccepted arg s
unfolding validate_value
validate_value-IsAccepted arg (string t) s h =
    ground (arith, validate_string_arg-ok arg t, text_eq_iff arg.type arg_type_string)
validate_value-IsAccepted arg v s h = absurd (ground arith)

validate_value_accepts :
    (arg : ArgSpec) (s : Text) → IsAccepted arg s → validate_value arg (string s) ≡ ok s
unfolding validate_value
validate_value_accepts arg s a =
    rw (a.typed, text_eq_refl arg_type_string, validate_string_arg_accepts arg s a)

-- what the specifications ask of one argument in the arguments that came
abbrev pub Fits : Fields → ArgSpec → Type 0
Fits raw arg =
    ((get_field arg.name raw ≡ none) × (arg.required ≡ false))
    ⊎ ((s : Text) × (get_field arg.name raw ≡ some (string s)) × IsAccepted arg s)

-- nothing undeclared, and every declared argument fits
pub record IsAcceptable (spec : Spec) (raw : Fields) : Type 0 where
  pub known : (k : Text) (v : Value) → get_field k raw ≡ some v → declares k spec.args ≡ true
  pub fits : All (Fits raw) spec.args

check_known_sound :
    (args : List ArgSpec) (raw : Fields) (k : Text) (v : Value)
    → check_known args raw ≡ ok tt
    → get_field k raw ≡ some v
    → declares k args ≡ true
unfolding check_known get_field
check_known_sound args end k v h g = cc
check_known_sound args (field n w rest) k v h g =
    ground (arith, text_eq_iff n k, check_known_sound args rest k v)

check_known_complete :
    (args : List ArgSpec) (raw : Fields)
    → ((k : Text) (v : Value) → get_field k raw ≡ some v → declares k args ≡ true)
    → check_known args raw ≡ ok tt
unfolding check_known
check_known_complete args end known = refl
check_known_complete args (field n w rest) known =
    rw (known n w (unfold get_field in rw text_eq_refl)) (
      check_known_complete args rest (λ k v g. elim (Bool-cases (text_eq n k)) [
        | inl e ↦ known k w (unfold get_field in rw e)
        | inr e ↦ known k v (unfold get_field in rw e g)
      ]))

module _ (raw : Fields) where
  -- the two ways past one declared argument
  declared_step :
      (arg : ArgSpec) (rest : List ArgSpec) (v w : ValidatedArgs)
      → validate_declared (arg ∷ rest) raw v ≡ ok w
      → ((get_field arg.name raw ≡ none)
          × (arg.required ≡ false)
          × (validate_declared rest raw v ≡ ok w))
        ⊎ ((s : Text) × (get_field arg.name raw ≡ some (string s))
            × IsAccepted arg s
            × (validate_declared rest raw (insert arg.name s v) ≡ ok w))
  unfolding validate_declared
  declared_step arg rest v w h = elim (Option-cases (get_field arg.name raw)) [
    | inl absent ↦ elim (Bool-cases arg.required) [
      | inl e ↦ absurd (ground arith)
      | inr e ↦ inl (absent, e, rw (absent, e, validate_declared) at h)
    ]
    | inr (value, came) ↦ elim (Result-cases (validate_value arg value)) [
      | inl (s, good) ↦
          let fit = validate_value-IsAccepted arg value s good in
          inr (s, came ∙ ap some fit.0, fit.1, rw (came, good, validate_declared) at h)
      | inr (e, bad) ↦ absurd (ground arith)
    ]
  ]

  declared-Fits :
      (args : List ArgSpec) (v w : ValidatedArgs)
      → validate_declared args raw v ≡ ok w
      → All (Fits raw) args
  declared-Fits [] v w h = tt
  declared-Fits (arg ∷ rest) v w h = elim (declared_step arg rest v w h) [
    | inl (absent, free, more) ↦ (inl (absent, free), declared-Fits rest v w more)
    | inr (s, came, fit, more) ↦ (inr (s, came, fit), declared-Fits rest _ w more)
  ]

  declared_complete :
      (args : List ArgSpec) (v : ValidatedArgs)
      → All (Fits raw) args
      → (w : ValidatedArgs) × (validate_declared args raw v ≡ ok w)
  unfolding validate_declared
  declared_complete [] v h = (v, refl)
  declared_complete (arg ∷ rest) v (inl absent, h) =
      rw (absent.0, absent.1, validate_declared) (declared_complete rest v h)
  declared_complete (arg ∷ rest) v (inr (s, came, fit), h) =
      rw (came, validate_value_accepts arg s fit, validate_declared)
        (declared_complete rest (insert arg.name s v) h)

  -- where a validated value comes from
  abbrev IsFrom : List ArgSpec → ValidatedArgs → Type 0
  IsFrom args v =
      (k s : Text)
      → lookup k v ≡ some s
      → (get_field k raw ≡ some (string s))
        × ((arg : ArgSpec) × In arg args × (arg.name ≡ k) × IsAccepted arg s)

  insert-IsFrom :
      (args : List ArgSpec) (arg : ArgSpec) (s : Text) (v : ValidatedArgs)
      → In arg args
      → get_field arg.name raw ≡ some (string s)
      → IsAccepted arg s
      → IsFrom args v
      → IsFrom args (insert arg.name s v)
  insert-IsFrom args arg s v member came fit from k t g = elim (Bool-cases (text_eq arg.name k)) [
    | inl e ↦
        let same : s ≡ t = ground (arith, lookup-insert arg.name k s v) in
        (
          ground (arith, text_eq→eq arg.name k e, same),
          (arg, member, text_eq→eq arg.name k e, subst (IsAccepted arg) same fit),
        )
    | inr e ↦ from k t (rw (lookup-insert, e) at g)
  ]

  declared-IsFrom :
      (all rest : List ArgSpec) (v w : ValidatedArgs)
      → ((arg : ArgSpec) → In arg rest → In arg all)
      → IsFrom all v
      → validate_declared rest raw v ≡ ok w
      → IsFrom all w
  declared-IsFrom all [] v w sub from h =
      let same : v ≡ w = unfold validate_declared in cc in subst (IsFrom all) same from
  declared-IsFrom all (arg ∷ rest) v w sub from h = elim (declared_step arg rest v w h) [
    | inl (absent, free, more) ↦ declared-IsFrom all rest v w (λ a m. sub a (inr m)) from more
    | inr (s, came, fit, more) ↦
        declared-IsFrom all rest (insert arg.name s v) w (λ a m. sub a (inr m))
          (insert-IsFrom all arg s v (sub arg (inl refl)) came fit from) more
  ]

-- ValidateArgs accepts exactly the arguments that the specification asks for: nothing that is not
-- declared, and for each declared argument either none where it is optional, or a string of
-- allowed length with no dangerous token that matches the pattern.
pub validate_args_iff :
    (spec : Spec) (raw : Option Fields)
    → ((v : ValidatedArgs) × (validate_args spec raw ≡ ok v)) ↔ IsAcceptable spec (or_empty raw)
unfolding validate_args
validate_args_iff spec raw = (
  λ p. record {
    known = λ k v. check_known_sound args fields k v (inversion p.0 p.1).0;
    fits = declared-Fits fields args [] p.0 (inversion p.0 p.1).1;
  },
  λ a. rw (check_known_complete args fields a.known) (declared_complete fields args [] a.fits),
)
  where
    open spec use {args}

    fields : Fields
    fields = or_empty raw

    inversion :
        (v : ValidatedArgs)
        → validate_args spec raw ≡ ok v
        → (check_known args fields ≡ ok tt) × (validate_declared args fields [] ≡ ok v)
    inversion v h = ground arith

-- Every value that ValidateArgs hands on is the string that came under the same name, and a
-- declared argument of that name accepts it: its length is in range, it holds no dangerous token,
-- and it matches the pattern.
pub validate_args-IsFrom :
    (spec : Spec) (raw : Option Fields) (v : ValidatedArgs) (k s : Text)
    → validate_args spec raw ≡ ok v
    → lookup k v ≡ some s
    → (get_field k (or_empty raw) ≡ some (string s))
      × ((arg : ArgSpec) × In arg spec.args × (arg.name ≡ k) × IsAccepted arg s)
unfolding validate_args lookup
validate_args-IsFrom spec raw v k s h =
    declared-IsFrom (or_empty raw) spec.args spec.args [] v (λ a m. m) (λ j t g. cc) (ground arith)
      k s
