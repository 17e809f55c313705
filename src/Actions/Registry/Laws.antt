-- ===== src/Actions/Registry/Laws.antt =====
-- What NewRegistry builds, and what ValidateAllowedActions checks.
use mgate_agent.Base.{
  ◌≡◌, ◌≢◌, refl, sym, subst, true, false, ◌↔◌, inl, inr, none, some, List, [], ◌∷◌, ◌++◌, arith,
  if◌then◌else◌, Bool-cases, Result-cases, All, any, any-append, is_some, ok,
}
use mgate_agent.Base.Text.{Text, text_eq, text_eq→eq, text_eq_refl}
use mgate_agent.Base.Maps.{lookup, insert, lookup-insert, has_key}
use mgate_agent.Actions.{ArgSpec, Spec}
use mgate_agent.Actions.Registry.{
  Registry, check_args, add_spec, add_specs, new_registry, check_allowed, validate_allowed_actions,
}

-- an argument specification that a registered action may have
abbrev pub IsListed : List Text → ArgSpec → Type 0
IsListed sensitive arg =
    (text_eq arg.name [] ≡ false)
    × (text_eq arg.type [] ≡ false)
    × (arg.sensitive ≡ true → any (text_eq arg.name) sensitive ≡ true)

pub record IsRegistered (name : Text) (spec : Spec) : Type 0 where
  pub own_name : spec.name ≡ name
  pub named : text_eq spec.name [] ≡ false
  pub builds : is_some spec.build_argv ≡ true
  pub listed : All (IsListed spec.sensitive_args) spec.args

abbrev pub IsRegistry : Registry → Type 0
IsRegistry r = (name : Text) (spec : Spec) → lookup name r ≡ some spec → IsRegistered name spec

-- a key that is in the set stays in it
check_args-keeps :
    (name : Text) (args : List ArgSpec) (keys out : List Text) (k : Text)
    → check_args name args keys ≡ ok out
    → any (text_eq k) keys ≡ true
    → any (text_eq k) out ≡ true
unfolding check_args
check_args-keeps name [] keys out k h m = ground arith
check_args-keeps name (arg ∷ rest) keys out k h m =
    check_args-keeps name rest (if arg.sensitive then keys ++ arg.name ∷ [] else keys) out k
      (ground arith) (ground (arith, any-append (text_eq k) keys (arg.name ∷ [])))

last_key : (keys : List Text) (k : Text) → any (text_eq k) (keys ++ k ∷ []) ≡ true
last_key keys k =
    rw (any-append (text_eq k) keys (k ∷ [])) (unfold any in ground (arith, text_eq_refl k))

check_args-IsListed :
    (name : Text) (args : List ArgSpec) (keys out : List Text)
    → check_args name args keys ≡ ok out
    → All (IsListed out) args
unfolding check_args
check_args-IsListed name [] keys out h = tt
check_args-IsListed name (arg ∷ rest) keys out h =
    let keys' = if arg.sensitive then keys ++ arg.name ∷ [] else keys in
    let more : check_args name rest keys' ≡ ok out = ground arith in
    (
      (
        ground arith,
        ground arith,
        λ s. check_args-keeps name rest keys' out arg.name more (rw s (last_key keys arg.name)),
      ),
      check_args-IsListed name rest keys' out more,
    )

add_spec-inv :
    (spec : Spec) (r r' : Registry)
    → add_spec spec r ≡ ok r'
    → (text_eq spec.name [] ≡ false)
      × (is_some spec.build_argv ≡ true)
      × (lookup spec.name r ≡ none)
      × ((keys : List Text) × (check_args spec.name spec.args spec.sensitive_args ≡ ok keys)
          × (r' ≡ insert spec.name (record spec { sensitive_args = keys }) r))
unfolding add_spec
add_spec-inv spec r r' h =
    elim (Result-cases (check_args spec.name spec.args spec.sensitive_args)) [
      | inl (keys, e) ↦ (ground arith, ground arith, ground arith, (keys, e, ground arith))
      | inr (e, bad) ↦ absurd (ground arith)
    ]

add_spec-IsRegistry :
    (spec : Spec) (r r' : Registry) → add_spec spec r ≡ ok r' → IsRegistry r → IsRegistry r'
add_spec-IsRegistry spec r r' h good name s g =
    let (named, builds, fresh, (keys, checked, e)) = add_spec-inv spec r r' h in
    let stored : Spec = record spec { sensitive_args = keys } in
    elim (Bool-cases (text_eq spec.name name)) [
      | inl same ↦
          let own : s ≡ stored = ground (arith, lookup-insert spec.name name stored r) in
          subst (IsRegistered name) (sym own) (record {
            own_name = text_eq→eq spec.name name same;
            named = named;
            builds = builds;
            listed = check_args-IsListed spec.name spec.args spec.sensitive_args keys checked;
          })
      | inr other ↦ good name s (ground (arith, lookup-insert spec.name name stored r))
    ]

add_specs-IsRegistry :
    (specs : List Spec) (r r' : Registry) → add_specs specs r ≡ ok r' → IsRegistry r → IsRegistry r'
unfolding add_specs
add_specs-IsRegistry [] r r' h good = let same : r ≡ r' = cc in subst IsRegistry same good
add_specs-IsRegistry (spec ∷ rest) r r' h good = elim (Result-cases (add_spec spec r)) [
  | inl (s, e) ↦ add_specs-IsRegistry rest s r' (ground arith) (add_spec-IsRegistry spec r s e good)
  | inr (x, e) ↦ absurd (ground arith)
]

-- an action once registered keeps its place
add_specs-keeps :
    (specs : List Spec) (r r' : Registry) (name : Text) (s : Spec)
    → add_specs specs r ≡ ok r'
    → lookup name r ≡ some s
    → lookup name r' ≡ some s
unfolding add_specs
add_specs-keeps [] r r' name s h g = ground arith
add_specs-keeps (spec ∷ rest) r r' name s h g = elim (Result-cases (add_spec spec r)) [
  | inl (q, e) ↦
      let (named, builds, fresh, (keys, checked, new)) = add_spec-inv spec r q e in
      add_specs-keeps rest q r' name s (ground arith) (
        ground (
          arith,
          lookup-insert spec.name name (record spec { sensitive_args = keys }) r,
          text_eq→eq spec.name name,
        ))
  | inr (x, e) ↦ absurd (ground arith)
]

abbrev pub IsFound : Registry → Spec → Type 0
IsFound r spec =
    (keys : List Text) × (lookup spec.name r ≡ some (record spec { sensitive_args = keys }))

add_specs-IsFound :
    (specs : List Spec) (r r' : Registry) → add_specs specs r ≡ ok r' → All (IsFound r') specs
unfolding add_specs
add_specs-IsFound [] r r' h = tt
add_specs-IsFound (spec ∷ rest) r r' h = elim (Result-cases (add_spec spec r)) [
  | inl (q, e) ↦
      let (named, builds, fresh, (keys, checked, new)) = add_spec-inv spec r q e in
      let more : add_specs rest q ≡ ok r' = ground arith in
      let stored : Spec = record spec { sensitive_args = keys } in
      (
        (
          keys,
          add_specs-keeps rest q r' spec.name stored more
              (ground (arith, lookup-insert spec.name spec.name stored r, text_eq_refl spec.name)),
        ),
        add_specs-IsFound rest q r' more,
      )
  | inr (x, e) ↦ absurd (ground arith)
]

-- A property of specifications that does not look at the set of sensitive keys goes from the
-- specifications that are given to those that are found.
module _ (P : Spec → Type 0)
    (blind : (s : Spec) (keys : List Text) → P s → P (record s { sensitive_args = keys })) where
  pub add_specs_transfer :
      (specs : List Spec) (r r' : Registry)
      → All P specs
      → add_specs specs r ≡ ok r'
      → ((name : Text) (s : Spec) → lookup name r ≡ some s → P s)
      → (name : Text) (s : Spec) → lookup name r' ≡ some s
      → P s
  unfolding add_specs
  add_specs_transfer [] r r' all h good = λ name s g. good name s (ground arith)
  add_specs_transfer (spec ∷ rest) r r' all h good = elim (Result-cases (add_spec spec r)) [
    | inl (q, e) ↦
        let (named, builds, fresh, (keys, checked, new)) = add_spec-inv spec r q e in
        let stored : Spec = record spec { sensitive_args = keys } in
        add_specs_transfer rest q r' all.1 (ground arith) λ name s g.
          elim (Bool-cases (text_eq spec.name name)) [
            | inl same ↦
                let own : s ≡ stored = ground (arith, lookup-insert spec.name name stored r) in
                subst P (sym own) (blind spec keys all.0)
            | inr other ↦ good name s (ground (arith, lookup-insert spec.name name stored r))
          ]
    | inr (x, e) ↦ absurd (ground arith)
  ]

-- When NewRegistry succeeds, every action that was given is found under its name, changed at most
-- in its set of sensitive keys; and every action that is found has that name, which is not empty,
-- has an argv builder, declares only named and typed arguments, and lists each argument that is
-- declared sensitive among its sensitive keys.
pub new_registry-IsRegistry :
    (specs : List Spec) (r : Registry)
    → new_registry specs ≡ ok r
    → All (IsFound r) specs × IsRegistry r
unfolding new_registry
new_registry-IsRegistry specs r h = (
  add_specs-IsFound specs [] r h,
  add_specs-IsRegistry specs [] r h (λ name s g. unfold lookup in cc),
)

check_allowed-All :
    (r : Registry) (l : List Text)
    → check_allowed l r ≡ ok tt
    → All (λ action. has_key action r ≡ true) l
unfolding check_allowed
check_allowed-All r [] h = tt
check_allowed-All r (a ∷ rest) h = (ground arith, check_allowed-All r rest (ground arith))

check_allowed_of_All :
    (r : Registry) (l : List Text)
    → All (λ action. has_key action r ≡ true) l
    → check_allowed l r ≡ ok tt
unfolding check_allowed
check_allowed_of_All r [] h = refl
check_allowed_of_All r (a ∷ rest) h = rw h.0 (check_allowed_of_All r rest h.1)

-- ValidateAllowedActions passes exactly a list that is not empty and holds known actions only.
pub validate_allowed_actions_iff :
    (allowed : List Text) (r : Registry)
    → (validate_allowed_actions allowed r ≡ ok tt)
      ↔ ((allowed ≢ []) × All (λ action. has_key action r ≡ true) allowed)
unfolding validate_allowed_actions
validate_allowed_actions_iff [] r = (λ h. cc, λ p. absurd (p.0 refl))
validate_allowed_actions_iff (a ∷ rest) r =
    (λ h. (cc, check_allowed-All r (a ∷ rest) h), λ p. check_allowed_of_All r (a ∷ rest) p.1)
