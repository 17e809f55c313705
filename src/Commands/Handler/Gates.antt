-- ===== src/Commands/Handler/Gates.antt =====
-- Which commands run, and how the others are rejected.
use mgate_agent.Base.{
  ℕ, ◌≡◌, refl, ap, ◌∙◌, Bool, true, false, ◌⊎◌, inl, inr, none, some, [], ◌∷◌, ◌++◌, any,
  Bool-cases, Option-cases, Result-cases, ok, err,
}
use mgate_agent.Base.Int.{ℤ, negsuc}
use mgate_agent.Base.Text.{Text, text_eq}
use mgate_agent.Base.Maps.{lookup}
use mgate_agent.Protocol.{CommandPayload, ResultPayload, rejected}
use mgate_agent.Actions.{Spec, ValidatedArgs}
use mgate_agent.Actions.Validators.{validate_args}
use mgate_agent.Commands.Dedupe.{reserve}
use mgate_agent.Runner.{Request}
use mgate_agent.Commands.Handler.{
  Handler, World, Rejection, bad_command_id, duplicate, no_such_action, not_allowed, bad_args,
  bad_timeout, is_command_id, resolve_timeout, code_of, admit, request_of, reject, execute,
  dispatch, receive, handle,
}

-- what the checks after the reservation find
pub record IsAdmitted (h : Handler) (cmd : CommandPayload) (spec : Spec) (args : ValidatedArgs)
    (limit : ℤ) : Type 0 where
  pub known : lookup cmd.action h.registry ≡ some spec
  pub allowed : any (text_eq cmd.action) h.allow_actions ≡ true
  pub valid : validate_args spec cmd.args ≡ ok args
  pub timely : resolve_timeout spec cmd.timeout_sec ≡ ok limit

-- what the checks after the reservation find wrong
abbrev pub Fails : Handler → CommandPayload → Rejection → Type 0
Fails h cmd bad_command_id = ⊥
Fails h cmd duplicate = ⊥
Fails h cmd (no_such_action a) = (a ≡ cmd.action) × (lookup cmd.action h.registry ≡ none)
Fails h cmd (not_allowed a) =
    (a ≡ cmd.action)
    × (any (text_eq cmd.action) h.allow_actions ≡ false)
    × ((spec : Spec) × (lookup cmd.action h.registry ≡ some spec))
Fails h cmd (bad_args e) =
    (any (text_eq cmd.action) h.allow_actions ≡ true)
    × ((spec : Spec) × (lookup cmd.action h.registry ≡ some spec)
        × (validate_args spec cmd.args ≡ err e))
Fails h cmd (bad_timeout e) =
    (any (text_eq cmd.action) h.allow_actions ≡ true)
    × ((spec : Spec) × (args : ValidatedArgs) × (lookup cmd.action h.registry ≡ some spec)
        × (validate_args spec cmd.args ≡ ok args)
        × (resolve_timeout spec cmd.timeout_sec ≡ err e))

abbrev Admits : Handler → CommandPayload → Type 0
Admits h cmd =
    (spec : Spec) × (args : ValidatedArgs) × (limit : ℤ) × (admit h cmd ≡ ok (spec, args, limit))
    × IsAdmitted h cmd spec args limit

abbrev Refuses : Handler → CommandPayload → Type 0
Refuses h cmd = (why : Rejection) × (admit h cmd ≡ err why) × Fails h cmd why

module _ (h : Handler) (cmd : CommandPayload) (spec : Spec)
    (known : lookup cmd.action h.registry ≡ some spec) where
  admit_allowed : any (text_eq cmd.action) h.allow_actions ≡ true → Admits h cmd ⊎ Refuses h cmd
  admit_allowed allowed = elim (Result-cases (validate_args spec cmd.args)) [
    | inr (e, bad) ↦
        inr (
          bad_args e,
          unfold admit in rw (known, allowed, bad, admit),
          (allowed, (spec, known, bad)),
        )
    | inl (args, good) ↦ elim (Result-cases (resolve_timeout spec cmd.timeout_sec)) [
      | inr (e, bad) ↦ inr (
        bad_timeout e,
        unfold admit in rw (known, allowed, good, bad, admit),
        (allowed, (spec, args, known, good, bad)),
      )
      | inl (limit, timely) ↦ inl (
        spec,
        args,
        limit,
        unfold admit in rw (known, allowed, good, timely, admit),
        record { known = known; allowed = allowed; valid = good; timely = timely },
      )
    ]
  ]

-- the checks after the reservation admit the command, or name the first that fails
pub admit_cases : (h : Handler) (cmd : CommandPayload) → Admits h cmd ⊎ Refuses h cmd
admit_cases h cmd = elim (Option-cases (lookup cmd.action h.registry)) [
  | inl e ↦ inr (no_such_action cmd.action, unfold admit in rw (e, admit), (refl, e))
  | inr (spec, known) ↦ elim (Bool-cases (any (text_eq cmd.action) h.allow_actions)) [
    | inl allowed ↦ admit_allowed h cmd spec known allowed
    | inr e ↦
        inr (not_allowed cmd.action, unfold admit in rw (known, e, admit), (refl, e, (spec, known)))
  ]
]

abbrev pub fresh_in : CommandPayload → (ℕ → ℕ) → World → Bool
fresh_in cmd clock w = (reserve (clock 1) cmd.command_id w.dedupe).1

module _ (describe : Rejection → Text) (runner : Request → ResultPayload) where
  -- a rejection: nothing runs, and the result and the reason say why
  pub record IsRejected (why : Rejection) (w : World) (out : World × ResultPayload) : Type 0 where
    pub nothing_ran : out.0.executed ≡ w.executed
    pub rejected_state : out.1.state ≡ rejected
    pub code : out.1.error_code ≡ code_of why
    pub exit : out.1.exit_code ≡ negsuc 0
    pub message : out.1.stderr ≡ describe why

  -- an execution: one request more reaches the runner, and its answer is the result
  pub record IsExecuted (req : Request) (w : World) (out : World × ResultPayload) : Type 0 where
    pub ran : out.0.executed ≡ w.executed ++ req ∷ []
    pub answer : out.1 ≡ runner req

  reject-IsRejected :
      (cmd : CommandPayload) (why : Rejection) (clock : ℕ → ℕ) (w : World)
      → IsRejected why w (reject describe runner cmd why clock w)
  unfolding reject
  reject-IsRejected cmd why clock w = record {
    nothing_ran = refl;
    rejected_state = refl;
    code = refl;
    exit = refl;
    message = refl;
  }

  execute-IsExecuted :
      (h : Handler) (cmd : CommandPayload) (spec : Spec) (args : ValidatedArgs) (limit : ℤ)
      (clock : ℕ → ℕ) (w : World)
      → IsExecuted
          (request_of h cmd spec args limit)
          w
          (execute describe runner h cmd spec args limit clock w)
  unfolding execute
  execute-IsExecuted h cmd spec args limit clock w = record { ran = refl; answer = refl }

  receive-executed :
      (cmd : CommandPayload) (clock : ℕ → ℕ) (w : World)
      → ((receive describe runner cmd clock w).executed ≡ w.executed)
        × ((receive describe runner cmd clock w).dedupe ≡ w.dedupe)
  unfolding receive
  receive-executed cmd clock w = (refl, refl)

  -- the world in which a reserved command goes on
  abbrev pub reserved_world : CommandPayload → (ℕ → ℕ) → World → World
  reserved_world cmd clock w =
      let received = receive describe runner cmd clock w in
      record received { dedupe = (reserve (clock 1) cmd.command_id received.dedupe).0 }

  pub handle_bad_id :
      (h : Handler) (cmd : CommandPayload) (clock : ℕ → ℕ) (w : World)
      → is_command_id cmd.command_id ≡ false
      → handle describe runner h cmd clock w
        ≡ reject describe runner cmd bad_command_id clock (receive describe runner cmd clock w)
  unfolding handle
  handle_bad_id h cmd clock w e = rw e

  pub handle_duplicate :
      (h : Handler) (cmd : CommandPayload) (clock : ℕ → ℕ) (w : World)
      → is_command_id cmd.command_id ≡ true
      → fresh_in cmd clock w ≡ false
      → handle describe runner h cmd clock w
        ≡ reject describe runner cmd duplicate clock (reserved_world cmd clock w)
  unfolding handle receive
  handle_duplicate h cmd clock w e f = rw (e, f)

  pub handle_fresh :
      (h : Handler) (cmd : CommandPayload) (clock : ℕ → ℕ) (w : World)
      → is_command_id cmd.command_id ≡ true
      → fresh_in cmd clock w ≡ true
      → handle describe runner h cmd clock w
        ≡ dispatch describe runner h cmd clock (reserved_world cmd clock w)
  unfolding handle receive
  handle_fresh h cmd clock w e f = rw (e, f)

  reserved_world-executed :
      (cmd : CommandPayload) (clock : ℕ → ℕ) (w : World)
      → (reserved_world cmd clock w).executed ≡ w.executed
  unfolding receive
  reserved_world-executed cmd clock w = refl

  IsRejected-from :
      (why : Rejection) (v w : World) (out : World × ResultPayload)
      → v.executed ≡ w.executed
      → IsRejected why v out
      → IsRejected why w out
  IsRejected-from why v w out e r = record {
    nothing_ran = r.nothing_ran ∙ e;
    rejected_state = r.rejected_state;
    code = r.code;
    exit = r.exit;
    message = r.message;
  }

  -- the four ways of a command
  abbrev pub Outcome : Handler → CommandPayload → (ℕ → ℕ) → World → Type 0
  Outcome h cmd clock w =
      let out = handle describe runner h cmd clock w in
      ((is_command_id cmd.command_id ≡ false) × IsRejected bad_command_id w out)
      ⊎ (((is_command_id cmd.command_id ≡ true)
            × (fresh_in cmd clock w ≡ false)
            × IsRejected duplicate w out)
          ⊎ (((is_command_id cmd.command_id ≡ true)
                × (fresh_in cmd clock w ≡ true)
                × ((why : Rejection) × Fails h cmd why × IsRejected why w out))
              ⊎ ((is_command_id cmd.command_id ≡ true)
                  × (fresh_in cmd clock w ≡ true)
                  × ((spec : Spec) × (args : ValidatedArgs) × (limit : ℤ) × IsAdmitted h cmd spec
                        args limit
                      × IsExecuted (request_of h cmd spec args limit) w out))))

  dispatch-outcome :
      (h : Handler) (cmd : CommandPayload) (clock : ℕ → ℕ) (w v : World)
      → v.executed ≡ w.executed
      → let out = dispatch describe runner h cmd clock v in
        ((why : Rejection) × Fails h cmd why × IsRejected why w out)
        ⊎ ((spec : Spec) × (args : ValidatedArgs) × (limit : ℤ) × IsAdmitted h cmd spec args limit
            × IsExecuted (request_of h cmd spec args limit) w out)
  dispatch-outcome h cmd clock w v e = elim (admit_cases h cmd) [
    | inr (why, refused, fails) ↦ inl (
      why,
      fails,
      unfold dispatch in
          rw (refused, dispatch) (IsRejected-from why v w _ e (reject-IsRejected cmd why clock v)),
    )
    | inl (spec, args, limit, passed, admitted) ↦ inr (
      spec,
      args,
      limit,
      admitted,
      unfold dispatch in
          rw (passed, dispatch)
            (record {
              ran = ap (λ l. l ++ request_of h cmd spec args limit ∷ []) e;
              answer = (execute-IsExecuted h cmd spec args limit clock v).answer;
            }),
    )
  ]

  -- Every command takes one of four ways: its id is malformed; its id is well formed and
  -- was reserved before; a later check fails, the first that does being the reason; or all checks
  -- pass, and then one request for it, with the registered specification, the validated arguments
  -- and the resolved time limit, reaches the runner. In the first three nothing reaches the runner,
  -- and the result has the state rejected, exit code -1, and the code and message of the reason.
  pub handle-Outcome :
      (h : Handler) (cmd : CommandPayload) (clock : ℕ → ℕ) (w : World) → Outcome h cmd clock w
  handle-Outcome h cmd clock w = elim (Bool-cases (is_command_id cmd.command_id)) [
    | inr e ↦ inl (
      e,
      rw (handle_bad_id h cmd clock w e) (
          IsRejected-from bad_command_id (receive describe runner cmd clock w) w _
            (receive-executed cmd clock w).0
            (reject-IsRejected cmd bad_command_id clock (receive describe runner cmd clock w))),
    )
    | inl e ↦ elim (Bool-cases (fresh_in cmd clock w)) [
      | inr f ↦ inr (
          inl (
            e,
            f,
            rw (handle_duplicate h cmd clock w e f) (
                IsRejected-from duplicate (reserved_world cmd clock w) w _
                  (reserved_world-executed cmd clock w)
                  (reject-IsRejected cmd duplicate clock (reserved_world cmd clock w))),
          ))
      | inl f ↦
          rw (handle_fresh h cmd clock w e f)
            (elim (dispatch-outcome h cmd clock w (reserved_world cmd clock w)
              (reserved_world-executed cmd clock w)) [
                | inl refused ↦ inr (inr (inl (e, f, refused)))
                | inr ran ↦ inr (inr (inr (e, f, ran)))
              ])
    ]
  ]
