-- ===== src/Commands/Handler/Safety.antt =====
-- What holds of every request that reaches the runner, over any run of the handler.
use mgate_agent.Base.{
  ℕ, ◌≡◌, ◌≤◌, ◌<◌, refl, subst, sym, Bool, true, ◌⊎◌, inl, inr, zero, suc, Option, some, List, [],
  ◌∷◌, arith, All, All-append, all, any, ok, err, Result-cases,
}
use mgate_agent.Base.Int.{ℤ}
use mgate_agent.Base.Text.{Text, text_eq}
use mgate_agent.Base.Maps.{lookup}
use mgate_agent.Protocol.{CommandPayload, ResultPayload}
use mgate_agent.Protocol.Json.{Fields}
use mgate_agent.Actions.{Spec, ValidatedArgs, argv}
use mgate_agent.Actions.Registry.{new_default_registry}
use mgate_agent.Actions.Validators.{validate_args}
use mgate_agent.Actions.Validators.Injection.{is_harmless, argv_harmless}
use mgate_agent.Runner.{Request, effective_timeout}
use mgate_agent.Commands.Handler.{Handler, World, Rejection, is_command_id, request_of, handle}
use mgate_agent.Commands.Handler.Gates.{handle-Outcome, IsAdmitted}
use mgate_agent.Commands.Handler.Timeout.{effective_timeout_bounds}

-- the words of a request's argument vector are free of dangerous tokens
unfoldable pub has_harmless_argv : Request → Bool
has_harmless_argv req = elim (argv req.spec req.args) [
  | err _ ↦ true
  | ok words ↦ all is_harmless words
]

-- The request is for a well-formed id, and for an action that is registered under a name that the
-- device allows; its arguments were validated by the action; the program is the configured one.
pub record IsAuthorised (h : Handler) (req : Request) : Type 0 where
  pub identified : is_command_id req.command_id ≡ true
  pub registered :
      (name : Text) × (lookup name h.registry ≡ some req.spec)
      × (any (text_eq name) h.allow_actions ≡ true)
  pub validated : (raw : Option Fields) × (validate_args req.spec raw ≡ ok req.args)
  pub program : req.mgate_path ≡ h.mgate_path
  pub timely :
      (req.spec.timeout ≡ 0) ⊎ (effective_timeout req.timeout req.spec.timeout ≤ req.spec.timeout)

admitted-timely : (t n : ℕ) → (0 < t → n ≤ t) → (t ≡ 0) ⊎ (n ≤ t)
admitted-timely zero n h = inl refl
admitted-timely (suc t) n h = inr (h (omega arith))

admitted-IsAuthorised :
    (h : Handler) (cmd : CommandPayload) (spec : Spec) (args : ValidatedArgs) (limit : ℤ)
    → is_command_id cmd.command_id ≡ true
    → IsAdmitted h cmd spec args limit
    → IsAuthorised h (request_of h cmd spec args limit)
unfolding request_of
admitted-IsAuthorised h cmd spec args limit good a = record {
  identified = good;
  registered = (cmd.action, a.known, a.allowed);
  validated = (cmd.args, a.valid);
  program = refl;
  timely =
      admitted-timely spec.timeout (effective_timeout limit spec.timeout)
        (λ p. (effective_timeout_bounds spec cmd.timeout_sec limit p a.timely).1);
}

module _ (describe : Rejection → Text) (runner : Request → ResultPayload) (h : Handler) where
  -- one command keeps the requests authorised
  pub handle-IsAuthorised :
      (cmd : CommandPayload) (clock : ℕ → ℕ) (w : World)
      → All (IsAuthorised h) w.executed
      → All (IsAuthorised h) (handle describe runner h cmd clock w).0.executed
  handle-IsAuthorised cmd clock w all = elim (handle-Outcome describe runner h cmd clock w) [
    | inl (e, r) ↦ subst (All (IsAuthorised h)) (sym r.nothing_ran) all
    | inr (inl (e, f, r)) ↦ subst (All (IsAuthorised h)) (sym r.nothing_ran) all
    | inr (inr (inl (e, f, (why, fails, r)))) ↦ subst (All (IsAuthorised h)) (sym r.nothing_ran) all
    | inr (inr (inr (e, f, (spec, args, limit, a, x)))) ↦ subst (All (IsAuthorised h)) (sym x.ran) (
        All-append (IsAuthorised h) w.executed _ all
          (admitted-IsAuthorised h cmd spec args limit e a, tt))
  ]

  -- commands one after the other, each with its readings of the clock
  unfoldable pub handle_all : List (CommandPayload × (ℕ → ℕ)) → World → World
  handle_all [] w = w
  handle_all ((cmd, clock) ∷ rest) w = handle_all rest (handle describe runner h cmd clock w).0

  pub handle_all-IsAuthorised :
      (cmds : List (CommandPayload × (ℕ → ℕ))) (w : World)
      → All (IsAuthorised h) w.executed
      → All (IsAuthorised h) (handle_all cmds w).executed
  unfolding handle_all
  handle_all-IsAuthorised [] w all = all
  handle_all-IsAuthorised ((cmd, clock) ∷ rest) w all =
      handle_all-IsAuthorised rest (handle describe runner h cmd clock w).0
        (handle-IsAuthorised cmd clock w all)

  -- After any commands, from a world in which nothing has run, every request that reached the
  -- runner has a well-formed id, an action that is registered and locally allowed, arguments that
  -- this action validated, the configured program, and, if the action has a time limit, no longer
  -- a time limit than that.
  pub executed-IsAuthorised :
      (cmds : List (CommandPayload × (ℕ → ℕ))) (w : World)
      → w.executed ≡ []
      → All (IsAuthorised h) (handle_all cmds w).executed
  executed-IsAuthorised cmds w none_ran =
      handle_all-IsAuthorised cmds w (subst (All (IsAuthorised h)) (sym none_ran) tt)

  authorised_harmless :
      (reqs : List Request)
      → new_default_registry ≡ ok h.registry
      → All (IsAuthorised h) reqs
      → All (λ req. has_harmless_argv req ≡ true) reqs
  unfolding has_harmless_argv
  authorised_harmless [] built all = tt
  authorised_harmless (req ∷ reqs) built all =
      let (name, found, listed) = all.0.registered in
      let (raw, valid) = all.0.validated in
      (
        elim (Result-cases (argv req.spec req.args)) [
          | inl (words, e) ↦
              rw (e, has_harmless_argv)
                (argv_harmless h.registry name req.spec raw req.args words built found valid e)
          | inr (x, e) ↦ rw (e, has_harmless_argv)
        ],
        authorised_harmless reqs built all.1,
      )

  -- With the built-in registry, after any commands whatever, no word of the argument vector of a
  -- request that reached the runner holds a dangerous token.
  pub executed_harmless :
      (cmds : List (CommandPayload × (ℕ → ℕ))) (w : World)
      → new_default_registry ≡ ok h.registry
      → w.executed ≡ []
      → All (λ req. has_harmless_argv req ≡ true) (handle_all cmds w).executed
  executed_harmless cmds w built none_ran =
      authorised_harmless (handle_all cmds w).executed built (executed-IsAuthorised cmds w none_ran)
