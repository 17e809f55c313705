-- ===== src/Runner/Laws.antt =====
-- The result of a run, whatever the process does.
use mgate_agent.Base.{
  ℕ, ◌≡◌, subst, refl, ◌↔◌, true, false, ◌⊎◌, inl, inr, List, [], arith, ok, Bool-cases,
  Result-cases, all,
}
use mgate_agent.Base.Int.{ℤ}
use mgate_agent.Base.Text.{Text}
use mgate_agent.Protocol.{ResultPayload, succeeded}
use mgate_agent.Audit.Redact.{split_after}
use mgate_agent.Audit.Redact.Lines.{is_insensitive, redact_text-lines}
use mgate_agent.Actions.{argv}
use mgate_agent.Runner.{
  Request, Invocation, Process, Ending, clean, exit_error, other_error, effective_timeout, finish,
  conclude, run,
}

abbrev pub invocation : Request → List Text → Invocation
invocation req words = record {
  path = req.mgate_path;
  words = words;
  dir = req.work_dir;
  limit = effective_timeout req.timeout req.spec.timeout;
}

-- how a process ended well
pub record IsGood (p : Process) : Type 0 where
  pub in_time : p.deadline_exceeded ≡ false
  pub exited_clean : p.ending ≡ clean

abbrev pub HasInsensitiveOutput : ResultPayload → Type 0
HasInsensitiveOutput r =
    (all is_insensitive (split_after r.stdout) ≡ true)
    × (all is_insensitive (split_after r.stderr) ≡ true)

Ending-cases :
    (e : Ending) → (e ≡ clean) ⊎ ((e ≡ other_error) ⊎ ((code : ℤ) × (e ≡ exit_error code)))
Ending-cases clean = inl refl
Ending-cases other_error = inr (inl refl)
Ending-cases (exit_error code) = inr (inr (code, refl))

conclude-HasInsensitiveOutput :
    (req : Request) (started : ℕ) (p : Process) → HasInsensitiveOutput (conclude req started p)
unfolding conclude finish
conclude-HasInsensitiveOutput req started p = elim (Bool-cases p.deadline_exceeded) [
  | inl e ↦ rw (e, conclude) ((redact_text-lines _).0, (redact_text-lines _).0)
  | inr e ↦ elim (Ending-cases p.ending) [
    | inl f ↦ rw (e, f, conclude) ((redact_text-lines _).0, (redact_text-lines _).0)
    | inr (inl f) ↦ rw (e, f, conclude) ((redact_text-lines _).0, (redact_text-lines _).0)
    | inr (inr (code, f)) ↦ rw (e, f, conclude) ((redact_text-lines _).0, (redact_text-lines _).0)
  ]
]

conclude-IsGood :
    (req : Request) (started : ℕ) (p : Process)
    → ((conclude req started p).state ≡ succeeded) ↔ IsGood p
unfolding conclude finish
conclude-IsGood req started p = (λ h. ground arith, λ g. ground arith)

-- Whatever the process writes, no line of the two outputs in the result contains a sensitive word.
pub run-HasInsensitiveOutput :
    (exec : Invocation → Process) (started rejected_at : ℕ) (req : Request)
    → HasInsensitiveOutput (run exec started rejected_at req)
unfolding run finish
run-HasInsensitiveOutput exec started rejected_at req =
    elim (Result-cases (argv req.spec req.args)) [
      | inl (words, e) ↦
          rw (e, run) (conclude-HasInsensitiveOutput req started (exec (invocation req words)))
      | inr (x, e) ↦ rw (e, run) ((redact_text-lines []).0, (redact_text-lines []).0)
    ]

-- A run succeeds exactly when the action has an argument vector and the process, started with the
-- configured program on that vector under the effective time limit, ends in time and with no error.
pub run_succeeds_iff :
    (exec : Invocation → Process) (started rejected_at : ℕ) (req : Request)
    → ((run exec started rejected_at req).state ≡ succeeded) ↔ (
        (words : List Text) × (argv req.spec req.args ≡ ok words)
        × IsGood (exec (invocation req words)))
unfolding run finish
run_succeeds_iff exec started rejected_at req = elim (Result-cases (argv req.spec req.args)) [
  | inl (words, e) ↦ (
    λ h. (
      words,
      e,
      (conclude-IsGood req started (exec (invocation req words))).0 (rw (e, run) at h),
    ),
    λ (v, f, good).
        let same : v ≡ words = cc in
        rw (e, run)
          ((conclude-IsGood req started (exec (invocation req words))).1
            (subst (λ u. IsGood (exec (invocation req u))) same good)),
  )
  | inr (x, e) ↦ (λ h. absurd (ground arith), λ p. absurd (ground arith))
]
