-- ===== src/Commands/Handler/Trail.antt =====
-- The audit trail of a command.
use mathlib.Core.List.{append_assoc, append-nil, map-append}
use mgate_agent.Base.{
  ℕ, ◌≡◌, refl, sym, ap, ◌∙◌, Bool, true, false, ◌&&◌, inl, inr, Option, none, some, List, [], ◌∷◌,
  ◌++◌, map, All, All-append, Bool-cases, Result-cases, ok, err,
}
use mgate_agent.Base.Int.{ℤ}
use mgate_agent.Base.Text.{Text, text_eq}
use mgate_agent.Protocol.{CommandPayload, ResultPayload}
use mgate_agent.Protocol.Json.{Fields}
use mgate_agent.Audit.{
  Event, EventKind, command_received, command_rejected, command_started, command_finished, Writer,
  redact_args, audited, write, write_audit,
}
use mgate_agent.Audit.Redact.Values.{clean_fields, redact_fields-clean}
use mgate_agent.Actions.{Spec, ValidatedArgs}
use mgate_agent.Runner.{Request}
use mgate_agent.Commands.Handler.{
  Handler, World, Rejection, bad_command_id, duplicate, is_command_id, admit, reject, execute,
  dispatch, receive, handle,
}
use mgate_agent.Commands.Handler.Gates.{
  fresh_in, reserved_world, handle_bad_id, handle_duplicate, handle_fresh,
}

-- no sensitive key of the arguments of an event holds anything but the mark
unfoldable pub is_clean : Event → Bool
is_clean e = elim e.args [ none ↦ true | some args ↦ clean_fields args ]

redact_args-clean :
    (args : Option Fields)
    → (elim (redact_args args) [ none ↦ true | some fs ↦ clean_fields fs ]) ≡ true
unfolding redact_args
redact_args-clean none = refl
redact_args-clean (some fs) = redact_fields-clean fs

audited-is_clean : (now : ℕ) (e : Event) → is_clean (audited now e) ≡ true
unfolding is_clean audited
audited-is_clean now e = redact_args-clean e.args

-- The audit file `wr` has grown by events of these kinds, in this order, each of them clean.
abbrev pub Grew : Writer → List EventKind → Option Writer → Type 0
Grew wr kinds a =
    (tail : List Event) × (a ≡ some (record wr { lines = wr.lines ++ tail }))
    × (map (λ e. e.kind) tail ≡ kinds)
    × All (λ e. is_clean e ≡ true) tail

module _ (wr : Writer) (named : text_eq wr.path [] ≡ false) (writable : wr.writable ≡ true) where
  Grew-refl : Grew wr [] (some wr)
  Grew-refl = ([], ap (λ l. some (record wr { lines = l })) (sym (append-nil wr.lines)), refl, tt)

  write-lines :
      (now : ℕ) (e : Event) (l : List Event)
      → write now e (record wr { lines = l }) ≡ record wr { lines = l ++ audited now e ∷ [] }
  unfolding write
  write-lines now e l = rw (named, writable)

  Grew-write :
      (kinds : List EventKind) (a : Option Writer) (now : ℕ) (e : Event)
      → Grew wr kinds a
      → Grew wr (kinds ++ e.kind ∷ []) (write_audit now e a)
  Grew-write kinds a now e (tail, file, order, clean) = (
    tail ++ audited now e ∷ [],
    rw file (
        unfold write_audit in
        ap some (
          write-lines now e (wr.lines ++ tail)
          ∙ ap (λ l. record wr { lines = l }) (append_assoc wr.lines tail (audited now e ∷ [])))),
    map-append (λ (x : Event). x.kind) tail (audited now e ∷ [])
        ∙ (unfold audited in ap (λ l. l ++ e.kind ∷ []) order),
    All-append (λ x. is_clean x ≡ true) tail (audited now e ∷ []) clean
        (audited-is_clean now e, tt),
  )

  module _ (describe : Rejection → Text) (runner : Request → ResultPayload) where
    reject-Grew :
        (cmd : CommandPayload) (why : Rejection) (clock : ℕ → ℕ) (w : World)
        (kinds : List EventKind)
        → Grew wr kinds w.audit
        → Grew wr (kinds ++ command_rejected ∷ []) (reject describe runner cmd why clock w).0.audit
    unfolding reject
    reject-Grew cmd why clock w kinds g = Grew-write kinds w.audit (clock 3) _ g

    execute-Grew :
        (h : Handler) (cmd : CommandPayload) (spec : Spec) (args : ValidatedArgs) (limit : ℤ)
        (clock : ℕ → ℕ) (w : World) (kinds : List EventKind)
        → Grew wr kinds w.audit
        → Grew wr
            ((kinds ++ command_started ∷ []) ++ command_finished ∷ [])
            (execute describe runner h cmd spec args limit clock w).0.audit
    unfolding execute
    execute-Grew h cmd spec args limit clock w kinds g =
        Grew-write (kinds ++ command_started ∷ []) _ (clock 5) _
          (Grew-write kinds w.audit (clock 4) _ g)

    receive-Grew :
        (cmd : CommandPayload) (clock : ℕ → ℕ) (w : World)
        → w.audit ≡ some wr
        → Grew wr (command_received ∷ []) (receive describe runner cmd clock w).audit
    unfolding receive
    receive-Grew cmd clock w file = Grew-write [] w.audit (clock 0) _ (rw file Grew-refl)

-- the command passes every check
unfoldable pub runs : Handler → CommandPayload → (ℕ → ℕ) → World → Bool
runs h cmd clock w =
    is_command_id cmd.command_id
    && fresh_in cmd clock w
    && elim (admit h cmd) [ ok _ ↦ true | err _ ↦ false ]

abbrev pub kinds_of : Bool → List EventKind
kinds_of true = command_received ∷ command_started ∷ command_finished ∷ []
kinds_of false = command_received ∷ command_rejected ∷ []

module _ (wr : Writer) (named : text_eq wr.path [] ≡ false) (writable : wr.writable ≡ true)
    (describe : Rejection → Text) (runner : Request → ResultPayload) (h : Handler)
    (cmd : CommandPayload) (clock : ℕ → ℕ) (w : World) (file : w.audit ≡ some wr) where
  received_Grew : Grew wr (command_received ∷ []) (reserved_world describe runner cmd clock w).audit
  received_Grew = receive-Grew wr named writable describe runner cmd clock w file

  dispatch-Grew :
      Grew wr
        (kinds_of (elim (admit h cmd) [ ok _ ↦ true | err _ ↦ false ]))
        (dispatch describe runner h cmd clock (reserved_world describe runner cmd clock w)).0.audit
  dispatch-Grew = elim (Result-cases (admit h cmd)) [
    | inr (why, e) ↦
        unfold dispatch in
        rw (e, dispatch)
          (reject-Grew wr named writable describe runner cmd why clock
            (reserved_world describe runner cmd clock w) (command_received ∷ []) received_Grew)
    | inl ((spec, args, limit), e) ↦
        unfold dispatch in
        rw (e, dispatch)
          (execute-Grew wr named writable describe runner h cmd spec args limit clock
            (reserved_world describe runner cmd clock w) (command_received ∷ []) received_Grew)
  ]

  -- A command leaves exactly two or three events at the end of a writable audit file: received and
  -- rejected if a check fails, else received, started and finished; and in none of them does a
  -- sensitive key of the arguments, at any depth, hold anything but the redaction mark.
  pub handle-Grew :
      Grew wr (kinds_of (runs h cmd clock w)) (handle describe runner h cmd clock w).0.audit
  unfolding runs
  handle-Grew = elim (Bool-cases (is_command_id cmd.command_id)) [
    | inr e ↦
        rw (handle_bad_id describe runner h cmd clock w e, e)
          (reject-Grew wr named writable describe runner cmd bad_command_id clock
            (receive describe runner cmd clock w) (command_received ∷ [])
            (receive-Grew wr named writable describe runner cmd clock w file))
    | inl e ↦ elim (Bool-cases (fresh_in cmd clock w)) [
      | inr f ↦
          rw (handle_duplicate describe runner h cmd clock w e f, e, f)
            (reject-Grew wr named writable describe runner cmd duplicate clock
              (reserved_world describe runner cmd clock w) (command_received ∷ []) received_Grew)
      | inl f ↦ rw (handle_fresh describe runner h cmd clock w e f, e, f) dispatch-Grew
    ]
  ]
