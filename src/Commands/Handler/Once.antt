-- ===== src/Commands/Handler/Once.antt =====
-- A command id runs at most once within the lifetime of its reservation.
use mgate_agent.Base.{
  ℕ, ◌+◌, ◌≤◌, ◌<◌, ◌≡◌, refl, sym, ◌∙◌, true, false, inl, inr, some, List, [], ◌∷◌, arith, All,
  length, if◌then◌else◌, Bool-cases, Result-cases,
}
use mgate_agent.Base.Text.{Text}
use mgate_agent.Protocol.{CommandPayload, ResultPayload, duplicate_command}
use mgate_agent.Commands.Dedupe.{DedupeStore, reserve, reserve_in}
use mgate_agent.Commands.Dedupe.Invariant.{IsValid}
use mgate_agent.Commands.Dedupe.Window.{count_from, reserves, reserves_refuse}
use mgate_agent.Runner.{Request}
use mgate_agent.Commands.Handler.{
  Handler, World, Rejection, is_command_id, code_of, admit, reject, execute, dispatch, receive,
  handle,
}
use mgate_agent.Commands.Handler.Gates.{
  fresh_in, reserved_world, handle_bad_id, handle_duplicate, handle_fresh,
}
use mgate_agent.Commands.Handler.Safety.{handle_all}

module _ (describe : Rejection → Text) (runner : Request → ResultPayload) (h : Handler) where
  dispatch-dedupe :
      (cmd : CommandPayload) (clock : ℕ → ℕ) (w : World)
      → (dispatch describe runner h cmd clock w).0.dedupe ≡ w.dedupe
  unfolding dispatch reject execute
  dispatch-dedupe cmd clock w = elim (Result-cases (admit h cmd)) [
    | inl ((spec, args, limit), e) ↦ rw (e, dispatch)
    | inr (why, e) ↦ rw (e, dispatch)
  ]

  handle-dedupe :
      (cmd : CommandPayload) (clock : ℕ → ℕ) (w : World)
      → (handle describe runner h cmd clock w).0.dedupe ≡ (
          if is_command_id cmd.command_id
          then (reserve (clock 1) cmd.command_id w.dedupe).0
          else w.dedupe)
  handle-dedupe cmd clock w = elim (Bool-cases (is_command_id cmd.command_id)) [
    | inr e ↦ rw (handle_bad_id describe runner h cmd clock w e, e) (unfold reject receive in refl)
    | inl e ↦ elim (Bool-cases (fresh_in cmd clock w)) [
      | inr f ↦
          rw (handle_duplicate describe runner h cmd clock w e f, e) (unfold reject receive in refl)
      | inl f ↦
          rw (handle_fresh describe runner h cmd clock w e f, e)
            (dispatch-dedupe cmd clock (reserved_world describe runner cmd clock w)
              ∙ (unfold receive in refl))
    ]
  ]

  -- the reservations that commands ask for
  unfoldable pub reservations : List (CommandPayload × (ℕ → ℕ)) → List (ℕ × Text)
  reservations [] = []
  reservations ((cmd, clock) ∷ rest) =
      let more = reservations rest in
      if is_command_id cmd.command_id then (clock 1, cmd.command_id) ∷ more else more

  length-reservations-le :
      (cmds : List (CommandPayload × (ℕ → ℕ))) → length (reservations cmds) ≤ length cmds
  unfolding reservations
  length-reservations-le [] = omega arith
  length-reservations-le ((cmd, clock) ∷ rest) = ground (arith, length-reservations-le rest)

  reservations-All :
      (bound : ℕ) (cmds : List (CommandPayload × (ℕ → ℕ)))
      → All (λ c. c.1 1 ≤ bound) cmds
      → All (λ r. r.0 ≤ bound) (reservations cmds)
  unfolding reservations
  reservations-All bound [] all = tt
  reservations-All bound ((cmd, clock) ∷ rest) all =
      elim (Bool-cases (is_command_id cmd.command_id)) [
        | inl e ↦ rw e (all.0, reservations-All bound rest all.1)
        | inr e ↦ rw e (reservations-All bound rest all.1)
      ]

  handle_all-dedupe :
      (cmds : List (CommandPayload × (ℕ → ℕ))) (w : World) (s : DedupeStore)
      → w.dedupe ≡ some s
      → (handle_all describe runner h cmds w).dedupe ≡ some (reserves (reservations cmds) s)
  unfolding handle_all reservations reserves
  handle_all-dedupe [] w s e = e
  handle_all-dedupe ((cmd, clock) ∷ rest) w s e = elim (Bool-cases (is_command_id cmd.command_id)) [
    | inl f ↦ rw f (
        handle_all-dedupe rest (handle describe runner h cmd clock w).0
          (reserve_in (clock 1) cmd.command_id s).0
          (rw (handle-dedupe cmd clock w, f, e) (unfold reserve in refl)))
    | inr f ↦ rw f (
        handle_all-dedupe rest (handle describe runner h cmd clock w).0 s
          (rw (handle-dedupe cmd clock w, f) e))
  ]

  fresh_in-reserve_in :
      (cmd : CommandPayload) (clock : ℕ → ℕ) (w : World) (s : DedupeStore)
      → w.dedupe ≡ some s
      → fresh_in cmd clock w ≡ (reserve_in (clock 1) cmd.command_id s).1
  fresh_in-reserve_in cmd clock w s e = rw e (unfold reserve in refl)

  -- Once a command with a well-formed id got past the duplicate check, any later command with the
  -- same id, within the lifetime of the reservation, is rejected as a duplicate and does not run,
  -- whatever commands were handled in between; provided that those commands and the entries that
  -- were already as young are fewer than the store holds.
  pub handle_once :
      (cmd again : CommandPayload) (clock clock' : ℕ → ℕ)
      (between : List (CommandPayload × (ℕ → ℕ))) (w : World) (s : DedupeStore)
      → w.dedupe ≡ some s
      → IsValid s
      → again.command_id ≡ cmd.command_id
      → is_command_id cmd.command_id ≡ true
      → fresh_in cmd clock w ≡ true
      → All (λ c. c.1 1 ≤ clock 1 + s.ttl) between
      → clock' 1 ≤ clock 1 + s.ttl
      → count_from (clock 1) s.seen + length between < s.max_entries
      → let w' = handle_all describe runner h between (handle describe runner h cmd clock w).0 in
        let out = handle describe runner h again clock' w' in
        (out.0.executed ≡ w'.executed) × (out.1.error_code ≡ duplicate_command)
  handle_once cmd again clock clock' between w s stored v same good fresh early soon room =
      let w1 = (handle describe runner h cmd clock w).0 in
      let s1 = (reserve_in (clock 1) cmd.command_id s).0 in
      let w' = handle_all describe runner h between w1 in
      let e1 : w1.dedupe ≡ some s1 =
        rw (handle-dedupe cmd clock w, good, stored) (unfold reserve in refl) in
      let e2 : w'.dedupe ≡ some (reserves (reservations between) s1) =
        handle_all-dedupe between w1 s1 e1 in
      let granted : (reserve_in (clock 1) cmd.command_id s).1 ≡ true =
        sym (fresh_in-reserve_in cmd clock w s stored) ∙ fresh in
      let refused : fresh_in again clock' w' ≡ false =
        fresh_in-reserve_in again clock' w' (reserves (reservations between) s1) e2
        ∙ (rw same (
            reserves_refuse s (clock 1) (clock' 1) cmd.command_id (reservations between) v granted
              (reservations-All (clock 1 + s.ttl) between early) soon
              (omega (arith, length-reservations-le between)))) in
      rw (handle_duplicate describe runner h again clock' w' (rw same good) refused)
        (unfold reject receive code_of in (refl, refl))
