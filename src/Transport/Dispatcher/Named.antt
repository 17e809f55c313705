-- ===== src/Transport/Dispatcher/Named.antt =====
-- internal/transport/result_dispatcher.go: a round leaves every record in the file of its own id.
use mgate_agent.Base.{
  ℕ, suc, ◌≡◌, refl, sym, subst, ap, true, Option, Option-cases, none, some, List, [], ◌∷◌,
  Bool-cases, Result-cases, Result, ok, err, inl, inr,
}
use mgate_agent.Base.Text.{Text}
use mgate_agent.Protocol.{Envelope, no_error, send_failed}
use mgate_agent.Audit.{Channel, send_started, send_succeeded}
use mgate_agent.Audit
use mgate_agent.Outbox.{Record, Codec}
use mgate_agent.Outbox.Store.{Os, Store, StoreError, log}
use mgate_agent.Outbox.Store.Operations.{mark_failure, due, save, enough_rounds}
use mgate_agent.Outbox.Store.Limits.{IsNamed, log-IsNamed}
use mgate_agent.Outbox.Store.Named.{KeepsId, mark_failure-IsNamed, delete-IsNamed, save-Ends}
use mgate_agent.Transport.Dispatcher.{
  Moment, ResultDispatcher, sent, log_failure, settle, dispatch_records, dispatch_once, enqueue,
  sender_of,
}

-- whatever the other goroutines do in a round, every record stays in the file of its own id
abbrev pub OthersName : Codec → (ℕ → Moment) → Type 0
OthersName codec at =
    (k : ℕ) (e : ResultDispatcher) → IsNamed codec e.store → IsNamed codec ((at k).others e).store

log_failure-IsNamed :
    (codec : Codec) (m : Moment) (via : Channel) (w : Store × Result StoreError Record)
    → IsNamed codec w.0
    → IsNamed codec (log_failure m via w).0
unfolding log_failure
log_failure-IsNamed codec m via (t, err e) named = named
log_failure-IsNamed codec m via (t, ok r) named =
    log-IsNamed codec m.now (sent Audit.send_failed send_failed via r) t named

module _ (codec : Codec) (keeps : KeepsId codec) where
  pub settle-IsNamed :
      (m : Moment) (via : Channel) (r : Record) (answer : Option Text) (s : Store)
      → IsNamed codec s
      → IsNamed codec (settle codec m via r answer s).0
  unfolding settle
  settle-IsNamed m via r none s named =
      let logged = sent send_succeeded no_error via r in
      delete-IsNamed codec m.now m.os r.record_id (log m.now logged s)
        (log-IsNamed codec m.now logged s named)
  settle-IsNamed m via r (some error) s named =
      log_failure-IsNamed codec m via
        (mark_failure codec m.now m.os r.record_id (some error) m.draw s)
        (mark_failure-IsNamed codec m.now m.os r.record_id (some error) m.draw s keeps named)

  dispatch_records-IsNamed :
      (at : ℕ → Moment)
      → OthersName codec at
      → (pass : ℕ) (rs : List Record) (d : ResultDispatcher) → IsNamed codec d.store
      → IsNamed codec (dispatch_records codec at pass rs d).0.store
  unfolding dispatch_records
  dispatch_records-IsNamed at rely pass [] d named = named
  dispatch_records-IsNamed at rely pass (r ∷ rs) d named = elim (Bool-cases (at pass).cancelled) [
    | inl e ↦ kept d (ap (λ u. u.0) (stopped e)) named
    | inr e ↦ elim (Option-cases (sender_of d)) [
      | inl f ↦ kept d (rw (dispatch_records, e, f) refl) named
      | inr ((send, via), f) ↦
          let m = at pass in
          let event = sent send_started no_error via r in
          let mid = m.others (record d { store = log m.now event d.store }) in
          let named' =
            rely pass (record d { store = log m.now event d.store })
              (log-IsNamed codec m.now event d.store named) in
          let w = settle codec m via r (send m.now r) mid.store in
          let settled = settle-IsNamed m via r (send m.now r) mid.store named' in
          elim (Result-cases w.1) [
            | inr (x, g) ↦
                kept (record mid { store = w.0 }) (rw (dispatch_records, e, f, g) refl) settled
            | inl (_, g) ↦
                kept (dispatch_records codec at (suc pass) rs (record mid { store = w.0 })).0
                  (rw (dispatch_records, e, f, g) refl)
                  (dispatch_records-IsNamed at rely (suc pass) rs (record mid { store = w.0 })
                    settled)
          ]
    ]
  ]
    where
      stopped : (at pass).cancelled ≡ true → dispatch_records codec at pass (r ∷ rs) d ≡ (d, ok tt)
      stopped e = rw (dispatch_records, e) refl

      kept :
          (e : ResultDispatcher)
          → (dispatch_records codec at pass (r ∷ rs) d).0 ≡ e
          → IsNamed codec e.store
          → IsNamed codec (dispatch_records codec at pass (r ∷ rs) d).0.store
      kept e same h = subst (λ u. IsNamed codec u.store) (sym same) h

  pub dispatch_once-IsNamed :
      (now : ℕ) (os : Os) (at : ℕ → Moment) (d : ResultDispatcher)
      → OthersName codec at
      → IsNamed codec d.store
      → IsNamed codec (dispatch_once codec now os at d).0.store
  unfolding dispatch_once
  dispatch_once-IsNamed now os at d rely named = elim (Bool-cases d.sending) [
    | inl e ↦ kept d.store (simp (dispatch_once, e)) named
    | inr e ↦ elim (Result-cases (due codec now 16 os d.store)) [
      | inr (x, f) ↦ kept d.store (simp (dispatch_once, e, f)) named
      | inl (rs, f) ↦
          kept (dispatch_records codec at 0 rs (record d { sending = true })).0.store
            (simp (dispatch_once, e, f))
            (dispatch_records-IsNamed at rely 0 rs (record d { sending = true }) named)
    ]
  ]
    where
      kept :
          (t : Store)
          → (dispatch_once codec now os at d).0.store ≡ t
          → IsNamed codec t
          → IsNamed codec (dispatch_once codec now os at d).0.store
      kept t e h = subst (IsNamed codec) (sym e) h

  -- Enqueue ends with the rounds that are enough
  pub enqueue-Ends :
      (now : ℕ) (os : Os) (at : ℕ → Moment) (env : Envelope) (d : ResultDispatcher)
      → OthersName codec at
      → IsNamed codec d.store
      → (e : ResultDispatcher) × (r : Result StoreError (Unit {0})) × (enqueue codec
            (enough_rounds d.store)
            now
            os
            at
            env
            d
          ≡ some (e, r))
        × IsNamed codec e.store
  unfolding enqueue
  enqueue-Ends now os at env d rely named =
      let (t, r, e, kept) = save-Ends codec now os env d.store keeps named in answered t r e kept
    where
      answered :
          (t : Store) (r : Result StoreError Record)
          → save codec (enough_rounds d.store) now os env d.store ≡ some (t, r)
          → IsNamed codec t
          → (e : ResultDispatcher) × (r : Result StoreError (Unit {0})) × (enqueue codec
                (enough_rounds d.store)
                now
                os
                at
                env
                d
              ≡ some (e, r))
            × IsNamed codec e.store
      answered t (err x) e kept = (record d { store = t }, err x, rw (enqueue, e) refl, kept)
      answered t (ok r) e kept =
          let after = dispatch_once codec now os at (record d { store = t }) in
          (
            after.0,
            after.1,
            rw (enqueue, e) refl,
            dispatch_once-IsNamed now os at (record d { store = t }) rely kept,
          )
