-- ===== src/Transport/Dispatcher/Rounds.antt =====
-- internal/transport/result_dispatcher.go: a round keeps the results that no sender takes.
use mgate_agent.Base.{
  ℕ, suc, ◌≡◌, refl, sym, subst, true, false, inl, inr, List, [], ◌∷◌, Bool-cases, Option-cases,
  Result-cases,
}
use mgate_agent.Base.Text.{Text, has_suffix}
use mgate_agent.Audit.{send_started}
use mgate_agent.Protocol.{no_error}
use mgate_agent.Outbox.{Record, Codec}
use mgate_agent.Outbox.Store.{Os, log, json_suffix, held_record}
use mgate_agent.Outbox.Store.Operations.{due}
use mgate_agent.Outbox.Store.Limits.{log-IsNamed}
use mgate_agent.Outbox.Store.Named.{KeepsId}
use mgate_agent.Transport.Dispatcher.{
  Moment, ResultDispatcher, sent, settle, dispatch_records, dispatch_once, sender_of,
}
use mgate_agent.Transport.Dispatcher.Named.{settle-IsNamed}
use mgate_agent.Transport.Dispatcher.Kept.{ReadsBack, IsKept, settle-Holds}

module _ (codec : Codec) (keeps : KeepsId codec) (name : Text) (q : Record)
    (reads : ReadsBack codec q) (json : has_suffix name json_suffix ≡ true) (at : ℕ → Moment)
    (rely : (k : ℕ) (e : ResultDispatcher)
      → IsKept codec name q e
      → IsKept codec name q ((at k).others e)) where
  dispatch_records-keeps :
      (pass : ℕ) (rs : List Record) (d : ResultDispatcher)
      → IsKept codec name q d
      → IsKept codec name q (dispatch_records codec at pass rs d).0
  unfolding dispatch_records sender_of log held_record
  dispatch_records-keeps pass [] d h = h
  dispatch_records-keeps pass (r ∷ rs) d h = elim (Bool-cases (at pass).cancelled) [
    | inl e ↦ ends d (rw (dispatch_records, e) refl) h
    | inr e ↦ elim (Option-cases (sender_of d)) [
      | inl f ↦ ends d (rw (dispatch_records, e, f) refl) h
      | inr ((send, via), f) ↦
          let m = at pass in
          let event = sent send_started no_error via r in
          let started : ResultDispatcher = record d { store = log m.now event d.store } in
          let logged : IsKept codec name q started =
            (log-IsNamed codec m.now event d.store h.0, h.1, h.2) in
          let mid = m.others started in
          let (named, held, refuses) = rely pass started logged in
          let w = settle codec m via r (send m.now r) mid.store in
          let after : IsKept codec name q (record mid { store = w.0 }) = (
            settle-IsNamed codec keeps m via r (send m.now r) mid.store named,
            settle-Holds codec name q reads m via r send mid.store json (h.2 send via f m.now r)
                named held,
            refuses,
          ) in
          elim (Result-cases w.1) [
            | inr (x, g) ↦
                ends (record mid { store = w.0 }) (rw (dispatch_records, e, f, g) refl) after
            | inl (_, g) ↦
                ends (dispatch_records codec at (suc pass) rs (record mid { store = w.0 })).0
                  (rw (dispatch_records, e, f, g) refl)
                  (dispatch_records-keeps (suc pass) rs (record mid { store = w.0 }) after)
          ]
    ]
  ]
    where
      ends :
          (e : ResultDispatcher)
          → (dispatch_records codec at pass (r ∷ rs) d).0 ≡ e
          → IsKept codec name q e
          → IsKept codec name q (dispatch_records codec at pass (r ∷ rs) d).0
      ends e same k = subst (IsKept codec name q) (sym same) k

  -- A round keeps a result that no sender which is set takes: it stays readable in its file as the
  -- same result, whatever fails or is cancelled and however often it is marked, if the JSON of
  -- a record keeps its id and that of this result reads back as the same result, if the records
  -- lie in the files of their ids, and if what other goroutines do in between keeps all that.
  pub dispatch_once-keeps :
      (now : ℕ) (os : Os) (d : ResultDispatcher)
      → IsKept codec name q d
      → IsKept codec name q (dispatch_once codec now os at d).0
  unfolding dispatch_once sender_of
  dispatch_once-keeps now os d h = elim (Bool-cases d.sending) [
    | inl e ↦ ends d (simp (dispatch_once, e)) h
    | inr e ↦ elim (Result-cases (due codec now 16 os d.store)) [
      | inr (x, f) ↦ ends d (simp (dispatch_once, e, f)) h
      | inl (rs, f) ↦
          let started : ResultDispatcher = record d { sending = true } in
          let w = dispatch_records codec at 0 rs started in
          ends (record w.0 { sending = false }) (simp (dispatch_once, e, f))
            (dispatch_records-keeps 0 rs started h)
    ]
  ]
    where
      ends :
          (e : ResultDispatcher)
          → (dispatch_once codec now os at d).0 ≡ e
          → IsKept codec name q e
          → IsKept codec name q (dispatch_once codec now os at d).0
      ends e same k = subst (IsKept codec name q) (sym same) k
