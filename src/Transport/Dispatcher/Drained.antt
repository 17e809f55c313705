-- ===== src/Transport/Dispatcher/Drained.antt =====
-- internal/transport/result_dispatcher.go: what a round achieves when nothing stands in its way.
use mgate_agent.Base.{
  ℕ, suc, ◌≡◌, refl, sym, subst, ◌∙◌, ap, true, false, inl, inr, none, some, List, [], ◌∷◌,
  Bool-cases, Option-cases, arith, All, ok,
}
use mgate_agent.Base.Maps.{lookup, remove, lookup-remove}
use mgate_agent.Base.Text.{Text, text_eq, text_eq_iff, has_suffix}
use mgate_agent.Audit.{Channel, send_started, send_succeeded}
use mgate_agent.Protocol.{no_error}
use mgate_agent.Outbox.{Record, Codec}
use mgate_agent.Outbox.Store.{
  Os, Store, path, log, remove_file, held_record, read_record_file, json_suffix,
}
use mgate_agent.Outbox.Store.Operations.{delete, due, deleted}
use mgate_agent.Outbox.Store.Limits.{IsNamed, read-some}
use mgate_agent.Outbox.Store.Named.{KeepsId}
use mgate_agent.Transport.Dispatcher.{
  Sender, Moment, ResultDispatcher, sent, settle, dispatch_records, dispatch_once, sender_of,
}
use mgate_agent.Transport.Dispatcher.Named.{OthersName, dispatch_once-IsNamed}

-- there is no file of the name
abbrev pub IsGone : Store → Text → Type 0
IsGone s name = lookup name s.files ≡ none

-- nothing stands in the way of a pass: it is not cancelled, and files can be removed
abbrev pub IsClear : Moment → Type 0
IsClear m = (m.cancelled ≡ false) × ((name : Text) → m.os.removable name ≡ true)

remove_file-IsGone :
    (os : Os) (id : Text) (s : Store)
    → os.removable id ≡ true
    → (t : Store) × (remove_file os id s ≡ ok t)
      × IsGone t id
      × ((name : Text) → IsGone s name → IsGone t name)
unfolding remove_file
remove_file-IsGone os id s can = elim (Option-cases (lookup id s.files)) [
  | inl e ↦ (s, rw (remove_file, e) refl, e, λ name gone. gone)
  | inr (_, e) ↦ (
    record s { files = remove id s.files },
    rw (remove_file, e, can) refl,
    ground (arith, lookup-remove id id s.files, text_eq_iff id id),
    λ name gone. ground (arith, lookup-remove id name s.files, gone, Bool-cases (text_eq id name)),
  )
]

settle-IsGone :
    (codec : Codec) (m : Moment) (via : Channel) (r : Record) (s : Store)
    → IsClear m
    → (t : Store) × (settle codec m via r none s ≡ (t, ok tt))
      × IsGone t (path r.record_id)
      × ((name : Text) → IsGone s name → IsGone t name)
unfolding settle delete log
settle-IsGone codec m via r s clear =
    let logged = log m.now (sent send_succeeded no_error via r) s in
    let name = path r.record_id in
    let (t, e, gone, stays) = remove_file-IsGone m.os name logged (clear.1 name) in
    let event = deleted r.record_id (read_record_file codec m.os name logged) in
    (log m.now event t, rw (settle, delete, e) refl, gone, stays)

-- the sender that is set takes the record
abbrev pub IsReady : Record → ResultDispatcher → Type 0
IsReady r d =
    (send : Sender) × (via : Channel) × (sender_of d ≡ some (send, via))
    × ((now : ℕ) → send now r ≡ none)

-- no record of the id can be read in the outbox, and there is no file of its name
abbrev pub IsLost : Codec → Store → Record → Type 0
IsLost codec s r =
    IsGone s (path r.record_id)
    × ((name : Text) (q : Record)
        → has_suffix name json_suffix ≡ true
        → held_record codec name s ≡ ok q
        → q.record_id ≡ r.record_id
        → ⊥)

-- what the other goroutines do in a round leaves a sender that takes the record, and does not
-- bring the record back
pub record IsHarmless (at : ℕ → Moment) (r : Record) : Type 0 where
  pub ready : (k : ℕ) (d : ResultDispatcher) → IsReady r d → IsReady r ((at k).others d)
  pub gone :
      (k : ℕ) (d : ResultDispatcher)
      → IsGone d.store (path r.record_id)
      → IsGone ((at k).others d).store (path r.record_id)

named-IsLost :
    (codec : Codec) (s : Store) (r : Record)
    → IsNamed codec s
    → IsGone s (path r.record_id)
    → IsLost codec s r
named-IsLost codec s r named gone = (
  gone,
  λ name q json held same.
      let there = read-some codec name s q held in
      let own : path r.record_id ≡ name = ap path (sym same) ∙ named name q json held in
      let lost = subst (IsGone s) own gone in absurd (ground (arith, there, lost)),
)

still-IsReady :
    (at : ℕ → Moment) (k : ℕ) (d : ResultDispatcher) (rs : List Record)
    → All (IsHarmless at) rs
    → All (λ r. IsReady r d) rs
    → All (λ r. IsReady r ((at k).others d)) rs
still-IsReady at k d [] h a = tt
still-IsReady at k d (r ∷ rs) (g, h) (b, a) = (g.ready k d b, still-IsReady at k d rs h a)

now-IsLost :
    (codec : Codec) (s : Store) (rs : List Record)
    → IsNamed codec s
    → All (λ r. IsGone s (path r.record_id)) rs
    → All (IsLost codec s) rs
now-IsLost codec s [] named a = tt
now-IsLost codec s (r ∷ rs) named (b, a) =
    (named-IsLost codec s r named b, now-IsLost codec s rs named a)

module _ (codec : Codec) (at : ℕ → Moment) (clear : (k : ℕ) → IsClear (at k)) where
  dispatch_records-IsGone :
      (pass : ℕ) (rs : List Record) (d : ResultDispatcher)
      → All (IsHarmless at) rs
      → All (λ r. IsReady r d) rs
      → (e : ResultDispatcher) × (dispatch_records codec at pass rs d ≡ (e, ok tt))
        × All (λ r. IsGone e.store (path r.record_id)) rs
        × ((q : Record)
            → IsHarmless at q
            → IsGone d.store (path q.record_id)
            → IsGone e.store (path q.record_id))
  unfolding dispatch_records log sender_of
  dispatch_records-IsGone pass [] d harmless ready = (d, refl, tt, λ q h gone. gone)
  dispatch_records-IsGone pass (r ∷ rs) d (safe, harmless) ((send, via, chosen, taken), ready) =
      let m = at pass in
      let event = sent send_started no_error via r in
      let started : ResultDispatcher = record d { store = log m.now event d.store } in
      let mid = m.others started in
      let (t, e, gone, stays) = settle-IsGone codec m via r mid.store (clear pass) in
      let full : settle codec m via r (send m.now r) mid.store ≡ (t, ok tt) =
        ap (λ answer. settle codec m via r answer mid.store) (taken m.now) ∙ e in
      let next : ResultDispatcher = record mid { store = t } in
      let step : dispatch_records codec at pass (r ∷ rs) d
          ≡ dispatch_records codec at (suc pass) rs next =
        rw (dispatch_records, (clear pass).0, chosen, ap (λ w. w.1) full)
          (ap (λ w. dispatch_records codec at (suc pass) rs (record mid { store = w.0 })) full) in
      let (u, f, rest, stays') =
        dispatch_records-IsGone (suc pass) rs next harmless
          (still-IsReady at pass started rs harmless ready) in
      (
        u,
        step ∙ f,
        (stays' r safe gone, rest),
        λ q h absent. stays' q h (stays (path q.record_id) (h.gone pass started absent)),
      )

  -- A round of the dispatcher that is not cancelled, in a folder whose files can be removed, with
  -- a sender that takes each of the records that are due, ends without an error, and then none of
  -- those records can be read in the outbox, under whatever name. The records lie in the files of
  -- their ids, the JSON of a record keeps its id, and what other goroutines do meanwhile respects
  -- all this and does not save the same results anew.
  pub dispatch_once-IsLost :
      (now : ℕ) (os : Os) (d : ResultDispatcher) (rs : List Record)
      → KeepsId codec
      → IsNamed codec d.store
      → d.sending ≡ false
      → due codec now 16 os d.store ≡ ok rs
      → OthersName codec at
      → All (IsHarmless at) rs
      → All (λ r. IsReady r d) rs
      → let out = dispatch_once codec now os at d in
        (out.1 ≡ ok tt) × All (IsLost codec out.0.store) rs
  unfolding dispatch_once sender_of
  dispatch_once-IsLost now os d rs keeps named free listed rely harmless ready =
      let (e, f, gone, _) =
        dispatch_records-IsGone 0 rs (record d { sending = true }) harmless ready in
      let store : (dispatch_once codec now os at d).0.store ≡ e.store =
        simp (dispatch_once, free, listed, f) in
      let after = dispatch_once-IsNamed codec keeps now os at d rely named in
      (
        simp (dispatch_once, free, listed, f),
        now-IsLost codec (dispatch_once codec now os at d).0.store rs after
            (subst (λ u. All (λ r. IsGone u (path r.record_id)) rs) (sym store) gone),
      )
