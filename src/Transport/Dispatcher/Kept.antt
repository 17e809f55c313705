-- ===== src/Transport/Dispatcher/Kept.antt =====
-- internal/transport/result_dispatcher.go: when a result leaves the outbox.
use mgate_agent.Base.{
  ℕ, ◌≡◌, refl, sym, ◌∙◌, ap, subst, true, false, inl, inr, Option, some, Bool-cases, Option-cases,
  arith, Result, ok, err, Result-cases, is_some,
}
use mgate_agent.Base.Maps.{lookup, remove, lookup-remove}
use mgate_agent.Base.Text.{Text, text_eq, text_eq_iff, has_suffix}
use mgate_agent.Audit.{Channel, send_succeeded}
use mgate_agent.Protocol.{no_error}
use mgate_agent.Outbox.{Record, Codec}
use mgate_agent.Outbox.Store.{
  Os, Store, StoreError, file, path, log, remove_file, held_record, read_record_file, read-held,
  write_record_atomic, json_suffix, is_valid,
}
use mgate_agent.Outbox.Store.Operations.{mark_failure, delete, failed, answer_save, deleted}
use mgate_agent.Outbox.Store.Atomic.{write_record_atomic_all_or_nothing, tmp-is-other}
use mgate_agent.Outbox.Store.Limits.{IsNamed}
use mgate_agent.Outbox.Store.Named.{read_same}
use mgate_agent.Outbox.Store.Failure.{read-valid, read-decoded, path-has_suffix}
use mgate_agent.Transport.Dispatcher.{
  Sender, Moment, ResultDispatcher, sent, log_failure, settle, sender_of,
}

-- the same result, whatever has become of its attempts
abbrev pub IsSame : Record → Record → Type 0
IsSame q r = (q.record_id ≡ r.record_id) × (q.command_id ≡ r.command_id) × (q.envelope ≡ r.envelope)

-- the file holds the result
abbrev pub Holds : Codec → Text → Record → Store → Type 0
Holds codec name q s = (r : Record) × (held_record codec name s ≡ ok r) × IsSame r q

-- what the codec writes of the result is read back as the same result
abbrev pub ReadsBack : Codec → Record → Type 0
ReadsBack codec q =
    (r : Record) (data' : Text)
    → IsSame r q
    → codec.encode r ≡ some data'
    → (p : Record) × (codec.decode data' ≡ some p) × IsSame p q

-- no sender that is set takes a record of the file
abbrev pub Refuses : Text → ResultDispatcher → Type 0
Refuses name d =
    (send : Sender) (via : Channel)
    → sender_of d ≡ some (send, via)
    → (now : ℕ) (r : Record) → path r.record_id ≡ name
    → is_some (send now r) ≡ true

-- the file holds the result, in an outbox whose records lie in the files of their ids, and no
-- sender takes it
abbrev pub IsKept : Codec → Text → Record → ResultDispatcher → Type 0
IsKept codec name q d = IsNamed codec d.store × Holds codec name q d.store × Refuses name d

same-valid : (p q r : Record) → IsSame p q → IsSame r q → is_valid r ≡ true → is_valid p ≡ true
unfolding is_valid
same-valid p q r (a, b, c) (a', b', c') v =
    rw (a ∙ sym a', b ∙ sym b', ap (λ e. e.type) (c ∙ sym c')) v

module _ (codec : Codec) (name : Text) (q : Record) (reads : ReadsBack codec q) where
  -- a record of the same result is written, in the file or in another
  write_record_atomic-Holds :
      (os : Os) (r : Record) (s : Store)
      → has_suffix name json_suffix ≡ true
      → (path r.record_id ≡ name → IsSame r q)
      → Holds codec name q s
      → Holds codec name q (write_record_atomic codec os r s).0
  write_record_atomic-Holds os r s json same (old, held, alike) =
      let t = (write_record_atomic codec os r s).0 in
      elim (write_record_atomic_all_or_nothing codec os r s name
        (tmp-is-other (path r.record_id) name json)) [
          | inr (_, _, e) ↦ (old, read_same codec name s t e ∙ held, alike)
          | inl (_, data', encoded, e) ↦ elim (Bool-cases (text_eq (path r.record_id) name)) [
            | inr f ↦ (old, read_same codec name s t (ground (arith, e, f)) ∙ held, alike)
            | inl f ↦
                let there : lookup name t.files ≡ some (file data') = ground (arith, e, f) in
                let (p, decoded, alike') =
                  reads r data' (same ((text_eq_iff (path r.record_id) name).0 f)) encoded in
                (
                  p,
                  read-decoded codec name data' t p there decoded
                      (same-valid p q old alike' alike (read-valid codec name s old held)),
                  alike',
                )
          ]
        ]

  answer_save-Holds :
      (r : Record) (w : Store × Result StoreError (Unit {0}))
      → Holds codec name q w.0
      → Holds codec name q (answer_save r w).0
  unfolding answer_save
  answer_save-Holds r (t, ok _) h = h
  answer_save-Holds r (t, err e) h = h

  -- MarkFailure of any id keeps the result
  mark_failure-Holds :
      (now : ℕ) (os : Os) (id : Text) (send_error : Option Text) (draw : Option ℕ) (s : Store)
      → has_suffix name json_suffix ≡ true
      → IsNamed codec s
      → Holds codec name q s
      → Holds codec name q (mark_failure codec now os id send_error draw s).0
  unfolding mark_failure failed
  mark_failure-Holds now os id send_error draw s json named (old, held, alike) =
      elim (Result-cases (read_record_file codec os (path id) s)) [
        | inr (e, f) ↦
            let same : mark_failure codec now os id send_error draw s ≡ (s, err e) =
              rw (mark_failure, f) refl in
            subst (λ w. Holds codec name q w.0) (sym same) (old, held, alike)
        | inl (r, f) ↦
            let marked = failed now send_error draw r in
            let read = read-held codec os (path id) s r f in
            let own : path r.record_id ≡ path id = named (path id) r (path-has_suffix id) read in
            let mine : path r.record_id ≡ name → IsSame r q = λ e.
              let there : held_record codec name s ≡ ok r =
                subst (λ n. held_record codec n s ≡ ok r) (sym own ∙ e) read in
              let one : old ≡ r = cc in subst (λ w. IsSame w q) one alike in
            let same : mark_failure codec now os id send_error draw s
                ≡ answer_save marked (write_record_atomic codec os marked s) =
              rw (mark_failure, f) refl in
            subst (λ w. Holds codec name q w.0) (sym same)
              (answer_save-Holds marked (write_record_atomic codec os marked s)
                (write_record_atomic-Holds os marked s json mine (old, held, alike)))
      ]

  log_failure-Holds :
      (m : Moment) (via : Channel) (w : Store × Result StoreError Record)
      → Holds codec name q w.0
      → Holds codec name q (log_failure m via w).0
  unfolding log_failure log held_record
  log_failure-Holds m via (t, err e) h = h
  log_failure-Holds m via (t, ok r) h = h

  remove_file-Holds :
      (os : Os) (id : Text) (s t : Store)
      → text_eq id name ≡ false
      → remove_file os id s ≡ ok t
      → Holds codec name q s
      → Holds codec name q t
  unfolding remove_file
  remove_file-Holds os id s t other f (old, held, alike) = elim (Option-cases (lookup id s.files)) [
    | inl e ↦ (old, read_same codec name s t (ground (arith, e, f)) ∙ held, alike)
    | inr (_, e) ↦ elim (Bool-cases (os.removable id)) [
      | inr g ↦ absurd (ground (arith, e, f, g))
      | inl g ↦
          let same : record s { files = remove id s.files } ≡ t = ground (arith, e, f, g) in
          let u : Store = record s { files = remove id s.files } in
          let there : lookup name u.files ≡ lookup name s.files =
            ground (arith, lookup-remove id name s.files, other) in
          subst (Holds codec name q) same (old, read_same codec name s u there ∙ held, alike)
    ]
  ]

  delete-Holds :
      (now : ℕ) (os : Os) (id : Text) (s : Store)
      → text_eq (path id) name ≡ false
      → Holds codec name q s
      → Holds codec name q (delete codec now os id s).0
  unfolding delete log held_record
  delete-Holds now os id s other h = elim (Result-cases (remove_file os (path id) s)) [
    | inr (e, f) ↦
        let same : delete codec now os id s ≡ (s, err e) = rw (delete, f) refl in
        subst (λ w. Holds codec name q w.0) (sym same) h
    | inl (t, f) ↦
        let event = deleted id (read_record_file codec os (path id) s) in
        let same : delete codec now os id s ≡ (log now event t, ok tt) = rw (delete, f) refl in
        subst (λ w. Holds codec name q w.0) (sym same)
          (remove_file-Holds os (path id) s t other f h)
  ]

  pub settle-Holds :
      (m : Moment) (via : Channel) (r : Record) (send : Sender) (s : Store)
      → has_suffix name json_suffix ≡ true
      → (path r.record_id ≡ name → is_some (send m.now r) ≡ true)
      → IsNamed codec s
      → Holds codec name q s
      → Holds codec name q (settle codec m via r (send m.now r) s).0
  unfolding settle log held_record
  settle-Holds m via r send s json refused named h = elim (Option-cases (send m.now r)) [
    | inr (error, e) ↦ rw e (
        log_failure-Holds m via (mark_failure codec m.now m.os r.record_id (some error) m.draw s)
          (mark_failure-Holds m.now m.os r.record_id (some error) m.draw s json named h))
    | inl e ↦ elim (Bool-cases (text_eq (path r.record_id) name)) [
      | inl f ↦ absurd (ground (arith, e, refused ((text_eq_iff (path r.record_id) name).0 f)))
      | inr f ↦ rw e (
          delete-Holds m.now m.os r.record_id (log m.now (sent send_succeeded no_error via r) s) f
            h)
    ]
  ]
