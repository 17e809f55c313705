-- ===== src/Outbox/Store/Failure.antt =====
-- internal/outbox/store.go: a record after a send that failed.
use mgate_agent.Base.{
  ℕ, suc, ◌+◌, ◌*◌, ◌≤◌, ◌<◌, ◌≡◌, refl, sym, ◌∙◌, ap, subst, Bool, true, false, ◌⊎◌, inl, inr,
  Option, some, [], ◌∷◌, ◌++◌, ◌||◌, Bool-cases, Option-cases, arith, Result, ok, err,
}
use mgate_agent.Base.Maps.{lookup}
use mgate_agent.Base.Text.{Text, text_eq, text_eq_refl, has_suffix}
use mgate_agent.Protocol.{second}
use mgate_agent.Outbox.{Record, Codec}
use mgate_agent.Outbox.Retry.{retry_delay, retry_delay-eq-min, jittered_bounds, minute, pow_pos}
use mgate_agent.Outbox.Store.{
  folder, file, Os, Store, StoreError, path, held_record, read_record_file, write_record_atomic,
  json_suffix, is_valid, unreadable_file,
}
use mgate_agent.Outbox.Store.Operations.{mark_failure, failed, answer_save, is_due}
use mgate_agent.Outbox.Store.Atomic.{
  Written, Untouched, write_record_atomic_all_or_nothing, tmp-is-other,
}

retry_delay_bounds : (n : ℕ) → (5 * second ≤ retry_delay (suc n)) × (retry_delay (suc n) ≤ minute)
retry_delay_bounds n = rw (retry_delay-eq-min n) (grind (arith, pow_pos n))

-- After a send that failed a record is due again neither within the next four seconds nor later
-- than in 72 seconds, however the jitter falls and however often it has failed.
pub failed_window :
    (now : ℕ) (send_error : Option Text) (draw : Option ℕ) (r : Record) (later : ℕ)
    → later < now + 4 * second
    → (is_due later (failed now send_error draw r) ≡ false)
      × (is_due (now + 72 * second) (failed now send_error draw r) ≡ true)
unfolding is_due failed
failed_window now send_error draw r later h =
    let delay = retry_delay (suc r.attempts) in
    let bounds = retry_delay_bounds r.attempts in
    let jitter = jittered_bounds delay draw in
    (
      ground (arith, bounds.0, bounds.1, jitter.0, jitter.1),
      ground (arith, bounds.0, bounds.1, jitter.0, jitter.1),
    )

pub read-valid :
    (codec : Codec) (name : Text) (s : Store) (r : Record)
    → held_record codec name s ≡ ok r
    → is_valid r ≡ true
unfolding held_record
read-valid codec name s r h = elim (Option-cases (lookup name s.files)) [
  | inl e ↦ absurd (ground (arith, e, h))
  | inr (folder, e) ↦ absurd (ground (arith, e, h))
  | inr (file data', e) ↦ elim (Option-cases (codec.decode data')) [
    | inl d ↦ absurd (ground (arith, e, d, h))
    | inr (q, d) ↦ elim (Bool-cases (is_valid q)) [
      | inr v ↦ absurd (ground (arith, e, d, v, h))
      | inl v ↦ ground (arith, e, d, v, h)
    ]
  ]
]

pub read-decoded :
    (codec : Codec) (name data' : Text) (s : Store) (r : Record)
    → lookup name s.files ≡ some (file data')
    → codec.decode data' ≡ some r
    → is_valid r ≡ true
    → held_record codec name s ≡ ok r
unfolding held_record
read-decoded codec name data' s r e d v = rw (held_record, e) (rw d (rw v refl))

pub path-has_suffix : (id : Text) → has_suffix (path id) json_suffix ≡ true
unfolding path has_suffix text_eq
path-has_suffix [] = refl
path-has_suffix (c ∷ id) =
    ap (λ b. text_eq (c ∷ id ++ json_suffix) json_suffix || b) (path-has_suffix id)
    ∙ ||-true_right (text_eq (c ∷ id ++ json_suffix) json_suffix)
  where
    ||-true_right : (b : Bool) → (b || true) ≡ true
    ||-true_right true = refl
    ||-true_right false = refl

answer_save_ok :
    (q r : Record) (t : Store) (w : Store × Result StoreError (Unit {0}))
    → answer_save q w ≡ (t, ok r)
    → (w ≡ (t, ok tt)) × (r ≡ q)
unfolding answer_save
answer_save_ok q r t (u, err e) h = absurd cc
answer_save_ok q r t (u, ok _) h =
    let moved : u ≡ t = ap (λ w. w.0) h in (ap (λ v. (v, ok tt)) moved, cc)

-- a write that went through is read back
Written-read :
    (codec : Codec) (q : Record) (name : Text) (s t : Store)
    → ((data' : Text) → codec.encode q ≡ some data' → codec.decode data' ≡ some q)
    → path q.record_id ≡ name
    → is_valid q ≡ true
    → Written codec q name s (t, ok tt) ⊎ Untouched name s (t, ok tt)
    → held_record codec name t ≡ ok q
Written-read codec q name s t round_trip own valid (inr (e, g, _)) = absurd cc
Written-read codec q name s t round_trip own valid (inl (_, data', encoded, there)) =
    read-decoded codec name data' t q (ground (arith, there, own, text_eq_refl name))
      (round_trip data' encoded) valid

-- MarkFailure that succeeds has read the record of the file
mark_failure-reads :
    (codec : Codec) (now : ℕ) (os : Os) (id : Text) (send_error : Option Text) (draw : Option ℕ)
    (s t : Store) (old r : Record)
    → held_record codec (path id) s ≡ ok old
    → mark_failure codec now os id send_error draw s ≡ (t, ok r)
    → read_record_file codec os (path id) s ≡ ok old
unfolding mark_failure read_record_file
mark_failure-reads codec now os id send_error draw s t old r f h =
    elim (Bool-cases (os.readable (path id))) [
      | inl e ↦ rw (read_record_file, e) f
      | inr e ↦
          let lost : mark_failure codec now os id send_error draw s ≡ (s, err unreadable_file) =
            rw (mark_failure, e) refl in
          let answer : err unreadable_file ≡ ok r = ap (λ w. w.1) (sym lost ∙ h) in absurd cc
    ]

-- When MarkFailure succeeds for an id whose file holds a record of that id, it answers the failed
-- record, which has an attempt more, and the outbox then holds that one in its place, provided that
-- the codec reads back what it has written of it.
pub mark_failure_keeps :
    (codec : Codec) (now : ℕ) (os : Os) (id : Text) (send_error : Option Text) (draw : Option ℕ)
    (s t : Store) (old r : Record)
    → ((data' : Text)
        → codec.encode (failed now send_error draw old) ≡ some data'
        → codec.decode data' ≡ some (failed now send_error draw old))
    → held_record codec (path id) s ≡ ok old
    → path old.record_id ≡ path id
    → mark_failure codec now os id send_error draw s ≡ (t, ok r)
    → (r ≡ failed now send_error draw old) × (held_record codec (path id) t ≡ ok r)
unfolding mark_failure
mark_failure_keeps codec now os id send_error draw s t old r round_trip f own h =
    let f' = mark_failure-reads codec now os id send_error draw s t old r f h in
    let q = failed now send_error draw old in
    let w = write_record_atomic codec os q s in
    let same : mark_failure codec now os id send_error draw s ≡ answer_save q w =
      rw (mark_failure, f') refl in
    let (written, made) = answer_save_ok q r t w (sym same ∙ h) in
    let outcome =
      write_record_atomic_all_or_nothing codec os q s (path id)
        (tmp-is-other (path old.record_id) (path id) (path-has_suffix id)) in
    (
      made,
      Written-read codec q (path id) s t round_trip own (read-valid codec (path id) s old f)
            (subst (λ v. Written codec q (path id) s v ⊎ Untouched (path id) s v) written outcome)
          ∙ ap ok (sym made),
    )
