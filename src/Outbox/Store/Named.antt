-- ===== src/Outbox/Store/Named.antt =====
-- internal/outbox/store.go: a record lies in the file of its own id, and then every loop ends.
use mgate_agent.Base.{
  ℕ, zero, suc, ◌+◌, ◌≤◌, ◌<◌, ◌≡◌, refl, sym, ◌∙◌, subst, ap, inl, inr, Option, none, some, [],
  ◌∷◌, ◌++◌, Bool-cases, Option-cases, arith, length, Result, ok, err, Result-cases, take,
}
use mgate_agent.Base.Maps.{lookup, remove, insert, length-remove-le, length-insert-le}
use mgate_agent.Base.Text.{Text, text_eq, text_eq_iff}
use mgate_agent.Protocol.{Envelope}
use mgate_agent.Outbox.{Record, Codec}
use mgate_agent.Outbox.Store.{
  Os, Store, StoreError, file, Fault, opening, syncing, closing, renaming, writing, path, log,
  remove_file, rename, put, held_record, read_record_file, write_record_atomic, write_steps,
  tmp_suffix, is_valid, list_locked, refused,
}
use mgate_agent.Outbox.Store.Operations.{
  enforce_limits, within_limits, dropped, record_to_save, save, saved, answer_save, mark_failure,
  failed, delete, deleted, enough_rounds,
}
use mgate_agent.Outbox.Store.Atomic.{
  write_record_atomic_all_or_nothing, tmp-is-other, write_encoded,
}
use mgate_agent.Outbox.Store.Limits.{
  IsNamed, Enforced, enforce_limits-Enforced, removed, removed-IsNamed, log-IsNamed,
}

-- what is decoded has the id of the record that was encoded
abbrev pub KeepsId : Codec → Type 0
KeepsId codec =
    (r q : Record) (data' : Text)
    → codec.encode r ≡ some data'
    → codec.decode data' ≡ some q
    → q.record_id ≡ r.record_id

-- a read record is what the file decodes to
read-decoded :
    (codec : Codec) (name data' : Text) (s : Store) (q : Record)
    → lookup name s.files ≡ some (file data')
    → held_record codec name s ≡ ok q
    → codec.decode data' ≡ some q
unfolding held_record
read-decoded codec name data' s q e h = elim (Option-cases (codec.decode data')) [
  | inl f ↦ absurd (ground (arith, e, f, h))
  | inr (r, f) ↦ elim (Bool-cases (is_valid r)) [
    | inl g ↦ ground (arith, e, f, g, h)
    | inr g ↦ absurd (ground (arith, e, f, g, h))
  ]
]

-- the same files of a name read the same
pub read_same :
    (codec : Codec) (name : Text) (s t : Store)
    → lookup name t.files ≡ lookup name s.files
    → held_record codec name t ≡ held_record codec name s
unfolding held_record
read_same codec name s t e = rw (held_record, e) refl

pub write_record_atomic-IsNamed :
    (codec : Codec) (os : Os) (r : Record) (s : Store)
    → KeepsId codec
    → IsNamed codec s
    → IsNamed codec (write_record_atomic codec os r s).0
write_record_atomic-IsNamed codec os r s keeps named name q json h =
    let t = (write_record_atomic codec os r s).0 in
    elim (write_record_atomic_all_or_nothing codec os r s name
      (tmp-is-other (path r.record_id) name json)) [
        | inl (_, data', encoded, e) ↦ elim (Bool-cases (text_eq (path r.record_id) name)) [
          | inl f ↦
              let there : lookup name t.files ≡ some (file data') = ground (arith, e, f) in
              ap path (keeps r q data' encoded (read-decoded codec name data' t q there h))
              ∙ (text_eq_iff (path r.record_id) name).0 f
          | inr f ↦ named name q json (sym (read_same codec name s t (ground (arith, e, f))) ∙ h)
        ]
        | inr (_, _, e) ↦ named name q json (sym (read_same codec name s t e) ∙ h)
      ]

-- a write adds at most two files
write_steps-length :
    (fault : Option Fault) (final_path data' : Text) (s : Store)
    → length (write_steps fault final_path data' s).0.files ≤ length s.files + 2
unfolding write_steps put rename
write_steps-length (some opening) p d s = omega arith
write_steps-length (some (writing n)) p d s =
    omega (arith, length-insert-le (p ++ tmp_suffix) (file (take n d)) s.files)
write_steps-length (some syncing) p d s =
    omega (arith, length-insert-le (p ++ tmp_suffix) (file d) s.files)
write_steps-length (some closing) p d s =
    omega (arith, length-insert-le (p ++ tmp_suffix) (file d) s.files)
write_steps-length (some renaming) p d s =
    omega (arith, length-insert-le (p ++ tmp_suffix) (file d) s.files)
write_steps-length none p d s =
    let files = insert (p ++ tmp_suffix) (file d) s.files in
    let first = length-insert-le (p ++ tmp_suffix) (file d) s.files in
    elim (Option-cases (lookup (p ++ tmp_suffix) files)) [
      | inl e ↦ rw (rename, e) (omega (arith, first))
      | inr (entry, e) ↦
          rw (rename, e)
            (omega (
              arith,
              first,
              length-remove-le (p ++ tmp_suffix) files,
              length-insert-le p entry (remove (p ++ tmp_suffix) files),
            ))
    ]

write_record_atomic-length :
    (codec : Codec) (os : Os) (r : Record) (s : Store)
    → length (write_record_atomic codec os r s).0.files ≤ length s.files + 2
unfolding write_record_atomic
write_record_atomic-length codec os r s = elim (Option-cases (codec.encode r)) [
  | inl e ↦ rw (write_record_atomic, e) (omega arith)
  | inr (data', e) ↦
      subst (λ w. length w.0.files ≤ length s.files + 2) (sym (write_encoded codec os r s data' e))
        (write_steps-length os.fault (path r.record_id) data' s)
]

remove_file-IsNamed :
    (codec : Codec) (os : Os) (name : Text) (s t : Store)
    → IsNamed codec s
    → remove_file os name s ≡ ok t
    → IsNamed codec t
unfolding remove_file
remove_file-IsNamed codec os name s t named h = elim (Option-cases (lookup name s.files)) [
  | inl e ↦ subst (IsNamed codec) (ground (arith, e, h)) named
  | inr (entry, e) ↦
      subst (IsNamed codec) (sym (removed os name s t (rw e refl) h))
        (removed-IsNamed codec name s named)
]

enforce_limits-IsNamed :
    (codec : Codec) (now : ℕ) (os : Os) (rounds : ℕ) (s t : Store)
    (r : Result StoreError (Unit {0}))
    → IsNamed codec s
    → enforce_limits codec rounds now os s ≡ some (t, r)
    → IsNamed codec t
unfolding enforce_limits
enforce_limits-IsNamed codec now os zero s t r named h = absurd (ground (arith, h))
enforce_limits-IsNamed codec now os (suc rounds) s t r named h =
    elim (Result-cases (list_locked codec os s)) [
      | inr (e, f) ↦ ends (ground (arith, f, h))
      | inl ([], f) ↦ ends (ground (arith, f, h))
      | inl (drop ∷ rs, f) ↦ elim (Bool-cases (within_limits os s (drop ∷ rs))) [
        | inl g ↦ ends (ground (arith, f, g, h))
        | inr g ↦ elim (Result-cases (remove_file os (path drop.record_id) s)) [
          | inr (e, q) ↦ ends (ground (arith, f, g, q, h))
          | inl (u, q) ↦
              enforce_limits-IsNamed codec now os rounds (log now (dropped drop) u) t r
                (log-IsNamed codec now (dropped drop) u
                  (remove_file-IsNamed codec os (path drop.record_id) s u named q))
                (ground (arith, f, g, q, h))
        ]
      ]
    ]
  where
    ends : s ≡ t → IsNamed codec t
    ends e = subst (IsNamed codec) e named

enforce_limits-Ends :
    (codec : Codec) (now : ℕ) (os : Os) (s : Store) (rounds : ℕ)
    → IsNamed codec s
    → length s.files < rounds
    → (t : Store) × (r : Result StoreError (Unit {0})) × (enforce_limits codec rounds now os s
        ≡ some (t, r))
      × IsNamed codec t
enforce_limits-Ends codec now os s rounds named few =
    elim (Option-cases (enforce_limits codec rounds now os s)) [
      | inl e ↦
          absurd
            (subst (Enforced codec os) e (enforce_limits-Enforced codec now os s rounds named few))
      | inr ((t, r), e) ↦ (t, r, e, enforce_limits-IsNamed codec now os rounds s t r named e)
    ]

answer_save-IsNamed :
    (codec : Codec) (r : Record) (w : Store × Result StoreError (Unit {0}))
    → IsNamed codec w.0
    → IsNamed codec (answer_save r w).0
unfolding answer_save
answer_save-IsNamed codec r (t, ok _) named = named
answer_save-IsNamed codec r (t, err e) named = named

-- Save ends with the rounds that are enough
pub save-Ends :
    (codec : Codec) (now : ℕ) (os : Os) (env : Envelope) (s : Store)
    → KeepsId codec
    → IsNamed codec s
    → (t : Store) × (r : Result StoreError Record) × (save codec (enough_rounds s) now os env s
        ≡ some (t, r))
      × IsNamed codec t
unfolding save enough_rounds log
save-Ends codec now os env s keeps named = elim (Result-cases (record_to_save codec env now os s)) [
  | inr (e, f) ↦ (s, err (refused e), rw (save, f) refl, named)
  | inl (r, f) ↦
      let w = write_record_atomic codec os r s in
      let kept = write_record_atomic-IsNamed codec os r s keeps named in
      elim (Result-cases w.1) [
        | inr (e, g) ↦ (w.0, err e, rw (save, f, g) refl, kept)
        | inl (_, g) ↦
            let (t, a, q, fine) =
              enforce_limits-Ends codec now os (log now (saved r) w.0) (enough_rounds s)
                (log-IsNamed codec now (saved r) w.0 kept)
                (omega (arith, write_record_atomic-length codec os r s)) in
            let out = answer_save r (t, a) in
            (out.0, out.1, rw (save, f, g, q) refl, answer_save-IsNamed codec r (t, a) fine)
      ]
]

pub mark_failure-IsNamed :
    (codec : Codec) (now : ℕ) (os : Os) (id : Text) (send_error : Option Text) (draw : Option ℕ)
    (s : Store)
    → KeepsId codec
    → IsNamed codec s
    → IsNamed codec (mark_failure codec now os id send_error draw s).0
unfolding mark_failure
mark_failure-IsNamed codec now os id send_error draw s keeps named =
    elim (Result-cases (read_record_file codec os (path id) s)) [
      | inr (e, f) ↦
          let same : mark_failure codec now os id send_error draw s ≡ (s, err e) =
            rw (mark_failure, f) refl in
          subst (λ w. IsNamed codec w.0) (sym same) named
      | inl (r, f) ↦
          let marked = failed now send_error draw r in
          let same : mark_failure codec now os id send_error draw s
              ≡ answer_save marked (write_record_atomic codec os marked s) =
            rw (mark_failure, f) refl in
          subst (λ w. IsNamed codec w.0) (sym same)
            (answer_save-IsNamed codec marked (write_record_atomic codec os marked s)
              (write_record_atomic-IsNamed codec os marked s keeps named))
    ]

pub delete-IsNamed :
    (codec : Codec) (now : ℕ) (os : Os) (id : Text) (s : Store)
    → IsNamed codec s
    → IsNamed codec (delete codec now os id s).0
unfolding delete log
delete-IsNamed codec now os id s named = elim (Result-cases (remove_file os (path id) s)) [
  | inr (e, f) ↦
      let same : delete codec now os id s ≡ (s, err e) = rw (delete, f) refl in
      subst (λ w. IsNamed codec w.0) (sym same) named
  | inl (t, f) ↦
      let event = deleted id (read_record_file codec os (path id) s) in
      let same : delete codec now os id s ≡ (log now event t, ok tt) = rw (delete, f) refl in
      subst (λ w. IsNamed codec w.0) (sym same)
        (log-IsNamed codec now event t (remove_file-IsNamed codec os (path id) s t named f))
]
