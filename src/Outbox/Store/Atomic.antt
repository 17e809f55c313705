-- ===== src/Outbox/Store/Atomic.antt =====
-- internal/outbox/store.go: what a failing write leaves in the folder.
use mgate_agent.Base.{
  ℕ, ◌||◌, ap, ◌∷◌, length, length-append, ◌≡◌, refl, sym, subst, ◌∙◌, true, false, ◌⊎◌, inl, inr,
  Option, none, some, ◌++◌, [], ◌∷◌, take, Option-cases, Result, ok, err, if◌then◌else◌, Bool-cases,
  arith,
}
use mgate_agent.Base.Maps.{Map, lookup, insert, remove, lookup-insert, lookup-remove}
use mgate_agent.Base.Text.{Text, text_eq, text_eq_refl, text_eq→eq, has_suffix}
use mgate_agent.Outbox.{Record, Codec}
use mgate_agent.Outbox.Store.{
  json_suffix, Entry, file, Fault, opening, writing, syncing, closing, renaming, Os, Store,
  StoreError, not_encodable, write_refused, path, tmp_suffix, put, rename, write_record_atomic,
  write_steps,
}

tmp_no_json_at : (c : ℕ) (t : Text) → text_eq (c ∷ t ++ tmp_suffix) json_suffix ≡ false
unfolding text_eq
tmp_no_json_at c [] = ground arith
tmp_no_json_at c (d ∷ t) = elim (Bool-cases (text_eq (c ∷ d ∷ t ++ tmp_suffix) json_suffix)) [
  | inr e ↦ e
  | inl e ↦
      let same = ap length (text_eq→eq (c ∷ d ∷ t ++ tmp_suffix) json_suffix e) in
      absurd (omega (arith, same, length-append t tmp_suffix))
]

tmp_no_json : (t : Text) → has_suffix (t ++ tmp_suffix) json_suffix ≡ false
unfolding has_suffix
tmp_no_json [] = refl
tmp_no_json (c ∷ t) =
    ap (λ b. b || has_suffix (t ++ tmp_suffix) json_suffix) (tmp_no_json_at c t) ∙ tmp_no_json t

-- a temporary file is no record
pub tmp-is-other :
    (t name : Text) → has_suffix name json_suffix ≡ true → text_eq (t ++ tmp_suffix) name ≡ false
tmp-is-other t name h = elim (Bool-cases (text_eq (t ++ tmp_suffix) name)) [
  | inr e ↦ e
  | inl e ↦ absurd (
      ground (
        arith,
        tmp_no_json t,
        subst (λ n. has_suffix n json_suffix ≡ true) (sym (text_eq→eq (t ++ tmp_suffix) name e)) h,
      ))
]

-- The write went through, and the file of the record holds the whole encoding; every other file
-- is as it was.
abbrev pub Written : Codec → Record → Text → Store → Store × Result StoreError (Unit {0}) → Type 0
Written codec r name s (t, answer) =
    (answer ≡ ok tt)
    × (data' : Text) × (codec.encode r ≡ some data')
    × (lookup name t.files
        ≡ (if text_eq (path r.record_id) name then some (file data') else lookup name s.files))

-- The write failed, and the file is as it was.
abbrev pub Untouched : Text → Store → Store × Result StoreError (Unit {0}) → Type 0
Untouched name s (t, answer) =
    (e : StoreError) × (answer ≡ err e) × (lookup name t.files ≡ lookup name s.files)

temporary :
    (tmp name : Text) (entry : Entry) (files : Map Entry)
    → text_eq tmp name ≡ false
    → lookup name (insert tmp entry files) ≡ lookup name files
temporary tmp name entry files h = rw (lookup-insert tmp name entry files) (rw h refl)

renamed :
    (tmp final name : Text) (entry : Entry) (files : Map Entry)
    → text_eq tmp name ≡ false
    → lookup name (rename tmp final (insert tmp entry files))
      ≡ (if text_eq final name then some entry else lookup name files)
unfolding rename
renamed tmp final name entry files h =
    let there : lookup tmp (insert tmp entry files) ≡ some entry =
      ground (arith, lookup-insert tmp tmp entry files, text_eq_refl tmp) in
    rw (rename, there)
      (ground (
        arith,
        lookup-insert final name entry (remove tmp (insert tmp entry files)),
        lookup-remove tmp name (insert tmp entry files),
        lookup-insert tmp name entry files,
      ))

steps_all_or_nothing :
    (codec : Codec) (r : Record) (s : Store) (name data' : Text)
    → codec.encode r ≡ some data'
    → text_eq (path r.record_id ++ tmp_suffix) name ≡ false
    → (fault : Option Fault)
    → Written codec r name s (write_steps fault (path r.record_id) data' s)
      ⊎ Untouched name s (write_steps fault (path r.record_id) data' s)
unfolding write_steps put
steps_all_or_nothing codec r s name data' e h (some opening) = inr (write_refused, refl, refl)
steps_all_or_nothing codec r s name data' e h (some (writing n)) = inr (
  write_refused,
  refl,
  temporary (path r.record_id ++ tmp_suffix) name (file (take n data')) s.files h,
)
steps_all_or_nothing codec r s name data' e h (some syncing) =
    inr
      (write_refused, refl, temporary (path r.record_id ++ tmp_suffix) name (file data') s.files h)
steps_all_or_nothing codec r s name data' e h (some closing) =
    inr
      (write_refused, refl, temporary (path r.record_id ++ tmp_suffix) name (file data') s.files h)
steps_all_or_nothing codec r s name data' e h (some renaming) =
    inr
      (write_refused, refl, temporary (path r.record_id ++ tmp_suffix) name (file data') s.files h)
steps_all_or_nothing codec r s name data' e h none = inl (
  refl,
  data',
  e,
  renamed (path r.record_id ++ tmp_suffix) (path r.record_id) name (file data') s.files h,
)

write_unencodable :
    (codec : Codec) (os : Os) (r : Record) (s : Store)
    → codec.encode r ≡ none
    → write_record_atomic codec os r s ≡ (s, err not_encodable)
unfolding write_record_atomic
write_unencodable codec os r s e = rw (write_record_atomic, e) refl

pub write_encoded :
    (codec : Codec) (os : Os) (r : Record) (s : Store) (data' : Text)
    → codec.encode r ≡ some data'
    → write_record_atomic codec os r s ≡ write_steps os.fault (path r.record_id) data' s
unfolding write_record_atomic write_steps
write_encoded codec os r s data' e = rw (write_record_atomic, e) refl

-- A write of a record either succeeds, and then the file of the record holds its whole encoding, or
-- fails, and then that file is as it was, whichever step the operating system refuses and however
-- many bytes it has taken. Any other file is as it was, but for the temporary one.
pub write_record_atomic_all_or_nothing :
    (codec : Codec) (os : Os) (r : Record) (s : Store) (name : Text)
    → text_eq (path r.record_id ++ tmp_suffix) name ≡ false
    → Written codec r name s (write_record_atomic codec os r s)
      ⊎ Untouched name s (write_record_atomic codec os r s)
write_record_atomic_all_or_nothing codec os r s name h = elim (Option-cases (codec.encode r)) [
  | inl e ↦
      subst (λ w. Written codec r name s w ⊎ Untouched name s w)
        (sym (write_unencodable codec os r s e)) (inr (not_encodable, refl, refl))
  | inr (data', e) ↦
      subst (λ w. Written codec r name s w ⊎ Untouched name s w)
        (sym (write_encoded codec os r s data' e))
        (steps_all_or_nothing codec r s name data' e h os.fault)
]
