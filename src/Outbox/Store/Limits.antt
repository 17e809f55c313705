-- ===== src/Outbox/Store/Limits.antt =====
-- internal/outbox/store.go: the loop that drops the oldest records until the outbox is within its
-- limits.
use mgate_agent.Base.{
  ℕ, zero, suc, ◌<◌, ◌≡◌, refl, sym, ap, subst, true, false, ◌⊎◌, inl, inr, Option, none, some,
  List, [], ◌∷◌, ltb, arith, Bool-cases, Option-cases, length, All, Result, ok, err, Result-cases,
  is_some,
}
use mgate_agent.Base.Maps.{lookup, remove, lookup-remove, length-remove-lt}
use mgate_agent.Base.Text.{Text, text_eq, has_suffix}
use mgate_agent.Audit.{Event}
use mgate_agent.Outbox.{Record, Codec}
use mgate_agent.Outbox.Store.{
  Os, Store, StoreError, path, log, remove_file, json_suffix, held_record, read_record_file,
  read-held, read_all, names_of, list_locked, sort_by_creation, insert_by_creation,
}
use mgate_agent.Outbox.Store.Operations.{within_limits, dropped, enforce_limits}

-- every record of the folder lies in the file of its own id, which Save and MarkFailure see to
abbrev pub IsNamed : Codec → Store → Type 0
IsNamed codec s =
    (name : Text) (r : Record)
    → has_suffix name json_suffix ≡ true
    → held_record codec name s ≡ ok r
    → path r.record_id ≡ name

-- the record lies in the folder
abbrev pub IsStored : Store → Record → Type 0
IsStored s r = is_some (lookup (path r.record_id) s.files) ≡ true

pub read-some :
    (codec : Codec) (name : Text) (s : Store) (r : Record)
    → held_record codec name s ≡ ok r
    → is_some (lookup name s.files) ≡ true
unfolding held_record
read-some codec name s r h = elim (Option-cases (lookup name s.files)) [
  | inl e ↦ ground (arith, e, h)
  | inr (entry, e) ↦ rw e refl
]

read_all-IsStored :
    (codec : Codec) (os : Os) (s : Store)
    → IsNamed codec s
    → (names : List Text) → All (IsStored s) (read_all codec os names s)
unfolding read_all
read_all-IsStored codec os s named [] = tt
read_all-IsStored codec os s named (name ∷ names) =
    elim (Bool-cases (has_suffix name json_suffix)) [
      | inr e ↦ rw e (read_all-IsStored codec os s named names)
      | inl e ↦ elim (Result-cases (read_record_file codec os name s)) [
        | inr (_, f) ↦ rw (e, f) (read_all-IsStored codec os s named names)
        | inl (r, f) ↦
            rw (e, f)
              (
                subst (λ t. is_some (lookup t s.files) ≡ true)
                    (sym (named name r e (read-held codec os name s r f)))
                    (read-some codec name s r (read-held codec os name s r f)),
                read_all-IsStored codec os s named names,
              )
      ]
    ]

insert_by_creation-IsStored :
    (s : Store) (r : Record) (rs : List Record)
    → IsStored s r
    → All (IsStored s) rs
    → All (IsStored s) (insert_by_creation r rs)
unfolding insert_by_creation
insert_by_creation-IsStored s r [] h a = (h, tt)
insert_by_creation-IsStored s r (q ∷ rs) h (b, a) =
    elim (Bool-cases (ltb q.created_at r.created_at)) [
      | inl e ↦ rw e (b, insert_by_creation-IsStored s r rs h a)
      | inr e ↦ rw e (h, (b, a))
    ]

sort_by_creation-IsStored :
    (s : Store) (rs : List Record) → All (IsStored s) rs → All (IsStored s) (sort_by_creation rs)
unfolding sort_by_creation
sort_by_creation-IsStored s [] a = tt
sort_by_creation-IsStored s (r ∷ rs) (b, a) =
    insert_by_creation-IsStored s r (sort_by_creation rs) b (sort_by_creation-IsStored s rs a)

-- the record that the loop drops lies in the folder
list_locked-IsStored :
    (codec : Codec) (os : Os) (s : Store) (r : Record) (rs : List Record)
    → IsNamed codec s
    → list_locked codec os s ≡ ok (r ∷ rs)
    → IsStored s r
unfolding list_locked
list_locked-IsStored codec os s r rs named h = elim (Bool-cases os.listable) [
  | inr e ↦ absurd (ground (arith, e, h))
  | inl e ↦
      let listed : sort_by_creation (read_all codec os (names_of s.files) s) ≡ r ∷ rs =
        ground (arith, e, h) in
      let stored : All (IsStored s) (r ∷ rs) = subst (All (IsStored s)) listed (
        sort_by_creation-IsStored s (read_all codec os (names_of s.files) s)
          (read_all-IsStored codec os s named (names_of s.files))) in
      stored.0
]

-- what a successful os.Remove leaves
pub removed :
    (os : Os) (name : Text) (s t : Store)
    → is_some (lookup name s.files) ≡ true
    → remove_file os name s ≡ ok t
    → t ≡ record s { files = remove name s.files }
unfolding remove_file
removed os name s t there h = elim (Option-cases (lookup name s.files)) [
  | inl e ↦ absurd (ground (arith, e, there))
  | inr (entry, e) ↦ elim (Bool-cases (os.removable name)) [
    | inl f ↦ ground (arith, e, f, h)
    | inr f ↦ absurd (ground (arith, e, f, h))
  ]
]

pub removed-IsNamed :
    (codec : Codec) (name : Text) (s : Store)
    → IsNamed codec s
    → IsNamed codec (record s { files = remove name s.files })
unfolding held_record
removed-IsNamed codec name s named n r suffix h = elim (Bool-cases (text_eq name n)) [
  | inl e ↦ absurd (ground (arith, e, h, lookup-remove name n s.files))
  | inr e ↦ named n r suffix (ground (arith, e, h, lookup-remove name n s.files))
]

pub log-IsNamed :
    (codec : Codec) (now : ℕ) (e : Event) (s : Store)
    → IsNamed codec s
    → IsNamed codec (log now e s)
unfolding log held_record
log-IsNamed codec now e s named = named

log_fewer :
    (now : ℕ) (e : Event) (s t : Store) (name : Text) (rounds : ℕ)
    → is_some (lookup name s.files) ≡ true
    → length s.files < suc rounds
    → t ≡ record s { files = remove name s.files }
    → length (log now e t).files < rounds
unfolding log
log_fewer now e s t name rounds there h eq = elim (Option-cases (lookup name s.files)) [
  | inl none_there ↦ absurd (ground (arith, none_there, there))
  | inr (entry, found) ↦
      let fewer = length-remove-lt name s.files entry found in
      let same : t.files ≡ remove name s.files = ap (λ u. u.files) eq in
      rw same (omega (arith, fewer, h))
]

-- the system refuses to list the folder, or to remove a file of it
abbrev pub Refuses : Os → Type 0
Refuses os = (os.listable ≡ false) ⊎ ((name : Text) × (os.removable name ≡ false))

list_locked-Refuses :
    (codec : Codec) (os : Os) (s : Store) (e : StoreError)
    → list_locked codec os s ≡ err e
    → Refuses os
unfolding list_locked
list_locked-Refuses codec os s e h = elim (Bool-cases os.listable) [
  | inr f ↦ inl f
  | inl f ↦ absurd (ground (arith, f, h))
]

remove_file-Refuses :
    (os : Os) (name : Text) (s : Store) (e : StoreError)
    → remove_file os name s ≡ err e
    → Refuses os
unfolding remove_file
remove_file-Refuses os name s e h = elim (Bool-cases (os.removable name)) [
  | inr f ↦ inr (name, f)
  | inl f ↦ elim (Option-cases (lookup name s.files)) [
    | inl g ↦ absurd (ground (arith, f, g, h))
    | inr (_, g) ↦ absurd (ground (arith, f, g, h))
  ]
]

-- the loop has ended within the limits, with no record left, or with an error of a system that
-- refuses
abbrev pub Enforced : Codec → Os → Option (Store × Result StoreError (Unit {0})) → Type 0
Enforced codec os none = ⊥
Enforced codec os (some (t, err e)) = Refuses os
Enforced codec os (some (t, ok _)) =
    (rs : List Record) × (list_locked codec os t ≡ ok rs)
    × ((rs ≡ []) ⊎ (within_limits os t rs ≡ true))

step-Enforced :
    (codec : Codec) (now : ℕ) (os : Os) (s : Store) (rounds : ℕ)
    → ((drop : Record) (rs : List Record) (t : Store)
        → list_locked codec os s ≡ ok (drop ∷ rs)
        → remove_file os (path drop.record_id) s ≡ ok t
        → Enforced codec os (enforce_limits codec rounds now os (log now (dropped drop) t)))
    → Enforced codec os (enforce_limits codec (suc rounds) now os s)
unfolding enforce_limits
step-Enforced codec now os s rounds next = elim (Result-cases (list_locked codec os s)) [
  | inr (e, h) ↦
      ends (some (s, err e)) (rw (enforce_limits, h) refl) (list_locked-Refuses codec os s e h)
  | inl ([], h) ↦ ends (some (s, ok tt)) (rw (enforce_limits, h) refl) ([], h, inl refl)
  | inl (drop ∷ rs, h) ↦ elim (Bool-cases (within_limits os s (drop ∷ rs))) [
    | inl w ↦ ends (some (s, ok tt)) (rw (enforce_limits, h, w) refl) (drop ∷ rs, h, inr w)
    | inr w ↦ elim (Result-cases (remove_file os (path drop.record_id) s)) [
      | inr (e, f) ↦
          ends (some (s, err e)) (rw (enforce_limits, h, w, f) refl)
            (remove_file-Refuses os (path drop.record_id) s e f)
      | inl (t, f) ↦
          ends (enforce_limits codec rounds now os (log now (dropped drop) t))
            (rw (enforce_limits, h, w, f) refl) (next drop rs t h f)
    ]
  ]
]
  where
    ends :
        (o : Option (Store × Result StoreError (Unit {0})))
        → enforce_limits codec (suc rounds) now os s ≡ o
        → Enforced codec os o
        → Enforced codec os (enforce_limits codec (suc rounds) now os s)
    ends o e h = subst (Enforced codec os) (sym e) h

-- Where every record lies in the file of its own id, the loop of enforceLimitsLocked ends after at
-- most one round more than there are files, and then the outbox is within both limits or holds no
-- record, unless the system refuses to list the folder or to remove a file.
pub enforce_limits-Enforced :
    (codec : Codec) (now : ℕ) (os : Os) (s : Store) (rounds : ℕ)
    → IsNamed codec s
    → length s.files < rounds
    → Enforced codec os (enforce_limits codec rounds now os s)
enforce_limits-Enforced codec now os s zero named h = absurd (omega (arith, h))
enforce_limits-Enforced codec now os s (suc rounds) named h =
    step-Enforced codec now os s rounds (λ drop rs t listed f.
      let stored = list_locked-IsStored codec os s drop rs named listed in
      enforce_limits-Enforced codec now os (log now (dropped drop) t) rounds
        (log-IsNamed codec now (dropped drop) t (
          subst (IsNamed codec) (sym (removed os (path drop.record_id) s t stored f))
            (removed-IsNamed codec (path drop.record_id) s named)))
        (log_fewer now (dropped drop) s t (path drop.record_id) rounds stored h
          (removed os (path drop.record_id) s t stored f)))
