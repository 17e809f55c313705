-- ===== src/Outbox/Store/Startup.antt =====
-- internal/outbox/store.go: what the outbox keeps when it is opened.
use mgate_agent.Base.{
  ℕ, ◌≡◌, refl, sym, ◌∙◌, ap, subst, Bool, true, false, inl, inr, List, [], ◌∷◌, ◌++◌, ◌||◌,
  Bool-cases, Option-cases, arith, length, length-append, Result, ok, err, Result-cases,
}
use mgate_agent.Base.Maps.{Map, lookup, remove, lookup-insert, lookup-remove}
use mgate_agent.Base.Text.{Text, codes, text_eq, text_eq→eq, has_suffix}
use mgate_agent.Outbox.{Record, Codec}
use mgate_agent.Outbox.Store.{
  Entry, folder, file, Os, Store, StoreError, log, remove_file, rename, held_record,
  read_record_file, json_suffix, tmp_suffix, names_of, unmakeable_dir, unreadable_dir,
}
use mgate_agent.Outbox.Store.Operations.{load_entry, load_entries, load, corrupted}

not_both : (name : Text) → has_suffix name tmp_suffix ≡ true → has_suffix name json_suffix ≡ false
unfolding has_suffix text_eq
not_both [] h = refl
not_both (c ∷ s) h = elim (Bool-cases (text_eq (c ∷ s) tmp_suffix)) [
  | inl e ↦
      subst (λ n. has_suffix n json_suffix ≡ false) (sym (text_eq→eq (c ∷ s) tmp_suffix e)) refl
  | inr e ↦ elim (Bool-cases (text_eq (c ∷ s) json_suffix)) [
    | inl f ↦ absurd (
        ground
          (arith, subst (λ n. has_suffix n tmp_suffix ≡ true) (text_eq→eq (c ∷ s) json_suffix f) h))
    | inr f ↦
        ap (λ b. b || has_suffix s json_suffix) f
        ∙ not_both s (sym (ap (λ b. b || has_suffix s tmp_suffix) e) ∙ h)
  ]
]

set_aside : (t : Text) → has_suffix (t ++ codes ".bad") json_suffix ≡ false
unfolding has_suffix text_eq
set_aside [] = refl
set_aside (c ∷ t) =
    ap (λ b. b || has_suffix (t ++ codes ".bad") json_suffix) (at_head c t) ∙ set_aside t
  where
    at_head : (c : ℕ) (t : Text) → text_eq (c ∷ t ++ codes ".bad") json_suffix ≡ false
    at_head c [] = ground arith
    at_head c (d ∷ t) = elim (Bool-cases (text_eq (c ∷ d ∷ t ++ codes ".bad") json_suffix)) [
      | inr e ↦ e
      | inl e ↦
          let same = ap length (text_eq→eq (c ∷ d ∷ t ++ codes ".bad") json_suffix e) in
          absurd (omega (arith, same, length-append t (codes ".bad")))
    ]

-- names that a test tells apart
apart : (p : Text → Bool) (m n : Text) → p m ≡ false → p n ≡ true → text_eq m n ≡ false
apart p m n h k = elim (Bool-cases (text_eq m n)) [
  | inr e ↦ e
  | inl e ↦ absurd (ground (arith, h, k, ap p (text_eq→eq m n e)))
]

remove_file-lookup :
    (os : Os) (n : Text) (s t : Store) (name : Text)
    → text_eq n name ≡ false
    → remove_file os n s ≡ ok t
    → lookup name t.files ≡ lookup name s.files
unfolding remove_file
remove_file-lookup os n s t name other f = elim (Option-cases (lookup n s.files)) [
  | inl e ↦ ground (arith, e, f)
  | inr (_, e) ↦ elim (Bool-cases (os.removable n)) [
    | inr g ↦ absurd (ground (arith, e, f, g))
    | inl g ↦
        let same : record s { files = remove n s.files } ≡ t = ground (arith, e, f, g) in
        ap (λ u. lookup name u.files) (sym same)
        ∙ ground (arith, lookup-remove n name s.files, other)
  ]
]

rename-lookup :
    (old new name : Text) (files : Map Entry)
    → text_eq old name ≡ false
    → text_eq new name ≡ false
    → lookup name (rename old new files) ≡ lookup name files
unfolding rename
rename-lookup old new name files h k = elim (Option-cases (lookup old files)) [
  | inl e ↦ rw (rename, e) refl
  | inr (entry, e) ↦
      rw (rename, e)
        (ground (
          arith,
          lookup-insert new name entry (remove old files),
          lookup-remove old name files,
          h,
          k,
        ))
]

read_same :
    (codec : Codec) (name : Text) (s t : Store)
    → lookup name t.files ≡ lookup name s.files
    → held_record codec name t ≡ held_record codec name s
unfolding held_record
read_same codec name s t h = rw (held_record, h) refl

unread_apart :
    (codec : Codec) (os : Os) (s : Store) (n name : Text) (x : StoreError) (r : Record)
    → os.readable name ≡ true
    → read_record_file codec os n s ≡ err x
    → held_record codec name s ≡ ok r
    → text_eq n name ≡ false
unfolding read_record_file
unread_apart codec os s n name x r can f h = elim (Bool-cases (text_eq n name)) [
  | inr e ↦ e
  | inl e ↦
      let there : read_record_file codec os name s ≡ ok r = rw (read_record_file, can) h in
      let lost : read_record_file codec os name s ≡ err x =
        subst (λ m. read_record_file codec os m s ≡ err x) (text_eq→eq n name e) f in
      absurd (ground (arith, there, lost))
]

-- what a record's file holds stays through the entry of any name
load_entry-lookup :
    (codec : Codec) (now : ℕ) (os : Os) (n : Text) (s : Store) (name : Text) (r : Record)
    → has_suffix name json_suffix ≡ true
    → os.readable name ≡ true
    → held_record codec name s ≡ ok r
    → lookup name (load_entry codec now os n s).files ≡ lookup name s.files
unfolding load_entry log
load_entry-lookup codec now os n s name r json can h = elim (Option-cases (lookup n s.files)) [
  | inl e ↦ files_of s (rw (load_entry, e) refl) refl
  | inr (folder, e) ↦ files_of s (rw (load_entry, e) refl) refl
  | inr (file data', e) ↦ elim (Bool-cases (has_suffix n tmp_suffix)) [
    | inl tmp ↦ elim (Result-cases (remove_file os n s)) [
      | inr (_, f) ↦ files_of s (rw (load_entry, e, tmp, f) refl) refl
      | inl (t, f) ↦ files_of t (rw (load_entry, e, tmp, f) refl) (
          remove_file-lookup os n s t name
            (apart (λ m. has_suffix m json_suffix) n name (not_both n tmp) json) f)
    ]
    | inr tmp ↦ elim (Bool-cases (has_suffix n json_suffix)) [
      | inr j ↦ files_of s (rw (load_entry, e, tmp, j) refl) refl
      | inl j ↦ elim (Result-cases (read_record_file codec os n s)) [
        | inl (_, f) ↦ files_of s (rw (load_entry, e, tmp, j, f) refl) refl
        | inr (x, f) ↦
            let aside = record s { files = rename n (n ++ codes ".bad") s.files } in
            files_of (log now (corrupted n) aside) (rw (load_entry, e, tmp, j, f) refl) (
              rename-lookup n (n ++ codes ".bad") name s.files
                (unread_apart codec os s n name x r can f h)
                (apart (λ m. has_suffix m json_suffix) (n ++ codes ".bad") name (set_aside n) json))
      ]
    ]
  ]
]
  where
    files_of :
        (t : Store)
        → load_entry codec now os n s ≡ t
        → lookup name t.files ≡ lookup name s.files
        → lookup name (load_entry codec now os n s).files ≡ lookup name s.files
    files_of t e h = ap (λ u. lookup name u.files) e ∙ h

load_entries-read :
    (codec : Codec) (now : ℕ) (os : Os) (names : List Text) (s : Store) (name : Text) (r : Record)
    → has_suffix name json_suffix ≡ true
    → os.readable name ≡ true
    → held_record codec name s ≡ ok r
    → held_record codec name (load_entries codec now os names s) ≡ ok r
unfolding load_entries
load_entries-read codec now os [] s name r json can h = h
load_entries-read codec now os (n ∷ names) s name r json can h =
    load_entries-read codec now os names (load_entry codec now os n s) name r json can (
      read_same codec name s (load_entry codec now os n s)
        (load_entry-lookup codec now os n s name r json can h)
      ∙ h)

-- Opening the outbox keeps every record whose file the system lets Load read: one that lies in a
-- file that ends in .json lies there unchanged after it, whatever is cleared away or set aside.
pub load-reads :
    (codec : Codec) (now : ℕ) (os : Os) (s : Store) (name : Text) (r : Record)
    → has_suffix name json_suffix ≡ true
    → os.readable name ≡ true
    → held_record codec name s ≡ ok r
    → held_record codec name (load codec now os s).0 ≡ ok r
unfolding load
load-reads codec now os s name r json can h = elim (Bool-cases os.makeable) [
  | inr e ↦ kept (s, err unmakeable_dir) (rw (load, e) refl) h
  | inl e ↦ elim (Bool-cases os.listable) [
    | inr f ↦ kept (s, err unreadable_dir) (rw (load, e, f) refl) h
    | inl f ↦
        kept (load_entries codec now os (names_of s.files) s, ok tt) (rw (load, e, f) refl)
          (load_entries-read codec now os (names_of s.files) s name r json can h)
  ]
]
  where
    kept :
        (w : Store × Result StoreError (Unit {0}))
        → load codec now os s ≡ w
        → held_record codec name w.0 ≡ ok r
        → held_record codec name (load codec now os s).0 ≡ ok r
    kept w e h = subst (λ v. held_record codec name v.0 ≡ ok r) (sym e) h
