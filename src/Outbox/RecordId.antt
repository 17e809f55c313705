-- ===== src/Outbox/RecordId.antt =====
-- internal/outbox/record.go: the record ids that name the files of the outbox.
use mgate_agent.Base.{
  ℕ, ◌≡◌, refl, subst, Bool, true, false, not, ◌⊎◌, inl, inr, [], ◌∷◌, all, Bool-cases,
  if◌then◌else◌, arith,
}
use mgate_agent.Base.Text.{Text, text_eq, text_eq_refl, member}
use mgate_agent.Outbox.{
  is_filename_safe, replace_unsafe, trimmed_bytes, trim_left, before_trimmed, trim_right,
  unknown_id, sanitize_record_id,
}

-- the text has a first byte, and that is none of . - _
unfoldable pub starts_bare : Text → Bool
starts_bare [] = false
starts_bare (c ∷ s) = not (member c trimmed_bytes)

-- the text has a last byte, and that is none of . - _
unfoldable pub ends_bare : Text → Bool
ends_bare [] = false
ends_bare (c ∷ []) = not (member c trimmed_bytes)
ends_bare (c ∷ d ∷ s) = ends_bare (d ∷ s)

underscore_safe : is_filename_safe b'_' ≡ true
unfolding is_filename_safe member
underscore_safe = refl

-- one byte in front: kept when it is safe, else replaced or dropped
step-all :
    (p : ℕ → Bool) (in_run kept : Bool) (c : ℕ) (rest : Text)
    → p b'_' ≡ true
    → p c ≡ kept
    → all p rest ≡ true
    → all p (if kept then c ∷ rest else if in_run then rest else b'_' ∷ rest) ≡ true
unfolding all
step-all p in_run true c rest u e h = ground arith
step-all p true false c rest u e h = h
step-all p false false c rest u e h = ground arith

replace_unsafe-all : (b : Bool) (s : Text) → all is_filename_safe (replace_unsafe b s) ≡ true
unfolding all replace_unsafe
replace_unsafe-all b [] = refl
replace_unsafe-all b (c ∷ s) =
    step-all is_filename_safe b (is_filename_safe c) c (replace_unsafe (not (is_filename_safe c)) s)
      underscore_safe refl (replace_unsafe-all (not (is_filename_safe c)) s)

trim_left-all : (p : ℕ → Bool) (s : Text) → all p s ≡ true → all p (trim_left s) ≡ true
unfolding all trim_left
trim_left-all p [] h = refl
trim_left-all p (c ∷ s) h = ground (arith, trim_left-all p s)

before_trimmed-all :
    (p : ℕ → Bool) (c : ℕ) (t : Text) → all p (c ∷ t) ≡ true → all p (before_trimmed c t) ≡ true
unfolding all before_trimmed
before_trimmed-all p c [] h = ground arith
before_trimmed-all p c (d ∷ t) h = h

trim_right-all : (p : ℕ → Bool) (s : Text) → all p s ≡ true → all p (trim_right s) ≡ true
unfolding all trim_right
trim_right-all p [] h = refl
trim_right-all p (c ∷ s) h =
    before_trimmed-all p c (trim_right s) (ground (arith, trim_right-all p s))

trim_left-cases : (s : Text) → (trim_left s ≡ []) ⊎ (starts_bare (trim_left s) ≡ true)
unfolding trim_left starts_bare
trim_left-cases [] = inl refl
trim_left-cases (c ∷ s) = elim (Bool-cases (member c trimmed_bytes)) [
  | inl e ↦ rw e (trim_left-cases s)
  | inr e ↦ rw e (inr (rw e refl))
]

before_starts :
    (c : ℕ) (s t : Text) → starts_bare (c ∷ s) ≡ true → starts_bare (before_trimmed c t) ≡ true
unfolding before_trimmed starts_bare
before_starts c s [] h = ground arith
before_starts c s (d ∷ t) h = h

trim_right-starts : (s : Text) → starts_bare s ≡ true → starts_bare (trim_right s) ≡ true
unfolding trim_right
trim_right-starts [] h = h
trim_right-starts (c ∷ s) h = before_starts c s (trim_right s) h

before_ends :
    (c : ℕ) (t : Text)
    → (t ≡ []) ⊎ (ends_bare t ≡ true)
    → (before_trimmed c t ≡ []) ⊎ (ends_bare (before_trimmed c t) ≡ true)
unfolding before_trimmed ends_bare
before_ends c [] h = elim (Bool-cases (member c trimmed_bytes)) [
  | inl e ↦ rw e (inl refl)
  | inr e ↦ rw e (inr (rw e refl))
]
before_ends c (d ∷ t) (inl h) = cc
before_ends c (d ∷ t) (inr h) = inr h

trim_right-ends : (s : Text) → (trim_right s ≡ []) ⊎ (ends_bare (trim_right s) ≡ true)
unfolding trim_right
trim_right-ends [] = inl refl
trim_right-ends (c ∷ s) = before_ends c (trim_right s) (trim_right-ends s)

trimmed_starts :
    (s : Text) → text_eq (trim_right (trim_left s)) [] ≡ false → starts_bare (trim_left s) ≡ true
unfolding trim_right
trimmed_starts s e = elim (trim_left-cases s) [
  | inl h ↦
      absurd (ground (arith, text_eq_refl [], subst (λ t. text_eq (trim_right t) [] ≡ false) h e))
  | inr h ↦ h
]

trimmed_ends : (s : Text) → text_eq (trim_right s) [] ≡ false → ends_bare (trim_right s) ≡ true
trimmed_ends s e = elim (trim_right-ends s) [
  | inl h ↦ absurd (ground (arith, text_eq_refl [], subst (λ t. text_eq t [] ≡ false) h e))
  | inr h ↦ h
]

-- the ids that are safe as the name of a file
abbrev pub IsFileName : Text → Type 0
IsFileName id = (all is_filename_safe id ≡ true) × (starts_bare id ≡ true) × (ends_bare id ≡ true)

unknown_id-IsFileName : IsFileName unknown_id
unfolding is_filename_safe member starts_bare ends_bare all
unknown_id-IsFileName = (refl, refl, refl)

-- Every command id gives a record id of letters, digits and the bytes . - _ that is not empty and
-- neither starts nor ends in one of the three, so it has no slash and is neither a hidden file nor
-- the name of a parent folder.
pub sanitize_record_id-IsFileName : (id : Text) → IsFileName (sanitize_record_id id)
unfolding sanitize_record_id
sanitize_record_id-IsFileName id =
    let clean = trim_left (replace_unsafe false id) in
    let safe =
      trim_right-all is_filename_safe clean
        (trim_left-all is_filename_safe (replace_unsafe false id) (replace_unsafe-all false id)) in
    elim (Bool-cases (text_eq (trim_right clean) [])) [
      | inl e ↦ rw e unknown_id-IsFileName
      | inr e ↦ rw e (
        safe,
        trim_right-starts clean (trimmed_starts (replace_unsafe false id) e),
        trimmed_ends clean e,
      )
    ]
