-- ===== src/Audit/Redact/Lines.antt =====
-- Redaction of output text (audit.RedactText): what is left in each line.
use mathlib.Core.List.{append-nil}
use mgate_agent.Base.{
  suc, length, ℕ, ◌≡◌, ◌≢◌, refl, ap, sym, subst, ◌↔◌, Bool, true, false, not, ◌&&◌, ◌∙◌, arith,
  ◌==◌, if◌then◌else◌, Bool-cases, inl, inr, List, [], ◌∷◌, ◌++◌, map, all, any,
}
use mgate_agent.Base.Text.{Text, text_eq, text_eq→eq, has_suffix, contains, to_lower}
use mgate_agent.Audit.Redact.{
  redacted_value, newline, attach, split_after, join, contains_sensitive_word, redact_line,
  redact_text,
}

-- the newline stands at the end and nowhere else
ends_once : Text → Bool
ends_once [] = false
ends_once (c ∷ s) = let rest = ends_once s in if c == newline then text_eq s [] else rest

no_newline : Text → Bool
no_newline [] = true
no_newline (c ∷ s) = not (c == newline) && no_newline s

-- what SplitAfter makes: full lines, and a last piece with no newline
abbrev IsLines : List Text → Type 0
IsLines [] = ⊥
IsLines (l ∷ []) = no_newline l ≡ true
IsLines (l ∷ m ∷ r) = (ends_once l ≡ true) × IsLines (m ∷ r)

attach-IsLines : (c : ℕ) (ls : List Text) → IsLines ls → IsLines (attach c ls)
unfolding attach ends_once no_newline text_eq
attach-IsLines c [] h = elim h [ ]
attach-IsLines c (l ∷ []) h = elim (Bool-cases (c == newline)) [
  | inl e ↦ rw e (rw e, h)
  | inr e ↦ rw e (rw e h)
]
attach-IsLines c (l ∷ m ∷ r) h = elim (Bool-cases (c == newline)) [
  | inl e ↦ rw e (rw e, h)
  | inr e ↦ rw e (rw e h.0, h.1)
]

split_after-IsLines : (s : Text) → IsLines (split_after s)
unfolding split_after no_newline
split_after-IsLines [] = refl
split_after-IsLines (c ∷ s) = attach-IsLines c (split_after s) (split_after-IsLines s)

attach-nonempty : (c : ℕ) (ls : List Text) → attach c ls ≢ []
unfolding attach
attach-nonempty c [] = cc
attach-nonempty c (l ∷ r) = ground arith

split_after-nonempty : (s : Text) → split_after s ≢ []
unfolding split_after
split_after-nonempty [] = cc
split_after-nonempty (c ∷ s) = attach-nonempty c (split_after s)

attach-newline :
    (c : ℕ) (ls : List Text) → (c == newline) ≡ true → ls ≢ [] → attach c ls ≡ (c ∷ []) ∷ ls
unfolding attach
attach-newline c [] e h = absurd (h refl)
attach-newline c (l ∷ r) e h = rw e

split_after_full : (l s : Text) → ends_once l ≡ true → split_after (l ++ s) ≡ l ∷ split_after s
unfolding split_after ends_once
split_after_full [] s h = cc
split_after_full (c ∷ l) s h = elim (Bool-cases (c == newline)) [
  | inl e ↦
      let l_nil : l ≡ [] = text_eq→eq l [] (rw e at h) in
      rw l_nil (attach-newline c (split_after s) e (split_after-nonempty s))
  | inr e ↦ rw (split_after_full l s (rw e at h)) (unfold attach in rw e)
]

split_after_last : (l : Text) → no_newline l ≡ true → split_after l ≡ l ∷ []
unfolding split_after no_newline attach
split_after_last [] h = refl
split_after_last (c ∷ l) h = ground (arith, split_after_last l)

-- splitting gives back the lines that were joined
split_after-join : (ls : List Text) → IsLines ls → split_after (join ls) ≡ ls
unfolding join
split_after-join [] h = elim h [ ]
split_after-join (l ∷ []) h = rw (append-nil, split_after_last l h)
split_after-join (l ∷ m ∷ r) h =
    rw (split_after_full l (join (m ∷ r)) h.0, split_after-join (m ∷ r) h.1)

has_suffix_full : (l : Text) → ends_once l ≡ true → has_suffix l (newline ∷ []) ≡ true
unfolding has_suffix ends_once text_eq
has_suffix_full [] h = cc
has_suffix_full (c ∷ l) h = ground (arith, has_suffix_full l)

has_suffix_last : (l : Text) → no_newline l ≡ true → has_suffix l (newline ∷ []) ≡ false
unfolding has_suffix no_newline text_eq
has_suffix_last [] h = refl
has_suffix_last (c ∷ l) h = ground (arith, has_suffix_last l)

redact_line_full : (l : Text) → ends_once l ≡ true → ends_once (redact_line l) ≡ true
unfolding redact_line
redact_line_full l h = elim (Bool-cases (contains_sensitive_word l)) [
  | inl e ↦ rw (e, has_suffix_full l h) (unfold ends_once text_eq in refl)
  | inr e ↦ rw e h
]

redact_line_last : (l : Text) → no_newline l ≡ true → no_newline (redact_line l) ≡ true
unfolding redact_line
redact_line_last l h = elim (Bool-cases (contains_sensitive_word l)) [
  | inl e ↦ rw (e, has_suffix_last l h) (unfold no_newline in refl)
  | inr e ↦ rw e h
]

map-IsLines : (ls : List Text) → IsLines ls → IsLines (map redact_line ls)
map-IsLines [] h = elim h [ ]
map-IsLines (l ∷ []) h = redact_line_last l h
map-IsLines (l ∷ m ∷ r) h = (redact_line_full l h.0, map-IsLines (m ∷ r) h.1)

-- the mark itself holds no sensitive word
insensitive_mark :
    (contains_sensitive_word (redacted_value ++ newline ∷ []) ≡ false)
    × (contains_sensitive_word redacted_value ≡ false)
unfolding contains_sensitive_word to_lower contains any
insensitive_mark = (refl, refl)

insensitive_line : (l : Text) → contains_sensitive_word (redact_line l) ≡ false
unfolding redact_line
insensitive_line l = elim (Bool-cases (contains_sensitive_word l)) [
  | inr e ↦ rw e e
  | inl e ↦ rw e (elim (Bool-cases (has_suffix l (newline ∷ []))) [
    | inl n ↦ rw n insensitive_mark.0
    | inr n ↦ rw n insensitive_mark.1
  ])
]

abbrev pub is_insensitive : Text → Bool
is_insensitive line = not (contains_sensitive_word line)

all_insensitive : (ls : List Text) → all is_insensitive (map redact_line ls) ≡ true
unfolding all
all_insensitive [] = refl
all_insensitive (l ∷ ls) = rw (insensitive_line l, all_insensitive ls)

map_insensitive : (ls : List Text) → all is_insensitive ls ≡ true → map redact_line ls ≡ ls
unfolding all redact_line
map_insensitive [] h = refl
map_insensitive (l ∷ ls) h = ground (arith, map_insensitive ls)

length-map-lines : (ls : List Text) → length (map redact_line ls) ≡ length ls
length-map-lines [] = refl
length-map-lines (l ∷ ls) = ap suc (length-map-lines ls)

lines-redact_text : (s : Text) → split_after (redact_text s) ≡ map redact_line (split_after s)
unfolding redact_text
lines-redact_text [] =
    unfold redact_line contains_sensitive_word to_lower contains any split_after in refl
lines-redact_text (c ∷ s) =
    split_after-join (map redact_line (split_after (c ∷ s)))
      (map-IsLines (split_after (c ∷ s)) (split_after-IsLines (c ∷ s)))

join-attach : (c : ℕ) (ls : List Text) → join (attach c ls) ≡ c ∷ join ls
unfolding join attach
join-attach c [] = refl
join-attach c (l ∷ ls) = ground arith

join-split_after : (s : Text) → join (split_after s) ≡ s
unfolding join split_after
join-split_after [] = refl
join-split_after (c ∷ s) = join-attach c (split_after s) ∙ ap (◌∷◌ c) (join-split_after s)

-- Text that the agent redacts has as many lines as before, and no line of it contains a
-- sensitive word, in any letter case.
pub redact_text-lines :
    (s : Text)
    → (all is_insensitive (split_after (redact_text s)) ≡ true)
      × (length (split_after (redact_text s)) ≡ length (split_after s))
redact_text-lines s = (
  rw (lines-redact_text s) (all_insensitive (split_after s)),
  rw (lines-redact_text s) (length-map-lines (split_after s)),
)

redact_text_insensitive : (s : Text) → all is_insensitive (split_after s) ≡ true → redact_text s ≡ s
redact_text_insensitive s h =
    sym (join-split_after (redact_text s))
    ∙ ap join (lines-redact_text s ∙ map_insensitive (split_after s) h)
    ∙ join-split_after s

-- Redaction leaves text as it is exactly when no line of it contains a sensitive word.
pub redact_text-eq_iff :
    (s : Text) → (redact_text s ≡ s) ↔ (all is_insensitive (split_after s) ≡ true)
redact_text-eq_iff s = (
  λ e. subst (λ t. all is_insensitive (split_after t) ≡ true) e (redact_text-lines s).0,
  redact_text_insensitive s,
)
