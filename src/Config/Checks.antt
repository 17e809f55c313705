-- ===== src/Config/Checks.antt =====
-- internal/config/load.go: what each check of a configuration accepts.
use mgate_agent.Base.{
  Option, some, ◌⊎◌, ℕ, ◌≡◌, ◌↔◌, ◌⊎◌, ◌≢◌, inl, inr, refl, false, not, List, [], ◌∷◌, any, ok,
  length, ◌==◌, All, arith, Bool-cases,
}
use mgate_agent.Base.Int.{ℤ, pos, negsuc, ◌≤ℤ◌}
use mgate_agent.Base.Text.{Text, codes, text_eq, text_eq_iff, has_prefix, is_blank}
use mgate_agent.Config.{Url, outside, check_actions, levels, slash}

-- the value lies in the range
abbrev pub InRange : ℕ → ℕ → ℤ → Type 0
InRange low high v = (pos low ≤ℤ v) × (v ≤ℤ pos high)

-- the path starts with a slash
abbrev pub IsRooted : Text → Type 0
IsRooted path = (rest : Text) × (path ≡ b'/' ∷ rest)

-- no action is blank, and none stands twice
abbrev pub AreActions : List Text → Type 0
AreActions [] = Unit
AreActions (a ∷ as') = (is_blank a ≡ false) × All (λ b. b ≢ a) as' × AreActions as'

pub outside_iff : (low high : ℕ) (v : ℤ) → (outside low high v ≡ false) ↔ InRange low high v
outside_iff low high (pos n) = (λ h. ground arith, λ h. ground arith)
outside_iff low high (negsuc n) = (λ h. ground arith, λ h. ground arith)

pub IsRooted-iff : (path : Text) → (not (has_prefix path slash) ≡ false) ↔ IsRooted path
unfolding has_prefix
IsRooted-iff [] = (λ h. cc, λ h. cc (h.1))
IsRooted-iff (c ∷ path) = (λ h. (path, ground arith), λ (rest, e). ground arith)

abbrev pub IsLevel : Text → Type 0
IsLevel l = (l ≡ codes "debug") ⊎ ((l ≡ codes "info") ⊎ ((l ≡ codes "warn") ⊎ (l ≡ codes "error")))

pub IsLevel-iff : (l : Text) → (not (any (text_eq l) levels) ≡ false) ↔ IsLevel l
unfolding any
IsLevel-iff l = (
  λ h. ground (
    arith,
    h,
    text_eq_iff l (codes "debug"),
    text_eq_iff l (codes "info"),
    text_eq_iff l (codes "warn"),
    text_eq_iff l (codes "error"),
  ),
  λ h. ground (
    arith,
    h,
    text_eq_iff l (codes "debug"),
    text_eq_iff l (codes "info"),
    text_eq_iff l (codes "warn"),
    text_eq_iff l (codes "error"),
  ),
)

pub text_ne : (s t : Text) → s ≢ t → text_eq s t ≡ false
text_ne s t h = elim (Bool-cases (text_eq s t)) [
  | inl e ↦ absurd (h ((text_eq_iff s t).0 e))
  | inr e ↦ e
]

abbrev pub Unseen : List Text → List Text → Type 0
Unseen seen = All (λ b. any (text_eq b) seen ≡ false)

pub Unseen-split :
    (a : Text) (seen as' : List Text)
    → Unseen (a ∷ seen) as'
    → All (λ b. b ≢ a) as' × Unseen seen as'
unfolding any
Unseen-split a seen [] h = (tt, tt)
Unseen-split a seen (b ∷ as') (h, hs) =
    let (differ, rest) = Unseen-split a seen as' hs in
    ((λ e. absurd (ground (arith, h, e, text_eq_iff b a)), differ), (ground (arith, h), rest))

pub Unseen-join :
    (a : Text) (seen as' : List Text)
    → All (λ b. b ≢ a) as'
    → Unseen seen as'
    → Unseen (a ∷ seen) as'
unfolding any
Unseen-join a seen [] d u = tt
Unseen-join a seen (b ∷ as') (d, ds) (u, us) =
    (ground (arith, u, text_ne b a d), Unseen-join a seen as' ds us)

pub actions_iff :
    (seen as' : List Text) → (check_actions seen as' ≡ ok tt) ↔ (Unseen seen as' × AreActions as')
unfolding check_actions
actions_iff seen [] = (λ h. (tt, tt), λ h. refl)
actions_iff seen (a ∷ as') = elim (Bool-cases (is_blank a)) [
  | inl e ↦ (λ h. absurd (ground (arith, e, h)), λ (_, (b, _, _)). absurd (ground (arith, e, b)))
  | inr e ↦ elim (Bool-cases (any (text_eq a) seen)) [
    | inl f ↦ (λ h. absurd (ground (arith, e, f, h)), λ ((u, _), _). absurd (ground (arith, f, u)))
    | inr f ↦ (
      λ h.
          let (unseen, rest) = (actions_iff (a ∷ seen) as').0 (ground (arith, e, f, h)) in
          let (differ, older) = Unseen-split a seen as' unseen in ((f, older), (e, differ, rest)),
      λ ((_, older), (_, differ, rest)).
          rw (e, f) ((actions_iff (a ∷ seen) as').1 (Unseen-join a seen as' differ older, rest)),
    )
  ]
]

pub no-Unseen : (as' : List Text) → Unseen [] as'
unfolding any
no-Unseen [] = tt
no-Unseen (a ∷ as') = (refl, no-Unseen as')

pub some_iff : (as' : List Text) → ((length as' == 0) ≡ false) ↔ (as' ≢ [])
some_iff [] = (λ h. cc, λ h. absurd (h refl))
some_iff (a ∷ as') = (λ h e. cc, λ h. ground arith)

pub rooted-blank : (path : Text) → IsRooted path → is_blank path ≡ false
unfolding is_blank
rooted-blank path (rest, e) = rw e refl

-- an http or https address with a host
abbrev pub IsAddress : (Text → Option Url) → Text → Type 0
IsAddress parse_url raw =
    (u : Url) × (parse_url raw ≡ some u)
    × ((u.scheme ≡ codes "http") ⊎ (u.scheme ≡ codes "https"))
    × (u.host ≢ [])
